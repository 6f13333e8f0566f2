-- ===== src/FlowUnit/Modify.antt =====
-- flow-processing-unit/flow_unit.h: modify_entry. The entry that a flow matches gets new values in its
-- action set and in its row of the flow table, for each bit of a flag of two bytes.
pub mod Edits
pub mod OneByte
pub mod Row
pub mod End
pub mod Entry
use Prim.Native.Nat.{bit_or}
use net_walk.Base.{
  ℕ, ◌+◌, ◌-◌, ◌*◌, ◌%◌, ◌^◌, Option, none, some, Bytes, List, [], ◌∷◌, ◌>>=◌, load, store, ◌==◌,
  if◌then◌else◌,
}
use net_walk.Bits.{read_bit}
use net_walk.ModifyField.{actn_st_len, extract_field, replace_field}
use net_walk.FlowUnit.{TcamUnit, Position, at, str_err, flw_ent_len}
use net_walk.FlowUnit.Search.{search_tcam}

-- The tables, the local array `val` with what it holds, and the place in the new values.
pub record Edit : Type 0 where
  pub tcam : TcamUnit
  pub val : Bytes
  pub val_pos : ℕ

-- A field of the action set: the bit of the flag, the first bit in the set and the number of bits.
pub record ActionField : Type 0 where
  pub flag_bit : ℕ
  pub strt_bit : ℕ
  pub width : ℕ

-- The fields in the order of the source: MAC addresses, VLAN id and priority, MPLS label and traffic
-- class, IPv4 addresses and ToS, TCP ports.
abbrev pub action_fields : List ActionField
action_fields =
    record { flag_bit = 1; strt_bit = 0; width = 48 }
    ∷ record { flag_bit = 2; strt_bit = 48; width = 48 }
    ∷ record { flag_bit = 3; strt_bit = 96; width = 12 }
    ∷ record { flag_bit = 4; strt_bit = 108; width = 3 }
    ∷ record { flag_bit = 5; strt_bit = 111; width = 20 }
    ∷ record { flag_bit = 6; strt_bit = 131; width = 3 }
    ∷ record { flag_bit = 7; strt_bit = 134; width = 32 }
    ∷ record { flag_bit = 8; strt_bit = 166; width = 32 }
    ∷ record { flag_bit = 9; strt_bit = 198; width = 6 }
    ∷ record { flag_bit = 10; strt_bit = 204; width = 16 }
    ∷ record { flag_bit = 11; strt_bit = 220; width = 16 }
    ∷ []

-- One `if` on the flag: the next bits of the new values go to the field.
unfoldable pub edit_field : ℕ → Bytes → Bytes → ActionField → Edit → Option Edit
edit_field pos flag new_values f e = do
  b ← read_bit flag f.flag_bit
  if b == 0 then some e else do
    val ← extract_field new_values 0 e.val_pos (e.val_pos + (f.width - 1)) e.val
    table ← replace_field e.tcam.action_table pos f.strt_bit (f.strt_bit + (f.width - 1)) val
    some (record {
      tcam = record e.tcam { action_table = table };
      val = val;
      val_pos = e.val_pos + f.width;
    })

unfoldable pub edit_fields : ℕ → Bytes → Bytes → List ActionField → Edit → Option Edit
edit_fields pos flag new_values [] e = some e
edit_fields pos flag new_values (f ∷ fs) e =
    edit_field pos flag new_values f e >>= λ e'. edit_fields pos flag new_values fs e'

-- The next byte of the new values, in `val`.
unfoldable pub next_byte : Bytes → Edit → Option Edit
next_byte new_values e = do
  val ← extract_field new_values 0 e.val_pos (e.val_pos + 7) e.val
  some (record e { val = val; val_pos = e.val_pos + 8 })

-- The output port, the last byte of the action set.
unfoldable pub edit_port : ℕ → Bytes → Bytes → Edit → Option Edit
edit_port pos flag new_values e = do
  b ← read_bit flag 12
  if b == 0 then some e else do
    e' ← next_byte new_values e
    port ← load e'.val 0
    table ← store e'.tcam.action_table (pos * actn_st_len + 30) port
    some (record e' { tcam = record e'.tcam { action_table = table } })

-- All fields of the action set, unless the packets are dropped.
unfoldable pub edit_actions : ℕ → Bytes → Bytes → Edit → Option Edit
edit_actions pos flag new_values e = do
  drop ← read_bit flag 0
  if drop == 0
      then (edit_fields pos flag new_values action_fields e >>= λ e'.
          edit_port pos flag new_values e')
      else some e

-- A byte of the row in the flow table: what is written is a function of the new value.
unfoldable pub edit_byte : ℕ → ℕ → (ℕ → ℕ) → Bytes → Bytes → Edit → Option Edit
edit_byte flag_bit place written flag new_values e = do
  b ← read_bit flag flag_bit
  if b == 0 then some e else do
    e' ← next_byte new_values e
    v ← load e'.val 0
    table ← store e'.tcam.flow_table place (written v)
    some (record e' { tcam = record e'.tcam { flow_table = table } })

-- The counter is taken back by one, and the flag is added to the one of the row.
unfoldable pub end_edit : ℕ → Bytes → Edit → Option TcamUnit
end_edit pos flag e = do
  hits ← load e.tcam.flow_table (pos * flw_ent_len + 46)
  flows ← store e.tcam.flow_table (pos * flw_ent_len + 46) ((hits + 255) % 2 ^ 8)
  old₀ ← load e.tcam.flag_table (2 * pos)
  flag₀ ← load flag 0
  flags₁ ← store e.tcam.flag_table (2 * pos) (bit_or old₀ flag₀)
  old₁ ← load flags₁ (2 * pos + 1)
  flag₁ ← load flag 1
  flags₂ ← store flags₁ (2 * pos + 1) (bit_or old₁ flag₁)
  some (record e.tcam { flow_table = flows; flag_table = flags₂ })

-- Priority, counter (one more than the new value) and timeout.
unfoldable pub modify_at : ℕ → Bytes → Bytes → Edit → Option TcamUnit
modify_at pos flag new_values e = do
  e₁ ← edit_actions pos flag new_values e
  e₂ ← edit_byte 13 (pos * flw_ent_len + 45) (λ v. v) flag new_values e₁
  e₃ ← edit_byte 14 (pos * flw_ent_len + 46) (λ v. (v + 1) % 2 ^ 8) flag new_values e₂
  e₄ ← edit_byte 15 (pos * flw_ent_len + 47) (λ v. v) flag new_values e₃
  end_edit pos flag e₄

-- `val` is what the local array of 6 bytes holds at first. Without a match the position is -1, and
-- the counter that is taken back lies before the table.
unfoldable pub modify_entry :
    TcamUnit → Bytes → Bytes → Bytes → Bytes → Option (Position × TcamUnit)
modify_entry tcam match_fields flag new_values val = search_tcam tcam match_fields >>= λ r.
    elim (r.0) [
      | none ↦ some (str_err, r.1)
      | some none ↦ none
      | some (some (pos, mask_pos)) ↦
          modify_at pos flag new_values (record { tcam = r.1; val = val; val_pos = 0 }) >>= λ tcam'.
          some (at pos, tcam')
    ]

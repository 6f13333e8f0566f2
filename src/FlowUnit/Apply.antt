-- ===== src/FlowUnit/Apply.antt =====
-- flow-processing-unit/flow_unit.h: apply_action. A flow is looked up in the cache, then in the table,
-- and what the action flag asks for is written to the standard output.
use net_walk.Base.{
  ℕ, ◌+◌, ◌*◌, Option, none, some, Bytes, List, [], ◌∷◌, ◌++◌, ◌>>=◌, load, copy_bytes, replicate,
  ◌==◌, if◌then◌else◌,
}
use net_walk.Bits.{read_bit}
use net_walk.ModifyField.{actn_st_len, extract_field}
use net_walk.FlowUnit.{TcamUnit, Position, at}
use net_walk.FlowUnit.Cache.{FlowCache, search_cache, search_flow}

-- What is written: that the packet is dropped, a field by its bit of the flag with the bytes, or the
-- output port.
pub data Output : Type 0 where
  cache_hit : Output
  policy_controller : Output
  dropped : Output
  field : ℕ → Bytes → Output
  output_port : ℕ → Output

-- A field: its bit of the flag, its first and last bit in the action set, how many bytes of `val` are
-- zeroed before, and how many are written.
pub record ShownField : Type 0 where
  pub flag_bit : ℕ
  pub strt_bit : ℕ
  pub end_bit : ℕ
  pub zeroed : ℕ
  pub shown : ℕ

abbrev pub shown_fields : List ShownField
shown_fields =
    record { flag_bit = 1; strt_bit = 0; end_bit = 47; zeroed = 0; shown = 6 }
    ∷ record { flag_bit = 2; strt_bit = 48; end_bit = 95; zeroed = 0; shown = 6 }
    ∷ record { flag_bit = 3; strt_bit = 96; end_bit = 107; zeroed = 6; shown = 2 }
    ∷ record { flag_bit = 4; strt_bit = 108; end_bit = 110; zeroed = 6; shown = 1 }
    ∷ record { flag_bit = 5; strt_bit = 111; end_bit = 130; zeroed = 6; shown = 3 }
    ∷ record { flag_bit = 6; strt_bit = 131; end_bit = 133; zeroed = 6; shown = 1 }
    ∷ record { flag_bit = 7; strt_bit = 134; end_bit = 165; zeroed = 0; shown = 4 }
    ∷ record { flag_bit = 8; strt_bit = 166; end_bit = 197; zeroed = 0; shown = 4 }
    ∷ record { flag_bit = 9; strt_bit = 198; end_bit = 203; zeroed = 1; shown = 1 }
    ∷ record { flag_bit = 10; strt_bit = 204; end_bit = 219; zeroed = 0; shown = 2 }
    ∷ record { flag_bit = 11; strt_bit = 220; end_bit = 235; zeroed = 0; shown = 2 }
    ∷ []

-- One `if` on the action flag, with the local array `val`.
unfoldable pub show_field : Bytes → Bytes → ShownField → Bytes → Option (Bytes × List Output)
show_field action_flag action_set f val = do
  b ← read_bit action_flag f.flag_bit
  if b == 0 then some (val, []) else do
    zeroed ← copy_bytes f.zeroed (replicate f.zeroed 0) 0 val 0
    val' ← extract_field action_set 0 f.strt_bit f.end_bit zeroed
    bytes ← copy_bytes f.shown val' 0 (replicate f.shown 0) 0
    some (val', field f.flag_bit bytes ∷ [])

unfoldable pub show_fields : Bytes → Bytes → List ShownField → Bytes → Option (List Output)
show_fields action_flag action_set [] val = some []
show_fields action_flag action_set (f ∷ fs) val = do
  (val', out) ← show_field action_flag action_set f val
  outs ← show_fields action_flag action_set fs val'
  some (out ++ outs)

-- What follows the lookup, at the row `pos`. `val` is what the local array of 6 bytes holds at first.
unfoldable pub show_actions : TcamUnit → Bytes → ℕ → Bytes → Option (List Output)
show_actions tcam action_set pos val = do
  flag₀ ← load tcam.flag_table (2 * pos)
  flag₁ ← load tcam.flag_table (2 * pos + 1)
  drop ← read_bit (flag₀ ∷ flag₁ ∷ []) 0
  if drop == 0
      then (show_fields (flag₀ ∷ flag₁ ∷ []) action_set shown_fields val >>= λ outs.
          load action_set 30 >>= λ port. some (outs ++ (output_port port ∷ [])))
      else some (dropped ∷ [])

-- The result is 1 for `none`, or the negative position that the table search returned.
pub record Applied : Type 0 where
  pub result : Option Position
  pub tcam : TcamUnit
  pub cache : FlowCache
  pub output : List Output

unfoldable pub apply_found : TcamUnit → FlowCache → Bytes → ℕ → Bytes → List Output → Option Applied
apply_found tcam cache action_set pos val before = do
  out ← show_actions tcam action_set pos val
  some (record { result = none; tcam = tcam; cache = cache; output = before ++ out })

-- `action_set` and `val` are what the local arrays of 31 and 6 bytes hold at first.
unfoldable pub apply_action : FlowCache → TcamUnit → Bytes → Bytes → Bytes → Option Applied
apply_action cache tcam new_flow action_set val = search_cache cache new_flow tcam >>= λ c.
    elim (c.0) [
      | some pos ↦
          copy_bytes actn_st_len c.1.action_table (pos * actn_st_len) action_set 0 >>= λ actions.
          apply_found c.1 cache actions pos val (cache_hit ∷ [])
      | none ↦ search_flow cache c.1 new_flow action_set >>= λ s. elim s.position [
        | at pos ↦ apply_found s.tcam s.cache s.action_set pos val []
        | other ↦ some (record {
          result = some other;
          tcam = s.tcam;
          cache = s.cache;
          output = policy_controller ∷ [];
        })
      ]
    ]

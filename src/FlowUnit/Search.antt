-- ===== src/FlowUnit/Search.antt =====
-- `search_tcam` and `search_flow` of flow-processing-unit/flow_unit.h: the linear search for the
-- matching entry of the highest priority.
pub mod Match
pub mod Refine
pub mod Best
use net_walk.Base.{
  ℕ, zero, suc, ◌+◌, ◌*◌, ◌%◌, ◌^◌, Bool, true, false, not, Option, none, some, Bytes, ◌>>=◌, load,
  store, ◌==◌, leb, ltb, if◌then◌else◌,
}
use net_walk.Bits.{read_bit}
use net_walk.FlowUnit.{
  TcamUnit, Position, at, no_match, str_err, mtch_fld_len, flw_ent_len, group_bit,
}

-- A loop over `j` from `lo` that breaks at the first round whose test succeeds: whether one did.
unfoldable pub any_round : ℕ → ℕ → (ℕ → Option Bool) → Option Bool
any_round zero lo test = some false
any_round (suc n) lo test =
    test lo >>= λ found. elim found [ true ↦ some true | false ↦ any_round n (lo + 1) test ]

-- The mask has the bit, and the flow and the entry differ there.
unfoldable pub bit_differs : Bytes → ℕ → Bytes → ℕ → Bytes → ℕ → Option Bool
bit_differs masks mask_bit flow flow_bit table entry_bit = do
  m ← read_bit masks mask_bit
  if m == 0
      then some false
      else do x ← read_bit flow flow_bit; y ← read_bit table entry_bit; some (not (x == y))

-- The two loops that leave `k` at 1 if the flow does not match the entry under the mask.
unfoldable pub differs : TcamUnit → Bytes → ℕ → ℕ → Option Bool
differs tcam flow mask_no flow_no = any_round mtch_fld_len 0 λ i. any_round 8 0 λ j.
    bit_differs tcam.mask_table ((mask_no * mtch_fld_len + i) * 8 + j) flow (i * 8 + j)
      tcam.flow_table ((flow_no * flw_ent_len + i) * 8 + j)

-- `match_no` with `mask_pos[0]`; `none` is the initial -1.
abbrev pub Found : Type 0
Found = Option (ℕ × ℕ)

-- The entry found so far, or the new one if its priority is higher.
unfoldable pub prefer : Bytes → Found → ℕ → ℕ → Option Found
prefer table none mask_no flow_no = some (some (flow_no, mask_no))
prefer table (some (match_no, mask_pos)) mask_no flow_no = do
  old ← load table (match_no * flw_ent_len + 45)
  new ← load table (flow_no * flw_ent_len + 45)
  some (if ltb old new then some (flow_no, mask_no) else some (match_no, mask_pos))

-- The hit counter of an entry, a byte, counts one more.
unfoldable pub count_hit : Bytes → ℕ → Option Bytes
count_hit table flow_no = do
  hits ← load table (flow_no * flw_ent_len + 46)
  store table (flow_no * flw_ent_len + 46) ((hits + 1) % 2 ^ 8)

-- The first entry of a group goes on to the next mask.
unfoldable pub next_mask : ℕ → ℕ → ℕ
next_mask first mask_no = if first == 0 then mask_no else mask_no + 1

-- `mask_no >= mask_tail`: more groups than masks.
unfoldable pub no_such_mask : TcamUnit → ℕ → Bool
no_such_mask tcam mask_no = leb tcam.mask_tail mask_no

-- Where a round of the loop leaves: out of the function with STR_ERR, or the variables.
pub data Round : Type 0 where
  stop : TcamUnit → Round
  go : ℕ → Found → TcamUnit → Round

-- One round, at entry `flow_no`.
unfoldable pub search_round : ℕ → ℕ → Found → Bytes → TcamUnit → Option Round
search_round flow_no mask_no found new_flow tcam = do
  first ← read_bit tcam.flow_table (group_bit flow_no)
  if no_such_mask tcam (next_mask first mask_no) then some (stop tcam) else do
    k ← differs tcam new_flow (next_mask first mask_no) flow_no
    if k then some (go (next_mask first mask_no) found tcam) else do
      table ← count_hit tcam.flow_table flow_no
      found' ← prefer table found (next_mask first mask_no) flow_no
      some (go (next_mask first mask_no) found' (record tcam { flow_table = table }))

-- The loop from entry `flow_no` on, with `n` entries to go; `none` inside is STR_ERR.
unfoldable pub search_loop : ℕ → ℕ → ℕ → Found → Bytes → TcamUnit → Option (Option Found × TcamUnit)
search_loop zero flow_no mask_no found new_flow tcam = some (some found, tcam)
search_loop (suc n) flow_no mask_no found new_flow tcam =
    search_round flow_no mask_no found new_flow tcam >>= λ r. elim r [
      | stop tcam' ↦ some (none, tcam')
      | go mask_no' found' tcam' ↦ search_loop n (flow_no + 1) mask_no' found' new_flow tcam'
    ]

-- The position that the code returns.
abbrev pub position : Option Found → Position
position none = str_err
position (some none) = no_match
position (some (some (match_no, mask_pos))) = at match_no

unfoldable pub search_tcam : TcamUnit → Bytes → Option (Option Found × TcamUnit)
search_tcam tcam new_flow = search_loop tcam.flow_tail 0 0 none new_flow tcam

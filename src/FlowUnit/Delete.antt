-- ===== src/FlowUnit/Delete.antt =====
-- flow-processing-unit/flow_unit.h: how the entry that a flow matches is deleted. The rows behind it
-- move up by one.
pub mod Shift
pub mod Masks
pub mod Actions
pub mod Steps
pub mod Regroup
pub mod Rows
pub mod Removed
pub mod Entry
pub mod Stale
use net_walk.Base.{
  ℕ, zero, suc, ◌+◌, ◌-◌, ◌*◌, Bool, true, false, not, Option, none, some, Bytes, ◌>>=◌, copy_bytes,
  replicate, ◌==◌, if◌then◌else◌,
}
use net_walk.Bits.{read_bit, set_bit}
use net_walk.FlowUnit.{
  TcamUnit, mtch_fld_len, group_bit, write_new_mask, write_new_flow_entry, write_new_action,
}
use net_walk.FlowUnit.Search.{search_tcam}
use net_walk.FlowUnit.Insert.{read_row, read_action, get_mask_pos}

-- One round: the mask behind the tail is written at the tail, which steps on.
unfoldable pub move_mask_up : TcamUnit → Option TcamUnit
move_mask_up tcam = do
  dummy_mask ←
      copy_bytes mtch_fld_len tcam.mask_table ((tcam.mask_tail + 1) * mtch_fld_len) (replicate 45 0)
        0
  (tcam', _) ← write_new_mask tcam dummy_mask
  some tcam'

unfoldable pub mask_up_loop : ℕ → TcamUnit → Option TcamUnit
mask_up_loop zero tcam = some tcam
mask_up_loop (suc n) tcam = move_mask_up tcam >>= λ tcam'. mask_up_loop n tcam'

-- The loop while `mask_tail < mask_tail_old - 1`, from `pos` on.
unfoldable pub delete_restructure_mask : TcamUnit → ℕ → Option TcamUnit
delete_restructure_mask tcam pos = do
  tcam' ← mask_up_loop (tcam.mask_tail - 1 - pos) (record tcam { mask_tail = pos })
  some (record tcam' { mask_tail = tcam.mask_tail - 1 })

-- One round: the row behind the tail is written at the tail, which steps on.
unfoldable pub move_up : TcamUnit → Option TcamUnit
move_up tcam = do
  dummy_flow ← read_row tcam.flow_table (tcam.flow_tail + 1)
  write_new_flow_entry tcam dummy_flow

unfoldable pub move_up_loop : ℕ → TcamUnit → Option TcamUnit
move_up_loop zero tcam = some tcam
move_up_loop (suc n) tcam = move_up tcam >>= λ tcam'. move_up_loop n tcam'

unfoldable pub delete_restructure_flow : TcamUnit → ℕ → Option TcamUnit
delete_restructure_flow tcam pos = do
  tcam' ← move_up_loop (tcam.flow_tail - 1 - pos) (record tcam { flow_tail = pos })
  some (record tcam' { flow_tail = tcam.flow_tail - 1 })

-- The loop from row `j` on, by the rounds that are left.
unfoldable pub action_up_loop : ℕ → ℕ → TcamUnit → Option TcamUnit
action_up_loop zero j tcam = some tcam
action_up_loop (suc n) j tcam = do
  (dummy_action, dummy_flag) ← read_action tcam (j + 1)
  tcam' ← write_new_action tcam dummy_action dummy_flag j
  action_up_loop n (j + 1) tcam'

unfoldable pub delete_restructure_action : TcamUnit → ℕ → Option TcamUnit
delete_restructure_action flow_unit pos = action_up_loop (flow_unit.flow_tail - pos) pos flow_unit

-- Whether the entry is the only one of a group that has a group bit. The next row is looked at only
-- if there is one.
unfoldable pub only_of_group : TcamUnit → ℕ → Option Bool
only_of_group tcam flow_pos = do
  first ← read_bit tcam.flow_table (group_bit flow_pos)
  if first == 0
      then some false
      else if flow_pos == tcam.flow_tail - 1
      then some true
      else do next ← read_bit tcam.flow_table (group_bit (flow_pos + 1)); some (not (next == 0))

-- The first `if`: the mask of such an entry goes.
unfoldable pub delete_mask : TcamUnit → ℕ → Option TcamUnit
delete_mask tcam flow_pos = do
  only ← only_of_group tcam flow_pos
  if only
      then (get_mask_pos tcam flow_pos >>= λ mask_pos. delete_restructure_mask tcam mask_pos)
      else some tcam

-- The second `if`: the group bit goes on to the next row, which is looked at also behind the tail.
unfoldable pub hand_on : TcamUnit → ℕ → Option TcamUnit
hand_on tcam flow_pos = do
  first ← read_bit tcam.flow_table (group_bit flow_pos)
  if first == 0 then some tcam else do
    next ← read_bit tcam.flow_table (group_bit (flow_pos + 1))
    if next == 0
        then (set_bit tcam.flow_table (group_bit (flow_pos + 1)) >>= λ table.
            some (record tcam { flow_table = table }))
        else some tcam

-- What follows the search.
unfoldable pub delete_at : TcamUnit → ℕ → Option TcamUnit
delete_at tcam flow_pos = do
  tcam₁ ← delete_mask tcam flow_pos
  tcam₂ ← hand_on tcam₁ flow_pos
  tcam₃ ← delete_restructure_flow tcam₂ flow_pos
  delete_restructure_action tcam₃ flow_pos

-- With no match, or STR_ERR, the position is negative and the first group bit lies before the table.
unfoldable pub delete_flow_entry : TcamUnit → Bytes → Option (ℕ × TcamUnit)
delete_flow_entry tcam flow_entry = search_tcam tcam flow_entry >>= λ r. elim (r.0) [
  | some (some (flow_pos, mask_pos)) ↦ delete_at r.1 flow_pos >>= λ tcam'. some (flow_pos, tcam')
  | _ ↦ none
]

-- ===== src/FlowUnit/Insert.antt =====
-- flow-processing-unit/flow_unit.h: how an entry is inserted. A new entry goes to the end of its
-- mask's group, and the rows behind it move down by one; an entry with a new mask goes to the end.
pub mod Shift
pub mod Find
pub mod Group
pub mod Place
pub mod Outcome
pub mod Keep
pub mod Masks
pub mod Actions
pub mod ActionShift
pub mod ActionRow
pub mod Entry
use net_walk.Base.{
  ℕ, zero, suc, ◌+◌, ◌-◌, ◌*◌, Bool, true, false, not, Option, none, some, Bytes, List, [], ◌∷◌,
  ◌>>=◌, load, copy_bytes, replicate, ◌==◌, ltb, leb, if◌then◌else◌,
}
use net_walk.Bits.{read_bit, set_bit, reset_bit}
use net_walk.ModifyField.{actn_st_len}
use net_walk.FlowUnit.{
  TcamUnit, Position, at, rdndnt, tbl_full, str_err, mtch_fld_len, flw_ent_len, no_f_flws,
  group_bit, write_new_mask, write_new_flow_entry, write_new_action,
}
use net_walk.FlowUnit.Search.{any_round}

-- A row of the flow table in the local array, all of which is overwritten.
abbrev pub read_row : Bytes → ℕ → Option Bytes
read_row table row = copy_bytes flw_ent_len table (row * flw_ent_len) (replicate 48 0) 0

-- One round: the row before the tail is written at the tail, and the tail steps back.
unfoldable pub move_down : TcamUnit → Option TcamUnit
move_down tcam = do
  dummy_flow ← read_row tcam.flow_table (tcam.flow_tail - 1)
  tcam' ← write_new_flow_entry tcam dummy_flow
  some (record tcam' { flow_tail = tcam'.flow_tail - 2 })

-- The loop while `flow_tail > pos`, by the rounds that are left.
unfoldable pub move_down_loop : ℕ → TcamUnit → Option TcamUnit
move_down_loop zero tcam = some tcam
move_down_loop (suc n) tcam = move_down tcam >>= λ tcam'. move_down_loop n tcam'

unfoldable pub restructure_flow_table : TcamUnit → ℕ → Option TcamUnit
restructure_flow_table tcam pos = do
  tcam' ← move_down_loop (tcam.flow_tail - pos) tcam
  some (record tcam' { flow_tail = tcam.flow_tail + 1 })

-- The action set and the flag of a row, in the local arrays.
abbrev pub read_action : TcamUnit → ℕ → Option (Bytes × Bytes)
read_action tcam row = do
  dummy_action ← copy_bytes actn_st_len tcam.action_table (row * actn_st_len) (replicate 31 0) 0
  flag₀ ← load tcam.flag_table (2 * row)
  flag₁ ← load tcam.flag_table (2 * row + 1)
  some (dummy_action, flag₀ ∷ flag₁ ∷ [])

-- The loop while `tail > pos`, from `tail` on, by the rounds that are left.
unfoldable pub action_loop : ℕ → ℕ → TcamUnit → Option TcamUnit
action_loop zero tail tcam = some tcam
action_loop (suc n) tail tcam = do
  (dummy_action, dummy_flag) ← read_action tcam (tail - 1)
  tcam' ← write_new_action tcam dummy_action dummy_flag tail
  action_loop n (tail - 1) tcam'

unfoldable pub restructure_action_tables : TcamUnit → ℕ → Option TcamUnit
restructure_action_tables flow_unit pos =
    action_loop (flow_unit.flow_tail - 1 - pos) (flow_unit.flow_tail - 1) flow_unit

-- The set group bits of the `n` rows from `i` on are added to `mask_pos`.
unfoldable pub count_groups : ℕ → ℕ → TcamUnit → ℕ → Option ℕ
count_groups zero i tcam mask_pos = some mask_pos
count_groups (suc n) i tcam mask_pos = do
  first ← read_bit tcam.flow_table (group_bit i)
  count_groups n (i + 1) tcam (if first == 0 then mask_pos else mask_pos + 1)

-- The rows below the tail, up to `pos`.
unfoldable pub get_mask_pos : TcamUnit → ℕ → Option ℕ
get_mask_pos tcam pos =
    count_groups (if ltb pos tcam.flow_tail then pos + 1 else tcam.flow_tail) 0 tcam 0

-- The loop from row `i` on, with `n` rows to go: the row whose group bit makes `k` the mask's
-- number, or `none` for STR_ERR at the tail.
unfoldable pub locate_loop : ℕ → ℕ → ℕ → TcamUnit → ℕ → Option (Option ℕ)
locate_loop zero i k tcam mask_no = some none
locate_loop (suc n) i k tcam mask_no = do
  first ← read_bit tcam.flow_table (group_bit i)
  let rest = locate_loop n (i + 1) (if first == 0 then k else k + 1) tcam mask_no
  if first == 0 then rest else if k + 1 == mask_no then some (some i) else rest

unfoldable pub locate_mask_group : TcamUnit → ℕ → Option (Option ℕ)
locate_mask_group tcam mask_no =
    if mask_no == 0 then some (some 0) else locate_loop tcam.flow_tail 0 0 tcam mask_no

-- The mask has the bit `bit`, and the two others differ. The bit of the new entry is taken at
-- `i * 8 + j`, with the row's number.
unfoldable pub bit_clashes : TcamUnit → Bytes → Bytes → ℕ → ℕ → ℕ → Option Bool
bit_clashes tcam mask flow_entry i l j = do
  m ← read_bit mask (l * 8 + j)
  if m == 0 then some false else do
    x ← read_bit flow_entry (i * 8 + j)
    y ← read_bit tcam.flow_table ((i * flw_ent_len + l) * 8 + j)
    some (not (x == y))

-- The two loops that leave `k` at 1 if the new entry differs from row `i` under the mask.
unfoldable pub clashes : TcamUnit → Bytes → Bytes → ℕ → Option Bool
clashes tcam mask flow_entry i =
    any_round mtch_fld_len 0 (λ l. any_round 8 0 (λ j. bit_clashes tcam mask flow_entry i l j))

-- What follows row `i`: RDNDNT if it does not clash, the end of the group, or the rest of the loop.
unfoldable pub after_row : TcamUnit → ℕ → Bool → Option Position → Option Position
after_row tcam i k rest =
    if k
    then (read_bit tcam.flow_table (group_bit (i + 1)) >>= λ first.
        if first == 0 then rest else some (at (i + 1)))
    else some rdndnt

-- The loop from row `i` on, with `n` rows below the tail behind it. The group bit of the next row is
-- read before the row is compared with the tail.
unfoldable pub group_loop : ℕ → ℕ → TcamUnit → Bytes → Bytes → Option Position
group_loop zero i tcam mask flow_entry =
    clashes tcam mask flow_entry i >>= λ k. after_row tcam i k (some (at (i + 1)))
group_loop (suc n) i tcam mask flow_entry = clashes tcam mask flow_entry i >>= λ k.
    after_row tcam i k (group_loop n (i + 1) tcam mask flow_entry)

-- The first round of the loop with the start STR_ERR, -10: at the first bit of the mask it reads
-- before the arrays, and with an empty mask it finds no difference.
unfoldable pub group_before : Bytes → Option Position
group_before mask = do
  k ← any_round mtch_fld_len 0 (λ l.
      any_round 8 0 (λ j. do m ← read_bit mask (l * 8 + j); if m == 0 then some false else none))
  some rdndnt

unfoldable pub search_within_mask_group : TcamUnit → Bytes → Bytes → Option ℕ → Option Position
search_within_mask_group tcam mask flow_entry none = group_before mask
search_within_mask_group tcam mask flow_entry (some start) =
    group_loop (tcam.flow_tail - (start + 1)) start tcam mask flow_entry

-- The loop that compares the mask with the one at `i`.
unfoldable pub other_mask : TcamUnit → Bytes → ℕ → Option Bool
other_mask tcam mask i =
    any_round mtch_fld_len 0 (λ j. do
      x ← load tcam.mask_table (i * mtch_fld_len + j)
      y ← load mask j
      some (not (x == y)))

-- The first of the `n` masks from `i` on that is the given one.
unfoldable pub find_mask : ℕ → ℕ → TcamUnit → Bytes → Option (Option ℕ)
find_mask zero i tcam mask = some none
find_mask (suc n) i tcam mask = other_mask tcam mask i >>= λ k. elim k [
  | true ↦ find_mask n (i + 1) tcam mask
  | false ↦ some (some i)
]

-- What `add_new_flow_entry` returns, and the unit and the caller's arrays that it leaves.
pub record Added : Type 0 where
  pub position : Position
  pub tcam : TcamUnit
  pub mask : Bytes
  pub flow_entry : Bytes

-- The rows from `pos` on make room, and the entry is written there without a group bit.
unfoldable pub insert_at : TcamUnit → Bytes → Bytes → ℕ → Option Added
insert_at tcam mask flow_entry pos = do
  tcam₁ ← restructure_flow_table tcam pos
  flow_entry' ← reset_bit flow_entry (44 * 8 + 4)
  tcam₂ ← write_new_flow_entry (record tcam₁ { flow_tail = pos }) flow_entry'
  some (record {
    position = at pos;
    tcam = record tcam₂ { flow_tail = tcam₁.flow_tail };
    mask = mask;
    flow_entry = flow_entry';
  })

-- What follows the search of the group.
unfoldable pub place_entry : TcamUnit → Bytes → Bytes → Position → Option Added
place_entry tcam mask flow_entry (at pos) = insert_at tcam mask flow_entry pos
place_entry tcam mask flow_entry _ =
    some (record { position = rdndnt; tcam = tcam; mask = mask; flow_entry = flow_entry })

-- The mask exists, with the number `i`.
unfoldable pub add_to_group : TcamUnit → Bytes → Bytes → ℕ → Option Added
add_to_group tcam mask flow_entry i = do
  start ← locate_mask_group tcam i
  pos ← search_within_mask_group tcam mask flow_entry start
  place_entry tcam mask flow_entry pos

-- The mask does not exist: the entry starts a group, with a group bit unless it is the first row.
unfoldable pub add_group : TcamUnit → Bytes → Bytes → Option Added
add_group tcam mask flow_entry = do
  flow_entry' ←
      if tcam.flow_tail == 0
      then reset_bit flow_entry (44 * 8 + 4)
      else set_bit flow_entry (44 * 8 + 4)
  (tcam₁, mask') ← write_new_mask tcam mask
  tcam₂ ← write_new_flow_entry tcam₁ flow_entry'
  some (record {
    position = at (tcam₂.flow_tail - 1);
    tcam = tcam₂;
    mask = mask';
    flow_entry = flow_entry';
  })

unfoldable pub add_new_flow_entry : TcamUnit → Bytes → Bytes → Option Added
add_new_flow_entry tcam mask flow_entry =
    if leb no_f_flws tcam.flow_tail
    then some (record { position = tbl_full; tcam = tcam; mask = mask; flow_entry = flow_entry })
    else (find_mask tcam.mask_tail 0 tcam mask >>= λ found. elim found [
      | some i ↦ add_to_group tcam mask flow_entry i
      | none ↦ add_group tcam mask flow_entry
    ])

-- The action set and the flag of the new entry; rows behind it move down first.
unfoldable pub add_action : Added → Bytes → Bytes → ℕ → Option Added
add_action added action_set flag pos = do
  tcam₁ ←
      if ltb pos (added.tcam.flow_tail - 1)
      then restructure_action_tables added.tcam pos
      else some added.tcam
  tcam₂ ← write_new_action tcam₁ action_set flag pos
  some (record added { tcam = tcam₂ })

-- What follows the writing of the entry, by its position. With another negative one than the two that
-- are returned, the tables would be accessed before their start.
unfoldable pub end_entry : Added → Bytes → Bytes → Position → Option Added
end_entry added action_set flag tbl_full = some added
end_entry added action_set flag rdndnt = some added
end_entry added action_set flag (at pos) = add_action added action_set flag pos
end_entry added action_set flag _ = none

unfoldable pub add_new_entry : TcamUnit → Bytes → Bytes → Bytes → Bytes → Option Added
add_new_entry flow_unit mask flow_entry action_set flag =
    add_new_flow_entry flow_unit mask flow_entry >>= λ added.
    end_entry added action_set flag added.position

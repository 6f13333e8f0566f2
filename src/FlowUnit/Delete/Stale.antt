-- ===== src/FlowUnit/Delete/Stale.antt =====
-- The deletion of the only entry: its row and its mask stay, and an insertion under that mask meets them.
use net_walk.Base.{
  ℕ, ◌+◌, ◌-◌, ◌≤◌, ◌<◌, ◌≡◌, ◌⊎◌, inl, inr, refl, ap, ◌∙◌, some, false, Bool-cases, arith, Bytes,
  length, byte_at, Returns, leb, Option,
}
use net_walk.Bits.{read_bit}
use net_walk.Bits.Laws.{put_bit, reset_bit_in, length-put_bit, read_bit_in}
use net_walk.FlowUnit.{TcamUnit, at, rdndnt, group_bit}
use net_walk.FlowUnit.Search.Refine.{best, search_tcam_refines}
use net_walk.FlowUnit.Write.{write_new_flow_entry_lem}
use net_walk.FlowUnit.Groups.{
  starts, starts_bound, first_bit, Grouped, Grouped-IsValid, Grouped-mask_of,
}
use net_walk.FlowUnit.Groups.Searched.{Grouped-counted, after_search}
use net_walk.FlowUnit.Insert.{
  Added, add_new_flow_entry, add_to_group, place_entry, insert_at, find_mask, group_loop,
  search_within_mask_group, locate_mask_group, restructure_flow_table, move_down_loop,
}
use net_walk.FlowUnit.Insert.Find.{SameMask, FoundMask, found, new, find_mask_all}
use net_walk.FlowUnit.Insert.Group.{clashes-Runs, after_same, after_clash}
use net_walk.FlowUnit.Delete.{
  delete_at, delete_mask, only_of_group, hand_on, delete_restructure_flow, move_up_loop,
  delete_restructure_action, action_up_loop, delete_flow_entry,
}

-- The insertion is refused, or it writes row 1 of a table that then has one row, row 0, which is what
-- it was.
pub data Lost (t : TcamUnit) : Added → Type 0 where
  refused : {a : Added} → a.position ≡ rdndnt → a.tcam ≡ t → Lost t a
  revived :
      {a : Added}
      → a.position ≡ at 1
      → a.tcam.flow_tail ≡ 1
      → ((q : ℕ) → q < 48 → byte_at a.tcam.flow_table q ≡ byte_at t.flow_table q)
      → Lost t a

-- Row 0 starts no group, so both tests on group bits leave the unit.
module _ (t : TcamUnit) (size : length t.flow_table ≡ 960) (one : t.flow_tail ≡ 1)
    (z : first_bit t 0 ≡ 0) where
  first_read : read_bit t.flow_table (group_bit 0) ≡ some 0
  first_read = read_bit_in t.flow_table (group_bit 0) (omega arith) ∙ ap some z

  mask_stays : delete_mask t 0 ≡ some t
  unfolding delete_mask only_of_group
  mask_stays = rw first_read refl

  nothing_handed : hand_on t 0 ≡ some t
  unfolding hand_on
  nothing_handed = rw first_read refl

  tail_back : delete_restructure_flow t 0 ≡ some (record t { flow_tail = 0 })
  unfolding delete_restructure_flow move_up_loop
  tail_back =
      let e : t.flow_tail - 1 - 0 ≡ 0 = omega arith in
      let e' : t.flow_tail - 1 ≡ 0 = omega arith in rw (e, e') refl

  no_action :
      delete_restructure_action (record t { flow_tail = 0 }) 0 ≡ some (record t { flow_tail = 0 })
  unfolding delete_restructure_action action_up_loop
  no_action = refl

  delete_at_only : delete_at t 0 ≡ some (record t { flow_tail = 0 })
  unfolding delete_at
  delete_at_only = rw (mask_stays, nothing_handed, tail_back) no_action

module _ (t : TcamUnit) (mask flow_entry : Bytes) (flows : length t.flow_table ≡ 960)
    (masks : length t.mask_table ≡ 900) (empty : t.flow_tail ≡ 0) (one : t.mask_tail ≡ 1)
    (long : 45 ≤ length mask) (whole : 46 ≤ length flow_entry) (same : SameMask t mask 0) where
  finds_mask : find_mask t.mask_tail 0 t mask ≡ some (some 0)
  finds_mask =
      let (r, run, f) = find_mask_all t mask masks long (omega arith) in run ∙ ap some (first r f)
    where
      first : (r : Option ℕ) → FoundMask t mask r → r ≡ some 0
      first r (found i h s before) = ap some (omega arith)
      first r (new other) = absurd (other 0 (omega arith) same)

  -- The loop looks at row 0, which is behind the tail.
  searches_row :
      Returns (λ p. (p ≡ rdndnt) ⊎ (p ≡ at 1)) (search_within_mask_group t mask flow_entry (some 0))
  unfolding search_within_mask_group group_loop
  searches_row =
      let (b, run) =
        clashes-Runs t mask flow_entry flows (omega arith) long whole 0 (omega arith) in
      let e : t.flow_tail - (0 + 1) ≡ 0 = omega arith in
      elim (Bool-cases b) [
        | inl y ↦ (
          at 1,
          rw (e, run, y)
              (after_clash t mask flow_entry flows (omega arith) long whole 0 (some (at 1))
                  (omega arith)
                ∙ ground arith),
          inr refl,
        )
        | inr y ↦ (
          rdndnt,
          rw (e, run, y) (after_same t mask flow_entry flows (omega arith) long whole 0 _),
          inl refl,
        )
      ]

  writes_row : Returns (Lost t) (insert_at t mask flow_entry 1)
  unfolding insert_at restructure_flow_table move_down_loop
  writes_row =
      let e : Bytes = put_bit flow_entry 356 0 in
      let (t', run, w) =
        write_new_flow_entry_lem (record t { flow_tail = 1 }) e (omega arith)
          (omega (arith, length-put_bit flow_entry 356 0)) in
      (
        record { position = at 1; tcam = record t' { flow_tail = 1 }; mask = mask; flow_entry = e },
        rw (empty, reset_bit_in flow_entry 356 (omega arith), run) refl,
        revived refl refl (λ q h. w.others q (inl (omega arith))),
      )

  loses : Returns (Lost t) (add_new_flow_entry t mask flow_entry)
  unfolding add_new_flow_entry add_to_group locate_mask_group place_entry
  loses =
      let (p, ran, what) = searches_row in
      let full : leb 20 t.flow_tail ≡ false = ground arith in
      elim what [
        | inl r ↦ (
          record { position = rdndnt; tcam = t; mask = mask; flow_entry = flow_entry },
          rw (full, finds_mask, ran, r) refl,
          refused refl refl,
        )
        | inr r ↦ let (a, did, l) = writes_row in (a, rw (full, finds_mask, ran, r) did, l)
      ]

-- If the groups and masks of the unit fit, and a flow of at least 45 bytes finds the only entry, then
-- `delete_flow_entry` returns 0 and leaves a table without rows, in which row 0, but for its counter,
-- and its mask are as before. For that mask, in an array of at least 45 bytes, and an entry of at least
-- 46, `add_new_flow_entry` then ends without a fault. It gives RDNDNT and leaves the unit, or it
-- returns position 1 while the table has one row, row 0, with the bytes that it had.
pub delete_flow_entry_only :
    (tcam : TcamUnit) (flow : Bytes) (mask_no : ℕ)
    → Grouped tcam
    → 45 ≤ length flow
    → tcam.flow_tail ≡ 1
    → best tcam flow tcam.flow_tail ≡ some (0, mask_no)
    → (delete_flow_entry tcam flow ≡ some (0, record (after_search tcam flow) { flow_tail = 0 }))
      × ((mask flow_entry : Bytes)
          → 45 ≤ length mask
          → 46 ≤ length flow_entry
          → SameMask tcam mask 0
          → Returns (Lost (record (after_search tcam flow) { flow_tail = 0 })) (
              add_new_flow_entry
                (record (after_search tcam flow) { flow_tail = 0 })
                mask
                flow_entry))
unfolding delete_flow_entry
delete_flow_entry_only tcam flow mask_no g hf one hit =
    let g' = Grouped-counted tcam flow g in
    let run =
      search_tcam_refines tcam flow (Grouped-IsValid tcam g) hf (Grouped-mask_of tcam flow g) in
    let did = delete_at_only (after_search tcam flow) g'.flows one (g'.first (omega arith)) in
    (
      rw (run, hit, did) refl,
      λ mask flow_entry long whole same.
          loses (record (after_search tcam flow) { flow_tail = 0 }) mask flow_entry g'.flows
            g'.masks refl (count tcam g one) long whole same,
    )
  where
    count : (tcam : TcamUnit) → Grouped tcam → tcam.flow_tail ≡ 1 → tcam.mask_tail ≡ 1
    count tcam g one = ground (
      arith,
      g.counted,
      one,
      starts_bound (first_bit tcam) 0 (g.first (omega arith)),
      ap (starts (first_bit tcam)) one,
    )

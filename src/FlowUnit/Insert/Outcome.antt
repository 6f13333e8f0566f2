-- ===== src/FlowUnit/Insert/Outcome.antt =====
-- What `add_new_flow_entry` does on each of its branches.
use net_walk.Base.{
  ℕ, suc, ◌-◌, ◌+◌, ◌≤◌, ◌<◌, ◌≡◌, ◌≢◌, ◌⊎◌, inl, inr, refl, Option, some, true, false, dec_lt,
  arith, Bytes, length, leb, Returns,
}
use net_walk.FlowUnit.{TcamUnit, Position, rdndnt, tbl_full}
use net_walk.FlowUnit.Groups.{starts, starts_upto, first_bit, group_of, Grouped, Grouped-mask_tail}
use net_walk.FlowUnit.Insert.{
  Added, add_new_flow_entry, add_to_group, place_entry, clashes, search_within_mask_group,
  find_mask,
}
use net_walk.FlowUnit.Insert.Find.{
  SameMask, FoundMask, found, new, Located, find_mask_all, locate_mask_group_lem,
}
use net_walk.FlowUnit.Insert.Group.{GroupEnd, same, behind, group_loop_lem}
use net_walk.FlowUnit.Insert.Place.{Inserted, MaskAdded, start_bit, insert_at_lem, add_group_lem}

-- The table is full and nothing changes; or a row of the mask's group does not clash with the entry,
-- and nothing changes; or all of them clash with it and it is inserted behind the group; or it starts
-- a group behind the last one, and its mask is added.
pub data Outcome (tcam : TcamUnit) (mask flow_entry : Bytes) : Added → Type 0 where
  full :
      20 ≤ tcam.flow_tail
      → Outcome tcam mask flow_entry
          (record { position = tbl_full; tcam = tcam; mask = mask; flow_entry = flow_entry })
  redundant :
      (i r : ℕ)
      → tcam.flow_tail < 20
      → i < tcam.mask_tail
      → SameMask tcam mask i
      → r < tcam.flow_tail
      → group_of tcam r ≡ i
      → clashes tcam mask flow_entry r ≡ some false
      → Outcome tcam mask flow_entry
          (record { position = rdndnt; tcam = tcam; mask = mask; flow_entry = flow_entry })
  joined :
      (i p : ℕ) {a : Added}
      → tcam.flow_tail < 20
      → i < tcam.mask_tail
      → SameMask tcam mask i
      → 0 < p
      → p ≤ tcam.flow_tail
      → starts (first_bit tcam) p ≡ i
      → (p ≡ tcam.flow_tail) ⊎ (first_bit tcam p ≢ 0)
      → ((r : ℕ)
          → r < tcam.flow_tail
          → group_of tcam r ≡ i
          → clashes tcam mask flow_entry r ≡ some true)
      → Inserted tcam flow_entry p 0 a
      → a.mask ≡ mask
      → Outcome tcam mask flow_entry a
  started :
      (t : TcamUnit) {a : Added}
      → tcam.flow_tail < 20
      → ((j : ℕ) → j < tcam.mask_tail → ¬ (SameMask tcam mask j))
      → MaskAdded tcam mask t a.mask
      → Inserted t flow_entry tcam.flow_tail (start_bit tcam) a
      → Outcome tcam mask flow_entry a

-- A row of the group that ends before `p` is before `p`.
before_end :
    (tcam : TcamUnit) (i p r : ℕ)
    → starts (first_bit tcam) p ≡ i
    → (p ≡ tcam.flow_tail) ⊎ (first_bit tcam p ≢ 0)
    → r < tcam.flow_tail
    → group_of tcam r ≡ i
    → r < p
unfolding starts
before_end tcam i p r s (inl e) h of_group = omega arith
before_end tcam i p r s (inr nz) h of_group = elim (dec_lt r p) [
  | yes l ↦ l
  | no ge ↦
      ground (arith, nz, s, of_group, starts_upto (first_bit tcam) (suc p) (suc r) (omega arith))
]

module _ (tcam : TcamUnit) (mask flow_entry : Bytes) (g : Grouped tcam) (long : 45 ≤ length mask)
    (whole : 46 ≤ length flow_entry) (room : tcam.flow_tail < 20) where
  placed :
      (i lo : ℕ) (pos : Position)
      → i < tcam.mask_tail
      → SameMask tcam mask i
      → Located tcam i lo
      → GroupEnd tcam mask flow_entry lo i pos
      → Returns (Outcome tcam mask flow_entry) (place_entry tcam mask flow_entry pos)
  unfolding place_entry
  placed i lo pos hi s st (same r l below of_group c) =
      (_, refl, redundant i r room hi s below of_group c)
  placed i lo pos hi s st (behind p l inside of_group e all) =
      let (a, did, (q, m)) = insert_at_lem tcam mask flow_entry p g.flows room inside whole in
      (a, did, joined i p room hi s (omega arith) inside of_group e clash q m)
    where
      not_below : (r : ℕ) → group_of tcam r ≡ i → lo ≤ r
      not_below r own = elim (dec_lt r lo) [
        | yes l' ↦ absurd (omega (arith, st.least r l', own))
        | no ge ↦ omega arith
      ]

      clash :
          (r : ℕ)
          → r < tcam.flow_tail
          → group_of tcam r ≡ i
          → clashes tcam mask flow_entry r ≡ some true
      clash r h own = all r (not_below r own) (before_end tcam i p r of_group e h own)

  joins :
      (i : ℕ)
      → i < tcam.mask_tail
      → SameMask tcam mask i
      → Returns (Outcome tcam mask flow_entry) (add_to_group tcam mask flow_entry i)
  unfolding add_to_group search_within_mask_group
  joins i hi s =
      let (st, run, l) = locate_mask_group_lem tcam i g hi in
      let e : suc st ≡ st + 1 = omega arith in
      let (pos, ran, q) =
        group_loop_lem tcam mask flow_entry g.flows room long whole i (tcam.flow_tail - (st + 1)) st
          (omega (arith, l.below)) (rw (← e) l.group) in
      let (a, did, o) = placed i st pos hi s l q in (a, rw (run, ran) did, o)

  adds :
      (r : Option ℕ)
      → find_mask tcam.mask_tail 0 tcam mask ≡ some r
      → FoundMask tcam mask r
      → Returns (Outcome tcam mask flow_entry) (add_new_flow_entry tcam mask flow_entry)
  unfolding add_new_flow_entry
  adds r run (found i hi s first) =
      let (a, did, o) = joins i hi s in
      let e : leb 20 tcam.flow_tail ≡ false = ground arith in (a, rw (e, run) did, o)
  adds r run (new other) =
      let (a, did, (t, m, p)) =
        add_group_lem tcam mask flow_entry g.flows room
          (omega (arith, g.masks, Grouped-mask_tail tcam g)) long whole in
      let e : leb 20 tcam.flow_tail ≡ false = ground arith in
      (a, rw (e, run) did, started t room other m p)

-- In a unit whose groups and masks fit, with a mask of at least 45 bytes and an entry of at least 46,
-- `add_new_flow_entry` ends without a fault, with one of four outcomes. A full table, with at least
-- 20 rows, gives TBL_FULL. A mask that is in the mask table gives RDNDNT if a row of its group does
-- not clash with the entry; the entry is inserted, behind a row of its group, before the next group or
-- at the tail, and without a group bit, only if all rows of the group clash with it. With any other mask the entry is added at the tail, with
-- a group bit unless it is the first row, and the mask, without its last three bits, is added behind the others.
pub add_new_flow_entry_lem :
    (tcam : TcamUnit) (mask flow_entry : Bytes)
    → Grouped tcam
    → 45 ≤ length mask
    → 46 ≤ length flow_entry
    → Returns (Outcome tcam mask flow_entry) (add_new_flow_entry tcam mask flow_entry)
unfolding add_new_flow_entry
add_new_flow_entry_lem tcam mask flow_entry g long whole = elim (dec_lt tcam.flow_tail 20) [
  | yes room ↦
      let (r, run, f) =
        find_mask_all tcam mask g.masks long (omega (arith, g.flow_in, Grouped-mask_tail tcam g)) in
      adds tcam mask flow_entry g long whole room r run f
  | no all ↦ (_, ground arith, full (omega arith))
]

-- ===== src/FlowUnit/Insert/Masks.antt =====
-- The masks after an entry was added: every row keeps its own.
use net_walk.Base.{
  ℕ, suc, ◌+◌, ◌*◌, ◌≤◌, ◌<◌, ◌≡◌, sym, ap, ◌∙◌, arith, Bytes, AllBytes, length, byte_at, Returns,
}
use net_walk.Bits.Laws.{bit_at}
use net_walk.FlowUnit.{TcamUnit, at, group_bit}
use net_walk.FlowUnit.Groups.{starts, first_bit, group_of, Grouped}
use net_walk.FlowUnit.Insert.{Added, add_new_flow_entry}
use net_walk.FlowUnit.Insert.Find.{SameMask}
use net_walk.FlowUnit.Insert.Place.{Inserted, MaskAdded, start_bit}
use net_walk.FlowUnit.Insert.Outcome.{
  Outcome, full, redundant, joined, started, add_new_flow_entry_lem,
}
use net_walk.FlowUnit.Insert.Keep.{starts_below, starts_above, masks_after}

-- In `a` row `p` is under the mask that the mask table holds as `a.mask`. The other rows are in the
-- groups they were in, those from `p` on one row further down, and the masks of `tcam` are still there.
pub record SameMasks (tcam : TcamUnit) (p : ℕ) (a : Added) : Type 0 where
  pub row : SameMask a.tcam a.mask (group_of a.tcam p)
  pub before : (r : ℕ) → r < p → group_of a.tcam r ≡ group_of tcam r
  pub after : (r : ℕ) → p ≤ r → r < tcam.flow_tail → group_of a.tcam (r + 1) ≡ group_of tcam r
  pub masks :
      (j : ℕ) → j < tcam.mask_tail * 45 → byte_at a.tcam.mask_table j ≡ byte_at tcam.mask_table j

module _ (tcam : TcamUnit) (mask flow_entry : Bytes) (g : Grouped tcam)
    (bytes : AllBytes flow_entry) (whole : 46 ≤ length flow_entry) where
  joined-SameMasks :
      (i p : ℕ) (a : Added)
      → SameMask tcam mask i
      → p ≤ tcam.flow_tail
      → starts (first_bit tcam) p ≡ i
      → Inserted tcam flow_entry p 0 a
      → a.mask ≡ mask
      → SameMasks tcam p a
  joined-SameMasks i p a s inside of_group q m = record {
    row = rw (m, mine, masks_after tcam flow_entry p 0 a q) s;
    before = λ r h. starts_below tcam flow_entry p 0 a q (suc r) h;
    after = λ r lo hi.
        let e : suc r ≡ r + 1 = omega arith in
        ap (starts (first_bit a.tcam)) (omega arith)
        ∙ (starts_above tcam flow_entry p 0 a q bytes whole (omega arith) (suc r) (omega arith) hi
            ∙ omega arith);
    masks = λ j h. ap (λ t. byte_at t j) (masks_after tcam flow_entry p 0 a q);
  }
    where
      mine : group_of a.tcam p ≡ i
      mine =
          let e : suc p ≡ p + 1 = omega arith in
          ap (starts (first_bit a.tcam)) e
          ∙ (starts_above tcam flow_entry p 0 a q bytes whole (omega arith) p (omega arith) inside
              ∙ omega (arith, of_group))

  started-SameMasks :
      (t : TcamUnit) (a : Added)
      → MaskAdded tcam mask t a.mask
      → Inserted t flow_entry tcam.flow_tail (start_bit tcam) a
      → SameMasks tcam tcam.flow_tail a
  started-SameMasks t a m q = record {
    row = rw (mine, masks_after t flow_entry tcam.flow_tail (start_bit tcam) a q) m.row;
    before = λ r h.
        starts_below t flow_entry tcam.flow_tail (start_bit tcam) a q (suc r) h
        ∙ ap (λ f. starts (λ n. bit_at f (group_bit n)) (suc r)) table;
    after = λ r lo hi. absurd (omega arith);
    masks = λ j h.
        ap (λ f. byte_at f j) (masks_after t flow_entry tcam.flow_tail (start_bit tcam) a q)
        ∙ m.before j h;
  }
    where
      table : t.flow_table ≡ tcam.flow_table
      table = ap (λ s. s.flow_table) m.rest

      tail : t.flow_tail ≡ tcam.flow_tail
      tail = ap (λ s. s.flow_tail) m.rest

      small : start_bit tcam < 2
      small = ground arith

      none_yet : tcam.flow_tail ≡ 0 → starts (first_bit tcam) tcam.flow_tail ≡ 0
      none_yet e = unfold starts in ap (starts (first_bit tcam)) e

      mine : group_of a.tcam tcam.flow_tail ≡ tcam.mask_tail
      mine =
          let e : suc tcam.flow_tail ≡ tcam.flow_tail + 1 = omega arith in
          ap (starts (first_bit a.tcam)) e
          ∙ (starts_above t flow_entry tcam.flow_tail (start_bit tcam) a q bytes whole small
                tcam.flow_tail (omega arith) (omega (arith, tail))
              ∙ (ap (λ f. starts (λ n. bit_at f (group_bit n)) tcam.flow_tail + start_bit tcam)
                    table
                  ∙ ground (arith, g.counted, none_yet)))

-- If the groups and masks of the unit fit, the mask has at least 45 bytes and the entry, of bytes, at
-- least 46, then `add_new_flow_entry` ends without a fault, and when it returns a position that is not
-- negative, the row at that position is in the group whose mask in the mask table is what the call
-- leaves in the caller's array for the mask. Every row that was there before is in the group it was in, the rows from
-- that position on one further down, and the masks that were there are still there.
pub add_new_flow_entry-SameMasks :
    (tcam : TcamUnit) (mask flow_entry : Bytes)
    → Grouped tcam
    → 45 ≤ length mask
    → AllBytes flow_entry
    → 46 ≤ length flow_entry
    → Returns
        (λ a. (p : ℕ) → a.position ≡ at p → SameMasks tcam p a)
        (add_new_flow_entry tcam mask flow_entry)
add_new_flow_entry-SameMasks tcam mask flow_entry g long bytes whole =
    let (a, run, o) = add_new_flow_entry_lem tcam mask flow_entry g long whole in (a, run, keep a o)
  where
    at_eq : (p q : ℕ) → at p ≡ at q → p ≡ q
    at_eq p q e = ground (arith, e)

    keep :
        (a : Added)
        → Outcome tcam mask flow_entry a
        → (p : ℕ) → a.position ≡ at p
        → SameMasks tcam p a
    keep a (full h) p e = ground (arith, e)
    keep a (redundant i r room hi s below of_group c) p e = ground (arith, e)
    keep a (joined i p' room hi s lo inside of_group e all q m) p pos =
        let d : p ≡ p' = at_eq p p' (sym pos ∙ q.position) in
        rw d (joined-SameMasks tcam mask flow_entry g bytes whole i p' a s inside of_group q m)
    keep a (started t room other m q) p pos =
        let d : p ≡ tcam.flow_tail = at_eq p tcam.flow_tail (sym pos ∙ q.position) in
        rw d (started-SameMasks tcam mask flow_entry g bytes whole t a m q)

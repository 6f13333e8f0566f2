-- ===== src/FlowUnit/Insert/Keep.antt =====
-- What adding an entry keeps: the groups still fit the masks.
use net_walk.Base.{
  ℕ, ◌+◌, ◌*◌, ◌≤◌, ◌<◌, ◌≡◌, sym, ap, ◌∙◌, arith, Bytes, AllBytes, length, Returns, ℕ_discrete,
}
use net_walk.Bits.Byte.{flag_of}
use net_walk.Bits.Laws.{bit_at, bit_at-put_bit}
use net_walk.FlowUnit.{TcamUnit, group_bit}
use net_walk.FlowUnit.Groups.{
  starts, starts_same, starts_insert_at, first_bit, group_byte, group_bit_same, Grouped,
}
use net_walk.FlowUnit.Insert.{Added, add_new_flow_entry}
use net_walk.FlowUnit.Insert.Place.{Inserted, MaskAdded, start_bit}
use net_walk.FlowUnit.Insert.Outcome.{
  Outcome, full, redundant, joined, started, add_new_flow_entry_lem,
}

-- The group bits after an entry was inserted.
module _ (tcam : TcamUnit) (flow_entry : Bytes) (p v : ℕ) (a : Added)
    (i : Inserted tcam flow_entry p v a) where
  bit_before : (r : ℕ) → r < p → first_bit a.tcam r ≡ first_bit tcam r
  bit_before r h =
      group_bit_same tcam.flow_table a.tcam.flow_table r r (i.before (r * 48 + 44) (omega arith))

  bit_after : (r : ℕ) → p ≤ r → r < tcam.flow_tail → first_bit a.tcam (r + 1) ≡ first_bit tcam r
  bit_after r lo hi =
      group_bit_same tcam.flow_table a.tcam.flow_table r (r + 1) (i.after r 44 lo hi (omega arith))

  bit_row : AllBytes flow_entry → 46 ≤ length flow_entry → v < 2 → first_bit a.tcam p ≡ v
  bit_row bytes whole hv =
      group_byte a.tcam.flow_table p
      ∙ (ap (flag_of 3) (i.row 44 (omega arith))
          ∙ (sym (group_byte a.flow_entry 0)
              ∙ (ap (λ e. bit_at e 356) i.entry
                  ∙ (bit_at-put_bit flow_entry 356 v 356 bytes (omega arith) hv ∙ ground arith))))

  -- The number of groups in the table up to a row.
  pub starts_below : (n : ℕ) → n ≤ p → starts (first_bit a.tcam) n ≡ starts (first_bit tcam) n
  starts_below n h =
      starts_same (first_bit tcam) (first_bit a.tcam) n (λ r l. bit_before r (omega arith))

  pub starts_above :
      AllBytes flow_entry
      → 46 ≤ length flow_entry
      → v < 2
      → (n : ℕ) → p ≤ n
      → n ≤ tcam.flow_tail
      → starts (first_bit a.tcam) (n + 1) ≡ starts (first_bit tcam) n + v
  starts_above bytes whole hv n lo hi = ground (
    arith,
    starts_insert_at (first_bit tcam) (first_bit a.tcam) p n lo bit_before
        (λ r l u. bit_after r l (omega arith)),
    bit_row bytes whole hv,
  )

  tail_after : a.tcam.flow_tail ≡ tcam.flow_tail + 1
  tail_after = ap (λ s. s.flow_tail) i.rest

  pub masks_after : a.tcam.mask_table ≡ tcam.mask_table
  masks_after = ap (λ s. s.mask_table) i.rest

  mask_tail_after : a.tcam.mask_tail ≡ tcam.mask_tail
  mask_tail_after = ap (λ s. s.mask_tail) i.rest

module _ (tcam : TcamUnit) (mask flow_entry : Bytes) (g : Grouped tcam) (room : tcam.flow_tail < 20)
    (bytes : AllBytes flow_entry) (whole : 46 ≤ length flow_entry) where
  joined-Grouped :
      (p : ℕ) (a : Added)
      → 0 < p
      → p ≤ tcam.flow_tail
      → Inserted tcam flow_entry p 0 a
      → Grouped a.tcam
  joined-Grouped p a lo hi i = record {
    flows = i.size ∙ g.flows;
    masks = ap length (masks_after tcam flow_entry p 0 a i) ∙ g.masks;
    flow_in = omega (arith, tail_after tcam flow_entry p 0 a i);
    first = λ h. bit_before tcam flow_entry p 0 a i 0 lo ∙ g.first (omega arith);
    counted = ground (
      arith,
      mask_tail_after tcam flow_entry p 0 a i,
      tail_after tcam flow_entry p 0 a i,
      g.counted,
      starts_above tcam flow_entry p 0 a i bytes whole (omega arith) tcam.flow_tail hi
          (omega arith),
      ap (starts (first_bit a.tcam)) (tail_after tcam flow_entry p 0 a i),
    );
  }

  started-Grouped :
      (t : TcamUnit) (a : Added)
      → MaskAdded tcam mask t a.mask
      → Inserted t flow_entry tcam.flow_tail (start_bit tcam) a
      → Grouped a.tcam
  started-Grouped t a m i = record {
    flows = i.size ∙ (ap length table ∙ g.flows);
    masks =
        ap length (masks_after t flow_entry tcam.flow_tail (start_bit tcam) a i)
        ∙ (m.size ∙ g.masks);
    flow_in = omega (arith, tail, tail_after t flow_entry tcam.flow_tail (start_bit tcam) a i);
    first = λ h. elim (ℕ_discrete tcam.flow_tail 0) [
      | yes e ↦ ap (first_bit a.tcam) (sym e) ∙ (row ∙ ground (arith, e))
      | no ne ↦
          bit_before t flow_entry tcam.flow_tail (start_bit tcam) a i 0 (omega arith)
          ∙ (ap (λ f. bit_at f (group_bit 0)) table ∙ g.first (omega arith))
    ];
    counted = ground (
      arith,
      tail,
      mask_tail_after t flow_entry tcam.flow_tail (start_bit tcam) a i,
      ap (λ s. s.mask_tail) m.rest,
      tail_after t flow_entry tcam.flow_tail (start_bit tcam) a i,
      g.counted,
      count,
      ap (starts (first_bit a.tcam))
          (tail_after t flow_entry tcam.flow_tail (start_bit tcam) a i ∙ ap (λ k. k + 1) tail),
      none_yet,
    );
  }
    where
      table : t.flow_table ≡ tcam.flow_table
      table = ap (λ s. s.flow_table) m.rest

      tail : t.flow_tail ≡ tcam.flow_tail
      tail = ap (λ s. s.flow_tail) m.rest

      small : start_bit tcam < 2
      small = ground arith

      row : first_bit a.tcam tcam.flow_tail ≡ start_bit tcam
      row = bit_row t flow_entry tcam.flow_tail (start_bit tcam) a i bytes whole small

      count :
          starts (first_bit a.tcam) (tcam.flow_tail + 1)
          ≡ starts (first_bit tcam) tcam.flow_tail + start_bit tcam
      count =
          starts_above t flow_entry tcam.flow_tail (start_bit tcam) a i bytes whole small
            tcam.flow_tail (omega arith) (omega (arith, tail))
          ∙ ap (λ f. starts (λ n. bit_at f (group_bit n)) tcam.flow_tail + start_bit tcam) table

      none_yet : tcam.flow_tail ≡ 0 → starts (first_bit tcam) tcam.flow_tail ≡ 0
      none_yet e = unfold starts in ap (starts (first_bit tcam)) e

pub Outcome-Grouped :
    (tcam : TcamUnit) (mask flow_entry : Bytes)
    → Grouped tcam
    → AllBytes flow_entry
    → 46 ≤ length flow_entry
    → (a : Added) → Outcome tcam mask flow_entry a
    → Grouped a.tcam
Outcome-Grouped tcam mask flow_entry g bytes whole a (full h) = g
Outcome-Grouped tcam mask flow_entry g bytes whole a (redundant i r room hi s below of_group c) = g
Outcome-Grouped tcam mask flow_entry g bytes whole a
      (joined i p room hi s lo inside of_group e all q m) =
    joined-Grouped tcam mask flow_entry g room bytes whole p a lo inside q
Outcome-Grouped tcam mask flow_entry g bytes whole a (started t room other m q) =
    started-Grouped tcam mask flow_entry g room bytes whole t a m q

-- If the groups and masks of the unit fit, the mask has at least 45 bytes and the entry, of bytes, at
-- least 46, then `add_new_flow_entry` ends without a fault and leaves a unit whose groups and masks
-- fit: the tables have their sizes, there are at most 20 rows, the first row starts no further group,
-- and there are as many masks as groups.
pub add_new_flow_entry-Grouped :
    (tcam : TcamUnit) (mask flow_entry : Bytes)
    → Grouped tcam
    → 45 ≤ length mask
    → AllBytes flow_entry
    → 46 ≤ length flow_entry
    → Returns (λ a. Grouped a.tcam) (add_new_flow_entry tcam mask flow_entry)
add_new_flow_entry-Grouped tcam mask flow_entry g long bytes whole =
    let (a, run, o) = add_new_flow_entry_lem tcam mask flow_entry g long whole in
    (a, run, Outcome-Grouped tcam mask flow_entry g bytes whole a o)

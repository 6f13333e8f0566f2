-- ===== src/FlowUnit/Modify/Entry.antt =====
-- A whole call of `modify_entry` for a flow that an entry matches.
use net_walk.Base.{
  ℕ, ◌+◌, ◌*◌, ◌%◌, ◌≤◌, ◌<◌, ◌≡◌, inl, inr, refl, ap, ◌∙◌, some, arith, Bytes, AllBytes, length,
  byte_at, byte_at-lt, Returns, true, none, dec_lt,
}
use net_walk.Bits.Laws.{bit_at}
use net_walk.FlowUnit.{TcamUnit, at}
use net_walk.FlowUnit.Search.Refine.{best, hit, counted, search_tcam_refines}
use net_walk.FlowUnit.Search.Best.{IsBestOf, best_lem, counted_lem}
use net_walk.FlowUnit.Groups.{
  starts, starts_same, first_bit, group_bit_same, Grouped, Grouped-IsValid, Grouped-mask_of,
}
use net_walk.FlowUnit.Groups.Searched.{Grouped-counted, after_search}
use net_walk.FlowUnit.Insert.Actions.{Sized}
use net_walk.FlowUnit.Modify.{modify_entry}
use net_walk.FlowUnit.Modify.Edits.{Edited, OtherByte}
use net_walk.FlowUnit.Search.{Found}
use net_walk.FlowUnit.Delete.Entry.{found_below}
use net_walk.FlowUnit.Modify.Row.{edits_lem}
use net_walk.FlowUnit.Modify.End.{Modified, end_edit_lem}

IsBestOf-hit :
    (tcam : TcamUnit) (flow : Bytes) (f : Found) (pos mask : ℕ)
    → f ≡ some (pos, mask)
    → IsBestOf tcam flow tcam.flow_tail f
    → hit tcam flow pos ≡ true
unfolding IsBestOf
IsBestOf-hit tcam flow none pos mask e b = ground (arith, e)
IsBestOf-hit tcam flow (some (p, m)) pos mask e b =
    let same : p ≡ pos = ground (arith, e) in rw (← same) (b.matching)

untouched :
    (t : TcamUnit) (pos : ℕ) (flag val : Bytes)
    → Sized t
    → AllBytes t.action_table
    → 6 ≤ length val
    → AllBytes val
    → Edited t pos flag 0 (record { tcam = t; val = val; val_pos = 0 })
untouched t pos flag val s ab hv vb = record {
  rest = refl;
  actions = s.actions;
  action_bytes = ab;
  val_size = hv;
  val_bytes = vb;
  taken = omega arith;
  flows = refl;
  other_rows = λ q h. refl;
  other_actions = λ q h. refl;
  counter = λ z. refl;
}

-- The group bits lie outside of the bytes that are modified.
still-Grouped :
    (t t' : TcamUnit) (pos : ℕ) (flag : Bytes) → Grouped t → Modified t pos flag t' → Grouped t'
still-Grouped t t' pos flag g m = record {
  flows = m.flows ∙ g.flows;
  masks = ap (λ v. length v.mask_table) m.rest ∙ g.masks;
  flow_in = omega (arith, tail, g.flow_in);
  first = λ h. bits 0 ∙ g.first (omega (arith, tail));
  counted = ground (
    arith,
    g.counted,
    tail,
    ap (λ v. v.mask_tail) m.rest,
    starts_same (first_bit t) (first_bit t') t.flow_tail (λ r h. bits r),
    ap (starts (first_bit t')) tail,
  );
}
  where
    tail : t'.flow_tail ≡ t.flow_tail
    tail = ap (λ v. v.flow_tail) m.rest

    bits : (r : ℕ) → first_bit t' r ≡ first_bit t r
    bits r = group_bit_same t.flow_table t'.flow_table r r (m.other_rows (r * 48 + 44) (place r))
      where
        place : (r : ℕ) → OtherByte pos (r * 48 + 44)
        place r = elim (dec_lt r (pos + 1)) [ yes h ↦ inl (omega arith) | no h ↦ inr (omega arith) ]

-- One more and one less.
back :
    (tcam : TcamUnit) (flow : Bytes) (pos mask : ℕ)
    → Grouped tcam
    → AllBytes tcam.flow_table
    → best tcam flow tcam.flow_tail ≡ some (pos, mask)
    → (byte_at (counted tcam flow tcam.flow_tail) (pos * 48 + 46) + 255) % 256
      ≡ byte_at tcam.flow_table (pos * 48 + 46)
back tcam flow pos mask g fb found =
    let h = IsBestOf-hit tcam flow _ pos mask found (best_lem tcam flow tcam.flow_tail) in
    ground (
      arith,
      counted_lem tcam flow g.flows tcam.flow_tail pos g.flow_in
          (found_below tcam flow g pos mask found),
      h,
      byte_at-lt tcam.flow_table (pos * 48 + 46) fb,
    )

-- If the groups and masks of the unit fit, the action tables have their sizes, the flow table, the
-- action table, `val` and the new values hold bytes, and a flow of at least 45 bytes finds row `pos`, then
-- `modify_entry` ends without a fault and returns `pos`, for a flag of at least 2 bytes, new values of at
-- least 34 and a `val` of at least 6. The hit counters of the entries that match the flow count on
-- first. Then in the flow table only the priority, counter and timeout of row `pos` change, and in the
-- action table only row `pos`; the flag of the row has the bits of the given flag too, and no other
-- flag changes. If bit 14 of the flag is 0, the counter of row `pos` ends as it was before the call. The
-- groups and masks still fit.
pub modify_entry_lem :
    (tcam : TcamUnit) (flow flag new_values val : Bytes) (pos mask : ℕ)
    → Grouped tcam
    → Sized tcam
    → AllBytes tcam.flow_table
    → AllBytes tcam.action_table
    → 45 ≤ length flow
    → best tcam flow tcam.flow_tail ≡ some (pos, mask)
    → 2 ≤ length flag
    → 34 ≤ length new_values
    → AllBytes new_values
    → 6 ≤ length val
    → AllBytes val
    → Returns
        (λ r.
          (r.0 ≡ at pos)
          × Modified (after_search tcam flow) pos flag (r.1)
          × Grouped (r.1)
          × (bit_at flag 14 ≡ 0
              → byte_at r.1.flow_table (pos * 48 + 46) ≡ byte_at tcam.flow_table (pos * 48 + 46)))
        (modify_entry tcam flow flag new_values val)
unfolding modify_entry
modify_entry_lem tcam flow flag new_values val pos mask g s fb ab hf found flag_size enough nb hv
      vb =
    let t : TcamUnit = after_search tcam flow in
    let g' = Grouped-counted tcam flow g in
    let s' : Sized t = record { actions = s.actions; flags = s.flags } in
    let below = found_below tcam flow g pos mask found in
    let row : pos < 20 = omega (arith, below, g.flow_in) in
    let run =
      search_tcam_refines tcam flow (Grouped-IsValid tcam g) hf (Grouped-mask_of tcam flow g) in
    let (e, edits, d) =
      edits_lem t pos flag new_values row flag_size nb enough g'.flows s'
        (record { tcam = t; val = val; val_pos = 0 }) (untouched t pos flag val s' ab hv vb) in
    let (t', did, m) = end_edit_lem t pos flag row flag_size g'.flows s' e d in
    (
      (at pos, t'),
      rw (run, found, edits, did) refl,
      (
        refl,
        m,
        still-Grouped t t' pos flag g' m,
        λ z. m.counter z ∙ back tcam flow pos mask g fb found,
      ),
    )

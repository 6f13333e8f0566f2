-- ===== src/FlowUnit/Groups/Searched.antt =====
-- What a search leaves of the groups.
use net_walk.Base.{◌+◌, ◌≡◌, ℕ, ◌∙◌, sym, ap, arith, Bytes, ◌==◌, if◌then◌else◌}
use net_walk.Bits.Laws.{bit_at}
use net_walk.FlowUnit.{TcamUnit, group_bit}
use net_walk.FlowUnit.Search.Refine.{counted, length-counted, bit_at-counted}
use net_walk.FlowUnit.Groups.{starts_same, first_bit, Grouped}

-- A search leaves the group bits.
pub Grouped-counted :
    (tcam : TcamUnit) (flow : Bytes)
    → Grouped tcam
    → Grouped (record tcam { flow_table = counted tcam flow tcam.flow_tail })
Grouped-counted tcam flow g = record {
  flows = length-counted tcam flow tcam.flow_tail ∙ g.flows;
  masks = g.masks;
  flow_in = g.flow_in;
  first = λ h. bits 0 ∙ g.first h;
  counted =
      g.counted
      ∙ ap (λ n. if tcam.flow_tail == 0 then 0 else n + 1)
          (sym (
            starts_same (first_bit tcam)
              (λ n. bit_at (counted tcam flow tcam.flow_tail) (group_bit n)) tcam.flow_tail
              (λ r h. bits r)));
}
  where
    bits : (n : ℕ) → bit_at (counted tcam flow tcam.flow_tail) (group_bit n) ≡ first_bit tcam n
    bits n =
        bit_at-counted tcam flow g.flows tcam.flow_tail (group_bit n) g.flow_in
          (λ e he x. omega arith)

-- The unit after the search: the counters of the matching entries counted on.
abbrev pub after_search : TcamUnit → Bytes → TcamUnit
after_search tcam flow = record tcam { flow_table = counted tcam flow tcam.flow_tail }

-- ===== src/FlowUnit/Delete/Entry.antt =====
-- The deletion of the entry that a flow matches.
use net_walk.Base.{
  ℕ, zero, suc, ◌+◌, ◌*◌, ◌≤◌, ◌<◌, ◌≡◌, ◌⊎◌, inl, inr, refl, none, some, arith, Bytes, AllBytes,
  set-AllBytes, length, Returns, Bool-cases,
}
use net_walk.FlowUnit.{TcamUnit, group_bit}
use net_walk.FlowUnit.Search.{Found}
use net_walk.FlowUnit.Search.Refine.{hit, counted, best, search_tcam_refines, bit_at-counted}
use net_walk.FlowUnit.Search.Best.{IsBestOf, best_lem}
use net_walk.FlowUnit.Groups.{first_bit, Grouped, Grouped-IsValid, Grouped-mask_of}
use net_walk.FlowUnit.Groups.Searched.{Grouped-counted, after_search}
use net_walk.FlowUnit.Insert.Actions.{Sized}
use net_walk.FlowUnit.Delete.{delete_flow_entry}
use net_walk.FlowUnit.Delete.Removed.{Deleted, delete_at_lem}

counted-AllBytes :
    (tcam : TcamUnit) (flow : Bytes) (n : ℕ)
    → AllBytes tcam.flow_table
    → AllBytes (counted tcam flow n)
unfolding counted
counted-AllBytes tcam flow zero h = h
counted-AllBytes tcam flow (suc n) h = elim (Bool-cases (hit tcam flow n)) [
  | inl e ↦ rw e (
      set-AllBytes (counted tcam flow n) (n * 48 + 46) _ (counted-AllBytes tcam flow n h)
        (omega arith))
  | inr e ↦ rw e (counted-AllBytes tcam flow n h)
]

IsBestOf-below :
    (tcam : TcamUnit) (flow : Bytes) (f : Found) (pos mask : ℕ)
    → f ≡ some (pos, mask)
    → IsBestOf tcam flow tcam.flow_tail f
    → pos < tcam.flow_tail
unfolding IsBestOf
IsBestOf-below tcam flow none pos mask e b = ground (arith, e)
IsBestOf-below tcam flow (some (p, m)) pos mask e b = let x = b.within in ground (arith, e, x)

module _ (tcam : TcamUnit) (flow : Bytes) (g : Grouped tcam) (pos mask : ℕ)
    (found : best tcam flow tcam.flow_tail ≡ some (pos, mask)) where
  pub found_below : pos < tcam.flow_tail
  found_below = IsBestOf-below tcam flow _ pos mask found (best_lem tcam flow tcam.flow_tail)

  bits_after : (r : ℕ) → first_bit (after_search tcam flow) r ≡ first_bit tcam r
  bits_after r =
      bit_at-counted tcam flow g.flows tcam.flow_tail (group_bit r) g.flow_in
        (λ e he x. omega arith)

-- If the groups and masks of the unit fit, the action tables have their sizes and the flow table holds
-- bytes, and a flow of at least 45 bytes finds row `pos`, then `delete_flow_entry` ends without a fault
-- and returns `pos`, provided that the row starts no group or is not row 19, and that it is not the
-- first row or is followed by another row of its group. The hit counters of the entries that match the
-- flow count on, and then the row is taken out: the rows before it stay, and those behind it move up
-- by one, with the counter 0 and the timeout 255. The other 46 bytes of a row that moves, which are its
-- match field, group bit and priority, stay as they are, but the row right behind the deleted one
-- starts a group if that one did. The action sets and flags stay with their rows, each row is, but for
-- the last byte, under the mask that it was under, and groups and masks fit again.
pub delete_flow_entry_lem :
    (tcam : TcamUnit) (flow : Bytes) (pos mask : ℕ)
    → Grouped tcam
    → Sized tcam
    → AllBytes tcam.flow_table
    → 45 ≤ length flow
    → best tcam flow tcam.flow_tail ≡ some (pos, mask)
    → (first_bit tcam pos ≡ 0) ⊎ (pos + 1 < 20)
    → (0 < pos) ⊎ ((1 < tcam.flow_tail) × (first_bit tcam 1 ≡ 0))
    → Returns
        (λ r. (r.0 ≡ pos) × Deleted (after_search tcam flow) pos (r.1))
        (delete_flow_entry tcam flow)
unfolding delete_flow_entry
delete_flow_entry_lem tcam flow pos mask g s bytes hf found next stay =
    let run =
      search_tcam_refines tcam flow (Grouped-IsValid tcam g) hf (Grouped-mask_of tcam flow g) in
    let (t', did, d) =
      delete_at_lem (after_search tcam flow) pos (Grouped-counted tcam flow g)
        (record { actions = s.actions; flags = s.flags })
        (counted-AllBytes tcam flow tcam.flow_tail bytes) (found_below tcam flow g pos mask found)
        (rw (bits_after tcam flow g pos mask found pos) next)
        (rw (bits_after tcam flow g pos mask found 1) stay) in
    ((pos, t'), rw (run, found, did) refl, (refl, d))

-- ===== src/FlowUnit/Histories.antt =====
-- Any sequence of insertions, searches, deletions and modifications, from an empty flow unit on.
use net_walk.Base.{
  ◌⊎◌, ℕ, ◌+◌, ◌≤◌, ◌<◌, ◌≡◌, ◌≢◌, some, arith, Bytes, AllBytes, length, Returns, Runs,
}
use net_walk.FlowUnit.{Position, TcamUnit, str_err}
use net_walk.FlowUnit.Search.Refine.{best}
use net_walk.FlowUnit.Cache.{FlowCache, Flowed, search_flow}
use net_walk.FlowUnit.Groups.{first_bit}
use net_walk.FlowUnit.Modify.{modify_entry}
use net_walk.FlowUnit.Modify.Entry.{modify_entry_lem}
use net_walk.FlowUnit.Delete.{delete_flow_entry}
use net_walk.FlowUnit.Delete.Entry.{delete_flow_entry_lem}
use net_walk.FlowUnit.Insert.{Added, add_new_entry}
use net_walk.FlowUnit.Insert.Actions.{Sized}
use net_walk.FlowUnit.Insert.Entry.{add_new_entry_lem, EntryOutcome-Grouped}
use net_walk.FlowUnit.Cache.Keep.{IsCache, Good, search_flow_lem}

-- The lengths of the arguments of an insertion.
pub record IsEntry (mask flow_entry action_set flag : Bytes) : Type 0 where
  pub mask_size : 45 ≤ length mask
  pub bytes : AllBytes flow_entry
  pub entry_size : 46 ≤ length flow_entry
  pub action_size : 31 ≤ length action_set
  pub flag_size : 2 ≤ length flag

-- The row can be deleted: it starts no group or is not row 19, and it is not the first row or is
-- followed by another row of its group.
pub record CanGo (tcam : TcamUnit) (pos : ℕ) : Type 0 where
  pub next : (first_bit tcam pos ≡ 0) ⊎ (pos + 1 < 20)
  pub stay : (0 < pos) ⊎ ((1 < tcam.flow_tail) × (first_bit tcam 1 ≡ 0))

-- The arguments of a modification, and tables that hold bytes.
pub record IsEdit (tcam : TcamUnit) (flag new_values val : Bytes) : Type 0 where
  pub flows : AllBytes tcam.flow_table
  pub actions : AllBytes tcam.action_table
  pub flag_size : 2 ≤ length flag
  pub values_size : 34 ≤ length new_values
  pub values : AllBytes new_values
  pub val_size : 6 ≤ length val
  pub val_bytes : AllBytes val

-- The states of the flow unit and its cache that insertions, searches, deletions
-- and modifications lead to, from empty tables.
pub data Reached : TcamUnit → FlowCache → Type 0 where
  empty :
      {tcam : TcamUnit} {cache : FlowCache}
      → length tcam.flow_table ≡ 960
      → length tcam.mask_table ≡ 900
      → Sized tcam
      → tcam.flow_tail ≡ 0
      → tcam.mask_tail ≡ 0
      → IsCache cache
      → Reached tcam cache
  inserts :
      {tcam : TcamUnit} {cache : FlowCache} (mask flow_entry action_set flag : Bytes) {a : Added}
      → Reached tcam cache
      → IsEntry mask flow_entry action_set flag
      → add_new_entry tcam mask flow_entry action_set flag ≡ some a
      → Reached a.tcam cache
  searches :
      {tcam : TcamUnit} {cache : FlowCache} (flow action_set : Bytes) {f : Flowed}
      → Reached tcam cache
      → 45 ≤ length flow
      → 31 ≤ length action_set
      → search_flow cache tcam flow action_set ≡ some f
      → Reached f.tcam f.cache
  deletes :
      {tcam t : TcamUnit} {cache : FlowCache} (flow : Bytes) (pos mask p : ℕ)
      → Reached tcam cache
      → 45 ≤ length flow
      → AllBytes tcam.flow_table
      → best tcam flow tcam.flow_tail ≡ some (pos, mask)
      → CanGo tcam pos
      → delete_flow_entry tcam flow ≡ some (p, t)
      → Reached t cache
  modifies :
      {tcam t : TcamUnit} {cache : FlowCache} (flow flag new_values val : Bytes) (pos mask : ℕ)
      (p : Position)
      → Reached tcam cache
      → 45 ≤ length flow
      → IsEdit tcam flag new_values val
      → best tcam flow tcam.flow_tail ≡ some (pos, mask)
      → modify_entry tcam flow flag new_values val ≡ some (p, t)
      → Reached t cache

Reached-Good : (tcam : TcamUnit) (cache : FlowCache) → Reached tcam cache → Good tcam cache
Reached-Good tcam cache (empty flows masks sized tail mask_tail c) = record {
  grouped = record {
    flows = flows;
    masks = masks;
    flow_in = omega arith;
    first = λ h. absurd (omega arith);
    counted = ground arith;
  };
  sized = sized;
  is_cache = c;
}
Reached-Good tcam cache (inserts {tcam = t} mask flow_entry action_set flag {a} r e run) =
    let g = Reached-Good t cache r in
    let (a', run', o) =
      add_new_entry_lem t mask flow_entry action_set flag g.grouped g.sized e.mask_size e.bytes
        e.entry_size e.action_size e.flag_size in
    let d : a' ≡ a = ground (arith, run, run') in
    let (grouped, sized) =
      EntryOutcome-Grouped t mask flow_entry action_set flag g.grouped g.sized e.mask_size e.bytes
        e.entry_size a' o in
    rw (← d) (record { grouped = grouped; sized = sized; is_cache = g.is_cache })
Reached-Good tcam cache (searches {tcam = t} {cache = c} flow action_set {f} r hf ha run) =
    let (f', run', (ne, g')) = search_flow_lem c t flow action_set (Reached-Good t c r) hf ha in
    let d : f' ≡ f = ground (arith, run, run') in rw (← d) g'
Reached-Good tcam cache (deletes {tcam = t} {t = t'} flow pos mask p r hf bytes hit can run) =
    let g = Reached-Good t cache r in
    let ((p', u), run', (e, d)) =
      delete_flow_entry_lem t flow pos mask g.grouped g.sized bytes hf hit can.next can.stay in
    let same : u ≡ t' = ground (arith, run, run') in
    rw (← same) (record { grouped = d.grouped; sized = d.sized; is_cache = g.is_cache })
Reached-Good tcam cache
      (modifies {tcam = t} {t = t'} flow flag new_values val pos mask p r hf e hit run) =
    let g = Reached-Good t cache r in
    let ((p', u), run', (at_pos, m, grouped, counter)) =
      modify_entry_lem t flow flag new_values val pos mask g.grouped g.sized e.flows e.actions hf
        hit e.flag_size e.values_size e.values e.val_size e.val_bytes in
    let same : u ≡ t' = ground (arith, run, run') in
    rw (← same) (record { grouped = grouped; sized = m.sized; is_cache = g.is_cache })

-- After any sequence of insertions, searches, deletions and modifications, with arguments of the
-- lengths named here, from empty tables of the right sizes and a cache of five rows on: `search_flow`
-- ends without a fault and never gives STR_ERR for a flow of at least 45 bytes and an array of at least
-- 31 for the action set; `add_new_entry` ends without a fault for a mask of at least 45 bytes, an entry,
-- of bytes, of at least 46, an action set of at least 31 and a flag of at least 2; and for a flow of at
-- least 45 bytes that finds a row, in tables that hold bytes, `delete_flow_entry` ends without a fault,
-- and so does `modify_entry` for a flag of at least 2 bytes and new values, of bytes, of at least 34,
-- with a local array of at least 6. A row to be deleted, here and in the sequence, must start no group
-- or not be row 19, and must not be the first row or be followed by another row of its group.
pub Reached-Runs :
    (tcam : TcamUnit) (cache : FlowCache)
    → Reached tcam cache
    → ((flow action_set : Bytes)
        → 45 ≤ length flow
        → 31 ≤ length action_set
        → Returns (λ r. r.position ≢ str_err) (search_flow cache tcam flow action_set))
      × ((mask flow_entry action_set flag : Bytes)
          → IsEntry mask flow_entry action_set flag
          → Runs (add_new_entry tcam mask flow_entry action_set flag))
      × ((flow : Bytes) (pos mask : ℕ)
          → 45 ≤ length flow
          → AllBytes tcam.flow_table
          → best tcam flow tcam.flow_tail ≡ some (pos, mask)
          → CanGo tcam pos
          → Runs (delete_flow_entry tcam flow))
      × ((flow flag new_values val : Bytes) (pos mask : ℕ)
          → 45 ≤ length flow
          → IsEdit tcam flag new_values val
          → best tcam flow tcam.flow_tail ≡ some (pos, mask)
          → Runs (modify_entry tcam flow flag new_values val))
Reached-Runs tcam cache r =
    let g = Reached-Good tcam cache r in
    (
      (λ flow action_set hf ha.
          let (f, run, (ne, _)) = search_flow_lem cache tcam flow action_set g hf ha in
          (f, run, ne)),
      (λ mask flow_entry action_set flag e.
          let (a, run, _) =
            add_new_entry_lem tcam mask flow_entry action_set flag g.grouped g.sized e.mask_size
              e.bytes e.entry_size e.action_size e.flag_size in
          (a, run)),
      (λ flow pos mask hf bytes hit can.
          let (d, run, _) =
            delete_flow_entry_lem tcam flow pos mask g.grouped g.sized bytes hf hit can.next
              can.stay in
          (d, run)),
      λ flow flag new_values val pos mask hf e hit.
          let (d, run, _) =
            modify_entry_lem tcam flow flag new_values val pos mask g.grouped g.sized e.flows
              e.actions hf hit e.flag_size e.values_size e.values e.val_size e.val_bytes in
          (d, run),
    )

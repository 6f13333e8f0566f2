-- ===== src/FlowUnit/Insert/Entry.antt =====
-- What `add_new_entry` does to all four tables.
use mathlib.Core.Path.{subst}
use net_walk.Base.{
  ℕ, ◌+◌, ◌-◌, ◌≤◌, ◌<◌, ◌≡◌, ◌⊎◌, inl, inr, refl, sym, ap, ◌∙◌, some, arith, Bytes, AllBytes,
  length, Returns,
}
use net_walk.FlowUnit.{TcamUnit, at, rdndnt, tbl_full}
use net_walk.FlowUnit.Groups.{Grouped}
use net_walk.FlowUnit.Insert.{Added, add_action, add_new_flow_entry, end_entry, add_new_entry}
use net_walk.FlowUnit.Insert.Actions.{Sized}
use net_walk.FlowUnit.Insert.Outcome.{
  Outcome, full, redundant, joined, started, add_new_flow_entry_lem,
}
use net_walk.FlowUnit.Insert.Place.{Inserted}
use net_walk.FlowUnit.Insert.Keep.{Outcome-Grouped}
use net_walk.FlowUnit.Insert.ActionRow.{ActionsInserted, add_action_lem}

-- The unit is as it was and the position is TBL_FULL or RDNDNT; or the entry was added to the flow
-- table, and the action tables made room for its action set and its flag in the same row.
pub data EntryOutcome (tcam : TcamUnit) (mask flow_entry action_set flag : Bytes)
    : Added → Type 0 where
  refused :
      {a : Added}
      → add_new_flow_entry tcam mask flow_entry ≡ some a
      → (a.position ≡ tbl_full) ⊎ (a.position ≡ rdndnt)
      → a.tcam ≡ tcam
      → EntryOutcome tcam mask flow_entry action_set flag a
  added :
      (b : Added) (p : ℕ) {a : Added}
      → add_new_flow_entry tcam mask flow_entry ≡ some b
      → b.position ≡ at p
      → p ≤ tcam.flow_tail
      → b.tcam.flow_tail ≡ tcam.flow_tail + 1
      → b.tcam.action_table ≡ tcam.action_table
      → b.tcam.flag_table ≡ tcam.flag_table
      → a ≡ record b { tcam = a.tcam }
      → ActionsInserted b.tcam action_set flag p tcam.flow_tail a.tcam
      → EntryOutcome tcam mask flow_entry action_set flag a

module _ (tcam : TcamUnit) (mask flow_entry action_set flag : Bytes) (g : Grouped tcam)
    (s : Sized tcam) (bytes : AllBytes flow_entry) (whole : 46 ≤ length flow_entry)
    (ha : 31 ≤ length action_set) (hf : 2 ≤ length flag) where
  at_row :
      (b : Added) (p : ℕ) (a : Added)
      → b.position ≡ at p
      → add_action b action_set flag p ≡ some a
      → end_entry b action_set flag b.position ≡ some a
  unfolding end_entry
  at_row b p a e did = ap (end_entry b action_set flag) e ∙ did

  with_action :
      (t : TcamUnit) (b : Added) (p v : ℕ)
      → add_new_flow_entry tcam mask flow_entry ≡ some b
      → tcam.flow_tail < 20
      → p ≤ tcam.flow_tail
      → t.flow_tail ≡ tcam.flow_tail
      → t.action_table ≡ tcam.action_table
      → t.flag_table ≡ tcam.flag_table
      → Inserted t flow_entry p v b
      → Returns
          (EntryOutcome tcam mask flow_entry action_set flag)
          (add_new_entry tcam mask flow_entry action_set flag)
  unfolding add_new_entry
  with_action t b p v run room h tail actions flags i =
      let tail' : b.tcam.flow_tail ≡ tcam.flow_tail + 1 =
        ap (λ u. u.flow_tail) i.rest ∙ ap (λ n. n + 1) tail in
      let actions' : b.tcam.action_table ≡ tcam.action_table =
        ap (λ u. u.action_table) i.rest ∙ actions in
      let flags' : b.tcam.flag_table ≡ tcam.flag_table = ap (λ u. u.flag_table) i.rest ∙ flags in
      let sized : Sized b.tcam = record {
        actions = ap length actions' ∙ s.actions;
        flags = ap length flags' ∙ s.flags;
      } in
      let (a, did, (rest, m)) =
        add_action_lem b action_set flag sized ha hf p (omega (arith, tail'))
          (omega (arith, tail')) in
      let e : b.tcam.flow_tail - 1 ≡ tcam.flow_tail = omega (arith, tail') in
      (
        a,
        rw run (at_row b p a i.position did),
        added b p run i.position h tail' actions' flags' rest
            (subst (λ n. ActionsInserted b.tcam action_set flag p n a.tcam) e m),
      )

  adds_entry :
      (b : Added)
      → add_new_flow_entry tcam mask flow_entry ≡ some b
      → Outcome tcam mask flow_entry b
      → Returns
          (EntryOutcome tcam mask flow_entry action_set flag)
          (add_new_entry tcam mask flow_entry action_set flag)
  unfolding add_new_entry end_entry
  adds_entry b run (full h) = (_, rw run refl, refused run (inl refl) refl)
  adds_entry b run (redundant i r room hi same below of_group c) =
      (_, rw run refl, refused run (inr refl) refl)
  adds_entry b run (joined i p room hi same lo inside of_group e all q m) =
      with_action tcam b p 0 run room inside refl refl refl q
  adds_entry b run (started t room other m q) =
      with_action t b tcam.flow_tail _ run room (omega arith) (ap (λ u. u.flow_tail) m.rest)
        (ap (λ u. u.action_table) m.rest) (ap (λ u. u.flag_table) m.rest) q

-- In a unit whose groups and masks fit and whose action tables have their sizes, with a mask of at
-- least 45 bytes, an entry, of bytes, of at least 46, an action set of at least 31 and a flag of at
-- least 2, `add_new_entry` ends without a fault. It returns TBL_FULL or RDNDNT, as
-- `add_new_flow_entry` does, and leaves the unit; or it does to the flow and mask tables what
-- `add_new_flow_entry` does, and in the row that it returns the action tables hold the action set and
-- the flag. The rows of the action tables from there on are then one row further down, as in the flow
-- table, and those before it as they were.
pub add_new_entry_lem :
    (tcam : TcamUnit) (mask flow_entry action_set flag : Bytes)
    → Grouped tcam
    → Sized tcam
    → 45 ≤ length mask
    → AllBytes flow_entry
    → 46 ≤ length flow_entry
    → 31 ≤ length action_set
    → 2 ≤ length flag
    → Returns
        (EntryOutcome tcam mask flow_entry action_set flag)
        (add_new_entry tcam mask flow_entry action_set flag)
add_new_entry_lem tcam mask flow_entry action_set flag g s long bytes whole ha hf =
    let (b, run, o) = add_new_flow_entry_lem tcam mask flow_entry g long whole in
    adds_entry tcam mask flow_entry action_set flag g s bytes whole ha hf b run o

-- After that the groups and masks still fit, and the action tables have their sizes.
pub EntryOutcome-Grouped :
    (tcam : TcamUnit) (mask flow_entry action_set flag : Bytes)
    → Grouped tcam
    → Sized tcam
    → 45 ≤ length mask
    → AllBytes flow_entry
    → 46 ≤ length flow_entry
    → (a : Added) → EntryOutcome tcam mask flow_entry action_set flag a
    → Grouped a.tcam × Sized a.tcam
EntryOutcome-Grouped tcam mask flow_entry action_set flag g s long bytes whole a
      (refused run why e) =
    rw e (g, s)
EntryOutcome-Grouped tcam mask flow_entry action_set flag g s long bytes whole a
      (added b p run at_p h tail actions flags rest m) =
    let (b', run', o) = add_new_flow_entry_lem tcam mask flow_entry g long whole in
    let e : b' ≡ b = ground (arith, run, run') in
    let g' : Grouped b.tcam =
      subst (λ c. Grouped c.tcam) e (Outcome-Grouped tcam mask flow_entry g bytes whole b' o) in
    let g'' : Grouped
        (record b.tcam { action_table = a.tcam.action_table; flag_table = a.tcam.flag_table }) =
      record {
        flows = g'.flows;
        masks = g'.masks;
        flow_in = g'.flow_in;
        first = g'.first;
        counted = g'.counted;
      } in
    (subst Grouped (sym m.rest) g'', m.sized)

-- ===== src/Tests/Entries.antt =====
-- The insertion of entries at concrete inputs.
use net_walk.Base.{
  ℕ, ◌≤◌, ◌≡◌, ◌≢◌, refl, none, some, arith, Bytes, AllBytes, [], ◌∷◌, replicate, set, ◌++◌, store,
  for_range, replicate-AllBytes, Returns, Runs, length,
}
use net_walk.Bits.{set_bit, reset_bit}
use net_walk.Bits.Laws.{bit_at}
use net_walk.FlowUnit.{
  TcamUnit, at, str_err, write_new_mask, write_new_flow_entry, write_new_action,
}
use net_walk.FlowUnit.Cache.{FlowCache, search_flow}
use net_walk.FlowUnit.Groups.{Grouped, starts}
use net_walk.FlowUnit.Insert.{
  add_new_flow_entry, add_new_entry, end_entry, add_action, add_group, find_mask, other_mask,
  restructure_flow_table,
}
use net_walk.FlowUnit.Insert.Shift.{Restructured, restructure_flow_table_lem}
use net_walk.FlowUnit.Insert.Outcome.{Outcome, add_new_flow_entry_lem}
use net_walk.FlowUnit.Insert.Keep.{add_new_flow_entry-Grouped}
use net_walk.FlowUnit.Insert.Masks.{SameMasks, add_new_flow_entry-SameMasks}
use net_walk.FlowUnit.Insert.Actions.{Sized}
use net_walk.FlowUnit.Insert.Entry.{EntryOutcome, add_new_entry_lem}
use net_walk.FlowUnit.Search.Refine.{best}
use net_walk.FlowUnit.Delete.{delete_flow_entry}
use net_walk.FlowUnit.Modify.{modify_entry}
use net_walk.FlowUnit.Cache.Keep.{IsCache}
use net_walk.FlowUnit.Histories.{IsEdit, CanGo, IsEntry, Reached, empty, inserts, Reached-Runs}

-- Tables of zeros.
abbrev pub blank_unit : TcamUnit
blank_unit = record {
  flow_table = replicate 960 0;
  mask_table = replicate 900 0;
  action_table = replicate 620 0;
  flag_table = replicate 40 0;
  flow_tail = 0;
  mask_tail = 0;
}

-- One entry of zeros under a mask with the bits of the first byte.
abbrev pub one_entry : TcamUnit
one_entry = record blank_unit {
  mask_table = set (replicate 900 0) 0 255;
  flow_tail = 1;
  mask_tail = 1;
}

abbrev pub first_byte : Bytes
first_byte = set (replicate 45 0) 0 255

abbrev pub sevens : Bytes
sevens = replicate 48 7

abbrev actions : Bytes
actions = replicate 31 9

abbrev flag : Bytes
flag = 1 ∷ 2 ∷ []

sevens-AllBytes : AllBytes sevens
sevens-AllBytes = replicate-AllBytes 48 7 (omega arith)

pub one_entry-Grouped : Grouped one_entry
unfolding starts bit_at
one_entry-Grouped = record {
  flows = refl;
  masks = refl;
  flow_in = omega arith;
  first = λ _. refl;
  counted = refl;
}

one_entry-Sized : Sized one_entry
one_entry-Sized = record { actions = refl; flags = refl }

restructure_flow_table_lem_example :
    Returns (Restructured 0 one_entry) (restructure_flow_table one_entry 0)
restructure_flow_table_lem_example =
    restructure_flow_table_lem one_entry 0 refl (omega arith) (omega arith)

add_new_flow_entry_lem_example :
    Returns (Outcome one_entry first_byte sevens) (add_new_flow_entry one_entry first_byte sevens)
add_new_flow_entry_lem_example =
    add_new_flow_entry_lem one_entry first_byte sevens one_entry-Grouped (omega arith) (omega arith)

add_new_flow_entry-Grouped_example :
    Returns (λ a. Grouped a.tcam) (add_new_flow_entry one_entry first_byte sevens)
add_new_flow_entry-Grouped_example =
    add_new_flow_entry-Grouped one_entry first_byte sevens one_entry-Grouped (omega arith)
      sevens-AllBytes (omega arith)

add_new_flow_entry-SameMasks_example :
    Returns
      (λ a. (p : ℕ) → a.position ≡ at p → SameMasks one_entry p a)
      (add_new_flow_entry one_entry first_byte sevens)
add_new_flow_entry-SameMasks_example =
    add_new_flow_entry-SameMasks one_entry first_byte sevens one_entry-Grouped (omega arith)
      sevens-AllBytes (omega arith)

add_new_entry_lem_example :
    Returns
      (EntryOutcome one_entry first_byte sevens actions flag)
      (add_new_entry one_entry first_byte sevens actions flag)
add_new_entry_lem_example =
    add_new_entry_lem one_entry first_byte sevens actions flag one_entry-Grouped one_entry-Sized
      (omega arith) sevens-AllBytes (omega arith) (omega arith) (omega arith)

-- The empty cache.
abbrev no_rows : FlowCache
no_rows = record { flow_cache = replicate 5 (none, 0); cache_top = 1 }

no_rows-IsCache : IsCache no_rows
no_rows-IsCache = record { rows = refl; low = omega arith; high = omega arith }

blank_unit-Reached : Reached blank_unit no_rows
blank_unit-Reached =
    empty refl refl (record { actions = refl; flags = refl }) refl refl no_rows-IsCache

sevens-IsEntry : IsEntry first_byte sevens actions flag
sevens-IsEntry = record {
  mask_size = omega arith;
  bytes = sevens-AllBytes;
  entry_size = omega arith;
  action_size = omega arith;
  flag_size = omega arith;
}

-- What the insertion into the blank unit leaves.
abbrev with_sevens : TcamUnit
with_sevens = record {
  flow_table = set (set (replicate 46 7 ++ replicate 914 0) 44 7) 47 255;
  mask_table = set (replicate 900 0) 0 255;
  action_table = replicate 31 9 ++ replicate 589 0;
  flag_table = 1 ∷ 2 ∷ replicate 38 0;
  flow_tail = 1;
  mask_tail = 1;
}

inserts_sevens :
    add_new_entry blank_unit first_byte sevens actions flag
    ≡ some (record { position = at 0; tcam = with_sevens; mask = first_byte; flow_entry = sevens })
unfolding add_new_entry add_new_flow_entry end_entry add_action add_group find_mask other_mask
    write_new_mask write_new_flow_entry write_new_action set_bit reset_bit store for_range
inserts_sevens = refl

Reached-Runs_example :
    ((flow action_set : Bytes)
      → 45 ≤ length flow
      → 31 ≤ length action_set
      → Returns (λ r. r.position ≢ str_err) (search_flow no_rows with_sevens flow action_set))
    × ((mask flow_entry action_set flag : Bytes)
        → IsEntry mask flow_entry action_set flag
        → Runs (add_new_entry with_sevens mask flow_entry action_set flag))
    × ((flow : Bytes) (pos mask : ℕ)
        → 45 ≤ length flow
        → AllBytes with_sevens.flow_table
        → best with_sevens flow with_sevens.flow_tail ≡ some (pos, mask)
        → CanGo with_sevens pos
        → Runs (delete_flow_entry with_sevens flow))
    × ((flow flag new_values val : Bytes) (pos mask : ℕ)
        → 45 ≤ length flow
        → IsEdit with_sevens flag new_values val
        → best with_sevens flow with_sevens.flow_tail ≡ some (pos, mask)
        → Runs (modify_entry with_sevens flow flag new_values val))
Reached-Runs_example =
    Reached-Runs with_sevens no_rows
      (inserts first_byte sevens actions flag blank_unit-Reached sevens-IsEntry inserts_sevens)

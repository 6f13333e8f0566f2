-- ===== src/Tests/Removal.antt =====
-- Deletions, modifications, and flows that match nothing, at concrete inputs.
use net_walk.Base.{
  ℕ, zero, suc, ◌≤◌, ◌<◌, ◌≡◌, refl, none, some, inl, inr, arith, Bytes, [], ◌∷◌, replicate,
  Returns, length, replicate-AllBytes, byte_at, ◌*◌, ◌+◌,
}
use net_walk.Bits.Laws.{bit_at}
use net_walk.FlowUnit.{TcamUnit, no_match, at}
use net_walk.FlowUnit.Search.Match.{Matches, miss, any_of}
use net_walk.FlowUnit.Search.Refine.{best, better, hit, groups, mask_of}
use net_walk.FlowUnit.Cache.{FlowCache, search_flow}
use net_walk.FlowUnit.Groups.{Grouped, starts}
use net_walk.FlowUnit.Insert.{add_new_flow_entry}
use net_walk.FlowUnit.Insert.Find.{SameMask}
use net_walk.FlowUnit.Delete.{delete_flow_entry}
use net_walk.FlowUnit.Delete.Removed.{Deleted}
use net_walk.FlowUnit.Delete.Entry.{delete_flow_entry_lem}
use net_walk.FlowUnit.Groups.Searched.{after_search}
use net_walk.FlowUnit.Delete.Stale.{Lost, delete_flow_entry_only}
use net_walk.FlowUnit.Modify.{modify_entry}
use net_walk.FlowUnit.Modify.End.{Modified}
use net_walk.FlowUnit.Modify.Entry.{modify_entry_lem}
use net_walk.FlowUnit.Apply.{apply_action, policy_controller}
use net_walk.FlowUnit.Unmatched.{no_match_calls}
use net_walk.Tests.Entries.{one_entry, one_entry-Grouped, sevens}

-- A second row in the same group.
abbrev two_entries : TcamUnit
two_entries = record one_entry { flow_tail = 2 }

abbrev zeros : Bytes
zeros = replicate 45 0

two_entries-Grouped : Grouped two_entries
unfolding starts bit_at
two_entries-Grouped = record {
  flows = refl;
  masks = refl;
  flow_in = omega arith;
  first = λ _. refl;
  counted = refl;
}

two_entries-best : best two_entries zeros 2 ≡ some (0, 0)
unfolding best better hit groups miss any_of bit_at
two_entries-best = refl

one_entry-best : best one_entry zeros 1 ≡ some (0, 0)
unfolding best better hit groups miss any_of bit_at
one_entry-best = refl

first_bits : bit_at two_entries.flow_table 356 ≡ 0
unfolding bit_at
first_bits = refl

second_bit : bit_at two_entries.flow_table 740 ≡ 0
unfolding bit_at
second_bit = refl

delete_flow_entry_lem_example :
    Returns
      (λ r. (r.0 ≡ 0) × Deleted (after_search two_entries zeros) 0 (r.1))
      (delete_flow_entry two_entries zeros)
delete_flow_entry_lem_example =
    delete_flow_entry_lem two_entries zeros 0 0 two_entries-Grouped
      (record { actions = refl; flags = refl }) (replicate-AllBytes 960 0 (omega arith))
      (omega arith) two_entries-best (inl first_bits) (inr (omega arith, second_bit))

delete_flow_entry_only_example :
    (delete_flow_entry one_entry zeros
      ≡ some (0, record (after_search one_entry zeros) { flow_tail = 0 }))
    × ((mask flow_entry : Bytes)
        → 45 ≤ length mask
        → 46 ≤ length flow_entry
        → SameMask one_entry mask 0
        → Returns (Lost (record (after_search one_entry zeros) { flow_tail = 0 })) (
            add_new_flow_entry
              (record (after_search one_entry zeros) { flow_tail = 0 })
              mask
              flow_entry))
delete_flow_entry_only_example =
    delete_flow_entry_only one_entry zeros 0 one_entry-Grouped (omega arith) refl one_entry-best

sevens-unmatched : (e : ℕ) → e < 1 → ¬ (Matches one_entry sevens (mask_of one_entry sevens e) e)
unfolding groups bit_at
sevens-unmatched zero h m = let x = m 7 (omega arith) (λ e. ground (arith, e)) in ground (arith, x)
sevens-unmatched (suc e) h m = absurd (omega arith)

no_match_calls_example :
    (delete_flow_entry one_entry sevens ≡ none)
    × ((flag new_values val : Bytes) → modify_entry one_entry sevens flag new_values val ≡ none)
    × ((cache : FlowCache) (action_set : Bytes)
        → search_flow cache one_entry sevens action_set
          ≡ some (record {
            position = no_match;
            tcam = one_entry;
            cache = cache;
            action_set = action_set;
          }))
    × ((cache : FlowCache) (action_set val : Bytes)
        → cache.cache_top ≡ 1
        → apply_action cache one_entry sevens action_set val
          ≡ some (record {
            result = some no_match;
            tcam = one_entry;
            cache = cache;
            output = policy_controller ∷ [];
          }))
no_match_calls_example =
    no_match_calls one_entry sevens one_entry-Grouped (omega arith) sevens-unmatched

modify_entry_lem_example :
    Returns
      (λ r.
        (r.0 ≡ at 0)
        × Modified (after_search two_entries zeros) 0 (0 ∷ 4 ∷ []) (r.1)
        × Grouped (r.1)
        × (bit_at (0 ∷ 4 ∷ []) 14 ≡ 0
            → byte_at r.1.flow_table (0 * 48 + 46) ≡ byte_at two_entries.flow_table (0 * 48 + 46)))
      (modify_entry two_entries zeros (0 ∷ 4 ∷ []) (replicate 34 5) (replicate 6 0))
modify_entry_lem_example =
    modify_entry_lem two_entries zeros (0 ∷ 4 ∷ []) (replicate 34 5) (replicate 6 0) 0 0
      two_entries-Grouped (record { actions = refl; flags = refl })
      (replicate-AllBytes 960 0 (omega arith)) (replicate-AllBytes 620 0 (omega arith))
      (omega arith) two_entries-best (omega arith) (omega arith)
      (replicate-AllBytes 34 5 (omega arith)) (omega arith) (replicate-AllBytes 6 0 (omega arith))

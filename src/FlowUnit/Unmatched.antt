-- ===== src/FlowUnit/Unmatched.antt =====
-- What the functions do for a flow that no entry matches.
use net_walk.Base.{
  ℕ, zero, suc, ◌≤◌, ◌<◌, ◌≡◌, inl, inr, refl, none, some, arith, Bytes, [], ◌∷◌, length,
  Bool-cases, false, ltb,
}
use net_walk.FlowUnit.{TcamUnit, no_match}
use net_walk.FlowUnit.Search.{search_tcam}
use net_walk.FlowUnit.Search.Match.{Matches}
use net_walk.FlowUnit.Search.Refine.{hit, counted, best, mask_of, search_tcam_refines}
use net_walk.FlowUnit.Search.Best.{hit_iff}
use net_walk.FlowUnit.Cache.{FlowCache, search_cache, search_flow}
use net_walk.FlowUnit.Groups.{Grouped, Grouped-IsValid, Grouped-mask_of}
use net_walk.FlowUnit.Delete.{delete_flow_entry}
use net_walk.FlowUnit.Modify.{modify_entry}
use net_walk.FlowUnit.Apply.{apply_action, policy_controller}

module _ (tcam : TcamUnit) (flow : Bytes) where
  none-best : (n : ℕ) → ((e : ℕ) → e < n → hit tcam flow e ≡ false) → best tcam flow n ≡ none
  unfolding best
  none-best zero h = refl
  none-best (suc n) h = rw (h n (omega arith)) (none-best n (λ e l. h e (omega arith)))

  none-counted :
      (n : ℕ) → ((e : ℕ) → e < n → hit tcam flow e ≡ false) → counted tcam flow n ≡ tcam.flow_table
  unfolding counted
  none-counted zero h = refl
  none-counted (suc n) h = rw (h n (omega arith)) (none-counted n (λ e l. h e (omega arith)))

  no_hit :
      ((e : ℕ) → e < tcam.flow_tail → ¬ (Matches tcam flow (mask_of tcam flow e) e))
      → (e : ℕ) → e < tcam.flow_tail
      → hit tcam flow e ≡ false
  no_hit none_of e h = elim (Bool-cases (hit tcam flow e)) [
    | inl y ↦ absurd (none_of e h ((hit_iff tcam flow e).0 y))
    | inr y ↦ y
  ]

  search-none :
      Grouped tcam
      → 45 ≤ length flow
      → ((e : ℕ) → e < tcam.flow_tail → ¬ (Matches tcam flow (mask_of tcam flow e) e))
      → search_tcam tcam flow ≡ some (some none, tcam)
  search-none g hf none_of =
      let b = none-best tcam.flow_tail (no_hit none_of) in
      let c = none-counted tcam.flow_tail (no_hit none_of) in
      rw
        (
          search_tcam_refines tcam flow (Grouped-IsValid tcam g) hf (Grouped-mask_of tcam flow g),
          b,
          c,
        )
        refl

nothing_cached :
    (cache : FlowCache) (flow : Bytes) (tcam : TcamUnit)
    → cache.cache_top ≡ 1
    → search_cache cache flow tcam ≡ some (none, tcam)
unfolding search_cache
nothing_cached cache flow tcam top =
    let e : ltb 1 cache.cache_top ≡ false = ground arith in rw e refl

-- If the groups and masks of the unit fit, and no entry matches the flow, of at least 45 bytes, under
-- the mask of its group, then `delete_flow_entry` and `modify_entry` access an array out of its range.
-- `search_flow` returns -1, and so does `apply_action` with a cache in which nothing was remembered,
-- `cache_top` 1, after it has notified the policy controller; both leave the unit and the cache.
pub no_match_calls :
    (tcam : TcamUnit) (flow : Bytes)
    → Grouped tcam
    → 45 ≤ length flow
    → ((e : ℕ) → e < tcam.flow_tail → ¬ (Matches tcam flow (mask_of tcam flow e) e))
    → (delete_flow_entry tcam flow ≡ none)
      × ((flag new_values val : Bytes) → modify_entry tcam flow flag new_values val ≡ none)
      × ((cache : FlowCache) (action_set : Bytes)
          → search_flow cache tcam flow action_set
            ≡ some (record {
              position = no_match;
              tcam = tcam;
              cache = cache;
              action_set = action_set;
            }))
      × ((cache : FlowCache) (action_set val : Bytes)
          → cache.cache_top ≡ 1
          → apply_action cache tcam flow action_set val
            ≡ some (record {
              result = some no_match;
              tcam = tcam;
              cache = cache;
              output = policy_controller ∷ [];
            }))
unfolding delete_flow_entry modify_entry search_flow apply_action
no_match_calls tcam flow g hf none_of =
    let run = search-none tcam flow g hf none_of in
    (
      rw run refl,
      (λ flag new_values val. rw run refl),
      (λ cache action_set. rw run refl),
      λ cache action_set val top. rw (nothing_cached cache flow tcam top, run) refl,
    )

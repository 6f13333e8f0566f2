-- ===== src/FlowUnit/Cache/Keep.antt =====
-- What `search_flow` keeps of the unit and of the cache.
use net_walk.Base.{
  ℕ, ◌+◌, ◌-◌, ◌*◌, ◌≤◌, ◌<◌, ◌≡◌, ◌≢◌, refl, ◌∙◌, none, some, arith, Bytes, length, length-set,
  Returns, copy_bytes_lem, ltb, true, if◌then◌else◌, set,
}
use net_walk.FlowUnit.{TcamUnit, str_err, no_match, at}
use net_walk.FlowUnit.Search.{search_tcam, Found}
use net_walk.FlowUnit.Search.Refine.{counted, best, search_tcam_refines}
use net_walk.FlowUnit.Search.Best.{IsBestOf, best_lem}
use net_walk.FlowUnit.Cache.{FlowCache, remember, search_flow}
use net_walk.FlowUnit.Groups.{Grouped, Grouped-IsValid, Grouped-mask_of}
use net_walk.FlowUnit.Groups.Searched.{Grouped-counted}
use net_walk.FlowUnit.Insert.Actions.{Sized}

-- The five rows of the cache, and a `cache_top` that counts them.
pub record IsCache (cache : FlowCache) : Type 0 where
  pub rows : length cache.flow_cache ≡ 5
  pub low : 0 < cache.cache_top
  pub high : cache.cache_top ≤ 5

-- What every call keeps.
pub record Good (tcam : TcamUnit) (cache : FlowCache) : Type 0 where
  pub grouped : Grouped tcam
  pub sized : Sized tcam
  pub is_cache : IsCache cache

remember_lem :
    (cache : FlowCache) (mask entry : ℕ)
    → IsCache cache
    → Returns IsCache (remember cache mask entry)
unfolding remember
remember_lem cache mask entry c =
    let e : ltb (5 - cache.cache_top) (length cache.flow_cache) ≡ true =
      ground (arith, c.rows, c.low) in
    (
      record {
        flow_cache = set cache.flow_cache (5 - cache.cache_top) (some mask, entry);
        cache_top = if ltb 5 (cache.cache_top + 1) then 1 else cache.cache_top + 1;
      },
      rw e refl,
      record {
        rows = length-set cache.flow_cache (5 - cache.cache_top) (some mask, entry) ∙ c.rows;
        low = ground arith;
        high = ground (arith, c.high);
      },
    )

module _ (cache : FlowCache) (tcam : TcamUnit) (flow action_set : Bytes) (g : Good tcam cache)
    (hf : 45 ≤ length flow) (ha : 31 ≤ length action_set) where
  abbrev searched : TcamUnit
  searched = record tcam { flow_table = counted tcam flow tcam.flow_tail }

  after_search : (c : FlowCache) → IsCache c → Good searched c
  after_search c h = record {
    grouped = Grouped-counted tcam flow g.grouped;
    sized = record { actions = g.sized.actions; flags = g.sized.flags };
    is_cache = h;
  }

  -- What was found goes to the caller and to the cache.
  hands_on :
      (f : Found)
      → IsBestOf tcam flow tcam.flow_tail f
      → search_tcam tcam flow ≡ some (some f, searched)
      → Returns
          (λ r. (r.position ≢ str_err) × Good r.tcam r.cache)
          (search_flow cache tcam flow action_set)
  unfolding search_flow IsBestOf
  hands_on none b run = (
    record { position = no_match; tcam = searched; cache = cache; action_set = action_set },
    rw run refl,
    ((λ e. ground (arith, e)), after_search cache g.is_cache),
  )
  hands_on (some (pos, mask)) b run =
      let (out, copied, p) =
        copy_bytes_lem 31 tcam.action_table (pos * 31) action_set 0
          (omega (arith, b.within, g.grouped.flow_in, g.sized.actions)) (omega arith) in
      let (cache', kept, c) = remember_lem cache mask pos g.is_cache in
      (
        record { position = at pos; tcam = searched; cache = cache'; action_set = out },
        rw (run, copied, kept) refl,
        ((λ e. ground (arith, e)), after_search cache' c),
      )

  -- A search ends without a fault and STR_ERR, and keeps it.
  pub search_flow_lem :
      Returns
        (λ r. (r.position ≢ str_err) × Good r.tcam r.cache)
        (search_flow cache tcam flow action_set)
  search_flow_lem = hands_on (best tcam flow tcam.flow_tail) (best_lem tcam flow tcam.flow_tail) (
      search_tcam_refines tcam flow (Grouped-IsValid tcam g.grouped) hf
        (Grouped-mask_of tcam flow g.grouped))

-- ===== src/FlowUnit/Cache/Unfilled.antt =====
-- The cache between `init` and its fifth entry: the loop of `search_cache` starts at the row that
-- is written next, whose mask is still -1.
use net_walk.Base.{
  ℕ, zero, suc, ◌+◌, ◌-◌, ◌≤◌, ◌<◌, ◌≡◌, ◌≢◌, refl, ap, ◌∙◌, none, some, arith, Bytes, List, [],
  ◌∷◌, lt→ltb, get_elem?, set, length, length-set, Returns,
}
use net_walk.FlowUnit.{TcamUnit}
use net_walk.FlowUnit.Cache.{
  Row, FlowCache, init, forget, try_row, cache_loop, search_cache, remember,
}

-- The rows up to the one that is written next have the mask -1.
pub record Unfilled (cache : FlowCache) : Type 0 where
  pub rows : length cache.flow_cache ≡ 5
  pub started : 1 ≤ cache.cache_top
  pub top_in : cache.cache_top ≤ 5
  pub blank :
      (i : ℕ)
      → i ≤ 5 - cache.cache_top
      → (entry : ℕ) × (get_elem? cache.flow_cache i ≡ some (none, entry))

length-forget : (rows : List Row) → length (forget rows) ≡ length rows
unfolding forget
length-forget [] = refl
length-forget ((m, e) ∷ rows) = ap suc (length-forget rows)

forget-blank :
    (rows : List Row) (i : ℕ)
    → i < length rows
    → (entry : ℕ) × (get_elem? (forget rows) i ≡ some (none, entry))
unfolding forget
forget-blank [] i h = absurd (omega arith)
forget-blank ((m, e) ∷ rows) zero h = (e, refl)
forget-blank ((m, e) ∷ rows) (suc i) h = forget-blank rows i (omega arith)

-- `init` leaves every row blank.
pub init-Unfilled :
    (cache : FlowCache)
    → length cache.flow_cache ≡ 5
    → Unfilled (init cache) × ((init cache).cache_top ≡ 1)
unfolding init
init-Unfilled cache h = (
  record {
    rows = length-forget cache.flow_cache ∙ h;
    started = omega arith;
    top_in = omega arith;
    blank = λ i hi. forget-blank cache.flow_cache i (omega arith);
  },
  refl,
)

get_elem?-set_ne :
    (rows : List Row) (i j : ℕ) (v : Row) → i ≢ j → get_elem? (set rows i v) j ≡ get_elem? rows j
get_elem?-set_ne [] i j v h = refl
get_elem?-set_ne (x ∷ rows) zero zero v h = absurd (h refl)
get_elem?-set_ne (x ∷ rows) zero (suc j) v h = refl
get_elem?-set_ne (x ∷ rows) (suc i) zero v h = refl
get_elem?-set_ne (x ∷ rows) (suc i) (suc j) v h = get_elem?-set_ne rows i j v (λ e. h (ap suc e))

-- If the cache has at most three pairs since `init`, then remembering another ends without a
-- fault, steps `cache_top` by one, and leaves the rows up to the one that is written next without
-- a mask.
pub remember-Unfilled :
    (cache : FlowCache) (mask entry : ℕ)
    → Unfilled cache
    → cache.cache_top ≤ 4
    → Returns
        (λ cache'. Unfilled cache' × (cache'.cache_top ≡ cache.cache_top + 1))
        (remember cache mask entry)
unfolding remember
remember-Unfilled cache mask entry u h = (
  record {
    flow_cache = set cache.flow_cache (5 - cache.cache_top) (some mask, entry);
    cache_top = cache.cache_top + 1;
  },
  ground (arith, u.rows),
  (
    record {
      rows = length-set cache.flow_cache (5 - cache.cache_top) (some mask, entry) ∙ u.rows;
      started = omega arith;
      top_in = omega arith;
      blank = λ i hi.
          let (e, old) = u.blank i (omega arith) in
          (
            e,
            get_elem?-set_ne cache.flow_cache (5 - cache.cache_top) i (some mask, entry)
                  (λ x. omega (arith, u.started))
                ∙ old,
          );
    },
    refl,
  ),
)

-- A loop over a row with the mask -1.
cache_loop_faults :
    (rows : List Row) (flow : Bytes) (tcam : TcamUnit) (top entry : ℕ)
    → 1 < top
    → get_elem? rows (5 - top) ≡ some (none, entry)
    → cache_loop top rows flow none tcam ≡ none
unfolding cache_loop try_row
cache_loop_faults rows flow tcam zero entry h e = absurd (omega arith)
cache_loop_faults rows flow tcam (suc l) entry h e = rw e refl

-- If the cache has at least one pair since `init` and the rows up to the one that is written next
-- have no mask, then any search of it, for any flow in any table, reads the mask table at the
-- place -1.
pub search_cache_faults :
    (cache : FlowCache) (flow : Bytes) (tcam : TcamUnit)
    → Unfilled cache
    → 1 < cache.cache_top
    → search_cache cache flow tcam ≡ none
unfolding search_cache
search_cache_faults cache flow tcam u h =
    let (entry, e) = u.blank (5 - cache.cache_top) (omega arith) in
    rw (lt→ltb 1 cache.cache_top h)
      (cache_loop_faults cache.flow_cache flow tcam cache.cache_top entry h e)

-- ===== src/FlowUnit/Cache.antt =====
-- The flow cache of flow-processing-unit/flow_unit.h: the pairs of mask and entry that were matched
-- last, and the two lookups that `apply_action` makes, first in the cache, then in the table.
pub mod Unfilled
pub mod Keep
use net_walk.Base.{
  ℕ, zero, suc, ◌+◌, ◌-◌, ◌*◌, Option, none, some, Bytes, List, [], ◌∷◌, ◌>>=◌, load, copy_bytes,
  ◌==◌, ltb, if◌then◌else◌, get_elem?, set, length,
}
use net_walk.ModifyField.{actn_st_len}
use net_walk.FlowUnit.{TcamUnit, Position, at, no_match, str_err, cache_size, flw_ent_len}
use net_walk.FlowUnit.Search.{Found, differs, count_hit, search_tcam}

-- A row of `flow_cache`: a mask, with `none` for -1, and an entry.
abbrev pub Row : Type 0
Row = Option ℕ × ℕ

pub record FlowCache : Type 0 where
  pub flow_cache : List Row
  pub cache_top : ℕ

forget : List Row → List Row
forget [] = []
forget ((mask, entry) ∷ rows) = (none, entry) ∷ forget rows

-- Each row loses its mask and keeps its entry.
unfoldable pub init : FlowCache → FlowCache
unfolding forget
init cache = record { flow_cache = forget cache.flow_cache; cache_top = 1 }

-- The entry that was found so far, or this one if its priority is higher.
unfoldable pub prefer_entry : Bytes → Option ℕ → ℕ → Option (Option ℕ)
prefer_entry table none entry = some (some entry)
prefer_entry table (some match_no) entry = do
  old ← load table (match_no * flw_ent_len + 45)
  new ← load table (entry * flw_ent_len + 45)
  some (some (if ltb old new then entry else match_no))

-- One row of the cache. With the mask -1 the first bit that is read lies before the mask table.
unfoldable pub try_row : Row → Bytes → Option ℕ → TcamUnit → Option (Option ℕ × TcamUnit)
try_row (none, entry) flow match_no tcam = none
try_row (some mask, entry) flow match_no tcam = do
  k ← differs tcam flow mask entry
  if k then some (match_no, tcam) else do
    table ← count_hit tcam.flow_table entry
    match_no' ← prefer_entry table match_no entry
    some (match_no', record tcam { flow_table = table })

-- The loop on `l`, from `cache_top` down to 1, over the rows `CACHE_SIZE - l`.
unfoldable pub cache_loop :
    ℕ → List Row → Bytes → Option ℕ → TcamUnit → Option (Option ℕ × TcamUnit)
cache_loop zero rows flow match_no tcam = some (match_no, tcam)
cache_loop (suc l) rows flow match_no tcam = do
  row ← get_elem? rows (cache_size - suc l)
  (match_no', tcam') ← try_row row flow match_no tcam
  cache_loop l rows flow match_no' tcam'

unfoldable pub search_cache : FlowCache → Bytes → TcamUnit → Option (Option ℕ × TcamUnit)
search_cache cache flow tcam =
    if ltb 1 cache.cache_top
    then cache_loop cache.cache_top cache.flow_cache flow none tcam
    else some (none, tcam)

-- The row `CACHE_SIZE - cache_top` is overwritten, and `cache_top` goes round.
unfoldable pub remember : FlowCache → ℕ → ℕ → Option FlowCache
remember cache mask entry =
    if ltb (cache_size - cache.cache_top) (length cache.flow_cache)
    then some (record {
      flow_cache = set cache.flow_cache (cache_size - cache.cache_top) (some mask, entry);
      cache_top = if ltb cache_size (cache.cache_top + 1) then 1 else cache.cache_top + 1;
    })
    else none

-- What `search_flow` returns and leaves.
pub record Flowed : Type 0 where
  pub position : Position
  pub tcam : TcamUnit
  pub cache : FlowCache
  pub action_set : Bytes

unfoldable pub search_flow : FlowCache → TcamUnit → Bytes → Bytes → Option Flowed
search_flow cache tcam new_flow action_set = search_tcam tcam new_flow >>= λ r. elim (r.0) [
  | none ↦ some (record { position = str_err; tcam = r.1; cache = cache; action_set = action_set })
  | some none ↦
      some (record { position = no_match; tcam = r.1; cache = cache; action_set = action_set })
  | some (some (pos, mask)) ↦
      copy_bytes actn_st_len r.1.action_table (pos * actn_st_len) action_set 0 >>= λ actions.
      remember cache mask pos >>= λ cache'.
      some (record { position = at pos; tcam = r.1; cache = cache'; action_set = actions })
]

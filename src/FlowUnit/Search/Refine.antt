-- ===== src/FlowUnit/Search/Refine.antt =====
-- The search against a reference: which entries match, what their counters become, and which of
-- them is found.
use net_walk.Base.{
  ℕ, zero, suc, ◌+◌, ◌*◌, ◌/◌, ◌%◌, ◌≤◌, ◌<◌, ◌≡◌, ◌≢◌, refl, sym, ap, ◌∙◌, Bool, true, false, not,
  none, some, arith, Bytes, load, load_in, store_in, length, length-set, set, byte_at, get_or-set,
  ◌==◌, ltb, if◌then◌else◌, Bool-cases, inl, inr,
}
use net_walk.Bits.{read_bit}
use net_walk.Bits.Laws.{bit_at, read_bit_in}
use net_walk.FlowUnit.{TcamUnit, group_bit}
use net_walk.FlowUnit.Search.{
  Found, prefer, count_hit, search_loop, search_tcam, search_round, go, differs, next_mask,
  no_such_mask,
}
use net_walk.FlowUnit.Search.Match.{IsValid, Matches, miss, miss_iff, differs_lem}

-- A round, by what its parts give.
module _ (n mask_no : ℕ) (found : Found) (flow : Bytes) (tcam : TcamUnit) {first mask_no' : ℕ}
    (reads : read_bit tcam.flow_table (group_bit n) ≡ some first)
    (next : next_mask first mask_no ≡ mask_no') (has : no_such_mask tcam mask_no' ≡ false) where
  round_miss :
      differs tcam flow mask_no' n ≡ some true
      → search_round n mask_no found flow tcam ≡ some (go mask_no' found tcam)
  unfolding search_round
  round_miss d = rw (reads, next, has, d)

  round_hit :
      {table : Bytes} {found' : Found}
      → differs tcam flow mask_no' n ≡ some false
      → count_hit tcam.flow_table n ≡ some table
      → prefer table found mask_no' n ≡ some found'
      → search_round n mask_no found flow tcam
        ≡ some (go mask_no' found' (record tcam { flow_table = table }))
  unfolding search_round
  round_hit d c p = rw (reads, next, has, d, c, p)

module _ (tcam : TcamUnit) (flow : Bytes) where
  -- How many of the entries before `n` start a group; entry `n` has the mask `groups (n + 1)`.
  unfoldable pub groups : ℕ → ℕ
  groups zero = 0
  groups (suc n) = if bit_at tcam.flow_table (group_bit n) == 0 then groups n else groups n + 1

  abbrev pub mask_of : ℕ → ℕ
  mask_of n = groups (suc n)

  -- The entry matches under its mask.
  unfoldable pub hit : ℕ → Bool
  hit n = not (miss tcam flow (mask_of n) n)

  abbrev pub priority : ℕ → ℕ
  priority n = byte_at tcam.flow_table (n * 48 + 45)

  -- The table with the counters of the matching entries before `n` counted on.
  unfoldable pub counted : ℕ → Bytes
  counted zero = tcam.flow_table
  counted (suc n) =
      if hit n
      then set (counted n) (n * 48 + 46) ((byte_at tcam.flow_table (n * 48 + 46) + 1) % 256)
      else counted n

  -- The entry found so far, or the matching entry `n` if its priority is higher.
  unfoldable pub better : ℕ → Found → Found
  better n none = some (n, mask_of n)
  better n (some f) = if ltb (priority f.0) (priority n) then some (n, mask_of n) else some f

  -- The first of those entries before `n` that match at the highest priority, with its mask.
  unfoldable pub best : ℕ → Found
  unfolding better
  best zero = none
  best (suc n) = if hit n then better n (best n) else best n

  pub length-counted : (n : ℕ) → length (counted n) ≡ length tcam.flow_table
  unfolding counted
  length-counted zero = refl
  length-counted (suc n) = ground (
    arith,
    length-counted n,
    length-set (counted n) (n * 48 + 46) ((byte_at tcam.flow_table (n * 48 + 46) + 1) % 256),
  )

  -- Only the counters of matching entries that were passed change.
  pub byte_at-counted :
      length tcam.flow_table ≡ 960
      → (n i : ℕ) → n ≤ 20
      → ((e : ℕ) → e < n → i ≢ e * 48 + 46)
      → byte_at (counted n) i ≡ byte_at tcam.flow_table i
  unfolding counted
  byte_at-counted size zero i h ne = refl
  byte_at-counted size (suc n) i h ne = ground (
    arith,
    size,
    length-counted n,
    byte_at-counted size n i (omega arith) (λ e he. ne e (omega arith)),
    ne n (omega arith),
    get_or-set (counted n) (n * 48 + 46) i ((byte_at tcam.flow_table (n * 48 + 46) + 1) % 256) 0,
  )

  -- The search looks at no counter.
  pub bit_at-counted :
      length tcam.flow_table ≡ 960
      → (n q : ℕ) → n ≤ 20
      → ((e : ℕ) → e < n → q / 8 ≢ e * 48 + 46)
      → bit_at (counted n) q ≡ bit_at tcam.flow_table q
  unfolding bit_at
  bit_at-counted size n q h ne = rw (byte_at-counted size n (q / 8) h ne)

  abbrev after : ℕ → TcamUnit
  after n = record tcam { flow_table = counted n }

  Matches-counted :
      length tcam.flow_table ≡ 960
      → (n mask_no e : ℕ) → n ≤ 20
      → (Matches (after n) flow mask_no e → Matches tcam flow mask_no e)
        × (Matches tcam flow mask_no e → Matches (after n) flow mask_no e)
  Matches-counted size n mask_no e h =
      (λ m i hi masked. m i hi masked ∙ same i hi, λ m i hi masked. m i hi masked ∙ sym (same i hi))
    where
      same :
          (i : ℕ)
          → i < 360
          → bit_at (counted n) (e * 384 + i) ≡ bit_at tcam.flow_table (e * 384 + i)
      same i hi = bit_at-counted size n (e * 384 + i) h (λ e' he x. omega arith)

  miss-counted :
      length tcam.flow_table ≡ 960
      → (n mask_no e : ℕ) → n ≤ 20
      → miss (after n) flow mask_no e ≡ miss tcam flow mask_no e
  miss-counted size n mask_no e h =
      let (to, back) = Matches-counted size n mask_no e h in
      agree (miss (after n) flow mask_no e) (miss tcam flow mask_no e)
        (λ x. (miss_iff tcam flow mask_no e).1 (to ((miss_iff (after n) flow mask_no e).0 x)))
        (λ x. (miss_iff (after n) flow mask_no e).1 (back ((miss_iff tcam flow mask_no e).0 x)))
    where
      agree : (a b : Bool) → (a ≡ false → b ≡ false) → (b ≡ false → a ≡ false) → a ≡ b
      agree false b f g = sym (f refl)
      agree true false f g = g refl
      agree true true f g = refl

  count_hit-counted :
      length tcam.flow_table ≡ 960
      → (n : ℕ) → n < 20
      → hit n ≡ true
      → count_hit (counted n) n ≡ some (counted (suc n))
  unfolding count_hit counted
  count_hit-counted size n h y =
      let inside : n * 48 + 46 < length (counted n) = omega (arith, length-counted n) in
      rw (
        load_in (counted n) (n * 48 + 46) inside,
        store_in (counted n) (n * 48 + 46) ((byte_at (counted n) (n * 48 + 46) + 1) % 256) inside,
        byte_at-counted size n (n * 48 + 46) (omega arith) (λ e he x. omega arith),
        y,
      )

  -- What is found stands before the entry that is looked at.
  abbrev Below : ℕ → Found → Type 0
  Below n none = Unit {0}
  Below n (some f) = f.0 < n

  better-Below : (n : ℕ) (f : Found) → Below n f → Below (suc n) (better n f)
  unfolding better
  better-Below n none b = omega arith
  better-Below n (some f) b = elim (Bool-cases (ltb (priority f.0) (priority n))) [
    | inl e ↦ rw e (omega arith)
    | inr e ↦ rw e (omega arith)
  ]

  Below-suc : (n : ℕ) (f : Found) → Below n f → Below (suc n) f
  Below-suc n none b = tt
  Below-suc n (some f) b = omega arith

  best-Below : (n : ℕ) → Below n (best n)
  unfolding best
  best-Below zero = tt
  best-Below (suc n) = elim (Bool-cases (hit n)) [
    | inl e ↦ rw e (better-Below n (best n) (best-Below n))
    | inr e ↦ rw e (Below-suc n (best n) (best-Below n))
  ]

  module _ (size : length tcam.flow_table ≡ 960) where
    priority-counted :
        (n e : ℕ) → n ≤ 20 → e < 20 → load (counted n) (e * 48 + 45) ≡ some (priority e)
    priority-counted n e h he =
        load_in (counted n) (e * 48 + 45) (omega (arith, length-counted n))
        ∙ ap some (byte_at-counted size n (e * 48 + 45) h (λ e' _ x. omega arith))

    prefer-better :
        (n : ℕ) (f : Found)
        → n < 20
        → Below n f
        → prefer (counted (suc n)) f (mask_of n) n ≡ some (better n f)
    unfolding prefer better
    prefer-better n none h b = refl
    prefer-better n (some f) h b =
        rw (priority-counted (suc n) f.0 h (omega arith), priority-counted (suc n) n h h)
          (ground arith)

    first_bit :
        (n : ℕ)
        → n < 20
        → read_bit (counted n) (group_bit n) ≡ some (bit_at tcam.flow_table (group_bit n))
    first_bit n h =
        read_bit_in (counted n) (group_bit n) (omega (arith, length-counted n))
        ∙ ap some (bit_at-counted size n (group_bit n) (omega arith) (λ e _ x. omega arith))

  mask_step : (n : ℕ) → next_mask (bit_at tcam.flow_table (group_bit n)) (groups n) ≡ mask_of n
  unfolding groups next_mask
  mask_step n = refl

  has_mask : (n : ℕ) → mask_of n < tcam.mask_tail → no_such_mask (after n) (mask_of n) ≡ false
  unfolding no_such_mask
  has_mask n h = ground arith

  best-miss : (n : ℕ) → hit n ≡ false → (best (suc n) ≡ best n) × (counted (suc n) ≡ counted n)
  unfolding best counted
  best-miss n e = (rw e, rw e)

  best-hit : (n : ℕ) → hit n ≡ true → best (suc n) ≡ better n (best n)
  unfolding best
  best-hit n e = rw e

  differs-after :
      IsValid tcam
      → 45 ≤ length flow
      → (n : ℕ) → n < 20
      → mask_of n < 20
      → differs (after n) flow (mask_of n) n ≡ some (not (hit n))
  unfolding hit
  differs-after v hf n h hm =
      differs_lem (after n) flow (mask_of n) n
        (record {
          flows = length-counted n ∙ v.flows;
          masks = v.masks;
          flow_in = v.flow_in;
          mask_in = v.mask_in;
        })
        hf hm h
      ∙ ap some (
          miss-counted v.flows n (mask_of n) n (omega arith) ∙ twice (miss tcam flow (mask_of n) n))
    where
      twice : (b : Bool) → b ≡ not (not b)
      twice true = refl
      twice false = refl

  -- One round does what one step of the reference does.
  round_lem :
      IsValid tcam
      → 45 ≤ length flow
      → (n : ℕ) → n < 20
      → mask_of n < tcam.mask_tail
      → search_round n (groups n) (best n) flow (after n)
        ≡ some (go (mask_of n) (best (suc n)) (after (suc n)))
  round_lem v hf n h small = elim (Bool-cases (hit n)) [
    | inl y ↦
        let d = differs-after v hf n h (omega (arith, v.mask_in)) in
        round_hit n (groups n) (best n) flow (after n) (first_bit v.flows n h) (mask_step n)
          (has_mask n small) (d ∙ ap (λ b. some (not b)) y) (count_hit-counted v.flows n h y)
          (prefer-better v.flows n (best n) h (best-Below n) ∙ ap some (sym (best-hit n y)))
    | inr m ↦
        let (b, c) = best-miss n m in
        rw (b, c)
          (round_miss n (groups n) (best n) flow (after n) (first_bit v.flows n h) (mask_step n)
            (has_mask n small)
            (differs-after v hf n h (omega (arith, v.mask_in)) ∙ ap (λ b. some (not b)) m))
  ]

  -- From entry `lo` on the loop goes on as the reference does.
  search_loop_lem :
      IsValid tcam
      → 45 ≤ length flow
      → (n lo hi i : ℕ) → i ≡ lo
      → lo + n ≡ hi
      → hi ≤ 20
      → ((e : ℕ) → e < hi → mask_of e < tcam.mask_tail)
      → search_loop n i (groups lo) (best lo) flow (after lo) ≡ some (some (best hi), after hi)
  unfolding search_loop
  search_loop_lem v hf zero lo hi i d e h grouped = let e' : lo ≡ hi = omega arith in rw e'
  search_loop_lem v hf (suc n) lo hi i d e h grouped =
      rw (d, round_lem v hf lo (omega arith) (grouped lo (omega arith)))
        (search_loop_lem v hf n (suc lo) hi (i + 1) (omega arith) (omega arith) h grouped)

  -- In a table whose groups all have masks, `search_tcam` ends without a fault. It finds the first of
  -- the matching entries that have the highest priority, with its mask, or nothing if none matches;
  -- the hit counters of all matching entries count on by one, modulo 256, and nothing else changes.
  pub search_tcam_refines :
      IsValid tcam
      → 45 ≤ length flow
      → ((e : ℕ) → e < tcam.flow_tail → mask_of e < tcam.mask_tail)
      → search_tcam tcam flow
        ≡ some (some (best tcam.flow_tail), record tcam { flow_table = counted tcam.flow_tail })
  unfolding search_tcam
  search_tcam_refines v hf grouped =
      unfold groups best counted in
      search_loop_lem v hf tcam.flow_tail 0 tcam.flow_tail 0 refl (omega arith) v.flow_in grouped

-- ===== src/FlowUnit/Search/Best.antt =====
-- What the entry that `best` names and the table `counted` are, without the order of the loop.
use net_walk.Base.{
  ℕ, zero, suc, ◌+◌, ◌*◌, ◌%◌, ◌≤◌, ◌<◌, ◌≡◌, ◌≢◌, ◌↔◌, inl, inr, refl, ap, Bool, true, false, not,
  none, some, arith, Bytes, length, byte_at, get_or-set, ltb, if◌then◌else◌, Bool-cases, ℕ_discrete,
}
use net_walk.FlowUnit.{TcamUnit}
use net_walk.FlowUnit.Search.{Found, search_tcam}
use net_walk.FlowUnit.Search.Match.{IsValid, Matches, miss, miss_iff}
use net_walk.FlowUnit.Search.Refine.{
  mask_of, hit, priority, counted, best, better, length-counted, byte_at-counted,
  search_tcam_refines,
}

module _ (tcam : TcamUnit) (flow : Bytes) where
  -- A found entry is one of the first `n`, matches under its mask, has the highest priority of those
  -- that match, and stands before the others that have it.
  pub record IsBest (n : ℕ) (e mask : ℕ) : Type 0 where
    pub within : e < n
    pub matching : hit tcam flow e ≡ true
    pub own_mask : mask ≡ mask_of tcam flow e
    pub highest :
        (e' : ℕ) → e' < n → hit tcam flow e' ≡ true → priority tcam flow e' ≤ priority tcam flow e
    pub first :
        (e' : ℕ) → e' < e → hit tcam flow e' ≡ true → priority tcam flow e' < priority tcam flow e

  -- What `best` gives for the first `n` entries.
  unfoldable pub IsBestOf : ℕ → Found → Type 0
  IsBestOf n none = (e : ℕ) → e < n → hit tcam flow e ≡ false
  IsBestOf n (some f) = IsBest n f.0 f.1

  pub hit_iff : (e : ℕ) → (hit tcam flow e ≡ true) ↔ Matches tcam flow (mask_of tcam flow e) e
  unfolding hit
  hit_iff e = (
    λ h.
        (miss_iff tcam flow (mask_of tcam flow e) e).0
          (negated (miss tcam flow (mask_of tcam flow e) e) h),
    λ m. ap not ((miss_iff tcam flow (mask_of tcam flow e) e).1 m),
  )
    where
      negated : (b : Bool) → not b ≡ true → b ≡ false
      negated false h = refl
      negated true h = cc

  better-IsBestOf :
      (n : ℕ) (f : Found)
      → hit tcam flow n ≡ true
      → IsBestOf n f
      → IsBestOf (suc n) (better tcam flow n f)
  unfolding better IsBestOf
  better-IsBestOf n none h b = record {
    within = omega arith;
    matching = h;
    own_mask = refl;
    highest = λ e' he h'. elim (ℕ_discrete e' n) [
      | yes q ↦ rw q (omega arith)
      | no q ↦ let x = b e' (omega arith) in cc
    ];
    first = λ e' he h'. let x = b e' he in cc;
  }
  better-IsBestOf n (some f) h b =
      elim (Bool-cases (ltb (priority tcam flow f.0) (priority tcam flow n))) [
        | inl higher ↦ rw higher (record {
          within = omega arith;
          matching = h;
          own_mask = refl;
          highest = λ e' he h'. elim (ℕ_discrete e' n) [
            | yes q ↦ rw q (omega arith)
            | no q ↦ let x = b.highest e' (omega arith) h' in ground arith
          ];
          first = λ e' he h'. let x = b.highest e' he h' in ground arith;
        })
        | inr lower ↦ rw lower (record {
          within = omega (arith, b.within);
          matching = b.matching;
          own_mask = b.own_mask;
          highest = λ e' he h'. elim (ℕ_discrete e' n) [
            | yes q ↦ rw q (ground arith)
            | no q ↦ b.highest e' (omega arith) h'
          ];
          first = b.first;
        })
      ]

  skipped-IsBestOf :
      (n : ℕ) (f : Found) → hit tcam flow n ≡ false → IsBestOf n f → IsBestOf (suc n) f
  unfolding IsBestOf
  skipped-IsBestOf n none h b =
      λ e he. elim (ℕ_discrete e n) [ yes q ↦ rw q h | no q ↦ b e (omega arith) ]
  skipped-IsBestOf n (some f) h b = record {
    within = omega (arith, b.within);
    matching = b.matching;
    own_mask = b.own_mask;
    highest = λ e' he h'. elim (ℕ_discrete e' n) [
      | yes q ↦ absurd (let x = rw q at h' in cc)
      | no q ↦ b.highest e' (omega arith) h'
    ];
    first = b.first;
  }

  -- The reference finds nothing exactly when none of the first `n` entries matches, and otherwise the
  -- first of the matching entries of the highest priority.
  pub best_lem : (n : ℕ) → IsBestOf n (best tcam flow n)
  unfolding best IsBestOf
  best_lem zero = λ e h. absurd (omega arith)
  best_lem (suc n) = elim (Bool-cases (hit tcam flow n)) [
    | inl y ↦ rw y (better-IsBestOf n (best tcam flow n) y (best_lem n))
    | inr m ↦ rw m (skipped-IsBestOf n (best tcam flow n) m (best_lem n))
  ]

  -- The counters after the search: a matching entry's is one more, modulo 256, any other's the same.
  pub counted_lem :
      length tcam.flow_table ≡ 960
      → (n e : ℕ) → n ≤ 20
      → e < n
      → byte_at (counted tcam flow n) (e * 48 + 46) ≡ (
          if hit tcam flow e
          then (byte_at tcam.flow_table (e * 48 + 46) + 1) % 256
          else byte_at tcam.flow_table (e * 48 + 46))
  unfolding counted
  counted_lem size zero e h he = absurd (omega arith)
  counted_lem size (suc n) e h he = elim (ℕ_discrete e n) [
    | yes q ↦ rw q (
        ground (
          arith,
          get_or-set (counted tcam flow n) (n * 48 + 46) (n * 48 + 46)
              ((byte_at tcam.flow_table (n * 48 + 46) + 1) % 256) 0,
          length-counted tcam flow n,
          byte_at-counted tcam flow size n (n * 48 + 46) (omega arith) (λ e' he' x. omega arith),
        ))
    | no q ↦ ground (
      arith,
      get_or-set (counted tcam flow n) (n * 48 + 46) (e * 48 + 46)
          ((byte_at tcam.flow_table (n * 48 + 46) + 1) % 256) 0,
      length-counted tcam flow n,
      counted_lem size n e (omega arith) (omega arith),
    )
  ]

  -- What the search finds, and the flow table that it leaves.
  pub record Searched (f : Found) (table : Bytes) : Type 0 where
    pub finds : IsBestOf tcam.flow_tail f
    pub hits :
        (e : ℕ)
        → e < tcam.flow_tail
        → byte_at table (e * 48 + 46) ≡ (
            if hit tcam flow e
            then (byte_at tcam.flow_table (e * 48 + 46) + 1) % 256
            else byte_at tcam.flow_table (e * 48 + 46))
    pub others :
        (i : ℕ)
        → ((e : ℕ) → e < tcam.flow_tail → i ≢ e * 48 + 46)
        → byte_at table i ≡ byte_at tcam.flow_table i

  -- If the tables have their sizes, the tails stay inside, every entry's group has a mask and the
  -- flow has at least 45 bytes, then `search_tcam` ends without a fault and without STR_ERR. It
  -- finds nothing exactly if no entry matches under the mask of its group; otherwise the first of
  -- the matching entries of the highest priority, with its mask. The hit counter of every matching
  -- entry counts on by one, modulo 256; the other bytes of the flow table and the rest of the unit
  -- stay.
  pub search_tcam_lem :
      IsValid tcam
      → 45 ≤ length flow
      → ((e : ℕ) → e < tcam.flow_tail → mask_of tcam flow e < tcam.mask_tail)
      → (f : Found) × (table : Bytes) × (search_tcam tcam flow
          ≡ some (some f, record tcam { flow_table = table }))
        × Searched f table
  search_tcam_lem v h grouped = (
    best tcam flow tcam.flow_tail,
    counted tcam flow tcam.flow_tail,
    search_tcam_refines tcam flow v h grouped,
    record {
      finds = best_lem tcam.flow_tail;
      hits = λ e he. counted_lem v.flows tcam.flow_tail e v.flow_in he;
      others = λ i ne. byte_at-counted tcam flow v.flows tcam.flow_tail i v.flow_in ne;
    },
  )

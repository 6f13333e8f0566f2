-- ===== src/FlowUnit/Search/Match.antt =====
-- When a flow matches an entry under a mask, and that the two loops find out.
use net_walk.Base.{
  ℕ, zero, suc, ◌+◌, ◌*◌, ◌/◌, ◌%◌, ◌≤◌, ◌<◌, ◌≡◌, ◌≢◌, ◌↔◌, refl, sym, ap, ◌∙◌, Bool, true, false,
  not, Option, some, arith, Bytes, length, ◌==◌, if◌then◌else◌, Bool-cases, inl, inr, ℕ_discrete,
}
use net_walk.Bits.Laws.{bit_at, read_bit_in}
use net_walk.FlowUnit.{TcamUnit}
use net_walk.FlowUnit.Search.{any_round, bit_differs, differs}

-- The tables have their sizes, and the tails stay inside.
pub record IsValid (tcam : TcamUnit) : Type 0 where
  pub flows : length tcam.flow_table ≡ 960
  pub masks : length tcam.mask_table ≡ 900
  pub flow_in : tcam.flow_tail ≤ 20
  pub mask_in : tcam.mask_tail ≤ 20

-- Every bit that the mask has is the same in the flow and in the entry.
abbrev pub Matches : TcamUnit → Bytes → ℕ → ℕ → Type 0
Matches tcam flow mask_no flow_no =
    (i : ℕ)
    → i < 360
    → bit_at tcam.mask_table (mask_no * 360 + i) ≢ 0
    → bit_at flow i ≡ bit_at tcam.flow_table (flow_no * 384 + i)

-- One of the tests from `lo` on is true.
unfoldable pub any_of : ℕ → ℕ → (ℕ → Bool) → Bool
any_of zero lo t = false
any_of (suc n) lo t = if t lo then true else any_of n (lo + 1) t

pub any_round_lem :
    (test : ℕ → Option Bool) (t : ℕ → Bool) (n lo hi : ℕ)
    → lo + n ≡ hi
    → ((i : ℕ) → i < hi → test i ≡ some (t i))
    → any_round n lo test ≡ some (any_of n lo t)
unfolding any_round any_of
any_round_lem test t zero lo hi e h = refl
any_round_lem test t (suc n) lo hi e h = elim (Bool-cases (t lo)) [
  | inl p ↦ rw (h lo (omega arith), p)
  | inr p ↦ rw (h lo (omega arith), p) (any_round_lem test t n (lo + 1) hi (omega arith) h)
]

pub any_of-false :
    (t : ℕ → Bool) (n lo : ℕ) → any_of n lo t ≡ false → (i : ℕ) → lo ≤ i → i < lo + n → t i ≡ false
unfolding any_of
any_of-false t zero lo h i p q = absurd (omega arith)
any_of-false t (suc n) lo h i p q = elim (ℕ_discrete i lo) [
  | yes e ↦ rw e (ground arith)
  | no ne ↦ any_of-false t n (lo + 1) (ground arith) i (omega arith) (omega arith)
]

pub any_of_none :
    (t : ℕ → Bool) (n lo : ℕ)
    → ((i : ℕ) → lo ≤ i → i < lo + n → t i ≡ false)
    → any_of n lo t ≡ false
unfolding any_of
any_of_none t zero lo h = refl
any_of_none t (suc n) lo h =
    rw (h lo (omega arith) (omega arith))
      (any_of_none t n (lo + 1) (λ i p q. h i (omega arith) (omega arith)))

-- One bit that the mask has differs.
abbrev bit_miss : Bytes → ℕ → Bytes → ℕ → Bytes → ℕ → Bool
bit_miss masks a flow b table c =
    if bit_at masks a == 0 then false else not (bit_at flow b == bit_at table c)

bit_differs_lem :
    (masks : Bytes) (a : ℕ) (flow : Bytes) (b : ℕ) (table : Bytes) (c : ℕ)
    → a < 8 * length masks
    → b < 8 * length flow
    → c < 8 * length table
    → bit_differs masks a flow b table c ≡ some (bit_miss masks a flow b table c)
unfolding bit_differs
bit_differs_lem masks a flow b table c ha hb hc =
    rw (read_bit_in masks a ha, read_bit_in flow b hb, read_bit_in table c hc) (ground arith)

bit_miss-false :
    (masks : Bytes) (a : ℕ) (flow : Bytes) (b : ℕ) (table : Bytes) (c : ℕ)
    → bit_miss masks a flow b table c ≡ false
    → bit_at masks a ≢ 0
    → bit_at flow b ≡ bit_at table c
bit_miss-false masks a flow b table c h m = ground arith

bit_miss_none :
    (masks : Bytes) (a : ℕ) (flow : Bytes) (b : ℕ) (table : Bytes) (c : ℕ)
    → (bit_at masks a ≢ 0 → bit_at flow b ≡ bit_at table c)
    → bit_miss masks a flow b table c ≡ false
bit_miss_none masks a flow b table c h = ground arith

-- The flow does not match the entry.
unfoldable pub miss : TcamUnit → Bytes → ℕ → ℕ → Bool
miss tcam flow mask_no flow_no = any_of 45 0 λ i. any_of 8 0 λ j.
    bit_miss tcam.mask_table ((mask_no * 45 + i) * 8 + j) flow (i * 8 + j) tcam.flow_table
      ((flow_no * 48 + i) * 8 + j)

module _ (tcam : TcamUnit) (flow : Bytes) (mask_no flow_no : ℕ) where
  -- Inside the arrays the loops find whether the flow matches.
  pub differs_lem :
      IsValid tcam
      → 45 ≤ length flow
      → mask_no < 20
      → flow_no < 20
      → differs tcam flow mask_no flow_no ≡ some (miss tcam flow mask_no flow_no)
  unfolding differs miss
  differs_lem v h hm hf = any_round_lem _ _ 45 0 45 refl λ i hi.
      any_round_lem _ _ 8 0 8 refl λ j hj.
        bit_differs_lem tcam.mask_table ((mask_no * 45 + i) * 8 + j) flow (i * 8 + j)
          tcam.flow_table ((flow_no * 48 + i) * 8 + j) (omega (arith, v.masks)) (omega arith)
          (omega (arith, v.flows))

  pub miss_iff : (miss tcam flow mask_no flow_no ≡ false) ↔ Matches tcam flow mask_no flow_no
  unfolding miss
  miss_iff = (there, back)
    where
      there : miss tcam flow mask_no flow_no ≡ false → Matches tcam flow mask_no flow_no
      there h i hi masked =
          let row = any_of-false _ 45 0 h (i / 8) (omega arith) (omega arith) in
          let bit = any_of-false _ 8 0 row (i % 8) (omega arith) (omega arith) in
          let a : (mask_no * 45 + i / 8) * 8 + i % 8 ≡ mask_no * 360 + i = omega arith in
          let b : i / 8 * 8 + i % 8 ≡ i = omega arith in
          let c : (flow_no * 48 + i / 8) * 8 + i % 8 ≡ flow_no * 384 + i = omega arith in
          ap (bit_at flow) (sym b)
          ∙ (bit_miss-false tcam.mask_table ((mask_no * 45 + i / 8) * 8 + i % 8) flow
                (i / 8 * 8 + i % 8) tcam.flow_table ((flow_no * 48 + i / 8) * 8 + i % 8) bit
                (λ z. masked (ap (bit_at tcam.mask_table) (sym a) ∙ z))
              ∙ ap (bit_at tcam.flow_table) c)

      back : Matches tcam flow mask_no flow_no → miss tcam flow mask_no flow_no ≡ false
      back m = any_of_none _ 45 0 λ i _ hi. any_of_none _ 8 0 λ j _ hj.
          let a : mask_no * 360 + (i * 8 + j) ≡ (mask_no * 45 + i) * 8 + j = omega arith in
          let c : flow_no * 384 + (i * 8 + j) ≡ (flow_no * 48 + i) * 8 + j = omega arith in
          bit_miss_none tcam.mask_table ((mask_no * 45 + i) * 8 + j) flow (i * 8 + j)
            tcam.flow_table ((flow_no * 48 + i) * 8 + j)
            (λ z.
              m (i * 8 + j) (omega arith) (λ y. z (ap (bit_at tcam.mask_table) (sym a) ∙ y))
              ∙ ap (bit_at tcam.flow_table) c)

-- ===== src/Bits/Byte.antt =====
-- One byte: what its eight flags say of it, found by going through all bytes.
use Prim.Native.Nat.{bit_and, bit_or}
use net_walk.Base.{
  ℕ, zero, suc, ◌-◌, ◌^◌, ◌<◌, ◌≡◌, refl, Bool, true, ◌&&◌, arith, ltb, ◌==◌, ==_iff, if◌then◌else◌,
  ℕ_discrete, false,
}

-- The test is true of the numbers that are less than the bound.
every : (ℕ → Bool) → ℕ → Bool
every test zero = true
every test (suc bound) = if test bound then every test bound else false

every-at :
    (test : ℕ → Bool) (bound : ℕ) → every test bound ≡ true → (k : ℕ) → k < bound → test k ≡ true
unfolding every
every-at test zero e k h = absurd (omega arith)
every-at test (suc bound) e k h = elim (ℕ_discrete k bound) [
  | yes q ↦ rw q (ground arith)
  | no q ↦ every-at test bound (ground arith) k (omega arith)
]

-- The bit of weight `2 ^ j`.
abbrev pub flag_of : ℕ → ℕ → ℕ
flag_of j b = if bit_and (2 ^ j) b == 0 then 0 else 1

or_test : ℕ → ℕ → ℕ → Bool
or_test b k j = flag_of j (bit_or b (2 ^ k)) == (if k == j then 1 else flag_of j b)

and_test : ℕ → ℕ → ℕ → Bool
and_test b k j = flag_of j (bit_and b (255 - 2 ^ k)) == (if k == j then 0 else flag_of j b)

small_test : ℕ → ℕ → Bool
small_test b k = ltb (bit_or b (2 ^ k)) 256 && ltb (bit_and b (255 - 2 ^ k)) 256

or_table : every (λ b. every (λ k. every (or_test b k) 8) 8) 256 ≡ true
unfolding every or_test
or_table = refl

and_table : every (λ b. every (λ k. every (and_test b k) 8) 8) 256 ≡ true
unfolding every and_test
and_table = refl

small_table : every (λ b. every (small_test b) 8) 256 ≡ true
unfolding every small_test
small_table = refl

module _ (b k : ℕ) (hb : b < 256) (hk : k < 8) where
  pub flag_of-bit_or :
      (j : ℕ) → j < 8 → flag_of j (bit_or b (2 ^ k)) ≡ (if k == j then 1 else flag_of j b)
  unfolding or_test
  flag_of-bit_or j hj =
      (==_iff _ _).0
        (every-at (or_test b k) 8 (every-at _ 8 (every-at _ 256 or_table b hb) k hk) j hj)

  pub flag_of-bit_and :
      (j : ℕ) → j < 8 → flag_of j (bit_and b (255 - 2 ^ k)) ≡ (if k == j then 0 else flag_of j b)
  unfolding and_test
  flag_of-bit_and j hj =
      (==_iff _ _).0
        (every-at (and_test b k) 8 (every-at _ 8 (every-at _ 256 and_table b hb) k hk) j hj)

  small_both : small_test b k ≡ true
  small_both = every-at _ 8 (every-at _ 256 small_table b hb) k hk

  pub bit_or-lt : bit_or b (2 ^ k) < 256
  unfolding small_test
  bit_or-lt = let s = small_both in ground arith

  pub bit_and-lt : bit_and b (255 - 2 ^ k) < 256
  unfolding small_test
  bit_and-lt = let s = small_both in ground arith

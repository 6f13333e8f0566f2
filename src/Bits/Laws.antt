-- ===== src/Bits/Laws.antt =====
-- What reading and writing a bit in range does, and how the two interact.
use Prim.Native.Nat.{bit_and, bit_or}
use net_walk.Base.{
  ℕ, zero, suc, ◌-◌, ◌*◌, ◌/◌, ◌%◌, ◌≤◌, ◌<◌, ◌≡◌, ap, some, none, arith, Bytes, AllBytes, byte_at,
  byte_at-lt, set, set-AllBytes, length, length-set, get_or-set, load_in, store_in,
  get_elem?-eq-none, ◌==◌, if◌then◌else◌, ◌≢◌, ==_ne, sym, ℕ_discrete,
}
use net_walk.Bits.{bit_flag, set_bit, reset_bit, read_bit}
use net_walk.Bits.Byte.{flag_of, flag_of-bit_or, flag_of-bit_and, bit_or-lt, bit_and-lt}

-- The bit at a position in range.
unfoldable pub bit_at : Bytes → ℕ → ℕ
bit_at arr pos = flag_of (7 - pos % 8) (byte_at arr (pos / 8))

-- The array with the bit at a position in range set to `v`.
unfoldable pub put_bit : Bytes → ℕ → ℕ → Bytes
put_bit arr pos v =
    let b = byte_at arr (pos / 8) in
    set arr (pos / 8) (if v == 0 then bit_and b (255 - bit_flag pos) else bit_or b (bit_flag pos))

module _ (arr : Bytes) (pos : ℕ) (h : pos < 8 * length arr) where
  pub read_bit_in : read_bit arr pos ≡ some (bit_at arr pos)
  unfolding read_bit bit_at
  read_bit_in = rw (load_in arr (pos / 8) (omega arith))

  pub set_bit_in : set_bit arr pos ≡ some (put_bit arr pos 1)
  unfolding set_bit put_bit
  set_bit_in = rw (load_in arr (pos / 8) (omega arith)) (store_in arr (pos / 8) _ (omega arith))

  pub reset_bit_in : reset_bit arr pos ≡ some (put_bit arr pos 0)
  unfolding reset_bit put_bit
  reset_bit_in = rw (load_in arr (pos / 8) (omega arith)) (store_in arr (pos / 8) _ (omega arith))

pub read_bit_out : (arr : Bytes) (pos : ℕ) → 8 * length arr ≤ pos → read_bit arr pos ≡ none
unfolding read_bit
read_bit_out arr pos h = rw (get_elem?-eq-none arr (pos / 8) (omega arith))

pub length-put_bit : (arr : Bytes) (pos v : ℕ) → length (put_bit arr pos v) ≡ length arr
unfolding put_bit
length-put_bit arr pos v = length-set arr (pos / 8) _

pub put_bit-AllBytes : (arr : Bytes) (pos v : ℕ) → AllBytes arr → AllBytes (put_bit arr pos v)
unfolding put_bit
put_bit-AllBytes arr pos v h = set-AllBytes arr (pos / 8) _ h (
    ground (
      arith,
      bit_or-lt (byte_at arr (pos / 8)) (7 - pos % 8) (byte_at-lt arr (pos / 8) h) (omega arith),
      bit_and-lt (byte_at arr (pos / 8)) (7 - pos % 8) (byte_at-lt arr (pos / 8) h) (omega arith),
    ))

pub bit_at-lt : (arr : Bytes) (pos : ℕ) → bit_at arr pos < 2
unfolding bit_at
bit_at-lt arr pos = ground arith

-- The whole byte of the bit that is written.
pub byte_at-put_bit :
    (arr : Bytes) (p v i : ℕ)
    → p < 8 * length arr
    → i ≢ p / 8
    → byte_at (put_bit arr p v) i ≡ byte_at arr i
unfolding put_bit
byte_at-put_bit arr p v i h ne = ground (
  arith,
  get_or-set arr (p / 8) i
      (if v == 0
        then bit_and (byte_at arr (p / 8)) (255 - bit_flag p)
        else bit_or (byte_at arr (p / 8)) (bit_flag p))
      0 (omega arith),
)

byte_at-put_bit_self :
    (arr : Bytes) (p v : ℕ)
    → p < 8 * length arr
    → byte_at (put_bit arr p v) (p / 8) ≡ (
        if v == 0
        then bit_and (byte_at arr (p / 8)) (255 - bit_flag p)
        else bit_or (byte_at arr (p / 8)) (bit_flag p))
unfolding put_bit
byte_at-put_bit_self arr p v h = ground (
  arith,
  get_or-set arr (p / 8) (p / 8)
      (if v == 0
        then bit_and (byte_at arr (p / 8)) (255 - bit_flag p)
        else bit_or (byte_at arr (p / 8)) (bit_flag p))
      0 (omega arith),
)

-- In the byte that is written.
flag_of-put_bit :
    (arr : Bytes) (p v j : ℕ)
    → AllBytes arr
    → p < 8 * length arr
    → v < 2
    → j < 8
    → flag_of j (byte_at (put_bit arr p v) (p / 8))
      ≡ (if (7 - p % 8) == j then v else flag_of j (byte_at arr (p / 8)))
flag_of-put_bit arr p zero j hb h hv hj = rw (byte_at-put_bit_self arr p 0 h) (
    flag_of-bit_and (byte_at arr (p / 8)) (7 - p % 8) (byte_at-lt arr (p / 8) hb) (omega arith) j
      hj)
flag_of-put_bit arr p (suc zero) j hb h hv hj = rw (byte_at-put_bit_self arr p 1 h) (
    flag_of-bit_or (byte_at arr (p / 8)) (7 - p % 8) (byte_at-lt arr (p / 8) hb) (omega arith) j hj)
flag_of-put_bit arr p (suc (suc v)) j hb h hv hj = absurd (omega arith)

-- A bit that is written reads back, and no other bit changes.
pub bit_at-put_bit :
    (arr : Bytes) (p v q : ℕ)
    → AllBytes arr
    → p < 8 * length arr
    → v < 2
    → bit_at (put_bit arr p v) q ≡ (if p == q then v else bit_at arr q)
unfolding bit_at
bit_at-put_bit arr p v q hb h hv = elim (ℕ_discrete (q / 8) (p / 8)) [
  | yes e ↦ same e
  | no ne ↦ rw (byte_at-put_bit arr p v (q / 8) h ne, ==_ne p q (λ e. ne (ap (λ k. k / 8) (sym e))))
]
  where
    same : q / 8 ≡ p / 8 → bit_at (put_bit arr p v) q ≡ (if p == q then v else bit_at arr q)
    same e = rw e (ground (arith, flag_of-put_bit arr p v (7 - q % 8) hb h hv (omega arith)))

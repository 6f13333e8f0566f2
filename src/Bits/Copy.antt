-- ===== src/Bits/Copy.antt =====
-- Loops that copy a run of bits from one byte array into another.
use mathlib.Core.Path.{◌∙◌}
use net_walk.Base.{
  ℕ, zero, suc, ◌+◌, ◌-◌, ◌*◌, ◌≤◌, ◌<◌, ◌≡◌, refl, ap, ◌⊎◌, some, arith, Bytes, AllBytes, length,
  Option, ltb, leb, ◌&&◌, ◌==◌, if◌then◌else◌, for_range, for_range_inv, Returns, ◌>>=◌,
}
use net_walk.Bits.{set_bit, reset_bit, read_bit}
use net_walk.Bits.Laws.{
  bit_at, put_bit, read_bit_in, set_bit_in, reset_bit_in, length-put_bit, put_bit-AllBytes,
  bit_at-lt, bit_at-put_bit,
}

-- `out` is `dst` with its `n` bits from `dp` on replaced by the values of `f`.
pub record Filled (f : ℕ → ℕ) (dst : Bytes) (dp n : ℕ) (out : Bytes) : Type 0 where
  pub size : length out ≡ length dst
  pub bytes : AllBytes out
  pub bits :
      (q : ℕ) → bit_at out q ≡ (if leb dp q && ltb q (dp + n) then f (q - dp) else bit_at dst q)

-- The bits come from `src`, from `sp` on.
abbrev pub Copied : Bytes → ℕ → Bytes → ℕ → ℕ → Bytes → Type 0
Copied src sp dst dp n out = Filled (λ k. bit_at src (sp + k)) dst dp n out

module _ {f : ℕ → ℕ} {dst : Bytes} {dp n : ℕ} {out : Bytes} (c : Filled f dst dp n out) where
  pub Filled-in : (q k : ℕ) → k < n → q ≡ dp + k → bit_at out q ≡ f k
  Filled-in q k h e = let e' : q - dp ≡ k = omega arith in ground (arith, c.bits q, ap f e')

  pub Filled-out : (q : ℕ) → (q < dp) ⊎ (dp + n ≤ q) → bit_at out q ≡ bit_at dst q
  Filled-out q h = ground (arith, c.bits q)

Filled-step :
    (f : ℕ → ℕ) {dst : Bytes} {dp : ℕ} (n : ℕ) {out : Bytes}
    → f n < 2
    → dp + n < 8 * length dst
    → Filled f dst dp n out
    → Filled f dst dp (n + 1) (put_bit out (dp + n) (f n))
Filled-step f {dst} {dp} n {out} hf h c = record {
  size = length-put_bit out (dp + n) (f n) ∙ c.size;
  bytes = put_bit-AllBytes out (dp + n) (f n) c.bytes;
  bits = λ q.
      ground
        (arith, bit_at-put_bit out (dp + n) (f n) q c.bytes (rw (c.size) h) hf, c.bits q, at q);
}
  where
    at : (q : ℕ) → dp + n ≡ q → f (q - dp) ≡ f n
    at q e = ap f (omega arith)

-- A loop whose round `lo + k` writes `f k` to `dp + k`.
pub fill_loop :
    (f : ℕ → ℕ) (dst : Bytes) (dp n lo : ℕ) (body : ℕ → Bytes → Option Bytes)
    → AllBytes dst
    → dp + n ≤ 8 * length dst
    → ((k : ℕ) → f k < 2)
    → ((k : ℕ) (s : Bytes)
        → k < n
        → length s ≡ length dst
        → body (lo + k) s ≡ some (put_bit s (dp + k) (f k)))
    → Returns (Filled f dst dp n) (for_range n lo body dst)
fill_loop f dst dp n lo body hb h hf step =
    let (out, run, c) = for_range_inv Round body (lo + n) keep n lo dst refl start in
    (out, run, c.1 n refl)
  where
    Round : ℕ → Bytes → Type 0
    Round i s = (lo ≤ i) × ((k : ℕ) → lo + k ≡ i → Filled f dst dp k s)

    start : Round lo dst
    start = (omega arith, λ k e. record { size = refl; bytes = hb; bits = λ q. ground arith })

    keep : (i : ℕ) (s : Bytes) → i < lo + n → Round i s → Returns (Round (i + 1)) (body i s)
    keep i s hi (hl, c) =
        let k : ℕ = i - lo in
        let e : lo + k ≡ i = omega arith in
        let ck = c k e in
        (
          put_bit s (dp + k) (f k),
          rw e at (step k s (omega arith) ck.size),
          (
            omega arith,
            λ k' e'.
                let d : k' ≡ k + 1 = omega arith in rw d (Filled-step f k (hf k) (omega arith) ck),
          ),
        )

-- A loop whose round `lo + k` copies the bit `sp + k` to `dp + k`.
pub copy_loop :
    (src : Bytes) (sp : ℕ) (dst : Bytes) (dp n lo : ℕ) (body : ℕ → Bytes → Option Bytes)
    → AllBytes dst
    → dp + n ≤ 8 * length dst
    → ((k : ℕ) (s : Bytes)
        → k < n
        → length s ≡ length dst
        → body (lo + k) s ≡ some (put_bit s (dp + k) (bit_at src (sp + k))))
    → Returns (Copied src sp dst dp n) (for_range n lo body dst)
copy_loop src sp dst dp n lo body hb h step =
    fill_loop (λ k. bit_at src (sp + k)) dst dp n lo body hb h (λ k. bit_at-lt src (sp + k)) step

-- One round, by the value that is read.
pub copy_bit :
    (src : Bytes) (p : ℕ) (dst : Bytes) (q : ℕ)
    → p < 8 * length src
    → q < 8 * length dst
    → ((read_bit src p >>= λ v. if v == 0 then reset_bit dst q else set_bit dst q)
        ≡ some (put_bit dst q (bit_at src p)))
      × ((read_bit src p >>= λ v. if v == 1 then set_bit dst q else reset_bit dst q)
          ≡ some (put_bit dst q (bit_at src p)))
copy_bit src p dst q hp hq =
    rw (read_bit_in src p hp, set_bit_in dst q hq, reset_bit_in dst q hq)
      (both (bit_at src p) (bit_at-lt src p))
  where
    both :
        (v : ℕ)
        → v < 2
        → ((if v == 0 then some (put_bit dst q 0) else some (put_bit dst q 1))
            ≡ some (put_bit dst q v))
          × ((if v == 1 then some (put_bit dst q 1) else some (put_bit dst q 0))
              ≡ some (put_bit dst q v))
    both zero h = (refl, refl)
    both (suc zero) h = (refl, refl)
    both (suc (suc v)) h = absurd (omega arith)

-- ===== src/Base/Span.antt =====
-- Runs of bytes: copied from one array into another, and compared.
use Prim.Native.Nat.{ℕ, ◌+◌, ◌-◌, ◌≤◌}
use mathlib.Core.Path.{◌≡◌, refl, ap, ◌∙◌}
use mathlib.Core.Bool.{◌&&◌}
use mathlib.Core.Option.{Option}
use native.Mathlib.Omega.{arith}
use net_walk.Base.Test.{ltb, leb, if◌then◌else◌}
use net_walk.Base.Array.{Bytes, byte_at, length, set, length-set, get_or-set}
use net_walk.Base.Fault.{◌>>=◌, load, store, load_in, store_in}
use net_walk.Base.Loop.{for_range, Returns, for_range_inv}

-- `for (i = 0; i < n; i++) dst[to + i] = src[from + i];`
abbrev pub copy_bytes : ℕ → Bytes → ℕ → Bytes → ℕ → Option Bytes
copy_bytes n src from dst to =
    for_range n 0 (λ i dst'. do b ← load src (from + i); store dst' (to + i) b) dst

-- `out` is `dst` with its `n` bytes from `to` on replaced by those of `src` from `from` on.
pub record Pasted (n : ℕ) (src : Bytes) (from : ℕ) (dst : Bytes) (to : ℕ) (out : Bytes)
    : Type 0 where
  pub size : length out ≡ length dst
  pub bytes :
      (q : ℕ)
      → byte_at out q
        ≡ (if leb to q && ltb q (to + n) then byte_at src (from + (q - to)) else byte_at dst q)

-- The copy ends without a fault if both runs lie within their arrays.
pub copy_bytes_lem :
    (n : ℕ) (src : Bytes) (from : ℕ) (dst : Bytes) (to : ℕ)
    → from + n ≤ length src
    → to + n ≤ length dst
    → Returns (Pasted n src from dst to) (copy_bytes n src from dst to)
copy_bytes_lem n src from dst to hs hd =
    for_range_inv (λ i s. Pasted i src from dst to s)
      (λ i dst'. do b ← load src (from + i); store dst' (to + i) b) n
      (λ i s h p. (
        set s (to + i) (byte_at src (from + i)),
        rw (load_in src (from + i) (omega arith))
            (store_in s (to + i) _ (rw (p.size) (omega arith))),
        record {
          size = length-set s (to + i) _ ∙ p.size;
          bytes = λ q. ground (
            arith,
            get_or-set s (to + i) q (byte_at src (from + i)) 0 (rw (p.size) (omega arith)),
            p.bytes q,
            place i q,
          );
        },
      ))
      n 0 dst (omega arith) (record { size = refl; bytes = λ q. ground arith })
  where
    place : (i q : ℕ) → to + i ≡ q → byte_at src (from + (q - to)) ≡ byte_at src (from + i)
    place i q e = ap (λ k. byte_at src (from + k)) (omega arith)

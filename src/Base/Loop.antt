-- ===== src/Base/Loop.antt =====
-- Counted loops whose body may fault.
use Prim.Native.Nat.{ℕ, zero, suc, ◌+◌, ◌<◌}
use mathlib.Core.Path.{◌≡◌, refl}
use mathlib.Core.Option.{Option, some}
use native.Mathlib.Omega.{arith}
use net_walk.Base.Fault.{◌>>=◌}

-- `for (i = lo; i < lo + n; i++) s = body i s;`
unfoldable pub for_range {ℓ} : {S : Type ℓ} → ℕ → ℕ → (ℕ → S → Option S) → S → Option S
for_range zero lo body s = some s
for_range (suc n) lo body s = body lo s >>= λ s'. for_range n (lo + 1) body s'

-- What holds of a result that is there.
abbrev pub Returns {ℓ κ} : {A : Type ℓ} → (A → Type κ) → Option A → Type (ℓ ⊔ κ)
Returns {A} P r = (a : A) × (r ≡ some a) × P a

-- The result is there.
abbrev pub Runs {ℓ} : {A : Type ℓ} → Option A → Type ℓ
Runs {A} r = (a : A) × (r ≡ some a)

-- The loop ends without a fault, and with its invariant at the final count.
pub for_range_inv {ℓ κ} :
    {S : Type ℓ} (P : ℕ → S → Type κ) (body : ℕ → S → Option S) (hi : ℕ)
    → ((i : ℕ) (s : S) → i < hi → P i s → Returns (P (i + 1)) (body i s))
    → (n lo : ℕ) (s : S) → lo + n ≡ hi
    → P lo s
    → Returns (P hi) (for_range n lo body s)
unfolding for_range
for_range_inv P body hi keep zero lo s e h =
    let e' : lo ≡ hi = omega arith in (s, refl, (rw (← e') h))
for_range_inv P body hi keep (suc n) lo s e h =
    let (s', step, p) = keep lo s (omega arith) h in
    let (t, run, q) = for_range_inv P body hi keep n (lo + 1) s' (omega arith) p in
    (t, rw step run, q)

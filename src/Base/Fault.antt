-- ===== src/Base/Fault.antt =====
-- Memory accesses that may fault: `none` is an access outside the array.
use Prim.Native.Nat.{ℕ, ◌<◌, ◌≤◌}
use mathlib.Core.Path.{◌≡◌}
use mathlib.Core.Option.{Option, none, some}
use native.Mathlib.Omega.{arith}
use net_walk.Base.Test.{ltb, if◌then◌else◌, lt→ltb}
use net_walk.Base.Array.{length, get_elem?, set, Bytes, byte_at, get_elem?-eq-get_or}

infixl 5 ◌>>=◌
abbrev pub ◌>>=◌ {ℓ κ} : {A : Type ℓ} {B : Type κ} → Option A → (A → Option B) → Option B
none >>= f = none
some a >>= f = f a

-- `a[i]`
abbrev pub load : Bytes → ℕ → Option ℕ
load a i = get_elem? a i

-- `a[i] = v`

unfoldable pub store : Bytes → ℕ → ℕ → Option Bytes
store a i v = if ltb i (length a) then some (set a i v) else none

pub load_in : (a : Bytes) (i : ℕ) → i < length a → load a i ≡ some (byte_at a i)
load_in a i h = get_elem?-eq-get_or a i 0 h

pub store_in : (a : Bytes) (i v : ℕ) → i < length a → store a i v ≡ some (set a i v)
unfolding store
store_in a i v h = rw (lt→ltb _ _ h)

pub store_out : (a : Bytes) (i v : ℕ) → length a ≤ i → store a i v ≡ none
unfolding store
store_out a i v h = ground arith

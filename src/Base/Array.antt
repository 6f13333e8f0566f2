-- ===== src/Base/Array.antt =====
-- C arrays of bytes: lists read and written at native indices.
use Prim.Native.Nat.{ℕ, zero, suc, ◌+◌, ◌-◌, ◌<◌, ◌≤◌}
use mathlib.Core.Path.{◌≡◌, refl, ap}
use mathlib.Core.List.{List, [], ◌∷◌, ◌++◌}
use mathlib.Core.Option.{Option, none, some}
use native.Mathlib.Omega.{arith}
use net_walk.Base.Test.{◌==◌, ltb, if◌then◌else◌}

module _ {ℓ} {A : Type ℓ} where
  abbrev pub length : List A → ℕ
  length [] = 0
  length (x ∷ xs) = suc (length xs)

  abbrev pub get_elem? : List A → ℕ → Option A
  get_elem? [] i = none
  get_elem? (x ∷ xs) zero = some x
  get_elem? (x ∷ xs) (suc i) = get_elem? xs i

  abbrev pub get_or : List A → ℕ → A → A
  get_or [] i d = d
  get_or (x ∷ xs) zero d = x
  get_or (x ∷ xs) (suc i) d = get_or xs i d

  abbrev pub set : List A → ℕ → A → List A
  set [] i v = []
  set (x ∷ xs) zero v = v ∷ xs
  set (x ∷ xs) (suc i) v = x ∷ set xs i v

  abbrev pub replicate : ℕ → A → List A
  replicate zero a = []
  replicate (suc n) a = a ∷ replicate n a

  abbrev pub take : ℕ → List A → List A
  take zero xs = []
  take (suc n) [] = []
  take (suc n) (x ∷ xs) = x ∷ take n xs

  abbrev pub drop : ℕ → List A → List A
  drop zero xs = xs
  drop (suc n) [] = []
  drop (suc n) (x ∷ xs) = drop n xs

  pub length-append : (xs ys : List A) → length (xs ++ ys) ≡ length xs + length ys
  length-append [] ys = omega arith
  length-append (x ∷ xs) ys = omega (arith, length-append xs ys)

  pub length-set : (xs : List A) (i : ℕ) (v : A) → length (set xs i v) ≡ length xs
  length-set [] i v = refl
  length-set (x ∷ xs) zero v = refl
  length-set (x ∷ xs) (suc i) v = ap suc (length-set xs i v)

  pub length-replicate : (n : ℕ) (a : A) → length (replicate n a) ≡ n
  length-replicate zero a = refl
  length-replicate (suc n) a = ap suc (length-replicate n a)

  pub length-take : (n : ℕ) (xs : List A) → n ≤ length xs → length (take n xs) ≡ n
  length-take zero xs h = refl
  length-take (suc n) [] h = absurd (omega arith)
  length-take (suc n) (x ∷ xs) h = ap suc (length-take n xs (omega arith))

  pub get_elem?-eq-get_or :
      (xs : List A) (i : ℕ) (d : A) → i < length xs → get_elem? xs i ≡ some (get_or xs i d)
  get_elem?-eq-get_or [] i d h = absurd (omega arith)
  get_elem?-eq-get_or (x ∷ xs) zero d h = refl
  get_elem?-eq-get_or (x ∷ xs) (suc i) d h = get_elem?-eq-get_or xs i d (omega arith)

  pub get_elem?-eq-none : (xs : List A) (i : ℕ) → length xs ≤ i → get_elem? xs i ≡ none
  get_elem?-eq-none [] i h = refl
  get_elem?-eq-none (x ∷ xs) zero h = absurd (omega arith)
  get_elem?-eq-none (x ∷ xs) (suc i) h = get_elem?-eq-none xs i (omega arith)

  pub get_or-set :
      (xs : List A) (i j : ℕ) (v d : A)
      → i < length xs
      → get_or (set xs i v) j d ≡ (if i == j then v else get_or xs j d)
  get_or-set [] i j v d h = absurd (omega arith)
  get_or-set (x ∷ xs) zero zero v d h = refl
  get_or-set (x ∷ xs) (suc i) (suc j) v d h = ground (arith, get_or-set xs i j v d)
  get_or-set (x ∷ xs) i j v d h = ground arith

  pub get_or-append :
      (xs ys : List A) (i : ℕ) (d : A) → i < length xs → get_or (xs ++ ys) i d ≡ get_or xs i d
  get_or-append [] ys i d h = absurd (omega arith)
  get_or-append (x ∷ xs) ys zero d h = refl
  get_or-append (x ∷ xs) ys (suc i) d h = get_or-append xs ys i d (omega arith)

  pub get_or-append_at :
      (xs ys : List A) (i : ℕ) (d : A)
      → get_or (xs ++ ys) i d
        ≡ (if ltb i (length xs) then get_or xs i d else get_or ys (i - length xs) d)
  get_or-append_at [] ys i d =
      let e : i - 0 ≡ i = omega arith in ground (arith, ap (λ j. get_or ys j d) e)
  get_or-append_at (x ∷ xs) ys zero d = ground arith
  get_or-append_at (x ∷ xs) ys (suc i) d =
      let e : suc i - suc (length xs) ≡ i - length xs = omega arith in
      ground (arith, get_or-append_at xs ys i d, ap (λ j. get_or ys j d) e)

  pub get_or-take :
      (n : ℕ) (xs : List A) (i : ℕ) (d : A) → i < n → get_or (take n xs) i d ≡ get_or xs i d
  get_or-take zero xs i d h = absurd (omega arith)
  get_or-take (suc n) [] i d h = refl
  get_or-take (suc n) (x ∷ xs) zero d h = refl
  get_or-take (suc n) (x ∷ xs) (suc i) d h = get_or-take n xs i d (omega arith)

-- An array of `uint8_t`.
abbrev pub Bytes : Type 0
Bytes = List ℕ

-- The byte at an index that is in range.
abbrev pub byte_at : Bytes → ℕ → ℕ
byte_at a i = get_or a i 0

abbrev pub AllBytes : Bytes → Type 0
AllBytes [] = Unit
AllBytes (x ∷ xs) = (x < 256) × AllBytes xs

pub byte_at-lt : (a : Bytes) (i : ℕ) → AllBytes a → byte_at a i < 256
byte_at-lt [] i h = omega arith
byte_at-lt (x ∷ a) zero h = h.0
byte_at-lt (x ∷ a) (suc i) h = byte_at-lt a i h.1

pub set-AllBytes : (a : Bytes) (i v : ℕ) → AllBytes a → v < 256 → AllBytes (set a i v)
set-AllBytes [] i v h hv = h
set-AllBytes (x ∷ a) zero v h hv = (hv, h.1)
set-AllBytes (x ∷ a) (suc i) v h hv = (h.0, set-AllBytes a i v h.1 hv)

pub replicate-AllBytes : (n v : ℕ) → v < 256 → AllBytes (replicate n v)
replicate-AllBytes zero v h = tt
replicate-AllBytes (suc n) v h = (h, replicate-AllBytes n v h)

-- Two arrays of one length with the same bytes are one.
pub eq_of_byte_at :
    (a b : Bytes) → length a ≡ length b → ((i : ℕ) → byte_at a i ≡ byte_at b i) → a ≡ b
eq_of_byte_at [] [] e h = refl
eq_of_byte_at [] (y ∷ b) e h = absurd (omega arith)
eq_of_byte_at (x ∷ a) [] e h = absurd (omega arith)
eq_of_byte_at (x ∷ a) (y ∷ b) e h =
    ground (arith, h 0, eq_of_byte_at a b (omega arith) (λ i. h (suc i)))

pub take-drop :
    (src : Bytes) (i n : ℕ)
    → i < length src
    → take (suc n) (drop i src) ≡ byte_at src i ∷ take n (drop (i + 1) src)
take-drop [] i n h = absurd (omega arith)
take-drop (x ∷ src) zero n h = refl
take-drop (x ∷ src) (suc i) n h = rw step (take-drop src i n (omega arith))
  where
    step : suc i + 1 ≡ suc (i + 1)
    step = omega arith

pub take_all : (n : ℕ) (a : Bytes) → length a ≡ n → take n a ≡ a
take_all zero [] e = refl
take_all zero (x ∷ a) e = absurd (omega arith)
take_all (suc n) [] e = refl
take_all (suc n) (x ∷ a) e = ap (λ b. x ∷ b) (take_all n a (omega arith))

pub length-drop : (n : ℕ) (a : Bytes) → length (drop n a) ≡ length a - n
length-drop zero a = omega arith
length-drop (suc n) [] = omega arith
length-drop (suc n) (x ∷ a) = omega (arith, length-drop n a)

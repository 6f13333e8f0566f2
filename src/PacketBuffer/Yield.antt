-- ===== src/PacketBuffer/Yield.antt =====
-- Runs of one-byte reads, and the loop that fills an array from such a run.
use net_walk.Base.{
  ℕ, suc, ◌+◌, ◌≤◌, ◌<◌, ◌≡◌, refl, ap, Option, none, some, arith, Bytes, ◌>>=◌, store, store_in,
  store_out, for_range, length, length-append, length-set, dec_lt, set, drop, List, [], ◌∷◌, ◌++◌,
}
use mathlib.Core.List.{append_assoc}
use net_walk.PacketBuffer.{PacketBuffer, read_with}

-- Reading one byte after the other from `pb` gives these bytes and leaves the last buffer.
pub data Yields (deq : PacketBuffer → Option (ℕ × PacketBuffer))
    : PacketBuffer → List ℕ → PacketBuffer → Type 0 where
  done : {pb : PacketBuffer} → Yields deq pb [] pb
  more :
      {pb pb' pb'' : PacketBuffer} (x : ℕ) {xs : List ℕ}
      → deq pb ≡ some (x, pb')
      → Yields deq pb' xs pb''
      → Yields deq pb (x ∷ xs) pb''

set-append :
    (pre : List ℕ) (y x : ℕ) (post : List ℕ)
    → set (pre ++ y ∷ post) (length pre) x ≡ pre ++ x ∷ post
set-append [] y x post = refl
set-append (z ∷ pre) y x post = ap (◌∷◌ z) (set-append pre y x post)

-- One round of the loop in `read_with`.
abbrev pub round :
    (PacketBuffer → Option (ℕ × PacketBuffer))
    → ℕ
    → PacketBuffer × Bytes
    → Option (PacketBuffer × Bytes)
round deq i s = do (byte, pb') ← deq s.0; pk' ← store s.1 i byte; some (pb', pk')

fill_loop :
    (deq : PacketBuffer → Option (ℕ × PacketBuffer)) {pb pb' : PacketBuffer} (xs pre old : List ℕ)
    (i : ℕ)
    → Yields deq pb xs pb'
    → i ≡ length pre
    → length xs ≤ length old
    → for_range (length xs) i (round deq) (pb, pre ++ old)
      ≡ some (pb', pre ++ (xs ++ drop (length xs) old))
unfolding for_range
fill_loop deq [] pre old i done e fits = refl
fill_loop deq (x ∷ xs) pre [] i (more _ step rest) e fits = absurd (omega arith)
fill_loop deq (x ∷ xs) pre (y ∷ old) i (more _ step rest) e fits =
    rw
      (
        step,
        e,
        store_in (pre ++ y ∷ old) (length pre) x (omega (arith, length-append pre (y ∷ old))),
        set-append pre y x old,
      )
      (rw (append_assoc pre (x ∷ []) old, append_assoc pre (x ∷ []) (xs ++ drop (length xs) old)) at
        (fill_loop deq xs (pre ++ x ∷ []) old (length pre + 1) rest
          (omega (arith, length-append pre (x ∷ []))) (omega arith)))

-- A run of a length byte and so many more fills the array's start, and the rest of the array stays.
pub read_with_lem :
    (deq : PacketBuffer → Option (ℕ × PacketBuffer)) {pb pb' : PacketBuffer} (n : ℕ)
    (body pk : List ℕ)
    → Yields deq pb (n ∷ body) pb'
    → length body ≡ n
    → n < length pk
    → read_with deq pb pk ≡ some (pb', (n ∷ body) ++ drop (suc n) pk)
read_with_lem deq n body [] (more _ step rest) e fits = absurd (omega arith)
read_with_lem deq n body (y ∷ pk) (more _ step rest) e fits =
    rw (step, store_in (y ∷ pk) 0 n (omega arith), ← e)
      (fill_loop deq body (length body ∷ []) pk 1 rest refl (omega arith))

-- A length byte of the array's size or more makes the loop write behind its end.
pub overrun_loop :
    (deq : PacketBuffer → Option (ℕ × PacketBuffer)) {pb pb' : PacketBuffer} (xs : List ℕ)
    (pk : Bytes) (i : ℕ)
    → Yields deq pb xs pb'
    → i ≤ length pk
    → length pk < i + length xs
    → for_range (length xs) i (round deq) (pb, pk) ≡ none
unfolding for_range
overrun_loop deq [] pk i y h over = absurd (omega arith)
overrun_loop deq (x ∷ xs) pk i (more _ step rest) h over = elim (dec_lt i (length pk)) [
  | yes p ↦
      rw (step, store_in pk i x p)
        (overrun_loop deq xs (set pk i x) (i + 1) rest (omega (arith, length-set pk i x))
          (omega (arith, length-set pk i x)))
  | no p ↦ rw (step, store_out pk i x (omega arith))
]

pub read_with_overrun :
    (deq : PacketBuffer → Option (ℕ × PacketBuffer)) {pb pb' : PacketBuffer} (n : ℕ) (body : List ℕ)
    (pk : Bytes)
    → Yields deq pb (n ∷ body) pb'
    → length body ≡ n
    → length pk ≤ n
    → read_with deq pb pk ≡ none
read_with_overrun deq n body [] (more _ step rest) e small =
    rw (step, store_out [] 0 n (omega arith))
read_with_overrun deq n body (y ∷ pk) (more _ step rest) e small =
    rw (step, store_in (y ∷ pk) 0 n (omega arith), ← e)
      (overrun_loop deq body (length body ∷ pk) 1 rest (omega arith) (omega arith))

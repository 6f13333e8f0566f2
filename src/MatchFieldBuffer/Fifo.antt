-- ===== src/MatchFieldBuffer/Fifo.antt =====
-- Calls of the match field buffer, in any order: a queue for the first 900 bytes, and a write
-- outside the array with the next one.
use mathlib.Core.Path.{ap₂}
use net_walk.Base.{
  ℕ, zero, suc, ◌+◌, ◌-◌, ◌≤◌, ◌<◌, ◌≡◌, refl, Option, none, some, arith, Bytes, ◌>>=◌, load_in,
  store_in, store_out, length, length-set, set, byte_at, get_or-set, List, [], ◌∷◌, ◌++◌, ◌==◌,
  if◌then◌else◌, Bool-cases, inl, inr, Returns, false, dec_lt,
}
use net_walk.MatchFieldBuffer.{
  MatchFieldBuffer, next_index, initialize_match_field_buffer, add_a_byte_to_the_match_field_buffer,
  dqueue_from_match_field_buffer,
}

-- `n` bytes of an array from `i` on.
pub slice : Bytes → ℕ → ℕ → List ℕ
slice a i zero = []
slice a i (suc n) = byte_at a i ∷ slice a (i + 1) n

slice-set :
    (a : Bytes) (i n t x : ℕ)
    → t ≡ i + n
    → t < length a
    → slice (set a t x) i (suc n) ≡ slice a i n ++ x ∷ []
unfolding slice
slice-set a i zero t x e h = ground (arith, get_or-set a t i x 0)
slice-set a i (suc n) t x e h =
    ap₂ ◌∷◌ (ground (arith, get_or-set a t i x 0)) (slice-set a (i + 1) n t x (omega arith) h)

-- A buffer that was never closed and whose tail has not gone round.
pub record IsFresh (mfb : MatchFieldBuffer) : Type 0 where
  pub size : length mfb.match_field_buffer_array ≡ 900
  pub tail_in : mfb.match_field_buffer_tail ≤ 900
  pub head_in : mfb.match_field_buffer_head ≤ mfb.match_field_buffer_tail
  pub not_full : mfb.buffer_full_flag ≡ 0
  pub empty_flag :
      mfb.buffer_empty_flag
      ≡ (if mfb.match_field_buffer_head == mfb.match_field_buffer_tail then 1 else 0)

unfoldable pub contents : MatchFieldBuffer → List ℕ
contents mfb =
    slice mfb.match_field_buffer_array mfb.match_field_buffer_head
      (mfb.match_field_buffer_tail - mfb.match_field_buffer_head)

pub initialize_match_field_buffer-IsFresh :
    (mfb : MatchFieldBuffer)
    → length mfb.match_field_buffer_array ≡ 900
    → IsFresh (initialize_match_field_buffer mfb)
      × (contents (initialize_match_field_buffer mfb) ≡ [])
unfolding initialize_match_field_buffer contents slice
initialize_match_field_buffer-IsFresh mfb h = ground arith

-- The buffer with the byte stored.
abbrev stored : MatchFieldBuffer → ℕ → MatchFieldBuffer
stored mfb byte = record mfb {
  match_field_buffer_array = set mfb.match_field_buffer_array mfb.match_field_buffer_tail byte;
  buffer_empty_flag = 0;
  match_field_buffer_tail = mfb.match_field_buffer_tail + 1;
}

contents-stored :
    (mfb : MatchFieldBuffer) (byte : ℕ)
    → IsFresh mfb
    → mfb.match_field_buffer_tail < 900
    → contents (stored mfb byte) ≡ contents mfb ++ byte ∷ []
unfolding contents
contents-stored mfb byte f h =
    let n : ℕ = mfb.match_field_buffer_tail - mfb.match_field_buffer_head in
    let e' : mfb.match_field_buffer_tail + 1 - mfb.match_field_buffer_head ≡ suc n =
      omega (arith, f.head_in) in
    rw e' (
      slice-set mfb.match_field_buffer_array mfb.match_field_buffer_head n
        mfb.match_field_buffer_tail byte (omega (arith, f.head_in)) (omega (arith, f.size)))

-- A byte that fits is queued; with 900 bytes behind it the call writes outside the array.
pub add_a_byte_fits :
    (mfb : MatchFieldBuffer) (byte : ℕ)
    → IsFresh mfb
    → mfb.match_field_buffer_tail < 900
    → Returns
        (λ mfb'.
          IsFresh mfb'
          × (contents mfb' ≡ contents mfb ++ byte ∷ [])
          × (mfb'.match_field_buffer_tail ≡ mfb.match_field_buffer_tail + 1))
        (add_a_byte_to_the_match_field_buffer mfb byte)
unfolding add_a_byte_to_the_match_field_buffer
add_a_byte_fits mfb byte f h =
    let step : next_index mfb.match_field_buffer_tail ≡ mfb.match_field_buffer_tail + 1 =
      ground arith in
    (
      stored mfb byte,
      ground (
        arith,
        store_in mfb.match_field_buffer_array mfb.match_field_buffer_tail byte
            (omega (arith, f.size)),
        f.not_full,
      ),
      (
        ground (arith, length-set mfb.match_field_buffer_array mfb.match_field_buffer_tail byte),
        contents-stored mfb byte f h,
        refl,
      ),
    )

pub add_a_byte_overflows :
    (mfb : MatchFieldBuffer) (byte : ℕ)
    → IsFresh mfb
    → mfb.match_field_buffer_tail ≡ 900
    → add_a_byte_to_the_match_field_buffer mfb byte ≡ none
unfolding add_a_byte_to_the_match_field_buffer
add_a_byte_overflows mfb byte f h =
    rw
      (store_out mfb.match_field_buffer_array mfb.match_field_buffer_tail byte
        (omega (arith, f.size)))
      (ground (arith, f.not_full))

-- What the first of a queue is, 0 if there is none, and the rest.
abbrev pub front : List ℕ → ℕ
front [] = 0
front (x ∷ q) = x

abbrev pub behind : List ℕ → List ℕ
behind [] = []
behind (x ∷ q) = q

-- The buffer without its front.
abbrev taken : MatchFieldBuffer → MatchFieldBuffer
taken mfb = record mfb {
  match_field_buffer_head = mfb.match_field_buffer_head + 1;
  buffer_empty_flag =
      if mfb.match_field_buffer_tail == mfb.match_field_buffer_head + 1 then 1 else 0;
}

front_lem :
    (mfb : MatchFieldBuffer)
    → IsFresh mfb
    → (mfb.match_field_buffer_head == mfb.match_field_buffer_tail) ≡ false
    → contents mfb
      ≡ byte_at mfb.match_field_buffer_array mfb.match_field_buffer_head ∷ contents (taken mfb)
unfolding contents slice
front_lem mfb f e =
    let more : mfb.match_field_buffer_tail - mfb.match_field_buffer_head
        ≡ suc (mfb.match_field_buffer_tail - (mfb.match_field_buffer_head + 1)) =
      ground (arith, f.head_in) in
    rw more

contents-nil :
    (mfb : MatchFieldBuffer)
    → mfb.match_field_buffer_tail - mfb.match_field_buffer_head ≡ 0
    → contents mfb ≡ []
unfolding contents slice
contents-nil mfb e = rw e

pub dqueue_from_match_field_buffer_lem :
    (mfb : MatchFieldBuffer)
    → IsFresh mfb
    → Returns
        (λ r.
          IsFresh r.1
          × (r.0 ≡ front (contents mfb))
          × (contents r.1 ≡ behind (contents mfb))
          × (r.1.match_field_buffer_tail ≡ mfb.match_field_buffer_tail))
        (dqueue_from_match_field_buffer mfb)
unfolding dqueue_from_match_field_buffer
dqueue_from_match_field_buffer_lem mfb f =
    elim (Bool-cases (mfb.match_field_buffer_head == mfb.match_field_buffer_tail)) [
      | inl e ↦
          let flag : mfb.buffer_empty_flag ≡ 1 = ground (arith, f.empty_flag) in
          let none_left : mfb.match_field_buffer_tail - mfb.match_field_buffer_head ≡ 0 =
            ground arith in
          (
            (0, mfb),
            ground arith,
            (
              f,
              ground (arith, contents-nil mfb none_left),
              ground (arith, contents-nil mfb none_left),
              refl,
            ),
          )
      | inr e ↦ (
        (byte_at mfb.match_field_buffer_array mfb.match_field_buffer_head, taken mfb),
        ground (
          arith,
          load_in mfb.match_field_buffer_array mfb.match_field_buffer_head (ground (arith, f.size)),
          f.empty_flag,
        ),
        (
          ground (arith, f.head_in),
          ground (arith, front_lem mfb f e),
          ground (arith, front_lem mfb f e),
          refl,
        ),
      )
    ]

-- One call of the buffer's two operations.
pub data Call : Type 0 where
  add : ℕ → Call
  dqueue : Call

-- The calls one after the other, with what each dequeue returns.
unfoldable pub run : List Call → MatchFieldBuffer → Option (List ℕ × MatchFieldBuffer)
run [] mfb = some ([], mfb)
run (add byte ∷ calls) mfb = do mfb' ← add_a_byte_to_the_match_field_buffer mfb byte; run calls mfb'
run (dqueue ∷ calls) mfb = do
  (byte, mfb') ← dqueue_from_match_field_buffer mfb
  (out, mfb'') ← run calls mfb'
  some (byte ∷ out, mfb'')

-- The same calls of an unbounded queue: the replies, and the queue that is left.
unfoldable pub replies : List Call → List ℕ → List ℕ
replies [] q = []
replies (add byte ∷ calls) q = replies calls (q ++ byte ∷ [])
replies (dqueue ∷ calls) q = front q ∷ replies calls (behind q)

unfoldable pub left_over : List Call → List ℕ → List ℕ
left_over [] q = q
left_over (add byte ∷ calls) q = left_over calls (q ++ byte ∷ [])
left_over (dqueue ∷ calls) q = left_over calls (behind q)

unfoldable pub adds : List Call → ℕ
adds [] = 0
adds (add byte ∷ calls) = suc (adds calls)
adds (dqueue ∷ calls) = adds calls

-- For a buffer that was never closed and whose tail has not gone round: as long as the calls add
-- no more bytes than its array of 900 has room for behind the tail, they end without a fault and
-- answer as an unbounded queue does, and leave the queue that it would have.
pub run_refines :
    (calls : List Call) (mfb : MatchFieldBuffer)
    → IsFresh mfb
    → mfb.match_field_buffer_tail + adds calls ≤ 900
    → Returns
        (λ r.
          (r.0 ≡ replies calls (contents mfb))
          × (contents r.1 ≡ left_over calls (contents mfb))
          × IsFresh r.1
          × (r.1.match_field_buffer_tail ≡ mfb.match_field_buffer_tail + adds calls))
        (run calls mfb)
unfolding run replies left_over adds
run_refines [] mfb f h = (([], mfb), refl, (refl, refl, f, omega arith))
run_refines (add byte ∷ calls) mfb f h =
    let (mfb', step, (f', q, t)) = add_a_byte_fits mfb byte f (omega arith) in
    let (r, rest, (out, left, f'', t')) = run_refines calls mfb' f' (omega arith) in
    (r, rw step rest, (rw (← q) out, rw (← q) left, f'', omega arith))
run_refines (dqueue ∷ calls) mfb f h =
    let (b, step, (f', x, q, t)) = dqueue_from_match_field_buffer_lem mfb f in
    let (r, rest, (out, left, f'', t')) = run_refines calls b.1 f' (omega arith) in
    ((b.0 ∷ r.0, r.1), rw (step, rest), (rw (← q, ← x, out), rw (← q) left, f'', omega arith))

-- For a buffer that was never closed and whose tail has not gone round: if the calls add more
-- bytes than its array of 900 has room for behind the tail, one of them accesses a place outside
-- the array, whatever was dequeued before.
pub run_overflows :
    (calls : List Call) (mfb : MatchFieldBuffer)
    → IsFresh mfb
    → 900 < mfb.match_field_buffer_tail + adds calls
    → run calls mfb ≡ none
unfolding run adds
run_overflows [] mfb f h = absurd (omega (arith, f.tail_in))
run_overflows (add byte ∷ calls) mfb f h = elim (dec_lt mfb.match_field_buffer_tail 900) [
  | yes p ↦
      let (mfb', step, (f', q, t)) = add_a_byte_fits mfb byte f p in
      rw step (run_overflows calls mfb' f' (omega arith))
  | no p ↦ rw (add_a_byte_overflows mfb byte f (omega (arith, f.tail_in)))
]
run_overflows (dqueue ∷ calls) mfb f h =
    let (b, step, (f', x, q, t)) = dqueue_from_match_field_buffer_lem mfb f in
    rw (step, run_overflows calls b.1 f' (omega arith))

-- ===== src/PacketBuffer/Read.antt =====
-- What the two readers of packet_buffer.h take from the queue of a valid buffer.
use mathlib.Core.List.{append_assoc}
use mathlib.Core.Path.{subst}
use net_walk.Base.{
  ℕ, suc, ◌+◌, ◌≤◌, ◌<◌, ◌≡◌, ◌≢◌, refl, sym, ap, ◌∙◌, none, some, arith, length, length-append,
  length-replicate, replicate, store_in, store_out, get_or, byte_at, drop, List, [], ◌∷◌, ◌++◌,
  ◌==◌, false,
}
use net_walk.PacketBuffer.{
  PacketBuffer, dqueue_from_packet_buffer, dqueue_from_packet_buffer_for_preprocessing,
  read_a_packet, read_a_packet_for_preprocessing, read_a_packet_and_pass_a_pointer, read_into_local,
}
use net_walk.PacketBuffer.Valid.{IsValid, contents, count, length-contents, wrap, get_or-window}
use net_walk.PacketBuffer.Dequeue.{dqueue_from_packet_buffer_lem, dqueue_for_preprocessing_lem}
use net_walk.PacketBuffer.Yield.{Yields, done, more, read_with_lem, read_with_overrun, overrun_loop}

-- `k` bytes of the queue have been read for pre-processing.
abbrev pub Seen : PacketBuffer → ℕ → Type 0
Seen pb k = pb.buffer_reading_head ≡ wrap pb.packet_buffer_head k

not_empty :
    (pb : PacketBuffer) {x : ℕ} {xs : List ℕ}
    → IsValid pb
    → contents pb ≡ x ∷ xs
    → pb.buffer_empty_flag ≡ 0
not_empty pb v e = let n = ap length e in ground (arith, length-contents pb)

cons-injective : {x y : ℕ} {xs ys : List ℕ} → x ∷ xs ≡ y ∷ ys → (x ≡ y) × (xs ≡ ys)
cons-injective e = (cc, cc)

-- The bytes at the front, as many as were pre-processed, can be dequeued.
pub dequeue-Yields :
    (xs rest : List ℕ) (k : ℕ) (pb : PacketBuffer)
    → IsValid pb
    → contents pb ≡ xs ++ rest
    → Seen pb (length xs + k)
    → length xs + k < 1000
    → (pb' : PacketBuffer) × Yields dqueue_from_packet_buffer pb xs pb'
      × IsValid pb'
      × (contents pb' ≡ rest)
      × Seen pb' k
      × (pb'.buffer_full_flag ≡ pb.buffer_full_flag)
dequeue-Yields [] rest k pb v e seen small = (pb, done, v, e, ground arith, refl)
dequeue-Yields (x ∷ xs) rest k pb v e seen small =
    let (r, run, d) = dqueue_from_packet_buffer_lem pb v in
    let open_front : pb.buffer_reading_head ≢ pb.packet_buffer_head = ground (arith, v.head_in) in
    let (q, head) = d.front (not_empty pb v e) open_front in
    let (first, later) = cons-injective (sym q ∙ e) in
    let (pb', ys, v', c, s, f) =
      dequeue-Yields xs rest k r.1 d.valid later (ground (arith, d.reading, v.head_in))
        (omega arith) in
    (pb', more x (run ∙ ap (λ b. some (b, r.1)) first) ys, v', c, s, f ∙ d.closed)

get_or-middle : (pre : List ℕ) (x : ℕ) (post : List ℕ) → get_or (pre ++ x ∷ post) (length pre) 0 ≡ x
get_or-middle [] x post = refl
get_or-middle (y ∷ pre) x post = get_or-middle pre x post

not_empty_at :
    (pre : List ℕ) (x : ℕ) (xs : List ℕ) (pb : PacketBuffer)
    → IsValid pb
    → contents pb ≡ pre ++ x ∷ xs
    → pb.buffer_empty_flag ≡ 0
not_empty_at [] x xs pb v e = not_empty pb v e
not_empty_at (y ∷ pre) x xs pb v e = not_empty pb v e

byte_seen :
    (pre : List ℕ) (x : ℕ) (post : List ℕ) (pb : PacketBuffer)
    → IsValid pb
    → contents pb ≡ pre ++ x ∷ post
    → (length pre < 1000) × (byte_at pb.packet_buffer (wrap pb.packet_buffer_head (length pre)) ≡ x)
unfolding contents
byte_seen pre x post pb v e =
    let n : count pb ≡ length pre + suc (length post) =
      sym (length-contents pb) ∙ (ap length e ∙ length-append pre (x ∷ post)) in
    let small : count pb ≤ 1000 = ground arith in
    let at =
      get_or-window pb.packet_buffer pb.packet_buffer_head (count pb) (length pre) v.head_in small
        (omega arith) in
    (omega arith, sym at ∙ (ap (λ l. get_or l (length pre) 0) e ∙ get_or-middle pre x post))

-- The bytes behind those already seen can be read for pre-processing; the queue stays.
pub peek-Yields :
    (pre xs rest : List ℕ) (pb : PacketBuffer)
    → IsValid pb
    → contents pb ≡ pre ++ (xs ++ rest)
    → Seen pb (length pre)
    → (pb' : PacketBuffer) × Yields dqueue_from_packet_buffer_for_preprocessing pb xs pb'
      × IsValid pb'
      × (contents pb' ≡ contents pb)
      × Seen pb' (length pre + length xs)
      × (pb'.buffer_full_flag ≡ pb.buffer_full_flag)
peek-Yields pre [] rest pb v e seen = (pb, done, v, refl, ground arith, refl)
peek-Yields pre (x ∷ xs) rest pb v e seen =
    let (r, run, d) = dqueue_for_preprocessing_lem pb v in
    let ne = not_empty_at pre x (xs ++ rest) pb v e in
    let moved = d.step ne in
    let (small, byte) = byte_seen pre x (xs ++ rest) pb v e in
    let first : r.0 ≡ x = d.byte ne ∙ (ap (byte_at pb.packet_buffer) seen ∙ byte) in
    let regroup : contents r.1 ≡ (pre ++ x ∷ []) ++ (xs ++ rest) = rw append_assoc (d.queue ∙ e) in
    let seen' : Seen r.1 (length (pre ++ x ∷ [])) =
      rw (length-append pre (x ∷ [])) (ground (arith, v.head_in, v.reading_in)) in
    let (pb', ys, v', c, s, f) = peek-Yields (pre ++ x ∷ []) xs rest r.1 d.valid regroup seen' in
    (
      pb',
      more x (run ∙ ap (λ b. some (b, r.1)) first) ys,
      v',
      c ∙ d.queue,
      subst (Seen pb') (omega (arith, length-append pre (x ∷ []))) s,
      f ∙ d.closed,
    )

-- On a valid buffer whose queue starts with a length byte and so many bytes behind it, all of them
-- pre-processed, and with an array that is longer than the length byte says, `read_a_packet` ends
-- without a fault: it fills the start of the array with the packet, leaves the rest of the array
-- as it was and takes the packet off the queue. The buffer stays valid, the remaining bytes seen
-- stay seen, and it stays as open or closed as it was.
pub read_a_packet_lem :
    (pb : PacketBuffer) (n : ℕ) (body rest pk : List ℕ) (k : ℕ)
    → IsValid pb
    → contents pb ≡ (n ∷ body) ++ rest
    → length body ≡ n
    → n < length pk
    → Seen pb (suc n + k)
    → suc n + k < 1000
    → (pb' : PacketBuffer) × (read_a_packet pb pk ≡ some (pb', (n ∷ body) ++ drop (suc n) pk))
      × IsValid pb'
      × (contents pb' ≡ rest)
      × Seen pb' k
      × (pb'.buffer_full_flag ≡ pb.buffer_full_flag)
unfolding read_a_packet
read_a_packet_lem pb n body rest pk k v e size fits seen small =
    let (pb', ys, v', c, s, f) =
      dequeue-Yields (n ∷ body) rest k pb v e (subst (λ m. Seen pb (suc m + k)) (sym size) seen)
        (omega arith) in
    let busy : (pb.buffer_empty_flag == 1) ≡ false = ground (arith, not_empty pb v e) in
    let apart : (pb.buffer_reading_head == pb.packet_buffer_head) ≡ false =
      ground (arith, v.head_in) in
    (
      pb',
      rw (busy, apart) (read_with_lem dqueue_from_packet_buffer n body pk ys size fits),
      v',
      c,
      s,
      f,
    )

-- On a valid buffer with a length byte and so many more behind the bytes that are seen, and with
-- an array that is longer than the length byte says, `read_a_packet_for_preprocessing` ends
-- without a fault: it fills the start of the array with the packet, leaves the rest of the array
-- as it was, and has then seen the packet too. The buffer stays valid, with the same queue and
-- full flag.
pub read_a_packet_for_preprocessing_lem :
    (pb : PacketBuffer) (n : ℕ) (pre body rest pk : List ℕ)
    → IsValid pb
    → contents pb ≡ pre ++ ((n ∷ body) ++ rest)
    → length body ≡ n
    → n < length pk
    → Seen pb (length pre)
    → (pb' : PacketBuffer) × (read_a_packet_for_preprocessing pb pk
        ≡ some (pb', (n ∷ body) ++ drop (suc n) pk))
      × IsValid pb'
      × (contents pb' ≡ contents pb)
      × Seen pb' (length pre + suc n)
      × (pb'.buffer_full_flag ≡ pb.buffer_full_flag)
unfolding read_a_packet_for_preprocessing
read_a_packet_for_preprocessing_lem pb n pre body rest pk v e size fits seen =
    let (pb', ys, v', c, s, f) = peek-Yields pre (n ∷ body) rest pb v e seen in
    let busy : (pb.buffer_empty_flag == 1) ≡ false =
      ground (arith, not_empty_at pre n (body ++ rest) pb v e) in
    (
      pb',
      rw busy (read_with_lem dqueue_from_packet_buffer_for_preprocessing n body pk ys size fits),
      v',
      c,
      subst (λ m. Seen pb' (length pre + suc m)) size s,
      f,
    )

-- On a valid buffer with a length byte and so many more behind the bytes that are seen, and with
-- an array that is not longer than the length byte says, `read_a_packet_for_preprocessing` writes
-- behind the array's end.
pub read_a_packet_for_preprocessing_overrun :
    (pb : PacketBuffer) (n : ℕ) (pre body rest pk : List ℕ)
    → IsValid pb
    → contents pb ≡ pre ++ ((n ∷ body) ++ rest)
    → length body ≡ n
    → length pk ≤ n
    → Seen pb (length pre)
    → read_a_packet_for_preprocessing pb pk ≡ none
unfolding read_a_packet_for_preprocessing
read_a_packet_for_preprocessing_overrun pb n pre body rest pk v e size small seen =
    let r = peek-Yields pre (n ∷ body) rest pb v e seen in
    let busy : (pb.buffer_empty_flag == 1) ≡ false =
      ground (arith, not_empty_at pre n (body ++ rest) pb v e) in
    rw busy (read_with_overrun dqueue_from_packet_buffer_for_preprocessing n body pk r.1 size small)

-- On a valid buffer whose queue starts with a length byte and so many bytes behind it, all of them
-- pre-processed, `read_a_packet_and_pass_a_pointer` never completes its read: it writes behind the
-- end of its local array.
pub read_a_packet_and_pass_a_pointer_overrun :
    (pb : PacketBuffer) (n : ℕ) (body rest : List ℕ) (k : ℕ)
    → IsValid pb
    → contents pb ≡ (n ∷ body) ++ rest
    → length body ≡ n
    → Seen pb (suc n + k)
    → suc n + k < 1000
    → read_a_packet_and_pass_a_pointer pb ≡ none
unfolding read_a_packet_and_pass_a_pointer
read_a_packet_and_pass_a_pointer_overrun pb n body rest k v e size seen small =
    let r =
      dequeue-Yields (n ∷ body) rest k pb v e (subst (λ m. Seen pb (suc m + k)) (sym size) seen)
        (omega arith) in
    let busy : (pb.buffer_empty_flag == 1) ≡ false = ground (arith, not_empty pb v e) in
    let apart : (pb.buffer_reading_head == pb.packet_buffer_head) ≡ false =
      ground (arith, v.head_in) in
    rw (busy, apart) (go body r.1 size)
  where
    go :
        (body : List ℕ) {pb' : PacketBuffer}
        → Yields dqueue_from_packet_buffer pb (n ∷ body) pb'
        → length body ≡ n
        → read_into_local pb ≡ none
    go [] (more _ step rest) size = rw (step, ← size, store_out [] 0 0 (omega arith))
    go (y ∷ body) (more _ step rest) size = rw (
      step,
      ← size,
      store_in (replicate (length (y ∷ body)) 0) 0 (length (y ∷ body)) (omega arith),
      overrun_loop dqueue_from_packet_buffer (y ∷ body)
          (length (y ∷ body) ∷ replicate (length body) 0) 1 rest
          (omega (arith, length-replicate {A = ℕ} (length body) 0))
          (omega (arith, length-replicate {A = ℕ} (length body) 0)),
    )

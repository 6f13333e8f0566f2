-- ===== src/PacketBuffer/Fill.antt =====
-- An initialised packet buffer, and what it holds after bytes were added to it.
use net_walk.Base.{
  ℕ, ◌==◌, ◌+◌, zero, suc, ◌≡◌, refl, sym, ap, ◌∙◌, arith, List, [], ◌∷◌, ◌++◌, Returns, ltb, take,
  length, length-append, if◌then◌else◌,
}
use net_walk.PacketBuffer.{PacketBuffer, initialize_packet_buffer}
use net_walk.PacketBuffer.Valid.{
  IsValid, contents, window, count, length-contents, Added, add_a_byte_lem,
}
use net_walk.PacketBuffer.Closed.{Call, add, call, run}
use mathlib.Core.Path.{subst}
use mathlib.Core.List.{append_assoc, append-nil}

-- The calls that add the bytes of a list.
abbrev pub adds : List ℕ → List Call
adds [] = []
adds (x ∷ xs) = add x ∷ adds xs

-- The buffer holds the first thousand of the bytes, from index 0 on, and is closed if there are so
-- many. Nothing was read.
pub record Filled (bytes : List ℕ) (pb : PacketBuffer) : Type 0 where
  pub valid : IsValid pb
  pub queue : contents pb ≡ take 1000 bytes
  pub closed : pb.buffer_full_flag ≡ (if ltb (length bytes) 1000 then 0 else 1)
  pub head : pb.packet_buffer_head ≡ 0
  pub reading : pb.buffer_reading_head ≡ 0

take-append_one :
    (n : ℕ) (xs : List ℕ) (x : ℕ)
    → take n (xs ++ x ∷ []) ≡ (if ltb (length xs) n then take n xs ++ x ∷ [] else take n xs)
take-append_one zero xs x = ground arith
take-append_one (suc zero) [] x = ground arith
take-append_one (suc (suc n)) [] x = ground arith
take-append_one (suc n) (y ∷ ys) x = ground (arith, take-append_one n ys x)

length-take_within :
    (n : ℕ) (xs : List ℕ) → length (take n xs) ≡ (if ltb (length xs) n then length xs else n)
length-take_within zero xs = ground arith
length-take_within (suc n) [] = ground arith
length-take_within (suc n) (x ∷ xs) = ground (arith, length-take_within n xs)

-- The step of the queue and of the full flag, for a buffer of `n` bytes.
queue_one :
    (n x flag : ℕ) (bytes old new : List ℕ)
    → new ≡ (if flag == 1 then old else old ++ x ∷ [])
    → flag ≡ (if ltb (length bytes) n then 0 else 1)
    → old ≡ take n bytes
    → new ≡ take n (bytes ++ x ∷ [])
queue_one n x flag bytes old new step closed queue = ground (arith, take-append_one n bytes x)

flag_one :
    (m stored len flag flag' : ℕ)
    → flag' ≡ (if flag == 1 then 1 else if stored == m then 1 else 0)
    → flag ≡ (if ltb len (suc m) then 0 else 1)
    → stored ≡ (if ltb len (suc m) then len else suc m)
    → flag' ≡ (if ltb (len + 1) (suc m) then 0 else 1)
flag_one m stored len flag flag' step closed all = ground arith

pub initialized :
    (pb : PacketBuffer) → length pb.packet_buffer ≡ 1000 → Filled [] (initialize_packet_buffer pb)
unfolding initialize_packet_buffer contents window
initialized pb h = record {
  valid = ground arith;
  queue = refl;
  closed = refl;
  head = refl;
  reading = refl;
}

next_byte_lem :
    (bytes : List ℕ) (x : ℕ) (pb pb' : PacketBuffer)
    → Filled bytes pb
    → Added pb x pb'
    → Filled (bytes ++ x ∷ []) pb'
next_byte_lem bytes x pb pb' f a =
    let stored : count pb ≡ (if ltb (length bytes) 1000 then length bytes else 1000) =
      sym (length-contents pb) ∙ (ap length f.queue ∙ length-take_within 1000 bytes) in
    record {
      valid = a.valid;
      queue =
          queue_one 1000 x pb.buffer_full_flag bytes (contents pb) (contents pb') a.queue f.closed
            f.queue;
      closed =
          flag_one 999 (count pb) (length bytes) pb.buffer_full_flag pb'.buffer_full_flag a.closed
            f.closed stored
          ∙ ap (λ n. if ltb n 1000 then 0 else 1) (sym (length-append bytes (x ∷ [])));
      head = a.head ∙ f.head;
      reading = a.reading ∙ f.reading;
    }

fills :
    (xs bytes : List ℕ) (pb : PacketBuffer)
    → Filled bytes pb
    → Returns (Filled (bytes ++ xs)) (run (adds xs) pb)
unfolding run call
fills [] bytes pb f = (pb, refl, subst (λ l. Filled l pb) (sym (append-nil bytes)) f)
fills (x ∷ xs) bytes pb f =
    let (pb₁, step, a) = add_a_byte_lem pb x f.valid in
    let (pb₂, rest, f') = fills xs (bytes ++ x ∷ []) pb₁ (next_byte_lem bytes x pb pb₁ f a) in
    (pb₂, rw step rest, subst (λ l. Filled l pb₂) (append_assoc bytes (x ∷ []) xs) f')

-- After `initialize_packet_buffer` of a buffer whose array has a thousand bytes, adding any list of
-- bytes ends without a fault. The queue is then the first thousand of them, in order, and the buffer
-- is valid; it is closed if there were a thousand or more, and else open. Both reading indices are 0.
pub run_fills :
    (pb : PacketBuffer) (bytes : List ℕ)
    → length pb.packet_buffer ≡ 1000
    → Returns (Filled bytes) (run (adds bytes) (initialize_packet_buffer pb))
run_fills pb bytes h = fills bytes [] (initialize_packet_buffer pb) (initialized pb h)

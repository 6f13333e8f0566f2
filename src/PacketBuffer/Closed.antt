-- ===== src/PacketBuffer/Closed.antt =====
-- Calls of the packet buffer's three operations, in any order, on a buffer that was filled once.
use mathlib.Core.List.{append_assoc}
use net_walk.Base.{
  ℕ, ◌≡◌, refl, sym, ap, ◌∙◌, Option, some, arith, List, [], ◌∷◌, ◌++◌, ◌>>=◌, Returns, ℕ_discrete,
  inl, inr,
}
use net_walk.PacketBuffer.{
  PacketBuffer, add_a_byte_to_the_packet_buffer, dqueue_from_packet_buffer,
  dqueue_from_packet_buffer_for_preprocessing,
}
use net_walk.PacketBuffer.Valid.{IsValid, contents, add_a_byte_lem}
use net_walk.PacketBuffer.Dequeue.{
  Dequeued, dqueue_from_packet_buffer_lem, dqueue_for_preprocessing_lem,
}

pub data Call : Type 0 where
  add : ℕ → Call
  dqueue : Call
  peek : Call

-- The buffer after a call; what a dequeue returns is dropped.
unfoldable pub call : Call → PacketBuffer → Option PacketBuffer
call (add byte) pb = add_a_byte_to_the_packet_buffer pb byte
call dqueue pb = dqueue_from_packet_buffer pb >>= λ r. some r.1
call peek pb = dqueue_from_packet_buffer_for_preprocessing pb >>= λ r. some r.1

unfoldable pub run : List Call → PacketBuffer → Option PacketBuffer
run [] pb = some pb
run (c ∷ calls) pb = call c pb >>= λ pb'. run calls pb'

-- `pb'` is valid and closed, and holds the end of what `pb` held.
pub record Drained (pb pb' : PacketBuffer) : Type 0 where
  pub valid : IsValid pb'
  pub closed : pb'.buffer_full_flag ≡ 1
  pub gone : List ℕ
  pub left : contents pb ≡ gone ++ contents pb'

dqueue-Drained :
    (pb : PacketBuffer)
    → IsValid pb
    → pb.buffer_full_flag ≡ 1
    → Returns (Drained pb) (call dqueue pb)
unfolding call
dqueue-Drained pb v full =
    let (r, step, d) = dqueue_from_packet_buffer_lem pb v in
    (
      r.1,
      rw step refl,
      record {
        valid = d.valid;
        closed = d.closed ∙ full;
        gone = (what r d).0;
        left = (what r d).1;
      },
    )
  where
    same :
        (r : ℕ × PacketBuffer)
        → r ≡ (0, pb)
        → (gone : List ℕ) × (contents pb ≡ gone ++ contents r.1)
    same r e = ([], ap (λ s. contents s.1) (sym e))

    what :
        (r : ℕ × PacketBuffer)
        → Dequeued pb r
        → (gone : List ℕ) × (contents pb ≡ gone ++ contents r.1)
    what r d = elim (ℕ_discrete pb.buffer_empty_flag 1) [
      | yes e ↦ same r (d.blocked (inl e))
      | no e ↦ elim (ℕ_discrete pb.buffer_reading_head pb.packet_buffer_head) [
        | yes b ↦ same r (d.blocked (inr b))
        | no b ↦ (r.0 ∷ [], (d.front (omega (arith, v.empty_flag)) b).0)
      ]
    ]

call-Drained :
    (c : Call) (pb : PacketBuffer)
    → IsValid pb
    → pb.buffer_full_flag ≡ 1
    → Returns (Drained pb) (call c pb)
unfolding call
call-Drained (add byte) pb v full =
    let (pb', step, a) = add_a_byte_lem pb byte v in
    (
      pb',
      step,
      record {
        valid = a.valid;
        closed = ground (arith, a.closed);
        gone = [];
        left = ground (arith, a.queue);
      },
    )
call-Drained dqueue pb v full = dqueue-Drained pb v full
call-Drained peek pb v full =
    let (r, step, p) = dqueue_for_preprocessing_lem pb v in
    (
      r.1,
      rw step refl,
      record { valid = p.valid; closed = p.closed ∙ full; gone = []; left = sym p.queue },
    )

-- On a valid buffer whose full flag is set, no sequence of the three operations adds a byte or
-- clears the flag: it ends without a fault, the buffer stays valid and closed, and its queue is an
-- end of the one before.
pub run_stays_closed :
    (calls : List Call) (pb : PacketBuffer)
    → IsValid pb
    → pb.buffer_full_flag ≡ 1
    → Returns (Drained pb) (run calls pb)
unfolding run
run_stays_closed [] pb v full =
    (pb, refl, record { valid = v; closed = full; gone = []; left = refl })
run_stays_closed (c ∷ calls) pb v full =
    let (pb₁, step, d) = call-Drained c pb v full in
    let (pb₂, rest, d') = run_stays_closed calls pb₁ d.valid d.closed in
    (
      pb₂,
      rw step rest,
      record {
        valid = d'.valid;
        closed = d'.closed;
        gone = d.gone ++ d'.gone;
        left =
            d.left
            ∙ (ap (λ q. d.gone ++ q) d'.left ∙ sym (append_assoc d.gone d'.gone (contents pb₂)));
      },
    )

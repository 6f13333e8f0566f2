-- ===== src/PacketBuffer/Dequeue.antt =====
-- What the two functions that read a byte off the ring do.
use net_walk.Base.{
  ℕ, suc, Bool-cases, inl, inr, ◌≡◌, ◌≢◌, refl, arith, load_in, ◌==◌, if◌then◌else◌, byte_at,
  Returns, ◌∷◌, ◌⊎◌,
}
use net_walk.PacketBuffer.{
  PacketBuffer, next_index, dqueue_from_packet_buffer, dqueue_from_packet_buffer_for_preprocessing,
}
use net_walk.PacketBuffer.Valid.{IsValid, contents, count, window}

-- What dequeuing does: nothing, with the byte 0, on an empty buffer and on one whose front is not
-- pre-processed yet; otherwise the front leaves the queue and is the result. The buffer stays as
-- open or closed as it was.
pub record Dequeued (pb : PacketBuffer) (r : ℕ × PacketBuffer) : Type 0 where
  pub valid : IsValid r.1
  pub blocked :
      (pb.buffer_empty_flag ≡ 1) ⊎ (pb.buffer_reading_head ≡ pb.packet_buffer_head) → r ≡ (0, pb)
  pub front :
      pb.buffer_empty_flag ≡ 0
      → pb.buffer_reading_head ≢ pb.packet_buffer_head
      → (contents pb ≡ r.0 ∷ contents r.1)
        × (r.1.packet_buffer_head ≡ next_index pb.packet_buffer_head)
  pub closed : r.1.buffer_full_flag ≡ pb.buffer_full_flag
  pub reading : r.1.buffer_reading_head ≡ pb.buffer_reading_head

-- The buffer with its front taken off.
abbrev advanced : PacketBuffer → PacketBuffer
advanced pb =
    let head : ℕ = next_index pb.packet_buffer_head in
    record pb {
      packet_buffer_head = head;
      buffer_empty_flag = if pb.packet_buffer_tail == head then 1 else 0;
    }

count-advanced :
    (pb : PacketBuffer)
    → IsValid pb
    → pb.buffer_empty_flag ≡ 0
    → count pb ≡ suc (count (advanced pb))
count-advanced pb v e = ground arith

contents-advanced :
    (pb : PacketBuffer)
    → IsValid pb
    → pb.buffer_empty_flag ≡ 0
    → contents pb ≡ byte_at pb.packet_buffer pb.packet_buffer_head ∷ contents (advanced pb)
unfolding contents window
contents-advanced pb v e = rw (count-advanced pb v e)

advanced-IsValid :
    (pb : PacketBuffer) → IsValid pb → pb.buffer_empty_flag ≡ 0 → IsValid (advanced pb)
advanced-IsValid pb v e = ground arith

-- On a valid buffer `dqueue_from_packet_buffer` ends without a fault and leaves a valid buffer. It
-- does nothing, with the byte 0, on an empty buffer and on one whose front is not pre-processed yet;
-- otherwise it takes the front off the queue and returns it. The buffer stays open or closed, also
-- when there is room again.
pub dqueue_from_packet_buffer_lem :
    (pb : PacketBuffer) → IsValid pb → Returns (Dequeued pb) (dqueue_from_packet_buffer pb)
unfolding dqueue_from_packet_buffer
dqueue_from_packet_buffer_lem pb v = elim (Bool-cases (pb.buffer_empty_flag == 1)) [
  | inl e ↦ ((0, pb), rw e, ground arith)
  | inr e ↦ elim (Bool-cases (pb.buffer_reading_head == pb.packet_buffer_head)) [
    | inl b ↦ ((0, pb), rw (e, b), ground arith)
    | inr b ↦ (
      (byte_at pb.packet_buffer pb.packet_buffer_head, advanced pb),
      rw (e, b, load_in pb.packet_buffer pb.packet_buffer_head (omega (arith, v.size))),
      record {
        valid = advanced-IsValid pb v (ground arith);
        blocked = λ h. absurd (ground arith);
        front = λ e' b'. (contents-advanced pb v e', refl);
        closed = refl;
        reading = refl;
      },
    )
  ]
]

-- What the reader for pre-processing does: on an empty buffer nothing, with the byte 0; otherwise
-- it yields the byte at its own index and steps that index alone.
pub record Peeked (pb : PacketBuffer) (r : ℕ × PacketBuffer) : Type 0 where
  pub valid : IsValid r.1
  pub queue : contents r.1 ≡ contents pb
  pub closed : r.1.buffer_full_flag ≡ pb.buffer_full_flag
  pub head : r.1.packet_buffer_head ≡ pb.packet_buffer_head
  pub empty : pb.buffer_empty_flag ≡ 1 → r ≡ (0, pb)
  pub byte : pb.buffer_empty_flag ≡ 0 → r.0 ≡ byte_at pb.packet_buffer pb.buffer_reading_head
  pub step :
      pb.buffer_empty_flag ≡ 0
      → r.1 ≡ record pb { buffer_reading_head = next_index pb.buffer_reading_head }

-- On a valid buffer the reader for pre-processing ends without a fault and leaves a valid buffer
-- with the same queue. On an empty buffer it does nothing, with the byte 0; otherwise it returns
-- the byte at its own index and steps that index alone.
pub dqueue_for_preprocessing_lem :
    (pb : PacketBuffer)
    → IsValid pb
    → Returns (Peeked pb) (dqueue_from_packet_buffer_for_preprocessing pb)
unfolding dqueue_from_packet_buffer_for_preprocessing contents
dqueue_for_preprocessing_lem pb v = elim (Bool-cases (pb.buffer_empty_flag == 1)) [
  | inl e ↦ ((0, pb), rw e, ground arith)
  | inr e ↦ (
    (
      byte_at pb.packet_buffer pb.buffer_reading_head,
      record pb { buffer_empty_flag = 0; buffer_reading_head = next_index pb.buffer_reading_head },
    ),
    rw (e, load_in pb.packet_buffer pb.buffer_reading_head (omega (arith, v.size))),
    ground arith,
  )
]

-- ===== src/PacketBuffer.antt =====
-- packet-buffer/packet_buffer.h: the ring of bytes between the capture and the two readers, the
-- pre-processor and the forwarding path. `none` is an access outside an array.
pub mod Dump
pub mod Valid
pub mod Dequeue
pub mod Yield
pub mod Read
pub mod Closed
pub mod Fill
use net_walk.Base.{
  ℕ, ◌+◌, ◌-◌, Option, none, some, Bytes, ◌>>=◌, load, store, for_range, ◌==◌, if◌then◌else◌,
  replicate,
}

-- PACKET_BUFFER_LEN
abbrev pub packet_buffer_len : ℕ
packet_buffer_len = 1000

-- MAX_PACKET_SIZE
abbrev pub max_packet_size : ℕ
max_packet_size = 100

pub record PacketBuffer : Type 0 where
  pub packet_buffer : Bytes
  pub packet_buffer_head : ℕ
  pub packet_buffer_tail : ℕ
  pub buffer_full_flag : ℕ
  pub buffer_empty_flag : ℕ
  pub buffer_reading_head : ℕ

unfoldable pub initialize_packet_buffer : PacketBuffer → PacketBuffer
initialize_packet_buffer pb = record pb {
  packet_buffer_head = 0;
  packet_buffer_tail = 0;
  buffer_full_flag = 0;
  buffer_empty_flag = 1;
  buffer_reading_head = 0;
}

-- The step of each of the three indices.
abbrev pub next_index : ℕ → ℕ
next_index i = if i == packet_buffer_len - 1 then 0 else i + 1

unfoldable pub add_a_byte_to_the_packet_buffer : PacketBuffer → ℕ → Option PacketBuffer
add_a_byte_to_the_packet_buffer pb byte = if pb.buffer_full_flag == 1 then some pb else do
  buf ← store pb.packet_buffer pb.packet_buffer_tail byte
  let tail : ℕ = next_index pb.packet_buffer_tail
  some (record pb {
    packet_buffer = buf;
    buffer_empty_flag = 0;
    packet_buffer_tail = tail;
    buffer_full_flag = if tail == pb.packet_buffer_head then 1 else pb.buffer_full_flag;
  })

unfoldable pub dqueue_from_packet_buffer : PacketBuffer → Option (ℕ × PacketBuffer)
dqueue_from_packet_buffer pb =
    if pb.buffer_empty_flag == 1
    then some (0, pb)
    else if pb.buffer_reading_head == pb.packet_buffer_head
    then some (0, pb)
    else do
      byte ← load pb.packet_buffer pb.packet_buffer_head
      let head : ℕ = next_index pb.packet_buffer_head
      some (
        byte,
        record pb {
          packet_buffer_head = head;
          buffer_empty_flag = if pb.packet_buffer_tail == head then 1 else 0;
        },
      )

unfoldable pub dqueue_from_packet_buffer_for_preprocessing :
    PacketBuffer → Option (ℕ × PacketBuffer)
dqueue_from_packet_buffer_for_preprocessing pb =
    if pb.buffer_empty_flag == 1 then some (0, pb) else do
      byte ← load pb.packet_buffer pb.buffer_reading_head
      some (
        byte,
        record pb {
          buffer_empty_flag = 0;
          buffer_reading_head = next_index pb.buffer_reading_head;
        },
      )

-- The two loops that fill an array from a dequeue function: the length byte, then so many bytes.
abbrev pub read_with :
    (PacketBuffer → Option (ℕ × PacketBuffer))
    → PacketBuffer
    → Bytes
    → Option (PacketBuffer × Bytes)
read_with deq pb pk = do
  (packet_length, pb₁) ← deq pb
  pk₁ ← store pk 0 packet_length
  for_range packet_length 1
      (λ i (s : PacketBuffer × Bytes). do
        (byte, pb') ← deq s.0
        pk' ← store s.1 i byte
        some (pb', pk'))
      (pb₁, pk₁)

-- `pk` is the array that the pointer points to, up to the end of its object.
unfoldable pub read_a_packet : PacketBuffer → Bytes → Option (PacketBuffer × Bytes)
read_a_packet pb pk =
    if pb.buffer_empty_flag == 1
    then (store pk 0 0 >>= λ pk'. some (pb, pk'))
    else if pb.buffer_reading_head == pb.packet_buffer_head
    then some (pb, pk)
    else read_with dqueue_from_packet_buffer pb pk

unfoldable pub read_a_packet_for_preprocessing :
    PacketBuffer → Bytes → Option (PacketBuffer × Bytes)
read_a_packet_for_preprocessing pb pk =
    if pb.buffer_empty_flag == 1
    then (store pk 0 0 >>= λ pk'. some (pb, pk'))
    else read_with dqueue_from_packet_buffer_for_preprocessing pb pk

-- The part of `read_a_packet_and_pass_a_pointer` behind its tests. The local array has
-- `packet_length` bytes, of which the loop writes those from 0 to `packet_length`.
abbrev pub read_into_local : PacketBuffer → Option (PacketBuffer × Option Bytes)
read_into_local pb = do
  (packet_length, pb₁) ← dqueue_from_packet_buffer pb
  output₀ ← store (replicate packet_length 0) 0 packet_length
  (pb₂, output) ←
      for_range packet_length 1
        (λ i (s : PacketBuffer × Bytes). do
          (byte, pb') ← dqueue_from_packet_buffer s.0
          output' ← store s.1 i byte
          some (pb', output'))
        (pb₁, output₀)
  some (pb₂, some output)

-- The result is the null pointer (`none`) or the array that the pointer names.
unfoldable pub read_a_packet_and_pass_a_pointer :
    PacketBuffer → Option (PacketBuffer × Option Bytes)
read_a_packet_and_pass_a_pointer pb =
    if pb.buffer_empty_flag == 1
    then some (pb, none)
    else if pb.buffer_reading_head == pb.packet_buffer_head
    then some (pb, none)
    else read_into_local pb

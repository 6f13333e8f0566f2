-- ===== src/MatchFieldBuffer.antt =====
-- packet-buffer/match_field_buffer.h: the ring of match fields that the pre-processor fills. The
-- array has 900 bytes, and the indices go round at 1000. `none` is an access outside an array.
pub mod Dump
pub mod Fifo
use net_walk.Base.{
  ℕ, ◌+◌, ◌-◌, ◌*◌, Option, some, Bytes, ◌>>=◌, load, store, for_range, ◌==◌, if◌then◌else◌,
}

-- MTCH_FLD_LEN
abbrev pub mtch_fld_len : ℕ
mtch_fld_len = 45

-- MTCH_FLD_LEN * NO_OF_MATCH_FIELDS_IN_THE_BUFFER, the size of the array.
abbrev pub array_size : ℕ
array_size = mtch_fld_len * 20

-- match_field_buffer_LEN
abbrev pub match_field_buffer_len : ℕ
match_field_buffer_len = 1000

pub record MatchFieldBuffer : Type 0 where
  pub match_field_buffer_array : Bytes
  pub match_field_buffer_head : ℕ
  pub match_field_buffer_tail : ℕ
  pub buffer_full_flag : ℕ
  pub buffer_empty_flag : ℕ

unfoldable pub initialize_match_field_buffer : MatchFieldBuffer → MatchFieldBuffer
initialize_match_field_buffer mfb = record mfb {
  match_field_buffer_head = 0;
  match_field_buffer_tail = 0;
  buffer_full_flag = 0;
  buffer_empty_flag = 1;
}

-- The step of both indices.
abbrev pub next_index : ℕ → ℕ
next_index i = if i == match_field_buffer_len - 1 then 0 else i + 1

unfoldable pub add_a_byte_to_the_match_field_buffer : MatchFieldBuffer → ℕ → Option MatchFieldBuffer
add_a_byte_to_the_match_field_buffer mfb byte = if mfb.buffer_full_flag == 1 then some mfb else do
  arr ← store mfb.match_field_buffer_array mfb.match_field_buffer_tail byte
  let tail : ℕ = next_index mfb.match_field_buffer_tail
  some (record mfb {
    match_field_buffer_array = arr;
    buffer_empty_flag = 0;
    match_field_buffer_tail = tail;
    buffer_full_flag = if tail == mfb.match_field_buffer_head then 1 else mfb.buffer_full_flag;
  })

unfoldable pub dqueue_from_match_field_buffer : MatchFieldBuffer → Option (ℕ × MatchFieldBuffer)
dqueue_from_match_field_buffer mfb = if mfb.buffer_empty_flag == 1 then some (0, mfb) else do
  byte ← load mfb.match_field_buffer_array mfb.match_field_buffer_head
  let head : ℕ = next_index mfb.match_field_buffer_head
  some (
    byte,
    record mfb {
      match_field_buffer_head = head;
      buffer_empty_flag = if mfb.match_field_buffer_tail == head then 1 else 0;
    },
  )

-- `mf` is the array that the pointer points to.
unfoldable pub read_a_match_field : MatchFieldBuffer → Bytes → Option (MatchFieldBuffer × Bytes)
read_a_match_field mfb mf =
    if mfb.buffer_empty_flag == 1
    then some (mfb, mf)
    else for_range mtch_fld_len 0
        (λ i (s : MatchFieldBuffer × Bytes). do
          (byte, mfb') ← dqueue_from_match_field_buffer s.0
          mf' ← store s.1 i byte
          some (mfb', mf'))
        (mfb, mf)

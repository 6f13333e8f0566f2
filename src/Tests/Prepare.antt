-- ===== src/Tests/Prepare.antt =====
-- A packet of 60 bytes in the packet buffer, and the call that makes its match field.
use net_walk.Base.{ℕ, ◌≡◌, refl, none, arith, [], ◌∷◌, ◌++◌, replicate, replicate-AllBytes, Returns}
use net_walk.PacketBuffer.{PacketBuffer}
use net_walk.PacketBuffer.Valid
use net_walk.PacketBuffer.Valid.{window}
use net_walk.MatchFieldBuffer.{MatchFieldBuffer}
use net_walk.MatchFieldBuffer.Fifo.{IsFresh}
use net_walk.PreProcessor.{PreProcessor, prepare_match_field}
use net_walk.PreProcessor.Fields.{IsField}
use net_walk.PreProcessor.Prepare.{
  IsPrepared, read_into, prepare_match_field_lem, prepare_match_field_overflows,
}

abbrev packets : PacketBuffer
packets = record {
  packet_buffer = 60 ∷ replicate 999 1;
  packet_buffer_head = 0;
  packet_buffer_tail = 61;
  buffer_full_flag = 0;
  buffer_empty_flag = 0;
  buffer_reading_head = 0;
}

abbrev match_fields : ℕ → MatchFieldBuffer
match_fields n = record {
  match_field_buffer_array = replicate 900 0;
  match_field_buffer_head = n;
  match_field_buffer_tail = n;
  buffer_full_flag = 0;
  buffer_empty_flag = 1;
}

-- Before the first packet, and after 20 packets whose match fields were read.
abbrev first : PreProcessor
first = record { pb = packets; mf = match_fields 0 }

abbrev later : PreProcessor
later = record { pb = packets; mf = match_fields 900 }

packets-IsValid : Valid.IsValid packets
packets-IsValid = record {
  size = refl;
  head_in = omega arith;
  tail_in = omega arith;
  reading_in = omega arith;
  full_flag = omega arith;
  empty_flag = omega arith;
  empty = λ e. absurd (omega arith);
  full = λ e h. absurd (omega arith);
}

contents-packets : Valid.contents packets ≡ [] ++ ((60 ∷ replicate 60 1) ++ [])
unfolding Valid.contents window
contents-packets = refl

blank-IsField : IsField (replicate 45 0)
blank-IsField = record { size = refl; bytes = replicate-AllBytes 45 0 (omega arith) }

match_fields-IsFresh : IsFresh (match_fields 0) × IsFresh (match_fields 900)
match_fields-IsFresh = (
  record {
    size = refl;
    tail_in = omega arith;
    head_in = omega arith;
    not_full = refl;
    empty_flag = refl;
  },
  record {
    size = refl;
    tail_in = omega arith;
    head_in = omega arith;
    not_full = refl;
    empty_flag = refl;
  },
)

prepare_match_field_lem_example :
    Returns
      (IsPrepared first 61 (read_into 60 (replicate 60 1) (replicate 100 0)) (replicate 45 0))
      (prepare_match_field first (replicate 45 0) (replicate 100 0))
prepare_match_field_lem_example =
    prepare_match_field_lem first (replicate 45 0) (replicate 100 0) 60 [] (replicate 60 1) []
      packets-IsValid contents-packets refl (omega arith) refl refl blank-IsField
      match_fields-IsFresh.0 (omega arith)

prepare_match_field_overflows_example :
    prepare_match_field later (replicate 45 0) (replicate 100 0) ≡ none
prepare_match_field_overflows_example =
    prepare_match_field_overflows later (replicate 45 0) (replicate 100 0) 60 [] (replicate 60 1) []
      packets-IsValid contents-packets refl (omega arith) refl refl blank-IsField
      match_fields-IsFresh.1 (omega arith)

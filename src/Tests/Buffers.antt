-- ===== src/Tests/Buffers.antt =====
-- The packet buffer, the captured packets and the match field buffer at concrete inputs.
use net_walk.Base.{
  ℕ, ◌+◌, ◌≡◌, refl, none, some, arith, Bytes, List, [], ◌∷◌, ◌++◌, replicate, drop, Returns,
}
use net_walk.PacketBuffer.{
  PacketBuffer, initialize_packet_buffer, add_a_byte_to_the_packet_buffer,
  dqueue_from_packet_buffer, dqueue_from_packet_buffer_for_preprocessing, read_a_packet,
  read_a_packet_for_preprocessing, read_a_packet_and_pass_a_pointer,
}
use net_walk.PacketBuffer.Valid.{IsValid, contents, window, Added, add_a_byte_lem}
use net_walk.PacketBuffer.Dequeue.{
  Dequeued, dqueue_from_packet_buffer_lem, Peeked, dqueue_for_preprocessing_lem,
}
use net_walk.PacketBuffer.Read.{
  Seen, read_a_packet_lem, read_a_packet_for_preprocessing_lem,
  read_a_packet_for_preprocessing_overrun, read_a_packet_and_pass_a_pointer_overrun,
}
use net_walk.PacketBuffer.Closed
use net_walk.PacketBuffer.Fill
use net_walk.PacketBuffer.Fill.{Filled, run_fills}
use net_walk.Capture.Deliver.{
  IsIdle, deliver_all, AreShort, no_packet, one_more, both_hold, deliver_all_lem,
}
use net_walk.PacketBuffer.Closed.{Drained, run_stays_closed}
use net_walk.Capture.{Packet, load_a_packet_to_the_packet_buffer}
use net_walk.Capture.Load.{frame, Fits, Loaded, load_a_packet_lem}
use net_walk.MatchFieldBuffer.{MatchFieldBuffer}
use net_walk.MatchFieldBuffer.Fifo.{
  IsFresh, Call, add, dqueue, run, replies, left_over, adds, run_refines, run_overflows,
}
use net_walk.MatchFieldBuffer.Fifo

-- One packet of two bytes, with its length byte.
abbrev one_packet : PacketBuffer
one_packet = record {
  packet_buffer = 2 ∷ 7 ∷ 9 ∷ replicate 997 0;
  packet_buffer_head = 0;
  packet_buffer_tail = 3;
  buffer_full_flag = 0;
  buffer_empty_flag = 0;
  buffer_reading_head = 0;
}

abbrev seen_packet : PacketBuffer
seen_packet = record one_packet { buffer_reading_head = 3 }

one_packet-IsValid : IsValid one_packet
one_packet-IsValid = record {
  size = refl;
  head_in = omega arith;
  tail_in = omega arith;
  reading_in = omega arith;
  full_flag = omega arith;
  empty_flag = omega arith;
  empty = λ e. absurd (omega arith);
  full = λ e h. absurd (omega arith);
}

seen_packet-IsValid : IsValid seen_packet
seen_packet-IsValid = record {
  size = refl;
  head_in = omega arith;
  tail_in = omega arith;
  reading_in = omega arith;
  full_flag = omega arith;
  empty_flag = omega arith;
  empty = λ e. absurd (omega arith);
  full = λ e h. absurd (omega arith);
}

contents-one_packet : contents one_packet ≡ 2 ∷ 7 ∷ 9 ∷ []
unfolding contents window
contents-one_packet = refl

contents-seen_packet : contents seen_packet ≡ 2 ∷ 7 ∷ 9 ∷ []
unfolding contents window
contents-seen_packet = refl

run_fills_example :
    Returns
      (Filled (4 ∷ 5 ∷ 6 ∷ []))
      (Closed.run (Fill.adds (4 ∷ 5 ∷ 6 ∷ [])) (initialize_packet_buffer seen_packet))
run_fills_example = run_fills seen_packet (4 ∷ 5 ∷ 6 ∷ []) refl

add_a_byte_lem_example : Returns (Added one_packet 5) (add_a_byte_to_the_packet_buffer one_packet 5)
add_a_byte_lem_example = add_a_byte_lem one_packet 5 one_packet-IsValid

dqueue_from_packet_buffer_lem_example :
    Returns (Dequeued seen_packet) (dqueue_from_packet_buffer seen_packet)
dqueue_from_packet_buffer_lem_example =
    dqueue_from_packet_buffer_lem seen_packet seen_packet-IsValid

dqueue_for_preprocessing_lem_example :
    Returns (Peeked one_packet) (dqueue_from_packet_buffer_for_preprocessing one_packet)
dqueue_for_preprocessing_lem_example = dqueue_for_preprocessing_lem one_packet one_packet-IsValid

read_a_packet_lem_example :
    (pb' : PacketBuffer) × (read_a_packet seen_packet (replicate 5 1)
      ≡ some (pb', (2 ∷ 7 ∷ 9 ∷ []) ++ drop 3 (replicate 5 1)))
    × IsValid pb'
    × (contents pb' ≡ [])
    × Seen pb' 0
    × (pb'.buffer_full_flag ≡ 0)
read_a_packet_lem_example =
    read_a_packet_lem seen_packet 2 (7 ∷ 9 ∷ []) [] (replicate 5 1) 0 seen_packet-IsValid
      contents-seen_packet refl (omega arith) refl (omega arith)

read_a_packet_for_preprocessing_lem_example :
    (pb' : PacketBuffer) × (read_a_packet_for_preprocessing one_packet (replicate 5 1)
      ≡ some (pb', (2 ∷ 7 ∷ 9 ∷ []) ++ drop 3 (replicate 5 1)))
    × IsValid pb'
    × (contents pb' ≡ contents one_packet)
    × Seen pb' 3
    × (pb'.buffer_full_flag ≡ 0)
read_a_packet_for_preprocessing_lem_example =
    read_a_packet_for_preprocessing_lem one_packet 2 [] (7 ∷ 9 ∷ []) [] (replicate 5 1)
      one_packet-IsValid contents-one_packet refl (omega arith) refl

read_a_packet_for_preprocessing_overrun_example :
    read_a_packet_for_preprocessing one_packet (replicate 2 1) ≡ none
read_a_packet_for_preprocessing_overrun_example =
    read_a_packet_for_preprocessing_overrun one_packet 2 [] (7 ∷ 9 ∷ []) [] (replicate 2 1)
      one_packet-IsValid contents-one_packet refl (omega arith) refl

read_a_packet_and_pass_a_pointer_overrun_example :
    read_a_packet_and_pass_a_pointer seen_packet ≡ none
read_a_packet_and_pass_a_pointer_overrun_example =
    read_a_packet_and_pass_a_pointer_overrun seen_packet 2 (7 ∷ 9 ∷ []) [] 0 seen_packet-IsValid
      contents-seen_packet refl refl (omega arith)

abbrev captured_packet : Packet
captured_packet = record { len = 2; caplen = 2; pkt_data = 170 ∷ 187 ∷ [] }

abbrev port_bytes : Bytes
port_bytes = 0 ∷ 0 ∷ 0 ∷ 3 ∷ []

load_a_packet_lem_example :
    Returns
      (Loaded one_packet (frame captured_packet port_bytes (replicate 8 0)))
      (load_a_packet_to_the_packet_buffer captured_packet one_packet port_bytes (replicate 8 0))
load_a_packet_lem_example =
    load_a_packet_lem captured_packet port_bytes (replicate 8 0) one_packet one_packet-IsValid
      (record { port = omega arith; meta = omega arith; caplen = omega arith; small = omega arith })
      refl (omega arith)

two_packets-AreShort :
    AreShort port_bytes (replicate 8 0) (replicate 256 0) (captured_packet ∷ captured_packet ∷ [])
two_packets-AreShort = one_more fits refl (omega arith) (one_more fits refl (omega arith) no_packet)
  where
    fits : Fits captured_packet port_bytes (replicate 8 0)
    fits = record {
      port = omega arith;
      meta = omega arith;
      caplen = omega arith;
      small = omega arith;
    }

deliver_all_lem_example :
    Returns
      (λ r.
        IsIdle r.0
        × (r.1
            ≡ both_hold port_bytes
                (replicate 8 0)
                (replicate 256 0)
                (captured_packet ∷ captured_packet ∷ [])))
      (deliver_all port_bytes
        (replicate 8 0)
        (replicate 256 0)
        (captured_packet ∷ captured_packet ∷ [])
        (initialize_packet_buffer one_packet))
deliver_all_lem_example =
    deliver_all_lem port_bytes (replicate 8 0) (replicate 256 0)
      (captured_packet ∷ captured_packet ∷ []) one_packet two_packets-AreShort (omega arith) refl

frame_run :
    frame captured_packet port_bytes (replicate 8 0)
    ≡ 14 ∷ 0 ∷ 0 ∷ 0 ∷ 3 ∷ replicate 8 0 ++ (170 ∷ 187 ∷ [])
unfolding frame
frame_run = refl

-- An empty buffer that took 890 bytes and gave them back, and one that took 900.
abbrev used : ℕ → MatchFieldBuffer
used n = record {
  match_field_buffer_array = replicate 900 0;
  match_field_buffer_head = n;
  match_field_buffer_tail = n;
  buffer_full_flag = 0;
  buffer_empty_flag = 1;
}

used-IsFresh : IsFresh (used 890) × IsFresh (used 900)
used-IsFresh = (
  record {
    size = refl;
    tail_in = omega arith;
    head_in = omega arith;
    not_full = refl;
    empty_flag = refl;
  },
  record {
    size = refl;
    tail_in = omega arith;
    head_in = omega arith;
    not_full = refl;
    empty_flag = refl;
  },
)

abbrev calls : List Call
calls = add 5 ∷ add 6 ∷ dqueue ∷ []

run_refines_example :
    Returns
      (λ r.
        (r.0 ≡ replies calls (Fifo.contents (used 890)))
        × (Fifo.contents r.1 ≡ left_over calls (Fifo.contents (used 890)))
        × IsFresh r.1
        × (r.1.match_field_buffer_tail ≡ 890 + adds calls))
      (run calls (used 890))
unfolding adds
run_refines_example = run_refines calls (used 890) used-IsFresh.0 (omega arith)

run_overflows_example : run calls (used 900) ≡ none
unfolding adds
run_overflows_example = run_overflows calls (used 900) used-IsFresh.1 (omega arith)

-- A buffer with its last byte left of the thousand that it took.
abbrev closed : PacketBuffer
closed = record {
  packet_buffer = replicate 1000 4;
  packet_buffer_head = 999;
  packet_buffer_tail = 0;
  buffer_full_flag = 1;
  buffer_empty_flag = 0;
  buffer_reading_head = 0;
}

closed-IsValid : IsValid closed
closed-IsValid = record {
  size = refl;
  head_in = omega arith;
  tail_in = omega arith;
  reading_in = omega arith;
  full_flag = omega arith;
  empty_flag = omega arith;
  empty = λ e. absurd (omega arith);
  full = λ e h. absurd (omega arith);
}

run_stays_closed_example :
    Returns (Drained closed) (Closed.run (Closed.dqueue ∷ Closed.add 5 ∷ Closed.peek ∷ []) closed)
run_stays_closed_example =
    run_stays_closed (Closed.dqueue ∷ Closed.add 5 ∷ Closed.peek ∷ []) closed closed-IsValid refl

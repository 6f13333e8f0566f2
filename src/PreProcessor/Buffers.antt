-- ===== src/PreProcessor/Buffers.antt =====
-- pre-composer/pre_processing.h: the functions that pass the two buffers on.
use net_walk.Base.{Option, none, some, Bytes, List, ◌>>=◌}
use net_walk.Capture.{PcapResult, load_next_packet_to_the_buffer}
use net_walk.Processor.Print.{Output}
use net_walk.PacketBuffer.Dump.{print_buffer}
use net_walk.MatchFieldBuffer.Dump.{print_mtch_field_buffer}
use net_walk.PreProcessor.{PreProcessor}

-- `none` inside is a capture that has not given a packet, an error or its end yet.
unfoldable pub load_next_packet_to_the_packet_buffer :
    List PcapResult
    → PreProcessor
    → Bytes
    → Bytes
    → Option (Option (PreProcessor × List PcapResult))
load_next_packet_to_the_packet_buffer fp pp ingress_port metadata =
    load_next_packet_to_the_buffer fp pp.pb ingress_port metadata >>= λ r. elim r [
      | none ↦ some none
      | some (pb, fp') ↦ some (some (record pp { pb = pb }, fp'))
    ]

unfoldable pub print_packet_buffer : PreProcessor → Option Output
print_packet_buffer pp = print_buffer pp.pb

unfoldable pub print_match_field_buffer : PreProcessor → Option Output
print_match_field_buffer pp = print_mtch_field_buffer pp.mf

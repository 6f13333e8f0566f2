-- ===== src/Capture.antt =====
-- packet/packet.h: captured packets, and the frame that is loaded into the packet buffer for each.
-- Opening the capture file and the printing are left out. What `pcap_next_ex` returns, call after
-- call, is a list of events.
pub mod Load
pub mod Fetch
pub mod Deliver
use net_walk.Base.{
  ℕ, ◌+◌, ◌-◌, ◌%◌, ◌^◌, Option, none, some, Bytes, ◌>>=◌, load, for_range, List, [], ◌∷◌,
}
use net_walk.PacketBuffer.{PacketBuffer, add_a_byte_to_the_packet_buffer}

-- `struct packet`, with the fields of `pcap_pkthdr` that the code reads.
pub record Packet : Type 0 where
  pub len : ℕ
  pub caplen : ℕ
  pub pkt_data : Bytes

-- One return of `pcap_next_ex`: 1 with a packet, 0 for a timeout, or a negative number.
pub data PcapResult : Type 0 where
  captured : Packet → PcapResult
  timeout : PcapResult
  failed : PcapResult

-- `for (i = 0; i < n; i++) add_a_byte_to_the_packet_buffer(pb, src[i]);`
abbrev pub add_bytes : ℕ → Bytes → PacketBuffer → Option PacketBuffer
add_bytes n src pb =
    for_range n 0 (λ i pb'. do byte ← load src i; add_a_byte_to_the_packet_buffer pb' byte) pb

-- The length byte counts the 4 bytes of the ingress port and the 8 of the metadata too. The last
-- loop goes from 1 to the unsigned `caplen + 1`, and reads `pkt_data[i - 1]`.
unfoldable pub load_a_packet_to_the_packet_buffer :
    Packet → PacketBuffer → Bytes → Bytes → Option PacketBuffer
load_a_packet_to_the_packet_buffer pkt pb ingress_port metadata = do
  pb₁ ← add_a_byte_to_the_packet_buffer pb ((pkt.len + 12) % 2 ^ 8)
  pb₂ ← add_bytes 4 ingress_port pb₁
  pb₃ ← add_bytes 8 metadata pb₂
  add_bytes ((pkt.caplen + 1) % 2 ^ 32 - 1) pkt.pkt_data pb₃

-- Timeouts are waited out, the first packet is loaded, and an error or the end of the file ends the
-- loop. The result also has the events that are still to come; a list that runs out before a
-- packet, an error or the end comes leaves the loop waiting, which is `none` inside.
unfoldable pub load_next_packet_to_the_buffer :
    List PcapResult
    → PacketBuffer
    → Bytes
    → Bytes
    → Option (Option (PacketBuffer × List PcapResult))
load_next_packet_to_the_buffer [] pb ingress_port metadata = some none
load_next_packet_to_the_buffer (captured pkt ∷ fp) pb ingress_port metadata = do
  pb' ← load_a_packet_to_the_packet_buffer pkt pb ingress_port metadata
  some (some (pb', fp))
load_next_packet_to_the_buffer (timeout ∷ fp) pb ingress_port metadata =
    load_next_packet_to_the_buffer fp pb ingress_port metadata
load_next_packet_to_the_buffer (failed ∷ fp) pb ingress_port metadata = some (some (pb, fp))

-- ===== src/PreProcessor.antt =====
-- pre-composer/pre_processing.h: each captured packet's header fields are collected, bit by bit,
-- into a match field of 45 bytes. What `malloc` hands out is an argument, with its stale contents;
-- a read or write outside an array is `none`.
pub mod Buffers
pub mod Length
pub mod Segment
pub mod Fields
pub mod Tagged
pub mod Collect
pub mod Prepare
use net_walk.Base.{
  ℕ, ◌+◌, ◌-◌, ◌%◌, Option, some, Bytes, Bool, ◌&&◌, ◌>>=◌, load, for_range, ◌==◌, if◌then◌else◌,
}
use net_walk.Bits.{set_bit, reset_bit, read_bit}
use net_walk.PacketBuffer.{
  PacketBuffer, initialize_packet_buffer, read_a_packet, read_a_packet_for_preprocessing,
}
use net_walk.PreProcessor.Length.{
  ingress_port, metadata, mac_src, mac_dst, eth_typ, vlan_id, vlan_priority, mpls_label,
  mpls_traffic_cls, ipv4_src, ipv4_dst, ipv4_protocol, ipv4_tos, tcp_src, tcp_dst,
}
use net_walk.MatchFieldBuffer.{
  MatchFieldBuffer, initialize_match_field_buffer, add_a_byte_to_the_match_field_buffer,
  read_a_match_field,
}

pub record PreProcessor : Type 0 where
  pub pb : PacketBuffer
  pub mf : MatchFieldBuffer

unfoldable pub initialize_preprocessor : PreProcessor → PreProcessor
initialize_preprocessor pp = record {
  pb = initialize_packet_buffer pp.pb;
  mf = initialize_match_field_buffer pp.mf;
}

unfoldable pub set_match_field_bits : Bytes → Bytes → ℕ → ℕ → ℕ → Option Bytes
set_match_field_bits pkt match_field start_pkt start_mf len =
    for_range len 0
      (λ i mf. do
        v ← read_bit pkt (start_pkt + i)
        if v == 1 then set_bit mf (start_mf + i) else reset_bit mf (start_mf + i))
      match_field

-- Its name says zeros; the source calls `set_bit`.
unfoldable pub set_match_field_bits_as_zeros : Bytes → ℕ → ℕ → Option Bytes
set_match_field_bits_as_zeros match_field start_mf len =
    for_range len 0 (λ i mf. set_bit mf (start_mf + i)) match_field

-- Its name says ones; the source calls `reset_bit`.
unfoldable pub set_match_field_bits_as_ones : Bytes → ℕ → ℕ → Option Bytes
set_match_field_bits_as_ones match_field start_mf len =
    for_range len 0 (λ i mf. reset_bit mf (start_mf + i)) match_field

-- The local variables of `prepare_match_field` that its parts hand on.
pub record Cursor : Type 0 where
  pub match_field : Bytes
  pub pkt_length : ℕ
  pub mf_length : ℕ
  pub no_of_bits_inserting : ℕ

-- Ingress port and metadata, the two MAC addresses, and the ether type.
unfoldable pub link_fields : Bytes → Bytes → Option Cursor
link_fields pkt match_field = do
  let bits : ℕ = ingress_port + metadata
  mf₁ ← set_match_field_bits pkt match_field 8 0 bits
  let pkt₁ : ℕ = 8 + bits
  mf₂ ← set_match_field_bits pkt mf₁ pkt₁ (0 + bits + mac_src) mac_dst
  let pkt₂ : ℕ = pkt₁ + mac_dst
  let at₂ : ℕ = 0 + bits + mac_src - mac_src
  mf₃ ← set_match_field_bits pkt mf₂ pkt₂ at₂ mac_src
  let pkt₃ : ℕ = pkt₂ + mac_src
  let at₃ : ℕ = at₂ + mac_src + mac_dst
  mf₄ ← set_match_field_bits pkt mf₃ pkt₃ at₃ eth_typ
  some (record {
    match_field = mf₄;
    pkt_length = pkt₃;
    mf_length = at₃;
    no_of_bits_inserting = eth_typ;
  })

-- The branch on the ether type: the VLAN and MPLS fields. The length of the IPv4 header, which is
-- computed and not used, is left out. The result has the additional tag length
-- added to `pkt_length`.
unfoldable pub plain_fields : Cursor → Option Cursor
plain_fields c = do
  let at : ℕ = c.mf_length + c.no_of_bits_inserting
  let bits : ℕ = vlan_id + vlan_priority + mpls_label + mpls_traffic_cls
  mf ← set_match_field_bits_as_zeros c.match_field at bits
  some (record c { match_field = mf; mf_length = at; no_of_bits_inserting = bits })

unfoldable pub vlan_fields : Bytes → Cursor → Option Cursor
vlan_fields pkt c = do
  let pkt₁ : ℕ = c.pkt_length + c.no_of_bits_inserting + 16
  let at₁ : ℕ = c.mf_length + c.no_of_bits_inserting + vlan_id
  mf₁ ← set_match_field_bits pkt c.match_field pkt₁ at₁ vlan_priority
  let pkt₂ : ℕ = pkt₁ + vlan_priority + 1
  let at₂ : ℕ = at₁ - vlan_id
  mf₂ ← set_match_field_bits pkt mf₁ pkt₂ at₂ vlan_id
  let at₃ : ℕ = at₂ + vlan_id + vlan_priority
  let bits : ℕ = mpls_label + mpls_traffic_cls
  mf₃ ← set_match_field_bits_as_zeros mf₂ at₃ bits
  some (record {
    match_field = mf₃;
    pkt_length = pkt₂;
    mf_length = at₃;
    no_of_bits_inserting = bits;
  })

unfoldable pub mpls_fields : Bytes → Cursor → Option Cursor
mpls_fields pkt c = do
  let at₁ : ℕ = c.mf_length + c.no_of_bits_inserting
  mf₁ ← set_match_field_bits_as_zeros c.match_field at₁ (vlan_id + vlan_priority)
  let at₂ : ℕ = at₁ + (vlan_id + vlan_priority)
  let pkt₂ : ℕ = c.pkt_length + (vlan_id + vlan_priority)
  let bits : ℕ = mpls_label + mpls_traffic_cls
  mf₂ ← set_match_field_bits pkt mf₁ pkt₂ at₂ bits
  some (record {
    match_field = mf₂;
    pkt_length = pkt₂ + 9;
    mf_length = at₂;
    no_of_bits_inserting = bits;
  })

unfoldable pub tag_fields : Bytes → Cursor → Option Cursor
tag_fields pkt c = do
  hi ← load pkt 25
  lo ← load pkt 26
  if hi == 8 && lo == 0
      then plain_fields c
      else if hi == 129 && lo == 0
      then vlan_fields pkt c
      else if hi == 136 && lo == 71
      then mpls_fields pkt c
      else some c

-- The IPv4 and TCP fields.
unfoldable pub transport_fields : Bytes → Cursor → Option Bytes
transport_fields pkt c = do
  let pkt₁ : ℕ = c.pkt_length + c.no_of_bits_inserting + 8
  let at₁ : ℕ = c.mf_length + c.no_of_bits_inserting + ipv4_src + ipv4_dst + ipv4_protocol
  mf₁ ← set_match_field_bits pkt c.match_field pkt₁ at₁ ipv4_tos
  let pkt₂ : ℕ = pkt₁ + ipv4_tos + 56
  let at₂ : ℕ = at₁ - ipv4_protocol
  mf₂ ← set_match_field_bits pkt mf₁ pkt₂ at₂ ipv4_protocol
  let pkt₃ : ℕ = pkt₂ + ipv4_protocol + 16
  let at₃ : ℕ = at₂ - ipv4_src - ipv4_dst
  mf₃ ← set_match_field_bits pkt mf₂ pkt₃ at₃ ipv4_src
  let pkt₄ : ℕ = pkt₃ + ipv4_src
  let at₄ : ℕ = at₃ + ipv4_src
  mf₄ ← set_match_field_bits pkt mf₃ pkt₄ at₄ ipv4_dst
  let pkt₅ : ℕ = pkt₄ + ipv4_dst
  let at₅ : ℕ = at₄ + ipv4_dst + ipv4_protocol + ipv4_tos
  mf₅ ← set_match_field_bits pkt mf₄ pkt₅ at₅ tcp_src
  set_match_field_bits pkt mf₅ (pkt₅ + tcp_src) (at₅ + tcp_src) tcp_dst

-- The match field of a packet.
unfoldable pub collect_fields : Bytes → Bytes → Option Bytes
collect_fields pkt match_field = do
  c ← link_fields pkt match_field
  c' ← tag_fields pkt c
  transport_fields pkt c'

-- `match_field` and `pkt` are the two arrays that `malloc` hands out. The call that reads the packet
-- is given `pp`, which points to its first member, the packet buffer.
unfoldable pub prepare_match_field : PreProcessor → Bytes → Bytes → Option PreProcessor
prepare_match_field pp match_field pkt = do
  (pb', pkt') ← read_a_packet_for_preprocessing pp.pb pkt
  match_field' ← collect_fields pkt' match_field
  mf' ←
      for_range 45 0
        (λ i mf. do byte ← load match_field' i; add_a_byte_to_the_match_field_buffer mf byte) pp.mf
  some (record { pb = pb'; mf = mf' })

unfoldable pub return_match_field_and_packet :
    PreProcessor → Bytes → Bytes → Option (PreProcessor × Bytes × Bytes)
return_match_field_and_packet pp return_mtch_fld return_packet = do
  (mf', field) ← read_a_match_field pp.mf return_mtch_fld
  (pb', packet) ← read_a_packet pp.pb return_packet
  some (record { pb = pb'; mf = mf' }, field, packet)

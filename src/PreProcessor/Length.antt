-- ===== src/PreProcessor/Length.antt =====
-- `enum packet_header_lengths` of pre-composer/pre_processing.h: the fields' lengths in bits.
use net_walk.Base.{ℕ}

abbrev pub ingress_port : ℕ
ingress_port = 32

abbrev pub metadata : ℕ
metadata = 64

abbrev pub mac_src : ℕ
mac_src = 48

abbrev pub mac_dst : ℕ
mac_dst = 48

abbrev pub eth_typ : ℕ
eth_typ = 16

abbrev pub vlan_id : ℕ
vlan_id = 12

abbrev pub vlan_priority : ℕ
vlan_priority = 3

abbrev pub mpls_label : ℕ
mpls_label = 20

abbrev pub mpls_traffic_cls : ℕ
mpls_traffic_cls = 3

abbrev pub ipv4_src : ℕ
ipv4_src = 32

abbrev pub ipv4_dst : ℕ
ipv4_dst = 32

abbrev pub ipv4_protocol : ℕ
ipv4_protocol = 8

abbrev pub ipv4_tos : ℕ
ipv4_tos = 6

abbrev pub tcp_src : ℕ
tcp_src = 16

abbrev pub tcp_dst : ℕ
tcp_dst = 16

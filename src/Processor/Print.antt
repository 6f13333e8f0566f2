-- ===== src/Processor/Print.antt =====
-- processor/processor.h: what the `print_` functions write to the standard output. The texts that
-- are fixed are left out, the values and the ends of lines are kept.
pub mod Message
use net_walk.Base.{
  ℕ, zero, suc, ◌+◌, ◌%◌, Option, some, Bytes, List, [], ◌∷◌, ◌++◌, ◌>>=◌, load, for_range, ◌==◌,
  if◌then◌else◌,
}

-- A value by its format: "%.2x", "%.2x.", "%.2x ", "%d", "%d." and "\n".
pub data Printed : Type 0 where
  hex : ℕ → Printed
  hex_dot : ℕ → Printed
  hex_space : ℕ → Printed
  dec : ℕ → Printed
  dec_dot : ℕ → Printed
  newline : Printed

abbrev pub Output : Type 0
Output = List Printed

-- The loop that the functions share, over `n` bytes from the place `p` on.
abbrev pub print_bytes : ℕ → (ℕ → Printed) → Bytes → ℕ → Option Output
print_bytes n format a p = do
  out ← for_range n 0 (λ i out. do b ← load a (p + i); some (out ++ (format b ∷ []))) []
  some (out ++ (newline ∷ []))

unfoldable pub print_field_of_n : Bytes → ℕ → ℕ → Option Output
print_field_of_n field p n = print_bytes n dec_dot field p

unfoldable pub print_ip_addr : Bytes → ℕ → Option Output
print_ip_addr = print_bytes 4 dec_dot

unfoldable pub print_mac_addr : Bytes → ℕ → Option Output
print_mac_addr = print_bytes 6 hex_dot

unfoldable pub print_port : Bytes → ℕ → Option Output
print_port = print_bytes 2 hex

unfoldable pub print_openflow_port : Bytes → ℕ → Option Output
print_openflow_port = print_bytes 4 hex

unfoldable pub print_ether_type : Bytes → ℕ → Option Output
print_ether_type = print_bytes 2 hex

unfoldable pub print_vlan_vid : Bytes → ℕ → Option Output
print_vlan_vid = print_bytes 2 hex

unfoldable pub print_vlan_pcp : Bytes → ℕ → Option Output
print_vlan_pcp = print_bytes 1 hex

unfoldable pub print_length : Bytes → ℕ → Option Output
print_length = print_bytes 1 dec

unfoldable pub print_ip_version : Bytes → ℕ → Option Output
print_ip_version = print_bytes 1 hex

unfoldable pub print_ip_diff_serv : Bytes → ℕ → Option Output
print_ip_diff_serv = print_bytes 1 hex

unfoldable pub print_ip_total_length : Bytes → ℕ → Option Output
print_ip_total_length = print_bytes 2 hex

unfoldable pub print_ip_id : Bytes → ℕ → Option Output
print_ip_id = print_bytes 2 hex

unfoldable pub print_ip_flag : Bytes → ℕ → Option Output
print_ip_flag = print_bytes 1 hex

unfoldable pub print_ip_fragment_offset : Bytes → ℕ → Option Output
print_ip_fragment_offset = print_bytes 1 hex

unfoldable pub print_ip_ttl : Bytes → ℕ → Option Output
print_ip_ttl = print_bytes 1 hex

unfoldable pub print_ip_protocol : Bytes → ℕ → Option Output
print_ip_protocol = print_bytes 1 hex

unfoldable pub print_ip_checksum : Bytes → ℕ → Option Output
print_ip_checksum = print_bytes 2 hex

unfoldable pub print_tcp_port : Bytes → ℕ → Option Output
print_tcp_port = print_bytes 2 hex

unfoldable pub print_tcp_seq : Bytes → ℕ → Option Output
print_tcp_seq = print_bytes 4 hex

unfoldable pub print_tcp_ack : Bytes → ℕ → Option Output
print_tcp_ack = print_bytes 4 hex

unfoldable pub print_tcp_header_len : Bytes → ℕ → Option Output
print_tcp_header_len = print_bytes 1 hex

unfoldable pub print_tcp_flag : Bytes → ℕ → Option Output
print_tcp_flag = print_bytes 1 hex

unfoldable pub print_tcp_window_size : Bytes → ℕ → Option Output
print_tcp_window_size = print_bytes 2 hex

unfoldable pub print_tcp_checksum : Bytes → ℕ → Option Output
print_tcp_checksum = print_bytes 2 hex

-- packet/packet.h: the length byte is read at `p`, and as many bytes are written, 16 in a line.
unfoldable pub print_data_buffer : Bytes → ℕ → Option Output
print_data_buffer data_buffer p = do
  n ← load data_buffer p
  out ←
      for_range n 1
        (λ i out. do
          b ← load data_buffer (p + i)
          some (out ++ (hex_space b ∷ (if i % 16 == 0 then newline ∷ [] else []))))
        []
  some (out ++ (newline ∷ []))

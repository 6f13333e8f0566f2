-- ===== src/Processor/Write.antt =====
-- processor/processor.h: the `write_` functions, which copy a field of a fixed size from one place
-- to another. All of them return 1.
use net_walk.Base.{ℕ, Option, Bytes, copy_bytes}

unfoldable pub write_field_of_n : Bytes → ℕ → Bytes → ℕ → ℕ → Option Bytes
write_field_of_n field p field_n q n = copy_bytes n field p field_n q

unfoldable pub write_length : Bytes → ℕ → Bytes → ℕ → Option Bytes
write_length = copy_bytes 1

unfoldable pub write_mac_addr : Bytes → ℕ → Bytes → ℕ → Option Bytes
write_mac_addr = copy_bytes 6

unfoldable pub write_ether_type : Bytes → ℕ → Bytes → ℕ → Option Bytes
write_ether_type = copy_bytes 2

unfoldable pub write_ip_version : Bytes → ℕ → Bytes → ℕ → Option Bytes
write_ip_version = copy_bytes 1

unfoldable pub write_ip_addr : Bytes → ℕ → Bytes → ℕ → Option Bytes
write_ip_addr = copy_bytes 4

unfoldable pub write_ip_diff_serv : Bytes → ℕ → Bytes → ℕ → Option Bytes
write_ip_diff_serv = copy_bytes 1

unfoldable pub write_ip_total_length : Bytes → ℕ → Bytes → ℕ → Option Bytes
write_ip_total_length = copy_bytes 2

unfoldable pub write_ip_id : Bytes → ℕ → Bytes → ℕ → Option Bytes
write_ip_id = copy_bytes 2

unfoldable pub write_ip_flag : Bytes → ℕ → Bytes → ℕ → Option Bytes
write_ip_flag = copy_bytes 1

unfoldable pub write_ip_fragment_offset : Bytes → ℕ → Bytes → ℕ → Option Bytes
write_ip_fragment_offset = copy_bytes 1

unfoldable pub write_ip_ttl : Bytes → ℕ → Bytes → ℕ → Option Bytes
write_ip_ttl = copy_bytes 1

unfoldable pub write_ip_protocol : Bytes → ℕ → Bytes → ℕ → Option Bytes
write_ip_protocol = copy_bytes 1

unfoldable pub write_ip_checksum : Bytes → ℕ → Bytes → ℕ → Option Bytes
write_ip_checksum = copy_bytes 2

unfoldable pub write_tcp_port : Bytes → ℕ → Bytes → ℕ → Option Bytes
write_tcp_port = copy_bytes 2

unfoldable pub write_tcp_seq : Bytes → ℕ → Bytes → ℕ → Option Bytes
write_tcp_seq = copy_bytes 4

unfoldable pub write_tcp_ack : Bytes → ℕ → Bytes → ℕ → Option Bytes
write_tcp_ack = copy_bytes 4

unfoldable pub write_tcp_header_len : Bytes → ℕ → Bytes → ℕ → Option Bytes
write_tcp_header_len = copy_bytes 1

unfoldable pub write_tcp_flag : Bytes → ℕ → Bytes → ℕ → Option Bytes
write_tcp_flag = copy_bytes 1

unfoldable pub write_tcp_window_size : Bytes → ℕ → Bytes → ℕ → Option Bytes
write_tcp_window_size = copy_bytes 2

unfoldable pub write_tcp_checksum : Bytes → ℕ → Bytes → ℕ → Option Bytes
write_tcp_checksum = copy_bytes 1

unfoldable pub write_zero : Bytes → ℕ → Bytes → ℕ → Option Bytes
write_zero = copy_bytes 1

unfoldable pub write_ofpt_version : Bytes → ℕ → Bytes → ℕ → Option Bytes
write_ofpt_version = copy_bytes 1

unfoldable pub write_ofpt_type : Bytes → ℕ → Bytes → ℕ → Option Bytes
write_ofpt_type = copy_bytes 1

unfoldable pub write_ofpt_length : Bytes → ℕ → Bytes → ℕ → Option Bytes
write_ofpt_length = copy_bytes 2

unfoldable pub write_ofpt_xid : Bytes → ℕ → Bytes → ℕ → Option Bytes
write_ofpt_xid = copy_bytes 4

unfoldable pub write_ofpt_buffer_id : Bytes → ℕ → Bytes → ℕ → Option Bytes
write_ofpt_buffer_id = copy_bytes 4

unfoldable pub write_ofpt_total_length : Bytes → ℕ → Bytes → ℕ → Option Bytes
write_ofpt_total_length = copy_bytes 2

unfoldable pub write_ofpt_in_port : Bytes → ℕ → Bytes → ℕ → Option Bytes
write_ofpt_in_port = copy_bytes 2

unfoldable pub write_ofpt_reason : Bytes → ℕ → Bytes → ℕ → Option Bytes
write_ofpt_reason = copy_bytes 1

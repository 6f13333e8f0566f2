-- ===== src/OpenflowProcess.antt =====
-- processor/openflow_process.h: the packet-in message that is generated for a packet that missed
-- the table, and what is done with a message that is received. The type of the messages in
-- include/openflow are numbers here: 0 is OFPT_HELLO and 14 is OFPT_FLOW_MOD.
pub mod PacketIn
pub mod Layout
pub mod Written
pub mod Generate
use net_walk.Base.{
  ℕ, ◌+◌, ◌-◌, ◌*◌, ◌%◌, Option, some, Bytes, List, [], ◌∷◌, ◌++◌, ◌>>=◌, load, ◌==◌, if◌then◌else◌,
}
use net_walk.Processor.{
  Switchx, Controller, Processor, print_processor, print_switch, print_controller,
}
use net_walk.Processor.Print.{
  Output, hex, newline, print_data_buffer, print_length, print_mac_addr, print_ether_type,
  print_ip_version, print_ip_diff_serv, print_ip_total_length, print_ip_id, print_ip_flag,
  print_ip_fragment_offset, print_ip_ttl, print_ip_protocol, print_ip_checksum, print_ip_addr,
  print_port, print_tcp_port, print_tcp_seq, print_tcp_ack, print_tcp_header_len, print_tcp_flag,
  print_tcp_window_size, print_tcp_checksum, print_vlan_vid, print_vlan_pcp,
}
use net_walk.Processor.Print.Message.{
  print_ofpt_version, print_ofpt_type, print_ofpt_length, print_ofpt_xid, print_ofpt_buffer_id,
  print_ofpt_total_length, print_ofpt_in_port, print_ofpt_reason, print_ofpt_wildcard,
  print_ofpt_cookie, print_oftp_command, print_oftp_idle_timeout, print_oftp_hard_timeout,
  print_oftp_priority, print_oftp_buffer_id, print_oftp_out_port, printf_oftp_flag,
  print_oftp_action_type, print_oftp_length, print_oftp_action_port, print_oftp_max_length,
}
use net_walk.Processor.Write.{
  write_length, write_mac_addr, write_ether_type, write_ip_version, write_ip_addr,
  write_ip_diff_serv, write_ip_total_length, write_ip_id, write_ip_flag, write_ip_fragment_offset,
  write_ip_ttl, write_ip_protocol, write_ip_checksum, write_tcp_port, write_tcp_seq, write_tcp_ack,
  write_tcp_header_len, write_tcp_flag, write_tcp_window_size, write_tcp_checksum, write_zero,
  write_ofpt_version, write_ofpt_type, write_ofpt_length, write_ofpt_xid, write_ofpt_buffer_id,
  write_ofpt_total_length, write_ofpt_in_port, write_ofpt_reason,
}

-- One statement group of `generate_openflow_packet_in`: a field is written at `i`, printed back from
-- there, and `i`, of one byte, goes on by its width.
pub record Field : Type 0 where
  pub write : Bytes → ℕ → Bytes → ℕ → Option Bytes
  pub print : Bytes → ℕ → Option Output
  pub width : ℕ
  pub value : Bytes

-- The buffer of the message, the index `i` and the output.
pub record Cursor : Type 0 where
  pub buffer : Bytes
  pub i : ℕ
  pub output : Output

unfoldable pub put_field : Field → Cursor → Option Cursor
put_field f c = do
  buffer ← f.write f.value 0 c.buffer c.i
  text ← f.print buffer c.i
  some (record { buffer = buffer; i = (c.i + f.width) % 256; output = c.output ++ text })

unfoldable pub put_fields : List Field → Cursor → Option Cursor
put_fields [] c = some c
put_fields (f ∷ fs) c = put_field f c >>= λ c'. put_fields fs c'

-- `write_zero` is not followed by a print.
abbrev pub no_print : Bytes → ℕ → Option Output
no_print a p = some []

abbrev field :
    (Bytes → ℕ → Bytes → ℕ → Option Bytes) → (Bytes → ℕ → Option Output) → ℕ → Bytes → Field
field w p n v = record { write = w; print = p; width = n; value = v }

-- The length byte, which is 0 at first, the link layer and the network layer.
abbrev pub frame_fields : Processor → List Field
frame_fields p1 =
    field write_length print_length 1 (0 ∷ [])
    ∷ field write_mac_addr print_mac_addr 6 p1.con.mac_addr
    ∷ field write_mac_addr print_mac_addr 6 p1.swt.mac_addr
    ∷ field write_ether_type print_ether_type 2 (8 ∷ 0 ∷ [])
    ∷ field write_ip_version print_ip_version 1 (69 ∷ [])
    ∷ field write_ip_diff_serv print_ip_diff_serv 1 (0 ∷ [])
    ∷ field write_ip_total_length print_ip_total_length 2 (0 ∷ 41 ∷ [])
    ∷ field write_ip_id print_ip_id 2 (22 ∷ 129 ∷ [])
    ∷ field write_ip_flag print_ip_flag 1 (64 ∷ [])
    ∷ field write_ip_fragment_offset print_ip_fragment_offset 1 (0 ∷ [])
    ∷ field write_ip_ttl print_ip_ttl 1 (128 ∷ [])
    ∷ field write_ip_protocol print_ip_protocol 1 (0 ∷ [])
    ∷ field write_ip_checksum print_ip_checksum 2 (0 ∷ 0 ∷ [])
    ∷ field write_ip_addr print_ip_addr 4 p1.swt.ip_addr
    ∷ field write_ip_addr print_ip_addr 4 p1.con.ip_addr
    ∷ []

-- The transport layer, up to the window size.
abbrev pub tcp_fields : Processor → List Field
tcp_fields p1 =
    field write_tcp_port print_tcp_port 2 p1.swt.port
    ∷ field write_tcp_port print_tcp_port 2 p1.con.port
    ∷ field write_tcp_seq print_tcp_seq 4 (0 ∷ 0 ∷ 0 ∷ 1 ∷ [])
    ∷ field write_tcp_ack print_tcp_ack 4 (0 ∷ 0 ∷ 0 ∷ 0 ∷ [])
    ∷ field write_tcp_header_len print_tcp_header_len 1 (80 ∷ [])
    ∷ field write_tcp_flag print_tcp_flag 1 (0 ∷ 0 ∷ 0 ∷ 0 ∷ [])
    ∷ field write_tcp_window_size print_tcp_window_size 2 (252 ∷ 171 ∷ [])
    ∷ []

abbrev pub checksum_field : Field
checksum_field = field write_tcp_checksum print_tcp_checksum 2 (60 ∷ 56 ∷ [])

-- The two zeros, the OpenFlow header and the packet-in header.
abbrev pub openflow_fields : List Field
openflow_fields =
    field write_zero no_print 1 (0 ∷ [])
    ∷ field write_zero no_print 1 (0 ∷ [])
    ∷ field write_ofpt_version print_ofpt_version 1 (4 ∷ [])
    ∷ field write_ofpt_type print_ofpt_type 1 (10 ∷ [])
    ∷ field write_ofpt_length print_ofpt_length 2 (0 ∷ 60 ∷ [])
    ∷ field write_ofpt_xid print_ofpt_xid 4 (0 ∷ 0 ∷ 0 ∷ 0 ∷ [])
    ∷ field write_ofpt_buffer_id print_ofpt_buffer_id 4 (0 ∷ 0 ∷ 0 ∷ 1 ∷ [])
    ∷ field write_ofpt_total_length print_ofpt_total_length 2 (0 ∷ 42 ∷ [])
    ∷ field write_ofpt_in_port print_ofpt_in_port 2 (0 ∷ 1 ∷ [])
    ∷ field write_ofpt_reason print_ofpt_reason 1 (0 ∷ [])
    ∷ []

-- The end: `length = i - 5` is written over the length byte, and the message is printed.
unfoldable pub close_message : Cursor → Option (Bytes × Output)
close_message c = do
  buffer ← write_length ((c.i + 251) % 256 ∷ []) 0 c.buffer 5
  length_text ← print_length buffer 5
  text ← print_data_buffer buffer 5
  some (buffer, c.output ++ (length_text ++ text))

-- The buffer that is left, and the output.
unfoldable pub generate_openflow_packet_in : Processor → Bytes → Bytes → Option (Bytes × Output)
generate_openflow_packet_in p1 data_buffer packet_in_data_buffer = do
  switch_text ← print_switch (some p1.swt)
  controller_text ← print_controller (some p1.con)
  frame ←
      put_fields (frame_fields p1)
        (record { buffer = packet_in_data_buffer; i = 5; output = switch_text ++ controller_text })
  tcp ← put_fields (tcp_fields p1) frame
  checked ← put_field checksum_field tcp
  message ← put_fields openflow_fields checked
  close_message message

-- The offsets in a packet of the packet buffer, of the `enum openflow_field_flag`.
abbrev dst_mac_addr : ℕ
dst_mac_addr = 13

abbrev ip_dst_addr : ℕ
ip_dst_addr = 43

abbrev tcp_dst_port : ℕ
tcp_dst_port = 49

-- The local array is not initialised: its 1000 bytes are an argument. The result is 1.
unfoldable pub table_missed_packet_process : Processor → Bytes → Bytes → Option (Bytes × Output)
table_missed_packet_process p1 data_buffer packet_in_data = do
  mac ← print_mac_addr data_buffer dst_mac_addr
  ip ← print_ip_addr data_buffer ip_dst_addr
  port ← print_port data_buffer tcp_dst_port
  (buffer, text) ← generate_openflow_packet_in p1 data_buffer packet_in_data
  some (buffer, mac ++ (ip ++ (port ++ text)))

-- The printing functions of one message, each with the bytes that `i` goes on by.
abbrev Printers : Type 0
Printers = List ((Bytes → ℕ → Option Output) × ℕ)

unfoldable pub print_all : Printers → Bytes → ℕ → Option Output
print_all [] a i = some []
print_all ((print, n) ∷ rest) a i = do
  text ← print a i
  texts ← print_all rest a (i + n)
  some (text ++ texts)

abbrev match_printers : Printers
match_printers =
    (print_ofpt_version, 1)
    ∷ (print_ofpt_type, 1)
    ∷ (print_ofpt_length, 2)
    ∷ (print_ofpt_xid, 4)
    ∷ (print_ofpt_wildcard, 4)
    ∷ (print_ofpt_in_port, 2)
    ∷ (print_mac_addr, 6)
    ∷ (print_mac_addr, 6)
    ∷ (print_vlan_vid, 2)
    ∷ (print_vlan_pcp, 1)
    ∷ (no_print, 1)
    ∷ (print_ether_type, 2)
    ∷ (print_ip_diff_serv, 1)
    ∷ (print_ip_protocol, 1)
    ∷ (no_print, 2)
    ∷ (print_ip_addr, 4)
    ∷ (print_ip_addr, 4)
    ∷ (print_tcp_port, 2)
    ∷ (print_tcp_port, 2)
    ∷ []

abbrev command_printers : Printers
command_printers =
    (print_ofpt_cookie, 8)
    ∷ (print_oftp_command, 2)
    ∷ (print_oftp_idle_timeout, 2)
    ∷ (print_oftp_hard_timeout, 2)
    ∷ (print_oftp_priority, 2)
    ∷ (print_oftp_buffer_id, 4)
    ∷ (print_oftp_out_port, 2)
    ∷ (printf_oftp_flag, 2)
    ∷ (print_oftp_action_type, 2)
    ∷ (print_oftp_length, 2)
    ∷ (print_oftp_action_port, 2)
    ∷ (print_oftp_max_length, 2)
    ∷ []

-- The message of 80 bytes that takes the place of the one that is passed.
abbrev dummy_flow_mod : Bytes
dummy_flow_mod =
    1 ∷ 14 ∷ 0 ∷ 80 ∷ 187 ∷ 213 ∷ 53 ∷ 66 ∷ 0 ∷ 0 ∷ 0 ∷ 0 ∷ 0 ∷ 2 ∷ 10 ∷ 249 ∷ 175 ∷ 202 ∷ 209 ∷ 164
    ∷ 106 ∷ 107 ∷ 133 ∷ 116 ∷ 109 ∷ 207 ∷ 255 ∷ 255 ∷ 0 ∷ 0 ∷ 8 ∷ 6 ∷ 0 ∷ 2 ∷ 0 ∷ 0 ∷ 10 ∷ 0 ∷ 0 ∷ 2
    ∷ 10 ∷ 0 ∷ 0 ∷ 1 ∷ 0 ∷ 0 ∷ 0 ∷ 0 ∷ 0 ∷ 0 ∷ 0 ∷ 0 ∷ 0 ∷ 0 ∷ 0 ∷ 0 ∷ 0 ∷ 0 ∷ 0 ∷ 60 ∷ 0 ∷ 0 ∷ 0
    ∷ 0 ∷ 0 ∷ 0 ∷ 1 ∷ 1 ∷ 0 ∷ 0 ∷ 0 ∷ 0 ∷ 0 ∷ 0 ∷ 0 ∷ 8 ∷ 0 ∷ 1 ∷ 0 ∷ 0 ∷ []

unfoldable pub openflow_flow_mod_process : Processor → Bytes → Option Output
openflow_flow_mod_process p data_buffer =
    print_all (match_printers ++ command_printers) dummy_flow_mod 0

-- The result is 1.
unfoldable pub openflow_hello_process : Processor → Bytes → Output
openflow_hello_process p1 data_buffer = (print_processor (some p1)).0

-- The 8 bytes that take the place of the message that is passed.
abbrev dummy_header : Bytes
dummy_header = 1 ∷ 14 ∷ 0 ∷ 8 ∷ 187 ∷ 213 ∷ 53 ∷ 66 ∷ []

-- The switch: the types other than these two print fixed texts at most.
unfoldable pub dispatch : ℕ → Processor → Bytes → Option Output
dispatch type p1 data_buffer =
    if type == 0
    then some (openflow_hello_process p1 data_buffer)
    else if type == 14
    then openflow_flow_mod_process p1 data_buffer
    else some []

unfoldable pub openflow_packet_process : Processor → Bytes → Option Output
openflow_packet_process p1 data_buffer = do
  dump ← print_data_buffer data_buffer 0
  version ← load dummy_header 0
  type ← load dummy_header 1
  high ← load dummy_header 2
  low ← load dummy_header 3
  text ← dispatch type p1 dummy_header
  some (dump ++ ((hex version ∷ hex type ∷ hex (high * 256 + low) ∷ []) ++ text))

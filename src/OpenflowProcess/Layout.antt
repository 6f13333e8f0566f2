-- ===== src/OpenflowProcess/Layout.antt =====
-- The bytes of the packet-in message that `generate_openflow_packet_in` leaves.
use net_walk.Base.{ℕ, ◌≤◌, ◌≡◌, refl, some, arith, [], ◌∷◌, length, copy_bytes}
use net_walk.Processor.{Processor}
use net_walk.Processor.Print.{
  Printed, print_bytes, hex, hex_dot, dec, dec_dot, print_length, print_mac_addr, print_ether_type,
  print_ip_version, print_ip_diff_serv, print_ip_total_length, print_ip_id, print_ip_flag,
  print_ip_fragment_offset, print_ip_ttl, print_ip_protocol, print_ip_checksum, print_ip_addr,
  print_tcp_port, print_tcp_seq, print_tcp_ack, print_tcp_header_len, print_tcp_flag,
  print_tcp_window_size,
}
use net_walk.Processor.Print.Message.{
  print_ofpt_version, print_ofpt_type, print_ofpt_length, print_ofpt_xid, print_ofpt_buffer_id,
  print_ofpt_total_length, print_ofpt_in_port, print_ofpt_reason,
}
use net_walk.Processor.Write.{
  write_length, write_mac_addr, write_ether_type, write_ip_version, write_ip_diff_serv,
  write_ip_total_length, write_ip_id, write_ip_flag, write_ip_fragment_offset, write_ip_ttl,
  write_ip_protocol, write_ip_checksum, write_ip_addr, write_tcp_port, write_tcp_seq, write_tcp_ack,
  write_tcp_header_len, write_tcp_flag, write_tcp_window_size, write_ofpt_version, write_ofpt_type,
  write_ofpt_length, write_ofpt_xid, write_ofpt_buffer_id, write_ofpt_total_length,
  write_ofpt_in_port, write_ofpt_reason, write_zero,
}
use net_walk.Processor.Compare.{print_bytes-Returns}
use net_walk.OpenflowProcess.{Field, frame_fields, tcp_fields, openflow_fields}
use net_walk.OpenflowProcess.PacketIn.{Proper, AllProper}

-- The addresses and ports of the controller and of the switch have their bytes.
pub record IsAddressed (p1 : Processor) : Type 0 where
  pub con_mac : 6 ≤ length p1.con.mac_addr
  pub con_ip : 4 ≤ length p1.con.ip_addr
  pub con_port : 2 ≤ length p1.con.port
  pub swt_mac : 6 ≤ length p1.swt.mac_addr
  pub swt_ip : 4 ≤ length p1.swt.ip_addr
  pub swt_port : 2 ≤ length p1.swt.port

proper :
    (f : Field) (format : ℕ → Printed)
    → f.write ≡ copy_bytes f.width
    → f.print ≡ print_bytes f.width format
    → f.width ≤ length f.value
    → Proper f
proper f format copies shows filled = record {
  copies = copies;
  filled = filled;
  prints = λ a p h. rw shows (print_bytes-Returns f.width format a p h);
}

pub frame_fields-AllProper : (p1 : Processor) → IsAddressed p1 → AllProper (frame_fields p1)
unfolding print_ether_type print_ip_addr print_ip_checksum print_ip_diff_serv print_ip_flag
    print_ip_fragment_offset print_ip_id print_ip_protocol print_ip_total_length print_ip_ttl
    print_ip_version print_length print_mac_addr write_ether_type write_ip_addr write_ip_checksum
    write_ip_diff_serv write_ip_flag write_ip_fragment_offset write_ip_id write_ip_protocol
    write_ip_total_length write_ip_ttl write_ip_version write_length write_mac_addr
frame_fields-AllProper p1 a = (
  proper _ dec refl refl (omega arith),
  (
    proper _ hex_dot refl refl a.con_mac,
    (
      proper _ hex_dot refl refl a.swt_mac,
      (
        proper _ hex refl refl (omega arith),
        (
          proper _ hex refl refl (omega arith),
          (
            proper _ hex refl refl (omega arith),
            (
              proper _ hex refl refl (omega arith),
              (
                proper _ hex refl refl (omega arith),
                (
                  proper _ hex refl refl (omega arith),
                  (
                    proper _ hex refl refl (omega arith),
                    (
                      proper _ hex refl refl (omega arith),
                      (
                        proper _ hex refl refl (omega arith),
                        (
                          proper _ hex refl refl (omega arith),
                          (
                            proper _ dec_dot refl refl a.swt_ip,
                            (proper _ dec_dot refl refl a.con_ip, tt),
                          ),
                        ),
                      ),
                    ),
                  ),
                ),
              ),
            ),
          ),
        ),
      ),
    ),
  ),
)

pub tcp_fields-AllProper : (p1 : Processor) → IsAddressed p1 → AllProper (tcp_fields p1)
unfolding print_tcp_ack print_tcp_flag print_tcp_header_len print_tcp_port print_tcp_seq
    print_tcp_window_size write_tcp_ack write_tcp_flag write_tcp_header_len write_tcp_port
    write_tcp_seq write_tcp_window_size
tcp_fields-AllProper p1 a = (
  proper _ hex refl refl a.swt_port,
  (
    proper _ hex refl refl a.con_port,
    (
      proper _ hex refl refl (omega arith),
      (
        proper _ hex refl refl (omega arith),
        (
          proper _ hex refl refl (omega arith),
          (proper _ hex refl refl (omega arith), (proper _ hex refl refl (omega arith), tt)),
        ),
      ),
    ),
  ),
)

zero_field :
    Proper (record { write = write_zero; print = λ a p. some []; width = 1; value = 0 ∷ [] })
unfolding write_zero
zero_field = record { copies = refl; filled = omega arith; prints = λ a p h. ([], refl) }

pub openflow_fields-AllProper : AllProper openflow_fields
unfolding print_ofpt_buffer_id print_ofpt_in_port print_ofpt_length print_ofpt_reason
    print_ofpt_total_length print_ofpt_type print_ofpt_version print_ofpt_xid write_ofpt_buffer_id
    write_ofpt_in_port write_ofpt_length write_ofpt_reason write_ofpt_total_length write_ofpt_type
    write_ofpt_version write_ofpt_xid
openflow_fields-AllProper = (
  zero_field,
  (
    zero_field,
    (
      proper _ hex refl refl (omega arith),
      (
        proper _ hex refl refl (omega arith),
        (
          proper _ hex refl refl (omega arith),
          (
            proper _ hex refl refl (omega arith),
            (
              proper _ hex refl refl (omega arith),
              (
                proper _ hex refl refl (omega arith),
                (proper _ hex refl refl (omega arith), (proper _ hex refl refl (omega arith), tt)),
              ),
            ),
          ),
        ),
      ),
    ),
  ),
)

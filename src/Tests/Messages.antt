-- ===== src/Tests/Messages.antt =====
-- The comparisons and the packet-in message at concrete inputs.
use net_walk.Base.{arith, Bytes, [], ◌∷◌, replicate, Returns}
use net_walk.Processor.{Processor, compare_mac_addr, compare_ip_addr, compare_field_of_n}
use net_walk.Processor.Compare.{
  Decides, compare_mac_addr_lem, compare_ip_addr_lem, compare_field_of_n_lem,
}
use net_walk.OpenflowProcess.{generate_openflow_packet_in}
use net_walk.OpenflowProcess.Layout.{IsAddressed}
use net_walk.OpenflowProcess.Generate.{IsMessage, generate_openflow_packet_in_lem}

abbrev address : Bytes
address = 1 ∷ 2 ∷ 3 ∷ 4 ∷ 5 ∷ 6 ∷ []

abbrev other : Bytes
other = 1 ∷ 2 ∷ 3 ∷ 4 ∷ 5 ∷ 7 ∷ []

compare_mac_addr_lem_example :
    Returns (λ r. Decides 6 address 0 other 0 (r.1)) (compare_mac_addr address 0 other 0)
compare_mac_addr_lem_example = compare_mac_addr_lem address 0 other 0 (omega arith) (omega arith)

compare_ip_addr_lem_example :
    Returns (λ r. Decides 4 address 0 other 0 (r.1)) (compare_ip_addr address 0 other 0)
compare_ip_addr_lem_example = compare_ip_addr_lem address 0 other 0 (omega arith) (omega arith)

compare_field_of_n_lem_example :
    Returns (λ r. Decides 3 address 1 other 2 (r.1)) (compare_field_of_n address 1 other 2 3)
compare_field_of_n_lem_example =
    compare_field_of_n_lem address 1 other 2 3 (omega arith) (omega arith)

abbrev processor : Processor
processor = record {
  id = 1;
  con = record {
    id = 2;
    ip_addr = address;
    mac_addr = address;
    port = address;
    is_available = 1;
    connection_established = 1;
  };
  swt = record { id = 3; mac_addr = other; ip_addr = other; port = other };
}

processor-IsAddressed : IsAddressed processor
processor-IsAddressed = record {
  con_mac = omega arith;
  con_ip = omega arith;
  con_port = omega arith;
  swt_mac = omega arith;
  swt_ip = omega arith;
  swt_port = omega arith;
}

generate_openflow_packet_in_lem_example :
    Returns
      (λ r. IsMessage processor (replicate 80 9) (r.0))
      (generate_openflow_packet_in processor [] (replicate 80 9))
generate_openflow_packet_in_lem_example =
    generate_openflow_packet_in_lem processor [] (replicate 80 9) processor-IsAddressed
      (omega arith)

-- ===== src/Processor.antt =====
-- processor/processor.h and processor/controller.h: the processor, its controller and its switch,
-- and the comparison of addresses and fields. The packet buffers of the processor and its empty
-- memory are not used by the functions that are modelled.
pub mod Print
pub mod Write
pub mod Compare
use net_walk.Base.{
  ℕ, zero, suc, ◌+◌, Option, none, some, Bytes, List, [], ◌∷◌, ◌++◌, ◌>>=◌, load, ◌==◌,
  if◌then◌else◌,
}
use net_walk.Processor.Print.{
  Printed, dec, newline, Output, print_mac_addr, print_ip_addr, print_port, print_field_of_n,
}

pub record Switchx : Type 0 where
  pub id : ℕ
  pub mac_addr : Bytes
  pub ip_addr : Bytes
  pub port : Bytes

pub record Controller : Type 0 where
  pub id : ℕ
  pub ip_addr : Bytes
  pub mac_addr : Bytes
  pub port : Bytes
  pub is_available : ℕ
  pub connection_established : ℕ

-- `swt` points to one switch.
pub record Processor : Type 0 where
  pub id : ℕ
  pub con : Controller
  pub swt : Switchx

-- The output and the result, for a pointer that may be null.
unfoldable pub print_processor : Option Processor → Output × ℕ
print_processor none = ([], 0)
print_processor (some p) = (dec p.id ∷ newline ∷ [], 1)

unfoldable pub print_switch : Option Switchx → Option Output
print_switch none = some []
print_switch (some s) = do
  mac ← print_mac_addr s.mac_addr 0
  ip ← print_ip_addr s.ip_addr 0
  port ← print_port s.port 0
  some (dec s.id ∷ newline ∷ (mac ++ (ip ++ port)))

unfoldable pub print_controller : Option Controller → Option Output
print_controller none = some []
print_controller (some c) = do
  mac ← print_mac_addr c.mac_addr 0
  ip ← print_ip_addr c.ip_addr 0
  port ← print_port c.port 0
  some (dec c.id ∷ newline ∷ (mac ++ (ip ++ port)))

-- `is_matched` after the loop over `n` bytes from `i` on, which ends at the first difference.
unfoldable pub compare_bytes : ℕ → ℕ → Bytes → ℕ → Bytes → ℕ → Option ℕ
compare_bytes zero i a p b q = some 1
compare_bytes (suc n) i a p b q = do
  x ← load a (p + i)
  y ← load b (q + i)
  if x == y then compare_bytes n (i + 1) a p b q else some 0

-- The output and the result.
unfoldable pub compare_mac_addr : Bytes → ℕ → Bytes → ℕ → Option (Output × ℕ)
compare_mac_addr mac1 p mac2 q = do
  out₁ ← print_mac_addr mac1 p
  out₂ ← print_mac_addr mac2 q
  is_matched ← compare_bytes 6 0 mac1 p mac2 q
  some (out₁ ++ out₂, is_matched)

unfoldable pub compare_ip_addr : Bytes → ℕ → Bytes → ℕ → Option (Output × ℕ)
compare_ip_addr ip1 p ip2 q = do
  out₁ ← print_ip_addr ip1 p
  out₂ ← print_ip_addr ip2 q
  is_matched ← compare_bytes 4 0 ip1 p ip2 q
  some (out₁ ++ out₂, is_matched)

unfoldable pub compare_field_of_n : Bytes → ℕ → Bytes → ℕ → ℕ → Option (Output × ℕ)
compare_field_of_n field1 p field2 q n = do
  out₁ ← print_field_of_n field1 p n
  out₂ ← print_field_of_n field2 q n
  is_matched ← compare_bytes n 0 field1 p field2 q
  some (out₁ ++ out₂, is_matched)

unfoldable pub compare_tcp_port : Bytes → ℕ → Bytes → ℕ → Option ℕ
compare_tcp_port port1 p port2 q = compare_bytes 2 0 port1 p port2 q

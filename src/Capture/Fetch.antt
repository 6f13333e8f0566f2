-- ===== src/Capture/Fetch.antt =====
-- packet/packet.h: the functions that take one packet from the capture and print it. The fixed texts,
-- the line with the packet's time and the printed addresses are left out.
use net_walk.Base.{
  ℕ, ◌+◌, ◌-◌, ◌%◌, ◌^◌, Option, none, some, Bytes, [], ◌∷◌, ◌++◌, ◌>>=◌, load, store, for_range,
  replicate, ◌==◌, if◌then◌else◌,
}
use net_walk.Processor.Print.{Output, hex, hex_space, dec, newline}
use net_walk.Capture.{Packet, PcapResult, captured, timeout, failed}

-- The rounds of `for (i = 1; i < caplen + 1; i++)`, with an unsigned `caplen`.
abbrev pub data_rounds : Packet → ℕ
data_rounds pkt = (pkt.caplen + 1) % 2 ^ 32 - 1

-- A byte, and the end of the line behind every sixteenth.
abbrev pub print_byte : ℕ → ℕ → Output
print_byte i b = hex_space b ∷ (if i % 16 == 0 then newline ∷ [] else [])

unfoldable pub print_byte_array : Bytes → Option Output
print_byte_array byte_array = do
  length ← load byte_array 0
  first ← load byte_array 1
  out ←
      for_range length 1
        (λ i out. do b ← load byte_array i; some (out ++ (hex_space b ∷ newline ∷ []))) []
  some (
      dec length
      ∷ dec length
      ∷ hex first
      ∷ hex first
      ∷ newline
      ∷ dec length
      ∷ newline
      ∷ dec length
      ∷ newline
      ∷ out)

-- The array of `length + 1` bytes for a `uint8_t` length, all of which is written: the length byte,
-- then the data.
unfoldable pub fill_byte_array : Packet → Option (Bytes × Output)
fill_byte_array pkt = do
  byte_array ← store (replicate (pkt.caplen % 2 ^ 8 + 1) 0) 0 (pkt.caplen % 2 ^ 8)
  for_range (data_rounds pkt) 1
      (λ i (s : Bytes × Output). do
        b ← load pkt.pkt_data (i - 1)
        byte_array' ← store (s.0) i b
        some (byte_array', s.1 ++ print_byte i b))
      (byte_array, [])

-- The result 1, or NULL after a timeout. The array is allocated inside and not handed to the caller.
-- After an error the header is not set when its `caplen` is read.
unfoldable pub get_next_byte_array_2 : PcapResult → Option (ℕ × Output)
get_next_byte_array_2 (captured pkt) = do
  (byte_array, printed) ← fill_byte_array pkt
  array ← print_byte_array byte_array
  some (1, dec (pkt.caplen % 2 ^ 8) ∷ newline ∷ printed ++ array)
get_next_byte_array_2 timeout = some (0, [])
get_next_byte_array_2 failed = none

-- What the returned pointer named when the array, which is local, was still there, or NULL.
unfoldable pub get_next_byte_array : PcapResult → Option (Option Bytes × Output)
get_next_byte_array (captured pkt) = do
  (packet_header, printed) ← fill_byte_array pkt
  array ← print_byte_array packet_header
  some (some packet_header, printed ++ array)
get_next_byte_array timeout = some (none, [])
get_next_byte_array failed = none

unfoldable pub print_std_packet : Option Packet → Option (ℕ × Output)
print_std_packet none = some (0, [])
print_std_packet (some pkt) = do
  out ←
      for_range (data_rounds pkt) 1
        (λ i out. do b ← load pkt.pkt_data (i - 1); some (out ++ print_byte i b)) []
  some (1, dec pkt.caplen ∷ newline ∷ dec pkt.caplen ∷ newline ∷ out)

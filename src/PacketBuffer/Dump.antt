-- ===== src/PacketBuffer/Dump.antt =====
-- packet-buffer/packet_buffer.h: the functions that print the buffer and packets, 16 bytes to a line.
-- The fixed texts are left out.
use net_walk.Base.{
  ℕ, zero, suc, ◌+◌, ◌-◌, Option, some, Bytes, [], ◌∷◌, ◌++◌, ◌>>=◌, load, ◌==◌, ltb, if◌then◌else◌,
}
use net_walk.Processor.Print.{Output, hex, hex_space, newline}
use net_walk.PacketBuffer.{PacketBuffer, packet_buffer_len, read_a_packet}

-- LINE_LEN
abbrev pub line_len : ℕ
line_len = 16

-- The loop over `n` bytes from `j` on, with `line_count` bytes in the line so far.
unfoldable pub print_lines : ℕ → ℕ → ℕ → Bytes → Option (Output × ℕ)
print_lines zero j line_count a = some ([], line_count)
print_lines (suc n) j line_count a = do
  b ← load a j
  (out, last) ← print_lines n (j + 1) (if line_count + 1 == line_len then 0 else line_count + 1) a
  some (hex_space b ∷ (if line_count + 1 == line_len then newline ∷ out else out), last)

-- The bytes of a ring of `len` bytes between its head and its tail.
unfoldable pub print_ring : ℕ → ℕ → ℕ → Bytes → Option Output
print_ring len head tail a =
    if ltb head tail
    then (print_lines (tail - head) head 0 a >>= λ r. some (r.0))
    else (print_lines (len - head) head 0 a >>= λ r.
        print_lines tail 0 (r.1) a >>= λ s. some (r.0 ++ s.0))

unfoldable pub print_buffer : PacketBuffer → Option Output
print_buffer pb =
    if pb.buffer_empty_flag == 1
    then some []
    else print_ring packet_buffer_len pb.packet_buffer_head pb.packet_buffer_tail pb.packet_buffer

-- The length byte, then so many bytes.
unfoldable pub print_packet : Bytes → Option Output
print_packet pkt = do
  length ← load pkt 0
  (out, last) ← print_lines length 1 0 pkt
  some (hex length ∷ newline ∷ out)

-- `a` is what `malloc` gives.
unfoldable pub read_and_print_packet : PacketBuffer → Bytes → Option (PacketBuffer × Output)
read_and_print_packet pb a = do
  (pb', a') ← read_a_packet pb a
  out ← print_packet a'
  some (pb', out)

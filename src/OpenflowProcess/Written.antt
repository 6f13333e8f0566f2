-- ===== src/OpenflowProcess/Written.antt =====
-- The parts of the packet-in message, and that `generate_openflow_packet_in` writes them in turn.
use net_walk.Base.{
  ℕ, zero, suc, ◌+◌, ◌-◌, ◌%◌, ◌≤◌, ◌<◌, ◌≡◌, inr, refl, ◌∙◌, ap, Option, some, arith, Bytes, [],
  ◌∷◌, ◌++◌, ◌>>=◌, load, load_in, ◌==◌, leb, ltb, ◌&&◌, if◌then◌else◌, length, byte_at, take,
  for_range_inv, Returns, Runs, copy_bytes_lem, Pasted,
}
use net_walk.Processor.{Processor, print_switch, print_controller}
use net_walk.Processor.Print.{
  Output, hex, hex_dot, hex_space, dec, dec_dot, newline, print_mac_addr, print_ip_addr, print_port,
  print_length, print_data_buffer, print_tcp_checksum,
}
use net_walk.Processor.Write.{write_length, write_tcp_checksum}
use net_walk.Processor.Compare.{print_bytes-Returns}
use net_walk.OpenflowProcess.{
  Cursor, put_field, put_fields, frame_fields, tcp_fields, checksum_field, openflow_fields,
  close_message,
}
use net_walk.OpenflowProcess.PacketIn.{
  laid_bytes, length-laid_bytes, Laid, Laid-append, put_field_lem, put_fields_lem,
}
use net_walk.OpenflowProcess.Layout.{
  IsAddressed, frame_fields-AllProper, tcp_fields-AllProper, openflow_fields-AllProper,
}

-- The link layer and the network layer, after the length byte.
unfoldable pub frame_bytes : Processor → Bytes
frame_bytes p1 =
    take 6 p1.con.mac_addr
    ++ (take 6 p1.swt.mac_addr
        ++ (8
            ∷ 0
            ∷ 69
            ∷ 0
            ∷ 0
            ∷ 41
            ∷ 22
            ∷ 129
            ∷ 64
            ∷ 0
            ∷ 128
            ∷ 0
            ∷ 0
            ∷ 0
            ∷ (take 4 p1.swt.ip_addr ++ (take 4 p1.con.ip_addr ++ []))))

unfoldable pub tcp_bytes : Processor → Bytes
tcp_bytes p1 =
    take 2 p1.swt.port
    ++ (take 2 p1.con.port ++ (0 ∷ 0 ∷ 0 ∷ 1 ∷ 0 ∷ 0 ∷ 0 ∷ 0 ∷ 80 ∷ 0 ∷ 252 ∷ 171 ∷ []))

-- Two zeros, the OpenFlow header of a packet-in, and its body.
abbrev pub openflow_bytes : Bytes
openflow_bytes =
    0 ∷ 0 ∷ (4 ∷ 10 ∷ 0 ∷ 60 ∷ 0 ∷ 0 ∷ 0 ∷ 0 ∷ []) ++ (0 ∷ 0 ∷ 0 ∷ 1 ∷ 0 ∷ 42 ∷ 0 ∷ 1 ∷ 0 ∷ [])

-- The message with the given length byte. The second byte of the TCP checksum is what was there.
unfoldable pub message : ℕ → ℕ → Processor → Bytes
message first stale p1 =
    (first ∷ frame_bytes p1) ++ (tcp_bytes p1 ++ ((60 ∷ stale ∷ []) ++ openflow_bytes))

pub print_switch-Runs : (p1 : Processor) → IsAddressed p1 → Runs (print_switch (some p1.swt))
unfolding print_switch print_mac_addr print_ip_addr print_port
print_switch-Runs p1 a =
    let (mac, run₁) = print_bytes-Returns 6 hex_dot p1.swt.mac_addr 0 a.swt_mac in
    let (ip, run₂) = print_bytes-Returns 4 dec_dot p1.swt.ip_addr 0 a.swt_ip in
    let (port, run₃) = print_bytes-Returns 2 hex p1.swt.port 0 a.swt_port in
    (dec p1.swt.id ∷ newline ∷ (mac ++ (ip ++ port)), rw (run₁, run₂, run₃) refl)

pub print_controller-Runs :
    (p1 : Processor) → IsAddressed p1 → Runs (print_controller (some p1.con))
unfolding print_controller print_mac_addr print_ip_addr print_port
print_controller-Runs p1 a =
    let (mac, run₁) = print_bytes-Returns 6 hex_dot p1.con.mac_addr 0 a.con_mac in
    let (ip, run₂) = print_bytes-Returns 4 dec_dot p1.con.ip_addr 0 a.con_ip in
    let (port, run₃) = print_bytes-Returns 2 hex p1.con.port 0 a.con_port in
    (dec p1.con.id ∷ newline ∷ (mac ++ (ip ++ port)), rw (run₁, run₂, run₃) refl)

-- A dump reads as many bytes after the length byte as it says.
print_data_buffer-Runs :
    (a : Bytes) (p : ℕ) → p + byte_at a p < length a → Runs (print_data_buffer a p)
unfolding print_data_buffer
print_data_buffer-Runs a p h =
    let (out, run, u) =
      for_range_inv (λ i out. Unit {0}) row (byte_at a p + 1)
        (λ i out hi u. (
          out ++ (hex_space (byte_at a (p + i)) ∷ (if i % 16 == 0 then newline ∷ [] else [])),
          rw (load_in a (p + i) (omega arith)) refl,
          tt,
        ))
        (byte_at a p) 1 [] (omega arith) tt in
    (out ++ (newline ∷ []), rw (load_in a p (omega arith), run) refl)
  where
    row : ℕ → Output → Option Output
    row i out = do
      b ← load a (p + i)
      some (out ++ (hex_space b ∷ (if i % 16 == 0 then newline ∷ [] else [])))

checksum_lem :
    (c : Cursor)
    → c.i + 2 ≤ length c.buffer
    → c.i + 2 < 256
    → Returns (Laid (60 ∷ byte_at c.buffer (c.i + 1) ∷ []) c) (put_field checksum_field c)
unfolding write_tcp_checksum print_tcp_checksum
checksum_lem c h small =
    let (c', run, (next, pasted)) =
      put_field_lem checksum_field 1 c refl (omega arith) (omega arith) (print_bytes-Returns 2 hex)
        h small in
    (
      c',
      run,
      record {
        size = pasted.size;
        advanced = next;
        inside = λ k hk. pasted.bytes (c.i + k) ∙ at k hk;
        outside = λ q hq. pasted.bytes q ∙ ground arith;
      },
    )
  where
    at :
        (k : ℕ)
        → k < 2
        → (if leb c.i (c.i + k) && ltb (c.i + k) (c.i + 1)
            then byte_at (60 ∷ 56 ∷ []) (0 + (c.i + k - c.i))
            else byte_at c.buffer (c.i + k))
          ≡ byte_at (60 ∷ byte_at c.buffer (c.i + 1) ∷ []) k
    at zero hk =
        let e : 0 + (c.i + 0 - c.i) ≡ 0 = omega arith in
        ground (arith, ap (byte_at (60 ∷ 56 ∷ [])) e)
    at (suc zero) hk = ground arith
    at (suc (suc k)) hk = absurd (omega arith)

pub close_message_lem :
    (c : Cursor)
    → c.i ≡ 77
    → 78 ≤ length c.buffer
    → Returns (λ r. Pasted 1 (72 ∷ []) 0 c.buffer 5 (r.0)) (close_message c)
unfolding close_message write_length print_length
close_message_lem c e h =
    let (b, run, pasted) = copy_bytes_lem 1 (72 ∷ []) 0 c.buffer 5 (omega arith) (omega arith) in
    let (length_text, shown) = print_bytes-Returns 1 dec b 5 (omega (arith, pasted.size)) in
    let (text, dumped) = print_data_buffer-Runs b 5 (omega (arith, pasted.size, pasted.bytes 5)) in
    ((b, c.output ++ (length_text ++ text)), rw (e, run, shown, dumped) refl, pasted)

-- The cursors after the fields before the checksum, after the checksum, and at the end.
pub record Written (p1 : Processor) (c : Cursor) : Type 0 where
  pub c₁ : Cursor
  pub c₂ : Cursor
  pub c₃ : Cursor
  pub c₄ : Cursor
  pub frame : put_fields (frame_fields p1) c ≡ some c₁
  pub tcp : put_fields (tcp_fields p1) c₁ ≡ some c₂
  pub checksum : put_field checksum_field c₂ ≡ some c₃
  pub openflow : put_fields openflow_fields c₃ ≡ some c₄
  pub whole : Laid (message 0 (byte_at c.buffer 57) p1) c c₄
  pub end : c₄.i ≡ 77

module _ (p1 : Processor) (a : IsAddressed p1) where
  pub length-frame : length (laid_bytes (frame_fields p1)) ≡ 35
  length-frame = length-laid_bytes (frame_fields p1) (frame_fields-AllProper p1 a)

  pub length-tcp : length (laid_bytes (tcp_fields p1)) ≡ 16
  length-tcp = length-laid_bytes (tcp_fields p1) (tcp_fields-AllProper p1 a)

  -- The byte that the checksum leaves is the one that was there at first.
  stale-eq :
      (c c₁ c₂ : Cursor)
      → c.i ≡ 5
      → Laid (laid_bytes (frame_fields p1)) c c₁
      → Laid (laid_bytes (tcp_fields p1)) c₁ c₂
      → byte_at c₂.buffer (c₂.i + 1) ≡ byte_at c.buffer 57
  stale-eq c c₁ c₂ start l₁ l₂ =
      let e : c₂.i + 1 ≡ 57 = omega (arith, length-frame, length-tcp, l₁.advanced, l₂.advanced) in
      ap (byte_at c₂.buffer) e
      ∙ (l₂.outside 57 (inr (omega (arith, length-frame, length-tcp, l₁.advanced)))
          ∙ l₁.outside 57 (inr (omega (arith, length-frame))))

  joined :
      (c c₁ c₂ c₃ c₄ : Cursor)
      → c.i ≡ 5
      → Laid (laid_bytes (frame_fields p1)) c c₁
      → Laid (laid_bytes (tcp_fields p1)) c₁ c₂
      → Laid (60 ∷ byte_at c₂.buffer (c₂.i + 1) ∷ []) c₂ c₃
      → Laid (laid_bytes openflow_fields) c₃ c₄
      → Laid (message 0 (byte_at c.buffer 57) p1) c c₄
  unfolding message frame_bytes tcp_bytes
  joined c c₁ c₂ c₃ c₄ start l₁ l₂ l₃ l₄ =
      let l₃' = rw (stale-eq c c₁ c₂ start l₁ l₂) at l₃ in
      let checked : Bytes = 60 ∷ byte_at c.buffer 57 ∷ [] in
      let end = Laid-append checked (laid_bytes openflow_fields) c₂ c₃ c₄ l₃' l₄ in
      let rest =
        Laid-append (laid_bytes (tcp_fields p1)) (checked ++ laid_bytes openflow_fields) c₁ c₂ c₄ l₂
          end in
      Laid-append (laid_bytes (frame_fields p1))
        (laid_bytes (tcp_fields p1) ++ (checked ++ laid_bytes openflow_fields)) c c₁ c₄ l₁ rest

  write_frame :
      (c : Cursor)
      → c.i ≡ 5
      → 78 ≤ length c.buffer
      → Returns (Laid (laid_bytes (frame_fields p1)) c) (put_fields (frame_fields p1) c)
  write_frame c start room =
      put_fields_lem (frame_fields p1) c (frame_fields-AllProper p1 a) (omega arith) (omega arith)

  write_tcp :
      (c : Cursor)
      → c.i ≡ 40
      → 78 ≤ length c.buffer
      → Returns (Laid (laid_bytes (tcp_fields p1)) c) (put_fields (tcp_fields p1) c)
  write_tcp c start room =
      put_fields_lem (tcp_fields p1) c (tcp_fields-AllProper p1 a) (omega arith) (omega arith)

write_openflow :
    (c : Cursor)
    → c.i ≡ 58
    → 78 ≤ length c.buffer
    → Returns (Laid (laid_bytes openflow_fields) c) (put_fields openflow_fields c)
write_openflow c start room =
    put_fields_lem openflow_fields c openflow_fields-AllProper (omega arith) (omega arith)

pub write_all :
    (p1 : Processor) (c : Cursor) → IsAddressed p1 → c.i ≡ 5 → 78 ≤ length c.buffer → Written p1 c
write_all p1 c a start room =
    let (c₁, run₁, l₁) = write_frame p1 a c start room in
    let i₁ : c₁.i ≡ 40 = omega (arith, length-frame p1 a, l₁.advanced) in
    let (c₂, run₂, l₂) = write_tcp p1 a c₁ i₁ (omega (arith, l₁.size)) in
    let i₂ : c₂.i ≡ 56 = omega (arith, length-tcp p1 a, l₂.advanced) in
    let (c₃, run₃, l₃) = checksum_lem c₂ (omega (arith, l₁.size, l₂.size)) (omega arith) in
    let i₃ : c₃.i ≡ 58 = omega (arith, l₃.advanced) in
    let (c₄, run₄, l₄) = write_openflow c₃ i₃ (omega (arith, l₁.size, l₂.size, l₃.size)) in
    record {
      c₁ = c₁;
      c₂ = c₂;
      c₃ = c₃;
      c₄ = c₄;
      frame = run₁;
      tcp = run₂;
      checksum = run₃;
      openflow = run₄;
      whole = joined p1 a c c₁ c₂ c₃ c₄ start l₁ l₂ l₃ l₄;
      end = omega (arith, l₄.advanced);
    }

-- ===== src/OpenflowProcess/Generate.antt =====
-- That `generate_openflow_packet_in` leaves the whole packet-in message, and nothing else.
use net_walk.Base.{
  ℕ, zero, suc, ◌+◌, ◌≤◌, ◌<◌, ◌≡◌, ◌⊎◌, inl, inr, refl, ◌∙◌, ap, sym, some, arith, Bytes, [], ◌∷◌,
  ◌++◌, length, byte_at, length-append, Returns, Pasted,
}
use net_walk.Processor.{Processor, print_switch, print_controller}
use net_walk.Processor.Print.{Output}
use net_walk.OpenflowProcess.{
  Cursor, frame_fields, tcp_fields, close_message, generate_openflow_packet_in,
}
use net_walk.OpenflowProcess.PacketIn.{laid_bytes, Laid}
use net_walk.OpenflowProcess.Layout.{IsAddressed}
use net_walk.OpenflowProcess.Written.{
  message, frame_bytes, tcp_bytes, openflow_bytes, print_switch-Runs, print_controller-Runs,
  close_message_lem, length-frame, length-tcp, Written, write_all,
}

-- The result is the message at the index 5, with its length byte.
pub record IsMessage (p1 : Processor) (before after : Bytes) : Type 0 where
  pub size : length after ≡ length before
  pub inside :
      (k : ℕ) → k < 72 → byte_at after (5 + k) ≡ byte_at (message 72 (byte_at before 57) p1) k
  pub outside : (q : ℕ) → (q < 5) ⊎ (77 ≤ q) → byte_at after q ≡ byte_at before q

length-message : (p1 : Processor) (stale : ℕ) → IsAddressed p1 → length (message 0 stale p1) ≡ 72
unfolding message frame_bytes tcp_bytes
length-message p1 stale a = omega (
  arith,
  length-append (laid_bytes (frame_fields p1))
      (laid_bytes (tcp_fields p1) ++ ((60 ∷ stale ∷ []) ++ openflow_bytes)),
  length-append (laid_bytes (tcp_fields p1)) ((60 ∷ stale ∷ []) ++ openflow_bytes),
  length-frame p1 a,
  length-tcp p1 a,
)

message-suc :
    (p1 : Processor) (stale k : ℕ)
    → byte_at (message 0 stale p1) (suc k) ≡ byte_at (message 72 stale p1) (suc k)
unfolding message
message-suc p1 stale k = refl

closed :
    (p1 : Processor) (c c' : Cursor) (after : Bytes)
    → IsAddressed p1
    → c.i ≡ 5
    → Laid (message 0 (byte_at c.buffer 57) p1) c c'
    → Pasted 1 (72 ∷ []) 0 c'.buffer 5 after
    → IsMessage p1 c.buffer after
unfolding message
closed p1 c c' after a start l p = record {
  size = p.size ∙ l.size;
  inside = at;
  outside = λ q hq. p.bytes q ∙ (ground arith ∙ l.outside q (away q hq));
}
  where
    away :
        (q : ℕ)
        → (q < 5) ⊎ (77 ≤ q)
        → (q < c.i) ⊎ (c.i + length (message 0 (byte_at c.buffer 57) p1) ≤ q)
    away q (inl h) = inl (omega arith)
    away q (inr h) = inr (omega (arith, length-message p1 (byte_at c.buffer 57) a))

    at : (k : ℕ) → k < 72 → byte_at after (5 + k) ≡ byte_at (message 72 (byte_at c.buffer 57) p1) k
    at zero hk = p.bytes 5
    at (suc k) hk =
        p.bytes (5 + suc k)
        ∙ (ground arith
            ∙ (ap (λ i. byte_at c'.buffer (i + suc k)) (sym start)
                ∙ (l.inside (suc k) (omega (arith, length-message p1 (byte_at c.buffer 57) a))
                    ∙ message-suc p1 (byte_at c.buffer 57) k)))

finish :
    (p1 : Processor) (data_buffer buffer : Bytes) (switch_text controller_text : Output)
    (w : Written p1 (record { buffer = buffer; i = 5; output = switch_text ++ controller_text }))
    (r : Bytes × Output)
    → print_switch (some p1.swt) ≡ some switch_text
    → print_controller (some p1.con) ≡ some controller_text
    → close_message w.c₄ ≡ some r
    → generate_openflow_packet_in p1 data_buffer buffer ≡ some r
unfolding generate_openflow_packet_in
finish p1 data_buffer buffer switch_text controller_text w r s c e =
    rw (s, c, w.frame, w.tcp, w.checksum, w.openflow) e

-- If the addresses and ports of the controller and of the switch have their bytes and the buffer has
-- 78 bytes at least, then `generate_openflow_packet_in` ends without a fault, for any packet. It
-- leaves the message of 72 bytes from the index 5 on: the length 72, the Ethernet, IP and TCP
-- headers with the addresses of the controller and of the switch, two zeros and the OpenFlow packet-in. The
-- second byte of the TCP checksum is what the buffer held. The bytes before and after stay.
pub generate_openflow_packet_in_lem :
    (p1 : Processor) (data_buffer packet_in_data_buffer : Bytes)
    → IsAddressed p1
    → 78 ≤ length packet_in_data_buffer
    → Returns
        (λ r. IsMessage p1 packet_in_data_buffer (r.0))
        (generate_openflow_packet_in p1 data_buffer packet_in_data_buffer)
generate_openflow_packet_in_lem p1 data_buffer buffer a room =
    let (switch_text, s) = print_switch-Runs p1 a in
    let (controller_text, c) = print_controller-Runs p1 a in
    let start : Cursor = record {
      buffer = buffer;
      i = 5;
      output = switch_text ++ controller_text;
    } in
    let w = write_all p1 start a refl room in
    let (r, e, p) = close_message_lem w.c₄ w.end (omega (arith, w.whole.size)) in
    (
      r,
      finish p1 data_buffer buffer switch_text controller_text w r s c e,
      closed p1 start w.c₄ (r.0) a refl w.whole p,
    )

-- ===== src/Capture/Deliver.antt =====
-- The way of packets from the capture through the packet buffer: each is loaded, read by the
-- pre-processor, and read by the forwarding path before the next is loaded.
use mathlib.Core.List.{append-nil}
use net_walk.Base.{
  ℕ, suc, ◌+◌, ◌%◌, ◌≤◌, ◌<◌, ◌≡◌, refl, sym, ap, ◌∙◌, Option, some, arith, Bytes, ◌>>=◌, length,
  length-append, length-take, take, drop, List, [], ◌∷◌, ◌++◌, Returns,
}
use net_walk.PacketBuffer.{
  PacketBuffer, initialize_packet_buffer, read_a_packet, read_a_packet_for_preprocessing,
}
use net_walk.PacketBuffer.Valid.{IsValid, contents, count, length-contents, wrap}
use net_walk.PacketBuffer.Read.{Seen, read_a_packet_lem, read_a_packet_for_preprocessing_lem}
use net_walk.PacketBuffer.Fill.{initialized}
use net_walk.Capture.{Packet, load_a_packet_to_the_packet_buffer}
use net_walk.Capture.Load.{Loaded, frame, Fits, load_a_packet_lem}

-- Open, with an empty queue and nothing read ahead.
pub record IsIdle (pb : PacketBuffer) : Type 0 where
  pub valid : IsValid pb
  pub queue : contents pb ≡ []
  pub is_open : pb.buffer_full_flag ≡ 0
  pub reading : Seen pb 0

module _ (ingress_port metadata pk : Bytes) where
  -- The two results are the readers' arrays. Both arrays hold `pk` before.
  unfoldable pub read_twice : PacketBuffer → Option (PacketBuffer × (Bytes × Bytes))
  read_twice pb = do
    (pb₁, seen) ← read_a_packet_for_preprocessing pb pk
    (pb₂, forwarded) ← read_a_packet pb₁ pk
    some (pb₂, (seen, forwarded))

  unfoldable pub deliver : Packet → PacketBuffer → Option (PacketBuffer × (Bytes × Bytes))
  deliver pkt pb =
      load_a_packet_to_the_packet_buffer pkt pb ingress_port metadata >>= λ pb'. read_twice pb'

  unfoldable pub deliver_all :
      List Packet → PacketBuffer → Option (PacketBuffer × List (Bytes × Bytes))
  deliver_all [] pb = some (pb, [])
  deliver_all (pkt ∷ packets) pb = do
    (pb₁, arrays) ← deliver pkt pb
    (pb₂, others) ← deliver_all packets pb₁
    some (pb₂, arrays ∷ others)

  -- The packets were captured whole, and the length byte can count each.
  pub data AreShort : List Packet → Type 0 where
    no_packet : AreShort []
    one_more :
        {pkt : Packet} {packets : List Packet}
        → Fits pkt ingress_port metadata
        → pkt.len ≡ pkt.caplen
        → pkt.caplen + 12 < 256
        → AreShort packets
        → AreShort (pkt ∷ packets)

  -- The array after the frame of a packet was read into it.
  unfoldable pub holds : Packet → Bytes
  holds pkt = frame pkt ingress_port metadata ++ drop (pkt.caplen + 13) pk

  unfoldable pub both_hold : List Packet → List (Bytes × Bytes)
  both_hold [] = []
  both_hold (pkt ∷ packets) = (holds pkt, holds pkt) ∷ both_hold packets

  -- The bytes of the frame behind the length byte.
  abbrev body : Packet → List ℕ
  body pkt = take 4 ingress_port ++ take 8 metadata ++ take pkt.caplen pkt.pkt_data

  length-body :
      (pkt : Packet) → Fits pkt ingress_port metadata → length (body pkt) ≡ pkt.caplen + 12
  length-body pkt f = omega (
    arith,
    f.port,
    f.meta,
    f.caplen,
    length-append (take 4 ingress_port ++ take 8 metadata) (take pkt.caplen pkt.pkt_data),
    length-append (take 4 ingress_port) (take 8 metadata),
    length-take 4 ingress_port,
    length-take 8 metadata,
    length-take pkt.caplen pkt.pkt_data,
  )

  frame_lem :
      (pkt : Packet)
      → pkt.len ≡ pkt.caplen
      → pkt.caplen + 12 < 256
      → frame pkt ingress_port metadata ≡ (pkt.caplen + 12) ∷ body pkt
  unfolding frame
  frame_lem pkt e small = let n : (pkt.len + 12) % 256 ≡ pkt.caplen + 12 = omega arith in rw n refl

  -- The two readers, on a queue of one frame.
  both_read :
      (n : ℕ) (bytes : List ℕ) (pb : PacketBuffer)
      → IsValid pb
      → contents pb ≡ n ∷ bytes
      → length bytes ≡ n
      → n < 256
      → 256 ≤ length pk
      → Seen pb 0
      → pb.buffer_full_flag ≡ 0
      → Returns
          (λ r.
            IsIdle r.0 × (r.1 ≡ ((n ∷ bytes) ++ drop (suc n) pk, (n ∷ bytes) ++ drop (suc n) pk)))
          (read_twice pb)
  unfolding read_twice
  both_read n bytes pb v q size small long seen is_open =
      let whole : contents pb ≡ (n ∷ bytes) ++ [] = q ∙ sym (append-nil (n ∷ bytes)) in
      let (pb₂, look, v₂, q₂, s₂, o₂) =
        read_a_packet_for_preprocessing_lem pb n [] bytes [] pk v whole size (omega arith) seen in
      let (pb₃, take_off, v₃, q₃, s₃, o₃) =
        read_a_packet_lem pb₂ n bytes [] pk 0 v₂ (q₂ ∙ whole) size (omega arith)
          (s₂ ∙ ap (wrap pb₂.packet_buffer_head) (omega arith)) (omega arith) in
      (
        _,
        rw (look, take_off) refl,
        (record { valid = v₃; queue = q₃; is_open = o₃ ∙ (o₂ ∙ is_open); reading = s₃ }, refl),
      )

  holds_lem :
      (pkt : Packet)
      → pkt.len ≡ pkt.caplen
      → pkt.caplen + 12 < 256
      → ((pkt.caplen + 12) ∷ body pkt) ++ drop (suc (pkt.caplen + 12)) pk ≡ holds pkt
  unfolding holds
  holds_lem pkt e small =
      let n : suc (pkt.caplen + 12) ≡ pkt.caplen + 13 = omega arith in
      rw (n, frame_lem pkt e small) refl

  read_twice_lem :
      (pkt : Packet) (pb pb₁ : PacketBuffer)
      → Fits pkt ingress_port metadata
      → pkt.len ≡ pkt.caplen
      → pkt.caplen + 12 < 256
      → 256 ≤ length pk
      → IsIdle pb
      → count pb ≡ 0
      → Loaded pb (frame pkt ingress_port metadata) pb₁
      → Returns (λ r. IsIdle r.0 × (r.1 ≡ (holds pkt, holds pkt))) (read_twice pb₁)
  read_twice_lem pkt pb pb₁ f e small long idle none_yet l =
      let w = frame_lem pkt e small in
      let size : length (frame pkt ingress_port metadata) ≡ pkt.caplen + 13 =
        ap length w ∙ omega (arith, length-body pkt f) in
      let (r, run, (idle', h)) =
        both_read (pkt.caplen + 12) (body pkt) pb₁ l.valid
          (l.queue ∙ (ap (λ xs. xs ++ frame pkt ingress_port metadata) idle.queue ∙ w))
          (length-body pkt f) small long
          (l.reading ∙ (idle.reading ∙ ap (λ h. wrap h 0) (sym l.head)))
          (l.still_open (omega (arith, none_yet, size))) in
      (r, run, (idle', h ∙ ap (λ a. (a, a)) (holds_lem pkt e small)))

  deliver_lem :
      (pkt : Packet) (pb : PacketBuffer)
      → Fits pkt ingress_port metadata
      → pkt.len ≡ pkt.caplen
      → pkt.caplen + 12 < 256
      → 256 ≤ length pk
      → IsIdle pb
      → Returns (λ r. IsIdle r.0 × (r.1 ≡ (holds pkt, holds pkt))) (deliver pkt pb)
  unfolding deliver
  deliver_lem pkt pb f e small long idle =
      let none_yet : count pb ≡ 0 = sym (length-contents pb) ∙ ap length idle.queue in
      let (pb₁, load, l) =
        load_a_packet_lem pkt ingress_port metadata pb idle.valid f idle.is_open
          (omega (arith, none_yet)) in
      let (r, run, p) = read_twice_lem pkt pb pb₁ f e small long idle none_yet l in
      (r, rw load run, p)

  delivers :
      (packets : List Packet) (pb : PacketBuffer)
      → AreShort packets
      → 256 ≤ length pk
      → IsIdle pb
      → Returns (λ r. IsIdle r.0 × (r.1 ≡ both_hold packets)) (deliver_all packets pb)
  unfolding deliver_all both_hold
  delivers [] pb no_packet long idle = ((pb, []), refl, (idle, refl))
  delivers (pkt ∷ packets) pb (one_more f e small short) long idle =
      let (r, run, (idle₁, h)) = deliver_lem pkt pb f e small long idle in
      let (r', rest, (idle₂, h')) = delivers packets r.0 short long idle₁ in
      ((r'.0, r.1 ∷ r'.1), rw (run, rest) refl, (idle₂, rw (h, h') refl))

  -- After `initialize_packet_buffer` of a buffer whose array has a thousand bytes, any list of packets
  -- passes through the buffer, where each is loaded, read with `read_a_packet_for_preprocessing` and
  -- read with `read_a_packet` before the next is loaded. If every packet was captured whole, has at
  -- most 243 bytes and fits its array, the ingress port has at least 4 bytes, the metadata at least 8
  -- and the readers' array at least 256, then nothing faults; both readers get the frame of each
  -- packet, in order, in front of the rest of their array; and the buffer is left open and valid, with
  -- an empty queue and nothing read ahead.
  pub deliver_all_lem :
      (packets : List Packet) (pb : PacketBuffer)
      → AreShort packets
      → 256 ≤ length pk
      → length pb.packet_buffer ≡ 1000
      → Returns
          (λ r. IsIdle r.0 × (r.1 ≡ both_hold packets))
          (deliver_all packets (initialize_packet_buffer pb))
  unfolding initialize_packet_buffer
  deliver_all_lem packets pb short long size =
      let f = initialized pb size in
      delivers packets (initialize_packet_buffer pb) short long
        (record { valid = f.valid; queue = f.queue; is_open = f.closed; reading = ground arith })

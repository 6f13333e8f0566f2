-- ===== src/Capture/Load.antt =====
-- The frame of a packet, and that loading puts it behind the queue of the packet buffer.
use mathlib.Core.List.{append_assoc, append-nil}
use net_walk.Base.{
  ℕ, zero, suc, ◌+◌, ◌-◌, ◌%◌, ◌≤◌, ◌<◌, ◌≡◌, refl, sym, ap, ◌∙◌, some, arith, Bytes, ◌>>=◌, load,
  load_in, for_range, byte_at, length, length-append, length-take, take-drop, take, drop, List, [],
  ◌∷◌, ◌++◌, Returns,
}
use net_walk.PacketBuffer.{PacketBuffer, add_a_byte_to_the_packet_buffer}
use net_walk.PacketBuffer.Valid.{IsValid, contents, count, length-contents, add_a_byte_lem}
use net_walk.Capture.{Packet, add_bytes, load_a_packet_to_the_packet_buffer}

-- `pb'` is the open buffer `pb` with these bytes added, and nothing read.
pub record Loaded (pb : PacketBuffer) (xs : List ℕ) (pb' : PacketBuffer) : Type 0 where
  pub valid : IsValid pb'
  pub queue : contents pb' ≡ contents pb ++ xs
  pub still_open : count pb + length xs < 1000 → pb'.buffer_full_flag ≡ 0
  pub reading : pb'.buffer_reading_head ≡ pb.buffer_reading_head
  pub head : pb'.packet_buffer_head ≡ pb.packet_buffer_head

Loaded-count :
    {pb : PacketBuffer} {xs : List ℕ} {pb' : PacketBuffer}
    → Loaded pb xs pb'
    → count pb' ≡ count pb + length xs
Loaded-count {pb} {xs} {pb'} l =
    sym (length-contents pb')
    ∙ (ap length l.queue
        ∙ (length-append (contents pb) xs ∙ ap (λ n. n + length xs) (length-contents pb)))

Loaded-trans :
    {pb₁ : PacketBuffer} {xs : List ℕ} {pb₂ : PacketBuffer} {ys : List ℕ} {pb₃ : PacketBuffer}
    → Loaded pb₁ xs pb₂
    → Loaded pb₂ ys pb₃
    → Loaded pb₁ (xs ++ ys) pb₃
Loaded-trans {pb₁} {xs} {pb₂} {ys} {pb₃} l m = record {
  valid = m.valid;
  queue = m.queue ∙ (ap (λ q. q ++ ys) l.queue ∙ append_assoc (contents pb₁) xs ys);
  still_open = λ h. m.still_open (omega (arith, Loaded-count l, length-append xs ys));
  reading = m.reading ∙ l.reading;
  head = m.head ∙ l.head;
}

add_one :
    (pb : PacketBuffer) (x : ℕ)
    → IsValid pb
    → pb.buffer_full_flag ≡ 0
    → Returns (Loaded pb (x ∷ [])) (add_a_byte_to_the_packet_buffer pb x)
add_one pb x v o =
    let (pb', run, a) = add_a_byte_lem pb x v in
    (
      pb',
      run,
      record {
        valid = a.valid;
        queue = ground (arith, a.queue);
        still_open = λ h. ground (arith, a.closed);
        reading = a.reading;
        head = a.head;
      },
    )

-- A loop that adds `n` bytes of an array from index `i` on.
add_loop :
    (src : Bytes) (n i : ℕ) (pb : PacketBuffer)
    → IsValid pb
    → (count pb < 1000 → pb.buffer_full_flag ≡ 0)
    → count pb + n ≤ 1000
    → i + n ≤ length src
    → Returns
        (Loaded pb (take n (drop i src)))
        (for_range n i (λ i pb'. do byte ← load src i; add_a_byte_to_the_packet_buffer pb' byte) pb)
unfolding for_range
add_loop src zero i pb v o room fits = (
  pb,
  refl,
  record {
    valid = v;
    queue = sym (append-nil (contents pb));
    still_open = λ h. o (omega arith);
    reading = refl;
    head = refl;
  },
)
add_loop src (suc n) i pb v o room fits =
    let (pb₁, run, l) = add_one pb (byte_at src i) v (o (omega arith)) in
    let c = Loaded-count l in
    let o₁ : count pb₁ < 1000 → pb₁.buffer_full_flag ≡ 0 = λ h. l.still_open (omega arith) in
    let (pb₂, runs, m) = add_loop src n (i + 1) pb₁ l.valid o₁ (omega arith) (omega arith) in
    (
      pb₂,
      rw (load_in src i (omega arith), run) runs,
      rw (take-drop src i n (omega arith)) (Loaded-trans l m),
    )

-- The loop behind bytes that were loaded already.
add_bytes_after :
    {pb : PacketBuffer} {xs : List ℕ} {pb₁ : PacketBuffer} (src : Bytes) (n : ℕ)
    → Loaded pb xs pb₁
    → count pb + length xs + n ≤ 1000
    → n ≤ length src
    → (pb₂ : PacketBuffer) × (add_bytes n src pb₁ ≡ some pb₂)
      × Loaded pb (xs ++ take n src) pb₂
      × (count pb₂ ≡ count pb + length xs + n)
add_bytes_after src n l room fits =
    let c = Loaded-count l in
    let (pb₂, run, m) =
      add_loop src n 0 _ l.valid (λ h. l.still_open (omega arith)) (omega arith) (omega arith) in
    (pb₂, run, Loaded-trans l m, omega (arith, Loaded-count m, length-take n src))

module _ (pkt : Packet) (ingress_port metadata : Bytes) where
  -- The bytes that are queued for a packet.
  unfoldable pub frame : List ℕ
  frame =
      ((pkt.len + 12) % 256 ∷ take 4 ingress_port)
      ++ take 8 metadata
      ++ take pkt.caplen pkt.pkt_data

  -- The arrays are as long as the loops read them.
  pub record Fits : Type 0 where
    pub port : 4 ≤ length ingress_port
    pub meta : 8 ≤ length metadata
    pub caplen : pkt.caplen ≤ length pkt.pkt_data
    pub small : pkt.caplen < 4294967295

  -- Into an open, valid buffer with room for the packet's frame,
  -- `load_a_packet_to_the_packet_buffer` puts exactly the frame behind what was queued: the length
  -- byte `len + 12` modulo 256, 4 bytes of ingress port, 8 of metadata, and the captured bytes. The
  -- buffer stays valid, nothing is read, and it stays open unless the frame fills it.
  pub load_a_packet_lem :
      (pb : PacketBuffer)
      → IsValid pb
      → Fits
      → pb.buffer_full_flag ≡ 0
      → count pb + (pkt.caplen + 13) ≤ 1000
      → Returns (Loaded pb frame) (load_a_packet_to_the_packet_buffer pkt pb ingress_port metadata)
  unfolding load_a_packet_to_the_packet_buffer frame
  load_a_packet_lem pb v f o room =
      let (pb₁, run₁, l₁) = add_one pb ((pkt.len + 12) % 256) v o in
      let (pb₂, run₂, l₂, _) = add_bytes_after ingress_port 4 l₁ (omega arith) f.port in
      let (pb₃, run₃, l₃, _) =
        add_bytes_after metadata 8 l₂ (omega (arith, length-take 4 ingress_port)) f.meta in
      let (pb₄, run₄, l₄, _) =
        add_bytes_after pkt.pkt_data pkt.caplen l₃
          (omega (
            arith,
            length-take 4 ingress_port,
            length-take 8 metadata,
            length-append (((pkt.len + 12) % 256 ∷ []) ++ take 4 ingress_port) (take 8 metadata),
          ))
          f.caplen in
      let rounds : (pkt.caplen + 1) % 4294967296 - 1 ≡ pkt.caplen = omega (arith, f.small) in
      (pb₄, rw (rounds, run₁, run₂, run₃) run₄, l₄)

-- ===== src/PreProcessor/Collect.antt =====
-- The whole match field of a packet, for each of the four branches on its ether type.
use mathlib.Core.Path.{subst₂}
use net_walk.Base.{
  ℕ, ◌+◌, ◌*◌, ◌≤◌, ◌<◌, ◌≡◌, ◌∙◌, refl, some, arith, Bytes, byte_at, load, load_in, length,
  Returns,
}
use net_walk.Bits.Laws.{bit_at}
use net_walk.PreProcessor.{
  Cursor, link_fields, tag_fields, plain_fields, vlan_fields, mpls_fields, transport_fields,
  collect_fields,
}
use net_walk.PreProcessor.Fields.{
  FromPacket, Ones, SameOutside, IsField, IsLinked, link_fields_lem, Transport,
  transport_fields_lem,
}
use net_walk.PreProcessor.Tagged.{IsTagged, plain_fields_lem, vlan_fields_lem, mpls_fields_lem}

-- The match field of a packet, where the type of service was read at `p` of the packet and the IPv4
-- fields start at `m` of the match field: every one of its parts, and the bits that stay as they
-- were in the array that `malloc` handed out.
pub record Collected (tags : Bytes → Type 0) (pkt : Bytes) (p m : ℕ) (mf out : Bytes) : Type 0 where
  pub size : length out ≡ 45
  pub ingress_port_metadata : FromPacket pkt 8 out 0 96
  pub mac_src : FromPacket pkt 152 out 96 48
  pub mac_dst : FromPacket pkt 104 out 144 48
  pub eth_typ : FromPacket pkt 200 out 192 16
  pub tag : tags out
  pub ipv4_src : FromPacket pkt (p + 86) out m 32
  pub ipv4_dst : FromPacket pkt (p + 118) out (m + 32) 32
  pub ipv4_protocol : FromPacket pkt (p + 62) out (m + 64) 8
  pub ipv4_tos : FromPacket pkt p out (m + 72) 6
  pub tcp_src : FromPacket pkt (p + 150) out (m + 78) 16
  pub tcp_dst : FromPacket pkt (p + 166) out (m + 94) 16
  pub stale : (q : ℕ) → m + 110 ≤ q → bit_at out q ≡ bit_at mf q

FromPacket-kept :
    (pkt : Bytes) (p : ℕ) (mf : Bytes) (m n : ℕ) {a b : ℕ} (out : Bytes)
    → FromPacket pkt p mf m n
    → SameOutside a b mf out
    → m + n ≤ a
    → FromPacket pkt p out m n
FromPacket-kept pkt p mf m n out f s h = λ i hi. s (m + i) (omega arith) ∙ f i hi

Ones-kept :
    (mf : Bytes) (m n : ℕ) {a b : ℕ} (out : Bytes)
    → Ones mf m n
    → SameOutside a b mf out
    → m + n ≤ a
    → Ones out m n
Ones-kept mf m n out f s h = λ i hi. s (m + i) (omega arith) ∙ f i hi

-- The parts put together: `p` and `m` are where the IPv4 fields start in the packet and in the
-- match field.
module _ (tags : Bytes → Type 0) (pkt mf : Bytes) (p₀ m₀ n p m : ℕ) (from : p ≡ p₀ + n + 8)
    (to : m ≡ m₀ + n) (low : 208 ≤ m) (high : m ≤ 246) (room : p + 182 ≤ 8 * length pkt)
    (carry : (a b : Bytes) → SameOutside m (m + 110) a b → tags a → tags b) where
  finish :
      (c c' : Cursor)
      → IsLinked pkt mf c
      → IsTagged tags c.match_field p₀ m₀ n c'
      → Returns (Collected tags pkt p m mf) (transport_fields pkt c')
  finish c c' l t =
      let e : c'.pkt_length + c'.no_of_bits_inserting + 8 ≡ p =
        omega (arith, t.pkt_length, t.bits) in
      let d : c'.mf_length + c'.no_of_bits_inserting ≡ m = omega (arith, t.mf_length, t.bits) in
      let (out, run, w) = transport_fields_lem pkt c' t.field (omega arith) (omega arith) in
      let x : Transport pkt p m c'.match_field out =
        subst₂ (λ p' m'. Transport pkt p' m' c'.match_field out) e d w in
      (out, run, collected c c' out l t x)
    where
      collected :
          (c c' : Cursor) (out : Bytes)
          → IsLinked pkt mf c
          → IsTagged tags c.match_field p₀ m₀ n c'
          → Transport pkt p m c'.match_field out
          → Collected tags pkt p m mf out
      collected c c' out l t x = record {
        size = x.field.size;
        ingress_port_metadata =
            FromPacket-kept pkt 8 c'.match_field 0 96 out
              (FromPacket-kept pkt 8 c.match_field 0 96 c'.match_field l.link.ingress_port_metadata
                t.kept (omega arith))
              x.kept (omega arith);
        mac_src =
            FromPacket-kept pkt 152 c'.match_field 96 48 out
              (FromPacket-kept pkt 152 c.match_field 96 48 c'.match_field l.link.mac_src t.kept
                (omega arith))
              x.kept (omega arith);
        mac_dst =
            FromPacket-kept pkt 104 c'.match_field 144 48 out
              (FromPacket-kept pkt 104 c.match_field 144 48 c'.match_field l.link.mac_dst t.kept
                (omega arith))
              x.kept (omega arith);
        eth_typ =
            FromPacket-kept pkt 200 c'.match_field 192 16 out
              (FromPacket-kept pkt 200 c.match_field 192 16 c'.match_field l.link.eth_typ t.kept
                (omega arith))
              x.kept (omega arith);
        tag = carry c'.match_field out x.kept t.tag;
        ipv4_src = x.ipv4_src;
        ipv4_dst = x.ipv4_dst;
        ipv4_protocol = x.ipv4_protocol;
        ipv4_tos = x.ipv4_tos;
        tcp_src = x.tcp_src;
        tcp_dst = x.tcp_dst;
        stale =
            λ q h. x.kept q (omega arith) ∙ (t.kept q (omega arith) ∙ l.link.kept q (omega arith));
      }

module _ (pkt mf : Bytes) (size : 100 ≤ length pkt) (v : IsField mf) where
  byte_lem : (i : ℕ) → i < 100 → load pkt i ≡ some (byte_at pkt i)
  byte_lem i h = load_in pkt i (omega arith)

  tag_plain :
      (c : Cursor) → byte_at pkt 25 ≡ 8 → byte_at pkt 26 ≡ 0 → tag_fields pkt c ≡ plain_fields c
  unfolding tag_fields
  tag_plain c hi lo = rw (byte_lem 25 (omega arith), byte_lem 26 (omega arith), hi, lo)

  tag_vlan :
      (c : Cursor)
      → byte_at pkt 25 ≡ 129
      → byte_at pkt 26 ≡ 0
      → tag_fields pkt c ≡ vlan_fields pkt c
  unfolding tag_fields
  tag_vlan c hi lo = rw (byte_lem 25 (omega arith), byte_lem 26 (omega arith), hi, lo)

  tag_mpls :
      (c : Cursor)
      → byte_at pkt 25 ≡ 136
      → byte_at pkt 26 ≡ 71
      → tag_fields pkt c ≡ mpls_fields pkt c
  unfolding tag_fields
  tag_mpls c hi lo = rw (byte_lem 25 (omega arith), byte_lem 26 (omega arith), hi, lo)

  tag_other :
      (c : Cursor)
      → ¬ ((byte_at pkt 25 ≡ 8) × (byte_at pkt 26 ≡ 0))
      → ¬ ((byte_at pkt 25 ≡ 129) × (byte_at pkt 26 ≡ 0))
      → ¬ ((byte_at pkt 25 ≡ 136) × (byte_at pkt 26 ≡ 71))
      → tag_fields pkt c ≡ some c
  unfolding tag_fields
  tag_other c a b d = rw (byte_lem 25 (omega arith), byte_lem 26 (omega arith)) (ground arith)

  in_turn :
      {c c' : Cursor} {out : Bytes}
      → link_fields pkt mf ≡ some c
      → tag_fields pkt c ≡ some c'
      → transport_fields pkt c' ≡ some out
      → collect_fields pkt mf ≡ some out
  unfolding collect_fields
  in_turn r r' run = rw (r, r', run)

  -- For a packet of at least 100 bytes with ether type 0x0800 and a match field of 45 bytes,
  -- `collect_fields` ends without a fault. The first 208 bits are the ingress port and metadata,
  -- the MAC addresses with the source first, and the ether type. The VLAN and MPLS bits are ones,
  -- and the IPv4 and TCP fields are those that follow a type of service at bit 246 of the packet.
  -- The bits from 356 on stay as they were.
  pub collect_fields_plain :
      byte_at pkt 25 ≡ 8
      → byte_at pkt 26 ≡ 0
      → Returns (Collected (λ out. Ones out 208 38) pkt 246 246 mf) (collect_fields pkt mf)
  collect_fields_plain hi lo =
      let (c, r, l) = link_fields_lem pkt mf v (omega arith) in
      let (c', r', t) = plain_fields_lem pkt mf (omega arith) l in
      let (out, run, w) =
        finish (λ out. Ones out 208 38) pkt mf 200 208 38 246 246 refl refl (omega arith)
          (omega arith) (omega arith) (λ a b k o. Ones-kept a 208 38 b o k (omega arith)) c c' l
          t in
      (out, in_turn r (tag_plain c hi lo ∙ r') run, w)

  -- For a packet of at least 100 bytes with ether type 0x8100 and a match field of 45 bytes,
  -- `collect_fields` ends without a fault. The first 208 bits are the ingress port and metadata,
  -- the MAC addresses with the source first, and the ether type. The VLAN id and priority are read
  -- at bits 236 and 232 of the packet, the MPLS bits are ones, and the IPv4 and TCP fields are
  -- those that follow a type of service at bit 267. The bits from 356 on stay as they were.
  pub collect_fields_vlan :
      byte_at pkt 25 ≡ 129
      → byte_at pkt 26 ≡ 0
      → Returns
          (Collected
            (λ out. FromPacket pkt 236 out 208 12 × FromPacket pkt 232 out 220 3 × Ones out 223 23)
            pkt
            267
            246
            mf)
          (collect_fields pkt mf)
  collect_fields_vlan hi lo =
      let (c, r, l) = link_fields_lem pkt mf v (omega arith) in
      let (c', r', t) = vlan_fields_lem pkt mf (omega arith) l in
      let (out, run, w) =
        finish
          (λ out. FromPacket pkt 236 out 208 12 × FromPacket pkt 232 out 220 3 × Ones out 223 23)
          pkt mf 236 223 23 267 246 refl refl (omega arith) (omega arith) (omega arith)
          (λ a b k o. (
            FromPacket-kept pkt 236 a 208 12 b o.0 k (omega arith),
            FromPacket-kept pkt 232 a 220 3 b o.1 k (omega arith),
            Ones-kept a 223 23 b o.2 k (omega arith),
          ))
          c c' l t in
      (out, in_turn r (tag_vlan c hi lo ∙ r') run, w)

  -- For a packet of at least 100 bytes with ether type 0x8847 and a match field of 45 bytes,
  -- `collect_fields` ends without a fault. The first 208 bits are the ingress port and metadata,
  -- the MAC addresses with the source first, and the ether type. The VLAN bits are ones, the MPLS
  -- label and traffic class are read at bit 215 of the packet, and the IPv4 and TCP fields are
  -- those that follow a type of service at bit 255. The bits from 356 on stay as they were.
  pub collect_fields_mpls :
      byte_at pkt 25 ≡ 136
      → byte_at pkt 26 ≡ 71
      → Returns
          (Collected (λ out. Ones out 208 15 × FromPacket pkt 215 out 223 23) pkt 255 246 mf)
          (collect_fields pkt mf)
  collect_fields_mpls hi lo =
      let (c, r, l) = link_fields_lem pkt mf v (omega arith) in
      let (c', r', t) = mpls_fields_lem pkt mf (omega arith) l in
      let (out, run, w) =
        finish (λ out. Ones out 208 15 × FromPacket pkt 215 out 223 23) pkt mf 224 223 23 255 246
          refl refl (omega arith) (omega arith) (omega arith)
          (λ a b k o. (
            Ones-kept a 208 15 b o.0 k (omega arith),
            FromPacket-kept pkt 215 a 223 23 b o.1 k (omega arith),
          ))
          c c' l t in
      (out, in_turn r (tag_mpls c hi lo ∙ r') run, w)

  -- For a packet of at least 100 bytes with any other ether type and a match field of 45 bytes,
  -- `collect_fields` ends without a fault. The first 208 bits are the ingress port and metadata,
  -- the MAC addresses with the source first, and the ether type. No VLAN or MPLS field is written:
  -- the IPv4 and TCP fields, those that follow a type of service at bit 224 of the packet, start
  -- at bit 208 of the match field. The bits from 318 on stay as they were.
  pub collect_fields_other :
      ¬ ((byte_at pkt 25 ≡ 8) × (byte_at pkt 26 ≡ 0))
      → ¬ ((byte_at pkt 25 ≡ 129) × (byte_at pkt 26 ≡ 0))
      → ¬ ((byte_at pkt 25 ≡ 136) × (byte_at pkt 26 ≡ 71))
      → Returns (Collected (λ _. Unit {0}) pkt 224 208 mf) (collect_fields pkt mf)
  collect_fields_other a b d =
      let (c, r, l) = link_fields_lem pkt mf v (omega arith) in
      let t : IsTagged (λ _. Unit {0}) c.match_field 200 192 16 c = record {
        field = l.field;
        tag = tt;
        kept = λ q h. refl;
        pkt_length = l.pkt_length;
        mf_length = l.mf_length;
        bits = l.bits;
      } in
      let (out, run, w) =
        finish (λ _. Unit {0}) pkt mf 200 192 16 224 208 refl refl (omega arith) (omega arith)
          (omega arith) (λ _ _ _ o. o) c c l t in
      (out, in_turn r (tag_other c a b d) run, w)

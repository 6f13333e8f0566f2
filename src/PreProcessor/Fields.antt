-- ===== src/PreProcessor/Fields.antt =====
-- Where the bits of a match field come from, part by part of `prepare_match_field`.
use net_walk.Base.{
  ℕ, ◌+◌, ◌-◌, ◌*◌, ◌≤◌, ◌<◌, ◌≡◌, ◌⊎◌, ◌∙◌, ap, refl, arith, Bytes, AllBytes, length, Returns,
}
use net_walk.Bits.Laws.{bit_at}
use net_walk.Bits.Copy.{Copied, Filled, Filled-in, Filled-out}
use net_walk.PreProcessor.{
  Cursor, set_match_field_bits, set_match_field_bits_as_zeros, link_fields, transport_fields,
}
use net_walk.PreProcessor.Segment.{set_match_field_bits_lem, set_match_field_bits_as_zeros_lem}

-- The `n` bits of `mf` from `m` on are those of `pkt` from `p` on.
abbrev pub FromPacket : Bytes → ℕ → Bytes → ℕ → ℕ → Type 0
FromPacket pkt p mf m n = (i : ℕ) → i < n → bit_at mf (m + i) ≡ bit_at pkt (p + i)

-- The `n` bits of `mf` from `m` on are ones.
abbrev pub Ones : Bytes → ℕ → ℕ → Type 0
Ones mf m n = (i : ℕ) → i < n → bit_at mf (m + i) ≡ 1

-- The bits below `m` and from `m'` on are the same in both.
abbrev pub SameOutside : ℕ → ℕ → Bytes → Bytes → Type 0
SameOutside m m' mf mf' = (q : ℕ) → (q < m) ⊎ (m' ≤ q) → bit_at mf' q ≡ bit_at mf q

-- A match field: 45 bytes.
pub record IsField (mf : Bytes) : Type 0 where
  pub size : length mf ≡ 45
  pub bytes : AllBytes mf

pub Filled-IsField :
    {f : ℕ → ℕ} {mf : Bytes} {m n : ℕ} {mf' : Bytes}
    → IsField mf
    → Filled f mf m n mf'
    → IsField mf'
Filled-IsField v c = record { size = c.size ∙ v.size; bytes = c.bytes }

-- One copied run.
pub copy_run :
    (pkt mf : Bytes) (p m n : ℕ)
    → IsField mf
    → p + n ≤ 8 * length pkt
    → m + n ≤ 360
    → Returns (λ mf'. IsField mf' × Copied pkt p mf m n mf') (set_match_field_bits pkt mf p m n)
copy_run pkt mf p m n v hp hm =
    let (mf', run, c) = set_match_field_bits_lem pkt mf p m n v.bytes hp (omega (arith, v.size)) in
    (mf', run, (Filled-IsField v c, c))

-- One run of ones.
pub ones_run :
    (mf : Bytes) (m n : ℕ)
    → IsField mf
    → m + n ≤ 360
    → Returns
        (λ mf'. IsField mf' × Filled (λ _. 1) mf m n mf')
        (set_match_field_bits_as_zeros mf m n)
ones_run mf m n v hm =
    let (mf', run, c) = set_match_field_bits_as_zeros_lem mf m n v.bytes (omega (arith, v.size)) in
    (mf', run, (Filled-IsField v c, c))

-- The fields that `transport_fields` writes, behind the place `m` of the match field, when it
-- reads the type of service at the place `p` of the packet.
pub record Transport (pkt : Bytes) (p m : ℕ) (mf mf' : Bytes) : Type 0 where
  pub field : IsField mf'
  pub ipv4_src : FromPacket pkt (p + 86) mf' m 32
  pub ipv4_dst : FromPacket pkt (p + 118) mf' (m + 32) 32
  pub ipv4_protocol : FromPacket pkt (p + 62) mf' (m + 64) 8
  pub ipv4_tos : FromPacket pkt p mf' (m + 72) 6
  pub tcp_src : FromPacket pkt (p + 150) mf' (m + 78) 16
  pub tcp_dst : FromPacket pkt (p + 166) mf' (m + 94) 16
  pub kept : SameOutside m (m + 110) mf mf'

pub transport_fields_lem :
    (pkt : Bytes) (c : Cursor)
    → IsField c.match_field
    → c.pkt_length + c.no_of_bits_inserting + 190 ≤ 8 * length pkt
    → c.mf_length + c.no_of_bits_inserting + 110 ≤ 360
    → Returns
        (Transport pkt
          (c.pkt_length + c.no_of_bits_inserting + 8)
          (c.mf_length + c.no_of_bits_inserting)
          c.match_field)
        (transport_fields pkt c)
unfolding transport_fields
transport_fields_lem pkt c v hp hm =
    let p : ℕ = c.pkt_length + c.no_of_bits_inserting + 8 in
    let m : ℕ = c.mf_length + c.no_of_bits_inserting in
    let (f₁, r₁, (v₁, c₁)) =
      copy_run pkt c.match_field p (m + 32 + 32 + 8) 6 v (omega arith) (omega arith) in
    let (f₂, r₂, (v₂, c₂)) =
      copy_run pkt f₁ (p + 6 + 56) (m + 32 + 32 + 8 - 8) 8 v₁ (omega arith) (omega arith) in
    let (f₃, r₃, (v₃, c₃)) =
      copy_run pkt f₂ (p + 6 + 56 + 8 + 16) (m + 32 + 32 + 8 - 8 - 32 - 32) 32 v₂ (omega arith)
        (omega arith) in
    let (f₄, r₄, (v₄, c₄)) =
      copy_run pkt f₃ (p + 6 + 56 + 8 + 16 + 32) (m + 32 + 32 + 8 - 8 - 32 - 32 + 32) 32 v₃
        (omega arith) (omega arith) in
    let (f₅, r₅, (v₅, c₅)) =
      copy_run pkt f₄ (p + 6 + 56 + 8 + 16 + 32 + 32)
        (m + 32 + 32 + 8 - 8 - 32 - 32 + 32 + 32 + 8 + 6) 16 v₄ (omega arith) (omega arith) in
    let (f₆, r₆, (v₆, c₆)) =
      copy_run pkt f₅ (p + 6 + 56 + 8 + 16 + 32 + 32 + 16)
        (m + 32 + 32 + 8 - 8 - 32 - 32 + 32 + 32 + 8 + 6 + 16) 16 v₅ (omega arith) (omega arith) in
    (
      f₆,
      rw (r₁, r₂, r₃, r₄, r₅) r₆,
      record {
        field = v₆;
        ipv4_src = λ i h.
            Filled-out c₆ (m + i) (omega arith)
            ∙ (Filled-out c₅ (m + i) (omega arith)
                ∙ (Filled-out c₄ (m + i) (omega arith)
                    ∙ (Filled-in c₃ (m + i) i h (omega arith) ∙ ap (bit_at pkt) (omega arith))));
        ipv4_dst = λ i h.
            Filled-out c₆ (m + 32 + i) (omega arith)
            ∙ (Filled-out c₅ (m + 32 + i) (omega arith)
                ∙ (Filled-in c₄ (m + 32 + i) i h (omega arith) ∙ ap (bit_at pkt) (omega arith)));
        ipv4_protocol = λ i h.
            Filled-out c₆ (m + 64 + i) (omega arith)
            ∙ (Filled-out c₅ (m + 64 + i) (omega arith)
                ∙ (Filled-out c₄ (m + 64 + i) (omega arith)
                    ∙ (Filled-out c₃ (m + 64 + i) (omega arith)
                        ∙ (Filled-in c₂ (m + 64 + i) i h (omega arith)
                            ∙ ap (bit_at pkt) (omega arith)))));
        ipv4_tos = λ i h.
            Filled-out c₆ (m + 72 + i) (omega arith)
            ∙ (Filled-out c₅ (m + 72 + i) (omega arith)
                ∙ (Filled-out c₄ (m + 72 + i) (omega arith)
                    ∙ (Filled-out c₃ (m + 72 + i) (omega arith)
                        ∙ (Filled-out c₂ (m + 72 + i) (omega arith)
                            ∙ Filled-in c₁ (m + 72 + i) i h (omega arith)))));
        tcp_src = λ i h.
            Filled-out c₆ (m + 78 + i) (omega arith)
            ∙ (Filled-in c₅ (m + 78 + i) i h (omega arith) ∙ ap (bit_at pkt) (omega arith));
        tcp_dst =
            λ i h. Filled-in c₆ (m + 94 + i) i h (omega arith) ∙ ap (bit_at pkt) (omega arith);
        kept = λ q h.
            Filled-out c₆ q (omega arith)
            ∙ (Filled-out c₅ q (omega arith)
                ∙ (Filled-out c₄ q (omega arith)
                    ∙ (Filled-out c₃ q (omega arith)
                        ∙ (Filled-out c₂ q (omega arith) ∙ Filled-out c₁ q (omega arith)))));
      },
    )

-- The fields that `link_fields` writes.
pub record Link (pkt mf mf' : Bytes) : Type 0 where
  pub ingress_port_metadata : FromPacket pkt 8 mf' 0 96
  pub mac_src : FromPacket pkt 152 mf' 96 48
  pub mac_dst : FromPacket pkt 104 mf' 144 48
  pub eth_typ : FromPacket pkt 200 mf' 192 16
  pub kept : SameOutside 0 208 mf mf'

-- Where the parts behind `link_fields` start.
pub record IsLinked (pkt mf : Bytes) (c : Cursor) : Type 0 where
  pub field : IsField c.match_field
  pub link : Link pkt mf c.match_field
  pub pkt_length : c.pkt_length ≡ 200
  pub mf_length : c.mf_length ≡ 192
  pub bits : c.no_of_bits_inserting ≡ 16

pub link_fields_lem :
    (pkt mf : Bytes)
    → IsField mf
    → 216 ≤ 8 * length pkt
    → Returns (IsLinked pkt mf) (link_fields pkt mf)
unfolding link_fields
link_fields_lem pkt mf v hp =
    let (f₁, r₁, (v₁, c₁)) = copy_run pkt mf 8 0 96 v (omega arith) (omega arith) in
    let (f₂, r₂, (v₂, c₂)) = copy_run pkt f₁ 104 144 48 v₁ (omega arith) (omega arith) in
    let (f₃, r₃, (v₃, c₃)) = copy_run pkt f₂ 152 96 48 v₂ (omega arith) (omega arith) in
    let (f₄, r₄, (v₄, c₄)) = copy_run pkt f₃ 200 192 16 v₃ (omega arith) (omega arith) in
    (
      record { match_field = f₄; pkt_length = 200; mf_length = 192; no_of_bits_inserting = 16 },
      rw (r₁, r₂, r₃, r₄),
      record {
        field = v₄;
        link = record {
          ingress_port_metadata = λ i h.
              Filled-out c₄ (0 + i) (omega arith)
              ∙ (Filled-out c₃ (0 + i) (omega arith)
                  ∙ (Filled-out c₂ (0 + i) (omega arith) ∙ Filled-in c₁ (0 + i) i h refl));
          mac_src = λ i h. Filled-out c₄ (96 + i) (omega arith) ∙ Filled-in c₃ (96 + i) i h refl;
          mac_dst = λ i h.
              Filled-out c₄ (144 + i) (omega arith)
              ∙ (Filled-out c₃ (144 + i) (omega arith) ∙ Filled-in c₂ (144 + i) i h refl);
          eth_typ = λ i h. Filled-in c₄ (192 + i) i h refl;
          kept = λ q h.
              Filled-out c₄ q (omega arith)
              ∙ (Filled-out c₃ q (omega arith)
                  ∙ (Filled-out c₂ q (omega arith) ∙ Filled-out c₁ q (omega arith)));
        };
        pkt_length = refl;
        mf_length = refl;
        bits = refl;
      },
    )

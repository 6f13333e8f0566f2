-- ===== src/PreProcessor/Tagged.antt =====
-- What the three branches on the ether type write, and where they leave off.
use net_walk.Base.{ℕ, ◌+◌, ◌≤◌, ◌≡◌, ◌∙◌, refl, arith, Bytes, length, Returns}
use net_walk.Bits.Copy.{Filled-in, Filled-out}
use net_walk.PreProcessor.{Cursor, plain_fields, vlan_fields, mpls_fields}
use net_walk.PreProcessor.Fields.{
  FromPacket, Ones, SameOutside, IsField, copy_run, ones_run, IsLinked,
}

-- What the branch on the ether type leaves: `n` bits behind place 208 stay to be skipped, and the
-- packet is read on from `p`.
pub record IsTagged (tags : Bytes → Type 0) (mf : Bytes) (p m n : ℕ) (c : Cursor) : Type 0 where
  pub field : IsField c.match_field
  pub tag : tags c.match_field
  pub kept : SameOutside 208 246 mf c.match_field
  pub pkt_length : c.pkt_length ≡ p
  pub mf_length : c.mf_length ≡ m
  pub bits : c.no_of_bits_inserting ≡ n

module _ (pkt : Bytes) (mf : Bytes) (size : 54 ≤ length pkt) {c : Cursor}
    (l : IsLinked pkt mf c) where
  pub plain_fields_lem :
      Returns (IsTagged (λ mf'. Ones mf' 208 38) c.match_field 200 208 38) (plain_fields c)
  unfolding plain_fields
  plain_fields_lem =
      let at : c.mf_length + c.no_of_bits_inserting ≡ 208 = omega (arith, l.mf_length, l.bits) in
      let (f₁, r₁, (v₁, c₁)) = ones_run c.match_field 208 38 l.field (omega arith) in
      (
        record c { match_field = f₁; mf_length = 208; no_of_bits_inserting = 38 },
        rw (at, r₁),
        record {
          field = v₁;
          tag = λ i h. Filled-in c₁ (208 + i) i h refl;
          kept = λ q h. Filled-out c₁ q h;
          pkt_length = l.pkt_length;
          mf_length = refl;
          bits = refl;
        },
      )

  pub vlan_fields_lem :
      Returns
        (IsTagged
          (λ mf'. FromPacket pkt 236 mf' 208 12 × FromPacket pkt 232 mf' 220 3 × Ones mf' 223 23)
          c.match_field
          236
          223
          23)
        (vlan_fields pkt c)
  unfolding vlan_fields
  vlan_fields_lem =
      let from : c.pkt_length + c.no_of_bits_inserting ≡ 216 =
        omega (arith, l.pkt_length, l.bits) in
      let at : c.mf_length + c.no_of_bits_inserting ≡ 208 = omega (arith, l.mf_length, l.bits) in
      let (f₁, r₁, (v₁, c₁)) =
        copy_run pkt c.match_field 232 220 3 l.field (omega arith) (omega arith) in
      let (f₂, r₂, (v₂, c₂)) = copy_run pkt f₁ 236 208 12 v₁ (omega arith) (omega arith) in
      let (f₃, r₃, (v₃, c₃)) = ones_run f₂ 223 23 v₂ (omega arith) in
      (
        record { match_field = f₃; pkt_length = 236; mf_length = 223; no_of_bits_inserting = 23 },
        rw (from, at, r₁, r₂, r₃),
        record {
          field = v₃;
          tag = (
            λ i h. Filled-out c₃ (208 + i) (omega arith) ∙ Filled-in c₂ (208 + i) i h refl,
            λ i h.
                Filled-out c₃ (220 + i) (omega arith)
                ∙ (Filled-out c₂ (220 + i) (omega arith) ∙ Filled-in c₁ (220 + i) i h refl),
            λ i h. Filled-in c₃ (223 + i) i h refl,
          );
          kept = λ q h.
              Filled-out c₃ q (omega arith)
              ∙ (Filled-out c₂ q (omega arith) ∙ Filled-out c₁ q (omega arith));
          pkt_length = refl;
          mf_length = refl;
          bits = refl;
        },
      )

  pub mpls_fields_lem :
      Returns
        (IsTagged (λ mf'. Ones mf' 208 15 × FromPacket pkt 215 mf' 223 23) c.match_field 224 223 23)
        (mpls_fields pkt c)
  unfolding mpls_fields
  mpls_fields_lem =
      let at : c.mf_length + c.no_of_bits_inserting ≡ 208 = omega (arith, l.mf_length, l.bits) in
      let (f₁, r₁, (v₁, c₁)) = ones_run c.match_field 208 15 l.field (omega arith) in
      let (f₂, r₂, (v₂, c₂)) = copy_run pkt f₁ 215 223 23 v₁ (omega arith) (omega arith) in
      (
        record { match_field = f₂; pkt_length = 224; mf_length = 223; no_of_bits_inserting = 23 },
        rw (at, l.pkt_length, r₁, r₂),
        record {
          field = v₂;
          tag = (
            λ i h. Filled-out c₂ (208 + i) (omega arith) ∙ Filled-in c₁ (208 + i) i h refl,
            λ i h. Filled-in c₂ (223 + i) i h refl,
          );
          kept = λ q h. Filled-out c₂ q (omega arith) ∙ Filled-out c₁ q (omega arith);
          pkt_length = refl;
          mf_length = refl;
          bits = refl;
        },
      )

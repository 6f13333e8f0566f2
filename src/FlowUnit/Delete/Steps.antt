-- ===== src/FlowUnit/Delete/Steps.antt =====
-- The two tests on group bits with which a deletion starts.
use net_walk.Base.{
  ℕ, suc, ◌+◌, ◌-◌, ◌*◌, ◌<◌, ◌≡◌, ◌≢◌, ◌⊎◌, inl, inr, refl, ap, true, false, some, arith, AllBytes,
  length, byte_at, Returns, ℕ_discrete, ◌==◌,
}
use net_walk.Bits.{read_bit}
use net_walk.Bits.Laws.{
  bit_at, put_bit, bit_at-put_bit, byte_at-put_bit, length-put_bit, set_bit_in, read_bit_in,
}
use net_walk.FlowUnit.{TcamUnit, group_bit}
use net_walk.FlowUnit.Groups.{first_bit, group_of, Grouped, Grouped-mask_tail}
use net_walk.FlowUnit.Delete.{only_of_group, delete_mask, hand_on}
use net_walk.FlowUnit.Delete.Masks.{MaskRemoved, delete_restructure_mask_lem, get_mask_pos_lem}

-- The masks stay, or the row was alone in its group and the mask of the group goes.
pub data MaskStep (t : TcamUnit) (pos : ℕ) : TcamUnit → Type 0 where
  stays :
      (first_bit t pos ≡ 0) ⊎ ((suc pos < t.flow_tail) × (first_bit t (suc pos) ≡ 0))
      → MaskStep t pos t
  goes :
      {t' : TcamUnit}
      → first_bit t pos ≢ 0
      → (suc pos ≡ t.flow_tail) ⊎ (first_bit t (suc pos) ≢ 0)
      → MaskRemoved (group_of t pos) t t'
      → MaskStep t pos t'

-- The flow table may have changed in the group bit of the next row only. That row starts a group if
-- row `pos` does, and else as before.
pub record HandedOn (t : TcamUnit) (pos : ℕ) (t' : TcamUnit) : Type 0 where
  pub rest : t' ≡ record t { flow_table = t'.flow_table }
  pub size : length t'.flow_table ≡ length t.flow_table
  pub others : (q : ℕ) → q ≢ (pos + 1) * 48 + 44 → byte_at t'.flow_table q ≡ byte_at t.flow_table q
  pub other_bits :
      (q : ℕ) → q ≢ group_bit (pos + 1) → bit_at t'.flow_table q ≡ bit_at t.flow_table q
  pub not_first : first_bit t pos ≡ 0 → first_bit t' (pos + 1) ≡ first_bit t (pos + 1)
  pub is_first : first_bit t pos ≢ 0 → first_bit t' (pos + 1) ≢ 0

module _ (t : TcamUnit) (pos : ℕ) (flows : length t.flow_table ≡ 960) where
  bit_of : (r : ℕ) → r < 20 → read_bit t.flow_table (group_bit r) ≡ some (first_bit t r)
  bit_of r h = read_bit_in t.flow_table (group_bit r) (omega arith)

  unmoved : (first_bit t pos ≡ 0) ⊎ (first_bit t (pos + 1) ≢ 0) → HandedOn t pos t
  unmoved why = record {
    rest = refl;
    size = refl;
    others = λ q h. refl;
    other_bits = λ q h. refl;
    not_first = λ h. refl;
    is_first = is why;
  }
    where
      is :
          (first_bit t pos ≡ 0) ⊎ (first_bit t (pos + 1) ≢ 0)
          → first_bit t pos ≢ 0
          → first_bit t (pos + 1) ≢ 0
      is (inl z) nz = absurd (nz z)
      is (inr n) nz = n

  moved_on :
      AllBytes t.flow_table
      → pos + 1 < 20
      → first_bit t pos ≢ 0
      → HandedOn t pos (record t { flow_table = put_bit t.flow_table (group_bit (pos + 1)) 1 })
  moved_on bytes h nz = record {
    rest = refl;
    size = length-put_bit t.flow_table (group_bit (pos + 1)) 1;
    others = λ q ne.
        byte_at-put_bit t.flow_table (group_bit (pos + 1)) 1 q (omega arith)
          (λ e. ne (omega arith));
    other_bits = λ q ne. ground (
      arith,
      bit_at-put_bit t.flow_table (group_bit (pos + 1)) 1 q bytes (omega arith) (omega arith),
      ne,
    );
    not_first = λ z. absurd (nz z);
    is_first = λ _ e. ground (
      arith,
      bit_at-put_bit t.flow_table (group_bit (pos + 1)) 1 (group_bit (pos + 1)) bytes (omega arith)
          (omega arith),
      e,
    );
  }

  -- Only a row that starts a group looks at the next one, which must lie in the table.
  pub hand_on_lem :
      AllBytes t.flow_table
      → pos < 20
      → (first_bit t pos ≡ 0) ⊎ (pos + 1 < 20)
      → Returns (HandedOn t pos) (hand_on t pos)
  unfolding hand_on
  hand_on_lem bytes h (inl z) = (t, rw (bit_of pos h, z) refl, unmoved (inl z))
  hand_on_lem bytes h (inr next) = elim (ℕ_discrete (first_bit t pos) 0) [
    | yes z ↦ (t, rw (bit_of pos h, z) refl, unmoved (inl z))
    | no nz ↦
        let e : (first_bit t pos == 0) ≡ false = ground (arith, nz) in
        elim (ℕ_discrete (first_bit t (pos + 1)) 0) [
          | yes z ↦ (
            record t { flow_table = put_bit t.flow_table (group_bit (pos + 1)) 1 },
            rw
                (
                  bit_of pos h,
                  e,
                  bit_of (pos + 1) next,
                  z,
                  set_bit_in t.flow_table (group_bit (pos + 1)) (omega arith),
                )
                refl,
            moved_on bytes next nz,
          )
          | no n ↦
              let e' : (first_bit t (pos + 1) == 0) ≡ false = ground (arith, n) in
              (t, rw (bit_of pos h, e, bit_of (pos + 1) next, e') refl, unmoved (inr n))
        ]
  ]

module _ (t : TcamUnit) (pos : ℕ) (g : Grouped t) (inside : pos < t.flow_tail) where
  next_same : first_bit t (pos + 1) ≡ first_bit t (suc pos)
  next_same = ap (first_bit t) (omega arith)

  not_alone :
      (first_bit t pos ≡ 0) ⊎ ((suc pos < t.flow_tail) × (first_bit t (suc pos) ≡ 0))
      → only_of_group t pos ≡ some false
  unfolding only_of_group
  not_alone (inl z) = rw (bit_of t pos g.flows pos (omega (arith, g.flow_in)), z) refl
  not_alone (inr (next, z)) = elim (ℕ_discrete (first_bit t pos) 0) [
    | yes z' ↦ rw (bit_of t pos g.flows pos (omega (arith, g.flow_in)), z') refl
    | no nz ↦
        let e : (first_bit t pos == 0) ≡ false = ground (arith, nz) in
        let e' : (pos == t.flow_tail - 1) ≡ false = ground arith in
        rw
          (
            bit_of t pos g.flows pos (omega (arith, g.flow_in)),
            e,
            e',
            bit_of t pos g.flows (pos + 1) (omega (arith, g.flow_in)),
            next_same,
            z,
          )
          refl
  ]

  alone_last : first_bit t pos ≢ 0 → suc pos ≡ t.flow_tail → only_of_group t pos ≡ some true
  unfolding only_of_group
  alone_last nz last =
      let e : (first_bit t pos == 0) ≡ false = ground (arith, nz) in
      let e' : (pos == t.flow_tail - 1) ≡ true = ground arith in
      rw (bit_of t pos g.flows pos (omega (arith, g.flow_in)), e, e') refl

  alone :
      first_bit t pos ≢ 0
      → (suc pos ≡ t.flow_tail) ⊎ (first_bit t (suc pos) ≢ 0)
      → only_of_group t pos ≡ some true
  unfolding only_of_group
  alone nz (inl last) = alone_last nz last
  alone nz (inr n) = elim (ℕ_discrete (suc pos) t.flow_tail) [
    | yes last ↦ alone_last nz last
    | no more ↦
        let e : (first_bit t pos == 0) ≡ false = ground (arith, nz) in
        let e' : (pos == t.flow_tail - 1) ≡ false = ground arith in
        let e'' : (first_bit t (suc pos) == 0) ≡ false = ground (arith, n) in
        rw
          (
            bit_of t pos g.flows pos (omega (arith, g.flow_in)),
            e,
            e',
            bit_of t pos g.flows (pos + 1) (omega (arith, g.flow_in)),
            next_same,
            e'',
          )
          refl
  ]

  removes :
      group_of t pos < t.mask_tail
      → first_bit t pos ≢ 0
      → (suc pos ≡ t.flow_tail) ⊎ (first_bit t (suc pos) ≢ 0)
      → Returns (MaskStep t pos) (delete_mask t pos)
  unfolding delete_mask
  removes own nz why =
      let (t', run, m) =
        delete_restructure_mask_lem t (group_of t pos) g.masks own
          (omega (arith, g.flow_in, Grouped-mask_tail t g)) in
      (t', rw (alone nz why, get_mask_pos_lem t pos g.flows g.flow_in inside) run, goes nz why m)

  -- The mask of the row goes if the row is alone in its group and starts it.
  pub delete_mask_lem : group_of t pos < t.mask_tail → Returns (MaskStep t pos) (delete_mask t pos)
  unfolding delete_mask
  delete_mask_lem own = elim (ℕ_discrete (first_bit t pos) 0) [
    | yes z ↦ (t, rw (not_alone (inl z)) refl, stays (inl z))
    | no nz ↦ elim (ℕ_discrete (suc pos) t.flow_tail) [
      | yes last ↦ removes own nz (inl last)
      | no more ↦ elim (ℕ_discrete (first_bit t (suc pos)) 0) [
        | yes z ↦
            let why : (suc pos < t.flow_tail) × (first_bit t (suc pos) ≡ 0) = (omega arith, z) in
            (t, rw (not_alone (inr why)) refl, stays (inr why))
        | no n ↦ removes own nz (inr n)
      ]
    ]
  ]

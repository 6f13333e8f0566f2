-- ===== src/FlowUnit/Delete/Regroup.antt =====
-- The groups and the masks of the rows that a deletion leaves.
use net_walk.Base.{
  ℕ, suc, ◌+◌, ◌-◌, ◌*◌, ◌≤◌, ◌<◌, ◌≡◌, ◌≢◌, ◌⊎◌, inl, inr, refl, sym, ap, ◌∙◌, arith, byte_at,
  ℕ_discrete, ◌==◌, if◌then◌else◌,
}
use net_walk.FlowUnit.{TcamUnit}
use net_walk.FlowUnit.Groups.{
  starts, starts_same, starts_upto, starts_delete, first_bit, group_of, Grouped, group_bit_same,
}
use net_walk.FlowUnit.Delete.Shift.{RowRemoved}
use net_walk.FlowUnit.Delete.Actions.{ActionsUp}
use net_walk.FlowUnit.Delete.Steps.{MaskStep, stays, goes, HandedOn}

-- The group bits before and after, for rows that moved up from behind `p`.
module _ (b b' : ℕ → ℕ) (p tail : ℕ) (below : (r : ℕ) → r < p → b' r ≡ b r)
    (above : (r : ℕ) → p < r → suc r < tail → b' r ≡ b (suc r)) where
  groups_delete :
      (r : ℕ)
      → p ≤ r
      → suc r < tail
      → starts b' (suc r) + ((if b p == 0 then 0 else 1) + (if b (suc p) == 0 then 0 else 1))
        ≡ starts b (suc (suc r)) + (if b' p == 0 then 0 else 1)
  groups_delete r h u =
      let e : suc p + (r - p) ≡ suc r = omega arith in
      let e' : suc (suc p) + (r - p) ≡ suc (suc r) = omega arith in
      let d = starts_delete b b' p (r - p) below (λ q lo hi. above q lo (omega arith)) in
      ap (λ n. starts b' n + ((if b p == 0 then 0 else 1) + (if b (suc p) == 0 then 0 else 1)))
        (sym e)
      ∙ (d ∙ ap (λ n. starts b n + (if b' p == 0 then 0 else 1)) e')

  module _ (not_first : suc p < tail → b p ≡ 0 → b' p ≡ b (suc p))
      (is_first : suc p < tail → b p ≢ 0 → b' p ≢ 0) where
    -- With the row's mask still there.
    groups_stay :
        (b p ≡ 0) ⊎ ((suc p < tail) × (b (suc p) ≡ 0))
        → (r : ℕ) → p ≤ r
        → suc r < tail
        → starts b' (suc r) ≡ starts b (suc (suc r))
    groups_stay (inl z) r h u = ground (arith, groups_delete r h u, not_first (omega arith) z, z)
    groups_stay (inr (n, z)) r h u = elim (ℕ_discrete (b p) 0) [
      | yes z' ↦ ground (arith, groups_delete r h u, not_first (omega arith) z', z')
      | no nz ↦ ground (arith, groups_delete r h u, is_first (omega arith) nz, nz, z)
    ]

    -- Without it.
    groups_go :
        b p ≢ 0
        → b (suc p) ≢ 0
        → (r : ℕ) → p ≤ r
        → suc r < tail
        → suc (starts b' (suc r)) ≡ starts b (suc (suc r))
    groups_go nz n r h u = ground (arith, groups_delete r h u, is_first (omega arith) nz, nz, n)

-- The four steps of a deletion, from `t` to `t₄`.
pub record DeleteRun (t : TcamUnit) (pos : ℕ) (t₄ : TcamUnit) : Type 0 where
  pub t₁ : TcamUnit
  pub t₂ : TcamUnit
  pub t₃ : TcamUnit
  pub mask : MaskStep t pos t₁
  pub next : HandedOn t₁ pos t₂
  pub row : RowRemoved pos t₂ t₃
  pub acts : ActionsUp pos t₃.flow_tail t₃ t₄

module _ (t : TcamUnit) (pos : ℕ) (g : Grouped t) (inside : pos < t.flow_tail) (t₄ : TcamUnit)
    (run : DeleteRun t pos t₄) where
  pub flow_same : run.t₁.flow_table ≡ t.flow_table
  flow_same = go run.t₁ run.mask
    where
      go : (u : TcamUnit) → MaskStep t pos u → u.flow_table ≡ t.flow_table
      go u (stays why) = refl
      go u (goes nz why r) = ap (λ s. s.flow_table) r.rest

  pub tail_same : run.t₁.flow_tail ≡ t.flow_tail
  tail_same = go run.t₁ run.mask
    where
      go : (u : TcamUnit) → MaskStep t pos u → u.flow_tail ≡ t.flow_tail
      go u (stays why) = refl
      go u (goes nz why r) = ap (λ s. s.flow_tail) r.rest

  pub bits_same : (r : ℕ) → first_bit run.t₁ r ≡ first_bit t r
  bits_same r =
      group_bit_same t.flow_table run.t₁.flow_table r r
        (ap (λ f. byte_at f (r * 48 + 44)) flow_same)

  pub tail₂ : run.t₂.flow_tail ≡ t.flow_tail
  tail₂ = ap (λ s. s.flow_tail) run.next.rest ∙ tail_same

  pub flow₄ : t₄.flow_table ≡ run.t₃.flow_table
  flow₄ = ap (λ s. s.flow_table) run.acts.rest

  pub bits_below : (r : ℕ) → r < pos → first_bit t₄ r ≡ first_bit t r
  bits_below r h =
      group_bit_same run.t₁.flow_table t₄.flow_table r r (
        ap (λ f. byte_at f (r * 48 + 44)) flow₄
        ∙ (run.row.before (r * 48 + 44) (omega arith)
            ∙ run.next.others (r * 48 + 44) (λ e. omega arith)))
      ∙ bits_same r

  -- The bit of a row that moved up is the one of the row behind it after the second test.
  pub bits_moved :
      (r : ℕ) → pos ≤ r → suc r < t.flow_tail → first_bit t₄ r ≡ first_bit run.t₂ (r + 1)
  bits_moved r h u = group_bit_same run.t₂.flow_table t₄.flow_table (r + 1) r (
      ap (λ f. byte_at f (r * 48 + 44)) flow₄
      ∙ run.row.moved r 44 h (omega (arith, tail₂)) (omega arith))

  pub bits_above : (r : ℕ) → pos < r → suc r < t.flow_tail → first_bit t₄ r ≡ first_bit t (suc r)
  bits_above r h u =
      bits_moved r (omega arith) u
      ∙ (group_bit_same run.t₁.flow_table run.t₂.flow_table (r + 1) (r + 1)
            (run.next.others ((r + 1) * 48 + 44) (λ e. omega arith))
          ∙ (bits_same (r + 1) ∙ ap (first_bit t) (omega arith)))

  pub bit_kept :
      suc pos < t.flow_tail → first_bit t pos ≡ 0 → first_bit t₄ pos ≡ first_bit t (suc pos)
  bit_kept u z =
      bits_moved pos (omega arith) u
      ∙ (run.next.not_first (bits_same pos ∙ z)
          ∙ (bits_same (pos + 1) ∙ ap (first_bit t) (omega arith)))

  pub bit_handed : suc pos < t.flow_tail → first_bit t pos ≢ 0 → first_bit t₄ pos ≢ 0
  bit_handed u nz e =
      run.next.is_first (λ z. nz (sym (bits_same pos) ∙ z))
        (sym (bits_moved pos (omega arith) u) ∙ e)

  group_below : (r : ℕ) → r < pos → group_of t₄ r ≡ group_of t r
  group_below r h =
      starts_same (first_bit t) (first_bit t₄) (suc r) (λ q l. bits_below q (omega arith))

  group_stays :
      (first_bit t pos ≡ 0) ⊎ ((suc pos < t.flow_tail) × (first_bit t (suc pos) ≡ 0))
      → (r : ℕ) → pos ≤ r
      → suc r < t.flow_tail
      → group_of t₄ r ≡ group_of t (suc r)
  group_stays why =
      groups_stay (first_bit t) (first_bit t₄) pos t.flow_tail bits_below bits_above bit_kept
        bit_handed why

  group_goes :
      first_bit t pos ≢ 0
      → first_bit t (suc pos) ≢ 0
      → (r : ℕ) → pos ≤ r
      → suc r < t.flow_tail
      → suc (group_of t₄ r) ≡ group_of t (suc r)
  group_goes nz n =
      groups_go (first_bit t) (first_bit t₄) pos t.flow_tail bits_below bits_above bit_kept
        bit_handed nz n

  pub masks₄ : t₄.mask_table ≡ run.t₁.mask_table
  masks₄ =
      ap (λ s. s.mask_table) run.acts.rest
      ∙ (ap (λ s. s.mask_table) run.row.rest ∙ ap (λ s. s.mask_table) run.next.rest)

  pub mask_tail₄ : t₄.mask_tail ≡ run.t₁.mask_tail
  mask_tail₄ =
      ap (λ s. s.mask_tail) run.acts.rest
      ∙ (ap (λ s. s.mask_tail) run.row.rest ∙ ap (λ s. s.mask_tail) run.next.rest)

  -- The number of a row's group, from the rows before it.
  group_next :
      (r : ℕ)
      → group_of t r
        ≡ (if first_bit t r == 0 then starts (first_bit t) r else starts (first_bit t) r + 1)
  unfolding starts
  group_next r = refl

  pub mask_below :
      (u : TcamUnit)
      → MaskStep t pos u
      → (r k : ℕ) → r < pos
      → k < 44
      → byte_at u.mask_table (group_of t₄ r * 45 + k) ≡ byte_at t.mask_table (group_of t r * 45 + k)
  mask_below u (stays why) r k h hk = ap (λ n. byte_at t.mask_table (n * 45 + k)) (group_below r h)
  mask_below u (goes nz why d) r k h hk =
      ap (λ n. byte_at u.mask_table (n * 45 + k)) (group_below r h)
      ∙ d.before (group_of t r * 45 + k) (
          mult (group_of t r) (group_of t pos)
            (ground (arith, group_next pos, starts_upto (first_bit t) (suc r) pos h, nz)))
    where
      mult : (x y : ℕ) → x < y → x * 45 + k < y * 45
      mult x y l = omega arith

  pub mask_above :
      (u : TcamUnit)
      → MaskStep t pos u
      → (r k : ℕ) → pos ≤ r
      → suc r < t.flow_tail
      → k < 44
      → byte_at u.mask_table (group_of t₄ r * 45 + k)
        ≡ byte_at t.mask_table (group_of t (suc r) * 45 + k)
  mask_above u (stays why) r k h hu hk =
      ap (λ n. byte_at t.mask_table (n * 45 + k)) (group_stays why r h hu)
  mask_above u (goes nz (inl last) d) r k h hu hk = absurd (omega arith)
  mask_above u (goes nz (inr n) d) r k h hu hk =
      let e = group_goes nz n r h hu in
      let lo = starts_upto (first_bit t) (suc (suc pos)) (suc (suc r)) (omega arith) in
      let hi = starts_upto (first_bit t) (suc (suc r)) t.flow_tail hu in
      d.moved (group_of t₄ r) k (ground (arith, e, lo, group_next pos, group_next (suc pos), n, nz))
        (ground (arith, e, hi, g.counted)) hk
      ∙ ap (λ j. byte_at t.mask_table (j * 45 + k)) (next e)
    where
      next : suc (group_of t₄ r) ≡ group_of t (suc r) → group_of t₄ r + 1 ≡ group_of t (suc r)
      next e = omega (arith, e)

  pub tail₄ : t₄.flow_tail ≡ t.flow_tail - 1
  tail₄ =
      ap (λ s. s.flow_tail) run.acts.rest
      ∙ (ap (λ s. s.flow_tail) run.row.rest ∙ ap (λ n. n - 1) tail₂)

  last_row :
      suc pos ≡ t.flow_tail → starts (first_bit t₄) (t.flow_tail - 1) ≡ starts (first_bit t) pos
  last_row last =
      let e : t.flow_tail - 1 ≡ pos = omega arith in
      ap (starts (first_bit t₄)) e ∙ starts_same (first_bit t) (first_bit t₄) pos bits_below

  all_rows : suc pos ≡ t.flow_tail → starts (first_bit t) t.flow_tail ≡ group_of t pos
  all_rows last = ap (starts (first_bit t)) (sym last)

  -- More rows than the deleted one and those before it.
  module _ (more : suc pos < t.flow_tail) where
    row_left : starts (first_bit t₄) (t.flow_tail - 1) ≡ group_of t₄ (t.flow_tail - 2)
    row_left = ap (starts (first_bit t₄)) (omega arith)

    row_was : starts (first_bit t) t.flow_tail ≡ group_of t (suc (t.flow_tail - 2))
    row_was = ap (starts (first_bit t)) (omega arith)

  -- There is a mask for each group of the rows that are left, and no other.
  pub groups_left :
      (u : TcamUnit) → MaskStep t pos u → u.mask_tail ≡ starts (first_bit t₄) (t.flow_tail - 1) + 1
  groups_left u (stays why) = elim (ℕ_discrete (suc pos) t.flow_tail) [
    | yes last ↦
        ground (arith, g.counted, last_row last, all_rows last, group_next pos, here last why)
    | no more ↦ ground (
      arith,
      g.counted,
      row_left (omega arith),
      row_was (omega arith),
      group_stays why (t.flow_tail - 2) (omega arith) (omega arith),
    )
  ]
    where
      here :
          suc pos ≡ t.flow_tail
          → (first_bit t pos ≡ 0) ⊎ ((suc pos < t.flow_tail) × (first_bit t (suc pos) ≡ 0))
          → first_bit t pos ≡ 0
      here last (inl z) = z
      here last (inr (u, z)) = absurd (omega arith)
  groups_left u (goes nz why d) =
      ap (λ s. s.mask_tail) d.rest ∙ elim (ℕ_discrete (suc pos) t.flow_tail) [
        | yes last ↦ ground (arith, g.counted, last_row last, all_rows last, group_next pos, nz)
        | no more ↦ ground (
          arith,
          g.counted,
          row_left (omega arith),
          row_was (omega arith),
          group_goes nz (next why more) (t.flow_tail - 2) (omega arith) (omega arith),
        )
      ]
    where
      next :
          (suc pos ≡ t.flow_tail) ⊎ (first_bit t (suc pos) ≢ 0)
          → suc pos ≢ t.flow_tail
          → first_bit t (suc pos) ≢ 0
      next (inl last) more = absurd (more last)
      next (inr n) more = n

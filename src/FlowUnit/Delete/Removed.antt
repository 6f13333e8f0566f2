-- ===== src/FlowUnit/Delete/Removed.antt =====
-- A whole deletion: the rows that are left, their masks and their actions.
use net_walk.Base.{
  ℕ, suc, ◌+◌, ◌-◌, ◌*◌, ◌≤◌, ◌<◌, ◌≡◌, ◌≢◌, ◌⊎◌, inl, inr, refl, sym, ap, ◌∙◌, arith, AllBytes,
  length, byte_at, Returns, ℕ_discrete,
}
use net_walk.FlowUnit.{TcamUnit}
use net_walk.FlowUnit.Groups.{starts, groups_upto, first_bit, group_of, Grouped, group_bit_same}
use net_walk.FlowUnit.Insert.Actions.{Sized}
use net_walk.FlowUnit.Delete.{delete_at}
use net_walk.FlowUnit.Delete.Shift.{RowRemoved, delete_restructure_flow_lem}
use net_walk.FlowUnit.Delete.Actions.{delete_restructure_action_lem}
use net_walk.FlowUnit.Delete.Steps.{MaskStep, stays, goes, HandedOn, delete_mask_lem, hand_on_lem}
use net_walk.FlowUnit.Delete.Regroup.{
  DeleteRun, flow_same, tail₂, flow₄, bits_below, bit_kept, bit_handed, masks₄, mask_tail₄,
  mask_below, mask_above, tail₄, groups_left,
}
use net_walk.FlowUnit.Delete.Rows.{byte_before, byte_after, bits_after, counters_after}
use net_walk.Bits.Laws.{bit_at}

-- `t'` is `t` without row `pos`. The rows before it stay. Those behind it move up by one, with the
-- counter 0 and the timeout 255: their first 46 bytes stay, but the row that comes to `pos` starts a
-- group if the deleted one did. The action sets and flags stay with their rows, and each row is under
-- the mask, but for its last byte, that it was under.
pub record Deleted (t : TcamUnit) (pos : ℕ) (t' : TcamUnit) : Type 0 where
  pub grouped : Grouped t'
  pub sized : Sized t'
  pub tail : t'.flow_tail ≡ t.flow_tail - 1
  pub rows_before : (q : ℕ) → q < pos * 48 → byte_at t'.flow_table q ≡ byte_at t.flow_table q
  pub rows_after :
      (r k : ℕ)
      → pos ≤ r
      → r + 1 < t.flow_tail
      → k < 46
      → (k ≢ 44) ⊎ (pos < r)
      → byte_at t'.flow_table (r * 48 + k) ≡ byte_at t.flow_table ((r + 1) * 48 + k)
  pub bits_after :
      (j : ℕ)
      → pos + 1 < t.flow_tail
      → j < 8
      → j ≢ 4
      → bit_at t'.flow_table ((pos * 48 + 44) * 8 + j)
        ≡ bit_at t.flow_table (((pos + 1) * 48 + 44) * 8 + j)
  pub group_kept :
      suc pos < t.flow_tail → first_bit t pos ≡ 0 → first_bit t' pos ≡ first_bit t (suc pos)
  pub group_handed : suc pos < t.flow_tail → first_bit t pos ≢ 0 → first_bit t' pos ≢ 0
  pub counters_after :
      (r : ℕ)
      → pos ≤ r
      → r + 1 < t.flow_tail
      → (byte_at t'.flow_table (r * 48 + 46) ≡ 0) × (byte_at t'.flow_table (r * 48 + 47) ≡ 255)
  pub masks_before :
      (r k : ℕ)
      → r < pos
      → k < 44
      → byte_at t'.mask_table (group_of t' r * 45 + k)
        ≡ byte_at t.mask_table (group_of t r * 45 + k)
  pub masks_after :
      (r k : ℕ)
      → pos ≤ r
      → r + 1 < t.flow_tail
      → k < 44
      → byte_at t'.mask_table (group_of t' r * 45 + k)
        ≡ byte_at t.mask_table (group_of t (r + 1) * 45 + k)
  pub actions_before : (q : ℕ) → q < pos * 31 → byte_at t'.action_table q ≡ byte_at t.action_table q
  pub actions_after :
      (r k : ℕ)
      → pos ≤ r
      → r + 1 < t.flow_tail
      → k < 31
      → byte_at t'.action_table (r * 31 + k) ≡ byte_at t.action_table ((r + 1) * 31 + k)
  pub flags_before : (q : ℕ) → q < 2 * pos → byte_at t'.flag_table q ≡ byte_at t.flag_table q
  pub flags_after :
      (r k : ℕ)
      → pos ≤ r
      → r + 1 < t.flow_tail
      → k < 2
      → byte_at t'.flag_table (2 * r + k) ≡ byte_at t.flag_table (2 * (r + 1) + k)

module _ (t : TcamUnit) (pos : ℕ) (g : Grouped t) (s : Sized t) (inside : pos < t.flow_tail)
    (t₄ : TcamUnit) (run : DeleteRun t pos t₄) where
  masks_size : (u : TcamUnit) → MaskStep t pos u → length u.mask_table ≡ 900
  masks_size u (stays why) = g.masks
  masks_size u (goes nz why d) = d.size ∙ g.masks

  actions_same :
      (u : TcamUnit)
      → MaskStep t pos u
      → (u.action_table ≡ t.action_table) × (u.flag_table ≡ t.flag_table)
  actions_same u (stays why) = (refl, refl)
  actions_same u (goes nz why d) = (ap (λ v. v.action_table) d.rest, ap (λ v. v.flag_table) d.rest)

  actions₃ : run.t₃.action_table ≡ t.action_table
  actions₃ =
      ap (λ v. v.action_table) run.row.rest
      ∙ (ap (λ v. v.action_table) run.next.rest ∙ (actions_same run.t₁ run.mask).0)

  flags₃ : run.t₃.flag_table ≡ t.flag_table
  flags₃ =
      ap (λ v. v.flag_table) run.row.rest
      ∙ (ap (λ v. v.flag_table) run.next.rest ∙ (actions_same run.t₁ run.mask).1)

  tail₃ : run.t₃.flow_tail ≡ t.flow_tail - 1
  tail₃ = ap (λ v. v.flow_tail) run.row.rest ∙ ap (λ n. n - 1) (tail₂ t pos g inside t₄ run)

  first_left : (0 < pos) ⊎ ((1 < t.flow_tail) × (first_bit t 1 ≡ 0)) → first_bit t₄ 0 ≡ 0
  first_left (inl h) = bits_below t pos g inside t₄ run 0 h ∙ g.first (omega arith)
  first_left (inr (h, z)) = elim (ℕ_discrete pos 0) [
    | yes e ↦
        let k =
          bit_kept t pos g inside t₄ run (omega arith)
            (ap (first_bit t) e ∙ g.first (omega arith)) in
        ap (first_bit t₄) (sym e) ∙ (k ∙ (ap (λ n. first_bit t (suc n)) e ∙ z))
    | no ne ↦ bits_below t pos g inside t₄ run 0 (omega arith) ∙ g.first (omega arith)
  ]

  deleted :
      (0 < pos) ⊎ ((1 < t.flow_tail) × (first_bit t 1 ≡ 0)) → 1 < t.flow_tail → Deleted t pos t₄
  deleted stay several = record {
    grouped = record {
      flows =
          ap length (flow₄ t pos g inside t₄ run)
          ∙ (run.row.size
              ∙ (run.next.size ∙ (ap length (flow_same t pos g inside t₄ run) ∙ g.flows)));
      masks = ap length (masks₄ t pos g inside t₄ run) ∙ masks_size run.t₁ run.mask;
      flow_in = omega (arith, tail₄ t pos g inside t₄ run, g.flow_in);
      first = λ _. first_left stay;
      counted = ground (
        arith,
        tail₄ t pos g inside t₄ run,
        mask_tail₄ t pos g inside t₄ run,
        groups_left t pos g inside t₄ run run.t₁ run.mask,
        ap (starts (first_bit t₄)) (tail₄ t pos g inside t₄ run),
      );
    };
    sized = run.acts.sized;
    tail = tail₄ t pos g inside t₄ run;
    rows_before = byte_before t pos g inside t₄ run;
    rows_after = byte_after t pos g inside t₄ run;
    bits_after = bits_after t pos g inside t₄ run;
    group_kept = bit_kept t pos g inside t₄ run;
    group_handed = bit_handed t pos g inside t₄ run;
    counters_after = counters_after t pos g inside t₄ run;
    masks_before = λ r k h hk.
        ap (λ f. byte_at f (group_of t₄ r * 45 + k)) (masks₄ t pos g inside t₄ run)
        ∙ mask_below t pos g inside t₄ run run.t₁ run.mask r k h hk;
    masks_after = λ r k lo hi hk.
        ap (λ f. byte_at f (group_of t₄ r * 45 + k)) (masks₄ t pos g inside t₄ run)
        ∙ (mask_above t pos g inside t₄ run run.t₁ run.mask r k lo (omega arith) hk
            ∙ ap (λ n. byte_at t.mask_table (group_of t n * 45 + k)) (next r));
    actions_before = λ q h. run.acts.others q (inl h) ∙ ap (λ f. byte_at f q) actions₃;
    actions_after = λ r k lo hi hk.
        run.acts.moved r k lo (omega (arith, tail₃)) hk
        ∙ ap (λ f. byte_at f ((r + 1) * 31 + k)) actions₃;
    flags_before = λ q h. run.acts.other_flags q (inl h) ∙ ap (λ f. byte_at f q) flags₃;
    flags_after = λ r k lo hi hk.
        run.acts.flags r k lo (omega (arith, tail₃)) hk
        ∙ ap (λ f. byte_at f (2 * (r + 1) + k)) flags₃;
  }
    where
      next : (r : ℕ) → suc r ≡ r + 1
      next r = omega arith

untouched :
    (t u : TcamUnit) (pos : ℕ)
    → MaskStep t pos u
    → (u.flow_table ≡ t.flow_table)
      × (u.flow_tail ≡ t.flow_tail)
      × ((u.action_table ≡ t.action_table) × (u.flag_table ≡ t.flag_table))
untouched t u pos (stays why) = (refl, refl, (refl, refl))
untouched t u pos (goes nz why d) = (
  ap (λ v. v.flow_table) d.rest,
  ap (λ v. v.flow_tail) d.rest,
  (ap (λ v. v.action_table) d.rest, ap (λ v. v.flag_table) d.rest),
)

still-Sized :
    (t t₁ t₂ t₃ : TcamUnit) (pos : ℕ)
    → Sized t
    → MaskStep t pos t₁
    → HandedOn t₁ pos t₂
    → RowRemoved pos t₂ t₃
    → Sized t₃
still-Sized t t₁ t₂ t₃ pos s m o w =
    let (f₁, e₁, (s₁, k₁)) = untouched t t₁ pos m in
    record {
      actions =
          ap (λ v. length v.action_table) w.rest
          ∙ (ap (λ v. length v.action_table) o.rest ∙ (ap length s₁ ∙ s.actions));
      flags =
          ap (λ v. length v.flag_table) w.rest
          ∙ (ap (λ v. length v.flag_table) o.rest ∙ (ap length k₁ ∙ s.flags));
    }

-- The row has a mask.
own_mask : (t : TcamUnit) (pos : ℕ) → Grouped t → pos < t.flow_tail → group_of t pos < t.mask_tail
own_mask t pos g h = ground (arith, g.counted, groups_upto t pos h)

-- If the groups and masks of the unit fit, the action tables have their sizes and the flow table holds
-- bytes, then `delete_at` of a row ends without a fault, provided that the row starts no group or is
-- not row 19, and that it is not the first row or is followed by another row of its group. The rows
-- before it then stay, and those behind it move up by one, with the counter 0 and the timeout 255.
-- The match fields, group bits and priorities of these stay, but the row right behind starts a group
-- if the deleted one did. Action sets and flags stay with their rows; each row is under the mask that
-- it was under, but for the mask's last byte; and groups and masks fit again.
pub delete_at_lem :
    (t : TcamUnit) (pos : ℕ)
    → Grouped t
    → Sized t
    → AllBytes t.flow_table
    → pos < t.flow_tail
    → (first_bit t pos ≡ 0) ⊎ (pos + 1 < 20)
    → (0 < pos) ⊎ ((1 < t.flow_tail) × (first_bit t 1 ≡ 0))
    → Returns (Deleted t pos) (delete_at t pos)
unfolding delete_at
delete_at_lem t pos g s bytes inside next stay =
    let (t₁, run₁, m) = delete_mask_lem t pos g inside (own_mask t pos g inside) in
    let (f₁, e₁, (s₁, k₁)) = untouched t t₁ pos m in
    let bits : first_bit t₁ pos ≡ first_bit t pos =
      group_bit_same t.flow_table t₁.flow_table pos pos (ap (λ f. byte_at f (pos * 48 + 44)) f₁) in
    let (t₂, run₂, o) =
      hand_on_lem t₁ pos (ap length f₁ ∙ g.flows) (rw f₁ bytes) (omega (arith, g.flow_in))
        (rw bits next) in
    let e₂ : t₂.flow_tail ≡ t.flow_tail = ap (λ v. v.flow_tail) o.rest ∙ e₁ in
    let (t₃, run₃, w) =
      delete_restructure_flow_lem t₂ pos (o.size ∙ (ap length f₁ ∙ g.flows)) (omega (arith, e₂))
        (omega (arith, e₂, g.flow_in)) in
    let e₃ : t₃.flow_tail ≡ t.flow_tail - 1 = ap (λ v. v.flow_tail) w.rest ∙ ap (λ n. n - 1) e₂ in
    let s₃ = still-Sized t t₁ t₂ t₃ pos s m o w in
    let (t₄, run₄, a) =
      delete_restructure_action_lem t₃ pos s₃ (omega (arith, e₃)) (omega (arith, e₃, g.flow_in)) in
    (
      t₄,
      rw (run₁, run₂, run₃) run₄,
      deleted t pos g s inside t₄
          (record { t₁ = t₁; t₂ = t₂; t₃ = t₃; mask = m; next = o; row = w; acts = a }) stay
          (several stay),
    )
  where
    several : (0 < pos) ⊎ ((1 < t.flow_tail) × (first_bit t 1 ≡ 0)) → 1 < t.flow_tail
    several (inl h) = omega arith
    several (inr (h, z)) = h

-- ===== src/FlowUnit/Insert/ActionShift.antt =====
-- What moving the rows of the action tables down leaves.
use net_walk.Base.{
  ℕ, zero, suc, ◌+◌, ◌-◌, ◌*◌, ◌≤◌, ◌<◌, ◌≡◌, ◌⊎◌, inl, inr, refl, ap, ◌∙◌, arith, Bytes, byte_at,
  Returns, ℕ_discrete,
}
use net_walk.FlowUnit.{TcamUnit}
use net_walk.FlowUnit.Insert.{action_loop, restructure_action_tables}
use net_walk.FlowUnit.Insert.Actions.{Sized, ActionWritten, write_new_action_lem, read_action_lem}

-- From `t` to `t'` the action sets and flags of the rows from `lo` to below `hi` moved down by one.
-- Row `lo` is still there.
pub record ActionsMoved (lo hi : ℕ) (t t' : TcamUnit) : Type 0 where
  pub rest : t' ≡ record t { action_table = t'.action_table; flag_table = t'.flag_table }
  pub sized : Sized t'
  pub moved :
      (r k : ℕ)
      → lo ≤ r
      → r < hi
      → k < 31
      → byte_at t'.action_table ((r + 1) * 31 + k) ≡ byte_at t.action_table (r * 31 + k)
  pub flags :
      (r k : ℕ)
      → lo ≤ r
      → r < hi
      → k < 2
      → byte_at t'.flag_table (2 * (r + 1) + k) ≡ byte_at t.flag_table (2 * r + k)
  pub others :
      (q : ℕ)
      → (q < (lo + 1) * 31) ⊎ ((hi + 1) * 31 ≤ q)
      → byte_at t'.action_table q ≡ byte_at t.action_table q
  pub other_flags :
      (q : ℕ)
      → (q < 2 * (lo + 1)) ⊎ (2 * (hi + 1) ≤ q)
      → byte_at t'.flag_table q ≡ byte_at t.flag_table q

module _ (t t₁ t₂ : TcamUnit) (d f : Bytes) (lo hi : ℕ) (some_row : lo < hi)
    (actions : (k : ℕ) → k < 31 → byte_at d k ≡ byte_at t.action_table ((hi - 1) * 31 + k))
    (flags : (k : ℕ) → k < 2 → byte_at f k ≡ byte_at t.flag_table (2 * (hi - 1) + k))
    (w : ActionWritten t d f hi t₁) (m : ActionsMoved lo (hi - 1) t₁ t₂) where
  ActionsMoved-more : ActionsMoved lo hi t t₂
  ActionsMoved-more = record {
    rest = ground (arith, w.rest, m.rest);
    sized = m.sized;
    moved = λ r k l u hk. elim (ℕ_discrete (r + 1) hi) [
      | yes e ↦
          let e' : hi - 1 ≡ r = omega arith in
          m.others ((r + 1) * 31 + k) (inr (omega arith))
          ∙ (ap (λ j. byte_at t₁.action_table (j * 31 + k)) e
              ∙ (w.action k hk ∙ (actions k hk ∙ ap (λ j. byte_at t.action_table (j * 31 + k)) e')))
      | no ne ↦ m.moved r k l (omega arith) hk ∙ w.others (r * 31 + k) (inl (omega arith))
    ];
    flags = λ r k l u hk. elim (ℕ_discrete (r + 1) hi) [
      | yes e ↦
          let e' : hi - 1 ≡ r = omega arith in
          m.other_flags (2 * (r + 1) + k) (inr (omega arith))
          ∙ (ap (λ j. byte_at t₁.flag_table (2 * j + k)) e
              ∙ (w.flag_bytes k hk ∙ (flags k hk ∙ ap (λ j. byte_at t.flag_table (2 * j + k)) e')))
      | no ne ↦ m.flags r k l (omega arith) hk ∙ w.other_flags (2 * r + k) (inl (omega arith))
    ];
    others = λ q h. m.others q (later q h) ∙ w.others q (first q h);
    other_flags = λ q h. m.other_flags q (later_flags q h) ∙ w.other_flags q (first_flags q h);
  }
    where
      later :
          (q : ℕ)
          → (q < (lo + 1) * 31) ⊎ ((hi + 1) * 31 ≤ q)
          → (q < (lo + 1) * 31) ⊎ ((hi - 1 + 1) * 31 ≤ q)
      later q (inl h) = inl h
      later q (inr h) = inr (omega arith)

      first :
          (q : ℕ) → (q < (lo + 1) * 31) ⊎ ((hi + 1) * 31 ≤ q) → (q < hi * 31) ⊎ (hi * 31 + 31 ≤ q)
      first q (inl h) = inl (omega arith)
      first q (inr h) = inr (omega arith)

      later_flags :
          (q : ℕ)
          → (q < 2 * (lo + 1)) ⊎ (2 * (hi + 1) ≤ q)
          → (q < 2 * (lo + 1)) ⊎ (2 * (hi - 1 + 1) ≤ q)
      later_flags q (inl h) = inl h
      later_flags q (inr h) = inr (omega arith)

      first_flags :
          (q : ℕ) → (q < 2 * (lo + 1)) ⊎ (2 * (hi + 1) ≤ q) → (q < 2 * hi) ⊎ (2 * hi + 2 ≤ q)
      first_flags q (inl h) = inl (omega arith)
      first_flags q (inr h) = inr (omega arith)

action_loop_lem :
    (n lo hi : ℕ) (t : TcamUnit)
    → lo + n ≡ hi
    → hi < 20
    → Sized t
    → Returns (ActionsMoved lo hi t) (action_loop n hi t)
unfolding action_loop
action_loop_lem zero lo hi t e h s = (
  t,
  refl,
  record {
    rest = refl;
    sized = s;
    moved = λ r k l u hk. absurd (omega arith);
    flags = λ r k l u hk. absurd (omega arith);
    others = λ q hq. refl;
    other_flags = λ q hq. refl;
  },
)
action_loop_lem (suc n) lo hi t e h s =
    let ((d, f), read, (ld, a, lf, b)) = read_action_lem t (hi - 1) s (omega arith) in
    let (t₁, wrote, w) =
      write_new_action_lem t d f hi s h (omega (arith, ld)) (omega (arith, lf)) in
    let (t₂, run, m) = action_loop_lem n lo (hi - 1) t₁ (omega arith) (omega arith) w.sized in
    (t₂, rw (read, wrote) run, ActionsMoved-more t t₁ t₂ d f lo hi (omega arith) a b w m)

-- The rows from `pos` to the one before the last move down by one, without a fault.
pub restructure_action_tables_lem :
    (t : TcamUnit) (pos : ℕ)
    → Sized t
    → pos < t.flow_tail
    → t.flow_tail ≤ 20
    → Returns (ActionsMoved pos (t.flow_tail - 1) t) (restructure_action_tables t pos)
unfolding restructure_action_tables
restructure_action_tables_lem t pos s h small =
    action_loop_lem (t.flow_tail - 1 - pos) pos (t.flow_tail - 1) t (omega arith) (omega arith) s

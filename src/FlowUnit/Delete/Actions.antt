-- ===== src/FlowUnit/Delete/Actions.antt =====
-- What moving the rows of the action tables up, over a deleted one, leaves.
use net_walk.Base.{
  ℕ, zero, suc, ◌+◌, ◌-◌, ◌*◌, ◌≤◌, ◌<◌, ◌≡◌, ◌⊎◌, inl, inr, refl, sym, ap, ◌∙◌, arith, Bytes,
  byte_at, Returns, ℕ_discrete,
}
use net_walk.FlowUnit.{TcamUnit}
use net_walk.FlowUnit.Insert.Actions.{Sized, ActionWritten, write_new_action_lem, read_action_lem}
use net_walk.FlowUnit.Delete.{action_up_loop, delete_restructure_action}

-- From `t` to `t'` the rows `lo` to below `hi` hold the action sets and flags of the next rows.
pub record ActionsUp (lo hi : ℕ) (t t' : TcamUnit) : Type 0 where
  pub rest : t' ≡ record t { action_table = t'.action_table; flag_table = t'.flag_table }
  pub sized : Sized t'
  pub moved :
      (r k : ℕ)
      → lo ≤ r
      → r < hi
      → k < 31
      → byte_at t'.action_table (r * 31 + k) ≡ byte_at t.action_table ((r + 1) * 31 + k)
  pub flags :
      (r k : ℕ)
      → lo ≤ r
      → r < hi
      → k < 2
      → byte_at t'.flag_table (2 * r + k) ≡ byte_at t.flag_table (2 * (r + 1) + k)
  pub others :
      (q : ℕ) → (q < lo * 31) ⊎ (hi * 31 ≤ q) → byte_at t'.action_table q ≡ byte_at t.action_table q
  pub other_flags :
      (q : ℕ) → (q < 2 * lo) ⊎ (2 * hi ≤ q) → byte_at t'.flag_table q ≡ byte_at t.flag_table q

module _ (t t₁ t₂ : TcamUnit) (d f : Bytes) (lo hi : ℕ) (some_row : lo < hi)
    (actions : (k : ℕ) → k < 31 → byte_at d k ≡ byte_at t.action_table ((lo + 1) * 31 + k))
    (flags : (k : ℕ) → k < 2 → byte_at f k ≡ byte_at t.flag_table (2 * (lo + 1) + k))
    (w : ActionWritten t d f lo t₁) (m : ActionsUp (lo + 1) hi t₁ t₂) where
  ActionsUp-more : ActionsUp lo hi t t₂
  ActionsUp-more = record {
    rest = ground (arith, w.rest, m.rest);
    sized = m.sized;
    moved = λ r k l u hk. elim (ℕ_discrete r lo) [
      | yes e ↦
          m.others (r * 31 + k) (inl (omega arith))
          ∙ (ap (λ j. byte_at t₁.action_table (j * 31 + k)) e
              ∙ (w.action k hk
                  ∙ (actions k hk ∙ ap (λ j. byte_at t.action_table ((j + 1) * 31 + k)) (sym e))))
      | no ne ↦ m.moved r k (omega arith) u hk ∙ w.others ((r + 1) * 31 + k) (inr (omega arith))
    ];
    flags = λ r k l u hk. elim (ℕ_discrete r lo) [
      | yes e ↦
          m.other_flags (2 * r + k) (inl (omega arith))
          ∙ (ap (λ j. byte_at t₁.flag_table (2 * j + k)) e
              ∙ (w.flag_bytes k hk
                  ∙ (flags k hk ∙ ap (λ j. byte_at t.flag_table (2 * (j + 1) + k)) (sym e))))
      | no ne ↦ m.flags r k (omega arith) u hk ∙ w.other_flags (2 * (r + 1) + k) (inr (omega arith))
    ];
    others = λ q h. m.others q (later q h) ∙ w.others q (first q h);
    other_flags = λ q h. m.other_flags q (later_flags q h) ∙ w.other_flags q (first_flags q h);
  }
    where
      later : (q : ℕ) → (q < lo * 31) ⊎ (hi * 31 ≤ q) → (q < (lo + 1) * 31) ⊎ (hi * 31 ≤ q)
      later q (inl h) = inl (omega arith)
      later q (inr h) = inr h

      first : (q : ℕ) → (q < lo * 31) ⊎ (hi * 31 ≤ q) → (q < lo * 31) ⊎ (lo * 31 + 31 ≤ q)
      first q (inl h) = inl h
      first q (inr h) = inr (omega arith)

      later_flags : (q : ℕ) → (q < 2 * lo) ⊎ (2 * hi ≤ q) → (q < 2 * (lo + 1)) ⊎ (2 * hi ≤ q)
      later_flags q (inl h) = inl (omega arith)
      later_flags q (inr h) = inr h

      first_flags : (q : ℕ) → (q < 2 * lo) ⊎ (2 * hi ≤ q) → (q < 2 * lo) ⊎ (2 * lo + 2 ≤ q)
      first_flags q (inl h) = inl h
      first_flags q (inr h) = inr (omega arith)

action_up_loop_lem :
    (n lo hi : ℕ) (t : TcamUnit)
    → lo + n ≡ hi
    → hi < 20
    → Sized t
    → Returns (ActionsUp lo hi t) (action_up_loop n lo t)
unfolding action_up_loop
action_up_loop_lem zero lo hi t e h s = (
  t,
  refl,
  record {
    rest = refl;
    sized = s;
    moved = λ r k l u hk. absurd (omega arith);
    flags = λ r k l u hk. absurd (omega arith);
    others = λ q hq. refl;
    other_flags = λ q hq. refl;
  },
)
action_up_loop_lem (suc n) lo hi t e h s =
    let ((d, f), read, (ld, a, lf, b)) = read_action_lem t (lo + 1) s (omega arith) in
    let (t₁, wrote, w) =
      write_new_action_lem t d f lo s (omega arith) (omega (arith, ld)) (omega (arith, lf)) in
    let (t₂, run, m) = action_up_loop_lem n (lo + 1) hi t₁ (omega arith) h w.sized in
    (t₂, rw (read, wrote) run, ActionsUp-more t t₁ t₂ d f lo hi (omega arith) a b w m)

-- The tail already is the one without the deleted row.
pub delete_restructure_action_lem :
    (t : TcamUnit) (pos : ℕ)
    → Sized t
    → pos ≤ t.flow_tail
    → t.flow_tail < 20
    → Returns (ActionsUp pos t.flow_tail t) (delete_restructure_action t pos)
unfolding delete_restructure_action
delete_restructure_action_lem t pos s h small =
    action_up_loop_lem (t.flow_tail - pos) pos t.flow_tail t (omega arith) small s

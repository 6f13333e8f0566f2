-- ===== src/FlowUnit/Insert/ActionRow.antt =====
-- What writing the action set and the flag of a new row leaves.
use net_walk.Base.{
  ℕ, ◌+◌, ◌-◌, ◌*◌, ◌≤◌, ◌<◌, ◌≡◌, inl, inr, refl, ◌∙◌, arith, Bytes, length, byte_at, Returns,
  dec_lt, ltb, true, false,
}
use net_walk.FlowUnit.{TcamUnit}
use net_walk.FlowUnit.Insert.{Added, add_action}
use net_walk.FlowUnit.Insert.Actions.{Sized, ActionWritten, write_new_action_lem}
use net_walk.FlowUnit.Insert.ActionShift.{ActionsMoved, restructure_action_tables_lem}
use net_walk.FlowUnit.Insert.Outcome.{}

-- From `t` to `t'` row `pos` of the action tables got the action set and the flag, and the rows from
-- there to below `tail` moved down by one.
pub record ActionsInserted (t : TcamUnit) (action_set flag : Bytes) (pos tail : ℕ) (t' : TcamUnit)
    : Type 0 where
  pub rest : t' ≡ record t { action_table = t'.action_table; flag_table = t'.flag_table }
  pub sized : Sized t'
  pub action : (k : ℕ) → k < 31 → byte_at t'.action_table (pos * 31 + k) ≡ byte_at action_set k
  pub flag_bytes : (k : ℕ) → k < 2 → byte_at t'.flag_table (2 * pos + k) ≡ byte_at flag k
  pub after :
      (r k : ℕ)
      → pos ≤ r
      → r < tail
      → k < 31
      → byte_at t'.action_table ((r + 1) * 31 + k) ≡ byte_at t.action_table (r * 31 + k)
  pub flags_after :
      (r k : ℕ)
      → pos ≤ r
      → r < tail
      → k < 2
      → byte_at t'.flag_table (2 * (r + 1) + k) ≡ byte_at t.flag_table (2 * r + k)
  pub before : (q : ℕ) → q < pos * 31 → byte_at t'.action_table q ≡ byte_at t.action_table q
  pub flags_before : (q : ℕ) → q < 2 * pos → byte_at t'.flag_table q ≡ byte_at t.flag_table q

inserted :
    (t t₁ t₂ : TcamUnit) (action_set flag : Bytes) (pos tail : ℕ)
    → ActionsMoved pos tail t t₁
    → ActionWritten t₁ action_set flag pos t₂
    → ActionsInserted t action_set flag pos tail t₂
inserted t t₁ t₂ action_set flag pos tail m w = record {
  rest = ground (arith, w.rest, m.rest);
  sized = w.sized;
  action = w.action;
  flag_bytes = w.flag_bytes;
  after = λ r k l u hk. w.others ((r + 1) * 31 + k) (inr (omega arith)) ∙ m.moved r k l u hk;
  flags_after =
      λ r k l u hk. w.other_flags (2 * (r + 1) + k) (inr (omega arith)) ∙ m.flags r k l u hk;
  before = λ q h. w.others q (inl h) ∙ m.others q (inl (omega arith));
  flags_before = λ q h. w.other_flags q (inl h) ∙ m.other_flags q (inl (omega arith));
}

not_moved : (t : TcamUnit) (pos hi : ℕ) → hi ≤ pos → Sized t → ActionsMoved pos hi t t
not_moved t pos hi h s = record {
  rest = refl;
  sized = s;
  moved = λ r k l u hk. absurd (omega arith);
  flags = λ r k l u hk. absurd (omega arith);
  others = λ q hq. refl;
  other_flags = λ q hq. refl;
}

module _ (a : Added) (action_set flag : Bytes) (s : Sized a.tcam) (ha : 31 ≤ length action_set)
    (hf : 2 ≤ length flag) where
  pub add_action_lem :
      (pos : ℕ)
      → pos < a.tcam.flow_tail
      → a.tcam.flow_tail ≤ 20
      → Returns
          (λ b.
            (b ≡ record a { tcam = b.tcam })
            × ActionsInserted a.tcam action_set flag pos (a.tcam.flow_tail - 1) b.tcam)
          (add_action a action_set flag pos)
  unfolding add_action
  add_action_lem pos h small = elim (dec_lt pos (a.tcam.flow_tail - 1)) [
    | yes behind ↦
        let (t₁, run₁, m) = restructure_action_tables_lem a.tcam pos s h small in
        let (t₂, run₂, w) =
          write_new_action_lem t₁ action_set flag pos m.sized (omega arith) ha hf in
        let e : ltb pos (a.tcam.flow_tail - 1) ≡ true = ground arith in
        (
          record a { tcam = t₂ },
          rw (e, run₁, run₂) refl,
          (refl, inserted a.tcam t₁ t₂ action_set flag pos (a.tcam.flow_tail - 1) m w),
        )
    | no last ↦
        let (t₂, run₂, w) = write_new_action_lem a.tcam action_set flag pos s (omega arith) ha hf in
        let e : ltb pos (a.tcam.flow_tail - 1) ≡ false = ground arith in
        (
          record a { tcam = t₂ },
          rw (e, run₂) refl,
          (
            refl,
            inserted a.tcam a.tcam t₂ action_set flag pos (a.tcam.flow_tail - 1)
                (not_moved a.tcam pos (a.tcam.flow_tail - 1) (omega arith) s) w,
          ),
        )
  ]

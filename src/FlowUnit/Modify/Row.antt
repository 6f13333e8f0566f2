-- ===== src/FlowUnit/Modify/Row.antt =====
-- All edits of `modify_entry` on the two rows of an entry.
use net_walk.Base.{
  ℕ, ◌+◌, ◌*◌, ◌%◌, ◌^◌, ◌≤◌, ◌<◌, ◌≡◌, inl, inr, refl, arith, Bytes, AllBytes, length, Returns,
  ℕ_discrete, ◌==◌, false,
}
use net_walk.Bits.Laws.{bit_at, read_bit_in}
use net_walk.FlowUnit.{TcamUnit}
use net_walk.FlowUnit.Groups.{}
use net_walk.FlowUnit.Insert.Actions.{Sized}
use net_walk.FlowUnit.Modify.{Edit, ActionField, action_fields, edit_actions, end_edit, modify_at}
use net_walk.FlowUnit.Modify.Edits.{Edited, Fits, AllFit, total, edit_fields_lem, Edited-later}
use net_walk.FlowUnit.Modify.OneByte.{edit_port_lem, edit_byte_lem}

lies : {f : ActionField} → 0 < f.width → f.width ≤ 48 → f.strt_bit + f.width ≤ 248 → Fits f
lies some_bit short within = record { some_bit = some_bit; short = short; within = within }

fit : AllFit action_fields
fit = (
  lies (omega arith) (omega arith) (omega arith),
  omega arith,
  (
    lies (omega arith) (omega arith) (omega arith),
    omega arith,
    (
      lies (omega arith) (omega arith) (omega arith),
      omega arith,
      (
        lies (omega arith) (omega arith) (omega arith),
        omega arith,
        (
          lies (omega arith) (omega arith) (omega arith),
          omega arith,
          (
            lies (omega arith) (omega arith) (omega arith),
            omega arith,
            (
              lies (omega arith) (omega arith) (omega arith),
              omega arith,
              (
                lies (omega arith) (omega arith) (omega arith),
                omega arith,
                (
                  lies (omega arith) (omega arith) (omega arith),
                  omega arith,
                  (
                    lies (omega arith) (omega arith) (omega arith),
                    omega arith,
                    (lies (omega arith) (omega arith) (omega arith), omega arith, tt),
                  ),
                ),
              ),
            ),
          ),
        ),
      ),
    ),
  ),
)

module _ (t : TcamUnit) (pos : ℕ) (flag new_values : Bytes) (row : pos < 20)
    (flag_size : 2 ≤ length flag) (bytes : AllBytes new_values) (enough : 34 ≤ length new_values)
    (flows : length t.flow_table ≡ 960) (s : Sized t) where
  edit_actions_lem :
      (e : Edit)
      → Edited t pos flag 0 e
      → Returns (Edited t pos flag 244) (edit_actions pos flag new_values e)
  unfolding edit_actions
  edit_actions_lem e d = elim (ℕ_discrete (bit_at flag 0) 0) [
    | yes z ↦
        let (e₁, run₁, d₁) =
          edit_fields_lem t pos flag new_values row flag_size bytes action_fields 0 e fit
            (unfold total in omega arith) d in
        let (e₂, run₂, d₂) =
          edit_port_lem t pos flag new_values row flag_size bytes 236 e₁ (omega arith)
            (unfold total in d₁) in
        (e₂, rw (read_bit_in flag 0 (omega arith), z, run₁) run₂, d₂)
    | no nz ↦
        let is_set : (bit_at flag 0 == 0) ≡ false = ground (arith, nz) in
        (
          e,
          rw (read_bit_in flag 0 (omega arith), is_set) refl,
          Edited-later t pos flag new_values row flag_size bytes 0 244 e d,
        )
  ]

  -- All edits, up to the last step.
  pub edits_lem :
      (e : Edit)
      → Edited t pos flag 0 e
      → (e' : Edit) × (modify_at pos flag new_values e ≡ end_edit pos flag e')
        × Edited t pos flag 268 e'
  unfolding modify_at
  edits_lem e d =
      let (e₁, run₁, d₁) = edit_actions_lem e d in
      let (e₂, run₂, d₂) =
        edit_byte_lem t pos flag new_values row flag_size bytes 13 (pos * 48 + 45) (λ v. v) 244 e₁
          (omega arith) (omega arith) (omega arith) (inl (λ x. omega arith)) flows (omega arith)
          d₁ in
      let (e₃, run₃, d₃) =
        edit_byte_lem t pos flag new_values row flag_size bytes 14 (pos * 48 + 46)
          (λ v. (v + 1) % 2 ^ 8) 252 e₂ (omega arith) (omega arith) (omega arith) (inr refl) flows
          (omega arith) d₂ in
      let (e₄, run₄, d₄) =
        edit_byte_lem t pos flag new_values row flag_size bytes 15 (pos * 48 + 47) (λ v. v) 260 e₃
          (omega arith) (omega arith) (omega arith) (inl (λ x. omega arith)) flows (omega arith)
          d₃ in
      (e₄, rw (run₁, run₂, run₃, run₄) refl, d₄)

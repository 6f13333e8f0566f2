-- ===== src/FlowUnit/Modify/Edits.antt =====
-- What each edit of `modify_entry` keeps.
use net_walk.Base.{
  ℕ, ◌+◌, ◌-◌, ◌*◌, ◌≤◌, ◌<◌, ◌≡◌, ◌⊎◌, inl, inr, refl, ◌∙◌, arith, Bytes, AllBytes, List, [], ◌∷◌,
  length, byte_at, Returns, ℕ_discrete, ◌==◌, false,
}
use net_walk.Bits.Laws.{bit_at, read_bit_in}
use net_walk.Bits.Copy.{Filled-out}
use net_walk.ModifyField.RoundTrip.{extract_field_lem, replace_field_lem}
use net_walk.FlowUnit.{TcamUnit}
use net_walk.FlowUnit.Modify.{Edit, ActionField, edit_field, edit_fields}

-- The bits of a row of the action table, and the bytes of a row of the flow table, that an edit of row
-- `pos` leaves.
abbrev pub OtherBit : ℕ → ℕ → Type 0
OtherBit pos q = (q < pos * 248) ⊎ (pos * 248 + 248 ≤ q)

abbrev pub OtherByte : ℕ → ℕ → Type 0
OtherByte pos q = (q < pos * 48 + 45) ⊎ (pos * 48 + 48 ≤ q)

-- After edits of row `pos` of `t` that took at most `bits` bits of the new values. The counter may have
-- changed only if bit 14 of the flag is set.
pub record Edited (t : TcamUnit) (pos : ℕ) (flag : Bytes) (bits : ℕ) (e : Edit) : Type 0 where
  pub rest :
      e.tcam ≡ record t { action_table = e.tcam.action_table; flow_table = e.tcam.flow_table }
  pub actions : length e.tcam.action_table ≡ 620
  pub action_bytes : AllBytes e.tcam.action_table
  pub val_size : 6 ≤ length e.val
  pub val_bytes : AllBytes e.val
  pub taken : e.val_pos ≤ bits
  pub flows : length e.tcam.flow_table ≡ length t.flow_table
  pub other_rows : (q : ℕ) → OtherByte pos q → byte_at e.tcam.flow_table q ≡ byte_at t.flow_table q
  pub other_actions :
      (q : ℕ) → OtherBit pos q → bit_at e.tcam.action_table q ≡ bit_at t.action_table q
  pub counter :
      bit_at flag 14 ≡ 0
      → byte_at e.tcam.flow_table (pos * 48 + 46) ≡ byte_at t.flow_table (pos * 48 + 46)

-- A field lies in the row and fits into `val`.
pub record Fits (f : ActionField) : Type 0 where
  pub some_bit : 0 < f.width
  pub short : f.width ≤ 48
  pub within : f.strt_bit + f.width ≤ 248

-- How many bits the fields have.
unfoldable pub total : List ActionField → ℕ
total [] = 0
total (f ∷ fs) = f.width + total fs

abbrev pub AllFit : List ActionField → Type 0
AllFit [] = Unit
AllFit (f ∷ fs) = Fits f × (f.flag_bit < 16) × AllFit fs

module _ (t : TcamUnit) (pos : ℕ) (flag new_values : Bytes) (row : pos < 20)
    (flag_size : 2 ≤ length flag) (bytes : AllBytes new_values) where
  -- An edit that the flag does not ask for.
  pub Edited-later :
      (bits more : ℕ) (e : Edit) → Edited t pos flag bits e → Edited t pos flag (bits + more) e
  Edited-later bits more e d = record {
    rest = d.rest;
    actions = d.actions;
    action_bytes = d.action_bytes;
    val_size = d.val_size;
    val_bytes = d.val_bytes;
    taken = omega (arith, d.taken);
    flows = d.flows;
    other_rows = d.other_rows;
    other_actions = d.other_actions;
    counter = d.counter;
  }

  pub edit_field_lem :
      (f : ActionField) (bits : ℕ) (e : Edit)
      → Fits f
      → f.flag_bit < 16
      → bits + f.width ≤ 8 * length new_values
      → Edited t pos flag bits e
      → Returns (Edited t pos flag (bits + f.width)) (edit_field pos flag new_values f e)
  unfolding edit_field
  edit_field_lem f bits e fits small enough d = elim (ℕ_discrete (bit_at flag f.flag_bit) 0) [
    | yes z ↦
        (e, rw (read_bit_in flag f.flag_bit (omega arith), z) refl, Edited-later bits f.width e d)
    | no nz ↦
        let (val, run₁, c₁) =
          extract_field_lem new_values 0 e.val_pos (e.val_pos + (f.width - 1)) e.val (omega arith)
            (omega (arith, fits.some_bit, d.taken)) (omega (arith, fits.short, d.val_size))
            d.val_bytes in
        let (table, run₂, c₂) =
          replace_field_lem e.tcam.action_table pos f.strt_bit (f.strt_bit + (f.width - 1)) val
            (omega arith) (omega (arith, fits.some_bit, fits.within, d.actions))
            (omega (arith, fits.short, d.val_size, c₁.size)) d.action_bytes in
        let set_bit : (bit_at flag f.flag_bit == 0) ≡ false = ground (arith, nz) in
        (
          record {
            tcam = record e.tcam { action_table = table };
            val = val;
            val_pos = e.val_pos + f.width;
          },
          rw (read_bit_in flag f.flag_bit (omega arith), set_bit, run₁, run₂) refl,
          record {
            rest = ground (arith, d.rest);
            actions = c₂.size ∙ d.actions;
            action_bytes = c₂.bytes;
            val_size = omega (arith, c₁.size, d.val_size);
            val_bytes = c₁.bytes;
            taken = omega (arith, d.taken);
            flows = d.flows;
            other_rows = d.other_rows;
            other_actions = λ q h. Filled-out c₂ q (outside fits q h) ∙ d.other_actions q h;
            counter = d.counter;
          },
        )
  ]
    where
      outside :
          Fits f
          → (q : ℕ) → OtherBit pos q
          → (q < pos * 248 + f.strt_bit)
            ⊎ (pos * 248 + f.strt_bit + (f.strt_bit + (f.width - 1) + 1 - f.strt_bit) ≤ q)
      outside fits q (inl h) = inl (omega arith)
      outside fits q (inr h) = inr (omega (arith, fits.within, fits.some_bit))

  pub edit_fields_lem :
      (fs : List ActionField) (bits : ℕ) (e : Edit)
      → AllFit fs
      → bits + total fs ≤ 8 * length new_values
      → Edited t pos flag bits e
      → Returns (Edited t pos flag (bits + total fs)) (edit_fields pos flag new_values fs e)
  unfolding edit_fields total
  edit_fields_lem [] bits e fit enough d = (e, refl, Edited-later bits 0 e d)
  edit_fields_lem (f ∷ fs) bits e (fits, small, fit) enough d =
      let (e₁, run₁, d₁) = edit_field_lem f bits e fits small (omega arith) d in
      let (e₂, run₂, d₂) = edit_fields_lem fs (bits + f.width) e₁ fit (omega arith) d₁ in
      let same : bits + f.width + total fs ≡ bits + (f.width + total fs) = omega arith in
      (e₂, rw run₁ run₂, rw (← same) d₂)

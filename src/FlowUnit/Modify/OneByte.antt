-- ===== src/FlowUnit/Modify/OneByte.antt =====
-- What the edits of single bytes of `modify_entry` keep.
use net_walk.Base.{
  ℕ, ◌+◌, ◌*◌, ◌/◌, ◌≤◌, ◌<◌, ◌≡◌, ◌≢◌, ◌⊎◌, inl, inr, refl, ap, ◌∙◌, arith, Bytes, AllBytes,
  length, byte_at, set, get_or-set, length-set, set-AllBytes, byte_at-lt, load_in, store_in,
  Returns, ℕ_discrete, ◌==◌, false,
}
use net_walk.Bits.Laws.{bit_at, read_bit_in}
use net_walk.ModifyField.RoundTrip.{extract_field_lem}
use net_walk.FlowUnit.{TcamUnit}
use net_walk.FlowUnit.Modify.{Edit, next_byte, edit_port, edit_byte}
use net_walk.FlowUnit.Modify.Edits.{Edited, OtherBit, OtherByte, Edited-later}

bit_at-set : (a : Bytes) (i v q : ℕ) → i < length a → q / 8 ≢ i → bit_at (set a i v) q ≡ bit_at a q
unfolding bit_at
bit_at-set a i v q h ne =
    let e : byte_at (set a i v) (q / 8) ≡ byte_at a (q / 8) =
      ground (arith, get_or-set a i (q / 8) v 0 h, ne) in
    rw e refl

module _ (t : TcamUnit) (pos : ℕ) (flag new_values : Bytes) (row : pos < 20)
    (flag_size : 2 ≤ length flag) (bytes : AllBytes new_values) where
  next_byte_lem :
      (bits : ℕ) (e : Edit)
      → bits + 8 ≤ 8 * length new_values
      → Edited t pos flag bits e
      → Returns
          (λ e'. Edited t pos flag (bits + 8) e' × (e'.tcam ≡ e.tcam))
          (next_byte new_values e)
  unfolding next_byte
  next_byte_lem bits e enough d =
      let (val, run, c) =
        extract_field_lem new_values 0 e.val_pos (e.val_pos + 7) e.val (omega arith)
          (omega (arith, d.taken)) (omega (arith, d.val_size)) d.val_bytes in
      (
        record e { val = val; val_pos = e.val_pos + 8 },
        rw run refl,
        (
          record {
            rest = d.rest;
            actions = d.actions;
            action_bytes = d.action_bytes;
            val_size = omega (arith, c.size, d.val_size);
            val_bytes = c.bytes;
            taken = omega (arith, d.taken);
            flows = d.flows;
            other_rows = d.other_rows;
            other_actions = d.other_actions;
            counter = d.counter;
          },
          refl,
        ),
      )

  pub edit_port_lem :
      (bits : ℕ) (e : Edit)
      → bits + 8 ≤ 8 * length new_values
      → Edited t pos flag bits e
      → Returns (Edited t pos flag (bits + 8)) (edit_port pos flag new_values e)
  unfolding edit_port
  edit_port_lem bits e enough d = elim (ℕ_discrete (bit_at flag 12) 0) [
    | yes z ↦ (
      e,
      rw (read_bit_in flag 12 (omega arith), z) refl,
      Edited-later t pos flag new_values row flag_size bytes bits 8 e d,
    )
    | no nz ↦
        let (e', run, (d', same)) = next_byte_lem bits e enough d in
        let is_set : (bit_at flag 12 == 0) ≡ false = ground (arith, nz) in
        let port : ℕ = byte_at e'.val 0 in
        let inside : pos * 31 + 30 < length e'.tcam.action_table = omega (arith, d'.actions) in
        (
          record e' {
            tcam = record e'.tcam { action_table = set e'.tcam.action_table (pos * 31 + 30) port };
          },
          rw
              (
                read_bit_in flag 12 (omega arith),
                is_set,
                run,
                load_in e'.val 0 (omega (arith, d'.val_size)),
                store_in e'.tcam.action_table (pos * 31 + 30) port inside,
              )
              refl,
          record {
            rest = ground (arith, d'.rest);
            actions = length-set e'.tcam.action_table (pos * 31 + 30) port ∙ d'.actions;
            action_bytes =
                set-AllBytes e'.tcam.action_table (pos * 31 + 30) port d'.action_bytes
                  (byte_at-lt e'.val 0 d'.val_bytes);
            val_size = d'.val_size;
            val_bytes = d'.val_bytes;
            taken = d'.taken;
            flows = d'.flows;
            other_rows = d'.other_rows;
            other_actions = λ q h.
                bit_at-set e'.tcam.action_table (pos * 31 + 30) port q inside (outside q h)
                ∙ d'.other_actions q h;
            counter = d'.counter;
          },
        )
  ]
    where
      outside : (q : ℕ) → OtherBit pos q → q / 8 ≢ pos * 31 + 30
      outside q (inl h) x = omega arith
      outside q (inr h) x = omega arith

  pub edit_byte_lem :
      (bit place : ℕ) (written : ℕ → ℕ) (bits : ℕ) (e : Edit)
      → bit < 16
      → pos * 48 + 45 ≤ place
      → place < pos * 48 + 48
      → (place ≢ pos * 48 + 46) ⊎ (bit ≡ 14)
      → length t.flow_table ≡ 960
      → bits + 8 ≤ 8 * length new_values
      → Edited t pos flag bits e
      → Returns (Edited t pos flag (bits + 8)) (edit_byte bit place written flag new_values e)
  unfolding edit_byte
  edit_byte_lem bit place written bits e small lo hi which flows enough d =
      elim (ℕ_discrete (bit_at flag bit) 0) [
        | yes z ↦ (
          e,
          rw (read_bit_in flag bit (omega arith), z) refl,
          Edited-later t pos flag new_values row flag_size bytes bits 8 e d,
        )
        | no nz ↦
            let (e', run, (d', same)) = next_byte_lem bits e enough d in
            let is_set : (bit_at flag bit == 0) ≡ false = ground (arith, nz) in
            let v : ℕ = written (byte_at e'.val 0) in
            let inside : place < length e'.tcam.flow_table = omega (arith, d'.flows) in
            (
              record e' { tcam = record e'.tcam { flow_table = set e'.tcam.flow_table place v } },
              rw
                  (
                    read_bit_in flag bit (omega arith),
                    is_set,
                    run,
                    load_in e'.val 0 (omega (arith, d'.val_size)),
                    store_in e'.tcam.flow_table place v inside,
                  )
                  refl,
              record {
                rest = ground (arith, d'.rest);
                actions = d'.actions;
                action_bytes = d'.action_bytes;
                val_size = d'.val_size;
                val_bytes = d'.val_bytes;
                taken = d'.taken;
                flows = length-set e'.tcam.flow_table place v ∙ d'.flows;
                other_rows = λ q h.
                    ground (arith, get_or-set e'.tcam.flow_table place q v 0 inside, outside q h)
                    ∙ d'.other_rows q h;
                other_actions = d'.other_actions;
                counter = λ z.
                    let ne = elsewhere z nz which in
                    ground
                      (arith, get_or-set e'.tcam.flow_table place (pos * 48 + 46) v 0 inside, ne)
                    ∙ d'.counter z;
              },
            )
      ]
    where
      outside : (q : ℕ) → OtherByte pos q → place ≢ q
      outside q (inl h) x = omega arith
      outside q (inr h) x = omega arith

      elsewhere :
          bit_at flag 14 ≡ 0
          → bit_at flag bit ≢ 0
          → (place ≢ pos * 48 + 46) ⊎ (bit ≡ 14)
          → place ≢ pos * 48 + 46
      elsewhere z nz (inl ne) = ne
      elsewhere z nz (inr e) = absurd (nz (ap (bit_at flag) e ∙ z))

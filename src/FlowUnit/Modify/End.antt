-- ===== src/FlowUnit/Modify/End.antt =====
-- The last step of `modify_entry`, and what the whole call leaves.
use Prim.Native.Nat.{bit_or}
use net_walk.Base.{
  ℕ, zero, suc, ◌+◌, ◌*◌, ◌%◌, ◌≤◌, ◌<◌, ◌≡◌, ◌≢◌, ◌⊎◌, inl, inr, refl, ap, ◌∙◌, arith, Bytes,
  length, byte_at, set, get_or-set, length-set, load_in, store_in, Returns, ◌==◌, if◌then◌else◌,
}
use net_walk.Bits.Laws.{bit_at}
use net_walk.FlowUnit.{TcamUnit}
use net_walk.FlowUnit.Groups.{}
use net_walk.FlowUnit.Insert.Actions.{Sized}
use net_walk.FlowUnit.Modify.{Edit, end_edit}
use net_walk.FlowUnit.Modify.Edits.{Edited, OtherBit, OtherByte}

-- Row `pos` of `t` has new actions and a new priority, counter and timeout, as far as the flag asks for
-- them; the flag of the row has the bits of the given one too, and all other rows stay.
pub record Modified (t : TcamUnit) (pos : ℕ) (flag : Bytes) (t' : TcamUnit) : Type 0 where
  pub rest : t' ≡ record t {
    action_table = t'.action_table;
    flow_table = t'.flow_table;
    flag_table = t'.flag_table;
  }
  pub sized : Sized t'
  pub flows : length t'.flow_table ≡ length t.flow_table
  pub other_rows : (q : ℕ) → OtherByte pos q → byte_at t'.flow_table q ≡ byte_at t.flow_table q
  pub other_actions : (q : ℕ) → OtherBit pos q → bit_at t'.action_table q ≡ bit_at t.action_table q
  pub counter :
      bit_at flag 14 ≡ 0
      → byte_at t'.flow_table (pos * 48 + 46) ≡ (byte_at t.flow_table (pos * 48 + 46) + 255) % 256
  pub flags :
      (k : ℕ)
      → k < 2
      → byte_at t'.flag_table (2 * pos + k)
        ≡ bit_or (byte_at t.flag_table (2 * pos + k)) (byte_at flag k)
  pub other_flags :
      (q : ℕ) → (q < 2 * pos) ⊎ (2 * pos + 2 ≤ q) → byte_at t'.flag_table q ≡ byte_at t.flag_table q

-- The bytes of a flag, each with the bits of another.
flag_or : Bytes → ℕ → Bytes → Bytes
flag_or table pos flag =
    set (set table (2 * pos) (bit_or (byte_at table (2 * pos)) (byte_at flag 0))) (2 * pos + 1)
      (bit_or (byte_at table (2 * pos + 1)) (byte_at flag 1))

length-flag_or :
    (table : Bytes) (pos : ℕ) (flag : Bytes) → length (flag_or table pos flag) ≡ length table
unfolding flag_or
length-flag_or table pos flag =
    length-set (set table (2 * pos) (bit_or (byte_at table (2 * pos)) (byte_at flag 0)))
      (2 * pos + 1) _
    ∙ length-set table (2 * pos) _

byte_at-flag_or :
    (table : Bytes) (pos : ℕ) (flag : Bytes) (q : ℕ)
    → 2 * pos + 1 < length table
    → byte_at (flag_or table pos flag) q ≡ (
        if 2 * pos + 1 == q
        then bit_or (byte_at table (2 * pos + 1)) (byte_at flag 1)
        else if 2 * pos == q
        then bit_or (byte_at table (2 * pos)) (byte_at flag 0)
        else byte_at table q)
unfolding flag_or
byte_at-flag_or table pos flag q h =
    let x : ℕ = bit_or (byte_at table (2 * pos)) (byte_at flag 0) in
    let y : ℕ = bit_or (byte_at table (2 * pos + 1)) (byte_at flag 1) in
    ground (
      arith,
      get_or-set (set table (2 * pos) x) (2 * pos + 1) q y 0,
      get_or-set table (2 * pos) q x 0,
      length-set table (2 * pos) x,
    )

module _ (t : TcamUnit) (pos : ℕ) (flag : Bytes) (row : pos < 20) (flag_size : 2 ≤ length flag)
    (flows : length t.flow_table ≡ 960) (s : Sized t) where
  -- The counter goes back by one, and the flag is added.
  pub end_edit_lem :
      (e : Edit) → Edited t pos flag 268 e → Returns (Modified t pos flag) (end_edit pos flag e)
  unfolding end_edit flag_or
  end_edit_lem e d =
      let hits : ℕ = byte_at e.tcam.flow_table (pos * 48 + 46) in
      let old : e.tcam.flag_table ≡ t.flag_table = ap (λ v. v.flag_table) d.rest in
      let in_flow : pos * 48 + 46 < length e.tcam.flow_table = omega (arith, d.flows) in
      let in_flag : 2 * pos + 1 < length t.flag_table = omega (arith, s.flags) in
      let x : ℕ = bit_or (byte_at t.flag_table (2 * pos)) (byte_at flag 0) in
      let in_set : 2 * pos + 1 < length (set t.flag_table (2 * pos) x) =
        omega (arith, in_flag, length-set t.flag_table (2 * pos) x) in
      let kept : byte_at (set t.flag_table (2 * pos) x) (2 * pos + 1)
          ≡ byte_at t.flag_table (2 * pos + 1) =
        ground (arith, get_or-set t.flag_table (2 * pos) (2 * pos + 1) x 0) in
      (
        record e.tcam {
          flow_table = set e.tcam.flow_table (pos * 48 + 46) ((hits + 255) % 256);
          flag_table = flag_or t.flag_table pos flag;
        },
        rw
            (
              old,
              load_in e.tcam.flow_table (pos * 48 + 46) in_flow,
              store_in e.tcam.flow_table (pos * 48 + 46) ((hits + 255) % 256) in_flow,
              load_in t.flag_table (2 * pos) (omega (arith, in_flag)),
              load_in flag 0 (omega arith),
              store_in t.flag_table (2 * pos) x (omega (arith, in_flag)),
              load_in (set t.flag_table (2 * pos) x) (2 * pos + 1) in_set,
              kept,
              load_in flag 1 (omega arith),
              store_in (set t.flag_table (2 * pos) x) (2 * pos + 1)
                  (bit_or (byte_at t.flag_table (2 * pos + 1)) (byte_at flag 1)) in_set,
            )
            refl,
        record {
          rest = ground (arith, d.rest);
          sized = record {
            actions = d.actions;
            flags = length-flag_or t.flag_table pos flag ∙ s.flags;
          };
          flows = length-set e.tcam.flow_table (pos * 48 + 46) _ ∙ d.flows;
          other_rows = λ q h.
              ground (
                arith,
                get_or-set e.tcam.flow_table (pos * 48 + 46) q ((hits + 255) % 256) 0 in_flow,
                outside q h,
              )
              ∙ d.other_rows q h;
          other_actions = d.other_actions;
          counter = λ z. ground (
            arith,
            get_or-set e.tcam.flow_table (pos * 48 + 46) (pos * 48 + 46) ((hits + 255) % 256) 0
                in_flow,
            d.counter z,
          );
          flags = λ k h. flags_at k h in_flag;
          other_flags = λ q h. ground (arith, byte_at-flag_or t.flag_table pos flag q in_flag);
        },
      )
    where
      outside : (q : ℕ) → OtherByte pos q → pos * 48 + 46 ≢ q
      outside q (inl h) x = omega arith
      outside q (inr h) x = omega arith

      flags_at :
          (k : ℕ)
          → k < 2
          → 2 * pos + 1 < length t.flag_table
          → byte_at (flag_or t.flag_table pos flag) (2 * pos + k)
            ≡ bit_or (byte_at t.flag_table (2 * pos + k)) (byte_at flag k)
      flags_at zero h fits =
          let e : 2 * pos + 0 ≡ 2 * pos = omega arith in
          rw e (ground (arith, byte_at-flag_or t.flag_table pos flag (2 * pos) fits))
      flags_at (suc zero) h fits =
          ground (arith, byte_at-flag_or t.flag_table pos flag (2 * pos + 1) fits)
      flags_at (suc (suc k)) h fits = absurd (omega arith)

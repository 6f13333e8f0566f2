-- ===== src/FlowUnit/Insert/Place.antt =====
-- What writing the new entry between the groups, or behind them, leaves.
use net_walk.Base.{
  ℕ, ◌+◌, ◌-◌, ◌*◌, ◌≤◌, ◌<◌, ◌≡◌, inl, inr, refl, ap, ◌∙◌, some, arith, Bytes, length, byte_at,
  ◌==◌, if◌then◌else◌, Returns, copy_bytes_lem,
}
use net_walk.Bits.{reset_bit, set_bit}
use net_walk.Bits.Laws.{put_bit, reset_bit_in, set_bit_in, length-put_bit}
use net_walk.FlowUnit.{TcamUnit, at, write_new_mask}
use net_walk.FlowUnit.Write.{write_new_flow_entry_lem, EntryWritten}
use net_walk.FlowUnit.Insert.{Added, insert_at, add_group}
use net_walk.FlowUnit.Insert.Shift.{Restructured, restructure_flow_table_lem}

-- The entry stands in row `p` with the group bit `v`, and the rows from there on one row further down.
pub record Inserted (tcam : TcamUnit) (flow_entry : Bytes) (p v : ℕ) (a : Added) : Type 0 where
  pub position : a.position ≡ at p
  pub entry : a.flow_entry ≡ put_bit flow_entry 356 v
  pub row : (k : ℕ) → k < 46 → byte_at a.tcam.flow_table (p * 48 + k) ≡ byte_at a.flow_entry k
  pub hits : byte_at a.tcam.flow_table (p * 48 + 46) ≡ 0
  pub timeout : byte_at a.tcam.flow_table (p * 48 + 47) ≡ 255
  pub before : (q : ℕ) → q < p * 48 → byte_at a.tcam.flow_table q ≡ byte_at tcam.flow_table q
  pub after :
      (r k : ℕ)
      → p ≤ r
      → r < tcam.flow_tail
      → k < 46
      → byte_at a.tcam.flow_table ((r + 1) * 48 + k) ≡ byte_at tcam.flow_table (r * 48 + k)
  pub size : length a.tcam.flow_table ≡ length tcam.flow_table
  pub rest : a.tcam ≡ record tcam { flow_table = a.tcam.flow_table; flow_tail = tcam.flow_tail + 1 }

-- The mask without its last three bits stands behind the others.
pub record MaskAdded (tcam : TcamUnit) (mask : Bytes) (t : TcamUnit) (mask' : Bytes) : Type 0 where
  pub mask_eq : mask' ≡ put_bit (put_bit (put_bit mask 357 0) 358 0) 359 0
  pub row : (j : ℕ) → j < 45 → byte_at t.mask_table (tcam.mask_tail * 45 + j) ≡ byte_at mask' j
  pub before :
      (q : ℕ) → q < tcam.mask_tail * 45 → byte_at t.mask_table q ≡ byte_at tcam.mask_table q
  pub behind :
      (q : ℕ) → tcam.mask_tail * 45 + 45 ≤ q → byte_at t.mask_table q ≡ byte_at tcam.mask_table q
  pub size : length t.mask_table ≡ length tcam.mask_table
  pub rest : t ≡ record tcam { mask_table = t.mask_table; mask_tail = tcam.mask_tail + 1 }

pub insert_at_lem :
    (tcam : TcamUnit) (mask flow_entry : Bytes) (p : ℕ)
    → length tcam.flow_table ≡ 960
    → tcam.flow_tail < 20
    → p ≤ tcam.flow_tail
    → 46 ≤ length flow_entry
    → Returns
        (λ a. Inserted tcam flow_entry p 0 a × (a.mask ≡ mask))
        (insert_at tcam mask flow_entry p)
unfolding insert_at
insert_at_lem tcam mask flow_entry p size room inside long =
    let (t₁, run₁, m) = restructure_flow_table_lem tcam p size room inside in
    let whole : 46 ≤ length (put_bit flow_entry 356 0) =
      omega (arith, length-put_bit flow_entry 356 0) in
    let (t₂, run₂, w) =
      write_new_flow_entry_lem (record t₁ { flow_tail = p }) (put_bit flow_entry 356 0)
        (omega (arith, m.size)) whole in
    (_, rw (run₁, reset_bit_in flow_entry 356 (omega arith), run₂) refl, (placed t₁ t₂ m w, refl))
  where
    placed :
        (t₁ t₂ : TcamUnit)
        → Restructured p tcam t₁
        → EntryWritten (record t₁ { flow_tail = p }) (put_bit flow_entry 356 0) t₂
        → Inserted tcam flow_entry p 0 (record {
          position = at p;
          tcam = record t₂ { flow_tail = t₁.flow_tail };
          mask = mask;
          flow_entry = put_bit flow_entry 356 0;
        })
    placed t₁ t₂ m w = record {
      position = refl;
      entry = refl;
      row = w.fields;
      hits = w.hits;
      timeout = w.timeout;
      before = λ q h. w.others q (inl h) ∙ m.others q (inl (omega arith));
      after =
          λ r k lo hi hk. w.others ((r + 1) * 48 + k) (inr (omega arith)) ∙ m.moved r k lo hi hk;
      size = w.size ∙ m.size;
      rest = ground (arith, w.rest, m.rest);
    }

pub write_new_mask_lem :
    (tcam : TcamUnit) (mask : Bytes)
    → tcam.mask_tail * 45 + 45 ≤ length tcam.mask_table
    → 45 ≤ length mask
    → Returns (λ r. MaskAdded tcam mask (r.0) (r.1)) (write_new_mask tcam mask)
unfolding write_new_mask
write_new_mask_lem tcam mask room long =
    let m₁ : Bytes = put_bit mask 357 0 in
    let m₂ : Bytes = put_bit m₁ 358 0 in
    let m₃ : Bytes = put_bit m₂ 359 0 in
    let l₁ : 45 ≤ length m₁ = omega (arith, length-put_bit mask 357 0) in
    let l₂ : 45 ≤ length m₂ = omega (arith, l₁, length-put_bit m₁ 358 0) in
    let l₃ : 45 ≤ length m₃ = omega (arith, l₂, length-put_bit m₂ 359 0) in
    let (out, run, c) =
      copy_bytes_lem 45 m₃ 0 tcam.mask_table (tcam.mask_tail * 45) (omega arith) room in
    (
      (record tcam { mask_table = out; mask_tail = tcam.mask_tail + 1 }, m₃),
      rw
          (
            reset_bit_in mask 357 (omega arith),
            reset_bit_in m₁ 358 (omega arith),
            reset_bit_in m₂ 359 (omega arith),
            run,
          )
          refl,
      record {
        mask_eq = refl;
        row = λ j h. ground (
          arith,
          c.bytes (tcam.mask_tail * 45 + j),
          ap (byte_at m₃) (back (tcam.mask_tail * 45) j),
        );
        before = λ q h. ground (arith, c.bytes q);
        behind = λ q h. ground (arith, c.bytes q);
        size = c.size;
        rest = refl;
      },
    )
  where
    back : (base k : ℕ) → 0 + (base + k - base) ≡ k
    back base k = omega arith

-- The group bit that the first entry of a group gets.
abbrev pub start_bit : TcamUnit → ℕ
start_bit tcam = if tcam.flow_tail == 0 then 0 else 1

marked :
    (tcam : TcamUnit) (flow_entry : Bytes)
    → 46 ≤ length flow_entry
    → (if tcam.flow_tail == 0
        then reset_bit flow_entry (44 * 8 + 4)
        else set_bit flow_entry (44 * 8 + 4))
      ≡ some (put_bit flow_entry 356 (start_bit tcam))
marked tcam flow_entry h =
    ground
      (arith, reset_bit_in flow_entry 356 (omega arith), set_bit_in flow_entry 356 (omega arith))

-- A new mask and its first entry.
pub add_group_lem :
    (tcam : TcamUnit) (mask flow_entry : Bytes)
    → length tcam.flow_table ≡ 960
    → tcam.flow_tail < 20
    → tcam.mask_tail * 45 + 45 ≤ length tcam.mask_table
    → 45 ≤ length mask
    → 46 ≤ length flow_entry
    → Returns
        (λ a.
          (t : TcamUnit) × MaskAdded tcam mask t a.mask
          × Inserted t flow_entry tcam.flow_tail (start_bit tcam) a)
        (add_group tcam mask flow_entry)
unfolding add_group
add_group_lem tcam mask flow_entry size room masks long whole =
    let e : Bytes = put_bit flow_entry 356 (start_bit tcam) in
    let ((t₁, mask'), run₁, m) = write_new_mask_lem tcam mask masks long in
    let table : t₁.flow_table ≡ tcam.flow_table = ap (λ s. s.flow_table) m.rest in
    let tail : t₁.flow_tail ≡ tcam.flow_tail = ap (λ s. s.flow_tail) m.rest in
    let (t₂, run₂, w) =
      write_new_flow_entry_lem t₁ e (rw (table, tail) (omega arith))
        (omega (arith, length-put_bit flow_entry 356 (start_bit tcam))) in
    (
      _,
      rw (marked tcam flow_entry whole, run₁, run₂) refl,
      (t₁, m, placed t₁ t₂ mask' (start_bit tcam) tail w),
    )
  where
    placed :
        (t₁ t₂ : TcamUnit) (mask' : Bytes) (v : ℕ)
        → t₁.flow_tail ≡ tcam.flow_tail
        → EntryWritten t₁ (put_bit flow_entry 356 v) t₂
        → Inserted t₁ flow_entry tcam.flow_tail v (record {
          position = at (t₂.flow_tail - 1);
          tcam = t₂;
          mask = mask';
          flow_entry = put_bit flow_entry 356 v;
        })
    placed t₁ t₂ mask' v tail w = record {
      position = ground (arith, w.rest, tail);
      entry = refl;
      row = rw (← tail) w.fields;
      hits = rw (← tail) w.hits;
      timeout = rw (← tail) w.timeout;
      before = λ q h. w.others q (inl (omega (arith, tail)));
      after = λ r k lo hi hk. absurd (omega (arith, tail));
      size = w.size;
      rest = w.rest;
    }

-- ===== src/FlowUnit/Delete/Shift.antt =====
-- What moving the rows of the flow table up, over a deleted one, leaves.
use net_walk.Base.{
  ℕ, zero, suc, ◌+◌, ◌-◌, ◌*◌, ◌≤◌, ◌<◌, ◌≡◌, ◌⊎◌, inl, inr, refl, ap, ◌∙◌, arith, Bytes, length,
  byte_at, Returns, ℕ_discrete,
}
use net_walk.FlowUnit.{TcamUnit}
use net_walk.FlowUnit.Write.{EntryWritten, write_new_flow_entry_lem}
use net_walk.FlowUnit.Insert.Shift.{read_row_lem}
use net_walk.FlowUnit.Delete.{move_up, move_up_loop, delete_restructure_flow}

-- From `t` to `t'` the `n` rows behind the tail moved up by one, and the tail stepped on over them.
pub record MovedUp (n : ℕ) (t t' : TcamUnit) : Type 0 where
  pub rest : t' ≡ record t { flow_table = t'.flow_table; flow_tail = t.flow_tail + n }
  pub size : length t'.flow_table ≡ length t.flow_table
  pub moved :
      (r k : ℕ)
      → t.flow_tail ≤ r
      → r < t.flow_tail + n
      → k < 46
      → byte_at t'.flow_table (r * 48 + k) ≡ byte_at t.flow_table ((r + 1) * 48 + k)
  pub hits :
      (r : ℕ)
      → t.flow_tail ≤ r
      → r < t.flow_tail + n
      → (byte_at t'.flow_table (r * 48 + 46) ≡ 0) × (byte_at t'.flow_table (r * 48 + 47) ≡ 255)
  pub others :
      (q : ℕ)
      → (q < t.flow_tail * 48) ⊎ ((t.flow_tail + n) * 48 ≤ q)
      → byte_at t'.flow_table q ≡ byte_at t.flow_table q

up_one :
    (t t' : TcamUnit) (d : Bytes)
    → ((k : ℕ) → k < 48 → byte_at d k ≡ byte_at t.flow_table ((t.flow_tail + 1) * 48 + k))
    → EntryWritten t d t'
    → MovedUp 1 t t'
up_one t t' d bytes w = record {
  rest = w.rest;
  size = w.size;
  moved = λ r k lo hi hk.
      ap (byte_at t'.flow_table) (omega arith)
      ∙ (w.fields k hk ∙ (bytes k (omega arith) ∙ ap (byte_at t.flow_table) (omega arith)));
  hits = λ r lo hi. (
    ap (byte_at t'.flow_table) (omega arith) ∙ w.hits,
    ap (byte_at t'.flow_table) (omega arith) ∙ w.timeout,
  );
  others = λ q h. w.others q (outside q h);
}
  where
    outside :
        (q : ℕ)
        → (q < t.flow_tail * 48) ⊎ ((t.flow_tail + 1) * 48 ≤ q)
        → (q < t.flow_tail * 48) ⊎ (t.flow_tail * 48 + 48 ≤ q)
    outside q (inl h) = inl h
    outside q (inr h) = inr (omega arith)

up_more :
    (n : ℕ) (t t₁ t₂ : TcamUnit)
    → t₁.flow_tail ≡ t.flow_tail + 1
    → MovedUp 1 t t₁
    → MovedUp n t₁ t₂
    → MovedUp (suc n) t t₂
up_more n t t₁ t₂ tail a b = record {
  rest = ground (arith, a.rest, b.rest);
  size = b.size ∙ a.size;
  moved = λ r k lo hi hk. elim (ℕ_discrete r t.flow_tail) [
    | yes e ↦ b.others (r * 48 + k) (inl (omega arith)) ∙ a.moved r k lo (omega arith) hk
    | no ne ↦
        b.moved r k (omega arith) (omega arith) hk ∙ a.others ((r + 1) * 48 + k) (inr (omega arith))
  ];
  hits = λ r lo hi. elim (ℕ_discrete r t.flow_tail) [
    | yes e ↦ (
      b.others (r * 48 + 46) (inl (omega arith)) ∙ (a.hits r lo (omega arith)).0,
      b.others (r * 48 + 47) (inl (omega arith)) ∙ (a.hits r lo (omega arith)).1,
    )
    | no ne ↦ b.hits r (omega arith) (omega arith)
  ];
  others = λ q h. b.others q (later q h) ∙ a.others q (first q h);
}
  where
    later :
        (q : ℕ)
        → (q < t.flow_tail * 48) ⊎ ((t.flow_tail + suc n) * 48 ≤ q)
        → (q < t₁.flow_tail * 48) ⊎ ((t₁.flow_tail + n) * 48 ≤ q)
    later q (inl h) = inl (omega arith)
    later q (inr h) = inr (omega arith)

    first :
        (q : ℕ)
        → (q < t.flow_tail * 48) ⊎ ((t.flow_tail + suc n) * 48 ≤ q)
        → (q < t.flow_tail * 48) ⊎ ((t.flow_tail + 1) * 48 ≤ q)
    first q (inl h) = inl h
    first q (inr h) = inr (omega arith)

move_up_loop_lem :
    (n : ℕ) (t : TcamUnit)
    → length t.flow_table ≡ 960
    → t.flow_tail + n < 20
    → Returns (MovedUp n t) (move_up_loop n t)
unfolding move_up_loop move_up
move_up_loop_lem zero t size room = (
  t,
  refl,
  record {
    rest = ground arith;
    size = refl;
    moved = λ r k lo hi hk. absurd (omega arith);
    hits = λ r lo hi. absurd (omega arith);
    others = λ q h. refl;
  },
)
move_up_loop_lem (suc n) t size room =
    let (d, read, (dsize, bytes)) = read_row_lem t.flow_table (t.flow_tail + 1) (omega arith) in
    let (t₁, wrote, w) = write_new_flow_entry_lem t d (omega arith) (omega arith) in
    let tail : t₁.flow_tail ≡ t.flow_tail + 1 = ap (λ s. s.flow_tail) w.rest in
    let (t₂, run, b) = move_up_loop_lem n t₁ (w.size ∙ size) (omega (arith, tail)) in
    (t₂, rw (read, wrote) run, up_more n t t₁ t₂ tail (up_one t t₁ d bytes w) b)

-- From `t` to `t'` the rows behind `pos` moved up by one, and the tail is one less.
pub record RowRemoved (pos : ℕ) (t t' : TcamUnit) : Type 0 where
  pub rest : t' ≡ record t { flow_table = t'.flow_table; flow_tail = t.flow_tail - 1 }
  pub size : length t'.flow_table ≡ length t.flow_table
  pub moved :
      (r k : ℕ)
      → pos ≤ r
      → r + 1 < t.flow_tail
      → k < 46
      → byte_at t'.flow_table (r * 48 + k) ≡ byte_at t.flow_table ((r + 1) * 48 + k)
  pub hits :
      (r : ℕ)
      → pos ≤ r
      → r + 1 < t.flow_tail
      → (byte_at t'.flow_table (r * 48 + 46) ≡ 0) × (byte_at t'.flow_table (r * 48 + 47) ≡ 255)
  pub before : (q : ℕ) → q < pos * 48 → byte_at t'.flow_table q ≡ byte_at t.flow_table q

pub delete_restructure_flow_lem :
    (t : TcamUnit) (pos : ℕ)
    → length t.flow_table ≡ 960
    → pos < t.flow_tail
    → t.flow_tail ≤ 20
    → Returns (RowRemoved pos t) (delete_restructure_flow t pos)
unfolding delete_restructure_flow
delete_restructure_flow_lem t pos size h small =
    let (t', run, m) =
      move_up_loop_lem (t.flow_tail - 1 - pos) (record t { flow_tail = pos }) size (omega arith) in
    (
      record t' { flow_tail = t.flow_tail - 1 },
      rw run refl,
      record {
        rest = ground (arith, m.rest);
        size = m.size;
        moved = λ r k lo hi hk. m.moved r k lo (omega arith) hk;
        hits = λ r lo hi. m.hits r lo (omega arith);
        before = λ q hq. m.others q (inl hq);
      },
    )

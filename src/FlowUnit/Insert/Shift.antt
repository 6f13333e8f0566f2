-- ===== src/FlowUnit/Insert/Shift.antt =====
-- What moving the rows of the flow table down leaves.
use net_walk.Base.{
  ℕ, zero, suc, ◌+◌, ◌-◌, ◌*◌, ◌≤◌, ◌<◌, ◌≡◌, ◌⊎◌, inl, inr, refl, ap, ◌∙◌, arith, Bytes, length,
  byte_at, replicate, copy_bytes_lem, Returns, ℕ_discrete,
}
use net_walk.FlowUnit.{TcamUnit}
use net_walk.FlowUnit.Write.{EntryWritten, write_new_flow_entry_lem}
use net_walk.FlowUnit.Insert.{move_down, move_down_loop, read_row, restructure_flow_table}

-- The local copy of a row.
pub read_row_lem :
    (table : Bytes) (row : ℕ)
    → row * 48 + 48 ≤ length table
    → Returns
        (λ d. (length d ≡ 48) × ((k : ℕ) → k < 48 → byte_at d k ≡ byte_at table (row * 48 + k)))
        (read_row table row)
read_row_lem table row h =
    let (d, run, p) = copy_bytes_lem 48 table (row * 48) (replicate 48 0) 0 h (omega arith) in
    (d, run, (p.size, λ k hk. p.bytes k ∙ ground (arith, at k)))
  where
    at : (k : ℕ) → byte_at table (row * 48 + (k - 0)) ≡ byte_at table (row * 48 + k)
    at k = ap (λ j. byte_at table (row * 48 + j)) (omega arith)

-- From `t` to `t'` the last `n` rows moved down by one, with new counters and timeouts; row
-- `flow_tail - n` is still what it was.
pub record MovedDown (n : ℕ) (t t' : TcamUnit) : Type 0 where
  pub rest : t' ≡ record t { flow_table = t'.flow_table; flow_tail = t.flow_tail - n }
  pub size : length t'.flow_table ≡ length t.flow_table
  pub moved :
      (r k : ℕ)
      → t.flow_tail - n ≤ r
      → r < t.flow_tail
      → k < 46
      → byte_at t'.flow_table ((r + 1) * 48 + k) ≡ byte_at t.flow_table (r * 48 + k)
  pub hits :
      (r : ℕ)
      → t.flow_tail - n ≤ r
      → r < t.flow_tail
      → (byte_at t'.flow_table ((r + 1) * 48 + 46) ≡ 0)
        × (byte_at t'.flow_table ((r + 1) * 48 + 47) ≡ 255)
  pub others :
      (q : ℕ)
      → (q < (t.flow_tail - n + 1) * 48) ⊎ ((t.flow_tail + 1) * 48 ≤ q)
      → byte_at t'.flow_table q ≡ byte_at t.flow_table q

moved_one :
    (t t' : TcamUnit) (d : Bytes)
    → 0 < t.flow_tail
    → ((k : ℕ) → k < 48 → byte_at d k ≡ byte_at t.flow_table ((t.flow_tail - 1) * 48 + k))
    → EntryWritten t d t'
    → MovedDown 1 t (record t' { flow_tail = t'.flow_tail - 2 })
moved_one t t' d some_row bytes w = record {
  rest = ground (arith, w.rest);
  size = w.size;
  moved = λ r k lo hi hk.
      ap (byte_at t'.flow_table) (omega arith)
      ∙ (w.fields k hk ∙ (bytes k (omega arith) ∙ ap (byte_at t.flow_table) (omega arith)));
  hits = λ r lo hi. (
    ap (byte_at t'.flow_table) (omega arith) ∙ w.hits,
    ap (byte_at t'.flow_table) (omega arith) ∙ w.timeout,
  );
  others = λ q h. w.others q (outside q h);
}
  where
    outside :
        (q : ℕ)
        → (q < (t.flow_tail - 1 + 1) * 48) ⊎ ((t.flow_tail + 1) * 48 ≤ q)
        → (q < t.flow_tail * 48) ⊎ (t.flow_tail * 48 + 48 ≤ q)
    outside q (inl h) = inl (omega arith)
    outside q (inr h) = inr (omega arith)

move_down_lem :
    (t : TcamUnit)
    → length t.flow_table ≡ 960
    → 0 < t.flow_tail
    → t.flow_tail < 20
    → Returns (MovedDown 1 t) (move_down t)
unfolding move_down
move_down_lem t size some_row room =
    let (d, run, (dsize, bytes)) = read_row_lem t.flow_table (t.flow_tail - 1) (omega arith) in
    let (t', wrote, w) = write_new_flow_entry_lem t d (omega arith) (omega arith) in
    (
      record t' { flow_tail = t'.flow_tail - 2 },
      rw (run, wrote) refl,
      moved_one t t' d some_row bytes w,
    )

moved_more :
    (n : ℕ) (t t₁ t₂ : TcamUnit)
    → n < t.flow_tail
    → t₁.flow_tail ≡ t.flow_tail - 1
    → MovedDown 1 t t₁
    → MovedDown n t₁ t₂
    → MovedDown (suc n) t t₂
moved_more n t t₁ t₂ enough tail a b = record {
  rest = ground (arith, a.rest, b.rest);
  size = b.size ∙ a.size;
  moved = λ r k lo hi hk. elim (ℕ_discrete (r + 1) t.flow_tail) [
    | yes e ↦ b.others ((r + 1) * 48 + k) (inr (omega arith)) ∙ a.moved r k (omega arith) hi hk
    | no ne ↦ b.moved r k (omega arith) (omega arith) hk ∙ a.others (r * 48 + k) (inl (omega arith))
  ];
  hits = λ r lo hi. elim (ℕ_discrete (r + 1) t.flow_tail) [
    | yes e ↦ (
      b.others ((r + 1) * 48 + 46) (inr (omega arith)) ∙ (a.hits r (omega arith) hi).0,
      b.others ((r + 1) * 48 + 47) (inr (omega arith)) ∙ (a.hits r (omega arith) hi).1,
    )
    | no ne ↦ b.hits r (omega arith) (omega arith)
  ];
  others = λ q h. b.others q (later q h) ∙ a.others q (first q h);
}
  where
    later :
        (q : ℕ)
        → (q < (t.flow_tail - suc n + 1) * 48) ⊎ ((t.flow_tail + 1) * 48 ≤ q)
        → (q < (t₁.flow_tail - n + 1) * 48) ⊎ ((t₁.flow_tail + 1) * 48 ≤ q)
    later q (inl h) = inl (omega arith)
    later q (inr h) = inr (omega arith)

    first :
        (q : ℕ)
        → (q < (t.flow_tail - suc n + 1) * 48) ⊎ ((t.flow_tail + 1) * 48 ≤ q)
        → (q < (t.flow_tail - 1 + 1) * 48) ⊎ ((t.flow_tail + 1) * 48 ≤ q)
    first q (inl h) = inl (omega arith)
    first q (inr h) = inr h

move_down_loop_lem :
    (n : ℕ) (t : TcamUnit)
    → length t.flow_table ≡ 960
    → n ≤ t.flow_tail
    → t.flow_tail < 20
    → Returns (MovedDown n t) (move_down_loop n t)
unfolding move_down_loop
move_down_loop_lem zero t size enough room = (
  t,
  refl,
  record {
    rest = ground arith;
    size = refl;
    moved = λ r k lo hi hk. absurd (omega arith);
    hits = λ r lo hi. absurd (omega arith);
    others = λ q h. refl;
  },
)
move_down_loop_lem (suc n) t size enough room =
    let (t₁, run₁, a) = move_down_lem t size (omega arith) room in
    let tail : t₁.flow_tail ≡ t.flow_tail - 1 = ap (λ s. s.flow_tail) a.rest in
    let (t₂, run₂, b) = move_down_loop_lem n t₁ (a.size ∙ size) (omega arith) (omega arith) in
    (t₂, rw run₁ run₂, moved_more n t t₁ t₂ enough tail a b)

-- From `t` to `t'` the rows from `pos` on have moved down by one, with new counters and timeouts, and
-- the tail stepped on. Row `pos` is still there.
pub record Restructured (pos : ℕ) (t t' : TcamUnit) : Type 0 where
  pub rest : t' ≡ record t { flow_table = t'.flow_table; flow_tail = t.flow_tail + 1 }
  pub size : length t'.flow_table ≡ length t.flow_table
  pub moved :
      (r k : ℕ)
      → pos ≤ r
      → r < t.flow_tail
      → k < 46
      → byte_at t'.flow_table ((r + 1) * 48 + k) ≡ byte_at t.flow_table (r * 48 + k)
  pub hits :
      (r : ℕ)
      → pos ≤ r
      → r < t.flow_tail
      → (byte_at t'.flow_table ((r + 1) * 48 + 46) ≡ 0)
        × (byte_at t'.flow_table ((r + 1) * 48 + 47) ≡ 255)
  pub others :
      (q : ℕ)
      → (q < (pos + 1) * 48) ⊎ ((t.flow_tail + 1) * 48 ≤ q)
      → byte_at t'.flow_table q ≡ byte_at t.flow_table q

-- If the flow table has its size, the tail is below 20 and `pos` is not behind it, then
-- `restructure_flow_table` ends without a fault. The first 46 bytes of each row from `pos` on are
-- then one row further down, where the counters are 0 and the timeouts 255; the tail is one more, and
-- all else stays, row `pos` included.
pub restructure_flow_table_lem :
    (t : TcamUnit) (pos : ℕ)
    → length t.flow_table ≡ 960
    → t.flow_tail < 20
    → pos ≤ t.flow_tail
    → Returns (Restructured pos t) (restructure_flow_table t pos)
unfolding restructure_flow_table
restructure_flow_table_lem t pos size room inside =
    let (t', run, m) = move_down_loop_lem (t.flow_tail - pos) t size (omega arith) room in
    (
      record t' { flow_tail = t.flow_tail + 1 },
      rw run refl,
      record {
        rest = ground (arith, m.rest);
        size = m.size;
        moved = λ r k lo hi hk. m.moved r k (omega arith) hi hk;
        hits = λ r lo hi. m.hits r (omega arith) hi;
        others = λ q h. m.others q (at q h);
      },
    )
  where
    at :
        (q : ℕ)
        → (q < (pos + 1) * 48) ⊎ ((t.flow_tail + 1) * 48 ≤ q)
        → (q < (t.flow_tail - (t.flow_tail - pos) + 1) * 48) ⊎ ((t.flow_tail + 1) * 48 ≤ q)
    at q (inl h) = inl (omega arith)
    at q (inr h) = inr h

-- ===== src/FlowUnit/Delete/Rows.antt =====
-- The rows of the flow table after a deletion, byte by byte and, in byte 44, bit by bit.
use net_walk.Base.{ℕ, ◌+◌, ◌*◌, ◌≤◌, ◌<◌, ◌≡◌, ◌≢◌, ◌⊎◌, inl, inr, ap, ◌∙◌, arith, byte_at}
use net_walk.Bits.Laws.{bit_at}
use net_walk.FlowUnit.{TcamUnit}
use net_walk.FlowUnit.Groups.{Grouped, bit_same}
use net_walk.FlowUnit.Delete.Regroup.{DeleteRun, flow_same, flow₄, tail₂}

module _ (t : TcamUnit) (pos : ℕ) (g : Grouped t) (inside : pos < t.flow_tail) (t₄ : TcamUnit)
    (run : DeleteRun t pos t₄) where
  pub byte_before : (q : ℕ) → q < pos * 48 → byte_at t₄.flow_table q ≡ byte_at t.flow_table q
  byte_before q h =
      ap (λ f. byte_at f q) (flow₄ t pos g inside t₄ run)
      ∙ (run.row.before q h
          ∙ (run.next.others q (λ e. omega arith)
              ∙ ap (λ f. byte_at f q) (flow_same t pos g inside t₄ run)))

  -- A row that moved up, from the table after the second test.
  byte_moved :
      (r k : ℕ)
      → pos ≤ r
      → r + 1 < t.flow_tail
      → k < 46
      → byte_at t₄.flow_table (r * 48 + k) ≡ byte_at run.t₂.flow_table ((r + 1) * 48 + k)
  byte_moved r k lo hi hk =
      ap (λ f. byte_at f (r * 48 + k)) (flow₄ t pos g inside t₄ run)
      ∙ run.row.moved r k lo (omega (arith, tail₂ t pos g inside t₄ run)) hk

  elsewhere :
      (r k : ℕ) → pos ≤ r → k < 46 → (k ≢ 44) ⊎ (pos < r) → (r + 1) * 48 + k ≢ (pos + 1) * 48 + 44
  elsewhere r k lo hk (inl ne) e = ne (omega arith)
  elsewhere r k lo hk (inr h) e = omega arith

  pub byte_after :
      (r k : ℕ)
      → pos ≤ r
      → r + 1 < t.flow_tail
      → k < 46
      → (k ≢ 44) ⊎ (pos < r)
      → byte_at t₄.flow_table (r * 48 + k) ≡ byte_at t.flow_table ((r + 1) * 48 + k)
  byte_after r k lo hi hk why =
      byte_moved r k lo hi hk
      ∙ (run.next.others ((r + 1) * 48 + k) (elsewhere r k lo hk why)
          ∙ ap (λ f. byte_at f ((r + 1) * 48 + k)) (flow_same t pos g inside t₄ run))

  pub bits_after :
      (j : ℕ)
      → pos + 1 < t.flow_tail
      → j < 8
      → j ≢ 4
      → bit_at t₄.flow_table ((pos * 48 + 44) * 8 + j)
        ≡ bit_at t.flow_table (((pos + 1) * 48 + 44) * 8 + j)
  bits_after j more h ne =
      bit_same run.t₂.flow_table t₄.flow_table ((pos + 1) * 48 + 44) (pos * 48 + 44) j h
        (byte_moved pos 44 (omega arith) more (omega arith))
      ∙ (run.next.other_bits (((pos + 1) * 48 + 44) * 8 + j) (λ e. ne (omega arith))
          ∙ ap (λ f. bit_at f (((pos + 1) * 48 + 44) * 8 + j)) (flow_same t pos g inside t₄ run))

  pub counters_after :
      (r : ℕ)
      → pos ≤ r
      → r + 1 < t.flow_tail
      → (byte_at t₄.flow_table (r * 48 + 46) ≡ 0) × (byte_at t₄.flow_table (r * 48 + 47) ≡ 255)
  counters_after r lo hi =
      let (zero_hits, timeout) = run.row.hits r lo (omega (arith, tail₂ t pos g inside t₄ run)) in
      (
        ap (λ f. byte_at f (r * 48 + 46)) (flow₄ t pos g inside t₄ run) ∙ zero_hits,
        ap (λ f. byte_at f (r * 48 + 47)) (flow₄ t pos g inside t₄ run) ∙ timeout,
      )

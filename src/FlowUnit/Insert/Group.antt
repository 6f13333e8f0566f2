-- ===== src/FlowUnit/Insert/Group.antt =====
-- The loop of `search_within_mask_group`: it ends behind the last row of the group, or at a row that
-- does not clash with the new entry.
use net_walk.Base.{
  ℕ, zero, suc, ◌+◌, ◌*◌, ◌≤◌, ◌<◌, ◌≡◌, ◌≢◌, ◌⊎◌, inl, inr, refl, ap, ◌∙◌, Bool, true, false, not,
  Option, some, arith, Bytes, length, ◌==◌, if◌then◌else◌, Returns, Runs, ℕ_discrete, Bool-cases,
}
use net_walk.Bits.Laws.{bit_at, read_bit_in}
use net_walk.FlowUnit.{TcamUnit, Position, at, rdndnt}
use net_walk.FlowUnit.Search.{any_round}
use net_walk.FlowUnit.Groups.{starts, first_bit, group_of}
use net_walk.FlowUnit.Insert.{bit_clashes, clashes, after_row, group_loop}
use net_walk.FlowUnit.Insert.Find.{starts_next, reads}

any_round-Runs :
    (test : ℕ → Option Bool) (n lo hi : ℕ)
    → lo + n ≡ hi
    → ((i : ℕ) → i < hi → Runs (test i))
    → Runs (any_round n lo test)
unfolding any_round
any_round-Runs test zero lo hi e h = (false, refl)
any_round-Runs test (suc n) lo hi e h =
    let (b, run) = h lo (omega arith) in
    let (c, rest) = any_round-Runs test n (lo + 1) hi (omega arith) h in
    elim (Bool-cases b) [ inl y ↦ (true, rw (run, y) refl) | inr y ↦ (c, rw (run, y) rest) ]

-- What the loop from row `lo` on gives: a row of the group that does not clash, or the place behind
-- the group, all rows of which from `lo` on clash.
pub data GroupEnd (tcam : TcamUnit) (mask flow_entry : Bytes) (lo mask_no : ℕ)
    : Position → Type 0 where
  same :
      (r : ℕ)
      → lo ≤ r
      → r < tcam.flow_tail
      → group_of tcam r ≡ mask_no
      → clashes tcam mask flow_entry r ≡ some false
      → GroupEnd tcam mask flow_entry lo mask_no rdndnt
  behind :
      (p : ℕ)
      → lo < p
      → p ≤ tcam.flow_tail
      → starts (first_bit tcam) p ≡ mask_no
      → (p ≡ tcam.flow_tail) ⊎ (first_bit tcam p ≢ 0)
      → ((r : ℕ) → lo ≤ r → r < p → clashes tcam mask flow_entry r ≡ some true)
      → GroupEnd tcam mask flow_entry lo mask_no (at p)

module _ (tcam : TcamUnit) (mask flow_entry : Bytes) (flows : length tcam.flow_table ≡ 960)
    (room : tcam.flow_tail < 20) (long : 45 ≤ length mask) (whole : 46 ≤ length flow_entry) where
  bit_clashes-Runs :
      (i l j : ℕ) → i < 20 → l < 45 → j < 8 → Runs (bit_clashes tcam mask flow_entry i l j)
  unfolding bit_clashes
  bit_clashes-Runs i l j hi hl hj = elim (Bool-cases (bit_at mask (l * 8 + j) == 0)) [
    | inl y ↦ (false, rw (read_bit_in mask (l * 8 + j) (omega arith), y) refl)
    | inr y ↦ (
      not (bit_at flow_entry (i * 8 + j) == bit_at tcam.flow_table ((i * 48 + l) * 8 + j)),
      rw
          (
            read_bit_in mask (l * 8 + j) (omega arith),
            y,
            read_bit_in flow_entry (i * 8 + j) (omega arith),
            read_bit_in tcam.flow_table ((i * 48 + l) * 8 + j) (omega arith),
          )
          refl,
    )
  ]

  pub clashes-Runs : (i : ℕ) → i < 20 → Runs (clashes tcam mask flow_entry i)
  unfolding clashes
  clashes-Runs i hi =
      any_round-Runs _ 45 0 45 refl
        λ l hl. any_round-Runs _ 8 0 8 refl λ j hj. bit_clashes-Runs i l j hi hl hj

  pub after_same : (i : ℕ) (rest : Option Position) → after_row tcam i false rest ≡ some rdndnt
  unfolding after_row
  after_same i rest = refl

  pub after_clash :
      (i : ℕ) (rest : Option Position)
      → i + 1 < 20
      → after_row tcam i true rest
        ≡ (if first_bit tcam (i + 1) == 0 then rest else some (at (i + 1)))
  unfolding after_row
  after_clash i rest h = rw (reads tcam flows (omega arith) (i + 1) h) refl

  -- Row `lo` clashes, and what follows it is in the same group.
  one_more :
      (lo mask_no : ℕ) (p : Position)
      → clashes tcam mask flow_entry lo ≡ some true
      → GroupEnd tcam mask flow_entry (lo + 1) mask_no p
      → GroupEnd tcam mask flow_entry lo mask_no p
  one_more lo mask_no p c (same r h below g s) = same r (omega arith) below g s
  one_more lo mask_no p c (behind q h inside g e all) =
      behind q (omega arith) inside g e
        λ r l u. elim (ℕ_discrete r lo) [ yes y ↦ rw y c | no ne ↦ all r (omega arith) u ]

  only :
      (i : ℕ)
      → clashes tcam mask flow_entry i ≡ some true
      → (r : ℕ) → i ≤ r
      → r < i + 1
      → clashes tcam mask flow_entry r ≡ some true
  only i c r l u = let e : r ≡ i = omega arith in rw e c

  here : (mask_no i : ℕ) → starts (first_bit tcam) (i + 1) ≡ mask_no → group_of tcam i ≡ mask_no
  here mask_no i g = let e : suc i ≡ i + 1 = omega arith in rw e g

  pub group_loop_lem :
      (mask_no n i : ℕ)
      → i + 1 + n ≡ tcam.flow_tail
      → starts (first_bit tcam) (i + 1) ≡ mask_no
      → Returns (GroupEnd tcam mask flow_entry i mask_no) (group_loop n i tcam mask flow_entry)
  unfolding group_loop
  group_loop_lem mask_no zero i e g =
      let (b, run) = clashes-Runs i (omega arith) in
      elim (Bool-cases b) [
        | inl y ↦ (
          at (i + 1),
          rw (run, y) (after_clash i (some (at (i + 1))) (omega arith) ∙ ground arith),
          behind (i + 1) (omega arith) (omega arith) g (inl (omega arith))
              (only i (run ∙ ap some y)),
        )
        | inr y ↦ (
          rdndnt,
          rw (run, y) (after_same i _),
          same i (omega arith) (omega arith) (here mask_no i g) (run ∙ ap some y),
        )
      ]
  group_loop_lem mask_no (suc n) i e g =
      let (b, run) = clashes-Runs i (omega arith) in
      elim (Bool-cases b) [
        | inl y ↦ elim (ℕ_discrete (first_bit tcam (i + 1)) 0) [
          | yes z ↦
              let (p, rest, q) =
                group_loop_lem mask_no n (i + 1) (omega arith)
                  (ground (arith, starts_next tcam flows (omega arith) (i + 1), z, g)) in
              (
                p,
                rw (run, y) (after_clash i _ (omega arith) ∙ ground (arith, z, rest)),
                one_more i mask_no p (run ∙ ap some y) q,
              )
          | no z ↦ (
            at (i + 1),
            rw (run, y) (after_clash i _ (omega arith) ∙ ground (arith, z)),
            behind (i + 1) (omega arith) (omega arith) g (inr z) (only i (run ∙ ap some y)),
          )
        ]
        | inr y ↦ (
          rdndnt,
          rw (run, y) (after_same i _),
          same i (omega arith) (omega arith) (here mask_no i g) (run ∙ ap some y),
        )
      ]

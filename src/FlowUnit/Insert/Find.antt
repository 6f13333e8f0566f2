-- ===== src/FlowUnit/Insert/Find.antt =====
-- What `add_new_flow_entry` finds: the mask, the start of its group and the end of the group.
use net_walk.Base.{
  ℕ, zero, suc, ◌+◌, ◌*◌, ◌≤◌, ◌<◌, ◌≡◌, inl, inr, refl, ap, Bool, true, false, not, Option, none,
  some, arith, Bytes, load_in, length, byte_at, ◌==◌, if◌then◌else◌, Returns, ℕ_discrete,
  Bool-cases,
}
use net_walk.Bits.{read_bit}
use net_walk.Bits.Laws.{read_bit_in}
use net_walk.FlowUnit.{TcamUnit, group_bit}
use net_walk.FlowUnit.Search.Match.{any_round_lem, any_of-false, any_of_none, any_of}
use net_walk.FlowUnit.Groups.{starts, starts_upto, first_bit, group_of, Grouped, Grouped-mask_tail}
use net_walk.FlowUnit.Insert.{other_mask, find_mask, locate_loop, locate_mask_group}

-- The mask table holds the mask at `i`.
abbrev pub SameMask : TcamUnit → Bytes → ℕ → Type 0
SameMask tcam mask i = (j : ℕ) → j < 45 → byte_at tcam.mask_table (i * 45 + j) ≡ byte_at mask j

-- The first place of the mask, or none.
pub data FoundMask (tcam : TcamUnit) (mask : Bytes) : Option ℕ → Type 0 where
  found :
      (i : ℕ)
      → i < tcam.mask_tail
      → SameMask tcam mask i
      → ((j : ℕ) → j < i → ¬ (SameMask tcam mask j))
      → FoundMask tcam mask (some i)
  new : ((j : ℕ) → j < tcam.mask_tail → ¬ (SameMask tcam mask j)) → FoundMask tcam mask none

module _ (tcam : TcamUnit) (mask : Bytes) (masks : length tcam.mask_table ≡ 900)
    (long : 45 ≤ length mask) where
  abbrev byte_differs : ℕ → ℕ → Bool
  byte_differs i j = not (byte_at tcam.mask_table (i * 45 + j) == byte_at mask j)

  other_mask_lem : (i : ℕ) → i < 20 → other_mask tcam mask i ≡ some (any_of 45 0 (byte_differs i))
  unfolding other_mask
  other_mask_lem i h = any_round_lem _ (byte_differs i) 45 0 45 refl λ j hj.
      rw (load_in tcam.mask_table (i * 45 + j) (omega arith), load_in mask j (omega arith)) refl

  same_mask : (i : ℕ) → any_of 45 0 (byte_differs i) ≡ false → SameMask tcam mask i
  same_mask i h j hj =
      let e = any_of-false (byte_differs i) 45 0 h j (omega arith) hj in ground (arith, e)

  not-SameMask : (i : ℕ) → any_of 45 0 (byte_differs i) ≡ true → ¬ (SameMask tcam mask i)
  not-SameMask i h s =
      let e = any_of_none (byte_differs i) 45 0 (λ j _ hj. ground (arith, s j hj)) in
      ground (arith, e, h)

  find_mask_lem :
      (n i : ℕ)
      → i + n ≡ tcam.mask_tail
      → tcam.mask_tail ≤ 20
      → ((j : ℕ) → j < i → ¬ (SameMask tcam mask j))
      → Returns (FoundMask tcam mask) (find_mask n i tcam mask)
  unfolding find_mask
  find_mask_lem zero i e small before = (none, refl, new (λ j h. before j (omega arith)))
  find_mask_lem (suc n) i e small before = elim (Bool-cases (any_of 45 0 (byte_differs i))) [
    | inl y ↦
        let (r, run, p) = find_mask_lem n (i + 1) (omega arith) small (passed y) in
        (r, rw (other_mask_lem i (omega arith), y) run, p)
    | inr y ↦ (
      some i,
      rw (other_mask_lem i (omega arith), y) refl,
      found i (omega arith) (same_mask i y) before,
    )
  ]
    where
      passed : any_of 45 0 (byte_differs i) ≡ true → (j : ℕ) → j < i + 1 → ¬ (SameMask tcam mask j)
      passed y j h = elim (ℕ_discrete j i) [
        | yes e' ↦ rw e' (not-SameMask i y)
        | no ne ↦ before j (omega arith)
      ]

  -- The search among the masks ends without a fault, with the first place of the mask.
  pub find_mask_all :
      tcam.mask_tail ≤ 20 → Returns (FoundMask tcam mask) (find_mask tcam.mask_tail 0 tcam mask)
  find_mask_all small =
      find_mask_lem tcam.mask_tail 0 (omega arith) small (λ j h. absurd (omega arith))

-- The first row of the group of the mask `mask_no`.
pub record Located (tcam : TcamUnit) (mask_no s : ℕ) : Type 0 where
  pub below : s < tcam.flow_tail
  pub group : group_of tcam s ≡ mask_no
  pub least : (r : ℕ) → r < s → group_of tcam r < mask_no

module _ (tcam : TcamUnit) (flows : length tcam.flow_table ≡ 960)
    (small : tcam.flow_tail ≤ 20) where
  -- The bits of the table.
  abbrev bits : ℕ → ℕ
  bits = first_bit tcam

  pub starts_next :
      (i : ℕ) → starts bits (i + 1) ≡ (if bits i == 0 then starts bits i else starts bits i + 1)
  unfolding starts
  starts_next i = let e : i + 1 ≡ suc i = omega arith in rw e refl

  pub reads : (i : ℕ) → i < 20 → read_bit tcam.flow_table (group_bit i) ≡ some (bits i)
  reads i h = read_bit_in tcam.flow_table (group_bit i) (omega arith)

  locate_loop_lem :
      (mask_no n i k : ℕ)
      → i + n ≡ tcam.flow_tail
      → k ≡ starts bits i
      → k < mask_no
      → mask_no ≤ starts bits tcam.flow_tail
      → (s : ℕ) × (locate_loop n i k tcam mask_no ≡ some (some s)) × Located tcam mask_no s
  unfolding locate_loop
  locate_loop_lem mask_no zero i k e count lo hi =
      let e' : i ≡ tcam.flow_tail = omega arith in
      absurd (omega (arith, hi, lo, ap (starts bits) e'))
  locate_loop_lem mask_no (suc n) i k e count lo hi =
      elim (ℕ_discrete (starts bits (i + 1)) mask_no) [
        | yes y ↦ (
          i,
          rw (reads i (omega arith)) (ground (arith, y, starts_next i)),
          record {
            below = omega arith;
            group = let e : suc i ≡ i + 1 = omega arith in rw e y;
            least = λ r h. omega (arith, count, lo, starts_upto bits (suc r) i h);
          },
        )
        | no ne ↦
            let (s, run, l) =
              locate_loop_lem mask_no n (i + 1) (if bits i == 0 then k else k + 1) (omega arith)
                (ground (arith, starts_next i)) (ground (arith, ne, starts_next i)) hi in
            (s, rw (reads i (omega arith)) (ground (arith, run, ne, starts_next i)), l)
      ]

-- For the number of a mask, the first row of its group is located.
pub locate_mask_group_lem :
    (tcam : TcamUnit) (mask_no : ℕ)
    → Grouped tcam
    → mask_no < tcam.mask_tail
    → (s : ℕ) × (locate_mask_group tcam mask_no ≡ some (some s)) × Located tcam mask_no s
unfolding locate_mask_group
locate_mask_group_lem tcam zero g h = (
  0,
  refl,
  record {
    below = omega (arith, Grouped-mask_tail tcam g);
    group = unfold starts in ground (arith, g.first (omega (arith, Grouped-mask_tail tcam g)));
    least = λ r h. absurd (omega arith);
  },
)
locate_mask_group_lem tcam (suc m) g h =
    let (s, run, l) =
      locate_loop_lem tcam g.flows g.flow_in (suc m) tcam.flow_tail 0 0 (omega arith)
        (unfold starts in refl) (omega arith)
        (ground (arith, g.counted, Grouped-mask_tail tcam g)) in
    let e : (suc m == 0) ≡ false = ground arith in (s, rw e run, l)

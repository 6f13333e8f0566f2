-- ===== src/FlowUnit/Delete/Masks.antt =====
-- What moving the masks up, over a deleted one, leaves, and which mask a row has.
use net_walk.Base.{
  ℕ, zero, suc, ◌+◌, ◌-◌, ◌*◌, ◌≤◌, ◌<◌, ◌≡◌, ◌⊎◌, inl, inr, refl, ap, ◌∙◌, some, arith, Bytes,
  length, byte_at, Returns, ℕ_discrete, copy_bytes_lem, replicate, if◌then◌else◌, ltb,
}
use net_walk.Bits.Laws.{put_bit, byte_at-put_bit, length-put_bit}
use net_walk.FlowUnit.{TcamUnit}
use net_walk.FlowUnit.Insert.Place.{MaskAdded, write_new_mask_lem}
use net_walk.FlowUnit.Insert.{count_groups, get_mask_pos}
use net_walk.FlowUnit.Insert.Find.{starts_next, reads}
use net_walk.FlowUnit.Groups.{starts, first_bit, group_of}
use net_walk.FlowUnit.Delete.{move_mask_up, mask_up_loop, delete_restructure_mask}

-- From `t` to `t'` the `n` masks behind the tail moved up by one, but for the last byte of each, and
-- the tail stepped on over them.
pub record MasksUp (n : ℕ) (t t' : TcamUnit) : Type 0 where
  pub rest : t' ≡ record t { mask_table = t'.mask_table; mask_tail = t.mask_tail + n }
  pub size : length t'.mask_table ≡ length t.mask_table
  pub moved :
      (j k : ℕ)
      → t.mask_tail ≤ j
      → j < t.mask_tail + n
      → k < 44
      → byte_at t'.mask_table (j * 45 + k) ≡ byte_at t.mask_table ((j + 1) * 45 + k)
  pub others :
      (q : ℕ)
      → (q < t.mask_tail * 45) ⊎ ((t.mask_tail + n) * 45 ≤ q)
      → byte_at t'.mask_table q ≡ byte_at t.mask_table q

-- The bits that are reset lie in the last byte.
early_byte :
    (mask : Bytes) (k : ℕ)
    → 45 ≤ length mask
    → k < 44
    → byte_at (put_bit (put_bit (put_bit mask 357 0) 358 0) 359 0) k ≡ byte_at mask k
early_byte mask k long h =
    let m₁ : Bytes = put_bit mask 357 0 in
    let m₂ : Bytes = put_bit m₁ 358 0 in
    let l₁ : 45 ≤ length m₁ = omega (arith, length-put_bit mask 357 0) in
    let l₂ : 45 ≤ length m₂ = omega (arith, l₁, length-put_bit m₁ 358 0) in
    byte_at-put_bit m₂ 359 0 k (omega arith) (λ e. omega arith)
    ∙ (byte_at-put_bit m₁ 358 0 k (omega arith) (λ e. omega arith)
        ∙ byte_at-put_bit mask 357 0 k (omega arith) (λ e. omega arith))

mask_up_one :
    (t t' : TcamUnit) (d d' : Bytes)
    → 45 ≤ length d
    → ((k : ℕ) → k < 45 → byte_at d k ≡ byte_at t.mask_table ((t.mask_tail + 1) * 45 + k))
    → MaskAdded t d t' d'
    → MasksUp 1 t t'
mask_up_one t t' d d' long bytes w = record {
  rest = w.rest;
  size = w.size;
  moved = λ j k lo hi hk.
      ap (byte_at t'.mask_table) (omega arith)
      ∙ (w.row k (omega arith)
          ∙ (ap (λ m. byte_at m k) w.mask_eq
              ∙ (early_byte d k long hk
                  ∙ (bytes k (omega arith) ∙ ap (byte_at t.mask_table) (omega arith)))));
  others = λ q h. outside q h;
}
  where
    outside :
        (q : ℕ)
        → (q < t.mask_tail * 45) ⊎ ((t.mask_tail + 1) * 45 ≤ q)
        → byte_at t'.mask_table q ≡ byte_at t.mask_table q
    outside q (inl h) = w.before q h
    outside q (inr h) = w.behind q (omega arith)

mask_up_more :
    (n : ℕ) (t t₁ t₂ : TcamUnit)
    → t₁.mask_tail ≡ t.mask_tail + 1
    → MasksUp 1 t t₁
    → MasksUp n t₁ t₂
    → MasksUp (suc n) t t₂
mask_up_more n t t₁ t₂ tail a b = record {
  rest = ground (arith, a.rest, b.rest);
  size = b.size ∙ a.size;
  moved = λ j k lo hi hk. elim (ℕ_discrete j t.mask_tail) [
    | yes e ↦ b.others (j * 45 + k) (inl (omega arith)) ∙ a.moved j k lo (omega arith) hk
    | no ne ↦
        b.moved j k (omega arith) (omega arith) hk ∙ a.others ((j + 1) * 45 + k) (inr (omega arith))
  ];
  others = λ q h. b.others q (later q h) ∙ a.others q (first q h);
}
  where
    later :
        (q : ℕ)
        → (q < t.mask_tail * 45) ⊎ ((t.mask_tail + suc n) * 45 ≤ q)
        → (q < t₁.mask_tail * 45) ⊎ ((t₁.mask_tail + n) * 45 ≤ q)
    later q (inl h) = inl (omega arith)
    later q (inr h) = inr (omega arith)

    first :
        (q : ℕ)
        → (q < t.mask_tail * 45) ⊎ ((t.mask_tail + suc n) * 45 ≤ q)
        → (q < t.mask_tail * 45) ⊎ ((t.mask_tail + 1) * 45 ≤ q)
    first q (inl h) = inl h
    first q (inr h) = inr (omega arith)

mask_up_loop_lem :
    (n : ℕ) (t : TcamUnit)
    → length t.mask_table ≡ 900
    → t.mask_tail + n < 20
    → Returns (MasksUp n t) (mask_up_loop n t)
unfolding mask_up_loop move_mask_up
mask_up_loop_lem zero t size room = (
  t,
  refl,
  record {
    rest = ground arith;
    size = refl;
    moved = λ r k lo hi hk. absurd (omega arith);
    others = λ q h. refl;
  },
)
mask_up_loop_lem (suc n) t size room =
    let (d, read, p) =
      copy_bytes_lem 45 t.mask_table ((t.mask_tail + 1) * 45) (replicate 45 0) 0 (omega arith)
        (omega arith) in
    let long : 45 ≤ length d = omega (arith, p.size) in
    let ((t₁, d'), wrote, w) = write_new_mask_lem t d (omega arith) long in
    let tail : t₁.mask_tail ≡ t.mask_tail + 1 = ap (λ s. s.mask_tail) w.rest in
    let (t₂, run, b) = mask_up_loop_lem n t₁ (w.size ∙ size) (omega (arith, tail)) in
    (
      t₂,
      rw (read, wrote) run,
      mask_up_more n t t₁ t₂ tail
          (mask_up_one t t₁ d d' long (λ k hk. p.bytes k ∙ ground (arith, at k)) w) b,
    )
  where
    at :
        (k : ℕ)
        → byte_at t.mask_table ((t.mask_tail + 1) * 45 + (k - 0))
          ≡ byte_at t.mask_table ((t.mask_tail + 1) * 45 + k)
    at k = ap (λ j. byte_at t.mask_table ((t.mask_tail + 1) * 45 + j)) (omega arith)

-- From `t` to `t'` the masks behind `pos` moved up by one, but for the last byte of each.
pub record MaskRemoved (pos : ℕ) (t t' : TcamUnit) : Type 0 where
  pub rest : t' ≡ record t { mask_table = t'.mask_table; mask_tail = t.mask_tail - 1 }
  pub size : length t'.mask_table ≡ length t.mask_table
  pub moved :
      (j k : ℕ)
      → pos ≤ j
      → j + 1 < t.mask_tail
      → k < 44
      → byte_at t'.mask_table (j * 45 + k) ≡ byte_at t.mask_table ((j + 1) * 45 + k)
  pub before : (q : ℕ) → q < pos * 45 → byte_at t'.mask_table q ≡ byte_at t.mask_table q

pub delete_restructure_mask_lem :
    (t : TcamUnit) (pos : ℕ)
    → length t.mask_table ≡ 900
    → pos < t.mask_tail
    → t.mask_tail ≤ 20
    → Returns (MaskRemoved pos t) (delete_restructure_mask t pos)
unfolding delete_restructure_mask
delete_restructure_mask_lem t pos size h small =
    let (t', run, m) =
      mask_up_loop_lem (t.mask_tail - 1 - pos) (record t { mask_tail = pos }) size (omega arith) in
    (
      record t' { mask_tail = t.mask_tail - 1 },
      rw run refl,
      record {
        rest = ground (arith, m.rest);
        size = m.size;
        moved = λ j k lo hi hk. m.moved j k lo (omega arith) hk;
        before = λ q hq. m.others q (inl hq);
      },
    )

count_groups_lem :
    (tcam : TcamUnit)
    → length tcam.flow_table ≡ 960
    → tcam.flow_tail ≤ 20
    → (n i k hi : ℕ) → i + n ≡ hi
    → hi ≤ 20
    → k ≡ starts (first_bit tcam) i
    → count_groups n i tcam k ≡ some (starts (first_bit tcam) hi)
unfolding count_groups
count_groups_lem tcam flows small zero i k hi e h c =
    let e' : i ≡ hi = omega arith in ap some (c ∙ ap (starts (first_bit tcam)) e')
count_groups_lem tcam flows small (suc n) i k hi e h c =
    rw (reads tcam flows small i (omega arith)) (
      count_groups_lem tcam flows small n (i + 1) _ hi (omega arith) h
        (ground (arith, starts_next tcam flows small i)))

-- The position of a row's mask is the number of its group.
pub get_mask_pos_lem :
    (tcam : TcamUnit) (pos : ℕ)
    → length tcam.flow_table ≡ 960
    → tcam.flow_tail ≤ 20
    → pos < tcam.flow_tail
    → get_mask_pos tcam pos ≡ some (group_of tcam pos)
unfolding get_mask_pos
get_mask_pos_lem tcam pos flows small h =
    let e : (if ltb pos tcam.flow_tail then pos + 1 else tcam.flow_tail) ≡ pos + 1 = ground arith in
    let e' : pos + 1 ≡ suc pos = omega arith in
    rw (e, e')
      (count_groups_lem tcam flows small (suc pos) 0 0 (suc pos) (omega arith) (omega arith)
        (unfold starts in refl))

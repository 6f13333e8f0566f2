-- ===== src/FlowUnit/Groups.antt =====
-- flow-processing-unit/flow_unit.h: the groups of rows that share a mask, and the numbers of the
-- masks. A row whose group bit is set starts the next group.
pub mod Searched
use mathlib.Core.Path.{subst}
use net_walk.Base.{
  ℕ, zero, suc, ◌+◌, ◌-◌, ◌*◌, ◌/◌, ◌%◌, ◌≤◌, ◌<◌, ◌≡◌, refl, sym, ap, ◌∙◌, arith, Bytes, length,
  byte_at, ◌==◌, if◌then◌else◌, ℕ_discrete,
}
use net_walk.Bits.Byte.{flag_of}
use net_walk.Bits.Laws.{bit_at}
use net_walk.FlowUnit.{TcamUnit, group_bit}
use net_walk.FlowUnit.Search.Match.{IsValid}
use net_walk.FlowUnit.Search.Refine.{groups, mask_of}

-- How many of the numbers below `n` have a bit that is set.
unfoldable pub starts : (ℕ → ℕ) → ℕ → ℕ
starts b zero = 0
starts b (suc n) = if b n == 0 then starts b n else starts b n + 1

pub starts_same : (b b' : ℕ → ℕ) (n : ℕ) → ((r : ℕ) → r < n → b' r ≡ b r) → starts b' n ≡ starts b n
unfolding starts
starts_same b b' zero h = refl
starts_same b b' (suc n) h =
    rw (h n (omega arith), starts_same b b' n (λ r l. h r (omega arith))) refl

-- A bit `b' p` is put in at `p`, and the bits from there on move up by one.
starts_insert :
    (b b' : ℕ → ℕ) (p k : ℕ)
    → ((r : ℕ) → r < p → b' r ≡ b r)
    → ((r : ℕ) → p ≤ r → r < p + k → b' (suc r) ≡ b r)
    → starts b' (suc (p + k)) ≡ starts b (p + k) + (if b' p == 0 then 0 else 1)
unfolding starts
starts_insert b b' p zero below above =
    let e : p + 0 ≡ p = omega arith in rw e (ground (arith, starts_same b b' p below))
starts_insert b b' p (suc k) below above =
    let e : p + suc k ≡ suc (p + k) = omega arith in
    rw e (
      ground (
        arith,
        starts_insert b b' p k below (λ r lo hi. above r lo (omega arith)),
        above (p + k) (omega arith) (omega arith),
      ))

pub starts_insert_at :
    (b b' : ℕ → ℕ) (p n : ℕ)
    → p ≤ n
    → ((r : ℕ) → r < p → b' r ≡ b r)
    → ((r : ℕ) → p ≤ r → r < n → b' (r + 1) ≡ b r)
    → starts b' (n + 1) ≡ starts b n + (if b' p == 0 then 0 else 1)
starts_insert_at b b' p n h below above =
    let e : p + (n - p) ≡ n = omega arith in
    let e' : suc n ≡ n + 1 = omega arith in
    ap (starts b') (sym e' ∙ ap suc (sym e))
    ∙ (starts_insert b b' p (n - p) below (λ r lo hi. next r ∙ above r lo (omega arith))
        ∙ ap (λ k. starts b k + (if b' p == 0 then 0 else 1)) e)
  where
    next : (r : ℕ) → b' (suc r) ≡ b' (r + 1)
    next r = ap b' (omega arith)

-- The bit at `p` goes out, the one behind it comes to `p` as `b' p`, and the others move down by one.
pub starts_delete :
    (b b' : ℕ → ℕ) (p k : ℕ)
    → ((r : ℕ) → r < p → b' r ≡ b r)
    → ((r : ℕ) → p < r → r < suc p + k → b' r ≡ b (suc r))
    → starts b' (suc p + k) + ((if b p == 0 then 0 else 1) + (if b (suc p) == 0 then 0 else 1))
      ≡ starts b (suc (suc p) + k) + (if b' p == 0 then 0 else 1)
unfolding starts
starts_delete b b' p zero below above =
    let e : suc p + 0 ≡ suc p = omega arith in
    let e' : suc (suc p) + 0 ≡ suc (suc p) = omega arith in
    rw (e, e') (ground (arith, starts_same b b' p below))
starts_delete b b' p (suc k) below above =
    let e : suc p + suc k ≡ suc (suc p + k) = omega arith in
    let e' : suc (suc p) + suc k ≡ suc (suc (suc p) + k) = omega arith in
    let e'' : suc (suc p) + k ≡ suc (suc p + k) = omega arith in
    rw (e, e')
      (ground (
        arith,
        starts_delete b b' p k below (λ r lo hi. above r lo (omega arith)),
        above (suc p + k) (omega arith) (omega arith) ∙ ap b (sym e''),
      ))

pub starts_mono : (b : ℕ → ℕ) (m k : ℕ) → starts b m ≤ starts b (m + k)
unfolding starts
starts_mono b m zero = let e : m + 0 ≡ m = omega arith in rw e (omega arith)
starts_mono b m (suc k) =
    let e : m + suc k ≡ suc (m + k) = omega arith in rw e (ground (arith, starts_mono b m k))

pub starts_upto : (b : ℕ → ℕ) (m n : ℕ) → m ≤ n → starts b m ≤ starts b n
starts_upto b m n h =
    let e : m + (n - m) ≡ n = omega arith in omega (arith, starts_mono b m (n - m), ap (starts b) e)

pub starts_bound : (b : ℕ → ℕ) (n : ℕ) → b 0 ≡ 0 → starts b (suc n) ≤ n
unfolding starts
starts_bound b zero h = rw h (omega arith)
starts_bound b (suc n) h = ground (arith, starts_bound b n h)

-- The group bit of a row.
abbrev pub first_bit : TcamUnit → ℕ → ℕ
first_bit tcam n = bit_at tcam.flow_table (group_bit n)

-- The number of the group of row `n`, which is the number of its mask.
abbrev pub group_of : TcamUnit → ℕ → ℕ
group_of tcam n = starts (first_bit tcam) (suc n)

-- The numbers are those of the search.
groups_lem :
    (tcam : TcamUnit) (flow : Bytes) (n : ℕ) → groups tcam flow n ≡ starts (first_bit tcam) n
unfolding groups starts
groups_lem tcam flow zero = refl
groups_lem tcam flow (suc n) = rw (groups_lem tcam flow n) refl

-- The bit lies in byte 44 of the row.
pub group_byte :
    (table : Bytes) (n : ℕ) → bit_at table (group_bit n) ≡ flag_of 3 (byte_at table (n * 48 + 44))
unfolding bit_at
group_byte table n =
    let a : ((n * 48 + 44) * 8 + 4) / 8 ≡ n * 48 + 44 = omega arith in
    let b : ((n * 48 + 44) * 8 + 4) % 8 ≡ 4 = omega arith in rw (a, b) refl

-- Equal bytes have equal bits.
pub bit_same :
    (t t' : Bytes) (b b' j : ℕ)
    → j < 8
    → byte_at t' b' ≡ byte_at t b
    → bit_at t' (b' * 8 + j) ≡ bit_at t (b * 8 + j)
unfolding bit_at
bit_same t t' b b' j h e =
    let d : (b * 8 + j) / 8 ≡ b = omega arith in
    let d' : (b' * 8 + j) / 8 ≡ b' = omega arith in
    let m : (b * 8 + j) % 8 ≡ j = omega arith in
    let m' : (b' * 8 + j) % 8 ≡ j = omega arith in rw (d, d', m, m', e) refl

pub group_bit_same :
    (t t' : Bytes) (n n' : ℕ)
    → byte_at t' (n' * 48 + 44) ≡ byte_at t (n * 48 + 44)
    → bit_at t' (group_bit n') ≡ bit_at t (group_bit n)
group_bit_same t t' n n' e = group_byte t' n' ∙ (ap (flag_of 3) e ∙ sym (group_byte t n))

-- The tables have their sizes, the first row starts no further group, and there is a mask for each
-- group and no other.
pub record Grouped (tcam : TcamUnit) : Type 0 where
  pub flows : length tcam.flow_table ≡ 960
  pub masks : length tcam.mask_table ≡ 900
  pub flow_in : tcam.flow_tail ≤ 20
  pub first : 0 < tcam.flow_tail → first_bit tcam 0 ≡ 0
  pub counted :
      tcam.mask_tail
      ≡ (if tcam.flow_tail == 0 then 0 else starts (first_bit tcam) tcam.flow_tail + 1)

pub Grouped-mask_tail : (tcam : TcamUnit) → Grouped tcam → tcam.mask_tail ≤ tcam.flow_tail
Grouped-mask_tail tcam g = elim (ℕ_discrete tcam.flow_tail 0) [
  | yes e ↦ ground (arith, e, g.counted)
  | no ne ↦
      let p : suc (tcam.flow_tail - 1) ≡ tcam.flow_tail = omega arith in
      let b : starts (first_bit tcam) (suc (tcam.flow_tail - 1)) ≤ tcam.flow_tail - 1 =
        starts_bound (first_bit tcam) (tcam.flow_tail - 1) (g.first (omega arith)) in
      let b' : starts (first_bit tcam) tcam.flow_tail ≤ tcam.flow_tail - 1 =
        subst (λ n. starts (first_bit tcam) n ≤ tcam.flow_tail - 1) p b in
      ground (arith, b', g.counted)
]

pub Grouped-IsValid : (tcam : TcamUnit) → Grouped tcam → IsValid tcam
Grouped-IsValid tcam g = record {
  flows = g.flows;
  masks = g.masks;
  flow_in = g.flow_in;
  mask_in = omega (arith, g.flow_in, Grouped-mask_tail tcam g);
}

-- Row `e` is in one of the groups of the table.
pub groups_upto :
    (tcam : TcamUnit) (e : ℕ)
    → e < tcam.flow_tail
    → group_of tcam e ≤ starts (first_bit tcam) tcam.flow_tail
groups_upto tcam e h =
    let p : suc e + (tcam.flow_tail - suc e) ≡ tcam.flow_tail = omega arith in
    subst (λ n. starts (first_bit tcam) (suc e) ≤ starts (first_bit tcam) n) p
      (starts_mono (first_bit tcam) (suc e) (tcam.flow_tail - suc e))

-- Every row has a mask.
pub Grouped-mask_of :
    (tcam : TcamUnit) (flow : Bytes)
    → Grouped tcam
    → (e : ℕ) → e < tcam.flow_tail
    → mask_of tcam flow e < tcam.mask_tail
Grouped-mask_of tcam flow g e h =
    ground (arith, groups_upto tcam e h, g.counted, groups_lem tcam flow (suc e))

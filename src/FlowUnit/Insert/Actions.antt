-- ===== src/FlowUnit/Insert/Actions.antt =====
-- What writing and moving the action sets and flags leaves.
use net_walk.Base.{
  ℕ, zero, suc, ◌+◌, ◌-◌, ◌*◌, ◌≤◌, ◌<◌, ◌≡◌, ◌⊎◌, inl, inr, refl, ap, ◌∙◌, arith, Bytes, [], ◌∷◌,
  length, length-set, byte_at, set, get_or-set, load_in, store_in, copy_bytes_lem, replicate, ◌==◌,
  if◌then◌else◌, Returns,
}
use net_walk.FlowUnit.{TcamUnit, write_new_action}
use net_walk.FlowUnit.Insert.{read_action}

-- The tables of the action sets and of the flags have their sizes.
pub record Sized (tcam : TcamUnit) : Type 0 where
  pub actions : length tcam.action_table ≡ 620
  pub flags : length tcam.flag_table ≡ 40

-- Row `pos` holds the action set and the flag, and all else is as before.
pub record ActionWritten (tcam : TcamUnit) (action_set flag : Bytes) (pos : ℕ) (t : TcamUnit)
    : Type 0 where
  pub rest : t ≡ record tcam { action_table = t.action_table; flag_table = t.flag_table }
  pub sized : Sized t
  pub action : (k : ℕ) → k < 31 → byte_at t.action_table (pos * 31 + k) ≡ byte_at action_set k
  pub flag_bytes : (k : ℕ) → k < 2 → byte_at t.flag_table (2 * pos + k) ≡ byte_at flag k
  pub others :
      (q : ℕ)
      → (q < pos * 31) ⊎ (pos * 31 + 31 ≤ q)
      → byte_at t.action_table q ≡ byte_at tcam.action_table q
  pub other_flags :
      (q : ℕ)
      → (q < 2 * pos) ⊎ (2 * pos + 2 ≤ q)
      → byte_at t.flag_table q ≡ byte_at tcam.flag_table q

-- The two bytes of a flag.
flagged : Bytes → ℕ → Bytes → Bytes
flagged table pos flag = set (set table (2 * pos) (byte_at flag 0)) (2 * pos + 1) (byte_at flag 1)

byte_at-flagged :
    (table : Bytes) (pos : ℕ) (flag : Bytes) (q : ℕ)
    → 2 * pos + 1 < length table
    → byte_at (flagged table pos flag) q ≡ (
        if 2 * pos + 1 == q
        then byte_at flag 1
        else if 2 * pos == q
        then byte_at flag 0
        else byte_at table q)
unfolding flagged
byte_at-flagged table pos flag q h = ground (
  arith,
  get_or-set (set table (2 * pos) (byte_at flag 0)) (2 * pos + 1) q (byte_at flag 1) 0,
  get_or-set table (2 * pos) q (byte_at flag 0) 0,
  length-set table (2 * pos) (byte_at flag 0),
)

length-flagged :
    (table : Bytes) (pos : ℕ) (flag : Bytes) → length (flagged table pos flag) ≡ length table
unfolding flagged
length-flagged table pos flag =
    length-set (set table (2 * pos) (byte_at flag 0)) (2 * pos + 1) (byte_at flag 1)
    ∙ length-set table (2 * pos) (byte_at flag 0)

-- A row in the tables is written without a fault.
pub write_new_action_lem :
    (tcam : TcamUnit) (action_set flag : Bytes) (pos : ℕ)
    → Sized tcam
    → pos < 20
    → 31 ≤ length action_set
    → 2 ≤ length flag
    → Returns (ActionWritten tcam action_set flag pos) (write_new_action tcam action_set flag pos)
unfolding write_new_action flagged
write_new_action_lem tcam action_set flag pos s h ha hf =
    let (out, run, p) =
      copy_bytes_lem 31 action_set 0 tcam.action_table (pos * 31) (omega arith)
        (omega (arith, s.actions)) in
    let at = byte_at-flagged tcam.flag_table pos flag in
    let fits : 2 * pos + 1 < length tcam.flag_table = omega (arith, s.flags) in
    (
      record tcam { action_table = out; flag_table = flagged tcam.flag_table pos flag },
      rw
          (
            run,
            load_in flag 0 (omega arith),
            store_in tcam.flag_table (2 * pos) (byte_at flag 0) (omega (arith, s.flags)),
            load_in flag 1 (omega arith),
            store_in (set tcam.flag_table (2 * pos) (byte_at flag 0)) (2 * pos + 1) (byte_at flag 1)
                (omega (arith, s.flags, length-set tcam.flag_table (2 * pos) (byte_at flag 0))),
          )
          refl,
      record {
        rest = refl;
        sized = record {
          actions = p.size ∙ s.actions;
          flags = length-flagged tcam.flag_table pos flag ∙ s.flags;
        };
        action = λ k hk.
            ground (arith, p.bytes (pos * 31 + k), ap (byte_at action_set) (back (pos * 31) k));
        flag_bytes = λ k hk. ground (arith, at (2 * pos + k) fits, two k hk);
        others = λ q hq. ground (arith, p.bytes q);
        other_flags = λ q hq. ground (arith, at q fits);
      },
    )
  where
    back : (base k : ℕ) → 0 + (base + k - base) ≡ k
    back base k = omega arith

    two :
        (k : ℕ)
        → k < 2
        → ((k ≡ 0) × (byte_at flag k ≡ byte_at flag 0))
          ⊎ ((k ≡ 1) × (byte_at flag k ≡ byte_at flag 1))
    two zero h = inl (refl, refl)
    two (suc zero) h = inr (refl, refl)
    two (suc (suc k)) h = absurd (omega arith)

pub read_action_lem :
    (tcam : TcamUnit) (row : ℕ)
    → Sized tcam
    → row < 20
    → Returns
        (λ r.
          (length (r.0) ≡ 31)
          × ((k : ℕ) → k < 31 → byte_at (r.0) k ≡ byte_at tcam.action_table (row * 31 + k))
          × (length (r.1) ≡ 2)
          × ((k : ℕ) → k < 2 → byte_at (r.1) k ≡ byte_at tcam.flag_table (2 * row + k)))
        (read_action tcam row)
read_action_lem tcam row s h =
    let (out, run, p) =
      copy_bytes_lem 31 tcam.action_table (row * 31) (replicate 31 0) 0 (omega (arith, s.actions))
        (omega arith) in
    (
      (out, byte_at tcam.flag_table (2 * row) ∷ byte_at tcam.flag_table (2 * row + 1) ∷ []),
      rw
          (
            run,
            load_in tcam.flag_table (2 * row) (omega (arith, s.flags)),
            load_in tcam.flag_table (2 * row + 1) (omega (arith, s.flags)),
          )
          refl,
      (p.size, (λ k hk. p.bytes k ∙ ground (arith, at k)), refl, two),
    )
  where
    at :
        (k : ℕ)
        → byte_at tcam.action_table (row * 31 + (k - 0)) ≡ byte_at tcam.action_table (row * 31 + k)
    at k = ap (λ j. byte_at tcam.action_table (row * 31 + j)) (omega arith)

    two :
        (k : ℕ)
        → k < 2
        → byte_at (byte_at tcam.flag_table (2 * row) ∷ byte_at tcam.flag_table (2 * row + 1) ∷ []) k
          ≡ byte_at tcam.flag_table (2 * row + k)
    two zero h = ap (byte_at tcam.flag_table) (omega arith)
    two (suc zero) h = refl
    two (suc (suc k)) h = absurd (omega arith)

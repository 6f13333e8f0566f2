-- ===== src/Processor/Compare.antt =====
-- What the comparisons decide, and that the functions which print end without a fault.
use net_walk.Base.{
  ℕ, zero, suc, ◌+◌, ◌≤◌, ◌<◌, ◌≡◌, ◌⊎◌, inl, inr, refl, some, arith, Bytes, [], ◌∷◌, ◌++◌, ◌>>=◌,
  load, load_in, length, byte_at, ==_refl, ==_ne, ℕ_discrete, for_range_inv, Returns, Runs,
}
use net_walk.Processor.Print.{
  Printed, hex_dot, dec_dot, newline, print_bytes, print_mac_addr, print_ip_addr, print_field_of_n,
}
use net_walk.Processor.{
  compare_bytes, compare_mac_addr, compare_ip_addr, compare_field_of_n, compare_tcp_port,
}

-- A run of bytes that lies in its array is printed.
pub print_bytes-Returns :
    (n : ℕ) (format : ℕ → Printed) (a : Bytes) (p : ℕ)
    → p + n ≤ length a
    → Runs (print_bytes n format a p)
print_bytes-Returns n format a p h =
    let (out, run, u) =
      for_range_inv (λ i out. Unit {0})
        (λ i out. do b ← load a (p + i); some (out ++ (format b ∷ []))) n
        (λ i out hi u.
          (out ++ (format (byte_at a (p + i)) ∷ []), rw (load_in a (p + i) (omega arith)) refl, tt))
        n 0 [] (omega arith) tt in
    (out ++ (newline ∷ []), rw run refl)

-- The `n` bytes at the two places are the same.
abbrev pub SameBytes : ℕ → Bytes → ℕ → Bytes → ℕ → Type 0
SameBytes n a p b q = (k : ℕ) → k < n → byte_at a (p + k) ≡ byte_at b (q + k)

-- The result is 1 if they are, and 0 if they are not.
abbrev pub Decides : ℕ → Bytes → ℕ → Bytes → ℕ → ℕ → Type 0
Decides n a p b q r = ((r ≡ 1) × SameBytes n a p b q) ⊎ ((r ≡ 0) × (¬ SameBytes n a p b q))

compare_from :
    (n i : ℕ) (a : Bytes) (p : ℕ) (b : Bytes) (q : ℕ)
    → p + (i + n) ≤ length a
    → q + (i + n) ≤ length b
    → SameBytes i a p b q
    → Returns (Decides (i + n) a p b q) (compare_bytes n i a p b q)
unfolding compare_bytes
compare_from zero i a p b q ha hb same = (1, refl, inl (refl, λ k hk. same k (omega arith)))
compare_from (suc n) i a p b q ha hb same =
    elim (ℕ_discrete (byte_at a (p + i)) (byte_at b (q + i))) [
      | yes e ↦
          let (r, run, d) =
            compare_from n (i + 1) a p b q (omega arith) (omega arith) (extended e) in
          let sum : i + suc n ≡ i + 1 + n = omega arith in
          (
            r,
            rw
                (
                  load_in a (p + i) (omega arith),
                  load_in b (q + i) (omega arith),
                  e,
                  ==_refl (byte_at b (q + i)),
                )
                run,
            rw sum d,
          )
      | no d ↦ (
        0,
        rw (load_in a (p + i) (omega arith), load_in b (q + i) (omega arith), ==_ne _ _ d) refl,
        inr (refl, λ same'. d (same' i (omega arith))),
      )
    ]
  where
    extended : byte_at a (p + i) ≡ byte_at b (q + i) → SameBytes (i + 1) a p b q
    extended e k hk = elim (ℕ_discrete k i) [ yes x ↦ rw x e | no x ↦ same k (omega arith) ]

compare_bytes_lem :
    (n : ℕ) (a : Bytes) (p : ℕ) (b : Bytes) (q : ℕ)
    → p + n ≤ length a
    → q + n ≤ length b
    → Returns (Decides n a p b q) (compare_bytes n 0 a p b q)
compare_bytes_lem n a p b q ha hb =
    let e : 0 + n ≡ n = omega arith in
    rw e at (compare_from n 0 a p b q (omega arith) (omega arith) (λ k hk. absurd (omega arith)))

-- If both runs of bytes lie in their arrays, then `compare_mac_addr` ends without a fault, and
-- returns 1 if the six bytes are the same and 0 if they are not.
pub compare_mac_addr_lem :
    (a : Bytes) (p : ℕ) (b : Bytes) (q : ℕ)
    → p + 6 ≤ length a
    → q + 6 ≤ length b
    → Returns (λ r. Decides 6 a p b q (r.1)) (compare_mac_addr a p b q)
unfolding compare_mac_addr print_mac_addr
compare_mac_addr_lem a p b q ha hb =
    let (out₁, run₁) = print_bytes-Returns 6 hex_dot a p ha in
    let (out₂, run₂) = print_bytes-Returns 6 hex_dot b q hb in
    let (r, run, d) = compare_bytes_lem 6 a p b q ha hb in
    ((out₁ ++ out₂, r), rw (run₁, run₂, run) refl, d)

-- If both runs of bytes lie in their arrays, then `compare_ip_addr` ends without a fault, and
-- returns 1 if the four bytes are the same and 0 if they are not.
pub compare_ip_addr_lem :
    (a : Bytes) (p : ℕ) (b : Bytes) (q : ℕ)
    → p + 4 ≤ length a
    → q + 4 ≤ length b
    → Returns (λ r. Decides 4 a p b q (r.1)) (compare_ip_addr a p b q)
unfolding compare_ip_addr print_ip_addr
compare_ip_addr_lem a p b q ha hb =
    let (out₁, run₁) = print_bytes-Returns 4 dec_dot a p ha in
    let (out₂, run₂) = print_bytes-Returns 4 dec_dot b q hb in
    let (r, run, d) = compare_bytes_lem 4 a p b q ha hb in
    ((out₁ ++ out₂, r), rw (run₁, run₂, run) refl, d)

-- If both runs of `n` bytes lie in their arrays, then `compare_field_of_n` ends without a fault,
-- and returns 1 if they are the same and 0 if they are not.
pub compare_field_of_n_lem :
    (a : Bytes) (p : ℕ) (b : Bytes) (q n : ℕ)
    → p + n ≤ length a
    → q + n ≤ length b
    → Returns (λ r. Decides n a p b q (r.1)) (compare_field_of_n a p b q n)
unfolding compare_field_of_n print_field_of_n
compare_field_of_n_lem a p b q n ha hb =
    let (out₁, run₁) = print_bytes-Returns n dec_dot a p ha in
    let (out₂, run₂) = print_bytes-Returns n dec_dot b q hb in
    let (r, run, d) = compare_bytes_lem n a p b q ha hb in
    ((out₁ ++ out₂, r), rw (run₁, run₂, run) refl, d)

-- If both runs of bytes lie in their arrays, then `compare_tcp_port` ends without a fault, and
-- returns 1 if the two bytes are the same and 0 if they are not.
pub compare_tcp_port_lem :
    (a : Bytes) (p : ℕ) (b : Bytes) (q : ℕ)
    → p + 2 ≤ length a
    → q + 2 ≤ length b
    → Returns (Decides 2 a p b q) (compare_tcp_port a p b q)
unfolding compare_tcp_port
compare_tcp_port_lem a p b q ha hb = compare_bytes_lem 2 a p b q ha hb

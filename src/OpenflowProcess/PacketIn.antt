-- ===== src/OpenflowProcess/PacketIn.antt =====
-- The packet-in message as a list of fields, and that the generated buffer holds it.
use net_walk.Base.{
  ℕ, ◌+◌, ◌-◌, ◌%◌, ◌≤◌, ◌<◌, ◌≡◌, ◌⊎◌, refl, ◌∙◌, ap, arith, Bytes, List, [], ◌∷◌, ◌++◌, length,
  byte_at, take, length-take, get_or-append_at, get_or-take, Bool-cases, ltb→lt, length-append,
  false, inl, inr, ltb, copy_bytes, copy_bytes_lem, Pasted, Returns, Runs,
}
use net_walk.OpenflowProcess.{Field, Cursor, put_field, put_fields}

-- A field whose value has the width that is written, and whose print reads no further.
pub record Proper (f : Field) : Type 0 where
  pub copies : f.write ≡ copy_bytes f.width
  pub filled : f.width ≤ length f.value
  pub prints : (a : Bytes) (p : ℕ) → p + f.width ≤ length a → Runs (f.print a p)

abbrev pub AllProper : List Field → Type 0
AllProper [] = Unit
AllProper (f ∷ fs) = Proper f × AllProper fs

abbrev pub total_width : List Field → ℕ
total_width [] = 0
total_width (f ∷ fs) = f.width + total_width fs

-- The bytes of the fields, one after the other.
abbrev pub laid_bytes : List Field → Bytes
laid_bytes [] = []
laid_bytes (f ∷ fs) = take f.width f.value ++ laid_bytes fs

-- From the cursor `c` to `c'` these bytes were laid down at `c.i`, and nothing else changed.
pub record Laid (bytes : Bytes) (c c' : Cursor) : Type 0 where
  pub size : length c'.buffer ≡ length c.buffer
  pub advanced : c'.i ≡ c.i + length bytes
  pub inside : (k : ℕ) → k < length bytes → byte_at c'.buffer (c.i + k) ≡ byte_at bytes k
  pub outside :
      (q : ℕ) → (q < c.i) ⊎ (c.i + length bytes ≤ q) → byte_at c'.buffer q ≡ byte_at c.buffer q

pub Laid-append :
    (xs ys : Bytes) (c c₁ c₂ : Cursor) → Laid xs c c₁ → Laid ys c₁ c₂ → Laid (xs ++ ys) c c₂
Laid-append xs ys c c₁ c₂ a b = record {
  size = b.size ∙ a.size;
  advanced = omega (arith, length-append xs ys, a.advanced, b.advanced);
  inside = λ k hk. elim (Bool-cases (ltb k (length xs))) [
    | inl y ↦
        b.outside (c.i + k) (inl (ground (arith, a.advanced)))
        ∙ (a.inside k (ltb→lt _ _ y) ∙ ground (arith, get_or-append_at xs ys k 0))
    | inr n ↦
        ap (byte_at c₂.buffer) (onward k n)
        ∙ (b.inside (k - length xs) (ground (arith, length-append xs ys))
            ∙ ground (arith, get_or-append_at xs ys k 0))
  ];
  outside = λ q hq. b.outside q (further q hq) ∙ a.outside q (nearer q hq);
}
  where
    onward : (k : ℕ) → ltb k (length xs) ≡ false → c.i + k ≡ c₁.i + (k - length xs)
    onward k n = ground (arith, a.advanced)

    further :
        (q : ℕ) → (q < c.i) ⊎ (c.i + length (xs ++ ys) ≤ q) → (q < c₁.i) ⊎ (c₁.i + length ys ≤ q)
    further q (inl h) = inl (omega (arith, a.advanced))
    further q (inr h) = inr (omega (arith, a.advanced, length-append xs ys))

    nearer : (q : ℕ) → (q < c.i) ⊎ (c.i + length (xs ++ ys) ≤ q) → (q < c.i) ⊎ (c.i + length xs ≤ q)
    nearer q (inl h) = inl h
    nearer q (inr h) = inr (omega (arith, length-append xs ys))

-- A write of fewer bytes than the width leaves the others as they are.
pub put_field_lem :
    (f : Field) (wrote : ℕ) (c : Cursor)
    → f.write ≡ copy_bytes wrote
    → wrote ≤ length f.value
    → wrote ≤ f.width
    → ((a : Bytes) (p : ℕ) → p + f.width ≤ length a → Runs (f.print a p))
    → c.i + f.width ≤ length c.buffer
    → c.i + f.width < 256
    → Returns
        (λ c'. (c'.i ≡ c.i + f.width) × Pasted wrote f.value 0 c.buffer c.i c'.buffer)
        (put_field f c)
unfolding put_field
put_field_lem f wrote c copies filled narrow prints h small =
    let (buffer, run, pasted) =
      copy_bytes_lem wrote f.value 0 c.buffer c.i (omega (arith, filled)) (omega arith) in
    let (text, shown) = prints buffer c.i (rw (pasted.size) h) in
    (
      record { buffer = buffer; i = (c.i + f.width) % 256; output = c.output ++ text },
      rw (copies, run, shown) refl,
      (omega arith, pasted),
    )

put_field-Laid :
    (f : Field) (c : Cursor)
    → Proper f
    → c.i + f.width ≤ length c.buffer
    → c.i + f.width < 256
    → Returns (Laid (take f.width f.value) c) (put_field f c)
put_field-Laid f c p h small =
    let (c', run, (next, pasted)) =
      put_field_lem f f.width c p.copies p.filled (omega arith) p.prints h small in
    let size = length-take f.width f.value p.filled in
    (
      c',
      run,
      record {
        size = pasted.size;
        advanced = omega (arith, size);
        inside = λ k hk.
            pasted.bytes (c.i + k)
            ∙ ground (
              arith,
              get_or-take f.width f.value k 0 (omega (arith, size)),
              ap (byte_at f.value) (back k),
              size,
            );
        outside = λ q hq. pasted.bytes q ∙ ground (arith, size);
      },
    )
  where
    back : (k : ℕ) → 0 + (c.i + k - c.i) ≡ k
    back k = omega arith

pub length-laid_bytes : (fs : List Field) → AllProper fs → length (laid_bytes fs) ≡ total_width fs
length-laid_bytes [] p = refl
length-laid_bytes (f ∷ fs) (p, ps) = omega (
  arith,
  length-append (take f.width f.value) (laid_bytes fs),
  length-take f.width f.value p.filled,
  length-laid_bytes fs ps,
)

-- Proper fields that fit in the buffer, below the index 256, are laid down without a fault.
pub put_fields_lem :
    (fs : List Field) (c : Cursor)
    → AllProper fs
    → c.i + total_width fs ≤ length c.buffer
    → c.i + total_width fs < 256
    → Returns (Laid (laid_bytes fs) c) (put_fields fs c)
unfolding put_fields
put_fields_lem [] c p h small = (
  c,
  refl,
  record {
    size = refl;
    advanced = omega arith;
    inside = λ k hk. absurd (omega arith);
    outside = λ q hq. refl;
  },
)
put_fields_lem (f ∷ fs) c (p, ps) h small =
    let (c₁, run₁, a) = put_field-Laid f c p (omega arith) (omega arith) in
    let width = length-take f.width f.value p.filled in
    let (c₂, run₂, b) =
      put_fields_lem fs c₁ ps (omega (arith, a.size, a.advanced)) (omega (arith, a.advanced)) in
    (c₂, rw run₁ run₂, Laid-append (take f.width f.value) (laid_bytes fs) c c₁ c₂ a b)

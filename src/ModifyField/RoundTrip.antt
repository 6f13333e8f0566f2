-- ===== src/ModifyField/RoundTrip.antt =====
-- What the two loops of modify_field.h copy, and that they undo each other.
use net_walk.Base.{
  ℕ, ◌+◌, ◌-◌, ◌*◌, ◌≤◌, ◌<◌, ◌≡◌, arith, Bytes, AllBytes, length, Returns, leb, ◌>>=◌,
  if◌then◌else◌,
}
use net_walk.Bits.Laws.{bit_at}
use net_walk.Bits.Copy.{Copied, copy_loop, copy_bit}
use net_walk.ModifyField.{extract_field, replace_field}

module _ (table : Bytes) (entry_no s e : ℕ) (val : Bytes) (order : s ≤ e + 1)
    (in_table : entry_no * 248 + e < 8 * length table) (in_val : e < s + 8 * length val) where
  -- If the field lies inside the table and its length inside `val`, an array of bytes, then
  -- `extract_field` ends without a fault, having put the field's bits at the start of `val` and
  -- left every other bit of `val` as it was.
  pub extract_field_lem :
      AllBytes val
      → Returns
          (Copied table (entry_no * 248 + s) val 0 (e + 1 - s))
          (extract_field table entry_no s e val)
  unfolding extract_field
  extract_field_lem hb =
      copy_loop table (entry_no * 248 + s) val 0 (e + 1 - s) s _ hb (omega arith) λ k v hk hv.
        let from : entry_no * 31 * 8 + (s + k) ≡ entry_no * 248 + s + k = omega arith in
        let to : s + k - s ≡ 0 + k = omega arith in
        rw (from, to)
          (copy_bit table (entry_no * 248 + s + k) v (0 + k) (omega arith) (omega arith)).0

  -- If the field lies inside the table, an array of bytes, and its length inside `val`, then
  -- `replace_field` ends without a fault, having put the start of `val` in the field's place and
  -- left every other bit of the table as it was.
  pub replace_field_lem :
      AllBytes table
      → Returns
          (Copied val 0 table (entry_no * 248 + s) (e + 1 - s))
          (replace_field table entry_no s e val)
  unfolding replace_field
  replace_field_lem hb =
      copy_loop val 0 table (entry_no * 248 + s) (e + 1 - s) s _ hb (omega arith) λ k t hk ht.
        let to : entry_no * 31 * 8 + (s + k) ≡ entry_no * 248 + s + k = omega arith in
        let from : s + k - s ≡ 0 + k = omega arith in
        rw (from, to)
          (copy_bit val (0 + k) t (entry_no * 248 + s + k) (omega arith) (omega arith)).0

-- If the field lies inside the table and its length inside both values, then replacing it and
-- extracting it again ends without a fault and gives back the field bit by bit, whatever array of
-- bytes it is extracted into; the other bits of that array stay.
pub extract_field-replace_field :
    (table : Bytes) (entry_no s e : ℕ) (val val' : Bytes)
    → AllBytes table
    → AllBytes val'
    → s ≤ e
    → entry_no * 248 + e < 8 * length table
    → e < s + 8 * length val
    → e < s + 8 * length val'
    → Returns
        (λ out. (q : ℕ) → bit_at out q ≡ (if leb q (e - s) then bit_at val q else bit_at val' q))
        (replace_field table entry_no s e val >>= λ t. extract_field t entry_no s e val')
extract_field-replace_field table entry_no s e val val' ht hv order in_table in_val in_val' =
    let (t, run, c) = replace_field_lem table entry_no s e val (omega arith) in_table in_val ht in
    let (out, run', c') =
      extract_field_lem t entry_no s e val' (omega arith) (rw (c.size) in_table) in_val' hv in
    (
      out,
      rw run run',
      λ q. ground (arith, c'.bits q, c.bits (entry_no * 248 + s + (q - 0)), zero_sub q),
    )
  where
    zero_sub : (q : ℕ) → 0 + ((entry_no * 248 + s + (q - 0)) - (entry_no * 248 + s)) ≡ q
    zero_sub q = omega arith

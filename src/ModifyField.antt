-- ===== src/ModifyField.antt =====
-- flow-processing-unit/modify_field.h: fields of an action set, as runs of bits of a table's entry.
pub mod RoundTrip
use net_walk.Base.{ℕ, ◌+◌, ◌-◌, ◌*◌, Option, Bytes, ◌>>=◌, for_range, ◌==◌, if◌then◌else◌}
use net_walk.Bits.{set_bit, reset_bit, read_bit}

-- ACTN_ST_LEN
abbrev pub actn_st_len : ℕ
actn_st_len = 31

-- Copies the bits `strt_bit` to `end_bit`, both included, of an entry to the start of `val`.
unfoldable pub extract_field : Bytes → ℕ → ℕ → ℕ → Bytes → Option Bytes
extract_field table entry_no strt_bit end_bit val =
    for_range (end_bit + 1 - strt_bit) strt_bit
      (λ i val'. do
        v ← read_bit table (entry_no * actn_st_len * 8 + i)
        if v == 0 then reset_bit val' (i - strt_bit) else set_bit val' (i - strt_bit))
      val

-- The other way round: the start of `val` goes to the bits of the entry.
unfoldable pub replace_field : Bytes → ℕ → ℕ → ℕ → Bytes → Option Bytes
replace_field table entry_no strt_bit end_bit val =
    for_range (end_bit + 1 - strt_bit) strt_bit
      (λ i table'. do
        v ← read_bit val (i - strt_bit)
        if v == 0
            then reset_bit table' (entry_no * actn_st_len * 8 + i)
            else set_bit table' (entry_no * actn_st_len * 8 + i))
      table

-- ===== src/PreProcessor/Segment.antt =====
-- One run of bits of the match field, copied from the packet or set to one value.
use native.Mathlib.Nat.{zero-add}
use net_walk.Base.{ℕ, ◌+◌, ◌*◌, ◌≤◌, arith, Bytes, AllBytes, length, Returns}
use net_walk.Bits.Laws.{set_bit_in}
use net_walk.Bits.Copy.{Copied, Filled, fill_loop, copy_loop, copy_bit}
use net_walk.PreProcessor.{set_match_field_bits, set_match_field_bits_as_zeros}

-- Inside both arrays the run is copied, and every other bit of the match field stays.
pub set_match_field_bits_lem :
    (pkt mf : Bytes) (sp sm n : ℕ)
    → AllBytes mf
    → sp + n ≤ 8 * length pkt
    → sm + n ≤ 8 * length mf
    → Returns (Copied pkt sp mf sm n) (set_match_field_bits pkt mf sp sm n)
unfolding set_match_field_bits
set_match_field_bits_lem pkt mf sp sm n hb hp hm =
    copy_loop pkt sp mf sm n 0 _ hb hm
      λ k m hk e. rw zero-add (copy_bit pkt (sp + k) m (sm + k) (omega arith) (omega arith)).1

-- Inside the match field the run is set to ones, and every other bit stays.
pub set_match_field_bits_as_zeros_lem :
    (mf : Bytes) (sm n : ℕ)
    → AllBytes mf
    → sm + n ≤ 8 * length mf
    → Returns (Filled (λ _. 1) mf sm n) (set_match_field_bits_as_zeros mf sm n)
unfolding set_match_field_bits_as_zeros
set_match_field_bits_as_zeros_lem mf sm n hb hm =
    fill_loop (λ _. 1) mf sm n 0 _ hb hm (λ _. omega arith)
      λ k m hk e. rw zero-add (set_bit_in m (sm + k) (omega arith))

-- ===== src/PacketBuffer/Valid.antt =====
-- The invariant of the ring, the queue of bytes that it holds, and what each operation does to it.
use mathlib.Core.Path.{ap₂}
use net_walk.Base.{
  ℕ, zero, suc, false, Bool-cases, inl, inr, ◌+◌, ◌-◌, ◌≤◌, ◌<◌, ◌≡◌, ◌≢◌, refl, ap, ◌∙◌, get_or,
  arith, Bytes, store_in, ◌==◌, if◌then◌else◌, length, length-set, set, byte_at, get_or-set,
  Returns, ltb, List, [], ◌∷◌, ◌++◌,
}
use net_walk.PacketBuffer.{PacketBuffer, next_index, add_a_byte_to_the_packet_buffer}

pub record IsValid (pb : PacketBuffer) : Type 0 where
  pub size : length pb.packet_buffer ≡ 1000
  pub head_in : pb.packet_buffer_head < 1000
  pub tail_in : pb.packet_buffer_tail < 1000
  pub reading_in : pb.buffer_reading_head < 1000
  pub full_flag : pb.buffer_full_flag < 2
  pub empty_flag : pb.buffer_empty_flag < 2
  pub empty : pb.buffer_empty_flag ≡ 1 → pb.packet_buffer_head ≡ pb.packet_buffer_tail
  pub full :
      pb.buffer_empty_flag ≡ 0
      → pb.packet_buffer_head ≡ pb.packet_buffer_tail
      → pb.buffer_full_flag ≡ 1

-- The bytes stored.
abbrev pub count : PacketBuffer → ℕ
count pb =
    if pb.buffer_empty_flag == 1
    then 0
    else if ltb pb.packet_buffer_head pb.packet_buffer_tail
    then pb.packet_buffer_tail - pb.packet_buffer_head
    else pb.packet_buffer_tail + 1000 - pb.packet_buffer_head

-- The `n` bytes from index `h` on.
unfoldable pub window : Bytes → ℕ → ℕ → List ℕ
window buf h zero = []
window buf h (suc n) = byte_at buf h ∷ window buf (next_index h) n

unfoldable pub contents : PacketBuffer → List ℕ
contents pb = window pb.packet_buffer pb.packet_buffer_head (count pb)

pub length-window : (buf : Bytes) (h n : ℕ) → length (window buf h n) ≡ n
unfolding window
length-window buf h zero = refl
length-window buf h (suc n) = ap suc (length-window buf (next_index h) n)

pub length-contents : (pb : PacketBuffer) → length (contents pb) ≡ count pb
unfolding contents
length-contents pb = length-window pb.packet_buffer pb.packet_buffer_head (count pb)

-- The index `k` places behind `h`.
abbrev pub wrap : ℕ → ℕ → ℕ
wrap h k = if ltb (h + k) 1000 then h + k else h + k - 1000

pub get_or-window :
    (buf : Bytes) (h n i : ℕ)
    → h < 1000
    → n ≤ 1000
    → i < n
    → get_or (window buf h n) i 0 ≡ byte_at buf (wrap h i)
unfolding window
get_or-window buf h zero i hh hn hi = absurd (omega arith)
get_or-window buf h (suc n) zero hh hn hi = ap (byte_at buf) (ground arith)
get_or-window buf h (suc n) (suc i) hh hn hi =
    get_or-window buf (next_index h) n i (ground arith) (omega arith) (omega arith)
    ∙ ap (byte_at buf) (ground arith)

-- A write just behind a window extends it by the byte.
window-set :
    (buf : Bytes) (h n t x : ℕ)
    → length buf ≡ 1000
    → h < 1000
    → n < 1000
    → t ≡ wrap h n
    → window (set buf t x) h (suc n) ≡ window buf h n ++ x ∷ []
unfolding window
window-set buf h zero t x size hh hn e = ground (arith, get_or-set buf t h x 0 (ground arith))
window-set buf h (suc n) t x size hh hn e =
    ap₂ ◌∷◌ (ground (arith, get_or-set buf t h x 0))
      (window-set buf (next_index h) n t x size (ground arith) (omega arith) (ground arith))

-- What an attempt to add a byte leaves: a closed buffer as it is, and an open one with the byte
-- behind its queue, closed if that makes a thousand bytes.
pub record Added (pb : PacketBuffer) (byte : ℕ) (pb' : PacketBuffer) : Type 0 where
  pub valid : IsValid pb'
  pub queue :
      contents pb' ≡ (if pb.buffer_full_flag == 1 then contents pb else contents pb ++ byte ∷ [])
  pub closed :
      pb'.buffer_full_flag
      ≡ (if pb.buffer_full_flag == 1 then 1 else if count pb == 999 then 1 else 0)
  pub reading : pb'.buffer_reading_head ≡ pb.buffer_reading_head
  pub head : pb'.packet_buffer_head ≡ pb.packet_buffer_head

-- The buffer with the byte stored.
abbrev stored : PacketBuffer → ℕ → PacketBuffer
stored pb byte =
    let tail : ℕ = next_index pb.packet_buffer_tail in
    record pb {
      packet_buffer = set pb.packet_buffer pb.packet_buffer_tail byte;
      buffer_empty_flag = 0;
      packet_buffer_tail = tail;
      buffer_full_flag = if tail == pb.packet_buffer_head then 1 else pb.buffer_full_flag;
    }

stored-IsValid : (pb : PacketBuffer) (byte : ℕ) → IsValid pb → IsValid (stored pb byte)
stored-IsValid pb byte v = ground (arith, length-set pb.packet_buffer pb.packet_buffer_tail byte)

count-stored :
    (pb : PacketBuffer) (byte : ℕ)
    → IsValid pb
    → pb.buffer_full_flag ≢ 1
    → (count (stored pb byte) ≡ suc (count pb)) × (count pb < 1000)
count-stored pb byte v ne = ground arith

tail_lem :
    (pb : PacketBuffer)
    → IsValid pb
    → pb.buffer_full_flag ≢ 1
    → pb.packet_buffer_tail ≡ wrap pb.packet_buffer_head (count pb)
tail_lem pb v ne = ground arith

contents-stored :
    (pb : PacketBuffer) (byte : ℕ)
    → IsValid pb
    → pb.buffer_full_flag ≢ 1
    → contents (stored pb byte) ≡ contents pb ++ byte ∷ []
unfolding contents
contents-stored pb byte v ne =
    let (c, small) = count-stored pb byte v ne in
    rw c (
      window-set pb.packet_buffer pb.packet_buffer_head (count pb) pb.packet_buffer_tail byte v.size
        v.head_in small (tail_lem pb v ne))

stored-Added :
    (pb : PacketBuffer) (byte : ℕ)
    → IsValid pb
    → (pb.buffer_full_flag == 1) ≡ false
    → Added pb byte (stored pb byte)
stored-Added pb byte v e =
    let ne : pb.buffer_full_flag ≢ 1 = ground arith in
    record {
      valid = stored-IsValid pb byte v;
      queue = rw e (contents-stored pb byte v ne);
      closed = ground (arith, count-stored pb byte v ne);
      reading = refl;
      head = refl;
    }

-- On a valid buffer the attempt to add a byte ends without a fault and leaves a valid buffer: a
-- closed one as it is, and an open one with the byte behind its queue, closed if that makes a
-- thousand bytes. Neither of the two reading indices moves.
pub add_a_byte_lem :
    (pb : PacketBuffer) (byte : ℕ)
    → IsValid pb
    → Returns (Added pb byte) (add_a_byte_to_the_packet_buffer pb byte)
unfolding add_a_byte_to_the_packet_buffer
add_a_byte_lem pb byte v = elim (Bool-cases (pb.buffer_full_flag == 1)) [
  | inl e ↦ (
    pb,
    rw e,
    record { valid = v; queue = rw e; closed = ground arith; reading = refl; head = refl },
  )
  | inr e ↦ (
    stored pb byte,
    rw (e, store_in pb.packet_buffer pb.packet_buffer_tail byte (omega (arith, v.size))),
    stored-Added pb byte v e,
  )
]

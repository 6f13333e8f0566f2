-- ===== src/Bits.antt =====
-- flow-processing-unit/bit_operations.h: bits of a byte array, the highest bit of a byte first.
pub mod Byte
pub mod Laws
pub mod Copy
use Prim.Native.Nat.{bit_and, bit_or}
use net_walk.Base.{
  ℕ, ◌-◌, ◌/◌, ◌%◌, ◌^◌, Option, some, Bytes, ◌>>=◌, load, store, ◌==◌, if◌then◌else◌,
}

-- `flag << bit_pos` for `bit_pos = 7 - pos % 8`, which stays below 256.
abbrev pub bit_flag : ℕ → ℕ
bit_flag pos = 2 ^ (7 - pos % 8)

unfoldable pub set_bit : Bytes → ℕ → Option Bytes
set_bit arr pos = do b ← load arr (pos / 8); store arr (pos / 8) (bit_or b (bit_flag pos))

-- `~flag` on `uint8_t`.
unfoldable pub reset_bit : Bytes → ℕ → Option Bytes
reset_bit arr pos = do b ← load arr (pos / 8); store arr (pos / 8) (bit_and b (255 - bit_flag pos))

unfoldable pub read_bit : Bytes → ℕ → Option ℕ
read_bit arr pos = do b ← load arr (pos / 8); some (if bit_and (bit_flag pos) b == 0 then 0 else 1)

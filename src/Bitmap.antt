-- ===== src/Bitmap.antt =====
-- `setBit`, `clrBit` and `testBit` of sdk/include/ke/defs.h on an array of bytes. An access behind
-- the end of the array is a fault, `none`.
pub mod Bytes
pub mod Laws
use algae.Base.{
  ℕ, ◌-◌, ◌%◌, ◌^◌, Bool, not, Option, some, List, get_elem?, set, ◌>>=◌, bit_and, bit_or, u8,
  ◌>>>◌, ◌==◌,
}

-- `byte | BIT(k)`, stored into an unsigned char
unfoldable pub set_byte : ℕ → ℕ → ℕ
set_byte v k = u8 (bit_or v (2 ^ k))

-- `byte & ~BIT(k)`: `BIT` is an unsigned long long
unfoldable pub clr_byte : ℕ → ℕ → ℕ
clr_byte v k = u8 (bit_and v (2 ^ 64 - 1 - 2 ^ k))

unfoldable pub test_byte : ℕ → ℕ → Bool
test_byte v k = not (bit_and v (2 ^ k) == 0)

unfoldable pub set_bit : List ℕ → ℕ → Option (List ℕ)
set_bit a b = do v ← get_elem? a (b >>> 3); some (set a (b >>> 3) (set_byte v (b % 8)))

unfoldable pub clr_bit : List ℕ → ℕ → Option (List ℕ)
clr_bit a b = do v ← get_elem? a (b >>> 3); some (set a (b >>> 3) (clr_byte v (b % 8)))

unfoldable pub test_bit : List ℕ → ℕ → Option Bool
test_bit a b = do v ← get_elem? a (b >>> 3); some (test_byte v (b % 8))

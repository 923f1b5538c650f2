-- ===== src/Base/Words.antt =====
-- The fixed widths of C, and the macros of sdk/include/ke/defs.h that round and take extrema.
use Prim.Native.Nat.{ℕ, ◌+◌, ◌-◌, ◌*◌, ◌/◌, ◌%◌, ◌^◌}
use algae.Base.Tests.{ltb, if◌then◌else◌}

abbrev pub u8 : ℕ → ℕ
u8 n = n % 2 ^ 8

abbrev pub u16 : ℕ → ℕ
u16 n = n % 2 ^ 16

abbrev pub u32 : ℕ → ℕ
u32 n = n % 2 ^ 32

abbrev pub u64 : ℕ → ℕ
u64 n = n % 2 ^ 64

infixl 75 ◌<<<◌ ◌>>>◌
abbrev pub ◌<<<◌ : ℕ → ℕ → ℕ
x <<< k = x * 2 ^ k

abbrev pub ◌>>>◌ : ℕ → ℕ → ℕ
x >>> k = x / 2 ^ k

-- `v & ~(align - 1)`: `align` is a power of two, so the mask takes the remainder away.
abbrev pub align_down : ℕ → ℕ → ℕ
align_down v align = v - v % align

-- `(v + align - 1) & ~(align - 1)` in 64 bits.
abbrev pub align_up : ℕ → ℕ → ℕ
align_up v align = align_down (u64 (v + align - 1)) align

-- `MIN` and `MAX`
abbrev pub c_min : ℕ → ℕ → ℕ
c_min a b = if ltb a b then a else b

abbrev pub c_max : ℕ → ℕ → ℕ
c_max a b = if ltb b a then a else b

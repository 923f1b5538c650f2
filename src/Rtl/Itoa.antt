-- ===== src/Rtl/Itoa.antt =====
-- `rtlItoa` of ntos/rtl/itoa.c. The buffer is the list of the bytes written into it; the caller's
-- array is taken to be long enough for them.
pub mod Unreverse
pub mod Decimal
pub mod Numerals
use algae.Base.{
  ℕ, zero, suc, ◌+◌, ◌-◌, ◌*◌, ◌/◌, ◌%◌, Bool, true, false, Option, none, some, List, [], ◌∷◌, ◌++◌,
  ltb, ◌==◌, if◌then◌else◌, ◌>>=◌, length, get_elem?, set,
}

-- `tmp = buf[j]; buf[j] = buf[i]; buf[i] = tmp;`
pub swap : List ℕ → (j i : ℕ) → Option (List ℕ)
swap buf j i = do tmp ← get_elem? buf j; b ← get_elem? buf i; some (set (set buf j b) i tmp)

-- The loop `for (j = 0; j < i; ++j, --i)`; `i` rounds are enough.
pub unreverse : (fuel : ℕ) → List ℕ → (j i : ℕ) → Option (List ℕ)
unreverse zero buf j i = if ltb j i then none else some buf
unreverse (suc fuel) buf j i = elim (ltb j i) [
  | true ↦ do buf' ← swap buf j i; unreverse fuel buf' (j + 1) (i - 1)
  | false ↦ some buf
]

-- The digits that the loop of `itoaBase10Convert` writes, lowest first. 20 rounds serve 64 bits.
pub base10_digits : (fuel value : ℕ) → Option (List ℕ)
base10_digits zero value = if value == 0 then some [] else none
base10_digits (suc fuel) value = elim (value == 0) [
  | true ↦ some []
  | false ↦ do ds ← base10_digits fuel (value / 10); some ((b'0' + value % 10) ∷ ds)
]

-- The reversed digits, and the terminator, which is not moved. `value` is unsigned, so the branch
-- for a negative one is never taken.
unfoldable pub itoa_base10_convert : (value : ℕ) → Option (List ℕ)
unfolding base10_digits unreverse swap
itoa_base10_convert value =
    if value == 0
    then some (b'0' ∷ 0 ∷ [])
    else (do ds ← base10_digits 20 value; unreverse (length ds) (ds ++ 0 ∷ []) 0 (length ds - 1))

-- `ascii_nums[nibble]`
pub ascii_num : ℕ → ℕ
ascii_num nibble = if ltb nibble 10 then b'0' + nibble else b'A' + (nibble - 10)

-- The nibbles, lowest first. 16 rounds serve 64 bits.
pub base16_digits : (fuel n : ℕ) → Option (List ℕ)
unfolding ascii_num
base16_digits zero n = if n == 0 then some [] else none
base16_digits (suc fuel) n = elim (n == 0) [
  | true ↦ some []
  | false ↦ do ds ← base16_digits fuel (n / 16); some (ascii_num (n % 16) ∷ ds)
]

unfoldable pub itoa_convert_base16 : (n : ℕ) → Option (List ℕ)
unfolding base16_digits unreverse swap
itoa_convert_base16 n = if n == 0 then some (b'0' ∷ b'x' ∷ b'0' ∷ b'0' ∷ 0 ∷ []) else (do
  ds ← base16_digits 16 n
  let out = (if ltb n 16 then ds ++ b'0' ∷ [] else ds) ++ b'x' ∷ b'0' ∷ []
  unreverse (length out) (out ++ 0 ∷ []) 0 (length out - 1))

-- What `rtlItoa` returns: the buffer, or null for a base that it does not know.
pub data Converted : Type 0 where
  buf : List ℕ → Converted
  null : Converted

unfoldable pub rtl_itoa : (value base : ℕ) → Option Converted
unfolding itoa_base10_convert itoa_convert_base16
rtl_itoa value base =
    if base == 10
    then (do out ← itoa_base10_convert value; some (buf out))
    else if base == 16
    then (do out ← itoa_convert_base16 value; some (buf out))
    else some null

-- ===== src/Rtl/Printf.antt =====
-- `rtlBufPrintfV` of ntos/rtl/string.c. `none` is a read behind the format's end, a write outside the
-- buffer, or an argument that is missing or of another type.
pub mod Laid
pub mod Render
pub mod Holds
pub mod Rendered
pub mod Pieces
use algae.Base.{
  ℕ, zero, suc, ◌+◌, ◌-◌, ◌*◌, ◌^◌, Bool, true, false, Option, none, some, List, [], ◌∷◌, ◌++◌, ltb,
  leb, ◌==◌, ◌&&◌, ◌||◌, not, if◌then◌else◌, ◌>>=◌, length, set, drop, replicate, map, u8, u32, u64,
  ℤ, pos, negsuc,
}
use algae.Rtl.Str.{rtl_strlen, is_digit}
use algae.Rtl.Itoa.{itoa_base10_convert, itoa_convert_base16}

-- The caller's buffer, and `off`.
pub record Out : Type 0 where
  pub buf : List ℕ
  pub off : ℕ

-- An argument behind the format.
pub data Arg : Type 0 where
  number : ℕ → Arg
  text : List ℕ → Arg

-- `buf[i] = c`
unfoldable pub store_byte : List ℕ → (i c : ℕ) → Option (List ℕ)
store_byte buf i c = if ltb i (length buf) then some (set buf i c) else none

-- `size - 1`, unsigned
abbrev pub room : ℕ → ℕ
room size = u64 (size + 2 ^ 64 - 1)

unfoldable pub terminate : Out → Option Out
unfolding store_byte
terminate o = do b ← store_byte o.buf o.off 0; some (record o { buf = b })

unfoldable pub push_byte : Out → (c : ℕ) → Option Out
unfolding store_byte
push_byte o c = do b ← store_byte o.buf o.off c; some (record { buf = b; off = o.off + 1 })

unfoldable pub print_c : (size : ℕ) → Out → (c : ℕ) → Option Out
unfolding terminate push_byte
print_c size o c = do o' ← if ltb o.off (room size) then push_byte o c else some o; terminate o'

unfoldable pub print_str : (size : ℕ) → Out → (s : List ℕ) → Option Out
unfolding terminate push_byte
print_str size o [] = if ltb o.off (room size) then none else terminate o
print_str size o (c ∷ s) = elim (ltb o.off (room size) && not (c == 0)) [
  | true ↦ do o' ← push_byte o c; print_str size o' s
  | false ↦ terminate o
]

-- A call of `printC` or of `printStr`.
pub data Call : Type 0 where
  c_of : (c : ℕ) → Call
  str_of : (s : List ℕ) → Call

unfoldable pub print : (size : ℕ) → Out → Call → Option Out
unfolding print_c print_str
print size o (c_of c) = print_c size o c
print size o (str_of s) = print_str size o s

unfoldable pub print_all : (size : ℕ) → Out → List Call → Option Out
unfolding print
print_all size o [] = some o
print_all size o (x ∷ xs) = do o' ← print size o x; print_all size o' xs

-- The bytes in front of the next `%` or of the end, and the format from there on.
unfoldable pub split_literal : (fmt : List ℕ) → Option (List ℕ × List ℕ)
split_literal [] = none
split_literal (c ∷ fmt) =
    let rest = split_literal fmt in
    if (c == 0) || (c == b'%') then some ([], c ∷ fmt) else (do r ← rest; some (c ∷ r.0, r.1))

-- `pad_width` is an unsigned char.
unfoldable pub pad_digits : (pad_width : ℕ) → (fmt : List ℕ) → ℕ × List ℕ
pad_digits pad_width [] = (pad_width, [])
pad_digits pad_width (c ∷ fmt) =
    let rest = pad_digits (u8 (pad_width * 10 + (c - b'0'))) fmt in
    if is_digit c then rest else (pad_width, c ∷ fmt)

unfoldable pub parse_pad : (pad_width : ℕ) → (fmt : List ℕ) → ℕ × List ℕ
unfolding pad_digits
parse_pad pad_width [] = (pad_width, [])
parse_pad pad_width (c ∷ fmt) = if c == b'0' then pad_digits pad_width fmt else (pad_width, c ∷ fmt)

-- What a conversion prints, the arguments that are left, and the new `pad_width`.
pub record Conversion : Type 0 where
  pub calls : List Call
  pub args : List Arg
  pub pad_width : ℕ

unfoldable pub print_hex : (num : ℕ) → Option (List Call)
print_hex num = do digits ← itoa_convert_base16 num; some (str_of (drop 2 digits) ∷ [])

-- "0x", zeros up to 18 characters in all, and the digits.
unfoldable pub print_pointer : (num : ℕ) → Option (List Call)
print_pointer num = do
  digits ← itoa_convert_base16 num
  len ← rtl_strlen digits
  some (
      c_of b'0'
      ∷ c_of b'x'
      ∷ (replicate (u64 (18 + 2 ^ 64 - len)) (c_of b'0') ++ str_of (drop 2 digits) ∷ []))

unfoldable pub print_decimal : (pad_width num : ℕ) → Option (List Call)
print_decimal pad_width num = do
  digits ← itoa_base10_convert num
  if ltb 0 pad_width
      then (do
        len ← rtl_strlen digits
        some (replicate (pad_width - len) (c_of b'0') ++ str_of digits ∷ []))
      else some (str_of digits ∷ [])

-- The conversions that take a number.
unfoldable pub convert_number : (c num pad_width : ℕ) → (args : List Arg) → Option Conversion
unfolding print_hex print_pointer print_decimal
convert_number c num pad_width args =
    if c == b'c'
    then some (record { calls = c_of (u8 num) ∷ []; args = args; pad_width = pad_width })
    else if c == b'x'
    then (do xs ← print_hex num; some (record { calls = xs; args = args; pad_width = pad_width }))
    else if c == b'p'
    then (do
      xs ← print_pointer num
      some (record { calls = xs; args = args; pad_width = pad_width }))
    else (do
      xs ← print_decimal pad_width num
      some (record { calls = xs; args = args; pad_width = 0 }))

convert_arg : (c pad_width : ℕ) → (args : List Arg) → Option Conversion
unfolding convert_number
convert_arg c pad_width [] = none
convert_arg c pad_width (number num ∷ args) =
    if c == b's' then none else convert_number c num pad_width args
convert_arg c pad_width (text s ∷ args) =
    if c == b's'
    then some (record { calls = str_of s ∷ []; args = args; pad_width = pad_width })
    else none

abbrev pub takes_arg : ℕ → Bool
takes_arg c = (c == b'c') || (c == b'x') || (c == b'p') || (c == b'd') || (c == b'u') || (c == b's')

-- The `switch`; a character without a case prints nothing.
unfoldable pub convert : (c pad_width : ℕ) → (args : List Arg) → Option Conversion
unfolding convert_arg
convert c pad_width args =
    if c == b'%'
    then some (record { calls = c_of c ∷ []; args = args; pad_width = pad_width })
    else if takes_arg c
    then convert_arg c pad_width args
    else some (record { calls = []; args = args; pad_width = pad_width })

-- The conversion behind a `%`, and the format behind it.
unfoldable pub next_conversion :
    (pad_width : ℕ) → (fmt : List ℕ) → (args : List Arg) → Option (Conversion × List ℕ)
unfolding parse_pad convert
next_conversion pad_width fmt args = elim ((parse_pad pad_width fmt).1) [
  | [] ↦ none
  | c ∷ fmt' ↦ do conversion ← convert c (parse_pad pad_width fmt).0 args; some (conversion, fmt')
]

-- The outer loop. The result is the returned number and the buffer.
unfoldable pub printf_loop :
    (fuel size pad_width : ℕ) → (fmt : List ℕ) → (args : List Arg) → Out → Option (ℕ × Out)
unfolding print_all split_literal next_conversion
printf_loop zero size pad_width fmt args o = none
printf_loop (suc fuel) size pad_width fmt args o = elim (ltb o.off (room size)) [
  | false ↦ some (0, o)
  | true ↦ do
    literal ← split_literal fmt
    o1 ← print_all size o (map c_of literal.0)
    elim (literal.1) [
      | [] ↦ none
      | c ∷ fmt1 ↦ elim ((c == 0) || (o1.off == room size)) [
        | true ↦ some (o1.off, o1)
        | false ↦ do
          next ← next_conversion pad_width fmt1 args
          o2 ← print_all size o1 next.0.calls
          printf_loop fuel size next.0.pad_width next.1 next.0.args o2
      ]
    ]
]

-- The conversion of a `USIZE` to the `int` that is returned.
abbrev pub to_int : ℕ → ℤ
to_int n = if ltb (u32 n) (2 ^ 31) then pos (u32 n) else negsuc (2 ^ 32 - 1 - u32 n)

unfoldable pub rtl_buf_printf_v :
    (fuel size : ℕ) → (s fmt : List ℕ) → (args : List Arg) → Option (ℤ × List ℕ)
unfolding printf_loop
rtl_buf_printf_v fuel size s fmt args = do
  r ← printf_loop fuel size 0 fmt args (record { buf = s; off = 0 })
  some (to_int r.0, r.1.buf)

-- ===== src/Rtl/Printf/Pieces.antt =====
-- Formats of `rtlBufPrintfV` (ntos/rtl/string.c) that are put together from bytes and conversions.
use algae.Base.{
  ℕ, zero, suc, ◌-◌, ◌^◌, ◌≤◌, ◌<◌, ◌≡◌, ◌≢◌, refl, ap, ◌∙◌, some, List, [], ◌∷◌, ◌++◌, arith,
  ◌>>=◌, length, take, drop, All, ne→eqb, ◌⊎◌, pos, append-nil,
}
use algae.Rtl.Itoa.Numerals.{
  decimal, hexadecimal, decimal_text, hexadecimal_text, itoa_base10_convert-decimal,
  itoa_convert_base16-hexadecimal,
}
use algae.Rtl.Printf.{
  Arg, number, text, str_of, next_conversion, print_hex, print_decimal, rtl_buf_printf_v,
}
use algae.Rtl.Printf.Laid.{until_nul, text_of, all_text}
use algae.Rtl.Printf.Render.{render}
use algae.Rtl.Printf.Render.Bytes.{render_byte, render_conversion, render_end}
use algae.Rtl.Printf.Rendered.{rtl_buf_printf_v-render}

-- A byte of the text itself, or one of `%s`, `%u` and `%x` with its argument; behind a string's terminator
-- stands `rest`.
pub data Piece : Type 0 where
  byte : (c : ℕ) → Piece
  str : (s rest : List ℕ) → Piece
  dec : (n : ℕ) → Piece
  hex : (n : ℕ) → Piece

abbrev pub IsPiece : Piece → Type 0
IsPiece (byte c) = (c ≢ 0) × (c ≢ b'%')
IsPiece (str s rest) = All (λ c. c ≢ 0) s
IsPiece (dec n) = n < 2 ^ 64
IsPiece (hex n) = n < 2 ^ 64

abbrev pub format : List Piece → (rest : List ℕ) → List ℕ
format [] rest = 0 ∷ rest
format (byte c ∷ ps) rest = c ∷ format ps rest
format (str s r ∷ ps) rest = b'%' ∷ b's' ∷ format ps rest
format (dec n ∷ ps) rest = b'%' ∷ b'u' ∷ format ps rest
format (hex n ∷ ps) rest = b'%' ∷ b'x' ∷ format ps rest

abbrev pub arguments : List Piece → List Arg
arguments [] = []
arguments (byte c ∷ ps) = arguments ps
arguments (str s rest ∷ ps) = text (s ++ 0 ∷ rest) ∷ arguments ps
arguments (dec n ∷ ps) = number n ∷ arguments ps
arguments (hex n ∷ ps) = number n ∷ arguments ps

-- The bytes and strings themselves, and the numbers' decimal and hexadecimal digits.
abbrev pub printed : List Piece → List ℕ
printed [] = []
printed (byte c ∷ ps) = c ∷ printed ps
printed (str s rest ∷ ps) = s ++ printed ps
printed (dec n ∷ ps) = decimal n ++ printed ps
printed (hex n ∷ ps) = hexadecimal n ++ printed ps

until_nul-text : (s rest : List ℕ) → All (λ c. c ≢ 0) s → until_nul (s ++ 0 ∷ rest) ≡ some s
unfolding until_nul
until_nul-text [] rest h = refl
until_nul-text (c ∷ s) rest h = rw (ne→eqb c 0 h.0) rw (until_nul-text s rest h.1) refl

-- What one call for a string prints.
one_text : (s rest : List ℕ) → All (λ c. c ≢ 0) s → all_text (str_of (s ++ 0 ∷ rest) ∷ []) ≡ some s
unfolding all_text text_of
one_text s rest h = rw (until_nul-text s rest h) (ap some (append-nil s))

next-str :
    (s : List ℕ) (fmt : List ℕ) (args : List Arg)
    → next_conversion 0 (b's' ∷ fmt) (text s ∷ args)
      ≡ some (record { calls = str_of s ∷ []; args = args; pad_width = 0 }, fmt)
unfolding next_conversion
next-str s fmt args = refl

next-dec :
    (n : ℕ) (fmt : List ℕ) (args : List Arg)
    → n < 2 ^ 64
    → next_conversion 0 (b'u' ∷ fmt) (number n ∷ args)
      ≡ some (record { calls = str_of (decimal n ++ 0 ∷ []) ∷ []; args = args; pad_width = 0 }, fmt)
unfolding next_conversion print_decimal
next-dec n fmt args h = rw (itoa_base10_convert-decimal n h) refl

next-hex :
    (n : ℕ) (fmt : List ℕ) (args : List Arg)
    → n < 2 ^ 64
    → next_conversion 0 (b'x' ∷ fmt) (number n ∷ args)
      ≡ some (
        record { calls = str_of (hexadecimal n ++ 0 ∷ []) ∷ []; args = args; pad_width = 0 },
        fmt,
      )
unfolding next_conversion print_hex
next-hex n fmt args h = rw (itoa_convert_base16-hexadecimal n h) refl

render-format :
    (fuel : ℕ) (ps : List Piece) (rest : List ℕ)
    → All IsPiece ps
    → length ps ≤ fuel
    → render (suc fuel) 0 (format ps rest) (arguments ps) ≡ some (printed ps)
render-format fuel [] rest h enough = render_end fuel rest []
render-format fuel (byte c ∷ ps) rest h enough =
    render_byte fuel 0 c (format ps rest) (arguments ps) h.0.0 h.0.1
    ∙ ap (λ o. o >>= λ t. some (c ∷ t)) (render-format fuel ps rest h.1 (omega (arith, enough)))
render-format zero (str s r ∷ ps) rest h enough = absurd (omega (arith, enough))
render-format (suc fuel) (str s r ∷ ps) rest h enough =
    render_conversion (suc fuel) b's' (format ps rest) (text (s ++ 0 ∷ r) ∷ arguments ps)
      (arguments ps) (str_of (s ++ 0 ∷ r) ∷ []) s (printed ps)
      (next-str (s ++ 0 ∷ r) (format ps rest) (arguments ps)) (one_text s r h.0)
      (render-format fuel ps rest h.1 (omega (arith, enough)))
render-format zero (dec n ∷ ps) rest h enough = absurd (omega (arith, enough))
render-format (suc fuel) (dec n ∷ ps) rest h enough =
    render_conversion (suc fuel) b'u' (format ps rest) (number n ∷ arguments ps) (arguments ps)
      (str_of (decimal n ++ 0 ∷ []) ∷ []) (decimal n) (printed ps)
      (next-dec n (format ps rest) (arguments ps) h.0) (one_text (decimal n) [] (decimal_text n))
      (render-format fuel ps rest h.1 (omega (arith, enough)))
render-format zero (hex n ∷ ps) rest h enough = absurd (omega (arith, enough))
render-format (suc fuel) (hex n ∷ ps) rest h enough =
    render_conversion (suc fuel) b'x' (format ps rest) (number n ∷ arguments ps) (arguments ps)
      (str_of (hexadecimal n ++ 0 ∷ []) ∷ []) (hexadecimal n) (printed ps)
      (next-hex n (format ps rest) (arguments ps) h.0)
      (one_text (hexadecimal n) [] (hexadecimal_text n))
      (render-format fuel ps rest h.1 (omega (arith, enough)))

-- For a format of bytes and of the conversions `%s`, `%u` and `%x`, with a string or a number of 64 bits for
-- each, whose text, made of the bytes, the strings and the decimal and hexadecimal digits, is not empty, fuel
-- above the number of its pieces, and a size of at least two, at most the buffer's and at most 2 ^ 31:
-- `rtl_buf_printf_v` succeeds, and leaves the text's first `size - 1` bytes, a zero, and behind it what the
-- buffer held before; it returns the number of those bytes, or zero.
pub rtl_buf_printf_v-format :
    (fuel size : ℕ) (s : List ℕ) (ps : List Piece) (rest : List ℕ)
    → 1 < size
    → size ≤ length s
    → size ≤ 2 ^ 31
    → All IsPiece ps
    → printed ps ≢ []
    → length ps ≤ fuel
    → (ret : ℕ) × (rtl_buf_printf_v (suc fuel) size s (format ps rest) (arguments ps)
        ≡ some (
          pos ret,
          take (size - 1) (printed ps) ++ 0 ∷ drop (suc (length (take (size - 1) (printed ps)))) s,
        ))
      × ((ret ≡ 0) ⊎ (ret ≡ length (take (size - 1) (printed ps))))
rtl_buf_printf_v-format fuel size s ps rest lo hi small pieces some_text enough =
    rtl_buf_printf_v-render (suc fuel) size s (format ps rest) (arguments ps) (printed ps) lo hi
      small (render-format fuel ps rest pieces enough) some_text

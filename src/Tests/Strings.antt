-- ===== src/Tests/Strings.antt =====
-- The string functions on short strings.
use algae.Base.{
  suc, take, drop, ◌⊎◌, ◌-◌, ◌++◌, length, List, ℕ, ◌+◌, ◌-◌, ◌≡◌, some, List, [], ◌∷◌, ◌++◌, arith,
  if◌then◌else◌, length, pos, inl, take, drop, ◌⊎◌, suc,
}
use algae.Rtl.Memory.{rtl_memcpy, in_range, rtl_memcpy_lem}
use algae.Rtl.Str.{rtl_to_int32}
use algae.Rtl.Itoa.{itoa_base10_convert}
use algae.Rtl.Printf.{rtl_buf_printf_v}
use algae.Rtl.Printf.Pieces.{
  Piece, byte, str, dec, hex, format, arguments, printed, rtl_buf_printf_v-format,
}
use algae.Rtl.Itoa.Decimal.{rtl_to_int32-itoa}

abbrev ab : List ℕ
ab = b'a' ∷ b'b' ∷ []

abbrev ac : List ℕ
ac = b'a' ∷ b'c' ∷ []

rtl_memcpy_lem_example :
    rtl_memcpy (λ q. q) 100 102 4 101 ≡ (if in_range 100 4 101 then 102 + (101 - 100) else 101)
rtl_memcpy_lem_example = rtl_memcpy_lem 4 (λ q. q) 100 102 101 (inl (omega arith))

rtl_to_int32-itoa_example :
    (text : List ℕ) × (itoa_base10_convert 1024 ≡ some text)
    × (rtl_to_int32 (text ++ 9 ∷ []) ≡ some (pos 1024))
rtl_to_int32-itoa_example = rtl_to_int32-itoa 1024 (9 ∷ []) (omega arith)

-- "%s=%u%x" of "ab", 7 and 10, into six of eight bytes.
abbrev pieces : List Piece
pieces = str (b'a' ∷ b'b' ∷ []) [] ∷ byte b'=' ∷ dec 7 ∷ hex 10 ∷ []

abbrev eight : List ℕ
eight = 9 ∷ 9 ∷ 9 ∷ 9 ∷ 9 ∷ 9 ∷ 9 ∷ 9 ∷ []

rtl_buf_printf_v-format_example :
    (ret : ℕ) × (rtl_buf_printf_v 5 6 eight (format pieces []) (arguments pieces)
      ≡ some (
        pos ret,
        take (6 - 1) (printed pieces)
            ++ 0 ∷ drop (suc (length (take (6 - 1) (printed pieces)))) eight,
      ))
    × ((ret ≡ 0) ⊎ (ret ≡ length (take (6 - 1) (printed pieces))))
rtl_buf_printf_v-format_example =
    rtl_buf_printf_v-format 4 6 eight pieces [] (omega arith) (omega arith) (omega arith)
      (
        (omega arith, (omega arith, tt)),
        ((omega arith, omega arith), (omega arith, (omega arith, tt))),
      )
      (λ e. absurd cc) (omega arith)

-- ===== src/Rtl/Str.antt =====
-- The string functions of ntos/rtl/string.c. A pointer into a string is the list of the bytes from
-- there to the end of the object; a read behind that end is a fault, `none`.
pub mod Compare
use algae.Base.{
  ℕ, zero, suc, ◌+◌, ◌-◌, ◌*◌, ◌^◌, Bool, true, false, Option, none, some, List, [], ◌∷◌, ◌++◌, ltb,
  leb, ◌==◌, ◌&&◌, ◌||◌, if◌then◌else◌, ◌>>=◌, ℤ, pos, sub_ℕ, neg_ℕ,
}

-- A string in memory: its bytes, the terminator, and what stands behind it.
abbrev pub c_str : (s rest : List ℕ) → List ℕ
c_str s rest = s ++ 0 ∷ rest

-- `str` is not null.
unfoldable pub rtl_strlen : List ℕ → Option ℕ
rtl_strlen [] = none
rtl_strlen (c ∷ str) =
    let rest = rtl_strlen str in if c == 0 then some 0 else (do n ← rest; some (suc n))

unfoldable pub rtl_strcmp : List ℕ → List ℕ → Option ℤ
rtl_strcmp [] s2 = none
rtl_strcmp (a ∷ s1) [] = none
rtl_strcmp (a ∷ s1) (b ∷ s2) =
    let rest = rtl_strcmp s1 s2 in
    if a == b then (if a == 0 then some (pos 0) else rest) else some (sub_ℕ a b)

unfoldable pub rtl_memcmp : (s1 s2 : List ℕ) (n : ℕ) → Option ℤ
rtl_memcmp s1 s2 zero = some (pos 0)
rtl_memcmp [] s2 (suc n) = none
rtl_memcmp (a ∷ s1) [] (suc n) = none
rtl_memcmp (a ∷ s1) (b ∷ s2) (suc n) =
    let rest = rtl_memcmp s1 s2 n in if a == b then rest else some (sub_ℕ a b)

-- `IS_DIGIT`
abbrev pub is_digit : ℕ → Bool
is_digit c = leb b'0' c && leb c b'9'

pub skip_spaces : List ℕ → List ℕ
skip_spaces [] = []
skip_spaces (c ∷ s) = let rest = skip_spaces s in if c == b' ' then rest else c ∷ s

-- The digits loop of `rtlToInt32`. A value above 2^31 - 1 does not fit the signed `n`: a fault.
unfoldable pub digits_value : (n : ℕ) → List ℕ → Option ℕ
digits_value n [] = none
digits_value n (c ∷ s) =
    let n' = 10 * n + (c - b'0') in
    let rest = if ltb n' (2 ^ 31) then digits_value n' s else none in
    if is_digit c then rest else some n

pub signed_value : List ℕ → Option ℤ
unfolding digits_value
signed_value [] = none
signed_value (c ∷ s) =
    if c == b'-'
    then (do n ← digits_value 0 s; some (neg_ℕ n))
    else (do n ← digits_value 0 (if c == b'+' then s else c ∷ s); some (pos n))

unfoldable pub rtl_to_int32 : List ℕ → Option ℤ
unfolding signed_value skip_spaces
rtl_to_int32 s = signed_value (skip_spaces s)

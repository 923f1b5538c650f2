-- ===== src/Rtl/Itoa/Numerals.antt =====
-- The digits that `rtlItoa` of ntos/rtl/itoa.c writes, against the digits of the number.
use algae.Base.{
  ℕ, zero, suc, ◌+◌, ◌/◌, ◌%◌, ◌^◌, ◌<◌, ◌≡◌, refl, sym, ap, ◌∙◌, some, List, [], ◌∷◌, ◌++◌, arith,
  ltb, ◌==◌, if◌then◌else◌, length, reverse, Bool-cases, eqb→eq, inl, inr, append_assoc,
  length-append, append-nil, All, ◌≢◌, false,
}
use native.Mathlib.Nat.{pow-suc}
use algae.Rtl.Itoa.{
  base10_digits, base16_digits, ascii_num, itoa_base10_convert, itoa_convert_base16,
}
use algae.Rtl.Itoa.Decimal.{unreverse-reverse}

abbrev pub digit : ℕ → ℕ
digit d = if ltb d 10 then 48 + d else 55 + d

-- The digits of a number in a base, the highest first; none for 0.
unfoldable pub numeral : (base fuel n : ℕ) → List ℕ
numeral base zero n = []
numeral base (suc fuel) n =
    let rest = numeral base fuel (n / base) in if n == 0 then [] else rest ++ digit (n % base) ∷ []

-- At least one digit.
abbrev pub decimal : ℕ → List ℕ
decimal n = if n == 0 then b'0' ∷ [] else numeral 10 20 n

-- At least two digits.
abbrev pub hexadecimal : ℕ → List ℕ
hexadecimal n =
    if n == 0
    then b'0' ∷ b'0' ∷ []
    else if ltb n 16
    then b'0' ∷ numeral 16 16 n
    else numeral 16 16 n

small_digit : (d : ℕ) → d < 10 → b'0' + d ≡ digit d
small_digit d h = ground (arith, h)

ascii_num-digit : (d : ℕ) → ascii_num d ≡ digit d
unfolding ascii_num
ascii_num-digit d = ground arith

numeral-suc :
    (base fuel n : ℕ)
    → (n == 0) ≡ false
    → numeral base (suc fuel) n ≡ numeral base fuel (n / base) ++ digit (n % base) ∷ []
unfolding numeral
numeral-suc base fuel n more = rw more refl

base10_digits-numeral :
    (fuel n : ℕ)
    → n < 10 ^ fuel
    → (ds : List ℕ) × (base10_digits fuel n ≡ some ds) × (reverse ds ≡ numeral 10 fuel n)
unfolding base10_digits numeral
base10_digits-numeral zero n h = let e : n ≡ 0 = omega (arith, h) in rw e ([], refl, refl)
base10_digits-numeral (suc fuel) n h = elim (Bool-cases (n == 0)) [
  | inl done ↦ let z : n ≡ 0 = eqb→eq n 0 done in rw z ([], refl, refl)
  | inr more ↦
      let (ds, e, r) = base10_digits-numeral fuel (n / 10) (omega (arith, h, pow-suc 10 fuel)) in
      (
        (b'0' + n % 10) ∷ ds,
        ground (arith, more, e),
        rw r (ap (λ c. numeral 10 fuel (n / 10) ++ c ∷ []) (small_digit (n % 10) (omega arith)))
            ∙ sym (numeral-suc 10 fuel n more),
      )
]

base16_digits-numeral :
    (fuel n : ℕ)
    → n < 16 ^ fuel
    → (ds : List ℕ) × (base16_digits fuel n ≡ some ds) × (reverse ds ≡ numeral 16 fuel n)
unfolding base16_digits numeral
base16_digits-numeral zero n h = let e : n ≡ 0 = omega (arith, h) in rw e ([], refl, refl)
base16_digits-numeral (suc fuel) n h = elim (Bool-cases (n == 0)) [
  | inl done ↦ let z : n ≡ 0 = eqb→eq n 0 done in rw z ([], refl, refl)
  | inr more ↦
      let (ds, e, r) = base16_digits-numeral fuel (n / 16) (omega (arith, h, pow-suc 16 fuel)) in
      (
        ascii_num (n % 16) ∷ ds,
        ground (arith, more, e),
        rw r (ap (λ c. numeral 16 fuel (n / 16) ++ c ∷ []) (ascii_num-digit (n % 16)))
            ∙ sym (numeral-suc 16 fuel n more),
      )
]

reverse-append : (xs ys : List ℕ) → reverse (xs ++ ys) ≡ reverse ys ++ reverse xs
reverse-append [] ys = sym (append-nil (reverse ys))
reverse-append (x ∷ xs) ys =
    ap (λ zs. zs ++ x ∷ []) (reverse-append xs ys) ∙ append_assoc (reverse ys) (reverse xs) (x ∷ [])

some_digits :
    (ds : List ℕ) (n : ℕ) → (n == 0) ≡ false → base10_digits 20 n ≡ some ds → 0 < length ds
unfolding base10_digits
some_digits [] n more e = ground (arith, more, e)
some_digits (d ∷ ds) n more e = omega arith

pub itoa_base10_convert-decimal :
    (n : ℕ) → n < 2 ^ 64 → itoa_base10_convert n ≡ some (decimal n ++ 0 ∷ [])
unfolding itoa_base10_convert
itoa_base10_convert-decimal n h = elim (Bool-cases (n == 0)) [
  | inl z ↦ rw z refl
  | inr more ↦
      let (ds, e, r) = base10_digits-numeral 20 n (omega (arith, h)) in
      rw more rw e
        (unreverse-reverse ds (some_digits ds n more e) ∙ ap (λ xs. some (xs ++ 0 ∷ [])) r)
]

-- The nibbles turned round behind "0x".
turned :
    (ds : List ℕ)
    → reverse (ds ++ b'x' ∷ b'0' ∷ []) ++ 0 ∷ [] ≡ b'0' ∷ b'x' ∷ (reverse ds ++ 0 ∷ [])
turned ds = rw (reverse-append ds (b'x' ∷ b'0' ∷ [])) refl

long : (ds : List ℕ) → 0 < length (ds ++ b'x' ∷ b'0' ∷ [])
long ds = omega (arith, length-append ds (b'x' ∷ b'0' ∷ []))

pub itoa_convert_base16-hexadecimal :
    (n : ℕ) → n < 2 ^ 64 → itoa_convert_base16 n ≡ some (b'0' ∷ b'x' ∷ (hexadecimal n ++ 0 ∷ []))
unfolding itoa_convert_base16
itoa_convert_base16-hexadecimal n h = elim (Bool-cases (n == 0)) [
  | inl z ↦ rw z refl
  | inr more ↦
      let (ds, e, r) = base16_digits-numeral 16 n (omega (arith, h)) in
      elim (Bool-cases (ltb n 16)) [
        | inl short ↦ rw more rw e rw short (
            unreverse-reverse ((ds ++ b'0' ∷ []) ++ b'x' ∷ b'0' ∷ []) (long (ds ++ b'0' ∷ []))
            ∙ ap some (turned (ds ++ b'0' ∷ []))
            ∙ ap (λ xs. some (b'0' ∷ b'x' ∷ (xs ++ 0 ∷ [])))
                (reverse-append ds (b'0' ∷ []) ∙ ap (λ xs. b'0' ∷ xs) r))
        | inr wide ↦ rw more rw e rw wide (
            unreverse-reverse (ds ++ b'x' ∷ b'0' ∷ []) (long ds)
            ∙ ap some (turned ds)
            ∙ ap (λ xs. some (b'0' ∷ b'x' ∷ (xs ++ 0 ∷ []))) r)
      ]
]

All-snoc : (xs : List ℕ) (c : ℕ) → All (λ d. d ≢ 0) xs → c ≢ 0 → All (λ d. d ≢ 0) (xs ++ c ∷ [])
All-snoc [] c h k = (k, tt)
All-snoc (x ∷ xs) c h k = (h.0, All-snoc xs c h.1 k)

numeral_text : (base fuel n : ℕ) → All (λ d. d ≢ 0) (numeral base fuel n)
unfolding numeral
numeral_text base zero n = tt
numeral_text base (suc fuel) n = elim (Bool-cases (n == 0)) [
  | inl z ↦ rw z tt
  | inr more ↦ rw more (
      All-snoc (numeral base fuel (n / base)) (digit (n % base)) (numeral_text base fuel (n / base))
        (ground arith))
]

pub decimal_text : (n : ℕ) → All (λ d. d ≢ 0) (decimal n)
decimal_text n = elim (Bool-cases (n == 0)) [
  | inl z ↦ rw z (omega arith, tt)
  | inr more ↦ rw more (numeral_text 10 20 n)
]

pub hexadecimal_text : (n : ℕ) → All (λ d. d ≢ 0) (hexadecimal n)
hexadecimal_text n = elim (Bool-cases (n == 0)) [
  | inl z ↦ rw z (omega arith, (omega arith, tt))
  | inr more ↦ elim (Bool-cases (ltb n 16)) [
    | inl short ↦ rw more rw short (omega arith, numeral_text 16 16 n)
    | inr wide ↦ rw more rw wide (numeral_text 16 16 n)
  ]
]

-- ===== src/Rtl/Itoa/Decimal.antt =====
-- `rtlItoa` in base 10, read back by `rtlToInt32`.
use algae.Base.{
  ℕ, zero, suc, ◌+◌, ◌-◌, ◌*◌, ◌/◌, ◌%◌, ◌^◌, ◌≤◌, ◌<◌, ◌≡◌, refl, ap, ◌∙◌, sym, inl, inr, some,
  List, [], ◌∷◌, ◌++◌, arith, ltb, leb, ◌&&◌, ◌==◌, if◌then◌else◌, length, get_elem?, Bool-cases,
  length-append, reverse, length-reverse, get_elem?-append_left, get_elem?-append_right,
  get_elem?-reverse, get_elem?-ext, append_assoc, All, pos, ◌>>=◌, eqb→eq, ltb→lt,
}
use native.Mathlib.Nat.{pow-suc}
use algae.Rtl.Str.{digits_value, rtl_to_int32}
use algae.Rtl.Itoa.{unreverse, base10_digits, itoa_base10_convert}
use algae.Rtl.Itoa.Unreverse.{Turned, unreverse_lem}

-- Turning round all but the terminator of a written buffer.
Turned-all :
    (ds out : List ℕ)
    → 0 < length ds
    → Turned (ds ++ 0 ∷ []) 0 (length ds - 1) out
    → out ≡ reverse ds ++ 0 ∷ []
Turned-all ds out some_digits t = get_elem?-ext out (reverse ds ++ 0 ∷ []) (λ k. t.items k ∙ item k)
  where
    item :
        (k : ℕ)
        → get_elem?
            (ds ++ 0 ∷ [])
            (if leb 0 k && leb k (length ds - 1) then 0 + (length ds - 1) - k else k)
          ≡ get_elem? (reverse ds ++ 0 ∷ []) k
    item k = elim (Bool-cases (ltb k (length ds))) [
      | inl lt ↦
          ap (get_elem? (ds ++ 0 ∷ [])) (ground arith)
          ∙ get_elem?-append_left ds (0 ∷ []) (length ds - 1 - k) (ground arith)
          ∙ sym (get_elem?-reverse ds k (ltb→lt k (length ds) lt))
          ∙ sym (
              get_elem?-append_left (reverse ds) (0 ∷ []) k
                (rw length-reverse (ltb→lt k (length ds) lt)))
      | inr ge ↦
          ap (get_elem? (ds ++ 0 ∷ [])) (ground arith)
          ∙ get_elem?-append_right ds (0 ∷ []) (k - length ds)
          ∙ sym (get_elem?-append_right (reverse ds) (0 ∷ []) (k - length ds))
          ∙ ap (get_elem? (reverse ds ++ 0 ∷ [])) (ground (arith, length-reverse ds))
    ]

pub unreverse-reverse :
    (ds : List ℕ)
    → 0 < length ds
    → unreverse (length ds) (ds ++ 0 ∷ []) 0 (length ds - 1) ≡ some (reverse ds ++ 0 ∷ [])
unreverse-reverse ds h =
    let (out, e, t) =
      unreverse_lem (length ds) (ds ++ 0 ∷ []) 0 (length ds - 1)
        (omega (arith, length-append ds (0 ∷ []))) (omega arith) in
    e ∙ ap some (Turned-all ds out h t)

abbrev IsDigit : ℕ → Type 0
IsDigit c = (b'0' ≤ c) × (c ≤ b'9')

-- The digits of a value below `10 ^ fuel`: there are some, and reading them back gives the value.
record Written (value : ℕ) (ds : List ℕ) : Type 0 where
  nonempty : 0 < value → 0 < length ds
  digits : All IsDigit (reverse ds)
  reads :
      (tail : List ℕ)
      → value < 2 ^ 31
      → digits_value 0 (reverse ds ++ tail) ≡ digits_value value tail

All-append : (xs ys : List ℕ) → All IsDigit xs → All IsDigit ys → All IsDigit (xs ++ ys)
All-append [] ys hx hy = hy
All-append (x ∷ xs) ys hx hy = (hx.0, All-append xs ys hx.1 hy)

digits_value-digit :
    (n v : ℕ) (tail : List ℕ)
    → n ≡ v / 10
    → v < 2 ^ 31
    → digits_value n ((b'0' + v % 10) ∷ tail) ≡ digits_value v tail
unfolding digits_value
digits_value-digit n v tail e small =
    let whole : 10 * n + (b'0' + v % 10 - b'0') ≡ v = omega arith in rw whole (ground arith)

Written-suc :
    (value : ℕ) (ds : List ℕ) → Written (value / 10) ds → Written value ((b'0' + value % 10) ∷ ds)
Written-suc value ds w = record {
  nonempty = λ h. omega arith;
  digits = All-append (reverse ds) _ w.digits ((omega arith, omega arith), tt);
  reads = λ tail small.
      ap (digits_value 0) (append_assoc (reverse ds) ((b'0' + value % 10) ∷ []) tail)
      ∙ w.reads ((b'0' + value % 10) ∷ tail) (omega arith)
      ∙ digits_value-digit (value / 10) value tail refl small;
}

base10_digits_lem :
    (fuel value : ℕ)
    → value < 10 ^ fuel
    → (ds : List ℕ) × (base10_digits fuel value ≡ some ds) × Written value ds
unfolding base10_digits
base10_digits_lem zero value h =
    let e : value ≡ 0 = omega arith in
    rw e ([], refl, record { nonempty = λ h. elim h [ ]; digits = tt; reads = λ tail s. refl })
base10_digits_lem (suc fuel) value h = elim (Bool-cases (value == 0)) [
  | inl done ↦
      let e : value ≡ 0 = eqb→eq value 0 done in
      rw e ([], refl, record { nonempty = λ h. elim h [ ]; digits = tt; reads = λ tail s. refl })
  | inr more ↦
      let (ds, e, w) = base10_digits_lem fuel (value / 10) (omega (arith, pow-suc 10 fuel)) in
      ((b'0' + value % 10) ∷ ds, ground (arith, e), Written-suc value ds w)
]

-- A string of digits and what follows: no spaces to skip and no sign.
to_int32_digits :
    (ds tail : List ℕ)
    → All IsDigit ds
    → 0 < length ds
    → rtl_to_int32 (ds ++ tail) ≡ (do n ← digits_value 0 (ds ++ tail); some (pos n))
unfolding rtl_to_int32
to_int32_digits [] tail h ne = elim ne [ ]
to_int32_digits (d ∷ ds) tail h ne = ground arith

digits_value-end : (value : ℕ) (rest : List ℕ) → digits_value value (0 ∷ rest) ≡ some value
unfolding digits_value
digits_value-end value rest = ground arith

-- For a value below 2^31 the base 10 conversion gives a text, and `rtlToInt32` reads the value back from
-- the text, whatever follows its terminator.
pub rtl_to_int32-itoa :
    (value : ℕ) (rest : List ℕ)
    → value < 2 ^ 31
    → (text : List ℕ) × (itoa_base10_convert value ≡ some text)
      × (rtl_to_int32 (text ++ rest) ≡ some (pos value))
unfolding itoa_base10_convert
rtl_to_int32-itoa value rest small = elim (Bool-cases (value == 0)) [
  | inl none_left ↦
      let e : value ≡ 0 = eqb→eq value 0 none_left in
      (
        b'0' ∷ 0 ∷ [],
        rw none_left,
        rw e (
            to_int32_digits (b'0' ∷ []) (0 ∷ rest) ((omega arith, omega arith), tt) (omega arith)
            ∙ ap (λ r. r >>= λ n. some (pos n))
                (digits_value-digit 0 0 (0 ∷ rest) refl (omega arith) ∙ digits_value-end 0 rest)),
      )
  | inr more ↦
      let (ds, e, w) = base10_digits_lem 20 value (omega arith) in
      let ne : 0 < length ds = w.nonempty (ground arith) in
      let read : rtl_to_int32 (reverse ds ++ 0 ∷ rest) ≡ some (pos value) =
        to_int32_digits (reverse ds) (0 ∷ rest) w.digits (rw length-reverse ne)
        ∙ ap (λ r. r >>= λ n. some (pos n))
            (w.reads (0 ∷ rest) small ∙ digits_value-end value rest) in
      (
        reverse ds ++ 0 ∷ [],
        rw more (rw e (unreverse-reverse ds ne)),
        rw (append_assoc (reverse ds) (0 ∷ []) rest) read,
      )
]

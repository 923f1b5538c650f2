-- ===== src/Ke/Irql.antt =====
-- The interrupt request level: ntos/ke/irql.c over ntos/platform/amd64/cpu/irql.c. The state is the
-- task priority register CR8; `none` is a bug check.
use algae.Base.{
  ℕ, ◌+◌, ◌*◌, ◌^◌, ◌%◌, ◌/◌, ◌⊎◌, ◌<◌, ◌≤◌, ◌≡◌, refl, Bool, true, false, Option, none, some, ltb,
  ◌==◌, ◌||◌, if◌then◌else◌, arith, u8, u32, align_down, bit_and, bit_or, bit_and_ones,
  bit_or_field, inl, inr, Bool-cases, ◌∙◌, ap, sym,
}

abbrev pub passive_level : ℕ
passive_level = 0x1

abbrev pub dispatch_level : ℕ
dispatch_level = 0x2

abbrev pub clock_level : ℕ
clock_level = 0x3

abbrev pub ipi_level : ℕ
ipi_level = 0xD

abbrev pub power_level : ℕ
power_level = 0xE

abbrev pub high_level : ℕ
high_level = 0xF

unfoldable pub is_irql_valid : ℕ → Bool
is_irql_valid irql =
    (irql == passive_level)
    || (irql == dispatch_level)
    || (irql == clock_level)
    || (irql == ipi_level)
    || (irql == power_level)
    || (irql == high_level)

unfoldable pub hal_get_irql : (cr8 : ℕ) → ℕ
hal_get_irql cr8 = bit_and (u32 cr8) 0xF

-- `cr8 &= ~0xF` takes the lowest four bits away.
unfoldable pub hal_set_irql : (cr8 irql : ℕ) → ℕ
hal_set_irql cr8 irql = bit_or (align_down (u32 cr8) 16) (bit_and irql 0xF)

-- The old level and the new register.
unfoldable pub ke_irql_raise : (cr8 irql : ℕ) → Option (ℕ × ℕ)
ke_irql_raise cr8 irql =
    if is_irql_valid irql
    then (if ltb irql (hal_get_irql cr8)
        then none
        else some (u8 (hal_get_irql cr8), hal_set_irql cr8 irql))
    else none

unfoldable pub ke_irql_lower : (cr8 irql : ℕ) → Option (ℕ × ℕ)
ke_irql_lower cr8 irql =
    if is_irql_valid irql
    then (if ltb (hal_get_irql cr8) irql
        then none
        else some (u8 (hal_get_irql cr8), hal_set_irql cr8 irql))
    else none

hal_get_irql-mod : (cr8 : ℕ) → cr8 < 2 ^ 32 → hal_get_irql cr8 ≡ cr8 % 16
unfolding hal_get_irql
hal_get_irql-mod cr8 h = bit_and_ones 4 (u32 cr8) ∙ omega (arith, h)

down_field : (cr8 : ℕ) → cr8 < 2 ^ 32 → align_down (u32 cr8) 16 ≡ cr8 / 16 * 2 ^ 4
down_field cr8 h = omega (arith, h)

hal_set_irql-add :
    (cr8 irql : ℕ) → cr8 < 2 ^ 32 → irql < 16 → hal_set_irql cr8 irql ≡ align_down cr8 16 + irql
unfolding hal_set_irql
hal_set_irql-add cr8 irql h small =
    rw (bit_and_ones 4 irql) rw (down_field cr8 h)
      (bit_or_field 4 (cr8 / 16) (irql % 16) (omega arith) ∙ omega (arith, small))

is_irql_valid-lt : (irql : ℕ) → is_irql_valid irql ≡ true → irql < 16
unfolding is_irql_valid
is_irql_valid-lt irql h = ground (arith, h)

hal_get_irql-hal_set_irql :
    (cr8 irql : ℕ) → cr8 < 2 ^ 32 → irql < 16 → hal_get_irql (hal_set_irql cr8 irql) ≡ irql
hal_get_irql-hal_set_irql cr8 irql h small =
    rw (hal_set_irql-add cr8 irql h small)
      (hal_get_irql-mod (align_down cr8 16 + irql) (omega (arith, h, small)) ∙ omega (arith, small))

hal_set_irql_back :
    (cr8 irql : ℕ)
    → cr8 < 2 ^ 32
    → irql < 16
    → hal_set_irql (hal_set_irql cr8 irql) (hal_get_irql cr8) ≡ cr8
hal_set_irql_back cr8 irql h small =
    rw (hal_set_irql-add cr8 irql h small) rw (hal_get_irql-mod cr8 h) (
      hal_set_irql-add (align_down cr8 16 + irql) (cr8 % 16) (omega (arith, h, small)) (omega arith)
      ∙ omega (arith, h, small))

u8_level : (cr8 : ℕ) → u8 (cr8 % 16) ≡ cr8 % 16
u8_level cr8 = omega arith

u8_small : (n : ℕ) → n < 16 → u8 n ≡ n
u8_small n h = omega (arith, h)

lower_back :
    (cr8 irql : ℕ)
    → cr8 < 2 ^ 32
    → irql < 16
    → is_irql_valid (hal_get_irql cr8) ≡ true
    → ltb irql (hal_get_irql cr8) ≡ false
    → ke_irql_lower (hal_set_irql cr8 irql) (hal_get_irql cr8) ≡ some (irql, cr8)
unfolding ke_irql_lower
lower_back cr8 irql h small valid above =
    rw valid rw (hal_get_irql-hal_set_irql cr8 irql h small) rw above rw
      (hal_set_irql_back cr8 irql h small) rw (u8_small irql small) refl

-- The levels passive, dispatch, clock, interprocessor interrupt, power and high.
abbrev pub IsLevel : ℕ → Type 0
IsLevel n = (n ≡ 1) ⊎ (n ≡ 2) ⊎ (n ≡ 3) ⊎ (n ≡ 13) ⊎ (n ≡ 14) ⊎ (n ≡ 15)

is_irql_valid-IsLevel : (irql : ℕ) → is_irql_valid irql ≡ true → IsLevel irql
unfolding is_irql_valid
is_irql_valid-IsLevel irql h = ground (arith, h)

is_irql_valid-false : (irql : ℕ) → is_irql_valid irql ≡ false → ¬ (IsLevel irql)
unfolding is_irql_valid
is_irql_valid-false irql h = ground (arith, h)

raise_cases :
    (cr8 irql : ℕ)
    → cr8 < 2 ^ 32
    → ((is_irql_valid irql ≡ true)
        × (cr8 % 16 ≤ irql)
        × (ke_irql_raise cr8 irql ≡ some (cr8 % 16, align_down cr8 16 + irql)))
      ⊎ (((is_irql_valid irql ≡ false) ⊎ (irql < cr8 % 16)) × (ke_irql_raise cr8 irql ≡ none))
unfolding ke_irql_raise
raise_cases cr8 irql h = elim (Bool-cases (is_irql_valid irql)) [
  | inl v ↦ elim (Bool-cases (ltb irql (cr8 % 16))) [
    | inl e ↦ inr (inr (ground (arith, e)), rw v rw (hal_get_irql-mod cr8 h) rw e refl)
    | inr e ↦ inl (
      v,
      ground (arith, e),
      rw v rw (hal_get_irql-mod cr8 h) rw e rw
          (hal_set_irql-add cr8 irql h (is_irql_valid-lt irql v)) rw (u8_level cr8) refl,
    )
  ]
  | inr v ↦ inr (inl v, rw v refl)
]

-- For a task priority register of 32 bits: `keIrqlRaise` ends in a bug check, unless the new level is
-- 1, 2, 3, 13, 14 or 15 and not below the current one. Otherwise, also at the current level, it returns
-- the current level and makes the new one current, without a change of the register's other bits.
pub ke_irql_raise_lem :
    (cr8 irql : ℕ)
    → cr8 < 2 ^ 32
    → (IsLevel irql
        × (cr8 % 16 ≤ irql)
        × (ke_irql_raise cr8 irql ≡ some (cr8 % 16, align_down cr8 16 + irql)))
      ⊎ ((¬ (IsLevel irql) ⊎ (irql < cr8 % 16)) × (ke_irql_raise cr8 irql ≡ none))
ke_irql_raise_lem cr8 irql h = elim (raise_cases cr8 irql h) [
  | inl (v, le, e) ↦ inl (is_irql_valid-IsLevel irql v, le, e)
  | inr (inl v, e) ↦ inr (inl (is_irql_valid-false irql v), e)
  | inr (inr lt, e) ↦ inr (inr lt, e)
]

some_is_not_none : {p : ℕ × ℕ} → ¬ ◌≡◌ {A = Option (ℕ × ℕ)} (some p) none
some_is_not_none e = cc

same_pair :
    {a b old raised : ℕ} {r : Option (ℕ × ℕ)}
    → ◌≡◌ {A = Option (ℕ × ℕ)} (some (a, b)) (some (old, raised))
    → ke_irql_lower b a ≡ r
    → ke_irql_lower raised old ≡ r
same_pair e h = cc

-- After `keIrqlRaise` at a level of the system, `keIrqlLower` to the level that it returned succeeds,
-- returns the level that was raised to, and leaves the register as it was before the two calls.
pub ke_irql_lower-ke_irql_raise :
    (cr8 irql old raised : ℕ)
    → cr8 < 2 ^ 32
    → is_irql_valid (hal_get_irql cr8) ≡ true
    → ke_irql_raise cr8 irql ≡ some (old, raised)
    → ke_irql_lower raised old ≡ some (irql, cr8)
ke_irql_lower-ke_irql_raise cr8 irql old raised h was_valid e = elim (raise_cases cr8 irql h) [
  | inr (bad, e') ↦ absurd (some_is_not_none (sym e ∙ e'))
  | inl (v, le, e') ↦ same_pair (sym e' ∙ e) (
      ap (λ x. ke_irql_lower x (cr8 % 16))
        (sym (hal_set_irql-add cr8 irql h (is_irql_valid-lt irql v)))
      ∙ ap (λ x. ke_irql_lower (hal_set_irql cr8 irql) x) (sym (hal_get_irql-mod cr8 h))
      ∙ lower_back cr8 irql h (is_irql_valid-lt irql v) was_valid
          (rw (hal_get_irql-mod cr8 h) (ground (arith, le))))
]

-- ===== src/Base/Bits.antt =====
-- `&` with a low mask and `|` of disjoint fields, as arithmetic, at every width; and the bits of a
-- byte, by tables.
use Prim.Native.Nat.{
  ℕ, zero, suc, ◌+◌, ◌-◌, ◌*◌, ◌/◌, ◌%◌, ◌^◌, ◌≤◌, ◌<◌, min, max, bit_and, bit_or,
}
use Prim.Native.Nat.{digits, bitwise, bit_and-bitwise, bit_or-bitwise}
use mathlib.Core.Path.{◌≡◌, refl, ap}
use mathlib.Core.Bool.{Bool, true, ◌&&◌}
use native.Mathlib.Omega.{arith}
use native.Mathlib.Nat.{pow-suc, one-le-pow}

-- The count that `digits` recurs on does not matter once it covers the first number.
count_free :
    (z : ℕ → ℕ) (f : ℕ → ℕ → ℕ) (c d a b : ℕ) → a ≤ c → a ≤ d → digits z f c a b ≡ digits z f d a b
count_free z f zero zero a b hc hd = refl
count_free z f zero (suc d) zero b hc hd = refl
count_free z f (suc c) zero zero b hc hd = refl
count_free z f zero d (suc a) b hc hd = elim hc [ ]
count_free z f (suc c) zero (suc a) b hc hd = elim hd [ ]
count_free z f (suc c) (suc d) zero b hc hd = refl
count_free z f (suc c) (suc d) (suc a) b hc hd =
    ap (λ t. t * 2 + f (suc a % 2) (b % 2))
      (count_free z f c d (suc a / 2) (b / 2) (omega arith) (omega arith))

halve :
    (z : ℕ → ℕ) (f : ℕ → ℕ → ℕ) (a b : ℕ)
    → bitwise z f (suc a) b ≡ bitwise z f (suc a / 2) (b / 2) * 2 + f (suc a % 2) (b % 2)
halve z f a b =
    ap (λ t. t * 2 + f (suc a % 2) (b % 2))
      (count_free z f a (suc a / 2) (suc a / 2) (b / 2) (omega arith) (omega arith))

and_halves : (a b : ℕ) → bit_and a b ≡ bit_and (a / 2) (b / 2) * 2 + min (a % 2) (b % 2)
and_halves zero b = simp bit_and-bitwise (omega arith)
and_halves (suc a) b = simp bit_and-bitwise (halve (λ y. 0) min a b)

or_halves : (a b : ℕ) → bit_or a b ≡ bit_or (a / 2) (b / 2) * 2 + max (a % 2) (b % 2)
or_halves zero b = simp bit_or-bitwise (omega arith)
or_halves (suc a) b = simp bit_or-bitwise (halve (λ y. y) max a b)

and-zero_below : (n a : ℕ) → a < n → bit_and a 0 ≡ 0
and-zero_below zero a h = elim h [ ]
and-zero_below (suc n) zero h = refl
and-zero_below (suc n) (suc a) h =
    omega (arith, and_halves (suc a) 0, and-zero_below n (suc a / 2) (omega arith))

or-zero_below : (n a : ℕ) → a < n → bit_or a 0 ≡ a
or-zero_below zero a h = elim h [ ]
or-zero_below (suc n) zero h = refl
or-zero_below (suc n) (suc a) h =
    omega (arith, or_halves (suc a) 0, or-zero_below n (suc a / 2) (omega arith))

pub bit_and-zero : (a : ℕ) → bit_and a 0 ≡ 0
bit_and-zero a = and-zero_below (suc a) a (omega arith)

pub bit_or-zero : (a : ℕ) → bit_or a 0 ≡ a
bit_or-zero a = or-zero_below (suc a) a (omega arith)

double_field : (k q : ℕ) → q * 2 ^ suc k ≡ 2 * (q * 2 ^ k)
double_field k q = omega (arith, ap (λ (t : ℕ). q * t) (pow-suc 2 k))

low_field : (k q r : ℕ) → r < 2 ^ k → bit_and (q * 2 ^ k + r) (2 ^ k - 1) ≡ r
low_field zero q r h = omega (arith, bit_and-zero (q * 1 + r))
low_field (suc k) q r h = ground (
  arith,
  and_halves (q * 2 ^ suc k + r) (2 ^ suc k - 1),
  double_field k q,
  pow-suc 2 k,
  low_field k q (r / 2),
)

-- A mask of `k` ones keeps the remainder by `2 ^ k`.
pub bit_and_ones : (k a : ℕ) → bit_and a (2 ^ k - 1) ≡ a % 2 ^ k
bit_and_ones k a = ground (arith, one-le-pow k 2, low_field k (a / 2 ^ k) (a % 2 ^ k))

-- A field above bit `k` or-ed with one below it is their sum.
pub bit_or_field : (k q r : ℕ) → r < 2 ^ k → bit_or (q * 2 ^ k) r ≡ q * 2 ^ k + r
bit_or_field zero q r h = ground (arith, bit_or-zero q)
bit_or_field (suc k) q r h =
    ground
      (arith, or_halves (q * 2 ^ suc k) r, double_field k q, pow-suc 2 k, bit_or_field k q (r / 2))

pub zero-bit_or : (b : ℕ) → bit_or 0 b ≡ b
zero-bit_or b = bit_or-bitwise 0 b

bit_or_comm_below : (n a b : ℕ) → a < n → bit_or a b ≡ bit_or b a
bit_or_comm_below zero a b h = elim h [ ]
bit_or_comm_below (suc n) zero b h = omega (arith, bit_or-zero b, zero-bit_or b)
bit_or_comm_below (suc n) (suc a) b h = omega (
  arith,
  or_halves (suc a) b,
  or_halves b (suc a),
  bit_or_comm_below n (suc a / 2) (b / 2) (omega arith),
)

pub bit_or_comm : (a b : ℕ) → bit_or a b ≡ bit_or b a
bit_or_comm a b = bit_or_comm_below (suc a) a b (omega arith)

-- Every value below a bound passes a test, by evaluation.
unfoldable pub all_below : ℕ → (ℕ → Bool) → Bool
all_below zero p = true
all_below (suc n) p = p n && all_below n p

pub all_below_sound : (n : ℕ) (p : ℕ → Bool) → all_below n p ≡ true → (x : ℕ) → x < n → p x ≡ true
unfolding all_below
all_below_sound zero p h x lt = elim lt [ ]
all_below_sound (suc n) p h x lt =
    ground (arith, λ (e : all_below n p ≡ true). all_below_sound n p e x)

-- `|` goes field by field.
pub bit_or_fields :
    (k a b r : ℕ) → r < 2 ^ k → bit_or (a * 2 ^ k) (b * 2 ^ k + r) ≡ bit_or a b * 2 ^ k + r
bit_or_fields zero a b r h =
    let e : b * 2 ^ 0 + r ≡ b = omega arith in
    let e' : a * 2 ^ 0 ≡ a = omega arith in rw (e, e') (omega arith)
bit_or_fields (suc k) a b r h = ground (
  arith,
  or_halves (a * 2 ^ suc k) (b * 2 ^ suc k + r),
  double_field k a,
  double_field k b,
  double_field k (bit_or a b),
  pow-suc 2 k,
  bit_or_fields k a b (r / 2),
)

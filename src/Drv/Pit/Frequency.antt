-- ===== src/Drv/Pit/Frequency.antt =====
-- The frequency at which the i8254 runs.
use algae.Base.{
  ℕ, ◌+◌, ◌*◌, ◌/◌, ◌%◌, ◌^◌, ◌≤◌, ◌<◌, ◌≡◌, refl, false, inl, inr, Bool-cases, ltb→lt, some, [],
  ◌∷◌, arith, ltb, ◌==◌, u16,
}
use native.Mathlib.Nat.{mul-le-mul_left}
use algae.Drv.Pit.{
  i8254_command, i8254_channel_0, i8254_dividend, pit_get_count, pit_set_count, pit_set_frequency,
}

-- With a frequency of 19 or more the quotient has 16 bits.
quotient_fits :
    (f : ℕ)
    → 19 ≤ f
    → (1193182 / f * 19 ≤ 1193182 / f * f)
      × (1193182 / f * f + 1193182 % f ≡ 1193182)
      × (1193182 % f < f)
quotient_fits f h = (mul-le-mul_left (1193182 / f) h, omega (arith, h), omega (arith, h))

-- What the two bytes `lo` and `hi` of the counter make is the nearest divisor for `f`.
pub record IsNearest (f lo hi : ℕ) : Type 0 where
  pub low_byte : lo < 2 ^ 8
  pub high_byte : hi < 2 ^ 8
  pub not_less : 2 * i8254_dividend ≤ 2 * ((pit_get_count lo hi).0 * f) + f
  pub not_more : 2 * ((pit_get_count lo hi).0 * f) ≤ 2 * i8254_dividend + f

-- The bytes of a divisor within half of `f`.
bytes-IsNearest :
    (f d : ℕ)
    → d < 2 ^ 16
    → 2 * 1193182 ≤ 2 * (d * f) + f
    → 2 * (d * f) ≤ 2 * 1193182 + f
    → IsNearest f (u16 d % 2 ^ 8) (u16 d / 2 ^ 8 % 2 ^ 8)
unfolding pit_get_count
bytes-IsNearest f d fits less more =
    let whole : u16 d % 2 ^ 8 + u16 d / 2 ^ 8 % 2 ^ 8 * 2 ^ 8 ≡ d = omega (arith, fits) in
    record {
      low_byte = omega arith;
      high_byte = omega arith;
      not_less = rw whole less;
      not_more = rw whole more;
    }

below : (f : ℕ) → ltb (f / 2) (1193182 % f) ≡ false → 1193182 % f ≤ f / 2
below f down = ground (arith, down)

-- From 19 Hz on, the counter is set in three writes to the divisor that is nearest to 1193182 / f, as
-- `pitGetCount` reads it.
pub pit_set_frequency-IsNearest :
    (f : ℕ)
    → 19 ≤ f
    → (lo hi : ℕ) × (pit_set_frequency f
        ≡ some ((i8254_command, 0x34) ∷ (i8254_channel_0, lo) ∷ (i8254_channel_0, hi) ∷ []))
      × IsNearest f lo hi
unfolding pit_set_frequency pit_set_count
pit_set_frequency-IsNearest f h =
    let (q, dm, lt) = quotient_fits f h in
    let set : (f == 0) ≡ false = ground (arith, h) in
    elim (Bool-cases (ltb (f / 2) (1193182 % f))) [
      | inl up ↦ (
        _,
        _,
        rw set rw up refl,
        bytes-IsNearest f (1193182 / f + 1) (omega (arith, h, q, dm, lt))
            (omega (arith, h, q, dm, lt, ltb→lt (f / 2) (1193182 % f) up))
            (omega (arith, h, q, dm, lt, ltb→lt (f / 2) (1193182 % f) up)),
      )
      | inr down ↦ (
        _,
        _,
        rw set rw down refl,
        bytes-IsNearest f (1193182 / f) (omega (arith, h, q, dm, lt))
            (omega (arith, h, q, dm, lt, below f down)) (omega (arith, h, q, dm, lt)),
      )
    ]

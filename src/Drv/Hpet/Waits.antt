-- ===== src/Drv/Hpet/Waits.antt =====
-- How long the HPET timer waits.
use algae.Base.{
  ℕ, ◌+◌, ◌*◌, ◌/◌, ◌^◌, ◌≤◌, ◌<◌, ◌≡◌, refl, false, some, List, [], ◌∷◌, ◌++◌, arith, All, ◌==◌,
  u64,
}
use algae.Status.{status_success}
use native.Mathlib.Nat.{mul-le-mul_left, mul-le-mul_right}
use algae.Drv.Hpet.{Hpet, cap_clk_period, wait_counter, sleep_from, hpet_sleep, hpet_msleep}

-- The femtoseconds of a millisecond.
abbrev pub msec : ℕ
msec = 1000000000000

wait_counter_lem :
    (before : List ℕ) (r ticks : ℕ) (left : List ℕ)
    → All (λ x. x < ticks) before
    → ticks ≤ r
    → wait_counter (before ++ r ∷ left) ticks ≡ some left
unfolding wait_counter
wait_counter_lem [] r ticks left h reached = ground (arith, reached)
wait_counter_lem (x ∷ before) r ticks left h reached =
    ground (arith, h.0, wait_counter_lem before r ticks left h.1 reached)

module _ (ms p : ℕ) (runs : 0 < p) where
  -- The ticks of a millisecond fill it, less a part of the period.
  filled : (msec ≤ msec / p * p + p) × (msec / p * p ≤ msec)
  filled = (omega (arith, runs), omega (arith, runs))

  -- The ticks of the wait are within `ms` ticks of the time that is asked for.
  enough_ticks : ms * msec ≤ ms * (msec / p) * p + ms * p
  enough_ticks = omega (arith, mul-le-mul_left ms (filled.0))

  no_more_ticks : ms * (msec / p) * p ≤ ms * msec
  no_more_ticks = omega (arith, mul-le-mul_left ms (filled.1))

  time_passed : (c r : ℕ) → c + ms * (msec / p) ≤ r → c * p + ms * msec ≤ r * p + ms * p
  time_passed c r reached = omega (arith, enough_ticks, mul-le-mul_right p reached)

  not_yet : (c x : ℕ) → x < c + ms * (msec / p) → x * p < c * p + ms * msec
  not_yet c x early = omega (arith, runs, no_more_ticks, mul-le-mul_right p early)

  all_not_yet :
      (c : ℕ) (xs : List ℕ)
      → All (λ x. x < c + ms * (msec / p)) xs
      → All (λ x. x * p < c * p + ms * msec) xs
  all_not_yet c [] h = tt
  all_not_yet c (x ∷ xs) h = (not_yet c x h.0, all_not_yet c xs h.1)

-- A wait of `ms` milliseconds ends at the first reading `r` of the counter that is `ms` times the
-- ticks of a millisecond after the reading `c` at its start. By then the whole time has passed, less
-- one period of the clock for each millisecond, and at no earlier reading had the time passed.
pub hpet_msleep_lem :
    (d : Hpet) (ms c r : ℕ) (before left : List ℕ)
    → let p = cap_clk_period d.caps in
      let ticks = c + ms * (msec / p) in
      d.counter ≡ c ∷ (before ++ r ∷ left)
      → 0 < p
      → ticks < 2 ^ 64
      → All (λ x. x < ticks) before
      → ticks ≤ r
      → (hpet_msleep d ms ≡ some (status_success, record d { counter = left }))
        × (c * p + ms * msec ≤ r * p + ms * p)
        × All (λ x. x * p < c * p + ms * msec) before
unfolding hpet_msleep hpet_sleep sleep_from
hpet_msleep_lem d ms c r before left reads runs fits early reached =
    let p = cap_clk_period d.caps in
    let running : (p == 0) ≡ false = ground (arith, runs) in
    let ticks_lem : u64 (c + u64 (ms * (msec / p))) ≡ c + ms * (msec / p) = omega (arith, fits) in
    (
      rw running rw reads rw ticks_lem rw
          (wait_counter_lem before r (c + ms * (msec / p)) left early reached) refl,
      time_passed ms p runs c r reached,
      all_not_yet ms p runs c before early,
    )

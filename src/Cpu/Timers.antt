-- ===== src/Cpu/Timers.antt =====
-- The registration of the timers: `halInitTimers` of ntos/platform/amd64/io/timer.c.
use algae.Base.{ℕ, Bool, Option, some, ◌>>=◌}
use algae.Status.{status_success}
use algae.Ob.{ObStore}
use algae.Acpi.{Acpi}
use algae.Drv.Pit.{pit_init}
use algae.Drv.Hpet.{Hpet, ki_hpet_init}
use algae.Cpu.Lapic.Setup.{ki_lapic_init_timer}

-- What the pool gives for the three objects, and where the drivers' descriptors stand.
pub record Descriptors : Type 0 where
  pub fresh_pit : ℕ
  pub fresh_hpet : ℕ
  pub fresh_lapic : ℕ
  pub pit : ℕ
  pub hpet : ℕ
  pub lapic : ℕ

-- `halInitTimers`; the status of `pitInit` is only traced. `pit_is_init` and `lapic_is_init` are the
-- drivers' static `isInit`, and `at` gives the state of the HPET at an address.
unfoldable pub hal_init_timers :
    (pit_is_init lapic_is_init : Bool)
    → Acpi
    → (at : ℕ → Hpet) → Descriptors
    → ObStore
    → Option (ℕ × Hpet × ObStore)
hal_init_timers pit_is_init lapic_is_init acpi at d s = do
  p ← pit_init pit_is_init s d.fresh_pit d.pit
  h ← ki_hpet_init acpi p.2 at d.fresh_hpet d.hpet
  l ← ki_lapic_init_timer lapic_is_init h.2 d.fresh_lapic d.lapic
  some (status_success, h.1, l.1)

-- ===== src/Drv/Hpet.antt =====
-- The HPET timer: ntos/platform/amd64/io/hpet.c. `none` is a bug check, a division by zero, or a
-- counter that is read no more.
pub mod Waits
use algae.Base.{
  ℕ, ◌+◌, ◌*◌, ◌/◌, ◌%◌, ◌^◌, Bool, true, false, Option, none, some, List, [], ◌∷◌, ltb, ◌==◌,
  if◌then◌else◌, ◌>>=◌, ◌||◌, u32, u64,
}
use algae.Status.{status_success}
use algae.Mm.Page.{phys_to_virt}
use algae.Mm.Words64.{read64}
use algae.Ob.{ObStore}
use algae.Acpi.{Acpi, null, acpi_query_table}
use algae.Drv.Clkdev.{register_timer}

abbrev pub hpet_general_config : ℕ
hpet_general_config = 0x10

abbrev pub hpet_reg_main_counter : ℕ
hpet_reg_main_counter = 0xF0

-- `CAP_REV_ID` and `CAP_CLK_PERIOD`, of the register HPET_REG_CAPS.
abbrev pub cap_rev_id : (caps : ℕ) → ℕ
cap_rev_id caps = caps % 2 ^ 8

abbrev pub cap_clk_period : (caps : ℕ) → ℕ
cap_clk_period caps = caps / 2 ^ 32

-- The device: its capabilities, the values that its main counter gives when it is read, and the
-- writes to its registers.
pub record Hpet : Type 0 where
  pub caps : ℕ
  pub counter : List ℕ
  pub writes : List (ℕ × ℕ)

-- `while (hpetRead(HPET_REG_MAIN_COUNTER) < ticks)`: the readings that are left.
unfoldable pub wait_counter : List ℕ → (ticks : ℕ) → Option (List ℕ)
wait_counter [] ticks = none
wait_counter (r ∷ reads) ticks =
    let rest = wait_counter reads ticks in if ltb r ticks then rest else some reads

-- The sleep after the first reading of the counter.
unfoldable pub sleep_from : Hpet → (counter : List ℕ) → (n units : ℕ) → Option (ℕ × Hpet)
unfolding wait_counter
sleep_from d [] n units = none
sleep_from d (c ∷ reads) n units = do
  left ← wait_counter reads (u64 (c + u64 (n * (units / cap_clk_period d.caps))))
  some (status_success, record d { counter = left })

unfoldable pub hpet_sleep : Hpet → (n units : ℕ) → Option (ℕ × Hpet)
unfolding sleep_from
hpet_sleep d n units = if cap_clk_period d.caps == 0 then none else sleep_from d d.counter n units

unfoldable pub hpet_msleep : Hpet → (ms : ℕ) → Option (ℕ × Hpet)
hpet_msleep d ms = hpet_sleep d ms 1000000000000

abbrev pub hpet_signature : List ℕ
hpet_signature = b'H' ∷ b'P' ∷ b'E' ∷ b'T' ∷ []

abbrev pub aux_name : List ℕ
aux_name = b'a' ∷ b'u' ∷ b'x' ∷ []

-- The offset of `gas.address` in `ACPI_HPET`.
abbrev pub gas_address : ℕ
gas_address = 44

-- The largest clock period.
abbrev pub max_period : ℕ
max_period = 0x05F5E100

-- The checks of `kiHpetInit` on the capabilities; `clkPeriod` has 32 bits.
unfoldable pub bad_caps : (caps : ℕ) → Bool
bad_caps caps =
    let clk_period = u32 (cap_clk_period caps) in
    (clk_period == 0) || (ltb max_period clk_period || (cap_rev_id caps == 0))

-- `hpetRegister`
unfoldable pub hpet_register : ObStore → (fresh timer : ℕ) → Option (ℕ × ObStore)
hpet_register s fresh timer = register_timer s fresh aux_name timer

-- `kiHpetInit`: the address of the registers, the device, of which `at` gives the state, and the
-- objects.
unfoldable pub ki_hpet_init :
    Acpi → ObStore → (at : ℕ → Hpet) → (fresh timer : ℕ) → Option (ℕ × Hpet × ObStore)
unfolding bad_caps hpet_register
ki_hpet_init acpi s at fresh timer = do
  hpet ← acpi_query_table acpi hpet_signature
  let hpet_base = phys_to_virt acpi.base (read64 acpi.memory (hpet + gas_address))
  let d = at hpet_base
  let enabled : Hpet = record d {
    writes = (hpet_general_config, 1) ∷ (hpet_reg_main_counter, 0) ∷ d.writes;
  }
  if hpet == null then none else if bad_caps d.caps then none else (do
    r ← hpet_register s fresh timer
    if r.0 == status_success then some (hpet_base, enabled, r.1) else none)

-- ===== src/Cpu/Lapic/Setup.antt =====
-- The set-up of the local APIC: `kiLapicInit` and its parts, and `kiLapicInitTimer`, of
-- ntos/platform/amd64/cpu/lapic.c. `none` is a bug check, a division by zero, a wait without end, or an
-- access outside the bitmap of frames.
use algae.Base.{
  ℕ, ◌+◌, ◌-◌, ◌*◌, ◌/◌, ◌%◌, ◌^◌, Bool, true, false, Option, none, some, List, [], ◌∷◌, ◌++◌, ◌==◌,
  if◌then◌else◌, ◌>>=◌, bit_or, u32, u64,
}
use algae.Status.{status_success}
use algae.Mm.Phys.{Frames}
use algae.Ob.{ObStore}
use algae.Acpi.{Acpi, null, read32, header_size, acpi_query_table, apic_signature}
use algae.Drv.Clkdev.{register_timer}
use algae.Drv.Pit.{i8254_dividend}
use algae.Cpu.Lapic.{Mcb, Write, wrmsr, lapic_write, lapic_stop_timer, lapic_init_cnt}
use algae.Cpu.Tss.{TssStack, TssEntry, tss_allocate_stack, tss_set_intr_stack}

abbrev pub lapic_svr : ℕ
lapic_svr = 0x00F0

abbrev pub lapic_tmr_samples : ℕ
lapic_tmr_samples = 0xFFFF

abbrev pub lapic_hw_enable : ℕ
lapic_hw_enable = 2 ^ 11

abbrev pub lapic_sw_enable : ℕ
lapic_sw_enable = bit_or (2 ^ 8) 0xFF

abbrev pub lapic_mmio_base : ℕ
lapic_mmio_base = 0xFEE00000

abbrev pub ia32_apic_base_msr : ℕ
ia32_apic_base_msr = 0x1B

abbrev pub ist_sched : ℕ
ist_sched = 0

-- What CPUID, the registers of the unit and the interval timer's counter are found to hold. The current
-- count of the timer is read again and again.
pub record Readings : Type 0 where
  pub edx : ℕ
  pub ecx : ℕ
  pub apic_base : ℕ
  pub svr : ℕ
  pub id_reg : ℕ
  pub ticks_start : ℕ
  pub cur_counts : List ℕ
  pub ticks_end : ℕ

abbrev pub lapic_is_present : Readings → Bool
lapic_is_present r = r.edx / 2 ^ 9 % 2 == 1

abbrev pub lapic_has_x2apic : Readings → Bool
lapic_has_x2apic r = r.ecx / 2 ^ 21 % 2 == 1

-- `lapicSetBase` where the table is not cached; the address of the unit follows the table's header.
unfoldable pub lapic_set_base : Acpi → Mcb → Option Mcb
lapic_set_base acpi mcb = do
  madt ← acpi_query_table acpi apic_signature
  let lapic_addr = read32 acpi.memory (madt + header_size)
  if madt == null
      then none
      else if lapic_addr == lapic_mmio_base
      then some (record mcb { lapic_base = lapic_addr })
      else none

-- `lapicReadId` of a control block that is not null.
unfoldable pub lapic_read_id : Mcb → (id_reg : ℕ) → ℕ
lapic_read_id mcb id_reg = if mcb.has_x2apic then u32 id_reg else u32 id_reg / 2 ^ 24 % 2 ^ 8

unfoldable pub lapic_enable : Mcb → Readings → Mcb × List Write
unfolding lapic_read_id
lapic_enable mcb r =
    let enabled : Mcb = record mcb { has_x2apic = lapic_has_x2apic r } in
    let apic_msr =
      bit_or (bit_or r.apic_base lapic_hw_enable) (if lapic_has_x2apic r then 2 ^ 10 else 0) in
    (
      record enabled { hw_id = lapic_read_id enabled r.id_reg },
      wrmsr ia32_apic_base_msr apic_msr
          ∷ lapic_write enabled lapic_svr (bit_or r.svr lapic_sw_enable)
          ∷ [],
    )

-- `while (lapicRead(core, LAPIC_CUR_CNT) > 0);`
unfoldable pub wait_count : (cur_counts : List ℕ) → Bool
wait_count [] = false
wait_count (n ∷ cur_counts) = let rest = wait_count cur_counts in if n == 0 then true else rest

-- `ticksStart - ticksEnd`, of two USHORTs, as a USIZE.
abbrev pub ticks_total : (ticks_start ticks_end : ℕ) → ℕ
ticks_total ticks_start ticks_end = u64 (ticks_start + 2 ^ 64 - ticks_end)

-- The frequency, and the writes to the unit; `pitSetCount` and `pitGetCount` use ports of their own.
unfoldable pub lapic_timer_init : Mcb → Readings → Option (ℕ × List Write)
unfolding wait_count
lapic_timer_init mcb r =
    let total = ticks_total r.ticks_start r.ticks_end in
    let writes =
      lapic_stop_timer mcb
      ++ (lapic_write mcb lapic_init_cnt lapic_tmr_samples ∷ lapic_stop_timer mcb) in
    if wait_count r.cur_counts
    then (if total == 0
        then none
        else some (u64 (lapic_tmr_samples / total * i8254_dividend), writes))
    else none

-- What stands in the control region after `kiLapicInit`.
pub record Prepared : Type 0 where
  pub mcb : Mcb
  pub tss : TssEntry
  pub frames : Frames
  pub writes : List Write

unfoldable pub with_stack :
    Mcb → TssEntry → Frames → List Write → ℕ × Option TssEntry → Option Prepared
with_stack mcb tss frames writes (status, none) = none
with_stack mcb tss frames writes (status, some tss') =
    if status == status_success
    then some (record { mcb = mcb; tss = tss'; frames = frames; writes = writes })
    else none

-- `kiLapicInit`; `stale` is what the uninitialised stack holds.
unfoldable pub ki_lapic_init :
    (base : ℕ) → Mcb → TssEntry → Frames → (stale : TssStack) → Readings → Option Prepared
unfolding lapic_enable lapic_timer_init with_stack
ki_lapic_init base mcb tss frames stale r =
    if lapic_is_present r
    then (do
      let e = lapic_enable mcb r
      t ← lapic_timer_init e.0 r
      k ← tss_allocate_stack base frames (some stale)
      if k.0 == status_success
          then with_stack (record (e.0) { lapic_tmr_freq = t.0 }) tss (k.2) (e.1 ++ t.1)
              (tss_set_intr_stack (some tss) ist_sched (k.1))
          else none)
    else none

abbrev pub sched_name : List ℕ
sched_name = b's' ∷ b'c' ∷ b'h' ∷ b'e' ∷ b'd' ∷ []

-- `kiLapicInitTimer`, with the static `isInit`.
unfoldable pub ki_lapic_init_timer :
    (is_init : Bool) → ObStore → (fresh ktimer : ℕ) → Option (Bool × ObStore)
ki_lapic_init_timer is_init s fresh ktimer = elim is_init [
  | true ↦ some (true, s)
  | false ↦ do
    r ← register_timer s fresh sched_name ktimer
    if r.0 == status_success then some (true, r.1) else none
]

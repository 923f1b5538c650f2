-- ===== src/Cpu/Lapic.antt =====
-- The local APIC's registers and `kiLapicSendIpi`, `kiLapicEoi` and the timer of
-- ntos/platform/amd64/cpu/lapic.c. An operation gives its writes, in order; what reads of the command
-- register find, one after the other, is an argument, and what is left of it a result.
pub mod Icr
pub mod Setup
use algae.Base.{
  ℕ, ◌+◌, ◌*◌, ◌/◌, ◌%◌, ◌^◌, Bool, true, false, Option, none, some, List, [], ◌∷◌, ◌==◌, ◌&&◌,
  if◌then◌else◌, ◌>>=◌, bit_or, u32, u64, ◌>>>◌,
}
use algae.Status.{status_success}

-- `MCB`, as far as the local APIC uses it.
pub record Mcb : Type 0 where
  pub lapic_base : ℕ
  pub hw_id : ℕ
  pub lapic_tmr_freq : ℕ
  pub has_x2apic : Bool

pub data Write : Type 0 where
  wrmsr : (msr value : ℕ) → Write
  mmio_write32 : (addr value : ℕ) → Write

abbrev pub lapic_eoi : ℕ
lapic_eoi = 0x00B0

abbrev pub lapic_icrlo : ℕ
lapic_icrlo = 0x0300

abbrev pub lapic_icrhi : ℕ
lapic_icrhi = 0x0310

abbrev pub lapic_lvt_tmr : ℕ
lapic_lvt_tmr = 0x0320

abbrev pub lapic_dcr : ℕ
lapic_dcr = 0x03E0

abbrev pub lapic_init_cnt : ℕ
lapic_init_cnt = 0x0380

abbrev pub x2apic_ipi_self : ℕ
x2apic_ipi_self = 0x3F0

abbrev pub x2apic_msr_base : ℕ
x2apic_msr_base = 0x00000800

abbrev pub lapic_lvt_mask : ℕ
lapic_lvt_mask = 2 ^ 16

abbrev pub lapic_tmr_vec : ℕ
lapic_tmr_vec = 0x81

abbrev pub lapic_write : Mcb → (reg value : ℕ) → Write
lapic_write mcb reg value =
    if mcb.has_x2apic
    then wrmsr (x2apic_msr_base + (reg >>> 4)) value
    else mmio_write32 (mcb.lapic_base + reg) (u32 value)

-- `IPI_SHORTHAND`
pub data IpiShorthand : Type 0 where
  shand_none shand_self shand_ais shand_axs : IpiShorthand

abbrev pub shand_number : IpiShorthand → ℕ
shand_number shand_none = 0
shand_number shand_self = 1
shand_number shand_ais = 2
shand_number shand_axs = 3

abbrev pub is_self : IpiShorthand → Bool
is_self shand_self = true
is_self _ = false

-- `LAPIC_IPI`
pub record LapicIpi : Type 0 where
  pub delmod : ℕ
  pub shand : IpiShorthand
  pub vector : ℕ
  pub apic_id : ℕ
  pub dest_mode : ℕ

-- The low dword of the command.
unfoldable pub icr_lo : LapicIpi → ℕ
icr_lo ipi =
    bit_or (bit_or (bit_or ipi.vector (ipi.delmod % 8 * 2 ^ 8)) (ipi.dest_mode % 2 * 2 ^ 11))
      (shand_number ipi.shand % 4 * 2 ^ 18)

-- `ISSET(icrLo, BIT(12))`
abbrev pub is_busy : ℕ → Bool
is_busy icr = icr / 2 ^ 12 % 2 == 1

-- The loop that waits for the command to be taken; `none` is a wait without end.
unfoldable pub wait_icr : (reads : List ℕ) → Option (List ℕ)
wait_icr [] = none
wait_icr (icr ∷ reads) = let rest = wait_icr reads in if is_busy icr then rest else some reads

-- The status, the writes, and the reads that are left; `keGetCore` does not give null.
unfoldable pub ki_lapic_send_ipi :
    Mcb → LapicIpi → (reads : List ℕ) → Option (ℕ × List Write × List ℕ)
unfolding icr_lo wait_icr
ki_lapic_send_ipi mcb ipi reads =
    if is_self ipi.shand && mcb.has_x2apic
    then some (status_success, lapic_write mcb x2apic_ipi_self ipi.vector ∷ [], reads)
    else if mcb.has_x2apic
    then some (
      status_success,
      lapic_write mcb lapic_icrlo (bit_or (ipi.apic_id * 2 ^ 32) (icr_lo ipi)) ∷ [],
      reads,
    )
    else (do
      left ← wait_icr reads
      some (
        status_success,
        lapic_write mcb lapic_icrhi (u32 (ipi.apic_id * 2 ^ 24))
            ∷ lapic_write mcb lapic_icrlo (icr_lo ipi)
            ∷ [],
        left,
      ))

unfoldable pub ki_lapic_eoi : Mcb → List Write
ki_lapic_eoi mcb = lapic_write mcb lapic_eoi 0 ∷ []

unfoldable pub lapic_stop_timer : Mcb → List Write
lapic_stop_timer mcb =
    lapic_write mcb lapic_lvt_tmr lapic_lvt_mask ∷ lapic_write mcb lapic_init_cnt 0 ∷ []

-- `mode` and `mask` are bytes; `count` is a ULONG.
unfoldable pub lapic_timer_start : Mcb → (mask mode count : ℕ) → List Write
lapic_timer_start mcb mask mode count =
    lapic_write mcb lapic_lvt_tmr
      (u32 (bit_or (bit_or (mode * 2 ^ 17) (mask * 2 ^ 16)) lapic_tmr_vec))
    ∷ lapic_write mcb lapic_dcr 0
    ∷ lapic_write mcb lapic_init_cnt (u32 count)
    ∷ []

unfoldable pub lapic_timer_oneshot_usec : Mcb → (usec : ℕ) → List Write
unfolding lapic_timer_start
lapic_timer_oneshot_usec mcb usec =
    lapic_timer_start mcb 0 0 (u64 (usec * (mcb.lapic_tmr_freq / 1000000)))

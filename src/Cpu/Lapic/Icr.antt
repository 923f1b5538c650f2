-- ===== src/Cpu/Lapic/Icr.antt =====
-- What the interrupt command that `kiLapicSendIpi` writes says to the device.
use algae.Base.{ℕ, ◌+◌, ◌/◌, ◌%◌, ◌^◌, ◌<◌, ◌≡◌, true, false, List, [], ◌∷◌}
use algae.Cpu.Lapic.{Mcb, Write, wrmsr, mmio_write32, shand_number, is_self, LapicIpi, is_busy}

-- The device reads the command `ipi`, for the processor `target`, in the low dword `lo`.
pub record Says (ipi : LapicIpi) (target lo : ℕ) : Type 0 where
  pub vector : lo % 2 ^ 8 ≡ ipi.vector
  pub delivery : lo / 2 ^ 8 % 2 ^ 3 ≡ ipi.delmod
  pub destination : lo / 2 ^ 11 % 2 ≡ ipi.dest_mode
  pub shorthand : lo / 2 ^ 18 % 2 ^ 2 ≡ shand_number ipi.shand
  pub reserved : (is_busy lo ≡ false) × (lo / 2 ^ 13 % 2 ^ 5 ≡ 0) × (lo / 2 ^ 20 ≡ 0)
  pub to : target ≡ ipi.apic_id

-- The fields fit.
pub record IsIpi (ipi : LapicIpi) : Type 0 where
  pub vector : ipi.vector < 2 ^ 8
  pub delmod : ipi.delmod < 2 ^ 3
  pub dest_mode : ipi.dest_mode < 2
  pub apic_id : ipi.apic_id < 2 ^ 8

-- What is written in each mode.
pub record InX2Apic (mcb : Mcb) (ipi : LapicIpi) (writes : List Write) : Type 0 where
  pub mode : mcb.has_x2apic ≡ true
  pub command : ℕ
  pub written : writes ≡ wrmsr 0x830 command ∷ []
  pub says : Says ipi (command / 2 ^ 32) (command % 2 ^ 32)

pub record InXApic (mcb : Mcb) (ipi : LapicIpi) (writes : List Write) : Type 0 where
  pub mode : mcb.has_x2apic ≡ false
  pub hi : ℕ
  pub lo : ℕ
  pub written :
      writes
      ≡ mmio_write32 (mcb.lapic_base + 0x310) hi ∷ mmio_write32 (mcb.lapic_base + 0x300) lo ∷ []
  pub says : Says ipi (hi / 2 ^ 24) lo

pub record ToSelf (mcb : Mcb) (ipi : LapicIpi) (writes : List Write) : Type 0 where
  pub mode : mcb.has_x2apic ≡ true
  pub self : is_self ipi.shand ≡ true
  pub written : writes ≡ wrmsr 0x83F ipi.vector ∷ []

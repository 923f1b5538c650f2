-- ===== src/Tests/Firmware.antt =====
-- A MADT with two local APICs and an I/O APIC between them, and a startup IPI.
use algae.Base.{
  false, ℕ, ◌+◌, ◌≡◌, refl, some, List, [], ◌∷◌, ◌++◌, arith, ◌==◌, if◌then◌else◌, ◌>>=◌, negsuc,
}
use algae.Rtl.Memory.{Memory}
use algae.Cpu.Lapic.{Mcb, LapicIpi, shand_none}
use algae.Acpi.{Acpi, Callback, cache_madt, acpi_read_madt, madt_size}
use algae.Acpi.Madt.{Entry, addresses_of, until_final, acpi_read_madt-until_final}

abbrev tables_memory : Memory
tables_memory p =
    if p == 0x1004
    then 72
    else if p == 0x102D
    then 8
    else if p == 0x1034
    then 1
    else if p == 0x1035
    then 12
    else if p == 0x1041
    then 8
    else 0

abbrev firmware : Acpi
firmware = record { sdt = 0; sdt_len = 0; madt = 0x1000; base = 0; memory = tables_memory }

abbrev entries : List Entry
entries =
    record { type = 0; len = 8 } ∷ record { type = 1; len = 12 } ∷ record { type = 0; len = 8 } ∷ []

firmware_cached : cache_madt firmware ≡ some firmware
unfolding cache_madt
firmware_cached = refl

-- Collects the headers.
abbrev collect : Callback (List ℕ)
collect a hdr = some (negsuc 0, a ++ hdr ∷ [])

acpi_read_madt-until_final_example : acpi_read_madt 4 firmware 0 (some collect) [] ≡ (do
  r ← until_final collect (addresses_of 0 (firmware.madt + madt_size) entries) []
  some (r.0, firmware, r.1))
acpi_read_madt-until_final_example =
    acpi_read_madt-until_final 4 firmware firmware 0 collect [] entries firmware_cached
      (omega arith)
      (refl, refl, omega arith, (refl, refl, omega arith, (refl, refl, omega arith, refl)))
      (omega arith)

abbrev xapic_core : Mcb
xapic_core = record {
  lapic_base = 0xFEE00000;
  hw_id = 0;
  lapic_tmr_freq = 1000000;
  has_x2apic = false;
}

abbrev startup : LapicIpi
startup = record { delmod = 6; shand = shand_none; vector = 1; apic_id = 3; dest_mode = 0 }

-- ===== src/Acpi.antt =====
-- ntos/acpi/acpi.c on the firmware's tables in memory. `none` is a bug check, a fault of a callback, or
-- fuel that has run out.
pub mod Madt
use algae.Base.{
  ℕ, zero, suc, ◌+◌, ◌-◌, ◌*◌, ◌/◌, ◌^◌, Bool, true, false, Option, none, some, List, [], ◌∷◌, ltb,
  ◌==◌, if◌then◌else◌, ◌>>=◌, ℤ, pos, negsuc, u8, u32, u64,
}
use algae.Rtl.Memory.{Memory}
use algae.Rtl.Str.{rtl_memcmp}
use algae.Mm.Page.{phys_to_virt}

-- The sizes of `ACPI_HEADER` and `ACPI_MADT`.
abbrev pub header_size : ℕ
header_size = 36

abbrev pub madt_size : ℕ
madt_size = 44

abbrev pub null : ℕ
null = 0

abbrev pub read32 : Memory → ℕ → ℕ
read32 m p = m p + 2 ^ 8 * m (p + 1) + 2 ^ 16 * m (p + 2) + 2 ^ 24 * m (p + 3)

-- `hdr->length`
abbrev pub header_length : Memory → (hdr : ℕ) → ℕ
header_length m hdr = read32 m (hdr + 4)

-- `rsdp`, `sdt` and `sdtLen`, the cached `madt`, the start of the direct mapping, and the memory.
pub record Acpi : Type 0 where
  pub sdt : ℕ
  pub sdt_len : ℕ
  pub madt : ℕ
  pub base : ℕ
  pub memory : Memory

unfoldable pub sum_bytes : Memory → (p sum : ℕ) → (rounds : ℕ) → ℕ
sum_bytes m p sum zero = sum
sum_bytes m p sum (suc rounds) = sum_bytes m (p + 1) (u8 (sum + m p)) rounds

unfoldable pub acpi_checksum : Memory → (hdr : ℕ) → ℤ
unfolding sum_bytes
acpi_checksum m hdr = if sum_bytes m hdr 0 (header_length m hdr) == 0 then pos 0 else negsuc 0

abbrev pub signature_at : Memory → ℕ → List ℕ
signature_at m p = m p ∷ m (p + 1) ∷ m (p + 2) ∷ m (p + 3) ∷ []

-- `PHYS_TO_VIRT(sdt->table[i])`
abbrev pub table_at : Acpi → (i : ℕ) → ℕ
table_at s i = phys_to_virt s.base (read32 s.memory (s.sdt + header_size + 4 * i))

-- The loop of `acpiQueryTable` from index `i` on.
unfoldable pub query_loop : Acpi → (signature : List ℕ) → (i rounds : ℕ) → Option ℕ
query_loop s signature i zero = some null
query_loop s signature i (suc rounds) = do
  order ← rtl_memcmp (signature_at s.memory (table_at s i)) signature 4
  elim order [ pos zero ↦ some (table_at s i) | _ ↦ query_loop s signature (i + 1) rounds ]

unfoldable pub acpi_query_table : Acpi → (signature : List ℕ) → Option ℕ
unfolding query_loop
acpi_query_table s signature = query_loop s signature 0 s.sdt_len

abbrev pub apic_signature : List ℕ
apic_signature = b'A' ∷ b'P' ∷ b'I' ∷ b'C' ∷ []

-- `retval >= 0`
abbrev pub is_final : ℤ → Bool
is_final (pos n) = true
is_final (negsuc n) = false

-- `cb(apicHdr, arg)`, with what it changes
abbrev pub Callback : Type 0 → Type 0
Callback A = A → (hdr : ℕ) → Option (ℤ × A)

-- The loop of `acpiReadMadt` at `cur`.
unfoldable pub madt_loop :
    {A : Type 0}
    → (fuel : ℕ) → Memory
    → (type : ℕ) → Callback A
    → (cur end_ : ℕ) → (retval : ℤ) → A
    → Option (ℤ × A)
madt_loop zero m type cb cur end_ retval a = none
madt_loop (suc fuel) m type cb cur end_ retval a = elim (ltb cur end_) [
  | false ↦ some (negsuc 0, a)
  | true ↦ do
    r ← if m cur == type then cb a cur else some (retval, a)
    elim (is_final r.0) [
      | true ↦ some r
      | false ↦ madt_loop fuel m type cb (cur + m (cur + 1)) end_ r.0 r.1
    ]
]

-- `madt` is looked up once.
unfoldable pub cache_madt : Acpi → Option Acpi
unfolding acpi_query_table
cache_madt s =
    if s.madt == null
    then (do t ← acpi_query_table s apic_signature; some (record s { madt = t }))
    else some s

-- `acpiReadMadt`; a callback that is null is `none`.
unfoldable pub acpi_read_madt :
    {A : Type 0} → (fuel : ℕ) → Acpi → (type : ℕ) → Option (Callback A) → A → Option (ℤ × Acpi × A)
unfolding madt_loop cache_madt
acpi_read_madt fuel s type none a = some (negsuc 0, s, a)
acpi_read_madt fuel s type (some cb) a = do
  s' ← cache_madt s
  if s'.madt == null then none else (do
    r ←
        madt_loop fuel s'.memory type cb (s'.madt + madt_size)
          (s'.madt + header_length s'.memory s'.madt) (negsuc 0) a
    some (r.0, s', r.1))

-- `ACPI_RSDP`, as far as it is read.
pub record Rsdp : Type 0 where
  pub revision : ℕ
  pub rsdt_addr : ℕ
  pub xsdt_addr : ℕ

-- `acpiInit`; an entry is taken to have four bytes in either table.
unfoldable pub acpi_init : Acpi → Rsdp → Acpi
acpi_init s rsdp =
    let sdt =
      phys_to_virt s.base (if ltb rsdp.revision 2 then rsdp.rsdt_addr else rsdp.xsdt_addr) in
    record s { sdt = sdt; sdt_len = u64 (header_length s.memory sdt + 2 ^ 64 - header_size) / 4 }

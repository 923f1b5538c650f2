-- ===== src/Mm/Mmu/Flags.antt =====
-- The table indices of an address, and the bits of a page-table entry.
use algae.Base.{
  ℕ, ◌+◌, ◌*◌, ◌/◌, ◌%◌, ◌^◌, ◌<◌, ◌≡◌, refl, Bool, true, false, arith, ◌==◌, bit_or, bit_or_field,
  bit_or_fields, not, if◌then◌else◌, bit_or_comm, ◌∙◌,
}
use algae.Mm.Phys.{page_size}
use algae.Mm.Mmu.{
  MapLevel, pt, pd, pdpt, pml4, mmu_get_level_idx, Prot, readonly, readwrite, execute_read,
  user_readonly, user_readwrite, user_exec_read, other, mmu_get_table_flags, pte_addr, is_present,
}

-- The four table indices of an address below 2^48 and its offset in the page, each times its unit, add
-- up to the address.
pub mmu_get_level_idx_digits :
    (v : ℕ)
    → v < 2 ^ 48
    → mmu_get_level_idx v pml4 * 2 ^ 39
        + mmu_get_level_idx v pdpt * 2 ^ 30
        + mmu_get_level_idx v pd * 2 ^ 21
        + mmu_get_level_idx v pt * 2 ^ 12
        + v % page_size
      ≡ v
unfolding mmu_get_level_idx
mmu_get_level_idx_digits v h = omega arith

pub mmu_get_level_idx-lt : (v : ℕ) (level : MapLevel) → mmu_get_level_idx v level < 512
unfolding mmu_get_level_idx
mmu_get_level_idx-lt v pt = omega arith
mmu_get_level_idx-lt v pd = omega arith
mmu_get_level_idx-lt v pdpt = omega arith
mmu_get_level_idx-lt v pml4 = omega arith

-- The bits of an entry that the processor tests.
abbrev pub writable : ℕ → Bool
writable e = e / 2 % 2 == 1

abbrev pub user : ℕ → Bool
user e = e / 4 % 2 == 1

abbrev pub no_execute : ℕ → Bool
no_execute e = e / 2 ^ 63 == 1

-- What the names of the protections say.
abbrev pub says_write : Prot → Bool
says_write readwrite = true
says_write user_readwrite = true
says_write _ = false

abbrev pub says_execute : Prot → Bool
says_execute execute_read = true
says_execute user_exec_read = true
says_execute _ = false

abbrev pub says_user : Prot → Bool
says_user user_readonly = true
says_user user_readwrite = true
says_user user_exec_read = true
says_user _ = false

-- A page address or-ed with flags in bit 63 and the low three bits.
or_flags :
    (q hi lo : ℕ)
    → q < 2 ^ 40
    → hi < 2
    → lo < 8
    → bit_or (q * page_size) (hi * 2 ^ 63 + lo) ≡ hi * 2 ^ 63 + q * page_size + lo
or_flags q hi lo hq hh hl =
    let split : hi * 2 ^ 63 + lo ≡ hi * 2 ^ 51 * 2 ^ 12 + lo = omega arith in
    rw split (
      bit_or_fields 12 q (hi * 2 ^ 51) lo (omega arith)
      ∙ omega (arith, bit_or_comm q (hi * 2 ^ 51), bit_or_field 51 hi q (omega arith)))

flag_hi : Prot → ℕ
flag_hi p = if says_execute p then 0 else 1

flag_lo : Prot → ℕ
flag_lo p = 1 + (if says_write p then 2 else 0) + (if says_user p then 4 else 0)

flags_split : (p : Prot) → mmu_get_table_flags p ≡ flag_hi p * 2 ^ 63 + flag_lo p
unfolding mmu_get_table_flags flag_hi flag_lo
flags_split readonly = refl
flags_split readwrite = refl
flags_split execute_read = refl
flags_split user_readonly = refl
flags_split user_readwrite = refl
flags_split user_exec_read = refl
flags_split other = refl

-- The entry that `mmuMapSingle` writes for page frame `q` and a protection.
pub record Maps (entry q : ℕ) (p : Prot) : Type 0 where
  pub present : is_present entry ≡ true
  pub frame : pte_addr entry ≡ q * page_size
  pub write : writable entry ≡ says_write p
  pub user_mode : user entry ≡ says_user p
  pub execute : no_execute entry ≡ not (says_execute p)
  pub word : entry < 2 ^ 64

-- An entry for a frame below 2^40 leads to that frame, and is writable, accessible from user mode
-- and executable exactly if the protection's name says so.
pub mmu_get_table_flags-Maps :
    (q : ℕ) (p : Prot) → q < 2 ^ 40 → Maps (bit_or (q * page_size) (mmu_get_table_flags p)) q p
unfolding flag_hi flag_lo
mmu_get_table_flags-Maps q p h =
    rw (flags_split p)
      (rw (or_flags q (flag_hi p) (flag_lo p) h (ground arith) (ground arith)) (by_bits p))
  where
    by_bits : (p : Prot) → Maps (flag_hi p * 2 ^ 63 + q * page_size + flag_lo p) q p
    by_bits readonly = ground arith
    by_bits readwrite = ground arith
    by_bits execute_read = ground arith
    by_bits user_readonly = ground arith
    by_bits user_readwrite = ground arith
    by_bits user_exec_read = ground arith
    by_bits other = ground arith

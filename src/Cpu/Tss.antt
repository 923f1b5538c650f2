-- ===== src/Cpu/Tss.antt =====
-- The task state segment, ntos/platform/amd64/cpu/tss.c. A null pointer is `none`; `base` is what
-- `keGetKernelBase` returns, and `none` of an operation is `keBugCheck` or an access outside the
-- bitmap of frames.
pub mod Stacks
use algae.Base.{
  ℕ, ◌+◌, ◌-◌, ◌*◌, ◌/◌, ◌%◌, ◌^◌, Option, none, some, List, ◌==◌, if◌then◌else◌, ◌>>=◌, u64,
  replicate,
}
use algae.Status.{status_success, status_invalid_handle, status_invalid_param, status_no_memory}
use algae.Mm.Phys.{Frames, page_size, mm_alloc_frame}
use algae.Mm.Page.{phys_to_virt}

abbrev pub stack_size_pages : ℕ
stack_size_pages = 1

-- `TSS_STACK`, with its two halves.
pub record TssStack : Type 0 where
  pub stack_base : ℕ

abbrev pub stack_low : TssStack → ℕ
stack_low s = s.stack_base % 2 ^ 32

abbrev pub stack_high : TssStack → ℕ
stack_high s = s.stack_base / 2 ^ 32

-- `TSS_ENTRY`, less the reserved words and the stacks of the rings 1 and 2, which nothing writes.
pub record TssEntry : Type 0 where
  pub rsp0_lo : ℕ
  pub rsp0_hi : ℕ
  pub ist1_lo : ℕ
  pub ist1_hi : ℕ
  pub ist2_lo : ℕ
  pub ist2_hi : ℕ
  pub ist3_lo : ℕ
  pub ist3_hi : ℕ
  pub ist4_lo : ℕ
  pub ist4_hi : ℕ
  pub ist5_lo : ℕ
  pub ist5_hi : ℕ
  pub ist6_lo : ℕ
  pub ist6_hi : ℕ
  pub ist7_lo : ℕ
  pub ist7_hi : ℕ
  pub iobase : ℕ
  pub iomap : List ℕ

-- `sizeof(TSS_ENTRY)`, and the offset of `iomap` in it.
abbrev pub iomap_size : ℕ
iomap_size = 8192

abbrev pub iomap_offset : ℕ
iomap_offset = 104

abbrev pub tss_size : ℕ
tss_size = iomap_offset + iomap_size

-- `TSS_DESC`
pub record TssDesc : Type 0 where
  pub seglimit : ℕ
  pub base_lo16 : ℕ
  pub base_mid8 : ℕ
  pub type : ℕ
  pub zero_ : ℕ
  pub dpl : ℕ
  pub p : ℕ
  pub seglimit_hi : ℕ
  pub avl : ℕ
  pub unused : ℕ
  pub g : ℕ
  pub base_hi_mid8 : ℕ
  pub base_hi32 : ℕ
  pub reserved : ℕ

unfoldable pub alloc_kernel_stack : (base : ℕ) → Frames → TssEntry → Option (TssEntry × Frames)
alloc_kernel_stack base s entry = do
  r ← mm_alloc_frame s stack_size_pages
  let rsp0 = u64 (u64 (r.0 + stack_size_pages * page_size) + base)
  if r.0 == 0
      then none
      else some (record entry { rsp0_lo = rsp0 % 2 ^ 32; rsp0_hi = rsp0 / 2 ^ 32 % 2 ^ 32 }, r.1)

unfoldable pub tss_allocate_stack :
    (base : ℕ) → Frames → Option TssStack → Option (ℕ × Option TssStack × Frames)
tss_allocate_stack base s none = some (status_invalid_handle, none, s)
tss_allocate_stack base s (some result) = do
  r ← mm_alloc_frame s stack_size_pages
  if r.0 == 0
      then some (status_no_memory, some (record { stack_base = 0 }), r.1)
      else some (status_success, some (record { stack_base = phys_to_virt base r.0 }), r.1)

-- The cases of `tssSetIntrStack`.
unfoldable pub set_ist : TssEntry → (ist_number : ℕ) → TssStack → ℕ × TssEntry
set_ist tss n s =
    if n == 0
    then (status_success, record tss { ist1_lo = stack_low s; ist1_hi = stack_high s })
    else if n == 1
    then (status_success, record tss { ist2_lo = stack_low s; ist2_hi = stack_high s })
    else if n == 2
    then (status_success, record tss { ist3_lo = stack_low s; ist3_hi = stack_high s })
    else if n == 3
    then (status_success, record tss { ist4_lo = stack_low s; ist4_hi = stack_high s })
    else if n == 4
    then (status_success, record tss { ist5_lo = stack_low s; ist5_hi = stack_high s })
    else if n == 5
    then (status_success, record tss { ist6_lo = stack_low s; ist6_hi = stack_high s })
    else if n == 6
    then (status_success, record tss { ist7_lo = stack_low s; ist7_hi = stack_high s })
    else (status_invalid_param, tss)

unfoldable pub tss_set_intr_stack :
    (kpcr : Option TssEntry) → (ist_number : ℕ) → (stack : Option TssStack) → ℕ × Option TssEntry
unfolding set_ist
tss_set_intr_stack none n stack = (status_invalid_handle, none)
tss_set_intr_stack (some tss) n none = (status_invalid_handle, some tss)
tss_set_intr_stack (some tss) n (some s) = let r = set_ist tss n s in (r.0, some (r.1))

-- `tssWrite` for the segment at the address `tss_base`.
unfoldable pub tss_write :
    (base tss_base : ℕ) → Frames → TssEntry → TssDesc → Option (TssEntry × TssDesc × Frames)
unfolding alloc_kernel_stack
tss_write base tss_base s tss desc = do
  r ← alloc_kernel_stack base s tss
  some (
    record (r.0) { iomap = replicate iomap_size 0xFF; iobase = iomap_offset },
    record desc {
      seglimit = tss_size - 1;
      p = 1;
      g = 0;
      avl = 0;
      dpl = 0;
      type = 0x9;
      base_lo16 = tss_base % 2 ^ 16;
      base_mid8 = tss_base / 2 ^ 16 % 2 ^ 8;
      base_hi_mid8 = tss_base / 2 ^ 24 % 2 ^ 8;
      base_hi32 = tss_base / 2 ^ 32 % 2 ^ 32;
    },
    r.1,
  )

-- ===== src/Mm/Mmu.antt =====
-- The page tables, ntos/platform/amd64/cpu/mmu.c, over the frame allocator. Tables are read and
-- written in the allocator's memory at their physical addresses: `PHYS_TO_VIRT` and `VIRT_TO_PHYS`
-- cancel. `none` is a fault of the allocator.
pub mod Flags
pub mod Walk
pub mod Rights
pub mod Descend
pub mod Mapped
pub mod Space
use algae.Base.{
  ℕ, zero, suc, ◌+◌, ◌-◌, ◌*◌, ◌/◌, ◌%◌, ◌^◌, Bool, true, false, Option, none, some, List, [], ◌∷◌,
  ltb, leb, ◌==◌, if◌then◌else◌, ◌>>=◌, bit_or, align_down, ◌>>>◌,
}
use algae.Status.{status_success, status_not_mapped, status_no_memory}
use algae.Mm.Phys.{Frames, page_size, mm_alloc_frame}
use algae.Mm.Words64.{read64, write64}

-- `MAP_LEVEL`, and its order as an enum
pub data MapLevel : Type 0 where
  pt pd pdpt pml4 : MapLevel

pub mmu_get_level_idx : (virt_addr : ℕ) → MapLevel → ℕ
mmu_get_level_idx virt_addr pt = (virt_addr >>> 12) % 512
mmu_get_level_idx virt_addr pd = (virt_addr >>> 21) % 512
mmu_get_level_idx virt_addr pdpt = (virt_addr >>> 30) % 512
mmu_get_level_idx virt_addr pml4 = (virt_addr >>> 39) % 512

abbrev pub pte_p : ℕ
pte_p = 2 ^ 0

abbrev pub pte_rw : ℕ
pte_rw = 2 ^ 1

abbrev pub pte_us : ℕ
pte_us = 2 ^ 2

abbrev pub pte_nx : ℕ
pte_nx = 2 ^ 63

-- `ISSET(v, PTE_P)`
abbrev pub is_present : ℕ → Bool
is_present v = v % 2 == 1

-- `v & PTE_ADDR_MASK`: bits 12 to 51
abbrev pub pte_addr : ℕ → ℕ
pte_addr v = v % 2 ^ 52 - v % 2 ^ 12

-- The page protections of ntos/include/mm/vm.h; any other value is `other`.
pub data Prot : Type 0 where
  readonly readwrite execute_read user_readonly user_readwrite user_exec_read other : Prot

pub mmu_get_table_flags : Prot → ℕ
mmu_get_table_flags readonly = pte_p + pte_nx
mmu_get_table_flags readwrite = pte_p + pte_nx + pte_rw
mmu_get_table_flags execute_read = pte_p
mmu_get_table_flags user_readonly = pte_p + pte_nx + pte_us
mmu_get_table_flags user_readwrite = pte_p + pte_nx + (pte_rw + pte_us)
mmu_get_table_flags user_exec_read = pte_p + pte_us
mmu_get_table_flags other = pte_p + pte_nx

pub record Mmu : Type 0 where
  pub frames : Frames
  pub tlb_flushed : List ℕ

-- The word `table[idx]`.
abbrev pub slot : (table idx : ℕ) → ℕ
slot table idx = table + 8 * idx

abbrev pub store : Mmu → (p v : ℕ) → Mmu
store s p v = record s { frames = record (s.frames) { memory = write64 s.frames.memory p v } }

-- A missing table: allocate a frame and enter it. The result 0 is failure.
pub new_table : Mmu → (slot : ℕ) → Option (ℕ × Mmu)
new_table s at = do
  r ← mm_alloc_frame s.frames 1
  let s' = record s { frames = r.1 }
  if r.0 == 0
      then some (0, s')
      else some (r.0, store (store s' at r.0) at (bit_or r.0 (pte_p + pte_rw + pte_us)))

-- One round of the descent: the table that the entry at `slot` leads to, or 0.
pub next_table : Mmu → (slot : ℕ) → (alloc : Bool) → Option (ℕ × Mmu)
unfolding new_table
next_table s at alloc =
    let v = read64 s.frames.memory at in
    if is_present v then some (pte_addr v, s) else if alloc then new_table s at else some (0, s)

-- The descent from a table through the given levels. A present entry that leads to address 0 is
-- followed, as in the source.
pub descend : List MapLevel → Mmu → (table virt_addr : ℕ) → (alloc : Bool) → Option (ℕ × Mmu)
unfolding next_table
descend [] s table virt_addr alloc = some (table, s)
descend (level ∷ levels) s table virt_addr alloc = do
  let at = slot table (mmu_get_level_idx virt_addr level)
  r ← next_table s at alloc
  if is_present (read64 s.frames.memory at)
      then descend levels r.1 r.0 virt_addr alloc
      else if r.0 == 0
      then some (0, r.1)
      else descend levels r.1 r.0 virt_addr alloc

-- The levels that the loop passes on the way down to `level`.
pub levels_above : MapLevel → List MapLevel
levels_above pt = pml4 ∷ pdpt ∷ pd ∷ []
levels_above pd = pml4 ∷ pdpt ∷ []
levels_above pdpt = pml4 ∷ []
levels_above pml4 = []

pub mmu_get_level_phys : Mmu → (cr3 virt_addr : ℕ) → MapLevel → (alloc : Bool) → Option (ℕ × Mmu)
unfolding descend levels_above
mmu_get_level_phys s cr3 virt_addr level alloc = descend (levels_above level) s cr3 virt_addr alloc

abbrev pub flush : Mmu → ℕ → Mmu
flush s v = record s { tlb_flushed = v ∷ s.tlb_flushed }

-- The status and the new state.
unfoldable pub mmu_map_single : Mmu → (cr3 v_base p_base : ℕ) → Prot → Option (ℕ × Mmu)
unfolding mmu_get_level_phys mmu_get_table_flags
mmu_map_single s cr3 v_base p_base prot = do
  let v = align_down v_base page_size
  let p = align_down p_base page_size
  r ← mmu_get_level_phys s cr3 v pt true
  if r.0 == 0
      then some (status_not_mapped, r.1)
      else some (
        status_success,
        flush (store r.1 (slot r.0 (mmu_get_level_idx v pt)) (bit_or p (mmu_get_table_flags prot)))
            v,
      )

unfoldable pub mmu_unmap_single : Mmu → (cr3 v_base : ℕ) → Option (ℕ × Mmu)
unfolding mmu_get_level_phys
mmu_unmap_single s cr3 v_base = do
  let v = align_down v_base page_size
  r ← mmu_get_level_phys s cr3 v pt false
  if r.0 == 0
      then some (status_success, r.1)
      else some (status_success, flush (store r.1 (slot r.0 (mmu_get_level_idx v pt)) 0) v)

-- The loop of `mmuCreateVas`: the lower half is cleared and the upper half copied.
pub fill_pml4 : Frames → (dest src i rounds : ℕ) → Frames
fill_pml4 f dest src i zero = f
fill_pml4 f dest src i (suc rounds) =
    let v = if ltb i 256 then 0 else read64 f.memory (slot src i) in
    fill_pml4 (record f { memory = write64 f.memory (slot dest i) v }) dest src (i + 1) rounds

-- The status, the new address space's `cr3` where there is one, and the new state.
unfoldable pub mmu_create_vas : Mmu → (cr3 : ℕ) → Option (ℕ × Option ℕ × Mmu)
unfolding fill_pml4
mmu_create_vas s cr3 = do
  r ← mm_alloc_frame s.frames 1
  if r.0 == 0
      then some (status_no_memory, none, record s { frames = r.1 })
      else some
          (status_success, some r.0, record s { frames = fill_pml4 r.1 r.0 (pte_addr cr3) 0 512 })

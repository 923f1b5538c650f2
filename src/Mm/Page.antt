-- ===== src/Mm/Page.antt =====
-- Pages: ntos/mm/page.c. `base` is what `keGetKernelBase` returns, the start of the direct mapping of
-- physical memory.
use algae.Base.{
  ℕ, zero, suc, ◌+◌, ◌-◌, ◌/◌, ◌^◌, Bool, true, false, Option, some, ◌==◌, if◌then◌else◌, ◌>>=◌,
  u64, align_up, align_down,
}
use algae.Status.{status_success}
use algae.Mm.Phys.{Frames, page_size, mm_alloc_frame, mm_free_frame}
use algae.Mm.Mmu.{Prot, Mmu, mmu_map_single}

abbrev pub phys_to_virt : (base pa : ℕ) → ℕ
phys_to_virt base pa = u64 (pa + base)

abbrev pub virt_to_phys : (base virt : ℕ) → ℕ
virt_to_phys base virt = u64 (virt + 2 ^ 64 - base)

-- The page's virtual address, 0 for null.
unfoldable pub mm_alloc_page : (base : ℕ) → Frames → (count : ℕ) → Option (ℕ × Frames)
mm_alloc_page base s count = do
  r ← mm_alloc_frame s count
  some (if r.0 == 0 then 0 else phys_to_virt base r.0, r.1)

-- `mmFreePages`: the physical address is computed from the uninitialised `pBase`, which is `stale`.
unfoldable pub mm_free_pages : (base stale : ℕ) → Frames → (virt count : ℕ) → Option Frames
mm_free_pages base stale s virt count =
    if virt == 0 then some s else mm_free_frame s (virt_to_phys base stale) count

-- `MM_REGION`
pub record Region : Type 0 where
  pub p_base : ℕ
  pub v_base : ℕ
  pub byte_count : ℕ

unfoldable pub align_region : Region → Region
align_region r = record {
  p_base = align_down r.p_base page_size;
  v_base = align_down r.v_base page_size;
  byte_count = align_up r.byte_count page_size;
}

-- The loop of `mmMapPages` from offset `off` on, with `rounds` pages left: whether all were mapped.
unfoldable pub map_loop :
    (rounds : ℕ) → Mmu → (cr3 : ℕ) → Region → (off : ℕ) → Prot → Option (Bool × Mmu)
map_loop zero s cr3 r off prot = some (true, s)
map_loop (suc rounds) s cr3 r off prot = do
  m ← mmu_map_single s cr3 (u64 (r.v_base + off)) (u64 (r.p_base + off)) prot
  elim (m.0 == status_success) [
    | true ↦ map_loop rounds m.1 cr3 r (off + page_size) prot
    | false ↦ some (false, m.1)
  ]

-- `mmMapPages` of a region that is not null: the region's address, or 0 for null, the region as it is
-- left, and the new state.
unfoldable pub mm_map_pages : Mmu → (cr3 : ℕ) → Region → Prot → Option (ℕ × Region × Mmu)
unfolding align_region map_loop
mm_map_pages s cr3 region prot = do
  let r = align_region region
  m ← map_loop (r.byte_count / page_size) s cr3 r 0 prot
  some (if m.0 then r.v_base else 0, r, m.1)

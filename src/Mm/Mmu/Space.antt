-- ===== src/Mm/Mmu/Space.antt =====
-- The address space that `mmuCreateVas` of ntos/platform/amd64/cpu/mmu.c makes.
use algae.Base.{
  ℕ, zero, suc, ◌+◌, ◌/◌, ◌^◌, ◌≤◌, ◌<◌, ◌≡◌, ◌≢◌, refl, sym, ap, ◌∙◌, true, some, arith, ltb, inl,
  inr, ne→eqb, lt→ltb, ltb→lt, Bool-cases, if◌then◌else◌,
}
use algae.Status.{status_success}
use algae.Rtl.Memory.{Memory}
use algae.Mm.Words64.{read64, write64, read64-write64, read64-write64_ne}
use algae.Mm.Phys.{Frames, page_size, mm_alloc_frame}
use algae.Mm.Phys.Safety.{IsReady, granted, mm_alloc_frame-IsReady}
use algae.Mm.Mmu.{Mmu, slot, pte_addr, fill_pml4, mmu_create_vas, is_present}
use algae.Mm.Mmu.Walk.{index_at, IsTable}
use algae.Mm.Mmu.Rights.{AllOpen}
use algae.Mm.Mmu.Mapped.{IsSpace}

-- The loop writes memory only.
filled-IsReady :
    (n : ℕ) (f : Frames) (dest src i : ℕ) → IsReady f → IsReady (fill_pml4 f dest src i n)
unfolding fill_pml4
filled-IsReady zero f dest src i h = h
filled-IsReady (suc n) f dest src i h = filled-IsReady n _ dest src (i + 1) (record {
  sound = record { bytes = h.sound.bytes; covers = h.sound.covers; fits = h.sound.fits };
  reserved = h.reserved;
})

filled-IsTable :
    (n : ℕ) (f : Frames) (dest src i t : ℕ) → IsTable f t → IsTable (fill_pml4 f dest src i n) t
unfolding fill_pml4
filled-IsTable zero f dest src i t h = h
filled-IsTable (suc n) f dest src i t h =
    filled-IsTable n _ dest src (i + 1) t
      (record { aligned = h.aligned; used = h.used; not_null = h.not_null })

pub filled_count :
    (n : ℕ) (f : Frames) (dest src i : ℕ)
    → (fill_pml4 f dest src i n).highest_frame_idx ≡ f.highest_frame_idx
unfolding fill_pml4
filled_count zero f dest src i = refl
filled_count (suc n) f dest src i = filled_count n _ dest src (i + 1)

filled_before :
    (n : ℕ) (f : Frames) (dest src i k : ℕ)
    → k < i
    → read64 (fill_pml4 f dest src i n).memory (slot dest k) ≡ read64 f.memory (slot dest k)
unfolding fill_pml4
filled_before zero f dest src i k h = refl
filled_before (suc n) f dest src i k h =
    filled_before n _ dest src (i + 1) k (omega (arith, h))
    ∙ read64-write64_ne f.memory (slot dest i) _ (slot dest k) (inl (omega (arith, h)))

cleared_entry :
    (f : Frames) (dest src i : ℕ)
    → i < 256
    → read64
        (write64 f.memory (slot dest i) (if ltb i 256 then 0 else read64 f.memory (slot src i)))
        (slot dest i)
      ≡ 0
cleared_entry f dest src i h =
    rw (lt→ltb i 256 h) (read64-write64 f.memory (slot dest i) 0 (omega arith))

abbrev one_filled : Frames → (dest src i : ℕ) → Frames
one_filled f dest src i = record f {
  memory = write64 f.memory (slot dest i) (if ltb i 256 then 0 else read64 f.memory (slot src i));
}

-- The lower half is empty.
filled_low :
    (n : ℕ) (f : Frames) (dest src i k : ℕ)
    → i ≤ k
    → k < i + n
    → k < 256
    → read64 (fill_pml4 f dest src i n).memory (slot dest k) ≡ 0
unfolding fill_pml4
filled_low zero f dest src i k above below low = absurd (omega (arith, above, below))
filled_low (suc n) f dest src i k above below low = elim (Bool-cases (ltb i k)) [
  | inl lt ↦
      filled_low n _ dest src (i + 1) k (omega (arith, ltb→lt i k lt)) (omega (arith, below)) low
  | inr ge ↦
      let same : i ≡ k = ground (arith, above, ge) in
      ap (λ j. read64 (fill_pml4 (one_filled f dest src i) dest src (i + 1) n).memory (slot dest j))
        (sym same)
      ∙ filled_before n (one_filled f dest src i) dest src (i + 1) i (omega arith)
      ∙ cleared_entry f dest src i (omega (arith, same, low))
]

granted-IsTable :
    {f f' : Frames} {r : ℕ} → IsReady f → mm_alloc_frame f 1 ≡ some (r, f') → r ≢ 0 → IsTable f' r
granted-IsTable {f} {f'} {r} ready e ne =
    let g = granted 1 (omega arith) ready e ne in
    record {
      aligned = omega (arith, g.address);
      used = ground (arith, g.marked.bits (r / page_size), g.address);
      not_null = ne;
    }

-- What `mmuCreateVas` returns when a frame was granted.
pub mmu_create_vas-granted :
    (s : Mmu) (cr3 r : ℕ) (f : Frames)
    → mm_alloc_frame s.frames 1 ≡ some (r, f)
    → r ≢ 0
    → mmu_create_vas s cr3
      ≡ some (status_success, some r, record s { frames = fill_pml4 f r (pte_addr cr3) 0 512 })
unfolding mmu_create_vas
mmu_create_vas-granted s cr3 r f e ne = rw e rw (ne→eqb r 0 ne) refl

absent_below :
    (m : Memory) (r v : ℕ)
    → read64 m (slot r (index_at 39 v)) ≡ 0
    → ¬ (is_present (read64 m (slot r (index_at 39 v))) ≡ true)
absent_below m r v e h = ground (arith, e, h)

-- The root of a new address space has no entry for an address in the lower half.
new_root-absent :
    (f : Frames) (src r v : ℕ)
    → index_at 39 v < 256
    → ¬ (is_present (read64 (fill_pml4 f r src 0 512).memory (slot r (index_at 39 v))) ≡ true)
new_root-absent f src r v low present =
    absent_below _ r v
      (filled_low 512 f r src 0 (index_at 39 v) (omega arith) (omega (arith, low)) low) present

-- No table of a new address space withholds a right for an address in the lower half.
pub mmu_create_vas-AllOpen :
    (f : Frames) (src r v : ℕ) → index_at 39 v < 256 → AllOpen (fill_pml4 f r src 0 512).memory r v
mmu_create_vas-AllOpen f src r v low = record {
  write = λ present. absurd (new_root-absent f src r v low present);
  user_mode = λ present. absurd (new_root-absent f src r v low present);
  execute = λ present. absurd (new_root-absent f src r v low present);
}

-- A new address space holds no table for an address in the lower half.
pub mmu_create_vas-IsSpace :
    (s : Mmu) (cr3 r : ℕ) (f : Frames) (v : ℕ)
    → IsReady s.frames
    → s.frames.highest_frame_idx ≤ 2 ^ 40
    → mm_alloc_frame s.frames 1 ≡ some (r, f)
    → r ≢ 0
    → index_at 39 v < 256
    → IsSpace (record s { frames = fill_pml4 f r (pte_addr cr3) 0 512 }) r v
mmu_create_vas-IsSpace s cr3 r f v ready narrow e ne low =
    let src = pte_addr cr3 in
    record {
      ready = filled-IsReady 512 f r src 0 (mm_alloc_frame-IsReady 1 (omega arith) ready e);
      narrow = omega (
        arith,
        narrow,
        (granted 1 (omega arith) ready e ne).frame_count,
        filled_count 512 f r src 0,
      );
      root = filled-IsTable 512 f r src 0 r (granted-IsTable ready e ne);
      tables = λ present. absurd (new_root-absent f src r v low present);
    }

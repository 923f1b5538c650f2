-- ===== src/Mm/Mmu/Mapped.antt =====
-- What the processor finds after `mmuMapSingle` and `mmuUnmapSingle`.
use algae.Base.{
  subst, ℕ, ◌+◌, ◌*◌, ◌/◌, ◌^◌, ◌≤◌, ◌<◌, ◌≡◌, ◌≢◌, refl, sym, ap, ◌∙◌, Bool, true, false, none,
  some, [], arith, bit_or, align_down, ◌⊎◌, inl, inr, ne→eqb,
}
use algae.Status.{status_success, status_not_mapped}
use algae.Mm.Words64.{write64, read64-write64}
use algae.Mm.Phys.{page_size}
use algae.Mm.Phys.Scan.{HasRun}
use algae.Mm.Phys.Safety.{IsReady}
use algae.Mm.Mmu.{
  pt, slot, Mmu, Prot, store, flush, levels_above, mmu_get_level_phys, mmu_get_table_flags,
  mmu_map_single, mmu_unmap_single,
}
use algae.Mm.Mmu.Flags.{Maps, writable, user, mmu_get_table_flags-Maps}
use algae.Mm.Mmu.Rights.{
  executable, AllOpen, Allows, Allows-align_down, Allows-Maps, new_table-writable, new_table-user,
  new_table-executable,
}
use algae.Mm.Mmu.Walk.{
  index_at, index_at-lt, table_shifts, translate, IsTable, Tables, SamePage, SamePage-write64,
  translate-some, translate-absent, translate-none, translate-align_down,
}
use algae.Mm.Mmu.Descend.{Descended, mmu_get_level_idx-index_at}
use algae.Mm.Mmu.Descend.Total.{descend_lem}

-- An address space whose tables on the way of `v` are frames in use, each once; frames lie below 2^52.
pub record IsSpace (s : Mmu) (cr3 v : ℕ) : Type 0 where
  pub ready : IsReady s.frames
  pub narrow : s.frames.highest_frame_idx ≤ 2 ^ 40
  pub root : IsTable s.frames cr3
  pub tables : Tables table_shifts s.frames [] cr3 v

module _ (s : Mmu) (cr3 v : ℕ) (space : IsSpace s cr3 v) (alloc : Bool) where
  mmu_get_level_phys_lem :
      (o : ℕ × Mmu) × (mmu_get_level_phys s cr3 v pt alloc ≡ some o)
      × Descended (levels_above pt) s [] cr3 v alloc o
  unfolding mmu_get_level_phys levels_above
  mmu_get_level_phys_lem =
      descend_lem (levels_above pt) s [] cr3 v alloc
        (record {
          ready = space.ready;
          here = space.root;
          apart = tt;
          above = tt;
          narrow = space.narrow;
        })
        space.tables

-- The outcome of `mmuMapSingle`: the processor finds an entry for the frame, and allows what the
-- protection says over all levels of tables; or no two free frames are next to each other, as the allocation of a table asks for.
pub record IsMapped (cr3 v q : ℕ) (prot : Prot) (status : ℕ) (s' : Mmu) : Type 0 where
  pub success : status ≡ status_success
  pub entry : ℕ
  pub found : translate s'.frames.memory cr3 v ≡ some entry
  pub maps : Maps entry q prot
  pub allows : Allows s'.frames.memory cr3 v entry prot

pub record IsExhausted (s : Mmu) (status : ℕ) (s' : Mmu) : Type 0 where
  pub failure : status ≡ status_not_mapped
  pub no_frame : (k : ℕ) → k + 1 < s'.frames.highest_frame_idx → ¬ (HasRun s'.frames.bitmap 1 k)
  pub ready : IsReady s'.frames
  pub frame_count : s'.frames.highest_frame_idx ≡ s.frames.highest_frame_idx

module _ (s : Mmu) (cr3 v_base p_base : ℕ) (prot : Prot) where
  map_found :
      (r : ℕ) (s' : Mmu)
      → mmu_get_level_phys s cr3 (align_down v_base page_size) pt true ≡ some (r, s')
      → r ≢ 0
      → mmu_map_single s cr3 v_base p_base prot
        ≡ some (
          status_success,
          flush
              (store s'
                (slot r (index_at 12 (align_down v_base page_size)))
                (bit_or (align_down p_base page_size) (mmu_get_table_flags prot)))
              (align_down v_base page_size),
        )
  unfolding mmu_map_single
  map_found r s' e ne =
      rw e rw (ne→eqb r 0 ne) rw (mmu_get_level_idx-index_at (align_down v_base page_size) pt) refl

  map_failed :
      (s' : Mmu)
      → mmu_get_level_phys s cr3 (align_down v_base page_size) pt true ≡ some (0, s')
      → mmu_map_single s cr3 v_base p_base prot ≡ some (status_not_mapped, s')
  unfolding mmu_map_single
  map_failed s' e = rw e refl

entry-Maps :
    (p_base : ℕ) (prot : Prot)
    → p_base < 2 ^ 52
    → Maps
        (bit_or (align_down p_base page_size) (mmu_get_table_flags prot))
        (p_base / page_size)
        prot
entry-Maps p_base prot small =
    subst (λ p. Maps (bit_or p (mmu_get_table_flags prot)) (p_base / page_size) prot) (omega arith)
      (mmu_get_table_flags-Maps (p_base / page_size) prot (omega (arith, small)))

map_outcome :
    (s : Mmu) (cr3 v_base p_base : ℕ) (prot : Prot)
    → p_base < 2 ^ 52
    → AllOpen s.frames.memory cr3 (align_down v_base page_size)
    → (r : ℕ) (s' : Mmu)
    → mmu_get_level_phys s cr3 (align_down v_base page_size) pt true ≡ some (r, s')
    → Descended (levels_above pt) s [] cr3 (align_down v_base page_size) true (r, s')
    → (o : ℕ × Mmu) × (mmu_map_single s cr3 v_base p_base prot ≡ some o)
      × (IsMapped cr3 v_base (p_base / page_size) prot o.0 o.1 ⊎ IsExhausted s o.0 o.1)
unfolding levels_above
map_outcome s cr3 v_base p_base prot small opens r s' e (inr stop) = (
  (status_not_mapped, s'),
  map_failed s cr3 v_base p_base prot s' (e ∙ ap (λ x. some (x, s')) stop.null),
  inr (record {
    failure = refl;
    no_frame = stop.no_frame refl;
    ready = stop.ready;
    frame_count = stop.frame_count;
  }),
)
map_outcome s cr3 v_base p_base prot small opens r s' e (inl d) =
    let v = align_down v_base page_size in
    let entry = bit_or (align_down p_base page_size) (mmu_get_table_flags prot) in
    let maps = entry-Maps p_base prot small in
    let at = slot r (index_at 12 v) in
    let m' = write64 s'.frames.memory at entry in
    let others : (q : ℕ) → q ≡ q / page_size * page_size → r ≢ q → SamePage s'.frames.memory m' q =
      λ q aligned apart.
        SamePage-write64 s'.frames.memory r q (index_at 12 v) entry d.found.aligned aligned apart
          (index_at-lt 12 v) in
    (
      (status_success, flush (store s' at entry) v),
      map_found s cr3 v_base p_base prot r s' e d.found.not_null,
      inl (record {
        success = refl;
        entry = entry;
        found =
            sym (translate-align_down m' cr3 v_base)
            ∙ translate-some m' cr3 v r entry (d.walked m' others)
                (read64-write64 s'.frames.memory at entry maps.word) maps.present;
        maps = maps;
        allows = Allows-align_down m' cr3 v_base entry prot (
            Allows-Maps m' cr3 v entry (p_base / page_size) prot maps
              (d.opened writable new_table-writable opens.write m' others)
              (d.opened user new_table-user opens.user_mode m' others)
              (d.opened executable new_table-executable opens.execute m' others));
      }),
    )

-- In an address space whose tables on the way of a virtual address are frames in use, each once, entered
-- writable, for the user and executable, `mmuMapSingle` with a physical address below 2^52 returns. Either
-- it succeeds, the processor's walk for the virtual address finds an entry that leads to the physical
-- address's frame, and the entries of all four levels together allow exactly what the protection says; or it returns STATUS_NOT_MAPPED, no two free frames are next to each other, and the
-- allocator is sound.
pub mmu_map_single-translate :
    (s : Mmu) (cr3 v_base p_base : ℕ) (prot : Prot)
    → IsSpace s cr3 (align_down v_base page_size)
    → AllOpen s.frames.memory cr3 (align_down v_base page_size)
    → p_base < 2 ^ 52
    → (o : ℕ × Mmu) × (mmu_map_single s cr3 v_base p_base prot ≡ some o)
      × (IsMapped cr3 v_base (p_base / page_size) prot o.0 o.1 ⊎ IsExhausted s o.0 o.1)
mmu_map_single-translate s cr3 v_base p_base prot space opens small =
    let (o, e, d) = mmu_get_level_phys_lem s cr3 (align_down v_base page_size) space true in
    map_outcome s cr3 v_base p_base prot small opens o.0 o.1 e d

module _ (s : Mmu) (cr3 v_base : ℕ) where
  unmap_found :
      (r : ℕ) (s' : Mmu)
      → mmu_get_level_phys s cr3 (align_down v_base page_size) pt false ≡ some (r, s')
      → r ≢ 0
      → mmu_unmap_single s cr3 v_base
        ≡ some (
          status_success,
          flush
              (store s' (slot r (index_at 12 (align_down v_base page_size))) 0)
              (align_down v_base page_size),
        )
  unfolding mmu_unmap_single
  unmap_found r s' e ne =
      rw e rw (ne→eqb r 0 ne) rw (mmu_get_level_idx-index_at (align_down v_base page_size) pt) refl

  unmap_absent :
      (s' : Mmu)
      → mmu_get_level_phys s cr3 (align_down v_base page_size) pt false ≡ some (0, s')
      → mmu_unmap_single s cr3 v_base ≡ some (status_success, s')
  unfolding mmu_unmap_single
  unmap_absent s' e = rw e refl

unmap_outcome :
    (s : Mmu) (cr3 v_base r : ℕ) (s' : Mmu)
    → mmu_get_level_phys s cr3 (align_down v_base page_size) pt false ≡ some (r, s')
    → Descended (levels_above pt) s [] cr3 (align_down v_base page_size) false (r, s')
    → (s'' : Mmu) × (mmu_unmap_single s cr3 v_base ≡ some (status_success, s''))
      × (translate s''.frames.memory cr3 v_base ≡ none)
unfolding levels_above
unmap_outcome s cr3 v_base r s' e (inr stop) = (
  s',
  unmap_absent s cr3 v_base s' (e ∙ ap (λ x. some (x, s')) stop.null),
  sym (translate-align_down s'.frames.memory cr3 v_base)
      ∙ ap (λ t. translate t.frames.memory cr3 (align_down v_base page_size)) (stop.absent refl).1
      ∙ translate-none s.frames.memory cr3 (align_down v_base page_size) (stop.absent refl).0,
)
unmap_outcome s cr3 v_base r s' e (inl d) =
    let v = align_down v_base page_size in
    let at = slot r (index_at 12 v) in
    (
      flush (store s' at 0) v,
      unmap_found s cr3 v_base r s' e d.found.not_null,
      sym (translate-align_down (write64 s'.frames.memory at 0) cr3 v_base)
          ∙ translate-absent (write64 s'.frames.memory at 0) cr3 v r
              (d.walked (write64 s'.frames.memory at 0) (λ q aligned apart.
                SamePage-write64 s'.frames.memory r q (index_at 12 v) 0 d.found.aligned aligned
                  apart (index_at-lt 12 v)))
              (read64-write64 s'.frames.memory at 0 (omega arith)),
    )

-- In an address space whose tables on the way of a virtual address are frames in use, each once,
-- `mmuUnmapSingle` returns STATUS_SUCCESS, and the processor's walk for the virtual address finds nothing.
pub mmu_unmap_single-translate :
    (s : Mmu) (cr3 v_base : ℕ)
    → IsSpace s cr3 (align_down v_base page_size)
    → (s'' : Mmu) × (mmu_unmap_single s cr3 v_base ≡ some (status_success, s''))
      × (translate s''.frames.memory cr3 v_base ≡ none)
mmu_unmap_single-translate s cr3 v_base space =
    let (o, e, d) = mmu_get_level_phys_lem s cr3 (align_down v_base page_size) space false in
    unmap_outcome s cr3 v_base o.0 o.1 e d

-- ===== src/Mm/Mmu/Descend/Rounds.antt =====
-- One round of the descent of `mmuGetLevelPhys`.
use algae.Base.{
  ℕ, ◌+◌, ◌*◌, ◌≡◌, ◌≢◌, refl, ap, ◌∙◌, Bool, true, false, some, List, ◌∷◌, arith, All, inl, inr,
}
use algae.Mm.Words64.{read64}
use algae.Mm.Phys.{Frames, page_size, mm_alloc_frame}
use algae.Mm.Phys.Alloc.{Granted}
use algae.Mm.Mmu.{MapLevel, is_present, pte_addr, slot, Mmu}
use algae.Mm.Mmu.Rights.{on_the_way, on_the_way_suc, Opens-empty}
use algae.Mm.Mmu.Walk.{is_large, index_at, index_at-lt, walk, walk-suc, IsTable}
use algae.Mm.Mmu.Descend.{AtTable, Descended, entered, shift_of, shifts_of, table_flags}
use algae.Mm.Mmu.Descend.Entered.{
  All-apart, All-kept, All-still, entered-IsReady, entered-SamePage, entry_addr, entry_present,
  entry_small, new-IsTable, new_entry, new_empty, old-ne-new, still_used,
}

module _ (level : MapLevel) (levels : List MapLevel) (s : Mmu) (seen : List ℕ) (t v : ℕ)
    (alloc : Bool) (a : AtTable s.frames seen t) where
  -- The round that follows a present entry.
  pub Descended-present :
      is_present (read64 s.frames.memory (slot t (index_at (shift_of level) v))) ≡ true
      → is_large (read64 s.frames.memory (slot t (index_at (shift_of level) v))) ≡ false
      → (o : ℕ × Mmu)
      → Descended levels s
          (t ∷ seen)
          (pte_addr (read64 s.frames.memory (slot t (index_at (shift_of level) v))))
          v
          alloc
          o
      → Descended (level ∷ levels) s seen t v alloc o
  Descended-present present small (r, s') (inl d) = inl (record {
    ready = d.ready;
    found = d.found;
    apart = d.apart.1;
    kept = d.kept.1;
    walked = λ m same.
        walk-suc (shift_of level) (shifts_of levels) m t v
          (read64 s.frames.memory (slot t (index_at (shift_of level) v)))
          (same t a.here.aligned d.apart.0 (index_at (shift_of level) v)
              (index_at-lt (shift_of level) v)
            ∙ d.kept.0 (index_at (shift_of level) v) (index_at-lt (shift_of level) v))
          present small
        ∙ d.walked m same;
    opened = λ right new opens m same.
        on_the_way_suc right (shift_of level) (shifts_of levels) m t v
          (read64 s.frames.memory (slot t (index_at (shift_of level) v)))
          (same t a.here.aligned d.apart.0 (index_at (shift_of level) v)
              (index_at-lt (shift_of level) v)
            ∙ d.kept.0 (index_at (shift_of level) v) (index_at-lt (shift_of level) v))
          (opens present).0
        ∙ d.opened right new (opens present).1 m same;
  })
  Descended-present present small (r, s') (inr d) = inr (record {
    null = d.null;
    absent = λ e. (
      walk-suc (shift_of level) (shifts_of levels) s.frames.memory t v
            (read64 s.frames.memory (slot t (index_at (shift_of level) v))) refl present small
          ∙ (d.absent e).0,
      (d.absent e).1,
    );
    no_frame = d.no_frame;
    ready = d.ready;
    frame_count = d.frame_count;
  })

  pub AtTable-below :
      (n : ℕ) → IsTable s.frames n → All (λ q. n ≢ q) (t ∷ seen) → AtTable s.frames (t ∷ seen) n
  AtTable-below n table apart = record {
    ready = a.ready;
    here = table;
    apart = apart;
    above = (a.here, a.above);
    narrow = a.narrow;
  }

module _ (level : MapLevel) (levels : List MapLevel) (s : Mmu) (f : Frames) (seen : List ℕ)
    (t v start : ℕ) (a : AtTable s.frames seen t)
    (e : mm_alloc_frame s.frames 1 ≡ some (start * page_size, f)) (ne : start * page_size ≢ 0)
    (g : Granted s.frames 1 (start * page_size) f) where
  pub AtTable-entered :
      AtTable
        (entered s f (slot t (index_at (shift_of level) v)) (start * page_size)).frames
        (t ∷ seen)
        (start * page_size)
  AtTable-entered =
      let i = index_at (shift_of level) v in
      let hi = index_at-lt (shift_of level) v in
      record {
        ready = entered-IsReady s f t i start hi a.ready a.here e ne g;
        here = new-IsTable s f t i start hi a.ready a.here e ne g;
        apart =
            All-apart (start * page_size) (t ∷ seen)
              (old-ne-new s f t i start hi a.ready a.here e ne g) (a.here, a.above);
        above =
            All-still (t ∷ seen) (still_used s f t i start hi a.ready a.here e ne g)
              (a.here, a.above);
        narrow = rw g.frame_count a.narrow;
      }

  pub Descended-entered :
      (o : ℕ × Mmu)
      → Descended levels
          (entered s f (slot t (index_at (shift_of level) v)) (start * page_size))
          (t ∷ seen)
          (start * page_size)
          v
          true
          o
      → Descended (level ∷ levels) s seen t v true o
  Descended-entered (r, s') (inr d) = inr (record {
    null = d.null;
    absent = λ x. absurd cc;
    no_frame = d.no_frame;
    ready = d.ready;
    frame_count = d.frame_count ∙ g.frame_count;
  })
  Descended-entered (r, s') (inl d) =
      let i = index_at (shift_of level) v in
      let hi = index_at-lt (shift_of level) v in
      let s1 = entered s f (slot t i) (start * page_size) in
      inl (record {
        ready = d.ready;
        found = d.found;
        apart = d.apart.1;
        kept =
            All-kept s.frames.memory s1.frames.memory s'.frames.memory s.frames t seen
              (entered-SamePage s f t i start hi a.ready a.here e ne g) a.above a.apart d.kept.1;
        walked = λ m same.
            walk-suc (shift_of level) (shifts_of levels) m t v (start * page_size + table_flags)
              (same t a.here.aligned d.apart.0 i hi
                ∙ d.kept.0 i hi
                ∙ new_entry s f t i start hi a.ready a.here e ne g)
              (entry_present start) (entry_small start)
            ∙ ap (λ x. walk (shifts_of levels) m x v)
                (entry_addr start (omega (arith, g.inside, a.narrow)))
            ∙ d.walked m same;
        opened = λ right new opens m same.
            on_the_way_suc right (shift_of level) (shifts_of levels) m t v
              (start * page_size + table_flags)
              (same t a.here.aligned d.apart.0 i hi
                ∙ d.kept.0 i hi
                ∙ new_entry s f t i start hi a.ready a.here e ne g)
              (new start (omega (arith, g.inside, a.narrow)))
            ∙ ap (λ x. on_the_way right (shifts_of levels) m x v)
                (entry_addr start (omega (arith, g.inside, a.narrow)))
            ∙ d.opened right new
                (Opens-empty right (shifts_of levels) s1.frames.memory (start * page_size) v
                  (new_empty s f t i start hi a.ready a.here e ne g))
                m same;
      })

-- ===== src/Mm/Mmu/Descend/Total.antt =====
-- The whole descent of `mmuGetLevelPhys`.
use algae.Base.{
  arith, ℕ, ◌*◌, ◌≡◌, ◌≢◌, refl, sym, ap, ◌∙◌, subst, Bool, true, false, some, List, [], ◌∷◌, ◌⊎◌,
  inl, inr, Bool-cases,
}
use algae.Mm.Words64.{read64}
use algae.Mm.Phys.{Frames, page_size, mm_alloc_frame}
use algae.Mm.Phys.Scan.{HasRun}
use algae.Mm.Phys.Alloc.{Granted, Refused, mm_alloc_frame_lem}
use algae.Mm.Phys.Safety.{mm_alloc_frame-IsReady}
use algae.Mm.Mmu.{MapLevel, is_present, pte_addr, slot, Mmu, descend}
use algae.Mm.Mmu.Rights.{on_the_way}
use algae.Mm.Mmu.Walk.{index_at, index_at-lt, walk, walk-absent, Tables}
use algae.Mm.Mmu.Descend.{
  AtTable, Descended, descend-absent, descend-granted, descend-present, descend-refused, entered,
  shift_of, shifts_of,
}
use algae.Mm.Mmu.Descend.Entered.{All-same, Granted-at, Granted-ne-zero, Tables-empty, new_empty}
use algae.Mm.Mmu.Descend.Rounds.{
  AtTable-below, AtTable-entered, Descended-entered, Descended-present,
}

-- What the recursive call has to give where a frame was granted for a new table.
abbrev Deeper : MapLevel → List MapLevel → Mmu → (seen : List ℕ) → (t v : ℕ) → Type 0
Deeper level levels s seen t v =
    (f : Frames) (start : ℕ)
    → mm_alloc_frame s.frames 1 ≡ some (start * page_size, f)
    → start * page_size ≢ 0
    → Granted s.frames 1 (start * page_size) f
    → (o : ℕ × Mmu) × (descend levels
          (entered s f (slot t (index_at (shift_of level) v)) (start * page_size))
          (start * page_size) v true
        ≡ some o)
      × Descended levels (entered s f (slot t (index_at (shift_of level) v)) (start * page_size))
          (t ∷ seen) (start * page_size) v true o

alloc_cases :
    (level : MapLevel) (levels : List MapLevel) (s : Mmu) (seen : List ℕ) (t v : ℕ)
    → AtTable s.frames seen t
    → is_present (read64 s.frames.memory (slot t (index_at (shift_of level) v))) ≡ false
    → Deeper level levels s seen t v
    → (r : ℕ) (f : Frames) → mm_alloc_frame s.frames 1 ≡ some (r, f)
    → Granted s.frames 1 r f ⊎ Refused s.frames 1 r f
    → (o : ℕ × Mmu) × (descend (level ∷ levels) s t v true ≡ some o)
      × Descended (level ∷ levels) s seen t v true o
alloc_cases level levels s seen t v a absent deeper r f e (inl g) =
    let e' : mm_alloc_frame s.frames 1 ≡ some (g.start * page_size, f) =
      e ∙ ap (λ x. some (x, f)) g.address in
    let ne = Granted-ne-zero a.ready g in
    let g' = Granted-at g.address g in
    let (o, d, out) = deeper f g.start e' ne g' in
    (
      o,
      descend-granted level levels s t v f (g.start * page_size) absent e' ne ∙ d,
      Descended-entered level levels s f seen t v g.start a e' ne g' o out,
    )
alloc_cases level levels s seen t v a absent deeper r f e (inr h) = (
  (0, record s { frames = f }),
  descend-refused level levels s t v f absent (e ∙ ap (λ x. some (x, f)) h.null),
  inr (record {
    null = refl;
    absent = λ x. absurd cc;
    no_frame = λ x k inside run.
        h.no_run k (rw (sym h.frame_count) inside) (subst (λ m. HasRun m 1 k) h.bitmap run);
    ready = mm_alloc_frame-IsReady 1 (omega arith) a.ready e;
    frame_count = h.frame_count;
  }),
)

absent_cases :
    (level : MapLevel) (levels : List MapLevel) (s : Mmu) (seen : List ℕ) (t v : ℕ) (alloc : Bool)
    → AtTable s.frames seen t
    → is_present (read64 s.frames.memory (slot t (index_at (shift_of level) v))) ≡ false
    → Deeper level levels s seen t v
    → (o : ℕ × Mmu) × (descend (level ∷ levels) s t v alloc ≡ some o)
      × Descended (level ∷ levels) s seen t v alloc o
absent_cases level levels s seen t v false a absent deeper = (
  (0, s),
  descend-absent level levels s t v absent,
  inr (record {
    null = refl;
    absent =
        λ x. (walk-absent (shift_of level) (shifts_of levels) s.frames.memory t v absent, refl);
    no_frame = λ x. absurd cc;
    ready = a.ready;
    frame_count = refl;
  }),
)
absent_cases level levels s seen t v true a absent deeper =
    let (o, e, out) = mm_alloc_frame_lem s.frames 1 (omega arith) a.ready.sound a.ready.reserved in
    alloc_cases level levels s seen t v a absent deeper o.0 o.1 e out

-- The descent from a table in use through tables in use always returns, with a table as the processor's
-- walk finds it, or with 0.
pub descend_lem :
    (levels : List MapLevel) (s : Mmu) (seen : List ℕ) (t v : ℕ) (alloc : Bool)
    → AtTable s.frames seen t
    → Tables (shifts_of levels) s.frames seen t v
    → (o : ℕ × Mmu) × (descend levels s t v alloc ≡ some o) × Descended levels s seen t v alloc o
unfolding descend walk on_the_way
descend_lem [] s seen t v alloc a h = (
  (t, s),
  refl,
  inl (record {
    ready = a.ready;
    found = a.here;
    apart = a.apart;
    kept = All-same s.frames.memory seen;
    walked = λ m same. refl;
    opened = λ right new opens m same. refl;
  }),
)
descend_lem (level ∷ levels) s seen t v alloc a h =
    elim (Bool-cases (is_present (read64 s.frames.memory (slot t (index_at (shift_of level) v))))) [
      | inl present ↦
          let n = pte_addr (read64 s.frames.memory (slot t (index_at (shift_of level) v))) in
          let (small, table, apart, deeper) = h present in
          let (o, e, d) =
            descend_lem levels s (t ∷ seen) n v alloc
              (AtTable-below level levels s seen t v alloc a n table apart) deeper in
          (
            o,
            descend-present level levels s t v alloc
                  (read64 s.frames.memory (slot t (index_at (shift_of level) v))) refl present
                ∙ e,
            Descended-present level levels s seen t v alloc a present small o d,
          )
      | inr absent ↦ absent_cases level levels s seen t v alloc a absent (λ f start e ne g.
          descend_lem levels
            (entered s f (slot t (index_at (shift_of level) v)) (start * page_size)) (t ∷ seen)
            (start * page_size) v true (AtTable-entered level levels s f seen t v start a e ne g)
            (Tables-empty (shifts_of levels)
              (entered s f (slot t (index_at (shift_of level) v)) (start * page_size)).frames
              (t ∷ seen) (start * page_size) v
              (new_empty s f t (index_at (shift_of level) v) start (index_at-lt (shift_of level) v)
                a.ready a.here e ne g)))
    ]

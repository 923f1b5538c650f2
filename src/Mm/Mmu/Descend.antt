-- ===== src/Mm/Mmu/Descend.antt =====
-- The descent of `mmuGetLevelPhys`, against the processor's walk.
pub mod Entered
pub mod Rounds
pub mod Total
use algae.Base.{
  ℕ, ◌+◌, ◌*◌, ◌/◌, ◌^◌, ◌≤◌, ◌<◌, ◌≡◌, ◌≢◌, refl, sym, ap, ◌∙◌, subst, Bool, true, false, Option,
  none, some, List, [], ◌∷◌, arith, bit_or, bit_or_field, All, ◌⊎◌, inl, inr, Bool-cases, ne→eqb,
}
use algae.Bitmap.{test_bit}
use algae.Rtl.Memory.{Memory}
use algae.Mm.Words64.{read64, write64, read64-write64}
use algae.Mm.Phys.{Frames, page_size, mm_alloc_frame}
use algae.Mm.Phys.Scan.{HasRun}
use algae.Mm.Phys.Alloc.{Granted, Refused, mm_alloc_frame_lem}
use algae.Mm.Phys.Safety.{IsReady, mm_alloc_frame-IsReady}
use algae.Mm.Mmu.{
  MapLevel, pt, pd, pdpt, pml4, mmu_get_level_idx, is_present, pte_addr, slot, Mmu, store,
  new_table, next_table, descend, pte_p, pte_rw, pte_us,
}
use algae.Mm.Mmu.Rights.{on_the_way, Opens}
use algae.Mm.Mmu.Walk.{
  is_large, index_at, index_at-lt, walk, walk-suc, walk-absent, IsTable, Tables, SamePage,
  SamePage-write64, SamePage-zeroed, zeroed_word,
}

abbrev pub shift_of : MapLevel → ℕ
shift_of pt = 12
shift_of pd = 21
shift_of pdpt = 30
shift_of pml4 = 39

abbrev pub shifts_of : List MapLevel → List ℕ
shifts_of [] = []
shifts_of (level ∷ levels) = shift_of level ∷ shifts_of levels

pub mmu_get_level_idx-index_at :
    (v : ℕ) (level : MapLevel) → mmu_get_level_idx v level ≡ index_at (shift_of level) v
unfolding mmu_get_level_idx
mmu_get_level_idx-index_at v pt = refl
mmu_get_level_idx-index_at v pd = refl
mmu_get_level_idx-index_at v pdpt = refl
mmu_get_level_idx-index_at v pml4 = refl

-- The descent ends in the table `r`: the processor's walk gets there too, also in a memory that
-- differs in the words of `r` only, through entries with any right that the present ones and those of new
-- tables have, and the frames of `seen` keep their words.
pub record Reached (levels : List MapLevel) (s : Mmu) (seen : List ℕ) (table v r : ℕ) (s' : Mmu)
    : Type 0 where
  pub ready : IsReady s'.frames
  pub found : IsTable s'.frames r
  pub apart : All (λ q. r ≢ q) seen
  pub kept : All (SamePage s.frames.memory s'.frames.memory) seen
  pub walked :
      (m : Memory)
      → ((q : ℕ) → q ≡ q / page_size * page_size → r ≢ q → SamePage s'.frames.memory m q)
      → walk (shifts_of levels) m table v ≡ some r
  pub opened :
      (right : ℕ → Bool)
      → ((k : ℕ) → k < 2 ^ 40 → right (k * page_size + (pte_p + pte_rw + pte_us)) ≡ true)
      → Opens right (shifts_of levels) s.frames.memory table v
      → (m : Memory)
      → ((q : ℕ) → q ≡ q / page_size * page_size → r ≢ q → SamePage s'.frames.memory m q)
      → on_the_way right (shifts_of levels) m table v ≡ true

-- The descent ends without a table: no frame is free, or the walk fails and nothing was allocated.
pub record Stopped (levels : List MapLevel) (s : Mmu) (table v : ℕ) (alloc : Bool) (r : ℕ)
    (s' : Mmu) : Type 0 where
  pub null : r ≡ 0
  pub absent : alloc ≡ false → (walk (shifts_of levels) s.frames.memory table v ≡ none) × (s' ≡ s)
  pub no_frame :
      alloc ≡ true → (k : ℕ) → k + 1 < s'.frames.highest_frame_idx → ¬ (HasRun s'.frames.bitmap 1 k)
  pub ready : IsReady s'.frames
  pub frame_count : s'.frames.highest_frame_idx ≡ s.frames.highest_frame_idx

abbrev pub Descended :
    List MapLevel → Mmu → (seen : List ℕ) → (table v : ℕ) → (alloc : Bool) → ℕ × Mmu → Type 0
Descended levels s seen table v alloc (r, s') =
    Reached levels s seen table v r s' ⊎ Stopped levels s table v alloc r s'

-- The flags of the entry for a new table.
abbrev pub table_flags : ℕ
table_flags = pte_p + pte_rw + pte_us

-- The frame `r` is entered as a table at `at`.
abbrev pub entered : Mmu → Frames → (at r : ℕ) → Mmu
entered s f at r = store (store (record s { frames = f }) at r) at (bit_or r table_flags)

module _ (level : MapLevel) (levels : List MapLevel) (s : Mmu) (t v : ℕ) where
  pub descend-present :
      (alloc : Bool) (e : ℕ)
      → read64 s.frames.memory (slot t (index_at (shift_of level) v)) ≡ e
      → is_present e ≡ true
      → descend (level ∷ levels) s t v alloc ≡ descend levels s (pte_addr e) v alloc
  unfolding descend next_table
  descend-present alloc e at present = rw (mmu_get_level_idx-index_at v level) rw at rw present refl

  pub descend-absent :
      is_present (read64 s.frames.memory (slot t (index_at (shift_of level) v))) ≡ false
      → descend (level ∷ levels) s t v false ≡ some (0, s)
  unfolding descend next_table
  descend-absent absent = rw (mmu_get_level_idx-index_at v level) rw absent refl

  pub descend-refused :
      (f : Frames)
      → is_present (read64 s.frames.memory (slot t (index_at (shift_of level) v))) ≡ false
      → mm_alloc_frame s.frames 1 ≡ some (0, f)
      → descend (level ∷ levels) s t v true ≡ some (0, record s { frames = f })
  unfolding descend next_table new_table
  descend-refused f absent e = rw (mmu_get_level_idx-index_at v level) rw absent rw e refl

  pub descend-granted :
      (f : Frames) (r : ℕ)
      → is_present (read64 s.frames.memory (slot t (index_at (shift_of level) v))) ≡ false
      → mm_alloc_frame s.frames 1 ≡ some (r, f)
      → r ≢ 0
      → descend (level ∷ levels) s t v true
        ≡ descend levels (entered s f (slot t (index_at (shift_of level) v)) r) r v true
  unfolding descend next_table new_table
  descend-granted f r absent e ne =
      rw (mmu_get_level_idx-index_at v level) rw absent rw e rw (ne→eqb r 0 ne) rw (ne→eqb r 0 ne)
        refl

-- What the loop holds at a table `t` below the tables of `seen`.
pub record AtTable (f : Frames) (seen : List ℕ) (t : ℕ) : Type 0 where
  pub ready : IsReady f
  pub here : IsTable f t
  pub apart : All (λ q. t ≢ q) seen
  pub above : All (IsTable f) seen
  pub narrow : f.highest_frame_idx ≤ 2 ^ 40

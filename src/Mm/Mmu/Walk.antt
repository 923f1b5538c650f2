-- ===== src/Mm/Mmu/Walk.antt =====
-- The processor's walk of the page tables, and the memory that it depends on.
use algae.Base.{
  ℕ, ◌+◌, ◌*◌, ◌/◌, ◌%◌, ◌^◌, ◌<◌, ◌≡◌, ◌≢◌, refl, sym, ap, ◌∙◌, Bool, true, false, Option, none,
  some, List, [], ◌∷◌, arith, ◌==◌, if◌then◌else◌, All, ◌&&◌, not, align_down,
}
use algae.Bitmap.{test_bit}
use algae.Rtl.Memory.{Memory, in_range}
use algae.Mm.Words64.{read64, write64, read64-write64_ne}
use algae.Mm.Phys.{Frames, page_size}
use algae.Mm.Mmu.{is_present, pte_addr, slot}

-- An entry with bit 7 set maps a large page and leads to no table.
abbrev pub is_large : ℕ → Bool
is_large v = v / 2 ^ 7 % 2 == 1

-- The position in the address of the index into each table, from the top; behind them stands 12.
abbrev pub table_shifts : List ℕ
table_shifts = 39 ∷ 30 ∷ 21 ∷ []

abbrev pub index_at : (shift v : ℕ) → ℕ
index_at shift v = v / 2 ^ shift % 512

-- The walk through present entries for the address `v`: the table that it ends in.
unfoldable pub walk : List ℕ → Memory → (table v : ℕ) → Option ℕ
walk [] m table v = some table
walk (shift ∷ shifts) m table v =
    let e = read64 m (slot table (index_at shift v)) in
    let rest = walk shifts m (pte_addr e) v in
    if is_present e && not (is_large e) then rest else none

leaf : Memory → (v : ℕ) → Option ℕ → Option ℕ
leaf m v none = none
leaf m v (some table) =
    let e = read64 m (slot table (index_at 12 v)) in if is_present e then some e else none

leaf_same :
    (m : Memory) (v v' : ℕ) (o : Option ℕ)
    → index_at 12 v ≡ index_at 12 v'
    → leaf m v o ≡ leaf m v' o
unfolding leaf
leaf_same m v v' none h = refl
leaf_same m v v' (some t) h = rw h refl

-- The entry for the page that the processor finds for the address `v`. Whether it allows an access is
-- also up to the entries above: `on_the_way` of Mm.Mmu.Rights.
unfoldable pub translate : Memory → (cr3 v : ℕ) → Option ℕ
unfolding walk leaf
translate m cr3 v = leaf m v (walk table_shifts m cr3 v)

-- A frame that is in use.
pub record IsTable (f : Frames) (t : ℕ) : Type 0 where
  pub aligned : t ≡ t / page_size * page_size
  pub used : test_bit f.bitmap (t / page_size) ≡ some true
  pub not_null : t ≢ 0

-- The tables that present entries lead to on the way of `v`, down from `table`, are frames in use, none
-- of them a table above it.
abbrev pub Tables : List ℕ → Frames → (seen : List ℕ) → (table v : ℕ) → Type 0
Tables [] f seen table v = Unit
Tables (shift ∷ shifts) f seen table v =
    let e = read64 f.memory (slot table (index_at shift v)) in
    is_present e ≡ true
    → (is_large e ≡ false)
      × IsTable f (pte_addr e)
      × All (λ q. pte_addr e ≢ q) (table ∷ seen)
      × Tables shifts f (table ∷ seen) (pte_addr e) v

-- The words of the frame at `q` are the same.
abbrev pub SamePage : (m m' : Memory) (q : ℕ) → Type 0
SamePage m m' q = (i : ℕ) → i < 512 → read64 m' (slot q i) ≡ read64 m (slot q i)

pub index_at-lt : (shift v : ℕ) → index_at shift v < 512
index_at-lt shift v = omega arith

-- A word that is written in one frame leaves the words of another frame.
pub SamePage-write64 :
    (m : Memory) (t q k v : ℕ)
    → t ≡ t / page_size * page_size
    → q ≡ q / page_size * page_size
    → t ≢ q
    → k < 512
    → SamePage m (write64 m (slot t k) v) q
SamePage-write64 m t q k v ht hq ne hk i hi =
    read64-write64_ne m (slot t k) v (slot q i) (ground (arith, ht, hq, ne, hk, hi))

plus_zero : (p : ℕ) → p + 0 ≡ p
plus_zero p = omega arith

pub read64_same :
    (m m' : Memory) (p : ℕ) → ((j : ℕ) → j < 8 → m' (p + j) ≡ m (p + j)) → read64 m' p ≡ read64 m p
unfolding read64
read64_same m m' p h = omega (
  arith,
  ap m' (sym (plus_zero p)) ∙ h 0 (omega arith) ∙ ap m (plus_zero p),
  h 1 (omega arith),
  h 2 (omega arith),
  h 3 (omega arith),
  h 4 (omega arith),
  h 5 (omega arith),
  h 6 (omega arith),
  h 7 (omega arith),
)

pub read64_zero : (m : Memory) (p : ℕ) → ((j : ℕ) → j < 8 → m (p + j) ≡ 0) → read64 m p ≡ 0
unfolding read64
read64_zero m p h = omega (
  arith,
  ap m (sym (plus_zero p)) ∙ h 0 (omega arith),
  h 1 (omega arith),
  h 2 (omega arith),
  h 3 (omega arith),
  h 4 (omega arith),
  h 5 (omega arith),
  h 6 (omega arith),
  h 7 (omega arith),
)

-- A frame that is zeroed holds zeros and leaves the words of another frame.
module _ (m m' : Memory) (r : ℕ)
    (zeroed : (p : ℕ) → m' p ≡ (if in_range r (1 * page_size) p then 0 else m p))
    (hr : r ≡ r / page_size * page_size) where
  pub SamePage-zeroed : (q : ℕ) → q ≡ q / page_size * page_size → r ≢ q → SamePage m m' q
  SamePage-zeroed q hq ne i hi =
      read64_same m m' (slot q i)
        (λ j hj. ground (arith, zeroed (slot q i + j), hq, hr, ne, hi, hj))

  pub zeroed_word : (i : ℕ) → i < 512 → read64 m' (slot r i) ≡ 0
  zeroed_word i hi =
      read64_zero m' (slot r i) (λ j hj. ground (arith, zeroed (slot r i + j), hi, hj))

-- One round of the walk.
pub walk-suc :
    (shift : ℕ) (shifts : List ℕ) (m : Memory) (table v e : ℕ)
    → read64 m (slot table (index_at shift v)) ≡ e
    → is_present e ≡ true
    → is_large e ≡ false
    → walk (shift ∷ shifts) m table v ≡ walk shifts m (pte_addr e) v
unfolding walk
walk-suc shift shifts m table v e at present small = rw at rw present rw small refl

pub walk-absent :
    (shift : ℕ) (shifts : List ℕ) (m : Memory) (table v : ℕ)
    → is_present (read64 m (slot table (index_at shift v))) ≡ false
    → walk (shift ∷ shifts) m table v ≡ none
unfolding walk
walk-absent shift shifts m table v absent = rw absent refl

pub translate-some :
    (m : Memory) (cr3 v r e : ℕ)
    → walk table_shifts m cr3 v ≡ some r
    → read64 m (slot r (index_at 12 v)) ≡ e
    → is_present e ≡ true
    → translate m cr3 v ≡ some e
unfolding translate leaf
translate-some m cr3 v r e found at present = rw found rw at rw present refl

pub translate-absent :
    (m : Memory) (cr3 v r : ℕ)
    → walk table_shifts m cr3 v ≡ some r
    → read64 m (slot r (index_at 12 v)) ≡ 0
    → translate m cr3 v ≡ none
unfolding translate leaf
translate-absent m cr3 v r found at = rw found rw at refl

pub translate-none :
    (m : Memory) (cr3 v : ℕ) → walk table_shifts m cr3 v ≡ none → translate m cr3 v ≡ none
unfolding translate leaf
translate-none m cr3 v lost = rw lost refl

walk_same :
    (shifts : List ℕ) (m : Memory) (t v v' : ℕ)
    → All (λ shift. index_at shift v ≡ index_at shift v') shifts
    → walk shifts m t v ≡ walk shifts m t v'
unfolding walk
walk_same [] m t v v' h = refl
walk_same (shift ∷ shifts) m t v v' h =
    rw h.0 rw (walk_same shifts m (pte_addr (read64 m (slot t (index_at shift v')))) v v' h.1) refl

-- The walk does not look at the offset in the page.
pub translate-align_down :
    (m : Memory) (cr3 v : ℕ) → translate m cr3 (align_down v page_size) ≡ translate m cr3 v
unfolding translate
translate-align_down m cr3 v =
    rw
      (walk_same table_shifts m cr3 (align_down v page_size) v
        (omega arith, (omega arith, (omega arith, tt))))
      (leaf_same m (align_down v page_size) v (walk table_shifts m cr3 v) (omega arith))

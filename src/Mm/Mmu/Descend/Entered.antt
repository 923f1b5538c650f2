-- ===== src/Mm/Mmu/Descend/Entered.antt =====
-- A new table that the descent of `mmuGetLevelPhys` enters.
use algae.Base.{
  ℕ, ◌+◌, ◌*◌, ◌/◌, ◌^◌, ◌<◌, ◌≡◌, ◌≢◌, refl, sym, ap, ◌∙◌, subst, Bool, true, false, Option, some,
  List, [], ◌∷◌, arith, bit_or, bit_or_field, All,
}
use algae.Bitmap.{test_bit}
use algae.Rtl.Memory.{Memory}
use algae.Mm.Words64.{read64, write64, read64-write64}
use algae.Mm.Phys.{Frames, page_size, mm_alloc_frame}
use algae.Mm.Phys.Alloc.{Granted}
use algae.Mm.Phys.Safety.{IsReady, mm_alloc_frame-IsReady}
use algae.Mm.Mmu.{is_present, pte_addr, slot, Mmu}
use algae.Mm.Mmu.Walk.{
  is_large, index_at, index_at-lt, IsTable, Tables, SamePage, SamePage-write64, SamePage-zeroed,
  zeroed_word,
}
use algae.Mm.Mmu.Descend.{entered, table_flags}

some-false-true : ¬ ◌≡◌ {A = Option Bool} (some false) (some true)
some-false-true e = cc

-- The new table's frame.
module _ (s : Mmu) (f : Frames) (t i start : ℕ) (hi : i < 512) (ready : IsReady s.frames)
    (here : IsTable s.frames t) (e : mm_alloc_frame s.frames 1 ≡ some (start * page_size, f))
    (ne : start * page_size ≢ 0) (g : Granted s.frames 1 (start * page_size) f) where
  r_page : start * page_size / page_size ≡ start
  r_page = omega arith

  not_used_before : test_bit s.frames.bitmap start ≡ some false
  not_used_before = ground (arith, g.address, g.free_before start)

  pub old-ne-new : (q : ℕ) → IsTable s.frames q → start * page_size ≢ q
  old-ne-new q h e' = some-false-true (
      sym not_used_before
      ∙ ap (λ k. test_bit s.frames.bitmap k) (sym r_page ∙ ap (λ k. k / page_size) e')
      ∙ h.used)

  pub still_used :
      (q : ℕ) → IsTable s.frames q → IsTable (entered s f (slot t i) (start * page_size)).frames q
  still_used q h = record {
    aligned = h.aligned;
    used = ground (arith, g.marked.bits (q / page_size), h.used);
    not_null = h.not_null;
  }

  pub new-IsTable : IsTable (entered s f (slot t i) (start * page_size)).frames (start * page_size)
  new-IsTable = record {
    aligned = omega arith;
    used = ground (arith, g.marked.bits (start * page_size / page_size), g.address);
    not_null = ne;
  }

  pub entered-IsReady : IsReady (entered s f (slot t i) (start * page_size)).frames
  entered-IsReady =
      let h = mm_alloc_frame-IsReady 1 (omega arith) ready e in
      record {
        sound = record { bytes = h.sound.bytes; covers = h.sound.covers; fits = h.sound.fits };
        reserved = h.reserved;
      }

  write_apart :
      (m : Memory) (w q : ℕ)
      → q ≡ q / page_size * page_size
      → t ≢ q
      → SamePage m (write64 m (slot t i) w) q
  write_apart m w q hq other = SamePage-write64 m t q i w here.aligned hq other hi

  pub entered-SamePage :
      (q : ℕ)
      → IsTable s.frames q
      → t ≢ q
      → SamePage s.frames.memory (entered s f (slot t i) (start * page_size)).frames.memory q
  entered-SamePage q h other k hk =
      write_apart (write64 f.memory (slot t i) (start * page_size))
        (bit_or (start * page_size) table_flags) q h.aligned other k hk
      ∙ write_apart f.memory (start * page_size) q h.aligned other k hk
      ∙ SamePage-zeroed s.frames.memory f.memory (start * page_size) g.zeroed (omega arith) q
          h.aligned (old-ne-new q h) k hk

  flags_added : bit_or (start * page_size) table_flags ≡ start * page_size + table_flags
  flags_added = bit_or_field 12 start table_flags (omega arith)

  pub new_entry :
      read64 (entered s f (slot t i) (start * page_size)).frames.memory (slot t i)
      ≡ start * page_size + table_flags
  new_entry =
      read64-write64 (write64 f.memory (slot t i) (start * page_size)) (slot t i)
        (bit_or (start * page_size) table_flags)
        (rw flags_added (omega (arith, g.inside, ready.sound.fits)))
      ∙ flags_added

  pub new_empty :
      (k : ℕ)
      → k < 512
      → read64
          (entered s f (slot t i) (start * page_size)).frames.memory
          (slot (start * page_size) k)
        ≡ 0
  new_empty k hk =
      let apart : t ≢ start * page_size = λ x. old-ne-new t here (sym x) in
      write_apart (write64 f.memory (slot t i) (start * page_size))
        (bit_or (start * page_size) table_flags) (start * page_size) (omega arith) apart k hk
      ∙ write_apart f.memory (start * page_size) (start * page_size) (omega arith) apart k hk
      ∙ zeroed_word s.frames.memory f.memory (start * page_size) g.zeroed (omega arith) k hk

some-inj : {a b : Bool} → some a ≡ some b → a ≡ b
some-inj e = cc

pub Granted-at :
    {f f' : Frames} {count r k : ℕ} → r ≡ k → Granted f count r f' → Granted f count k f'
Granted-at {f} {f'} {count} e g = subst (λ r. Granted f count r f') e g

-- A table's frame that is granted is not frame 0.
pub Granted-ne-zero :
    {f f' : Frames} {r : ℕ} → IsReady f → (g : Granted f 1 r f') → g.start * page_size ≢ 0
Granted-ne-zero ready g = ground (arith, g.free_before 0, ready.reserved)

pub All-kept :
    (m m' m'' : Memory) (f : Frames) (t : ℕ) (seen : List ℕ)
    → ((q : ℕ) → IsTable f q → t ≢ q → SamePage m m' q)
    → All (IsTable f) seen
    → All (λ q. t ≢ q) seen
    → All (SamePage m' m'') seen
    → All (SamePage m m'') seen
All-kept m m' m'' f t [] h above apart kept = kept
All-kept m m' m'' f t (q ∷ seen) h above apart kept = (
  λ i hi. kept.0 i hi ∙ h q above.0 apart.0 i hi,
  All-kept m m' m'' f t seen h above.1 apart.1 kept.1,
)

pub All-still :
    {f f' : Frames} (seen : List ℕ)
    → ((q : ℕ) → IsTable f q → IsTable f' q)
    → All (IsTable f) seen
    → All (IsTable f') seen
All-still [] h above = above
All-still (q ∷ seen) h above = (h q above.0, All-still seen h above.1)

pub All-apart :
    {f : Frames} (r : ℕ) (seen : List ℕ)
    → ((q : ℕ) → IsTable f q → r ≢ q)
    → All (IsTable f) seen
    → All (λ q. r ≢ q) seen
All-apart r [] h above = above
All-apart r (q ∷ seen) h above = (h q above.0, All-apart r seen h above.1)

pub All-same : (m : Memory) (seen : List ℕ) → All (SamePage m m) seen
All-same m [] = tt
All-same m (q ∷ seen) = (λ i hi. refl, All-same m seen)

zero_absent : (e : ℕ) → e ≡ 0 → ¬ (is_present e ≡ true)
zero_absent e z present = ground (arith, z, present)

-- A fresh table has no present entry, so nothing is asked of the tables below it.
pub Tables-empty :
    (shifts : List ℕ) (f : Frames) (seen : List ℕ) (r v : ℕ)
    → ((k : ℕ) → k < 512 → read64 f.memory (slot r k) ≡ 0)
    → Tables shifts f seen r v
Tables-empty [] f seen r v h = tt
Tables-empty (shift ∷ shifts) f seen r v h = λ present. absurd (
    zero_absent (read64 f.memory (slot r (index_at shift v)))
      (h (index_at shift v) (index_at-lt shift v)) present)

pub entry_present : (k : ℕ) → is_present (k * page_size + table_flags) ≡ true
entry_present k = ground arith

pub entry_small : (k : ℕ) → is_large (k * page_size + table_flags) ≡ false
entry_small k = ground arith

pub entry_addr : (k : ℕ) → k < 2 ^ 40 → pte_addr (k * page_size + table_flags) ≡ k * page_size
entry_addr k h = omega (arith, h)

-- The round that enters a new table.

-- ===== src/Ex/Box/Release.antt =====
-- What `exBoxRelease` of the heap memory leaves in a box.
use algae.Base.{
  ℕ, suc, ◌+◌, ◌-◌, ◌^◌, ◌≤◌, ◌<◌, ◌≡◌, ◌≢◌, refl, sym, ap, ◌∙◌, true, false, Option, some, List,
  [], ◌∷◌, ◌++◌, arith, All, u64, if◌then◌else◌, ne→eqb, Bool-cases, inl, inr, append_assoc,
}
use algae.Ex.Box.{
  PtrboxType, ptrbox_pages, ptrbox_heap, ptrbox_any, ptrbox_magic, PtrboxElement, Boxed, same_type,
  remove_element, free_memory, box_free_single, release_loop, ex_box_release,
}

-- The elements that are not of the heap.
unfoldable pub others : List PtrboxElement → List PtrboxElement
others [] = []
others (e ∷ es) = let rest = others es in if same_type e.type ptrbox_heap then rest else e ∷ rest

unfoldable pub heap_count : List PtrboxElement → ℕ
heap_count [] = 0
heap_count (e ∷ es) =
    let rest = heap_count es in if same_type e.type ptrbox_heap then suc rest else rest

-- What the pool gets back, the last first: for each element of the heap its memory, then its descriptor.
unfoldable pub given_back : List PtrboxElement → (freed : List ℕ) → List ℕ
given_back [] freed = freed
given_back (e ∷ es) freed =
    if same_type e.type ptrbox_heap
    then given_back es (e.self ∷ e.address ∷ freed)
    else given_back es freed

-- No element is corrupted, and no two have the same descriptor.
abbrev pub AreIntact : List PtrboxElement → Type 0
AreIntact [] = Unit
AreIntact (e ∷ es) = (e.magic ≡ ptrbox_magic) × All (λ x. x.self ≢ e.self) es × AreIntact es

remove_element_first :
    (pre : List PtrboxElement) (e : PtrboxElement) (es : List PtrboxElement)
    → All (λ x. e.self ≢ x.self) pre
    → remove_element (pre ++ e ∷ es) e.self ≡ pre ++ es
unfolding remove_element
remove_element_first [] e es h = ground arith
remove_element_first (x ∷ pre) e es h =
    rw (ne→eqb x.self e.self (λ same. h.0 (sym same))) rw (remove_element_first pre e es h.1) refl

same_type-heap : (t : PtrboxType) → same_type t ptrbox_heap ≡ true → t ≡ ptrbox_heap
same_type-heap ptrbox_pages h = cc
same_type-heap ptrbox_heap h = refl
same_type-heap ptrbox_any h = cc

-- The descriptors of the elements `es` are not among those of `pre`.
abbrev pub AreNew : (pre es : List PtrboxElement) → Type 0
AreNew pre es = All (λ e. All (λ x. e.self ≢ x.self) pre) es

all_snoc :
    (pre : List PtrboxElement) (a : ℕ) (e : PtrboxElement)
    → All (λ x. a ≢ x.self) pre
    → a ≢ e.self
    → All (λ x. a ≢ x.self) (pre ++ e ∷ [])
all_snoc [] a e h ne = (ne, tt)
all_snoc (x ∷ pre) a e h ne = (h.0, all_snoc pre a e h.1 ne)

AreNew-snoc :
    (pre : List PtrboxElement) (e : PtrboxElement) (es : List PtrboxElement)
    → AreNew pre es
    → All (λ x. x.self ≢ e.self) es
    → AreNew (pre ++ e ∷ []) es
AreNew-snoc pre e [] h apart = tt
AreNew-snoc pre e (x ∷ es) h apart =
    (all_snoc pre (x.self) e h.0 apart.0, AreNew-snoc pre e es h.1 apart.1)

none_counted : heap_count [] ≡ 0
unfolding heap_count
none_counted = refl

none_other : others [] ≡ []
unfolding others
none_other = refl

none_back : (freed : List ℕ) → given_back [] freed ≡ freed
unfolding given_back
none_back freed = refl

module _ (e : PtrboxElement) (es : List PtrboxElement) (freed : List ℕ) where
  heap_step :
      same_type e.type ptrbox_heap ≡ true
      → (heap_count (e ∷ es) ≡ suc (heap_count es))
        × (others (e ∷ es) ≡ others es)
        × (given_back (e ∷ es) freed ≡ given_back es (e.self ∷ e.address ∷ freed))
  unfolding heap_count others given_back
  heap_step heap = (rw heap refl, rw heap refl, rw heap refl)

  other_step :
      same_type e.type ptrbox_heap ≡ false
      → (heap_count (e ∷ es) ≡ heap_count es)
        × (others (e ∷ es) ≡ e ∷ others es)
        × (given_back (e ∷ es) freed ≡ given_back es freed)
  unfolding heap_count others given_back
  other_step other = (rw other refl, rw other refl, rw other refl)

loop_heap :
    (s s' : Boxed) (e : PtrboxElement) (es : List PtrboxElement)
    → same_type e.type ptrbox_heap ≡ true
    → box_free_single s e ≡ some s'
    → release_loop true s (e ∷ es) ptrbox_heap ≡ release_loop true s' es ptrbox_heap
unfolding release_loop
loop_heap s s' e es heap freed = rw (release_loop, heap, freed) refl

loop_other :
    (s : Boxed) (e : PtrboxElement) (es : List PtrboxElement)
    → same_type e.type ptrbox_heap ≡ false
    → release_loop true s (e ∷ es) ptrbox_heap ≡ release_loop true s es ptrbox_heap
unfolding release_loop
loop_other s e es other = rw (release_loop, other) refl

loop_end : (s : Boxed) → release_loop true s [] ptrbox_heap ≡ some s
unfolding release_loop
loop_end s = refl

all_new : (es : List PtrboxElement) → AreNew [] es
all_new [] = tt
all_new (e ∷ es) = (tt, all_new es)

module _ (s : Boxed) where
  abbrev boxed : (n : ℕ) → List PtrboxElement → (freed : List ℕ) → Boxed
  boxed n entries freed = record {
    box = record { ptr_count = n; entries = entries };
    frames = s.frames;
    freed = freed;
  }

  free_heap :
      (n : ℕ) (pre : List PtrboxElement) (e : PtrboxElement) (es : List PtrboxElement)
      (freed : List ℕ)
      → e.magic ≡ ptrbox_magic
      → e.type ≡ ptrbox_heap
      → All (λ x. e.self ≢ x.self) pre
      → 0 < n
      → n < 2 ^ 64
      → box_free_single (boxed n (pre ++ e ∷ es) freed) e
        ≡ some (boxed (n - 1) (pre ++ es) (e.self ∷ e.address ∷ freed))
  unfolding box_free_single free_memory
  free_heap n pre e es freed intact heap new pos small =
      let count : u64 (n + 2 ^ 64 - 1) ≡ n - 1 = omega (arith, pos, small) in
      rw (remove_element_first pre e es new) rw intact rw heap rw count refl

  abbrev Released : (es pre : List PtrboxElement) (n : ℕ) (freed : List ℕ) → Type 0
  Released es pre n freed =
      release_loop true (boxed n (pre ++ es) freed) es ptrbox_heap
      ≡ some (boxed (n - heap_count es) (pre ++ others es) (given_back es freed))

  boxed_ap :
      {m m' : ℕ} {l l' : List PtrboxElement} {f f' : List ℕ}
      → m ≡ m'
      → l ≡ l'
      → f ≡ f'
      → ◌≡◌ {A = Option Boxed} (some (boxed m l f)) (some (boxed m' l' f'))
  boxed_ap a b c = rw a rw b rw c refl

  release_lem :
      (es pre : List PtrboxElement) (n : ℕ) (freed : List ℕ)
      → AreIntact es
      → AreNew pre es
      → heap_count es ≤ n
      → n < 2 ^ 64
      → Released es pre n freed
  release_lem [] pre n freed intact new enough small =
      loop_end (boxed n (pre ++ []) freed)
      ∙ boxed_ap (omega (arith, none_counted)) (ap (λ l. pre ++ l) (sym none_other))
          (sym (none_back freed))
  release_lem (e ∷ es) pre n freed intact new enough small =
      elim (Bool-cases (same_type e.type ptrbox_heap)) [
        | inl heap ↦
            let (count, same, back) = heap_step e es freed heap in
            let pos : 0 < n = omega (arith, count, enough) in
            loop_heap (boxed n (pre ++ e ∷ es) freed)
              (boxed (n - 1) (pre ++ es) (e.self ∷ e.address ∷ freed)) e es heap
              (free_heap n pre e es freed intact.0 (same_type-heap e.type heap) new.0 pos small)
            ∙ release_lem es pre (n - 1) (e.self ∷ e.address ∷ freed) intact.2 new.1
                (omega (arith, count, enough)) (omega (arith, small))
            ∙ boxed_ap (omega (arith, count)) (ap (λ l. pre ++ l) (sym same)) (sym back)
        | inr other ↦
            let (count, same, back) = other_step e es freed other in
            loop_other (boxed n (pre ++ e ∷ es) freed) e es other
            ∙ ap (λ l. release_loop true (boxed n l freed) es ptrbox_heap)
                (sym (append_assoc pre (e ∷ []) es))
            ∙ release_lem es (pre ++ e ∷ []) n freed intact.2 (AreNew-snoc pre e es new.1 intact.1)
                (omega (arith, count, enough)) small
            ∙ boxed_ap (omega (arith, count))
                (append_assoc pre (e ∷ []) (others es) ∙ ap (λ l. pre ++ l) (sym same)) (sym back)
      ]

-- `exBoxRelease` of the heap memory, on a box whose elements are intact, have descriptors of their own
-- and are counted, where the links of freed descriptors can still be read: it returns; the box keeps
-- the other elements in order, and the count falls by the number of those that go; the pool gets
-- the memory and the descriptor of each of them once, and no frame is touched.
pub ex_box_release_heap :
    (s : Boxed)
    → AreIntact s.box.entries
    → heap_count s.box.entries ≤ s.box.ptr_count
    → s.box.ptr_count < 2 ^ 64
    → ex_box_release true s ptrbox_heap
      ≡ some (record {
        box = record {
          ptr_count = s.box.ptr_count - heap_count s.box.entries;
          entries = others s.box.entries;
        };
        frames = s.frames;
        freed = given_back s.box.entries s.freed;
      })
unfolding ex_box_release
ex_box_release_heap s intact counted small =
    release_lem s s.box.entries [] s.box.ptr_count s.freed intact (all_new s.box.entries) counted
      small

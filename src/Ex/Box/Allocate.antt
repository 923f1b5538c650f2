-- ===== src/Ex/Box/Allocate.antt =====
-- What `exBoxAllocate` leaves in the box, and what freeing pages of a box does.
use algae.Base.{
  subst, ℕ, suc, ◌+◌, ◌-◌, ◌*◌, ◌/◌, ◌^◌, ◌≤◌, ◌<◌, ◌≡◌, ◌≢◌, refl, sym, ap, ◌∙◌, Option, none,
  some, List, [], ◌∷◌, ◌++◌, ◌==◌, arith, >>=-eq-some, u64, align_up, length, get_elem?_out, ◌⊎◌,
  inl, inr, Bool-cases, ne→eqb,
}
use algae.Status.{status_success}
use algae.Bitmap.{clr_bit}
use algae.Mm.Phys.{Frames, page_size, mm_free_frame, clear_until}
use algae.Mm.Page.{mm_alloc_page}
use algae.Ex.Box.{
  PtrboxType, ptrbox_pages, ptrbox_heap, ptrbox_any, ptrbox_magic, PtrboxElement, Boxed,
  with_memory, allocate_type, insert_element, ex_box_allocate, free_memory, box_free_single,
}

-- A new element holds the memory, and the caller gets its address.
pub record Stored (s : Boxed) (elem : ℕ) (type : PtrboxType) (status address : ℕ) (s' : Boxed)
    : Type 0 where
  pub success : status ≡ status_success
  pub not_null : address ≢ 0
  pub e : PtrboxElement
  pub last : s'.box.entries ≡ s.box.entries ++ e ∷ []
  pub counted : s'.box.ptr_count ≡ u64 (s.box.ptr_count + 1)
  pub holds : e.address ≡ address
  pub of_type : e.type ≡ type
  pub marked : e.magic ≡ ptrbox_magic
  pub self : e.self ≡ elem
  pub none_freed : s'.freed ≡ s.freed

-- The box is as before, and the descriptor is back in the pool.
pub record Dropped (s : Boxed) (elem result : ℕ) (status address : ℕ) (s' : Boxed) : Type 0 where
  pub failure : status ≢ status_success
  pub unwritten : address ≡ result
  pub same : s'.box ≡ s.box
  pub returned : s'.freed ≡ elem ∷ s.freed

abbrev pub BoxOutcome : Boxed → (elem : ℕ) → PtrboxType → (result : ℕ) → ℕ × ℕ × Boxed → Type 0
BoxOutcome s elem type result (status, address, s') =
    Stored s elem type status address s' ⊎ Dropped s elem result status address s'

with_memory_lem :
    (s t : Boxed) (elem address len : ℕ) (type : PtrboxType) (result : ℕ)
    → t.box ≡ s.box
    → t.freed ≡ s.freed
    → BoxOutcome s elem type result (with_memory t elem address len type result)
unfolding with_memory insert_element
with_memory_lem s t elem address len type result same freed = elim (Bool-cases (address == 0)) [
  | inl e ↦ rw e (
      inr (record {
        failure = omega arith;
        unwritten = refl;
        same = same;
        returned = ap (λ xs. elem ∷ xs) freed;
      }))
  | inr e ↦ rw e (
      inl (record {
        success = refl;
        not_null = λ z. ground (arith, e, z);
        e = record { magic = ptrbox_magic; type = type; address = address; len = len; self = elem };
        last =
            ap
              (λ b.
                b.entries
                ++ record {
                  magic = ptrbox_magic;
                  type = type;
                  address = address;
                  len = len;
                  self = elem;
                }
                  ∷ [])
              same;
        counted = ap (λ b. u64 (b.ptr_count + 1)) same;
        holds = refl;
        of_type = refl;
        marked = refl;
        self = refl;
        none_freed = freed;
      }))
]

some-inj : {a b : ℕ × ℕ × Boxed} → ◌≡◌ {A = Option (ℕ × ℕ × Boxed)} (some a) (some b) → a ≡ b
some-inj e = cc

allocate_type_lem :
    (base elem heap : ℕ) (s : Boxed) (count : ℕ) (type : PtrboxType) (result : ℕ)
    (o : ℕ × ℕ × Boxed)
    → allocate_type base elem heap s count type result ≡ some o
    → BoxOutcome s elem type result o
unfolding allocate_type
allocate_type_lem base elem heap s count ptrbox_pages result o e =
    let (r, e1, e2) =
      >>=-eq-some (mm_alloc_page base s.frames (align_up count page_size / page_size)) _ e in
    subst (λ o. BoxOutcome s elem ptrbox_pages result o) (some-inj e2)
      (with_memory_lem s (record s { frames = r.1 }) elem r.0 (align_up count page_size)
        ptrbox_pages result refl refl)
allocate_type_lem base elem heap s count ptrbox_heap result o e =
    subst (λ o. BoxOutcome s elem ptrbox_heap result o) (some-inj e)
      (with_memory_lem s s elem heap count ptrbox_heap result refl refl)
allocate_type_lem base elem heap s count ptrbox_any result o e =
    subst (λ o. BoxOutcome s elem ptrbox_any result o) (some-inj e)
      (inr (record { failure = omega arith; unwritten = refl; same = refl; returned = refl }))

-- If `exBoxAllocate` of more than 0 bytes gets a descriptor from the pool and returns, then either it
-- succeeds: `*result` is not null and one element of the type, at the end of the box, holds it; or it
-- fails: `*result` is not written, the box is as before, and the descriptor is given back to the pool.
pub ex_box_allocate_lem :
    (base elem heap : ℕ) (s : Boxed) (count : ℕ) (type : PtrboxType) (result : ℕ)
    (o : ℕ × ℕ × Boxed)
    → count ≢ 0
    → elem ≢ 0
    → ex_box_allocate base elem heap s count type result ≡ some o
    → BoxOutcome s elem type result o
unfolding ex_box_allocate
ex_box_allocate_lem base elem heap s count type result o some_bytes got e =
    allocate_type_lem base elem heap s count type result o
      (sym (rw (ne→eqb count 0 some_bytes) rw (ne→eqb elem 0 got) refl) ∙ e)

clear_outside :
    (n : ℕ) (m : List ℕ) (p stop : ℕ)
    → p < stop
    → 8 * length m ≤ p / page_size
    → clear_until (suc n) m p stop ≡ none
unfolding clear_until clr_bit
clear_outside n m p stop below out =
    ground (arith, below, get_elem?_out m (p / page_size / 2 ^ 3) (omega (arith, out)))

mm_free_frame_outside :
    (f : Frames) (address n : ℕ)
    → 8 * length f.bitmap ≤ address / page_size
    → address + suc n * page_size + page_size < 2 ^ 64
    → mm_free_frame f address (suc n) ≡ none
unfolding mm_free_frame
mm_free_frame_outside f address n out small =
    rw
      (clear_outside n f.bitmap (align_up address page_size)
        (u64 (align_up address page_size + u64 (suc n * page_size))) (omega (arith, small))
        (omega (arith, out, small)))
      refl

one_more : (n : ℕ) → 0 < n → n ≡ suc (n - 1)
one_more n h = omega (arith, h)

-- `boxFreeSingle` of an intact element of pages, at an address behind the last frame of the bitmap,
-- accesses memory outside the bitmap. The element's address is a virtual one, and `mmFreeFrame` takes
-- it for a physical one.
pub box_free_single_outside :
    (s : Boxed) (e : PtrboxElement)
    → e.magic ≡ ptrbox_magic
    → e.type ≡ ptrbox_pages
    → 0 < e.len / page_size
    → 8 * length s.frames.bitmap ≤ e.address / page_size
    → e.address + e.len + page_size < 2 ^ 64
    → box_free_single s e ≡ none
unfolding box_free_single free_memory
box_free_single_outside s e intact pages some_frames out small =
    rw intact rw pages rw (one_more (e.len / page_size) some_frames) rw
      (mm_free_frame_outside s.frames e.address (e.len / page_size - 1) out
        (omega (arith, small, some_frames)))
      refl

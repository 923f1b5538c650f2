-- ===== src/Ex/Box.antt =====
-- Pointer boxes: ntos/ex/box.c. An element is known by the address of its descriptor; `none` is an
-- access outside the frame bitmap.
pub mod Allocate
pub mod Release
use algae.Base.{
  ℕ, zero, suc, ◌+◌, ◌-◌, ◌*◌, ◌/◌, ◌^◌, Bool, true, false, Option, none, some, List, [], ◌∷◌, ◌++◌,
  ◌==◌, ◌||◌, if◌then◌else◌, ◌>>=◌, u64, align_up,
}
use algae.Status.{status_success, status_invalid_handle, status_invalid_param, status_no_memory}
use algae.Mm.Phys.{Frames, page_size, mm_free_frame}
use algae.Mm.Page.{mm_alloc_page}

-- `PTRBOX_TYPE`
pub data PtrboxType : Type 0 where
  ptrbox_pages ptrbox_heap ptrbox_any : PtrboxType

abbrev pub ptrbox_magic : ℕ
ptrbox_magic = 0xCAFA17E

-- `PTRBOX_ELEMENT`; `self` is the descriptor's own address.
pub record PtrboxElement : Type 0 where
  pub magic : ℕ
  pub type : PtrboxType
  pub address : ℕ
  pub len : ℕ
  pub self : ℕ

-- `PTRBOX`
pub record Ptrbox : Type 0 where
  pub ptr_count : ℕ
  pub entries : List PtrboxElement

-- The box, the frames, and the addresses given to `exFreePool`.
pub record Boxed : Type 0 where
  pub box : Ptrbox
  pub frames : Frames
  pub freed : List ℕ

-- `exInitPtrBox` of a box that is not null.
unfoldable pub ex_init_ptr_box : Ptrbox → ℕ × Ptrbox
ex_init_ptr_box box = (status_success, record { ptr_count = 0; entries = [] })

abbrev pub free_pool : Boxed → (p : ℕ) → Boxed
free_pool s p = record s { freed = p ∷ s.freed }

-- The end of `exBoxAllocate`: the element enters the box.
unfoldable pub insert_element : Boxed → PtrboxElement → Boxed
insert_element s e = record s {
  box = record { ptr_count = u64 (s.box.ptr_count + 1); entries = s.box.entries ++ e ∷ [] };
}

-- The memory that a type asks for is at `address`, or null; only memory is stored through `result`.
unfoldable pub with_memory :
    Boxed → (elem address len : ℕ) → PtrboxType → (result : ℕ) → ℕ × ℕ × Boxed
unfolding insert_element
with_memory s elem address len type result =
    if address == 0 then (status_no_memory, result, free_pool s elem) else (
      status_success,
      address,
      insert_element s
          (record { magic = ptrbox_magic; type = type; address = address; len = len; self = elem }),
    )

unfoldable pub allocate_type :
    (base elem heap : ℕ) → Boxed → (count : ℕ) → PtrboxType → (result : ℕ) → Option (ℕ × ℕ × Boxed)
unfolding with_memory
allocate_type base elem heap s count ptrbox_pages result = do
  r ← mm_alloc_page base s.frames (align_up count page_size / page_size)
  some (
      with_memory (record s { frames = r.1 }) elem r.0 (align_up count page_size) ptrbox_pages
        result)
allocate_type base elem heap s count ptrbox_heap result =
    some (with_memory s elem heap count ptrbox_heap result)
allocate_type base elem heap s count ptrbox_any result =
    some (status_invalid_handle, result, free_pool s elem)

-- `exBoxAllocate` of a box and a result that are not null: the status, what `*result` holds afterwards,
-- and the state. `result` is what `*result` held before; a call that fails leaves it.
-- `elem` and `heap` are what `exAllocatePool` returns for the descriptor and for the memory.
unfoldable pub ex_box_allocate :
    (base elem heap : ℕ) → Boxed → (count : ℕ) → PtrboxType → (result : ℕ) → Option (ℕ × ℕ × Boxed)
unfolding allocate_type
ex_box_allocate base elem heap s count type result =
    if count == 0
    then some (status_invalid_param, result, s)
    else if elem == 0
    then some (status_no_memory, result, s)
    else allocate_type base elem heap s count type result

-- `TAILQ_REMOVE(&box->entries, elem, link)`
unfoldable pub remove_element : List PtrboxElement → (self : ℕ) → List PtrboxElement
remove_element [] self = []
remove_element (e ∷ es) self =
    let rest = remove_element es self in if e.self == self then es else e ∷ rest

free_memory : Boxed → PtrboxElement → PtrboxType → Option Boxed
free_memory s e ptrbox_pages = do
  f ← mm_free_frame s.frames e.address (e.len / page_size)
  some (record s { frames = f })
free_memory s e ptrbox_heap = some (free_pool s e.address)
free_memory s e ptrbox_any = some s

-- `boxFreeSingle` of a box and an element that are not null.
unfoldable pub box_free_single : Boxed → PtrboxElement → Option Boxed
unfolding remove_element free_memory
box_free_single s e =
    let removed = record s {
      box = record (s.box) { entries = remove_element s.box.entries e.self };
    } in
    if e.magic == ptrbox_magic
    then (do
      t ← free_memory removed e e.type
      some (
          free_pool
            (record t { box = record (t.box) { ptr_count = u64 (t.box.ptr_count + 2 ^ 64 - 1) } })
            e.self))
    else some (free_pool removed e.self)

abbrev pub same_type : PtrboxType → PtrboxType → Bool
same_type ptrbox_pages ptrbox_pages = true
same_type ptrbox_heap ptrbox_heap = true
same_type ptrbox_any ptrbox_any = true
same_type a b = false

-- `elem->type == type || type == PTRBOX_ANY`
abbrev pub is_released : PtrboxElement → PtrboxType → Bool
is_released e type = same_type e.type type || same_type type ptrbox_any

-- The loop of `exBoxRelease`. After an element is freed the loop reads its link for the next one:
-- `kept` says whether `exFreePool` leaves it in the descriptor, and where it does not the read is one
-- of freed memory.
unfoldable pub release_loop : (kept : Bool) → Boxed → List PtrboxElement → PtrboxType → Option Boxed
unfolding box_free_single
release_loop kept s [] type = some s
release_loop kept s (e ∷ es) type = elim (is_released e type) [
  | true ↦ do s' ← box_free_single s e; if kept then release_loop kept s' es type else none
  | false ↦ release_loop kept s es type
]

-- `exBoxRelease` of a box that is not null.
unfoldable pub ex_box_release : (kept : Bool) → Boxed → PtrboxType → Option Boxed
unfolding release_loop
ex_box_release kept s type = release_loop kept s s.box.entries type

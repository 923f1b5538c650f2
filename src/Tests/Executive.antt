-- ===== src/Tests/Executive.antt =====
-- Boxes of pointers.
use algae.Base.{◌≡◌, refl, true, none, some, [], ◌∷◌, ◌-◌, arith}
use algae.Mm.Phys.{Frames}
use algae.Ex.Box.{
  PtrboxElement, Boxed, ptrbox_heap, ptrbox_pages, ptrbox_magic, allocate_type, with_memory,
  insert_element, ex_box_allocate, box_free_single, ex_box_release,
}
use algae.Ex.Box.Release.{heap_count, others, given_back, ex_box_release_heap}
use algae.Ex.Box.Allocate.{BoxOutcome, ex_box_allocate_lem, box_free_single_outside}

abbrev no_frames : Frames
no_frames = record {
  bitmap = 0xff ∷ [];
  highest_frame_idx = 8;
  bitmap_size = 4096;
  bitmap_free_start = 0;
  frames_used = 8;
  frames_free = 0;
  last_idx = 0;
  memory = λ _. 0;
}

abbrev empty_box : Boxed
empty_box = record { box = record { ptr_count = 0; entries = [] }; frames = no_frames; freed = [] }

abbrev heap_element : PtrboxElement
heap_element = record {
  magic = ptrbox_magic;
  type = ptrbox_heap;
  address = 0x9000;
  len = 24;
  self = 0x8000;
}

abbrev one_in_box : Boxed
one_in_box = record empty_box { box = record { ptr_count = 1; entries = heap_element ∷ [] } }

heap_allocated :
    ex_box_allocate 0 0x8000 0x9000 empty_box 24 ptrbox_heap 5 ≡ some (0, 0x9000, one_in_box)
unfolding ex_box_allocate allocate_type with_memory insert_element
heap_allocated = refl

ex_box_allocate_lem_example : BoxOutcome empty_box 0x8000 ptrbox_heap 5 (0, 0x9000, one_in_box)
ex_box_allocate_lem_example =
    ex_box_allocate_lem 0 0x8000 0x9000 empty_box 24 ptrbox_heap 5 (0, 0x9000, one_in_box)
      (omega arith) (omega arith) heap_allocated

-- Frame 2 in the direct mapping of physical memory.
abbrev page_element : PtrboxElement
page_element = record {
  magic = ptrbox_magic;
  type = ptrbox_pages;
  address = 0xFFFF800000002000;
  len = 4096;
  self = 0x8000;
}

box_free_single_outside_example : box_free_single empty_box page_element ≡ none
box_free_single_outside_example =
    box_free_single_outside empty_box page_element refl refl (omega arith) (omega arith)
      (omega arith)

abbrev mixed_box : Boxed
mixed_box = record empty_box {
  box = record {
    ptr_count = 2;
    entries = heap_element ∷ record page_element { self = 0x8100 } ∷ [];
  };
}

one_of_the_heap : heap_count mixed_box.box.entries ≡ 1
unfolding heap_count
one_of_the_heap = refl

ex_box_release_heap_example :
    ex_box_release true mixed_box ptrbox_heap
    ≡ some (record {
      box = record {
        ptr_count = 2 - heap_count mixed_box.box.entries;
        entries = others mixed_box.box.entries;
      };
      frames = no_frames;
      freed = given_back mixed_box.box.entries [];
    })
ex_box_release_heap_example =
    ex_box_release_heap mixed_box (refl, ((λ e. omega (arith, e)), tt), (refl, tt, tt))
      (omega (arith, one_of_the_heap)) (omega arith)

-- ===== src/Tests/Frames.antt =====
-- The frame allocator, the bitmap and the page-table entries on eight frames, of which frame 0 is
-- in use.
use algae.Base.{
  ℕ, zero, suc, ◌+◌, ◌*◌, ◌≤◌, ◌<◌, ◌≡◌, ◌≢◌, refl, true, false, some, List, [], ◌∷◌, arith, ◌⊎◌,
  ◌↔◌, ◌%◌,
}
use algae.Bitmap.{set_byte, test_byte, set_bit, test_bit}
use algae.Rtl.Memory.{rtl_memset}
use algae.Mm.Phys.{
  inc_long, dec_long, Frames, page_size, MemmapEntry, mm_alloc_frame, mm_free_frame,
  mm_do_alloc_frames, search_run, mark_used, take_run, take_found, retry, bitmap_bytes,
  mm_populate_bitmap,
}
use algae.Mm.Phys.Scan.{HasRun}
use algae.Mm.Phys.Alloc.{IsSound, Allocated, mm_alloc_frame_lem}
use algae.Mm.Phys.Safety.{
  IsReady, mm_alloc_frame-IsReady, mm_alloc_frame_disjoint, mm_alloc_frame-ne-zero,
  mm_free_frame-mm_alloc_frame,
}
use algae.Mm.Phys.Init.{Populated, mm_populate_bitmap_lem, bitmap_bytes_short}

abbrev small : Frames
small = record {
  bitmap = 0b00000001 ∷ [];
  highest_frame_idx = 8;
  bitmap_size = 4096;
  bitmap_free_start = 1;
  frames_used = 1;
  frames_free = 7;
  last_idx = 0;
  memory = λ _. 0xAA;
}

small-IsSound : IsSound small
small-IsSound = record { bytes = (omega arith, tt); covers = omega arith; fits = omega arith }

small-reserved : test_bit small.bitmap 0 ≡ some true
unfolding test_bit test_byte
small-reserved = refl

small-IsReady : IsReady small
small-IsReady = record { sound = small-IsSound; reserved = small-reserved }

-- One frame is given out, then two.
abbrev after_one : Frames
after_one = record small {
  bitmap = 0b00000011 ∷ [];
  frames_used = 2;
  frames_free = 6;
  last_idx = 1;
  memory = rtl_memset (λ _. 0xAA) 4096 0 4096;
}

abbrev after_two : Frames
after_two = record after_one {
  bitmap = 0b00001111 ∷ [];
  frames_used = 4;
  frames_free = 4;
  last_idx = 2;
  memory = rtl_memset after_one.memory 8192 0 8192;
}

alloc_one : mm_alloc_frame small 1 ≡ some (4096, after_one)
unfolding mm_alloc_frame mm_do_alloc_frames retry search_run take_found inc_long dec_long take_run
    mark_used test_bit test_byte set_bit set_byte
alloc_one = refl

alloc_two : mm_alloc_frame after_one 2 ≡ some (8192, after_two)
unfolding mm_alloc_frame mm_do_alloc_frames retry search_run take_found inc_long dec_long take_run
    mark_used test_bit test_byte set_bit set_byte
alloc_two = refl

after_two-IsSound : IsSound after_two
after_two-IsSound = record { bytes = (omega arith, tt); covers = omega arith; fits = omega arith }

small-HasRun : HasRun small.bitmap 1 2
unfolding test_bit test_byte
small-HasRun zero low high = absurd (omega (arith, low))
small-HasRun (suc zero) low high = absurd (omega (arith, low))
small-HasRun (suc (suc zero)) low high = refl
small-HasRun (suc (suc (suc zero))) low high = refl
small-HasRun (suc (suc (suc (suc j)))) low high = absurd (omega (arith, high))

mm_alloc_frame_lem_example :
    (o : ℕ × Frames) × (mm_alloc_frame small 2 ≡ some o) × Allocated small 2 o
mm_alloc_frame_lem_example = mm_alloc_frame_lem small 2 (omega arith) small-IsSound small-reserved

mm_alloc_frame_disjoint_example : (4096 + 1 * page_size ≤ 8192) ⊎ (8192 + 2 * page_size ≤ 4096)
mm_alloc_frame_disjoint_example =
    mm_alloc_frame_disjoint 1 2 (omega arith) (omega arith) small-IsReady (omega arith) alloc_one
      alloc_two (omega arith) (omega arith)

mm_free_frame-mm_alloc_frame_example :
    (s'' : Frames) × (mm_free_frame after_one 4096 1 ≡ some s'')
    × ((i : ℕ) → test_bit s''.bitmap i ≡ test_bit small.bitmap i)
mm_free_frame-mm_alloc_frame_example =
    mm_free_frame-mm_alloc_frame 1 (omega arith) small-IsReady alloc_one (omega arith)

mm_alloc_frame-IsReady_example : IsReady after_one
mm_alloc_frame-IsReady_example = mm_alloc_frame-IsReady 1 (omega arith) small-IsReady alloc_one

mm_alloc_frame-ne-zero_example : (page_size ≢ 0) × (page_size ≤ 2 * page_size)
mm_alloc_frame-ne-zero_example =
    mm_alloc_frame-ne-zero 1 2 (omega arith) small-IsReady (omega arith) small-HasRun alloc_one

-- A usable stretch from frame 2 to the middle of frame 4, and a reserved one.
abbrev stretches : List MemmapEntry
stretches =
    record { base = 8192; len = 10000; usable = true }
    ∷ record { base = 20480; len = 4096; usable = false }
    ∷ []

abbrev all_used : Frames
all_used = record small { bitmap = 0xff ∷ [] }

mm_populate_bitmap_lem_example :
    (s' : Frames) × (mm_populate_bitmap all_used stretches ≡ some s')
    × Populated (0xff ∷ []) stretches s'
mm_populate_bitmap_lem_example =
    mm_populate_bitmap_lem stretches all_used (omega arith, tt)
      (λ _. (omega arith, omega arith), (λ e. cc, tt))

bitmap_bytes_short_example :
    (8 * bitmap_bytes 32775 < 32775) ↔ ((0 < 32775 % 32768) × (32775 % 32768 < 8))
bitmap_bytes_short_example = bitmap_bytes_short 32775 (omega arith)

-- ===== src/Mm/Phys.antt =====
-- The physical frame allocator, ntos/mm/phys.c. The lock is held across each operation, so an
-- operation is one step. `none` is an access outside the bitmap.
pub mod Scan
pub mod Mark
pub mod Alloc
pub mod Safety
pub mod Init
use algae.Base.{
  ℕ, zero, suc, ◌+◌, ◌-◌, ◌*◌, ◌/◌, ◌^◌, Bool, true, false, Option, none, some, List, [], ◌∷◌,
  replicate, ltb, leb, ◌==◌, if◌then◌else◌, ◌>>=◌, ◌>>◌, u64, align_up, c_max,
}
use algae.Bitmap.{set_bit, clr_bit, test_bit}
use algae.Rtl.Memory.{Memory, rtl_memset}

abbrev pub page_size : ℕ
page_size = 4096

-- The file's static variables, and the memory that is cleared. Addresses in `memory` are physical.
pub record Frames : Type 0 where
  pub bitmap : List ℕ
  pub highest_frame_idx : ℕ
  pub bitmap_size : ℕ
  pub bitmap_free_start : ℕ
  pub frames_used : ℕ
  pub frames_free : ℕ
  pub last_idx : ℕ
  pub memory : Memory

-- What the search loop of `mmDoAllocFrames` leaves: the length of the current run of free frames,
-- and its first frame, `none` for the -1 of `idx`.
pub record Search : Type 0 where
  pub n_frames : ℕ
  pub idx : Option ℕ

abbrev pub first : Option ℕ → ℕ → ℕ
first none i = i
first (some k) i = k

-- `nFrames` is a LONG of 32 bits; the model keeps it as the USIZE that it is converted to for a
-- comparison, so that a number below 0 is one near 2^64. One more, and one less, wrap as two's complement
-- does.
unfoldable pub inc_long : ℕ → ℕ
inc_long n = if n == 2 ^ 31 - 1 then 2 ^ 64 - 2 ^ 31 else u64 (n + 1)

unfoldable pub dec_long : ℕ → ℕ
dec_long n = if n == 2 ^ 64 - 2 ^ 31 then 2 ^ 31 - 1 else u64 (n + 2 ^ 64 - 1)

-- The search loop, at frame `i` with `left` frames to go.
unfoldable pub search_run : List ℕ → (count left i n_frames : ℕ) → Option ℕ → Option Search
search_run m count zero i n_frames idx = some (record { n_frames = n_frames; idx = idx })
search_run m count (suc left) i n_frames idx = do
  used ← test_bit m i
  elim used [
    | true ↦ search_run m count left (i + 1) 0 none
    | false ↦ elim (leb count n_frames) [
      | true ↦ some (record { n_frames = inc_long n_frames; idx = some (first idx i) })
      | false ↦ search_run m count left (i + 1) (inc_long n_frames) (some (first idx i))
    ]
  ]

-- The loop that marks `count` frames from `i` on as used.
unfoldable pub mark_used : List ℕ → (i count : ℕ) → Option (List ℕ)
mark_used m i zero = some m
mark_used m i (suc count) = do m' ← set_bit m i; mark_used m' (i + 1) count

unfoldable pub take_run : Frames → (count idx : ℕ) → Option (ℕ × Frames)
unfolding mark_used
take_run s count idx = do
  m ← mark_used s.bitmap idx count
  let ret = u64 (idx * page_size)
  some (
    ret,
    record s { bitmap = m; last_idx = idx; memory = rtl_memset s.memory ret 0 (count * page_size) },
  )

unfoldable pub take_found : Frames → (count n_frames : ℕ) → Option ℕ → Option (ℕ × Frames)
unfolding take_run
take_found s count n_frames none = some (0, s)
take_found s count n_frames (some idx) =
    if ltb (dec_long n_frames) count then some (0, s) else take_run s count idx

unfoldable pub mm_do_alloc_frames : Frames → (count : ℕ) → Option (ℕ × Frames)
unfolding search_run take_found
mm_do_alloc_frames s count = do
  r ← search_run s.bitmap count s.highest_frame_idx 0 0 none
  take_found s count r.n_frames r.idx

-- The result 0 stands for failure, and is tried once more.
unfoldable pub retry : (count : ℕ) → ℕ × Frames → Option (ℕ × Frames)
unfolding mm_do_alloc_frames
retry count (ret, s) =
    if ret == 0 then mm_do_alloc_frames (record s { last_idx = 0 }) count else some (ret, s)

-- `framesUsed += count; framesFree -= count;`
abbrev pub account : Frames → (count : ℕ) → Frames
account s count = record s {
  frames_used = u64 (s.frames_used + count);
  frames_free = u64 (s.frames_free + 2 ^ 64 - count);
}

unfoldable pub mm_alloc_frame : Frames → (count : ℕ) → Option (ℕ × Frames)
unfolding mm_do_alloc_frames retry
mm_alloc_frame s count = do r ← mm_do_alloc_frames (account s count) count; retry count r

-- The loop `while (p < stop_at)` of `mmFreeFrame`, on fuel; it makes at most `count` rounds.
unfoldable pub clear_until : (fuel : ℕ) → List ℕ → (p stop_at : ℕ) → Option (List ℕ)
clear_until zero m p stop_at = if ltb p stop_at then none else some m
clear_until (suc fuel) m p stop_at = elim (ltb p stop_at) [
  | true ↦ do m' ← clr_bit m (p / page_size); clear_until fuel m' (u64 (p + page_size)) stop_at
  | false ↦ some m
]

unfoldable pub mm_free_frame : Frames → (base count : ℕ) → Option Frames
unfolding clear_until
mm_free_frame s base count = do
  let p = align_up base page_size
  m ← clear_until count s.bitmap p (u64 (p + u64 (count * page_size)))
  some (record s { bitmap = m })

-- `struct limine_memmap_entry`: what the boot loader says of a stretch of memory.
pub record MemmapEntry : Type 0 where
  pub base : ℕ
  pub len : ℕ
  pub usable : Bool

-- The loop of `mmInitBitmap`. `highest` starts as the uninitialised `highestAddr`.
pub highest_addr : (highest : ℕ) → List MemmapEntry → ℕ
highest_addr highest [] = highest
highest_addr highest (e ∷ es) =
    highest_addr (if e.usable then c_max highest (u64 (e.base + e.len)) else highest) es

keep : MemmapEntry → Option (ℕ × List MemmapEntry) → Option (ℕ × List MemmapEntry)
keep e none = none
keep e (some (at, es)) = some (at, e ∷ es)

-- `mmAllocBitmap`: the first usable entry that is long enough gives its front to the bitmap. The
-- result is the bitmap's physical address and the changed entries; `none` leaves `bitmap` null.
pub mm_alloc_bitmap : (bitmap_size : ℕ) → List MemmapEntry → Option (ℕ × List MemmapEntry)
unfolding keep
mm_alloc_bitmap bitmap_size [] = none
mm_alloc_bitmap bitmap_size (e ∷ es) =
    let later = keep e (mm_alloc_bitmap bitmap_size es) in
    if e.usable
    then if leb bitmap_size e.len
      then some
          (e.base, record e { len = e.len - bitmap_size; base = u64 (e.base + bitmap_size) } ∷ es)
      else later
    else later

-- The inner loop of `mmPopulateBitmap`: `rounds` frames from address `at` on.
unfoldable pub clear_frames : (rounds : ℕ) → List ℕ → (at : ℕ) → Option (List ℕ)
clear_frames zero m at = some m
clear_frames (suc rounds) m at = do
  m' ← clr_bit m (u64 at / page_size)
  clear_frames rounds m' (at + page_size)

-- The statistics of one entry, and the bitmap `m` after its loop.
unfoldable pub count_usable : Frames → MemmapEntry → List ℕ → Frames
count_usable s e m = record s {
  bitmap = m;
  bitmap_free_start = if s.bitmap_free_start == 0 then e.base / page_size else s.bitmap_free_start;
  frames_free = u64 (s.frames_free + e.len / page_size);
}

unfoldable pub count_unusable : Frames → MemmapEntry → Frames
count_unusable s e = record s { frames_used = u64 (s.frames_used + e.len / page_size) }

-- One entry. `j` goes from 0 in steps of a page while it is below the length.
unfoldable pub populate_entry : Frames → MemmapEntry → Option Frames
unfolding clear_frames count_usable count_unusable
populate_entry s e =
    if e.usable
    then (do
      m ← clear_frames ((e.len + page_size - 1) / page_size) s.bitmap e.base
      some (count_usable s e m))
    else some (count_unusable s e)

unfoldable pub mm_populate_bitmap : Frames → List MemmapEntry → Option Frames
unfolding populate_entry
mm_populate_bitmap s [] = some s
mm_populate_bitmap s (e ∷ es) = do s' ← populate_entry s e; mm_populate_bitmap s' es

-- `bitmapSize = ALIGN_UP(highestFrameIdx / 8, PAGESIZE)`
pub bitmap_bytes : (highest_frame_idx : ℕ) → ℕ
bitmap_bytes highest_frame_idx = align_up (highest_frame_idx / 8) page_size

-- The state with the fresh bitmap, all ones, at physical address `at`.
place_bitmap : Frames → (at : ℕ) → Frames
place_bitmap s at = record s {
  bitmap = replicate s.bitmap_size 0xff;
  memory = rtl_memset s.memory at 0xff s.bitmap_size;
}

-- `garbage` is what the stack holds in the uninitialised `highestAddr`.
pub mm_init_bitmap : (garbage : ℕ) → Frames → List MemmapEntry → Option Frames
unfolding highest_addr mm_alloc_bitmap mm_populate_bitmap bitmap_bytes place_bitmap
mm_init_bitmap garbage s es = do
  let h = highest_addr garbage es / page_size
  let s' = record s { highest_frame_idx = h; bitmap_size = bitmap_bytes h }
  elim (mm_alloc_bitmap s'.bitmap_size es) [
    | none ↦ mm_populate_bitmap (record s' { bitmap = [] }) es
    | some (at, es') ↦ mm_populate_bitmap (place_bitmap s' at) es'
  ]

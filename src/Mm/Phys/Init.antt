-- ===== src/Mm/Phys/Init.antt =====
-- `mmInitBitmap`: the size of the bitmap, and what it says of each frame.
use algae.Base.{
  ℕ, ◌+◌, ◌-◌, ◌*◌, ◌/◌, ◌%◌, ◌^◌, ◌≤◌, ◌<◌, ◌≡◌, ◌↔◌, refl, ◌∙◌, inl, inr, Bool, true, false, ◌||◌,
  ◌&&◌, some, List, [], ◌∷◌, All, arith, length, if◌then◌else◌, Bool-cases, ap,
}
use algae.Bitmap.{test_bit}
use algae.Bitmap.Laws.{IsBytes}
use algae.Rtl.Memory.{in_range}
use algae.Mm.Phys.{
  Frames, MemmapEntry, page_size, count_usable, count_unusable, populate_entry, mm_populate_bitmap,
  bitmap_bytes,
}
use algae.Mm.Phys.Mark.{TurnedRun, clear_frames_lem}

-- For fewer than 2^52 frames, the bitmap has too few bits for its frames exactly when the number of frames is 1 to 7 above a
-- multiple of 8 * 4096: `highestFrameIdx / 8` is rounded down before it is aligned up.
pub bitmap_bytes_short :
    (h : ℕ) → h < 2 ^ 52 → (8 * bitmap_bytes h < h) ↔ ((0 < h % 32768) × (h % 32768 < 8))
unfolding bitmap_bytes
bitmap_bytes_short h small = ground arith

abbrev pub frame_of : MemmapEntry → ℕ
frame_of e = e.base / page_size

-- Pages that the loop over an entry visits: the last one may be a part of a page.
abbrev pub pages_of : MemmapEntry → ℕ
pages_of e = (e.len + page_size - 1) / page_size

-- Frame `i` lies in a usable entry.
abbrev pub usable_at : List MemmapEntry → ℕ → Bool
usable_at [] i = false
usable_at (e ∷ es) i = (e.usable && in_range (frame_of e) (pages_of e) i) || usable_at es i

-- The usable entries lie under the bitmap.
abbrev pub Fits : ℕ → List MemmapEntry → Type 0
Fits bits =
    All
      (λ e. e.usable ≡ true → (frame_of e + pages_of e ≤ bits) × (frame_of e + pages_of e < 2 ^ 52))

-- What `mmPopulateBitmap` leaves of the bitmap `a`.
pub record Populated (a : List ℕ) (es : List MemmapEntry) (s' : Frames) : Type 0 where
  pub bytes : IsBytes s'.bitmap
  pub size : length s'.bitmap ≡ length a
  pub bits : (i : ℕ) → test_bit s'.bitmap i ≡ (if usable_at es i then some false else test_bit a i)

populate_entry-used :
    (s : Frames) (e : MemmapEntry)
    → e.usable ≡ false
    → (s' : Frames) × (populate_entry s e ≡ some s') × (s'.bitmap ≡ s.bitmap)
unfolding populate_entry
populate_entry-used s e u = (count_unusable s e, rw u, refl)

populate_entry-usable :
    (s : Frames) (e : MemmapEntry)
    → IsBytes s.bitmap
    → Fits (8 * length s.bitmap) (e ∷ [])
    → e.usable ≡ true
    → (s' : Frames) × (populate_entry s e ≡ some s')
      × TurnedRun s.bitmap (frame_of e) (pages_of e) false s'.bitmap
unfolding populate_entry
populate_entry-usable s e h fits u =
    let (m, eq, t) =
      clear_frames_lem (pages_of e) s.bitmap e.base (frame_of e) h refl (fits.0 u).0 (fits.0 u).1 in
    (count_usable s e m, rw (u, eq), t)

populate-cons :
    (a a' : List ℕ) (e : MemmapEntry) (es : List MemmapEntry) (s' : Frames)
    → length a' ≡ length a
    → ((i : ℕ)
        → test_bit a' i
          ≡ (if e.usable && in_range (frame_of e) (pages_of e) i then some false else test_bit a i))
    → Populated a' es s'
    → Populated a (e ∷ es) s'
populate-cons a a' e es s' size bits r = record {
  bytes = r.bytes;
  size = r.size ∙ size;
  bits = λ i. ground (arith, r.bits i, bits i);
}

-- On a bitmap that the usable entries of the memory map fit, `mmPopulateBitmap` returns with no access
-- outside it; the frames of the usable entries are free, and the bits of the others as they were.
pub mm_populate_bitmap_lem :
    (es : List MemmapEntry) (s : Frames)
    → IsBytes s.bitmap
    → Fits (8 * length s.bitmap) es
    → (s' : Frames) × (mm_populate_bitmap s es ≡ some s') × Populated s.bitmap es s'
unfolding mm_populate_bitmap
mm_populate_bitmap_lem [] s h fits = (s, refl, record { bytes = h; size = refl; bits = λ i. refl })
mm_populate_bitmap_lem (e ∷ es) s h fits = elim (Bool-cases e.usable) [
  | inl u ↦
      let (m, em, t) = populate_entry-usable s e h (fits.0, tt) u in
      let (s', es', p) = mm_populate_bitmap_lem es m t.bytes (rw t.size fits.1) in
      (s', rw em es', populate-cons s.bitmap m.bitmap e es s' t.size (λ i. rw (t.bits i, u) refl) p)
  | inr u ↦
      let (m, em, same) = populate_entry-used s e u in
      let (s', es', p) = mm_populate_bitmap_lem es m (rw same h) (rw same fits.1) in
      (
        s',
        rw em es',
        populate-cons s.bitmap m.bitmap e es s' (ap length same) (λ i. rw (u, same) refl) p,
      )
]

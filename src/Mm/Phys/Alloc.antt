-- ===== src/Mm/Phys/Alloc.antt =====
-- `mmAllocFrame`: what is handed out, and when nothing is.
use algae.Base.{
  ℕ, suc, ◌+◌, ◌-◌, ◌*◌, ◌^◌, ◌≤◌, ◌<◌, ◌≡◌, refl, ◌∙◌, ◌⊎◌, inl, inr, Bool, true, false, Option,
  none, some, arith, length, ◌==◌, if◌then◌else◌, u64,
}
use algae.Bitmap.{test_bit}
use algae.Bitmap.Laws.{IsBytes, test_bit_lem}
use algae.Rtl.Memory.{in_range, rtl_memset, rtl_memset_lem}
use algae.Mm.Phys.{
  Frames, Search, page_size, take_run, take_found, dec_long, mm_do_alloc_frames, retry, account,
  mm_alloc_frame,
}
use algae.Mm.Phys.Scan.{HasRun, NoRun, Found, Missing, search_run_lem}
use algae.Mm.Phys.Mark.{TurnedRun, mark_used_lem}

-- The bitmap is an array of bytes with a bit for each frame, and every address fits 64 bits.
pub record IsSound (s : Frames) : Type 0 where
  pub bytes : IsBytes s.bitmap
  pub covers : s.highest_frame_idx ≤ 8 * length s.bitmap
  pub fits : s.highest_frame_idx < 2 ^ 52

-- `ret` is the first run of free frames, now used and zeroed; nothing else changed.
pub record Granted (s : Frames) (count ret : ℕ) (s' : Frames) : Type 0 where
  pub start : ℕ
  pub address : ret ≡ start * page_size
  pub inside : start + count < s.highest_frame_idx
  pub free_before : HasRun s.bitmap count start
  pub earliest : NoRun s.bitmap count start
  pub marked : TurnedRun s.bitmap start count true s'.bitmap
  pub zeroed :
      (p : ℕ) → s'.memory p ≡ (if in_range ret (count * page_size) p then 0 else s.memory p)
  pub frame_count : s'.highest_frame_idx ≡ s.highest_frame_idx

-- There is no run, and the bitmap and the memory are as before.
pub record Refused (s : Frames) (count ret : ℕ) (s' : Frames) : Type 0 where
  pub null : ret ≡ 0
  pub no_run : (k : ℕ) → k + count < s.highest_frame_idx → ¬ (HasRun s.bitmap count k)
  pub bitmap : s'.bitmap ≡ s.bitmap
  pub memory : s'.memory ≡ s.memory
  pub frame_count : s'.highest_frame_idx ≡ s.highest_frame_idx

abbrev pub Allocated : Frames → (count : ℕ) → ℕ × Frames → Type 0
Allocated s count (ret, s') = Granted s count ret s' ⊎ Refused s count ret s'

module _ (s : Frames) (count : ℕ) (sound : IsSound s) (small : count < 2 ^ 31 - 1) where
  take_found-some :
      (n start : ℕ) (idx : Option ℕ)
      → n ≡ suc count
      → idx ≡ some start
      → take_found s count n idx ≡ take_run s count start
  unfolding take_found dec_long
  take_found-some n start idx en ei = rw ei (ground (arith, en, small))

  take_found-Found :
      (r : Search)
      → Found s.bitmap count s.highest_frame_idx r
      → (o : ℕ × Frames) × (take_found s count r.n_frames r.idx ≡ some o) × Granted s count o.0 o.1
  unfolding take_run
  take_found-Found r f =
      let (m, e, t) =
        mark_used_lem count s.bitmap f.start sound.bytes (omega (arith, f.inside, sound.covers)) in
      let ret : ℕ = u64 (f.start * page_size) in
      (
        (
          ret,
          record s {
            bitmap = m;
            last_idx = f.start;
            memory = rtl_memset s.memory ret 0 (count * page_size);
          },
        ),
        take_found-some r.n_frames f.start r.idx f.n_frames f.idx ∙ rw e,
        record {
          start = f.start;
          address = omega (arith, f.inside, sound.fits);
          inside = f.inside;
          free_before = f.run;
          earliest = f.earliest;
          marked = t;
          zeroed = rtl_memset_lem (count * page_size) s.memory ret 0;
          frame_count = refl;
        },
      )

  take_found-Missing :
      (n : ℕ) (idx : Option ℕ)
      → (idx ≡ none) ⊎ ((0 < n) × (n ≤ count))
      → take_found s count n idx ≡ some (0, s)
  unfolding take_found dec_long
  take_found-Missing n none h = refl
  take_found-Missing n (some k) (inl e) = cc
  take_found-Missing n (some k) (inr (pos, le)) = ground (arith, pos, le, small)

  reads :
      (i : ℕ)
      → i < s.highest_frame_idx
      → (test_bit s.bitmap i ≡ some true) ⊎ (test_bit s.bitmap i ≡ some false)
  reads i lt =
      let (b, e) = test_bit_lem s.bitmap i sound.bytes (omega (arith, sound.covers)) in sort b e
    where
      sort :
          (b : Bool)
          → test_bit s.bitmap i ≡ some b
          → (test_bit s.bitmap i ≡ some true) ⊎ (test_bit s.bitmap i ≡ some false)
      sort true e = inl e
      sort false e = inr e

  after_search :
      (r : Search)
      → Found s.bitmap count s.highest_frame_idx r ⊎ Missing s.bitmap count s.highest_frame_idx r
      → (o : ℕ × Frames) × (take_found s count r.n_frames r.idx ≡ some o) × Allocated s count o
  after_search r (inl f) = let (o, e, g) = take_found-Found r f in (o, e, inl g)
  after_search r (inr q) = (
    (0, s),
    take_found-Missing r.n_frames r.idx q.idx,
    inr (record {
      null = refl;
      no_run = q.no_run;
      bitmap = refl;
      memory = refl;
      frame_count = refl;
    }),
  )

  pub mm_do_alloc_frames_lem :
      (o : ℕ × Frames) × (mm_do_alloc_frames s count ≡ some o) × Allocated s count o
  unfolding mm_do_alloc_frames
  mm_do_alloc_frames_lem =
      let (r, e, out) = search_run_lem s.bitmap count s.highest_frame_idx small reads in
      let (o, e', done) = after_search r out in (o, rw e e', done)

-- The outcome speaks of the bitmap, the memory and the number of frames alone.
abbrev Agrees : (s t : Frames) → Type 0
Agrees s t =
    (t.bitmap ≡ s.bitmap) × (t.memory ≡ s.memory) × (t.highest_frame_idx ≡ s.highest_frame_idx)

Allocated-Agrees :
    {s t : Frames} {count : ℕ} {o : ℕ × Frames}
    → Agrees s t
    → Allocated t count o
    → Allocated s count o
Allocated-Agrees (eb, em, eh) (inl g) = inl (record {
  start = g.start;
  address = g.address;
  inside = omega (arith, g.inside);
  free_before = rw (← eb) g.free_before;
  earliest = rw (← eb) g.earliest;
  marked = rw (← eb) g.marked;
  zeroed = rw (← em) g.zeroed;
  frame_count = g.frame_count ∙ eh;
})
Allocated-Agrees (eb, em, eh) (inr r) = inr (record {
  null = r.null;
  no_run = rw (← eb, ← eh) r.no_run;
  bitmap = r.bitmap ∙ eb;
  memory = r.memory ∙ em;
  frame_count = r.frame_count ∙ eh;
})

Granted-IsSound : {s s' : Frames} {count ret : ℕ} → IsSound s → Granted s count ret s' → IsSound s'
Granted-IsSound sound g = record {
  bytes = g.marked.bytes;
  covers = omega (arith, sound.covers, g.marked.size, g.frame_count);
  fits = omega (arith, sound.fits, g.frame_count);
}

Refused-IsSound : {s s' : Frames} {count ret : ℕ} → IsSound s → Refused s count ret s' → IsSound s'
Refused-IsSound sound r = record {
  bytes = rw r.bitmap sound.bytes;
  covers = rw (r.bitmap, r.frame_count) sound.covers;
  fits = omega (arith, sound.fits, r.frame_count);
}

pub Allocated-IsSound :
    {s s' : Frames} (count ret : ℕ) → IsSound s → Allocated s count (ret, s') → IsSound s'
Allocated-IsSound count ret sound (inl g) = Granted-IsSound sound g
Allocated-IsSound count ret sound (inr r) = Refused-IsSound sound r

-- With frame 0 in use no run begins there, so the result 0 means failure and nothing else.
Granted-ne-zero :
    {s s' : Frames} {count ret : ℕ}
    → test_bit s.bitmap 0 ≡ some true
    → Granted s count ret s'
    → (ret == 0) ≡ false
Granted-ne-zero reserved g = ground (arith, g.free_before 0, g.address)

module _ (s : Frames) (count : ℕ) (sound : IsSound s) (small : count < 2 ^ 31 - 1)
    (reserved : test_bit s.bitmap 0 ≡ some true) where
  again :
      (o : ℕ × Frames)
      → Allocated s count o
      → (o' : ℕ × Frames) × (retry count o ≡ some o') × Allocated s count o'
  unfolding retry
  again (ret, s') (inl g) = ((ret, s'), rw (Granted-ne-zero reserved g), inl g)
  again (ret, s') (inr r) =
      let t : Frames = record s' { last_idx = 0 } in
      let sound' : IsSound s' = Refused-IsSound sound r in
      let sound'' : IsSound t = record {
        bytes = sound'.bytes;
        covers = sound'.covers;
        fits = sound'.fits;
      } in
      let (o', e, out) = mm_do_alloc_frames_lem t count sound'' small in
      (o', rw r.null e, Allocated-Agrees (r.bitmap, r.memory, r.frame_count) out)

-- `mmAllocFrame` of fewer than 2^31 - 1 frames, on a sound state with frame 0 in use, returns. It hands out the first run
-- of free frames, with the frame behind it also free: the address is the run's, its `count` frames
-- become used and zeroed, and no other frame or byte changes. Without such a run the result is 0,
-- and bitmap and memory stay.
pub mm_alloc_frame_lem :
    (s : Frames) (count : ℕ)
    → count < 2 ^ 31 - 1
    → IsSound s
    → test_bit s.bitmap 0 ≡ some true
    → (o : ℕ × Frames) × (mm_alloc_frame s count ≡ some o) × Allocated s count o
unfolding mm_alloc_frame
mm_alloc_frame_lem s count small sound reserved =
    let a = account s count in
    let sound' : IsSound a = record {
      bytes = sound.bytes;
      covers = sound.covers;
      fits = sound.fits;
    } in
    let (o, e, out) = mm_do_alloc_frames_lem a count sound' small in
    let (o', e', out') = again a count sound' small reserved o out in
    (o', rw e e', Allocated-Agrees (refl, refl, refl) out')

-- ===== src/Mm/Phys/Safety.antt =====
-- Sequences of allocations and frees.
use algae.Base.{
  ℕ, ◌+◌, ◌-◌, ◌*◌, ◌^◌, ◌≤◌, ◌<◌, ◌≡◌, ◌≢◌, refl, ◌∙◌, ◌⊎◌, inl, inr, true, false, some, arith,
  ltb, u64, align_up, sym, subst, Bool-cases, ltb→lt,
}
use algae.Bitmap.{test_bit}
use algae.Mm.Phys.{Frames, page_size, mm_alloc_frame, mm_free_frame}
use algae.Mm.Phys.Scan.{HasRun}
use algae.Mm.Phys.Mark.{TurnedRun, clear_until_lem}
use algae.Mm.Phys.Alloc.{IsSound, Granted, Allocated, Allocated-IsSound, mm_alloc_frame_lem}

-- A state from which frames can be asked for.
pub record IsReady (s : Frames) : Type 0 where
  pub sound : IsSound s
  pub reserved : test_bit s.bitmap 0 ≡ some true

some-inj {ℓ} : {A : Type ℓ} {a b : A} → some a ≡ some b → a ≡ b
some-inj e = cc

-- The outcome of a call that is known to have returned `(ret, s')`.
pub outcome :
    {s s' : Frames} {ret : ℕ} (count : ℕ)
    → count < 2 ^ 31 - 1
    → IsReady s
    → mm_alloc_frame s count ≡ some (ret, s')
    → Allocated s count (ret, s')
outcome {s} count small ready e =
    let (o, e', out) = mm_alloc_frame_lem s count small ready.sound ready.reserved in
    subst (Allocated s count) (some-inj (sym e' ∙ e)) out

still_reserved :
    {s s' : Frames} {ret : ℕ} (count : ℕ)
    → IsReady s
    → Allocated s count (ret, s')
    → test_bit s'.bitmap 0 ≡ some true
still_reserved count ready (inl g) =
    ground (arith, g.marked.bits 0, g.free_before 0, ready.reserved)
still_reserved count ready (inr r) = rw r.bitmap ready.reserved

-- An allocation of fewer than 2^31 - 1 frames from a sound state with frame 0 in use, granted or not, leaves a sound state with
-- frame 0 in use.
pub mm_alloc_frame-IsReady :
    {s s' : Frames} {ret : ℕ} (count : ℕ)
    → count < 2 ^ 31 - 1
    → IsReady s
    → mm_alloc_frame s count ≡ some (ret, s')
    → IsReady s'
mm_alloc_frame-IsReady {ret} count small ready e = record {
  sound = Allocated-IsSound count ret ready.sound (outcome count small ready e);
  reserved = still_reserved count ready (outcome count small ready e);
}

Allocated-Granted :
    {s s' : Frames} {ret : ℕ} (count : ℕ)
    → ret ≢ 0
    → Allocated s count (ret, s')
    → Granted s count ret s'
Allocated-Granted count ne (inl g) = g
Allocated-Granted count ne (inr r) = absurd (ne r.null)

pub granted :
    {s s' : Frames} {ret : ℕ} (count : ℕ)
    → count < 2 ^ 31 - 1
    → IsReady s
    → mm_alloc_frame s count ≡ some (ret, s')
    → ret ≢ 0
    → Granted s count ret s'
granted count small ready e ne = Allocated-Granted count ne (outcome count small ready e)

-- From a sound state with frame 0 in use, two allocations of fewer than 2^31 - 1 frames one after
-- the other, the first of at least one frame and both with a result other than 0, give blocks that share no byte.
pub mm_alloc_frame_disjoint :
    {s s' s'' : Frames} {a b : ℕ} (m n : ℕ)
    → m < 2 ^ 31 - 1
    → n < 2 ^ 31 - 1
    → IsReady s
    → 0 < m
    → mm_alloc_frame s m ≡ some (a, s')
    → mm_alloc_frame s' n ≡ some (b, s'')
    → a ≢ 0
    → b ≢ 0
    → (a + m * page_size ≤ b) ⊎ (b + n * page_size ≤ a)
mm_alloc_frame_disjoint m n fits_m fits_n ready pos ea eb na nb =
    let g = granted m fits_m ready ea na in
    let h = granted n fits_n (mm_alloc_frame-IsReady m fits_m ready ea) eb nb in
    ground (
      arith,
      g.marked.bits g.start,
      g.marked.bits h.start,
      h.free_before g.start,
      h.free_before h.start,
      g.address,
      h.address,
    )

run-ne-zero :
    {s s' : Frames} {ret : ℕ} (count k : ℕ)
    → IsReady s
    → k + count < s.highest_frame_idx
    → HasRun s.bitmap count k
    → Allocated s count (ret, s')
    → (ret ≢ 0) × (ret ≤ k * page_size)
run-ne-zero count k ready inside run (inr r) = absurd (r.no_run k inside run)
run-ne-zero count k ready inside run (inl g) = elim (Bool-cases (ltb k g.start)) [
  | inl lt ↦ absurd (g.earliest k (ltb→lt k g.start lt) run)
  | inr ge ↦ ground (arith, g.address, g.free_before 0, ready.reserved)
]

-- From a sound state with frame 0 in use, if `count + 1` frames from `k` on are free, an allocation of
-- `count` frames, fewer than 2^31 - 1, that returns gives a result other than 0, no higher than the address of frame `k`.
pub mm_alloc_frame-ne-zero :
    {s s' : Frames} {ret : ℕ} (count k : ℕ)
    → count < 2 ^ 31 - 1
    → IsReady s
    → k + count < s.highest_frame_idx
    → HasRun s.bitmap count k
    → mm_alloc_frame s count ≡ some (ret, s')
    → (ret ≢ 0) × (ret ≤ k * page_size)
mm_alloc_frame-ne-zero {s} count k small ready inside run e =
    run-ne-zero count k ready inside run (outcome count small ready e)

-- In a sound state, `mmFreeFrame` of a block of whole frames below the highest one returns; the bits of
-- the block are clear, and nothing else of the state changes.
pub mm_free_frame_lem :
    (s : Frames) (start count : ℕ)
    → IsSound s
    → start + count ≤ s.highest_frame_idx
    → (s' : Frames) × (mm_free_frame s (start * page_size) count ≡ some s')
      × TurnedRun s.bitmap start count false s'.bitmap
      × (s' ≡ record s { bitmap = s'.bitmap })
unfolding mm_free_frame
mm_free_frame_lem s start count sound inside =
    let (m, e, t) =
      clear_until_lem count count s.bitmap start (align_up (start * page_size) page_size)
        (u64 (align_up (start * page_size) page_size + u64 (count * page_size))) sound.bytes
        (omega (arith, sound.covers)) (omega (arith, sound.fits)) (omega arith)
        (omega (arith, sound.fits)) (omega (arith, sound.fits)) in
    (record s { bitmap = m }, rw e, t, refl)

-- From a sound state with frame 0 in use, if an allocation of fewer than 2^31 - 1 frames gives a
-- result other than 0, `mmFreeFrame` of
-- the result returns, and every bit of the bitmap is what it was before the allocation.
pub mm_free_frame-mm_alloc_frame :
    {s s' : Frames} {ret : ℕ} (count : ℕ)
    → count < 2 ^ 31 - 1
    → IsReady s
    → mm_alloc_frame s count ≡ some (ret, s')
    → ret ≢ 0
    → (s'' : Frames) × (mm_free_frame s' ret count ≡ some s'')
      × ((j : ℕ) → test_bit s''.bitmap j ≡ test_bit s.bitmap j)
mm_free_frame-mm_alloc_frame {s'} count small ready e ne =
    let g = granted count small ready e ne in
    let (s'', e', t, same) =
      mm_free_frame_lem s' g.start count (mm_alloc_frame-IsReady count small ready e).sound
        (omega (arith, g.inside, g.frame_count)) in
    (s'', rw g.address e', λ j. ground (arith, t.bits j, g.marked.bits j, g.free_before j))

-- ===== src/Mm/Phys/Mark.antt =====
-- The loop that marks a run of frames, and the loops that clear one.
use algae.Base.{
  ℕ, zero, suc, ◌+◌, ◌*◌, ◌/◌, ◌^◌, ◌≤◌, ◌<◌, ◌≡◌, refl, ◌∙◌, Bool, true, false, some, List, arith,
  ltb, length, if◌then◌else◌, lt→ltb, u64,
}
use algae.Bitmap.{test_bit, clr_bit}
use algae.Bitmap.Laws.{IsBytes, Turned, set_bit_lem, clr_bit_lem}
use algae.Rtl.Memory.{in_range}
use algae.Mm.Phys.{mark_used, clear_until, clear_frames, page_size}

-- `a'` is `a` with the bits from `i` to `i + count` turned to `b`, and nothing else changed.
pub record TurnedRun (a : List ℕ) (i count : ℕ) (b : Bool) (a' : List ℕ) : Type 0 where
  pub bytes : IsBytes a'
  pub size : length a' ≡ length a
  pub bits : (j : ℕ) → test_bit a' j ≡ (if in_range i count j then some b else test_bit a j)

TurnedRun-zero : (a : List ℕ) (i : ℕ) (b : Bool) → IsBytes a → TurnedRun a i 0 b a
TurnedRun-zero a i b h = record { bytes = h; size = refl; bits = λ j. ground arith }

TurnedRun-suc :
    {a a' a'' : List ℕ} {i count : ℕ} {b : Bool}
    → Turned a i b a'
    → TurnedRun a' (i + 1) count b a''
    → TurnedRun a i (suc count) b a''
TurnedRun-suc {i} {count} t r = record {
  bytes = r.bytes;
  size = r.size ∙ t.size;
  bits = λ j. ground (arith, r.bits j, t.bits j);
}

pub mark_used_lem :
    (count : ℕ) (a : List ℕ) (i : ℕ)
    → IsBytes a
    → i + count ≤ 8 * length a
    → (a' : List ℕ) × (mark_used a i count ≡ some a') × TurnedRun a i count true a'
unfolding mark_used
mark_used_lem zero a i h fits = (a, refl, TurnedRun-zero a i true h)
mark_used_lem (suc count) a i h fits =
    let (m, e, t) = set_bit_lem a i h (omega arith) in
    let (m', e', r) = mark_used_lem count m (i + 1) t.bytes (omega (arith, t.size)) in
    (m', rw e e', TurnedRun-suc t r)

module _ (fuel : ℕ) (a m : List ℕ) (p q i stop : ℕ) (round : ltb p stop ≡ true)
    (at : p / page_size ≡ i) (next : u64 (p + page_size) ≡ q) (e : clr_bit a i ≡ some m) where
  clear_until-suc : clear_until (suc fuel) a p stop ≡ clear_until fuel m q stop
  unfolding clear_until
  clear_until-suc = ground arith

pub clear_until_lem :
    (count fuel : ℕ) (a : List ℕ) (i p stop : ℕ)
    → IsBytes a
    → i + count ≤ 8 * length a
    → i + count < 2 ^ 52
    → count ≤ fuel
    → p ≡ i * page_size
    → stop ≡ (i + count) * page_size
    → (a' : List ℕ) × (clear_until fuel a p stop ≡ some a') × TurnedRun a i count false a'
unfolding clear_until
clear_until_lem zero zero a i p stop h fits small enough ep es =
    (a, ground arith, TurnedRun-zero a i false h)
clear_until_lem zero (suc fuel) a i p stop h fits small enough ep es =
    (a, ground arith, TurnedRun-zero a i false h)
clear_until_lem (suc count) zero a i p stop h fits small enough ep es = elim enough [ ]
clear_until_lem (suc count) (suc fuel) a i p stop h fits small enough ep es =
    let (m, e, t) = clr_bit_lem a i h (omega arith) in
    let (m', e', r) =
      clear_until_lem count fuel m (i + 1) ((i + 1) * page_size) stop t.bytes
        (omega (arith, t.size)) (omega arith) (omega arith) refl (omega arith) in
    let step =
      clear_until-suc fuel a m p ((i + 1) * page_size) i stop (lt→ltb p stop (omega arith))
        (omega arith) (omega arith) e in
    (m', step ∙ e', TurnedRun-suc t r)

pub clear_frames_lem :
    (count : ℕ) (a : List ℕ) (at i : ℕ)
    → IsBytes a
    → at / page_size ≡ i
    → i + count ≤ 8 * length a
    → i + count < 2 ^ 52
    → (a' : List ℕ) × (clear_frames count a at ≡ some a') × TurnedRun a i count false a'
unfolding clear_frames
clear_frames_lem zero a at i h ei fits small = (a, refl, TurnedRun-zero a i false h)
clear_frames_lem (suc count) a at i h ei fits small =
    let (m, e, t) = clr_bit_lem a i h (omega arith) in
    let (m', e', r) =
      clear_frames_lem count m (at + page_size) (i + 1) t.bytes (omega arith)
        (omega (arith, t.size)) (omega arith) in
    let here : u64 at / page_size ≡ i = omega arith in (m', rw (here, e) e', TurnedRun-suc t r)

-- ===== src/Bitmap/Laws.antt =====
-- The three operations on a whole array.
use algae.Base.{
  ℕ, suc, zero, ◌*◌, ◌/◌, ◌%◌, ◌<◌, ◌≡◌, Bool, true, false, some, List, [], ◌∷◌, arith, ◌==◌,
  if◌then◌else◌, get_elem?, set, length, length-set, get_elem?-set_self, get_elem?-set_ne,
  get_elem?_in, get_elem?-lt, All, inl, inr, Bool-cases,
}
use algae.Bitmap.{set_byte, clr_byte, test_byte, set_bit, clr_bit, test_bit}
use algae.Bitmap.Bytes.{set_byte_lem, clr_byte_lem}

abbrev pub IsBytes : List ℕ → Type 0
IsBytes = All (λ v. v < 256)

byte_of : (a : List ℕ) (i : ℕ) {v : ℕ} → IsBytes a → get_elem? a i ≡ some v → v < 256
byte_of [] i h e = cc
byte_of (x ∷ a) zero h e = ground arith
byte_of (x ∷ a) (suc i) h e = byte_of a i h.1 e

set-IsBytes : (a : List ℕ) (i v : ℕ) → IsBytes a → v < 256 → IsBytes (set a i v)
set-IsBytes [] i v h lt = h
set-IsBytes (x ∷ a) zero v h lt = (lt, h.1)
set-IsBytes (x ∷ a) (suc i) v h lt = (h.0, set-IsBytes a i v h.1 lt)

-- `a'` is `a` with bit `i` turned to `b`, and nothing else changed.
pub record Turned (a : List ℕ) (i : ℕ) (b : Bool) (a' : List ℕ) : Type 0 where
  pub bytes : IsBytes a'
  pub size : length a' ≡ length a
  pub bits : (j : ℕ) → test_bit a' j ≡ (if i == j then some b else test_bit a j)

module _ (a : List ℕ) (i v w : ℕ) (b : Bool) (h : IsBytes a) (e : get_elem? a (i / 8) ≡ some v)
    (lt : w < 256)
    (byte : (j : ℕ) → j < 8 → test_byte w j ≡ (if i % 8 == j then b else test_byte v j)) where
  bit_after : (j : ℕ) → test_bit (set a (i / 8) w) j ≡ (if i == j then some b else test_bit a j)
  unfolding test_bit
  bit_after j = elim (Bool-cases (i / 8 == j / 8)) [
    | inl at ↦
        ground (arith, get_elem?-set_self a (i / 8) w, get_elem?-lt a (i / 8) e, byte (j % 8))
    | inr off ↦ ground (arith, get_elem?-set_ne a (i / 8) (j / 8) w)
  ]

  Turned-set : Turned a i b (set a (i / 8) w)
  Turned-set = record {
    bytes = set-IsBytes a (i / 8) w h lt;
    size = length-set a (i / 8) w;
    bits = bit_after;
  }

module _ (a : List ℕ) (i : ℕ) (h : IsBytes a) (inside : i < 8 * length a) where
  -- For a bit inside an array of bytes, `setBit` returns an array of as many bytes in which that bit
  -- tests as set and every other bit as before.
  pub set_bit_lem : (a' : List ℕ) × (set_bit a i ≡ some a') × Turned a i true a'
  unfolding set_bit
  set_bit_lem =
      let (v, e) = get_elem?_in a (i / 8) (omega arith) in
      let (lt, byte) = set_byte_lem v (i % 8) (byte_of a (i / 8) h e) (omega arith) in
      (set a (i / 8) (set_byte v (i % 8)), rw e, Turned-set a i v _ true h e lt byte)

  -- For a bit inside an array of bytes, `clrBit` returns an array of as many bytes in which that bit
  -- tests as clear and every other bit as before.
  pub clr_bit_lem : (a' : List ℕ) × (clr_bit a i ≡ some a') × Turned a i false a'
  unfolding clr_bit
  clr_bit_lem =
      let (v, e) = get_elem?_in a (i / 8) (omega arith) in
      let (lt, byte) = clr_byte_lem v (i % 8) (byte_of a (i / 8) h e) (omega arith) in
      (set a (i / 8) (clr_byte v (i % 8)), rw e, Turned-set a i v _ false h e lt byte)

  pub test_bit_lem : (b : Bool) × (test_bit a i ≡ some b)
  unfolding test_bit
  test_bit_lem = let (v, e) = get_elem?_in a (i / 8) (omega arith) in (test_byte v (i % 8), rw e)

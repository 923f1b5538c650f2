-- ===== src/Bitmap/Bytes.antt =====
-- The bits of one byte, by evaluation at all 256 values.
use algae.Base.{
  ℕ, ◌<◌, ◌≡◌, refl, Bool, true, false, ◌&&◌, arith, ltb, ltb→lt, ◌==◌, if◌then◌else◌, all_below,
  all_below_sound,
}
use algae.Bitmap.{set_byte, clr_byte, test_byte}

abbrev same : Bool → Bool → Bool
same true b = b
same false true = false
same false false = true

same→eq : (a b : Bool) → same a b ≡ true → a ≡ b
same→eq true true h = refl
same→eq true false h = cc
same→eq false true h = cc
same→eq false false h = refl

abbrev bit_right : ℕ → ℕ → ℕ → Bool → ℕ → Bool
bit_right v w i b j = same (test_byte w j) (if i == j then b else test_byte v j)

-- `w` is `v` with bit `i` turned to `b`.
abbrev turned : ℕ → ℕ → ℕ → Bool → Bool
turned v w i b = ltb w 256 && all_below 8 (bit_right v w i b)

abbrev set_row : ℕ → Bool
set_row v = all_below 8 (λ i. turned v (set_byte v i) i true)

abbrev clr_row : ℕ → Bool
clr_row v = all_below 8 (λ i. turned v (clr_byte v i) i false)

set_table : all_below 256 set_row ≡ true
unfolding set_byte test_byte all_below
set_table = refl

clr_table : all_below 256 clr_row ≡ true
unfolding clr_byte test_byte all_below
clr_table = refl

turned_sound :
    (v w i : ℕ) (b : Bool)
    → turned v w i b ≡ true
    → (w < 256) × ((j : ℕ) → j < 8 → test_byte w j ≡ (if i == j then b else test_byte v j))
turned_sound v w i b h = (
  ground (arith, ltb→lt w 256),
  λ j lt. same→eq _ _ (all_below_sound 8 (bit_right v w i b) (ground arith) j lt),
)

pub set_byte_lem :
    (v i : ℕ)
    → v < 256
    → i < 8
    → (set_byte v i < 256)
      × ((j : ℕ) → j < 8 → test_byte (set_byte v i) j ≡ (if i == j then true else test_byte v j))
set_byte_lem v i hv hi = turned_sound v (set_byte v i) i true (
    all_below_sound 8 (λ k. turned v (set_byte v k) k true)
      (all_below_sound 256 set_row set_table v hv) i hi)

pub clr_byte_lem :
    (v i : ℕ)
    → v < 256
    → i < 8
    → (clr_byte v i < 256)
      × ((j : ℕ) → j < 8 → test_byte (clr_byte v i) j ≡ (if i == j then false else test_byte v j))
clr_byte_lem v i hv hi = turned_sound v (clr_byte v i) i false (
    all_below_sound 8 (λ k. turned v (clr_byte v k) k false)
      (all_below_sound 256 clr_row clr_table v hv) i hi)

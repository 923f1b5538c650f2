-- ===== src/Mm/Words64.antt =====
-- 64-bit words in the memory of bytes, least significant byte first.
use algae.Base.{ℕ, ◌+◌, ◌*◌, ◌/◌, ◌%◌, ◌^◌, ◌≤◌, ◌<◌, ◌≡◌, ◌⊎◌, arith, ◌==◌, if◌then◌else◌}
use algae.Rtl.Memory.{Memory}

unfoldable pub read64 : Memory → ℕ → ℕ
read64 m p =
    m p
    + 2 ^ 8 * m (p + 1)
    + 2 ^ 16 * m (p + 2)
    + 2 ^ 24 * m (p + 3)
    + 2 ^ 32 * m (p + 4)
    + 2 ^ 40 * m (p + 5)
    + 2 ^ 48 * m (p + 6)
    + 2 ^ 56 * m (p + 7)

unfoldable pub write64 : Memory → (p v : ℕ) → Memory
write64 m p v q =
    if p == q
    then v % 2 ^ 8
    else if p + 1 == q
    then v / 2 ^ 8 % 2 ^ 8
    else if p + 2 == q
    then v / 2 ^ 16 % 2 ^ 8
    else if p + 3 == q
    then v / 2 ^ 24 % 2 ^ 8
    else if p + 4 == q
    then v / 2 ^ 32 % 2 ^ 8
    else if p + 5 == q
    then v / 2 ^ 40 % 2 ^ 8
    else if p + 6 == q
    then v / 2 ^ 48 % 2 ^ 8
    else if p + 7 == q
    then v / 2 ^ 56 % 2 ^ 8
    else m q

pub write64_in :
    (m : Memory) (p v : ℕ)
    → (write64 m p v p ≡ v % 2 ^ 8)
      × (write64 m p v (p + 1) ≡ v / 2 ^ 8 % 2 ^ 8)
      × (write64 m p v (p + 2) ≡ v / 2 ^ 16 % 2 ^ 8)
      × (write64 m p v (p + 3) ≡ v / 2 ^ 24 % 2 ^ 8)
      × (write64 m p v (p + 4) ≡ v / 2 ^ 32 % 2 ^ 8)
      × (write64 m p v (p + 5) ≡ v / 2 ^ 40 % 2 ^ 8)
      × (write64 m p v (p + 6) ≡ v / 2 ^ 48 % 2 ^ 8)
      × (write64 m p v (p + 7) ≡ v / 2 ^ 56 % 2 ^ 8)
unfolding write64
write64_in m p v = (
  ground arith,
  ground arith,
  ground arith,
  ground arith,
  ground arith,
  ground arith,
  ground arith,
  ground arith,
)

pub write64_out : (m : Memory) (p v q : ℕ) → (q < p) ⊎ (p + 8 ≤ q) → write64 m p v q ≡ m q
unfolding write64
write64_out m p v q h = ground arith

-- A word that is written is read back.
pub read64-write64 : (m : Memory) (p v : ℕ) → v < 2 ^ 64 → read64 (write64 m p v) p ≡ v
unfolding read64
read64-write64 m p v h = omega (arith, write64_in m p v)

-- A word elsewhere stays.
pub read64-write64_ne :
    (m : Memory) (p v q : ℕ) → (q + 8 ≤ p) ⊎ (p + 8 ≤ q) → read64 (write64 m p v) q ≡ read64 m q
unfolding read64
read64-write64_ne m p v q h = ground (
  arith,
  write64_out m p v q,
  write64_out m p v (q + 1),
  write64_out m p v (q + 2),
  write64_out m p v (q + 3),
  write64_out m p v (q + 4),
  write64_out m p v (q + 5),
  write64_out m p v (q + 6),
  write64_out m p v (q + 7),
)

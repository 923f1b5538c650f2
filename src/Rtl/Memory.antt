-- ===== src/Rtl/Memory.antt =====
-- `rtlMemset` and `rtlMemcpy` of ntos/rtl/string.c on a flat memory of bytes.
use algae.Base.{
  ℕ, zero, suc, ◌+◌, ◌-◌, ◌≤◌, ◌≡◌, ap, ◌∙◌, Bool, ◌&&◌, arith, u8, ltb, leb, ◌==◌, ◌⊎◌,
  if◌then◌else◌,
}

-- The byte at each address.
abbrev pub Memory : Type 0
Memory = ℕ → ℕ

abbrev pub poke : Memory → ℕ → ℕ → Memory
poke m p v q = if p == q then v else m q

-- The loop of `rtlMemset`, with `n` rounds left.
pub rtl_memset : Memory → (s c n : ℕ) → Memory
rtl_memset m s c zero = m
rtl_memset m s c (suc n) = rtl_memset (poke m s (u8 c)) (s + 1) c n

-- The loop of `rtlMemcpy`: byte after byte, upwards.
pub rtl_memcpy : Memory → (dest src n : ℕ) → Memory
rtl_memcpy m dest src zero = m
rtl_memcpy m dest src (suc n) = rtl_memcpy (poke m dest (m src)) (dest + 1) (src + 1) n

-- `s <= p && p < s + n`
abbrev pub in_range : (s n p : ℕ) → Bool
in_range s n p = leb s p && ltb p (s + n)

-- After `rtlMemset` the `n` bytes from `s` on are the low byte of `c`, and the others as before.
pub rtl_memset_lem :
    (n : ℕ) (m : Memory) (s c p : ℕ) → rtl_memset m s c n p ≡ (if in_range s n p then u8 c else m p)
unfolding rtl_memset
rtl_memset_lem zero m s c p = ground arith
rtl_memset_lem (suc n) m s c p = ground (arith, rtl_memset_lem n (poke m s (u8 c)) (s + 1) c p)

-- Where the target begins at or below the source, or at or behind its end, `rtlMemcpy` leaves the
-- source's old bytes in the target and all other bytes as before.
pub rtl_memcpy_lem :
    (n : ℕ) (m : Memory) (dest src p : ℕ)
    → (dest ≤ src) ⊎ (src + n ≤ dest)
    → rtl_memcpy m dest src n p ≡ (if in_range dest n p then m (src + (p - dest)) else m p)
unfolding rtl_memcpy
rtl_memcpy_lem zero m dest src p h = ground arith
rtl_memcpy_lem (suc n) m dest src p h =
    rtl_memcpy_lem n (poke m dest (m src)) (dest + 1) (src + 1) p (ground arith)
    ∙ ground (arith, ap m {x = src + 1 + (p - (dest + 1))} {y = src + (p - dest)})

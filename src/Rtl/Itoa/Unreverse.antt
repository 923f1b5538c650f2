-- ===== src/Rtl/Itoa/Unreverse.antt =====
-- The swap loop of both conversions turns round the part of the buffer between its two indices.
use algae.Base.{
  ℕ, zero, suc, ◌+◌, ◌-◌, ◌≤◌, ◌<◌, ◌≡◌, refl, ap, ◌∙◌, inl, inr, some, List, arith, ltb, leb, ◌&&◌,
  if◌then◌else◌, length, get_elem?, set, length-set, get_elem?-set_self, get_elem?-set_ne,
  get_elem?_in, ltb→lt, Bool-cases, ◌==◌,
}
use algae.Rtl.Itoa.{swap, unreverse}

-- `out` is `buf` with the part from `j` to `i` turned round.
pub record Turned (buf : List ℕ) (j i : ℕ) (out : List ℕ) : Type 0 where
  pub size : length out ≡ length buf
  pub items :
      (k : ℕ) → get_elem? out k ≡ get_elem? buf (if leb j k && leb k i then j + i - k else k)

record Swapped (buf : List ℕ) (j i : ℕ) (out : List ℕ) : Type 0 where
  size : length out ≡ length buf
  items : (k : ℕ) → get_elem? out k ≡ get_elem? buf (if k == j then i else if k == i then j else k)

swap_lem :
    (buf : List ℕ) (j i : ℕ)
    → j < i
    → i < length buf
    → (out : List ℕ) × (swap buf j i ≡ some out) × Swapped buf j i out
unfolding swap
swap_lem buf j i lt fits =
    let (a, ea) = get_elem?_in buf j (omega arith) in
    let (b, eb) = get_elem?_in buf i fits in
    (
      set (set buf j b) i a,
      rw (ea, eb),
      record {
        size = length-set (set buf j b) i a ∙ length-set buf j b;
        items = λ k. ground (
          arith,
          get_elem?-set_self (set buf j b) i a,
          get_elem?-set_ne (set buf j b) i k a,
          get_elem?-set_self buf j b,
          get_elem?-set_ne buf j k b,
          length-set buf j b,
        );
      },
    )

unreverse-stop : (fuel : ℕ) (buf : List ℕ) (j i : ℕ) → i ≤ j → unreverse fuel buf j i ≡ some buf
unfolding unreverse
unreverse-stop zero buf j i h = ground arith
unreverse-stop (suc fuel) buf j i h = ground arith

unreverse-suc :
    (fuel : ℕ) (buf buf' : List ℕ) (j i : ℕ)
    → j < i
    → swap buf j i ≡ some buf'
    → unreverse (suc fuel) buf j i ≡ unreverse fuel buf' (j + 1) (i - 1)
unfolding unreverse
unreverse-suc fuel buf buf' j i h e = ground arith

pub unreverse_lem :
    (fuel : ℕ) (buf : List ℕ) (j i : ℕ)
    → i < length buf
    → i ≤ j + fuel
    → (out : List ℕ) × (unreverse fuel buf j i ≡ some out) × Turned buf j i out
unreverse_lem zero buf j i fits enough = (
  buf,
  unreverse-stop zero buf j i (omega arith),
  record { size = refl; items = λ k. ap (get_elem? buf) (ground arith) },
)
unreverse_lem (suc fuel) buf j i fits enough = elim (Bool-cases (ltb j i)) [
  | inl lt ↦
      let (buf', e, s) = swap_lem buf j i (ltb→lt j i lt) fits in
      let (out, e', t) =
        unreverse_lem fuel buf' (j + 1) (i - 1) (ground (arith, s.size)) (ground arith) in
      (
        out,
        unreverse-suc fuel buf buf' j i (ltb→lt j i lt) e ∙ e',
        record {
          size = t.size ∙ s.size;
          items = λ k. t.items k ∙ s.items _ ∙ ap (get_elem? buf) (ground arith);
        },
      )
  | inr ge ↦ (
    buf,
    unreverse-stop (suc fuel) buf j i (ground arith),
    record { size = refl; items = λ k. ap (get_elem? buf) (ground arith) },
  )
]

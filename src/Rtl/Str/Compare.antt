-- ===== src/Rtl/Str/Compare.antt =====
-- `rtlStrlen`, `rtlStrcmp` and `rtlMemcmp` on strings and on fields of equal length.
use algae.Base.{
  ℕ, ◌<◌, ◌≡◌, ◌↔◌, refl, some, List, [], ◌∷◌, ◌++◌, arith, ◌==◌, length, All, ℤ, pos, sub_ℕ, inl,
  inr, Bool-cases,
}
use algae.Rtl.Str.{c_str, rtl_strlen, rtl_strcmp, rtl_memcmp}

-- The bytes of a C string: none of them is the terminator.
abbrev pub IsText : List ℕ → Type 0
IsText = All (λ c. 0 < c)

-- `rtlStrlen` of a string returns the number of bytes in front of the terminator, whatever is behind it.
pub rtl_strlen-length : (s rest : List ℕ) → IsText s → rtl_strlen (c_str s rest) ≡ some (length s)
unfolding rtl_strlen
rtl_strlen-length [] rest h = refl
rtl_strlen-length (c ∷ s) rest h = ground (arith, rtl_strlen-length s rest h.1)

-- `rtlStrcmp` of two strings returns 0 exactly when they are equal.
pub rtl_strcmp-eq_iff :
    (s t rest rest' : List ℕ)
    → IsText s
    → IsText t
    → (rtl_strcmp (c_str s rest) (c_str t rest') ≡ some (pos 0)) ↔ (s ≡ t)
unfolding rtl_strcmp
rtl_strcmp-eq_iff [] [] rest rest' hs ht = (λ e. refl, λ e. refl)
rtl_strcmp-eq_iff [] (b ∷ t) rest rest' hs ht = ground arith
rtl_strcmp-eq_iff (a ∷ s) [] rest rest' hs ht = ground arith
rtl_strcmp-eq_iff (a ∷ s) (b ∷ t) rest rest' hs ht =
    ground (arith, rtl_strcmp-eq_iff s t rest rest' hs.1 ht.1)

pub rtl_strcmp_self :
    (s rest rest' : List ℕ) → IsText s → rtl_strcmp (c_str s rest) (c_str s rest') ≡ some (pos 0)
rtl_strcmp_self s rest rest' h = (rtl_strcmp-eq_iff s s rest rest' h h).1 refl

pub rtl_strcmp_total :
    (s t rest rest' : List ℕ)
    → IsText s
    → IsText t
    → (r : ℤ) × (rtl_strcmp (c_str s rest) (c_str t rest') ≡ some r)
unfolding rtl_strcmp
rtl_strcmp_total [] [] rest rest' hs ht = (pos 0, refl)
rtl_strcmp_total [] (b ∷ t) rest rest' hs ht = (sub_ℕ 0 b, ground arith)
rtl_strcmp_total (a ∷ s) [] rest rest' hs ht = (sub_ℕ a 0, ground arith)
rtl_strcmp_total (a ∷ s) (b ∷ t) rest rest' hs ht =
    let (r, e) = rtl_strcmp_total s t rest rest' hs.1 ht.1 in
    elim (Bool-cases (a == b)) [
      | inl same ↦ (r, ground arith)
      | inr other ↦ (sub_ℕ a b, ground arith)
    ]

-- `rtlMemcmp` of two equally long fields is 0 exactly when they are equal.
pub rtl_memcmp-eq_iff :
    (s t rest rest' : List ℕ)
    → length s ≡ length t
    → (rtl_memcmp (s ++ rest) (t ++ rest') (length s) ≡ some (pos 0)) ↔ (s ≡ t)
unfolding rtl_memcmp
rtl_memcmp-eq_iff [] [] rest rest' e = (λ _. refl, λ _. refl)
rtl_memcmp-eq_iff [] (b ∷ t) rest rest' e = absurd (omega arith)
rtl_memcmp-eq_iff (a ∷ s) [] rest rest' e = absurd (omega arith)
rtl_memcmp-eq_iff (a ∷ s) (b ∷ t) rest rest' e =
    ground (arith, rtl_memcmp-eq_iff s t rest rest' (omega arith))

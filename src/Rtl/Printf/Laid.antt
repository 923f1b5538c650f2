-- ===== src/Rtl/Printf/Laid.antt =====
-- What `printC` and `printStr` leave in the buffer.
use algae.Base.{
  ℕ, zero, suc, ◌+◌, ◌≤◌, ◌<◌, ◌≡◌, refl, ap, sym, ◌∙◌, subst, true, false, Option, none, some,
  List, [], ◌∷◌, ◌++◌, arith, ltb, ◌==◌, if◌then◌else◌, ◌>>=◌, >>=-eq-some, length, set, take, drop,
  append_assoc, append-nil, length-append, inl, inr, ◌⊎◌, Bool-cases, lt→ltb,
}
use algae.Rtl.Printf.{
  Out, room, store_byte, terminate, push_byte, print_c, print_str, Call, c_of, str_of,
}

-- The buffer holds `t`, then the byte `y`, and behind it what it held in the beginning.
pub record Shows (orig t : List ℕ) (y : ℕ) (o : Out) : Type 0 where
  pub buf : o.buf ≡ t ++ y ∷ drop (suc (length t)) orig
  pub off : o.off ≡ length t

set_at : (t rest : List ℕ) (y c : ℕ) → set (t ++ y ∷ rest) (length t) c ≡ t ++ c ∷ rest
set_at [] rest y c = refl
set_at (x ∷ t) rest y c = ap (λ xs. x ∷ xs) (set_at t rest y c)

drop-cons : (k : ℕ) (xs : List ℕ) → k < length xs → (z : ℕ) × (drop k xs ≡ z ∷ drop (suc k) xs)
drop-cons zero (x ∷ xs) h = (x, refl)
drop-cons (suc k) (x ∷ xs) h = drop-cons k xs (omega (arith, h))
drop-cons zero [] h = absurd (omega (arith, h))
drop-cons (suc k) [] h = absurd (omega (arith, h))

inside : (t rest : List ℕ) (y : ℕ) → ltb (length t) (length (t ++ y ∷ rest)) ≡ true
inside t rest y =
    lt→ltb (length t) (length (t ++ y ∷ rest)) (omega (arith, length-append t (y ∷ rest)))

terminate_lem :
    (orig t : List ℕ) (y : ℕ) (o : Out)
    → Shows orig t y o
    → (o' : Out) × (terminate o ≡ some o') × Shows orig t 0 o'
unfolding terminate store_byte
terminate_lem orig t y o s =
    let rest = drop (suc (length t)) orig in
    (
      record { buf = t ++ 0 ∷ rest; off = length t },
      rw s.buf rw s.off rw (inside t rest y) rw (set_at t rest y 0) refl,
      record { buf = refl; off = refl },
    )

push_byte_lem :
    (orig t : List ℕ) (y c : ℕ) (o : Out)
    → Shows orig t y o
    → suc (length t) < length orig
    → (o' : Out) × (push_byte o c ≡ some o') × (z : ℕ) × Shows orig (t ++ c ∷ []) z o'
unfolding push_byte store_byte
push_byte_lem orig t y c o s fits =
    let rest = drop (suc (length t)) orig in
    let (z, e) = drop-cons (suc (length t)) orig fits in
    let longer : suc (length t) ≡ length (t ++ c ∷ []) = omega (arith, length-append t (c ∷ [])) in
    (
      record { buf = t ++ c ∷ rest; off = length t + 1 },
      rw s.buf rw s.off rw (inside t rest y) rw (set_at t rest y c) refl,
      z,
      record {
        buf =
            ap (λ xs. t ++ c ∷ xs) (e ∙ ap (λ k. z ∷ drop (suc k) orig) longer)
            ∙ sym (append_assoc t (c ∷ []) (z ∷ drop (suc (length (t ++ c ∷ []))) orig));
        off = omega (arith, longer);
      },
    )

-- Of the text `t`, a buffer with room for `n` bytes shows all, or its first `n` bytes.
pub take_cases :
    (n : ℕ) (t : List ℕ)
    → ((length t < n) × (take n t ≡ t)) ⊎ ((n ≤ length t) × (length (take n t) ≡ n))
take_cases zero [] = inr (omega arith, refl)
take_cases zero (x ∷ t) = inr (omega arith, refl)
take_cases (suc n) [] = inl (omega arith, refl)
take_cases (suc n) (x ∷ t) = elim (take_cases n t) [
  | inl (lt, e) ↦ inl (omega (arith, lt), ap (λ xs. x ∷ xs) e)
  | inr (le, e) ↦ inr (omega (arith, le), ap suc e)
]

pub take_full : (n : ℕ) (t more : List ℕ) → n ≤ length t → take n (t ++ more) ≡ take n t
take_full zero [] [] h = refl
take_full zero [] (y ∷ more) h = refl
take_full zero (x ∷ t) more h = refl
take_full (suc n) [] more h = absurd (omega (arith, h))
take_full (suc n) (x ∷ t) more h = ap (λ xs. x ∷ xs) (take_full n t more (omega (arith, h)))

pub take_whole : (n : ℕ) (t : List ℕ) → length t ≤ n → take n t ≡ t
take_whole zero [] h = refl
take_whole (suc n) [] h = refl
take_whole zero (x ∷ t) h = absurd (omega (arith, h))
take_whole (suc n) (x ∷ t) h = ap (λ xs. x ∷ xs) (take_whole n t (omega (arith, h)))

-- A string up to its terminator.
unfoldable pub until_nul : List ℕ → Option (List ℕ)
until_nul [] = none
until_nul (c ∷ s) =
    let rest = until_nul s in if c == 0 then some [] else (do w ← rest; some (c ∷ w))

unfoldable pub text_of : Call → Option (List ℕ)
unfolding until_nul
text_of (c_of c) = some (c ∷ [])
text_of (str_of s) = until_nul s

-- The text of a sequence of calls.
unfoldable pub all_text : List Call → Option (List ℕ)
unfolding text_of
all_text [] = some []
all_text (x ∷ xs) = do w ← text_of x; ws ← all_text xs; some (w ++ ws)

some-inj : {a b : List ℕ} → some a ≡ some b → a ≡ b
some-inj e = cc

until_nul-end : (c : ℕ) (s w : List ℕ) → (c == 0) ≡ true → until_nul (c ∷ s) ≡ some w → w ≡ []
unfolding until_nul
until_nul-end c s w e h = ground (arith, e, h)

until_nul_rest :
    (c : ℕ) (s : List ℕ)
    → (c == 0) ≡ false
    → (until_nul s >>= λ w. some (c ∷ w)) ≡ until_nul (c ∷ s)
unfolding until_nul
until_nul_rest c s e = rw e refl

until_nul-cons :
    (c : ℕ) (s w : List ℕ)
    → (c == 0) ≡ false
    → until_nul (c ∷ s) ≡ some w
    → (w' : List ℕ) × (w ≡ c ∷ w') × (until_nul s ≡ some w')
unfolding until_nul
until_nul-cons c s w e h =
    let (w', e', h') = >>=-eq-some (until_nul s) (λ w. some (c ∷ w)) (until_nul_rest c s e ∙ h) in
    (w', sym (some-inj h'), e')

ltb_self : (n : ℕ) → ltb n n ≡ false
ltb_self n = ground arith

goes_on :
    (size n : ℕ) (o : Out) (k : ℕ)
    → room size ≡ n
    → o.off ≡ k
    → k < n
    → ltb o.off (room size) ≡ true
goes_on size n o k en e lt = lt→ltb o.off (room size) (omega (arith, en, e, lt))

is_full :
    (size n : ℕ) (o : Out) (k : ℕ)
    → room size ≡ n
    → o.off ≡ k
    → k ≡ n
    → ltb o.off (room size) ≡ false
is_full size n o k en e full =
    ap (λ x. ltb x (room size)) (e ∙ full ∙ sym en) ∙ ltb_self (room size)

module _ (size : ℕ) (o : Out) (c : ℕ) {o1 o2 : Out} where
  print_c-room :
      ltb o.off (room size) ≡ true
      → push_byte o c ≡ some o1
      → terminate o1 ≡ some o2
      → print_c size o c ≡ some o2
  unfolding print_c
  print_c-room e e1 e2 = rw e rw e1 e2

  print_str-room :
      (s : List ℕ)
      → ltb o.off (room size) ≡ true
      → (c == 0) ≡ false
      → push_byte o c ≡ some o1
      → print_str size o1 s ≡ some o2
      → print_str size o (c ∷ s) ≡ some o2
  unfolding print_str
  print_str-room s e ne e1 e2 = ground (arith, e, ne, e1, e2)

module _ (size : ℕ) (o : Out) (c : ℕ) {o2 : Out} where
  print_c-full : ltb o.off (room size) ≡ false → terminate o ≡ some o2 → print_c size o c ≡ some o2
  unfolding print_c
  print_c-full e e2 = rw e e2

  print_str-full :
      (s : List ℕ)
      → ltb o.off (room size) ≡ false
      → terminate o ≡ some o2
      → print_str size o (c ∷ s) ≡ some o2
  unfolding print_str
  print_str-full s e e2 = ground (arith, e, e2)

  print_str-end :
      (s : List ℕ) → (c == 0) ≡ true → terminate o ≡ some o2 → print_str size o (c ∷ s) ≡ some o2
  unfolding print_str
  print_str-end s e e2 = ground (arith, e, e2)

module _ (orig : List ℕ) (size n : ℕ) (en : room size ≡ n) (fits : n < length orig) where
  pub print_c_lem :
      (t : List ℕ) (y c : ℕ) (o : Out)
      → Shows orig (take n t) y o
      → (o' : Out) × (print_c size o c ≡ some o') × Shows orig (take n (t ++ c ∷ [])) 0 o'
  unfolding print_c
  print_c_lem t y c o s = elim (take_cases n t) [
    | inl (lt, e) ↦
        let s' = subst (λ x. Shows orig x y o) e s in
        let (o1, e1, z, s1) = push_byte_lem orig t y c o s' (omega (arith, lt, fits)) in
        let (o2, e2, s2) = terminate_lem orig (t ++ c ∷ []) z o1 s1 in
        (
          o2,
          print_c-room size o c (goes_on size n o (length t) en s'.off lt) e1 e2,
          subst (λ x. Shows orig x 0 o2)
              (sym (take_whole n (t ++ c ∷ []) (omega (arith, lt, length-append t (c ∷ []))))) s2,
        )
    | inr (le, e) ↦
        let (o2, e2, s2) = terminate_lem orig (take n t) y o s in
        (
          o2,
          print_c-full size o c (is_full size n o (length (take n t)) en s.off e) e2,
          subst (λ x. Shows orig x 0 o2) (sym (take_full n t (c ∷ []) le)) s2,
        )
  ]

  pub print_str_lem :
      (s t : List ℕ) (y : ℕ) (o : Out) (w : List ℕ)
      → Shows orig (take n t) y o
      → until_nul s ≡ some w
      → (o' : Out) × (print_str size o s ≡ some o') × Shows orig (take n (t ++ w)) 0 o'
  unfolding print_str until_nul
  print_str_lem [] t y o w sh h = absurd cc
  print_str_lem (c ∷ s) t y o w sh h = elim (Bool-cases (c == 0)) [
    | inl e ↦
        let (o2, e2, s2) = terminate_lem orig (take n t) y o sh in
        let empty : w ≡ [] = until_nul-end c s w e h in
        (
          o2,
          print_str-end size o c s e e2,
          subst (λ x. Shows orig (take n x) 0 o2) (sym (ap (λ x. t ++ x) empty ∙ append-nil t)) s2,
        )
    | inr e ↦
        let (w', ew, h') = until_nul-cons c s w e h in
        elim (take_cases n t) [
          | inl (lt, et) ↦
              let s' = subst (λ x. Shows orig x y o) et sh in
              let (o1, e1, z, s1) = push_byte_lem orig t y c o s' (omega (arith, lt, fits)) in
              let whole =
                sym (take_whole n (t ++ c ∷ []) (omega (arith, lt, length-append t (c ∷ [])))) in
              let (o2, e2, s2) =
                print_str_lem s (t ++ c ∷ []) z o1 w' (subst (λ x. Shows orig x z o1) whole s1)
                  h' in
              (
                o2,
                print_str-room size o c s (goes_on size n o (length t) en s'.off lt) e e1 e2,
                subst (λ x. Shows orig (take n x) 0 o2)
                    (append_assoc t (c ∷ []) w' ∙ ap (λ x. t ++ x) (sym ew)) s2,
              )
          | inr (le, et) ↦
              let (o2, e2, s2) = terminate_lem orig (take n t) y o sh in
              (
                o2,
                print_str-full size o c s (is_full size n o (length (take n t)) en sh.off et) e2,
                subst (λ x. Shows orig x 0 o2) (sym (take_full n t w le)) s2,
              )
        ]
  ]

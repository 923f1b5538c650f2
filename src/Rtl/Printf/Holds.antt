-- ===== src/Rtl/Printf/Holds.antt =====
-- The calls that `rtlBufPrintfV` (ntos/rtl/string.c) makes, and its loop, round by round.
use algae.Base.{
  ℕ, suc, ◌≤◌, ◌<◌, ◌≡◌, refl, ap, sym, ◌∙◌, subst, true, false, some, List, [], ◌∷◌, ◌++◌, arith,
  ltb, ◌==◌, ◌||◌, ◌>>=◌, >>=-eq-some, length, take, map, append_assoc, append-nil, inl, inr, ◌⊎◌,
}
use algae.Rtl.Printf.{
  Out, room, Arg, Call, c_of, str_of, print, print_all, Conversion, split_literal, next_conversion,
  printf_loop,
}
use algae.Rtl.Printf.Laid.{
  Shows, take_cases, take_full, text_of, all_text, print_c_lem, print_str_lem,
}
use algae.Rtl.Printf.Render.{some-inj}

-- The text `t` is shown as far as it fits; where there is a text, a zero stands behind it.
pub record Holds (orig : List ℕ) (n : ℕ) (t : List ℕ) (o : Out) : Type 0 where
  pub y : ℕ
  pub shows : Shows orig (take n t) y o
  pub ended : (t ≡ []) ⊎ (y ≡ 0)

module _ (orig : List ℕ) (size n : ℕ) (en : room size ≡ n) (fits : n < length orig) where
  print_lem :
      (x : Call) (t w : List ℕ) (o : Out)
      → Holds orig n t o
      → text_of x ≡ some w
      → (o' : Out) × (print size o x ≡ some o') × Holds orig n (t ++ w) o'
  unfolding print text_of
  print_lem (c_of c) t w o h e =
      let (o', e', s) = print_c_lem orig size n en fits t h.y c o h.shows in
      (
        o',
        e',
        record {
          y = 0;
          shows = subst (λ x. Shows orig (take n (t ++ x)) 0 o') (some-inj e) s;
          ended = inr refl;
        },
      )
  print_lem (str_of str) t w o h e =
      let (o', e', s) = print_str_lem orig size n en fits str t h.y o w h.shows e in
      (o', e', record { y = 0; shows = s; ended = inr refl })

  pub print_all_lem :
      (xs : List Call) (t w : List ℕ) (o : Out)
      → Holds orig n t o
      → all_text xs ≡ some w
      → (o' : Out) × (print_all size o xs ≡ some o') × Holds orig n (t ++ w) o'
  unfolding print_all all_text
  print_all_lem [] t w o h e = (
    o,
    refl,
    subst (λ x. Holds orig n x o) (sym (append-nil t) ∙ ap (λ x. t ++ x) (some-inj e)) h,
  )
  print_all_lem (x ∷ xs) t w o h e =
      let (w1, e1, r1) = >>=-eq-some (text_of x) (λ w. all_text xs >>= λ ws. some (w ++ ws)) e in
      let (w2, e2, r2) = >>=-eq-some (all_text xs) (λ ws. some (w1 ++ ws)) r1 in
      let (o1, p1, h1) = print_lem x t w1 o h e1 in
      let (o2, p2, h2) = print_all_lem xs (t ++ w1) w2 o1 h1 e2 in
      (
        o2,
        rw p1 p2,
        subst (λ x. Holds orig n x o2) (append_assoc t w1 w2 ∙ ap (λ x. t ++ x) (some-inj r2)) h2,
      )

  not_yet_full :
      (t : List ℕ) (o : Out) {y : ℕ}
      → length t < n
      → take n t ≡ t
      → o.off ≡ n
      → ¬ Shows orig (take n t) y o
  not_yet_full t o lt e full s = omega (arith, lt, ap length e, full, s.off)

  nil_is_short : (t : List ℕ) → n ≤ length t → t ≡ [] → ¬ (0 < n)
  nil_is_short t le e h = omega (arith, le, ap length e, h)

  -- A full buffer shows any longer text too.
  pub Holds-full :
      (t more : List ℕ) (o : Out)
      → 0 < n
      → o.off ≡ n
      → Holds orig n t o
      → Holds orig n (t ++ more) o
  Holds-full t more o pos_n full h = elim (take_cases n t) [
    | inl (lt, e) ↦ absurd (not_yet_full t o lt e full h.shows)
    | inr (le, e) ↦ record {
      y = h.y;
      shows = subst (λ x. Shows orig x h.y o) (sym (take_full n t more le)) h.shows;
      ended = elim h.ended [ inl nil ↦ absurd (nil_is_short t le nil pos_n) | inr z ↦ inr z ];
    }
  ]

module _ (fuel size pad_width : ℕ) (fmt : List ℕ) (args : List Arg) (o : Out) where
  pub loop-full :
      ltb o.off (room size) ≡ false → printf_loop (suc fuel) size pad_width fmt args o ≡ some (0, o)
  unfolding printf_loop
  loop-full e = ground (arith, e)

  module _ (lit : List ℕ) (c : ℕ) (fmt1 : List ℕ) (o1 : Out) (e : ltb o.off (room size) ≡ true)
      (split : split_literal fmt ≡ some (lit, c ∷ fmt1))
      (shown : print_all size o (map c_of lit) ≡ some o1) where
    pub loop-stop :
        ((c == 0) || (o1.off == room size)) ≡ true
        → printf_loop (suc fuel) size pad_width fmt args o ≡ some (o1.off, o1)
    unfolding printf_loop
    loop-stop stop = ground (arith, e, split, shown, stop)

    pub loop-go :
        (conversion : Conversion) (fmt2 : List ℕ) (o2 : Out)
        → ((c == 0) || (o1.off == room size)) ≡ false
        → next_conversion pad_width fmt1 args ≡ some (conversion, fmt2)
        → print_all size o1 conversion.calls ≡ some o2
        → printf_loop (suc fuel) size pad_width fmt args o
          ≡ printf_loop fuel size conversion.pad_width fmt2 conversion.args o2
    unfolding printf_loop
    loop-go conversion fmt2 o2 go next conv = ground (arith, e, split, shown, go, next, conv)

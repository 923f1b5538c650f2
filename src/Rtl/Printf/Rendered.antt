-- ===== src/Rtl/Printf/Rendered.antt =====
-- `rtlBufPrintfV` of ntos/rtl/string.c against the rendered text.
use algae.Base.{
  u32, ltb, pos, ◌-◌, ℕ, zero, suc, ◌-◌, ◌≤◌, ◌<◌, ◌≡◌, ◌≢◌, ◌^◌, refl, ap, sym, ◌∙◌, subst, Bool,
  true, false, some, List, [], ◌∷◌, ◌++◌, arith, ltb, ◌==◌, ◌||◌, length, take, drop, map,
  append_assoc, inl, inr, ◌⊎◌, Bool-cases, eqb→eq, lt→ltb,
}
use algae.Rtl.Printf.{
  Out, room, Arg, c_of, print_all, split_literal, printf_loop, to_int, rtl_buf_printf_v,
}
use algae.Rtl.Printf.Laid.{Shows, take_cases}
use algae.Rtl.Printf.Render.{render, all_text-literal, Ends, render_round, render-Split, no_fuel}
use algae.Rtl.Printf.Holds.{Holds, Holds-full, loop-full, loop-go, loop-stop, print_all_lem}

or-true : (a b : Bool) → b ≡ true → (a || b) ≡ true
or-true true b e = refl
or-true false b e = e

module _ (orig : List ℕ) (size n : ℕ) (en : room size ≡ n) (fits : n < length orig)
    (pos_n : 0 < n) where
  not_below : (o : Out) {k : ℕ} → o.off ≡ k → ltb o.off (room size) ≡ false → ¬ (k < n)
  not_below o {k = k} e full lt =
      let below = lt→ltb o.off (room size) (omega (arith, e, lt, en)) in cc

  off_at_end :
      (t : List ℕ) {y : ℕ} (o : Out)
      → Shows orig (take n t) y o
      → ltb o.off (room size) ≡ false
      → o.off ≡ n
  off_at_end t o s full = elim (take_cases n t) [
    | inl (lt, e) ↦ absurd (not_below o (s.off ∙ ap length e) full lt)
    | inr (le, e) ↦ s.off ∙ e
  ]

  -- The loop leaves the rendered text, as far as it fits.
  abbrev Loop :
      (fuel pad_width : ℕ) (fmt : List ℕ) (args : List Arg) (o : Out) (all : List ℕ) → Type 0
  Loop fuel pad_width fmt args o all =
      (ret : ℕ) × (o' : Out) × (printf_loop fuel size pad_width fmt args o ≡ some (ret, o'))
      × ((ret ≡ 0) ⊎ (ret ≡ o'.off))
      × Holds orig n all o'

  Loop-end :
      (fuel pad_width : ℕ) (fmt : List ℕ) (args : List Arg) (w t lit : List ℕ) (c : ℕ)
      (fmt1 : List ℕ) (o : Out)
      → Holds orig n t o
      → ltb o.off (room size) ≡ true
      → split_literal fmt ≡ some (lit, c ∷ fmt1)
      → (o1 : Out) → print_all size o (map c_of lit) ≡ some o1
      → Holds orig n (t ++ lit) o1
      → Ends lit w c
      → Loop (suc fuel) pad_width fmt args o (t ++ w)
  Loop-end fuel pad_width fmt args w t lit c fmt1 o h lt split o1 shown h1 r = (
    o1.off,
    o1,
    loop-stop fuel size pad_width fmt args o lit c fmt1 o1 lt split shown (rw r.at_end refl),
    inr refl,
    subst (λ x. Holds orig n (t ++ x) o1) (sym r.all) h1,
  )

  -- The buffer is full behind a literal part.
  Loop-cut :
      (fuel pad_width : ℕ) (fmt : List ℕ) (args : List Arg) (t lit more : List ℕ) (c : ℕ)
      (fmt1 : List ℕ) (o : Out)
      → ltb o.off (room size) ≡ true
      → split_literal fmt ≡ some (lit, c ∷ fmt1)
      → (o1 : Out) → print_all size o (map c_of lit) ≡ some o1
      → Holds orig n (t ++ lit) o1
      → (o1.off == room size) ≡ true
      → Loop (suc fuel) pad_width fmt args o (t ++ (lit ++ more))
  Loop-cut fuel pad_width fmt args t lit more c fmt1 o lt split o1 shown h1 full = (
    o1.off,
    o1,
    loop-stop fuel size pad_width fmt args o lit c fmt1 o1 lt split shown
        (or-true (c == 0) (o1.off == room size) full),
    inr refl,
    subst (λ x. Holds orig n x o1) (append_assoc t lit more)
        (Holds-full orig size n en fits (t ++ lit) more o1 pos_n
          (eqb→eq o1.off (room size) full ∙ en) h1),
  )

  loop_lem :
      (fuel pad_width : ℕ) (fmt : List ℕ) (args : List Arg) (w t : List ℕ) (o : Out)
      → Holds orig n t o
      → render fuel pad_width fmt args ≡ some w
      → Loop fuel pad_width fmt args o (t ++ w)
  loop_lem zero pad_width fmt args w t o h e = absurd (no_fuel pad_width fmt args w e)
  loop_lem (suc fuel) pad_width fmt args w t o h e = elim (Bool-cases (ltb o.off (room size))) [
    | inr full ↦ (
      0,
      o,
      loop-full fuel size pad_width fmt args o full,
      inl refl,
      Holds-full orig size n en fits t w o pos_n (off_at_end t o h.shows full) h,
    )
    | inl lt ↦
        let r = render-Split fuel pad_width fmt args w e in
        let (o1, shown, h1) =
          print_all_lem orig size n en fits (map c_of r.lit) t r.lit o h (all_text-literal r.lit) in
        elim (render_round fuel pad_width fmt args r.lit r.c r.fmt1 w r.rest) [
          | inl ends ↦
              Loop-end fuel pad_width fmt args w t r.lit r.c r.fmt1 o h lt r.split o1 shown h1 ends
          | inr goes ↦ elim (Bool-cases (o1.off == room size)) [
            | inl full ↦
                subst (λ x. Loop (suc fuel) pad_width fmt args o (t ++ x)) (sym goes.all)
                  (Loop-cut fuel pad_width fmt args t r.lit (goes.here ++ goes.later) r.c r.fmt1 o
                    lt r.split o1 shown h1 full)
            | inr space ↦
                let (o2, conv, h2) =
                  print_all_lem orig size n en fits goes.conversion.calls (t ++ r.lit) goes.here o1
                    h1 goes.shown in
                let (ret, o', run, back, h') =
                  loop_lem fuel goes.conversion.pad_width goes.fmt2 goes.conversion.args goes.later
                    ((t ++ r.lit) ++ goes.here) o2 h2 goes.rest in
                (
                  ret,
                  o',
                  loop-go fuel size pad_width fmt args o r.lit r.c r.fmt1 o1 lt r.split shown
                        goes.conversion goes.fmt2 o2 (rw goes.more space) goes.found conv
                      ∙ run,
                  back,
                  subst (λ x. Holds orig n x o')
                      (append_assoc (t ++ r.lit) goes.here goes.later
                        ∙ append_assoc t r.lit (goes.here ++ goes.later)
                        ∙ ap (λ x. t ++ x) (sym goes.all))
                      h',
                )
          ]
        ]
  ]

until_size :
    (size k : ℕ)
    → 1 < size
    → size ≤ k
    → size < 2 ^ 64
    → (room size ≡ size - 1) × (size - 1 < k) × (0 < size - 1)
until_size size k lo hi w = (omega (arith, lo, w), omega (arith, lo, hi), omega (arith, lo))

-- A buffer shows what the text asks for.
shown_buffer :
    (s : List ℕ) (n : ℕ) (w : List ℕ) (o : Out)
    → w ≢ []
    → Holds s n w o
    → o.buf ≡ take n w ++ 0 ∷ drop (suc (length (take n w))) s
shown_buffer s n w o some_text h = elim h.ended [
  | inl nil ↦ absurd (some_text nil)
  | inr z ↦ h.shows.buf ∙ ap (λ y. take n w ++ y ∷ drop (suc (length (take n w))) s) z
]

take_nil : (n : ℕ) → take {A = ℕ} n [] ≡ []
take_nil zero = refl
take_nil (suc n) = refl

start_lem : (s : List ℕ) (n : ℕ) → n < length s → Holds s n [] (record { buf = s; off = 0 })
start_lem (x ∷ s) n h = record {
  y = x;
  shows =
      subst (λ t. Shows (x ∷ s) t x (record { buf = x ∷ s; off = 0 })) (sym (take_nil n))
        (record { buf = refl; off = refl });
  ended = inl refl;
}
start_lem [] n h = absurd (omega (arith, h))

to_int-pos : (n size : ℕ) → n < size → size ≤ 2 ^ 31 → to_int n ≡ pos n
to_int-pos n size h small = rw (in_range n (omega (arith, h, small))) (ground (arith, h, small))
  where
    in_range : (n : ℕ) → n < 2 ^ 32 → u32 n ≡ n
    in_range n h = omega (arith, h)

length-take-le : (k : ℕ) (w : List ℕ) → length (take k w) ≤ k
length-take-le zero w = omega arith
length-take-le (suc k) [] = omega arith
length-take-le (suc k) (x ∷ w) = omega (arith, length-take-le k w)

taken-lt :
    (w : List ℕ) (size ret : ℕ)
    → 1 < size
    → (ret ≡ 0) ⊎ (ret ≡ length (take (size - 1) w))
    → ret < size
taken-lt w size ret lo (inl z) = omega (arith, lo, z)
taken-lt w size ret lo (inr e) = omega (arith, lo, e, length-take-le (size - 1) w)

-- If the format and the arguments stand for a text that is not empty, and the given size is at least
-- two, at most the buffer's and below 2 ^ 64, then `rtl_buf_printf_v` succeeds, and leaves the text's
-- first `size - 1` bytes, a zero, and behind it what the buffer held before; it returns the number of
-- those bytes, or zero.
pub rtl_buf_printf_v-render :
    (fuel size : ℕ) (s fmt : List ℕ) (args : List Arg) (w : List ℕ)
    → 1 < size
    → size ≤ length s
    → size ≤ 2 ^ 31
    → render fuel 0 fmt args ≡ some w
    → w ≢ []
    → (ret : ℕ) × (rtl_buf_printf_v fuel size s fmt args
        ≡ some (pos ret, take (size - 1) w ++ 0 ∷ drop (suc (length (take (size - 1) w))) s))
      × ((ret ≡ 0) ⊎ (ret ≡ length (take (size - 1) w)))
unfolding rtl_buf_printf_v
rtl_buf_printf_v-render fuel size s fmt args w lo hi in_word text some_text =
    let (en, fits, pos_n) = until_size size (length s) lo hi (omega (arith, in_word)) in
    let (ret, o', run, back, h) =
      loop_lem s size (size - 1) en fits pos_n fuel 0 fmt args w [] (record { buf = s; off = 0 })
        (start_lem s (size - 1) fits) text in
    let back' : (ret ≡ 0) ⊎ (ret ≡ length (take (size - 1) w)) = elim back [
      | inl z ↦ inl z
      | inr e ↦ inr (e ∙ h.shows.off)
    ] in
    (
      ret,
      rw run (
          ap (λ n. some (n, o'.buf)) (to_int-pos ret size (taken-lt w size ret lo back') in_word)
          ∙ ap (λ b. some (pos ret, b)) (shown_buffer s (size - 1) w o' some_text h)),
      back',
    )

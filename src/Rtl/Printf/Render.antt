-- ===== src/Rtl/Printf/Render.antt =====
-- The text that a format and its arguments of `rtlBufPrintfV` (ntos/rtl/string.c) stand for, and its rounds.
pub mod Bytes
use algae.Base.{
  ℕ, zero, suc, ◌≡◌, refl, sym, ◌∙◌, true, false, Option, none, some, List, [], ◌∷◌, ◌++◌, arith,
  ◌==◌, ◌>>=◌, >>=-eq-some, map, inl, inr, ◌⊎◌, Bool-cases,
}
use algae.Rtl.Printf.{Arg, c_of, Conversion, split_literal, next_conversion}
use algae.Rtl.Printf.Laid.{text_of, all_text}

-- The text of a format: its literal parts, and what each conversion prints, whole.
unfoldable pub render : (fuel pad_width : ℕ) → (fmt : List ℕ) → (args : List Arg) → Option (List ℕ)
render zero pad_width fmt args = none
render (suc fuel) pad_width fmt args = do
  literal ← split_literal fmt
  elim (literal.1) [
    | [] ↦ none
    | c ∷ fmt1 ↦ elim (c == 0) [
      | true ↦ some (literal.0)
      | false ↦ do
        next ← next_conversion pad_width fmt1 args
        here ← all_text next.0.calls
        later ← render fuel next.0.pad_width next.1 next.0.args
        some (literal.0 ++ (here ++ later))
    ]
  ]

pub some-inj : {a b : List ℕ} → some a ≡ some b → a ≡ b
some-inj e = cc

pub all_text-literal : (w : List ℕ) → all_text (map c_of w) ≡ some w
unfolding all_text text_of
all_text-literal [] = refl
all_text-literal (c ∷ w) = rw (all_text-literal w) refl

-- One round of the rendering.
pub record Ends (lit w : List ℕ) (c : ℕ) : Type 0 where
  pub at_end : (c == 0) ≡ true
  pub all : w ≡ lit

pub record Goes (fuel pad_width : ℕ) (fmt1 : List ℕ) (args : List Arg) (lit w : List ℕ) (c : ℕ)
    : Type 0 where
  pub more : (c == 0) ≡ false
  pub conversion : Conversion
  pub fmt2 : List ℕ
  pub found : next_conversion pad_width fmt1 args ≡ some (conversion, fmt2)
  pub here : List ℕ
  pub shown : all_text conversion.calls ≡ some here
  pub later : List ℕ
  pub rest : render fuel conversion.pad_width fmt2 conversion.args ≡ some later
  pub all : w ≡ lit ++ (here ++ later)

go_on : ℕ → ℕ → List ℕ → List Arg → (lit : List ℕ) → Option (List ℕ)
go_on fuel pad_width fmt1 args lit = do
  next ← next_conversion pad_width fmt1 args
  here ← all_text next.0.calls
  later ← render fuel next.0.pad_width next.1 next.0.args
  some (lit ++ (here ++ later))

pub at_terminator : (fuel pad_width : ℕ) → (args : List Arg) → (lit rest : List ℕ) → Option (List ℕ)
unfolding go_on
at_terminator fuel pad_width args lit [] = none
at_terminator fuel pad_width args lit (c ∷ fmt1) = elim (c == 0) [
  | true ↦ some lit
  | false ↦ go_on fuel pad_width fmt1 args lit
]

ended_text :
    (fuel pad_width : ℕ) (args : List Arg) (lit : List ℕ) (c : ℕ) (fmt1 w : List ℕ)
    → (c == 0) ≡ true
    → at_terminator fuel pad_width args lit (c ∷ fmt1) ≡ some w
    → w ≡ lit
unfolding at_terminator
ended_text fuel pad_width args lit c fmt1 w z e = ground (arith, z, e)

going_text :
    (fuel pad_width : ℕ) (args : List Arg) (lit : List ℕ) (c : ℕ) (fmt1 w : List ℕ)
    → (c == 0) ≡ false
    → at_terminator fuel pad_width args lit (c ∷ fmt1) ≡ some w
    → go_on fuel pad_width fmt1 args lit ≡ some w
unfolding at_terminator
going_text fuel pad_width args lit c fmt1 w z e = ground (arith, z, e)

pub render_round :
    (fuel pad_width : ℕ) (fmt : List ℕ) (args : List Arg) (lit : List ℕ) (c : ℕ) (fmt1 w : List ℕ)
    → at_terminator fuel pad_width args lit (c ∷ fmt1) ≡ some w
    → Ends lit w c ⊎ Goes fuel pad_width fmt1 args lit w c
unfolding at_terminator go_on
render_round fuel pad_width fmt args lit c fmt1 w e = elim (Bool-cases (c == 0)) [
  | inl z ↦ inl (record { at_end = z; all = ended_text fuel pad_width args lit c fmt1 w z e })
  | inr z ↦
      let e0 = going_text fuel pad_width args lit c fmt1 w z e in
      let (next, e1, r1) = >>=-eq-some (next_conversion pad_width fmt1 args) _ e0 in
      let (here, e2, r2) = >>=-eq-some (all_text next.0.calls) _ r1 in
      let (later, e3, r3) = >>=-eq-some (render fuel next.0.pad_width next.1 next.0.args) _ r2 in
      inr (record {
        more = z;
        conversion = next.0;
        fmt2 = next.1;
        found = e1;
        here = here;
        shown = e2;
        later = later;
        rest = e3;
        all = sym (some-inj r3);
      })
]

-- What the first round of a rendering splits off.
pub record Split (fuel pad_width : ℕ) (fmt : List ℕ) (args : List Arg) (w : List ℕ) : Type 0 where
  pub lit : List ℕ
  pub c : ℕ
  pub fmt1 : List ℕ
  pub split : split_literal fmt ≡ some (lit, c ∷ fmt1)
  pub rest : at_terminator fuel pad_width args lit (c ∷ fmt1) ≡ some w

no_end :
    (fuel pad_width : ℕ) (args : List Arg) (lit w : List ℕ)
    → ¬ at_terminator fuel pad_width args lit [] ≡ some w
unfolding at_terminator
no_end fuel pad_width args lit w e = cc

Split-from :
    (fuel pad_width : ℕ) (fmt : List ℕ) (args : List Arg) (w lit rest : List ℕ)
    → split_literal fmt ≡ some (lit, rest)
    → at_terminator fuel pad_width args lit rest ≡ some w
    → Split fuel pad_width fmt args w
Split-from fuel pad_width fmt args w lit [] split e = absurd (no_end fuel pad_width args lit w e)
Split-from fuel pad_width fmt args w lit (c ∷ fmt1) split e = record {
  lit = lit;
  c = c;
  fmt1 = fmt1;
  split = split;
  rest = e;
}

render_as_rounds :
    (fuel pad_width : ℕ) (fmt : List ℕ) (args : List Arg)
    → (split_literal fmt >>= λ literal. at_terminator fuel pad_width args literal.0 literal.1)
      ≡ render (suc fuel) pad_width fmt args
unfolding render at_terminator go_on
render_as_rounds fuel pad_width fmt args = refl

pub render-Split :
    (fuel pad_width : ℕ) (fmt : List ℕ) (args : List Arg) (w : List ℕ)
    → render (suc fuel) pad_width fmt args ≡ some w
    → Split fuel pad_width fmt args w
render-Split fuel pad_width fmt args w e =
    let (literal, e1, r1) =
      >>=-eq-some (split_literal fmt) (λ x. at_terminator fuel pad_width args x.0 x.1)
        (render_as_rounds fuel pad_width fmt args ∙ e) in
    Split-from fuel pad_width fmt args w literal.0 literal.1 e1 r1

pub no_fuel :
    (pad_width : ℕ) (fmt : List ℕ) (args : List Arg) (w : List ℕ)
    → ¬ render zero pad_width fmt args ≡ some w
unfolding render
no_fuel pad_width fmt args w e = cc

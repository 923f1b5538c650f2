-- ===== src/Rtl/Printf/Render/Bytes.antt =====
-- The text of a format of `rtlBufPrintfV` (ntos/rtl/string.c), byte by byte.
use algae.Base.{
  ℕ, suc, ◌≡◌, ◌≢◌, refl, sym, ap, ◌∙◌, Bool, true, false, Option, none, some, List, [], ◌∷◌, ◌++◌,
  ◌==◌, ◌>>=◌, ne→eqb,
}
use algae.Rtl.Printf.{Arg, Call, Conversion, split_literal, next_conversion}
use algae.Rtl.Printf.Laid.{all_text}
use algae.Rtl.Printf.Render.{render, at_terminator, go_on, render_as_rounds}

module _ (c : ℕ) (lit : List ℕ) where
  -- The byte stands in front, whatever the conversion and the texts are.
  texts_byte :
      (x y : Option (List ℕ))
      → (x >>= λ here. y >>= λ later. some ((c ∷ lit) ++ (here ++ later)))
        ≡ ((x >>= λ here. y >>= λ later. some (lit ++ (here ++ later))) >>= λ t. some (c ∷ t))
  texts_byte none y = refl
  texts_byte (some here) none = refl
  texts_byte (some here) (some later) = refl

  next_byte :
      (o : Option (Conversion × List ℕ)) (f g : Conversion × List ℕ → Option (List ℕ))
      → (o >>= λ next. f next >>= λ here. g next >>= λ later. some ((c ∷ lit) ++ (here ++ later)))
        ≡ ((o >>= λ next. f next >>= λ here. g next >>= λ later. some (lit ++ (here ++ later)))
            >>= λ t. some (c ∷ t))
  next_byte none f g = refl
  next_byte (some next) f g = texts_byte (f next) (g next)

  go_on_byte :
      (fuel pad : ℕ) (fmt : List ℕ) (args : List Arg)
      → go_on fuel pad fmt args (c ∷ lit) ≡ (go_on fuel pad fmt args lit >>= λ t. some (c ∷ t))
  unfolding go_on
  go_on_byte fuel pad fmt args =
      next_byte (next_conversion pad fmt args) (λ next. all_text next.0.calls)
        (λ next. render fuel next.0.pad_width next.1 next.0.args)

  at_end_byte :
      (b : Bool) (x y : Option (List ℕ))
      → x ≡ (y >>= λ t. some (c ∷ t))
      → (elim b [ true ↦ some (c ∷ lit) | false ↦ x ])
        ≡ ((elim b [ true ↦ some lit | false ↦ y ]) >>= λ t. some (c ∷ t))
  at_end_byte true x y h = refl
  at_end_byte false x y h = h

at_terminator_byte :
    (fuel pad c : ℕ) (args : List Arg) (lit rest : List ℕ)
    → at_terminator fuel pad args (c ∷ lit) rest
      ≡ (at_terminator fuel pad args lit rest >>= λ t. some (c ∷ t))
unfolding at_terminator
at_terminator_byte fuel pad c args lit [] = refl
at_terminator_byte fuel pad c args lit (d ∷ fmt) =
    at_end_byte c lit (d == 0) (go_on fuel pad fmt args (c ∷ lit)) (go_on fuel pad fmt args lit)
      (go_on_byte c lit fuel pad fmt args)

-- One more byte in front of a literal part.
abbrev with_byte : (c : ℕ) → List ℕ × List ℕ → Option (List ℕ × List ℕ)
with_byte c r = some (c ∷ r.0, r.1)

split_literal_byte :
    (c : ℕ) (fmt : List ℕ)
    → c ≢ 0
    → c ≢ b'%'
    → split_literal (c ∷ fmt) ≡ (split_literal fmt >>= with_byte c)
unfolding split_literal
split_literal_byte c fmt h k = rw (ne→eqb c 0 h) rw (ne→eqb c b'%' k) refl

round_byte :
    (fuel pad c : ℕ) (args : List Arg) (o : Option (List ℕ × List ℕ))
    → ((o >>= with_byte c) >>= λ l. at_terminator fuel pad args l.0 l.1)
      ≡ ((o >>= λ l. at_terminator fuel pad args l.0 l.1) >>= λ t. some (c ∷ t))
round_byte fuel pad c args none = refl
round_byte fuel pad c args (some r) = at_terminator_byte fuel pad c args r.0 r.1

-- A byte that is neither the end nor a `%` stands in front of the text of the rest.
pub render_byte :
    (fuel pad c : ℕ) (fmt : List ℕ) (args : List Arg)
    → c ≢ 0
    → c ≢ b'%'
    → render (suc fuel) pad (c ∷ fmt) args ≡ (render (suc fuel) pad fmt args >>= λ t. some (c ∷ t))
render_byte fuel pad c fmt args h k =
    sym (render_as_rounds fuel pad (c ∷ fmt) args)
    ∙ ap (λ o. o >>= λ l. at_terminator fuel pad args l.0 l.1) (split_literal_byte c fmt h k)
    ∙ round_byte fuel pad c args (split_literal fmt)
    ∙ ap (λ o. o >>= λ t. some (c ∷ t)) (render_as_rounds fuel pad fmt args)

-- The text of a conversion stands in front of the text of the rest.
pub render_conversion :
    (fuel k : ℕ) (fmt : List ℕ) (args args' : List Arg) (calls : List Call) (here later : List ℕ)
    → next_conversion 0 (k ∷ fmt) args
      ≡ some (record { calls = calls; args = args'; pad_width = 0 }, fmt)
    → all_text calls ≡ some here
    → render fuel 0 fmt args' ≡ some later
    → render (suc fuel) 0 (b'%' ∷ k ∷ fmt) args ≡ some (here ++ later)
unfolding render split_literal
render_conversion fuel k fmt args args' calls here later e shown rest = rw e rw shown rw rest refl

pub render_end :
    (fuel : ℕ) (rest : List ℕ) (args : List Arg) → render (suc fuel) 0 (0 ∷ rest) args ≡ some []
unfolding render split_literal
render_end fuel rest args = refl

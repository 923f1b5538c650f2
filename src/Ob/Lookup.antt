-- ===== src/Ob/Lookup.antt =====
-- `obLookupObject` on a path, against the lookup of one component after another.
use algae.Base.{
  ℕ, zero, suc, ◌+◌, ◌-◌, ◌<◌, ◌≡◌, ◌≢◌, refl, ◌∙◌, true, false, Option, none, some, List, [], ◌∷◌,
  ◌++◌, arith, ◌==◌, if◌then◌else◌, ◌>>=◌, length, All, inl, inr, Bool-cases, append_assoc,
  append-nil,
}
use algae.Status.{status_success}
use algae.Rtl.Str.{c_str}
use algae.Ob.{
  ObStore, component, nt_obname_len, ob_directory_lookup, skip_slashes, take_component, lookup_loop,
  ob_lookup_object,
}

-- A byte of a path component.
abbrev pub IsNameByte : ℕ → Type 0
IsNameByte c = (0 < c) × (c ≢ b'/')

-- A component that fits the buffer of `obLookupObject`.
pub record IsComponent (name : List ℕ) : Type 0 where
  pub bytes : All IsNameByte name
  pub nonempty : 0 < length name
  pub short : length name < nt_obname_len - 1

-- Each component behind `n + 1` slashes; the last one is followed by the terminator.
abbrev pub slashes : ℕ → List ℕ → List ℕ
slashes zero tail = tail
slashes (suc n) tail = b'/' ∷ slashes n tail

abbrev pub path_of : List (ℕ × List ℕ) → (rest : List ℕ) → List ℕ
path_of [] rest = 0 ∷ rest
path_of ((n, name) ∷ names) rest = slashes (suc n) (name ++ path_of names rest)

-- One directory lookup after another, until one fails.
pub resolve : ObStore → (cur : ℕ) → List (ℕ × List ℕ) → Option (ℕ × ℕ)
resolve s cur [] = some (status_success, cur)
resolve s cur ((n, name) ∷ names) = do
  found ← ob_directory_lookup s cur (c_str name [])
  let rest = resolve s found.1 names
  if found.0 == status_success then rest else some (found.0, 0)

-- The text behind a component: a slash or the terminator.
data Stops : List ℕ → Type 0 where
  slash : (tail : List ℕ) → Stops (b'/' ∷ tail)
  end : (tail : List ℕ) → Stops (0 ∷ tail)

path_of-Stops : (names : List (ℕ × List ℕ)) (rest : List ℕ) → Stops (path_of names rest)
path_of-Stops [] rest = end rest
path_of-Stops ((n, name) ∷ names) rest = slash _

take_component_stop :
    (i : ℕ) (name : List ℕ) {tail : List ℕ}
    → Stops tail
    → take_component i name tail ≡ some (component name tail)
unfolding take_component
take_component_stop i name (slash tail) = refl
take_component_stop i name (end tail) = refl

take_component_lem :
    (bytes : List ℕ) (i : ℕ) (name tail : List ℕ)
    → All IsNameByte bytes
    → i + length bytes < nt_obname_len - 1
    → Stops tail
    → take_component i name (bytes ++ tail) ≡ some (component (name ++ bytes) tail)
unfolding take_component
take_component_lem [] i name tail h short stops =
    rw (append-nil name) (take_component_stop i name stops)
take_component_lem (c ∷ bytes) i name tail h short stops = ground (
  arith,
  take_component_lem bytes (i + 1) (name ++ c ∷ []) tail h.1 (omega arith) stops,
  append_assoc name (c ∷ []) bytes,
)

skip_slashes_lem :
    (n : ℕ) (c : ℕ) (tail : List ℕ) → c ≢ b'/' → skip_slashes (slashes n (c ∷ tail)) ≡ c ∷ tail
unfolding skip_slashes
skip_slashes_lem zero c tail h = ground arith
skip_slashes_lem (suc n) c tail h = skip_slashes_lem n c tail h

-- What the loop stands at once the slashes in front of the next component are skipped.
abbrev at_component : List (ℕ × List ℕ) → (rest : List ℕ) → List ℕ
at_component [] rest = 0 ∷ rest
at_component ((n, name) ∷ names) rest = name ++ path_of names rest

skip-path_of :
    (names : List (ℕ × List ℕ)) (rest : List ℕ)
    → All (λ c. IsComponent c.1) names
    → skip_slashes (path_of names rest) ≡ at_component names rest
skip-path_of [] rest h = skip_slashes_lem 0 0 rest (omega arith)
skip-path_of ((n, []) ∷ names) rest h = absurd (omega (arith, h.0.nonempty))
skip-path_of ((n, c ∷ name) ∷ names) rest h =
    skip_slashes_lem (suc n) c (name ++ path_of names rest) h.0.bytes.0.1

lookup_loop_step :
    (fuel : ℕ) (s : ObStore) (cur c : ℕ) (tail name rest : List ℕ)
    → (c == 0) ≡ false
    → take_component 0 [] (c ∷ tail) ≡ some (component name rest)
    → lookup_loop (suc fuel) s cur (c ∷ tail) ≡ (do
      found ← ob_directory_lookup s cur (c_str name [])
      elim (found.0 == status_success) [
        | true ↦ lookup_loop fuel s found.1 (skip_slashes rest)
        | false ↦ some (found.0, 0)
      ])
unfolding lookup_loop
lookup_loop_step fuel s cur c tail name rest ne taken = ground (arith, ne, taken)

-- The two ways to go on after a directory lookup agree if the rest of the path agrees.
round_agrees :
    (r : Option (ℕ × ℕ)) {f g : ℕ → Option (ℕ × ℕ)}
    → ((cur : ℕ) → f cur ≡ g cur)
    → (do
      found ← r
      elim (found.0 == status_success) [ true ↦ f found.1 | false ↦ some (found.0, 0) ])
      ≡ (do
        found ← r
        let rest = g found.1
        if found.0 == status_success then rest else some (found.0, 0))
round_agrees none h = refl
round_agrees (some found) h = elim (Bool-cases (found.0 == status_success)) [
  | inl e ↦ ground (arith, e, h found.1)
  | inr e ↦ ground (arith, e)
]

module _ (s : ObStore) (rest : List ℕ) where
  lookup_loop_lem :
      (names : List (ℕ × List ℕ)) (fuel cur : ℕ)
      → All (λ c. IsComponent c.1) names
      → length names < fuel
      → lookup_loop fuel s cur (at_component names rest) ≡ resolve s cur names
  unfolding lookup_loop resolve
  lookup_loop_lem [] (suc fuel) cur h enough = refl
  lookup_loop_lem [] zero cur h enough = elim enough [ ]
  lookup_loop_lem (x ∷ names) zero cur h enough = elim enough [ ]
  lookup_loop_lem ((n, []) ∷ names) (suc fuel) cur h enough = absurd (omega (arith, h.0.nonempty))
  lookup_loop_lem ((n, c ∷ name) ∷ names) (suc fuel) cur h enough =
      lookup_loop_step fuel s cur c (name ++ path_of names rest) (c ∷ name) (path_of names rest)
        (ground (arith, h.0.bytes.0))
        (take_component_lem (c ∷ name) 0 [] (path_of names rest) h.0.bytes
          (omega (arith, h.0.short)) (path_of-Stops names rest))
      ∙ round_agrees (ob_directory_lookup s cur (c_str (c ∷ name) [])) (λ next.
        rw (skip-path_of names rest h.1)
          (lookup_loop_lem names fuel next h.1 (omega (arith, enough))))

  -- For a path of components that fit the buffer, with any number of slashes from one on in front of each,
  -- and fuel above their number, `obLookupObject` gives what the directory lookups of the components
  -- give, one after another from the root until one fails.
  pub ob_lookup_object-resolve :
      (names : List (ℕ × List ℕ)) (fuel : ℕ)
      → All (λ c. IsComponent c.1) names
      → length names < fuel
      → ob_lookup_object fuel s (path_of names rest) ≡ resolve s s.root names
  unfolding ob_lookup_object
  ob_lookup_object-resolve names fuel h enough =
      rw (skip-path_of names rest h) (lookup_loop_lem names fuel s.root h enough)

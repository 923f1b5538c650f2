-- ===== src/Ob/Entries.antt =====
-- Lookups among the entries of a directory, as objects and entries are added.
use algae.Base.{
  ℕ, ◌≡◌, refl, ◌∙◌, ap, sym, Bool, true, false, Option, some, List, [], ◌∷◌, ◌++◌, ◌==◌,
  >>=-eq-some, inl, inr, Bool-cases, ℤ, ◌⊎◌, eqb→eq,
}
use algae.Status.{status_success, status_object_notfound}
use algae.Rtl.Str.{rtl_strcmp}
use algae.Omar.BootPack.{is_zero}
use algae.Ob.{ObStore, NtObject, null, put, find_entry}

-- Each object is still there, under the same name.
abbrev pub KeepsNames : (s s' : ObStore) → Type 0
KeepsNames s s' =
    (q : ℕ) (o : NtObject)
    → s.object q ≡ some o
    → (o' : NtObject) × (s'.object q ≡ some o') × (o'.name ≡ o.name)

-- The first entry: its object and the comparison of the names.
pub record Compared (s : ObStore) (cur : ℕ) (name : List ℕ) (same : Bool) : Type 0 where
  pub o : NtObject
  pub found : s.object cur ≡ some o
  pub n : ℤ
  pub compared : rtl_strcmp o.name name ≡ some n
  pub result : is_zero n ≡ same

pub first_hit :
    (s : ObStore) (cur : ℕ) (dir name : List ℕ)
    → Compared s cur name true
    → find_entry s (cur ∷ dir) name ≡ some (status_success, cur)
unfolding find_entry
first_hit s cur dir name c = rw c.found rw c.compared rw c.result refl

first_miss :
    (s : ObStore) (cur : ℕ) (dir name : List ℕ)
    → Compared s cur name false
    → find_entry s (cur ∷ dir) name ≡ find_entry s dir name
unfolding find_entry
first_miss s cur dir name c = rw c.found rw c.compared rw c.result refl

first_cases :
    (s : ObStore) (cur : ℕ) (dir name : List ℕ) {r : ℕ × ℕ}
    → find_entry s (cur ∷ dir) name ≡ some r
    → Compared s cur name true ⊎ Compared s cur name false
unfolding find_entry
first_cases s cur dir name h =
    let (o, found, h1) = >>=-eq-some (s.object cur) _ h in
    let (n, compared, h2) = >>=-eq-some (rtl_strcmp o.name name) _ h1 in
    elim (Bool-cases (is_zero n)) [
      | inl e ↦ inl (record { o = o; found = found; n = n; compared = compared; result = e })
      | inr e ↦ inr (record { o = o; found = found; n = n; compared = compared; result = e })
    ]

Compared-KeepsNames :
    (s s' : ObStore) {cur : ℕ} {name : List ℕ} {same : Bool}
    → KeepsNames s s'
    → Compared s cur name same
    → Compared s' cur name same
Compared-KeepsNames s s' {cur = cur} {name = name} keeps c =
    let (o', found', e) = keeps cur c.o c.found in
    record {
      o = o';
      found = found';
      n = c.n;
      compared = ap (λ x. rtl_strcmp x name) e ∙ c.compared;
      result = c.result;
    }

pub find_entry-KeepsNames :
    (s s' : ObStore)
    → KeepsNames s s'
    → (dir name : List ℕ) {r : ℕ × ℕ} → find_entry s dir name ≡ some r
    → find_entry s' dir name ≡ some r
unfolding find_entry
find_entry-KeepsNames s s' keeps [] name h = h
find_entry-KeepsNames s s' keeps (cur ∷ dir) name h = elim (first_cases s cur dir name h) [
  | inl c ↦
      first_hit s' cur dir name (Compared-KeepsNames s s' keeps c)
      ∙ sym (first_hit s cur dir name c)
      ∙ h
  | inr c ↦
      first_miss s' cur dir name (Compared-KeepsNames s s' keeps c)
      ∙ find_entry-KeepsNames s s' keeps dir name (sym (first_miss s cur dir name c) ∙ h)
]

-- An object that is put where there was none, or where one of the same name was.
pub put-KeepsNames :
    (s : ObStore) (p : ℕ) (new : NtObject)
    → ((o : NtObject) → s.object p ≡ some o → new.name ≡ o.name)
    → KeepsNames s (put s p (some new))
put-KeepsNames s p new same q o found = elim (Bool-cases (p == q)) [
  | inl e ↦ (new, rw e refl, same o (ap s.object (eqb→eq p q e) ∙ found))
  | inr e ↦ (o, rw e found, refl)
]

-- An entry is found whatever stands behind it.
pub find_entry-hit-append :
    (s : ObStore) (dir tail name : List ℕ) {q : ℕ}
    → find_entry s dir name ≡ some (status_success, q)
    → find_entry s (dir ++ tail) name ≡ some (status_success, q)
unfolding find_entry
find_entry-hit-append s [] tail name h = absurd cc
find_entry-hit-append s (cur ∷ dir) tail name h = elim (first_cases s cur dir name h) [
  | inl c ↦ first_hit s cur (dir ++ tail) name c ∙ sym (first_hit s cur dir name c) ∙ h
  | inr c ↦
      first_miss s cur (dir ++ tail) name c
      ∙ find_entry-hit-append s dir tail name (sym (first_miss s cur dir name c) ∙ h)
]

hit_is_no_miss :
    {q : ℕ}
    → ¬ (◌≡◌ {A = Option (ℕ × ℕ)} (some (status_success, q)) (some (status_object_notfound, null)))
hit_is_no_miss e = cc

-- A name that no entry has is looked for behind them.
pub find_entry-miss-append :
    (s : ObStore) (dir tail name : List ℕ)
    → find_entry s dir name ≡ some (status_object_notfound, null)
    → find_entry s (dir ++ tail) name ≡ find_entry s tail name
unfolding find_entry
find_entry-miss-append s [] tail name h = refl
find_entry-miss-append s (cur ∷ dir) tail name h = elim (first_cases s cur dir name h) [
  | inl c ↦ absurd (hit_is_no_miss (sym (first_hit s cur dir name c) ∙ h))
  | inr c ↦
      first_miss s cur (dir ++ tail) name c
      ∙ find_entry-miss-append s dir tail name (sym (first_miss s cur dir name c) ∙ h)
]

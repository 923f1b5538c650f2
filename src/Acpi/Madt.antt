-- ===== src/Acpi/Madt.antt =====
-- The walk over the MADT against the list of its entries.
use algae.Base.{
  ℕ, zero, suc, ◌+◌, ◌≤◌, ◌<◌, ◌≡◌, ◌≢◌, refl, sym, ap, ◌∙◌, true, false, Option, none, some, List,
  [], ◌∷◌, arith, ◌==◌, if◌then◌else◌, ◌>>=◌, ℤ, pos, negsuc, length, Bool-cases, inl, inr, ne→eqb,
  lt→ltb,
}
use algae.Rtl.Memory.{Memory}
use algae.Acpi.{
  Acpi, Callback, is_final, madt_loop, acpi_read_madt, cache_madt, madt_size, header_length, null,
}

-- An entry of the table: its type and its length with the header.
pub record Entry : Type 0 where
  pub type : ℕ
  pub len : ℕ

-- The entries stand one behind the other from `p` to `end_`; each is as long as its header at least.
abbrev pub IsLaid : Memory → (p end_ : ℕ) → List Entry → Type 0
IsLaid m p end_ [] = p ≡ end_
IsLaid m p end_ (e ∷ es) =
    (m p ≡ e.type) × (m (p + 1) ≡ e.len) × (2 ≤ e.len) × IsLaid m (p + e.len) end_ es

-- The addresses of the entries of a type.
unfoldable pub addresses_of : (type p : ℕ) → List Entry → List ℕ
addresses_of type p [] = []
addresses_of type p (e ∷ es) =
    let rest = addresses_of type (p + e.len) es in if e.type == type then p ∷ rest else rest

-- The callback on each address in turn, until one returns a number that is not negative.
unfoldable pub until_final : {A : Type 0} → Callback A → List ℕ → A → Option (ℤ × A)
until_final cb [] a = some (negsuc 0, a)
until_final cb (p ∷ ps) a = do
  r ← cb a p
  elim (is_final r.0) [ true ↦ some r | false ↦ until_final cb ps r.1 ]

IsLaid-le : (m : Memory) (p end_ : ℕ) (es : List Entry) → IsLaid m p end_ es → p ≤ end_
IsLaid-le m p end_ [] h = omega (arith, h)
IsLaid-le m p end_ (e ∷ es) h = omega (arith, h.2, IsLaid-le m (p + e.len) end_ es h.3)

bind_ext :
    {A : Type 0} (o : Option (ℤ × A)) (f g : ℤ × A → Option (ℤ × A))
    → ((r : ℤ × A) → f r ≡ g r)
    → (o >>= f) ≡ (o >>= g)
bind_ext none f g h = refl
bind_ext (some r) f g h = h r

module _ {A : Type 0} (m : Memory) (type end_ : ℕ) (cb : Callback A) where
  -- What the loop does behind a call of the callback.
  loop_on : (fuel next : ℕ) → ℤ × A → Option (ℤ × A)
  loop_on fuel next r = elim (is_final r.0) [
    | true ↦ some r
    | false ↦ madt_loop fuel m type cb next end_ r.0 r.1
  ]

  visit_on : List ℕ → ℤ × A → Option (ℤ × A)
  visit_on ps r = elim (is_final r.0) [ true ↦ some r | false ↦ until_final cb ps r.1 ]

  on_same :
      (fuel next : ℕ) (ps : List ℕ) (r : ℤ × A)
      → (is_final r.0 ≡ false → madt_loop fuel m type cb next end_ r.0 r.1 ≡ until_final cb ps r.1)
      → loop_on fuel next r ≡ visit_on ps r
  unfolding loop_on visit_on
  on_same fuel next ps (pos n, a) h = refl
  on_same fuel next ps (negsuc n, a) h = h refl

  module _ (fuel p : ℕ) (retval : ℤ) (a : A) where
    loop-end : p ≡ end_ → madt_loop (suc fuel) m type cb p end_ retval a ≡ some (negsuc 0, a)
    unfolding madt_loop
    loop-end e = ground (arith, e)

    loop-visit :
        (len : ℕ)
        → p < end_
        → (m p == type) ≡ true
        → m (p + 1) ≡ len
        → madt_loop (suc fuel) m type cb p end_ retval a ≡ (cb a p >>= loop_on fuel (p + len))
    unfolding madt_loop loop_on
    loop-visit len lt same e = rw (sym e) rw (lt→ltb p end_ lt, madt_loop) rw same refl

    loop-skip :
        (len : ℕ)
        → p < end_
        → (m p == type) ≡ false
        → is_final retval ≡ false
        → m (p + 1) ≡ len
        → madt_loop (suc fuel) m type cb p end_ retval a
          ≡ madt_loop fuel m type cb (p + len) end_ retval a
    unfolding madt_loop
    loop-skip len lt other neg e = rw (sym e) ground (arith, lt→ltb p end_ lt, other, neg)

  addresses-visit :
      (p : ℕ) (e : Entry) (es : List Entry)
      → (e.type == type) ≡ true
      → addresses_of type p (e ∷ es) ≡ p ∷ addresses_of type (p + e.len) es
  unfolding addresses_of
  addresses-visit p e es same = rw same refl

  addresses-skip :
      (p : ℕ) (e : Entry) (es : List Entry)
      → (e.type == type) ≡ false
      → addresses_of type p (e ∷ es) ≡ addresses_of type (p + e.len) es
  unfolding addresses_of
  addresses-skip p e es other = rw other refl

  none_visited : (p : ℕ) (a : A) → some (negsuc 0, a) ≡ until_final cb (addresses_of type p []) a
  unfolding until_final addresses_of
  none_visited p a = refl

  until_final-cons :
      (p : ℕ) (ps : List ℕ) (a : A) → (cb a p >>= visit_on ps) ≡ until_final cb (p ∷ ps) a
  unfolding until_final visit_on
  until_final-cons p ps a = refl

  pub madt_loop_lem :
      (es : List Entry) (fuel p : ℕ) (retval : ℤ) (a : A)
      → is_final retval ≡ false
      → IsLaid m p end_ es
      → length es < fuel
      → madt_loop fuel m type cb p end_ retval a ≡ until_final cb (addresses_of type p es) a
  madt_loop_lem es zero p retval a neg laid enough = absurd (omega (arith, enough))
  madt_loop_lem [] (suc fuel) p retval a neg laid enough =
      loop-end fuel p retval a laid ∙ none_visited p a
  madt_loop_lem (e ∷ es) (suc fuel) p retval a neg laid enough =
      let below : p < end_ = omega (arith, laid.2, IsLaid-le m (p + e.len) end_ es laid.3) in
      elim (Bool-cases (e.type == type)) [
        | inl same ↦
            loop-visit fuel p retval a e.len below (ap (λ k. k == type) laid.0 ∙ same) laid.1
            ∙ bind_ext (cb a p) (loop_on fuel (p + e.len))
                (visit_on (addresses_of type (p + e.len) es))
                (λ r. on_same fuel (p + e.len) (addresses_of type (p + e.len) es) r (λ neg'.
                  madt_loop_lem es fuel (p + e.len) r.0 r.1 neg' laid.3 (omega (arith, enough))))
            ∙ until_final-cons p (addresses_of type (p + e.len) es) a
            ∙ ap (λ ps. until_final cb ps a) (sym (addresses-visit p e es same))
        | inr other ↦
            loop-skip fuel p retval a e.len below (ap (λ k. k == type) laid.0 ∙ other) neg laid.1
            ∙ madt_loop_lem es fuel (p + e.len) retval a neg laid.3 (omega (arith, enough))
            ∙ ap (λ ps. until_final cb ps a) (sym (addresses-skip p e es other))
      ]

cached : (s : Acpi) → s.madt ≢ null → cache_madt s ≡ some s
unfolding cache_madt
cached s h = rw (ne→eqb s.madt null h) refl

-- For a MADT that is found, or was found before, whose entries stand one behind the other up to its
-- length, each with two bytes at least, and fuel above their number, `acpiReadMadt` remembers the table,
-- calls the callback on the entries of the type alone, in their order, and ends with the first result that
-- is not negative, or with -1.
pub acpi_read_madt-until_final :
    {A : Type 0} (fuel : ℕ) (s s' : Acpi) (type : ℕ) (cb : Callback A) (a : A) (es : List Entry)
    → cache_madt s ≡ some s'
    → s'.madt ≢ null
    → IsLaid s'.memory (s'.madt + madt_size) (s'.madt + header_length s'.memory s'.madt) es
    → length es < fuel
    → acpi_read_madt fuel s type (some cb) a
      ≡ (do r ← until_final cb (addresses_of type (s'.madt + madt_size) es) a; some (r.0, s', r.1))
unfolding acpi_read_madt
acpi_read_madt-until_final fuel s s' type cb a es found there laid enough =
    rw found rw (ne→eqb s'.madt null there) rw
      (madt_loop_lem s'.memory type (s'.madt + header_length s'.memory s'.madt) cb es fuel
        (s'.madt + madt_size) (negsuc 0) a refl laid enough)
      refl

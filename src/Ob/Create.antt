-- ===== src/Ob/Create.antt =====
-- `obCreateObject` in a directory and the lookups after it.
use algae.Base.{
  ℕ, suc, ◌-◌, ◌<◌, ◌≡◌, ◌≢◌, refl, ◌∙◌, ap, sym, true, false, Option, none, some, List, [], ◌∷◌,
  ◌++◌, arith, ◌==◌, leb, length, All, pos, ◌||◌, ne→eqb, replicate,
}
use algae.Status.{status_success, status_object_notfound}
use algae.Rtl.Str.{c_str, rtl_strcmp}
use algae.Rtl.Str.Compare.{IsText, rtl_strlen-length, rtl_strcmp_self}
use algae.Omar.BootPack.{read_bytes}
use algae.Ob.{
  ObStore, ObjectDir, NtObject, directory, null, nt_obname_len, nt_ob_directory, nt_ob_max, put,
  append_entry, add_to, find_in, ob_directory_add, find_entry, ob_directory_lookup,
  ob_lookup_object, init_object, create_in, find_parent, create_named, ob_create_object,
}
use algae.Ob.Lookup.{IsComponent, IsNameByte}
use algae.Ob.Entries.{
  KeepsNames, Compared, first_hit, find_entry-KeepsNames, put-KeepsNames, find_entry-hit-append,
  find_entry-miss-append,
}

read_bytes-c_str : (name rest : List ℕ) → read_bytes (length name) (c_str name rest) ≡ some name
unfolding read_bytes
read_bytes-c_str [] rest = refl
read_bytes-c_str (c ∷ name) rest = rw (read_bytes-c_str name rest) refl

IsNameByte-IsText : (name : List ℕ) → All IsNameByte name → IsText name
IsNameByte-IsText [] h = h
IsNameByte-IsText (c ∷ name) h = (h.0.0, IsNameByte-IsText name h.1)

same_name : {o o' : NtObject} → ◌≡◌ {A = Option NtObject} (some o) (some o') → o.name ≡ o'.name
same_name e = cc

eqb_self : (n : ℕ) → (n == n) ≡ true
eqb_self n = ground arith

leb-false : (n k : ℕ) → k < n → leb n k ≡ false
leb-false n k h = ground (arith, h)

suc_slack : (n : ℕ) → n < nt_obname_len - 1 → nt_obname_len - n ≡ suc (nt_obname_len - 1 - n)
suc_slack n h = omega (arith, h)

some_is_not_none : {o : NtObject} → ¬ ◌≡◌ {A = Option NtObject} (some o) none
some_is_not_none e = cc

-- The name of a new object is a C string in its field.
name-c_str :
    (type : ℕ) (name : List ℕ) (ref : ℕ)
    → IsComponent name
    → (zeros : List ℕ) × ((init_object type name ref).name ≡ c_str name zeros)
unfolding init_object
name-c_str type name ref h = (
  replicate (nt_obname_len - 1 - length name) 0,
  ap (λ n. name ++ replicate n 0) (suc_slack (length name) h.short),
)

-- The store after an object is created in the directory `d` of the object `o`.
abbrev pub linked : ObStore → (fresh p type : ℕ) → (name : List ℕ) → NtObject → ObjectDir → ObStore
linked s fresh p type name o d =
    put (put s fresh (some (init_object type name 2))) p
      (some (record o { data_ptr = directory (append_entry d fresh) }))

short_name :
    (name : List ℕ)
    → IsComponent name
    → ((length name == 0) || leb (nt_obname_len - 1) (length name)) ≡ false
short_name name h = ground (arith, h.nonempty, h.short)

-- A new object and the directory that is to hold it; the directory's data has been allocated.
pub record CanCreate (s : ObStore) (fresh p : ℕ) (o : NtObject) (d : ObjectDir) : Type 0 where
  pub allocated : fresh ≢ null
  pub unused : s.object fresh ≡ none
  pub parent : p ≢ null
  pub found : s.object p ≡ some o
  pub is_directory : o.type ≡ nt_ob_directory
  pub has_directory : o.data_ptr ≡ directory d

module _ (s : ObStore) (fresh p type : ℕ) (name rest : List ℕ) (o : NtObject) (d : ObjectDir)
    (can : CanCreate s fresh p o d) (short : IsComponent name) where
  fresh-ne-p : fresh ≢ p
  fresh-ne-p e = some_is_not_none (sym can.found ∙ ap s.object (sym e) ∙ can.unused)

  ob_directory_add-linked :
      ob_directory_add (put s fresh (some (init_object type name 2))) p fresh
      ≡ some (status_success, linked s fresh p type name o d)
  unfolding ob_directory_add add_to
  ob_directory_add-linked =
      rw (ne→eqb p null can.parent) rw (ne→eqb fresh null can.allocated) rw
        (ne→eqb fresh p fresh-ne-p) rw can.found rw can.is_directory rw can.has_directory refl

  create_in-linked :
      create_in s fresh p type (c_str name rest)
      ≡ some (status_success, fresh, linked s fresh p type name o d)
  unfolding create_in
  create_in-linked =
      rw (rtl_strlen-length name rest (IsNameByte-IsText name short.bytes)) rw
        (short_name name short) rw (ne→eqb fresh null can.allocated) rw (read_bytes-c_str name rest)
        rw (ne→eqb p null can.parent) rw ob_directory_add-linked refl

  put_other :
      (q : ℕ) → fresh ≢ q → (put s fresh (some (init_object type name 2))).object q ≡ s.object q
  put_other q ne = rw (ne→eqb fresh q ne) refl

  linked-KeepsNames : KeepsNames s (linked s fresh p type name o d)
  linked-KeepsNames q o' found =
      let (o1, found1, e1) =
        put-KeepsNames s fresh (init_object type name 2)
          (λ x h. absurd (some_is_not_none (sym h ∙ can.unused))) q o' found in
      let (o2, found2, e2) =
        put-KeepsNames (put s fresh (some (init_object type name 2))) p
          (record o { data_ptr = directory (append_entry d fresh) })
          (λ x h. same_name (sym can.found ∙ sym (put_other p fresh-ne-p) ∙ h)) q o1 found1 in
      (o2, found2, e2 ∙ e1)

  compared_lem : rtl_strcmp (init_object type name 2).name (c_str name []) ≡ some (pos 0)
  compared_lem =
      let (zeros, e) = name-c_str type name 2 short in
      ap (λ x. rtl_strcmp x (c_str name [])) e
      ∙ rtl_strcmp_self name zeros [] (IsNameByte-IsText name short.bytes)

  new-Compared : Compared (linked s fresh p type name o d) fresh (c_str name []) true
  unfolding init_object
  new-Compared = record {
    o = init_object type name 2;
    found = rw (ne→eqb p fresh (λ e. fresh-ne-p (sym e))) rw (eqb_self fresh) refl;
    n = pos 0;
    compared = compared_lem;
    result = refl;
  }

  lookup-linked :
      (other : List ℕ)
      → ob_directory_lookup (linked s fresh p type name o d) p other
        ≡ find_entry (linked s fresh p type name o d) (d.dir ++ fresh ∷ []) other
  unfolding ob_directory_lookup find_in
  lookup-linked other = rw (ne→eqb p null can.parent) rw (eqb_self p) rw can.is_directory refl

  lookup_before : (other : List ℕ) → ob_directory_lookup s p other ≡ find_entry s d.dir other
  unfolding ob_directory_lookup find_in
  lookup_before other =
      rw (ne→eqb p null can.parent) rw can.found rw can.is_directory rw can.has_directory refl

  lookup_new :
      find_entry s d.dir (c_str name []) ≡ some (status_object_notfound, null)
      → ob_directory_lookup (linked s fresh p type name o d) p (c_str name [])
        ≡ some (status_success, fresh)
  lookup_new missing =
      let s' = linked s fresh p type name o d in
      lookup-linked (c_str name [])
      ∙ find_entry-miss-append s' d.dir (fresh ∷ []) (c_str name [])
          (find_entry-KeepsNames s s' linked-KeepsNames d.dir (c_str name []) missing)
      ∙ first_hit s' fresh [] (c_str name []) new-Compared

  find_parent_lem :
      (fuel : ℕ) (path : List ℕ)
      → ob_lookup_object fuel s path ≡ some (status_success, p)
      → find_parent fuel s (some path) ≡ some (status_success, p)
  unfolding find_parent
  find_parent_lem fuel path parent_found = rw parent_found rw can.found rw can.is_directory refl

  create_lem :
      (fuel : ℕ) (path : List ℕ)
      → type < nt_ob_max
      → ob_lookup_object fuel s path ≡ some (status_success, p)
      → ob_create_object fuel s fresh
          (record { parent = some path; name = some (c_str name rest); type = type })
        ≡ some (status_success, fresh, linked s fresh p type name o d)
  unfolding ob_create_object create_named
  create_lem fuel path valid parent_found =
      rw (leb-false nt_ob_max type valid) rw (find_parent_lem fuel path parent_found)
        create_in-linked

  -- `obLookupObject` of the directory succeeded, the directory's own data has been allocated, the
  -- directory has no entry of the new name, the type is valid and the name fits. Then `obCreateObject` with memory for the object succeeds, and
  -- the directory's lookup of the name gives the new object.
  pub ob_create_object-ob_directory_lookup :
      (fuel : ℕ) (path : List ℕ)
      → type < nt_ob_max
      → ob_lookup_object fuel s path ≡ some (status_success, p)
      → ob_directory_lookup s p (c_str name []) ≡ some (status_object_notfound, null)
      → (s' : ObStore) × (ob_create_object fuel s fresh
            (record { parent = some path; name = some (c_str name rest); type = type })
          ≡ some (status_success, fresh, s'))
        × (ob_directory_lookup s' p (c_str name []) ≡ some (status_success, fresh))
  ob_create_object-ob_directory_lookup fuel path valid parent_found missing = (
    linked s fresh p type name o d,
    create_lem fuel path valid parent_found,
    lookup_new (sym (lookup_before (c_str name [])) ∙ missing),
  )

  -- Under the same conditions on the parent, the type and the name, `obCreateObject` succeeds, and a
  -- name for which the directory's lookup gave an object before still gives that object.
  pub ob_create_object_kept :
      (fuel : ℕ) (path other : List ℕ) (q : ℕ)
      → type < nt_ob_max
      → ob_lookup_object fuel s path ≡ some (status_success, p)
      → ob_directory_lookup s p other ≡ some (status_success, q)
      → (s' : ObStore) × (ob_create_object fuel s fresh
            (record { parent = some path; name = some (c_str name rest); type = type })
          ≡ some (status_success, fresh, s'))
        × (ob_directory_lookup s' p other ≡ some (status_success, q))
  ob_create_object_kept fuel path other q valid parent_found h = (
    linked s fresh p type name o d,
    create_lem fuel path valid parent_found,
    lookup-linked other
        ∙ find_entry-hit-append (linked s fresh p type name o d) d.dir (fresh ∷ []) other (
            find_entry-KeepsNames s (linked s fresh p type name o d) linked-KeepsNames d.dir other
              (sym (lookup_before other) ∙ h)),
  )

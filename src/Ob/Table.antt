-- ===== src/Ob/Table.antt =====
-- The table of a process's open objects: ntos/ob/obTable.c and ntos/include/ob/table.h.
use algae.Base.{
  ℕ, zero, suc, ◌+◌, ◌<◌, ◌≡◌, ◌≢◌, refl, ap, ◌∙◌, false, Option, none, some, List, [], ◌∷◌, arith,
  ◌==◌, if◌then◌else◌, ◌>>=◌, length, get_elem?, set, replicate, inl, inr, u16, Bool-cases, eqb→eq,
  ne→eqb, ◌⊎◌, sym,
}
use algae.Status.{status_success, status_invalid_handle, status_no_space}
use algae.Ob.{ObStore, NtObject, null, put}

abbrev pub nt_obtab_entries : ℕ
nt_obtab_entries = 32

-- `NT_OBTAB`: each slot holds an object's address, or null.
pub record ObTab : Type 0 where
  pub open_count : ℕ
  pub ob : List ℕ

-- `obInitTable` of a table that is not null.
unfoldable pub ob_init_table : ObTab → ℕ × ObTab
ob_init_table t = (status_success, record { open_count = 0; ob = replicate (length t.ob) 0 })

-- The loop of `obTableAdd` from slot `i` on: the slots as they are left, and the handle taken.
unfoldable pub table_add_loop : (i : ℕ) → (slots : List ℕ) → (ob : ℕ) → List ℕ × Option ℕ
table_add_loop i [] ob = ([], none)
table_add_loop i (slot ∷ slots) ob =
    let rest = table_add_loop (i + 1) slots ob in
    if slot == null then (ob ∷ slots, some i) else (slot ∷ rest.0, rest.1)

-- `++ob->ref`, on an unsigned short.
abbrev pub bump : NtObject → NtObject
bump o = record o { ref = u16 (o.ref + 1) }

-- What the loop's result leads to: the status, the handle, the table and the objects.
unfoldable pub table_added :
    ObStore → (t : ObTab) → (ob : ℕ) → List ℕ × Option ℕ → Option (ℕ × Option ℕ × ObTab × ObStore)
table_added s t ob (slots, none) = some (status_no_space, none, record t { ob = slots }, s)
table_added s t ob (slots, some i) = do
  o ← s.object ob
  some (status_success, some i, record t { ob = slots }, put s ob (some (bump o)))

-- `obTableAdd` of a table and a result that are not null.
unfoldable pub ob_table_add : ObStore → ObTab → (ob : ℕ) → Option (ℕ × Option ℕ × ObTab × ObStore)
unfolding table_add_loop table_added
ob_table_add s t ob =
    if ob == null
    then some (status_invalid_handle, none, t, s)
    else table_added s t ob (table_add_loop 0 t.ob ob)

-- A first null slot, and the table with the object there and everything else as before.
pub record Added (slots : List ℕ) (ob : ℕ) (new : List ℕ) (i : ℕ) : Type 0 where
  pub free : get_elem? slots i ≡ some null
  pub is_first : (j : ℕ) → j < i → get_elem? slots j ≢ some null
  pub stored : new ≡ set slots i ob

-- No slot is null, and the table is as before.
pub record IsFull (slots new : List ℕ) : Type 0 where
  pub full : (j : ℕ) → get_elem? slots j ≢ some null
  pub same : new ≡ slots

abbrev pub AddResult : (slots : List ℕ) (ob base : ℕ) → List ℕ × Option ℕ → Type 0
AddResult slots ob base (new, none) = IsFull slots new
AddResult slots ob base (new, some h) = (i : ℕ) × (h ≡ base + i) × Added slots ob new i

here_lem :
    (slot : ℕ) (slots : List ℕ) (ob base : ℕ)
    → slot ≡ null
    → AddResult (slot ∷ slots) ob base (ob ∷ slots, some base)
here_lem slot slots ob base e = (
  0,
  omega arith,
  record { free = ap some e; is_first = λ j h. absurd (omega (arith, h)); stored = refl },
)

no_null-cons :
    (slot : ℕ) (slots : List ℕ) (bound : ℕ)
    → slot ≢ null
    → ((j : ℕ) → j < bound → get_elem? slots j ≢ some null)
    → (j : ℕ) → j < suc bound
    → get_elem? (slot ∷ slots) j ≢ some null
no_null-cons slot slots bound ne h zero below e = ne cc
no_null-cons slot slots bound ne h (suc j) below e = h j (omega (arith, below)) e

there_lem :
    (slot : ℕ) (slots : List ℕ) (ob base : ℕ)
    → slot ≢ null
    → (r : List ℕ × Option ℕ) → AddResult slots ob (base + 1) r
    → AddResult (slot ∷ slots) ob base (slot ∷ r.0, r.1)
there_lem slot slots ob base ne (new, none) h = record {
  full = λ j. no_null-cons slot slots j ne (λ k _. h.full k) j (omega arith);
  same = ap (λ xs. slot ∷ xs) h.same;
}
there_lem slot slots ob base ne (new, some n) (i, e, h) = (
  suc i,
  omega (arith, e),
  record {
    free = h.free;
    is_first = no_null-cons slot slots i ne h.is_first;
    stored = ap (λ xs. slot ∷ xs) h.stored;
  },
)

table_add_loop_lem :
    (slots : List ℕ) (base ob : ℕ) → AddResult slots ob base (table_add_loop base slots ob)
unfolding table_add_loop
table_add_loop_lem [] base ob = record { full = λ j e. cc; same = refl }
table_add_loop_lem (slot ∷ slots) base ob = elim (Bool-cases (slot == null)) [
  | inl e ↦ rw e (here_lem slot slots ob base (eqb→eq slot null e))
  | inr e ↦ rw e (
      there_lem slot slots ob base (λ z. ground (arith, e, z)) (table_add_loop (base + 1) slots ob)
        (table_add_loop_lem slots (base + 1) ob))
]

-- What `obTableAdd` returns for an object `o` at `ob`: the first free slot is taken and the object's
-- count goes up by one, or no slot is free and nothing changes.
abbrev pub Taken : ObStore → ObTab → (ob : ℕ) → NtObject → Type 0
Taken s t ob o =
    (i : ℕ) × (new : List ℕ) × Added t.ob ob new i
    × (ob_table_add s t ob
        ≡ some (status_success, some i, record t { ob = new }, put s ob (some (bump o))))

abbrev pub NoSpace : ObStore → ObTab → (ob : ℕ) → Type 0
NoSpace s t ob =
    ((j : ℕ) → get_elem? t.ob j ≢ some null)
    × (ob_table_add s t ob ≡ some (status_no_space, none, t, s))

add_zero_left : (i : ℕ) → 0 + i ≡ i
add_zero_left i = omega arith

table_added_lem :
    (s : ObStore) (t : ObTab) (ob : ℕ) (o : NtObject)
    → s.object ob ≡ some o
    → (ob == null) ≡ false
    → (r : List ℕ × Option ℕ) → r ≡ table_add_loop 0 t.ob ob
    → AddResult t.ob ob 0 r
    → Taken s t ob o ⊎ NoSpace s t ob
unfolding ob_table_add table_added
table_added_lem s t ob o found ne (new, none) e h = inr (h.full, rw ne rw (sym e) rw h.same refl)
table_added_lem s t ob o found ne (new, some n) e (i, at, h) =
    inl (i, new, h, rw ne rw (sym e) rw found rw (at ∙ add_zero_left i) refl)

-- For an object `o` at an address that is not null, `obTableAdd` either puts the address into the
-- first null slot, returns that slot's index as the handle and adds one to the object's reference
-- count, changing nothing else; or no slot is null, and it returns STATUS_NO_SPACE and changes
-- neither the table nor an object.
pub ob_table_add_lem :
    (s : ObStore) (t : ObTab) (ob : ℕ) (o : NtObject)
    → s.object ob ≡ some o
    → ob ≢ null
    → Taken s t ob o ⊎ NoSpace s t ob
ob_table_add_lem s t ob o found ne =
    table_added_lem s t ob o found (ne→eqb ob null ne) (table_add_loop 0 t.ob ob) refl
      (table_add_loop_lem t.ob 0 ob)

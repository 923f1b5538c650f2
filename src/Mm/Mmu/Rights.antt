-- ===== src/Mm/Mmu/Rights.antt =====
-- What the tables above a page leave of its rights.
use algae.Base.{
  ℕ, ◌<◌, ◌*◌, ◌+◌, ◌^◌, ◌≡◌, refl, sym, Bool, true, false, not, List, [], ◌∷◌, All, ◌&&◌, arith,
  align_down,
}
use algae.Rtl.Memory.{Memory}
use algae.Mm.Words64.{read64}
use algae.Mm.Phys.{page_size}
use algae.Mm.Mmu.{is_present, pte_addr, pte_p, pte_rw, pte_us, slot, Prot}
use algae.Mm.Mmu.Flags.{writable, user, no_execute, says_write, says_execute, says_user, Maps}
use algae.Mm.Mmu.Walk.{index_at, index_at-lt, table_shifts}

abbrev pub executable : ℕ → Bool
executable e = not (no_execute e)

-- Every entry that leads to a table on the way of `v` has the right: the processor allows an access only
-- if the tables' entries and the page's entry all allow it.
unfoldable pub on_the_way : (right : ℕ → Bool) → List ℕ → Memory → (table v : ℕ) → Bool
on_the_way right [] m table v = true
on_the_way right (shift ∷ shifts) m table v =
    let e = read64 m (slot table (index_at shift v)) in
    let rest = on_the_way right shifts m (pte_addr e) v in right e && rest

-- The entries that are present on the way of `v` have the right.
abbrev pub Opens : (right : ℕ → Bool) → List ℕ → Memory → (table v : ℕ) → Type 0
Opens right [] m table v = Unit
Opens right (shift ∷ shifts) m table v =
    let e = read64 m (slot table (index_at shift v)) in
    is_present e ≡ true → (right e ≡ true) × Opens right shifts m (pte_addr e) v

pub on_the_way_suc :
    (right : ℕ → Bool) (shift : ℕ) (shifts : List ℕ) (m : Memory) (table v e : ℕ)
    → read64 m (slot table (index_at shift v)) ≡ e
    → right e ≡ true
    → on_the_way right (shift ∷ shifts) m table v ≡ on_the_way right shifts m (pte_addr e) v
unfolding on_the_way
on_the_way_suc right shift shifts m table v e at has = rw at rw has refl

zero_absent : (e : ℕ) → e ≡ 0 → ¬ (is_present e ≡ true)
zero_absent e z present = ground (arith, z, present)

-- An empty table asks nothing of the tables below it.
pub Opens-empty :
    (right : ℕ → Bool) (shifts : List ℕ) (m : Memory) (r v : ℕ)
    → ((k : ℕ) → k < 512 → read64 m (slot r k) ≡ 0)
    → Opens right shifts m r v
Opens-empty right [] m r v h = tt
Opens-empty right (shift ∷ shifts) m r v h = λ present. absurd (
    zero_absent (read64 m (slot r (index_at shift v))) (h (index_at shift v) (index_at-lt shift v))
      present)

on_the_way_same :
    (right : ℕ → Bool) (shifts : List ℕ) (m : Memory) (t v v' : ℕ)
    → All (λ shift. index_at shift v ≡ index_at shift v') shifts
    → on_the_way right shifts m t v ≡ on_the_way right shifts m t v'
unfolding on_the_way
on_the_way_same right [] m t v v' h = refl
on_the_way_same right (shift ∷ shifts) m t v v' h =
    rw h.0 rw
      (on_the_way_same right shifts m (pte_addr (read64 m (slot t (index_at shift v')))) v v' h.1)
      refl

-- An access that needs the right is allowed at `v`, whose entry is `entry`: every table on the way
-- allows it, and so does the entry.
abbrev pub allowed : (right : ℕ → Bool) → Memory → (cr3 v entry : ℕ) → Bool
allowed right m cr3 v entry = on_the_way right table_shifts m cr3 v && right entry

-- The tables that are there on the way of `v` allow everything, and leave the decision to the entry.
pub record AllOpen (m : Memory) (cr3 v : ℕ) : Type 0 where
  pub write : Opens writable table_shifts m cr3 v
  pub user_mode : Opens user table_shifts m cr3 v
  pub execute : Opens executable table_shifts m cr3 v

-- The processor allows at `v` the accesses that the protection says, and no other.
pub record Allows (m : Memory) (cr3 v entry : ℕ) (p : Prot) : Type 0 where
  pub write : allowed writable m cr3 v entry ≡ says_write p
  pub user_mode : allowed user m cr3 v entry ≡ says_user p
  pub execute : allowed executable m cr3 v entry ≡ says_execute p

twice : (b : Bool) → not (not b) ≡ b
twice true = refl
twice false = refl

on_the_way-align_down :
    (m : Memory) (cr3 v : ℕ) (right : ℕ → Bool)
    → on_the_way right table_shifts m cr3 (align_down v page_size)
      ≡ on_the_way right table_shifts m cr3 v
on_the_way-align_down m cr3 v right =
    on_the_way_same right table_shifts m cr3 (align_down v page_size) v
      (omega arith, (omega arith, (omega arith, tt)))

-- The rights do not depend on the offset in the page.
pub Allows-align_down :
    (m : Memory) (cr3 v entry : ℕ) (p : Prot)
    → Allows m cr3 (align_down v page_size) entry p
    → Allows m cr3 v entry p
Allows-align_down m cr3 v entry p a =
    let same = on_the_way-align_down m cr3 v in
    record {
      write = rw (sym (same writable)) (a.write);
      user_mode = rw (sym (same user)) (a.user_mode);
      execute = rw (sym (same executable)) (a.execute);
    }

-- Where every table on the way allows everything, the entry decides.
pub Allows-Maps :
    (m : Memory) (cr3 v entry q : ℕ) (p : Prot)
    → Maps entry q p
    → on_the_way writable table_shifts m cr3 v ≡ true
    → on_the_way user table_shifts m cr3 v ≡ true
    → on_the_way executable table_shifts m cr3 v ≡ true
    → Allows m cr3 v entry p
Allows-Maps m cr3 v entry q p maps w u x = record {
  write = rw w maps.write;
  user_mode = rw u maps.user_mode;
  execute = rw x (rw maps.execute (twice (says_execute p)));
}

-- The entry of a new table allows everything.
module _ (k : ℕ) (small : k < 2 ^ 40) where
  pub new_table-writable : writable (k * page_size + (pte_p + pte_rw + pte_us)) ≡ true
  new_table-writable = ground arith

  pub new_table-user : user (k * page_size + (pte_p + pte_rw + pte_us)) ≡ true
  new_table-user = ground arith

  pub new_table-executable : executable (k * page_size + (pte_p + pte_rw + pte_us)) ≡ true
  new_table-executable = ground (arith, small)

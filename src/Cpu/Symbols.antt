-- ===== src/Cpu/Symbols.antt =====
-- The names of a stack's return addresses: `stackAddrToName` of ntos/platform/amd64/ke/bugcheck.c. The
-- table of symbols is made by the build.
use algae.Base.{
  ℕ, ◌-◌, ◌^◌, ◌≤◌, ◌<◌, ◌≡◌, ◌++◌, arith, All, true, false, Option, none, some, List, [], ◌∷◌, ltb,
  ◌==◌,
}

-- An entry of `g_ksymTbl`.
pub record Symbol : Type 0 where
  pub addr : ℕ
  pub name : List ℕ

abbrev pub no_name : List ℕ
no_name = b'?' ∷ b'?' ∷ b'?' ∷ []

-- The loop from an entry on; `none` is a read behind the table.
unfoldable pub name_loop : List Symbol → (addr : ℕ) → (name : List ℕ) → Option (List ℕ)
name_loop [] addr name = none
name_loop (s ∷ symbols) addr name = elim (ltb addr s.addr) [
  | true ↦ some name
  | false ↦ elim (s.addr == 2 ^ 64 - 1) [
    | true ↦ some no_name
    | false ↦ name_loop symbols addr s.name
  ]
]

unfoldable pub stack_addr_to_name : List Symbol → (addr : ℕ) → Option (List ℕ)
unfolding name_loop
stack_addr_to_name symbols addr = name_loop symbols addr no_name

-- The name of the last symbol of a list.
abbrev pub last_name : List Symbol → (name : List ℕ) → List ℕ
last_name [] name = name
last_name (s ∷ symbols) name = last_name symbols s.name

name_loop_lem :
    (before : List Symbol) (next : Symbol) (after : List Symbol) (addr : ℕ) (name : List ℕ)
    → All (λ s. s.addr ≤ addr) before
    → addr < next.addr
    → addr < 2 ^ 64 - 1
    → name_loop (before ++ next ∷ after) addr name ≡ some (last_name before name)
unfolding name_loop
name_loop_lem [] next after addr name h over small = ground (arith, over)
name_loop_lem (s ∷ before) next after addr name h over small =
    ground (arith, h.0, small, name_loop_lem before next after addr s.name h.1 over small)

-- Where the symbols up to an address stand in front of one behind it, the name is that of the last of
-- them, and "???" if there is none; this holds for every address but the largest.
pub stack_addr_to_name_lem :
    (before : List Symbol) (next : Symbol) (after : List Symbol) (addr : ℕ)
    → All (λ s. s.addr ≤ addr) before
    → addr < next.addr
    → addr < 2 ^ 64 - 1
    → stack_addr_to_name (before ++ next ∷ after) addr ≡ some (last_name before no_name)
unfolding stack_addr_to_name
stack_addr_to_name_lem before next after addr h over small =
    name_loop_lem before next after addr no_name h over small

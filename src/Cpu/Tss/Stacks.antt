-- ===== src/Cpu/Tss/Stacks.antt =====
-- The stacks of the task state segment.
use algae.Base.{
  ℕ, zero, suc, ◌+◌, ◌*◌, ◌^◌, ◌<◌, ◌≤◌, ◌≡◌, ◌≢◌, refl, sym, ap, ◌∙◌, Option, none, some, List, [],
  ◌∷◌, get_elem?, set, length, get_elem?-set_self, get_elem?-set_ne, arith, ◌⊎◌, inl, inr,
  Bool-cases, ltb, ltb→lt, ◌==◌, eqb→eq,
}
use algae.Status.{status_success, status_invalid_param}
use algae.Cpu.Tss.{TssStack, TssEntry, stack_low, stack_high, set_ist, tss_set_intr_stack}

-- The interrupt stacks that the processor reads.
pub stacks : TssEntry → List ℕ
stacks t =
    (t.ist1_lo + 2 ^ 32 * t.ist1_hi)
    ∷ (t.ist2_lo + 2 ^ 32 * t.ist2_hi)
    ∷ (t.ist3_lo + 2 ^ 32 * t.ist3_hi)
    ∷ (t.ist4_lo + 2 ^ 32 * t.ist4_hi)
    ∷ (t.ist5_lo + 2 ^ 32 * t.ist5_hi)
    ∷ (t.ist6_lo + 2 ^ 32 * t.ist6_hi)
    ∷ (t.ist7_lo + 2 ^ 32 * t.ist7_hi)
    ∷ []

-- The stack that it takes for the field `ist` of a gate; with 0 it stays on the stack it has.
abbrev pub interrupt_stack : TssEntry → (ist : ℕ) → Option ℕ
interrupt_stack t zero = none
interrupt_stack t (suc i) = get_elem? (stacks t) i

module _ (tss : TssEntry) (stack : TssStack) where
  halves : stack_low stack + 2 ^ 32 * stack_high stack ≡ stack.stack_base
  halves = omega arith

  -- What `tssSetIntrStack` writes is one entry of the list.
  set_ist-stacks :
      (n : ℕ)
      → n < 7
      → (tss' : TssEntry) × (set_ist tss n stack ≡ (status_success, tss'))
        × (stacks tss' ≡ set (stacks tss) n stack.stack_base)
  unfolding set_ist stacks
  set_ist-stacks zero h = (_, refl, rw halves refl)
  set_ist-stacks (suc zero) h = (_, refl, rw halves refl)
  set_ist-stacks (suc (suc zero)) h = (_, refl, rw halves refl)
  set_ist-stacks (suc (suc (suc zero))) h = (_, refl, rw halves refl)
  set_ist-stacks (suc (suc (suc (suc zero)))) h = (_, refl, rw halves refl)
  set_ist-stacks (suc (suc (suc (suc (suc zero))))) h = (_, refl, rw halves refl)
  set_ist-stacks (suc (suc (suc (suc (suc (suc zero)))))) h = (_, refl, rw halves refl)
  set_ist-stacks (suc (suc (suc (suc (suc (suc (suc n))))))) h = absurd (omega (arith, h))

  set_ist_beyond : (n : ℕ) → 7 ≤ n → set_ist tss n stack ≡ (status_invalid_param, tss)
  unfolding set_ist
  set_ist_beyond n h = ground (arith, h)

  seven : length (stacks tss) ≡ 7
  unfolding stacks
  seven = refl

others_keep :
    (tss tss' : TssEntry) (b n ist : ℕ)
    → stacks tss' ≡ set (stacks tss) n b
    → ist ≢ suc n
    → interrupt_stack tss' ist ≡ interrupt_stack tss ist
others_keep tss tss' b n zero is ne = refl
others_keep tss tss' b n (suc i) is ne =
    ap (λ l. get_elem? l i) is ∙ get_elem?-set_ne (stacks tss) n i b (λ e. ne (ap suc (sym e)))

-- The stack with a number `n` under 7 is the one that gates with `ist` `n + 1` take, and the other gates
-- keep theirs. A larger number is refused, and changes nothing.
pub tss_set_intr_stack_lem :
    (tss : TssEntry) (n : ℕ) (stack : TssStack) (ist : ℕ)
    → ((n < 7)
        × (tss' : TssEntry) × (tss_set_intr_stack (some tss) n (some stack)
            ≡ (status_success, some tss'))
        × (interrupt_stack tss' (suc n) ≡ some (stack.stack_base))
        × ((ist ≡ suc n) ⊎ (interrupt_stack tss' ist ≡ interrupt_stack tss ist)))
      ⊎ ((7 ≤ n)
          × (tss_set_intr_stack (some tss) n (some stack) ≡ (status_invalid_param, some tss)))
unfolding tss_set_intr_stack
tss_set_intr_stack_lem tss n stack ist = elim (Bool-cases (ltb n 7)) [
  | inr over ↦
      (let beyond : 7 ≤ n = ground (arith, over) in
        inr (beyond, rw (set_ist_beyond tss stack n beyond) refl))
  | inl under ↦
      (let h : n < 7 = ltb→lt n 7 under in
        let (tss', e, is) = set_ist-stacks tss stack n h in
        inl (
          h,
          tss',
          rw e refl,
          ap (λ l. get_elem? l n) is
              ∙ get_elem?-set_self (stacks tss) n (stack.stack_base)
                  (omega (arith, h, seven tss stack)),
          elim (Bool-cases (ist == suc n)) [
            | inl same ↦ inl (eqb→eq ist (suc n) same)
            | inr ne ↦
                inr
                  (others_keep tss tss' (stack.stack_base) n ist is (λ e'. ground (arith, ne, e')))
          ],
        ))
]

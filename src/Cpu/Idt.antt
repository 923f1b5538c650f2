-- ===== src/Cpu/Idt.antt =====
-- The interrupt descriptor table, ntos/platform/amd64/cpu/idt.c, and how the processor reads a gate.
use algae.Base.{
  ℕ, ◌+◌, ◌*◌, ◌/◌, ◌%◌, ◌^◌, ◌<◌, ◌≡◌, refl, sym, subst, ◌∙◌, false, arith, leb, ◌==◌,
  if◌then◌else◌, ◌⊎◌, inl, inr, eqb→eq, Bool-cases,
}
use algae.Ke.Process.{kernel_cs}

-- `struct idtGate`; a field of bits holds the low bits of what is assigned.
pub record IdtGate : Type 0 where
  pub offset_low : ℕ
  pub code_seg : ℕ
  pub ist : ℕ
  pub zero_ : ℕ
  pub type : ℕ
  pub zero1 : ℕ
  pub dpl : ℕ
  pub p : ℕ
  pub offset_mid : ℕ
  pub offset_high : ℕ
  pub reserved : ℕ

abbrev pub idt_int_gate : ℕ
idt_int_gate = 0x8E

abbrev pub idt_trap_gate : ℕ
idt_trap_gate = 0x8F

abbrev pub idt_user_gate : ℕ
idt_user_gate = 0xEE

-- `idt`
abbrev pub Idt : Type 0
Idt = ℕ → IdtGate

unfoldable pub new_gate : (type isr ist : ℕ) → IdtGate
new_gate type isr ist = record {
  offset_low = isr % 2 ^ 16;
  offset_mid = isr / 2 ^ 16 % 2 ^ 16;
  offset_high = isr / 2 ^ 32 % 2 ^ 32;
  ist = ist % 8;
  zero_ = 0;
  zero1 = 0;
  reserved = 0;
  dpl = if type == idt_user_gate then 3 else 0;
  p = 1;
  type = type % 16;
  code_seg = kernel_cs;
}

unfoldable pub ki_idt_set_entry : Idt → (vec type isr ist : ℕ) → Idt
unfolding new_gate
ki_idt_set_entry idt vec type isr ist v =
    if leb 255 vec then idt v else if vec == v then new_gate type isr ist else idt v

-- The two words of a gate in memory, low bits first.
abbrev pub gate_low : IdtGate → ℕ
gate_low g =
    g.offset_low
    + 2 ^ 16 * g.code_seg
    + 2 ^ 32 * g.ist
    + 2 ^ 35 * g.zero_
    + 2 ^ 40 * g.type
    + 2 ^ 44 * g.zero1
    + 2 ^ 45 * g.dpl
    + 2 ^ 47 * g.p
    + 2 ^ 48 * g.offset_mid

abbrev pub gate_high : IdtGate → ℕ
gate_high g = g.offset_high + 2 ^ 32 * g.reserved

-- The processor reads the gate for the routine `isr`, with the stack `ist`, for the privilege `dpl`.
pub record Enters (lo hi isr ist type dpl : ℕ) : Type 0 where
  pub offset : lo % 2 ^ 16 + 2 ^ 16 * (lo / 2 ^ 48 % 2 ^ 16) + 2 ^ 32 * (hi % 2 ^ 32) ≡ isr
  pub selector : lo / 2 ^ 16 % 2 ^ 16 ≡ 0x08
  pub stack : lo / 2 ^ 32 % 8 ≡ ist
  pub kind : lo / 2 ^ 40 % 16 ≡ type
  pub system : lo / 2 ^ 44 % 2 ≡ 0
  pub privilege : lo / 2 ^ 45 % 4 ≡ dpl
  pub present : lo / 2 ^ 47 % 2 ≡ 1

-- The fields of a word read back, of any values in their widths.
module _ (a cs st ty pl b : ℕ) (va : a < 2 ^ 16) (vcs : cs < 2 ^ 16) (vst : st < 8) (vty : ty < 16)
    (vpl : pl < 4) (vb : b < 2 ^ 16) where
  abbrev word : ℕ
  word =
      a
      + 2 ^ 16 * cs
      + 2 ^ 32 * st
      + 2 ^ 35 * 0
      + 2 ^ 40 * ty
      + 2 ^ 44 * 0
      + 2 ^ 45 * pl
      + 2 ^ 47 * 1
      + 2 ^ 48 * b

  word-offset :
      (c isr : ℕ)
      → isr ≡ a + 2 ^ 16 * b + 2 ^ 32 * c
      → c < 2 ^ 32
      → word % 2 ^ 16 + 2 ^ 16 * (word / 2 ^ 48 % 2 ^ 16) + 2 ^ 32 * ((c + 2 ^ 32 * 0) % 2 ^ 32)
        ≡ isr
  word-offset c isr e vc = omega (arith, va, vcs, vst, vty, vpl, vb, e, vc)

  word-selector : word / 2 ^ 16 % 2 ^ 16 ≡ cs
  word-selector = omega (arith, va, vcs, vst, vty, vpl, vb)

  word-stack : word / 2 ^ 32 % 8 ≡ st
  word-stack = omega (arith, va, vcs, vst, vty, vpl, vb)

  word-kind : word / 2 ^ 40 % 16 ≡ ty
  word-kind = omega (arith, va, vcs, vst, vty, vpl, vb)

  word-system : word / 2 ^ 44 % 2 ≡ 0
  word-system = omega (arith, va, vcs, vst, vty, vpl, vb)

  word-privilege : word / 2 ^ 45 % 4 ≡ pl
  word-privilege = omega (arith, va, vcs, vst, vty, vpl, vb)

  word-present : word / 2 ^ 47 % 2 ≡ 1
  word-present = omega (arith, va, vcs, vst, vty, vpl, vb)

module _ (type isr ist : ℕ) (word : isr < 2 ^ 64) (stacks : ist < 8) where
  -- The fields of the gate that the processor reads, for either privilege.
  parts-Enters :
      (pl : ℕ)
      → pl < 4
      → Enters
          (isr % 2 ^ 16
            + 2 ^ 16 * 8
            + 2 ^ 32 * (ist % 8)
            + 2 ^ 35 * 0
            + 2 ^ 40 * (type % 16)
            + 2 ^ 44 * 0
            + 2 ^ 45 * pl
            + 2 ^ 47 * 1
            + 2 ^ 48 * (isr / 2 ^ 16 % 2 ^ 16))
          (isr / 2 ^ 32 % 2 ^ 32 + 2 ^ 32 * 0)
          isr
          ist
          (type % 16)
          pl
  parts-Enters pl small =
      let va : isr % 2 ^ 16 < 2 ^ 16 = omega arith in
      let vb : isr / 2 ^ 16 % 2 ^ 16 < 2 ^ 16 = omega arith in
      let vst : ist % 8 < 8 = omega arith in
      let vty : type % 16 < 16 = omega arith in
      record {
        offset =
            word-offset (isr % 2 ^ 16) 8 (ist % 8) (type % 16) pl (isr / 2 ^ 16 % 2 ^ 16) va
              (omega arith) vst vty small vb (isr / 2 ^ 32 % 2 ^ 32) isr (omega (arith, word))
              (omega arith);
        selector =
            word-selector (isr % 2 ^ 16) 8 (ist % 8) (type % 16) pl (isr / 2 ^ 16 % 2 ^ 16) va
              (omega arith) vst vty small vb;
        stack =
            word-stack (isr % 2 ^ 16) 8 (ist % 8) (type % 16) pl (isr / 2 ^ 16 % 2 ^ 16) va
              (omega arith) vst vty small vb
            ∙ omega (arith, stacks);
        kind =
            word-kind (isr % 2 ^ 16) 8 (ist % 8) (type % 16) pl (isr / 2 ^ 16 % 2 ^ 16) va
              (omega arith) vst vty small vb;
        system =
            word-system (isr % 2 ^ 16) 8 (ist % 8) (type % 16) pl (isr / 2 ^ 16 % 2 ^ 16) va
              (omega arith) vst vty small vb;
        privilege =
            word-privilege (isr % 2 ^ 16) 8 (ist % 8) (type % 16) pl (isr / 2 ^ 16 % 2 ^ 16) va
              (omega arith) vst vty small vb;
        present =
            word-present (isr % 2 ^ 16) 8 (ist % 8) (type % 16) pl (isr / 2 ^ 16 % 2 ^ 16) va
              (omega arith) vst vty small vb;
      }

  new_gate-Enters :
      Enters
        (gate_low (new_gate type isr ist))
        (gate_high (new_gate type isr ist))
        isr
        ist
        (type % 16)
        (if type == idt_user_gate then 3 else 0)
  unfolding new_gate
  new_gate-Enters = elim (Bool-cases (type == idt_user_gate)) [
    | inl user ↦ rw user (parts-Enters 3 (omega arith))
    | inr kernel ↦ rw kernel (parts-Enters 0 (omega arith))
  ]

module _ (idt : Idt) (vec type isr ist : ℕ) where
  entry-same : vec < 255 → ki_idt_set_entry idt vec type isr ist vec ≡ new_gate type isr ist
  unfolding ki_idt_set_entry
  entry-same below = ground (arith, below)

  entry-other : (v : ℕ) → (vec == v) ≡ false → ki_idt_set_entry idt vec type isr ist v ≡ idt v
  unfolding ki_idt_set_entry
  entry-other v ne = ground (arith, ne)

entry-last : (idt : Idt) (type isr ist v : ℕ) → ki_idt_set_entry idt 255 type isr ist v ≡ idt v
unfolding ki_idt_set_entry
entry-last idt type isr ist v = refl

-- An entry below 255 is set: the processor enters the routine `isr` with the kernel's code segment,
-- on the interrupt stack `ist`, and only a user gate can be raised in user mode. No other entry
-- changes, and a call for the entry 255 changes none.
pub ki_idt_set_entry-Enters :
    (idt : Idt) (vec type isr ist v : ℕ)
    → vec < 255
    → isr < 2 ^ 64
    → ist < 8
    → let idt' = ki_idt_set_entry idt vec type isr ist in
      Enters
        (gate_low (idt' vec))
        (gate_high (idt' vec))
        isr
        ist
        (type % 16)
        (if type == idt_user_gate then 3 else 0)
      × ((v ≡ vec) ⊎ (idt' v ≡ idt v))
      × (ki_idt_set_entry idt 255 type isr ist v ≡ idt v)
ki_idt_set_entry-Enters idt vec type isr ist v below word stacks = (
  subst
      (λ g.
        Enters (gate_low g) (gate_high g) isr ist (type % 16)
          (if type == idt_user_gate then 3 else 0))
      (sym (entry-same idt vec type isr ist below)) (new_gate-Enters type isr ist word stacks),
  elim (Bool-cases (vec == v)) [
    | inl e ↦ inl (sym (eqb→eq vec v e))
    | inr ne ↦ inr (entry-other idt vec type isr ist v ne)
  ],
  entry-last idt type isr ist v,
)

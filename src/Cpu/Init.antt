-- ===== src/Cpu/Init.antt =====
-- The start of a processor: `halRegisterIntr` and `halInitSyscall` of
-- ntos/platform/amd64/cpu/cpuInit.c.
pub mod Timer
use algae.Base.{
  ℕ, ◌*◌, ◌/◌, ◌%◌, ◌^◌, Option, none, some, List, [], ◌∷◌, ◌==◌, if◌then◌else◌, bit_or,
}
use algae.Ke.Process.{kernel_cs, user_cs}
use algae.Cpu.Lapic.{lapic_tmr_vec}
use algae.Cpu.Idt.{Idt, ki_idt_set_entry, idt_trap_gate, idt_int_gate}

-- The addresses of the routines in vector.S and trap.S.
pub record Routines : Type 0 where
  pub arith_err : ℕ
  pub nmi : ℕ
  pub breakpoint_handler : ℕ
  pub overflow : ℕ
  pub bound_range : ℕ
  pub invl_op : ℕ
  pub double_fault : ℕ
  pub invl_tss : ℕ
  pub segnp : ℕ
  pub ss_fault : ℕ
  pub general_prot : ℕ
  pub page_fault : ℕ
  pub lapic_tmr_isr : ℕ

-- The vectors with their types of gate and their routines, in the order of the calls.
abbrev pub vectors : Routines → List (ℕ × ℕ × ℕ)
vectors r =
    (0x0, idt_trap_gate, r.arith_err)
    ∷ (0x2, idt_trap_gate, r.nmi)
    ∷ (0x3, idt_trap_gate, r.breakpoint_handler)
    ∷ (0x4, idt_trap_gate, r.overflow)
    ∷ (0x5, idt_trap_gate, r.bound_range)
    ∷ (0x6, idt_trap_gate, r.invl_op)
    ∷ (0x8, idt_trap_gate, r.double_fault)
    ∷ (0xA, idt_trap_gate, r.invl_tss)
    ∷ (0xB, idt_trap_gate, r.segnp)
    ∷ (0xC, idt_trap_gate, r.ss_fault)
    ∷ (0xD, idt_trap_gate, r.general_prot)
    ∷ (0xE, idt_trap_gate, r.page_fault)
    ∷ (lapic_tmr_vec, idt_int_gate, r.lapic_tmr_isr)
    ∷ []

abbrev pub set_entries : Idt → List (ℕ × ℕ × ℕ) → Idt
set_entries idt [] = idt
set_entries idt ((vec, type, isr) ∷ entries) =
    set_entries (ki_idt_set_entry idt vec type isr 0) entries

unfoldable pub hal_register_intr : Routines → Idt → Idt
hal_register_intr r idt = set_entries idt (vectors r)

-- The model-specific registers that are used.
pub record Msrs : Type 0 where
  pub efer : ℕ
  pub star : ℕ
  pub lstar : ℕ
  pub sfmask : ℕ

-- `halInitSyscall`; `edx` is what CPUID gives for 0x80000001, and `none` is a bug check.
unfoldable pub hal_init_syscall : (edx syscall_handler : ℕ) → Msrs → Option Msrs
hal_init_syscall edx syscall_handler m =
    if edx / 2 ^ 11 % 2 == 0
    then none
    else some (record {
      efer = bit_or m.efer 1;
      star = bit_or (user_cs * 2 ^ 48) (kernel_cs * 2 ^ 32);
      lstar = syscall_handler;
      sfmask = bit_or m.sfmask (2 ^ 9);
    })

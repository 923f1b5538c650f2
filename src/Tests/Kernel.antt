-- ===== src/Tests/Kernel.antt =====
-- Interrupt levels, the arbiter, and the switches of a processor with three processes.
use algae.Base.{
  ℕ, ◌+◌, ◌*◌, ◌%◌, ◌≤◌, ◌<◌, ◌≡◌, refl, true, none, some, [], ◌∷◌, arith, ◌⊎◌, align_down,
}
use algae.Ke.Irql.{
  IsLevel, is_irql_valid, hal_get_irql, hal_set_irql, ke_irql_raise, ke_irql_lower,
  ke_irql_raise_lem, ke_irql_lower-ke_irql_raise,
}
use algae.Ke.Parb.{
  kparb_round_robin, Cpus, hal_cpu_count, ke_parb_reset, all_cpus, cycles, ke_parb_cycle_round,
}
use algae.Ke.Sched.{TrapFrame, Pcb, Core, interrupts}
use algae.Ke.Sched.Switch.{IsRunning, Resumed, interrupts_resume}

ke_irql_raise_lem_example :
    (IsLevel 0xD × (1 % 16 ≤ 0xD) × (ke_irql_raise 1 0xD ≡ some (1 % 16, align_down 1 16 + 0xD)))
    ⊎ ((¬ (IsLevel 0xD) ⊎ (0xD < 1 % 16)) × (ke_irql_raise 1 0xD ≡ none))
ke_irql_raise_lem_example = ke_irql_raise_lem 1 0xD (omega arith)

passive_valid : is_irql_valid (hal_get_irql 1) ≡ true
unfolding is_irql_valid hal_get_irql
passive_valid = refl

raised : ke_irql_raise 1 0xD ≡ some (1, 0xD)
unfolding ke_irql_raise is_irql_valid hal_get_irql hal_set_irql
raised = refl

ke_irql_lower-ke_irql_raise_example : ke_irql_lower 0xD 1 ≡ some (0xD, 1)
ke_irql_lower-ke_irql_raise_example =
    ke_irql_lower-ke_irql_raise 1 0xD 1 0xD (omega arith) passive_valid raised

-- Three processors, and a list with room for four more.
abbrev three_cpus : Cpus
three_cpus = record { bsp_kpcr = 100; ap_list = 200 ∷ 300 ∷ 0 ∷ 0 ∷ []; n_ap = 2 }

ke_parb_cycle_round_example :
    cycles (hal_cpu_count three_cpus) three_cpus (ke_parb_reset kparb_round_robin).1
    ≡ some (all_cpus three_cpus, (ke_parb_reset kparb_round_robin).1)
ke_parb_cycle_round_example =
    ke_parb_cycle_round three_cpus (record { listed = omega arith; fits = omega arith })
      kparb_round_robin

abbrev frame_at : (rip : ℕ) → TrapFrame
frame_at rip = record {
  trapno = 0;
  rax = 0;
  rcx = 0;
  rdx = 0;
  rbx = 0;
  rsi = 0;
  rdi = 0;
  rbp = 0;
  r8 = 0;
  r9 = 0;
  r10 = 0;
  r11 = 0;
  r12 = 0;
  r13 = 0;
  r14 = 0;
  r15 = 0;
  error_code = 0;
  rip = rip;
  cs = 0x1B;
  rflags = 0x202;
  rsp = 0;
  ss = 0x23;
}

abbrev pcb_of : ℕ → Pcb
pcb_of p = record { vas = p * 4096; stack_phys_base = 0; tf = frame_at (p * 10) }

-- Process 1 runs, 2 and 3 wait.
abbrev three_processes : Core
three_processes = record {
  queue = record { q = 2 ∷ 3 ∷ []; nelem = 2 };
  cur_proc = 1;
  pcb = λ p. some (pcb_of p);
  frame = frame_at 10;
  effects = [];
}

one_runs : IsRunning three_processes 1
one_runs = record {
  counted = record { counted = refl; fits = omega arith };
  is_current = refl;
  present = omega arith;
  b = pcb_of 1;
  found = refl;
  others = (
    record { present = omega arith; other = omega arith; b = pcb_of 2; found = refl },
    (record { present = omega arith; other = omega arith; b = pcb_of 3; found = refl }, tt),
  );
}

interrupts_resume_example :
    Resumed
      (interrupts 7 (frame_at 11 ∷ frame_at 21 ∷ frame_at 31 ∷ []) three_processes)
      1
      (frame_at 11)
      (2 ∷ 3 ∷ [])
interrupts_resume_example =
    interrupts_resume 7 three_processes 1 (frame_at 11) (frame_at 21 ∷ frame_at 31 ∷ [])
      (omega arith) one_runs refl

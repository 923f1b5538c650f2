-- ===== src/Cpu/Init/Timer.antt =====
-- What `kiLapicInit` prepares for the timer interrupt, and the gate that `halRegisterIntr` sets for it.
use algae.Base.{
  ℕ, ◌-◌, ◌*◌, ◌/◌, ◌%◌, ◌^◌, ◌<◌, ◌≤◌, ◌==◌, if◌then◌else◌, ◌⊎◌, ◌≡◌, ◌≢◌, refl, true, none, some,
  List, ◌∷◌, ◌++◌, arith, ne→eqb, u64, inl, inr,
}
use algae.Status.{status_success}
use algae.Mm.Phys.{Frames, mm_alloc_frame}
use algae.Mm.Page.{phys_to_virt}
use algae.Drv.Pit.{i8254_dividend}
use algae.Cpu.Lapic.{Mcb, Write, lapic_tmr_vec, lapic_stop_timer, lapic_write, lapic_init_cnt}
use algae.Cpu.Lapic.Setup.{
  Readings, Prepared, lapic_is_present, lapic_enable, lapic_read_id, wait_count, ticks_total,
  lapic_timer_init, lapic_tmr_samples, with_stack, ki_lapic_init, ist_sched,
}
use algae.Cpu.Tss.{TssStack, TssEntry, tss_allocate_stack}
use algae.Cpu.Tss.Stacks.{interrupt_stack, tss_set_intr_stack_lem}
use algae.Cpu.Idt.{Idt, ki_idt_set_entry, new_gate}
use algae.Cpu.Init.{Routines, hal_register_intr}

allocated :
    (base : ℕ) (f f' : Frames) (r : ℕ) (stale : TssStack)
    → mm_alloc_frame f 1 ≡ some (r, f')
    → r ≢ 0
    → tss_allocate_stack base f (some stale)
      ≡ some (status_success, some (record { stack_base = phys_to_virt base r }), f')
unfolding tss_allocate_stack
allocated base f f' r stale e ne = rw e rw (ne→eqb r 0 ne) refl

calibrated :
    (mcb : Mcb) (r : Readings)
    → wait_count r.cur_counts ≡ true
    → ticks_total r.ticks_start r.ticks_end ≢ 0
    → (writes : List Write) × (lapic_timer_init mcb r
        ≡ some (
          u64 (lapic_tmr_samples / ticks_total r.ticks_start r.ticks_end * i8254_dividend),
          writes,
        ))
unfolding lapic_timer_init
calibrated mcb r ends ne = (
  lapic_stop_timer mcb ++ (lapic_write mcb lapic_init_cnt lapic_tmr_samples ∷ lapic_stop_timer mcb),
  rw ends rw (ne→eqb (ticks_total r.ticks_start r.ticks_end) 0 ne) refl,
)

-- The processor's number in its register: all 32 bits if `cpuid` shows the x2APIC, else the top eight.
abbrev pub number_of : Readings → ℕ
number_of r = if r.ecx / 2 ^ 21 % 2 == 1 then r.id_reg % 2 ^ 32 else r.id_reg % 2 ^ 32 / 2 ^ 24

hw_id_lem : (mcb : Mcb) (r : Readings) → (lapic_enable mcb r).0.hw_id ≡ number_of r
unfolding lapic_enable lapic_read_id
hw_id_lem mcb r = ground arith

-- What is stored as the frequency: 65535 divided by the ticks of the interval timer, rounded down, times
-- 1193182; and 0 if the interval timer started anew from its reload value in between.
abbrev pub StoredFrequency : Readings → ℕ → Type 0
StoredFrequency r freq =
    ((r.ticks_end < r.ticks_start) × (freq ≡ 65535 / (r.ticks_start - r.ticks_end) * 1193182))
    ⊎ ((r.ticks_start < r.ticks_end) × (freq ≡ 0))

divided_small : (n d : ℕ) → n < d → n / d ≡ 0
divided_small n d h = grind (arith, h)

divided-le : (n d : ℕ) → n / d ≤ n
divided-le n d = omega arith

stored_frequency :
    (r : Readings)
    → r.ticks_start < 2 ^ 16
    → r.ticks_end < 2 ^ 16
    → ticks_total r.ticks_start r.ticks_end ≢ 0
    → StoredFrequency r
        (u64 (lapic_tmr_samples / ticks_total r.ticks_start r.ticks_end * i8254_dividend))
stored_frequency r hs he ne = elim (down_or_up r.ticks_start r.ticks_end hs he ne) [
  | inl (lt, e) ↦ inl (lt, rw e (omega (arith, divided-le 65535 (r.ticks_start - r.ticks_end))))
  | inr (lt, big) ↦
      inr (lt, rw (divided_small 65535 (ticks_total r.ticks_start r.ticks_end) big) refl)
]
  where
    down_or_up :
        (a b : ℕ)
        → a < 2 ^ 16
        → b < 2 ^ 16
        → ticks_total a b ≢ 0
        → ((b < a) × (ticks_total a b ≡ a - b)) ⊎ ((a < b) × (65535 < ticks_total a b))
    down_or_up a b ha hb ne = ground (arith, ha, hb, ne)

timer_gate : (rt : Routines) (idt : Idt) → (hal_register_intr rt idt lapic_tmr_vec).ist ≡ ist_sched
unfolding hal_register_intr ki_idt_set_entry new_gate
timer_gate rt idt = refl

-- On a processor with a local APIC whose timer runs out, with an interval timer that counts, and with a
-- free frame, `kiLapicInit` returns: the identifier is all 32 bits of the unit's register where `cpuid`
-- shows the x2APIC, and the top eight otherwise; the frequency stored is 65535 divided by the ticks that
-- the interval timer went down, rounded down to a whole number, times 1193182, and 0 if the timer's count
-- was higher at the end; and gates with `ist` 1 enter on the new stack. The timer's gate is one with
-- `ist` 0, for which no stack is taken.
pub ki_lapic_init_lem :
    (base : ℕ) (mcb : Mcb) (tss : TssEntry) (frames f' : Frames) (stale : TssStack) (r : Readings)
    (frame : ℕ) (rt : Routines) (idt : Idt)
    → lapic_is_present r ≡ true
    → wait_count r.cur_counts ≡ true
    → ticks_total r.ticks_start r.ticks_end ≢ 0
    → r.ticks_start < 2 ^ 16
    → r.ticks_end < 2 ^ 16
    → mm_alloc_frame frames 1 ≡ some (frame, f')
    → frame ≢ 0
    → (p : Prepared) × (ki_lapic_init base mcb tss frames stale r ≡ some p)
      × (p.frames ≡ f')
      × (p.mcb.hw_id ≡ number_of r)
      × StoredFrequency r p.mcb.lapic_tmr_freq
      × (interrupt_stack p.tss 1 ≡ some (phys_to_virt base frame))
      × (interrupt_stack p.tss (hal_register_intr rt idt lapic_tmr_vec).ist ≡ none)
unfolding ki_lapic_init with_stack
ki_lapic_init_lem base mcb tss frames f' stale r frame rt idt present ends counts hs he e ne =
    let (writes, t) = calibrated (lapic_enable mcb r).0 r ends counts in
    let k = allocated base frames f' frame stale e ne in
    elim (tss_set_intr_stack_lem tss 0 (record { stack_base = phys_to_virt base frame }) 0) [
      | inr (far, _) ↦ absurd (omega (arith, far))
      | inl (_, tss', set, stack, _) ↦ (
        record {
          mcb = record ((lapic_enable mcb r).0) {
            lapic_tmr_freq =
                u64 (lapic_tmr_samples / ticks_total r.ticks_start r.ticks_end * i8254_dividend);
          };
          tss = tss';
          frames = f';
          writes = (lapic_enable mcb r).1 ++ writes;
        },
        rw present rw t rw k rw set refl,
        refl,
        hw_id_lem mcb r,
        stored_frequency r hs he counts,
        stack,
        rw (timer_gate rt idt) refl,
      )
    ]

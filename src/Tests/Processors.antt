-- ===== src/Tests/Processors.antt =====
-- Two processors: the caller with the id 0, and one with the id 3 in xAPIC mode.
use algae.Base.{
  ℕ, ◌-◌, ◌≡◌, refl, false, some, none, List, [], ◌∷◌, ◌++◌, ◌%◌, ◌⊎◌, ◌<◌, ◌≤◌, arith, ◌==◌,
  if◌then◌else◌, length, replicate, inr, ◌^◌, true,
}
use algae.Status.{status_success, status_invalid_param}
use algae.Bitmap.{test_byte, test_bit, set_byte, set_bit}
use algae.Rtl.Memory.{rtl_memset}
use algae.Rtl.Str.{c_str, rtl_strcmp}
use algae.Mm.Phys.{
  inc_long, dec_long, Frames, mm_alloc_frame, mm_do_alloc_frames, retry, search_run, take_found,
  take_run, mark_used,
}
use algae.Ob.{
  ObStore, NtObject, directory, opaque, nt_ob_directory, nt_ob_timer, ob_directory_lookup,
  find_entry, find_in, skip_slashes, take_component, lookup_loop, ob_lookup_object,
}
use algae.Ex.Timer.{Ktimer, ke_timer_get_descriptor}
use algae.Acpi.{Acpi, cache_madt}
use algae.Acpi.Madt.{Entry, addresses_of}
use algae.Cpu.Lapic.{Mcb, lapic_tmr_vec}
use algae.Cpu.Idt.{
  Idt, Enters, gate_low, gate_high, idt_user_gate, ki_idt_set_entry, ki_idt_set_entry-Enters,
}
use algae.Cpu.Lapic.Setup.{Readings, Prepared, wait_count, ki_lapic_init}
use algae.Cpu.Init.{Routines, hal_register_intr}
use algae.Cpu.Init.Timer.{number_of, StoredFrequency, ki_lapic_init_lem}
use algae.Mm.Page.{phys_to_virt}
use algae.Cpu.Tss.{TssEntry, TssStack, tss_set_intr_stack}
use algae.Cpu.Tss.Stacks.{interrupt_stack, tss_set_intr_stack_lem}
use algae.Cpu.Mp.{Event, sleep, Starting, aux_path, with_trampoline, ki_mp_init}
use algae.Cpu.Mp.Start.{others, all_starts, ki_mp_init-all_starts}

abbrev field : List ℕ → List ℕ
field name = name ++ replicate (32 - length name) 0

abbrev root_object : NtObject
root_object = record {
  type = nt_ob_directory;
  name = field (b'/' ∷ []);
  ref = 1;
  data_ptr = directory (record { dir = 2 ∷ []; num_ent = 1 });
}

abbrev clkdev_object : NtObject
clkdev_object = record {
  type = nt_ob_directory;
  name = field (b'c' ∷ b'l' ∷ b'k' ∷ b'd' ∷ b'e' ∷ b'v' ∷ []);
  ref = 2;
  data_ptr = directory (record { dir = 3 ∷ []; num_ent = 1 });
}

abbrev aux_object : NtObject
aux_object = record {
  type = nt_ob_timer;
  name = field (b'a' ∷ b'u' ∷ b'x' ∷ []);
  ref = 2;
  data_ptr = opaque 0x77;
}

abbrev objects : ObStore
objects = record {
  root = 1;
  object = λ p.
      if p == 1
      then some root_object
      else if p == 2
      then some clkdev_object
      else if p == 3
      then some aux_object
      else none;
}

aux_found : ke_timer_get_descriptor 4 objects (c_str aux_path []) ≡ some (status_success, 0x77)
unfolding ke_timer_get_descriptor ob_lookup_object lookup_loop skip_slashes take_component
    ob_directory_lookup find_in find_entry rtl_strcmp
aux_found = refl

-- A local APIC with the id 0, and one with the id 3.
abbrev firmware : Acpi
firmware = record {
  sdt = 0;
  sdt_len = 0;
  madt = 0x1000;
  base = 0;
  memory = λ p.
      if p == 0x1004
      then 60
      else if p == 0x102D
      then 8
      else if p == 0x1035
      then 8
      else if p == 0x1037
      then 3
      else 0;
}

firmware_cached : cache_madt firmware ≡ some firmware
unfolding cache_madt
firmware_cached = refl

abbrev entries : List Entry
entries = record { type = 0; len = 8 } ∷ record { type = 0; len = 8 } ∷ []

abbrev core : Mcb
core = record { lapic_base = 0xFEE00000; hw_id = 0; lapic_tmr_freq = 1000000; has_x2apic = false }

abbrev waiting : Ktimer (List Event)
waiting = record {
  msleep = some (λ d n. d ++ sleep n ∷ []);
  oneshot_usec = none;
  get_count = none;
  set_count = none;
}

-- Frames 0 to 2 are in use.
abbrev starting : Starting
starting = record {
  frames = record {
    bitmap = 0b00000111 ∷ [];
    highest_frame_idx = 8;
    bitmap_size = 4096;
    bitmap_free_start = 1;
    frames_used = 3;
    frames_free = 5;
    last_idx = 0;
    memory = λ _. 0;
  };
  reads = 0 ∷ 0 ∷ 0 ∷ [];
  events = [];
}

abbrev trampoline_data : ℕ → ℕ
trampoline_data i = 0x90

abbrev after : Frames
after = record (with_trampoline starting.frames trampoline_data) {
  bitmap = 0b00001111 ∷ [];
  frames_used = 4;
  frames_free = 4;
  last_idx = 3;
  memory = rtl_memset ((with_trampoline starting.frames trampoline_data).memory) 0x3000 0 4096;
}

alloc : mm_alloc_frame (with_trampoline starting.frames trampoline_data) 1 ≡ some (0x3000, after)
unfolding mm_alloc_frame mm_do_alloc_frames retry search_run take_found inc_long dec_long take_run
    mark_used test_bit test_byte set_bit set_byte
alloc = refl

one_other : 1 ≡ length (others firmware.memory 0 (addresses_of 0 0x102C entries))
unfolding others addresses_of
one_other = refl

ki_mp_init-all_starts_example :
    (s' : Starting) × (ki_mp_init 4 3 objects firmware core 0x5000 0xFF00 trampoline_data
        (λ _. waiting)
        starting
      ≡ some (firmware, s'))
    × (s'.events
        ≡ []
          ++ all_starts core 0x5000 0xFF00
              (0x3000 ∷ [])
              (others firmware.memory 0 (addresses_of 0 0x102C entries)))
ki_mp_init-all_starts_example =
    ki_mp_init-all_starts 4 3 objects firmware firmware core 0x5000 0xFF00 0x77 trampoline_data
      (λ _. waiting) starting entries (0x3000 ∷ []) aux_found refl firmware_cached (omega arith)
      (refl, refl, omega arith, (refl, refl, omega arith, refl)) (omega arith)
      (after, alloc, omega arith, tt) one_other
      (inr (refl, (refl, (refl, (refl, tt))), omega arith))

abbrev no_gates : Idt
no_gates v = record {
  offset_low = 0;
  code_seg = 0;
  ist = 0;
  zero_ = 0;
  type = 0;
  zero1 = 0;
  dpl = 0;
  p = 0;
  offset_mid = 0;
  offset_high = 0;
  reserved = 0;
}

ki_idt_set_entry-Enters_example :
    let idt' = ki_idt_set_entry no_gates 0x80 idt_user_gate 0xFFFFFFFF80001234 2 in
    Enters
      (gate_low (idt' 0x80))
      (gate_high (idt' 0x80))
      0xFFFFFFFF80001234
      2
      (idt_user_gate % 16)
      3
    × ((◌≡◌ {A = ℕ} 0x81 0x80) ⊎ (idt' 0x81 ≡ no_gates 0x81))
    × (ki_idt_set_entry no_gates 255 idt_user_gate 0xFFFFFFFF80001234 2 0x81 ≡ no_gates 0x81)
ki_idt_set_entry-Enters_example =
    ki_idt_set_entry-Enters no_gates 0x80 idt_user_gate 0xFFFFFFFF80001234 2 0x81 (omega arith)
      (omega arith) (omega arith)

abbrev no_stacks : TssEntry
no_stacks = record {
  rsp0_lo = 0;
  rsp0_hi = 0;
  ist1_lo = 0;
  ist1_hi = 0;
  ist2_lo = 0;
  ist2_hi = 0;
  ist3_lo = 0;
  ist3_hi = 0;
  ist4_lo = 0;
  ist4_hi = 0;
  ist5_lo = 0;
  ist5_hi = 0;
  ist6_lo = 0;
  ist6_hi = 0;
  ist7_lo = 0;
  ist7_hi = 0;
  iobase = 0;
  iomap = [];
}

abbrev high_stack : TssStack
high_stack = record { stack_base = 0xFFFF800000345000 }

tss_set_intr_stack_lem_example :
    ((2 < 7)
      × (tss' : TssEntry) × (tss_set_intr_stack (some no_stacks) 2 (some high_stack)
          ≡ (status_success, some tss'))
      × (interrupt_stack tss' 3 ≡ some 0xFFFF800000345000)
      × ((◌≡◌ {A = ℕ} 4 3) ⊎ (interrupt_stack tss' 4 ≡ interrupt_stack no_stacks 4)))
    ⊎ ((7 ≤ 2)
        × (tss_set_intr_stack (some no_stacks) 2 (some high_stack)
            ≡ (status_invalid_param, some no_stacks)))
tss_set_intr_stack_lem_example = tss_set_intr_stack_lem no_stacks 2 high_stack 4

-- A processor of 32 bit identifiers, whose interval timer counts from 0xFFFF to 0xF000.
abbrev readings : Readings
readings = record {
  edx = 2 ^ 9;
  ecx = 2 ^ 21;
  apic_base = 0xFEE00000;
  svr = 0xFF;
  id_reg = 2;
  ticks_start = 0xFFFF;
  cur_counts = 9 ∷ 0 ∷ [];
  ticks_end = 0xF000;
}

abbrev routines : Routines
routines = record {
  arith_err = 0x1000;
  nmi = 0x1010;
  breakpoint_handler = 0x1020;
  overflow = 0x1030;
  bound_range = 0x1040;
  invl_op = 0x1050;
  double_fault = 0x1060;
  invl_tss = 0x1070;
  segnp = 0x1080;
  ss_fault = 0x1090;
  general_prot = 0x10A0;
  page_fault = 0x10B0;
  lapic_tmr_isr = 0x10C0;
}

counts_down : wait_count readings.cur_counts ≡ true
unfolding wait_count
counts_down = refl

ki_lapic_init_lem_example :
    (p : Prepared) × (ki_lapic_init 0xFFFF800000000000 core no_stacks
        (with_trampoline starting.frames trampoline_data)
        high_stack
        readings
      ≡ some p)
    × (p.frames ≡ after)
    × (p.mcb.hw_id ≡ number_of readings)
    × StoredFrequency readings p.mcb.lapic_tmr_freq
    × (interrupt_stack p.tss 1 ≡ some (phys_to_virt 0xFFFF800000000000 0x3000))
    × (interrupt_stack p.tss (hal_register_intr routines no_gates lapic_tmr_vec).ist ≡ none)
ki_lapic_init_lem_example =
    ki_lapic_init_lem 0xFFFF800000000000 core no_stacks
      (with_trampoline starting.frames trampoline_data) after high_stack readings 0x3000 routines
      no_gates refl counts_down (λ e. omega (arith, e)) (omega arith) (omega arith) alloc
      (λ e. omega (arith, e))

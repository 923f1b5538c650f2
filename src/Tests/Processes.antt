-- ===== src/Tests/Processes.antt =====
-- The first process on a machine with eight frames.
use algae.Base.{ℕ, ◌+◌, ◌≡◌, refl, none, some, Option, [], ◌∷◌, arith, ◌⊎◌, u64, replicate, List}
use algae.Bitmap.{test_byte, test_bit, set_byte, set_bit}
use algae.Rtl.Memory.{rtl_memset}
use algae.Mm.Phys.{
  inc_long, dec_long, Frames, mm_alloc_frame, mm_do_alloc_frames, retry, search_run, take_found,
  take_run, mark_used,
}
use algae.Mm.Phys.Safety.{IsReady}
use algae.Mm.Mmu.{Mmu}
use algae.Rtl.Str.{rtl_strlen}
use algae.Ke.Sched.{Pcb}
use algae.Ke.Process.{Process, Processes, first_frame, hal_init_pcb, ex_create_process}
use algae.Ke.Process.Create.{Initialised, hal_init_pcb-translate}
use algae.Ke.Process.Executive.{IsCreated, IsAbandoned, ex_create_process_lem}

-- Frames 0 and 1 are in use.
abbrev machine : Mmu
machine = record {
  frames = record {
    bitmap = 0b00000011 ∷ [];
    highest_frame_idx = 8;
    bitmap_size = 4096;
    bitmap_free_start = 1;
    frames_used = 2;
    frames_free = 6;
    last_idx = 0;
    memory = λ _. 0;
  };
  tlb_flushed = [];
}

machine-IsReady : IsReady machine.frames
unfolding test_bit test_byte
machine-IsReady = record {
  sound = record { bytes = (omega arith, tt); covers = omega arith; fits = omega arith };
  reserved = refl;
}

abbrev after_stack : Frames
after_stack = record (machine.frames) {
  bitmap = 0b00000111 ∷ [];
  frames_used = 3;
  frames_free = 5;
  last_idx = 2;
  memory = rtl_memset (λ _. 0) 0x2000 0 4096;
}

abbrev after_root : Frames
after_root = record after_stack {
  bitmap = 0b00001111 ∷ [];
  frames_used = 4;
  frames_free = 4;
  last_idx = 3;
  memory = rtl_memset after_stack.memory 0x3000 0 4096;
}

alloc_stack : mm_alloc_frame machine.frames 1 ≡ some (0x2000, after_stack)
unfolding mm_alloc_frame mm_do_alloc_frames retry search_run take_found inc_long dec_long take_run
    mark_used test_bit test_byte set_bit set_byte
alloc_stack = refl

alloc_root : mm_alloc_frame after_stack 1 ≡ some (0x3000, after_root)
unfolding mm_alloc_frame mm_do_alloc_frames retry search_run take_found inc_long dec_long take_run
    mark_used test_bit test_byte set_bit set_byte
alloc_root = refl

abbrev blank_pcb : Pcb
blank_pcb = record { vas = 0; stack_phys_base = 0; tf = first_frame 1 }

hal_init_pcb-translate_example :
    (o : ℕ × Pcb × Mmu) × (hal_init_pcb machine 4096 blank_pcb 0 ≡ some o)
    × Initialised 0 0x3000 0x2000 o
hal_init_pcb-translate_example =
    hal_init_pcb-translate machine 4096 blank_pcb 0 0x2000 0x3000 after_stack after_root alloc_stack
      (omega arith) alloc_root (omega arith) machine-IsReady (omega arith)

abbrev blank : Process
blank = record { pid = 0; name = replicate 32 0; pcb = blank_pcb }

abbrev idle : Processes
idle = record { next_pid = 1; process = λ _. none; mmu = machine }

abbrev init_name : List ℕ
init_name = b'i' ∷ b'n' ∷ 0 ∷ []

init_length : rtl_strlen init_name ≡ some 2
unfolding rtl_strlen
init_length = refl

ex_create_process_lem_example :
    (o : ℕ × Option ℕ × Processes) × (ex_create_process 4096 0x5000 blank idle init_name 0 ≡ some o)
    × (o.2.next_pid ≡ u64 (idle.next_pid + 1))
    × (IsCreated 0 0x3000 0x2000 0x5000 blank idle init_name 2 o.0 o.1 o.2
        ⊎ IsAbandoned 0x2000 0x5000 idle o.0 o.1 o.2)
ex_create_process_lem_example =
    ex_create_process_lem 4096 0x5000 blank idle init_name 0 2 init_length (omega arith) 0x2000
      0x3000 after_stack after_root alloc_stack (omega arith) alloc_root (omega arith)
      machine-IsReady (omega arith)

-- ===== src/Ke/Process.antt =====
-- Creation of a process: ntos/ex/process.c, ntos/ke/process.c and `halInitPcb` and `halProcSetIp` of
-- ntos/platform/amd64/ke/process.c. `none` is a fault of the frame allocator or a read behind the name.
pub mod Create
pub mod Executive
use algae.Base.{
  ℕ, ◌+◌, ◌-◌, ◌%◌, ◌^◌, Bool, true, false, Option, none, some, List, [], ◌∷◌, ◌++◌, ◌==◌,
  if◌then◌else◌, ◌>>=◌, take, drop, u32, u64, c_min, bit_or,
}
use algae.Status.{status_success, status_no_memory}
use algae.Rtl.Str.{rtl_strlen}
use algae.Mm.Phys.{page_size, mm_alloc_frame, mm_free_frame}
use algae.Mm.Mmu.{Mmu, mmu_create_vas, user_readwrite}
use algae.Mm.Page.{mm_map_pages}
use algae.Ke.Sched.{TrapFrame, Pcb, null}

abbrev pub stack_top : ℕ
stack_top = 0xBFFFFFFF

abbrev pub process_namelen : ℕ
process_namelen = 32

abbrev pub kernel_cs : ℕ
kernel_cs = 0x08

abbrev pub kernel_ds : ℕ
kernel_ds = 0x10

abbrev pub user_cs : ℕ
user_cs = 0x18

abbrev pub user_ds : ℕ
user_ds = 0x20

-- `ISSET(flags, PROCESS_KERNEL)`
abbrev pub is_kernel : ℕ → Bool
is_kernel flags = flags % 2 == 1

-- The trap frame that a process starts from.
abbrev pub first_frame : (flags : ℕ) → TrapFrame
first_frame flags = record {
  trapno = 0;
  rax = 0;
  rcx = 0;
  rdx = 0;
  rbx = 0;
  rsi = 0;
  rdi = 0;
  rbp = 0;
  r8 = 0;
  r9 = 0;
  r10 = 0;
  r11 = 0;
  r12 = 0;
  r13 = 0;
  r14 = 0;
  r15 = 0;
  error_code = 0;
  rip = 0;
  cs = if is_kernel flags then kernel_cs else bit_or user_cs 3;
  rflags = 0x202;
  rsp = stack_top;
  ss = if is_kernel flags then kernel_ds else bit_or user_ds 3;
}

-- `vas->cr3` is left as it was where no address space was made.
abbrev pub vas_of : Pcb → Option ℕ → ℕ
vas_of pcb none = pcb.vas
vas_of pcb (some cr3) = cr3

-- The stack is mapped, and given back where that fails.
unfoldable pub map_stack : Mmu → Pcb → Option (ℕ × Pcb × Mmu)
map_stack s pcb = do
  m ←
      mm_map_pages s pcb.vas
        (record { p_base = pcb.stack_phys_base; v_base = stack_top; byte_count = page_size })
        user_readwrite
  if m.0 == null
      then (do
        frames ← mm_free_frame m.2.frames pcb.stack_phys_base 1
        some (status_no_memory, pcb, record (m.2) { frames = frames }))
      else some (status_success, pcb, m.2)

-- `halInitPcb` of a control block that is not null, under the address space `cr3`. The status of
-- `mmuCreateVas` is not looked at.
unfoldable pub hal_init_pcb : Mmu → (cr3 : ℕ) → Pcb → (flags : ℕ) → Option (ℕ × Pcb × Mmu)
unfolding map_stack
hal_init_pcb s cr3 pcb flags = do
  r ← mm_alloc_frame s.frames 1
  let s1 = record s { frames = r.1 }
  if r.0 == 0 then some (status_no_memory, record pcb { stack_phys_base = r.0 }, s1) else (do
    v ← mmu_create_vas s1 cr3
    map_stack v.2 (record { vas = vas_of pcb v.1; stack_phys_base = r.0; tf = first_frame flags }))

-- `halProcSetIp`
unfoldable pub hal_proc_set_ip : Option Pcb → (ip : ℕ) → Option Pcb
hal_proc_set_ip none ip = none
hal_proc_set_ip (some pcb) ip = some (record pcb { tf = record (pcb.tf) { rip = ip } })

-- `PROCESS`, without its link in the scheduler's queue.
pub record Process : Type 0 where
  pub pid : ℕ
  pub name : List ℕ
  pub pcb : Pcb

-- `nextPid`, the processes in the pool's memory, and the machine.
pub record Processes : Type 0 where
  pub next_pid : ℕ
  pub process : ℕ → Option Process
  pub mmu : Mmu

abbrev pub put_process : (ℕ → Option Process) → (at : ℕ) → Option Process → ℕ → Option Process
put_process ps at p q = if at == q then p else ps q

-- `keInitProcess` of a process that is not null.
abbrev pub ke_init_process : Mmu → (cr3 : ℕ) → Process → (flags : ℕ) → Option (ℕ × Pcb × Mmu)
ke_init_process s cr3 process flags = hal_init_pcb s cr3 process.pcb flags

-- The process with its name and number, before `keInitProcess`.
abbrev pub named : Process → (name : List ℕ) → (name_len pid : ℕ) → Process
named process name name_len pid =
    let n = c_min process_namelen name_len in
    record process { pid = u32 pid; name = take n name ++ drop n process.name }

-- `exCreateProcess` of a name that is not null. `fresh` is what `exAllocatePool` gives, 0 for null, and
-- `blank` what that memory holds. The status, `*result` where it is set, and the new state.
unfoldable pub ex_create_process :
    (cr3 fresh : ℕ)
    → (blank : Process) → Processes
    → (name : List ℕ) → (flags : ℕ) → Option (ℕ × Option ℕ × Processes)
unfolding hal_init_pcb
ex_create_process cr3 fresh blank s name flags = do
  name_len ← rtl_strlen name
  if fresh == null then some (status_no_memory, none, s) else (do
    let process = named blank name name_len s.next_pid
    r ← ke_init_process s.mmu cr3 process flags
    let s' = record s { next_pid = u64 (s.next_pid + 1); mmu = r.2 }
    if r.0 == status_success
        then some (
          r.0,
          some fresh,
          record s' { process = put_process s.process fresh (some (record process { pcb = r.1 })) },
        )
        else some (r.0, none, record s' { process = put_process s.process fresh none }))

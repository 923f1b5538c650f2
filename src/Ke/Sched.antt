-- ===== src/Ke/Sched.antt =====
-- The process queue, ntos/ke/sched.c, and the context switch `halSchedSwitch` of
-- ntos/platform/amd64/ke/process.c. A process is known by its address; the tail queue is the list
-- of the addresses on it. `none` is an access to memory that holds no process.
pub mod Once
pub mod Switch
use algae.Base.{
  ℕ, zero, suc, ◌+◌, ◌-◌, ◌^◌, Bool, true, false, Option, none, some, List, [], ◌∷◌, ◌++◌, ◌==◌,
  ◌||◌, if◌then◌else◌, ◌>>=◌, u64,
}
use algae.Status.{status_success, status_invalid_handle, status_proc_notfound}

abbrev pub null : ℕ
null = 0

abbrev pub sched_quantum : ℕ
sched_quantum = 5000

-- `struct trapFrame`
pub record TrapFrame : Type 0 where
  pub trapno : ℕ
  pub rax : ℕ
  pub rcx : ℕ
  pub rdx : ℕ
  pub rbx : ℕ
  pub rsi : ℕ
  pub rdi : ℕ
  pub rbp : ℕ
  pub r8 : ℕ
  pub r9 : ℕ
  pub r10 : ℕ
  pub r11 : ℕ
  pub r12 : ℕ
  pub r13 : ℕ
  pub r14 : ℕ
  pub r15 : ℕ
  pub error_code : ℕ
  pub rip : ℕ
  pub cs : ℕ
  pub rflags : ℕ
  pub rsp : ℕ
  pub ss : ℕ

-- `PCB`; the address space is its `cr3`.
pub record Pcb : Type 0 where
  pub vas : ℕ
  pub stack_phys_base : ℕ
  pub tf : TrapFrame

-- `SCHED_QUEUE`
pub record SchedQueue : Type 0 where
  pub q : List ℕ
  pub nelem : ℕ

-- `keScheduleProc` of a queue that is not null.
unfoldable pub ke_schedule_proc : SchedQueue → (process : ℕ) → ℕ × SchedQueue
ke_schedule_proc queue process =
    if process == null
    then (status_invalid_handle, queue)
    else (status_success, record { q = queue.q ++ process ∷ []; nelem = u64 (queue.nelem + 1) })

-- The first process of the queue is taken off it.
unfoldable pub dequeue_first : (q : List ℕ) → (nelem : ℕ) → ℕ × Option ℕ × SchedQueue
dequeue_first [] nelem = (status_proc_notfound, none, record { q = []; nelem = nelem })
dequeue_first (process ∷ q) nelem =
    (status_success, some process, record { q = q; nelem = u64 (nelem + 2 ^ 64 - 1) })

-- `keDequeueProc` of a queue that is not null. It compares its own variable `process` with null
-- before it sets it: `stale` is what stands there.
unfoldable pub ke_dequeue_proc : (stale : ℕ) → SchedQueue → ℕ × Option ℕ × SchedQueue
unfolding dequeue_first
ke_dequeue_proc stale queue =
    if stale == null
    then (status_invalid_handle, none, queue)
    else if queue.nelem == 0
    then (status_proc_notfound, none, queue)
    else dequeue_first queue.q queue.nelem

-- What the switch does outside memory, in its order.
pub data Effect : Type 0 where
  write_vas : (cr3 : ℕ) → Effect
  lapic_eoi : Effect
  oneshot_usec : (n : ℕ) → Effect

-- A processor: `core->queue`, `core->curProc`, the processes' control blocks and the live frame.
pub record Core : Type 0 where
  pub queue : SchedQueue
  pub cur_proc : ℕ
  pub pcb : ℕ → Option Pcb
  pub frame : TrapFrame
  pub effects : List Effect

abbrev pub set_pcb : Core → (p : ℕ) → Pcb → Core
set_pcb core p pcb = record core { pcb = λ q. if p == q then some pcb else core.pcb q }

-- The part behind `done`.
abbrev pub done : Core → Core
done core = record core { effects = core.effects ++ lapic_eoi ∷ oneshot_usec sched_quantum ∷ [] }

-- The running process is put on the queue and its frame is saved. `keScheduleProc` succeeds, since the
-- process is not null.
unfoldable pub save_current : Core → Option Core
unfolding ke_schedule_proc
save_current core = if core.cur_proc == null then some core else (do
  pcb ← core.pcb core.cur_proc
  some (
      set_pcb (record core { queue = (ke_schedule_proc core.queue core.cur_proc).1 }) core.cur_proc
        (record pcb { tf = core.frame })))

-- The next process's frame becomes the live one.
unfoldable pub load_next : Core → ℕ × Option ℕ × SchedQueue → Option Core
load_next core (status, none, queue) = some (done (record core { queue = queue }))
load_next core (status, some next, queue) = do
  pcb ← core.pcb next
  some (
      done (record core {
        queue = queue;
        cur_proc = next;
        frame = pcb.tf;
        effects = core.effects ++ write_vas pcb.vas ∷ [];
      }))

-- `halSchedSwitch`; `keGetCore` does not give null.
unfoldable pub hal_sched_switch : (stale : ℕ) → Core → Option Core
unfolding save_current load_next ke_dequeue_proc
hal_sched_switch stale core = do
  saved ← save_current core
  load_next saved (ke_dequeue_proc stale saved.queue)

-- A run of timer interrupts; each finds the running process's registers in a frame.
unfoldable pub interrupts : (stale : ℕ) → List TrapFrame → Core → Option Core
interrupts stale [] core = some core
interrupts stale (frame ∷ frames) core = do
  next ← hal_sched_switch stale (record core { frame = frame })
  interrupts stale frames next

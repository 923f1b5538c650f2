-- ===== src/Ke/Sched/Once.antt =====
-- One switch of `halSchedSwitch` (ntos/platform/amd64/ke/process.c).
use algae.Base.{
  ℕ, ◌+◌, ◌-◌, ◌^◌, ◌<◌, ◌≡◌, ◌≢◌, refl, false, Option, some, List, [], ◌∷◌, ◌++◌, ◌==◌, arith,
  length, All, u64, inl, inr, Bool-cases, ne→eqb,
}
use algae.Ke.Sched.{
  null, Pcb, SchedQueue, Core, write_vas, ke_schedule_proc, dequeue_first, ke_dequeue_proc, set_pcb,
  done, save_current, load_next, hal_sched_switch,
}

-- control block `b'`.
abbrev pub switched : Core → (b : Pcb) → (next : ℕ) → (rest : List ℕ) → (b' : Pcb) → Core
switched core b next rest b' =
    done (record (set_pcb core core.cur_proc (record b { tf = core.frame })) {
      queue = record { q = rest; nelem = core.queue.nelem };
      cur_proc = next;
      frame = b'.tf;
      effects = core.effects ++ write_vas b'.vas ∷ [];
    })

-- The count that the queue keeps is its length.
pub record IsCounted (queue : SchedQueue) : Type 0 where
  pub counted : queue.nelem ≡ length queue.q
  pub fits : length queue.q + 1 < 2 ^ 64

nelem_back : (n : ℕ) → n + 1 < 2 ^ 64 → u64 (u64 (n + 1) + 2 ^ 64 - 1) ≡ n
nelem_back n h = omega (arith, h)

nelem_pos : (n : ℕ) → n + 1 < 2 ^ 64 → (u64 (n + 1) == 0) ≡ false
nelem_pos n h = ground (arith, h)

pub hal_sched_switch_lem :
    (stale : ℕ) (core : Core) (b : Pcb) (next : ℕ) (rest : List ℕ) (b' : Pcb)
    → stale ≢ null
    → core.cur_proc ≢ null
    → core.queue.nelem + 1 < 2 ^ 64
    → core.pcb core.cur_proc ≡ some b
    → core.queue.q ++ core.cur_proc ∷ [] ≡ next ∷ rest
    → (set_pcb core core.cur_proc (record b { tf = core.frame })).pcb next ≡ some b'
    → hal_sched_switch stale core ≡ some (switched core b next rest b')
unfolding hal_sched_switch save_current ke_schedule_proc ke_dequeue_proc dequeue_first load_next
hal_sched_switch_lem stale core b next rest b' set running fits cur e found =
    rw (ne→eqb core.cur_proc null running) rw cur rw (ne→eqb stale null set) rw
      (nelem_pos core.queue.nelem fits) rw e rw (nelem_back core.queue.nelem fits) rw found refl

-- A process other than `p` that can run.
pub record CanRun (pcbs : ℕ → Option Pcb) (p a : ℕ) : Type 0 where
  pub present : a ≢ null
  pub other : a ≢ p
  pub b : Pcb
  pub found : pcbs a ≡ some b

pub set_pcb_ne : (core : Core) (c p : ℕ) (b : Pcb) → c ≢ p → (set_pcb core c b).pcb p ≡ core.pcb p
set_pcb_ne core c p b ne = rw (ne→eqb c p ne) refl

pub set_pcb_found :
    (core : Core) (c a : ℕ) (b b' : Pcb)
    → core.pcb a ≡ some b
    → (b'' : Pcb) × ((set_pcb core c b').pcb a ≡ some b'')
set_pcb_found core c a b b' found = elim (Bool-cases (c == a)) [
  | inl e ↦ (b', rw e refl)
  | inr e ↦ (b, rw e found)
]

pub All-map : {P Q : ℕ → Type 0} (xs : List ℕ) → ((x : ℕ) → P x → Q x) → All P xs → All Q xs
All-map [] f h = h
All-map (x ∷ xs) f h = (f x h.0, All-map xs f h.1)

pub CanRun-switched :
    (core : Core) (b : Pcb) (next : ℕ) (rest : List ℕ) (b' : Pcb) (p a : ℕ)
    → CanRun core.pcb p a
    → CanRun (switched core b next rest b').pcb p a
CanRun-switched core b next rest b' p a h =
    let (b'', found) =
      set_pcb_found core core.cur_proc a h.b (record b { tf = core.frame }) h.found in
    record { present = h.present; other = h.other; b = b''; found = found }

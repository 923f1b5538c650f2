-- ===== src/Ke/Sched/Switch.antt =====
-- What a run of timer interrupts does to a process: `halSchedSwitch` of
-- ntos/platform/amd64/ke/process.c, again and again.
use algae.Base.{
  subst, ℕ, suc, ◌+◌, ◌^◌, ◌<◌, ◌≡◌, ◌≢◌, refl, ap, sym, ◌∙◌, true, Option, some, List, [], ◌∷◌,
  ◌++◌, ◌==◌, arith, ◌>>=◌, length, All, append_assoc, length-append,
}
use algae.Ke.Sched.{null, TrapFrame, Pcb, Core, set_pcb, hal_sched_switch, interrupts}
use algae.Ke.Sched.Once.{
  All-map, CanRun, CanRun-switched, IsCounted, hal_sched_switch_lem, set_pcb_found, set_pcb_ne,
  switched,
}

-- `p` waits behind `before` with its registers saved.
record Waits (core : Core) (p : ℕ) (saved : Pcb) (before after : List ℕ) : Type 0 where
  queue : core.queue.q ≡ before ++ p ∷ after
  counted : IsCounted core.queue
  here : core.pcb p ≡ some saved
  not_null : p ≢ null
  running : CanRun core.pcb p core.cur_proc
  others : All (CanRun core.pcb p) before

-- `p` runs with the frame it was interrupted with.
abbrev pub Resumed : Option Core → (p : ℕ) → TrapFrame → (q : List ℕ) → Type 0
Resumed r p frame q =
    (core : Core) × (r ≡ some core)
    × (core.cur_proc ≡ p)
    × (core.frame ≡ frame)
    × (core.queue.q ≡ q)

-- The processor in front of an interrupt that finds `frame`.
abbrev interrupted : Core → TrapFrame → Core
interrupted core frame = record core { frame = frame }

nelem_fits : (core : Core) → IsCounted core.queue → core.queue.nelem + 1 < 2 ^ 64
nelem_fits core h = omega (arith, h.counted, h.fits)

last_switch :
    (stale : ℕ) (f : TrapFrame) (core : Core) (p : ℕ) (saved : Pcb) (after : List ℕ)
    → stale ≢ null
    → (w : Waits core p saved [] after)
    → hal_sched_switch stale (interrupted core f)
      ≡ some (switched (interrupted core f) w.running.b p (after ++ core.cur_proc ∷ []) saved)
last_switch stale f core p saved after set w =
    hal_sched_switch_lem stale (interrupted core f) w.running.b p (after ++ core.cur_proc ∷ [])
      saved set w.running.present (nelem_fits core w.counted) w.running.found
      (ap (λ xs. xs ++ core.cur_proc ∷ []) w.queue)
      (set_pcb_ne core core.cur_proc p (record w.running.b { tf = f }) w.running.other ∙ w.here)

rotated_length :
    (a p c : ℕ) (before after : List ℕ)
    → length (a ∷ (before ++ p ∷ after)) ≡ length ((before ++ p ∷ after) ++ c ∷ [])
rotated_length a p c before after = omega (arith, length-append (before ++ p ∷ after) (c ∷ []))

Waits-next :
    (f : TrapFrame) (core : Core) (p : ℕ) (saved : Pcb) (a : ℕ) (before after : List ℕ)
    (w : Waits core p saved (a ∷ before) after) (b'' : Pcb)
    → (set_pcb core core.cur_proc (record w.running.b { tf = f })).pcb a ≡ some b''
    → Waits
        (switched
          (interrupted core f)
          w.running.b
          a
          ((before ++ p ∷ after) ++ core.cur_proc ∷ [])
          b'')
        p
        saved
        before
        (after ++ core.cur_proc ∷ [])
Waits-next f core p saved a before after w b'' found = record {
  queue = append_assoc before (p ∷ after) (core.cur_proc ∷ []);
  counted = record {
    counted = w.counted.counted ∙ ap length w.queue ∙ rotated_length a p core.cur_proc before after;
    fits =
        omega
          (arith, w.counted.fits, ap length w.queue, rotated_length a p core.cur_proc before after);
  };
  here = set_pcb_ne core core.cur_proc p (record w.running.b { tf = f }) w.running.other ∙ w.here;
  not_null = w.not_null;
  running = record {
    present = w.others.0.present;
    other = w.others.0.other;
    b = b'';
    found = found;
  };
  others =
      All-map before
        (λ x.
          CanRun-switched (interrupted core f) w.running.b a
            ((before ++ p ∷ after) ++ core.cur_proc ∷ []) b'' p x)
        w.others.1;
}

Waits-Resumed :
    (stale : ℕ) (frames : List TrapFrame) (core : Core) (p : ℕ) (saved : Pcb)
    (before after : List ℕ)
    → stale ≢ null
    → Waits core p saved before after
    → length frames ≡ suc (length before)
    → Resumed (interrupts stale frames core) p saved.tf (after ++ core.cur_proc ∷ before)
unfolding interrupts
Waits-Resumed stale [] core p saved before after set w e = absurd (omega (arith, e))
Waits-Resumed stale (f ∷ []) core p saved [] after set w e = (
  switched (interrupted core f) w.running.b p (after ++ core.cur_proc ∷ []) saved,
  rw (last_switch stale f core p saved after set w) refl,
  refl,
  refl,
  refl,
)
Waits-Resumed stale (f ∷ g ∷ frames) core p saved [] after set w e = absurd (omega (arith, e))
Waits-Resumed stale (f ∷ frames) core p saved (a ∷ before) after set w e =
    let (b'', found) =
      set_pcb_found core core.cur_proc a w.others.0.b (record w.running.b { tf = f })
        w.others.0.found in
    let rest = (before ++ p ∷ after) ++ core.cur_proc ∷ [] in
    let next = switched (interrupted core f) w.running.b a rest b'' in
    let (core', e', cur, frame, q) =
      Waits-Resumed stale frames next p saved before (after ++ core.cur_proc ∷ []) set
        (Waits-next f core p saved a before after w b'' found) (omega (arith, e)) in
    (
      core',
      ap (λ r. r >>= interrupts stale frames)
            (hal_sched_switch_lem stale (interrupted core f) w.running.b a rest b'' set
              w.running.present (nelem_fits core w.counted) w.running.found
              (ap (λ xs. xs ++ core.cur_proc ∷ []) w.queue) found)
          ∙ e',
      cur,
      frame,
      q ∙ append_assoc after (core.cur_proc ∷ []) (a ∷ before),
    )

eqb_self : (n : ℕ) → (n == n) ≡ true
eqb_self n = ground arith

-- The frame that the running process `p` is interrupted with, and the processes that wait.
pub record IsRunning (core : Core) (p : ℕ) : Type 0 where
  pub counted : IsCounted core.queue
  pub is_current : core.cur_proc ≡ p
  pub present : p ≢ null
  pub b : Pcb
  pub found : core.pcb p ≡ some b
  pub others : All (CanRun core.pcb p) core.queue.q

set_pcb_self : (core : Core) (c p : ℕ) (b : Pcb) → c ≡ p → (set_pcb core c b).pcb p ≡ some b
set_pcb_self core c p b e = rw e rw (eqb_self p) refl

-- The switch away from `p`.
first_switch :
    (stale : ℕ) (core : Core) (p : ℕ) (frame : TrapFrame) (q : List ℕ) (next : ℕ) (rest : List ℕ)
    (b' : Pcb)
    → stale ≢ null
    → (r : IsRunning core p) → core.queue.q ++ core.cur_proc ∷ [] ≡ next ∷ rest
    → (set_pcb core core.cur_proc (record r.b { tf = frame })).pcb next ≡ some b'
    → hal_sched_switch stale (interrupted core frame)
      ≡ some (switched (interrupted core frame) r.b next rest b')
first_switch stale core p frame q next rest b' set r e found =
    hal_sched_switch_lem stale (interrupted core frame) r.b next rest b' set
      (λ h. r.present (sym r.is_current ∙ h)) (nelem_fits core r.counted)
      (ap core.pcb r.is_current ∙ r.found) e found

Waits-first :
    (core : Core) (p : ℕ) (frame : TrapFrame) (a : ℕ) (q : List ℕ) (b'' : Pcb)
    (r : IsRunning core p)
    → core.queue.q ≡ a ∷ q
    → All (CanRun core.pcb p) (a ∷ q)
    → (set_pcb core core.cur_proc (record r.b { tf = frame })).pcb a ≡ some b''
    → Waits
        (switched (interrupted core frame) r.b a (q ++ core.cur_proc ∷ []) b'')
        p
        (record r.b { tf = frame })
        q
        []
Waits-first core p frame a q b'' r eq others found = record {
  queue = ap (λ c. q ++ c ∷ []) r.is_current;
  counted = record {
    counted = omega (arith, r.counted.counted, ap length eq, length-append q (core.cur_proc ∷ []));
    fits = omega (arith, r.counted.fits, ap length eq, length-append q (core.cur_proc ∷ []));
  };
  here = set_pcb_self core core.cur_proc p (record r.b { tf = frame }) r.is_current;
  not_null = r.present;
  running = record { present = others.0.present; other = others.0.other; b = b''; found = found };
  others =
      All-map q
        (λ x. CanRun-switched (interrupted core frame) r.b a (q ++ core.cur_proc ∷ []) b'' p x)
        others.1;
}

resume_at :
    (stale : ℕ) (core : Core) (p : ℕ) (frame : TrapFrame) (frames : List TrapFrame) (q : List ℕ)
    → stale ≢ null
    → IsRunning core p
    → core.queue.q ≡ q
    → length frames ≡ length q
    → Resumed (interrupts stale (frame ∷ frames) core) p frame q
unfolding interrupts
resume_at stale core p frame [] [] set r eq e = (
  switched (interrupted core frame) r.b p [] (record r.b { tf = frame }),
  rw
      (first_switch stale core p frame [] p [] (record r.b { tf = frame }) set r
        (ap (λ xs. xs ++ core.cur_proc ∷ []) eq ∙ ap (λ c. c ∷ []) r.is_current)
        (set_pcb_self core core.cur_proc p (record r.b { tf = frame }) r.is_current))
      refl,
  refl,
  refl,
  refl,
)
resume_at stale core p frame (g ∷ frames) [] set r eq e = absurd (omega (arith, e))
resume_at stale core p frame frames (a ∷ q) set r eq e =
    let others = subst (All (CanRun core.pcb p)) eq r.others in
    let (b'', found) =
      set_pcb_found core core.cur_proc a others.0.b (record r.b { tf = frame }) others.0.found in
    let rest = q ++ core.cur_proc ∷ [] in
    let next = switched (interrupted core frame) r.b a rest b'' in
    let (core', e', cur, live, queue) =
      Waits-Resumed stale frames next p (record r.b { tf = frame }) q [] set
        (Waits-first core p frame a q b'' r eq others found) e in
    (
      core',
      ap (λ m. m >>= interrupts stale frames)
            (first_switch stale core p frame q a rest b'' set r
              (ap (λ xs. xs ++ core.cur_proc ∷ []) eq) found)
          ∙ e',
      cur,
      live,
      queue,
    )

-- The running process `p` is interrupted with `frame`, and every process on the queue, none of them
-- `p`, has a control block. The local `process` of `keDequeueProc`, which is compared with NULL before it
-- is initialised, happens not to be null. After as many further interrupts as there are processes on the queue,
-- whatever frames those are taken with, `p` runs again with `frame`, and the queue is as before.
pub interrupts_resume :
    (stale : ℕ) (core : Core) (p : ℕ) (frame : TrapFrame) (frames : List TrapFrame)
    → stale ≢ null
    → IsRunning core p
    → length frames ≡ length core.queue.q
    → Resumed (interrupts stale (frame ∷ frames) core) p frame core.queue.q
interrupts_resume stale core p frame frames set r e =
    resume_at stale core p frame frames core.queue.q set r refl e

-- ===== src/Cpu/Mp/Start.antt =====
-- What `kiMpInit` sends to the other processors.
use algae.Base.{
  ℕ, suc, ◌+◌, ◌*◌, ◌^◌, ◌≤◌, ◌<◌, ◌≡◌, ◌≢◌, refl, sym, ap, ◌∙◌, subst, true, false, some, List, [],
  ◌∷◌, ◌++◌, arith, ◌==◌, if◌then◌else◌, negsuc, map, length, All, ◌⊎◌, inl, inr, Bool-cases,
  ne→eqb, append_assoc, append-nil, bit_or, u32,
}
use algae.Status.{status_success}
use algae.Rtl.Memory.{Memory}
use algae.Rtl.Str.{c_str}
use algae.Mm.Phys.{Frames, mm_alloc_frame}
use algae.Ob.{ObStore}
use algae.Ex.Timer.{Ktimer, ke_timer_msleep, ke_timer_get_descriptor}
use algae.Acpi.{Acpi, cache_madt, header_length, madt_size, null}
use algae.Acpi.Madt.{Entry, IsLaid, addresses_of, until_final, acpi_read_madt-until_final}
use algae.Cpu.Lapic.{
  Mcb, Write, LapicIpi, is_busy, icr_lo, wait_icr, lapic_write, lapic_icrlo, lapic_icrhi,
  ki_lapic_send_ipi,
}
use algae.Cpu.Mp.{
  Event, describe, register, sleep, Starting, Starter, ipi_to, send_ipi, msleep, send_startups,
  start_ap, apic_id_at, local_apic_lookup, aux_path, with_trampoline, ki_mp_init, ipi_delmod_init,
  ipi_delmod_startup, apic_type_local_apic,
}

-- The writes of one IPI to another processor.
pub ipi_writes : Mcb → LapicIpi → List Write
ipi_writes mcb ipi =
    if mcb.has_x2apic
    then lapic_write mcb lapic_icrlo (bit_or (ipi.apic_id * 2 ^ 32) (icr_lo ipi)) ∷ []
    else lapic_write mcb lapic_icrhi (u32 (ipi.apic_id * 2 ^ 24))
      ∷ lapic_write mcb lapic_icrlo (icr_lo ipi)
      ∷ []

-- In xAPIC mode the device is read idle `n` times at least.
abbrev pub CanSend : Mcb → (n : ℕ) → (reads : List ℕ) → Type 0
CanSend mcb n reads =
    (mcb.has_x2apic ≡ true)
    ⊎ ((mcb.has_x2apic ≡ false) × All (λ r. is_busy r ≡ false) reads × (n ≤ length reads))

-- The calls of `mmAllocFrame` for one frame, one after the other, give these frames.
abbrev pub Grants : (stacks : List ℕ) → Frames → Type 0
Grants [] f = Unit
Grants (r ∷ rs) f = (f' : Frames) × (mm_alloc_frame f 1 ≡ some (r, f')) × (r ≢ 0) × Grants rs f'

-- The start of one processor: its descriptor, INIT, and STARTUP twice, with the waits between them.
abbrev pub start_events : Mcb → (cr3 entry stack apic_id : ℕ) → List Event
start_events mcb cr3 entry stack apic_id =
    let init = map register (ipi_writes mcb (ipi_to apic_id ipi_delmod_init 0)) in
    let startup = map register (ipi_writes mcb (ipi_to apic_id ipi_delmod_startup 1)) in
    describe (record { pml4_pa = cr3; entry_pa = entry; stack_base = stack })
    ∷ (init ++ sleep 10 ∷ (startup ++ sleep 5 ∷ (startup ++ sleep 5 ∷ [])))

-- The processors of a list of headers but the caller.
unfoldable pub others : Memory → (own : ℕ) → List ℕ → List ℕ
others m own [] = []
others m own (p ∷ ps) =
    let rest = others m own ps in if apic_id_at m p == own then rest else apic_id_at m p ∷ rest

pub all_starts : Mcb → (cr3 entry : ℕ) → (stacks ids : List ℕ) → List Event
all_starts mcb cr3 entry [] ids = []
all_starts mcb cr3 entry (r ∷ rs) [] = []
all_starts mcb cr3 entry (r ∷ rs) (id ∷ ids) =
    start_events mcb cr3 entry r id ++ all_starts mcb cr3 entry rs ids

-- A timer that waits.
abbrev pub Waits : Ktimer (List Event) → Type 0
Waits timer = timer.msleep ≡ some (λ d n. d ++ sleep n ∷ [])

module _ (mcb : Mcb) (id delmod vector : ℕ) where
  sent :
      (n : ℕ) (reads : List ℕ)
      → CanSend mcb (suc n) reads
      → (left : List ℕ) × (ki_lapic_send_ipi mcb (ipi_to id delmod vector) reads
          ≡ some (status_success, ipi_writes mcb (ipi_to id delmod vector), left))
        × CanSend mcb n left
  unfolding ki_lapic_send_ipi ipi_writes wait_icr
  sent n reads (inl x2) = (reads, rw x2 refl, inl x2)
  sent n [] (inr (x, idle, enough)) = absurd (omega (arith, enough))
  sent n (r ∷ reads) (inr (x, idle, enough)) =
      (reads, rw x rw idle.0 refl, inr (x, idle.1, omega (arith, enough)))

module _ (c : Starter) (waits : Waits c.timer) where
  send_lem :
      (s : Starting) (id delmod vector n : ℕ)
      → CanSend c.mcb (suc n) s.reads
      → (left : List ℕ) × (send_ipi c s (ipi_to id delmod vector)
          ≡ some (record {
            frames = s.frames;
            reads = left;
            events = s.events ++ map register (ipi_writes c.mcb (ipi_to id delmod vector));
          }))
        × CanSend c.mcb n left
  unfolding send_ipi
  send_lem s id delmod vector n can =
      let (left, e, can') = sent c.mcb id delmod vector n s.reads can in (left, rw e refl, can')

  msleep_lem :
      (s : Starting) (ms : ℕ)
      → msleep c s ms
        ≡ record { frames = s.frames; reads = s.reads; events = s.events ++ sleep ms ∷ [] }
  unfolding msleep ke_timer_msleep
  msleep_lem s ms = rw waits refl

  events_assoc :
      (ev a b : List Event) (d x y : Event)
      → ((((((ev ++ d ∷ []) ++ a) ++ x ∷ []) ++ b) ++ y ∷ []) ++ b) ++ y ∷ []
        ≡ ev ++ (d ∷ (a ++ x ∷ (b ++ y ∷ (b ++ y ∷ []))))
  events_assoc ev a b d x y = simp append_assoc refl

  -- One round of the two startup IPIs, and then the wait.
  startup_round :
      (s : Starting) (id n rounds : ℕ)
      → CanSend c.mcb (suc n) s.reads
      → (left : List ℕ) × (send_startups c s (ipi_to id ipi_delmod_startup 1) (suc rounds)
          ≡ send_startups c
              (record {
                frames = s.frames;
                reads = left;
                events =
                    (s.events ++ map register (ipi_writes c.mcb (ipi_to id ipi_delmod_startup 1)))
                    ++ sleep 5 ∷ [];
              })
              (ipi_to id ipi_delmod_startup 1)
              rounds)
        × CanSend c.mcb n left
  unfolding send_startups
  startup_round s id n rounds can =
      let (left, e, can') = send_lem s id ipi_delmod_startup 1 n can in
      (
        left,
        rw e rw
            (msleep_lem
              (record {
                frames = s.frames;
                reads = left;
                events =
                    s.events ++ map register (ipi_writes c.mcb (ipi_to id ipi_delmod_startup 1));
              })
              5)
            refl,
        can',
      )

  startups_end : (s : Starting) (ipi : LapicIpi) → send_startups c s ipi 0 ≡ some s
  unfolding send_startups
  startups_end s ipi = refl

  start_ap_first :
      (s : Starting) (id r n : ℕ) (f' : Frames)
      → mm_alloc_frame s.frames 1 ≡ some (r, f')
      → r ≢ 0
      → CanSend c.mcb (suc n) s.reads
      → (left : List ℕ) × (start_ap c s id
          ≡ send_startups c
              (record {
                frames = f';
                reads = left;
                events =
                    ((s.events
                        ++ describe (record { pml4_pa = c.cr3; entry_pa = c.entry; stack_base = r })
                          ∷ [])
                      ++ map register (ipi_writes c.mcb (ipi_to id ipi_delmod_init 0)))
                    ++ sleep 10 ∷ [];
              })
              (ipi_to id ipi_delmod_startup 1)
              2)
        × CanSend c.mcb n left
  unfolding start_ap
  start_ap_first s id r n f' e ne can =
      let d = describe (record { pml4_pa = c.cr3; entry_pa = c.entry; stack_base = r }) in
      let s0 : Starting = record { frames = f'; reads = s.reads; events = s.events ++ d ∷ [] } in
      let (left, e1, can') = send_lem s0 id ipi_delmod_init 0 n can in
      (
        left,
        rw e rw (ne→eqb r 0 ne) rw e1 (
            ap (λ s1. send_startups c s1 (ipi_to id ipi_delmod_startup 1) 2)
              (msleep_lem
                (record {
                  frames = f';
                  reads = left;
                  events =
                      (s.events ++ d ∷ [])
                      ++ map register (ipi_writes c.mcb (ipi_to id ipi_delmod_init 0));
                })
                10)),
        can',
      )

  start_ap_lem :
      (s : Starting) (id r n : ℕ) (f' : Frames)
      → mm_alloc_frame s.frames 1 ≡ some (r, f')
      → r ≢ 0
      → CanSend c.mcb (suc (suc (suc n))) s.reads
      → (left : List ℕ) × (start_ap c s id
          ≡ some (record {
            frames = f';
            reads = left;
            events = s.events ++ start_events c.mcb c.cr3 c.entry r id;
          }))
        × CanSend c.mcb n left
  start_ap_lem s id r n f' e ne can =
      let (l1, e1, can1) = start_ap_first s id r (suc (suc n)) f' e ne can in
      let (l2, e2, can2) = startup_round _ id (suc n) 1 can1 in
      let (l3, e3, can3) = startup_round _ id n 0 can2 in
      (
        l3,
        e1
            ∙ e2
            ∙ e3
            ∙ startups_end _ _
            ∙ ap (λ ev. some (record { frames = f'; reads = l3; events = ev }))
                (events_assoc _ _ _ _ _ _),
        can3,
      )

  -- The outcome of the callback on a list of headers.
  abbrev Visited : (own : ℕ) → (ps stacks : List ℕ) → Starting → Type 0
  Visited own ps stacks s =
      (s' : Starting) × (until_final (local_apic_lookup c own) ps s ≡ some (negsuc 0, s'))
      × (s'.events ≡ s.events ++ all_starts c.mcb c.cr3 c.entry stacks (others c.tables own ps))

  Visited-none :
      (own : ℕ) (stacks : List ℕ) (s : Starting) → length stacks ≡ 0 → Visited own [] stacks s
  unfolding until_final others all_starts
  Visited-none own [] s same = (s, refl, sym (append-nil s.events))
  Visited-none own (r ∷ rs) s same = absurd (omega (arith, same))

  skip_self :
      (own p : ℕ) (ps stacks : List ℕ) (s : Starting)
      → (apic_id_at c.tables p == own) ≡ true
      → Visited own ps stacks s
      → Visited own (p ∷ ps) stacks s
  unfolding until_final others local_apic_lookup
  skip_self own p ps stacks s self (s', e, ev) = (s', rw self e, rw self ev)

  start_other :
      (own p r : ℕ) (ps rs : List ℕ) (s s1 : Starting)
      → (apic_id_at c.tables p == own) ≡ false
      → start_ap c s (apic_id_at c.tables p) ≡ some s1
      → s1.events ≡ s.events ++ start_events c.mcb c.cr3 c.entry r (apic_id_at c.tables p)
      → Visited own ps rs s1
      → Visited own (p ∷ ps) (r ∷ rs) s
  unfolding until_final others all_starts local_apic_lookup
  start_other own p r ps rs s s1 other e1 ev1 (s', e, ev) = (
    s',
    rw other rw e1 e,
    rw other (
        ev
        ∙ ap (λ x. x ++ all_starts c.mcb c.cr3 c.entry rs (others c.tables own ps)) ev1
        ∙ append_assoc s.events (start_events c.mcb c.cr3 c.entry r (apic_id_at c.tables p))
            (all_starts c.mcb c.cr3 c.entry rs (others c.tables own ps))),
  )

  others_self :
      (own p : ℕ) (ps : List ℕ)
      → (apic_id_at c.tables p == own) ≡ true
      → length (others c.tables own (p ∷ ps)) ≡ length (others c.tables own ps)
  unfolding others
  others_self own p ps e = rw e refl

  others-other :
      (own p : ℕ) (ps : List ℕ)
      → (apic_id_at c.tables p == own) ≡ false
      → length (others c.tables own (p ∷ ps)) ≡ suc (length (others c.tables own ps))
  unfolding others
  others-other own p ps e = rw e refl

  three_more : (n : ℕ) → 3 * suc n ≡ suc (suc (suc (3 * n)))
  three_more n = omega arith

  none_left : (own : ℕ) → length (others c.tables own []) ≡ 0
  unfolding others
  none_left own = refl

  other-Visited :
      (own p : ℕ) (ps stacks : List ℕ) (s : Starting)
      → (apic_id_at c.tables p == own) ≡ false
      → Grants stacks s.frames
      → length stacks ≡ suc (length (others c.tables own ps))
      → CanSend c.mcb (3 * length stacks) s.reads
      → ((rs : List ℕ) (s1 : Starting)
          → Grants rs s1.frames
          → length rs ≡ length (others c.tables own ps)
          → CanSend c.mcb (3 * length rs) s1.reads
          → Visited own ps rs s1)
      → Visited own (p ∷ ps) stacks s
  other-Visited own p ps [] s other g same can rest = absurd (omega (arith, same))
  other-Visited own p ps (r ∷ rs) s other (f', e, ne, g) same can rest =
      let can' = subst (λ k. CanSend c.mcb k s.reads) (three_more (length rs)) can in
      let (left, e1, can1) =
        start_ap_lem s (apic_id_at c.tables p) r (3 * length rs) f' e ne can' in
      start_other own p r ps rs s _ other e1 refl (rest rs _ g (omega (arith, same)) can1)

  -- The callback on every header in turn.
  visited :
      (own : ℕ) (ps stacks : List ℕ) (s : Starting)
      → Grants stacks s.frames
      → length stacks ≡ length (others c.tables own ps)
      → CanSend c.mcb (3 * length stacks) s.reads
      → Visited own ps stacks s
  visited own [] stacks s g same can = Visited-none own stacks s (same ∙ none_left own)
  visited own (p ∷ ps) stacks s g same can = elim (Bool-cases (apic_id_at c.tables p == own)) [
    | inl self ↦
        skip_self own p ps stacks s self
          (visited own ps stacks s g (same ∙ others_self own p ps self) can)
    | inr other ↦
        other-Visited own p ps stacks s other g (same ∙ others-other own p ps other) can
          (visited own ps)
  ]

module _ (path_fuel fuel : ℕ) (ob : ObStore) (acpi acpi' : Acpi) (mcb : Mcb) (cr3 entry t : ℕ)
    (trampoline_data : ℕ → ℕ) (timer_of : ℕ → Ktimer (List Event)) (s : Starting) (es : List Entry)
    (stacks : List ℕ) where
  abbrev starter : Starter
  starter = record { mcb = mcb; tables = acpi.memory; cr3 = cr3; entry = entry; timer = timer_of t }

  abbrev headers : List ℕ
  headers = addresses_of apic_type_local_apic (acpi'.madt + madt_size) es

  abbrev before : Starting
  before = record s { frames = with_trampoline s.frames trampoline_data }

  ki_mp_init_steps :
      (s' : Starting)
      → ke_timer_get_descriptor path_fuel ob (c_str aux_path []) ≡ some (status_success, t)
      → cache_madt acpi ≡ some acpi'
      → acpi'.madt ≢ null
      → IsLaid acpi'.memory
          (acpi'.madt + madt_size)
          (acpi'.madt + header_length acpi'.memory acpi'.madt)
          es
      → length es < fuel
      → until_final (local_apic_lookup starter mcb.hw_id) headers before ≡ some (negsuc 0, s')
      → ki_mp_init path_fuel fuel ob acpi mcb cr3 entry trampoline_data timer_of s
        ≡ some (acpi', s')
  unfolding ki_mp_init
  ki_mp_init_steps s' found cached there laid enough run =
      rw found rw
        (acpi_read_madt-until_final fuel acpi acpi' apic_type_local_apic
          (local_apic_lookup starter mcb.hw_id) before es cached there laid enough)
        rw run refl

  -- Where the timer "/clkdev/aux" is found and waits, the MADT is found with its entries one behind the
  -- other, fuel is above their number, the allocator gives a frame for each local APIC that is not the
  -- caller's, and in xAPIC mode the device is read idle three times for each, `kiMpInit` returns. For each of
  -- these local APICs in the MADT's order it writes a descriptor with the next frame as stack, sends INIT,
  -- waits 10 ms, and sends STARTUP twice, waiting 5 ms behind each; to the caller it sends nothing.
  pub ki_mp_init-all_starts :
      ke_timer_get_descriptor path_fuel ob (c_str aux_path []) ≡ some (status_success, t)
      → Waits (timer_of t)
      → cache_madt acpi ≡ some acpi'
      → acpi'.madt ≢ null
      → IsLaid acpi'.memory
          (acpi'.madt + madt_size)
          (acpi'.madt + header_length acpi'.memory acpi'.madt)
          es
      → length es < fuel
      → Grants stacks (with_trampoline s.frames trampoline_data)
      → length stacks ≡ length (others acpi.memory mcb.hw_id headers)
      → CanSend mcb (3 * length stacks) s.reads
      → (s' : Starting) × (ki_mp_init path_fuel fuel ob acpi mcb cr3 entry trampoline_data timer_of
            s
          ≡ some (acpi', s'))
        × (s'.events
            ≡ s.events ++ all_starts mcb cr3 entry stacks (others acpi.memory mcb.hw_id headers))
  ki_mp_init-all_starts found waits cached there laid enough grants same can =
      let (s', e, ev) = visited starter waits mcb.hw_id headers stacks before grants same can in
      (s', ki_mp_init_steps s' found cached there laid enough e, ev)

-- ===== src/Cpu/Mp.antt =====
-- The start of the other processors, ntos/platform/amd64/cpu/mp.c. `none` is a bug check, a wait without
-- end, or a fault of the frame allocator. What happens outside memory, and each descriptor that an
-- application processor is started with, is an event; the descriptor stands at a fixed address that is
-- kept apart from the frames.
pub mod Start
use algae.Base.{
  ℕ, zero, suc, ◌+◌, ◌-◌, ◌/◌, ◌^◌, Bool, true, false, Option, none, some, List, [], ◌∷◌, ◌++◌, ltb,
  ◌==◌, if◌then◌else◌, ◌>>=◌, ℤ, negsuc, map, length, set,
}
use algae.Status.{status_success}
use algae.Rtl.Str.{c_str}
use algae.Rtl.Memory.{Memory, in_range}
use algae.Mm.Phys.{Frames, mm_alloc_frame}
use algae.Ob.{ObStore}
use algae.Ex.Timer.{Ktimer, ke_timer_msleep, ke_timer_get_descriptor}
use algae.Acpi.{Acpi, acpi_read_madt}
use algae.Ke.Parb.{Cpus}
use algae.Cpu.Lapic.{Mcb, Write, LapicIpi, shand_none, ki_lapic_send_ipi}

abbrev pub ap_max : ℕ
ap_max = 256

abbrev pub trampoline_pbase : ℕ
trampoline_pbase = 0x1000

abbrev pub trampoline_size : ℕ
trampoline_size = 4096

abbrev pub ipi_delmod_init : ℕ
ipi_delmod_init = 5

abbrev pub ipi_delmod_startup : ℕ
ipi_delmod_startup = 6

abbrev pub ipi_destmode_physical : ℕ
ipi_destmode_physical = 0

abbrev pub apic_type_local_apic : ℕ
apic_type_local_apic = 0

-- `AP_BOOTSTRAP`
pub record ApBootstrap : Type 0 where
  pub pml4_pa : ℕ
  pub entry_pa : ℕ
  pub stack_base : ℕ

pub data Event : Type 0 where
  describe : ApBootstrap → Event
  register : Write → Event
  sleep : (ms : ℕ) → Event

-- The frames, what reads of the command register will find, and the events so far.
pub record Starting : Type 0 where
  pub frames : Frames
  pub reads : List ℕ
  pub events : List Event

-- What does not change: the caller's control block, the tables' memory, the caller's `cr3`, the address of
-- `mpApEntry`, and the timer.
pub record Starter : Type 0 where
  pub mcb : Mcb
  pub tables : Memory
  pub cr3 : ℕ
  pub entry : ℕ
  pub timer : Ktimer (List Event)

abbrev pub ipi_to : (apic_id delmod vector : ℕ) → LapicIpi
ipi_to apic_id delmod vector = record {
  delmod = delmod;
  shand = shand_none;
  vector = vector;
  apic_id = apic_id;
  dest_mode = ipi_destmode_physical;
}

-- `kiLapicSendIpi`, and the bug check where it fails.
unfoldable pub send_ipi : Starter → Starting → LapicIpi → Option Starting
send_ipi c s ipi = do
  r ← ki_lapic_send_ipi c.mcb ipi s.reads
  if r.0 == status_success
      then some (record s { reads = r.2; events = s.events ++ map register r.1 })
      else none

-- `keTimerMsleep`; its status is not looked at.
unfoldable pub msleep : Starter → Starting → (ms : ℕ) → Starting
msleep c s ms = record s { events = (ke_timer_msleep c.timer s.events ms).1 }

-- The loop that sends the startup IPI twice.
unfoldable pub send_startups : Starter → Starting → LapicIpi → (rounds : ℕ) → Option Starting
unfolding send_ipi msleep
send_startups c s ipi zero = some s
send_startups c s ipi (suc rounds) = do
  s1 ← send_ipi c s ipi
  send_startups c (msleep c s1 5) ipi rounds

-- The part of `localApicLookup` behind the test for the caller itself.
unfoldable pub start_ap : Starter → Starting → (apic_id : ℕ) → Option Starting
unfolding send_startups send_ipi msleep
start_ap c s apic_id = do
  r ← mm_alloc_frame s.frames 1
  if r.0 == 0 then none else (do
    let s0 = record s {
      frames = r.1;
      events =
          s.events
          ++ describe (record { pml4_pa = c.cr3; entry_pa = c.entry; stack_base = r.0 }) ∷ [];
    }
    s1 ← send_ipi c s0 (ipi_to apic_id ipi_delmod_init 0)
    send_startups c (msleep c s1 10) (ipi_to apic_id ipi_delmod_startup (trampoline_pbase / 2 ^ 12))
        2)

-- `lapic->apicId`
abbrev pub apic_id_at : Memory → (hdr : ℕ) → ℕ
apic_id_at m hdr = m (hdr + 3)

unfoldable pub local_apic_lookup :
    Starter → (arg : ℕ) → Starting → (hdr : ℕ) → Option (ℤ × Starting)
unfolding start_ap
local_apic_lookup c arg s hdr =
    if apic_id_at c.tables hdr == arg
    then some (negsuc 0, s)
    else (do s' ← start_ap c s (apic_id_at c.tables hdr); some (negsuc 0, s'))

abbrev pub aux_path : List ℕ
aux_path = b'/' ∷ b'c' ∷ b'l' ∷ b'k' ∷ b'd' ∷ b'e' ∷ b'v' ∷ b'/' ∷ b'a' ∷ b'u' ∷ b'x' ∷ []

-- The trampoline is copied to its place.
abbrev pub with_trampoline : Frames → (trampoline_data : ℕ → ℕ) → Frames
with_trampoline f trampoline_data = record f {
  memory = λ p.
      if in_range trampoline_pbase trampoline_size p
      then trampoline_data (p - trampoline_pbase)
      else f.memory p;
}

-- `kiMpInit` on the processor `mcb`. `timer_of` gives the timer that stands at an address.
unfoldable pub ki_mp_init :
    (path_fuel fuel : ℕ)
    → ObStore
    → Acpi
    → (mcb : Mcb) → (cr3 entry : ℕ) → (trampoline_data : ℕ → ℕ)
    → (timer_of : ℕ → Ktimer (List Event)) → Starting
    → Option (Acpi × Starting)
unfolding local_apic_lookup
ki_mp_init path_fuel fuel ob acpi mcb cr3 entry trampoline_data timer_of s = do
  t ← ke_timer_get_descriptor path_fuel ob (c_str aux_path [])
  if t.0 == status_success
      then (do
        let c : Starter = record {
          mcb = mcb;
          tables = acpi.memory;
          cr3 = cr3;
          entry = entry;
          timer = timer_of t.1;
        }
        r ←
            acpi_read_madt fuel acpi apic_type_local_apic (some (local_apic_lookup c mcb.hw_id))
              (record s { frames = with_trampoline s.frames trampoline_data })
        some (r.1, r.2))
      else none

-- `mpApEntry`, as far as the list of processors goes; `kpcr` is what the pool gives.
unfoldable pub mp_ap_entry : (kpcr : ℕ) → Cpus → Option Cpus
mp_ap_entry kpcr c =
    if kpcr == 0
    then none
    else if ltb (c.n_ap + 1) ap_max
    then some (record c { ap_list = set c.ap_list c.n_ap kpcr; n_ap = c.n_ap + 1 })
    else none

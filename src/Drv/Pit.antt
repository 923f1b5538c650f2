-- ===== src/Drv/Pit.antt =====
-- The i8254 timer: ntos/platform/amd64/isa/i8254.c. A write is a port and a byte.
pub mod Frequency
use algae.Base.{
  ℕ, ◌+◌, ◌*◌, ◌/◌, ◌%◌, ◌^◌, Bool, true, false, Option, none, some, List, [], ◌∷◌, ltb, ◌==◌,
  if◌then◌else◌, ◌>>=◌, u16,
}
use algae.Status.{status_success}
use algae.Ob.{ObStore}
use algae.Drv.Clkdev.{register_timer}

abbrev pub i8254_command : ℕ
i8254_command = 0x43

abbrev pub i8254_channel_0 : ℕ
i8254_channel_0 = 0x40

abbrev pub i8254_dividend : ℕ
i8254_dividend = 1193182

-- `pitGetCount`: the bytes that the channel gives are `lo` and `hi`.
unfoldable pub pit_get_count : (lo hi : ℕ) → ℕ × List (ℕ × ℕ)
pit_get_count lo hi = (lo + hi * 2 ^ 8, (i8254_command, 0x00) ∷ [])

unfoldable pub pit_set_count : (count : ℕ) → List (ℕ × ℕ)
pit_set_count count =
    (i8254_command, 0x34)
    ∷ (i8254_channel_0, count % 2 ^ 8)
    ∷ (i8254_channel_0, count / 2 ^ 8 % 2 ^ 8)
    ∷ []

-- A frequency of 0 is a division by zero.
unfoldable pub pit_set_frequency : (frequency_hz : ℕ) → Option (List (ℕ × ℕ))
unfolding pit_set_count
pit_set_frequency frequency_hz =
    let divisor = i8254_dividend / frequency_hz in
    let divisor' =
      if ltb (frequency_hz / 2) (i8254_dividend % frequency_hz) then divisor + 1 else divisor in
    if frequency_hz == 0 then none else some (pit_set_count (u16 divisor'))

abbrev pub isa_aux_name : List ℕ
isa_aux_name = b'i' ∷ b's' ∷ b'a' ∷ b'-' ∷ b'a' ∷ b'u' ∷ b'x' ∷ []

-- `pitInit`, with the static `isInit`; `timer` is the address of the driver's descriptor.
unfoldable pub pit_init :
    (is_init : Bool) → ObStore → (fresh timer : ℕ) → Option (ℕ × Bool × ObStore)
pit_init is_init s fresh timer = elim is_init [
  | true ↦ some (status_success, true, s)
  | false ↦ do r ← register_timer s fresh isa_aux_name timer; some (r.0, r.0 == status_success, r.1)
]

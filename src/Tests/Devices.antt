-- ===== src/Tests/Devices.antt =====
-- The letter with the number 1 of a font with two lines, in a framebuffer of 16 columns.
use algae.Base.{
  ℕ, ◌+◌, ◌*◌, ◌/◌, ◌^◌, ◌<◌, ◌≤◌, ◌≡◌, refl, some, [], ◌∷◌, All, arith, ◌==◌, if◌then◌else◌,
}
use algae.Status.{status_success}
use algae.Rtl.Memory.{Memory}
use algae.Drv.Pit.{pit_set_frequency}
use algae.Drv.Pit.Frequency.{IsNearest, pit_set_frequency-IsNearest}
use algae.Drv.Hpet.{Hpet, hpet_msleep}
use algae.Drv.Hpet.Waits.{msec, hpet_msleep_lem}
use algae.Drv.BootVid.{FbParams, BootvidChar, ch_size, glyph_at, boot_vid_draw_ch}
use algae.Drv.BootVid.Pixels.{in_cell, cell_color, boot_vid_draw_ch-cell}

abbrev font : Memory
font p = if p == 3 then 2 else if p == 6 then 0b10011000 else if p == 7 then 0b01100110 else 0

font-bytes : (p : ℕ) → font p < 256
font-bytes p = ground arith

abbrev screen : FbParams
screen = record { width = 16; height = 16; pitch = 64 }

abbrev letter : BootvidChar
letter = record { x = 4; y = 3; fg = 7; bg = 0; ch = 1 }

boot_vid_draw_ch-cell_example :
    boot_vid_draw_ch font 0 screen letter (λ _. 9) (6 + 4 * (64 / 4)) ≡ (
      if in_cell letter (ch_size font 0) 6 4
      then cell_color font (glyph_at font 0 1) letter 6 4
      else 9)
boot_vid_draw_ch-cell_example =
    boot_vid_draw_ch-cell font 0 screen letter 6 4 (λ _. 9) (omega arith) (omega arith)
      (omega arith) (omega arith) font-bytes

pit_set_frequency-IsNearest_example :
    (lo hi : ℕ) × (pit_set_frequency 1000 ≡ some ((0x43, 0x34) ∷ (0x40, lo) ∷ (0x40, hi) ∷ []))
    × IsNearest 1000 lo hi
pit_set_frequency-IsNearest_example = pit_set_frequency-IsNearest 1000 (omega arith)

-- A clock of 10 MHz.
abbrev clock : Hpet
clock = record {
  caps = 100000000 * 2 ^ 32 + 1;
  counter = 50 ∷ 9000 ∷ 10050 ∷ 10060 ∷ [];
  writes = [];
}

hpet_msleep_lem_example :
    (hpet_msleep clock 1 ≡ some (status_success, record clock { counter = 10060 ∷ [] }))
    × (50 * 100000000 + 1 * msec ≤ 10050 * 100000000 + 1 * 100000000)
    × All (λ x. x * 100000000 < 50 * 100000000 + 1 * msec) (9000 ∷ [])
hpet_msleep_lem_example =
    hpet_msleep_lem clock 1 50 10050 (9000 ∷ []) (10060 ∷ []) refl (omega arith) (omega arith)
      (omega arith, tt) (omega arith)

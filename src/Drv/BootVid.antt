-- ===== src/Drv/BootVid.antt =====
-- The boot video driver, ntos/drv/bootvid/vidCore.c. The framebuffer is the colour at each index, and the
-- font the bytes that stand from the address `font` on. Where `fbParams` is needed it is an argument, as
-- the boot loader gives it.
pub mod Pixels
pub mod Framebuffer
use algae.Base.{
  ℕ, zero, suc, ◌+◌, ◌-◌, ◌*◌, ◌/◌, ◌%◌, ◌^◌, Bool, true, false, Option, none, some, List, [], ◌∷◌,
  ltb, ◌==◌, if◌then◌else◌, ◌>>=◌, ℤ, pos, u32, u64,
}
use algae.Rtl.Memory.{Memory, poke}
use algae.Rtl.Str.{rtl_strlen}

abbrev pub font_hdrlen : ℕ
font_hdrlen = 4

abbrev pub font_width : ℕ
font_width = 8

abbrev pub font_height : ℕ
font_height = 20

-- `BOOTVID_CHAR`; `ch` is the byte of a signed char.
pub record BootvidChar : Type 0 where
  pub x : ℕ
  pub y : ℕ
  pub fg : ℕ
  pub bg : ℕ
  pub ch : ℕ

-- `struct fbParams`, without its `io`.
pub record FbParams : Type 0 where
  pub width : ℕ
  pub height : ℕ
  pub pitch : ℕ

abbrev pub FrameBuffer : Type 0
FrameBuffer = ℕ → ℕ

abbrev pub fb_get_idx : (pitch x y : ℕ) → ℕ
fb_get_idx pitch x y = u32 (x + u32 (y * (pitch / 4)))

-- `font->chSize`
abbrev pub ch_size : Memory → (font : ℕ) → ℕ
ch_size m font = m (font + 3)

-- `PTR_OFFSET(font, FONT_HDRLEN + chp->ch * font->chSize)`
abbrev pub glyph_at : Memory → (font ch : ℕ) → ℕ
glyph_at m font ch = u64 (
    font
    + u64 (
        font_hdrlen
        + (if ltb ch 128 then ch * ch_size m font else 2 ^ 64 - (256 - ch) * ch_size m font)))

-- `ISSET(glyph[cy], BIT(8 - cx)) ? chp->fg : chp->bg`
abbrev pub color_of : (row cx fg bg : ℕ) → ℕ
color_of row cx fg bg = if row / 2 ^ (8 - cx) % 2 == 1 then fg else bg

-- The loop over the columns from `cx` on, for the glyph's byte `row` at the line `y`.
unfoldable pub draw_cols :
    (pitch : ℕ) → BootvidChar → (row y cx rounds : ℕ) → FrameBuffer → FrameBuffer
draw_cols pitch chp row y cx zero fb = fb
draw_cols pitch chp row y cx (suc rounds) fb =
    draw_cols pitch chp row y (cx + 1) rounds
      (poke fb (fb_get_idx pitch (u32 (chp.x + cx)) y) (color_of row cx chp.fg chp.bg))

-- The loop over the lines from `cy` on.
unfoldable pub draw_rows :
    Memory → (glyph pitch : ℕ) → BootvidChar → (cy rounds : ℕ) → FrameBuffer → FrameBuffer
unfolding draw_cols
draw_rows m glyph pitch chp cy zero fb = fb
draw_rows m glyph pitch chp cy (suc rounds) fb =
    draw_rows m glyph pitch chp (cy + 1) rounds
      (draw_cols pitch chp (m (glyph + cy)) (u32 (chp.y + cy)) 0 8 fb)

-- `bootVidDrawCh` of a character that is not null; it returns 0.
unfoldable pub boot_vid_draw_ch :
    Memory → (font : ℕ) → FbParams → BootvidChar → FrameBuffer → FrameBuffer
unfolding draw_rows
boot_vid_draw_ch m font params chp fb =
    draw_rows m (glyph_at m font chp.ch) params.pitch chp 0 (ch_size m font) fb

-- The loop of `bootVidPrint` over the `rounds` bytes that are left; the left edge is `x`.
unfoldable pub print_loop :
    Memory
    → (font : ℕ) → FbParams
    → (x : ℕ) → (str : List ℕ) → (rounds : ℕ) → BootvidChar
    → FrameBuffer
    → Option FrameBuffer
unfolding boot_vid_draw_ch
print_loop m font params x str zero at fb = some fb
print_loop m font params x [] (suc rounds) at fb = none
print_loop m font params x (c ∷ str) (suc rounds) at fb = elim (c == 10) [
  | true ↦
      print_loop m font params x str rounds
        (record at { ch = c; y = u32 (at.y + font_height); x = x }) fb
  | false ↦
      print_loop m font params x str rounds (record at { ch = c; x = u32 (at.x + font_width) })
        (boot_vid_draw_ch m font params (record at { ch = c }) fb)
]

-- `bootVidPrint` of a string that is not null; it returns 0. `none` is a string without an end.
unfoldable pub boot_vid_print :
    Memory
    → (font : ℕ) → FbParams
    → (x y fg bg : ℕ) → (str : List ℕ) → FrameBuffer
    → Option FrameBuffer
unfolding print_loop
boot_vid_print m font params x y fg bg str fb = do
  str_len ← rtl_strlen str
  print_loop m font params x str (u32 str_len) (record { x = x; y = y; fg = fg; bg = bg; ch = 0 })
      fb

-- The loop of `bootVidClear`.
unfoldable pub clear_loop : (rgb i rounds : ℕ) → FrameBuffer → FrameBuffer
clear_loop rgb i zero fb = fb
clear_loop rgb i (suc rounds) fb = clear_loop rgb (i + 1) rounds (poke fb i rgb)

unfoldable pub boot_vid_clear : FbParams → (rgb : ℕ) → FrameBuffer → FrameBuffer
unfolding clear_loop
boot_vid_clear params rgb fb = clear_loop rgb 0 (u32 (params.height * params.pitch) / 4) fb

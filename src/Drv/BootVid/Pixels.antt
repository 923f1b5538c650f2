-- ===== src/Drv/BootVid/Pixels.antt =====
-- The pixels that `bootVidDrawCh` sets.
use algae.Base.{
  ℕ, zero, suc, ◌+◌, ◌-◌, ◌*◌, ◌/◌, ◌^◌, ◌≤◌, ◌<◌, ◌≡◌, ◌≢◌, refl, sym, ap, ◌∙◌, ◌%◌, Bool, true,
  Option, none, some, arith, ltb, leb, ◌==◌, ◌&&◌, if◌then◌else◌, u32, ◌⊎◌, inl, inr,
}
use native.Mathlib.Nat.{mul-le-mul_right}
use algae.Rtl.Memory.{Memory, poke}
use algae.Drv.BootVid.{
  BootvidChar, FbParams, FrameBuffer, fb_get_idx, color_of, ch_size, glyph_at, draw_cols, draw_rows,
  boot_vid_draw_ch,
}

lt_eq_gt : (a b : ℕ) → (a < b) ⊎ ((a ≡ b) ⊎ (b < a))
lt_eq_gt a b = ground arith

eq_or_ne : (a b : ℕ) → (a ≡ b) ⊎ (a ≢ b)
eq_or_ne a b = ground arith

offset_of : (b cx q : ℕ) → b + cx ≡ q → q - b ≡ cx
offset_of b cx q e = omega (arith, e)

-- One more index in front of a stretch.
stretch_step :
    (f : ℕ → ℕ) (b cx hi q v : ℕ)
    → b + cx < hi
    → (if leb (b + (cx + 1)) q && ltb q hi then f (q - b) else (if b + cx == q then f cx else v))
      ≡ (if leb (b + cx) q && ltb q hi then f (q - b) else v)
stretch_step f b cx hi q v h = elim (eq_or_ne (b + cx) q) [
  | inl e ↦ ground (arith, h, e, ap f (offset_of b cx q e))
  | inr ne ↦ ground (arith, h, ne)
]

module _ (pitch : ℕ) (chp : BootvidChar) (row y l : ℕ) (line : y * (pitch / 4) ≡ l) where
  index_lem :
      (cx : ℕ) → chp.x + l + cx < 2 ^ 32 → fb_get_idx pitch (u32 (chp.x + cx)) y ≡ chp.x + l + cx
  index_lem cx h = rw line (omega (arith, h))

  -- The loop over the columns sets one stretch of the line.
  draw_cols_lem :
      (rounds cx hi : ℕ) (fb : FrameBuffer) (q : ℕ)
      → chp.x + l + cx + rounds ≡ hi
      → hi ≤ 2 ^ 32
      → draw_cols pitch chp row y cx rounds fb q ≡ (
          if leb (chp.x + l + cx) q && ltb q hi
          then color_of row (q - (chp.x + l)) chp.fg chp.bg
          else fb q)
  unfolding draw_cols
  draw_cols_lem zero cx hi fb q e h = ground (arith, e)
  draw_cols_lem (suc rounds) cx hi fb q e h =
      draw_cols_lem rounds (cx + 1) hi
        (poke fb (fb_get_idx pitch (u32 (chp.x + cx)) y) (color_of row cx chp.fg chp.bg)) q
        (omega (arith, e)) h
      ∙ rw (index_lem cx (omega (arith, e, h))) (
          stretch_step (λ k. color_of row k chp.fg chp.bg) (chp.x + l) cx hi q (fb q)
            (omega (arith, e)))

line_below : (a b s : ℕ) → a < b → a * s + s ≤ b * s
line_below a b s h = omega (arith, mul-le-mul_right s h)

-- The pixel `px`, `py` stands in the stretch of the line `ln` if and only if it is on that line and in the columns.
line_test :
    (x s ln px py : ℕ)
    → x + 8 ≤ s
    → px < s
    → (leb (x + ln * s + 0) (px + py * s) && ltb (px + py * s) (x + ln * s + 8))
      ≡ ((leb x px && ltb px (x + 8)) && (ln == py))
line_test x s ln px py fits inside = elim (lt_eq_gt ln py) [
  | inl lt ↦ ground (arith, fits, inside, lt, line_below ln py s lt)
  | inr (inl e) ↦ rw (sym e) (ground arith)
  | inr (inr gt) ↦ ground (arith, fits, inside, gt, line_below py ln s gt)
]

-- One more line above the lines.
line_step :
    (f : ℕ → ℕ) (inside : Bool) (y cy hi py v w : ℕ)
    → y + cy < hi
    → (y + cy ≡ py → w ≡ f cy)
    → (if inside && (leb (y + (cy + 1)) py && ltb py hi)
        then f (py - y)
        else (if inside && (y + cy == py) then w else v))
      ≡ (if inside && (leb (y + cy) py && ltb py hi) then f (py - y) else v)
line_step f inside y cy hi py v w h same = elim (eq_or_ne (y + cy) py) [
  | inl e ↦ ground (arith, h, e, ap f (offset_of y cy py e), same e)
  | inr ne ↦ ground (arith, h, ne)
]

-- The bit of a glyph's byte for each column of the cell: none for the first column, then from the highest
-- bit, 128, down to 2. The lowest bit of the byte is for no column.
abbrev pub column_bit : (column : ℕ) → Option ℕ
column_bit column =
    if column == 1
    then some 128
    else if column == 2
    then some 64
    else if column == 3
    then some 32
    else if column == 4
    then some 16
    else if column == 5
    then some 8
    else if column == 6
    then some 4
    else if column == 7
    then some 2
    else none

-- The foreground where the byte has the bit, and else the background.
abbrev pub lit_by : (row : ℕ) → Option ℕ → (fg bg : ℕ) → ℕ
lit_by row bit fg bg = elim bit [ none ↦ bg | some b ↦ if row / b % 2 == 1 then fg else bg ]

-- The colour of the cell's pixel in the column `px` and the line `py`.
abbrev pub cell_color : Memory → (glyph : ℕ) → BootvidChar → (px py : ℕ) → ℕ
cell_color m glyph chp px py =
    lit_by (m (glyph + (py - chp.y))) (column_bit (px - chp.x)) chp.fg chp.bg

drawn_color : Memory → (glyph : ℕ) → BootvidChar → (px py : ℕ) → ℕ
drawn_color m glyph chp px py = color_of (m (glyph + (py - chp.y))) (px - chp.x) chp.fg chp.bg

color_of_lem :
    (row cx fg bg : ℕ)
    → row < 256
    → cx < 8
    → color_of row cx fg bg ≡ lit_by row (column_bit cx) fg bg
color_of_lem row zero fg bg byte h = ground (arith, byte)
color_of_lem row (suc zero) fg bg byte h = refl
color_of_lem row (suc (suc zero)) fg bg byte h = refl
color_of_lem row (suc (suc (suc zero))) fg bg byte h = refl
color_of_lem row (suc (suc (suc (suc zero)))) fg bg byte h = refl
color_of_lem row (suc (suc (suc (suc (suc zero))))) fg bg byte h = refl
color_of_lem row (suc (suc (suc (suc (suc (suc zero)))))) fg bg byte h = refl
color_of_lem row (suc (suc (suc (suc (suc (suc (suc zero))))))) fg bg byte h = refl
color_of_lem row (suc (suc (suc (suc (suc (suc (suc (suc cx)))))))) fg bg byte h =
    absurd (omega (arith, h))

-- The cell of eight columns and `lines` lines.
abbrev pub in_cell : BootvidChar → (lines px py : ℕ) → Bool
in_cell chp lines px py =
    (leb chp.x px && ltb px (chp.x + 8)) && (leb chp.y py && ltb py (chp.y + lines))

module _ (m : Memory) (glyph pitch : ℕ) (chp : BootvidChar) (px py : ℕ)
    (fits : chp.x + 8 ≤ pitch / 4) (inside : px < pitch / 4) where
  abbrev stride : ℕ
  stride = pitch / 4

  abbrev columns : Bool
  columns = leb chp.x px && ltb px (chp.x + 8)

  column_of : (ln : ℕ) → ln ≡ py → px + py * stride - (chp.x + ln * stride) ≡ px - chp.x
  column_of ln e = rw e (omega arith)

  -- One line.
  line_lem :
      (ln row : ℕ) (fb : FrameBuffer)
      → chp.x + ln * stride + 8 ≤ 2 ^ 32
      → draw_cols pitch chp row ln 0 8 fb (px + py * stride) ≡ (
          if columns && (ln == py)
          then color_of row (px + py * stride - (chp.x + ln * stride)) chp.fg chp.bg
          else fb (px + py * stride))
  line_lem ln row fb h =
      draw_cols_lem pitch chp row ln (ln * stride) refl 8 0 (chp.x + ln * stride + 8) fb
        (px + py * stride) (omega arith) h
      ∙ ap
          (λ b.
            if b
            then color_of row (px + py * stride - (chp.x + ln * stride)) chp.fg chp.bg
            else fb (px + py * stride))
          (line_test chp.x stride ln px py fits inside)

  rows_lem :
      (rounds cy hi : ℕ) (fb : FrameBuffer)
      → chp.y + cy + rounds ≡ hi
      → hi * stride ≤ 2 ^ 32
      → hi ≤ 2 ^ 32
      → draw_rows m glyph pitch chp cy rounds fb (px + py * stride) ≡ (
          if columns && (leb (chp.y + cy) py && ltb py hi)
          then drawn_color m glyph chp px py
          else fb (px + py * stride))
  unfolding draw_rows drawn_color
  rows_lem zero cy hi fb e big lines = ground (arith, e)
  rows_lem (suc rounds) cy hi fb e big lines =
      let ln : u32 (chp.y + cy) ≡ chp.y + cy = omega (arith, e, lines) in
      rows_lem rounds (cy + 1) hi (draw_cols pitch chp (m (glyph + cy)) (u32 (chp.y + cy)) 0 8 fb)
        (omega (arith, e)) big lines
      ∙ rw ln rw
          (line_lem (chp.y + cy) (m (glyph + cy)) fb
            (omega (arith, line_below (chp.y + cy) hi stride (omega (arith, e)), fits, big)))
          (line_step (λ k. color_of (m (glyph + k)) (px - chp.x) chp.fg chp.bg) columns chp.y cy hi
            py (fb (px + py * stride)) _ (omega (arith, e))
            (λ at. ap (λ k. color_of (m (glyph + cy)) k chp.fg chp.bg) (column_of (chp.y + cy) at)))

if_same :
    (b b' : Bool) (u v w : ℕ)
    → b ≡ b'
    → (b ≡ true → u ≡ v)
    → (if b then u else w) ≡ (if b' then v else w)
if_same b b' u v w e h = ground (arith, e, h)

cell_lem :
    (m : Memory) (glyph : ℕ) (chp : BootvidChar) (lines px py other : ℕ)
    → ((p : ℕ) → m p < 256)
    → (if (leb chp.x px && ltb px (chp.x + 8)) && (leb (chp.y + 0) py && ltb py (chp.y + lines))
        then drawn_color m glyph chp px py
        else other)
      ≡ (if in_cell chp lines px py then cell_color m glyph chp px py else other)
unfolding drawn_color
cell_lem m glyph chp lines px py other bytes =
    if_same ((leb chp.x px && ltb px (chp.x + 8)) && (leb (chp.y + 0) py && ltb py (chp.y + lines)))
      (in_cell chp lines px py) _ _ other (ground arith)
      (λ e.
        color_of_lem (m (glyph + (py - chp.y))) (px - chp.x) chp.fg chp.bg
          (bytes (glyph + (py - chp.y))) (ground (arith, e)))

-- For bytes in memory, and a cell whose columns lie inside a line of the framebuffer, and whose lines end below 2 ^ 32 in
-- number and in the index that they reach, `bootVidDrawCh` sets the pixels of the cell alone: the pixel in
-- the cell's first column, column 0, is always of the background; the one in column 1 of line `cy` gets the
-- foreground where the highest bit of the glyph's byte `cy` is set, and so on down to column 7 and the bit
-- of value 2, so that the byte's lowest bit is never shown. Every pixel outside the cell stays.
pub boot_vid_draw_ch-cell :
    (m : Memory) (font : ℕ) (params : FbParams) (chp : BootvidChar) (px py : ℕ) (fb : FrameBuffer)
    → chp.x + 8 ≤ params.pitch / 4
    → px < params.pitch / 4
    → (chp.y + ch_size m font) * (params.pitch / 4) ≤ 2 ^ 32
    → chp.y + ch_size m font ≤ 2 ^ 32
    → ((p : ℕ) → m p < 256)
    → boot_vid_draw_ch m font params chp fb (px + py * (params.pitch / 4)) ≡ (
        if in_cell chp (ch_size m font) px py
        then cell_color m (glyph_at m font chp.ch) chp px py
        else fb (px + py * (params.pitch / 4)))
unfolding boot_vid_draw_ch
boot_vid_draw_ch-cell m font params chp px py fb fits inside big lines bytes =
    rows_lem m (glyph_at m font chp.ch) params.pitch chp px py fits inside (ch_size m font) 0
      (chp.y + ch_size m font) fb (omega arith) big lines
    ∙ cell_lem m (glyph_at m font chp.ch) chp (ch_size m font) px py
        (fb (px + py * (params.pitch / 4))) bytes

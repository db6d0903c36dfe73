-- ===== src/Translate/Render.antt =====
-- The self-rendering of a static text with its fit to the Japanese width (`self_render_static` of
-- src/main/diagnostics.cpp).
use pocket_monsters_stadium.Prelude.{
  ℕ, zero, suc, ◌+◌, ◌-◌, ◌*◌, ◌/◌, ◌%◌, ◌^◌, Bool, true, not, ◌&&◌, [], ◌∷◌, Option, none, some,
  ltb, leb, ◌==◌, if◌then◌else◌, Bytes,
}
use pocket_monsters_stadium.Prelude.Int.{ℤ, pos, negsuc}
use pocket_monsters_stadium.Libc.{atoi}
use pocket_monsters_stadium.Memory.{Rdram, rdram_range, guest_rb, read_u32, store_byte, physical}
use pocket_monsters_stadium.Translate.Context.{Context, Outside}
use pocket_monsters_stadium.Translate.Glyph.{SlotMetrics, Metrics, glyph_width_pct, calibrate_slot}

-- kMaxLines
abbrev pub max_lines : ℕ
max_lines = 24

abbrev pub gap_value : ℤ → ℕ
gap_value (pos v) = if leb v 16 then v else 1
gap_value (negsuc n) = 1

-- The environment's PMS_XLATE_GAP, 1 unless it is a number from 0 to 16.
unfoldable pub gap_of : Option Bytes → ℕ
gap_of none = 1
gap_of (some e) = gap_value (atoi e)

-- PMS_XLATE_FIT: on unless it begins with '0'.
unfoldable pub fit_on_of : Option Bytes → Bool
fit_on_of none = true
fit_on_of (some []) = true
fit_on_of (some (c ∷ cs)) = not (c == b'0')

-- The font state: line height, current slot and the slot's advance.
pub record FontState : Type 0 where
  pub line_h : ℕ
  pub slot : ℕ
  pub slot_adv : ℕ

unfoldable pub font_state : Rdram → ℕ → FontState
font_state rdram st =
    let slot = guest_rb rdram ((st + 0x38) % 2 ^ 32) in
    let line_h = guest_rb rdram ((st + 0x3A) % 2 ^ 32) in
    if rdram_range st 0x40
    then record {
      line_h = if line_h == 0 then 16 else line_h;
      slot = slot;
      slot_adv = guest_rb rdram ((st + slot * 8) % 2 ^ 32);
    }
    else record { line_h = 16; slot = 0; slot_adv = 12 }

unfoldable pub adv_for : SlotMetrics → ℕ → ℕ → ℕ → ℕ
unfolding glyph_width_pct
adv_for m slot_adv gap c =
    let a =
      if m.ready && m.proportional && leb 0x20 c && leb c 0x7E
      then m.adv (c - 0x20) + gap
      else if m.ready
      then m.mono
      else slot_adv * glyph_width_pct c / 100 + gap in
    if ltb a 3 then 3 else a

-- The width of each line so far, and the line.
abbrev pub Widths : Type 0
Widths = (ℕ → ℕ) × ℕ

abbrev pub next_line : ℕ → ℕ
next_line line = if ltb line (max_lines - 1) then line + 1 else line

abbrev pub widen : Widths → ℕ → Widths
widen (w, line) a = ((λ l. if l == line then w l + a else w l), line)

unfoldable pub english_widths : (ℕ → ℕ) → Bytes → Widths → Widths
english_widths adv [] w = w
english_widths adv (c ∷ cs) w =
    english_widths adv cs (if c == 10 then (w.0, next_line w.1) else widen w (adv c))

-- A byte from 0x80 on takes the next one with it.
unfoldable pub japanese_widths : ℕ → Bytes → Widths → Widths
japanese_widths slot_adv [] w = w
japanese_widths slot_adv (c ∷ []) w = if c == 10 then (w.0, next_line w.1) else widen w slot_adv
japanese_widths slot_adv (c ∷ d ∷ cs) w =
    let line = japanese_widths slot_adv (d ∷ cs) (w.0, next_line w.1) in
    let wide = japanese_widths slot_adv cs (widen w slot_adv) in
    let single = japanese_widths slot_adv (d ∷ cs) (widen w slot_adv) in
    if c == 10 then line else if leb 0x80 c then wide else single

unfoldable pub sum_below : (ℕ → ℕ) → ℕ → ℕ
sum_below w zero = 0
sum_below w (suc n) = sum_below w n + w n

abbrev pub no_widths : Widths
no_widths = ((λ l. 0), 0)

module _ (out : Outside) where
  -- The scale of a line whose text is `en` wide in a budget of `bud`.
  abbrev pub fit_line : ℕ → ℕ → out.Scale
  fit_line en bud = if ltb bud en && ltb 0 en then out.ratio bud en else out.one

  unfoldable pub japanese_scale : Widths → Widths → ℕ → out.Scale
  unfolding sum_below
  japanese_scale (en_w, en_line) (jp_w, jp_line) l =
      let et = sum_below en_w max_lines in
      let jt = sum_below jp_w max_lines in
      if en_line == jp_line
      then if ltb l (en_line + 1) && ltb l max_lines then fit_line (en_w l) (jp_w l) else out.one
      else fit_line et jt

  -- `line_scale[l]`; the budget is -1 for the Japanese width.
  unfoldable pub line_scale : Bool → ℕ → (ℕ → ℕ) → Bytes → Bytes → ℤ → ℕ → out.Scale
  unfolding english_widths japanese_widths japanese_scale
  line_scale fit_on slot_adv adv src eng (pos budget) l =
      let en = english_widths adv eng no_widths in
      let bud = budget * slot_adv in
      if fit_on && ltb 0 slot_adv && ltb 0 bud && ltb l (en.1 + 1) && ltb l max_lines
      then fit_line (en.0 l) bud
      else out.one
  line_scale fit_on slot_adv adv src eng (negsuc n) l =
      if fit_on && ltb 0 slot_adv
      then japanese_scale (english_widths adv eng no_widths)
          (japanese_widths slot_adv src no_widths) l
      else out.one

  -- The advance of a drawn glyph on a line of the given scale.
  unfoldable pub scaled : ℕ → out.Scale → ℕ
  scaled adv sc =
      let a = out.condense adv sc in if out.condenses sc then if ltb a 3 then 3 else a else adv

  -- The loop over the text: `x` and `y` are words, sign-extended from 16 bits at the start.
  unfoldable pub draw_loop :
      Context → (ℕ → ℕ) → (ℕ → out.Scale) → ℕ → ℕ → Bytes → Rdram → ℕ → ℕ → ℕ → Rdram
  unfolding scaled
  draw_loop ctx adv scale line_h x0 [] rdram x y line = rdram
  draw_loop ctx adv scale line_h x0 (c ∷ cs) rdram x y line =
      let g = record ctx { r4 = x; r5 = y; r6 = c } in
      let newline =
        draw_loop ctx adv scale line_h x0 cs rdram x0 ((y + line_h) % 2 ^ 32) (next_line line) in
      let drawn =
        draw_loop ctx adv scale line_h x0 cs (out.draw_glyph rdram g).0
          ((x + scaled (adv c) (scale line)) % 2 ^ 32) y line in
      if c == 10 then newline else drawn

  -- `(int)(int16_t)(uint16_t)r` as a word.
  abbrev pub sext16 : ℕ → ℕ
  sext16 r = if ltb (r % 2 ^ 16) (2 ^ 15) then r % 2 ^ 16 else r % 2 ^ 16 + (2 ^ 32 - 2 ^ 16)

  -- The caller's own draw is suppressed by an empty text at `scratch`.
  unfoldable pub suppress : ℕ → Rdram → Context → Rdram × Context
  suppress scratch rdram ctx =
      if rdram_range scratch 1
      then (store_byte rdram (physical scratch) 0, record ctx { r6 = scratch })
      else (rdram, ctx)

  -- `gap` and `fit_on` are the environment's settings.
  unfoldable pub self_render_static :
      ℕ → Bool → Rdram → Context → Bytes → Bytes → ℕ → ℤ → Metrics → Metrics × Rdram × Context
  unfolding font_state adv_for line_scale draw_loop suppress
  self_render_static gap fit_on rdram ctx src eng scratch budget ms =
      let st = read_u32 rdram 0x800AD200 in
      let f = font_state rdram st in
      let (r1, ms') = calibrate_slot out rdram ctx st f.slot f.slot_adv ms in
      let adv = adv_for (ms' (if ltb f.slot 8 then f.slot else 0)) f.slot_adv gap in
      let scale = line_scale fit_on f.slot_adv adv src eng budget in
      let x0 = sext16 ctx.r4 in
      let r2 = draw_loop ctx adv scale f.line_h x0 eng r1 x0 (sext16 ctx.r5) 0 in
      let (r3, ctx') = suppress scratch r2 ctx in (ms', r3, ctx')

-- ===== src/Translate/Glyph.antt =====
-- The widths of glyphs (`glyph_width_pct`, `measure_glyph`, `calibrate_slot` of
-- src/main/diagnostics.cpp).
use pocket_monsters_stadium.Prelude.{
  ℕ, zero, suc, ◌+◌, ◌-◌, ◌*◌, ◌/◌, ◌%◌, ◌^◌, Bool, true, false, not, ◌&&◌, ◌||◌, List, [], ◌∷◌,
  Option, none, some, ltb, leb, ◌==◌, if◌then◌else◌, get_or,
}
use pocket_monsters_stadium.Memory.{Rdram, rdram_range, guest_rb, read_u32}
use pocket_monsters_stadium.Translate.Context.{Context, Outside, word}

abbrev pub pct : List ℕ
pct =
    50 ∷ 30 ∷ 42 ∷ 72 ∷ 62 ∷ 86 ∷ 82 ∷ 26 ∷ 40 ∷ 40 ∷ 52 ∷ 66 ∷ 30 ∷ 52 ∷ 30 ∷ 46 ∷ 62 ∷ 62 ∷ 62
    ∷ 62 ∷ 62 ∷ 62 ∷ 62 ∷ 62 ∷ 62 ∷ 62 ∷ 30 ∷ 30 ∷ 66 ∷ 66 ∷ 66 ∷ 55 ∷ 90 ∷ 70 ∷ 70 ∷ 72 ∷ 76 ∷ 66
    ∷ 62 ∷ 78 ∷ 78 ∷ 34 ∷ 50 ∷ 72 ∷ 60 ∷ 92 ∷ 80 ∷ 80 ∷ 68 ∷ 80 ∷ 72 ∷ 66 ∷ 62 ∷ 78 ∷ 70 ∷ 96 ∷ 72
    ∷ 68 ∷ 64 ∷ 40 ∷ 46 ∷ 40 ∷ 55 ∷ 60 ∷ 34 ∷ 60 ∷ 62 ∷ 54 ∷ 62 ∷ 60 ∷ 40 ∷ 62 ∷ 62 ∷ 28 ∷ 34 ∷ 58
    ∷ 28 ∷ 92 ∷ 62 ∷ 62 ∷ 62 ∷ 62 ∷ 46 ∷ 52 ∷ 42 ∷ 62 ∷ 58 ∷ 88 ∷ 58 ∷ 58 ∷ 52 ∷ 46 ∷ 26 ∷ 46 ∷ 60
    ∷ []

unfoldable pub glyph_width_pct : ℕ → ℕ
glyph_width_pct c = if ltb c 0x20 || ltb 0x7E c then 60 else get_or pct (c - 0x20) 0

-- SlotMetrics; `adv` is the array of 95 advances.
pub record SlotMetrics : Type 0 where
  pub ready : Bool
  pub proportional : Bool
  pub adv : ℕ → ℕ
  pub mono : ℕ

-- Eight of them: g_slotm.
abbrev pub Metrics : Type 0
Metrics = ℕ → SlotMetrics

abbrev pub uncalibrated : SlotMetrics
uncalibrated = record { ready = false; proportional = false; adv = λ i. 0; mono = 8 }

-- Whether column `c` has ink in the rows from `y` on, with `n` rows to go.
unfoldable pub column_inked : Rdram → ℕ → ℕ → ℕ → ℕ → ℕ → Bool
column_inked rdram tile w c y zero = false
column_inked rdram tile w c y (suc n) =
    not (guest_rb rdram ((tile + y * w + c) % 2 ^ 32) == 0) || column_inked rdram tile w c (y + 1) n

-- The columns below `n`, from the right.
unfoldable pub ink_edge : Rdram → ℕ → ℕ → ℕ → ℕ → ℕ
unfolding column_inked
ink_edge rdram tile w h zero = 0
ink_edge rdram tile w h (suc c) =
    let rest = ink_edge rdram tile w h c in if column_inked rdram tile w c 0 h then suc c else rest

-- `if (iw <= 0) iw = …`
abbrev pub inked : ℕ → Option ℕ → ℕ
inked guess none = guess
inked guess (some zero) = guess
inked guess (some (suc n)) = suc n

-- The advance of a glyph from its measured ink, `c` counted from the space.
unfoldable pub advance : ℕ → ℕ → Option ℕ → ℕ
unfolding glyph_width_pct
advance w c ink =
    let guess = if c == 0 then w / 3 else w * glyph_width_pct (0x20 + c) / 100 in
    let iw = inked guess ink + 1 in if ltb iw 2 then 2 else if ltb 63 iw then 63 else iw

module _ (out : Outside) where
  -- The right edge of the ink, 0 for a blank glyph; `none` is -1.
  unfoldable pub measure_glyph : Rdram → Context → ℕ → ℕ → ℕ → ℕ → Rdram × Option ℕ
  unfolding ink_edge
  measure_glyph rdram ctx w h texbase ch =
      let (rdram', g) = out.sheet_index rdram (record ctx { r4 = ch }) in
      let tile = (texbase + word g.r2 * w * h) % 2 ^ 32 in
      (rdram', if rdram_range tile (w * h) then some (ink_edge rdram' tile w h w) else none)

  -- The loop over the 95 glyphs with `n` to go.
  unfoldable pub measure_all : Rdram → Context → ℕ → ℕ → ℕ → ℕ → ℕ → (ℕ → ℕ) → Rdram × (ℕ → ℕ)
  unfolding measure_glyph advance
  measure_all rdram ctx w h texbase c zero adv = (rdram, adv)
  measure_all rdram ctx w h texbase c (suc n) adv =
      let (rdram', ink) = measure_glyph rdram ctx w h texbase (0x20 + c) in
      measure_all rdram' ctx w h texbase (c + 1) n (λ i. if i == c then advance w c ink else adv i)

  -- `wi > 0 && wm > 0 && wi * 10 < wm * 7 && wm <= w`
  unfoldable pub is_proportional : ℕ → Option ℕ → Option ℕ → Bool
  is_proportional w none wm = false
  is_proportional w (some wi) none = false
  is_proportional w (some wi) (some wm) = ltb 0 wi && ltb 0 wm && ltb (wi * 10) (wm * 7) && leb wm w

  unfoldable pub calibrated : Rdram → Context → ℕ → ℕ → ℕ → ℕ → SlotMetrics → Rdram × SlotMetrics
  unfolding measure_all is_proportional
  calibrated rdram ctx w h texbase slot_adv m =
      let (r1, wi) = measure_glyph rdram ctx w h texbase b'i' in
      let (r2, wm) = measure_glyph r1 ctx w h texbase b'm' in
      let all = measure_all r2 ctx w h texbase 0 95 m.adv in
      let ma = slot_adv * 62 / 100 in
      if is_proportional w wi wm
      then (all.0, record m { ready = true; proportional = true; adv = all.1 })
      else (r2, record m { ready = true; mono = if ltb ma 4 then 4 else ma })

  abbrev pub put : Metrics → ℕ → Rdram × SlotMetrics → Rdram × Metrics
  put ms slot r = (r.0, λ i. if i == slot then r.1 else ms i)

  unfoldable pub calibrate_slot : Rdram → Context → ℕ → ℕ → ℕ → Metrics → Rdram × Metrics
  unfolding calibrated
  calibrate_slot rdram ctx fs slot slot_adv ms =
      let desc = (fs + slot * 8) % 2 ^ 32 in
      let h = guest_rb rdram ((desc + 1) % 2 ^ 32) in
      let w = guest_rb rdram ((desc + 2) % 2 ^ 32) in
      let texbase = read_u32 rdram ((desc + 4) % 2 ^ 32) in
      if leb 8 slot || (ms slot).ready
      then (rdram, ms)
      else if w == 0 || h == 0 || ltb 64 w || ltb 64 h || not (rdram_range texbase (w * h))
      then (rdram, ms)
      else put ms slot (calibrated rdram ctx w h texbase slot_adv (ms slot))

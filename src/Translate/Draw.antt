-- ===== src/Translate/Draw.antt =====
-- The translation at the string-draw routine, with the composition of single-"%s" formats, and the
-- hook as a whole (`pkmnstadium_text_xlate` of src/main/diagnostics.cpp).
pub mod Reload
pub mod Frame
pub mod Swap
pub mod Unknown
use pocket_monsters_stadium.Prelude.{
  ℕ, zero, suc, ◌+◌, ◌-◌, ◌*◌, ◌%◌, ◌^◌, ◌≡◌, Bool, true, false, not, ◌&&◌, ◌||◌, List, [], ◌∷◌,
  ◌++◌, Option, none, some, ltb, leb, ◌==◌, if◌then◌else◌, Bytes, codes, length, has_byte,
  before_byte, after_byte, bytes_eq,
}
use pocket_monsters_stadium.Prelude.Int.{ℤ, pos}
use pocket_monsters_stadium.Memory.{Rdram, rdram_range, byte_at, physical, read_text_arg, src_max}
use pocket_monsters_stadium.Scratch.{swap_scratch}
use pocket_monsters_stadium.Translate.Fnv.{fnv1a}
use pocket_monsters_stadium.Translate.Load.{
  XlateVal, XlateMap, Xlate, find, maybe_reload_translations, string_draw_pc, desc_draw_pc,
}
use pocket_monsters_stadium.Translate.Context.{Context, word}
use pocket_monsters_stadium.Translate.Glyph.{Metrics}
use pocket_monsters_stadium.Translate.Discovery.{Disc, xlate_discovery}
use pocket_monsters_stadium.Translate.Hook.{
  Run, Setup, render, fmt_swap, is_template, headroom, en_cap, known, known_text, parse_fun_pc,
  xlate_desc, xlate_general,
}

-- The bytes at the format's address up to a NUL, the end of RDRAM or 256 bytes.
unfoldable pub raw_text : Rdram → ℕ → ℕ → ℕ → Bytes
raw_text rdram fmt zero i = []
raw_text rdram fmt (suc left) i =
    let rest = raw_text rdram fmt left (i + 1) in
    let c = byte_at rdram (physical fmt + i) in
    if rdram_range ((fmt + i) % 2 ^ 32) 1 then if c == 0 then [] else c ∷ rest else []

-- A template whose only '%' is that of a "%s": what stands before and behind it.
abbrev pub split_at : Bytes → Option Bytes → Option (Bytes × Bytes)
split_at before none = none
split_at before (some []) = none
split_at before (some (c ∷ behind)) =
    if c == b's' && not (has_byte b'%' behind) then some (before, behind) else none

unfoldable pub single_s : Bytes → Option (Bytes × Bytes)
single_s tmpl = split_at (before_byte b'%' tmpl) (after_byte b'%' tmpl)

-- Glyphs of one or two bytes.
unfoldable pub glyphs : Bytes → ℕ
glyphs [] = 0
glyphs (c ∷ []) = 1
glyphs (c ∷ d ∷ cs) =
    let two = glyphs cs in let one = glyphs (d ∷ cs) in (if leb 0x80 c then two else one) + 1

-- The same, where a "%s" does not count.
unfoldable pub glyphs_beside : Bytes → ℕ
glyphs_beside [] = 0
glyphs_beside (c ∷ []) = 1
glyphs_beside (c ∷ d ∷ cs) =
    let two = glyphs_beside cs in
    let one = glyphs_beside (d ∷ cs) in
    if c == b'%' && d == b's' then two else (if leb 0x80 c then two else one) + 1

abbrev pub text_of : Option XlateVal → Bytes
text_of none = []
text_of (some v) = v.en

-- The English template: of the table, or a bare "%s" as it is.
unfoldable pub template_of : XlateMap → Bytes → Bytes
template_of m src =
    let t = text_of (known m src) in
    if length t == 0 && bytes_eq src (codes "%s") then codes "%s" else t

-- The translation of the argument, if it has one without '%'.
abbrev pub literal : Option (Bytes × XlateVal) → Option (Bytes × Bytes)
literal none = none
literal (some (arg, v)) = if is_template v.en || length v.en == 0 then none else some (arg, v.en)

module _ (s : Setup) where
  -- The composed text is rendered if it is not too long; `none` falls through.
  abbrev pub compose_literal : Run → Bytes → Bytes × Bytes → Option (Bytes × Bytes) → Option Run
  compose_literal r src (before, behind) none = none
  compose_literal r src (before, behind) (some (arg, cls)) =
      let full = before ++ (cls ++ behind) in
      let budget = glyphs arg + glyphs_beside src in
      if leb (length full) en_cap
      then some (render s r full full (swap_scratch (word r.ctx.r29) false) (pos budget))
      else none

  abbrev pub compose_split : XlateMap → Run → Bytes → Option (Bytes × Bytes) → Option Run
  compose_split m r src none = none
  compose_split m r src (some parts) =
      compose_literal r src parts (literal (known_text m r.rdram r.ctx.r7))

  unfoldable pub compose : XlateMap → Run → Bytes → Option Run
  unfolding single_s template_of
  compose m r src = compose_split m r src (single_s (template_of m src))

  abbrev pub draw_known : Run → Bytes → Option XlateVal → Run
  draw_known r src none = r
  draw_known r src (some v) =
      let scratch = swap_scratch (word r.ctx.r29) (is_template v.en) in
      if ltb en_cap (length v.en)
      then r
      else if is_template v.en
      then fmt_swap r scratch v.en
      else render s r src v.en scratch v.fit_w

  abbrev pub or_draw : XlateMap → Run → Bytes → Option Run → Run
  or_draw m r src none = draw_known r src (known m src)
  or_draw m r src (some r') = r'

  -- The primary string-draw routine.
  unfoldable pub xlate_draw : XlateMap → Run → Run
  unfolding raw_text compose
  xlate_draw m r =
      let src = raw_text r.rdram (word r.ctx.r6) src_max 0 in
      if length src == 0 || ltb (word r.ctx.r29) headroom
      then r
      else or_draw m r src (compose m r src)

  unfoldable pub translate : Xlate → ℕ → Run → Run
  unfolding xlate_draw
  translate x pc r =
      if pc == desc_draw_pc
      then xlate_desc x.entries_of r
      else if pc == string_draw_pc
      then xlate_draw x.entries_of r
      else xlate_general s x.textpc x.entries_of pc r

-- The translation layer's own state: the table, the glyph metrics, the counters, the reentrancy flag of
-- the thread, and what discovery has seen.
-- `xlate` holds the set of text PCs, which the census fills too.
pub record Hook : Type 0 where
  pub xlate : Xlate
  pub metrics : Metrics
  pub hits : ℕ
  pub calls : ℕ
  pub active : Bool
  pub disc : Disc

-- translations.json at the time of a call: its time of writing and its contents, where they can be had.
pub record File : Type 0 where
  pub mt : Option ℕ
  pub text : Option Bytes

-- Every 1024th call looks whether the file has changed.
unfoldable pub reload_check : File → Hook → Hook
reload_check f h =
    let h' = record h { calls = (h.calls + 1) % 2 ^ 64 } in
    if h.calls % 1024 == 0
    then record h' { xlate = maybe_reload_translations f.mt f.text h.xlate }
    else h'

abbrev pub run_of : Hook → Rdram → Context → Run
run_of h rdram ctx = record { rdram = rdram; ctx = ctx; metrics = h.metrics; hits = h.hits }

abbrev pub back : Hook → Disc → Run → Hook × Rdram × Context
back h d r = (record h { metrics = r.metrics; hits = r.hits; disc = d }, r.rdram, r.ctx)

-- What discovery has seen after the call, and the call's translation.
abbrev pub noted : Setup → Option Bytes → Rdram → Context → Hook → Disc
noted s name rdram ctx h =
    if s.probe then xlate_discovery rdram ctx (parse_fun_pc name) h.disc else h.disc

abbrev pub translated : Setup → Option Bytes → Rdram → Context → Hook → Hook × Rdram × Context
translated s name rdram ctx h =
    back h (noted s name rdram ctx h) (translate s h.xlate (parse_fun_pc name) (run_of h rdram ctx))

-- The hook behind the check for a changed file; `present` tells that neither of the two pointers that
-- are passed is null.
unfoldable pub translate_call :
    Setup → Option Bytes → Bool → Rdram → Context → Hook → Hook × Rdram × Context
unfolding translate
translate_call s name present rdram ctx h =
    if not h.xlate.armed || not present then (h, rdram, ctx) else translated s name rdram ctx h

unfoldable pub text_xlate :
    Setup → File → Option Bytes → Bool → Hook → Rdram → Context → Hook × Rdram × Context
text_xlate s f name present h rdram ctx =
    if h.active then (h, rdram, ctx) else translate_call s name present rdram ctx (reload_check f h)

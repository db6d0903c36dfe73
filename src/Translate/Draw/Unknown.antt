-- ===== src/Translate/Draw/Unknown.antt =====
-- Calls of the translation hook with no known text (`pkmnstadium_text_xlate` of
-- src/main/diagnostics.cpp).
use pocket_monsters_stadium.Prelude.{
  ℕ, ◌%◌, ◌≡◌, refl, ap, ◌∙◌, Bool, true, false, not, ◌||◌, Option, none, some, ◌==◌, ltb,
  if◌then◌else◌, Bytes, length, Bool-cases, inl, inr,
}
use pocket_monsters_stadium.Memory.{Rdram, src_max}
use pocket_monsters_stadium.Census.TextPc.{Table, textpc_contains}
use pocket_monsters_stadium.Translate.Context.{Context, word}
use pocket_monsters_stadium.Translate.Load.{Xlate, XlateMap, XlateVal, string_draw_pc, desc_draw_pc}
use pocket_monsters_stadium.Translate.Hook.{
  Setup, Run, general_known, xlate_general, xlate_desc, desc_try, desc_known, known_text, known,
  parse_fun_pc, headroom,
}
use pocket_monsters_stadium.Translate.Draw.Frame.{if_holds}
use pocket_monsters_stadium.Translate.Draw.{
  Hook, File, reload_check, translate_call, translated, text_xlate, translate, xlate_draw, compose,
  compose_split, raw_text, template_of, single_s, literal, run_of, or_draw, compose_literal,
}

-- No text that the argument registers point at is in the table, neither as the readers of arguments
-- take it nor as the string-draw routine does.
pub record IsUnknown (m : XlateMap) (rdram : Rdram) (c : Context) : Type 0 where
  pub at_r4 : known_text m rdram c.r4 ≡ none
  pub at_r5 : known_text m rdram c.r5 ≡ none
  pub at_r6 : known_text m rdram c.r6 ≡ none
  pub at_r7 : known_text m rdram c.r7 ≡ none
  pub drawn : known m (raw_text rdram (word c.r6) src_max 0) ≡ none

same_if {ℓ} : {A : Type ℓ} (b : Bool) (x y z : A) → x ≡ z → y ≡ z → (if b then x else y) ≡ z
same_if true x y z p q = p
same_if false x y z p q = q

module _ (s : Setup) (m : XlateMap) (r : Run) (u : IsUnknown m r.rdram r.ctx) where
  general_unknown : (table : Table) (pc : ℕ) → xlate_general s table m pc r ≡ r
  unfolding xlate_general general_known
  general_unknown table pc =
      same_if (textpc_contains table pc) _ r r (ap (general_known s r) u.at_r6) refl

  desc_unknown : xlate_desc m r ≡ r
  unfolding xlate_desc desc_try desc_known
  desc_unknown = same_if (ltb (word r.ctx.r29) headroom) r _ r refl (rw (u.at_r7, u.at_r4, u.at_r5))

  split_unknown : (src : Bytes) (o : Option (Bytes × Bytes)) → compose_split s m r src o ≡ none
  split_unknown src none = refl
  split_unknown src (some (before, behind)) =
      ap (λ (o : Option (Bytes × XlateVal)). compose_literal s r src (before, behind) (literal o))
        u.at_r7

  draw_unknown : xlate_draw s m r ≡ r
  unfolding xlate_draw compose
  draw_unknown =
      let src = raw_text r.rdram (word r.ctx.r6) src_max 0 in
      same_if (length src == 0 || ltb (word r.ctx.r29) headroom) r _ r refl
        (ap (or_draw s m r src) (split_unknown src (single_s (template_of m src))) ∙ rw u.drawn)

translate_unknown :
    (s : Setup) (x : Xlate) (pc : ℕ) (r : Run)
    → IsUnknown x.entries_of r.rdram r.ctx
    → translate s x pc r ≡ r
unfolding translate
translate_unknown s x pc r u =
    same_if (pc == desc_draw_pc) _ _ r (desc_unknown s x.entries_of r u) (
      same_if (pc == string_draw_pc) _ _ r (draw_unknown s x.entries_of r u)
        (general_unknown s x.entries_of r u x.textpc pc))

checked :
    (f : File) (h : Hook)
    → ((reload_check f h).metrics ≡ h.metrics) × ((reload_check f h).hits ≡ h.hits)
unfolding reload_check
checked f h = elim (Bool-cases (h.calls % 1024 == 0)) [
  | inl e ↦ rw e (refl, refl)
  | inr e ↦ rw e (refl, refl)
]

-- What a call has left as it was.
record Leaves (h : Hook) (rdram : Rdram) (ctx : Context) (r : Hook × Rdram × Context) : Type 0 where
  memory : r.1 ≡ rdram
  registers : r.2 ≡ ctx
  widths : r.0.metrics ≡ h.metrics
  count : r.0.hits ≡ h.hits

call_unknown :
    (s : Setup) (name : Option Bytes) (present : Bool) (rdram : Rdram) (ctx : Context) (h : Hook)
    → IsUnknown h.xlate.entries_of rdram ctx
    → Leaves h rdram ctx (translate_call s name present rdram ctx h)
unfolding translate_call
call_unknown s name present rdram ctx h u =
    let e = translate_unknown s h.xlate (parse_fun_pc name) (run_of h rdram ctx) u in
    if_holds (Leaves h rdram ctx) (not h.xlate.armed || not present) (h, rdram, ctx)
      (translated s name rdram ctx h)
      (record { memory = refl; registers = refl; widths = refl; count = refl })
      (record {
        memory = ap (λ (r : Run). r.rdram) e;
        registers = ap (λ (r : Run). r.ctx) e;
        widths = ap (λ (r : Run). r.metrics) e;
        count = ap (λ (r : Run). r.hits) e;
      })

-- A call whose argument registers point at no text of the table, as the table stands after the check
-- for a changed file, leaves guest memory, every register, the glyph metrics and the hits as they are.
pub text_xlate_unknown :
    (s : Setup) (f : File) (name : Option Bytes) (present : Bool) (h : Hook) (rdram : Rdram)
    (ctx : Context)
    → IsUnknown (reload_check f h).xlate.entries_of rdram ctx
    → ((text_xlate s f name present h rdram ctx).1 ≡ rdram)
      × ((text_xlate s f name present h rdram ctx).2 ≡ ctx)
      × ((text_xlate s f name present h rdram ctx).0.metrics ≡ h.metrics)
      × ((text_xlate s f name present h rdram ctx).0.hits ≡ h.hits)
unfolding text_xlate
text_xlate_unknown s f name present h rdram ctx u =
    let (p, q) = checked f h in
    let c = call_unknown s name present rdram ctx (reload_check f h) u in
    let l =
      if_holds (Leaves h rdram ctx) h.active (h, rdram, ctx)
        (translate_call s name present rdram ctx (reload_check f h))
        (record { memory = refl; registers = refl; widths = refl; count = refl })
        (record {
          memory = c.memory;
          registers = c.registers;
          widths = c.widths ∙ p;
          count = c.count ∙ q;
        }) in
    (l.memory, l.registers, l.widths, l.count)

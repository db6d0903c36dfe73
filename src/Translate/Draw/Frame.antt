-- ===== src/Translate/Draw/Frame.antt =====
-- What a call of the translation hook leaves alone (`pkmnstadium_text_xlate` of
-- src/main/diagnostics.cpp).
use pocket_monsters_stadium.Prelude.{
  ℕ, ◌≡◌, Bool, true, false, not, ◌||◌, Option, none, some, if◌then◌else◌, Bytes, arith, Bool-cases,
  inl, inr,
}
use pocket_monsters_stadium.Prelude.Int.{ℤ}
use pocket_monsters_stadium.Memory.{Rdram, rdram_range, write_guest_str}
use pocket_monsters_stadium.Census.TextPc.{Table}
use pocket_monsters_stadium.Translate.Context.{Context}
use pocket_monsters_stadium.Translate.Load.{Xlate, XlateMap, XlateVal}
use pocket_monsters_stadium.Translate.Render.{self_render_static, suppress}
use pocket_monsters_stadium.Translate.Hook.{
  parse_fun_pc, Setup, Run, Holder, in_r7, in_r4, in_r5, render, general_known, xlate_general,
  xlate_desc, desc_try, desc_known, known_text, held, known, fmt_swap, swapped, desc_swapped,
  or_run, first_of,
}
use pocket_monsters_stadium.Translate.Draw.{
  Hook, File, reload_check, translate_call, translated, text_xlate, translate, xlate_draw,
  draw_known, or_draw, compose, compose_split, compose_literal, literal, run_of,
}

-- The registers that the hook never writes.
pub record SameElse (c c' : Context) : Type 0 where
  pub same_r2 : c'.r2 ≡ c.r2
  pub same_r3 : c'.r3 ≡ c.r3
  pub same_r8 : c'.r8 ≡ c.r8
  pub same_r9 : c'.r9 ≡ c.r9
  pub same_r16 : c'.r16 ≡ c.r16
  pub same_r17 : c'.r17 ≡ c.r17
  pub same_r18 : c'.r18 ≡ c.r18
  pub same_r19 : c'.r19 ≡ c.r19
  pub same_r29 : c'.r29 ≡ c.r29
  pub same_r31 : c'.r31 ≡ c.r31
  pub same_others : c'.others ≡ c.others

pub if_holds {ℓ κ} :
    {A : Type ℓ} (P : A → Type κ) (b : Bool) (x y : A) → P x → P y → P (if b then x else y)
if_holds P true x y p q = p
if_holds P false x y p q = q

all_same : (c : Context) → SameElse c c
all_same c = ground arith

suppress-SameElse :
    (s : Setup) (scratch : ℕ) (rdram : Rdram) (c : Context)
    → SameElse c (suppress s.out scratch rdram c).1
unfolding suppress
suppress-SameElse s scratch rdram c = elim (Bool-cases (rdram_range scratch 1)) [
  | inl e ↦ rw e (ground arith)
  | inr e ↦ rw e (all_same c)
]

render-SameElse :
    (s : Setup) (r : Run) (src eng : Bytes) (scratch : ℕ) (budget : ℤ)
    → SameElse r.ctx (render s r src eng scratch budget).ctx
unfolding render self_render_static
render-SameElse s r src eng scratch budget = suppress-SameElse s scratch _ r.ctx

swapped-SameElse :
    (r : Run) (scratch : ℕ) (o : Option Rdram)
    → SameElse r.ctx (swapped (λ (c : Context) (p : ℕ). record c { r6 = p }) r scratch o).ctx
swapped-SameElse r scratch none = all_same r.ctx
swapped-SameElse r scratch (some m) = ground arith

fmt_swap-SameElse :
    (r : Run) (scratch : ℕ) (en : Bytes) → SameElse r.ctx (fmt_swap r scratch en).ctx
unfolding fmt_swap
fmt_swap-SameElse r scratch en = swapped-SameElse r scratch (write_guest_str r.rdram scratch en)

-- The run that follows leaves them alone.
record Keeps (r r' : Run) : Type 0 where
  same : SameElse r.ctx r'.ctx

Keeps-all : (r : Run) → Keeps r r
Keeps-all r = record { same = all_same r.ctx }

render-Keeps :
    (s : Setup) (r : Run) (src eng : Bytes) (scratch : ℕ) (budget : ℤ)
    → Keeps r (render s r src eng scratch budget)
render-Keeps s r src eng scratch budget = record {
  same = render-SameElse s r src eng scratch budget;
}

fmt_swap-Keeps : (r : Run) (scratch : ℕ) (en : Bytes) → Keeps r (fmt_swap r scratch en)
fmt_swap-Keeps r scratch en = record { same = fmt_swap-SameElse r scratch en }

general_known-Keeps :
    (s : Setup) (r : Run) (o : Option (Bytes × XlateVal)) → Keeps r (general_known s r o)
unfolding general_known
general_known-Keeps s r none = Keeps-all r
general_known-Keeps s r (some (src, v)) =
    if_holds (Keeps r) _ r _ (Keeps-all r)
      (if_holds (Keeps r) _ _ _ (render-Keeps s r src v.en _ v.fit_w) (fmt_swap-Keeps r _ v.en))

general-Keeps :
    (s : Setup) (table : Table) (m : XlateMap) (pc : ℕ) (r : Run)
    → Keeps r (xlate_general s table m pc r)
unfolding xlate_general
general-Keeps s table m pc r = if_holds (Keeps r) _ _ r (general_known-Keeps s r _) (Keeps-all r)

data KeepsIf (r : Run) : Option Run → Type 0 where
  no_run : KeepsIf r none
  one_run : {r' : Run} → Keeps r r' → KeepsIf r (some r')

desc_swapped-KeepsIf :
    (h : Holder) (r : Run) (scratch : ℕ) (en : Bytes) (o : Option Rdram)
    → KeepsIf r (desc_swapped h r scratch en o)
desc_swapped-KeepsIf h r scratch en none = no_run
desc_swapped-KeepsIf in_r7 r scratch en (some m) = one_run (record { same = ground arith })
desc_swapped-KeepsIf in_r4 r scratch en (some m) = one_run (record { same = ground arith })
desc_swapped-KeepsIf in_r5 r scratch en (some m) = one_run (record { same = ground arith })

desc_known-KeepsIf :
    (h : Holder) (r : Run) (o : Option (Bytes × XlateVal)) → KeepsIf r (desc_known h r o)
unfolding desc_known
desc_known-KeepsIf h r none = no_run
desc_known-KeepsIf h r (some (src, v)) =
    if_holds (KeepsIf r) _ none _ no_run (desc_swapped-KeepsIf h r _ v.en _)

first_of-KeepsIf :
    (r : Run) (a b : Option Run) → KeepsIf r a → KeepsIf r b → KeepsIf r (first_of a b)
first_of-KeepsIf r none b p q = q
first_of-KeepsIf r (some x) b p q = p

or_run-Keeps : (r : Run) (o : Option Run) → KeepsIf r o → Keeps r (or_run r o)
or_run-Keeps r none p = Keeps-all r
or_run-Keeps r (some x) (one_run p) = p

desc_try-KeepsIf : (m : XlateMap) (h : Holder) (r : Run) → KeepsIf r (desc_try m h r)
unfolding desc_try
desc_try-KeepsIf m h r = desc_known-KeepsIf h r (known_text m r.rdram (held h r.ctx))

desc-Keeps : (m : XlateMap) (r : Run) → Keeps r (xlate_desc m r)
unfolding xlate_desc
desc-Keeps m r = if_holds (Keeps r) _ r _ (Keeps-all r) (
    or_run-Keeps r _ (
      first_of-KeepsIf r _ _ (desc_try-KeepsIf m in_r7 r)
        (first_of-KeepsIf r _ _ (desc_try-KeepsIf m in_r4 r) (desc_try-KeepsIf m in_r5 r))))

module _ (s : Setup) (m : XlateMap) (r : Run) (src : Bytes) where
  literal-KeepsIf :
      (parts : Bytes × Bytes) (o : Option (Bytes × Bytes))
      → KeepsIf r (compose_literal s r src parts o)
  literal-KeepsIf (before, behind) none = no_run
  literal-KeepsIf (before, behind) (some (arg, cls)) =
      if_holds (KeepsIf r) _ _ none (one_run (render-Keeps s r _ _ _ _)) no_run

  split-KeepsIf : (o : Option (Bytes × Bytes)) → KeepsIf r (compose_split s m r src o)
  split-KeepsIf none = no_run
  split-KeepsIf (some parts) = literal-KeepsIf parts (literal (known_text m r.rdram r.ctx.r7))

  draw_known-Keeps : (o : Option XlateVal) → Keeps r (draw_known s r src o)
  draw_known-Keeps none = Keeps-all r
  draw_known-Keeps (some v) =
      if_holds (Keeps r) _ r _ (Keeps-all r)
        (if_holds (Keeps r) _ _ _ (fmt_swap-Keeps r _ v.en) (render-Keeps s r src v.en _ v.fit_w))

  or_draw-Keeps : (o : Option Run) → KeepsIf r o → Keeps r (or_draw s m r src o)
  or_draw-Keeps none p = draw_known-Keeps (known m src)
  or_draw-Keeps (some x) (one_run p) = p

draw-Keeps : (s : Setup) (m : XlateMap) (r : Run) → Keeps r (xlate_draw s m r)
unfolding xlate_draw compose
draw-Keeps s m r =
    if_holds (Keeps r) _ r _ (Keeps-all r) (or_draw-Keeps s m r _ _ (split-KeepsIf s m r _ _))

translate-Keeps : (s : Setup) (x : Xlate) (pc : ℕ) (r : Run) → Keeps r (translate s x pc r)
unfolding translate
translate-Keeps s x pc r = if_holds (Keeps r) _ _ _ (desc-Keeps x.entries_of r) (
    if_holds (Keeps r) _ _ _ (draw-Keeps s x.entries_of r)
      (general-Keeps s x.textpc x.entries_of pc r))

record KeepsCall (ctx : Context) (r : Hook × Rdram × Context) : Type 0 where
  same : SameElse ctx r.2

call-Keeps :
    (s : Setup) (name : Option Bytes) (present : Bool) (rdram : Rdram) (ctx : Context) (h : Hook)
    → KeepsCall ctx (translate_call s name present rdram ctx h)
unfolding translate_call
call-Keeps s name present rdram ctx h =
    let kept = translate-Keeps s h.xlate (parse_fun_pc name) (run_of h rdram ctx) in
    if_holds (KeepsCall ctx) (not h.xlate.armed || not present) (h, rdram, ctx)
      (translated s name rdram ctx h) (record { same = all_same ctx }) (record { same = kept.same })

-- Whatever the table and the texts are, a call of the hook changes none of the caller's registers but
-- r4 to r7.
pub text_xlate-SameElse :
    (s : Setup) (f : File) (name : Option Bytes) (present : Bool) (h : Hook) (rdram : Rdram)
    (ctx : Context)
    → SameElse ctx (text_xlate s f name present h rdram ctx).2
unfolding text_xlate
text_xlate-SameElse s f name present h rdram ctx = kept.same
  where
    kept : KeepsCall ctx (text_xlate s f name present h rdram ctx)
    kept =
        if_holds (KeepsCall ctx) h.active (h, rdram, ctx) _ (record { same = all_same ctx })
          (call-Keeps s name present rdram ctx (reload_check f h))

-- ===== src/Translate/Draw/Reload.antt =====
-- When a changed translations.json is loaded (`pkmnstadium_text_xlate` and
-- `maybe_reload_translations` of src/main/diagnostics.cpp).
use pocket_monsters_stadium.Prelude.{
  ℕ, zero, suc, ◌+◌, ◌-◌, ◌%◌, ◌^◌, ◌≡◌, ◌≢◌, ◌≤◌, ◌<◌, refl, sym, ap, ◌∙◌, Bool, true, false, not,
  ◌&&◌, ◌||◌, List, [], ◌∷◌, Option, some, ◌==◌, if◌then◌else◌, Bytes, length, arith, Bool-cases,
  inl, inr,
}
use mathlib.Core.Path.{subst}
use pocket_monsters_stadium.Memory.{Rdram}
use pocket_monsters_stadium.Translate.Context.{Context}
use pocket_monsters_stadium.Translate.Load.{
  Xlate, same_time, or_cleared, read_entries, maybe_reload_translations,
}
use pocket_monsters_stadium.Translate.Hook.{Setup}
use pocket_monsters_stadium.Translate.Draw.{Hook, File, reload_check, translate_call, text_xlate}

-- One entry of a recompiled function.
pub record Call : Type 0 where
  pub name : Option Bytes
  pub present : Bool
  pub rdram : Rdram
  pub ctx : Context

passes {ℓ} : {A : Type ℓ} (b : Bool) (x y : A) → b ≡ false → (if b then x else y) ≡ y
passes true x y h = cc
passes false x y h = refl

module _ (s : Setup) (t : ℕ) (text : Bytes) where
  -- The file while the calls are made.
  abbrev pub file : File
  file = record { mt = some t; text = some text }

  unfoldable pub run_calls : List Call → Hook → Hook
  run_calls [] h = h
  run_calls (c ∷ cs) h = run_calls cs (text_xlate s file c.name c.present h c.rdram c.ctx).0

  -- The file that stands there has been loaded.
  pub record IsLoaded (x : Xlate) : Type 0 where
    pub time : x.mtime ≡ some t
    pub ever : x.ever_loaded ≡ true
    pub table : x.entries_of ≡ or_cleared (read_entries text)

  -- It has not: it is the first load, or the file has another time of writing.
  abbrev pub IsStale : Xlate → Type 0
  IsStale x = (x.ever_loaded && same_time x.mtime t) ≡ false

  reloaded : (x : Xlate) → IsStale x → IsLoaded (maybe_reload_translations (some t) (some text) x)
  unfolding maybe_reload_translations
  reloaded x h = elim (Bool-cases (not x.ever_loaded || not (same_time x.mtime t))) [
    | inl e ↦ rw e (record { time = refl; ever = refl; table = refl })
    | inr e ↦ absurd (clash x.ever_loaded (same_time x.mtime t) h e)
  ]
    where
      clash : (a b : Bool) → (a && b) ≡ false → (not a || not b) ≡ false → ⊥
      clash true true p q = cc
      clash true false p q = cc
      clash false b p q = cc

  stays : (x : Xlate) → IsLoaded x → maybe_reload_translations (some t) (some text) x ≡ x
  unfolding maybe_reload_translations
  stays x h =
      let e : (not x.ever_loaded || not (same_time x.mtime t)) ≡ false =
        current x.ever_loaded x.mtime h.ever h.time in
      rw e
    where
      current :
          (a : Bool) (o : Option ℕ) → a ≡ true → o ≡ some t → (not a || not (same_time o t)) ≡ false
      current a o p q = rw (p, q) (let e : (t == t) ≡ true = ground arith in rw e)

  checked :
      (h : Hook)
      → ((reload_check file h).calls ≡ (h.calls + 1) % 2 ^ 64)
        × ((reload_check file h).active ≡ h.active)
  unfolding reload_check
  checked h = elim (Bool-cases (h.calls % 1024 == 0)) [
    | inl e ↦ rw e (refl, refl)
    | inr e ↦ rw e (refl, refl)
  ]

  translated :
      (c : Call) (h : Hook)
      → ((translate_call s c.name c.present c.rdram c.ctx h).0.xlate ≡ h.xlate)
        × ((translate_call s c.name c.present c.rdram c.ctx h).0.calls ≡ h.calls)
        × ((translate_call s c.name c.present c.rdram c.ctx h).0.active ≡ h.active)
  unfolding translate_call
  translated c h = elim (Bool-cases (not h.xlate.armed || not c.present)) [
    | inl e ↦ rw e (refl, refl, refl)
    | inr e ↦ rw e (refl, refl, refl)
  ]

  abbrev call : Call → Hook → Hook
  call c h = (text_xlate s file c.name c.present h c.rdram c.ctx).0

  call_lem :
      (c : Call) (h : Hook)
      → h.active ≡ false
      → ((call c h).xlate ≡ (reload_check file h).xlate)
        × ((call c h).calls ≡ (h.calls + 1) % 2 ^ 64)
        × ((call c h).active ≡ false)
  unfolding text_xlate
  call_lem c h a =
      let (x, y, z) = translated c (reload_check file h) in
      let (p, q) = checked h in
      let e = passes h.active _ _ a in
      (
        ap (λ (r : Hook × Rdram × Context). r.0.xlate) e ∙ x,
        ap (λ (r : Hook × Rdram × Context). r.0.calls) e ∙ y ∙ p,
        ap (λ (r : Hook × Rdram × Context). r.0.active) e ∙ z ∙ q ∙ a,
      )

  check_loads :
      (h : Hook) → h.calls % 1024 ≡ 0 → IsStale h.xlate → IsLoaded (reload_check file h).xlate
  unfolding reload_check
  check_loads h e st =
      let b : (h.calls % 1024 == 0) ≡ true = ground arith in rw b (reloaded h.xlate st)

  check_waits : (h : Hook) → h.calls % 1024 ≢ 0 → (reload_check file h).xlate ≡ h.xlate
  unfolding reload_check
  check_waits h ne = let b : (h.calls % 1024 == 0) ≡ false = ground arith in rw b

  check_stays : (h : Hook) → IsLoaded h.xlate → (reload_check file h).xlate ≡ h.xlate
  unfolding reload_check
  check_stays h l = elim (Bool-cases (h.calls % 1024 == 0)) [
    | inl e ↦ rw e (stays h.xlate l)
    | inr e ↦ rw e
  ]

  run_stays :
      (cs : List Call) (h : Hook)
      → h.active ≡ false
      → IsLoaded h.xlate
      → IsLoaded (run_calls cs h).xlate
  unfolding run_calls
  run_stays [] h a l = l
  run_stays (c ∷ cs) h a l =
      let (x, y, z) = call_lem c h a in
      run_stays cs (call c h) z (subst IsLoaded (sym (x ∙ check_stays h l)) l)

  run_loads :
      (cs : List Call) (h : Hook) (d : ℕ)
      → h.active ≡ false
      → IsStale h.xlate
      → d < 1024
      → (h.calls + d) % 1024 ≡ 0
      → d < length cs
      → IsLoaded (run_calls cs h).xlate
  unfolding run_calls
  run_loads [] h d a st lt e le = absurd (omega arith)
  run_loads (c ∷ cs) h zero a st lt e le =
      let (x, y, z) = call_lem c h a in
      run_stays cs (call c h) z (subst IsLoaded (sym x) (check_loads h (omega arith) st))
  run_loads (c ∷ cs) h (suc d) a st lt e le =
      let (x, y, z) = call_lem c h a in
      run_loads cs (call c h) d z
        (subst IsStale (sym (x ∙ check_waits h (λ k. absurd (omega arith)))) st) (omega arith)
        (omega arith) (omega arith)

  -- Within 1024 calls of the hook outside its own drawing, a translations.json that is not the one
  -- loaded last is loaded, whatever the calls are, and stays loaded while the file stays as it is.
  pub run_calls-IsLoaded :
      (cs : List Call) (h : Hook)
      → h.active ≡ false
      → IsStale h.xlate
      → 1024 ≤ length cs
      → IsLoaded (run_calls cs h).xlate
  run_calls-IsLoaded cs h a st le =
      run_loads cs h ((1024 - h.calls % 1024) % 1024) a st (omega arith) (omega arith) (omega arith)

-- ===== src/Diagnostics/Report.antt =====
-- The summaries of the watchdog's report (`psr_post_mortem_dump` and `pms_dump_ultra_trace` of
-- src/main/diagnostics.cpp): what is selected from the rings and how runs are collapsed.
use pocket_monsters_stadium.Prelude.{
  ℕ, zero, suc, ◌+◌, ◌-◌, ◌<◌, ◌≡◌, refl, ◌∙◌, ap, Bool, ◌&&◌, List, [], ◌∷◌, Option, none, some,
  arith, ltb, ◌==◌, if◌then◌else◌, length, drop, min,
}
use pocket_monsters_stadium.Diagnostics.Trace.{TraceNameEvent, Trace, trace_at, trace_write_idx}
use pocket_monsters_stadium.Diagnostics.Names.{mesg_is_block}

-- The entries at `n` indices from `i` on.
unfoldable pub window : Trace → ℕ → ℕ → List TraceNameEvent
window t i zero = []
window t i (suc n) = trace_at t i ∷ window t (i + 1) n

-- The slots that a post-mortem dump prints, oldest first.
unfoldable pub post_mortem : Trace → List TraceNameEvent
post_mortem t =
    let n = if ltb (trace_write_idx t) 64 then trace_write_idx t else 64 in
    window t (trace_write_idx t - n) n

-- MesgEvent, without its padding.
pub record MesgEvent : Type 0 where
  pub seq : ℕ
  pub ms : ℕ
  pub mq : ℕ
  pub msg : ℕ
  pub thread : ℕ
  pub thread_id : ℕ
  pub valid_before : ℕ
  pub valid_after : ℕ
  pub op : ℕ
  pub block : ℕ
  pub game_thread : ℕ

-- SummarySlot: what was seen last of each thread.
abbrev pub Summary : Type 0
Summary = ℕ → Option MesgEvent

abbrev pub put : Summary → ℕ → MesgEvent → Summary
put s tid ev j = if j == tid then some ev else s j

-- One round of the loop over the copied events: the last event, and the last blocking one.
unfoldable pub summarise : MesgEvent → Summary × Summary → Summary × Summary
unfolding mesg_is_block
summarise ev (last, block) =
    if ltb ev.thread_id 256
    then (
      put last ev.thread_id ev,
      if mesg_is_block ev.op then put block ev.thread_id ev else block,
    )
    else (last, block)

unfoldable pub summaries : List MesgEvent → Summary × Summary → Summary × Summary
summaries [] acc = acc
summaries (ev ∷ evs) acc = summaries evs (summarise ev acc)

-- The last `k` of the copied events.
unfoldable pub tail {ℓ} : {A : Type ℓ} → ℕ → List A → List A
tail k xs = drop (length xs - min (length xs) k) xs

-- The events that a summary is about: the last of the list that a test picks, if any.
abbrev pub last_of : (MesgEvent → Bool) → List MesgEvent → Option MesgEvent → Option MesgEvent
last_of p [] acc = acc
last_of p (ev ∷ evs) acc = last_of p evs (if p ev then some ev else acc)

abbrev pub of_thread : ℕ → MesgEvent → Bool
of_thread tid ev = tid == ev.thread_id

abbrev pub blocks : ℕ → MesgEvent → Bool
blocks tid ev = tid == ev.thread_id && mesg_is_block ev.op

one :
    (tid : ℕ) (e : MesgEvent) (last block : Summary)
    → tid < 256
    → ((summarise e (last, block)).0 tid ≡ (if of_thread tid e then some e else last tid))
      × ((summarise e (last, block)).1 tid ≡ (if blocks tid e then some e else block tid))
unfolding summarise
one tid e last block h = ground arith

summaries_from :
    (tid : ℕ) (evs : List MesgEvent) (acc : Summary × Summary)
    → tid < 256
    → ((summaries evs acc).0 tid ≡ last_of (of_thread tid) evs (acc.0 tid))
      × ((summaries evs acc).1 tid ≡ last_of (blocks tid) evs (acc.1 tid))
unfolding summaries
summaries_from tid [] acc h = (refl, refl)
summaries_from tid (ev ∷ evs) (last, block) h =
    let (a, b) = one tid ev last block h in
    let (x, y) = summaries_from tid evs (summarise ev (last, block)) h in
    (x ∙ ap (last_of (of_thread tid) evs) a, y ∙ ap (last_of (blocks tid) evs) b)

-- Each thread of a number below 256 is summed up by its last event and its last blocking event.
pub summaries_lem :
    (tid : ℕ) (evs : List MesgEvent)
    → tid < 256
    → ((summaries evs (λ j. none, λ j. none)).0 tid ≡ last_of (of_thread tid) evs none)
      × ((summaries evs (λ j. none, λ j. none)).1 tid ≡ last_of (blocks tid) evs none)
summaries_lem tid evs h = summaries_from tid evs (λ j. none, λ j. none) h

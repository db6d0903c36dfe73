-- ===== src/Diagnostics/Script.antt =====
-- The ring of script dispatches and the report of a bad one (`pms_diag_script_dispatch` of
-- src/main/diagnostics.cpp).
use pocket_monsters_stadium.Prelude.{
  ℕ, zero, suc, ◌+◌, ◌-◌, ◌%◌, ◌^◌, ◌≤◌, ◌<◌, ◌≡◌, refl, sym, ap, ◌∙◌, min, Bool-cases, inl, inr,
  Bool, true, false, List, [], ◌∷◌, Option, none, some, arith, ltb, leb, ◌==◌, ◌&&◌, if◌then◌else◌,
  Bytes,
}
use pocket_monsters_stadium.Memory.{Rdram, copy_bytes, read_u32}

-- kScriptDiagCap
abbrev pub script_cap : ℕ
script_cap = 128

-- The registers of the recompiled context that are read, 64 bits wide.
pub record Regs : Type 0 where
  pub r2 : ℕ
  pub r4 : ℕ
  pub r5 : ℕ
  pub r14 : ℕ
  pub r16 : ℕ
  pub r17 : ℕ
  pub r18 : ℕ
  pub r24 : ℕ
  pub r25 : ℕ
  pub r31 : ℕ

abbrev pub u32 : ℕ → ℕ
u32 r = r % 2 ^ 32

pub record ScriptDispatchEvent : Type 0 where
  pub seq : ℕ
  pub stream : ℕ
  pub opcode : ℕ
  pub table_addr : ℕ
  pub handler : ℕ
  pub ra : ℕ
  pub s1_global : ℕ
  pub s2_arg0 : ℕ
  pub a0 : ℕ
  pub a1 : ℕ
  pub v0 : ℕ
  pub bytes : Bytes

-- g_script_diag_ring and g_script_diag_widx
pub record Script : Type 0 where
  pub ring : ℕ → ScriptDispatchEvent
  pub widx : ℕ

unfoldable pub event_of : Rdram → Regs → ℕ → ScriptDispatchEvent
event_of rdram r seq = record {
  seq = seq;
  stream = u32 r.r16;
  opcode = u32 r.r14 % 2 ^ 8;
  table_addr = u32 r.r24;
  handler = u32 r.r25;
  ra = u32 r.r31;
  s1_global = u32 r.r17;
  s2_arg0 = u32 r.r18;
  a0 = u32 r.r4;
  a1 = u32 r.r5;
  v0 = u32 r.r2;
  bytes = copy_bytes rdram (u32 r.r16) 16;
}

-- The words printed from `addr` on: each address with its value.
unfoldable pub print_words : Rdram → ℕ → ℕ → List (ℕ × ℕ)
print_words rdram addr zero = []
print_words rdram addr (suc n) =
    (addr % 2 ^ 32, read_u32 rdram (addr % 2 ^ 32)) ∷ print_words rdram (addr + 4) n

-- The loop `for (i = first; i <= seq; i++)` with `n` rounds: an entry whose number is not `i` is skipped.
unfoldable pub recent_from : (ℕ → ScriptDispatchEvent) → ℕ → ℕ → List ScriptDispatchEvent
recent_from ring i zero = []
recent_from ring i (suc n) =
    let cur = ring (i % script_cap) in
    let rest = recent_from ring (i + 1) n in if cur.seq == i then cur ∷ rest else rest

-- What the report of a bad dispatch prints. `sections` is what is printed of `section_addresses`.
pub record Report : Type 0 where
  pub stream_bytes : Bytes
  pub table_words : List (ℕ × ℕ)
  pub sections : Option (List (ℕ × ℕ) × List (ℕ × ℕ))
  pub recent : List ScriptDispatchEvent

abbrev pub first_recent : ℕ → ℕ
first_recent seq = if ltb 32 (seq + 1) then seq + 1 - 32 else 0

unfoldable pub section_words : Rdram → Option (ℕ → ℕ) → Option (List (ℕ × ℕ) × List (ℕ × ℕ))
section_words rdram none = none
section_words rdram (some sections) =
    let section27 = u32 (sections 27) in
    some (print_words rdram (section27 + 0x11820) 12, print_words rdram (section27 + 0x1184C) 8)

-- The state after the event is stored.
unfoldable pub store_event : Script → ScriptDispatchEvent → Script
store_event s ev = record {
  ring = λ i. if i == s.widx % script_cap then ev else s.ring i;
  widx = (s.widx + 1) % 2 ^ 64;
}

unfoldable pub report_of : Rdram → Option (ℕ → ℕ) → (ℕ → ScriptDispatchEvent) → Regs → ℕ → Report
report_of rdram sections ring r seq = record {
  stream_bytes = copy_bytes rdram (u32 r.r16) 32;
  table_words = print_words rdram (u32 r.r24 + 2 ^ 32 - 16) 9;
  sections = section_words rdram sections;
  recent = recent_from ring (first_recent seq) (seq + 1 - first_recent seq);
}

-- `enabled` tells whether PMS_SCRIPT_DIAG is set; `sections` is the table of section addresses of the
-- generated code, if there is one. The report is `none` for a handler in the code's range.
unfoldable pub script_dispatch :
    Bool → Option (ℕ → ℕ) → Rdram → Regs → Script → Script × Option Report
script_dispatch enabled sections rdram r s =
    let s' = store_event s (event_of rdram r s.widx) in
    if enabled
    then if leb 0x80000400 (u32 r.r25) && ltb (u32 r.r25) 0x80080000
      then (s', none)
      else (s', some (report_of rdram sections s'.ring r s.widx))
    else (s, none)

-- The last 128 events stand in the ring under their numbers.
abbrev pub IsCurrent : Script → Type 0
IsCurrent s = (i : ℕ) → i < s.widx → s.widx ≤ i + script_cap → (s.ring (i % script_cap)).seq ≡ i

-- A dispatch keeps the last 128 events under their numbers, as long as the counter does not wrap.
pub script_dispatch-IsCurrent :
    (enabled : Bool) (sections : Option (ℕ → ℕ)) (rdram : Rdram) (r : Regs) (s : Script)
    → s.widx + 1 < 2 ^ 64
    → IsCurrent s
    → IsCurrent (script_dispatch enabled sections rdram r s).0
unfolding script_dispatch store_event event_of
script_dispatch-IsCurrent enabled sections rdram r s h c i lt le = ground (arith, c i)

-- The ring holds the last 128 events of a history that numbers them from 0.
abbrev pub Keeps : Script → (ℕ → ScriptDispatchEvent) → Type 0
Keeps s h =
    (i : ℕ)
    → i < s.widx
    → s.widx ≤ i + script_cap
    → (s.ring (i % script_cap) ≡ h i) × ((h i).seq ≡ i)

-- The history with one event more.
abbrev pub extended : (ℕ → ScriptDispatchEvent) → ℕ → ScriptDispatchEvent → ℕ → ScriptDispatchEvent
extended h n ev i = if i == n then ev else h i

-- The events of a history from `i` on.
abbrev pub events_from : (ℕ → ScriptDispatchEvent) → ℕ → ℕ → List ScriptDispatchEvent
events_from h i zero = []
events_from h i (suc n) = h i ∷ events_from h (i + 1) n

recent_from_lem :
    (s : Script) (h : ℕ → ScriptDispatchEvent) (n i : ℕ)
    → Keeps s h
    → i + n ≤ s.widx
    → s.widx ≤ i + script_cap
    → recent_from s.ring i n ≡ events_from h i n
unfolding recent_from
recent_from_lem s h zero i c hi lo = refl
recent_from_lem s h (suc n) i c hi lo =
    let (e, q) = c i (omega arith) lo in
    let t : ((h i).seq == i) ≡ true = ground (arith, q) in
    rw (e, t) (ap (h i ∷◌) (recent_from_lem s h n (i + 1) c (omega arith) (omega arith)))

abbrev pub reported : Option Report → List ScriptDispatchEvent
reported none = []
reported (some p) = p.recent

abbrev pub Bad : ℕ → Type 0
Bad handler = (leb 0x80000400 handler && ltb handler 0x80080000) ≡ false

store_event-Keeps :
    (s : Script) (h : ℕ → ScriptDispatchEvent) (ev : ScriptDispatchEvent)
    → s.widx + 1 < 2 ^ 64
    → ev.seq ≡ s.widx
    → Keeps s h
    → Keeps (store_event s ev) (extended h s.widx ev)
unfolding store_event
store_event-Keeps s h ev lt e c i hi lo = elim (Bool-cases (i == s.widx)) [
  | inl now ↦
      let p : i ≡ s.widx = ground arith in
      let q : (i % script_cap == s.widx % script_cap) ≡ true = rw p (ground arith) in
      rw (q, now) (refl, e ∙ sym p)
  | inr old ↦
      let q : (i % script_cap == s.widx % script_cap) ≡ false = ground arith in
      rw (q, old) (c i (ground arith) (ground arith))
]

first_recent_lem : (n : ℕ) → first_recent n ≡ n + 1 - 32
first_recent_lem n = ground arith

-- In a state whose ring holds the last 128 events of a history, the report of a bad dispatch lists
-- exactly the last 32 events of that history with the dispatch itself as the newest, or all of them if
-- there are not that many, in order and none left out.
pub script_dispatch_recent :
    (sections : Option (ℕ → ℕ)) (rdram : Rdram) (r : Regs) (s : Script)
    (h : ℕ → ScriptDispatchEvent)
    → s.widx + 1 < 2 ^ 64
    → Keeps s h
    → Bad (u32 r.r25)
    → reported (script_dispatch true sections rdram r s).1
      ≡ events_from
          (extended h s.widx (event_of rdram r s.widx))
          (s.widx + 1 - 32)
          (min 32 (s.widx + 1))
unfolding script_dispatch report_of event_of store_event
script_dispatch_recent sections rdram r s h lt c bad =
    let ev = event_of rdram r s.widx in
    let c' = store_event-Keeps s h ev lt (numbered rdram r s.widx) c in
    let w : (store_event s ev).widx ≡ s.widx + 1 = next s ev lt in
    let n : s.widx + 1 - (s.widx + 1 - 32) ≡ min 32 (s.widx + 1) = omega arith in
    rw (bad, first_recent_lem s.widx, n)
      (recent_from_lem (store_event s ev) (extended h s.widx ev) (min 32 (s.widx + 1))
        (s.widx + 1 - 32) c' (omega (arith, w)) (omega (arith, w)))
  where
    numbered : (m : Rdram) (g : Regs) (n : ℕ) → (event_of m g n).seq ≡ n
    numbered m g n = refl

    next :
        (t : Script) (ev : ScriptDispatchEvent)
        → t.widx + 1 < 2 ^ 64
        → (store_event t ev).widx ≡ t.widx + 1
    next t ev lt = omega arith

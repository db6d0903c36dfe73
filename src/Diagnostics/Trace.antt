-- ===== src/Diagnostics/Trace.antt =====
-- The function-name ring of src/main/diagnostics.cpp (`pkmnstadium_trace_push`, `_at`, `_write_idx`).
use pocket_monsters_stadium.Prelude.{
  ℕ, ◌+◌, ◌%◌, ◌^◌, ◌≤◌, ◌<◌, ◌≡◌, refl, ◌∙◌, Bool, List, [], ◌∷◌, Option, none, arith, ◌==◌,
  if◌then◌else◌, Bytes, length, ◌&&◌, not,
}

-- kTraceCap
abbrev pub trace_cap : ℕ
trace_cap = 4096

-- `name` is `none` for a null pointer.
pub record TraceNameEvent : Type 0 where
  pub name : Option Bytes
  pub thread : ℕ
  pub thread_id : ℕ

-- g_trace_ring and g_trace_widx
pub record Trace : Type 0 where
  pub ring : ℕ → TraceNameEvent
  pub widx : ℕ

abbrev pub unwritten : TraceNameEvent
unwritten = record { name = none; thread = 0; thread_id = 0 }

abbrev pub start : Trace
start = record { ring = λ i. unwritten; widx = 0 }

-- `self` is ultramodern's this_thread(), 0 outside a game thread; `has_rdram` tells whether the
-- runtime's RDRAM is set; `id` is the field of the thread's OSThread.
unfoldable pub current_trace_name_event : Option Bytes → ℕ → Bool → (ℕ → ℕ) → TraceNameEvent
current_trace_name_event name self has_rdram id =
    if not (self == 0) && has_rdram
    then record { name = name; thread = self; thread_id = id self % 2 ^ 16 }
    else record { name = name; thread = 0; thread_id = 0 }

-- `g_trace_ring[i % kTraceCap] = …` at the index that the 64-bit counter held.
unfoldable pub trace_push : Trace → TraceNameEvent → Trace
trace_push t ev = record {
  ring = λ s. if s == t.widx % trace_cap then ev else t.ring s;
  widx = (t.widx + 1) % 2 ^ 64;
}

abbrev pub trace_write_idx : Trace → ℕ
trace_write_idx t = t.widx

unfoldable pub trace_at : Trace → ℕ → TraceNameEvent
trace_at t idx = t.ring (idx % trace_cap)

unfoldable pub trace_push_all : Trace → List TraceNameEvent → Trace
trace_push_all t [] = t
trace_push_all t (x ∷ xs) = trace_push_all (trace_push t x) xs

-- Fewer than `trace_cap` pushes leave alone the slot `s` that lies `d` behind the next one.
push_all-keeps :
    (xs : List TraceNameEvent) (t : Trace) (s d : ℕ)
    → s < trace_cap
    → 0 < d
    → d + length xs ≤ trace_cap
    → (s + d) % trace_cap ≡ t.widx % trace_cap
    → (trace_push_all t xs).ring s ≡ t.ring s
unfolding trace_push_all trace_push
push_all-keeps [] t s d hs hd le e = refl
push_all-keeps (x ∷ xs) t s d hs hd le e =
    push_all-keeps xs (trace_push t x) s (d + 1) hs (omega arith) (omega arith) (omega arith)
    ∙ ground arith

-- An event is read at the index at which it was pushed, for as long as fewer than 4096 pushes came
-- after it.
pub trace_at-trace_push :
    (t : Trace) (ev : TraceNameEvent) (later : List TraceNameEvent)
    → length later < trace_cap
    → trace_at (trace_push_all (trace_push t ev) later) (trace_write_idx t) ≡ ev
unfolding trace_at trace_push
trace_at-trace_push t ev later h =
    push_all-keeps later (trace_push t ev) (t.widx % trace_cap) 1 (omega arith) (omega arith)
      (omega arith) (omega arith)
    ∙ ground arith

-- ===== src/Tests/Diagnostics.antt =====
-- The rings, the reports and the memory scan at concrete inputs.
use pocket_monsters_stadium.Prelude.{
  ℕ, ◌+◌, ◌-◌, ◌%◌, ◌≡◌, ◌&&◌, ◌||◌, min, ap, refl, true, List, [], ◌∷◌, none, some, arith, Bytes,
  codes, ltb, ◌==◌, if◌then◌else◌,
}
use pocket_monsters_stadium.Memory.{Rdram, rdram_range}
use pocket_monsters_stadium.Diagnostics.Trace.{
  Trace, TraceNameEvent, start, trace_push_all, trace_write_idx,
}
use pocket_monsters_stadium.Diagnostics.Script.{
  ScriptDispatchEvent, Regs, Script, Keeps, event_of, script_dispatch, script_dispatch_recent,
  reported, events_from, extended,
}
use pocket_monsters_stadium.Diagnostics.Threads.{IsTable, append_unique, append_unique-IsTable}
use pocket_monsters_stadium.Diagnostics.Report.{window}
use pocket_monsters_stadium.Diagnostics.Runs.{
  expand, function_ring, retained, IsNumbered, function_ring_lem,
}
use pocket_monsters_stadium.Census.MemScan.{Hit, memscan, AreHits, memscan_lem}
use pocket_monsters_stadium.Census.Probe.{
  Cands, Args, pc_of, cand_upsert, lookup-cand_upsert, counted, has_unused, is_there,
}
use pocket_monsters_stadium.Census.Slots.{lookup}

abbrev blank : Rdram
blank a = 0

abbrev ev : Bytes → TraceNameEvent
ev name = record { name = some name; thread = 0; thread_id = 0 }

abbrev pushed : Trace
pushed = trace_push_all start (ev (codes "a") ∷ ev (codes "a") ∷ ev (codes "b") ∷ [])

function_ring_example :
    (expand (function_ring pushed)
      ≡ window pushed (trace_write_idx pushed - retained pushed) (retained pushed))
    × IsNumbered (trace_write_idx pushed - retained pushed) (function_ring pushed)
function_ring_example = function_ring_lem pushed

-- A history of dispatches, each with a stream of its own, and the ring after the first 200.
abbrev history : ℕ → ScriptDispatchEvent
history i = record {
  seq = i;
  stream = 0x80001000 + i;
  opcode = 1;
  table_addr = 0;
  handler = 0x80000400;
  ra = 0;
  s1_global = 0;
  s2_arg0 = 0;
  a0 = 0;
  a1 = 0;
  v0 = 0;
  bytes = [];
}

abbrev script : Script
script = record { ring = λ i. history (if ltb i 72 then i + 128 else i); widx = 200 }

script-Keeps : Keeps script history
script-Keeps i lt le =
    let at : (if ltb (i % 128) 72 then i % 128 + 128 else i % 128) ≡ i = ground arith in
    (ap history at, refl)

abbrev jumps_to_zero : Regs
jumps_to_zero = record {
  r2 = 0;
  r4 = 0;
  r5 = 0;
  r14 = 0x1FF;
  r16 = 0x80001000;
  r17 = 0;
  r18 = 0;
  r24 = 0;
  r25 = 0;
  r31 = 0;
}

recent_example :
    reported (script_dispatch true none blank jumps_to_zero script).1
    ≡ events_from
        (extended history 200 (event_of blank jumps_to_zero 200))
        (200 + 1 - 32)
        (min 32 (200 + 1))
recent_example =
    script_dispatch_recent none blank jumps_to_zero script history (omega arith) script-Keeps refl

append_unique_example : IsTable 96 (append_unique 96 (0x80001000 ∷ []) 0x80002000)
unfolding append_unique rdram_range
append_unique_example =
    append_unique-IsTable 96 0x80002000 (0x80001000 ∷ [])
      (record { guest = (refl, tt); distinct = (refl, tt); fits = omega arith })

memscan_example :
    (hits : List Hit) × (memscan blank 6 ≡ some hits)
    × AreHits blank (if ltb 6 4 then 4 else 6) 0 hits
memscan_example = memscan_lem blank 6

abbrev two_slots : Cands
two_slots = none ∷ none ∷ []

abbrev call : Args
call = record { ra = 0x80010000; a0 = 10; a1 = 20; a2 = 0x80001000 }

cand_upsert_example :
    lookup pc_of 0x8001A944 (cand_upsert two_slots 0x8001A944 call (codes "Hi")) ≡ (
      if 0x8001A944 == 0x8001A944
        && (is_there (lookup pc_of 0x8001A944 two_slots) || has_unused two_slots)
      then some (counted call (codes "Hi") two_slots 0x8001A944)
      else lookup pc_of 0x8001A944 two_slots)
cand_upsert_example = lookup-cand_upsert two_slots 0x8001A944 0x8001A944 call (codes "Hi")

-- ===== src/Debug/Answer.antt =====
-- The commands of src/main/debug_server.cpp, and the values that handling one takes and gives. A reply
-- that is printed from values is given by these values, every other one by its text.
use pocket_monsters_stadium.Prelude.Int.{ℤ}
use pocket_monsters_stadium.Prelude.{
  ℕ, Bool, List, [], ◌∷◌, Option, none, some, if◌then◌else◌, Bytes, codes, bytes_eq,
}
use pocket_monsters_stadium.Memory.{Rdram}
use pocket_monsters_stadium.Debug.Overrides.{State}
use pocket_monsters_stadium.Debug.Sched.{SchedEvent, ThreadSum}
use pocket_monsters_stadium.Debug.Mesg.{MesgEvent, QState}

-- The commands, in the order of the tests.
pub data Verb : Type 0 where
  ping status set_button_verb set_stick_verb clear_input_verb forward_verb volume_verb : Verb
  text_dump string_dump font_dump mem_scan sections_dump lookup_probe jit_test jit_evict : Verb
  site_probe memory_read trace_dump cart_dump sched_dump mesg_dump quit : Verb

abbrev pub verbs : List (Bytes × Verb)
verbs =
    (codes "ping", ping)
    ∷ (codes "status", status)
    ∷ (codes "set_button", set_button_verb)
    ∷ (codes "set_stick", set_stick_verb)
    ∷ (codes "clear_input", clear_input_verb)
    ∷ (codes "fast_forward", forward_verb)
    ∷ (codes "set_volume", volume_verb)
    ∷ (codes "textdump", text_dump)
    ∷ (codes "stringdump", string_dump)
    ∷ (codes "fontdump", font_dump)
    ∷ (codes "memscan", mem_scan)
    ∷ (codes "dump_sections", sections_dump)
    ∷ (codes "probe_lookup", lookup_probe)
    ∷ (codes "jit_test", jit_test)
    ∷ (codes "jit_evict_all", jit_evict)
    ∷ (codes "probe_pointer_site", site_probe)
    ∷ (codes "read_mem", memory_read)
    ∷ (codes "tracedump", trace_dump)
    ∷ (codes "gbcart_dump", cart_dump)
    ∷ (codes "dump_sched", sched_dump)
    ∷ (codes "dump_mesg", mesg_dump)
    ∷ (codes "quit", quit)
    ∷ []

unfoldable pub verb_in : List (Bytes × Verb) → Bytes → Option Verb
verb_in [] cmd = none
verb_in ((name, v) ∷ vs) cmd =
    let rest = verb_in vs cmd in if bytes_eq cmd name then some v else rest

-- recomp_debug_jit_test's answer.
pub record Jit : Type 0 where
  pub ok : Bool
  pub func_size : ℕ
  pub code_size : ℕ
  pub err : Bytes

-- What the runtime answers while a line is handled, and whether a file can be opened.
pub record Runtime : Type 0 where
  pub vi_ticks : ℕ
  pub frame_count : ℕ
  pub rdram : Option Rdram
  pub lookup_missed : ℕ → Bool
  pub jit : ℕ → Jit
  pub evicted : ℤ
  pub pointer_site : ℕ × Bool
  pub sched_size_fits : Bool
  pub sched_events : List SchedEvent
  pub sched_next : ℕ
  pub mesg_size_fits : Bool
  pub mesg_events : List MesgEvent
  pub mesg_next : ℕ
  pub qstate_size_fits : Bool
  pub qstates : List QState
  pub opens : Bool

-- The calls into the rest of the program, and the files written.
pub data Effect : Type 0 where
  textdraw_dump stringdump fontdump dump_sections evict_all exit_process : Effect
  memscan : ℕ → Effect
  ultra_trace : Bytes → Effect
  ring_dump : ℤ → Effect
  write_memory : Bytes → Effect
  write_sched : List ThreadSum → List SchedEvent → Effect
  write_mesg : ℕ → List (QState × List MesgEvent) → List MesgEvent → Effect

-- The server's globals.
pub record Server (F : Type 0) : Type 0 where
  pub overrides : State
  pub volume : F

pub data Reply (F : Type 0) : Type 0 where
  text : Bytes → Reply F
  status_reply : ℕ → ℕ → State → F → Reply F
  missed_reply : ℕ → Bool → Reply F
  jit_reply : ℕ → Jit → Reply F
  evicted_reply : ℤ → Reply F
  memory_reply : ℕ → ℕ → Bytes → Reply F
  sched_reply : ℕ → ℕ → ℕ → Reply F
  mesg_reply : ℕ → ℕ → ℕ → ℕ → Reply F

pub record Answer (F : Type 0) : Type 0 where
  pub server : Server F
  pub reply : Reply F
  pub effects : List Effect

-- strtof, the clamp to 0..1, the constants 1 and 24, and the conversion to unsigned int.
pub record Floats (F : Type 0) : Type 0 where
  pub strtof : Bytes → F
  pub unit_clamp : F → F
  pub one : F
  pub twenty_four : F
  pub to_uint : F → ℕ

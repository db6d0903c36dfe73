-- ===== src/Debug/Handle.antt =====
-- `handle_line` of src/main/debug_server.cpp as a whole: every command, its reply and what it calls.
-- The runtime's answers, strtof and the operations on floats are parameters.
use pocket_monsters_stadium.Libc.{strtol, strtoul}
use pocket_monsters_stadium.Prelude.Int.{ℤ, pos, leb_ℤ}
use pocket_monsters_stadium.Prelude.{
  ℕ, ◌+◌, ◌||◌, Bool, true, false, not, ◌&&◌, List, [], ◌∷◌, ◌++◌, Option, none, some, map, leb,
  ltb, ◌==◌, if◌then◌else◌, Bytes, codes, bytes_eq, length, take, drop,
}
use pocket_monsters_stadium.Memory.{Rdram}
use pocket_monsters_stadium.Debug.Request.{trim, field, get_str, get_cmd}
use pocket_monsters_stadium.Debug.Overrides.{
  State, set_button, set_stick, clear_input, fast_forward,
}
use pocket_monsters_stadium.Debug.Framing.{client_loop}
use pocket_monsters_stadium.Debug.ReadMem.{read_mem, read_len, read_addr}
use pocket_monsters_stadium.Debug.Sched.{SchedEvent, ThreadSum, sum_events}
use pocket_monsters_stadium.Debug.Mesg.{MesgEvent, QState, queue_table, full_drops, raw_events}
use pocket_monsters_stadium.Debug.Sched
use pocket_monsters_stadium.Debug.Mesg
use pocket_monsters_stadium.Debug.Answer.{
  Verb, ping, status, set_button_verb, set_stick_verb, clear_input_verb, forward_verb, volume_verb,
  text_dump, string_dump, font_dump, mem_scan, sections_dump, lookup_probe, jit_test, jit_evict,
  site_probe, memory_read, trace_dump, cart_dump, sched_dump, mesg_dump, quit, verbs, verb_in, Jit,
  Runtime, Effect, textdraw_dump, stringdump, fontdump, dump_sections, evict_all, exit_process,
  memscan, ultra_trace, ring_dump, write_memory, write_sched, write_mesg, Server, Reply, text,
  status_reply, missed_reply, jit_reply, evicted_reply, memory_reply, sched_reply, mesg_reply,
  Answer, Floats,
}
pub mod Frame

abbrev pub float_from : {F : Type 0} → Floats F → F → Option Bytes → F
float_from fl dflt none = dflt
float_from fl dflt (some v) = fl.strtof v

unfoldable pub get_float : {F : Type 0} → Floats F → Bytes → Bytes → F → F
unfolding field
get_float fl body key dflt = float_from fl dflt (field body key)

abbrev pub ok_text : {F : Type 0} → Reply F
ok_text = text (codes "{\"ok\":true}")

abbrev pub refused : {F : Type 0} → Bytes → Reply F
refused why = text (codes "{\"ok\":false,\"error\":\"" ++ why ++ codes "\"}")

abbrev pub wrote : {F : Type 0} → Bytes → Reply F
wrote file = text (codes "{\"ok\":true,\"wrote\":\"" ++ file ++ codes "\"}")

-- A quote or a backslash is printed as an apostrophe.
abbrev pub plain : ℕ → ℕ
plain c = if c == b'"' || c == b'\\' then 0x27 else c

abbrev pub or_manual : Bytes → Bytes
or_manual [] = codes "manual"
or_manual (c ∷ cs) = c ∷ cs

abbrev pub or_tail : ℕ → ℕ → ℕ
or_tail dflt n = if n == 0 then dflt else n

-- The part of a request that read_mem prints: its first 64 bytes.
abbrev pub preview : Bytes → Bytes
preview b = take 64 b

abbrev pub if_opens : Bool → Effect → List Effect
if_opens opens e = if opens then e ∷ [] else []

module _ {F : Type 0} (fl : Floats F) (rt : Runtime) (line : Bytes) (s : Server F) where
  abbrev only : Reply F → Answer F
  only r = record { server = s; reply = r; effects = [] }

  abbrev calls : Effect → Reply F → Answer F
  calls e r = record { server = s; reply = r; effects = e ∷ [] }

  abbrev with_overrides : State → Answer F
  with_overrides o = record { server = record s { overrides = o }; reply = ok_text; effects = [] }

  -- `strtoul(get_str(line, key))`, with what stands for 0
  abbrev number_or : ℕ → Bytes → ℕ
  number_or dflt key = or_tail dflt (strtoul (get_str line key) 0)

  abbrev pub read_reply : Option Bytes → Answer F
  read_reply none = only (refused (codes "addr out of range"))
  read_reply (some b) = record {
    server = s;
    reply = memory_reply (read_addr line) (read_len line) (preview b);
    effects = if_opens rt.opens (write_memory b);
  }

  unfoldable pub handle_read_mem : Option Rdram → Answer F
  unfolding read_mem read_len read_addr
  handle_read_mem none = only (refused (codes "rdram unavailable"))
  handle_read_mem (some ram) = read_reply (read_mem ram line)

  unfoldable pub handle_sched : Answer F
  unfolding sum_events Sched.raw_start
  handle_sched =
      let es = rt.sched_events in
      let sums = sum_events es [] in
      let start = Sched.raw_start (length es) (number_or 600 (codes "tail")) in
      if rt.sched_size_fits
      then (record {
        server = s;
        reply = sched_reply (length es) (length sums) rt.sched_next;
        effects = if_opens rt.opens (write_sched sums (drop start es));
      })
      else only (refused (codes "sched event size mismatch"))

  unfoldable pub handle_mesg : Answer F
  unfolding queue_table full_drops raw_events
  handle_mesg =
      let es = rt.mesg_events in
      let filt = strtoul (get_str line (codes "mq")) 0 in
      let shown = raw_events es (number_or 400 (codes "tail")) filt in
      let table = if rt.qstate_size_fits then queue_table filt rt.qstates else [] in
      if not rt.mesg_size_fits
      then only (refused (codes "mesg event size mismatch"))
      else if rt.opens
      then (record {
        server = s;
        reply = mesg_reply (length es) (length shown) (full_drops es) rt.mesg_next;
        effects = write_mesg (full_drops es) table shown ∷ [];
      })
      else only (mesg_reply (length es) 0 0 rt.mesg_next)

  unfoldable pub handle_verb : Verb → Answer F
  unfolding get_float set_button set_stick clear_input fast_forward handle_read_mem handle_sched
      handle_mesg
  handle_verb ping = only (text (codes "{\"ok\":true,\"pong\":true}"))
  handle_verb status = only (status_reply rt.vi_ticks rt.frame_count s.overrides s.volume)
  handle_verb set_button_verb =
      let (o, known) = set_button line s.overrides in
      if known then with_overrides o else only (refused (codes "unknown button"))
  handle_verb set_stick_verb = with_overrides (set_stick line s.overrides)
  handle_verb clear_input_verb = with_overrides (clear_input s.overrides)
  handle_verb forward_verb = with_overrides (fast_forward line s.overrides)
  handle_verb volume_verb = record {
    server = record s { volume = fl.unit_clamp (get_float fl line (codes "value") fl.one) };
    reply = ok_text;
    effects = [];
  }
  handle_verb text_dump = calls textdraw_dump (wrote (codes "textdraw_probe.log"))
  handle_verb string_dump = calls stringdump (wrote (codes "stringdump.log"))
  handle_verb font_dump = calls fontdump (wrote (codes "fontdump.log + font_slotN.i8"))
  handle_verb mem_scan =
      calls (memscan (fl.to_uint (get_float fl line (codes "minlen") fl.twenty_four)))
        (wrote (codes "memscan.log"))
  handle_verb sections_dump = calls dump_sections (wrote (codes "build/loaded_sections.json"))
  handle_verb lookup_probe =
      let addr = strtoul (get_str line (codes "addr")) 0 in
      only (missed_reply addr (rt.lookup_missed addr))
  handle_verb jit_test =
      let addr = strtoul (get_str line (codes "addr")) 0 in
      let j = rt.jit addr in only (jit_reply addr (record j { err = map plain j.err }))
  handle_verb jit_evict = calls evict_all (evicted_reply rt.evicted)
  handle_verb site_probe =
      let (chosen, missed) = rt.pointer_site in only (missed_reply chosen missed)
  handle_verb memory_read = handle_read_mem rt.rdram
  handle_verb trace_dump =
      calls (ultra_trace (or_manual (get_str line (codes "tag"))))
        (wrote (codes "build/last_run_report.txt"))
  handle_verb cart_dump =
      let tail = strtol (get_str line (codes "tail")) 0 in
      calls (ring_dump (if leb_ℤ tail (pos 0) then pos 800 else tail))
        (wrote (codes "build/gbcart_ring.txt"))
  handle_verb sched_dump = handle_sched
  handle_verb mesg_dump = handle_mesg
  -- _Exit: nothing is sent any more.
  handle_verb quit = calls exit_process (text [])

  abbrev handle_known : Option Verb → Answer F
  handle_known none = only (refused (codes "unknown command"))
  handle_known (some v) = handle_verb v

abbrev pub is_empty : Bytes → Bool
is_empty [] = true
is_empty (c ∷ cs) = false

unfoldable pub handle_line : {F : Type 0} → Floats F → Runtime → Bytes → Server F → Answer F
unfolding trim get_cmd verb_in handle_verb
handle_line fl rt raw s =
    let line = trim raw in
    let cmd = get_cmd line in
    if is_empty cmd
    then (record { server = s; reply = refused (codes "empty command"); effects = [] })
    else handle_known fl rt line s (verb_in verbs cmd)

abbrev pub exits : List Effect → Bool
exits (exit_process ∷ es) = true
exits es = false

-- The lines of a client in order, each with the runtime's answers at its time; quit ends the process.
unfoldable pub handle_all :
    {F : Type 0} → Floats F → (ℕ → Runtime) → ℕ → List Bytes → Server F → Server F
unfolding handle_line
handle_all fl rts n [] s = s
handle_all fl rts n (line ∷ ls) s =
    let a = handle_line fl (rts n) line s in
    let rest = handle_all fl rts (n + 1) ls a.server in if exits a.effects then a.server else rest

-- `client_loop` on the bytes received, with the handling of its lines.
unfoldable pub serve : {F : Type 0} → Floats F → (ℕ → Runtime) → Bytes → Server F → Server F
unfolding handle_all client_loop
serve fl rts received s = handle_all fl rts 0 (client_loop [] received).0 s

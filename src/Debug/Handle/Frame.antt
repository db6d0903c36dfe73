-- ===== src/Debug/Handle/Frame.antt =====
-- What a command of src/main/debug_server.cpp can change, and what stays within its range whatever a
-- client sends.
use pocket_monsters_stadium.Prelude.{
  ℕ, ◌+◌, ◌≡◌, refl, Bool, true, false, List, [], ◌∷◌, Option, none, some, if◌then◌else◌, Bytes,
  Bool-cases, inl, inr,
}
use pocket_monsters_stadium.Memory.{Rdram}
use pocket_monsters_stadium.Debug.Request.{trim, get_cmd}
use pocket_monsters_stadium.Debug.Overrides.{
  IsValid, set_button-IsValid, set_stick-IsValid, fast_forward-IsValid, clear_input-IsValid,
}
use pocket_monsters_stadium.Debug.Framing.{client_loop}
use pocket_monsters_stadium.Debug.Answer.{
  Verb, ping, status, set_button_verb, set_stick_verb, clear_input_verb, forward_verb, volume_verb,
  text_dump, string_dump, font_dump, mem_scan, sections_dump, lookup_probe, jit_test, jit_evict,
  site_probe, memory_read, trace_dump, cart_dump, sched_dump, mesg_dump, quit, verbs, verb_in,
  Runtime, Server, Answer, Floats,
}
use pocket_monsters_stadium.Debug.Handle.{
  read_reply, handle_read_mem, handle_sched, handle_mesg, handle_verb, handle_known, handle_line,
  handle_all, serve,
}

-- The commands that set something.
abbrev pub sets : Option Verb → Bool
sets (some set_button_verb) = true
sets (some set_stick_verb) = true
sets (some clear_input_verb) = true
sets (some forward_verb) = true
sets (some volume_verb) = true
sets v = false

module _ {F : Type 0} (fl : Floats F) (rt : Runtime) (line : Bytes) (s : Server F) where
  if_keeps :
      (b : Bool) (x y : Answer F) → x.server ≡ s → y.server ≡ s → (if b then x else y).server ≡ s
  if_keeps true x y h g = h
  if_keeps false x y h g = g

  read_reply_keeps : (o : Option Bytes) → (read_reply fl rt line s o).server ≡ s
  read_reply_keeps none = refl
  read_reply_keeps (some b) = refl

  read_mem_keeps : (o : Option Rdram) → (handle_read_mem fl rt line s o).server ≡ s
  unfolding handle_read_mem
  read_mem_keeps none = refl
  read_mem_keeps (some ram) = read_reply_keeps _

  sched_keeps : (handle_sched fl rt line s).server ≡ s
  unfolding handle_sched
  sched_keeps = if_keeps _ _ _ refl refl

  mesg_keeps : (handle_mesg fl rt line s).server ≡ s
  unfolding handle_mesg
  mesg_keeps = elim (Bool-cases rt.mesg_size_fits) [
    | inl fits ↦ elim (Bool-cases rt.opens) [
      | inl o ↦ rw (fits, o) refl
      | inr o ↦ rw (fits, o) refl
    ]
    | inr fits ↦ rw fits refl
  ]

  verb_keeps : (v : Verb) → sets (some v) ≡ false → (handle_verb fl rt line s v).server ≡ s
  unfolding handle_verb
  verb_keeps ping h = refl
  verb_keeps status h = refl
  verb_keeps set_button_verb h = absurd cc
  verb_keeps set_stick_verb h = absurd cc
  verb_keeps clear_input_verb h = absurd cc
  verb_keeps forward_verb h = absurd cc
  verb_keeps volume_verb h = absurd cc
  verb_keeps text_dump h = refl
  verb_keeps string_dump h = refl
  verb_keeps font_dump h = refl
  verb_keeps mem_scan h = refl
  verb_keeps sections_dump h = refl
  verb_keeps lookup_probe h = refl
  verb_keeps jit_test h = refl
  verb_keeps jit_evict h = refl
  verb_keeps site_probe h = refl
  verb_keeps memory_read h = read_mem_keeps rt.rdram
  verb_keeps trace_dump h = refl
  verb_keeps cart_dump h = refl
  verb_keeps sched_dump h = sched_keeps
  verb_keeps mesg_dump h = mesg_keeps
  verb_keeps quit h = refl

  known_keeps : (v : Option Verb) → sets v ≡ false → (handle_known fl rt line s v).server ≡ s
  known_keeps none h = refl
  known_keeps (some v) h = verb_keeps v h

-- A line whose command is none of the five that set something leaves the input override, fast
-- forward and the volume as they are, also when it is unknown or empty.
pub handle_line_keeps :
    {F : Type 0} (fl : Floats F) (rt : Runtime) (raw : Bytes) (s : Server F)
    → sets (verb_in verbs (get_cmd (trim raw))) ≡ false
    → (handle_line fl rt raw s).server ≡ s
unfolding handle_line
handle_line_keeps fl rt raw s h =
    if_keeps fl rt (trim raw) s _ _ _ refl (known_keeps fl rt (trim raw) s _ h)

-- The override is valid, and the volume has what the clamp gives.
pub record Holds {F : Type 0} (InUnit : F → Type 0) (s : Server F) : Type 0 where
  pub overrides : IsValid s.overrides
  pub volume : InUnit s.volume

module _ {F : Type 0} (fl : Floats F) (InUnit : F → Type 0)
    (clamped : (x : F) → InUnit (fl.unit_clamp x)) where
  if_Holds :
      (b : Bool) (x y : Answer F)
      → Holds InUnit x.server
      → Holds InUnit y.server
      → Holds InUnit (if b then x else y).server
  if_Holds true x y h g = h
  if_Holds false x y h g = g

  moved : (s t : Server F) → t ≡ s → Holds InUnit s → Holds InUnit t
  moved s t e h = rw e h

  verb-Holds :
      (rt : Runtime) (line : Bytes) (s : Server F) (v : Verb)
      → Holds InUnit s
      → Holds InUnit (handle_verb fl rt line s v).server
  unfolding handle_verb
  verb-Holds rt line s set_button_verb h =
      if_Holds _ _ _
        (record { overrides = set_button-IsValid line s.overrides h.overrides; volume = h.volume })
        h
  verb-Holds rt line s set_stick_verb h = record {
    overrides = set_stick-IsValid line s.overrides h.overrides;
    volume = h.volume;
  }
  verb-Holds rt line s clear_input_verb h = record {
    overrides = clear_input-IsValid s.overrides;
    volume = h.volume;
  }
  verb-Holds rt line s forward_verb h = record {
    overrides = fast_forward-IsValid line s.overrides h.overrides;
    volume = h.volume;
  }
  verb-Holds rt line s volume_verb h = record { overrides = h.overrides; volume = clamped _ }
  verb-Holds rt line s v h = moved s _ (verb_keeps fl rt line s v refl) h

  known-Holds :
      (rt : Runtime) (line : Bytes) (s : Server F) (v : Option Verb)
      → Holds InUnit s
      → Holds InUnit (handle_known fl rt line s v).server
  known-Holds rt line s none h = h
  known-Holds rt line s (some v) h = verb-Holds rt line s v h

  line-Holds :
      (rt : Runtime) (raw : Bytes) (s : Server F)
      → Holds InUnit s
      → Holds InUnit (handle_line fl rt raw s).server
  unfolding handle_line
  line-Holds rt raw s h = if_Holds _ _ _ h (known-Holds rt (trim raw) s _ h)

  if_server :
      (b : Bool) (x y : Server F)
      → Holds InUnit x
      → Holds InUnit y
      → Holds InUnit (if b then x else y)
  if_server true x y h g = h
  if_server false x y h g = g

  all-Holds :
      (rts : ℕ → Runtime) (n : ℕ) (ls : List Bytes) (s : Server F)
      → Holds InUnit s
      → Holds InUnit (handle_all fl rts n ls s)
  unfolding handle_all
  all-Holds rts n [] s h = h
  all-Holds rts n (line ∷ ls) s h =
      let next = line-Holds (rts n) line s h in
      if_server _ _ _ next (all-Holds rts (n + 1) ls _ next)

  -- Whatever bytes a client sends and whatever the runtime answers, the override stays a button word
  -- and a stick within its range, and the volume stays within what the clamp gives.
  pub serve-Holds :
      (rts : ℕ → Runtime) (received : Bytes) (s : Server F)
      → Holds InUnit s
      → Holds InUnit (serve fl rts received s)
  unfolding serve
  serve-Holds rts received s h = all-Holds rts 0 (client_loop [] received).0 s h

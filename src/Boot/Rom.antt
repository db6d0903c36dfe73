-- ===== src/Boot/Rom.antt =====
-- Which ROM the game starts with (`main` of src/main/main.cpp).
use pocket_monsters_stadium.Prelude.{
  ◌≡◌, inl, inr, refl, sym, ap, Bool, true, false, ◌&&◌, not, List, [], ◌∷◌, ◌++◌, Option, none,
  some, ◌==◌, if◌then◌else◌, Bytes, codes, Bool-cases, arith,
}

-- recomp::RomValidationError
pub data RomError : Type 0 where
  good failed_to_open not_a_rom incorrect_rom not_yet incorrect_version other_error : RomError

unfoldable pub err_name : RomError → Bytes
err_name failed_to_open = codes "could not open file"
err_name not_a_rom = codes "not a recognizable N64 ROM"
err_name incorrect_rom = codes "wrong game"
err_name not_yet = codes "not yet supported"
err_name incorrect_version = codes "wrong region/revision"
err_name good = codes "validation error"
err_name other_error = codes "validation error"

-- The file system and librecomp's select_rom; `beside` and `above` are baserom.z64 next to the
-- executable and one directory up.
pub record Disk : Type 0 where
  pub exists : Bytes → Bool
  pub select_rom : Bytes → RomError
  pub beside : Bytes
  pub above : Bytes

abbrev pub is_empty : Bytes → Bool
is_empty [] = true
is_empty (c ∷ cs) = false

-- `argc >= 2 && argv[1] && argv[1][0] != '-'`: the argument's path, if it is taken.
unfoldable pub cli_path : Option Bytes → Option Bytes
cli_path none = none
cli_path (some []) = some []
cli_path (some (c ∷ cs)) = if c == b'-' then none else some (c ∷ cs)

abbrev pub or_blank : Option Bytes → Bytes
or_blank none = []
or_blank (some p) = p

-- `saved` is the first line of rom.cfg.
unfoldable pub from_saved : Disk → Option Bytes → Bytes → Bytes
from_saved d saved path =
    if is_empty path
    then if not (is_empty (or_blank saved)) && d.exists (or_blank saved)
      then or_blank saved
      else path
    else path

unfoldable pub from_legacy : Disk → Bytes → Bytes
from_legacy d path =
    let legacy = if d.exists d.beside then d.beside else d.above in
    if is_empty path then if d.exists legacy then legacy else path else path

unfoldable pub initial_path : Disk → Option Bytes → Option Bytes → Bytes
unfolding from_saved from_legacy
initial_path d cli saved = from_legacy d (from_saved d saved (or_blank cli))

-- How the loop ends: without a ROM, or with the ROM started and what is written to rom.cfg. In either
-- case the errors that were shown.
pub data Outcome : Type 0 where
  no_rom : List RomError → Outcome
  started : Bytes → Option Bytes → List RomError → Outcome

abbrev pub is_good : RomError → Bool
is_good good = true
is_good e = false

-- A ROM that select_rom accepts.
abbrev pub valid : Disk → Bytes → Bool
valid d p = not (is_empty p) && d.exists p && is_good (d.select_rom p)

-- The error that is shown for a path, if one is.
abbrev pub shown : Disk → Bytes → List RomError → List RomError
shown d p errs = if not (is_empty p) && d.exists p then errs ++ (d.select_rom p ∷ []) else errs

abbrev pub saved_path : Bool → Bytes → Option Bytes
saved_path cli p = if cli then none else some p

-- The loop: `picks` are the files that the user will choose before cancelling.
unfoldable pub rom_loop : Disk → Bool → Bytes → List Bytes → List RomError → Outcome
rom_loop d cli path [] errs =
    if valid d path then started path (saved_path cli path) errs else no_rom (shown d path errs)
rom_loop d cli path (p ∷ ps) errs =
    let next = rom_loop d cli p ps (shown d path errs) in
    if valid d path then started path (saved_path cli path) errs else next

abbrev pub is_some : Option Bytes → Bool
is_some none = false
is_some (some p) = true

unfoldable pub resolve_rom : Disk → Option Bytes → Option Bytes → List Bytes → Outcome
unfolding cli_path initial_path rom_loop
resolve_rom d argument saved picks =
    rom_loop d (is_some (cli_path argument)) (initial_path d (cli_path argument) saved) picks []

-- A path that is a ROM as select_rom wants it.
abbrev pub no_error : RomError → Bool
no_error good = true
no_error failed_to_open = false
no_error not_a_rom = false
no_error incorrect_rom = false
no_error not_yet = false
no_error incorrect_version = false
no_error other_error = false

abbrev pub accepted : Disk → Bytes → Bool
accepted d [] = false
accepted d (c ∷ cs) = d.exists (c ∷ cs) && no_error (d.select_rom (c ∷ cs))

is_good_lem : (e : RomError) → is_good e ≡ no_error e
is_good_lem good = refl
is_good_lem failed_to_open = refl
is_good_lem not_a_rom = refl
is_good_lem incorrect_rom = refl
is_good_lem not_yet = refl
is_good_lem incorrect_version = refl
is_good_lem other_error = refl

valid-accepted : (d : Disk) (p : Bytes) → valid d p ≡ accepted d p
valid-accepted d [] = refl
valid-accepted d (c ∷ cs) = ap (λ b. d.exists (c ∷ cs) && b) (is_good_lem (d.select_rom (c ∷ cs)))

-- Whether the command line gives a path: any first argument that does not begin with a dash.
abbrev pub on_command_line : Option Bytes → Bool
on_command_line none = false
on_command_line (some []) = true
on_command_line (some (c ∷ cs)) = not (c == b'-')

abbrev pub first_existing : Disk → List Bytes → Bytes
first_existing d [] = []
first_existing d (p ∷ ps) = if d.exists p then p else first_existing d ps

-- The places to look at when the command line gives none: rom.cfg if it names one, and the two of the
-- development layout.
abbrev pub places : Disk → Option Bytes → List Bytes
places d none = d.beside ∷ d.above ∷ []
places d (some []) = d.beside ∷ d.above ∷ []
places d (some (c ∷ cs)) = (c ∷ cs) ∷ d.beside ∷ d.above ∷ []

-- The path that is tried first.
abbrev pub first_path : Disk → Option Bytes → Option Bytes → Bytes
first_path d none saved = first_existing d (places d saved)
first_path d (some []) saved = first_existing d (places d saved)
first_path d (some (c ∷ cs)) saved = if c == b'-' then first_existing d (places d saved) else c ∷ cs

legacy_lem : (d : Disk) → from_legacy d [] ≡ first_existing d (d.beside ∷ d.above ∷ [])
unfolding from_legacy
legacy_lem d = elim (Bool-cases (d.exists d.beside)) [ inl e ↦ rw (e, e) | inr e ↦ rw e ]

fallback_lem :
    (d : Disk) (saved : Option Bytes)
    → from_legacy d (from_saved d saved []) ≡ first_existing d (places d saved)
unfolding from_saved
fallback_lem d none = legacy_lem d
fallback_lem d (some []) = legacy_lem d
fallback_lem d (some (c ∷ cs)) = elim (Bool-cases (d.exists (c ∷ cs))) [
  | inl e ↦ rw e (unfold from_legacy in refl)
  | inr e ↦ rw e (legacy_lem d)
]

initial_path_lem :
    (d : Disk) (argument saved : Option Bytes)
    → initial_path d (cli_path argument) saved ≡ first_path d argument saved
unfolding initial_path cli_path
initial_path_lem d none saved = fallback_lem d saved
initial_path_lem d (some []) saved = fallback_lem d saved
initial_path_lem d (some (c ∷ cs)) saved = elim (Bool-cases (c == b'-')) [
  | inl e ↦ rw e (fallback_lem d saved)
  | inr e ↦ rw e (unfold from_saved from_legacy in refl)
]

cli_path_lem : (argument : Option Bytes) → is_some (cli_path argument) ≡ on_command_line argument
unfolding cli_path
cli_path_lem none = refl
cli_path_lem (some []) = refl
cli_path_lem (some (c ∷ cs)) = elim (Bool-cases (c == b'-')) [ inl e ↦ rw e | inr e ↦ rw e ]

-- The ROM with which an outcome starts, and what it leaves in rom.cfg if it writes there.
abbrev pub started_path : Outcome → Option Bytes
started_path (no_rom errs) = none
started_path (started p saved errs) = some p

abbrev pub written : Outcome → Option Bytes
written (no_rom errs) = none
written (started p saved errs) = saved

abbrev pub first_accepted : Disk → List Bytes → Option Bytes
first_accepted d [] = none
first_accepted d (p ∷ ps) = if accepted d p then some p else first_accepted d ps

if_same : (b : Bool) (o : Option Bytes) → (if b then o else o) ≡ o
if_same b o = ground arith

rom_loop_first :
    (d : Disk) (cli : Bool) (ps : List Bytes) (path : Bytes) (errs : List RomError)
    → (started_path (rom_loop d cli path ps errs) ≡ first_accepted d (path ∷ ps))
      × (written (rom_loop d cli path ps errs)
          ≡ (if cli then none else first_accepted d (path ∷ ps)))
unfolding rom_loop
rom_loop_first d cli [] path errs = elim (Bool-cases (accepted d path)) [
  | inl e ↦ rw (valid-accepted d path, e) (refl, refl)
  | inr e ↦ rw (valid-accepted d path, e) (refl, sym (if_same cli none))
]
rom_loop_first d cli (p ∷ ps) path errs = elim (Bool-cases (accepted d path)) [
  | inl e ↦ rw (valid-accepted d path, e) (refl, refl)
  | inr e ↦ rw (valid-accepted d path, e) (rom_loop_first d cli ps p (shown d path errs))
]

-- The game starts with the first ROM that select_rom accepts among the path tried first and the user's
-- choices in their order, and without one only if it accepts none of them. The path tried first is the
-- command line's, else the first that exists of the one in rom.cfg and the two baserom.z64. rom.cfg is
-- written with exactly the ROM started, and not at all if a path was given on the command line.
pub resolve_rom_lem :
    (d : Disk) (argument saved : Option Bytes) (picks : List Bytes)
    → let tried = first_path d argument saved ∷ picks in
      (started_path (resolve_rom d argument saved picks) ≡ first_accepted d tried)
      × (written (resolve_rom d argument saved picks)
          ≡ (if on_command_line argument then none else first_accepted d tried))
unfolding resolve_rom
resolve_rom_lem d argument saved picks =
    rw (sym (cli_path_lem argument), sym (initial_path_lem d argument saved))
      (rom_loop_first d (is_some (cli_path argument)) picks
        (initial_path d (cli_path argument) saved) [])

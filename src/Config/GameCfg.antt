-- ===== src/Config/GameCfg.antt =====
-- The game's reader of launcher.cfg, src/main/launcher_cfg.cpp: the routing of the four ports.
pub mod Ports
use pocket_monsters_stadium.Libc.{to_lower, atoi}
use pocket_monsters_stadium.Prelude.Int.{ℤ, pos, negsuc, leb_ℤ, eqb_ℤ}
use pocket_monsters_stadium.Prelude.{
  ℕ, zero, suc, ◌+◌, Bool, true, false, ◌||◌, not, List, [], ◌∷◌, ◌++◌, Option, none, some, map,
  leb, ltb, ◌==◌, if◌then◌else◌, Bytes, codes, before_byte, after_byte, bytes_eq,
}
use pocket_monsters_stadium.Config.Dict.{Dict, find, assign}
use pocket_monsters_stadium.Config.Lines.{lines, cut_comment, strip}

-- The bytes of `" \t\r\n"`.
abbrev pub blank : ℕ → Bool
blank c = c == b' ' || c == b'\t' || c == b'\r' || c == b'\n'

unfoldable pub trim : Bytes → Bytes
unfolding strip
trim = strip blank

unfoldable pub to_lower_str : Bytes → Bytes
unfolding to_lower
to_lower_str s = map to_lower s

-- `if (!k.empty()) m[k] = v;`
abbrev pub assign_key : Bytes → Bytes → Dict → Dict
assign_key [] v m = m
assign_key (c ∷ k) v m = assign (c ∷ k) v m

-- The key's text, and the value's if there was a '='.
unfoldable pub read_pair : Dict → Bytes → Option Bytes → Dict
unfolding trim to_lower_str assign
read_pair m k none = m
read_pair m k (some v) = assign_key (to_lower_str (trim k)) (trim v) m

-- One line of the file.
unfoldable pub read_line : Dict → Bytes → Dict
unfolding read_pair cut_comment
read_line m line =
    let kept = cut_comment line in read_pair m (before_byte b'=' kept) (after_byte b'=' kept)

unfoldable pub read_lines : Dict → List Bytes → Dict
read_lines m [] = m
read_lines m (l ∷ ls) = read_lines (read_line m l) ls

-- The file's bytes; a file that cannot be opened reads as an empty one.
unfoldable pub read_cfg_map : Bytes → Dict
unfolding read_lines read_line lines
read_cfg_map file = read_lines [] (lines file)

-- None, Keyboard, Gamepad
pub data DeviceKind : Type 0 where
  nothing keyboard gamepad : DeviceKind

pub record PortAssignment : Type 0 where
  pub enabled : Bool
  pub kind : DeviceKind
  pub gamepad_instance : ℤ

abbrev pub unassigned : PortAssignment
unassigned = record { enabled = false; kind = nothing; gamepad_instance = negsuc 0 }

-- The joysticks that SDL reports, in device order: `some id` for a game controller with that instance
-- id, `none` for any other.
abbrev pub Joysticks : Type 0
Joysticks = List (Option ℤ)

unfoldable pub nth_gamepad : ℕ → Joysticks → ℕ → ℤ
nth_gamepad k [] seen = negsuc 0
nth_gamepad k (none ∷ js) seen = nth_gamepad k js seen
nth_gamepad k (some id ∷ js) seen =
    let rest = nth_gamepad k js (seen + 1) in if seen == k then id else rest

unfoldable pub nth_gamepad_instance : ℤ → Joysticks → ℤ
unfolding nth_gamepad
nth_gamepad_instance (negsuc k) js = negsuc 0
nth_gamepad_instance (pos k) js = nth_gamepad k js 0

-- `"p" + std::to_string(n + 1) + suffix` for a port below nine
abbrev pub port_key : ℕ → Bytes → Bytes
port_key n suffix = b'p' ∷ (b'1' + n) ∷ suffix

-- 0 None, 1 Keyboard, 2 Gamepad
unfoldable pub source_of : ℤ → ℕ
source_of dev = if leb_ℤ dev (pos 0) then 0 else if eqb_ℤ dev (pos 1) then 1 else 2

-- Without the key there is no source.
unfoldable pub source_from : Option Bytes → ℕ
unfolding source_of atoi
source_from none = 0
source_from (some v) = source_of (atoi v)

unfoldable pub device_of : Dict → ℕ → ℕ
unfolding find source_from
device_of cfg n = source_from (find (port_key n (codes "_device")) cfg)

abbrev pub given : Option Bytes → Bool
given none = false
given (some v) = not (bytes_eq v [])

unfoldable pub tpak_on : Dict → ℕ → Bool
unfolding find
tpak_on cfg n = given (find (port_key n (codes "_rom")) cfg)

-- The ports below `n` whose device is 2 or more.
unfoldable pub ordinal : Dict → ℕ → ℕ
unfolding device_of
ordinal cfg zero = 0
ordinal cfg (suc n) = ordinal cfg n + (if device_of cfg n == 2 then 1 else 0)

-- The part of `port_assignment` behind the reading of the file.
unfoldable pub assign_port : Dict → Joysticks → ℕ → PortAssignment
unfolding device_of tpak_on ordinal nth_gamepad_instance
assign_port cfg js n =
    let src = device_of cfg n in
    let pa = record unassigned { enabled = not (src == 0) || tpak_on cfg n } in
    if src == 1
    then record pa { kind = keyboard }
    else if src == 2
    then record pa {
      kind = gamepad;
      gamepad_instance = nth_gamepad_instance (pos (ordinal cfg n)) js;
    }
    else pa

-- `none` for a launcher.cfg that does not exist.
unfoldable pub port_assignment : Option Bytes → Joysticks → ℤ → PortAssignment
unfolding assign_port read_cfg_map
port_assignment file js (negsuc n) = unassigned
port_assignment none js (pos n) =
    if n == 0 then record unassigned { enabled = true; kind = keyboard } else unassigned
port_assignment (some file) js (pos n) =
    if ltb 3 n then unassigned else assign_port (read_cfg_map file) js n

-- ===== src/Config/PakCfg.antt =====
-- The Transfer Pak front-end, src/main/transfer_pak.cpp: its own reader of launcher.cfg, the overrides
-- from the environment, and the registration of carts with the engine.
use pocket_monsters_stadium.Libc.{is_space, to_lower}
use pocket_monsters_stadium.Prelude.{
  ℕ, ◌+◌, Bool, true, ◌&&◌, ◌||◌, List, [], ◌∷◌, ◌++◌, Option, none, some, map, ◌==◌, if◌then◌else◌,
  Bytes, codes, before_byte, after_byte,
}
use pocket_monsters_stadium.Config.Dict.{Dict, find, assign}
use pocket_monsters_stadium.Config.Lines.{lines, cut_comment, strip}
use pocket_monsters_stadium.Config.GameCfg.{port_key}

abbrev last_or : ℕ → Bytes → ℕ
last_or d [] = d
last_or d (c ∷ cs) = last_or c cs

abbrev but_last : Bytes → Bytes
but_last [] = []
but_last (c ∷ []) = []
but_last (c ∷ d ∷ cs) = c ∷ but_last (d ∷ cs)

-- `value.substr(1, value.size() - 2)` where both ends are the same quotation mark
unfoldable pub unquote : Bytes → Bytes
unquote [] = []
unquote (c ∷ []) = c ∷ []
unquote (c ∷ d ∷ cs) =
    if c == b'"' && last_or d cs == b'"' || c == b'\'' && last_or d cs == b'\''
    then but_last (d ∷ cs)
    else c ∷ d ∷ cs

unfoldable pub trim : Bytes → Bytes
unfolding strip is_space unquote
trim value = unquote (strip is_space value)

unfoldable pub lower : Bytes → Bytes
unfolding to_lower
lower value = map to_lower value

-- `if (!key.empty() && !value.empty()) values[key] = value;`
abbrev pub assign_both : Bytes → Bytes → Dict → Dict
assign_both [] v m = m
assign_both (c ∷ k) [] m = m
assign_both (c ∷ k) (d ∷ v) m = assign (c ∷ k) (d ∷ v) m

-- The key's text, and the value's if there was a '='.
unfoldable pub read_pair : Dict → Bytes → Option Bytes → Dict
unfolding trim lower assign
read_pair m k none = m
read_pair m k (some v) = assign_both (lower (trim k)) (trim v) m

-- A line behind its comment cut and its trim.
unfoldable pub read_trimmed : Dict → Bytes → Dict
unfolding read_pair
read_trimmed m [] = m
read_trimmed m (c ∷ cs) =
    if c == b'[' then m else read_pair m (before_byte b'=' (c ∷ cs)) (after_byte b'=' (c ∷ cs))

unfoldable pub read_line : Dict → Bytes → Dict
unfolding read_trimmed cut_comment trim
read_line m line = read_trimmed m (trim (cut_comment line))

unfoldable pub read_lines : Dict → List Bytes → Dict
read_lines m [] = m
read_lines m (l ∷ ls) = read_lines (read_line m l) ls

-- A file that cannot be opened reads as an empty one.
unfoldable pub read_config_file : Bytes → Dict
unfolding read_lines read_line lines
read_config_file file = read_lines [] (lines file)

-- What std::filesystem says of a path on the platform.
pub record Paths : Type 0 where
  pub is_relative : Bytes → Bool
  -- `base / path`
  pub join : Bytes → Bytes → Bytes

unfoldable pub make_path : Paths → Bytes → Bytes → Bytes
make_path fs [] base = []
make_path fs (c ∷ cs) base = if fs.is_relative (c ∷ cs) then fs.join base (c ∷ cs) else c ∷ cs

-- The process's surroundings: its environment, its working directory and its executable's.
pub record Surroundings : Type 0 where
  pub getenv : Bytes → Option Bytes
  pub current_path : Bytes
  pub exe_dir : Bytes

-- `"PSR_TRANSFER_PAK_P" + std::to_string(port + 1) + "_" + env_suffix`
abbrev pub env_name : ℕ → Bytes → Bytes
env_name n suffix = codes "PSR_TRANSFER_PAK_P" ++ ((b'1' + n) ∷ b'_' ∷ suffix)

unfoldable pub found_path : Paths → Bytes → Option Bytes → Bytes
unfolding make_path
found_path fs base none = []
found_path fs base (some v) = make_path fs v base

-- The value from the config file, relative to it.
unfoldable pub config_path : Paths → ℕ → Bytes → Dict → Bytes → Bytes
unfolding found_path find
config_path fs n suffix config base = found_path fs base (find (port_key n (b'_' ∷ suffix)) config)

-- A variable that is set and not empty takes the place of the config file's path.
unfoldable pub override : Paths → Bytes → Bytes → Option Bytes → Bytes
unfolding make_path
override fs here path none = path
override fs here path (some []) = path
override fs here path (some (c ∷ cs)) = make_path fs (c ∷ cs) here

unfoldable pub port_path : Paths → Surroundings → ℕ → Bytes → Bytes → Dict → Bytes
unfolding config_path override
port_path fs w n env_suffix config_suffix config =
    override fs w.current_path (config_path fs n config_suffix config w.exe_dir)
      (w.getenv (env_name n env_suffix))

-- A call `set_cart(port, rom, save)` of the engine.
pub record Cart : Type 0 where
  pub port : ℕ
  pub rom : Bytes
  pub save : Bytes

unfoldable pub port_cart : Paths → Surroundings → Dict → ℕ → List Cart
unfolding port_path
port_cart fs w config n = elim (port_path fs w n (codes "ROM") (codes "rom") config) [
  | [] ↦ []
  | c ∷ cs ↦
      record {
        port = n;
        rom = c ∷ cs;
        save = port_path fs w n (codes "SAVE") (codes "save") config;
      }
      ∷ []
]

-- The calls of `set_cart` that `load_config` makes, in order.
unfoldable pub load_config : Paths → Surroundings → Bytes → List Cart
unfolding port_cart read_config_file
load_config fs w file =
    let config = read_config_file file in
    port_cart fs w config 0
    ++ (port_cart fs w config 1 ++ (port_cart fs w config 2 ++ port_cart fs w config 3))

-- `config_once`, and the carts registered with the engine so far.
pub record PakState : Type 0 where
  pub once : Bool
  pub carts : List Cart

unfoldable pub initialize : Paths → Surroundings → Bytes → PakState → PakState
unfolding load_config
initialize fs w file s =
    if s.once then s else record { once = true; carts = s.carts ++ load_config fs w file }

-- `has_pak` is the engine's answer, given the carts registered with it.
unfoldable pub has_transfer_pak :
    (List Cart → ℕ → Bool) → Paths → Surroundings → Bytes → PakState → ℕ → PakState × Bool
unfolding initialize
has_transfer_pak has_pak fs w file s port =
    let s' = initialize fs w file s in (s', has_pak s'.carts port)

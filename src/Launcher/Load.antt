-- ===== src/Launcher/Load.antt =====
-- `load_cfg_into_settings` of src/launcher/pmsj_launcher_main.cpp. The launcher's own trim,
-- to_lower_str and read_cfg_map are the same text as those of src/main/launcher_cfg.cpp.

use pocket_monsters_stadium.Libc.{atoi}
use pocket_monsters_stadium.Prelude.Int.{ℤ, pos, negsuc, leb_ℤ, eqb_ℤ}
use pocket_monsters_stadium.Prelude.{
  ℕ, ◌-◌, Bool, true, false, ◌||◌, Option, none, some, [], ◌∷◌, ◌==◌, if◌then◌else◌, Bytes, codes,
  bytes_eq, take,
}
use pocket_monsters_stadium.Config.Dict.{Dict, find, get}
use pocket_monsters_stadium.Config.GameCfg.{port_key, read_cfg_map, to_lower_str}
use pocket_monsters_stadium.Launcher.Settings.{Player, Settings, Capacities}

unfoldable pub parse_bool : Bytes → Bool → Bool
unfolding to_lower_str
parse_bool v fallback =
    let s = to_lower_str v in
    if bytes_eq s (codes "1")
      || bytes_eq s (codes "on")
      || bytes_eq s (codes "true")
      || bytes_eq s (codes "yes")
    then true
    else if bytes_eq s (codes "0")
        || bytes_eq s (codes "off")
        || bytes_eq s (codes "false")
        || bytes_eq s (codes "no")
    then false
    else fallback

-- std::snprintf into an array of that many bytes: the text is cut to leave room for the NUL.
abbrev pub set_str : ℕ → Bytes → Bytes
set_str capacity src = take (capacity - 1) src

-- The all-zero player that std::memset leaves.
abbrev pub no_player : Player
no_player = record {
  player_src = pos 0;
  tpak_rom_path = [];
  tpak_save_path = [];
  tpak_enabled = pos 0;
}

abbrev pub defaults : Settings
defaults = record {
  player = λ _. no_player;
  enable_audio = pos 1;
  audio_freq = pos 48000;
  volume = pos 100;
  output_method = pos 2;
  window_scale = pos 3;
  renderer = pos 0;
  supersampling = pos 2;
  antialiasing = pos 4;
  fullscreen = pos 0;
  audio_device = [];
  skip_launcher = pos 0;
}

-- The cart of one player: pN_rom, or else pN_rom_off, or none.
unfoldable pub load_pak : Capacities → Dict → ℕ → Player → Bytes → Bytes → Player
unfolding get
load_pak caps cfg n p (c ∷ rom) roff = record p {
  tpak_rom_path = set_str caps.rom_path (c ∷ rom);
  tpak_save_path = set_str caps.save_path (get (port_key n (codes "_save")) cfg);
  tpak_enabled = pos 1;
}
load_pak caps cfg n p [] (c ∷ roff) = record p {
  tpak_rom_path = set_str caps.rom_path (c ∷ roff);
  tpak_save_path = set_str caps.save_path (get (port_key n (codes "_save_off")) cfg);
  tpak_enabled = negsuc 0;
}
load_pak caps cfg n p [] [] = record p { tpak_enabled = pos 0 }

-- `if (there) field = parse(value);`
abbrev pub update {ℓ} : {A : Type ℓ} → A → (Bytes → A) → Option Bytes → A
update old parse none = old
update old parse (some v) = parse v

-- `dev <= 0 ? 0 : (dev == 1 ? 1 : 2)`, and what stood there before without the key.
unfoldable pub load_source : Dict → ℕ → ℤ → ℤ
unfolding find atoi
load_source cfg n old =
    update old
      (λ v.
        if leb_ℤ (atoi v) (pos 0) then pos 0 else if eqb_ℤ (atoi v) (pos 1) then pos 1 else pos 2)
      (find (port_key n (codes "_device")) cfg)

-- The loop body for one player.
unfoldable pub load_player : Capacities → Dict → ℕ → Player
unfolding load_pak load_source
load_player caps cfg n =
    load_pak caps cfg n (record no_player { player_src = load_source cfg n no_player.player_src })
      (get (port_key n (codes "_rom")) cfg) (get (port_key n (codes "_rom_off")) cfg)

-- `if (cfg.count(key)) field = parse(cfg[key]);`
unfoldable pub load_field {ℓ} : {A : Type ℓ} → Dict → Bytes → (Bytes → A) → A → A
unfolding find
load_field cfg key parse old = update old parse (find key cfg)

unfoldable pub parse_api : Bytes → ℤ
unfolding to_lower_str
parse_api v =
    let s = to_lower_str v in
    if bytes_eq s (codes "vulkan")
    then pos 1
    else if bytes_eq s (codes "d3d12")
    then pos 2
    else pos 0

unfoldable pub parse_ss : Bytes → ℤ
unfolding to_lower_str
parse_ss v =
    let s = to_lower_str v in
    if bytes_eq s (codes "off") then pos 1 else if bytes_eq s (codes "4x") then pos 4 else pos 2

unfoldable pub parse_aa : Bytes → ℤ
unfolding to_lower_str
parse_aa v =
    let s = to_lower_str v in
    if bytes_eq s (codes "off")
    then pos 0
    else if bytes_eq s (codes "2x")
    then pos 2
    else if bytes_eq s (codes "8x")
    then pos 8
    else pos 4

abbrev pub flag : Bool → ℤ
flag b = if b then pos 1 else pos 0

unfoldable pub parse_window : Bytes → ℤ
unfolding to_lower_str
parse_window v = flag (bytes_eq (to_lower_str v) (codes "fullscreen"))

unfoldable pub load_settings : Capacities → Dict → Settings
unfolding load_player load_field parse_api parse_ss parse_aa parse_window parse_bool get
load_settings caps cfg = record defaults {
  player = λ n. load_player caps cfg n;
  renderer = load_field cfg (codes "graphics_api") parse_api defaults.renderer;
  supersampling = load_field cfg (codes "supersampling") parse_ss defaults.supersampling;
  antialiasing = load_field cfg (codes "antialiasing") parse_aa defaults.antialiasing;
  fullscreen =
      load_field cfg (codes "window_mode") parse_window
        (load_field cfg (codes "fullscreen") (λ v. flag (parse_bool v false)) defaults.fullscreen);
  audio_device =
      load_field cfg (codes "audio_device") (λ v. set_str caps.audio_device v)
        defaults.audio_device;
  skip_launcher =
      load_field cfg (codes "autoplay") (λ v. flag (parse_bool v false)) defaults.skip_launcher;
}

-- `none` for a launcher.cfg that does not exist: the first run.
unfoldable pub load_cfg_into_settings : Capacities → Option Bytes → Settings
unfolding load_settings read_cfg_map
load_cfg_into_settings caps none = record defaults {
  player = λ n. if n == 0 then record no_player { player_src = pos 1 } else no_player;
}
load_cfg_into_settings caps (some file) = load_settings caps (read_cfg_map file)

-- ===== src/Tests/Launcher.antt =====
-- The launcher's file and its readers at concrete settings.
use pocket_monsters_stadium.Prelude.Int.{pos, negsuc}
use pocket_monsters_stadium.Prelude.{
  ◌≡◌, refl, inl, inr, true, ◌||◌, List, [], ◌∷◌, none, some, arith, codes, if◌then◌else◌, get_or,
}
use pocket_monsters_stadium.Config.Dict.{Dict, find}
use pocket_monsters_stadium.Config.GameCfg.{Joysticks, port_assignment, assign_port, read_cfg_map}
use pocket_monsters_stadium.Config.GameCfg.Ports.{
  controllers, assign_port_lem, chosen_kind, setting, is_text, is_device, is_pad, pads_below,
}
use pocket_monsters_stadium.Config.PakCfg.{
  Paths, Surroundings, port_path, make_path, read_config_file,
}
use pocket_monsters_stadium.Launcher.Settings.{Player, Settings, Capacities}
use pocket_monsters_stadium.Launcher.Write.{write_settings_to_cfg, Item, entry, render}
use pocket_monsters_stadium.Launcher.Load.{defaults, load_cfg_into_settings}
use pocket_monsters_stadium.Launcher.Commit.Items.{AreClean, last_value, any_value, not_empty}
use pocket_monsters_stadium.Launcher.Commit.Keys.{
  key_test, value_test, IsKey-key_test, IsClean-value_test,
}
use pocket_monsters_stadium.Launcher.Commit.Game.{find-read_cfg_map}
use pocket_monsters_stadium.Launcher.Commit.Pak.{find-read_config_file}
use pocket_monsters_stadium.Launcher.Commit.Clean.{IsCleanSettings}
use pocket_monsters_stadium.Launcher.Commit.Ports.{
  is_loaded, committed, port_assignment-commit, port_path-commit,
}
use pocket_monsters_stadium.Launcher.Commit.Routes.{apply-commit}
use pocket_monsters_stadium.Input.Pads.{unrouted, apply_launcher_input_config}
use pocket_monsters_stadium.Launcher.Commit.Reload.{normal_player}
use pocket_monsters_stadium.Launcher.Commit.Options.{IsOffered, Fits, load_cfg_into_settings-commit}

-- Every player has a gamepad and a cart.
abbrev trainer : Player
trainer = record {
  player_src = pos 2;
  tpak_rom_path = codes "carts/red.gb";
  tpak_save_path = codes "carts/red.sav";
  tpak_enabled = pos 1;
}

abbrev chosen : Settings
chosen = record defaults {
  player = λ n. trainer;
  renderer = pos 1;
  antialiasing = pos 8;
  audio_device = codes "USB DAC";
}

chosen-IsClean : IsCleanSettings chosen
unfolding value_test
chosen-IsClean = record {
  players = λ n h. record {
    rom = IsClean-value_test (codes "carts/red.gb") refl;
    save = IsClean-value_test (codes "carts/red.sav") refl;
  };
  audio = IsClean-value_test (codes "USB DAC") refl;
}

chosen-IsOffered : IsOffered chosen
chosen-IsOffered = record {
  renderer = inr (inl refl);
  supersampling = inr (inl refl);
  antialiasing = inr (inr (inr refl));
  fullscreen = inl refl;
  skip_launcher = inl refl;
}

abbrev room : Capacities
room = record { rom_path = 512; save_path = 512; audio_device = 128 }

chosen-Fits : Fits room chosen
chosen-Fits = record { rom = λ n h. omega arith; save = λ n h. omega arith; audio = omega arith }

load_example :
    let t = load_cfg_into_settings room (some (write_settings_to_cfg chosen)) in
    (t.player 1 ≡ normal_player (chosen.player 1))
    × (t.renderer ≡ chosen.renderer)
    × (t.supersampling ≡ chosen.supersampling)
    × (t.antialiasing ≡ chosen.antialiasing)
    × (t.fullscreen ≡ chosen.fullscreen)
    × (t.audio_device ≡ chosen.audio_device)
    × (t.skip_launcher ≡ chosen.skip_launcher)
load_example =
    load_cfg_into_settings-commit room chosen 1 chosen-IsClean chosen-IsOffered chosen-Fits
      (omega arith)

-- A joystick that is no controller, and two controllers.
abbrev pads : Joysticks
pads = none ∷ some (pos 3) ∷ some (pos 5) ∷ []

port_assignment_example :
    let pa = port_assignment (some (write_settings_to_cfg chosen)) pads (pos 1) in
    (pa.enabled ≡ (is_device (committed chosen 1) || is_loaded (chosen.player 1)))
    × (pa.kind ≡ committed chosen 1)
    × (pa.gamepad_instance ≡ (
        if is_pad (committed chosen 1)
        then get_or (controllers pads) (pads_below (committed chosen) 1) (negsuc 0)
        else negsuc 0))
port_assignment_example = port_assignment-commit chosen pads 1 chosen-IsClean (omega arith)

routes_example :
    let t = apply_launcher_input_config (some (write_settings_to_cfg chosen)) pads unrouted in
    (t.launcher_active ≡ true)
    × (t.kind 1 ≡ committed chosen 1)
    × (t.enabled 1 ≡ (is_device (committed chosen 1) || is_loaded (chosen.player 1)))
    × (t.instance_id 1 ≡ (
        if is_pad (committed chosen 1)
        then get_or (controllers pads) (pads_below (committed chosen) 1) (negsuc 0)
        else negsuc 0))
routes_example = apply-commit chosen pads unrouted 1 chosen-IsClean (omega arith)

abbrev relative : Paths
relative = record { is_relative = λ p. true; join = λ base p. base }

abbrev quiet : Surroundings
quiet = record { getenv = λ name. none; current_path = codes "/tmp"; exe_dir = codes "/game" }

port_path_example :
    let config = read_config_file (write_settings_to_cfg chosen) in
    let p = chosen.player 2 in
    (port_path relative quiet 2 (codes "ROM") (codes "rom") config
      ≡ (if is_loaded p then make_path relative p.tpak_rom_path quiet.exe_dir else []))
    × (port_path relative quiet 2 (codes "SAVE") (codes "save") config
        ≡ (if is_loaded p then make_path relative p.tpak_save_path quiet.exe_dir else []))
port_path_example =
    port_path-commit chosen relative quiet 2 chosen-IsClean (omega arith) (λ name. refl)

abbrev two_lines : List Item
two_lines = entry (codes "p1_rom") (codes "red.gb") ∷ entry (codes "p1_rom") (codes "blue.gb") ∷ []

two_lines-AreClean : AreClean two_lines
unfolding key_test value_test
two_lines-AreClean = (
  IsKey-key_test (codes "p1_rom") refl,
  IsClean-value_test (codes "red.gb") refl,
  (IsKey-key_test (codes "p1_rom") refl, IsClean-value_test (codes "blue.gb") refl, tt),
)

find_game_example :
    find (codes "p1_rom") (read_cfg_map (render two_lines))
    ≡ last_value any_value (codes "p1_rom") two_lines
find_game_example = find-read_cfg_map (codes "p1_rom") two_lines two_lines-AreClean

find_pak_example :
    find (codes "p1_rom") (read_config_file (render two_lines))
    ≡ last_value not_empty (codes "p1_rom") two_lines
find_pak_example = find-read_config_file (codes "p1_rom") two_lines two_lines-AreClean

-- Players 1 and 3 use gamepads.
abbrev two_pads : Dict
two_pads = (codes "p1_device", codes "2") ∷ (codes "p3_device", codes "2") ∷ []

assign_port_lem_example :
    let pa = assign_port two_pads pads 2 in
    let kind = chosen_kind two_pads 2 in
    (pa.enabled ≡ (is_device kind || is_text (setting two_pads 2 (codes "_rom"))))
    × (pa.kind ≡ kind)
    × (pa.gamepad_instance ≡ (
        if is_pad kind
        then get_or (controllers pads) (pads_below (chosen_kind two_pads) 2) (negsuc 0)
        else negsuc 0))
assign_port_lem_example = assign_port_lem two_pads pads 2

-- The third port has the second of the two controllers.
assign_port_run : (assign_port two_pads pads 2).gamepad_instance ≡ pos 5
unfolding assign_port
assign_port_run = refl

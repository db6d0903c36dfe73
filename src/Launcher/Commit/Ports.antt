-- ===== src/Launcher/Commit/Ports.antt =====
-- The game and the Transfer Pak front-end on a file that the launcher has committed.
use pocket_monsters_stadium.Libc.{atoi}
use pocket_monsters_stadium.Prelude.Int.{ℤ, pos, negsuc, leb_ℤ, eqb_ℤ}
use pocket_monsters_stadium.Prelude.{
  ℕ, zero, suc, ◌<◌, ◌≤◌, ◌≡◌, refl, sym, ap, get_or, ◌∙◌, [], ◌∷◌, none, some, Bytes, codes, arith,
  Bool, true, false, ◌&&◌, ◌||◌, if◌then◌else◌, Bool-cases, inl, inr, ltb,
}
use pocket_monsters_stadium.Config.Dict.{find}
use pocket_monsters_stadium.Config.GameCfg.{
  port_key, read_cfg_map, port_assignment, Joysticks, DeviceKind,
}
use pocket_monsters_stadium.Config.GameCfg.Ports.{
  assign_port_lem, kind_of_number, kind_of_text, chosen_kind, setting, is_text, is_device, is_pad,
  pads_below, controllers,
}
use pocket_monsters_stadium.Config.PakCfg.{
  read_config_file, Paths, Surroundings, make_path, found_path, override, port_path, config_path,
  env_name,
}
use pocket_monsters_stadium.Launcher.Settings.{Player, Settings}
use pocket_monsters_stadium.Launcher.Load.{load_source}
use pocket_monsters_stadium.Launcher.Write.{
  clamped, source_digit, write_settings_to_cfg, settings_items, player_items,
}
use pocket_monsters_stadium.Launcher.Commit.Items.{last_value, not_empty, any_value}
use pocket_monsters_stadium.Launcher.Commit.Game.{find-read_cfg_map}
use pocket_monsters_stadium.Launcher.Commit.Pak.{find-read_config_file}
use pocket_monsters_stadium.Launcher.Commit.Clean.{IsCleanSettings, AreClean-settings_items}
use pocket_monsters_stadium.Launcher.Commit.Values.{
  last_value-settings_items, device-player_items, rom-player_items, save-player_items,
}

-- The pak of the player is on and has a cart.
abbrev pub is_loaded : Player → Bool
is_loaded p = leb_ℤ (pos 0) p.tpak_enabled && not_empty p.tpak_rom_path

-- The map that the game reads has a player's keys from that player's entries.
pub find-game :
    (s : Settings) (n : ℕ) (suffix : Bytes)
    → IsCleanSettings s
    → n < 4
    → find (port_key n suffix) (read_cfg_map (write_settings_to_cfg s))
      ≡ last_value any_value (port_key n suffix) (player_items n (s.player n))
unfolding write_settings_to_cfg
find-game s n suffix c h =
    find-read_cfg_map (port_key n suffix) (settings_items s) (AreClean-settings_items s c)
    ∙ last_value-settings_items any_value s n suffix h

find-pak :
    (s : Settings) (n : ℕ) (suffix : Bytes)
    → IsCleanSettings s
    → n < 4
    → find (port_key n suffix) (read_config_file (write_settings_to_cfg s))
      ≡ last_value not_empty (port_key n suffix) (player_items n (s.player n))
unfolding write_settings_to_cfg
find-pak s n suffix c h =
    find-read_config_file (port_key n suffix) (settings_items s) (AreClean-settings_items s c)
    ∙ last_value-settings_items not_empty s n suffix h

-- A source as the launcher writes it: 0, 1, or 2 for anything above.
abbrev pub written_source : ℤ → ℤ
written_source (negsuc n) = pos 0
written_source (pos zero) = pos 0
written_source (pos (suc zero)) = pos 1
written_source (pos (suc (suc n))) = pos 2

atoi-source_digit : (x : ℤ) → atoi (source_digit (clamped x)) ≡ written_source x
unfolding atoi
atoi-source_digit (pos zero) = refl
atoi-source_digit (pos (suc zero)) = refl
atoi-source_digit (pos (suc (suc n))) = ap (λ y. atoi (source_digit y)) high
  where
    high : clamped (pos (suc (suc n))) ≡ pos 2
    high = ground arith
atoi-source_digit (negsuc n) = ap (λ y. atoi (source_digit y)) low
  where
    low : clamped (negsuc n) ≡ pos 0
    low = ground arith

kind-written_source : (x : ℤ) → kind_of_number (written_source x) ≡ kind_of_number x
kind-written_source (pos zero) = refl
kind-written_source (pos (suc zero)) = refl
kind-written_source (pos (suc (suc n))) = refl
kind-written_source (negsuc n) = refl

-- The text of a player's source in the file.
find-device :
    (s : Settings) (n : ℕ)
    → IsCleanSettings s
    → n < 4
    → find (port_key n (codes "_device")) (read_cfg_map (write_settings_to_cfg s))
      ≡ some (source_digit (clamped (s.player n).player_src))
find-device s n c h =
    find-game s n (codes "_device") c h ∙ device-player_items any_value (λ _ _. refl) n (s.player n)

-- The launcher's own reading of it.
pub load_source-commit :
    (s : Settings) (n : ℕ) (old : ℤ)
    → IsCleanSettings s
    → n < 4
    → load_source (read_cfg_map (write_settings_to_cfg s)) n old
      ≡ written_source (s.player n).player_src
unfolding load_source
load_source-commit s n old c h =
    rw (find-device s n c h, atoi-source_digit (s.player n).player_src)
      (decoded (s.player n).player_src)
  where
    decoded :
        (x : ℤ)
        → (if leb_ℤ (written_source x) (pos 0)
            then pos 0
            else if eqb_ℤ (written_source x) (pos 1)
            then pos 1
            else pos 2)
          ≡ written_source x
    decoded (pos zero) = refl
    decoded (pos (suc zero)) = refl
    decoded (pos (suc (suc n))) = refl
    decoded (negsuc n) = refl

pub chosen_kind-commit :
    (s : Settings) (n : ℕ)
    → IsCleanSettings s
    → n < 4
    → chosen_kind (read_cfg_map (write_settings_to_cfg s)) n
      ≡ kind_of_number (s.player n).player_src
chosen_kind-commit s n c h =
    ap kind_of_text (find-device s n c h)
    ∙ ap kind_of_number (atoi-source_digit (s.player n).player_src)
    ∙ kind-written_source (s.player n).player_src

is_text-if :
    (b : Bool) (rom : Bytes)
    → is_text (if b && not_empty rom then some rom else none) ≡ (b && not_empty rom)
is_text-if true [] = refl
is_text-if true (c ∷ cs) = refl
is_text-if false rom = refl

pub rom-commit :
    (s : Settings) (n : ℕ)
    → IsCleanSettings s
    → n < 4
    → is_text (setting (read_cfg_map (write_settings_to_cfg s)) n (codes "_rom"))
      ≡ is_loaded (s.player n)
rom-commit s n c h =
    ap is_text
      (find-game s n (codes "_rom") c h ∙ rom-player_items any_value (λ _ _. refl) n (s.player n))
    ∙ is_text-if (leb_ℤ (pos 0) (s.player n).tpak_enabled) (s.player n).tpak_rom_path

-- The device that a player has committed.
abbrev pub committed : Settings → ℕ → DeviceKind
committed s n = kind_of_number (s.player n).player_src

pads_below-commit :
    (s : Settings) (n : ℕ)
    → IsCleanSettings s
    → n ≤ 4
    → pads_below (chosen_kind (read_cfg_map (write_settings_to_cfg s))) n
      ≡ pads_below (committed s) n
pads_below-commit s zero c h = refl
pads_below-commit s (suc n) c h =
    rw (pads_below-commit s n c (omega arith), chosen_kind-commit s n c (omega arith)) refl

-- What the game routes to one of the four ports after the launcher has committed settings whose texts
-- come back as they were written: the port has the player's device, for 0 none, for 1 the keyboard and
-- for 2 and above a gamepad; it responds exactly if it has one or the pak is on and has a cart; and a
-- gamepad is the controller whose rank is the number of players before with a gamepad, if there is one.
pub port_assignment-commit :
    (s : Settings) (js : Joysticks) (n : ℕ)
    → IsCleanSettings s
    → n < 4
    → let pa = port_assignment (some (write_settings_to_cfg s)) js (pos n) in
      (pa.enabled ≡ (is_device (committed s n) || is_loaded (s.player n)))
      × (pa.kind ≡ committed s n)
      × (pa.gamepad_instance ≡ (
          if is_pad (committed s n)
          then get_or (controllers js) (pads_below (committed s) n) (negsuc 0)
          else negsuc 0))
unfolding port_assignment
port_assignment-commit s js n c h =
    let cfg = read_cfg_map (write_settings_to_cfg s) in
    let in_range : ltb 3 n ≡ false = ground arith in
    rw
      (
        in_range,
        sym (chosen_kind-commit s n c h),
        sym (rom-commit s n c h),
        sym (pads_below-commit s n c (omega arith)),
      )
      (assign_port_lem cfg js n)

found_path-rom :
    (fs : Paths) (base : Bytes) (b : Bool) (rom : Bytes)
    → found_path fs base (if b && not_empty rom then some rom else none)
      ≡ (if b && not_empty rom then make_path fs rom base else [])
unfolding found_path
found_path-rom fs base b rom = elim (Bool-cases (b && not_empty rom)) [
  | inl e ↦ rw e refl
  | inr e ↦ rw e refl
]

found_path-save :
    (fs : Paths) (base : Bytes) (b : Bool) (rom save : Bytes)
    → found_path fs base (if b && not_empty rom && not_empty save then some save else none)
      ≡ (if b && not_empty rom then make_path fs save base else [])
unfolding found_path make_path
found_path-save fs base false rom save = refl
found_path-save fs base true [] save = refl
found_path-save fs base true (c ∷ cs) [] = refl
found_path-save fs base true (c ∷ cs) (d ∷ ds) = refl

-- With no variable set, and for settings whose texts come back as they were written, the paths that
-- the Transfer Pak front-end finds for one of the four ports are those that the launcher committed,
-- made relative to the executable's directory, if the pak is on and has a cart, and empty otherwise.
pub port_path-commit :
    (s : Settings) (fs : Paths) (w : Surroundings) (n : ℕ)
    → IsCleanSettings s
    → n < 4
    → ((name : Bytes) → w.getenv name ≡ none)
    → let config = read_config_file (write_settings_to_cfg s) in
      let p = s.player n in
      (port_path fs w n (codes "ROM") (codes "rom") config
        ≡ (if is_loaded p then make_path fs p.tpak_rom_path w.exe_dir else []))
      × (port_path fs w n (codes "SAVE") (codes "save") config
          ≡ (if is_loaded p then make_path fs p.tpak_save_path w.exe_dir else []))
unfolding port_path config_path override
port_path-commit s fs w n c h quiet =
    let p = s.player n in
    let rom = find-pak s n (codes "_rom") c h ∙ rom-player_items not_empty (λ _ _. refl) n p in
    let save = find-pak s n (codes "_save") c h ∙ save-player_items not_empty (λ _ _. refl) n p in
    rw (quiet (env_name n (codes "ROM")), quiet (env_name n (codes "SAVE")))
      (
        ap (found_path fs w.exe_dir) rom
            ∙ found_path-rom fs w.exe_dir (leb_ℤ (pos 0) p.tpak_enabled) p.tpak_rom_path,
        ap (found_path fs w.exe_dir) save
            ∙ found_path-save fs w.exe_dir (leb_ℤ (pos 0) p.tpak_enabled) p.tpak_rom_path
                p.tpak_save_path,
      )

-- ===== src/Launcher/Commit/Reload.antt =====
-- The launcher on a file that it has committed itself.
use mathlib.Core.Option
use mathlib.Core.Path.{ap₂}
use pocket_monsters_stadium.Prelude.Int.{ℤ, pos, negsuc, leb_ℤ}
use pocket_monsters_stadium.Prelude.{
  ℕ, zero, suc, ◌-◌, ◌<◌, ◌≤◌, ◌≡◌, refl, ap, ◌∙◌, [], ◌∷◌, none, some, Bytes, codes, arith, Bool,
  true, false, not, ◌&&◌, if◌then◌else◌, length, take,
}
use pocket_monsters_stadium.Config.Dict.{Dict, get}
use pocket_monsters_stadium.Config.GameCfg.{port_key, read_cfg_map}
use pocket_monsters_stadium.Launcher.Settings.{Player, Settings, Capacities}
use pocket_monsters_stadium.Launcher.Write.{write_settings_to_cfg, player_items}
use pocket_monsters_stadium.Launcher.Load.{set_str, no_player, load_pak, load_source, load_player}
use pocket_monsters_stadium.Launcher.Commit.Items.{last_value, not_empty, any_value}
use pocket_monsters_stadium.Launcher.Commit.Clean.{IsCleanSettings}
use pocket_monsters_stadium.Launcher.Commit.Values.{
  rom-player_items, rom_off-player_items, save-player_items, save_off-player_items,
}
use pocket_monsters_stadium.Launcher.Commit.Ports.{find-game, written_source, load_source-commit}

take-length : (n : ℕ) (s : Bytes) → length s ≤ n → take n s ≡ s
take-length zero [] h = refl
take-length zero (c ∷ cs) h = absurd (omega arith)
take-length (suc n) [] h = refl
take-length (suc n) (c ∷ cs) h = ap (c ∷◌) (take-length n cs (omega arith))

pub set_str-fits : (n : ℕ) (s : Bytes) → length s < n → set_str n s ≡ s
set_str-fits n s h = take-length (n - 1) s (omega arith)

-- What the launcher shows of a player after it has read its own file: the source as a number below
-- three, and without a cart nothing of the pak.
abbrev pub own_pak : Player → Bool → Bytes → Bytes → Player
own_pak p on [] save = p
own_pak p on (c ∷ cs) save = record p {
  tpak_rom_path = c ∷ cs;
  tpak_save_path = save;
  tpak_enabled = if on then pos 1 else negsuc 0;
}

abbrev pub normal_player : Player → Player
normal_player p =
    own_pak (record no_player { player_src = written_source p.player_src })
      (leb_ℤ (pos 0) p.tpak_enabled) p.tpak_rom_path p.tpak_save_path

get-if :
    (b : Bool) (v : Bytes) → Option.get_or (if b then some v else none) [] ≡ (if b then v else [])
get-if true v = refl
get-if false v = refl

kept : (save : Bytes) → (if not_empty save then save else []) ≡ save
kept [] = refl
kept (c ∷ cs) = refl

-- The cart of a player from the four values that the file has for it.
load_pak-own :
    (caps : Capacities) (cfg : Dict) (n : ℕ) (x : ℤ) (on : Bool) (rom save : Bytes)
    → get (port_key n (codes "_save")) cfg
      ≡ (if on && not_empty rom && not_empty save then save else [])
    → get (port_key n (codes "_save_off")) cfg
      ≡ (if not on && not_empty rom && not_empty save then save else [])
    → length rom < caps.rom_path
    → length save < caps.save_path
    → load_pak caps cfg n
        (record no_player { player_src = x })
        (if on && not_empty rom then rom else [])
        (if not on && not_empty rom then rom else [])
      ≡ own_pak (record no_player { player_src = x }) on rom save
unfolding load_pak
load_pak-own caps cfg n x true [] save e f r t = refl
load_pak-own caps cfg n x false [] save e f r t = refl
load_pak-own caps cfg n x true (c ∷ cs) save e f r t =
    ap₂
      (λ a b. record no_player {
        player_src = x;
        tpak_rom_path = a;
        tpak_save_path = b;
        tpak_enabled = pos 1;
      })
      (set_str-fits caps.rom_path (c ∷ cs) r)
      (ap (set_str caps.save_path) (e ∙ kept save) ∙ set_str-fits caps.save_path save t)
load_pak-own caps cfg n x false (c ∷ cs) save e f r t =
    ap₂
      (λ a b. record no_player {
        player_src = x;
        tpak_rom_path = a;
        tpak_save_path = b;
        tpak_enabled = negsuc 0;
      })
      (set_str-fits caps.rom_path (c ∷ cs) r)
      (ap (set_str caps.save_path) (f ∙ kept save) ∙ set_str-fits caps.save_path save t)

get-own :
    (s : Settings) (n : ℕ) (suffix : Bytes) (b : Bool) (v : Bytes)
    → IsCleanSettings s
    → n < 4
    → last_value any_value (port_key n suffix) (player_items n (s.player n))
      ≡ (if b then some v else none)
    → get (port_key n suffix) (read_cfg_map (write_settings_to_cfg s)) ≡ (if b then v else [])
unfolding get
get-own s n suffix b v c h e =
    ap (λ o. Option.get_or o []) (find-game s n suffix c h ∙ e) ∙ get-if b v

pub load_player-commit :
    (caps : Capacities) (s : Settings) (n : ℕ)
    → IsCleanSettings s
    → n < 4
    → length (s.player n).tpak_rom_path < caps.rom_path
    → length (s.player n).tpak_save_path < caps.save_path
    → load_player caps (read_cfg_map (write_settings_to_cfg s)) n ≡ normal_player (s.player n)
unfolding load_player
load_player-commit caps s n c h fr fs =
    let p = s.player n in
    let on = leb_ℤ (pos 0) p.tpak_enabled in
    let cfg = read_cfg_map (write_settings_to_cfg s) in
    let rom = get-own s n (codes "_rom") _ _ c h (rom-player_items any_value (λ _ _. refl) n p) in
    let off =
      get-own s n (codes "_rom_off") _ _ c h (rom_off-player_items any_value (λ _ _. refl) n p) in
    let save =
      get-own s n (codes "_save") _ _ c h (save-player_items any_value (λ _ _. refl) n p) in
    let save_off =
      get-own s n (codes "_save_off") _ _ c h (save_off-player_items any_value (λ _ _. refl) n p) in
    let src = load_source cfg n no_player.player_src in
    ap₂ (load_pak caps cfg n (record no_player { player_src = src })) rom off
    ∙ load_pak-own caps cfg n src on p.tpak_rom_path p.tpak_save_path save save_off fr fs
    ∙ ap (λ d. own_pak (record no_player { player_src = d }) on p.tpak_rom_path p.tpak_save_path)
        (load_source-commit s n no_player.player_src c h)

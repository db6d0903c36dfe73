-- ===== src/Launcher/Commit/Options.antt =====
-- The launcher's options in a file that it has committed itself.
use pocket_monsters_stadium.Prelude.Int.{ℤ, pos, leb_ℤ, eqb_ℤ}
use pocket_monsters_stadium.Prelude.{
  ℕ, ◌<◌, ◌≡◌, ◌⊎◌, refl, ap, ◌∙◌, [], ◌∷◌, ◌++◌, Option, none, some, Bytes, codes, arith, Bool,
  true, false, not, ◌==◌, if◌then◌else◌, inl, inr, length,
}
use pocket_monsters_stadium.Config.Dict.{find}
use pocket_monsters_stadium.Config.GameCfg.{port_key, read_cfg_map, to_lower_str}
use pocket_monsters_stadium.Launcher.Settings.{Player, Settings, Capacities}
use pocket_monsters_stadium.Launcher.Write.{
  write_settings_to_cfg, settings_items, player_items, pak_items, save_item, head_items, tail_items,
  entry, on_off, api_name, ss_name, aa_name,
}
use pocket_monsters_stadium.Launcher.Load.{
  set_str, parse_bool, update, load_field, parse_api, parse_ss, parse_aa, parse_window, flag,
  load_settings, load_cfg_into_settings,
}
use pocket_monsters_stadium.Launcher.Commit.Items.{
  last_value, last_value-append, or_else, any_value,
}
use pocket_monsters_stadium.Launcher.Commit.Game.{find-read_cfg_map}
use pocket_monsters_stadium.Launcher.Commit.Clean.{IsCleanSettings, AreClean-settings_items}
use pocket_monsters_stadium.Launcher.Commit.Reload.{set_str-fits, normal_player, load_player-commit}

-- A key that does not start as a player's.
abbrev is_option_key : Bytes → Bool
is_option_key [] = false
is_option_key (c ∷ cs) = not (b'p' == c)

save_item-none :
    (j k v : Bytes) (n : ℕ)
    → is_option_key j ≡ true
    → last_value any_value j (save_item (port_key n k) v) ≡ none
save_item-none [] k v n h = cc
save_item-none (d ∷ j) k [] n h = refl
save_item-none (d ∷ j) k (c ∷ cs) n h = let e : (b'p' == d) ≡ false = ground arith in rw e

pak_items-none :
    (n : ℕ) (p : Player) (rom j : Bytes)
    → is_option_key j ≡ true
    → last_value any_value j (pak_items n p rom) ≡ none
unfolding pak_items
pak_items-none n p [] j h = refl
pak_items-none n p (c ∷ cs) [] h = cc
pak_items-none n p (c ∷ cs) (d ∷ j) h =
    let on = leb_ℤ (pos 0) p.tpak_enabled in
    let save_key = if on then codes "_save" else codes "_save_off" in
    let e : (b'p' == d) ≡ false = ground arith in
    rw
      (
        last_value-append any_value (d ∷ j) (save_item (port_key n save_key) p.tpak_save_path)
            (entry (port_key n (codes "_tpak")) (on_off on) ∷ []),
        save_item-none (d ∷ j) save_key p.tpak_save_path n h,
        e,
      )
      refl

player_items-none :
    (n : ℕ) (p : Player) (j : Bytes)
    → is_option_key j ≡ true
    → last_value any_value j (player_items n p) ≡ none
unfolding player_items
player_items-none n p [] h = cc
player_items-none n p (d ∷ j) h =
    let e : (b'p' == d) ≡ false = ground arith in
    rw (pak_items-none n p p.tpak_rom_path (d ∷ j) h, e) refl

five :
    (o : Option Bytes)
    → or_else (or_else (or_else (or_else (or_else o none) none) none) none) none ≡ o
five none = refl
five (some v) = refl

-- An option is found with the value that the last lines of the file give it.
find-option :
    (s : Settings) (j : Bytes)
    → IsCleanSettings s
    → is_option_key j ≡ true
    → find j (read_cfg_map (write_settings_to_cfg s)) ≡ last_value any_value j (tail_items s)
unfolding write_settings_to_cfg
find-option s j c h =
    find-read_cfg_map j (settings_items s) (AreClean-settings_items s c) ∙ from_tail
  where
    none_of : (n : ℕ) → last_value any_value j (player_items n (s.player n)) ≡ none
    none_of n = player_items-none n (s.player n) j h

    from_tail : last_value any_value j (settings_items s) ≡ last_value any_value j (tail_items s)
    from_tail =
        let tail = tail_items s in
        let three = player_items 3 (s.player 3) in
        let two = player_items 2 (s.player 2) in
        let one = player_items 1 (s.player 1) in
        let nil = player_items 0 (s.player 0) in
        let first : last_value any_value j head_items ≡ none = unfold head_items in refl in
        let value = last_value any_value j tail in
        unfold settings_items in
        (last_value-append any_value j head_items (nil ++ (one ++ (two ++ (three ++ tail))))
          ∙ rw
              (
                first,
                last_value-append any_value j nil (one ++ (two ++ (three ++ tail))),
                last_value-append any_value j one (two ++ (three ++ tail)),
                last_value-append any_value j two (three ++ tail),
                last_value-append any_value j three tail,
                none_of 0,
                none_of 1,
                none_of 2,
                none_of 3,
              )
              (five value))

-- The options have values that the launcher offers.
pub record IsOffered (s : Settings) : Type 0 where
  pub renderer : (s.renderer ≡ pos 0) ⊎ (s.renderer ≡ pos 1) ⊎ (s.renderer ≡ pos 2)
  pub supersampling :
      (s.supersampling ≡ pos 1) ⊎ (s.supersampling ≡ pos 2) ⊎ (s.supersampling ≡ pos 4)
  pub antialiasing :
      (s.antialiasing ≡ pos 0)
      ⊎ (s.antialiasing ≡ pos 2)
      ⊎ (s.antialiasing ≡ pos 4)
      ⊎ (s.antialiasing ≡ pos 8)
  pub fullscreen : (s.fullscreen ≡ pos 0) ⊎ (s.fullscreen ≡ pos 1)
  pub skip_launcher : (s.skip_launcher ≡ pos 0) ⊎ (s.skip_launcher ≡ pos 1)

-- The texts fit into the launcher's arrays.
pub record Fits (caps : Capacities) (s : Settings) : Type 0 where
  pub rom : (n : ℕ) → n < 4 → length (s.player n).tpak_rom_path < caps.rom_path
  pub save : (n : ℕ) → n < 4 → length (s.player n).tpak_save_path < caps.save_path
  pub audio : length s.audio_device < caps.audio_device

parse_api-api_name : (r : ℤ) → (r ≡ pos 0) ⊎ (r ≡ pos 1) ⊎ (r ≡ pos 2) → parse_api (api_name r) ≡ r
unfolding parse_api to_lower_str
parse_api-api_name r (inl e) = rw e refl
parse_api-api_name r (inr (inl e)) = rw e refl
parse_api-api_name r (inr (inr e)) = rw e refl

parse_ss-ss_name : (r : ℤ) → (r ≡ pos 1) ⊎ (r ≡ pos 2) ⊎ (r ≡ pos 4) → parse_ss (ss_name r) ≡ r
unfolding parse_ss to_lower_str
parse_ss-ss_name r (inl e) = rw e refl
parse_ss-ss_name r (inr (inl e)) = rw e refl
parse_ss-ss_name r (inr (inr e)) = rw e refl

parse_aa-aa_name :
    (r : ℤ) → (r ≡ pos 0) ⊎ (r ≡ pos 2) ⊎ (r ≡ pos 4) ⊎ (r ≡ pos 8) → parse_aa (aa_name r) ≡ r
unfolding parse_aa to_lower_str
parse_aa-aa_name r (inl e) = rw e refl
parse_aa-aa_name r (inr (inl e)) = rw e refl
parse_aa-aa_name r (inr (inr (inl e))) = rw e refl
parse_aa-aa_name r (inr (inr (inr e))) = rw e refl

option :
    (s : Settings) (j v : Bytes)
    → IsCleanSettings s
    → is_option_key j ≡ true
    → last_value any_value j (tail_items s) ≡ some v
    → find j (read_cfg_map (write_settings_to_cfg s)) ≡ some v
option s j v c h e = find-option s j c h ∙ e

flag-on_off :
    (r : ℤ)
    → (r ≡ pos 0) ⊎ (r ≡ pos 1)
    → flag (parse_bool (on_off (not (eqb_ℤ r (pos 0)))) false) ≡ r
unfolding parse_bool to_lower_str
flag-on_off r (inl e) = rw e refl
flag-on_off r (inr e) = rw e refl

parse_window-mode :
    (r : ℤ)
    → (r ≡ pos 0) ⊎ (r ≡ pos 1)
    → parse_window (if eqb_ℤ r (pos 0) then codes "windowed" else codes "fullscreen") ≡ r
unfolding parse_window to_lower_str
parse_window-mode r (inl e) = rw e refl
parse_window-mode r (inr e) = rw e refl

-- The launcher that reads its own file has the settings it had: every option, and of each of the four
-- players the source as a number below three, the cart and the pak's switch. The texts must come back
-- as they were written and fit into the launcher's arrays, and the options be ones that it offers.
pub load_cfg_into_settings-commit :
    (caps : Capacities) (s : Settings) (n : ℕ)
    → IsCleanSettings s
    → IsOffered s
    → Fits caps s
    → n < 4
    → let t = load_cfg_into_settings caps (some (write_settings_to_cfg s)) in
      (t.player n ≡ normal_player (s.player n))
      × (t.renderer ≡ s.renderer)
      × (t.supersampling ≡ s.supersampling)
      × (t.antialiasing ≡ s.antialiasing)
      × (t.fullscreen ≡ s.fullscreen)
      × (t.audio_device ≡ s.audio_device)
      × (t.skip_launcher ≡ s.skip_launcher)
unfolding load_cfg_into_settings load_settings load_field
load_cfg_into_settings-commit caps s n c o f h =
    let cfg = read_cfg_map (write_settings_to_cfg s) in
    (
      load_player-commit caps s n c h (f.rom n h) (f.save n h),
      ap (update (pos 0) parse_api) (
            option s (codes "graphics_api") (api_name s.renderer) c refl
              (unfold tail_items in refl))
          ∙ parse_api-api_name s.renderer o.renderer,
      ap (update (pos 2) parse_ss) (
            option s (codes "supersampling") (ss_name s.supersampling) c refl
              (unfold tail_items in refl))
          ∙ parse_ss-ss_name s.supersampling o.supersampling,
      ap (update (pos 4) parse_aa) (
            option s (codes "antialiasing") (aa_name s.antialiasing) c refl
              (unfold tail_items in refl))
          ∙ parse_aa-aa_name s.antialiasing o.antialiasing,
      ap (update _ parse_window) (
            option s (codes "window_mode")
              (if eqb_ℤ s.fullscreen (pos 0) then codes "windowed" else codes "fullscreen") c refl
              (unfold tail_items in refl))
          ∙ parse_window-mode s.fullscreen o.fullscreen,
      ap (update _ (set_str caps.audio_device))
            (option s (codes "audio_device") (s.audio_device) c refl (unfold tail_items in refl))
          ∙ set_str-fits caps.audio_device s.audio_device f.audio,
      ap (update (pos 0) (λ v. flag (parse_bool v false))) (
            option s (codes "autoplay") (on_off (not (eqb_ℤ s.skip_launcher (pos 0)))) c refl
              (unfold tail_items in refl))
          ∙ flag-on_off s.skip_launcher o.skip_launcher,
    )

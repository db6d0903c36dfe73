-- ===== src/Launcher/Commit/Clean.antt =====
-- The file that the launcher commits can be read back line by line.
use pocket_monsters_stadium.Prelude.Int.{ℤ, pos, leb_ℤ, eqb_ℤ}
use pocket_monsters_stadium.Prelude.{
  ℕ, ◌<◌, ◌≡◌, refl, [], ◌∷◌, ◌++◌, Bytes, codes, arith, Bool, true, false, not, if◌then◌else◌,
}
use pocket_monsters_stadium.Config.GameCfg.{port_key}
use pocket_monsters_stadium.Launcher.Settings.{Player, Settings}
use pocket_monsters_stadium.Launcher.Write.{
  entry, on_off, clamped, source_digit, save_item, pak_items, player_items, head_items, tail_items,
  settings_items, api_name, ss_name, aa_name,
}
use pocket_monsters_stadium.Launcher.Commit.Items.{IsKey, IsClean, AreClean, AreClean-append}
use pocket_monsters_stadium.Launcher.Commit.Keys.{
  AreKeys, port_keys, key_test, value_test, IsKey-key_test, IsClean-value_test, IsClean-if,
}

-- The player's paths come back as they were written.
pub record IsCleanPlayer (p : Player) : Type 0 where
  pub rom : IsClean p.tpak_rom_path
  pub save : IsClean p.tpak_save_path

-- So do all texts of the settings.
pub record IsCleanSettings (s : Settings) : Type 0 where
  pub players : (n : ℕ) → n < 4 → IsCleanPlayer (s.player n)
  pub audio : IsClean s.audio_device

IsClean-on_off : (b : Bool) → IsClean (on_off b)
unfolding value_test
IsClean-on_off b =
    IsClean-if b (IsClean-value_test (codes "on") refl) (IsClean-value_test (codes "off") refl)

IsClean-source_digit : (x : ℤ) → IsClean (source_digit x)
unfolding value_test
IsClean-source_digit x = IsClean-if (eqb_ℤ x (pos 0)) (IsClean-value_test (codes "0") refl) (
    IsClean-if (eqb_ℤ x (pos 1)) (IsClean-value_test (codes "1") refl)
      (IsClean-value_test (codes "2") refl))

IsKey-if :
    (b : Bool) (n : ℕ) {s t : Bytes}
    → IsKey (port_key n s)
    → IsKey (port_key n t)
    → IsKey (port_key n (if b then s else t))
IsKey-if true n p q = p
IsKey-if false n p q = q

AreClean-save_item : (k v : Bytes) → IsKey k → IsClean v → AreClean (save_item k v)
AreClean-save_item k [] p q = tt
AreClean-save_item k (c ∷ cs) p q = (p, q, tt)

AreClean-pak_items :
    (n : ℕ) (p : Player) (rom : Bytes)
    → AreKeys n
    → IsClean rom
    → IsClean p.tpak_save_path
    → AreClean (pak_items n p rom)
unfolding pak_items
AreClean-pak_items n p [] keys r s = tt
AreClean-pak_items n p (c ∷ cs) keys r s =
    let on = leb_ℤ (pos 0) p.tpak_enabled in
    (
      IsKey-if on n keys.rom keys.rom_off,
      r,
      AreClean-append (save_item _ p.tpak_save_path) (entry _ (on_off on) ∷ [])
          (AreClean-save_item _ p.tpak_save_path (IsKey-if on n keys.save keys.save_off) s)
          (keys.tpak, IsClean-on_off on, tt),
    )

AreClean-player_items : (n : ℕ) (p : Player) → n < 4 → IsCleanPlayer p → AreClean (player_items n p)
unfolding player_items
AreClean-player_items n p h c =
    let keys = port_keys n h in
    (
      keys.enabled,
      IsClean-on_off _,
      (
        keys.device,
        IsClean-source_digit (clamped p.player_src),
        AreClean-pak_items n p p.tpak_rom_path keys c.rom c.save,
      ),
    )

AreClean-head_items : AreClean head_items
unfolding head_items
AreClean-head_items = (refl, (refl, (refl, (refl, (refl, (refl, tt))))))

tail_values :
    (s : Settings)
    → IsClean (api_name s.renderer)
      × IsClean (ss_name s.supersampling)
      × IsClean (aa_name s.antialiasing)
unfolding value_test
tail_values s = (
  IsClean-if _ (IsClean-value_test (codes "vulkan") refl) (
      IsClean-if _ (IsClean-value_test (codes "d3d12") refl)
        (IsClean-value_test (codes "auto") refl)),
  IsClean-if _ (IsClean-value_test (codes "off") refl)
      (IsClean-if _ (IsClean-value_test (codes "4x") refl) (IsClean-value_test (codes "2x") refl)),
  IsClean-if _ (IsClean-value_test (codes "off") refl) (
      IsClean-if _ (IsClean-value_test (codes "2x") refl) (
        IsClean-if _ (IsClean-value_test (codes "8x") refl)
          (IsClean-value_test (codes "4x") refl))),
)

AreClean-tail_items : (s : Settings) → IsClean s.audio_device → AreClean (tail_items s)
unfolding tail_items key_test value_test
AreClean-tail_items s audio =
    let (api, ss, aa) = tail_values s in
    let window =
      IsClean-if (eqb_ℤ s.fullscreen (pos 0)) (IsClean-value_test (codes "windowed") refl)
        (IsClean-value_test (codes "fullscreen") refl) in
    let key = λ (k : Bytes) (h : key_test k ≡ true). IsKey-key_test k h in
    (
      refl,
      (
        key (codes "graphics_api") refl,
        api,
        (
          refl,
          (
            key (codes "supersampling") refl,
            ss,
            (
              refl,
              (
                key (codes "antialiasing") refl,
                aa,
                (
                  refl,
                  (
                    key (codes "window_mode") refl,
                    window,
                    (
                      refl,
                      (
                        key (codes "audio_device") refl,
                        audio,
                        (
                          refl,
                          (
                            key (codes "autoplay") refl,
                            IsClean-on_off (not (eqb_ℤ s.skip_launcher (pos 0))),
                            tt,
                          ),
                        ),
                      ),
                    ),
                  ),
                ),
              ),
            ),
          ),
        ),
      ),
    )

pub AreClean-settings_items : (s : Settings) → IsCleanSettings s → AreClean (settings_items s)
unfolding settings_items
AreClean-settings_items s c =
    let tail = tail_items s in
    let three = player_items 3 (s.player 3) in
    let two = player_items 2 (s.player 2) in
    let one = player_items 1 (s.player 1) in
    let c3 = AreClean-append three tail (at 3 (omega arith)) (AreClean-tail_items s c.audio) in
    let c2 = AreClean-append two (three ++ tail) (at 2 (omega arith)) c3 in
    let c1 = AreClean-append one (two ++ (three ++ tail)) (at 1 (omega arith)) c2 in
    AreClean-append head_items (player_items 0 (s.player 0) ++ (one ++ (two ++ (three ++ tail))))
      AreClean-head_items
      (AreClean-append (player_items 0 (s.player 0)) (one ++ (two ++ (three ++ tail)))
        (at 0 (omega arith)) c1)
  where
    at : (n : ℕ) → n < 4 → AreClean (player_items n (s.player n))
    at n h = AreClean-player_items n (s.player n) h (c.players n h)

-- ===== src/Launcher/Write.antt =====
-- `write_settings_to_cfg` of src/launcher/pmsj_launcher_main.cpp.
use pocket_monsters_stadium.Prelude.Int.{ℤ, pos, ltb_ℤ, leb_ℤ, eqb_ℤ}
use pocket_monsters_stadium.Prelude.{ℕ, Bool, not, List, [], ◌∷◌, ◌++◌, if◌then◌else◌, Bytes, codes}
use pocket_monsters_stadium.Config.GameCfg.{port_key}
use pocket_monsters_stadium.Launcher.Settings.{Player, Settings}

-- One line of the file: a comment, or `key=value`.
pub data Item : Type 0 where
  comment : Bytes → Item
  entry : Bytes → Bytes → Item

unfoldable pub item_line : Item → Bytes
item_line (comment t) = b'#' ∷ b' ' ∷ t
item_line (entry k v) = k ++ (b'=' ∷ v)

-- The bytes that the `<<` statements put into the file.
unfoldable pub render : List Item → Bytes
unfolding item_line
render [] = []
render (i ∷ is) = item_line i ++ (b'\n' ∷ render is)

abbrev pub on_off : Bool → Bytes
on_off b = if b then codes "on" else codes "off"

-- The player's source, kept within 0 to 2.
abbrev pub clamped : ℤ → ℤ
clamped src =
    let low = if ltb_ℤ src (pos 0) then pos 0 else src in if ltb_ℤ (pos 2) low then pos 2 else low

-- `<< src`, for a source within 0 to 2
abbrev pub source_digit : ℤ → Bytes
source_digit src =
    if eqb_ℤ src (pos 0) then codes "0" else if eqb_ℤ src (pos 1) then codes "1" else codes "2"

-- `if (sav[0] != '\0') f << …`
abbrev pub save_item : Bytes → Bytes → List Item
save_item k [] = []
save_item k (c ∷ cs) = entry k (c ∷ cs) ∷ []

unfoldable pub pak_items : ℕ → Player → Bytes → List Item
pak_items n p [] = []
pak_items n p (c ∷ cs) =
    let on = leb_ℤ (pos 0) p.tpak_enabled in
    entry (port_key n (if on then codes "_rom" else codes "_rom_off")) (c ∷ cs)
    ∷ (save_item (port_key n (if on then codes "_save" else codes "_save_off")) p.tpak_save_path
        ++ (entry (port_key n (codes "_tpak")) (on_off on) ∷ []))

unfoldable pub player_items : ℕ → Player → List Item
unfolding pak_items
player_items n p =
    let src = clamped p.player_src in
    entry (port_key n (codes "_enabled")) (on_off (not (eqb_ℤ src (pos 0))))
    ∷ (entry (port_key n (codes "_device")) (source_digit src) ∷ pak_items n p p.tpak_rom_path)

abbrev pub api_name : ℤ → Bytes
api_name r =
    if eqb_ℤ r (pos 1)
    then codes "vulkan"
    else if eqb_ℤ r (pos 2)
    then codes "d3d12"
    else codes "auto"

abbrev pub ss_name : ℤ → Bytes
ss_name s =
    if leb_ℤ s (pos 1) then codes "off" else if leb_ℤ (pos 4) s then codes "4x" else codes "2x"

abbrev pub aa_name : ℤ → Bytes
aa_name a =
    if eqb_ℤ a (pos 0)
    then codes "off"
    else if eqb_ℤ a (pos 2)
    then codes "2x"
    else if eqb_ℤ a (pos 8)
    then codes "8x"
    else codes "4x"

unfoldable pub head_items : List Item
head_items =
    comment (codes "PocketMonstersStadiumRecomp launcher configuration - managed by the launcher.")
    ∷ comment (codes "pN_device : input source for player N (0=None, 1=Keyboard, 2=Gamepad).")
    ∷ comment (codes "pN_enabled: whether player N is active (mirrors pN_device != None).")
    ∷ comment (codes "pN_rom / pN_save: the Transfer Pak GB cartridge + save for player N.")
    ∷ comment (codes "  A pak toggled off keeps its cart under pN_rom_off/pN_save_off so")
    ∷ comment (codes "  the emulated Transfer Pak (which reads pN_rom) does not load it.")
    ∷ []

unfoldable pub tail_items : Settings → List Item
tail_items s =
    comment (codes "graphics_api=auto|vulkan|d3d12 : render backend.")
    ∷ entry (codes "graphics_api") (api_name s.renderer)
    ∷ comment (codes "supersampling=off|2x|4x : 3D supersampling depth.")
    ∷ entry (codes "supersampling") (ss_name s.supersampling)
    ∷ comment (codes "antialiasing=off|2x|4x|8x : MSAA sample count.")
    ∷ entry (codes "antialiasing") (aa_name s.antialiasing)
    ∷ comment (codes "window_mode=windowed|fullscreen : how the game window opens.")
    ∷ entry (codes "window_mode")
        (if eqb_ℤ s.fullscreen (pos 0) then codes "windowed" else codes "fullscreen")
    ∷ comment (codes "audio_device : output device name substring (empty = system default).")
    ∷ entry (codes "audio_device") s.audio_device
    ∷ comment (codes "autoplay=on|off : skip the launcher next time (recomp-ui skip flag).")
    ∷ entry (codes "autoplay") (on_off (not (eqb_ℤ s.skip_launcher (pos 0))))
    ∷ []

unfoldable pub settings_items : Settings → List Item
unfolding head_items player_items tail_items
settings_items s =
    head_items
    ++ (player_items 0 (s.player 0)
        ++ (player_items 1 (s.player 1)
            ++ (player_items 2 (s.player 2) ++ (player_items 3 (s.player 3) ++ tail_items s))))

-- The new contents of launcher.cfg.
unfoldable pub write_settings_to_cfg : Settings → Bytes
unfolding settings_items render
write_settings_to_cfg s = render (settings_items s)

-- ===== src/Launcher/Commit/Routes.antt =====
-- The game's routing tables (apply_launcher_input_config of src/main/main.cpp) after it has read a file
-- that the launcher has committed.
use pocket_monsters_stadium.Prelude.Int.{negsuc}
use pocket_monsters_stadium.Prelude.{
  ℕ, ◌<◌, ◌≡◌, refl, ◌∙◌, Bool, true, false, ◌||◌, some, if◌then◌else◌, get_or,
}
use pocket_monsters_stadium.Config.GameCfg.{DeviceKind, nothing, keyboard, gamepad, Joysticks}
use pocket_monsters_stadium.Config.GameCfg.Ports.{is_device, is_pad, pads_below, controllers}
use pocket_monsters_stadium.Input.Pads.{Ports, apply_launcher_input_config}
use pocket_monsters_stadium.Input.Routing.{apply_launcher_input_config_lem}
use pocket_monsters_stadium.Launcher.Settings.{Settings}
use pocket_monsters_stadium.Launcher.Write.{write_settings_to_cfg}
use pocket_monsters_stadium.Launcher.Commit.Clean.{IsCleanSettings}
use pocket_monsters_stadium.Launcher.Commit.Ports.{is_loaded, committed, port_assignment-commit}

-- A port without a device has none when it is disabled either.
enabled_kind : (k : DeviceKind) (pak : Bool) → (if is_device k || pak then k else nothing) ≡ k
enabled_kind nothing true = refl
enabled_kind nothing false = refl
enabled_kind keyboard pak = refl
enabled_kind gamepad pak = refl

-- After the launcher has committed settings whose texts come back as they were written, and the game has
-- applied them, launcher routing is on and each of the four ports has its own player's device: none, the
-- keyboard or a gamepad, and for a gamepad the instance id of the controller whose rank is the number of
-- players before with a gamepad. A port is enabled exactly if it has a device or its pak is on and has a
-- cart. What the tables held before makes no difference.
pub apply-commit :
    (s : Settings) (js : Joysticks) (old : Ports) (n : ℕ)
    → IsCleanSettings s
    → n < 4
    → let t = apply_launcher_input_config (some (write_settings_to_cfg s)) js old in
      (t.launcher_active ≡ true)
      × (t.kind n ≡ committed s n)
      × (t.enabled n ≡ (is_device (committed s n) || is_loaded (s.player n)))
      × (t.instance_id n ≡ (
          if is_pad (committed s n)
          then get_or (controllers js) (pads_below (committed s) n) (negsuc 0)
          else negsuc 0))
apply-commit s js old n c h =
    let (active, e, k, i) =
      apply_launcher_input_config_lem (some (write_settings_to_cfg s)) js old n h in
    let (enabled, kind, instance_id) = port_assignment-commit s js n c h in
    (
      active,
      k ∙ rw (enabled, kind) (enabled_kind (committed s n) (is_loaded (s.player n))),
      e ∙ enabled,
      i ∙ instance_id,
    )

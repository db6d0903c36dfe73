-- ===== src/Input/Routing.antt =====
-- The routing tables after the launcher's configuration has been applied (src/main/main.cpp).
use pocket_monsters_stadium.Prelude.Int.{pos, negsuc}
use pocket_monsters_stadium.Prelude.{
  ℕ, zero, suc, ◌<◌, ◌≡◌, ◌≢◌, refl, sym, ap, ◌∙◌, Bool, true, false, Option, some, arith,
  if◌then◌else◌, Bytes, ltb,
}
use pocket_monsters_stadium.Config.GameCfg.{
  DeviceKind, nothing, gamepad, Joysticks, PortAssignment, port_assignment, assign_port, device_of,
  read_cfg_map,
}
use pocket_monsters_stadium.Config.GameCfg.Ports.{
  controllers, AllDistinct, assign_port_distinct, assign_port_lem, device_of_lem, number_of,
}
use pocket_monsters_stadium.Input.Pads.{Ports, apply_port, apply_launcher_input_config}

-- Applying the configuration turns launcher routing on and gives each of the four ports its own
-- assignment; a disabled port has no device.
pub apply_launcher_input_config_lem :
    (file : Option Bytes) (js : Joysticks) (s : Ports) (n : ℕ)
    → n < 4
    → let t = apply_launcher_input_config file js s in
      let pa = port_assignment file js (pos n) in
      (t.launcher_active ≡ true)
      × (t.enabled n ≡ pa.enabled)
      × (t.kind n ≡ (if pa.enabled then pa.kind else nothing))
      × (t.instance_id n ≡ pa.gamepad_instance)
unfolding apply_launcher_input_config apply_port
apply_launcher_input_config_lem file js s zero h = (refl, refl, refl, refl)
apply_launcher_input_config_lem file js s (suc zero) h = (refl, refl, refl, refl)
apply_launcher_input_config_lem file js s (suc (suc zero)) h = (refl, refl, refl, refl)
apply_launcher_input_config_lem file js s (suc (suc (suc zero))) h = (refl, refl, refl, refl)
apply_launcher_input_config_lem file js s (suc (suc (suc (suc n)))) h = absurd (omega arith)

pub port_assignment-some :
    (file : Bytes) (js : Joysticks) (n : ℕ)
    → n < 4
    → port_assignment (some file) js (pos n) ≡ assign_port (read_cfg_map file) js n
unfolding port_assignment
port_assignment-some file js n h = let in_range : ltb 3 n ≡ false = ground arith in rw in_range refl

if_gamepad : (e : Bool) (k : DeviceKind) → (if e then k else nothing) ≡ gamepad → k ≡ gamepad
if_gamepad true k h = h
if_gamepad false k h = absurd cc

gamepad_device :
    (file : Bytes) (js : Joysticks) (s : Ports) (n : ℕ)
    → n < 4
    → (apply_launcher_input_config (some file) js s).kind n ≡ gamepad
    → device_of (read_cfg_map file) n ≡ 2
gamepad_device file js s n h g =
    let (_, _, k, _) = apply_launcher_input_config_lem (some file) js s n h in
    let pa = assign_port (read_cfg_map file) js n in
    let (_, kind, _) = assign_port_lem (read_cfg_map file) js n in
    let same = port_assignment-some file js n h in
    let moved = sym (ap (λ (p : PortAssignment). if p.enabled then p.kind else nothing) same) in
    device_of_lem (read_cfg_map file) n
    ∙ ap number_of (sym kind ∙ if_gamepad pa.enabled pa.kind (moved ∙ sym k ∙ g))

-- Where the controllers' instance ids are distinct, two of the four ports that the applied
-- configuration makes gamepad ports, the later with a controller, do not share an instance id.
pub instance_id_distinct :
    (file : Bytes) (js : Joysticks) (s : Ports) (a b : ℕ)
    → AllDistinct (controllers js)
    → a < b
    → b < 4
    → (apply_launcher_input_config (some file) js s).kind a ≡ gamepad
    → (apply_launcher_input_config (some file) js s).kind b ≡ gamepad
    → (apply_launcher_input_config (some file) js s).instance_id b ≢ negsuc 0
    → (apply_launcher_input_config (some file) js s).instance_id a
      ≢ (apply_launcher_input_config (some file) js s).instance_id b
instance_id_distinct file js s a b distinct lt hb ga gb bound =
    let cfg = read_cfg_map file in
    let ha : a < 4 = omega arith in
    let (_, _, _, ia) = apply_launcher_input_config_lem (some file) js s a ha in
    let (_, _, _, ib) = apply_launcher_input_config_lem (some file) js s b hb in
    let pa =
      ia ∙ ap (λ (p : PortAssignment). p.gamepad_instance) (port_assignment-some file js a ha) in
    let pb =
      ib ∙ ap (λ (p : PortAssignment). p.gamepad_instance) (port_assignment-some file js b hb) in
    λ same.
      assign_port_distinct cfg js a b distinct lt (gamepad_device file js s a ha ga)
        (gamepad_device file js s b hb gb) (λ z. bound (pb ∙ z)) (sym pa ∙ same ∙ pb)

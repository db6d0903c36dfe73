-- ===== src/Input/Pads.antt =====
-- The per-port routing tables and the opening of gamepads, of src/main/main.cpp.
use pocket_monsters_stadium.Prelude.Int.{ℤ, pos, negsuc, eqb_ℤ, leb_ℤ}
use pocket_monsters_stadium.Prelude.{
  ℕ, ◌+◌, Bool, true, false, ◌&&◌, [], ◌∷◌, Option, none, some, ◌==◌, if◌then◌else◌, Bytes,
}
use pocket_monsters_stadium.Config.GameCfg.{
  DeviceKind, nothing, keyboard, gamepad, PortAssignment, Joysticks, port_assignment,
}

-- What SDL answers: the handle already open for an instance id, the joysticks in device order, and the
-- handle from opening a device index. A handle is a number; a null one is `none`.
pub record Sdl : Type 0 where
  pub from_instance : ℤ → Option ℕ
  pub joysticks : Joysticks
  pub open_index : ℕ → Option ℕ

-- g_pad, g_launcher_input_active, g_port_kind, g_port_instance, g_port_enabled, g_port_pad
pub record Ports : Type 0 where
  pub pad : Option ℕ
  pub launcher_active : Bool
  pub kind : ℕ → DeviceKind
  pub instance_id : ℕ → ℤ
  pub enabled : ℕ → Bool
  pub port_pad : ℕ → Option ℕ

abbrev pub unrouted : Ports
unrouted = record {
  pad = none;
  launcher_active = false;
  kind = λ _. nothing;
  instance_id = λ _. negsuc 0;
  enabled = λ _. false;
  port_pad = λ _. none;
}

abbrev pub at_port {ℓ} : {A : Type ℓ} → (ℕ → A) → ℕ → A → ℕ → A
at_port f port v = λ n. if n == port then v else f n

-- One round of the loop of apply_launcher_input_config.
unfoldable pub apply_port : ℕ → PortAssignment → Ports → Ports
apply_port port pa s = record s {
  enabled = at_port s.enabled port pa.enabled;
  kind = at_port s.kind port (if pa.enabled then pa.kind else nothing);
  instance_id = at_port s.instance_id port pa.gamepad_instance;
}

-- `none` for a launcher.cfg that does not exist.
unfoldable pub apply_launcher_input_config : Option Bytes → Joysticks → Ports → Ports
unfolding apply_port port_assignment
apply_launcher_input_config file js s =
    let s0 = apply_port 0 (port_assignment file js (pos 0)) s in
    let s1 = apply_port 1 (port_assignment file js (pos 1)) s0 in
    let s2 = apply_port 2 (port_assignment file js (pos 2)) s1 in
    let s3 = apply_port 3 (port_assignment file js (pos 3)) s2 in
    record s3 { launcher_active = true }

-- The device index from `i` on of the game controller with the instance id.
unfoldable pub index_of : ℤ → Joysticks → ℕ → Option ℕ
index_of instance_id [] i = none
index_of instance_id (none ∷ js) i = index_of instance_id js (i + 1)
index_of instance_id (some id ∷ js) i =
    let rest = index_of instance_id js (i + 1) in if eqb_ℤ id instance_id then some i else rest

abbrev pub opened : Sdl → Option ℕ → Option ℕ
opened sdl none = none
opened sdl (some i) = sdl.open_index i

abbrev pub existing_or : Option ℕ → Option ℕ → Option ℕ
existing_or (some h) o = some h
existing_or none o = o

unfoldable pub open_pad_by_instance : Sdl → ℤ → Option ℕ
unfolding index_of
open_pad_by_instance sdl instance_id =
    existing_or (sdl.from_instance instance_id) (opened sdl (index_of instance_id sdl.joysticks 0))

-- The first game controller, from device index `i` on, that can be opened.
unfoldable pub first_pad : Sdl → Joysticks → ℕ → Option ℕ
first_pad sdl [] i = none
first_pad sdl (none ∷ js) i = first_pad sdl js (i + 1)
first_pad sdl (some id ∷ js) i = existing_or (sdl.open_index i) (first_pad sdl js (i + 1))

unfoldable pub ensure_pad_open : Sdl → Ports → Ports
unfolding first_pad
ensure_pad_open sdl s = record s { pad = existing_or s.pad (first_pad sdl sdl.joysticks 0) }

abbrev pub is_gamepad : DeviceKind → Bool
is_gamepad nothing = false
is_gamepad keyboard = false
is_gamepad gamepad = true

abbrev pub is_none : Option ℕ → Bool
is_none none = true
is_none (some h) = false

-- One round of the loop of poll_inputs: where the test fails, the port keeps what it has.
unfoldable pub poll_port : Sdl → ℕ → Ports → Ports
unfolding open_pad_by_instance
poll_port sdl port s =
    let test =
      is_gamepad (s.kind port) && is_none (s.port_pad port) && leb_ℤ (pos 0) (s.instance_id port) in
    let pad = if test then open_pad_by_instance sdl (s.instance_id port) else s.port_pad port in
    record s { port_pad = at_port s.port_pad port pad }

unfoldable pub poll_inputs : Sdl → Ports → Ports
unfolding poll_port ensure_pad_open
poll_inputs sdl s =
    if s.launcher_active
    then poll_port sdl 3 (poll_port sdl 2 (poll_port sdl 1 (poll_port sdl 0 s)))
    else ensure_pad_open sdl s

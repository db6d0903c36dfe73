-- ===== src/Input/Read.antt =====
-- What a port reads: `get_n64_input`, `set_rumble` and `get_connected_device_info` of
-- src/main/main.cpp. Floats are a parameter: the operations that the deadzone uses.
use Prim.Native.Nat.{bit_or}
use pocket_monsters_stadium.Prelude.Int.{ℤ, pos, negsuc, ◌+ℤ◌, ltb_ℤ}
use pocket_monsters_stadium.Prelude.{
  ℕ, zero, suc, Bool, true, false, ◌&&◌, ◌||◌, List, [], ◌∷◌, Option, none, some, ltb, ◌==◌,
  if◌then◌else◌, not,
}
use pocket_monsters_stadium.Config.GameCfg.{DeviceKind, nothing, keyboard, gamepad}
use pocket_monsters_stadium.Input.Pads.{Sdl, Ports, ensure_pad_open}

-- The buttons of SDL_GameControllerButton that are read.
pub data PadButton : Type 0 where
  button_a button_b left_shoulder button_start : PadButton
  dpad_up dpad_down dpad_left dpad_right : PadButton
  left_stick right_shoulder : PadButton

pub data Axis : Type 0 where
  left_x left_y right_x right_y : Axis

-- The scancodes that are read, by their SDL names.
pub data Key : Type 0 where
  key_x key_z key_lshift key_space key_return key_kp_enter : Key
  key_up key_down key_left key_right : Key
  key_q key_e key_i key_k key_j key_l : Key
  key_a key_d key_w key_s : Key

-- The devices: a handle's buttons and axes (int16_t), and the keyboard's keys.
pub record Devices : Type 0 where
  pub button : ℕ → PadButton → Bool
  pub axis : ℕ → Axis → ℤ
  pub key : Key → Bool

-- The debug server's override, which the primary port takes.
pub record Override : Type 0 where
  pub active : Bool
  pub buttons : ℕ
  pub stick_x : ℤ
  pub stick_y : ℤ

-- The float operations: conversion, the division by 24767, the product by 80 and the sign change.
pub record Floats : Type 1 where
  pub Float : Type 0
  pub of_int : ℤ → Float
  pub scale : Float → Float
  pub negate : Float → Float

-- A source for a port: a gamepad, if one is open, and whether the keyboard counts.
pub data Source : Type 0 where
  -- the answer is known, and the outputs stay zero
  answer : Bool → Source
  device : Option ℕ → Bool → Bool → Source

-- The switch over a port's kind; a port without a controller answers as its Transfer Pak does.
unfoldable pub routed : DeviceKind → Option ℕ → Bool → Bool → Source
routed gamepad pad primary pak = device pad false primary
routed keyboard pad primary pak = device none true primary
routed nothing pad primary pak = answer pak

-- A negative number, or the number of the port.
unfoldable pub source : Ports → (ℤ → Bool) → ℤ → Source
unfolding routed
source s has_pak (negsuc n) =
    if s.launcher_active then answer false else answer (has_pak (negsuc n))
source s has_pak (pos n) =
    if s.launcher_active
    then if ltb 3 n || not (s.enabled n)
      then answer false
      else routed (s.kind n) (s.port_pad n) (n == 0) (has_pak (pos n))
    else if n == 0
    then device s.pad true true
    else answer (has_pak (pos n))

-- `if (test) b |= mask;` for each of the tests in order.
unfoldable pub press : List (Bool × ℕ) → ℕ → ℕ
press [] b = b
press ((test, mask) ∷ ts) b = press ts (if test then bit_or b mask else b)

unfoldable pub pad_tests : (PadButton → Bool) → List (Bool × ℕ)
pad_tests pressed =
    (pressed button_a, 0x8000)
    ∷ (pressed button_b, 0x4000)
    ∷ (pressed left_shoulder, 0x2000)
    ∷ (pressed button_start, 0x1000)
    ∷ (pressed dpad_up, 0x0800)
    ∷ (pressed dpad_down, 0x0400)
    ∷ (pressed dpad_left, 0x0200)
    ∷ (pressed dpad_right, 0x0100)
    ∷ (pressed left_stick, 0x0020)
    ∷ (pressed right_shoulder, 0x0010)
    ∷ []

unfoldable pub key_tests : (Key → Bool) → List (Bool × ℕ)
key_tests ks =
    (ks key_x, 0x8000)
    ∷ (ks key_z, 0x4000)
    ∷ (ks key_lshift || ks key_space, 0x2000)
    ∷ (ks key_return || ks key_kp_enter, 0x1000)
    ∷ (ks key_up, 0x0800)
    ∷ (ks key_down, 0x0400)
    ∷ (ks key_left, 0x0200)
    ∷ (ks key_right, 0x0100)
    ∷ (ks key_q, 0x0020)
    ∷ (ks key_e, 0x0010)
    ∷ (ks key_i, 0x0008)
    ∷ (ks key_k, 0x0004)
    ∷ (ks key_j, 0x0002)
    ∷ (ks key_l, 0x0001)
    ∷ []

-- The C buttons from the right stick.
unfoldable pub stick_tests : ℤ → ℤ → List (Bool × ℕ)
stick_tests rx ry =
    (ltb_ℤ ry (negsuc 7999), 0x0008)
    ∷ (ltb_ℤ (pos 8000) ry, 0x0004)
    ∷ (ltb_ℤ rx (negsuc 7999), 0x0002)
    ∷ (ltb_ℤ (pos 8000) rx, 0x0001)
    ∷ []

-- The axis of the gamepad, or 0 without one.
abbrev pub axis_of : Devices → Option ℕ → Axis → ℤ
axis_of d none a = pos 0
axis_of d (some h) a = d.axis h a

-- Two keys that push an axis one way and the other.
unfoldable pub key_push : Bool → Bool → ℤ
unfolding ◌+ℤ◌
key_push less more = (if less then negsuc 32766 else pos 0) +ℤ (if more then pos 32767 else pos 0)

unfoldable pub push_axis : ℤ → Bool → Bool → ℤ
unfolding key_push ◌+ℤ◌
push_axis raw less more =
    let s = raw +ℤ key_push less more in
    let low = if ltb_ℤ (pos 32767) s then pos 32767 else s in
    if ltb_ℤ low (negsuc 32767) then negsuc 32767 else low

-- The distance beyond the deadzone, with its sign.
unfoldable pub beyond : ℤ → ℤ
unfolding ◌+ℤ◌
beyond v =
    if ltb_ℤ (pos 8000) v
    then v +ℤ negsuc 7999
    else if ltb_ℤ v (negsuc 7999)
    then v +ℤ pos 8000
    else pos 0

unfoldable pub pad_buttons : Devices → Option ℕ → ℕ
unfolding press pad_tests
pad_buttons d none = 0
pad_buttons d (some h) = press (pad_tests (d.button h)) 0

-- The gamepad's buttons, then the keyboard's.
unfoldable pub device_buttons : Devices → Option ℕ → Bool → ℕ
unfolding press pad_buttons key_tests
device_buttons d pad use_kb =
    let b = pad_buttons d pad in if use_kb then press (key_tests d.key) b else b

-- Whether an override of the stick is not the float 0.
abbrev pub is_set : ℤ → Bool
is_set (pos zero) = false
is_set (pos (suc n)) = true
is_set (negsuc n) = true

module _ (f : Floats) where
  -- Within the deadzone the result is the constant 0.
  unfoldable pub apply_deadzone : ℤ → f.Float
  unfolding beyond
  apply_deadzone raw =
      if ltb_ℤ (pos 8000) raw || ltb_ℤ raw (negsuc 7999)
      then f.scale (f.of_int (beyond raw))
      else f.of_int (pos 0)

  -- What the out parameters hold, and the result.
  pub record Reading : Type 0 where
    pub present : Bool
    pub buttons : ℕ
    pub x : f.Float
    pub y : f.Float

  -- An answer without a device: no buttons, a stick at rest.
  abbrev pub at_rest : Bool → Reading
  at_rest b = record { present = b; buttons = 0; x = f.of_int (pos 0); y = f.of_int (pos 0) }

  unfoldable pub read_device : Devices → Override → Option ℕ → Bool → Bool → Reading
  unfolding device_buttons press stick_tests push_axis apply_deadzone
  read_device d o pad use_kb primary =
      let forced = primary && o.active in
      let override_buttons = if forced then o.buttons else 0 in
      let override_x = if forced then o.stick_x else pos 0 in
      let override_y = if forced then o.stick_y else pos 0 in
      let lx = axis_of d pad left_x in
      let ly = axis_of d pad left_y in
      let kx = if use_kb then push_axis lx (d.key key_a) (d.key key_d) else lx in
      let ky = if use_kb then push_axis ly (d.key key_w) (d.key key_s) else ly in
      let c = stick_tests (axis_of d pad right_x) (axis_of d pad right_y) in
      record {
        present = true;
        buttons = bit_or (press c (device_buttons d pad use_kb)) override_buttons;
        x = if is_set override_x then f.of_int override_x else apply_deadzone kx;
        y = if is_set override_y then f.of_int override_y else f.negate (apply_deadzone ky);
      }

  abbrev pub read_source : Devices → Override → Source → Reading
  unfolding read_device
  read_source d o (answer b) = at_rest b
  read_source d o (device pad use_kb primary) = read_device d o pad use_kb primary

  unfoldable pub get_n64_input : Ports → Devices → Override → (ℤ → Bool) → ℤ → Reading
  unfolding source read_device
  get_n64_input s d o has_pak n = read_source d o (source s has_pak n)

-- Device and Pak of ultramodern::input, of which two values each are used.
pub record DeviceInfo : Type 0 where
  pub controller : Bool
  pub rumble_pak : Bool

abbrev pub is_assigned : DeviceKind → Bool
is_assigned nothing = false
is_assigned keyboard = true
is_assigned gamepad = true

abbrev pub enabled_at : Ports → ℤ → Bool
enabled_at s (negsuc n) = false
enabled_at s (pos n) = ltb n 4 && s.enabled n

abbrev pub kind_at : Ports → ℤ → DeviceKind
kind_at s (negsuc n) = nothing
kind_at s (pos n) = s.kind n

abbrev pub is_port_zero : ℤ → Bool
is_port_zero (negsuc n) = false
is_port_zero (pos n) = n == 0

-- The tables afterwards, and the answer.
unfoldable pub get_connected_device_info : Sdl → Ports → (ℤ → Bool) → ℤ → Ports × DeviceInfo
unfolding ensure_pad_open
get_connected_device_info sdl s has_pak n =
    if s.launcher_active
    then (
      s,
      record {
        controller = enabled_at s n && (is_assigned (kind_at s n) || has_pak n);
        rumble_pak = enabled_at s n && has_pak n;
      },
    )
    else (
      if is_port_zero n then ensure_pad_open sdl s else s,
      record { controller = is_port_zero n || has_pak n; rumble_pak = has_pak n },
    )

-- The gamepad that is made to rumble, if any.
unfoldable pub set_rumble : Ports → ℤ → Option ℕ
set_rumble s (negsuc n) = none
set_rumble s (pos n) =
    if s.launcher_active
    then if ltb n 4 then s.port_pad n else none
    else if n == 0
    then s.pad
    else none

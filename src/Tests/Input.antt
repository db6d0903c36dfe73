-- ===== src/Tests/Input.antt =====
-- Controller input at concrete inputs.
use pocket_monsters_stadium.Prelude.Bits.{digit}
use pocket_monsters_stadium.Prelude.Int.{ℤ, pos}
use pocket_monsters_stadium.Prelude.{
  ◌+◌, ◌≡◌, ◌≢◌, refl, true, false, [], ◌∷◌, none, some, arith, Bytes, codes,
}
use pocket_monsters_stadium.Config.GameCfg.{Joysticks}
use pocket_monsters_stadium.Input.Pads.{
  Sdl, Ports, unrouted, apply_launcher_input_config, poll_inputs,
}
use pocket_monsters_stadium.Input.Read.{
  Devices, Override, Floats, get_n64_input, get_connected_device_info, read_device,
}
use pocket_monsters_stadium.Input.Presence.{get_n64_input-present}
use pocket_monsters_stadium.Input.Buttons.{a, bit, as_digit, is_held, digit-get_n64_input}
use pocket_monsters_stadium.Input.Routing.{instance_id_distinct}
use pocket_monsters_stadium.Input.Polling.{Polled, poll_inputs-Polled}

-- Integers in place of floats.
abbrev whole : Floats
whole = record { Float = ℤ; of_int = λ x. x; scale = λ x. x; negate = λ x. x }

abbrev two_controllers : Joysticks
two_controllers = some (pos 3) ∷ some (pos 5) ∷ []

abbrev plugged : Sdl
plugged = record {
  from_instance = λ i. none;
  joysticks = two_controllers;
  open_index = λ i. some (i + 100);
}

-- A pad with every button pressed and its sticks at rest, and no key pressed.
abbrev mashing : Devices
mashing = record { button = λ h b. true; axis = λ h x. pos 0; key = λ k. false }

abbrev not_forced : Override
not_forced = record { active = false; buttons = 0; stick_x = pos 0; stick_y = pos 0 }

present_example :
    (get_n64_input whole unrouted mashing not_forced (λ n. false) (pos 1)).present
    ≡ (get_connected_device_info plugged unrouted (λ n. false) (pos 1)).1.controller
present_example =
    get_n64_input-present whole plugged unrouted mashing not_forced (λ n. false) (pos 1)

held_example :
    digit (bit a) (read_device whole mashing not_forced (some 100) false true).buttons
    ≡ as_digit (is_held mashing not_forced (some 100) false true a)
held_example = digit-get_n64_input whole mashing not_forced (some 100) false true a

-- Players 1 and 2 on gamepads.
abbrev two_players : Bytes
two_players = codes "p1_device=2\np2_device=2\n"

abbrev routed_ports : Ports
routed_ports = apply_launcher_input_config (some two_players) two_controllers unrouted

controllers_distinct : pos 3 ≢ pos 5
controllers_distinct e = cc

distinct_example : routed_ports.instance_id 0 ≢ routed_ports.instance_id 1
unfolding apply_launcher_input_config
distinct_example =
    instance_id_distinct two_players two_controllers unrouted 0 1
      ((controllers_distinct, tt), (tt, tt)) (omega arith) (omega arith) refl refl (λ e. cc)

poll_example :
    Polled plugged
      (routed_ports.kind 1)
      (routed_ports.instance_id 1)
      (routed_ports.port_pad 1)
      ((poll_inputs plugged routed_ports).port_pad 1)
unfolding apply_launcher_input_config
poll_example = poll_inputs-Polled plugged routed_ports 1 (omega arith) refl

-- The second player's gamepad is the second joystick.
poll_run : (poll_inputs plugged routed_ports).port_pad 1 ≡ some 101
unfolding poll_inputs apply_launcher_input_config
poll_run = refl

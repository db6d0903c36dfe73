-- ===== src/Input/Buttons.antt =====
-- The button word that a device reports (src/main/main.cpp).
use Prim.Native.Nat.{bit_or}
use pocket_monsters_stadium.Prelude.Bits.{digit, digit-bit_or, digit-le_one}
use pocket_monsters_stadium.Prelude.Int.{ℤ, pos, negsuc, ltb_ℤ}
use pocket_monsters_stadium.Prelude.{
  ℕ, ◌≡◌, refl, sym, ap, ◌∙◌, max, List, [], ◌∷◌, Option, none, some, Bool, true, false, ◌&&◌, ◌||◌,
  arith, ◌==◌, if◌then◌else◌,
}
use pocket_monsters_stadium.Input.Read.{
  Devices, Override, Floats, read_device, press, pad_tests, key_tests, stick_tests, device_buttons,
  pad_buttons, button_a, button_b, left_shoulder, button_start, dpad_up, dpad_down, dpad_left,
  dpad_right, left_stick, right_shoulder, PadButton, Key, right_x, right_y, axis_of, key_x, key_z,
  key_lshift, key_space, key_return, key_kp_enter, key_up, key_down, key_left, key_right, key_q,
  key_e, key_i, key_k, key_j, key_l,
}

abbrev pub as_digit : Bool → ℕ
as_digit b = if b then 1 else 0

-- Some test that passes has a mask with that digit.
abbrev pressed_by : ℕ → List (Bool × ℕ) → Bool
pressed_by k [] = false
pressed_by k ((test, mask) ∷ ts) = digit k mask == 1 && test || pressed_by k ts

digit-press :
    (k : ℕ) (ts : List (Bool × ℕ)) (b : ℕ)
    → digit k (press ts b) ≡ max (digit k b) (as_digit (pressed_by k ts))
unfolding press
digit-press k [] b = ground (arith, digit-le_one k b)
digit-press k ((true, mask) ∷ ts) b =
    digit-press k ts (bit_or b mask)
    ∙ rw (digit-bit_or k b mask) (ground (arith, digit-le_one k mask, digit-le_one k b))
digit-press k ((false, mask) ∷ ts) b =
    digit-press k ts b ∙ ground (arith, digit-le_one k mask, digit-le_one k b)

-- The buttons of the N64 controller.
pub data Button : Type 0 where
  a b z start : Button
  d_up d_down d_left d_right : Button
  l r : Button
  c_up c_down c_left c_right : Button

-- The position of a button in libultra's contStat word.
abbrev pub bit : Button → ℕ
bit a = 15
bit b = 14
bit z = 13
bit start = 12
bit d_up = 11
bit d_down = 10
bit d_left = 9
bit d_right = 8
bit l = 5
bit r = 4
bit c_up = 3
bit c_down = 2
bit c_left = 1
bit c_right = 0

-- What holds a button on a gamepad; the C buttons are the right stick's, tilted by more than 8000.
abbrev pub on_pad : (PadButton → Bool) → ℤ → ℤ → Button → Bool
on_pad p rx ry a = p button_a
on_pad p rx ry b = p button_b
on_pad p rx ry z = p left_shoulder
on_pad p rx ry start = p button_start
on_pad p rx ry d_up = p dpad_up
on_pad p rx ry d_down = p dpad_down
on_pad p rx ry d_left = p dpad_left
on_pad p rx ry d_right = p dpad_right
on_pad p rx ry l = p left_stick
on_pad p rx ry r = p right_shoulder
on_pad p rx ry c_up = ltb_ℤ ry (negsuc 7999)
on_pad p rx ry c_down = ltb_ℤ (pos 8000) ry
on_pad p rx ry c_left = ltb_ℤ rx (negsuc 7999)
on_pad p rx ry c_right = ltb_ℤ (pos 8000) rx

-- What holds it on the keyboard.
abbrev pub on_keyboard : (Key → Bool) → Button → Bool
on_keyboard k a = k key_x
on_keyboard k b = k key_z
on_keyboard k z = k key_lshift || k key_space
on_keyboard k start = k key_return || k key_kp_enter
on_keyboard k d_up = k key_up
on_keyboard k d_down = k key_down
on_keyboard k d_left = k key_left
on_keyboard k d_right = k key_right
on_keyboard k l = k key_q
on_keyboard k r = k key_e
on_keyboard k c_up = k key_i
on_keyboard k c_down = k key_k
on_keyboard k c_left = k key_j
on_keyboard k c_right = k key_l

abbrev pub on_device : Devices → Option ℕ → Button → Bool
on_device d none n = false
on_device d (some h) n = on_pad (d.button h) (d.axis h right_x) (d.axis h right_y) n

-- A button counts as held if the gamepad, the keyboard of a port that uses it, or the override of a
-- primary port holds it.
abbrev pub is_held : Devices → Override → Option ℕ → Bool → Bool → Button → Bool
is_held d o pad use_kb primary n =
    on_device d pad n
    || use_kb && on_keyboard d.key n
    || primary && o.active && digit (bit n) o.buttons == 1

or_false : (x : Bool) → (x || false) ≡ x
or_false true = refl
or_false false = refl

keys_lem : (k : Key → Bool) (n : Button) → pressed_by (bit n) (key_tests k) ≡ on_keyboard k n
unfolding key_tests
keys_lem k a = or_false (on_keyboard k a)
keys_lem k b = or_false (on_keyboard k b)
keys_lem k z = or_false (on_keyboard k z)
keys_lem k start = or_false (on_keyboard k start)
keys_lem k d_up = or_false (on_keyboard k d_up)
keys_lem k d_down = or_false (on_keyboard k d_down)
keys_lem k d_left = or_false (on_keyboard k d_left)
keys_lem k d_right = or_false (on_keyboard k d_right)
keys_lem k l = or_false (on_keyboard k l)
keys_lem k r = or_false (on_keyboard k r)
keys_lem k c_up = or_false (on_keyboard k c_up)
keys_lem k c_down = or_false (on_keyboard k c_down)
keys_lem k c_left = or_false (on_keyboard k c_left)
keys_lem k c_right = or_false (on_keyboard k c_right)

pad_lem :
    (p : PadButton → Bool) (rx ry : ℤ) (n : Button)
    → (pressed_by (bit n) (pad_tests p) || pressed_by (bit n) (stick_tests rx ry))
      ≡ on_pad p rx ry n
unfolding pad_tests stick_tests
pad_lem p rx ry a = or_false (on_pad p rx ry a || false) ∙ or_false (on_pad p rx ry a)
pad_lem p rx ry b = or_false (on_pad p rx ry b || false) ∙ or_false (on_pad p rx ry b)
pad_lem p rx ry z = or_false (on_pad p rx ry z || false) ∙ or_false (on_pad p rx ry z)
pad_lem p rx ry start = or_false (on_pad p rx ry start || false) ∙ or_false (on_pad p rx ry start)
pad_lem p rx ry d_up = or_false (on_pad p rx ry d_up || false) ∙ or_false (on_pad p rx ry d_up)
pad_lem p rx ry d_down =
    or_false (on_pad p rx ry d_down || false) ∙ or_false (on_pad p rx ry d_down)
pad_lem p rx ry d_left =
    or_false (on_pad p rx ry d_left || false) ∙ or_false (on_pad p rx ry d_left)
pad_lem p rx ry d_right =
    or_false (on_pad p rx ry d_right || false) ∙ or_false (on_pad p rx ry d_right)
pad_lem p rx ry l = or_false (on_pad p rx ry l || false) ∙ or_false (on_pad p rx ry l)
pad_lem p rx ry r = or_false (on_pad p rx ry r || false) ∙ or_false (on_pad p rx ry r)
pad_lem p rx ry c_up = or_false (on_pad p rx ry c_up)
pad_lem p rx ry c_down = or_false (on_pad p rx ry c_down)
pad_lem p rx ry c_left = or_false (on_pad p rx ry c_left)
pad_lem p rx ry c_right = or_false (on_pad p rx ry c_right)

no_pad_lem : (n : Button) → pressed_by (bit n) (stick_tests (pos 0) (pos 0)) ≡ false
unfolding stick_tests
no_pad_lem a = refl
no_pad_lem b = refl
no_pad_lem z = refl
no_pad_lem start = refl
no_pad_lem d_up = refl
no_pad_lem d_down = refl
no_pad_lem d_left = refl
no_pad_lem d_right = refl
no_pad_lem l = refl
no_pad_lem r = refl
no_pad_lem c_up = refl
no_pad_lem c_down = refl
no_pad_lem c_left = refl
no_pad_lem c_right = refl

zero_lem : (n : Button) → digit (bit n) 0 ≡ 0
zero_lem a = refl
zero_lem b = refl
zero_lem z = refl
zero_lem start = refl
zero_lem d_up = refl
zero_lem d_down = refl
zero_lem d_left = refl
zero_lem d_right = refl
zero_lem l = refl
zero_lem r = refl
zero_lem c_up = refl
zero_lem c_down = refl
zero_lem c_left = refl
zero_lem c_right = refl

max_digit : (x y : Bool) → max (max 0 (as_digit x)) (as_digit y) ≡ as_digit (x || y)
max_digit true true = refl
max_digit true false = refl
max_digit false true = refl
max_digit false false = refl

two : (x y : Bool) → max (max 0 (as_digit x)) (as_digit y) ≡ as_digit (x || y || false)
two true true = refl
two true false = refl
two false true = refl
two false false = refl

three :
    (x y w : Bool)
    → max (max (max 0 (as_digit x)) (as_digit y)) (as_digit w) ≡ as_digit ((x || w) || y)
three true true w = ground arith
three true false w = ground arith
three false true w = ground arith
three false false w = ground arith

-- The device's part of the word, with the C buttons.
device_lem :
    (d : Devices) (pad : Option ℕ) (use_kb : Bool) (n : Button)
    → digit (bit n) (
        press
          (stick_tests (axis_of d pad right_x) (axis_of d pad right_y))
          (device_buttons d pad use_kb))
      ≡ as_digit (on_device d pad n || use_kb && on_keyboard d.key n)
unfolding device_buttons pad_buttons
device_lem d none true n =
    digit-press (bit n) (stick_tests (pos 0) (pos 0)) (press (key_tests d.key) 0)
    ∙ rw (digit-press (bit n) (key_tests d.key) 0, keys_lem d.key n, no_pad_lem n, zero_lem n)
        (max_digit (on_keyboard d.key n) false ∙ ap as_digit (or_false (on_keyboard d.key n)))
device_lem d none false n =
    digit-press (bit n) (stick_tests (pos 0) (pos 0)) 0 ∙ rw (no_pad_lem n, zero_lem n) refl
device_lem d (some h) true n =
    let rx = d.axis h right_x in
    let ry = d.axis h right_y in
    digit-press (bit n) (stick_tests rx ry)
      (press (key_tests d.key) (press (pad_tests (d.button h)) 0))
    ∙ rw
        (
          digit-press (bit n) (key_tests d.key) (press (pad_tests (d.button h)) 0),
          digit-press (bit n) (pad_tests (d.button h)) 0,
          zero_lem n,
          keys_lem d.key n,
          sym (pad_lem (d.button h) rx ry n),
        )
        (three (pressed_by (bit n) (pad_tests (d.button h))) (on_keyboard d.key n)
          (pressed_by (bit n) (stick_tests rx ry)))
device_lem d (some h) false n =
    let rx = d.axis h right_x in
    let ry = d.axis h right_y in
    digit-press (bit n) (stick_tests rx ry) (press (pad_tests (d.button h)) 0)
    ∙ rw
        (
          digit-press (bit n) (pad_tests (d.button h)) 0,
          zero_lem n,
          sym (pad_lem (d.button h) rx ry n),
        )
        (two (pressed_by (bit n) (pad_tests (d.button h))) (pressed_by (bit n) (stick_tests rx ry)))

override_lem :
    (primary active : Bool) (w : ℕ) (n : Button)
    → digit (bit n) (if primary && active then w else 0)
      ≡ as_digit (primary && active && digit (bit n) w == 1)
override_lem true true w n = ground (arith, digit-le_one (bit n) w)
override_lem true false w n = zero_lem n
override_lem false active w n = zero_lem n

or_digit : (x y w : Bool) → max (as_digit (x || y)) (as_digit w) ≡ as_digit (x || y || w)
or_digit true y true = refl
or_digit true y false = refl
or_digit false true true = refl
or_digit false true false = refl
or_digit false false true = refl
or_digit false false false = refl

-- A port that is read from a device reports a button exactly if it is held: on its gamepad, on the
-- keyboard if the port uses it, or by the debug server's override on a primary port.
pub digit-get_n64_input :
    (f : Floats) (d : Devices) (o : Override) (pad : Option ℕ) (use_kb primary : Bool) (n : Button)
    → digit (bit n) (read_device f d o pad use_kb primary).buttons
      ≡ as_digit (is_held d o pad use_kb primary n)
unfolding read_device
digit-get_n64_input f d o pad use_kb primary n =
    let forced = if primary && o.active then o.buttons else 0 in
    digit-bit_or (bit n)
      (press (stick_tests (axis_of d pad right_x) (axis_of d pad right_y))
        (device_buttons d pad use_kb))
      forced
    ∙ rw (device_lem d pad use_kb n, override_lem primary o.active o.buttons n)
        (or_digit (on_device d pad n) (use_kb && on_keyboard d.key n)
          (primary && o.active && digit (bit n) o.buttons == 1))

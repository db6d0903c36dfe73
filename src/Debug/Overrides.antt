-- ===== src/Debug/Overrides.antt =====
-- The input override and fast forward, as the commands of src/main/debug_server.cpp set them.
use Prim.Native.Nat.{bit_or, bit_and}
use native.Mathlib.Nat.{pow-suc}
use pocket_monsters_stadium.Libc.{to_lower}
use pocket_monsters_stadium.Prelude.Bits.{
  digit, digit-bit_or, digit-bit_and, digit-le_one, bit_or-lt, bit_and-le,
}
use pocket_monsters_stadium.Prelude.Int.{ℤ, pos, negsuc, clamp, ◌≤ℤ◌}
use pocket_monsters_stadium.Prelude.{
  ℕ, zero, suc, ◌-◌, ◌^◌, ◌/◌, ◌<◌, ◌≡◌, refl, ◌∙◌, Bool, map, true, false, not, ◌||◌, List, [],
  ◌∷◌, ◌==◌, if◌then◌else◌, Bytes, codes, arith, Bool-cases, inl, inr,
}
use pocket_monsters_stadium.Debug.Request.{
  get_str, get_int, get_bool, button_bit, button_rows, find_row,
}

-- g_input_override_active, g_buttons_override, g_stick_x_override, g_stick_y_override, g_fast_forward
pub record State : Type 0 where
  pub active : Bool
  pub buttons : ℕ
  pub stick_x : ℤ
  pub stick_y : ℤ
  pub fast_forward : Bool

abbrev pub initial : State
initial = record {
  active = false;
  buttons = 0;
  stick_x = pos 0;
  stick_y = pos 0;
  fast_forward = false;
}

-- `cur |= bit` and `cur &= uint16_t(~bit)`
unfoldable pub press_bit : ℕ → ℕ → Bool → ℕ
press_bit cur bit down = if down then bit_or cur bit else bit_and cur (0xFFFF - bit)

-- The flag tells whether the button was known.
unfoldable pub set_button : Bytes → State → State × Bool
unfolding get_str get_bool button_bit press_bit
set_button line s =
    let bit = button_bit (get_str line (codes "name")) in
    if bit == 0 then (s, false) else (
      record s {
        active = true;
        buttons = press_bit s.buttons bit (get_bool line (codes "down") true);
      },
      true,
    )

unfoldable pub set_stick : Bytes → State → State
unfolding get_int
set_stick line s = record s {
  active = true;
  stick_x = clamp (get_int line (codes "x") (pos 0)) (negsuc 79) (pos 80);
  stick_y = clamp (get_int line (codes "y") (pos 0)) (negsuc 79) (pos 80);
}

unfoldable pub clear_input : State → State
clear_input s = record s { active = false; buttons = 0; stick_x = pos 0; stick_y = pos 0 }

unfoldable pub fast_forward : Bytes → State → State
unfolding get_bool
fast_forward line s = record s { fast_forward = get_bool line (codes "on") true }

-- The button word is a uint16_t, and the stick stays within the N64's range.
pub record IsValid (s : State) : Type 0 where
  pub buttons : s.buttons < 2 ^ 16
  pub x_low : negsuc 79 ≤ℤ s.stick_x
  pub x_high : s.stick_x ≤ℤ pos 80
  pub y_low : negsuc 79 ≤ℤ s.stick_y
  pub y_high : s.stick_y ≤ℤ pos 80

clamp_bounds :
    (x : ℤ) → (negsuc 79 ≤ℤ clamp x (negsuc 79) (pos 80)) × (clamp x (negsuc 79) (pos 80) ≤ℤ pos 80)
clamp_bounds x = ground arith

abbrev AreWords : List (List Bytes × ℕ) → Type 0
AreWords [] = Unit {0}
AreWords ((names, bit) ∷ rows) = (bit < 0x10000) × AreWords rows

find_row-lt : (s : Bytes) (rows : List (List Bytes × ℕ)) → AreWords rows → find_row s rows < 0x10000
find_row-lt s [] w = omega arith
find_row-lt s ((names, bit) ∷ rows) (h, w) = ground (arith, find_row-lt s rows w)

button_rows-AreWords : AreWords button_rows
button_rows-AreWords = (
  omega arith,
  (
    omega arith,
    (
      omega arith,
      (
        omega arith,
        (
          omega arith,
          (
            omega arith,
            (
              omega arith,
              (
                omega arith,
                (
                  omega arith,
                  (omega arith, (omega arith, (omega arith, (omega arith, (omega arith, tt))))),
                ),
              ),
            ),
          ),
        ),
      ),
    ),
  ),
)

button_bit-lt : (name : Bytes) → button_bit name < 2 ^ 16
unfolding button_bit
button_bit-lt name = find_row-lt (map to_lower name) button_rows button_rows-AreWords

press_bit-lt :
    (cur bit : ℕ) (down : Bool) → cur < 2 ^ 16 → bit < 2 ^ 16 → press_bit cur bit down < 2 ^ 16
unfolding press_bit
press_bit-lt cur bit true h g = bit_or-lt 16 cur bit h g
press_bit-lt cur bit false h g = let le = bit_and-le cur (0xFFFF - bit) in omega arith

pub set_button-IsValid : (line : Bytes) (s : State) → IsValid s → IsValid (set_button line s).0
unfolding set_button
set_button-IsValid line s v =
    let bit = button_bit (get_str line (codes "name")) in
    elim (Bool-cases (bit == 0)) [
      | inl e ↦ rw e v
      | inr e ↦ rw e (record {
        buttons =
            press_bit-lt s.buttons bit (get_bool line (codes "down") true) v.buttons
              (button_bit-lt (get_str line (codes "name")));
        x_low = v.x_low;
        x_high = v.x_high;
        y_low = v.y_low;
        y_high = v.y_high;
      })
    ]

pub set_stick-IsValid : (line : Bytes) (s : State) → IsValid s → IsValid (set_stick line s)
unfolding set_stick
set_stick-IsValid line s v =
    let (xl, xh) = clamp_bounds (get_int line (codes "x") (pos 0)) in
    let (yl, yh) = clamp_bounds (get_int line (codes "y") (pos 0)) in
    record { buttons = v.buttons; x_low = xl; x_high = xh; y_low = yl; y_high = yh }

pub fast_forward-IsValid : (line : Bytes) (s : State) → IsValid s → IsValid (fast_forward line s)
unfolding fast_forward
fast_forward-IsValid line s v = record {
  buttons = v.buttons;
  x_low = v.x_low;
  x_high = v.x_high;
  y_low = v.y_low;
  y_high = v.y_high;
}

pub clear_input-IsValid : (s : State) → IsValid (clear_input s)
unfolding clear_input
clear_input-IsValid s = record {
  buttons = omega arith;
  x_low = omega arith;
  x_high = omega arith;
  y_low = omega arith;
  y_high = omega arith;
}

digit-zero : (k : ℕ) → digit k 0 ≡ 0
digit-zero zero = refl
digit-zero (suc k) = digit-zero k

digit-complement : (k m b : ℕ) → b < 2 ^ m → k < m → digit k (2 ^ m - 1 - b) ≡ 1 - digit k b
digit-complement zero (suc m) b h g = let e = pow-suc 2 m in omega arith
digit-complement k zero b h g = absurd (omega arith)
digit-complement (suc k) (suc m) b h g =
    let e = pow-suc 2 m in
    let half : (2 ^ suc m - 1 - b) / 2 ≡ 2 ^ m - 1 - b / 2 = omega arith in
    rw half (digit-complement k m (b / 2) (omega arith) (omega arith))

-- Pressing or releasing a button sets exactly the digits of its mask and leaves the others.
pub digit-press_bit :
    (k cur bit : ℕ) (down : Bool)
    → k < 16
    → bit < 2 ^ 16
    → digit k (press_bit cur bit down)
      ≡ (if digit k bit == 1 then (if down then 1 else 0) else digit k cur)
unfolding press_bit
digit-press_bit k cur bit true h g =
    digit-bit_or k cur bit ∙ ground (arith, digit-le_one k cur, digit-le_one k bit)
digit-press_bit k cur bit false h g =
    digit-bit_and k cur (0xFFFF - bit)
    ∙ rw (digit-complement k 16 bit g h) (ground (arith, digit-le_one k cur, digit-le_one k bit))

-- A set_button command for a known button turns the override on and changes the digits of that button
-- alone, to what the command says, and neither the stick nor fast forward; for an unknown one it
-- changes nothing.
pub set_button_lem :
    (line : Bytes) (s : State) (k : ℕ)
    → k < 16
    → let bit = button_bit (get_str line (codes "name")) in
      let (t, known) = set_button line s in
      (known ≡ not (bit == 0))
      × (t.stick_x ≡ s.stick_x)
      × (t.stick_y ≡ s.stick_y)
      × (t.fast_forward ≡ s.fast_forward)
      × ((if known then s else t) ≡ s)
      × (t.active ≡ (known || s.active))
      × (digit k t.buttons ≡ (
          if digit k bit == 1
          then if get_bool line (codes "down") true then 1 else 0
          else digit k s.buttons))
unfolding set_button
set_button_lem line s k h = elim (Bool-cases (button_bit (get_str line (codes "name")) == 0)) [
  | inl e ↦
      let z : button_bit (get_str line (codes "name")) ≡ 0 = ground arith in
      rw e (refl, refl, refl, refl, refl, refl, rw (z, digit-zero k) refl)
  | inr e ↦ rw e (
    refl,
    refl,
    refl,
    refl,
    refl,
    refl,
    digit-press_bit k s.buttons (button_bit (get_str line (codes "name")))
        (get_bool line (codes "down") true) h (button_bit-lt (get_str line (codes "name"))),
  )
]

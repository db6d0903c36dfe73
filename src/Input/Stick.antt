-- ===== src/Input/Stick.antt =====
-- The stick: the keyboard's push and the deadzone (src/main/main.cpp).
use pocket_monsters_stadium.Prelude.Int.{ℤ, pos, negsuc, ◌+ℤ◌, ◌≤ℤ◌}
use pocket_monsters_stadium.Prelude.{◌≡◌, ◌↔◌, Bool, true, false, arith}
use pocket_monsters_stadium.Input.Read.{push_axis, key_push, beyond}

-- The values of int16_t.
abbrev pub IsInt16 : ℤ → Type 0
IsInt16 v = (negsuc 32767 ≤ℤ v) × (v ≤ℤ pos 32767)

-- An axis within int16_t stays within it whatever keys push it.
pub push_axis-IsInt16 :
    (raw : ℤ) (less more : Bool) → IsInt16 raw → IsInt16 (push_axis raw less more)
unfolding push_axis key_push ◌+ℤ◌
push_axis-IsInt16 (pos n) less more (lo, hi) = ground arith
push_axis-IsInt16 (negsuc n) less more (lo, hi) = ground arith

-- Both keys together, and none, leave an axis within int16_t as it is.
pub push_axis_balanced : (raw : ℤ) (both : Bool) → IsInt16 raw → push_axis raw both both ≡ raw
unfolding push_axis key_push ◌+ℤ◌
push_axis_balanced (pos n) true (lo, hi) = ground arith
push_axis_balanced (pos n) false (lo, hi) = ground arith
push_axis_balanced (negsuc n) true (lo, hi) = ground arith
push_axis_balanced (negsuc n) false (lo, hi) = ground arith

-- Nothing is left of a tilt exactly from -8000 to 8000.
pub beyond_zero_iff : (v : ℤ) → (beyond v ≡ pos 0) ↔ ((negsuc 7999 ≤ℤ v) × (v ≤ℤ pos 8000))
unfolding beyond ◌+ℤ◌
beyond_zero_iff (pos n) = ground arith
beyond_zero_iff (negsuc n) = ground arith

-- A tilt to the right reaches 24767 at most, one to the left 24768.
pub beyond_bounds : (v : ℤ) → IsInt16 v → (negsuc 24767 ≤ℤ beyond v) × (beyond v ≤ℤ pos 24767)
unfolding beyond ◌+ℤ◌
beyond_bounds (pos n) (lo, hi) = ground arith
beyond_bounds (negsuc n) (lo, hi) = ground arith

-- More tilt never counts as less.
pub beyond_mono : (v w : ℤ) → v ≤ℤ w → beyond v ≤ℤ beyond w
unfolding beyond ◌+ℤ◌
beyond_mono (pos n) (pos m) h = ground arith
beyond_mono (negsuc n) (pos m) h = ground arith
beyond_mono (negsuc n) (negsuc m) h = ground arith
beyond_mono (pos n) (negsuc m) h = ground arith

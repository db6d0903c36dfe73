-- ===== src/Config/GameCfg/Ports.antt =====
-- The routing of gamepads to ports (src/main/launcher_cfg.cpp).
use pocket_monsters_stadium.Libc.{atoi}
use pocket_monsters_stadium.Prelude.Int.{ℤ, pos, negsuc}
use pocket_monsters_stadium.Prelude.{
  ℕ, zero, suc, ◌+◌, ◌-◌, ◌≤◌, ◌<◌, ◌≡◌, ◌≢◌, refl, sym, ap, Bool, true, false, inl, inr, List, [],
  ◌∷◌, Option, none, some, Bytes, codes, arith, get_or, ◌==◌, if◌then◌else◌, Bool-cases, ◌||◌,
}
use pocket_monsters_stadium.Config.Dict.{Dict, find}
use pocket_monsters_stadium.Config.GameCfg.{
  Joysticks, DeviceKind, nth_gamepad, source_of, source_from, given, device_of, ordinal,
  assign_port, gamepad, keyboard, nothing, tpak_on,
}

-- The instance ids of the game controllers, in device order.
abbrev pub controllers : Joysticks → List ℤ
controllers [] = []
controllers (none ∷ js) = controllers js
controllers (some id ∷ js) = id ∷ controllers js

abbrev pub Differs : ℤ → List ℤ → Type 0
Differs x [] = Unit {0}
Differs x (y ∷ ys) = (x ≢ y) × Differs x ys

abbrev pub AllDistinct : List ℤ → Type 0
AllDistinct [] = Unit {0}
AllDistinct (x ∷ xs) = Differs x xs × AllDistinct xs

nth_gamepad_lem :
    (k : ℕ) (js : Joysticks) (seen : ℕ)
    → seen ≤ k
    → nth_gamepad k js seen ≡ get_or (controllers js) (k - seen) (negsuc 0)
unfolding nth_gamepad
nth_gamepad_lem k [] seen h = refl
nth_gamepad_lem k (none ∷ js) seen h = nth_gamepad_lem k js seen h
nth_gamepad_lem k (some id ∷ js) seen h = elim (Bool-cases (seen == k)) [
  | inl e ↦ let z : k - seen ≡ 0 = ground arith in rw (e, z)
  | inr e ↦
      let lt : seen + 1 ≤ k = ground arith in
      let z : k - seen ≡ suc (k - (seen + 1)) = omega arith in
      rw (e, z) (nth_gamepad_lem k js (seen + 1) lt)
]

Differs-get_or :
    (x : ℤ) (ys : List ℤ) (j : ℕ)
    → Differs x ys
    → get_or ys j (negsuc 0) ≢ negsuc 0
    → x ≢ get_or ys j (negsuc 0)
Differs-get_or x [] j d ne e = ne refl
Differs-get_or x (y ∷ ys) zero (d, _) ne e = d e
Differs-get_or x (y ∷ ys) (suc j) (_, ds) ne e = Differs-get_or x ys j ds ne e

AllDistinct-get_or :
    (xs : List ℤ) (i j : ℕ)
    → AllDistinct xs
    → i < j
    → get_or xs j (negsuc 0) ≢ negsuc 0
    → get_or xs i (negsuc 0) ≢ get_or xs j (negsuc 0)
AllDistinct-get_or [] i j d lt ne = absurd (ne refl)
AllDistinct-get_or (x ∷ xs) i zero d lt ne = absurd (omega arith)
AllDistinct-get_or (x ∷ xs) zero (suc j) (d, _) lt ne = Differs-get_or x xs j d ne
AllDistinct-get_or (x ∷ xs) (suc i) (suc j) (_, ds) lt ne =
    AllDistinct-get_or xs i j ds (omega arith) ne

ordinal_mono : (cfg : Dict) (a n : ℕ) → ordinal cfg a ≤ ordinal cfg (a + n)
unfolding ordinal
ordinal_mono cfg a zero = rw a_zero (omega arith)
  where
    a_zero : a + 0 ≡ a
    a_zero = omega arith
ordinal_mono cfg a (suc n) =
    let e : a + suc n ≡ suc (a + n) = omega arith in rw e (omega (arith, ordinal_mono cfg a n))

ordinal-lt : (cfg : Dict) (a b : ℕ) → a < b → device_of cfg a ≡ 2 → ordinal cfg a < ordinal cfg b
ordinal-lt cfg a b lt e =
    let s : suc a + (b - suc a) ≡ b = omega arith in
    let m = ordinal_mono cfg (suc a) (b - suc a) in
    let here : ordinal cfg (suc a) ≡ ordinal cfg a + 1 = unfold ordinal in ground arith in
    omega (arith, ap (ordinal cfg) s)

gamepad_instance_lem :
    (cfg : Dict) (js : Joysticks) (n : ℕ)
    → device_of cfg n ≡ 2
    → (assign_port cfg js n).gamepad_instance ≡ get_or (controllers js) (ordinal cfg n) (negsuc 0)
unfolding assign_port
gamepad_instance_lem cfg js n e =
    let z : ordinal cfg n - 0 ≡ ordinal cfg n = omega arith in
    rw e (rw z at (nth_gamepad_lem (ordinal cfg n) js 0 (omega arith)))

-- Where the controllers' instance ids are distinct, two gamepad ports of which the later is bound to a
-- controller are not bound to the same one.
pub assign_port_distinct :
    (cfg : Dict) (js : Joysticks) (a b : ℕ)
    → AllDistinct (controllers js)
    → a < b
    → device_of cfg a ≡ 2
    → device_of cfg b ≡ 2
    → (assign_port cfg js b).gamepad_instance ≢ negsuc 0
    → (assign_port cfg js a).gamepad_instance ≢ (assign_port cfg js b).gamepad_instance
assign_port_distinct cfg js a b distinct lt ea eb bound =
    let ia = gamepad_instance_lem cfg js a ea in
    let ib = gamepad_instance_lem cfg js b eb in
    rw (ia, ib)
      (AllDistinct-get_or (controllers js) (ordinal cfg a) (ordinal cfg b) distinct
        (ordinal-lt cfg a b lt ea) (rw ib at bound))

-- What a number stands for in launcher.cfg: 0 no device, 1 the keyboard, 2 and above a gamepad.
abbrev pub kind_of_number : ℤ → DeviceKind
kind_of_number (negsuc n) = nothing
kind_of_number (pos zero) = nothing
kind_of_number (pos (suc zero)) = keyboard
kind_of_number (pos (suc (suc n))) = gamepad

abbrev pub kind_of_text : Option Bytes → DeviceKind
kind_of_text none = nothing
kind_of_text (some v) = kind_of_number (atoi v)

abbrev pub is_text : Option Bytes → Bool
is_text none = false
is_text (some []) = false
is_text (some (c ∷ cs)) = true

abbrev pub is_device : DeviceKind → Bool
is_device nothing = false
is_device keyboard = true
is_device gamepad = true

abbrev pub is_pad : DeviceKind → Bool
is_pad nothing = false
is_pad keyboard = false
is_pad gamepad = true

-- The value under p1…, p2… for the ports from 0 on.
abbrev pub setting : Dict → ℕ → Bytes → Option Bytes
setting cfg n suffix = find (b'p' ∷ (b'1' + n) ∷ suffix) cfg

abbrev pub chosen_kind : Dict → ℕ → DeviceKind
chosen_kind cfg n = kind_of_text (setting cfg n (codes "_device"))

-- How many of the ports below `n` have a gamepad.
abbrev pub pads_below : (ℕ → DeviceKind) → ℕ → ℕ
pads_below kind zero = 0
pads_below kind (suc n) = pads_below kind n + (if is_pad (kind n) then 1 else 0)

abbrev pub number_of : DeviceKind → ℕ
number_of nothing = 0
number_of keyboard = 1
number_of gamepad = 2

source_of_lem : (x : ℤ) → source_of x ≡ number_of (kind_of_number x)
unfolding source_of
source_of_lem (negsuc n) = ground arith
source_of_lem (pos zero) = refl
source_of_lem (pos (suc zero)) = refl
source_of_lem (pos (suc (suc n))) = ground arith

source_from_lem : (o : Option Bytes) → source_from o ≡ number_of (kind_of_text o)
unfolding source_from
source_from_lem none = refl
source_from_lem (some v) = source_of_lem (atoi v)

pub device_of_lem : (cfg : Dict) (n : ℕ) → device_of cfg n ≡ number_of (chosen_kind cfg n)
unfolding device_of
device_of_lem cfg n = source_from_lem (setting cfg n (codes "_device"))

given_lem : (o : Option Bytes) → given o ≡ is_text o
given_lem none = refl
given_lem (some []) = refl
given_lem (some (c ∷ cs)) = refl

tpak_on_lem : (cfg : Dict) (n : ℕ) → tpak_on cfg n ≡ is_text (setting cfg n (codes "_rom"))
unfolding tpak_on
tpak_on_lem cfg n = given_lem (setting cfg n (codes "_rom"))

is_pad_lem : (k : DeviceKind) → (number_of k == 2) ≡ is_pad k
is_pad_lem nothing = refl
is_pad_lem keyboard = refl
is_pad_lem gamepad = refl

ordinal_lem : (cfg : Dict) (n : ℕ) → ordinal cfg n ≡ pads_below (chosen_kind cfg) n
unfolding ordinal
ordinal_lem cfg zero = refl
ordinal_lem cfg (suc n) =
    rw (ordinal_lem cfg n, device_of_lem cfg n, is_pad_lem (chosen_kind cfg n)) refl

assign_port_kind :
    (cfg : Dict) (js : Joysticks) (n : ℕ) (k : DeviceKind)
    → device_of cfg n ≡ number_of k
    → let pa = assign_port cfg js n in
      (pa.enabled ≡ (is_device k || tpak_on cfg n))
      × (pa.kind ≡ k)
      × (pa.gamepad_instance
          ≡ (if is_pad k then get_or (controllers js) (ordinal cfg n) (negsuc 0) else negsuc 0))
unfolding assign_port
assign_port_kind cfg js n nothing e = rw e (refl, refl, refl)
assign_port_kind cfg js n keyboard e = rw e (refl, refl, refl)
assign_port_kind cfg js n gamepad e =
    let z : ordinal cfg n - 0 ≡ ordinal cfg n = omega arith in
    rw e (refl, refl, rw z at (nth_gamepad_lem (ordinal cfg n) js 0 (omega arith)))

-- A port responds exactly if pN_device names a device or pN_rom a cart, and its kind is that of the
-- device; a gamepad port is bound to the controller whose rank, in device order, is the number of
-- gamepad ports before it, to none if there are not that many, and any other port to none.
pub assign_port_lem :
    (cfg : Dict) (js : Joysticks) (n : ℕ)
    → let pa = assign_port cfg js n in
      let kind = chosen_kind cfg n in
      (pa.enabled ≡ (is_device kind || is_text (setting cfg n (codes "_rom"))))
      × (pa.kind ≡ kind)
      × (pa.gamepad_instance ≡ (
          if is_pad kind
          then get_or (controllers js) (pads_below (chosen_kind cfg) n) (negsuc 0)
          else negsuc 0))
assign_port_lem cfg js n =
    rw (sym (tpak_on_lem cfg n), sym (ordinal_lem cfg n))
      (assign_port_kind cfg js n (chosen_kind cfg n) (device_of_lem cfg n))

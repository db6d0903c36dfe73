-- ===== src/Input/Presence.antt =====
-- Presence of a controller: the two answers of src/main/main.cpp agree.
use pocket_monsters_stadium.Prelude.Int.{ℤ, pos, negsuc}
use pocket_monsters_stadium.Prelude.{
  ℕ, ◌≡◌, refl, ◌∙◌, Option, Bool, true, false, ◌||◌, not, arith, ltb, ◌==◌, if◌then◌else◌,
  Bool-cases, inl, inr,
}
use pocket_monsters_stadium.Config.GameCfg.{DeviceKind, nothing, keyboard, gamepad}
use pocket_monsters_stadium.Input.Pads.{Sdl, Ports}
use pocket_monsters_stadium.Input.Read.{
  Devices, Override, Floats, get_n64_input, get_connected_device_info, source, read_device, Source,
  answer, device, read_source, routed, is_assigned,
}

abbrev answers : Source → Bool
answers (answer b) = b
answers (device pad use_kb primary) = true

present-read_source :
    (f : Floats) (d : Devices) (o : Override) (src : Source)
    → (read_source f d o src).present ≡ answers src
unfolding read_device
present-read_source f d o (answer b) = refl
present-read_source f d o (device pad use_kb primary) = refl

answers-routed :
    (k : DeviceKind) (pad : Option ℕ) (primary pak : Bool)
    → answers (routed k pad primary pak) ≡ (is_assigned k || pak)
unfolding routed
answers-routed nothing pad primary pak = refl
answers-routed keyboard pad primary pak = refl
answers-routed gamepad pad primary pak = refl

answers-if :
    (b : Bool) (x y : Source) → answers (if b then x else y) ≡ (if b then answers x else answers y)
answers-if true x y = refl
answers-if false x y = refl

answers-source :
    (sdl : Sdl) (s : Ports) (has_pak : ℤ → Bool) (n : ℤ)
    → answers (source s has_pak n) ≡ (get_connected_device_info sdl s has_pak n).1.controller
unfolding source get_connected_device_info
answers-source sdl s has_pak (negsuc n) = ground arith
answers-source sdl s has_pak (pos n) = elim (Bool-cases s.launcher_active) [
  | inl on ↦ rw (on, answers-if (ltb 3 n || not (s.enabled n)), answers-routed) (ground arith)
  | inr off ↦ rw (off, answers-if (n == 0)) (ground arith)
]

-- A read of a port succeeds exactly if the port's query reports a controller there, with and without
-- the launcher's routing and for every port number.
pub get_n64_input-present :
    (f : Floats) (sdl : Sdl) (s : Ports) (d : Devices) (o : Override) (has_pak : ℤ → Bool) (n : ℤ)
    → (get_n64_input f s d o has_pak n).present
      ≡ (get_connected_device_info sdl s has_pak n).1.controller
unfolding get_n64_input
get_n64_input-present f sdl s d o has_pak n =
    present-read_source f d o (source s has_pak n) ∙ answers-source sdl s has_pak n

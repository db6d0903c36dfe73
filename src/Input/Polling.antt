-- ===== src/Input/Polling.antt =====
-- Which pads a poll of src/main/main.cpp opens in launcher mode.
use pocket_monsters_stadium.Prelude.Int.{ℤ, pos, negsuc, eqb_ℤ, leb_ℤ}
use pocket_monsters_stadium.Prelude.{
  ℕ, zero, suc, ◌+◌, ◌<◌, ◌≡◌, ◌≢◌, refl, sym, ap, ◌∙◌, inl, inr, Bool, true, false, ◌&&◌, [], ◌∷◌,
  Option, none, some, arith, leb, if◌then◌else◌, get_elem?, Bool-cases,
}
use pocket_monsters_stadium.Config.GameCfg.{DeviceKind, nothing, keyboard, gamepad, Joysticks}
use pocket_monsters_stadium.Input.Pads.{
  Sdl, Ports, index_of, open_pad_by_instance, opened, existing_or, is_gamepad, is_none, poll_port,
  poll_inputs,
}

-- The first joystick that is the controller with an instance id stands at that index.
pub record IsFirst (id : ℤ) (js : Joysticks) (k : ℕ) : Type 0 where
  pub here : get_elem? js k ≡ some (some id)
  pub before : (m : ℕ) → m < k → get_elem? js m ≢ some (some id)

abbrev pub IsAbsent : ℤ → Joysticks → Type 0
IsAbsent id js = (m : ℕ) → get_elem? js m ≢ some (some id)

-- The result of a search from index `i` on.
data Search (id : ℤ) (js : Joysticks) (i : ℕ) : Option ℕ → Type 0 where
  hit : (n k : ℕ) → IsFirst id js k → n ≡ i + k → Search id js i (some n)
  miss : IsAbsent id js → Search id js i none

eqb_sound : (a b : ℤ) → eqb_ℤ a b ≡ true → a ≡ b
eqb_sound (pos a) (pos b) h = ap pos (ground arith)
eqb_sound (pos a) (negsuc b) h = absurd (ground arith)
eqb_sound (negsuc a) (pos b) h = absurd (ground arith)
eqb_sound (negsuc a) (negsuc b) h = ap negsuc (ground arith)

eqb_complete : (a : ℤ) → eqb_ℤ a a ≡ true
eqb_complete (pos a) = ground arith
eqb_complete (negsuc a) = ground arith

IsFirst-further :
    (id : ℤ) (x : Option ℤ) (js : Joysticks) (k : ℕ)
    → some x ≢ some (some id)
    → IsFirst id js k
    → IsFirst id (x ∷ js) (suc k)
IsFirst-further id x js k ne f = record { here = f.here; before = go }
  where
    go : (m : ℕ) → m < suc k → get_elem? (x ∷ js) m ≢ some (some id)
    go zero h = ne
    go (suc m) h = f.before m (omega arith)

Search-further :
    (id : ℤ) (x : Option ℤ) (js : Joysticks) (i : ℕ) (o : Option ℕ)
    → some x ≢ some (some id)
    → Search id js (i + 1) o
    → Search id (x ∷ js) i o
Search-further id x js i o ne (hit n k f e) =
    hit n (suc k) (IsFirst-further id x js k ne f) (omega arith)
Search-further id x js i o ne (miss a) = miss go
  where
    go : IsAbsent id (x ∷ js)
    go zero = ne
    go (suc m) = a m

differs : (x id : ℤ) → eqb_ℤ x id ≡ false → some (some x) ≢ some (some id)
differs x id h e = clash (sym h ∙ ap same e ∙ eqb_complete id)
  where
    same : Option (Option ℤ) → Bool
    same none = false
    same (some none) = false
    same (some (some y)) = eqb_ℤ y id

    clash : false ≢ true
    clash z = cc

index_of-Search : (id : ℤ) (js : Joysticks) (i : ℕ) → Search id js i (index_of id js i)
unfolding index_of
index_of-Search id [] i = miss (λ m e. cc)
index_of-Search id (none ∷ js) i =
    Search-further id none js i _ (λ e. cc) (index_of-Search id js (i + 1))
index_of-Search id (some x ∷ js) i = elim (Bool-cases (eqb_ℤ x id)) [
  | inl e ↦ rw e (
      hit i 0
        (record {
          here = ap (λ y. some (some y)) (eqb_sound x id e);
          before = λ m h. absurd (omega arith);
        })
        (omega arith))
  | inr e ↦
      rw e (Search-further id (some x) js i _ (differs x id e) (index_of-Search id js (i + 1)))
]

-- What opening the pad of an instance id gives: the handle that SDL has for it, else what opening the
-- first controller with that id gives, and nothing if no controller has it.
pub data Opens (sdl : Sdl) (id : ℤ) : Option ℕ → Type 0 where
  already : (h : ℕ) → sdl.from_instance id ≡ some h → Opens sdl id (some h)
  found :
      (k : ℕ)
      → sdl.from_instance id ≡ none
      → IsFirst id sdl.joysticks k
      → Opens sdl id (sdl.open_index k)
  absent : sdl.from_instance id ≡ none → IsAbsent id sdl.joysticks → Opens sdl id none

by_search :
    (sdl : Sdl) (id : ℤ) (o : Option ℕ)
    → sdl.from_instance id ≡ none
    → Search id sdl.joysticks 0 o
    → Opens sdl id (opened sdl o)
by_search sdl id o h (hit n k f e) = let same : n ≡ k = omega arith in rw same (found k h f)
by_search sdl id o h (miss a) = absent h a

by_handle :
    (sdl : Sdl) (id : ℤ) (o : Option ℕ)
    → sdl.from_instance id ≡ o
    → Opens sdl id (existing_or o (opened sdl (index_of id sdl.joysticks 0)))
by_handle sdl id none h = by_search sdl id _ h (index_of-Search id sdl.joysticks 0)
by_handle sdl id (some n) h = already n h

open_pad-Opens : (sdl : Sdl) (id : ℤ) → Opens sdl id (open_pad_by_instance sdl id)
unfolding open_pad_by_instance
open_pad-Opens sdl id = by_handle sdl id (sdl.from_instance id) refl

-- The pad of a port after a poll: the one it has; for a gamepad port without one and with an instance id,
-- what opening that id gives; and none for any other port without one.
pub data Polled (sdl : Sdl) (kind : DeviceKind) (id : ℤ) (old : Option ℕ) : Option ℕ → Type 0 where
  kept : (h : ℕ) → old ≡ some h → Polled sdl kind id old (some h)
  opens :
      (k : ℕ) (o : Option ℕ)
      → old ≡ none
      → kind ≡ gamepad
      → id ≡ pos k
      → Opens sdl id o
      → Polled sdl kind id old o
  no_gamepad : old ≡ none → kind ≢ gamepad → Polled sdl kind id old none
  no_instance : (k : ℕ) → old ≡ none → id ≡ negsuc k → Polled sdl kind id old none

poll-Polled :
    (sdl : Sdl) (kind : DeviceKind) (id : ℤ) (old : Option ℕ)
    → Polled sdl kind id old (
        if is_gamepad kind && is_none old && leb_ℤ (pos 0) id
        then open_pad_by_instance sdl id
        else old)
poll-Polled sdl nothing id none = no_gamepad refl (λ e. cc)
poll-Polled sdl nothing id (some h) = kept h refl
poll-Polled sdl keyboard id none = no_gamepad refl (λ e. cc)
poll-Polled sdl keyboard id (some h) = kept h refl
poll-Polled sdl gamepad (pos k) none =
    let low : leb 0 (k + 0) ≡ true = ground arith in
    rw low (opens k _ refl refl refl (open_pad-Opens sdl (pos k)))
poll-Polled sdl gamepad (negsuc k) none =
    let high : leb (0 + suc k) 0 ≡ false = ground arith in rw high (no_instance k refl refl)
poll-Polled sdl gamepad id (some h) = kept h refl

-- A poll in launcher mode leaves each of the four ports with the pad that it has; a gamepad port without
-- one and with an instance id of 0 or more gets the handle that SDL has for that id, else what opening the
-- first controller with that id gives, or none if there is no such controller; any other port gets none.
pub poll_inputs-Polled :
    (sdl : Sdl) (s : Ports) (n : ℕ)
    → n < 4
    → s.launcher_active ≡ true
    → Polled sdl (s.kind n) (s.instance_id n) (s.port_pad n) ((poll_inputs sdl s).port_pad n)
unfolding poll_inputs poll_port
poll_inputs-Polled sdl s n h on = rw on (each n h)
  where
    each :
        (n : ℕ)
        → n < 4
        → Polled sdl
            (s.kind n)
            (s.instance_id n)
            (s.port_pad n)
            ((poll_port sdl 3 (poll_port sdl 2 (poll_port sdl 1 (poll_port sdl 0 s)))).port_pad n)
    each zero h = poll-Polled sdl (s.kind 0) _ _
    each (suc zero) h = poll-Polled sdl (s.kind 1) _ _
    each (suc (suc zero)) h = poll-Polled sdl (s.kind 2) _ _
    each (suc (suc (suc zero))) h = poll-Polled sdl (s.kind 3) _ _
    each (suc (suc (suc (suc n)))) h = absurd (omega arith)

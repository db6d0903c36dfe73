-- ===== src/Prelude/Text.antt =====
-- Texts as lists of bytes, and the searches of std::string that the program uses.
use Prim.Native.Char.{code}
use Prim.Native.String.{String}
use Prim.Native.Nat.{ℕ}
use mathlib.Core.Path.{◌≡◌, refl}
use mathlib.Core.Logic.{◌↔◌}
use mathlib.Core.Bool.{Bool, true, false, ◌&&◌, ◌||◌}
use mathlib.Core.List.{List, [], ◌∷◌}
use mathlib.Core.Option.{Option, none, some}
use native.Mathlib.Omega.{arith}
use pocket_monsters_stadium.Prelude.Tests.{◌==◌, if◌then◌else◌, ==_iff}

abbrev pub Bytes : Type 0
Bytes = List ℕ

-- The code points of a literal: its bytes, since every literal here is ASCII.
abbrev pub codes : String → Bytes
codes String.[] = []
codes (String.◌∷◌ c s) = code c ∷ codes s

abbrev pub bytes_eq : Bytes → Bytes → Bool
bytes_eq [] [] = true
bytes_eq [] (y ∷ ys) = false
bytes_eq (x ∷ xs) [] = false
bytes_eq (x ∷ xs) (y ∷ ys) = x == y && bytes_eq xs ys

pub bytes_eq_iff : (xs ys : Bytes) → (bytes_eq xs ys ≡ true) ↔ (xs ≡ ys)
bytes_eq_iff [] [] = ground arith
bytes_eq_iff [] (y ∷ ys) = ground arith
bytes_eq_iff (x ∷ xs) [] = ground arith
bytes_eq_iff (x ∷ xs) (y ∷ ys) = ground (arith, ==_iff x y, bytes_eq_iff xs ys)

pub bytes_eq_refl : (xs : Bytes) → bytes_eq xs xs ≡ true
bytes_eq_refl xs = (bytes_eq_iff xs xs).1 refl

-- The part of `s` behind the first `c`: what follows `s.find(c) + 1`, if there is one.
abbrev pub after_byte : ℕ → Bytes → Option Bytes
after_byte c [] = none
after_byte c (x ∷ xs) = if x == c then some xs else after_byte c xs

-- The part of `s` before the first `c`, or all of it.
abbrev pub before_byte : ℕ → Bytes → Bytes
before_byte c [] = []
before_byte c (x ∷ xs) = if x == c then [] else x ∷ before_byte c xs

abbrev pub has_byte : ℕ → Bytes → Bool
has_byte c [] = false
has_byte c (x ∷ xs) = x == c || has_byte c xs

-- What follows the text `k`, if `s` begins with it.
abbrev pub strip_prefix : Bytes → Bytes → Option Bytes
strip_prefix [] s = some s
strip_prefix (k ∷ ks) [] = none
strip_prefix (k ∷ ks) (x ∷ xs) = if k == x then strip_prefix ks xs else none

-- What follows the first occurrence of `k`: the part from `s.find(k) + k.size()` on.
abbrev pub after_text : Bytes → Bytes → Option Bytes
after_text k [] = strip_prefix k []
after_text k (x ∷ xs) = elim (strip_prefix k (x ∷ xs)) [
  | some rest ↦ some rest
  | none ↦ after_text k xs
]

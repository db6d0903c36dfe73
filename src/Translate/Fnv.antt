-- ===== src/Translate/Fnv.antt =====
-- The content hash that keys the translation table (`pms_fnv1a` of src/main/diagnostics.cpp).
use Prim.Native.Nat.{bit_xor}
use pocket_monsters_stadium.Prelude.{
  ℕ, ◌*◌, ◌%◌, ◌^◌, ◌<◌, ◌≡◌, ◌≢◌, refl, sym, ◌∙◌, ap, [], ◌∷◌, ◌++◌, arith, Bytes,
}
use pocket_monsters_stadium.Prelude.Bits.{bit_xor_twice, bit_xor_comm, bit_xor-lt}

abbrev pub u64_mod : ℕ
u64_mod = 2 ^ 64

-- `h ^= p[i]; h *= 1099511628211ull;`
unfoldable pub fnv_step : ℕ → ℕ → ℕ
fnv_step h b = bit_xor h b * 1099511628211 % u64_mod

unfoldable pub fnv_from : ℕ → Bytes → ℕ
fnv_from h [] = h
fnv_from h (b ∷ bs) = fnv_from (fnv_step h b) bs

unfoldable pub fnv1a : Bytes → ℕ
unfolding fnv_from fnv_step
fnv1a s = fnv_from 1469598103934665603 s

-- The odd prime has an inverse modulo 2 ^ 64.
prime_injective :
    (x y : ℕ)
    → x < u64_mod
    → y < u64_mod
    → x * 1099511628211 % u64_mod ≡ y * 1099511628211 % u64_mod
    → x ≡ y
prime_injective x y hx hy h = omega arith

pub fnv_step-lt : (h b : ℕ) → fnv_step h b < u64_mod
unfolding fnv_step
fnv_step-lt h b = omega arith

pub fnv_from-lt : (s : Bytes) (h : ℕ) → h < u64_mod → fnv_from h s < u64_mod
unfolding fnv_from
fnv_from-lt [] h lt = lt
fnv_from-lt (b ∷ bs) h lt = fnv_from-lt bs (fnv_step h b) (fnv_step-lt h b)

-- A step loses nothing of the state, given the byte, and nothing of the byte, given the state.
fnv_step_injective :
    (h g a b : ℕ)
    → h < u64_mod
    → g < u64_mod
    → a < 256
    → b < 256
    → fnv_step h a ≡ fnv_step g b
    → bit_xor h a ≡ bit_xor g b
unfolding fnv_step
fnv_step_injective h g a b hh hg ha hb e =
    prime_injective (bit_xor h a) (bit_xor g b) (bit_xor-lt 64 h a hh (omega arith))
      (bit_xor-lt 64 g b hg (omega arith)) e

fnv_step-state :
    (h g b : ℕ) → h < u64_mod → g < u64_mod → b < 256 → fnv_step h b ≡ fnv_step g b → h ≡ g
fnv_step-state h g b hh hg hb e =
    sym (bit_xor_twice h b)
    ∙ ap (λ (x : ℕ). bit_xor x b) (fnv_step_injective h g b b hh hg hb hb e)
    ∙ bit_xor_twice g b

fnv_step-byte : (h a b : ℕ) → h < u64_mod → a < 256 → b < 256 → fnv_step h a ≡ fnv_step h b → a ≡ b
fnv_step-byte h a b hh ha hb e =
    sym (bit_xor_twice a h)
    ∙ ap (λ (x : ℕ). bit_xor x h)
        (bit_xor_comm a h ∙ fnv_step_injective h h a b hh hh ha hb e ∙ bit_xor_comm h b)
    ∙ bit_xor_twice b h

abbrev pub IsBytes : Bytes → Type 0
IsBytes [] = Unit {0}
IsBytes (b ∷ bs) = (b < 256) × IsBytes bs

fnv_from-state :
    (s : Bytes) (h g : ℕ)
    → IsBytes s
    → h < u64_mod
    → g < u64_mod
    → fnv_from h s ≡ fnv_from g s
    → h ≡ g
unfolding fnv_from
fnv_from-state [] h g w hh hg e = e
fnv_from-state (b ∷ bs) h g (lt, w) hh hg e =
    fnv_step-state h g b hh hg lt
      (fnv_from-state bs (fnv_step h b) (fnv_step g b) w (fnv_step-lt h b) (fnv_step-lt g b) e)

fnv_from-append : (s t : Bytes) (h : ℕ) → fnv_from h (s ++ t) ≡ fnv_from (fnv_from h s) t
unfolding fnv_from
fnv_from-append [] t h = refl
fnv_from-append (b ∷ bs) t h = fnv_from-append bs t (fnv_step h b)

-- Two texts of bytes that differ in exactly one place have different keys.
pub fnv1a_one_byte :
    (s t : Bytes) (a b : ℕ)
    → IsBytes t
    → a < 256
    → b < 256
    → a ≢ b
    → fnv1a (s ++ a ∷ t) ≢ fnv1a (s ++ b ∷ t)
unfolding fnv1a
fnv1a_one_byte s t a b w ha hb ne e =
    let h = fnv_from 1469598103934665603 s in
    let lt = fnv_from-lt s 1469598103934665603 (omega arith) in
    let same =
      sym (fnv_from-append s (a ∷ t) 1469598103934665603)
      ∙ e
      ∙ fnv_from-append s (b ∷ t) 1469598103934665603 in
    ne (
      fnv_step-byte h a b lt ha hb
        (fnv_from-state t (fnv_step h a) (fnv_step h b) w (fnv_step-lt h a) (fnv_step-lt h b) same))

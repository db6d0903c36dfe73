-- ===== src/Tests/Guest.antt =====
-- Guest memory, the scratch slots and the content hash at concrete inputs.
use pocket_monsters_stadium.Prelude.{
  ℕ, ◌+◌, ◌≡◌, ◌≢◌, refl, true, false, ◌∷◌, ◌++◌, some, arith, Bytes, codes, length,
}
use pocket_monsters_stadium.Memory.{
  Rdram, physical, read_text_arg, write_guest_str, rdram_range, store_byte, store_bytes, textish,
}
use pocket_monsters_stadium.Memory.RoundTrip.{read_text_arg-write_guest_str, Stands}
use pocket_monsters_stadium.Scratch.{swap_scratch, swaps_disjoint}
use pocket_monsters_stadium.Translate.Fnv.{fnv1a, fnv1a_one_byte}

-- RDRAM full of zeros.
abbrev blank : Rdram
blank a = 0

-- The memory after a text has been written at that address.
abbrev after_write : Rdram → ℕ → Bytes → Rdram
after_write r va s = store_byte (store_bytes r (physical va) s) (physical va + length s) 0

read_back_example :
    read_text_arg (after_write blank 0x80001000 (codes "Flame")) 0x80001000 ≡ some (codes "Flame")
unfolding write_guest_str rdram_range textish
read_back_example =
    read_text_arg-write_guest_str blank 0x80001000 (codes "Flame") refl
      (refl, (refl, (refl, (refl, (refl, tt))))) (omega arith) (omega arith)

abbrev stack : ℕ
stack = 0x80200000

abbrev with_format : Rdram
with_format = after_write blank (swap_scratch stack true) (codes "%s Pokemon")

abbrev with_both : Rdram
with_both = after_write with_format (swap_scratch stack false) (codes "Flame")

swaps_example :
    Stands with_both (physical (swap_scratch stack true)) (codes "%s Pokemon")
    × Stands with_both (physical (swap_scratch stack false)) (codes "Flame")
unfolding write_guest_str rdram_range swap_scratch
swaps_example =
    swaps_disjoint true blank stack (codes "%s Pokemon") (codes "Flame") (omega arith) (omega arith)
      (omega arith) (omega arith) refl refl

fnv1a_example : fnv1a (codes "Fl" ++ b'a' ∷ codes "me") ≢ fnv1a (codes "Fl" ++ b'u' ∷ codes "me")
fnv1a_example =
    fnv1a_one_byte (codes "Fl") (codes "me") b'a' b'u' (omega arith, (omega arith, tt))
      (omega arith) (omega arith) (omega arith)

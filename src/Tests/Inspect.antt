-- ===== src/Tests/Inspect.antt =====
-- The Transfer Pak inspector at a concrete save.
use pocket_monsters_stadium.Prelude.{
  ℕ, ◌≡◌, refl, [], ◌∷◌, ◌++◌, some, none, arith, Bytes, codes, replicate, set,
}
use pocket_monsters_stadium.Launcher.Inspect.{
  TpakCaps, has, kind_of, main_data, byte_sum, checks, pmsj_tpak_inspect, inspect_damaged,
}

abbrev glyph_of : ℕ → Bytes
glyph_of c = c ∷ []

abbrev caps : TpakCaps
caps = record { label = 64; name = 32; id = 8 }

abbrev empty_save : Bytes
empty_save = replicate 0x3523 0 ++ (255 ∷ [])

abbrev rom : Bytes
rom = replicate 0x134 0 ++ (codes "POKEMON RED" ++ replicate 0x20 0)

inspect_damaged_example :
    pmsj_tpak_inspect glyph_of caps (some rom) (some (set empty_save 0x3000 7))
    ≡ pmsj_tpak_inspect glyph_of caps (some rom) none
unfolding checks main_data byte_sum
inspect_damaged_example =
    inspect_damaged glyph_of caps (some rom) empty_save 0x3000 0 7 (omega arith) (omega arith) refl
      (omega arith) (omega arith) (λ e. omega arith) refl

red_run : kind_of (codes "POKEMON RED") ≡ 1
unfolding kind_of has
red_run = refl

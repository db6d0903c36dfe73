-- ===== src/Tests/Boot.antt =====
-- The start of the game at concrete inputs.
use pocket_monsters_stadium.Prelude.{
  ℕ, ◌+◌, ◌*◌, ◌≡◌, refl, true, false, List, [], ◌∷◌, none, some, arith, Bytes, codes, bytes_eq,
  if◌then◌else◌,
}
use pocket_monsters_stadium.Boot.Rom.{
  Disk, good, incorrect_rom, resolve_rom, resolve_rom_lem, started_path, written, first_path,
  first_accepted, on_command_line,
}
use pocket_monsters_stadium.Audio.{decimate}
use pocket_monsters_stadium.Audio.Decimate.{decimate_lem}

abbrev disk : Disk
disk = record {
  exists = λ p. true;
  select_rom = λ p. elim (bytes_eq p (codes "pms.z64")) [ true ↦ good | false ↦ incorrect_rom ];
  beside = codes "baserom.z64";
  above = codes "../baserom.z64";
}

abbrev picks : List Bytes
picks = codes "other.z64" ∷ codes "pms.z64" ∷ []

resolve_rom_example :
    let tried = first_path disk none (some (codes "old.z64")) ∷ picks in
    (started_path (resolve_rom disk none (some (codes "old.z64")) picks)
      ≡ first_accepted disk tried)
    × (written (resolve_rom disk none (some (codes "old.z64")) picks)
        ≡ (if on_command_line none then none else first_accepted disk tried))
resolve_rom_example = resolve_rom_lem disk none (some (codes "old.z64")) picks

resolve_rom_runs :
    started_path (resolve_rom disk none (some (codes "old.z64")) picks) ≡ some (codes "pms.z64")
unfolding resolve_rom
resolve_rom_runs = refl

abbrev samples : ℕ → ℕ
samples i = i

decimate_example :
    (decimate 2 0 3 samples (2 * 1) ≡ samples (2 * (2 * 1)))
    × (decimate 2 0 3 samples (2 * 1 + 1) ≡ samples (2 * (2 * 1) + 1))
decimate_example = decimate_lem 2 3 1 samples (omega arith) (omega arith)

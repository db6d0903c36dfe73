-- ===== src/Translate/Load/Fuel.antt =====
-- The scan of translations.json always ends (`load_translations_locked` of src/main/diagnostics.cpp).
use pocket_monsters_stadium.Prelude.{
  ℕ, zero, suc, ◌+◌, ◌≡◌, ◌≤◌, ◌<◌, refl, [], ◌∷◌, Option, none, some, arith, Bytes, length, drop,
  strip_prefix, length-drop,
}
use pocket_monsters_stadium.Translate.Json.{from_text, first_hit}
use pocket_monsters_stadium.Translate.Load.{XlateMap, src_key, entries, read_entries}

-- How much of the text a position has before it.
abbrev pub size : Option Bytes → ℕ
size none = 0
size (some s) = length s + 1

first_hit_le :
    (o : Option Bytes) (x : ℕ) (xs : Bytes) (later : Option Bytes)
    → size later ≤ length xs + 1
    → size (first_hit o (x ∷ xs) later) ≤ length (x ∷ xs) + 1
first_hit_le none x xs later h = omega arith
first_hit_le (some r) x xs later h = omega arith

pub from_text_le : (k s : Bytes) → size (from_text k s) ≤ length s + 1
unfolding from_text
from_text_le k [] = ground arith
from_text_le k (x ∷ xs) =
    first_hit_le (strip_prefix k (x ∷ xs)) x xs (from_text k xs) (from_text_le k xs)

shrinks : (s : Bytes) → size (from_text src_key (drop 9 s)) ≤ length s
unfolding from_text
shrinks [] = ground arith
shrinks (x ∷ xs) = omega (arith, from_text_le src_key (drop 9 (x ∷ xs)), length-drop 9 (x ∷ xs))

entries_total :
    (fuel : ℕ) (at : Option Bytes) (m : XlateMap)
    → size at < fuel
    → (r : XlateMap) × (entries fuel at m ≡ some r)
unfolding entries
entries_total zero at m h = absurd (omega arith)
entries_total (suc fuel) none m h = (m, refl)
entries_total (suc fuel) (some at) m h =
    entries_total fuel (from_text src_key (drop 9 at)) _ (omega (arith, shrinks at))

-- Whatever the file holds, its entries are read to the end: the fuel of the scan is enough.
pub read_entries_total : (text : Bytes) → (r : XlateMap) × (read_entries text ≡ some r)
unfolding read_entries
read_entries_total text =
    entries_total (length text + 2) (from_text src_key text) []
      (omega (arith, from_text_le src_key text))

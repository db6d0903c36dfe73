-- ===== src/Config/Dict.antt =====
-- std::map and std::unordered_map from texts to texts, as the readers of launcher.cfg use them.
use mathlib.Core.Option
use pocket_monsters_stadium.Prelude.{
  List, [], ◌∷◌, Option, none, some, ◌≡◌, refl, arith, if◌then◌else◌, Bytes, bytes_eq, bytes_eq_iff,
}

abbrev pub Dict : Type 0
Dict = List (Bytes × Bytes)

unfoldable pub find : Bytes → Dict → Option Bytes
find k [] = none
find k ((j, v) ∷ m) = if bytes_eq j k then some v else find k m

-- `m[k] = v`
unfoldable pub assign : Bytes → Bytes → Dict → Dict
assign k v [] = (k, v) ∷ []
assign k v ((j, w) ∷ m) = if bytes_eq j k then (k, v) ∷ m else (j, w) ∷ assign k v m

-- The entry just assigned is found; any other key is found as before.
pub find-assign :
    (k j v : Bytes) (m : Dict) → find j (assign k v m) ≡ (if bytes_eq k j then some v else find j m)
unfolding find assign
find-assign k j v [] = refl
find-assign k j v ((i, w) ∷ m) =
    ground (arith, bytes_eq_iff k j, bytes_eq_iff i k, bytes_eq_iff i j, find-assign k j v m)

-- `it == end() ? std::string() : it->second`
unfoldable pub get : Bytes → Dict → Bytes
unfolding find
get k m = Option.get_or (find k m) []

-- ===== src/Launcher/Commit/Game.antt =====
-- The game's and the launcher's reader on a committed file.
use mathlib.Core.Path.{ap₂}
use pocket_monsters_stadium.Prelude.{
  Bool, true, false, List, [], ◌∷◌, ◌++◌, none, some, ◌≡◌, refl, sym, ap, ◌∙◌, ◌&&◌, if◌then◌else◌,
  Bytes, bytes_eq, has_byte, before_byte, after_byte,
}
use pocket_monsters_stadium.Config.Dict.{Dict, find, assign, find-assign}
use pocket_monsters_stadium.Config.Lines.{
  lines, lines-append, cut_comment-plain, is_plain, is_plain-append, is_plain-newline,
  before_byte-append, after_byte-append,
}
use pocket_monsters_stadium.Config.GameCfg.{
  trim, to_lower_str, assign_key, read_pair, read_line, read_lines, read_cfg_map,
}
use pocket_monsters_stadium.Launcher.Write.{Item, comment, entry, item_line, render}
use pocket_monsters_stadium.Launcher.Commit.Items.{
  IsKey, IsClean, AreClean, good_head, or_else, or_else_assoc, or_else-none, last_value, any_value,
}

-- The map after the entries of the file.
abbrev assign_items : Dict → List Item → Dict
assign_items m [] = m
assign_items m (comment t ∷ is) = assign_items m is
assign_items m (entry k v ∷ is) = assign_items (assign k v m) is

read_line-comment : (m : Dict) (t : Bytes) → read_line m (item_line (comment t)) ≡ m
unfolding read_line item_line
read_line-comment m t = refl

assign_key-good : (k v : Bytes) (m : Dict) → good_head k ≡ true → assign_key k v m ≡ assign k v m
assign_key-good [] v m h = cc
assign_key-good (c ∷ k) v m h = refl

pub is_plain-entry : (k v : Bytes) → IsKey k → IsClean v → is_plain (k ++ (b'=' ∷ v)) ≡ true
is_plain-entry k v key clean = is_plain-append k (b'=' ∷ v) key.plain clean.plain

read_pair-key :
    (m : Dict) (k v : Bytes) → IsKey k → IsClean v → read_pair m k (some v) ≡ assign k v m
unfolding read_pair
read_pair-key m k v key clean =
    ap (λ j. assign_key (to_lower_str j) (trim v) m) key.trimmed
    ∙ ap₂ (λ j w. assign_key j w m) key.lowered clean.trimmed
    ∙ assign_key-good k v m key.head

read_line-entry :
    (m : Dict) (k v : Bytes)
    → IsKey k
    → IsClean v
    → read_line m (item_line (entry k v)) ≡ assign k v m
unfolding read_line item_line
read_line-entry m k v key clean =
    ap (λ s. read_pair m (before_byte b'=' s) (after_byte b'=' s))
      (cut_comment-plain (k ++ (b'=' ∷ v)) (is_plain-entry k v key clean))
    ∙ ap₂ (read_pair m) (before_byte-append b'=' k v key.no_equals)
        (after_byte-append b'=' k v key.no_equals)
    ∙ read_pair-key m k v key clean

pub item_line-newline : (i : Item) → AreClean (i ∷ []) → has_byte b'\n' (item_line i) ≡ false
unfolding item_line
item_line-newline (comment t) (h, _) = h
item_line-newline (entry k v) (key, clean, _) =
    is_plain-newline (k ++ (b'=' ∷ v)) (is_plain-entry k v key clean)

read_lines-render :
    (is : List Item) (m : Dict) → AreClean is → read_lines m (lines (render is)) ≡ assign_items m is
unfolding render read_line lines read_lines
read_lines-render [] m c = refl
read_lines-render (comment t ∷ is) m (p, c) =
    rw (lines-append (item_line (comment t)) (render is) (item_line-newline (comment t) (p, tt))) (
      ap (λ d. read_lines d (lines (render is))) (read_line-comment m t) ∙ read_lines-render is m c)
read_lines-render (entry k v ∷ is) m (p, q, c) =
    rw (lines-append (item_line (entry k v)) (render is) (item_line-newline (entry k v) (p, q, tt)))
      (ap (λ d. read_lines d (lines (render is))) (read_line-entry m k v p q)
        ∙ read_lines-render is (assign k v m) c)

find-assign_items :
    (j : Bytes) (is : List Item) (m : Dict)
    → find j (assign_items m is) ≡ or_else (last_value any_value j is) (find j m)
find-assign_items j [] m = refl
find-assign_items j (comment t ∷ is) m = find-assign_items j is m
find-assign_items j (entry k v ∷ is) m =
    find-assign_items j is (assign k v m)
    ∙ ap (or_else (last_value any_value j is)) (find-assign k j v m ∙ as_or_else (bytes_eq k j))
    ∙ sym (or_else_assoc (last_value any_value j is) _ (find j m))
  where
    as_or_else :
        (b : Bool)
        → (if b then some v else find j m)
          ≡ or_else (if b && any_value v then some v else none) (find j m)
    as_or_else true = refl
    as_or_else false = refl

-- In a file whose keys and values come back as they were written, the game's reader finds under each
-- key the last value that the file gives it, and nothing under any other key.
pub find-read_cfg_map :
    (j : Bytes) (is : List Item)
    → AreClean is
    → find j (read_cfg_map (render is)) ≡ last_value any_value j is
unfolding read_cfg_map find
find-read_cfg_map j is c =
    ap (find j) (read_lines-render is [] c)
    ∙ find-assign_items j is []
    ∙ or_else-none (last_value any_value j is)

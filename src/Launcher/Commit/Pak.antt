-- ===== src/Launcher/Commit/Pak.antt =====
-- The Transfer Pak's reader on a committed file.
use mathlib.Core.Path.{ap₂}
use pocket_monsters_stadium.Libc.{is_space}
use pocket_monsters_stadium.Prelude.{
  ℕ, Bool, true, false, ◌&&◌, List, [], ◌∷◌, ◌++◌, none, some, ◌≡◌, refl, sym, ap, ◌∙◌, ◌==◌,
  if◌then◌else◌, Bytes, bytes_eq, arith,
}
use pocket_monsters_stadium.Config.Dict.{Dict, find, find-assign}
use pocket_monsters_stadium.Config.Lines.{
  lines, lines-append, cut_comment-plain, strip, strip_front, strip_end, strip_end-append,
  before_byte-append, after_byte-append, keep_before,
}
use pocket_monsters_stadium.Config.PakCfg.{
  unquote, trim, lower, assign_both, read_pair, read_trimmed, read_line, read_lines,
  read_config_file,
}
use pocket_monsters_stadium.Launcher.Write.{Item, comment, entry, item_line, render}
use pocket_monsters_stadium.Launcher.Commit.Items.{
  IsKey, IsClean, AreClean, good_head, or_else, or_else_assoc, or_else-none, last_value, not_empty,
}
use pocket_monsters_stadium.Launcher.Commit.Game.{is_plain-entry, item_line-newline}

assign_items : Dict → List Item → Dict
assign_items m [] = m
assign_items m (comment t ∷ is) = assign_items m is
assign_items m (entry k v ∷ is) = assign_items (assign_both k v m) is

unquote-other :
    (c : ℕ) (cs : Bytes) → (c == b'"') ≡ false → (c == b'\'') ≡ false → unquote (c ∷ cs) ≡ c ∷ cs
unfolding unquote
unquote-other c [] p q = refl
unquote-other c (d ∷ cs) p q = rw (p, q)

strip_end-equals : (v : Bytes) → strip_end is_space v ≡ v → strip_end is_space (b'=' ∷ v) ≡ b'=' ∷ v
unfolding strip_end
strip_end-equals v h = ap (keep_before is_space b'=') h ∙ kept v
  where
    kept : (s : Bytes) → keep_before is_space b'=' s ≡ b'=' ∷ s
    kept [] = unfold is_space in refl
    kept (c ∷ s) = refl

-- The trim leaves an entry's line as it is.
trim-entry :
    (c : ℕ) (k v : Bytes)
    → good_head (c ∷ k) ≡ true
    → strip_end is_space v ≡ v
    → trim (c ∷ (k ++ (b'=' ∷ v))) ≡ c ∷ (k ++ (b'=' ∷ v))
unfolding trim strip strip_front
trim-entry c k v head h =
    let space : is_space c ≡ false = ground arith in
    let line = k ++ (b'=' ∷ v) in
    ap unquote (
      ap (strip_end is_space) (starts space)
      ∙ strip_end-append is_space (c ∷ k) (b'=' ∷ v) (λ e. cc) (strip_end-equals v h))
    ∙ unquote-other c line (ground arith) (ground arith)
  where
    starts :
        is_space c ≡ false → strip_front is_space (c ∷ (k ++ (b'=' ∷ v))) ≡ c ∷ (k ++ (b'=' ∷ v))
    starts e = unfold strip_front in rw e

read_pair-key :
    (m : Dict) (k v : Bytes) → IsKey k → IsClean v → read_pair m k (some v) ≡ assign_both k v m
unfolding read_pair
read_pair-key m k v key clean =
    ap (λ j. assign_both (lower j) (trim v) m) key.pak_trimmed
    ∙ ap₂ (λ j w. assign_both j w m) key.pak_lowered clean.pak_trimmed

read_trimmed-entry :
    (m : Dict) (k v : Bytes)
    → IsKey k
    → IsClean v
    → read_trimmed m (trim (k ++ (b'=' ∷ v))) ≡ assign_both k v m
unfolding read_trimmed
read_trimmed-entry m [] v key clean = let h = key.head in cc
read_trimmed-entry m (c ∷ k) v key clean =
    let h = key.head in
    let bracket : (c == b'[') ≡ false = ground arith in
    let line = c ∷ (k ++ (b'=' ∷ v)) in
    ap (read_trimmed m) (trim-entry c k v h clean.ended)
    ∙ rw bracket (
        ap₂ (read_pair m) (before_byte-append b'=' (c ∷ k) v key.no_equals)
          (after_byte-append b'=' (c ∷ k) v key.no_equals)
        ∙ read_pair-key m (c ∷ k) v key clean)

read_line-entry :
    (m : Dict) (k v : Bytes)
    → IsKey k
    → IsClean v
    → read_line m (item_line (entry k v)) ≡ assign_both k v m
unfolding read_line item_line
read_line-entry m k v key clean =
    ap (λ s. read_trimmed m (trim s))
      (cut_comment-plain (k ++ (b'=' ∷ v)) (is_plain-entry k v key clean))
    ∙ read_trimmed-entry m k v key clean

read_line-comment : (m : Dict) (t : Bytes) → read_line m (item_line (comment t)) ≡ m
unfolding read_line item_line
read_line-comment m t = refl

read_lines-render :
    (is : List Item) (m : Dict) → AreClean is → read_lines m (lines (render is)) ≡ assign_items m is
unfolding render assign_items read_line lines read_lines
read_lines-render [] m c = refl
read_lines-render (comment t ∷ is) m (p, c) =
    rw (lines-append (item_line (comment t)) (render is) (item_line-newline (comment t) (p, tt))) (
      ap (λ d. read_lines d (lines (render is))) (read_line-comment m t) ∙ read_lines-render is m c)
read_lines-render (entry k v ∷ is) m (p, q, c) =
    rw (lines-append (item_line (entry k v)) (render is) (item_line-newline (entry k v) (p, q, tt)))
      (ap (λ d. read_lines d (lines (render is))) (read_line-entry m k v p q)
        ∙ read_lines-render is (assign_both k v m) c)

-- An entry with an empty value is passed over.
find-assign_both :
    (j k v : Bytes) (m : Dict)
    → good_head k ≡ true
    → find j (assign_both k v m)
      ≡ or_else (if bytes_eq k j && not_empty v then some v else none) (find j m)
find-assign_both j [] v m h = cc
find-assign_both j (c ∷ k) [] m h = ground arith
find-assign_both j (c ∷ k) (d ∷ v) m h =
    find-assign (c ∷ k) j (d ∷ v) m ∙ as_or_else (bytes_eq (c ∷ k) j)
  where
    as_or_else :
        (b : Bool)
        → (if b then some (d ∷ v) else find j m)
          ≡ or_else (if b && true then some (d ∷ v) else none) (find j m)
    as_or_else true = refl
    as_or_else false = refl

find-assign_items :
    (j : Bytes) (is : List Item) (m : Dict)
    → AreClean is
    → find j (assign_items m is) ≡ or_else (last_value not_empty j is) (find j m)
unfolding assign_items
find-assign_items j [] m c = refl
find-assign_items j (comment t ∷ is) m (_, c) = find-assign_items j is m c
find-assign_items j (entry k v ∷ is) m (key, _, c) =
    find-assign_items j is (assign_both k v m) c
    ∙ ap (or_else (last_value not_empty j is)) (find-assign_both j k v m key.head)
    ∙ sym (or_else_assoc (last_value not_empty j is) _ (find j m))

-- In a file whose keys and values come back as they were written, the Transfer Pak's reader finds under
-- each key the last value that is not empty, and nothing under any other key.
pub find-read_config_file :
    (j : Bytes) (is : List Item)
    → AreClean is
    → find j (read_config_file (render is)) ≡ last_value not_empty j is
unfolding read_config_file find
find-read_config_file j is c =
    ap (find j) (read_lines-render is [] c)
    ∙ find-assign_items j is [] c
    ∙ or_else-none (last_value not_empty j is)

-- ===== src/Launcher/Commit/Items.antt =====
-- The keys and values that survive the readers of launcher.cfg, and the value under a key.
use pocket_monsters_stadium.Libc.{is_space}
use pocket_monsters_stadium.Prelude.{
  Bool, true, false, not, ◌&&◌, List, [], ◌∷◌, ◌++◌, Option, none, some, ◌≡◌, refl, sym, ap, ◌∙◌,
  ◌==◌, if◌then◌else◌, Bytes, bytes_eq, has_byte,
}
use pocket_monsters_stadium.Config.Lines.{is_plain, strip_end}
use pocket_monsters_stadium.Config.GameCfg.{trim, to_lower_str}
use pocket_monsters_stadium.Config.PakCfg
use pocket_monsters_stadium.Launcher.Write.{Item, comment, entry}

abbrev pub good_head : Bytes → Bool
good_head [] = false
good_head (c ∷ cs) = not (is_space c) && not (c == b'"') && not (c == b'\'') && not (c == b'[')

-- A key as the launcher writes it.
pub record IsKey (k : Bytes) : Type 0 where
  pub plain : is_plain k ≡ true
  pub no_equals : has_byte b'=' k ≡ false
  pub head : good_head k ≡ true
  pub trimmed : trim k ≡ k
  pub lowered : to_lower_str k ≡ k
  pub pak_trimmed : PakCfg.trim k ≡ k
  pub pak_lowered : PakCfg.lower k ≡ k

-- A value that comes back as it was written: no comment mark, no line end, no white space at either
-- end, and no pair of quotation marks around it.
pub record IsClean (v : Bytes) : Type 0 where
  pub plain : is_plain v ≡ true
  pub trimmed : trim v ≡ v
  pub pak_trimmed : PakCfg.trim v ≡ v
  pub ended : strip_end is_space v ≡ v

-- Every line of the file can be read back.
abbrev pub AreClean : List Item → Type 0
AreClean [] = Unit {0}
AreClean (comment t ∷ is) = (has_byte b'\n' t ≡ false) × AreClean is
AreClean (entry k v ∷ is) = IsKey k × IsClean v × AreClean is

abbrev pub or_else : Option Bytes → Option Bytes → Option Bytes
or_else none o = o
or_else (some v) o = some v

-- The value that the last entry under a key gives it, among the entries whose value passes the test.
abbrev pub last_value : (Bytes → Bool) → Bytes → List Item → Option Bytes
last_value keep j [] = none
last_value keep j (comment t ∷ is) = last_value keep j is
last_value keep j (entry k v ∷ is) =
    or_else (last_value keep j is) (if bytes_eq k j && keep v then some v else none)

-- The launcher's and the game's reader take every value, the Transfer Pak's no empty one.
abbrev pub any_value : Bytes → Bool
any_value v = true

abbrev pub not_empty : Bytes → Bool
not_empty [] = false
not_empty (c ∷ cs) = true

pub or_else-none : (o : Option Bytes) → or_else o none ≡ o
or_else-none none = refl
or_else-none (some v) = refl

pub or_else_assoc : (a b c : Option Bytes) → or_else (or_else a b) c ≡ or_else a (or_else b c)
or_else_assoc none b c = refl
or_else_assoc (some v) b c = refl

pub last_value-append :
    (keep : Bytes → Bool) (j : Bytes) (is js : List Item)
    → last_value keep j (is ++ js) ≡ or_else (last_value keep j js) (last_value keep j is)
last_value-append keep j [] js = sym (or_else-none (last_value keep j js))
last_value-append keep j (comment t ∷ is) js = last_value-append keep j is js
last_value-append keep j (entry k v ∷ is) js =
    ap (λ o. or_else o (if bytes_eq k j && keep v then some v else none))
      (last_value-append keep j is js)
    ∙ or_else_assoc (last_value keep j js) (last_value keep j is) _

pub AreClean-append : (is js : List Item) → AreClean is → AreClean js → AreClean (is ++ js)
AreClean-append [] js c d = d
AreClean-append (comment t ∷ is) js (p, c) d = (p, AreClean-append is js c d)
AreClean-append (entry k v ∷ is) js (p, q, c) d = (p, q, AreClean-append is js c d)

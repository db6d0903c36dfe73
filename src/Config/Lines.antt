-- ===== src/Config/Lines.antt =====
-- Lines and trimming, as the readers of launcher.cfg do them.
use pocket_monsters_stadium.Prelude.{
  ℕ, Bool, true, false, not, ◌&&◌, ◌||◌, List, [], ◌∷◌, ◌++◌, ◌≡◌, ◌≢◌, refl, ◌∙◌, ap, arith, ◌==◌,
  if◌then◌else◌, Bytes, has_byte, before_byte, after_byte, some,
}

-- The first line, with `c` put in front of it.
abbrev pub onto_first : ℕ → List Bytes → List Bytes
onto_first c [] = (c ∷ []) ∷ []
onto_first c (l ∷ ls) = (c ∷ l) ∷ ls

-- What successive calls of std::getline deliver: a last line counts if it is not empty.
unfoldable pub lines : Bytes → List Bytes
lines [] = []
lines (c ∷ cs) = let rest = lines cs in if c == b'\n' then [] ∷ rest else onto_first c rest

-- `line.resize(line.find_first_of("#;"))`, if there is such a byte
unfoldable pub cut_comment : Bytes → Bytes
cut_comment [] = []
cut_comment (c ∷ cs) = let rest = cut_comment cs in if c == b'#' || c == b';' then [] else c ∷ rest

module _ (blank : ℕ → Bool) where
  unfoldable pub strip_front : Bytes → Bytes
  strip_front [] = []
  strip_front (c ∷ cs) = let rest = strip_front cs in if blank c then rest else c ∷ cs

  -- A byte stays if it is not blank or something behind it stays.
  abbrev pub keep_before : ℕ → Bytes → Bytes
  keep_before c [] = if blank c then [] else c ∷ []
  keep_before c (d ∷ ds) = c ∷ d ∷ ds

  unfoldable pub strip_end : Bytes → Bytes
  strip_end [] = []
  strip_end (c ∷ cs) = keep_before c (strip_end cs)

  unfoldable pub strip : Bytes → Bytes
  unfolding strip_front strip_end
  strip s = strip_end (strip_front s)

-- No line end and no comment mark stands in the text.
abbrev pub is_plain : Bytes → Bool
is_plain [] = true
is_plain (c ∷ cs) = not (c == b'\n') && not (c == b'#') && not (c == b';') && is_plain cs

pub is_plain-newline : (s : Bytes) → is_plain s ≡ true → has_byte b'\n' s ≡ false
is_plain-newline [] h = refl
is_plain-newline (c ∷ cs) h = ground (arith, is_plain-newline cs)

pub lines-append :
    (l rest : Bytes) → has_byte b'\n' l ≡ false → lines (l ++ b'\n' ∷ rest) ≡ l ∷ lines rest
unfolding lines
lines-append [] rest h = refl
lines-append (c ∷ cs) rest h = ground (arith, lines-append cs rest)

pub cut_comment-plain : (s : Bytes) → is_plain s ≡ true → cut_comment s ≡ s
unfolding cut_comment
cut_comment-plain [] h = refl
cut_comment-plain (c ∷ cs) h = ground (arith, cut_comment-plain cs)

pub is_plain-append :
    (s t : Bytes) → is_plain s ≡ true → is_plain t ≡ true → is_plain (s ++ t) ≡ true
is_plain-append [] t h g = g
is_plain-append (c ∷ cs) t h g = ground (arith, is_plain-append cs t)

pub before_byte-append :
    (c : ℕ) (s t : Bytes) → has_byte c s ≡ false → before_byte c (s ++ c ∷ t) ≡ s
before_byte-append c [] t h = ground arith
before_byte-append c (x ∷ xs) t h = ground (arith, before_byte-append c xs t)

pub after_byte-append :
    (c : ℕ) (s t : Bytes) → has_byte c s ≡ false → after_byte c (s ++ c ∷ t) ≡ some t
after_byte-append c [] t h = ground arith
after_byte-append c (x ∷ xs) t h = ground (arith, after_byte-append c xs t)

keep_before-ne : (blank : ℕ → Bool) (c : ℕ) (s : Bytes) → s ≢ [] → keep_before blank c s ≡ c ∷ s
keep_before-ne blank c [] ne = absurd (ne refl)
keep_before-ne blank c (d ∷ ds) ne = refl

append-ne : (s t : Bytes) → t ≢ [] → s ++ t ≢ []
append-ne [] t ne e = ne e
append-ne (c ∷ s) t ne e = cc

-- A text that ends in a part with nothing to strip has nothing to strip.
pub strip_end-append :
    (blank : ℕ → Bool) (s t : Bytes)
    → t ≢ []
    → strip_end blank t ≡ t
    → strip_end blank (s ++ t) ≡ s ++ t
unfolding strip_end
strip_end-append blank [] t ne h = h
strip_end-append blank (c ∷ s) t ne h =
    ap (keep_before blank c) (strip_end-append blank s t ne h)
    ∙ keep_before-ne blank c (s ++ t) (append-ne s t ne)

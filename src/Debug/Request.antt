-- ===== src/Debug/Request.antt =====
-- The fields of a request (get_str, get_int, get_bool, get_cmd, button_bit of
-- src/main/debug_server.cpp). std::string::find from a position is a search in what follows it.
use pocket_monsters_stadium.Libc.{is_space, to_lower, skip_space, strtol}
use pocket_monsters_stadium.Prelude.Int.{ℤ}
use pocket_monsters_stadium.Prelude.{
  ℕ, Bool, true, false, ◌||◌, List, [], ◌∷◌, ◌++◌, Option, none, some, map, ◌==◌, if◌then◌else◌,
  Bytes, codes, bytes_eq, after_byte, before_byte, has_byte, after_text, take,
}
use pocket_monsters_stadium.Config.Lines.{strip}

unfoldable pub trim : Bytes → Bytes
unfolding strip is_space
trim = strip is_space

-- What follows the colon behind the quoted key.
unfoldable pub field : Bytes → Bytes → Option Bytes
field body key = elim (after_text ((b'"' ∷ key) ++ (b'"' ∷ [])) body) [
  | none ↦ none
  | some rest ↦ after_byte b':' rest
]

-- The text up to the closing quote; without one there is nothing.
abbrev pub quoted : Bytes → Bytes
quoted s = if has_byte b'"' s then before_byte b'"' s else []

abbrev pub quoted_from : Option Bytes → Bytes
quoted_from none = []
quoted_from (some s) = quoted s

abbrev pub string_from : Option Bytes → Bytes
string_from none = []
string_from (some rest) = quoted_from (after_byte b'"' rest)

unfoldable pub get_str : Bytes → Bytes → Bytes
unfolding field
get_str body key = string_from (field body key)

abbrev pub int_from : ℤ → Option Bytes → ℤ
int_from dflt none = dflt
int_from dflt (some rest) = strtol rest 10

unfoldable pub get_int : Bytes → Bytes → ℤ → ℤ
unfolding field
get_int body key dflt = int_from dflt (field body key)

-- `*v == c`
abbrev pub starts_with : ℕ → Bytes → Bool
starts_with c [] = false
starts_with c (d ∷ ds) = d == c

-- `_strnicmp(v, word, n) == 0` for a word of n bytes
unfoldable pub same_word : Bytes → ℕ → Bytes → Bool
unfolding to_lower
same_word v n word = bytes_eq (map to_lower (take n v)) word

abbrev pub bool_from : Bool → Option Bytes → Bool
bool_from dflt none = dflt
bool_from dflt (some rest) =
    let v = skip_space rest in
    if same_word v 4 (codes "true") || starts_with b'1' v
    then true
    else if same_word v 5 (codes "false") || starts_with b'0' v
    then false
    else dflt

unfoldable pub get_bool : Bytes → Bytes → Bool → Bool
unfolding field skip_space same_word
get_bool body key dflt = bool_from dflt (field body key)

-- The part before the first blank.
unfoldable pub first_word : Bytes → Bytes
first_word [] = []
first_word (c ∷ cs) =
    let rest = first_word cs in
    if c == b' ' || c == b'\t' || c == b'\r' || c == b'\n' then [] else c ∷ rest

unfoldable pub get_cmd : Bytes → Bytes
unfolding get_str first_word
get_cmd line = if starts_with b'{' line then get_str line (codes "cmd") else first_word line

-- Some of the names is the text.
abbrev pub any_of : Bytes → List Bytes → Bool
any_of s [] = false
any_of s (n ∷ ns) = bytes_eq s n || any_of s ns

-- The names of each button and its bit.
abbrev pub button_rows : List (List Bytes × ℕ)
button_rows =
    ((codes "a" ∷ []), 0x8000)
    ∷ ((codes "b" ∷ []), 0x4000)
    ∷ ((codes "z" ∷ []), 0x2000)
    ∷ ((codes "start" ∷ []), 0x1000)
    ∷ ((codes "du" ∷ codes "d_up" ∷ codes "d-up" ∷ codes "up" ∷ []), 0x0800)
    ∷ ((codes "dd" ∷ codes "d_down" ∷ codes "d-down" ∷ codes "down" ∷ []), 0x0400)
    ∷ ((codes "dl" ∷ codes "d_left" ∷ codes "d-left" ∷ codes "left" ∷ []), 0x0200)
    ∷ ((codes "dr" ∷ codes "d_right" ∷ codes "d-right" ∷ codes "right" ∷ []), 0x0100)
    ∷ ((codes "l" ∷ []), 0x0020)
    ∷ ((codes "r" ∷ []), 0x0010)
    ∷ ((codes "cu" ∷ codes "c_up" ∷ codes "c-up" ∷ []), 0x0008)
    ∷ ((codes "cd" ∷ codes "c_down" ∷ codes "c-down" ∷ []), 0x0004)
    ∷ ((codes "cl" ∷ codes "c_left" ∷ codes "c-left" ∷ []), 0x0002)
    ∷ ((codes "cr" ∷ codes "c_right" ∷ codes "c-right" ∷ []), 0x0001)
    ∷ []

abbrev pub find_row : Bytes → List (List Bytes × ℕ) → ℕ
find_row s [] = 0
find_row s ((names, bit) ∷ rows) = if any_of s names then bit else find_row s rows

unfoldable pub button_bit : Bytes → ℕ
unfolding to_lower
button_bit name = find_row (map to_lower name) button_rows

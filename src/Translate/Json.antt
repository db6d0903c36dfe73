-- ===== src/Translate/Json.antt =====
-- The tolerant JSON scanning of src/main/diagnostics.cpp (`hexval`, `json_read_string`,
-- `json_read_int`). A position in the text is the part of the text from there on.
use pocket_monsters_stadium.Prelude.{
  ℕ, ◌+◌, ◌-◌, ◌*◌, Bool, true, false, ◌&&◌, ◌||◌, [], ◌∷◌, ◌++◌, Option, none, some, ltb, leb,
  ◌==◌, if◌then◌else◌, Bytes, length, take, drop, strip_prefix,
}
use pocket_monsters_stadium.Prelude.Int.{ℤ, pos, neg_ℕ}

abbrev pub quote : ℕ
quote = 34

abbrev pub backslash : ℕ
backslash = 92

-- `none` is -1.
unfoldable pub hexval : ℕ → Option ℕ
hexval c =
    if leb b'0' c && leb c b'9'
    then some (c - b'0')
    else if leb b'a' c && leb c b'f'
    then some (c - b'a' + 10)
    else if leb b'A' c && leb c b'F'
    then some (c - b'A' + 10)
    else none

-- The switch on the byte behind a backslash.
unfoldable pub unescape : ℕ → ℕ
unescape e = if e == b'n' then 10 else if e == b't' then 9 else e

abbrev pub keep : ℕ → Bytes × Bytes → Bytes × Bytes
keep c r = (c ∷ r.0, r.1)

-- The loop behind the opening quote: the bytes of the string, and what follows the closing quote.
unfoldable pub string_body : Bytes → Bytes × Bytes
unfolding unescape
string_body [] = ([], [])
string_body (c ∷ []) = if c == quote then ([], []) else (c ∷ [], [])
string_body (c ∷ e ∷ cs) =
    let escaped = keep (unescape e) (string_body cs) in
    let plain = keep c (string_body (e ∷ cs)) in
    if c == quote then ([], e ∷ cs) else if c == backslash then escaped else plain

unfoldable pub json_read_string : Bytes → Bytes × Bytes
unfolding string_body
json_read_string [] = ([], [])
json_read_string (c ∷ cs) = if c == quote then string_body cs else ([], c ∷ cs)

-- The position itself if the searched text stands there, else a later one.
abbrev pub first_hit : Option Bytes → Bytes → Option Bytes → Option Bytes
first_hit (some r) here later = some here
first_hit none here later = later

-- `s.find(k, …)`: the text from the first occurrence on.
unfoldable pub from_text : Bytes → Bytes → Option Bytes
from_text k [] = if length k == 0 then some [] else none
from_text k (x ∷ xs) = first_hit (strip_prefix k (x ∷ xs)) (x ∷ xs) (from_text k xs)

-- `s.find(c, …)` for one character.
unfoldable pub from_byte : ℕ → Bytes → Option Bytes
from_byte c [] = none
from_byte c (x ∷ xs) = if x == c then some (x ∷ xs) else from_byte c xs

-- The bytes between a position and a later one.
abbrev pub upto : Bytes → Bytes → Bytes
upto end s = take (length s - length end) s

-- Whether a position that was found lies before `end`.
unfoldable pub within : Bytes → Option Bytes → Option Bytes
within end none = none
within end (some p) = if ltb (length end) (length p) then some p else none

unfoldable pub skip_blanks : Bytes → Bytes
skip_blanks [] = []
skip_blanks (c ∷ cs) = let rest = skip_blanks cs in if c == b' ' || c == 9 then rest else c ∷ cs

abbrev pub is_digit : ℕ → Bool
is_digit c = leb b'0' c && leb c b'9'

-- The loop `v = v * 10 + (s[p] - '0')`. A value that `long` does not hold is undefined in the source.
unfoldable pub digits_value : ℕ → Bytes → ℕ
digits_value v [] = v
digits_value v (c ∷ cs) =
    let more = digits_value (v * 10 + (c - b'0')) cs in if is_digit c then more else v

unfoldable pub read_digits : Bool → Bytes → ℤ → ℤ
unfolding digits_value
read_digits neg [] def = def
read_digits neg (c ∷ cs) def =
    if is_digit c
    then if neg then neg_ℕ (digits_value 0 (c ∷ cs)) else pos (digits_value 0 (c ∷ cs))
    else def

-- An optional minus and the digits.
unfoldable pub read_signed : Bytes → ℤ → ℤ
unfolding read_digits
read_signed [] def = def
read_signed (c ∷ cs) def =
    if c == b'-' then read_digits true cs def else read_digits false (c ∷ cs) def

-- Behind the colon: the number between there and `end`.
unfoldable pub after_colon : Bytes → ℤ → Option Bytes → ℤ
unfolding skip_blanks read_signed
after_colon end def none = def
after_colon end def (some p) = read_signed (skip_blanks (upto end (drop 1 p))) def

unfoldable pub after_key : Bytes → ℕ → ℤ → Option Bytes → ℤ
unfolding within from_byte after_colon
after_key end n def none = def
after_key end n def (some p) = after_colon end def (within end (from_byte b':' (drop n p)))

abbrev pub quoted : Bytes → Bytes
quoted k = quote ∷ (k ++ (quote ∷ []))

unfoldable pub json_read_int : Bytes → Bytes → Bytes → ℤ → ℤ
unfolding within from_text after_key
json_read_int key start end def =
    after_key end (length (quoted key)) def (within end (from_text (quoted key) start))

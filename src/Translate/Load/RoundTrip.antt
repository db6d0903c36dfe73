-- ===== src/Translate/Load/RoundTrip.antt =====
-- The strings of a translations.json as they are written, hexadecimal and escaped, and read back by the
-- scan of src/main/diagnostics.cpp.
use pocket_monsters_stadium.Prelude.{
  ℕ, ◌+◌, ◌-◌, ◌*◌, ◌/◌, ◌%◌, ◌≡◌, ◌<◌, refl, ap, ◌∙◌, false, [], ◌∷◌, some, arith, Bytes, ltb,
  ◌==◌, if◌then◌else◌, Bool-cases, inl, inr,
}
use pocket_monsters_stadium.Translate.Fnv.{IsBytes}
use pocket_monsters_stadium.Translate.Json.{quote, backslash, hexval, unescape, keep, string_body}
use pocket_monsters_stadium.Translate.Load.{pairs}

abbrev pub hex_digit : ℕ → ℕ
hex_digit n = if ltb n 10 then b'0' + n else b'a' + n - 10

-- `%02x` of each byte.
abbrev pub hex : Bytes → Bytes
hex [] = []
hex (b ∷ bs) = hex_digit (b / 16) ∷ hex_digit (b % 16) ∷ hex bs

abbrev pub escape_byte : ℕ → Bytes → Bytes
escape_byte c rest =
    if c == quote
    then backslash ∷ quote ∷ rest
    else if c == backslash
    then backslash ∷ backslash ∷ rest
    else if c == 10
    then backslash ∷ b'n' ∷ rest
    else if c == 9
    then backslash ∷ b't' ∷ rest
    else c ∷ rest

-- The text as JSON writes it, with `rest` behind it.
abbrev pub escape : Bytes → Bytes → Bytes
escape [] rest = rest
escape (c ∷ cs) rest = escape_byte c (escape cs rest)

hexval-hex_digit : (n : ℕ) → n < 16 → hexval (hex_digit n) ≡ some n
unfolding hexval
hexval-hex_digit n h = ground arith

pub pairs-hex : (s : Bytes) → IsBytes s → pairs (hex s) ≡ some s
unfolding pairs
pairs-hex [] h = refl
pairs-hex (b ∷ bs) (lt, h) =
    rw
      (
        hexval-hex_digit (b / 16) (omega arith),
        hexval-hex_digit (b % 16) (omega arith),
        pairs-hex bs h,
      )
      (let e : b / 16 * 16 + b % 16 ≡ b = omega arith in rw e)

plain_step :
    (c : ℕ) (xs : Bytes)
    → (c == quote) ≡ false
    → (c == backslash) ≡ false
    → string_body (c ∷ xs) ≡ keep c (string_body xs)
unfolding string_body
plain_step c [] p q = rw p
plain_step c (x ∷ xs) p q = rw (p, q)

string_body-escape_byte :
    (c : ℕ) (xs : Bytes) → string_body (escape_byte c xs) ≡ keep c (string_body xs)
unfolding string_body unescape
string_body-escape_byte c xs = elim (Bool-cases (c == quote)) [
  | inl e ↦ rw e (let p : c ≡ quote = ground arith in rw p)
  | inr a ↦ elim (Bool-cases (c == backslash)) [
    | inl e ↦ rw (a, e) (let p : c ≡ backslash = ground arith in rw p)
    | inr b ↦ elim (Bool-cases (c == 10)) [
      | inl e ↦ rw (a, b, e) (let p : c ≡ 10 = ground arith in rw p)
      | inr d ↦ elim (Bool-cases (c == 9)) [
        | inl e ↦ rw (a, b, d, e) (let p : c ≡ 9 = ground arith in rw p)
        | inr f ↦ rw (a, b, d, f) (plain_step c xs a b)
      ]
    ]
  ]
]

-- A string that is written out is read back, and what follows its closing quote is left.
pub string_body-escape : (s rest : Bytes) → string_body (escape s (quote ∷ rest)) ≡ (s, rest)
unfolding string_body
string_body-escape [] [] = refl
string_body-escape [] (x ∷ xs) = refl
string_body-escape (c ∷ cs) rest =
    string_body-escape_byte c (escape cs (quote ∷ rest)) ∙ ap (keep c) (string_body-escape cs rest)

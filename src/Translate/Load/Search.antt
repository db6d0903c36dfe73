-- ===== src/Translate/Load/Search.antt =====
-- Searches for a key through the entries of a printed translations.json (`data.find` in
-- `load_translations_locked` of src/main/diagnostics.cpp).
use pocket_monsters_stadium.Prelude.{
  ℕ, ◌/◌, ◌%◌, ◌≡◌, ◌≢◌, ◌≤◌, ◌<◌, refl, sym, ap, ◌∙◌, true, false, ◌&&◌, ◌||◌, ◌⊎◌, Bool, List, [],
  ◌∷◌, ◌++◌, none, some, arith, Bytes, codes, length, ltb, leb, ◌==◌, strip_prefix, has_byte,
  Bool-cases, inl, inr,
}
use pocket_monsters_stadium.Translate.Fnv.{IsBytes}
use pocket_monsters_stadium.Translate.Json.{quote, backslash, quoted, from_text}
use pocket_monsters_stadium.Translate.Load.{src_key, target_key}
use pocket_monsters_stadium.Translate.Load.RoundTrip.{hex, hex_digit, escape, escape_byte}

-- An entry of translations.json: the source text, the same text for the reader, the target, and the
-- digits of its width.
pub record Entry : Type 0 where
  pub src : Bytes
  pub jp : Bytes
  pub target : Bytes
  pub width : Bytes

-- `, "orig_w": 3 }` and what follows.
abbrev pub print_width : Bytes → Bytes → Bytes
print_width w more =
    b',' ∷ b' ' ∷ (quoted (codes "orig_w") ++ (b':' ∷ b' ' ∷ (w ++ (b' ' ∷ b'}' ∷ more))))

-- `, "target": "…"`
abbrev pub print_target : Bytes → Bytes → Bytes
print_target t more = b',' ∷ b' ' ∷ (target_key ++ (b':' ∷ b' ' ∷ quote ∷ escape t (quote ∷ more)))

-- What stands behind the hexadecimal string of an entry.
abbrev pub print_past : Entry → Bytes → Bytes
print_past e more =
    b','
    ∷ b' '
    ∷ (quoted (codes "src_jp")
        ++ (b':'
            ∷ b' '
            ∷ quote
            ∷ escape e.jp (quote ∷ print_target e.target (print_width e.width more))))

-- What stands behind the first key of an entry.
abbrev pub print_body : Entry → Bytes → Bytes
print_body e more = b':' ∷ b' ' ∷ quote ∷ escape (hex e.src) (quote ∷ print_past e more)

abbrev pub comma : List Entry → Bytes → Bytes
comma [] rest = rest
comma (e ∷ es) rest = b',' ∷ rest

-- A line for each entry, with a comma behind each but the last, and the closing bracket:
-- `  { "src_hex": "…", "src_jp": "…", "target": "…", "orig_w": 3 },`
abbrev pub print_all : List Entry → Bytes
print_all [] = b']' ∷ 10 ∷ []
print_all (e ∷ es) =
    b' ' ∷ b' ' ∷ b'{' ∷ b' ' ∷ (src_key ++ print_body e (comma es (10 ∷ print_all es)))

skip_escape_byte :
    (k xs : Bytes) (c : ℕ)
    → (c == quote) ≡ false
    → from_text (quoted k) (escape_byte c xs) ≡ from_text (quoted k) xs
unfolding from_text
skip_escape_byte k xs c h = elim (Bool-cases (c == backslash)) [
  | inl e ↦ rw (h, e)
  | inr b ↦ elim (Bool-cases (c == 10)) [
    | inl e ↦ rw (h, b, e)
    | inr d ↦ elim (Bool-cases (c == 9)) [
      | inl e ↦ rw (h, b, d, e)
      | inr f ↦ let g : (quote == c) ≡ false = ground arith in rw (h, b, d, f) (rw g)
    ]
  ]
]

-- A search for a quoted key passes over a string without quotes.
skip_escape :
    (k t rest : Bytes)
    → has_byte quote t ≡ false
    → from_text (quoted k) (escape t rest) ≡ from_text (quoted k) rest
skip_escape k [] rest h = refl
skip_escape k (c ∷ cs) rest h =
    skip_escape_byte k (escape cs rest) c (ground arith) ∙ skip_escape k cs rest (ground arith)

abbrev pub IsPlain : Bytes → Type 0
IsPlain k = (has_byte quote k ≡ false) × (has_byte backslash k ≡ false)

abbrev pub close : Bytes → Bytes
close k = k ++ (quote ∷ [])

-- The first byte decides between a plain byte and the one written for `c`.
strip_escape_byte :
    (k xs : Bytes) (x c : ℕ)
    → (x == backslash) ≡ false
    → (c == quote) ≡ false
    → (x ≡ c → strip_prefix k xs ≡ none)
    → strip_prefix (x ∷ k) (escape_byte c xs) ≡ none
strip_escape_byte k xs x c hx hc h = elim (Bool-cases (c == backslash)) [
  | inl e ↦ rw (hc, e) (rw hx)
  | inr b ↦ elim (Bool-cases (c == 10)) [
    | inl e ↦ rw (hc, b, e) (rw hx)
    | inr d ↦ elim (Bool-cases (c == 9)) [
      | inl e ↦ rw (hc, b, d, e) (rw hx)
      | inr f ↦ elim (Bool-cases (x == c)) [
        | inl e ↦ rw (hc, b, d, f) (rw e (h (ground arith)))
        | inr n ↦ rw (hc, b, d, f) (rw n)
      ]
    ]
  ]
]

-- A string that is not the key does not pass for it.
strip_escape :
    (k t rest : Bytes)
    → IsPlain k
    → has_byte quote t ≡ false
    → t ≢ k
    → strip_prefix (close k) (escape t (quote ∷ rest)) ≡ none
strip_escape [] [] rest p h ne = absurd (ne refl)
strip_escape [] (c ∷ cs) rest p h ne =
    strip_escape_byte [] (escape cs (quote ∷ rest)) quote c refl (ground arith)
      (λ e. absurd (differ (sym e) h))
  where
    differ : c ≡ quote → has_byte quote (c ∷ cs) ≢ false
    differ e q = ground arith
strip_escape (x ∷ ks) [] rest (p, q) h ne = let e : (x == quote) ≡ false = ground arith in rw e
strip_escape (x ∷ ks) (c ∷ cs) rest (p, q) h ne =
    strip_escape_byte (close ks) (escape cs (quote ∷ rest)) x c (ground arith) (ground arith)
      (λ e. strip_escape ks cs rest (ground arith, ground arith) (ground arith) (λ d. ne (cc)))

module _ (k : Bytes) (plain : IsPlain k) where
  pub pass :
      (t rest : Bytes) (c : ℕ)
      → has_byte quote t ≡ false
      → t ≢ k
      → strip_prefix (close k) (c ∷ rest) ≡ none
      → from_text (quoted k) (quote ∷ escape t (quote ∷ c ∷ rest)) ≡ from_text (quoted k) (c ∷ rest)
  unfolding from_text
  pass t rest c h ne m =
      rw (strip_escape k t (c ∷ rest) plain h ne) (skip_escape k t (quote ∷ c ∷ rest) h ∙ rw m)

abbrev pub src_name : Bytes
src_name = codes "src_hex"

abbrev pub orig_name : Bytes
orig_name = codes "orig_w"

abbrev pub fit_name : Bytes
fit_name = codes "fit_w"

abbrev pub target_name : Bytes
target_name = codes "target"

-- A text that the scan does not confuse with a key: no quotation mark in it, and no key's name.
pub record IsText (t : Bytes) : Type 0 where
  pub unquoted : has_byte quote t ≡ false
  pub not_src : t ≢ src_name
  pub not_target : t ≢ target_name
  pub not_orig : t ≢ orig_name
  pub not_fit : t ≢ fit_name

abbrev pub AreDigits : Bytes → Type 0
AreDigits [] = Unit {0}
AreDigits (c ∷ cs) = (48 ≤ c) × (c ≤ 57) × AreDigits cs

-- A search for a quoted key passes over digits.
skip_digits :
    (k w rest : Bytes) → AreDigits w → from_text (quoted k) (w ++ rest) ≡ from_text (quoted k) rest
unfolding from_text
skip_digits k [] rest h = refl
skip_digits k (c ∷ cs) rest (lo, hi, h) =
    let e : (quote == c) ≡ false = ground arith in rw e (skip_digits k cs rest h)

-- An entry whose parts the scan does not confuse.
pub record IsEntry (e : Entry) : Type 0 where
  pub bytes : IsBytes e.src
  pub some_src : 0 < length e.src
  pub some_target : 0 < length e.target
  pub jp : IsText e.jp
  pub target : IsText e.target
  pub width : AreDigits e.width
  pub some_width : 0 < length e.width

-- Hexadecimal text, which is none of the names.
pub all_hex : Bytes → Bool
all_hex [] = true
all_hex (c ∷ cs) = (ltb c 103 && leb 48 c) && (leb 97 c || ltb c 58) && all_hex cs

pub hex-all_hex :
    (s : Bytes) → IsBytes s → (all_hex (hex s) ≡ true) × (has_byte quote (hex s) ≡ false)
unfolding all_hex
hex-all_hex [] h = (refl, refl)
hex-all_hex (b ∷ bs) (lt, h) =
    let (x, y) = hex-all_hex bs h in
    (ground (arith, digit (b / 16), digit (b % 16)), ground (arith, digit (b / 16), digit (b % 16)))
  where
    digit :
        (n : ℕ)
        → n < 16
        → (hex_digit n < 103) × (48 ≤ hex_digit n) × ((97 ≤ hex_digit n) ⊎ (hex_digit n < 58))
    digit n lt = ground arith

hex_ne : (s k : Bytes) → IsBytes s → all_hex k ≡ false → hex s ≢ k
hex_ne s k h n e = clash ((hex-all_hex s h).0) (ap all_hex e ∙ n)
  where
    clash : all_hex (hex s) ≡ true → all_hex (hex s) ≢ false
    clash p q = cc

module _ (e : Entry) (more : Bytes) (h : IsEntry e) where
  past_width_src : from_text src_key (print_width e.width more) ≡ from_text src_key more
  unfolding from_text
  past_width_src = skip_digits src_name e.width (b' ' ∷ b'}' ∷ more) h.width

  past_width_fit :
      from_text (quoted fit_name) (print_width e.width more) ≡ from_text (quoted fit_name) more
  unfolding from_text
  past_width_fit = skip_digits fit_name e.width (b' ' ∷ b'}' ∷ more) h.width

  pub src_past : from_text src_key (print_past e more) ≡ from_text src_key more
  unfolding from_text
  src_past =
      pass src_name (refl, refl) e.jp _ b',' h.jp.unquoted h.jp.not_src refl
      ∙ pass src_name (refl, refl) e.target _ b',' h.target.unquoted h.target.not_src refl
      ∙ past_width_src

  pub fit_past : from_text (quoted fit_name) (print_past e more) ≡ from_text (quoted fit_name) more
  unfolding from_text
  fit_past =
      pass fit_name (refl, refl) e.jp _ b',' h.jp.unquoted h.jp.not_fit refl
      ∙ pass fit_name (refl, refl) e.target _ b',' h.target.unquoted h.target.not_fit refl
      ∙ past_width_fit

  -- The width's key, from there on.
  pub orig_past :
      from_text (quoted orig_name) (print_past e more)
      ≡ some (quoted orig_name ++ (b':' ∷ b' ' ∷ (e.width ++ (b' ' ∷ b'}' ∷ more))))
  unfolding from_text
  orig_past =
      pass orig_name (refl, refl) e.jp _ b',' h.jp.unquoted h.jp.not_orig refl
      ∙ pass orig_name (refl, refl) e.target _ b',' h.target.unquoted h.target.not_orig refl

  -- The target's key, from there on.
  pub target_past :
      from_text target_key (print_past e more)
      ≡ some
          (target_key ++ (b':' ∷ b' ' ∷ quote ∷ escape e.target (quote ∷ print_width e.width more)))
  unfolding from_text
  target_past = pass target_name (refl, refl) e.jp _ b',' h.jp.unquoted h.jp.not_target refl

  -- Behind its own key an entry has no further one.
  pub src_body : from_text src_key (print_body e more) ≡ from_text src_key more
  unfolding from_text all_hex
  src_body =
      pass src_name (refl, refl) (hex e.src) _ b',' (hex-all_hex e.src h.bytes).1
        (hex_ne e.src src_name h.bytes refl) refl
      ∙ src_past

  fit_body : from_text (quoted fit_name) (print_body e more) ≡ from_text (quoted fit_name) more
  unfolding from_text all_hex
  fit_body =
      pass fit_name (refl, refl) (hex e.src) _ b',' (hex-all_hex e.src h.bytes).1
        (hex_ne e.src fit_name h.bytes refl) refl
      ∙ fit_past

abbrev pub AreEntries : List Entry → Type 0
AreEntries [] = Unit {0}
AreEntries (e ∷ es) = IsEntry e × AreEntries es

pub past_comma :
    (k : Bytes) (es : List Entry)
    → from_text (quoted k) (comma es (10 ∷ print_all es)) ≡ from_text (quoted k) (print_all es)
unfolding from_text
past_comma k [] = refl
past_comma k (e ∷ es) = refl

pub no_fit : (es : List Entry) → AreEntries es → from_text (quoted fit_name) (print_all es) ≡ none
unfolding from_text
no_fit [] h = refl
no_fit (e ∷ es) (he, h) =
    fit_body e (comma es (10 ∷ print_all es)) he ∙ past_comma fit_name es ∙ no_fit es h

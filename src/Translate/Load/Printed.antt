-- ===== src/Translate/Load/Printed.antt =====
-- A whole translations.json as `load_translations_locked` of src/main/diagnostics.cpp reads it.
use pocket_monsters_stadium.Prelude.{
  ℕ, zero, suc, ◌+◌, ◌-◌, ◌*◌, ◌&&◌, ◌||◌, true, false, ltb, leb, ◌==◌, ◌++◌, take, length-append,
  ◌≡◌, ◌≤◌, ◌<◌, refl, ap, ◌∙◌, List, [], ◌∷◌, Option, none, some, arith, Bytes, length,
}
use pocket_monsters_stadium.Prelude.Int.{ℤ, pos, negsuc}
use pocket_monsters_stadium.Translate.Fnv.{fnv1a, IsBytes}
use pocket_monsters_stadium.Translate.Json.{
  quote, quoted, json_read_string, json_read_int, from_text, from_byte, within, digits_value,
  read_signed, read_digits, skip_blanks, after_key, after_colon, upto,
}
use pocket_monsters_stadium.Translate.Load.{
  XlateVal, XlateMap, src_key, target_key, hex_bytes, insert_entry, read_fields, read_entry,
  entry_from, entries, read_entries, or_empty, target_at,
}
use pocket_monsters_stadium.Translate.Load.Fuel.{from_text_le, size}
use pocket_monsters_stadium.Translate.Load.RoundTrip.{
  hex, escape, escape_byte, pairs-hex, string_body-escape,
}
use pocket_monsters_stadium.Translate.Load.Search.{
  Entry, print_width, print_past, print_body, print_all, comma, print_target, src_name, IsEntry,
  AreEntries, AreDigits, orig_name, fit_name, src_body, orig_past, fit_past, target_past,
  past_comma, no_fit,
}

escape_byte_le : (c : ℕ) (xs : Bytes) → length xs < length (escape_byte c xs)
escape_byte_le c xs = ground arith

length-escape : (t rest : Bytes) → length rest + length t ≤ length (escape t rest)
length-escape [] rest = omega arith
length-escape (c ∷ cs) rest =
    omega (arith, length-escape cs rest, escape_byte_le c (escape cs rest))

or_empty_le : (o : Option Bytes) (n : ℕ) → size o ≤ n + 1 → length (or_empty o) ≤ n
or_empty_le none n h = omega arith
or_empty_le (some s) n h = omega arith

end_le : (k rest : Bytes) → length (or_empty (from_text k rest)) ≤ length rest
end_le k rest = or_empty_le (from_text k rest) (length rest) (from_text_le k rest)

within-some : (end p : Bytes) → length end < length p → within end (some p) ≡ some p
unfolding within
within-some end p h = ground arith

json_read_int_absent :
    (key start end : Bytes) (def : ℤ)
    → within end (from_text (quoted key) start) ≡ none
    → json_read_int key start end def ≡ def
unfolding json_read_int after_key
json_read_int_absent key start end def h = rw h refl

within-none : (end : Bytes) (o : Option Bytes) → size o ≤ length end + 1 → within end o ≡ none
unfolding within
within-none end none h = refl
within-none end (some p) h = let e : ltb (length end) (length p) ≡ false = ground arith in rw e refl

-- The number that digits stand for, behind the number `v` of those before.
abbrev pub decimal : ℕ → Bytes → ℕ
decimal v [] = v
decimal v (c ∷ cs) = decimal (v * 10 + (c - 48)) cs

digits_value_lem :
    (v : ℕ) (w rest : Bytes) → AreDigits w → digits_value v (w ++ (b' ' ∷ rest)) ≡ decimal v w
unfolding digits_value
digits_value_lem v [] rest h = refl
digits_value_lem v (c ∷ cs) rest (lo, hi, h) =
    let e : (leb 48 c && leb c 57) ≡ true = ground arith in
    rw e (digits_value_lem (v * 10 + (c - 48)) cs rest h)

at_digit :
    (c : ℕ) (cs : Bytes) (def : ℤ)
    → (leb 48 c && leb c 57) ≡ true
    → read_digits false (c ∷ cs) def ≡ pos (digits_value 0 (c ∷ cs))
unfolding read_digits
at_digit c cs def h = rw h refl

read_signed_lem :
    (w rest : Bytes) (def : ℤ)
    → AreDigits w
    → 0 < length w
    → read_signed (skip_blanks (b' ' ∷ (w ++ (b' ' ∷ rest)))) def ≡ pos (decimal 0 w)
unfolding read_signed skip_blanks
read_signed_lem [] rest def h l = absurd (omega arith)
read_signed_lem (c ∷ cs) rest def (lo, hi, h) l =
    let blank : (c == b' ' || c == 9) ≡ false = ground arith in
    let minus : (c == b'-') ≡ false = ground arith in
    let digit : (leb 48 c && leb c 57) ≡ true = ground arith in
    let value = digits_value_lem 0 (c ∷ cs) rest (lo, hi, h) in
    rw (blank, minus) (at_digit c (cs ++ (b' ' ∷ rest)) def digit ∙ ap pos value)

take_over : (w r : Bytes) (c m : ℕ) → take (length w + suc m) (w ++ (c ∷ r)) ≡ w ++ (c ∷ take m r)
take_over [] r c m = let e : 0 + suc m ≡ suc m = omega arith in ap (λ n. take n (c ∷ r)) e
take_over (x ∷ xs) r c m =
    let e : suc (length xs) + suc m ≡ suc (length xs + suc m) = omega arith in
    ap (λ n. take n (x ∷ (xs ++ (c ∷ r)))) e ∙ ap (x ∷◌) (take_over xs r c m)

-- The value of an entry.
abbrev pub value_of : Entry → XlateVal
value_of e = record { en = e.target; orig_w = pos (decimal 0 e.width); fit_w = negsuc 0 }

-- The table with the entries put in in their order.
abbrev pub put_all : List Entry → XlateMap → XlateMap
put_all [] m = m
put_all (e ∷ es) m = put_all es ((fnv1a e.src, value_of e) ∷ m)

hex_bytes-hex : (s : Bytes) → IsBytes s → hex_bytes (hex s) ≡ s
unfolding hex_bytes
hex_bytes-hex s h = rw (pairs-hex s h)

json_read_string-escape :
    (s rest : Bytes) → json_read_string (quote ∷ escape s (quote ∷ rest)) ≡ (s, rest)
unfolding json_read_string
json_read_string-escape s rest = string_body-escape s rest

insert_entry_lem :
    (s t : Bytes) (a b : ℤ) (m : XlateMap)
    → 0 < length s
    → 0 < length t
    → insert_entry s t a b m ≡ (fnv1a s, record { en = t; orig_w = a; fit_w = b }) ∷ m
unfolding insert_entry
insert_entry_lem s t a b m hs ht =
    let e : (length s == 0 || length t == 0) ≡ false = ground arith in rw e refl

module _ (e : Entry) (more end : Bytes) (h : IsEntry e) (le : length end ≤ length more) where
  target_at_lem : target_at (within end (from_text target_key (print_past e more))) ≡ e.target
  unfolding target_at from_byte
  target_at_lem =
      ap (λ o. target_at (within end o)) (target_past e more h)
      ∙ ap target_at (
          within-some end _ (
            omega (
              arith,
              length-escape e.target (quote ∷ print_width e.width more),
              length-append e.width (b' ' ∷ b'}' ∷ more),
            )))
      ∙ ap (λ (r : Bytes × Bytes). r.0)
          (json_read_string-escape e.target (print_width e.width more))

  fit_lem :
      from_text (quoted fit_name) more ≡ none
      → json_read_int fit_name (print_past e more) end (negsuc 0) ≡ negsuc 0
  fit_lem gone =
      json_read_int_absent fit_name (print_past e more) end (negsuc 0)
        (ap (within end) (fit_past e more h ∙ gone) ∙ (unfold within in refl))

  -- What stands between the colon and the next entry.
  upto_lem :
      let m = length more + 1 - length end in
      upto end (b' ' ∷ (e.width ++ (b' ' ∷ b'}' ∷ more)))
      ≡ b' ' ∷ (e.width ++ (b' ' ∷ take m (b'}' ∷ more)))
  upto_lem =
      let m = length more + 1 - length end in
      let count : length (b' ' ∷ (e.width ++ (b' ' ∷ b'}' ∷ more))) - length end
          ≡ suc (length e.width + suc m) =
        omega (arith, length-append e.width (b' ' ∷ b'}' ∷ more)) in
      ap (λ n. take n (b' ' ∷ (e.width ++ (b' ' ∷ b'}' ∷ more)))) count
      ∙ ap (b' ' ∷◌) (take_over e.width (b'}' ∷ more) b' ' m)

  colon_lem :
      after_colon end
        (negsuc 0)
        (within end (some (b':' ∷ b' ' ∷ (e.width ++ (b' ' ∷ b'}' ∷ more)))))
      ≡ pos (decimal 0 e.width)
  unfolding after_colon
  colon_lem =
      let Q = b':' ∷ b' ' ∷ (e.width ++ (b' ' ∷ b'}' ∷ more)) in
      let shorter : length end < length Q =
        omega (arith, length-append e.width (b' ' ∷ b'}' ∷ more)) in
      ap (after_colon end (negsuc 0)) (within-some end Q shorter)
      ∙ ap (λ x. read_signed (skip_blanks x) (negsuc 0)) upto_lem
      ∙ read_signed_lem e.width _ (negsuc 0) h.width h.some_width

  orig_lem : json_read_int orig_name (print_past e more) end (negsuc 0) ≡ pos (decimal 0 e.width)
  unfolding json_read_int after_key from_byte
  orig_lem =
      let P = quoted orig_name ++ (b':' ∷ b' ' ∷ (e.width ++ (b' ' ∷ b'}' ∷ more))) in
      let shorter : length end < length P =
        omega (arith, length-append e.width (b' ' ∷ b'}' ∷ more)) in
      ap (λ o. after_key end 8 (negsuc 0) (within end o)) (orig_past e more h)
      ∙ ap (after_key end 8 (negsuc 0)) (within-some end P shorter)
      ∙ colon_lem

  read_entry_lem :
      (m : XlateMap)
      → from_text (quoted fit_name) more ≡ none
      → read_entry (quote ∷ escape (hex e.src) (quote ∷ print_past e more)) end m
        ≡ (fnv1a e.src, value_of e) ∷ m
  unfolding read_entry read_fields
  read_entry_lem m gone =
      ap (λ (r : Bytes × Bytes). read_fields r end m)
        (json_read_string-escape (hex e.src) (print_past e more))
      ∙ rw (hex_bytes-hex e.src h.bytes, target_at_lem, orig_lem, fit_lem gone)
          (insert_entry_lem e.src e.target (pos (decimal 0 e.width)) (negsuc 0) m h.some_src
            h.some_target)

-- What the body of the loop puts into the table for the entry at hand.
abbrev entry_step : Bytes → Option Bytes → XlateMap → XlateMap
entry_step body next m =
    entry_from body (or_empty next) (within (or_empty next) (from_byte quote body)) m

step_lem :
    (e : Entry) (more : Bytes) (m : XlateMap)
    → IsEntry e
    → from_text (quoted fit_name) more ≡ none
    → entry_step (print_body e more) (from_text src_key more) m ≡ (fnv1a e.src, value_of e) ∷ m
unfolding entry_from from_byte
step_lem e more m h gone =
    let end = or_empty (from_text src_key more) in
    let q = quote ∷ escape (hex e.src) (quote ∷ print_past e more) in
    let le : length end ≤ length more = end_le src_key more in
    let shorter : length end < length q = omega (
      arith,
      length-escape (hex e.src) (quote ∷ print_past e more),
      length-escape e.jp (quote ∷ print_target e.target (print_width e.width more)),
      length-escape e.target (quote ∷ print_width e.width more),
      length-append e.width (b' ' ∷ b'}' ∷ more),
    ) in
    ap (λ (o : Option Bytes). entry_from (print_body e more) end o m) (within-some end q shorter)
    ∙ read_entry_lem e more end h le m gone

entries-print_all :
    (es : List Entry) (fuel : ℕ) (m : XlateMap)
    → AreEntries es
    → length es < fuel
    → entries fuel (from_text src_key (print_all es)) m ≡ some (put_all es m)
unfolding entries from_text
entries-print_all es zero m h lt = absurd (omega arith)
entries-print_all [] (suc fuel) m h lt = refl
entries-print_all (e ∷ es) (suc fuel) m (he, h) lt =
    let more = comma es (10 ∷ print_all es) in
    ap (λ (o : Option Bytes). entries fuel o (entry_step (print_body e more) o m))
      (src_body e more he)
    ∙ ap (entries fuel (from_text src_key more))
        (step_lem e more m he (past_comma fit_name es ∙ no_fit es h))
    ∙ ap (λ o. entries fuel o ((fnv1a e.src, value_of e) ∷ m)) (past_comma src_name es)
    ∙ entries-print_all es fuel ((fnv1a e.src, value_of e) ∷ m) h (omega arith)

comma_le : (es : List Entry) (rest : Bytes) → length rest ≤ length (comma es rest)
comma_le [] rest = omega arith
comma_le (e ∷ es) rest = omega arith

count_le : (es : List Entry) → length es ≤ length (print_all es)
count_le [] = omega arith
count_le (e ∷ es) =
    let more = comma es (10 ∷ print_all es) in
    omega (
      arith,
      count_le es,
      comma_le es (10 ∷ print_all es),
      length-escape (hex e.src) (quote ∷ print_past e more),
      length-escape e.jp (quote ∷ print_target e.target (print_width e.width more)),
      length-escape e.target (quote ∷ print_width e.width more),
      length-append e.width (b' ' ∷ b'}' ∷ more),
    )

-- A file in the layout of translations.json, with one line for each entry that holds its source text in
-- hexadecimal, the same text in clear, the target and the width, is read as exactly these entries, each
-- under the hash of its source text with its target and width, a later one in front. The source texts,
-- the targets and the digits of the widths are not empty, and the clear texts and targets have no
-- quotation mark and are not the name of a key.
pub read_entries-print_all :
    (es : List Entry)
    → AreEntries es
    → read_entries (b'[' ∷ 10 ∷ print_all es) ≡ some (put_all es [])
unfolding read_entries from_text
read_entries-print_all es h =
    entries-print_all es (length (b'[' ∷ 10 ∷ print_all es) + 2) [] h (omega (arith, count_le es))

-- ===== src/Translate/Load.antt =====
-- The translation table and its loading (`load_translations_locked`, `maybe_reload_translations` of
-- src/main/diagnostics.cpp).
pub mod Fuel
pub mod RoundTrip
pub mod Search
pub mod Printed
use pocket_monsters_stadium.Prelude.{
  ℕ, zero, suc, ◌+◌, ◌-◌, ◌*◌, ◌≡◌, ◌≤◌, ◌<◌, refl, Bool, true, false, not, ◌&&◌, ◌||◌, List, [],
  ◌∷◌, ◌++◌, Option, none, some, arith, ltb, leb, ◌==◌, if◌then◌else◌, Bytes, codes, length, drop,
  bytes_eq,
}
use pocket_monsters_stadium.Prelude.Int.{ℤ, negsuc}
use pocket_monsters_stadium.Translate.Fnv.{fnv1a}
use pocket_monsters_stadium.Translate.Json.{
  quote, quoted, hexval, json_read_string, json_read_int, from_text, from_byte, within,
}
use pocket_monsters_stadium.Census.TextPc.{Table, textpc_add}

-- XlateVal
pub record XlateVal : Type 0 where
  pub en : Bytes
  pub orig_w : ℤ
  pub fit_w : ℤ

-- g_xlate: a later entry for a key stands in front of an earlier one.
abbrev pub XlateMap : Type 0
XlateMap = List (ℕ × XlateVal)

unfoldable pub find : XlateMap → ℕ → Option XlateVal
find [] k = none
find ((j, v) ∷ m) k = if j == k then some v else find m k

abbrev pub hex_pair : Option ℕ → Option ℕ → Option ℕ
hex_pair (some hi) (some lo) = some (hi * 16 + lo)
hex_pair (some hi) none = none
hex_pair none lo = none

abbrev pub push : Option ℕ → Option Bytes → Option Bytes
push (some b) (some bs) = some (b ∷ bs)
push (some b) none = none
push none bs = none

-- The loop over the pairs; a bad pair ends it with `none`, and a last odd digit is left out.
unfoldable pub pairs : Bytes → Option Bytes
unfolding hexval
pairs [] = some []
pairs (h ∷ []) = some []
pairs (h ∷ l ∷ cs) = push (hex_pair (hexval h) (hexval l)) (pairs cs)

abbrev pub or_empty : Option Bytes → Bytes
or_empty none = []
or_empty (some b) = b

unfoldable pub hex_bytes : Bytes → Bytes
unfolding pairs
hex_bytes hex = or_empty (pairs hex)

abbrev pub src_key : Bytes
src_key = quoted (codes "src_hex")

abbrev pub target_key : Bytes
target_key = quoted (codes "target")

-- `data.find('"', t + 8)` and the string there.
unfoldable pub target_at : Option Bytes → Bytes
target_at none = []
target_at (some t) = (json_read_string (or_empty (from_byte quote (drop 8 t)))).0

-- `if (!bytes.empty() && !target.empty())`
unfoldable pub insert_entry : Bytes → Bytes → ℤ → ℤ → XlateMap → XlateMap
insert_entry bytes target orig_w fit_w m =
    if length bytes == 0 || length target == 0
    then m
    else (fnv1a bytes, record { en = target; orig_w = orig_w; fit_w = fit_w }) ∷ m

-- The fields of an entry, behind its hexadecimal text; `end` is where the next entry begins.
unfoldable pub read_fields : Bytes × Bytes → Bytes → XlateMap → XlateMap
unfolding hex_bytes target_at insert_entry
read_fields (hex, past) end m =
    insert_entry (hex_bytes hex) (target_at (within end (from_text target_key past)))
      (json_read_int (codes "orig_w") past end (negsuc 0))
      (json_read_int (codes "fit_w") past end (negsuc 0)) m

-- One entry, from the quote of its hexadecimal text on.
unfoldable pub read_entry : Bytes → Bytes → XlateMap → XlateMap
unfolding read_fields
read_entry q end m = read_fields (json_read_string q) end m

-- The body of the loop: `body` is the text behind the key.
unfoldable pub entry_from : Bytes → Bytes → Option Bytes → XlateMap → XlateMap
unfolding read_entry
entry_from body end none m = m
entry_from body end (some q) m = read_entry q end m

-- The loop over the entries, `none` when the fuel runs out.
unfoldable pub entries : ℕ → Option Bytes → XlateMap → Option XlateMap
unfolding entry_from
entries zero at m = none
entries (suc fuel) none m = some m
entries (suc fuel) (some at) m =
    let body = drop 9 at in
    let next = from_text src_key body in
    let end = or_empty next in
    entries fuel next (entry_from body end (within end (from_byte quote body)) m)

unfoldable pub read_entries : Bytes → Option XlateMap
unfolding entries
read_entries text = entries (length text + 2) (from_text src_key text) []

-- g_xlate, g_xlate_armed, g_textpc_set, g_xlate_mtime and g_xlate_ever_loaded.
pub record Xlate : Type 0 where
  pub entries_of : XlateMap
  pub armed : Bool
  pub textpc : Table
  pub mtime : Option ℕ
  pub ever_loaded : Bool

-- kStringDrawPC, kDescDrawPC and kPrintfPC
abbrev pub string_draw_pc : ℕ
string_draw_pc = 0x8001A944

abbrev pub desc_draw_pc : ℕ
desc_draw_pc = 0x8001A920

abbrev pub printf_pc : ℕ
printf_pc = 0x80055CE0

abbrev pub is_empty : XlateMap → Bool
is_empty [] = true
is_empty (e ∷ m) = false

abbrev pub or_cleared : Option XlateMap → XlateMap
or_cleared none = []
or_cleared (some m) = m

-- The file is `none` if it cannot be opened: the table is cleared, and nothing else happens.
unfoldable pub load_translations : Option Bytes → Xlate → Xlate
unfolding read_entries
load_translations none x = record x { entries_of = [] }
load_translations (some text) x =
    let m = or_cleared (read_entries text) in
    record x {
      entries_of = m;
      armed = not (is_empty m);
      textpc = textpc_add (textpc_add x.textpc string_draw_pc) printf_pc;
    }

abbrev pub same_time : Option ℕ → ℕ → Bool
same_time none mt = false
same_time (some t) mt = t == mt

-- `mt` is the file's time of writing, `none` where it cannot be had.
unfoldable pub maybe_reload_translations : Option ℕ → Option Bytes → Xlate → Xlate
unfolding load_translations
maybe_reload_translations none file x = record x { ever_loaded = true }
maybe_reload_translations (some mt) file x =
    if not x.ever_loaded || not (same_time x.mtime mt)
    then load_translations file (record x { mtime = some mt; ever_loaded = true })
    else x

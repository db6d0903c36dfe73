-- ===== src/Tests/Translate.antt =====
-- The translation layer at concrete inputs.
use pocket_monsters_stadium.Prelude.{
  ℕ, ◌/◌, ◌≡◌, ◌≢◌, refl, true, false, List, [], ◌∷◌, none, some, arith, Bytes, codes, Bool,
  has_byte, bytes_eq, bytes_eq_iff, replicate, length-replicate, ◌==◌,
}
use pocket_monsters_stadium.Prelude.Int.{negsuc}
use pocket_monsters_stadium.Memory.{
  Rdram, store_bytes, read_text_arg, rdram_range, text_loop, swizzle, textish, keep,
}
use pocket_monsters_stadium.Scratch.{swap_scratch}
use pocket_monsters_stadium.Census.TextPc.{
  Table, empty, textpc_add, textpc_contains, contains_loop, add_loop, slot,
}
use pocket_monsters_stadium.Translate.Fnv.{fnv1a, IsBytes}
use pocket_monsters_stadium.Translate.Context.{Context, Outside, word}
use pocket_monsters_stadium.Translate.Glyph.{uncalibrated}
use pocket_monsters_stadium.Translate.Discovery.{watch_key}
use pocket_monsters_stadium.Translate.Load.{XlateVal, XlateMap, read_entries, find}
use pocket_monsters_stadium.Translate.Load.Fuel.{read_entries_total}
use pocket_monsters_stadium.Translate.Load.Search.{
  Entry, src_name, target_name, orig_name, fit_name, print_all, IsText, AreEntries,
}
use pocket_monsters_stadium.Translate.Load.Printed.{put_all, read_entries-print_all}
use pocket_monsters_stadium.Translate.Hook.{Setup, Run, xlate_general, known_text}
use pocket_monsters_stadium.Translate.Draw.{Hook, File, text_xlate, reload_check, raw_text}
use pocket_monsters_stadium.Translate.Draw.Swap.{IsSwapped, xlate_general-IsSwapped}
use pocket_monsters_stadium.Translate.Draw.Frame.{SameElse, text_xlate-SameElse}
use pocket_monsters_stadium.Translate.Draw.Unknown.{IsUnknown, text_xlate_unknown}
use pocket_monsters_stadium.Translate.Draw.Reload.{Call, run_calls, IsLoaded, run_calls-IsLoaded}

abbrev hello : Bytes
hello = codes "Hello"

-- Two katakana of EUC-JP.
abbrev pu_o : Bytes
pu_o = 0xA5 ∷ 0xD7 ∷ 0xA5 ∷ 0xAA ∷ []

-- The first lines of a file, with a width of two digits.
abbrev pu_o_entry : Entry
pu_o_entry = record { src = pu_o; jp = codes "pu-o"; target = hello; width = codes "12" }

abbrev two_entries : List Entry
two_entries = pu_o_entry ∷ record pu_o_entry { target = codes "Bye\n"; width = codes "3" } ∷ []

differ : (a b : Bytes) → bytes_eq a b ≡ false → a ≢ b
differ a b h e = true≢false (bytes_eq a b) ((bytes_eq_iff a b).1 e) h
  where
    true≢false : (c : Bool) → c ≡ true → c ≢ false
    true≢false c p q = cc

checked-IsText :
    (t : Bytes)
    → has_byte 34 t ≡ false
    → bytes_eq t src_name ≡ false
    → bytes_eq t target_name ≡ false
    → bytes_eq t orig_name ≡ false
    → bytes_eq t fit_name ≡ false
    → IsText t
checked-IsText t q a b c d = record {
  unquoted = q;
  not_src = differ t src_name a;
  not_target = differ t target_name b;
  not_orig = differ t orig_name c;
  not_fit = differ t fit_name d;
}

pu_o-IsBytes : IsBytes pu_o
pu_o-IsBytes = (omega arith, (omega arith, (omega arith, (omega arith, tt))))

two_entries-AreEntries : AreEntries two_entries
two_entries-AreEntries = (
  record {
    bytes = pu_o-IsBytes;
    some_src = omega arith;
    some_target = omega arith;
    jp = checked-IsText (codes "pu-o") refl refl refl refl refl;
    target = checked-IsText hello refl refl refl refl refl;
    width = (omega arith, omega arith, (omega arith, omega arith, tt));
    some_width = omega arith;
  },
  (
    record {
      bytes = pu_o-IsBytes;
      some_src = omega arith;
      some_target = omega arith;
      jp = checked-IsText (codes "pu-o") refl refl refl refl refl;
      target = checked-IsText (codes "Bye\n") refl refl refl refl refl;
      width = (omega arith, omega arith, tt);
      some_width = omega arith;
    },
    tt,
  ),
)

print_all_example : read_entries (b'[' ∷ 10 ∷ print_all two_entries) ≡ some (put_all two_entries [])
print_all_example = read_entries-print_all two_entries two_entries-AreEntries

-- A line as it stands in the file.
print_all_run :
    print_all (pu_o_entry ∷ [])
    ≡ codes
        "  { \"src_hex\": \"a5d7a5aa\", \"src_jp\": \"pu-o\", \"target\": \"Hello\", \"orig_w\": 12 }\n]\n"
print_all_run = refl

read_entries_total_example : (r : XlateMap) × (read_entries (codes "[{\"src_hex\":") ≡ some r)
read_entries_total_example = read_entries_total (codes "[{\"src_hex\":")

-- Two watched strings at two sources have one key.
watch_key_clash : watch_key 0x8001A944 0 16 ≡ watch_key 0x8001A944 1 0
unfolding watch_key
watch_key_clash = refl

abbrev outside : Outside
outside = record {
  draw_glyph = λ r c. (r, c);
  sheet_index = λ r c. (r, c);
  Scale = ℕ;
  one = 1;
  ratio = λ a b. 0;
  condenses = λ sc. sc == 0;
  condense = λ adv sc. adv / 2;
}

abbrev setup : Setup
setup = record { out = outside; gap = 1; fit_on = true; probe = false }

abbrev blank : Rdram
blank a = 0

-- The memory with the text at 0x80001000.
abbrev with_text : Rdram
with_text = store_bytes blank 0x1000 pu_o

abbrev regs : Context
regs = record {
  r2 = 0;
  r3 = 0;
  r4 = 0x80002000;
  r5 = 5;
  r6 = 0x80001000;
  r7 = 0;
  r8 = 8;
  r9 = 9;
  r16 = 0;
  r17 = 0;
  r18 = 0;
  r19 = 0;
  r29 = 0x80200000;
  r31 = 0;
  others = λ n. n;
}

abbrev hello_val : XlateVal
hello_val = record { en = hello; orig_w = negsuc 0; fit_w = negsuc 0 }

abbrev table : XlateMap
table = (fnv1a pu_o, hello_val) ∷ []

abbrev run : Run
run = record { rdram = with_text; ctx = regs; metrics = λ i. uncalibrated; hits = 0 }

abbrev routines : Table
routines = textpc_add empty 0x80055CE0

swap_example :
    IsSwapped run
      (swap_scratch (word regs.r29) false)
      hello
      (xlate_general setup routines table 0x80055CE0 run)
unfolding textpc_contains textpc_add known_text read_text_arg find contains_loop add_loop slot
    rdram_range text_loop store_bytes swizzle textish keep fnv1a
swap_example =
    xlate_general-IsSwapped setup routines table 0x80055CE0 run pu_o hello_val refl refl
      (omega arith) (omega arith) (omega arith) refl

abbrev fresh : Hook
fresh = record {
  xlate = record {
    entries_of = [];
    armed = false;
    textpc = empty;
    mtime = none;
    ever_loaded = false;
  };
  metrics = λ i. uncalibrated;
  hits = 0;
  calls = 3;
  active = false;
  disc = record { seen = []; log = [] };
}

abbrev drawn : Call
drawn = record { name = some (codes "FUN_8001a944"); present = true; rdram = blank; ctx = regs }

reload_example :
    IsLoaded setup 7
      (codes "[]")
      (run_calls setup 7 (codes "[]") (replicate 1024 drawn) fresh).xlate
reload_example =
    run_calls-IsLoaded setup 7 (codes "[]") (replicate 1024 drawn) fresh refl refl
      (omega (arith, length-replicate 1024 drawn))

abbrev no_file : File
no_file = record { mt = none; text = none }

-- A state with an entry that stands nowhere in memory.
abbrev armed : Hook
armed = record fresh {
  xlate = record {
    entries_of = table;
    armed = true;
    textpc = routines;
    mtime = some 7;
    ever_loaded = true;
  };
}

blank-IsUnknown : IsUnknown (reload_check no_file armed).xlate.entries_of blank regs
unfolding reload_check known_text read_text_arg raw_text find rdram_range text_loop fnv1a
blank-IsUnknown = record { at_r4 = refl; at_r5 = refl; at_r6 = refl; at_r7 = refl; drawn = refl }

unknown_example :
    ((text_xlate setup no_file (some (codes "FUN_80055ce0")) true armed blank regs).1 ≡ blank)
    × ((text_xlate setup no_file (some (codes "FUN_80055ce0")) true armed blank regs).2 ≡ regs)
    × ((text_xlate setup no_file (some (codes "FUN_80055ce0")) true armed blank regs).0.metrics
        ≡ armed.metrics)
    × ((text_xlate setup no_file (some (codes "FUN_80055ce0")) true armed blank regs).0.hits
        ≡ armed.hits)
unknown_example =
    text_xlate_unknown setup no_file (some (codes "FUN_80055ce0")) true armed blank regs
      blank-IsUnknown

-- A call that finds a known text and puts its translation in its place.
registers_example :
    SameElse regs
      (text_xlate setup no_file (some (codes "FUN_80055ce0")) true armed with_text regs).2
registers_example =
    text_xlate-SameElse setup no_file (some (codes "FUN_80055ce0")) true armed with_text regs

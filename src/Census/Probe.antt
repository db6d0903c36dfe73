-- ===== src/Census/Probe.antt =====
-- The text-draw census: the probe at every entry of a recompiled function
-- (`pkmnstadium_textdraw_probe` of src/main/diagnostics.cpp).

use pocket_monsters_stadium.Prelude.{
  ℕ, ◌+◌, ◌%◌, ◌^◌, ◌≡◌, refl, sym, ◌∙◌, Bool, true, false, arith, ◌||◌, ◌&&◌, List, [], ◌∷◌,
  Option, none, some, leb, ◌==◌, if◌then◌else◌, Bytes, set, take,
}
use pocket_monsters_stadium.Memory.{Rdram, read_text_arg}
use pocket_monsters_stadium.Census.Slots.{
  find_used, find_free, further, entry_at, lookup, find_used-Found, find_free-Room, Found, Room,
}
use pocket_monsters_stadium.Census.TextPc.{Table, textpc_add}
use pocket_monsters_stadium.Census.Inventory.{Inventory, strinv_upsert}
use pocket_monsters_stadium.Translate.Load.{printf_pc}
use pocket_monsters_stadium.Translate.Hook.{parse_fun_pc}

-- TextDrawCand; `sample` has `sample_len` bytes, and an unused slot is `none`.
pub record TextDrawCand : Type 0 where
  pub pc : ℕ
  pub ra : ℕ
  pub a0 : ℕ
  pub a1 : ℕ
  pub a2 : ℕ
  pub count : ℕ
  pub sample : Bytes

abbrev pub Cands : Type 0
Cands = List (Option TextDrawCand)

-- kTextSampleLen
abbrev pub sample_cap : ℕ
sample_cap = 64

abbrev pub pc_of : TextDrawCand → ℕ
pc_of c = c.pc

-- The arguments of a call that is counted.
pub record Args : Type 0 where
  pub ra : ℕ
  pub a0 : ℕ
  pub a1 : ℕ
  pub a2 : ℕ

-- What a call makes of its slot.
abbrev pub count_call : Args → Bytes → TextDrawCand → TextDrawCand
count_call a b c = record {
  pc = c.pc;
  ra = a.ra;
  a0 = a.a0;
  a1 = a.a1;
  a2 = a.a2;
  count = (c.count + 1) % 2 ^ 64;
  sample = take sample_cap b;
}

abbrev pub new_cand : ℕ → TextDrawCand
new_cand pc = record { pc = pc; ra = 0; a0 = 0; a1 = 0; a2 = 0; count = 0; sample = [] }

abbrev pub or_new : ℕ → Option TextDrawCand → TextDrawCand
or_new pc none = new_cand pc
or_new pc (some c) = c

-- The slot with the PC, else the first unused one; a full table is left as it is.
abbrev pub put_at : Cands → ℕ → (TextDrawCand → TextDrawCand) → Option ℕ → Option ℕ → Cands
put_at xs pc f (some i) free = set xs i (some (f (or_new pc (entry_at xs i))))
put_at xs pc f none (some i) = set xs i (some (f (new_cand pc)))
put_at xs pc f none none = xs

unfoldable pub cand_upsert : Cands → ℕ → Args → Bytes → Cands
cand_upsert xs pc a b = put_at xs pc (count_call a b) (find_used pc_of pc xs) (find_free xs)

-- g_text_qualifying, g_strinv, g_textpc_set and g_textcand
pub record Census : Type 0 where
  pub qualifying : ℕ
  pub inventory : Inventory
  pub textpc : Table
  pub cands : Cands

-- What the formatter and the drawing routines have in common: count, inventory, and register the PC.
unfoldable pub take_stock : Census → ℕ → ℕ → ℕ → Bytes → Census
take_stock c pc a0 a1 b = record c {
  qualifying = (c.qualifying + 1) % 2 ^ 64;
  inventory = (strinv_upsert c.inventory b (a0 % 2 ^ 16) (a1 % 2 ^ 16)).0;
  textpc = textpc_add c.textpc pc;
}

abbrev pub count_printf : Census → ℕ → Args → Option Bytes → Census
count_printf c pc a none = c
count_printf c pc a (some b) = take_stock c pc a.a0 a.a1 b

abbrev pub count_draw : Census → ℕ → Args → Option Bytes → Census
count_draw c pc a none = c
count_draw c pc a (some b) = record (take_stock c pc a.a0 a.a1 b) {
  cands = cand_upsert c.cands pc a b;
}

-- `_Printf` is counted whatever its other arguments are; any other routine at screen coordinates.
unfoldable pub probe_at : Rdram → ℕ → Args → Census → Census
unfolding take_stock cand_upsert
probe_at rdram pc a c =
    if pc == printf_pc
    then count_printf c pc a (read_text_arg rdram a.a2)
    else if leb 0x1000 a.a0 || leb 0x1000 a.a1
    then c
    else count_draw c pc a (read_text_arg rdram a.a2)

-- RDRAM is `none` before the runtime has set it.
unfoldable pub textdraw_probe : Option Rdram → Option Bytes → Args → Census → Census
unfolding probe_at
textdraw_probe none name a c = c
textdraw_probe (some rdram) name a c = probe_at rdram (parse_fun_pc name) a c

-- Some slot is unused.
abbrev pub has_unused : Cands → Bool
has_unused [] = false
has_unused (none ∷ xs) = true
has_unused (some c ∷ xs) = has_unused xs

unused_of : Option ℕ → Bool
unused_of none = false
unused_of (some i) = true

unused_of-further : (o : Option ℕ) → unused_of (further o) ≡ unused_of o
unfolding unused_of further
unused_of-further none = refl
unused_of-further (some i) = refl

has_unused_lem : (xs : Cands) → has_unused xs ≡ unused_of (find_free xs)
unfolding find_free unused_of
has_unused_lem [] = refl
has_unused_lem (none ∷ xs) = refl
has_unused_lem (some c ∷ xs) = has_unused_lem xs ∙ sym (unused_of-further (find_free xs))

-- The calls counted so far.
abbrev pub calls_of : Option TextDrawCand → ℕ
calls_of none = 0
calls_of (some c) = c.count

abbrev pub is_there : Option TextDrawCand → Bool
is_there none = false
is_there (some c) = true

-- What stands under a PC after a call was counted.
abbrev pub counted : Args → Bytes → Cands → ℕ → TextDrawCand
counted a b xs pc = record {
  pc = pc;
  ra = a.ra;
  a0 = a.a0;
  a1 = a.a1;
  a2 = a.a2;
  count = (calls_of (lookup pc_of pc xs) + 1) % 2 ^ 64;
  sample = take 64 b;
}

under_pc :
    (c : TextDrawCand) (pc : ℕ) (a : Args) (b : Bytes)
    → c.pc ≡ pc
    → count_call a b c ≡ record {
      pc = pc;
      ra = a.ra;
      a0 = a.a0;
      a1 = a.a1;
      a2 = a.a2;
      count = (c.count + 1) % 2 ^ 64;
      sample = take 64 b;
    }
under_pc c pc a b k = rw k refl

and_true : (b : Bool) → (b && true) ≡ b
and_true b = ground arith

and_false : (b : Bool) → (b && false) ≡ false
and_false b = ground arith

upsert-Found :
    (xs : Cands) (pc j : ℕ) (a : Args) (b : Bytes) (o free : Option ℕ)
    → Found pc_of pc xs o
    → has_unused xs ≡ unused_of free
    → (lookup pc_of pc xs ≡ none → Room pc_of pc xs free)
    → lookup pc_of j (put_at xs pc (count_call a b) o free) ≡ (
        if j == pc && (is_there (lookup pc_of pc xs) || has_unused xs)
        then some (counted a b xs pc)
        else lookup pc_of j xs)
unfolding unused_of
upsert-Found xs pc j a b (some i) free (c, at, seen, k, put) room found =
    rw (at, seen, and_true (j == pc), sym (under_pc c pc a b k)) (put (count_call a b c) j k)
upsert-Found xs pc j a b none (some i) absent room put =
    rw (absent, room, and_true (j == pc)) (put absent (count_call a b (new_cand pc)) j refl)
upsert-Found xs pc j a b none none absent room put = rw (absent, room, and_false (j == pc)) refl

-- The call is counted under its PC, with its arguments and the first 64 bytes of its text, from zero for
-- a new one; nothing is seen changed under any other PC, and nothing at all when the PC is new and no
-- slot is unused.
pub lookup-cand_upsert :
    (xs : Cands) (pc j : ℕ) (a : Args) (b : Bytes)
    → lookup pc_of j (cand_upsert xs pc a b) ≡ (
        if j == pc && (is_there (lookup pc_of pc xs) || has_unused xs)
        then some (counted a b xs pc)
        else lookup pc_of j xs)
unfolding cand_upsert
lookup-cand_upsert xs pc j a b =
    upsert-Found xs pc j a b (find_used pc_of pc xs) (find_free xs) (find_used-Found pc_of pc xs)
      (has_unused_lem xs) (find_free-Room pc_of pc xs)

-- ===== src/Translate/Discovery.antt =====
-- The capture of unknown text conventions (`xlate_discovery` of src/main/diagnostics.cpp): which lines
-- are appended to its log. The dump of the registers that the draw at 0x8001AC3C prints once is left out.
use Prim.Native.Nat.{bit_or, bit_xor}
use pocket_monsters_stadium.Prelude.{
  ℕ, ◌+◌, ◌*◌, ◌%◌, ◌^◌, Bool, false, ◌&&◌, ◌||◌, List, [], ◌∷◌, ◌++◌, Option, none, some, ltb,
  ◌==◌, if◌then◌else◌, Bytes, length, bytes_eq,
}
use pocket_monsters_stadium.Memory.{
  Rdram, rdram_range, physical, bytes_from, read_u32, read_text_arg,
}
use pocket_monsters_stadium.Translate.Fnv.{fnv1a}
use pocket_monsters_stadium.Translate.Context.{Context, word}

-- The byte strings that are watched for: kWlTrainer, kWlBack, kWlConfirm, kWlGround, kWlNormalT and
-- kWlSeedCat.
abbrev pub watched : List Bytes
watched =
    (0xA5 ∷ 0xC8 ∷ 0xA5 ∷ 0xEC ∷ 0xA1 ∷ 0xBC ∷ 0xA5 ∷ 0xCA ∷ 0xA1 ∷ 0xBC ∷ [])
    ∷ (0xA4 ∷ 0xE2 ∷ 0xA4 ∷ 0xC9 ∷ 0xA4 ∷ 0xEB ∷ [])
    ∷ (0xA4 ∷ 0xAB ∷ 0xA4 ∷ 0xAF ∷ 0xA4 ∷ 0xCB ∷ 0xA4 ∷ 0xF3 ∷ [])
    ∷ (0xA4 ∷ 0xB8 ∷ 0xA4 ∷ 0xE1 ∷ 0xA4 ∷ 0xF3 ∷ [])
    ∷ (0xA5 ∷ 0xCE ∷ 0xA1 ∷ 0xBC ∷ 0xA5 ∷ 0xDE ∷ 0xA5 ∷ 0xEB ∷ [])
    ∷ (0xA4 ∷ 0xBF ∷ 0xA4 ∷ 0xCD ∷ 0xA5 ∷ 0xDD ∷ 0xA5 ∷ 0xB1 ∷ 0xA5 ∷ 0xE2 ∷ 0xA5 ∷ 0xF3 ∷ [])
    ∷ []

-- Whether the guest bytes at `ptr` begin with `want`; the range covers one byte more.
unfoldable pub guest_prefix_eq : Rdram → ℕ → Bytes → Bool
guest_prefix_eq rdram ptr want =
    rdram_range ptr (length want + 1)
    && bytes_eq (bytes_from rdram (physical ptr) (length want)) want

-- The twenty sources: arguments, temporaries, results, saved registers and stack slots.
unfoldable pub sources : Rdram → Context → List ℕ
sources rdram c =
    let at = λ (o : ℕ). read_u32 rdram ((word c.r29 + o) % 2 ^ 32) in
    word c.r4
    ∷ word c.r5
    ∷ word c.r6
    ∷ word c.r7
    ∷ word c.r8
    ∷ word c.r9
    ∷ word c.r2
    ∷ word c.r3
    ∷ word c.r16
    ∷ word c.r17
    ∷ word c.r18
    ∷ word c.r19
    ∷ at 0x10
    ∷ at 0x14
    ∷ at 0x18
    ∷ at 0x1C
    ∷ at 0x20
    ∷ at 0x24
    ∷ at 0x28
    ∷ at 0x2C
    ∷ []

-- A line of the log: which watched string, a long text with its bytes, or a string in r4 to r7.
pub data Line : Type 0 where
  watch : ℕ → ℕ → Line
  longtext pclog : ℕ → Bytes → Line

-- g_disc_seen with g_disc_n, and the lines written, the last one first.
pub record Disc : Type 0 where
  pub seen : List ℕ
  pub log : List Line

-- The capacity of g_disc_seen.
abbrev pub seen_cap : ℕ
seen_cap = 128

unfoldable pub is_seen : ℕ → List ℕ → Bool
is_seen k [] = false
is_seen k (x ∷ xs) = x == k || is_seen k xs

-- A key that was not seen is kept if there is room, and its line is written.
unfoldable pub note : ℕ → Line → Disc → Disc
unfolding is_seen
note k line d = if is_seen k d.seen then d else record {
  seen = if ltb (length d.seen) seen_cap then d.seen ++ (k ∷ []) else d.seen;
  log = line ∷ d.log;
}

-- `((uint64_t)pc << 8) | ((uint64_t)wi << 4) | (uint64_t)s`
unfoldable pub watch_key : ℕ → ℕ → ℕ → ℕ
watch_key pc wi s = bit_or (bit_or (pc * 2 ^ 8) (wi * 2 ^ 4)) s

unfoldable pub long_key : ℕ → ℕ → ℕ
long_key pc s = bit_or (bit_or 0x4000000000000000 (pc * 2 ^ 4)) s

unfoldable pub pclog_key : ℕ → ℕ → ℕ → ℕ
pclog_key pc s hh =
    bit_xor (bit_xor (bit_xor 0x6000000000000000 (pc * 2 ^ 4)) s) (hh * 2 ^ 8 % 2 ^ 64)

unfoldable pub watch_sources : Rdram → ℕ → ℕ → Bytes → ℕ → List ℕ → Disc → Disc
unfolding guest_prefix_eq note watch_key
watch_sources rdram pc wi want s [] d = d
watch_sources rdram pc wi want s (src ∷ srcs) d =
    watch_sources rdram pc wi want (s + 1) srcs
      (if guest_prefix_eq rdram src want then note (watch_key pc wi s) (watch wi s) d else d)

unfoldable pub watch_all : Rdram → ℕ → ℕ → List ℕ → List Bytes → Disc → Disc
unfolding watch_sources
watch_all rdram pc wi srcs [] d = d
watch_all rdram pc wi srcs (want ∷ wants) d =
    watch_all rdram pc (wi + 1) srcs wants (watch_sources rdram pc wi want 0 srcs d)

-- A text of 24 bytes or more.
unfoldable pub note_long : ℕ → ℕ → Option Bytes → Disc → Disc
unfolding note long_key
note_long pc s none d = d
note_long pc s (some b) d = if ltb (length b) 24 then d else note (long_key pc s) (longtext s b) d

unfoldable pub long_all : Rdram → ℕ → ℕ → List ℕ → Disc → Disc
unfolding note_long
long_all rdram pc s [] d = d
long_all rdram pc s (src ∷ srcs) d =
    long_all rdram pc (s + 1) srcs (note_long pc s (read_text_arg rdram src) d)

unfoldable pub note_pclog : ℕ → ℕ → Option Bytes → Disc → Disc
unfolding note pclog_key
note_pclog pc s none d = d
note_pclog pc s (some b) d = note (pclog_key pc s (fnv1a b)) (pclog s b) d

unfoldable pub pclog_all : Rdram → ℕ → ℕ → List ℕ → Disc → Disc
unfolding note_pclog
pclog_all rdram pc s [] d = d
pclog_all rdram pc s (src ∷ srcs) d =
    pclog_all rdram pc (s + 1) srcs (note_pclog pc s (read_text_arg rdram src) d)

unfoldable pub xlate_discovery : Rdram → Context → ℕ → Disc → Disc
unfolding sources watch_all long_all pclog_all
xlate_discovery rdram ctx pc d =
    let srcs = sources rdram ctx in
    let d' = long_all rdram pc 0 srcs (watch_all rdram pc 0 srcs watched d) in
    if pc == 0x80055CE0 || pc == 0x8001A920 || pc == 0x8001AC3C
    then pclog_all rdram pc 0 (word ctx.r4 ∷ word ctx.r5 ∷ word ctx.r6 ∷ word ctx.r7 ∷ []) d'
    else d'

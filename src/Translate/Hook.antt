-- ===== src/Translate/Hook.antt =====
-- The translation hook that runs at every entry of a recompiled function (`pkmnstadium_text_xlate`,
-- `xlate_general`, `xlate_desc` and `parse_fun_pc` of src/main/diagnostics.cpp).
use pocket_monsters_stadium.Prelude.{
  ℕ, ◌+◌, ◌%◌, ◌^◌, Bool, true, false, not, ◌&&◌, ◌||◌, [], ◌∷◌, Option, none, some, ltb, ◌==◌,
  if◌then◌else◌, Bytes, length, has_byte,
}
use pocket_monsters_stadium.Prelude.Int.{ℤ}
use pocket_monsters_stadium.Libc.{strtoul}
use pocket_monsters_stadium.Memory.{Rdram, read_text_arg, write_guest_str}
use pocket_monsters_stadium.Scratch.{swap_scratch}
use pocket_monsters_stadium.Census.TextPc.{Table, textpc_contains}
use pocket_monsters_stadium.Translate.Fnv.{fnv1a}
use pocket_monsters_stadium.Translate.Load.{XlateVal, XlateMap, find}
use pocket_monsters_stadium.Translate.Context.{Context, Outside, word}
use pocket_monsters_stadium.Translate.Glyph.{Metrics}
use pocket_monsters_stadium.Translate.Render.{self_render_static}

abbrev pub last_hit : Bool → Bytes → Option Bytes → Option Bytes
last_hit b xs (some r) = some r
last_hit true xs none = some xs
last_hit false xs none = none

-- What follows the last `c`, if there is one (`strrchr`).
unfoldable pub after_last : ℕ → Bytes → Option Bytes
after_last c [] = none
after_last c (x ∷ xs) = last_hit (x == c) xs (after_last c xs)

abbrev pub or_else : Bytes → Option Bytes → Bytes
or_else s none = s
or_else s (some r) = r

-- The name is `none` for a null pointer.
unfoldable pub parse_fun_pc : Option Bytes → ℕ
unfolding after_last
parse_fun_pc none = 0
parse_fun_pc (some name) = strtoul (or_else name (after_last b'_' name)) 16

-- PMS_TEXTPROBE begins with 1, t, T, y or Y.
unfoldable pub textprobe_armed : Option Bytes → Bool
textprobe_armed none = false
textprobe_armed (some []) = false
textprobe_armed (some (c ∷ cs)) = c == b'1' || c == b't' || c == b'T' || c == b'y' || c == b'Y'

-- What a call of the hook works on: guest memory, the caller's registers, the glyph metrics, and the
-- number of hits.
pub record Run : Type 0 where
  pub rdram : Rdram
  pub ctx : Context
  pub metrics : Metrics
  pub hits : ℕ

-- `v.en.find('%') != npos`
abbrev pub is_template : Bytes → Bool
is_template en = has_byte b'%' en

abbrev pub headroom : ℕ
headroom = 0x80000C00

-- The cap on a replacement.
abbrev pub en_cap : ℕ
en_cap = 0x300

-- The value stored under the key of a text.
abbrev pub known : XlateMap → Bytes → Option XlateVal
known m b = find m (fnv1a b)

abbrev pub with_value : Bytes → Option XlateVal → Option (Bytes × XlateVal)
with_value b none = none
with_value b (some v) = some (b, v)

-- A text read through a pointer, and its value.
abbrev pub bind_text : Option Bytes → (Bytes → Option XlateVal) → Option (Bytes × XlateVal)
bind_text none f = none
bind_text (some b) f = with_value b (f b)

unfoldable pub known_text : XlateMap → Rdram → ℕ → Option (Bytes × XlateVal)
known_text m rdram ptr = bind_text (read_text_arg rdram (word ptr)) (known m)

-- A pointer register set to a replacement that was written.
abbrev pub hit : Run → Run
hit r = record r { hits = (r.hits + 1) % 2 ^ 64 }

abbrev pub swapped : (Context → ℕ → Context) → Run → ℕ → Option Rdram → Run
swapped put r scratch none = r
swapped put r scratch (some m) = hit (record r { rdram = m; ctx = put r.ctx scratch })

-- `if (!write_guest_str(…)) return; ctx->r6 = scratch;`
unfoldable pub fmt_swap : Run → ℕ → Bytes → Run
fmt_swap r scratch en =
    swapped (λ (c : Context) (p : ℕ). record c { r6 = p }) r scratch
      (write_guest_str r.rdram scratch en)

-- The environment's settings, and the generated code.
pub record Setup : Type 1 where
  pub out : Outside
  pub gap : ℕ
  pub fit_on : Bool
  pub probe : Bool

module _ (s : Setup) where
  unfoldable pub render : Run → Bytes → Bytes → ℕ → ℤ → Run
  render r src eng scratch budget =
      let (ms, rdram, ctx) =
        self_render_static s.out s.gap s.fit_on r.rdram r.ctx src eng scratch budget r.metrics in
      record { rdram = rdram; ctx = ctx; metrics = ms; hits = (r.hits + 1) % 2 ^ 64 }

  -- Both registers look like screen coordinates.
  abbrev pub coords : Context → Bool
  coords c = ltb (word c.r4) 0x1000 && ltb (word c.r5) 0x1000

  unfoldable pub general_known : Run → Option (Bytes × XlateVal) → Run
  unfolding render fmt_swap
  general_known r none = r
  general_known r (some (src, v)) =
      let sp = word r.ctx.r29 in
      let scratch = swap_scratch sp (is_template v.en) in
      if ltb sp headroom || ltb en_cap (length v.en)
      then r
      else if coords r.ctx && not (is_template v.en)
      then render r src v.en scratch v.fit_w
      else fmt_swap r scratch v.en

  unfoldable pub xlate_general : Table → XlateMap → ℕ → Run → Run
  unfolding general_known
  xlate_general table m pc r =
      if textpc_contains table pc then general_known r (known_text m r.rdram r.ctx.r6) else r

-- The registers that the description's writer may hold its text in; `r5` takes the length along.
pub data Holder : Type 0 where
  in_r7 in_r4 in_r5 : Holder

abbrev pub held : Holder → Context → ℕ
held in_r7 c = c.r7
held in_r4 c = c.r4
held in_r5 c = c.r5

abbrev pub repoint : Holder → ℕ → Context → ℕ → Context
repoint in_r7 len c p = record c { r7 = p }
repoint in_r4 len c p = record c { r4 = p }
repoint in_r5 len c p = record c { r5 = p; r6 = len % 2 ^ 32 }

-- One round of the loop over the candidates; `none` is its `continue`.
abbrev pub desc_swapped : Holder → Run → ℕ → Bytes → Option Rdram → Option Run
desc_swapped h r scratch en none = none
desc_swapped h r scratch en (some m) =
    some (hit (record r { rdram = m; ctx = repoint h (length en) r.ctx scratch }))

unfoldable pub desc_known : Holder → Run → Option (Bytes × XlateVal) → Option Run
desc_known h r none = none
desc_known h r (some (src, v)) =
    let scratch = swap_scratch (word r.ctx.r29) (is_template v.en) in
    if ltb en_cap (length v.en)
    then none
    else desc_swapped h r scratch v.en (write_guest_str r.rdram scratch v.en)

unfoldable pub desc_try : XlateMap → Holder → Run → Option Run
unfolding desc_known
desc_try m h r = desc_known h r (known_text m r.rdram (held h r.ctx))

abbrev pub first_of : Option Run → Option Run → Option Run
first_of none o = o
first_of (some r) o = some r

abbrev pub or_run : Run → Option Run → Run
or_run r none = r
or_run r (some r') = r'

unfoldable pub xlate_desc : XlateMap → Run → Run
unfolding desc_try
xlate_desc m r =
    if ltb (word r.ctx.r29) headroom
    then r
    else or_run r
        (first_of (desc_try m in_r7 r) (first_of (desc_try m in_r4 r) (desc_try m in_r5 r)))

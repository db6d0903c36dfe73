-- ===== src/Translate/Draw/Swap.antt =====
-- A known text at a registered text routine is replaced (`xlate_general` of src/main/diagnostics.cpp).
use pocket_monsters_stadium.Prelude.{
  ℕ, ◌+◌, ◌%◌, ◌^◌, ◌≤◌, ◌≡◌, refl, sym, ap, ◌∙◌, Bool, true, false, not, ◌&&◌, ◌||◌, some, ltb,
  Bytes, length, arith,
}
use mathlib.Core.Path.{subst}
use pocket_monsters_stadium.Memory.{
  Rdram, rdram_range, physical, store_byte, store_bytes, write_guest_str,
}
use pocket_monsters_stadium.Memory.RoundTrip.{Writes, write_guest_str-Writes}
use pocket_monsters_stadium.Scratch.{swap_scratch, swap_scratch_lem}
use pocket_monsters_stadium.Census.TextPc.{Table, textpc_contains}
use pocket_monsters_stadium.Translate.Context.{word}
use pocket_monsters_stadium.Translate.Load.{XlateMap, XlateVal}
use pocket_monsters_stadium.Translate.Hook.{
  Setup, Run, general_known, xlate_general, known_text, fmt_swap, is_template, headroom, en_cap,
  coords,
}

-- The end of RDRAM, the highest value of a stack pointer in it.
abbrev pub stack_end : ℕ
stack_end = 0x80800000

scratch_fits :
    (sp n : ℕ) (b : Bool)
    → headroom ≤ sp
    → sp ≤ stack_end
    → n ≤ en_cap
    → rdram_range (swap_scratch sp b) ((n + 1) % 2 ^ 32) ≡ true
unfolding rdram_range
scratch_fits sp n true lo hi le = ground (arith, swap_scratch_lem sp)
scratch_fits sp n false lo hi le = ground (arith, swap_scratch_lem sp)

writes_some :
    (r : Rdram) (va : ℕ) (en : Bytes)
    → rdram_range va ((length en + 1) % 2 ^ 32) ≡ true
    → (m : Rdram) × (write_guest_str r va en ≡ some m)
unfolding write_guest_str
writes_some r va en h =
    (store_byte (store_bytes r (physical va) en) (physical va + length en) 0, rw h)

-- What a swap has done: the text stands at `scratch` and nothing else has changed in guest memory, r6
-- points there and every other register is as it was, and one hit is counted.
pub record IsSwapped (r : Run) (scratch : ℕ) (en : Bytes) (r' : Run) : Type 0 where
  pub written : Writes r.rdram scratch en r'.rdram
  pub pointed : r'.ctx ≡ record r.ctx { r6 = scratch }
  pub counted : r'.hits ≡ (r.hits + 1) % 2 ^ 64

fmt_swap-IsSwapped :
    (r : Run) (scratch : ℕ) (en : Bytes)
    → rdram_range scratch ((length en + 1) % 2 ^ 32) ≡ true
    → IsSwapped r scratch en (fmt_swap r scratch en)
unfolding fmt_swap
fmt_swap-IsSwapped r scratch en h =
    let (m, e) = writes_some r.rdram scratch en h in
    rw e (record {
      written = write_guest_str-Writes r.rdram scratch en e;
      pointed = refl;
      counted = refl;
    })

-- With the stack pointer in RDRAM and 0xC00 bytes of it below, a known text of at most 0x300 bytes of
-- English replaces its source at a registered routine, unless it is rendered there (without '%' and at
-- screen coordinates): r6 points at the English text in the scratch slot, and no other guest byte and no
-- other register changes.
pub xlate_general-IsSwapped :
    (s : Setup) (table : Table) (m : XlateMap) (pc : ℕ) (r : Run) (src : Bytes) (v : XlateVal)
    → textpc_contains table pc ≡ true
    → known_text m r.rdram r.ctx.r6 ≡ some (src, v)
    → headroom ≤ word r.ctx.r29
    → word r.ctx.r29 ≤ stack_end
    → length v.en ≤ en_cap
    → (coords s r.ctx && not (is_template v.en)) ≡ false
    → IsSwapped r
        (swap_scratch (word r.ctx.r29) (is_template v.en))
        v.en
        (xlate_general s table m pc r)
unfolding xlate_general general_known
xlate_general-IsSwapped s table m pc r src v inn kn lo hi le shape =
    let scratch = swap_scratch (word r.ctx.r29) (is_template v.en) in
    let a : (ltb (word r.ctx.r29) headroom || ltb en_cap (length v.en)) ≡ false = ground arith in
    let fits = scratch_fits (word r.ctx.r29) (length v.en) (is_template v.en) lo hi le in
    let e : general_known s r (some (src, v)) ≡ fmt_swap r scratch v.en = rw (a, shape) in
    let e' : xlate_general s table m pc r ≡ fmt_swap r scratch v.en =
      ground (arith, inn, ap (general_known s r) kn ∙ e) in
    subst (IsSwapped r scratch v.en) (sym e') (fmt_swap-IsSwapped r scratch v.en fits)

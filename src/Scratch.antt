-- ===== src/Scratch.antt =====
-- The guest-stack scratch of src/main/diagnostics.cpp: where a replacement text is written, and why
-- two replacements within one `_Printf` do not overwrite one another.
use pocket_monsters_stadium.Prelude.{
  ℕ, ◌+◌, ◌-◌, ◌%◌, ◌/◌, ◌*◌, ◌^◌, ◌≤◌, ◌<◌, ◌≡◌, Bool, true, false, not, some, arith, Bytes,
  length, if◌then◌else◌, if◌then◌else◌,
}
use pocket_monsters_stadium.Memory.Bounds.{rdram_range_kseg0}
use pocket_monsters_stadium.Memory.RoundTrip.{
  Stands, Stands-agree, Writes, write_guest_str-Writes, write_guest_str_inv,
}
use pocket_monsters_stadium.Memory.{Rdram, physical, byte_at, write_guest_str}

-- `(sp - (is_fmt ? 0x800u : 0xC00u)) & ~7u` on uint32_t: clearing the low three bits.
unfoldable pub swap_scratch : ℕ → Bool → ℕ
swap_scratch sp is_fmt =
    let a = (sp + 2 ^ 32 - (if is_fmt then 0x800 else 0xC00)) % 2 ^ 32 in a / 8 * 8

-- Both slots lie below the stack pointer, the argument's slot 0x400 bytes below the format's.
pub swap_scratch_lem :
    (sp : ℕ)
    → 0x80000C00 ≤ sp
    → sp < 2 ^ 32
    → (swap_scratch sp true + 0x800 ≤ sp)
      × (swap_scratch sp false + 0x400 ≡ swap_scratch sp true)
      × (0x80000000 ≤ swap_scratch sp false)
unfolding swap_scratch
swap_scratch_lem sp lo hi = omega arith

-- The cap of the callers: `v.en.size() > 0x300u` is refused.
abbrev pub cap : ℕ
cap = 0x300

-- Two swaps within one call, one of a format and one of an argument, of texts of at most 0x300 bytes
-- and with a stack pointer from 0x80000C00 on: once both writes have succeeded, in whichever order,
-- both texts stand in memory.
pub swaps_disjoint :
    (first : Bool) (r : Rdram) (sp : ℕ) (s t : Bytes) {r₁ r₂ : Rdram}
    → 0x80000C00 ≤ sp
    → sp < 2 ^ 32
    → length s ≤ cap
    → length t ≤ cap
    → write_guest_str r (swap_scratch sp first) s ≡ some r₁
    → write_guest_str r₁ (swap_scratch sp (not first)) t ≡ some r₂
    → Stands r₂ (physical (swap_scratch sp first)) s
      × Stands r₂ (physical (swap_scratch sp (not first))) t
swaps_disjoint first r sp s t {r₁} {r₂} lo hi ls lt ws wt =
    let (below, gap, base) = swap_scratch_lem sp lo hi in
    let w₁ = write_guest_str-Writes r (swap_scratch sp first) s ws in
    let w₂ = write_guest_str-Writes r₁ (swap_scratch sp (not first)) t wt in
    let k₁ = rdram_range_kseg0 _ _ (write_guest_str_inv r _ s ws).0 in
    let k₂ = rdram_range_kseg0 _ _ (write_guest_str_inv r₁ _ t wt).0 in
    (Stands-agree s r₁ r₂ _ (untouched first k₁ k₂ gap w₂) w₁.stands, w₂.stands)
  where
    untouched :
        (b : Bool)
        → (0x80000000 ≤ swap_scratch sp b)
          × (physical (swap_scratch sp b) ≡ swap_scratch sp b - 0x80000000)
        → (0x80000000 ≤ swap_scratch sp (not b))
          × (physical (swap_scratch sp (not b)) ≡ swap_scratch sp (not b) - 0x80000000)
        → swap_scratch sp false + 0x400 ≡ swap_scratch sp true
        → Writes r₁ (swap_scratch sp (not b)) t r₂
        → (a : ℕ) → physical (swap_scratch sp b) ≤ a
        → a ≤ physical (swap_scratch sp b) + length s
        → byte_at r₂ a ≡ byte_at r₁ a
    untouched true e e' gap w a l h = w.above a (omega arith)
    untouched false e e' gap w a l h = w.below a (omega arith)

-- ===== src/Memory/Bounds.antt =====
-- No access of the diagnostics leaves the RDRAM array (src/main/diagnostics.cpp).
use pocket_monsters_stadium.Prelude.{
  ℕ, zero, suc, ◌+◌, ◌-◌, ◌*◌, ◌/◌, ◌%◌, ◌≤◌, ◌<◌, ◌≡◌, refl, inl, inr, true, arith, Bool-cases,
}
use pocket_monsters_stadium.Prelude.Bits.{bit_xor_three, bit_xor_twice}
use pocket_monsters_stadium.Memory.{
  Rdram, rdram_size, physical, swizzle, byte_at, rdram_range, bytes_from, copy_bytes, read_u32,
  guest_rb, text_loop, read_text_arg, src_max,
}

pub swizzle_lem : (a : ℕ) → swizzle a ≡ a / 4 * 4 + (3 - a % 4)
unfolding swizzle
swizzle_lem a = bit_xor_three a

pub swizzle_twice : (a : ℕ) → swizzle (swizzle a) ≡ a
unfolding swizzle
swizzle_twice a = bit_xor_twice a 3

pub swizzle_injective : (a b : ℕ) → swizzle a ≡ swizzle b → a ≡ b
swizzle_injective a b h = omega (arith, swizzle_lem a, swizzle_lem b)

pub swizzle-lt : (a : ℕ) → a < rdram_size → swizzle a < rdram_size
swizzle-lt a h = omega (arith, swizzle_lem a)

-- What the range test establishes: the whole range lies in RDRAM.
pub rdram_range_lem :
    (vaddr len : ℕ) → rdram_range vaddr len ≡ true → physical vaddr + len ≤ rdram_size
unfolding rdram_range
rdram_range_lem vaddr len h = ground arith

pub rdram_range_kseg0 :
    (vaddr len : ℕ)
    → rdram_range vaddr len ≡ true
    → (0x80000000 ≤ vaddr) × (physical vaddr ≡ vaddr - 0x80000000)
unfolding rdram_range
rdram_range_kseg0 vaddr len h = ground arith

-- Two host arrays that agree on RDRAM.
abbrev pub Agree : Rdram → Rdram → Type 0
Agree r r' = (a : ℕ) → a < rdram_size → r a ≡ r' a

module _ (r r' : Rdram) (same : Agree r r') where
  byte_at_agree : (a : ℕ) → a < rdram_size → byte_at r a ≡ byte_at r' a
  byte_at_agree a h = same (swizzle a) (swizzle-lt a h)

  pub bytes_from_agree : (n pa : ℕ) → pa + n ≤ rdram_size → bytes_from r pa n ≡ bytes_from r' pa n
  unfolding bytes_from
  bytes_from_agree zero pa h = refl
  bytes_from_agree (suc n) pa h =
      cc (byte_at_agree pa (omega arith), bytes_from_agree n (pa + 1) (omega arith))

  -- A copy depends on nothing outside RDRAM: two host arrays that agree on RDRAM give the same bytes.
  pub copy_bytes_agree : (vaddr len : ℕ) → copy_bytes r vaddr len ≡ copy_bytes r' vaddr len
  unfolding copy_bytes
  copy_bytes_agree vaddr len = elim (Bool-cases (rdram_range vaddr len)) [
    | inl ok ↦ rw ok (bytes_from_agree len (physical vaddr) (rdram_range_lem vaddr len ok))
    | inr bad ↦ rw bad
  ]

  pub read_u32_agree : (vaddr : ℕ) → read_u32 r vaddr ≡ read_u32 r' vaddr
  unfolding read_u32
  read_u32_agree vaddr = elim (Bool-cases (rdram_range vaddr 4)) [
    | inl ok ↦ rw (ok, bytes_from_agree 4 (physical vaddr) (rdram_range_lem vaddr 4 ok))
    | inr bad ↦ rw bad
  ]

  pub guest_rb_agree : (va : ℕ) → guest_rb r va ≡ guest_rb r' va
  unfolding guest_rb
  guest_rb_agree va = elim (Bool-cases (rdram_range va 1)) [
    | inl ok ↦ let h = rdram_range_lem va 1 ok in rw ok (byte_at_agree (physical va) (omega arith))
    | inr bad ↦ rw bad
  ]

  text_loop_agree :
      (n ptr i : ℕ)
      → 0x80000000 ≤ ptr
      → ptr < 0x80800000
      → text_loop r ptr n i ≡ text_loop r' ptr n i
  unfolding text_loop
  text_loop_agree zero ptr i lo hi = refl
  text_loop_agree (suc n) ptr i lo hi = elim (Bool-cases (rdram_range (ptr + i) 1)) [
    | inl ok ↦
        let h = rdram_range_lem (ptr + i) 1 ok in
        let g = rdram_range_kseg0 (ptr + i) 1 ok in
        rw (ok, byte_at_agree (physical ptr + i) (omega arith), text_loop_agree n ptr (i + 1) lo hi)
    | inr bad ↦ rw bad
  ]

  -- Reading a text through any pointer depends on nothing outside RDRAM: two host arrays that agree
  -- on RDRAM give the same text, or both none.
  pub read_text_arg_agree : (ptr : ℕ) → read_text_arg r ptr ≡ read_text_arg r' ptr
  unfolding read_text_arg
  read_text_arg_agree ptr = ground (arith, text_loop_agree src_max ptr 0)

-- ===== src/Memory/RoundTrip.antt =====
-- What `write_guest_str` writes is what `read_text_arg` reads back (src/main/diagnostics.cpp).
use pocket_monsters_stadium.Prelude.{
  ℕ, zero, suc, ◌+◌, ◌%◌, ◌^◌, ◌≤◌, ◌<◌, ◌≡◌, refl, sym, true, false, [], ◌∷◌, some, arith, Bytes,
  length, ◌∙◌, ◌==◌, if◌then◌else◌, le→leb, lt→ltb,
}
use mathlib.Core.Path.{subst}
use pocket_monsters_stadium.Memory.Bounds.{swizzle_injective, rdram_range_lem, rdram_range_kseg0}
use pocket_monsters_stadium.Memory.{
  Rdram, physical, byte_at, rdram_range, textish, keep, text_loop, read_text_arg, src_max,
  store_byte, store_bytes, write_guest_str,
}

-- The guest reads back the byte that it stored, and any other byte as before.
pub byte_at-store_byte :
    (r : Rdram) (a b v : ℕ) → byte_at (store_byte r a v) b ≡ (if b == a then v else byte_at r b)
byte_at-store_byte r a b v = ground (arith, swizzle_injective a b)

pub byte_at-store_bytes_before :
    (s : Bytes) (r : Rdram) (pa a : ℕ) → a < pa → byte_at (store_bytes r pa s) a ≡ byte_at r a
unfolding store_bytes
byte_at-store_bytes_before [] r pa a h = refl
byte_at-store_bytes_before (b ∷ bs) r pa a h =
    byte_at-store_bytes_before bs (store_byte r pa b) (pa + 1) a (omega arith)
    ∙ ground (arith, byte_at-store_byte r pa a b)

pub byte_at-store_bytes_after :
    (s : Bytes) (r : Rdram) (pa a : ℕ)
    → pa + length s ≤ a
    → byte_at (store_bytes r pa s) a ≡ byte_at r a
unfolding store_bytes
byte_at-store_bytes_after [] r pa a h = refl
byte_at-store_bytes_after (b ∷ bs) r pa a h =
    byte_at-store_bytes_after bs (store_byte r pa b) (pa + 1) a (omega arith)
    ∙ ground (arith, byte_at-store_byte r pa a b)

-- The text `s` and its terminator stand at physical address `pa`.
abbrev pub Stands : Rdram → ℕ → Bytes → Type 0
Stands r pa [] = byte_at r pa ≡ 0
Stands r pa (c ∷ cs) = (byte_at r pa ≡ c) × Stands r (pa + 1) cs

-- Every byte is one that the translation layer takes for text.
abbrev pub IsText : Bytes → Type 0
IsText [] = Unit {0}
IsText (c ∷ cs) = (textish c ≡ true) × IsText cs

pub Stands-agree :
    (s : Bytes) (r r' : Rdram) (pa : ℕ)
    → ((a : ℕ) → pa ≤ a → a ≤ pa + length s → byte_at r' a ≡ byte_at r a)
    → Stands r pa s
    → Stands r' pa s
Stands-agree [] r r' pa same h = same pa (omega arith) (omega arith) ∙ h
Stands-agree (c ∷ cs) r r' pa same (h, t) = (
  same pa (omega arith) (omega arith) ∙ h,
  Stands-agree cs r r' (pa + 1) (λ a lo hi. same a (omega arith) (omega arith)) t,
)

store_bytes-Stands :
    (s : Bytes) (r : Rdram) (pa : ℕ)
    → Stands (store_byte (store_bytes r pa s) (pa + length s) 0) pa s
unfolding store_bytes
store_bytes-Stands [] r pa = ground (arith, byte_at-store_byte r (pa + 0) pa 0)
store_bytes-Stands (c ∷ cs) r pa =
    let e : pa + suc (length cs) ≡ pa + 1 + length cs = omega arith in
    let r' = store_bytes (store_byte r pa c) (pa + 1) cs in
    (
      rw (byte_at-store_byte r' (pa + suc (length cs)) pa 0) (
          rw (byte_at-store_bytes_before cs (store_byte r pa c) (pa + 1) pa (omega arith))
            (ground (arith, byte_at-store_byte r pa pa c))),
      subst (λ q. Stands (store_byte r' q 0) (pa + 1) cs) (sym e)
          (store_bytes-Stands cs (store_byte r pa c) (pa + 1)),
    )

rdram_range_less : (vaddr m n : ℕ) → m ≤ n → rdram_range vaddr n ≡ true → rdram_range vaddr m ≡ true
unfolding rdram_range
rdram_range_less vaddr m n le h = ground arith

rdram_range_one : (vaddr : ℕ) → 0x80000000 ≤ vaddr → vaddr < 0x80800000 → rdram_range vaddr 1 ≡ true
unfolding rdram_range
rdram_range_one vaddr lo hi = ground arith

textish-ne-zero : (c : ℕ) → textish c ≡ true → (c == 0) ≡ false
unfolding textish
textish-ne-zero c h = ground arith

text_loop-Stands :
    (s : Bytes) (r : Rdram) (ptr n i : ℕ)
    → Stands r (physical ptr + i) s
    → IsText s
    → 0x80000000 ≤ ptr
    → ptr + i + length s < 0x80800000
    → length s < n
    → 2 ≤ i + length s
    → text_loop r ptr n i ≡ some s
unfolding text_loop keep
text_loop-Stands s r ptr zero i st t lo hi fuel two = absurd (omega arith)
text_loop-Stands [] r ptr (suc n) i st t lo hi fuel two =
    rw (rdram_range_one (ptr + i) (omega arith) (omega arith), st, le→leb 2 i (omega arith))
text_loop-Stands (c ∷ cs) r ptr (suc n) i (h, st) (t, ts) lo hi fuel two =
    let e : physical ptr + (i + 1) ≡ physical ptr + i + 1 = omega arith in
    let rest =
      text_loop-Stands cs r ptr n (i + 1) (rw e st) ts lo (omega arith) (omega arith)
        (omega arith) in
    rw (rdram_range_one (ptr + i) (omega arith) (omega arith), h, textish-ne-zero c t, t, rest)

-- A text of 2 to 255 bytes that stands in RDRAM at a guest pointer is what `read_text_arg` reads.
pub read_text_arg-Stands :
    (s : Bytes) (r : Rdram) (ptr : ℕ)
    → Stands r (physical ptr) s
    → IsText s
    → 2 ≤ length s
    → length s < 256
    → rdram_range ptr (length s + 1) ≡ true
    → read_text_arg r ptr ≡ some s
unfolding read_text_arg
read_text_arg-Stands s r ptr st t two most ok =
    let a = rdram_range_lem ptr (length s + 1) ok in
    let b = rdram_range_kseg0 ptr (length s + 1) ok in
    let e : physical ptr + 0 ≡ physical ptr = omega arith in
    rw (
      le→leb 0x80000000 ptr b.0,
      lt→ltb ptr 0x80800000 (omega arith),
      rdram_range_less ptr 2 (length s + 1) (omega arith) ok,
      text_loop-Stands s r ptr src_max 0 (rw e st) t b.0 (omega arith) most (omega arith),
    )

-- What a successful write leaves behind: the text at its place, every other byte untouched.
pub record Writes (r : Rdram) (va : ℕ) (s : Bytes) (r' : Rdram) : Type 0 where
  pub stands : Stands r' (physical va) s
  pub below : (a : ℕ) → a < physical va → byte_at r' a ≡ byte_at r a
  pub above : (a : ℕ) → physical va + length s < a → byte_at r' a ≡ byte_at r a

pub write_guest_str_inv :
    (r : Rdram) (va : ℕ) (s : Bytes) {r' : Rdram}
    → write_guest_str r va s ≡ some r'
    → (rdram_range va ((length s + 1) % 2 ^ 32) ≡ true)
      × (r' ≡ store_byte (store_bytes r (physical va) s) (physical va + length s) 0)
unfolding write_guest_str
write_guest_str_inv r va s h = ground arith

-- A successful write leaves the text and its terminator at its place and every other byte untouched.
pub write_guest_str-Writes :
    (r : Rdram) (va : ℕ) (s : Bytes) {r' : Rdram}
    → write_guest_str r va s ≡ some r'
    → Writes r va s r'
unfolding write_guest_str
write_guest_str-Writes r va s {r'} h =
    let (ok, e) = write_guest_str_inv r va s h in
    let q = store_bytes r (physical va) s in
    let end = physical va + length s in
    rw e (record {
      stands = store_bytes-Stands s r (physical va);
      below = λ a lt.
          rw (byte_at-store_byte q end a 0)
            (ground (arith, byte_at-store_bytes_before s r (physical va) a lt));
      above = λ a lt.
          rw (byte_at-store_byte q end a 0)
            (ground (arith, byte_at-store_bytes_after s r (physical va) a));
    })

-- After a successful write of 2 to 255 bytes that all count as text, a read at the same address gives
-- exactly those bytes.
pub read_text_arg-write_guest_str :
    (r : Rdram) (va : ℕ) (s : Bytes) {r' : Rdram}
    → write_guest_str r va s ≡ some r'
    → IsText s
    → 2 ≤ length s
    → length s < 256
    → read_text_arg r' va ≡ some s
read_text_arg-write_guest_str r va s {r'} h t two most =
    let e : (length s + 1) % 2 ^ 32 ≡ length s + 1 = omega arith in
    read_text_arg-Stands s r' va (write_guest_str-Writes r va s h).stands t two most
      (rw e at (write_guest_str_inv r va s h).0)

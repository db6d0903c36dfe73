-- ===== src/Memory.antt =====
-- Guest memory as the diagnostics and the translation layer of src/main/diagnostics.cpp reach it.
-- The 8 MiB of RDRAM are one host array whose bytes are mirrored within each word of four, so the
-- guest byte at physical address `a` stands at host index `a ^ 3`.
pub mod Bounds
pub mod RoundTrip
use Prim.Native.Nat.{bit_xor}
use pocket_monsters_stadium.Prelude.{
  ℕ, zero, suc, ◌+◌, ◌-◌, ◌*◌, ◌%◌, ◌^◌, Bool, true, false, ◌&&◌, ◌||◌, List, [], ◌∷◌, Option, none,
  some, ltb, leb, ◌==◌, if◌then◌else◌, Bytes, length,
}

-- The host array: the byte at each index.
abbrev pub Rdram : Type 0
Rdram = ℕ → ℕ

abbrev pub rdram_size : ℕ
rdram_size = 0x800000

-- `vaddr & 0x1FFFFFFFu`
abbrev pub physical : ℕ → ℕ
physical vaddr = vaddr % 2 ^ 29

unfoldable pub swizzle : ℕ → ℕ
swizzle a = bit_xor a 3

-- `rdram[(pa + i) ^ 3]`
abbrev pub byte_at : Rdram → ℕ → ℕ
byte_at rdram a = rdram (swizzle a)

abbrev pub store_byte : Rdram → ℕ → ℕ → Rdram
store_byte rdram a v = λ j. if j == swizzle a then v else rdram j

-- The comparisons on uint32_t: `0x00800000u - len` is reached only with `len` at most that.
unfoldable pub rdram_range : ℕ → ℕ → Bool
rdram_range vaddr len =
    leb 0x80000000 vaddr
    && ltb vaddr 0x80800000
    && leb len 0x00800000
    && leb (physical vaddr) (0x00800000 - len)

-- The bytes at `pa + i` for each `i < len`.
unfoldable pub bytes_from : Rdram → ℕ → ℕ → Bytes
bytes_from rdram pa zero = []
bytes_from rdram pa (suc n) = byte_at rdram pa ∷ bytes_from rdram (pa + 1) n

unfoldable pub zeros : ℕ → Bytes
zeros zero = []
zeros (suc n) = 0 ∷ zeros n

-- `out` is a buffer of `len` bytes, cleared first.
unfoldable pub copy_bytes : Rdram → ℕ → ℕ → Bytes
copy_bytes rdram vaddr len =
    if rdram_range vaddr len then bytes_from rdram (physical vaddr) len else zeros len

-- The loop `value = (value << 8) | byte`: the low eight bits of the shifted value are clear.
unfoldable pub big_endian : ℕ → Bytes → ℕ
big_endian value [] = value
big_endian value (b ∷ bs) = big_endian ((value * 2 ^ 8 + b) % 2 ^ 32) bs

unfoldable pub read_u32 : Rdram → ℕ → ℕ
read_u32 rdram vaddr =
    if rdram_range vaddr 4 then big_endian 0 (bytes_from rdram (physical vaddr) 4) else 0

unfoldable pub guest_rb : Rdram → ℕ → ℕ
guest_rb rdram va = if rdram_range va 1 then byte_at rdram (physical va) else 0

-- A newline, printable ASCII, or a lead or kana byte of EUC-JP.
unfoldable pub textish : ℕ → Bool
textish c =
    c == 0x0A || leb 0x20 c && leb c 0x7E || c == 0x8E || c == 0x8F || leb 0xA1 c && leb c 0xFE

-- kSrcMax
abbrev pub src_max : ℕ
src_max = 256

-- `out[n++] = c`, if the rest of the loop does not refuse.
unfoldable pub keep : ℕ → Option Bytes → Option Bytes
keep c none = none
keep c (some bs) = some (c ∷ bs)

-- The loop of `read_text_arg` with `left` rounds to go, at index `i`. `none` is its refusal; at the
-- end `terminated` tells whether a NUL was met at index 2 or later.
unfoldable pub text_loop : Rdram → ℕ → ℕ → ℕ → Option Bytes
text_loop rdram ptr zero i = none
text_loop rdram ptr (suc left) i =
    let rest = text_loop rdram ptr left (i + 1) in
    let c = byte_at rdram (physical ptr + i) in
    if rdram_range (ptr + i) 1
    then if c == 0
      then if leb 2 i then some [] else none
      else if textish c
      then keep c rest
      else none
    else none

-- `none` is `false`; `some` holds the bytes written to `out`, of which there are `*outlen`.
unfoldable pub read_text_arg : Rdram → ℕ → Option Bytes
read_text_arg rdram ptr =
    if leb 0x80000000 ptr && ltb ptr 0x80800000
    then if rdram_range ptr 2 then text_loop rdram ptr src_max 0 else none
    else none

unfoldable pub store_bytes : Rdram → ℕ → Bytes → Rdram
store_bytes rdram pa [] = rdram
store_bytes rdram pa (b ∷ bs) = store_bytes (store_byte rdram pa b) (pa + 1) bs

-- `none` is `false`, where nothing is written. The terminating NUL is written last.
unfoldable pub write_guest_str : Rdram → ℕ → Bytes → Option Rdram
write_guest_str rdram va s =
    if rdram_range va ((length s + 1) % 2 ^ 32)
    then some (store_byte (store_bytes rdram (physical va) s) (physical va + length s) 0)
    else none

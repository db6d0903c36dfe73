-- ===== src/Debug/ReadMem.antt =====
-- The read_mem command of src/main/debug_server.cpp: which bytes of RDRAM a request gets.
use pocket_monsters_stadium.Libc.{strtoul}
use pocket_monsters_stadium.Prelude.Int.{ℤ, pos, negsuc}
use pocket_monsters_stadium.Prelude.{
  ℕ, ◌+◌, ◌-◌, ◌%◌, ◌^◌, ◌≤◌, ◌≡◌, refl, true, ◌&&◌, Option, none, some, ltb, leb, ◌==◌,
  if◌then◌else◌, Bytes, codes, arith, Bool-cases, inl, inr, ap,
}
use pocket_monsters_stadium.Debug.Request.{get_str, get_int}
use pocket_monsters_stadium.Memory.{Rdram, rdram_size, physical, bytes_from}
use pocket_monsters_stadium.Memory.Bounds.{Agree, bytes_from_agree}

-- `(uint32_t)` of an int.
abbrev pub to_u32 : ℤ → ℕ
to_u32 (pos n) = n % 2 ^ 32
to_u32 (negsuc n) = 2 ^ 32 - 1 - n % 2 ^ 32

-- The length, 256 for none or zero, and 64 KiB at most.
unfoldable pub read_len : Bytes → ℕ
unfolding get_int
read_len line =
    let n = to_u32 (get_int line (codes "len") (pos 256)) in
    let m = if n == 0 then 256 else n in if ltb 0x10000 m then 0x10000 else m

unfoldable pub read_addr : Bytes → ℕ
unfolding get_str strtoul
read_addr line = strtoul (get_str line (codes "addr")) 0

-- The bytes that are written to memdump.bin; `none` for an address out of range.
unfoldable pub read_mem : Rdram → Bytes → Option Bytes
unfolding read_len read_addr bytes_from
read_mem rdram line =
    let addr = read_addr line in
    let len = read_len line in
    if leb 0x80000000 addr && ltb addr 0x80800000 && leb (physical addr) (0x00800000 - len)
    then some (bytes_from rdram (physical addr) len)
    else none

read_len_bounds : (line : Bytes) → (1 ≤ read_len line) × (read_len line ≤ 0x10000)
unfolding read_len
read_len_bounds line = ground arith

window_in_range :
    (addr len : ℕ)
    → len ≤ 0x10000
    → (leb 0x80000000 addr && ltb addr 0x80800000 && leb (physical addr) (0x00800000 - len)) ≡ true
    → physical addr + len ≤ rdram_size
window_in_range addr len hi ok = ground arith

-- The command reads nothing outside RDRAM: its answer depends on RDRAM alone.
pub read_mem-Agree : (r r' : Rdram) (line : Bytes) → Agree r r' → read_mem r line ≡ read_mem r' line
unfolding read_mem
read_mem-Agree r r' line same =
    let addr = read_addr line in
    let len = read_len line in
    let (lo, hi) = read_len_bounds line in
    elim (Bool-cases
      (leb 0x80000000 addr && ltb addr 0x80800000 && leb (physical addr) (0x00800000 - len))) [
        | inl ok ↦ rw ok (
            ap some
              (bytes_from_agree r r' same len (physical addr) (window_in_range addr len hi ok)))
        | inr bad ↦ rw bad refl
      ]

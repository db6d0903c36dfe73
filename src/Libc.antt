-- ===== src/Libc.antt =====
-- What the sources use of the C library, in the "C" locale and with the 32-bit `long` of the Windows
-- build: isspace, tolower, strtoul, strtol, atoi, and decimal printing of small numbers.

use pocket_monsters_stadium.Prelude.{
  ℕ, zero, suc, ◌+◌, ◌-◌, ◌*◌, ◌%◌, ◌^◌, Bool, true, false, ◌&&◌, ◌||◌, [], ◌∷◌, ltb, leb, ◌==◌,
  if◌then◌else◌, Bytes, min,
}
use pocket_monsters_stadium.Prelude.Int.{ℤ, pos, neg_ℕ}

unfoldable pub is_space : ℕ → Bool
is_space c = leb 9 c && leb c 13 || c == b' '

unfoldable pub to_lower : ℕ → ℕ
to_lower c = if leb b'A' c && leb c b'Z' then c + 32 else c

unfoldable pub skip_space : Bytes → Bytes
unfolding is_space
skip_space [] = []
skip_space (c ∷ cs) = let rest = skip_space cs in if is_space c then rest else c ∷ cs

-- The value of a digit in any base up to 36; 36 for any other byte.
unfoldable pub digit_value : ℕ → ℕ
digit_value c =
    if leb b'0' c && leb c b'9'
    then c - b'0'
    else if leb b'a' c && leb c b'z'
    then c - b'a' + 10
    else if leb b'A' c && leb c b'Z'
    then c - b'A' + 10
    else 36

-- The longest run of digits, read into `acc`.
unfoldable pub read_digits : ℕ → Bytes → ℕ → ℕ
unfolding digit_value
read_digits base [] acc = acc
read_digits base (c ∷ cs) acc =
    let rest = read_digits base cs (acc * base + digit_value c) in
    if ltb (digit_value c) base then rest else acc

-- Behind the sign: an optional `0x`, counted only before a digit, and the digits.
unfoldable pub read_magnitude : ℕ → Bytes → ℕ
unfolding read_digits
read_magnitude zero (c ∷ x ∷ d ∷ cs) =
    if c == b'0' && (x == b'x' || x == b'X') && ltb (digit_value d) 16
    then read_digits 16 (d ∷ cs) 0
    else read_digits (if c == b'0' then 8 else 10) (c ∷ x ∷ d ∷ cs) 0
read_magnitude zero (c ∷ cs) = read_digits (if c == b'0' then 8 else 10) (c ∷ cs) 0
read_magnitude zero [] = 0
read_magnitude (suc b) (c ∷ x ∷ d ∷ cs) =
    if suc b == 16 && c == b'0' && (x == b'x' || x == b'X') && ltb (digit_value d) 16
    then read_digits 16 (d ∷ cs) 0
    else read_digits (suc b) (c ∷ x ∷ d ∷ cs) 0
read_magnitude (suc b) cs = read_digits (suc b) cs 0

-- An optional sign: whether it is a minus, and what follows.
unfoldable pub read_sign : Bytes → Bool × Bytes
read_sign [] = (false, [])
read_sign (c ∷ cs) =
    if c == b'-' then (true, cs) else if c == b'+' then (false, cs) else (false, c ∷ cs)

-- Out of range the result is ULONG_MAX; a minus negates in the unsigned type.
unfoldable pub strtoul : Bytes → ℕ → ℕ
unfolding skip_space read_sign read_magnitude
strtoul s base =
    let (minus, rest) = read_sign (skip_space s) in
    let n = read_magnitude base rest in
    if ltb (2 ^ 32 - 1) n then 2 ^ 32 - 1 else if minus then (2 ^ 32 - n) % 2 ^ 32 else n

-- Out of range the result is LONG_MAX or LONG_MIN.
unfoldable pub strtol : Bytes → ℕ → ℤ
unfolding skip_space read_sign read_magnitude
strtol s base =
    let (minus, rest) = read_sign (skip_space s) in
    let n = read_magnitude base rest in
    if minus then neg_ℕ (min n (2 ^ 31)) else pos (min n (2 ^ 31 - 1))

unfoldable pub atoi : Bytes → ℤ
unfolding strtol
atoi s = strtol s 10

-- One decimal digit, as `std::to_string` and `<<` print a number below ten.
abbrev pub digit_char : ℕ → ℕ
digit_char n = b'0' + n

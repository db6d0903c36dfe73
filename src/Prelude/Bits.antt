-- ===== src/Prelude/Bits.antt =====
-- Facts about `bit_and`, `bit_or` and `bit_xor` at variables, from the recursion on binary digits
-- that the native operations stand for.
use Prim.Native.Nat.{min, max, digits, differ, bitwise}
use Prim.Native.Nat.{bit_and, bit_or, bit_xor, bit_and-bitwise, bit_or-bitwise, bit_xor-bitwise}
use native.Mathlib.Nat.{pow-suc}
use pocket_monsters_stadium.Prelude.{
  ℕ, zero, suc, ◌+◌, ◌-◌, ◌*◌, ◌/◌, ◌%◌, ◌^◌, ◌≤◌, ◌<◌, ◌≡◌, refl, arith,
}

module _ (start : ℕ → ℕ) (op : ℕ → ℕ → ℕ) where
  -- The count of digits does not matter once it covers the first number.
  count_free : (x y k m : ℕ) → x ≤ k → x ≤ m → digits start op k x y ≡ digits start op m x y
  count_free (suc x) y zero m h g = absurd (omega arith)
  count_free (suc x) y (suc k) zero h g = absurd (omega arith)
  count_free (suc x) y (suc k) (suc m) h g =
      let less = count_free (suc x / 2) (y / 2) k m (omega arith) (omega arith) in omega arith
  count_free zero y zero zero h g = refl
  count_free zero y (suc k) zero h g = refl
  count_free zero y zero (suc m) h g = refl
  count_free zero y (suc k) (suc m) h g = refl

  -- The lowest digit first, for an operation that agrees with its start on the first number 0.
  lowest_first :
      ((y : ℕ) → start y ≡ op 0 (y % 2) + 2 * start (y / 2))
      → (x y : ℕ) → bitwise start op x y ≡ op (x % 2) (y % 2) + 2 * bitwise start op (x / 2) (y / 2)
  lowest_first agrees zero y = agrees y
  lowest_first agrees (suc x) y =
      let half = suc x / 2 in
      let enough = count_free half (y / 2) x half (omega arith) (omega arith) in omega arith

pub bit_xor_step : (x y : ℕ) → bit_xor x y ≡ differ (x % 2) (y % 2) + 2 * bit_xor (x / 2) (y / 2)
bit_xor_step x y = simp bit_xor-bitwise (lowest_first (λ z. z) differ (λ z. omega arith) x y)

pub bit_or_step : (x y : ℕ) → bit_or x y ≡ max (x % 2) (y % 2) + 2 * bit_or (x / 2) (y / 2)
bit_or_step x y = simp bit_or-bitwise (lowest_first (λ z. z) max (λ z. omega arith) x y)

pub bit_and_step : (x y : ℕ) → bit_and x y ≡ min (x % 2) (y % 2) + 2 * bit_and (x / 2) (y / 2)
bit_and_step x y = simp bit_and-bitwise (lowest_first (λ z. 0) min (λ z. omega arith) x y)

-- One bit of an exclusive or, as a number.
pub differ_lem : (x y : ℕ) → x < 2 → y < 2 → differ x y ≡ (x + y) % 2
differ_lem zero zero h g = refl
differ_lem zero (suc zero) h g = refl
differ_lem (suc zero) zero h g = refl
differ_lem (suc zero) (suc zero) h g = refl
differ_lem zero (suc (suc y)) h g = absurd (omega arith)
differ_lem (suc zero) (suc (suc y)) h g = absurd (omega arith)
differ_lem (suc (suc x)) y h g = absurd (omega arith)

bit_xor-zero_fuel : (n a : ℕ) → a ≤ n → bit_xor a 0 ≡ a
bit_xor-zero_fuel n zero h = refl
bit_xor-zero_fuel zero (suc a) h = absurd (omega arith)
bit_xor-zero_fuel (suc n) (suc a) h = omega (
  arith,
  bit_xor_step (suc a) 0,
  differ_lem (suc a % 2) 0,
  bit_xor-zero_fuel n (suc a / 2) (omega arith),
)

pub bit_xor-zero : (a : ℕ) → bit_xor a 0 ≡ a
bit_xor-zero a = bit_xor-zero_fuel a a (omega arith)

-- `x ^ 3` mirrors a byte within its word of four.
pub bit_xor_three : (a : ℕ) → bit_xor a 3 ≡ a / 4 * 4 + (3 - a % 4)
bit_xor_three a = omega (
  arith,
  bit_xor_step a 3,
  bit_xor_step (a / 2) 1,
  bit_xor-zero (a / 2 / 2),
  differ_lem (a % 2) 1,
  differ_lem (a / 2 % 2) 1,
)

-- The two parts of an exclusive or, for a proof by digits.
bit_xor_parts :
    (a b : ℕ)
    → (bit_xor a b / 2 ≡ bit_xor (a / 2) (b / 2)) × (bit_xor a b % 2 ≡ (a % 2 + b % 2) % 2)
bit_xor_parts a b = omega (arith, bit_xor_step a b, differ_lem (a % 2) (b % 2))

bit_xor_twice_fuel : (n a b : ℕ) → a + b ≤ n → bit_xor (bit_xor a b) b ≡ a
bit_xor_twice_fuel zero a b h = let (p, q) : (a ≡ 0) × (b ≡ 0) = omega arith in rw (p, q)
bit_xor_twice_fuel (suc n) zero zero h = refl
bit_xor_twice_fuel (suc n) a b h =
    let (half, low) = bit_xor_parts a b in
    let (half', low') = bit_xor_parts (bit_xor a b) b in
    let e : bit_xor (bit_xor a b / 2) (b / 2) ≡ a / 2 =
      rw half (bit_xor_twice_fuel n (a / 2) (b / 2) (omega arith)) in
    omega arith

-- An exclusive or with the same number twice is undone.
pub bit_xor_twice : (a b : ℕ) → bit_xor (bit_xor a b) b ≡ a
bit_xor_twice a b = bit_xor_twice_fuel (a + b) a b (omega arith)

bit_xor_comm_fuel : (n a b : ℕ) → a + b ≤ n → bit_xor a b ≡ bit_xor b a
bit_xor_comm_fuel zero a b h = let (p, q) : (a ≡ 0) × (b ≡ 0) = omega arith in rw (p, q)
bit_xor_comm_fuel (suc n) zero zero h = refl
bit_xor_comm_fuel (suc n) a b h =
    let (half, low) = bit_xor_parts a b in
    let (half', low') = bit_xor_parts b a in
    let e : bit_xor (a / 2) (b / 2) ≡ bit_xor (b / 2) (a / 2) =
      bit_xor_comm_fuel n (a / 2) (b / 2) (omega arith) in
    omega arith

pub bit_xor_comm : (a b : ℕ) → bit_xor a b ≡ bit_xor b a
bit_xor_comm a b = bit_xor_comm_fuel (a + b) a b (omega arith)

-- An exclusive or needs no more digits than its arguments.
pub bit_xor-lt : (k a b : ℕ) → a < 2 ^ k → b < 2 ^ k → bit_xor a b < 2 ^ k
bit_xor-lt zero a b h g = let (p, q) : (a ≡ 0) × (b ≡ 0) = omega arith in rw (p, q) (omega arith)
bit_xor-lt (suc k) a b h g =
    let e = pow-suc 2 k in
    let (half, low) = bit_xor_parts a b in
    let less = bit_xor-lt k (a / 2) (b / 2) (omega arith) (omega arith) in omega arith

pub bit_or-lt : (k a b : ℕ) → a < 2 ^ k → b < 2 ^ k → bit_or a b < 2 ^ k
bit_or-lt zero a b h g = let (p, q) : (a ≡ 0) × (b ≡ 0) = omega arith in rw (p, q) (omega arith)
bit_or-lt (suc k) a b h g =
    let e = pow-suc 2 k in
    let less = bit_or-lt k (a / 2) (b / 2) (omega arith) (omega arith) in
    omega (arith, bit_or_step a b)

zero-bit_and : (b : ℕ) → bit_and 0 b ≡ 0
zero-bit_and b = simp bit_and-bitwise

bit_and-le_fuel : (n a b : ℕ) → a ≤ n → bit_and a b ≤ a
bit_and-le_fuel n zero b h = omega (arith, zero-bit_and b)
bit_and-le_fuel zero (suc a) b h = absurd (omega arith)
bit_and-le_fuel (suc n) (suc a) b h =
    omega (arith, bit_and_step (suc a) b, bit_and-le_fuel n (suc a / 2) (b / 2) (omega arith))

pub bit_and-le : (a b : ℕ) → bit_and a b ≤ a
bit_and-le a b = bit_and-le_fuel a a b (omega arith)

-- The digit of weight 2 ^ k.
abbrev pub digit : ℕ → ℕ → ℕ
digit zero n = n % 2
digit (suc k) n = digit k (n / 2)

pub digit-bit_or : (k a b : ℕ) → digit k (bit_or a b) ≡ max (digit k a) (digit k b)
digit-bit_or zero a b = omega (arith, bit_or_step a b)
digit-bit_or (suc k) a b =
    let e : bit_or a b / 2 ≡ bit_or (a / 2) (b / 2) = omega (arith, bit_or_step a b) in
    rw e (digit-bit_or k (a / 2) (b / 2))

pub digit-bit_and : (k a b : ℕ) → digit k (bit_and a b) ≡ min (digit k a) (digit k b)
digit-bit_and zero a b = omega (arith, bit_and_step a b)
digit-bit_and (suc k) a b =
    let e : bit_and a b / 2 ≡ bit_and (a / 2) (b / 2) = omega (arith, bit_and_step a b) in
    rw e (digit-bit_and k (a / 2) (b / 2))

pub digit-le_one : (k n : ℕ) → digit k n ≤ 1
digit-le_one zero n = omega arith
digit-le_one (suc k) n = digit-le_one k (n / 2)

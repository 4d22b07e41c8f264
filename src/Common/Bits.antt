-- ===== src/Common/Bits.antt =====
-- `&`, `|` and `!` of machine words, read bit by bit and as sums of disjoint fields.
use Prim.Native.Nat.{
  ℕ, zero, suc, ◌+◌, ◌-◌, ◌*◌, ◌/◌, ◌%◌, ◌^◌, ◌≤◌, ◌<◌, min, max, bit_and, bit_or, digits,
  bit_and-bitwise, bit_or-bitwise,
}
use mathlib.Core.Path.{◌≡◌, refl, ap}
use native.Mathlib.Nat.{pow-suc, pow-succ', div-div-eq-div-mul}
use native.Mathlib.Omega.{arith}

-- `!x` of a 32-bit word
abbrev pub not_32 : ℕ → ℕ
not_32 x = 2 ^ 32 - 1 - x

-- `x << k`
abbrev pub shl : ℕ → ℕ → ℕ
shl x k = x * 2 ^ k

-- Bit `k` of `x`, as 0 or 1.
abbrev pub bit : ℕ → ℕ → ℕ
bit x k = x / 2 ^ k % 2

-- The digit recursion halves its first number in each round, so that number of rounds is enough, and
-- more change nothing.
module _ (end_with : ℕ → ℕ) (join : ℕ → ℕ → ℕ) where
  enough :
      (more less x y : ℕ)
      → x ≤ less
      → x ≤ more
      → digits end_with join more x y ≡ digits end_with join less x y
  enough zero less (suc x) y fits fits' = absurd (omega arith)
  enough (suc more) zero (suc x) y fits fits' = absurd (omega arith)
  enough (suc more) (suc less) (suc x) y fits fits' =
      omega (arith, enough more less (suc x / 2) (y / 2) (omega arith) (omega arith))
  enough zero zero zero y fits fits' = refl
  enough zero (suc less) zero y fits fits' = refl
  enough (suc more) zero zero y fits fits' = refl
  enough (suc more) (suc less) zero y fits fits' = refl

pub or_halves : (a b : ℕ) → bit_or a b ≡ bit_or (a / 2) (b / 2) * 2 + max (a % 2) (b % 2)
or_halves zero b = omega (arith, bit_or-bitwise 0 b, bit_or-bitwise 0 (b / 2))
or_halves (suc a) b = omega (
  arith,
  bit_or-bitwise (suc a) b,
  bit_or-bitwise (suc a / 2) (b / 2),
  enough (λ y. y) max a (suc a / 2) (suc a / 2) (b / 2) (omega arith) (omega arith),
)

pub and_halves : (a b : ℕ) → bit_and a b ≡ bit_and (a / 2) (b / 2) * 2 + min (a % 2) (b % 2)
and_halves zero b = omega (arith, bit_and-bitwise 0 b, bit_and-bitwise 0 (b / 2))
and_halves (suc a) b = omega (
  arith,
  bit_and-bitwise (suc a) b,
  bit_and-bitwise (suc a / 2) (b / 2),
  enough (λ y. 0) min a (suc a / 2) (suc a / 2) (b / 2) (omega arith) (omega arith),
)

-- `x / 2 ^ (k + 1)` halves first.
div-pow-suc : (x k : ℕ) → x / 2 ^ suc k ≡ x / 2 / 2 ^ k
div-pow-suc x k = rw (div-div-eq-div-mul x 2 (2 ^ k), pow-succ' 2 k)

pub bit-or : (k a b : ℕ) → bit (bit_or a b) k ≡ max (bit a k) (bit b k)
bit-or zero a b = omega (arith, or_halves a b)
bit-or (suc k) a b =
    let half : bit_or a b / 2 ≡ bit_or (a / 2) (b / 2) = omega (arith, or_halves a b) in
    rw (div-pow-suc (bit_or a b) k, div-pow-suc a k, div-pow-suc b k, half)
      (bit-or k (a / 2) (b / 2))

pub bit-and : (k a b : ℕ) → bit (bit_and a b) k ≡ min (bit a k) (bit b k)
bit-and zero a b = omega (arith, and_halves a b)
bit-and (suc k) a b =
    let half : bit_and a b / 2 ≡ bit_and (a / 2) (b / 2) = omega (arith, and_halves a b) in
    rw (div-pow-suc (bit_and a b) k, div-pow-suc a k, div-pow-suc b k, half)
      (bit-and k (a / 2) (b / 2))

zero-or : (b : ℕ) → bit_or 0 b ≡ b
zero-or b = bit_or-bitwise 0 b

or-zero_below : (n a : ℕ) → a ≤ n → bit_or a 0 ≡ a
or-zero_below n zero h = refl
or-zero_below zero (suc a) h = absurd (omega arith)
or-zero_below (suc n) (suc a) h =
    omega (arith, or_halves (suc a) 0, or-zero_below n (suc a / 2) (omega arith))

pub or-zero : (a : ℕ) → bit_or a 0 ≡ a
or-zero a = or-zero_below a a (omega arith)

or_comm_below : (n a b : ℕ) → a ≤ n → bit_or a b ≡ bit_or b a
or_comm_below n zero b h = omega (arith, zero-or b, or-zero b)
or_comm_below zero (suc a) b h = absurd (omega arith)
or_comm_below (suc n) (suc a) b h = omega (
  arith,
  or_halves (suc a) b,
  or_halves b (suc a),
  or_comm_below n (suc a / 2) (b / 2) (omega arith),
)

pub or_comm : (a b : ℕ) → bit_or a b ≡ bit_or b a
or_comm a b = or_comm_below a a b (omega arith)

-- `(q << k) | r` is a sum where `r` fits `k` bits.
pub or-fields : (k q r : ℕ) → r < 2 ^ k → bit_or (shl q k) r ≡ q * 2 ^ k + r
or-fields zero q r h = ground (arith, or-zero_below q q)
or-fields (suc k) q r h = ground (
  arith,
  or_halves (q * 2 ^ suc k) r,
  ap (λ (t : ℕ). q * t) (pow-suc 2 k),
  pow-suc 2 k,
  or-fields k q (r / 2),
)

and-zero_below : (n a : ℕ) → a ≤ n → bit_and a 0 ≡ 0
and-zero_below n zero h = refl
and-zero_below zero (suc a) h = absurd (omega arith)
and-zero_below (suc n) (suc a) h =
    omega (arith, and_halves (suc a) 0, and-zero_below n (suc a / 2) (omega arith))

pub and-zero : (a : ℕ) → bit_and a 0 ≡ 0
and-zero a = and-zero_below a a (omega arith)

-- `x & 0x0f` and `x & 0xff` are the low digits.
pub and_low_nibble : (a : ℕ) → bit_and a 15 ≡ a % 16
and_low_nibble a = omega (
  arith,
  and_halves a 15,
  and_halves (a / 2) 7,
  and_halves (a / 2 / 2) 3,
  and_halves (a / 2 / 2 / 2) 1,
  and-zero (a / 2 / 2 / 2 / 2),
)

pub and_low_byte : (a : ℕ) → bit_and a 255 ≡ a % 256
and_low_byte a = omega (
  arith,
  and_halves a 255,
  and_halves (a / 2) 127,
  and_halves (a / 2 / 2) 63,
  and_halves (a / 2 / 2 / 2) 31,
  and_low_nibble (a / 2 / 2 / 2 / 2),
)

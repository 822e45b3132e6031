-- ===== src/Bits.antt =====
-- Shifts, masks and disjoint unions of machine words as arithmetic. The native `bit_and` and
-- `bit_or` stand for `&` and `|`, `x / 2 ^ k` for `x >> k`, and `x * 2 ^ k % 2 ^ w` for `x << k`.
pub mod Byte
pub mod Word
pub mod Field
mod Digit
pub use Digit.{bit_or_digit, bit_and_digit, bit_or-zero, zero-bit_or, bit_and-zero, bit_or_comm}
use aitest.Prelude.{
  ℕ, zero, suc, ◌+◌, ◌-◌, ◌*◌, ◌/◌, ◌%◌, ◌^◌, ◌<◌, bit_and, bit_or, ◌≡◌, ap, ◌∙◌, arith,
}
use native.Mathlib.Nat.{pow-suc, one-le-pow}

double_shift : (q k : ℕ) → q * 2 ^ suc k ≡ 2 * (q * 2 ^ k)
double_shift q k = omega (arith, ap (λ (t : ℕ). q * t) (pow-suc 2 k))

-- A field above `k` bits and a field of `k` bits are joined by a sum.
pub bit_or-above : (k q r : ℕ) → r < 2 ^ k → bit_or (q * 2 ^ k) r ≡ q * 2 ^ k + r
bit_or-above zero q r h = ground (arith, bit_or-zero q)
bit_or-above (suc k) q r h = ground (
  arith,
  double_shift q k,
  bit_or_digit (q * 2 ^ suc k) r,
  bit_or-above k q (r / 2) (omega arith),
)

pub bit_or-below : (k q r : ℕ) → r < 2 ^ k → bit_or r (q * 2 ^ k) ≡ r + q * 2 ^ k
bit_or-below k q r h = bit_or_comm r (q * 2 ^ k) ∙ omega (arith, bit_or-above k q r h)

mask_of_parts : (k q r : ℕ) → r < 2 ^ k → bit_and (q * 2 ^ k + r) (2 ^ k - 1) ≡ r
mask_of_parts zero q r h = rw bit_and-zero (omega arith)
mask_of_parts (suc k) q r h = ground (
  arith,
  pow-suc 2 k,
  double_shift q k,
  bit_and_digit (q * 2 ^ suc k + r) (2 ^ suc k - 1),
  mask_of_parts k q (r / 2) (omega arith),
)

-- The mask of the `k` low bits is the remainder by `2 ^ k`.
pub bit_and_mask : (k a : ℕ) → bit_and a (2 ^ k - 1) ≡ a % 2 ^ k
bit_and_mask k a = ground (arith, one-le-pow k 2, mask_of_parts k (a / 2 ^ k) (a % 2 ^ k))

pub bit_and-one : (a : ℕ) → bit_and a 1 ≡ a % 2
bit_and-one a = bit_and_mask 1 a

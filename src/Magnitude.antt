-- ===== src/Magnitude.antt =====
-- Unsigned decimal magnitudes, digits first to last:
-- dfdl-vm/src/vm/text_number_format/decimal.rs. The loops that run from the last digit are
-- recursions on the reversed digits.
pub mod Word
pub mod Value
pub mod Compare
pub mod Divide
pub mod Multiply
use aitest.Prelude.{
  ℕ, zero, suc, ◌+◌, ◌-◌, ◌*◌, ◌/◌, ◌%◌, ◌^◌, min, Bool, true, false, ◌&&◌, ◌||◌, Option, none,
  some, List, [], ◌∷◌, length, reverse, ltb, ◌==◌, if◌then◌else◌,
}
use Prim.Native.Nat.{compare, Ordering}

-- The number that the digits stand for.
unfoldable pub value : List ℕ → ℕ
value [] = 0
value (d ∷ ds) = d * 10 ^ length ds + value ds

-- `while out.len() > 1 && out[0] == 0 { out.remove(0); }`
unfoldable pub strip : List ℕ → List ℕ
strip [] = []
strip (d ∷ []) = d ∷ []
strip (d ∷ e ∷ ds) = let rest = strip (e ∷ ds) in if d == 0 then rest else d ∷ e ∷ ds

unfoldable pub all_zero : List ℕ → Bool
all_zero [] = true
all_zero (d ∷ ds) = d == 0 && all_zero ds

-- The order of slices.
unfoldable pub cmp_slices : List ℕ → List ℕ → Ordering
cmp_slices [] [] = Ordering.eq
cmp_slices [] (_ ∷ _) = Ordering.lt
cmp_slices (_ ∷ _) [] = Ordering.gt
cmp_slices (a ∷ xs) (b ∷ ys) = elim (compare a b) [
  | Ordering.lt ↦ Ordering.lt
  | Ordering.eq ↦ cmp_slices xs ys
  | Ordering.gt ↦ Ordering.gt
]

unfoldable pub cmp_mag : List ℕ → List ℕ → Ordering
cmp_mag a b = elim (compare (length a) (length b)) [
  | Ordering.lt ↦ Ordering.lt
  | Ordering.eq ↦ cmp_slices a b
  | Ordering.gt ↦ Ordering.gt
]

-- `== Ordering::Less`
unfoldable pub is_less : Ordering → Bool
is_less Ordering.lt = true
is_less Ordering.eq = false
is_less Ordering.gt = false

-- A digit of the difference as a `u8`, and the borrow.
unfoldable pub sub_digit : ℕ → ℕ → ℕ → ℕ × ℕ
sub_digit a b borrow =
    if ltb a (b + borrow)
    then ((a + 10 + 2 ^ 8 - (b + borrow)) % 2 ^ 8, 1)
    else (a - (b + borrow), 0)

-- From the last digits; the digits that `b` hxs beyond `a` are not looked at.
unfoldable pub sub_rounds : List ℕ → List ℕ → ℕ → List ℕ
unfolding sub_digit
sub_rounds [] _ borrow = []
sub_rounds (a ∷ xs) [] borrow =
    let (d, borrow') = sub_digit a 0 borrow in d ∷ sub_rounds xs [] borrow'
sub_rounds (a ∷ xs) (b ∷ ys) borrow =
    let (d, borrow') = sub_digit a b borrow in d ∷ sub_rounds xs ys borrow'

-- The debug assertion that `a` is not the smaller number is no part of it: its callers compare first.
unfoldable pub sub_mag : List ℕ → List ℕ → List ℕ
sub_mag a b = strip (reverse (sub_rounds (reverse a) (reverse b) 0))

-- `while ai > 0 || bi > 0 || carry > 0`; the carry is a `u16`, of at most 5 digits.
unfoldable pub carry_rounds : ℕ → ℕ → List ℕ
carry_rounds zero carry = []
carry_rounds (suc fuel) carry =
    let rest = carry_rounds fuel (carry / 10) in if carry == 0 then [] else carry % 10 ∷ rest

unfoldable pub add_rounds : List ℕ → List ℕ → ℕ → List ℕ
add_rounds [] [] carry = carry_rounds 5 carry
add_rounds [] (b ∷ ys) carry = (b + carry) % 10 ∷ add_rounds [] ys ((b + carry) / 10)
add_rounds (a ∷ xs) [] carry = (a + carry) % 10 ∷ add_rounds xs [] ((a + carry) / 10)
add_rounds (a ∷ xs) (b ∷ ys) carry = (a + b + carry) % 10 ∷ add_rounds xs ys ((a + b + carry) / 10)

-- `if out.is_empty() { out.push(0); }`
unfoldable pub or_zero : List ℕ → List ℕ
or_zero [] = 0 ∷ []
or_zero (d ∷ ds) = d ∷ ds

unfoldable pub add_mag : List ℕ → List ℕ → List ℕ
add_mag a b = or_zero (strip (reverse (add_rounds (reverse a) (reverse b) 0)))

-- `checked_mul` and `checked_add` of a `u128`.
unfoldable pub u128_rounds : List ℕ → ℕ → Option ℕ
u128_rounds [] acc = some acc
u128_rounds (d ∷ ds) acc =
    let rest = u128_rounds ds (acc * 10 + d) in
    if ltb (acc * 10) (2 ^ 128) && ltb (acc * 10 + d) (2 ^ 128) then rest else none

unfoldable pub digits_to_u128 : List ℕ → Option ℕ
digits_to_u128 ds = u128_rounds ds 0

-- `while n > 0`, pushed and reversed at the end; a `u128` has at most 39 digits.
unfoldable pub u128_digit_rounds : ℕ → ℕ → List ℕ → List ℕ
u128_digit_rounds zero n out = out
u128_digit_rounds (suc fuel) n out =
    let rest = u128_digit_rounds fuel (n / 10) (n % 10 ∷ out) in if n == 0 then out else rest

unfoldable pub u128_to_digits : ℕ → List ℕ
u128_to_digits n = if n == 0 then 0 ∷ [] else u128_digit_rounds 39 n []

-- Division by subtraction; each round subtracts at least 1.
unfoldable pub div_rounds : ℕ → List ℕ → List ℕ → List ℕ → List ℕ × List ℕ
div_rounds zero rem quotient divisor = (quotient, rem)
div_rounds (suc fuel) rem quotient divisor = elim (is_less (cmp_mag rem divisor)) [
  | true ↦ (quotient, rem)
  | false ↦ div_rounds fuel (sub_mag rem divisor) (add_mag quotient (1 ∷ [])) divisor
]

-- The division proper, on `u128` where both fit.
unfoldable pub divide : List ℕ → List ℕ → Option ℕ → Option ℕ → List ℕ × List ℕ
divide dividend divisor (some a) (some b) = (u128_to_digits (a / b), u128_to_digits (a % b))
divide dividend divisor _ _ = div_rounds (suc (value dividend)) dividend (0 ∷ []) divisor

unfoldable pub div_mod_mag : List ℕ → List ℕ → List ℕ × List ℕ
div_mod_mag dividend divisor =
    if all_zero divisor || is_less (cmp_mag dividend divisor)
    then (0 ∷ [], dividend)
    else divide dividend divisor (digits_to_u128 dividend) (digits_to_u128 divisor)

unfoldable pub double_rounds : List ℕ → ℕ → List ℕ
double_rounds [] carry = if ltb 0 carry then carry ∷ [] else []
double_rounds (d ∷ ds) carry = (d * 2 + carry) % 10 ∷ double_rounds ds ((d * 2 + carry) / 10)

unfoldable pub double_mag : List ℕ → List ℕ
double_mag d = strip (reverse (double_rounds (reverse d) 0))

-- `for _ in 0..bd { acc = add_mag(&acc, a); }`
unfoldable pub add_times : ℕ → List ℕ → List ℕ → List ℕ
add_times zero acc a = acc
add_times (suc n) acc a = add_times n (add_mag acc a) a

unfoldable pub mul_rounds : List ℕ → List ℕ → List ℕ → List ℕ
mul_rounds [] acc a = acc
mul_rounds (b ∷ ys) acc a = mul_rounds ys (add_times b acc a) a

-- The product proper: a saturating one on `u128` where both fit.
unfoldable pub multiply : List ℕ → List ℕ → Option ℕ → Option ℕ → List ℕ
multiply a b (some x) (some y) = u128_to_digits (min (x * y) (2 ^ 128 - 1))
multiply a b _ _ = mul_rounds b (0 ∷ []) a

unfoldable pub mul_mags : List ℕ → List ℕ → List ℕ
mul_mags a b =
    if all_zero a || all_zero b then 0 ∷ [] else multiply a b (digits_to_u128 a) (digits_to_u128 b)

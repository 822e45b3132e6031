-- ===== src/Bits/Digit.antt =====
-- The lowest binary digit of `&` and `|`, from the recursion on digits that they stand for.
use Prim.Native.Nat.{digits, bit_and-bitwise, bit_or-bitwise}
use aitest.Prelude.{
  ℕ, zero, suc, ◌+◌, ◌*◌, ◌/◌, ◌%◌, ◌≤◌, ◌<◌, min, max, bit_and, bit_or, ◌≡◌, refl, ◌∙◌, sym, arith,
  lt_wf,
}
use mathlib.Core.WellFounded

module _ (rest : ℕ → ℕ) (join : ℕ → ℕ → ℕ) where
  no_digits : (n b : ℕ) → digits rest join n 0 b ≡ rest b
  no_digits zero b = refl
  no_digits (suc n) b = refl

  -- Any two amounts of fuel that cover `a` give the same digits.
  same_digits : (a b n m : ℕ) → a ≤ n → a ≤ m → digits rest join n a b ≡ digits rest join m a b
  same_digits zero b n m p q = no_digits n b ∙ sym (no_digits m b)
  same_digits (suc a) b zero m p q = absurd (omega arith)
  same_digits (suc a) b (suc n) zero p q = absurd (omega arith)
  same_digits (suc a) b (suc n) (suc m) p q =
      omega (arith, same_digits (suc a / 2) (b / 2) n m (omega arith) (omega arith))

pub bit_or_digit : (a b : ℕ) → bit_or a b ≡ bit_or (a / 2) (b / 2) * 2 + max (a % 2) (b % 2)
bit_or_digit zero b = omega (arith, bit_or-bitwise 0 b, bit_or-bitwise 0 (b / 2))
bit_or_digit (suc a) b = omega (
  arith,
  bit_or-bitwise (suc a) b,
  bit_or-bitwise (suc a / 2) (b / 2),
  same_digits (λ y. y) max (suc a / 2) (b / 2) a (suc a / 2) (omega arith) (omega arith),
)

pub bit_and_digit : (a b : ℕ) → bit_and a b ≡ bit_and (a / 2) (b / 2) * 2 + min (a % 2) (b % 2)
bit_and_digit zero b = omega (arith, bit_and-bitwise 0 b, bit_and-bitwise 0 (b / 2))
bit_and_digit (suc a) b = omega (
  arith,
  bit_and-bitwise (suc a) b,
  bit_and-bitwise (suc a / 2) (b / 2),
  same_digits (λ y. 0) min (suc a / 2) (b / 2) a (suc a / 2) (omega arith) (omega arith),
)

pub zero-bit_or : (b : ℕ) → bit_or 0 b ≡ b
zero-bit_or b = bit_or-bitwise 0 b

pub zero-bit_and : (b : ℕ) → bit_and 0 b ≡ 0
zero-bit_and b = bit_and-bitwise 0 b

or_zero_step : (n : ℕ) → ((m : ℕ) → m < n → bit_or m 0 ≡ m) → bit_or n 0 ≡ n
or_zero_step zero ih = refl
or_zero_step (suc n) ih = omega (arith, bit_or_digit (suc n) 0, ih (suc n / 2) (omega arith))

pub bit_or-zero : (a : ℕ) → bit_or a 0 ≡ a
bit_or-zero a = WellFounded.induction lt_wf {C = λ n. bit_or n 0 ≡ n} a or_zero_step

and_zero_step : (n : ℕ) → ((m : ℕ) → m < n → bit_and m 0 ≡ 0) → bit_and n 0 ≡ 0
and_zero_step zero ih = refl
and_zero_step (suc n) ih = omega (arith, bit_and_digit (suc n) 0, ih (suc n / 2) (omega arith))

pub bit_and-zero : (a : ℕ) → bit_and a 0 ≡ 0
bit_and-zero a = WellFounded.induction lt_wf {C = λ n. bit_and n 0 ≡ 0} a and_zero_step

comm_step :
    (n : ℕ)
    → ((m : ℕ) → m < n → (b : ℕ) → bit_or m b ≡ bit_or b m)
    → (b : ℕ) → bit_or n b ≡ bit_or b n
comm_step zero ih b = omega (arith, zero-bit_or b, bit_or-zero b)
comm_step (suc n) ih b =
    omega
      (arith, bit_or_digit (suc n) b, bit_or_digit b (suc n), ih (suc n / 2) (omega arith) (b / 2))

pub bit_or_comm : (a b : ℕ) → bit_or a b ≡ bit_or b a
bit_or_comm a = WellFounded.induction lt_wf {C = λ n. (b : ℕ) → bit_or n b ≡ bit_or b n} a comm_step

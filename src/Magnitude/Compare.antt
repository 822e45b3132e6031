-- ===== src/Magnitude/Compare.antt =====
-- The comparison of magnitudes without leading zeros, and which results have none.
use aitest.Prelude.{
  ℕ, zero, suc, ◌+◌, ◌-◌, ◌*◌, ◌/◌, ◌^◌, ◌≤◌, ◌<◌, ◌≡◌, refl, ap, arith, List, [], ◌∷◌, length,
  reverse, length-reverse, All, ltb, ◌==◌, Bool-cases, inl, inr,
}
use aitest.Magnitude.{
  value, strip, or_zero, cmp_slices, cmp_mag, carry_rounds, add_rounds, add_mag, sub_digit,
  sub_rounds, sub_mag,
}
use aitest.Magnitude.Value.{IsDigit, All-reverse}
use native.Mathlib.Nat.{pow-suc, pow-le-pow_right}
use Prim.Native.Nat.{compare}

-- Digits without a leading zero, but for zero itself.
pub record IsTrimmed (ds : List ℕ) : Type 0 where
  pub digits : All IsDigit ds
  pub some_digit : 1 ≤ length ds
  pub leading : 2 ≤ length ds → 10 ^ (length ds - 1) ≤ value ds

pub value-lt : (ds : List ℕ) → All IsDigit ds → value ds < 10 ^ length ds
unfolding value
value-lt [] h = omega arith
value-lt (d ∷ ds) (hd, h) =
    let top : d * 10 ^ length ds ≤ 9 * 10 ^ length ds = grind arith in
    omega (arith, value-lt ds h, pow-suc 10 (length ds))

higher_digit : (a b p x y : ℕ) → a < b → x < p → a * p + x < b * p + y
higher_digit a b p x y h hx = let top : suc a * p ≤ b * p = grind arith in omega arith

cmp_slices-compare :
    (a b : List ℕ)
    → All IsDigit a
    → All IsDigit b
    → length a ≡ length b
    → cmp_slices a b ≡ compare (value a) (value b)
unfolding cmp_slices value
cmp_slices-compare [] [] ha hb same = refl
cmp_slices-compare [] (b ∷ ys) ha hb same = absurd (omega arith)
cmp_slices-compare (a ∷ xs) [] ha hb same = absurd (omega arith)
cmp_slices-compare (a ∷ xs) (b ∷ ys) (ha, hxs) (hb, hys) same =
    let n : length xs ≡ length ys = omega arith in
    let rest = cmp_slices-compare xs ys hxs hys n in
    rw n (
      ground (
        arith,
        rest,
        higher_digit a b (10 ^ length ys) (value xs) (value ys),
        higher_digit b a (10 ^ length ys) (value ys) (value xs),
        rw n at (value-lt xs hxs),
        value-lt ys hys,
      ))

pub longer : (a b : List ℕ) → IsTrimmed a → IsTrimmed b → length a < length b → value a < value b
longer a b ha hb h =
    let step : 10 ^ length a ≤ 10 ^ (length b - 1) = pow-le-pow_right (omega arith) (omega arith) in
    omega (arith, value-lt a ha.digits, hb.leading (omega (arith, ha.some_digit)), step)

-- The comparison of magnitudes without leading zeros is that of their values.
pub cmp_mag-compare :
    (a b : List ℕ) → IsTrimmed a → IsTrimmed b → cmp_mag a b ≡ compare (value a) (value b)
unfolding cmp_mag
cmp_mag-compare a b ha hb =
    ground (arith, longer a b ha hb, longer b a hb ha, cmp_slices-compare a b ha.digits hb.digits)

pub strip-IsDigit : (ds : List ℕ) → All IsDigit ds → All IsDigit (strip ds)
unfolding strip
strip-IsDigit [] h = tt
strip-IsDigit (d ∷ []) h = h
strip-IsDigit (d ∷ e ∷ ds) (hd, h) = elim (Bool-cases (d == 0)) [
  | inl z ↦ rw z (strip-IsDigit (e ∷ ds) h)
  | inr n ↦ rw n (hd, h)
]

strip-some : (ds : List ℕ) → 1 ≤ length ds → 1 ≤ length (strip ds)
unfolding strip
strip-some [] h = h
strip-some (d ∷ []) h = h
strip-some (d ∷ e ∷ ds) h = elim (Bool-cases (d == 0)) [
  | inl z ↦ rw z (strip-some (e ∷ ds) (omega arith))
  | inr n ↦ rw n (omega arith)
]

le-mul : (d p : ℕ) → 1 ≤ d → p ≤ d * p
le-mul d p h = grind arith

pub leading_digit : (d : ℕ) (ds : List ℕ) → 1 ≤ d → 10 ^ (length (d ∷ ds) - 1) ≤ value (d ∷ ds)
unfolding value
leading_digit d ds h =
    let l : suc (length ds) - 1 ≡ length ds = omega arith in
    rw l (omega (arith, le-mul d (10 ^ length ds) h))

pub strip-leading :
    (ds : List ℕ) → 2 ≤ length (strip ds) → 10 ^ (length (strip ds) - 1) ≤ value (strip ds)
unfolding strip
strip-leading [] h = absurd (omega arith)
strip-leading (d ∷ []) h = absurd (omega arith)
strip-leading (d ∷ e ∷ ds) h = elim (Bool-cases (d == 0)) [
  | inl z ↦ rw z (strip-leading (e ∷ ds) (rw z at h))
  | inr n ↦ rw n (leading_digit d (e ∷ ds) (ground arith))
]

pub strip-IsTrimmed : (ds : List ℕ) → All IsDigit ds → 1 ≤ length ds → IsTrimmed (strip ds)
strip-IsTrimmed ds h n = record {
  digits = strip-IsDigit ds h;
  some_digit = strip-some ds n;
  leading = strip-leading ds;
}

pub or_zero-IsTrimmed :
    (ds : List ℕ)
    → All IsDigit ds
    → (2 ≤ length ds → 10 ^ (length ds - 1) ≤ value ds)
    → IsTrimmed (or_zero ds)
unfolding or_zero
or_zero-IsTrimmed [] h leading = record {
  digits = (omega arith, tt);
  some_digit = omega arith;
  leading = λ two. absurd (omega (arith, two));
}
or_zero-IsTrimmed (d ∷ ds) h leading = record {
  digits = h;
  some_digit = omega arith;
  leading = leading;
}

carry_rounds-IsDigit : (fuel carry : ℕ) → All IsDigit (carry_rounds fuel carry)
unfolding carry_rounds
carry_rounds-IsDigit zero carry = tt
carry_rounds-IsDigit (suc fuel) carry = elim (Bool-cases (carry == 0)) [
  | inl z ↦ rw z tt
  | inr n ↦ rw n (omega arith, carry_rounds-IsDigit fuel (carry / 10))
]

add_rounds-IsDigit : (a b : List ℕ) (carry : ℕ) → All IsDigit (add_rounds a b carry)
unfolding add_rounds
add_rounds-IsDigit [] [] carry = carry_rounds-IsDigit 5 carry
add_rounds-IsDigit [] (b ∷ ys) carry = (omega arith, add_rounds-IsDigit [] ys _)
add_rounds-IsDigit (a ∷ xs) [] carry = (omega arith, add_rounds-IsDigit xs [] _)
add_rounds-IsDigit (a ∷ xs) (b ∷ ys) carry = (omega arith, add_rounds-IsDigit xs ys _)

pub add_mag-IsTrimmed : (a b : List ℕ) → IsTrimmed (add_mag a b)
unfolding add_mag
add_mag-IsTrimmed a b =
    let sum = reverse (add_rounds (reverse a) (reverse b) 0) in
    or_zero-IsTrimmed (strip sum)
      (strip-IsDigit sum (All-reverse _ (add_rounds-IsDigit (reverse a) (reverse b) 0)))
      (strip-leading sum)

sub_rounds-IsDigit :
    (a b : List ℕ) (borrow : ℕ)
    → All IsDigit a
    → All IsDigit b
    → borrow ≤ 1
    → All IsDigit (sub_rounds a b borrow)
unfolding sub_rounds sub_digit
sub_rounds-IsDigit [] b borrow ha hb h = tt
sub_rounds-IsDigit (a ∷ xs) [] borrow (ha, hxs) hb h = elim (Bool-cases (ltb a (0 + borrow))) [
  | inl under ↦ rw under (ground arith, sub_rounds-IsDigit xs [] 1 hxs tt (omega arith))
  | inr over ↦ rw over (omega (arith, ha), sub_rounds-IsDigit xs [] 0 hxs tt (omega arith))
]
sub_rounds-IsDigit (a ∷ xs) (b ∷ ys) borrow (ha, hxs) (hb, hys) h =
    elim (Bool-cases (ltb a (b + borrow))) [
      | inl under ↦
          rw under (ground (arith, ha, hb), sub_rounds-IsDigit xs ys 1 hxs hys (omega arith))
      | inr over ↦ rw over (omega (arith, ha), sub_rounds-IsDigit xs ys 0 hxs hys (omega arith))
    ]

length-sub_rounds : (a b : List ℕ) (borrow : ℕ) → length (sub_rounds a b borrow) ≡ length a
unfolding sub_rounds sub_digit
length-sub_rounds [] b borrow = refl
length-sub_rounds (a ∷ xs) [] borrow = ap suc (length-sub_rounds xs [] _)
length-sub_rounds (a ∷ xs) (b ∷ ys) borrow = ap suc (length-sub_rounds xs ys _)

pub sub_mag-IsTrimmed :
    (a b : List ℕ) → All IsDigit a → All IsDigit b → 1 ≤ length a → IsTrimmed (sub_mag a b)
unfolding sub_mag
sub_mag-IsTrimmed a b ha hb n =
    strip-IsTrimmed _
      (All-reverse _ (
        sub_rounds-IsDigit (reverse a) (reverse b) 0 (All-reverse a ha) (All-reverse b hb)
          (omega arith)))
      (rw (length-reverse, length-sub_rounds, length-reverse) n)

-- ===== src/Decimal/Rounding/Modes.antt =====
-- The rounding decisions as comparisons of numbers: `should_round_up` and
-- `fraction_round_increments`.
use aitest.Prelude.{
  ℕ, suc, ◌+◌, ◌-◌, ◌*◌, ◌/◌, ◌%◌, ◌^◌, ◌≤◌, ◌<◌, ◌≡◌, refl, sym, ap, arith, Bool, false, not, ◌&&◌,
  ◌||◌, List, [], ◌∷◌, length, reverse, length-reverse, All, ltb, leb, ◌==◌, if◌then◌else◌,
  Bool-cases, ◌⊎◌, inl, inr,
}
use aitest.Schema.{
  TextNumberRoundingMode, round_ceiling, round_floor, round_down, round_up, round_half_even,
  round_half_down, round_half_up, round_unnecessary,
}
use aitest.Magnitude.{value, all_zero, double_rounds, double_mag}
use aitest.Magnitude.Value.{IsDigit, All-reverse, double_mag-value}
use aitest.Magnitude.Compare.{IsTrimmed, cmp_mag-compare, strip-IsTrimmed, value-lt, leading_digit}
use aitest.Decimal.Rounding.{
  is_equal, is_greater, rounds_up, should_round_up, fraction_round_increments,
}
use Prim.Native.Nat.{compare}
use native.Mathlib.Nat.{pow-suc, one-le-pow}

pub all_zero-== : (ds : List ℕ) → all_zero ds ≡ (value ds == 0)
unfolding all_zero value
all_zero-== [] = refl
all_zero-== (d ∷ ds) = elim (Bool-cases (d == 0)) [
  | inl z ↦
      let d0 : d ≡ 0 = ground arith in
      let e : d * 10 ^ length ds + value ds ≡ value ds =
        omega (arith, ap (λ (t : ℕ). t * 10 ^ length ds) d0) in
      rw (z, e) (all_zero-== ds)
  | inr n ↦
      let some_power = one-le-pow (length (d ∷ ds) - 1) 10 (omega arith) in
      rw n (ground (arith, leading_digit d ds (ground arith), some_power))
]

-- The decision of a mode on a remainder of `rem` in `unit`, behind the digit `last`.
unfoldable pub unit_rounds_up : TextNumberRoundingMode → Bool → ℕ → ℕ → ℕ → Bool
unit_rounds_up round_unnecessary negative last rem unit = false
unit_rounds_up round_up negative last rem unit = not negative && ltb 0 rem
unit_rounds_up round_ceiling negative last rem unit = not negative && ltb 0 rem
unit_rounds_up round_down negative last rem unit = negative && ltb 0 rem
unit_rounds_up round_floor negative last rem unit = negative && ltb 0 rem
unit_rounds_up round_half_up negative last rem unit = leb unit (2 * rem) && ltb 0 rem
unit_rounds_up round_half_down negative last rem unit = ltb unit (2 * rem)
unit_rounds_up round_half_even negative last rem unit =
    ltb unit (2 * rem) || (unit == 2 * rem && last % 2 == 1 && ltb 0 rem)

double_rounds-IsDigit :
    (ds : List ℕ) (carry : ℕ) → All IsDigit ds → carry ≤ 1 → All IsDigit (double_rounds ds carry)
unfolding double_rounds
double_rounds-IsDigit [] carry h hc = elim (Bool-cases (ltb 0 carry)) [
  | inl some_carry ↦ rw some_carry (omega (arith, hc), tt)
  | inr no_carry ↦ rw no_carry tt
]
double_rounds-IsDigit (d ∷ ds) carry (hd, h) hc =
    (omega arith, double_rounds-IsDigit ds ((d * 2 + carry) / 10) h (omega (arith, hd, hc)))

length-double_rounds : (ds : List ℕ) (carry : ℕ) → length ds ≤ length (double_rounds ds carry)
unfolding double_rounds
length-double_rounds [] carry = omega arith
length-double_rounds (d ∷ ds) carry = omega (arith, length-double_rounds ds ((d * 2 + carry) / 10))

double_mag-IsTrimmed : (ds : List ℕ) → IsTrimmed ds → IsTrimmed (double_mag ds)
unfolding double_mag
double_mag-IsTrimmed ds h =
    strip-IsTrimmed _
      (All-reverse _ (double_rounds-IsDigit (reverse ds) 0 (All-reverse ds h.digits) (omega arith)))
      (rw length-reverse
        (omega (arith, length-double_rounds (reverse ds) 0, length-reverse ds, h.some_digit)))

is_equal-compare : (a b : ℕ) → is_equal (compare a b) ≡ (b == a)
unfolding is_equal
is_equal-compare a b = ground arith

is_greater-compare : (a b : ℕ) → is_greater (compare a b) ≡ ltb b a
unfolding is_greater
is_greater-compare a b = ground arith

rounds_up-unit :
    (mode : TextNumberRoundingMode) (negative : Bool) (last rem unit : ℕ)
    → (if rem == 0
        then false
        else rounds_up (unit == 2 * rem) (ltb unit (2 * rem)) mode negative last)
      ≡ unit_rounds_up mode negative last rem unit
unfolding rounds_up unit_rounds_up
rounds_up-unit mode negative last rem unit = elim mode [
  | round_unnecessary ↦ ground arith
  | round_up ↦ ground arith
  | round_ceiling ↦ ground arith
  | round_down ↦ ground arith
  | round_floor ↦ ground arith
  | round_half_up ↦ ground arith
  | round_half_down ↦ ground arith
  | round_half_even ↦ ground arith
]

-- For a remainder and a divisor without leading zeros, `should_round_up` is the decision of the mode
-- on their values.
pub should_round_up-unit :
    (rem divisor : List ℕ) (mode : TextNumberRoundingMode) (negative : Bool) (last : ℕ)
    → IsTrimmed rem
    → IsTrimmed divisor
    → should_round_up rem divisor mode negative last
      ≡ unit_rounds_up mode negative last (value rem) (value divisor)
unfolding should_round_up
should_round_up-unit rem divisor mode negative last hr hd =
    let cmp = cmp_mag-compare (double_mag rem) divisor (double_mag-IsTrimmed rem hr) hd in
    rw
      (
        all_zero-==,
        cmp,
        double_mag-value,
        is_equal-compare (2 * value rem) (value divisor),
        is_greater-compare,
      )
      (rounds_up-unit mode negative last (value rem) (value divisor))

-- The digit at which a number is cut decides with the digits behind it. In `round_half_up` a half is
-- not rounded up, and in `round_half_down` the digits behind are not looked at.
pub cut_rounds_up : TextNumberRoundingMode → Bool → ℕ → ℕ → ℕ → Bool
cut_rounds_up round_unnecessary negative last rem unit = false
cut_rounds_up round_up negative last rem unit = not negative
cut_rounds_up round_ceiling negative last rem unit = not negative
cut_rounds_up round_down negative last rem unit = negative
cut_rounds_up round_floor negative last rem unit = negative
cut_rounds_up round_half_up negative last rem unit = ltb unit (2 * rem)
cut_rounds_up round_half_down negative last rem unit = leb (6 * unit) (10 * rem)
cut_rounds_up round_half_even negative last rem unit =
    ltb unit (2 * rem) || unit == 2 * rem && last % 2 == 1

mul_le : (a b p : ℕ) → a ≤ b → a * p ≤ b * p
mul_le a b p h = grind arith

-- The digit `d` and `rest`, which is less than `p`, in the unit `p * 10`: the three comparisons.
module _ (d rest p : ℕ) (hd : d < 10) (h : rest < p) where
  place :
      (d < 5) × (d * p + rest < 5 * p)
      ⊎ (d ≡ 5) × (d * p + rest ≡ 5 * p + rest)
      ⊎ (5 < d) × (6 * p ≤ d * p + rest)
  place = elim (Bool-cases (ltb d 5)) [
    | inl low ↦
        let e : suc d ≤ 5 = ground arith in inl (ground arith, omega (arith, mul_le (suc d) 5 p e))
    | inr other ↦ elim (Bool-cases (d == 5)) [
      | inl five ↦ let e : d ≡ 5 = ground arith in inr (inl (e, ap (λ (t : ℕ). t * p + rest) e))
      | inr high ↦
          let e : 6 ≤ d = ground arith in inr (inr (ground arith, omega (arith, mul_le 6 d p e)))
    ]
  ]

  above_half : ltb (p * 10) (2 * (d * p + rest)) ≡ (ltb 5 d || d == 5 && not (rest == 0))
  above_half = ground (arith, place)

  at_half : (p * 10 == 2 * (d * p + rest)) ≡ (d == 5 && rest == 0)
  at_half = ground (arith, place)

  above_digit : leb (6 * (p * 10)) (10 * (d * p + rest)) ≡ ltb 5 d
  above_digit = ground (arith, place)

-- The decision at a digit, as a comparison of numbers.
pub fraction_round_increments-cut :
    (mode : TextNumberRoundingMode) (negative : Bool) (last d : ℕ) (tail : List ℕ)
    → d < 10
    → All IsDigit tail
    → fraction_round_increments d tail mode last negative
      ≡ cut_rounds_up mode negative last (value (d ∷ tail)) (10 ^ suc (length tail))
unfolding fraction_round_increments cut_rounds_up value
fraction_round_increments-cut mode negative last d tail hd h =
    let p = 10 ^ length tail in
    let above = above_half d (value tail) p hd (value-lt tail h) in
    let half = at_half d (value tail) p hd (value-lt tail h) in
    let digit = above_digit d (value tail) p hd (value-lt tail h) in
    rw pow-suc
      (elim mode
        as (λ k.
          fraction_round_increments d tail k last negative
          ≡ cut_rounds_up k negative last (d * p + value tail) (p * 10)) [
            | round_half_up ↦ rw (all_zero-== tail) (sym above)
            | round_half_down ↦ sym digit
            | round_half_even ↦ rw (all_zero-== tail, above, half) (ground arith)
            | _ ↦ refl
          ])

pub cut_rounds_up-parity :
    (mode : TextNumberRoundingMode) (negative : Bool) (a b rem unit : ℕ)
    → a % 2 ≡ b % 2
    → cut_rounds_up mode negative a rem unit ≡ cut_rounds_up mode negative b rem unit
unfolding cut_rounds_up
cut_rounds_up-parity mode negative a b rem unit h =
    elim mode as (λ k. cut_rounds_up k negative a rem unit ≡ cut_rounds_up k negative b rem unit) [
      | round_half_even ↦ rw h refl
      | _ ↦ refl
    ]

pub unit_rounds_up-parity :
    (mode : TextNumberRoundingMode) (negative : Bool) (a b rem unit : ℕ)
    → a % 2 ≡ b % 2
    → unit_rounds_up mode negative a rem unit ≡ unit_rounds_up mode negative b rem unit
unfolding unit_rounds_up
unit_rounds_up-parity mode negative a b rem unit h =
    elim mode
      as (λ k. unit_rounds_up k negative a rem unit ≡ unit_rounds_up k negative b rem unit) [
        | round_half_even ↦ rw h refl
        | _ ↦ refl
      ]

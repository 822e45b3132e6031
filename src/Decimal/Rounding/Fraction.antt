-- ===== src/Decimal/Rounding/Fraction.antt =====
-- `round_to_max_fraction_digits` in numbers.
use aitest.Prelude.{
  ℕ, zero, suc, ◌+◌, ◌-◌, ◌*◌, ◌/◌, ◌%◌, ◌^◌, ◌≤◌, ◌<◌, ◌≡◌, refl, sym, ap, ◌∙◌, arith, Bool, true,
  false, List, [], ◌∷◌, ◌++◌, length, take, drop, get_or, All, ltb, leb, if◌then◌else◌, Bool-cases,
  inl, inr,
}
use aitest.Schema.{TextNumberRoundingMode}
use aitest.Magnitude.{value}
use aitest.Magnitude.Value.{IsDigit, All-reverse, value-snoc}
use aitest.Magnitude.Compare.{value-lt}
use aitest.Decimal.{Decimal}
use aitest.Decimal.Value.{
  trim_trailing_zeros-IsReduced, carry_digits-value, take-IsDigit, drop-IsDigit, value-split,
}
use aitest.Decimal.Rounding.{
  fraction_round_increments, rounded_digits, round_to_max_fraction_digits,
}
use aitest.Decimal.Rounding.Modes.{
  cut_rounds_up, fraction_round_increments-cut, cut_rounds_up-parity,
}
use native.Mathlib.Nat.{
  one-le-pow, mul-add-div_right, add-mul-mod_self_right, div-eq_of_lt, mod-eq_of_lt,
}

drop-get_or : (k : ℕ) (ds : List ℕ) → k < length ds → drop k ds ≡ get_or ds k 0 ∷ drop (k + 1) ds
drop-get_or zero [] h = absurd (omega arith)
drop-get_or zero (d ∷ ds) h = refl
drop-get_or (suc k) [] h = absurd (omega arith)
drop-get_or (suc k) (d ∷ ds) h =
    let e : suc k + 1 ≡ suc (k + 1) = omega arith in rw e (drop-get_or k ds (omega arith))

take-snoc :
    (k : ℕ) (ds : List ℕ) → k < length ds → take (suc k) ds ≡ take k ds ++ get_or ds k 0 ∷ []
take-snoc zero [] h = absurd (omega arith)
take-snoc zero (d ∷ ds) h = refl
take-snoc (suc k) [] h = absurd (omega arith)
take-snoc (suc k) (d ∷ ds) h = ap (λ s. d ∷ s) (take-snoc k ds (omega arith))

get_or-IsDigit : (k : ℕ) (ds : List ℕ) → All IsDigit ds → get_or ds k 0 < 10
get_or-IsDigit k [] h = omega arith
get_or-IsDigit zero (d ∷ ds) (hd, h) = hd
get_or-IsDigit (suc k) (d ∷ ds) (hd, h) = get_or-IsDigit k ds h

-- The digit before the cut has the parity of the number before it.
parity :
    (k : ℕ) (ds : List ℕ)
    → k < length ds
    → (if ltb 0 k then get_or ds (k - 1) 0 else 0) % 2 ≡ value (take k ds) % 2
parity zero ds h = unfold value in refl
parity (suc j) ds h =
    let e : suc j - 1 ≡ j = omega arith in
    let t : ltb 0 (suc j) ≡ true = ground arith in
    rw (e, t, take-snoc j ds (omega arith), value-snoc) (omega arith)

length-drop-suc : (k r : ℕ) (ds : List ℕ) → length ds ≡ k + suc r → length (drop (k + 1) ds) ≡ r
length-drop-suc zero r [] h = absurd (omega arith)
length-drop-suc zero r (d ∷ ds) h = omega arith
length-drop-suc (suc k) r [] h = absurd (omega arith)
length-drop-suc (suc k) r (d ∷ ds) h =
    let e : suc k + 1 ≡ suc (k + 1) = omega arith in rw e (length-drop-suc k r ds (omega arith))

-- The digits before and behind the cut are the quotient and the remainder.
module _ (k r : ℕ) (ds : List ℕ) (digits : All IsDigit ds) (len : length ds ≡ k + suc r) where
  behind-lt : value (drop k ds) < 10 ^ suc r
  behind-lt =
      let n : length (drop k ds) ≡ suc r =
        ap length (drop-get_or k ds (omega (arith, len))) ∙ ap suc (length-drop-suc k r ds len) in
      rw n at (value-lt (drop k ds) (drop-IsDigit k ds digits))

  quotient : value ds / 10 ^ suc r ≡ value (take k ds)
  quotient = rw (value-split k (suc r) ds len) (
      mul-add-div_right (one-le-pow (suc r) 10 (omega arith)) _ _
      ∙ let z : value (drop k ds) / 10 ^ suc r ≡ 0 = div-eq_of_lt behind-lt in omega (arith, z))

  remainder : value ds % 10 ^ suc r ≡ value (drop k ds)
  remainder =
      let swap : value ds ≡ value (drop k ds) + value (take k ds) * 10 ^ suc r =
        omega (arith, value-split k (suc r) ds len) in
      rw swap (
        add-mul-mod_self_right (value (drop k ds)) (value (take k ds)) (10 ^ suc r)
        ∙ mod-eq_of_lt behind-lt)

  decision :
      (mode : TextNumberRoundingMode) (negative : Bool)
      → fraction_round_increments
          (get_or ds k 0)
          (drop (k + 1) ds)
          mode
          (if ltb 0 k then get_or ds (k - 1) 0 else 0)
          negative
        ≡ cut_rounds_up mode negative (value ds / 10 ^ suc r) (value ds % 10 ^ suc r) (10 ^ suc r)
  decision mode negative =
      fraction_round_increments-cut mode negative _ (get_or ds k 0) (drop (k + 1) ds)
        (get_or-IsDigit k ds digits) (drop-IsDigit (k + 1) ds digits)
      ∙ rw
          (← drop-get_or k ds (omega (arith, len)), length-drop-suc k r ds len, quotient, remainder)
          (cut_rounds_up-parity mode negative _ _ _ _ (parity k ds (omega (arith, len))))

-- The number `n` with the sign, in at most `max_frac` digits behind the point.
pub record Represents (negative : Bool) (n max_frac : ℕ) (r : Decimal) : Type 0 where
  pub sign : r.negative ≡ negative
  pub scale : r.scale ≤ max_frac
  pub number : value r.digits * 10 ^ (max_frac - r.scale) ≡ n

-- The digits that are cut off, as a unit: ten to the power of their number.
pub cut_unit : Decimal → ℕ → ℕ
cut_unit d max_frac = 10 ^ (d.scale - max_frac)

-- The digits as a number, cut at `max_frac` digits behind the point and rounded as the mode decides.
pub cut_number : Decimal → ℕ → TextNumberRoundingMode → ℕ
unfolding cut_unit
cut_number d max_frac mode =
    let n = value d.digits in
    let unit = cut_unit d max_frac in
    n / unit + (if cut_rounds_up mode d.negative (n / unit) (n % unit) unit then 1 else 0)

value-rounded_digits :
    (d : Decimal) (k r : ℕ) (mode : TextNumberRoundingMode)
    → All IsDigit d.digits
    → length d.digits ≡ k + suc r
    → value (rounded_digits d k mode)
      ≡ value d.digits / 10 ^ suc r
        + (if cut_rounds_up mode d.negative
              (value d.digits / 10 ^ suc r)
              (value d.digits % 10 ^ suc r)
              (10 ^ suc r)
            then 1
            else 0)
unfolding rounded_digits
value-rounded_digits d k r mode digits len =
    let dec = decision k r d.digits digits len mode d.negative in
    rw dec
      (elim (Bool-cases (
        cut_rounds_up mode d.negative (value d.digits / 10 ^ suc r) (value d.digits % 10 ^ suc r)
          (10 ^ suc r))) [
            | inl up ↦
                rw (up, quotient k r d.digits digits len)
                  (carry_digits-value (take k d.digits)
                    (All-reverse _ (take-IsDigit k d.digits digits)))
            | inr down ↦ rw (down, quotient k r d.digits digits len) (omega arith)
          ])

-- A number of decimal digits that reach the point, more than `max_frac` of them behind it, is cut
-- there and rounded as the mode decides, with the sign kept and no more than `max_frac` digits behind
-- the point.
pub round_to_max_fraction_digits-Represents :
    (d : Decimal) (max_frac : ℕ) (mode : TextNumberRoundingMode)
    → All IsDigit d.digits
    → d.scale ≤ length d.digits
    → max_frac < d.scale
    → Represents d.negative
        (cut_number d max_frac mode)
        max_frac
        (round_to_max_fraction_digits d max_frac mode)
unfolding round_to_max_fraction_digits cut_number cut_unit
round_to_max_fraction_digits-Represents d max_frac mode digits some_whole more =
    let k = length d.digits - d.scale + max_frac in
    let r = d.scale - max_frac - 1 in
    let len : length d.digits ≡ k + suc r = omega arith in
    let unit : d.scale - max_frac ≡ suc r = omega arith in
    let t1 : leb d.scale max_frac ≡ false = ground arith in
    let t2 : leb (length d.digits) k ≡ false = ground arith in
    let kept =
      trim_trailing_zeros-IsReduced
        (record d { digits = rounded_digits d k mode; scale = max_frac }) in
    rw (t1, t2)
      (record {
        sign = kept.sign;
        scale = kept.scale;
        number = sym kept.number ∙ rw unit (value-rounded_digits d k r mode digits len);
      })

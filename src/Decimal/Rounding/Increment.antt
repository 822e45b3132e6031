-- ===== src/Decimal/Rounding/Increment.antt =====
-- Rounding to a multiple: `apply_rounding_increment_to_decimal` of
-- dfdl-vm/src/vm/text_number_format/rounding.rs in numbers.
use aitest.Prelude.{
  ℕ, ◌+◌, ◌-◌, ◌*◌, ◌/◌, ◌%◌, ◌^◌, ◌≤◌, ◌<◌, max, ◌≡◌, refl, sym, ap, ◌∙◌, arith, Bool, false, List,
  [], ◌∷◌, length, All, if◌then◌else◌, Bool-cases, inl, inr,
}
use aitest.Schema.{TextNumberRoundingMode}
use aitest.Magnitude.{value, all_zero, div_mod_mag, mul_mags, add_mag}
use aitest.Magnitude.Value.{IsDigit, add_mag-value}
use aitest.Magnitude.Compare.{IsTrimmed, add_mag-IsTrimmed}
use aitest.Magnitude.Divide.{IsDivision, div_mod_mag-IsDivision, value-one_digit}
use aitest.Magnitude.Multiply.{exact_product, mul_mags-product}
use aitest.Decimal.{Decimal, scaled_integer, from_scaled_integer}
use aitest.Decimal.Value.{trim_trailing_zeros-IsReduced}
use aitest.Decimal.Scaled.{value-scaled_integer, scaled_integer-IsTrimmed}
use aitest.Decimal.Rounding.{last_or_zero, should_round_up, round_units, apply_increment}
use aitest.Decimal.Rounding.Modes.{
  unit_rounds_up, unit_rounds_up-parity, should_round_up-unit, all_zero-==,
}
use aitest.Decimal.Rounding.Fraction.{Represents}
use native.Mathlib.Nat.{
  pow-suc, mul-add-div_right, add-mul-mod_self_right, div-eq_of_lt, mod-eq_of_lt,
}

-- The last digit has the parity of the number.
last_or_zero-parity : (ds : List ℕ) → last_or_zero ds % 2 ≡ value ds % 2
unfolding last_or_zero value
last_or_zero-parity [] = refl
last_or_zero-parity (d ∷ []) = let e : d * 1 + 0 ≡ d = omega arith in rw e
last_or_zero-parity (d ∷ e ∷ ds) =
    omega (arith, last_or_zero-parity (e ∷ ds), ap (λ (t : ℕ). d * t) (pow-suc 10 (length ds)))

-- The values of a division.
module _ (n : ℕ) (d : List ℕ) (result : List ℕ × List ℕ) (h : IsDivision n d result) where
  quotient_value : value result.0 ≡ n / value d
  quotient_value = sym (
      ap (λ (t : ℕ). t / value d) (sym h.whole)
      ∙ mul-add-div_right (omega (arith, h.below)) (value result.0) (value result.1)
      ∙ let z : value result.1 / value d ≡ 0 = div-eq_of_lt h.below in omega (arith, z))

  remainder_value : value result.1 ≡ n % value d
  remainder_value = sym (
      ap (λ (t : ℕ). t % value d)
        (sym h.whole
          ∙ let swap : value result.0 * value d + value result.1
                ≡ value result.1 + value result.0 * value d =
              omega arith in
            swap)
      ∙ add-mul-mod_self_right (value result.1) (value result.0) (value d)
      ∙ mod-eq_of_lt h.below)

-- The units: the quotient, and one more where the mode rounds up.
unfoldable pub rounded_units : TextNumberRoundingMode → Bool → ℕ → ℕ → ℕ
rounded_units mode negative n unit =
    n / unit + (if unit_rounds_up mode negative (n / unit) (n % unit) unit then 1 else 0)

-- Whether the quotient is rounded up.
up : List ℕ → List ℕ → TextNumberRoundingMode → Bool → Bool
up v i mode negative =
    let result = div_mod_mag v i in
    should_round_up (result.1) i mode negative (last_or_zero (result.0))

module _ (v i : List ℕ) (mode : TextNumberRoundingMode) (negative : Bool) (hv : IsTrimmed v)
    (hi : IsTrimmed i) (positive : 1 ≤ value i) where
  up-unit :
      up v i mode negative
      ≡ unit_rounds_up mode negative (value v / value i) (value v % value i) (value i)
  unfolding up
  up-unit =
      let division = div_mod_mag-IsDivision v i hv hi positive in
      let result = div_mod_mag v i in
      should_round_up-unit (result.1) i mode negative (last_or_zero (result.0)) division.remainder
        hi
      ∙ unit_rounds_up-parity mode negative (last_or_zero (result.0)) (value (result.0))
          (value (result.1)) (value i) (last_or_zero-parity (result.0))
      ∙ rw (quotient_value (value v) i result division, remainder_value (value v) i result division)
          refl

  value-round_units :
      value (round_units v i mode negative) ≡ rounded_units mode negative (value v) (value i)
  unfolding round_units rounded_units up
  value-round_units =
      let division = div_mod_mag-IsDivision v i hv hi positive in
      let result = div_mod_mag v i in
      let q = quotient_value (value v) i result division in
      rw (← up-unit) (elim (Bool-cases (up v i mode negative)) [
        | inl more ↦
            let sum : value (add_mag (result.0) (1 ∷ [])) ≡ value (result.0) + value (1 ∷ []) =
              add_mag-value (result.0) (1 ∷ []) division.quotient.digits (omega arith, tt) in
            rw (round_units, more) (sum ∙ omega (arith, q, value-one_digit 1))
        | inr kept ↦ rw (round_units, kept) (q ∙ omega arith)
      ])

  round_units-IsDigit : All IsDigit (round_units v i mode negative)
  unfolding round_units up
  round_units-IsDigit = elim (Bool-cases (up v i mode negative)) [
    | inl more ↦ rw (round_units, more) ((add_mag-IsTrimmed ((div_mod_mag v i).0) (1 ∷ [])).digits)
    | inr kept ↦
        rw (round_units, kept) ((div_mod_mag-IsDivision v i hv hi positive).quotient.digits)
  ]

some_value : (ds : List ℕ) → 1 ≤ value ds → all_zero ds ≡ false
some_value ds h = all_zero-== ds ∙ ground arith

-- Both numbers at the larger scale.
unfoldable pub at_larger_scale : Decimal → Decimal → ℕ
at_larger_scale d inc = value d.digits * 10 ^ (max d.scale inc.scale - d.scale)

-- A number rounded to a multiple of an increment that is not zero: the multiple of the increment that
-- the mode chooses, at the larger of the two scales, with the sign kept. The digits of both reach the
-- point, and the increment and the result at that scale fit a `u128`.
pub apply_increment-Represents :
    (d inc : Decimal) (mode : TextNumberRoundingMode)
    → All IsDigit d.digits
    → All IsDigit inc.digits
    → d.scale ≤ length d.digits
    → inc.scale ≤ length inc.digits
    → 1 ≤ at_larger_scale inc d
    → at_larger_scale inc d < 2 ^ 128
    → rounded_units mode d.negative (at_larger_scale d inc) (at_larger_scale inc d)
        * at_larger_scale inc d
      < 2 ^ 128
    → Represents d.negative
        (rounded_units mode d.negative (at_larger_scale d inc) (at_larger_scale inc d)
          * at_larger_scale inc d)
        (max d.scale inc.scale)
        (apply_increment d inc mode)
unfolding apply_increment at_larger_scale from_scaled_integer
apply_increment-Represents d inc mode dd id some_d some_i positive fits room =
    let t = max d.scale inc.scale in
    let swap : max inc.scale d.scale ≡ t = ground arith in
    let v = scaled_integer d t in
    let i = scaled_integer inc t in
    let ev : value v ≡ at_larger_scale d inc = value-scaled_integer d t some_d (ground arith) in
    let ei : value i ≡ at_larger_scale inc d =
      value-scaled_integer inc t some_i (ground arith) ∙ rw swap refl in
    let hv = scaled_integer-IsTrimmed d t some_d (ground arith) dd in
    let hi = scaled_integer-IsTrimmed inc t some_i (ground arith) id in
    let some_i_value : 1 ≤ value i = rw ei positive in
    let units = value-round_units v i mode d.negative hv hi some_i_value in
    let result : value (mul_mags (round_units v i mode d.negative) i)
        ≡ value (round_units v i mode d.negative) * value i =
      mul_mags-product (round_units v i mode d.negative)
        (round_units-IsDigit v i mode d.negative hv hi some_i_value) i
      ∙ exact_product (value (round_units v i mode d.negative)) (value i) i some_i_value
          (rw ei fits) (rw (units, ev, ei) room) in
    let kept = trim_trailing_zeros-IsReduced (record {
      negative = d.negative;
      digits = mul_mags (round_units v i mode d.negative) i;
      scale = t;
    }) in
    rw (some_value i some_i_value) (record {
      sign = kept.sign;
      scale = kept.scale;
      number = sym kept.number ∙ result ∙ rw (units, ev, ei) refl;
    })

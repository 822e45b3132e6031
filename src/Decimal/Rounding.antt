-- ===== src/Decimal/Rounding.antt =====
-- Rounding: dfdl-vm/src/vm/text_number_format/rounding.rs, and `should_round_up` of decimal.rs
-- beside it.
pub mod Increment
pub mod Modes
pub mod Fraction
use aitest.Prelude.{
  ℕ, zero, suc, ◌+◌, ◌-◌, ◌*◌, ◌/◌, ◌%◌, ◌^◌, max, Bool, true, false, not, ◌&&◌, ◌||◌, List, [],
  ◌∷◌, ◌++◌, reverse, length, take, drop, get_or, ltb, leb, ◌==◌, if◌then◌else◌,
}
use aitest.Error.{Result, ok, err, panics, ◌>>=◌}
use aitest.Schema.{
  TextNumberRoundingMode, round_ceiling, round_floor, round_down, round_up, round_half_even,
  round_half_down, round_half_up, round_unnecessary,
}
use aitest.Text.{Text}
use aitest.Magnitude.{strip, all_zero, double_mag, cmp_mag, add_mag, div_mod_mag, mul_mags}
use aitest.Decimal.{Decimal, trim_trailing_zeros, scaled_integer, from_scaled_integer}
use aitest.Decimal.Parse.{parse_mantissa_decimal}
use Prim.Native.Nat.{Ordering}

unfoldable pub is_equal : Ordering → Bool
is_equal Ordering.lt = false
is_equal Ordering.eq = true
is_equal Ordering.gt = false

unfoldable pub is_greater : Ordering → Bool
is_greater Ordering.lt = false
is_greater Ordering.eq = false
is_greater Ordering.gt = true

-- The decision on a remainder that is not zero.
unfoldable pub rounds_up : Bool → Bool → TextNumberRoundingMode → Bool → ℕ → Bool
rounds_up is_half gt_half round_unnecessary negative quotient_last = false
rounds_up is_half gt_half round_up negative quotient_last = not negative
rounds_up is_half gt_half round_down negative quotient_last = negative
rounds_up is_half gt_half round_ceiling negative quotient_last = not negative
rounds_up is_half gt_half round_floor negative quotient_last = negative
rounds_up is_half gt_half round_half_up negative quotient_last = gt_half || is_half
rounds_up is_half gt_half round_half_down negative quotient_last = gt_half
rounds_up is_half gt_half round_half_even negative quotient_last =
    if gt_half then true else if is_half then quotient_last % 2 == 1 else false

unfoldable pub should_round_up : List ℕ → List ℕ → TextNumberRoundingMode → Bool → ℕ → Bool
unfolding is_equal is_greater rounds_up
should_round_up rem divisor mode negative quotient_last =
    let cmp = cmp_mag (double_mag rem) divisor in
    if all_zero rem
    then false
    else rounds_up (is_equal cmp) (is_greater cmp) mode negative quotient_last

-- `last().unwrap_or(&0)`
unfoldable pub last_or_zero : List ℕ → ℕ
last_or_zero [] = 0
last_or_zero (d ∷ []) = d
last_or_zero (d ∷ e ∷ ds) = last_or_zero (e ∷ ds)

-- The quotient of the scaled magnitudes, rounded.
unfoldable pub round_units : List ℕ → List ℕ → TextNumberRoundingMode → Bool → List ℕ
unfolding last_or_zero
round_units v_mag i_mag mode negative =
    let (q, rem) = div_mod_mag v_mag i_mag in
    if should_round_up rem i_mag mode negative (last_or_zero q) then add_mag q (1 ∷ []) else q

unfoldable pub apply_increment : Decimal → Decimal → TextNumberRoundingMode → Decimal
unfolding round_units
apply_increment d inc mode =
    let target_scale = max d.scale inc.scale in
    let v_mag = scaled_integer d target_scale in
    let i_mag = scaled_integer inc target_scale in
    if all_zero i_mag
    then d
    else from_scaled_integer (mul_mags (round_units v_mag i_mag mode d.negative) i_mag) target_scale
        d.negative

unfoldable pub is_no_increment : Text → Bool
is_no_increment [] = true
is_no_increment (c ∷ []) = c == b'0'
is_no_increment _ = false

unfoldable pub apply_rounding_increment_to_decimal :
    Decimal → Text → TextNumberRoundingMode → Result Decimal
unfolding apply_increment is_no_increment
apply_rounding_increment_to_decimal d increment mode =
    if is_no_increment increment
    then ok d
    else (parse_mantissa_decimal increment >>= λ inc. ok (apply_increment d inc mode))

unfoldable pub fraction_round_increments : ℕ → List ℕ → TextNumberRoundingMode → ℕ → Bool → Bool
fraction_round_increments round_digit tail round_unnecessary q_last negative = false
fraction_round_increments round_digit tail round_up q_last negative = not negative
fraction_round_increments round_digit tail round_down q_last negative = negative
fraction_round_increments round_digit tail round_ceiling q_last negative = not negative
fraction_round_increments round_digit tail round_floor q_last negative = negative
fraction_round_increments round_digit tail round_half_up q_last negative =
    ltb 5 round_digit || round_digit == 5 && not (all_zero tail)
fraction_round_increments round_digit tail round_half_down q_last negative = ltb 5 round_digit
fraction_round_increments round_digit tail round_half_even q_last negative =
    ltb 5 round_digit || round_digit == 5 && (not (all_zero tail) || q_last % 2 == 1)

-- The carry from the last digit, on the reversed digits; a carry out of the first is a new digit 1.
unfoldable pub carry_digits : List ℕ → ℕ → List ℕ
carry_digits [] carry = if ltb 0 carry then 1 ∷ [] else []
carry_digits (d ∷ ds) carry =
    let sum = d + carry in
    let rest = carry_digits ds (sum / 10) in
    if sum / 10 == 0 then sum % 10 ∷ ds else sum % 10 ∷ rest

-- The digits up to the index, and one more in the last place where the rest rounds up.
unfoldable pub rounded_digits : Decimal → ℕ → TextNumberRoundingMode → List ℕ
unfolding fraction_round_increments carry_digits
rounded_digits d round_idx mode =
    let new_digits = take round_idx d.digits in
    let q_last = if ltb 0 round_idx then get_or d.digits (round_idx - 1) 0 else 0 in
    if fraction_round_increments (get_or d.digits round_idx 0) (drop (round_idx + 1) d.digits) mode
      q_last d.negative
    then reverse (carry_digits (reverse new_digits) 1)
    else new_digits

unfoldable pub round_to_max_fraction_digits : Decimal → ℕ → TextNumberRoundingMode → Decimal
unfolding rounded_digits
round_to_max_fraction_digits d max_frac mode =
    let round_idx = length d.digits - d.scale + max_frac in
    if leb d.scale max_frac
    then d
    else if leb (length d.digits) round_idx
    then record d { scale = max_frac }
    else trim_trailing_zeros
        (record d { digits = rounded_digits d round_idx mode; scale = max_frac })

unfoldable pub trim_insignificant_fraction : Decimal → Decimal
trim_insignificant_fraction d = trim_trailing_zeros d

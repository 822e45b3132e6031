-- ===== src/Runs/Decimals.antt =====
-- Runs of the decimal numbers, their rounding, and of zoned text.
use aitest.Prelude.{ℕ, ◌+◌, ◌*◌, ◌≡◌, refl, arith, false, List, [], ◌∷◌, ◌++◌}
use aitest.Schema.{round_half_even, round_half_up}
use aitest.Error.{ok}
use aitest.Text.{trim, is_whitespace, all_digits, split_once, parse_rounds, trim_start_zeros}
use aitest.Magnitude.{value, strip, or_zero, all_zero}
use aitest.Magnitude.Compare.{IsTrimmed}
use aitest.Decimal.{Decimal, decimal_to_string, trim_trailing_zeros, pop_zeros}
use aitest.Decimal.Parse.{parse_decimal_value, parse_mantissa_decimal}
use aitest.Decimal.Rounding.{apply_increment, should_round_up, round_to_max_fraction_digits}
use aitest.Decimal.Rounding.Modes.{unit_rounds_up, should_round_up-unit}
use aitest.Decimal.Rounding.Fraction.{
  Represents, cut_number, round_to_max_fraction_digits-Represents,
}
use aitest.Decimal.Rounding.Increment.{rounded_units, at_larger_scale, apply_increment-Represents}
use aitest.Decimal.Value.{IsReduced, trim_trailing_zeros-IsReduced}
use aitest.Zoned.{zoned_to_number, at_end, ebcdic}
use aitest.Zoned.Overpunch.{plus_over, is_negative, signed_digit, signed, zoned_to_number-at_end}

-- 2.345, which is half way at two digits behind the point.
abbrev half_way : Decimal
half_way = record { negative = false; digits = 2 ∷ 3 ∷ 4 ∷ 5 ∷ []; scale = 3 }

-- 5E-2 is read as the digit 5 at scale 2, which is printed as 0.5.
small_exponent :
    (parse_decimal_value (b'5' ∷ b'E' ∷ b'-' ∷ b'2' ∷ [])
      ≡ ok (record { negative = false; digits = 5 ∷ []; scale = 2 }))
    × (decimal_to_string (record { negative = false; digits = 5 ∷ []; scale = 2 })
        ≡ b'0' ∷ b'.' ∷ b'5' ∷ [])
unfolding parse_decimal_value decimal_to_string parse_mantissa_decimal trim_trailing_zeros or_zero
    pop_zeros strip trim is_whitespace all_digits split_once parse_rounds trim_start_zeros
small_exponent = (refl, refl)

half_way_cut :
    round_to_max_fraction_digits half_way 2 round_half_up
    ≡ record { negative = false; digits = 2 ∷ 3 ∷ 4 ∷ []; scale = 2 }
unfolding round_to_max_fraction_digits trim_trailing_zeros or_zero pop_zeros all_zero
half_way_cut = refl

round_to_max_fraction_digits-Represents_example :
    Represents false
      (cut_number half_way 2 round_half_even)
      2
      (round_to_max_fraction_digits half_way 2 round_half_even)
round_to_max_fraction_digits-Represents_example =
    round_to_max_fraction_digits-Represents half_way 2 round_half_even
      (omega arith, (omega arith, (omega arith, (omega arith, tt)))) (omega arith) (omega arith)

-- 0.05
abbrev twentieth : Decimal
twentieth = record { negative = false; digits = 0 ∷ 5 ∷ []; scale = 2 }

apply_increment-Represents_example :
    Represents false
      (rounded_units round_half_even false
          (at_larger_scale half_way twentieth)
          (at_larger_scale twentieth half_way)
        * at_larger_scale twentieth half_way)
      3
      (apply_increment half_way twentieth round_half_even)
unfolding at_larger_scale rounded_units unit_rounds_up value
apply_increment-Represents_example =
    apply_increment-Represents half_way twentieth round_half_even
      (omega arith, (omega arith, (omega arith, (omega arith, tt))))
      (omega arith, (omega arith, tt)) (omega arith) (omega arith) (omega arith) (omega arith)
      (omega arith)

trim_trailing_zeros-IsReduced_example : IsReduced half_way (trim_trailing_zeros half_way)
trim_trailing_zeros-IsReduced_example = trim_trailing_zeros-IsReduced half_way

abbrev five : List ℕ
five = 5 ∷ []

abbrev ten : List ℕ
ten = 1 ∷ 0 ∷ []

five-IsTrimmed : IsTrimmed five
five-IsTrimmed = record {
  digits = (omega arith, tt);
  some_digit = omega arith;
  leading = λ two. absurd (omega (arith, two));
}

ten-IsTrimmed : IsTrimmed ten
unfolding value
ten-IsTrimmed = record {
  digits = (omega arith, (omega arith, tt));
  some_digit = omega arith;
  leading = λ _. omega arith;
}

-- 0.05 to one digit behind the point: no digit is cut off, and the number becomes 0.5.
tenfold :
    round_to_max_fraction_digits
      (record { negative = false; digits = 5 ∷ []; scale = 2 })
      1
      round_half_even
    ≡ record { negative = false; digits = 5 ∷ []; scale = 1 }
unfolding round_to_max_fraction_digits
tenfold = refl

should_round_up-unit_example :
    should_round_up five ten round_half_even false 3
    ≡ unit_rounds_up round_half_even false 3 (value five) (value ten)
should_round_up-unit_example =
    should_round_up-unit five ten round_half_even false 3 five-IsTrimmed ten-IsTrimmed

zoned_to_number-at_end_example :
    zoned_to_number ((b'1' ∷ b'2' ∷ []) ++ signed_digit ebcdic plus_over 7 ∷ []) ebcdic at_end
    ≡ ok (signed (is_negative plus_over) ((b'1' ∷ b'2' ∷ []) ++ (b'0' + 7) ∷ []))
zoned_to_number-at_end_example =
    zoned_to_number-at_end ebcdic plus_over (b'1' ∷ b'2' ∷ []) 7 (omega arith)

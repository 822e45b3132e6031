-- ===== src/Runs/Numbers.antt =====
-- Runs of the packed numbers and of the magnitudes.
use aitest.Prelude.{
  ℕ, ◌+◌, ◌-◌, ◌*◌, ◌%◌, ◌^◌, ◌≡◌, refl, arith, true, false, not, ◌&&◌, ◌==◌, List, [], ◌∷◌,
}
use aitest.Schema.{strict, lax}
use aitest.Error.{ok, err, ◌>>=◌, invalid_value, invalid_sign_nibble}
use aitest.Text.{contains, u64_to_string, fit_width}
use aitest.Text.Decimal.{padded}
use aitest.Packed.{
  codes_for, parse, bcd_to_digit_string, packed_to_digit_string, ibm4690_to_digit_string,
  order_bytes,
}
use aitest.Packed.Encode.{
  encode_packed_bcd_magnitude, encode_ibm4690_magnitude, u64_to_bcd_bytes, digits_to_u64,
  sign_nibble, sign_byte, pack_rounds,
}
use aitest.Packed.Ibm4690.{ibm4690_to_digit_string-encode_ibm4690_magnitude}
use aitest.Packed.Nibbles.{sign_width}
use aitest.Packed.RoundTrip.{
  bcd_to_digit_string-u64_to_bcd_bytes, packed_to_digit_string-encode_packed_bcd_magnitude,
  digits_to_u64-padded,
}
use aitest.Magnitude.{
  value, add_mag, sub_mag, cmp_mag, div_mod_mag, mul_mags, strip, or_zero, add_rounds, carry_rounds,
  sub_rounds,
}
use aitest.Magnitude.Value.{add_mag-value, sub_mag-value}
use aitest.Magnitude.Compare.{IsTrimmed, cmp_mag-compare}
use aitest.Magnitude.Divide.{IsDivision, div_mod_mag-IsDivision}
use aitest.Magnitude.Multiply.{product, mul_mags-product}
use Prim.Native.Nat.{compare}

codes_of_text :
    parse (b'C' ∷ b' ' ∷ b'D' ∷ b'F' ∷ b'C' ∷ []) strict ≡ ok (codes_for strict 0x0c 0x0d 0x0f 0x0c)
unfolding parse codes_for
codes_of_text = refl

packed_bytes :
    encode_packed_bcd_magnitude 123 true 3 false (codes_for strict 0x0c 0x0d 0x0f 0x0c)
    ≡ ok (0x00 ∷ 0x12 ∷ 0x3d ∷ [])
unfolding encode_packed_bcd_magnitude codes_for u64_to_string fit_width pack_rounds sign_byte
    sign_nibble order_bytes
packed_bytes = refl

no_sign :
    packed_to_digit_string (0x12 ∷ 0x34 ∷ []) false (codes_for strict 0x0c 0x0d 0x0f 0x0c)
    ≡ err (invalid_value (invalid_sign_nibble 4))
unfolding packed_to_digit_string codes_for
no_sign = refl

bcd_to_digit_string-u64_to_bcd_bytes_example :
    (u64_to_bcd_bytes 12345 2 true >>= λ bytes. bcd_to_digit_string bytes true)
    ≡ ok (padded (2 * 2) 12345)
bcd_to_digit_string-u64_to_bcd_bytes_example =
    bcd_to_digit_string-u64_to_bcd_bytes 12345 2 true (omega arith)

packed_to_digit_string-encode_packed_bcd_magnitude_example :
    (encode_packed_bcd_magnitude 123 true 3 true (codes_for lax 0x0c 0x0d 0x0f 0x0c) >>= λ bytes.
    packed_to_digit_string bytes true (codes_for lax 0x0c 0x0d 0x0f 0x0c))
    ≡ ok (true && not (123 == 0), padded (3 * 2 - 1) 123)
unfolding contains codes_for
packed_to_digit_string-encode_packed_bcd_magnitude_example =
    packed_to_digit_string-encode_packed_bcd_magnitude lax 0x0c 0x0d 0x0f 0x0c (omega arith)
      (omega arith) (omega arith) refl refl 123 true 2 true (omega arith)

ibm4690_to_digit_string-encode_ibm4690_magnitude_example :
    (encode_ibm4690_magnitude 123 true 3 true >>= λ bytes. ibm4690_to_digit_string bytes true)
    ≡ ok (true, padded (3 * 2) 123)
unfolding sign_width
ibm4690_to_digit_string-encode_ibm4690_magnitude_example =
    ibm4690_to_digit_string-encode_ibm4690_magnitude 123 true 2 true (omega arith) (omega arith)

digits_to_u64-padded_example : digits_to_u64 (padded 5 42) ≡ ok (42 % 10 ^ 5)
digits_to_u64-padded_example = digits_to_u64-padded 5 42 (omega arith)

carries : add_mag (9 ∷ 9 ∷ []) (1 ∷ []) ≡ 1 ∷ 0 ∷ 0 ∷ []
unfolding add_mag strip or_zero add_rounds carry_rounds
carries = refl

borrows : sub_mag (1 ∷ 0 ∷ 0 ∷ []) (1 ∷ []) ≡ 9 ∷ 9 ∷ []
unfolding sub_mag strip sub_rounds
borrows = refl

abbrev ninety_nine : List ℕ
ninety_nine = 9 ∷ 9 ∷ []

abbrev seven : List ℕ
seven = 7 ∷ []

ninety_nine-IsTrimmed : IsTrimmed ninety_nine
unfolding value
ninety_nine-IsTrimmed = record {
  digits = (omega arith, (omega arith, tt));
  some_digit = omega arith;
  leading = λ _. omega arith;
}

seven-IsTrimmed : IsTrimmed seven
seven-IsTrimmed = record {
  digits = (omega arith, tt);
  some_digit = omega arith;
  leading = λ two. absurd (omega (arith, two));
}

add_mag-value_example : value (add_mag ninety_nine seven) ≡ value ninety_nine + value seven
add_mag-value_example =
    add_mag-value ninety_nine seven (ninety_nine-IsTrimmed.digits) (seven-IsTrimmed.digits)

sub_mag-value_example : value (sub_mag ninety_nine seven) + value seven ≡ value ninety_nine
unfolding value
sub_mag-value_example =
    sub_mag-value ninety_nine seven (ninety_nine-IsTrimmed.digits) (seven-IsTrimmed.digits)
      (omega arith) (omega arith)

cmp_mag-compare_example : cmp_mag ninety_nine seven ≡ compare (value ninety_nine) (value seven)
cmp_mag-compare_example = cmp_mag-compare ninety_nine seven ninety_nine-IsTrimmed seven-IsTrimmed

div_mod_mag-IsDivision_example :
    IsDivision (value ninety_nine) seven (div_mod_mag ninety_nine seven)
unfolding value
div_mod_mag-IsDivision_example =
    div_mod_mag-IsDivision ninety_nine seven ninety_nine-IsTrimmed seven-IsTrimmed (omega arith)

mul_mags-product_example :
    value (mul_mags ninety_nine seven) ≡ product (value ninety_nine) (value seven) seven
mul_mags-product_example = mul_mags-product ninety_nine (ninety_nine-IsTrimmed.digits) seven

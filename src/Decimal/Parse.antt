-- ===== src/Decimal/Parse.antt =====
-- The text of a decimal number: `parse_mantissa_decimal` and `parse_decimal_value` of
-- dfdl-vm/src/vm/text_number_format/decimal.rs.
use aitest.Prelude.{
  ℕ, ◌+◌, ◌-◌, ◌^◌, Bool, true, false, not, ◌&&◌, ◌||◌, [], ◌∷◌, ◌++◌, map, length, replicate, ltb,
  leb, ◌==◌, if◌then◌else◌, Option, none, some,
}
use aitest.Error.{
  Result, ok, err, panics, ◌>>=◌, invalid_value, empty_decimal, invalid_decimal, invalid_exponent,
}
use aitest.Text.{Text, trim, trim_start_zeros, split_once, all_digits, parse_rounds, behind}
use aitest.Magnitude.{or_zero}
use aitest.Decimal.{Decimal, trim_trailing_zeros, parts}

-- The sign in front of a text, if any, and the rest.
unfoldable pub sign_and_rest : Text → Bool × Text
sign_and_rest [] = (false, [])
sign_and_rest (c ∷ s) =
    if c == b'-' then (true, s) else if c == b'+' then (false, s) else (false, c ∷ s)

unfoldable pub mantissa : Bool → Text × Text → Result Decimal
mantissa negative (whole, part) =
    if not (all_digits whole) || not (all_digits part)
    then err (invalid_value invalid_decimal)
    else ok (
        trim_trailing_zeros (record {
          negative = negative;
          digits = or_zero (
              map (λ (b : ℕ). b - b'0') (trim_start_zeros whole) ++ map (λ (b : ℕ). b - b'0') part);
          scale = length part;
        }))

unfoldable pub parse_mantissa_decimal : Text → Result Decimal
unfolding sign_and_rest mantissa parts
parse_mantissa_decimal raw =
    let s = trim raw in
    let (negative, work) = sign_and_rest s in
    if length s == 0
    then err (invalid_value empty_decimal)
    else mantissa negative (parts work (split_once b'.' work))

-- The text before and behind the first `E` or `e`.
unfoldable pub split_exponent : Text → Option (Text × Text)
unfolding behind
split_exponent [] = none
split_exponent (c ∷ s) =
    let rest = split_exponent s in if c == b'E' || c == b'e' then some ([], s) else behind c rest

-- `parse::<i32>`: whether the number is below 0, and its magnitude.
unfoldable pub i32_digits : Bool → Text → Option (Bool × ℕ)
i32_digits negative [] = none
i32_digits negative (c ∷ s) = elim (parse_rounds (c ∷ s) 0) [
  | none ↦ none
  | some n ↦
      if ltb n (if negative then 2 ^ 31 + 1 else 2 ^ 31)
      then some (negative && ltb 0 n, n)
      else none
]

unfoldable pub parse_i32 : Text → Option (Bool × ℕ)
unfolding sign_and_rest i32_digits
parse_i32 s = let (negative, work) = sign_and_rest s in i32_digits negative work

-- The point moves; `-exp_val` of the least `i32` is refused by the checked build.
unfoldable pub shift_point : Decimal → Bool × ℕ → Result Decimal
shift_point d (false, shift) =
    if leb d.scale shift
    then ok (record d { digits = d.digits ++ replicate (shift - d.scale) 0; scale = 0 })
    else ok (record d { scale = d.scale - shift })
shift_point d (true, shift) =
    if shift == 2 ^ 31 then panics else ok (record d { scale = d.scale + shift })

unfoldable pub with_exponent : Decimal → Option (Bool × ℕ) → Result Decimal
unfolding shift_point
with_exponent d none = err (invalid_value invalid_exponent)
with_exponent d (some e) = do shifted ← shift_point d e; ok (trim_trailing_zeros shifted)

-- The mantissa, with the sign in front of it again, and the exponent.
unfoldable pub decimal_value : Bool → Text → Option (Text × Text) → Result Decimal
unfolding parse_i32 with_exponent
decimal_value negative work none = parse_mantissa_decimal (if negative then b'-' ∷ work else work)
decimal_value negative work (some (mant, exp)) = do
  d ← parse_mantissa_decimal (if negative then b'-' ∷ mant else mant)
  with_exponent d (parse_i32 exp)

unfoldable pub parse_decimal_value : Text → Result Decimal
unfolding sign_and_rest split_exponent decimal_value
parse_decimal_value raw =
    let s = trim raw in
    let (negative, work) = sign_and_rest s in
    if length s == 0
    then err (invalid_value empty_decimal)
    else decimal_value negative work (split_exponent work)

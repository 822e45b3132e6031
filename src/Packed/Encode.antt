-- ===== src/Packed/Encode.antt =====
-- The encoders: `encode_packed_bcd_magnitude`, `encode_ibm4690_magnitude` and `digits_to_u64` of
-- dfdl-vm/src/vm/packed_decimal.rs, `u64_to_bcd_bytes` of dfdl-vm/src/vm/runtime/binary.rs.
use aitest.Prelude.{
  ℕ, zero, suc, ◌+◌, ◌-◌, ◌*◌, ◌%◌, ◌^◌, bit_or, Bool, ◌||◌, Option, none, some, List, [], ◌∷◌,
  ◌++◌, length, ltb, ◌==◌, if◌then◌else◌,
}
use aitest.Error.{
  Result, ok, err, panics, ◌>>=◌, VmError, invalid_value, zero_width_packed_bcd, zero_width_ibm4690,
  invalid_packed_bcd_digit, invalid_bcd_digit, invalid_ibm4690_digit, invalid_decimal_digits,
}
use aitest.Text.{Text, u64_to_string, trim_start_zeros, parse_u64_text, fit_width}
use aitest.Packed.{PackedSignCodes, order_bytes}

-- `digit - b'0'` on a `u8`, checked.
unfoldable pub digit_of : ℕ → Result ℕ
digit_of c = if ltb c b'0' then panics else ok (c - b'0')

unfoldable pub pair_byte : VmError → ℕ → ℕ → Result ℕ
pair_byte invalid hi lo =
    if ltb 9 hi || ltb 9 lo then err invalid else ok (bit_or (hi * 2 ^ 4 % 2 ^ 8) lo)

-- `left` bytes of two digits each, and the digits behind them. A digit that is missing is 0.
unfoldable pub pack_rounds : ℕ → Text → Result (List ℕ × Text)
unfolding digit_of pair_byte
pack_rounds zero digits = ok ([], digits)
pack_rounds (suc left) [] = panics
pack_rounds (suc left) (h ∷ []) = do
  hi ← digit_of h
  b ← pair_byte (invalid_value invalid_packed_bcd_digit) hi 0
  (bytes, rest) ← pack_rounds left []
  ok (b ∷ bytes, rest)
pack_rounds (suc left) (h ∷ l ∷ digits) = do
  hi ← digit_of h
  lo ← digit_of l
  b ← pair_byte (invalid_value invalid_packed_bcd_digit) hi lo
  (bytes, rest) ← pack_rounds left digits
  ok (b ∷ bytes, rest)

unfoldable pub first_or : ℕ → List ℕ → ℕ
first_or d [] = d
first_or d (x ∷ xs) = x

unfoldable pub sign_nibble : ℕ → Bool → PackedSignCodes → ℕ
unfolding first_or
sign_nibble magnitude negative codes =
    if magnitude == 0
    then first_or 0x0c codes.zero_sign
    else if negative
    then first_or 0x0d codes.negative
    else first_or 0x0c codes.positive

-- `bytes[width - 1] = (last_digit << 4) | sign` from the digit that is left.
unfoldable pub sign_byte : ℕ → Text → Result ℕ
unfolding digit_of
sign_byte sign [] = panics
sign_byte sign (c ∷ _) = do
  d ← digit_of c
  (if ltb 9 d
      then err (invalid_value invalid_packed_bcd_digit)
      else ok (bit_or (d * 2 ^ 4 % 2 ^ 8) sign))

unfoldable pub encode_packed_bcd_magnitude : ℕ → Bool → ℕ → Bool → PackedSignCodes → Result (List ℕ)
encode_packed_bcd_magnitude magnitude negative zero le codes =
    err (invalid_value zero_width_packed_bcd)
encode_packed_bcd_magnitude magnitude negative (suc w) le codes = do
  (bytes, rest) ← pack_rounds w (fit_width b'0' (suc w * 2 - 1) (u64_to_string magnitude))
  last ← sign_byte (sign_nibble magnitude negative codes) rest
  ok (order_bytes (bytes ++ last ∷ []) le)

-- The digits as nibbles, checked.
unfoldable pub digit_nibbles : Text → Result (List ℕ)
unfolding digit_of
digit_nibbles [] = ok []
digit_nibbles (c ∷ s) = do
  d ← digit_of c
  rest ← if ltb 9 d then err (invalid_value invalid_ibm4690_digit) else digit_nibbles s
  ok (d ∷ rest)

-- `chunks(2)` into bytes; a low nibble that is missing is 0x0f.
unfoldable pub nibble_bytes : List ℕ → List ℕ
nibble_bytes [] = []
nibble_bytes (h ∷ []) = bit_or (h * 2 ^ 4 % 2 ^ 8) 0x0f ∷ []
nibble_bytes (h ∷ l ∷ nibbles) = bit_or (h * 2 ^ 4 % 2 ^ 8) l ∷ nibble_bytes nibbles

unfoldable pub encode_ibm4690_magnitude : ℕ → Bool → ℕ → Bool → Result (List ℕ)
encode_ibm4690_magnitude magnitude negative zero le = err (invalid_value zero_width_ibm4690)
encode_ibm4690_magnitude magnitude negative (suc w) le = do
  digits ← digit_nibbles (u64_to_string magnitude)
  let nibbles = if negative then 0x0d ∷ digits else digits
  ok (order_bytes (nibble_bytes (fit_width 0x0f (suc w * 2) nibbles)) le)

-- `chunks(2)` into bytes with a check; a low digit that is missing is 0.
unfoldable pub chunk_bytes : Text → Result (List ℕ)
unfolding pair_byte
chunk_bytes [] = ok []
chunk_bytes (h ∷ []) = do
  b ← pair_byte (invalid_value invalid_bcd_digit) ((h + 2 ^ 8 - b'0') % 2 ^ 8) 0
  ok (b ∷ [])
chunk_bytes (h ∷ l ∷ digits) = do
  b ←
      pair_byte (invalid_value invalid_bcd_digit) ((h + 2 ^ 8 - b'0') % 2 ^ 8)
        ((l + 2 ^ 8 - b'0') % 2 ^ 8)
  rest ← chunk_bytes digits
  ok (b ∷ rest)

unfoldable pub u64_to_bcd_bytes : ℕ → ℕ → Bool → Result (List ℕ)
u64_to_bcd_bytes value width le = do
  bytes ← chunk_bytes (fit_width b'0' (width * 2) (u64_to_string value))
  ok (order_bytes bytes le)

unfoldable pub number_or : Text → Option ℕ → Result ℕ
number_or digits none = err (invalid_value (invalid_decimal_digits digits))
number_or digits (some n) = ok n

unfoldable pub digits_to_u64 : Text → Result ℕ
unfolding number_or
digits_to_u64 digits =
    let trimmed = trim_start_zeros digits in
    number_or digits (parse_u64_text (if length trimmed == 0 then b'0' ∷ [] else trimmed))

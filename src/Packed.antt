-- ===== src/Packed.antt =====
-- Packed, BCD and IBM 4690 decimal numbers: dfdl-vm/src/vm/packed_decimal.rs, and
-- `u64_to_bcd_bytes` of dfdl-vm/src/vm/runtime/binary.rs. Digits are the codes of their characters.
pub mod Nibbles
pub mod Encode
pub mod Pairs
pub mod RoundTrip
pub mod Ibm4690
use aitest.Prelude.{
  ℕ, zero, suc, ◌+◌, ◌-◌, ◌*◌, ◌/◌, ◌%◌, ◌^◌, bit_and, bit_or, Bool, true, false, ◌&&◌, ◌||◌, not,
  Option, none, some, List, [], ◌∷◌, ◌++◌, length, drop, reverse, ltb, leb, ◌==◌, if◌then◌else◌,
}
use aitest.Schema.{BinaryNumberCheckPolicy, strict, lax}
use aitest.Error.{
  Result, ok, err, panics, ◌>>=◌, VmError, invalid_value, sign_codes_length, invalid_sign_nibble,
  invalid_high_nibble, invalid_low_nibble, empty_packed_bcd, zero_width_packed_bcd,
  zero_width_ibm4690, invalid_packed_bcd_digit, invalid_bcd_digit, invalid_ibm4690_digit,
  invalid_decimal_digits,
}
use aitest.Text.{
  Text, contains, is_whitespace, is_ascii_digit, u64_to_string, trim_start_zeros, parse_u64_text,
  fit_width,
}

pub record PackedSignCodes : Type 0 where
  pub positive : List ℕ
  pub negative : List ℕ
  pub unsigned : List ℕ
  pub zero_sign : List ℕ

unfoldable pub compact : Text → Text
unfolding is_whitespace
compact [] = []
compact (c ∷ s) = if is_whitespace c then compact s else c ∷ compact s

-- `c as u8 - b'0'` or `c as u8 - 55`, checked.
unfoldable pub sign_code : ℕ → Result ℕ
sign_code c =
    if is_ascii_digit c
    then ok (c - b'0')
    else if ltb (c % 2 ^ 8) 55
    then panics
    else ok (c % 2 ^ 8 - 55)

unfoldable pub codes_for : BinaryNumberCheckPolicy → ℕ → ℕ → ℕ → ℕ → PackedSignCodes
codes_for strict p n u z = record {
  positive = p ∷ [];
  negative = n ∷ [];
  unsigned = u ∷ [];
  zero_sign = z ∷ [];
}
codes_for lax p n u z = record {
  positive = p ∷ 0x0a ∷ 0x0c ∷ 0x0e ∷ 0x0f ∷ [];
  negative = n ∷ 0x0b ∷ 0x0d ∷ [];
  unsigned = u ∷ 0x0f ∷ [];
  zero_sign = z ∷ 0x0a ∷ 0x0c ∷ 0x0e ∷ 0x0f ∷ 0x00 ∷ [];
}

unfoldable pub parse_four : Text → Text → BinaryNumberCheckPolicy → Result PackedSignCodes
unfolding sign_code codes_for
parse_four spec (c0 ∷ c1 ∷ c2 ∷ c3 ∷ []) policy = do
  p ← sign_code c0
  n ← sign_code c1
  u ← sign_code c2
  z ← sign_code c3
  ok (codes_for policy p n u z)
parse_four spec _ policy = err (invalid_value (sign_codes_length spec))

unfoldable pub parse : Text → BinaryNumberCheckPolicy → Result PackedSignCodes
unfolding compact parse_four
parse spec policy = parse_four spec (compact spec) policy

-- The answer is the `negative` flag that the source sets.
unfoldable pub sign_valid : PackedSignCodes → ℕ → Result Bool
unfolding contains
sign_valid codes nibble =
    if contains nibble codes.negative
    then ok true
    else if contains nibble codes.positive
        || contains nibble codes.unsigned
        || contains nibble codes.zero_sign
    then ok false
    else err (invalid_value (invalid_sign_nibble nibble))

unfoldable pub order_bytes : List ℕ → Bool → List ℕ
order_bytes bytes le = if le then reverse bytes else bytes

-- The two digits of a byte.
unfoldable pub byte_digits : ℕ → Result Text
byte_digits b =
    let hi = b / 2 ^ 4 in
    let lo = bit_and b 0x0f in
    if ltb 9 hi
    then err (invalid_value (invalid_high_nibble hi))
    else if ltb 9 lo
    then err (invalid_value (invalid_low_nibble lo))
    else ok ((b'0' + hi) ∷ (b'0' + lo) ∷ [])

unfoldable pub bytes_digits : List ℕ → Result Text
unfolding byte_digits
bytes_digits [] = ok []
bytes_digits (b ∷ bytes) = do ds ← byte_digits b; rest ← bytes_digits bytes; ok (ds ++ rest)

unfoldable pub bcd_to_digit_string : List ℕ → Bool → Result Text
unfolding order_bytes bytes_digits
bcd_to_digit_string bytes le = bytes_digits (order_bytes bytes le)

-- The bytes but the last, and the last.
unfoldable pub split_last : List ℕ → Option (List ℕ × ℕ)
split_last [] = none
split_last (b ∷ []) = some ([], b)
split_last (b ∷ c ∷ bytes) = elim (split_last (c ∷ bytes)) [
  | none ↦ none
  | some (front, last) ↦ some (b ∷ front, last)
]

unfoldable pub last_digit_string : ℕ → Text → Result Text
last_digit_string last out =
    if ltb 9 (last / 2 ^ 4)
    then err (invalid_value (invalid_high_nibble (last / 2 ^ 4)))
    else ok (out ++ (b'0' + last / 2 ^ 4) ∷ [])

unfoldable pub packed_to_digit_string : List ℕ → Bool → PackedSignCodes → Result (Bool × Text)
unfolding order_bytes split_last sign_valid bytes_digits last_digit_string
packed_to_digit_string bytes le codes = elim (split_last (order_bytes bytes le)) [
  | none ↦ err (invalid_value empty_packed_bcd)
  | some (front, last) ↦ do
    negative ← sign_valid codes (bit_and last 0x0f)
    out ← bytes_digits front
    digits ← last_digit_string last out
    ok (negative, digits)
]

-- The scan of IBM 4690 nibbles: `negative` and `in_digits`, and the digits so far.
pub record Scan : Type 0 where
  pub negative : Bool
  pub in_digits : Bool
  pub out : Text

unfoldable pub scan_nibble : (ℕ → VmError) → ℕ → Scan → Result Scan
scan_nibble invalid nibble s =
    if ltb 9 nibble
    then if nibble == 0x0d && not s.in_digits
      then ok (record { negative = true; in_digits = true; out = s.out ++ b'0' ∷ [] })
      else if not (nibble == 0x0f) || s.in_digits
      then err (invalid nibble)
      else ok (record s { out = s.out ++ b'0' ∷ [] })
    else ok (record s { in_digits = true; out = s.out ++ (b'0' + nibble) ∷ [] })

unfoldable pub scan_bytes : List ℕ → Scan → Result Scan
scan_bytes [] s = ok s
scan_bytes (b ∷ bytes) s = do
  s1 ← scan_nibble (λ n. invalid_value (invalid_high_nibble n)) (b / 2 ^ 4) s
  s2 ← scan_nibble (λ n. invalid_value (invalid_low_nibble n)) (bit_and b 0x0f) s1
  scan_bytes bytes s2

unfoldable pub ibm4690_to_digit_string : List ℕ → Bool → Result (Bool × Text)
unfolding order_bytes
ibm4690_to_digit_string bytes le = do
  s ← scan_bytes (order_bytes bytes le) (record { negative = false; in_digits = false; out = [] })
  ok (s.negative, s.out)

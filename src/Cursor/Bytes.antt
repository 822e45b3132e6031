-- ===== src/Cursor/Bytes.antt =====
-- Reads into bytes: `read_stream_bits_as_bytes` and the hexadecimal character sets of
-- dfdl-vm/src/vm/runtime/cursor.rs.
use aitest.Prelude.{
  ℕ, zero, suc, ◌+◌, ◌-◌, ◌*◌, ◌/◌, ◌%◌, ◌^◌, bit_or, List, [], ◌∷◌, ◌++◌, replicate, ltb, ◌==◌,
  if◌then◌else◌,
}
use aitest.Schema.{BitOrder, most_significant_bit_first, least_significant_bit_first}
use aitest.Error.{invalid_value, hex_code_unit, ok}
use aitest.Cursor.{
  Reader, ◌>>=◌, pure, fail, absolute_bit_index, read_stream_bit, read_stream_bit_with_hint,
}

-- `out[i] |= v`, for an `i` below the length, as it is for every bit of the read: there is a byte for
-- each eight bits. Elsewhere the source would panic.
unfoldable pub or_at : List ℕ → ℕ → ℕ → List ℕ
or_at [] i v = []
or_at (x ∷ xs) zero v = bit_or x v ∷ xs
or_at (x ∷ xs) (suc i) v = x ∷ or_at xs i v

-- `bit << (7 - i % 8)` or `bit << (i % 8)` on a `u8`.
unfoldable pub placed_bit : BitOrder → ℕ → ℕ → ℕ
placed_bit most_significant_bit_first i bit = bit * 2 ^ (7 - i % 8) % 2 ^ 8
placed_bit least_significant_bit_first i bit = bit * 2 ^ (i % 8) % 2 ^ 8

unfoldable pub byte_rounds : ℕ → ℕ → ℕ → ℕ → BitOrder → List ℕ → Reader (List ℕ)
byte_rounds zero i n start bit_order out = pure out
byte_rounds (suc left) i n start bit_order out = do
  bit ← read_stream_bit_with_hint n start bit_order
  byte_rounds left (i + 1) n start bit_order
      (or_at out (i / 8) (placed_bit bit_order i (bit % 2 ^ 8)))

-- `n.div_ceil(8)`
abbrev pub div_ceil_8 : ℕ → ℕ
div_ceil_8 n = (n + 7) / 8

unfoldable pub read_stream_bits_as_bytes : ℕ → BitOrder → Reader (List ℕ)
unfolding byte_rounds absolute_bit_index
read_stream_bits_as_bytes n bit_order c =
    if n == 0
    then (ok [], c)
    else byte_rounds n 0 n (absolute_bit_index c) bit_order (replicate (div_ceil_8 n) 0) c

pub data HexCharsetOrder : Type 0 where
  most_significant_byte_first least_significant_byte_first : HexCharsetOrder

-- Four bits into a `u8`.
unfoldable pub nibble_rounds : ℕ → ℕ → BitOrder → ℕ → Reader ℕ
unfolding read_stream_bit
nibble_rounds zero i bit_order v = pure v
nibble_rounds (suc left) i bit_order v = do
  bit ← read_stream_bit bit_order
  let b = bit % 2 ^ 8
  nibble_rounds left (i + 1) bit_order (elim bit_order [
    | most_significant_bit_first ↦ bit_or (v * 2 % 2 ^ 8) b
    | least_significant_bit_first ↦ bit_or v (b * 2 ^ i % 2 ^ 8)
  ])

unfoldable pub read_hex_nibble : BitOrder → Reader ℕ
unfolding nibble_rounds
read_hex_nibble bit_order = nibble_rounds 4 0 bit_order 0

unfoldable pub hex_rounds : ℕ → BitOrder → List ℕ → Reader (List ℕ)
unfolding read_hex_nibble
hex_rounds zero bit_order out = pure out
hex_rounds (suc left) bit_order out = do
  hi ← read_hex_nibble bit_order
  lo ← read_hex_nibble bit_order
  let rest = hex_rounds left bit_order (out ++ bit_or (hi * 2 ^ 4 % 2 ^ 8) lo ∷ [])
  if ltb 0x0f hi
      then fail (invalid_value hex_code_unit)
      else if ltb 0x0f lo
      then fail (invalid_value hex_code_unit)
      else rest

unfoldable pub hex_bit_order : HexCharsetOrder → BitOrder
hex_bit_order most_significant_byte_first = most_significant_bit_first
hex_bit_order least_significant_byte_first = least_significant_bit_first

unfoldable pub read_hex_charset_bytes : ℕ → HexCharsetOrder → Reader (List ℕ)
unfolding hex_rounds hex_bit_order
read_hex_charset_bytes binary_byte_len order = hex_rounds binary_byte_len (hex_bit_order order) []

-- ===== src/BitField.antt =====
-- Packed bit fields and integers as bytes: dfdl-vm/src/vm/runtime/bits.rs, with `int_bytes` of
-- scalar.rs and `sign_extend_u64` of binary.rs beside it. A `u64` is a number below 2 ^ 64; every
-- shift is by fewer than 64 bits for the widths up to 64 that the theorems are about.
pub mod Bytes
pub mod RoundTrip
use aitest.Prelude.{
  ℕ, zero, suc, ◌+◌, ◌-◌, ◌*◌, ◌/◌, ◌%◌, ◌^◌, bit_and, bit_or, Bool, true, false, List, [], ◌∷◌,
  ◌++◌, reverse, replicate, ltb, leb, ◌==◌, if◌then◌else◌,
}
use aitest.Schema.{
  BitOrder, most_significant_bit_first, least_significant_bit_first, ByteOrder, big_endian,
  little_endian,
}
use aitest.Cursor.Bytes.{or_at, div_ceil_8}

unfoldable pub bit_mask : ℕ → ℕ
bit_mask width = if leb 64 width then 2 ^ 64 - 1 else 2 ^ width - 1

unfoldable pub reverse_rounds : ℕ → ℕ → ℕ → ℕ → ℕ → ℕ
reverse_rounds zero i v bit_width r = r
reverse_rounds (suc left) i v bit_width r =
    reverse_rounds left (i + 1) v bit_width
      (if bit_and (v / 2 ^ i) 1 == 0 then r else bit_or r (2 ^ (bit_width - 1 - i) % 2 ^ 64))

unfoldable pub reverse_field_bits : ℕ → ℕ → ℕ
unfolding reverse_rounds
reverse_field_bits v bit_width = reverse_rounds bit_width 0 v bit_width 0

unfoldable pub msbf_rounds : ℕ → ℕ → ℕ → ℕ → List ℕ → List ℕ
unfolding or_at
msbf_rounds zero i raw bit_width bytes = bytes
msbf_rounds (suc left) i raw bit_width bytes =
    let bit = bit_and (raw / 2 ^ (bit_width - 1 - i)) 1 in
    msbf_rounds left (i + 1) raw bit_width
      (or_at bytes (i / 8) (bit % 2 ^ 8 * 2 ^ (7 - i % 8) % 2 ^ 8))

unfoldable pub stream_raw_to_msbf_bytes : ℕ → ℕ → List ℕ
unfolding msbf_rounds
stream_raw_to_msbf_bytes raw bit_width =
    msbf_rounds bit_width 0 raw bit_width (replicate (div_ceil_8 bit_width) 0)

-- `for i in (0..byte_len).rev() { buf[i] = (v & 0xff) as u8; v >>= 8; }`: the bytes from `i` on
-- are the last argument.
unfoldable pub fill_rounds : ℕ → ℕ → List ℕ → List ℕ
fill_rounds zero v buf = buf
fill_rounds (suc i) v buf = fill_rounds i (v / 2 ^ 8) (bit_and v 0xff ∷ buf)

-- `buf.first_mut()` and `buf.last_mut()`
unfoldable pub change_first : (ℕ → ℕ) → List ℕ → List ℕ
change_first f [] = []
change_first f (b ∷ buf) = f b ∷ buf

unfoldable pub change_last : (ℕ → ℕ) → List ℕ → List ℕ
change_last f [] = []
change_last f (b ∷ []) = f b ∷ []
change_last f (b ∷ c ∷ buf) = b ∷ change_last f (c ∷ buf)

-- The shift of the byte that holds the fragment, `x << k` or `x >> k` on a `u8`.
abbrev pub shl_byte : ℕ → ℕ → ℕ
shl_byte k b = b * 2 ^ k % 2 ^ 8

abbrev pub shr_byte : ℕ → ℕ → ℕ
shr_byte k b = b / 2 ^ k

unfoldable pub place_fragment : ByteOrder → BitOrder → ℕ → List ℕ → List ℕ
unfolding change_first change_last
place_fragment little_endian most_significant_bit_first fragment buf =
    change_first (shl_byte (8 - fragment)) buf
place_fragment big_endian least_significant_bit_first fragment buf =
    change_last (shr_byte (8 - fragment)) buf
place_fragment little_endian least_significant_bit_first fragment buf = buf
place_fragment big_endian most_significant_bit_first fragment buf = buf

unfoldable pub take_fragment : ByteOrder → BitOrder → ℕ → List ℕ → List ℕ
unfolding change_first change_last
take_fragment little_endian most_significant_bit_first fragment buf =
    change_first (shr_byte (8 - fragment)) buf
take_fragment big_endian least_significant_bit_first fragment buf =
    change_last (shl_byte (8 - fragment)) buf
take_fragment little_endian least_significant_bit_first fragment buf = buf
take_fragment big_endian most_significant_bit_first fragment buf = buf

-- The shift of the whole value: only the most significant bits of big-endian bytes are padded.
unfoldable pub pad_value : ByteOrder → BitOrder → ℕ → ℕ → ℕ
pad_value big_endian most_significant_bit_first fragment v = v * 2 ^ (8 - fragment) % 2 ^ 64
pad_value big_endian least_significant_bit_first fragment v = v
pad_value little_endian bit_order fragment v = v

unfoldable pub unpad_value : ByteOrder → BitOrder → ℕ → ℕ → ℕ
unpad_value big_endian most_significant_bit_first fragment v = v / 2 ^ (8 - fragment)
unpad_value big_endian least_significant_bit_first fragment v = v
unpad_value little_endian bit_order fragment v = v

unfoldable pub swap_bytes : ℕ → ByteOrder → List ℕ → List ℕ
swap_bytes bit_width big_endian buf = buf
swap_bytes bit_width little_endian buf = if ltb 8 bit_width then reverse buf else buf

unfoldable pub encode_packed_bit_field_bytes : ℕ → ℕ → ByteOrder → BitOrder → List ℕ
encode_packed_bit_field_bytes value bit_width byte_order bit_order =
    let masked = bit_and value (bit_mask bit_width) in
    let fragment = bit_width % 8 in
    let v = if fragment == 0 then masked else pad_value byte_order bit_order fragment masked in
    let buf = fill_rounds (div_ceil_8 bit_width) v [] in
    let placed = if fragment == 0 then buf else place_fragment byte_order bit_order fragment buf in
    if bit_width == 0 then [] else swap_bytes bit_width byte_order placed

-- `v = (v << 8) | u64::from(b)`
unfoldable pub join_bytes : ℕ → List ℕ → ℕ
join_bytes v [] = v
join_bytes v (b ∷ bytes) = join_bytes (bit_or (v * 2 ^ 8 % 2 ^ 64) b) bytes

unfoldable pub decode_packed_bit_field_u64 : List ℕ → ℕ → ByteOrder → BitOrder → ℕ
decode_packed_bit_field_u64 bytes bit_width byte_order bit_order =
    let fragment = bit_width % 8 in
    let buf = swap_bytes bit_width byte_order bytes in
    let taken = if fragment == 0 then buf else take_fragment byte_order bit_order fragment buf in
    let joined = join_bytes 0 taken in
    let v = if fragment == 0 then joined else unpad_value byte_order bit_order fragment joined in
    if bit_width == 0 then 0 else bit_and v (bit_mask bit_width)

-- `value |= (byte as u64) << (i * 8)`
unfoldable pub join_bytes_le : ℕ → ℕ → List ℕ → ℕ
join_bytes_le i value [] = value
join_bytes_le i value (b ∷ bytes) =
    join_bytes_le (i + 1) (bit_or value (b * 2 ^ (i * 8) % 2 ^ 64)) bytes

unfoldable pub decode_unsigned_binary_bytes : List ℕ → Bool → ℕ
unfolding join_bytes join_bytes_le
decode_unsigned_binary_bytes bytes true = join_bytes_le 0 0 bytes
decode_unsigned_binary_bytes bytes false = join_bytes 0 bytes

unfoldable pub int_bytes_le : ℕ → ℕ → List ℕ
int_bytes_le zero v = []
int_bytes_le (suc left) v = bit_and v 0xff ∷ int_bytes_le left (v / 2 ^ 8)

unfoldable pub int_bytes_be : ℕ → ℕ → List ℕ
int_bytes_be zero v = []
int_bytes_be (suc i) v = bit_and (v / 2 ^ (i * 8)) 0xff ∷ int_bytes_be i v

-- The value is the `u64` that `value as u64` makes of the `i64`. The sizes are those of at most eight
-- bytes; a larger one would shift a `u64` by too much in big-endian order.
unfoldable pub int_bytes : ℕ → ℕ → Bool → List ℕ
unfolding int_bytes_le int_bytes_be
int_bytes value size true = int_bytes_le size value
int_bytes value size false = int_bytes_be size value

-- ===== src/Runs/Streams.antt =====
-- Runs of the bit writer, the bit reader and the packed bit fields.
use aitest.Prelude.{
  ℕ, ◌+◌, ◌-◌, ◌%◌, ◌^◌, ◌≤◌, ◌≡◌, max, refl, arith, Bool, true, none, some, [], ◌∷◌, leb, ◌==◌,
  if◌then◌else◌,
}
use aitest.Schema.{most_significant_bit_first, least_significant_bit_first, little_endian}
use aitest.Error.{ok, err, invalid_value, insufficient_bits, unaligned_byte_write}
use aitest.Bits.Byte.{all_below, all_below-at}
use aitest.Bits.Field.{field_value, bit_of_field}
use aitest.Stream.{
  Output, write_stream_bits, write_bits_from_stream, write_stream_bit, bit_in_order,
  write_byte_aligned, payload_bit_length,
}
use aitest.Stream.Write.{
  IsOutput, Appended, position, stream_bit, stream_bit-snoc, write_stream_bit-Appended,
}
use aitest.Stream.Field.{Extended, write_stream_bits-Extended, write_bits_from_stream-Extended}
use aitest.Cursor.{
  Cursor, ◌>>=◌, pure, new, read_stream_bits, skip_stream_bits, skip_to_bit_index,
  rewind_stream_bits, absolute_bit_index, read_stream_bit_with_hint, join_bit,
}
use aitest.Cursor.Read.{at, end_of, bits_at, read_stream_bits-enough, read_stream_bits-short}
use aitest.Cursor.Move.{
  skip_stream_bits-at, skip_to_bit_index-at, rewind_stream_bits-read_stream_bits,
}
use aitest.RoundTrip.{reader_of, read-write}
use aitest.RoundTrip.Sequence.{
  value, copied, Steps, start, next, IsLater, Steps-IsLater, read-write_later,
}
use aitest.BitField.{
  encode_packed_bit_field_bytes, decode_packed_bit_field_u64, decode_unsigned_binary_bytes,
  int_bytes, bit_mask, fill_rounds, place_fragment, swap_bytes, pad_value,
}
use aitest.BitField.Bytes.{decode-int_bytes}
use aitest.BitField.RoundTrip.{decode-encode}

-- The bits 1, 0, 1 of a started byte.
abbrev three_bits : Output
three_bits = record { out = 0xa0 ∷ []; bit_count = 3 }

unwritten : ℕ → Bool
unwritten t = if leb 3 t then bit_in_order most_significant_bit_first 0xa0 t == 0 else true

unwritten_table : all_below 8 unwritten ≡ true
unfolding all_below unwritten bit_in_order
unwritten_table = refl

three_bits-clean :
    (i : ℕ) → position three_bits ≤ i → stream_bit most_significant_bit_first (0xa0 ∷ []) i ≡ 0
unfolding position unwritten
three_bits-clean i h = ground (
  arith,
  stream_bit-snoc most_significant_bit_first [] 0xa0 i,
  all_below-at 8 unwritten i unwritten_table,
)

three_bits-IsOutput : IsOutput most_significant_bit_first three_bits
three_bits-IsOutput = record {
  bytes = (omega arith, tt);
  count = omega arith;
  started = λ _. omega arith;
  clean = three_bits-clean;
}

write_unaligned :
    write_stream_bits three_bits 0x1ff 9 most_significant_bit_first
    ≡ some (record { out = 0xbf ∷ 0xf0 ∷ []; bit_count = 4 })
unfolding write_stream_bits
write_unaligned = refl

read_unaligned :
    read_stream_bits 9 most_significant_bit_first (at (new (0xbf ∷ 0xf0 ∷ [])) 3)
    ≡ (ok 0x1ff, at (new (0xbf ∷ 0xf0 ∷ [])) 12)
unfolding read_stream_bits read_stream_bit_with_hint join_bit at new
read_unaligned = refl

write_stream_bit-Appended_example :
    Appended most_significant_bit_first three_bits 1
      (write_stream_bit three_bits 1 most_significant_bit_first)
write_stream_bit-Appended_example =
    write_stream_bit-Appended most_significant_bit_first three_bits 1 three_bits-IsOutput
      (omega arith)

write_stream_bits-Extended_example :
    Extended most_significant_bit_first three_bits 9
      (bit_of_field most_significant_bit_first 0x1ff 9)
      (write_stream_bits three_bits 0x1ff 9 most_significant_bit_first)
write_stream_bits-Extended_example =
    write_stream_bits-Extended most_significant_bit_first three_bits 0x1ff 9 three_bits-IsOutput
      (omega arith)

write_bits_from_stream-Extended_example :
    Extended most_significant_bit_first three_bits 12
      (stream_bit most_significant_bit_first (0xbf ∷ 0xf0 ∷ []))
      (write_bits_from_stream three_bits (0xbf ∷ 0xf0 ∷ []) 12 most_significant_bit_first)
write_bits_from_stream-Extended_example =
    write_bits_from_stream-Extended most_significant_bit_first three_bits (0xbf ∷ 0xf0 ∷ []) 12
      three_bits-IsOutput (omega arith)

read-write_example :
    (w : Output) × (write_stream_bits three_bits 0x1ff 9 most_significant_bit_first ≡ some w)
    × (read_stream_bits 9 most_significant_bit_first (reader_of w (position three_bits))
        ≡ (ok (0x1ff % 2 ^ 9), reader_of w (position w)))
read-write_example =
    read-write most_significant_bit_first three_bits 0x1ff 9 three_bits-IsOutput (omega arith)

abbrev two_bytes : Cursor
two_bytes = record {
  bytes = 0xbf ∷ 0xf0 ∷ [];
  pos = 0;
  bit_buffer = 0;
  bit_count = 3;
  frame_bit_limit = none;
  transmission_bit_order = most_significant_bit_first;
  tdml_bit_order_regions = none;
}

read_stream_bits-enough_example : read_stream_bits 9 least_significant_bit_first two_bytes ≡ (
  ok (field_value least_significant_bit_first (bits_at least_significant_bit_first two_bytes) 9),
  at two_bytes (absolute_bit_index two_bytes + 9),
)
unfolding absolute_bit_index end_of
read_stream_bits-enough_example =
    read_stream_bits-enough least_significant_bit_first two_bytes 9 refl (omega arith) (omega arith)
      (omega arith) (omega arith)

read_stream_bits-short_example : read_stream_bits 20 least_significant_bit_first two_bytes ≡ (
  err (invalid_value (insufficient_bits 20 (end_of two_bytes - absolute_bit_index two_bytes))),
  at two_bytes (end_of two_bytes),
)
unfolding absolute_bit_index end_of
read_stream_bits-short_example =
    read_stream_bits-short least_significant_bit_first two_bytes 20 refl (omega arith) (omega arith)
      (omega arith) (omega arith) (omega arith)

skip_stream_bits-at_example : skip_stream_bits 20 least_significant_bit_first two_bytes ≡ (
    if leb (absolute_bit_index two_bytes + 20) (end_of two_bytes)
    then (ok tt, at two_bytes (absolute_bit_index two_bytes + 20))
    else (
      err (invalid_value (insufficient_bits 20 (end_of two_bytes - absolute_bit_index two_bytes))),
      at two_bytes (end_of two_bytes),
    ))
unfolding absolute_bit_index end_of
skip_stream_bits-at_example =
    skip_stream_bits-at least_significant_bit_first two_bytes refl (omega arith) (omega arith) 20

skip_to_bit_index-at_example :
    skip_to_bit_index 8 least_significant_bit_first two_bytes
    ≡ (ok tt, at two_bytes (max (absolute_bit_index two_bytes) 8))
unfolding absolute_bit_index end_of
skip_to_bit_index-at_example =
    skip_to_bit_index-at least_significant_bit_first two_bytes refl (omega arith) (omega arith) 8
      (omega arith)

rewind_stream_bits-read_stream_bits_example :
    (read_stream_bits 9 least_significant_bit_first >>= λ v. rewind_stream_bits 9 >>= λ _. pure v)
      two_bytes
    ≡ (
      ok (
          field_value least_significant_bit_first
            (bits_at least_significant_bit_first two_bytes)
            9),
      two_bytes,
    )
unfolding absolute_bit_index end_of
rewind_stream_bits-read_stream_bits_example =
    rewind_stream_bits-read_stream_bits least_significant_bit_first two_bytes 9 refl (omega arith)
      (omega arith) (omega arith) (omega arith)

encode_little_endian :
    encode_packed_bit_field_bytes 0xabc 12 little_endian most_significant_bit_first
    ≡ 0xbc ∷ 0xa0 ∷ []
unfolding encode_packed_bit_field_bytes bit_mask fill_rounds place_fragment swap_bytes pad_value
encode_little_endian = refl

decode-encode_example :
    decode_packed_bit_field_u64
      (encode_packed_bit_field_bytes 0xabc 12 little_endian most_significant_bit_first)
      12
      little_endian
      most_significant_bit_first
    ≡ 0xabc % 2 ^ 12
decode-encode_example =
    decode-encode 0xabc 12 little_endian most_significant_bit_first (omega arith)
      (λ e. absurd (grind (arith, e)))

decode-int_bytes_example :
    decode_unsigned_binary_bytes (int_bytes 0x1234 4 true) true ≡ 0x1234 % 256 ^ 4
decode-int_bytes_example = decode-int_bytes 0x1234 4 true (omega arith)

abbrev nine_ones : Output
nine_ones = record { out = 0xbf ∷ 0xf0 ∷ []; bit_count = 4 }

abbrev full : Output
full = record { out = 0xbf ∷ 0xff ∷ []; bit_count = 0 }

nine_ones_written : write_stream_bits three_bits 0x1ff 9 most_significant_bit_first ≡ some nine_ones
unfolding write_stream_bits
nine_ones_written = refl

full_written : write_bits_from_stream nine_ones (0xff ∷ []) 4 most_significant_bit_first ≡ some full
unfolding write_bits_from_stream
full_written = refl

behind : Steps most_significant_bit_first nine_ones full
behind = next start (copied (0xff ∷ []) 4 (omega arith) full_written)

Steps-IsLater_example : IsLater most_significant_bit_first three_bits full
Steps-IsLater_example =
    Steps-IsLater most_significant_bit_first three_bits full three_bits-IsOutput (
      next (next start (value 0x1ff 9 (omega arith) nine_ones_written))
        (copied (0xff ∷ []) 4 (omega arith) full_written))

read-write_later_example :
    read_stream_bits 9 most_significant_bit_first (reader_of full (position three_bits))
    ≡ (ok (0x1ff % 2 ^ 9), reader_of full (position three_bits + 9))
read-write_later_example =
    read-write_later most_significant_bit_first three_bits nine_ones full 0x1ff 9
      three_bits-IsOutput (omega arith) (omega arith) nine_ones_written behind

-- Bytes are written behind whole bytes only.
bytes_behind_three_bits :
    write_byte_aligned three_bits (7 ∷ []) ≡ err (invalid_value unaligned_byte_write)
unfolding write_byte_aligned
bytes_behind_three_bits = refl

bytes_behind_a_byte :
    write_byte_aligned (record { out = 5 ∷ []; bit_count = 0 }) (7 ∷ [])
    ≡ ok (record { out = 5 ∷ 7 ∷ []; bit_count = 0 })
unfolding write_byte_aligned
bytes_behind_a_byte = refl

three_bits_long : payload_bit_length three_bits ≡ 3
unfolding payload_bit_length
three_bits_long = refl

-- ===== src/Runs/Alignments.antt =====
-- Runs of the alignment and of the skips.
use aitest.Prelude.{ℕ, ◌≡◌, refl, arith, true, false, none, some, [], ◌∷◌, replicate}
use aitest.Schema.{most_significant_bit_first}
use aitest.Error.{invalid_value, leading_skip_limit, ok, err}
use aitest.Text.{Text}
use aitest.Encoding.{
  charsets, codes, bits_charset_code_unit_width, bits_charset_spec, named_charset,
  eq_ascii_ignore_case,
}
use aitest.Stream.{Output}
use aitest.Cursor.{Cursor, absolute_bit_index, read_stream_bit_with_hint}
use aitest.Cursor.Read.{at, end_of}
use aitest.Alignment.{
  IrProps, binary, text, implicit, explicit, bytes, bits, binary_rep, bcd, string, int, long,
  hex_binary, implicit_alignment_in_bits, pre_element_alignment_applies, resolved_alignment,
  align_cursor_to_text_encoding, consume_leading_skip, consume_trailing_skip, write_leading_skip,
  write_trailing_skip,
}
use aitest.Alignment.Boundary.{IsUnit, IsAligned, align_cursor_to_text_encoding-IsAligned}

abbrev props : IrProps
props = record {
  representation = binary;
  bit_order = most_significant_bit_first;
  length_kind = implicit;
  length = none;
  length_sibling = none;
  length_units = bits;
  binary_number_rep = binary_rep;
  alignment = 16;
  alignment_implicit = true;
  alignment_units = bytes;
  framing_alignment = 0;
  framing_alignment_units = bytes;
  leading_skip = 1;
  trailing_skip = 1;
  fill_byte = 0xff;
  fill_byte_defined = true;
}

abbrev utf_8 : Text
utf_8 = codes "utf-8"

abbrev five_bits : Text
five_bits = codes "x-dfdl-5-bit-packed-lsbf"

abbrev three_read : Cursor
three_read = record {
  bytes = 0xbf ∷ 0xf0 ∷ [];
  pos = 0;
  bit_buffer = 0;
  bit_count = 3;
  frame_bit_limit = none;
  transmission_bit_order = most_significant_bit_first;
  tdml_bit_order_regions = none;
}

abbrev three_written : Output
three_written = record { out = 0xa0 ∷ []; bit_count = 3 }

-- The names of the encodings are compared without their case.
five_wide : bits_charset_code_unit_width five_bits ≡ some 5
unfolding bits_charset_code_unit_width bits_charset_spec named_charset eq_ascii_ignore_case
five_wide = refl

-- The implicit alignment of a long, of a packed int and of text in an encoding of bits.
long_alignment : resolved_alignment long props utf_8 ≡ (8, bytes)
unfolding resolved_alignment
long_alignment = refl

bcd_alignment : implicit_alignment_in_bits int (record props { binary_number_rep = bcd }) utf_8 ≡ 8
unfolding implicit_alignment_in_bits
bcd_alignment = refl

text_alignment_run :
    implicit_alignment_in_bits string (record props { representation = text }) five_bits ≡ 5
unfolding implicit_alignment_in_bits bits_charset_spec named_charset
text_alignment_run = refl

-- Bits of a fixed length in hexadecimal are not aligned, a number of implicit length is.
hex_bits :
    pre_element_alignment_applies hex_binary (record props { length_kind = explicit }) utf_8 ≡ false
unfolding pre_element_alignment_applies
hex_bits = refl

implicit_int : pre_element_alignment_applies int props utf_8 ≡ true
unfolding pre_element_alignment_applies
implicit_int = refl

-- A skip of one byte reads eight bits, and one of 1025 is refused.
leading_read : consume_leading_skip props three_read ≡ (ok tt, at three_read 11)
unfolding consume_leading_skip at read_stream_bit_with_hint
leading_read = refl

leading_refused :
    consume_leading_skip (record props { leading_skip = 1025 }) three_read
    ≡ (err (invalid_value (leading_skip_limit 1025)), three_read)
unfolding consume_leading_skip
leading_refused = refl

leading_written :
    write_leading_skip (record props { alignment_units = bits; leading_skip = 1025 }) three_written
    ≡ some (record { out = 0xa0 ∷ replicate 128 0; bit_count = 4 })
unfolding write_leading_skip
leading_written = refl

-- A trailing skip behind a started byte writes five places and a byte, so that 13 bits are written.
trailing_written :
    write_trailing_skip props three_written ≡ ok (record { out = 0xbf ∷ 0xff ∷ []; bit_count = 0 })
unfolding write_trailing_skip
trailing_written = refl

-- The reader takes only the eight bits of the skip.
trailing_read : consume_trailing_skip props three_read ≡ (ok tt, at three_read 11)
unfolding consume_trailing_skip at read_stream_bit_with_hint
trailing_read = refl

align_cursor_to_text_encoding-IsAligned_example :
    (width : ℕ) × IsUnit charsets five_bits width
    × IsAligned three_read width (align_cursor_to_text_encoding props five_bits three_read)
unfolding absolute_bit_index end_of
align_cursor_to_text_encoding-IsAligned_example =
    align_cursor_to_text_encoding-IsAligned most_significant_bit_first three_read refl (omega arith)
      (omega arith) props five_bits refl

-- ===== src/Runs/Charsets.antt =====
-- Runs of the bit-packed character sets.
use aitest.Prelude.{ℕ, ◌≡◌, refl, List, some, [], ◌∷◌}
use aitest.Schema.{little_endian, most_significant_bit_first, least_significant_bit_first}
use aitest.Error.{invalid_value, not_in_charset, char_not_in_ebcdic, code_not_in_latin1, ok, err}
use aitest.Encoding.{BitsCharsetSpec, spec, codes, code_units, base32}
use aitest.Encoding.Ebcdic.{
  encode_ebcdic_char, encode_ebcdic_cp_us, decode_ebcdic_cp_us, encode_latin1,
  remap_xml_illegal_characters_to_pua, remap_pua_to_xml_illegal_characters,
}
use aitest.Encoding.Ebcdic.RoundTrip.{is_plain, decode_ebcdic_cp_us-encode_ebcdic_cp_us}
use aitest.Encoding.Names.{resolve_encoding_with_byte_order, normalize_encoding_name}
use aitest.Encoding.Codec.{encode_bits_charset_text, decode_bits_charset_payload}

abbrev five : BitsCharsetSpec
five = spec 5 base32 least_significant_bit_first

abbrev bits_msbf : BitsCharsetSpec
bits_msbf = spec 1 (codes "01") most_significant_bit_first

abbrev latin : BitsCharsetSpec
latin = spec 8 (code_units 256 0) least_significant_bit_first

abbrev dfi_1661 : BitsCharsetSpec
dfi_1661 = spec 5 (0xa0 ∷ codes "ABCD") least_significant_bit_first

-- Characters of five bits, with an O that is written as a 0.
five_written : encode_bits_charset_text (codes "AO1") five ≡ ok (0x08 ∷ 0x04 ∷ [])
unfolding encode_bits_charset_text
five_written = refl

five_read : decode_bits_charset_payload (0x08 ∷ 0x04 ∷ []) 15 five ≡ ok (codes "A01")
unfolding decode_bits_charset_payload
five_read = refl

-- The bits of the last byte are moved up.
bits_written : encode_bits_charset_text (codes "101") bits_msbf ≡ ok (0xa0 ∷ [])
unfolding encode_bits_charset_text
bits_written = refl

bits_read : decode_bits_charset_payload (0xa0 ∷ []) 3 bits_msbf ≡ ok (codes "101")
unfolding decode_bits_charset_payload
bits_read = refl

not_a_bit :
    encode_bits_charset_text (codes "2") bits_msbf ≡ err (invalid_value (not_in_charset b'2'))
unfolding encode_bits_charset_text
not_a_bit = refl

-- A place behind a character of two bytes is counted in bytes by the writer and in characters by the
-- reader.
latin_written : encode_bits_charset_text (0xe9 ∷ []) latin ≡ ok (0x52 ∷ [])
unfolding encode_bits_charset_text
latin_written = refl

letter_written : encode_bits_charset_text (codes "A") dfi_1661 ≡ ok (0x02 ∷ [])
unfolding encode_bits_charset_text
letter_written = refl

letter_read : decode_bits_charset_payload (0x02 ∷ []) 5 dfi_1661 ≡ ok (codes "B")
unfolding decode_bits_charset_payload
letter_read = refl

-- The letter s is written as the byte of another character.
letter_s_written : encode_ebcdic_cp_us (codes "s") ≡ ok (0x9a ∷ [])
unfolding encode_ebcdic_cp_us encode_ebcdic_char
letter_s_written = refl

letter_s_read : decode_ebcdic_cp_us (0x9a ∷ 0xa2 ∷ []) ≡ ok (0xaa ∷ b's' ∷ [])
unfolding decode_ebcdic_cp_us
letter_s_read = refl

not_ebcdic : encode_ebcdic_cp_us (10 ∷ []) ≡ err (invalid_value (char_not_in_ebcdic 10))
unfolding encode_ebcdic_cp_us encode_ebcdic_char
not_ebcdic = refl

not_latin1 : encode_latin1 (0xe9 ∷ 0x100 ∷ []) ≡ err (invalid_value (code_not_in_latin1 0x100))
unfolding encode_latin1
not_latin1 = refl

remapped :
    remap_xml_illegal_characters_to_pua (1 ∷ 13 ∷ 10 ∷ 13 ∷ 9 ∷ []) ≡ 0xe001 ∷ 10 ∷ 10 ∷ 9 ∷ []
unfolding remap_xml_illegal_characters_to_pua
remapped = refl

remapped_back :
    remap_pua_to_xml_illegal_characters (0xe001 ∷ 0xe801 ∷ 0xf0fe ∷ []) ≡ 1 ∷ 0xe801 ∷ 0xfffe ∷ []
unfolding remap_pua_to_xml_illegal_characters
remapped_back = refl

resolved : resolve_encoding_with_byte_order (codes "UTF-16") little_endian ≡ codes "utf-16le"
unfolding resolve_encoding_with_byte_order
resolved = refl

latin1_name : normalize_encoding_name (codes "Latin1") ≡ some (codes "iso-8859-1")
unfolding normalize_encoding_name
latin1_name = refl

decode_ebcdic_cp_us-encode_ebcdic_cp_us_example :
    (bytes : List ℕ) × (encode_ebcdic_cp_us (codes "DFDL 1") ≡ ok bytes)
    × (decode_ebcdic_cp_us bytes ≡ ok (codes "DFDL 1"))
unfolding is_plain
decode_ebcdic_cp_us-encode_ebcdic_cp_us_example =
    decode_ebcdic_cp_us-encode_ebcdic_cp_us (codes "DFDL 1")
      (refl, (refl, (refl, (refl, (refl, (refl, tt))))))

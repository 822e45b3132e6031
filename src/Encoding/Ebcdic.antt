-- ===== src/Encoding/Ebcdic.antt =====
-- EBCDIC, ISO-8859-1 and the characters that XML refuses, in dfdl-vm/src/vm/encoding.rs.
pub mod RoundTrip
use aitest.Prelude.{
  ℕ, zero, suc, ◌+◌, ◌-◌, ◌<◌, Bool, true, false, not, ◌&&◌, ◌||◌, Option, none, some, List, [],
  ◌∷◌, get_elem?, ltb, leb, ◌==◌, if◌then◌else◌,
}
use aitest.Error.{
  invalid_value, code_not_in_ebcdic, char_not_in_ebcdic, code_not_in_latin1, Result, ok, err, ◌>>=◌,
}
use aitest.Text.{Text}
use aitest.Encoding.Codec.{checked}

-- The character of each EBCDIC byte.
abbrev pub ebcdic037_decode : Text
ebcdic037_decode =
    0x0 ∷ 0x1 ∷ 0x2 ∷ 0x3 ∷ 0x9c ∷ 0x9 ∷ 0x86 ∷ 0x7f ∷ 0x97 ∷ 0x8d ∷ 0x8e ∷ 0xb ∷ 0xc ∷ 0xd ∷ 0xe
    ∷ 0xf ∷ 0x10 ∷ 0x11 ∷ 0x12 ∷ 0x13 ∷ 0x9d ∷ 0x85 ∷ 0x8 ∷ 0x87 ∷ 0x18 ∷ 0x19 ∷ 0x92 ∷ 0x8f ∷ 0x1c
    ∷ 0x1d ∷ 0x1e ∷ 0x1f ∷ 0x80 ∷ 0x81 ∷ 0x82 ∷ 0x83 ∷ 0x84 ∷ 0xa ∷ 0x17 ∷ 0x1b ∷ 0x88 ∷ 0x89 ∷ 0x8a
    ∷ 0x8b ∷ 0x8c ∷ 0x5 ∷ 0x6 ∷ 0x7 ∷ 0x90 ∷ 0x91 ∷ 0x16 ∷ 0x93 ∷ 0x94 ∷ 0x95 ∷ 0x96 ∷ 0x4 ∷ 0x98
    ∷ 0x99 ∷ 0x9a ∷ 0x9b ∷ 0x14 ∷ 0x15 ∷ 0x9e ∷ 0x1a ∷ 0x20 ∷ 0xa0 ∷ 0xe2 ∷ 0xe4 ∷ 0xe0 ∷ 0xe1
    ∷ 0xe3 ∷ 0xe5 ∷ 0xe7 ∷ 0xf1 ∷ 0xa2 ∷ 0x2e ∷ 0x3c ∷ 0x28 ∷ 0x2b ∷ 0x7c ∷ 0x26 ∷ 0xe9 ∷ 0xea
    ∷ 0xeb ∷ 0xe8 ∷ 0xed ∷ 0xee ∷ 0xef ∷ 0xec ∷ 0xdf ∷ 0x21 ∷ 0x24 ∷ 0x2a ∷ 0x29 ∷ 0x3b ∷ 0xac
    ∷ 0x2d ∷ 0x2f ∷ 0xc2 ∷ 0xc4 ∷ 0xc0 ∷ 0xc1 ∷ 0xc3 ∷ 0xc5 ∷ 0xc7 ∷ 0xd1 ∷ 0xa6 ∷ 0x2c ∷ 0x25
    ∷ 0x5f ∷ 0x3e ∷ 0x3f ∷ 0xf8 ∷ 0xc9 ∷ 0xca ∷ 0xcb ∷ 0xc8 ∷ 0xcd ∷ 0xce ∷ 0xcf ∷ 0xcc ∷ 0x60
    ∷ 0x3a ∷ 0x23 ∷ 0x40 ∷ 0x27 ∷ 0x3d ∷ 0x22 ∷ 0xd8 ∷ 0x61 ∷ 0x62 ∷ 0x63 ∷ 0x64 ∷ 0x65 ∷ 0x66
    ∷ 0x67 ∷ 0x68 ∷ 0x69 ∷ 0xab ∷ 0xbb ∷ 0xf0 ∷ 0xfd ∷ 0xfe ∷ 0xb1 ∷ 0xb0 ∷ 0x6a ∷ 0x6b ∷ 0x6c
    ∷ 0x6d ∷ 0x6e ∷ 0x6f ∷ 0x70 ∷ 0x71 ∷ 0x72 ∷ 0xaa ∷ 0xba ∷ 0xe6 ∷ 0xb8 ∷ 0xc6 ∷ 0xa4 ∷ 0xb5
    ∷ 0x7e ∷ 0x73 ∷ 0x74 ∷ 0x75 ∷ 0x76 ∷ 0x77 ∷ 0x78 ∷ 0x79 ∷ 0x7a ∷ 0xa1 ∷ 0xbf ∷ 0xd0 ∷ 0xdd
    ∷ 0xde ∷ 0xae ∷ 0x5e ∷ 0xa3 ∷ 0xa5 ∷ 0xb7 ∷ 0xa9 ∷ 0xa7 ∷ 0xb6 ∷ 0xbc ∷ 0xbd ∷ 0xbe ∷ 0x5b
    ∷ 0x5d ∷ 0xaf ∷ 0xa8 ∷ 0xb4 ∷ 0xd7 ∷ 0x7b ∷ 0x41 ∷ 0x42 ∷ 0x43 ∷ 0x44 ∷ 0x45 ∷ 0x46 ∷ 0x47
    ∷ 0x48 ∷ 0x49 ∷ 0xad ∷ 0xf4 ∷ 0xf6 ∷ 0xf2 ∷ 0xf3 ∷ 0xf5 ∷ 0x7d ∷ 0x4a ∷ 0x4b ∷ 0x4c ∷ 0x4d
    ∷ 0x4e ∷ 0x4f ∷ 0x50 ∷ 0x51 ∷ 0x52 ∷ 0xb9 ∷ 0xfb ∷ 0xfc ∷ 0xf9 ∷ 0xfa ∷ 0xff ∷ 0x5c ∷ 0xf7
    ∷ 0x53 ∷ 0x54 ∷ 0x55 ∷ 0x56 ∷ 0x57 ∷ 0x58 ∷ 0x59 ∷ 0x5a ∷ 0xb2 ∷ 0xd4 ∷ 0xd6 ∷ 0xd2 ∷ 0xd3
    ∷ 0xd5 ∷ 0x30 ∷ 0x31 ∷ 0x32 ∷ 0x33 ∷ 0x34 ∷ 0x35 ∷ 0x36 ∷ 0x37 ∷ 0x38 ∷ 0x39 ∷ 0xb3 ∷ 0xdb
    ∷ 0xdc ∷ 0xd9 ∷ 0xda ∷ 0x9f ∷ []

-- The EBCDIC byte of each ASCII character, with 0xff where there is none.
abbrev pub ascii_to_ebcdic037 : List ℕ
ascii_to_ebcdic037 =
    0x0 ∷ 0xff ∷ 0xff ∷ 0xff ∷ 0xff ∷ 0xff ∷ 0xff ∷ 0xff ∷ 0xff ∷ 0xff ∷ 0xff ∷ 0xff ∷ 0xff ∷ 0xff
    ∷ 0xff ∷ 0xff ∷ 0xff ∷ 0xff ∷ 0xff ∷ 0xff ∷ 0xff ∷ 0xff ∷ 0xff ∷ 0xff ∷ 0xff ∷ 0xff ∷ 0xff
    ∷ 0xff ∷ 0xff ∷ 0xff ∷ 0xff ∷ 0xff ∷ 0x40 ∷ 0x5a ∷ 0x7f ∷ 0x7b ∷ 0x5b ∷ 0x6c ∷ 0x50 ∷ 0x7d
    ∷ 0x4d ∷ 0x5d ∷ 0x5c ∷ 0x4e ∷ 0x6b ∷ 0x60 ∷ 0x4b ∷ 0x61 ∷ 0xf0 ∷ 0xf1 ∷ 0xf2 ∷ 0xf3 ∷ 0xf4
    ∷ 0xf5 ∷ 0xf6 ∷ 0xf7 ∷ 0xf8 ∷ 0xf9 ∷ 0x7a ∷ 0x5e ∷ 0x4c ∷ 0x7e ∷ 0x6e ∷ 0x6f ∷ 0x7c ∷ 0xc1
    ∷ 0xc2 ∷ 0xc3 ∷ 0xc4 ∷ 0xc5 ∷ 0xc6 ∷ 0xc7 ∷ 0xc8 ∷ 0xc9 ∷ 0xd1 ∷ 0xd2 ∷ 0xd3 ∷ 0xd4 ∷ 0xd5
    ∷ 0xd6 ∷ 0xd7 ∷ 0xd8 ∷ 0xd9 ∷ 0xe2 ∷ 0xe3 ∷ 0xe4 ∷ 0xe5 ∷ 0xe6 ∷ 0xe7 ∷ 0xe8 ∷ 0xe9 ∷ 0xad
    ∷ 0xe0 ∷ 0xbd ∷ 0x5f ∷ 0x6d ∷ 0x79 ∷ 0x81 ∷ 0x82 ∷ 0x83 ∷ 0x84 ∷ 0x85 ∷ 0x86 ∷ 0x87 ∷ 0x88
    ∷ 0x89 ∷ 0x91 ∷ 0x92 ∷ 0x93 ∷ 0x94 ∷ 0x95 ∷ 0x96 ∷ 0x97 ∷ 0x98 ∷ 0x99 ∷ 0x9a ∷ 0x9b ∷ 0x9c
    ∷ 0x9d ∷ 0x9e ∷ 0x9f ∷ 0xa8 ∷ 0xa9 ∷ 0xc0 ∷ 0x6a ∷ 0xd0 ∷ 0xa1 ∷ 0xff ∷ []

unfoldable pub encode_ebcdic_char : ℕ → Result ℕ
encode_ebcdic_char cp = do
  eb ← checked (get_elem? ascii_to_ebcdic037 cp)
  if eb == 0xff then err (invalid_value (char_not_in_ebcdic cp)) else ok eb

unfoldable pub encode_ebcdic_cp_us : Text → Result (List ℕ)
encode_ebcdic_cp_us [] = ok []
encode_ebcdic_cp_us (cp ∷ text) = do
  eb ← if leb 128 cp then err (invalid_value (code_not_in_ebcdic cp)) else encode_ebcdic_char cp
  out ← encode_ebcdic_cp_us text
  ok (eb ∷ out)

unfoldable pub decode_ebcdic_cp_us : List ℕ → Result Text
decode_ebcdic_cp_us [] = ok []
decode_ebcdic_cp_us (b ∷ bytes) = do
  c ← checked (get_elem? ebcdic037_decode b)
  text ← decode_ebcdic_cp_us bytes
  ok (c ∷ text)

unfoldable pub encode_latin1 : Text → Result (List ℕ)
encode_latin1 [] = ok []
encode_latin1 (cp ∷ text) = do
  b ← if ltb 0xff cp then err (invalid_value (code_not_in_latin1 cp)) else ok cp
  out ← encode_latin1 text
  ok (b ∷ out)

unfoldable pub decode_latin1 : List ℕ → Text
decode_latin1 [] = []
decode_latin1 (b ∷ bytes) = b ∷ decode_latin1 bytes

abbrev pub to_pua : ℕ → ℕ
to_pua c =
    if c == 13 then 10 else if ltb c 0x20 && not (c == 9) && not (c == 10) then c + 0xe000 else c

-- A carriage return becomes a line feed, one with the line feed behind it. The other control
-- characters have a place in the private use area.
unfoldable pub remap_xml_illegal_characters_to_pua : Text → Text
remap_xml_illegal_characters_to_pua [] = []
remap_xml_illegal_characters_to_pua (c ∷ []) = to_pua c ∷ []
remap_xml_illegal_characters_to_pua (c ∷ d ∷ text) =
    let rest = remap_xml_illegal_characters_to_pua (d ∷ text) in
    if c == 13 && d == 10 then rest else to_pua c ∷ rest

-- `char::from_u32(n).unwrap_or(c)`: a surrogate is no character, nor is a number above U+10FFFF.
abbrev pub from_u32_or : ℕ → ℕ → ℕ
from_u32_or n c = if (leb 0xd800 n && leb n 0xdfff) || ltb 0x10ffff n then c else n

abbrev pub from_pua : ℕ → ℕ
from_pua cp =
    if leb 0xe000 cp && leb cp 0xe01f
    then from_u32_or (cp - 0xe000) cp
    else if leb 0xe800 cp && leb cp 0xefff
    then from_u32_or (cp - 0x1000) cp
    else if cp == 0xf0fe
    then 0xfffe
    else if cp == 0xf0ff
    then 0xffff
    else cp

unfoldable pub remap_pua_to_xml_illegal_characters : Text → Text
remap_pua_to_xml_illegal_characters [] = []
remap_pua_to_xml_illegal_characters (c ∷ text) =
    from_pua c ∷ remap_pua_to_xml_illegal_characters text

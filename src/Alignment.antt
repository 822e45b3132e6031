-- ===== src/Alignment.antt =====
-- Alignment and skips (dfdl-vm/src/vm/alignment.rs), with the properties of the intermediate
-- representation (dfdl-vm/src/ir/mod.rs) that they read.
pub mod Boundary
use aitest.Prelude.{
  ℕ, zero, suc, ◌+◌, ◌-◌, ◌*◌, ◌/◌, ◌%◌, ◌^◌, ◌≡◌, max, bit_and, Bool, true, false, not, ◌&&◌, ◌||◌,
  Option, none, some, List, [], ◌∷◌, ◌++◌, replicate, ltb, leb, ◌==◌, if◌then◌else◌,
}
use aitest.Schema.{BitOrder}
use aitest.Error.{
  VmError, unexpected_eof, invalid_value, Message, leading_skip_limit, trailing_skip_limit,
  fill_byte_undefined, Result, ok, err, panics, map_err,
}
use aitest.Text.{Text}
use aitest.Encoding.{bits_charset_code_unit_width}
use aitest.Stream.{Output, write_stream_bit, write_byte_aligned}
use aitest.Cursor.{Cursor, Reader, absolute_bit_index, skip_stream_bits, map_err_with, pure, fail}

pub data Representation : Type 0 where
  binary text : Representation

pub data LengthKind : Type 0 where
  implicit explicit fixed delimited prefixed pattern end_of_parent : LengthKind

pub data LengthUnits : Type 0 where
  bytes bits characters : LengthUnits

pub data BinaryNumberRep : Type 0 where
  binary_rep bcd packed_bcd ibm4690_packed binary_seconds binary_milliseconds : BinaryNumberRep

pub data ValueKind : Type 0 where
  boolean int integer long short byte unsigned_int unsigned_short unsigned_byte : ValueKind
  float double decimal date_time time string hex_binary complex : ValueKind

-- The fields of `IrProps` that alignment reads; a sibling is the number of its name.
pub record IrProps : Type 0 where
  pub representation : Representation
  pub bit_order : BitOrder
  pub length_kind : LengthKind
  pub length : Option ℕ
  pub length_sibling : Option ℕ
  pub length_units : LengthUnits
  pub binary_number_rep : BinaryNumberRep
  pub alignment : ℕ
  pub alignment_implicit : Bool
  pub alignment_units : LengthUnits
  pub framing_alignment : ℕ
  pub framing_alignment_units : LengthUnits
  pub leading_skip : ℕ
  pub trailing_skip : ℕ
  pub fill_byte : ℕ
  pub fill_byte_defined : Bool

-- A product of bits that a `usize` does not hold is refused by the checked build; a skip is at most
-- 1024, or that of the schema where it is written in front.
unfoldable pub skip_units_to_bits : IrProps → ℕ → ℕ
skip_units_to_bits props skip = elim props.alignment_units [ bits ↦ skip | _ ↦ skip * 8 ]

abbrev pub or_eight : Option ℕ → ℕ
or_eight none = 8
or_eight (some width) = width

unfoldable pub text_encoding_alignment_bits : Text → ℕ
unfolding bits_charset_code_unit_width
text_encoding_alignment_bits encoding = or_eight (bits_charset_code_unit_width encoding)

abbrev pub is_packed : BinaryNumberRep → Bool
is_packed packed_bcd = true
is_packed bcd = true
is_packed ibm4690_packed = true
is_packed _ = false

unfoldable pub complex_alignment : LengthUnits → ℕ
complex_alignment bits = 1
complex_alignment _ = 8

unfoldable pub binary_alignment : ValueKind → Bool → Text → ℕ
unfolding text_encoding_alignment_bits
binary_alignment float packed encoding = 32
binary_alignment boolean packed encoding = 32
binary_alignment double packed encoding = 64
binary_alignment long packed encoding = if packed then 8 else 64
binary_alignment int packed encoding = if packed then 8 else 32
binary_alignment unsigned_int packed encoding = if packed then 8 else 32
binary_alignment short packed encoding = if packed then 8 else 16
binary_alignment unsigned_short packed encoding = if packed then 8 else 16
binary_alignment date_time packed encoding = 64
binary_alignment time packed encoding = 64
binary_alignment string packed encoding = text_encoding_alignment_bits encoding
binary_alignment kind packed encoding = 8

abbrev pub text_alignment : ValueKind → Text → ℕ
text_alignment string encoding = text_encoding_alignment_bits encoding
text_alignment kind encoding = 8

abbrev pub kind_alignment : ValueKind → IrProps → Text → ℕ
kind_alignment complex props encoding = complex_alignment props.alignment_units
kind_alignment kind props encoding =
    binary_alignment kind (is_packed props.binary_number_rep) encoding

unfoldable pub implicit_alignment_in_bits : ValueKind → IrProps → Text → ℕ
unfolding binary_alignment complex_alignment text_encoding_alignment_bits
implicit_alignment_in_bits kind props encoding = elim props.representation [
  | text ↦ text_alignment kind encoding
  | binary ↦ kind_alignment kind props encoding
]

abbrev pub is_bits : LengthUnits → Bool
is_bits bits = true
is_bits _ = false

abbrev pub is_fixed : LengthKind → Bool
is_fixed explicit = true
is_fixed fixed = true
is_fixed _ = false

abbrev pub is_hex : ValueKind → Bool
is_hex hex_binary = true
is_hex _ = false

abbrev pub is_binary : Representation → Bool
is_binary binary = true
is_binary text = false

abbrev pub is_zero_length : Option ℕ → Bool
is_zero_length none = false
is_zero_length (some n) = n == 0

-- The last two tests: a length that fits the implicit alignment, or that of a sibling.
abbrev pub short_length : Option ℕ → Option ℕ → ℕ → Bool
short_length (some len) sibling implicit_bits = leb len implicit_bits && leb implicit_bits 8
short_length none (some sibling) implicit_bits = true
short_length none none implicit_bits = false

unfoldable pub pre_element_alignment_applies : ValueKind → IrProps → Text → Bool
unfolding implicit_alignment_in_bits
pre_element_alignment_applies kind props encoding =
    if is_hex kind && is_bits props.length_units && is_fixed props.length_kind
    then false
    else if not (is_binary props.representation)
    then true
    else if not (is_fixed props.length_kind)
    then true
    else if is_zero_length props.length
    then false
    else if not (is_bits props.length_units)
    then true
    else if not props.alignment_implicit
    then true
    else not (
        short_length props.length props.length_sibling
          (implicit_alignment_in_bits kind props encoding))

unfoldable pub resolved_alignment : ValueKind → IrProps → Text → ℕ × LengthUnits
unfolding implicit_alignment_in_bits
resolved_alignment kind props encoding =
    let width = implicit_alignment_in_bits kind props encoding in
    if not props.alignment_implicit
    then (props.alignment, props.alignment_units)
    else elim props.alignment_units [ bits ↦ (width, bits) | _ ↦ (max (width / 8) 1, bytes) ]

unfoldable pub post_read_alignment : IrProps → ℕ × LengthUnits
post_read_alignment props =
    if not (props.framing_alignment == 0)
    then (props.framing_alignment, props.framing_alignment_units)
    else (1, bits)

unfoldable pub cursor_uses_bitstream_alignment : Cursor → Bool
cursor_uses_bitstream_alignment c = elim c.frame_bit_limit [
  | none ↦ not (c.bit_count == 0)
  | some limit ↦ true
]

-- A skip of the cursor, whose every error is the end of the data.
unfoldable pub skip_or_eof : ℕ → BitOrder → Reader (Unit {0})
unfolding skip_stream_bits
skip_or_eof n bit_order = map_err_with (λ c e. unexpected_eof) (skip_stream_bits n bit_order)

unfoldable pub bits_to_boundary : ℕ → ℕ → ℕ
bits_to_boundary width pos = (width - pos % width) % width

unfoldable pub align_cursor_to_text_encoding : IrProps → Text → Reader (Unit {0})
align_cursor_to_text_encoding props encoding c =
    let width = text_encoding_alignment_bits encoding in
    let skip = bits_to_boundary width (absolute_bit_index c) in
    let skipped = skip_or_eof skip props.bit_order c in
    if leb width 1 then (ok tt, c) else if ltb 0 skip then skipped else (ok tt, c)

abbrev pub leading_trailing_skip_property_limit : ℕ
leading_trailing_skip_property_limit = 1024

-- `consume_leading_skip` and `consume_trailing_skip`, with the skip and the message of its limit.
unfoldable pub consume_skip : ℕ → (ℕ → Message) → IrProps → Reader (Unit {0})
unfolding skip_units_to_bits skip_or_eof
consume_skip skip limit props c =
    let n = skip_units_to_bits props skip in
    let skipped = skip_or_eof n props.bit_order c in
    if skip == 0
    then (ok tt, c)
    else if ltb leading_trailing_skip_property_limit skip
    then (err (invalid_value (limit skip)), c)
    else if n == 0
    then (ok tt, c)
    else skipped

unfoldable pub consume_leading_skip : IrProps → Reader (Unit {0})
unfolding consume_skip
consume_leading_skip props = consume_skip props.leading_skip leading_skip_limit props

unfoldable pub consume_trailing_skip : IrProps → Reader (Unit {0})
unfolding consume_skip
consume_trailing_skip props = consume_skip props.trailing_skip trailing_skip_limit props

-- `for _ in 0..n { write_stream_bit(…) }`
unfoldable pub fill_bits : ℕ → ℕ → BitOrder → Output → Option Output
unfolding write_stream_bit
fill_bits zero bit bit_order o = some o
fill_bits (suc n) bit bit_order o = elim (write_stream_bit o bit bit_order) [
  | none ↦ none
  | some w ↦ fill_bits n bit bit_order w
]

unfoldable pub write_leading_skip : IrProps → Output → Option Output
unfolding fill_bits skip_units_to_bits
write_leading_skip props o =
    let written = fill_bits (skip_units_to_bits props props.leading_skip) 0 props.bit_order o in
    if props.leading_skip == 0 then some o else written

abbrev pub or_panics : Option Output → Result Output
or_panics none = panics
or_panics (some o) = ok o

-- `while *bit_count != 0 { write_stream_bit(…) }`. A started byte has at most seven places left.
unfoldable pub fill_byte_rounds : ℕ → ℕ → BitOrder → Output → Option Output
unfolding write_stream_bit
fill_byte_rounds zero bit bit_order o = none
fill_byte_rounds (suc fuel) bit bit_order o =
    let more : Option Output = elim (write_stream_bit o bit bit_order) [
      | none ↦ none
      | some w ↦ fill_byte_rounds fuel bit bit_order w
    ] in
    if o.bit_count == 0 then some o else more

abbrev pub is_bytes : LengthUnits → Bool
is_bytes bytes = true
is_bytes _ = false

-- Whole bytes where they are aligned, and else one bit after the other.
unfoldable pub write_skip_bits : IrProps → ℕ → Output → Result Output
unfolding fill_bits write_byte_aligned
write_skip_bits props n o =
    if is_bytes props.alignment_units && o.bit_count == 0 && n % 8 == 0
    then write_byte_aligned o (replicate (n / 8) props.fill_byte)
    else or_panics (fill_bits n (bit_and props.fill_byte 1) props.bit_order o)

abbrev pub write_skip_behind : IrProps → ℕ → Option Output → Result Output
write_skip_behind props n none = panics
write_skip_behind props n (some o) = write_skip_bits props n o

unfoldable pub write_trailing_skip : IrProps → Output → Result Output
unfolding write_skip_bits fill_byte_rounds skip_units_to_bits
write_trailing_skip props o =
    let n = skip_units_to_bits props props.trailing_skip in
    let filled = fill_byte_rounds 8 (bit_and props.fill_byte 1) props.bit_order o in
    if props.trailing_skip == 0
    then ok o
    else if ltb leading_trailing_skip_property_limit props.trailing_skip
    then err (invalid_value (trailing_skip_limit props.trailing_skip))
    else if n == 0
    then ok o
    else if is_bytes props.alignment_units && not (o.bit_count == 0)
    then if not props.fill_byte_defined
      then err (invalid_value fill_byte_undefined)
      else write_skip_behind props n filled
    else write_skip_bits props n o

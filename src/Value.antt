-- ===== src/Value.antt =====
-- The values of dfdl-vm/src/value.rs. A float is its bit pattern, a text the list of its character
-- codes, and a map the list of its entries in the order of their keys.
use aitest.Prelude.{ℕ, suc, Bool, Option, none, some, List, [], ltb, if◌then◌else◌}
use aitest.Text.{Text}
use aitest.Text.Slices.{same_bytes}
use aitest.Int.{ℤ, pos, half_i64, parse_signed}

pub record FieldDelimiterMeta : Type 0 where
  pub initiator_alt : Option ℕ
  pub terminator_alt : Option ℕ

pub record SequenceMeta : Type 0 where
  pub infix_sep_newline_prefix : List Bool
  pub initiator_alt : Option ℕ
  pub terminator_alt : Option ℕ
  pub separator_alts : List (Option ℕ)
  pub field_delimiters : List (Text × FieldDelimiterMeta)

pub record StringMeta : Type 0 where
  pub source_bytes : Option (List ℕ)

pub record StringValue : Type 0 where
  pub text : Text
  pub meta : StringMeta

-- `StringValue::new`
abbrev pub new_string : Text → StringValue
new_string t = record { text = t; meta = record { source_bytes = none } }

abbrev pub with_source_bytes : Text → List ℕ → StringValue
with_source_bytes t bytes = record { text = t; meta = record { source_bytes = some bytes } }

mutual
  pub data DfdlValue : Type 0 where
    null : DfdlValue
    boolean : Bool → DfdlValue
    int : ℤ → DfdlValue
    integer : Text → DfdlValue
    long : ℤ → DfdlValue
    unsigned_long : ℕ → DfdlValue
    short : ℤ → DfdlValue
    byte : ℤ → DfdlValue
    unsigned_int : ℕ → DfdlValue
    unsigned_short : ℕ → DfdlValue
    unsigned_byte : ℕ → DfdlValue
    float : ℕ → DfdlValue
    double : ℕ → DfdlValue
    decimal : Text → DfdlValue
    date_time : Text → DfdlValue
    string : StringValue → DfdlValue
    hex_binary : List ℕ → DfdlValue
    blob : List ℕ → DfdlValue
    array : Items → DfdlValue
    sequence : Fields → SequenceMeta → DfdlValue
    choice : Text → DfdlValue → DfdlValue

  pub data Items : Type 0 where
    no_items : Items
    item : DfdlValue → Items → Items

  pub data Fields : Type 0 where
    no_fields : Fields
    entry : Text → DfdlValue → Fields → Fields

abbrev pub items_len : Items → ℕ
items_len no_items = 0
items_len (item v items) = suc (items_len items)

abbrev pub no_meta : SequenceMeta
no_meta = record {
  infix_sep_newline_prefix = [];
  initiator_alt = none;
  terminator_alt = none;
  separator_alts = [];
  field_delimiters = [];
}

-- `DfdlValue::string` and `DfdlValue::sequence`
abbrev pub string_of : Text → DfdlValue
string_of t = string (new_string t)

abbrev pub sequence_of : Fields → DfdlValue
sequence_of fields = sequence fields no_meta

unfoldable pub as_bool : DfdlValue → Option Bool
as_bool (boolean v) = some v
as_bool _ = none

unfoldable pub as_i32_value : DfdlValue → Option ℤ
as_i32_value (int v) = some v
as_i32_value _ = none

-- `i64::try_from` of a `u64`
abbrev pub i64_try_from : ℕ → Option ℤ
i64_try_from v = if ltb v half_i64 then some (pos v) else none

unfoldable pub as_i64 : DfdlValue → Option ℤ
unfolding parse_signed
as_i64 (long v) = some v
as_i64 (unsigned_long v) = i64_try_from v
as_i64 (int v) = some v
as_i64 (unsigned_int v) = some (pos v)
as_i64 (short v) = some v
as_i64 (unsigned_short v) = some (pos v)
as_i64 (byte v) = some v
as_i64 (unsigned_byte v) = some (pos v)
as_i64 (integer digits) = parse_signed half_i64 digits
as_i64 _ = none

unfoldable pub as_str : DfdlValue → Option Text
as_str (string v) = some v.text
as_str _ = none

unfoldable pub string_value : DfdlValue → Option StringValue
string_value (string v) = some v
string_value _ = none

unfoldable pub as_bytes : DfdlValue → Option (List ℕ)
as_bytes (hex_binary v) = some v
as_bytes _ = none

unfoldable pub sequence_fields : DfdlValue → Option Fields
sequence_fields (sequence fields meta) = some fields
sequence_fields _ = none

abbrev pub or_value : Option DfdlValue → Option DfdlValue → Option DfdlValue
or_value none other = other
or_value (some v) other = some v

-- `BTreeMap::get`
unfoldable pub get_field : Text → Fields → Option DfdlValue
unfolding same_bytes
get_field name no_fields = none
get_field name (entry key v fields) =
    let later = get_field name fields in if same_bytes key name then some v else later

-- A field of the value: the value of a choice under its discriminator, or else a field of that value;
-- a field of a sequence, or else a field of its only one.
unfoldable mutual
  unfolding same_bytes get_field

  pub field : DfdlValue → Text → Option DfdlValue
  field (choice discriminator v) name =
      let inner = field v name in if same_bytes discriminator name then some v else inner
  field (sequence fields meta) name = or_value (get_field name fields) (only_field fields name)
  field _ name = none

  pub only_field : Fields → Text → Option DfdlValue
  only_field (entry key v no_fields) name = field v name
  only_field _ name = none

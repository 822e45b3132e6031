-- ===== src/Error.antt =====
-- The run-time errors of dfdl-vm/src/error.rs. A message is a value that keeps the numbers and the
-- texts that the source formats into its sentence.
use aitest.Prelude.{ℕ, List}
use Prim.Native.String.{String}

pub data Message : Type 0 where
  text : String → Message
  insufficient_bits : ℕ → ℕ → Message
  too_many_stream_bits : ℕ → Message
  rewind_past_start hex_code_unit : Message
  sign_codes_length : List ℕ → Message
  invalid_sign_nibble invalid_high_nibble invalid_low_nibble : ℕ → Message
  empty_packed_bcd zero_width_packed_bcd zero_width_ibm4690 : Message
  invalid_packed_bcd_digit invalid_bcd_digit invalid_ibm4690_digit : Message
  invalid_decimal_digits : List ℕ → Message
  empty_decimal invalid_decimal invalid_exponent : Message
  invalid_zoned_digit : ℕ → Message
  empty_zoned_number invalid_overpunch_index : Message
  leading_skip_limit trailing_skip_limit : ℕ → Message
  unaligned_byte_write fill_byte_undefined invalid_charset_unit : Message
  not_in_charset code_not_in_ebcdic char_not_in_ebcdic code_not_in_latin1 : ℕ → Message
  virtual_point_pattern zoned_pattern_digits : List ℕ → Message

pub data VmError : Type 0 where
  unexpected_eof : VmError
  trailing_data : ℕ → ℕ → VmError
  invalid_choice : List String → VmError
  length_mismatch : ℕ → ℕ → VmError
  invalid_value : Message → VmError
  type_mismatch : String → VmError
  missing_field : String → VmError
  unsupported_operation : String → VmError
  element_absent : VmError

-- `panics` is no value of the source: an index out of range, or arithmetic that the checked build
-- refuses.
pub data Result {ℓ} (A : Type ℓ) : Type ℓ where
  ok : A → Result A
  err : VmError → Result A
  panics : Result A

infixl 5 ◌>>=◌
abbrev pub ◌>>=◌ {ℓ κ} : {A : Type ℓ} {B : Type κ} → Result A → (A → Result B) → Result B
ok a >>= f = f a
err e >>= f = err e
panics >>= f = panics

abbrev pub map_err {ℓ} : {A : Type ℓ} → (VmError → VmError) → Result A → Result A
map_err f (ok a) = ok a
map_err f (err e) = err (f e)
map_err f panics = panics

-- A fallible step on a state: the new state is there on an error too, as a `&mut` argument is.
abbrev pub Step {ℓ κ} : Type ℓ → Type κ → Type (ℓ ⊔ κ)
Step S A = S → Result A × S

abbrev pub finish {ℓ κ μ} :
    {S : Type ℓ} {A : Type κ} {B : Type μ} → Result A × S → (A → Step S B) → Result B × S
finish (ok a, s) f = f a s
finish (err e, s) f = (err e, s)
finish (panics, s) f = (panics, s)

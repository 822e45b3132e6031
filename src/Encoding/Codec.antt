-- ===== src/Encoding/Codec.antt =====
-- Text in the bit-packed character sets of dfdl-vm/src/vm/encoding.rs.
use aitest.Prelude.{
  ℕ, zero, suc, ◌+◌, ◌-◌, ◌*◌, ◌/◌, ◌%◌, ◌^◌, bit_and, bit_or, ◌&&◌, Option, none, some, List, [],
  ◌∷◌, Bool, true, false, length, get_elem?, ltb, leb, ◌==◌, if◌then◌else◌,
}
use aitest.Schema.{BitOrder, most_significant_bit_first, least_significant_bit_first}
use aitest.Error.{
  invalid_value, not_in_charset, invalid_charset_unit, Result, ok, err, panics, ◌>>=◌,
}
use aitest.Text.{Text}
use aitest.Text.Utf8.{encode_utf8}
use aitest.Stream.{Output, open_byte, shl_u8}
use aitest.Encoding.{BitsCharsetSpec, base32}

-- An index out of range, or a shift that the checked build refuses, is a panic.
abbrev pub checked {ℓ} : {A : Type ℓ} → Option A → Result A
checked none = panics
checked (some a) = ok a

abbrev pub bit_of_byte : BitOrder → ℕ → ℕ → ℕ
bit_of_byte most_significant_bit_first b i = bit_and (b / 2 ^ (7 - i)) 1
bit_of_byte least_significant_bit_first b i = bit_and (b / 2 ^ i) 1

unfoldable pub read_bit_at : List ℕ → ℕ → BitOrder → Result ℕ
read_bit_at bytes bit_index order = do
  b ← checked (get_elem? bytes (bit_index / 8))
  ok (bit_of_byte order b (bit_index % 8))

-- `out[out.len() - 1] = f(…)`
unfoldable pub change_end : (ℕ → ℕ) → List ℕ → Option (List ℕ)
change_end f [] = none
change_end f (b ∷ []) = some (f b ∷ [])
change_end f (b ∷ c ∷ bs) = elim (change_end f (c ∷ bs)) [ none ↦ none | some ds ↦ some (b ∷ ds) ]

abbrev pub with_bit : BitOrder → ℕ → List ℕ → ℕ → Result (List ℕ)
with_bit least_significant_bit_first count out bit = do
  v ← checked (shl_u8 (bit_and bit 1) count)
  checked (change_end (λ b. bit_or b v) out)
with_bit most_significant_bit_first count out bit =
    checked (change_end (λ b. bit_or (b * 2 % 2 ^ 8) (bit_and bit 1)) out)

-- Here the byte is shifted under each bit, and moved up at the end of the text.
unfoldable pub write_bit_to_buffer : Output → ℕ → BitOrder → Result Output
unfolding change_end open_byte shl_u8
write_bit_to_buffer o bit order = do
  out ← with_bit order o.bit_count (open_byte o) bit
  let count = o.bit_count + 1
  ok (record { out = out; bit_count = if count == 8 then 0 else count })

-- `str::find`: the place of a character, counted in the bytes of its UTF-8.
unfoldable pub find_char : Text → ℕ → ℕ → Option ℕ
unfolding encode_utf8
find_char [] ch at = none
find_char (c ∷ s) ch at =
    let later = find_char s ch (at + length (encode_utf8 c)) in if c == ch then some at else later

unfoldable pub eq_text : Text → Text → Bool
eq_text [] [] = true
eq_text [] (d ∷ t) = false
eq_text (c ∷ s) [] = false
eq_text (c ∷ s) (d ∷ t) = c == d && eq_text s t

unfoldable pub five_bit_packed_code : ℕ → BitsCharsetSpec → Option ℕ
unfolding find_char eq_text
five_bit_packed_code ch spec =
    let base = spec.width == 5 && eq_text spec.alphabet base32 in
    if base && ch == b'I'
    then some 1
    else if base && ch == b'O'
    then some 0
    else find_char spec.alphabet ch 0

unfoldable pub shr_u8 : ℕ → ℕ → Option ℕ
shr_u8 x k = if ltb k 8 then some (x / 2 ^ k) else none

abbrev pub unit_shift : BitOrder → ℕ → ℕ → ℕ
unit_shift most_significant_bit_first width i = width - 1 - i
unit_shift least_significant_bit_first width i = i

-- The bits of one character, at round `i` with `left` rounds to go.
unfoldable pub unit_rounds : ℕ → ℕ → ℕ → BitsCharsetSpec → Output → Result Output
unfolding write_bit_to_buffer shr_u8
unit_rounds zero i idx spec o = ok o
unit_rounds (suc left) i idx spec o = do
  v ← checked (shr_u8 idx (unit_shift spec.bit_order spec.width i))
  w ← write_bit_to_buffer o (bit_and v 1) spec.bit_order
  unit_rounds left (i + 1) idx spec w

abbrev pub code_or : ℕ → Option ℕ → Result ℕ
code_or ch none = err (invalid_value (not_in_charset ch))
code_or ch (some idx) = ok (idx % 2 ^ 8)

unfoldable pub text_rounds : Text → BitsCharsetSpec → Output → Result Output
unfolding five_bit_packed_code unit_rounds
text_rounds [] spec o = ok o
text_rounds (ch ∷ text) spec o = do
  idx ← code_or ch (five_bit_packed_code ch spec)
  w ← unit_rounds spec.width 0 idx spec o
  text_rounds text spec w

abbrev pub moved_up : BitOrder → Output → Result (List ℕ)
moved_up most_significant_bit_first o =
    checked (change_end (λ b. b * 2 ^ (8 - o.bit_count) % 2 ^ 8) o.out)
moved_up least_significant_bit_first o = ok o.out

unfoldable pub encode_bits_charset_text : Text → BitsCharsetSpec → Result (List ℕ)
unfolding text_rounds
encode_bits_charset_text text spec = do
  o ← text_rounds text spec (record { out = []; bit_count = 0 })
  if o.bit_count == 0 then ok o.out else moved_up spec.bit_order o

abbrev pub join_unit_bit : BitOrder → ℕ → ℕ → ℕ → Result ℕ
join_unit_bit most_significant_bit_first i idx bit = ok (bit_or (idx * 2 % 2 ^ 8) bit)
join_unit_bit least_significant_bit_first i idx bit = do
  v ← checked (shl_u8 bit i)
  ok (bit_or idx v)

-- The number of one character, at round `i` with `left` rounds to go.
unfoldable pub unit_of_bits : ℕ → ℕ → List ℕ → ℕ → BitOrder → ℕ → Result ℕ
unfolding read_bit_at shl_u8
unit_of_bits zero i raw bit_pos order idx = ok idx
unit_of_bits (suc left) i raw bit_pos order idx = do
  bit ← read_bit_at raw bit_pos order
  next ← join_unit_bit order i idx bit
  unit_of_bits left (i + 1) raw (bit_pos + 1) order next

abbrev pub char_or : Option ℕ → Result ℕ
char_or none = err (invalid_value invalid_charset_unit)
char_or (some ch) = ok ch

-- A round takes `width` bits, which is at least one in the table, so that one round more than there
-- are bits is enough.
unfoldable pub payload_rounds : ℕ → List ℕ → ℕ → ℕ → BitsCharsetSpec → Result Text
unfolding unit_of_bits
payload_rounds zero raw bit_pos num_bits spec = panics
payload_rounds (suc fuel) raw bit_pos num_bits spec =
    let next = bit_pos + spec.width in
    let more : Result Text = (do
      idx ← unit_of_bits spec.width 0 raw bit_pos spec.bit_order 0
      ch ← char_or (get_elem? spec.alphabet idx)
      text ← payload_rounds fuel raw next num_bits spec
      ok (ch ∷ text)) in
    if leb next num_bits then more else ok []

unfoldable pub decode_bits_charset_payload : List ℕ → ℕ → BitsCharsetSpec → Result Text
unfolding payload_rounds
decode_bits_charset_payload raw num_bits spec = payload_rounds (suc num_bits) raw 0 num_bits spec

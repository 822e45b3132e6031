-- ===== src/Zoned.antt =====
-- Zoned decimal text: dfdl-vm/src/vm/zoned_text.rs.
pub mod Overpunch
use aitest.Prelude.{
  ℕ, zero, suc, ◌+◌, ◌-◌, Bool, true, false, not, ◌&&◌, ◌||◌, Option, none, some, List, [], ◌∷◌,
  ◌++◌, length, reverse, get_elem?, take, drop, ltb, leb, ◌==◌, if◌then◌else◌,
}
use aitest.Error.{
  Result, ok, err, ◌>>=◌, invalid_value, invalid_zoned_digit, empty_zoned_number,
  invalid_overpunch_index, virtual_point_pattern, zoned_pattern_digits,
}
use aitest.Text.{Text, contains, is_ascii_digit, trim}

pub data OverpunchLocation : Type 0 where
  at_start at_end none_given : OverpunchLocation

pub data TextZonedSignStyle : Type 0 where
  ebcdic ascii_standard ascii_translated_ebcdic ascii_ca_realia_modified ascii_tandem_modified :
      TextZonedSignStyle

-- The ten characters of `EBCDIC_B0_B9`.
abbrev pub ebcdic_b0_b9 : Text
ebcdic_b0_b9 = 0x5e ∷ 0xa3 ∷ 0xa5 ∷ 0xb7 ∷ 0xa9 ∷ 0xa7 ∷ 0xb6 ∷ 0xbc ∷ 0xbd ∷ 0xbe ∷ []

unfoldable pub next_index : Option ℕ → Option ℕ
next_index none = none
next_index (some i) = some (suc i)

-- `position(|c| c == digit)`
unfoldable pub position : ℕ → Text → Option ℕ
unfolding next_index
position c [] = none
position c (d ∷ s) = let rest = position c s in if d == c then some 0 else next_index rest

unfoldable pub in_range : ℕ → ℕ → ℕ → Bool
in_range low high c = leb low c && leb c high

unfoldable pub at_position : ℕ → Option ℕ → Result (ℕ × Bool)
at_position digit none = err (invalid_value (invalid_zoned_digit digit))
at_position digit (some idx) = ok (idx, true)

unfoldable pub convert_from_zoned_ebcdic : ℕ → Result (ℕ × Bool)
unfolding position in_range at_position
convert_from_zoned_ebcdic digit =
    if is_ascii_digit digit
    then ok (digit - b'0', false)
    else if digit == b'{'
    then ok (0, false)
    else if in_range b'A' b'I' digit
    then ok (digit - b'A' + 1, false)
    else if digit == b'}'
    then ok (0, true)
    else if in_range b'J' b'R' digit
    then ok (digit - b'J' + 1, true)
    else at_position digit (position digit ebcdic_b0_b9)

unfoldable pub convert_from_ascii_standard : ℕ → Result (ℕ × Bool)
unfolding in_range
convert_from_ascii_standard digit =
    if is_ascii_digit digit
    then ok (digit - b'0', false)
    else if in_range b'p' b'y' digit
    then ok (digit - b'p', true)
    else err (invalid_value (invalid_zoned_digit digit))

unfoldable pub convert_from_ascii_translated_ebcdic : ℕ → Result (ℕ × Bool)
unfolding in_range
convert_from_ascii_translated_ebcdic digit =
    if digit == b'{'
    then ok (0, false)
    else if digit == b'}'
    then ok (0, true)
    else if in_range b'A' b'I' digit
    then ok (digit - b'A' + 1, false)
    else if in_range b'J' b'R' digit
    then ok (digit - b'J' + 1, true)
    else if is_ascii_digit digit
    then ok (digit - b'0', false)
    else err (invalid_value (invalid_zoned_digit digit))

unfoldable pub convert_from_ascii_ca_realia_modified : ℕ → Result (ℕ × Bool)
unfolding in_range
convert_from_ascii_ca_realia_modified digit =
    if is_ascii_digit digit
    then ok (digit - b'0', false)
    else if in_range b' ' b')' digit
    then ok (digit - b' ', true)
    else err (invalid_value (invalid_zoned_digit digit))

unfoldable pub convert_from_ascii_tandem_modified : ℕ → Result (ℕ × Bool)
unfolding in_range
convert_from_ascii_tandem_modified digit =
    if is_ascii_digit digit
    then ok (digit - b'0', false)
    else if in_range 128 137 digit
    then ok (digit - 128, true)
    else err (invalid_value (invalid_zoned_digit digit))

unfoldable pub decode_overpunch : ℕ → TextZonedSignStyle → Result (ℕ × Bool)
unfolding convert_from_zoned_ebcdic convert_from_ascii_standard convert_from_ascii_translated_ebcdic
    convert_from_ascii_ca_realia_modified convert_from_ascii_tandem_modified
decode_overpunch ch ebcdic = convert_from_zoned_ebcdic ch
decode_overpunch ch ascii_standard = convert_from_ascii_standard ch
decode_overpunch ch ascii_translated_ebcdic = convert_from_ascii_translated_ebcdic ch
decode_overpunch ch ascii_ca_realia_modified = convert_from_ascii_ca_realia_modified ch
decode_overpunch ch ascii_tandem_modified = convert_from_ascii_tandem_modified ch

unfoldable pub starts_with : ℕ → Text → Bool
starts_with c [] = false
starts_with c (d ∷ s) = d == c

unfoldable pub overpunch_location_from_pattern : Text → OverpunchLocation
unfolding starts_with
overpunch_location_from_pattern pattern =
    if starts_with b'+' (trim pattern)
    then at_start
    else if starts_with b'+' (reverse (trim pattern))
    then at_end
    else none_given

unfoldable pub strip_zoned_plus_markers : Text → Text
strip_zoned_plus_markers [] = []
strip_zoned_plus_markers (c ∷ s) =
    let rest = strip_zoned_plus_markers s in if c == b'+' then rest else c ∷ rest

-- The digits before a character: how many, whether the character ended them, and the rest.
pub record Digits : Type 0 where
  pub count : ℕ
  pub ended : Bool
  pub rest : Text

unfoldable pub one_more : Option Digits → Option Digits
one_more none = none
one_more (some d) = some (record d { count = suc d.count })

unfoldable pub digits_before : ℕ → Text → Option Digits
unfolding one_more
digits_before stop [] = some (record { count = 0; ended = false; rest = [] })
digits_before stop (c ∷ s) =
    let more = digits_before stop s in
    if c == stop
    then some (record { count = 0; ended = true; rest = s })
    else if is_ascii_digit c
    then one_more more
    else none

unfoldable pub after_v_matches : Bool → Option Digits → Bool
after_v_matches prefix_plus none = false
after_v_matches prefix_plus (some after) =
    ltb 0 after.count && not (prefix_plus && after.ended) && length after.rest == 0

unfoldable pub before_v_matches : Bool → Option Digits → Bool
unfolding digits_before after_v_matches
before_v_matches prefix_plus none = false
before_v_matches prefix_plus (some before) =
    ltb 0 before.count && after_v_matches prefix_plus (digits_before b'+' before.rest)

unfoldable pub zoned_v_pattern_matches : Text → Bool
unfolding starts_with before_v_matches digits_before
zoned_v_pattern_matches pattern =
    let p = trim pattern in
    let prefix_plus = starts_with b'+' p in
    before_v_matches prefix_plus (digits_before b'V' (if prefix_plus then drop 1 p else p))

unfoldable pub validate_zoned_v_in_pattern : Text → Result {0} Unit
unfolding strip_zoned_plus_markers zoned_v_pattern_matches
validate_zoned_v_in_pattern pattern =
    let bare = strip_zoned_plus_markers pattern in
    if not (contains b'V' bare)
    then ok tt
    else if zoned_v_pattern_matches bare
    then ok tt
    else err (invalid_value (virtual_point_pattern pattern))

-- `split(';').next()`
unfoldable pub positive_part : Text → Text
positive_part [] = []
positive_part (c ∷ s) = let rest = positive_part s in if c == b';' then [] else c ∷ rest

unfoldable pub digits_or_v : Text → Bool
digits_or_v [] = true
digits_or_v (c ∷ s) = (is_ascii_digit c || c == b'V' || c == b'v') && digits_or_v s

unfoldable pub validate_zoned_pattern_characters : Text → Result {0} Unit
unfolding strip_zoned_plus_markers positive_part digits_or_v
validate_zoned_pattern_characters pattern =
    if digits_or_v (positive_part (strip_zoned_plus_markers pattern))
    then ok tt
    else err (invalid_value (zoned_pattern_digits pattern))

-- The digit and the sign put in place of the character at the index.
unfoldable pub with_digit : Text → ℕ → Result (ℕ × Bool) → Result Text
with_digit chars opindex decoded = do
  (digit, negative) ← decoded
  let all_digits = take opindex chars ++ (b'0' + digit) ∷ drop (opindex + 1) chars
  ok (if negative then b'-' ∷ all_digits else all_digits)

unfoldable pub overpunched : Text → ℕ → TextZonedSignStyle → Option ℕ → Result Text
unfolding with_digit
overpunched chars opindex style none = err (invalid_value invalid_overpunch_index)
overpunched chars opindex style (some ch) = with_digit chars opindex (decode_overpunch ch style)

unfoldable pub zoned_to_number : Text → TextZonedSignStyle → OverpunchLocation → Result Text
unfolding overpunched
zoned_to_number [] style opl = err (invalid_value empty_zoned_number)
zoned_to_number (c ∷ s) style at_start = overpunched (c ∷ s) 0 style (get_elem? (c ∷ s) 0)
zoned_to_number (c ∷ s) style at_end =
    overpunched (c ∷ s) (length (c ∷ s) - 1) style (get_elem? (c ∷ s) (length (c ∷ s) - 1))
zoned_to_number (c ∷ s) style none_given = ok (c ∷ s)

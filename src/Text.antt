-- ===== src/Text.antt =====
-- The text operations of the standard library that the number modules call. A `String` of digits is
-- the list of its character codes.
pub mod Decimal
pub mod Parse
pub mod Slices
pub mod Utf8
use aitest.Prelude.{
  ℕ, zero, suc, ◌+◌, ◌-◌, ◌*◌, ◌/◌, ◌%◌, ◌^◌, Bool, true, false, ◌&&◌, ◌||◌, Option, none, some,
  List, [], ◌∷◌, ◌++◌, length, drop, replicate, reverse, ltb, leb, ◌==◌, if◌then◌else◌,
}

abbrev pub Text : Type 0
Text = List ℕ

abbrev pub is_ascii_digit : ℕ → Bool
is_ascii_digit c = leb b'0' c && leb c b'9'

-- `to_string` on a `u64`: the digits before `out`, with fuel for the number of digits.
unfoldable pub digit_rounds : ℕ → ℕ → Text → Text
digit_rounds zero n out = out
digit_rounds (suc fuel) n out =
    let more = digit_rounds fuel (n / 10) ((b'0' + n % 10) ∷ out) in
    if ltb n 10 then (b'0' + n) ∷ out else more

-- A `u64` has at most 20 digits.
unfoldable pub u64_to_string : ℕ → Text
unfolding digit_rounds
u64_to_string n = digit_rounds 20 n []

-- `trim_start_matches('0')`
unfoldable pub trim_start_zeros : Text → Text
trim_start_zeros [] = []
trim_start_zeros (c ∷ s) = let rest = trim_start_zeros s in if c == b'0' then rest else c ∷ s

-- The digits of `parse::<u64>`, behind the number `n`.
unfoldable pub parse_rounds : Text → ℕ → Option ℕ
parse_rounds [] n = some n
parse_rounds (c ∷ s) n =
    let n' = n * 10 + (c - b'0') in
    let rest = parse_rounds s n' in
    if is_ascii_digit c then if ltb n' (2 ^ 64) then rest else none else none

-- `parse::<u64>`: an optional plus sign and at least one digit, and the number fits.
unfoldable pub parse_u64_digits : Text → Option ℕ
unfolding parse_rounds
parse_u64_digits [] = none
parse_u64_digits (c ∷ s) = parse_rounds (c ∷ s) 0

unfoldable pub parse_u64_text : Text → Option ℕ
unfolding parse_u64_digits
parse_u64_text [] = none
parse_u64_text (c ∷ s) = if c == b'+' then parse_u64_digits s else parse_u64_digits (c ∷ s)

-- `while digits.len() < width { digits.insert(0, fill) }`, then the last `width` of them.
unfoldable pub fit_width : ℕ → ℕ → Text → Text
fit_width fill width s =
    if ltb width (length s)
    then drop (length s - width) s
    else replicate (width - length s) fill ++ s

unfoldable pub contains : ℕ → List ℕ → Bool
contains x [] = false
contains x (y ∷ ys) = x == y || contains x ys

-- `char::is_whitespace`
unfoldable pub is_whitespace : ℕ → Bool
unfolding contains
is_whitespace c =
    leb 9 c && leb c 13
    || leb 0x2000 c && leb c 0x200a
    || contains c (0x20 ∷ 0x85 ∷ 0xa0 ∷ 0x1680 ∷ 0x2028 ∷ 0x2029 ∷ 0x202f ∷ 0x205f ∷ 0x3000 ∷ [])

unfoldable pub trim_start : Text → Text
trim_start [] = []
trim_start (c ∷ s) = if is_whitespace c then trim_start s else c ∷ s

unfoldable pub trim : Text → Text
unfolding trim_start
trim s = reverse (trim_start (reverse (trim_start s)))

unfoldable pub behind : ℕ → Option (Text × Text) → Option (Text × Text)
behind c none = none
behind c (some (a, b)) = some (c ∷ a, b)

-- `split_once` at a character.
unfoldable pub split_once : ℕ → Text → Option (Text × Text)
unfolding behind
split_once at_char [] = none
split_once at_char (c ∷ s) =
    let rest = split_once at_char s in if c == at_char then some ([], s) else behind c rest

unfoldable pub all_digits : Text → Bool
all_digits [] = true
all_digits (c ∷ s) = is_ascii_digit c && all_digits s

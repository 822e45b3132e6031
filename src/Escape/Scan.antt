-- ===== src/Escape/Scan.antt =====
-- The scans of dfdl-vm/src/vm/escape.rs: the end of an escape block, and the next index of a scan
-- of delimited data.
use aitest.Prelude.{
  ℕ, zero, suc, ◌+◌, Bool, false, not, ◌&&◌, ◌||◌, Option, none, some, [], ◌∷◌, length, drop, leb,
  ltb, ◌==◌, if◌then◌else◌,
}
use aitest.Text.{Text, is_ascii_digit}
use aitest.Text.Slices.{starts_with_bytes, same_bytes, is_empty}
use aitest.Escape.{
  EscapeKind, escape_character, escape_block, EscapeSchemeDef, or_empty, non_empty,
  extra_escaped_char_len,
}
use aitest.Escape.Character.{escaped_escape, length_of}

unfoldable pub is_ascii_alphanumeric : ℕ → Bool
is_ascii_alphanumeric c = is_ascii_digit c || leb b'A' c && leb c b'Z' || leb b'a' c && leb c b'z'

-- The block end that is its own escape is doubled in front of more of a word.
unfoldable pub continues_word : Text → Bool
unfolding is_ascii_alphanumeric
continues_word [] = false
continues_word (next_b ∷ s) = is_ascii_alphanumeric next_b || next_b == b'_' || next_b == b' '

-- The loop at the index `j`, before which `s` is left of the data. The end is not empty.
unfoldable pub block_end_rounds : ℕ → Text → Text → ℕ → Text → Option ℕ
unfolding starts_with_bytes same_bytes continues_word
block_end_rounds zero end ee j s = none
block_end_rounds (suc fuel) end ee j [] = none
block_end_rounds (suc fuel) end ee j (c ∷ s) =
    let t = c ∷ s in
    let over_both =
      block_end_rounds fuel end ee (j + (length ee + length end))
        (drop (length ee + length end) t) in
    let over_end = block_end_rounds fuel end ee (j + length end) (drop (length end) t) in
    let next = block_end_rounds fuel end ee (j + 1) s in
    if not (is_empty ee) && starts_with_bytes ee t && starts_with_bytes end (drop (length ee) t)
    then over_both
    else if starts_with_bytes end t
    then if same_bytes ee end && continues_word (drop (length end) t) then over_end else some j
    else next

-- A round takes one byte at least, so one round for each byte is enough.
unfoldable pub find_unescaped_block_end : Text → ℕ → Text → Text → Option ℕ
unfolding block_end_rounds
find_unescaped_block_end bytes from end ee =
    if is_empty end then none else block_end_rounds (length bytes) end ee from (drop from bytes)

unfoldable pub past_block : Option ℕ → ℕ → Text → ℕ
past_block none i end = i + 1
past_block (some end_pos) i end = end_pos + length end

unfoldable pub scan_block : Text → ℕ → EscapeSchemeDef → ℕ
unfolding past_block find_unescaped_block_end starts_with_bytes
scan_block bytes i scheme =
    let start = or_empty scheme.escape_block_start in
    let end = or_empty scheme.escape_block_end in
    let ee = or_empty scheme.escape_escape_character in
    if not (is_empty start) && starts_with_bytes start (drop i bytes)
    then past_block (find_unescaped_block_end bytes (i + length start) end ee) i end
    else i + 1

unfoldable pub past_char : Option ℕ → ℕ → ℕ
past_char none next = next + 1
past_char (some n) next = next + n

unfoldable pub scan_character : Text → ℕ → Option Text → EscapeSchemeDef → ℕ
unfolding past_char escaped_escape extra_escaped_char_len starts_with_bytes
scan_character bytes i none scheme = i + 1
scan_character bytes i (some esc) scheme =
    let ee = non_empty scheme.escape_escape_character in
    let next = i + length esc in
    let here = starts_with_bytes esc (drop i bytes) in
    if escaped_escape ee esc (drop i bytes)
    then i + length_of ee + length esc
    else if ltb next (length bytes) && here
    then past_char (extra_escaped_char_len (drop next bytes) scheme.extra_escaped_characters) next
    else if here
    then next
    else i + 1

unfoldable pub scan_kind : EscapeKind → Text → ℕ → EscapeSchemeDef → ℕ
unfolding scan_block scan_character
scan_kind escape_block bytes i scheme = scan_block bytes i scheme
scan_kind escape_character bytes i scheme =
    scan_character bytes i (non_empty scheme.escape_character) scheme

unfoldable pub advance_escape_scan_index : Text → ℕ → EscapeSchemeDef → ℕ
unfolding scan_kind
advance_escape_scan_index bytes i scheme =
    let next = scan_kind scheme.escape_kind bytes i scheme in
    if leb (length bytes) i then i else next

abbrev pub map_some : (ℕ → ℕ) → Option ℕ → Option ℕ
map_some f none = none
map_some f (some n) = some (f n)

-- `windows(needle.len()).position(|w| w == needle)`
unfoldable pub window_position : Text → Text → Option ℕ
unfolding starts_with_bytes
window_position needle [] = none
window_position needle (c ∷ s) =
    let later = map_some suc (window_position needle s) in
    if starts_with_bytes needle (c ∷ s) then some 0 else later

unfoldable pub find_subslice : Text → ℕ → Text → Option ℕ
unfolding window_position
find_subslice haystack from needle =
    if is_empty needle
    then some from
    else map_some (λ p. from + p) (window_position needle (drop from haystack))

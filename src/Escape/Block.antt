-- ===== src/Escape/Block.antt =====
-- The escape block of dfdl-vm/src/vm/escape.rs: `unescape_block` and `escape_block_field`, and the
-- two entries that choose by the kind of the scheme.
use aitest.Prelude.{
  ℕ, ◌-◌, Bool, true, false, not, ◌&&◌, ◌||◌, Option, none, some, List, [], ◌∷◌, ◌++◌, length, drop,
  take, ltb, ◌==◌, if◌then◌else◌,
}
use aitest.Error.{text, invalid_value, Result, ok, err}
use aitest.Text.{Text}
use aitest.Text.Slices.{starts_with_bytes, ends_with_bytes, contains_bytes, same_bytes, is_empty}
use aitest.Text.Utf8.{from_utf8_lossy}
use aitest.Escape.{
  EscapeKind, escape_character, escape_block, EscapeSchemeDef, Piece, or_empty,
  extra_escaped_char_len, input_contains_extra_escaped, rewrite,
}
use aitest.Escape.Character.{matched_markup, unescape_character, escape_character_field}
use aitest.Escape.Scan.{find_unescaped_block_end}

-- Behind an escape-escape character that protects none of the markers: one of the extra characters,
-- or else the round copies the byte `c` that it stands at.
unfoldable pub after_block_escape : Option ℕ → ℕ → Text → Text → Piece
after_block_escape none c s next = record { out = c ∷ []; left = s }
after_block_escape (some n) c s next = record { out = take n next; left = drop n next }

module _ (start end ee : Text) where
  unfoldable pub unescape_block_round : List ℕ → Bool → ℕ → Text → Piece
  unfolding starts_with_bytes same_bytes after_block_escape extra_escaped_char_len
  unescape_block_round extras first c s =
      let next = drop (length ee) (c ∷ s) in
      if starts_with_bytes ee (c ∷ s)
      then if starts_with_bytes end next
        then record {
          out = if same_bytes end (ee ++ ee) then ee else end;
          left = drop (length end) next;
        }
        else if starts_with_bytes start next
        then record { out = start; left = drop (length start) next }
        else if starts_with_bytes ee next
        then record { out = ee; left = drop (length ee) next }
        else after_block_escape (extra_escaped_char_len next extras) c s next
      else record { out = c ∷ []; left = s }

  -- The text between the markers, with its escapes.
  unfoldable pub unescape_inner : List ℕ → Text → Text
  unescape_inner extras inner =
      if is_empty ee then inner else from_utf8_lossy (rewrite (unescape_block_round extras) inner)

unfoldable pub unescape_to : Option ℕ → EscapeSchemeDef → Text → Result Text
unescape_to none scheme input = err (invalid_value (text "Parse Error: unclosed escape block"))
unescape_to (some end_idx) scheme input =
    let start = or_empty scheme.escape_block_start in
    ok (
      unescape_inner start (or_empty scheme.escape_block_end)
        (or_empty scheme.escape_escape_character) scheme.extra_escaped_characters
        (take (end_idx - length start) (drop (length start) input)))

unfoldable pub unescape_block : Text → EscapeSchemeDef → Result Text
unescape_block input scheme =
    let start = or_empty scheme.escape_block_start in
    let end = or_empty scheme.escape_block_end in
    let ee = or_empty scheme.escape_escape_character in
    let found = find_unescaped_block_end input (length start) end ee in
    if is_empty start || is_empty end
    then ok input
    else if starts_with_bytes start input
    then unescape_to found scheme input
    else ok input

unfoldable pub block_interior_markup_only : EscapeSchemeDef → List Text
block_interior_markup_only scheme =
    let start = or_empty scheme.escape_block_start in
    let end = or_empty scheme.escape_block_end in
    (if is_empty start then [] else start ∷ []) ++ (if is_empty end then [] else end ∷ [])

unfoldable pub contains_markup : Text → List Text → Bool
unfolding contains_bytes
contains_markup input [] = false
contains_markup input (m ∷ markup) =
    not (is_empty m) && contains_bytes m input || contains_markup input markup

-- Whether an end marker in the data asks for a block around it.
unfoldable pub end_needs_wrap : Text → Text → Bool
unfolding starts_with_bytes ends_with_bytes
end_needs_wrap input end =
    if starts_with_bytes end input
    then false
    else if ends_with_bytes end input && ltb (length end) (length input)
    then true
    else not (ends_with_bytes end input)

unfoldable pub block_field_needs_wrap : Text → EscapeSchemeDef → List Text → Bool
unfolding contains_markup input_contains_extra_escaped contains_bytes end_needs_wrap
block_field_needs_wrap input scheme markup =
    let start = or_empty scheme.escape_block_start in
    let end = or_empty scheme.escape_block_end in
    if contains_markup input markup
    then true
    else if input_contains_extra_escaped input scheme.extra_escaped_characters
    then true
    else if not (is_empty start) && contains_bytes start input
    then true
    else if not (is_empty end) && contains_bytes end input
    then end_needs_wrap input end
    else false

-- A round of the interior that meets the end marker.
unfoldable pub escape_end : Bool → Text → Text → Bool → ℕ → Text → Piece
escape_end will_wrap end ee first c s =
    let at_suffix = length end == length (c ∷ s) in
    let escapes =
      if first && not will_wrap
      then false
      else if at_suffix && will_wrap
      then true
      else not at_suffix in
    record { out = (if escapes then ee else []) ++ end; left = drop (length end) (c ∷ s) }

unfoldable pub escape_interior_markup : Option Text → Text → ℕ → Text → Piece
unfolding starts_with_bytes
escape_interior_markup (some m) ee c s = record { out = ee ++ m; left = drop (length m) (c ∷ s) }
escape_interior_markup none ee c s =
    if not (is_empty ee) && starts_with_bytes ee (c ∷ s)
    then record { out = ee ++ ee; left = drop (length ee) (c ∷ s) }
    else record { out = c ∷ []; left = s }

-- `ee` is empty where the scheme has no escape-escape character.
unfoldable pub escape_interior_round :
    Text → Text → Text → List Text → Bool → Bool → ℕ → Text → Piece
unfolding starts_with_bytes escape_end escape_interior_markup matched_markup
escape_interior_round start end ee markup will_wrap first c s =
    if not (is_empty start) && starts_with_bytes start (c ∷ s)
    then record { out = (if first then [] else ee) ++ start; left = drop (length start) (c ∷ s) }
    else if not (is_empty end) && starts_with_bytes end (c ∷ s)
    then escape_end will_wrap end ee first c s
    else escape_interior_markup (matched_markup markup (c ∷ s)) ee c s

unfoldable pub escape_block_interior : Text → EscapeSchemeDef → List Text → Bool → Text
escape_block_interior input scheme markup will_wrap = from_utf8_lossy (
    rewrite
      (escape_interior_round (or_empty scheme.escape_block_start) (or_empty scheme.escape_block_end)
        (or_empty scheme.escape_escape_character) markup will_wrap)
      input)

unfoldable pub escape_block_field : Text → EscapeSchemeDef → List Text → Text
escape_block_field input scheme markup =
    let start = or_empty scheme.escape_block_start in
    let end = or_empty scheme.escape_block_end in
    let needs_wrap = block_field_needs_wrap input scheme markup in
    let interior_markup = block_interior_markup_only scheme in
    let inner = escape_block_interior input scheme interior_markup needs_wrap in
    if is_empty start || is_empty end
    then input
    else if not needs_wrap
    then inner
    else start ++ inner ++ end

unfoldable pub unescape_kind : EscapeKind → Text → EscapeSchemeDef → Result Text
unfolding unescape_block unescape_character
unescape_kind escape_block input scheme = unescape_block input scheme
unescape_kind escape_character input scheme = ok (unescape_character input scheme)

unfoldable pub unescape_field_text : Text → EscapeSchemeDef → Result Text
unfolding unescape_kind
unescape_field_text input scheme = unescape_kind scheme.escape_kind input scheme

unfoldable pub escape_kind_field : EscapeKind → Text → EscapeSchemeDef → List Text → Text
unfolding escape_block_field escape_character_field
escape_kind_field escape_block input scheme markup = escape_block_field input scheme markup
escape_kind_field escape_character input scheme markup = escape_character_field input scheme markup

unfoldable pub escape_field_text : Text → EscapeSchemeDef → List Text → Text
unfolding escape_kind_field
escape_field_text input scheme markup = escape_kind_field scheme.escape_kind input scheme markup

-- ===== src/Escape/Character.antt =====
-- The escape character of dfdl-vm/src/vm/escape.rs: `unescape_character` and
-- `escape_character_field`.
use aitest.Prelude.{
  ℕ, ◌+◌, Bool, false, not, ◌&&◌, Option, none, some, List, [], ◌∷◌, ◌++◌, length, drop, take,
  if◌then◌else◌,
}
use aitest.Text.{Text}
use aitest.Text.Slices.{starts_with_bytes, is_empty}
use aitest.Text.Utf8.{from_utf8_lossy}
use aitest.Escape.{EscapeSchemeDef, Piece, non_empty, extra_escaped_char_len, rewrite}

-- Whether the escape-escape character stands before the escape character.
unfoldable pub escaped_escape : Option Text → Text → Text → Bool
unfolding starts_with_bytes
escaped_escape none esc s = false
escaped_escape (some ee) esc s =
    starts_with_bytes ee s && starts_with_bytes esc (drop (length ee) s)

abbrev pub length_of : Option Text → ℕ
length_of none = 0
length_of (some s) = length s

unfoldable pub kept_char : Option ℕ → ℕ → Text → Piece
kept_char none c s = record { out = c ∷ []; left = s }
kept_char (some n) c s = record { out = take n (c ∷ s); left = drop n (c ∷ s) }

-- Behind an escape character: one of the extra characters, or one byte, as it stands.
unfoldable pub after_escape : List ℕ → Text → Piece
unfolding kept_char extra_escaped_char_len
after_escape extras [] = record { out = []; left = [] }
after_escape extras (c ∷ s) = kept_char (extra_escaped_char_len (c ∷ s) extras) c s

-- `for term in markup`: the first term that is not empty and stands here.
unfoldable pub matched_markup : List Text → Text → Option Text
unfolding starts_with_bytes
matched_markup [] s = none
matched_markup (term ∷ markup) s =
    let other = matched_markup markup s in
    if not (is_empty term) && starts_with_bytes term s then some term else other

module _ (esc : Text) (ee : Option Text) where
  unfoldable pub unescape_character_round : List ℕ → Bool → ℕ → Text → Piece
  unfolding escaped_escape after_escape starts_with_bytes
  unescape_character_round extras first c s =
      if escaped_escape ee esc (c ∷ s)
      then record { out = esc; left = drop (length_of ee + length esc) (c ∷ s) }
      else if starts_with_bytes esc (c ∷ s)
      then after_escape extras (drop (length esc) (c ∷ s))
      else record { out = c ∷ []; left = s }

  abbrev pub escaped_escape_out : Text
  escaped_escape_out = elim ee [ none ↦ esc | some e ↦ e ++ esc ]

  unfoldable pub escape_other : ℕ → Text → Piece
  unfolding starts_with_bytes
  escape_other c s =
      if starts_with_bytes esc (c ∷ s)
      then record { out = escaped_escape_out; left = drop (length esc) (c ∷ s) }
      else record { out = c ∷ []; left = s }

  unfoldable pub escape_markup : Option Text → ℕ → Text → Piece
  unfolding escape_other
  escape_markup none c s = escape_other c s
  escape_markup (some term) c s = record { out = esc ++ term; left = drop (length term) (c ∷ s) }

  unfoldable pub escape_character_round : List Text → Bool → ℕ → Text → Piece
  unfolding escape_markup matched_markup
  escape_character_round markup first c s = escape_markup (matched_markup markup (c ∷ s)) c s

-- The two functions with the escape character at hand: empty or missing, nothing is escaped.
unfoldable pub unescape_character_with : Option Text → EscapeSchemeDef → Text → Text
unfolding from_utf8_lossy rewrite unescape_character_round
unescape_character_with none scheme input = input
unescape_character_with (some esc) scheme input = from_utf8_lossy (
    rewrite
      (unescape_character_round esc (non_empty scheme.escape_escape_character)
        scheme.extra_escaped_characters)
      input)

unfoldable pub unescape_character : Text → EscapeSchemeDef → Text
unfolding unescape_character_with
unescape_character input scheme =
    unescape_character_with (non_empty scheme.escape_character) scheme input

unfoldable pub escape_character_with : Option Text → EscapeSchemeDef → List Text → Text → Text
unfolding from_utf8_lossy rewrite escape_character_round
escape_character_with none scheme markup input = input
escape_character_with (some esc) scheme markup input =
    from_utf8_lossy
      (rewrite (escape_character_round esc (non_empty scheme.escape_escape_character) markup) input)

unfoldable pub escape_character_field : Text → EscapeSchemeDef → List Text → Text
unfolding escape_character_with
escape_character_field input scheme markup =
    escape_character_with (non_empty scheme.escape_character) scheme markup input

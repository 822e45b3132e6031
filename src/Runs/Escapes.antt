-- ===== src/Runs/Escapes.antt =====
-- Runs of the escape schemes.
use aitest.Prelude.{◌≡◌, refl, arith, true, Option, none, some, List, [], ◌∷◌}
use aitest.Error.{ok, err, invalid_value, text}
use aitest.Text.{Text}
use aitest.Text.Utf8.{from_utf8_lossy}
use aitest.Escape.{EscapeKind, escape_character, escape_block, EscapeSchemeDef, rewrite}
use aitest.Escape.Character.{
  unescape_character, escape_character_field, unescape_character_round, escape_character_round,
}
use aitest.Escape.Block.{
  unescape_field_text, escape_field_text, unescape_block, escape_block_field, unescape_to,
  unescape_inner, block_field_needs_wrap, escape_block_interior, block_interior_markup_only,
  unescape_block_round, escape_interior_round,
}
use aitest.Escape.Scan.{find_unescaped_block_end, advance_escape_scan_index}
use aitest.Escape.Bounds.{IsEndFrom, find_unescaped_block_end-IsEndFrom}
use aitest.Escape.Progress.{IsNext, advance_escape_scan_index-IsNext}
use aitest.Escape.Termination.{Loop, rewrite-character_loops}
use aitest.Escape.Search.{Search}
use aitest.Escape.RoundTrip.{IsScheme, unescape_character-escape_character_field}
use aitest.Escape.BlockRoundTrip.{IsBlockScheme, unescape_block-escape_block_field}

abbrev scheme_of :
    EscapeKind → Option Text → Option Text → Option Text → Option Text → EscapeSchemeDef
scheme_of kind esc ee start end = record {
  escape_kind = kind;
  escape_character_raw = none;
  escape_character = esc;
  escape_escape_character_raw = none;
  escape_escape_character = ee;
  escape_block_start_raw = none;
  escape_block_start = start;
  escape_block_end_raw = none;
  escape_block_end = end;
  extra_escaped_characters_raw = none;
  extra_escaped_characters = b'?' ∷ [];
}

abbrev slashes : EscapeSchemeDef
slashes = scheme_of escape_character (some (b'/' ∷ [])) (some (b'^' ∷ [])) none none

abbrev bare_slashes : EscapeSchemeDef
bare_slashes = scheme_of escape_character (some (b'/' ∷ [])) none none none

abbrev brackets : EscapeSchemeDef
brackets = scheme_of escape_block none (some (b'#' ∷ [])) (some (b'[' ∷ [])) (some (b']' ∷ []))

abbrev quotes : EscapeSchemeDef
quotes = scheme_of escape_block none (some (b'#' ∷ [])) (some (b'"' ∷ [])) (some (b'"' ∷ []))

abbrev commas : List Text
commas = (b',' ∷ []) ∷ []

-- `a,b` and `a/b`
escaped_fields :
    (escape_field_text (b'a' ∷ b',' ∷ b'b' ∷ []) slashes commas ≡ b'a' ∷ b'/' ∷ b',' ∷ b'b' ∷ [])
    × (escape_field_text (b'a' ∷ b'/' ∷ b'b' ∷ []) slashes commas ≡ b'a' ∷ b'^' ∷ b'/' ∷ b'b' ∷ [])
unfolding escape_field_text
escaped_fields = (refl, refl)

-- Without an escape-escape character, `a/b` is written as it stands, and reads back as `ab`.
lost_escape :
    unescape_field_text
      (escape_field_text (b'a' ∷ b'/' ∷ b'b' ∷ []) bare_slashes commas)
      bare_slashes
    ≡ ok (b'a' ∷ b'b' ∷ [])
unfolding unescape_field_text escape_field_text
lost_escape = refl

-- `^,` is written `^/,`, where the escape-escape character protects the escape character.
lost_markup :
    unescape_field_text (escape_field_text (b'^' ∷ b',' ∷ []) slashes commas) slashes
    ≡ ok (b'/' ∷ b',' ∷ [])
unfolding unescape_field_text escape_field_text
lost_markup = refl

-- `a,#` is written `[a,##]`, whose end marker counts as escaped.
unclosed :
    unescape_field_text (escape_field_text (b'a' ∷ b',' ∷ b'#' ∷ []) brackets commas) brackets
    ≡ err (invalid_value (text "Parse Error: unclosed escape block"))
unfolding unescape_field_text escape_field_text find_unescaped_block_end unescape_to
    escape_block_field escape_block_interior block_field_needs_wrap block_interior_markup_only
    escape_interior_round rewrite from_utf8_lossy unescape_block
unclosed = refl

-- `a#b` is written without a block and with its `#` doubled, which nothing undoes.
doubled :
    unescape_field_text (escape_field_text (b'a' ∷ b'#' ∷ b'b' ∷ []) brackets commas) brackets
    ≡ ok (b'a' ∷ b'#' ∷ b'#' ∷ b'b' ∷ [])
unfolding unescape_field_text escape_field_text find_unescaped_block_end unescape_to
    escape_block_field escape_block_interior block_field_needs_wrap block_interior_markup_only
    escape_interior_round rewrite from_utf8_lossy unescape_block
doubled = refl

-- Between quotes, `",` is written `"","`, which reads back as nothing.
lost_quote : unescape_field_text (escape_field_text (b'"' ∷ b',' ∷ []) quotes commas) quotes ≡ ok []
unfolding unescape_field_text escape_field_text find_unescaped_block_end unescape_to
    escape_block_field escape_block_interior block_field_needs_wrap block_interior_markup_only
    escape_interior_round rewrite from_utf8_lossy unescape_block unescape_inner unescape_block_round
lost_quote = refl

slashes-IsScheme : IsScheme b'/' (some b'^') slashes commas
slashes-IsScheme = record {
  character = refl;
  escape_escape = refl;
  distinct = omega arith;
  ascii = (omega arith, omega arith);
  extras = (omega arith, tt);
  terms = ((tt, tt), ((omega arith, tt), tt));
}

unescape_character-escape_character_field_example :
    unescape_character (escape_character_field (b'a' ∷ b',' ∷ b'/' ∷ []) slashes commas) slashes
    ≡ b'a' ∷ b',' ∷ b'/' ∷ []
unescape_character-escape_character_field_example =
    unescape_character-escape_character_field b'/' (some b'^') slashes commas
      (b'a' ∷ b',' ∷ b'/' ∷ []) slashes-IsScheme (omega arith, (omega arith, (omega arith, tt)))
      (ground arith, (ground arith, (ground arith, tt)))

brackets-IsBlockScheme : IsBlockScheme b'[' b']' b'#' brackets
brackets-IsBlockScheme = record {
  start = refl;
  end = refl;
  escape_escape = refl;
  distinct = record { ab = ground arith; ax = ground arith; bx = ground arith };
  ascii = (omega arith, (omega arith, omega arith));
}

wraps : block_field_needs_wrap (b'a' ∷ b',' ∷ b']' ∷ []) brackets commas ≡ true
unfolding block_field_needs_wrap
wraps = refl

unescape_block-escape_block_field_example :
    unescape_block (escape_block_field (b'a' ∷ b',' ∷ b']' ∷ []) brackets commas) brackets
    ≡ ok (b'a' ∷ b',' ∷ b']' ∷ [])
unescape_block-escape_block_field_example =
    unescape_block-escape_block_field b'[' b']' b'#' brackets (b'a' ∷ b',' ∷ b']' ∷ []) commas
      brackets-IsBlockScheme (omega arith, (omega arith, (omega arith, tt)))
      (ground arith, (ground arith, (ground arith, tt))) wraps

advance_escape_scan_index-IsNext_example :
    IsNext 1 4 (advance_escape_scan_index (b'a' ∷ b'[' ∷ b',' ∷ b']' ∷ []) 1 brackets)
advance_escape_scan_index-IsNext_example =
    advance_escape_scan_index-IsNext (b'a' ∷ b'[' ∷ b',' ∷ b']' ∷ []) 1 brackets (omega arith)

find_unescaped_block_end-IsEndFrom_example :
    IsEndFrom
      (b']' ∷ [])
      1
      (b'#' ∷ b']' ∷ b']' ∷ [])
      (find_unescaped_block_end (b'[' ∷ b'#' ∷ b']' ∷ b']' ∷ []) 1 (b']' ∷ []) (b'#' ∷ []))
find_unescaped_block_end-IsEndFrom_example =
    find_unescaped_block_end-IsEndFrom (b'[' ∷ b'#' ∷ b']' ∷ b']' ∷ []) 1 (b']' ∷ []) (b'#' ∷ [])

rewrite-character_loops_example :
    Loop
      (unescape_character_round (b'/' ∷ []) none [])
      true
      (b'/' ∷ b',' ∷ b'/' ∷ [])
      (rewrite (unescape_character_round (b'/' ∷ []) none []) (b'/' ∷ b',' ∷ b'/' ∷ []))
    × Loop
        (escape_character_round (b'/' ∷ []) none commas)
        true
        (b'/' ∷ b',' ∷ b'/' ∷ [])
        (rewrite (escape_character_round (b'/' ∷ []) none commas) (b'/' ∷ b',' ∷ b'/' ∷ []))
rewrite-character_loops_example =
    rewrite-character_loops (b'/' ∷ []) none [] commas (b'/' ∷ b',' ∷ b'/' ∷ []) (omega arith)

-- ===== src/Escape/Progress.antt =====
-- The index that a scan of dfdl-vm/src/vm/escape.rs goes on at: further on, and inside the data.
use aitest.Prelude.{
  ℕ, ◌+◌, ◌≤◌, ◌<◌, ◌≡◌, arith, true, not, ◌&&◌, Option, none, some, List, [], ◌∷◌, inl, inr,
  length, drop, ltb, Bool-cases, length-drop, lt→leb,
}
use aitest.Text.{Text}
use aitest.Text.Slices.{starts_with_bytes, is_empty, starts_with_bytes-length}
use aitest.Text.Utf8.{encode_utf8, encode_utf8-positive}
use aitest.Escape.{
  EscapeKind, escape_character, escape_block, EscapeSchemeDef, or_empty, non_empty,
  utf8_char_len_at, extra_escaped_char_len, or_else,
}
use aitest.Escape.Character.{escaped_escape, length_of}
use aitest.Escape.Scan.{
  past_block, scan_block, past_char, scan_character, scan_kind, advance_escape_scan_index,
}
use aitest.Escape.Bounds.{IsEndFrom, find_unescaped_block_end-IsEndFrom}

-- The length of a character that stands at the front of `s`.
unfoldable IsCharLen : Text → Option ℕ → Type 0
IsCharLen s none = Unit
IsCharLen s (some n) = (1 ≤ n) × (n ≤ length s)

utf8_char_len_at-IsCharLen : (s : Text) (ch : ℕ) → IsCharLen s (utf8_char_len_at s ch)
unfolding IsCharLen utf8_char_len_at
utf8_char_len_at-IsCharLen s ch = elim (Bool-cases (starts_with_bytes (encode_utf8 ch) s)) [
  | inl e ↦ rw e (encode_utf8-positive ch, starts_with_bytes-length (encode_utf8 ch) s e)
  | inr e ↦ rw e tt
]

or_else-IsCharLen :
    (s : Text) (a b : Option ℕ) → IsCharLen s a → IsCharLen s b → IsCharLen s (or_else a b)
or_else-IsCharLen s none b ha hb = hb
or_else-IsCharLen s (some n) b ha hb = ha

extra_escaped_char_len-IsCharLen :
    (s : Text) (extras : List ℕ) → IsCharLen s (extra_escaped_char_len s extras)
unfolding extra_escaped_char_len
extra_escaped_char_len-IsCharLen s [] = unfold IsCharLen in tt
extra_escaped_char_len-IsCharLen s (c ∷ extras) =
    or_else-IsCharLen s _ _ (utf8_char_len_at-IsCharLen s c)
      (extra_escaped_char_len-IsCharLen s extras)

-- An index behind `i` in data of `size` bytes.
pub record IsNext (i size r : ℕ) : Type 0 where
  pub further : i < r
  pub inside : r ≤ size

one_further : (i size : ℕ) → i < size → IsNext i size (i + 1)
one_further i size h = record { further = omega arith; inside = omega arith }

not_empty_length : (s : Text) → not (is_empty s) ≡ true → 1 ≤ length s
not_empty_length [] h = ground arith
not_empty_length (c ∷ s) h = omega arith

past_block-IsNext :
    (bytes end : Text) (i n : ℕ) (found : Option ℕ)
    → i < length bytes
    → 1 ≤ n
    → i + n ≤ length bytes
    → IsEndFrom end (i + n) (drop (i + n) bytes) found
    → IsNext i (length bytes) (past_block found i end)
unfolding IsEndFrom past_block
past_block-IsNext bytes end i n none h some_bytes fits found = one_further i (length bytes) h
past_block-IsNext bytes end i n (some p) h some_bytes fits found = record {
  further = omega (arith, found.0);
  inside = omega (arith, found.1.0, length-drop (i + n) bytes);
}

scan_block-IsNext :
    (bytes : Text) (i : ℕ) (scheme : EscapeSchemeDef)
    → i < length bytes
    → IsNext i (length bytes) (scan_block bytes i scheme)
unfolding scan_block
scan_block-IsNext bytes i scheme h =
    let start = or_empty scheme.escape_block_start in
    elim (Bool-cases (not (is_empty start) && starts_with_bytes start (drop i bytes))) [
      | inl e ↦
          let some_bytes : not (is_empty start) ≡ true = ground arith in
          let here : starts_with_bytes start (drop i bytes) ≡ true = ground arith in
          let positive : 1 ≤ length start = not_empty_length start some_bytes in
          let fits : i + length start ≤ length bytes =
            omega (arith, starts_with_bytes-length start _ here, length-drop i bytes) in
          rw e (
            past_block-IsNext bytes _ i (length start) _ h positive fits
              (find_unescaped_block_end-IsEndFrom bytes _ _ _))
      | inr e ↦ rw e (one_further i (length bytes) h)
    ]

past_char-IsNext :
    (bytes : Text) (i next : ℕ) (found : Option ℕ)
    → i < next
    → next < length bytes
    → IsCharLen (drop next bytes) found
    → IsNext i (length bytes) (past_char found next)
unfolding IsCharLen past_char
past_char-IsNext bytes i next none h inside found = record {
  further = omega arith;
  inside = omega arith;
}
past_char-IsNext bytes i next (some n) h inside found = record {
  further = omega (arith, found.0);
  inside = omega (arith, found.1, length-drop next bytes);
}

escaped_escape-length :
    (ee : Option Text) (esc s : Text)
    → escaped_escape ee esc s ≡ true
    → length_of ee + length esc ≤ length s
unfolding escaped_escape
escaped_escape-length none esc s h = ground arith
escaped_escape-length (some ee) esc s h =
    let first : starts_with_bytes ee s ≡ true = ground arith in
    let second : starts_with_bytes esc (drop (length ee) s) ≡ true = ground arith in
    omega (
      arith,
      starts_with_bytes-length ee s first,
      starts_with_bytes-length esc _ second,
      length-drop (length ee) s,
    )

scan_character-IsNext :
    (bytes esc : Text) (i : ℕ) (scheme : EscapeSchemeDef)
    → i < length bytes
    → 1 ≤ length esc
    → IsNext i (length bytes) (scan_character bytes i (some esc) scheme)
unfolding scan_character
scan_character-IsNext bytes esc i scheme h positive =
    let ee = non_empty scheme.escape_escape_character in
    let next = i + length esc in
    let here = starts_with_bytes esc (drop i bytes) in
    elim (Bool-cases (escaped_escape ee esc (drop i bytes))) [
      | inl both ↦ rw both record {
        further = omega arith;
        inside = omega (arith, escaped_escape-length ee esc _ both, length-drop i bytes);
      }
      | inr not_both ↦ rw not_both (elim (Bool-cases (ltb next (length bytes) && here)) [
        | inl more ↦
            let before : ltb next (length bytes) ≡ true = ground arith in
            let inside : next < length bytes = ground arith in
            rw more (
              past_char-IsNext bytes i next _ (omega arith) inside (
                extra_escaped_char_len-IsCharLen (drop next bytes) scheme.extra_escaped_characters))
        | inr no_more ↦ rw no_more (elim (Bool-cases here) [
          | inl e ↦ rw e record {
            further = omega arith;
            inside = omega (arith, starts_with_bytes-length esc _ e, length-drop i bytes);
          }
          | inr e ↦ rw e (one_further i (length bytes) h)
        ])
      ])
    ]

scan_chosen-IsNext :
    (bytes : Text) (i : ℕ) (chosen : Option Text) (scheme : EscapeSchemeDef)
    → i < length bytes
    → IsNext i (length bytes) (scan_character bytes i (non_empty chosen) scheme)
scan_chosen-IsNext bytes i none scheme h = unfold scan_character in (one_further i (length bytes) h)
scan_chosen-IsNext bytes i (some []) scheme h =
    unfold scan_character in (one_further i (length bytes) h)
scan_chosen-IsNext bytes i (some (c ∷ esc)) scheme h =
    scan_character-IsNext bytes (c ∷ esc) i scheme h (omega arith)

scan_kind-IsNext :
    (kind : EscapeKind) (bytes : Text) (i : ℕ) (scheme : EscapeSchemeDef)
    → i < length bytes
    → IsNext i (length bytes) (scan_kind kind bytes i scheme)
unfolding scan_kind
scan_kind-IsNext escape_block bytes i scheme h = scan_block-IsNext bytes i scheme h
scan_kind-IsNext escape_character bytes i scheme h =
    scan_chosen-IsNext bytes i scheme.escape_character scheme h

-- At an index inside the data, the scan goes on at an index that is further on and not behind the
-- end of the data, under every escape scheme.
pub advance_escape_scan_index-IsNext :
    (bytes : Text) (i : ℕ) (scheme : EscapeSchemeDef)
    → i < length bytes
    → IsNext i (length bytes) (advance_escape_scan_index bytes i scheme)
unfolding advance_escape_scan_index
advance_escape_scan_index-IsNext bytes i scheme h =
    rw (lt→leb (length bytes) i h) (scan_kind-IsNext scheme.escape_kind bytes i scheme h)

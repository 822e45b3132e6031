-- ===== src/Escape/RoundTrip.antt =====
-- `escape_character_field` of dfdl-vm/src/vm/escape.rs against `unescape_character`.
use aitest.Prelude.{
  ℕ, zero, suc, ◌≤◌, ◌≡◌, refl, ap, ◌∙◌, arith, Bool, true, false, Option, none, some, List, [],
  ◌∷◌, inl, inr, length, Bool-cases, All, All-append,
}
use aitest.Text.{Text}
use aitest.Text.Slices.{starts_with_bytes, All-drop}
use aitest.Text.Utf8.{from_utf8_lossy, IsAscii, from_utf8_lossy-ascii}
use aitest.Escape.{EscapeSchemeDef, Piece, non_empty, rewrite_rounds}
use aitest.Escape.Termination.{IsMatch, matched_markup-IsMatch, escape_character_round-Shortens}
use aitest.Escape.Character.{
  matched_markup, escape_other, escape_markup, escape_character_round, unescape_character,
  escape_character_field,
}
use aitest.Escape.Undo.{
  escape_bytes, IsKept, IsTerm, IsDistinct, undo, undone, undone-nil, undone-round,
}

-- What holds of each byte holds of the bytes that a round leaves.
escape_markup-rest :
    (P : ℕ → Type 0) (esc : Text) (ee : Option Text) (c : ℕ) (s : Text) (found : Option Text)
    → All P (c ∷ s)
    → All P (escape_markup esc ee found c s).left
unfolding escape_markup escape_other
escape_markup-rest P esc ee c s none h = elim (Bool-cases (starts_with_bytes esc (c ∷ s))) [
  | inl e ↦ rw e (All-drop P (length esc) (c ∷ s) h)
  | inr e ↦ rw e h.1
]
escape_markup-rest P esc ee c s (some term) h = All-drop P (length term) (c ∷ s) h

module _ (k : ℕ) (ee : Option ℕ) (extras : List ℕ) (markup : List Text) where
  unfoldable redo : Bool → ℕ → Text → Piece
  redo = escape_character_round (k ∷ []) (escape_bytes ee) markup

  undone-redo :
      IsDistinct k ee
      → All IsAscii extras
      → All (IsTerm k ee) markup
      → (fuel : ℕ) (first : Bool) (s : Text) → length s ≤ fuel
      → All (IsKept k ee) s
      → undone k ee extras true (rewrite_rounds redo fuel first s) ≡ s
  unfolding redo rewrite_rounds escape_character_round
  undone-redo distinct ascii terms zero first [] h kept = undone-nil k ee extras
  undone-redo distinct ascii terms zero first (c ∷ s) h kept = absurd (omega arith)
  undone-redo distinct ascii terms (suc fuel) first [] h kept = undone-nil k ee extras
  undone-redo distinct ascii terms (suc fuel) first (c ∷ s) h kept =
      let found = matched_markup markup (c ∷ s) in
      let rest = (escape_markup (k ∷ []) (escape_bytes ee) found c s).left in
      let short : length rest ≤ length s =
        escape_character_round-Shortens (k ∷ []) (escape_bytes ee) markup (omega arith) first c s in
      undone-round k extras ee c s _ found distinct ascii kept.0
        (matched_markup-IsMatch (IsTerm k ee) markup (c ∷ s) terms)
        (undone-redo distinct ascii terms fuel false rest (omega arith)
          (escape_markup-rest (IsKept k ee) (k ∷ []) (escape_bytes ee) c s found kept))

abbrev pub AllOf : (ℕ → Type 0) → Option ℕ → Type 0
AllOf P none = Unit
AllOf P (some e) = P e

-- What holds of the escape characters, of the terms and of each byte holds of what a round writes.
escape_markup-out :
    (P : ℕ → Type 0) (k : ℕ) (ee : Option ℕ) (c : ℕ) (s : Text) (found : Option Text)
    → P k
    → AllOf P ee
    → P c
    → IsMatch (All P) (c ∷ s) found
    → All P (escape_markup (k ∷ []) (escape_bytes ee) found c s).out
unfolding escape_markup escape_other
escape_markup-out P k none c s none hk he hc found =
    elim (Bool-cases (starts_with_bytes (k ∷ []) (c ∷ s))) [
      | inl e ↦ rw e (hk, tt)
      | inr e ↦ rw e (hc, tt)
    ]
escape_markup-out P k (some x) c s none hk he hc found =
    elim (Bool-cases (starts_with_bytes (k ∷ []) (c ∷ s))) [
      | inl e ↦ rw e (he, (hk, tt))
      | inr e ↦ rw e (hc, tt)
    ]
escape_markup-out P k ee c s (some term) hk he hc found = (hk, found.0)

redo-All :
    (P : ℕ → Type 0) (k : ℕ) (ee : Option ℕ) (markup : List Text)
    → P k
    → AllOf P ee
    → All (All P) markup
    → (fuel : ℕ) (first : Bool) (s : Text) → All P s
    → All P (rewrite_rounds (escape_character_round (k ∷ []) (escape_bytes ee) markup) fuel first s)
unfolding rewrite_rounds escape_character_round
redo-All P k ee markup hk he hm zero first s h = tt
redo-All P k ee markup hk he hm (suc fuel) first [] h = tt
redo-All P k ee markup hk he hm (suc fuel) first (c ∷ s) h =
    let found = matched_markup markup (c ∷ s) in
    All-append P _ _
      (escape_markup-out P k ee c s found hk he h.0
        (matched_markup-IsMatch (All P) markup (c ∷ s) hm))
      (redo-All P k ee markup hk he hm fuel false _
        (escape_markup-rest P (k ∷ []) (escape_bytes ee) c s found h))

-- A scheme with the escape character `k` and the escape-escape character `ee`, and markup that it
-- protects: ASCII, and behind its first byte no term holds one of the two characters.
pub record IsScheme (k : ℕ) (ee : Option ℕ) (scheme : EscapeSchemeDef) (markup : List Text)
    : Type 0 where
  pub character : scheme.escape_character ≡ some (k ∷ [])
  pub escape_escape : scheme.escape_escape_character ≡ escape_bytes ee
  pub distinct : IsDistinct k ee
  pub ascii : IsAscii k × AllOf IsAscii ee
  pub extras : All IsAscii scheme.extra_escaped_characters
  pub terms : All (IsTerm k ee) markup × All (All IsAscii) markup

non_empty-escape_bytes : (ee : Option ℕ) → non_empty (escape_bytes ee) ≡ escape_bytes ee
non_empty-escape_bytes none = refl
non_empty-escape_bytes (some e) = refl

escape_character_field-some :
    (k : ℕ) (ee : Option ℕ) (scheme : EscapeSchemeDef) (markup : List Text) (input : Text)
    → scheme.escape_character ≡ some (k ∷ [])
    → non_empty scheme.escape_escape_character ≡ escape_bytes ee
    → escape_character_field input scheme markup
      ≡ from_utf8_lossy (
          rewrite_rounds
            (redo k ee scheme.extra_escaped_characters markup)
            (length input)
            true
            input)
unfolding escape_character_field redo
escape_character_field-some k ee scheme markup input h same = rw (h, same) refl

unescape_character-some :
    (k : ℕ) (ee : Option ℕ) (scheme : EscapeSchemeDef) (input : Text)
    → scheme.escape_character ≡ some (k ∷ [])
    → non_empty scheme.escape_escape_character ≡ escape_bytes ee
    → unescape_character input scheme
      ≡ from_utf8_lossy (undone k ee scheme.extra_escaped_characters true input)
unfolding unescape_character undone undo
unescape_character-some k ee scheme input h same = rw (h, same) refl

-- An escaped field reads back as the field, for a scheme with an escape character of one byte, an
-- optional escape-escape character of one other byte, extra escaped characters and markup, all ASCII,
-- where no term of the markup holds one of the two characters behind its first byte, and for an ASCII
-- field that does not hold the escape-escape character, or without one the escape character.
pub unescape_character-escape_character_field :
    (k : ℕ) (ee : Option ℕ) (scheme : EscapeSchemeDef) (markup : List Text) (input : Text)
    → IsScheme k ee scheme markup
    → All IsAscii input
    → All (IsKept k ee) input
    → unescape_character (escape_character_field input scheme markup) scheme ≡ input
unescape_character-escape_character_field k ee scheme markup input h ascii kept =
    let extras = scheme.extra_escaped_characters in
    let same : non_empty scheme.escape_escape_character ≡ escape_bytes ee =
      ap non_empty h.escape_escape ∙ non_empty-escape_bytes ee in
    let written = rewrite_rounds (redo k ee extras markup) (length input) true input in
    let written_ascii : All IsAscii written =
      unfold redo in
      (redo-All IsAscii k ee markup h.ascii.0 h.ascii.1 h.terms.1 (length input) true input
        ascii) in
    let back : undone k ee extras true written ≡ input =
      undone-redo k ee extras markup h.distinct h.extras h.terms.0 (length input) true input
        (omega arith) kept in
    let escaped : escape_character_field input scheme markup ≡ written =
      escape_character_field-some k ee scheme markup input h.character same
      ∙ from_utf8_lossy-ascii written written_ascii in
    ap (λ (t : Text). unescape_character t scheme) escaped
    ∙ unescape_character-some k ee scheme written h.character same
    ∙ ap from_utf8_lossy back
    ∙ from_utf8_lossy-ascii input ascii

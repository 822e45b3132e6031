-- ===== src/Escape/Undo.antt =====
-- What the loop of `unescape_character` of dfdl-vm/src/vm/escape.rs makes of each piece that the loop
-- of `escape_character_field` writes.
use aitest.Prelude.{
  ℕ, ◌≡◌, ◌≢◌, refl, ap, ◌∙◌, arith, Bool, true, false, Option, none, some, List, [], ◌∷◌, ◌++◌,
  inl, inr, length, drop, ◌==◌, Bool-cases, All,
}
use aitest.Text.{Text}
use aitest.Text.Slices.{starts_with_bytes, starts_with_bytes-append}
use aitest.Text.Utf8.{encode_utf8-ascii, IsAscii}
use aitest.Escape.{
  Piece, utf8_char_len_at, extra_escaped_char_len, rewrite_rounds, rewrite_rounds-step, Shortens,
}
use aitest.Escape.Termination.{IsMatch, unescape_character_round-Shortens}
use aitest.Escape.Character.{
  escaped_escape, kept_char, after_escape, unescape_character_round, escape_other, escape_markup,
}

-- An escape-escape character, if there is one, is a byte that is not the escape character.
abbrev pub escape_bytes : Option ℕ → Option Text
escape_bytes none = none
escape_bytes (some e) = some (e ∷ [])

-- The byte `c` is neither the escape character nor the escape-escape character.
abbrev pub IsPlain : ℕ → Option ℕ → ℕ → Type 0
IsPlain k none c = c ≢ k
IsPlain k (some e) c = (c ≢ k) × (c ≢ e)

-- What the data may hold: not the escape-escape character, and the escape character only where an
-- escape-escape character stands for it.
abbrev pub IsKept : ℕ → Option ℕ → ℕ → Type 0
IsKept k none c = c ≢ k
IsKept k (some e) c = c ≢ e

-- The bytes of a term behind its first.
abbrev pub IsTerm : ℕ → Option ℕ → Text → Type 0
IsTerm k ee [] = Unit
IsTerm k ee (c ∷ s) = All (IsPlain k ee) s

extra_ascii :
    (extras : List ℕ) (c : ℕ) (s : Text)
    → All IsAscii extras
    → kept_char (extra_escaped_char_len (c ∷ s) extras) c s ≡ record { out = c ∷ []; left = s }
unfolding extra_escaped_char_len kept_char utf8_char_len_at starts_with_bytes
extra_ascii [] c s h = refl
extra_ascii (x ∷ extras) c s h =
    rw (encode_utf8-ascii x h.0)
      (elim (Bool-cases (x == c)) [ inl e ↦ rw e refl | inr e ↦ rw e (extra_ascii extras c s h.1) ])

abbrev pub IsDistinct : ℕ → Option ℕ → Type 0
IsDistinct k none = Unit
IsDistinct k (some e) = e ≢ k

-- The round that undoes, and the loop.
unfoldable pub undo : ℕ → Option ℕ → List ℕ → Bool → ℕ → Text → Piece
undo k ee extras = unescape_character_round (k ∷ []) (escape_bytes ee) extras

plain_round :
    (k : ℕ) (ee : Option ℕ) (extras : List ℕ) (first : Bool) (c : ℕ) (s : Text)
    → IsPlain k ee c
    → undo k ee extras first c s ≡ record { out = c ∷ []; left = s }
unfolding undo unescape_character_round escaped_escape starts_with_bytes
plain_round k none extras first c s h = ground arith
plain_round k (some e) extras first c s h = ground arith

escape_round :
    (k : ℕ) (ee : Option ℕ) (extras : List ℕ) (first : Bool) (c : ℕ) (s : Text)
    → IsDistinct k ee
    → All IsAscii extras
    → undo k ee extras first k (c ∷ s) ≡ record { out = c ∷ []; left = s }
unfolding undo unescape_character_round after_escape escaped_escape starts_with_bytes
escape_round k none extras first c s h ascii = ground (arith, extra_ascii extras c s ascii)
escape_round k (some e) extras first c s h ascii = ground (arith, extra_ascii extras c s ascii)

escaped_round :
    (k e : ℕ) (extras : List ℕ) (first : Bool) (s : Text)
    → undo k (some e) extras first e (k ∷ s) ≡ record { out = k ∷ []; left = s }
unfolding undo unescape_character_round escaped_escape starts_with_bytes
escaped_round k e extras first s = ground arith

undo-Shortens : (k : ℕ) (ee : Option ℕ) (extras : List ℕ) → Shortens (undo k ee extras)
unfolding undo
undo-Shortens k ee extras =
    unescape_character_round-Shortens (k ∷ []) (escape_bytes ee) extras (omega arith)

-- What the loop makes of `s`, with fuel for each byte.
unfoldable pub undone : ℕ → Option ℕ → List ℕ → Bool → Text → Text
undone k ee extras first s = rewrite_rounds (undo k ee extras) (length s) first s

module _ (k : ℕ) (ee : Option ℕ) (extras : List ℕ) where
  -- The round does not ask whether it is the first.
  undone-first : (first : Bool) (s : Text) → undone k ee extras first s ≡ undone k ee extras true s
  unfolding undone undo rewrite_rounds unescape_character_round
  undone-first first [] = refl
  undone-first first (c ∷ s) = refl

  pub undone-nil : undone k ee extras true [] ≡ []
  unfolding undone rewrite_rounds
  undone-nil = refl

  undone-step :
      (c : ℕ) (s : Text) (p : Piece)
      → undo k ee extras true c s ≡ p
      → undone k ee extras true (c ∷ s) ≡ p.out ++ undone k ee extras true p.left
  undone-step c s p e =
      unfold undone in
      (rewrite_rounds-step (undo k ee extras) (undo-Shortens k ee extras) true c s
        ∙ ap (λ (q : Piece). q.out ++ undone k ee extras false q.left) e
        ∙ ap (λ (r : Text). p.out ++ r) (undone-first false p.left))

  undone-plain :
      (t s : Text)
      → All (IsPlain k ee) t
      → undone k ee extras true (t ++ s) ≡ t ++ undone k ee extras true s
  undone-plain [] s h = refl
  undone-plain (c ∷ t) s h =
      undone-step c (t ++ s) _ (plain_round k ee extras true c (t ++ s) h.0)
      ∙ ap (λ (r : Text). c ∷ r) (undone-plain t s h.1)

  undone-markup :
      (d c : ℕ) (t s y : Text)
      → IsDistinct k ee
      → All IsAscii extras
      → All (IsPlain k ee) t
      → starts_with_bytes (d ∷ t) (c ∷ s) ≡ true
      → undone k ee extras true y ≡ drop (length (d ∷ t)) (c ∷ s)
      → undone k ee extras true (k ∷ d ∷ (t ++ y)) ≡ c ∷ s
  undone-markup d c t s y distinct ascii plain here rest =
      undone-step k (d ∷ (t ++ y)) _ (escape_round k ee extras true d (t ++ y) distinct ascii)
      ∙ ap (λ (r : Text). d ∷ r) (undone-plain t y plain ∙ ap (λ (r : Text). t ++ r) rest)
      ∙ starts_with_bytes-append (d ∷ t) (c ∷ s) here

module _ (k : ℕ) (extras : List ℕ) where
  -- A byte that no markup covers.
  undone-other :
      (ee : Option ℕ) (c : ℕ) (s y : Text)
      → IsKept k ee c
      → undone k ee extras true y ≡ (escape_other (k ∷ []) (escape_bytes ee) c s).left
      → undone k ee extras true ((escape_other (k ∷ []) (escape_bytes ee) c s).out ++ y) ≡ c ∷ s
  unfolding escape_other starts_with_bytes
  undone-other none c s y kept =
      let other : k == c ≡ false = ground arith in
      rw other (λ rest.
        undone-step k none extras c y _ (plain_round k none extras true c y kept)
        ∙ ap (λ (r : Text). c ∷ r) rest)
  undone-other (some e) c s y kept = elim (Bool-cases (k == c)) [
    | inl here ↦
        let same : k ≡ c = ground arith in
        rw here (λ rest.
          undone-step k (some e) extras e (k ∷ y) _ (escaped_round k e extras true y)
          ∙ ap (λ (r : Text). k ∷ r) rest
          ∙ ap (λ (x : ℕ). x ∷ s) same)
    | inr here ↦
        let plain : IsPlain k (some e) c = (ground arith, kept) in
        rw here (λ rest.
          undone-step k (some e) extras c y _ (plain_round k (some e) extras true c y plain)
          ∙ ap (λ (r : Text). c ∷ r) rest)
  ]

  pub undone-round :
      (ee : Option ℕ) (c : ℕ) (s y : Text) (found : Option Text)
      → IsDistinct k ee
      → All IsAscii extras
      → IsKept k ee c
      → IsMatch (IsTerm k ee) (c ∷ s) found
      → undone k ee extras true y ≡ (escape_markup (k ∷ []) (escape_bytes ee) found c s).left
      → undone k ee extras true ((escape_markup (k ∷ []) (escape_bytes ee) found c s).out ++ y)
        ≡ c ∷ s
  unfolding escape_markup
  undone-round ee c s y none distinct ascii kept found = undone-other ee c s y kept
  undone-round ee c s y (some []) distinct ascii kept found = absurd (omega (arith, found.1.0))
  undone-round ee c s y (some (d ∷ t)) distinct ascii kept found =
      undone-markup k ee extras d c t s y distinct ascii found.0 found.1.1

-- ===== src/Escape/BlockRoundTrip.antt =====
-- `escape_block_field` of dfdl-vm/src/vm/escape.rs against `unescape_block`.
use aitest.Prelude.{
  ℕ, ◌+◌, ◌-◌, ◌≡◌, ◌≢◌, refl, ap, ◌∙◌, arith, Bool, true, false, some, List, [], ◌∷◌, ◌++◌, inl,
  inr, length, take, ◌==◌, if◌then◌else◌, Bool-cases, All, All-append, take-append,
}
use aitest.Error.{ok}
use aitest.Text.{Text}
use aitest.Text.Slices.{starts_with_bytes_self}
use aitest.Text.Utf8.{from_utf8_lossy, IsAscii, from_utf8_lossy-ascii}
use aitest.Escape.{EscapeSchemeDef, rewrite, rewrite_rounds}
use aitest.Escape.Scan.{find_unescaped_block_end}
use aitest.Escape.Block.{
  unescape_block_round, unescape_inner, unescape_to, unescape_block, block_interior_markup_only,
  block_field_needs_wrap, escape_interior_round, escape_block_interior, escape_block_field,
}
use aitest.Escape.Interior.{
  IsBlock, interior_byte, interior, interior-round, undo, undo-interior, find-interior,
}

module _ (a b x : ℕ) (block : IsBlock a b x) where
  -- The loop of `escape_block_interior`, in a block.
  loop-interior :
      (s : Text) (first : Bool)
      → All (λ c. c ≢ x) s
      → rewrite_rounds
          (escape_interior_round (a ∷ []) (b ∷ []) (x ∷ []) ((a ∷ []) ∷ (b ∷ []) ∷ []) true)
          (length s)
          first
          s
        ≡ interior a b x first s
  unfolding interior rewrite_rounds
  loop-interior [] first h = refl
  loop-interior (c ∷ s) first h =
      rw (interior-round a b x first c s block h.0)
        (ap (λ (r : Text). interior_byte a b x first c ++ r) (loop-interior s false h.1))

  other-All :
      (P : ℕ → Type 0) (c : ℕ)
      → P a × (P b × P x)
      → P c
      → All P (if c == b then x ∷ b ∷ [] else c ∷ [])
  other-All P c m h = elim (Bool-cases (c == b)) [
    | inl e ↦ rw e (m.1.1, (m.1.0, tt))
    | inr e ↦ rw e (h, tt)
  ]

  byte-All :
      (P : ℕ → Type 0) (c : ℕ) (first : Bool)
      → P a × (P b × P x)
      → P c
      → All P (interior_byte a b x first c)
  unfolding interior_byte
  byte-All P c true m h = elim (Bool-cases (c == a)) [
    | inl e ↦ rw e (m.0, tt)
    | inr e ↦ rw e (other-All P c m h)
  ]
  byte-All P c false m h = elim (Bool-cases (c == a)) [
    | inl e ↦ rw e (m.1.1, (m.0, tt))
    | inr e ↦ rw e (other-All P c m h)
  ]

  interior-All :
      (P : ℕ → Type 0) (s : Text) (first : Bool)
      → P a × (P b × P x)
      → All P s
      → All P (interior a b x first s)
  unfolding interior interior_byte
  interior-All P [] first m h = tt
  interior-All P (c ∷ s) first m h =
      All-append P _ _ (byte-All P c first m h.0) (interior-All P s false m h.1)

-- A scheme with the markers `a` and `b` and the escape-escape character `x`, all ASCII.
pub record IsBlockScheme (a b x : ℕ) (scheme : EscapeSchemeDef) : Type 0 where
  pub start : scheme.escape_block_start ≡ some (a ∷ [])
  pub end : scheme.escape_block_end ≡ some (b ∷ [])
  pub escape_escape : scheme.escape_escape_character ≡ some (x ∷ [])
  pub distinct : IsBlock a b x
  pub ascii : IsAscii a × (IsAscii b × IsAscii x)

module _ (a b x : ℕ) (scheme : EscapeSchemeDef) (h : IsBlockScheme a b x scheme) where
  interior_markup : block_interior_markup_only scheme ≡ (a ∷ []) ∷ (b ∷ []) ∷ []
  unfolding block_interior_markup_only
  interior_markup = rw (h.start, h.end) refl

  escape_block_interior-open :
      (input : Text) (markup : List Text)
      → escape_block_interior input scheme markup true
        ≡ from_utf8_lossy
            (rewrite (escape_interior_round (a ∷ []) (b ∷ []) (x ∷ []) markup true) input)
  unfolding escape_block_interior
  escape_block_interior-open input markup = rw (h.start, h.end, h.escape_escape) refl

  escape_block_field-open :
      (input : Text) (markup : List Text)
      → block_field_needs_wrap input scheme markup ≡ true
      → escape_block_field input scheme markup
        ≡ a
          ∷ (escape_block_interior input scheme (block_interior_markup_only scheme) true ++ b ∷ [])
  unfolding escape_block_field
  escape_block_field-open input markup wraps = rw (wraps, h.start, h.end) refl

  interior_ascii :
      (input : Text)
      → All IsAscii input
      → from_utf8_lossy (interior a b x true input) ≡ interior a b x true input
  interior_ascii input ascii =
      from_utf8_lossy-ascii (interior a b x true input)
        (interior-All a b x h.distinct IsAscii input true h.ascii ascii)

  escape_block_field-wrap :
      (input : Text) (markup : List Text)
      → All IsAscii input
      → All (λ c. c ≢ x) input
      → block_field_needs_wrap input scheme markup ≡ true
      → escape_block_field input scheme markup ≡ a ∷ (interior a b x true input ++ b ∷ [])
  escape_block_field-wrap input markup ascii kept wraps =
      let loop : rewrite
            (escape_interior_round (a ∷ []) (b ∷ []) (x ∷ []) ((a ∷ []) ∷ (b ∷ []) ∷ []) true) input
          ≡ interior a b x true input =
        unfold rewrite in (loop-interior a b x h.distinct input true kept) in
      let inner : escape_block_interior input scheme (block_interior_markup_only scheme) true
          ≡ interior a b x true input =
        ap (λ m. escape_block_interior input scheme m true) interior_markup
        ∙ escape_block_interior-open input ((a ∷ []) ∷ (b ∷ []) ∷ [])
        ∙ ap from_utf8_lossy loop
        ∙ interior_ascii input ascii in
      escape_block_field-open input markup wraps ∙ ap (λ (t : Text). a ∷ (t ++ b ∷ [])) inner

  unescape_block-open :
      (t : Text) (n : ℕ)
      → find_unescaped_block_end (a ∷ t) 1 (b ∷ []) (x ∷ []) ≡ some (1 + n)
      → unescape_block (a ∷ t) scheme
        ≡ ok (unescape_inner (a ∷ []) (b ∷ []) (x ∷ []) scheme.extra_escaped_characters (take n t))
  unfolding unescape_block unescape_to
  unescape_block-open t n found =
      let back : 1 + n - 1 ≡ n = omega arith in
      rw (h.start, h.end, h.escape_escape, starts_with_bytes_self (a ∷ []) t, found)
        (ap
          (λ (m : ℕ).
            ok (
              unescape_inner (a ∷ []) (b ∷ []) (x ∷ []) scheme.extra_escaped_characters (take m t)))
          back)

  find-wrap :
      (input : Text)
      → All (λ c. c ≢ x) input
      → find_unescaped_block_end (a ∷ (interior a b x true input ++ b ∷ [])) 1 (b ∷ []) (x ∷ [])
        ≡ some (1 + length (interior a b x true input))
  unfolding find_unescaped_block_end
  find-wrap input kept =
      find-interior a b x h.distinct input true (length (a ∷ (interior a b x true input ++ b ∷ [])))
        1 kept (omega arith)

  inner-wrap :
      (extras : List ℕ) (input : Text)
      → All IsAscii input
      → All (λ c. c ≢ x) input
      → unescape_inner (a ∷ []) (b ∷ []) (x ∷ []) extras (interior a b x true input) ≡ input
  unfolding unescape_inner
  inner-wrap extras input ascii kept =
      let loop : rewrite (unescape_block_round (a ∷ []) (b ∷ []) (x ∷ []) extras)
            (interior a b x true input)
          ≡ input =
        unfold undo rewrite in
        (undo-interior a b x h.distinct extras input (length (interior a b x true input)) true true
          kept (omega arith)) in
      ap from_utf8_lossy loop ∙ from_utf8_lossy-ascii input ascii

  unescape_block-wrap :
      (input : Text)
      → All IsAscii input
      → All (λ c. c ≢ x) input
      → unescape_block (a ∷ (interior a b x true input ++ b ∷ [])) scheme ≡ ok input
  unescape_block-wrap input ascii kept =
      let extras = scheme.extra_escaped_characters in
      let i = interior a b x true input in
      unescape_block-open (i ++ b ∷ []) (length i) (find-wrap input kept)
      ∙ ap (λ (t : Text). ok (unescape_inner (a ∷ []) (b ∷ []) (x ∷ []) extras t))
          (take-append i (b ∷ []))
      ∙ ap ok (inner-wrap extras input ascii kept)

-- A field that is wrapped in a block reads back as the field: for markers and an escape-escape
-- character of one ASCII byte each, all different, and an ASCII field that needs the block and does
-- not hold the escape-escape character.
pub unescape_block-escape_block_field :
    (a b x : ℕ) (scheme : EscapeSchemeDef) (input : Text) (markup : List Text)
    → IsBlockScheme a b x scheme
    → All IsAscii input
    → All (λ c. c ≢ x) input
    → block_field_needs_wrap input scheme markup ≡ true
    → unescape_block (escape_block_field input scheme markup) scheme ≡ ok input
unescape_block-escape_block_field a b x scheme input markup h ascii kept wraps =
    ap (λ (t : Text). unescape_block t scheme)
      (escape_block_field-wrap a b x scheme h input markup ascii kept wraps)
    ∙ unescape_block-wrap a b x scheme h input ascii kept

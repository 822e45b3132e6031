-- ===== src/Escape/Interior.antt =====
-- What stands between the markers of a block of dfdl-vm/src/vm/escape.rs, for markers of one byte.
use aitest.Prelude.{
  ℕ, zero, suc, ◌+◌, ◌≤◌, ◌≡◌, ◌≢◌, refl, ap, ◌∙◌, arith, Bool, true, false, ◌⊎◌, some, List, [],
  ◌∷◌, ◌++◌, inl, inr, length, ◌==◌, if◌then◌else◌, length-append, append_assoc, All,
}
use aitest.Text.{Text}
use aitest.Text.Slices.{starts_with_bytes, same_bytes}
use aitest.Escape.{rewrite_rounds}
use aitest.Escape.Scan.{block_end_rounds}
use aitest.Escape.Block.{unescape_block_round, escape_end, escape_interior_round}

-- A block between the bytes `a` and `b`, with the escape-escape character `x`.
pub record IsBlock (a b x : ℕ) : Type 0 where
  pub ab : a ≢ b
  pub ax : a ≢ x
  pub bx : b ≢ x

module _ (a b x : ℕ) where
  -- What the interior of a wrapped block holds for one byte of the field.
  unfoldable pub interior_byte : Bool → ℕ → Text
  interior_byte first c =
      if c == a
      then (if first then a ∷ [] else x ∷ a ∷ [])
      else if c == b
      then x ∷ b ∷ []
      else c ∷ []

  unfoldable pub interior : Bool → Text → Text
  unfolding interior_byte
  interior first [] = []
  interior first (c ∷ s) = interior_byte first c ++ interior false s

  byte_positive : (first : Bool) (c : ℕ) → 1 ≤ length (interior_byte first c)
  unfolding interior_byte
  byte_positive true c = ground arith
  byte_positive false c = ground arith

  pub interior-round :
      (first : Bool) (c : ℕ) (s : Text)
      → IsBlock a b x
      → c ≢ x
      → escape_interior_round (a ∷ []) (b ∷ []) (x ∷ []) ((a ∷ []) ∷ (b ∷ []) ∷ []) true first c s
        ≡ record { out = interior_byte first c; left = s }
  unfolding escape_interior_round interior_byte escape_end
  interior-round true c s block h = ground arith
  interior-round false c s block h = ground arith

  -- A byte stands as it is, if it is not the end, or behind the escape-escape character.
  byte_cases :
      (first : Bool) (c : ℕ)
      → IsBlock a b x
      → ((interior_byte first c ≡ c ∷ []) × (c ≢ b))
        ⊎ ((interior_byte first c ≡ x ∷ c ∷ []) × ((c ≡ a) ⊎ (c ≡ b)))
  unfolding interior_byte
  byte_cases true c block = ground arith
  byte_cases false c block = ground arith

  module _ (block : IsBlock a b x) (extras : List ℕ) where
    unfoldable pub undo : ℕ → Bool → Text → Text
    undo = rewrite_rounds (unescape_block_round (a ∷ []) (b ∷ []) (x ∷ []) extras)

    undo-plain :
        (f c : ℕ) (flag : Bool) (t : Text) → c ≢ x → undo (suc f) flag (c ∷ t) ≡ c ∷ undo f false t
    unfolding undo rewrite_rounds unescape_block_round starts_with_bytes
    undo-plain f c flag t h = ground arith

    undo-escaped :
        (f c : ℕ) (flag : Bool) (t : Text)
        → (c ≡ a) ⊎ (c ≡ b)
        → undo (suc f) flag (x ∷ c ∷ t) ≡ c ∷ undo f false t
    unfolding undo rewrite_rounds unescape_block_round starts_with_bytes same_bytes
    undo-escaped f c flag t h = ground arith

    undo-byte :
        (f c : ℕ) (first flag : Bool) (t : Text)
        → c ≢ x
        → undo (suc f) flag (interior_byte first c ++ t) ≡ c ∷ undo f false t
    undo-byte f c first flag t h = elim (byte_cases first c block) [
      | inl plain ↦ rw (plain.0) (undo-plain f c flag t h)
      | inr escaped ↦ rw (escaped.0) (undo-escaped f c flag t escaped.1)
    ]

  module _ (block : IsBlock a b x) where
    find-plain :
        (f j c : ℕ) (t : Text)
        → c ≢ x
        → c ≢ b
        → block_end_rounds (suc f) (b ∷ []) (x ∷ []) j (c ∷ t)
          ≡ block_end_rounds f (b ∷ []) (x ∷ []) (j + 1) t
    unfolding block_end_rounds starts_with_bytes same_bytes
    find-plain f j c t hx hb = ground arith

    find-end : (f j : ℕ) (t : Text) → block_end_rounds (suc f) (b ∷ []) (x ∷ []) j (b ∷ t) ≡ some j
    unfolding block_end_rounds starts_with_bytes same_bytes
    find-end f j t = ground arith

    find-both :
        (f j : ℕ) (t : Text)
        → block_end_rounds (suc f) (b ∷ []) (x ∷ []) j (x ∷ b ∷ t)
          ≡ block_end_rounds f (b ∷ []) (x ∷ []) (j + 2) t
    unfolding block_end_rounds starts_with_bytes same_bytes
    find-both f j t = ground arith

    find-escape :
        (f j c : ℕ) (t : Text)
        → c ≢ b
        → block_end_rounds (suc f) (b ∷ []) (x ∷ []) j (x ∷ c ∷ t)
          ≡ block_end_rounds f (b ∷ []) (x ∷ []) (j + 1) (c ∷ t)
    unfolding block_end_rounds starts_with_bytes same_bytes
    find-escape f j c t h = ground arith

    module _ (t : Text) (m : ℕ)
        (rest : (g k : ℕ)
          → length t ≤ g
          → block_end_rounds g (b ∷ []) (x ∷ []) k t ≡ some (k + m)) where
      past_plain :
          (f j c : ℕ)
          → c ≢ x
          → c ≢ b
          → length (c ∷ t) ≤ f
          → block_end_rounds f (b ∷ []) (x ∷ []) j (c ∷ t) ≡ some (j + (1 + m))
      past_plain zero j c hx hb fits = absurd (omega arith)
      past_plain (suc f) j c hx hb fits =
          let same : j + 1 + m ≡ j + (1 + m) = omega arith in
          find-plain f j c t hx hb ∙ rest f (j + 1) (omega arith) ∙ ap some same

      past_escaped :
          (f j c : ℕ)
          → (c ≡ a) ⊎ (c ≡ b)
          → length (x ∷ c ∷ t) ≤ f
          → block_end_rounds f (b ∷ []) (x ∷ []) j (x ∷ c ∷ t) ≡ some (j + (2 + m))
      past_escaped zero j c h fits = absurd (omega arith)
      past_escaped (suc f) j c (inl e) fits =
          let hx : c ≢ x = ground arith in
          let hb : c ≢ b = ground arith in
          let same : j + 1 + (1 + m) ≡ j + (2 + m) = omega arith in
          find-escape f j c t hb ∙ past_plain f (j + 1) c hx hb (omega arith) ∙ ap some same
      past_escaped (suc f) j c (inr e) fits =
          let same : j + 2 + m ≡ j + (2 + m) = omega arith in
          ap (λ (d : ℕ). block_end_rounds (suc f) (b ∷ []) (x ∷ []) j (x ∷ d ∷ t)) e
          ∙ find-both f j t
          ∙ rest f (j + 2) (omega arith)
          ∙ ap some same

      past_byte :
          (f j c : ℕ) (first : Bool)
          → c ≢ x
          → length (interior_byte first c ++ t) ≤ f
          → block_end_rounds f (b ∷ []) (x ∷ []) j (interior_byte first c ++ t)
            ≡ some (j + (length (interior_byte first c) + m))
      past_byte f j c first h = elim (byte_cases first c block) [
        | inl plain ↦ rw (plain.0) (past_plain f j c h plain.1)
        | inr escaped ↦ rw (escaped.0) (past_escaped f j c escaped.1)
      ]

    find-later :
        (c : ℕ) (s : Text) (first : Bool) (f j : ℕ)
        → c ≢ x
        → ((g k : ℕ)
            → length (interior false s ++ b ∷ []) ≤ g
            → block_end_rounds g (b ∷ []) (x ∷ []) k (interior false s ++ b ∷ [])
              ≡ some (k + length (interior false s)))
        → length ((interior_byte first c ++ interior false s) ++ b ∷ []) ≤ f
        → block_end_rounds f
            (b ∷ [])
            (x ∷ [])
            j
            ((interior_byte first c ++ interior false s) ++ b ∷ [])
          ≡ some (j + length (interior_byte first c ++ interior false s))
    find-later c s first f j h rest =
        rw
          (
            append_assoc (interior_byte first c) (interior false s) (b ∷ []),
            length-append (interior_byte first c) (interior false s),
          )
          (past_byte (interior false s ++ b ∷ []) (length (interior false s)) rest f j c first h)

    -- The end behind the interior is the end that is found.
    pub find-interior :
        (s : Text) (first : Bool) (f j : ℕ)
        → All (λ c. c ≢ x) s
        → length (interior first s ++ b ∷ []) ≤ f
        → block_end_rounds f (b ∷ []) (x ∷ []) j (interior first s ++ b ∷ [])
          ≡ some (j + length (interior first s))
    unfolding interior
    find-interior [] first zero j h enough = absurd (omega arith)
    find-interior [] first (suc f) j h enough =
        let same : j ≡ j + 0 = omega arith in find-end f j [] ∙ ap some same
    find-interior (c ∷ s) first f j h enough =
        find-later c s first f j h.0 (λ g k fits. find-interior s false g k h.1 fits) enough

module _ (a b x : ℕ) (block : IsBlock a b x) where
  undo-nil : (extras : List ℕ) (f : ℕ) (flag : Bool) → undo a b x block extras f flag [] ≡ []
  unfolding undo rewrite_rounds
  undo-nil extras zero flag = refl
  undo-nil extras (suc f) flag = refl

  -- The interior of the block, without its escapes.
  pub undo-interior :
      (extras : List ℕ) (s : Text) (f : ℕ) (first flag : Bool)
      → All (λ c. c ≢ x) s
      → length (interior a b x first s) ≤ f
      → undo a b x block extras f flag (interior a b x first s) ≡ s
  unfolding interior
  undo-interior extras [] f first flag h fits = undo-nil extras f flag
  undo-interior extras (c ∷ s) zero first flag h fits = absurd (
      omega (
        arith,
        byte_positive a b x first c,
        length-append (interior_byte a b x first c) (interior a b x false s),
      ))
  undo-interior extras (c ∷ s) (suc f) first flag h fits =
      let short : length (interior a b x false s) ≤ f = omega (
        arith,
        byte_positive a b x first c,
        length-append (interior_byte a b x first c) (interior a b x false s),
      ) in
      undo-byte a b x block extras f c first flag (interior a b x false s) h.0
      ∙ ap (λ (r : Text). c ∷ r) (undo-interior extras s f false false h.1 short)

-- ===== src/Escape/Termination.antt =====
-- The loops of dfdl-vm/src/vm/escape.rs as a relation: a derivation of it is made up of the rounds of
-- the source until the test of the loop fails, so the fuel of the model is no part of it.
use aitest.Prelude.{
  ℕ, zero, suc, ◌+◌, ◌≤◌, ◌≡◌, arith, Bool, true, false, Option, none, some, List, [], ◌∷◌, ◌++◌,
  inl, inr, length, drop, Bool-cases, length-drop, All,
}
use aitest.Text.{Text}
use aitest.Text.Slices.{starts_with_bytes}
use aitest.Escape.{Piece, rewrite, rewrite_rounds, Shortens}
use aitest.Escape.Character.{
  escaped_escape, length_of, kept_char, after_escape, unescape_character_round, matched_markup,
  escape_other, escape_markup, escape_character_round,
}

pub drop-short : (n c : ℕ) (s : Text) → 1 ≤ n → length (drop n (c ∷ s)) ≤ length s
drop-short n c s h = omega (arith, length-drop n (c ∷ s))

kept_char-length :
    (found : Option ℕ) (c : ℕ) (s : Text) → length (kept_char found c s).left ≤ suc (length s)
unfolding kept_char
kept_char-length none c s = omega arith
kept_char-length (some n) c s = omega (arith, length-drop n (c ∷ s))

after_escape-length : (extras : List ℕ) (s : Text) → length (after_escape extras s).left ≤ length s
unfolding after_escape
after_escape-length extras [] = omega arith
after_escape-length extras (c ∷ s) = kept_char-length _ c s

pub unescape_character_round-Shortens :
    (esc : Text) (ee : Option Text) (extras : List ℕ)
    → 1 ≤ length esc
    → Shortens (unescape_character_round esc ee extras)
unfolding unescape_character_round
unescape_character_round-Shortens esc ee extras h first c s =
    elim (Bool-cases (escaped_escape ee esc (c ∷ s))) [
      | inl e ↦ rw e (drop-short (length_of ee + length esc) c s (omega arith))
      | inr e ↦ rw e (elim (Bool-cases (starts_with_bytes esc (c ∷ s))) [
        | inl here ↦ rw here (
            omega (
              arith,
              after_escape-length extras (drop (length esc) (c ∷ s)),
              drop-short (length esc) c s h,
            ))
        | inr here ↦ rw here (omega arith)
      ])
    ]

-- What `matched_markup` finds in `s`: a term of `markup` that is not empty and stands there.
abbrev pub IsMatch : (Text → Type 0) → Text → Option Text → Type 0
IsMatch P s none = Unit
IsMatch P s (some term) = P term × ((1 ≤ length term) × (starts_with_bytes term s ≡ true))

pub matched_markup-IsMatch :
    (P : Text → Type 0) (markup : List Text) (s : Text)
    → All P markup
    → IsMatch P s (matched_markup markup s)
unfolding matched_markup
matched_markup-IsMatch P [] s h = tt
matched_markup-IsMatch P ([] ∷ markup) s h = matched_markup-IsMatch P markup s h.1
matched_markup-IsMatch P ((d ∷ t) ∷ markup) s h = elim (Bool-cases (starts_with_bytes (d ∷ t) s)) [
  | inl e ↦ rw e (h.0, (omega arith, e))
  | inr e ↦ rw e (matched_markup-IsMatch P markup s h.1)
]

no_condition : (markup : List Text) → All {0, 0} (λ (term : Text). Unit) markup
no_condition [] = tt
no_condition (term ∷ markup) = (tt, no_condition markup)

escape_markup-Shortens :
    (esc : Text) (ee : Option Text) (c : ℕ) (s : Text) (found : Option Text)
    → 1 ≤ length esc
    → IsMatch (λ (term : Text). Unit) (c ∷ s) found
    → length (escape_markup esc ee found c s).left ≤ length s
unfolding escape_markup escape_other
escape_markup-Shortens esc ee c s none h found = elim (Bool-cases (starts_with_bytes esc (c ∷ s))) [
  | inl e ↦ rw e (drop-short (length esc) c s h)
  | inr e ↦ rw e (omega arith)
]
escape_markup-Shortens esc ee c s (some term) h found = drop-short (length term) c s found.1.0

pub escape_character_round-Shortens :
    (esc : Text) (ee : Option Text) (markup : List Text)
    → 1 ≤ length esc
    → Shortens (escape_character_round esc ee markup)
unfolding escape_character_round
escape_character_round-Shortens esc ee markup h first c s =
    escape_markup-Shortens esc ee c s _ h
      (matched_markup-IsMatch (λ (term : Text). Unit) markup (c ∷ s) (no_condition markup))

-- `while i < bytes.len()`, with the bytes `s` left: it appends the result, in finitely many rounds.
pub data Loop (step : Bool → ℕ → Text → Piece) : Bool → Text → Text → Type 0 where
  done : {first : Bool} → Loop step first [] []
  again :
      {first : Bool} {c : ℕ} {s out : Text}
      → Loop step false (step first c s).left out
      → Loop step first (c ∷ s) ((step first c s).out ++ out)

rewrite_rounds-Loop :
    (step : Bool → ℕ → Text → Piece)
    → Shortens step
    → (fuel : ℕ) (first : Bool) (s : Text) → length s ≤ fuel
    → Loop step first s (rewrite_rounds step fuel first s)
unfolding rewrite_rounds
rewrite_rounds-Loop step shortens zero first [] h = done
rewrite_rounds-Loop step shortens (suc fuel) first [] h = done
rewrite_rounds-Loop step shortens zero first (c ∷ s) h = absurd (omega arith)
rewrite_rounds-Loop step shortens (suc fuel) first (c ∷ s) h =
    let short : length (step first c s).left ≤ length s = shortens first c s in
    again (rewrite_rounds-Loop step shortens fuel false (step first c s).left (omega arith))

rewrite-Loop :
    (step : Bool → ℕ → Text → Piece)
    → Shortens step
    → (s : Text) → Loop step true s (rewrite step s)
unfolding rewrite
rewrite-Loop step shortens s = rewrite_rounds-Loop step shortens (length s) true s (omega arith)

-- The loops of `unescape_character` and of `escape_character_field` end by their own test, with the
-- text that `rewrite` gives, for an escape character that is not empty, every escape-escape character,
-- all extra characters and all markup.
pub rewrite-character_loops :
    (esc : Text) (ee : Option Text) (extras : List ℕ) (markup : List Text) (s : Text)
    → 1 ≤ length esc
    → Loop
        (unescape_character_round esc ee extras)
        true
        s
        (rewrite (unescape_character_round esc ee extras) s)
      × Loop
          (escape_character_round esc ee markup)
          true
          s
          (rewrite (escape_character_round esc ee markup) s)
rewrite-character_loops esc ee extras markup s h = (
  rewrite-Loop _ (unescape_character_round-Shortens esc ee extras h) s,
  rewrite-Loop _ (escape_character_round-Shortens esc ee markup h) s,
)

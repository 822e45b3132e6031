-- ===== src/Escape.antt =====
-- The escape schemes of dfdl-vm/src/vm/escape.rs, with the scheme of dfdl-vm/src/schema/ast/mod.rs.
-- A text is its UTF-8 bytes, and a `char` its code point.
--
-- Each loop of the file looks at the bytes from its index on, so it stands here as a loop on those
-- bytes: `&bytes[i..i + n] == pat` behind `i + n <= bytes.len()` says that they start with `pat`.
-- One round gives the bytes it appends to `out`, and the bytes that it leaves.
pub mod Character
pub mod Block
pub mod Scan
pub mod Termination
pub mod Search
pub mod Bounds
pub mod Progress
pub mod Undo
pub mod RoundTrip
pub mod Interior
pub mod BlockRoundTrip
use aitest.Prelude.{
  ℕ, zero, suc, ◌+◌, ◌≤◌, ◌≡◌, refl, ap, arith, Bool, true, false, ◌||◌, Option, none, some, List,
  [], ◌∷◌, ◌++◌, length, drop, if◌then◌else◌,
}
use aitest.Text.{Text}
use aitest.Text.Slices.{starts_with_bytes, contains_bytes, is_empty}
use aitest.Text.Utf8.{encode_utf8}
use native.Mathlib.Nat.{le_trans}

pub data EscapeKind : Type 0 where
  escape_character escape_block : EscapeKind

pub record EscapeSchemeDef : Type 0 where
  pub escape_kind : EscapeKind
  pub escape_character_raw : Option Text
  pub escape_character : Option Text
  pub escape_escape_character_raw : Option Text
  pub escape_escape_character : Option Text
  pub escape_block_start_raw : Option Text
  pub escape_block_start : Option Text
  pub escape_block_end_raw : Option Text
  pub escape_block_end : Option Text
  pub extra_escaped_characters_raw : Option Text
  pub extra_escaped_characters : List ℕ

-- `as_deref().unwrap_or("")`
abbrev pub or_empty : Option Text → Text
or_empty none = []
or_empty (some s) = s

-- `filter(|s| !s.is_empty())`
abbrev pub non_empty : Option Text → Option Text
non_empty none = none
non_empty (some []) = none
non_empty (some (c ∷ s)) = some (c ∷ s)

unfoldable pub utf8_char_len_at : Text → ℕ → Option ℕ
unfolding starts_with_bytes encode_utf8
utf8_char_len_at s ch =
    let b = encode_utf8 ch in if starts_with_bytes b s then some (length b) else none

abbrev pub or_else : Option ℕ → Option ℕ → Option ℕ
or_else none other = other
or_else (some n) other = some n

unfoldable pub extra_escaped_char_len : Text → List ℕ → Option ℕ
unfolding utf8_char_len_at
extra_escaped_char_len s [] = none
extra_escaped_char_len s (c ∷ extras) =
    or_else (utf8_char_len_at s c) (extra_escaped_char_len s extras)

unfoldable pub input_contains_extra_escaped : Text → List ℕ → Bool
unfolding contains_bytes encode_utf8
input_contains_extra_escaped input [] = false
input_contains_extra_escaped input (c ∷ extras) =
    contains_bytes (encode_utf8 c) input || input_contains_extra_escaped input extras

-- One round of a loop: the bytes it appends, and the bytes it leaves.
pub record Piece : Type 0 where
  pub out : Text
  pub left : Text

-- A loop with the body `step`, which is told whether the index is 0.
module _ (step : Bool → ℕ → Text → Piece) where
  unfoldable pub rewrite_rounds : ℕ → Bool → Text → Text
  rewrite_rounds zero first s = []
  rewrite_rounds (suc fuel) first [] = []
  rewrite_rounds (suc fuel) first (c ∷ s) =
      (step first c s).out ++ rewrite_rounds fuel false (step first c s).left

  -- A round takes one byte at least (`Shortens`), so one round for each byte is enough.
  unfoldable pub rewrite : Text → Text
  unfolding rewrite_rounds
  rewrite s = rewrite_rounds (length s) true s

  abbrev pub Shortens : Type 0
  Shortens = (first : Bool) (c : ℕ) (s : Text) → length (step first c s).left ≤ length s

  -- Any two amounts of fuel that reach the end agree.
  pub rewrite_rounds-enough :
      Shortens
      → (f g : ℕ) (first : Bool) (s : Text) → length s ≤ f
      → length s ≤ g
      → rewrite_rounds f first s ≡ rewrite_rounds g first s
  unfolding rewrite_rounds
  rewrite_rounds-enough shortens zero zero first [] hf hg = refl
  rewrite_rounds-enough shortens zero (suc g) first [] hf hg = refl
  rewrite_rounds-enough shortens (suc f) zero first [] hf hg = refl
  rewrite_rounds-enough shortens (suc f) (suc g) first [] hf hg = refl
  rewrite_rounds-enough shortens zero g first (c ∷ s) hf hg = absurd (omega arith)
  rewrite_rounds-enough shortens (suc f) zero first (c ∷ s) hf hg = absurd (omega arith)
  rewrite_rounds-enough shortens (suc f) (suc g) first (c ∷ s) hf hg =
      let t = (step first c s).left in
      let short : length t ≤ length s = shortens first c s in
      ap (λ (r : Text). (step first c s).out ++ r)
        (rewrite_rounds-enough shortens f g false t (omega arith) (omega arith))

  -- A loop with fuel for each byte does a round, and goes on with fuel for each byte that is left.
  pub rewrite_rounds-step :
      Shortens
      → (first : Bool) (c : ℕ) (s : Text)
      → rewrite_rounds (length (c ∷ s)) first (c ∷ s)
        ≡ (step first c s).out
          ++ rewrite_rounds (length (step first c s).left) false (step first c s).left
  unfolding rewrite_rounds
  rewrite_rounds-step shortens first c s =
      let t = (step first c s).left in
      ap (λ (r : Text). (step first c s).out ++ r)
        (rewrite_rounds-enough shortens (length s) (length t) false t (shortens first c s)
          (omega arith))

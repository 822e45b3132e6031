-- ===== src/Escape/Search.antt =====
-- The search for the end of an escape block of dfdl-vm/src/vm/escape.rs, as a relation on its index.
use aitest.Prelude.{
  ℕ, ◌+◌, ◌≡◌, Bool, true, false, not, ◌&&◌, Option, none, some, [], ◌∷◌, length, drop,
}
use aitest.Text.{Text}
use aitest.Text.Slices.{starts_with_bytes, same_bytes, is_empty}
use aitest.Escape.Scan.{continues_word}

-- The escape-escape character and the end marker behind it.
abbrev pub is_escaped : Text → Text → Text → Bool
is_escaped end ee t =
    not (is_empty ee) && starts_with_bytes ee t && starts_with_bytes end (drop (length ee) t)

-- An end marker that is its own escape, in front of more of a word.
abbrev pub is_doubled : Text → Text → Text → Bool
is_doubled end ee t = same_bytes ee end && continues_word (drop (length end) t)

-- The search at the index `j`, with the bytes `t` left, ends with the result in finitely many rounds:
-- at the end of the data, behind an escaped or doubled end marker, at one, or behind a byte.
pub data Search (end ee : Text) : ℕ → Text → Option ℕ → Type 0 where
  at_end : {j : ℕ} → Search end ee j [] none
  behind_escaped :
      {j c : ℕ} {s : Text} {r : Option ℕ}
      → is_escaped end ee (c ∷ s) ≡ true
      → Search end ee (j + (length ee + length end)) (drop (length ee + length end) (c ∷ s)) r
      → Search end ee j (c ∷ s) r
  behind_doubled :
      {j c : ℕ} {s : Text} {r : Option ℕ}
      → is_escaped end ee (c ∷ s) ≡ false
      → starts_with_bytes end (c ∷ s) ≡ true
      → is_doubled end ee (c ∷ s) ≡ true
      → Search end ee (j + length end) (drop (length end) (c ∷ s)) r
      → Search end ee j (c ∷ s) r
  found :
      {j c : ℕ} {s : Text}
      → is_escaped end ee (c ∷ s) ≡ false
      → starts_with_bytes end (c ∷ s) ≡ true
      → is_doubled end ee (c ∷ s) ≡ false
      → Search end ee j (c ∷ s) (some j)
  behind_byte :
      {j c : ℕ} {s : Text} {r : Option ℕ}
      → is_escaped end ee (c ∷ s) ≡ false
      → starts_with_bytes end (c ∷ s) ≡ false
      → Search end ee (j + 1) s r
      → Search end ee j (c ∷ s) r

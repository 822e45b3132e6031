-- ===== src/Text/Slices.antt =====
-- Comparisons of byte strings: a slice against a pattern, as `&data[i..i + n] == pat` behind its test
-- of the bounds, and the `starts_with`, `ends_with` and `contains` of `str`.
use aitest.Prelude.{
  ℕ, zero, suc, ◌≤◌, ◌≡◌, refl, arith, Bool, true, false, ◌&&◌, ◌||◌, List, [], ◌∷◌, ◌++◌, length,
  drop, reverse, ◌==◌, All,
}
use aitest.Text.{Text}

unfoldable pub starts_with_bytes : Text → Text → Bool
starts_with_bytes [] s = true
starts_with_bytes (p ∷ pat) [] = false
starts_with_bytes (p ∷ pat) (c ∷ s) = p == c && starts_with_bytes pat s

unfoldable pub ends_with_bytes : Text → Text → Bool
unfolding starts_with_bytes
ends_with_bytes pat s = starts_with_bytes (reverse pat) (reverse s)

unfoldable pub contains_bytes : Text → Text → Bool
unfolding starts_with_bytes
contains_bytes pat [] = starts_with_bytes pat []
contains_bytes pat (c ∷ s) = starts_with_bytes pat (c ∷ s) || contains_bytes pat s

unfoldable pub same_bytes : Text → Text → Bool
same_bytes [] [] = true
same_bytes [] (d ∷ t) = false
same_bytes (c ∷ s) [] = false
same_bytes (c ∷ s) (d ∷ t) = c == d && same_bytes s t

abbrev pub is_empty {ℓ} : {A : Type ℓ} → List A → Bool
is_empty [] = true
is_empty (x ∷ xs) = false

-- A matched pattern stands before the rest.
pub starts_with_bytes-append :
    (pat s : Text) → starts_with_bytes pat s ≡ true → pat ++ drop (length pat) s ≡ s
unfolding starts_with_bytes
starts_with_bytes-append [] s h = refl
starts_with_bytes-append (p ∷ pat) [] h = ground arith
starts_with_bytes-append (p ∷ pat) (c ∷ s) h =
    let same : p ≡ c = ground arith in
    let more : starts_with_bytes pat s ≡ true = ground arith in
    rw (same, starts_with_bytes-append pat s more) refl

pub starts_with_bytes-length :
    (pat s : Text) → starts_with_bytes pat s ≡ true → length pat ≤ length s
unfolding starts_with_bytes
starts_with_bytes-length [] s h = omega arith
starts_with_bytes-length (p ∷ pat) [] h = ground arith
starts_with_bytes-length (p ∷ pat) (c ∷ s) h =
    let more : starts_with_bytes pat s ≡ true = ground arith in
    omega (arith, starts_with_bytes-length pat s more)

-- A pattern that is written is matched.
pub starts_with_bytes_self : (pat s : Text) → starts_with_bytes pat (pat ++ s) ≡ true
unfolding starts_with_bytes
starts_with_bytes_self [] s = refl
starts_with_bytes_self (p ∷ pat) s = ground (arith, starts_with_bytes_self pat s)

pub All-drop : (P : ℕ → Type 0) (n : ℕ) (s : Text) → All P s → All P (drop n s)
All-drop P zero s h = h
All-drop P (suc n) [] h = tt
All-drop P (suc n) (c ∷ s) h = All-drop P n s h.1

pub All-of-append : (P : ℕ → Type 0) (s t : Text) → All P (s ++ t) → All P s × All P t
All-of-append P [] t h = (tt, h)
All-of-append P (c ∷ s) t h = let rest = All-of-append P s t h.1 in ((h.0, rest.0), rest.1)

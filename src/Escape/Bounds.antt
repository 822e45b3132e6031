-- ===== src/Escape/Bounds.antt =====
-- The bounds of the scans of dfdl-vm/src/vm/escape.rs.
use aitest.Prelude.{
  ℕ, zero, suc, ◌+◌, ◌-◌, ◌≤◌, ◌≡◌, refl, sym, ap, ◌∙◌, arith, true, not, ◌&&◌, Option, none, some,
  [], ◌∷◌, inl, inr, length, drop, Bool-cases, length-drop,
}
use mathlib.Core.Path.{subst}
use aitest.Text.{Text}
use aitest.Text.Slices.{starts_with_bytes, same_bytes, is_empty, starts_with_bytes-length}
use aitest.Escape.Scan.{continues_word, block_end_rounds, find_unescaped_block_end}

drop-nil : (n : ℕ) → drop {A = ℕ} n [] ≡ []
drop-nil zero = refl
drop-nil (suc n) = refl

pub drop-drop : (a b : ℕ) (s : Text) → drop a (drop b s) ≡ drop (b + a) s
drop-drop a zero s = ap (λ (n : ℕ). drop n s) (omega arith)
drop-drop a (suc b) [] = drop-nil a ∙ sym (drop-nil (suc b + a))
drop-drop a (suc b) (c ∷ s) =
    let same : suc (b + a) ≡ suc b + a = omega arith in
    drop-drop a b s ∙ ap (λ (n : ℕ). drop n (c ∷ s)) same

-- An end found at `p`, in the bytes from `j` on: it is not before `j`, and stands there as a whole.
unfoldable pub IsEndFrom : Text → ℕ → Text → Option ℕ → Type 0
IsEndFrom end j s none = Unit
IsEndFrom end j s (some p) =
    (j ≤ p) × ((p + length end ≤ j + length s) × (starts_with_bytes end (drop (p - j) s) ≡ true))

module _ (end ee : Text) where
  -- An end found further on is an end from here on.
  IsEndFrom-later :
      (n j : ℕ) (s : Text)
      → n ≤ length s
      → (found : Option ℕ) → IsEndFrom end (j + n) (drop n s) found
      → IsEndFrom end j s found
  unfolding IsEndFrom
  IsEndFrom-later n j s h none found = tt
  IsEndFrom-later n j s h (some p) found =
      let le : j + n ≤ p = found.0 in
      let inside : p + length end ≤ j + n + length (drop n s) = found.1.0 in
      let same : n + (p - (j + n)) ≡ p - j = omega arith in
      let whole : starts_with_bytes end (drop (n + (p - (j + n))) s) ≡ true =
        rw (sym (drop-drop (p - (j + n)) n s)) found.1.1 in
      (
        omega arith,
        (
          omega (arith, length-drop n s),
          subst (λ (m : ℕ). starts_with_bytes end (drop m s) ≡ true) same whole,
        ),
      )

  both_inside :
      (t : Text)
      → (not (is_empty ee) && starts_with_bytes ee t && starts_with_bytes end (drop (length ee) t))
        ≡ true
      → length ee + length end ≤ length t
  both_inside t h =
      let first : starts_with_bytes ee t ≡ true = ground arith in
      let second : starts_with_bytes end (drop (length ee) t) ≡ true = ground arith in
      omega (
        arith,
        starts_with_bytes-length ee t first,
        starts_with_bytes-length end _ second,
        length-drop (length ee) t,
      )

  zero_back : (j : ℕ) → 0 ≡ j - j
  zero_back j = omega arith

  block_end_rounds-IsEndFrom :
      (fuel j : ℕ) (s : Text) → IsEndFrom end j s (block_end_rounds fuel end ee j s)
  unfolding block_end_rounds IsEndFrom
  block_end_rounds-IsEndFrom zero j s = tt
  block_end_rounds-IsEndFrom (suc fuel) j [] = tt
  block_end_rounds-IsEndFrom (suc fuel) j (c ∷ s) =
      let t = c ∷ s in
      let both =
        not (is_empty ee) && starts_with_bytes ee t && starts_with_bytes end (drop (length ee) t) in
      elim (Bool-cases both) [
        | inl e ↦ rw e (
            IsEndFrom-later (length ee + length end) j t (both_inside t e) _
              (block_end_rounds-IsEndFrom fuel (j + (length ee + length end)) _))
        | inr e ↦ rw e (elim (Bool-cases (starts_with_bytes end t)) [
          | inl here ↦
              let inside : length end ≤ length t = starts_with_bytes-length end t here in
              let word = same_bytes ee end && continues_word (drop (length end) t) in
              rw here (elim (Bool-cases word) [
                | inl w ↦ rw w (
                    IsEndFrom-later (length end) j t inside _
                      (block_end_rounds-IsEndFrom fuel (j + length end) _))
                | inr w ↦ rw w (
                  omega arith,
                  (
                    omega arith,
                    subst (λ (n : ℕ). starts_with_bytes end (drop n t) ≡ true) (zero_back j) here,
                  ),
                )
              ])
          | inr here ↦
              rw here
                (IsEndFrom-later 1 j t (omega arith) _ (block_end_rounds-IsEndFrom fuel (j + 1) s))
        ])
      ]

-- The end that is found stands in the data as a whole, at the index `from` or behind it.
pub find_unescaped_block_end-IsEndFrom :
    (bytes : Text) (from : ℕ) (end ee : Text)
    → IsEndFrom end from (drop from bytes) (find_unescaped_block_end bytes from end ee)
unfolding find_unescaped_block_end IsEndFrom
find_unescaped_block_end-IsEndFrom bytes from end ee = elim (Bool-cases (is_empty end)) [
  | inl e ↦ rw e tt
  | inr e ↦ rw e (block_end_rounds-IsEndFrom end ee (length bytes) from (drop from bytes))
]

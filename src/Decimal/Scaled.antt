-- ===== src/Decimal/Scaled.antt =====
-- `scaled_integer` in numbers.
use aitest.Prelude.{
  ℕ, zero, suc, ◌+◌, ◌-◌, ◌*◌, ◌^◌, ◌≤◌, ◌≡◌, refl, sym, ap, ◌∙◌, arith, false, List, [], ◌∷◌, ◌++◌,
  map, length, take, drop, replicate, append-nil, append_assoc, length-append, length-replicate,
  length-drop, All, All-append, ltb, ◌==◌, if◌then◌else◌, Bool-cases, inl, inr, none, some,
}
use aitest.Text.{Text, split_once}
use aitest.Magnitude.{value, strip, or_zero}
use aitest.Magnitude.Value.{IsDigit, value-strip, value-or_zero}
use aitest.Magnitude.Compare.{IsTrimmed, or_zero-IsTrimmed, strip-IsDigit, strip-leading}
use aitest.Decimal.{Decimal, digit_text, decimal_to_string, parts, at_scale, scaled_integer}
use aitest.Decimal.Value.{pow_add}

split_once-digit_text : (ds : List ℕ) → split_once b'.' (digit_text ds) ≡ none
unfolding split_once digit_text
split_once-digit_text [] = refl
split_once-digit_text (d ∷ ds) =
    let t : (b'0' + d == b'.') ≡ false = ground arith in rw (t, split_once-digit_text ds) refl

split_once-point :
    (ds : List ℕ) (rest : Text)
    → split_once b'.' (digit_text ds ++ b'.' ∷ rest) ≡ some (digit_text ds, rest)
unfolding split_once digit_text
split_once-point [] rest = refl
split_once-point (d ∷ ds) rest =
    let t : (b'0' + d == b'.') ≡ false = ground arith in rw (t, split_once-point ds rest) refl

-- The digits of a text of digits.
digits_of : Text → List ℕ
digits_of s = map (λ (c : ℕ). c - b'0') s

digits_of-append : (a b : Text) → digits_of (a ++ b) ≡ digits_of a ++ digits_of b
unfolding digits_of
digits_of-append [] b = refl
digits_of-append (c ∷ a) b = ap (λ s. (c - b'0') ∷ s) (digits_of-append a b)

digits_of-digit_text : (ds : List ℕ) → digits_of (digit_text ds) ≡ ds
unfolding digits_of digit_text
digits_of-digit_text [] = refl
digits_of-digit_text (d ∷ ds) =
    let e : b'0' + d - b'0' ≡ d = omega arith in rw (e, digits_of-digit_text ds) refl

digits_of-replicate : (k : ℕ) → digits_of (replicate k b'0') ≡ replicate k 0
unfolding digits_of
digits_of-replicate zero = refl
digits_of-replicate (suc k) = ap (λ s. 0 ∷ s) (digits_of-replicate k)

length-digit_text : (ds : List ℕ) → length (digit_text ds) ≡ length ds
unfolding digit_text
length-digit_text [] = refl
length-digit_text (d ∷ ds) = ap suc (length-digit_text ds)

value-zeros : (ds : List ℕ) (k : ℕ) → value (ds ++ replicate k 0) ≡ value ds * 10 ^ k
unfolding value
value-zeros [] zero = refl
value-zeros [] (suc k) = omega (arith, value-zeros [] k)
value-zeros (d ∷ ds) k =
    rw (length-append, length-replicate, value-zeros ds k)
      (omega (arith, ap (λ (t : ℕ). d * t) (pow_add (length ds) k)))

at_scale-longer :
    (scale : ℕ) (s : Text)
    → length s ≤ scale
    → at_scale scale s ≡ s ++ replicate (scale - length s) b'0'
unfolding at_scale
at_scale-longer scale s h = elim (Bool-cases (ltb (length s) scale)) [
  | inl less ↦ rw less refl
  | inr same ↦
      let t : ltb scale (length s) ≡ false = ground arith in
      let z : scale - length s ≡ 0 = ground arith in rw (same, t, z, append-nil s) refl
]

-- The digits with a zero in front where none is before the point.
shown : Decimal → List ℕ
shown d =
    if d.scale == 0
    then d.digits
    else if length d.digits - d.scale == 0
    then 0 ∷ d.digits
    else d.digits

take-drop : (k : ℕ) (ds : List ℕ) → take k ds ++ drop k ds ≡ ds
take-drop zero ds = refl
take-drop (suc k) [] = refl
take-drop (suc k) (d ∷ ds) = ap (λ s. d ∷ s) (take-drop k ds)

two_parts :
    (whole part : List ℕ) (t scale : ℕ)
    → length part ≡ scale
    → scale ≤ t
    → digits_of (
        (parts
          (digit_text whole ++ b'.' ∷ digit_text part)
          (split_once b'.' (digit_text whole ++ b'.' ∷ digit_text part))).0
        ++ at_scale t (
            (parts
              (digit_text whole ++ b'.' ∷ digit_text part)
              (split_once b'.' (digit_text whole ++ b'.' ∷ digit_text part))).1))
      ≡ (whole ++ part) ++ replicate (t - scale) 0
unfolding parts
two_parts whole part t scale len h =
    let n : length (digit_text part) ≡ scale = length-digit_text part ∙ len in
    let short : length (digit_text part) ≤ t = omega (arith, n) in
    rw
      (
        split_once-point whole (digit_text part),
        at_scale-longer t (digit_text part) short,
        n,
        digits_of-append,
        digits_of-append,
        digits_of-digit_text,
        digits_of-digit_text,
        digits_of-replicate,
      )
      (sym (append_assoc whole part (replicate (t - scale) 0)))

one_part :
    (ds : List ℕ) (t : ℕ)
    → digits_of (
        (parts (digit_text ds) (split_once b'.' (digit_text ds))).0
        ++ at_scale t ((parts (digit_text ds) (split_once b'.' (digit_text ds))).1))
      ≡ ds ++ replicate (t - 0) 0
unfolding parts
one_part ds t =
    rw
      (
        split_once-digit_text ds,
        at_scale-longer t [] (omega arith),
        digits_of-append,
        digits_of-digit_text,
        digits_of-replicate,
      )
      refl

scaled_integer-shown :
    (d : Decimal) (t : ℕ)
    → d.scale ≤ length d.digits
    → d.scale ≤ t
    → scaled_integer d t ≡ or_zero (strip (shown d ++ replicate (t - d.scale) 0))
unfolding scaled_integer decimal_to_string shown digits_of
scaled_integer-shown d t some_digits h = elim (Bool-cases (d.scale == 0)) [
  | inl z ↦
      let e : d.scale ≡ 0 = ground arith in
      rw (z, e) (ap (λ l. or_zero (strip l)) (one_part d.digits t))
  | inr point ↦ elim (Bool-cases (length d.digits - d.scale == 0)) [
    | inl none_whole ↦
        let len : length d.digits ≡ d.scale = ground arith in
        rw (point, none_whole)
          (ap (λ l. or_zero (strip l)) (two_parts (0 ∷ []) d.digits t d.scale len h))
    | inr whole ↦
        let k = length d.digits - d.scale in
        let len : length (drop k d.digits) ≡ d.scale = length-drop k d.digits ∙ omega arith in
        rw (point, whole)
          (ap (λ l. or_zero (strip l))
            ((two_parts (take k d.digits) (drop k d.digits) t d.scale len h)
              ∙ ap (λ l. l ++ replicate (t - d.scale) 0) (take-drop k d.digits)))
  ]
]

replicate-IsDigit : (k : ℕ) → All IsDigit (replicate k 0)
replicate-IsDigit zero = tt
replicate-IsDigit (suc k) = (omega arith, replicate-IsDigit k)

shown-IsDigit : (d : Decimal) → All IsDigit d.digits → All IsDigit (shown d)
unfolding shown
shown-IsDigit d h = elim (Bool-cases (d.scale == 0)) [
  | inl z ↦ rw z h
  | inr point ↦ elim (Bool-cases (length d.digits - d.scale == 0)) [
    | inl none_whole ↦ rw (point, none_whole) (omega arith, h)
    | inr whole ↦ rw (point, whole) h
  ]
]

value-zero_first : (ds : List ℕ) → value (0 ∷ ds) ≡ value ds
unfolding value
value-zero_first ds = omega arith

value-shown : (d : Decimal) → value (shown d) ≡ value d.digits
unfolding shown
value-shown d = elim (Bool-cases (d.scale == 0)) [
  | inl z ↦ rw z refl
  | inr point ↦ elim (Bool-cases (length d.digits - d.scale == 0)) [
    | inl none_whole ↦ rw (point, none_whole) (value-zero_first d.digits)
    | inr whole ↦ rw (point, whole) refl
  ]
]

-- A number whose digits reach the point, as an integer at a scale that is no smaller than its own.
module _ (d : Decimal) (t : ℕ) (some_digits : d.scale ≤ length d.digits) (h : d.scale ≤ t) where
  pub value-scaled_integer : value (scaled_integer d t) ≡ value d.digits * 10 ^ (t - d.scale)
  value-scaled_integer =
      rw
        (
          scaled_integer-shown d t some_digits h,
          value-or_zero,
          value-strip,
          value-zeros,
          value-shown,
        )
        refl

  pub scaled_integer-IsTrimmed : All IsDigit d.digits → IsTrimmed (scaled_integer d t)
  scaled_integer-IsTrimmed digits =
      let all =
        All-append IsDigit (shown d) (replicate (t - d.scale) 0) (shown-IsDigit d digits)
          (replicate-IsDigit (t - d.scale)) in
      rw (scaled_integer-shown d t some_digits h)
        (or_zero-IsTrimmed _ (strip-IsDigit _ all) (strip-leading _))

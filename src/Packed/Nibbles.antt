-- ===== src/Packed/Nibbles.antt =====
-- The scan of IBM 4690 nibbles: what `ibm4690_to_digit_string` of dfdl-vm/src/vm/packed_decimal.rs
-- reads from nibbles that fill up a width, from a sign and from digits.
use aitest.Prelude.{
  ℕ, zero, suc, ◌+◌, ◌*◌, ◌/◌, ◌%◌, ◌^◌, ◌≤◌, ◌<◌, ◌≡◌, refl, sym, ap, ◌∙◌, arith, bit_and, bit_or,
  Bool, true, false, not, ◌||◌, List, [], ◌∷◌, ◌++◌, append_assoc, append-nil, length, replicate,
  ltb, ◌==◌, if◌then◌else◌, ◌⊎◌, inl, inr,
}
use aitest.Bits.{bit_and_mask, bit_or-above}
use aitest.Error.{ok, VmError}
use aitest.Text.{Text}
use aitest.Text.Decimal.{padded}
use aitest.Packed.{Scan, scan_nibble, scan_bytes}
use aitest.Packed.Encode.{digit_nibbles, nibble_bytes}
use aitest.Packed.Pairs.{digit_of_lem}

-- The digit that a nibble is read as.
pub read_digit : ℕ → ℕ
read_digit n = if ltb 9 n then 0 else n

-- What a nibble that is allowed does to the scan.
pub step : ℕ → Scan → Scan
unfolding read_digit
step n s = record {
  negative = n == 0x0d || s.negative;
  in_digits = not (n == 0x0f) || s.in_digits;
  out = s.out ++ (b'0' + read_digit n) ∷ [];
}

pub Allowed : ℕ → Scan → Type 0
Allowed n s = (n < 10) ⊎ (s.in_digits ≡ false) × ((n ≡ 0x0d) ⊎ (n ≡ 0x0f))

pub AllAllowed : List ℕ → Scan → Type 0
unfolding Allowed step
AllAllowed [] s = Unit
AllAllowed (n ∷ ns) s = Allowed n s × AllAllowed ns (step n s)

pub steps : List ℕ → Scan → Scan
unfolding step
steps [] s = s
steps (n ∷ ns) s = steps ns (step n s)

scan_nibble-step :
    (invalid : ℕ → VmError) (n : ℕ) (s : Scan)
    → Allowed n s
    → scan_nibble invalid n s ≡ ok (step n s)
unfolding scan_nibble step Allowed read_digit
scan_nibble-step invalid n s (inl digit) =
    let t0 : ltb 9 n ≡ false = ground arith in
    let t1 : (n == 0x0d) ≡ false = ground arith in
    let t2 : (n == 0x0f) ≡ false = ground arith in rw (t0, t1, t2) refl
scan_nibble-step invalid n s (inr (before, inl minus)) = rw (before, minus) refl
scan_nibble-step invalid n s (inr (before, inr fill)) = rw (before, fill) refl

Allowed-lt : (n : ℕ) (s : Scan) → Allowed n s → n < 16
unfolding Allowed
Allowed-lt n s (inl digit) = omega arith
Allowed-lt n s (inr (before, inl minus)) = omega (arith, minus)
Allowed-lt n s (inr (before, inr fill)) = omega (arith, fill)

-- Two nibbles in a byte.
pair_high : (h l : ℕ) → h < 16 → l < 16 → bit_or (h * 2 ^ 4 % 2 ^ 8) l / 2 ^ 4 ≡ h
pair_high h l hh hl =
    let e : h * 2 ^ 4 % 2 ^ 8 ≡ h * 2 ^ 4 = omega arith in
    rw (e, bit_or-above 4 h l hl) (omega arith)

pair_low : (h l : ℕ) → h < 16 → l < 16 → bit_and (bit_or (h * 2 ^ 4 % 2 ^ 8) l) 0x0f ≡ l
pair_low h l hh hl =
    let e : h * 2 ^ 4 % 2 ^ 8 ≡ h * 2 ^ 4 = omega arith in
    rw (e, bit_or-above 4 h l hl) (bit_and_mask 4 (h * 2 ^ 4 + l) ∙ omega arith)

pub scan_bytes-steps :
    (k : ℕ) (ns : List ℕ) (s : Scan)
    → length ns ≡ k * 2
    → AllAllowed ns s
    → scan_bytes (nibble_bytes ns) s ≡ ok (steps ns s)
unfolding scan_bytes nibble_bytes AllAllowed steps
scan_bytes-steps k [] s len h = refl
scan_bytes-steps zero (h ∷ l ∷ ns) s len (ah, (al, rest)) = absurd (omega arith)
scan_bytes-steps k (h ∷ []) s len (ah, rest) = absurd (omega arith)
scan_bytes-steps (suc k) (h ∷ l ∷ ns) s len (ah, (al, rest)) =
    let hh = Allowed-lt h s ah in
    let hl = Allowed-lt l (step h s) al in
    rw
      (
        pair_high h l hh hl,
        pair_low h l hh hl,
        scan_nibble-step _ h s ah,
        scan_nibble-step _ l (step h s) al,
      )
      (scan_bytes-steps k ns (step l (step h s)) (omega arith) rest)

-- What a list of nibbles is read as, from a scan on.
pub record Reads (ns : List ℕ) (s : Scan) (negative : Bool) (text : Text) : Type 0 where
  pub allowed : AllAllowed ns s
  pub sign : (steps ns s).negative ≡ negative
  pub digits : (steps ns s).out ≡ s.out ++ text

Reads-cons :
    (n : ℕ) (ns : List ℕ) (s : Scan) (negative : Bool) (text : Text)
    → Allowed n s
    → Reads ns (step n s) negative text
    → Reads (n ∷ ns) s negative ((b'0' + read_digit n) ∷ text)
unfolding AllAllowed steps
Reads-cons n ns s negative text a r = record {
  allowed = (a, r.allowed);
  sign = r.sign;
  digits = r.digits ∙ append_assoc s.out ((b'0' + read_digit n) ∷ []) text;
}

-- The `k` last decimal digits of `n`, as nibbles.
pub digits_of : ℕ → ℕ → List ℕ
digits_of zero n = []
digits_of (suc k) n = n / 10 ^ k % 10 ∷ digits_of k n

pub digit_nibbles-padded : (k n : ℕ) → digit_nibbles (padded k n) ≡ ok (digits_of k n)
unfolding digit_nibbles digits_of padded
digit_nibbles-padded zero n = refl
digit_nibbles-padded (suc k) n =
    let small : ltb 9 (n / 10 ^ k % 10) ≡ false = ground arith in
    rw (digit_of_lem, small, digit_nibbles-padded k n) refl

pub length-digits_of : (k n : ℕ) → length (digits_of k n) ≡ k
unfolding digits_of
length-digits_of zero n = refl
length-digits_of (suc k) n = ap suc (length-digits_of k n)

digit-Allowed : (d : ℕ) (s : Scan) → d < 10 → Allowed d s
unfolding Allowed
digit-Allowed d s h = inl h

minus-Allowed : (s : Scan) → s.in_digits ≡ false → Allowed 0x0d s
unfolding Allowed
minus-Allowed s before = inr (before, inl refl)

fill-Allowed : (s : Scan) → s.in_digits ≡ false → Allowed 0x0f s
unfolding Allowed
fill-Allowed s before = inr (before, inr refl)

read_digit_lem : (d : ℕ) → d < 10 → read_digit d ≡ d
unfolding read_digit
read_digit_lem d h = ground arith

digit-negative : (d : ℕ) (s : Scan) → d < 10 → (step d s).negative ≡ s.negative
unfolding step
digit-negative d s h = ground arith

Reads-digits_of : (k n : ℕ) (s : Scan) → Reads (digits_of k n) s s.negative (padded k n)
unfolding digits_of padded AllAllowed steps
Reads-digits_of zero n s = record { allowed = tt; sign = refl; digits = sym (append-nil s.out) }
Reads-digits_of (suc k) n s =
    let d = n / 10 ^ k % 10 in
    let small : d < 10 = omega arith in
    rw (read_digit_lem d small, digit-negative d s small) at
      (Reads-cons d (digits_of k n) s _ (padded k n) (digit-Allowed d s small)
        (Reads-digits_of k n (step d s)))

-- The digits behind a minus, if any.
unfoldable pub signed_nibbles : Bool → ℕ → ℕ → List ℕ
signed_nibbles negative k n = if negative then 0x0d ∷ digits_of k n else digits_of k n

-- The width of the sign.
unfoldable pub sign_width : Bool → ℕ
sign_width negative = if negative then 1 else 0

pub sign_width-le : (negative : Bool) → sign_width negative ≤ 1
unfolding sign_width
sign_width-le negative = ground arith

Reads-signed_nibbles :
    (negative : Bool) (k n : ℕ) (s : Scan)
    → s.in_digits ≡ false
    → Reads
        (signed_nibbles negative k n)
        s
        (negative || s.negative)
        (replicate (sign_width negative) b'0' ++ padded k n)
unfolding signed_nibbles sign_width
Reads-signed_nibbles false k n s before = Reads-digits_of k n s
Reads-signed_nibbles true k n s before =
    unfold step read_digit in
    Reads-cons 0x0d (digits_of k n) s true (padded k n) (minus-Allowed s before)
      (Reads-digits_of k n (step 0x0d s))

step-fill : (s : Scan) → s.in_digits ≡ false → (step 0x0f s).in_digits ≡ false
unfolding step
step-fill s before = before

Reads-one_fill :
    (ns : List ℕ) (s : Scan) (negative : Bool) (text : Text)
    → s.in_digits ≡ false
    → Reads ns (step 0x0f s) (negative || (step 0x0f s).negative) text
    → Reads (0x0f ∷ ns) s (negative || s.negative) (b'0' ∷ text)
unfolding step read_digit
Reads-one_fill ns s negative text before r = Reads-cons 0x0f ns s _ text (fill-Allowed s before) r

pub Reads-fill :
    (j : ℕ) (negative : Bool) (k n : ℕ) (s : Scan)
    → s.in_digits ≡ false
    → Reads
        (replicate j 0x0f ++ signed_nibbles negative k n)
        s
        (negative || s.negative)
        (replicate j b'0' ++ (replicate (sign_width negative) b'0' ++ padded k n))
Reads-fill zero negative k n s before = Reads-signed_nibbles negative k n s before
Reads-fill (suc j) negative k n s before =
    Reads-one_fill _ s negative _ before
      (Reads-fill j negative k n (step 0x0f s) (step-fill s before))

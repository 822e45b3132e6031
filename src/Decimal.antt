-- ===== src/Decimal.antt =====
-- Decimal numbers with a scale: dfdl-vm/src/vm/text_number_format/decimal.rs.
pub mod Scaled
pub mod Parse
pub mod Rounding
pub mod Value
use aitest.Prelude.{
  ℕ, zero, suc, ◌+◌, ◌-◌, ◌*◌, ◌^◌, Bool, true, false, List, [], ◌∷◌, ◌++◌, map, reverse, length,
  take, drop, replicate, ltb, leb, ◌==◌, if◌then◌else◌, Option, none, some,
}
use aitest.Text.{Text, split_once}
use aitest.Magnitude.{strip, all_zero, or_zero, double_mag, cmp_mag}
use aitest.Schema.{
  TextNumberRoundingMode, round_ceiling, round_floor, round_down, round_up, round_half_even,
  round_half_down, round_half_up, round_unnecessary,
}
use Prim.Native.Nat.{Ordering, ◌%◌}

pub record Decimal : Type 0 where
  pub negative : Bool
  pub digits : List ℕ
  pub scale : ℕ

-- The first loop of `trim_trailing_zeros`, on the reversed digits: zeros behind the point go.
unfoldable pub pop_zeros : List ℕ → ℕ → List ℕ × ℕ
pop_zeros [] scale = ([], scale)
pop_zeros (d ∷ ds) zero = (d ∷ ds, zero)
pop_zeros (d ∷ ds) (suc s) = let rest = pop_zeros ds s in if d == 0 then rest else (d ∷ ds, suc s)

unfoldable pub trim_trailing_zeros : Decimal → Decimal
trim_trailing_zeros d =
    let popped = pop_zeros (reverse d.digits) d.scale in
    let kept = reverse (popped.0) in
    record d { digits = or_zero (if popped.1 == 0 then strip kept else kept); scale = popped.1 }

unfoldable pub digit_text : List ℕ → Text
digit_text ds = map (λ (n : ℕ). b'0' + n) ds

unfoldable pub decimal_to_string : Decimal → Text
unfolding digit_text
decimal_to_string d =
    let split = length d.digits - d.scale in
    let whole = if split == 0 then 0 ∷ [] else take split d.digits in
    let part = if split == 0 then d.digits else drop split d.digits in
    let s =
      if d.scale == 0 then digit_text d.digits else digit_text whole ++ b'.' ∷ digit_text part in
    if d.negative then b'-' ∷ s else s

-- `split_once('.')`, or the whole text and nothing.
unfoldable pub parts : Text → Option (Text × Text) → Text × Text
parts s none = (s, [])
parts s (some p) = p

-- The fraction at a scale: padded with zeros, or cut.
unfoldable pub at_scale : ℕ → Text → Text
at_scale scale frac =
    if ltb (length frac) scale
    then frac ++ replicate (scale - length frac) b'0'
    else if ltb scale (length frac)
    then take scale frac
    else frac

unfoldable pub scaled_integer : Decimal → ℕ → List ℕ
unfolding parts at_scale
scaled_integer d target_scale =
    let s = decimal_to_string (record d { negative = false }) in
    let p = parts s (split_once b'.' s) in
    or_zero (strip (map (λ (c : ℕ). c - b'0') (p.0 ++ at_scale target_scale (p.1))))

unfoldable pub from_scaled_integer : List ℕ → ℕ → Bool → Decimal
from_scaled_integer digits scale negative =
    trim_trailing_zeros (record { negative = negative; digits = digits; scale = scale })

unfoldable pub decimal_is_zero : Decimal → Bool
decimal_is_zero d = all_zero d.digits

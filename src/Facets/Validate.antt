-- ===== src/Facets/Validate.antt =====
-- The checks of facets of dfdl-vm/src/schema/facets.rs.
use aitest.Prelude.{
  ℕ, zero, suc, Bool, true, false, not, ◌&&◌, ◌||◌, Option, none, some, List, [], ◌∷◌, ltb, ◌==◌,
  if◌then◌else◌,
}
use aitest.Text.{Text, trim, all_digits}
use aitest.Text.Slices.{same_bytes, is_empty}
use aitest.Int.{ℤ, leb_ℤ, is_signed, half_i32}
use aitest.Escape.{non_empty}
use aitest.Facets.{
  RestrictionBase, builtin_base, named_base, Restriction, restriction, TypeDef, simple_type, Types,
  get_type, EffectiveFacets,
}
use Prim.Native.String.{String}

-- A message keeps the values that the source formats into its sentence.
pub data FacetMessage : Type 0 where
  says : String → FacetMessage
  not_non_negative not_positive not_integer : Text → FacetMessage
  outside_int outside_short : String → ℤ → FacetMessage
  min_exclusive_max_inclusive min_exclusive_max_exclusive min_inclusive_max_exclusive :
      ℤ → ℤ → FacetMessage
  min_inclusive_max_inclusive : ℤ → ℤ → Option Text → FacetMessage

pub data SchemaError : Type 0 where
  no_root_element ambiguous_root_element : SchemaError
  undefined_type unsupported_feature : Text → SchemaError
  invalid_property : FacetMessage → SchemaError

-- `Result<(), SchemaError>`
pub data Check : Type 0 where
  accepts : Check
  refuses : SchemaError → Check

-- A check, and behind it the next one.
infixr 5 ◌then◌
abbrev pub ◌then◌ : Check → Check → Check
accepts then next = next
refuses e then next = refuses e

abbrev pub refuse_if : Bool → FacetMessage → Check
refuse_if true message = refuses (invalid_property message)
refuse_if false message = accepts

-- A test on two facets, where both are there.
abbrev pub both : {A : Type 0} → (A → A → Bool) → Option A → Option A → Bool
both f none b = false
both f (some a) none = false
both f (some a) (some b) = f a b

abbrev pub is_some : {A : Type 0} → Option A → Bool
is_some none = false
is_some (some a) = true

abbrev pub gtb_ℤ : ℤ → ℤ → Bool
gtb_ℤ a b = not (leb_ℤ a b)

abbrev pub geb_ℤ : ℤ → ℤ → Bool
geb_ℤ a b = leb_ℤ b a

abbrev pub refuse_both : (ℤ → ℤ → Bool) → (ℤ → ℤ → FacetMessage) → Option ℤ → Option ℤ → Check
refuse_both f message none b = accepts
refuse_both f message (some a) none = accepts
refuse_both f message (some a) (some b) = refuse_if (f a b) (message a b)

-- The diagnostic is added to one of the messages, where it is not empty.
unfoldable pub validate_facet_range_order : EffectiveFacets → Option Text → Check
validate_facet_range_order eff diagnostic =
    refuse_if (is_some eff.max_inclusive && is_some eff.max_exclusive)
      (says "MaxInclusive and MaxExclusive cannot be specified for the same simple type")
    then refuse_if (is_some eff.min_inclusive && is_some eff.min_exclusive)
        (says "MinInclusive and MinExclusive cannot be specified for the same simple type")
    then refuse_both gtb_ℤ min_exclusive_max_inclusive eff.min_exclusive eff.max_inclusive
    then refuse_both gtb_ℤ (λ a b. min_inclusive_max_inclusive a b (non_empty diagnostic))
        eff.min_inclusive eff.max_inclusive
    then refuse_both geb_ℤ min_exclusive_max_exclusive eff.min_exclusive eff.max_exclusive
    then refuse_both geb_ℤ min_inclusive_max_exclusive eff.min_inclusive eff.max_exclusive

unfoldable pub validate_fraction_total_digits : EffectiveFacets → Check
validate_fraction_total_digits eff =
    refuse_if (both (λ frac total. ltb total frac) eff.fraction_digits eff.total_digits)
      (says "FractionDigits facet must not exceed TotalDigits")

unfoldable pub validate_int_range_facet : String → ℤ → Check
validate_int_range_facet name value =
    refuse_if (not (is_signed half_i32 value)) (outside_int name value)

unfoldable pub validate_short_range_facet : String → ℤ → Check
validate_short_range_facet name value =
    refuse_if (not (is_signed 32768 value)) (outside_short name value)

unfoldable pub has_text : Text → List Text → Bool
unfolding same_bytes
has_text v [] = false
has_text v (w ∷ ws) = same_bytes w v || has_text v ws

-- The loop, with the values before the index in `seen`.
unfoldable pub unique_rounds : List Text → List Text → Check
unfolding has_text
unique_rounds seen [] = accepts
unique_rounds seen (v ∷ vs) =
    let rest = unique_rounds (v ∷ seen) vs in
    refuse_if (has_text v seen) (says "Enumerations must be unique") then rest

unfoldable pub validate_enumeration_unique : List Text → Check
unfolding unique_rounds
validate_enumeration_unique enumerations = unique_rounds [] enumerations

abbrev pub enumerations_or :
    (RestrictionBase → Option (Option (List Text)))
    → List Text
    → RestrictionBase
    → Option (Option (List Text))
enumerations_or next [] inner = next inner
enumerations_or next (v ∷ vs) inner = some (some (v ∷ vs))

abbrev pub enumerations_of :
    (RestrictionBase → Option (Option (List Text))) → Option TypeDef → Option (Option (List Text))
enumerations_of next (some (simple_type (restriction r))) =
    enumerations_or next r.enumerations r.base
enumerations_of next t = some none

-- The enumerations of the nearest base that has some; the fuel is the depth of the recursion. The
-- outer `none` stands for a recursion that does not end.
unfoldable pub parent_restriction_enumerations :
    ℕ → Types → RestrictionBase → Option (Option (List Text))
unfolding get_type
parent_restriction_enumerations zero types parent = none
parent_restriction_enumerations (suc fuel) types (builtin_base t) = some none
parent_restriction_enumerations (suc fuel) types (named_base name) =
    enumerations_of (parent_restriction_enumerations fuel types) (get_type types name)

unfoldable pub all_in : List Text → List Text → Check
unfolding has_text
all_in [] parent = accepts
all_in (v ∷ vs) parent =
    let rest = all_in vs parent in
    refuse_if (not (has_text v parent))
      (says "Local enumerations must be a subset of base enumerations")
    then rest

-- The last of the checks of a restriction, with the enumerations of its base.
abbrev pub subset_check : List Text → Option (List Text) → Check
subset_check enumerations none = accepts
subset_check [] (some parent) = accepts
subset_check (v ∷ vs) (some parent) = all_in (v ∷ vs) parent

abbrev pub is_zero_digits : Option ℕ → Bool
is_zero_digits none = false
is_zero_digits (some n) = n == 0

unfoldable pub validate_single_restriction : Restriction → Option (List Text) → Check
unfolding all_in validate_enumeration_unique
validate_single_restriction r parent_enums =
    refuse_if (is_some r.min_inclusive && is_some r.min_exclusive)
      (says "MinInclusive and MinExclusive cannot be specified for the same simple type")
    then refuse_if (is_some r.max_inclusive && is_some r.max_exclusive)
        (says "MaxInclusive and MaxExclusive cannot be specified for the same simple type")
    then refuse_if (is_zero_digits r.total_digits) (not_positive (b'0' ∷ []))
    then refuse_if (both (λ frac total. ltb total frac) r.fraction_digits r.total_digits)
        (says "FractionDigits facet must not exceed TotalDigits")
    then validate_enumeration_unique r.enumerations
    then subset_check r.enumerations parent_enums

-- `strip_prefix('+').unwrap_or(t)`
abbrev pub strip_plus : Text → Text
strip_plus [] = []
strip_plus (c ∷ s) = if c == b'+' then s else c ∷ s

abbrev pub some_digits_only : Text → Bool
some_digits_only s = not (is_empty s) && all_digits s

abbrev pub integer_literal : Text → Bool
integer_literal [] = false
integer_literal (c ∷ s) =
    if c == b'-' then some_digits_only s else some_digits_only (strip_plus (c ∷ s))

unfoldable pub is_valid_integer_literal : Text → Bool
unfolding trim all_digits
is_valid_integer_literal raw = integer_literal (trim raw)

abbrev pub non_negative_literal : Text → Bool
non_negative_literal [] = false
non_negative_literal (c ∷ s) = if c == b'-' then false else some_digits_only (strip_plus (c ∷ s))

unfoldable pub is_valid_non_negative_integer_literal : Text → Bool
unfolding trim all_digits
is_valid_non_negative_integer_literal raw = non_negative_literal (trim raw)

-- `trim_start_matches('+')`
unfoldable pub trim_plus : Text → Text
trim_plus [] = []
trim_plus (c ∷ s) = let rest = trim_plus s in if c == b'+' then rest else c ∷ s

unfoldable pub is_valid_positive_integer_literal : Text → Bool
unfolding is_valid_non_negative_integer_literal trim trim_plus same_bytes
is_valid_positive_integer_literal raw =
    is_valid_non_negative_integer_literal raw && not (same_bytes (trim_plus (trim raw)) (b'0' ∷ []))

abbrev pub negative_or_none : Text → Check
negative_or_none v =
    if is_valid_integer_literal v && not (is_valid_non_negative_integer_literal v)
    then refuses (invalid_property (not_non_negative v))
    else refuses (invalid_property (not_integer v))

-- A length facet that is no number.
unfoldable pub length_literal : Option Text → Check
unfolding is_valid_integer_literal is_valid_non_negative_integer_literal
length_literal none = accepts
length_literal (some v) =
    if is_valid_non_negative_integer_literal v then accepts else negative_or_none v

abbrev pub positive_or_none : Text → Check
positive_or_none v =
    if is_valid_integer_literal v && not (is_valid_positive_integer_literal v)
    then refuses (invalid_property (not_positive v))
    else refuses (invalid_property (not_integer v))

-- The total digits, and the fraction digits where there are no invalid total digits.
unfoldable pub digits_literals : Option Text → Option Text → Check
unfolding length_literal is_valid_integer_literal is_valid_positive_integer_literal
digits_literals (some v) fraction =
    if is_valid_positive_integer_literal v then accepts else positive_or_none v
digits_literals none fraction = length_literal fraction

unfoldable pub validate_facet_literals : EffectiveFacets → Check
unfolding length_literal digits_literals
validate_facet_literals eff =
    refuse_if (is_zero_digits eff.total_digits) (not_positive (b'0' ∷ []))
    then length_literal eff.invalid_length
    then length_literal eff.invalid_min_length
    then length_literal eff.invalid_max_length
    then digits_literals eff.invalid_total_digits eff.invalid_fraction_digits

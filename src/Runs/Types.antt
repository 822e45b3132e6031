-- ===== src/Runs/Types.antt =====
-- Runs of the facets.
use aitest.Prelude.{◌≡◌, ◌↔◌, refl, arith, false, Option, none, some, [], ◌∷◌}
use aitest.Text.{Text, is_whitespace}
use aitest.Expression.Eval.{cmp_text}
use aitest.Int.{pos, negsuc}
use aitest.Facets.{
  xs_int, builtin_base, named_base, Restriction, restriction, simple_type, complex_type, Types,
  get_type, EffectiveFacets, no_facets, effective_facets,
}
use aitest.Facets.Validate.{
  accepts, refuses, says, invalid_property, min_exclusive_max_exclusive, not_non_negative,
  validate_facet_range_order, validate_enumeration_unique, validate_facet_literals,
  parent_restriction_enumerations, validate_single_restriction, not_positive,
}
use aitest.Facets.Chain.{at_restriction, on_builtin, on_simple, Collects, effective_facets-Chain}
use aitest.Facets.Ranges.{IsOrdered, validate_facet_range_order-IsOrdered}
use Prim.Native.Nat.{Ordering}

abbrev no_order : Text → Text → Option Ordering
no_order a b = none

abbrev level : Restriction
level = record {
  base = builtin_base xs_int;
  restriction_base_is_xs_date = false;
  length = none;
  min_length = none;
  max_length = none;
  min_inclusive = some (negsuc 4);
  max_inclusive = some (pos 100);
  min_exclusive = none;
  max_exclusive = none;
  min_inclusive_lexical = some (b'a' ∷ []);
  max_inclusive_lexical = none;
  min_exclusive_lexical = none;
  max_exclusive_lexical = none;
  patterns = [];
  enumerations = (b'1' ∷ []) ∷ (b'2' ∷ []) ∷ [];
  total_digits = some 4;
  fraction_digits = none;
  invalid_min_length = none;
  invalid_max_length = none;
  invalid_length = none;
  invalid_total_digits = none;
  invalid_fraction_digits = none;
}

abbrev inner_level : Restriction
inner_level = record level {
  base = named_base (b'T' ∷ []);
  min_inclusive = some (negsuc 9);
  max_inclusive = some (pos 50);
  enumerations = [];
}

abbrev types : Types
types = (b'T' ∷ [], simple_type (restriction level)) ∷ (b'U' ∷ [], complex_type) ∷ []

-- The larger of the lower bounds and the smaller of the upper ones; the enumeration of the base stays.
merged :
    effective_facets no_order 3 types (restriction inner_level)
    ≡ some (record no_facets {
      min_inclusive = some (negsuc 4);
      max_inclusive = some (pos 50);
      min_inclusive_lexical = some (b'a' ∷ []);
      enumeration = some ((b'1' ∷ []) ∷ (b'2' ∷ []) ∷ []);
      total_digits = some 4;
    })
unfolding effective_facets cmp_text
merged = refl

-- A type that is its own base has no facets at any depth.
own_base :
    effective_facets no_order 9
      ((b'T' ∷ [], simple_type (restriction inner_level)) ∷ [])
      (restriction inner_level)
    ≡ none
unfolding effective_facets
own_base = refl

base_enumerations :
    parent_restriction_enumerations 3 types inner_level.base
    ≡ some (some ((b'1' ∷ []) ∷ (b'2' ∷ []) ∷ []))
unfolding parent_restriction_enumerations
base_enumerations = refl

twice :
    validate_enumeration_unique ((b'1' ∷ []) ∷ (b'2' ∷ []) ∷ (b'1' ∷ []) ∷ [])
    ≡ refuses (invalid_property (says "Enumerations must be unique"))
unfolding validate_enumeration_unique
twice = refl

accepted_level : validate_single_restriction level none ≡ accepts
unfolding validate_single_restriction
accepted_level = refl

bad_literals :
    (validate_facet_literals (record no_facets { invalid_length = some (b'-' ∷ b'1' ∷ []) })
      ≡ refuses (invalid_property (not_non_negative (b'-' ∷ b'1' ∷ []))))
    × (validate_facet_literals (record no_facets { invalid_total_digits = some (b'0' ∷ []) })
        ≡ refuses (invalid_property (not_positive (b'0' ∷ []))))
unfolding validate_facet_literals is_whitespace
bad_literals = (refl, refl)

abbrev open_at_three : EffectiveFacets
open_at_three = record no_facets { min_exclusive = some (pos 3); max_exclusive = some (pos 3) }

-- Equal exclusive bounds are refused.
equal_exclusive :
    validate_facet_range_order open_at_three none
    ≡ refuses (invalid_property (min_exclusive_max_exclusive (pos 3) (pos 3)))
unfolding validate_facet_range_order
equal_exclusive = refl

base_type : get_type types (b'T' ∷ []) ≡ some (simple_type (restriction level))
unfolding get_type
base_type = refl

effective_facets-Chain_example :
    Collects no_facets
      (inner_level ∷ level ∷ [])
      (effective_facets no_order 3 types (restriction inner_level))
effective_facets-Chain_example =
    effective_facets-Chain no_order types (restriction inner_level) (inner_level ∷ level ∷ []) 3
      (at_restriction inner_level (level ∷ []) (
        on_simple (b'T' ∷ []) (restriction level) (level ∷ []) base_type
          (at_restriction level [] (on_builtin xs_int))))
      (omega arith)

validate_facet_range_order-IsOrdered_example :
    validate_facet_range_order open_at_three none ≡ accepts ↔ IsOrdered open_at_three
validate_facet_range_order-IsOrdered_example =
    validate_facet_range_order-IsOrdered open_at_three none

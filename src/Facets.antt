-- ===== src/Facets.antt =====
-- The facets of simple types (dfdl-vm/src/schema/facets.rs), with the part of the syntax tree
-- (dfdl-vm/src/schema/ast/mod.rs) that they are collected from.
pub mod Validate
pub mod Ranges
pub mod Merge
pub mod Chain
use aitest.Prelude.{
  ℕ, zero, suc, ◌+◌, ◌≤◌, ◌≡◌, Bool, true, false, Option, none, some, List, [], ◌∷◌, ◌++◌, min, max,
  ◌==◌, if◌then◌else◌,
}
use aitest.Text.{Text}
use aitest.Text.Slices.{same_bytes, is_empty}
use aitest.Int.{ℤ, max_ℤ, min_ℤ}
use mathlib.Core.Option
use aitest.Expression.Eval.{cmp_text}
use Prim.Native.Nat.{Ordering}

pub data BuiltinType : Type 0 where
  xs_string xs_int xs_long xs_short xs_byte xs_unsigned_int xs_unsigned_short : BuiltinType
  xs_unsigned_byte xs_integer xs_non_negative_integer xs_float xs_double xs_decimal : BuiltinType
  xs_date_time xs_time xs_boolean xs_hex_binary : BuiltinType

pub data RestrictionBase : Type 0 where
  builtin_base : BuiltinType → RestrictionBase
  named_base : Text → RestrictionBase

-- The fields of `SimpleBase::Restriction`.
pub record Restriction : Type 0 where
  pub base : RestrictionBase
  pub restriction_base_is_xs_date : Bool
  pub length : Option ℕ
  pub min_length : Option ℕ
  pub max_length : Option ℕ
  pub min_inclusive : Option ℤ
  pub max_inclusive : Option ℤ
  pub min_exclusive : Option ℤ
  pub max_exclusive : Option ℤ
  pub min_inclusive_lexical : Option Text
  pub max_inclusive_lexical : Option Text
  pub min_exclusive_lexical : Option Text
  pub max_exclusive_lexical : Option Text
  pub patterns : List Text
  pub enumerations : List Text
  pub total_digits : Option ℕ
  pub fraction_digits : Option ℕ
  pub invalid_min_length : Option Text
  pub invalid_max_length : Option Text
  pub invalid_length : Option Text
  pub invalid_total_digits : Option Text
  pub invalid_fraction_digits : Option Text

mutual
  pub data SimpleBase : Type 0 where
    builtin : BuiltinType → SimpleBase
    union : Members → SimpleBase
    restriction : Restriction → SimpleBase

  pub data Members : Type 0 where
    no_members : Members
    named_member : Text → Members → Members
    inline_member : SimpleBase → Members → Members

-- What the facets read of a type definition.
pub data TypeDef : Type 0 where
  simple_type : SimpleBase → TypeDef
  complex_type : TypeDef

-- The types of a schema, in the order of their names.
abbrev pub Types : Type 0
Types = List (Text × TypeDef)

-- `schema.types.get(name)`
unfoldable pub get_type : Types → Text → Option TypeDef
unfolding same_bytes
get_type [] name = none
get_type ((key, t) ∷ types) name =
    let later = get_type types name in if same_bytes key name then some t else later

pub record EffectiveFacets : Type 0 where
  pub length : Option ℕ
  pub min_length : Option ℕ
  pub max_length : Option ℕ
  pub min_inclusive : Option ℤ
  pub max_inclusive : Option ℤ
  pub min_exclusive : Option ℤ
  pub max_exclusive : Option ℤ
  pub min_inclusive_lexical : Option Text
  pub max_inclusive_lexical : Option Text
  pub min_exclusive_lexical : Option Text
  pub max_exclusive_lexical : Option Text
  pub pattern_levels : List (List Text)
  pub enumeration : Option (List Text)
  pub total_digits : Option ℕ
  pub fraction_digits : Option ℕ
  pub invalid_min_length : Option Text
  pub invalid_max_length : Option Text
  pub invalid_length : Option Text
  pub invalid_total_digits : Option Text
  pub invalid_fraction_digits : Option Text

-- `EffectiveFacets::default()`
abbrev pub no_facets : EffectiveFacets
no_facets = record {
  length = none;
  min_length = none;
  max_length = none;
  min_inclusive = none;
  max_inclusive = none;
  min_exclusive = none;
  max_exclusive = none;
  min_inclusive_lexical = none;
  max_inclusive_lexical = none;
  min_exclusive_lexical = none;
  max_exclusive_lexical = none;
  pattern_levels = [];
  enumeration = none;
  total_digits = none;
  fraction_digits = none;
  invalid_min_length = none;
  invalid_max_length = none;
  invalid_length = none;
  invalid_total_digits = none;
  invalid_fraction_digits = none;
}

-- The match that the merges share: both given, or the one that is.
abbrev pub merge_with : {A : Type 0} → (A → A → A) → Option A → Option A → Option A
merge_with f none local = local
merge_with f (some b) none = some b
merge_with f (some b) (some l) = some (f b l)

-- `local.or(base)` where the two differ.
abbrev pub merge_length_facet : Option ℕ → Option ℕ → Option ℕ
merge_length_facet = merge_with λ b l. l

abbrev pub merge_min_length : Option ℕ → Option ℕ → Option ℕ
merge_min_length = merge_with max

abbrev pub merge_max_length : Option ℕ → Option ℕ → Option ℕ
merge_max_length = merge_with min

abbrev pub merge_inclusive_max : Option ℤ → Option ℤ → Option ℤ
merge_inclusive_max = merge_with max_ℤ

abbrev pub merge_inclusive_min : Option ℤ → Option ℤ → Option ℤ
merge_inclusive_min = merge_with min_ℤ

abbrev pub merge_exclusive_max : Option ℤ → Option ℤ → Option ℤ
merge_exclusive_max = merge_inclusive_max

abbrev pub merge_exclusive_min : Option ℤ → Option ℤ → Option ℤ
merge_exclusive_min = merge_inclusive_min

abbrev pub merge_min_u64 : Option ℕ → Option ℕ → Option ℕ
merge_min_u64 = merge_max_length

-- An invalid facet of the level replaces that of its base.
abbrev pub or_base : Option Text → Option Text → Option Text
or_base none base = base
or_base (some raw) base = some raw

abbrev pub push_level : List (List Text) → List Text → List (List Text)
push_level levels patterns = if is_empty patterns then levels else levels ++ patterns ∷ []

abbrev pub replace_enumeration : Option (List Text) → List Text → Option (List Text)
replace_enumeration enumeration [] = enumeration
replace_enumeration enumeration (v ∷ vs) = some (v ∷ vs)

abbrev pub not_less : Ordering → Bool
not_less Ordering.lt = false
not_less _ = true

abbrev pub not_greater : Ordering → Bool
not_greater Ordering.gt = false
not_greater _ = true

-- The comparison of two dates and times is a parameter.
module _ (xs_datetime_lexical_cmp : Text → Text → Option Ordering) where
  abbrev pub lexical_datetime_ge : Text → Text → Bool
  lexical_datetime_ge a b = elim (xs_datetime_lexical_cmp a b) [
    | none ↦ not_less (cmp_text a b)
    | some o ↦ not_less o
  ]

  abbrev pub lexical_datetime_le : Text → Text → Bool
  lexical_datetime_le a b = elim (xs_datetime_lexical_cmp a b) [
    | none ↦ not_greater (cmp_text a b)
    | some o ↦ not_greater o
  ]

  abbrev pub merge_lexical_inclusive_max : Option Text → Option Text → Option Text
  merge_lexical_inclusive_max = merge_with λ b l. if lexical_datetime_ge l b then l else b

  abbrev pub merge_lexical_inclusive_min : Option Text → Option Text → Option Text
  merge_lexical_inclusive_min = merge_with λ b l. if lexical_datetime_le l b then l else b

  -- One level of a restriction, over the facets of its base.
  unfoldable pub merge_level : Restriction → EffectiveFacets → EffectiveFacets
  merge_level r out = record {
    length = merge_length_facet out.length r.length;
    min_length = merge_min_length out.min_length r.min_length;
    max_length = merge_max_length out.max_length r.max_length;
    min_inclusive = merge_inclusive_max out.min_inclusive r.min_inclusive;
    max_inclusive = merge_inclusive_min out.max_inclusive r.max_inclusive;
    min_exclusive = merge_exclusive_max out.min_exclusive r.min_exclusive;
    max_exclusive = merge_exclusive_min out.max_exclusive r.max_exclusive;
    min_inclusive_lexical =
        merge_lexical_inclusive_max out.min_inclusive_lexical r.min_inclusive_lexical;
    max_inclusive_lexical =
        merge_lexical_inclusive_min out.max_inclusive_lexical r.max_inclusive_lexical;
    min_exclusive_lexical =
        merge_lexical_inclusive_max out.min_exclusive_lexical r.min_exclusive_lexical;
    max_exclusive_lexical =
        merge_lexical_inclusive_min out.max_exclusive_lexical r.max_exclusive_lexical;
    pattern_levels = push_level out.pattern_levels r.patterns;
    enumeration = replace_enumeration out.enumeration r.enumerations;
    total_digits = merge_min_u64 out.total_digits r.total_digits;
    fraction_digits = merge_min_u64 out.fraction_digits r.fraction_digits;
    invalid_min_length = or_base r.invalid_min_length out.invalid_min_length;
    invalid_max_length = or_base r.invalid_max_length out.invalid_max_length;
    invalid_length = or_base r.invalid_length out.invalid_length;
    invalid_total_digits = or_base r.invalid_total_digits out.invalid_total_digits;
    invalid_fraction_digits = or_base r.invalid_fraction_digits out.invalid_fraction_digits;
  }

  abbrev pub collect_type :
      (SimpleBase → EffectiveFacets → Option EffectiveFacets)
      → Option TypeDef
      → EffectiveFacets
      → Option EffectiveFacets
  collect_type collect none out = some out
  collect_type collect (some complex_type) out = some out
  collect_type collect (some (simple_type inner)) out = collect inner out

  -- The facets of the base of a restriction, if it is a simple type of the schema.
  unfoldable pub collect_parent :
      (SimpleBase → EffectiveFacets → Option EffectiveFacets)
      → Types
      → RestrictionBase
      → EffectiveFacets
      → Option EffectiveFacets
  unfolding get_type
  collect_parent collect types (builtin_base t) out = some out
  collect_parent collect types (named_base name) out =
      collect_type collect (get_type types name) out

  -- The fuel is the depth of the recursion. Without it there is no result, as there is none where a
  -- type is its own base.
  unfoldable pub collect_facets : ℕ → Types → SimpleBase → EffectiveFacets → Option EffectiveFacets
  unfolding collect_parent merge_level
  collect_facets zero types b out = none
  collect_facets (suc fuel) types (builtin t) out = some out
  collect_facets (suc fuel) types (union ms) out = some out
  collect_facets (suc fuel) types (restriction r) out =
      Option.map (merge_level r) (collect_parent (collect_facets fuel types) types r.base out)

  unfoldable pub effective_facets : ℕ → Types → SimpleBase → Option EffectiveFacets
  unfolding collect_facets
  effective_facets fuel types b = collect_facets fuel types b no_facets

-- ===== src/Facets/Ranges.antt =====
-- The order of the ranges that the checks of dfdl-vm/src/schema/facets.rs accept.
use aitest.Prelude.{◌+◌, ◌<◌, ◌≡◌, ◌↔◌, refl, arith, ◌&&◌, Option, none, some}
use aitest.Text.{Text}
use aitest.Int.{ℤ, ◌≤ℤ◌, pos_part, neg_part}
use aitest.Facets.{EffectiveFacets}
use aitest.Facets.Validate.{
  FacetMessage, SchemaError, Check, accepts, refuses, ◌then◌, refuse_if, refuse_both, is_some,
  gtb_ℤ, geb_ℤ, validate_facet_range_order,
}

infix 50 ◌<ℤ◌
abbrev pub ◌<ℤ◌ : ℤ → ℤ → Type 0
a <ℤ b = pos_part a + neg_part b < pos_part b + neg_part a

-- The relation holds where both facets are there.
abbrev pub Related : (ℤ → ℤ → Type 0) → Option ℤ → Option ℤ → Type 0
Related R none b = Unit
Related R (some a) none = Unit
Related R (some a) (some b) = R a b

abbrev pub NotBoth : Option ℤ → Option ℤ → Type 0
NotBoth none b = Unit
NotBoth (some a) none = Unit
NotBoth (some a) (some b) = ⊥

-- At most one lower and one upper bound, and the lower one not over the upper one: below it where
-- the upper bound is exclusive.
pub record IsOrdered (eff : EffectiveFacets) : Type 0 where
  pub one_max : NotBoth eff.max_inclusive eff.max_exclusive
  pub one_min : NotBoth eff.min_inclusive eff.min_exclusive
  pub exclusive_inclusive : Related ◌≤ℤ◌ eff.min_exclusive eff.max_inclusive
  pub inclusive_inclusive : Related ◌≤ℤ◌ eff.min_inclusive eff.max_inclusive
  pub exclusive_exclusive : Related ◌<ℤ◌ eff.min_exclusive eff.max_exclusive
  pub inclusive_exclusive : Related ◌<ℤ◌ eff.min_inclusive eff.max_exclusive

refused : (e : SchemaError) → refuses e ≡ accepts → ⊥
refused e h = ground arith

then-accepts :
    (P Q : Type 0) (c d : Check)
    → c ≡ accepts ↔ P
    → d ≡ accepts ↔ Q
    → (c then d) ≡ accepts ↔ (P × Q)
then-accepts P Q accepts d p q = ((λ e. (p.0 refl, q.0 e)), (λ r. q.1 r.1))
then-accepts P Q (refuses e) d p q = (ground arith, (λ r. absurd (refused e (p.1 r.0))))

refuse_if-NotBoth :
    (a b : Option ℤ) (message : FacetMessage)
    → refuse_if (is_some a && is_some b) message ≡ accepts ↔ NotBoth a b
refuse_if-NotBoth none b message = ground arith
refuse_if-NotBoth (some a) none message = ground arith
refuse_if-NotBoth (some a) (some b) message = ground arith

refuse_both-le :
    (a b : Option ℤ) (message : ℤ → ℤ → FacetMessage)
    → refuse_both gtb_ℤ message a b ≡ accepts ↔ Related ◌≤ℤ◌ a b
refuse_both-le none b message = ground arith
refuse_both-le (some a) none message = ground arith
refuse_both-le (some a) (some b) message = ground arith

refuse_both-lt :
    (a b : Option ℤ) (message : ℤ → ℤ → FacetMessage)
    → refuse_both geb_ℤ message a b ≡ accepts ↔ Related ◌<ℤ◌ a b
refuse_both-lt none b message = ground arith
refuse_both-lt (some a) none message = ground arith
refuse_both-lt (some a) (some b) message = ground arith

-- The check of the ranges accepts the facets whose bounds are in order, and no others.
pub validate_facet_range_order-IsOrdered :
    (eff : EffectiveFacets) (diagnostic : Option Text)
    → validate_facet_range_order eff diagnostic ≡ accepts ↔ IsOrdered eff
unfolding validate_facet_range_order
validate_facet_range_order-IsOrdered eff diagnostic =
    let all = then-accepts _ _ _ _ (refuse_if-NotBoth eff.max_inclusive eff.max_exclusive _) (
      then-accepts _ _ _ _ (refuse_if-NotBoth eff.min_inclusive eff.min_exclusive _) (
        then-accepts _ _ _ _ (refuse_both-le eff.min_exclusive eff.max_inclusive _) (
          then-accepts _ _ _ _ (refuse_both-le eff.min_inclusive eff.max_inclusive _) (
            then-accepts _ _ _ _ (refuse_both-lt eff.min_exclusive eff.max_exclusive _)
              (refuse_both-lt eff.min_inclusive eff.max_exclusive _))))) in
    (
      (λ e.
          let (a, (b, (c, (d, (f, g))))) = all.0 e in
          record {
            one_max = a;
            one_min = b;
            exclusive_inclusive = c;
            inclusive_inclusive = d;
            exclusive_exclusive = f;
            inclusive_exclusive = g;
          }),
      (λ o. all.1 (
        o.one_max,
        (
          o.one_min,
          (
            o.exclusive_inclusive,
            (o.inclusive_inclusive, (o.exclusive_exclusive, o.inclusive_exclusive)),
          ),
        ),
      )),
    )

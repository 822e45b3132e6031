-- ===== src/Facets/Chain.antt =====
-- The facets of a chain of restrictions (dfdl-vm/src/schema/facets.rs).
use aitest.Prelude.{
  ℕ, zero, suc, ◌<◌, ◌≡◌, ◌↔◌, refl, ap, arith, Option, none, some, List, [], ◌∷◌, length, All,
}
use aitest.Text.{Text}
use aitest.Facets.{
  BuiltinType, RestrictionBase, builtin_base, named_base, Restriction, SimpleBase, builtin, union,
  restriction, Members, simple_type, complex_type, Types, get_type, EffectiveFacets, no_facets,
  merge_level, collect_parent, collect_facets, effective_facets,
}
use aitest.Facets.Merge.{Measure, Admits, bounds_of, level_bounds, merge_level-Admits}
use mathlib.Core.Option
use Prim.Native.Nat.{Ordering}

-- The levels of a type, the last restriction first. A type that is its own base has none.
mutual
  pub data Chain (types : Types) : SimpleBase → List Restriction → Type 0 where
    at_builtin : (t : BuiltinType) → Chain types (builtin t) []
    at_union : (ms : Members) → Chain types (union ms) []
    at_restriction :
        (r : Restriction) (levels : List Restriction)
        → ParentChain types r.base levels
        → Chain types (restriction r) (r ∷ levels)

  pub data ParentChain (types : Types) : RestrictionBase → List Restriction → Type 0 where
    on_builtin : (t : BuiltinType) → ParentChain types (builtin_base t) []
    on_missing : (name : Text) → get_type types name ≡ none → ParentChain types (named_base name) []
    on_complex :
        (name : Text)
        → get_type types name ≡ some complex_type
        → ParentChain types (named_base name) []
    on_simple :
        (name : Text) (inner : SimpleBase) (levels : List Restriction)
        → get_type types name ≡ some (simple_type inner)
        → Chain types inner levels
        → ParentChain types (named_base name) levels

-- The outcome is a set of facets, whose bounds admit what `out` and each level admit.
pub record Collects (out : EffectiveFacets) (levels : List Restriction) (o : Option EffectiveFacets)
    : Type 0 where
  pub facets : EffectiveFacets
  pub returns : o ≡ some facets
  pub admits :
      (m : Measure)
      → Admits (bounds_of facets) m
        ↔ (Admits (bounds_of out) m × All (λ r. Admits (level_bounds r) m) levels)

out-Collects : (out : EffectiveFacets) → Collects out [] (some out)
out-Collects out = record {
  facets = out;
  returns = refl;
  admits = λ m. ((λ a. (a, tt)), (λ p. p.0));
}

merge_level-Collects :
    (cmp : Text → Text → Option Ordering) (r : Restriction) (out : EffectiveFacets)
    (levels : List Restriction) (o : Option EffectiveFacets)
    → Collects out levels o
    → Collects out (r ∷ levels) (Option.map (merge_level cmp r) o)
merge_level-Collects cmp r out levels o c = record {
  facets = merge_level cmp r c.facets;
  returns = ap (Option.map (merge_level cmp r)) c.returns;
  admits = λ m.
      let level = merge_level-Admits cmp r c.facets m in
      let base = c.admits m in
      (
        (λ a. ((base.0 (level.0 a).0).0, ((level.0 a).1, (base.0 (level.0 a).0).1))),
        (λ p. level.1 (base.1 (p.0, p.1.1), p.1.0)),
      );
}

module _ (cmp : Text → Text → Option Ordering) (types : Types) where
  mutual
    unfolding collect_facets collect_parent

    collect_facets-Collects :
        {b : SimpleBase} {levels : List Restriction} (fuel : ℕ) (out : EffectiveFacets)
        → length levels < fuel
        → Chain types b levels
        → Collects out levels (collect_facets cmp fuel types b out)
    collect_facets-Collects zero out h c = absurd (omega arith)
    collect_facets-Collects (suc fuel) out h (at_builtin t) = out-Collects out
    collect_facets-Collects (suc fuel) out h (at_union ms) = out-Collects out
    collect_facets-Collects (suc fuel) out h (at_restriction r levels c) =
        merge_level-Collects cmp r out levels _ (collect_parent-Collects fuel out (omega arith) c)

    collect_parent-Collects :
        {b : RestrictionBase} {levels : List Restriction} (fuel : ℕ) (out : EffectiveFacets)
        → length levels < fuel
        → ParentChain types b levels
        → Collects out levels (collect_parent cmp (collect_facets cmp fuel types) types b out)
    collect_parent-Collects fuel out h (on_builtin t) = out-Collects out
    collect_parent-Collects fuel out h (on_missing name e) =
        rw (e, collect_parent) (out-Collects out)
    collect_parent-Collects fuel out h (on_complex name e) =
        rw (e, collect_parent) (out-Collects out)
    collect_parent-Collects fuel out h (on_simple name inner levels e c) =
        rw (e, collect_parent) (collect_facets-Collects fuel out h c)

-- The facets of a chain of restrictions refine the sets of values that its levels admit: for a depth
-- of recursion that is more than the number of levels there is a result, and its bounds on length,
-- number and digits admit exactly the values that every level admits.
pub effective_facets-Chain :
    (cmp : Text → Text → Option Ordering) (types : Types) (b : SimpleBase)
    (levels : List Restriction) (fuel : ℕ)
    → Chain types b levels
    → length levels < fuel
    → Collects no_facets levels (effective_facets cmp fuel types b)
unfolding effective_facets
effective_facets-Chain cmp types b levels fuel c h =
    collect_facets-Collects cmp types fuel no_facets h c

-- ===== src/Facets/Merge.antt =====
-- What a merge of facets admits (dfdl-vm/src/schema/facets.rs).
use aitest.Prelude.{ℕ, ◌+◌, ◌≤◌, ◌<◌, ◌↔◌, arith, Option, none, some}
use aitest.Text.{Text}
use aitest.Int.{ℤ, ◌≤ℤ◌, pos_part, neg_part}
use aitest.Facets.{
  Restriction, EffectiveFacets, no_facets, merge_min_length, merge_max_length, merge_inclusive_max,
  merge_inclusive_min, merge_level,
}
use Prim.Native.Nat.{Ordering}

-- What the numeric facets look at: the length of a value, its number, and its digits.
pub record Measure : Type 0 where
  pub len : ℕ
  pub number : ℤ
  pub digits : ℕ
  pub fraction : ℕ

abbrev pub AtLeast : Option ℕ → ℕ → Type 0
AtLeast none n = Unit
AtLeast (some b) n = b ≤ n

abbrev pub AtMost : Option ℕ → ℕ → Type 0
AtMost none n = Unit
AtMost (some b) n = n ≤ b

abbrev pub NotBelow : Option ℤ → ℤ → Type 0
NotBelow none n = Unit
NotBelow (some b) n = b ≤ℤ n

abbrev pub NotAbove : Option ℤ → ℤ → Type 0
NotAbove none n = Unit
NotAbove (some b) n = n ≤ℤ b

abbrev pub Above : Option ℤ → ℤ → Type 0
Above none n = Unit
Above (some b) n = pos_part b + neg_part n < pos_part n + neg_part b

abbrev pub Below : Option ℤ → ℤ → Type 0
Below none n = Unit
Below (some b) n = pos_part n + neg_part b < pos_part b + neg_part n

-- The bounds that a level or a whole chain gives.
pub record Bounds : Type 0 where
  pub min_length : Option ℕ
  pub max_length : Option ℕ
  pub min_inclusive : Option ℤ
  pub max_inclusive : Option ℤ
  pub min_exclusive : Option ℤ
  pub max_exclusive : Option ℤ
  pub total_digits : Option ℕ
  pub fraction_digits : Option ℕ

abbrev pub bounds_of : EffectiveFacets → Bounds
bounds_of e = record {
  min_length = e.min_length;
  max_length = e.max_length;
  min_inclusive = e.min_inclusive;
  max_inclusive = e.max_inclusive;
  min_exclusive = e.min_exclusive;
  max_exclusive = e.max_exclusive;
  total_digits = e.total_digits;
  fraction_digits = e.fraction_digits;
}

abbrev pub level_bounds : Restriction → Bounds
level_bounds r = record {
  min_length = r.min_length;
  max_length = r.max_length;
  min_inclusive = r.min_inclusive;
  max_inclusive = r.max_inclusive;
  min_exclusive = r.min_exclusive;
  max_exclusive = r.max_exclusive;
  total_digits = r.total_digits;
  fraction_digits = r.fraction_digits;
}

-- The value keeps all the bounds.
pub record Admits (b : Bounds) (m : Measure) : Type 0 where
  pub longest : AtMost b.max_length m.len
  pub shortest : AtLeast b.min_length m.len
  pub not_below : NotBelow b.min_inclusive m.number
  pub not_above : NotAbove b.max_inclusive m.number
  pub above : Above b.min_exclusive m.number
  pub below : Below b.max_exclusive m.number
  pub digits : AtMost b.total_digits m.digits
  pub fraction : AtMost b.fraction_digits m.fraction

AtLeast-merge :
    (b l : Option ℕ) (n : ℕ) → AtLeast (merge_min_length b l) n ↔ (AtLeast b n × AtLeast l n)
AtLeast-merge none l n = ground arith
AtLeast-merge (some b) none n = ground arith
AtLeast-merge (some b) (some l) n = ground arith

AtMost-merge :
    (b l : Option ℕ) (n : ℕ) → AtMost (merge_max_length b l) n ↔ (AtMost b n × AtMost l n)
AtMost-merge none l n = ground arith
AtMost-merge (some b) none n = ground arith
AtMost-merge (some b) (some l) n = ground arith

NotBelow-merge :
    (b l : Option ℤ) (n : ℤ) → NotBelow (merge_inclusive_max b l) n ↔ (NotBelow b n × NotBelow l n)
NotBelow-merge none l n = ground arith
NotBelow-merge (some b) none n = ground arith
NotBelow-merge (some b) (some l) n = ground arith

NotAbove-merge :
    (b l : Option ℤ) (n : ℤ) → NotAbove (merge_inclusive_min b l) n ↔ (NotAbove b n × NotAbove l n)
NotAbove-merge none l n = ground arith
NotAbove-merge (some b) none n = ground arith
NotAbove-merge (some b) (some l) n = ground arith

Above-merge : (b l : Option ℤ) (n : ℤ) → Above (merge_inclusive_max b l) n ↔ (Above b n × Above l n)
Above-merge none l n = ground arith
Above-merge (some b) none n = ground arith
Above-merge (some b) (some l) n = ground arith

Below-merge : (b l : Option ℤ) (n : ℤ) → Below (merge_inclusive_min b l) n ↔ (Below b n × Below l n)
Below-merge none l n = ground arith
Below-merge (some b) none n = ground arith
Below-merge (some b) (some l) n = ground arith

-- A merge admits what both of its sides admit, and nothing else.
pub merge_level-Admits :
    (cmp : Text → Text → Option Ordering) (r : Restriction) (e : EffectiveFacets) (m : Measure)
    → Admits (bounds_of (merge_level cmp r e)) m
      ↔ (Admits (bounds_of e) m × Admits (level_bounds r) m)
unfolding merge_level
merge_level-Admits cmp r e m =
    let a = AtMost-merge e.max_length r.max_length m.len in
    let b = AtLeast-merge e.min_length r.min_length m.len in
    let c = NotBelow-merge e.min_inclusive r.min_inclusive m.number in
    let d = NotAbove-merge e.max_inclusive r.max_inclusive m.number in
    let f = Above-merge e.min_exclusive r.min_exclusive m.number in
    let g = Below-merge e.max_exclusive r.max_exclusive m.number in
    let h = AtMost-merge e.total_digits r.total_digits m.digits in
    let i = AtMost-merge e.fraction_digits r.fraction_digits m.fraction in
    (
      (λ x. (
        record {
          longest = (a.0 x.longest).0;
          shortest = (b.0 x.shortest).0;
          not_below = (c.0 x.not_below).0;
          not_above = (d.0 x.not_above).0;
          above = (f.0 x.above).0;
          below = (g.0 x.below).0;
          digits = (h.0 x.digits).0;
          fraction = (i.0 x.fraction).0;
        },
        record {
          longest = (a.0 x.longest).1;
          shortest = (b.0 x.shortest).1;
          not_below = (c.0 x.not_below).1;
          not_above = (d.0 x.not_above).1;
          above = (f.0 x.above).1;
          below = (g.0 x.below).1;
          digits = (h.0 x.digits).1;
          fraction = (i.0 x.fraction).1;
        },
      )),
      (λ p. record {
        longest = a.1 (p.0.longest, p.1.longest);
        shortest = b.1 (p.0.shortest, p.1.shortest);
        not_below = c.1 (p.0.not_below, p.1.not_below);
        not_above = d.1 (p.0.not_above, p.1.not_above);
        above = f.1 (p.0.above, p.1.above);
        below = g.1 (p.0.below, p.1.below);
        digits = h.1 (p.0.digits, p.1.digits);
        fraction = i.1 (p.0.fraction, p.1.fraction);
      }),
    )

pub no_facets-Admits : (m : Measure) → Admits (bounds_of no_facets) m
no_facets-Admits m = record {
  longest = tt;
  shortest = tt;
  not_below = tt;
  not_above = tt;
  above = tt;
  below = tt;
  digits = tt;
  fraction = tt;
}

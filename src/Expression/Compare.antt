-- ===== src/Expression/Compare.antt =====
-- Comparisons of dfdl-vm/src/expression/eval.rs.
use aitest.Prelude.{
  ℕ, ◌≡◌, refl, sym, ap, ◌∙◌, arith, Bool, true, false, Option, none, some, [], ◌∷◌, inl, inr,
  Bool-cases,
}
use aitest.Text.{Text}
use aitest.Int.{ℤ, cmp, to_string, half_i32, parse_signed}
use aitest.Value.{DfdlValue, boolean, int, long, unsigned_int, double, string}
use aitest.Expression.{
  BinaryOpKind, eq, ne, lt, le, gt, ge, Outcome, ok, err, panics, Machine, ◌>>=◌,
}
use aitest.Expression.Eval.{
  compare_values, cmp_bool, cmp_text, cmp_then, cmp_f64, cmp_parsed_left, cmp_parsed_right, is_lt,
  is_eq, is_gt, is_ne, is_le, is_ge, boolean_of, eval_binary_op,
}
use Prim.Native.Nat.{compare, Ordering}

abbrev pub flip : Ordering → Ordering
flip Ordering.lt = Ordering.gt
flip Ordering.eq = Ordering.eq
flip Ordering.gt = Ordering.lt

cmp-flip : (a b : ℤ) → cmp b a ≡ flip (cmp a b)
unfolding cmp
cmp-flip a b = ground arith

cmp_then-flip : (a b : Ordering) → cmp_then (flip a) (flip b) ≡ flip (cmp_then a b)
cmp_then-flip Ordering.lt b = refl
cmp_then-flip Ordering.eq b = refl
cmp_then-flip Ordering.gt b = refl

compare-flip : (a b : ℕ) → compare b a ≡ flip (compare a b)
compare-flip a b = ground arith

cmp_text-flip : (s t : Text) → cmp_text t s ≡ flip (cmp_text s t)
unfolding cmp_text
cmp_text-flip [] [] = refl
cmp_text-flip [] (d ∷ t) = refl
cmp_text-flip (c ∷ s) [] = refl
cmp_text-flip (c ∷ s) (d ∷ t) =
    rw (compare-flip c d, cmp_text-flip s t) (cmp_then-flip (compare c d) (cmp_text s t))

cmp_bool-flip : (a b : Bool) → cmp_bool b a ≡ flip (cmp_bool a b)
unfolding cmp_bool
cmp_bool-flip true true = refl
cmp_bool-flip true false = refl
cmp_bool-flip false true = refl
cmp_bool-flip false false = refl

cmp_parsed-flip :
    (n : Option ℤ) (s : Text) (b : ℤ) → cmp_parsed_right n b s ≡ flip (cmp_parsed_left n s b)
cmp_parsed-flip none s b = cmp_text-flip s (to_string b)
cmp_parsed-flip (some n) s b = cmp-flip n b

cmp_parsed_flip_right :
    (n : Option ℤ) (a : ℤ) (s : Text) → cmp_parsed_left n s a ≡ flip (cmp_parsed_right n a s)
cmp_parsed_flip_right none a s = cmp_text-flip (to_string a) s
cmp_parsed_flip_right (some n) a s = cmp-flip a n

lt_flip : (o : Ordering) → is_lt o ≡ is_gt (flip o)
lt_flip Ordering.lt = refl
lt_flip Ordering.eq = refl
lt_flip Ordering.gt = refl

gt_flip : (o : Ordering) → is_gt o ≡ is_lt (flip o)
gt_flip Ordering.lt = refl
gt_flip Ordering.eq = refl
gt_flip Ordering.gt = refl

eq_flip : (o : Ordering) → is_eq o ≡ is_eq (flip o)
eq_flip Ordering.lt = refl
eq_flip Ordering.eq = refl
eq_flip Ordering.gt = refl

ne_flip : (o : Ordering) → is_ne o ≡ is_ne (flip o)
ne_flip Ordering.lt = refl
ne_flip Ordering.eq = refl
ne_flip Ordering.gt = refl

le_flip : (o : Ordering) → is_le o ≡ is_ge (flip o)
le_flip Ordering.lt = refl
le_flip Ordering.eq = refl
le_flip Ordering.gt = refl

ge_flip : (o : Ordering) → is_ge o ≡ is_le (flip o)
ge_flip Ordering.lt = refl
ge_flip Ordering.eq = refl
ge_flip Ordering.gt = refl

-- No double is both less and greater than another.
abbrev pub IsAsymmetric : Machine → Type 0
IsAsymmetric m = (a b : ℕ) → m.lt_f64 a b ≡ true → m.lt_f64 b a ≡ false

cmp_f64-flip : (m : Machine) (a b : ℕ) → IsAsymmetric m → cmp_f64 m b a ≡ flip (cmp_f64 m a b)
unfolding cmp_f64
cmp_f64-flip m a b h = elim (Bool-cases (m.lt_f64 a b)) [
  | inl e ↦ rw (h a b e, e) refl
  | inr e ↦ elim (Bool-cases (m.lt_f64 b a)) [ inl f ↦ rw (e, f) refl | inr f ↦ rw (e, f) refl ]
]

-- What is known of the comparison of `b` and `a` from that of `a` and `b`.
abbrev Mirrors : Outcome Ordering → Outcome Ordering → Type 0
Mirrors (ok o) q = q ≡ ok (flip o)
Mirrors (err e) q = Unit
Mirrors panics q = Unit

compare_values-Mirrors :
    (m : Machine) (l r : DfdlValue)
    → IsAsymmetric m
    → Mirrors (compare_values m l r) (compare_values m r l)
unfolding compare_values
compare_values-Mirrors m (int a) (int b) h = ap ok (cmp-flip a b)
compare_values-Mirrors m (long a) (long b) h = ap ok (cmp-flip a b)
compare_values-Mirrors m (unsigned_int a) (unsigned_int b) h = ap ok (compare-flip a b)
compare_values-Mirrors m (double a) (double b) h = ap ok (cmp_f64-flip m a b h)
compare_values-Mirrors m (boolean a) (boolean b) h = ap ok (cmp_bool-flip a b)
compare_values-Mirrors m (string a) (string b) h = ap ok (cmp_text-flip a.text b.text)
compare_values-Mirrors m (string a) (int b) h =
    ap ok (cmp_parsed-flip (parse_signed half_i32 a.text) a.text b)
compare_values-Mirrors m (int a) (string b) h =
    ap ok (cmp_parsed_flip_right (parse_signed half_i32 b.text) a b.text)
compare_values-Mirrors m _ _ h = tt

abbrev pub IsComparison : BinaryOpKind → Type 0
IsComparison eq = Unit
IsComparison ne = Unit
IsComparison lt = Unit
IsComparison le = Unit
IsComparison gt = Unit
IsComparison ge = Unit
IsComparison _ = ⊥

abbrev pub mirror : BinaryOpKind → BinaryOpKind
mirror lt = gt
mirror gt = lt
mirror le = ge
mirror ge = le
mirror op = op

mirrored :
    (p q : Outcome Ordering) (f g : Ordering → Bool) (v : DfdlValue)
    → Mirrors p q
    → ((o : Ordering) → f o ≡ g (flip o))
    → (p >>= λ o. boolean_of (f o)) ≡ ok v
    → (q >>= λ o. boolean_of (g o)) ≡ ok v
mirrored (ok o) q f g v h same e =
    ap (λ k. k >>= λ t. boolean_of (g t)) h ∙ ap boolean_of (sym (same o)) ∙ e
mirrored (err x) q f g v h same e = ground arith
mirrored panics q f g v h same e = ground arith

-- A comparison that has a result has the same result with its operands exchanged and its operator
-- mirrored, where no double is both less and greater than another.
pub eval_binary_op-mirror :
    (m : Machine) (op : BinaryOpKind) (l r v : DfdlValue)
    → IsAsymmetric m
    → IsComparison op
    → eval_binary_op m op l r ≡ ok v
    → eval_binary_op m (mirror op) r l ≡ ok v
unfolding eval_binary_op
eval_binary_op-mirror m eq l r v a h =
    mirrored _ _ is_eq is_eq v (compare_values-Mirrors m l r a) eq_flip
eval_binary_op-mirror m ne l r v a h =
    mirrored _ _ is_ne is_ne v (compare_values-Mirrors m l r a) ne_flip
eval_binary_op-mirror m lt l r v a h =
    mirrored _ _ is_lt is_gt v (compare_values-Mirrors m l r a) lt_flip
eval_binary_op-mirror m le l r v a h =
    mirrored _ _ is_le is_ge v (compare_values-Mirrors m l r a) le_flip
eval_binary_op-mirror m gt l r v a h =
    mirrored _ _ is_gt is_lt v (compare_values-Mirrors m l r a) gt_flip
eval_binary_op-mirror m ge l r v a h =
    mirrored _ _ is_ge is_le v (compare_values-Mirrors m l r a) ge_flip
eval_binary_op-mirror m _ l r v a h = absurd h

-- ===== src/Expression/Operators.antt =====
-- The operators of dfdl-vm/src/expression/eval.rs on values of known kinds.
use aitest.Prelude.{ℕ, arith, true, false}
use aitest.Int.{ℤ, pos}
use aitest.Value.{DfdlValue}
use aitest.Expression.{
  minus, BinaryOpKind, add, sub, mul, div, modulo, eq, ne, lt, le, gt, ge, xs_int, xs_double,
  Outcome, ok, err, panics, ◌>>=◌, Machine,
}
use aitest.Expression.Eval.{
  to_boolean, arithmetic_op, compare_values, cast_value, cast_int, cast_double, eval_unary_op,
  negate, eval_binary_op,
}
use aitest.Expression.Arithmetic.{IsArithmetic, eval_binary_op-IsWrapped}
use aitest.Expression.Compare.{IsComparison}
use aitest.Expression.Typing.{
  Kind, of_boolean, of_int, of_double, IsOf, is_boolean, is_int, is_double, is_string, IsSound,
  IsOk, IsCondition, condition_boolean, condition_int, IsLogical, logical_and, logical_or,
  AreDoubles, two_doubles, int_double, double_int, AreComparable, booleans, ints, doubles, strings,
  string_int, int_string,
}
use mathlib.Core.Path.{subst⁻¹}

pub then-IsSound :
    {j : Kind} (k : Kind) (o : Outcome DfdlValue) (f : DfdlValue → Outcome DfdlValue)
    → IsSound j o
    → ((v : DfdlValue) → IsOf j v → IsSound k (f v))
    → IsSound k (o >>= f)
then-IsSound k (ok v) f h g = g v h
then-IsSound k (err e) f h g = absurd h
then-IsSound k panics f h g = absurd h

pub ok-IsSound :
    {A : Type 0} (k : Kind) (o : Outcome A) (f : A → Outcome DfdlValue)
    → IsOk o
    → ((a : A) → IsSound k (f a))
    → IsSound k (o >>= f)
ok-IsSound k (ok a) f h g = g a
ok-IsSound k (err e) f h g = absurd h
ok-IsSound k panics f h g = absurd h

pub to_boolean-IsOk : {k : Kind} {v : DfdlValue} → IsCondition k → IsOf k v → IsOk (to_boolean v)
unfolding to_boolean
to_boolean-IsOk condition_boolean (is_boolean b) = tt
to_boolean-IsOk condition_int (is_int n h) = tt

module _ (m : Machine) where
  pub ints-IsSound :
      {l r : DfdlValue} (op : BinaryOpKind)
      → IsArithmetic op
      → IsOf of_int l
      → IsOf of_int r
      → IsSound of_int (eval_binary_op m op l r)
  ints-IsSound op h (is_int a ha) (is_int b hb) =
      let w = eval_binary_op-IsWrapped m op a b h ha hb in
      subst⁻¹ (IsSound of_int) (w.evaluates) (is_int w.result w.range)

  arithmetic_op-doubles :
      {j k : Kind} {l r : DfdlValue} (f : ℤ → ℤ → Outcome ℤ) (g : ℕ → ℕ → ℕ)
      → AreDoubles j k
      → IsOf j l
      → IsOf k r
      → IsSound of_double (arithmetic_op m f g l r)
  unfolding arithmetic_op
  arithmetic_op-doubles f g two_doubles (is_double a) (is_double b) = is_double (g a b)
  arithmetic_op-doubles f g int_double (is_int a h) (is_double b) = is_double (g (m.f64_of_i64 a) b)
  arithmetic_op-doubles f g double_int (is_double a) (is_int b h) = is_double (g a (m.f64_of_i64 b))

  pub doubles-IsSound :
      {j k : Kind} {l r : DfdlValue} (op : BinaryOpKind)
      → IsArithmetic op
      → AreDoubles j k
      → IsOf j l
      → IsOf k r
      → IsSound of_double (eval_binary_op m op l r)
  unfolding eval_binary_op
  doubles-IsSound add h = arithmetic_op-doubles _ m.add_f64
  doubles-IsSound sub h = arithmetic_op-doubles _ m.sub_f64
  doubles-IsSound mul h = arithmetic_op-doubles _ m.mul_f64
  doubles-IsSound div h = arithmetic_op-doubles _ m.div_f64
  doubles-IsSound modulo h = arithmetic_op-doubles _ m.rem_f64
  doubles-IsSound _ h = absurd h

  compare_values-IsOk :
      {j k : Kind} {l r : DfdlValue}
      → AreComparable j k
      → IsOf j l
      → IsOf k r
      → IsOk (compare_values m l r)
  unfolding compare_values
  compare_values-IsOk booleans (is_boolean a) (is_boolean b) = tt
  compare_values-IsOk ints (is_int a ha) (is_int b hb) = tt
  compare_values-IsOk doubles (is_double a) (is_double b) = tt
  compare_values-IsOk strings (is_string a) (is_string b) = tt
  compare_values-IsOk string_int (is_string a) (is_int b hb) = tt
  compare_values-IsOk int_string (is_int a ha) (is_string b) = tt

  pub test-IsSound :
      {j k : Kind} {l r : DfdlValue} (op : BinaryOpKind)
      → IsComparison op
      → AreComparable j k
      → IsOf j l
      → IsOf k r
      → IsSound of_boolean (eval_binary_op m op l r)
  unfolding eval_binary_op
  test-IsSound eq h c a b =
      ok-IsSound of_boolean _ _ (compare_values-IsOk c a b) (λ o. is_boolean _)
  test-IsSound ne h c a b =
      ok-IsSound of_boolean _ _ (compare_values-IsOk c a b) (λ o. is_boolean _)
  test-IsSound lt h c a b =
      ok-IsSound of_boolean _ _ (compare_values-IsOk c a b) (λ o. is_boolean _)
  test-IsSound le h c a b =
      ok-IsSound of_boolean _ _ (compare_values-IsOk c a b) (λ o. is_boolean _)
  test-IsSound gt h c a b =
      ok-IsSound of_boolean _ _ (compare_values-IsOk c a b) (λ o. is_boolean _)
  test-IsSound ge h c a b =
      ok-IsSound of_boolean _ _ (compare_values-IsOk c a b) (λ o. is_boolean _)
  test-IsSound _ h c a b = absurd h

  pub logic-IsSound :
      {j k : Kind} {op : BinaryOpKind} {l r : DfdlValue}
      → IsLogical op
      → IsCondition j
      → IsCondition k
      → IsOf j l
      → IsOf k r
      → IsSound of_boolean (eval_binary_op m op l r)
  unfolding eval_binary_op
  logic-IsSound logical_and cj ck a b =
      ok-IsSound of_boolean _ _ (to_boolean-IsOk cj a)
        (λ x. ok-IsSound of_boolean _ _ (to_boolean-IsOk ck b) (λ y. is_boolean _))
  logic-IsSound logical_or cj ck a b =
      ok-IsSound of_boolean _ _ (to_boolean-IsOk cj a)
        (λ x. ok-IsSound of_boolean _ _ (to_boolean-IsOk ck b) (λ y. is_boolean _))

  pub cast_int-IsSound :
      {k : Kind} {v : DfdlValue} → IsCondition k → IsOf k v → IsSound of_int (cast_value m v xs_int)
  unfolding cast_value cast_int
  cast_int-IsSound condition_int (is_int n h) = is_int n h
  cast_int-IsSound condition_boolean (is_boolean true) = is_int (pos 1) (omega arith, omega arith)
  cast_int-IsSound condition_boolean (is_boolean false) = is_int (pos 0) (omega arith, omega arith)

  pub cast_double-IsSound :
      {v : DfdlValue} → IsOf of_int v → IsSound of_double (cast_value m v xs_double)
  unfolding cast_value cast_double
  cast_double-IsSound (is_int n h) = is_double (m.f64_of_i64 n)

  pub negate-IsSound :
      {v : DfdlValue} → IsOf of_double v → IsSound of_double (eval_unary_op m minus v)
  unfolding eval_unary_op negate
  negate-IsSound (is_double f) = is_double (m.neg_f64 f)

-- ===== src/Runs/Expressions.antt =====
-- Runs of the expression evaluator.
use aitest.Prelude.{ℕ, ◌+◌, ◌-◌, ◌*◌, ◌≡◌, refl, arith, true, false, ◌&&◌, none, some, [], ◌∷◌, ltb}
use aitest.Int.{pos, negsuc, magnitude, half_i32, parse_signed, wrap}
use aitest.Value.{
  null, boolean, int, double, sequence_of, choice, no_fields, entry, field, string_of,
}
use aitest.Expression.{
  minus, add, mul, div, eq, lt, and_op, fn_count, fn_concat, dfdl_occurs_index, xs_int, Expr,
  variable, int_literal, bool_literal, function_call, cast, unary_op, binary_op, if_then_else,
  no_args, arg, steps_from, relative, no_steps, step, simple, self_node, is_self,
  undefined_variable, invalid_argument_count, ok, err, panics, EvalContext, Machine,
}
use aitest.Expression.Eval.{eval, eval_binary_op}
use aitest.Expression.Arithmetic.{exact, IsWrapped, eval_binary_op-IsWrapped}
use aitest.Expression.Compare.{mirror, eval_binary_op-mirror}
use aitest.Expression.Typing.{
  Declared, IsContext, HasKind, of_int, is_int, is_boolean, condition_boolean, ints, on_literal,
  on_comparison, on_occurs_index, on_if, on_ints, on_cast_int, IsSound,
}
use aitest.Expression.Soundness.{eval-IsSound}

-- A machine whose doubles are whole numbers, but for the bit pattern 0, which is no number.
abbrev whole : Machine
whole = record {
  add_f64 = λ a b. a + b;
  sub_f64 = λ a b. a - b;
  mul_f64 = λ a b. a * b;
  div_f64 = λ a b. a;
  rem_f64 = λ a b. b;
  neg_f64 = λ a. a;
  neg_f32 = λ a. a;
  lt_f64 = λ a b. ltb 0 a && ltb a b;
  f64_of_i64 = magnitude;
  f64_of_f32 = λ a. a;
  f32_of_f64 = λ a. a;
  i32_of_f64 = pos;
  parse_f64 = λ s. none;
  f64_to_string = λ a. [];
  debug = λ v. [];
}

abbrev third : EvalContext
third = record {
  resolve_path = λ p. ok null;
  get_variable = λ prefix local. err (undefined_variable local);
  occurs_index = ok 3;
  value_length = λ p. ok 8;
  content_length = λ p. ok 8;
}

-- `if (dfdl:occursIndex() lt 5) then 40 + 2 else xs:int(fn:true())`
abbrev chosen : Expr
chosen =
    if_then_else (binary_op lt (function_call dfdl_occurs_index no_args) (int_literal (pos 5)))
      (binary_op add (int_literal (pos 40)) (int_literal (pos 2))) (cast xs_int (bool_literal true))

run_chosen : eval whole third chosen ≡ ok (int (pos 42))
unfolding eval wrap
run_chosen = refl

-- `and` evaluates both operands.
no_short_cut :
    eval whole third (binary_op and_op (bool_literal false) (variable none (b'x' ∷ [])))
    ≡ err (undefined_variable (b'x' ∷ []))
unfolding eval
no_short_cut = refl

concatenated :
    eval whole third
      (function_call fn_concat (arg (int_literal (negsuc 11)) (arg (bool_literal false) no_args)))
    ≡ ok (string_of (b'-' ∷ b'1' ∷ b'2' ∷ b'f' ∷ b'a' ∷ b'l' ∷ b's' ∷ b'e' ∷ []))
unfolding eval
concatenated = refl

wrong_count : eval whole third (function_call fn_count no_args) ≡ err (invalid_argument_count 1 0)
unfolding eval
wrong_count = refl

-- The least `xs:int` has no negation.
negated_min : eval whole third (unary_op minus (int_literal (negsuc 2147483647))) ≡ panics
unfolding eval
negated_min = refl

-- A sum wraps around.
wrapped_sum :
    eval_binary_op whole add (int (pos 2147483647)) (int (pos 1)) ≡ ok (int (negsuc 2147483647))
unfolding eval_binary_op wrap
wrapped_sum = refl

division_by_zero : eval_binary_op whole div (int (pos 7)) (int (pos 0)) ≡ ok (int (pos 0))
unfolding eval_binary_op wrap
division_by_zero = refl

-- What is no number equals every number.
nan_equal : eval_binary_op whole eq (double 0) (double 5) ≡ ok (boolean true)
unfolding eval_binary_op
nan_equal = refl

parsed_numbers :
    (parse_signed half_i32 (b'-' ∷ b'7' ∷ []) ≡ some (negsuc 6))
    × (parse_signed half_i32 (b'-' ∷ []) ≡ none)
unfolding parse_signed
parsed_numbers = (refl, refl)

self_path :
    (is_self (steps_from relative (step (simple self_node) no_steps)) ≡ true)
    × (is_self (steps_from relative no_steps) ≡ true)
unfolding is_self
self_path = (refl, refl)

-- The field `b` is found inside the only field of the sequence.
field_inside :
    field (sequence_of (entry (b'a' ∷ []) (choice (b'b' ∷ []) (int (pos 1))) no_fields)) (b'b' ∷ [])
    ≡ some (int (pos 1))
unfolding field
field_inside = refl

eval_binary_op-IsWrapped_example :
    IsWrapped
      (eval_binary_op whole mul (int (pos 65536)) (int (negsuc 65535)))
      (exact mul (pos 65536) (negsuc 65535))
eval_binary_op-IsWrapped_example =
    eval_binary_op-IsWrapped whole mul (pos 65536) (negsuc 65535) tt (omega arith, omega arith)
      (omega arith, omega arith)

two_before_three : eval_binary_op whole lt (int (pos 2)) (string_of (b'3' ∷ [])) ≡ ok (boolean true)
unfolding eval_binary_op
two_before_three = refl

whole_asymmetric : (a b : ℕ) → (ltb 0 a && ltb a b) ≡ true → (ltb 0 b && ltb b a) ≡ false
whole_asymmetric a b h = ground arith

eval_binary_op-mirror_example :
    eval_binary_op whole (mirror lt) (string_of (b'3' ∷ [])) (int (pos 2)) ≡ ok (boolean true)
eval_binary_op-mirror_example =
    eval_binary_op-mirror whole lt (int (pos 2)) (string_of (b'3' ∷ [])) (boolean true)
      whole_asymmetric tt two_before_three

abbrev nothing_declared : Declared
nothing_declared = record { path_kind = λ p. none; variable_kind = λ prefix local. none }

third-IsContext : IsContext nothing_declared third
third-IsContext = record {
  paths = λ p k h. ground arith;
  variables = λ prefix local k h. ground arith;
  index = tt;
  value_lengths = λ p. tt;
  content_lengths = λ p. tt;
}

chosen-HasKind : HasKind nothing_declared chosen of_int
chosen-HasKind =
    on_if condition_boolean
      (on_comparison tt ints on_occurs_index
        (on_literal (is_int (pos 5) (omega arith, omega arith))))
      (on_ints tt (on_literal (is_int (pos 40) (omega arith, omega arith)))
        (on_literal (is_int (pos 2) (omega arith, omega arith))))
      (on_cast_int condition_boolean (on_literal (is_boolean true)))

eval-IsSound_example : IsSound of_int (eval whole third chosen)
eval-IsSound_example =
    eval-IsSound whole nothing_declared third chosen of_int third-IsContext chosen-HasKind

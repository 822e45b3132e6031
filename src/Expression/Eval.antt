-- ===== src/Expression/Eval.antt =====
-- The evaluator of dfdl-vm/src/expression/eval.rs.
use aitest.Prelude.{
  ℕ, ◌+◌, Bool, true, false, not, ◌&&◌, ◌||◌, Option, none, some, List, [], ◌∷◌, ◌++◌, length, ◌==◌,
  if◌then◌else◌,
}
use aitest.Text.{Text, trim}
use aitest.Text.Slices.{same_bytes}
use aitest.Int.{
  ℤ, pos, ◌+ℤ◌, ◌-ℤ◌, ◌*ℤ◌, quot, rem, cmp, is_zero, is_signed, half_i32, half_i64, as_i32,
  to_string, parse_signed,
}
use aitest.Value.{
  DfdlValue, boolean, int, long, short, byte, unsigned_int, float, double, string, array,
  StringValue, new_string, items_len,
}
use aitest.Expression.{
  UnaryOpKind, plus, minus, not_op, BinaryOpKind, add, sub, mul, div, modulo, eq, ne, lt, le, gt,
  ge, and_op, or_op, FuncKind, fn_count, fn_concat, fn_not, dfdl_occurs_index, dfdl_value_length,
  dfdl_content_length, other, SimpleType, xs_int, xs_double, xs_string, xs_boolean, Expr, literal,
  path, variable, function_call, cast, unary_op, binary_op, if_then_else, Args, no_args, arg,
  args_len, ElementPath, cannot_negate, invalid_operands, cannot_compare, string_to_boolean,
  value_to_boolean, string_to, value_to, unsupported_function, type_mismatch, invalid_cast,
  eval_error, invalid_argument_count, unknown_function, Outcome, ok, err, panics, ◌>>=◌,
  EvalContext, Machine,
}
use Prim.Native.Nat.{compare, Ordering}

-- The checked build refuses a number that the type does not hold.
unfoldable pub checked : ℕ → ℤ → Outcome ℤ
checked half n = if is_signed half n then ok n else panics

abbrev pub boolean_of : Bool → Outcome DfdlValue
boolean_of b = ok (boolean b)

abbrev pub true_text : Text
true_text = b't' ∷ b'r' ∷ b'u' ∷ b'e' ∷ []

abbrev pub false_text : Text
false_text = b'f' ∷ b'a' ∷ b'l' ∷ b's' ∷ b'e' ∷ []

unfoldable pub text_to_boolean : Text → Text → Outcome Bool
unfolding same_bytes
text_to_boolean trimmed whole =
    if same_bytes trimmed true_text || same_bytes trimmed (b'1' ∷ [])
    then ok true
    else if same_bytes trimmed false_text || same_bytes trimmed (b'0' ∷ [])
    then ok false
    else err (type_mismatch (string_to_boolean whole))

unfoldable pub to_boolean : DfdlValue → Outcome Bool
unfolding text_to_boolean trim
to_boolean (boolean b) = ok b
to_boolean (int n) = ok (not (is_zero n))
to_boolean (long n) = ok (not (is_zero n))
to_boolean (unsigned_int n) = ok (not (n == 0))
to_boolean (string s) = text_to_boolean (trim s.text) s.text
to_boolean v = err (type_mismatch (value_to_boolean v))

-- `a.cmp(b)` of Booleans and of texts.
unfoldable pub cmp_bool : Bool → Bool → Ordering
cmp_bool false true = Ordering.lt
cmp_bool true false = Ordering.gt
cmp_bool true true = Ordering.eq
cmp_bool false false = Ordering.eq

abbrev pub cmp_then : Ordering → Ordering → Ordering
cmp_then Ordering.eq later = later
cmp_then first later = first

unfoldable pub cmp_text : Text → Text → Ordering
cmp_text [] [] = Ordering.eq
cmp_text [] (d ∷ t) = Ordering.lt
cmp_text (c ∷ s) [] = Ordering.gt
cmp_text (c ∷ s) (d ∷ t) = cmp_then (compare c d) (cmp_text s t)

abbrev pub cmp_parsed_left : Option ℤ → Text → ℤ → Ordering
cmp_parsed_left none a b = cmp_text a (to_string b)
cmp_parsed_left (some n) a b = cmp n b

abbrev pub cmp_parsed_right : Option ℤ → ℤ → Text → Ordering
cmp_parsed_right none a b = cmp_text (to_string a) b
cmp_parsed_right (some n) a b = cmp a n

abbrev pub is_lt : Ordering → Bool
is_lt Ordering.lt = true
is_lt _ = false

abbrev pub is_eq : Ordering → Bool
is_eq Ordering.eq = true
is_eq _ = false

abbrev pub is_gt : Ordering → Bool
is_gt Ordering.gt = true
is_gt _ = false

abbrev pub is_ne : Ordering → Bool
is_ne Ordering.eq = false
is_ne _ = true

abbrev pub is_le : Ordering → Bool
is_le Ordering.gt = false
is_le _ = true

abbrev pub is_ge : Ordering → Bool
is_ge Ordering.lt = false
is_ge _ = true

module _ (m : Machine) where
  unfoldable pub cmp_f64 : ℕ → ℕ → Ordering
  cmp_f64 a b =
      if m.lt_f64 a b then Ordering.lt else if m.lt_f64 b a then Ordering.gt else Ordering.eq

  -- The -1, 0 and 1 of the source are the three orderings.
  unfoldable pub compare_values : DfdlValue → DfdlValue → Outcome Ordering
  unfolding cmp cmp_bool cmp_text cmp_f64 parse_signed to_string
  compare_values (int a) (int b) = ok (cmp a b)
  compare_values (long a) (long b) = ok (cmp a b)
  compare_values (unsigned_int a) (unsigned_int b) = ok (compare a b)
  compare_values (double a) (double b) = ok (cmp_f64 a b)
  compare_values (boolean a) (boolean b) = ok (cmp_bool a b)
  compare_values (string a) (string b) = ok (cmp_text a.text b.text)
  compare_values (string a) (int b) = ok (cmp_parsed_left (parse_signed half_i32 a.text) a.text b)
  compare_values (int a) (string b) = ok (cmp_parsed_right (parse_signed half_i32 b.text) a b.text)
  compare_values a b = err (type_mismatch (cannot_compare a b))

  -- `arithmetic_op` with its two operations.
  unfoldable pub arithmetic_op :
      (ℤ → ℤ → Outcome ℤ) → (ℕ → ℕ → ℕ) → DfdlValue → DfdlValue → Outcome DfdlValue
  arithmetic_op int_op float_op (int a) (int b) = int_op a b >>= λ r. ok (int (as_i32 r))
  arithmetic_op int_op float_op (long a) (long b) = int_op a b >>= λ r. ok (long r)
  arithmetic_op int_op float_op (double a) (double b) = ok (double (float_op a b))
  arithmetic_op int_op float_op (float a) (float b) =
      ok (float (m.f32_of_f64 (float_op (m.f64_of_f32 a) (m.f64_of_f32 b))))
  arithmetic_op int_op float_op (int a) (double b) = ok (double (float_op (m.f64_of_i64 a) b))
  arithmetic_op int_op float_op (double a) (int b) = ok (double (float_op a (m.f64_of_i64 b)))
  arithmetic_op int_op float_op a b = err (type_mismatch (invalid_operands a b))

  -- The remainder of a division that overflows is refused as the quotient is.
  unfoldable pub int_div : ℤ → ℤ → Outcome ℤ
  unfolding checked quot
  int_div a b = if is_zero b then ok (pos 0) else checked half_i64 (quot a b)

  unfoldable pub int_rem : ℤ → ℤ → Outcome ℤ
  unfolding checked quot rem
  int_rem a b =
      if is_zero b then ok (pos 0) else (checked half_i64 (quot a b) >>= λ q. ok (rem a b))

  unfoldable pub negate : DfdlValue → Outcome DfdlValue
  unfolding checked ◌-ℤ◌
  negate (int n) = checked half_i32 (pos 0 -ℤ n) >>= λ r. ok (int r)
  negate (long n) = checked half_i64 (pos 0 -ℤ n) >>= λ r. ok (long r)
  negate (short n) = checked 32768 (pos 0 -ℤ n) >>= λ r. ok (short r)
  negate (byte n) = checked 128 (pos 0 -ℤ n) >>= λ r. ok (byte r)
  negate (double f) = ok (double (m.neg_f64 f))
  negate (float f) = ok (float (m.neg_f32 f))
  negate v = err (type_mismatch (cannot_negate v))

  unfoldable pub eval_unary_op : UnaryOpKind → DfdlValue → Outcome DfdlValue
  unfolding negate to_boolean
  eval_unary_op plus v = ok v
  eval_unary_op minus v = negate v
  eval_unary_op not_op v = to_boolean v >>= λ b. boolean_of (not b)

  abbrev pub test : (Ordering → Bool) → DfdlValue → DfdlValue → Outcome DfdlValue
  test f a b = compare_values a b >>= λ o. boolean_of (f o)

  unfoldable pub eval_binary_op : BinaryOpKind → DfdlValue → DfdlValue → Outcome DfdlValue
  unfolding checked ◌+ℤ◌ ◌-ℤ◌ ◌*ℤ◌ arithmetic_op int_div int_rem compare_values to_boolean
  eval_binary_op add l r = arithmetic_op (λ a b. checked half_i64 (a +ℤ b)) m.add_f64 l r
  eval_binary_op sub l r = arithmetic_op (λ a b. checked half_i64 (a -ℤ b)) m.sub_f64 l r
  eval_binary_op mul l r = arithmetic_op (λ a b. checked half_i64 (a *ℤ b)) m.mul_f64 l r
  eval_binary_op div l r = arithmetic_op int_div m.div_f64 l r
  eval_binary_op modulo l r = arithmetic_op int_rem m.rem_f64 l r
  eval_binary_op eq l r = test is_eq l r
  eval_binary_op ne l r = test is_ne l r
  eval_binary_op lt l r = test is_lt l r
  eval_binary_op le l r = test is_le l r
  eval_binary_op gt l r = test is_gt l r
  eval_binary_op ge l r = test is_ge l r
  eval_binary_op and_op l r = do a ← to_boolean l; b ← to_boolean r; boolean_of (a && b)
  eval_binary_op or_op l r = do a ← to_boolean l; b ← to_boolean r; boolean_of (a || b)

  abbrev pub parsed :
      {A : Type 0} → Option A → (A → DfdlValue) → Text → SimpleType → Outcome DfdlValue
  parsed none f whole target = err (invalid_cast (string_to whole target))
  parsed (some a) f whole target = ok (f a)

  unfoldable pub cast_int : DfdlValue → Outcome DfdlValue
  unfolding parse_signed trim
  cast_int (int n) = ok (int n)
  cast_int (long n) = ok (int (as_i32 n))
  cast_int (double f) = ok (int (m.i32_of_f64 f))
  cast_int (string s) = parsed (parse_signed half_i32 (trim s.text)) int s.text xs_int
  cast_int (boolean b) = ok (int (pos (if b then 1 else 0)))
  cast_int v = err (invalid_cast (value_to v xs_int))

  unfoldable pub cast_double : DfdlValue → Outcome DfdlValue
  unfolding trim
  cast_double (double f) = ok (double f)
  cast_double (int n) = ok (double (m.f64_of_i64 n))
  cast_double (long n) = ok (double (m.f64_of_i64 n))
  cast_double (string s) = parsed (m.parse_f64 (trim s.text)) double s.text xs_double
  cast_double v = err (invalid_cast (value_to v xs_double))

  -- The string that a value is cast to.
  unfoldable pub string_of_value : DfdlValue → StringValue
  unfolding to_string
  string_of_value (string s) = s
  string_of_value (int n) = new_string (to_string n)
  string_of_value (long n) = new_string (to_string n)
  string_of_value (double f) = new_string (m.f64_to_string f)
  string_of_value (boolean b) = new_string (if b then true_text else false_text)
  string_of_value v = new_string (m.debug v)

  unfoldable pub cast_value : DfdlValue → SimpleType → Outcome DfdlValue
  unfolding cast_int cast_double string_of_value to_boolean
  cast_value v xs_int = cast_int v
  cast_value v xs_double = cast_double v
  cast_value v xs_string = ok (string (string_of_value v))
  cast_value v xs_boolean = to_boolean v >>= boolean_of
  cast_value v target = ok v

  abbrev pub count : DfdlValue → ℕ
  count (array items) = items_len items
  count v = 1

  abbrev pub concat_part : DfdlValue → Text
  concat_part (string s) = s.text
  concat_part v = []

  abbrev pub first_path : Args → Option ElementPath
  first_path (arg (path p) args) = some p
  first_path args = none

  abbrev pub int_of_length : ℕ → Outcome DfdlValue
  int_of_length n = ok (int (as_i32 (pos n)))

  -- A function of one argument.
  abbrev pub with_one :
      List (Outcome DfdlValue) → (DfdlValue → Outcome DfdlValue) → Outcome DfdlValue
  with_one (v ∷ []) f = v >>= f
  with_one vs f = err (invalid_argument_count 1 (length vs))

  -- The loop over the arguments of `fn:concat`, behind the text `out`.
  unfoldable pub concat_rounds : List (Outcome DfdlValue) → Text → Outcome Text
  unfolding cast_value
  concat_rounds [] out = ok out
  concat_rounds (v ∷ vs) out = do
    a ← v
    s ← cast_value a xs_string
    concat_rounds vs (out ++ concat_part s)

  -- A call with its arguments, and with what each of them evaluates to: a function that looks at no
  -- value of an argument does not use the second.
  unfoldable pub eval_function :
      EvalContext → FuncKind → Args → List (Outcome DfdlValue) → Outcome DfdlValue
  unfolding concat_rounds to_boolean
  eval_function ctx dfdl_occurs_index no_args vs = ctx.occurs_index >>= int_of_length
  eval_function ctx dfdl_occurs_index (arg e args) vs =
      err (invalid_argument_count 0 (1 + args_len args))
  eval_function ctx dfdl_value_length args vs = ctx.value_length (first_path args) >>= int_of_length
  eval_function ctx dfdl_content_length args vs =
      ctx.content_length (first_path args) >>= int_of_length
  eval_function ctx fn_count args vs = with_one vs (λ v. int_of_length (count v))
  eval_function ctx fn_concat args vs = concat_rounds vs [] >>= λ s. ok (string (new_string s))
  eval_function ctx fn_not args vs = with_one vs (λ v. to_boolean v >>= λ b. boolean_of (not b))
  eval_function ctx (other name) args vs = err (unknown_function name)
  eval_function ctx func args vs = err (eval_error (unsupported_function func))

  module _ (ctx : EvalContext) where
    unfoldable mutual
      unfolding eval_unary_op eval_binary_op to_boolean cast_value eval_function

      pub eval : Expr → Outcome DfdlValue
      eval (literal v) = ok v
      eval (path p) = ctx.resolve_path p
      eval (variable prefix local) = ctx.get_variable prefix local
      eval (unary_op op e) = eval e >>= eval_unary_op op
      eval (binary_op op left right) = do l ← eval left; r ← eval right; eval_binary_op op l r
      eval (if_then_else c then_branch else_branch) =
          let first = eval then_branch in
          let second = eval else_branch in
          do v ← eval c; b ← to_boolean v; (if b then first else second)
      eval (cast target e) = eval e >>= λ v. cast_value v target
      eval (function_call func args) = eval_function ctx func args (eval_all args)

      -- What the arguments evaluate to.
      pub eval_all : Args → List (Outcome DfdlValue)
      eval_all no_args = []
      eval_all (arg e args) = eval e ∷ eval_all args

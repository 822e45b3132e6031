-- ===== src/Expression.antt =====
-- The syntax of DPath expressions (dfdl-vm/src/expression/ast.rs and path.rs), their errors (error.rs)
-- and the context they are evaluated in (context.rs).
pub mod Eval
pub mod Arithmetic
pub mod Compare
pub mod Typing
pub mod Operators
pub mod Soundness
use aitest.Prelude.{ℕ, ◌+◌, ◌≡◌, Bool, true, false, ◌||◌, ◌==◌, Option, none, some, List}
use aitest.Text.{Text}
use aitest.Int.{ℤ, pos, half_i32}
use aitest.Value.{DfdlValue, int, string, boolean, new_string}

pub data UnaryOpKind : Type 0 where
  plus minus not_op : UnaryOpKind

pub data BinaryOpKind : Type 0 where
  add sub mul div modulo eq ne lt le gt ge and_op or_op : BinaryOpKind

pub data FuncKind : Type 0 where
  fn_count fn_concat fn_substring fn_exists fn_empty fn_not fn_nillable : FuncKind
  dfdl_occurs_index dfdl_value_length dfdl_content_length : FuncKind
  other : Text → FuncKind

pub data SimpleType : Type 0 where
  xs_string xs_int xs_integer xs_long xs_short xs_byte : SimpleType
  xs_unsigned_int xs_unsigned_long xs_unsigned_short xs_unsigned_byte : SimpleType
  xs_double xs_float xs_boolean xs_decimal : SimpleType

pub data PathOrigin : Type 0 where
  relative root : PathOrigin
  parent : ℕ → PathOrigin

pub data StepTest : Type 0 where
  name : Option Text → Text → StepTest
  wildcard : StepTest
  attribute : Text → StepTest
  self_node : StepTest

mutual
  pub data Expr : Type 0 where
    literal : DfdlValue → Expr
    path : ElementPath → Expr
    variable : Option Text → Text → Expr
    function_call : FuncKind → Args → Expr
    cast : SimpleType → Expr → Expr
    unary_op : UnaryOpKind → Expr → Expr
    binary_op : BinaryOpKind → Expr → Expr → Expr
    if_then_else : Expr → Expr → Expr → Expr

  pub data Args : Type 0 where
    no_args : Args
    arg : Expr → Args → Args

  pub data ElementPath : Type 0 where
    steps_from : PathOrigin → Steps → ElementPath

  pub data Steps : Type 0 where
    no_steps : Steps
    step : PathStep → Steps → Steps

  pub data PathStep : Type 0 where
    simple : StepTest → PathStep
    with_predicate : StepTest → Expr → PathStep

abbrev pub int_literal : ℤ → Expr
int_literal n = literal (int n)

abbrev pub string_literal : Text → Expr
string_literal s = literal (string (new_string s))

abbrev pub bool_literal : Bool → Expr
bool_literal b = literal (boolean b)

abbrev pub args_len : Args → ℕ
args_len no_args = 0
args_len (arg e args) = 1 + args_len args

abbrev pub is_relative : PathOrigin → Bool
is_relative relative = true
is_relative _ = false

abbrev pub test_of : PathStep → StepTest
test_of (simple t) = t
test_of (with_predicate t e) = t

abbrev pub is_self_node : StepTest → Bool
is_self_node self_node = true
is_self_node _ = false

-- Whether a path is the current node.
unfoldable pub is_self : ElementPath → Bool
is_self (steps_from relative no_steps) = true
is_self (steps_from relative (step s no_steps)) = is_self_node (test_of s)
is_self _ = false

-- A message keeps the values that the source formats into its sentence.
pub data ExpressionMessage : Type 0 where
  cannot_negate : DfdlValue → ExpressionMessage
  invalid_operands cannot_compare : DfdlValue → DfdlValue → ExpressionMessage
  string_to_boolean : Text → ExpressionMessage
  value_to_boolean : DfdlValue → ExpressionMessage
  string_to : Text → SimpleType → ExpressionMessage
  value_to : DfdlValue → SimpleType → ExpressionMessage
  unsupported_function : FuncKind → ExpressionMessage
  unresolved : Text → ExpressionMessage

pub data ExpressionError : Type 0 where
  parse_error path_not_found : ExpressionMessage → ExpressionError
  index_out_of_bounds : ℤ → ℕ → ExpressionError
  unknown_function : Text → ExpressionError
  invalid_argument_count : ℕ → ℕ → ExpressionError
  undefined_variable : Text → ExpressionError
  type_mismatch invalid_cast eval_error : ExpressionMessage → ExpressionError

-- The result of an evaluation. `panics` is no value of the source: arithmetic that the checked build
-- refuses.
pub data Outcome {ℓ} (A : Type ℓ) : Type ℓ where
  ok : A → Outcome A
  err : ExpressionError → Outcome A
  panics : Outcome A

infixl 5 ◌>>=◌
abbrev pub ◌>>=◌ {ℓ κ} : {A : Type ℓ} {B : Type κ} → Outcome A → (A → Outcome B) → Outcome B
ok a >>= f = f a
err e >>= f = err e
panics >>= f = panics

pub record EvalContext : Type 0 where
  pub resolve_path : ElementPath → Outcome DfdlValue
  pub get_variable : Option Text → Text → Outcome DfdlValue
  pub occurs_index : Outcome ℕ
  pub value_length : Option ElementPath → Outcome ℕ
  pub content_length : Option ElementPath → Outcome ℕ

-- The floating-point operations of the machine on bit patterns, and `{:?}`.
pub record Machine : Type 0 where
  pub add_f64 : ℕ → ℕ → ℕ
  pub sub_f64 : ℕ → ℕ → ℕ
  pub mul_f64 : ℕ → ℕ → ℕ
  pub div_f64 : ℕ → ℕ → ℕ
  pub rem_f64 : ℕ → ℕ → ℕ
  pub neg_f64 : ℕ → ℕ
  pub neg_f32 : ℕ → ℕ
  pub lt_f64 : ℕ → ℕ → Bool
  pub f64_of_i64 : ℤ → ℕ
  pub f64_of_f32 : ℕ → ℕ
  pub f32_of_f64 : ℕ → ℕ
  pub i32_of_f64 : ℕ → ℤ
  pub parse_f64 : Text → Option ℕ
  pub f64_to_string : ℕ → Text
  pub debug : DfdlValue → Text

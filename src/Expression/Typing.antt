-- ===== src/Expression/Typing.antt =====
-- A type system for the expressions of dfdl-vm/src/expression, against the evaluator of eval.rs: what
-- it accepts evaluates to a value of its type.
use aitest.Prelude.{ℕ, ◌≡◌, Bool, Option, some}
use aitest.Text.{Text}
use aitest.Int.{ℤ, IsSigned, half_i32}
use aitest.Value.{DfdlValue, boolean, int, double, string, StringValue}
use aitest.Expression.{
  plus, minus, not_op, BinaryOpKind, and_op, or_op, fn_count, fn_concat, fn_not, dfdl_occurs_index,
  dfdl_value_length, dfdl_content_length, xs_int, xs_double, xs_string, xs_boolean, Expr, literal,
  path, variable, function_call, cast, unary_op, binary_op, if_then_else, Args, no_args, arg,
  ElementPath, Outcome, ok, err, panics, EvalContext,
}
use aitest.Expression.Arithmetic.{IsArithmetic}
use aitest.Expression.Compare.{IsComparison}

pub data Kind : Type 0 where
  of_boolean of_int of_double of_string : Kind

-- The values of a kind.
pub data IsOf : Kind → DfdlValue → Type 0 where
  is_boolean : (b : Bool) → IsOf of_boolean (boolean b)
  is_int : (n : ℤ) → IsSigned half_i32 n → IsOf of_int (int n)
  is_double : (f : ℕ) → IsOf of_double (double f)
  is_string : (s : StringValue) → IsOf of_string (string s)

-- The outcome is a value of the kind.
abbrev pub IsSound : Kind → Outcome DfdlValue → Type 0
IsSound k (ok v) = IsOf k v
IsSound k (err e) = ⊥
IsSound k panics = ⊥

abbrev pub IsOk {ℓ} : {A : Type ℓ} → Outcome A → Type 0
IsOk (ok a) = Unit
IsOk (err e) = ⊥
IsOk panics = ⊥

-- The kinds that a condition may have.
pub data IsCondition : Kind → Type 0 where
  condition_boolean : IsCondition of_boolean
  condition_int : IsCondition of_int

pub data IsLogical : BinaryOpKind → Type 0 where
  logical_and : IsLogical and_op
  logical_or : IsLogical or_op

-- The kinds of two operands of which one at least is a double.
pub data AreDoubles : Kind → Kind → Type 0 where
  two_doubles : AreDoubles of_double of_double
  int_double : AreDoubles of_int of_double
  double_int : AreDoubles of_double of_int

pub data AreComparable : Kind → Kind → Type 0 where
  booleans : AreComparable of_boolean of_boolean
  ints : AreComparable of_int of_int
  doubles : AreComparable of_double of_double
  strings : AreComparable of_string of_string
  string_int : AreComparable of_string of_int
  int_string : AreComparable of_int of_string

-- The kinds that paths and variables are declared with.
pub record Declared : Type 0 where
  pub path_kind : ElementPath → Option Kind
  pub variable_kind : Option Text → Text → Option Kind

module _ (d : Declared) where
  mutual
    pub data HasKind : Expr → Kind → Type 0 where
      on_literal : {k : Kind} {v : DfdlValue} → IsOf k v → HasKind (literal v) k
      on_path : {k : Kind} {p : ElementPath} → d.path_kind p ≡ some k → HasKind (path p) k
      on_variable :
          {k : Kind} {prefix : Option Text} {local : Text}
          → d.variable_kind prefix local ≡ some k
          → HasKind (variable prefix local) k
      on_plus : {k : Kind} {e : Expr} → HasKind e k → HasKind (unary_op plus e) k
      on_minus : {e : Expr} → HasKind e of_double → HasKind (unary_op minus e) of_double
      on_not :
          {k : Kind} {e : Expr}
          → IsCondition k
          → HasKind e k
          → HasKind (unary_op not_op e) of_boolean
      on_ints :
          {op : BinaryOpKind} {l r : Expr}
          → IsArithmetic op
          → HasKind l of_int
          → HasKind r of_int
          → HasKind (binary_op op l r) of_int
      on_doubles :
          {op : BinaryOpKind} {j k : Kind} {l r : Expr}
          → IsArithmetic op
          → AreDoubles j k
          → HasKind l j
          → HasKind r k
          → HasKind (binary_op op l r) of_double
      on_comparison :
          {op : BinaryOpKind} {j k : Kind} {l r : Expr}
          → IsComparison op
          → AreComparable j k
          → HasKind l j
          → HasKind r k
          → HasKind (binary_op op l r) of_boolean
      on_logic :
          {op : BinaryOpKind} {j k : Kind} {l r : Expr}
          → IsLogical op
          → IsCondition j
          → IsCondition k
          → HasKind l j
          → HasKind r k
          → HasKind (binary_op op l r) of_boolean
      on_if :
          {j k : Kind} {c first second : Expr}
          → IsCondition j
          → HasKind c j
          → HasKind first k
          → HasKind second k
          → HasKind (if_then_else c first second) k
      on_cast_int :
          {k : Kind} {e : Expr} → IsCondition k → HasKind e k → HasKind (cast xs_int e) of_int
      on_cast_double : {e : Expr} → HasKind e of_int → HasKind (cast xs_double e) of_double
      on_cast_string : {k : Kind} {e : Expr} → HasKind e k → HasKind (cast xs_string e) of_string
      on_cast_boolean :
          {k : Kind} {e : Expr}
          → IsCondition k
          → HasKind e k
          → HasKind (cast xs_boolean e) of_boolean
      on_count :
          {k : Kind} {e : Expr}
          → HasKind e k
          → HasKind (function_call fn_count (arg e no_args)) of_int
      on_fn_not :
          {k : Kind} {e : Expr}
          → IsCondition k
          → HasKind e k
          → HasKind (function_call fn_not (arg e no_args)) of_boolean
      on_concat : {args : Args} → HaveKinds args → HasKind (function_call fn_concat args) of_string
      on_occurs_index : HasKind (function_call dfdl_occurs_index no_args) of_int
      on_value_length : {args : Args} → HasKind (function_call dfdl_value_length args) of_int
      on_content_length : {args : Args} → HasKind (function_call dfdl_content_length args) of_int

    pub data HaveKinds : Args → Type 0 where
      on_no_args : HaveKinds no_args
      on_arg :
          {k : Kind} {e : Expr} {args : Args}
          → HasKind e k
          → HaveKinds args
          → HaveKinds (arg e args)

  -- A context that has what is declared, with values of the declared kinds, and all the lengths.
  pub record IsContext (ctx : EvalContext) : Type 0 where
    pub paths :
        (p : ElementPath) (k : Kind) → d.path_kind p ≡ some k → IsSound k (ctx.resolve_path p)
    pub variables :
        (prefix : Option Text) (local : Text) (k : Kind)
        → d.variable_kind prefix local ≡ some k
        → IsSound k (ctx.get_variable prefix local)
    pub index : IsOk ctx.occurs_index
    pub value_lengths : (p : Option ElementPath) → IsOk (ctx.value_length p)
    pub content_lengths : (p : Option ElementPath) → IsOk (ctx.content_length p)

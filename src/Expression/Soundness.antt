-- ===== src/Expression/Soundness.antt =====
-- The evaluator of dfdl-vm/src/expression/eval.rs keeps the kinds of expressions.
use aitest.Prelude.{ℕ, Bool, true, false, not, List, [], ◌∷◌, ◌++◌, if◌then◌else◌}
use aitest.Text.{Text}
use aitest.Int.{pos, as_i32}
use aitest.Int.Wrap.{wrap-IsSigned}
use aitest.Value.{DfdlValue, string, new_string}
use aitest.Expression.{Expr, Args, Outcome, ok, err, panics, EvalContext, Machine}
use aitest.Expression.Eval.{
  cast_value, string_of_value, eval_unary_op, eval_function, concat_rounds, count, concat_part,
  int_of_length, eval, eval_all,
}
use aitest.Expression.Typing.{
  Kind, of_boolean, of_int, of_double, of_string, is_boolean, is_int, is_string, IsSound, IsOk,
  Declared, HasKind, on_literal, on_path, on_variable, on_plus, on_minus, on_not, on_ints,
  on_doubles, on_comparison, on_logic, on_if, on_cast_int, on_cast_double, on_cast_string,
  on_cast_boolean, on_count, on_fn_not, on_concat, on_occurs_index, on_value_length,
  on_content_length, HaveKinds, on_no_args, on_arg, IsContext,
}
use aitest.Expression.Operators.{
  then-IsSound, ok-IsSound, to_boolean-IsOk, ints-IsSound, doubles-IsSound, test-IsSound,
  logic-IsSound, cast_int-IsSound, cast_double-IsSound, negate-IsSound,
}

int_of_length-IsSound : (m : Machine) (n : ℕ) → IsSound of_int (int_of_length m n)
int_of_length-IsSound m n = is_int (as_i32 (pos n)) (wrap-IsSigned (pos n))

-- Arguments that all have values.
abbrev AreOk : List (Outcome DfdlValue) → Type 0
AreOk [] = Unit
AreOk (v ∷ vs) = IsOk v × AreOk vs

concat_rounds-IsOk :
    (m : Machine) (vs : List (Outcome DfdlValue)) (out : Text)
    → AreOk vs
    → IsOk (concat_rounds m vs out)
unfolding concat_rounds cast_value
concat_rounds-IsOk m [] out h = tt
concat_rounds-IsOk m (ok v ∷ vs) out h =
    concat_rounds-IsOk m vs (out ++ concat_part m (string (string_of_value m v))) h.1
concat_rounds-IsOk m (err e ∷ vs) out h = absurd h.0
concat_rounds-IsOk m (panics ∷ vs) out h = absurd h.0

IsSound-IsOk : (k : Kind) (o : Outcome DfdlValue) → IsSound k o → IsOk o
IsSound-IsOk k (ok v) h = tt
IsSound-IsOk k (err e) h = absurd h
IsSound-IsOk k panics h = absurd h

branch-IsSound :
    (k : Kind) (b : Bool) (first second : Outcome DfdlValue)
    → IsSound k first
    → IsSound k second
    → IsSound k (if b then first else second)
branch-IsSound k true first second h g = h
branch-IsSound k false first second h g = g

module _ (m : Machine) (d : Declared) (ctx : EvalContext) (c : IsContext d ctx) where
  mutual
    unfolding eval eval_function cast_value eval_unary_op

    eval_kind : {e : Expr} {k : Kind} → HasKind d e k → IsSound k (eval m ctx e)
    eval_kind (on_literal h) = h
    eval_kind (on_path h) = c.paths _ _ h
    eval_kind (on_variable h) = c.variables _ _ _ h
    eval_kind (on_plus h) = then-IsSound _ _ _ (eval_kind h) (λ v o. o)
    eval_kind (on_minus h) = then-IsSound of_double _ _ (eval_kind h) (λ v o. negate-IsSound m o)
    eval_kind (on_not t h) =
        then-IsSound of_boolean _ _ (eval_kind h)
          (λ v o. ok-IsSound of_boolean _ _ (to_boolean-IsOk t o) (λ b. is_boolean (not b)))
    eval_kind (on_ints a l r) =
        then-IsSound of_int _ _ (eval_kind l)
          (λ v o. then-IsSound of_int _ _ (eval_kind r) (λ w q. ints-IsSound m _ a o q))
    eval_kind (on_doubles a t l r) =
        then-IsSound of_double _ _ (eval_kind l)
          (λ v o. then-IsSound of_double _ _ (eval_kind r) (λ w q. doubles-IsSound m _ a t o q))
    eval_kind (on_comparison a t l r) =
        then-IsSound of_boolean _ _ (eval_kind l)
          (λ v o. then-IsSound of_boolean _ _ (eval_kind r) (λ w q. test-IsSound m _ a t o q))
    eval_kind (on_logic a s t l r) =
        then-IsSound of_boolean _ _ (eval_kind l)
          (λ v o. then-IsSound of_boolean _ _ (eval_kind r) (λ w q. logic-IsSound m a s t o q))
    eval_kind (on_if t h first second) = then-IsSound _ _ _ (eval_kind h) (λ v o.
        ok-IsSound _ _ _ (to_boolean-IsOk t o)
          (λ b. branch-IsSound _ b _ _ (eval_kind first) (eval_kind second)))
    eval_kind (on_cast_int t h) =
        then-IsSound of_int _ _ (eval_kind h) (λ v o. cast_int-IsSound m t o)
    eval_kind (on_cast_double h) =
        then-IsSound of_double _ _ (eval_kind h) (λ v o. cast_double-IsSound m o)
    eval_kind (on_cast_string h) =
        then-IsSound of_string _ _ (eval_kind h) (λ v o. is_string (string_of_value m v))
    eval_kind (on_cast_boolean t h) =
        then-IsSound of_boolean _ _ (eval_kind h)
          (λ v o. ok-IsSound of_boolean _ _ (to_boolean-IsOk t o) (λ b. is_boolean b))
    eval_kind (on_count h) =
        then-IsSound of_int _ _ (eval_kind h) (λ v o. int_of_length-IsSound m (count m v))
    eval_kind (on_fn_not t h) =
        then-IsSound of_boolean _ _ (eval_kind h)
          (λ v o. ok-IsSound of_boolean _ _ (to_boolean-IsOk t o) (λ b. is_boolean (not b)))
    eval_kind (on_concat h) =
        ok-IsSound of_string _ _ (concat_rounds-IsOk m _ [] (eval_all_kinds h))
          (λ s. is_string (new_string s))
    eval_kind on_occurs_index = ok-IsSound of_int _ _ c.index (int_of_length-IsSound m)
    eval_kind on_value_length = ok-IsSound of_int _ _ (c.value_lengths _) (int_of_length-IsSound m)
    eval_kind on_content_length =
        ok-IsSound of_int _ _ (c.content_lengths _) (int_of_length-IsSound m)

    eval_all_kinds : {args : Args} → HaveKinds d args → AreOk (eval_all m ctx args)
    eval_all_kinds on_no_args = tt
    eval_all_kinds (on_arg h hs) = (IsSound-IsOk _ _ (eval_kind h), eval_all_kinds hs)

-- An expression of a kind evaluates to a value of the kind, without an error and without a panic, in
-- every context that has what is declared.
pub eval-IsSound :
    (m : Machine) (d : Declared) (ctx : EvalContext) (e : Expr) (k : Kind)
    → IsContext d ctx
    → HasKind d e k
    → IsSound k (eval m ctx e)
eval-IsSound m d ctx e k c h = eval_kind m d ctx c h

-- ===== src/Expression/Arithmetic.antt =====
-- Integer arithmetic of dfdl-vm/src/expression/eval.rs.
use aitest.Prelude.{ℕ, ◌+◌, ◌≡◌, refl, ap, arith, true, inl, inr, if◌then◌else◌, Bool-cases}
use aitest.Int.{
  ℤ, pos, ◌+ℤ◌, ◌-ℤ◌, ◌*ℤ◌, quot, rem, is_zero, is_signed, IsSigned, residue, half_i32, half_i64,
  as_i32,
}
use aitest.Int.Wrap.{
  wrap-IsSigned, residue-wrap, +ℤ-IsSigned, -ℤ-IsSigned, *ℤ-IsSigned, quot-IsSigned,
}
use aitest.Value.{DfdlValue, int}
use aitest.Expression.{BinaryOpKind, add, sub, mul, div, modulo, Outcome, ok, Machine, ◌>>=◌}
use aitest.Expression.Eval.{checked, arithmetic_op, int_div, int_rem, eval_binary_op}

abbrev pub IsArithmetic : BinaryOpKind → Type 0
IsArithmetic add = Unit
IsArithmetic sub = Unit
IsArithmetic mul = Unit
IsArithmetic div = Unit
IsArithmetic modulo = Unit
IsArithmetic _ = ⊥

-- The number that the operation stands for. A division by 0 gives 0.
abbrev pub exact : BinaryOpKind → ℤ → ℤ → ℤ
exact add a b = a +ℤ b
exact sub a b = a -ℤ b
exact mul a b = a *ℤ b
exact div a b = if is_zero b then pos 0 else quot a b
exact modulo a b = if is_zero b then pos 0 else rem a b
exact op a b = pos 0

-- The outcome is a number that an `xs:int` holds, and differs from `v` by a multiple of 2 ^ 32.
pub record IsWrapped (o : Outcome DfdlValue) (v : ℤ) : Type 0 where
  pub result : ℤ
  pub evaluates : o ≡ ok (int result)
  pub range : IsSigned half_i32 result
  pub congruent : residue (half_i32 + half_i32) result ≡ residue (half_i32 + half_i32) v

wrapped : (o : Outcome DfdlValue) (v : ℤ) → o ≡ ok (int (as_i32 v)) → IsWrapped o v
wrapped o v e = record {
  result = as_i32 v;
  evaluates = e;
  range = wrap-IsSigned v;
  congruent = residue-wrap v;
}

checked-IsSigned : (half : ℕ) (a : ℤ) → IsSigned half a → checked half a ≡ ok a
unfolding checked
checked-IsSigned half a h =
    let fits : is_signed half a ≡ true = ground (arith, h.0, h.1) in rw fits refl

then_int :
    (o : Outcome ℤ) (v : ℤ) → o ≡ ok v → (o >>= λ r. ok (int (as_i32 r))) ≡ ok (int (as_i32 v))
then_int o v e = ap (λ p. p >>= λ r. ok (int (as_i32 r))) e

int_div-exact : (m : Machine) (a b : ℤ) → IsSigned half_i32 a → int_div m a b ≡ ok (exact div a b)
unfolding int_div
int_div-exact m a b ha = elim (Bool-cases (is_zero b)) [
  | inl e ↦ rw e refl
  | inr e ↦ rw e (checked-IsSigned half_i64 (quot a b) (quot-IsSigned a b ha))
]

int_rem-exact :
    (m : Machine) (a b : ℤ) → IsSigned half_i32 a → int_rem m a b ≡ ok (exact modulo a b)
unfolding int_rem
int_rem-exact m a b ha = elim (Bool-cases (is_zero b)) [
  | inl e ↦ rw e refl
  | inr e ↦ rw e (
      ap (λ (o : Outcome ℤ). o >>= λ q. ok (rem a b))
        (checked-IsSigned half_i64 (quot a b) (quot-IsSigned a b ha)))
]

-- Arithmetic on two `xs:int` values never panics, not even in the 64 bits it is done in: its result is
-- the number that the operation stands for, wrapped around to 32 bits.
pub eval_binary_op-IsWrapped :
    (m : Machine) (op : BinaryOpKind) (a b : ℤ)
    → IsArithmetic op
    → IsSigned half_i32 a
    → IsSigned half_i32 b
    → IsWrapped (eval_binary_op m op (int a) (int b)) (exact op a b)
unfolding eval_binary_op arithmetic_op
eval_binary_op-IsWrapped m add a b h ha hb =
    wrapped _ _ (then_int _ _ (checked-IsSigned half_i64 (a +ℤ b) (+ℤ-IsSigned a b ha hb)))
eval_binary_op-IsWrapped m sub a b h ha hb =
    wrapped _ _ (then_int _ _ (checked-IsSigned half_i64 (a -ℤ b) (-ℤ-IsSigned a b ha hb)))
eval_binary_op-IsWrapped m mul a b h ha hb =
    wrapped _ _ (then_int _ _ (checked-IsSigned half_i64 (a *ℤ b) (*ℤ-IsSigned a b ha hb)))
eval_binary_op-IsWrapped m div a b h ha hb = wrapped _ _ (then_int _ _ (int_div-exact m a b ha))
eval_binary_op-IsWrapped m modulo a b h ha hb = wrapped _ _ (then_int _ _ (int_rem-exact m a b ha))
eval_binary_op-IsWrapped m _ a b h ha hb = absurd h

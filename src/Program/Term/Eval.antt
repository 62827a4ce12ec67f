-- ===== src/Program/Term/Eval.antt =====
-- The evaluation of ground terms (crates/themelios-program/src/term.rs). An `i32` is an integer; what
-- the source computes on one is computed exactly and checked.
pub mod Range
use Prim.Native.Nat.{bit_and as nat_and, bit_or as nat_or, bit_xor as nat_xor}
use themelios.Prelude.{
  ℕ, zero, suc, Bool, true, false, if◌then◌else◌, List, Option, none, some, Result, ok, err,
  and_then,
}
use themelios.Prelude.Int.{
  ℤ, pos, negsuc, neg, ◌+ℤ◌, ◌-ℤ◌, ◌*ℤ◌, quotient, remainder, power, abs, checked, to_bits,
  from_bits,
}
use themelios.Program.Symbol.{Symbol, Name, positive, from_list}
use themelios.Program.Term.{
  Variable, UnaryOp, negate, bitwise_not, BinaryOp, Term, TermParts, try_fold,
}

pub data EvalError : Type 0 where
  not_ground : Variable → EvalError
  external : Name → EvalError
  undefined : EvalError
  overflow : EvalError

abbrev pub or_overflow : Option ℤ → Result ℤ EvalError
or_overflow none = err EvalError.overflow
or_overflow (some n) = ok n

abbrev pub as_number : Symbol → Result ℤ EvalError
as_number (Symbol.number n) = ok n
as_number _ = err EvalError.undefined

abbrev pub complement : ℤ → ℤ
complement (pos n) = negsuc n
complement (negsuc n) = pos n

unfoldable pub apply_unary : UnaryOp → ℤ → Result ℤ EvalError
apply_unary negate operand = or_overflow (checked (neg operand))
apply_unary bitwise_not operand = ok (complement operand)

abbrev pub is_zero : ℤ → Bool
is_zero (pos zero) = true
is_zero _ = false

-- `checked_rem`, which overflows where the division does.
abbrev pub remainder_of : Option ℤ → ℤ → ℤ → Result ℤ EvalError
remainder_of none left right = err EvalError.overflow
remainder_of (some _) left right = ok (remainder left right)

-- A negative exponent is refused; `checked_pow` of another is the power, where it is an `i32`.
abbrev pub apply_pow : ℤ → ℤ → Result ℤ EvalError
apply_pow left (pos exponent) = or_overflow (checked (power left exponent))
apply_pow left (negsuc _) = err EvalError.undefined

unfoldable pub apply_binary : BinaryOp → ℤ → ℤ → Result ℤ EvalError
apply_binary BinaryOp.add left right = or_overflow (checked (left +ℤ right))
apply_binary BinaryOp.sub left right = or_overflow (checked (left -ℤ right))
apply_binary BinaryOp.mul left right = or_overflow (checked (left *ℤ right))
apply_binary BinaryOp.div left right =
    if is_zero right then err EvalError.undefined else or_overflow (checked (quotient left right))
apply_binary BinaryOp.modulo left right =
    if is_zero right
    then err EvalError.undefined
    else remainder_of (checked (quotient left right)) left right
apply_binary BinaryOp.pow left right = apply_pow left right
apply_binary BinaryOp.bit_and left right = ok (from_bits (nat_and (to_bits left) (to_bits right)))
apply_binary BinaryOp.bit_or left right = ok (from_bits (nat_or (to_bits left) (to_bits right)))
apply_binary BinaryOp.bit_xor left right = ok (from_bits (nat_xor (to_bits left) (to_bits right)))

abbrev pub number_of : Result ℤ EvalError → Result Symbol EvalError
number_of (ok n) = ok (Symbol.number n)
number_of (err e) = err e

-- The step of `evaluate` at a node, its children evaluated.
unfoldable pub evaluate_step : TermParts Symbol → Result Symbol EvalError
unfolding apply_unary apply_binary
evaluate_step (TermParts.symbolic s) = ok s
evaluate_step (TermParts.variable v) = err (EvalError.not_ground v)
evaluate_step (TermParts.external n _) = err (EvalError.external n)
evaluate_step (TermParts.function n xs) = ok (Symbol.function n (from_list xs) positive)
evaluate_step (TermParts.tuple xs) = ok (Symbol.tuple (from_list xs))
evaluate_step (TermParts.unary_operation op x) =
    number_of (and_then (as_number x) (λ n. apply_unary op n))
evaluate_step (TermParts.binary_operation op x y) =
    number_of (and_then (as_number x) (λ l. and_then (as_number y) (λ r. apply_binary op l r)))
evaluate_step (TermParts.absolute x) =
    number_of (and_then (as_number x) (λ n. or_overflow (checked (abs n))))
evaluate_step (TermParts.pool _) = err EvalError.undefined
evaluate_step (TermParts.interval _ _) = err EvalError.undefined

-- `evaluate`, with the fuel for its fold.
unfoldable pub evaluate : ℕ → Term → Option (Result Symbol EvalError)
unfolding try_fold evaluate_step
evaluate fuel term = try_fold evaluate_step fuel term

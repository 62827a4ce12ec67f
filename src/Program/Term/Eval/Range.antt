-- ===== src/Program/Term/Eval/Range.antt =====
-- Evaluation stays within the 32-bit integers.
use themelios.Prelude.{
  ℕ, suc, ◌+◌, ◌*◌, ◌%◌, ◌^◌, zero, ◌≤◌, ◌≡◌, refl, true, List, [], ◌∷◌, Option, none, some, Result,
  ok, err, and_then, arith, All, ltb, Bool-cases, inl, inr,
}
use themelios.Prelude.Int.{
  ℤ, pos, negsuc, is_i32, checked, from_bits, to_bits, remainder, quotient, neg, ◌+ℤ◌, ◌-ℤ◌, ◌*ℤ◌,
  power, abs,
}
use native.Mathlib.Nat.{mod-le}
use Prim.Native.Nat.{bit_and as nat_and, bit_or as nat_or, bit_xor as nat_xor}
use themelios.Program.Symbol.{Symbol, Symbols, nil, cons, from_list}
use themelios.Program.Term.{Variable, UnaryOp, BinaryOp, negate, bitwise_not, Term, TermParts}
use themelios.Program.Term.Fold.{nodes, tree, try_fold-tree}
use themelios.Program.Term.Leaves.{TermAll, PartsAll, Holds, and_then-Holds, tree-Holds}
use themelios.Program.Term.Eval.{
  EvalError, or_overflow, as_number, apply_unary, apply_binary, remainder_of, number_of,
  evaluate_step, evaluate, complement, apply_pow, is_zero,
}

abbrev pub IsI32 : ℤ → Type 0
IsI32 z = is_i32 z ≡ true

-- Every number in a symbol is an `i32`.
abbrev mutual
  pub InRange : Symbol → Type 0
  InRange Symbol.infimum = Unit
  InRange (Symbol.number z) = IsI32 z
  InRange (Symbol.string _) = Unit
  InRange (Symbol.function _ xs _) = AllInRange xs
  InRange (Symbol.tuple xs) = AllInRange xs
  InRange Symbol.supremum = Unit

  pub AllInRange : Symbols → Type 0
  AllInRange nil = Unit
  AllInRange (cons x xs) = InRange x × AllInRange xs

checked-Holds : (z : ℤ) → Holds IsI32 (or_overflow (checked z))
checked-Holds z = elim (Bool-cases (is_i32 z)) [ inl fits ↦ rw fits fits | inr large ↦ rw large tt ]

from_bits-IsI32 : (w : ℕ) → IsI32 (from_bits w)
from_bits-IsI32 w = elim (Bool-cases (ltb w (2 ^ 31))) [
  | inl low ↦ rw low low
  | inr high ↦ rw high (ground (arith, high))
]

complement-IsI32 : (z : ℤ) → IsI32 z → IsI32 (complement z)
complement-IsI32 (pos n) h = h
complement-IsI32 (negsuc n) h = h

neg-IsI32 : (n : ℕ) → n ≤ 2 ^ 31 → IsI32 (neg (pos n))
neg-IsI32 zero le = refl
neg-IsI32 (suc n) le = ground arith

remainder-IsI32 : (l r : ℤ) → IsI32 l → IsI32 (remainder l r)
remainder-IsI32 (pos a) (pos b) h = ground (arith, h, mod-le a b)
remainder-IsI32 (pos a) (negsuc b) h = ground (arith, h, mod-le a (suc b))
remainder-IsI32 (negsuc a) (pos b) h = neg-IsI32 (suc a % b) (ground (arith, h, mod-le (suc a) b))
remainder-IsI32 (negsuc a) (negsuc b) h =
    neg-IsI32 (suc a % suc b) (ground (arith, h, mod-le (suc a) (suc b)))

remainder_of-Holds : (o : Option ℤ) (l r : ℤ) → IsI32 l → Holds IsI32 (remainder_of o l r)
remainder_of-Holds none l r h = tt
remainder_of-Holds (some _) l r h = remainder-IsI32 l r h

apply_unary-Holds : (op : UnaryOp) (n : ℤ) → IsI32 n → Holds IsI32 (apply_unary op n)
unfolding apply_unary
apply_unary-Holds negate n h = checked-Holds (neg n)
apply_unary-Holds bitwise_not n h = complement-IsI32 n h

apply_pow-Holds : (l r : ℤ) → Holds IsI32 (apply_pow l r)
apply_pow-Holds l (pos n) = checked-Holds (power l n)
apply_pow-Holds l (negsuc n) = tt

apply_binary-Holds : (op : BinaryOp) (l r : ℤ) → IsI32 l → Holds IsI32 (apply_binary op l r)
unfolding apply_binary
apply_binary-Holds BinaryOp.add l r h = checked-Holds (l +ℤ r)
apply_binary-Holds BinaryOp.sub l r h = checked-Holds (l -ℤ r)
apply_binary-Holds BinaryOp.mul l r h = checked-Holds (l *ℤ r)
apply_binary-Holds BinaryOp.div l r h = elim (Bool-cases (is_zero r)) [
  | inl none_ ↦ rw none_ tt
  | inr some_ ↦ rw some_ (checked-Holds (quotient l r))
]
apply_binary-Holds BinaryOp.modulo l r h = elim (Bool-cases (is_zero r)) [
  | inl none_ ↦ rw none_ tt
  | inr some_ ↦ rw some_ (remainder_of-Holds (checked (quotient l r)) l r h)
]
apply_binary-Holds BinaryOp.pow l r h = apply_pow-Holds l r
apply_binary-Holds BinaryOp.bit_and l r h = from_bits-IsI32 (nat_and (to_bits l) (to_bits r))
apply_binary-Holds BinaryOp.bit_or l r h = from_bits-IsI32 (nat_or (to_bits l) (to_bits r))
apply_binary-Holds BinaryOp.bit_xor l r h = from_bits-IsI32 (nat_xor (to_bits l) (to_bits r))

as_number-Holds : (s : Symbol) → InRange s → Holds IsI32 (as_number s)
as_number-Holds Symbol.infimum h = tt
as_number-Holds (Symbol.number z) h = h
as_number-Holds (Symbol.string _) h = tt
as_number-Holds (Symbol.function _ _ _) h = tt
as_number-Holds (Symbol.tuple _) h = tt
as_number-Holds Symbol.supremum h = tt

number_of-Holds : (r : Result ℤ EvalError) → Holds IsI32 r → Holds InRange (number_of r)
number_of-Holds (ok n) h = h
number_of-Holds (err e) h = tt

from_list-AllInRange : (xs : List Symbol) → All InRange xs → AllInRange (from_list xs)
from_list-AllInRange [] h = tt
from_list-AllInRange (x ∷ xs) h = (h.0, from_list-AllInRange xs h.1)

abbrev pub AnyVariable : Variable → Type 0
AnyVariable _ = Unit

evaluate_step-Holds :
    (parts : TermParts Symbol)
    → PartsAll AnyVariable InRange InRange parts
    → Holds InRange (evaluate_step parts)
unfolding evaluate_step
evaluate_step-Holds (TermParts.variable v) h = tt
evaluate_step-Holds (TermParts.symbolic s) h = h
evaluate_step-Holds (TermParts.function n xs) h = from_list-AllInRange xs h
evaluate_step-Holds (TermParts.tuple xs) h = from_list-AllInRange xs h
evaluate_step-Holds (TermParts.pool xs) h = tt
evaluate_step-Holds (TermParts.interval x y) h = tt
evaluate_step-Holds (TermParts.external n xs) h = tt
evaluate_step-Holds (TermParts.unary_operation op x) h =
    number_of-Holds (and_then (as_number x) (λ n. apply_unary op n)) (
      and_then-Holds IsI32 IsI32 (as_number x) _ (as_number-Holds x h)
        (λ n hn. apply_unary-Holds op n hn))
evaluate_step-Holds (TermParts.absolute x) h =
    number_of-Holds (and_then (as_number x) (λ n. or_overflow (checked (abs n)))) (
      and_then-Holds IsI32 IsI32 (as_number x) _ (as_number-Holds x h)
        (λ n hn. checked-Holds (abs n)))
evaluate_step-Holds (TermParts.binary_operation op x y) h =
    number_of-Holds
      (and_then (as_number x) (λ l. and_then (as_number y) (λ r. apply_binary op l r)))
      (and_then-Holds IsI32 IsI32 (as_number x) _ (as_number-Holds x h.0) (λ l hl.
        and_then-Holds IsI32 IsI32 (as_number y) _ (as_number-Holds y h.1)
          (λ r hr. apply_binary-Holds op l r hl)))

-- With enough fuel, evaluation answers: with a symbol whose numbers are all 32-bit integers where those of
-- the term are, or with a refusal.
pub evaluate-InRange :
    (t : Term) (fuel : ℕ)
    → TermAll AnyVariable InRange t
    → 2 * nodes t + 1 ≤ fuel
    → (r : Result Symbol EvalError) × (evaluate fuel t ≡ some r) × Holds InRange r
unfolding evaluate
evaluate-InRange t fuel h enough = (
  tree evaluate_step t,
  try_fold-tree evaluate_step t fuel enough,
  tree-Holds evaluate_step AnyVariable InRange InRange evaluate_step-Holds t h,
)

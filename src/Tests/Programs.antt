-- ===== src/Tests/Programs.antt =====
-- Terms: their fold, their evaluation and their canonical form.
use themelios.Prelude.{
  ok, ℕ, ◌<◌, if◌then◌else◌, Bool-cases, inl, inr, subst, suc, ◌*◌, [], ◌∷◌, some, Result, ◌≡◌,
  refl, arith,
}
use themelios.Prelude.Int.{pos}
use themelios.Prelude.Order.{compare_list}
use themelios.Program.Symbol.{Symbol}
use themelios.Program.Term.{Term, no_terms, with_term, BinaryOp, negate, try_fold}
use themelios.Program.Term.Fold.{nodes, tree, try_fold-tree}
use themelios.Program.Term.Leaves.{Holds}
use themelios.Program.Term.Eval.{evaluate_step, evaluate}
use themelios.Program.Term.Eval.Range.{InRange, evaluate-InRange}
use themelios.Program.Term.Canonical.{canonicalize, canonicalize_one_level}
use themelios.Program.Term.Canonical.Forms.{IsCanonical}
use themelios.Program.Term.Canonical.Whole.{canonicalize-IsCanonical}
use themelios.Program.Symbol.{is_eq}
use themelios.Program.Term.Leaves.{TermAll}
use themelios.Program.Term.{Variable, named}
use themelios.Program.Unify.{bound, Substitution, compare_variable, get, resolve}
use themelios.Program.Unify.Pattern.{pattern_normalize}
use themelios.Program.Unify.Pattern.Ground.{pattern_normalize-evaluate}
use themelios.Program.Unify.Replace.{replace, AnySymbol}
use themelios.Program.Unify.Apply.{rounds}
use themelios.Program.Unify.Rounds.{Unbound, resolve-rounds}
use themelios.Program.Term.Doors.{
  variable_term, named_variable, ground_symbol, binary_built, canonicalize-Built,
}
use themelios.Program.Term.Canonical.Meaning.{evaluate-canonicalize}

abbrev one : Term
one = Term.symbolic (Symbol.number (pos 1))

-- `f(-1, 2 ^ 3)`, and `((1; 1); 1)`.
abbrev call : Term
call = Term.function (102 ∷ []) (
    with_term (Term.unary_operation negate one) (
      with_term
        (Term.binary_operation BinaryOp.pow (Term.symbolic (Symbol.number (pos 2)))
          (Term.symbolic (Symbol.number (pos 3))))
        no_terms))

abbrev pools : Term
pools =
    Term.pool
      (with_term (Term.pool (with_term one (with_term one no_terms))) (with_term one no_terms))

try_fold-tree_example : try_fold evaluate_step 13 call ≡ some (tree evaluate_step call)
try_fold-tree_example = try_fold-tree evaluate_step call 13 (omega arith)

evaluate-InRange_example : (r : Result Symbol _) × (evaluate 13 call ≡ some r) × Holds InRange r
evaluate-InRange_example = evaluate-InRange call 13 (refl, ((refl, refl), tt)) (omega arith)

canonicalize-IsCanonical_example : (u : Term) × (canonicalize pools ≡ some u) × IsCanonical u
canonicalize-IsCanonical_example = canonicalize-IsCanonical pools

abbrev sum : Term
sum = Term.binary_operation BinaryOp.add one one

evaluate-canonicalize_example :
    (u : Term) × (canonicalize call ≡ some u)
    × (evaluate (suc (2 * nodes u)) u ≡ evaluate (suc (2 * nodes call)) call)
evaluate-canonicalize_example = evaluate-canonicalize call (tt, ((tt, tt), tt))

abbrev x_plus_one : Term
x_plus_one = Term.binary_operation BinaryOp.add (variable_term (88 ∷ [])) one

canonicalize-Built_example : IsCanonical x_plus_one × (canonicalize x_plus_one ≡ some x_plus_one)
unfolding canonicalize_one_level
canonicalize-Built_example = canonicalize-Built x_plus_one (
    binary_built BinaryOp.add (variable_term (88 ∷ [])) one x_plus_one (named_variable (88 ∷ []))
      (ground_symbol (Symbol.number (pos 1))) refl)

-- `f(Y)` for `X`, and `1` for `Y`.
abbrev var_x : Variable
var_x = named (88 ∷ [])

abbrev var_y : Variable
var_y = named (89 ∷ [])

abbrev f_of_y : Term
f_of_y = Term.function (102 ∷ []) (with_term (Term.variable var_y) no_terms)

abbrev two_links : Substitution
two_links = record { bindings = (var_x, bound f_of_y) ∷ (var_y, bound one) ∷ [] }

abbrev rank : Variable → ℕ
rank v = if is_eq (compare_variable v var_x) then 1 else 0

below_rank :
    (v : Variable) (b c : Term)
    → some (bound c) ≡ some (bound b)
    → TermAll (λ w. rank w < rank v) AnySymbol c
    → TermAll (λ w. rank w < rank v) AnySymbol b
below_rank v b c e h =
    subst (TermAll (λ w. rank w < rank v) AnySymbol) {x = c} {y = b} (ground (arith, e)) h

two_links-lowers :
    (v : Variable) (b : Term)
    → get two_links v ≡ some (bound b)
    → TermAll (λ w. rank w < rank v) AnySymbol b
unfolding get compare_list
two_links-lowers v b e = elim (Bool-cases (is_eq (compare_variable v var_x))) [
  | inl is_x ↦ below_rank v b f_of_y (rw is_x at e) (rw is_x (omega arith))
  | inr not_x ↦ elim (Bool-cases (is_eq (compare_variable v var_y))) [
    | inl is_y ↦ below_rank v b one (rw (not_x, is_y) at e) tt
    | inr not_y ↦ absurd (ground (arith, rw (not_x, not_y) at e))
  ]
]

resolve-rounds_example :
    (resolve 10 (Term.variable var_x) two_links
      ≡ some (replace (rounds two_links 2) (Term.variable var_x)))
    × TermAll (Unbound two_links) AnySymbol (replace (rounds two_links 2) (Term.variable var_x))
unfolding get compare_list
resolve-rounds_example =
    resolve-rounds two_links rank 2 (Term.variable var_x) 10 two_links-lowers (omega arith)
      (omega arith)

abbrev two : Symbol
two = Symbol.number (pos 2)

pattern_normalize-evaluate_example : pattern_normalize sum ≡ some (ok (Term.symbolic two))
unfolding evaluate
pattern_normalize-evaluate_example = pattern_normalize-evaluate sum two refl

-- ===== src/Program/Unify/Pattern.antt =====
-- The pattern form of a term (crates/themelios-program/src/unify.rs). `none` is a panic.
pub mod Ground
use themelios.Prelude.{
  ℕ, suc, ◌+◌, ◌*◌, ◌≡◌, refl, sym, ap, subst, ◌∙◌, Bool, true, false, Bool-cases, List, [], ◌∷◌,
  Option, none, some, Result, ok, err, Result-cases, and_then, inl, inr, all, arith,
}
use themelios.Program.Symbol.{Symbol}
use themelios.Program.Term.{
  Variable, Term, Terms, no_terms, with_term, from_vec, TermParts, from_parts, try_fold,
}
use themelios.Program.Term.Fold.{nodes, tree, trees, try_fold-tree}
use themelios.Program.Term.Eval.{EvalError, evaluate, evaluate_step}
use themelios.Program.Term.Canonical.{
  is_symbolic, unwrap_symbolics, canonicalize, canonicalize_step, canonicalize_parts,
  canonical_fold,
}
use themelios.Program.Term.Canonical.Whole.{folds}
use themelios.Program.Term.Canonical.Fixed.{unmet, terms_of-unmet, any_flag-unmet}

pub data NotAPattern : Type 0 where
  non_denoting : Term → NotAPattern
  pooled : NotAPattern

-- The answer for an arithmetic former, by its evaluation, whose fuel is enough: `none` is not met.
abbrev pub denoted : Term → Option (Result Symbol EvalError) → Result Term NotAPattern
denoted former (some (ok symbol)) = ok (Term.symbolic symbol)
denoted former (some (err _)) = err (non_denoting former)
denoted former none = err (non_denoting former)

unfoldable pub arithmetic : Term → Result Term NotAPattern
unfolding evaluate
arithmetic former = denoted former (evaluate (suc (2 * nodes former)) former)

unfoldable pub pattern_step : TermParts Term → Result Term NotAPattern
unfolding arithmetic
pattern_step (TermParts.variable v) = ok (Term.variable v)
pattern_step (TermParts.symbolic s) = ok (Term.symbolic s)
pattern_step (TermParts.function n xs) = ok (Term.function n (from_vec xs))
pattern_step (TermParts.tuple xs) = ok (Term.tuple (from_vec xs))
pattern_step (TermParts.unary_operation op x) = arithmetic (Term.unary_operation op x)
pattern_step (TermParts.binary_operation op x y) = arithmetic (Term.binary_operation op x y)
pattern_step (TermParts.absolute x) = arithmetic (Term.absolute x)
pattern_step (TermParts.interval x y) = err (non_denoting (Term.interval x y))
pattern_step (TermParts.pool xs) = err (non_denoting (Term.pool (from_vec xs)))
pattern_step (TermParts.external n xs) = err (non_denoting (Term.external n (from_vec xs)))

abbrev pub canonical_pattern : Option Term → Option (Result Term NotAPattern)
canonical_pattern none = none
canonical_pattern (some t) = some (ok t)

abbrev pub normalized : Option (Result Term NotAPattern) → Option (Result Term NotAPattern)
unfolding canonicalize
normalized none = none
normalized (some (err e)) = some (err e)
normalized (some (ok t)) = canonical_pattern (canonicalize t)

unfoldable pub pattern_normalize : Term → Option (Result Term NotAPattern)
unfolding try_fold pattern_step canonicalize
pattern_normalize t = normalized (try_fold pattern_step (suc (2 * nodes t)) t)

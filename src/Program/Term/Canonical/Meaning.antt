-- ===== src/Program/Term/Canonical/Meaning.antt =====
-- What `canonicalize` leaves of a term's value.
use themelios.Prelude.{
  suc, ◌*◌, ◌≡◌, refl, sym, ap, ◌∙◌, Bool, true, false, Bool-cases, List, [], ◌∷◌, Option, none,
  some, Option-cases, inl, inr, all, Result, ok, arith,
}
use themelios.Prelude.Int.{ℤ, neg, checked}
use themelios.Program.Symbol.{Symbol, Name}
use themelios.Program.Term.{
  Term, Terms, no_terms, with_term, from_vec, negate, bitwise_not, try_fold,
}
use themelios.Program.Term.Fold.{nodes, tree, trees, try_fold-tree}
use themelios.Program.Term.Eval.{EvalError, evaluate_step, evaluate, apply_unary}
use themelios.Program.Term.Canonical.{
  is_symbolic, into_symbols, unwrap_symbolics, function_of, tuple_of, negate_number,
  canonicalize_parts, canonicalize_step, canonical_fold, canonicalize,
}
use themelios.Program.Term.Canonical.Whole.{folds}
use themelios.Program.Term.Canonical.Fixed.{unmet, terms_of-unmet, any_flag-unmet}

-- No pool stands in the term.
abbrev mutual
  pub PoolFree : Term → Type 0
  PoolFree (Term.variable v) = Unit
  PoolFree (Term.symbolic s) = Unit
  PoolFree (Term.function n ts) = PoolsFree ts
  PoolFree (Term.tuple ts) = PoolsFree ts
  PoolFree (Term.pool ts) = ⊥
  PoolFree (Term.unary_operation op t) = PoolFree t
  PoolFree (Term.binary_operation op l r) = PoolFree l × PoolFree r
  PoolFree (Term.interval l u) = PoolFree l × PoolFree u
  PoolFree (Term.absolute t) = PoolFree t
  PoolFree (Term.external n ts) = PoolsFree ts

  pub PoolsFree : Terms → Type 0
  PoolsFree no_terms = Unit
  PoolsFree (with_term t ts) = PoolFree t × PoolsFree ts

value : Term → Result Symbol EvalError
value t = tree evaluate_step t

trees-symbolic :
    (us : List Term)
    → all is_symbolic us ≡ true
    → trees evaluate_step (from_vec us) ≡ ok (unwrap_symbolics us)
unfolding evaluate_step
trees-symbolic [] h = refl
trees-symbolic (Term.symbolic s ∷ us) h = rw (trees-symbolic us h) refl
trees-symbolic (t ∷ us) h = absurd (ground (arith, h))

function_of-value :
    (n : Name) (us : List Term)
    → tree evaluate_step (function_of n (into_symbols us))
      ≡ tree evaluate_step (Term.function n (from_vec us))
unfolding evaluate_step
function_of-value n us = elim (Bool-cases (all is_symbolic us)) [
  | inl e ↦ rw (e, trees-symbolic us e) refl
  | inr e ↦ rw e refl
]

tuple_of-value :
    (us : List Term)
    → tree evaluate_step (tuple_of (into_symbols us))
      ≡ tree evaluate_step (Term.tuple (from_vec us))
unfolding evaluate_step
tuple_of-value us = elim (Bool-cases (all is_symbolic us)) [
  | inl e ↦ rw (e, trees-symbolic us e) refl
  | inr e ↦ rw e refl
]

negate_number-none :
    (n : ℤ)
    → checked (neg n) ≡ none
    → negate_number (Term.symbolic (Symbol.number n))
      ≡ Term.unary_operation negate (Term.symbolic (Symbol.number n))
unfolding negate_number
negate_number-none n e = rw (e, negate_number) refl

negate_number-value :
    (u : Term)
    → tree evaluate_step (negate_number u) ≡ tree evaluate_step (Term.unary_operation negate u)
unfolding evaluate_step negate_number apply_unary
negate_number-value (Term.symbolic (Symbol.number n)) = elim (Option-cases (checked (neg n))) [
  | inl e ↦ ap (tree evaluate_step) (negate_number-none n e)
  | inr (m, e) ↦ rw (e, negate_number) refl
]
negate_number-value u = refl

-- The fold of a term, when it meets no pool: the folded term has the value of the term.
abbrev SameValue : Term → Result (Term × Bool) ⊥ → Type 0
SameValue t r = (u : Term) × (r ≡ ok (u, false)) × (tree evaluate_step u ≡ tree evaluate_step t)

abbrev SameValues : Terms → Result (List (Term × Bool)) ⊥ → Type 0
SameValues ts r =
    (us : List Term) × (r ≡ ok (unmet us))
    × (trees evaluate_step (from_vec us) ≡ trees evaluate_step ts)

mutual
  unfolding canonicalize_step canonicalize_parts evaluate_step

  tree-SameValue : (t : Term) → PoolFree t → SameValue t (tree canonicalize_step t)
  tree-SameValue (Term.variable v) h = (_, refl, refl)
  tree-SameValue (Term.symbolic s) h = (_, refl, refl)
  tree-SameValue (Term.function n ts) h =
      let (us, e, v) = trees-SameValues ts h in
      (
        function_of n (into_symbols us),
        rw (e, terms_of-unmet us, any_flag-unmet us) refl,
        function_of-value n us ∙ rw v refl,
      )
  tree-SameValue (Term.tuple ts) h =
      let (us, e, v) = trees-SameValues ts h in
      (
        tuple_of (into_symbols us),
        rw (e, terms_of-unmet us, any_flag-unmet us) refl,
        tuple_of-value us ∙ rw v refl,
      )
  tree-SameValue (Term.pool ts) h = absurd h
  tree-SameValue (Term.unary_operation negate t) h =
      let (u, e, v) = tree-SameValue t h in
      (negate_number u, rw e refl, negate_number-value u ∙ rw v refl)
  tree-SameValue (Term.unary_operation bitwise_not t) h =
      let (u, e, v) = tree-SameValue t h in
      (Term.unary_operation bitwise_not u, rw e refl, rw v refl)
  tree-SameValue (Term.absolute t) h =
      let (u, e, v) = tree-SameValue t h in (Term.absolute u, rw e refl, rw v refl)
  tree-SameValue (Term.binary_operation op l r) h =
      let (a, d, v) = tree-SameValue l (h.0) in
      let (b, e, w) = tree-SameValue r (h.1) in
      (Term.binary_operation op a b, rw (d, e) refl, rw (v, w) refl)
  tree-SameValue (Term.interval l r) h =
      let (a, d, v) = tree-SameValue l (h.0) in
      let (b, e, w) = tree-SameValue r (h.1) in (Term.interval a b, rw (d, e) refl, rw (v, w) refl)
  tree-SameValue (Term.external n ts) h =
      let (us, e, v) = trees-SameValues ts h in
      (Term.external n (from_vec us), rw (e, terms_of-unmet us, any_flag-unmet us) refl, rw v refl)

  trees-SameValues : (ts : Terms) → PoolsFree ts → SameValues ts (trees canonicalize_step ts)
  trees-SameValues no_terms h = ([], refl, refl)
  trees-SameValues (with_term t ts) h =
      let (u, d, v) = tree-SameValue t (h.0) in
      let (us, e, w) = trees-SameValues ts (h.1) in (u ∷ us, rw (d, e) refl, rw (v, w) refl)

whole-value :
    (t : Term) (result : Option Term)
    → PoolFree t
    → result ≡ canonical_fold (try_fold canonicalize_step (suc (2 * nodes t)) t)
    → (u : Term) × (result ≡ some u) × (tree evaluate_step u ≡ tree evaluate_step t)
unfolding canonical_fold
whole-value t result h is_fold =
    let (u, e, v) = tree-SameValue t h in
    (u, is_fold ∙ ap canonical_fold (folds t) ∙ ap (λ r. canonical_fold (some r)) e, v)

canonicalize-value :
    (t : Term)
    → PoolFree t
    → (u : Term) × (canonicalize t ≡ some u) × (tree evaluate_step u ≡ tree evaluate_step t)
unfolding canonicalize
canonicalize-value (Term.variable v) h = (_, refl, refl)
canonicalize-value (Term.symbolic s) h = (_, refl, refl)
canonicalize-value t h = whole-value t _ h refl

-- A term with no pool evaluates, once canonicalized, to what it evaluates to itself, or to its error,
-- with twice as many units of fuel as each has nodes, and one.
pub evaluate-canonicalize :
    (t : Term)
    → PoolFree t
    → (u : Term) × (canonicalize t ≡ some u)
      × (evaluate (suc (2 * nodes u)) u ≡ evaluate (suc (2 * nodes t)) t)
unfolding evaluate
evaluate-canonicalize t h =
    let (u, e, v) = canonicalize-value t h in
    (
      u,
      e,
      try_fold-tree evaluate_step u (suc (2 * nodes u)) (omega arith)
          ∙ ap some v
          ∙ sym (try_fold-tree evaluate_step t (suc (2 * nodes t)) (omega arith)),
    )

-- ===== src/Tests/Graphs.antt =====
-- The nodes of the unifier, their classes and its answers.
use themelios.Prelude.{
  List, ℕ, zero, suc, ◌<◌, ◌≡◌, refl, subst, Bool, [], ◌∷◌, some, inl, get_elem?, All, arith,
}
use themelios.Prelude.Int.{pos}
use themelios.Program.Symbol.{Symbol}
use themelios.Program.Term.{Term, with_term, no_terms, Variable, anonymous}
use themelios.Program.Unify.Build.{unify_arguments}
use themelios.Program.Unify.Build.Unifies.{Unifies, unify_arguments-Unifies}
use themelios.Program.Unify.Nodes.{Cell, Nodes, union}
use themelios.Program.Unify.Nodes.Classes.{AreClasses}
use themelios.Program.Unify.Nodes.Merge.{Merges, union-Merges}
use themelios.Program.Unify.Solve.State.{IsGraph, IsPlain, children}
use themelios.Program.Unify.Occurs.{occurs_check_holds}
use themelios.Program.Unify.Occurs.Decides.{Decided, occurs_check_holds-Decided}
use themelios.Program.Unify.Consistent.{unify_nodes}
use themelios.Program.Unify.Consistent.Decides.{Verdict, unify_nodes-Verdict}

abbrev first : ℕ → ℕ
first x = 0

abbrev itself : ℕ → ℕ
itself x = x

abbrev pair : Nodes
pair = record {
  cell = Cell.variable anonymous ∷ Cell.variable anonymous ∷ [];
  parent = 0 ∷ 1 ∷ [];
  rank = 0 ∷ 0 ∷ [];
  named = [];
}

pair-AreClasses : AreClasses (pair.parent) itself first
pair-AreClasses zero h = (0, refl, omega arith, refl, inl (refl, refl))
pair-AreClasses (suc zero) h = (1, refl, omega arith, refl, inl (refl, refl))
pair-AreClasses (suc (suc n)) h = absurd (omega (arith, h))

union-Merges_example : Merges pair itself 0 1 (union pair 0 1)
union-Merges_example =
    union-Merges pair itself first 0 1 pair-AreClasses (omega arith) (omega arith) refl refl refl
      (λ e. omega (arith, e))

-- The nodes of `f(X)` and of `f(1)`, each node a class.
abbrev two_terms : Nodes
two_terms = record {
  cell =
      Cell.variable anonymous
      ∷ Cell.function (102 ∷ []) (0 ∷ [])
      ∷ Cell.leaf (Symbol.number (pos 1))
      ∷ Cell.function (102 ∷ []) (2 ∷ [])
      ∷ [];
  parent = 0 ∷ 1 ∷ 2 ∷ 3 ∷ [];
  rank = 0 ∷ 0 ∷ 0 ∷ 0 ∷ [];
  named = [];
}

two_terms-AreClasses : AreClasses (two_terms.parent) itself first
two_terms-AreClasses zero h = (0, refl, omega arith, refl, inl (refl, refl))
two_terms-AreClasses (suc zero) h = (1, refl, omega arith, refl, inl (refl, refl))
two_terms-AreClasses (suc (suc zero)) h = (2, refl, omega arith, refl, inl (refl, refl))
two_terms-AreClasses (suc (suc (suc zero))) h = (3, refl, omega arith, refl, inl (refl, refl))
two_terms-AreClasses (suc (suc (suc (suc n)))) h = absurd (omega (arith, h))

two_terms-closed :
    (id : ℕ) (c : Cell)
    → get_elem? (two_terms.cell) id ≡ some c
    → All (λ k. k < 4) (children c) × IsPlain c
two_terms-closed zero c e =
    let one : Cell.variable anonymous ≡ c = ground (arith, e) in
    subst (λ z. All (λ k. k < 4) (children z) × IsPlain z) one (tt, tt)
two_terms-closed (suc zero) c e =
    let one : Cell.function (102 ∷ []) (0 ∷ []) ≡ c = ground (arith, e) in
    subst (λ z. All (λ k. k < 4) (children z) × IsPlain z) one ((omega arith, tt), tt)
two_terms-closed (suc (suc zero)) c e =
    let one : Cell.leaf (Symbol.number (pos 1)) ≡ c = ground (arith, e) in
    subst (λ z. All (λ k. k < 4) (children z) × IsPlain z) one (tt, tt)
two_terms-closed (suc (suc (suc zero))) c e =
    let one : Cell.function (102 ∷ []) (2 ∷ []) ≡ c = ground (arith, e) in
    subst (λ z. All (λ k. k < 4) (children z) × IsPlain z) one ((omega arith, tt), tt)
two_terms-closed (suc (suc (suc (suc n)))) c e = absurd (ground (arith, e))

two_terms-IsGraph : IsGraph (two_terms.cell) (two_terms.parent) (two_terms.rank) itself first
two_terms-IsGraph = record {
  classes = two_terms-AreClasses;
  sized = refl;
  ranked = refl;
  inside = λ id h. h;
  fixed = λ id h. refl;
  low = λ id h. omega arith;
  base = λ id h e. refl;
  closed = λ id c e. (two_terms-closed id c e).0;
  plain = λ id c e. (two_terms-closed id c e).1;
}

occurs_check_holds-Decided_example :
    (answer : Bool × Nodes) × (occurs_check_holds 8 two_terms ≡ some answer)
    × Decided (two_terms.cell) itself first answer
occurs_check_holds-Decided_example =
    occurs_check_holds-Decided (two_terms.cell) itself first 8 two_terms refl two_terms-IsGraph
      (omega arith)

unify_nodes-Verdict_example :
    (answer : Bool × Nodes) × (unify_nodes 8 two_terms ((1, 3) ∷ []) ≡ some answer)
    × Verdict (two_terms.cell) itself ((1, 3) ∷ []) answer
unify_nodes-Verdict_example =
    unify_nodes-Verdict (two_terms.cell) 8 two_terms itself first ((1, 3) ∷ []) refl
      two_terms-IsGraph (omega arith, omega arith, tt) (omega arith)

-- `f(X, 1)` and `f(2, X)`.
abbrev left_terms : List Term
left_terms =
    Term.function (102 ∷ []) (
      with_term (Term.variable (Variable.named (88 ∷ [])))
        (with_term (Term.symbolic (Symbol.number (pos 1))) no_terms))
    ∷ []

abbrev right_terms : List Term
right_terms =
    Term.function (102 ∷ []) (
      with_term (Term.symbolic (Symbol.number (pos 2)))
        (with_term (Term.variable (Variable.named (88 ∷ []))) no_terms))
    ∷ []

unify_arguments-Unifies_example :
    (answer : Bool × Nodes) × (unify_arguments left_terms right_terms ≡ some answer)
    × Unifies left_terms right_terms answer
unify_arguments-Unifies_example =
    unify_arguments-Unifies left_terms right_terms ((tt, (tt, tt)), tt) ((tt, (tt, tt)), tt)

-- ===== src/Program/Unify/Build/Unifies.antt =====
-- The unifier's answer on two argument lists, against their ground instances.
use themelios.Prelude.{
  ℕ, suc, ◌<◌, ◌≡◌, refl, sym, ap, subst, ◌∙◌, Bool, true, false, List, [], ◌∷◌, some, All,
  All-of_mem, arith,
}
use themelios.Program.Symbol.{Symbol, Name}
use themelios.Program.Term.{Term, Variable}
use themelios.Program.Unify.Nodes.{Nodes}
use themelios.Program.Unify.Solve.State.{children}
use themelios.Program.Unify.Solve.Solutions.{IsModel, AreEqual}
use themelios.Program.Unify.Occurs.Visit.{Decreases}
use themelios.Program.Unify.Occurs.Decides.{graph_size}
use themelios.Program.Unify.Consistent.Models.{Decreases-IsModel}
use themelios.Program.Unify.Consistent.Decides.{Verdict, unify_nodes-Verdict}
use themelios.Program.Unify.Build.{default_nodes, unified, unify_arguments}
use themelios.Program.Unify.Build.Graph.{unmerged, flat, IsBuilt, IsBuilt-IsGraph}
use themelios.Program.Unify.Build.Shape.{IsTermAt}
use themelios.Program.Unify.Build.Terms.{IsPattern}
use themelios.Program.Unify.Build.Pairs.{
  ArePairsOf, build_pairs-ArePairsOf, ArePairsOf-AreInside, default-IsBuilt,
}
use themelios.Program.Unify.Build.Meaning.{
  ground_of, IsInstance, named_value, IsTermAt-ground_of, IsTermAt-IsInstance,
}

-- Place by place, the arguments have an instance in common.
abbrev pub HaveInstances : (Name → Symbol) → List Term → List Term → Type 0
HaveInstances ρ (l ∷ left) (r ∷ right) =
    ((s : Symbol) × IsInstance ρ l s × IsInstance ρ r s) × HaveInstances ρ left right
HaveInstances ρ _ _ = Unit

-- Place by place, the values for the variables make the arguments one ground term.
abbrev pub AreMadeEqual : (Variable → Symbol) → List Term → List Term → Type 0
AreMadeEqual σ (l ∷ left) (r ∷ right) = (ground_of σ l ≡ ground_of σ r) × AreMadeEqual σ left right
AreMadeEqual σ _ _ = Unit

abbrev pub Unifies : List Term → List Term → Bool × Nodes → Type 0
Unifies left right (true, _) = (ρ : Name → Symbol) × HaveInstances ρ left right
Unifies left right (false, _) = (σ : Variable → Symbol) → AreMadeEqual σ left right → ⊥

module _ (graph : Nodes) (v : ℕ → Symbol) (m : IsModel graph.cell unmerged v) where
  solved :
      (left right : List Term) (pairs : List (ℕ × ℕ))
      → ArePairsOf graph left right pairs
      → AreEqual v pairs
      → HaveInstances (named_value graph v m) left right
  solved [] right pairs h equal = tt
  solved (l ∷ left) [] pairs h equal = tt
  solved (l ∷ left) (r ∷ right) [] h equal = absurd h
  solved (l ∷ left) (r ∷ right) ((x, y) ∷ pairs) h equal = (
    (
      v x,
      IsTermAt-IsInstance graph v m x l (h.0),
      subst (IsInstance (named_value graph v m) r) (sym (equal.0))
          (IsTermAt-IsInstance graph v m y r (h.1)),
    ),
    solved left right pairs (h.2) (equal.1),
  )

  solves :
      (σ : Variable → Symbol)
      → ((id : ℕ) (t : Term) → IsTermAt graph id t → v id ≡ ground_of σ t)
      → (left right : List Term) (pairs : List (ℕ × ℕ)) → ArePairsOf graph left right pairs
      → AreMadeEqual σ left right
      → AreEqual v pairs
  solves σ value left right [] h equal = tt
  solves σ value [] right (p ∷ pairs) h equal = absurd h
  solves σ value (l ∷ left) [] (p ∷ pairs) h equal = absurd h
  solves σ value (l ∷ left) (r ∷ right) ((x, y) ∷ pairs) h equal = (
    value x l (h.0) ∙ equal.0 ∙ sym (value y r (h.1)),
    solves σ value left right pairs (h.2) (equal.1),
  )

IsBuilt-Decreases : (graph : Nodes) → IsBuilt graph → Decreases graph.cell unmerged (λ n. n)
IsBuilt-Decreases graph b n is_rep r (c, at, (k, i, e)) =
    subst (λ z. z < n) e (All-of_mem (λ z. z < n) k (children c) (b.closed n c at) i)

Verdict-Unifies :
    (graph : Nodes) (left right : List Term) (pairs : List (ℕ × ℕ)) (answer : Bool × Nodes)
    → IsBuilt graph
    → ArePairsOf graph left right pairs
    → Verdict graph.cell unmerged pairs answer
    → Unifies left right answer
Verdict-Unifies graph left right pairs (true, _) b h (classes, (v, m, equal)) =
    (named_value graph v m, solved graph v m left right pairs h equal)
Verdict-Unifies graph left right pairs (false, _) b h none_solves = λ σ equal.
    let (v, m, gives) =
      Decreases-IsModel graph.cell graph.parent graph.rank unmerged flat (IsBuilt-IsGraph graph b)
        (λ n. n) (IsBuilt-Decreases graph b) σ in
    let value = IsTermAt-ground_of graph v m σ (λ id x at. gives id x refl at) in
    none_solves v m (solves graph v m σ value left right pairs h equal)

-- On two lists of terms of variables, symbols, functions and tuples, the unifier ends, with no index out of
-- bounds. It answers true only when some values of the named variables, the same in both lists, give the
-- two arguments at every place an instance in common, in which each `_` may stand for any symbol. It
-- answers false only when no values of the variables, with one for `_`, make the arguments at every place
-- the same ground term. Places that only one list has do not count.
pub unify_arguments-Unifies :
    (left right : List Term)
    → All IsPattern left
    → All IsPattern right
    → (answer : Bool × Nodes) × (unify_arguments left right ≡ some answer)
      × Unifies left right answer
unfolding unify_arguments
unify_arguments-Unifies left right ls rs =
    let (pairs, graph, e, (b, _), h) =
      build_pairs-ArePairsOf default_nodes left right default-IsBuilt ls rs in
    let (answer, on, verdict) =
      unify_nodes-Verdict (graph.cell) (suc (suc (graph_size (graph.cell)))) graph unmerged flat
        pairs refl (IsBuilt-IsGraph graph b) (ArePairsOf-AreInside graph left right pairs h)
        (omega arith) in
    (answer, ap unified e ∙ on, Verdict-Unifies graph left right pairs answer b h verdict)

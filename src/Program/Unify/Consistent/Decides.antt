-- ===== src/Program/Unify/Consistent/Decides.antt =====
-- The unifier's answer on a graph: it comes, and it says whether the equations have a solution.
use themelios.Prelude.{
  ℕ, suc, ◌≤◌, ◌<◌, ◌≡◌, refl, ap, ◌∙◌, Bool, true, false, Bool-cases, ◌==◌, List, [], ◌∷◌, some,
  ◌↔◌, inl, inr, length, arith,
}
use themelios.Program.Symbol.{Symbol, infimum}
use themelios.Program.Unify.Nodes.{Cell, Nodes}
use themelios.Program.Unify.Solve.{unify}
use themelios.Program.Unify.Solve.State.{IsGraph, weight}
use themelios.Program.Unify.Solve.Solutions.{IsModel, AreEqual}
use themelios.Program.Unify.Solve.Merging.{arity, AreInside}
use themelios.Program.Unify.Solve.Loop.{Answers, unify_loop-Answers}
use themelios.Program.Unify.Occurs.{occurs_check_holds}
use themelios.Program.Unify.Occurs.Decides.{graph_size, Decided, occurs_check_holds-Decided}
use themelios.Program.Unify.Consistent.{unify_pairs, then_check, unify_nodes}
use themelios.Program.Unify.Consistent.Models.{IsModel-Decreases, Decreases-IsModel}

weight-graph_size :
    (rep : ℕ → ℕ) (i : ℕ) (cells : List Cell) → weight arity rep i cells ≤ graph_size cells
weight-graph_size rep i [] = omega arith
weight-graph_size rep i (c ∷ cells) = elim (Bool-cases (rep i == i)) [
  | inl e ↦ rw e (omega (arith, weight-graph_size rep (suc i) cells))
  | inr e ↦ rw e (omega (arith, weight-graph_size rep (suc i) cells))
]

module _ (cells : List Cell) where
  first_then :
      (rep rep' : ℕ → ℕ) (a b : ℕ) (pairs : List (ℕ × ℕ)) (answer : Bool × Nodes)
      → ((v : ℕ → Symbol) → (IsModel cells rep v × AreEqual v ((a, b) ∷ [])) ↔ IsModel cells rep' v)
      → Answers cells rep' pairs answer
      → Answers cells rep ((a, b) ∷ pairs) answer
  first_then rep rep' a b pairs (false, _) models h =
      λ v m equal. h v ((models v).0 (m, (equal.0, tt))) (equal.1)
  first_then rep rep' a b pairs (true, nodes) models (rep'', height'', g, same, models') = (
    rep'',
    height'',
    g,
    same,
    λ v. (
      (λ p. (models' v).0 ((models v).0 (p.0, (p.1.0, tt)), p.1.1)),
      (λ m.
          let (m', rest) = (models' v).1 m in
          let (m'', first) = (models v).1 m' in (m'', (first.0, rest))),
    ),
  )

  unify-Answers :
      (fuel : ℕ) (nodes : Nodes) (rep height : ℕ → ℕ) (a b : ℕ)
      → nodes.cell ≡ cells
      → IsGraph cells (nodes.parent) (nodes.rank) rep height
      → a < length cells
      → b < length cells
      → suc (graph_size cells) < fuel
      → (answer : Bool × Nodes) × (unify fuel nodes a b ≡ some answer)
        × Answers cells rep ((a, b) ∷ []) answer
  unfolding unify
  unify-Answers fuel nodes rep height a b here g a_in b_in enough =
      unify_loop-Answers cells fuel nodes rep height ((a, b) ∷ []) here g (a_in, b_in, tt)
        (omega (arith, weight-graph_size rep 0 cells, enough))

  unify_pairs-Answers :
      (fuel : ℕ) (pairs : List (ℕ × ℕ)) (nodes : Nodes) (rep height : ℕ → ℕ)
      → nodes.cell ≡ cells
      → IsGraph cells (nodes.parent) (nodes.rank) rep height
      → AreInside (length cells) pairs
      → suc (graph_size cells) < fuel
      → (answer : Bool × Nodes) × (unify_pairs fuel nodes pairs ≡ some answer)
        × Answers cells rep pairs answer
  unfolding unify_pairs
  unify_pairs-Answers fuel [] nodes rep height here g inside enough =
      ((true, nodes), refl, (rep, height, g, here, λ v. ((λ p. p.0), (λ m. (m, tt)))))
  unify_pairs-Answers fuel ((a, b) ∷ pairs) nodes rep height here g inside enough =
      turn
        (λ nodes' rep' height' here' g'.
          unify_pairs-Answers fuel pairs nodes' rep' height' here' g' (inside.2) enough)
        (unify-Answers fuel nodes rep height a b here g (inside.0) (inside.1) enough)
    where
      turn :
          ((nodes' : Nodes) (rep' height' : ℕ → ℕ)
            → nodes'.cell ≡ cells
            → IsGraph cells (nodes'.parent) (nodes'.rank) rep' height'
            → (answer : Bool × Nodes) × (unify_pairs fuel nodes' pairs ≡ some answer)
              × Answers cells rep' pairs answer)
          → ((answer : Bool × Nodes) × (unify fuel nodes a b ≡ some answer)
              × Answers cells rep ((a, b) ∷ []) answer)
          → (answer : Bool × Nodes) × (unify_pairs fuel nodes ((a, b) ∷ pairs) ≡ some answer)
            × Answers cells rep ((a, b) ∷ pairs) answer
      turn goes ((false, nodes'), e, h) =
          ((false, nodes'), rw (e, unify_pairs) refl, λ v m equal. h v m (equal.0, tt))
      turn goes ((true, nodes'), e, (rep', height', g', same, models)) =
          let (answer, on, h) = goes nodes' rep' height' same g' in
          (answer, rw (e, unify_pairs) on, first_then rep rep' a b pairs answer models h)

  -- The answer, against the equations: no values solve them, or some do, and those that do are the models
  -- of the graph.
  abbrev pub Verdict : (ℕ → ℕ) → List (ℕ × ℕ) → Bool × Nodes → Type 0
  Verdict rep pairs (false, nodes) = (v : ℕ → Symbol) → IsModel cells rep v → AreEqual v pairs → ⊥
  Verdict rep pairs (true, nodes) =
      Answers cells rep pairs (true, nodes)
      × ((v : ℕ → Symbol) × IsModel cells rep v × AreEqual v pairs)

  checked :
      (fuel : ℕ) (rep : ℕ → ℕ) (pairs : List (ℕ × ℕ))
      → suc (graph_size cells) < fuel
      → (answer : Bool × Nodes) → Answers cells rep pairs answer
      → (answer' : Bool × Nodes) × (then_check fuel (some answer) ≡ some answer')
        × Verdict rep pairs answer'
  unfolding occurs_check_holds
  checked fuel rep pairs enough (false, nodes) h = ((false, nodes), refl, h)
  checked fuel rep pairs enough (true, nodes) (rep', height', g, same, models) =
      turn (occurs_check_holds-Decided cells rep' height' fuel nodes same g enough)
    where
      turn :
          ((answer : Bool × Nodes) × (occurs_check_holds fuel nodes ≡ some answer)
            × Decided cells rep' height' answer)
          → (answer' : Bool × Nodes) × (occurs_check_holds fuel nodes ≡ some answer')
            × Verdict rep pairs answer'
      turn ((false, nodes'), e, cyclic) = (
        (false, nodes'),
        e,
        λ v m equal. cyclic _ (
            IsModel-Decreases cells (nodes.parent) (nodes.rank) rep' height' g v
              ((models v).0 (m, equal))),
      )
      turn ((true, nodes'), e, ((here, g'), (s, d))) =
          let (v, m, _) =
            Decreases-IsModel cells (nodes.parent) (nodes.rank) rep' height' g s d (λ x. infimum) in
          let (m', equal) = (models v).1 m in
          ((true, nodes'), e, ((rep', height', g', here, models), (v, m', equal)))

  -- Unifying the pairs of a graph of classes and then checking it for cycles ends, within a fuel over the
  -- count of the nodes and of their children. When the answer is true, some ground values of the nodes, one
  -- for a class and the one that each cell demands, make the nodes of every pair equal, and the values
  -- that do are those that the classes left at the end allow. When it is false, no values do.
  pub unify_nodes-Verdict :
      (fuel : ℕ) (nodes : Nodes) (rep height : ℕ → ℕ) (pairs : List (ℕ × ℕ))
      → nodes.cell ≡ cells
      → IsGraph cells (nodes.parent) (nodes.rank) rep height
      → AreInside (length cells) pairs
      → suc (graph_size cells) < fuel
      → (answer : Bool × Nodes) × (unify_nodes fuel nodes pairs ≡ some answer)
        × Verdict rep pairs answer
  unfolding unify_nodes
  unify_nodes-Verdict fuel nodes rep height pairs here g inside enough =
      let (answer, e, h) = unify_pairs-Answers fuel pairs nodes rep height here g inside enough in
      let (answer', e', verdict) = checked fuel rep pairs enough answer h in
      (answer', ap (then_check fuel) e ∙ e', verdict)

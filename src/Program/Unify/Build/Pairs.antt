-- ===== src/Program/Unify/Build/Pairs.antt =====
-- The pairs of nodes that two argument lists are built into.
use themelios.Prelude.{ℕ, ◌≡◌, refl, List, [], ◌∷◌, some, length, All, arith}
use themelios.Program.Term.{Term}
use themelios.Program.Unify.Nodes.{Nodes}
use themelios.Program.Unify.Solve.Merging.{AreInside}
use themelios.Program.Unify.Build.{build_pairs, default_nodes}
use themelios.Program.Unify.Build.Graph.{IsBuilt, IsGrown, Extends-trans}
use themelios.Program.Unify.Build.Shape.{IsTermAt, IsTermAt-stays, IsTermAt-inside}
use themelios.Program.Unify.Build.Terms.{IsPattern, build-IsTermAt}

-- The pairs stand for the arguments, place by place.
abbrev pub ArePairsOf : Nodes → List Term → List Term → List (ℕ × ℕ) → Type 0
ArePairsOf graph (l ∷ left) (r ∷ right) ((x, y) ∷ pairs) =
    IsTermAt graph x l × IsTermAt graph y r × ArePairsOf graph left right pairs
ArePairsOf graph [] right [] = Unit
ArePairsOf graph (l ∷ left) [] [] = Unit
ArePairsOf graph _ _ _ = ⊥

pub build_pairs-ArePairsOf :
    (graph : Nodes) (left right : List Term)
    → IsBuilt graph
    → All IsPattern left
    → All IsPattern right
    → (pairs : List (ℕ × ℕ)) × (graph' : Nodes) × (build_pairs graph left right
        ≡ some (pairs, graph'))
      × IsGrown graph graph'
      × ArePairsOf graph' left right pairs
unfolding build_pairs
build_pairs-ArePairsOf graph [] right b ls rs =
    ([], graph, refl, (b, ((λ i c k. k), (λ n i k. k))), tt)
build_pairs-ArePairsOf graph (l ∷ left) [] b ls rs =
    ([], graph, refl, (b, ((λ i c k. k), (λ n i k. k))), tt)
build_pairs-ArePairsOf graph (l ∷ left) (r ∷ right) b ls rs =
    let (x, graph', one, (b', s), at_l) = build-IsTermAt graph l b (ls.0) in
    let (y, graph'', two, (b'', s'), at_r) = build-IsTermAt graph' r b' (rs.0) in
    let (pairs, last, rest, (b_last, s''), h) =
      build_pairs-ArePairsOf graph'' left right b'' (ls.1) (rs.1) in
    (
      (x, y) ∷ pairs,
      last,
      rw (one, two, rest, build_pairs) refl,
      (b_last, Extends-trans graph graph' last s (Extends-trans graph' graph'' last s' s'')),
      (
        IsTermAt-stays graph' last (Extends-trans graph' graph'' last s' s'') x l at_l,
        IsTermAt-stays graph'' last s'' y r at_r,
        h,
      ),
    )

pub ArePairsOf-AreInside :
    (graph : Nodes) (left right : List Term) (pairs : List (ℕ × ℕ))
    → ArePairsOf graph left right pairs
    → AreInside (length graph.cell) pairs
ArePairsOf-AreInside graph left right [] h = tt
ArePairsOf-AreInside graph [] right (p ∷ pairs) h = absurd h
ArePairsOf-AreInside graph (l ∷ left) [] (p ∷ pairs) h = absurd h
ArePairsOf-AreInside graph (l ∷ left) (r ∷ right) ((x, y) ∷ pairs) h = (
  IsTermAt-inside graph x l (h.0),
  IsTermAt-inside graph y r (h.1),
  ArePairsOf-AreInside graph left right pairs (h.2),
)

pub default-IsBuilt : IsBuilt default_nodes
default-IsBuilt = record {
  sized = refl;
  ranked = refl;
  apart = λ id h. absurd (omega (arith, h));
  closed = λ id c e. absurd (ground (arith, e));
  plain = λ id c e. absurd (ground (arith, e));
  names = λ n id e. absurd (ground (arith, e));
}

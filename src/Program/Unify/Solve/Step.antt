-- ===== src/Program/Unify/Solve/Step.antt =====
-- One turn of the loop, the pair found.
use themelios.Prelude.{
  ℕ, suc, ◌<◌, ◌≡◌, ◌≢◌, refl, sym, ap, subst, ◌∙◌, Bool-cases, ◌==◌, List, Option, none, some, inl,
  inr, length, get_elem?, arith,
}
use themelios.Prelude.Order.{list_ord, nat_ord}
use themelios.Program.Symbol.Total.{symbol_ord}
use themelios.Program.Unify.Nodes.{Cell, Nodes, with_parents, find_node}
use themelios.Program.Unify.Nodes.Classes.{find_node-Found}
use themelios.Program.Unify.Nodes.Merge.{get_elem?-inside}
use themelios.Program.Unify.Solve.{
  Outcome, clash, merged, meet, met, find_second, find_pair, turned,
}
use themelios.Program.Unify.Solve.State.{IsGraph, found-IsGraph}
use themelios.Program.Unify.Solve.Merging.{Advances}
use themelios.Program.Unify.Solve.Meet.{meet-Advances}

-- The nodes of a pair have the values of their representatives.
rep-Advances :
    (cells : List Cell) (rep : ℕ → ℕ) (first second : ℕ) (o : Option Outcome)
    → first < length cells
    → second < length cells
    → Advances cells rep (rep first) (rep second) o
    → Advances cells rep first second o
rep-Advances cells rep first second none f_in s_in h = h
rep-Advances cells rep first second (some (clash nodes)) f_in s_in h =
    λ v m e. h v m (m.same first f_in ∙ e ∙ sym (m.same second s_in))
rep-Advances cells rep first second (some (merged nodes pairs)) f_in s_in h =
    let (rep', height', g, same, inside, shorter, solutions) = h in
    (
      rep',
      height',
      g,
      same,
      inside,
      shorter,
      λ v. (
        (λ p. (solutions v).0 (p.0, p.0.same first f_in ∙ p.1 ∙ sym (p.0.same second s_in))),
        (λ p.
            let (m, e) = (solutions v).1 p in
            (m, sym (m.same first f_in) ∙ e ∙ m.same second s_in)),
      ),
    )

module _ (nodes : Nodes) (cells : List Cell) (rep height : ℕ → ℕ) (here : nodes.cell ≡ cells)
    (g : IsGraph cells (nodes.parent) (nodes.rank) rep height) (first second : ℕ)
    (first_in : first < length cells) (second_in : second < length cells) where
  met-Advances :
      rep first ≢ rep second
      → Advances cells rep (rep first) (rep second) (
          met nodes
            (rep first)
            (rep second)
            (get_elem? nodes.cell (rep first))
            (get_elem? nodes.cell (rep second)))
  unfolding meet
  met-Advances apart =
      let (a, at_first) = get_elem?-inside cells (rep first) (g.inside first first_in) in
      let (b, at_second) = get_elem?-inside cells (rep second) (g.inside second second_in) in
      let cell_first : get_elem? nodes.cell (rep first) ≡ some a =
        ap (λ z. get_elem? z (rep first)) here ∙ at_first in
      let cell_second : get_elem? nodes.cell (rep second) ≡ some b =
        ap (λ z. get_elem? z (rep second)) here ∙ at_second in
      rw (cell_first, cell_second)
        (meet-Advances nodes cells rep height here g (rep first) (rep second)
          (g.fixed first first_in) (g.fixed second second_in) apart (g.inside first first_in)
          (g.inside second second_in) a b at_first at_second)

  found-Advances : Advances cells rep first second (turned (some (rep first, (rep second, nodes))))
  unfolding meet
  found-Advances = elim (Bool-cases (rep first == rep second)) [
    | inl e ↦
        let same : rep first ≡ rep second = ground (arith, e) in
        rw e (
          rep,
          height,
          g,
          here,
          tt,
          omega arith,
          λ v. (
            (λ h. (h.0, tt)),
            (λ h. (h.0, sym (h.0.same first first_in) ∙ ap v same ∙ h.0.same second second_in)),
          ),
        )
    | inr e ↦ rw e (
        rep-Advances cells rep first second _ first_in second_in
          (met-Advances (λ same. ground (arith, e, same))))
  ]

pair_found :
    (nodes : Nodes) (first second left right : ℕ) (nodes' nodes'' : Nodes)
    → find_node (suc (length nodes.parent)) nodes first ≡ some (left, nodes')
    → find_node (suc (length nodes'.parent)) nodes' second ≡ some (right, nodes'')
    → find_pair nodes first second ≡ some (left, (right, nodes''))
unfolding find_pair
pair_found nodes first second left right nodes' nodes'' one two =
    let last : find_second second (some (left, nodes')) ≡ some (left, (right, nodes'')) =
      rw (two, find_second) refl in
    ap (find_second second) one ∙ last

module _ (nodes : Nodes) (cells : List Cell) (rep height : ℕ → ℕ) (here : nodes.cell ≡ cells)
    (g : IsGraph cells (nodes.parent) (nodes.rank) rep height) where
  pub turned-Advances :
      (first second : ℕ)
      → first < length cells
      → second < length cells
      → Advances cells rep first second (turned (find_pair nodes first second))
  unfolding meet
  turned-Advances first second first_in second_in =
      let (after, one, classes, len) =
        find_node-Found rep height nodes (suc (length nodes.parent)) first g.classes
          (omega (arith, first_in, g.sized)) (omega (arith, g.low first first_in, g.sized)) in
      let h = found-IsGraph cells (nodes.parent) after (nodes.rank) rep height g classes len in
      let (last, two, classes', len') =
        find_node-Found rep height (with_parents nodes after) (suc (length after)) second classes
          (omega (arith, second_in, h.sized)) (omega (arith, h.low second second_in, h.sized)) in
      subst (λ z. Advances cells rep first second (turned z))
        (sym (
          pair_found nodes first second (rep first) (rep second) (with_parents nodes after)
            (with_parents nodes last) one two))
        (found-Advances (with_parents nodes last) cells rep height here
          (found-IsGraph cells after last (nodes.rank) rep height h classes' len') first second
          first_in second_in)

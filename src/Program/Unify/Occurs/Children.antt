-- ===== src/Program/Unify/Occurs/Children.antt =====
-- What the check does with the children of a node.
use themelios.Prelude.{
  ℕ, suc, ◌+◌, ◌≤◌, ◌<◌, ◌≡◌, refl, sym, ap, ◌∙◌, Bool, true, false, List, [], ◌∷◌, Option, some,
  ◌⊎◌, inl, inr, length, get_elem?, Mem, arith,
}
use themelios.Program.Unify.Nodes.{Cell, Nodes, find_node, with_parents}
use themelios.Program.Unify.Nodes.Classes.{find_node-Found}
use themelios.Program.Unify.Nodes.Merge.{get_elem?-inside}
use themelios.Program.Unify.Solve.State.{IsGraph, found-IsGraph}
use themelios.Program.Unify.Occurs.{Colour, white, grey, black, Descent, see_children}
use themelios.Program.Unify.Occurs.Stack.{entering}

pub Colour-cases :
    (o : Option Colour) (c : Colour)
    → o ≡ some c
    → (o ≡ some white) ⊎ ((o ≡ some grey) ⊎ (o ≡ some black))
Colour-cases o white e = inl e
Colour-cases o grey e = inr (inl e)
Colour-cases o black e = inr (inr e)

module _ (cells : List Cell) (rep height : ℕ → ℕ) where
  -- The nodes are those of the graph.
  abbrev pub IsHeld : Nodes → Type 0
  IsHeld nodes = (nodes.cell ≡ cells) × IsGraph cells (nodes.parent) (nodes.rank) rep height

  pub find_node-IsHeld :
      (nodes : Nodes) (id : ℕ)
      → IsHeld nodes
      → id < length cells
      → (nodes' : Nodes) × (find_node (suc (length nodes.parent)) nodes id ≡ some (rep id, nodes'))
        × IsHeld nodes'
  find_node-IsHeld nodes id held inside =
      let g = held.1 in
      let (after, one, classes, len) =
        find_node-Found rep height nodes (suc (length nodes.parent)) id g.classes
          (omega (arith, inside, g.sized)) (omega (arith, g.low id inside, g.sized)) in
      (
        with_parents nodes after,
        one,
        (held.0, found-IsGraph cells (nodes.parent) after (nodes.rank) rep height g classes len),
      )

  module _ (colours : List Colour) (sized : length colours ≡ length cells)
      (base : List Descent) where
    pub colour_of :
        (x : ℕ)
        → x < length cells
        → (get_elem? colours x ≡ some white)
          ⊎ ((get_elem? colours x ≡ some grey) ⊎ (get_elem? colours x ≡ some black))
    colour_of x inside =
        let (c, at) = get_elem?-inside colours x (omega (arith, sized, inside)) in
        Colour-cases (get_elem? colours x) c at

    abbrev pub Seen : List ℕ → List ℕ → Bool × (Nodes × List Descent) → Type 0
    Seen xs ks (false, (nodes, stack)) =
        (k : ℕ) × Mem k ks × (get_elem? colours (rep k) ≡ some grey)
    Seen xs ks (true, (nodes, stack)) =
        IsHeld nodes
        × ((xs' : List ℕ) × (stack ≡ entering xs' base)
            × ((x : ℕ)
                → Mem x xs'
                → Mem x xs
                  ⊎ ((get_elem? colours x ≡ some white) × ((k : ℕ) × Mem k ks × (rep k ≡ x))))
            × ((x : ℕ) → Mem x xs → Mem x xs')
            × ((k : ℕ) → Mem k ks → (get_elem? colours (rep k) ≡ some black) ⊎ Mem (rep k) xs')
            × (length xs' ≤ length ks + length xs))

    -- A child that is black is done with; one that is white is on the list of those to enter.
    skipped :
        (xs ks : List ℕ) (child : ℕ) (answer : Bool × (Nodes × List Descent))
        → get_elem? colours (rep child) ≡ some black
        → Seen xs ks answer
        → Seen xs (child ∷ ks) answer
    skipped xs ks child (false, (nodes, stack)) at (k, member, e) = (k, inr member, e)
    skipped xs ks child (true, (nodes, stack)) at (held, (xs', e, from, kept, covered, short)) = (
      held,
      (
        xs',
        e,
        (λ x i. elim (from x i) [ inl m ↦ inl m | inr (w, (k, m, r)) ↦ inr (w, (k, inr m, r)) ]),
        kept,
        (λ k i. elim i [
          | inl same ↦ inl (ap (λ z. get_elem? colours (rep z)) same ∙ at)
          | inr m ↦ covered k m
        ]),
        omega (arith, short),
      ),
    )

    added :
        (xs ks : List ℕ) (child : ℕ) (answer : Bool × (Nodes × List Descent))
        → get_elem? colours (rep child) ≡ some white
        → Seen (rep child ∷ xs) ks answer
        → Seen xs (child ∷ ks) answer
    added xs ks child (false, (nodes, stack)) at (k, member, e) = (k, inr member, e)
    added xs ks child (true, (nodes, stack)) at (held, (xs', e, from, kept, covered, short)) = (
      held,
      (
        xs',
        e,
        (λ x i. elim (from x i) [
          | inl (inl same) ↦ inr (ap (get_elem? colours) same ∙ at, (child, inl refl, sym same))
          | inl (inr m) ↦ inl m
          | inr (w, (k, m, r)) ↦ inr (w, (k, inr m, r))
        ]),
        (λ x i. kept x (inr i)),
        (λ k i. elim i [ inl same ↦ inr (kept (rep k) (inl (ap rep same))) | inr m ↦ covered k m ]),
        omega (arith, short),
      ),
    )

    pub see_children-Seen :
        (ks : List ℕ) (nodes : Nodes) (xs : List ℕ)
        → IsHeld nodes
        → ((k : ℕ) → Mem k ks → k < length cells)
        → (answer : Bool × (Nodes × List Descent)) × (see_children colours nodes
              (entering xs base)
              ks
            ≡ some answer)
          × Seen xs ks answer
    unfolding see_children
    see_children-Seen [] nodes xs held inside = (
      (true, (nodes, entering xs base)),
      refl,
      (held, (xs, refl, (λ x i. inl i), (λ x i. i), (λ k i. absurd i), omega arith)),
    )
    see_children-Seen (child ∷ ks) nodes xs held inside =
        let (nodes', one, held') = find_node-IsHeld nodes child held (inside child (inl refl)) in
        let rep_in : rep child < length cells = held.1.inside child (inside child (inl refl)) in
        let (one_answer, e, s) = see_children-Seen ks nodes' xs held' (λ k i. inside k (inr i)) in
        let (more_answer, e', s') =
          see_children-Seen ks nodes' (rep child ∷ xs) held' (λ k i. inside k (inr i)) in
        elim (colour_of (rep child) rep_in) [
          | inl at ↦
              (more_answer, rw (one, at, see_children) e', added xs ks child more_answer at s')
          | inr (inl at) ↦ (
            (false, (nodes', entering xs base)),
            rw (one, at, see_children) refl,
            (child, inl refl, at),
          )
          | inr (inr at) ↦
              (one_answer, rw (one, at, see_children) e, skipped xs ks child one_answer at s)
        ]

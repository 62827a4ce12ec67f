-- ===== src/Program/Unify/Occurs/Decides.antt =====
-- The occurs check ends, and decides whether the graph has a cycle.
use themelios.Prelude.{
  ℕ, zero, suc, ◌+◌, ◌≤◌, ◌<◌, ◌≡◌, refl, sym, subst, Bool, true, false, Bool-cases, ◌==◌, List, [],
  ◌∷◌, some, inl, inr, length, length-replicate, replicate, get_elem?, arith,
}
use themelios.Program.Unify.Nodes.{Cell, Nodes, find_node}
use themelios.Program.Unify.Nodes.Merge.{get_elem?-inside}
use themelios.Program.Unify.Solve.State.{IsGraph, children}
use themelios.Program.Unify.Occurs.{
  Colour, white, grey, black, enter, descend, descend_from, check_from, occurs_check_holds,
}
use themelios.Program.Unify.Occurs.Children.{IsHeld, find_node-IsHeld, Colour-cases}
use themelios.Program.Unify.Occurs.Visit.{IsBlack, pale, Decreases, IsVisit}
use themelios.Program.Unify.Occurs.Step.{IsCyclic}
use themelios.Program.Unify.Occurs.Descends.{Descended, descend-Descended}

pub inside-get_elem? :
    {A : Type 0} (xs : List A) (i : ℕ) (x : A) → get_elem? xs i ≡ some x → i < length xs
inside-get_elem? [] i x e = absurd (ground (arith, e))
inside-get_elem? (y ∷ xs) zero x e = omega arith
inside-get_elem? (y ∷ xs) (suc i) x e = omega (arith, inside-get_elem? xs i x e)

module _ (cells : List Cell) (rep height : ℕ → ℕ) where
  -- What a descent from a node leaves: its class is black.
  abbrev Covered : List Colour → ℕ → Bool × (List Colour × Nodes) → Type 0
  Covered colours start (false, _) = IsCyclic cells rep height
  Covered colours start (true, (colours', nodes')) =
      IsHeld cells rep height nodes'
      × IsVisit cells rep colours' []
      × (pale colours' cells ≤ pale colours cells)
      × ((x : ℕ) → IsBlack colours x → IsBlack colours' x)
      × (rep start ≡ start → IsBlack colours' start)

  module _ (fuel : ℕ) (colours : List Colour) (nodes : Nodes) (start : ℕ)
      (held : IsHeld cells rep height nodes) (v : IsVisit cells rep colours [])
      (inside : start < length cells) where
    started : rep start ≡ start → IsVisit cells rep colours (enter start ∷ [])
    started is_rep = record {
      sized = v.sized;
      entries = λ x h. elim h [
        | inl same ↦ subst (λ z. (z < length cells) × (rep z ≡ z)) (sym same) (inside, is_rep)
        | inr o ↦ absurd o
      ];
      greys = v.greys;
      opens = v.opens;
      once = ((λ m o. absurd o), tt);
      ordered = λ s d. ((λ m o. absurd o), tt);
      settled = (tt, tt);
      times = v.times;
    }

    Descended-Covered :
        (answer : Bool × (List Colour × Nodes))
        → Descended cells rep height colours (enter start ∷ []) answer
        → Covered colours start answer
    Descended-Covered (false, _) h = h
    Descended-Covered (true, (colours', nodes')) (held', v', less, blacks) =
        (held', v', less, (λ x b. blacks x (inl b)), λ is_rep. blacks start (inr (inl refl)))

    descend_from-Covered :
        suc (pale colours cells) < fuel
        → (answer : Bool × (List Colour × Nodes)) × (descend_from fuel colours nodes start
              (rep start)
            ≡ some answer)
          × Covered colours start answer
    unfolding descend
    descend_from-Covered enough = elim (Bool-cases (rep start == start)) [
      | inr e ↦ (
        (true, (colours, nodes)),
        rw e refl,
        (held, v, omega arith, (λ x b. b), λ is_rep. absurd (ground (arith, e, is_rep))),
      )
      | inl e ↦
          let is_rep : rep start ≡ start = ground (arith, e) in
          let (c, at) = get_elem?-inside colours start (omega (arith, inside, v.sized)) in
          elim (Colour-cases (get_elem? colours start) c at) [
            | inl was ↦
                let (answer, on, h) =
                  descend-Descended cells rep height fuel colours nodes (enter start ∷ []) held
                    (started is_rep) (omega (arith, enough)) in
                (answer, rw (e, was) on, Descended-Covered answer h)
            | inr (inl was) ↦ absurd (v.greys start was)
            | inr (inr was) ↦ (
              (true, (colours, nodes)),
              rw (e, was) refl,
              (held, v, omega arith, (λ x b. b), λ same. was),
            )
          ]
    ]

  -- The answer of the check: a number falls from every class to those of its children, or none does.
  abbrev pub Decided : Bool × Nodes → Type 0
  Decided (false, _) = IsCyclic cells rep height
  Decided (true, nodes') = IsHeld cells rep height nodes' × ((s : ℕ → ℕ) × Decreases cells rep s)

  acyclic :
      (colours : List Colour) (start : ℕ)
      → IsVisit cells rep colours []
      → start ≡ length cells
      → ((x : ℕ) → x < start → rep x ≡ x → IsBlack colours x)
      → (s : ℕ → ℕ) × Decreases cells rep s
  acyclic colours start v all_seen blacks =
      let (s, t, h) = v.times in
      (
        s,
        λ n is_rep r below.
            let inside = inside-get_elem? cells n (below.0) (below.1) in
            ((h n (blacks n (omega (arith, inside, all_seen)) is_rep)).1 r below).1,
      )

  check_from-Decided :
      (fuel count start : ℕ) (colours : List Colour) (nodes : Nodes)
      → IsHeld cells rep height nodes
      → IsVisit cells rep colours []
      → start + count ≡ length cells
      → ((x : ℕ) → x < start → rep x ≡ x → IsBlack colours x)
      → suc (pale colours cells) < fuel
      → (answer : Bool × Nodes) × (check_from fuel count start colours nodes ≡ some answer)
        × Decided answer
  unfolding check_from
  check_from-Decided fuel zero start colours nodes held v all blacks enough =
      ((true, nodes), refl, (held, acyclic colours start v (omega (arith, all)) blacks))
  check_from-Decided fuel (suc count) start colours nodes held v all blacks enough =
      let inside : start < length cells = omega (arith, all) in
      let (nodes', one, held') = find_node-IsHeld cells rep height nodes start held inside in
      turn nodes' one
        (λ colours' nodes''. check_from-Decided fuel count (suc start) colours' nodes'')
        (descend_from-Covered fuel colours nodes' start held' v inside enough)
    where
      turn :
          (nodes' : Nodes)
          → find_node (suc (length nodes.parent)) nodes start ≡ some (rep start, nodes')
          → ((colours' : List Colour) (nodes'' : Nodes)
              → IsHeld cells rep height nodes''
              → IsVisit cells rep colours' []
              → suc start + count ≡ length cells
              → ((x : ℕ) → x < suc start → rep x ≡ x → IsBlack colours' x)
              → suc (pale colours' cells) < fuel
              → (answer : Bool × Nodes) × (check_from fuel count (suc start) colours' nodes''
                  ≡ some answer)
                × Decided answer)
          → ((answer : Bool × (List Colour × Nodes)) × (descend_from fuel colours nodes' start
                  (rep start)
                ≡ some answer)
              × Covered colours start answer)
          → (answer : Bool × Nodes) × (check_from fuel (suc count) start colours nodes
              ≡ some answer)
            × Decided answer
      turn nodes' one goes ((false, (colours', nodes'')), e, cyclic) =
          ((false, nodes''), rw (one, e, check_from) refl, cyclic)
      turn nodes' one goes ((true, (colours', nodes'')), e, (held'', v', less, kept, done)) =
          let seen : (x : ℕ) → x < suc start → rep x ≡ x → IsBlack colours' x = λ x below is_rep.
            elim (Bool-cases (x == start)) [
              | inl same ↦
                  subst (λ z. rep z ≡ z → IsBlack colours' z) (sym (ground (arith, same))) done
                    is_rep
              | inr other ↦ kept x (blacks x (ground (arith, below, other)) is_rep)
            ] in
          let (answer, on, h) =
            goes colours' nodes'' held'' v' (omega (arith, all)) seen
              (omega (arith, less, enough)) in
          (answer, rw (one, e, check_from) on, h)

  replicate_white : (n x : ℕ) (c : Colour) → get_elem? (replicate n white) x ≡ some c → c ≡ white
  replicate_white zero x c e = absurd (ground (arith, e))
  replicate_white (suc n) zero c e = ground (arith, e)
  replicate_white (suc n) (suc x) c e = replicate_white n x c e

  begun : IsVisit cells rep (replicate (length cells) white) []
  begun = record {
    sized = length-replicate (length cells) white;
    entries = λ x o. absurd o;
    greys = λ x h. absurd (ground (arith, replicate_white (length cells) x grey h));
    opens = λ x o. absurd o;
    once = tt;
    ordered = λ s d. tt;
    settled = tt;
    times = ((λ x. 0), 0, λ x h. absurd (ground (arith, replicate_white (length cells) x black h)));
  }

-- The nodes of a graph, and their children.
abbrev pub graph_size : List Cell → ℕ
graph_size [] = 0
graph_size (c ∷ cells) = suc (length (children c)) + graph_size cells

pale-replicate :
    (cells : List Cell) → pale (replicate (length cells) white) cells ≡ graph_size cells
pale-replicate [] = refl
pale-replicate (c ∷ cells) = omega (arith, pale-replicate cells)

-- On a graph of classes, the occurs check ends within a fuel over the count of the nodes and of their
-- children. It answers true when some number falls from every class to the classes of its children, so that
-- no class reaches itself, and false when there is no such number.
pub occurs_check_holds-Decided :
    (cells : List Cell) (rep height : ℕ → ℕ) (fuel : ℕ) (nodes : Nodes)
    → nodes.cell ≡ cells
    → IsGraph cells (nodes.parent) (nodes.rank) rep height
    → suc (graph_size cells) < fuel
    → (answer : Bool × Nodes) × (occurs_check_holds fuel nodes ≡ some answer)
      × Decided cells rep height answer
unfolding occurs_check_holds
occurs_check_holds-Decided cells rep height fuel nodes here g enough =
    let (answer, e, h) =
      check_from-Decided cells rep height fuel (length cells) 0 (replicate (length cells) white)
        nodes (here, g) (begun cells rep height) (omega arith)
        (λ x below. absurd (omega (arith, below))) (omega (arith, pale-replicate cells, enough)) in
    (
      answer,
      subst (λ z. check_from fuel (length z) 0 (replicate (length z) white) nodes ≡ some answer)
          (sym here) e,
      h,
    )

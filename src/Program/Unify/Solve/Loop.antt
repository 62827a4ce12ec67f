-- ===== src/Program/Unify/Solve/Loop.antt =====
-- The unifier's loop: it ends, and the solutions of its equations are those of the graph it leaves.
use themelios.Prelude.{
  ℕ, zero, suc, ◌+◌, ◌<◌, ◌≡◌, refl, sym, ap, subst, ◌∙◌, Bool, true, false, List, [], ◌∷◌, ◌++◌,
  reverse, reverse-cons, Option, none, some, ◌↔◌, length, length-append, arith,
}
use themelios.Program.Symbol.{Symbol}
use themelios.Program.Unify.Nodes.{Cell, Nodes}
use themelios.Program.Unify.Solve.{Outcome, clash, merged, find_pair, turned, unify_loop}
use themelios.Program.Unify.Solve.State.{IsGraph, weight}
use themelios.Program.Unify.Solve.Solutions.{IsModel, AreEqual}
use themelios.Program.Unify.Solve.Merging.{arity, AreInside, Advances}
use themelios.Program.Unify.Solve.Step.{turned-Advances}

module _ (v : ℕ → Symbol) where
  AreEqual-append : (ps qs : List (ℕ × ℕ)) → AreEqual v ps → AreEqual v qs → AreEqual v (ps ++ qs)
  AreEqual-append [] qs h g = g
  AreEqual-append ((a, b) ∷ ps) qs h g = (h.0, AreEqual-append ps qs (h.1) g)

  append-AreEqual : (ps qs : List (ℕ × ℕ)) → AreEqual v (ps ++ qs) → AreEqual v ps × AreEqual v qs
  append-AreEqual [] qs h = (tt, h)
  append-AreEqual ((a, b) ∷ ps) qs h = let (f, g) = append-AreEqual ps qs (h.1) in ((h.0, f), g)

  AreEqual-reverse : (ps : List (ℕ × ℕ)) → AreEqual v ps → AreEqual v (reverse ps)
  AreEqual-reverse [] h = h
  AreEqual-reverse ((a, b) ∷ ps) h =
      subst (AreEqual v) (sym (reverse-cons (a, b) ps))
        (AreEqual-append (reverse ps) ((a, b) ∷ []) (AreEqual-reverse ps (h.1)) (h.0, tt))

  reverse-AreEqual : (ps : List (ℕ × ℕ)) → AreEqual v (reverse ps) → AreEqual v ps
  reverse-AreEqual [] h = h
  reverse-AreEqual ((a, b) ∷ ps) h =
      let (f, g) =
        append-AreEqual (reverse ps) ((a, b) ∷ [])
          (subst (AreEqual v) (reverse-cons (a, b) ps) h) in
      (g.0, reverse-AreEqual ps f)

AreInside-append :
    (n : ℕ) (ps qs : List (ℕ × ℕ)) → AreInside n ps → AreInside n qs → AreInside n (ps ++ qs)
AreInside-append n [] qs h g = g
AreInside-append n ((a, b) ∷ ps) qs h g = (h.0, h.1, AreInside-append n ps qs (h.2) g)

AreInside-reverse : (n : ℕ) (ps : List (ℕ × ℕ)) → AreInside n ps → AreInside n (reverse ps)
AreInside-reverse n [] h = h
AreInside-reverse n ((a, b) ∷ ps) h =
    subst (AreInside n) (sym (reverse-cons (a, b) ps))
      (AreInside-append n (reverse ps) ((a, b) ∷ []) (AreInside-reverse n ps (h.2)) (h.0, h.1, tt))

length-reverse : (ps : List (ℕ × ℕ)) → length (reverse ps) ≡ length ps
length-reverse [] = refl
length-reverse (p ∷ ps) =
    ap length (reverse-cons p ps)
    ∙ length-append (reverse ps) (p ∷ [])
    ∙ omega (arith, length-reverse ps)

-- The answer, against the equations: no values solve them, or they are solved by the models of the graph.
abbrev pub Answers : List Cell → (ℕ → ℕ) → List (ℕ × ℕ) → Bool × Nodes → Type 0
Answers cells rep work (false, nodes) = (v : ℕ → Symbol) → IsModel cells rep v → AreEqual v work → ⊥
Answers cells rep work (true, nodes) =
    (rep' : ℕ → ℕ) × (height' : ℕ → ℕ) × IsGraph cells (nodes.parent) (nodes.rank) rep' height'
    × (nodes.cell ≡ cells)
    × ((v : ℕ → Symbol) → (IsModel cells rep v × AreEqual v work) ↔ IsModel cells rep' v)

module _ (cells : List Cell) where
  -- The answer for the equations that a turn leaves, as one for those before it.
  later :
      (rep rep' : ℕ → ℕ) (first second : ℕ) (pairs work : List (ℕ × ℕ)) (answer : Bool × Nodes)
      → ((v : ℕ → Symbol)
          → (IsModel cells rep v × (v first ≡ v second))
            ↔ (IsModel cells rep' v × AreEqual v pairs))
      → Answers cells rep' (reverse pairs ++ work) answer
      → Answers cells rep ((first, second) ∷ work) answer
  later rep rep' first second pairs work (false, nodes) solutions h = λ v m equal.
      let (m', es) = (solutions v).0 (m, equal.0) in
      h v m' (AreEqual-append v (reverse pairs) work (AreEqual-reverse v pairs es) (equal.1))
  later rep rep' first second pairs work (true, nodes) solutions h =
      let (rep'', height'', g, same, models) = h in
      (
        rep'',
        height'',
        g,
        same,
        λ v. (
          (λ p.
              let (m', es) = (solutions v).0 (p.0, p.1.0) in
              (models v).0
                (m', AreEqual-append v (reverse pairs) work (AreEqual-reverse v pairs es) (p.1.1))),
          (λ m.
              let (m', es) = (models v).1 m in
              let (backwards, rest) = append-AreEqual v (reverse pairs) work es in
              let (m'', e) = (solutions v).1 (m', reverse-AreEqual v pairs backwards) in
              (m'', (e, rest))),
        ),
      )

  -- On a graph of classes, the loop over pairs of nodes ends, within a fuel over the count of the pairs and
  -- of the children of the representatives. When it answers false, no values, one for a class and the one
  -- that each representative's cell demands, make the nodes of every pair equal. When it answers true, it
  -- leaves the cells as they were, in classes of which the values are those that do.
  pub unify_loop-Answers :
      (fuel : ℕ) (nodes : Nodes) (rep height : ℕ → ℕ) (work : List (ℕ × ℕ))
      → nodes.cell ≡ cells
      → IsGraph cells (nodes.parent) (nodes.rank) rep height
      → AreInside (length cells) work
      → length work + weight arity rep 0 cells < fuel
      → (answer : Bool × Nodes) × (unify_loop fuel nodes work ≡ some answer)
        × Answers cells rep work answer
  unfolding unify_loop
  unify_loop-Answers zero nodes rep height work here g inside enough =
      absurd (omega (arith, enough))
  unify_loop-Answers (suc fuel) nodes rep height [] here g inside enough =
      ((true, nodes), refl, (rep, height, g, here, λ v. ((λ p. p.0), (λ m. (m, tt)))))
  unify_loop-Answers (suc fuel) nodes rep height ((first, second) ∷ work) here g inside enough =
      turn (λ nodes' rep' height' work'. unify_loop-Answers fuel nodes' rep' height' work')
        (turned (find_pair nodes first second)) refl
        (turned-Advances nodes cells rep height here g first second (inside.0) (inside.1))
    where
      turn :
          ((nodes' : Nodes) (rep' height' : ℕ → ℕ) (work' : List (ℕ × ℕ))
            → nodes'.cell ≡ cells
            → IsGraph cells (nodes'.parent) (nodes'.rank) rep' height'
            → AreInside (length cells) work'
            → length work' + weight arity rep' 0 cells < fuel
            → (answer : Bool × Nodes) × (unify_loop fuel nodes' work' ≡ some answer)
              × Answers cells rep' work' answer)
          → (o : Option Outcome) → turned (find_pair nodes first second) ≡ o
          → Advances cells rep first second o
          → (answer : Bool × Nodes) × (unify_loop (suc fuel) nodes ((first, second) ∷ work)
              ≡ some answer)
            × Answers cells rep ((first, second) ∷ work) answer
      turn goes none e h = absurd h
      turn goes (some (clash nodes')) e h =
          ((false, nodes'), rw (e, unify_loop) refl, λ v m equal. h v m (equal.0))
      turn goes (some (merged nodes' pairs)) e h =
          let (rep', height', g', same, inside', shorter, solutions) = h in
          let size : length (reverse pairs ++ work) ≡ length pairs + length work =
            length-append (reverse pairs) work ∙ ap (λ n. n + length work) (length-reverse pairs) in
          let (answer, goes_on, answers) =
            goes nodes' rep' height' (reverse pairs ++ work) same g'
              (AreInside-append (length cells) (reverse pairs) work
                (AreInside-reverse (length cells) pairs inside') (inside.2))
              (omega (arith, size, shorter, enough)) in
          (
            answer,
            rw (e, unify_loop) goes_on,
            later rep rep' first second pairs work answer solutions answers,
          )

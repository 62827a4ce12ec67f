-- ===== src/Program/Unify/Occurs/Descends.antt =====
-- The descent of the occurs check ends.
use themelios.Prelude.{
  ℕ, zero, suc, ◌+◌, ◌≤◌, ◌<◌, ◌≡◌, refl, Bool, true, false, List, [], ◌∷◌, some, ◌⊎◌, inl, inr,
  length, arith,
}
use themelios.Program.Unify.Nodes.{Cell, Nodes}
use themelios.Program.Unify.Occurs.{Colour, Descent, step, descend}
use themelios.Program.Unify.Occurs.Stack.{OnStack}
use themelios.Program.Unify.Occurs.Children.{IsHeld}
use themelios.Program.Unify.Occurs.Visit.{IsBlack, pale, IsVisit}
use themelios.Program.Unify.Occurs.Step.{IsCyclic, Stepped, Taken, step-Taken}

module _ (cells : List Cell) (rep height : ℕ → ℕ) where
  abbrev pub Descended : List Colour → List Descent → Bool × (List Colour × Nodes) → Type 0
  Descended colours stack (false, _) = IsCyclic cells rep height
  Descended colours stack (true, (colours', nodes')) =
      IsHeld cells rep height nodes'
      × IsVisit cells rep colours' []
      × (pale colours' cells ≤ pale colours cells)
      × ((x : ℕ) → IsBlack colours x ⊎ OnStack stack x → IsBlack colours' x)

  further :
      (colours colours' : List Colour) (d : Descent) (stack stack' : List Descent)
      (answer : Bool × (List Colour × Nodes))
      → pale colours' cells ≤ pale colours cells
      → ((x : ℕ)
          → IsBlack colours x ⊎ OnStack (d ∷ stack) x
          → IsBlack colours' x ⊎ OnStack stack' x)
      → Descended colours' stack' answer
      → Descended colours (d ∷ stack) answer
  further colours colours' d stack stack' (false, _) less marks h = h
  further colours colours' d stack stack' (true, (colours'', nodes'')) less marks
        (held, v, less', blacks) =
      (held, v, omega (arith, less, less'), λ x p. blacks x (marks x p))

  pub descend-Descended :
      (fuel : ℕ) (colours : List Colour) (nodes : Nodes) (stack : List Descent)
      → IsHeld cells rep height nodes
      → IsVisit cells rep colours stack
      → length stack + pale colours cells < fuel
      → (answer : Bool × (List Colour × Nodes)) × (descend fuel colours nodes stack ≡ some answer)
        × Descended colours stack answer
  unfolding descend Taken
  descend-Descended zero colours nodes stack held v enough = absurd (omega (arith, enough))
  descend-Descended (suc fuel) colours nodes [] held v enough = (
    (true, (colours, nodes)),
    refl,
    (held, v, omega arith, λ x h. elim h [ inl b ↦ b | inr o ↦ absurd o ]),
  )
  descend-Descended (suc fuel) colours nodes (d ∷ stack) held v enough =
      turn (λ colours' nodes' stack'. descend-Descended fuel colours' nodes' stack')
        (step-Taken cells rep height colours nodes stack d held v)
    where
      turn :
          ((colours' : List Colour) (nodes' : Nodes) (stack' : List Descent)
            → IsHeld cells rep height nodes'
            → IsVisit cells rep colours' stack'
            → length stack' + pale colours' cells < fuel
            → (answer : Bool × (List Colour × Nodes)) × (descend fuel colours' nodes' stack'
                ≡ some answer)
              × Descended colours' stack' answer)
          → ((answer : Bool × (List Colour × (Nodes × List Descent))) × (step colours nodes stack d
                ≡ some answer)
              × Stepped cells rep height colours stack d answer)
          → (answer : Bool × (List Colour × Nodes)) × (descend (suc fuel) colours nodes (d ∷ stack)
              ≡ some answer)
            × Descended colours (d ∷ stack) answer
      turn goes ((false, (colours', (nodes', stack'))), e, cyclic) =
          ((false, (colours', nodes')), rw (e, descend) refl, cyclic)
      turn goes ((true, (colours', (nodes', stack'))), e, (held', v', shorter, less, marks)) =
          let (answer, on, h) =
            goes colours' nodes' stack' held' v' (omega (arith, shorter, enough)) in
          (answer, rw (e, descend) on, further colours colours' d stack stack' answer less marks h)

-- ===== src/Program/Unify/Occurs.antt =====
-- The occurs check of the unifier (crates/themelios-program/src/unify.rs). The stack's top is first. `none`
-- is a panic, or the end of the fuel.
pub mod Stack
pub mod Children
pub mod Visit
pub mod Enter
pub mod Step
pub mod Descends
pub mod Decides
use themelios.Prelude.{
  ℕ, zero, suc, Bool, true, false, if◌then◌else◌, List, [], ◌∷◌, Option, none, some, length,
  get_elem?, set, replicate, ◌==◌,
}
use themelios.Program.Unify.Nodes.{Nodes, find_node}
use themelios.Program.Unify.Solve.State.{children}

pub data Colour : Type 0 where
  white : Colour
  grey : Colour
  black : Colour

pub data Descent : Type 0 where
  enter : ℕ → Descent
  leave : ℕ → Descent

abbrev pub shape_children : Nodes → ℕ → Option (List ℕ)
shape_children nodes node = elim (get_elem? (nodes.cell) node) [
  | none ↦ none
  | some c ↦ some (children c)
]

-- A child's representative, found, by its colour: whether the check goes on, and the stack.
abbrev pub seen : ℕ → List Descent → Option Colour → Option (Bool × List Descent)
seen rep stack none = none
seen rep stack (some grey) = some (false, stack)
seen rep stack (some white) = some (true, enter rep ∷ stack)
seen rep stack (some black) = some (true, stack)

-- The children of a node that has just turned grey.
unfoldable pub see_children :
    List Colour → Nodes → List Descent → List ℕ → Option (Bool × (Nodes × List Descent))
unfolding find_node
see_children colours nodes stack [] = some (true, (nodes, stack))
see_children colours nodes stack (child ∷ rest) =
    elim (find_node (suc (length nodes.parent)) nodes child) [
      | none ↦ none
      | some (rep, nodes') ↦ elim (seen rep stack (get_elem? colours rep)) [
        | none ↦ none
        | some (false, stack') ↦ some (false, (nodes', stack'))
        | some (true, stack') ↦ see_children colours nodes' stack' rest
      ]
    ]

-- A step on a node, by its colour: whether the check goes on, and the colours, the nodes and the stack.
unfoldable pub step :
    List Colour
    → Nodes
    → List Descent
    → Descent
    → Option (Bool × (List Colour × (Nodes × List Descent)))
unfolding see_children
step colours nodes stack (leave node) = some (true, (set colours node black, (nodes, stack)))
step colours nodes stack (enter node) = elim (get_elem? colours node) [
  | none ↦ none
  | some grey ↦ some (true, (colours, (nodes, stack)))
  | some black ↦ some (true, (colours, (nodes, stack)))
  | some white ↦ elim (shape_children nodes node) [
    | none ↦ none
    | some kids ↦ elim (see_children (set colours node grey) nodes (leave node ∷ stack) kids) [
      | none ↦ none
      | some (answer, rest) ↦ some (answer, (set colours node grey, rest))
    ]
  ]
]

unfoldable pub descend :
    ℕ → List Colour → Nodes → List Descent → Option (Bool × (List Colour × Nodes))
unfolding step
descend zero colours nodes stack = none
descend (suc fuel) colours nodes [] = some (true, (colours, nodes))
descend (suc fuel) colours nodes (d ∷ stack) = elim (step colours nodes stack d) [
  | none ↦ none
  | some (false, (colours', (nodes', _))) ↦ some (false, (colours', nodes'))
  | some (true, (colours', (nodes', stack'))) ↦ descend fuel colours' nodes' stack'
]

-- The descent from a node, when it is a representative and not yet visited.
abbrev pub descend_from : ℕ → List Colour → Nodes → ℕ → ℕ → Option (Bool × (List Colour × Nodes))
unfolding descend
descend_from fuel colours nodes start rep =
    if rep == start
    then elim (get_elem? colours start) [
      | none ↦ none
      | some white ↦ descend fuel colours nodes (enter start ∷ [])
      | some grey ↦ some (true, (colours, nodes))
      | some black ↦ some (true, (colours, nodes))
    ]
    else some (true, (colours, nodes))

-- The nodes from `start` on, as many as the second number.
unfoldable pub check_from : ℕ → ℕ → ℕ → List Colour → Nodes → Option (Bool × Nodes)
unfolding descend find_node
check_from fuel zero start colours nodes = some (true, nodes)
check_from fuel (suc count) start colours nodes =
    elim (find_node (suc (length nodes.parent)) nodes start) [
      | none ↦ none
      | some (rep, nodes') ↦ elim (descend_from fuel colours nodes' start rep) [
        | none ↦ none
        | some (false, (_, nodes'')) ↦ some (false, nodes'')
        | some (true, (colours', nodes'')) ↦ check_from fuel count (suc start) colours' nodes''
      ]
    ]

unfoldable pub occurs_check_holds : ℕ → Nodes → Option (Bool × Nodes)
unfolding check_from
occurs_check_holds fuel nodes =
    check_from fuel (length (nodes.cell)) 0 (replicate (length (nodes.cell)) white) nodes

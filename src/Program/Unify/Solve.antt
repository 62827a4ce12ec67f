-- ===== src/Program/Unify/Solve.antt =====
-- The unifier's loop over pairs of nodes (crates/themelios-program/src/unify.rs). The work's top is first.
-- `none` is a panic, or the end of the fuel.
pub mod State
pub mod Solutions
pub mod Merging
pub mod Meet
pub mod Step
pub mod Loop
use themelios.Prelude.{
  ℕ, zero, suc, ◌+◌, Bool, true, false, ◌&&◌, if◌then◌else◌, List, [], ◌∷◌, ◌++◌, reverse, Option,
  none, some, length, get_elem?, ◌==◌,
}
use themelios.Prelude.Order.{list_ord, nat_ord}
use themelios.Program.Symbol.{Symbol, Name, is_eq}
use themelios.Program.Symbol.Total.{symbol_ord}
use themelios.Program.Unify.Nodes.{Cell, Nodes, find_node, link, union}

-- What the meeting of two representatives comes to.
pub data Outcome : Type 0 where
  clash : Nodes → Outcome
  merged : Nodes → List (ℕ × ℕ) → Outcome

abbrev pub zip : List ℕ → List ℕ → List (ℕ × ℕ)
zip [] ys = []
zip (x ∷ xs) [] = []
zip (x ∷ xs) (y ∷ ys) = (x, y) ∷ zip xs ys

abbrev pub same_symbol : Symbol → Symbol → Bool
same_symbol s t = is_eq (symbol_ord.cmp s t)

abbrev pub same_functor : Name → Name → Bool
same_functor n m = is_eq (list_ord.cmp n m)

abbrev pub merged_with : List (ℕ × ℕ) → Option (ℕ × Nodes) → Option Outcome
merged_with pairs none = none
merged_with pairs (some (_, nodes)) = some (merged nodes pairs)

unfoldable pub meet : Nodes → ℕ → ℕ → Cell → Cell → Option Outcome
unfolding link union
meet nodes left right (Cell.variable _) (Cell.variable _) = merged_with [] (union nodes left right)
meet nodes left right (Cell.variable _) _ = some (merged (link nodes left right) [])
meet nodes left right _ (Cell.variable _) = some (merged (link nodes right left) [])
meet nodes left right (Cell.leaf s) (Cell.leaf t) =
    if same_symbol s t then some (merged nodes []) else some (clash nodes)
meet nodes left right (Cell.function n xs) (Cell.function m ys) =
    if same_functor n m && length xs == length ys
    then merged_with (zip xs ys) (union nodes left right)
    else some (clash nodes)
meet nodes left right (Cell.tuple xs) (Cell.tuple ys) =
    if length xs == length ys
    then merged_with (zip xs ys) (union nodes left right)
    else some (clash nodes)
meet nodes left right _ _ = some (clash nodes)

abbrev pub met : Nodes → ℕ → ℕ → Option Cell → Option Cell → Option Outcome
unfolding meet
met nodes left right (some a) (some b) = meet nodes left right a b
met nodes left right _ _ = none

-- The representatives of a pair, found one after the other, with the fuel that every node's takes.
abbrev pub find_second : ℕ → Option (ℕ × Nodes) → Option (ℕ × (ℕ × Nodes))
unfolding find_node
find_second second none = none
find_second second (some (left, nodes)) =
    elim (find_node (suc (length nodes.parent)) nodes second) [
      | none ↦ none
      | some found ↦ some (left, found)
    ]

unfoldable pub find_pair : Nodes → ℕ → ℕ → Option (ℕ × (ℕ × Nodes))
unfolding find_node
find_pair nodes first second =
    find_second second (find_node (suc (length nodes.parent)) nodes first)

-- A turn of the loop, the pair found.
abbrev pub turned : Option (ℕ × (ℕ × Nodes)) → Option Outcome
unfolding meet
turned none = none
turned (some (left, (right, nodes))) =
    if left == right
    then some (merged nodes [])
    else met nodes left right (get_elem? nodes.cell left) (get_elem? nodes.cell right)

unfoldable pub unify_loop : ℕ → Nodes → List (ℕ × ℕ) → Option (Bool × Nodes)
unfolding find_pair meet
unify_loop zero nodes work = none
unify_loop (suc fuel) nodes [] = some (true, nodes)
unify_loop (suc fuel) nodes ((first, second) ∷ work) =
    elim (turned (find_pair nodes first second)) [
      | none ↦ none
      | some (clash nodes') ↦ some (false, nodes')
      | some (merged nodes' pairs) ↦ unify_loop fuel nodes' (reverse pairs ++ work)
    ]

unfoldable pub unify : ℕ → Nodes → ℕ → ℕ → Option (Bool × Nodes)
unfolding unify_loop
unify fuel nodes first second = unify_loop fuel nodes ((first, second) ∷ [])

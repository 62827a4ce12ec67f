-- ===== src/Program/Unify/Consistent.antt =====
-- The equations of two argument lists over the nodes that they are built into
-- (crates/themelios-program/src/unify.rs): unified pair by pair, then checked for cycles.
pub mod Models
pub mod Decides
use themelios.Prelude.{ℕ, Bool, true, false, List, [], ◌∷◌, Option, none, some}
use themelios.Program.Unify.Nodes.{Nodes}
use themelios.Program.Unify.Solve.{unify}
use themelios.Program.Unify.Occurs.{occurs_check_holds}

unfoldable pub unify_pairs : ℕ → Nodes → List (ℕ × ℕ) → Option (Bool × Nodes)
unfolding unify
unify_pairs fuel nodes [] = some (true, nodes)
unify_pairs fuel nodes ((a, b) ∷ pairs) = elim (unify fuel nodes a b) [
  | none ↦ none
  | some (false, nodes') ↦ some (false, nodes')
  | some (true, nodes') ↦ unify_pairs fuel nodes' pairs
]

abbrev pub then_check : ℕ → Option (Bool × Nodes) → Option (Bool × Nodes)
unfolding occurs_check_holds
then_check fuel none = none
then_check fuel (some (false, nodes)) = some (false, nodes)
then_check fuel (some (true, nodes)) = occurs_check_holds fuel nodes

-- Whether the arguments unify, their nodes built, with the nodes that a substitution is read from.
unfoldable pub unify_nodes : ℕ → Nodes → List (ℕ × ℕ) → Option (Bool × Nodes)
unfolding unify_pairs occurs_check_holds
unify_nodes fuel nodes pairs = then_check fuel (unify_pairs fuel nodes pairs)

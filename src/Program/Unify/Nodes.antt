-- ===== src/Program/Unify/Nodes.antt =====
-- The node graph of the unifier (crates/themelios-program/src/unify.rs): its nodes and their classes. An
-- index out of bounds, which panics, is `none`.
pub mod Classes
pub mod Merge
use Prim.Native.Nat.Ordering.{lt, eq, gt}
use themelios.Prelude.{
  ℕ, zero, suc, ◌+◌, ◌%◌, ◌^◌, Bool, if◌then◌else◌, List, [], ◌∷◌, ◌++◌, Option, none, some, length,
  get_elem?, set, compare, Ordering, ◌==◌,
}
use themelios.Prelude.Order.{list_ord, nat_ord}
use themelios.Program.Symbol.{Symbol, Name, is_eq}
use themelios.Program.Term.{Variable, named, anonymous}

pub data Cell : Type 0 where
  variable : Variable → Cell
  leaf : Symbol → Cell
  function : Name → List ℕ → Cell
  tuple : List ℕ → Cell

pub record Nodes : Type 0 where
  pub cell : List Cell
  pub parent : List ℕ
  pub rank : List ℕ
  pub named : List (Name × ℕ)

abbrev pub push_node : Nodes → Cell → ℕ × Nodes
push_node nodes c =
    let id = length nodes.cell in
    (
      id,
      record {
        cell = nodes.cell ++ c ∷ [];
        parent = nodes.parent ++ id ∷ [];
        rank = nodes.rank ++ 0 ∷ [];
        named = nodes.named;
      },
    )

abbrev pub interned : List (Name × ℕ) → Name → Option ℕ
interned [] n = none
interned ((m, id) ∷ entries) n = if is_eq (list_ord.cmp n m) then some id else interned entries n

abbrev pub with_interned : Name → ℕ × Nodes → ℕ × Nodes
with_interned n (id, nodes) = (
  id,
  record {
    cell = nodes.cell;
    parent = nodes.parent;
    rank = nodes.rank;
    named = (n, id) ∷ nodes.named;
  },
)

abbrev pub named_node : Nodes → Name → Option ℕ → ℕ × Nodes
named_node nodes n (some id) = (id, nodes)
named_node nodes n none = with_interned n (push_node nodes (Cell.variable (Variable.named n)))

unfoldable pub variable_node : Nodes → Variable → ℕ × Nodes
variable_node nodes (Variable.named n) = named_node nodes n (interned (nodes.named) n)
variable_node nodes anonymous = push_node nodes (Cell.variable anonymous)

-- The loop of `find`, over the parents.
unfoldable pub find_loop : ℕ → List ℕ → ℕ → Option (ℕ × List ℕ)
find_loop zero parents id = none
find_loop (suc fuel) parents id = elim (get_elem? parents id) [
  | none ↦ none
  | some p ↦ if p == id then some (id, parents) else elim (get_elem? parents p) [
    | none ↦ none
    | some grandparent ↦ find_loop fuel (set parents id grandparent) grandparent
  ]
]

abbrev pub with_parents : Nodes → List ℕ → Nodes
with_parents nodes parents = record {
  cell = nodes.cell;
  parent = parents;
  rank = nodes.rank;
  named = nodes.named;
}

abbrev pub with_rank : Nodes → List ℕ → Nodes
with_rank nodes ranks = record {
  cell = nodes.cell;
  parent = nodes.parent;
  rank = ranks;
  named = nodes.named;
}

abbrev pub found_in : Nodes → Option (ℕ × List ℕ) → Option (ℕ × Nodes)
found_in nodes none = none
found_in nodes (some (id, parents)) = some (id, with_parents nodes parents)

unfoldable pub find_node : ℕ → Nodes → ℕ → Option (ℕ × Nodes)
unfolding find_loop
find_node fuel nodes id = found_in nodes (find_loop fuel (nodes.parent) id)

unfoldable pub link : Nodes → ℕ → ℕ → Nodes
link nodes child root = with_parents nodes (set (nodes.parent) child root)

abbrev pub by_rank : Nodes → ℕ → ℕ → ℕ → Ordering → ℕ × Nodes
unfolding link
by_rank nodes left right left_rank lt = (right, link nodes left right)
by_rank nodes left right left_rank gt = (left, link nodes right left)
by_rank nodes left right left_rank eq =
    (left, with_rank (link nodes right left) (set (nodes.rank) left ((left_rank + 1) % 2 ^ 8)))

abbrev pub union_of : Nodes → ℕ → ℕ → Option ℕ → Option ℕ → Option (ℕ × Nodes)
union_of nodes left right (some a) (some b) = some (by_rank nodes left right a (compare a b))
union_of nodes left right _ _ = none

unfoldable pub union : Nodes → ℕ → ℕ → Option (ℕ × Nodes)
unfolding link
union nodes left right =
    union_of nodes left right (get_elem? (nodes.rank) left) (get_elem? (nodes.rank) right)

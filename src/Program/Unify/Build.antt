-- ===== src/Program/Unify/Build.antt =====
-- How the unifier builds its graph from terms and symbols (crates/themelios-program/src/unify.rs). The stacks
-- have their top first, and the fuel is what a term or a symbol of the size takes.
pub mod Graph
pub mod Shape
pub mod Symbols
pub mod Terms
pub mod Pairs
pub mod Meaning
pub mod Unifies
use themelios.Prelude.{
  ℕ, zero, suc, ◌*◌, Bool, List, [], ◌∷◌, ◌++◌, map, Option, none, some, length,
}
use themelios.Program.Symbol.{Symbol, Name, positive, to_list}
use themelios.Program.Symbol.Walk.{size}
use themelios.Program.Term.{
  Term, TermParts, Frame, split_off, assemble_parts, split_parts, into_parts, entered,
}
use themelios.Program.Term.Fold.{nodes}
use themelios.Program.Unify.Nodes.{Cell, Nodes, push_node, variable_node}
use themelios.Program.Unify.Consistent.{unify_nodes}
use themelios.Program.Unify.Occurs.Decides.{graph_size}

pub data SymbolFrame : Type 0 where
  enter : Symbol → SymbolFrame
  assemble_function : Name → ℕ → SymbolFrame
  assemble_tuple : ℕ → SymbolFrame

abbrev pub pushed_node : List ℕ → ℕ × Nodes → List ℕ × Nodes
pushed_node done (id, graph) = (id ∷ done, graph)

-- A symbol entered: the frames of its elements, or its leaf.
abbrev pub entered_symbol :
    Symbol → List SymbolFrame → List ℕ → Nodes → List SymbolFrame × (List ℕ × Nodes)
entered_symbol (Symbol.function n xs positive) work done graph =
    (map enter (to_list xs) ++ assemble_function n (length (to_list xs)) ∷ work, (done, graph))
entered_symbol (Symbol.tuple xs) work done graph =
    (map enter (to_list xs) ++ assemble_tuple (length (to_list xs)) ∷ work, (done, graph))
entered_symbol s work done graph = (work, pushed_node done (push_node graph (Cell.leaf s)))

abbrev pub assembled_cell :
    (List ℕ → Cell) → Nodes → Option (List ℕ × List ℕ) → Option (List ℕ × Nodes)
assembled_cell make graph none = none
assembled_cell make graph (some (kids, rest)) =
    some (pushed_node rest (push_node graph (make kids)))

abbrev pub symbol_step :
    List SymbolFrame → SymbolFrame → List ℕ → Nodes → Option (List SymbolFrame × (List ℕ × Nodes))
symbol_step work (enter s) done graph = some (entered_symbol s work done graph)
symbol_step work (assemble_function n arity) done graph =
    elim (assembled_cell (Cell.function n) graph (split_off arity done)) [
      | none ↦ none
      | some next ↦ some (work, next)
    ]
symbol_step work (assemble_tuple arity) done graph =
    elim (assembled_cell Cell.tuple graph (split_off arity done)) [
      | none ↦ none
      | some next ↦ some (work, next)
    ]

unfoldable pub symbol_loop : ℕ → List SymbolFrame → List ℕ → Nodes → Option (ℕ × Nodes)
symbol_loop zero work done graph = none
symbol_loop (suc fuel) [] [] graph = none
symbol_loop (suc fuel) [] (id ∷ done) graph = some (id, graph)
symbol_loop (suc fuel) (frame ∷ work) done graph = elim (symbol_step work frame done graph) [
  | none ↦ none
  | some (work', (done', graph')) ↦ symbol_loop fuel work' done' graph'
]

unfoldable pub build_symbol : Nodes → Symbol → Option (ℕ × Nodes)
unfolding symbol_loop size
build_symbol graph s = symbol_loop (suc (2 * size s)) (enter s ∷ []) [] graph

-- The closure of the fold; any other former is unreachable, which panics.
unfoldable pub build_part : Nodes → TermParts ℕ → Option (ℕ × Nodes)
unfolding variable_node build_symbol
build_part graph (TermParts.variable v) = some (variable_node graph v)
build_part graph (TermParts.symbolic s) = build_symbol graph s
build_part graph (TermParts.function n kids) = some (push_node graph (Cell.function n kids))
build_part graph (TermParts.tuple kids) = some (push_node graph (Cell.tuple kids))
build_part graph _ = none

abbrev pub built_part : Nodes → Option (TermParts ℕ) → Option (ℕ × Nodes)
unfolding build_part
built_part graph none = none
built_part graph (some parts) = build_part graph parts

-- The loop of `fold`, its closure on the graph.
unfoldable pub build_loop : ℕ → List Frame → List ℕ → Nodes → Option (ℕ × Nodes)
unfolding build_part
build_loop zero work done graph = none
build_loop (suc fuel) [] [] graph = none
build_loop (suc fuel) [] (id ∷ done) graph = some (id, graph)
build_loop (suc fuel) (Frame.enter t ∷ work) done graph =
    build_loop fuel (entered (split_parts (into_parts t)) work) done graph
build_loop (suc fuel) (Frame.assemble shell arity ∷ work) done graph = elim (split_off arity done) [
  | none ↦ none
  | some (kids, rest) ↦ elim (built_part graph (assemble_parts shell kids)) [
    | none ↦ none
    | some (id, graph') ↦ build_loop fuel work (id ∷ rest) graph'
  ]
]

unfoldable pub build : Nodes → Term → Option (ℕ × Nodes)
unfolding build_loop
build graph t = build_loop (suc (2 * nodes t)) (Frame.enter t ∷ []) [] graph

unfoldable pub build_pairs : Nodes → List Term → List Term → Option (List (ℕ × ℕ) × Nodes)
unfolding build
build_pairs graph (l ∷ left) (r ∷ right) = elim (build graph l) [
  | none ↦ none
  | some (a, graph') ↦ elim (build graph' r) [
    | none ↦ none
    | some (b, graph'') ↦ elim (build_pairs graph'' left right) [
      | none ↦ none
      | some (pairs, graph''') ↦ some ((a, b) ∷ pairs, graph''')
    ]
  ]
]
build_pairs graph _ _ = some ([], graph)

abbrev pub default_nodes : Nodes
default_nodes = record { cell = []; parent = []; rank = []; named = [] }

abbrev pub unified : Option (List (ℕ × ℕ) × Nodes) → Option (Bool × Nodes)
unfolding unify_nodes
unified none = none
unified (some (pairs, graph)) = unify_nodes (suc (suc (graph_size (graph.cell)))) graph pairs

-- Whether two argument lists unify, with the graph that the substitution is read from.
unfoldable pub unify_arguments : List Term → List Term → Option (Bool × Nodes)
unfolding build_pairs unify_nodes
unify_arguments left right = unified (build_pairs default_nodes left right)

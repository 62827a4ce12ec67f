-- ===== src/Program/Unify.antt =====
-- Substitutions and their application to a term (crates/themelios-program/src/unify.rs). The work and
-- the finished terms are stacks with their top first; `none` is a panic, or the end of the fuel.
pub mod Replace
pub mod Apply
pub mod Rounds
pub mod Nodes
pub mod Pattern
pub mod Solve
pub mod Occurs
pub mod Consistent
pub mod Build
use Prim.Native.Nat.Ordering.{lt, eq, gt}
use themelios.Prelude.{
  ℕ, zero, suc, List, [], ◌∷◌, ◌++◌, map, Option, none, some, length, compare, Ordering,
  if◌then◌else◌,
}
use themelios.Prelude.Order.{Ord, list_ord, nat_ord}
use themelios.Program.Symbol.{Name, is_eq}
use themelios.Program.Term.{
  Variable, named, anonymous, UnaryOp, BinaryOp, Term, to_vec, TermParts, from_parts, with_last,
  with_two, last_of, last_two, split_off,
}
use themelios.Program.Term.Canonical.{canonicalize}

-- The derived order: a named variable before the anonymous one.
abbrev pub compare_variable : Variable → Variable → Ordering
compare_variable (named a) (named b) = list_ord.cmp a b
compare_variable (named a) anonymous = lt
compare_variable anonymous (named b) = gt
compare_variable anonymous anonymous = eq

pub data Binding : Type 0 where
  bound : Term → Binding

-- The map's entries, ascending.
pub record Substitution : Type 0 where
  pub bindings : List (Variable × Binding)

abbrev pub find_entry : List (Variable × Binding) → Variable → Option Binding
find_entry [] v = none
find_entry ((w, b) ∷ entries) v =
    if is_eq (compare_variable v w) then some b else find_entry entries v

unfoldable pub get : Substitution → Variable → Option Binding
get substitution v = find_entry (substitution.bindings) v

pub data Rebuild : Type 0 where
  function : Name → Rebuild
  tuple : Rebuild
  pool : Rebuild
  unary : UnaryOp → Rebuild
  binary : BinaryOp → Rebuild
  interval : Rebuild
  absolute : Rebuild
  external : Name → Rebuild

pub data Frame : Type 0 where
  enter : Term → Frame
  assemble : Rebuild → ℕ → Frame

abbrev pub enter_children : List Frame → Rebuild → List Term → List Frame
enter_children work rebuild children =
    map enter children ++ assemble rebuild (length children) ∷ work

abbrev pub rebuilt : Rebuild → List Term → Option (TermParts Term)
rebuilt (Rebuild.function n) children = some (TermParts.function n children)
rebuilt Rebuild.tuple children = some (TermParts.tuple children)
rebuilt Rebuild.pool children = some (TermParts.pool children)
rebuilt (Rebuild.unary op) children = with_last (TermParts.unary_operation op) (last_of children)
rebuilt (Rebuild.binary op) children = with_two (TermParts.binary_operation op) (last_two children)
rebuilt Rebuild.interval children = with_two TermParts.interval (last_two children)
rebuilt Rebuild.absolute children = with_last TermParts.absolute (last_of children)
rebuilt (Rebuild.external n) children = some (TermParts.external n children)

-- `assemble`.
abbrev pub assemble_rebuild : Rebuild → List Term → Option Term
assemble_rebuild rebuild children = elim (rebuilt rebuild children) [
  | none ↦ none
  | some parts ↦ some (from_parts parts)
]

abbrev pub pushed_assembly : Rebuild → Option (List Term × List Term) → Option (List Term)
pushed_assembly rebuild none = none
pushed_assembly rebuild (some (children, done)) = elim (assemble_rebuild rebuild children) [
  | none ↦ none
  | some t ↦ some (t ∷ done)
]

-- The work and the finished terms once a variable is entered, by its binding.
abbrev pub variable_entered :
    Variable → Option Binding → List Frame → List Term → List Frame × List Term
variable_entered v none work done = (work, Term.variable v ∷ done)
variable_entered v (some (bound binding)) work done = (enter binding ∷ work, done)

-- The same for any term.
abbrev pub term_entered : Substitution → Term → List Frame → List Term → List Frame × List Term
unfolding get
term_entered σ (Term.variable v) work done = variable_entered v (get σ v) work done
term_entered σ (Term.symbolic s) work done = (work, Term.symbolic s ∷ done)
term_entered σ (Term.function n ts) work done =
    (enter_children work (Rebuild.function n) (to_vec ts), done)
term_entered σ (Term.tuple ts) work done = (enter_children work Rebuild.tuple (to_vec ts), done)
term_entered σ (Term.pool ts) work done = (enter_children work Rebuild.pool (to_vec ts), done)
term_entered σ (Term.unary_operation op t) work done =
    (enter_children work (Rebuild.unary op) (t ∷ []), done)
term_entered σ (Term.binary_operation op l r) work done =
    (enter_children work (Rebuild.binary op) (l ∷ r ∷ []), done)
term_entered σ (Term.interval l u) work done =
    (enter_children work Rebuild.interval (l ∷ u ∷ []), done)
term_entered σ (Term.absolute t) work done = (enter_children work Rebuild.absolute (t ∷ []), done)
term_entered σ (Term.external n ts) work done =
    (enter_children work (Rebuild.external n) (to_vec ts), done)

unfoldable pub resolve_loop : ℕ → Substitution → List Frame → List Term → Option Term
unfolding get
resolve_loop zero σ work done = none
resolve_loop (suc fuel) σ [] [] = none
resolve_loop (suc fuel) σ [] (t ∷ done) = some t
resolve_loop (suc fuel) σ (enter t ∷ work) done =
    let next = term_entered σ t work done in resolve_loop fuel σ (next.0) (next.1)
resolve_loop (suc fuel) σ (assemble rebuild arity ∷ work) done =
    elim (pushed_assembly rebuild (split_off arity done)) [
      | none ↦ none
      | some finished ↦ resolve_loop fuel σ work finished
    ]

unfoldable pub resolve : ℕ → Term → Substitution → Option Term
unfolding resolve_loop
resolve fuel root σ = resolve_loop fuel σ (enter root ∷ []) []

abbrev pub canonical_of : Option Term → Option Term
unfolding canonicalize
canonical_of none = none
canonical_of (some t) = canonicalize t

unfoldable pub substitute : ℕ → Term → Substitution → Option Term
unfolding resolve canonicalize
substitute fuel term σ = canonical_of (resolve fuel term σ)

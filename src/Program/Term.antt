-- ===== src/Program/Term.antt =====
-- Terms and their fold (crates/themelios-program/src/term.rs). A `Vec<Term>` in a term is `Terms`;
-- elsewhere it is a list. The stacks of the fold have their top first.
pub mod Fold
pub mod Leaves
pub mod Eval
pub mod Canonical
pub mod Doors
use themelios.Prelude.{
  ℕ, zero, suc, List, [], ◌∷◌, ◌++◌, map, Option, none, some, length, Result, ok, err,
}
use themelios.Program.Symbol.{Symbol, Name}

-- A variable's name is its text.
pub data Variable : Type 0 where
  named : Name → Variable
  anonymous : Variable

pub data UnaryOp : Type 0 where
  negate bitwise_not : UnaryOp

pub data BinaryOp : Type 0 where
  add sub mul div modulo pow bit_and bit_or bit_xor : BinaryOp

mutual
  pub data Term : Type 0 where
    variable : Variable → Term
    symbolic : Symbol → Term
    function : Name → Terms → Term
    tuple : Terms → Term
    pool : Terms → Term
    unary_operation : UnaryOp → Term → Term
    binary_operation : BinaryOp → Term → Term → Term
    interval : Term → Term → Term
    absolute : Term → Term
    external : Name → Terms → Term

  pub data Terms : Type 0 where
    no_terms : Terms
    with_term : Term → Terms → Terms

abbrev pub to_vec : Terms → List Term
to_vec no_terms = []
to_vec (with_term t ts) = t ∷ to_vec ts

abbrev pub from_vec : List Term → Terms
from_vec [] = no_terms
from_vec (t ∷ ts) = with_term t (from_vec ts)

pub data TermParts (T : Type 0) : Type 0 where
  variable : Variable → TermParts T
  symbolic : Symbol → TermParts T
  function : Name → List T → TermParts T
  tuple : List T → TermParts T
  pool : List T → TermParts T
  unary_operation : UnaryOp → T → TermParts T
  binary_operation : BinaryOp → T → T → TermParts T
  interval : T → T → TermParts T
  absolute : T → TermParts T
  external : Name → List T → TermParts T

abbrev pub into_parts : Term → TermParts Term
into_parts (Term.variable v) = TermParts.variable v
into_parts (Term.symbolic s) = TermParts.symbolic s
into_parts (Term.function n ts) = TermParts.function n (to_vec ts)
into_parts (Term.tuple ts) = TermParts.tuple (to_vec ts)
into_parts (Term.pool ts) = TermParts.pool (to_vec ts)
into_parts (Term.unary_operation op t) = TermParts.unary_operation op t
into_parts (Term.binary_operation op l r) = TermParts.binary_operation op l r
into_parts (Term.interval l u) = TermParts.interval l u
into_parts (Term.absolute t) = TermParts.absolute t
into_parts (Term.external n ts) = TermParts.external n (to_vec ts)

-- `From<TermParts<Term>>`.
abbrev pub from_parts : TermParts Term → Term
from_parts (TermParts.variable v) = Term.variable v
from_parts (TermParts.symbolic s) = Term.symbolic s
from_parts (TermParts.function n ts) = Term.function n (from_vec ts)
from_parts (TermParts.tuple ts) = Term.tuple (from_vec ts)
from_parts (TermParts.pool ts) = Term.pool (from_vec ts)
from_parts (TermParts.unary_operation op t) = Term.unary_operation op t
from_parts (TermParts.binary_operation op l r) = Term.binary_operation op l r
from_parts (TermParts.interval l u) = Term.interval l u
from_parts (TermParts.absolute t) = Term.absolute t
from_parts (TermParts.external n ts) = Term.external n (from_vec ts)

pub data Shell : Type 0 where
  variable : Variable → Shell
  symbolic : Symbol → Shell
  function : Name → Shell
  tuple : Shell
  pool : Shell
  unary : UnaryOp → Shell
  binary : BinaryOp → Shell
  interval : Shell
  absolute : Shell
  external : Name → Shell

abbrev pub split_parts : TermParts Term → Shell × List Term
split_parts (TermParts.variable v) = (Shell.variable v, [])
split_parts (TermParts.symbolic s) = (Shell.symbolic s, [])
split_parts (TermParts.function n ts) = (Shell.function n, ts)
split_parts (TermParts.tuple ts) = (Shell.tuple, ts)
split_parts (TermParts.pool ts) = (Shell.pool, ts)
split_parts (TermParts.unary_operation op t) = (Shell.unary op, t ∷ [])
split_parts (TermParts.binary_operation op l r) = (Shell.binary op, l ∷ r ∷ [])
split_parts (TermParts.interval l u) = (Shell.interval, l ∷ u ∷ [])
split_parts (TermParts.absolute t) = (Shell.absolute, t ∷ [])
split_parts (TermParts.external n ts) = (Shell.external n, ts)

module _ {T : Type 0} where
  -- The last child, and the last but one: `pop`, once and again; `none` is its panic.
  abbrev pub last_of : List T → Option T
  last_of [] = none
  last_of (x ∷ []) = some x
  last_of (x ∷ y ∷ xs) = last_of (y ∷ xs)

  abbrev pub last_two : List T → Option (T × T)
  last_two [] = none
  last_two (x ∷ []) = none
  last_two (x ∷ y ∷ []) = some (x, y)
  last_two (x ∷ y ∷ z ∷ xs) = last_two (y ∷ z ∷ xs)

  abbrev pub with_last : (T → TermParts T) → Option T → Option (TermParts T)
  with_last make none = none
  with_last make (some x) = some (make x)

  abbrev pub with_two : (T → T → TermParts T) → Option (T × T) → Option (TermParts T)
  with_two make none = none
  with_two make (some (x, y)) = some (make x y)

  abbrev pub assemble_parts : Shell → List T → Option (TermParts T)
  assemble_parts (Shell.variable v) children = some (TermParts.variable v)
  assemble_parts (Shell.symbolic s) children = some (TermParts.symbolic s)
  assemble_parts (Shell.function n) children = some (TermParts.function n children)
  assemble_parts Shell.tuple children = some (TermParts.tuple children)
  assemble_parts Shell.pool children = some (TermParts.pool children)
  assemble_parts (Shell.unary op) children =
      with_last (TermParts.unary_operation op) (last_of children)
  assemble_parts (Shell.binary op) children =
      with_two (TermParts.binary_operation op) (last_two children)
  assemble_parts Shell.interval children = with_two TermParts.interval (last_two children)
  assemble_parts Shell.absolute children = with_last TermParts.absolute (last_of children)
  assemble_parts (Shell.external n) children = some (TermParts.external n children)

  -- `split_off` of the last `n`, in order, from a stack; `none` is its panic.
  abbrev pub split_off : ℕ → List T → Option (List T × List T)
  split_off zero done = some ([], done)
  split_off (suc n) [] = none
  split_off (suc n) (x ∷ done) = elim (split_off n done) [
    | none ↦ none
    | some (taken, rest) ↦ some (taken ++ x ∷ [], rest)
  ]

pub data Frame : Type 0 where
  enter : Term → Frame
  assemble : Shell → ℕ → Frame

-- The frames of a node: its children, then its assembly.
abbrev pub entered : Shell × List Term → List Frame → List Frame
entered (shell, children) work = map enter children ++ assemble shell (length children) ∷ work

module _ {T E : Type 0} (step : TermParts T → Result T E) where
  -- The children of the node, folded, and the rest of the stack.
  abbrev pub gathered : Shell → Option (List T × List T) → Option (Result T E × List T)
  gathered shell none = none
  gathered shell (some (children, rest)) = elim (assemble_parts shell children) [
    | none ↦ none
    | some parts ↦ some (step parts, rest)
  ]

  -- The loop of `try_fold`; `none` is a panic, or the end of the fuel.
  unfoldable pub fold_loop : ℕ → List Frame → List T → Option (Result T E)
  fold_loop zero work done = none
  fold_loop (suc fuel) [] [] = none
  fold_loop (suc fuel) [] (t ∷ done) = some (ok t)
  fold_loop (suc fuel) (enter term ∷ work) done =
      fold_loop fuel (entered (split_parts (into_parts term)) work) done
  fold_loop (suc fuel) (assemble shell arity ∷ work) done =
      elim (gathered shell (split_off arity done)) [
        | none ↦ none
        | some (err e, rest) ↦ some (err e)
        | some (ok t, rest) ↦ fold_loop fuel work (t ∷ rest)
      ]

  unfoldable pub try_fold : ℕ → Term → Option (Result T E)
  unfolding fold_loop
  try_fold fuel term = fold_loop fuel (enter term ∷ []) []

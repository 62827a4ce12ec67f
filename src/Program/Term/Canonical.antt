-- ===== src/Program/Term/Canonical.antt =====
-- The canonical form of terms (crates/themelios-program/src/term.rs): `canonicalize`, the step of the
-- doors, and the pass that flattens pools. `none` is a panic, or the end of a loop's fuel.
pub mod Forms
pub mod Spine
pub mod Flatten
pub mod Whole
pub mod Fixed
pub mod Meaning
use themelios.Prelude.{
  ℕ, zero, suc, ◌+◌, ◌*◌, Bool, true, false, any, all, if◌then◌else◌, List, [], ◌∷◌, ◌++◌, map,
  Option, none, some, Result, ok, err, length,
}
use themelios.Prelude.Int.{neg, checked}
use themelios.Program.Symbol.{Symbol, Name, positive, from_list}
use themelios.Program.Term.{
  negate, bitwise_not, Term, Terms, from_vec, TermParts, into_parts, from_parts, Shell, split_parts,
  assemble_parts, split_off, Frame, enter, assemble, entered, try_fold,
}
use themelios.Program.Term.Fold.{nodes}

abbrev pub is_symbolic : Term → Bool
is_symbolic (Term.symbolic _) = true
is_symbolic _ = false

abbrev pub is_pool : Term → Bool
is_pool (Term.pool _) = true
is_pool _ = false

-- `unwrap_symbolic` of each; a term of another form, which `into_symbols` does not hand on, is left out.
abbrev pub unwrap_symbolics : List Term → List Symbol
unwrap_symbolics [] = []
unwrap_symbolics (Term.symbolic s ∷ ts) = s ∷ unwrap_symbolics ts
unwrap_symbolics (_ ∷ ts) = unwrap_symbolics ts

abbrev pub into_symbols : List Term → Result (List Symbol) (List Term)
into_symbols ts = if all is_symbolic ts then ok (unwrap_symbolics ts) else err ts

abbrev pub function_of : Name → Result (List Symbol) (List Term) → Term
function_of n (ok symbols) = Term.symbolic (Symbol.function n (from_list symbols) positive)
function_of n (err arguments) = Term.function n (from_vec arguments)

abbrev pub tuple_of : Result (List Symbol) (List Term) → Term
tuple_of (ok symbols) = Term.symbolic (Symbol.tuple (from_list symbols))
tuple_of (err items) = Term.tuple (from_vec items)

unfoldable pub negate_number : Term → Term
negate_number (Term.symbolic (Symbol.number n)) = elim (checked (neg n)) [
  | none ↦ Term.unary_operation negate (Term.symbolic (Symbol.number n))
  | some negated ↦ Term.symbolic (Symbol.number negated)
]
negate_number argument = Term.unary_operation negate argument

-- A pool of one alternative is the alternative.
abbrev pub pool_of : List Term → Term
pool_of (t ∷ []) = t
pool_of ts = Term.pool (from_vec ts)

-- The stack holds the next alternative on top.
unfoldable pub gather_loop : ℕ → List Term → List Term → Option (List Term)
gather_loop zero stack flat = none
gather_loop (suc fuel) [] flat = some flat
gather_loop (suc fuel) (t ∷ stack) flat = elim (into_parts t) [
  | TermParts.pool nested ↦ gather_loop fuel (nested ++ stack) flat
  | parts ↦ gather_loop fuel stack (flat ++ from_parts parts ∷ [])
]

abbrev pub nodes_in : List Term → ℕ
nodes_in [] = 0
nodes_in (t ∷ ts) = nodes t + nodes_in ts

unfoldable pub gather_pool_spine : List Term → Option (List Term)
unfolding gather_loop
gather_pool_spine alternatives = gather_loop (suc (nodes_in alternatives)) alternatives []

abbrev pub pool_from : Option (List Term) → Option Term
pool_from none = none
pool_from (some alternatives) = some (pool_of alternatives)

unfoldable pub canonicalize_parts_one_level : TermParts Term → Option Term
unfolding negate_number gather_pool_spine
canonicalize_parts_one_level (TermParts.function n arguments) =
    some (function_of n (into_symbols arguments))
canonicalize_parts_one_level (TermParts.tuple items) = some (tuple_of (into_symbols items))
canonicalize_parts_one_level (TermParts.pool items) = pool_from (gather_pool_spine items)
canonicalize_parts_one_level (TermParts.unary_operation negate argument) =
    some (negate_number argument)
canonicalize_parts_one_level other = some (from_parts other)

unfoldable pub canonicalize_one_level : Term → Option Term
unfolding canonicalize_parts_one_level
canonicalize_one_level term = canonicalize_parts_one_level (into_parts term)

-- What `flatten_pools` enters under a node.
abbrev pub pool_spine : Option (List Term) → Option (Shell × List Term)
pool_spine none = none
pool_spine (some alternatives) = some (Shell.pool, alternatives)

unfoldable pub flat_parts : TermParts Term → Option (Shell × List Term)
unfolding gather_pool_spine
flat_parts (TermParts.pool items) = pool_spine (gather_pool_spine items)
flat_parts parts = some (split_parts parts)

abbrev pub canonical_over : List Term → Option Term → Option (Term × List Term)
canonical_over rest none = none
canonical_over rest (some t) = some (t, rest)

unfoldable pub reassembled : Shell → Option (List Term × List Term) → Option (Term × List Term)
unfolding canonicalize_parts_one_level
reassembled shell none = none
reassembled shell (some (children, rest)) = elim (assemble_parts shell children) [
  | none ↦ none
  | some parts ↦ canonical_over rest (canonicalize_parts_one_level parts)
]

unfoldable pub flatten_loop : ℕ → List Frame → List Term → Option Term
unfolding flat_parts reassembled
flatten_loop zero work done = none
flatten_loop (suc fuel) [] [] = none
flatten_loop (suc fuel) [] (t ∷ done) = some t
flatten_loop (suc fuel) (enter term ∷ work) done = elim (flat_parts (into_parts term)) [
  | none ↦ none
  | some node ↦ flatten_loop fuel (entered node work) done
]
flatten_loop (suc fuel) (assemble shell arity ∷ work) done =
    elim (reassembled shell (split_off arity done)) [
      | none ↦ none
      | some (t, rest) ↦ flatten_loop fuel work (t ∷ rest)
    ]

unfoldable pub flatten_pools : Term → Option Term
unfolding flatten_loop
flatten_pools term = flatten_loop (suc (2 * nodes term)) (enter term ∷ []) []

-- The step of `canonicalize`'s fold.
unfoldable pub canonicalize_parts : TermParts Term → Term
unfolding negate_number
canonicalize_parts (TermParts.function n arguments) = function_of n (into_symbols arguments)
canonicalize_parts (TermParts.tuple items) = tuple_of (into_symbols items)
canonicalize_parts (TermParts.pool items) = pool_of items
canonicalize_parts (TermParts.unary_operation negate argument) = negate_number argument
canonicalize_parts other = from_parts other

-- Whether the node is a pool holding a pool.
abbrev pub nests_pool : TermParts Term → Bool
nests_pool (TermParts.pool items) = any is_pool items
nests_pool _ = false

abbrev pub any_flag : List (Term × Bool) → Bool
any_flag [] = false
any_flag ((t, met) ∷ ts) = if met then true else any_flag ts

abbrev pub terms_of : List (Term × Bool) → List Term
terms_of [] = []
terms_of ((t, met) ∷ ts) = t ∷ terms_of ts

-- The node over the folded children, and whether the fold of one of them met a pool holding a pool.
abbrev pub unflagged : TermParts (Term × Bool) → TermParts Term × Bool
unflagged (TermParts.variable v) = (TermParts.variable v, false)
unflagged (TermParts.symbolic s) = (TermParts.symbolic s, false)
unflagged (TermParts.function n xs) = (TermParts.function n (terms_of xs), any_flag xs)
unflagged (TermParts.tuple xs) = (TermParts.tuple (terms_of xs), any_flag xs)
unflagged (TermParts.pool xs) = (TermParts.pool (terms_of xs), any_flag xs)
unflagged (TermParts.unary_operation op (x, met)) = (TermParts.unary_operation op x, met)
unflagged (TermParts.binary_operation op (x, met) (y, also)) =
    (TermParts.binary_operation op x y, if met then true else also)
unflagged (TermParts.interval (x, met) (y, also)) =
    (TermParts.interval x y, if met then true else also)
unflagged (TermParts.absolute (x, met)) = (TermParts.absolute x, met)
unflagged (TermParts.external n xs) = (TermParts.external n (terms_of xs), any_flag xs)

-- A step of the fold; `nested_pool`, which the source's steps share, goes up with the folded term.
abbrev pub flagged : TermParts Term × Bool → Term × Bool
unfolding canonicalize_parts
flagged (parts, met) = (canonicalize_parts parts, if met then true else nests_pool parts)

unfoldable pub canonicalize_step : TermParts (Term × Bool) → Result (Term × Bool) ⊥
unfolding canonicalize_parts
canonicalize_step parts = ok (flagged (unflagged parts))

unfoldable pub canonical_fold : Option (Result (Term × Bool) ⊥) → Option Term
unfolding flatten_pools
canonical_fold none = none
canonical_fold (some (err never)) = absurd never
canonical_fold (some (ok (folded, nested_pool))) =
    if nested_pool then flatten_pools folded else some folded

unfoldable pub canonicalize : Term → Option Term
unfolding canonical_fold try_fold canonicalize_step
canonicalize (Term.variable v) = some (Term.variable v)
canonicalize (Term.symbolic s) = some (Term.symbolic s)
canonicalize term = canonical_fold (try_fold canonicalize_step (suc (2 * nodes term)) term)

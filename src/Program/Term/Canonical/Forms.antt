-- ===== src/Program/Term/Canonical/Forms.antt =====
-- Canonical terms, and the step of `canonicalize` at one node.
use themelios.Prelude.{
  ◌≡◌, ◌≢◌, refl, ap, ◌∙◌, Bool, false, Bool-cases, List, [], ◌∷◌, length, any, all, All, inl, inr,
  arith,
}
use themelios.Prelude.Int.{neg, is_i32}
use themelios.Program.Symbol.{Symbol, Name}
use themelios.Program.Term.{
  negate, bitwise_not, Term, Terms, no_terms, with_term, to_vec, from_vec, TermParts, into_parts,
  from_parts,
}
use themelios.Program.Term.Leaves.{PartsAll}
use themelios.Program.Term.Canonical.{
  is_symbolic, is_pool, into_symbols, function_of, tuple_of, negate_number, pool_of,
  canonicalize_parts, nests_pool,
}

-- A number whose negation is an `i32`.
abbrev pub negates : Term → Bool
negates (Term.symbolic (Symbol.number n)) = is_i32 (neg n)
negates _ = false

-- No function or tuple is ground throughout, no pool has one alternative or holds a pool, and no
-- negation is of a number it could fold with.
abbrev mutual
  pub IsCanonical : Term → Type 0
  IsCanonical (Term.variable v) = Unit
  IsCanonical (Term.symbolic s) = Unit
  IsCanonical (Term.function n ts) = AreCanonical ts × (all is_symbolic (to_vec ts) ≡ false)
  IsCanonical (Term.tuple ts) = AreCanonical ts × (all is_symbolic (to_vec ts) ≡ false)
  IsCanonical (Term.pool ts) =
      AreCanonical ts × ((any is_pool (to_vec ts) ≡ false) × (length (to_vec ts) ≢ 1))
  IsCanonical (Term.unary_operation negate t) = IsCanonical t × (negates t ≡ false)
  IsCanonical (Term.unary_operation bitwise_not t) = IsCanonical t
  IsCanonical (Term.binary_operation op l r) = IsCanonical l × IsCanonical r
  IsCanonical (Term.interval l u) = IsCanonical l × IsCanonical u
  IsCanonical (Term.absolute t) = IsCanonical t
  IsCanonical (Term.external n ts) = AreCanonical ts

  pub AreCanonical : Terms → Type 0
  AreCanonical no_terms = Unit
  AreCanonical (with_term t ts) = IsCanonical t × AreCanonical ts

-- A node with canonical children.
abbrev pub PartsCanonical : TermParts Term → Type 0
PartsCanonical = PartsAll (λ v. Unit) (λ s. Unit) IsCanonical

pub to_vec-from_vec : (xs : List Term) → to_vec (from_vec xs) ≡ xs
to_vec-from_vec [] = refl
to_vec-from_vec (x ∷ xs) = ap (λ z. x ∷ z) (to_vec-from_vec xs)

pub from_vec-to_vec : (ts : Terms) → from_vec (to_vec ts) ≡ ts
from_vec-to_vec no_terms = refl
from_vec-to_vec (with_term t ts) = ap (λ z. with_term t z) (from_vec-to_vec ts)

pub from_parts-into_parts : (t : Term) → from_parts (into_parts t) ≡ t
from_parts-into_parts (Term.variable v) = refl
from_parts-into_parts (Term.symbolic s) = refl
from_parts-into_parts (Term.function n ts) = ap (Term.function n) (from_vec-to_vec ts)
from_parts-into_parts (Term.tuple ts) = ap Term.tuple (from_vec-to_vec ts)
from_parts-into_parts (Term.pool ts) = ap Term.pool (from_vec-to_vec ts)
from_parts-into_parts (Term.unary_operation op t) = refl
from_parts-into_parts (Term.binary_operation op l r) = refl
from_parts-into_parts (Term.interval l u) = refl
from_parts-into_parts (Term.absolute t) = refl
from_parts-into_parts (Term.external n ts) = ap (Term.external n) (from_vec-to_vec ts)

pub to_vec-AreCanonical : (ts : Terms) → AreCanonical ts → All IsCanonical (to_vec ts)
to_vec-AreCanonical no_terms h = tt
to_vec-AreCanonical (with_term t ts) h = (h.0, to_vec-AreCanonical ts h.1)

pub from_vec-AreCanonical : (xs : List Term) → All IsCanonical xs → AreCanonical (from_vec xs)
from_vec-AreCanonical [] h = tt
from_vec-AreCanonical (x ∷ xs) h = (h.0, from_vec-AreCanonical xs h.1)

function_of-IsCanonical :
    (n : Name) (xs : List Term) → All IsCanonical xs → IsCanonical (function_of n (into_symbols xs))
function_of-IsCanonical n xs h = elim (Bool-cases (all is_symbolic xs)) [
  | inl e ↦ rw e tt
  | inr e ↦ rw e (from_vec-AreCanonical xs h, ap (all is_symbolic) (to_vec-from_vec xs) ∙ e)
]

tuple_of-IsCanonical :
    (xs : List Term) → All IsCanonical xs → IsCanonical (tuple_of (into_symbols xs))
tuple_of-IsCanonical xs h = elim (Bool-cases (all is_symbolic xs)) [
  | inl e ↦ rw e tt
  | inr e ↦ rw e (from_vec-AreCanonical xs h, ap (all is_symbolic) (to_vec-from_vec xs) ∙ e)
]

pub pool_of-IsCanonical :
    (xs : List Term) → All IsCanonical xs → any is_pool xs ≡ false → IsCanonical (pool_of xs)
pool_of-IsCanonical [] h no_pool = (tt, (refl, λ e. omega (arith, e)))
pool_of-IsCanonical (x ∷ []) h no_pool = h.0
pool_of-IsCanonical (x ∷ y ∷ xs) h no_pool = (
  from_vec-AreCanonical (x ∷ y ∷ xs) h,
  (ap (any is_pool) (to_vec-from_vec (x ∷ y ∷ xs)) ∙ no_pool, λ e. omega (arith, e)),
)

pub negate_number-IsCanonical : (t : Term) → IsCanonical t → IsCanonical (negate_number t)
unfolding negate_number
negate_number-IsCanonical (Term.symbolic (Symbol.number n)) h = elim (Bool-cases (is_i32 (neg n))) [
  | inl e ↦ rw (e, negate_number) tt
  | inr e ↦ rw (e, negate_number) (tt, e)
]
negate_number-IsCanonical t h = (h, refl)

-- Over canonical children, the step's node is canonical, but for a pool that holds a pool.
pub canonicalize_parts-IsCanonical :
    (parts : TermParts Term)
    → PartsCanonical parts
    → nests_pool parts ≡ false
    → IsCanonical (canonicalize_parts parts)
unfolding canonicalize_parts
canonicalize_parts-IsCanonical (TermParts.variable v) h flat = tt
canonicalize_parts-IsCanonical (TermParts.symbolic s) h flat = tt
canonicalize_parts-IsCanonical (TermParts.function n xs) h flat = function_of-IsCanonical n xs h
canonicalize_parts-IsCanonical (TermParts.tuple xs) h flat = tuple_of-IsCanonical xs h
canonicalize_parts-IsCanonical (TermParts.pool xs) h flat = pool_of-IsCanonical xs h flat
canonicalize_parts-IsCanonical (TermParts.unary_operation negate t) h flat =
    negate_number-IsCanonical t h
canonicalize_parts-IsCanonical (TermParts.unary_operation bitwise_not t) h flat = h
canonicalize_parts-IsCanonical (TermParts.binary_operation op l r) h flat = h
canonicalize_parts-IsCanonical (TermParts.interval l u) h flat = h
canonicalize_parts-IsCanonical (TermParts.absolute t) h flat = h
canonicalize_parts-IsCanonical (TermParts.external n xs) h flat = from_vec-AreCanonical xs h

negate_number-fixed :
    (t : Term) → negates t ≡ false → negate_number t ≡ Term.unary_operation negate t
unfolding negate_number
negate_number-fixed (Term.symbolic (Symbol.number n)) h = rw (h, negate_number) refl
negate_number-fixed t h = refl

pool_of-fixed : (xs : List Term) → length xs ≢ 1 → pool_of xs ≡ Term.pool (from_vec xs)
pool_of-fixed [] h = refl
pool_of-fixed (x ∷ []) h = absurd (h refl)
pool_of-fixed (x ∷ y ∷ xs) h = refl

-- It leaves a canonical node as it is.
pub canonicalize_parts-fixed : (t : Term) → IsCanonical t → canonicalize_parts (into_parts t) ≡ t
unfolding canonicalize_parts
canonicalize_parts-fixed (Term.variable v) h = refl
canonicalize_parts-fixed (Term.symbolic s) h = refl
canonicalize_parts-fixed (Term.function n ts) h =
    rw (h.1) (ap (Term.function n) (from_vec-to_vec ts))
canonicalize_parts-fixed (Term.tuple ts) h = rw (h.1) (ap Term.tuple (from_vec-to_vec ts))
canonicalize_parts-fixed (Term.pool ts) h =
    pool_of-fixed (to_vec ts) (h.1.1) ∙ ap Term.pool (from_vec-to_vec ts)
canonicalize_parts-fixed (Term.unary_operation negate t) h = negate_number-fixed t (h.1)
canonicalize_parts-fixed (Term.unary_operation bitwise_not t) h = refl
canonicalize_parts-fixed (Term.binary_operation op l r) h = refl
canonicalize_parts-fixed (Term.interval l u) h = refl
canonicalize_parts-fixed (Term.absolute t) h = refl
canonicalize_parts-fixed (Term.external n ts) h = ap (Term.external n) (from_vec-to_vec ts)

pub nests_pool-fixed : (t : Term) → IsCanonical t → nests_pool (into_parts t) ≡ false
nests_pool-fixed (Term.pool ts) h = h.1.0
nests_pool-fixed t h = refl

-- ===== src/Program/Term/Doors.antt =====
-- The doors that build a term (crates/themelios-program/src/term.rs and construct.rs). `none` is a panic.
use themelios.Prelude.{
  ◌≡◌, ◌≢◌, refl, sym, ap, subst, arith, ◌∙◌, ◌⊎◌, inl, inr, List, [], ◌∷◌, Option, none, some,
  Result, ok, err, All,
}
use themelios.Prelude.Int.{ℤ}
use themelios.Program.Symbol.{Symbol, Name, Text, nil, positive}
use themelios.Program.Term.{named, anonymous, UnaryOp, BinaryOp, Term, to_vec, from_vec, into_parts}
use themelios.Program.Term.Canonical.{canonicalize, canonicalize_one_level}
use themelios.Program.Term.Canonical.Forms.{IsCanonical, PartsCanonical, to_vec-from_vec}
use themelios.Program.Term.Canonical.Flatten.{canonicalize_one_level-IsCanonical}
use themelios.Program.Term.Canonical.Fixed.{canonicalize-fixed}

pub data EmptyPool : Type 0 where
  empty_pool : EmptyPool

abbrev pub non_empty : List Term → Result (List Term) EmptyPool
non_empty [] = err empty_pool
non_empty (t ∷ ts) = ok (t ∷ ts)

abbrev pub function_term : Name → List Term → Option Term
function_term name arguments = canonicalize_one_level (Term.function name (from_vec arguments))

abbrev pub constant : Name → Term
constant name = Term.symbolic (Symbol.function name nil positive)

abbrev pub variable_term : Name → Term
variable_term name = Term.variable (named name)

abbrev pub anonymous_term : Term
anonymous_term = Term.variable anonymous

abbrev pub tuple_term : List Term → Option Term
tuple_term elements = canonicalize_one_level (Term.tuple (from_vec elements))

abbrev pub admitted : Option Term → Option (Result Term EmptyPool)
admitted none = none
admitted (some t) = some (ok t)

abbrev pub pool_admitted : Result (List Term) EmptyPool → Option (Result Term EmptyPool)
pool_admitted (err e) = some (err e)
pool_admitted (ok alternatives) =
    admitted (canonicalize_one_level (Term.pool (from_vec alternatives)))

abbrev pub pool_term : List Term → Option (Result Term EmptyPool)
pool_term alternatives = pool_admitted (non_empty alternatives)

abbrev pub binary : BinaryOp → Term → Term → Option Term
binary operator left right = canonicalize_one_level (Term.binary_operation operator left right)

abbrev pub unary : UnaryOp → Term → Option Term
unary operator argument = canonicalize_one_level (Term.unary_operation operator argument)

abbrev pub interval_to : Term → Term → Option Term
interval_to lower upper = canonicalize_one_level (Term.interval lower upper)

abbrev pub absolute_of : Term → Option Term
absolute_of inner = canonicalize_one_level (Term.absolute inner)

abbrev pub number_term : ℤ → Term
number_term value = Term.symbolic (Symbol.number value)

abbrev pub string_term : Text → Term
string_term text = Term.symbolic (Symbol.string text)

-- A term that calls of the doors build, one on the answers of others.
mutual
  pub data Built : Term → Type 0 where
    ground_symbol : (s : Symbol) → Built (Term.symbolic s)
    named_variable : (n : Name) → Built (variable_term n)
    anonymous_variable : Built anonymous_term
    function_built :
        (n : Name) (xs : List Term) (t : Term) → AllBuilt xs → function_term n xs ≡ some t → Built t
    tuple_built : (xs : List Term) (t : Term) → AllBuilt xs → tuple_term xs ≡ some t → Built t
    pool_built : (xs : List Term) (t : Term) → AllBuilt xs → pool_term xs ≡ some (ok t) → Built t
    binary_built :
        (op : BinaryOp) (l r t : Term) → Built l → Built r → binary op l r ≡ some t → Built t
    unary_built : (op : UnaryOp) (x t : Term) → Built x → unary op x ≡ some t → Built t
    interval_built : (l u t : Term) → Built l → Built u → interval_to l u ≡ some t → Built t
    absolute_built : (x t : Term) → Built x → absolute_of x ≡ some t → Built t

  pub data AllBuilt : List Term → Type 0 where
    none_built : AllBuilt []
    one_built : (x : Term) (xs : List Term) → Built x → AllBuilt xs → AllBuilt (x ∷ xs)

some-inj : {A : Type 0} (x y : A) → some x ≡ some y → x ≡ y
some-inj x y e = ground (arith, e)

admitted-inj : (x y : Term) → admitted (some x) ≡ admitted (some y) → x ≡ y
admitted-inj x y e = ground (arith, e)

-- A door's answer is canonical, where its parts are.
answered :
    (t u : Term) → PartsCanonical (into_parts t) → canonicalize_one_level t ≡ some u → IsCanonical u
answered t u h e =
    let (w, is_some, c) = canonicalize_one_level-IsCanonical t h in
    subst IsCanonical (some-inj w u (sym is_some ∙ e)) c

listed : (xs : List Term) → All IsCanonical xs → All IsCanonical (to_vec (from_vec xs))
listed xs h = subst (All IsCanonical) (sym (to_vec-from_vec xs)) h

-- A pool is refused exactly where it has no alternative; else the door answers a canonical term.
pub pool_term_lem :
    (xs : List Term)
    → All IsCanonical xs
    → ((xs ≡ []) × (pool_term xs ≡ some (err empty_pool)))
      ⊎ ((xs ≢ []) × ((t : Term) × (pool_term xs ≡ some (ok t)) × IsCanonical t))
pool_term_lem [] h = inl (refl, refl)
pool_term_lem (x ∷ xs) h =
    let (t, e, c) =
      canonicalize_one_level-IsCanonical (Term.pool (from_vec (x ∷ xs))) (listed (x ∷ xs) h) in
    inr (λ e. absurd (ground (arith, e)), (t, ap admitted e, c))

pooled :
    (xs : List Term) (t : Term) → All IsCanonical xs → pool_term xs ≡ some (ok t) → IsCanonical t
pooled xs t h e = elim (pool_term_lem xs h) [
  | inl (is_empty, refused) ↦ absurd (ground (arith, refused, e))
  | inr (has_one, (u, is_some, c)) ↦ subst IsCanonical (admitted-inj u t (sym is_some ∙ e)) c
]

unary_parts :
    (op : UnaryOp) (x : Term)
    → IsCanonical x
    → PartsCanonical (into_parts (Term.unary_operation op x))
unary_parts op x h = h

mutual
  Built-IsCanonical : (t : Term) → Built t → IsCanonical t
  Built-IsCanonical t (ground_symbol s) = tt
  Built-IsCanonical t (named_variable n) = tt
  Built-IsCanonical t anonymous_variable = tt
  Built-IsCanonical t (function_built n xs u h e) =
      answered (Term.function n (from_vec xs)) t (listed xs (AllBuilt-All xs h)) e
  Built-IsCanonical t (tuple_built xs u h e) =
      answered (Term.tuple (from_vec xs)) t (listed xs (AllBuilt-All xs h)) e
  Built-IsCanonical t (pool_built xs u h e) = pooled xs t (AllBuilt-All xs h) e
  Built-IsCanonical t (binary_built op l r u g h e) =
      answered (Term.binary_operation op l r) t (Built-IsCanonical l g, Built-IsCanonical r h) e
  Built-IsCanonical t (unary_built op x u h e) =
      answered (Term.unary_operation op x) t (Built-IsCanonical x h) e
  Built-IsCanonical t (interval_built l u v g h e) =
      answered (Term.interval l u) t (Built-IsCanonical l g, Built-IsCanonical u h) e
  Built-IsCanonical t (absolute_built x u h e) =
      answered (Term.absolute x) t (Built-IsCanonical x h) e

  AllBuilt-All : (xs : List Term) → AllBuilt xs → All IsCanonical xs
  AllBuilt-All xs none_built = tt
  AllBuilt-All xs (one_built y ys h g) = (Built-IsCanonical y h, AllBuilt-All ys g)

-- A term built through the doors is canonical, and `canonicalize` leaves it as it is.
pub canonicalize-Built : (t : Term) → Built t → IsCanonical t × (canonicalize t ≡ some t)
canonicalize-Built t h = (Built-IsCanonical t h, canonicalize-fixed t (Built-IsCanonical t h))

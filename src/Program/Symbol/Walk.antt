-- ===== src/Program/Symbol/Walk.antt =====
-- The loop of `cmp` over its work list computes the reference order, within as many rounds as the
-- left symbol has nodes.
use Prim.Native.Nat.Ordering.{eq}
use themelios.Prelude.{
  ℕ, zero, suc, ◌+◌, ◌≤◌, ◌<◌, Ordering, true, false, List, [], ◌∷◌, ◌++◌, none, some, ◌≡◌, refl,
  ap, ◌∙◌, sym, arith, inl, inr, Bool-cases, List-cases, append-nil, reverse, reverse-reverse,
}
use themelios.Prelude.Order.{then_with}
use themelios.Program.WorkList
use themelios.Program.WorkList.{WorkList, IsValid}
use themelios.Program.WorkList.Stack.{
  entries, top, below, empty-IsValid, entries-empty, pop_lem, extend_lem,
}
use themelios.Program.Symbol.{
  Symbol, Symbols, infimum, number, string, function, tuple, supremum, nil, cons, elements, to_list,
  arguments, argument_pairs, zip, is_eq, is_leaf, is_empty, node_order, cmp, cmp_walk,
}
use themelios.Program.Symbol.Order.{order, order_all, order_lem}

unfoldable mutual
  pub size : Symbol → ℕ
  size (function n xs s) = suc (size_all xs)
  size (tuple xs) = suc (size_all xs)
  size infimum = 1
  size (number x) = 1
  size (string x) = 1
  size supremum = 1

  pub size_all : Symbols → ℕ
  size_all nil = 0
  size_all (cons x xs) = size x + size_all xs

order_pairs : List (Symbol × Symbol) → Ordering
order_pairs [] = eq
order_pairs ((a, b) ∷ rest) = then_with (order a b) (order_pairs rest)

weight : List (Symbol × Symbol) → ℕ
weight [] = 0
weight ((a, b) ∷ rest) = size a + weight rest

order_pairs-append :
    (ps qs : List (Symbol × Symbol))
    → order_pairs (ps ++ qs) ≡ then_with (order_pairs ps) (order_pairs qs)
unfolding order_pairs
order_pairs-append [] qs = refl
order_pairs-append ((a, b) ∷ ps) qs = ground (arith, order_pairs-append ps qs)

order_pairs-zip : (xs ys : Symbols) → order_pairs (zip (to_list xs) (to_list ys)) ≡ order_all xs ys
unfolding order_pairs order
order_pairs-zip nil ys = refl
order_pairs-zip (cons x xs) nil = refl
order_pairs-zip (cons x xs) (cons y ys) = ground (arith, order_pairs-zip xs ys)

weight-append : (ps qs : List (Symbol × Symbol)) → weight (ps ++ qs) ≡ weight ps + weight qs
unfolding weight
weight-append [] qs = omega arith
weight-append ((a, b) ∷ ps) qs = omega (arith, weight-append ps qs)

weight-cons :
    (a b : Symbol) (rest : List (Symbol × Symbol)) → weight ((a, b) ∷ rest) ≡ size a + weight rest
unfolding weight
weight-cons a b rest = refl

order_pairs-nil : order_pairs [] ≡ eq
unfolding order_pairs
order_pairs-nil = refl

weight-zip : (xs ys : Symbols) → weight (zip (to_list xs) (to_list ys)) ≤ size_all xs
unfolding weight size
weight-zip nil ys = omega arith
weight-zip (cons x xs) nil = omega arith
weight-zip (cons x xs) (cons y ys) = omega (arith, weight-zip xs ys)

size-elements : (a : Symbol) → suc (size_all (elements a)) ≡ size a
unfolding size
size-elements (function n xs s) = refl
size-elements (tuple xs) = refl
size-elements infimum = refl
size-elements (number x) = refl
size-elements (string x) = refl
size-elements supremum = refl

-- What the loop's test makes of a pair.
order_tie :
    (a b : Symbol) → is_eq (node_order a b) ≡ true → order a b ≡ order_pairs (argument_pairs a b)
order_tie a b h = ground (arith, order_lem a b, order_pairs-zip (elements a) (elements b))

eq_of_tie : (a b : Symbol) → is_eq (node_order a b) ≡ true → node_order a b ≡ eq
eq_of_tie a b h = ground arith

order_differ : (a b : Symbol) → is_eq (node_order a b) ≡ false → order a b ≡ node_order a b
order_differ a b h = ground (arith, order_lem a b)

-- The work list after a tie holds the pairs of arguments, leftmost on top.
descend_lem :
    (w : WorkList (Symbol × Symbol)) (a b : Symbol) (rest : List (Symbol × Symbol))
    → IsValid w
    → entries w ≡ rest
    → let w' = WorkList.extend w (reverse (argument_pairs a b)) in
      IsValid w' × (entries w' ≡ argument_pairs a b ++ rest)
descend_lem w a b rest h e =
    let (valid, d) = extend_lem w (reverse (argument_pairs a b)) h in
    (valid, d ∙ rw (reverse-reverse, e))

walk_end :
    (fuel : ℕ) (w : WorkList (Symbol × Symbol))
    → (WorkList.pop w).1 ≡ none
    → cmp_walk (suc fuel) w ≡ some eq
unfolding cmp_walk
walk_end fuel w h = rw (h, cmp_walk)

walk_stop :
    (fuel : ℕ) (w : WorkList (Symbol × Symbol)) (a b : Symbol)
    → (WorkList.pop w).1 ≡ some (a, b)
    → is_eq (node_order a b) ≡ false
    → cmp_walk (suc fuel) w ≡ some (node_order a b)
unfolding cmp_walk
walk_stop fuel w a b h e = rw (h, e, cmp_walk)

walk_on :
    (fuel : ℕ) (w : WorkList (Symbol × Symbol)) (a b : Symbol)
    → (WorkList.pop w).1 ≡ some (a, b)
    → is_eq (node_order a b) ≡ true
    → cmp_walk (suc fuel) w
      ≡ cmp_walk fuel (WorkList.extend (WorkList.pop w).0 (reverse (argument_pairs a b)))
unfolding cmp_walk
walk_on fuel w a b h e = rw (h, e, cmp_walk)

pairs_stop :
    (a b : Symbol) (rest : List (Symbol × Symbol))
    → is_eq (node_order a b) ≡ false
    → order_pairs ((a, b) ∷ rest) ≡ node_order a b
unfolding order_pairs
pairs_stop a b rest h = ground (arith, order_differ a b)

pairs_on :
    (a b : Symbol) (rest : List (Symbol × Symbol))
    → is_eq (node_order a b) ≡ true
    → order_pairs ((a, b) ∷ rest) ≡ order_pairs (argument_pairs a b ++ rest)
unfolding order_pairs
pairs_on a b rest h = cc (order_tie a b h, order_pairs-append (argument_pairs a b) rest)

weight_on :
    (a b : Symbol) (rest : List (Symbol × Symbol))
    → weight (argument_pairs a b ++ rest) < weight ((a, b) ∷ rest)
weight_on a b rest = omega (
  arith,
  weight-append (argument_pairs a b) rest,
  weight-zip (elements a) (elements b),
  size-elements a,
  weight-cons a b rest,
)

-- With more fuel than the left symbols have nodes, the loop ends with the order of the pairs.
cmp_walk_lem :
    (fuel : ℕ) (w : WorkList (Symbol × Symbol)) (ps : List (Symbol × Symbol))
    → IsValid w
    → entries w ≡ ps
    → weight ps < fuel
    → cmp_walk fuel w ≡ some (order_pairs ps)
cmp_walk_lem zero w ps h e l = elim l [ ]
cmp_walk_lem (suc fuel) w [] h e l =
    let (_, answer, _) = pop_lem w h in
    walk_end fuel w (answer ∙ ap top e) ∙ ap some (sym order_pairs-nil)
cmp_walk_lem (suc fuel) w ((a, b) ∷ rest) h e l =
    let (valid, answer, left) = pop_lem w h in
    let first = answer ∙ ap top e in
    let (valid', down) = descend_lem (WorkList.pop w).0 a b rest valid (left ∙ ap below e) in
    elim (Bool-cases (is_eq (node_order a b))) [
      | inl tie ↦
          walk_on fuel w a b first tie
          ∙ cmp_walk_lem fuel _ (argument_pairs a b ++ rest) valid' down
              (omega (arith, weight_on a b rest))
          ∙ ap some (sym (pairs_on a b rest tie))
      | inr differ ↦ walk_stop fuel w a b first differ ∙ ap some (sym (pairs_stop a b rest differ))
    ]

leaf_pairs : (a b : Symbol) → is_leaf a ≡ true → order_pairs (argument_pairs a b) ≡ eq
leaf_pairs a b h = elim (List-cases (arguments a)) [
  | inl e ↦ rw e order_pairs-nil
  | inr (x, xs, e) ↦ absurd (cc (h, ap is_empty e))
]

first_walk :
    (fuel : ℕ) (a b : Symbol)
    → size a < fuel
    → cmp_walk fuel (WorkList.extend (WorkList.empty (a, b)) (reverse (argument_pairs a b)))
      ≡ some (order_pairs (argument_pairs a b))
first_walk fuel a b h =
    let (valid, down) =
      descend_lem (WorkList.empty (a, b)) a b [] (empty-IsValid (a, b)) (entries-empty (a, b)) in
    cmp_walk_lem fuel _ (argument_pairs a b) valid (down ∙ append-nil _)
      (omega (arith, weight-zip (elements a) (elements b), size-elements a))

-- `cmp` ends and answers the reference order, given more fuel than the left symbol has nodes.
pub cmp-eq-order : (fuel : ℕ) (a b : Symbol) → size a < fuel → cmp fuel a b ≡ some (order a b)
unfolding cmp
cmp-eq-order fuel a b h = elim (Bool-cases (is_eq (node_order a b))) [
  | inr differ ↦ rw (differ, order_differ a b differ)
  | inl tie ↦ elim (Bool-cases (is_leaf a)) [
    | inr inner ↦ rw (tie, inner, order_tie a b tie) (first_walk fuel a b h)
    | inl leaf ↦
        rw (tie, leaf, order_tie a b tie, leaf_pairs a b leaf) (ap some (eq_of_tie a b tie))
  ]
]

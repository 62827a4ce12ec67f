-- ===== src/Program/Symbol/Total.antt =====
-- The order on symbols is total and agrees with equality, as `BTreeSet<Symbol>` requires.
use Prim.Native.Nat.Ordering.{lt, eq}
use themelios.Prelude.{◌≡◌, refl, ap, arith, length}
use themelios.Prelude.Order.{Ord, IsTotalOrder, swap}
use themelios.Program.Symbol.{
  Symbol, Symbols, infimum, number, string, function, tuple, supremum, nil, cons, elements, to_list,
  Name, Sign,
}
use themelios.Program.Symbol.Order.{
  order, order_all, order_lem, key, node_refl, node_swap, key_of_node, node_trans, node_left,
  node_right,
}

mutual
  unfolding order

  order_refl : (a : Symbol) → order a a ≡ eq
  order_refl (function n xs s) = ground (arith, node_refl (function n xs s), all_refl xs)
  order_refl (tuple xs) = ground (arith, node_refl (tuple xs), all_refl xs)
  order_refl infimum = node_refl infimum
  order_refl (number x) = node_refl (number x)
  order_refl (string x) = node_refl (string x)
  order_refl supremum = node_refl supremum

  all_refl : (xs : Symbols) → order_all xs xs ≡ eq
  all_refl nil = refl
  all_refl (cons x xs) = ground (arith, order_refl x, all_refl xs)

all-nil : (ys : Symbols) → order_all ys nil ≡ eq
unfolding order
all-nil nil = refl
all-nil (cons y ys) = refl

leaf_swap : (a b : Symbol) → elements a ≡ nil → order b a ≡ swap (order a b)
unfolding order
leaf_swap a b e =
    ground (arith, order_lem a b, order_lem b a, node_swap a b, all-nil (elements b), e)

mutual
  unfolding order

  order-swap : (a b : Symbol) → order b a ≡ swap (order a b)
  order-swap (function n xs s) b = ground (
    arith,
    order_lem b (function n xs s),
    node_swap (function n xs s) b,
    all_swap xs (elements b),
  )
  order-swap (tuple xs) b =
      ground (arith, order_lem b (tuple xs), node_swap (tuple xs) b, all_swap xs (elements b))
  order-swap infimum b = leaf_swap infimum b refl
  order-swap (number x) b = leaf_swap (number x) b refl
  order-swap (string x) b = leaf_swap (string x) b refl
  order-swap supremum b = leaf_swap supremum b refl

  all_swap : (xs ys : Symbols) → order_all ys xs ≡ swap (order_all xs ys)
  all_swap nil ys = all-nil ys
  all_swap (cons x xs) nil = refl
  all_swap (cons x xs) (cons y ys) = ground (arith, order-swap x y, all_swap xs ys)

-- Equal keys tell the constructors apart, and fix all but the arguments.
record SameRoot (a b : Symbol) : Type 0 where
  key_eq : key a ≡ key b
  all_eq : order_all (elements a) (elements b) ≡ eq

same_root : (a b : Symbol) → order a b ≡ eq → SameRoot a b
same_root a b h = ground (arith, order_lem a b, key_of_node a b)

leaf_eq : (a b : Symbol) → elements a ≡ nil → key a ≡ key b → a ≡ b
unfolding key
leaf_eq infimum (function m (cons y ys) t) e h = cc
leaf_eq infimum (tuple (cons y ys)) e h = cc
leaf_eq infimum _ e h = ground arith
leaf_eq (number x) (function m (cons y ys) t) e h = cc
leaf_eq (number x) (tuple (cons y ys)) e h = cc
leaf_eq (number x) _ e h = ground arith
leaf_eq (string x) (function m (cons y ys) t) e h = cc
leaf_eq (string x) (tuple (cons y ys)) e h = cc
leaf_eq (string x) _ e h = ground arith
leaf_eq (function n nil s) (function m (cons y ys) t) e h = cc
leaf_eq (function n nil s) (tuple (cons y ys)) e h = cc
leaf_eq (function n nil s) _ e h = ground arith
leaf_eq (tuple nil) (function m (cons y ys) t) e h = cc
leaf_eq (tuple nil) (tuple (cons y ys)) e h = cc
leaf_eq (tuple nil) _ e h = ground arith
leaf_eq supremum (function m (cons y ys) t) e h = cc
leaf_eq supremum (tuple (cons y ys)) e h = cc
leaf_eq supremum _ e h = ground arith
leaf_eq (function n (cons x xs) s) b e h = cc
leaf_eq (tuple (cons x xs)) b e h = cc

-- Two roots with arguments tie only where both are functions, or both tuples, of one head.
function_root :
    (n : Name) (x : Symbol) (xs : Symbols) (s : Sign) (b : Symbol)
    → key (function n (cons x xs) s) ≡ key b
    → (ys : Symbols) × (b ≡ function n ys s) × (length (to_list (cons x xs)) ≡ length (to_list ys))
unfolding key
function_root n x xs s (function m nil t) h = absurd (cc h)
function_root n x xs s (function m (cons y ys) t) h = (cons y ys, ground arith, ground arith)
function_root n x xs s (tuple nil) h = absurd (cc h)
function_root n x xs s _ h = absurd (cc h)

tuple_root :
    (x : Symbol) (xs : Symbols) (b : Symbol)
    → key (tuple (cons x xs)) ≡ key b
    → (ys : Symbols) × (b ≡ tuple ys) × (length (to_list (cons x xs)) ≡ length (to_list ys))
unfolding key
tuple_root x xs (tuple nil) h = absurd (cc h)
tuple_root x xs (tuple (cons y ys)) h = (cons y ys, refl, ground arith)
tuple_root x xs (function m nil t) h = absurd (cc h)
tuple_root x xs _ h = absurd (cc h)

leaf_root : (a b : Symbol) → elements a ≡ nil → order a b ≡ eq → a ≡ b
leaf_root a b e h = leaf_eq a b e (same_root a b h).key_eq

mutual
  unfolding order

  eq_of_order : (a b : Symbol) → order a b ≡ eq → a ≡ b
  eq_of_order (function n (cons x xs) s) b h =
      let same = same_root (function n (cons x xs) s) b h in
      let (ys, e, l) = function_root n x xs s b same.key_eq in
      let all : order_all (cons x xs) ys ≡ eq = rw e at same.all_eq in
      rw e (ap (λ zs. function n zs s) (eq_of_all (cons x xs) ys l all))
  eq_of_order (tuple (cons x xs)) b h =
      let same = same_root (tuple (cons x xs)) b h in
      let (ys, e, l) = tuple_root x xs b same.key_eq in
      let all : order_all (cons x xs) ys ≡ eq = rw e at same.all_eq in
      rw e (ap tuple (eq_of_all (cons x xs) ys l all))
  eq_of_order (function n nil s) b h = leaf_root (function n nil s) b refl h
  eq_of_order (tuple nil) b h = leaf_root (tuple nil) b refl h
  eq_of_order infimum b h = leaf_root infimum b refl h
  eq_of_order (number x) b h = leaf_root (number x) b refl h
  eq_of_order (string x) b h = leaf_root (string x) b refl h
  eq_of_order supremum b h = leaf_root supremum b refl h

  eq_of_all :
      (xs ys : Symbols) → length (to_list xs) ≡ length (to_list ys) → order_all xs ys ≡ eq → xs ≡ ys
  eq_of_all nil nil e h = refl
  eq_of_all nil (cons y ys) e h = absurd (omega arith)
  eq_of_all (cons x xs) nil e h = absurd (omega arith)
  eq_of_all (cons x xs) (cons y ys) e h = ground (arith, eq_of_order x y, eq_of_all xs ys)

-- Where the roots decide, or tie and the arguments of the later pair decide.
roots_trans :
    (a b c : Symbol)
    → (order_all (elements a) (elements b) ≡ lt
        → order_all (elements b) (elements c) ≡ lt
        → order_all (elements a) (elements c) ≡ lt)
    → order a b ≡ lt
    → order b c ≡ lt
    → order a c ≡ lt
roots_trans a b c rest h k = ground (
  arith,
  order_lem a b,
  order_lem b c,
  order_lem a c,
  node_trans a b c,
  node_left a b c,
  node_right a b c,
  rest,
)

mutual
  unfolding order

  order_trans : (a b c : Symbol) → order a b ≡ lt → order b c ≡ lt → order a c ≡ lt
  order_trans (function n xs s) b c h k =
      roots_trans (function n xs s) b c (all_trans xs (elements b) (elements c)) h k
  order_trans (tuple xs) b c h k =
      roots_trans (tuple xs) b c (all_trans xs (elements b) (elements c)) h k
  order_trans infimum b c h k = roots_trans infimum b c (λ p. absurd (cc p)) h k
  order_trans (number x) b c h k = roots_trans (number x) b c (λ p. absurd (cc p)) h k
  order_trans (string x) b c h k = roots_trans (string x) b c (λ p. absurd (cc p)) h k
  order_trans supremum b c h k = roots_trans supremum b c (λ p. absurd (cc p)) h k

  all_trans :
      (xs ys zs : Symbols) → order_all xs ys ≡ lt → order_all ys zs ≡ lt → order_all xs zs ≡ lt
  all_trans nil ys zs h k = cc
  all_trans (cons x xs) nil zs h k = cc
  all_trans (cons x xs) (cons y ys) nil h k = cc
  all_trans (cons x xs) (cons y ys) (cons z zs) h k =
      ground (arith, order_trans x y z, all_trans xs ys zs, eq_of_order x y, eq_of_order y z)

-- The order of symbols is total and antisymmetric, and two symbols compare equal only where they
-- are the same symbol.
pub order-IsTotalOrder : IsTotalOrder order
order-IsTotalOrder = record {
  cmp_refl = order_refl;
  eq_of_cmp = eq_of_order;
  cmp_swap = order-swap;
  lt_trans = order_trans;
}

instance abbrev pub symbol_ord : Ord Symbol
symbol_ord = record { cmp = order; is_total = order-IsTotalOrder }

-- ===== src/Program/Symbol/Order.antt =====
-- A reference order on symbols, by recursion, and what it says of two roots: `order` compares the
-- roots and then the arguments from the left.
use Prim.Native.Nat.Ordering.{lt, eq}
use themelios.Prelude.{ℕ, Ordering, [], Option, none, ◌≡◌, refl, sym, ◌∙◌, arith}
use themelios.Prelude.Int.{ℤ, pos}
use themelios.Prelude.Order.{
  then_with, swap, compare_list, compare_pair, compare_pair-IsTotalOrder, nat_ord, int_ord,
  list_ord, option_ord, pair_ord,
}
use themelios.Program.Symbol.{
  Sign, positive, Symbol, Symbols, infimum, number, string, function, tuple, supremum, nil, cons,
  elements, sign_ord, order_rank, head_key, node_order, Text, Name,
}

unfoldable mutual
  pub order : Symbol → Symbol → Ordering
  order (function n xs s) b = then_with (node_order (function n xs s) b) (order_all xs (elements b))
  order (tuple xs) b = then_with (node_order (tuple xs) b) (order_all xs (elements b))
  order infimum b = node_order infimum b
  order (number x) b = node_order (number x) b
  order (string x) b = node_order (string x) b
  order supremum b = node_order supremum b

  pub order_all : Symbols → Symbols → Ordering
  order_all nil ys = eq
  order_all (cons x xs) nil = eq
  order_all (cons x xs) (cons y ys) = then_with (order x y) (order_all xs ys)

-- One key for every kind of root: two roots compare as their keys do.
abbrev pub Key : Type 0
Key = ℕ × (ℤ × (Text × (Sign × (ℕ × Option Name))))

abbrev compare_key : Key → Key → Ordering
compare_key = compare_pair

no_head : Sign × (ℕ × Option Name)
no_head = (positive, (0, none))

unfoldable pub key : Symbol → Key
unfolding order_rank head_key no_head
key infimum = (0, (pos 0, ([], no_head)))
key (number x) = (1, (x, ([], no_head)))
key (string x) = (3, (pos 0, (x, no_head)))
key (function n xs s) = (order_rank (function n xs s), (pos 0, ([], head_key (function n xs s))))
key (tuple xs) = (order_rank (tuple xs), (pos 0, ([], head_key (tuple xs))))
key supremum = (5, (pos 0, ([], no_head)))

node_order-key : (a b : Symbol) → node_order a b ≡ compare_key (key a) (key b)
unfolding node_order key compare_list
node_order-key infimum (function m nil t) = ground arith
node_order-key infimum (tuple nil) = ground arith
node_order-key infimum _ = ground arith
node_order-key (number x) (function m nil t) = ground arith
node_order-key (number x) (tuple nil) = ground arith
node_order-key (number x) _ = ground arith
node_order-key (string x) (function m nil t) = ground arith
node_order-key (string x) (tuple nil) = ground arith
node_order-key (string x) _ = ground arith
node_order-key (function n nil s) (function m nil t) = ground arith
node_order-key (function n nil s) (tuple nil) = ground arith
node_order-key (function n nil s) _ = ground arith
node_order-key (function n (cons x xs) s) (function m nil t) = ground arith
node_order-key (function n (cons x xs) s) (tuple nil) = ground arith
node_order-key (function n (cons x xs) s) _ = ground arith
node_order-key (tuple nil) (function m nil t) = ground arith
node_order-key (tuple nil) (tuple nil) = ground arith
node_order-key (tuple nil) _ = ground arith
node_order-key (tuple (cons x xs)) (function m nil t) = ground arith
node_order-key (tuple (cons x xs)) (tuple nil) = ground arith
node_order-key (tuple (cons x xs)) _ = ground arith
node_order-key supremum (function m nil t) = ground arith
node_order-key supremum (tuple nil) = ground arith
node_order-key supremum _ = ground arith

pub node_refl : (a : Symbol) → node_order a a ≡ eq
node_refl a = node_order-key a a ∙ compare_pair-IsTotalOrder.cmp_refl (key a)

pub node_swap : (a b : Symbol) → node_order b a ≡ swap (node_order a b)
node_swap a b =
    cc (node_order-key a b, node_order-key b a, compare_pair-IsTotalOrder.cmp_swap (key a) (key b))

pub key_of_node : (a b : Symbol) → node_order a b ≡ eq → key a ≡ key b
key_of_node a b h =
    compare_pair-IsTotalOrder.eq_of_cmp (key a) (key b) (sym (node_order-key a b) ∙ h)

pub node_trans : (a b c : Symbol) → node_order a b ≡ lt → node_order b c ≡ lt → node_order a c ≡ lt
node_trans a b c h k =
    node_order-key a c
    ∙ compare_pair-IsTotalOrder.lt_trans (key a) (key b) (key c) (sym (node_order-key a b) ∙ h)
        (sym (node_order-key b c) ∙ k)

-- A root that ties with `b` may stand for it.
pub node_left : (a b c : Symbol) → node_order a b ≡ eq → node_order a c ≡ node_order b c
node_left a b c h = cc (node_order-key a c, node_order-key b c, key_of_node a b h)

pub node_right : (a b c : Symbol) → node_order b c ≡ eq → node_order a b ≡ node_order a c
node_right a b c h = cc (node_order-key a b, node_order-key a c, key_of_node b c h)

then_with-eq : (o : Ordering) → then_with o eq ≡ o
then_with-eq o = ground arith

-- The roots first, then the arguments from the left.
pub order_lem :
    (a b : Symbol) → order a b ≡ then_with (node_order a b) (order_all (elements a) (elements b))
unfolding order
order_lem (function n xs s) b = refl
order_lem (tuple xs) b = refl
order_lem infimum b = sym (then_with-eq _)
order_lem (number x) b = sym (then_with-eq _)
order_lem (string x) b = sym (then_with-eq _)
order_lem supremum b = sym (then_with-eq _)

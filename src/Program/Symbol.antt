-- ===== src/Program/Symbol.antt =====
-- Ground symbols and their order (crates/themelios-program/src/symbol.rs). A Rust `String` is the
-- list of its bytes, by which it is compared, and a `Vec<Symbol>` is `Symbols`.
pub mod Order
pub mod Total
pub mod Walk
use Prim.Native.Nat.Ordering.{lt, eq, gt}
use themelios.Prelude.{
  ℕ, zero, suc, ◌+◌, ◌%◌, ◌^◌, compare, Ordering, Bool, true, false, ◌||◌, not, if◌then◌else◌, List,
  [], ◌∷◌, Option, none, some, arith, length, reverse,
}
use themelios.Prelude.Int.{ℤ, compare_ℤ}
use themelios.Prelude.Order.{
  Ord, IsTotalOrder, then_with, compare_list, compare_pair, nat_ord, list_ord, option_ord, pair_ord,
}
use themelios.Program.WorkList
use themelios.Program.WorkList.{WorkList}

pub data Sign : Type 0 where
  positive negative : Sign

-- The derived order: `Positive` before `Negative`.
abbrev pub compare_sign : Sign → Sign → Ordering
compare_sign positive positive = eq
compare_sign positive negative = lt
compare_sign negative positive = gt
compare_sign negative negative = eq

pub compare_sign-IsTotalOrder : IsTotalOrder compare_sign
compare_sign-IsTotalOrder = ground arith

instance abbrev pub sign_ord : Ord Sign
sign_ord = record { cmp = compare_sign; is_total = compare_sign-IsTotalOrder }

abbrev pub Text : Type 0
Text = List ℕ

abbrev pub Name : Type 0
Name = Text

mutual
  pub data Symbol : Type 0 where
    infimum : Symbol
    number : ℤ → Symbol
    string : Text → Symbol
    function : Name → Symbols → Sign → Symbol
    tuple : Symbols → Symbol
    supremum : Symbol

  pub data Symbols : Type 0 where
    nil : Symbols
    cons : Symbol → Symbols → Symbols

abbrev pub to_list : Symbols → List Symbol
to_list nil = []
to_list (cons x xs) = x ∷ to_list xs

abbrev pub from_list : List Symbol → Symbols
from_list [] = nil
from_list (x ∷ xs) = cons x (from_list xs)

abbrev pub elements : Symbol → Symbols
elements (function _ xs _) = xs
elements (tuple xs) = xs
elements _ = nil

abbrev pub arguments : Symbol → List Symbol
arguments s = to_list (elements s)

abbrev pub name : Symbol → Option Name
name (function n _ _) = some n
name _ = none

pub record Signature : Type 0 where
  pub sign : Sign
  pub name : Name
  pub arity : ℕ

-- `arguments.len() as u32`: the cast keeps the low 32 bits.
abbrev pub signature : Symbol → Option Signature
signature (function n xs s) =
    some (record { sign = s; name = n; arity = length (to_list xs) % 2 ^ 32 })
signature _ = none

pub order_rank : Symbol → ℕ
order_rank infimum = 0
order_rank (number _) = 1
order_rank (function _ nil _) = 2
order_rank (tuple nil) = 2
order_rank (string _) = 3
order_rank (function _ (cons _ _) _) = 4
order_rank (tuple (cons _ _)) = 4
order_rank supremum = 5

pub head_sign : Symbol → Sign
head_sign (function _ _ s) = s
head_sign _ = positive

pub head_key : Symbol → Sign × (ℕ × Option Name)
unfolding head_sign
head_key s = (head_sign s, (length (arguments s), name s))

-- The derived order of `(Sign, usize, Option<&Name>)`.
abbrev pub compare_head : Sign × (ℕ × Option Name) → Sign × (ℕ × Option Name) → Ordering
compare_head = compare_pair

-- The second half of `node_order`: the leaf values, or the heads of two function-likes.
pub leaf_order : Symbol → Symbol → Ordering
unfolding head_key
leaf_order (number x) (number y) = compare_ℤ x y
leaf_order (string x) (string y) = compare_list compare x y
leaf_order (function n xs s) (function m ys t) =
    compare_head (head_key (function n xs s)) (head_key (function m ys t))
leaf_order (function n xs s) (tuple ys) =
    compare_head (head_key (function n xs s)) (head_key (tuple ys))
leaf_order (tuple xs) (function m ys t) =
    compare_head (head_key (tuple xs)) (head_key (function m ys t))
leaf_order (tuple xs) (tuple ys) = compare_head (head_key (tuple xs)) (head_key (tuple ys))
leaf_order _ _ = eq

pub node_order : Symbol → Symbol → Ordering
unfolding order_rank leaf_order
node_order a b = then_with (compare (order_rank a) (order_rank b)) (leaf_order a b)

abbrev pub is_eq : Ordering → Bool
is_eq eq = true
is_eq _ = false

-- `iter().zip(…)` of the two argument slices.
abbrev pub zip : List Symbol → List Symbol → List (Symbol × Symbol)
zip [] ys = []
zip (x ∷ xs) [] = []
zip (x ∷ xs) (y ∷ ys) = (x, y) ∷ zip xs ys

abbrev pub argument_pairs : Symbol → Symbol → List (Symbol × Symbol)
argument_pairs a b = zip (arguments a) (arguments b)

-- The `while let` loop of `cmp`. `none` says that the fuel ran out; `Walk` shows that it does not.
pub cmp_walk : ℕ → WorkList (Symbol × Symbol) → Option Ordering
cmp_walk zero pairs = none
cmp_walk (suc fuel) pairs = elim (WorkList.pop pairs).1 [
  | none ↦ some eq
  | some (a, b) ↦ elim (is_eq (node_order a b)) [
    | false ↦ some (node_order a b)
    | true ↦ cmp_walk fuel (WorkList.extend (WorkList.pop pairs).0 (reverse (argument_pairs a b)))
  ]
]

abbrev pub is_empty : List Symbol → Bool
is_empty [] = true
is_empty (_ ∷ _) = false

abbrev pub is_leaf : Symbol → Bool
is_leaf s = is_empty (arguments s)

-- `Ord::cmp`, with the fuel for its loop.
pub cmp : ℕ → Symbol → Symbol → Option Ordering
cmp fuel a b =
    let walk =
      cmp_walk fuel (WorkList.extend (WorkList.empty (a, b)) (reverse (argument_pairs a b))) in
    if not (is_eq (node_order a b)) || is_leaf a then some (node_order a b) else walk

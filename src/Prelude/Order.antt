-- ===== src/Prelude/Order.antt =====
-- Rust's `Ord`: a comparison, the laws of a total order that agrees with `≡`, and the ways in which
-- the program builds one comparison from others.
use Prim.Native.Nat.{ℕ, compare, Ordering}
use Prim.Native.Nat.Ordering.{lt, eq, gt}
use mathlib.Core.Path.{◌≡◌, refl}
use mathlib.Core.List.{List, [], ◌∷◌}
use mathlib.Core.Option.{Option, none, some}
use native.Mathlib.Omega.{arith}
use themelios.Prelude.Int.{ℤ, compare_ℤ}

abbrev pub swap : Ordering → Ordering
swap lt = gt
swap eq = eq
swap gt = lt

-- `Ordering::then_with`.
abbrev pub then_with : Ordering → Ordering → Ordering
then_with lt o = lt
then_with eq o = o
then_with gt o = gt

pub record IsTotalOrder {ℓ} {A : Type ℓ} (cmp : A → A → Ordering) : Type ℓ where
  pub cmp_refl : (a : A) → cmp a a ≡ eq
  pub eq_of_cmp : (a b : A) → cmp a b ≡ eq → a ≡ b
  pub cmp_swap : (a b : A) → cmp b a ≡ swap (cmp a b)
  pub lt_trans : (a b c : A) → cmp a b ≡ lt → cmp b c ≡ lt → cmp a c ≡ lt

pub compare-IsTotalOrder : IsTotalOrder compare
compare-IsTotalOrder = ground arith

pub compare_ℤ-IsTotalOrder : IsTotalOrder compare_ℤ
compare_ℤ-IsTotalOrder = ground arith

-- Slices compare lexicographically, a prefix before what it begins.
module _ {ℓ} {A : Type ℓ} (cmp : A → A → Ordering) where
  unfoldable pub compare_list : List A → List A → Ordering
  compare_list [] [] = eq
  compare_list [] (_ ∷ _) = lt
  compare_list (_ ∷ _) [] = gt
  compare_list (a ∷ as') (b ∷ bs) = then_with (cmp a b) (compare_list as' bs)

pub record Ord {ℓ} (A : Type ℓ) : Type ℓ where
  pub cmp : A → A → Ordering
  pub is_total : IsTotalOrder cmp
  pub open is_total use *

instance abbrev pub nat_ord : Ord ℕ
nat_ord = record { cmp = compare; is_total = compare-IsTotalOrder }

instance abbrev pub int_ord : Ord ℤ
int_ord = record { cmp = compare_ℤ; is_total = compare_ℤ-IsTotalOrder }

module _ {ℓ} {A : Type ℓ} ⦃o : Ord A⦄ where
  list_refl : (xs : List A) → compare_list o.cmp xs xs ≡ eq
  unfolding compare_list
  list_refl [] = refl
  list_refl (x ∷ xs) = ground (arith, o.cmp_refl x, list_refl xs)

  list_eq : (xs ys : List A) → compare_list o.cmp xs ys ≡ eq → xs ≡ ys
  unfolding compare_list
  list_eq [] [] h = refl
  list_eq [] (_ ∷ _) h = cc
  list_eq (_ ∷ _) [] h = cc
  list_eq (x ∷ xs) (y ∷ ys) h = ground (arith, o.eq_of_cmp x y, list_eq xs ys)

  list_swap : (xs ys : List A) → compare_list o.cmp ys xs ≡ swap (compare_list o.cmp xs ys)
  unfolding compare_list
  list_swap [] [] = refl
  list_swap [] (_ ∷ _) = refl
  list_swap (_ ∷ _) [] = refl
  list_swap (x ∷ xs) (y ∷ ys) = ground (arith, o.cmp_swap x y, list_swap xs ys)

  list_trans :
      (xs ys zs : List A)
      → compare_list o.cmp xs ys ≡ lt
      → compare_list o.cmp ys zs ≡ lt
      → compare_list o.cmp xs zs ≡ lt
  unfolding compare_list
  list_trans [] [] zs h k = cc
  list_trans [] (y ∷ ys) [] h k = cc
  list_trans [] (y ∷ ys) (z ∷ zs) h k = refl
  list_trans (x ∷ xs) [] zs h k = cc
  list_trans (x ∷ xs) (y ∷ ys) [] h k = cc
  list_trans (x ∷ xs) (y ∷ ys) (z ∷ zs) h k =
      ground (arith, o.eq_of_cmp x y, o.eq_of_cmp y z, o.lt_trans x y z, list_trans xs ys zs)

  pub compare_list-IsTotalOrder : IsTotalOrder (compare_list o.cmp)
  compare_list-IsTotalOrder = record {
    cmp_refl = list_refl;
    eq_of_cmp = list_eq;
    cmp_swap = list_swap;
    lt_trans = list_trans;
  }

-- The derived `Ord` of a tuple, and of an `Option`, whose `None` comes first.
module _ {ℓ κ} {A : Type ℓ} {B : Type κ} ⦃o : Ord A⦄ ⦃p : Ord B⦄ where
  abbrev pub compare_pair : A × B → A × B → Ordering
  compare_pair x y = then_with (o.cmp x.0 y.0) (p.cmp x.1 y.1)

  pub compare_pair-IsTotalOrder : IsTotalOrder {A = A × B} compare_pair
  compare_pair-IsTotalOrder = record {
    cmp_refl = λ x. ground (arith, o.cmp_refl x.0, p.cmp_refl x.1);
    eq_of_cmp = λ x y. ground (arith, o.eq_of_cmp x.0 y.0, p.eq_of_cmp x.1 y.1);
    cmp_swap = λ x y. ground (arith, o.cmp_swap x.0 y.0, p.cmp_swap x.1 y.1);
    lt_trans = λ x y z. ground (
      arith,
      o.eq_of_cmp x.0 y.0,
      o.eq_of_cmp y.0 z.0,
      o.lt_trans x.0 y.0 z.0,
      p.lt_trans x.1 y.1 z.1,
    );
  }

  instance abbrev pub pair_ord : Ord (A × B)
  pair_ord = record { cmp = compare_pair; is_total = compare_pair-IsTotalOrder }

module _ {ℓ} {A : Type ℓ} ⦃o : Ord A⦄ where
  abbrev pub compare_option : Option A → Option A → Ordering
  compare_option none none = eq
  compare_option none (some _) = lt
  compare_option (some _) none = gt
  compare_option (some a) (some b) = o.cmp a b

  pub compare_option-IsTotalOrder : IsTotalOrder compare_option
  compare_option-IsTotalOrder = record {
    cmp_refl = elim [ none ↦ refl | some a ↦ o.cmp_refl a ];
    eq_of_cmp = λ x y. grind (arith, o.eq_of_cmp);
    cmp_swap = elim [
      | none ↦ elim [ none ↦ refl | some b ↦ refl ]
      | some a ↦ elim [ none ↦ refl | some b ↦ o.cmp_swap a b ]
    ];
    lt_trans = λ x y z. grind (arith, o.lt_trans);
  }

  instance abbrev pub option_ord : Ord (Option A)
  option_ord = record { cmp = compare_option; is_total = compare_option-IsTotalOrder }

  instance abbrev pub list_ord : Ord (List A)
  list_ord = record { cmp = compare_list o.cmp; is_total = compare_list-IsTotalOrder }

-- ===== src/Prelude/Sets.antt =====
-- `BTreeSet`: the elements in ascending order, without repeats. The program reads a set by
-- `contains`, and two sets in order with the same elements are equal.
use Prim.Native.Nat.Ordering.{lt, eq, gt}
use mathlib.Core.Path.{◌≡◌, refl, sym, ap₂, subst}
use mathlib.Core.Logic.{◌↔◌, inl, inr}
use mathlib.Core.Bool.{Bool, true, false, ◌&&◌, ◌||◌}
use mathlib.Core.List.{List, [], ◌∷◌}
use native.Mathlib.Omega.{arith}
use themelios.Prelude.Tests.{if◌then◌else◌, Bool-cases}
use themelios.Prelude.Lists.{All}
use themelios.Prelude.Order.{Ord}

module _ {A : Type 0} ⦃o : Ord A⦄ where
  unfoldable pub contains : A → List A → Bool
  contains a [] = false
  contains a (x ∷ xs) = elim (o.cmp a x) [ eq ↦ true | _ ↦ contains a xs ]

  unfoldable pub insert : A → List A → List A
  insert a [] = a ∷ []
  insert a (x ∷ xs) = elim (o.cmp a x) [ lt ↦ a ∷ x ∷ xs | eq ↦ x ∷ xs | gt ↦ x ∷ insert a xs ]

  -- `extend`, and `union` and `collect` by way of it.
  unfoldable pub extend : List A → List A → List A
  extend s [] = s
  extend s (x ∷ xs) = extend (insert x s) xs

  unfoldable pub retain : (A → Bool) → List A → List A
  retain p [] = []
  retain p (x ∷ xs) = let rest = retain p xs in if p x then x ∷ rest else rest

  unfoldable pub is_subset : List A → List A → Bool
  is_subset [] t = true
  is_subset (x ∷ xs) t = contains x t && is_subset xs t

  abbrev pub Above : A → List A → Type 0
  Above a = All (λ x. o.cmp a x ≡ lt)

  abbrev pub IsAscending : List A → Type 0
  IsAscending [] = Unit
  IsAscending (x ∷ xs) = Above x xs × IsAscending xs

  pub contains-insert :
      (a b : A) (s : List A)
      → contains b (insert a s) ≡ (elim (o.cmp b a) [ eq ↦ true | _ ↦ contains b s ])
  unfolding contains insert
  contains-insert a b [] = refl
  contains-insert a b (x ∷ xs) =
      ground (arith, contains-insert a b xs, o.eq_of_cmp a x, o.eq_of_cmp b a, o.eq_of_cmp b x)

  pub contains-insert_or :
      (a b : A) (s : List A) → contains b (insert a s) ≡ (contains b (a ∷ []) || contains b s)
  unfolding contains
  contains-insert_or a b s = ground (arith, contains-insert a b s)

  pub contains-extend :
      (s xs : List A) (b : A) → contains b (extend s xs) ≡ (contains b s || contains b xs)
  unfolding extend contains
  contains-extend s [] b = ground arith
  contains-extend s (x ∷ xs) b =
      ground (arith, contains-extend (insert x s) xs b, contains-insert x b s)

  pub contains-retain :
      (p : A → Bool) (s : List A) (b : A) → contains b (retain p s) ≡ (contains b s && p b)
  unfolding retain contains
  contains-retain p [] b = refl
  contains-retain p (x ∷ xs) b = elim (Bool-cases (p x)) [
    | inl e ↦ ground (arith, contains-retain p xs b, o.eq_of_cmp b x)
    | inr e ↦ ground (arith, contains-retain p xs b, o.eq_of_cmp b x)
  ]

  Above-trans : (a b : A) (s : List A) → o.cmp a b ≡ lt → Above b s → Above a s
  Above-trans a b [] h k = tt
  Above-trans a b (x ∷ xs) h k = (o.lt_trans a b x h k.0, Above-trans a b xs h k.1)

  Above-insert : (a b : A) (s : List A) → o.cmp a b ≡ lt → Above a s → Above a (insert b s)
  unfolding insert
  Above-insert a b [] h k = (h, tt)
  Above-insert a b (x ∷ xs) h k = ground (arith, Above-insert a b xs h)

  pub insert-IsAscending : (a : A) (s : List A) → IsAscending s → IsAscending (insert a s)
  unfolding insert
  insert-IsAscending a [] h = (tt, tt)
  insert-IsAscending a (x ∷ xs) h =
      ground
        (arith, insert-IsAscending a xs, Above-trans a x xs, Above-insert x a xs, o.cmp_swap a x)

  pub extend-IsAscending : (s xs : List A) → IsAscending s → IsAscending (extend s xs)
  unfolding extend
  extend-IsAscending s [] h = h
  extend-IsAscending s (x ∷ xs) h = extend-IsAscending (insert x s) xs (insert-IsAscending x s h)

  Above-retain : (p : A → Bool) (a : A) (s : List A) → Above a s → Above a (retain p s)
  unfolding retain
  Above-retain p a [] h = tt
  Above-retain p a (x ∷ xs) h = ground (arith, Above-retain p a xs h.1)

  pub retain-IsAscending : (p : A → Bool) (s : List A) → IsAscending s → IsAscending (retain p s)
  unfolding retain
  retain-IsAscending p [] h = tt
  retain-IsAscending p (x ∷ xs) h =
      ground (arith, retain-IsAscending p xs h.1, Above-retain p x xs h.0)

  -- What stands above every element of a set is not in it.
  contains-Above : (a : A) (s : List A) → Above a s → contains a s ≡ false
  unfolding contains
  contains-Above a [] h = refl
  contains-Above a (x ∷ xs) h = ground (arith, contains-Above a xs h.1)

  pub contains_self : (a : A) (s : List A) → contains a (a ∷ s) ≡ true
  unfolding contains
  contains_self a s = ground (arith, o.cmp_refl a)

  not_empty : (a : A) (s : List A) → ¬ (contains a (a ∷ s) ≡ contains a [])
  unfolding contains
  not_empty a s h = cc (contains_self a s, h)

  same_head :
      (x y : A) (xs ys : List A)
      → IsAscending (x ∷ xs)
      → IsAscending (y ∷ ys)
      → ((a : A) → contains a (x ∷ xs) ≡ contains a (y ∷ ys))
      → x ≡ y
  same_head x y xs ys hs ht e = ground (
    arith,
    e x,
    e y,
    o.eq_of_cmp x y,
    o.cmp_swap x y,
    contains_self x xs,
    contains_self y ys,
    Above-trans x y ys,
    Above-trans y x xs,
    contains-Above x (y ∷ ys),
    contains-Above y (x ∷ xs),
  )

  same_tail :
      (x a : A) (xs ys : List A)
      → IsAscending (x ∷ xs)
      → IsAscending (x ∷ ys)
      → contains a (x ∷ xs) ≡ contains a (x ∷ ys)
      → contains a xs ≡ contains a ys
  unfolding contains
  same_tail x a xs ys hs ht e =
      ground (arith, o.eq_of_cmp a x, contains-Above x xs, contains-Above x ys)

  -- Sets in order are equal where `contains` reads them alike.
  pub set_ext :
      (s t : List A)
      → IsAscending s
      → IsAscending t
      → ((a : A) → contains a s ≡ contains a t)
      → s ≡ t
  set_ext [] [] hs ht e = refl
  set_ext [] (y ∷ ys) hs ht e = absurd (not_empty y ys (sym (e y)))
  set_ext (x ∷ xs) [] hs ht e = absurd (not_empty x xs (e x))
  set_ext (x ∷ xs) (y ∷ ys) hs ht e =
      let p = same_head x y xs ys hs ht e in
      let ht' : IsAscending (x ∷ ys) = subst (λ z. IsAscending (z ∷ ys)) (sym p) ht in
      let e' : (a : A) → contains a (x ∷ xs) ≡ contains a (x ∷ ys) =
        subst (λ z. (a : A) → contains a (x ∷ xs) ≡ contains a (z ∷ ys)) (sym p) e in
      ap₂ ◌∷◌ p (set_ext xs ys hs.1 ht.1 (λ a. same_tail x a xs ys hs ht' (e' a)))

  is_subset_step :
      (x : A) (xs t : List A)
      → is_subset (x ∷ xs) t ≡ true
      → (contains x t ≡ true) × (is_subset xs t ≡ true)
  unfolding is_subset
  is_subset_step x xs t h = ground arith

  contains_tail : (a x : A) (xs : List A) → contains a xs ≡ true → contains a (x ∷ xs) ≡ true
  unfolding contains
  contains_tail a x xs h = ground arith

  is_subset_sound :
      (s t : List A) → is_subset s t ≡ true → (a : A) → contains a s ≡ true → contains a t ≡ true
  unfolding is_subset contains
  is_subset_sound [] t h a m = cc
  is_subset_sound (x ∷ xs) t h a m = ground (
    arith,
    is_subset_sound xs t,
    is_subset_step x xs t h,
    o.eq_of_cmp a x,
    is_subset_sound xs t (is_subset_step x xs t h).1 a,
  )

  is_subset_complete :
      (s t : List A) → ((a : A) → contains a s ≡ true → contains a t ≡ true) → is_subset s t ≡ true
  unfolding is_subset
  is_subset_complete [] t h = refl
  is_subset_complete (x ∷ xs) t h =
      let rest = is_subset_complete xs t (λ a m. h a (contains_tail a x xs m)) in
      rw (h x (contains_self x xs)) rest

  pub is_subset_iff :
      (s t : List A)
      → (is_subset s t ≡ true) ↔ ((a : A) → contains a s ≡ true → contains a t ≡ true)
  is_subset_iff s t = (is_subset_sound s t, is_subset_complete s t)

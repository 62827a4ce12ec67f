-- ===== src/Program/Unify/Nodes/Merge.antt =====
-- Two classes of nodes merged.
use Prim.Native.Nat.Ordering.{lt, eq, gt}
use themelios.Prelude.{
  ℕ, zero, suc, ◌+◌, ◌<◌, ◌≡◌, ◌≢◌, refl, sym, ap, subst, ◌∙◌, fun_ext, true, false, Bool-cases,
  if◌then◌else◌, ◌||◌, ◌==◌, List, [], ◌∷◌, Option, some, ◌⊎◌, inl, inr, length, length-set,
  get_elem?, set, get_elem?-set_self, get_elem?-set_ne, compare, Ordering, arith,
}
use themelios.Program.Unify.Nodes.{Nodes, link, union, by_rank}
use themelios.Program.Unify.Nodes.Classes.{Placed, AreClasses}

pub unequal : (x y : ℕ) → x ≢ y → (x == y) ≡ false
unequal x y other = ground (arith, other)

-- The class of `child` renamed, and its nodes put above `root`.
abbrev pub renamed : ℕ → ℕ → ℕ → ℕ
renamed child root r = if r == child then root else r

abbrev pub raised : (ℕ → ℕ) → ℕ → ℕ → ℕ → ℕ → ℕ
raised height child root r x = if r == child then height x + suc (height root) else height x

module _ (rep height : ℕ → ℕ) (child root : ℕ) (is_child : rep child ≡ child)
    (is_root : rep root ≡ root) (apart : child ≢ root) where
  abbrev pub new_rep : ℕ → ℕ
  new_rep x = renamed child root (rep x)

  abbrev pub new_height : ℕ → ℕ
  new_height x = raised height child root (rep x) x

  child_test : (child == child) ≡ true
  child_test = ground arith

  root_test : (root == child) ≡ false
  root_test = ground (arith, apart)

  child_rep : new_rep child ≡ root
  child_rep = ap (renamed child root) is_child ∙ rw child_test refl

  root_rep : new_rep root ≡ root
  root_rep = ap (renamed child root) is_root ∙ rw root_test refl

  pub child_height : new_height child ≡ height child + suc (height root)
  child_height = ap (λ r. raised height child root r child) is_child ∙ rw child_test refl

  pub root_height : new_height root ≡ height root
  root_height = ap (λ r. raised height child root r root) is_root ∙ rw root_test refl

  lower_still : (p x : ℕ) → rep p ≡ rep x → height p < height x → new_height p < new_height x
  lower_still p x same lower =
      subst (λ r. raised height child root r p < new_height x) (sym same)
        (elim (Bool-cases (rep x == child)) [
          | inl e ↦ rw e (omega (arith, lower))
          | inr e ↦ rw e lower
        ])

  kept_root : (x : ℕ) → x ≢ child → rep x ≡ x → new_rep x ≡ x
  kept_root x other e = ap (renamed child root) e ∙ rw (unequal x child other) refl

  pub set-merges :
      (parents : List ℕ)
      → AreClasses parents rep height
      → child < length parents
      → root < length parents
      → AreClasses (set parents child root) new_rep new_height
  set-merges parents h child_in root_in x x_in = elim (Bool-cases (x == child)) [
    | inl same ↦
        let here : x ≡ child = ground (arith, same) in
        subst (Placed (set parents child root) new_rep new_height) (sym here) (
          root,
          get_elem?-set_self parents child root child_in,
          ground (arith, root_in, length-set parents child root),
          root_rep ∙ sym child_rep,
          inr (omega (arith, root_height, child_height)),
        )
    | inr other ↦
        let not_child : child ≢ x = λ e. ground (arith, other, e) in
        let (q, at, q_in, q_same, kind) =
          h x (ground (arith, x_in, length-set parents child root)) in
        (
          q,
          get_elem?-set_ne parents child x root not_child ∙ at,
          ground (arith, q_in, length-set parents child root),
          ap (renamed child root) q_same,
          elim kind [
            | inl (e, r) ↦ inl (e, kept_root x (λ e. not_child (sym e)) r)
            | inr lower ↦ inr (lower_still q x q_same lower)
          ],
        )
  ]

-- The representative of a node once the classes of `left` and `right` are one, that `winner` represents.
abbrev pub joined : (ℕ → ℕ) → ℕ → ℕ → ℕ → ℕ → ℕ
joined rep left right winner x = if rep x == left || rep x == right then winner else rep x

renamed-right :
    (left right r : ℕ) → renamed left right r ≡ (if r == left || r == right then right else r)
renamed-right left right r = ground arith

renamed-left :
    (left right r : ℕ) → renamed right left r ≡ (if r == left || r == right then left else r)
renamed-left left right r = ground arith

pub get_elem?-inside :
    {A : Type 0} (xs : List A) (i : ℕ) → i < length xs → (a : A) × (get_elem? xs i ≡ some a)
get_elem?-inside [] i h = absurd (omega (arith, h))
get_elem?-inside (x ∷ xs) zero h = (x, refl)
get_elem?-inside (x ∷ xs) (suc i) h = get_elem?-inside xs i (omega (arith, h))

-- The classes after the merge, under one of the two representatives.
abbrev pub Merges : Nodes → (ℕ → ℕ) → ℕ → ℕ → Option (ℕ × Nodes) → Type 0
Merges nodes rep left right result =
    (winner : ℕ) × (nodes' : Nodes) × (height : ℕ → ℕ) × (result ≡ some (winner, nodes'))
    × ((winner ≡ left) ⊎ (winner ≡ right))
    × AreClasses (nodes'.parent) (joined rep left right winner) height
    × (nodes'.cell ≡ nodes.cell)

module _ (nodes : Nodes) (rep height : ℕ → ℕ) (left right : ℕ)
    (classes : AreClasses (nodes.parent) rep height) (left_in : left < length (nodes.parent))
    (right_in : right < length (nodes.parent)) (is_left : rep left ≡ left)
    (is_right : rep right ≡ right) (apart : left ≢ right) where
  under_right :
      AreClasses
        (set (nodes.parent) left right)
        (joined rep left right right)
        (new_height rep height left right is_left is_right apart)
  under_right =
      subst
        (λ f.
          AreClasses (set (nodes.parent) left right) f
            (new_height rep height left right is_left is_right apart))
        (fun_ext (λ x. renamed-right left right (rep x)))
        (set-merges rep height left right is_left is_right apart (nodes.parent) classes left_in
          right_in)

  flipped : right ≢ left
  flipped e = apart (sym e)

  under_left :
      AreClasses
        (set (nodes.parent) right left)
        (joined rep left right left)
        (new_height rep height right left is_right is_left flipped)
  under_left =
      subst
        (λ f.
          AreClasses (set (nodes.parent) right left) f
            (new_height rep height right left is_right is_left flipped))
        (fun_ext (λ x. renamed-left left right (rep x)))
        (set-merges rep height right left is_right is_left flipped (nodes.parent) classes right_in
          left_in)

  by_rank-Merges :
      (a : ℕ) (o : Ordering) → Merges nodes rep left right (some (by_rank nodes left right a o))
  unfolding link
  by_rank-Merges a lt = (right, _, _, refl, inr refl, under_right, refl)
  by_rank-Merges a gt = (left, _, _, refl, inl refl, under_left, refl)
  by_rank-Merges a eq = (left, _, _, refl, inl refl, under_left, refl)

-- Merging two classes by their ranks makes one class of them, that one of the two representatives
-- represents, and leaves every other class and every cell as it was.
pub union-Merges :
    (nodes : Nodes) (rep height : ℕ → ℕ) (left right : ℕ)
    → AreClasses (nodes.parent) rep height
    → left < length (nodes.parent)
    → right < length (nodes.parent)
    → length (nodes.rank) ≡ length (nodes.parent)
    → rep left ≡ left
    → rep right ≡ right
    → left ≢ right
    → Merges nodes rep left right (union nodes left right)
unfolding union
union-Merges nodes rep height left right classes left_in right_in ranks is_left is_right apart =
    let (a, at_left) = get_elem?-inside (nodes.rank) left (omega (arith, left_in, ranks)) in
    let (b, at_right) = get_elem?-inside (nodes.rank) right (omega (arith, right_in, ranks)) in
    rw (at_left, at_right, union)
      (by_rank-Merges nodes rep height left right classes left_in right_in is_left is_right apart a
        (compare a b))

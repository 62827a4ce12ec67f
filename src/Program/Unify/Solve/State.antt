-- ===== src/Program/Unify/Solve/State.antt =====
-- The state of the unifier's loop: its classes, how many there are, and what a merge does to them.
use themelios.Prelude.{
  ℕ, zero, suc, ◌+◌, ◌≤◌, ◌<◌, ◌≡◌, ◌≢◌, refl, sym, ap, subst, ◌∙◌, true, false, Bool-cases,
  if◌then◌else◌, ◌==◌, List, [], ◌∷◌, some, ◌⊎◌, inl, inr, length, length-set, get_elem?, set, All,
  arith,
}
use themelios.Program.Symbol.{Symbol, positive}
use themelios.Program.Unify.Nodes.{Cell}
use themelios.Program.Unify.Nodes.Classes.{AreClasses}
use themelios.Program.Unify.Nodes.Merge.{renamed, raised, set-merges, unequal, get_elem?-inside}

abbrev pub children : Cell → List ℕ
children (Cell.variable _) = []
children (Cell.leaf _) = []
children (Cell.function _ xs) = xs
children (Cell.tuple xs) = xs

-- The sum of a weight over the cells of the representatives, the first cell that of the node `i`.
abbrev pub weight : (Cell → ℕ) → (ℕ → ℕ) → ℕ → List Cell → ℕ
weight g rep i [] = 0
weight g rep i (c ∷ cs) = (if rep i == i then g c else 0) + weight g rep (suc i) cs

module _ (g : Cell → ℕ) (rep rep' : ℕ → ℕ)
    (fewer : (x : ℕ) → (rep' x == x) ≡ true → (rep x == x) ≡ true) where
  one_fewer : (x n : ℕ) → (if rep' x == x then n else 0) ≤ (if rep x == x then n else 0)
  one_fewer x n = elim (Bool-cases (rep' x == x)) [
    | inl e ↦ rw (e, fewer x e) (omega arith)
    | inr e ↦ rw e (omega arith)
  ]

  pub weight-fewer : (i : ℕ) (cs : List Cell) → weight g rep' i cs ≤ weight g rep i cs
  weight-fewer i [] = omega arith
  weight-fewer i (c ∷ cs) = omega (arith, one_fewer i (g c), weight-fewer (suc i) cs)

  -- A representative that is none any more takes its weight with it.
  pub weight-drops :
      (i k j : ℕ) (cs : List Cell) (c : Cell)
      → j ≡ i + k
      → get_elem? cs k ≡ some c
      → (rep j == j) ≡ true
      → (rep' j == j) ≡ false
      → weight g rep' i cs + g c ≤ weight g rep i cs
  weight-drops i k j [] c here at was is = absurd (ground (arith, at))
  weight-drops i zero j (d ∷ cs) c here at was is =
      let same : j ≡ i = omega (arith, here) in
      let was_i : (rep i == i) ≡ true = subst (λ z. (rep z == z) ≡ true) same was in
      let is_i : (rep' i == i) ≡ false = subst (λ z. (rep' z == z) ≡ false) same is in
      let weighs : g d ≡ g c = ground (arith, at) in
      rw (was_i, is_i) (omega (arith, weighs, weight-fewer (suc i) cs))
  weight-drops i (suc k) j (d ∷ cs) c here at was is =
      omega
        (arith, one_fewer i (g d), weight-drops (suc i) k j cs c (omega (arith, here)) at was is)

abbrev pub roots : (ℕ → ℕ) → List Cell → ℕ
roots rep cells = weight (λ c. 1) rep 0 cells

-- A leaf is no tuple and no positive function: those are nodes over their elements.
abbrev pub IsLeaf : Symbol → Type 0
IsLeaf (Symbol.function _ _ positive) = ⊥
IsLeaf (Symbol.tuple _) = ⊥
IsLeaf _ = Unit

abbrev pub IsPlain : Cell → Type 0
IsPlain (Cell.leaf s) = IsLeaf s
IsPlain _ = Unit

-- The cells, the parents and the ranks of a graph whose classes `rep` names. A class is as high, at most,
-- as there were merges.
pub record IsGraph (cells : List Cell) (parents : List ℕ) (ranks : List ℕ) (rep : ℕ → ℕ)
    (height : ℕ → ℕ) : Type 0 where
  pub classes : AreClasses parents rep height
  pub sized : length parents ≡ length cells
  pub ranked : length ranks ≡ length cells
  pub inside : (id : ℕ) → id < length cells → rep id < length cells
  pub fixed : (id : ℕ) → id < length cells → rep (rep id) ≡ rep id
  pub low : (id : ℕ) → id < length cells → height id + roots rep cells ≤ length cells
  pub base : (id : ℕ) → id < length cells → rep id ≡ id → height id ≡ 0
  pub closed :
      (id : ℕ) (c : Cell) → get_elem? cells id ≡ some c → All (λ k. k < length cells) (children c)
  pub plain : (id : ℕ) (c : Cell) → get_elem? cells id ≡ some c → IsPlain c

abbrev pub relabelled : (ℕ → ℕ) → ℕ → ℕ → ℕ → ℕ
relabelled rep child root x = renamed child root (rep x)

abbrev pub heightened : (ℕ → ℕ) → (ℕ → ℕ) → ℕ → ℕ → ℕ → ℕ
heightened rep height child root x = raised height child root (rep x) x

module _ (rep : ℕ → ℕ) (child root : ℕ) (is_child : rep child ≡ child) (is_root : rep root ≡ root)
    (apart : child ≢ root) where
  relabelled-cases :
      (x : ℕ)
      → ((rep x ≡ child) × (relabelled rep child root x ≡ root))
        ⊎ ((rep x ≢ child) × (relabelled rep child root x ≡ rep x))
  relabelled-cases x = elim (Bool-cases (rep x == child)) [
    | inl e ↦ inl (ground (arith, e), rw e refl)
    | inr e ↦ inr ((λ same. ground (arith, e, same)), rw e refl)
  ]

  pub relabelled-fewer : (x : ℕ) → (relabelled rep child root x == x) ≡ true → (rep x == x) ≡ true
  relabelled-fewer x h = elim (relabelled-cases x) [
    | inl (to_child, to_root) ↦
        let x_is_root : x ≡ root = ground (arith, h, to_root) in
        absurd (apart (sym to_child ∙ ap rep x_is_root ∙ is_root))
    | inr (other, kept) ↦ ground (arith, h, kept)
  ]

  pub relabelled-child : relabelled rep child root child ≡ root
  relabelled-child = elim (relabelled-cases child) [
    | inl (_, e) ↦ e
    | inr (other, _) ↦ absurd (other is_child)
  ]

pub found-IsGraph :
    (cells : List Cell) (parents after ranks : List ℕ) (rep height : ℕ → ℕ)
    → IsGraph cells parents ranks rep height
    → AreClasses after rep height
    → length after ≡ length parents
    → IsGraph cells after ranks rep height
found-IsGraph cells parents after ranks rep height g classes len = record {
  classes = classes;
  sized = len ∙ g.sized;
  ranked = g.ranked;
  inside = g.inside;
  fixed = g.fixed;
  low = g.low;
  base = g.base;
  closed = g.closed;
  plain = g.plain;
}

module _ (cells : List Cell) (parents ranks : List ℕ) (rep height : ℕ → ℕ)
    (g : IsGraph cells parents ranks rep height) (child root : ℕ) (is_child : rep child ≡ child)
    (is_root : rep root ≡ root) (apart : child ≢ root) (child_in : child < length cells)
    (root_in : root < length cells) where
  -- A merge takes the weight of the class that loses its name.
  pub linked-drops :
      (w : Cell → ℕ) (c : Cell)
      → get_elem? cells child ≡ some c
      → weight w (relabelled rep child root) 0 cells + w c ≤ weight w rep 0 cells
  linked-drops w c at =
      weight-drops w rep (relabelled rep child root)
        (relabelled-fewer rep child root is_child is_root apart) 0 child child cells c (omega arith)
        at (ground (arith, is_child))
        (ap (λ z. z == child) (relabelled-child rep child root is_child is_root apart)
          ∙ unequal root child (λ e. apart (sym e)))

  fewer_roots : roots (relabelled rep child root) cells + 1 ≤ roots rep cells
  fewer_roots = let (c, at) = get_elem?-inside cells child child_in in linked-drops (λ c. 1) c at

  height_cases : (x : ℕ) → heightened rep height child root x ≤ height x + suc (height root)
  height_cases x = elim (Bool-cases (rep x == child)) [
    | inl e ↦ rw e (omega arith)
    | inr e ↦ rw e (omega arith)
  ]

  linked_low :
      (id : ℕ)
      → id < length cells
      → heightened rep height child root id + roots (relabelled rep child root) cells ≤ length cells
  linked_low id h =
      omega (arith, height_cases id, g.base root root_in is_root, fewer_roots, g.low id h)

  linked_base :
      (id : ℕ)
      → id < length cells
      → relabelled rep child root id ≡ id
      → heightened rep height child root id ≡ 0
  linked_base id h e = elim (Bool-cases (rep id == child)) [
    | inl to_child ↦
        let is_root_too : id ≡ root = sym e ∙ rw to_child refl in
        let there : rep id ≡ child = ground (arith, to_child) in
        absurd (apart (sym there ∙ ap rep is_root_too ∙ is_root))
    | inr other ↦ let same : rep id ≡ id = (rw other refl) ∙ e in rw other (g.base id h same)
  ]

  linked_inside : (id : ℕ) → id < length cells → relabelled rep child root id < length cells
  linked_inside id h = elim (Bool-cases (rep id == child)) [
    | inl e ↦ rw e root_in
    | inr e ↦ rw e (g.inside id h)
  ]

  linked_fixed :
      (id : ℕ)
      → id < length cells
      → relabelled rep child root (relabelled rep child root id) ≡ relabelled rep child root id
  linked_fixed id h = elim (Bool-cases (rep id == child)) [
    | inl e ↦
        rw e (ap (renamed child root) is_root ∙ rw (unequal root child (λ e. apart (sym e))) refl)
    | inr e ↦ rw e (ap (renamed child root) (g.fixed id h) ∙ rw e refl)
  ]

  pub linked-IsGraph :
      (ranks' : List ℕ)
      → length ranks' ≡ length ranks
      → IsGraph cells
          (set parents child root)
          ranks'
          (relabelled rep child root)
          (heightened rep height child root)
  linked-IsGraph ranks' len = record {
    classes =
        set-merges rep height child root is_child is_root apart parents g.classes
          (omega (arith, child_in, g.sized)) (omega (arith, root_in, g.sized));
    sized = length-set parents child root ∙ g.sized;
    ranked = len ∙ g.ranked;
    inside = linked_inside;
    fixed = linked_fixed;
    low = linked_low;
    base = linked_base;
    closed = g.closed;
    plain = g.plain;
  }

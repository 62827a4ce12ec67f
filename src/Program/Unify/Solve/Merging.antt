-- ===== src/Program/Unify/Solve/Merging.antt =====
-- What a merge of two representatives does to the equations.
use Prim.Native.Nat.Ordering.{lt, eq, gt}
use themelios.Prelude.{
  ℕ, ◌+◌, ◌≤◌, ◌<◌, ◌≡◌, ◌≢◌, refl, sym, ap, subst, ◌∙◌, List, [], ◌∷◌, Option, none, some, ◌⊎◌,
  ◌↔◌, inl, inr, length, length-set, get_elem?, set, compare, Ordering, arith,
}
use themelios.Program.Symbol.{Symbol}
use themelios.Program.Unify.Nodes.{Cell, Nodes, link, union, by_rank}
use themelios.Program.Unify.Nodes.Merge.{get_elem?-inside, renamed, unequal}
use themelios.Program.Unify.Solve.{Outcome, clash, merged, merged_with}
use themelios.Program.Unify.Solve.State.{
  IsGraph, children, weight, relabelled, heightened, linked-IsGraph, linked-drops,
}
use themelios.Program.Unify.Solve.Solutions.{
  IsModel, Fits, AreEqual, relabelled-IsModel, linked-equal, IsModel-relabelled,
}

abbrev pub arity : Cell → ℕ
arity c = length (children c)

abbrev pub AreInside : ℕ → List (ℕ × ℕ) → Type 0
AreInside n [] = Unit
AreInside n ((a, b) ∷ pairs) = (a < n) × (b < n) × AreInside n pairs

-- A turn that leaves as many equations to solve, or fewer, with the same solutions; or that finds none.
abbrev pub Advances : List Cell → (ℕ → ℕ) → ℕ → ℕ → Option Outcome → Type 0
Advances cells rep left right none = ⊥
Advances cells rep left right (some (clash nodes)) =
    (v : ℕ → Symbol) → IsModel cells rep v → v left ≢ v right
Advances cells rep left right (some (merged nodes pairs)) =
    (rep' : ℕ → ℕ) × (height' : ℕ → ℕ) × IsGraph cells (nodes.parent) (nodes.rank) rep' height'
    × (nodes.cell ≡ cells)
    × AreInside (length cells) pairs
    × (length pairs + weight arity rep' 0 cells ≤ weight arity rep 0 cells)
    × ((v : ℕ → Symbol)
        → (IsModel cells rep v × (v left ≡ v right)) ↔ (IsModel cells rep' v × AreEqual v pairs))

module _ (nodes : Nodes) (cells : List Cell) (rep height : ℕ → ℕ) (here : nodes.cell ≡ cells)
    (g : IsGraph cells (nodes.parent) (nodes.rank) rep height) where
  module _ (child root : ℕ) (is_child : rep child ≡ child) (is_root : rep root ≡ root)
      (apart : child ≢ root) (child_in : child < length cells) (root_in : root < length cells)
      (a b : Cell) (at_child : get_elem? cells child ≡ some a)
      (at_root : get_elem? cells root ≡ some b) (pairs : List (ℕ × ℕ))
      (inside : AreInside (length cells) pairs) (short : length pairs ≤ arity a)
      (agree : (v : ℕ → Symbol)
        → v child ≡ v root
        → Fits v a (v child)
        → Fits v b (v root)
        → AreEqual v pairs)
      (carry : (v : ℕ → Symbol)
        → v child ≡ v root
        → AreEqual v pairs
        → Fits v b (v root)
        → Fits v a (v child)) where
    moved :
        (v : ℕ → Symbol)
        → IsModel cells rep v
        → v child ≡ v root
        → IsModel cells (relabelled rep child root) v × AreEqual v pairs
    moved v m equal = (
      relabelled-IsModel cells rep child root child_in is_child is_root apart v m equal,
      agree v equal (m.fits child a at_child is_child) (m.fits root b at_root is_root),
    )

    root_stays : relabelled rep child root root ≡ root
    root_stays = ap (renamed child root) is_root ∙ rw (unequal root child (λ e. apart (sym e))) refl

    back :
        (v : ℕ → Symbol)
        → IsModel cells (relabelled rep child root) v
        → AreEqual v pairs
        → IsModel cells rep v × (v child ≡ v root)
    back v m equal =
        let one = linked-equal cells rep child root child_in is_child is_root apart v m in
        let kept : Fits v a (v child) = carry v one equal (m.fits root b at_root root_stays) in
        (
          IsModel-relabelled cells rep child root child_in is_child is_root apart v m
              (λ c at. subst (λ z. Fits v z (v child)) (ground (arith, at, at_child)) kept),
          one,
        )

    pub linked-Advances :
        (nodes' : Nodes)
        → nodes'.cell ≡ nodes.cell
        → nodes'.parent ≡ set (nodes.parent) child root
        → length (nodes'.rank) ≡ length (nodes.rank)
        → Advances cells rep child root (some (merged nodes' pairs))
    linked-Advances nodes' same_cells new_parents ranks = (
      relabelled rep child root,
      heightened rep height child root,
      subst
          (λ p.
            IsGraph cells p (nodes'.rank) (relabelled rep child root)
              (heightened rep height child root))
          (sym new_parents)
          (linked-IsGraph cells (nodes.parent) (nodes.rank) rep height g child root is_child is_root
            apart child_in root_in (nodes'.rank) ranks),
      same_cells ∙ here,
      inside,
      omega (
        arith,
        short,
        linked-drops cells (nodes.parent) (nodes.rank) rep height g child root is_child is_root
            apart child_in root_in arity a at_child,
      ),
      λ v. ((λ h. moved v (h.0) (h.1)), (λ h. back v (h.0) (h.1))),
    )

-- The two nodes the other way round.
pub flip-Advances :
    (cells : List Cell) (rep : ℕ → ℕ) (left right : ℕ) (o : Option Outcome)
    → Advances cells rep left right o
    → Advances cells rep right left o
flip-Advances cells rep left right none h = h
flip-Advances cells rep left right (some (clash nodes)) h = λ v m e. h v m (sym e)
flip-Advances cells rep left right (some (merged nodes pairs)) h =
    let (rep', height', g, same, inside, shorter, solutions) = h in
    (
      rep',
      height',
      g,
      same,
      inside,
      shorter,
      λ v. (
        (λ p. (solutions v).0 (p.0, sym (p.1))),
        (λ p. let (m, e) = (solutions v).1 p in (m, sym e)),
      ),
    )

-- Either of the two may be linked under the other.
abbrev Unites : Nodes → ℕ → ℕ → Option (ℕ × Nodes) → Type 0
Unites nodes left right result =
    (w : ℕ) × (nodes' : Nodes) × (result ≡ some (w, nodes'))
    × (nodes'.cell ≡ nodes.cell)
    × (length (nodes'.rank) ≡ length (nodes.rank))
    × ((nodes'.parent ≡ set (nodes.parent) left right)
        ⊎ (nodes'.parent ≡ set (nodes.parent) right left))

by_rank-Unites :
    (nodes : Nodes) (left right a : ℕ) (o : Ordering)
    → Unites nodes left right (some (by_rank nodes left right a o))
unfolding link
by_rank-Unites nodes left right a lt = (_, _, refl, refl, refl, inl refl)
by_rank-Unites nodes left right a gt = (_, _, refl, refl, refl, inr refl)
by_rank-Unites nodes left right a eq = (_, _, refl, refl, length-set (nodes.rank) left _, inr refl)

union-Unites :
    (nodes : Nodes) (left right : ℕ)
    → left < length (nodes.rank)
    → right < length (nodes.rank)
    → Unites nodes left right (union nodes left right)
unfolding union
union-Unites nodes left right left_in right_in =
    let (a, at_left) = get_elem?-inside (nodes.rank) left left_in in
    let (b, at_right) = get_elem?-inside (nodes.rank) right right_in in
    rw (at_left, at_right, union) (by_rank-Unites nodes left right a (compare a b))

module _ (nodes : Nodes) (cells : List Cell) (rep height : ℕ → ℕ) (here : nodes.cell ≡ cells)
    (g : IsGraph cells (nodes.parent) (nodes.rank) rep height) (left right : ℕ)
    (is_left : rep left ≡ left) (is_right : rep right ≡ right) (apart : left ≢ right)
    (left_in : left < length cells) (right_in : right < length cells) (a b : Cell)
    (at_left : get_elem? cells left ≡ some a) (at_right : get_elem? cells right ≡ some b)
    (pairs : List (ℕ × ℕ)) (inside : AreInside (length cells) pairs)
    (short : length pairs ≤ arity a) (also_short : length pairs ≤ arity b)
    (agree : (v : ℕ → Symbol)
      → v left ≡ v right
      → Fits v a (v left)
      → Fits v b (v right)
      → AreEqual v pairs)
    (carry : (v : ℕ → Symbol)
      → v left ≡ v right
      → AreEqual v pairs
      → Fits v a (v left) ↔ Fits v b (v right)) where
  pub union-Advances : Advances cells rep left right (merged_with pairs (union nodes left right))
  union-Advances =
      let (w, nodes', united, same, ranks, parents) =
        union-Unites nodes left right (omega (arith, left_in, g.ranked))
          (omega (arith, right_in, g.ranked)) in
      rw united (elim parents [
        | inl under_right ↦
            linked-Advances nodes cells rep height here g left right is_left is_right apart left_in
              right_in a b at_left at_right pairs inside short agree
              (λ v e equal. (carry v e equal).1) nodes' same under_right ranks
        | inr under_left ↦ flip-Advances cells rep right left (some (merged nodes' pairs)) (
            linked-Advances nodes cells rep height here g right left is_right is_left
              (λ e. apart (sym e)) right_in left_in b a at_right at_left pairs inside also_short
              (λ v e f h. agree v (sym e) h f) (λ v e equal. (carry v (sym e) equal).0) nodes' same
              under_left ranks)
      ])

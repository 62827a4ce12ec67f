-- ===== src/Program/Unify/Solve/Meet.antt =====
-- The two cells that meet in a turn of the loop.
use themelios.Prelude.{
  ℕ, suc, ◌<◌, ◌≡◌, ◌≢◌, refl, sym, ap, subst, ◌∙◌, Bool, true, false, ◌&&◌, Bool-cases, ◌==◌, List,
  [], ◌∷◌, some, ◌↔◌, inl, inr, length, get_elem?, All, arith,
}
use themelios.Prelude.Order.{list_ord, nat_ord}
use themelios.Program.Symbol.{Symbol, Name, is_eq, positive, from_list}
use themelios.Program.Symbol.Total.{symbol_ord}
use themelios.Program.Unify.Nodes.{Cell, Nodes, link}
use themelios.Program.Unify.Solve.{merged, zip, same_symbol, same_functor, meet}
use themelios.Program.Unify.Solve.State.{IsGraph, IsLeaf}
use themelios.Program.Unify.Solve.Solutions.{
  Fits, Fits-function, Fits-tuple, function-Fits, tuple-Fits,
}
use themelios.Program.Unify.Solve.Merging.{
  AreInside, Advances, linked-Advances, flip-Advances, union-Advances,
}

length-zip : (xs ys : List ℕ) → length xs ≡ length ys → length (zip xs ys) ≡ length xs
length-zip [] ys h = refl
length-zip (x ∷ xs) [] h = absurd (omega (arith, h))
length-zip (x ∷ xs) (y ∷ ys) h = ap suc (length-zip xs ys (omega (arith, h)))

zip-AreInside :
    (n : ℕ) (xs ys : List ℕ) → All (λ k. k < n) xs → All (λ k. k < n) ys → AreInside n (zip xs ys)
zip-AreInside n [] ys h g = tt
zip-AreInside n (x ∷ xs) [] h g = tt
zip-AreInside n (x ∷ xs) (y ∷ ys) h g = (h.0, g.0, zip-AreInside n xs ys (h.1) (g.1))

same_symbol-true : (s t : Symbol) → same_symbol s t ≡ true → s ≡ t
same_symbol-true s t e = symbol_ord.eq_of_cmp s t (ground (arith, e))

same_symbol_refl : (s : Symbol) → same_symbol s s ≡ true
same_symbol_refl s = ap is_eq (symbol_ord.cmp_refl s)

same_functor-true : (n m : Name) → same_functor n m ≡ true → n ≡ m
same_functor-true n m e = list_ord.eq_of_cmp n m (ground (arith, e))

same_functor_refl : (n : Name) → same_functor n n ≡ true
same_functor_refl n = ap is_eq (list_ord.cmp_refl n)

both_true : (a b : Bool) → (a && b) ≡ true → (a ≡ true) × (b ≡ true)
both_true true true e = (refl, refl)
both_true true false e = absurd (ground (arith, e))
both_true false b e = absurd (ground (arith, e))

leaf_function :
    (s : Symbol) (n : Name) (xs : List Symbol)
    → IsLeaf s
    → s ≡ Symbol.function n (from_list xs) positive
    → ⊥
leaf_function s n xs plain e = subst IsLeaf e plain

leaf_tuple : (s : Symbol) (xs : List Symbol) → IsLeaf s → s ≡ Symbol.tuple (from_list xs) → ⊥
leaf_tuple s xs plain e = subst IsLeaf e plain

function_clash :
    (n m : Name) (xs ys : List ℕ)
    → n ≡ m
    → length xs ≡ length ys
    → (same_functor n m && length xs == length ys) ≡ false
    → ⊥
function_clash n m xs ys named len e =
    let functor : same_functor n m ≡ true =
      subst (λ z. same_functor n z ≡ true) named (same_functor_refl n) in
    let sized : (length xs == length ys) ≡ true = ground (arith, len) in
    absurd (ground (arith, functor, sized, e))

module _ (nodes : Nodes) (cells : List Cell) (rep height : ℕ → ℕ) (here : nodes.cell ≡ cells)
    (g : IsGraph cells (nodes.parent) (nodes.rank) rep height) (left right : ℕ)
    (is_left : rep left ≡ left) (is_right : rep right ≡ right) (apart : left ≢ right)
    (left_in : left < length cells) (right_in : right < length cells) where
  -- A variable goes under the other class.
  variable_under :
      (child root : ℕ) (x : _) (b : Cell)
      → rep child ≡ child
      → rep root ≡ root
      → child ≢ root
      → child < length cells
      → root < length cells
      → get_elem? cells child ≡ some (Cell.variable x)
      → get_elem? cells root ≡ some b
      → Advances cells rep child root (some (merged (link nodes child root) []))
  unfolding link
  variable_under child root x b is_child is_root differ child_in root_in at_child at_root =
      linked-Advances nodes cells rep height here g child root is_child is_root differ child_in
        root_in (Cell.variable x) b at_child at_root [] tt (omega arith) (λ v e f h. tt)
        (λ v e equal f. tt) (link nodes child root) refl refl refl

  pub meet-Advances :
      (a b : Cell)
      → get_elem? cells left ≡ some a
      → get_elem? cells right ≡ some b
      → Advances cells rep left right (meet nodes left right a b)
  unfolding meet
  meet-Advances (Cell.variable x) (Cell.variable y) at_left at_right =
      union-Advances nodes cells rep height here g left right is_left is_right apart left_in
        right_in (Cell.variable x) (Cell.variable y) at_left at_right [] tt (omega arith)
        (omega arith) (λ v e f h. tt) (λ v e equal. ((λ f. tt), (λ f. tt)))
  meet-Advances (Cell.variable x) b at_left at_right =
      variable_under left right x b is_left is_right apart left_in right_in at_left at_right
  meet-Advances a (Cell.variable y) at_left at_right =
      flip-Advances cells rep right left (some (merged (link nodes right left) [])) (
        variable_under right left y a is_right is_left (λ e. apart (sym e)) right_in left_in
          at_right at_left)
  meet-Advances (Cell.leaf s) (Cell.leaf t) at_left at_right = elim (Bool-cases (same_symbol s t)) [
    | inl e ↦ rw e (
      rep,
      height,
      g,
      here,
      tt,
      omega arith,
      λ v. (
        (λ h. (h.0, tt)),
        (λ h. (
          h.0,
          h.0.fits left (Cell.leaf s) at_left is_left
              ∙ same_symbol-true s t e
              ∙ sym (h.0.fits right (Cell.leaf t) at_right is_right),
        )),
      ),
    )
    | inr e ↦ rw e (λ v m equal.
        let one : s ≡ t =
          sym (m.fits left (Cell.leaf s) at_left is_left)
          ∙ equal
          ∙ m.fits right (Cell.leaf t) at_right is_right in
        absurd (ground (arith, e, sym (ap (same_symbol s) one) ∙ same_symbol_refl s)))
  ]
  meet-Advances (Cell.function n xs) (Cell.function m ys) at_left at_right =
      elim (Bool-cases (same_functor n m && length xs == length ys)) [
        | inl e ↦
            let (named, sized) = both_true (same_functor n m) (length xs == length ys) e in
            let len : length xs ≡ length ys = ground (arith, sized) in
            let short = length-zip xs ys len in
            rw e (
              union-Advances nodes cells rep height here g left right is_left is_right apart left_in
                right_in (Cell.function n xs) (Cell.function m ys) at_left at_right (zip xs ys)
                (zip-AreInside (length cells) xs ys (g.closed left _ at_left)
                  (g.closed right _ at_right))
                (omega (arith, short)) (omega (arith, short, len))
                (λ v one f h. (Fits-function v (v left) (v right) one n m xs ys f h).2)
                (λ v one equal.
                  subst
                    (λ z.
                      Fits v (Cell.function n xs) (v left) ↔ Fits v (Cell.function z ys) (v right))
                    (same_functor-true n m named)
                    (function-Fits v (v left) (v right) one n xs ys len equal)))
        | inr e ↦ rw e (λ v p one.
            let (named, len, _) =
              Fits-function v (v left) (v right) one n m xs ys (p.fits left _ at_left is_left)
                (p.fits right _ at_right is_right) in
            function_clash n m xs ys named len e)
      ]
  meet-Advances (Cell.tuple xs) (Cell.tuple ys) at_left at_right =
      elim (Bool-cases (length xs == length ys)) [
        | inl e ↦
            let len : length xs ≡ length ys = ground (arith, e) in
            let short = length-zip xs ys len in
            rw e (
              union-Advances nodes cells rep height here g left right is_left is_right apart left_in
                right_in (Cell.tuple xs) (Cell.tuple ys) at_left at_right (zip xs ys)
                (zip-AreInside (length cells) xs ys (g.closed left _ at_left)
                  (g.closed right _ at_right))
                (omega (arith, short)) (omega (arith, short, len))
                (λ v one f h. (Fits-tuple v (v left) (v right) one xs ys f h).1)
                (λ v one equal. tuple-Fits v (v left) (v right) one xs ys len equal))
        | inr e ↦ rw e (λ v p one.
            let (len, _) =
              Fits-tuple v (v left) (v right) one xs ys (p.fits left _ at_left is_left)
                (p.fits right _ at_right is_right) in
            absurd (ground (arith, e, len)))
      ]
  meet-Advances (Cell.leaf s) (Cell.function m ys) at_left at_right = λ v p equal.
      leaf_function s m _ (g.plain left (Cell.leaf s) at_left) (
        sym (p.fits left (Cell.leaf s) at_left is_left)
        ∙ equal
        ∙ p.fits right (Cell.function m ys) at_right is_right)
  meet-Advances (Cell.leaf s) (Cell.tuple ys) at_left at_right = λ v p equal.
      leaf_tuple s _ (g.plain left (Cell.leaf s) at_left) (
        sym (p.fits left (Cell.leaf s) at_left is_left)
        ∙ equal
        ∙ p.fits right (Cell.tuple ys) at_right is_right)
  meet-Advances (Cell.function n xs) (Cell.leaf t) at_left at_right = λ v p equal.
      leaf_function t n _ (g.plain right (Cell.leaf t) at_right) (
        sym (p.fits right (Cell.leaf t) at_right is_right)
        ∙ sym equal
        ∙ p.fits left (Cell.function n xs) at_left is_left)
  meet-Advances (Cell.tuple xs) (Cell.leaf t) at_left at_right = λ v p equal.
      leaf_tuple t _ (g.plain right (Cell.leaf t) at_right) (
        sym (p.fits right (Cell.leaf t) at_right is_right)
        ∙ sym equal
        ∙ p.fits left (Cell.tuple xs) at_left is_left)
  meet-Advances (Cell.function n xs) (Cell.tuple ys) at_left at_right = λ v p equal. absurd (
      ground (
        arith,
        sym (p.fits left (Cell.function n xs) at_left is_left)
            ∙ equal
            ∙ p.fits right (Cell.tuple ys) at_right is_right,
      ))
  meet-Advances (Cell.tuple xs) (Cell.function m ys) at_left at_right = λ v p equal. absurd (
      ground (
        arith,
        sym (p.fits left (Cell.tuple xs) at_left is_left)
            ∙ equal
            ∙ p.fits right (Cell.function m ys) at_right is_right,
      ))

-- ===== src/Program/Unify/Solve/Solutions.antt =====
-- The values of the nodes that make a graph's equations true, and what a merge leaves of them.
use themelios.Prelude.{
  ℕ, suc, ◌<◌, ◌≡◌, ◌≢◌, refl, sym, ap, ap₂, subst, ◌∙◌, false, Bool-cases, ◌==◌, List, [], ◌∷◌,
  map, some, ◌↔◌, inl, inr, length, get_elem?, arith,
}
use themelios.Prelude.Order.{list_ord, nat_ord}
use themelios.Program.Symbol.{Symbol, Name, positive, from_list}
use themelios.Program.Symbol.Total.{symbol_ord}
use themelios.Program.Unify.Nodes.{Cell}
use themelios.Program.Unify.Solve.{zip}
use themelios.Program.Unify.Solve.State.{relabelled, relabelled-fewer, relabelled-child}

-- The value of a node is one that its cell allows, by the values of the children.
abbrev pub Fits : (ℕ → Symbol) → Cell → Symbol → Type 0
Fits v (Cell.variable _) s = Unit
Fits v (Cell.leaf t) s = s ≡ t
Fits v (Cell.function n xs) s = s ≡ Symbol.function n (from_list (map v xs)) positive
Fits v (Cell.tuple xs) s = s ≡ Symbol.tuple (from_list (map v xs))

-- One value for a class, that the cell of its representative allows.
pub record IsModel (cells : List Cell) (rep : ℕ → ℕ) (v : ℕ → Symbol) : Type 0 where
  pub same : (id : ℕ) → id < length cells → v (rep id) ≡ v id
  pub fits : (id : ℕ) (c : Cell) → get_elem? cells id ≡ some c → rep id ≡ id → Fits v c (v id)

abbrev pub AreEqual : (ℕ → Symbol) → List (ℕ × ℕ) → Type 0
AreEqual v [] = Unit
AreEqual v ((a, b) ∷ pairs) = (v a ≡ v b) × AreEqual v pairs

from_list-inj : (xs ys : List Symbol) → from_list xs ≡ from_list ys → xs ≡ ys
from_list-inj [] [] h = refl
from_list-inj [] (y ∷ ys) h = absurd (ground (arith, h))
from_list-inj (x ∷ xs) [] h = absurd (ground (arith, h))
from_list-inj (x ∷ xs) (y ∷ ys) h =
    ap₂ (λ a as'. a ∷ as') (ground (arith, h)) (from_list-inj xs ys (ground (arith, h)))

module _ (v : ℕ → Symbol) where
  map-AreEqual :
      (xs ys : List ℕ) → map v xs ≡ map v ys → AreEqual v (zip xs ys) × (length xs ≡ length ys)
  map-AreEqual [] [] h = (tt, refl)
  map-AreEqual [] (y ∷ ys) h = absurd (ground (arith, h))
  map-AreEqual (x ∷ xs) [] h = absurd (ground (arith, h))
  map-AreEqual (x ∷ xs) (y ∷ ys) h =
      let (equal, len) = map-AreEqual xs ys (ground (arith, h)) in
      ((ground (arith, h), equal), ap suc len)

  AreEqual-map :
      (xs ys : List ℕ) → length xs ≡ length ys → AreEqual v (zip xs ys) → map v xs ≡ map v ys
  AreEqual-map [] [] len h = refl
  AreEqual-map [] (y ∷ ys) len h = absurd (omega (arith, len))
  AreEqual-map (x ∷ xs) [] len h = absurd (omega (arith, len))
  AreEqual-map (x ∷ xs) (y ∷ ys) len h =
      ap₂ (λ a as'. a ∷ as') (h.0) (AreEqual-map xs ys (omega (arith, len)) (h.1))

module _ (cells : List Cell) (rep : ℕ → ℕ) (child root : ℕ) (child_in : child < length cells)
    (is_child : rep child ≡ child) (is_root : rep root ≡ root) (apart : child ≢ root)
    (v : ℕ → Symbol) where
  still : (id : ℕ) → relabelled rep child root id ≡ id → rep id ≡ id
  still id h =
      ground (arith, relabelled-fewer rep child root is_child is_root apart id (ground (arith, h)))

  pub relabelled-IsModel :
      IsModel cells rep v → v child ≡ v root → IsModel cells (relabelled rep child root) v
  relabelled-IsModel m equal = record {
    same = λ id h. elim (Bool-cases (rep id == child)) [
      | inl e ↦ rw e (sym equal ∙ ap v (sym (ground (arith, e))) ∙ m.same id h)
      | inr e ↦ rw e (m.same id h)
    ];
    fits = λ id c at fixed. m.fits id c at (still id fixed);
  }

  pub linked-equal : IsModel cells (relabelled rep child root) v → v child ≡ v root
  linked-equal m =
      sym (m.same child child_in) ∙ ap v (relabelled-child rep child root is_child is_root apart)

  pub IsModel-relabelled :
      IsModel cells (relabelled rep child root) v
      → ((c : Cell) → get_elem? cells child ≡ some c → Fits v c (v child))
      → IsModel cells rep v
  IsModel-relabelled m lost = record {
    same = λ id h. elim (Bool-cases (rep id == child)) [
      | inl e ↦
          let there : rep id ≡ child = ground (arith, e) in
          let renamed_to : relabelled rep child root id ≡ root = rw e refl in
          ap v there ∙ linked-equal m ∙ ap v (sym renamed_to) ∙ m.same id h
      | inr e ↦
          let kept : relabelled rep child root id ≡ rep id = rw e refl in
          ap v (sym kept) ∙ m.same id h
    ];
    fits = λ id c at fixed. elim (Bool-cases (id == child)) [
      | inl e ↦
          let here : id ≡ child = ground (arith, e) in
          subst (λ z. Fits v c (v z)) (sym here) (lost c (ap (get_elem? cells) (sym here) ∙ at))
      | inr e ↦
          let other : (rep id == child) ≡ false = ap (λ z. z == child) fixed ∙ e in
          let kept : relabelled rep child root id ≡ rep id = rw other refl in
          m.fits id c at (kept ∙ fixed)
    ];
  }

-- Two cells that meet: what they say of one value.
module _ (v : ℕ → Symbol) (s t : Symbol) (one : s ≡ t) where
  pub Fits-function :
      (n m : Name) (xs ys : List ℕ)
      → Fits v (Cell.function n xs) s
      → Fits v (Cell.function m ys) t
      → (n ≡ m) × (length xs ≡ length ys) × AreEqual v (zip xs ys)
  Fits-function n m xs ys f g =
      let both : Symbol.function n (from_list (map v xs)) positive
          ≡ Symbol.function m (from_list (map v ys)) positive =
        sym f ∙ one ∙ g in
      let (equal, len) = map-AreEqual v xs ys (from_list-inj _ _ (ground (arith, both))) in
      (ground (arith, both), len, equal)

  pub Fits-tuple :
      (xs ys : List ℕ)
      → Fits v (Cell.tuple xs) s
      → Fits v (Cell.tuple ys) t
      → (length xs ≡ length ys) × AreEqual v (zip xs ys)
  Fits-tuple xs ys f g =
      let both : Symbol.tuple (from_list (map v xs)) ≡ Symbol.tuple (from_list (map v ys)) =
        sym f ∙ one ∙ g in
      let (equal, len) = map-AreEqual v xs ys (from_list-inj _ _ (ground (arith, both))) in
      (len, equal)

  pub function-Fits :
      (n : Name) (xs ys : List ℕ)
      → length xs ≡ length ys
      → AreEqual v (zip xs ys)
      → Fits v (Cell.function n xs) s ↔ Fits v (Cell.function n ys) t
  function-Fits n xs ys len equal =
      let e = AreEqual-map v xs ys len equal in
      (
        (λ f. sym one ∙ f ∙ ap (λ z. Symbol.function n (from_list z) positive) e),
        (λ f. one ∙ f ∙ ap (λ z. Symbol.function n (from_list z) positive) (sym e)),
      )

  pub tuple-Fits :
      (xs ys : List ℕ)
      → length xs ≡ length ys
      → AreEqual v (zip xs ys)
      → Fits v (Cell.tuple xs) s ↔ Fits v (Cell.tuple ys) t
  tuple-Fits xs ys len equal =
      let e = AreEqual-map v xs ys len equal in
      (
        (λ f. sym one ∙ f ∙ ap (λ z. Symbol.tuple (from_list z)) e),
        (λ f. one ∙ f ∙ ap (λ z. Symbol.tuple (from_list z)) (sym e)),
      )

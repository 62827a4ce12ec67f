-- ===== src/Program/Unify/Nodes/Classes.antt =====
-- The classes of the nodes: what finding a representative and merging two classes make of them.
use themelios.Prelude.{
  ℕ, zero, suc, ◌<◌, ◌≡◌, ◌≢◌, refl, sym, ap, subst, ◌∙◌, Bool-cases, ◌==◌, List, Option, some, ◌⊎◌,
  inl, inr, length, length-set, get_elem?, set, get_elem?-set_self, get_elem?-set_ne, arith,
}
use themelios.Program.Unify.Nodes.{Nodes, find_loop, find_node, with_parents}

-- The parent of a node is in its class, and it is the node itself, which represents the class, or lower.
abbrev pub Placed : List ℕ → (ℕ → ℕ) → (ℕ → ℕ) → ℕ → Type 0
Placed parents rep height id =
    (p : ℕ) × (get_elem? parents id ≡ some p)
    × (p < length parents)
    × (rep p ≡ rep id)
    × (((p ≡ id) × (rep id ≡ id)) ⊎ (height p < height id))

-- The parents make up the classes that `rep` names by their representatives.
abbrev pub AreClasses : List ℕ → (ℕ → ℕ) → (ℕ → ℕ) → Type 0
AreClasses parents rep height = (id : ℕ) → id < length parents → Placed parents rep height id

set-AreClasses :
    (parents : List ℕ) (rep height : ℕ → ℕ) (id p : ℕ)
    → AreClasses parents rep height
    → id < length parents
    → p < length parents
    → rep p ≡ rep id
    → height p < height id
    → AreClasses (set parents id p) rep height
set-AreClasses parents rep height id p h inside below same lower x x_inside =
    elim (Bool-cases (x == id)) [
      | inl is_id ↦
          let here : x ≡ id = ground (arith, is_id) in
          subst (Placed (set parents id p) rep height) (sym here) (
            p,
            get_elem?-set_self parents id p inside,
            ground (arith, below, length-set parents id p),
            same,
            inr lower,
          )
      | inr is_not ↦
          let apart : id ≢ x = λ e. ground (arith, is_not, e) in
          let (q, at, q_inside, q_same, kind) =
            h x (ground (arith, x_inside, length-set parents id p)) in
          (
            q,
            get_elem?-set_ne parents id x p apart ∙ at,
            ground (arith, q_inside, length-set parents id p),
            q_same,
            kind,
          )
    ]

module _ (rep height : ℕ → ℕ) where
  abbrev pub Found : List ℕ → ℕ → Option (ℕ × List ℕ) → Type 0
  Found parents id result =
      (after : List ℕ) × (result ≡ some (rep id, after))
      × AreClasses after rep height
      × (length after ≡ length parents)

  find_loop-Found :
      (fuel : ℕ) (parents : List ℕ) (id : ℕ)
      → AreClasses parents rep height
      → id < length parents
      → height id < fuel
      → Found parents id (find_loop fuel parents id)
  unfolding find_loop
  find_loop-Found zero parents id h inside low = absurd (omega (arith, low))
  find_loop-Found (suc fuel) parents id h inside low =
      let (p, at, below, same, kind) = h id inside in
      elim (Bool-cases (p == id)) [
        | inl is_root ↦
            let itself : rep id ≡ id = elim kind [
              | inl (_, r) ↦ r
              | inr lower ↦ absurd (ground (arith, lower, is_root))
            ] in
            (parents, rw (at, is_root, itself, find_loop) refl, h, refl)
        | inr not_root ↦
            let (g, at_g, g_below, g_same, g_kind) = h p below in
            let lower : height p < height id = elim kind [
              | inl (e, _) ↦ absurd (ground (arith, e, not_root))
              | inr l ↦ l
            ] in
            let g_lower : height g < height id = elim g_kind [
              | inl (e, _) ↦ subst (λ z. height z < height id) (sym e) lower
              | inr l ↦ omega (arith, l, lower)
            ] in
            let (after, e, classes, len) =
              find_loop-Found fuel (set parents id g) g
                (set-AreClasses parents rep height id g h inside g_below (g_same ∙ same) g_lower)
                (ground (arith, g_below, length-set parents id g)) (omega (arith, g_lower, low)) in
            (
              after,
              rw (at, not_root, at_g, find_loop) (e ∙ ap (λ z. some (z, after)) (g_same ∙ same)),
              classes,
              len ∙ length-set parents id g,
            )
      ]

pub find_node-Found :
    (rep height : ℕ → ℕ) (nodes : Nodes) (fuel id : ℕ)
    → AreClasses (nodes.parent) rep height
    → id < length (nodes.parent)
    → height id < fuel
    → (after : List ℕ) × (find_node fuel nodes id ≡ some (rep id, with_parents nodes after))
      × AreClasses after rep height
      × (length after ≡ length (nodes.parent))
unfolding find_node
find_node-Found rep height nodes fuel id h inside low =
    let (after, e, classes, len) = find_loop-Found rep height fuel (nodes.parent) id h inside low in
    (after, rw e refl, classes, len)

-- Finding a node's representative ends, with more fuel than the node is high, answers the representative,
-- and keeps the classes.
pub find_node-AreClasses :
    (rep height : ℕ → ℕ) (nodes : Nodes) (fuel id : ℕ)
    → AreClasses (nodes.parent) rep height
    → id < length (nodes.parent)
    → height id < fuel
    → (nodes' : Nodes) × (find_node fuel nodes id ≡ some (rep id, nodes'))
      × AreClasses (nodes'.parent) rep height
      × (length (nodes'.parent) ≡ length (nodes.parent))
      × (nodes'.cell ≡ nodes.cell)
find_node-AreClasses rep height nodes fuel id h inside low =
    let (after, e, classes, len) = find_node-Found rep height nodes fuel id h inside low in
    (with_parents nodes after, e, classes, len, refl)

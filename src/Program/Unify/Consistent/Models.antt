-- ===== src/Program/Unify/Consistent/Models.antt =====
-- A graph has values that make its equations true exactly when it has no cycle.
use themelios.Prelude.{
  ℕ, zero, suc, ◌≤◌, ◌<◌, ◌≡◌, refl, sym, ap, ap₂, subst, ◌∙◌, List, [], ◌∷◌, map, Option, none,
  some, inl, inr, length, get_elem?, Mem, All-of_mem, arith,
}
use themelios.Program.Symbol.{Symbol, positive, from_list, infimum}
use themelios.Program.Symbol.Walk.{size, size_all}
use themelios.Program.Term.{Variable}
use themelios.Program.Unify.Nodes.{Cell}
use themelios.Program.Unify.Nodes.Merge.{get_elem?-inside}
use themelios.Program.Unify.Solve.State.{IsGraph, children}
use themelios.Program.Unify.Solve.Solutions.{IsModel, Fits}
use themelios.Program.Unify.Occurs.Visit.{Decreases}
use themelios.Program.Unify.Occurs.Decides.{inside-get_elem?}

size-of_mem :
    (v : ℕ → Symbol) (k : ℕ) (xs : List ℕ) → Mem k xs → size (v k) ≤ size_all (from_list (map v xs))
unfolding size
size-of_mem v k [] i = absurd i
size-of_mem v k (x ∷ xs) (inl e) = omega (arith, ap (λ z. size (v z)) e)
size-of_mem v k (x ∷ xs) (inr i) = omega (arith, size-of_mem v k xs i)

Fits-size :
    (v : ℕ → Symbol) (c : Cell) (s : Symbol) (k : ℕ)
    → Fits v c s
    → Mem k (children c)
    → size (v k) < size s
unfolding size
Fits-size v (Cell.variable x) s k f i = absurd i
Fits-size v (Cell.leaf t) s k f i = absurd i
Fits-size v (Cell.function n xs) s k f i =
    subst (λ z. size (v k) < size z) (sym f) (omega (arith, size-of_mem v k xs i))
Fits-size v (Cell.tuple xs) s k f i =
    subst (λ z. size (v k) < size z) (sym f) (omega (arith, size-of_mem v k xs i))

-- The sizes of the values of a model fall from a class to those of its children.
pub IsModel-Decreases :
    (cells : List Cell) (parents ranks : List ℕ) (rep height : ℕ → ℕ)
    → IsGraph cells parents ranks rep height
    → (v : ℕ → Symbol) → IsModel cells rep v
    → Decreases cells rep (λ n. size (v n))
IsModel-Decreases cells parents ranks rep height g v m n is_rep r (c, at, (k, i, e)) =
    let inside = All-of_mem (λ z. z < length cells) k (children c) (g.closed n c at) i in
    let falls = Fits-size v c (v n) k (m.fits n c at is_rep) i in
    let same : size (v r) ≡ size (v k) = ap (λ z. size (v z)) (sym e) ∙ ap size (m.same k inside) in
    omega (arith, falls, same)

-- A value for a cell, by the values of its children: a variable's is given.
abbrev value_of : (Variable → Symbol) → (ℕ → Symbol) → Option Cell → Symbol
value_of σ v none = infimum
value_of σ v (some (Cell.variable x)) = σ x
value_of σ v (some (Cell.leaf t)) = t
value_of σ v (some (Cell.function n xs)) = Symbol.function n (from_list (map v xs)) positive
value_of σ v (some (Cell.tuple xs)) = Symbol.tuple (from_list (map v xs))

value_of-Fits :
    (σ : Variable → Symbol) (v : ℕ → Symbol) (c : Cell) → Fits v c (value_of σ v (some c))
value_of-Fits σ v (Cell.variable x) = tt
value_of-Fits σ v (Cell.leaf t) = refl
value_of-Fits σ v (Cell.function n xs) = refl
value_of-Fits σ v (Cell.tuple xs) = refl

map-agree :
    (v w : ℕ → Symbol) (xs : List ℕ) → ((k : ℕ) → Mem k xs → v k ≡ w k) → map v xs ≡ map w xs
map-agree v w [] h = refl
map-agree v w (x ∷ xs) h =
    ap₂ (λ a as'. a ∷ as') (h x (inl refl)) (map-agree v w xs (λ k i. h k (inr i)))

value_of-agree :
    (σ : Variable → Symbol) (v w : ℕ → Symbol) (c : Cell)
    → ((k : ℕ) → Mem k (children c) → v k ≡ w k)
    → value_of σ v (some c) ≡ value_of σ w (some c)
value_of-agree σ v w (Cell.variable x) h = refl
value_of-agree σ v w (Cell.leaf t) h = refl
value_of-agree σ v w (Cell.function n xs) h =
    ap (λ z. Symbol.function n (from_list z) positive) (map-agree v w xs h)
value_of-agree σ v w (Cell.tuple xs) h = ap (λ z. Symbol.tuple (from_list z)) (map-agree v w xs h)

module _ (cells : List Cell) (parents ranks : List ℕ) (rep height : ℕ → ℕ)
    (g : IsGraph cells parents ranks rep height) (s : ℕ → ℕ) (d : Decreases cells rep s)
    (σ : Variable → Symbol) where
  unfoldable value : ℕ → ℕ → Symbol
  value zero n = infimum
  value (suc depth) n = value_of σ (value depth) (get_elem? cells (rep n))

  -- A depth over a class's number is enough.
  stable :
      (a b n : ℕ) (c : Cell)
      → n < length cells
      → get_elem? cells (rep n) ≡ some c
      → s (rep n) < a
      → s (rep n) < b
      → value a n ≡ value b n
  unfolding value
  stable zero b n c inside at low low' = absurd (omega (arith, low))
  stable (suc a) zero n c inside at low low' = absurd (omega (arith, low'))
  stable (suc a) (suc b) n c inside at low low' = rw at (
      value_of-agree σ (value a) (value b) c (λ k i.
        let k_inside =
          All-of_mem (λ z. z < length cells) k (children c) (g.closed (rep n) c at) i in
        let falls = d (rep n) (g.fixed n inside) (rep k) (c, at, (k, i, refl)) in
        let (b', at') = get_elem?-inside cells (rep k) (g.inside k k_inside) in
        stable a b k b' k_inside at' (omega (arith, falls, low)) (omega (arith, falls, low'))))

  unfoldable assigned : ℕ → Symbol
  assigned n = value (suc (s (rep n))) n

  -- Without a cycle, every class has a value, and a variable's may be any.
  pub Decreases-IsModel :
      (v : ℕ → Symbol) × IsModel cells rep v
      × ((id : ℕ) (x : Variable)
          → rep id ≡ id
          → get_elem? cells id ≡ some (Cell.variable x)
          → v id ≡ σ x)
  unfolding value assigned
  Decreases-IsModel = (
    assigned,
    record {
      same =
          λ id inside. ap (λ z. value_of σ (value (s z)) (get_elem? cells z)) (g.fixed id inside);
      fits = λ id c at is_rep.
          let e : get_elem? cells (rep id) ≡ some c = ap (get_elem? cells) is_rep ∙ at in
          let inside = inside-get_elem? cells id c at in
          rw e (
            subst (Fits assigned c)
              (value_of-agree σ assigned (value (s (rep id))) c (λ k i.
                let k_inside =
                  All-of_mem (λ z. z < length cells) k (children c) (g.closed id c at) i in
                let falls = d (rep id) (g.fixed id inside) (rep k) (c, e, (k, i, refl)) in
                let (b, at') = get_elem?-inside cells (rep k) (g.inside k k_inside) in
                stable (suc (s (rep k))) (s (rep id)) k b k_inside at' (omega arith) falls))
              (value_of-Fits σ assigned c));
    },
    λ id x is_rep at.
        let e : get_elem? cells (rep id) ≡ some (Cell.variable x) =
          ap (get_elem? cells) is_rep ∙ at in
        rw e refl,
  )

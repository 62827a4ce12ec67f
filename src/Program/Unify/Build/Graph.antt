-- ===== src/Program/Unify/Build/Graph.antt =====
-- A graph whose nodes are just built: every node is a class of its own.
use themelios.Prelude.{
  none, ℕ, zero, suc, ◌<◌, ◌≡◌, refl, sym, ap, subst, ◌∙◌, Bool-cases, if◌then◌else◌, ◌==◌, List,
  [], ◌∷◌, ◌++◌, some, Option-cases, ◌⊎◌, inl, inr, length, length-append, get_elem?, All, All-map,
  arith,
}
use themelios.Prelude.Order.{list_ord, nat_ord}
use themelios.Program.Symbol.{Name, is_eq}
use themelios.Program.Term.{Variable, anonymous}
use themelios.Program.Unify.Nodes.{Cell, Nodes, push_node, interned, variable_node}
use themelios.Program.Unify.Occurs.Decides.{inside-get_elem?}
use themelios.Program.Unify.Solve.State.{IsGraph, IsPlain, children, weight}

abbrev pub unmerged : ℕ → ℕ
unmerged x = x

abbrev pub flat : ℕ → ℕ
flat x = 0

pub record IsBuilt (graph : Nodes) : Type 0 where
  pub sized : length graph.parent ≡ length graph.cell
  pub ranked : length graph.rank ≡ length graph.cell
  pub apart : (id : ℕ) → id < length graph.cell → get_elem? graph.parent id ≡ some id
  pub closed :
      (id : ℕ) (c : Cell) → get_elem? graph.cell id ≡ some c → All (λ k. k < id) (children c)
  pub plain : (id : ℕ) (c : Cell) → get_elem? graph.cell id ≡ some c → IsPlain c
  pub names :
      (n : Name) (id : ℕ)
      → interned graph.named n ≡ some id
      → get_elem? graph.cell id ≡ some (Cell.variable (Variable.named n))

roots-unmerged : (i : ℕ) (cells : List Cell) → weight (λ c. 1) unmerged i cells ≡ length cells
roots-unmerged i [] = refl
roots-unmerged i (c ∷ cells) = elim (Bool-cases (i == i)) [
  | inl e ↦ rw e (omega (arith, roots-unmerged (suc i) cells))
  | inr e ↦ absurd (ground (arith, e))
]

pub IsBuilt-IsGraph :
    (graph : Nodes) → IsBuilt graph → IsGraph graph.cell graph.parent graph.rank unmerged flat
IsBuilt-IsGraph graph b = record {
  classes = λ id h. (id, b.apart id (omega (arith, h, b.sized)), h, refl, inl (refl, refl));
  sized = b.sized;
  ranked = b.ranked;
  inside = λ id h. h;
  fixed = λ id h. refl;
  low = λ id h. omega (arith, roots-unmerged 0 graph.cell);
  base = λ id h e. refl;
  closed = λ id c h.
      let inside = inside-get_elem? graph.cell id c h in
      All-map (children c) (λ k below. omega (arith, below, inside)) (b.closed id c h);
  plain = b.plain;
}

module _ {A : Type 0} where
  pub get_elem?-append_self : (xs : List A) (y : A) → get_elem? (xs ++ y ∷ []) (length xs) ≡ some y
  get_elem?-append_self [] y = refl
  get_elem?-append_self (x ∷ xs) y = get_elem?-append_self xs y

  get_elem?-append_low :
      (xs : List A) (y : A) (i : ℕ) → i < length xs → get_elem? (xs ++ y ∷ []) i ≡ get_elem? xs i
  get_elem?-append_low [] y i h = absurd (omega (arith, h))
  get_elem?-append_low (x ∷ xs) y zero h = refl
  get_elem?-append_low (x ∷ xs) y (suc i) h = get_elem?-append_low xs y i (omega (arith, h))

  append-cases :
      (xs : List A) (y : A) (i : ℕ) (c : A)
      → get_elem? (xs ++ y ∷ []) i ≡ some c
      → (get_elem? xs i ≡ some c) ⊎ ((i ≡ length xs) × (y ≡ c))
  append-cases [] y zero c h = inr (refl, ground (arith, h))
  append-cases [] y (suc i) c h = absurd (ground (arith, h))
  append-cases (x ∷ xs) y zero c h = inl h
  append-cases (x ∷ xs) y (suc i) c h = elim (append-cases xs y i c h) [
    | inl old ↦ inl old
    | inr (last, same) ↦ inr (ap suc last, same)
  ]

-- The nodes and the names of a graph stay.
abbrev pub Extends : Nodes → Nodes → Type 0
Extends graph graph' =
    ((id : ℕ) (c : Cell) → get_elem? graph.cell id ≡ some c → get_elem? graph'.cell id ≡ some c)
    × ((n : Name) (id : ℕ) → interned graph.named n ≡ some id → interned graph'.named n ≡ some id)

pub Extends-trans : (g g' g'' : Nodes) → Extends g g' → Extends g' g'' → Extends g g''
Extends-trans g g' g'' h k = ((λ id c e. k.0 id c (h.0 id c e)), λ n id e. k.1 n id (h.1 n id e))

-- A graph that a graph has become.
abbrev pub IsGrown : Nodes → Nodes → Type 0
IsGrown graph graph' = IsBuilt graph' × Extends graph graph'

-- The node of a variable.
abbrev pub IsVariableAt : Nodes → ℕ → Variable → Type 0
IsVariableAt graph' id (Variable.named n) =
    (get_elem? graph'.cell id ≡ some (Cell.variable (Variable.named n)))
    × (interned graph'.named n ≡ some id)
IsVariableAt graph' id anonymous = get_elem? graph'.cell id ≡ some (Cell.variable anonymous)

module _ (graph : Nodes) (b : IsBuilt graph) where
  longer : (c : Cell) → length (graph.cell ++ c ∷ []) ≡ suc (length graph.cell)
  longer c = omega (arith, length-append graph.cell (c ∷ []))

  push_node-Extends : (c : Cell) → Extends graph ((push_node graph c).1)
  push_node-Extends c = (
    (λ id d h. get_elem?-append_low graph.cell c id (inside-get_elem? graph.cell id d h) ∙ h),
    (λ n id h. h),
  )

  pub push_node-IsGrown :
      (c : Cell)
      → All (λ k. k < length graph.cell) (children c)
      → IsPlain c
      → IsGrown graph ((push_node graph c).1)
  push_node-IsGrown c inside is_plain = (
    record {
      sized = omega (arith, length-append graph.parent (length graph.cell ∷ []), longer c, b.sized);
      ranked = omega (arith, length-append graph.rank (0 ∷ []), longer c, b.ranked);
      apart = λ id h. elim (Bool-cases (id == length graph.cell)) [
        | inl e ↦
            let last : id ≡ length graph.parent = ground (arith, e, b.sized) in
            let one : id ≡ length graph.cell = ground (arith, e) in
            subst (λ z. get_elem? (graph.parent ++ length graph.cell ∷ []) z ≡ some id) (sym last)
              (get_elem?-append_self graph.parent (length graph.cell) ∙ ap some (sym one))
        | inr e ↦
            let low : id < length graph.cell = ground (arith, e, h, longer c) in
            get_elem?-append_low graph.parent (length graph.cell) id (omega (arith, low, b.sized))
            ∙ b.apart id low
      ];
      closed = λ id d h. elim (append-cases graph.cell c id d h) [
        | inl old ↦ b.closed id d old
        | inr (last, same) ↦
            subst (λ z. All (λ k. k < id) (children z)) same
              (subst (λ z. All (λ k. k < z) (children c)) (sym last) inside)
      ];
      plain = λ id d h. elim (append-cases graph.cell c id d h) [
        | inl old ↦ b.plain id d old
        | inr (_, same) ↦ subst IsPlain same is_plain
      ];
      names = λ n id h. (push_node-Extends c).0 id _ (b.names n id h);
    },
    push_node-Extends c,
  )

  -- A name that is new, with its node.
  new_name :
      (n m : Name) (id : ℕ)
      → (if is_eq (list_ord.cmp m n) then some (length graph.cell) else interned graph.named m)
        ≡ some id
      → ((m ≡ n) × (id ≡ length graph.cell)) ⊎ (interned graph.named m ≡ some id)
  new_name n m id h = elim (Bool-cases (is_eq (list_ord.cmp m n))) [
    | inl same ↦
        let it : length graph.cell ≡ id = ground (
          arith,
          sym (ap (λ t. if t then some (length graph.cell) else interned graph.named m) same) ∙ h,
        ) in
        inl (list_ord.eq_of_cmp m n (ground (arith, same)), sym it)
    | inr other ↦
        inr
          (sym (ap (λ t. if t then some (length graph.cell) else interned graph.named m) other) ∙ h)
  ]

  old_name :
      (n m : Name) (id : ℕ)
      → interned graph.named n ≡ none
      → interned graph.named m ≡ some id
      → (if is_eq (list_ord.cmp m n) then some (length graph.cell) else interned graph.named m)
        ≡ some id
  old_name n m id new h = elim (Bool-cases (is_eq (list_ord.cmp m n))) [
    | inr other ↦ rw other h
    | inl same ↦
        let one : m ≡ n = list_ord.eq_of_cmp m n (ground (arith, same)) in
        absurd (ground (arith, sym new ∙ ap (interned graph.named) (sym one) ∙ h))
  ]

  pub variable_node-IsGrown :
      (v : Variable)
      → IsGrown graph ((variable_node graph v).1)
        × IsVariableAt ((variable_node graph v).1) ((variable_node graph v).0) v
  unfolding variable_node
  variable_node-IsGrown anonymous = (
    push_node-IsGrown (Cell.variable anonymous) tt tt,
    get_elem?-append_self graph.cell (Cell.variable anonymous),
  )
  variable_node-IsGrown (Variable.named n) = elim (Option-cases (interned graph.named n)) [
    | inr (id, e) ↦ rw e ((b, ((λ i c h. h), (λ m i h. h))), (b.names n id e, e))
    | inl new ↦ rw new (
        let cell = Cell.variable (Variable.named n) in
        let (g, stays) = push_node-IsGrown cell tt tt in
        let last = get_elem?-append_self graph.cell cell in
        (
          (
            record {
              sized = g.sized;
              ranked = g.ranked;
              apart = g.apart;
              closed = g.closed;
              plain = g.plain;
              names = λ m id h. elim (new_name n m id h) [
                | inl (same, it) ↦
                    subst
                      (λ z.
                        get_elem? (graph.cell ++ cell ∷ []) z
                        ≡ some (Cell.variable (Variable.named m)))
                      (sym it) (last ∙ ap (λ z. some (Cell.variable (Variable.named z))) (sym same))
                | inr old ↦ stays.0 id _ (b.names m id old)
              ];
            },
            (stays.0, λ m id h. old_name n m id new h),
          ),
          (
            last,
            ap (λ t. if t then some (length graph.cell) else interned graph.named n)
                (ap is_eq (list_ord.cmp_refl n)),
          ),
        ))
  ]

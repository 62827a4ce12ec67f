-- ===== src/Program/Unify/Occurs/Enter.antt =====
-- What the occurs check keeps when a white node is entering.
use themelios.Prelude.{
  ℕ, ◌≤◌, ◌<◌, ◌≡◌, refl, sym, ap, subst, ◌∙◌, List, ◌∷◌, some, ◌⊎◌, inl, inr, length, length-set,
  get_elem?, get_elem?-set_self, set, Mem, arith,
}
use themelios.Program.Unify.Nodes.{Cell}
use themelios.Program.Unify.Solve.State.{children}
use themelios.Program.Unify.Occurs.{Colour, white, grey, Descent, enter, leave}
use themelios.Program.Unify.Occurs.Stack.{
  IsOpen, OnStack, Below, IsSettled-mono, entering, entering-IsOpen, IsOpen-entering,
  OnStack-entering, IsOver-entering, All-entering, IsSettled-entering,
}
use themelios.Program.Unify.Occurs.Visit.{IsBlack, set-cases, Decreases, IsVisit, distinct}

module _ (cells : List Cell) (rep : ℕ → ℕ)
    (within : (id : ℕ) → id < length cells → (rep id < length cells) × (rep (rep id) ≡ rep id))
    (colours : List Colour) (stack : List Descent) (node : ℕ)
    (v : IsVisit cells rep colours (enter node ∷ stack)) (was : get_elem? colours node ≡ some white)
    (c : Cell) (at : get_elem? cells node ≡ some c)
    (closed : (k : ℕ) → Mem k (children c) → k < length cells) where
  inside : node < length colours
  inside = omega (arith, (v.entries node (inl refl)).0, v.sized)

  node_grey : get_elem? (set colours node grey) node ≡ some grey
  node_grey = get_elem?-set_self colours node grey inside

  child-Below : (k : ℕ) → Mem k (children c) → Below cells rep node (rep k)
  child-Below k i = (c, at, (k, i, refl))

  IsBlack-kept : (x : ℕ) → IsBlack colours x → IsBlack (set colours node grey) x
  IsBlack-kept x h = elim (set-cases colours node grey x inside) [
    | inl (same, _) ↦ absurd (ground (arith, sym was ∙ sym (ap (get_elem? colours) same) ∙ h))
    | inr (_, e) ↦ e ∙ h
  ]

  IsBlack-was : (x : ℕ) → IsBlack (set colours node grey) x → IsBlack colours x
  IsBlack-was x h = elim (set-cases colours node grey x inside) [
    | inl (_, e) ↦ absurd (ground (arith, sym e ∙ h))
    | inr (_, e) ↦ sym e ∙ h
  ]

  grey_cases :
      (x : ℕ) → get_elem? (set colours node grey) x ≡ some grey → IsOpen (leave node ∷ stack) x
  grey_cases x h = elim (set-cases colours node grey x inside) [
    | inl (same, _) ↦ inl same
    | inr (_, e) ↦ inr (v.greys x (sym e ∙ h))
  ]

  open_grey :
      (x : ℕ) → IsOpen (leave node ∷ stack) x → get_elem? (set colours node grey) x ≡ some grey
  open_grey x (inl same) =
      subst (λ z. get_elem? (set colours node grey) z ≡ some grey) (sym same) node_grey
  open_grey x (inr o) = elim (set-cases colours node grey x inside) [
    | inl (_, e) ↦ e
    | inr (_, e) ↦ e ∙ v.opens x o
  ]

  -- What is to be left is at least as great as the node, by any number that falls from a class to its children.
  open_above :
      (s : ℕ → ℕ) → Decreases cells rep s → (x : ℕ) → IsOpen (leave node ∷ stack) x → s node ≤ s x
  open_above s d x (inl same) = omega (arith, ap s same)
  open_above s d x (inr o) = omega (arith, (v.ordered s d).0 x o)

  falls : (s : ℕ → ℕ) → Decreases cells rep s → (k : ℕ) → Mem k (children c) → s (rep k) < s node
  falls s d k i = d node ((v.entries node (inl refl)).1) (rep k) (child-Below k i)

  -- A child whose class is grey is a cycle.
  pub cyclic :
      (k : ℕ)
      → Mem k (children c)
      → get_elem? (set colours node grey) (rep k) ≡ some grey
      → (s : ℕ → ℕ) → Decreases cells rep s
      → ⊥
  cyclic k i h s d =
      absurd (omega (arith, falls s d k i, open_above s d (rep k) (grey_cases (rep k) h)))

  module _ (xs : List ℕ)
      (from : (x : ℕ)
        → Mem x xs
        → (get_elem? (set colours node grey) x ≡ some white)
          × ((k : ℕ) × Mem k (children c) × (rep k ≡ x)))
      (covered : (k : ℕ)
        → Mem k (children c)
        → IsBlack (set colours node grey) (rep k) ⊎ Mem (rep k) xs) where
    entering-IsRep : (x : ℕ) → Mem x xs → (x < length cells) × (rep x ≡ x)
    entering-IsRep x i =
        let (_, (k, m, e)) = from x i in
        subst (λ z. (z < length cells) × (rep z ≡ z)) e (within k (closed k m))

    base-IsRep : (x : ℕ) → OnStack (leave node ∷ stack) x → (x < length cells) × (rep x ≡ x)
    base-IsRep x o = v.entries x o

    awaits : (r : ℕ) → Below cells rep node r → Mem r xs ⊎ IsBlack (set colours node grey) r
    awaits r (b, at', (k, i, e)) =
        let same : b ≡ c = ground (arith, sym at' ∙ at) in
        subst (λ z. Mem z xs ⊎ IsBlack (set colours node grey) z) e
          (elim (covered k (subst (λ z. Mem k (children z)) same i)) [
            | inl h ↦ inr h
            | inr h ↦ inl h
          ])

    pub entering-IsVisit :
        IsVisit cells rep (set colours node grey) (entering xs (leave node ∷ stack))
    entering-IsVisit = record {
      sized = length-set colours node grey ∙ v.sized;
      entries = All-entering _ xs (leave node ∷ stack) entering-IsRep base-IsRep;
      greys = λ x h. IsOpen-entering xs (leave node ∷ stack) x (grey_cases x h);
      opens = λ x o. open_grey x (entering-IsOpen xs (leave node ∷ stack) x o);
      once =
          IsOver-entering _ xs (leave node ∷ stack)
            (λ x i m o.
              distinct cells rep (set colours node grey) x m white grey ((from x i).0)
                (open_grey m o) (λ e. absurd (ground (arith, e))))
            (v.once);
      ordered = λ s d.
          IsOver-entering (λ x m. s x < s m) xs (leave node ∷ stack)
            (λ x i m o.
              let (_, (k, member, e)) = from x i in
              omega (arith, ap s e, falls s d k member, open_above s d m o))
            (v.ordered s d);
      settled = IsSettled-entering cells rep _ xs (leave node ∷ stack) (
        awaits,
        IsSettled-mono cells rep _ _ stack
            (λ r p. elim p [ inl same ↦ inl same | inr b ↦ inr (inr (IsBlack-kept r b)) ])
            (v.settled.1),
      );
      times =
          let (s, t, h) = v.times in
          (
            s,
            t,
            λ x b.
                let (low, rest) = h x (IsBlack-was x b) in
                (low, λ r below. let (b', less) = rest r below in (IsBlack-kept r b', less)),
          );
    }

    pub entered_marks :
        (x : ℕ)
        → IsBlack colours x ⊎ OnStack (enter node ∷ stack) x
        → IsBlack (set colours node grey) x ⊎ OnStack (entering xs (leave node ∷ stack)) x
    entered_marks x (inl b) = inl (IsBlack-kept x b)
    entered_marks x (inr o) = inr (OnStack-entering xs (leave node ∷ stack) x o)

-- ===== src/Program/Unify/Occurs/Step.antt =====
-- A step of the occurs check: it keeps the state, comes nearer to the end, and refuses a cycle only.
use themelios.Prelude.{
  ℕ, suc, ◌+◌, ◌≤◌, ◌<◌, ◌≡◌, refl, sym, ap, subst, ◌∙◌, Bool, true, false, List, [], ◌∷◌, some,
  ◌⊎◌, inl, inr, length, length-set, get_elem?, set, Mem, All-of_mem, arith,
}
use themelios.Program.Unify.Nodes.{Cell, Nodes}
use themelios.Program.Unify.Nodes.Merge.{get_elem?-inside}
use themelios.Program.Unify.Solve.State.{children}
use themelios.Program.Unify.Occurs.{Colour, white, grey, black, Descent, enter, leave, step}
use themelios.Program.Unify.Occurs.Stack.{OnStack, length-entering}
use themelios.Program.Unify.Occurs.Children.{IsHeld, Colour-cases, Seen, see_children-Seen}
use themelios.Program.Unify.Occurs.Visit.{
  IsBlack, pale, pale-black, pale-grey, Decreases, IsVisit, blackened, node_black, left-IsVisit,
  never_grey, passed-IsVisit,
}
use themelios.Program.Unify.Occurs.Enter.{cyclic, entering-IsVisit, entered_marks}

module _ (cells : List Cell) (rep height : ℕ → ℕ) where
  -- No number falls from every class to those of its children.
  abbrev pub IsCyclic : Type 0
  IsCyclic = (s : ℕ → ℕ) → Decreases cells rep s → ⊥

  abbrev pub Stepped :
      List Colour → List Descent → Descent → Bool × (List Colour × (Nodes × List Descent)) → Type 0
  Stepped colours stack d (false, _) = IsCyclic
  Stepped colours stack d (true, (colours', (nodes', stack'))) =
      IsHeld cells rep height nodes'
      × IsVisit cells rep colours' stack'
      × (length stack' + pale colours' cells < suc (length stack) + pale colours cells)
      × (pale colours' cells ≤ pale colours cells)
      × ((x : ℕ)
          → IsBlack colours x ⊎ OnStack (d ∷ stack) x
          → IsBlack colours' x ⊎ OnStack stack' x)

  unfoldable pub Taken : List Colour → Nodes → List Descent → Descent → Type 0
  Taken colours nodes stack d =
      (answer : Bool × (List Colour × (Nodes × List Descent))) × (step colours nodes stack d
        ≡ some answer)
      × Stepped colours stack d answer

  module _ (colours : List Colour) (nodes : Nodes) (stack : List Descent) (node : ℕ)
      (held : IsHeld cells rep height nodes) where
    left-Taken :
        IsVisit cells rep colours (leave node ∷ stack) → Taken colours nodes stack (leave node)
    unfolding step Taken
    left-Taken v = (
      (true, (set colours node black, (nodes, stack))),
      refl,
      (
        held,
        left-IsVisit cells rep colours stack node v,
        omega (arith, pale-black colours cells node),
        pale-black colours cells node,
        λ x h. elim h [
          | inl b ↦ inl (blackened cells rep colours stack node v x b)
          | inr (inl same) ↦ inl (
              subst (IsBlack (set colours node black)) (sym same)
                (node_black cells rep colours stack node v))
          | inr (inr o) ↦ inr o
        ],
      ),
    )

    passed-Taken :
        IsVisit cells rep colours (enter node ∷ stack)
        → IsBlack colours node
        → Taken colours nodes stack (enter node)
    unfolding step Taken
    passed-Taken v b = (
      (true, (colours, (nodes, stack))),
      rw (b, step) refl,
      (
        held,
        passed-IsVisit cells rep colours stack node v b,
        omega arith,
        omega arith,
        λ x h. elim h [
          | inl c ↦ inl c
          | inr (inl same) ↦ inl (subst (IsBlack colours) (sym same) b)
          | inr (inr o) ↦ inr o
        ],
      ),
    )

    module _ (v : IsVisit cells rep colours (enter node ∷ stack))
        (was : get_elem? colours node ≡ some white) (c : Cell)
        (at : get_elem? cells node ≡ some c) where
      within : (id : ℕ) → id < length cells → (rep id < length cells) × (rep (rep id) ≡ rep id)
      within id h = (held.1.inside id h, held.1.fixed id h)

      closed : (k : ℕ) → Mem k (children c) → k < length cells
      closed k i = All-of_mem (λ z. z < length cells) k (children c) (held.1.closed node c at) i

      set_sized : length (set colours node grey) ≡ length cells
      set_sized = length-set colours node grey ∙ v.sized

      Seen-Stepped :
          (answer : Bool × (Nodes × List Descent))
          → Seen cells rep height
              (set colours node grey)
              set_sized
              (leave node ∷ stack)
              []
              (children c)
              answer
          → Stepped colours stack (enter node) (answer.0, (set colours node grey, answer.1))
      Seen-Stepped (false, _) (k, i, is_grey) =
          cyclic cells rep within colours stack node v was c at closed k i is_grey
      Seen-Stepped (true, (nodes', stack')) (held', (xs, e, from, kept, covered, short)) =
          let fresh : (x : ℕ)
              → Mem x xs
              → (get_elem? (set colours node grey) x ≡ some white)
                × ((k : ℕ) × Mem k (children c) × (rep k ≡ x)) =
            λ x i. elim (from x i) [ inl m ↦ absurd m | inr h ↦ h ] in
          let less = pale-grey colours cells node c was at in
          let long : length stack' ≡ length xs + suc (length stack) =
            ap length e ∙ length-entering xs (leave node ∷ stack) in
          (
            held',
            subst (IsVisit cells rep (set colours node grey)) (sym e) (
                entering-IsVisit cells rep within colours stack node v was c at closed xs fresh
                  covered),
            omega (arith, less, long, short),
            omega (arith, less),
            λ x h.
                subst (λ z. IsBlack (set colours node grey) x ⊎ OnStack z x) (sym e)
                  (entered_marks cells rep within colours stack node v was c at closed xs fresh
                    covered x h),
          )

      entering-Taken : Taken colours nodes stack (enter node)
      unfolding step Taken
      entering-Taken =
          let (answer, e, seen) =
            see_children-Seen cells rep height (set colours node grey) set_sized
              (leave node ∷ stack) (children c) nodes [] held closed in
          let cell_at : get_elem? (nodes.cell) node ≡ some c =
            ap (λ z. get_elem? z node) (held.0) ∙ at in
          (
            (answer.0, (set colours node grey, answer.1)),
            rw (was, cell_at, e, step) refl,
            Seen-Stepped answer seen,
          )

  pub step-Taken :
      (colours : List Colour) (nodes : Nodes) (stack : List Descent) (d : Descent)
      → IsHeld cells rep height nodes
      → IsVisit cells rep colours (d ∷ stack)
      → Taken colours nodes stack d
  step-Taken colours nodes stack (leave node) held v = left-Taken colours nodes stack node held v
  step-Taken colours nodes stack (enter node) held v =
      let inside = (v.entries node (inl refl)).0 in
      let (c, at) = get_elem?-inside cells node inside in
      let (colour, has) = get_elem?-inside colours node (omega (arith, inside, v.sized)) in
      elim (Colour-cases (get_elem? colours node) colour has) [
        | inl was ↦ entering-Taken colours nodes stack node held v was c at
        | inr (inl is_grey) ↦ absurd (never_grey cells rep colours stack node v is_grey)
        | inr (inr is_black) ↦ passed-Taken colours nodes stack node held v is_black
      ]

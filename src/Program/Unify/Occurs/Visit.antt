-- ===== src/Program/Unify/Occurs/Visit.antt =====
-- The colours and the stack of the occurs check, and what they keep when a node is left.
use themelios.Prelude.{
  ℕ, zero, suc, ◌+◌, ◌≤◌, ◌<◌, ◌≡◌, ◌≢◌, refl, sym, ap, subst, ◌∙◌, Bool-cases, if◌then◌else◌, ◌==◌,
  List, [], ◌∷◌, some, ◌⊎◌, inl, inr, length, length-set, get_elem?, get_elem?-set_self,
  get_elem?-set_ne, set, arith,
}
use themelios.Program.Unify.Nodes.{Cell}
use themelios.Program.Unify.Solve.State.{children}
use themelios.Program.Unify.Occurs.{Colour, white, grey, black, Descent, enter, leave}
use themelios.Program.Unify.Occurs.Stack.{IsOpen, IsOver, OnStack, Below, IsSettled, IsSettled-mono}

abbrev pub IsBlack : List Colour → ℕ → Type 0
IsBlack colours x = get_elem? colours x ≡ some black

-- The nodes that are still white, with their children.
abbrev pub pale : List Colour → List Cell → ℕ
pale [] cells = 0
pale (c ∷ colours) [] = 0
pale (white ∷ colours) (c ∷ cells) = suc (length (children c)) + pale colours cells
pale (grey ∷ colours) (c ∷ cells) = pale colours cells
pale (black ∷ colours) (c ∷ cells) = pale colours cells

pub pale-black :
    (colours : List Colour) (cells : List Cell) (i : ℕ)
    → pale (set colours i black) cells ≤ pale colours cells
pale-black [] cells i = omega arith
pale-black (c ∷ colours) [] zero = omega arith
pale-black (c ∷ colours) [] (suc i) = omega arith
pale-black (white ∷ colours) (c ∷ cells) zero = omega arith
pale-black (grey ∷ colours) (c ∷ cells) zero = omega arith
pale-black (black ∷ colours) (c ∷ cells) zero = omega arith
pale-black (white ∷ colours) (c ∷ cells) (suc i) = omega (arith, pale-black colours cells i)
pale-black (grey ∷ colours) (c ∷ cells) (suc i) = pale-black colours cells i
pale-black (black ∷ colours) (c ∷ cells) (suc i) = pale-black colours cells i

pub pale-grey :
    (colours : List Colour) (cells : List Cell) (i : ℕ) (c : Cell)
    → get_elem? colours i ≡ some white
    → get_elem? cells i ≡ some c
    → pale (set colours i grey) cells + suc (length (children c)) ≤ pale colours cells
pale-grey [] cells i c e h = absurd (ground (arith, e))
pale-grey (d ∷ colours) [] i c e h = absurd (ground (arith, h))
pale-grey (white ∷ colours) (b ∷ cells) zero c e h =
    let same : length (children b) ≡ length (children c) = ground (arith, h) in omega (arith, same)
pale-grey (grey ∷ colours) (b ∷ cells) zero c e h = absurd (ground (arith, e))
pale-grey (black ∷ colours) (b ∷ cells) zero c e h = absurd (ground (arith, e))
pale-grey (white ∷ colours) (b ∷ cells) (suc i) c e h =
    omega (arith, pale-grey colours cells i c e h)
pale-grey (grey ∷ colours) (b ∷ cells) (suc i) c e h = pale-grey colours cells i c e h
pale-grey (black ∷ colours) (b ∷ cells) (suc i) c e h = pale-grey colours cells i c e h

-- The colour of a node, once one is set.
pub set-cases :
    (colours : List Colour) (node : ℕ) (c : Colour) (x : ℕ)
    → node < length colours
    → ((x ≡ node) × (get_elem? (set colours node c) x ≡ some c))
      ⊎ ((x ≢ node) × (get_elem? (set colours node c) x ≡ get_elem? colours x))
set-cases colours node c x inside = elim (Bool-cases (x == node)) [
  | inl e ↦
      let same : x ≡ node = ground (arith, e) in
      inl (
        same,
        subst (λ z. get_elem? (set colours node c) z ≡ some c) (sym same)
            (get_elem?-set_self colours node c inside),
      )
  | inr e ↦
      let apart : x ≢ node = λ same. ground (arith, e, same) in
      inr (apart, get_elem?-set_ne colours node x c (λ same. apart (sym same)))
]

module _ (cells : List Cell) (rep : ℕ → ℕ) where
  -- A number for each class that falls from a class to those of its children.
  abbrev pub Decreases : (ℕ → ℕ) → Type 0
  Decreases s = (n : ℕ) → rep n ≡ n → (r : ℕ) → Below cells rep n r → s r < s n

  -- The black nodes have black children, and times `s` at which they turned black.
  abbrev pub Timed : List Colour → (ℕ → ℕ) → ℕ → Type 0
  Timed colours s t =
      (x : ℕ)
      → IsBlack colours x
      → (s x < t) × ((r : ℕ) → Below cells rep x r → IsBlack colours r × (s r < s x))

  pub record IsVisit (colours : List Colour) (stack : List Descent) : Type 0 where
    pub sized : length colours ≡ length cells
    pub entries : (x : ℕ) → OnStack stack x → (x < length cells) × (rep x ≡ x)
    pub greys : (x : ℕ) → get_elem? colours x ≡ some grey → IsOpen stack x
    pub opens : (x : ℕ) → IsOpen stack x → get_elem? colours x ≡ some grey
    pub once : IsOver (λ x m. x ≢ m) stack
    pub ordered : (s : ℕ → ℕ) → Decreases s → IsOver (λ x m. s x < s m) stack
    pub settled : IsSettled cells rep (IsBlack colours) stack
    pub times : (s : ℕ → ℕ) × (t : ℕ) × Timed colours s t

  pub distinct :
      (colours : List Colour) (x y : ℕ) (c d : Colour)
      → get_elem? colours x ≡ some c
      → get_elem? colours y ≡ some d
      → c ≢ d
      → x ≢ y
  distinct colours x y c d at at' differ same =
      differ (ground (arith, sym at ∙ ap (get_elem? colours) same ∙ at'))

  grey_black : grey ≢ black
  grey_black e = absurd (ground (arith, e))

  module _ (colours : List Colour) (stack : List Descent) (node : ℕ)
      (v : IsVisit colours (leave node ∷ stack)) where
    was : get_elem? colours node ≡ some grey
    was = v.opens node (inl refl)

    inside : node < length colours
    inside = omega (arith, (v.entries node (inl refl)).0, v.sized)

    pub blackened : (x : ℕ) → IsBlack colours x → IsBlack (set colours node black) x
    blackened x h = elim (set-cases colours node black x inside) [
      | inl (_, e) ↦ e
      | inr (_, e) ↦ e ∙ h
    ]

    pub node_black : IsBlack (set colours node black) node
    node_black = get_elem?-set_self colours node black inside

    unfoldable later : (ℕ → ℕ) → ℕ → ℕ → ℕ
    later s t x = if x == node then t else s x

    later_other : (s : ℕ → ℕ) (t x : ℕ) → x ≢ node → later s t x ≡ s x
    unfolding later
    later_other s t x apart = elim (Bool-cases (x == node)) [
      | inl e ↦ absurd (apart (ground (arith, e)))
      | inr e ↦ rw e refl
    ]

    later_node : (s : ℕ → ℕ) (t : ℕ) → later s t node ≡ t
    unfolding later
    later_node s t = elim (Bool-cases (node == node)) [
      | inl e ↦ rw e refl
      | inr e ↦ absurd (ground (arith, e))
    ]

    left-Timed :
        (s : ℕ → ℕ) (t : ℕ) → Timed colours s t → Timed (set colours node black) (later s t) (suc t)
    left-Timed s t h x is_black = elim (set-cases colours node black x inside) [
      | inl (same, _) ↦
          subst
            (λ z.
              (later s t z < suc t)
              × ((r : ℕ)
                  → Below cells rep z r
                  → IsBlack (set colours node black) r × (later s t r < later s t z)))
            (sym same)
            (
              omega (arith, later_node s t),
              λ r below.
                  let b = v.settled.0 r below in
                  let other =
                    later_other s t r
                      (distinct colours r node black grey b was (λ e. grey_black (sym e))) in
                  (blackened r b, omega (arith, later_node s t, other, (h r b).0)),
            )
      | inr (apart, e) ↦
          let b : IsBlack colours x = sym e ∙ is_black in
          let here = later_other s t x apart in
          (
            omega (arith, here, (h x b).0),
            λ r below.
                let (b', less) = (h x b).1 r below in
                let other =
                  later_other s t r
                    (distinct colours r node black grey b' was (λ e. grey_black (sym e))) in
                (blackened r b', omega (arith, here, other, less)),
          )
    ]

    pub left-IsVisit : IsVisit (set colours node black) stack
    left-IsVisit = record {
      sized = length-set colours node black ∙ v.sized;
      entries = λ x o. v.entries x (inr o);
      greys = λ x h. elim (set-cases colours node black x inside) [
        | inl (_, e) ↦ absurd (ground (arith, e, h))
        | inr (apart, e) ↦ elim (v.greys x (sym e ∙ h)) [
          | inl same ↦ absurd (apart same)
          | inr o ↦ o
        ]
      ];
      opens = λ x o. elim (set-cases colours node black x inside) [
        | inl (same, _) ↦ absurd (v.once.0 x o (sym same))
        | inr (_, e) ↦ e ∙ v.opens x (inr o)
      ];
      once = v.once.1;
      ordered = λ s d. (v.ordered s d).1;
      settled =
          IsSettled-mono cells rep _ _ stack
            (λ r p. elim p [
              | inl same ↦ subst (IsBlack (set colours node black)) (sym same) node_black
              | inr b ↦ blackened r b
            ])
            (v.settled.1);
      times = let (s, t, h) = v.times in (later s t, suc t, left-Timed s t h);
    }

  module _ (colours : List Colour) (stack : List Descent) (node : ℕ)
      (v : IsVisit colours (enter node ∷ stack)) where
    pub never_grey : get_elem? colours node ≡ some grey → ⊥
    never_grey e = v.once.0 node (v.greys node e) refl

    pub passed-IsVisit : IsBlack colours node → IsVisit colours stack
    passed-IsVisit is_black = record {
      sized = v.sized;
      entries = λ x o. v.entries x (inr o);
      greys = v.greys;
      opens = v.opens;
      once = v.once.1;
      ordered = λ s d. (v.ordered s d).1;
      settled =
          IsSettled-mono cells rep _ _ stack
            (λ r p. elim p [ inl same ↦ subst (IsBlack colours) (sym same) is_black | inr b ↦ b ])
            (v.settled.1);
      times = v.times;
    }

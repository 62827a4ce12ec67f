-- ===== src/Program/Unify/Occurs/Stack.antt =====
-- The stack of the occurs check: what it keeps of the nodes on it.
use themelios.Prelude.{
  ℕ, ◌+◌, ◌≡◌, refl, sym, subst, List, [], ◌∷◌, some, ◌⊎◌, inl, inr, length, get_elem?, Mem, arith,
}
use themelios.Program.Unify.Nodes.{Cell}
use themelios.Program.Unify.Occurs.{Descent, enter, leave}
use themelios.Program.Unify.Solve.State.{children}

abbrev pub node_of : Descent → ℕ
node_of (enter n) = n
node_of (leave n) = n

-- The node is to be left.
abbrev pub IsOpen : List Descent → ℕ → Type 0
IsOpen [] m = ⊥
IsOpen (enter n ∷ stack) m = IsOpen stack m
IsOpen (leave n ∷ stack) m = (m ≡ n) ⊎ IsOpen stack m

-- `R` holds between every node on the stack and those below it that are to be left.
abbrev pub IsOver : (ℕ → ℕ → Type 0) → List Descent → Type 0
IsOver R [] = Unit
IsOver R (d ∷ stack) = ((m : ℕ) → IsOpen stack m → R (node_of d) m) × IsOver R stack

abbrev pub OnStack : List Descent → ℕ → Type 0
OnStack [] x = ⊥
OnStack (d ∷ stack) x = (x ≡ node_of d) ⊎ OnStack stack x

abbrev pub entering : List ℕ → List Descent → List Descent
entering [] stack = stack
entering (x ∷ xs) stack = enter x ∷ entering xs stack

pub entering-IsOpen :
    (xs : List ℕ) (stack : List Descent) (m : ℕ) → IsOpen (entering xs stack) m → IsOpen stack m
entering-IsOpen [] stack m h = h
entering-IsOpen (x ∷ xs) stack m h = entering-IsOpen xs stack m h

pub IsOpen-entering :
    (xs : List ℕ) (stack : List Descent) (m : ℕ) → IsOpen stack m → IsOpen (entering xs stack) m
IsOpen-entering [] stack m h = h
IsOpen-entering (x ∷ xs) stack m h = IsOpen-entering xs stack m h

pub OnStack-entering :
    (xs : List ℕ) (stack : List Descent) (x : ℕ) → OnStack stack x → OnStack (entering xs stack) x
OnStack-entering [] stack x h = h
OnStack-entering (y ∷ xs) stack x h = inr (OnStack-entering xs stack x h)

pub IsOver-entering :
    (R : ℕ → ℕ → Type 0) (xs : List ℕ) (stack : List Descent)
    → ((x : ℕ) → Mem x xs → (m : ℕ) → IsOpen stack m → R x m)
    → IsOver R stack
    → IsOver R (entering xs stack)
IsOver-entering R [] stack h g = g
IsOver-entering R (x ∷ xs) stack h g = (
  (λ m o. h x (inl refl) m (entering-IsOpen xs stack m o)),
  IsOver-entering R xs stack (λ y i. h y (inr i)) g,
)

pub length-entering :
    (xs : List ℕ) (stack : List Descent) → length (entering xs stack) ≡ length xs + length stack
length-entering [] stack = omega arith
length-entering (x ∷ xs) stack = omega (arith, length-entering xs stack)

pub All-entering :
    (P : ℕ → Type 0) (xs : List ℕ) (stack : List Descent)
    → ((x : ℕ) → Mem x xs → P x)
    → ((x : ℕ) → OnStack stack x → P x)
    → (x : ℕ) → OnStack (entering xs stack) x
    → P x
All-entering P [] stack h g x o = g x o
All-entering P (y ∷ xs) stack h g x (inl e) = subst P (sym e) (h y (inl refl))
All-entering P (y ∷ xs) stack h g x (inr o) = All-entering P xs stack (λ z i. h z (inr i)) g x o

module _ (cells : List Cell) (rep : ℕ → ℕ) where
  -- The representatives of the node's children.
  abbrev pub Below : ℕ → ℕ → Type 0
  Below n r =
      (c : Cell) × (get_elem? cells n ≡ some c) × ((k : ℕ) × Mem k (children c) × (rep k ≡ r))

  abbrev pub Awaits : (ℕ → Type 0) → Descent → Type 0
  Awaits P (enter n) = Unit
  Awaits P (leave n) = (r : ℕ) → Below n r → P r

  -- What is to be left has its children in `P`, or above it on the stack.
  abbrev pub IsSettled : (ℕ → Type 0) → List Descent → Type 0
  IsSettled P [] = Unit
  IsSettled P (d ∷ stack) = Awaits P d × IsSettled (λ r. (r ≡ node_of d) ⊎ P r) stack

  pub IsSettled-mono :
      (P Q : ℕ → Type 0) (stack : List Descent)
      → ((r : ℕ) → P r → Q r)
      → IsSettled P stack
      → IsSettled Q stack
  IsSettled-mono P Q [] f h = tt
  IsSettled-mono P Q (enter n ∷ stack) f h =
      (tt, IsSettled-mono _ _ stack (λ r p. elim p [ inl e ↦ inl e | inr q ↦ inr (f r q) ]) (h.1))
  IsSettled-mono P Q (leave n ∷ stack) f h = (
    (λ r below. f r (h.0 r below)),
    IsSettled-mono _ _ stack (λ r p. elim p [ inl e ↦ inl e | inr q ↦ inr (f r q) ]) (h.1),
  )

  pub IsSettled-entering :
      (P : ℕ → Type 0) (xs : List ℕ) (stack : List Descent)
      → IsSettled (λ r. Mem r xs ⊎ P r) stack
      → IsSettled P (entering xs stack)
  IsSettled-entering P [] stack h =
      IsSettled-mono _ _ stack (λ r p. elim p [ inl m ↦ absurd m | inr q ↦ q ]) h
  IsSettled-entering P (x ∷ xs) stack h = (
    tt,
    IsSettled-entering _ xs stack (
        IsSettled-mono _ _ stack
          (λ r p. elim p [ inl (inl e) ↦ inr (inl e) | inl (inr m) ↦ inl m | inr q ↦ inr (inr q) ])
          h),
  )

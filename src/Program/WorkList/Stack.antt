-- ===== src/Program/WorkList/Stack.antt =====
-- The work list is a stack: `entries` reads it, the most recent entry first.
use themelios.Prelude.{
  ℕ, zero, suc, ◌≤◌, ◌<◌, ◌≡◌, refl, ap₂, ◌∙◌, ⊎_elim, inl, inr, List, [], ◌∷◌, ◌++◌, Option, none,
  some, arith, length, get_elem?, set, length-set, Option-cases, reverse, reverse-cons,
  append_assoc,
}
use themelios.Program.WorkList.{WorkList, inline_cap, empty, push, pop, extend, IsValid}

module _ {T : Type 0} where
  -- The first `n` slots, the last of them first.
  abbrev pub top_down : List T → ℕ → List T
  top_down xs zero = []
  top_down [] (suc n) = []
  top_down (x ∷ xs) (suc n) = top_down xs n ++ x ∷ []

  pub entries : WorkList T → List T
  entries w = w.spill ++ top_down w.inline w.len

  get_elem?-lt : (xs : List T) (n : ℕ) {x : T} → get_elem? xs n ≡ some x → n < length xs
  get_elem?-lt [] n h = cc
  get_elem?-lt (y ∷ xs) zero h = omega arith
  get_elem?-lt (y ∷ xs) (suc n) h = omega (arith, get_elem?-lt xs n h)

  le_of_get_elem? : (xs : List T) (n : ℕ) → get_elem? xs n ≡ none → length xs ≤ n
  le_of_get_elem? [] n h = omega arith
  le_of_get_elem? (y ∷ xs) zero h = cc
  le_of_get_elem? (y ∷ xs) (suc n) h = omega (arith, le_of_get_elem? xs n h)

  top_down-set :
      (xs : List T) (n : ℕ) (x : T)
      → n < length xs
      → top_down (set xs n x) (suc n) ≡ x ∷ top_down xs n
  top_down-set [] n x h = elim h [ ]
  top_down-set (y ∷ xs) zero x h = elim xs [ [] ↦ refl | z ∷ zs ↦ refl ]
  top_down-set (y ∷ xs) (suc n) x h = rw (top_down-set xs n x (omega arith))

  top_down-suc :
      (xs : List T) (n : ℕ)
      → n < length xs
      → (x : T) × (get_elem? xs n ≡ some x) × (top_down xs (suc n) ≡ x ∷ top_down xs n)
  top_down-suc [] n h = elim h [ ]
  top_down-suc (y ∷ xs) zero h = (y, refl, refl)
  top_down-suc (y ∷ xs) (suc n) h =
      let (x, at, e) = top_down-suc xs n (omega arith) in (x, at, rw e)

  pub empty-IsValid : (filler : T) → IsValid (empty filler)
  unfolding empty
  empty-IsValid filler = record { sized = refl; within = omega arith; full = inl refl }

  pub entries-empty : (filler : T) → entries (empty filler) ≡ []
  unfolding empty entries
  entries-empty filler = refl

  no_spill : (w : WorkList T) → IsValid w → w.len < inline_cap → w.spill ≡ []
  no_spill w h lt = elim h.full [ inl e ↦ e | inr e ↦ absurd (omega arith) ]

  push_inline :
      (w : WorkList T) (x y : T)
      → IsValid w
      → get_elem? w.inline w.len ≡ some y
      → IsValid (push w x) × (entries (push w x) ≡ x ∷ entries w)
  unfolding push entries
  push_inline w x y h e =
      let room = get_elem?-lt w.inline w.len e in
      let empty_spill = no_spill w h (omega (arith, h.sized)) in
      rw (e, push)
        (
          record {
            sized = omega (arith, length-set w.inline w.len x, h.sized);
            within = omega (arith, h.sized);
            full = inl empty_spill;
          },
          rw empty_spill (top_down-set w.inline w.len x room),
        )

  push_spill :
      (w : WorkList T) (x : T)
      → IsValid w
      → get_elem? w.inline w.len ≡ none
      → IsValid (push w x) × (entries (push w x) ≡ x ∷ entries w)
  unfolding push entries
  push_spill w x h e =
      let past = le_of_get_elem? w.inline w.len e in
      rw (e, push)
        (
          record {
            sized = h.sized;
            within = h.within;
            full = inr (omega (arith, h.sized, h.within));
          },
          refl,
        )

  -- A push keeps the work list valid and puts its entry on top.
  pub push_lem :
      (w : WorkList T) (x : T)
      → IsValid w
      → IsValid (push w x) × (entries (push w x) ≡ x ∷ entries w)
  push_lem w x h = elim (Option-cases (get_elem? w.inline w.len)) [
    | inl e ↦ push_spill w x h e
    | inr (y, e) ↦ push_inline w x y h e
  ]

  abbrev pub top : List T → Option T
  top [] = none
  top (x ∷ _) = some x

  abbrev pub below : List T → List T
  below [] = []
  below (_ ∷ rest) = rest

  pop_down :
      (inline : List T) (n : ℕ)
      → length inline ≡ inline_cap
      → n ≤ inline_cap
      → let w : WorkList T = record { inline = inline; len = n; spill = [] } in
        IsValid (pop w).0 × ((pop w).1 ≡ top (entries w)) × (entries (pop w).0 ≡ below (entries w))
  unfolding pop entries
  pop_down inline zero sized within =
      (record { sized = sized; within = within; full = inl refl }, refl, refl)
  pop_down inline (suc n) sized within =
      let (x, at, e) = top_down-suc inline n (omega arith) in
      (record { sized = sized; within = omega arith; full = inl refl }, rw e at, rw e)

  pop_any :
      (inline : List T) (n : ℕ) (spill : List T)
      → let w : WorkList T = record { inline = inline; len = n; spill = spill } in
        IsValid w
        → IsValid (pop w).0
          × ((pop w).1 ≡ top (entries w))
          × (entries (pop w).0 ≡ below (entries w))
  unfolding pop entries
  pop_any inline n [] h = pop_down inline n h.sized h.within
  pop_any inline n (x ∷ rest) h = (
    record { sized = h.sized; within = h.within; full = ⊎_elim (λ e. absurd (cc e)) inr h.full },
    refl,
    refl,
  )

  -- A pop takes the top entry, keeps the rest and stays valid; of an empty one it takes nothing.
  pub pop_lem :
      (w : WorkList T)
      → IsValid w
      → IsValid (pop w).0 × ((pop w).1 ≡ top (entries w)) × (entries (pop w).0 ≡ below (entries w))
  pop_lem w h = pop_any w.inline w.len w.spill h

  -- `extend` pushes one entry after the other, so the last comes out first.
  pub extend_lem :
      (w : WorkList T) (xs : List T)
      → IsValid w
      → IsValid (extend w xs) × (entries (extend w xs) ≡ reverse xs ++ entries w)
  unfolding extend
  extend_lem w [] h = (h, refl)
  extend_lem w (x ∷ xs) h =
      let (pushed, on_top) = push_lem w x h in
      let (valid, e) = extend_lem (push w x) xs pushed in
      (valid, e ∙ rw (on_top, reverse-cons, append_assoc))

-- A caller's use of the list: any sequence of pushes and pops.
pub data Op (T : Type 0) : Type 0 where
  pushes : T → Op T
  pops : Op T

module _ {T : Type 0} where
  -- What the pops of a sequence answer, on the work list and on a plain stack.
  pub run : WorkList T → List (Op T) → List (Option T)
  run w [] = []
  run w (pushes x ∷ ops) = run (push w x) ops
  run w (pops ∷ ops) = (pop w).1 ∷ run (pop w).0 ops

  pub run_stack : List T → List (Op T) → List (Option T)
  run_stack s [] = []
  run_stack s (pushes x ∷ ops) = run_stack (x ∷ s) ops
  run_stack s (pops ∷ ops) = top s ∷ run_stack (below s) ops

  run-eq-run_stack :
      (w : WorkList T) (ops : List (Op T)) → IsValid w → run w ops ≡ run_stack (entries w) ops
  unfolding run run_stack
  run-eq-run_stack w [] h = refl
  run-eq-run_stack w (pushes x ∷ ops) h =
      let (valid, e) = push_lem w x h in rw (← e) (run-eq-run_stack (push w x) ops valid)
  run-eq-run_stack w (pops ∷ ops) h =
      let (valid, answer, e) = pop_lem w h in
      ap₂ ◌∷◌ answer (run-eq-run_stack (pop w).0 ops valid ∙ rw e)

  -- From the empty work list, any sequence of pushes and pops answers each pop as a plain
  -- last-in-first-out stack does, across the boundary between the inline and the heap part.
  pub run-empty : (filler : T) (ops : List (Op T)) → run (empty filler) ops ≡ run_stack [] ops
  run-empty filler ops =
      run-eq-run_stack (empty filler) ops (empty-IsValid filler) ∙ rw (entries-empty filler)

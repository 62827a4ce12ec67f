-- ===== src/Program/Term/Fold.antt =====
-- The loop of `try_fold` against the recursion on the term that it stands for.
use themelios.Prelude.{
  ℕ, suc, ◌+◌, ◌-◌, ◌*◌, ◌≤◌, ◌≡◌, refl, sym, ap, ◌∙◌, List, [], ◌∷◌, ◌++◌, append_assoc,
  append-nil, map, Option, some, length, inl, inr, Result-cases, and_then, Result, ok, err, arith,
}
use themelios.Program.Term.{
  Term, Terms, no_terms, with_term, to_vec, TermParts, Shell, Frame, enter, assemble, split_off,
  assemble_parts, fold_loop, try_fold,
}

-- The number of a term's nodes.
abbrev mutual
  pub nodes : Term → ℕ
  nodes (Term.variable v) = 1
  nodes (Term.symbolic s) = 1
  nodes (Term.function n ts) = suc (nodes_of ts)
  nodes (Term.tuple ts) = suc (nodes_of ts)
  nodes (Term.pool ts) = suc (nodes_of ts)
  nodes (Term.unary_operation op t) = suc (nodes t)
  nodes (Term.binary_operation op l r) = suc (nodes l + nodes r)
  nodes (Term.interval l u) = suc (nodes l + nodes u)
  nodes (Term.absolute t) = suc (nodes t)
  nodes (Term.external n ts) = suc (nodes_of ts)

  pub nodes_of : Terms → ℕ
  nodes_of no_terms = 0
  nodes_of (with_term t ts) = nodes t + nodes_of ts

-- Finished children on the stack, the last on top.
abbrev pub onto : {T : Type 0} → List T → List T → List T
onto [] done = done
onto (x ∷ xs) done = onto xs (x ∷ done)

module _ {T E : Type 0} (step : TermParts T → Result T E) where
  -- The recursion: each node after its children, in order, up to the first refusal.
  abbrev mutual
    pub tree : Term → Result T E
    tree (Term.variable v) = step (TermParts.variable v)
    tree (Term.symbolic s) = step (TermParts.symbolic s)
    tree (Term.function n ts) = and_then (trees ts) (λ xs. step (TermParts.function n xs))
    tree (Term.tuple ts) = and_then (trees ts) (λ xs. step (TermParts.tuple xs))
    tree (Term.pool ts) = and_then (trees ts) (λ xs. step (TermParts.pool xs))
    tree (Term.unary_operation op t) =
        and_then (tree t) (λ x. step (TermParts.unary_operation op x))
    tree (Term.binary_operation op l r) =
        and_then (tree l) (λ x. and_then (tree r) (λ y. step (TermParts.binary_operation op x y)))
    tree (Term.interval l u) =
        and_then (tree l) (λ x. and_then (tree u) (λ y. step (TermParts.interval x y)))
    tree (Term.absolute t) = and_then (tree t) (λ x. step (TermParts.absolute x))
    tree (Term.external n ts) = and_then (trees ts) (λ xs. step (TermParts.external n xs))

    pub trees : Terms → Result (List T) E
    trees no_terms = ok []
    trees (with_term t ts) = and_then (tree t) (λ x. and_then (trees ts) (λ xs. ok (x ∷ xs)))

  -- The loop once the frames on top are done.
  abbrev after : Result T E → ℕ → List Frame → List T → Option (Result T E)
  after (err e) fuel work done = some (err e)
  after (ok t) fuel work done = fold_loop step fuel work (t ∷ done)

  abbrev after_all : Result (List T) E → ℕ → List Frame → List T → Option (Result T E)
  after_all (err e) fuel work done = some (err e)
  after_all (ok xs) fuel work done = fold_loop step fuel work (onto xs done)

cost : (n fuel : ℕ) → 2 * suc n + fuel ≡ suc (2 * n + suc fuel)
cost n fuel = omega arith

cost_leaf : (fuel : ℕ) → 2 * 1 + fuel ≡ suc (suc fuel)
cost_leaf fuel = omega arith

cost_two : (n m fuel : ℕ) → 2 * suc (n + m) + fuel ≡ suc (2 * n + (2 * m + suc fuel))
cost_two n m fuel = omega arith

cost_list : (n m fuel : ℕ) → 2 * (n + m) + fuel ≡ 2 * n + (2 * m + fuel)
cost_list n m fuel = omega arith

split_off-below :
    {T : Type 0} (xs ys below done : List T) (k : ℕ)
    → split_off k below ≡ some (ys, done)
    → split_off (length xs + k) (onto xs below) ≡ some (ys ++ xs, done)
split_off-below [] ys below done k h =
    ap (λ n. split_off n below) (omega arith) ∙ h ∙ ap (λ z. some (z, done)) (sym (append-nil ys))
split_off-below (x ∷ xs) ys below done k h =
    let next : split_off (suc k) (x ∷ below) ≡ some (ys ++ x ∷ [], done) = rw h refl in
    ap (λ n. split_off n (onto xs (x ∷ below))) (omega arith)
    ∙ split_off-below xs (ys ++ x ∷ []) (x ∷ below) done (suc k) next
    ∙ ap (λ z. some (z, done)) (append_assoc ys (x ∷ []) xs)

pub split_off-onto :
    {T : Type 0} (xs done : List T) → split_off (length xs) (onto xs done) ≡ some (xs, done)
split_off-onto xs done =
    ap (λ n. split_off n (onto xs done)) (omega arith) ∙ split_off-below xs [] done done 0 refl

module _ {T E : Type 0} (step : TermParts T → Result T E) where
  finished : (fuel : ℕ) (r : Result T E) → after step r (suc fuel) [] [] ≡ some r
  unfolding fold_loop
  finished fuel (err e) = refl
  finished fuel (ok t) = refl

  next_children :
      (fuel fuel' : ℕ) (rest work : List Frame) (done : List T) (r : Result T E)
      (s : Result (List T) E)
      → ((done : List T) → fold_loop step fuel' rest done ≡ after_all step s fuel work done)
      → after step r fuel' rest done
        ≡ after_all step (and_then r (λ x. and_then s (λ xs. ok (x ∷ xs)))) fuel work done
  next_children fuel fuel' rest work done (err e) s folds = refl
  next_children fuel fuel' rest work done (ok x) (err e) folds = folds (x ∷ done)
  next_children fuel fuel' rest work done (ok x) (ok xs) folds = folds (x ∷ done)

  -- A node's assembly, its children finished.
  assembled :
      (fuel : ℕ) (shell : Shell) (xs : List T) (parts : TermParts T) (work : List Frame)
      (done : List T)
      → assemble_parts shell xs ≡ some parts
      → fold_loop step (suc fuel) (assemble shell (length xs) ∷ work) (onto xs done)
        ≡ after step (step parts) fuel work done
  unfolding fold_loop
  assembled fuel shell xs parts work done e = elim (Result-cases (step parts)) [
    | inl (t, is_ok) ↦ rw (split_off-onto xs done, e, is_ok, fold_loop) refl
    | inr (f, is_err) ↦ rw (split_off-onto xs done, e, is_err, fold_loop) refl
  ]

  one_child :
      (fuel : ℕ) (work : List Frame) (done : List T) (shell : Shell) (make : T → TermParts T)
      (r : Result T E)
      → ((x : T) → assemble_parts shell (x ∷ []) ≡ some (make x))
      → after step r (suc fuel) (assemble shell 1 ∷ work) done
        ≡ after step (and_then r (λ x. step (make x))) fuel work done
  one_child fuel work done shell make (err e) made = refl
  one_child fuel work done shell make (ok x) made =
      assembled fuel shell (x ∷ []) (make x) work done (made x)

  two_children :
      (fuel fuel' : ℕ) (work : List Frame) (done : List T) (shell : Shell)
      (make : T → T → TermParts T) (right : Term) (r s : Result T E)
      → ((x y : T) → assemble_parts shell (x ∷ y ∷ []) ≡ some (make x y))
      → ((done : List T)
          → fold_loop step fuel' (enter right ∷ assemble shell 2 ∷ work) done
            ≡ after step s (suc fuel) (assemble shell 2 ∷ work) done)
      → after step r fuel' (enter right ∷ assemble shell 2 ∷ work) done
        ≡ after step (and_then r (λ x. and_then s (λ y. step (make x y)))) fuel work done
  two_children fuel fuel' work done shell make right (err e) s made folds = refl
  two_children fuel fuel' work done shell make right (ok x) (err e) made folds = folds (x ∷ done)
  two_children fuel fuel' work done shell make right (ok x) (ok y) made folds =
      folds (x ∷ done) ∙ assembled fuel shell (x ∷ y ∷ []) (make x y) work done (made x y)

  length-trees : (ts : Terms) (xs : List T) → trees step ts ≡ ok xs → length xs ≡ length (to_vec ts)
  length-trees no_terms [] h = refl
  length-trees no_terms (x ∷ xs) h = absurd (ground (arith, h))
  length-trees (with_term t ts) xs h = elim (Result-cases (tree step t)) [
    | inr (e, is_err) ↦ absurd (ground (arith, h, is_err))
    | inl (x, is_ok) ↦ elim (Result-cases (trees step ts)) [
      | inr (e, are_err) ↦ absurd (ground (arith, h, is_ok, are_err))
      | inl (ys, are_ok) ↦ ground (arith, h, is_ok, are_ok, length-trees ts ys are_ok)
    ]
  ]

  -- A node with a vector of children.
  all_children :
      (fuel : ℕ) (work : List Frame) (done : List T) (shell : Shell) (make : List T → TermParts T)
      (ts : Terms)
      → ((xs : List T) → assemble_parts shell xs ≡ some (make xs))
      → after_all step (trees step ts) (suc fuel) (assemble shell (length (to_vec ts)) ∷ work) done
        ≡ after step (and_then (trees step ts) (λ xs. step (make xs))) fuel work done
  all_children fuel work done shell make ts made = elim (Result-cases (trees step ts)) [
    | inr (e, are_err) ↦ rw are_err refl
    | inl (xs, are_ok) ↦
        rw (are_ok, sym (length-trees ts xs are_ok))
          (assembled fuel shell xs (make xs) work done (made xs))
  ]

  -- The frames on top, done: a term's, and a list of terms'.
  mutual
    unfolding fold_loop

    fold_term :
        (t : Term) (fuel : ℕ) (work : List Frame) (done : List T)
        → fold_loop step (2 * nodes t + fuel) (enter t ∷ work) done
          ≡ after step (tree step t) fuel work done
    fold_term (Term.variable v) fuel work done =
        ap (λ n. fold_loop step n (enter (Term.variable v) ∷ work) done) (cost_leaf fuel)
        ∙ assembled fuel (Shell.variable v) [] (TermParts.variable v) work done refl
    fold_term (Term.symbolic s) fuel work done =
        ap (λ n. fold_loop step n (enter (Term.symbolic s) ∷ work) done) (cost_leaf fuel)
        ∙ assembled fuel (Shell.symbolic s) [] (TermParts.symbolic s) work done refl
    fold_term (Term.function n ts) fuel work done =
        ap (λ k. fold_loop step k (enter (Term.function n ts) ∷ work) done)
          (cost (nodes_of ts) fuel)
        ∙ fold_terms ts (suc fuel) (assemble (Shell.function n) (length (to_vec ts)) ∷ work) done
        ∙ all_children fuel work done (Shell.function n) (TermParts.function n) ts (λ xs. refl)
    fold_term (Term.tuple ts) fuel work done =
        ap (λ k. fold_loop step k (enter (Term.tuple ts) ∷ work) done) (cost (nodes_of ts) fuel)
        ∙ fold_terms ts (suc fuel) (assemble Shell.tuple (length (to_vec ts)) ∷ work) done
        ∙ all_children fuel work done Shell.tuple TermParts.tuple ts (λ xs. refl)
    fold_term (Term.pool ts) fuel work done =
        ap (λ k. fold_loop step k (enter (Term.pool ts) ∷ work) done) (cost (nodes_of ts) fuel)
        ∙ fold_terms ts (suc fuel) (assemble Shell.pool (length (to_vec ts)) ∷ work) done
        ∙ all_children fuel work done Shell.pool TermParts.pool ts (λ xs. refl)
    fold_term (Term.external n ts) fuel work done =
        ap (λ k. fold_loop step k (enter (Term.external n ts) ∷ work) done)
          (cost (nodes_of ts) fuel)
        ∙ fold_terms ts (suc fuel) (assemble (Shell.external n) (length (to_vec ts)) ∷ work) done
        ∙ all_children fuel work done (Shell.external n) (TermParts.external n) ts (λ xs. refl)
    fold_term (Term.unary_operation op t) fuel work done =
        ap (λ k. fold_loop step k (enter (Term.unary_operation op t) ∷ work) done)
          (cost (nodes t) fuel)
        ∙ fold_term t (suc fuel) (assemble (Shell.unary op) 1 ∷ work) done
        ∙ one_child fuel work done (Shell.unary op) (TermParts.unary_operation op) (tree step t)
            (λ x. refl)
    fold_term (Term.absolute t) fuel work done =
        ap (λ k. fold_loop step k (enter (Term.absolute t) ∷ work) done) (cost (nodes t) fuel)
        ∙ fold_term t (suc fuel) (assemble Shell.absolute 1 ∷ work) done
        ∙ one_child fuel work done Shell.absolute TermParts.absolute (tree step t) (λ x. refl)
    fold_term (Term.binary_operation op l r) fuel work done =
        ap (λ k. fold_loop step k (enter (Term.binary_operation op l r) ∷ work) done)
          (cost_two (nodes l) (nodes r) fuel)
        ∙ fold_term l (2 * nodes r + suc fuel) (enter r ∷ assemble (Shell.binary op) 2 ∷ work) done
        ∙ two_children fuel (2 * nodes r + suc fuel) work done (Shell.binary op)
            (TermParts.binary_operation op) r (tree step l) (tree step r) (λ x y. refl)
            (λ done. fold_term r (suc fuel) (assemble (Shell.binary op) 2 ∷ work) done)
    fold_term (Term.interval l u) fuel work done =
        ap (λ k. fold_loop step k (enter (Term.interval l u) ∷ work) done)
          (cost_two (nodes l) (nodes u) fuel)
        ∙ fold_term l (2 * nodes u + suc fuel) (enter u ∷ assemble Shell.interval 2 ∷ work) done
        ∙ two_children fuel (2 * nodes u + suc fuel) work done Shell.interval TermParts.interval u
            (tree step l) (tree step u) (λ x y. refl)
            (λ done. fold_term u (suc fuel) (assemble Shell.interval 2 ∷ work) done)

    fold_terms :
        (ts : Terms) (fuel : ℕ) (work : List Frame) (done : List T)
        → fold_loop step (2 * nodes_of ts + fuel) (map enter (to_vec ts) ++ work) done
          ≡ after_all step (trees step ts) fuel work done
    fold_terms no_terms fuel work done = ap (λ k. fold_loop step k work done) (omega arith)
    fold_terms (with_term t ts) fuel work done =
        ap (λ k. fold_loop step k (enter t ∷ (map enter (to_vec ts) ++ work)) done)
          (cost_list (nodes t) (nodes_of ts) fuel)
        ∙ fold_term t (2 * nodes_of ts + fuel) (map enter (to_vec ts) ++ work) done
        ∙ next_children fuel (2 * nodes_of ts + fuel) (map enter (to_vec ts) ++ work) work done
            (tree step t) (trees step ts) (λ done. fold_terms ts fuel work done)

  -- With twice as many units of fuel as the term has nodes, and one, the loop is the recursion: each node
  -- after its children, from the left, and the first refusal ends it.
  pub try_fold-tree :
      (t : Term) (fuel : ℕ) → 2 * nodes t + 1 ≤ fuel → try_fold step fuel t ≡ some (tree step t)
  unfolding try_fold
  try_fold-tree t fuel enough =
      ap (λ k. fold_loop step k (enter t ∷ []) []) (omega (arith, enough))
      ∙ fold_term t (suc (fuel - (2 * nodes t + 1))) [] []
      ∙ finished (fuel - (2 * nodes t + 1)) (tree step t)

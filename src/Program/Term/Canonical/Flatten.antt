-- ===== src/Program/Term/Canonical/Flatten.antt =====
-- The pass that flattens pools, and the step of the doors.
use themelios.Prelude.{
  ℕ, zero, suc, ◌+◌, ◌-◌, ◌*◌, ◌≤◌, ◌<◌, ◌≡◌, refl, sym, ap, subst, List, [], ◌∷◌, ◌++◌, map,
  Option, some, length, length-append, All, All-append, arith,
}
use themelios.Program.Term.{
  negate, bitwise_not, Term, Terms, to_vec, TermParts, into_parts, Shell, assemble_parts, last_of,
  last_two, split_off, Frame, enter, assemble, entered,
}
use themelios.Program.Term.Fold.{nodes}
use themelios.Program.Term.Canonical.{
  nodes_in, flat_parts, canonicalize_parts, canonicalize_parts_one_level, canonicalize_one_level,
  reassembled, flatten_loop, flatten_pools, pool_of,
}
use themelios.Program.Term.Canonical.Forms.{
  IsCanonical, PartsCanonical, to_vec-AreCanonical, pool_of-IsCanonical,
  canonicalize_parts-IsCanonical,
}
use themelios.Program.Term.Canonical.Spine.{nodes_in-to_vec, gather_pool_spine-Gathered}

-- A canonical result.
abbrev Canonizes : Option Term → Type 0
Canonizes result = (t : Term) × (result ≡ some t) × IsCanonical t

pool_heirs : (ts : Terms) → IsCanonical (Term.pool ts) → All IsCanonical (to_vec ts)
pool_heirs ts h = to_vec-AreCanonical ts (h.0)

pub canonicalize_parts_one_level-IsCanonical :
    (parts : TermParts Term) → PartsCanonical parts → Canonizes (canonicalize_parts_one_level parts)
unfolding canonicalize_parts_one_level canonicalize_parts
canonicalize_parts_one_level-IsCanonical (TermParts.pool xs) h =
    let (ys, e, a, n, b) = gather_pool_spine-Gathered IsCanonical pool_heirs xs h in
    (pool_of ys, rw (e, canonicalize_parts_one_level) refl, pool_of-IsCanonical ys a n)
canonicalize_parts_one_level-IsCanonical (TermParts.unary_operation negate t) h =
    (_, refl, canonicalize_parts-IsCanonical (TermParts.unary_operation negate t) h refl)
canonicalize_parts_one_level-IsCanonical parts h =
    (_, refl, canonicalize_parts-IsCanonical parts h refl)

parts_of : (t : Term) → IsCanonical t → PartsCanonical (into_parts t)
parts_of (Term.variable v) h = tt
parts_of (Term.symbolic s) h = tt
parts_of (Term.function n ts) h = to_vec-AreCanonical ts (h.0)
parts_of (Term.tuple ts) h = to_vec-AreCanonical ts (h.0)
parts_of (Term.pool ts) h = to_vec-AreCanonical ts (h.0)
parts_of (Term.unary_operation negate t) h = h.0
parts_of (Term.unary_operation bitwise_not t) h = h
parts_of (Term.binary_operation op l r) h = h
parts_of (Term.interval l u) h = h
parts_of (Term.absolute t) h = h
parts_of (Term.external n ts) h = to_vec-AreCanonical ts h

-- The number of children a node takes from the stack.
abbrev Fits : Shell → ℕ → Type 0
Fits (Shell.unary op) n = n ≡ 1
Fits (Shell.binary op) n = n ≡ 2
Fits Shell.interval n = n ≡ 2
Fits Shell.absolute n = n ≡ 1
Fits _ n = Unit

-- With `n` finished terms, the work ends with one.
abbrev Shaped : List Frame → ℕ → Type 0
Shaped [] n = n ≡ 1
Shaped (enter t ∷ work) n = Shaped work (suc n)
Shaped (assemble shell k ∷ work) n = (k ≤ n) × (Fits shell k × Shaped work (suc (n - k)))

-- The fuel the work takes, at most.
abbrev weight : List Frame → ℕ
weight [] = 0
weight (enter t ∷ work) = 2 * nodes t + weight work
weight (assemble shell k ∷ work) = suc (weight work)

Shaped-enter :
    (xs : List Term) (work : List Frame) (n : ℕ)
    → Shaped work (length xs + n)
    → Shaped (map enter xs ++ work) n
Shaped-enter [] work n h = subst (Shaped work) (omega arith) h
Shaped-enter (x ∷ xs) work n h = Shaped-enter xs work (suc n) (subst (Shaped work) (omega arith) h)

weight-enter :
    (xs : List Term) (work : List Frame)
    → weight (map enter xs ++ work) ≡ 2 * nodes_in xs + weight work
weight-enter [] work = omega arith
weight-enter (x ∷ xs) work = ground (arith, weight-enter xs work)

-- What is entered under a node of `t`: its assembly fits, and it has fewer nodes.
abbrev Split : ℕ → Option (Shell × List Term) → Type 0
Split bound result =
    (shell : Shell) × (xs : List Term) × (result ≡ some (shell, xs))
    × Fits shell (length xs)
    × (nodes_in xs < bound)

abbrev AnyTerm : Term → Type 0
AnyTerm t = Unit

every : (xs : List Term) → All AnyTerm xs
every [] = tt
every (x ∷ xs) = (tt, every xs)

flat_parts-Split : (t : Term) → Split (nodes t) (flat_parts (into_parts t))
unfolding flat_parts
flat_parts-Split (Term.variable v) = (_, _, refl, tt, omega arith)
flat_parts-Split (Term.symbolic s) = (_, _, refl, tt, omega arith)
flat_parts-Split (Term.function n ts) = (_, _, refl, tt, ground (arith, nodes_in-to_vec ts))
flat_parts-Split (Term.tuple ts) = (_, _, refl, tt, ground (arith, nodes_in-to_vec ts))
flat_parts-Split (Term.external n ts) = (_, _, refl, tt, ground (arith, nodes_in-to_vec ts))
flat_parts-Split (Term.unary_operation op t) = (_, _, refl, refl, omega arith)
flat_parts-Split (Term.absolute t) = (_, _, refl, refl, omega arith)
flat_parts-Split (Term.binary_operation op l r) = (_, _, refl, refl, omega arith)
flat_parts-Split (Term.interval l u) = (_, _, refl, refl, omega arith)
flat_parts-Split (Term.pool ts) =
    let (xs, e, a, n, b) =
      gather_pool_spine-Gathered AnyTerm (λ ts h. every (to_vec ts)) (to_vec ts)
        (every (to_vec ts)) in
    (Shell.pool, xs, rw e refl, tt, omega (arith, b, nodes_in-to_vec ts))

split_off-All :
    (P : Term → Type 0) (k : ℕ) (done : List Term)
    → k ≤ length done
    → All P done
    → (xs : List Term) × (rest : List Term) × (split_off k done ≡ some (xs, rest))
      × (length xs ≡ k)
      × (length rest ≡ length done - k)
      × All P xs
      × All P rest
split_off-All P zero done below h = ([], done, refl, refl, omega arith, tt, h)
split_off-All P (suc k) [] below h = absurd (omega (arith, below))
split_off-All P (suc k) (x ∷ done) below h =
    let (xs, rest, e, l, m, a, b) = split_off-All P k done (omega (arith, below)) (h.1) in
    (
      xs ++ x ∷ [],
      rest,
      rw e refl,
      ground (arith, length-append xs (x ∷ []), l),
      omega (arith, m, l),
      All-append P xs (x ∷ []) a (h.0, tt),
      b,
    )

last_of-All :
    (P : Term → Type 0) (xs : List Term)
    → length xs ≡ 1
    → All P xs
    → (x : Term) × (last_of xs ≡ some x) × P x
last_of-All P (x ∷ []) one h = (x, refl, h.0)
last_of-All P [] one h = absurd (omega (arith, one))
last_of-All P (x ∷ y ∷ xs) one h = absurd (omega (arith, one))

last_two-All :
    (P : Term → Type 0) (xs : List Term)
    → length xs ≡ 2
    → All P xs
    → (x y : Term) × (last_two xs ≡ some (x, y)) × P x × P y
last_two-All P (x ∷ y ∷ []) two h = (x, y, refl, h.0, h.1.0)
last_two-All P [] two h = absurd (omega (arith, two))
last_two-All P (x ∷ []) two h = absurd (omega (arith, two))
last_two-All P (x ∷ y ∷ z ∷ xs) two h = absurd (omega (arith, two))

assemble_parts-PartsAll :
    (shell : Shell) (xs : List Term)
    → Fits shell (length xs)
    → All IsCanonical xs
    → (parts : TermParts Term) × (assemble_parts shell xs ≡ some parts) × PartsCanonical parts
assemble_parts-PartsAll (Shell.variable v) xs fits h = (_, refl, tt)
assemble_parts-PartsAll (Shell.symbolic s) xs fits h = (_, refl, tt)
assemble_parts-PartsAll (Shell.function n) xs fits h = (_, refl, h)
assemble_parts-PartsAll Shell.tuple xs fits h = (_, refl, h)
assemble_parts-PartsAll Shell.pool xs fits h = (_, refl, h)
assemble_parts-PartsAll (Shell.external n) xs fits h = (_, refl, h)
assemble_parts-PartsAll (Shell.unary op) xs fits h =
    let (x, e, a) = last_of-All IsCanonical xs fits h in
    (TermParts.unary_operation op x, rw e refl, a)
assemble_parts-PartsAll Shell.absolute xs fits h =
    let (x, e, a) = last_of-All IsCanonical xs fits h in (TermParts.absolute x, rw e refl, a)
assemble_parts-PartsAll (Shell.binary op) xs fits h =
    let (x, y, e, a, b) = last_two-All IsCanonical xs fits h in
    (TermParts.binary_operation op x y, rw e refl, (a, b))
assemble_parts-PartsAll Shell.interval xs fits h =
    let (x, y, e, a, b) = last_two-All IsCanonical xs fits h in
    (TermParts.interval x y, rw e refl, (a, b))

reassembled-IsCanonical :
    (shell : Shell) (k : ℕ) (done : List Term)
    → k ≤ length done
    → Fits shell k
    → All IsCanonical done
    → (t : Term) × (rest : List Term) × (reassembled shell (split_off k done) ≡ some (t, rest))
      × IsCanonical t
      × (length rest ≡ length done - k)
      × All IsCanonical rest
unfolding reassembled
reassembled-IsCanonical shell k done below fits h =
    let (xs, rest, split, l, m, a, b) = split_off-All IsCanonical k done below h in
    let (parts, made, c) = assemble_parts-PartsAll shell xs (subst (Fits shell) (sym l) fits) a in
    let (t, e, d) = canonicalize_parts_one_level-IsCanonical parts c in
    (t, rest, rw (split, made, e, reassembled) refl, d, m, b)

-- With the fuel of its work's weight, and one, the loop ends with one canonical term.
flatten_loop-IsCanonical :
    (fuel : ℕ) (work : List Frame) (done : List Term)
    → suc (weight work) ≤ fuel
    → Shaped work (length done)
    → All IsCanonical done
    → Canonizes (flatten_loop fuel work done)
unfolding flatten_loop
flatten_loop-IsCanonical zero work done enough shaped h = absurd (omega (arith, enough))
flatten_loop-IsCanonical (suc fuel) [] [] enough shaped h = absurd (omega (arith, shaped))
flatten_loop-IsCanonical (suc fuel) [] (t ∷ done) enough shaped h = (t, refl, h.0)
flatten_loop-IsCanonical (suc fuel) (enter t ∷ work) done enough shaped h =
    let (shell, xs, split, fits, fewer) = flat_parts-Split t in
    let (u, e, c) =
      flatten_loop-IsCanonical fuel (entered (shell, xs) work) done
        (ground (arith, enough, fewer, weight-enter xs (assemble shell (length xs) ∷ work)))
        (Shaped-enter xs (assemble shell (length xs) ∷ work) (length done)
          (omega arith, (fits, subst (Shaped work) (omega arith) shaped)))
        h in
    (u, rw (split, flatten_loop) e, c)
flatten_loop-IsCanonical (suc fuel) (assemble shell k ∷ work) done enough shaped h =
    let (t, rest, made, c, m, b) = reassembled-IsCanonical shell k done (shaped.0) (shaped.1.0) h in
    let (u, e, d) =
      flatten_loop-IsCanonical fuel work (t ∷ rest) (omega (arith, enough))
        (subst (Shaped work) (ap suc (sym m)) (shaped.1.1)) (c, b) in
    (u, rw (made, flatten_loop) e, d)

-- The pass ends, with a canonical term, whatever the term.
pub flatten_pools-IsCanonical : (t : Term) → Canonizes (flatten_pools t)
unfolding flatten_pools
flatten_pools-IsCanonical t =
    flatten_loop-IsCanonical (suc (2 * nodes t)) (enter t ∷ []) [] (omega arith) refl tt

-- A door's step of a node with canonical children ends, with a canonical term.
pub canonicalize_one_level-IsCanonical :
    (t : Term)
    → PartsCanonical (into_parts t)
    → (u : Term) × (canonicalize_one_level t ≡ some u) × IsCanonical u
unfolding canonicalize_one_level
canonicalize_one_level-IsCanonical t h = canonicalize_parts_one_level-IsCanonical (into_parts t) h

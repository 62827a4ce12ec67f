-- ===== src/Program/Term/Canonical/Spine.antt =====
-- The spine of a pool, gathered.
use themelios.Prelude.{
  ℕ, zero, suc, ◌+◌, ◌≤◌, ◌≡◌, refl, ap, ◌∙◌, false, List, [], ◌∷◌, ◌++◌, Option, some, any, All,
  All-append, arith,
}
use themelios.Program.Term.{Term, Terms, no_terms, with_term, to_vec, into_parts, from_parts}
use themelios.Program.Term.Fold.{nodes, nodes_of}
use themelios.Program.Term.Canonical.{is_pool, nodes_in, gather_loop, gather_pool_spine}
use themelios.Program.Term.Canonical.Forms.{from_parts-into_parts}

pub nodes_in-to_vec : (ts : Terms) → nodes_in (to_vec ts) ≡ nodes_of ts
nodes_in-to_vec no_terms = refl
nodes_in-to_vec (with_term t ts) = ap (λ n. nodes t + n) (nodes_in-to_vec ts)

pub nodes_in-append : (xs ys : List Term) → nodes_in (xs ++ ys) ≡ nodes_in xs + nodes_in ys
nodes_in-append [] ys = omega arith
nodes_in-append (x ∷ xs) ys = ground (arith, nodes_in-append xs ys)

pub nodes-positive : (t : Term) → 1 ≤ nodes t
nodes-positive (Term.variable v) = omega arith
nodes-positive (Term.symbolic s) = omega arith
nodes-positive t = omega arith

any_pool-append :
    (xs : List Term) (t : Term)
    → any is_pool xs ≡ false
    → is_pool t ≡ false
    → any is_pool (xs ++ t ∷ []) ≡ false
any_pool-append [] t h g = ground (arith, h, g)
any_pool-append (x ∷ xs) t h g = ground (arith, h, g, any_pool-append xs t)

module _ (P : Term → Type 0) (inherited : (ts : Terms) → P (Term.pool ts) → All P (to_vec ts)) where
  -- A list of alternatives that no pool is among, of no more nodes than those on the stack.
  abbrev pub Gathered : ℕ → Option (List Term) → Type 0
  Gathered bound result =
      (xs : List Term) × (result ≡ some xs)
      × All P xs
      × (any is_pool xs ≡ false)
      × (nodes_in xs ≤ bound)

  put :
      (t : Term) (fuel : ℕ) (stack flat : List Term)
      → is_pool t ≡ false
      → gather_loop (suc fuel) (t ∷ stack) flat
        ≡ gather_loop fuel stack (flat ++ from_parts (into_parts t) ∷ [])
  unfolding gather_loop
  put (Term.pool ts) fuel stack flat h = absurd (ground (arith, h))
  put t fuel stack flat h = refl

  put-Gathered :
      (t : Term) (fuel : ℕ) (stack flat : List Term)
      → is_pool t ≡ false
      → P t
      → All P flat
      → any is_pool flat ≡ false
      → ((flat : List Term)
          → All P flat
          → any is_pool flat ≡ false
          → Gathered (nodes_in stack + nodes_in flat) (gather_loop fuel stack flat))
      → Gathered (nodes_in (t ∷ stack) + nodes_in flat) (gather_loop (suc fuel) (t ∷ stack) flat)
  put-Gathered t fuel stack flat alone h g no_pool next =
      let (xs, e, a, n, b) =
        next (flat ++ t ∷ []) (All-append P flat (t ∷ []) g (h, tt))
          (any_pool-append flat t no_pool alone) in
      (
        xs,
        put t fuel stack flat alone
            ∙ ap (λ z. gather_loop fuel stack (flat ++ z ∷ [])) (from_parts-into_parts t)
            ∙ e,
        a,
        n,
        ground (arith, b, nodes_in-append flat (t ∷ [])),
      )

  gather_loop-Gathered :
      (fuel : ℕ) (stack flat : List Term)
      → suc (nodes_in stack) ≤ fuel
      → All P stack
      → All P flat
      → any is_pool flat ≡ false
      → Gathered (nodes_in stack + nodes_in flat) (gather_loop fuel stack flat)
  unfolding gather_loop
  gather_loop-Gathered zero stack flat enough h g no_pool = absurd (omega (arith, enough))
  gather_loop-Gathered (suc fuel) [] flat enough h g no_pool = (flat, refl, g, no_pool, omega arith)
  gather_loop-Gathered (suc fuel) (Term.pool ts ∷ stack) flat enough h g no_pool =
      let size : nodes_in (to_vec ts ++ stack) ≡ nodes_of ts + nodes_in stack =
        nodes_in-append (to_vec ts) stack ∙ ap (λ n. n + nodes_in stack) (nodes_in-to_vec ts) in
      let (xs, e, a, n, b) =
        gather_loop-Gathered fuel (to_vec ts ++ stack) flat (omega (arith, size, enough))
          (All-append P (to_vec ts) stack (inherited ts (h.0)) (h.1)) g no_pool in
      (xs, e, a, n, omega (arith, size, b))
  gather_loop-Gathered (suc fuel) (t ∷ stack) flat enough h g no_pool =
      put-Gathered t fuel stack flat refl (h.0) g no_pool (λ flat g no_pool.
        gather_loop-Gathered fuel stack flat (ground (arith, nodes-positive t, enough)) (h.1) g
          no_pool)

  -- The fuel is enough: every alternative of the spine comes out, none of them a pool.
  pub gather_pool_spine-Gathered :
      (xs : List Term) → All P xs → Gathered (nodes_in xs) (gather_pool_spine xs)
  unfolding gather_pool_spine
  gather_pool_spine-Gathered xs h =
      let (ys, e, a, n, b) =
        gather_loop-Gathered (suc (nodes_in xs)) xs [] (omega arith) h tt refl in
      (ys, e, a, n, omega (arith, b))

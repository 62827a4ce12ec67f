-- ===== src/Program/Unify/Build/Terms.antt =====
-- Building a term ends, at a node that stands for it.
use themelios.Prelude.{
  ℕ, zero, suc, ◌+◌, ◌*◌, ◌<◌, ◌≡◌, refl, sym, subst, List, [], ◌∷◌, ◌++◌, map, Option, some,
  length, All, get_elem?, arith,
}
use themelios.Program.Term.{
  Term, Terms, no_terms, with_term, to_vec, Shell, Frame, enter, assemble, assemble_parts,
}
use themelios.Program.Term.Fold.{nodes, nodes_of, onto}
use themelios.Program.Unify.Nodes.{Cell, Nodes, push_node, variable_node}
use themelios.Program.Unify.Solve.State.{IsPlain, children}
use themelios.Program.Unify.Build.{built_part, build_part, build_loop, build}
use themelios.Program.Unify.Build.Graph.{
  IsBuilt, IsGrown, Extends-trans, push_node-IsGrown, variable_node-IsGrown, get_elem?-append_self,
}
use themelios.Program.Unify.Build.Shape.{
  IsTermAt, AreTermsAt, IsTermAt-stays, IsTermAt-inside, AllPairs, AllPairs-map, AllPairs-All,
  AllPairs-AreTermsAt, split_off-AllPairs,
}
use themelios.Program.Unify.Build.Symbols.{build_symbol-IsSymbolAt}

-- A term of variables, symbols, functions and tuples.
abbrev mutual
  pub IsPattern : Term → Type 0
  IsPattern (Term.variable v) = Unit
  IsPattern (Term.symbolic s) = Unit
  IsPattern (Term.function n ts) = ArePatterns ts
  IsPattern (Term.tuple ts) = ArePatterns ts
  IsPattern (Term.pool ts) = ⊥
  IsPattern (Term.unary_operation op t) = ⊥
  IsPattern (Term.binary_operation op l r) = ⊥
  IsPattern (Term.interval l r) = ⊥
  IsPattern (Term.absolute t) = ⊥
  IsPattern (Term.external n ts) = ⊥

  pub ArePatterns : Terms → Type 0
  ArePatterns no_terms = Unit
  ArePatterns (with_term t ts) = IsPattern t × ArePatterns ts

abbrev IsDenoting : Shell → Type 0
IsDenoting (Shell.variable v) = Unit
IsDenoting (Shell.symbolic s) = Unit
IsDenoting (Shell.function n) = Unit
IsDenoting Shell.tuple = Unit
IsDenoting _ = ⊥

-- What a shell makes of its elements.
abbrev term_of : Shell → Terms → Term
term_of (Shell.variable v) ts = Term.variable v
term_of (Shell.symbolic s) ts = Term.symbolic s
term_of (Shell.function n) ts = Term.function n ts
term_of _ ts = Term.tuple ts

-- The frames take the terms that the finished nodes stand for, the last on top, to the root's.
abbrev IsFed : Term → List Frame → List Term → Type 0
IsFed root [] stack = (rest : List Term) × (stack ≡ root ∷ rest)
IsFed root (enter t ∷ work) stack = IsPattern t × IsFed root work (t ∷ stack)
IsFed root (assemble shell k ∷ work) stack =
    IsDenoting shell
    × ((ts : Terms) × (rest : List Term) × (stack ≡ onto (to_vec ts) rest)
        × (length (to_vec ts) ≡ k)
        × IsFed root work (term_of shell ts ∷ rest))

abbrev cost : List Frame → ℕ
cost [] = 0
cost (enter t ∷ work) = 2 * nodes t + cost work
cost (assemble shell k ∷ work) = suc (cost work)

enters-IsFed :
    (root : Term) (ts : Terms) (work : List Frame) (stack : List Term)
    → ArePatterns ts
    → IsFed root work (onto (to_vec ts) stack)
    → IsFed root (map enter (to_vec ts) ++ work) stack
enters-IsFed root no_terms work stack h g = g
enters-IsFed root (with_term t ts) work stack h g =
    (h.0, enters-IsFed root ts work (t ∷ stack) (h.1) g)

cost-enters :
    (ts : Terms) (work : List Frame)
    → cost (map enter (to_vec ts) ++ work) ≡ 2 * nodes_of ts + cost work
cost-enters no_terms work = omega arith
cost-enters (with_term t ts) work = omega (arith, cost-enters ts work)

-- A part that stands for what its shell makes of the elements.
abbrev IsPart : Nodes → Term → Option (ℕ × Nodes) → Type 0
IsPart graph t o =
    (id : ℕ) × (graph' : Nodes) × (o ≡ some (id, graph'))
    × IsGrown graph graph'
    × IsTermAt graph' id t

cell-IsPart :
    (graph : Nodes) (make : List ℕ → Cell) (t : Term)
    → IsBuilt graph
    → (kids : List ℕ) (ts : Terms) → children (make kids) ≡ kids
    → IsPlain (make kids)
    → ((graph' : Nodes) (id : ℕ)
        → get_elem? graph'.cell id ≡ some (make kids)
        → AreTermsAt graph' kids ts
        → IsTermAt graph' id t)
    → AllPairs (IsTermAt graph) kids (to_vec ts)
    → IsPart graph t (some (push_node graph (make kids)))
cell-IsPart graph make t b kids ts has is_plain shape h =
    let inside =
      AllPairs-All _ (λ j. j < length graph.cell) kids (to_vec ts) (IsTermAt-inside graph) h in
    let (b', stays) =
      push_node-IsGrown graph b (make kids)
        (subst (All (λ j. j < length graph.cell)) (sym has) inside) is_plain in
    let graph' = (push_node graph (make kids)).1 in
    let elements = AllPairs-AreTermsAt graph' kids ts (
      AllPairs-map (IsTermAt graph) (IsTermAt graph') kids (to_vec ts)
        (IsTermAt-stays graph graph' stays) h) in
    (
      length graph.cell,
      graph',
      refl,
      (b', stays),
      shape graph' (length graph.cell) (get_elem?-append_self graph.cell (make kids)) elements,
    )

built_part-IsPart :
    (graph : Nodes)
    → IsBuilt graph
    → (shell : Shell) → IsDenoting shell
    → (kids : List ℕ) (ts : Terms) → AllPairs (IsTermAt graph) kids (to_vec ts)
    → IsPart graph (term_of shell ts) (built_part graph (assemble_parts shell kids))
unfolding build_part
built_part-IsPart graph b (Shell.variable v) d kids ts h =
    let (grown, is_at) = variable_node-IsGrown graph b v in
    ((variable_node graph v).0, (variable_node graph v).1, refl, grown, is_at)
built_part-IsPart graph b (Shell.symbolic s) d kids ts h = build_symbol-IsSymbolAt graph s b
built_part-IsPart graph b (Shell.function n) d kids ts h =
    cell-IsPart graph (Cell.function n) (Term.function n ts) b kids ts refl tt
      (λ g id at hs. (kids, at, hs)) h
built_part-IsPart graph b Shell.tuple d kids ts h =
    cell-IsPart graph Cell.tuple (Term.tuple ts) b kids ts refl tt (λ g id at hs. (kids, at, hs)) h
built_part-IsPart graph b Shell.pool d kids ts h = absurd d
built_part-IsPart graph b (Shell.unary op) d kids ts h = absurd d
built_part-IsPart graph b (Shell.binary op) d kids ts h = absurd d
built_part-IsPart graph b Shell.interval d kids ts h = absurd d
built_part-IsPart graph b Shell.absolute d kids ts h = absurd d
built_part-IsPart graph b (Shell.external n) d kids ts h = absurd d

module _ (root : Term) where
  build_loop-IsPart :
      (fuel : ℕ) (work : List Frame) (done : List ℕ) (stack : List Term) (graph : Nodes)
      → IsBuilt graph
      → AllPairs (IsTermAt graph) done stack
      → IsFed root work stack
      → cost work < fuel
      → IsPart graph root (build_loop fuel work done graph)
  unfolding build_loop
  build_loop-IsPart zero work done stack graph b h fed enough = absurd (omega (arith, enough))
  build_loop-IsPart (suc fuel) [] [] stack graph b h (rest, e) enough =
      absurd (subst (AllPairs (IsTermAt graph) []) e h)
  build_loop-IsPart (suc fuel) [] (id ∷ done) stack graph b h (rest, e) enough = (
    id,
    graph,
    refl,
    (b, ((λ i c k. k), (λ n i k. k))),
    (subst (AllPairs (IsTermAt graph) (id ∷ done)) e h).0,
  )
  build_loop-IsPart (suc fuel) (enter (Term.variable v) ∷ work) done stack graph b h fed enough =
      build_loop-IsPart fuel (assemble (Shell.variable v) 0 ∷ work) done stack graph b h
        (tt, (no_terms, stack, refl, refl, fed.1)) (omega (arith, enough))
  build_loop-IsPart (suc fuel) (enter (Term.symbolic s) ∷ work) done stack graph b h fed enough =
      build_loop-IsPart fuel (assemble (Shell.symbolic s) 0 ∷ work) done stack graph b h
        (tt, (no_terms, stack, refl, refl, fed.1)) (omega (arith, enough))
  build_loop-IsPart (suc fuel) (enter (Term.function n ts) ∷ work) done stack graph b h fed enough =
      let frames = assemble (Shell.function n) (length (to_vec ts)) ∷ work in
      build_loop-IsPart fuel (map enter (to_vec ts) ++ frames) done stack graph b h
        (enters-IsFed root ts frames stack (fed.0) (tt, (ts, stack, refl, refl, fed.1)))
        (omega (arith, cost-enters ts frames, enough))
  build_loop-IsPart (suc fuel) (enter (Term.tuple ts) ∷ work) done stack graph b h fed enough =
      let frames = assemble Shell.tuple (length (to_vec ts)) ∷ work in
      build_loop-IsPart fuel (map enter (to_vec ts) ++ frames) done stack graph b h
        (enters-IsFed root ts frames stack (fed.0) (tt, (ts, stack, refl, refl, fed.1)))
        (omega (arith, cost-enters ts frames, enough))
  build_loop-IsPart (suc fuel) (enter (Term.pool ts) ∷ work) done stack graph b h fed enough =
      absurd (fed.0)
  build_loop-IsPart (suc fuel) (enter (Term.unary_operation op t) ∷ work) done stack graph b h fed
        enough =
      absurd (fed.0)
  build_loop-IsPart (suc fuel) (enter (Term.binary_operation op l r) ∷ work) done stack graph b h
        fed enough =
      absurd (fed.0)
  build_loop-IsPart (suc fuel) (enter (Term.interval l r) ∷ work) done stack graph b h fed enough =
      absurd (fed.0)
  build_loop-IsPart (suc fuel) (enter (Term.absolute t) ∷ work) done stack graph b h fed enough =
      absurd (fed.0)
  build_loop-IsPart (suc fuel) (enter (Term.external n ts) ∷ work) done stack graph b h fed enough =
      absurd (fed.0)
  build_loop-IsPart (suc fuel) (assemble shell k ∷ work) done stack graph b h
        (denoting, (ts, rest, top, len, fed)) enough =
      let (kids, below, taken, hs, hb) =
        split_off-AllPairs (IsTermAt graph) (to_vec ts) rest done k
          (subst (AllPairs (IsTermAt graph) done) top h) len in
      let (id, graph', e, (b', stays), is_at) =
        built_part-IsPart graph b shell denoting kids ts hs in
      let below' =
        AllPairs-map (IsTermAt graph) (IsTermAt graph') below rest
          (IsTermAt-stays graph graph' stays) hb in
      let (id', graph'', on, (b'', stays'), is_root) =
        build_loop-IsPart fuel work (id ∷ below) (term_of shell ts ∷ rest) graph' b' (is_at, below')
          fed (omega (arith, enough)) in
      (
        id',
        graph'',
        rw (taken, e, build_loop) on,
        (b'', Extends-trans graph graph' graph'' stays stays'),
        is_root,
      )

-- Building a term of variables, symbols, functions and tuples ends, at a node that stands for it.
pub build-IsTermAt :
    (graph : Nodes) (t : Term)
    → IsBuilt graph
    → IsPattern t
    → (id : ℕ) × (graph' : Nodes) × (build graph t ≡ some (id, graph'))
      × IsGrown graph graph'
      × IsTermAt graph' id t
unfolding build
build-IsTermAt graph t b pattern_term =
    build_loop-IsPart t (suc (2 * nodes t)) (enter t ∷ []) [] [] graph b tt
      (pattern_term, ([], refl)) (omega arith)

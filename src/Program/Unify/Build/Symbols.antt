-- ===== src/Program/Unify/Build/Symbols.antt =====
-- Building a ground symbol's nodes ends, at a node that stands for the symbol.
use themelios.Prelude.{
  ℕ, zero, suc, ◌+◌, ◌*◌, ◌<◌, ◌≡◌, refl, sym, subst, List, [], ◌∷◌, ◌++◌, map, Option, none, some,
  length, All, get_elem?, arith,
}
use themelios.Program.Symbol.{
  Symbol, Symbols, infimum, supremum, positive, negative, to_list, nil, cons,
}
use themelios.Program.Symbol.Walk.{size, size_all}
use themelios.Program.Term.{split_off}
use themelios.Program.Term.Fold.{onto}
use themelios.Program.Unify.Nodes.{Cell, Nodes, push_node}
use themelios.Program.Unify.Solve.State.{IsPlain, children}
use themelios.Program.Unify.Build.{
  SymbolFrame, enter, assemble_function, assemble_tuple, pushed_node, entered_symbol,
  assembled_cell, symbol_step, symbol_loop, build_symbol,
}
use themelios.Program.Unify.Build.Graph.{
  IsBuilt, Extends, Extends-trans, IsGrown, push_node-IsGrown, get_elem?-append_self,
}
use themelios.Program.Unify.Build.Shape.{
  IsSymbolAt, AreSymbolsAt, IsSymbolAt-stays, IsSymbolAt-inside, AllPairs, AllPairs-map,
  AllPairs-All, AllPairs-AreSymbolsAt, split_off-AllPairs,
}

-- The frames take the symbols that the finished nodes stand for, the last on top, to the root's.
abbrev IsFed : Symbol → List SymbolFrame → List Symbol → Type 0
IsFed root [] stack = (rest : List Symbol) × (stack ≡ root ∷ rest)
IsFed root (enter s ∷ work) stack = IsFed root work (s ∷ stack)
IsFed root (assemble_function f k ∷ work) stack =
    (xs : Symbols) × (rest : List Symbol) × (stack ≡ onto (to_list xs) rest)
    × (length (to_list xs) ≡ k)
    × IsFed root work (Symbol.function f xs positive ∷ rest)
IsFed root (assemble_tuple k ∷ work) stack =
    (xs : Symbols) × (rest : List Symbol) × (stack ≡ onto (to_list xs) rest)
    × (length (to_list xs) ≡ k)
    × IsFed root work (Symbol.tuple xs ∷ rest)

unfoldable cost : List SymbolFrame → ℕ
unfolding size
cost [] = 0
cost (enter s ∷ work) = 2 * size s + cost work
cost (assemble_function f k ∷ work) = suc (cost work)
cost (assemble_tuple k ∷ work) = suc (cost work)

enters-IsFed :
    (root : Symbol) (xs : List Symbol) (work : List SymbolFrame) (stack : List Symbol)
    → IsFed root work (onto xs stack)
    → IsFed root (map enter xs ++ work) stack
enters-IsFed root [] work stack h = h
enters-IsFed root (x ∷ xs) work stack h = enters-IsFed root xs work (x ∷ stack) h

cost-enters :
    (xs : Symbols) (work : List SymbolFrame)
    → cost (map enter (to_list xs) ++ work) ≡ 2 * size_all xs + cost work
unfolding cost size
cost-enters nil work = omega arith
cost-enters (cons x xs) work = omega (arith, cost-enters xs work)

abbrev StandFor : Nodes → List ℕ → List Symbol → Type 0
StandFor graph done stack = AllPairs (IsSymbolAt graph.cell) done stack

StandFor-stays :
    (graph graph' : Nodes) (done : List ℕ) (stack : List Symbol)
    → Extends graph graph'
    → StandFor graph done stack
    → StandFor graph' done stack
StandFor-stays graph graph' done stack stays h =
    AllPairs-map _ _ done stack (IsSymbolAt-stays graph.cell graph'.cell (stays.0)) h

-- The step leaves what the next one needs, and less to do.
abbrev IsStep : Symbol → Nodes → ℕ → Option (List SymbolFrame × (List ℕ × Nodes)) → Type 0
IsStep root graph todo none = ⊥
IsStep root graph todo (some (work, (done, graph'))) =
    IsGrown graph graph'
    × ((stack : List Symbol) × StandFor graph' done stack × IsFed root work stack)
    × (cost work < todo)

module _ (root : Symbol) (graph : Nodes) (b : IsBuilt graph) where
  leaf-IsStep :
      (s : Symbol) (work : List SymbolFrame) (done : List ℕ) (stack : List Symbol) (todo : ℕ)
      → IsPlain (Cell.leaf s)
      → ((cells : List Cell) (id : ℕ)
          → get_elem? cells id ≡ some (Cell.leaf s)
          → IsSymbolAt cells id s)
      → StandFor graph done stack
      → IsFed root work (s ∷ stack)
      → cost work < todo
      → IsStep root graph todo (some (work, pushed_node done (push_node graph (Cell.leaf s))))
  leaf-IsStep s work done stack todo is_plain is_leaf h fed less =
      let (b', stays) = push_node-IsGrown graph b (Cell.leaf s) tt is_plain in
      (
        (b', stays),
        (
          s ∷ stack,
          (
            is_leaf _ _ (get_elem?-append_self graph.cell (Cell.leaf s)),
            StandFor-stays graph ((push_node graph (Cell.leaf s)).1) done stack stays h,
          ),
          fed,
        ),
        less,
      )

  unchanged : IsGrown graph graph
  unchanged = (b, ((λ id c h. h), (λ n id h. h)))

  enter-IsStep :
      (s : Symbol) (work : List SymbolFrame) (done : List ℕ) (stack : List Symbol)
      → StandFor graph done stack
      → IsFed root work (s ∷ stack)
      → IsStep root graph (cost (enter s ∷ work)) (some (entered_symbol s work done graph))
  unfolding cost size
  enter-IsStep (Symbol.function n xs positive) work done stack h fed =
      let frames = assemble_function n (length (to_list xs)) ∷ work in
      (
        unchanged,
        (stack, h, enters-IsFed root (to_list xs) frames stack (xs, stack, refl, refl, fed)),
        omega (arith, cost-enters xs frames),
      )
  enter-IsStep (Symbol.tuple xs) work done stack h fed =
      let frames = assemble_tuple (length (to_list xs)) ∷ work in
      (
        unchanged,
        (stack, h, enters-IsFed root (to_list xs) frames stack (xs, stack, refl, refl, fed)),
        omega (arith, cost-enters xs frames),
      )
  enter-IsStep (Symbol.function n xs negative) work done stack h fed =
      leaf-IsStep (Symbol.function n xs negative) work done stack _ tt (λ cells id e. e) h fed
        (omega arith)
  enter-IsStep infimum work done stack h fed =
      leaf-IsStep infimum work done stack _ tt (λ cells id e. e) h fed (omega arith)
  enter-IsStep (Symbol.number x) work done stack h fed =
      leaf-IsStep (Symbol.number x) work done stack _ tt (λ cells id e. e) h fed (omega arith)
  enter-IsStep (Symbol.string x) work done stack h fed =
      leaf-IsStep (Symbol.string x) work done stack _ tt (λ cells id e. e) h fed (omega arith)
  enter-IsStep supremum work done stack h fed =
      leaf-IsStep supremum work done stack _ tt (λ cells id e. e) h fed (omega arith)

  assemble-IsStep :
      (make : List ℕ → Cell) (whole : Symbols → Symbol)
      → ((kids : List ℕ) → children (make kids) ≡ kids)
      → ((kids : List ℕ) → IsPlain (make kids))
      → ((cells : List Cell) (id : ℕ) (kids : List ℕ) (xs : Symbols)
          → get_elem? cells id ≡ some (make kids)
          → AreSymbolsAt cells kids xs
          → IsSymbolAt cells id (whole xs))
      → (k : ℕ) (xs : Symbols) (rest : List Symbol) (work : List SymbolFrame) (done : List ℕ)
      → StandFor graph done (onto (to_list xs) rest)
      → length (to_list xs) ≡ k
      → IsFed root work (whole xs ∷ rest)
      → (next : List ℕ × Nodes) × (assembled_cell make graph (split_off k done) ≡ some next)
        × IsStep root graph (suc (cost work)) (some (work, next))
  assemble-IsStep make whole has is_plain shape k xs rest work done h len fed =
      let (kids, below, e, hs, hb) =
        split_off-AllPairs (IsSymbolAt graph.cell) (to_list xs) rest done k h len in
      let inside =
        AllPairs-All _ (λ j. j < length graph.cell) kids (to_list xs) (IsSymbolAt-inside graph.cell)
          hs in
      let (b', stays) =
        push_node-IsGrown graph b (make kids)
          (subst (All (λ j. j < length graph.cell)) (sym (has kids)) inside) (is_plain kids) in
      let graph' = (push_node graph (make kids)).1 in
      let elements =
        AllPairs-AreSymbolsAt graph'.cell kids xs
          (StandFor-stays graph graph' kids (to_list xs) stays hs) in
      (
        pushed_node below (push_node graph (make kids)),
        rw e refl,
        (
          (b', stays),
          (
            whole xs ∷ rest,
            (
              shape graph'.cell _ kids xs (get_elem?-append_self graph.cell (make kids)) elements,
              StandFor-stays graph graph' below rest stays hb,
            ),
            fed,
          ),
          omega arith,
        ),
      )

  symbol_step-IsStep :
      (frame : SymbolFrame) (work : List SymbolFrame) (done : List ℕ) (stack : List Symbol)
      → StandFor graph done stack
      → IsFed root (frame ∷ work) stack
      → (next : List SymbolFrame × (List ℕ × Nodes)) × (symbol_step work frame done graph
          ≡ some next)
        × IsStep root graph (cost (frame ∷ work)) (some next)
  unfolding cost
  symbol_step-IsStep (enter s) work done stack h fed =
      (entered_symbol s work done graph, refl, enter-IsStep s work done stack h fed)
  symbol_step-IsStep (assemble_function n k) work done stack h (xs, rest, top, len, fed) =
      let (next, e, step) =
        assemble-IsStep (Cell.function n) (λ ys. Symbol.function n ys positive) (λ kids. refl)
          (λ kids. tt) (λ cells id kids ys at hs. (kids, at, hs)) k xs rest work done
          (subst (StandFor graph done) top h) len fed in
      ((work, next), rw (e, symbol_step) refl, step)
  symbol_step-IsStep (assemble_tuple k) work done stack h (xs, rest, top, len, fed) =
      let (next, e, step) =
        assemble-IsStep Cell.tuple Symbol.tuple (λ kids. refl) (λ kids. tt)
          (λ cells id kids ys at hs. (kids, at, hs)) k xs rest work done
          (subst (StandFor graph done) top h) len fed in
      ((work, next), rw (e, symbol_step) refl, step)

symbol_loop-IsSymbolAt :
    (root : Symbol) (fuel : ℕ) (work : List SymbolFrame) (done : List ℕ) (stack : List Symbol)
    (graph : Nodes)
    → IsBuilt graph
    → StandFor graph done stack
    → IsFed root work stack
    → cost work < fuel
    → (id : ℕ) × (graph' : Nodes) × (symbol_loop fuel work done graph ≡ some (id, graph'))
      × IsGrown graph graph'
      × IsSymbolAt graph'.cell id root
unfolding symbol_loop cost
symbol_loop-IsSymbolAt root zero work done stack graph b h fed enough =
    absurd (omega (arith, enough))
symbol_loop-IsSymbolAt root (suc fuel) [] [] stack graph b h (rest, e) enough =
    absurd (subst (StandFor graph []) e h)
symbol_loop-IsSymbolAt root (suc fuel) [] (id ∷ done) stack graph b h (rest, e) enough =
    (id, graph, refl, unchanged root graph b, (subst (StandFor graph (id ∷ done)) e h).0)
symbol_loop-IsSymbolAt root (suc fuel) (frame ∷ work) done stack graph b h fed enough =
    let ((work', (done', graph')), e, ((b', stays), (stack', h', fed'), less)) =
      symbol_step-IsStep root graph b frame work done stack h fed in
    let (id, graph'', on, (b'', stays'), is_root) =
      symbol_loop-IsSymbolAt root fuel work' done' stack' graph' b' h' fed'
        (omega (arith, less, enough)) in
    (
      id,
      graph'',
      rw (e, symbol_loop) on,
      (b'', Extends-trans graph graph' graph'' stays stays'),
      is_root,
    )

pub build_symbol-IsSymbolAt :
    (graph : Nodes) (s : Symbol)
    → IsBuilt graph
    → (id : ℕ) × (graph' : Nodes) × (build_symbol graph s ≡ some (id, graph'))
      × IsGrown graph graph'
      × IsSymbolAt graph'.cell id s
unfolding build_symbol cost
build_symbol-IsSymbolAt graph s b =
    symbol_loop-IsSymbolAt s (suc (2 * size s)) (enter s ∷ []) [] [] graph b tt ([], refl)
      (omega arith)

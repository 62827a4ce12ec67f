-- ===== src/Program/Unify/Build/Shape.antt =====
-- The nodes that stand for a symbol and for a term, and the stacks of such nodes.
use themelios.Prelude.{
  ℕ, suc, ◌<◌, ◌≡◌, refl, sym, ap, ap₂, ◌∙◌, List, [], ◌∷◌, some, length, get_elem?, All,
}
use themelios.Program.Symbol.{
  Symbol, Symbols, nil, cons, to_list, infimum, supremum, positive, negative,
}
use themelios.Program.Term.{
  Term, Terms, no_terms, with_term, to_vec, Variable, anonymous, split_off,
}
use themelios.Program.Term.Fold.{onto, split_off-onto}
use themelios.Program.Unify.Nodes.{Cell, Nodes}
use themelios.Program.Unify.Occurs.Decides.{inside-get_elem?}
use themelios.Program.Unify.Build.Graph.{Extends, IsVariableAt}

abbrev mutual
  pub IsSymbolAt : List Cell → ℕ → Symbol → Type 0
  IsSymbolAt cells id (Symbol.function n xs positive) =
      (kids : List ℕ) × (get_elem? cells id ≡ some (Cell.function n kids))
      × AreSymbolsAt cells kids xs
  IsSymbolAt cells id (Symbol.tuple xs) =
      (kids : List ℕ) × (get_elem? cells id ≡ some (Cell.tuple kids)) × AreSymbolsAt cells kids xs
  IsSymbolAt cells id s = get_elem? cells id ≡ some (Cell.leaf s)

  pub AreSymbolsAt : List Cell → List ℕ → Symbols → Type 0
  AreSymbolsAt cells [] nil = Unit
  AreSymbolsAt cells (k ∷ kids) (cons x xs) = IsSymbolAt cells k x × AreSymbolsAt cells kids xs
  AreSymbolsAt cells _ _ = ⊥

abbrev mutual
  pub IsTermAt : Nodes → ℕ → Term → Type 0
  IsTermAt graph id (Term.variable v) = IsVariableAt graph id v
  IsTermAt graph id (Term.symbolic s) = IsSymbolAt graph.cell id s
  IsTermAt graph id (Term.function n ts) =
      (kids : List ℕ) × (get_elem? graph.cell id ≡ some (Cell.function n kids))
      × AreTermsAt graph kids ts
  IsTermAt graph id (Term.tuple ts) =
      (kids : List ℕ) × (get_elem? graph.cell id ≡ some (Cell.tuple kids))
      × AreTermsAt graph kids ts
  IsTermAt graph id _ = ⊥

  pub AreTermsAt : Nodes → List ℕ → Terms → Type 0
  AreTermsAt graph [] no_terms = Unit
  AreTermsAt graph (k ∷ kids) (with_term t ts) = IsTermAt graph k t × AreTermsAt graph kids ts
  AreTermsAt graph _ _ = ⊥

module _ (cells cells' : List Cell)
    (stays : (id : ℕ) (c : Cell) → get_elem? cells id ≡ some c → get_elem? cells' id ≡ some c) where
  mutual
    pub IsSymbolAt-stays : (id : ℕ) (s : Symbol) → IsSymbolAt cells id s → IsSymbolAt cells' id s
    IsSymbolAt-stays id (Symbol.function n xs positive) (kids, e, h) =
        (kids, stays id _ e, AreSymbolsAt-stays kids xs h)
    IsSymbolAt-stays id (Symbol.tuple xs) (kids, e, h) =
        (kids, stays id _ e, AreSymbolsAt-stays kids xs h)
    IsSymbolAt-stays id (Symbol.function n xs negative) e = stays id _ e
    IsSymbolAt-stays id infimum e = stays id _ e
    IsSymbolAt-stays id (Symbol.number x) e = stays id _ e
    IsSymbolAt-stays id (Symbol.string x) e = stays id _ e
    IsSymbolAt-stays id supremum e = stays id _ e

    pub AreSymbolsAt-stays :
        (kids : List ℕ) (xs : Symbols) → AreSymbolsAt cells kids xs → AreSymbolsAt cells' kids xs
    AreSymbolsAt-stays [] nil h = tt
    AreSymbolsAt-stays [] (cons x xs) h = absurd h
    AreSymbolsAt-stays (k ∷ kids) nil h = absurd h
    AreSymbolsAt-stays (k ∷ kids) (cons x xs) h =
        (IsSymbolAt-stays k x (h.0), AreSymbolsAt-stays kids xs (h.1))

module _ (graph graph' : Nodes) (stays : Extends graph graph') where
  mutual
    pub IsTermAt-stays : (id : ℕ) (t : Term) → IsTermAt graph id t → IsTermAt graph' id t
    IsTermAt-stays id (Term.variable (Variable.named n)) h =
        (stays.0 id _ (h.0), stays.1 n id (h.1))
    IsTermAt-stays id (Term.variable anonymous) h = stays.0 id _ h
    IsTermAt-stays id (Term.symbolic s) h = IsSymbolAt-stays graph.cell graph'.cell (stays.0) id s h
    IsTermAt-stays id (Term.function n ts) (kids, e, h) =
        (kids, stays.0 id _ e, AreTermsAt-stays kids ts h)
    IsTermAt-stays id (Term.tuple ts) (kids, e, h) =
        (kids, stays.0 id _ e, AreTermsAt-stays kids ts h)
    IsTermAt-stays id (Term.pool ts) h = absurd h
    IsTermAt-stays id (Term.unary_operation op t) h = absurd h
    IsTermAt-stays id (Term.binary_operation op l r) h = absurd h
    IsTermAt-stays id (Term.interval l r) h = absurd h
    IsTermAt-stays id (Term.absolute t) h = absurd h
    IsTermAt-stays id (Term.external n ts) h = absurd h

    pub AreTermsAt-stays :
        (kids : List ℕ) (ts : Terms) → AreTermsAt graph kids ts → AreTermsAt graph' kids ts
    AreTermsAt-stays [] no_terms h = tt
    AreTermsAt-stays [] (with_term t ts) h = absurd h
    AreTermsAt-stays (k ∷ kids) no_terms h = absurd h
    AreTermsAt-stays (k ∷ kids) (with_term t ts) h =
        (IsTermAt-stays k t (h.0), AreTermsAt-stays kids ts (h.1))

pub IsSymbolAt-inside :
    (cells : List Cell) (id : ℕ) (s : Symbol) → IsSymbolAt cells id s → id < length cells
IsSymbolAt-inside cells id (Symbol.function n xs positive) (kids, e, h) =
    inside-get_elem? cells id _ e
IsSymbolAt-inside cells id (Symbol.tuple xs) (kids, e, h) = inside-get_elem? cells id _ e
IsSymbolAt-inside cells id (Symbol.function n xs negative) e = inside-get_elem? cells id _ e
IsSymbolAt-inside cells id infimum e = inside-get_elem? cells id _ e
IsSymbolAt-inside cells id (Symbol.number x) e = inside-get_elem? cells id _ e
IsSymbolAt-inside cells id (Symbol.string x) e = inside-get_elem? cells id _ e
IsSymbolAt-inside cells id supremum e = inside-get_elem? cells id _ e

pub IsTermAt-inside :
    (graph : Nodes) (id : ℕ) (t : Term) → IsTermAt graph id t → id < length graph.cell
IsTermAt-inside graph id (Term.variable (Variable.named n)) h =
    inside-get_elem? graph.cell id _ (h.0)
IsTermAt-inside graph id (Term.variable anonymous) h = inside-get_elem? graph.cell id _ h
IsTermAt-inside graph id (Term.symbolic s) h = IsSymbolAt-inside graph.cell id s h
IsTermAt-inside graph id (Term.function n ts) (kids, e, h) = inside-get_elem? graph.cell id _ e
IsTermAt-inside graph id (Term.tuple ts) (kids, e, h) = inside-get_elem? graph.cell id _ e
IsTermAt-inside graph id (Term.pool ts) h = absurd h
IsTermAt-inside graph id (Term.unary_operation op t) h = absurd h
IsTermAt-inside graph id (Term.binary_operation op l r) h = absurd h
IsTermAt-inside graph id (Term.interval l r) h = absurd h
IsTermAt-inside graph id (Term.absolute t) h = absurd h
IsTermAt-inside graph id (Term.external n ts) h = absurd h

-- Two lists of one length, related place by place.
abbrev pub AllPairs : {A : Type 0} → (ℕ → A → Type 0) → List ℕ → List A → Type 0
AllPairs R [] [] = Unit
AllPairs R (k ∷ ids) (x ∷ xs) = R k x × AllPairs R ids xs
AllPairs R _ _ = ⊥

module _ {A : Type 0} where
  pub AllPairs-map :
      (R S : ℕ → A → Type 0) (ids : List ℕ) (xs : List A)
      → ((k : ℕ) (x : A) → R k x → S k x)
      → AllPairs R ids xs
      → AllPairs S ids xs
  AllPairs-map R S [] [] f h = tt
  AllPairs-map R S [] (x ∷ xs) f h = absurd h
  AllPairs-map R S (k ∷ ids) [] f h = absurd h
  AllPairs-map R S (k ∷ ids) (x ∷ xs) f h = (f k x (h.0), AllPairs-map R S ids xs f (h.1))

  pub AllPairs-All :
      (R : ℕ → A → Type 0) (P : ℕ → Type 0) (ids : List ℕ) (xs : List A)
      → ((k : ℕ) (x : A) → R k x → P k)
      → AllPairs R ids xs
      → All P ids
  AllPairs-All R P [] xs f h = tt
  AllPairs-All R P (k ∷ ids) [] f h = absurd h
  AllPairs-All R P (k ∷ ids) (x ∷ xs) f h = (f k x (h.0), AllPairs-All R P ids xs f (h.1))

  onto-AllPairs :
      (R : ℕ → A → Type 0) (xs rest : List A) (done : List ℕ)
      → AllPairs R done (onto xs rest)
      → (kids : List ℕ) × (below : List ℕ) × (done ≡ onto kids below)
        × (length kids ≡ length xs)
        × AllPairs R kids xs
        × AllPairs R below rest
  onto-AllPairs R [] rest done h = ([], done, refl, refl, tt, h)
  onto-AllPairs R (x ∷ xs) rest done h =
      let (kids, below, e, len, hs, hb) = onto-AllPairs R xs (x ∷ rest) done h in
      uncover kids below e len hs hb
    where
      uncover :
          (kids below : List ℕ)
          → done ≡ onto kids below
          → length kids ≡ length xs
          → AllPairs R kids xs
          → AllPairs R below (x ∷ rest)
          → (kids : List ℕ) × (below : List ℕ) × (done ≡ onto kids below)
            × (length kids ≡ suc (length xs))
            × AllPairs R kids (x ∷ xs)
            × AllPairs R below rest
      uncover kids [] e len hs hb = absurd hb
      uncover kids (k ∷ below) e len hs hb = (k ∷ kids, below, e, ap suc len, (hb.0, hs), hb.1)

  -- Splitting off a stack what the top stands for.
  pub split_off-AllPairs :
      (R : ℕ → A → Type 0) (xs rest : List A) (done : List ℕ) (k : ℕ)
      → AllPairs R done (onto xs rest)
      → length xs ≡ k
      → (kids : List ℕ) × (below : List ℕ) × (split_off k done ≡ some (kids, below))
        × AllPairs R kids xs
        × AllPairs R below rest
  split_off-AllPairs R xs rest done k h len =
      let (kids, below, e, same, hs, hb) = onto-AllPairs R xs rest done h in
      (
        kids,
        below,
        ap₂ (λ n z. split_off n z) (sym len ∙ sym same) e ∙ split_off-onto kids below,
        hs,
        hb,
      )

pub AllPairs-AreSymbolsAt :
    (cells : List Cell) (kids : List ℕ) (xs : Symbols)
    → AllPairs (IsSymbolAt cells) kids (to_list xs)
    → AreSymbolsAt cells kids xs
AllPairs-AreSymbolsAt cells [] nil h = tt
AllPairs-AreSymbolsAt cells [] (cons x xs) h = absurd h
AllPairs-AreSymbolsAt cells (k ∷ kids) nil h = absurd h
AllPairs-AreSymbolsAt cells (k ∷ kids) (cons x xs) h =
    (h.0, AllPairs-AreSymbolsAt cells kids xs (h.1))

pub AllPairs-AreTermsAt :
    (graph : Nodes) (kids : List ℕ) (ts : Terms)
    → AllPairs (IsTermAt graph) kids (to_vec ts)
    → AreTermsAt graph kids ts
AllPairs-AreTermsAt graph [] no_terms h = tt
AllPairs-AreTermsAt graph [] (with_term t ts) h = absurd h
AllPairs-AreTermsAt graph (k ∷ kids) no_terms h = absurd h
AllPairs-AreTermsAt graph (k ∷ kids) (with_term t ts) h =
    (h.0, AllPairs-AreTermsAt graph kids ts (h.1))

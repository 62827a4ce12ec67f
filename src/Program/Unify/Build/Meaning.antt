-- ===== src/Program/Unify/Build/Meaning.antt =====
-- What the values of a graph make of the terms that its nodes stand for.
use themelios.Prelude.{ℕ, ◌≡◌, refl, ap, ap₂, ◌∙◌, List, [], ◌∷◌, map, none, some, get_elem?}
use themelios.Program.Symbol.{
  Symbol, Symbols, Name, nil, cons, from_list, infimum, supremum, positive, negative,
}
use themelios.Program.Term.{Term, Terms, no_terms, with_term, Variable, anonymous}
use themelios.Program.Unify.Nodes.{Cell, Nodes, interned}
use themelios.Program.Unify.Solve.Solutions.{IsModel}
use themelios.Program.Unify.Build.Graph.{unmerged}
use themelios.Program.Unify.Build.Shape.{IsSymbolAt, AreSymbolsAt, IsTermAt, AreTermsAt}

-- The ground term, with values for the variables, of a term of variables, symbols, functions and tuples.
abbrev mutual
  pub ground_of : (Variable → Symbol) → Term → Symbol
  ground_of σ (Term.variable v) = σ v
  ground_of σ (Term.symbolic s) = s
  ground_of σ (Term.function n ts) = Symbol.function n (grounds_of σ ts) positive
  ground_of σ (Term.tuple ts) = Symbol.tuple (grounds_of σ ts)
  ground_of σ _ = infimum

  pub grounds_of : (Variable → Symbol) → Terms → Symbols
  grounds_of σ no_terms = nil
  grounds_of σ (with_term t ts) = cons (ground_of σ t) (grounds_of σ ts)

-- The symbol is an instance of the term, with values for the named variables and any for each `_`.
abbrev mutual
  pub IsInstance : (Name → Symbol) → Term → Symbol → Type 0
  IsInstance ρ (Term.variable (Variable.named n)) s = s ≡ ρ n
  IsInstance ρ (Term.variable anonymous) s = Unit
  IsInstance ρ (Term.symbolic t) s = s ≡ t
  IsInstance ρ (Term.function n ts) s =
      (xs : Symbols) × (s ≡ Symbol.function n xs positive) × AreInstances ρ ts xs
  IsInstance ρ (Term.tuple ts) s = (xs : Symbols) × (s ≡ Symbol.tuple xs) × AreInstances ρ ts xs
  IsInstance ρ _ s = ⊥

  pub AreInstances : (Name → Symbol) → Terms → Symbols → Type 0
  AreInstances ρ no_terms nil = Unit
  AreInstances ρ (with_term t ts) (cons x xs) = IsInstance ρ t x × AreInstances ρ ts xs
  AreInstances ρ _ _ = ⊥

module _ (graph : Nodes) (v : ℕ → Symbol) (m : IsModel graph.cell unmerged v) where
  mutual
    symbol_value : (id : ℕ) (s : Symbol) → IsSymbolAt graph.cell id s → v id ≡ s
    symbol_value id (Symbol.function n xs positive) (kids, at, hs) =
        m.fits id _ at refl ∙ ap (λ z. Symbol.function n z positive) (symbol_values kids xs hs)
    symbol_value id (Symbol.tuple xs) (kids, at, hs) =
        m.fits id _ at refl ∙ ap Symbol.tuple (symbol_values kids xs hs)
    symbol_value id (Symbol.function n xs negative) at = m.fits id _ at refl
    symbol_value id infimum at = m.fits id _ at refl
    symbol_value id (Symbol.number x) at = m.fits id _ at refl
    symbol_value id (Symbol.string x) at = m.fits id _ at refl
    symbol_value id supremum at = m.fits id _ at refl

    symbol_values :
        (kids : List ℕ) (xs : Symbols)
        → AreSymbolsAt graph.cell kids xs
        → from_list (map v kids) ≡ xs
    symbol_values [] nil h = refl
    symbol_values [] (cons x xs) h = absurd h
    symbol_values (k ∷ kids) nil h = absurd h
    symbol_values (k ∷ kids) (cons x xs) h =
        ap₂ cons (symbol_value k x (h.0)) (symbol_values kids xs (h.1))

  module _ (σ : Variable → Symbol)
      (gives : (id : ℕ) (x : Variable)
        → get_elem? graph.cell id ≡ some (Cell.variable x)
        → v id ≡ σ x) where
    mutual
      pub IsTermAt-ground_of : (id : ℕ) (t : Term) → IsTermAt graph id t → v id ≡ ground_of σ t
      IsTermAt-ground_of id (Term.variable (Variable.named n)) h = gives id _ (h.0)
      IsTermAt-ground_of id (Term.variable anonymous) h = gives id _ h
      IsTermAt-ground_of id (Term.symbolic s) h = symbol_value id s h
      IsTermAt-ground_of id (Term.function n ts) (kids, at, hs) =
          m.fits id _ at refl
          ∙ ap (λ z. Symbol.function n z positive) (AreTermsAt-grounds_of kids ts hs)
      IsTermAt-ground_of id (Term.tuple ts) (kids, at, hs) =
          m.fits id _ at refl ∙ ap Symbol.tuple (AreTermsAt-grounds_of kids ts hs)
      IsTermAt-ground_of id (Term.pool ts) h = absurd h
      IsTermAt-ground_of id (Term.unary_operation op t) h = absurd h
      IsTermAt-ground_of id (Term.binary_operation op l r) h = absurd h
      IsTermAt-ground_of id (Term.interval l r) h = absurd h
      IsTermAt-ground_of id (Term.absolute t) h = absurd h
      IsTermAt-ground_of id (Term.external n ts) h = absurd h

      AreTermsAt-grounds_of :
          (kids : List ℕ) (ts : Terms)
          → AreTermsAt graph kids ts
          → from_list (map v kids) ≡ grounds_of σ ts
      AreTermsAt-grounds_of [] no_terms h = refl
      AreTermsAt-grounds_of [] (with_term t ts) h = absurd h
      AreTermsAt-grounds_of (k ∷ kids) no_terms h = absurd h
      AreTermsAt-grounds_of (k ∷ kids) (with_term t ts) h =
          ap₂ cons (IsTermAt-ground_of k t (h.0)) (AreTermsAt-grounds_of kids ts (h.1))

  -- The value of a name's node.
  abbrev pub named_value : Name → Symbol
  named_value n = elim (interned graph.named n) [ none ↦ infimum | some id ↦ v id ]

  mutual
    pub IsTermAt-IsInstance :
        (id : ℕ) (t : Term) → IsTermAt graph id t → IsInstance named_value t (v id)
    IsTermAt-IsInstance id (Term.variable (Variable.named n)) h = rw (h.1, named_value) refl
    IsTermAt-IsInstance id (Term.variable anonymous) h = tt
    IsTermAt-IsInstance id (Term.symbolic s) h = symbol_value id s h
    IsTermAt-IsInstance id (Term.function n ts) (kids, at, hs) =
        (from_list (map v kids), m.fits id _ at refl, AreTermsAt-AreInstances kids ts hs)
    IsTermAt-IsInstance id (Term.tuple ts) (kids, at, hs) =
        (from_list (map v kids), m.fits id _ at refl, AreTermsAt-AreInstances kids ts hs)
    IsTermAt-IsInstance id (Term.pool ts) h = absurd h
    IsTermAt-IsInstance id (Term.unary_operation op t) h = absurd h
    IsTermAt-IsInstance id (Term.binary_operation op l r) h = absurd h
    IsTermAt-IsInstance id (Term.interval l r) h = absurd h
    IsTermAt-IsInstance id (Term.absolute t) h = absurd h
    IsTermAt-IsInstance id (Term.external n ts) h = absurd h

    AreTermsAt-AreInstances :
        (kids : List ℕ) (ts : Terms)
        → AreTermsAt graph kids ts
        → AreInstances named_value ts (from_list (map v kids))
    AreTermsAt-AreInstances [] no_terms h = tt
    AreTermsAt-AreInstances [] (with_term t ts) h = absurd h
    AreTermsAt-AreInstances (k ∷ kids) no_terms h = absurd h
    AreTermsAt-AreInstances (k ∷ kids) (with_term t ts) h =
        (IsTermAt-IsInstance k t (h.0), AreTermsAt-AreInstances kids ts (h.1))

-- ===== src/Program/Unify/Replace.antt =====
-- One pass of replacement, and what it keeps.
use themelios.Prelude.{ℕ, suc, ◌+◌}
use themelios.Program.Symbol.{Symbol}
use themelios.Program.Term.{Variable, Term, Terms, no_terms, with_term}
use themelios.Program.Term.Leaves.{TermAll, TermsAll}

-- Each variable of a term replaced by its image, in one pass.
abbrev mutual
  pub replace : (Variable → Term) → Term → Term
  replace ρ (Term.variable v) = ρ v
  replace ρ (Term.symbolic s) = Term.symbolic s
  replace ρ (Term.function n ts) = Term.function n (replace_all ρ ts)
  replace ρ (Term.tuple ts) = Term.tuple (replace_all ρ ts)
  replace ρ (Term.pool ts) = Term.pool (replace_all ρ ts)
  replace ρ (Term.unary_operation op t) = Term.unary_operation op (replace ρ t)
  replace ρ (Term.binary_operation op l r) = Term.binary_operation op (replace ρ l) (replace ρ r)
  replace ρ (Term.interval l u) = Term.interval (replace ρ l) (replace ρ u)
  replace ρ (Term.absolute t) = Term.absolute (replace ρ t)
  replace ρ (Term.external n ts) = Term.external n (replace_all ρ ts)

  pub replace_all : (Variable → Term) → Terms → Terms
  replace_all ρ no_terms = no_terms
  replace_all ρ (with_term t ts) = with_term (replace ρ t) (replace_all ρ ts)

abbrev pub AnySymbol : Symbol → Type 0
AnySymbol s = Unit

module _ (V W : Variable → Type 0) (f : (v : Variable) → V v → W v) where
  mutual
    pub TermAll-map : (t : Term) → TermAll V AnySymbol t → TermAll W AnySymbol t
    TermAll-map (Term.variable v) h = f v h
    TermAll-map (Term.symbolic s) h = h
    TermAll-map (Term.function n ts) h = TermsAll-map ts h
    TermAll-map (Term.tuple ts) h = TermsAll-map ts h
    TermAll-map (Term.pool ts) h = TermsAll-map ts h
    TermAll-map (Term.unary_operation op t) h = TermAll-map t h
    TermAll-map (Term.binary_operation op l r) h = (TermAll-map l (h.0), TermAll-map r (h.1))
    TermAll-map (Term.interval l u) h = (TermAll-map l (h.0), TermAll-map u (h.1))
    TermAll-map (Term.absolute t) h = TermAll-map t h
    TermAll-map (Term.external n ts) h = TermsAll-map ts h

    pub TermsAll-map : (ts : Terms) → TermsAll V AnySymbol ts → TermsAll W AnySymbol ts
    TermsAll-map no_terms h = tt
    TermsAll-map (with_term t ts) h = (TermAll-map t (h.0), TermsAll-map ts (h.1))

module _ (V : Variable → Type 0) (ρ : Variable → Term) where
  mutual
    pub replace-TermAll :
        (t : Term)
        → TermAll (λ w. TermAll V AnySymbol (ρ w)) AnySymbol t
        → TermAll V AnySymbol (replace ρ t)
    replace-TermAll (Term.variable v) h = h
    replace-TermAll (Term.symbolic s) h = h
    replace-TermAll (Term.function n ts) h = replace_all-TermsAll ts h
    replace-TermAll (Term.tuple ts) h = replace_all-TermsAll ts h
    replace-TermAll (Term.pool ts) h = replace_all-TermsAll ts h
    replace-TermAll (Term.unary_operation op t) h = replace-TermAll t h
    replace-TermAll (Term.binary_operation op l r) h =
        (replace-TermAll l (h.0), replace-TermAll r (h.1))
    replace-TermAll (Term.interval l u) h = (replace-TermAll l (h.0), replace-TermAll u (h.1))
    replace-TermAll (Term.absolute t) h = replace-TermAll t h
    replace-TermAll (Term.external n ts) h = replace_all-TermsAll ts h

    pub replace_all-TermsAll :
        (ts : Terms)
        → TermsAll (λ w. TermAll V AnySymbol (ρ w)) AnySymbol ts
        → TermsAll V AnySymbol (replace_all ρ ts)
    replace_all-TermsAll no_terms h = tt
    replace_all-TermsAll (with_term t ts) h =
        (replace-TermAll t (h.0), replace_all-TermsAll ts (h.1))

-- The turns of the loop for a term, those for each variable given.
abbrev mutual
  pub turns : (Variable → ℕ) → Term → ℕ
  turns χ (Term.variable v) = χ v
  turns χ (Term.symbolic s) = 1
  turns χ (Term.function n ts) = suc (turns_of χ ts + 1)
  turns χ (Term.tuple ts) = suc (turns_of χ ts + 1)
  turns χ (Term.pool ts) = suc (turns_of χ ts + 1)
  turns χ (Term.unary_operation op t) = suc (turns χ t + 1)
  turns χ (Term.binary_operation op l r) = suc (turns χ l + (turns χ r + 1))
  turns χ (Term.interval l u) = suc (turns χ l + (turns χ u + 1))
  turns χ (Term.absolute t) = suc (turns χ t + 1)
  turns χ (Term.external n ts) = suc (turns_of χ ts + 1)

  pub turns_of : (Variable → ℕ) → Terms → ℕ
  turns_of χ no_terms = 0
  turns_of χ (with_term t ts) = turns χ t + turns_of χ ts

-- ===== src/Program/Term/Leaves.antt =====
-- Properties of a fold's result, from those of the leaves.
use themelios.Prelude.{Result, ok, err, and_then, All}
use themelios.Program.Symbol.{Symbol}
use themelios.Program.Term.{Variable, Term, Terms, no_terms, with_term, TermParts}
use themelios.Program.Term.Fold.{tree, trees}

-- A predicate on the leaves of a term.
module _ (V : Variable → Type 0) (S : Symbol → Type 0) where
  abbrev mutual
    pub TermAll : Term → Type 0
    TermAll (Term.variable v) = V v
    TermAll (Term.symbolic s) = S s
    TermAll (Term.function n ts) = TermsAll ts
    TermAll (Term.tuple ts) = TermsAll ts
    TermAll (Term.pool ts) = TermsAll ts
    TermAll (Term.unary_operation op t) = TermAll t
    TermAll (Term.binary_operation op l r) = TermAll l × TermAll r
    TermAll (Term.interval l u) = TermAll l × TermAll u
    TermAll (Term.absolute t) = TermAll t
    TermAll (Term.external n ts) = TermsAll ts

    pub TermsAll : Terms → Type 0
    TermsAll no_terms = Unit
    TermsAll (with_term t ts) = TermAll t × TermsAll ts

-- One on a node, by those on its leaves and its children.
abbrev pub PartsAll :
    {T : Type 0} → (Variable → Type 0) → (Symbol → Type 0) → (T → Type 0) → TermParts T → Type 0
PartsAll V S P (TermParts.variable v) = V v
PartsAll V S P (TermParts.symbolic s) = S s
PartsAll V S P (TermParts.function n xs) = All P xs
PartsAll V S P (TermParts.tuple xs) = All P xs
PartsAll V S P (TermParts.pool xs) = All P xs
PartsAll V S P (TermParts.unary_operation op x) = P x
PartsAll V S P (TermParts.binary_operation op x y) = P x × P y
PartsAll V S P (TermParts.interval x y) = P x × P y
PartsAll V S P (TermParts.absolute x) = P x
PartsAll V S P (TermParts.external n xs) = All P xs

-- The result, if there is one, satisfies the predicate.
abbrev pub Holds : {A E : Type 0} → (A → Type 0) → Result A E → Type 0
Holds P (ok a) = P a
Holds P (err e) = Unit

pub and_then-Holds :
    {A B E : Type 0} (P : A → Type 0) (Q : B → Type 0) (r : Result A E) (f : A → Result B E)
    → Holds P r
    → ((a : A) → P a → Holds Q (f a))
    → Holds Q (and_then r f)
and_then-Holds P Q (ok a) f h g = g a h
and_then-Holds P Q (err e) f h g = tt

module _ {T E : Type 0} (step : TermParts T → Result T E) (V : Variable → Type 0)
    (S : Symbol → Type 0) (P : T → Type 0)
    (kept : (parts : TermParts T) → PartsAll V S P parts → Holds P (step parts)) where
  -- What each step keeps, the recursion keeps.
  mutual
    pub tree-Holds : (t : Term) → TermAll V S t → Holds P (tree step t)
    tree-Holds (Term.variable v) h = kept (TermParts.variable v) h
    tree-Holds (Term.symbolic s) h = kept (TermParts.symbolic s) h
    tree-Holds (Term.function n ts) h =
        and_then-Holds (All P) P (trees step ts) _ (trees-Holds ts h)
          (λ xs. kept (TermParts.function n xs))
    tree-Holds (Term.tuple ts) h =
        and_then-Holds (All P) P (trees step ts) _ (trees-Holds ts h)
          (λ xs. kept (TermParts.tuple xs))
    tree-Holds (Term.pool ts) h =
        and_then-Holds (All P) P (trees step ts) _ (trees-Holds ts h)
          (λ xs. kept (TermParts.pool xs))
    tree-Holds (Term.external n ts) h =
        and_then-Holds (All P) P (trees step ts) _ (trees-Holds ts h)
          (λ xs. kept (TermParts.external n xs))
    tree-Holds (Term.unary_operation op t) h =
        and_then-Holds P P (tree step t) _ (tree-Holds t h)
          (λ x. kept (TermParts.unary_operation op x))
    tree-Holds (Term.absolute t) h =
        and_then-Holds P P (tree step t) _ (tree-Holds t h) (λ x. kept (TermParts.absolute x))
    tree-Holds (Term.binary_operation op l r) h =
        and_then-Holds P P (tree step l) _ (tree-Holds l h.0) (λ x hx.
          and_then-Holds P P (tree step r) _ (tree-Holds r h.1)
            (λ y hy. kept (TermParts.binary_operation op x y) (hx, hy)))
    tree-Holds (Term.interval l u) h =
        and_then-Holds P P (tree step l) _ (tree-Holds l h.0) (λ x hx.
          and_then-Holds P P (tree step u) _ (tree-Holds u h.1)
            (λ y hy. kept (TermParts.interval x y) (hx, hy)))

    pub trees-Holds : (ts : Terms) → TermsAll V S ts → Holds (All P) (trees step ts)
    trees-Holds no_terms h = tt
    trees-Holds (with_term t ts) h =
        and_then-Holds P (All P) (tree step t) _ (tree-Holds t h.0) (λ x hx.
          and_then-Holds (All P) (All P) (trees step ts) _ (trees-Holds ts h.1)
            (λ xs hxs. (hx, hxs)))

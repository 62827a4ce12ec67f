-- ===== src/Program/Term/Canonical/Whole.antt =====
-- `canonicalize` of any term.
use themelios.Prelude.{
  suc, ◌*◌, ◌≡◌, refl, ap, ◌∙◌, Bool, true, false, if◌then◌else◌, Bool-cases, List, [], ◌∷◌, Option,
  some, All, ◌⊎◌, inl, inr, Result, ok, err, arith,
}
use themelios.Program.Term.{Term, Terms, no_terms, with_term, TermParts, try_fold}
use themelios.Program.Term.Fold.{nodes, tree, try_fold-tree}
use themelios.Program.Term.Leaves.{TermAll, TermsAll, PartsAll, Holds, tree-Holds}
use themelios.Program.Term.Canonical.{
  any_flag, terms_of, unflagged, flagged, nests_pool, canonicalize_parts, canonicalize_step,
  canonical_fold, canonicalize,
}
use themelios.Program.Term.Canonical.Forms.{
  IsCanonical, PartsCanonical, canonicalize_parts-IsCanonical,
}
use themelios.Program.Term.Canonical.Flatten.{flatten_pools-IsCanonical}

-- The folded term is canonical, but where the flag says that a pool held a pool.
abbrev Flagged : Term × Bool → Type 0
Flagged (t, met) = (met ≡ true) ⊎ IsCanonical t

abbrev AnyLeaf : {A : Type 0} → A → Type 0
AnyLeaf a = Unit

any_flag-All :
    (xs : List (Term × Bool))
    → All Flagged xs
    → (any_flag xs ≡ true) ⊎ All IsCanonical (terms_of xs)
any_flag-All [] h = inr tt
any_flag-All ((t, true) ∷ xs) h = inl refl
any_flag-All ((t, false) ∷ xs) (inl e, g) = absurd (ground (arith, e))
any_flag-All ((t, false) ∷ xs) (inr c, g) = elim (any_flag-All xs g) [
  | inl e ↦ inl e
  | inr a ↦ inr (c, a)
]

both :
    (l r : Term) (m n : Bool)
    → Flagged (l, m)
    → Flagged (r, n)
    → ((if m then true else n) ≡ true) ⊎ (IsCanonical l × IsCanonical r)
both l r true n h g = inl refl
both l r false n (inl e) g = absurd (ground (arith, e))
both l r false n (inr a) (inl e) = inl e
both l r false n (inr a) (inr b) = inr (a, b)

unflagged-Flagged :
    (parts : TermParts (Term × Bool))
    → PartsAll AnyLeaf AnyLeaf Flagged parts
    → ((unflagged parts).1 ≡ true) ⊎ PartsCanonical ((unflagged parts).0)
unflagged-Flagged (TermParts.variable v) h = inr tt
unflagged-Flagged (TermParts.symbolic s) h = inr tt
unflagged-Flagged (TermParts.function n xs) h = any_flag-All xs h
unflagged-Flagged (TermParts.tuple xs) h = any_flag-All xs h
unflagged-Flagged (TermParts.pool xs) h = any_flag-All xs h
unflagged-Flagged (TermParts.external n xs) h = any_flag-All xs h
unflagged-Flagged (TermParts.unary_operation op (t, met)) h = h
unflagged-Flagged (TermParts.absolute (t, met)) h = h
unflagged-Flagged (TermParts.binary_operation op (l, m) (r, n)) h = both l r m n (h.0) (h.1)
unflagged-Flagged (TermParts.interval (l, m) (r, n)) h = both l r m n (h.0) (h.1)

flagged-Flagged :
    (parts : TermParts Term) (met : Bool)
    → (met ≡ true) ⊎ PartsCanonical parts
    → Flagged (flagged (parts, met))
unfolding canonicalize_parts
flagged-Flagged parts true h = inl refl
flagged-Flagged parts false (inl e) = absurd (ground (arith, e))
flagged-Flagged parts false (inr c) = elim (Bool-cases (nests_pool parts)) [
  | inl e ↦ inl e
  | inr e ↦ inr (canonicalize_parts-IsCanonical parts c e)
]

step-Flagged :
    (parts : TermParts (Term × Bool))
    → PartsAll AnyLeaf AnyLeaf Flagged parts
    → Holds Flagged (canonicalize_step parts)
unfolding canonicalize_step canonicalize_parts
step-Flagged parts h =
    flagged-Flagged ((unflagged parts).0) ((unflagged parts).1) (unflagged-Flagged parts h)

mutual
  any_leaf : (t : Term) → TermAll AnyLeaf AnyLeaf t
  any_leaf (Term.variable v) = tt
  any_leaf (Term.symbolic s) = tt
  any_leaf (Term.function n ts) = any_leaves ts
  any_leaf (Term.tuple ts) = any_leaves ts
  any_leaf (Term.pool ts) = any_leaves ts
  any_leaf (Term.unary_operation op t) = any_leaf t
  any_leaf (Term.binary_operation op l r) = (any_leaf l, any_leaf r)
  any_leaf (Term.interval l u) = (any_leaf l, any_leaf u)
  any_leaf (Term.absolute t) = any_leaf t
  any_leaf (Term.external n ts) = any_leaves ts

  any_leaves : (ts : Terms) → TermsAll AnyLeaf AnyLeaf ts
  any_leaves no_terms = tt
  any_leaves (with_term t ts) = (any_leaf t, any_leaves ts)

folded-IsCanonical :
    (r : Result (Term × Bool) ⊥)
    → Holds Flagged r
    → (u : Term) × (canonical_fold (some r) ≡ some u) × IsCanonical u
unfolding canonical_fold
folded-IsCanonical (err never) h = absurd never
folded-IsCanonical (ok (t, true)) h = flatten_pools-IsCanonical t
folded-IsCanonical (ok (t, false)) (inl e) = absurd (ground (arith, e))
folded-IsCanonical (ok (t, false)) (inr c) = (t, refl, c)

-- The fold of `canonicalize` has the fuel it takes.
pub folds :
    (t : Term) → try_fold canonicalize_step (suc (2 * nodes t)) t ≡ some (tree canonicalize_step t)
folds t = try_fold-tree canonicalize_step t (suc (2 * nodes t)) (omega arith)

whole-IsCanonical :
    (t : Term) (result : Option Term)
    → result ≡ canonical_fold (try_fold canonicalize_step (suc (2 * nodes t)) t)
    → (u : Term) × (result ≡ some u) × IsCanonical u
whole-IsCanonical t result is_fold =
    let (u, e, c) =
      folded-IsCanonical (tree canonicalize_step t)
        (tree-Holds canonicalize_step AnyLeaf AnyLeaf Flagged step-Flagged t (any_leaf t)) in
    (u, is_fold ∙ ap canonical_fold (folds t) ∙ e, c)

-- Whatever the term, `canonicalize` ends, with a canonical term.
pub canonicalize-IsCanonical : (t : Term) → (u : Term) × (canonicalize t ≡ some u) × IsCanonical u
unfolding canonicalize
canonicalize-IsCanonical (Term.variable v) = (_, refl, tt)
canonicalize-IsCanonical (Term.symbolic s) = (_, refl, tt)
canonicalize-IsCanonical t = whole-IsCanonical t _ refl

-- ===== src/Program/Term/Canonical/Fixed.antt =====
-- `canonicalize` of a canonical term.
use themelios.Prelude.{suc, ◌*◌, ◌≡◌, refl, ap, ◌∙◌, Bool, false, List, [], ◌∷◌, Option, some, ok}
use themelios.Program.Term.{
  Term, Terms, no_terms, with_term, to_vec, into_parts, negate, bitwise_not, try_fold,
}
use themelios.Program.Term.Fold.{nodes, tree, trees}
use themelios.Program.Term.Canonical.{
  any_flag, terms_of, flagged, canonicalize_parts, canonicalize_step, canonical_fold, canonicalize,
}
use themelios.Program.Term.Canonical.Forms.{
  IsCanonical, AreCanonical, canonicalize_parts-fixed, nests_pool-fixed,
}
use themelios.Program.Term.Canonical.Whole.{folds, canonicalize-IsCanonical}

-- Folded terms under which no pool holds a pool.
abbrev pub unmet : List Term → List (Term × Bool)
unmet [] = []
unmet (t ∷ ts) = (t, false) ∷ unmet ts

pub terms_of-unmet : (xs : List Term) → terms_of (unmet xs) ≡ xs
terms_of-unmet [] = refl
terms_of-unmet (x ∷ xs) = ap (λ z. x ∷ z) (terms_of-unmet xs)

pub any_flag-unmet : (xs : List Term) → any_flag (unmet xs) ≡ false
any_flag-unmet [] = refl
any_flag-unmet (x ∷ xs) = any_flag-unmet xs

node : (t : Term) → IsCanonical t → flagged (into_parts t, false) ≡ (t, false)
unfolding canonicalize_parts
node t h = rw (canonicalize_parts-fixed t h, nests_pool-fixed t h) refl

mutual
  unfolding canonicalize_step canonicalize_parts

  tree-fixed : (t : Term) → IsCanonical t → tree canonicalize_step t ≡ ok (t, false)
  tree-fixed (Term.variable v) h = refl
  tree-fixed (Term.symbolic s) h = refl
  tree-fixed (Term.function n ts) h =
      rw (trees-fixed ts (h.0), terms_of-unmet (to_vec ts), any_flag-unmet (to_vec ts))
        (ap ok (node (Term.function n ts) h))
  tree-fixed (Term.tuple ts) h =
      rw (trees-fixed ts (h.0), terms_of-unmet (to_vec ts), any_flag-unmet (to_vec ts))
        (ap ok (node (Term.tuple ts) h))
  tree-fixed (Term.pool ts) h =
      rw (trees-fixed ts (h.0), terms_of-unmet (to_vec ts), any_flag-unmet (to_vec ts))
        (ap ok (node (Term.pool ts) h))
  tree-fixed (Term.external n ts) h =
      rw (trees-fixed ts h, terms_of-unmet (to_vec ts), any_flag-unmet (to_vec ts))
        (ap ok (node (Term.external n ts) h))
  tree-fixed (Term.unary_operation negate t) h =
      rw (tree-fixed t (h.0)) (ap ok (node (Term.unary_operation negate t) h))
  tree-fixed (Term.unary_operation bitwise_not t) h = rw (tree-fixed t h) refl
  tree-fixed (Term.absolute t) h = rw (tree-fixed t h) refl
  tree-fixed (Term.binary_operation op l r) h = rw (tree-fixed l (h.0), tree-fixed r (h.1)) refl
  tree-fixed (Term.interval l u) h = rw (tree-fixed l (h.0), tree-fixed u (h.1)) refl

  trees-fixed : (ts : Terms) → AreCanonical ts → trees canonicalize_step ts ≡ ok (unmet (to_vec ts))
  trees-fixed no_terms h = refl
  trees-fixed (with_term t ts) h = rw (tree-fixed t (h.0), trees-fixed ts (h.1)) refl

whole-fixed :
    (t : Term) (result : Option Term)
    → IsCanonical t
    → result ≡ canonical_fold (try_fold canonicalize_step (suc (2 * nodes t)) t)
    → result ≡ some t
unfolding canonical_fold
whole-fixed t result h is_fold =
    is_fold ∙ ap canonical_fold (folds t) ∙ ap (λ r. canonical_fold (some r)) (tree-fixed t h)

-- A canonical term is left as it is.
pub canonicalize-fixed : (t : Term) → IsCanonical t → canonicalize t ≡ some t
unfolding canonicalize
canonicalize-fixed (Term.variable v) h = refl
canonicalize-fixed (Term.symbolic s) h = refl
canonicalize-fixed t h = whole-fixed t _ h refl

-- Canonicalized once, a term is left as it is the second time.
pub canonicalize-canonicalize :
    (t : Term) → (u : Term) × (canonicalize t ≡ some u) × (canonicalize u ≡ some u)
canonicalize-canonicalize t =
    let (u, e, c) = canonicalize-IsCanonical t in (u, e, canonicalize-fixed u c)

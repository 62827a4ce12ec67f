-- ===== src/Program/Unify/Pattern/Ground.antt =====
-- The pattern form of a ground term that has a value.
use themelios.Prelude.{
  suc, ◌*◌, ◌≡◌, refl, sym, ap, subst, ◌∙◌, Bool, true, false, List, [], ◌∷◌, Option, some, Result,
  ok, err, Result-cases, inl, inr, all, arith,
}
use themelios.Program.Symbol.{Symbol}
use themelios.Program.Term.{Term, Terms, no_terms, with_term, from_vec, try_fold}
use themelios.Program.Term.Fold.{nodes, tree, trees, try_fold-tree}
use themelios.Program.Term.Eval.{evaluate, evaluate_step}
use themelios.Program.Term.Canonical.{
  is_symbolic, unwrap_symbolics, canonicalize, canonicalize_step, canonicalize_parts,
  canonical_fold,
}
use themelios.Program.Term.Canonical.Whole.{folds}
use themelios.Program.Term.Canonical.Fixed.{unmet, terms_of-unmet, any_flag-unmet}
use themelios.Program.Unify.Pattern.{
  NotAPattern, denoted, arithmetic, pattern_step, canonical_pattern, normalized, pattern_normalize,
}

evaluates : (t : Term) → evaluate (suc (2 * nodes t)) t ≡ some (tree evaluate_step t)
unfolding evaluate
evaluates t = try_fold-tree evaluate_step t (suc (2 * nodes t)) (omega arith)

-- A former that evaluates is its symbol.
arithmetic-denotes :
    (former : Term) (s : Symbol)
    → tree evaluate_step former ≡ ok s
    → arithmetic former ≡ ok (Term.symbolic s)
unfolding arithmetic
arithmetic-denotes former s e = ap (denoted former) (evaluates former ∙ ap some e)

-- The pattern form of a term, before it is made canonical: it has the value, and its canonical form is it.
abbrev Denotes : Symbol → Result Term NotAPattern → Type 0
Denotes s r =
    (w : Term) × (r ≡ ok w)
    × (tree evaluate_step w ≡ ok s)
    × (tree canonicalize_step w ≡ ok (Term.symbolic s, false))

abbrev symbols : List Symbol → List Term
symbols [] = []
symbols (s ∷ ss) = Term.symbolic s ∷ symbols ss

abbrev AllDenote : List Symbol → Result (List Term) NotAPattern → Type 0
AllDenote ss r =
    (ws : List Term) × (r ≡ ok ws)
    × (trees evaluate_step (from_vec ws) ≡ ok ss)
    × (trees canonicalize_step (from_vec ws) ≡ ok (unmet (symbols ss)))

all-symbols : (ss : List Symbol) → all is_symbolic (symbols ss) ≡ true
all-symbols [] = refl
all-symbols (s ∷ ss) = all-symbols ss

unwrap_symbolics-symbols : (ss : List Symbol) → unwrap_symbolics (symbols ss) ≡ ss
unwrap_symbolics-symbols [] = refl
unwrap_symbolics-symbols (s ∷ ss) = ap (λ z. s ∷ z) (unwrap_symbolics-symbols ss)

symbolic-Denotes :
    (r : Result Term NotAPattern) (s : Symbol) → r ≡ ok (Term.symbolic s) → Denotes s r
unfolding evaluate_step canonicalize_step canonicalize_parts
symbolic-Denotes r s e = (Term.symbolic s, e, refl, refl)

ok-inj : {A E : Type 0} (x y : A) → Path (Result A E) (ok x) (ok y) → x ≡ y
ok-inj x y e = ground (arith, e)

refused : {A E B : Type 0} (e : E) (x : A) → Path (Result A E) (err e) (ok x) → B
refused e x h = absurd (ground (arith, h))

mutual
  unfolding evaluate_step pattern_step canonicalize_step canonicalize_parts

  tree-Denotes :
      (t : Term) (s : Symbol) → tree evaluate_step t ≡ ok s → Denotes s (tree pattern_step t)
  tree-Denotes (Term.variable v) s h = refused _ s h
  tree-Denotes (Term.symbolic x) s h =
      symbolic-Denotes _ s (ap (λ z. ok (Term.symbolic z)) (ok-inj x s h))
  tree-Denotes (Term.function n ts) s h = elim (Result-cases (trees evaluate_step ts)) [
    | inr (e, are_err) ↦ refused e s (rw are_err at h)
    | inl (ss, are_ok) ↦
        let (ws, d, v, c) = trees-AllDenote ts ss are_ok in
        subst (λ z. Denotes z (tree pattern_step (Term.function n ts)))
          (ok-inj _ s (rw are_ok at h))
          (
            Term.function n (from_vec ws),
            rw d refl,
            rw v refl,
            rw
                (
                  c,
                  terms_of-unmet (symbols ss),
                  any_flag-unmet (symbols ss),
                  all-symbols ss,
                  unwrap_symbolics-symbols ss,
                )
                refl,
          )
  ]
  tree-Denotes (Term.tuple ts) s h = elim (Result-cases (trees evaluate_step ts)) [
    | inr (e, are_err) ↦ refused e s (rw are_err at h)
    | inl (ss, are_ok) ↦
        let (ws, d, v, c) = trees-AllDenote ts ss are_ok in
        subst (λ z. Denotes z (tree pattern_step (Term.tuple ts))) (ok-inj _ s (rw are_ok at h))
          (
            Term.tuple (from_vec ws),
            rw d refl,
            rw v refl,
            rw
                (
                  c,
                  terms_of-unmet (symbols ss),
                  any_flag-unmet (symbols ss),
                  all-symbols ss,
                  unwrap_symbolics-symbols ss,
                )
                refl,
          )
  ]
  tree-Denotes (Term.pool ts) s h = elim (Result-cases (trees evaluate_step ts)) [
    | inr (e, are_err) ↦ refused e s (rw are_err at h)
    | inl (ss, are_ok) ↦ refused _ s (rw are_ok at h)
  ]
  tree-Denotes (Term.external n ts) s h = elim (Result-cases (trees evaluate_step ts)) [
    | inr (e, are_err) ↦ refused e s (rw are_err at h)
    | inl (ss, are_ok) ↦ refused _ s (rw are_ok at h)
  ]
  tree-Denotes (Term.unary_operation op t) s h = elim (Result-cases (tree evaluate_step t)) [
    | inr (e, is_err) ↦ refused e s (rw is_err at h)
    | inl (x, is_ok) ↦
        let (w, d, v, c) = tree-Denotes t x is_ok in
        symbolic-Denotes _ s
          (rw d (arithmetic-denotes (Term.unary_operation op w) s (rw v (rw is_ok at h))))
  ]
  tree-Denotes (Term.absolute t) s h = elim (Result-cases (tree evaluate_step t)) [
    | inr (e, is_err) ↦ refused e s (rw is_err at h)
    | inl (x, is_ok) ↦
        let (w, d, v, c) = tree-Denotes t x is_ok in
        symbolic-Denotes _ s (rw d (arithmetic-denotes (Term.absolute w) s (rw v (rw is_ok at h))))
  ]
  tree-Denotes (Term.binary_operation op l r) s h = elim (Result-cases (tree evaluate_step l)) [
    | inr (e, is_err) ↦ refused e s (rw is_err at h)
    | inl (x, is_ok) ↦ elim (Result-cases (tree evaluate_step r)) [
      | inr (e, is_err) ↦ refused e s (rw (is_ok, is_err) at h)
      | inl (y, also_ok) ↦
          let (a, d, v, c) = tree-Denotes l x is_ok in
          let (b, e, u, g) = tree-Denotes r y also_ok in
          symbolic-Denotes _ s (
            rw (d, e)
              (arithmetic-denotes (Term.binary_operation op a b) s
                (rw (v, u) (rw (is_ok, also_ok) at h))))
    ]
  ]
  tree-Denotes (Term.interval l r) s h = elim (Result-cases (tree evaluate_step l)) [
    | inr (e, is_err) ↦ refused e s (rw is_err at h)
    | inl (x, is_ok) ↦ elim (Result-cases (tree evaluate_step r)) [
      | inr (e, is_err) ↦ refused e s (rw (is_ok, is_err) at h)
      | inl (y, also_ok) ↦ refused _ s (rw (is_ok, also_ok) at h)
    ]
  ]

  trees-AllDenote :
      (ts : Terms) (ss : List Symbol)
      → trees evaluate_step ts ≡ ok ss
      → AllDenote ss (trees pattern_step ts)
  trees-AllDenote no_terms ss h =
      subst (λ z. AllDenote z (trees pattern_step no_terms)) (ok-inj [] ss h) ([], refl, refl, refl)
  trees-AllDenote (with_term t ts) ss h = elim (Result-cases (tree evaluate_step t)) [
    | inr (e, is_err) ↦ refused e ss (rw is_err at h)
    | inl (x, is_ok) ↦ elim (Result-cases (trees evaluate_step ts)) [
      | inr (e, are_err) ↦ refused e ss (rw (is_ok, are_err) at h)
      | inl (xs, are_ok) ↦
          let (w, d, v, c) = tree-Denotes t x is_ok in
          let (ws, e, u, g) = trees-AllDenote ts xs are_ok in
          subst (λ z. AllDenote z (trees pattern_step (with_term t ts)))
            (ok-inj (x ∷ xs) ss (rw (is_ok, are_ok) at h))
            (w ∷ ws, rw (d, e) refl, rw (v, u) refl, rw (c, g) refl)
    ]
  ]

whole-folded :
    (t u : Term) (result : Option Term)
    → tree canonicalize_step t ≡ ok (u, false)
    → result ≡ canonical_fold (try_fold canonicalize_step (suc (2 * nodes t)) t)
    → result ≡ some u
unfolding canonical_fold
whole-folded t u result e is_fold =
    is_fold ∙ ap canonical_fold (folds t) ∙ ap (λ r. canonical_fold (some r)) e

folded_leaf :
    (t u : Term) → Path (Result (Term × Bool) ⊥) (ok (t, false)) (ok (u, false)) → some t ≡ some u
folded_leaf t u e = ground (arith, e)

canonicalize-folded :
    (t u : Term) → tree canonicalize_step t ≡ ok (u, false) → canonicalize t ≡ some u
unfolding canonicalize canonicalize_step canonicalize_parts
canonicalize-folded (Term.variable v) u e = folded_leaf _ u e
canonicalize-folded (Term.symbolic s) u e = folded_leaf _ u e
canonicalize-folded t u e = whole-folded t u _ e refl

evaluated : {A : Type 0} (x y : A) → some x ≡ some y → x ≡ y
evaluated x y e = ground (arith, e)

-- A term that evaluates to a symbol has that symbol as its pattern form.
pub pattern_normalize-evaluate :
    (t : Term) (s : Symbol)
    → evaluate (suc (2 * nodes t)) t ≡ some (ok s)
    → pattern_normalize t ≡ some (ok (Term.symbolic s))
unfolding pattern_normalize
pattern_normalize-evaluate t s h =
    let (w, d, v, c) = tree-Denotes t s (evaluated _ _ (sym (evaluates t) ∙ h)) in
    ap normalized (try_fold-tree pattern_step t (suc (2 * nodes t)) (omega arith) ∙ ap some d)
    ∙ ap canonical_pattern (canonicalize-folded w (Term.symbolic s) c)

-- ===== src/Program/Unify/Apply.antt =====
-- The loop of `resolve` over one term, from what it does with each of its variables.
use themelios.Prelude.{
  ℕ, zero, suc, ◌+◌, ◌-◌, ◌≤◌, ◌≡◌, refl, sym, ap, ◌∙◌, List, [], ◌∷◌, ◌++◌, map, Option, none,
  some, length, arith,
}
use themelios.Program.Term.{
  Variable, Term, Terms, no_terms, with_term, to_vec, TermParts, from_parts,
}
use themelios.Program.Term.Fold.{onto, split_off-onto}
use themelios.Program.Term.Leaves.{TermAll, TermsAll}
use themelios.Program.Term.Canonical.Forms.{from_vec-to_vec}
use themelios.Program.Unify.Replace.{replace, replace_all, AnySymbol, turns, turns_of}
use themelios.Program.Unify.{
  Binding, bound, Substitution, get, Rebuild, Frame, enter, assemble, enter_children, rebuilt,
  resolve_loop,
}

pub enough_fuel : (n fuel : ℕ) → suc n ≤ fuel → fuel ≡ n + suc (fuel - suc n)
enough_fuel n fuel h = omega (arith, h)

pub shift : (n fuel : ℕ) → suc n + fuel ≡ suc (n + fuel)
shift n fuel = omega arith

shift_one : (n fuel : ℕ) → suc (n + 1) + fuel ≡ suc (n + suc fuel)
shift_one n fuel = omega arith

shift_two : (n m fuel : ℕ) → suc (n + (m + 1)) + fuel ≡ suc (n + (m + suc fuel))
shift_two n m fuel = omega arith

pub one_more : (fuel : ℕ) → 1 + fuel ≡ suc fuel
one_more fuel = omega arith

-- The image of a variable after so many rounds of the substitution, and the turns it takes.
abbrev pub image : (Variable → Term) → Variable → Option Binding → Term
image ρ v none = Term.variable v
image ρ v (some (bound b)) = replace ρ b

abbrev pub rounds : Substitution → ℕ → Variable → Term
rounds σ zero v = Term.variable v
rounds σ (suc k) v = image (rounds σ k) v (get σ v)

abbrev pub image_turns : (Variable → ℕ) → Option Binding → ℕ
image_turns χ none = 1
image_turns χ (some (bound b)) = suc (turns χ b)

abbrev pub round_turns : Substitution → ℕ → Variable → ℕ
round_turns σ zero v = 1
round_turns σ (suc k) v = image_turns (round_turns σ k) (get σ v)

module _ (σ : Substitution) where
  -- A node's assembly, its children finished.
  assembled_on :
      (fuel : ℕ) (rebuild : Rebuild) (xs : List Term) (parts : TermParts Term) (work : List Frame)
      (done : List Term)
      → rebuilt rebuild xs ≡ some parts
      → resolve_loop (suc fuel) σ (assemble rebuild (length xs) ∷ work) (onto xs done)
        ≡ resolve_loop fuel σ work (from_parts parts ∷ done)
  unfolding resolve_loop
  assembled_on fuel rebuild xs parts work done e = rw (split_off-onto xs done, e, resolve_loop) refl

  -- The loop finishes the variable, with its image, in the turns given.
  abbrev pub Finishes : (Variable → Term) → (Variable → ℕ) → Variable → Type 0
  Finishes ρ χ v =
      (fuel : ℕ) (work : List Frame) (done : List Term)
      → resolve_loop (χ v + fuel) σ (enter (Term.variable v) ∷ work) done
        ≡ resolve_loop fuel σ work (ρ v ∷ done)

  module _ (ρ : Variable → Term) (χ : Variable → ℕ) where
    abbrev images : Terms → List Term
    images ts = to_vec (replace_all ρ ts)

    length-images : (ts : Terms) → length (images ts) ≡ length (to_vec ts)
    length-images no_terms = refl
    length-images (with_term t ts) = ap suc (length-images ts)

    -- A node with a vector of children.
    children_on :
        (fuel : ℕ) (rebuild : Rebuild) (ts : Terms) (work : List Frame) (done : List Term)
        (make : List Term → TermParts Term) (whole : Term)
        → ((xs : List Term) → rebuilt rebuild xs ≡ some (make xs))
        → from_parts (make (images ts)) ≡ whole
        → ((fuel : ℕ) (work : List Frame) (done : List Term)
            → resolve_loop (turns_of χ ts + fuel) σ (map enter (to_vec ts) ++ work) done
              ≡ resolve_loop fuel σ work (onto (images ts) done))
        → resolve_loop (turns_of χ ts + 1 + fuel) σ (enter_children work rebuild (to_vec ts)) done
          ≡ resolve_loop fuel σ work (whole ∷ done)
    children_on fuel rebuild ts work done make whole made is_whole folds =
        ap (λ k. resolve_loop k σ (enter_children work rebuild (to_vec ts)) done) (omega arith)
        ∙ folds (suc fuel) (assemble rebuild (length (to_vec ts)) ∷ work) done
        ∙ ap (λ n. resolve_loop (suc fuel) σ (assemble rebuild n ∷ work) (onto (images ts) done))
            (sym (length-images ts))
        ∙ assembled_on fuel rebuild (images ts) (make (images ts)) work done (made (images ts))
        ∙ ap (λ z. resolve_loop fuel σ work (z ∷ done)) is_whole

    mutual
      unfolding resolve_loop

      pub finish_term :
          (t : Term) (fuel : ℕ) (work : List Frame) (done : List Term)
          → TermAll (Finishes ρ χ) AnySymbol t
          → resolve_loop (turns χ t + fuel) σ (enter t ∷ work) done
            ≡ resolve_loop fuel σ work (replace ρ t ∷ done)
      finish_term (Term.variable v) fuel work done h = h fuel work done
      finish_term (Term.symbolic s) fuel work done h =
          ap (λ k. resolve_loop k σ (enter (Term.symbolic s) ∷ work) done) (one_more fuel)
      finish_term (Term.function n ts) fuel work done h =
          ap (λ k. resolve_loop k σ (enter (Term.function n ts) ∷ work) done)
            (shift (turns_of χ ts + 1) fuel)
          ∙ children_on fuel (Rebuild.function n) ts work done (TermParts.function n)
              (Term.function n (replace_all ρ ts)) (λ xs. refl)
              (ap (Term.function n) (from_vec-to_vec (replace_all ρ ts)))
              (λ fuel work done. finish_terms ts fuel work done h)
      finish_term (Term.tuple ts) fuel work done h =
          ap (λ k. resolve_loop k σ (enter (Term.tuple ts) ∷ work) done)
            (shift (turns_of χ ts + 1) fuel)
          ∙ children_on fuel Rebuild.tuple ts work done TermParts.tuple
              (Term.tuple (replace_all ρ ts)) (λ xs. refl)
              (ap Term.tuple (from_vec-to_vec (replace_all ρ ts)))
              (λ fuel work done. finish_terms ts fuel work done h)
      finish_term (Term.pool ts) fuel work done h =
          ap (λ k. resolve_loop k σ (enter (Term.pool ts) ∷ work) done)
            (shift (turns_of χ ts + 1) fuel)
          ∙ children_on fuel Rebuild.pool ts work done TermParts.pool (Term.pool (replace_all ρ ts))
              (λ xs. refl) (ap Term.pool (from_vec-to_vec (replace_all ρ ts)))
              (λ fuel work done. finish_terms ts fuel work done h)
      finish_term (Term.external n ts) fuel work done h =
          ap (λ k. resolve_loop k σ (enter (Term.external n ts) ∷ work) done)
            (shift (turns_of χ ts + 1) fuel)
          ∙ children_on fuel (Rebuild.external n) ts work done (TermParts.external n)
              (Term.external n (replace_all ρ ts)) (λ xs. refl)
              (ap (Term.external n) (from_vec-to_vec (replace_all ρ ts)))
              (λ fuel work done. finish_terms ts fuel work done h)
      finish_term (Term.unary_operation op t) fuel work done h =
          ap (λ k. resolve_loop k σ (enter (Term.unary_operation op t) ∷ work) done)
            (shift_one (turns χ t) fuel)
          ∙ finish_term t (suc fuel) (assemble (Rebuild.unary op) 1 ∷ work) done h
          ∙ assembled_on fuel (Rebuild.unary op) (replace ρ t ∷ [])
              (TermParts.unary_operation op (replace ρ t)) work done refl
      finish_term (Term.absolute t) fuel work done h =
          ap (λ k. resolve_loop k σ (enter (Term.absolute t) ∷ work) done)
            (shift_one (turns χ t) fuel)
          ∙ finish_term t (suc fuel) (assemble Rebuild.absolute 1 ∷ work) done h
          ∙ assembled_on fuel Rebuild.absolute (replace ρ t ∷ []) (TermParts.absolute (replace ρ t))
              work done refl
      finish_term (Term.binary_operation op l r) fuel work done h =
          ap (λ k. resolve_loop k σ (enter (Term.binary_operation op l r) ∷ work) done)
            (shift_two (turns χ l) (turns χ r) fuel)
          ∙ finish_term l (turns χ r + suc fuel) (enter r ∷ assemble (Rebuild.binary op) 2 ∷ work)
              done (h.0)
          ∙ finish_term r (suc fuel) (assemble (Rebuild.binary op) 2 ∷ work) (replace ρ l ∷ done)
              (h.1)
          ∙ assembled_on fuel (Rebuild.binary op) (replace ρ l ∷ replace ρ r ∷ [])
              (TermParts.binary_operation op (replace ρ l) (replace ρ r)) work done refl
      finish_term (Term.interval l r) fuel work done h =
          ap (λ k. resolve_loop k σ (enter (Term.interval l r) ∷ work) done)
            (shift_two (turns χ l) (turns χ r) fuel)
          ∙ finish_term l (turns χ r + suc fuel) (enter r ∷ assemble Rebuild.interval 2 ∷ work) done
              (h.0)
          ∙ finish_term r (suc fuel) (assemble Rebuild.interval 2 ∷ work) (replace ρ l ∷ done) (h.1)
          ∙ assembled_on fuel Rebuild.interval (replace ρ l ∷ replace ρ r ∷ [])
              (TermParts.interval (replace ρ l) (replace ρ r)) work done refl

      finish_terms :
          (ts : Terms) (fuel : ℕ) (work : List Frame) (done : List Term)
          → TermsAll (Finishes ρ χ) AnySymbol ts
          → resolve_loop (turns_of χ ts + fuel) σ (map enter (to_vec ts) ++ work) done
            ≡ resolve_loop fuel σ work (onto (images ts) done)
      finish_terms no_terms fuel work done h = ap (λ k. resolve_loop k σ work done) (omega arith)
      finish_terms (with_term t ts) fuel work done h =
          ap (λ k. resolve_loop k σ (enter t ∷ (map enter (to_vec ts) ++ work)) done) (omega arith)
          ∙ finish_term t (turns_of χ ts + fuel) (map enter (to_vec ts) ++ work) done (h.0)
          ∙ finish_terms ts fuel work (replace ρ t ∷ done) (h.1)

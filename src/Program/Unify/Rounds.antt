-- ===== src/Program/Unify/Rounds.antt =====
-- Resolving a term against rounds of the substitution.
use themelios.Prelude.{
  ℕ, zero, suc, ◌+◌, ◌-◌, ◌≤◌, ◌<◌, ◌≡◌, refl, ap, ◌∙◌, List, [], ◌∷◌, Option, none, some, arith,
}
use themelios.Program.Term.Canonical.{canonicalize}
use themelios.Program.Term.{Variable, Term}
use themelios.Program.Term.Leaves.{TermAll}
use themelios.Program.Term.Canonical.Forms.{IsCanonical}
use themelios.Program.Term.Canonical.Whole.{canonicalize-IsCanonical}
use themelios.Program.Unify.Replace.{replace, AnySymbol, TermAll-map, replace-TermAll, turns}
use themelios.Program.Unify.{
  Binding, bound, Substitution, get, Frame, enter, variable_entered, resolve_loop, resolve,
  canonical_of, substitute,
}
use themelios.Program.Unify.Apply.{
  enough_fuel, shift, one_more, image, rounds, image_turns, round_turns, Finishes, finish_term,
}

module _ (σ : Substitution) where
  entered_variable :
      (v : Variable) (o : Option Binding) (fuel : ℕ) (work : List Frame) (done : List Term)
      → get σ v ≡ o
      → resolve_loop (suc fuel) σ (enter (Term.variable v) ∷ work) done
        ≡ resolve_loop fuel σ
            ((variable_entered v o work done).0)
            ((variable_entered v o work done).1)
  unfolding resolve_loop
  entered_variable v o fuel work done e = rw (e, resolve_loop) refl

  image-Finishes :
      (ρ : Variable → Term) (χ : Variable → ℕ) (v : Variable) (o : Option Binding)
      → get σ v ≡ o
      → ((b : Term) → o ≡ some (bound b) → TermAll (Finishes σ ρ χ) AnySymbol b)
      → (fuel : ℕ) (work : List Frame) (done : List Term)
      → resolve_loop (image_turns χ o + fuel) σ (enter (Term.variable v) ∷ work) done
        ≡ resolve_loop fuel σ work (image ρ v o ∷ done)
  image-Finishes ρ χ v none e h fuel work done =
      ap (λ k. resolve_loop k σ (enter (Term.variable v) ∷ work) done) (one_more fuel)
      ∙ entered_variable v none fuel work done e
  image-Finishes ρ χ v (some (bound b)) e h fuel work done =
      ap (λ k. resolve_loop k σ (enter (Term.variable v) ∷ work) done) (shift (turns χ b) fuel)
      ∙ entered_variable v (some (bound b)) (turns χ b + fuel) work done e
      ∙ finish_term σ ρ χ b fuel work done (h b refl)

  -- No binding has a variable of it.
  abbrev pub Unbound : Variable → Type 0
  Unbound v = get σ v ≡ none

  image-Unbound :
      (ρ : Variable → Term) (v : Variable) (o : Option Binding)
      → get σ v ≡ o
      → ((b : Term)
          → o ≡ some (bound b)
          → TermAll (λ w. TermAll Unbound AnySymbol (ρ w)) AnySymbol b)
      → TermAll Unbound AnySymbol (image ρ v o)
  image-Unbound ρ v none e h = e
  image-Unbound ρ v (some (bound b)) e h = replace-TermAll Unbound ρ b (h b refl)

  module _ (rank : Variable → ℕ)
      (lowers : (v : Variable) (b : Term)
        → get σ v ≡ some (bound b)
        → TermAll (λ w. rank w < rank v) AnySymbol b) where
    rounds-Finishes :
        (k : ℕ) (v : Variable) → rank v < k → Finishes σ (rounds σ k) (round_turns σ k) v
    rounds-Finishes zero v low = absurd (omega (arith, low))
    rounds-Finishes (suc k) v low =
        image-Finishes (rounds σ k) (round_turns σ k) v (get σ v) refl (λ b e.
          TermAll-map (λ w. rank w < rank v) (Finishes σ (rounds σ k) (round_turns σ k))
            (λ w lower. rounds-Finishes k w (omega (arith, low, lower))) b (lowers v b e))

    rounds-Unbound : (k : ℕ) (v : Variable) → rank v < k → TermAll Unbound AnySymbol (rounds σ k v)
    rounds-Unbound zero v low = absurd (omega (arith, low))
    rounds-Unbound (suc k) v low = image-Unbound (rounds σ k) v (get σ v) refl (λ b e.
        TermAll-map (λ w. rank w < rank v) (λ w. TermAll Unbound AnySymbol (rounds σ k w))
          (λ w lower. rounds-Unbound k w (omega (arith, low, lower))) b (lowers v b e))

-- Where every binding's variables rank below the variable it binds, and the term's rank below `k`, resolving
-- ends, with the fuel counted: the term it answers has the image of each variable under `k` rounds of the
-- substitution, and no variable that the substitution binds is left in it.
pub resolve-rounds :
    (σ : Substitution) (rank : Variable → ℕ) (k : ℕ) (t : Term) (fuel : ℕ)
    → ((v : Variable) (b : Term)
        → get σ v ≡ some (bound b)
        → TermAll (λ w. rank w < rank v) AnySymbol b)
    → TermAll (λ v. rank v < k) AnySymbol t
    → suc (turns (round_turns σ k) t) ≤ fuel
    → (resolve fuel t σ ≡ some (replace (rounds σ k) t))
      × TermAll (Unbound σ) AnySymbol (replace (rounds σ k) t)
unfolding resolve resolve_loop
resolve-rounds σ rank k t fuel lowers low enough =
    let spare = fuel - suc (turns (round_turns σ k) t) in
    (
      ap (λ n. resolve_loop n σ (enter t ∷ []) [])
            (enough_fuel (turns (round_turns σ k) t) fuel enough)
          ∙ finish_term σ (rounds σ k) (round_turns σ k) t (suc spare) [] [] (
              TermAll-map (λ v. rank v < k) (Finishes σ (rounds σ k) (round_turns σ k))
                (rounds-Finishes σ rank lowers k) t low),
      replace-TermAll (Unbound σ) (rounds σ k) t (
          TermAll-map (λ v. rank v < k) (λ w. TermAll (Unbound σ) AnySymbol (rounds σ k w))
            (rounds-Unbound σ rank lowers k) t low),
    )

-- Under the same conditions the substituted term is there, and canonical.
pub substitute-IsCanonical :
    (σ : Substitution) (rank : Variable → ℕ) (k : ℕ) (t : Term) (fuel : ℕ)
    → ((v : Variable) (b : Term)
        → get σ v ≡ some (bound b)
        → TermAll (λ w. rank w < rank v) AnySymbol b)
    → TermAll (λ v. rank v < k) AnySymbol t
    → suc (turns (round_turns σ k) t) ≤ fuel
    → (u : Term) × (substitute fuel t σ ≡ some u)
      × (canonicalize (replace (rounds σ k) t) ≡ some u)
      × IsCanonical u
unfolding substitute
substitute-IsCanonical σ rank k t fuel lowers low enough =
    let (u, e, c) = canonicalize-IsCanonical (replace (rounds σ k) t) in
    (u, ap canonical_of ((resolve-rounds σ rank k t fuel lowers low enough).0) ∙ e, e, c)

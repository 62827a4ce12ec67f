-- ===== src/Solve/Agent/Engine/Log.antt =====
-- The log of the requests that a backend accepted, and the values that it has for the externals.
use Prim.Native.Nat.Ordering.{lt, eq, gt}
use themelios.Prelude.{
  ◌≡◌, ◌⊎◌, Ordering, arith, refl, sym, ap, subst, ◌∙◌, Bool, true, false, if◌then◌else◌,
  Bool-cases, List, [], ◌∷◌, ◌++◌, Option, none, some, inl, inr,
}
use themelios.Program.Symbol.{Symbol, is_eq}
use themelios.Program.Symbol.Total.{symbol_ord}
use themelios.Solve.Agent.Engine.{TruthValue, assign}

pub data Request (G : Type 0) : Type 0 where
  grounding : G → Request G
  assigning : Symbol → TruthValue → Request G

-- The parts that a log of requests, the latest first, has grounded, in their order.
abbrev pub parts_of : {G : Type 0} → List (Request G) → List G
parts_of [] = []
parts_of (grounding g ∷ log) = parts_of log ++ g ∷ []
parts_of (assigning e v ∷ log) = parts_of log

-- Its assignments, by their externals.
abbrev pub assignments : {G : Type 0} → List (Request G) → List (Symbol × TruthValue)
assignments [] = []
assignments (grounding g ∷ log) = assignments log
assignments (assigning e v ∷ log) = assign e v (assignments log)

-- The value that it has last given an external.
abbrev pub latest : {G : Type 0} → Symbol → List (Request G) → Option TruthValue
latest s [] = none
latest s (grounding g ∷ log) = latest s log
latest s (assigning e v ∷ log) = if is_eq (symbol_ord.cmp s e) then some v else latest s log

-- The value of an external on the entries of a map.
abbrev pub value_of : Symbol → List (Symbol × TruthValue) → Option TruthValue
value_of s [] = none
value_of s ((t, v) ∷ entries) = if is_eq (symbol_ord.cmp s t) then some v else value_of s entries

same_key : (s t : Symbol) → is_eq (symbol_ord.cmp s t) ≡ true → s ≡ t
same_key s t e = symbol_ord.eq_of_cmp s t (ground (arith, e))

twice :
    (t : Bool) (v w : TruthValue) (rest : Option TruthValue)
    → (if t then some v else rest) ≡ (if t then some v else if t then some w else rest)
twice true v w rest = refl
twice false v w rest = refl

Ordering-cases : (o : Ordering) → (o ≡ lt) ⊎ ((o ≡ eq) ⊎ (o ≡ gt))
Ordering-cases lt = inl refl
Ordering-cases eq = inr (inl refl)
Ordering-cases gt = inr (inr refl)

swap_if :
    (s e t : Symbol) (v w : TruthValue) (rest : Option TruthValue)
    → (is_eq (symbol_ord.cmp e t) ≡ true → ⊥)
    → (if is_eq (symbol_ord.cmp s t)
        then some w
        else if is_eq (symbol_ord.cmp s e)
        then some v
        else rest)
      ≡ (if is_eq (symbol_ord.cmp s e)
          then some v
          else if is_eq (symbol_ord.cmp s t)
          then some w
          else rest)
swap_if s e t v w rest apart = elim (Bool-cases (is_eq (symbol_ord.cmp s t))) [
  | inr other ↦ rw other refl
  | inl here ↦ elim (Bool-cases (is_eq (symbol_ord.cmp s e))) [
    | inr other ↦ rw (here, other) refl
    | inl also ↦
        let one : s ≡ e = same_key s e also in
        absurd (apart (subst (λ z. is_eq (symbol_ord.cmp z t) ≡ true) one here))
  ]
]

value_of-assign :
    (s e : Symbol) (v : TruthValue) (entries : List (Symbol × TruthValue))
    → value_of s (assign e v entries)
      ≡ (if is_eq (symbol_ord.cmp s e) then some v else value_of s entries)
unfolding assign
value_of-assign s e v [] = refl
value_of-assign s e v ((t, w) ∷ entries) = elim (Ordering-cases (symbol_ord.cmp e t)) [
  | inl less ↦ rw (less, assign) refl
  | inr (inl same) ↦
      let one : e ≡ t = symbol_ord.eq_of_cmp e t same in
      rw (same, assign)
        (subst
          (λ z. (if is_eq (symbol_ord.cmp s t) then some v else value_of s entries) ≡ (
            if is_eq (symbol_ord.cmp s z)
            then some v
            else if is_eq (symbol_ord.cmp s t)
            then some w
            else value_of s entries))
          (sym one) (twice (is_eq (symbol_ord.cmp s t)) v w (value_of s entries)))
  | inr (inr more) ↦
      rw (more, assign)
        (ap (λ z. if is_eq (symbol_ord.cmp s t) then some w else z) (value_of-assign s e v entries)
          ∙ swap_if s e t v w (value_of s entries) (λ h. absurd (ground (arith, h, more))))
]

pub value_of-latest :
    {G : Type 0} (s : Symbol) (log : List (Request G)) → value_of s (assignments log) ≡ latest s log
value_of-latest s [] = refl
value_of-latest s (grounding g ∷ log) = value_of-latest s log
value_of-latest s (assigning e v ∷ log) =
    value_of-assign s e v (assignments log)
    ∙ ap (λ z. if is_eq (symbol_ord.cmp s e) then some v else z) (value_of-latest s log)

-- ===== src/Solve/Agent/Ledger/Forget.antt =====
-- Forgetting an observation: its handles are retired as a unit.
use themelios.Prelude.{
  ◌≡◌, ◌⊎◌, refl, ap, ◌∙◌, Bool, true, false, ◌&&◌, not, if◌then◌else◌, List, [], ◌∷◌, Option, none,
  some, any, all, arith, Bool-cases, inl, inr,
}
use themelios.Solve.Agent.Ledger.{StatementId, Ledger, is_live, retire_each, refused, done, forget}
use themelios.Solve.Agent.Ledger.Handles.{IsValid, held, same_handle, holds_entry-held, retire_lem}

-- The handle is among those, up to its class.
abbrev pub among : List StatementId → StatementId → Bool
among ids x = any (same_handle x) ids

-- The handles name different statements, as those that `observe` pushed do.
abbrev pub apart : List StatementId → Bool
apart [] = true
apart (id ∷ ids) = not (any (λ x. same_handle x id) ids) && apart ids

module _ {P N : Type 0} where
  still_live :
      (l l' : Ledger P N) (id : StatementId) (ids : List StatementId)
      → ((x : StatementId) → held l' x ≡ (if same_handle x id then none else held l x))
      → any (λ x. same_handle x id) ids ≡ false
      → all (is_live l) ids ≡ true
      → all (is_live l') ids ≡ true
  still_live l l' id [] h d live = refl
  still_live l l' id (x ∷ ids) h d live =
      let rest = still_live l l' id ids h (ground arith) (ground arith) in
      ground (arith, rest, h x, holds_entry-held l x, holds_entry-held l' x)

  abbrev then_retire : List StatementId → Option (Ledger P N) → Option (Ledger P N)
  then_retire ids none = none
  then_retire ids (some l) = retire_each l ids

  retire_each_lem :
      (l : Ledger P N) (ids : List StatementId)
      → IsValid l
      → apart ids ≡ true
      → all (is_live l) ids ≡ true
      → (l' : Ledger P N) × (retire_each l ids ≡ some l')
        × IsValid l'
        × ((x : StatementId) → held l' x ≡ (if among ids x then none else held l x))
  unfolding retire_each
  retire_each_lem l [] v d live = (l, refl, v, λ x. refl)
  retire_each_lem l (id ∷ ids) v d live =
      let (l', e, v', h) = retire_lem l id v (ground arith) in
      let (l'', e', v'', h') =
        retire_each_lem l' ids v' (ground arith)
          (still_live l l' id ids h (ground arith) (ground arith)) in
      (l'', ap (then_retire ids) e ∙ e', v'', λ x. ground (arith, h' x, h x))

  any_dead :
      (l : Ledger P N) (ids : List StatementId)
      → all (is_live l) ids ≡ not (any (λ id. not (is_live l id)) ids)
  any_dead l [] = refl
  any_dead l (id ∷ ids) = ground (arith, any_dead l ids)

  -- On a valid ledger, to forget an observation whose handles name different statements is refused
  -- where one of them is not live; otherwise it does not fail and keeps the ledger valid, its handles
  -- name nothing afterwards, and every other handle names what it named before.
  pub forget_lem :
      (l : Ledger P N) (ids : List StatementId)
      → IsValid l
      → apart ids ≡ true
      → ((all (is_live l) ids ≡ false) × (forget l ids ≡ some refused))
        ⊎ ((l' : Ledger P N) × (all (is_live l) ids ≡ true)
            × (forget l ids ≡ some (done l'))
            × IsValid l'
            × ((x : StatementId) → held l' x ≡ (if among ids x then none else held l x)))
  unfolding forget
  forget_lem l ids v d = elim (Bool-cases (all (is_live l) ids)) [
    | inr dead ↦ inl (dead, ground (arith, any_dead l ids))
    | inl live ↦
        let (l', e, v', h) = retire_each_lem l ids v d live in
        inr (l', live, ground (arith, any_dead l ids, e), v', h)
  ]

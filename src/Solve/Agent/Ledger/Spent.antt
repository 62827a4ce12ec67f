-- ===== src/Solve/Agent/Ledger/Spent.antt =====
-- Spent handles: what a retraction leaves of its handle, whatever the ledger does afterwards.
use themelios.Prelude.{
  ℕ, suc, ◌+◌, ◌<◌, ◌^◌, ◌%◌, ◌≡◌, refl, ap, ap₂, sym, ◌∙◌, Bool, true, false, if◌then◌else◌, List,
  [], ◌∷◌, Option, none, some, ◌==◌, Option-cases, inl, inr, ⊎_elim, ◌⊎◌, Bool-cases, arith, length,
  get_elem?, set,
}
use themelios.Solve.Agent.Ledger.{
  RetractionClass, StatementId, Entry, Slot, Ledger, push, is_live, retire, retract, Retraction,
  refused, done, fill, push_entry, retire_slot, vacated, done_of,
}
use themelios.Solve.Agent.Ledger.Handles.{
  replaced, get_elem?-set, get_elem?-append_lt, live_slot, IsValid, push_lem, retire_lem,
}

-- What a caller does to the ledger through the agent.
pub data Op (N : Type 0) : Type 0 where
  asserts : N → RetractionClass → Op N
  retracts : StatementId → Op N

module _ {P N : Type 0} where
  abbrev pub after_push : Option (Ledger P N × StatementId) → Option (Ledger P N)
  after_push none = none
  after_push (some (l, id)) = some l

  -- A refused retraction leaves the ledger as it stands.
  abbrev pub after_retract : Ledger P N → Option (Retraction (Ledger P N)) → Option (Ledger P N)
  after_retract l none = none
  after_retract l (some refused) = some l
  after_retract l (some (done l')) = some l'

  abbrev pub step : Ledger P N → Op N → Option (Ledger P N)
  step l (asserts node class) = after_push (push l node class)
  step l (retracts id) = after_retract l (retract l id)

  unfoldable pub history : Ledger P N → List (Op N) → Option (Ledger P N)
  history l [] = some l
  history l (op ∷ ops) = elim (step l op) [ none ↦ none | some l' ↦ history l' ops ]

  -- The slot's generation has passed the handle's, and will not wrap within `k` retirements.
  abbrev pub Past : Ledger P N → StatementId → ℕ → Type 0
  Past l id k =
      (s : Slot P N) × (get_elem? l.slots id.slot ≡ some s)
      × (id.generation < s.generation)
      × (s.generation + k < 2 ^ 64)

  abbrev slots_of : Option (Ledger P N) → List (Slot P N)
  slots_of none = []
  slots_of (some l) = l.slots

  -- The slot in `j` after `v` replaced the slot `t` in `i`.
  after_set :
      (slots : List (Slot P N)) (i j : ℕ) (v t s : Slot P N)
      → get_elem? slots i ≡ some t
      → get_elem? slots j ≡ some s
      → (u : Slot P N) × (get_elem? (set slots i v) j ≡ some u) × (((u ≡ v) × (t ≡ s)) ⊎ (u ≡ s))
  after_set slots i j v t s here there = elim (Bool-cases (j == i)) [
    | inl e ↦
        (v, ground (arith, get_elem?-set slots i v j here), inl (refl, ground (arith, here, there)))
    | inr e ↦ (s, ground (arith, get_elem?-set slots i v j here), inr refl)
  ]

  Past-is_live : (l : Ledger P N) (id : StatementId) (k : ℕ) → Past l id k → is_live l id ≡ false
  unfolding is_live
  Past-is_live l id k (s, at, lt, _) = ground arith

  filled-Past :
      (l : Ledger P N) (id : StatementId) (k : ℕ) (e : Entry P N) (class : RetractionClass) (i : ℕ)
      (rest : List ℕ) (l' : Ledger P N)
      → Past l id k
      → after_push (fill l e class i rest (get_elem? l.slots i)) ≡ some l'
      → Past l' id k
  filled-Past l id k e class i rest l' (s, at, lt, le) h =
      elim (Option-cases (get_elem? l.slots i)) [
        | inl gone ↦ absurd (cc (ap (λ o. after_push (fill l e class i rest o)) (sym gone) ∙ h))
        | inr (t, here) ↦
            let new = ap (λ o. after_push (fill l e class i rest o)) (sym here) ∙ h in
            let (u, there, kept) =
              after_set l.slots i id.slot (record t { entry = some e }) t s here at in
            let same : u.generation ≡ s.generation =
              ⊎_elim (λ p. ap (λ z. z.generation) p.0 ∙ ap (λ z. z.generation) p.1)
                (ap (λ z. z.generation)) kept in
            (
              u,
              ap (λ xs. get_elem? xs id.slot) (sym (ap slots_of new)) ∙ there,
              omega (arith, same),
              omega (arith, same),
            )
      ]

  push-Past :
      (l : Ledger P N) (id : StatementId) (k : ℕ) (e : Entry P N) (class : RetractionClass)
      (free : List ℕ) (l' : Ledger P N)
      → Past l id k
      → after_push (push_entry l e class free) ≡ some l'
      → Past l' id k
  push-Past l id k e class [] l' (s, at, lt, le) h = (
    s,
    ap (λ xs. get_elem? xs id.slot) (sym (ap slots_of h))
        ∙ get_elem?-append_lt l.slots _ id.slot at,
    lt,
    le,
  )
  push-Past l id k e class (i ∷ rest) l' p h = filled-Past l id k e class i rest l' p h

  stepped :
      (u t s : Slot P N) (k : ℕ)
      → u ≡ vacated t
      → t ≡ s
      → s.generation + suc k < 2 ^ 64
      → u.generation ≡ s.generation + 1
  stepped u t s k fresh same le =
      ap (λ z. z.generation) fresh ∙ ap (λ z. (z.generation + 1) % 2 ^ 64) same ∙ omega arith

  retire-Past :
      (l : Ledger P N) (id x : StatementId) (k : ℕ) (l' : Ledger P N)
      → Past l id (suc k)
      → retire l x ≡ some l'
      → Past l' id k
  unfolding retire
  retire-Past l id x k l' (s, at, lt, le) h = elim (Option-cases (get_elem? l.slots x.slot)) [
    | inl gone ↦ absurd (cc (ap (retire_slot l x.slot) (sym gone) ∙ h))
    | inr (t, here) ↦
        let new = ap (retire_slot l x.slot) (sym here) ∙ h in
        let (u, there, kept) = after_set l.slots x.slot id.slot (vacated t) t s here at in
        let where_ = ap (λ xs. get_elem? xs id.slot) (sym (ap slots_of new)) ∙ there in
        elim kept [
          | inl (fresh, same) ↦
              let g : u.generation ≡ s.generation + 1 = stepped u t s k fresh same le in
              (u, where_, omega (arith, g), omega (arith, g))
          | inr same ↦
              let g : u.generation ≡ s.generation = ap (λ z. z.generation) same in
              (u, where_, omega (arith, g), omega (arith, g))
        ]
  ]

  abbrev or_self : Ledger P N → Option (Ledger P N) → Ledger P N
  or_self l none = l
  or_self l (some l') = l'

  -- A retraction that is refused leaves the ledger; the others are a retirement.
  decided :
      (l l' : Ledger P N) (live : Bool) (r : Option (Ledger P N))
      → after_retract l (if live then done_of r else some refused) ≡ some l'
      → (r ≡ some l') ⊎ (l ≡ l')
  decided l l' true none h = absurd (cc h)
  decided l l' true (some l'') h = inl h
  decided l l' false r h = inr (ap (or_self l) h)

  step-Past :
      (l : Ledger P N) (id : StatementId) (k : ℕ) (op : Op N) (l' : Ledger P N)
      → Past l id (suc k)
      → step l op ≡ some l'
      → Past l' id k
  unfolding push retract
  step-Past l id k (asserts node class) l' p h =
      let (s, at, lt, le) = push-Past l id (suc k) _ class l.free l' p h in (s, at, lt, omega arith)
  step-Past l id k (retracts x) l' p h = elim (decided l l' (is_live l x) (retire l x) h) [
    | inl r ↦ retire-Past l id x k l' p r
    | inr same ↦
        let (s, at, lt, le) = p in
        (s, ap (λ z. get_elem? z.slots id.slot) (sym same) ∙ at, lt, omega arith)
  ]

  abbrev then_history : List (Op N) → Option (Ledger P N) → Option (Ledger P N)
  then_history ops none = none
  then_history ops (some l) = history l ops

  history-Past :
      (l : Ledger P N) (id : StatementId) (ops : List (Op N)) (l' : Ledger P N)
      → Past l id (length ops)
      → history l ops ≡ some l'
      → is_live l' id ≡ false
  unfolding history
  history-Past l id [] l' p h =
      ap (λ z. is_live z id) (sym (ap (or_self l) h)) ∙ Past-is_live l id 0 p
  history-Past l id (op ∷ ops) l' p h = elim (Option-cases (step l op)) [
    | inl gone ↦ absurd (cc (ap (then_history ops) (sym gone) ∙ h))
    | inr (l'', e) ↦
        history-Past l'' id ops l' (step-Past l id (length ops) op l'' p e)
          (ap (then_history ops) (sym e) ∙ h)
  ]

  gone_for_good :
      (l l' l'' : Ledger P N) (id : StatementId) (ops : List (Op N))
      → is_live l id ≡ true
      → retire l id ≡ some l'
      → id.generation + 1 + length ops < 2 ^ 64
      → history l' ops ≡ some l''
      → is_live l'' id ≡ false
  unfolding retire
  gone_for_good l l' l'' id ops live h n run =
      let (s, e, at, full, same, mine) = live_slot l id live in
      let new = ap (retire_slot l id.slot) (sym at) ∙ h in
      let g : (vacated s).generation ≡ id.generation + 1 =
        ap (λ z. (z + 1) % 2 ^ 64) same ∙ omega arith in
      history-Past l' id ops l''
        (
          vacated s,
          ap (λ xs. get_elem? xs id.slot) (sym (ap slots_of new))
              ∙ replaced l.slots id.slot (vacated s) at,
          omega (arith, g),
          omega (arith, g),
        )
        run

  step-IsValid :
      (l : Ledger P N) (op : Op N)
      → IsValid l
      → (l' : Ledger P N) × (step l op ≡ some l') × IsValid l'
  unfolding retract
  step-IsValid l (asserts node class) v =
      let (l', id, e, v', _) = push_lem l node class v in (l', ap after_push e, v')
  step-IsValid l (retracts x) v = elim (Bool-cases (is_live l x)) [
    | inl live ↦
        let (l', e, v', _) = retire_lem l x v live in
        (l', ap₂ (λ b r. after_retract l (if b then done_of r else some refused)) live e, v')
    | inr dead ↦
        (l, ap (λ b. after_retract l (if b then done_of (retire l x) else some refused)) dead, v)
  ]

  history-IsValid :
      (l : Ledger P N) (ops : List (Op N))
      → IsValid l
      → (l' : Ledger P N) × (history l ops ≡ some l') × IsValid l'
  unfolding history
  history-IsValid l [] v = (l, refl, v)
  history-IsValid l (op ∷ ops) v =
      let (l', e, v') = step-IsValid l op v in
      let (l'', e', v'') = history-IsValid l' ops v' in (l'', ap (then_history ops) e ∙ e', v'')

  -- On a valid ledger a live handle can be retired, every sequence of assertions and retractions
  -- after that goes through, and the handle is not live at its end, as long as the sequence is too
  -- short for the slot's 64-bit generation to come round.
  pub history-retire :
      (l : Ledger P N) (id : StatementId) (ops : List (Op N))
      → IsValid l
      → is_live l id ≡ true
      → id.generation + 1 + length ops < 2 ^ 64
      → (l' : Ledger P N) × (l'' : Ledger P N) × (retire l id ≡ some l')
        × (history l' ops ≡ some l'')
        × (is_live l'' id ≡ false)
  history-retire l id ops v live n =
      let (l', e, v', _) = retire_lem l id v live in
      let (l'', e', _) = history-IsValid l' ops v' in
      (l', l'', e, e', gone_for_good l l' l'' id ops live e n e')

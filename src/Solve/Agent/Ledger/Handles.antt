-- ===== src/Solve/Agent/Ledger/Handles.antt =====
-- What the handles of the knowledge ledger name, before and after each operation.
use themelios.Prelude.{
  ℕ, zero, suc, ◌≡◌, ◌≢◌, refl, ap, ◌∙◌, Bool, true, ◌&&◌, if◌then◌else◌, List, [], ◌∷◌, ◌++◌,
  Option, none, some, ◌==◌, Option-cases, inl, inr, subst, arith, length, get_elem?, set, All,
  get_elem?-set_ne,
}
use themelios.Solve.Agent.Ledger.{
  RetractionClass, StatementId, Entry, Slot, Ledger, push, is_live, retire, fill, push_entry,
  retire_slot, vacated, handle, holds_entry, ledger_of,
}

abbrev pub Distinct : List ℕ → Type 0
Distinct [] = Unit
Distinct (i ∷ is) = All (λ j. i ≢ j) is × Distinct is

eqb_refl : (n : ℕ) → (n == n) ≡ true
eqb_refl n = ground arith

pub get_elem?-append_lt :
    {A : Type 0}
    → (xs ys : List A) (i : ℕ) {x : A} → get_elem? xs i ≡ some x
    → get_elem? (xs ++ ys) i ≡ some x
get_elem?-append_lt [] ys i h = cc
get_elem?-append_lt (x ∷ xs) ys zero h = h
get_elem?-append_lt (x ∷ xs) ys (suc i) h = get_elem?-append_lt xs ys i h

pub get_elem?-snoc :
    {A : Type 0}
    → (xs : List A) (v : A) (j : ℕ)
    → get_elem? (xs ++ v ∷ []) j ≡ (if j == length xs then some v else get_elem? xs j)
get_elem?-snoc [] v zero = refl
get_elem?-snoc [] v (suc j) = ground arith
get_elem?-snoc (x ∷ xs) v zero = ground arith
get_elem?-snoc (x ∷ xs) v (suc j) = ground (arith, get_elem?-snoc xs v j)

get_elem?-length : {A : Type 0} → (xs : List A) → get_elem? xs (length xs) ≡ none
get_elem?-length [] = refl
get_elem?-length (x ∷ xs) = get_elem?-length xs

pub get_elem?-set :
    {A : Type 0}
    → (xs : List A) (i : ℕ) (v : A) (j : ℕ) {x : A} → get_elem? xs i ≡ some x
    → get_elem? (set xs i v) j ≡ (if j == i then some v else get_elem? xs j)
get_elem?-set [] i v j h = cc
get_elem?-set (x ∷ xs) zero v zero h = refl
get_elem?-set (x ∷ xs) zero v (suc j) h = ground arith
get_elem?-set (x ∷ xs) (suc i) v zero h = ground arith
get_elem?-set (x ∷ xs) (suc i) v (suc j) h = ground (arith, get_elem?-set xs i v j h)

-- The two handles name the same slot of the same ledger in the same generation.
abbrev pub same_handle : StatementId → StatementId → Bool
same_handle x id = x.ledger == id.ledger && (x.slot == id.slot && x.generation == id.generation)

pub replaced :
    {A : Type 0}
    → (xs : List A) (i : ℕ) (v : A) {x : A} → get_elem? xs i ≡ some x
    → get_elem? (set xs i v) i ≡ some v
replaced xs i v h = ground (arith, get_elem?-set xs i v i h)

module _ {P N : Type 0} where
  -- The slot is there and empty.
  abbrev pub Vacant : List (Slot P N) → ℕ → Type 0
  Vacant slots i = (g : ℕ) × (get_elem? slots i ≡ some (record { generation = g; entry = none }))

  -- The free slots are there, empty, and free only once.
  pub record IsValid (l : Ledger P N) : Type 0 where
    pub vacant : All (Vacant l.slots) l.free
    pub once : Distinct l.free

  -- The statement that a handle names.
  abbrev pub held_in : StatementId → Option (Slot P N) → Option (Entry P N)
  held_in id none = none
  held_in id (some s) = if s.generation == id.generation then s.entry else none

  unfoldable pub held : Ledger P N → StatementId → Option (Entry P N)
  held l id = if id.ledger == l.brand then held_in id (get_elem? l.slots id.slot) else none

  pub Vacant-set :
      (slots : List (Slot P N)) (i : ℕ) (s : Slot P N) (js : List ℕ)
      → All (λ j. i ≢ j) js
      → All (Vacant slots) js
      → All (Vacant (set slots i s)) js
  Vacant-set slots i s [] d h = tt
  Vacant-set slots i s (j ∷ js) d h =
      ((h.0.0, get_elem?-set_ne slots i j s d.0 ∙ h.0.1), Vacant-set slots i s js d.1 h.1)

  pub Vacant-append :
      (slots more : List (Slot P N)) (js : List ℕ)
      → All (Vacant slots) js
      → All (Vacant (slots ++ more)) js
  Vacant-append slots more [] h = tt
  Vacant-append slots more (j ∷ js) h =
      ((h.0.0, get_elem?-append_lt slots more j h.0.1), Vacant-append slots more js h.1)

  pub holds_entry-held :
      (l : Ledger P N) (id : StatementId) → holds_entry (held l id) ≡ is_live l id
  unfolding held is_live
  holds_entry-held l id = ground arith

  held_fresh :
      (l : Ledger P N) (e : Entry P N) (class : RetractionClass) (x : StatementId)
      → held (record l { slots = l.slots ++ record { generation = 0; entry = some e } ∷ [] }) x
        ≡ (if same_handle x (handle l (length l.slots) 0 class) then some e else held l x)
  unfolding held
  held_fresh l e class x = ground (
    arith,
    get_elem?-snoc l.slots (record { generation = 0; entry = some e }) x.slot,
    get_elem?-length l.slots,
  )

  held_filled :
      (l : Ledger P N) (i g : ℕ) (rest : List ℕ) (e : Entry P N) (class : RetractionClass)
      (x : StatementId)
      → get_elem? l.slots i ≡ some (record { generation = g; entry = none })
      → held
          (record l {
            slots = set l.slots i (record { generation = g; entry = some e });
            free = rest;
          })
          x
        ≡ (if same_handle x (handle l i g class) then some e else held l x)
  unfolding held
  held_filled l i g rest e class x h =
      ground (arith, get_elem?-set l.slots i (record { generation = g; entry = some e }) x.slot h)

  held-vacated :
      (l : Ledger P N) (id : StatementId) (s : Slot P N) (free : List ℕ) (x : StatementId)
      → id.ledger ≡ l.brand
      → get_elem? l.slots id.slot ≡ some s
      → s.generation ≡ id.generation
      → held (record l { slots = set l.slots id.slot (vacated s); free = free }) x
        ≡ (if same_handle x id then none else held l x)
  unfolding held
  held-vacated l id s free x b h g =
      ground (arith, get_elem?-set l.slots id.slot (vacated s) x.slot h)

  ledger_eta :
      (l : Ledger P N)
      → l.free ≡ []
      → (e : Entry P N) (class : RetractionClass) → IsValid l
      → IsValid (record l { slots = l.slots ++ record { generation = 0; entry = some e } ∷ [] })
  ledger_eta l h e class v = record {
    vacant = Vacant-append l.slots _ l.free v.vacant;
    once = v.once;
  }

  pushed :
      (l : Ledger P N) (e : Entry P N) (class : RetractionClass) (free : List ℕ)
      → l.free ≡ free
      → IsValid l
      → (l' : Ledger P N) × (id : StatementId) × (push_entry l e class free ≡ some (l', id))
        × IsValid l'
        × ((x : StatementId) → held l' x ≡ (if same_handle x id then some e else held l x))
  pushed l e class [] h v = (_, _, refl, ledger_eta l h e class v, held_fresh l e class)
  pushed l e class (i ∷ rest) h v =
      let valid : IsValid (record l { free = i ∷ rest }) =
        subst (λ fs. IsValid (record l { free = fs })) h v in
      let (g, at) = valid.vacant.0 in
      (
        record l { slots = set l.slots i (record { generation = g; entry = some e }); free = rest },
        handle l i g class,
        ap (fill l e class i rest) at,
        record {
          vacant = Vacant-set l.slots i _ rest valid.once.0 valid.vacant.1;
          once = valid.once.1;
        },
        λ x. held_filled l i g rest e class x at,
      )

  -- A push on a valid ledger does not fail and keeps it valid; the handle it answers then names the
  -- statement, in the base part, and every other handle names what it named before.
  pub push_lem :
      (l : Ledger P N) (node : N) (class : RetractionClass)
      → IsValid l
      → (l' : Ledger P N) × (id : StatementId) × (push l node class ≡ some (l', id))
        × IsValid l'
        × ((x : StatementId)
            → held l' x ≡ (
                if same_handle x id
                then some (record { part = l.base; node = node })
                else held l x))
  unfolding push
  push_lem l node class v = pushed l _ class l.free refl v

  pub live_slot :
      (l : Ledger P N) (id : StatementId)
      → is_live l id ≡ true
      → (s : Slot P N) × (e : Entry P N) × (get_elem? l.slots id.slot ≡ some s)
        × (s.entry ≡ some e)
        × (s.generation ≡ id.generation)
        × (id.ledger ≡ l.brand)
  unfolding is_live
  live_slot l id h = elim (Option-cases (get_elem? l.slots id.slot)) [
    | inl at ↦ absurd (ground arith)
    | inr (s, at) ↦ elim (Option-cases s.entry) [
      | inl vacant ↦ absurd (ground arith)
      | inr (e, full) ↦ (s, e, at, full, ground arith, ground arith)
    ]
  ]

  not_free :
      (slots : List (Slot P N)) (i : ℕ) (s : Slot P N) (e : Entry P N) (free : List ℕ)
      → get_elem? slots i ≡ some s
      → s.entry ≡ some e
      → All (Vacant slots) free
      → All (λ j. i ≢ j) free
  not_free slots i s e [] at full v = tt
  not_free slots i s e (j ∷ free) at full v =
      (λ same. ground (arith, v.0.1), not_free slots i s e free at full v.1)

  -- A retirement of a live handle does not fail and keeps the ledger valid; afterwards the handle
  -- names nothing, and every other handle names what it named before.
  pub retire_lem :
      (l : Ledger P N) (id : StatementId)
      → IsValid l
      → is_live l id ≡ true
      → (l' : Ledger P N) × (retire l id ≡ some l')
        × IsValid l'
        × ((x : StatementId) → held l' x ≡ (if same_handle x id then none else held l x))
  unfolding retire
  retire_lem l id v live =
      let (s, e, at, full, same, mine) = live_slot l id live in
      let apart = not_free l.slots id.slot s e l.free at full v.vacant in
      let emptied = set l.slots id.slot (vacated s) in
      (
        record l { slots = emptied; free = id.slot ∷ l.free },
        ap (retire_slot l id.slot) at,
        record {
          vacant = (
            (_, replaced l.slots id.slot (vacated s) at),
            Vacant-set l.slots id.slot _ l.free apart v.vacant,
          );
          once = (apart, v.once);
        },
        λ x. held-vacated l id s (id.slot ∷ l.free) x mine at same,
      )

  pub ledger_of-IsValid :
      (brand : ℕ) (base : P) (statements : List (P × N)) → IsValid (ledger_of brand base statements)
  unfolding ledger_of
  ledger_of-IsValid brand base statements = record { vacant = tt; once = tt }

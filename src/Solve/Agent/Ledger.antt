-- ===== src/Solve/Agent/Ledger.antt =====
-- The knowledge ledger (crates/themelios-solve/src/agent.rs): a generational slot map over the
-- statements. Parts and statements are abstract, and so is the program that `rebuild` makes of the
-- kept statements. A vector used as a stack has its end at the list's head.
pub mod Forget
pub mod Handles
pub mod Spent
use themelios.Prelude.{
  ℕ, suc, ◌+◌, ◌^◌, ◌%◌, Bool, true, false, ◌&&◌, if◌then◌else◌, List, [], ◌∷◌, ◌++◌, map, Option,
  none, some, ◌≡◌, ◌==◌, any, not, length, get_elem?, set,
}

pub data RetractionClass : Type 0 where
  toggle rebuild : RetractionClass

pub record StatementId : Type 0 where
  pub ledger : ℕ
  pub slot : ℕ
  pub generation : ℕ
  pub class : RetractionClass

-- `LedgerEntry`.
pub record Entry (P N : Type 0) : Type 0 where
  pub part : P
  pub node : N

pub record Slot (P N : Type 0) : Type 0 where
  pub generation : ℕ
  pub entry : Option (Entry P N)

pub record Ledger (P N : Type 0) : Type 0 where
  pub brand : ℕ
  pub base : P
  pub slots : List (Slot P N)
  pub free : List ℕ

-- What `Agent::retract` and `Agent::forget` do to the ledger: the refusal, or the new ledger.
pub data Retraction (L : Type 0) : Type 0 where
  refused : Retraction L
  done : L → Retraction L

module _ {P N : Type 0} where
  abbrev pub seed : P × N → Slot P N
  seed (part, node) = record { generation = 0; entry = some (record { part = part; node = node }) }

  -- `KnowledgeLedger::of`, over the program's base part and its statements, each with its part.
  unfoldable pub ledger_of : ℕ → P → List (P × N) → Ledger P N
  ledger_of brand base statements = record {
    brand = brand;
    base = base;
    slots = map seed statements;
    free = [];
  }

  abbrev pub keep_entry : Option (Entry P N) → List (P × N) → List (P × N)
  keep_entry none kept = kept
  keep_entry (some e) kept = (e.part, e.node) ∷ kept

  -- What `rebuild` hands to `Program::of_keyed_nodes`.
  unfoldable pub keyed_nodes : List (Slot P N) → List (P × N)
  keyed_nodes [] = []
  keyed_nodes (s ∷ slots) = keep_entry s.entry (keyed_nodes slots)

  abbrev pub handle : Ledger P N → ℕ → ℕ → RetractionClass → StatementId
  handle l slot generation class = record {
    ledger = l.brand;
    slot = slot;
    generation = generation;
    class = class;
  }

  -- A reused slot keeps its generation; `none` is the panic of an index out of bounds.
  abbrev pub fill :
      Ledger P N
      → Entry P N
      → RetractionClass
      → ℕ
      → List ℕ
      → Option (Slot P N)
      → Option (Ledger P N × StatementId)
  fill l e class slot rest none = none
  fill l e class slot rest (some s) = some (
    record l { slots = set l.slots slot (record s { entry = some e }); free = rest },
    handle l slot s.generation class,
  )

  -- By the free list, of which `push` pops one slot where there is one.
  abbrev pub push_entry :
      Ledger P N → Entry P N → RetractionClass → List ℕ → Option (Ledger P N × StatementId)
  push_entry l e class (slot ∷ rest) = fill l e class slot rest (get_elem? l.slots slot)
  push_entry l e class [] = some (
    record l { slots = l.slots ++ record { generation = 0; entry = some e } ∷ [] },
    handle l (length l.slots) 0 class,
  )

  -- `KnowledgeLedger::push`.
  unfoldable pub push : Ledger P N → N → RetractionClass → Option (Ledger P N × StatementId)
  push l node class = push_entry l (record { part = l.base; node = node }) class l.free

  abbrev pub holds_entry : Option (Entry P N) → Bool
  holds_entry none = false
  holds_entry (some _) = true

  abbrev pub names_slot : StatementId → Option (Slot P N) → Bool
  names_slot id none = false
  names_slot id (some s) = holds_entry s.entry && s.generation == id.generation

  -- `KnowledgeLedger::is_live`.
  unfoldable pub is_live : Ledger P N → StatementId → Bool
  is_live l id = id.ledger == l.brand && names_slot id (get_elem? l.slots id.slot)

  -- The slot emptied, its generation stepped on a `u64`.
  abbrev pub vacated : Slot P N → Slot P N
  vacated s = record { generation = (s.generation + 1) % 2 ^ 64; entry = none }

  abbrev pub retire_slot : Ledger P N → ℕ → Option (Slot P N) → Option (Ledger P N)
  retire_slot l slot none = none
  retire_slot l slot (some s) =
      some (record l { slots = set l.slots slot (vacated s); free = slot ∷ l.free })

  -- `KnowledgeLedger::retire`; `none` is the panic of an index out of bounds.
  unfoldable pub retire : Ledger P N → StatementId → Option (Ledger P N)
  retire l id = retire_slot l id.slot (get_elem? l.slots id.slot)

  -- The retirements of `Agent::forget`, in order.
  unfoldable pub retire_each : Ledger P N → List StatementId → Option (Ledger P N)
  retire_each l [] = some l
  retire_each l (id ∷ ids) = elim (retire l id) [ none ↦ none | some l' ↦ retire_each l' ids ]

  abbrev pub done_of : Option (Ledger P N) → Option (Retraction (Ledger P N))
  done_of none = none
  done_of (some l) = some (done l)

  -- `Agent::retract` on the ledger; `refused` is its `NotLive` fault.
  unfoldable pub retract : Ledger P N → StatementId → Option (Retraction (Ledger P N))
  unfolding is_live retire
  retract l id = if is_live l id then done_of (retire l id) else some refused

  -- `Agent::forget` on the ledger; `refused` is its `Spent` fault.
  unfoldable pub forget : Ledger P N → List StatementId → Option (Retraction (Ledger P N))
  unfolding is_live retire_each
  forget l ids =
      if any (λ id. not (is_live l id)) ids then some refused else done_of (retire_each l ids)

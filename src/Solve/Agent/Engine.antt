-- ===== src/Solve/Agent/Engine.antt =====
-- The agent before its backend (crates/themelios-solve/src/agent.rs): the gates of the declaration,
-- and the steps that bring the engine level. The backend is a parameter: a state, what it declares,
-- and its calls, each of which may refuse with a fault (`some`).
pub mod Calls
pub mod Log
pub mod Requests
use Prim.Native.Nat.Ordering.{lt, eq, gt}
use themelios.Prelude.{Bool, true, false, if◌then◌else◌, List, [], ◌∷◌, ◌++◌, Option, none, some}
use themelios.Prelude.Order.{Ord}
use themelios.Program.Symbol.{Symbol}
use themelios.Program.Symbol.Total.{symbol_ord}
use themelios.Solve.Contract.{
  Vocabulary, Fault, Capabilities, Capability, declares, Presupposition, request_fault,
  unsupported_fault,
}
use themelios.Solve.Live.{Scenario}

-- `TruthValue`.
pub data TruthValue : Type 0 where
  holds fails free : TruthValue

-- The part of `trait Backend` that brings it level, over programs `P` and lists of parts `G`.
pub record Backend (V : Vocabulary) (P G : Type 0) : Type 1 where
  pub State : Type 0
  pub capabilities : State → Capabilities
  pub reset : State → State × Option (Fault V)
  pub lower : P → State → State × Option (Fault V)
  pub ground : G → State → State × Option (Fault V)
  pub assign_external : Symbol → TruthValue → State → State × Option (Fault V)

-- The fields of `Agent` that these steps read and write.
pub record Agent (S P G : Type 0) : Type 0 where
  pub backend : S
  pub knowledge : P
  pub grounded : List G
  pub assigned : List (Symbol × TruthValue)

module _ {V : Vocabulary} where
  -- `require`; `none` is the passed gate.
  unfoldable pub require : Capabilities → Capability → Option (Fault V)
  unfolding declares unsupported_fault
  require declaration capability =
      if declares declaration capability then none else some (unsupported_fault capability)

  unfoldable pub realisable : Capabilities → Option (Fault V)
  unfolding declares request_fault
  realisable declaration =
      if declares declaration Capability.time_budget
      then none
      else some (
          request_fault "a time budget this backend neither enforces nor lets the core enforce"
            Presupposition.unrealisable_budget)

  unfoldable pub no_answer_set : Option Scenario → Fault V
  unfolding request_fault
  no_answer_set none =
      request_fault "no consequences: the program has no answer set" Presupposition.no_answer_set
  no_answer_set (some _) =
      request_fault "no consequences: the program has no answer set under the scenario"
        Presupposition.no_answer_set

-- `BTreeMap::insert`, on the map's entries in ascending order.
unfoldable pub assign :
    Symbol → TruthValue → List (Symbol × TruthValue) → List (Symbol × TruthValue)
assign s v [] = (s, v) ∷ []
assign s v ((t, w) ∷ rest) = elim (symbol_ord.cmp s t) [
  | lt ↦ (s, v) ∷ (t, w) ∷ rest
  | eq ↦ (t, v) ∷ rest
  | gt ↦ (t, w) ∷ assign s v rest
]

module _ {V : Vocabulary} {P G : Type 0} (b : Backend V P G) where
  abbrev pub Step : Type 0
  Step = b.State × Option (Fault V)

  -- `?` between two calls.
  abbrev pub then_call : Step → (b.State → Step) → Step
  then_call (s, some f) call = (s, some f)
  then_call (s, none) call = call s

  unfoldable pub ground_each : List G → b.State → Step
  ground_each [] s = (s, none)
  ground_each (parts ∷ rest) s = then_call (b.ground parts s) (ground_each rest)

  unfoldable pub assign_each : List (Symbol × TruthValue) → b.State → Step
  assign_each [] s = (s, none)
  assign_each ((external, value) ∷ rest) s =
      then_call (b.assign_external external value s) (assign_each rest)

  -- `Agent::bring_level`, on the backend's state.
  unfoldable pub bring_level : Agent b.State P G → Step
  unfolding ground_each assign_each declares
  bring_level a =
      if declares (b.capabilities a.backend) Capability.multi_shot
      then then_call
          (then_call (then_call (b.reset a.backend) (b.lower a.knowledge)) (ground_each a.grounded))
          (assign_each a.assigned)
      else b.lower a.knowledge a.backend

  -- `?` after a gate, which leaves the agent as it is.
  abbrev pub past_gate :
      Agent b.State P G
      → Option (Fault V)
      → Agent b.State P G × Option (Fault V)
      → Agent b.State P G × Option (Fault V)
  past_gate a (some f) rest = (a, some f)
  past_gate a none rest = rest

  abbrev pub grounded_after : Agent b.State P G → G → Step → Agent b.State P G × Option (Fault V)
  grounded_after a parts (s, some f) = (record a { backend = s }, some f)
  grounded_after a parts (s, none) =
      (record a { backend = s; grounded = a.grounded ++ parts ∷ [] }, none)

  -- `Agent::ground`.
  unfoldable pub ground_parts : Agent b.State P G → G → Agent b.State P G × Option (Fault V)
  unfolding require bring_level
  ground_parts a parts =
      past_gate a (require (b.capabilities a.backend) Capability.multi_shot)
        (grounded_after a parts (then_call (bring_level a) (b.ground parts)))

  abbrev pub assigned_after :
      Agent b.State P G → Symbol → TruthValue → Step → Agent b.State P G × Option (Fault V)
  assigned_after a external value (s, some f) = (record a { backend = s }, some f)
  assigned_after a external value (s, none) =
      (record a { backend = s; assigned = assign external value a.assigned }, none)

  -- `Agent::assign_external`.
  unfoldable pub assign_truth :
      Agent b.State P G → Symbol → TruthValue → Agent b.State P G × Option (Fault V)
  unfolding require bring_level assign
  assign_truth a external value =
      past_gate a (require (b.capabilities a.backend) Capability.multi_shot) (
        assigned_after a external value
          (then_call (bring_level a) (b.assign_external external value)))

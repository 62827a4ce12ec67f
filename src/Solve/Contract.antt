-- ===== src/Solve/Contract.antt =====
-- The capability declaration and the faults (crates/themelios-solve/src/contract.rs). What a fault
-- only carries, a statement's node, a part's key, a refused parse and an error's cause, is left
-- abstract: it is a `Vocabulary`.
pub mod Doors
use Prim.Native.String.{◌++◌}
use themelios.Prelude.{some, Bool, true, false, Option, none, String}
use themelios.Solve.Conclusion.{Truncation}

pub record Vocabulary : Type 1 where
  pub Node : Type 0
  pub PartKey : Type 0
  pub NotAdmitted : Type 0
  pub Cause : Type 0
  -- `NotAdmitted`'s rendering.
  pub admission_text : NotAdmitted → String

pub data ConsequenceSupport : Type 0 where
  native derived_by_enumeration : ConsequenceSupport

pub record BudgetSupport : Type 0 where
  pub time : Bool

-- `TheorySupport` has no field yet, and is left out.
pub record Capabilities : Type 0 where
  pub enumeration : Bool
  pub optimization : Bool
  pub native_consequences : ConsequenceSupport
  pub externals : Bool
  pub functions : Bool
  pub propagators : Bool
  pub multi_shot : Bool
  pub assumptions : Bool
  pub cancellation : Bool
  pub budgets : BudgetSupport
  pub ground_program : Bool

pub data Capability : Type 0 where
  optimization native_consequences assumptions multi_shot externals : Capability
  cancellation time_budget functions propagators ground_program : Capability

abbrev pub is_native : ConsequenceSupport → Bool
is_native ConsequenceSupport.native = true
is_native ConsequenceSupport.derived_by_enumeration = false

-- `Capabilities::declares`.
unfoldable pub declares : Capabilities → Capability → Bool
declares c Capability.optimization = c.optimization
declares c Capability.native_consequences = is_native c.native_consequences
declares c Capability.assumptions = c.assumptions
declares c Capability.multi_shot = c.multi_shot
declares c Capability.externals = c.externals
declares c Capability.cancellation = c.cancellation
declares c Capability.time_budget = c.budgets.time
declares c Capability.functions = c.functions
declares c Capability.propagators = c.propagators
declares c Capability.ground_program = c.ground_program

-- `Display for Capability`.
abbrev pub capability_text : Capability → String
capability_text Capability.optimization = "optimization"
capability_text Capability.native_consequences = "native consequences"
capability_text Capability.assumptions = "assumptions"
capability_text Capability.multi_shot = "multi-shot solving"
capability_text Capability.externals = "external atoms"
capability_text Capability.cancellation = "cancellation"
capability_text Capability.time_budget = "a time budget"
capability_text Capability.functions = "@-functions"
capability_text Capability.propagators = "propagators"
capability_text Capability.ground_program = "the ground program"

pub data Mode : Type 0 where
  cautious brave : Mode

pub data Locus : Type 0 where
  program request resource engine adapter : Locus

pub data Presupposition : Type 0 where
  unsupported : Capability → Presupposition
  needs_rebuild no_answer_set : Presupposition
  unclosed : Truncation → Presupposition
  taken not_live spent not_an_atom not_external unrealisable_budget : Presupposition

module _ (V : Vocabulary) where
  open V use {Node, PartKey, NotAdmitted, Cause}

  pub data Refusal : Type 0 where
    statement : Node → Refusal
    part : PartKey → Refusal
    parse : NotAdmitted → Refusal
    request : Presupposition → Refusal
    nothing : Refusal

  pub record Fault : Type 0 where
    pub locus : Locus
    pub message : String
    pub refusal : Refusal
    pub backend_bug : Bool
    pub cause : Option Cause

abbrev pub no_message : String
no_message = "a fault was raised without a message"

-- An empty message is replaced.
abbrev pub message_or_default : String → String
message_or_default String.[] = no_message
message_or_default (String.◌∷◌ c s) = String.◌∷◌ c s

module _ {V : Vocabulary} where
  -- `Fault::new`.
  unfoldable pub new_fault : Locus → String → Refusal V → Bool → Fault V
  new_fault locus message refusal bug = record {
    locus = locus;
    message = message_or_default message;
    refusal = refusal;
    backend_bug = bug;
    cause = none;
  }

  unfoldable pub program_fault : String → V.Node → Fault V
  unfolding new_fault
  program_fault message node = new_fault Locus.program message (Refusal.statement node) false

  unfoldable pub program_part_fault : String → V.PartKey → Fault V
  unfolding new_fault
  program_part_fault message key = new_fault Locus.program message (Refusal.part key) false

  unfoldable pub request_fault : String → Presupposition → Fault V
  unfolding new_fault
  request_fault message p = new_fault Locus.request message (Refusal.request p) false

  unfoldable pub unsupported_fault : Capability → Fault V
  unfolding new_fault
  unsupported_fault c =
      new_fault Locus.request ("this backend does not declare " ++ capability_text c)
        (Refusal.request (Presupposition.unsupported c)) false

  unfoldable pub engine_fault : String → Fault V
  unfolding new_fault
  engine_fault message = new_fault Locus.engine message Refusal.nothing false

  unfoldable pub resource_fault : String → Fault V
  unfolding new_fault
  resource_fault message = new_fault Locus.resource message Refusal.nothing false

  unfoldable pub adapter_bug : String → Fault V
  unfolding new_fault
  adapter_bug message = new_fault Locus.adapter message Refusal.nothing true

  -- `From<NotAdmitted> for Fault`.
  unfoldable pub fault_of_parse : V.NotAdmitted → Fault V
  unfolding new_fault
  fault_of_parse refusal =
      new_fault Locus.program (V.admission_text refusal) (Refusal.parse refusal) false

  unfoldable pub caused_by : Fault V → V.Cause → Fault V
  caused_by f cause = record f { cause = some cause }

-- ===== src/Solve/Contract/Doors.antt =====
-- The doors by which a fault is made.
use Prim.Native.String.{◌++◌}
use themelios.Prelude.{Bool, true, false, String, ◌≡◌, ◌≢◌, refl}
use themelios.Solve.Contract.{
  Vocabulary, Capability, capability_text, Locus, Presupposition, Refusal, Fault,
  message_or_default, new_fault, program_fault, program_part_fault, request_fault,
  unsupported_fault, resource_fault, engine_fault, adapter_bug, fault_of_parse, caused_by,
}

abbrev pub at_adapter : Locus → Bool
at_adapter Locus.adapter = true
at_adapter _ = false

says_something : (message : String) → message_or_default message ≢ String.[]
says_something String.[] = λ e. cc
says_something (String.◌∷◌ c s) = λ e. cc

module _ {V : Vocabulary} where
  -- A fault made by the public doors, and given causes.
  pub data Made : Fault V → Type 0 where
    by_program : (message : String) (node : V.Node) → Made (program_fault message node)
    by_part : (message : String) (key : V.PartKey) → Made (program_part_fault message key)
    by_request : (message : String) (p : Presupposition) → Made (request_fault message p)
    by_capability : (c : Capability) → Made (unsupported_fault c)
    by_resource : (message : String) → Made (resource_fault message)
    by_engine : (message : String) → Made (engine_fault message)
    by_adapter : (message : String) → Made (adapter_bug message)
    by_parse : (refusal : V.NotAdmitted) → Made (fault_of_parse refusal)
    with_cause : (f : Fault V) (cause : V.Cause) → Made f → Made (caused_by f cause)

  -- What is refused goes with the locus.
  abbrev pub keyed : Refusal V → Locus → Bool
  keyed (Refusal.statement _) Locus.program = true
  keyed (Refusal.part _) Locus.program = true
  keyed (Refusal.parse _) Locus.program = true
  keyed (Refusal.request _) Locus.request = true
  keyed Refusal.nothing Locus.resource = true
  keyed Refusal.nothing Locus.engine = true
  keyed Refusal.nothing Locus.adapter = true
  keyed _ _ = false

  pub record IsSound (f : Fault V) : Type 0 where
    pub says : f.message ≢ String.[]
    pub located : keyed f.refusal f.locus ≡ true
    pub blamed : f.backend_bug ≡ at_adapter f.locus

  new_fault-IsSound :
      (locus : Locus) (message : String) (refusal : Refusal V) (bug : Bool)
      → keyed refusal locus ≡ true
      → bug ≡ at_adapter locus
      → IsSound (new_fault locus message refusal bug)
  unfolding new_fault
  new_fault-IsSound locus message refusal bug k b = record {
    says = says_something message;
    located = k;
    blamed = b;
  }

  -- However a fault is made and whatever causes it is given, its message is not empty, what it
  -- refused goes with its locus, and it is a backend's bug exactly where its locus is the adapter.
  pub Made-IsSound : (f : Fault V) → Made f → IsSound f
  unfolding program_fault program_part_fault request_fault unsupported_fault resource_fault
      engine_fault adapter_bug fault_of_parse caused_by
  Made-IsSound _ (by_program message node) =
      new_fault-IsSound Locus.program message (Refusal.statement node) false refl refl
  Made-IsSound _ (by_part message key) =
      new_fault-IsSound Locus.program message (Refusal.part key) false refl refl
  Made-IsSound _ (by_request message p) =
      new_fault-IsSound Locus.request message (Refusal.request p) false refl refl
  Made-IsSound _ (by_capability c) =
      new_fault-IsSound Locus.request ("this backend does not declare " ++ capability_text c)
        (Refusal.request (Presupposition.unsupported c)) false refl refl
  Made-IsSound _ (by_resource message) =
      new_fault-IsSound Locus.resource message Refusal.nothing false refl refl
  Made-IsSound _ (by_engine message) =
      new_fault-IsSound Locus.engine message Refusal.nothing false refl refl
  Made-IsSound _ (by_adapter message) =
      new_fault-IsSound Locus.adapter message Refusal.nothing true refl refl
  Made-IsSound _ (by_parse refusal) =
      new_fault-IsSound Locus.program (V.admission_text refusal) (Refusal.parse refusal) false refl
        refl
  Made-IsSound _ (with_cause f cause made) =
      let sound = Made-IsSound f made in
      record { says = sound.says; located = sound.located; blamed = sound.blamed }

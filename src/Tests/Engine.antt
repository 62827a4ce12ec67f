-- ===== src/Tests/Engine.antt =====
-- The agent before a backend that counts its calls and refuses the fourth.
use themelios.Prelude.{
  ℕ, List, suc, true, false, [], ◌∷◌, Option, none, some, ◌≡◌, if◌then◌else◌, ltb,
}
use themelios.Solve.Contract.{Capabilities, ConsequenceSupport, Fault}
use themelios.Solve.Agent.Engine.{Backend, TruthValue}
use themelios.Solve.Agent.Engine.Log.{Request, grounding, assigning, value_of, latest}
use themelios.Solve.Agent.Engine.Requests.{requests, responses, agent_of, requests-responses}
use themelios.Program.Symbol.{Symbol}
use themelios.Prelude.Int.{pos}
use themelios.Tests.Data.{plain, crash}

abbrev able : Capabilities
able = record {
  enumeration = true;
  optimization = false;
  native_consequences = ConsequenceSupport.derived_by_enumeration;
  externals = true;
  functions = false;
  propagators = false;
  multi_shot = true;
  assumptions = false;
  cancellation = false;
  budgets = record { time = false };
  ground_program = false;
}

abbrev count : ℕ → ℕ × Option (Fault plain)
count n = (suc n, if ltb n 3 then none else some crash)

abbrev counting : Backend plain ℕ ℕ
counting = record {
  State = ℕ;
  capabilities = λ _. able;
  reset = count;
  lower = λ _. count;
  ground = λ _. count;
  assign_external = λ _ _. count;
}

-- A part and an assignment, of an agent that has grounded one part.
abbrev asked : List (Request ℕ)
asked = grounding 2 ∷ assigning (Symbol.number (pos 1)) TruthValue.holds ∷ []

requests-responses_example :
    (requests counting (agent_of counting 5 (0, grounding 1 ∷ [])) asked ≡ (
      agent_of counting 5 ((responses counting 5 (0, grounding 1 ∷ []) asked).0),
      (responses counting 5 (0, grounding 1 ∷ []) asked).1,
    ))
    × ((external : Symbol)
        → value_of external
            ((requests counting (agent_of counting 5 (0, grounding 1 ∷ [])) asked).0.assigned)
          ≡ latest external ((responses counting 5 (0, grounding 1 ∷ []) asked).0.1))
requests-responses_example = requests-responses counting 5 (0, grounding 1 ∷ []) asked

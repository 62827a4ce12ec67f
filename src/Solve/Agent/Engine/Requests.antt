-- ===== src/Solve/Agent/Engine/Requests.antt =====
-- The requests to ground parts and to assign externals, against the log of those accepted.
use themelios.Prelude.{
  ◌≡◌, refl, ap, ◌∙◌, Bool, true, false, if◌then◌else◌, List, [], ◌∷◌, ◌++◌, map, Option, none,
  some,
}
use themelios.Program.Symbol.{Symbol}
use themelios.Program.Symbol.Total.{symbol_ord}
use themelios.Solve.Contract.{Vocabulary, Fault, Capability, declares, unsupported_fault}
use themelios.Solve.Agent.Engine.{
  TruthValue, Backend, Agent, Step, ground_parts, assign_truth, grounded_after, assigned_after,
}
use themelios.Solve.Agent.Engine.Calls.{
  Call, resets, lowers, grounds, assigns, calls, ground_parts-eq-calls, assign_truth-eq-calls,
}
use themelios.Solve.Agent.Engine.Log.{
  Request, grounding, assigning, parts_of, assignments, latest, value_of, value_of-latest,
}

module _ {V : Vocabulary} {P G : Type 0} (b : Backend V P G) where
  abbrev pub request_call : Request G → Call P G
  request_call (grounding g) = grounds g
  request_call (assigning e v) = assigns e v

  -- `Agent::ground` and `Agent::assign_external`, one after the other, with their answers.
  abbrev pub request : Agent b.State P G → Request G → Agent b.State P G × Option (Fault V)
  request a (grounding g) = ground_parts b a g
  request a (assigning e v) = assign_truth b a e v

  unfoldable pub requests :
      Agent b.State P G → List (Request G) → Agent b.State P G × List (Option (Fault V))
  requests a [] = (a, [])
  requests a (r ∷ rs) =
      let (a', answer) = request a r in
      let (a'', answers) = requests a' rs in (a'', answer ∷ answers)

  -- What the backend is put for a request, by the program and the log of the accepted ones.
  abbrev pub replayed_log : P → List (Request G) → Request G → List (Call P G)
  replayed_log program log r =
      (resets ∷ lowers program ∷ map grounds (parts_of log)
        ++ map (λ e. assigns e.0 e.1) (assignments log))
      ++ request_call r ∷ []

  abbrev accepted : List (Request G) → Request G → Option (Fault V) → List (Request G)
  accepted log r none = r ∷ log
  accepted log r (some f) = log

  abbrev pub Log : Type 0
  Log = b.State × List (Request G)

  abbrev logged : List (Request G) → Request G → Step b → Log × Option (Fault V)
  logged log r (s, answer) = ((s, accepted log r answer), answer)

  abbrev pub respond : P → Log → Request G → Log × Option (Fault V)
  respond program (s, log) r =
      if declares (b.capabilities s) Capability.multi_shot
      then logged log r (calls b (replayed_log program log r) s)
      else ((s, log), some (unsupported_fault Capability.multi_shot))

  -- The requests answered from the log alone.
  unfoldable pub responses : P → Log → List (Request G) → Log × List (Option (Fault V))
  responses program l [] = (l, [])
  responses program l (r ∷ rs) =
      let (l', answer) = respond program l r in
      let (l'', answers) = responses program l' rs in (l'', answer ∷ answers)

  -- The agent of a log.
  abbrev pub agent_of : P → Log → Agent b.State P G
  agent_of program (s, log) = record {
    backend = s;
    knowledge = program;
    grounded = parts_of log;
    assigned = assignments log;
  }

  unfoldable raised : P → Log × Option (Fault V) → Agent b.State P G × Option (Fault V)
  raised program (l, answer) = (agent_of program l, answer)

  grounded_after-logged :
      (program : P) (s : b.State) (log : List (Request G)) (g : G) (step : Step b)
      → grounded_after b (agent_of program (s, log)) g step
        ≡ raised program (logged log (grounding g) step)
  unfolding raised
  grounded_after-logged program s log g (s', none) = refl
  grounded_after-logged program s log g (s', some f) = refl

  assigned_after-logged :
      (program : P) (s : b.State) (log : List (Request G)) (e : Symbol) (v : TruthValue)
      (step : Step b)
      → assigned_after b (agent_of program (s, log)) e v step
        ≡ raised program (logged log (assigning e v) step)
  unfolding raised
  assigned_after-logged program s log e v (s', none) = refl
  assigned_after-logged program s log e v (s', some f) = refl

  raised_if :
      (program : P) (t : Bool) (x y : Log × Option (Fault V))
      → (if t then raised program x else raised program y) ≡ raised program (if t then x else y)
  raised_if program true x y = refl
  raised_if program false x y = refl

  request-respond :
      (program : P) (l : Log) (r : Request G)
      → request (agent_of program l) r ≡ raised program (respond program l r)
  unfolding raised
  request-respond program (s, log) (grounding g) =
      ground_parts-eq-calls b (agent_of program (s, log)) g
      ∙ ap
          (λ z.
            if declares (b.capabilities s) Capability.multi_shot
            then z
            else (agent_of program (s, log), some (unsupported_fault Capability.multi_shot)))
          (grounded_after-logged program s log g
            (calls b (replayed_log program log (grounding g)) s))
      ∙ raised_if program (declares (b.capabilities s) Capability.multi_shot)
          (logged log (grounding g) (calls b (replayed_log program log (grounding g)) s))
          ((s, log), some (unsupported_fault Capability.multi_shot))
  request-respond program (s, log) (assigning e v) =
      assign_truth-eq-calls b (agent_of program (s, log)) e v
      ∙ ap
          (λ z.
            if declares (b.capabilities s) Capability.multi_shot
            then z
            else (agent_of program (s, log), some (unsupported_fault Capability.multi_shot)))
          (assigned_after-logged program s log e v
            (calls b (replayed_log program log (assigning e v)) s))
      ∙ raised_if program (declares (b.capabilities s) Capability.multi_shot)
          (logged log (assigning e v) (calls b (replayed_log program log (assigning e v)) s))
          ((s, log), some (unsupported_fault Capability.multi_shot))

  retold :
      (program : P) (l : Log) (rs : List (Request G))
      → requests (agent_of program l) rs
        ≡ (agent_of program ((responses program l rs).0), (responses program l rs).1)
  unfolding requests responses raised
  retold program l [] = refl
  retold program l (r ∷ rs) =
      ap (λ z. ((requests (z.0) rs).0, z.1 ∷ (requests (z.0) rs).1)) (request-respond program l r)
      ∙ ap (λ z. (z.0, (respond program l r).1 ∷ z.1)) (retold program ((respond program l r).0) rs)

  -- An agent that holds a program, the grounded parts and the assigned externals of a log answers any
  -- further requests to ground and to assign as the log alone does, and holds those of the log that they
  -- leave. A request is refused, the backend untouched, where the backend declares no multi-shot solving;
  -- otherwise the backend is put a reset, the program, the log's parts in their order, its assignments and
  -- the request, up to the first call it refuses, and the log takes the request where none was refused. An
  -- external's value is the latest that the log has for it.
  pub requests-responses :
      (program : P) (l : Log) (rs : List (Request G))
      → (requests (agent_of program l) rs
          ≡ (agent_of program ((responses program l rs).0), (responses program l rs).1))
        × ((external : Symbol)
            → value_of external ((requests (agent_of program l) rs).0.assigned)
              ≡ latest external ((responses program l rs).0.1))
  requests-responses program l rs = (
    retold program l rs,
    λ external.
        ap (λ z. value_of external (z.0.assigned)) (retold program l rs)
        ∙ value_of-latest external ((responses program l rs).0.1),
  )

-- ===== src/Solve/Agent/Questions/Runs.antt =====
-- The run of a question: the backend's run, its conclusion attributed.
use themelios.Prelude.{
  ℕ, ◌<◌, ◌≡◌, refl, ap, ◌∙◌, Bool, true, false, List, [], ◌∷◌, Option, none, some, length,
}
use themelios.Solve.Conclusion.{Conclusion, exhausted, target, budget, interrupted, Truncation}
use themelios.Solve.Contract.{Vocabulary}
use themelios.Solve.Model.{Model, ShowRule}
use themelios.Solve.Live.{
  Result, err, NotExhausted, Scenario, Run, LiveRun, running, drain_complete,
}
use themelios.Solve.Live.Drain.{Yields, shown_as}
use themelios.Solve.Live.Gate.{gate, drain_complete-running}
use themelios.Solve.Agent.Questions.{
  Questions, is_pulled, attribute, Attributed, attributed_over, after_item, at_end, attributed_run,
  attributed,
}

module _ {V : Vocabulary} (run : Run V) where
  abbrev moved : Attributed run.State → run.State → Attributed run.State
  moved a s = record a { inner = s }

  Yields-attributed :
      (a : Attributed run.State) (s e : run.State) (ms : List Model)
      → Yields run s ms e
      → Yields (attributed_run run) (moved a s) ms (at_end run (moved a e))
  Yields-attributed a s e [] y = ap (after_item run (moved a s)) y
  Yields-attributed a s e (m ∷ ms) (s', step, y) =
      (moved a s', ap (after_item run (moved a s)) step, Yields-attributed a s' e ms y)

  -- What a request for all models is answered, where a pulled question's stop at its budget is its
  -- interruption.
  abbrev pub attributed_gate :
      Bool → Option Conclusion → List Model → Result (List Model) (NotExhausted V)
  attributed_gate true (some budget) ms = err (NotExhausted.unclosed Truncation.interrupted)
  attributed_gate _ c ms = gate run c ms

  gate-attribute :
      (pulled : Bool) (c : Option Conclusion) (ms : List Model)
      → gate run (attribute pulled c) ms ≡ attributed_gate pulled c ms
  unfolding gate attributed
  gate-attribute true none ms = refl
  gate-attribute true (some exhausted) ms = refl
  gate-attribute true (some target) ms = refl
  gate-attribute true (some budget) ms = refl
  gate-attribute true (some interrupted) ms = refl
  gate-attribute false none ms = refl
  gate-attribute false (some exhausted) ms = refl
  gate-attribute false (some target) ms = refl
  gate-attribute false (some budget) ms = refl
  gate-attribute false (some interrupted) ms = refl

  -- A fresh handle over an agent's question, whose record stands as `q` while its models are drawn
  -- and whose run ends without a fault, with more fuel than there are models, answers a request for all models as the backend's run does, except that a question pulled and
  -- stopped at its budget is refused as interrupted.
  pub drain_complete-attributed :
      (q : Questions) (g : ℕ) (s e : run.State) (ms : List Model) (scenario : Scenario)
      (show : ShowRule) (fuel : ℕ)
      → Yields run s ms e
      → length ms < fuel
      → (l' : LiveRun V (Attributed run.State)) × (drain_complete
            (attributed_run run)
            fuel
            (running (attributed_run run) (attributed_over run q s g) scenario show)
          ≡ some (l', attributed_gate (is_pulled q g) (run.conclusion e) (shown_as run show ms)))
  unfolding attributed_over at_end gate
  drain_complete-attributed q g s e ms scenario show fuel y n =
      let a = attributed_over run q s g in
      let (l', h) =
        drain_complete-running (attributed_run run) a (at_end run (moved a e)) ms scenario show fuel
          (Yields-attributed a s e ms y) n in
      (
        l',
        h
            ∙ ap (λ r. some (l', r))
                (gate-attribute (is_pulled q g) (run.conclusion e) (shown_as run show ms)),
      )

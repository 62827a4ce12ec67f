-- ===== src/Solve/Live/Parked.antt =====
-- A handle that was classified before it is drained: the model that the classification parked is
-- drained first.
use themelios.Prelude.{
  ℕ, zero, suc, ◌<◌, ◌≡◌, refl, ap, ◌∙◌, List, [], ◌∷◌, none, some, arith, length,
}
use themelios.Solve.Model.{Model, ShowRule, displayed}
use themelios.Solve.Contract.{Vocabulary}
use themelios.Solve.Live.{
  ok, Scenario, Run, DrainState, LiveRun, running, next, peek, park, classify, drain_item,
  drain_loop, drain_complete,
}
use themelios.Solve.Live.Drain.{Yields, shown_as, end_of, pull_ok, drain_loop_lem, advanced}
use themelios.Solve.Live.Gate.{gate, snoc, fold-snoc, collect, fresh_loop}

module _ {V : Vocabulary} (run : Run V) where
  -- The handle with its first model drawn and parked.
  abbrev parked : LiveRun V run.State → run.State → Model → LiveRun V run.State
  parked l s' m = record (advanced run l s') { lookahead = some (ok (displayed m l.show)) }

  classify-parked :
      (s s' : run.State) (m : Model) (scenario : Scenario) (show : ShowRule)
      → run.next_model s ≡ (s', some (ok m))
      → (classify run (running run s scenario show)).0 ≡ parked (running run s scenario show) s' m
  unfolding classify running peek
  classify-parked s s' m scenario show step =
      ap (park run) (pull_ok run (running run s scenario show) s' m step)

  drain_parked :
      (fuel : ℕ) (s s' e : run.State) (m : Model) (ms : List Model) (scenario : Scenario)
      (show : ShowRule)
      → Yields run s' ms e
      → length (m ∷ ms) < fuel
      → (l' : LiveRun V run.State) × (drain_loop run
            (snoc run)
            fuel
            (parked (running run s scenario show) s' m)
            []
          ≡ some (l', shown_as run show (m ∷ ms), end_of run (run.conclusion e)))
  unfolding drain_loop drain_item next running
  drain_parked zero s s' e m ms scenario show y n = absurd (omega arith)
  drain_parked (suc fuel) s s' e m ms scenario show y n =
      let l = advanced run (running run s scenario show) s' in
      let (l', loop) =
        drain_loop_lem run (snoc run) fuel l (displayed m show ∷ []) ms e refl refl y
          (omega arith) in
      (
        l',
        loop
            ∙ ap (λ all. some (l', all, end_of run (run.conclusion e)))
                (fold-snoc run (displayed m show ∷ []) (shown_as run show ms)),
      )

  fresh_faulted :
      (s s' : run.State) (m : Model) (scenario : Scenario) (show : ShowRule)
      → (parked (running run s scenario show) s' m).faulted ≡ none
  unfolding running
  fresh_faulted s s' m scenario show = refl

  fresh_drain :
      (s s' : run.State) (m : Model) (scenario : Scenario) (show : ShowRule)
      → (parked (running run s scenario show) s' m).drain ≡ DrainState.fresh
  unfolding running
  fresh_drain s s' m scenario show = refl

  -- A handle that was asked whether its program has an answer set, and whose run yields a model and
  -- ends without a fault, with more fuel than there are models, answers a request for all models as a fresh handle does: the model that was seen is not lost.
  pub drain_complete-classify :
      (s e : run.State) (m : Model) (ms : List Model) (scenario : Scenario) (show : ShowRule)
      (fuel : ℕ)
      → Yields run s (m ∷ ms) e
      → length (m ∷ ms) < fuel
      → (l' : LiveRun V run.State) × (drain_complete run fuel
            (classify run (running run s scenario show)).0
          ≡ some (l', gate run (run.conclusion e) (shown_as run show (m ∷ ms))))
  drain_complete-classify s e m ms scenario show fuel (s', step, y) n =
      let l = parked (running run s scenario show) s' m in
      let (l', loop) = drain_parked fuel s s' e m ms scenario show y n in
      (
        l',
        ap (drain_complete run fuel) (classify-parked s s' m scenario show step)
            ∙ collect run fuel l l' (shown_as run show (m ∷ ms)) (run.conclusion e) (
                fresh_loop run fuel l [] (fresh_faulted s s' m scenario show)
                  (fresh_drain s s' m scenario show)
                ∙ loop),
      )

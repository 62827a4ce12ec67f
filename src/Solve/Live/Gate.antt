-- ===== src/Solve/Live/Gate.antt =====
-- The complete collection and the determination of one search, by what its run yields.
use themelios.Prelude.{
  ℕ, ◌<◌, true, false, List, [], ◌∷◌, ◌++◌, Option, none, some, ◌≡◌, refl, sym, ap, ◌∙◌, arith,
  length, append_assoc, append-nil,
}
use themelios.Solve.Conclusion.{Conclusion, Truncation, exhausted, target, budget, interrupted}
use themelios.Solve.Contract.{Vocabulary, Fault}
use themelios.Solve.Model.{Model, ShowRule, displayed}
use themelios.Solve.Live.{
  Result, ok, err, Scenario, Run, DrainState, Class, NotExhausted, LiveRun, unconcluded, running,
  park, peek, conclusion, class_of, class_seen, classify, drain_each, drain_loop, drain_complete,
}
use themelios.Solve.Live.Drain.{
  Yields, Fails, end_of, shown_as, fold, finished, pull_ok, pull_end, pull_err, breach,
  drain_loop_lem, drain_loop_fault,
}

module _ {V : Vocabulary} (run : Run V) where
  -- What the models of a search and the conclusion at its end make of a request for all of them.
  unfoldable pub gate : Option Conclusion → List Model → Result (List Model) (NotExhausted V)
  gate (some exhausted) ms = ok ms
  gate (some target) ms = err (NotExhausted.unclosed Truncation.target)
  gate (some budget) ms = err (NotExhausted.unclosed Truncation.budget)
  gate (some interrupted) ms = err (NotExhausted.unclosed Truncation.interrupted)
  gate none ms = err (NotExhausted.faulted unconcluded)

  -- What they make of the question whether the program has an answer set.
  unfoldable pub decide : Option Conclusion → List Model → Class V
  decide c (m ∷ ms) = Class.consistent
  decide (some exhausted) [] = Class.inconsistent
  decide (some target) [] = Class.inconclusive Truncation.target
  decide (some budget) [] = Class.inconclusive Truncation.budget
  decide (some interrupted) [] = Class.inconclusive Truncation.interrupted
  decide none [] = Class.faulted unconcluded

  abbrev pub snoc : List Model → Model → List Model
  snoc all m = all ++ m ∷ []

  pub fold-snoc : (all ms : List Model) → fold run snoc all ms ≡ all ++ ms
  fold-snoc all [] = sym (append-nil all)
  fold-snoc all (m ∷ ms) = fold-snoc (snoc all m) ms ∙ append_assoc all (m ∷ []) ms

  pub collect :
      (fuel : ℕ) (l l' : LiveRun V run.State) (ms : List Model) (c : Option Conclusion)
      → drain_each run snoc fuel l [] ≡ some (l', ms, end_of run c)
      → drain_complete run fuel l ≡ some (l', gate c ms)
  unfolding drain_complete gate end_of
  collect fuel l l' ms c h = ground arith

  collect_fault :
      (fuel : ℕ) (l l' : LiveRun V run.State) (ms : List Model) (f : Fault V)
      → drain_each run snoc fuel l [] ≡ some (l', ms, err (NotExhausted.faulted f))
      → drain_complete run fuel l ≡ some (l', err (NotExhausted.faulted f))
  unfolding drain_complete
  collect_fault fuel l l' ms f h = ground arith

  pub fresh_loop :
      (fuel : ℕ) (l : LiveRun V run.State) (acc : List Model)
      → l.faulted ≡ none
      → l.drain ≡ DrainState.fresh
      → drain_each run snoc fuel l acc ≡ drain_loop run snoc fuel l acc
  unfolding drain_each
  fresh_loop fuel l acc u d = ground arith

  -- A fresh handle over a run that ends without a fault, with more fuel than there are models,
  -- answers a request for all models with the models of the run, displayed under the show rule and in
  -- their order, exactly where the run's conclusion is that the space was closed;
  -- otherwise it refuses, naming the truncation, or the breach of a run that does not conclude.
  pub drain_complete-running :
      (s e : run.State) (ms : List Model) (scenario : Scenario) (show : ShowRule) (fuel : ℕ)
      → Yields run s ms e
      → length ms < fuel
      → (l' : LiveRun V run.State) × (drain_complete run fuel (running run s scenario show)
          ≡ some (l', gate (run.conclusion e) (shown_as run show ms)))
  unfolding running
  drain_complete-running s e ms scenario show fuel y n =
      let l = running run s scenario show in
      let (l', loop) = drain_loop_lem run snoc fuel l [] ms e refl refl y n in
      let whole = fold-snoc [] (shown_as run show ms) in
      (
        l',
        collect fuel l l' (shown_as run show ms) (run.conclusion e) (
            fresh_loop fuel l [] refl refl
            ∙ loop
            ∙ ap (λ all. some (l', all, end_of run (run.conclusion e))) whole),
      )

  refuses :
      (fuel : ℕ) (l : LiveRun V run.State) (f : Fault V)
      → l.faulted ≡ some f
      → drain_complete run fuel l ≡ some (l, err (NotExhausted.faulted f))
  unfolding drain_complete drain_each
  refuses fuel l f h = ground arith

  no_conclusion :
      (l : LiveRun V run.State) (f : Fault V) → l.faulted ≡ some f → conclusion run l ≡ none
  unfolding conclusion
  no_conclusion l f h = ground arith

  -- A search whose run faults refuses the request with that fault, keeps it, and from then on
  -- reports no conclusion.
  pub drain_complete_fault :
      (s : run.State) (ms : List Model) (f : Fault V) (scenario : Scenario) (show : ShowRule)
      (fuel : ℕ)
      → Fails run s ms f
      → length ms < fuel
      → (l' : LiveRun V run.State) × (drain_complete run fuel (running run s scenario show)
          ≡ some (l', err (NotExhausted.faulted f)))
        × (drain_complete run fuel l' ≡ some (l', err (NotExhausted.faulted f)))
        × (conclusion run l' ≡ none)
  unfolding running
  drain_complete_fault s ms f scenario show fuel y n =
      let l = running run s scenario show in
      let (l', loop, kept) = drain_loop_fault run snoc fuel l [] ms f refl refl y n in
      (
        l',
        collect_fault fuel l l' _ f (fresh_loop fuel l [] refl refl ∙ loop),
        refuses fuel l' f kept,
        no_conclusion l' f kept,
      )

  ended_class :
      (l : LiveRun V run.State) (e : run.State)
      → l.witnessed ≡ false
      → class_seen run (finished run l e) ≡ decide (run.conclusion e) []
  unfolding class_seen class_of conclusion decide
  ended_class l e h = ground arith

  -- How a search ends after the models it yields: by its end, with the conclusion read there, or by a
  -- fault.
  abbrev pub Ends : run.State → List Model → Result (Option Conclusion) (Fault V) → Type 0
  Ends s ms (ok c) = (e : run.State) × Yields run s ms e × (run.conclusion e ≡ c)
  Ends s ms (err f) = Fails run s ms f

  unfoldable pub determination : Result (Option Conclusion) (Fault V) → List Model → Class V
  determination end (m ∷ ms) = Class.consistent
  determination (ok c) [] = decide c []
  determination (err f) [] = Class.faulted f

  -- The fault that a handle remembers once it has asked for one model.
  unfoldable pub remembered : Result (Option Conclusion) (Fault V) → List Model → Option (Fault V)
  remembered end (m ∷ ms) = none
  remembered (ok none) [] = some unconcluded
  remembered (ok (some c)) [] = none
  remembered (err f) [] = some f

  breach-remembered : (c : Option Conclusion) → breach run c ≡ remembered (ok c) []
  unfolding remembered
  breach-remembered none = refl
  breach-remembered (some c) = refl

  Ends-model :
      (s : run.State) (m : Model) (ms : List Model) (end : Result (Option Conclusion) (Fault V))
      → Ends s (m ∷ ms) end
      → (s' : run.State) × (run.next_model s ≡ (s', some (ok m)))
  Ends-model s m ms (ok c) (e, (s', step, y), concludes) = (s', step)
  Ends-model s m ms (err f) (s', step, y) = (s', step)

  -- A fresh handle's determination is that of its search, however it ends: consistent where the search
  -- yields a model; and where it yields none, inconsistent when the space was closed, inconclusive when a
  -- truncation stopped it, and faulted when the engine faulted or did not conclude. The handle then
  -- remembers that fault, and no fault in the other cases.
  pub classify-running :
      (s : run.State) (ms : List Model) (end : Result (Option Conclusion) (Fault V))
      (scenario : Scenario) (show : ShowRule)
      → Ends s ms end
      → (l' : LiveRun V run.State) × (classify run (running run s scenario show)
          ≡ (l', determination end ms))
        × (l'.faulted ≡ remembered end ms)
  unfolding classify running peek class_seen determination remembered
  classify-running s [] (ok c) scenario show (e, y, concludes) =
      let l = running run s scenario show in
      let l' = park run (finished run l e, none) in
      (
        l',
        ap (λ p. (park run p, class_seen run (park run p))) (pull_end run l e y refl)
            ∙ ap (λ z. (l', z)) (ended_class l e refl ∙ ap (λ z. decide z []) concludes),
        breach-remembered (run.conclusion e) ∙ ap (λ z. remembered (ok z) []) concludes,
      )
  classify-running s [] (err f) scenario show (e, y) =
      let l = running run s scenario show in
      (
        park run (record l { current = e; faulted = some f }, some (err f)),
        ap (λ p. (park run p, class_seen run (park run p))) (pull_err run l e f y),
        refl,
      )
  classify-running s (m ∷ ms) end scenario show h =
      let (s', step) = Ends-model s m ms end h in
      let l = running run s scenario show in
      (
        park run (record l { current = s'; witnessed = true }, some (ok (displayed m show))),
        ap (λ p. (park run p, class_seen run (park run p))) (pull_ok run l s' m step),
        refl,
      )

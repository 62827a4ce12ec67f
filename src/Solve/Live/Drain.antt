-- ===== src/Solve/Live/Drain.antt =====
-- The gate of the complete collection: what a drain answers, by what the engine's run yields.
use themelios.Prelude.{
  ℕ, zero, suc, ◌<◌, true, List, [], ◌∷◌, map, Option, none, some, ◌≡◌, refl, ap, ap₂, inl, inr,
  Option-cases, ◌∙◌, arith, length,
}
use themelios.Solve.Conclusion.{Truncation, Conclusion, exhausted, target, budget, interrupted}
use themelios.Solve.Contract.{Vocabulary, Fault}
use themelios.Solve.Model.{Model, ShowRule, displayed}
use themelios.Solve.Live.{
  Result, ok, err, Run, or_insert, DrainState, NotExhausted, LiveRun, unconcluded, record_item,
  after_pull, pull, next_from, next, drain_end, drain_item, drain_loop,
}

module _ {V : Vocabulary} (run : Run V) where
  -- From `s` the run yields the models in turn, ends, and is then in the state `e`.
  abbrev pub Yields : run.State → List Model → run.State → Type 0
  Yields s [] e = run.next_model s ≡ (e, none)
  Yields s (m ∷ ms) e = (s' : run.State) × (run.next_model s ≡ (s', some (ok m))) × Yields s' ms e

  -- From `s` the run yields the models in turn, and then a fault.
  abbrev pub Fails : run.State → List Model → Fault V → Type 0
  Fails s [] f = (e : run.State) × (run.next_model s ≡ (e, some (err f)))
  Fails s (m ∷ ms) f = (s' : run.State) × (run.next_model s ≡ (s', some (ok m))) × Fails s' ms f

  -- What the end of an unfaulted run makes of a drain, by the conclusion read there.
  unfoldable pub end_of : Option Conclusion → Result (Unit {0}) (NotExhausted V)
  end_of (some exhausted) = ok tt
  end_of (some target) = err (NotExhausted.unclosed Truncation.target)
  end_of (some budget) = err (NotExhausted.unclosed Truncation.budget)
  end_of (some interrupted) = err (NotExhausted.unclosed Truncation.interrupted)
  end_of none = err (NotExhausted.faulted unconcluded)

  abbrev pub shown_as : ShowRule → List Model → List Model
  shown_as show = map (λ m. displayed m show)

  abbrev pub fold {ℓ} : {B : Type ℓ} → (B → Model → B) → B → List Model → B
  fold each acc [] = acc
  fold each acc (m ∷ ms) = fold each (each acc m) ms

  -- A run that ends without concluding breaches its protocol.
  abbrev pub breach : Option Conclusion → Option (Fault V)
  breach none = some unconcluded
  breach (some _) = none

  pub pull_ok :
      (l : LiveRun V run.State) (s' : run.State) (m : Model)
      → run.next_model l.current ≡ (s', some (ok m))
      → pull run l ≡ (record l { current = s'; witnessed = true }, some (ok (displayed m l.show)))
  unfolding pull after_pull record_item
  pull_ok l s' m h = ap (after_pull run l) h

  pub pull_err :
      (l : LiveRun V run.State) (s' : run.State) (f : Fault V)
      → run.next_model l.current ≡ (s', some (err f))
      → pull run l ≡ (record l { current = s'; faulted = or_insert l.faulted f }, some (err f))
  unfolding pull after_pull record_item
  pull_err l s' f h = ap (after_pull run l) h

  ended :
      (l : LiveRun V run.State) (e : run.State)
      → l.faulted ≡ none
      → record_item run (record l { current = e }) none
        ≡ record l { current = e; faulted = breach (run.conclusion e) }
  unfolding record_item
  ended l e u = elim (Option-cases (run.conclusion e)) [
    | inl c ↦ rw (u, c, record_item)
    | inr (d, c) ↦ rw (u, c, record_item) (ap (λ x. record l { current = e; faulted = x }) u)
  ]

  pub pull_end :
      (l : LiveRun V run.State) (e : run.State)
      → run.next_model l.current ≡ (e, none)
      → l.faulted ≡ none
      → pull run l ≡ (record l { current = e; faulted = breach (run.conclusion e) }, none)
  unfolding pull after_pull record_item
  pull_end l e h u = ap (after_pull run l) h ∙ ap₂ (λ a b. (a, b)) (ended l e u) refl

  -- The handle after its run ended in `e`.
  abbrev pub finished : LiveRun V run.State → run.State → LiveRun V run.State
  finished l e = record l { current = e; faulted = breach (run.conclusion e) }

  drain_end-finished :
      (l : LiveRun V run.State) (e : run.State)
      → drain_end run (record (finished l e) { drain = DrainState.touched })
        ≡ end_of (run.conclusion e)
  unfolding drain_end end_of
  drain_end-finished l e = ground arith

  abbrev pub advanced : LiveRun V run.State → run.State → LiveRun V run.State
  advanced l s = record l { current = s; witnessed = true }

  next_unparked : (l : LiveRun V run.State) → l.lookahead ≡ none → next run l ≡ pull run l
  unfolding next
  next_unparked l h = ap (next_from run l) h

  -- A drain of an unparked, unfaulted handle folds the displayed models, and ends by the run's
  -- conclusion.
  pub drain_loop_lem {ℓ} :
      {B : Type ℓ} (each : B → Model → B) (fuel : ℕ) (l : LiveRun V run.State) (acc : B)
      (raw : List Model) (e : run.State)
      → l.lookahead ≡ none
      → l.faulted ≡ none
      → Yields l.current raw e
      → length raw < fuel
      → (l' : LiveRun V run.State) × (drain_loop run each fuel l acc
          ≡ some (l', fold each acc (shown_as l.show raw), end_of (run.conclusion e)))
  unfolding drain_loop drain_item
  drain_loop_lem each zero l acc raw e h u y n = absurd (omega arith)
  drain_loop_lem each (suc fuel) l acc [] e h u y n =
      let stop = next_unparked l h ∙ pull_end l e y u in
      (
        record (finished l e) { drain = DrainState.touched },
        ap (drain_item run each (drain_loop run each fuel) acc) stop
            ∙ ap (λ r. some (record (finished l e) { drain = DrainState.touched }, acc, r))
                (drain_end-finished l e),
      )
  drain_loop_lem each (suc fuel) l acc (m ∷ raw) e h u (s', step, y) n =
      let go = next_unparked l h ∙ pull_ok l s' m step in
      let (l', rest) =
        drain_loop_lem each fuel (advanced l s') (each acc (displayed m l.show)) raw e h u y
          (omega arith) in
      (l', ap (drain_item run each (drain_loop run each fuel) acc) go ∙ rest)

  -- The same where the run faults: the models before the fault are folded, and the fault is kept.
  pub drain_loop_fault {ℓ} :
      {B : Type ℓ} (each : B → Model → B) (fuel : ℕ) (l : LiveRun V run.State) (acc : B)
      (raw : List Model) (f : Fault V)
      → l.lookahead ≡ none
      → l.faulted ≡ none
      → Fails l.current raw f
      → length raw < fuel
      → (l' : LiveRun V run.State) × (drain_loop run each fuel l acc
          ≡ some (l', fold each acc (shown_as l.show raw), err (NotExhausted.faulted f)))
        × (l'.faulted ≡ some f)
  unfolding drain_loop drain_item
  drain_loop_fault each zero l acc raw f h u y n = absurd (omega arith)
  drain_loop_fault each (suc fuel) l acc [] f h u (e, y) n =
      let stop = next_unparked l h ∙ pull_err l e f y in
      (
        record l { current = e; faulted = or_insert l.faulted f; drain = DrainState.touched },
        ap (drain_item run each (drain_loop run each fuel) acc) stop,
        ap (λ x. or_insert x f) u,
      )
  drain_loop_fault each (suc fuel) l acc (m ∷ raw) f h u (s', step, y) n =
      let go = next_unparked l h ∙ pull_ok l s' m step in
      let (l', rest, kept) =
        drain_loop_fault each fuel (advanced l s') (each acc (displayed m l.show)) raw f h u y
          (omega arith) in
      (l', ap (drain_item run each (drain_loop run each fuel) acc) go ∙ rest, kept)

-- ===== src/Tests/Search.antt =====
-- The live run, its gates and the display of models, on a scripted search.
use themelios.Prelude.{List, [], ◌∷◌, some, ◌≡◌, refl, arith}
use themelios.Prelude.Sets.{contains}
use themelios.Program.Symbol.{positive}
use themelios.Program.Symbol.Total.{symbol_ord}
use themelios.Solve.Conclusion.{exhausted, budget}
use themelios.Solve.Contract.{cautious}
use themelios.Solve.Model.{Show, show_rule, shows, shown, displayed, with_terms, model_of}
use themelios.Solve.Model.Rules.{shows_spec, shows-show_rule}
use themelios.Solve.Model.Shown.{Built, shown_spec, shown-displayed}
use themelios.Solve.Live.{stream_next, ok, err, LiveRun, Item, running, classify, drain_complete}
use themelios.Solve.Live.Drain.{shown_as}
use themelios.Solve.Live.Forfeit.{forfeit, drain_complete-stream_next}
use themelios.Solve.Live.Parked.{drain_complete-classify}
use themelios.Solve.Live.Gate.{
  gate, determination, remembered, drain_complete-running, classify-running,
}
use themelios.Solve.Consequences.{fold_members}
use themelios.Solve.Consequences.Folds.{fold_gate, fold_members-running}
use themelios.Tests.Data.{plain, crash, p, q_one, with_p, with_both, everything, script, two}

drain_complete-running_example :
    (l' : LiveRun plain (List (Item plain))) × (drain_complete
        (script (some exhausted))
        3
        (running (script (some exhausted)) two [] everything)
      ≡ some (
        l',
        gate
            (script (some exhausted))
            (some exhausted)
            (shown_as (script (some exhausted)) everything (with_p ∷ with_both ∷ [])),
      ))
drain_complete-running_example =
    drain_complete-running (script (some exhausted)) two [] (with_p ∷ with_both ∷ []) [] everything
      3 (ok with_both ∷ [], refl, ([], refl, refl)) (omega arith)

classify-running_example :
    (l' : LiveRun plain (List (Item plain))) × (classify
        (script (some budget))
        (running (script (some budget)) (err crash ∷ []) [] everything)
      ≡ (l', determination (script (some budget)) (err crash) []))
    × (l'.faulted ≡ remembered (script (some budget)) (err crash) [])
classify-running_example =
    classify-running (script (some budget)) (err crash ∷ []) [] (err crash) [] everything ([], refl)

fold_members-running_example :
    (l' : LiveRun plain (List (Item plain))) × (fold_members
        (script (some exhausted))
        cautious
        3
        (running (script (some exhausted)) two [] everything)
      ≡ some (
        l',
        fold_gate
            (script (some exhausted))
            cautious
            (some exhausted)
            (shown_as (script (some exhausted)) everything (with_p ∷ with_both ∷ [])),
      ))
fold_members-running_example =
    fold_members-running (script (some exhausted)) cautious two [] (with_p ∷ with_both ∷ []) []
      everything 3 (ok with_both ∷ [], refl, ([], refl, refl)) (omega arith)

abbrev only_q : List Show
only_q = Show.signature (record { sign = positive; name = 113 ∷ []; arity = 1 }) ∷ Show.term ∷ []

shows-show_rule_example : shows (show_rule only_q) p ≡ shows_spec only_q p
shows-show_rule_example = shows-show_rule only_q p

shown-displayed_example :
    contains p
      (shown (displayed (with_terms (model_of (p ∷ q_one ∷ [])) (p ∷ [])) (show_rule only_q)))
    ≡ shown_spec (with_terms (model_of (p ∷ q_one ∷ [])) (p ∷ [])) (show_rule only_q) p
shown-displayed_example =
    shown-displayed (with_terms (model_of (p ∷ q_one ∷ [])) (p ∷ [])) (show_rule only_q) p
      (Built.terms (model_of (p ∷ q_one ∷ [])) (p ∷ []) (Built.of (p ∷ q_one ∷ [])))

drain_complete-classify_example :
    (l' : LiveRun plain (List (Item plain))) × (drain_complete
        (script (some exhausted))
        3
        (classify (script (some exhausted)) (running (script (some exhausted)) two [] everything)).0
      ≡ some (
        l',
        gate
            (script (some exhausted))
            (some exhausted)
            (shown_as (script (some exhausted)) everything (with_p ∷ with_both ∷ [])),
      ))
drain_complete-classify_example =
    drain_complete-classify (script (some exhausted)) two [] with_p (with_both ∷ []) [] everything 3
      (ok with_both ∷ [], refl, ([], refl, refl)) (omega arith)

drain_complete-stream_next_example :
    drain_complete
      (script (some exhausted))
      3
      (stream_next
        (script (some exhausted))
        (running (script (some exhausted)) two [] everything)).0
    ≡ some (
      (stream_next
          (script (some exhausted))
          (running (script (some exhausted)) two [] everything)).0,
      err (
          forfeit
            (stream_next
              (script (some exhausted))
              (running (script (some exhausted)) two [] everything)).0.faulted),
    )
drain_complete-stream_next_example =
    drain_complete-stream_next (script (some exhausted))
      (running (script (some exhausted)) two [] everything) 3

-- ===== src/Solve/Consequences/Folds.antt =====
-- The fold is the intersection or the union, and the streamed fold is the fold of the collection.
use themelios.Prelude.{
  ℕ, ◌<◌, ◌≡◌, refl, ap, ◌∙◌, Bool, ◌&&◌, ◌||◌, List, [], ◌∷◌, map, Option, none, some, all, any,
  length, arith,
}
use themelios.Prelude.Sets.{contains, contains-extend, contains-retain}
use themelios.Program.Symbol.{Symbol}
use themelios.Program.Symbol.Total.{symbol_ord}
use themelios.Solve.Conclusion.{Conclusion, exhausted, target, budget, interrupted, Truncation}
use themelios.Solve.Contract.{Vocabulary, Mode, cautious, brave}
use themelios.Solve.Model.{AnswerSet, Model, ShowRule}
use themelios.Solve.Live.{
  Result, ok, err, NotExhausted, Scenario, Run, LiveRun, DrainState, running, unconcluded,
  drain_each, drain_loop,
}
use themelios.Solve.Live.Drain.{Yields, shown_as, end_of, drain_loop_lem, fold as drain_fold}
use themelios.Solve.Consequences.{
  Consequences, merge, merge_all, fold, take_member, as_consequences, fold_members,
}

-- The symbol is in every set, or in some set.
abbrev pub entailed : Mode → Symbol → List AnswerSet → Bool
entailed cautious s = all (contains s)
entailed brave s = any (contains s)

contains-merge_all_cautious :
    (symbols : AnswerSet) (members : List AnswerSet) (s : Symbol)
    → contains s (merge_all cautious symbols members)
      ≡ (contains s symbols && all (contains s) members)
unfolding merge_all
contains-merge_all_cautious symbols [] s = ground arith
contains-merge_all_cautious symbols (m ∷ ms) s = ground (
  arith,
  contains-merge_all_cautious (merge cautious symbols m) ms s,
  contains-retain (λ b. contains b m) symbols s,
)

contains-merge_all_brave :
    (symbols : AnswerSet) (members : List AnswerSet) (s : Symbol)
    → contains s (merge_all brave symbols members)
      ≡ (contains s symbols || any (contains s) members)
unfolding merge_all
contains-merge_all_brave symbols [] s = ground arith
contains-merge_all_brave symbols (m ∷ ms) s =
    ground
      (arith, contains-merge_all_brave (merge brave symbols m) ms s, contains-extend symbols m s)

-- Over at least one answer set the fold answers, in its mode, the symbols that are in every set, or
-- those in some set.
pub contains-fold :
    (mode : Mode) (member : AnswerSet) (members : List AnswerSet)
    → (c : Consequences) × (fold mode (member ∷ members) ≡ some c)
      × (c.mode ≡ mode)
      × ((s : Symbol) → contains s c.symbols ≡ entailed mode s (member ∷ members))
unfolding fold
contains-fold cautious m ms = (_, refl, refl, contains-merge_all_cautious m ms)
contains-fold brave m ms = (_, refl, refl, contains-merge_all_brave m ms)

module _ {V : Vocabulary} (run : Run V) where
  -- What a request for the folded members is answered.
  abbrev pub fold_gate :
      Mode → Option Conclusion → List Model → Result (Option Consequences) (NotExhausted V)
  fold_gate mode (some exhausted) ms = ok (fold mode (map (λ m. m.atoms) ms))
  fold_gate mode (some target) ms = err (NotExhausted.unclosed Truncation.target)
  fold_gate mode (some budget) ms = err (NotExhausted.unclosed Truncation.budget)
  fold_gate mode (some interrupted) ms = err (NotExhausted.unclosed Truncation.interrupted)
  fold_gate mode none ms = err (NotExhausted.faulted unconcluded)

  streamed_some :
      (mode : Mode) (symbols : AnswerSet) (ms : List Model)
      → drain_fold run (take_member mode) (some symbols) ms
        ≡ some (merge_all mode symbols (map (λ m. m.atoms) ms))
  unfolding merge_all
  streamed_some mode symbols [] = refl
  streamed_some mode symbols (m ∷ ms) = streamed_some mode (merge mode symbols m.atoms) ms

  streamed :
      (mode : Mode) (ms : List Model)
      → as_consequences mode (drain_fold run (take_member mode) none ms)
        ≡ fold mode (map (λ m. m.atoms) ms)
  unfolding fold
  streamed mode [] = refl
  streamed mode (m ∷ ms) = ap (as_consequences mode) (streamed_some mode m.atoms ms)

  folded :
      (mode : Mode) (fuel : ℕ) (l l' : LiveRun V run.State) (acc : Option AnswerSet)
      (ms : List Model) (c : Option Conclusion)
      → drain_each run (take_member mode) fuel l none ≡ some (l', acc, end_of run c)
      → as_consequences mode acc ≡ fold mode (map (λ m. m.atoms) ms)
      → fold_members run mode fuel l ≡ some (l', fold_gate mode c ms)
  unfolding fold_members end_of
  folded mode fuel l l' acc ms (some exhausted) h e = ground (arith, h, e)
  folded mode fuel l l' acc ms (some target) h e = ground (arith, h)
  folded mode fuel l l' acc ms (some budget) h e = ground (arith, h)
  folded mode fuel l l' acc ms (some interrupted) h e = ground (arith, h)
  folded mode fuel l l' acc ms none h e = ground (arith, h)

  fresh_each :
      (mode : Mode) (fuel : ℕ) (l : LiveRun V run.State) (acc : Option AnswerSet)
      → l.faulted ≡ none
      → l.drain ≡ DrainState.fresh
      → drain_each run (take_member mode) fuel l acc ≡ drain_loop run (take_member mode) fuel l acc
  unfolding drain_each
  fresh_each mode fuel l acc u d = ground arith

  -- A fresh handle over a run that ends without a fault folds its members as they stream, with more
  -- fuel than there are models: where the run's conclusion is that the space was closed, to the fold of the whole collection as it is displayed; otherwise it refuses, the
  -- partial fold discarded.
  pub fold_members-running :
      (mode : Mode) (s e : run.State) (ms : List Model) (scenario : Scenario) (show : ShowRule)
      (fuel : ℕ)
      → Yields run s ms e
      → length ms < fuel
      → (l' : LiveRun V run.State) × (fold_members run mode fuel (running run s scenario show)
          ≡ some (l', fold_gate mode (run.conclusion e) (shown_as run show ms)))
  unfolding running
  fold_members-running mode s e ms scenario show fuel y n =
      let l = running run s scenario show in
      let (l', loop) = drain_loop_lem run (take_member mode) fuel l none ms e refl refl y n in
      (
        l',
        folded mode fuel l l' _ (shown_as run show ms) (run.conclusion e)
            (fresh_each mode fuel l none refl refl ∙ loop) (streamed mode (shown_as run show ms)),
      )

-- ===== src/Solve/Consequences.antt =====
-- Cautious and brave consequences (crates/themelios-solve/src/outcome.rs): the fold over answer
-- sets, and the fold of a live run's members as they stream.
pub mod Folds
use Prim.Native.String.{◌++◌}
use themelios.Prelude.{ℕ, Bool, List, [], ◌∷◌, Option, none, some}
use themelios.Prelude.Sets.{contains, extend, retain}
use themelios.Program.Symbol.{Symbol}
use themelios.Program.Symbol.Total.{symbol_ord}
use themelios.Solve.Conclusion.{Truncation, truncation_text}
use themelios.Solve.Contract.{
  Vocabulary, Fault, Mode, cautious, brave, Presupposition, request_fault,
}
use themelios.Solve.Model.{AnswerSet, Model}
use themelios.Solve.Live.{Result, ok, err, NotExhausted, Run, LiveRun, drain_each}

pub record Consequences : Type 0 where
  pub symbols : AnswerSet
  pub mode : Mode

abbrev pub merge : Mode → AnswerSet → AnswerSet → AnswerSet
merge cautious symbols member = retain (λ s. contains s member) symbols
merge brave symbols member = extend symbols member

unfoldable pub merge_all : Mode → AnswerSet → List AnswerSet → AnswerSet
merge_all mode symbols [] = symbols
merge_all mode symbols (member ∷ members) = merge_all mode (merge mode symbols member) members

-- `Consequences::fold`.
unfoldable pub fold : Mode → List AnswerSet → Option Consequences
fold mode [] = none
fold mode (member ∷ members) =
    some (record { symbols = merge_all mode member members; mode = mode })

-- What `fold_members` does with one model.
abbrev pub take_member : Mode → Option AnswerSet → Model → Option AnswerSet
take_member mode none m = some m.atoms
take_member mode (some symbols) m = some (merge mode symbols m.atoms)

abbrev pub as_consequences : Mode → Option AnswerSet → Option Consequences
as_consequences mode none = none
as_consequences mode (some symbols) = some (record { symbols = symbols; mode = mode })

module _ {V : Vocabulary} (run : Run V) where
  -- `Models::fold_members`.
  unfoldable pub fold_members :
      Mode
      → ℕ
      → LiveRun V run.State
      → Option (LiveRun V run.State × Result (Option Consequences) (NotExhausted V))
  unfolding drain_each
  fold_members mode fuel l = elim (drain_each run (take_member mode) fuel l none) [
    | none ↦ none
    | some (l', folded, ok _) ↦ some (l', ok (as_consequences mode folded))
    | some (l', folded, err refusal) ↦ some (l', err refusal)
  ]

-- `From<NotExhausted> for Fault`.
unfoldable pub fault_of_refusal : {V : Vocabulary} → NotExhausted V → Fault V
unfolding request_fault
fault_of_refusal NotExhausted.taken =
    request_fault
      "the models were already taken from this handle; a complete collection is unavailable"
      Presupposition.taken
fault_of_refusal (NotExhausted.unclosed t) =
    request_fault ("the search did not close the space: " ++ truncation_text t)
      (Presupposition.unclosed t)
fault_of_refusal (NotExhausted.faulted cause) = cause

-- ===== src/Solve/Agent/Questions.antt =====
-- The agent's record of its questions and the run of a question (crates/themelios-solve/src/agent.rs).
-- The lock makes each operation one step of the record; a call of the backend's cancelling primitive,
-- where there is one, is counted.
pub mod Pulls
pub mod Runs
use themelios.Prelude.{
  ℕ, suc, ◌+◌, ◌%◌, ◌^◌, Bool, true, false, ◌&&◌, if◌then◌else◌, Option, none, some, ◌==◌,
}
use themelios.Solve.Conclusion.{Conclusion, Truncation, truncation_of, conclusion_of}
use themelios.Solve.Contract.{Vocabulary}
use themelios.Solve.Live.{Item, Run}

-- `Record`, with the primitive and the signals it has had.
pub record Questions : Type 0 where
  pub current : ℕ
  pub pulled : ℕ
  pub primitive : Bool
  pub signals : ℕ

unfoldable pub over : Bool → Questions
over primitive = record { current = 0; pulled = 0; primitive = primitive; signals = 0 }

abbrev pub in_flight : Questions → Bool
in_flight q = q.current % 2 == 1

-- `wrapping_add` on a `u64`.
abbrev pub wrapping_add : ℕ → ℕ → ℕ
wrapping_add n m = (n + m) % 2 ^ 64

-- `Questions::open`, with the new question's generation.
unfoldable pub open_question : Questions → Questions × ℕ
open_question q =
    let g = wrapping_add q.current (if in_flight q then 2 else 1) in (record q { current = g }, g)

unfoldable pub close_question : Questions → ℕ → Questions
close_question q g = if q.current == g then record q { current = wrapping_add q.current 1 } else q

unfoldable pub is_pulled : Questions → ℕ → Bool
is_pulled q g = q.pulled == g

-- `primitive.cancel()`, where there is a primitive.
abbrev pub cancel : Questions → Questions
cancel q = record q { signals = if q.primitive then suc q.signals else q.signals }

unfoldable pub forward_held : Questions → ℕ → Questions
forward_held q g = if q.pulled == g && q.current == g then cancel q else q

unfoldable pub pull_question : Questions → Questions
pull_question q = if in_flight q then cancel (record q { pulled = q.current }) else q

-- `attributed`.
unfoldable pub attributed : Truncation → Bool → Truncation
attributed Truncation.budget true = Truncation.interrupted
attributed t _ = t

-- A reported conclusion, attributed.
abbrev pub attribute : Bool → Option Conclusion → Option Conclusion
attribute pulled none = none
attribute pulled (some reported) = elim (truncation_of reported) [
  | none ↦ some reported
  | some t ↦ some (conclusion_of (attributed t pulled))
]

-- `Attributed`, over the shared record and the backend's run.
pub record Attributed (S : Type 0) : Type 0 where
  pub questions : Questions
  pub inner : S
  pub asking : Option ℕ
  pub pulled : Bool

module _ {V : Vocabulary} (run : Run V) where
  -- `Attributed::over` a question just opened.
  unfoldable pub attributed_over : Questions → run.State → ℕ → Attributed run.State
  attributed_over q s g = record { questions = q; inner = s; asking = some g; pulled = false }

  -- The end of the run: the pull is read, and the question closes as `asking` drops.
  unfoldable pub at_end : Attributed run.State → Attributed run.State
  unfolding is_pulled close_question
  at_end a = elim a.asking [
    | none ↦ a
    | some g ↦ record a {
      questions = close_question a.questions g;
      asking = none;
      pulled = is_pulled a.questions g;
    }
  ]

  abbrev pub after_item :
      Attributed run.State → run.State × Option (Item V) → Attributed run.State × Option (Item V)
  after_item a (s, none) = (at_end (record a { inner = s }), none)
  after_item a (s, some item) = (record a { inner = s }, some item)

  -- `Run for Attributed`.
  abbrev pub attributed_run : Run V
  attributed_run = record {
    State = Attributed run.State;
    next_model = λ a. after_item a (run.next_model a.inner);
    conclusion = λ a. attribute a.pulled (run.conclusion a.inner);
  }

-- `Run for Unbegun`.
unfoldable pub unbegun : {V : Vocabulary} → Run V
unbegun = record {
  State = Unit;
  next_model = λ s. (s, none);
  conclusion = λ _. some Conclusion.interrupted;
}

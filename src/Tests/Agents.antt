-- ===== src/Tests/Agents.antt =====
-- The knowledge ledger and the questions.
use themelios.Prelude.{
  all, ◌⊎◌, ℕ, ◌+◌, true, false, List, [], ◌∷◌, none, some, ◌≡◌, refl, arith, if◌then◌else◌,
}
use themelios.Solve.Conclusion.{budget}
use themelios.Solve.Live.{ok, LiveRun, Item, running, drain_complete}
use themelios.Solve.Live.Drain.{shown_as}
use themelios.Solve.Agent.Ledger.{
  RetractionClass, StatementId, Ledger, refused, done, forget, push, retire, is_live,
}
use themelios.Solve.Agent.Ledger.Handles.{IsValid, held, same_handle, push_lem, retire_lem}
use themelios.Solve.Agent.Ledger.Forget.{among, forget_lem}
use themelios.Solve.Agent.Ledger.Spent.{Op, asserts, retracts, history, history-retire}
use themelios.Solve.Agent.Questions.{
  Questions, open_question, is_pulled, attributed_run, Attributed, attributed_over,
}
use themelios.Solve.Agent.Questions.Pulls.{pulls, closes, happen, heard, sent, happen-open_question}
use themelios.Solve.Agent.Questions.Runs.{attributed_gate, drain_complete-attributed}
use themelios.Tests.Data.{plain, with_p, with_both, everything, script, two}

abbrev seeded : Ledger ℕ ℕ
seeded = record {
  brand = 7;
  base = 0;
  slots = record { generation = 0; entry = some (record { part = 0; node = 5 }) } ∷ [];
  free = [];
}

seeded-IsValid : IsValid seeded
seeded-IsValid = record { vacant = tt; once = tt }

abbrev first : StatementId
first = record { ledger = 7; slot = 0; generation = 0; class = RetractionClass.rebuild }

push_lem_example :
    (l' : Ledger ℕ ℕ) × (id : StatementId) × (push seeded 9 RetractionClass.rebuild ≡ some (l', id))
    × IsValid l'
    × ((x : StatementId)
        → held l' x
          ≡ (if same_handle x id then some (record { part = 0; node = 9 }) else held seeded x))
push_lem_example = push_lem seeded 9 RetractionClass.rebuild seeded-IsValid

first_live : is_live seeded first ≡ true
unfolding is_live
first_live = refl

retire_lem_example :
    (l' : Ledger ℕ ℕ) × (retire seeded first ≡ some l')
    × IsValid l'
    × ((x : StatementId) → held l' x ≡ (if same_handle x first then none else held seeded x))
retire_lem_example = retire_lem seeded first seeded-IsValid first_live

abbrev reuse : List (Op ℕ)
reuse = asserts 6 RetractionClass.rebuild ∷ retracts first ∷ []

history-retire_example :
    (l' : Ledger ℕ ℕ) × (l'' : Ledger ℕ ℕ) × (retire seeded first ≡ some l')
    × (history l' reuse ≡ some l'')
    × (is_live l'' first ≡ false)
history-retire_example = history-retire seeded first reuse seeded-IsValid first_live (omega arith)

abbrev quiet : Questions
quiet = record { current = 2; pulled = 1; primitive = true; signals = 0 }

happen-open_question_example :
    (is_pulled
        (happen (open_question quiet).1 (open_question quiet).0 (pulls ∷ closes ∷ pulls ∷ []))
        (open_question quiet).1
      ≡ heard false (pulls ∷ closes ∷ pulls ∷ []))
    × ((happen
          (open_question quiet).1
          (open_question quiet).0
          (pulls ∷ closes ∷ pulls ∷ [])).signals
        ≡ 0 + (if true then sent false (pulls ∷ closes ∷ pulls ∷ []) else 0))
happen-open_question_example =
    happen-open_question quiet (pulls ∷ closes ∷ pulls ∷ []) (omega arith) (omega arith)

abbrev held_pull : Questions
held_pull = record { current = 3; pulled = 3; primitive = false; signals = 0 }

drain_complete-attributed_example :
    (l' : LiveRun plain (Attributed (List (Item plain)))) × (drain_complete
        (attributed_run (script (some budget)))
        3
        (running
          (attributed_run (script (some budget)))
          (attributed_over (script (some budget)) held_pull two 3)
          []
          everything)
      ≡ some (
        l',
        attributed_gate
            (script (some budget))
            (is_pulled held_pull 3)
            (some budget)
            (shown_as (script (some budget)) everything (with_p ∷ with_both ∷ [])),
      ))
drain_complete-attributed_example =
    drain_complete-attributed (script (some budget)) held_pull 3 two [] (with_p ∷ with_both ∷ []) []
      everything 3 (ok with_both ∷ [], refl, ([], refl, refl)) (omega arith)

forget_lem_example :
    ((all (is_live seeded) (first ∷ []) ≡ false) × (forget seeded (first ∷ []) ≡ some refused))
    ⊎ ((l' : Ledger ℕ ℕ) × (all (is_live seeded) (first ∷ []) ≡ true)
        × (forget seeded (first ∷ []) ≡ some (done l'))
        × IsValid l'
        × ((x : StatementId) → held l' x ≡ (if among (first ∷ []) x then none else held seeded x)))
forget_lem_example = forget_lem seeded (first ∷ []) seeded-IsValid refl

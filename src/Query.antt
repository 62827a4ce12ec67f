-- ===== src/Query.antt =====
-- Ground queries and their readings (crates/themelios-query/src/lib.rs).
pub mod Value
pub mod Readings
use themelios.Prelude.{
  ℕ, zero, suc, Bool, true, false, ◌&&◌, ◌||◌, not, if◌then◌else◌, List, [], ◌∷◌, Option, none,
  some, any, String,
}
use themelios.Prelude.Sets.{contains}
use themelios.Program.Symbol.{Sign, positive, negative, Symbol, function}
use themelios.Program.Symbol.Total.{symbol_ord}
use themelios.Solve.Contract.{Vocabulary, Fault, adapter_bug}
use themelios.Solve.Model.{AnswerSet, Model, is_consistent, is_set_of_literals}
use themelios.Solve.Live.{Result, ok, err, Scenario, Run, LiveRun, drain_complete}
use themelios.Solve.Consequences.{fault_of_refusal}

mutual
  -- `Query`, by its `Shape`.
  pub data Query : Type 0 where
    literal : Symbol → Query
    conjunction disjunction : Queries → Query

  pub data Queries : Type 0 where
    nil : Queries
    cons : Query → Queries → Queries

pub data Truth : Type 0 where
  no unknown yes : Truth

-- `min` and `max` in the order `no`, `unknown`, `yes`.
abbrev pub meet : Truth → Truth → Truth
meet no _ = no
meet unknown no = no
meet unknown unknown = unknown
meet unknown yes = unknown
meet yes t = t

abbrev pub join : Truth → Truth → Truth
join no t = t
join unknown no = unknown
join unknown unknown = unknown
join unknown yes = yes
join yes _ = yes

abbrev pub opposite : Sign → Sign
opposite positive = negative
opposite negative = positive

-- `contrary`.
unfoldable pub contrary : Symbol → Symbol
contrary (function n xs s) = function n xs (opposite s)
contrary other = other

unfoldable pub literal_truth : Symbol → AnswerSet → Truth
unfolding contrary
literal_truth s member =
    if contains s member then yes else if contains (contrary s) member then no else unknown

-- An open compound: whether it meets or joins, the parts not yet read, and the truth so far.
pub record Frame : Type 0 where
  pub meets : Bool
  pub rest : Queries
  pub so_far : Truth

-- The next part to read, or a truth to fold into the innermost open compound.
pub data Focus : Type 0 where
  reads : Query → Focus
  folds : Truth → Focus

abbrev pub identity : Bool → Truth
identity true = yes
identity false = no

abbrev pub combine : Bool → Truth → Truth → Truth
combine true t u = meet t u
combine false t u = join t u

pub data Round : Type 0 where
  more : Focus → List Frame → Round
  answers : Truth → Round

-- The entry into a compound.
abbrev pub enter : Bool → Queries → List Frame → Round
enter meets nil open_ = more (folds (identity meets)) open_
enter meets (cons first rest) open_ =
    more (reads first) (record { meets = meets; rest = rest; so_far = identity meets } ∷ open_)

-- A compound whose truth so far is folded: its next part, or its end.
abbrev pub resume : Bool → Truth → Queries → List Frame → Round
resume meets t nil open_ = more (folds t) open_
resume meets t (cons part rest) open_ =
    more (reads part) (record { meets = meets; rest = rest; so_far = t } ∷ open_)

-- One turn of the loops of `truth_in`.
abbrev pub turn : AnswerSet → Focus → List Frame → Round
turn member (reads (literal s)) open_ = more (folds (literal_truth s member)) open_
turn member (reads (conjunction parts)) open_ = enter true parts open_
turn member (reads (disjunction parts)) open_ = enter false parts open_
turn member (folds t) [] = answers t
turn member (folds t) (f ∷ open_) = resume f.meets (combine f.meets f.so_far t) f.rest open_

abbrev pub go_on : (Focus → List Frame → Option Truth) → Round → Option Truth
go_on rest (more focus open_) = rest focus open_
go_on rest (answers t) = some t

-- `none` says that the fuel ran out.
unfoldable pub walk : AnswerSet → ℕ → Focus → List Frame → Option Truth
walk member zero focus open_ = none
walk member (suc fuel) focus open_ = go_on (walk member fuel) (turn member focus open_)

-- `Query::truth_in`.
unfoldable pub truth_in : ℕ → Query → AnswerSet → Option Truth
unfolding walk
truth_in fuel q member = walk member fuel (reads q) []

pub data Answer : Type 0 where
  yes no unknown : Answer

-- `all_true` and `all_false` after one member's truth.
abbrev pub note : Truth → Bool × Bool → Bool × Bool
note Truth.yes (all_true, all_false) = (all_true, false)
note Truth.no (all_true, all_false) = (false, all_false)
note Truth.unknown (all_true, all_false) = (false, false)

abbrev pub settle : Bool × Bool → Answer
settle (all_true, all_false) =
    if all_true then Answer.yes else if all_false then Answer.no else Answer.unknown

unfoldable pub answer_loop : ℕ → Query → List Model → Bool × Bool → Option Answer
unfolding truth_in
answer_loop fuel q [] seen = some (settle seen)
answer_loop fuel q (m ∷ ms) seen = elim (truth_in fuel q m.atoms) [
  | none ↦ none
  | some truth ↦ answer_loop fuel q ms (note truth seen)
]

-- `Snapshot`.
pub record Snapshot : Type 0 where
  pub members : List Model
  pub scenario : Scenario

-- `Snapshot::answer`, with the fuel of each `truth_in`.
unfoldable pub answer : ℕ → Snapshot → Query → Option Answer
unfolding answer_loop
answer fuel snapshot q = answer_loop fuel q snapshot.members (true, true)

-- `Snapshot::entails`.
abbrev pub is_yes : Answer → Bool
is_yes Answer.yes = true
is_yes _ = false

-- The tests of `WorldView::materialize` on the collected members.
unfoldable pub certify : {V : Vocabulary} → List Model → Scenario → Result Snapshot (Fault V)
unfolding adapter_bug
certify members scenario =
    if any (λ m. not (is_set_of_literals m)) members
    then err (adapter_bug "the backend yielded a model holding something other than literals")
    else if any (λ m. not (is_consistent m)) members
    then err (adapter_bug "the backend yielded a model holding an atom and its contrary")
    else ok (record { members = members; scenario = scenario })

module _ {V : Vocabulary} (run : Run V) where
  -- `WorldView::materialize`, over the handle of the world view's models.
  unfoldable pub materialize : ℕ → LiveRun V run.State → Option (Result Snapshot (Fault V))
  unfolding drain_complete fault_of_refusal certify
  materialize fuel l = elim (drain_complete run fuel l) [
    | none ↦ none
    | some (l', err refusal) ↦ some (err (fault_of_refusal refusal))
    | some (l', ok members) ↦ some (certify members l'.scenario)
  ]

-- ===== src/Tests/Data.antt =====
-- Test data: symbols, models, and a scripted run that yields its items in turn.
use themelios.Prelude.{false, List, [], ◌∷◌, Option, none, some}
use themelios.Program.Symbol.{Symbol, nil, cons, function, number, positive, negative}
use themelios.Prelude.Int.{pos}
use themelios.Solve.Conclusion.{Conclusion}
use themelios.Solve.Contract.{Vocabulary, Fault, Locus, Refusal}
use themelios.Solve.Model.{Model, Displayed, TheoryAssignments, ShowRule}
use themelios.Solve.Live.{ok, err, Item, Run}

abbrev pub plain : Vocabulary
plain = record {
  Node = Unit;
  PartKey = Unit;
  NotAdmitted = Unit;
  Cause = Unit;
  admission_text = λ _. "refused";
}

-- `p`, `-p` and `q(1)`.
abbrev pub p : Symbol
p = function (112 ∷ []) nil positive

abbrev pub not_p : Symbol
not_p = function (112 ∷ []) nil negative

abbrev pub q_one : Symbol
q_one = function (113 ∷ []) (cons (number (pos 1)) nil) positive

abbrev pub with_p : Model
with_p = record {
  atoms = p ∷ [];
  terms = [];
  display = Displayed.answer_set;
  theory = TheoryAssignments.empty;
}

abbrev pub with_both : Model
with_both = record {
  atoms = p ∷ q_one ∷ [];
  terms = [];
  display = Displayed.answer_set;
  theory = TheoryAssignments.empty;
}

abbrev pub everything : ShowRule
everything = record { restricted = none }

abbrev pub crash : Fault plain
crash = record {
  locus = Locus.engine;
  message = "the engine stopped";
  refusal = Refusal.nothing;
  backend_bug = false;
  cause = none;
}

abbrev draw : List (Item plain) → List (Item plain) × Option (Item plain)
draw [] = ([], none)
draw (item ∷ items) = (items, some item)

abbrev pub script : Option Conclusion → Run plain
script c = record { State = List (Item plain); next_model = draw; conclusion = λ _. c }

abbrev pub two : List (Item plain)
two = ok with_p ∷ ok with_both ∷ []

abbrev pub broken : List (Item plain)
broken = ok with_p ∷ err crash ∷ []

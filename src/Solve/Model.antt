-- ===== src/Solve/Model.antt =====
-- Models, show rules and what is displayed of a model (crates/themelios-solve/src/outcome.rs). A
-- `BTreeSet` is the list of its elements in ascending order; a `BTreeMap` of names is an
-- association list.
pub mod Rules
pub mod Shown
use themelios.Prelude.{
  ℕ, ◌^◌, Bool, true, false, ◌&&◌, ◌||◌, not, if◌then◌else◌, List, [], ◌∷◌, Option, none, some, ltb,
  ◌≡◌, length, any, all as all_of, Ordering, is_none,
}
use themelios.Prelude.Order.{Ord, nat_ord, list_ord, pair_ord}
use themelios.Prelude.Sets.{contains, insert, extend, retain, is_subset}
use themelios.Program.Symbol.{
  Sign, positive, negative, sign_ord, Name, Symbol, function, to_list, Signature, is_eq,
}
use themelios.Program.Symbol.Total.{symbol_ord}

abbrev pub AnswerSet : Type 0
AnswerSet = List Symbol

-- The empty theory component.
pub data TheoryAssignments : Type 0 where
  empty : TheoryAssignments

pub data Displayed : Type 0 where
  answer_set : Displayed
  unrestricted : AnswerSet → Displayed
  restricted : AnswerSet → Displayed

pub record Model : Type 0 where
  pub atoms : AnswerSet
  pub terms : AnswerSet
  pub display : Displayed
  pub theory : TheoryAssignments

-- The directives, with of each what the rule reads: `Show::Term` and `Show::TermBody` carry terms
-- that it does not.
pub data Show : Type 0 where
  all : Show
  signature : Signature → Show
  term term_body : Show

abbrev pub Form : Type 0
Form = Sign × ℕ

abbrev pub NameMap : Type 0
NameMap = List (Name × List Form)

pub record ShowRule : Type 0 where
  pub restricted : Option NameMap

unfoldable pub same_name : Name → Name → Bool
same_name a b = is_eq (list_ord.cmp a b)

-- `names.get(name)`, and its forms.
unfoldable pub lookup : Name → NameMap → List Form
lookup n [] = []
lookup n ((m, forms) ∷ rest) = if same_name n m then forms else lookup n rest

-- `entry(name).or_default().insert(form)`.
unfoldable pub insert_form : Name → Form → NameMap → NameMap
insert_form n form [] = (n, insert form []) ∷ []
insert_form n form ((m, forms) ∷ rest) =
    if same_name n m then (m, insert form forms) ∷ rest else (m, forms) ∷ insert_form n form rest

-- `get_or_insert_with(BTreeMap::new)`.
abbrev pub or_empty : Option NameMap → NameMap
or_empty none = []
or_empty (some names) = names

-- The body of the loop of `ShowRule::of`.
unfoldable pub read_show : Option NameMap → Show → Option NameMap
read_show r Show.all = some (or_empty r)
read_show r (Show.signature s) = some (insert_form s.name (s.sign, s.arity) (or_empty r))
read_show r Show.term = r
read_show r Show.term_body = r

unfoldable pub read_shows : Option NameMap → List Show → Option NameMap
read_shows r [] = r
read_shows r (d ∷ ds) = read_shows (read_show r d) ds

-- `ShowRule::of`.
unfoldable pub show_rule : List Show → ShowRule
show_rule ds = record { restricted = read_shows none ds }

abbrev pub shows_every_atom : ShowRule → Bool
shows_every_atom rule = is_none rule.restricted

-- The test of an atom against the signatures; more arguments than a `u32` counts match none.
unfoldable pub shows_in : NameMap → Symbol → Bool
shows_in names (function n args sign) =
    let arity = length (to_list args) in
    ltb arity (2 ^ 32) && contains (sign, arity) (lookup n names)
shows_in names _ = false

-- `ShowRule::shows`.
unfoldable pub shows : ShowRule → Symbol → Bool
shows rule atom = elim rule.restricted [ none ↦ true | some names ↦ shows_in names atom ]

-- `Model::of`.
unfoldable pub model_of : AnswerSet → Model
model_of atoms = record {
  atoms = atoms;
  terms = [];
  display = Displayed.answer_set;
  theory = TheoryAssignments.empty;
}

-- The private `unrestricted`: what no rule restricts.
unfoldable pub unrestrict : Model → Model
unfolding is_subset extend contains insert
unrestrict m = record m {
  display =
      if is_subset m.terms m.atoms
      then Displayed.answer_set
      else Displayed.unrestricted (extend m.atoms m.terms);
}

unfoldable pub with_terms : Model → List Symbol → Model
unfolding unrestrict extend
with_terms m terms = unrestrict (record m { terms = extend [] terms })

-- `shown`, and the symbols of it.
unfoldable pub shown : Model → AnswerSet
shown m = elim m.display [
  | Displayed.answer_set ↦ m.atoms
  | Displayed.unrestricted symbols ↦ symbols
  | Displayed.restricted symbols ↦ symbols
]

-- The display under a rule that restricts.
unfoldable pub restricted_display : Model → ShowRule → AnswerSet
unfolding retain contains shows extend
restricted_display m rule = elim m.display [
  | Displayed.unrestricted display ↦ retain (λ s. contains s m.terms || shows rule s) display
  | _ ↦ extend (retain (shows rule) m.atoms) m.terms
]

-- `==` of two sets: their elements agree in order.
unfoldable pub same_set : AnswerSet → AnswerSet → Bool
same_set s t = is_eq (list_ord.cmp s t)

-- `displayed`, by the rule's two kinds.
unfoldable pub displayed_all : Model → Model
unfolding unrestrict
displayed_all m = elim m.display [ Displayed.restricted _ ↦ unrestrict m | _ ↦ m ]

unfoldable pub displayed_some : Model → ShowRule → Model
unfolding restricted_display same_set
displayed_some m rule =
    let display = restricted_display m rule in
    record m {
      display =
          if same_set display m.atoms then Displayed.answer_set else Displayed.restricted display;
    }

unfoldable pub displayed : Model → ShowRule → Model
unfolding displayed_all displayed_some
displayed m rule = if shows_every_atom rule then displayed_all m else displayed_some m rule

-- An atom's contrary stands beside it.
abbrev pub clashes : AnswerSet → Symbol → Bool
clashes atoms (function n args negative) = contains (function n args positive) atoms
clashes atoms _ = false

unfoldable pub is_consistent : Model → Bool
unfolding contains
is_consistent m = not (any (clashes m.atoms) m.atoms)

abbrev pub is_literal : Symbol → Bool
is_literal (function _ _ _) = true
is_literal _ = false

unfoldable pub is_set_of_literals : Model → Bool
is_set_of_literals m = all_of is_literal m.atoms

-- ===== src/Solve/Model/Shown.antt =====
-- What a model displays: whichever way the code stores it, the display is the terms and the atoms
-- that the rule shows.
use themelios.Prelude.{
  Bool, true, ◌&&◌, ◌||◌, List, [], ◌≡◌, sym, ap, ◌∙◌, arith, Bool-cases, inl, inr,
}
use themelios.Prelude.Order.{list_ord}
use themelios.Prelude.Sets.{
  contains, extend, retain, is_subset, contains-extend, contains-retain, is_subset_iff,
}
use themelios.Program.Symbol.{Symbol}
use themelios.Program.Symbol.Total.{symbol_ord}
use themelios.Solve.Model.{
  AnswerSet, Displayed, Model, ShowRule, model_of, unrestrict, with_terms, shown, shows,
  shows_every_atom, restricted_display, same_set, displayed_all, displayed_some, displayed,
}

-- What the stored display says where no rule restricts it: `answer_set` stores that the terms are
-- among the atoms, and `unrestricted` holds the atoms and the terms.
abbrev Stored : Displayed → AnswerSet → AnswerSet → Type 0
Stored Displayed.answer_set atoms terms =
    (s : Symbol) → contains s terms ≡ true → contains s atoms ≡ true
Stored (Displayed.unrestricted d) atoms terms =
    (s : Symbol) → contains s d ≡ (contains s atoms || contains s terms)
Stored (Displayed.restricted d) atoms terms = Unit

abbrev IsStored : Model → Type 0
IsStored m = Stored m.display m.atoms m.terms

same_set_sound : (s t : AnswerSet) → same_set s t ≡ true → s ≡ t
unfolding same_set
same_set_sound s t h = list_ord.eq_of_cmp s t (ground arith)

model_of-IsStored : (atoms : AnswerSet) → IsStored (model_of atoms)
unfolding model_of contains
model_of-IsStored atoms s h = cc

unrestrict-IsStored : (m : Model) → IsStored (unrestrict m)
unfolding unrestrict
unrestrict-IsStored m = elim (Bool-cases (is_subset m.terms m.atoms)) [
  | inl e ↦ rw e ((is_subset_iff m.terms m.atoms).0 e)
  | inr e ↦ rw e (λ s. contains-extend m.atoms m.terms s)
]

-- The reference display: the terms, and the atoms that the rule shows.
pub shown_spec : Model → ShowRule → Symbol → Bool
shown_spec m rule s = contains s m.terms || contains s m.atoms && shows rule s

shows_all : (rule : ShowRule) (s : Symbol) → shows_every_atom rule ≡ true → shows rule s ≡ true
unfolding shows
shows_all rule s h = ground arith

term_shown :
    (m : Model) (rule : ShowRule) (s : Symbol)
    → contains s m.terms ≡ true
    → shown_spec m rule s ≡ true
unfolding shown_spec
term_shown m rule s h = ground arith

recomputed :
    (atoms terms : AnswerSet) (rule : ShowRule) (s : Symbol)
    → contains s (extend (retain (shows rule) atoms) terms)
      ≡ (contains s terms || contains s atoms && shows rule s)
recomputed atoms terms rule s = ground (
  arith,
  contains-extend (retain (shows rule) atoms) terms s,
  contains-retain (shows rule) atoms s,
)

every_atom :
    (m : Model) (rule : ShowRule) (s : Symbol)
    → shows_every_atom rule ≡ true
    → (contains s m.atoms || contains s m.terms) ≡ shown_spec m rule s
unfolding shown_spec
every_atom m rule s h = ground (arith, shows_all rule s h)

answer_set_shows :
    (m : Model) (s : Symbol)
    → Stored Displayed.answer_set m.atoms m.terms
    → contains s (shown (record m { display = Displayed.answer_set }))
      ≡ (contains s m.atoms || contains s m.terms)
unfolding shown
answer_set_shows m s h = ground (arith, h s)

unrestricted_shows :
    (d : AnswerSet) (m : Model) (s : Symbol)
    → Stored (Displayed.unrestricted d) m.atoms m.terms
    → contains s (shown (record m { display = Displayed.unrestricted d }))
      ≡ (contains s m.atoms || contains s m.terms)
unfolding shown
unrestricted_shows d m s h = h s

-- By the kind of the display stored before.
restricted_by :
    (d : Displayed) (m : Model) (rule : ShowRule) (s : Symbol)
    → Stored d m.atoms m.terms
    → contains s (restricted_display (record m { display = d }) rule) ≡ shown_spec m rule s
unfolding restricted_display shown_spec
restricted_by Displayed.answer_set m rule s h = recomputed m.atoms m.terms rule s
restricted_by (Displayed.unrestricted d) m rule s h =
    ground (arith, contains-retain (λ x. contains x m.terms || shows rule x) d s, h s)
restricted_by (Displayed.restricted d) m rule s h = recomputed m.atoms m.terms rule s

-- The stored symbols under `unrestrict`, where no rule restricts.
shown-unrestrict :
    (m : Model) (s : Symbol)
    → contains s (shown (unrestrict m)) ≡ (contains s m.atoms || contains s m.terms)
unfolding shown unrestrict
shown-unrestrict m s = elim (Bool-cases (is_subset m.terms m.atoms)) [
  | inl e ↦ rw (e, shown) (ground (arith, (is_subset_iff m.terms m.atoms).0 e s))
  | inr e ↦ rw (e, shown) (contains-extend m.atoms m.terms s)
]

shown_all :
    (d : Displayed) (m : Model) (s : Symbol)
    → Stored d m.atoms m.terms
    → contains s (shown (displayed_all (record m { display = d })))
      ≡ (contains s m.atoms || contains s m.terms)
unfolding displayed_all
shown_all Displayed.answer_set m s h = answer_set_shows m s h
shown_all (Displayed.unrestricted d) m s h = unrestricted_shows d m s h
shown_all (Displayed.restricted d) m s h = shown-unrestrict m s

shown_some :
    (m : Model) (rule : ShowRule) → shown (displayed_some m rule) ≡ restricted_display m rule
unfolding displayed_some shown
shown_some m rule = elim (Bool-cases (same_set (restricted_display m rule) m.atoms)) [
  | inl e ↦ rw (e, shown) (sym (same_set_sound (restricted_display m rule) m.atoms e))
  | inr e ↦ rw (e, shown)
]

shown-displayed_stored :
    (m : Model) (rule : ShowRule) (s : Symbol)
    → IsStored m
    → contains s (shown (displayed m rule)) ≡ shown_spec m rule s
unfolding displayed
shown-displayed_stored m rule s h = elim (Bool-cases (shows_every_atom rule)) [
  | inl e ↦ rw e (shown_all m.display m s h ∙ every_atom m rule s e)
  | inr e ↦ rw e (ap (contains s) (shown_some m rule) ∙ restricted_by m.display m rule s h)
]

some-IsStored : (m : Model) (rule : ShowRule) → IsStored m → IsStored (displayed_some m rule)
unfolding displayed_some
some-IsStored m rule h = elim (Bool-cases (same_set (restricted_display m rule) m.atoms)) [
  | inl e ↦
      let same = same_set_sound (restricted_display m rule) m.atoms e in
      rw e (λ s t.
        ap (contains s) (sym same) ∙ restricted_by m.display m rule s h ∙ term_shown m rule s t)
  | inr e ↦ rw e tt
]

all-IsStored :
    (d : Displayed) (m : Model)
    → Stored d m.atoms m.terms
    → IsStored (displayed_all (record m { display = d }))
unfolding displayed_all
all-IsStored Displayed.answer_set m h = h
all-IsStored (Displayed.unrestricted d) m h = h
all-IsStored (Displayed.restricted d) m h = unrestrict-IsStored m

displayed-IsStored : (m : Model) (rule : ShowRule) → IsStored m → IsStored (displayed m rule)
unfolding displayed
displayed-IsStored m rule h = elim (Bool-cases (shows_every_atom rule)) [
  | inl e ↦ rw e (all-IsStored m.display m h)
  | inr e ↦ rw e (some-IsStored m rule h)
]

-- The models that the doors of the type build.
pub data Built : Model → Type 0 where
  of : (atoms : AnswerSet) → Built (model_of atoms)
  terms : (m : Model) (ts : List Symbol) → Built m → Built (with_terms m ts)
  display : (m : Model) (rule : ShowRule) → Built m → Built (displayed m rule)

Built-IsStored : {m : Model} → Built m → IsStored m
unfolding with_terms
Built-IsStored (of atoms) = model_of-IsStored atoms
Built-IsStored (terms m ts b) = unrestrict-IsStored (record m { terms = extend [] ts })
Built-IsStored (display m rule b) = displayed-IsStored m rule (Built-IsStored b)

-- However a model was built and displayed before, under a rule it displays exactly its terms and
-- those of its atoms that the rule shows.
pub shown-displayed :
    (m : Model) (rule : ShowRule) (s : Symbol)
    → Built m
    → contains s (shown (displayed m rule)) ≡ shown_spec m rule s
shown-displayed m rule s b = shown-displayed_stored m rule s (Built-IsStored b)

-- ===== src/Solve/Live.antt =====
-- The live run behind a search's handle (crates/themelios-solve/src/outcome.rs). The engine's run
-- is outside the repository: it is a parameter, a state with its `next_model` and `conclusion`.
pub mod Drain
pub mod Forfeit
pub mod Gate
pub mod Parked
pub use themelios.Prelude.{Result, ok, err}
use themelios.Prelude.{
  ℕ, zero, suc, Bool, true, false, if◌then◌else◌, List, [], ◌∷◌, ◌++◌, Option, none, some, ◌≡◌,
  is_none,
}
use themelios.Program.Symbol.{Symbol}
use themelios.Solve.Conclusion.{Conclusion, exhausted, Truncation, truncation_of}
use themelios.Solve.Contract.{Vocabulary, Fault, adapter_bug}
use themelios.Solve.Model.{Model, ShowRule, displayed}

pub record Assumption : Type 0 where
  pub atom : Symbol
  pub holds : Bool

abbrev pub Scenario : Type 0
Scenario = List Assumption

-- `trait Run`.
pub record Run (V : Vocabulary) : Type 1 where
  pub State : Type 0
  pub next_model : State → State × Option (Result Model (Fault V))
  pub conclusion : State → Option Conclusion

pub data DrainState : Type 0 where
  fresh touched : DrainState

pub data Class (V : Vocabulary) : Type 0 where
  consistent inconsistent : Class V
  inconclusive : Truncation → Class V
  faulted : Fault V → Class V

pub data NotExhausted (V : Vocabulary) : Type 0 where
  taken : NotExhausted V
  unclosed : Truncation → NotExhausted V
  faulted : Fault V → NotExhausted V

pub record LiveRun (V : Vocabulary) (S : Type 0) : Type 0 where
  pub current : S
  pub scenario : Scenario
  pub lookahead : Option (Result Model (Fault V))
  pub drain : DrainState
  pub witnessed : Bool
  pub faulted : Option (Fault V)
  pub show : ShowRule

abbrev pub Item : Vocabulary → Type 0
Item V = Result Model (Fault V)

module _ {V : Vocabulary} where
  unfoldable pub unconcluded : Fault V
  unconcluded = adapter_bug "the search ended without concluding, against the run protocol"

  -- `get_or_insert_with`.
  abbrev pub or_insert : Option (Fault V) → Fault V → Option (Fault V)
  or_insert none f = some f
  or_insert (some g) f = some g

  abbrev pub display_item : ShowRule → Item V → Item V
  display_item show (ok m) = ok (displayed m show)
  display_item show (err f) = err f

module _ {V : Vocabulary} (run : Run V) where
  open run use {State, next_model}

  -- `Solved::running`.
  unfoldable pub running : State → Scenario → ShowRule → LiveRun V State
  running s scenario show = record {
    current = s;
    scenario = scenario;
    lookahead = none;
    drain = DrainState.fresh;
    witnessed = false;
    faulted = none;
    show = show;
  }

  -- What `pull` records of the item that the run answered.
  unfoldable pub record_item : LiveRun V State → Option (Item V) → LiveRun V State
  record_item l (some (ok m)) = record l { witnessed = true }
  record_item l (some (err f)) = record l { faulted = or_insert l.faulted f }
  record_item l none = elim l.faulted [
    | some _ ↦ l
    | none ↦ elim (run.conclusion l.current) [
      | none ↦ record l { faulted = some unconcluded }
      | some _ ↦ l
    ]
  ]

  abbrev pub shown_item : ShowRule → Option (Item V) → Option (Item V)
  shown_item show none = none
  shown_item show (some item) = some (display_item show item)

  unfoldable pub after_pull :
      LiveRun V State → State × Option (Item V) → LiveRun V State × Option (Item V)
  after_pull l (s, item) = (record_item (record l { current = s }) item, shown_item l.show item)

  unfoldable pub pull : LiveRun V State → LiveRun V State × Option (Item V)
  pull l = after_pull l (next_model l.current)

  -- By the parked item, which `next` takes.
  abbrev pub next_from : LiveRun V State → Option (Item V) → LiveRun V State × Option (Item V)
  next_from l (some peeked) = (record l { lookahead = none }, some peeked)
  next_from l none = pull l

  unfoldable pub next : LiveRun V State → LiveRun V State × Option (Item V)
  next l = next_from l l.lookahead

  unfoldable pub stream_next : LiveRun V State → LiveRun V State × Option (Item V)
  stream_next l = next (record l { drain = DrainState.touched })

  unfoldable pub conclusion : LiveRun V State → Option Conclusion
  conclusion l = elim l.faulted [ some _ ↦ none | none ↦ run.conclusion l.current ]

  -- A clean end, by the conclusion read there.
  unfoldable pub class_of : Option Conclusion → Class V
  class_of (some c) = elim (truncation_of c) [
    | none ↦ Class.inconsistent
    | some t ↦ Class.inconclusive t
  ]
  class_of none = Class.faulted unconcluded

  -- The reading of a handle that has something to read: a model seen, then a fault remembered.
  unfoldable pub class_seen : LiveRun V State → Class V
  unfolding class_of conclusion
  class_seen l =
      if l.witnessed
      then Class.consistent
      else elim l.faulted [ some f ↦ Class.faulted f | none ↦ class_of (conclusion l) ]

  abbrev pub park : LiveRun V State × Option (Item V) → LiveRun V State
  park (l, item) = record l { lookahead = item }

  -- `if self.lookahead.is_none() { self.lookahead = self.pull() }`.
  abbrev pub peek_from : LiveRun V State → Option (Item V) → LiveRun V State
  peek_from l (some _) = l
  peek_from l none = park (pull l)

  unfoldable pub peek : LiveRun V State → LiveRun V State
  peek l = peek_from l l.lookahead

  unfoldable pub classify : LiveRun V State → LiveRun V State × Class V
  classify l =
      if l.witnessed
      then (l, Class.consistent)
      else elim l.faulted [ some f ↦ (l, Class.faulted f) | none ↦ (peek l, class_seen (peek l)) ]

  -- What a drain answers at the run's end.
  unfoldable pub drain_end : LiveRun V State → Result (Unit {0}) (NotExhausted V)
  unfolding conclusion
  drain_end l = elim l.faulted [
    | some f ↦ err (NotExhausted.faulted f)
    | none ↦ elim (conclusion l) [
      | none ↦ err (NotExhausted.faulted unconcluded)
      | some c ↦ elim (truncation_of c) [ none ↦ ok tt | some t ↦ err (NotExhausted.unclosed t) ]
    ]
  ]

  -- One round of the loop of `drain_each`, over the handle and the item that `next` answered:
  -- `each` updates the caller's accumulator, and `more` is the rest of the loop.
  unfoldable pub drain_item {ℓ} :
      {B : Type ℓ} (each : B → Model → B)
      (more : LiveRun V State
        → B
        → Option (LiveRun V State × B × Result (Unit {0}) (NotExhausted V)))
      (acc : B)
      → LiveRun V State × Option (Item V)
      → Option (LiveRun V State × B × Result (Unit {0}) (NotExhausted V))
  drain_item each more acc (l, some (ok m)) = more l (each acc m)
  drain_item each more acc (l, some (err f)) =
      some (record l { drain = DrainState.touched }, acc, err (NotExhausted.faulted f))
  drain_item each more acc (l, none) =
      let ended = record l { drain = DrainState.touched } in some (ended, acc, drain_end ended)

  -- `none` says that the fuel ran out, as it does on a run that does not end.
  unfoldable pub drain_loop {ℓ} :
      {B : Type ℓ} (each : B → Model → B) (fuel : ℕ) (l : LiveRun V State) (acc : B)
      → Option (LiveRun V State × B × Result (Unit {0}) (NotExhausted V))
  drain_loop each zero l acc = none
  drain_loop each (suc fuel) l acc = drain_item each (drain_loop each fuel) acc (next l)

  unfoldable pub drain_each {ℓ} :
      {B : Type ℓ} (each : B → Model → B) (fuel : ℕ) (l : LiveRun V State) (acc : B)
      → Option (LiveRun V State × B × Result (Unit {0}) (NotExhausted V))
  drain_each each fuel l acc = elim l.faulted [
    | some f ↦ some (l, acc, err (NotExhausted.faulted f))
    | none ↦ elim l.drain [
      | DrainState.touched ↦ some (l, acc, err NotExhausted.taken)
      | DrainState.fresh ↦ drain_loop each fuel l acc
    ]
  ]

  -- `all_models` and `all_members`, by `drain_complete`: the models in their order, or the refusal.
  unfoldable pub drain_complete :
      ℕ → LiveRun V State → Option (LiveRun V State × Result (List Model) (NotExhausted V))
  drain_complete fuel l = elim (drain_each (λ all m. all ++ m ∷ []) fuel l []) [
    | none ↦ none
    | some (l', all, ok _) ↦ some (l', ok all)
    | some (l', all, err refusal) ↦ some (l', err refusal)
  ]

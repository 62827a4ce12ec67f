-- ===== src/Query/Readings.antt =====
-- The readings of a snapshot.
use themelios.Prelude.{
  ℕ, ◌*◌, ◌≤◌, ◌≡◌, refl, ap, ap₂, sym, ◌∙◌, Bool, true, false, ◌&&◌, if◌then◌else◌, List, [], ◌∷◌,
  map, Option, none, some, all, any, arith, Bool-cases, inl, inr,
}
use themelios.Prelude.Sets.{contains}
use themelios.Program.Symbol.{
  Symbol, function, infimum, number, string, tuple, supremum, positive, negative,
}
use themelios.Program.Symbol.Total.{symbol_ord}
use themelios.Solve.Contract.{cautious}
use themelios.Solve.Model.{AnswerSet, Model, clashes, is_consistent, is_literal}
use themelios.Solve.Live.{Scenario}
use themelios.Solve.Consequences.{Consequences, fold}
use themelios.Solve.Consequences.Folds.{contains-fold}
use themelios.Query.{
  Query, literal, Truth, literal_truth, contrary, Answer, note, settle, answer_loop, Snapshot,
  answer,
}
use themelios.Query.Value.{value, nodes, truth_in-eq-value}

abbrev pub is_true : Truth → Bool
is_true Truth.yes = true
is_true _ = false

abbrev pub is_false : Truth → Bool
is_false Truth.no = true
is_false _ = false

-- Yes where the query is true in every member, no where it is false in every one, else unknown.
abbrev pub reading : Query → List Model → Answer
reading q ms =
    if all (λ m. is_true (value m.atoms q)) ms
    then Answer.yes
    else if all (λ m. is_false (value m.atoms q)) ms
    then Answer.no
    else Answer.unknown

noted :
    (v : Truth) (t f : Bool) (ms : List Model) (fuel : ℕ) (q : Query)
    → ((t' f' : Bool)
        → answer_loop fuel q ms (t', f')
          ≡ some (
              settle (
                t' && all (λ m. is_true (value m.atoms q)) ms,
                f' && all (λ m. is_false (value m.atoms q)) ms,
              )))
    → answer_loop fuel q ms (note v (t, f))
      ≡ some (
          settle (
            t && (is_true v && all (λ m. is_true (value m.atoms q)) ms),
            f && (is_false v && all (λ m. is_false (value m.atoms q)) ms),
          ))
noted Truth.yes t f ms fuel q rest = rest t false ∙ ground arith
noted Truth.no t f ms fuel q rest = rest false f ∙ ground arith
noted Truth.unknown t f ms fuel q rest = rest false false ∙ ground arith

abbrev on_truth : ℕ → Query → List Model → Bool × Bool → Option Truth → Option Answer
on_truth fuel q ms seen none = none
on_truth fuel q ms seen (some truth) = answer_loop fuel q ms (note truth seen)

answer_loop_lem :
    (fuel : ℕ) (q : Query) (ms : List Model) (t f : Bool)
    → 2 * nodes q ≤ fuel
    → answer_loop fuel q ms (t, f)
      ≡ some (
          settle (
            t && all (λ m. is_true (value m.atoms q)) ms,
            f && all (λ m. is_false (value m.atoms q)) ms,
          ))
unfolding answer_loop
answer_loop_lem fuel q [] t f h = ground arith
answer_loop_lem fuel q (m ∷ ms) t f h =
    ap (on_truth fuel q ms (t, f)) (truth_in-eq-value fuel q m.atoms h)
    ∙ noted (value m.atoms q) t f ms fuel q (λ t' f'. answer_loop_lem fuel q ms t' f' h)

-- With twice as much fuel for each member as the query has nodes, a snapshot answers yes where the
-- query is true in every member, no where it is not and is false in every member, and unknown
-- otherwise.
pub answer-eq-reading :
    (fuel : ℕ) (snapshot : Snapshot) (q : Query)
    → 2 * nodes q ≤ fuel
    → answer fuel snapshot q ≡ some (reading q snapshot.members)
unfolding answer
answer-eq-reading fuel snapshot q h = answer_loop_lem fuel q snapshot.members true true h

any_of_contains :
    (p : Symbol → Bool) (s : Symbol) (atoms : AnswerSet)
    → contains s atoms ≡ true
    → p s ≡ true
    → any p atoms ≡ true
unfolding contains
any_of_contains p s [] m h = cc
any_of_contains p s (x ∷ xs) m h = ground (arith, any_of_contains p s xs, symbol_ord.eq_of_cmp s x)

no_clash :
    (m : Model) (s : Symbol)
    → is_consistent m ≡ true
    → contains s m.atoms ≡ true
    → clashes m.atoms s ≡ false
unfolding is_consistent
no_clash m s ok_ here = ground (arith, any_of_contains (clashes m.atoms) s m.atoms here)

-- A consistent member that holds a literal does not hold its contrary.
no_contrary :
    (m : Model) (s : Symbol)
    → is_literal s ≡ true
    → is_consistent m ≡ true
    → contains s m.atoms ≡ true
    → contains (contrary s) m.atoms ≡ false
unfolding contrary
no_contrary m (function n args positive) lit ok_ here =
    elim (Bool-cases (contains (function n args negative) m.atoms)) [
      | inl there ↦ absurd (ground (arith, no_clash m (function n args negative) ok_ there))
      | inr absent ↦ absent
    ]
no_contrary m (function n args negative) lit ok_ here =
    no_clash m (function n args negative) ok_ here
no_contrary m infimum lit ok_ here = cc
no_contrary m (number z) lit ok_ here = cc
no_contrary m (string t) lit ok_ here = cc
no_contrary m (tuple xs) lit ok_ here = cc
no_contrary m supremum lit ok_ here = cc

literal-is_true :
    (m : Model) (s : Symbol) → is_true (value m.atoms (literal s)) ≡ contains s m.atoms
unfolding value literal_truth
literal-is_true m s = ground arith

literal-is_false :
    (m : Model) (s : Symbol)
    → is_literal s ≡ true
    → is_consistent m ≡ true
    → is_false (value m.atoms (literal s)) ≡ contains (contrary s) m.atoms
unfolding value literal_truth
literal-is_false m s lit ok_ = ground (arith, no_contrary m s lit ok_)

every_true :
    (s : Symbol) (ms : List Model)
    → all (λ m. is_true (value m.atoms (literal s))) ms ≡ all (contains s) (map (λ m. m.atoms) ms)
every_true s [] = refl
every_true s (m ∷ ms) = ap₂ ◌&&◌ (literal-is_true m s) (every_true s ms)

every_false :
    (s : Symbol) (ms : List Model)
    → is_literal s ≡ true
    → all is_consistent ms ≡ true
    → all (λ m. is_false (value m.atoms (literal s))) ms
      ≡ all (contains (contrary s)) (map (λ m. m.atoms) ms)
every_false s [] lit h = refl
every_false s (m ∷ ms) lit h =
    ap₂ ◌&&◌ (literal-is_false m s lit (ground arith)) (every_false s ms lit (ground arith))

one_node : (s : Symbol) → nodes (literal s) ≡ 1
unfolding nodes
one_node s = refl

-- On a snapshot of consistent members, at least one, a literal is answered by the cautious
-- consequences: yes where they hold the literal, no where they hold its contrary and not the
-- literal, and unknown otherwise.
pub answer-cautious :
    (fuel : ℕ) (m : Model) (ms : List Model) (scenario : Scenario) (s : Symbol)
    → 2 ≤ fuel
    → is_literal s ≡ true
    → all is_consistent (m ∷ ms) ≡ true
    → (c : Consequences) × (fold cautious (map (λ z. z.atoms) (m ∷ ms)) ≡ some c)
      × (answer fuel (record { members = m ∷ ms; scenario = scenario }) (literal s)
          ≡ some (
              if contains s c.symbols
              then Answer.yes
              else if contains (contrary s) c.symbols
              then Answer.no
              else Answer.unknown))
answer-cautious fuel m ms scenario s enough lit proper =
    let (c, folded, _, holds) = contains-fold cautious m.atoms (map (λ z. z.atoms) ms) in
    (
      c,
      folded,
      answer-eq-reading fuel (record { members = m ∷ ms; scenario = scenario }) (literal s)
            (omega (arith, one_node s))
          ∙ ap₂ (λ a b. some (if a then Answer.yes else if b then Answer.no else Answer.unknown))
              (every_true s (m ∷ ms) ∙ sym (holds s))
              (every_false s (m ∷ ms) lit proper ∙ sym (holds (contrary s))),
    )

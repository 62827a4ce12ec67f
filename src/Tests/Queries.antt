-- ===== src/Tests/Queries.antt =====
-- The readings of queries over two members.
use themelios.Prelude.{◌&&◌, [], ◌∷◌, some, ◌≡◌, refl, arith, map, true, if◌then◌else◌}
use themelios.Prelude.Sets.{contains}
use themelios.Program.Symbol.Total.{symbol_ord}
use themelios.Solve.Contract.{cautious}
use themelios.Solve.Model.{is_consistent}
use themelios.Solve.Consequences.{Consequences, fold}
use themelios.Query.{
  Query, literal, conjunction, nil, cons, Answer, Snapshot, answer, truth_in, contrary,
}
use themelios.Query.Value.{value, nodes, truth_in-eq-value}
use themelios.Query.Readings.{reading, answer-eq-reading, answer-cautious}
use themelios.Tests.Data.{p, q_one, with_p, with_both}

abbrev both : Query
both = conjunction (cons (literal p) (cons (literal q_one) nil))

abbrev world : Snapshot
world = record { members = with_p ∷ with_both ∷ []; scenario = [] }

truth_in-eq-value_example : truth_in 6 both (p ∷ []) ≡ some (value (p ∷ []) both)
unfolding nodes
truth_in-eq-value_example = truth_in-eq-value 6 both (p ∷ []) (omega arith)

answer-eq-reading_example : answer 6 world both ≡ some (reading both world.members)
unfolding nodes
answer-eq-reading_example = answer-eq-reading 6 world both (omega arith)

proper : (is_consistent with_p && (is_consistent with_both && true)) ≡ true
unfolding is_consistent
proper = refl

answer-cautious_example :
    (c : Consequences) × (fold cautious (map (λ z. z.atoms) (with_p ∷ with_both ∷ [])) ≡ some c)
    × (answer 2 world (literal p)
        ≡ some (
            if contains p c.symbols
            then Answer.yes
            else if contains (contrary p) c.symbols
            then Answer.no
            else Answer.unknown))
answer-cautious_example = answer-cautious 2 with_p (with_both ∷ []) [] p (omega arith) refl proper

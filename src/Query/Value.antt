-- ===== src/Query/Value.antt =====
-- The truth of a query within one member, by recursion on the query, and the iterative walk.
use themelios.Prelude.{
  ℕ, suc, ◌+◌, ◌*◌, ◌-◌, ◌≤◌, ◌≡◌, refl, ap, sym, ◌∙◌, Bool, true, false, List, [], ◌∷◌, some,
  arith,
}
use themelios.Solve.Model.{AnswerSet}
use themelios.Query.{
  Query, literal, conjunction, disjunction, Queries, nil, cons, Truth, literal_truth, Frame, reads,
  folds, identity, combine, walk, truth_in, go_on, enter,
}

unfoldable mutual
  -- A literal's truth, the weakest of a conjunction's parts, the strongest of a disjunction's.
  pub value : AnswerSet → Query → Truth
  value member (literal s) = literal_truth s member
  value member (conjunction parts) = values member true parts
  value member (disjunction parts) = values member false parts

  pub values : AnswerSet → Bool → Queries → Truth
  values member meets nil = identity meets
  values member meets (cons part rest) =
      combine meets (value member part) (values member meets rest)

unfoldable mutual
  pub nodes : Query → ℕ
  nodes (literal s) = 1
  nodes (conjunction parts) = suc (nodes_all parts)
  nodes (disjunction parts) = suc (nodes_all parts)

  pub nodes_all : Queries → ℕ
  nodes_all nil = 0
  nodes_all (cons part rest) = nodes part + nodes_all rest

mutual
  -- The fuel of a walk through the query that leaves `n`.
  before : Query → ℕ → ℕ
  before (literal s) n = suc n
  before (conjunction parts) n = suc (before_all parts n)
  before (disjunction parts) n = suc (before_all parts n)

  before_all : Queries → ℕ → ℕ
  before_all nil n = n
  before_all (cons part rest) n = before part (suc (before_all rest n))

combine_assoc :
    (m : Bool) (t u v : Truth) → combine m (combine m t u) v ≡ combine m t (combine m u v)
combine_assoc m t u v = ground arith

combine-identity : (m : Bool) (t : Truth) → combine m t (identity m) ≡ t
combine-identity m t = ground arith

combine-identity_left : (m : Bool) (t : Truth) → combine m (identity m) t ≡ t
combine-identity_left m t = ground arith

mutual
  unfolding before nodes

  before_lem : (q : Query) (n : ℕ) → suc (before q n) ≡ 2 * nodes q + n
  before_lem (literal s) n = omega arith
  before_lem (conjunction parts) n = omega (arith, before_all_lem parts n)
  before_lem (disjunction parts) n = omega (arith, before_all_lem parts n)

  before_all_lem : (qs : Queries) (n : ℕ) → before_all qs n ≡ 2 * nodes_all qs + n
  before_all_lem nil n = omega arith
  before_all_lem (cons part rest) n =
      omega (arith, before_lem part (suc (before_all rest n)), before_all_lem rest n)

mutual
  unfolding before value walk

  walk_query :
      (member : AnswerSet) (q : Query) (open_ : List Frame) (n : ℕ)
      → walk member (before q n) (reads q) open_ ≡ walk member n (folds (value member q)) open_
  walk_query member (literal s) open_ n = refl
  walk_query member (conjunction parts) open_ n = walk-enter member true parts open_ n
  walk_query member (disjunction parts) open_ n = walk-enter member false parts open_ n

  walk-enter :
      (member : AnswerSet) (m : Bool) (parts : Queries) (open_ : List Frame) (n : ℕ)
      → go_on (walk member (before_all parts n)) (enter m parts open_)
        ≡ walk member n (folds (values member m parts)) open_
  walk-enter member m nil open_ n = refl
  walk-enter member m (cons part rest) open_ n =
      walk_query member part _ (suc (before_all rest n))
      ∙ walk_rest member m (identity m) (value member part) rest open_ n
      ∙ ap (λ t. walk member n (folds (combine m t (values member m rest))) open_)
          (combine-identity_left m (value member part))

  walk_rest :
      (member : AnswerSet) (m : Bool) (t v : Truth) (rest : Queries) (open_ : List Frame) (n : ℕ)
      → walk member
          (suc (before_all rest n))
          (folds v)
          (record { meets = m; rest = rest; so_far = t } ∷ open_)
        ≡ walk member n (folds (combine m (combine m t v) (values member m rest))) open_
  walk_rest member m t v nil open_ n =
      ap (λ z. walk member n (folds z) open_) (sym (combine-identity m (combine m t v)))
  walk_rest member m t v (cons part rest) open_ n =
      walk_query member part _ (suc (before_all rest n))
      ∙ walk_rest member m (combine m t v) (value member part) rest open_ n
      ∙ ap (λ z. walk member n (folds z) open_)
          (combine_assoc m (combine m t v) (value member part) (values member m rest))

-- With twice as much fuel as the query has nodes, the iterative walk ends, and answers the truth
-- that the recursive reading gives the query in the member.
pub truth_in-eq-value :
    (fuel : ℕ) (q : Query) (member : AnswerSet)
    → 2 * nodes q ≤ fuel
    → truth_in fuel q member ≡ some (value member q)
unfolding truth_in walk
truth_in-eq-value fuel q member h =
    let e : fuel ≡ before q (suc (fuel - 2 * nodes q)) =
      omega (arith, before_lem q (suc (fuel - 2 * nodes q))) in
    ap (λ z. walk member z (reads q) []) e ∙ walk_query member q [] (suc (fuel - 2 * nodes q))

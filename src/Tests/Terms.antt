-- ===== src/Tests/Terms.antt =====
-- The work list and the order of symbols.
use themelios.Prelude.{ℕ, List, [], ◌∷◌, some, ◌≡◌, arith}
use themelios.Program.WorkList.{empty}
use themelios.Program.WorkList.Stack.{Op, pushes, pops, run, run_stack, run-empty}
use themelios.Program.Symbol.{cmp}
use themelios.Program.Symbol.Order.{order}
use themelios.Program.Symbol.Walk.{size, cmp-eq-order}
use themelios.Tests.Data.{q_one}

abbrev two_in_two_out : List (Op ℕ)
two_in_two_out = pushes 1 ∷ pushes 2 ∷ pops ∷ pops ∷ pops ∷ []

run-empty_example : run (empty 0) two_in_two_out ≡ run_stack [] two_in_two_out
run-empty_example = run-empty 0 two_in_two_out

cmp-eq-order_example : cmp 3 q_one q_one ≡ some (order q_one q_one)
unfolding size
cmp-eq-order_example = cmp-eq-order 3 q_one q_one (omega arith)

-- ===== src/Dataflow/Tests.antt =====
-- Runs of the solvers, and their theorems at concrete inputs.
use cfglib.Prelude.{
  Bool, elem, ℕ, zero, suc, ◌+◌, ◌<◌, ◌≤◌, ◌≡◌, ◌⊎◌, inl, inr, refl, List, [], ◌∷◌, true, false,
  min, max, get_elem?, ltb, ◌==◌, if◌then◌else◌, none, some, arith,
}
use cfglib.View.{View, against, neighbors, IsView}
use cfglib.Words.{set_bit, clear_bit, test_bit}
use cfglib.Dataflow.Bits
use cfglib.Dataflow.Bits.{DenseBits, bit_slot, slot, get, remove, merge, union_with}
use cfglib.Dataflow.Worklist
use cfglib.Dataflow.Worklist.{
  Worklist, insert_all, of, live, seeded, pop_first, search_from, take, trailing_zeros,
}
use cfglib.Dataflow.Worklist.Seeds.{all_live}
use cfglib.Dataflow.Solver.{
  forward, TryNodeProblem, Facts, at_entry, check_limit, facts_of, meet_all, meet_one, met_fact,
  or_boundary, program_order, record_output, run_loop, traversal, turn, try_solve_with_worklist,
  visit, try_solve_node_problem_with_config, try_solve_node_problem_from_with_config,
}
use cfglib.Dataflow.Blocks.{TryProblem, try_solve_problem_with_config}
use cfglib.Dataflow.Blocks.Reached.{Starts, block_flow, try_solve_problem-Solves}
use cfglib.Dataflow.Blocks.Infallible.{
  Problem, Concludes, solve_problem_with_config, solve_problem-Concludes,
}
use cfglib.Dataflow.Solver.Errors
use cfglib.Dataflow.Solver.Errors.{Answer, solved}
use cfglib.Dataflow.Solver.Meet.{Raises}
use cfglib.Dataflow.Solver.Equation.{flow}
use cfglib.Dataflow.Solver.Fixpoint.{
  Solves, NoEntry, try_solve_node_problem-Solves, try_solve_node_problem_from-Solves,
}
use cfglib.Dataflow.Solver.Infallible.{
  NodeProblem, Converges, facts, limited, collapse_infallible, infallible,
  solve_node_problem_with_config, solve_node_problem-Converges,
}
use cfglib.Dataflow.Solver.Least.{IsMonotone, flow_in, solve_node_problem-least}
use cfglib.Dataflow.Solver.Limit.{try_solve_node_problem_unlimited}

-- Two nodes that flow into each other.
abbrev other : ℕ → List ℕ
other zero = 1 ∷ []
other (suc zero) = 0 ∷ []
other (suc (suc n)) = []

abbrev pair : View
pair = record { node_bound = 2; node_ids = 0 ∷ 1 ∷ []; successors = other; predecessors = other }

other_below : (n k i : ℕ) → get_elem? (other n) k ≡ some i → i < 2
other_below zero k i at = ground arith
other_below (suc zero) k i at = ground arith
other_below (suc (suc n)) k i at = ground arith

other_converse : (n m : ℕ) → elem m (other n) ≡ elem n (other m)
other_converse zero zero = refl
other_converse zero (suc zero) = refl
other_converse zero (suc (suc m)) = ground arith
other_converse (suc zero) zero = refl
other_converse (suc zero) (suc zero) = refl
other_converse (suc zero) (suc (suc m)) = ground arith
other_converse (suc (suc n)) zero = ground arith
other_converse (suc (suc n)) (suc zero) = ground arith
other_converse (suc (suc n)) (suc (suc m)) = refl

pair-IsView : IsView pair
pair-IsView = record {
  ids_below = λ k i at. ground arith;
  successors_below = other_below;
  predecessors_below = other_below;
  converse = other_converse;
}

-- A count that every step raises, up to 3.
abbrev raise : NodeProblem ℕ
raise = record {
  direction = forward;
  bottom = 0;
  boundary = 1;
  meet = max;
  transfer = λ node fact. min 3 (fact + 1);
  same = ◌==◌;
}

abbrev level : Facts ℕ
level = record { input = 3 ∷ 3 ∷ []; output = 3 ∷ 3 ∷ []; steps = 5 }

raised : solve_node_problem_with_config pair raise 9 (some 8) ≡ facts level
unfolding solve_node_problem_with_config collapse_infallible try_solve_node_problem_with_config live
    of insert_all Worklist.insert Bits.insert slot Worklist.new Bits.new bit_slot
    try_solve_with_worklist infallible run_loop pop_first search_from set_bit remove against
    at_entry check_limit facts_of meet_all meet_one met_fact neighbors or_boundary program_order
    record_output traversal turn visit take trailing_zeros clear_bit test_bit
raised = refl

raised_not :
    solve_node_problem_with_config pair raise 4 (some 3)
    ≡ limited (Errors.step_limit_exceeded 3 3 1)
unfolding solve_node_problem_with_config collapse_infallible try_solve_node_problem_with_config live
    of insert_all Worklist.insert Bits.insert slot Worklist.new Bits.new bit_slot
    try_solve_with_worklist infallible run_loop pop_first search_from set_bit remove against
    at_entry check_limit facts_of meet_all meet_one met_fact neighbors or_boundary program_order
    record_output traversal turn visit take trailing_zeros clear_bit test_bit
raised_not = refl

-- Node 0 raises and node 1 refuses what is above 2.
abbrev strict : TryNodeProblem ℕ ℕ
strict = record {
  direction = forward;
  bottom = 0;
  boundary = inr 1;
  meet = λ node a b. inr (max a b);
  transfer = λ node fact. if ltb 2 fact then inl fact else inr (fact + 1);
  same = ◌==◌;
}

try_solve_node_problem-Solves_example :
    Solves pair
      (flow pair strict NoEntry)
      strict.boundary
      (Raises strict.boundary strict.meet strict.transfer)
      8
      (λ k. elem k (0 ∷ 1 ∷ []))
      (try_solve_node_problem_with_config pair strict 9 (some 8))
try_solve_node_problem-Solves_example = try_solve_node_problem-Solves pair pair-IsView strict 8

try_solve_node_problem_from-Solves_example :
    (all_live (0 ∷ 1 ∷ []) (1 ∷ []) ≡ true)
      × Solves pair
          (flow pair (infallible raise) NoEntry)
          (infallible raise).boundary
          (Raises (infallible raise).boundary (infallible raise).meet (infallible raise).transfer)
          8
          (λ k. elem k (1 ∷ []))
          (try_solve_node_problem_from_with_config pair (infallible raise) 9 (1 ∷ []) (some 8))
    ⊎ (all_live (0 ∷ 1 ∷ []) (1 ∷ []) ≡ false)
      × (try_solve_node_problem_from_with_config pair (infallible raise) 9 (1 ∷ []) (some 8)
          ≡ Errors.panicked)
try_solve_node_problem_from-Solves_example =
    try_solve_node_problem_from-Solves pair pair-IsView (infallible raise) 8 (1 ∷ [])

solve_node_problem-Converges_example :
    Converges pair pair-IsView raise 8 (solve_node_problem_with_config pair raise 9 (some 8))
solve_node_problem-Converges_example = solve_node_problem-Converges pair pair-IsView raise 8

try_level : try_solve_node_problem_with_config pair (infallible raise) 9 (some 8) ≡ solved level
unfolding try_solve_node_problem_with_config live of insert_all Worklist.insert Bits.insert slot
    Worklist.new Bits.new bit_slot try_solve_with_worklist infallible run_loop pop_first search_from
    set_bit remove against at_entry check_limit facts_of meet_all meet_one met_fact neighbors
    or_boundary program_order record_output traversal turn visit take trailing_zeros clear_bit
    test_bit
try_level = refl

try_solve_node_problem_unlimited_example :
    try_solve_node_problem_with_config pair (infallible raise) 9 none ≡ solved level
try_solve_node_problem_unlimited_example =
    try_solve_node_problem_unlimited pair (infallible raise) 9 8 level try_level

leaves : get_elem? ((program_order raise.direction level.input level.output).1) 0 ≡ some 3
unfolding program_order
leaves = refl

raise-IsMonotone : IsMonotone raise (λ a b. a ≤ b)
raise-IsMonotone = record {
  reflexive = λ a. omega arith;
  transitive = λ a b c h k. omega arith;
  least = λ a. omega arith;
  meet_monotone = λ a b c d h k. omega arith;
  transfer_monotone = λ k a b h. omega arith;
}

raise_below : (k : ℕ) → raise.transfer k (flow_in pair raise (λ j. 3) k) ≤ 3
raise_below k = omega arith

solve_node_problem-least_example : 3 ≤ 3
solve_node_problem-least_example =
    solve_node_problem-least pair raise (λ a b. a ≤ b) raise-IsMonotone (λ j. 3) raise_below 9
      (some 8) level raised 0 3 leaves

-- The same problem on blocks, from node 1.
abbrev strict_blocks : TryProblem ℕ ℕ
strict_blocks = record {
  direction = forward;
  bottom = 0;
  boundary = inr 1;
  meet = λ node a b. inr (max a b);
  transfer = λ node fact. if ltb 2 fact then inl fact else inr (fact + 1);
  same = ◌==◌;
}

try_solve_problem-Solves_example :
    (queued : ℕ → Bool) × Starts pair 1 forward queued
    × Solves pair
        (block_flow 1 strict_blocks)
        strict_blocks.boundary
        (Raises strict_blocks.boundary strict_blocks.meet strict_blocks.transfer)
        8
        queued
        (try_solve_problem_with_config pair 1 strict_blocks 9 (some 8))
try_solve_problem-Solves_example =
    try_solve_problem-Solves pair pair-IsView 1 (omega arith) strict_blocks 8

abbrev raise_blocks : Problem ℕ
raise_blocks = record {
  direction = forward;
  bottom = 0;
  boundary = 1;
  meet = max;
  transfer = λ block fact. min 3 (fact + 1);
  same = ◌==◌;
}

solve_problem-Concludes_example :
    (queued : ℕ → Bool) × Starts pair 1 forward queued
    × Concludes pair 1 raise_blocks queued 8
        (solve_problem_with_config pair 1 raise_blocks 9 (some 8))
solve_problem-Concludes_example =
    solve_problem-Concludes pair pair-IsView 1 raise_blocks 8 (omega arith)

-- ===== src/Dataflow/Blocks.antt =====
-- The block solver of crates/cfglib/src/dataflow/fixpoint.rs: the node solver on a rooted graph, from
-- the nodes that the root reaches when facts flow forward, and from all nodes when they flow backward.
pub mod Reached
pub mod Infallible
use cfglib.Prelude.{
  ℕ, zero, suc, ◌<◌, ◌≤◌, ◌≡◌, ◌⊎◌, ◌↔◌, ◌∙◌, refl, sym, subst, ap, inl, inr, List, [], ◌∷◌, Bool,
  true, false, get_elem?, elem, ◌==◌, if◌then◌else◌, Option, none, some, Result, ok, ◌>>=◌,
  Bool-cases, ==→≡, ≡→==, arith,
}
use cfglib.View.{View, TraversalDirection, outgoing, neighbors, IsView, neighbors_below}
use cfglib.Traverse.Preorder.{depth_first_preorder}
use cfglib.Traverse.Preorder.Complete.{depth_first_preorder-Reaches}
use cfglib.Traverse.Reach.{Reaches, at_seed, along}
use cfglib.Dataflow.Worklist.{Worklist, of, live, seeded}
use cfglib.Dataflow.Worklist.Queue.{of-Queued}
use cfglib.Dataflow.Solver.{
  Direction, forward, backward, traversal, TryNodeProblem, Facts, try_solve_with_worklist,
}
use cfglib.Dataflow.Solver.Errors.{Answer, lift}
use cfglib.Dataflow.Solver.Errors
use cfglib.Dataflow.Solver.Fixpoint.{Solves, try_solve_with_worklist-Solves}

-- `TryProblem` at a view, with the `==` of its facts.
pub record TryProblem {ℓ κ} (F : Type ℓ) (E : Type κ) : Type (ℓ ⊔ κ) where
  pub direction : Direction
  pub bottom : F
  pub boundary : E ⊎ F
  pub meet : ℕ → F → F → E ⊎ F
  pub transfer : ℕ → F → E ⊎ F
  pub same : F → F → Bool

-- `BlockProblem`
unfoldable pub block_problem {ℓ κ} : {F : Type ℓ} {E : Type κ} → TryProblem F E → TryNodeProblem F E
block_problem p = record {
  direction = p.direction;
  bottom = p.bottom;
  boundary = p.boundary;
  meet = p.meet;
  transfer = p.transfer;
  same = p.same;
}

unfoldable pub initial_worklist : View → ℕ → Direction → Result Worklist
initial_worklist view root forward =
    depth_first_preorder view root (traversal forward) >>= of view.node_bound
initial_worklist view root backward = live view.node_bound view.node_ids

-- `matches!(direction, Direction::Forward).then(|| view.root())`
unfoldable pub entry_of : Direction → ℕ → Option ℕ
entry_of forward root = some root
entry_of backward root = none

module _ {ℓ κ} {F : Type ℓ} {E : Type κ} (view : View) (root : ℕ) (p : TryProblem F E) where
  unfoldable pub solve_with_worklist : ℕ → Worklist → Option ℕ → Answer E (Facts F)
  solve_with_worklist fuel worklist limit =
      try_solve_with_worklist view (block_problem p) fuel worklist (entry_of p.direction root) limit

  unfoldable pub try_solve_problem_with_config : ℕ → Option ℕ → Answer E (Facts F)
  try_solve_problem_with_config fuel limit =
      Errors.◌>>=◌ (lift (initial_worklist view root p.direction))
        (λ worklist. solve_with_worklist fuel worklist limit)

  unfoldable pub try_solve_problem_from_with_config : ℕ → List ℕ → Option ℕ → Answer E (Facts F)
  try_solve_problem_from_with_config fuel seeds limit =
      Errors.◌>>=◌ (lift (seeded view.node_bound view.node_ids seeds))
        (λ worklist. solve_with_worklist fuel worklist limit)

  unfoldable pub try_solve_problem : ℕ → Answer E (Facts F)
  try_solve_problem fuel = try_solve_problem_with_config fuel none

  unfoldable pub try_solve_problem_from : ℕ → List ℕ → Answer E (Facts F)
  try_solve_problem_from fuel seeds = try_solve_problem_from_with_config fuel seeds none

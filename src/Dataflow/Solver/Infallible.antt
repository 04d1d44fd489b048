-- ===== src/Dataflow/Solver/Infallible.antt =====
-- The infallible problems of crates/cfglib/src/dataflow/node_fixpoint.rs, solved by the fallible core.
use cfglib.Prelude.{
  elem, ℕ, suc, ◌<◌, ◌≤◌, ◌≡◌, inl, inr, refl, subst, List, [], ◌∷◌, Bool, true, get_elem?, ◌==◌,
  Option, none, some, Bool-cases, ==→≡,
}
use cfglib.View.{View, IsView}
use cfglib.Dataflow.Solver.{
  Direction, program_order, TryNodeProblem, Facts, try_solve_node_problem_with_config,
  try_solve_node_problem_from_with_config,
}
use cfglib.Dataflow.Solver.Errors.{Answer, SolveError, problem, solver, step_limit_exceeded}
use cfglib.Dataflow.Solver.Equation.{Flow, Balances, flow, Balances-map}
use cfglib.Dataflow.Solver.Fixpoint
use cfglib.Dataflow.Solver.Fixpoint.{
  Solves, fixpoint, refused, NoEntry, try_solve_node_problem-Solves,
}

-- `NodeProblem` at a graph, with the `==` of its facts.
pub record NodeProblem {ℓ} (F : Type ℓ) : Type ℓ where
  pub direction : Direction
  pub bottom : F
  pub boundary : F
  pub meet : F → F → F
  pub transfer : ℕ → F → F
  pub same : F → F → Bool

-- `InfallibleNodeProblem`
unfoldable pub infallible {ℓ} : {F : Type ℓ} → NodeProblem F → TryNodeProblem F ⊥
infallible p = record {
  direction = p.direction;
  bottom = p.bottom;
  boundary = inr p.boundary;
  meet = λ node a b. inr (p.meet a b);
  transfer = λ node fact. inr (p.transfer node fact);
  same = p.same;
}

-- `Result<_, SolveError>`, with the ends that are no result.
pub data Reply {ℓ} (A : Type ℓ) : Type ℓ where
  facts : A → Reply A
  limited : SolveError → Reply A
  panicked : Reply A
  exhausted : Reply A

unfoldable pub collapse_infallible {ℓ} : {A : Type ℓ} → Answer ⊥ A → Reply A
collapse_infallible (Answer.solved a) = facts a
collapse_infallible (Answer.failed (solver e)) = limited e
collapse_infallible (Answer.failed (problem e)) = absurd e
collapse_infallible Answer.panicked = panicked
collapse_infallible Answer.exhausted = exhausted

module _ {ℓ} {F : Type ℓ} (view : View) (p : NodeProblem F) where
  unfoldable pub solve_node_problem_with_config : ℕ → Option ℕ → Reply (Facts F)
  solve_node_problem_with_config fuel limit =
      collapse_infallible (try_solve_node_problem_with_config view (infallible p) fuel limit)

  unfoldable pub solve_node_problem_from_with_config : ℕ → List ℕ → Option ℕ → Reply (Facts F)
  solve_node_problem_from_with_config fuel seeds limit =
      collapse_infallible
        (try_solve_node_problem_from_with_config view (infallible p) fuel seeds limit)

  unfoldable pub solve_node_problem : ℕ → Reply (Facts F)
  solve_node_problem fuel = solve_node_problem_with_config fuel none

  unfoldable pub solve_node_problem_from : ℕ → List ℕ → Reply (Facts F)
  solve_node_problem_from fuel seeds = solve_node_problem_from_with_config fuel seeds none

-- The problem of the consumer as relations, with no entry.
abbrev pub node_flow {ℓ} : {F : Type ℓ} → NodeProblem F → Flow {ℓ, ℓ} F
node_flow p = record {
  direction = p.direction;
  bottom = p.bottom;
  meets = λ k a b c. p.meet a b ≡ c;
  transfers = λ k met made. p.transfer k met ≡ made;
  same = p.same;
  entry = NoEntry;
}

module _ {ℓ} {F : Type ℓ} (view : View) (g : IsView view) (p : NodeProblem F) (limit : ℕ) where
  -- How the solve of an infallible problem under a step limit ends: every live node satisfies its
  -- equation, or the limit is met.
  pub data Converges (r : Reply (Facts F)) : Type ℓ where
    fixed :
        (out : Facts F)
        → r ≡ facts out
        → out.steps ≤ limit
        → ((k : ℕ) → elem k view.node_ids ≡ true → Balances view (node_flow p) p.boundary out k)
        → Converges r
    stopped :
        (node : ℕ)
        → node < view.node_bound
        → r ≡ limited (step_limit_exceeded limit limit node)
        → Converges r

  elem_below : (k : ℕ) → elem k view.node_ids ≡ true → k < view.node_bound
  elem_below k e = below view.node_ids g.ids_below e
    where
      below :
          (ids : List ℕ)
          → ((j i : ℕ) → get_elem? ids j ≡ some i → i < view.node_bound)
          → elem k ids ≡ true
          → k < view.node_bound
      below [] h e = absurd (cc (e))
      below (i ∷ ids) h e = elim (Bool-cases (i == k)) [
        | inl q ↦ subst (λ x. x < view.node_bound) (==→≡ i k q) (h 0 i refl)
        | inr q ↦ below ids (λ j x at. h (suc j) x at) (rw q at e)
      ]

  solved-Balances :
      (boundary : F) (out : Facts F) (k : ℕ)
      → boundary ≡ p.boundary
      → Balances view (flow view (infallible p) NoEntry) boundary out k
      → Balances view (node_flow p) p.boundary out k
  unfolding infallible
  solved-Balances boundary out k same b =
      subst (λ x. Balances view (node_flow p) x out k) same
        (Balances-map (flow view (infallible p) NoEntry) (λ k a b c. p.meet a b ≡ c)
          (λ k met made. p.transfer k met ≡ made) (λ k a b c e. cc (e)) (λ k a b e. cc (e)) view
          boundary out k b)

  -- On a graph whose nodes are below its bound and whose two axes walk the same edges and under a
  -- step limit, with fuel for one step more, solve_node_problem_with_config returns and does not
  -- panic: with facts after at most so many steps, where every live node satisfies its equation
  -- (its fact on the way in is the problem's meet of the facts that its sources have on the way
  -- out, or the boundary fact if it has no source; its fact on the way out is what the problem's
  -- transfer makes of that); or with the step limit and a pending node.
  pub solve_node_problem-Converges :
      Converges (solve_node_problem_with_config view p (suc limit) (some limit))
  unfolding solve_node_problem_with_config infallible collapse_infallible
  solve_node_problem-Converges = elim (try_solve_node_problem-Solves view g (infallible p) limit) [
    | fixpoint boundary out gives run bounded each ↦ fixed out (rw run refl) bounded (λ k known.
        elim (each k (elem_below k known)) [
          | inl settled ↦ solved-Balances boundary out k (cc (gives)) settled
          | inr idle ↦ absurd (cc (known, idle.unqueued))
        ])
    | refused e why run ↦ absurd e
    | cfglib.Dataflow.Solver.Fixpoint.stopped node inside run ↦ stopped node inside (rw run refl)
  ]

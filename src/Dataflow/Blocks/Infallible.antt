-- ===== src/Dataflow/Blocks/Infallible.antt =====
-- The infallible block problems of crates/cfglib/src/dataflow/fixpoint.rs, solved by the fallible core.
use cfglib.Prelude.{
  ℕ, suc, ◌<◌, ◌≤◌, ◌≡◌, ◌⊎◌, inl, inr, refl, subst, List, Bool, Option, some, none,
}
use cfglib.View.{View, IsView}
use cfglib.Dataflow.Solver.{Direction, forward, Facts}
use cfglib.Dataflow.Solver.Errors.{Answer, step_limit_exceeded}
use cfglib.Dataflow.Solver.Meet.{Raises}
use cfglib.Dataflow.Solver.Equation.{Flow, Balances, Idle, Balances-map}
use cfglib.Dataflow.Solver.Fixpoint.{Solves, fixpoint, refused, stopped}
use cfglib.Dataflow.Solver.Infallible.{Reply, facts, limited, collapse_infallible}
use cfglib.Dataflow.Blocks.{
  TryProblem, try_solve_problem_with_config, try_solve_problem_from_with_config,
}
use cfglib.Dataflow.Blocks.Reached.{Starts, block_flow, try_solve_problem-Solves}

-- `Problem` at a view, with the `==` of its facts.
pub record Problem {ℓ} (F : Type ℓ) : Type ℓ where
  pub direction : Direction
  pub bottom : F
  pub boundary : F
  pub meet : F → F → F
  pub transfer : ℕ → F → F
  pub same : F → F → Bool

-- `InfallibleProblem`
unfoldable pub infallible_problem {ℓ} : {F : Type ℓ} → Problem F → TryProblem F ⊥
infallible_problem p = record {
  direction = p.direction;
  bottom = p.bottom;
  boundary = inr p.boundary;
  meet = λ block a b. inr (p.meet a b);
  transfer = λ block fact. inr (p.transfer block fact);
  same = p.same;
}

module _ {ℓ} {F : Type ℓ} (view : View) (root : ℕ) (p : Problem F) where
  unfoldable pub solve_problem_with_config : ℕ → Option ℕ → Reply (Facts F)
  solve_problem_with_config fuel limit =
      collapse_infallible
        (try_solve_problem_with_config view root (infallible_problem p) fuel limit)

  unfoldable pub solve_problem_from_with_config : ℕ → List ℕ → Option ℕ → Reply (Facts F)
  solve_problem_from_with_config fuel seeds limit =
      collapse_infallible
        (try_solve_problem_from_with_config view root (infallible_problem p) fuel seeds limit)

  unfoldable pub solve_problem : ℕ → Reply (Facts F)
  solve_problem fuel = solve_problem_with_config fuel none

  unfoldable pub solve_problem_from : ℕ → List ℕ → Reply (Facts F)
  solve_problem_from fuel seeds = solve_problem_from_with_config fuel seeds none

-- The problem of the consumer as relations: the root is the entry when facts flow forward, and there
-- is none when they flow backward.
abbrev pub problem_flow {ℓ} : {F : Type ℓ} → ℕ → Problem F → Flow {ℓ, ℓ} F
problem_flow root p = record {
  direction = p.direction;
  bottom = p.bottom;
  meets = λ k a b c. p.meet a b ≡ c;
  transfers = λ k met made. p.transfer k met ≡ made;
  same = p.same;
  entry = λ k. (p.direction ≡ forward) × (k ≡ root);
}

module _ {ℓ} {F : Type ℓ} (view : View) (root : ℕ) (p : Problem F) (queued : ℕ → Bool)
    (limit : ℕ) where
  -- How a solve under a step limit ends, when the blocks with `queued` were queued at its start.
  pub data Concludes (r : Reply (Facts F)) : Type ℓ where
    balanced :
        (out : Facts F)
        → r ≡ facts out
        → out.steps ≤ limit
        → ((k : ℕ)
            → k < view.node_bound
            → Balances view (problem_flow root p) p.boundary out k
              ⊎ Idle (problem_flow root p) queued out k)
        → Concludes r
    exceeded :
        (node : ℕ)
        → node < view.node_bound
        → r ≡ limited (step_limit_exceeded limit limit node)
        → Concludes r

  solved-Balances :
      (boundary : F) (out : Facts F) (k : ℕ)
      → boundary ≡ p.boundary
      → Balances view (block_flow root (infallible_problem p)) boundary out k
      → Balances view (problem_flow root p) p.boundary out k
  unfolding infallible_problem
  solved-Balances boundary out k same b =
      subst (λ x. Balances view (problem_flow root p) x out k) same
        (Balances-map (block_flow root (infallible_problem p)) (λ k a b c. p.meet a b ≡ c)
          (λ k met made. p.transfer k met ≡ made) (λ k a b c e. cc (e)) (λ k a b e. cc (e)) view
          boundary out k b)

  solved-Idle :
      (out : Facts F) (k : ℕ)
      → Idle (block_flow root (infallible_problem p)) queued out k
      → Idle (problem_flow root p) queued out k
  unfolding infallible_problem
  solved-Idle out k u = record {
    unqueued = u.unqueued;
    input_at = u.input_at;
    output_at = u.output_at;
  }

  collapsed-Concludes :
      (r : Answer ⊥ (Facts F))
      → Solves view
          (block_flow root (infallible_problem p))
          (infallible_problem p).boundary
          (Raises
            (infallible_problem p).boundary
            (infallible_problem p).meet
            (infallible_problem p).transfer)
          limit
          queued
          r
      → Concludes (collapse_infallible r)
  unfolding collapse_infallible infallible_problem
  collapsed-Concludes r (fixpoint boundary out gives run bounded each) =
      balanced out (rw run refl) bounded (λ k below. elim (each k below) [
        | inl settled ↦ inl (solved-Balances boundary out k (cc (gives)) settled)
        | inr idle ↦ inr (solved-Idle out k idle)
      ])
  collapsed-Concludes r (refused e why run) = absurd e
  collapsed-Concludes r (stopped node inside run) = exceeded node inside (rw run refl)

-- On a graph whose nodes are below its bound and whose two axes walk the same edges, with its root
-- below the bound, the full solve of an infallible block problem under a step limit, with fuel for
-- one step more, returns and does not panic: with the step limit and a pending block, or with
-- facts after at most so many steps, where every block either satisfies its equation (its fact on
-- the way in is the problem's meet of the facts that its sources have on the way out, with the
-- boundary fact first at the root when facts flow forward, and the boundary fact if there is
-- nothing to meet; its fact on the way out is what the problem's transfer makes of that) or was
-- not queued at the start and still has the bottom fact. The blocks queued are those that the root
-- reaches when facts flow forward, and all live ones when they flow backward.
pub solve_problem-Concludes {ℓ} :
    {F : Type ℓ} (view : View) (g : IsView view) (root : ℕ) (p : Problem F) (limit : ℕ)
    → root < view.node_bound
    → (queued : ℕ → Bool) × Starts view root p.direction queued
      × Concludes view root p queued limit
          (solve_problem_with_config view root p (suc limit) (some limit))
unfolding solve_problem_with_config infallible_problem
solve_problem-Concludes view g root p limit rooted =
    let (queued, starts, solves) =
      try_solve_problem-Solves view g root rooted (infallible_problem p) limit in
    (
      queued,
      starts,
      collapsed-Concludes view root p queued limit
          (try_solve_problem_with_config view root (infallible_problem p) (suc limit) (some limit))
          solves,
    )

-- ===== src/Dataflow/Solver/Fixpoint.antt =====
-- What the solver of crates/cfglib/src/dataflow/node_fixpoint.rs answers under a step limit.
use cfglib.Prelude.{
  elem, ℕ, suc, ◌<◌, ◌≤◌, ◌≡◌, ◌⊎◌, ◌↔◌, refl, sym, subst, ◌∙◌, inl, inr, List, Bool, true, false,
  replicate, Option, none, some, arith, get_elem?-replicate, length-replicate,
}
use cfglib.View.{View, IsView}
use cfglib.Dataflow.Worklist.{Worklist, live}
use cfglib.Dataflow.Worklist.Queue.{IsWorklist, waits, bound, of-Queued}
use cfglib.Dataflow.Worklist.Seeds.{all_live, seeded-Queued}
use cfglib.Dataflow.Solver.{
  Direction, forward, backward, program_order, TryNodeProblem, Facts, State, check_limit, visit,
  turn, run_loop, facts_of, try_solve_with_worklist, try_solve_node_problem_with_config,
  try_solve_node_problem_from_with_config,
}
use cfglib.Dataflow.Solver.Errors.{
  Answer, solved, failed, panicked, problem, solver, step_limit_exceeded,
}
use cfglib.Dataflow.Solver.Equation.{
  Flow, Balances, Idle, entering, flow, entering-facts_of, leaving-facts_of, Settled-Balances,
  Untouched-Idle,
}
use cfglib.Dataflow.Solver.Meet.{Raises, boundary_fails}
use cfglib.Dataflow.Solver.Visit.{Settled, Untouched, Invariant, ⊎-cases}
use cfglib.Dataflow.Solver.Loop.{Ends, fixed, run_loop-Ends}

pub program_order-twice {ℓ} :
    {A : Type ℓ} (d : Direction) (a b : A)
    → program_order d ((program_order d a b).0) ((program_order d a b).1) ≡ (a, b)
unfolding program_order
program_order-twice forward a b = refl
program_order-twice backward a b = refl

module _ {ℓ κ} {F : Type ℓ} (view : View) (w : Flow {ℓ, κ} F) where
  -- How a solve ends, when the nodes with `queued` were queued at its start and `raises` are the errors
  -- that the consumer may return.
  pub data Solves {μ ν} {E : Type μ} (given : E ⊎ F) (raises : E → Type ν) (limit : ℕ)
      (queued : ℕ → Bool) (r : Answer E (Facts F)) : Type (ℓ ⊔ κ ⊔ μ ⊔ ν) where
    fixpoint :
        (boundary : F) (facts : Facts F)
        → given ≡ inr boundary
        → r ≡ solved facts
        → facts.steps ≤ limit
        → ((k : ℕ) → k < view.node_bound → Balances view w boundary facts k ⊎ Idle w queued facts k)
        → Solves given raises limit queued r
    refused : (e : E) → raises e → r ≡ failed (problem e) → Solves given raises limit queued r
    stopped :
        (node : ℕ)
        → node < view.node_bound
        → r ≡ failed (solver (step_limit_exceeded limit limit node))
        → Solves given raises limit queued r

module _ {ℓ κ} {F : Type ℓ} {E : Type κ} (view : View) (g : IsView view) (p : TryNodeProblem F E)
    (entry : Option ℕ) (limit : ℕ) (queued : ℕ → Bool) where
  abbrev start : Worklist → State F
  start w = record {
    input = replicate view.node_bound p.bottom;
    output = replicate view.node_bound p.bottom;
    worklist = w;
    steps = 0;
  }

  start-Invariant :
      (boundary : F) (w : Worklist)
      → IsWorklist w
      → bound w ≡ view.node_bound
      → ((k : ℕ) → waits w k ≡ queued k)
      → Invariant view g p boundary entry queued (start w)
  start-Invariant boundary w v same members = record {
    inputs = length-replicate view.node_bound p.bottom;
    outputs = length-replicate view.node_bound p.bottom;
    valid = v;
    bounded = same;
    settled = λ k below waiting. inr (record {
      unqueued = sym (members k) ∙ waiting;
      input_at = get_elem?-replicate view.node_bound p.bottom k below;
      output_at = get_elem?-replicate view.node_bound p.bottom k below;
    });
  }

  -- At the end every node satisfies its equation, or was never queued.
  module _ (entered : ℕ → Type 0) (enters : (k : ℕ) → (entry ≡ some k) ↔ entered k) where
    facts-Balances :
        (boundary : F) (t : State F)
        → Invariant view g p boundary entry queued t
        → ((j : ℕ) → waits t.worklist j ≡ false)
        → (k : ℕ) → k < view.node_bound
        → Balances view (flow view p entered) boundary (facts_of view p t) k
          ⊎ Idle (flow view p entered) queued (facts_of view p t) k
    facts-Balances boundary t v idle k below =
        let out = facts_of view p t in
        let i = sym (entering-facts_of view p t) in
        let o = sym (leaving-facts_of view p t) in
        elim (v.settled k below (idle k)) [
          | inl settled ↦ inl (
              Settled-Balances view p g boundary entry entered enters out k (
                subst (λ os. Settled view g p boundary entry (entering p.direction out) os k) o
                  (subst (λ is. Settled view g p boundary entry is t.output k) i settled)))
          | inr untouched ↦ inr (
              Untouched-Idle view p g boundary entry entered enters queued out k (
                subst
                  (λ os. Untouched view g p boundary entry queued (entering p.direction out) os k) o
                  (subst (λ is. Untouched view g p boundary entry queued is t.output k) i
                    untouched)))
        ]

  facts_steps : (t : State F) → (facts_of view p t).steps ≡ t.steps
  unfolding facts_of
  facts_steps t = refl

  pub try_solve_with_worklist-Solves :
      (entered : ℕ → Type 0)
      → ((k : ℕ) → (entry ≡ some k) ↔ entered k)
      → (w : Worklist) → IsWorklist w
      → bound w ≡ view.node_bound
      → ((k : ℕ) → waits w k ≡ queued k)
      → Solves view
          (flow view p entered)
          p.boundary
          (Raises p.boundary p.meet p.transfer)
          limit
          queued
          (try_solve_with_worklist view p (suc limit) w entry (some limit))
  unfolding try_solve_with_worklist
  try_solve_with_worklist-Solves entered enters w v same members = elim (⊎-cases p.boundary) [
    | inl (e, fails) ↦ refused e (boundary_fails fails) (rw fails)
    | inr (boundary, gives) ↦
        elim (run_loop-Ends view g p boundary entry limit queued (suc limit) (start w)
          (start-Invariant boundary w v same members) (omega arith) (omega arith)) [
            | fixed t run inv idle bounded ↦
                fixpoint boundary (facts_of view p t) gives (simp (gives, run) refl)
                  (omega (arith, facts_steps t, bounded))
                  (facts-Balances entered enters boundary t inv idle)
            | cfglib.Dataflow.Solver.Loop.refused e why run ↦ refused e why (simp (gives, run) refl)
            | cfglib.Dataflow.Solver.Loop.stopped node inside run ↦
                stopped node inside (simp (gives, run) refl)
          ]
  ]

-- No node is an entry.
abbrev pub NoEntry : ℕ → Type 0
NoEntry k = ⊥

none_enters : (k : ℕ) → (none ≡ some k) ↔ NoEntry k
none_enters k = ((λ q. absurd (cc (q))), (λ e. absurd e))

module _ {ℓ κ} {F : Type ℓ} {E : Type κ} (view : View) (g : IsView view) (p : TryNodeProblem F E)
    (limit : ℕ) where
  -- On a graph whose nodes are below its bound and whose two axes walk the same edges, and under a
  -- step limit, with fuel for one step more, try_solve_node_problem_with_config returns and does
  -- not panic: with facts after at most so many steps, where every node below the bound either
  -- satisfies its equation (its fact on the way in is the problem's meet, one after the other, of
  -- the facts that its sources have on the way out, or the boundary fact if it has no source; its
  -- fact on the way out is what the problem's transfer makes of that, up to the `==` of the facts)
  -- or is no live node and still has the bottom fact; or with an error that the problem's
  -- boundary, meet or transfer returns; or with the step limit and a pending node. The sources of
  -- a node are its predecessors when facts flow forward and its successors when they flow
  -- backward.
  pub try_solve_node_problem-Solves :
      Solves view
        (flow view p NoEntry)
        p.boundary
        (Raises p.boundary p.meet p.transfer)
        limit
        (λ k. elem k view.node_ids)
        (try_solve_node_problem_with_config view p (suc limit) (some limit))
  unfolding try_solve_node_problem_with_config live
  try_solve_node_problem-Solves =
      let (w, run, valid, same, members) = of-Queued view.node_bound view.node_ids g.ids_below in
      rw run (
        try_solve_with_worklist-Solves view g p none limit (λ k. elem k view.node_ids) NoEntry
          none_enters w valid same members)

  -- On a graph whose nodes are below its bound and whose two axes walk the same edges and under a
  -- step limit the solve from seeds panics when a seed is no live node; otherwise it ends as the
  -- solve of all nodes does, where the nodes that still have the bottom fact are no seeds.
  pub try_solve_node_problem_from-Solves :
      (seeds : List ℕ)
      → (all_live view.node_ids seeds ≡ true)
          × Solves view
              (flow view p NoEntry)
              p.boundary
              (Raises p.boundary p.meet p.transfer)
              limit
              (λ k. elem k seeds)
              (try_solve_node_problem_from_with_config view p (suc limit) seeds (some limit))
        ⊎ (all_live view.node_ids seeds ≡ false)
          × (try_solve_node_problem_from_with_config view p (suc limit) seeds (some limit)
              ≡ panicked)
  unfolding try_solve_node_problem_from_with_config
  try_solve_node_problem_from-Solves seeds =
      elim (seeded-Queued view.node_bound view.node_ids seeds g.ids_below) [
        | inl (known, (w, run, valid, same, members)) ↦ inl (
          known,
          rw run (
              try_solve_with_worklist-Solves view g p none limit (λ k. elem k seeds) NoEntry
                none_enters w valid same members),
        )
        | inr (unknown, run) ↦ inr (unknown, rw run refl)
      ]

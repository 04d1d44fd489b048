-- ===== src/Dataflow/Solver/Loop.antt =====
-- The loop of crates/cfglib/src/dataflow/node_fixpoint.rs under a step limit, to its end.
use cfglib.Prelude.{
  ℕ, zero, suc, ◌+◌, ◌<◌, ◌≤◌, ◌≡◌, ◌≢◌, sym, subst, ◌∙◌, ap, inl, inr, Bool, true, false, leb,
  ◌==◌, if◌then◌else◌, Option, none, some, Bool-cases, ≢→==, ok, Option-cases, arith,
}
use cfglib.View.{View, IsView}
use cfglib.Dataflow.Worklist.{Worklist, pop_first}
use cfglib.Dataflow.Worklist.Queue.{IsWorklist, waits, bound}
use cfglib.Dataflow.Worklist.Pop.{Least, pop_first-Pops}
use cfglib.Dataflow.Solver.{
  Direction, forward, backward, program_order, TryNodeProblem, Facts, State, check_limit, visit,
  turn, run_loop, facts_of, try_solve_with_worklist, try_solve_node_problem_with_config,
}
use cfglib.Dataflow.Solver.Errors.{
  Answer, solved, failed, problem, solver, step_limit_exceeded, ◌>>=◌,
}
use cfglib.Dataflow.Solver.Meet.{Raises}
use cfglib.Dataflow.Solver.Visit.{
  Settled, Untouched, Invariant, Popped, Visited, moved, visit-Visited, ⊎-cases,
}

was_waiting :
    (node k : ℕ) (b : Bool) → node ≢ k → (if node == k then false else b) ≡ false → b ≡ false
was_waiting node k b apart h = rw (≢→== node k apart) at h

module _ {ℓ κ} {F : Type ℓ} {E : Type κ} (view : View) (g : IsView view) (p : TryNodeProblem F E)
    (boundary : F) (entry : Option ℕ) (limit : ℕ) (queued : ℕ → Bool) where
  -- How the loop ends.
  pub data Ends (r : Answer E (State F)) : Type (ℓ ⊔ κ) where
    fixed :
        (t : State F)
        → r ≡ solved t
        → Invariant view g p boundary entry queued t
        → ((j : ℕ) → waits t.worklist j ≡ false)
        → t.steps ≤ limit
        → Ends r
    refused : (e : E) → Raises p.boundary p.meet p.transfer e → r ≡ failed (problem e) → Ends r
    stopped :
        (node : ℕ)
        → node < view.node_bound
        → r ≡ failed (solver (step_limit_exceeded limit limit node))
        → Ends r

  abbrev popped : State F → Worklist → State F
  popped s w = record s { worklist = w }

  -- A node leaves the queue.
  pop-Popped :
      (s : State F) (out : Worklist) (node : ℕ)
      → Invariant view g p boundary entry queued s
      → IsWorklist out
      → bound out ≡ bound s.worklist
      → node < bound s.worklist
      → ((j : ℕ) → waits out j ≡ (if node == j then false else waits s.worklist j))
      → (steps : ℕ)
      → Popped view g p boundary entry queued node
          (record { input = s.input; output = s.output; worklist = out; steps = steps })
  pop-Popped s out node v valid same inside members steps = record {
    inputs = v.inputs;
    outputs = v.outputs;
    valid = valid;
    bounded = same ∙ v.bounded;
    inside = subst (λ n. node < n) v.bounded inside;
    settled = λ k below apart waiting.
        v.settled k below
          (was_waiting node k (waits s.worklist k) apart (sym (members k) ∙ waiting));
  }

  loop_ends :
      (fuel : ℕ) (s : State F) (out : Worklist)
      → pop_first s.worklist ≡ ok (out, none)
      → run_loop view p (suc fuel) boundary entry (some limit) s ≡ solved (popped s out)
  unfolding run_loop
  loop_ends fuel s out e = rw e

  loop_turns :
      (fuel : ℕ) (s : State F) (out : Worklist) (node : ℕ)
      → pop_first s.worklist ≡ ok (out, some node)
      → run_loop view p (suc fuel) boundary entry (some limit) s ≡ (
          turn view p boundary entry (some limit) node (popped s out)
          >>= run_loop view p fuel boundary entry (some limit))
  unfolding run_loop
  loop_turns fuel s out node e = rw e

  turn_stops :
      (s : State F) (node : ℕ)
      → leb limit s.steps ≡ true
      → turn view p boundary entry (some limit) node s
        ≡ failed (solver (step_limit_exceeded limit s.steps node))
  unfolding turn check_limit
  turn_stops s node e = rw e

  turn_visits :
      (s : State F) (node : ℕ)
      → leb limit s.steps ≡ false
      → turn view p boundary entry (some limit) node s
        ≡ visit view p boundary entry node (record s { steps = suc s.steps })
  unfolding turn check_limit
  turn_visits s node e = rw e

  rebase : (r r' : Answer E (State F)) → r ≡ r' → Ends r' → Ends r
  rebase r r' e (fixed t run v done bounded) = fixed t (e ∙ run) v done bounded
  rebase r r' e (refused x why run) = refused x why (e ∙ run)
  rebase r r' e (stopped node inside run) = stopped node inside (e ∙ run)

  pub run_loop-Ends :
      (fuel : ℕ) (s : State F)
      → Invariant view g p boundary entry queued s
      → s.steps ≤ limit
      → limit < s.steps + fuel
      → Ends (run_loop view p fuel boundary entry (some limit) s)
  run_loop-Ends zero s v a b = absurd (omega arith)
  run_loop-Ends (suc fuel) s v a b =
      let pops = pop_first-Pops s.worklist v.valid in
      elim (Option-cases pops.answer) [
        | inl nothing ↦
            let (idle, left) = subst (λ o. Least s.worklist o pops.out) nothing pops.least in
            fixed (popped s pops.out)
              (loop_ends fuel s pops.out (pops.run ∙ ap (λ o. ok (pops.out, o)) nothing))
              (record {
                inputs = v.inputs;
                outputs = v.outputs;
                valid = pops.valid;
                bounded = pops.bound ∙ v.bounded;
                settled = λ k below waiting. v.settled k below (sym (left k) ∙ waiting);
              })
              (λ j. left j ∙ idle j) a
        | inr (node, next) ↦
            let (there, inside, least, members) =
              subst (λ o. Least s.worklist o pops.out) next pops.least in
            let turns =
              loop_turns fuel s pops.out node (pops.run ∙ ap (λ o. ok (pops.out, o)) next) in
            let after : State F = popped s pops.out in
            elim (Bool-cases (leb limit s.steps)) [
              | inl q ↦
                  let full : s.steps ≡ limit = ground (arith, q) in
                  stopped node (subst (λ n. node < n) v.bounded inside) (
                    turns
                    ∙ ap (λ r. r >>= run_loop view p fuel boundary entry (some limit))
                        (turn_stops after node q)
                    ∙ ap (λ n. failed (solver (step_limit_exceeded limit n node))) full)
              | inr q ↦
                  let start =
                    pop-Popped s pops.out node v pops.valid pops.bound inside members
                      (suc s.steps) in
                  let through =
                    turns
                    ∙ ap (λ r. r >>= run_loop view p fuel boundary entry (some limit))
                        (turn_visits after node q) in
                  elim (visit-Visited view g p boundary entry queued node
                    (record after { steps = suc s.steps }) start) [
                      | moved t run w same ↦
                          rebase (run_loop view p (suc fuel) boundary entry (some limit) s)
                            (run_loop view p fuel boundary entry (some limit) t)
                            (through
                              ∙ ap (λ r. r >>= run_loop view p fuel boundary entry (some limit))
                                  run)
                            (run_loop-Ends fuel t w (ground (arith, q, same)) (omega (arith, same)))
                      | cfglib.Dataflow.Solver.Visit.refused e why run ↦ refused e why (
                          through
                          ∙ ap (λ r. r >>= run_loop view p fuel boundary entry (some limit)) run)
                    ]
            ]
      ]

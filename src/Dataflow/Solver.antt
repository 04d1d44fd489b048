-- ===== src/Dataflow/Solver.antt =====
-- The node solver of crates/cfglib/src/dataflow/node_fixpoint.rs, with what it takes from fixpoint.rs
-- beside it and from crates/cfglib/src/graph/traverse.rs. A graph is a `View`, a node is its index,
-- and the consumer's problem is a record of functions. The loop takes fuel.
pub mod Errors
pub mod Meet
pub mod Visit
pub mod Loop
pub mod Equation
pub mod Fixpoint
pub mod Infallible
pub mod Limit
pub mod Least
use cfglib.Prelude.{
  ℕ, zero, suc, ◌+◌, ◌≡◌, ◌⊎◌, inl, inr, List, [], ◌∷◌, Bool, true, false, length, get_elem?, set,
  replicate, ltb, leb, ◌==◌, if◌then◌else◌, Option, none, some, Result, read, assert,
}
use cfglib.View.{View, TraversalDirection, outgoing, incoming, neighbors, against}
use cfglib.Dataflow.Worklist.{Worklist, insert_all, live, seeded, pop_first}
use cfglib.Dataflow.Solver.Errors.{
  Answer, solved, failed, exhausted, TrySolveError, solver, SolveError, step_limit_exceeded, ◌>>=◌,
  lift, attempt,
}

pub data Direction : Type 0 where
  forward : Direction
  backward : Direction

unfoldable pub traversal : Direction → TraversalDirection
traversal forward = outgoing
traversal backward = incoming

unfoldable pub program_order {ℓ} : {A : Type ℓ} → Direction → A → A → A × A
program_order forward entering leaving = (entering, leaving)
program_order backward entering leaving = (leaving, entering)

-- `TryNodeProblem` at a graph, with the `==` of its facts.
pub record TryNodeProblem {ℓ κ} (F : Type ℓ) (E : Type κ) : Type (ℓ ⊔ κ) where
  pub direction : Direction
  pub bottom : F
  pub boundary : E ⊎ F
  pub meet : ℕ → F → F → E ⊎ F
  pub transfer : ℕ → F → E ⊎ F
  pub same : F → F → Bool

pub record Facts {ℓ} (F : Type ℓ) : Type ℓ where
  pub input : List F
  pub output : List F
  pub steps : ℕ

-- The local variables of `try_solve_along`.
pub record State {ℓ} (F : Type ℓ) : Type ℓ where
  pub input : List F
  pub output : List F
  pub worklist : Worklist
  pub steps : ℕ

module _ {ℓ κ} {F : Type ℓ} {E : Type κ} (view : View) (problem : TryNodeProblem F E) where
  abbrev pub downstream : ℕ → List ℕ
  downstream node = neighbors (traversal problem.direction) view node

  abbrev pub upstream : ℕ → List ℕ
  upstream node = neighbors (against (traversal problem.direction)) view node

  -- One fact more for the meet of a node.
  unfoldable pub meet_one : ℕ → Option F → F → Answer E F
  meet_one node none fact = solved fact
  meet_one node (some current) fact = attempt (problem.meet node current fact)

  -- The loop over the upstream neighbors.
  unfoldable pub meet_all : ℕ → List F → Option F → List ℕ → Answer E (Option F)
  meet_all node output met [] = solved met
  meet_all node output met (from ∷ froms) = lift (read output from) >>= λ fact.
      meet_one node met fact >>= λ current. meet_all node output (some current) froms

  unfoldable pub or_boundary : F → Option F → F
  or_boundary boundary none = boundary
  or_boundary boundary (some met) = met

  -- `(entry == Some(node)).then(|| boundary.clone())`
  unfoldable pub at_entry : F → Option ℕ → ℕ → Option F
  at_entry boundary none node = none
  at_entry boundary (some entry) node = if entry == node then some boundary else none

  unfoldable pub met_fact : F → Option ℕ → ℕ → List F → Answer E F
  met_fact boundary entry node output =
      meet_all node output (at_entry boundary entry node) (upstream node) >>= λ met.
      solved (or_boundary boundary met)

  -- The step limit, looked at before a step.
  unfoldable pub check_limit : Option ℕ → ℕ → ℕ → Answer E (Unit {0})
  check_limit none steps node = solved tt
  check_limit (some limit) steps node =
      if leb limit steps then failed (solver (step_limit_exceeded limit steps node)) else solved tt

  -- The writes behind the transfer, and the neighbors that are queued for them.
  unfoldable pub record_output : Bool → ℕ → F → State F → Answer E (State F)
  record_output true node transferred s = solved s
  record_output false node transferred s =
      lift (insert_all s.worklist (downstream node)) >>= λ worklist.
      solved (record s { output = set s.output node transferred; worklist = worklist })

  -- The body of the loop, behind the limit and the count of the steps.
  unfoldable pub visit : F → Option ℕ → ℕ → State F → Answer E (State F)
  visit boundary entry node s = met_fact boundary entry node s.output >>= λ met.
      attempt (problem.transfer node met) >>= λ transferred.
      lift (assert (ltb node (length s.input))) >>= λ _. lift (read s.output node) >>= λ before.
      record_output (problem.same transferred before) node transferred
        (record s { input = set s.input node met })

  unfoldable pub turn : F → Option ℕ → Option ℕ → ℕ → State F → Answer E (State F)
  turn boundary entry limit node s = check_limit limit s.steps node >>= λ _.
      visit boundary entry node (record s { steps = suc s.steps })

  unfoldable pub run_loop : ℕ → F → Option ℕ → Option ℕ → State F → Answer E (State F)
  run_loop zero boundary entry limit s = exhausted
  run_loop (suc fuel) boundary entry limit s = lift (pop_first s.worklist) >>= λ popped.
      elim popped.1 [
        | none ↦ solved (record s { worklist = popped.0 })
        | some node ↦
            turn boundary entry limit node (record s { worklist = popped.0 })
            >>= run_loop fuel boundary entry limit
      ]

  unfoldable pub facts_of : State F → Facts F
  facts_of s =
      let ordered = program_order problem.direction s.input s.output in
      record { input = ordered.0; output = ordered.1; steps = s.steps }

  unfoldable pub try_solve_with_worklist : ℕ → Worklist → Option ℕ → Option ℕ → Answer E (Facts F)
  try_solve_with_worklist fuel worklist entry limit = attempt problem.boundary >>= λ boundary.
      run_loop fuel boundary entry limit (record {
        input = replicate view.node_bound problem.bottom;
        output = replicate view.node_bound problem.bottom;
        worklist = worklist;
        steps = 0;
      })
      >>= λ s. solved (facts_of s)

  unfoldable pub try_solve_node_problem_with_config : ℕ → Option ℕ → Answer E (Facts F)
  try_solve_node_problem_with_config fuel limit =
      lift (live view.node_bound view.node_ids) >>= λ worklist.
      try_solve_with_worklist fuel worklist none limit

  unfoldable pub try_solve_node_problem_from_with_config :
      ℕ → List ℕ → Option ℕ → Answer E (Facts F)
  try_solve_node_problem_from_with_config fuel seeds limit =
      lift (seeded view.node_bound view.node_ids seeds) >>= λ worklist.
      try_solve_with_worklist fuel worklist none limit

  unfoldable pub try_solve_node_problem : ℕ → Answer E (Facts F)
  try_solve_node_problem fuel = try_solve_node_problem_with_config fuel none

  unfoldable pub try_solve_node_problem_from : ℕ → List ℕ → Answer E (Facts F)
  try_solve_node_problem_from fuel seeds = try_solve_node_problem_from_with_config fuel seeds none

-- ===== src/Dataflow/Solver/Least.antt =====
-- The solver of crates/cfglib/src/dataflow/node_fixpoint.rs on a monotone problem, against the
-- solutions of its inequations.
use cfglib.Prelude.{
  ℕ, zero, suc, ◌<◌, ◌≡◌, sym, subst, ◌∙◌, inl, inr, List, [], ◌∷◌, Bool, true, false, length, ltb,
  get_elem?, set, replicate, Option, none, some, read, assert, Option-cases, get_elem?-set_cases,
  get_elem?-replicate, length-replicate, lt_of_get_elem?,
}
use cfglib.View.{View}
use cfglib.Dataflow.Worklist.{live, insert_all, pop_first}
use cfglib.Dataflow.Solver.{
  Facts, State, upstream, downstream, meet_one, meet_all, or_boundary, at_entry, met_fact,
  check_limit, record_output, visit, turn, run_loop, program_order, facts_of,
  try_solve_with_worklist, try_solve_node_problem_with_config,
}
use cfglib.Dataflow.Solver.Errors.{
  Answer, solved, failed, panicked, exhausted, problem, solver, lift,
}
use cfglib.Dataflow.Solver.Infallible.{
  NodeProblem, infallible, facts, collapse_infallible, solve_node_problem_with_config,
}
use cfglib.Dataflow.Solver.Limit.{bind-solved, loop_ends, loop_turns}
use cfglib.Dataflow.Solver.Fixpoint.{program_order-twice}

-- An order in which the problem is monotone and its bottom is least.
pub record IsMonotone {ℓ} {F : Type ℓ} (p : NodeProblem F) (le : F → F → Type ℓ) : Type ℓ where
  pub reflexive : (a : F) → le a a
  pub transitive : (a b c : F) → le a b → le b c → le a c
  pub least : (a : F) → le p.bottom a
  pub meet_monotone : (a b c d : F) → le a b → le c d → le (p.meet a c) (p.meet b d)
  pub transfer_monotone : (k : ℕ) (a b : F) → le a b → le (p.transfer k a) (p.transfer k b)

module _ {ℓ} {F : Type ℓ} (view : View) (p : NodeProblem F) (solution : ℕ → F) where
  -- The meet of the solution over some nodes.
  abbrev flow_all : Option F → List ℕ → Option F
  flow_all met [] = met
  flow_all none (from ∷ froms) = flow_all (some (solution from)) froms
  flow_all (some current) (from ∷ froms) = flow_all (some (p.meet current (solution from))) froms

  -- What flows into a node of the solution.
  abbrev pub flow_in : ℕ → F
  flow_in k =
      or_boundary view (infallible p) p.boundary (flow_all none (upstream view (infallible p) k))

module _ {ℓ} {F : Type ℓ} (view : View) (p : NodeProblem F) (le : F → F → Type ℓ)
    (m : IsMonotone p le) (solution : ℕ → F)
    (solves : (k : ℕ) → le (p.transfer k (flow_in view p solution k)) (solution k)) where
  Below : List F → Type ℓ
  Below output = (k : ℕ) (x : F) → get_elem? output k ≡ some x → le x (solution k)

  data Under : Option F → Option F → Type ℓ where
    nothing : Under none none
    just : {a b : F} → le a b → Under (some a) (some b)

  read_at :
      (output : List F) (from : ℕ) (fact : F)
      → lift {E = ⊥} (read output from) ≡ solved fact
      → get_elem? output from ≡ some fact
  read_at output from fact e = elim (Option-cases (get_elem? output from)) [
    | inl z ↦ absurd (cc (rw z at e))
    | inr (x, z) ↦ cc (rw z at e, z)
  ]

  meet_all-Under :
      (k : ℕ) (output : List F) (met ref : Option F) (froms : List ℕ) (out : Option F)
      → Below output
      → Under met ref
      → meet_all view (infallible p) k output met froms ≡ solved out
      → Under out (flow_all view p solution ref froms)
  unfolding meet_all meet_one infallible Below
  meet_all-Under k output met ref [] out below u e =
      let same : met ≡ out = cc (e) in subst (λ o. Under o ref) same u
  meet_all-Under k output none none (from ∷ froms) out below nothing e =
      let (fact, at, more) = bind-solved (lift (read output from)) _ out e in
      let (current, one, rest) =
        bind-solved (meet_one view (infallible p) k none fact)
          (λ c. meet_all view (infallible p) k output (some c) froms) out more in
      let same : fact ≡ current = cc (one) in
      meet_all-Under k output (some current) (some (solution from)) froms out below
        (just
          (subst (λ x. le x (solution from)) same (below from fact (read_at output from fact at))))
        rest
  meet_all-Under k output none (some b) (from ∷ froms) out below u e = elim u [ ]
  meet_all-Under k output (some a) none (from ∷ froms) out below u e = elim u [ ]
  meet_all-Under k output (some a) (some b) (from ∷ froms) out below (just h) e =
      let (fact, at, more) = bind-solved (lift (read output from)) _ out e in
      let (current, one, rest) =
        bind-solved (meet_one view (infallible p) k (some a) fact)
          (λ c. meet_all view (infallible p) k output (some c) froms) out more in
      let same : p.meet a fact ≡ current = cc (one) in
      let here = below from fact (read_at output from fact at) in
      meet_all-Under k output (some current) (some (p.meet b (solution from))) froms out below
        (just (
          subst (λ x. le x (p.meet b (solution from))) same
            (m.meet_monotone a b fact (solution from) h here)))
        rest

  or_boundary-le :
      (met ref : Option F)
      → Under met ref
      → le
          (or_boundary view (infallible p) p.boundary met)
          (or_boundary view (infallible p) p.boundary ref)
  unfolding or_boundary
  or_boundary-le none none nothing = m.reflexive p.boundary
  or_boundary-le none (some b) u = elim u [ ]
  or_boundary-le (some a) none u = elim u [ ]
  or_boundary-le (some a) (some b) (just h) = h

  met_fact-le :
      (k : ℕ) (output : List F) (met : F)
      → Below output
      → met_fact view (infallible p) p.boundary none k output ≡ solved met
      → le met (flow_in view p solution k)
  unfolding met_fact at_entry
  met_fact-le k output met below e =
      let (found, all, last) =
        bind-solved (meet_all view (infallible p) k output none (upstream view (infallible p) k))
          (λ met. solved (or_boundary view (infallible p) p.boundary met)) met e in
      let same : or_boundary view (infallible p) p.boundary found ≡ met = cc (last) in
      subst (λ x. le x (flow_in view p solution k)) same
        (or_boundary-le found (flow_all view p solution none (upstream view (infallible p) k)) (
          meet_all-Under k output none none (upstream view (infallible p) k) found below nothing
            all))

  set-Below :
      (output : List F) (node : ℕ) (fact : F)
      → Below output
      → le fact (solution node)
      → Below (set output node fact)
  unfolding Below
  set-Below output node fact below h k x at = elim (get_elem?-set_cases output node k fact at) [
    | inl (here, new) ↦
        subst (λ y. le y (solution k)) (sym new) (subst (λ j. le fact (solution j)) here h)
    | inr (apart, old) ↦ below k x old
  ]

  record_output-Below :
      (b : Bool) (node : ℕ) (fact : F) (s t : State F)
      → Below s.output
      → le fact (solution node)
      → record_output view (infallible p) b node fact s ≡ solved t
      → Below t.output
  unfolding record_output
  record_output-Below true node fact s t below h e =
      let same : s ≡ t = cc (e) in subst (λ (u : State F). Below u.output) same below
  record_output-Below false node fact s t below h e =
      let (w, inserted, last) =
        bind-solved (lift (insert_all s.worklist (downstream view (infallible p) node)))
          (λ w. solved (record s { output = set s.output node fact; worklist = w })) t e in
      let written : State F = record s { output = set s.output node fact; worklist = w } in
      let same : written ≡ t = cc (last) in
      subst (λ (u : State F). Below u.output) same (set-Below s.output node fact below h)

  visit-Below :
      (node : ℕ) (s t : State F)
      → Below s.output
      → visit view (infallible p) p.boundary none node s ≡ solved t
      → Below t.output
  unfolding visit infallible
  visit-Below node s t below e =
      let (met, met_at, e1) =
        bind-solved (met_fact view (infallible p) p.boundary none node s.output) _ t e in
      let (inside, asserted, e2) = bind-solved (lift (assert (ltb node (length s.input)))) _ t e1 in
      let (before, old, e3) = bind-solved (lift (read s.output node)) _ t e2 in
      record_output-Below (p.same (p.transfer node met) before) node (p.transfer node met)
        (record s { input = set s.input node met }) t below
        (m.transitive (p.transfer node met) (p.transfer node (flow_in view p solution node))
          (solution node)
          (m.transfer_monotone node met (flow_in view p solution node)
            (met_fact-le node s.output met below met_at))
          (solves node))
        e3

  turn-Below :
      (limit : Option ℕ) (node : ℕ) (s t : State F)
      → Below s.output
      → turn view (infallible p) p.boundary none limit node s ≡ solved t
      → Below t.output
  unfolding turn
  turn-Below limit node s t below e =
      let (go, checked, visited) =
        bind-solved (check_limit view (infallible p) limit s.steps node) _ t e in
      visit-Below node (record s { steps = suc s.steps }) t below visited

  run_loop-Below :
      (limit : Option ℕ) (fuel : ℕ) (s t : State F)
      → Below s.output
      → run_loop view (infallible p) fuel p.boundary none limit s ≡ solved t
      → Below t.output
  unfolding run_loop
  run_loop-Below limit zero s t below e = absurd (cc (e))
  run_loop-Below limit (suc fuel) s t below e =
      let (popped, pops, more) = bind-solved (lift (pop_first s.worklist)) _ t e in
      elim (Option-cases popped.1) [
        | inl z ↦
            let over =
              sym (loop_ends view (infallible p) p.boundary none limit fuel s popped pops z) ∙ e in
            let after : State F = record s { worklist = popped.0 } in
            let same : after ≡ t = cc (over) in subst (λ (u : State F). Below u.output) same below
        | inr (node, z) ↦
            let after : State F = record s { worklist = popped.0 } in
            let (u, turned, rest) =
              bind-solved (turn view (infallible p) p.boundary none limit node after)
                (run_loop view (infallible p) fuel p.boundary none limit) t
                (sym
                    (loop_turns view (infallible p) p.boundary none limit fuel s popped pops node z)
                  ∙ e) in
            run_loop-Below limit fuel u t (turn-Below limit node after u below turned) rest
      ]

  start-Below : (n : ℕ) → Below (replicate n p.bottom)
  unfolding Below
  start-Below n k x at =
      let inside =
        subst (λ l. k < l) (length-replicate n p.bottom)
          (lt_of_get_elem? (replicate n p.bottom) k at) in
      let same : p.bottom ≡ x = cc (at, get_elem?-replicate n p.bottom k inside) in
      subst (λ y. le y (solution k)) same (m.least (solution k))

  leaving-Below :
      (s : State F)
      → Below s.output
      → Below (
          (program_order p.direction
            (facts_of view (infallible p) s).input
            (facts_of view (infallible p) s).output).1)
  unfolding facts_of infallible
  leaving-Below s below =
      subst (λ (io : List F × List F). Below io.1)
        (sym (program_order-twice p.direction s.input s.output)) below

  solved_back :
      (r : Answer ⊥ (Facts F)) (out : Facts F) → collapse_infallible r ≡ facts out → r ≡ solved out
  unfolding collapse_infallible
  solved_back (solved a) out e = cc (e)
  solved_back (failed (solver x)) out e = absurd (cc (e))
  solved_back (failed (problem x)) out e = absurd x
  solved_back panicked out e = absurd (cc (e))
  solved_back exhausted out e = absurd (cc (e))

  -- For a problem that is monotone in an order with its bottom least, the facts that
  -- solve_node_problem_with_config returns, with a step limit or without one, are below every
  -- solution of the inequations of the nodes.
  pub solve_node_problem-least :
      (fuel : ℕ) (limit : Option ℕ) (out : Facts F)
      → solve_node_problem_with_config view p fuel limit ≡ facts out
      → (k : ℕ) (x : F) → get_elem? ((program_order p.direction out.input out.output).1) k ≡ some x
      → le x (solution k)
  unfolding solve_node_problem_with_config try_solve_node_problem_with_config
      try_solve_with_worklist infallible Below
  solve_node_problem-least fuel limit out e =
      let (w, lives, e1) =
        bind-solved (lift (live view.node_bound view.node_ids)) _ out (solved_back _ out e) in
      let start : State F = record {
        input = replicate view.node_bound p.bottom;
        output = replicate view.node_bound p.bottom;
        worklist = w;
        steps = 0;
      } in
      let (t, ran, last) =
        bind-solved (run_loop view (infallible p) fuel p.boundary none limit start)
          (λ s. solved (facts_of view (infallible p) s)) out e1 in
      let same : facts_of view (infallible p) t ≡ out = cc (last) in
      subst (λ (o : Facts F). Below ((program_order p.direction o.input o.output).1)) same
        (leaving-Below t (run_loop-Below limit fuel start t (start-Below view.node_bound) ran))

-- ===== src/Dataflow/Solver/Limit.antt =====
-- The step limit of crates/cfglib/src/dataflow/node_fixpoint.rs changes no answer that it lets through.
use cfglib.Prelude.{
  ℕ, zero, suc, ◌≡◌, refl, ◌∙◌, sym, ap, inl, inr, leb, Option, none, some, replicate, Bool-cases,
  Option-cases,
}
use cfglib.View.{View}
use cfglib.Dataflow.Worklist.{Worklist, live, pop_first}
use cfglib.Dataflow.Solver.{
  TryNodeProblem, Facts, State, check_limit, turn, run_loop, facts_of, try_solve_with_worklist,
  try_solve_node_problem_with_config,
}
use cfglib.Dataflow.Solver.Errors.{
  Answer, solved, failed, panicked, exhausted, ◌>>=◌, lift, attempt,
}

-- A chain of calls that gives a value is the value of its first call, and the rest from there.
pub bind-solved {ℓ κ μ} :
    {E : Type ℓ} {A : Type κ} {B : Type μ} (m : Answer E A) (f : A → Answer E B) (b : B)
    → (m >>= f) ≡ solved b
    → (a : A) × (m ≡ solved a) × (f a ≡ solved b)
bind-solved (solved a) f b e = (a, refl, e)
bind-solved (failed x) f b e = absurd (cc (e))
bind-solved panicked f b e = absurd (cc (e))
bind-solved exhausted f b e = absurd (cc (e))

module _ {ℓ κ} {F : Type ℓ} {E : Type κ} (view : View) (p : TryNodeProblem F E) where
  unlimited_turn :
      (boundary : F) (entry : Option ℕ) (limit node : ℕ) (s t : State F)
      → turn view p boundary entry (some limit) node s ≡ solved t
      → turn view p boundary entry none node s ≡ solved t
  unfolding turn check_limit
  unlimited_turn boundary entry limit node s t e = elim (Bool-cases (leb limit s.steps)) [
    | inl q ↦ absurd (cc (rw q at e))
    | inr q ↦ rw q at e
  ]

  module _ (boundary : F) (entry limit : Option ℕ) (fuel : ℕ) (s : State F)
      (popped : Worklist × Option ℕ)
      (pops : lift {E = E} (pop_first s.worklist) ≡ solved popped) where
    pub loop_ends :
        popped.1 ≡ none
        → run_loop view p (suc fuel) boundary entry limit s
          ≡ solved (record s { worklist = popped.0 })
    unfolding run_loop
    loop_ends e = simp (run_loop, pops, e)

    pub loop_turns :
        (node : ℕ)
        → popped.1 ≡ some node
        → run_loop view p (suc fuel) boundary entry limit s ≡ (
            turn view p boundary entry limit node (record s { worklist = popped.0 })
            >>= run_loop view p fuel boundary entry limit)
    unfolding run_loop
    loop_turns node e = simp (run_loop, pops, e)

  unlimited_loop :
      (boundary : F) (entry : Option ℕ) (limit fuel : ℕ) (s t : State F)
      → run_loop view p fuel boundary entry (some limit) s ≡ solved t
      → run_loop view p fuel boundary entry none s ≡ solved t
  unfolding run_loop
  unlimited_loop boundary entry limit zero s t e = absurd (cc (e))
  unlimited_loop boundary entry limit (suc fuel) s t e =
      let (popped, pops, more) = bind-solved (lift (pop_first s.worklist)) _ t e in
      elim (Option-cases popped.1) [
        | inl z ↦
            loop_ends boundary entry none fuel s popped pops z
            ∙ sym (loop_ends boundary entry (some limit) fuel s popped pops z)
            ∙ e
        | inr (node, z) ↦
            let here = sym (loop_turns boundary entry (some limit) fuel s popped pops node z) ∙ e in
            let after : State F = record s { worklist = popped.0 } in
            let (u, turned, rest) =
              bind-solved (turn view p boundary entry (some limit) node after)
                (run_loop view p fuel boundary entry (some limit)) t here in
            loop_turns boundary entry none fuel s popped pops node z
            ∙ ap (λ r. r >>= run_loop view p fuel boundary entry none)
                (unlimited_turn boundary entry limit node after u turned)
            ∙ unlimited_loop boundary entry limit fuel u t rest
      ]

  abbrev start : Worklist → State F
  start w = record {
    input = replicate view.node_bound p.bottom;
    output = replicate view.node_bound p.bottom;
    worklist = w;
    steps = 0;
  }

  unlimited_worklist :
      (fuel limit : ℕ) (w : Worklist) (entry : Option ℕ) (facts : Facts F)
      → try_solve_with_worklist view p fuel w entry (some limit) ≡ solved facts
      → try_solve_with_worklist view p fuel w entry none ≡ solved facts
  unfolding try_solve_with_worklist
  unlimited_worklist fuel limit w entry facts e =
      let (boundary, gives, more) = bind-solved (attempt p.boundary) _ facts e in
      let (t, ran, last) =
        bind-solved (run_loop view p fuel boundary entry (some limit) (start w))
          (λ s. solved (facts_of view p s)) facts more in
      ap
        (λ r. r >>= λ b.
          run_loop view p fuel b entry none (start w) >>= λ s. solved (facts_of view p s))
        gives
      ∙ ap (λ r. r >>= λ s. solved (facts_of view p s))
          (unlimited_loop boundary entry limit fuel (start w) t ran)
      ∙ last

  -- Facts that try_solve_node_problem_with_config returns under a step limit are those that it
  -- returns without one.
  pub try_solve_node_problem_unlimited :
      (fuel limit : ℕ) (facts : Facts F)
      → try_solve_node_problem_with_config view p fuel (some limit) ≡ solved facts
      → try_solve_node_problem_with_config view p fuel none ≡ solved facts
  unfolding try_solve_node_problem_with_config
  try_solve_node_problem_unlimited fuel limit facts e =
      let (w, lives, more) = bind-solved (lift (live view.node_bound view.node_ids)) _ facts e in
      ap (λ r. r >>= λ w. try_solve_with_worklist view p fuel w none none) lives
      ∙ unlimited_worklist fuel limit w none facts more

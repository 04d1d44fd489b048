-- ===== src/Dataflow/Blocks/Reached.antt =====
-- What the full solve of crates/cfglib/src/dataflow/fixpoint.rs starts from, and how it ends.
use cfglib.Prelude.{
  count, elem_later, ℕ, zero, suc, ◌<◌, ◌≡◌, ◌↔◌, ◌∙◌, refl, sym, subst, ap, inl, inr, List, [],
  ◌∷◌, Bool, true, get_elem?, elem, ◌==◌, none, some, ok, Bool-cases, ==→≡, ≡→==, arith,
}
use cfglib.View.{View, outgoing, neighbors, IsView, neighbors_below}
use cfglib.Traverse.Preorder.Complete.{depth_first_preorder-Reaches}
use cfglib.Traverse.Reach.{Reaches, at_seed, along}
use cfglib.Dataflow.Worklist.{Worklist, live}
use cfglib.Dataflow.Worklist.Queue.{IsWorklist, waits, bound, of-Queued}
use cfglib.Dataflow.Solver.{Direction, forward, backward, traversal}
use cfglib.Dataflow.Solver.Meet.{Raises}
use cfglib.Dataflow.Solver.Equation.{Flow}
use cfglib.Dataflow.Solver.Fixpoint.{Solves, try_solve_with_worklist-Solves}
use cfglib.Dataflow.Blocks.{
  TryProblem, block_problem, initial_worklist, entry_of, solve_with_worklist,
  try_solve_problem_with_config,
}

elem-count : (f : ℕ) (xs : List ℕ) → elem f xs ≡ true → 0 < count f xs
elem-count f [] e = absurd (cc (e))
elem-count f (x ∷ xs) e = elim (Bool-cases (x == f)) [
  | inl q ↦ rw q (omega arith)
  | inr q ↦ rw q (elem-count f xs (rw q at e))
]

count-elem : (f : ℕ) (xs : List ℕ) → 0 < count f xs → elem f xs ≡ true
count-elem f [] h = absurd (omega arith)
count-elem f (x ∷ xs) h = elim (Bool-cases (x == f)) [
  | inl q ↦ rw q refl
  | inr q ↦ rw q (count-elem f xs (rw q at h))
]

get_elem?-elem : (xs : List ℕ) (k f : ℕ) → get_elem? xs k ≡ some f → elem f xs ≡ true
get_elem?-elem [] k f at = absurd (cc (at))
get_elem?-elem (x ∷ xs) zero f at = let same : x ≡ f = cc (at) in rw (≡→== x f same) refl
get_elem?-elem (x ∷ xs) (suc k) f at = elem_later f x xs (get_elem?-elem xs k f at)

elem-below :
    (n : ℕ) (xs : List ℕ)
    → ((k f : ℕ) → get_elem? xs k ≡ some f → f < n)
    → (f : ℕ) → elem f xs ≡ true
    → f < n
elem-below n [] h f e = absurd (cc (e))
elem-below n (x ∷ xs) h f e = elim (Bool-cases (x == f)) [
  | inl q ↦ subst (λ y. y < n) (==→≡ x f q) (h 0 x refl)
  | inr q ↦ elem-below n xs (λ k y at. h (suc k) y at) f (rw q at e)
]

-- The nodes that a full solve starts from.
abbrev pub Starts : View → ℕ → Direction → (ℕ → Bool) → Type 0
Starts view root forward queued =
    (f : ℕ) → (queued f ≡ true) ↔ Reaches view outgoing none (root ∷ []) f
Starts view root backward queued = (f : ℕ) → queued f ≡ elem f view.node_ids

-- The problem of the consumer as relations: the root is the entry when facts flow forward, and there
-- is none when they flow backward.
abbrev pub block_flow {ℓ κ} : {F : Type ℓ} {E : Type κ} → ℕ → TryProblem F E → Flow {ℓ, ℓ ⊔ κ} F
block_flow root p = record {
  direction = p.direction;
  bottom = p.bottom;
  meets = λ k a b c. p.meet k a b ≡ inr c;
  transfers = λ k met made. p.transfer k met ≡ inr made;
  same = p.same;
  entry = λ k. (p.direction ≡ forward) × (k ≡ root);
}

module _ (view : View) (g : IsView view) (root : ℕ) (rooted : root < view.node_bound) where
  reached_below : (f : ℕ) → Reaches view outgoing none (root ∷ []) f → f < view.node_bound
  reached_below f (at_seed i e) = elim (Bool-cases (root == i)) [
    | inl q ↦ subst (λ x. x < view.node_bound) (==→≡ root i q) rooted
    | inr q ↦ absurd (cc (rw q at e))
  ]
  reached_below f (along n m reached edge free) =
      elem-below view.node_bound (neighbors outgoing view n) (neighbors_below view g outgoing n) m
        edge

  record Initial (d : Direction) : Type 0 where
    pub worklist : Worklist
    pub run : initial_worklist view root d ≡ ok worklist
    pub valid : IsWorklist worklist
    pub size : bound worklist ≡ view.node_bound
    pub starts : Starts view root d (waits worklist)

  Initial-of : (d : Direction) → Initial d
  unfolding initial_worklist traversal live
  Initial-of forward = elim (depth_first_preorder-Reaches view g outgoing root) [
    | inr (outside, run) ↦ absurd (omega (arith, outside, rooted))
    | inl (inside, (order, run, each, once)) ↦
        let is_reached = λ (f : ℕ) (e : elem f order ≡ true).
          (each f).0 (omega (arith, elem-count f order e, once f)) in
        let (w, queues, valid, size, members) =
          of-Queued view.node_bound order
            (λ k f at. reached_below f (is_reached f (get_elem?-elem order k f at))) in
        record {
          worklist = w;
          run = rw run queues;
          valid = valid;
          size = size;
          starts = λ f. (
            λ e. is_reached f (sym (members f) ∙ e),
            λ r. members f ∙ count-elem f order (omega (arith, (each f).1 r)),
          );
        }
  ]
  Initial-of backward =
      let (w, queues, valid, size, members) = of-Queued view.node_bound view.node_ids g.ids_below in
      record { worklist = w; run = queues; valid = valid; size = size; starts = members }

  entry_of-enters :
      (d : Direction) (k : ℕ) → (entry_of d root ≡ some k) ↔ ((d ≡ forward) × (k ≡ root))
  unfolding entry_of
  entry_of-enters forward k = ((λ q. (refl, sym (cc (q)))), (λ (_, e). ap some (sym e)))
  entry_of-enters backward k = ((λ q. absurd (cc (q))), (λ (q, _). absurd (cc (q))))

  module _ {ℓ κ} {F : Type ℓ} {E : Type κ} (p : TryProblem F E) (limit : ℕ) where
    -- On a graph whose nodes are below its bound and whose two axes walk the same edges, with its
    -- root below the bound and under a step limit, and with fuel for one step more,
    -- try_solve_problem_with_config returns and does not panic: with facts after at most so many
    -- steps, where every block below the bound either satisfies its equation (its fact on the way
    -- in is the problem's meet of the facts that its sources have on the way out, with the
    -- boundary fact first at the root when facts flow forward, and the boundary fact if there is
    -- nothing to meet; its fact on the way out is what the problem's transfer makes of that) or
    -- was not queued at the start and still has the bottom fact; or with an error that the
    -- problem's boundary, meet or transfer returns; or with the step limit and a pending block.
    -- The blocks queued at the start are those that the root reaches when facts flow forward, and
    -- all live ones when they flow backward.
    pub try_solve_problem-Solves :
        (queued : ℕ → Bool) × Starts view root p.direction queued
        × Solves view
            (block_flow root p)
            p.boundary
            (Raises p.boundary p.meet p.transfer)
            limit
            queued
            (try_solve_problem_with_config view root p (suc limit) (some limit))
    unfolding try_solve_problem_with_config solve_with_worklist block_problem
    try_solve_problem-Solves =
        let i = Initial-of p.direction in
        (
          waits i.worklist,
          i.starts,
          rw i.run (
              try_solve_with_worklist-Solves view g (block_problem p) (entry_of p.direction root)
                limit (waits i.worklist) (λ k. (p.direction ≡ forward) × (k ≡ root))
                (entry_of-enters p.direction) i.worklist i.valid i.size (λ k. refl)),
        )

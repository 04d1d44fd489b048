-- ===== src/Traverse/Preorder/Complete.antt =====
-- `depth_first_preorder` of crates/cfglib/src/graph/traverse.rs lists the nodes that the start reaches.
use cfglib.Prelude.{
  List-cases, count, count-append, elem_later, ℕ, zero, suc, ◌+◌, ◌<◌, ◌≤◌, ◌≡◌, ◌⊎◌, ◌↔◌, ◌∙◌,
  refl, sym, subst, ap, inl, inr, List, [], ◌∷◌, ◌++◌, Bool, true, false, length, get_elem?, set,
  replicate, elem, ltb, ◌==◌, if◌then◌else◌, none, some, Result, ok, panic, Bool-cases, ==→≡, ≡→==,
  ltb→lt, arith, length-set, length-replicate, get_elem?_lt,
}
use cfglib.Marks.{flag, flag_of, flag-set, unmarked}
use cfglib.View.{View, TraversalDirection, neighbors, IsView, neighbors_below}
use cfglib.Traverse.{assert_in_bound}
use cfglib.Traverse.Reach.{Reaches, at_seed, along}
use cfglib.Traverse.Preorder.{
  State, push_unvisited, enter, round, run_loop, edges_left, depth_first_preorder,
}
use cfglib.Traverse.Preorder.Order.{
  Pushes, push_unvisited-Pushes, edges_left-set, Invariant, skipped-Invariant,
}

module _ (view : View) (g : IsView view) (axis : TraversalDirection) (start : ℕ) where
  abbrev work : State → ℕ
  work s = edges_left axis view 0 s.visited + length s.stack

  module _ (s : State) (node : ℕ) (rest : List ℕ) (v : Invariant view g axis start s)
      (w : s.stack ≡ node ∷ rest) (unset : flag s.visited node ≡ false) where
    inside : node < length s.visited
    inside = v.below 0 node (rw w refl)

    abbrev marks : List Bool
    marks = set s.visited node true

    mark_at : (f : ℕ) → flag marks f ≡ (if node == f then true else flag s.visited f)
    mark_at f = flag-set s.visited node f inside

    stays : (f : ℕ) → flag s.visited f ≡ true → flag marks f ≡ true
    stays f e = mark_at f ∙ elim (Bool-cases (node == f)) [ inl q ↦ rw q refl | inr q ↦ rw q e ]

    pushes :
        Pushes marks
          (neighbors axis view node)
          rest
          (push_unvisited marks (neighbors axis view node) rest)
    pushes =
        let size = length-set s.visited node true in
        push_unvisited-Pushes marks (neighbors axis view node) rest
          (λ k m at. omega (arith, size, v.size, neighbors_below view g axis node k m at))
          (λ k m at. omega (arith, size, v.below (suc k) m (rw w at)))

    abbrev entered : State
    entered = record { visited = marks; order = s.order ++ node ∷ []; stack = pushes.out }

    arrived :
        (m : ℕ)
        → (flag s.visited m ≡ true) ⊎ (elem m s.stack ≡ true)
        → (flag marks m ≡ true) ⊎ (elem m pushes.out ≡ true)
    arrived m (inl a) = inl (stays m a)
    arrived m (inr b) = elim (Bool-cases (node == m)) [
      | inl q ↦ inl (mark_at m ∙ rw q refl)
      | inr q ↦ inr (pushes.old m (rw (w, q) at b))
    ]

    reached : Reaches view axis none (start ∷ []) node
    reached = v.waiting node (rw w (rw (≡→== node node refl) refl))

    entered-Invariant : Invariant view g axis start entered
    entered-Invariant = record {
      size = length-set s.visited node true ∙ v.size;
      sound = λ f e. elim (Bool-cases (node == f)) [
        | inl q ↦ subst (Reaches view axis none (start ∷ [])) (==→≡ node f q) reached
        | inr q ↦ v.sound f (rw q at (sym (mark_at f) ∙ e))
      ];
      waiting = λ f e. elim (pushes.only f e) [
        | inl edge ↦ along node f reached edge tt
        | inr old ↦ v.waiting f (rw w (elem_later f node rest old))
      ];
      below = pushes.below;
      closed = λ f m e edge. elim (Bool-cases (node == f)) [
        | inl q ↦
            pushes.each m
              (subst (λ x. elem m (neighbors axis view x) ≡ true) (sym (==→≡ node f q)) edge)
        | inr q ↦ arrived m (v.closed f m (rw q at (sym (mark_at f) ∙ e)) edge)
      ];
      begun = arrived start v.begun;
      counted = λ f.
          let before = v.counted f in
          let now = mark_at f in
          let more = count-append f s.order (node ∷ []) in
          elim (Bool-cases (node == f)) [
            | inl q ↦
                let same = ==→≡ node f q in
                let was : flag s.visited f ≡ false =
                  subst (λ x. flag s.visited x ≡ false) same unset in
                more ∙ rw now (rw q (ground (arith, rw was at before)))
            | inr q ↦ more ∙ rw now (rw q (ground (arith, before)))
          ];
    }

    entered_work : suc (work entered) ≤ work s
    entered_work =
        let zero_plus : 0 + node ≡ node = omega arith in
        let left = edges_left-set axis view 0 s.visited node inside unset in
        let same = ap (λ j. length (neighbors axis view j)) zero_plus in
        omega (arith, left, same, pushes.size, ap length w)

    entered_run :
        get_elem? s.visited node ≡ some false
        → round axis view node (record s { stack = rest }) ≡ ok entered
    unfolding round enter
    entered_run at = rw (at, pushes.run)

  -- What a round does: it takes an entry off the stack, and leaves less to do.
  record Rounds (s : State) (r : Result State) : Type 0 where
    pub out : State
    pub run : r ≡ ok out
    pub invariant : Invariant view g axis start out
    pub less : suc (work out) ≤ work s

  round-Rounds :
      (s : State) (node : ℕ) (rest : List ℕ)
      → Invariant view g axis start s
      → s.stack ≡ node ∷ rest
      → Rounds s (round axis view node (record s { stack = rest }))
  unfolding round
  round-Rounds s node rest v w =
      let (seen, at) = get_elem?_lt s.visited node (v.below 0 node (rw w refl)) in
      elim (Bool-cases seen) [
        | inl q ↦ record {
          out = record s { stack = rest };
          run = rw (at, q);
          invariant =
              skipped-Invariant view g axis start s node rest v w (flag_of s.visited node at ∙ q);
          less = omega (arith, ap length w);
        }
        | inr q ↦
            let unset = flag_of s.visited node at ∙ q in
            record {
              out = entered s node rest v w unset;
              run = entered_run s node rest v w unset (at ∙ ap some q);
              invariant = entered-Invariant s node rest v w unset;
              less = entered_work s node rest v w unset;
            }
      ]

  loop_end : (fuel : ℕ) (s : State) → s.stack ≡ [] → run_loop axis view (suc fuel) s ≡ ok s
  unfolding run_loop
  loop_end fuel s w = simp (run_loop, w)

  loop_step :
      (fuel : ℕ) (s out : State) (node : ℕ) (rest : List ℕ)
      → s.stack ≡ node ∷ rest
      → round axis view node (record s { stack = rest }) ≡ ok out
      → run_loop axis view (suc fuel) s ≡ run_loop axis view fuel out
  unfolding run_loop
  loop_step fuel s out node rest w run = simp (run_loop, w) (rw run)

  run_loop-Over :
      (fuel : ℕ) (s : State)
      → Invariant view g axis start s
      → work s < fuel
      → (out : State) × (run_loop axis view fuel s ≡ ok out)
        × Invariant view g axis start out
        × (out.stack ≡ [])
  run_loop-Over zero s v h = absurd (omega arith)
  run_loop-Over (suc fuel) s v h = elim (List-cases s.stack) [
    | inl w ↦ (s, loop_end fuel s w, v, w)
    | inr (node, rest, w) ↦
        let r = round-Rounds s node rest v w in
        let (out, run, over, done) = run_loop-Over fuel r.out r.invariant (omega (arith, r.less)) in
        (out, loop_step fuel s r.out node rest w r.run ∙ run, over, done)
  ]

  complete :
      (s : State)
      → Invariant view g axis start s
      → s.stack ≡ []
      → (f : ℕ) → Reaches view axis none (start ∷ []) f
      → flag s.visited f ≡ true
  complete s v done f (at_seed i e) = elim (Bool-cases (start == i)) [
    | inl q ↦ elim v.begun [
      | inl a ↦ subst (λ x. flag s.visited x ≡ true) (==→≡ start i q) a
      | inr b ↦ absurd (cc (rw done at b))
    ]
    | inr q ↦ absurd (cc (rw q at e))
  ]
  complete s v done f (along n m reached edge free) =
      elim (v.closed n m (complete s v done n reached) edge) [
        | inl a ↦ a
        | inr b ↦ absurd (cc (rw done at b))
      ]

  abbrev blank : State
  blank = record { visited = replicate view.node_bound false; order = []; stack = start ∷ [] }

  start_below :
      start < view.node_bound
      → (k f : ℕ) → get_elem? (start ∷ []) k ≡ some f
      → f < length (replicate view.node_bound false)
  start_below h zero f e =
      let same : start ≡ f = cc (e) in omega (arith, length-replicate view.node_bound false, same)
  start_below h (suc k) f e = absurd (cc (e))

  blank-Invariant : start < view.node_bound → Invariant view g axis start blank
  blank-Invariant h = record {
    size = length-replicate view.node_bound false;
    sound = λ f e. absurd (cc (e, unmarked view.node_bound f));
    waiting = λ f e. at_seed f e;
    below = start_below h;
    closed = λ f m e edge. absurd (cc (e, unmarked view.node_bound f));
    begun = inr (rw (≡→== start start refl) refl);
    counted = λ f. rw (unmarked view.node_bound f) refl;
  }

  marked_once : (s : State) → Invariant view g axis start s → (f : ℕ) → count f s.order ≤ 1
  marked_once s v f = elim (Bool-cases (flag s.visited f)) [
    | inl q ↦ omega (arith, rw q at (v.counted f))
    | inr q ↦ omega (arith, rw q at (v.counted f))
  ]

  counted-flag :
      (s : State)
      → Invariant view g axis start s
      → (f : ℕ) → (count f s.order ≡ 1) ↔ (flag s.visited f ≡ true)
  counted-flag s v f = elim (Bool-cases (flag s.visited f)) [
    | inl q ↦ (λ e. q, λ e. rw q at (v.counted f))
    | inr q ↦ (λ e. absurd (omega (arith, e, rw q at (v.counted f))), λ e. absurd (cc (e, q)))
  ]

  -- On a graph whose nodes are below its bound and whose two axes walk the same edges,
  -- depth_first_preorder returns, within a round for the start and each edge, a list in which
  -- every node that the start reaches is once, and no other, when the start is below the bound,
  -- whether or not the graph still lists it as a node; when it is not below the bound it panics.
  pub depth_first_preorder-Reaches :
      (start < view.node_bound)
        × ((order : List ℕ) × (depth_first_preorder view start axis ≡ ok order)
            × ((f : ℕ) → (count f order ≡ 1) ↔ Reaches view axis none (start ∷ []) f)
            × ((f : ℕ) → count f order ≤ 1))
      ⊎ (view.node_bound ≤ start) × (depth_first_preorder view start axis ≡ panic)
  unfolding depth_first_preorder assert_in_bound
  depth_first_preorder-Reaches = elim (Bool-cases (ltb start view.node_bound)) [
    | inr q ↦ inr (ground (arith, q), rw q)
    | inl q ↦
        let h = ltb→lt start view.node_bound q in
        let fuel = suc (suc (edges_left axis view 0 (replicate view.node_bound false))) in
        let (out, run, v, done) = run_loop-Over fuel blank (blank-Invariant h) (omega arith) in
        inl (
          h,
          (
            out.order,
            rw (q, run),
            (λ f.
                let (to, from) = counted-flag out v f in
                (λ e. v.sound f (to e), λ r. from (complete out v done f r))),
            marked_once out v,
          ),
        )
  ]

-- ===== src/Traverse/Closure.antt =====
-- `reachable_in` of crates/cfglib/src/graph/traverse.rs marks the nodes that the seeds reach.
use cfglib.Prelude.{
  List-cases, elem_later, ℕ, zero, suc, ◌+◌, ◌<◌, ◌≡◌, ◌⊎◌, ◌↔◌, ◌∙◌, refl, subst, ap, inl, inr,
  List, [], ◌∷◌, Bool, true, false, length, replicate, elem, ◌==◌, Option, Result, ok, panic,
  Bool-cases, ==→≡, ≡→==, arith, length-replicate,
}
use cfglib.Marks.{flag, unseen, unseen-le, unmarked}
use cfglib.View.{View, TraversalDirection, neighbors, IsView, neighbors_below}
use cfglib.Traverse.{State, expand, walk, reachable_in}
use cfglib.Traverse.Reach.{Allowed, Reaches, at_seed, along, Expanded, Invariant}
use cfglib.Traverse.Search.{Covers, all_in_bound, MarksAll, expand-MarksAll, start_from-MarksAll}

module _ (view : View) (g : IsView view) (axis : TraversalDirection) (within : Option (List Bool))
    (covers : Covers view within) (seeds : List ℕ) where
  abbrev idle : ℕ → Bool
  idle f = false

  -- A node leaves the stack, and its neighbors are looked at.
  popped-Invariant :
      (s : State) (index : ℕ) (rest : List ℕ)
      → Invariant view axis within seeds idle s
      → s.stack ≡ index ∷ rest
      → Invariant view axis within seeds (λ f. index == f) (record s { stack = rest })
  popped-Invariant s index rest v w = record {
    size = v.size;
    sound = v.sound;
    stacked = λ f e. v.stacked f (rw w (elem_later f index rest e));
    closed = λ f e. elim (v.closed f e) [
      | inl a ↦ elim (Bool-cases (index == f)) [
        | inl q ↦ inr (inl q)
        | inr q ↦ inl (rw (w, q) at a)
      ]
      | inr (inl b) ↦ absurd (cc (b))
      | inr (inr c) ↦ inr (inr c)
    ];
  }

  -- The node is expanded, and nothing is looked at any more.
  expanded-Invariant :
      (s : State) (r : Result State) (index : ℕ)
      → (m : MarksAll view g axis within covers seeds
          (λ f. index == f)
          (Allowed within)
          (neighbors axis view index)
          s
          r)
      → Invariant view axis within seeds idle m.out
  expanded-Invariant s r index m = record {
    size = m.invariant.size;
    sound = m.invariant.sound;
    stacked = m.invariant.stacked;
    closed = λ f e. elim (m.invariant.closed f e) [
      | inl a ↦ inl a
      | inr (inl q) ↦ inr (
          inr (
            subst (λ x. Expanded view axis within seeds m.out.visited x) (==→≡ index f q) m.marked))
      | inr (inr c) ↦ inr (inr c)
    ];
  }

  walk_end : (fuel : ℕ) (s : State) → s.stack ≡ [] → walk axis view within (suc fuel) s ≡ ok s
  unfolding walk
  walk_end fuel s w = simp (walk, w)

  walk_step :
      (fuel : ℕ) (s out : State) (index : ℕ) (rest : List ℕ)
      → s.stack ≡ index ∷ rest
      → expand within (neighbors axis view index) (record s { stack = rest }) ≡ ok out
      → walk axis view within (suc fuel) s ≡ walk axis view within fuel out
  unfolding walk
  walk_step fuel s out index rest w run = simp (walk, w) (rw run)

  -- The walk is over: the marked nodes are expanded, and what was marked still is.
  record Over (s : State) (r : Result State) : Type 0 where
    pub out : State
    pub run : r ≡ ok out
    pub invariant : Invariant view axis within seeds idle out
    pub marks : (f : ℕ) → flag s.visited f ≡ true → flag out.visited f ≡ true
    pub done : out.stack ≡ []

  walk-Over :
      (fuel : ℕ) (s : State)
      → Invariant view axis within seeds idle s
      → unseen s.visited + length s.stack < fuel
      → Over s (walk axis view within fuel s)
  unfolding walk
  walk-Over zero s v h = absurd (omega arith)
  walk-Over (suc fuel) s v h = elim (List-cases s.stack) [
    | inl w ↦ record { out = s; run = walk_end fuel s w; invariant = v; marks = λ f e. e; done = w }
    | inr (index, rest, w) ↦
        let start = popped-Invariant s index rest v w in
        let here : (elem index s.stack ≡ true) = rw w (rw (≡→== index index refl) refl) in
        let popped : State = record s { stack = rest } in
        let m =
          expand-MarksAll view g axis within covers seeds (λ f. index == f) index
            (neighbors axis view index) popped start (v.sound index (v.stacked index here))
            (λ k e. e) (neighbors_below view g axis index) in
        let left =
          walk-Over fuel m.out
            (expanded-Invariant popped (expand within (neighbors axis view index) popped) index m)
            (omega (arith, m.grows.work, ap length w)) in
        record {
          out = left.out;
          run = walk_step fuel s m.out index rest w m.run ∙ left.run;
          invariant = left.invariant;
          marks = λ f e. left.marks f (m.grows.marks f e);
          done = left.done;
        }
  ]

  complete :
      (s : State) (r : Result State) (o : Over s r)
      → ((f : ℕ) → elem f seeds ≡ true → flag s.visited f ≡ true)
      → (f : ℕ) → Reaches view axis within seeds f
      → flag o.out.visited f ≡ true
  complete s r o marked f (at_seed i e) = o.marks i (marked i e)
  complete s r o marked f (along n m reached edge free) =
      elim (o.invariant.closed n (complete s r o marked n reached)) [
        | inl a ↦ absurd (cc (rw o.done at a))
        | inr (inl b) ↦ absurd (cc (b))
        | inr (inr c) ↦ c m edge free
      ]

  abbrev blank : State
  blank = record { visited = replicate view.node_bound false; stack = [] }

  blank-Invariant : Invariant view axis within seeds idle blank
  blank-Invariant = record {
    size = length-replicate view.node_bound false;
    sound = λ f e. absurd (cc (e, unmarked view.node_bound f));
    stacked = λ f e. absurd (cc (e));
    closed = λ f e. absurd (cc (e, unmarked view.node_bound f));
  }

  -- On a graph whose nodes are below its bound, and with a confining set that has an entry for
  -- each node if there is one, reachable_in returns, within a round for each node, a mark for each
  -- node when every seed is below the bound, whether or not the graph still lists it as a node,
  -- and a node is marked exactly when it is a seed or is reached from one through allowed nodes;
  -- when a seed is not below the bound it panics.
  pub reachable_in-Reaches :
      (all_in_bound view seeds ≡ true)
        × ((visited : List Bool) × (reachable_in view seeds axis within ≡ ok visited)
            × (length visited ≡ view.node_bound)
            × ((f : ℕ) → (flag visited f ≡ true) ↔ Reaches view axis within seeds f))
      ⊎ (all_in_bound view seeds ≡ false) × (reachable_in view seeds axis within ≡ panic)
  unfolding reachable_in
  reachable_in-Reaches =
      elim (start_from-MarksAll view g axis within covers seeds seeds blank blank-Invariant
        (λ m e. e)) [
          | inr (outside, run) ↦ inr (outside, rw run)
          | inl (inside, m) ↦
              let bound = unseen-le (replicate view.node_bound false) in
              let o =
                walk-Over (suc view.node_bound) m.out m.invariant
                  (omega (arith, m.grows.work, bound, length-replicate view.node_bound false)) in
              inl (
                inside,
                (
                  o.out.visited,
                  rw (m.run, o.run),
                  o.invariant.size,
                  λ f. (
                    λ e. o.invariant.sound f e,
                    λ r.
                        complete m.out (walk axis view within (suc view.node_bound) m.out) o
                          (λ x e. m.marked x e tt) f r,
                  ),
                ),
              )
        ]

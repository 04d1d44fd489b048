-- ===== src/Store/Viewed.antt =====
-- `GraphView` of crates/cfglib/src/graph/view.rs for the store: the neighbors of
-- crates/cfglib/src/graph/store/adjacency.rs as the axes that the searches walk.
use cfglib.Prelude.{
  elem-get_elem?, same_test, ℕ, ◌<◌, ◌≡◌, ◌↔◌, refl, sym, ◌∙◌, ap, inl, inr, List, [], true,
  get_elem?, elem, if◌then◌else◌, some, Result, ok, panic, out_of_fuel, arith, Bool-cases, ltb,
  lt→ltb, ltb→lt,
}
use cfglib.View.{View, IsView}
use cfglib.Store.Chains.{Direction, outgoing, incoming}
use cfglib.Store.Graph.{Graph, node_bound, contains_node}
use cfglib.Store.Walk.{edges_out, edges_in}
use cfglib.Store.Invariant.{IsStore}
use cfglib.Store.Append.{contains_node-lt}
use cfglib.Store.Ends.{LiveEnds}
use cfglib.Store.Listing.{select_range-below, successors, predecessors, node_ids}
use cfglib.Store.Neighbors.{opposite, Joins, neighbors_in, neighbors_in-Joins}

-- What an iterator yields; one that panics yields nothing.
unfoldable pub yielded : Result (List ℕ) → List ℕ
yielded (ok xs) = xs
yielded panic = []
yielded out_of_fuel = []

module _ {ℓ κ} {N : Type ℓ} {E : Type κ} where
  -- `impl GraphView for Graph`; outside the node slots there is nothing to walk.
  unfoldable pub to_view : Graph N E → View
  to_view g = record {
    node_bound = node_bound g;
    node_ids = node_ids g;
    successors = λ v. if ltb v (node_bound g) then yielded (successors g v) else [];
    predecessors = λ v. if ltb v (node_bound g) then yielded (predecessors g v) else [];
  }

  -- The neighbors of a node slot, as the view shows them.
  abbrev shown : Graph N E → Direction → ℕ → List ℕ
  shown g dir v = if ltb v (node_bound g) then yielded (neighbors_in g dir v) else []

  Joins-lt :
      (g : Graph N E) (dir : Direction) (v m : ℕ)
      → LiveEnds g
      → Joins g dir v m
      → (v < node_bound g) × (m < node_bound g)
  Joins-lt g dir v m ends (e, r, at, live, near, far) = (
    contains_node-lt g v (ap (contains_node g) (sym near) ∙ ends e r at live dir),
    contains_node-lt g m (ap (contains_node g) (sym far) ∙ ends e r at live (opposite dir)),
  )

  shown-Joins :
      (g : Graph N E) (dir : Direction) (v m : ℕ)
      → IsStore g
      → LiveEnds g
      → (elem m (shown g dir v) ≡ true) ↔ Joins g dir v m
  unfolding yielded
  shown-Joins g dir v m w ends = elim (Bool-cases (ltb v (node_bound g))) [
    | inl inside ↦
        let (xs, run, joins) = neighbors_in-Joins g dir v w ends (ltb→lt v (node_bound g) inside) in
        rw (inside, run) (joins m)
    | inr outside ↦ (
      λ h. absurd (cc (rw outside at h)),
      λ j. absurd (cc (outside, lt→ltb v (node_bound g) (Joins-lt g dir v m ends j).0)),
    )
  ]

  Joins-opposite :
      (g : Graph N E) (v m : ℕ)
      → (Joins g outgoing v m → Joins g incoming m v)
        × (Joins g incoming m v → Joins g outgoing v m)
  Joins-opposite g v m = (
    λ (e, r, at, live, near, far). (e, r, at, live, far, near),
    λ (e, r, at, live, near, far). (e, r, at, live, far, near),
  )

  shown-below :
      (g : Graph N E) (dir : Direction) (n k i : ℕ)
      → IsStore g
      → LiveEnds g
      → get_elem? (shown g dir n) k ≡ some i
      → i < node_bound g
  shown-below g dir n k i w ends at =
      (Joins-lt g dir n i ends
        ((shown-Joins g dir n i w ends).0 (elem-get_elem? (shown g dir n) k i at))).1

  -- On a well-formed store in which both ends of every live edge are live, `successors` and
  -- `predecessors` return for every node slot what the view shows; a node is a successor of another
  -- exactly when a live edge leads to it from there; and the view is one that the searches may walk:
  -- its nodes are below its bound and its two axes walk the same edges.
  pub to_view-IsView :
      (g : Graph N E)
      → IsStore g
      → LiveEnds g
      → IsView (to_view g)
        × ((v : ℕ)
            → v < node_bound g
            → (successors g v ≡ ok ((to_view g).successors v))
              × (predecessors g v ≡ ok ((to_view g).predecessors v)))
        × ((v m : ℕ) → (elem m ((to_view g).successors v) ≡ true) ↔ Joins g outgoing v m)
  unfolding to_view node_ids successors predecessors edges_out edges_in neighbors_in yielded
  to_view-IsView g w ends = (
    record {
      ids_below = λ k i at. let lt = select_range-below _ 0 (node_bound g) k i at in omega arith;
      successors_below = λ n k i at. shown-below g outgoing n k i w ends at;
      predecessors_below = λ n k i at. shown-below g incoming n k i w ends at;
      converse = λ n m.
          same_test (elem m (shown g outgoing n)) (elem n (shown g incoming m))
            (λ h.
              (shown-Joins g incoming m n w ends).1
                ((Joins-opposite g n m).0 ((shown-Joins g outgoing n m w ends).0 h)))
            (λ h.
              (shown-Joins g outgoing n m w ends).1
                ((Joins-opposite g n m).1 ((shown-Joins g incoming m n w ends).0 h)));
    },
    λ v h.
        let inside = lt→ltb v (node_bound g) h in
        let (xs, out_run, _) = neighbors_in-Joins g outgoing v w ends h in
        let (ys, in_run, _) = neighbors_in-Joins g incoming v w ends h in
        (rw (inside, out_run) refl, rw (inside, in_run) refl),
    λ v m. shown-Joins g outgoing v m w ends,
  )

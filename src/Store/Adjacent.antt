-- ===== src/Store/Adjacent.antt =====
-- The adjacency of a well-formed store: `Graph::outgoing` and `Graph::incoming` of
-- crates/cfglib/src/graph/store/adjacency.rs.
use cfglib.Prelude.{
  ℕ, suc, ◌+◌, ◌<◌, ◌≤◌, ◌≡◌, refl, ◌∙◌, ap, inl, inr, List, [], ◌++◌, map, true, false, not, ◌&&◌,
  length, get_elem?, if◌then◌else◌, Option, none, ok, arith, Bool-cases, lt→ltb, length-map,
  length-append,
}
use cfglib.Store.LiveSet
use cfglib.Store.LiveSet.{LiveSet}
use mathlib.Core.List.{map-append}
use cfglib.Store.Chains.{Direction}
use cfglib.Store.Chains.Ring.{owned}
use cfglib.Store.Graph.{
  Graph, node_bound, edge_bound, tombstoned_nodes, tombstoned_edges, node_is_live, edge_is_live,
  contains_node, contains_edge, records,
}
use cfglib.Store.Walk.{
  AdjacencyCursor, exhausted, axis_of, adjacent, live_of, passes, adjacent_edges,
}
use cfglib.Store.Walk.Steps.{select, Slice-length, IsBefore, collect-IsBefore}
use cfglib.Store.Walk.Start.{owned-append_list, map-owned, length-owned, select-owned, Slice-fits}
use cfglib.Store.Invariant.{IsStore, endpoint, endpoints}
use cfglib.Store.Started.{adjacent-run, started, axis_next, next_size, exhausted_at}

module _ {ℓ κ} {N : Type ℓ} {E : Type κ} where
  -- The walk's liveness test is the store's, below the bound.
  passes-contains_edge :
      (g : Graph N E) (e : ℕ) → e < edge_bound g → passes (live_of g) e ≡ contains_edge g e
  unfolding passes contains_edge edge_is_live
  passes-contains_edge g e h = elim (Bool-cases (tombstoned_edges g)) [
    | inl p ↦ rw (p, lt→ltb e (edge_bound g) h)
    | inr p ↦ rw (p, lt→ltb e (edge_bound g) h)
  ]

  -- The edges of the store with the endpoint `v`, in the order they were added.
  abbrev pub incident : Graph N E → Direction → ℕ → List ℕ
  incident g dir v = owned 0 v (endpoints dir (records g))

  ahead :
      (g : Graph N E) (dir : Direction) (v : ℕ)
      → owned 0 v (endpoints dir g.base_edges)
          ++ map (◌+◌ (length g.base_edges)) (owned 0 v (endpoints dir g.delta_edges))
        ≡ incident g dir v
  ahead g dir v =
      let bs = endpoints dir g.base_edges in
      let ds = endpoints dir g.delta_edges in
      let size : length g.base_edges + 0 ≡ 0 + length bs =
        omega (arith, length-map (endpoint dir) g.base_edges) in
      rw (
        map-append (endpoint dir) g.base_edges g.delta_edges,
        map-owned (length g.base_edges) 0 v ds,
        size,
        owned-append_list 0 v bs ds,
      )

  edge_bound-records :
      (g : Graph N E) (dir : Direction) → length (endpoints dir (records g)) ≡ edge_bound g
  unfolding edge_bound
  edge_bound-records g dir =
      length-map (endpoint dir) (records g) ∙ length-append g.base_edges g.delta_edges

  adjacent_edges-alive :
      (g : Graph N E) (dir : Direction) (v : ℕ)
      → IsStore g
      → v < node_bound g
      → (tombstoned_nodes g && not (LiveSet.is_live g.live_nodes v)) ≡ false
      → adjacent_edges g v dir ≡ ok (select (contains_edge g) (incident g dir v))
  unfolding adjacent_edges
  adjacent_edges-alive g dir v w h alive =
      let bs = owned 0 v (endpoints dir g.base_edges) in
      let ds = owned 0 v (endpoints dir g.delta_edges) in
      let (c, first, run, at) = started g dir v w h alive in
      let short = Slice-length (axis_of g dir).edges c.base c.base_end bs at.0 in
      let run_size = Slice-fits (axis_of g dir).edges c.base c.base_end bs at.0 short in
      let chain_size = length-owned 0 v (endpoints dir g.delta_edges) in
      let delta = length-map (endpoint dir) g.delta_edges in
      let links = next_size g dir w in
      let axis = axis_next g dir in
      rw run (
        collect-IsBefore (axis_of g dir) (live_of g) (get_elem? (endpoints dir g.delta_edges)) v
          first (length g.base_edges) (suc (length (axis_of g dir).edges + length g.delta_edges)) c
          bs ds at (omega arith) (omega arith)
        ∙ ap ok (
            ap (select (passes (live_of g))) (ahead g dir v)
            ∙ select-owned (passes (live_of g)) (contains_edge g) 0 v (endpoints dir (records g))
                (λ i b. passes-contains_edge g i (omega (arith, b, edge_bound-records g dir)))))

  adjacent_edges-dead :
      (g : Graph N E) (dir : Direction) (v : ℕ)
      → IsStore g
      → v < node_bound g
      → (tombstoned_nodes g && not (LiveSet.is_live g.live_nodes v)) ≡ true
      → adjacent_edges g v dir ≡ ok []
  unfolding adjacent_edges
  adjacent_edges-dead g dir v w h gone =
      rw (adjacent-run g dir v exhausted w.unmoved (exhausted_at g v (axis_of g dir) h gone)) (
        collect-IsBefore (axis_of g dir) (live_of g) (λ i. none) v 0 (length g.base_edges)
          (suc (length (axis_of g dir).edges + length g.delta_edges)) exhausted [] [] (refl, refl)
          (omega arith) (omega arith))

  contains_node-dead :
      (g : Graph N E) (v : ℕ)
      → v < node_bound g
      → contains_node g v ≡ not (tombstoned_nodes g && not (LiveSet.is_live g.live_nodes v))
  unfolding contains_node node_is_live
  contains_node-dead g v h =
      let inside = lt→ltb v (node_bound g) h in
      elim (Bool-cases (tombstoned_nodes g)) [
        | inl p ↦ elim (Bool-cases (LiveSet.is_live g.live_nodes v)) [
          | inl q ↦ rw (inside, p, q)
          | inr q ↦ rw (inside, p, q)
        ]
        | inr p ↦ rw (inside, p)
      ]

  -- In a well-formed store the edges of a node slot, in either direction, are the edges of the
  -- store that have the node at that end and are live, in the order they were added; a removed node
  -- has none. The walk returns with the fuel given.
  pub adjacent_edges-IsStore :
      (g : Graph N E) (dir : Direction) (v : ℕ)
      → IsStore g
      → v < node_bound g
      → adjacent_edges g v dir
        ≡ ok (if contains_node g v then select (contains_edge g) (incident g dir v) else [])
  adjacent_edges-IsStore g dir v w h =
      elim (Bool-cases (tombstoned_nodes g && not (LiveSet.is_live g.live_nodes v))) [
        | inl gone ↦ rw (contains_node-dead g v h, gone) (adjacent_edges-dead g dir v w h gone)
        | inr alive ↦ rw (contains_node-dead g v h, alive) (adjacent_edges-alive g dir v w h alive)
      ]

  -- The walk of a node slot, removed or not: where it starts, and that its fuel is enough.
  pub walk_of :
      (g : Graph N E) (dir : Direction) (v : ℕ)
      → IsStore g
      → v < node_bound g
      → (c : AdjacencyCursor) × (first : ℕ) × (owner : ℕ → Option ℕ) × (bs ds : List ℕ) × (adjacent
            g v dir
          ≡ ok (axis_of g dir, c))
        × IsBefore (axis_of g dir) (live_of g) owner v first c bs ds
        × (length bs ≤ length (axis_of g dir).edges)
        × (length ds ≤ length g.delta_edges)
        × (length (axis_of g dir).chains.next ≡ length g.delta_edges)
  walk_of g dir v w h =
      let links = axis_next g dir ∙ next_size g dir w ∙ length-map (endpoint dir) g.delta_edges in
      elim (Bool-cases (tombstoned_nodes g && not (LiveSet.is_live g.live_nodes v))) [
        | inl gone ↦ (
          exhausted,
          0,
          λ i. none,
          [],
          [],
          adjacent-run g dir v exhausted w.unmoved (exhausted_at g v (axis_of g dir) h gone),
          (refl, refl),
          omega arith,
          omega arith,
          links,
        )
        | inr alive ↦
            let bs = owned 0 v (endpoints dir g.base_edges) in
            let (c, first, run, at) = started g dir v w h alive in
            let short = Slice-length (axis_of g dir).edges c.base c.base_end bs at.0 in
            (
              c,
              first,
              get_elem? (endpoints dir g.delta_edges),
              bs,
              owned 0 v (endpoints dir g.delta_edges),
              run,
              at,
              Slice-fits (axis_of g dir).edges c.base c.base_end bs at.0 short,
              omega (
                arith,
                length-owned 0 v (endpoints dir g.delta_edges),
                length-map (endpoint dir) g.delta_edges,
              ),
              links,
            )
      ]

-- ===== src/Store/Invariant.antt =====
-- When a store of crates/cfglib/src/graph/store.rs is well formed, and what its liveness tests mean
-- then. Redirects are left out: the store has no overlay.
use cfglib.Prelude.{
  ℕ, ◌≤◌, ◌≡◌, refl, inl, inr, List, [], map, not, ◌&&◌, ◌||◌, ltb, ◌==◌, none, ok, arith,
  Bool-cases,
}
use cfglib.Store.LiveSet
use cfglib.Store.LiveSet.{LiveSet, IsPacked, new-IsPacked}
use cfglib.Store.LiveSet.Count.{count, is_live_of_count_to}
use cfglib.Store.Chains.{Direction, outgoing, incoming, max_slots}
use cfglib.Store.Chains.Ring.{owned}
use cfglib.Store.Chains.Refine.{IsChained, new-IsChained}
use cfglib.Store.Graph.{
  Graph, EdgeRecord, tagged, node_bound, edge_bound, tombstoned_nodes, tombstoned_edges,
  node_is_live, edge_is_live, contains_node, contains_edge,
}
use cfglib.Store.Walk.{Axis, axis_of, run_bounds}
use cfglib.Store.Walk.Steps.{Slice}

-- A set of bits for `bound` slots of which `live` are counted.
pub record IsCounted (s : LiveSet) (bound live : ℕ) : Type 0 where
  pub packed : IsPacked s
  pub size : s.len ≡ bound
  pub counted : live ≡ count s

-- The test of `node_is_live` and `edge_is_live` asks the bits only in a store with removals, but
-- gives what the bits say.
pub IsCounted-is_live :
    (s : LiveSet) (bound live i : ℕ)
    → IsCounted s bound live
    → (ltb i bound && (not (not (live == bound)) || LiveSet.is_live s i)) ≡ LiveSet.is_live s i
unfolding LiveSet.is_live
IsCounted-is_live s bound live i c = elim (Bool-cases (ltb i bound)) [
  | inl inside ↦ elim (Bool-cases (live == bound)) [
    | inl full ↦
        let all =
          is_live_of_count_to s s.len i (ground (arith, c.counted, c.size))
            (ground (arith, c.size)) in
        rw (inside, full, all)
    | inr some_dead ↦ rw (inside, some_dead)
  ]
  | inr outside ↦ rw outside (ground (arith, c.size))
]

abbrev pub endpoint {κ} : {E : Type κ} → Direction → EdgeRecord E → ℕ
endpoint outgoing r = r.source
endpoint incoming r = r.target

abbrev pub endpoints {κ} : {E : Type κ} → Direction → List (EdgeRecord E) → List ℕ
endpoints dir edges = map (endpoint dir) edges

-- The compressed run of a node lists the edges `es`.
abbrev pub Indexed : Axis → ℕ → List ℕ → Type 0
Indexed axis v es =
    (base end : ℕ) × (run_bounds axis v ≡ ok (base, end)) × Slice axis.edges base end es

-- The index of a store that was never compacted.
Indexed-empty : (axis : Axis) (v : ℕ) → axis.offsets ≡ [] → Indexed axis v []
unfolding run_bounds
Indexed-empty axis v e = (0, 0, rw e (ground arith), refl)

module _ {ℓ κ} {N : Type ℓ} {E : Type κ} where
  -- The compressed index describes the base, the chains describe the delta, and the bits and their
  -- counts agree, within the addressable sizes.
  pub record IsStore (g : Graph N E) : Type 0 where
    pub chained :
        IsChained g.chains
          (node_bound g)
          (endpoints outgoing g.delta_edges)
          (endpoints incoming g.delta_edges)
    pub indexed :
        (dir : Direction) (v : ℕ)
        → Indexed (axis_of g dir) v (owned 0 v (endpoints dir g.base_edges))
    pub nodes : IsCounted g.live_nodes (node_bound g) g.live_node_count
    pub edges : IsCounted g.live_edges (edge_bound g) g.live_edge_count
    pub unmoved : g.relocations ≡ none
    pub node_room : node_bound g ≤ max_slots
    pub edge_room : edge_bound g ≤ max_slots

  pub contains_node-IsStore :
      (g : Graph N E) (v : ℕ) → IsStore g → contains_node g v ≡ LiveSet.is_live g.live_nodes v
  unfolding contains_node node_is_live tombstoned_nodes
  contains_node-IsStore g v w =
      IsCounted-is_live g.live_nodes (node_bound g) g.live_node_count v w.nodes

  pub contains_edge-IsStore :
      (g : Graph N E) (e : ℕ) → IsStore g → contains_edge g e ≡ LiveSet.is_live g.live_edges e
  unfolding contains_edge edge_is_live tombstoned_edges
  contains_edge-IsStore g e w =
      IsCounted-is_live g.live_edges (edge_bound g) g.live_edge_count e w.edges

  Indexed-uncompacted :
      (g : Graph N E)
      → g.out_offsets ≡ []
      → g.in_offsets ≡ []
      → (dir : Direction) (v : ℕ) → Indexed (axis_of g dir) v []
  unfolding axis_of
  Indexed-uncompacted g o i outgoing v = Indexed-empty (axis_of g outgoing) v o
  Indexed-uncompacted g o i incoming v = Indexed-empty (axis_of g incoming) v i

  -- The empty store is well formed.
  pub tagged-IsStore : IsStore tagged
  unfolding tagged node_bound edge_bound axis_of run_bounds LiveSet.new
  tagged-IsStore = record {
    chained = new-IsChained 0;
    indexed = Indexed-uncompacted tagged refl refl;
    nodes = record { packed = new-IsPacked; size = refl; counted = refl };
    edges = record { packed = new-IsPacked; size = refl; counted = refl };
    unmoved = refl;
    node_room = omega arith;
    edge_room = omega arith;
  }

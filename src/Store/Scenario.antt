-- ===== src/Store/Scenario.antt =====
-- The theorems on the store at a concrete one: a base of two nodes and the edge 0 → 1, a delta of two
-- nodes and the edges 0 → 1 and 0 → 2, of which the first was removed.
use cfglib.Prelude.{
  elem, ◌↔◌, ℕ, zero, suc, ◌+◌, ◌<◌, ◌≡◌, refl, List, [], ◌∷◌, ◌++◌, true, false, ◌&&◌, ◌||◌, ◌==◌,
  length, if◌then◌else◌, none, ok, arith, ≢→==, ◌≢◌, map,
}
use cfglib.Words
use cfglib.Words.Rows
use cfglib.Store.LiveSet
use cfglib.Store.Chains.{Direction, outgoing, incoming, max_slots, DeltaChains, no_link}
use cfglib.Store.Graph.{
  Graph, add_edge, remove_edge, node_bound, edge_bound, contains_node, contains_edge, records,
  node_is_live, tombstoned_nodes, tombstoned_edges,
}
use cfglib.Store.Chains
use cfglib.Store.Walk.{
  axis_of, adjacent_edges, adjacent, cursor_at, overlay, collect, advance, advance_base, passes,
  advance_delta, after_delta, degree, remove_node, run_bounds,
}
use cfglib.Store.Walk.Steps.{select}
use cfglib.Store.Chains.Ring.{owned}
use cfglib.Store.Invariant.{IsStore, Indexed, endpoints}
use cfglib.Store.Adjacent.{incident, adjacent_edges-IsStore}
use cfglib.Store.Append.{edge_record, add_edge-IsStore}
use cfglib.Store.Retire.{Retires, remove_edge-Retires}
use cfglib.Store.Isolate.{touches, remove_node-IsStore}
use cfglib.Store.Drain.{drain_into, drain_into-IsThreaded}
use cfglib.Store.Chains.Thread.{last_of}
use cfglib.Store.Listing.{successors, predecessors}
use cfglib.Store.Ends.{LiveEnds}
use cfglib.Store.Degree.{degree-IsStore}
use cfglib.Store.Neighbors.{Joins}
use cfglib.Store.Viewed.{to_view, to_view-IsView}
use cfglib.View.{IsView}
use cfglib.Store.Tests.{fork, fork-IsChained}

abbrev pub city : Graph ℕ ℕ
city = record {
  base_nodes = 10 ∷ 11 ∷ [];
  base_edges = edge_record 0 1 100 ∷ [];
  out_offsets = 0 ∷ 1 ∷ 1 ∷ [];
  out_edges = 0 ∷ [];
  in_offsets = 0 ∷ 0 ∷ 1 ∷ [];
  in_edges = 0 ∷ [];
  delta_nodes = 12 ∷ 13 ∷ [];
  delta_edges = edge_record 0 1 101 ∷ edge_record 0 2 102 ∷ [];
  chains = fork;
  live_nodes = record { words = 15 ∷ []; len = 4 };
  live_edges = record { words = 5 ∷ []; len = 3 };
  live_node_count = 4;
  live_edge_count = 2;
  relocations = none;
}

city-Indexed :
    (dir : Direction) (v : ℕ)
    → Indexed (axis_of city dir) v (owned 0 v (endpoints dir city.base_edges))
unfolding axis_of run_bounds
city-Indexed outgoing zero = (0, 1, refl, (refl, refl))
city-Indexed outgoing (suc zero) = (1, 1, refl, refl)
city-Indexed outgoing (suc (suc v)) =
    rw (≢→== 0 (suc (suc v)) (λ q. omega arith)) (0, 0, ground arith, refl)
city-Indexed incoming zero = (0, 0, refl, refl)
city-Indexed incoming (suc zero) = (0, 1, refl, (refl, refl))
city-Indexed incoming (suc (suc v)) =
    rw (≢→== 1 (suc (suc v)) (λ q. omega arith)) (0, 0, ground arith, refl)

pub city-IsStore : IsStore city
unfolding node_bound edge_bound LiveSet.is_live Rows.test_slot Rows.word Words.test_bit
city-IsStore = record {
  chained = fork-IsChained;
  indexed = city-Indexed;
  nodes = record { packed = record { packed = refl }; size = refl; counted = refl };
  edges = record { packed = record { packed = refl }; size = refl; counted = refl };
  unmoved = refl;
  node_room = omega arith;
  edge_room = omega arith;
}

-- The removed edge 1 is passed over.
city_walk : adjacent_edges city 0 outgoing ≡ ok (0 ∷ 2 ∷ [])
unfolding adjacent_edges adjacent cursor_at node_bound tombstoned_nodes run_bounds axis_of
    Chains.ends Chains.ring_ends overlay collect advance advance_base passes tombstoned_edges
    edge_bound LiveSet.is_live advance_delta after_delta Rows.test_slot Rows.word Words.test_bit
city_walk = refl

adjacent_edges-IsStore_example :
    adjacent_edges city 0 outgoing
    ≡ ok (
        if contains_node city 0 then select (contains_edge city) (incident city outgoing 0) else [])
unfolding node_bound
adjacent_edges-IsStore_example = adjacent_edges-IsStore city outgoing 0 city-IsStore (omega arith)

degree-IsStore_example :
    (es : List ℕ) × (adjacent_edges city 0 outgoing ≡ ok es)
    × (degree city 0 outgoing ≡ ok (length es))
unfolding node_bound
degree-IsStore_example = degree-IsStore city outgoing 0 city-IsStore (omega arith)

city_has : (v : ℕ) → v < 4 → contains_node city v ≡ true
unfolding contains_node node_is_live tombstoned_nodes node_bound
city_has v h = ground arith

add_edge-IsStore_example :
    (g : Graph ℕ ℕ) × (add_edge city 2 3 103 ≡ ok (g, edge_bound city))
    × IsStore g
    × (records g ≡ records city ++ edge_record 2 3 103 ∷ [])
    × ((e : ℕ) → contains_edge g e ≡ (if e == edge_bound city then true else contains_edge city e))
    × ((v : ℕ) → contains_node g v ≡ contains_node city v)
unfolding edge_bound
add_edge-IsStore_example =
    add_edge-IsStore city 2 3 103 city-IsStore (city_has 2 (omega arith)) (city_has 3 (omega arith))
      (omega arith)

remove_edge-Retires_example :
    Retires city (remove_edge city 2).0 (λ e. 2 == e)
    × ((remove_edge city 2).1 ≡ contains_edge city 2)
remove_edge-Retires_example = remove_edge-Retires city 2 city-IsStore

remove_node-IsStore_example :
    (g : Graph ℕ ℕ) × (remove_node city 0 ≡ ok (g, contains_node city 0))
    × IsStore g
    × (records g ≡ records city)
    × ((u : ℕ) → contains_node g u ≡ (if 0 == u then false else contains_node city u))
    × ((e : ℕ)
        → contains_edge g e ≡ (
            if contains_node city 0 && (touches city outgoing 0 e || touches city incoming 0 e)
            then false
            else contains_edge city e))
remove_node-IsStore_example = remove_node-IsStore city 0 city-IsStore

drain_into-IsThreaded_example :
    (c : DeltaChains) × (drain_into fork outgoing 6 none 0 (7 ∷ [])
      ≡ ok (c, (7 ∷ []) ++ select (passes none) (map (◌+◌ 6) (owned 0 0 (0 ∷ 0 ∷ [])))))
    × (last_of c outgoing 0 ≡ no_link)
    × ((v : ℕ) (d : Direction) → v ≢ 0 → last_of c d v ≡ last_of fork d v)
    × (c.next ≡ fork.next)
drain_into-IsThreaded_example =
    drain_into-IsThreaded fork outgoing 6 none (0 ∷ 0 ∷ []) 0 (7 ∷ []) fork-IsChained.threaded_out
      refl (omega arith)

pub city-LiveEnds : LiveEnds city
unfolding contains_node node_is_live tombstoned_nodes node_bound
city-LiveEnds zero r at live outgoing = ground (arith, at)
city-LiveEnds zero r at live incoming = ground (arith, at)
city-LiveEnds (suc zero) r at live outgoing = ground (arith, at)
city-LiveEnds (suc zero) r at live incoming = ground (arith, at)
city-LiveEnds (suc (suc zero)) r at live outgoing = ground (arith, at)
city-LiveEnds (suc (suc zero)) r at live incoming = ground (arith, at)
city-LiveEnds (suc (suc (suc e))) r at live dir = absurd (cc)

to_view-IsView_example :
    IsView (to_view city)
    × ((v : ℕ)
        → v < node_bound city
        → (successors city v ≡ ok ((to_view city).successors v))
          × (predecessors city v ≡ ok ((to_view city).predecessors v)))
    × ((v m : ℕ) → (elem m ((to_view city).successors v) ≡ true) ↔ Joins city outgoing v m)
to_view-IsView_example = to_view-IsView city city-IsStore city-LiveEnds

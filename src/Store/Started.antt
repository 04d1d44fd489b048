-- ===== src/Store/Started.antt =====
-- Where a walk of crates/cfglib/src/graph/store/adjacency.rs starts in a well-formed store, and what it
-- has ahead.
use cfglib.Prelude.{
  ℕ, ◌<◌, ◌≤◌, ◌≡◌, refl, List, true, false, not, ◌&&◌, length, get_elem?, Option, none, ok, arith,
  lt→ltb, length-map,
}
use cfglib.Store.LiveSet
use cfglib.Store.LiveSet.{LiveSet}
use cfglib.Store.Chains.{Direction, outgoing, incoming, no_link}
use cfglib.Store.Chains.Ring.{owned}
use cfglib.Store.Chains.Thread.{IsRing}
use cfglib.Store.Graph.{Graph, node_bound, edge_bound, tombstoned_nodes}
use cfglib.Store.Walk.{
  Axis, AdjacencyCursor, exhausted, axis_of, cursor_at, ends_or_none, overlay, adjacent, live_of,
}
use cfglib.Store.Walk.Steps.{IsBefore}
use cfglib.Store.Walk.Start.{Rest-ends}
use cfglib.Store.Invariant.{IsStore, endpoint, endpoints, Indexed}

module _ {ℓ κ} {N : Type ℓ} {E : Type κ} where
  delta_room :
      (g : Graph N E) (dir : Direction) → IsStore g → length (endpoints dir g.delta_edges) ≤ no_link
  unfolding edge_bound
  delta_room g dir w = omega (arith, w.edge_room, length-map (endpoint dir) g.delta_edges)

  IsRing-of :
      (g : Graph N E) (dir : Direction) (v : ℕ)
      → IsStore g
      → IsRing g.chains dir
          (endpoints dir g.delta_edges)
          v
          (owned 0 v (endpoints dir g.delta_edges))
  IsRing-of g outgoing v w = w.chained.threaded_out.rings v
  IsRing-of g incoming v w = w.chained.threaded_in.rings v

  -- A cursor at a live node stands before the node's run and chain.
  cursor_at-IsBefore :
      (g : Graph N E) (live : Option LiveSet) (axis : Axis) (v : ℕ) (ends bs ds : List ℕ)
      → v < node_bound g
      → (tombstoned_nodes g && not (LiveSet.is_live g.live_nodes v)) ≡ false
      → Indexed axis v bs
      → length ends ≤ no_link
      → IsRing axis.chains axis.chain ends v ds
      → (c : AdjacencyCursor) × (first : ℕ) × (cursor_at g v axis ≡ ok c)
        × IsBefore axis live (get_elem? ends) v first c bs ds
  unfolding cursor_at
  cursor_at-IsBefore g live axis v ends bs ds h alive (base, end, bounds, slice) room ring =
      let (found, first, run, rest) = Rest-ends axis.chains axis.chain ends v ds room ring in
      (
        record {
          base = base;
          base_end = end;
          delta = (ends_or_none found).0;
          delta_last = (ends_or_none found).1;
        },
        first,
        rw (lt→ltb v (node_bound g) h, alive, bounds, run),
        (slice, rest),
      )

  overlay-none :
      (g : Graph N E) (v : ℕ) (dir : Direction) → g.relocations ≡ none → overlay g v dir ≡ ok none
  unfolding overlay
  overlay-none g v dir unmoved = rw unmoved

  pub adjacent-run :
      (g : Graph N E) (dir : Direction) (v : ℕ) (c : AdjacencyCursor)
      → g.relocations ≡ none
      → cursor_at g v (axis_of g dir) ≡ ok c
      → adjacent g v dir ≡ ok (axis_of g dir, c)
  unfolding adjacent
  adjacent-run g dir v c unmoved run = rw (run, overlay-none g v dir unmoved)

  -- What a started walk has ahead.
  pub started :
      (g : Graph N E) (dir : Direction) (v : ℕ)
      → IsStore g
      → v < node_bound g
      → (tombstoned_nodes g && not (LiveSet.is_live g.live_nodes v)) ≡ false
      → (c : AdjacencyCursor) × (first : ℕ) × (adjacent g v dir ≡ ok (axis_of g dir, c))
        × IsBefore
            (axis_of g dir)
            (live_of g)
            (get_elem? (endpoints dir g.delta_edges))
            v
            first
            c
            (owned 0 v (endpoints dir g.base_edges))
            (owned 0 v (endpoints dir g.delta_edges))
  unfolding axis_of
  started g outgoing v w h alive =
      let (c, first, run, at) =
        cursor_at-IsBefore g (live_of g) (axis_of g outgoing) v (endpoints outgoing g.delta_edges)
          (owned 0 v (endpoints outgoing g.base_edges))
          (owned 0 v (endpoints outgoing g.delta_edges)) h alive (w.indexed outgoing v)
          (delta_room g outgoing w) (IsRing-of g outgoing v w) in
      (c, first, adjacent-run g outgoing v c w.unmoved run, at)
  started g incoming v w h alive =
      let (c, first, run, at) =
        cursor_at-IsBefore g (live_of g) (axis_of g incoming) v (endpoints incoming g.delta_edges)
          (owned 0 v (endpoints incoming g.base_edges))
          (owned 0 v (endpoints incoming g.delta_edges)) h alive (w.indexed incoming v)
          (delta_room g incoming w) (IsRing-of g incoming v w) in
      (c, first, adjacent-run g incoming v c w.unmoved run, at)

  pub axis_next :
      (g : Graph N E) (dir : Direction) → length (axis_of g dir).chains.next ≡ length g.chains.next
  unfolding axis_of
  axis_next g outgoing = refl
  axis_next g incoming = refl

  pub next_size :
      (g : Graph N E) (dir : Direction)
      → IsStore g
      → length g.chains.next ≡ length (endpoints dir g.delta_edges)
  next_size g outgoing w = w.chained.size_out
  next_size g incoming w = w.chained.size_in

  pub exhausted_at :
      (g : Graph N E) (v : ℕ) (axis : Axis)
      → v < node_bound g
      → (tombstoned_nodes g && not (LiveSet.is_live g.live_nodes v)) ≡ true
      → cursor_at g v axis ≡ ok exhausted
  unfolding cursor_at
  exhausted_at g v axis h gone = rw (lt→ltb v (node_bound g) h, gone)

-- ===== src/Store/Walk.antt =====
-- The adjacency walk of crates/cfglib/src/graph/store/adjacency.rs: the compressed run, then the
-- delta chain. A walk is stepped at most once for each edge of the store and once to see its end.
pub mod Steps
pub mod Start
pub mod Member
use cfglib.Prelude.{
  ℕ, zero, suc, ◌+◌, ◌-◌, ◌^◌, List, [], ◌∷◌, ◌++◌, Bool, true, false, not, ◌&&◌, ◌||◌, length,
  get_elem?, set, ltb, leb, ◌==◌, if◌then◌else◌, Option, none, some, Result, ok, panic, out_of_fuel,
  ◌>>=◌, ◌>>◌, read, assert, map,
}
use cfglib.Store.LiveSet
use cfglib.Store.LiveSet.{LiveSet}
use cfglib.Store.Chains
use cfglib.Store.Chains.{DeltaChains, Direction, outgoing, incoming, no_link, link, Links}
use cfglib.Store.Graph.{
  Graph, EdgeRecord, Relocations, get_run, runs_of, node_bound, edge_bound, tombstoned_nodes,
  tombstoned_edges, retire_edge, node_is_live, edge,
}

pub record AdjacencyCursor : Type 0 where
  pub base : ℕ
  pub base_end : ℕ
  pub delta : ℕ
  pub delta_last : ℕ

abbrev pub exhausted : AdjacencyCursor
exhausted = record { base = 0; base_end = 0; delta = no_link; delta_last = no_link }

pub record Axis : Type 0 where
  pub offsets : List ℕ
  pub edges : List ℕ
  pub chains : DeltaChains
  pub chain : Direction

-- `live.is_none_or(|set| set.is_live(edge))`
unfoldable pub passes : Option LiveSet → ℕ → Bool
passes none edge = true
passes (some set) edge = LiveSet.is_live set edge

module _ (axis : Axis) (live : Option LiveSet) where
  -- The first loop of `advance`, over the `left` entries of the compressed run that remain.
  unfoldable pub advance_base : ℕ → AdjacencyCursor → Result (Option ℕ × AdjacencyCursor)
  advance_base zero cursor = ok (none, cursor)
  advance_base (suc left) cursor = do
    edge ← read axis.edges cursor.base
    let cursor = record cursor { base = suc cursor.base }
    let rest = advance_base left cursor
    if passes live edge then ok (some edge, cursor) else rest

  -- The successor of the cursor's delta edge, none behind the last.
  unfoldable pub after_delta : AdjacencyCursor → Result ℕ
  after_delta cursor =
      if cursor.delta == cursor.delta_last
      then ok no_link
      else (read axis.chains.next cursor.delta >>= λ links. ok (link links axis.chain))

  -- The second loop, along the chain.
  unfoldable pub advance_delta : ℕ → ℕ → AdjacencyCursor → Result (Option ℕ × AdjacencyCursor)
  advance_delta delta_base zero cursor = out_of_fuel
  advance_delta delta_base (suc fuel) cursor =
      let found = after_delta cursor >>= λ after.
      let moved = record cursor { delta = after } in
      let rest = advance_delta delta_base fuel moved in
      if passes live (delta_base + cursor.delta)
      then ok (some (delta_base + cursor.delta), moved)
      else rest in
      if cursor.delta == no_link then ok (none, cursor) else found

  unfoldable pub advance : ℕ → AdjacencyCursor → Result (Option ℕ × AdjacencyCursor)
  advance delta_base cursor = do
    (found, cursor) ← advance_base (cursor.base_end - cursor.base) cursor
    let chain = advance_delta delta_base (suc (length axis.chains.next)) cursor
    elim found [ some edge ↦ ok (some edge, cursor) | none ↦ chain ]

  -- `collect()` of an `AdjacentEdges` iterator.
  unfoldable pub collect : ℕ → ℕ → AdjacencyCursor → Result (List ℕ)
  collect delta_base zero cursor = out_of_fuel
  collect delta_base (suc fuel) cursor = do
    (found, cursor) ← advance delta_base cursor
    let rest = collect delta_base fuel cursor
    elim found [ none ↦ ok [] | some edge ↦ (rest >>= λ edges. ok (edge ∷ edges)) ]

-- The loop of `degree` along a chain.
unfoldable pub count_chain : Axis → ℕ → ℕ → ℕ → ℕ → Result ℕ
count_chain axis delta_last zero count delta = out_of_fuel
count_chain axis delta_last (suc fuel) count delta =
    let next = read axis.chains.next delta >>= λ links.
    count_chain axis delta_last fuel (count + 1) (link links axis.chain) in
    if delta == no_link then ok count else if delta == delta_last then ok (count + 1) else next

-- The compressed run of a node: nothing for a node that the index does not describe.
unfoldable pub run_bounds : Axis → ℕ → Result (ℕ × ℕ)
run_bounds axis index =
    if ltb (index + 1) (length axis.offsets)
    then (do
      base ← read axis.offsets index
      base_end ← read axis.offsets (index + 1)
      ok (base, base_end))
    else ok (0, 0)

abbrev pub ends_or_none : Option (ℕ × ℕ) → ℕ × ℕ
ends_or_none none = (no_link, no_link)
ends_or_none (some e) = e

module _ {ℓ κ} {N : Type ℓ} {E : Type κ} where
  unfoldable pub axis_of : Graph N E → Direction → Axis
  axis_of g outgoing = record {
    offsets = g.out_offsets;
    edges = g.out_edges;
    chains = g.chains;
    chain = outgoing;
  }
  axis_of g incoming = record {
    offsets = g.in_offsets;
    edges = g.in_edges;
    chains = g.chains;
    chain = incoming;
  }

  unfoldable pub cursor_at : Graph N E → ℕ → Axis → Result AdjacencyCursor
  cursor_at g index axis = do
    assert (ltb index (node_bound g))
    let started = (do
      (base, base_end) ← run_bounds axis index
      found ← Chains.ends axis.chains index axis.chain
      let (delta, delta_last) = ends_or_none found
      ok (record { base = base; base_end = base_end; delta = delta; delta_last = delta_last }))
    if tombstoned_nodes g && not (LiveSet.is_live g.live_nodes index) then ok exhausted else started

  unfoldable pub overlay : Graph N E → ℕ → Direction → Result (Option (List ℕ))
  overlay g node dir = elim g.relocations [ none ↦ ok none | some r ↦ get_run (runs_of r dir) node ]

  -- A walk that was started: its axis and its cursor.
  unfoldable pub adjacent : Graph N E → ℕ → Direction → Result (Axis × AdjacencyCursor)
  adjacent g node dir = do
    let axis = axis_of g dir
    cursor ← cursor_at g node axis
    over ← overlay g node dir
    ok (elim over [
      | none ↦ (axis, cursor)
      | some run ↦ (record axis { edges = run }, record cursor { base = 0; base_end = length run })
    ])

  abbrev pub live_of : Graph N E → Option LiveSet
  live_of g = if tombstoned_edges g then some g.live_edges else none

  -- The live edges of a node in one direction, in adjacency order.
  unfoldable pub adjacent_edges : Graph N E → ℕ → Direction → Result (List ℕ)
  adjacent_edges g node dir = do
    (axis, cursor) ← adjacent g node dir
    collect axis (live_of g) (length g.base_edges) (suc (length axis.edges + length g.delta_edges))
        cursor

  -- Counts the walk if removed edges have to be skipped, else the run by its bounds and the chain.
  unfoldable pub degree : Graph N E → ℕ → Direction → Result ℕ
  degree g node dir = do
    (axis, cursor) ← adjacent g node dir
    let walked =
        collect axis (live_of g) (length g.base_edges)
          (suc (length axis.edges + length g.delta_edges)) cursor
    let counted =
        count_chain axis cursor.delta_last (suc (length axis.chains.next))
          (cursor.base_end - cursor.base) cursor.delta
    elim (live_of g) [ some live ↦ (walked >>= λ edges. ok (length edges)) | none ↦ counted ]

  unfoldable pub out_degree : Graph N E → ℕ → Result ℕ
  out_degree g node = degree g node outgoing

  unfoldable pub in_degree : Graph N E → ℕ → Result ℕ
  in_degree g node = degree g node incoming

  unfoldable pub edges_out : Graph N E → ℕ → Result (List ℕ)
  edges_out g node = adjacent_edges g node outgoing

  unfoldable pub edges_in : Graph N E → ℕ → Result (List ℕ)
  edges_in g node = adjacent_edges g node incoming

  unfoldable pub retire_all : Graph N E → List ℕ → Graph N E
  retire_all g [] = g
  retire_all g (edge ∷ edges) = retire_all (retire_edge g edge).0 edges

  unfoldable pub clear_adjacency : Graph N E → ℕ → Direction → Result (Graph N E)
  clear_adjacency g node dir = adjacent_edges g node dir >>= λ incident. ok (retire_all g incident)

  -- Returns the store and whether the node had been live.
  unfoldable pub remove_node : Graph N E → ℕ → Result (Graph N E × Bool)
  remove_node g index =
      let removed = (do
        g ← clear_adjacency g index outgoing
        g ← clear_adjacency g index incoming
        ok (
          record g {
            live_nodes = (LiveSet.clear g.live_nodes index).0;
            live_node_count = g.live_node_count - 1;
          },
          true,
        )) in
      if node_is_live g index then removed else ok (g, false)

-- ===== src/Store/Graph.antt =====
-- `Graph` of crates/cfglib/src/graph/store.rs: the compressed base, the appendable delta, the
-- liveness bits, and the operations that append to and read the store.
use cfglib.Prelude.{
  ℕ, ◌+◌, ◌-◌, List, [], ◌∷◌, ◌++◌, Bool, true, false, not, ◌&&◌, ◌||◌, length, get_elem?, set, ltb,
  ◌==◌, if◌then◌else◌, Option, none, some, Result, ok, ◌>>=◌, ◌>>◌, read, assert,
}
use cfglib.Store.LiveSet
use cfglib.Store.LiveSet.{LiveSet}
use cfglib.Store.Chains
use cfglib.Store.Chains.{DeltaChains, Direction, outgoing, incoming, no_link, max_slots}

-- One directed edge, `EdgeRecord` of crates/cfglib/src/graph/store/edge.rs. Identities are dense
-- indices, so an `Id` is a number.
pub record EdgeRecord {κ} (E : Type κ) : Type κ where
  pub source : ℕ
  pub target : ℕ
  pub payload : E

-- The replacement runs of one direction, crates/cfglib/src/graph/store/relocate/runs.rs.
pub record Runs : Type 0 where
  pub index : List ℕ
  pub runs : List (List ℕ)

unfoldable pub get_run : Runs → ℕ → Result (Option (List ℕ))
get_run r node = elim (get_elem? r.index node) [
  | none ↦ ok none
  | some slot ↦ if slot == no_link then ok none else (read r.runs slot >>= λ run. ok (some run))
]

pub record Relocations : Type 0 where
  pub out_runs : Runs
  pub in_runs : Runs

abbrev pub runs_of : Relocations → Direction → Runs
runs_of r outgoing = r.out_runs
runs_of r incoming = r.in_runs

pub record Graph {ℓ κ} (N : Type ℓ) (E : Type κ) : Type (ℓ ⊔ κ) where
  pub base_nodes : List N
  pub base_edges : List (EdgeRecord E)
  pub out_offsets : List ℕ
  pub out_edges : List ℕ
  pub in_offsets : List ℕ
  pub in_edges : List ℕ
  pub delta_nodes : List N
  pub delta_edges : List (EdgeRecord E)
  pub chains : DeltaChains
  pub live_nodes : LiveSet
  pub live_edges : LiveSet
  pub live_node_count : ℕ
  pub live_edge_count : ℕ
  pub relocations : Option Relocations

module _ {ℓ κ} {N : Type ℓ} {E : Type κ} where
  unfoldable pub tagged : Graph N E
  tagged = record {
    base_nodes = [];
    base_edges = [];
    out_offsets = [];
    out_edges = [];
    in_offsets = [];
    in_edges = [];
    delta_nodes = [];
    delta_edges = [];
    chains = Chains.new;
    live_nodes = LiveSet.new;
    live_edges = LiveSet.new;
    live_node_count = 0;
    live_edge_count = 0;
    relocations = none;
  }

  unfoldable pub node_bound : Graph N E → ℕ
  node_bound g = length g.base_nodes + length g.delta_nodes

  unfoldable pub edge_bound : Graph N E → ℕ
  edge_bound g = length g.base_edges + length g.delta_edges

  unfoldable pub tombstoned_nodes : Graph N E → Bool
  tombstoned_nodes g = not (g.live_node_count == node_bound g)

  unfoldable pub tombstoned_edges : Graph N E → Bool
  tombstoned_edges g = not (g.live_edge_count == edge_bound g)

  unfoldable pub node_is_live : Graph N E → ℕ → Bool
  node_is_live g slot =
      ltb slot (node_bound g) && (not (tombstoned_nodes g) || LiveSet.is_live g.live_nodes slot)

  unfoldable pub edge_is_live : Graph N E → ℕ → Bool
  edge_is_live g slot =
      ltb slot (edge_bound g) && (not (tombstoned_edges g) || LiveSet.is_live g.live_edges slot)

  -- Returns the store and the identity of the node.
  unfoldable pub add_node : Graph N E → N → Result (Graph N E × ℕ)
  add_node g payload = do
    let slot = node_bound g
    assert (ltb slot max_slots)
    ok (
      record g {
        delta_nodes = g.delta_nodes ++ payload ∷ [];
        live_nodes = (LiveSet.push_live g.live_nodes).0;
        live_node_count = g.live_node_count + 1;
      },
      slot,
    )

  unfoldable pub assert_live_endpoint : Graph N E → ℕ → Result (Unit {0})
  assert_live_endpoint g node = do assert (ltb node (node_bound g)); assert (node_is_live g node)

  unfoldable pub add_edge : Graph N E → ℕ → ℕ → E → Result (Graph N E × ℕ)
  add_edge g source target payload = do
    assert_live_endpoint g source
    assert_live_endpoint g target
    let slot = edge_bound g
    assert (ltb slot max_slots)
    chains ← Chains.append g.chains source target (node_bound g)
    ok (
      record g {
        delta_edges =
            g.delta_edges ++ (record { source = source; target = target; payload = payload }) ∷ [];
        chains = chains;
        live_edges = (LiveSet.push_live g.live_edges).0;
        live_edge_count = g.live_edge_count + 1;
      },
      slot,
    )

  -- Returns the store and whether the edge had been live.
  unfoldable pub retire_edge : Graph N E → ℕ → Graph N E × Bool
  retire_edge g slot =
      let (live, cleared) = LiveSet.clear g.live_edges slot in
      if cleared
      then (record g { live_edges = live; live_edge_count = g.live_edge_count - 1 }, true)
      else (g, false)

  unfoldable pub remove_edge : Graph N E → ℕ → Graph N E × Bool
  remove_edge g edge = retire_edge g edge

  -- `node` and `edge` read the base below its length, and the delta above.
  unfoldable pub node : Graph N E → ℕ → Result N
  node g index =
      if ltb index (length g.base_nodes)
      then read g.base_nodes index
      else read g.delta_nodes (index - length g.base_nodes)

  unfoldable pub edge : Graph N E → ℕ → Result (EdgeRecord E)
  edge g index =
      if ltb index (length g.base_edges)
      then read g.base_edges index
      else read g.delta_edges (index - length g.base_edges)

  -- `node_mut` lends the payload of a node; the borrower writes it by `write`.
  unfoldable pub node_mut : Graph N E → ℕ → (N → N) → Result (Graph N E)
  node_mut g index write =
      let base = length g.base_nodes in
      if ltb index base
      then (do
        payload ← read g.base_nodes index
        ok (record g { base_nodes = set g.base_nodes index (write payload) }))
      else (do
        payload ← read g.delta_nodes (index - base)
        ok (record g { delta_nodes = set g.delta_nodes (index - base) (write payload) }))

  unfoldable pub contains_node : Graph N E → ℕ → Bool
  contains_node g node = node_is_live g node

  unfoldable pub contains_edge : Graph N E → ℕ → Bool
  contains_edge g edge = edge_is_live g edge

  -- All records in identity order, removed ones included.
  abbrev pub records : Graph N E → List (EdgeRecord E)
  records g = g.base_edges ++ g.delta_edges

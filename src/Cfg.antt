-- ===== src/Cfg.antt =====
-- The control-flow graph of crates/cfglib/src/cfg.rs and crates/cfglib/src/cfg/mutation.rs: blocks and
-- edges in a graph store, with an entry block.
pub mod Edge
pub mod Block
pub mod Regions
pub mod Kinds
pub mod Grows
pub mod Exits
pub mod Mutation
pub mod Protection
pub mod Cleanups
use cfglib.Prelude.{
  ℕ, List, [], ◌∷◌, Bool, true, false, not, Option, none, some, Result, ok, ◌>>=◌, ◌>>◌, assert,
  ◌==◌, if◌then◌else◌,
}
use cfglib.Store.Graph
use cfglib.Store.Graph.{Graph, EdgeRecord}
use cfglib.Store.Walk
use cfglib.Store.Listing
use cfglib.Cfg.Edge.{EdgeKind}
use cfglib.Cfg.Block.{BasicBlock}
use cfglib.Cfg.Regions.{Region, Cleanup}

abbrev pub CfgStore {ℓ κ ω} : Type ω → Type ℓ → Type κ → Type (ℓ ⊔ κ ⊔ ω)
CfgStore W I E = Graph (BasicBlock I) (Edge.Edge W E)

pub record Cfg {ℓ κ ω} (W : Type ω) (I : Type ℓ) (E : Type κ) : Type (ℓ ⊔ κ ⊔ ω) where
  pub graph : CfgStore W I E
  pub entry : ℕ
  pub regions : List Region
  pub cleanups : List Cleanup

module _ {ℓ κ ω} {W : Type ω} {I : Type ℓ} {E : Type κ} where
  -- `with_edge_payload`
  unfoldable pub new : Result (Cfg W I E)
  unfolding Block.new
  new = do
    (graph, entry) ← Graph.add_node Graph.tagged Block.new
    ok (record { graph = graph; entry = entry; regions = []; cleanups = [] })

  unfoldable pub set_entry : Cfg W I E → ℕ → Result (Cfg W I E)
  set_entry cfg id = do assert (Graph.contains_node cfg.graph id); ok (record cfg { entry = id })

  unfoldable pub block : Cfg W I E → ℕ → Result (BasicBlock I)
  block cfg id = Graph.node cfg.graph id

  -- `block_mut` lends the block; the borrower writes it by `write`.
  unfoldable pub block_mut : Cfg W I E → ℕ → (BasicBlock I → BasicBlock I) → Result (Cfg W I E)
  block_mut cfg id write = do
    graph ← Graph.node_mut cfg.graph id write
    ok (record cfg { graph = graph })

  unfoldable pub block_ids : Cfg W I E → List ℕ
  block_ids cfg = Listing.node_ids cfg.graph

  unfoldable pub blocks : Cfg W I E → Result (List (BasicBlock I))
  unfolding block block_ids
  blocks cfg = Listing.traverse (block cfg) (block_ids cfg)

  unfoldable pub contains_block : Cfg W I E → ℕ → Bool
  contains_block cfg id = Graph.contains_node cfg.graph id

  unfoldable pub contains_edge : Cfg W I E → ℕ → Bool
  contains_edge cfg id = Graph.contains_edge cfg.graph id

  unfoldable pub edge : Cfg W I E → ℕ → Result (EdgeRecord (Edge.Edge W E))
  edge cfg id = do assert (Graph.contains_edge cfg.graph id); Graph.edge cfg.graph id

  unfoldable pub outgoing : Cfg W I E → ℕ → Result (List ℕ)
  outgoing cfg id = Walk.edges_out cfg.graph id

  unfoldable pub incoming : Cfg W I E → ℕ → Result (List ℕ)
  incoming cfg id = Walk.edges_in cfg.graph id

  unfoldable pub block_count : Cfg W I E → ℕ
  block_count cfg = Listing.node_count cfg.graph

  unfoldable pub edge_count : Cfg W I E → ℕ
  edge_count cfg = Listing.edge_count cfg.graph

  -- The operations that create a block or an edge return the graph and the identity.
  unfoldable pub new_block : Cfg W I E → Result (Cfg W I E × ℕ)
  unfolding Block.new
  new_block cfg = do
    (graph, id) ← Graph.add_node cfg.graph Block.new
    ok (record cfg { graph = graph }, id)

  unfoldable pub add_edge_with_payload : Cfg W I E → ℕ → ℕ → EdgeKind → E → Result (Cfg W I E × ℕ)
  add_edge_with_payload cfg source target kind payload = do
    (graph, id) ←
        Graph.add_edge cfg.graph source target
          (record { kind = kind; weight = none; payload = payload })
    ok (record cfg { graph = graph }, id)

  -- `remove_block` returns the graph and whether the block had been live.
  unfoldable pub remove_block : Cfg W I E → ℕ → Result (Cfg W I E × Bool)
  remove_block cfg id = do
    assert (not (id == cfg.entry))
    (graph, removed) ← Walk.remove_node cfg.graph id
    ok (record cfg { graph = graph }, removed)

-- ===== src/Cfg/Mutation.antt =====
-- The mutations of a control-flow graph as calls, of crates/cfglib/src/cfg/mutation.rs and, for the
-- entry and the contents of a block, crates/cfglib/src/cfg.rs.
pub mod Refused
pub mod Kept
pub mod Joined
pub mod Runs
mod Tests
use cfglib.Prelude.{
  ℕ, List, [], ◌∷◌, Bool, true, not, ◌&&◌, ltb, ◌==◌, Option, none, some, Result, ok, ◌>>=◌,
}
use cfglib.Store.Graph
use cfglib.Store.Graph.{node_bound, contains_node}
use cfglib.Cfg.{
  Cfg, set_entry, block_mut, new_block, add_edge_with_payload, remove_block, contains_block,
}
use cfglib.Cfg.Edge.{EdgeKind}
use cfglib.Cfg.Block.{BasicBlock}

module _ {ℓ κ ω} {W : Type ω} {I : Type ℓ} {E : Type κ} where
  -- Returns the graph and the identity of the edge.
  unfoldable pub add_weighted_edge_with_payload :
      Cfg W I E → ℕ → ℕ → EdgeKind → W → E → Result (Cfg W I E × ℕ)
  add_weighted_edge_with_payload cfg source target kind weight payload = do
    (graph, id) ←
        Graph.add_edge cfg.graph source target
          (record { kind = kind; weight = some weight; payload = payload })
    ok (record cfg { graph = graph }, id)

  -- Returns the graph and whether the edge had been live.
  unfoldable pub remove_edge : Cfg W I E → ℕ → Cfg W I E × Bool
  remove_edge cfg id =
      let (graph, removed) = Graph.remove_edge cfg.graph id in
      (record cfg { graph = graph }, removed)

-- A call of one of the mutations.
pub data Call {ℓ κ ω} (W : Type ω) (I : Type ℓ) (E : Type κ) : Type (ℓ ⊔ κ ⊔ ω) where
  making : Call W I E
  joining : ℕ → ℕ → EdgeKind → E → Call W I E
  weighing : ℕ → ℕ → EdgeKind → W → E → Call W I E
  dropping : ℕ → Call W I E
  cutting : ℕ → Call W I E
  entering : ℕ → Call W I E
  writing : ℕ → (BasicBlock I → BasicBlock I) → Call W I E

module _ {ℓ κ ω} {W : Type ω} {I : Type ℓ} {E : Type κ} where
  unfoldable pub perform : Call W I E → Cfg W I E → Result (Cfg W I E)
  perform making cfg = new_block cfg >>= λ r. ok r.0
  perform (joining source target kind payload) cfg =
      add_edge_with_payload cfg source target kind payload >>= λ r. ok r.0
  perform (weighing source target kind weight payload) cfg =
      add_weighted_edge_with_payload cfg source target kind weight payload >>= λ r. ok r.0
  perform (dropping id) cfg = remove_block cfg id >>= λ r. ok r.0
  perform (cutting id) cfg = ok (remove_edge cfg id).0
  perform (entering id) cfg = set_entry cfg id
  perform (writing id write) cfg = block_mut cfg id write

  unfoldable pub run : List (Call W I E) → Cfg W I E → Result (Cfg W I E)
  run [] cfg = ok cfg
  run (call ∷ calls) cfg = perform call cfg >>= run calls

  -- What a call asks of the graph, while identities are left.
  abbrev pub is_allowed : Call W I E → Cfg W I E → Bool
  is_allowed making cfg = true
  is_allowed (joining source target kind payload) cfg =
      contains_node cfg.graph source && contains_node cfg.graph target
  is_allowed (weighing source target kind weight payload) cfg =
      contains_node cfg.graph source && contains_node cfg.graph target
  is_allowed (dropping id) cfg = not (id == cfg.entry)
  is_allowed (cutting id) cfg = true
  is_allowed (entering id) cfg = contains_node cfg.graph id
  is_allowed (writing id write) cfg = ltb id (node_bound cfg.graph)

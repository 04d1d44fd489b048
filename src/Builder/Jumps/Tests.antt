-- ===== src/Builder/Jumps/Tests.antt =====
-- The resolution of jumps on a concrete graph.
use cfglib.Prelude.{ℕ, zero, suc, ◌≡◌, refl, List, [], ◌∷◌, ◌==◌, Option, none, some, ok, arith}
use cfglib.Store.Chains.{outgoing, incoming}
use cfglib.Store.Graph.{contains_node, node_is_live, tombstoned_nodes, node_bound, edge_bound}
use cfglib.Store.Walk.{axis_of}
use cfglib.Store.Chains.Ring.{owned}
use cfglib.Store.Invariant.{IsStore, Indexed, endpoints}
use cfglib.Store.Append.{edge_record}
use cfglib.Store.Ends.{LiveEnds}
use cfglib.Store.Scenario.{city, city-IsStore}
use cfglib.Cfg.{Cfg}
use cfglib.Cfg.Edge.{Edge, EdgeKind}
use cfglib.Cfg.Block.{BasicBlock}
use cfglib.Builder.Flow.{FlowEffect}
use cfglib.Builder.Jumps.{JumpTargets, JumpResolution, resolve_jump_edges}
use cfglib.Builder.Jumps.Resolved.{Resolves, resolve_jump_edges-Resolves}

-- An instruction and its token.
abbrev Line : Type 0
Line = FlowEffect × ℕ

abbrev token_of : Line → Option ℕ
token_of line = some line.1

abbrev numbered : JumpTargets Line ℕ
numbered = record {
  flow_effect = λ line. line.0;
  jump_target = token_of;
  label = token_of;
  same = λ s t. s == t;
}

abbrev lines : List Line → BasicBlock Line
lines insts = record { instructions = insts; label = none }

abbrev way : EdgeKind → Edge ℕ (Unit {0})
way kind = record { kind = kind; weight = none; payload = tt }

-- Block 0 jumps to the label 5, which two blocks have, and block 1 to the label 9, which none has.
abbrev junction : Cfg ℕ Line (Unit {0})
junction = record {
  graph = record {
    base_nodes =
        lines ((FlowEffect.conditional_jump, 5) ∷ [])
        ∷ lines ((FlowEffect.label, 5) ∷ (FlowEffect.jump, 9) ∷ [])
        ∷ [];
    base_edges = edge_record 0 1 (way EdgeKind.conditional_false) ∷ [];
    out_offsets = 0 ∷ 1 ∷ 1 ∷ [];
    out_edges = 0 ∷ [];
    in_offsets = 0 ∷ 0 ∷ 1 ∷ [];
    in_edges = 0 ∷ [];
    delta_nodes = lines ((FlowEffect.label, 5) ∷ []) ∷ lines [] ∷ [];
    delta_edges =
        edge_record 0 1 (way EdgeKind.fallthrough)
        ∷ edge_record 0 2 (way EdgeKind.switch_case)
        ∷ [];
    chains = city.chains;
    live_nodes = record { words = 15 ∷ []; len = 4 };
    live_edges = record { words = 5 ∷ []; len = 3 };
    live_node_count = 4;
    live_edge_count = 2;
    relocations = none;
  };
  entry = 0;
  regions = [];
  cleanups = [];
}

-- It has the edges of `city`.
junction-IsStore : IsStore junction.graph
unfolding node_bound edge_bound axis_of
junction-IsStore = record {
  chained = city-IsStore.chained;
  indexed = λ dir v.
      elim dir
        as (λ k.
          Indexed (axis_of junction.graph k) v
            (owned 0 v (endpoints k junction.graph.base_edges))) [
              | outgoing ↦ city-IsStore.indexed outgoing v
              | incoming ↦ city-IsStore.indexed incoming v
            ];
  nodes = city-IsStore.nodes;
  edges = city-IsStore.edges;
  unmoved = refl;
  node_room = omega arith;
  edge_room = omega arith;
}

junction-LiveEnds : LiveEnds junction.graph
unfolding contains_node node_is_live tombstoned_nodes node_bound
junction-LiveEnds zero r at live outgoing = ground (arith, at)
junction-LiveEnds zero r at live incoming = ground (arith, at)
junction-LiveEnds (suc zero) r at live outgoing = ground (arith, at)
junction-LiveEnds (suc zero) r at live incoming = ground (arith, at)
junction-LiveEnds (suc (suc zero)) r at live outgoing = ground (arith, at)
junction-LiveEnds (suc (suc zero)) r at live incoming = ground (arith, at)
junction-LiveEnds (suc (suc (suc e))) r at live dir = absurd (cc)

resolve_jump_edges-Resolves_example :
    (cfg : Cfg ℕ Line (Unit {0})) × (resolution : JumpResolution ℕ) × (resolve_jump_edges numbered
        tt junction
      ≡ ok (cfg, resolution))
    × Resolves numbered tt junction cfg resolution
unfolding node_bound edge_bound
resolve_jump_edges-Resolves_example =
    resolve_jump_edges-Resolves numbered tt junction junction-IsStore junction-LiveEnds
      (omega arith)

-- ===== src/Cfg/Protection/Tests.antt =====
-- Exception regions on a concrete graph.
use cfglib.Prelude.{ℕ, zero, suc, ◌≡◌, ◌⊎◌, refl, [], ◌∷◌, none, some, ok, ◌>>=◌, arith}
use cfglib.Store.Chains.{outgoing, incoming}
use cfglib.Store.Graph.{contains_node, node_is_live, tombstoned_nodes, node_bound, edge_bound}
use cfglib.Store.Walk.{axis_of}
use cfglib.Store.Chains.Ring.{owned}
use cfglib.Store.Invariant.{IsStore, Indexed, endpoints}
use cfglib.Store.Append.{edge_record}
use cfglib.Store.Ends.{LiveEnds}
use cfglib.Store.Scenario.{city, city-IsStore}
use cfglib.Cfg.{Cfg}
use cfglib.Cfg.Edge.{Edge, EdgeKind}
use cfglib.Cfg.Block.{BasicBlock}
use cfglib.Cfg.Regions.{Region, Handler, HandlerBody, HandlerKind}
use cfglib.Cfg.Protection.{
  region, add_region, extend_exception_metadata_to_tail, extend_region, extend_blocks, insert_block,
  protecting_region, protecting, compute, cover, cover_all, tombstone, remove_unreachable_regions,
}
use cfglib.Cfg.Protection.Innermost.{Unprotected, IsInnermost, compute-protecting_region}
use cfglib.Cfg.Protection.Unreachable.{Removes, remove_unreachable_regions-Removes}

abbrev unmarked_way : Edge ℕ (Unit {0})
unmarked_way = record { kind = EdgeKind.fallthrough; weight = none; payload = tt }

abbrev line : ℕ → BasicBlock ℕ
line inst = record { instructions = inst ∷ []; label = none }

abbrev caught_at : ℕ → Handler
caught_at block = record { entry = block; body = HandlerBody.unknown; kind = HandlerKind.catch_all }

-- The entry leads to the blocks 1 and 2. Region 0 protects the blocks 0 and 1 and is handled at
-- block 2; region 1 protects block 1 and is handled at block 3, which nothing leads to.
abbrev guarded : Cfg ℕ ℕ (Unit {0})
guarded = record {
  graph = record {
    base_nodes = line 0 ∷ line 1 ∷ [];
    base_edges = edge_record 0 1 unmarked_way ∷ [];
    out_offsets = 0 ∷ 1 ∷ 1 ∷ [];
    out_edges = 0 ∷ [];
    in_offsets = 0 ∷ 0 ∷ 1 ∷ [];
    in_edges = 0 ∷ [];
    delta_nodes = line 2 ∷ line 3 ∷ [];
    delta_edges = edge_record 0 1 unmarked_way ∷ edge_record 0 2 unmarked_way ∷ [];
    chains = city.chains;
    live_nodes = record { words = 15 ∷ []; len = 4 };
    live_edges = record { words = 5 ∷ []; len = 3 };
    live_node_count = 4;
    live_edge_count = 2;
    relocations = none;
  };
  entry = 0;
  regions =
      record { id = 0; protected_blocks = 0 ∷ 1 ∷ []; handlers = caught_at 2 ∷ []; parent = none }
      ∷ record { id = 1; protected_blocks = 1 ∷ []; handlers = caught_at 3 ∷ []; parent = some 0 }
      ∷ [];
  cleanups = [];
}

guarded-IsStore : IsStore guarded.graph
unfolding node_bound edge_bound axis_of
guarded-IsStore = record {
  chained = city-IsStore.chained;
  indexed = λ dir v.
      elim dir
        as (λ k.
          Indexed (axis_of guarded.graph k) v (owned 0 v (endpoints k guarded.graph.base_edges))) [
            | outgoing ↦ city-IsStore.indexed outgoing v
            | incoming ↦ city-IsStore.indexed incoming v
          ];
  nodes = city-IsStore.nodes;
  edges = city-IsStore.edges;
  unmoved = refl;
  node_room = omega arith;
  edge_room = omega arith;
}

guarded-LiveEnds : LiveEnds guarded.graph
unfolding contains_node node_is_live tombstoned_nodes node_bound
guarded-LiveEnds zero r at live outgoing = ground (arith, at)
guarded-LiveEnds zero r at live incoming = ground (arith, at)
guarded-LiveEnds (suc zero) r at live outgoing = ground (arith, at)
guarded-LiveEnds (suc zero) r at live incoming = ground (arith, at)
guarded-LiveEnds (suc (suc zero)) r at live outgoing = ground (arith, at)
guarded-LiveEnds (suc (suc zero)) r at live incoming = ground (arith, at)
guarded-LiveEnds (suc (suc (suc e))) r at live dir = absurd (cc)

innermost : protecting (compute guarded) 1 ≡ some 1
unfolding protecting compute cover cover_all node_bound
innermost = refl

outermost : protecting (compute guarded) 0 ≡ some 0
unfolding protecting compute cover cover_all node_bound
outermost = refl

-- An added region takes its place as its identity.
renamed : (add_region guarded (tombstone 999) >>= λ r. ok (region r.0 2)) ≡ ok (some (tombstone 2))
unfolding add_region region
renamed = refl

split_tail : protecting (compute (extend_exception_metadata_to_tail guarded 1 3)) 3 ≡ some 1
unfolding protecting compute cover cover_all node_bound extend_exception_metadata_to_tail
    extend_region extend_blocks insert_block
split_tail = refl

compute-protecting_region_example :
    Unprotected 1 guarded.regions
      × (protecting_region guarded 1 ≡ none)
      × (protecting (compute guarded) 1 ≡ none)
    ⊎ ((k : ℕ) × (r : Region) × IsInnermost 1 guarded.regions k r
        × (protecting_region guarded 1 ≡ some r)
        × (protecting (compute guarded) 1 ≡ some r.id))
unfolding node_bound
compute-protecting_region_example = compute-protecting_region guarded 1 (omega arith)

remove_unreachable_regions-Removes_example :
    (cfg : Cfg ℕ ℕ (Unit {0})) × (n : ℕ) × (remove_unreachable_regions guarded ≡ ok (cfg, n))
    × Removes guarded cfg n
unfolding node_bound
remove_unreachable_regions-Removes_example =
    remove_unreachable_regions-Removes guarded guarded-IsStore guarded-LiveEnds (omega arith)
      (refl, (refl, tt))

-- ===== src/Cfg/Mutation/Tests.antt =====
-- A sequence of mutations of a fresh graph, that of the documentation of `remove_block` in
-- crates/cfglib/src/cfg/mutation.rs.
use cfglib.Prelude.{ℕ, ◌≡◌, ◌⊎◌, refl, List, [], ◌∷◌, Result, ok, panic, ◌>>=◌, arith}
use cfglib.Store.Graph
use cfglib.Store.Graph.{node_bound, edge_bound, tagged, contains_node, Graph}
use cfglib.Cfg.{Cfg, new, remove_block}
use cfglib.Cfg.Edge.{EdgeKind}
use cfglib.Cfg.Grows.{new-IsWhole}
use cfglib.Cfg.Mutation.{Call, making, joining, dropping, run, perform}
use cfglib.Cfg.Mutation.Kept.{IsGraph}
use cfglib.Cfg.Mutation.Runs.{AllAllowed, run-IsGraph}

abbrev Small : Type 0
Small = Cfg ℕ ℕ (Unit {0})

-- An orphan is made, joined to the entry and removed.
abbrev orphaned : List (Call ℕ ℕ (Unit {0}))
orphaned = making ∷ joining 0 1 EdgeKind.fallthrough tt ∷ dropping 1 ∷ []

abbrev fresh : Small
fresh = (new-IsWhole {W = ℕ} {I = ℕ} {E = Unit {0}}).0

fresh-IsGraph : IsGraph fresh
fresh-IsGraph =
    let (_, _, whole, _, _, _, _) = new-IsWhole {W = ℕ} {I = ℕ} {E = Unit {0}} in
    record {
      store = whole.store;
      ends = whole.ends;
      entered = whole.full fresh.entry whole.entered;
    }

fresh_sizes : (node_bound fresh.graph ≡ 1) × (edge_bound fresh.graph ≡ 0)
fresh_sizes =
    let (_, _, _, nodes, edges, _, _) = new-IsWhole {W = ℕ} {I = ℕ} {E = Unit {0}} in (nodes, edges)

abbrev made : Result Small
made = new

entry_stays : (made >>= run (dropping 0 ∷ [])) ≡ panic
unfolding run perform remove_block new Graph.add_node Graph.node_bound Graph.tagged
entry_stays = refl

run-IsGraph_example :
    AllAllowed orphaned fresh × ((cfg : Small) × (run orphaned fresh ≡ ok cfg) × IsGraph cfg)
    ⊎ ¬ (AllAllowed orphaned fresh) × (run orphaned fresh ≡ panic)
run-IsGraph_example =
    run-IsGraph orphaned fresh fresh-IsGraph (omega (arith, fresh_sizes.0))
      (omega (arith, fresh_sizes.1))

-- ===== src/Cfg/Mutation/Kept.antt =====
-- What the mutations of crates/cfglib/src/cfg/mutation.rs keep: the store is well formed, no live
-- edge hangs, and the entry is live.
use cfglib.Prelude.{
  ℕ, suc, ◌≤◌, ◌<◌, ◌≡◌, ◌⊎◌, refl, ◌∙◌, ap, subst, inl, inr, Bool, true, false, not, length, ltb,
  ◌==◌, Result, ok, panic, arith, Bool-cases, ltb→lt, get_elem?, some,
}
use cfglib.Store.Chains.{max_slots}
use cfglib.Store.Graph.{
  Graph, node_bound, edge_bound, contains_node, contains_edge, node_is_live, records,
  assert_live_endpoint, node_mut,
}
use cfglib.Store.Graph
use cfglib.Store.Invariant.{IsStore, endpoint}
use cfglib.Store.Append.{add_node-IsStore}
use cfglib.Store.Ends.{LiveEnds, LiveEnds-frame, remove_node-LiveEnds, records_size}
use cfglib.Store.Isolate.{remove_node-IsStore, remove_node-node_bound}
use cfglib.Store.Retire.{Retires, remove_edge-Retires}
use cfglib.Store.Contents.{node_mut-Rewrites}
use cfglib.Cfg.{Cfg, set_entry, block_mut, new_block, remove_block}
use cfglib.Cfg.Block
use cfglib.Cfg.Mutation.{making, dropping, cutting, entering, writing, perform, run, remove_edge}
use cfglib.Cfg.Mutation.Refused.{node_mut-panic}

module _ {ℓ κ} {N : Type ℓ} {E : Type κ} where
  Retires-LiveEnds :
      (g g' : Graph N E) (gone : ℕ → Bool) → Retires g g' gone → LiveEnds g → LiveEnds g'
  Retires-LiveEnds g g' gone r ends e rec at live dir =
      let before : contains_edge g e ≡ true = ground (arith, r.edges e, live) in
      r.nodes (endpoint dir rec)
      ∙ ends e rec (subst (λ rs. get_elem? rs e ≡ some rec) r.kept at) before dir

module _ {ℓ κ ω} {W : Type ω} {I : Type ℓ} {E : Type κ} where
  pub record IsGraph (cfg : Cfg W I E) : Type (κ ⊔ ω) where
    pub store : IsStore cfg.graph
    pub ends : LiveEnds cfg.graph
    pub entered : contains_node cfg.graph cfg.entry ≡ true

  -- A graph after a call: one block and one edge more at most.
  pub record Follows (cfg cfg' : Cfg W I E) : Type (κ ⊔ ω) where
    pub graph : IsGraph cfg'
    pub blocks : node_bound cfg'.graph ≤ suc (node_bound cfg.graph)
    pub edges : edge_bound cfg'.graph ≤ suc (edge_bound cfg.graph)

  -- A call returns exactly if it is allowed, and otherwise panics.
  abbrev pub Answers : Cfg W I E → Bool → Result (Cfg W I E) → Type (ℓ ⊔ κ ⊔ ω)
  Answers cfg allowed result =
      (allowed ≡ true) × ((cfg' : Cfg W I E) × (result ≡ ok cfg') × Follows cfg cfg')
      ⊎ (allowed ≡ false) × (result ≡ panic)

  module _ (cfg : Cfg W I E) (w : IsGraph cfg) where
    pub new_block-Answers : node_bound cfg.graph < max_slots → Answers cfg true (perform making cfg)
    unfolding perform new_block Block.new
    new_block-Answers room =
        let g = cfg.graph in
        let (g', run, store, grows, kept, nodes, edges) =
          add_node-IsStore g Block.new w.store room in
        let stay = λ (v : ℕ) (live : contains_node g v ≡ true). nodes v ∙ ground (arith, live) in
        inl (
          refl,
          (
            record cfg { graph = g' },
            rw run refl,
            record {
              graph = record {
                store = store;
                ends = LiveEnds-frame g g' kept edges stay w.ends;
                entered = stay cfg.entry w.entered;
              };
              blocks = omega (arith, grows);
              edges = omega (arith, records_size g', ap length kept, records_size g);
            },
          ),
        )

    pub remove_edge-Answers : (id : ℕ) → Answers cfg true (perform (cutting id) cfg)
    unfolding perform remove_edge
    remove_edge-Answers id =
        let g = cfg.graph in
        let (r, _) = remove_edge-Retires g id w.store in
        let g' = (Graph.remove_edge g id).0 in
        inl (
          refl,
          (
            record cfg { graph = g' },
            refl,
            record {
              graph = record {
                store = r.store;
                ends = Retires-LiveEnds g g' (λ e. id == e) r w.ends;
                entered = r.nodes cfg.entry ∙ w.entered;
              };
              blocks = omega (arith, r.bound);
              edges = omega (arith, records_size g', ap length r.kept, records_size g);
            },
          ),
        )

    pub set_entry-Answers :
        (id : ℕ) → Answers cfg (contains_node cfg.graph id) (perform (entering id) cfg)
    unfolding perform set_entry
    set_entry-Answers id = elim (Bool-cases (contains_node cfg.graph id)) [
      | inr gone ↦ inr (gone, rw gone refl)
      | inl live ↦ inl (
        live,
        (
          record cfg { entry = id },
          rw live refl,
          record {
            graph = record { store = w.store; ends = w.ends; entered = live };
            blocks = omega arith;
            edges = omega arith;
          },
        ),
      )
    ]

    pub remove_block-Answers :
        (id : ℕ) → Answers cfg (not (id == cfg.entry)) (perform (dropping id) cfg)
    unfolding perform remove_block
    remove_block-Answers id = elim (Bool-cases (id == cfg.entry)) [
      | inl entry ↦ inr (rw entry refl, rw entry refl)
      | inr other ↦
          let g = cfg.graph in
          let (g', run, store, kept, nodes, edges) = remove_node-IsStore g id w.store in
          let (g₂, run₂, ends) = remove_node-LiveEnds g id w.store w.ends in
          let same : g₂ ≡ g' = cc (run, run₂) in
          inl (
            rw other refl,
            (
              record cfg { graph = g' },
              rw (other, run) refl,
              record {
                graph = record {
                  store = store;
                  ends = subst LiveEnds same ends;
                  entered = nodes cfg.entry ∙ rw other w.entered;
                };
                blocks = omega (arith, remove_node-node_bound g g' id w.store run);
                edges = omega (arith, records_size g', ap length kept, records_size g);
              },
            ),
          )
    ]

    pub block_mut-Answers :
        (id : ℕ) (write : Block.BasicBlock I → Block.BasicBlock I)
        → Answers cfg (ltb id (node_bound cfg.graph)) (perform (writing id write) cfg)
    unfolding perform block_mut
    block_mut-Answers id write = elim (Bool-cases (ltb id (node_bound cfg.graph))) [
      | inr outside ↦ inr (outside, rw (node_mut-panic cfg.graph id write outside) refl)
      | inl inside ↦
          let g = cfg.graph in
          let (g', run, r) =
            node_mut-Rewrites g id write w.store (ltb→lt id (node_bound g) inside) in
          inl (
            inside,
            (
              record cfg { graph = g' },
              rw run refl,
              record {
                graph = record {
                  store = r.store;
                  ends = LiveEnds-frame g g' r.kept r.edges (λ u live. r.nodes u ∙ live) w.ends;
                  entered = r.nodes cfg.entry ∙ w.entered;
                };
                blocks = omega (arith, r.bound);
                edges = omega (arith, r.edge_bound);
              },
            ),
          )
    ]

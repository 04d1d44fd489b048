-- ===== src/Cfg/Grows.antt =====
-- How the operations that create a block or an edge, crates/cfglib/src/cfg/mutation.rs, and the write
-- of an instruction change a well-formed control-flow graph from which nothing was removed.
use mathlib.Core.List.{append_assoc, append-nil}
use cfglib.Prelude.{
  ℕ, zero, suc, ◌+◌, ◌<◌, ◌≡◌, refl, sym, ◌∙◌, ap, subst, inl, inr, List, [], ◌∷◌, ◌++◌, true,
  length, get_elem?, none, some, ok, ◌==◌, arith, Bool-cases, ==→≢, length-append,
}
use cfglib.Store.Chains.{max_slots}
use cfglib.Store.Graph.{tagged, add_node, node_bound, edge_bound, contains_node, records}
use cfglib.Store.Invariant.{IsStore, tagged-IsStore}
use cfglib.Store.Append.{add_node-IsStore, add_edge-IsStore, edge_record}
use cfglib.Store.Ends.{LiveEnds, LiveEnds-frame, add_edge-LiveEnds, records_size}
use cfglib.Store.Contents.{
  payloads, modify, node_mut-Rewrites, payloads-add_node, payloads-add_edge, payloads_size,
}
use cfglib.Cfg
use cfglib.Cfg.{Cfg, CfgStore, new, new_block, add_edge_with_payload, block_mut}
use cfglib.Cfg.Edge.{EdgeKind}
use cfglib.Cfg.Block
use cfglib.Cfg.Block.{BasicBlock, push}

-- The instructions of a list of blocks, one block after another.
abbrev pub program {ℓ} : {I : Type ℓ} → List (BasicBlock I) → List I
program [] = []
program (b ∷ bs) = b.instructions ++ program bs

pub program-append {ℓ} :
    {I : Type ℓ} (bs cs : List (BasicBlock I)) → program (bs ++ cs) ≡ program bs ++ program cs
program-append [] cs = refl
program-append (b ∷ bs) cs =
    ap (λ is. b.instructions ++ is) (program-append bs cs)
    ∙ sym (append_assoc b.instructions (program bs) (program cs))

program-modify {ℓ} :
    {I : Type ℓ} (bs : List (BasicBlock I)) (v : ℕ) (inst : I)
    → length bs ≡ suc v
    → program (modify bs v (push inst)) ≡ program bs ++ inst ∷ []
unfolding push
program-modify [] v inst e = absurd (omega arith)
program-modify (b ∷ []) zero inst e = simp (append-nil)
program-modify (b ∷ []) (suc v) inst e = absurd (omega arith)
program-modify (b ∷ c ∷ bs) zero inst e = absurd (omega arith)
program-modify (b ∷ c ∷ bs) (suc v) inst e =
    ap (λ is. b.instructions ++ is) (program-modify (c ∷ bs) v inst (omega arith))
    ∙ sym (append_assoc b.instructions (program (c ∷ bs)) (inst ∷ []))

module _ {ℓ κ ω} {W : Type ω} {I : Type ℓ} {E : Type κ} where
  -- A well-formed graph whose blocks are all live, as are the ends of its edges.
  pub record IsWhole (cfg : Cfg W I E) : Type (κ ⊔ ω) where
    pub store : IsStore cfg.graph
    pub ends : LiveEnds cfg.graph
    pub full : (v : ℕ) → v < node_bound cfg.graph → contains_node cfg.graph v ≡ true
    pub entered : cfg.entry < node_bound cfg.graph

  -- `cfg'` is `cfg` with `n` blocks and `m` edges more, and with the instructions `is` after the others.
  pub record Adds (cfg cfg' : Cfg W I E) (is : List I) (n m : ℕ) : Type (ℓ ⊔ κ ⊔ ω) where
    pub whole : IsWhole cfg'
    pub blocks : node_bound cfg'.graph ≡ node_bound cfg.graph + n
    pub edges : edge_bound cfg'.graph ≡ edge_bound cfg.graph + m
    pub entry : cfg'.entry ≡ cfg.entry
    pub code : program (payloads cfg'.graph) ≡ program (payloads cfg.graph) ++ is

  pub Adds-refl : (cfg : Cfg W I E) → IsWhole cfg → Adds cfg cfg [] 0 0
  Adds-refl cfg w = record {
    whole = w;
    blocks = omega arith;
    edges = omega arith;
    entry = refl;
    code = sym (append-nil _);
  }

  pub Adds-then :
      (cfg₁ cfg₂ cfg₃ : Cfg W I E) {is js : List I} {n m k l : ℕ}
      → Adds cfg₁ cfg₂ is n m
      → Adds cfg₂ cfg₃ js k l
      → Adds cfg₁ cfg₃ (is ++ js) (n + k) (m + l)
  Adds-then cfg₁ cfg₂ cfg₃ {is} {js} a b = record {
    whole = b.whole;
    blocks = omega (arith, a.blocks, b.blocks);
    edges = omega (arith, a.edges, b.edges);
    entry = b.entry ∙ a.entry;
    code = b.code ∙ ap (λ ps. ps ++ js) a.code ∙ append_assoc (program (payloads cfg₁.graph)) is js;
  }

  pub new_block-Adds :
      (cfg : Cfg W I E)
      → IsWhole cfg
      → node_bound cfg.graph < max_slots
      → (cfg' : Cfg W I E) × (new_block cfg ≡ ok (cfg', node_bound cfg.graph))
        × Adds cfg cfg' [] 1 0
  unfolding new_block edge_bound Block.new
  new_block-Adds cfg w room =
      let (g', run, store, grows, kept, nodes, edges) =
        add_node-IsStore cfg.graph Block.new w.store room in
      let cfg' : Cfg W I E = record cfg { graph = g' } in
      (
        cfg',
        rw run,
        record {
          whole = record {
            store = store;
            ends =
                LiveEnds-frame cfg.graph g' kept edges (λ v live. nodes v ∙ ground (arith, live))
                  w.ends;
            full = λ v h. nodes v ∙ elim (Bool-cases (v == node_bound cfg.graph)) [
              | inl same ↦ rw same
              | inr other ↦
                  let ne = ==→≢ v (node_bound cfg.graph) other in
                  rw other (w.full v (omega (arith, grows)))
            ];
            entered = omega (arith, w.entered, grows);
          };
          blocks = omega (arith, grows);
          edges = sym (records_size g') ∙ ap length kept ∙ records_size cfg.graph ∙ omega arith;
          entry = refl;
          code =
              ap program (payloads-add_node cfg.graph g' Block.new (node_bound cfg.graph) run)
              ∙ program-append (payloads cfg.graph) (Block.new ∷ []);
        },
      )

  pub add_edge-Adds :
      (cfg : Cfg W I E) (source target : ℕ) (kind : EdgeKind) (payload : E)
      → IsWhole cfg
      → source < node_bound cfg.graph
      → target < node_bound cfg.graph
      → edge_bound cfg.graph < max_slots
      → (cfg' : Cfg W I E) × (add_edge_with_payload cfg source target kind payload
          ≡ ok (cfg', edge_bound cfg.graph))
        × Adds cfg cfg' [] 0 1
  unfolding add_edge_with_payload
  add_edge-Adds cfg source target kind payload w hs ht room =
      let g = cfg.graph in
      let edge : Cfg.Edge.Edge W E = record { kind = kind; weight = none; payload = payload } in
      let ls = w.full source hs in
      let lt = w.full target ht in
      let (g', run, store, kept, edges, nodes) =
        add_edge-IsStore g source target edge w.store ls lt room in
      let (g₂, run₂, ends) = add_edge-LiveEnds g source target edge w.store w.ends ls lt room in
      let same : g₂ ≡ g' = cc (run, run₂) in
      let held = payloads-add_edge g g' source target (edge_bound g) edge run in
      let bound : node_bound g' ≡ node_bound g =
        sym (payloads_size g') ∙ ap length held ∙ payloads_size g in
      let cfg' : Cfg W I E = record cfg { graph = g' } in
      (
        cfg',
        rw run,
        record {
          whole = record {
            store = store;
            ends = subst LiveEnds same ends;
            full = λ v h. nodes v ∙ w.full v (omega (arith, bound));
            entered = omega (arith, w.entered, bound);
          };
          blocks = omega (arith, bound);
          edges = omega (
            arith,
            records_size g',
            ap length kept,
            records_size g,
            length-append (records g) (edge_record source target edge ∷ []),
          );
          entry = refl;
          code = ap program held ∙ sym (append-nil _);
        },
      )

  pub push-Adds :
      (cfg : Cfg W I E) (v : ℕ) (inst : I)
      → IsWhole cfg
      → node_bound cfg.graph ≡ suc v
      → (cfg' : Cfg W I E) × (block_mut cfg v (push inst) ≡ ok cfg') × Adds cfg cfg' (inst ∷ []) 0 0
  unfolding block_mut
  push-Adds cfg v inst w last =
      let g = cfg.graph in
      let (g', run, r) = node_mut-Rewrites g v (push inst) w.store (omega (arith, last)) in
      let cfg' : Cfg W I E = record cfg { graph = g' } in
      (
        cfg',
        rw run,
        record {
          whole = record {
            store = r.store;
            ends = LiveEnds-frame g g' r.kept r.edges (λ u live. r.nodes u ∙ live) w.ends;
            full = λ u h. r.nodes u ∙ w.full u (omega (arith, r.bound));
            entered = omega (arith, w.entered, r.bound);
          };
          blocks = omega (arith, r.bound);
          edges = omega (arith, r.edge_bound);
          entry = refl;
          code = ap program r.written ∙ program-modify (payloads g) v inst (payloads_size g ∙ last);
        },
      )

  -- A first block on an empty store.
  first_block-IsWhole :
      (g : CfgStore W I E)
      → IsStore g
      → payloads g ≡ []
      → records g ≡ []
      → (g' : CfgStore W I E) × (add_node g Block.new ≡ ok (g', node_bound g))
        × IsWhole (record { graph = g'; entry = node_bound g; regions = []; cleanups = [] })
        × (node_bound g' ≡ 1)
        × (edge_bound g' ≡ 0)
        × (node_bound g ≡ 0)
        × (program (payloads g') ≡ [])
  unfolding Block.new
  first_block-IsWhole g w no_nodes no_records =
      let none_yet : node_bound g ≡ 0 = sym (payloads_size g) ∙ ap length no_nodes in
      let (g', run, store, grows, kept, nodes, edges) =
        add_node-IsStore g Block.new w (omega (arith, none_yet)) in
      let empty : records g' ≡ [] = kept ∙ no_records in
      (
        g',
        run,
        record {
          store = store;
          ends = λ e r at live dir. absurd (cc (subst (λ rs. get_elem? rs e ≡ some r) empty at));
          full = λ v h. nodes v ∙ ground (arith, grows, none_yet);
          entered = omega (arith, grows);
        },
        omega (arith, grows, none_yet),
        sym (records_size g') ∙ ap length empty,
        none_yet,
        ap program (payloads-add_node g g' Block.new (node_bound g) run)
            ∙ program-append (payloads g) (Block.new ∷ [])
            ∙ ap (λ bs. program bs ++ []) no_nodes,
      )

  abbrev empty_store : CfgStore W I E
  empty_store = tagged

  -- A fresh graph has one block, the entry, which is empty.
  pub new-IsWhole :
      (cfg : Cfg W I E) × (Cfg.new ≡ ok cfg)
      × IsWhole cfg
      × (node_bound cfg.graph ≡ 1)
      × (edge_bound cfg.graph ≡ 0)
      × (cfg.entry ≡ 0)
      × (program (payloads cfg.graph) ≡ [])
  unfolding new tagged
  new-IsWhole =
      let (g', run, whole, nodes, edges, entry, code) =
        first_block-IsWhole empty_store tagged-IsStore refl refl in
      (
        record { graph = g'; entry = node_bound empty_store; regions = []; cleanups = [] },
        rw run,
        whole,
        nodes,
        edges,
        entry,
        code,
      )

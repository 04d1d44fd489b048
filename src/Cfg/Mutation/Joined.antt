-- ===== src/Cfg/Mutation/Joined.antt =====
-- What the addition of an edge to a control-flow graph keeps, crates/cfglib/src/cfg/mutation.rs.
use cfglib.Prelude.{
  ℕ, ◌<◌, ◌≡◌, ◌⊎◌, refl, ◌∙◌, ap, subst, inl, inr, [], ◌∷◌, Bool, true, false, ◌&&◌, length, ok,
  arith, none, some, length-append,
}
use cfglib.Store.Chains.{max_slots}
use cfglib.Store.Graph.{
  Graph, node_bound, edge_bound, contains_node, contains_edge, node_is_live, records,
  assert_live_endpoint, node_mut,
}
use cfglib.Store.Graph
use cfglib.Store.Append.{add_edge-IsStore, edge_record}
use cfglib.Store.Ends.{LiveEnds, add_edge-LiveEnds, records_size}
use cfglib.Store.Contents.{payloads_size, payloads-add_edge}
use cfglib.Cfg.{Cfg, CfgStore, add_edge_with_payload}
use cfglib.Cfg.Edge
use cfglib.Cfg.Mutation.{joining, weighing, perform, run, add_weighted_edge_with_payload}
use cfglib.Cfg.Mutation.Refused.{add_edge-panic}
use cfglib.Cfg.Mutation.Kept.{IsGraph, Follows, Answers}

both_cases : (a b : Bool) → (a ≡ true) × (b ≡ true) ⊎ ((a && b) ≡ false)
both_cases true true = inl (refl, refl)
both_cases true false = inr refl
both_cases false b = inr refl

module _ {ℓ κ ω} {W : Type ω} {I : Type ℓ} {E : Type κ} where
  module _ (cfg : Cfg W I E) (w : IsGraph cfg) where
    module _ (source target : ℕ) (payload : Edge.Edge W E) where
      -- A graph with one edge more.
      add_edge-Follows :
          edge_bound cfg.graph < max_slots
          → contains_node cfg.graph source ≡ true
          → contains_node cfg.graph target ≡ true
          → (g' : CfgStore W I E) × (Graph.add_edge cfg.graph source target payload
              ≡ ok (g', edge_bound cfg.graph))
            × Follows cfg (record cfg { graph = g' })
      add_edge-Follows room ls lt =
          let g = cfg.graph in
          let (g', run, store, kept, edges, nodes) =
            add_edge-IsStore g source target payload w.store ls lt room in
          let (g₂, run₂, ends) =
            add_edge-LiveEnds g source target payload w.store w.ends ls lt room in
          let same : g₂ ≡ g' = cc (run, run₂) in
          (
            g',
            run,
            record {
              graph = record {
                store = store;
                ends = subst LiveEnds same ends;
                entered = nodes cfg.entry ∙ w.entered;
              };
              blocks = omega (
                arith,
                payloads_size g',
                payloads_size g,
                ap length (payloads-add_edge g g' source target (edge_bound g) payload run),
              );
              edges = omega (
                arith,
                records_size g',
                ap length kept,
                records_size g,
                length-append (records g) (edge_record source target payload ∷ []),
              );
            },
          )

    pub joining-Answers :
        (source target : ℕ) (kind : Edge.EdgeKind) (payload : E)
        → edge_bound cfg.graph < max_slots
        → Answers cfg
            (contains_node cfg.graph source && contains_node cfg.graph target)
            (perform (joining source target kind payload) cfg)
    unfolding perform add_edge_with_payload
    joining-Answers source target kind payload room =
        let e : Edge.Edge W E = record { kind = kind; weight = none; payload = payload } in
        elim (both_cases (contains_node cfg.graph source) (contains_node cfg.graph target)) [
          | inr gone ↦ inr (gone, rw (add_edge-panic cfg.graph source target e gone) refl)
          | inl (ls, lt) ↦
              let (g', run, f) = add_edge-Follows source target e room ls lt in
              inl (rw (ls, lt) refl, (record cfg { graph = g' }, rw run refl, f))
        ]

    pub weighing-Answers :
        (source target : ℕ) (kind : Edge.EdgeKind) (weight : W) (payload : E)
        → edge_bound cfg.graph < max_slots
        → Answers cfg
            (contains_node cfg.graph source && contains_node cfg.graph target)
            (perform (weighing source target kind weight payload) cfg)
    unfolding perform add_weighted_edge_with_payload
    weighing-Answers source target kind weight payload room =
        let e : Edge.Edge W E = record { kind = kind; weight = some weight; payload = payload } in
        elim (both_cases (contains_node cfg.graph source) (contains_node cfg.graph target)) [
          | inr gone ↦ inr (gone, rw (add_edge-panic cfg.graph source target e gone) refl)
          | inl (ls, lt) ↦
              let (g', run, f) = add_edge-Follows source target e room ls lt in
              inl (rw (ls, lt) refl, (record cfg { graph = g' }, rw run refl, f))
        ]

-- ===== src/Cfg/Mutation/Runs.antt =====
-- Sequences of mutations of a control-flow graph, crates/cfglib/src/cfg/mutation.rs.
use cfglib.Prelude.{
  ◌+◌, ◌≤◌, ◌<◌, ◌≡◌, ◌⊎◌, refl, subst, inl, inr, List, [], ◌∷◌, true, length, ok, panic, arith,
}
use cfglib.Store.Chains.{max_slots}
use cfglib.Store.Graph.{node_bound, edge_bound}
use cfglib.Cfg.{Cfg}
use cfglib.Cfg.Mutation.{
  Call, making, joining, weighing, dropping, cutting, entering, writing, perform, run, is_allowed,
}
use cfglib.Cfg.Mutation.Kept.{
  IsGraph, Answers, new_block-Answers, remove_block-Answers, remove_edge-Answers, set_entry-Answers,
  block_mut-Answers,
}
use cfglib.Cfg.Mutation.Joined.{joining-Answers, weighing-Answers}

module _ {ℓ κ ω} {W : Type ω} {I : Type ℓ} {E : Type κ} where
  perform-Answers :
      (call : Call W I E) (cfg : Cfg W I E)
      → IsGraph cfg
      → node_bound cfg.graph < max_slots
      → edge_bound cfg.graph < max_slots
      → Answers cfg (is_allowed call cfg) (perform call cfg)
  perform-Answers making cfg w nodes edges = new_block-Answers cfg w nodes
  perform-Answers (joining source target kind payload) cfg w nodes edges =
      joining-Answers cfg w source target kind payload edges
  perform-Answers (weighing source target kind weight payload) cfg w nodes edges =
      weighing-Answers cfg w source target kind weight payload edges
  perform-Answers (dropping id) cfg w nodes edges = remove_block-Answers cfg w id
  perform-Answers (cutting id) cfg w nodes edges = remove_edge-Answers cfg w id
  perform-Answers (entering id) cfg w nodes edges = set_entry-Answers cfg w id
  perform-Answers (writing id write) cfg w nodes edges = block_mut-Answers cfg w id write

  -- Each call is allowed on the graph that the calls before it leave.
  abbrev pub AllAllowed : List (Call W I E) → Cfg W I E → Type (ℓ ⊔ κ ⊔ ω)
  AllAllowed [] cfg = Unit
  AllAllowed (call ∷ calls) cfg =
      (is_allowed call cfg ≡ true)
      × ((cfg' : Cfg W I E) → perform call cfg ≡ ok cfg' → AllAllowed calls cfg')

  -- On a graph whose store is well formed, with the ends of live edges live and a live entry, and
  -- with as many block and edge slots left as there are calls, a sequence of calls that make, remove
  -- and write blocks, add and remove edges and move the entry returns such a graph if each call is
  -- allowed on what the calls before it leave: edges join live blocks, the block that is removed is
  -- not the entry, the new entry is live, and the block that is written has a slot. Otherwise the
  -- sequence panics.
  pub run-IsGraph :
      (calls : List (Call W I E)) (cfg : Cfg W I E)
      → IsGraph cfg
      → node_bound cfg.graph + length calls ≤ max_slots
      → edge_bound cfg.graph + length calls ≤ max_slots
      → AllAllowed calls cfg × ((cfg' : Cfg W I E) × (run calls cfg ≡ ok cfg') × IsGraph cfg')
        ⊎ ¬ (AllAllowed calls cfg) × (run calls cfg ≡ panic)
  unfolding run
  run-IsGraph [] cfg w nodes edges = inl (tt, (cfg, refl, w))
  run-IsGraph (call ∷ calls) cfg w nodes edges =
      elim (perform-Answers call cfg w (omega (arith, nodes)) (omega (arith, edges))) [
        | inr (refused, stopped) ↦ inr (λ all. absurd (cc (refused, all.0)), rw stopped refl)
        | inl (allowed, (next, went, f)) ↦
            let rest =
              run-IsGraph calls next f.graph (omega (arith, nodes, f.blocks))
                (omega (arith, edges, f.edges)) in
            elim rest [
              | inl (later, (cfg', ended, w')) ↦ inl (
                (
                  allowed,
                  λ c e. let same : next ≡ c = cc (went, e) in subst (AllAllowed calls) same later,
                ),
                (cfg', rw went ended, w'),
              )
              | inr (fails, ended) ↦ inr (λ all. fails (all.1 next went), rw went ended)
            ]
      ]

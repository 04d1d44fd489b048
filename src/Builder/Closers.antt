-- ===== src/Builder/Closers.antt =====
-- The handlers of the structured builder, crates/cfglib/src/builder.rs, that close the innermost
-- scope.
use cfglib.Prelude
use cfglib.Prelude.{
  ℕ, suc, ◌+◌, ◌<◌, ◌≤◌, ◌≡◌, inl, inr, refl, List, [], ◌∷◌, ◌++◌, map, length, not, Bool, true,
  false, some, arith, length-append, Bool-cases, if◌then◌else◌,
}
use cfglib.Store.Chains.{max_slots}
use cfglib.Store.Graph.{node_bound, edge_bound}
use cfglib.Cfg.{Cfg, new_block, outgoing}
use cfglib.Cfg.Edge.{EdgeKind}
use cfglib.Cfg.Grows.{IsWhole, Adds, Adds-refl, Adds-then, new_block-Adds}
use cfglib.Builder.{
  BuildState, add_edge, add_edges, any_of_kind, close_conditional, close_switch, close_loop,
}
use cfglib.Builder.Scopes.{Scope, top_conditional, top_switch, top_loop}
use cfglib.Builder.Flow.{FlowEffect}
use cfglib.Builder.Grammar.{frame, step}
use cfglib.Builder.Invariant.{
  IsBuilding, HasRoom, Follows-of, Meets, ScopesBelow-grow, Below, Below-append, Below-grow, state,
}
use cfglib.Builder.Calls.{wire, wire_all, any_of_kind-ok, outgoing-ok}

module _ {ℓ ω} {W : Type ω} {I : Type ℓ} where
  -- A new block, and an edge to it from each of the blocks that wait and from the current one.
  merged :
      (cfg : Cfg W I (Unit {0})) (exits : List ℕ) (current : ℕ)
      → IsWhole cfg
      → Below (node_bound cfg.graph) exits
      → current < node_bound cfg.graph
      → node_bound cfg.graph < max_slots
      → edge_bound cfg.graph + length exits + 1 ≤ max_slots
      → (cfg₁ cfg₂ : Cfg W I (Unit {0})) × (new_block cfg ≡ Prelude.ok (cfg₁, node_bound cfg.graph))
        × (add_edges cfg₁ (exits ++ current ∷ []) (node_bound cfg.graph) EdgeKind.fallthrough
            ≡ Prelude.ok cfg₂)
        × Adds cfg cfg₂ [] 1 (length exits + 1)
  merged cfg exits current w below h nodes edges =
      let (cfg₁, run₁, a₁) = new_block-Adds cfg w nodes in
      let size = length-append exits (current ∷ []) in
      let (cfg₂, run₂, a₂) =
        wire_all cfg₁ (exits ++ current ∷ []) (node_bound cfg.graph) EdgeKind.fallthrough a₁.whole
          (Below-grow _ _ (exits ++ current ∷ []) (omega (arith, a₁.blocks))
            (Below-append _ exits current below h))
          (omega (arith, a₁.blocks)) (omega (arith, a₁.edges, edges, size)) in
      let a = Adds-then cfg cfg₁ cfg₂ a₁ a₂ in
      (
        cfg₁,
        cfg₂,
        run₁,
        run₂,
        record {
          whole = a.whole;
          blocks = a.blocks;
          edges = omega (arith, a.edges, size);
          entry = a.entry;
          code = a.code;
        },
      )

  -- The block before a conditional gets an edge to its end if it has none to an alternative.
  closed_off :
      (cfg : Cfg W I (Unit {0})) (pre merge : ℕ)
      → IsWhole cfg
      → pre < node_bound cfg.graph
      → merge < node_bound cfg.graph
      → edge_bound cfg.graph < max_slots
      → (es : List ℕ) × (has_alternate : Bool) × (cfg' : Cfg W I (Unit {0})) × (m : ℕ) × (outgoing
            cfg pre
          ≡ Prelude.ok es)
        × (any_of_kind cfg es EdgeKind.conditional_false ≡ Prelude.ok has_alternate)
        × ((if not has_alternate
              then add_edge cfg pre merge EdgeKind.conditional_false
              else Prelude.ok cfg)
            ≡ Prelude.ok cfg')
        × Adds cfg cfg' [] 0 m
        × (m ≤ 1)
  closed_off cfg pre merge w hp hm room =
      let (es, found, live) = outgoing-ok cfg pre w hp in
      let (has_alternate, asked) = any_of_kind-ok cfg es EdgeKind.conditional_false live in
      elim (Bool-cases has_alternate) [
        | inl there ↦
            (es, has_alternate, cfg, 0, found, asked, rw there refl, Adds-refl cfg w, omega arith)
        | inr missing ↦
            let (cfg', run, a) = wire cfg pre merge EdgeKind.conditional_false w hp hm room in
            (es, has_alternate, cfg', 1, found, asked, rw missing run, a, omega arith)
      ]

  conditional_by :
      (cfg : Cfg W I (Unit {0})) (current : ℕ) (scopes : List Scope)
      → IsBuilding (state cfg current scopes)
      → HasRoom (state cfg current scopes)
      → Meets
          (state cfg current scopes)
          []
          (close_conditional (state cfg current scopes))
          (step FlowEffect.conditional_close (map frame scopes))
  unfolding close_conditional top_conditional
  conditional_by cfg current [] b room = refl
  conditional_by cfg current (Scope.loop _ _ ∷ scopes) b room = refl
  conditional_by cfg current (Scope.switch _ _ _ ∷ scopes) b room = refl
  conditional_by cfg current (Scope.conditional pre arms ∷ scopes) b room =
      let ((at, exits), outer) = b.scopes in
      let merge = node_bound cfg.graph in
      let (cfg₁, cfg₂, run₁, run₂, a₂) =
        merged cfg arms current b.whole exits (omega (arith, b.last)) (omega (arith, room.blocks))
          (omega (arith, room.edges)) in
      let (es, has_alternate, cfg₃, m, found, asked, run₃, a₃, one) =
        closed_off cfg₂ pre merge a₂.whole (omega (arith, at, a₂.blocks)) (omega (arith, a₂.blocks))
          (omega (arith, a₂.edges, room.edges)) in
      let a = Adds-then cfg cfg₂ cfg₃ a₂ a₃ in
      (
        state cfg₃ merge scopes,
        rw (run₁, run₂, found, asked, run₃),
        Follows-of (state cfg current (Scope.conditional pre arms ∷ scopes)) cfg₃ merge scopes _ _ _
            a (omega (arith, a.blocks))
            (ScopesBelow-grow _ _ scopes (omega (arith, a.blocks)) outer) (omega arith)
            (omega (arith, one)),
      )

  switch_by :
      (cfg : Cfg W I (Unit {0})) (current : ℕ) (scopes : List Scope)
      → IsBuilding (state cfg current scopes)
      → HasRoom (state cfg current scopes)
      → Meets
          (state cfg current scopes)
          []
          (close_switch (state cfg current scopes))
          (step FlowEffect.switch_close (map frame scopes))
  unfolding close_switch top_switch
  switch_by cfg current [] b room = refl
  switch_by cfg current (Scope.loop _ _ ∷ scopes) b room = refl
  switch_by cfg current (Scope.conditional _ _ ∷ scopes) b room = refl
  switch_by cfg current (Scope.switch pre arms breaks ∷ scopes) b room =
      let ((at, exits, leaves), outer) = b.scopes in
      let merge = node_bound cfg.graph in
      let (cfg₁, cfg₂, run₁, run₂, a₂) =
        merged cfg arms current b.whole exits (omega (arith, b.last)) (omega (arith, room.blocks))
          (omega (arith, room.edges)) in
      let (cfg₃, run₃, a₃) =
        wire_all cfg₂ breaks merge EdgeKind.unconditional a₂.whole
          (Below-grow _ _ breaks (omega (arith, a₂.blocks)) leaves) (omega (arith, a₂.blocks))
          (omega (arith, a₂.edges, room.edges)) in
      let a = Adds-then cfg cfg₂ cfg₃ a₂ a₃ in
      (
        state cfg₃ merge scopes,
        rw (run₁, run₂, run₃),
        Follows-of (state cfg current (Scope.switch pre arms breaks ∷ scopes)) cfg₃ merge scopes _ _
            _ a (omega (arith, a.blocks))
            (ScopesBelow-grow _ _ scopes (omega (arith, a.blocks)) outer) (omega arith)
            (omega arith),
      )

  loop_by :
      (cfg : Cfg W I (Unit {0})) (current : ℕ) (scopes : List Scope)
      → IsBuilding (state cfg current scopes)
      → HasRoom (state cfg current scopes)
      → Meets
          (state cfg current scopes)
          []
          (close_loop (state cfg current scopes))
          (step FlowEffect.loop_close (map frame scopes))
  unfolding close_loop top_loop
  loop_by cfg current [] b room = refl
  loop_by cfg current (Scope.conditional _ _ ∷ scopes) b room = refl
  loop_by cfg current (Scope.switch _ _ _ ∷ scopes) b room = refl
  loop_by cfg current (Scope.loop header breaks ∷ scopes) b room =
      let ((at, leaves), outer) = b.scopes in
      let (cfg₁, run₁, a₁) =
        wire cfg current header EdgeKind.back b.whole (omega (arith, b.last)) at
          (omega (arith, room.edges)) in
      let after = node_bound cfg₁.graph in
      let (cfg₂, run₂, a₂) = new_block-Adds cfg₁ a₁.whole (omega (arith, a₁.blocks, room.blocks)) in
      let (cfg₃, run₃, a₃) =
        wire_all cfg₂ breaks after EdgeKind.unconditional a₂.whole
          (Below-grow _ _ breaks (omega (arith, a₁.blocks, a₂.blocks)) leaves)
          (omega (arith, a₂.blocks)) (omega (arith, a₁.edges, a₂.edges, room.edges)) in
      let a = Adds-then cfg cfg₁ cfg₃ a₁ (Adds-then cfg₁ cfg₂ cfg₃ a₂ a₃) in
      (
        state cfg₃ after scopes,
        rw (run₁, run₂, run₃),
        Follows-of (state cfg current (Scope.loop header breaks ∷ scopes)) cfg₃ after scopes _ _ _ a
            (omega (arith, a₂.blocks, a₃.blocks))
            (ScopesBelow-grow _ _ scopes (omega (arith, a.blocks)) outer) (omega arith)
            (omega arith),
      )

module _ {ℓ ω} {W : Type ω} {I : Type ℓ} (s : BuildState W I) (b : IsBuilding s)
    (room : HasRoom s) where
  pub close_conditional-Meets :
      Meets s [] (close_conditional s) (step FlowEffect.conditional_close (map frame s.scopes))
  close_conditional-Meets = conditional_by s.cfg s.current s.scopes b room

  pub close_switch-Meets :
      Meets s [] (close_switch s) (step FlowEffect.switch_close (map frame s.scopes))
  close_switch-Meets = switch_by s.cfg s.current s.scopes b room

  pub close_loop-Meets : Meets s [] (close_loop s) (step FlowEffect.loop_close (map frame s.scopes))
  close_loop-Meets = loop_by s.cfg s.current s.scopes b room

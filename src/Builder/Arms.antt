-- ===== src/Builder/Arms.antt =====
-- The handlers of the structured builder, crates/cfglib/src/builder.rs, that open one more arm of the
-- innermost scope: the alternative of a conditional and the next case of a switch.
use cfglib.Prelude
use cfglib.Prelude.{
  ℕ, suc, ◌+◌, ◌<◌, ◌≤◌, ◌≡◌, inl, inr, refl, List, [], ◌∷◌, ◌++◌, map, length, not, true, false,
  some, arith, length-append, Bool-cases, if◌then◌else◌,
}
use cfglib.Store.Chains.{max_slots}
use cfglib.Store.Graph.{node_bound, edge_bound}
use cfglib.Cfg.{Cfg, new_block}
use cfglib.Cfg.Edge.{EdgeKind}
use cfglib.Cfg.Grows.{IsWhole, Adds, Adds-then, new_block-Adds, push-Adds}
use cfglib.Builder.{BuildState, add_edge, push_into, alternate_conditional, add_switch_case}
use cfglib.Builder.Scopes.{Scope, top_conditional, top_switch}
use cfglib.Builder.Flow.{FlowEffect}
use cfglib.Builder.Grammar.{frame, step}
use cfglib.Builder.Invariant.{
  IsBuilding, HasRoom, Follows-of, Meets, ScopesBelow-grow, Below-append, state,
}
use cfglib.Builder.Calls.{wire}

module _ {ℓ ω} {W : Type ω} {I : Type ℓ} where
  -- A new block, an edge to it from an earlier one, and the instruction in it.
  next_arm :
      (cfg : Cfg W I (Unit {0})) (pre : ℕ) (kind : EdgeKind) (inst : I)
      → IsWhole cfg
      → pre < node_bound cfg.graph
      → node_bound cfg.graph < max_slots
      → edge_bound cfg.graph < max_slots
      → (cfg₁ cfg₂ cfg₃ : Cfg W I (Unit {0})) × (new_block cfg
          ≡ Prelude.ok (cfg₁, node_bound cfg.graph))
        × (add_edge cfg₁ pre (node_bound cfg.graph) kind ≡ Prelude.ok cfg₂)
        × (push_into cfg₂ (node_bound cfg.graph) inst ≡ Prelude.ok cfg₃)
        × Adds cfg cfg₃ (inst ∷ []) 1 1
  unfolding push_into
  next_arm cfg pre kind inst w h nodes edges =
      let (cfg₁, run₁, a₁) = new_block-Adds cfg w nodes in
      let (cfg₂, run₂, a₂) =
        wire cfg₁ pre (node_bound cfg.graph) kind a₁.whole (omega (arith, h, a₁.blocks))
          (omega (arith, a₁.blocks)) (omega (arith, a₁.edges, edges)) in
      let (cfg₃, run₃, a₃) =
        push-Adds cfg₂ (node_bound cfg.graph) inst a₂.whole (omega (arith, a₁.blocks, a₂.blocks)) in
      (
        cfg₁,
        cfg₂,
        cfg₃,
        run₁,
        run₂,
        run₃,
        Adds-then cfg cfg₁ cfg₃ a₁ (Adds-then cfg₁ cfg₂ cfg₃ a₂ a₃),
      )

  alternate_by :
      (cfg : Cfg W I (Unit {0})) (current : ℕ) (scopes : List Scope) (inst : I)
      → IsBuilding (state cfg current scopes)
      → HasRoom (state cfg current scopes)
      → Meets
          (state cfg current scopes)
          (inst ∷ [])
          (alternate_conditional (state cfg current scopes) inst)
          (step FlowEffect.conditional_alternate (map frame scopes))
  unfolding alternate_conditional top_conditional
  alternate_by cfg current [] inst b room = refl
  alternate_by cfg current (Scope.loop _ _ ∷ scopes) inst b room = refl
  alternate_by cfg current (Scope.switch _ _ _ ∷ scopes) inst b room = refl
  alternate_by cfg current (Scope.conditional pre arms ∷ scopes) inst b room =
      let ((at, exits), outer) = b.scopes in
      let (cfg₁, cfg₂, cfg₃, run₁, run₂, run₃, a) =
        next_arm cfg pre EdgeKind.conditional_false inst b.whole at (omega (arith, room.blocks))
          (omega (arith, room.edges)) in
      let scopes' = Scope.conditional pre (arms ++ current ∷ []) ∷ scopes in
      let size = length-append arms (current ∷ []) in
      (
        state cfg₃ (node_bound cfg.graph) scopes',
        rw (run₁, run₂, run₃),
        Follows-of (state cfg current (Scope.conditional pre arms ∷ scopes)) cfg₃
            (node_bound cfg.graph) scopes' _ _ _ a (omega (arith, a.blocks))
            (ScopesBelow-grow _ _ scopes' (omega (arith, a.blocks))
              ((at, Below-append _ arms current exits (omega (arith, b.last))), outer))
            (omega arith) (omega (arith, size)),
      )

  case_by :
      (cfg : Cfg W I (Unit {0})) (current : ℕ) (scopes : List Scope) (inst : I)
      → IsBuilding (state cfg current scopes)
      → HasRoom (state cfg current scopes)
      → Meets
          (state cfg current scopes)
          (inst ∷ [])
          (add_switch_case (state cfg current scopes) inst)
          (step FlowEffect.switch_case (map frame scopes))
  unfolding add_switch_case top_switch
  case_by cfg current [] inst b room = refl
  case_by cfg current (Scope.loop _ _ ∷ scopes) inst b room = refl
  case_by cfg current (Scope.conditional _ _ ∷ scopes) inst b room = refl
  case_by cfg current (Scope.switch pre arms breaks ∷ scopes) inst b room =
      let ((at, exits, leaves), outer) = b.scopes in
      let (cfg₁, cfg₂, cfg₃, run₁, run₂, run₃, a) =
        next_arm cfg pre EdgeKind.switch_case inst b.whole at (omega (arith, room.blocks))
          (omega (arith, room.edges)) in
      let scopes' = Scope.switch pre (arms ++ current ∷ []) breaks ∷ scopes in
      let size = length-append arms (current ∷ []) in
      (
        state cfg₃ (node_bound cfg.graph) scopes',
        rw (run₁, run₂, run₃),
        Follows-of (state cfg current (Scope.switch pre arms breaks ∷ scopes)) cfg₃
            (node_bound cfg.graph) scopes' _ _ _ a (omega (arith, a.blocks))
            (ScopesBelow-grow _ _ scopes' (omega (arith, a.blocks))
              ((at, Below-append _ arms current exits (omega (arith, b.last)), leaves), outer))
            (omega arith) (omega (arith, size)),
      )

module _ {ℓ ω} {W : Type ω} {I : Type ℓ} (s : BuildState W I) (b : IsBuilding s) (room : HasRoom s)
    (inst : I) where
  pub alternate_conditional-Meets :
      Meets s
        (inst ∷ [])
        (alternate_conditional s inst)
        (step FlowEffect.conditional_alternate (map frame s.scopes))
  alternate_conditional-Meets = alternate_by s.cfg s.current s.scopes inst b room

  pub add_switch_case-Meets :
      Meets s
        (inst ∷ [])
        (add_switch_case s inst)
        (step FlowEffect.switch_case (map frame s.scopes))
  add_switch_case-Meets = case_by s.cfg s.current s.scopes inst b room

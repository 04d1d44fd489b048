-- ===== src/Builder/Handlers.antt =====
-- The handlers of the structured builder, crates/cfglib/src/builder.rs, that ask nothing of the open
-- scopes: they leave them as they are or open one.
use cfglib.Prelude
use cfglib.Prelude.{◌+◌, ◌<◌, ◌≤◌, ◌≡◌, suc, subst, List, [], ◌∷◌, map, arith}
use cfglib.Store.Graph.{node_bound}
use cfglib.Cfg.{Cfg, new_block}
use cfglib.Cfg.Edge.{EdgeKind}
use cfglib.Cfg.Grows.{Adds, Adds-then, new_block-Adds, push-Adds}
use cfglib.Builder.{
  BuildState, push, end_block, open_conditional, open_switch, open_loop, add_edge, add_label,
  add_conditional_jump, push_into,
}
use cfglib.Builder.Scopes.{Scope}
use cfglib.Builder.Grammar.{frame, accept, Frame}
use cfglib.Builder.Invariant.{
  IsBuilding, HasRoom, Follows, Follows-of, Meets, ScopesBelow, ScopesBelow-grow, pending,
}
use cfglib.Builder.Calls.{wire}

module _ {ℓ ω} {W : Type ω} {I : Type ℓ} (s : BuildState W I) (b : IsBuilding s) (room : HasRoom s)
    (inst : I) where
  pub push-Meets : Meets s (inst ∷ []) (push s inst) (accept (map frame s.scopes))
  unfolding push push_into
  push-Meets =
      let (cfg, run, a) = push-Adds s.cfg s.current inst b.whole b.last in
      (
        record s { cfg = cfg },
        rw run,
        Follows-of s cfg s.current s.scopes _ _ _ a (omega (arith, a.blocks, b.last))
            (ScopesBelow-grow _ _ s.scopes (omega (arith, a.blocks)) b.scopes) (omega arith)
            (omega arith),
      )

  pub end_block-Meets : Meets s (inst ∷ []) (end_block s inst) (accept (map frame s.scopes))
  unfolding push end_block push_into
  end_block-Meets =
      let (cfg₁, run₁, a₁) = push-Adds s.cfg s.current inst b.whole b.last in
      let (cfg₂, run₂, a₂) = new_block-Adds cfg₁ a₁.whole (omega (arith, a₁.blocks, room.blocks)) in
      let a = Adds-then s.cfg cfg₁ cfg₂ a₁ a₂ in
      (
        record s { cfg = cfg₂; current = node_bound cfg₁.graph },
        rw (run₁, run₂),
        Follows-of s cfg₂ (node_bound cfg₁.graph) s.scopes _ _ _ a (omega (arith, a₂.blocks))
            (ScopesBelow-grow _ _ s.scopes (omega (arith, a.blocks)) b.scopes) (omega arith)
            (omega arith),
      )

  pub add_label-Meets : Meets s (inst ∷ []) (add_label s inst) (accept (map frame s.scopes))
  unfolding add_label push_into
  add_label-Meets =
      let next = node_bound s.cfg.graph in
      let (cfg₁, run₁, a₁) = new_block-Adds s.cfg b.whole (omega (arith, room.blocks)) in
      let (cfg₂, run₂, a₂) =
        wire cfg₁ s.current next EdgeKind.fallthrough a₁.whole (omega (arith, a₁.blocks, b.last))
          (omega (arith, a₁.blocks)) (omega (arith, a₁.edges, room.edges)) in
      let (cfg₃, run₃, a₃) =
        push-Adds cfg₂ next inst a₂.whole (omega (arith, a₁.blocks, a₂.blocks)) in
      let a = Adds-then s.cfg cfg₁ cfg₃ a₁ (Adds-then cfg₁ cfg₂ cfg₃ a₂ a₃) in
      (
        record s { cfg = cfg₃; current = next },
        rw (run₁, run₂, run₃),
        Follows-of s cfg₃ next s.scopes _ _ _ a (omega (arith, a.blocks))
            (ScopesBelow-grow _ _ s.scopes (omega (arith, a.blocks)) b.scopes) (omega arith)
            (omega arith),
      )

  -- The instruction, a block after it, and an edge to that block.
  branch :
      (kind : EdgeKind)
      → (cfg₁ cfg₂ cfg₃ : Cfg W I (Unit {0})) × (push_into s.cfg s.current inst ≡ Prelude.ok cfg₁)
        × (new_block cfg₁ ≡ Prelude.ok (cfg₂, suc s.current))
        × (add_edge cfg₂ s.current (suc s.current) kind ≡ Prelude.ok cfg₃)
        × Adds s.cfg cfg₃ (inst ∷ []) 1 1
  unfolding push_into
  branch kind =
      let (cfg₁, run₁, a₁) = push-Adds s.cfg s.current inst b.whole b.last in
      let bound : node_bound cfg₁.graph ≡ suc s.current = omega (arith, a₁.blocks, b.last) in
      let (cfg₂, run₂, a₂) =
        new_block-Adds cfg₁ a₁.whole (omega (arith, bound, b.last, room.blocks)) in
      let (cfg₃, run₃, a₃) =
        wire cfg₂ s.current (suc s.current) kind a₂.whole (omega (arith, bound, a₂.blocks))
          (omega (arith, bound, a₂.blocks)) (omega (arith, a₁.edges, a₂.edges, room.edges)) in
      (
        cfg₁,
        cfg₂,
        cfg₃,
        run₁,
        subst (λ v. new_block cfg₁ ≡ Prelude.ok (cfg₂, v)) bound run₂,
        run₃,
        Adds-then s.cfg cfg₁ cfg₃ a₁ (Adds-then cfg₁ cfg₂ cfg₃ a₂ a₃),
      )

  -- A handler that branches and then has at most one open scope more, in which nothing waits.
  branched :
      (cfg : Cfg W I (Unit {0})) (scopes : List Scope)
      → Adds s.cfg cfg (inst ∷ []) 1 1
      → (ScopesBelow (node_bound cfg.graph) s.scopes → ScopesBelow (node_bound cfg.graph) scopes)
      → pending scopes ≤ pending s.scopes
      → Follows s
          (record { cfg = cfg; current = suc s.current; scopes = scopes })
          (inst ∷ [])
          (map frame scopes)
  branched cfg scopes a more held =
      Follows-of s cfg (suc s.current) scopes _ _ _ a (omega (arith, a.blocks, b.last))
        (more (ScopesBelow-grow _ _ s.scopes (omega (arith, a.blocks)) b.scopes)) (omega arith)
        (omega (arith, held))

  pub open_conditional-Meets :
      Meets s
        (inst ∷ [])
        (open_conditional s inst)
        (accept (Frame.conditional ∷ map frame s.scopes))
  unfolding open_conditional push
  open_conditional-Meets =
      let (cfg₁, cfg₂, cfg₃, run₁, run₂, run₃, a) = branch EdgeKind.conditional_true in
      let scopes = Scope.conditional s.current [] ∷ s.scopes in
      (
        record { cfg = cfg₃; current = suc s.current; scopes = scopes },
        rw (run₁, run₂, run₃),
        branched cfg₃ scopes a (λ h. ((omega (arith, a.blocks, b.last), tt), h)) (omega arith),
      )

  pub open_switch-Meets :
      Meets s (inst ∷ []) (open_switch s inst) (accept (Frame.switch ∷ map frame s.scopes))
  unfolding open_switch push
  open_switch-Meets =
      let (cfg₁, cfg₂, cfg₃, run₁, run₂, run₃, a) = branch EdgeKind.switch_case in
      let scopes = Scope.switch s.current [] [] ∷ s.scopes in
      (
        record { cfg = cfg₃; current = suc s.current; scopes = scopes },
        rw (run₁, run₂, run₃),
        branched cfg₃ scopes a (λ h. ((omega (arith, a.blocks, b.last), tt, tt), h)) (omega arith),
      )

  pub open_loop-Meets :
      Meets s (inst ∷ []) (open_loop s inst) (accept (Frame.loop ∷ map frame s.scopes))
  unfolding open_loop push
  open_loop-Meets =
      let (cfg₁, cfg₂, cfg₃, run₁, run₂, run₃, a) = branch EdgeKind.fallthrough in
      let scopes = Scope.loop (suc s.current) [] ∷ s.scopes in
      (
        record { cfg = cfg₃; current = suc s.current; scopes = scopes },
        rw (run₁, run₂, run₃),
        branched cfg₃ scopes a (λ h. ((omega (arith, a.blocks, b.last), tt), h)) (omega arith),
      )

  pub add_conditional_jump-Meets :
      Meets s (inst ∷ []) (add_conditional_jump s inst) (accept (map frame s.scopes))
  unfolding add_conditional_jump push
  add_conditional_jump-Meets =
      let (cfg₁, cfg₂, cfg₃, run₁, run₂, run₃, a) = branch EdgeKind.conditional_false in
      (
        record { cfg = cfg₃; current = suc s.current; scopes = s.scopes },
        rw (run₁, run₂, run₃),
        branched cfg₃ s.scopes a (λ h. h) (omega arith),
      )

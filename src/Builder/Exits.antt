-- ===== src/Builder/Exits.antt =====
-- The handlers of the structured builder, crates/cfglib/src/builder.rs, that leave the straight path:
-- breaks, continues and conditional returns.
use cfglib.Prelude
use cfglib.Prelude.{
  ℕ, suc, ◌+◌, ◌<◌, ◌≤◌, ◌≡◌, ◌⊎◌, inl, inr, subst, ap, refl, ◌∙◌, sym, List, [], ◌∷◌, ◌++◌, map,
  Bool, true, false, Option, none, some, arith, length-append, Bool-cases,
}
use cfglib.Store.Graph.{node_bound}
use cfglib.Cfg.{Cfg, new_block}
use cfglib.Cfg.Edge.{EdgeKind}
use cfglib.Cfg.Grows.{Adds, Adds-then, new_block-Adds, push-Adds}
use cfglib.Builder.{
  BuildState, push, add_edge, push_into, add_break, add_conditional_break, add_continue,
  add_conditional_continue, add_conditional_return,
}
use cfglib.Builder.Scopes.{Scope, record_break, loop_header}
use cfglib.Builder.Outcome.{BuildError}
use cfglib.Builder.Grammar.{frame, accept, Frame, in_loop, in_breakable, needs}
use cfglib.Builder.Invariant.{
  IsBuilding, HasRoom, Follows, Follows-of, Meets, ScopesBelow, ScopesBelow-grow, pending,
  Below-append,
}
use cfglib.Builder.Calls.{wire}

-- `record_break` finds a scope exactly if one is breakable, and only adds the block to it.
Recorded : ℕ → List Scope → ℕ → Type 0
Recorded n scopes block =
    ((in_breakable (map frame scopes) ≡ true)
      × ((scopes' : List Scope) × (record_break scopes block ≡ some scopes')
          × (map frame scopes' ≡ map frame scopes)
          × ScopesBelow n scopes'
          × (pending scopes' ≡ pending scopes + 1)))
    ⊎ ((in_breakable (map frame scopes) ≡ false) × (record_break scopes block ≡ none))

recorded :
    (n : ℕ) (scopes : List Scope) (block : ℕ)
    → ScopesBelow n scopes
    → block < n
    → Recorded n scopes block
unfolding Recorded record_break
recorded n [] block below h = inr (refl, refl)
recorded n (Scope.loop header breaks ∷ scopes) block below h = inl (
  refl,
  (
    Scope.loop header (breaks ++ block ∷ []) ∷ scopes,
    refl,
    refl,
    ((below.0.0, Below-append n breaks block below.0.1 h), below.1),
    omega (arith, length-append breaks (block ∷ [])),
  ),
)
recorded n (Scope.switch pre arms breaks ∷ scopes) block below h = inl (
  refl,
  (
    Scope.switch pre arms (breaks ++ block ∷ []) ∷ scopes,
    refl,
    refl,
    ((below.0.0, below.0.1, Below-append n breaks block below.0.2 h), below.1),
    omega (arith, length-append breaks (block ∷ [])),
  ),
)
recorded n (Scope.conditional pre arms ∷ scopes) block below h =
    elim (recorded n scopes block below.1 h) [
      | inl (inside, (scopes', run, shape, rest, size)) ↦ inl (
        inside,
        (
          Scope.conditional pre arms ∷ scopes',
          rw run refl,
          ap (λ fs. Frame.conditional ∷ fs) shape,
          (below.0, rest),
          omega (arith, size),
        ),
      )
      | inr (outside, run) ↦ inr (outside, rw run refl)
    ]

-- `loop_header` finds a block exactly if a loop is open.
headed :
    (n : ℕ) (scopes : List Scope)
    → ScopesBelow n scopes
    → ((in_loop (map frame scopes) ≡ true)
        × ((header : ℕ) × (loop_header scopes ≡ some header) × (header < n)))
      ⊎ ((in_loop (map frame scopes) ≡ false) × (loop_header scopes ≡ none))
unfolding loop_header
headed n [] below = inr (refl, refl)
headed n (Scope.loop header breaks ∷ scopes) below = inl (refl, (header, refl, below.0.0))
headed n (Scope.conditional pre arms ∷ scopes) below = headed n scopes below.1
headed n (Scope.switch pre arms breaks ∷ scopes) below = headed n scopes below.1

module _ {ℓ ω} {W : Type ω} {I : Type ℓ} (s : BuildState W I) (b : IsBuilding s) (room : HasRoom s)
    (inst : I) where
  pushed :
      (cfg : Cfg W I (Unit {0})) × (push_into s.cfg s.current inst ≡ Prelude.ok cfg)
      × Adds s.cfg cfg (inst ∷ []) 0 0
      × (node_bound cfg.graph ≡ suc s.current)
  unfolding push_into
  pushed =
      let (cfg, run, a) = push-Adds s.cfg s.current inst b.whole b.last in
      (cfg, run, a, omega (arith, a.blocks, b.last))

  -- The instruction, two blocks after it, and an edge to each.
  fork :
      (cfg₁ cfg₂ cfg₃ cfg₄ cfg₅ : Cfg W I (Unit {0})) × (push_into s.cfg s.current inst
        ≡ Prelude.ok cfg₁)
      × (new_block cfg₁ ≡ Prelude.ok (cfg₂, suc s.current))
      × (new_block cfg₂ ≡ Prelude.ok (cfg₃, suc (suc s.current)))
      × (add_edge cfg₃ s.current (suc s.current) EdgeKind.conditional_true ≡ Prelude.ok cfg₄)
      × (add_edge cfg₄ s.current (suc (suc s.current)) EdgeKind.conditional_false ≡ Prelude.ok cfg₅)
      × Adds s.cfg cfg₅ (inst ∷ []) 2 2
  fork =
      let (cfg₁, run₁, a₁, bound₁) = pushed in
      let (cfg₂, run₂, a₂) =
        new_block-Adds cfg₁ a₁.whole (omega (arith, bound₁, b.last, room.blocks)) in
      let bound₂ : node_bound cfg₂.graph ≡ suc (suc s.current) = omega (arith, bound₁, a₂.blocks) in
      let (cfg₃, run₃, a₃) =
        new_block-Adds cfg₂ a₂.whole (omega (arith, bound₂, b.last, room.blocks)) in
      let (cfg₄, run₄, a₄) =
        wire cfg₃ s.current (suc s.current) EdgeKind.conditional_true a₃.whole
          (omega (arith, bound₂, a₃.blocks)) (omega (arith, bound₂, a₃.blocks))
          (omega (arith, a₁.edges, a₂.edges, a₃.edges, room.edges)) in
      let (cfg₅, run₅, a₅) =
        wire cfg₄ s.current (suc (suc s.current)) EdgeKind.conditional_false a₄.whole
          (omega (arith, bound₂, a₃.blocks, a₄.blocks))
          (omega (arith, bound₂, a₃.blocks, a₄.blocks))
          (omega (arith, a₁.edges, a₂.edges, a₃.edges, a₄.edges, room.edges)) in
      (
        cfg₁,
        cfg₂,
        cfg₃,
        cfg₄,
        cfg₅,
        run₁,
        subst (λ v. new_block cfg₁ ≡ Prelude.ok (cfg₂, v)) bound₁ run₂,
        subst (λ v. new_block cfg₂ ≡ Prelude.ok (cfg₃, v)) bound₂ run₃,
        run₄,
        run₅,
        Adds-then s.cfg cfg₂ cfg₅ (Adds-then s.cfg cfg₁ cfg₂ a₁ a₂)
            (Adds-then cfg₂ cfg₃ cfg₅ a₃ (Adds-then cfg₃ cfg₄ cfg₅ a₄ a₅)),
      )

  -- The instruction and a new current block, with at most one block more that waits.
  arrive :
      (cfg : Cfg W I (Unit {0})) (current n m : ℕ) (scopes : List Scope)
      → Adds s.cfg cfg (inst ∷ []) n m
      → node_bound cfg.graph ≡ suc current
      → ScopesBelow (node_bound cfg.graph) scopes
      → map frame scopes ≡ map frame s.scopes
      → n ≤ 2
      → m + pending scopes ≤ pending s.scopes + 3
      → Follows s
          (record { cfg = cfg; current = current; scopes = scopes })
          (inst ∷ [])
          (map frame s.scopes)
  arrive cfg current n m scopes a last below same few held =
      subst
        (λ fs. Follows s (record { cfg = cfg; current = current; scopes = scopes }) (inst ∷ []) fs)
        same (Follows-of s cfg current scopes _ _ _ a last below few held)

  below_grown :
      (cfg : Cfg W I (Unit {0})) {n m : ℕ}
      → Adds s.cfg cfg (inst ∷ []) n m
      → ScopesBelow (node_bound cfg.graph) s.scopes
  below_grown cfg a = ScopesBelow-grow _ _ s.scopes (omega (arith, a.blocks)) b.scopes

  pub add_conditional_return-Meets :
      Meets s (inst ∷ []) (add_conditional_return s inst) (accept (map frame s.scopes))
  unfolding add_conditional_return push
  add_conditional_return-Meets =
      let (cfg₁, cfg₂, cfg₃, cfg₄, cfg₅, run₁, run₂, run₃, run₄, run₅, a) = fork in
      (
        record { cfg = cfg₅; current = suc (suc s.current); scopes = s.scopes },
        rw (run₁, run₂, run₃, run₄, run₅),
        arrive cfg₅ (suc (suc s.current)) _ _ s.scopes a (omega (arith, a.blocks, b.last))
            (below_grown cfg₅ a) refl (omega arith) (omega arith),
      )

  pub add_break-Meets : Meets s (inst ∷ []) (add_break s inst) (
      needs (in_breakable (map frame s.scopes)) (map frame s.scopes) BuildError.break_outside_scope)
  unfolding add_break push Recorded
  add_break-Meets =
      let (cfg₁, run₁, a₁, bound₁) = pushed in
      let (cfg₂, run₂, a₂) =
        new_block-Adds cfg₁ a₁.whole (omega (arith, bound₁, b.last, room.blocks)) in
      let a = Adds-then s.cfg cfg₁ cfg₂ a₁ a₂ in
      elim (recorded (node_bound cfg₂.graph) s.scopes s.current (below_grown cfg₂ a)
        (omega (arith, bound₁, a₂.blocks))) [
          | inl (inside, (scopes, found, shape, below, size)) ↦ rw inside (
            record { cfg = cfg₂; current = node_bound cfg₁.graph; scopes = scopes },
            rw (run₁, found, run₂),
            arrive cfg₂ (node_bound cfg₁.graph) _ _ scopes a (omega (arith, a₂.blocks)) below shape
                (omega arith) (omega (arith, size)),
          )
          | inr (outside, missing) ↦ rw outside (rw (run₁, missing))
        ]

  pub add_conditional_break-Meets : Meets s (inst ∷ []) (add_conditional_break s inst) (
      needs (in_breakable (map frame s.scopes)) (map frame s.scopes) BuildError.break_outside_scope)
  unfolding add_conditional_break push Recorded
  add_conditional_break-Meets =
      let (cfg₁, cfg₂, cfg₃, cfg₄, cfg₅, run₁, run₂, run₃, run₄, run₅, a) = fork in
      elim (recorded (node_bound cfg₅.graph) s.scopes (suc s.current) (below_grown cfg₅ a)
        (omega (arith, a.blocks, b.last))) [
          | inl (inside, (scopes, found, shape, below, size)) ↦ rw inside (
            record { cfg = cfg₅; current = suc (suc s.current); scopes = scopes },
            rw (run₁, run₂, run₃, run₄, run₅, found),
            arrive cfg₅ (suc (suc s.current)) _ _ scopes a (omega (arith, a.blocks, b.last)) below
                shape (omega arith) (omega (arith, size)),
          )
          | inr (outside, missing) ↦ rw outside (rw (run₁, run₂, run₃, run₄, run₅, missing))
        ]

  pub add_continue-Meets :
      Meets s
        (inst ∷ [])
        (add_continue s inst)
        (needs (in_loop (map frame s.scopes)) (map frame s.scopes) BuildError.continue_outside_loop)
  unfolding add_continue push
  add_continue-Meets =
      let (cfg₁, run₁, a₁, bound₁) = pushed in
      elim (headed (node_bound s.cfg.graph) s.scopes b.scopes) [
        | inl (inside, (header, found, below)) ↦
            let (cfg₂, run₂, a₂) =
              wire cfg₁ s.current header EdgeKind.back a₁.whole (omega (arith, bound₁))
                (omega (arith, below, bound₁, b.last)) (omega (arith, a₁.edges, room.edges)) in
            let (cfg₃, run₃, a₃) =
              new_block-Adds cfg₂ a₂.whole
                (omega (arith, a₂.blocks, bound₁, b.last, room.blocks)) in
            let a = Adds-then s.cfg cfg₁ cfg₃ a₁ (Adds-then cfg₁ cfg₂ cfg₃ a₂ a₃) in
            rw inside (
              record { cfg = cfg₃; current = node_bound cfg₂.graph; scopes = s.scopes },
              rw (run₁, found, run₂, run₃),
              arrive cfg₃ (node_bound cfg₂.graph) _ _ s.scopes a (omega (arith, a₃.blocks))
                  (below_grown cfg₃ a) refl (omega arith) (omega arith),
            )
        | inr (outside, missing) ↦ rw outside (rw (run₁, missing))
      ]

  pub add_conditional_continue-Meets :
      Meets s
        (inst ∷ [])
        (add_conditional_continue s inst)
        (needs (in_loop (map frame s.scopes)) (map frame s.scopes) BuildError.continue_outside_loop)
  unfolding add_conditional_continue push
  add_conditional_continue-Meets =
      let (cfg₁, run₁, a₁, bound₁) = pushed in
      let (cfg₂, run₂, a₂) =
        new_block-Adds cfg₁ a₁.whole (omega (arith, bound₁, b.last, room.blocks)) in
      let next = node_bound cfg₁.graph in
      elim (headed (node_bound s.cfg.graph) s.scopes b.scopes) [
        | inl (inside, (header, found, below)) ↦
            let (cfg₃, run₃, a₃) =
              wire cfg₂ s.current header EdgeKind.conditional_true a₂.whole
                (omega (arith, a₂.blocks, bound₁)) (omega (arith, below, a₂.blocks, bound₁, b.last))
                (omega (arith, a₁.edges, a₂.edges, room.edges)) in
            let (cfg₄, run₄, a₄) =
              wire cfg₃ s.current next EdgeKind.conditional_false a₃.whole
                (omega (arith, a₂.blocks, a₃.blocks, bound₁)) (omega (arith, a₂.blocks, a₃.blocks))
                (omega (arith, a₁.edges, a₂.edges, a₃.edges, room.edges)) in
            let a =
              Adds-then s.cfg cfg₂ cfg₄ (Adds-then s.cfg cfg₁ cfg₂ a₁ a₂)
                (Adds-then cfg₂ cfg₃ cfg₄ a₃ a₄) in
            rw inside (
              record { cfg = cfg₄; current = next; scopes = s.scopes },
              rw (run₁, run₂, found, run₃, run₄),
              arrive cfg₄ next _ _ s.scopes a (omega (arith, a₂.blocks, a₃.blocks, a₄.blocks))
                  (below_grown cfg₄ a) refl (omega arith) (omega arith),
            )
        | inr (outside, missing) ↦ rw outside (rw (run₁, run₂, missing))
      ]

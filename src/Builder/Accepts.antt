-- ===== src/Builder/Accepts.antt =====
-- The structured builder of crates/cfglib/src/builder.rs over a whole stream: `process` on one
-- instruction, and the loop of `build`.
use cfglib.Prelude.{
  ℕ, ◌+◌, ◌*◌, ◌≤◌, ◌≡◌, refl, sym, ap, subst, ◌∙◌, List, [], ◌∷◌, ◌++◌, map, length, suc, arith,
  if◌then◌else◌,
}
use mathlib.Core.List.{append_assoc, append-nil}
use cfglib.Store.Chains.{max_slots}
use cfglib.Store.Graph.{node_bound, edge_bound}
use cfglib.Store.Contents.{payloads}
use cfglib.Cfg.Grows.{program}
use cfglib.Builder.{BuildState, process}
use cfglib.Builder.Flow.{FlowEffect}
use cfglib.Builder.Outcome.{Attempt, ok, err, ◌>>=◌}
use cfglib.Builder.Grammar.{frame, Frame, Verdict, accept, reject, step, steps, stored}
use cfglib.Builder.Build.{process_all}
use cfglib.Builder.Invariant.{IsBuilding, HasRoom, Follows, Meets, pending}
use cfglib.Builder.Handlers.{
  push-Meets, end_block-Meets, add_label-Meets, open_conditional-Meets, open_switch-Meets,
  open_loop-Meets, add_conditional_jump-Meets,
}
use cfglib.Builder.Exits.{
  add_conditional_return-Meets, add_break-Meets, add_conditional_break-Meets, add_continue-Meets,
  add_conditional_continue-Meets,
}
use cfglib.Builder.Arms.{alternate_conditional-Meets, add_switch_case-Meets}
use cfglib.Builder.Closers.{close_conditional-Meets, close_switch-Meets, close_loop-Meets}

-- The instructions that end up in a block.
abbrev pub kept {ℓ} : {I : Type ℓ} → (I → FlowEffect) → List I → List I
kept flow_effect [] = []
kept flow_effect (inst ∷ insts) =
    (if stored (flow_effect inst) then inst ∷ [] else []) ++ kept flow_effect insts

module _ {ℓ ω} {W : Type ω} {I : Type ℓ} where
  process-Meets :
      (s : BuildState W I) (effect : FlowEffect) (inst : I)
      → IsBuilding s
      → HasRoom s
      → Meets s
          (if stored effect then inst ∷ [] else [])
          (process s effect inst)
          (step effect (map frame s.scopes))
  unfolding process
  process-Meets s FlowEffect.declaration inst b r = push-Meets s b r inst
  process-Meets s FlowEffect.fallthrough inst b r = push-Meets s b r inst
  process-Meets s FlowEffect.call inst b r = push-Meets s b r inst
  process-Meets s FlowEffect.conditional_call inst b r = push-Meets s b r inst
  process-Meets s FlowEffect.indirect_call inst b r = push-Meets s b r inst
  process-Meets s FlowEffect.may_throw inst b r = push-Meets s b r inst
  process-Meets s FlowEffect.conditional_open inst b r = open_conditional-Meets s b r inst
  process-Meets s FlowEffect.conditional_alternate inst b r = alternate_conditional-Meets s b r inst
  process-Meets s FlowEffect.conditional_close inst b r = close_conditional-Meets s b r
  process-Meets s FlowEffect.switch_open inst b r = open_switch-Meets s b r inst
  process-Meets s FlowEffect.switch_case inst b r = add_switch_case-Meets s b r inst
  process-Meets s FlowEffect.switch_close inst b r = close_switch-Meets s b r
  process-Meets s FlowEffect.loop_open inst b r = open_loop-Meets s b r inst
  process-Meets s FlowEffect.loop_close inst b r = close_loop-Meets s b r
  process-Meets s FlowEffect.break inst b r = add_break-Meets s b r inst
  process-Meets s FlowEffect.conditional_break inst b r = add_conditional_break-Meets s b r inst
  process-Meets s FlowEffect.continue inst b r = add_continue-Meets s b r inst
  process-Meets s FlowEffect.conditional_continue inst b r =
      add_conditional_continue-Meets s b r inst
  process-Meets s FlowEffect.return inst b r = end_block-Meets s b r inst
  process-Meets s FlowEffect.terminate inst b r = end_block-Meets s b r inst
  process-Meets s FlowEffect.jump inst b r = end_block-Meets s b r inst
  process-Meets s FlowEffect.indirect_jump inst b r = end_block-Meets s b r inst
  process-Meets s FlowEffect.conditional_return inst b r = add_conditional_return-Meets s b r inst
  process-Meets s FlowEffect.label inst b r = add_label-Meets s b r inst
  process-Meets s FlowEffect.conditional_jump inst b r = add_conditional_jump-Meets s b r inst

  -- `s'` is `s` after a stream of `n` instructions, of which `is` were stored.
  pub record Reaches (s s' : BuildState W I) (is : List I) (frames : List Frame) (n : ℕ)
      : Type (ℓ ⊔ ω) where
    pub building : IsBuilding s'
    pub shape : map frame s'.scopes ≡ frames
    pub code : program (payloads s'.cfg.graph) ≡ program (payloads s.cfg.graph) ++ is
    pub blocks : node_bound s'.cfg.graph ≤ node_bound s.cfg.graph + 2 * n
    pub entry : s'.cfg.entry ≡ s.cfg.entry

  abbrev pub Reached :
      BuildState W I → List I → ℕ → Attempt (BuildState W I) → Verdict → Type (ℓ ⊔ ω)
  Reached s is n r (accept frames) = (s' : BuildState W I) × (r ≡ ok s') × Reaches s s' is frames n
  Reached s is n r (reject e) = r ≡ err e

  Reached-after :
      (s s₁ : BuildState W I) (is js : List I) (frames : List Frame) (n : ℕ)
      (r : Attempt (BuildState W I)) (v : Verdict)
      → Follows s s₁ is frames
      → Reached s₁ js n r v
      → Reached s (is ++ js) (suc n) r v
  Reached-after s s₁ is js frames n r (accept _) f (s', run, a) = (
    s',
    run,
    record {
      building = a.building;
      shape = a.shape;
      code =
          a.code ∙ ap (λ ps. ps ++ js) f.code ∙ append_assoc (program (payloads s.cfg.graph)) is js;
      blocks = omega (arith, a.blocks, f.blocks);
      entry = a.entry ∙ f.entry;
    },
  )
  Reached-after s s₁ is js frames n r (reject _) f run = run

  -- One instruction and then the others.
  Reached-step :
      (s : BuildState W I) (is js : List I) (effects : List FlowEffect) (n : ℕ)
      (r : Attempt (BuildState W I)) (next : BuildState W I → Attempt (BuildState W I))
      (v : Verdict)
      → Meets s is r v
      → ((s₁ : BuildState W I) (frames : List Frame)
          → Follows s s₁ is frames
          → Reached s₁ js n (next s₁) (steps effects frames))
      → Reached s
          (is ++ js)
          (suc n)
          (r >>= next)
          (elim v [ accept frames ↦ steps effects frames | reject e ↦ reject e ])
  Reached-step s is js effects n r next (accept frames) (s₁, run, f) rest =
      rw run
        (Reached-after s s₁ is js frames n (next s₁) (steps effects frames) f (rest s₁ frames f))
  Reached-step s is js effects n r next (reject e) run rest = rw run refl

  pub process_all-Reached :
      (flow_effect : I → FlowEffect) (s : BuildState W I) (insts : List I)
      → IsBuilding s
      → node_bound s.cfg.graph + 2 * length insts ≤ max_slots
      → edge_bound s.cfg.graph + pending s.scopes + 3 * length insts ≤ max_slots
      → Reached s
          (kept flow_effect insts)
          (length insts)
          (process_all flow_effect s insts)
          (steps (map flow_effect insts) (map frame s.scopes))
  unfolding process_all
  process_all-Reached flow_effect s [] b blocks edges = (
    s,
    refl,
    record {
      building = b;
      shape = refl;
      code = sym (append-nil _);
      blocks = omega arith;
      entry = refl;
    },
  )
  process_all-Reached flow_effect s (inst ∷ insts) b blocks edges =
      Reached-step s _ (kept flow_effect insts) (map flow_effect insts) (length insts)
        (process s (flow_effect inst) inst) (λ s₁. process_all flow_effect s₁ insts)
        (step (flow_effect inst) (map frame s.scopes))
        (process-Meets s (flow_effect inst) inst b
          (record { blocks = omega arith; edges = omega arith }))
        (λ s₁ frames f.
          subst
            (λ fs.
              Reached s₁ (kept flow_effect insts) (length insts) (process_all flow_effect s₁ insts)
                (steps (map flow_effect insts) fs))
            f.shape
            (process_all-Reached flow_effect s₁ insts f.building (omega (arith, f.blocks))
              (omega (arith, f.edges))))

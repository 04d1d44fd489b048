-- ===== src/Builder/Jumps.antt =====
-- `resolve_jump_edges` of crates/cfglib/src/builder.rs: the edges of jumps to labels. The instructions
-- are a parameter, with `JumpTargets` of crates/cfglib/src/flow.rs as a record.
pub mod Wired
pub mod Wiring
pub mod Labels
pub mod Collected
pub mod Spoken
pub mod Resolved
mod Tests
use cfglib.Prelude.{
  ℕ, ◌+◌, List, [], ◌∷◌, Bool, true, false, ◌&&◌, Option, none, some, Result, ok, ◌>>=◌, ◌==◌,
  if◌then◌else◌,
}
use cfglib.Cfg
use cfglib.Cfg.{Cfg}
use cfglib.Cfg.Edge.{EdgeKind, same_kind}
use cfglib.Cfg.Block.{BasicBlock}
use cfglib.Builder.Flow.{FlowEffect}
use cfglib.Builder.Build.{last}

-- `JumpTargets`; `same` is the order of the tokens, asked for equality.
pub record JumpTargets {ℓ τ} (I : Type ℓ) (T : Type τ) : Type (ℓ ⊔ τ) where
  pub flow_effect : I → FlowEffect
  pub jump_target : I → Option T
  pub label : I → Option T
  pub same : T → T → Bool

pub record JumpResolution {τ} (T : Type τ) : Type τ where
  pub resolved : ℕ
  pub unresolved : List (ℕ × T)

-- An element of `pending`.
pub record Jump : Type 0 where
  pub source : ℕ
  pub target : ℕ
  pub kind : EdgeKind

unfoldable pub is_label : FlowEffect → Bool
is_label FlowEffect.label = true
is_label _ = false

-- The kind of the edge of a jump; none for an instruction that is no jump.
unfoldable pub jump_kind : FlowEffect → Option EdgeKind
jump_kind FlowEffect.jump = some EdgeKind.jump
jump_kind FlowEffect.conditional_jump = some EdgeKind.conditional_true
jump_kind _ = none

module _ {ℓ τ} {I : Type ℓ} {T : Type τ} (targets : JumpTargets I T) where
  -- The token of a block that a label leads.
  unfoldable pub label_of : List I → Option T
  label_of [] = none
  label_of (first ∷ _) = if is_label (targets.flow_effect first) then targets.label first else none

  -- `labels.get(&token)`; the front entry is the last that was inserted.
  unfoldable pub lookup : T → List (T × ℕ) → Option ℕ
  lookup token [] = none
  lookup token ((name, id) ∷ labels) =
      if targets.same token name then some id else lookup token labels

  -- `labels.insert(token, id)` for a block with a token.
  unfoldable pub insert_label : Option T → ℕ → List (T × ℕ) → List (T × ℕ)
  insert_label none id labels = labels
  insert_label (some token) id labels = (token, id) ∷ labels

  -- The kind and the token of the jump that ends a block.
  unfoldable pub jump_of : List I → Option (EdgeKind × T)
  jump_of instructions = elim (last instructions) [
    | none ↦ none
    | some inst ↦ elim (jump_kind (targets.flow_effect inst)) [
      | none ↦ none
      | some kind ↦ elim (targets.jump_target inst) [
        | none ↦ none
        | some token ↦ some (kind, token)
      ]
    ]
  ]

  -- What a block adds to `pending` and to `unresolved`.
  unfoldable pub place :
      List (T × ℕ) → ℕ → Option (EdgeKind × T) → List Jump × List (ℕ × T) → List Jump × List (ℕ × T)
  place labels id none (pending, unresolved) = (pending, unresolved)
  place labels id (some (kind, token)) (pending, unresolved) = elim (lookup token labels) [
    | none ↦ (pending, (id, token) ∷ unresolved)
    | some target ↦ (record { source = id; target = target; kind = kind } ∷ pending, unresolved)
  ]

  module _ {κ ω} {W : Type ω} {E : Type κ} (cfg : Cfg W I E) where
    -- The first loop, over the blocks that are left.
    unfoldable pub collect_labels : List ℕ → List (T × ℕ) → Result (List (T × ℕ))
    collect_labels [] labels = ok labels
    collect_labels (id ∷ ids) labels = do
      block ← Cfg.block cfg id
      collect_labels ids (insert_label (label_of block.instructions) id labels)

    -- The second loop: `pending` and `unresolved`.
    unfoldable pub collect_jumps : List (T × ℕ) → List ℕ → Result (List Jump × List (ℕ × T))
    collect_jumps labels [] = ok ([], [])
    collect_jumps labels (id ∷ ids) = do
      block ← Cfg.block cfg id
      rest ← collect_jumps labels ids
      ok (place labels id (jump_of block.instructions) rest)

module _ {ℓ κ ω} {W : Type ω} {I : Type ℓ} {E : Type κ} where
  -- `any(|edge| cfg.edge(edge).target() == target && cfg.edge(edge).kind() == kind)`
  unfoldable pub is_wired : Cfg W I E → List ℕ → Jump → Result Bool
  is_wired cfg [] jump = ok false
  is_wired cfg (edge ∷ edges) jump = do
    found ← Cfg.edge cfg edge
    if (found.target == jump.target) && same_kind found.payload.kind jump.kind
        then ok true
        else is_wired cfg edges jump

  -- The third loop, over the pending jumps that are left.
  unfoldable pub wire_pending : E → Cfg W I E → List Jump → ℕ → Result (Cfg W I E × ℕ)
  wire_pending default cfg [] resolved = ok (cfg, resolved)
  wire_pending default cfg (jump ∷ pending) resolved = do
    edges ← Cfg.outgoing cfg jump.source
    already_wired ← is_wired cfg edges jump
    elim already_wired [
      | true ↦ wire_pending default cfg pending resolved
      | false ↦ Cfg.add_edge_with_payload cfg jump.source jump.target jump.kind default >>= λ added.
          wire_pending default added.0 pending (resolved + 1)
    ]

  unfoldable pub resolve_jump_edges {τ} :
      {T : Type τ} → JumpTargets I T → E → Cfg W I E → Result (Cfg W I E × JumpResolution T)
  resolve_jump_edges targets default cfg = do
    labels ← collect_labels targets cfg (Cfg.block_ids cfg) []
    (pending, unresolved) ← collect_jumps targets cfg labels (Cfg.block_ids cfg)
    (cfg, resolved) ← wire_pending default cfg pending 0
    ok (cfg, record { resolved = resolved; unresolved = unresolved })

-- ===== src/Builder.antt =====
-- The structured builder of crates/cfglib/src/builder.rs: a flat stream of instructions becomes a
-- control-flow graph, with a stack of open scopes. The last scope of the source's vector is the first
-- of the list here. `E` is `()`, the default payload.
pub mod Flow
pub mod Outcome
pub mod Scopes
pub mod Build
pub mod Grammar
pub mod Invariant
pub mod Calls
pub mod Handlers
pub mod Exits
pub mod Arms
pub mod Closers
pub mod Accepts
pub mod Trim
pub mod Streams
pub mod Jumps
mod Tests
use cfglib.Prelude
use cfglib.Prelude.{
  ℕ, zero, suc, List, [], ◌∷◌, ◌++◌, Bool, true, false, not, ◌&&◌, ◌||◌, Option, none, some, Result,
  length, if◌then◌else◌, ◌==◌,
}
use cfglib.Store.Graph.{EdgeRecord, node_bound}
use cfglib.Cfg
use cfglib.Cfg.{Cfg}
use cfglib.Cfg.Edge
use cfglib.Cfg.Edge.{EdgeKind, same_kind}
use cfglib.Cfg.Block
use cfglib.Builder.Flow.{FlowEffect}
use cfglib.Builder.Scopes.{Scope, record_break, loop_header, top_conditional, top_switch, top_loop}
use cfglib.Builder.Outcome.{BuildError, Attempt, ok, err, ◌>>=◌, call, or_err}

pub record BuildState {ℓ ω} (W : Type ω) (I : Type ℓ) : Type (ℓ ⊔ ω) where
  pub cfg : Cfg W I (Unit {0})
  pub current : ℕ
  pub scopes : List Scope

module _ {ℓ ω} {W : Type ω} {I : Type ℓ} where
  -- `add_edge`, without the identity.
  unfoldable pub add_edge : Cfg W I (Unit {0}) → ℕ → ℕ → EdgeKind → Result (Cfg W I (Unit {0}))
  add_edge cfg source target kind =
      Prelude.◌>>=◌ (Cfg.add_edge_with_payload cfg source target kind tt)
        λ added. Prelude.ok added.0

  -- `for exit in exits { cfg.add_edge(exit, target, kind) }`
  unfoldable pub add_edges :
      Cfg W I (Unit {0}) → List ℕ → ℕ → EdgeKind → Result (Cfg W I (Unit {0}))
  add_edges cfg [] target kind = Prelude.ok cfg
  add_edges cfg (exit ∷ exits) target kind =
      Prelude.◌>>=◌ (add_edge cfg exit target kind) λ cfg. add_edges cfg exits target kind

  -- `edges.any(|edge| cfg.edge(edge).kind() == kind)`
  unfoldable pub any_of_kind : Cfg W I (Unit {0}) → List ℕ → EdgeKind → Result Bool
  any_of_kind cfg [] kind = Prelude.ok false
  any_of_kind cfg (edge ∷ edges) kind = Prelude.◌>>=◌ (Cfg.edge cfg edge) λ found.
      if same_kind found.payload.kind kind then Prelude.ok true else any_of_kind cfg edges kind

  unfoldable pub push_into : Cfg W I (Unit {0}) → ℕ → I → Result (Cfg W I (Unit {0}))
  push_into cfg id inst = Cfg.block_mut cfg id (Block.push inst)

  -- `BuildState::new`
  unfoldable pub start : Result (BuildState W I)
  start =
      Prelude.◌>>=◌ Cfg.new
        λ cfg. Prelude.ok (record { cfg = cfg; current = cfg.entry; scopes = [] })

  unfoldable pub push : BuildState W I → I → Attempt (BuildState W I)
  push s inst = do cfg ← call (push_into s.cfg s.current inst); ok (record s { cfg = cfg })

  unfoldable pub end_block : BuildState W I → I → Attempt (BuildState W I)
  end_block s inst = do
    s ← push s inst
    (cfg, current) ← call (Cfg.new_block s.cfg)
    ok (record s { cfg = cfg; current = current })

  unfoldable pub open_conditional : BuildState W I → I → Attempt (BuildState W I)
  open_conditional s inst = do
    s ← push s inst
    (cfg, true_block) ← call (Cfg.new_block s.cfg)
    cfg ← call (add_edge cfg s.current true_block EdgeKind.conditional_true)
    ok (record s {
      cfg = cfg;
      current = true_block;
      scopes = Scope.conditional s.current [] ∷ s.scopes;
    })

  unfoldable pub alternate_conditional : BuildState W I → I → Attempt (BuildState W I)
  alternate_conditional s inst = do
    (pre, arms, scopes) ← or_err (top_conditional s.scopes) BuildError.unmatched_else
    let arms = arms ++ s.current ∷ []
    (cfg, alternate) ← call (Cfg.new_block s.cfg)
    cfg ← call (add_edge cfg pre alternate EdgeKind.conditional_false)
    cfg ← call (push_into cfg alternate inst)
    ok (record { cfg = cfg; current = alternate; scopes = Scope.conditional pre arms ∷ scopes })

  unfoldable pub close_conditional : BuildState W I → Attempt (BuildState W I)
  close_conditional s = do
    (pre, arms, scopes) ← or_err (top_conditional s.scopes) BuildError.unmatched_end_if
    (cfg, merge) ← call (Cfg.new_block s.cfg)
    cfg ← call (add_edges cfg (arms ++ s.current ∷ []) merge EdgeKind.fallthrough)
    edges ← call (Cfg.outgoing cfg pre)
    has_alternate ← call (any_of_kind cfg edges EdgeKind.conditional_false)
    cfg ← call (
        if not has_alternate
        then add_edge cfg pre merge EdgeKind.conditional_false
        else Prelude.ok cfg)
    ok (record { cfg = cfg; current = merge; scopes = scopes })

  unfoldable pub open_switch : BuildState W I → I → Attempt (BuildState W I)
  open_switch s inst = do
    s ← push s inst
    (cfg, first_case) ← call (Cfg.new_block s.cfg)
    cfg ← call (add_edge cfg s.current first_case EdgeKind.switch_case)
    ok (record s {
      cfg = cfg;
      current = first_case;
      scopes = Scope.switch s.current [] [] ∷ s.scopes;
    })

  unfoldable pub add_switch_case : BuildState W I → I → Attempt (BuildState W I)
  add_switch_case s inst = do
    (pre, arms, breaks, scopes) ← or_err (top_switch s.scopes) BuildError.unmatched_switch_case
    let arms = arms ++ s.current ∷ []
    (cfg, case_block) ← call (Cfg.new_block s.cfg)
    cfg ← call (add_edge cfg pre case_block EdgeKind.switch_case)
    cfg ← call (push_into cfg case_block inst)
    ok (record { cfg = cfg; current = case_block; scopes = Scope.switch pre arms breaks ∷ scopes })

  unfoldable pub close_switch : BuildState W I → Attempt (BuildState W I)
  close_switch s = do
    (pre, arms, breaks, scopes) ← or_err (top_switch s.scopes) BuildError.unmatched_end_switch
    (cfg, merge) ← call (Cfg.new_block s.cfg)
    cfg ← call (add_edges cfg (arms ++ s.current ∷ []) merge EdgeKind.fallthrough)
    cfg ← call (add_edges cfg breaks merge EdgeKind.unconditional)
    ok (record { cfg = cfg; current = merge; scopes = scopes })

  unfoldable pub open_loop : BuildState W I → I → Attempt (BuildState W I)
  open_loop s inst = do
    s ← push s inst
    (cfg, header) ← call (Cfg.new_block s.cfg)
    cfg ← call (add_edge cfg s.current header EdgeKind.fallthrough)
    ok (record s { cfg = cfg; current = header; scopes = Scope.loop header [] ∷ s.scopes })

  unfoldable pub close_loop : BuildState W I → Attempt (BuildState W I)
  close_loop s = do
    (header, breaks, scopes) ← or_err (top_loop s.scopes) BuildError.unmatched_end_loop
    cfg ← call (add_edge s.cfg s.current header EdgeKind.back)
    (cfg, post_loop) ← call (Cfg.new_block cfg)
    cfg ← call (add_edges cfg breaks post_loop EdgeKind.unconditional)
    ok (record { cfg = cfg; current = post_loop; scopes = scopes })

  unfoldable pub add_break : BuildState W I → I → Attempt (BuildState W I)
  add_break s inst = do
    s ← push s inst
    scopes ← or_err (record_break s.scopes s.current) BuildError.break_outside_scope
    (cfg, current) ← call (Cfg.new_block s.cfg)
    ok (record { cfg = cfg; current = current; scopes = scopes })

  unfoldable pub add_conditional_break : BuildState W I → I → Attempt (BuildState W I)
  add_conditional_break s inst = do
    s ← push s inst
    (cfg, break_block) ← call (Cfg.new_block s.cfg)
    (cfg, continuation) ← call (Cfg.new_block cfg)
    cfg ← call (add_edge cfg s.current break_block EdgeKind.conditional_true)
    cfg ← call (add_edge cfg s.current continuation EdgeKind.conditional_false)
    scopes ← or_err (record_break s.scopes break_block) BuildError.break_outside_scope
    ok (record { cfg = cfg; current = continuation; scopes = scopes })

  unfoldable pub add_continue : BuildState W I → I → Attempt (BuildState W I)
  add_continue s inst = do
    s ← push s inst
    header ← or_err (loop_header s.scopes) BuildError.continue_outside_loop
    cfg ← call (add_edge s.cfg s.current header EdgeKind.back)
    (cfg, current) ← call (Cfg.new_block cfg)
    ok (record s { cfg = cfg; current = current })

  unfoldable pub add_conditional_continue : BuildState W I → I → Attempt (BuildState W I)
  add_conditional_continue s inst = do
    s ← push s inst
    (cfg, continuation) ← call (Cfg.new_block s.cfg)
    header ← or_err (loop_header s.scopes) BuildError.continue_outside_loop
    cfg ← call (add_edge cfg s.current header EdgeKind.conditional_true)
    cfg ← call (add_edge cfg s.current continuation EdgeKind.conditional_false)
    ok (record s { cfg = cfg; current = continuation })

  unfoldable pub add_conditional_return : BuildState W I → I → Attempt (BuildState W I)
  add_conditional_return s inst = do
    s ← push s inst
    (cfg, return_block) ← call (Cfg.new_block s.cfg)
    (cfg, continuation) ← call (Cfg.new_block cfg)
    cfg ← call (add_edge cfg s.current return_block EdgeKind.conditional_true)
    cfg ← call (add_edge cfg s.current continuation EdgeKind.conditional_false)
    ok (record s { cfg = cfg; current = continuation })

  unfoldable pub add_label : BuildState W I → I → Attempt (BuildState W I)
  add_label s inst = do
    (cfg, label_block) ← call (Cfg.new_block s.cfg)
    cfg ← call (add_edge cfg s.current label_block EdgeKind.fallthrough)
    cfg ← call (push_into cfg label_block inst)
    ok (record s { cfg = cfg; current = label_block })

  unfoldable pub add_conditional_jump : BuildState W I → I → Attempt (BuildState W I)
  add_conditional_jump s inst = do
    s ← push s inst
    (cfg, continuation) ← call (Cfg.new_block s.cfg)
    cfg ← call (add_edge cfg s.current continuation EdgeKind.conditional_false)
    ok (record s { cfg = cfg; current = continuation })

  -- `process`, by the effect of the instruction.
  unfoldable pub process : BuildState W I → FlowEffect → I → Attempt (BuildState W I)
  process s FlowEffect.declaration inst = push s inst
  process s FlowEffect.fallthrough inst = push s inst
  process s FlowEffect.call inst = push s inst
  process s FlowEffect.conditional_call inst = push s inst
  process s FlowEffect.indirect_call inst = push s inst
  process s FlowEffect.may_throw inst = push s inst
  process s FlowEffect.conditional_open inst = open_conditional s inst
  process s FlowEffect.conditional_alternate inst = alternate_conditional s inst
  process s FlowEffect.conditional_close inst = close_conditional s
  process s FlowEffect.switch_open inst = open_switch s inst
  process s FlowEffect.switch_case inst = add_switch_case s inst
  process s FlowEffect.switch_close inst = close_switch s
  process s FlowEffect.loop_open inst = open_loop s inst
  process s FlowEffect.loop_close inst = close_loop s
  process s FlowEffect.break inst = add_break s inst
  process s FlowEffect.conditional_break inst = add_conditional_break s inst
  process s FlowEffect.continue inst = add_continue s inst
  process s FlowEffect.conditional_continue inst = add_conditional_continue s inst
  process s FlowEffect.return inst = end_block s inst
  process s FlowEffect.terminate inst = end_block s inst
  process s FlowEffect.jump inst = end_block s inst
  process s FlowEffect.indirect_jump inst = end_block s inst
  process s FlowEffect.conditional_return inst = add_conditional_return s inst
  process s FlowEffect.label inst = add_label s inst
  process s FlowEffect.conditional_jump inst = add_conditional_jump s inst

-- ===== src/Builder/Grammar.antt =====
-- Which streams the structured builder of crates/cfglib/src/builder.rs accepts, described without a
-- graph: a stack of the kinds of the open scopes.
use cfglib.Prelude.{List, [], ◌∷◌, Bool, true, false, Option, none, some, length, if◌then◌else◌}
use cfglib.Builder.Flow.{FlowEffect}
use cfglib.Builder.Outcome.{BuildError}
use cfglib.Builder.Scopes.{Scope}

pub data Frame : Type 0 where
  conditional loop switch : Frame

abbrev pub frame : Scope → Frame
frame (Scope.conditional _ _) = Frame.conditional
frame (Scope.loop _ _) = Frame.loop
frame (Scope.switch _ _ _) = Frame.switch

pub data Verdict : Type 0 where
  accept : List Frame → Verdict
  reject : BuildError → Verdict

abbrev pub in_loop : List Frame → Bool
in_loop [] = false
in_loop (Frame.loop ∷ _) = true
in_loop (Frame.conditional ∷ frames) = in_loop frames
in_loop (Frame.switch ∷ frames) = in_loop frames

abbrev pub in_breakable : List Frame → Bool
in_breakable [] = false
in_breakable (Frame.loop ∷ _) = true
in_breakable (Frame.switch ∷ _) = true
in_breakable (Frame.conditional ∷ frames) = in_breakable frames

abbrev pub needs : Bool → List Frame → BuildError → Verdict
needs inside frames error = if inside then accept frames else reject error

-- What one instruction does to the stack.
abbrev pub step : FlowEffect → List Frame → Verdict
step FlowEffect.conditional_open frames = accept (Frame.conditional ∷ frames)
step FlowEffect.switch_open frames = accept (Frame.switch ∷ frames)
step FlowEffect.loop_open frames = accept (Frame.loop ∷ frames)
step FlowEffect.conditional_alternate (Frame.conditional ∷ frames) =
    accept (Frame.conditional ∷ frames)
step FlowEffect.conditional_alternate _ = reject BuildError.unmatched_else
step FlowEffect.conditional_close (Frame.conditional ∷ frames) = accept frames
step FlowEffect.conditional_close _ = reject BuildError.unmatched_end_if
step FlowEffect.switch_case (Frame.switch ∷ frames) = accept (Frame.switch ∷ frames)
step FlowEffect.switch_case _ = reject BuildError.unmatched_switch_case
step FlowEffect.switch_close (Frame.switch ∷ frames) = accept frames
step FlowEffect.switch_close _ = reject BuildError.unmatched_end_switch
step FlowEffect.loop_close (Frame.loop ∷ frames) = accept frames
step FlowEffect.loop_close _ = reject BuildError.unmatched_end_loop
step FlowEffect.break frames = needs (in_breakable frames) frames BuildError.break_outside_scope
step FlowEffect.conditional_break frames =
    needs (in_breakable frames) frames BuildError.break_outside_scope
step FlowEffect.continue frames = needs (in_loop frames) frames BuildError.continue_outside_loop
step FlowEffect.conditional_continue frames =
    needs (in_loop frames) frames BuildError.continue_outside_loop
step _ frames = accept frames

-- What a stream does to the stack, up to its first fault.
abbrev pub steps : List FlowEffect → List Frame → Verdict
steps [] frames = accept frames
steps (effect ∷ effects) frames = elim (step effect frames) [
  | accept frames ↦ steps effects frames
  | reject e ↦ reject e
]

-- No scope may be left open.
abbrev pub closed : Verdict → Option BuildError
closed (accept []) = none
closed (accept (frame ∷ frames)) = some (BuildError.unclosed_scopes (length (frame ∷ frames)))
closed (reject e) = some e

-- The first fault of a stream.
abbrev pub check : List FlowEffect → Option BuildError
check effects = closed (steps effects [])

-- Whether the instruction ends up in a block: the markers that close a scope do not.
abbrev pub stored : FlowEffect → Bool
stored FlowEffect.conditional_close = false
stored FlowEffect.switch_close = false
stored FlowEffect.loop_close = false
stored _ = true

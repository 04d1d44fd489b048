-- ===== src/Builder/Scopes.antt =====
-- The stack of open scopes of the structured builder, crates/cfglib/src/builder.rs. The last scope of
-- the source's vector is the first of the list here.
use cfglib.Prelude.{ℕ, List, [], ◌∷◌, ◌++◌, Option, none, some}

-- A scope, with the blocks it was opened with and those that wait for an edge to its end.
pub data Scope : Type 0 where
  conditional : (pre_block : ℕ) (arm_exits : List ℕ) → Scope
  loop : (header : ℕ) (break_exits : List ℕ) → Scope
  switch : (pre_block : ℕ) (arm_exits break_exits : List ℕ) → Scope

-- `record_break`: the innermost loop or switch takes the block; none if there is no such scope.
unfoldable pub record_break : List Scope → ℕ → Option (List Scope)
record_break [] block = none
record_break (Scope.loop header break_exits ∷ scopes) block =
    some (Scope.loop header (break_exits ++ block ∷ []) ∷ scopes)
record_break (Scope.switch pre arms break_exits ∷ scopes) block =
    some (Scope.switch pre arms (break_exits ++ block ∷ []) ∷ scopes)
record_break (Scope.conditional pre arms ∷ scopes) block = elim (record_break scopes block) [
  | none ↦ none
  | some rest ↦ some (Scope.conditional pre arms ∷ rest)
]

-- `loop_header`: the header of the innermost loop.
unfoldable pub loop_header : List Scope → Option ℕ
loop_header [] = none
loop_header (Scope.loop header _ ∷ scopes) = some header
loop_header (Scope.conditional _ _ ∷ scopes) = loop_header scopes
loop_header (Scope.switch _ _ _ ∷ scopes) = loop_header scopes

-- The patterns of `let Some(Scope::If { .. }) = .. else`, and its like.
unfoldable pub top_conditional : List Scope → Option (ℕ × List ℕ × List Scope)
top_conditional (Scope.conditional pre arms ∷ scopes) = some (pre, arms, scopes)
top_conditional _ = none

unfoldable pub top_switch : List Scope → Option (ℕ × List ℕ × List ℕ × List Scope)
top_switch (Scope.switch pre arms breaks ∷ scopes) = some (pre, arms, breaks, scopes)
top_switch _ = none

unfoldable pub top_loop : List Scope → Option (ℕ × List ℕ × List Scope)
top_loop (Scope.loop header breaks ∷ scopes) = some (header, breaks, scopes)
top_loop _ = none

-- ===== src/Pipeline.antt =====
-- `PassPipeline` of crates/cfglib/src/transform/pass.rs: an ordered schedule of stateful passes over
-- one target. A pass is a parameter: its own state, the name it answers to and what it does to
-- itself and to the target. `Name` stands for the static string behind a `PassId`.
mod Prefix
mod Tests
use cfglib.Prelude.{
  ℕ, zero, suc, ◌+◌, ◌⊎◌, inl, inr, List, [], ◌∷◌, ◌++◌, Bool, true, false, ◌||◌, length, map,
  if◌then◌else◌,
}

pub data PassChange : Type 0 where
  unchanged changed : PassChange

unfoldable pub from_changed : Bool → PassChange
from_changed b = if b then changed else unchanged

unfoldable pub is_changed : PassChange → Bool
is_changed unchanged = false
is_changed changed = true

-- `S` is the own state of the pass, which `&mut self` gives it.
pub record Pass (Name S T E : Type 0) : Type 0 where
  pub state : S
  pub name : S → Name
  pub apply : S → T → S × T × (PassChange ⊎ E)

pub record PassExecution (Name : Type 0) : Type 0 where
  pub id : Name
  pub change : PassChange

abbrev pub PassReport : Type 0 → Type 0
PassReport Name = List (PassExecution Name)

pub record PassFailure (Name E : Type 0) : Type 0 where
  pub pass : Name
  pub error : E
  pub completed : PassReport Name

module _ {Name : Type 0} where
  unfoldable pub changed_count : PassReport Name → ℕ
  changed_count [] = 0
  changed_count (e ∷ es) = if is_changed e.change then suc (changed_count es) else changed_count es

  unfoldable pub any_changed : PassReport Name → Bool
  any_changed [] = false
  any_changed (e ∷ es) = is_changed e.change || any_changed es

  module _ {S T E : Type 0} where
    abbrev pub id : Pass Name S T E → Name
    id p = p.name p.state

    unfoldable pub ids : List (Pass Name S T E) → List Name
    ids passes = map id passes

    unfoldable pub push : List (Pass Name S T E) → Pass Name S T E → List (Pass Name S T E)
    push passes pass = passes ++ pass ∷ []

    -- The loop of `run`: the passes that are left, the target and the report so far. Returns the
    -- passes with their states, the target, and the report or the failure.
    unfoldable pub run_loop :
        List (Pass Name S T E)
        → T
        → PassReport Name
        → List (Pass Name S T E) × T × (PassReport Name ⊎ PassFailure Name E)
    run_loop [] target report = ([], target, inl report)
    run_loop (p ∷ ps) target report =
        let (state, target, outcome) = p.apply p.state target in
        let moved = record p { state = state } in
        elim outcome [
          | inl change ↦
              let (rest, target, result) =
                run_loop ps target (report ++ (record { id = id p; change = change }) ∷ []) in
              (moved ∷ rest, target, result)
          | inr error ↦
              (moved ∷ ps, target, inr (record { pass = id p; error = error; completed = report }))
        ]

    unfoldable pub run :
        List (Pass Name S T E)
        → T
        → List (Pass Name S T E) × T × (PassReport Name ⊎ PassFailure Name E)
    run passes target = run_loop passes target []

-- The error type has no value, so the failure case is void.
unfoldable pub run_infallible :
    {Name S T : Type 0} → List (Pass Name S T ⊥) → T → List (Pass Name S T ⊥) × T × PassReport Name
run_infallible passes target =
    let (passes, target, result) = run passes target in
    (passes, target, elim result [ inl report ↦ report | inr failure ↦ absurd failure.error ])

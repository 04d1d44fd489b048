-- ===== src/Relax/Measure.antt =====
-- What falls with each round of the relaxation of crates/cfglib/src/graph/relax.rs.
use cfglib.Prelude.{ℕ, ◌+◌, length, Option, none, some}
use cfglib.Store.Chains.{Direction}
use cfglib.Store.Graph.{Graph}
use cfglib.Relax.{State}
use cfglib.Relax.Potential.{weight}
use cfglib.Relax.Edges.{adjacent_count}

-- How far a label may still fall.
abbrev pub height {ω} : {L : Type ω} → (L → ℕ) → ℕ → Option L → ℕ
height rank bound none = bound
height rank bound (some l) = rank l

-- It falls with each round.
unfoldable pub measure {ℓ κ ω} :
    {N : Type ℓ} {E : Type κ} {L : Type ω} → Graph N E → Direction → (L → ℕ) → ℕ → State L → ℕ
measure g dir rank bound s =
    length s.worklist + weight (adjacent_count g dir) (height rank bound) 0 s.labels

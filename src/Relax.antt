-- ===== src/Relax.antt =====
-- Minimum-label relaxation, crates/cfglib/src/graph/relax.rs. A label is a parameter with its order, and so
-- is the transfer of an edge. The end of the source's worklist is the front of the list. The loop
-- takes fuel.
pub mod Pushed
pub mod Potential
pub mod Derivation
pub mod Edges
pub mod Measure
pub mod Round
pub mod Least
mod Tests
use mathlib.Core.List.{reverse}
use cfglib.Prelude.{
  ℕ, zero, suc, ◌+◌, List, [], ◌∷◌, Bool, true, false, length, set, replicate, ltb, if◌then◌else◌,
  Option, none, some, Result, ok, out_of_fuel, ◌>>=◌, ◌>>◌, read, assert,
}
use cfglib.Store.Chains.{Direction, outgoing, incoming}
use cfglib.Store.Graph.{Graph, EdgeRecord, edge, node_bound}
use cfglib.Store.Walk.{adjacent_edges}

pub record State {ω} (L : Type ω) : Type ω where
  pub labels : List (Option L)
  pub worklist : List (ℕ × L)

-- `edge.target()` of an outgoing walk, `edge.source()` of an incoming one.
unfoldable pub far {κ} : {E : Type κ} → Direction → EdgeRecord E → ℕ
far outgoing r = r.target
far incoming r = r.source

-- `labels[node].as_ref().is_some_and(|known| known <= &candidate)`
unfoldable pub is_known {ω} : {L : Type ω} → (L → L → Bool) → Option L → L → Bool
is_known le none candidate = false
is_known le (some known) candidate = le known candidate

-- `if let Some(candidate) = relax(edge, label) { worklist.push((far, candidate)) }`
unfoldable pub push_candidate {κ ω} :
    {E : Type κ} {L : Type ω}
    → (EdgeRecord E → L → Option L)
    → Direction
    → L
    → EdgeRecord E
    → List (ℕ × L)
    → List (ℕ × L)
push_candidate relax dir label r worklist = elim (relax r label) [
  | none ↦ worklist
  | some candidate ↦ (far dir r, candidate) ∷ worklist
]

module _ {ℓ κ ω} {N : Type ℓ} {E : Type κ} {L : Type ω} (relax : EdgeRecord E → L → Option L) where
  unfoldable pub push_candidates :
      Graph N E → Direction → L → List ℕ → List (ℕ × L) → Result (List (ℕ × L))
  push_candidates g dir label [] worklist = ok worklist
  push_candidates g dir label (e ∷ es) worklist = do
    r ← edge g e
    push_candidates g dir label es (push_candidate relax dir label r worklist)

  unfoldable pub settle : Graph N E → Direction → ℕ → L → State L → Result (State L)
  settle g dir node candidate s = do
    adjacency ← adjacent_edges g node dir
    worklist ← push_candidates g dir candidate adjacency s.worklist
    ok (record { labels = set s.labels node (some candidate); worklist = worklist })

  module _ (le : L → L → Bool) where
    unfoldable pub round : Graph N E → Direction → ℕ → L → State L → Result (State L)
    round g dir node candidate s = do
      assert (ltb node (length s.labels))
      known ← read s.labels node
      if is_known le known candidate then ok s else settle g dir node candidate s

    unfoldable pub relax_loop : ℕ → Graph N E → Direction → State L → Result (State L)
    relax_loop zero g dir s = out_of_fuel
    relax_loop (suc fuel) g dir s = elim s.worklist [
      | [] ↦ ok s
      | (node, candidate) ∷ rest ↦
          round g dir node candidate (record s { worklist = rest }) >>= relax_loop fuel g dir
    ]

    unfoldable pub min_label_relaxation :
        ℕ → Graph N E → List (ℕ × L) → Direction → Result (List (Option L))
    min_label_relaxation fuel g seeds dir = do
      s ←
          relax_loop fuel g dir
            (record { labels = replicate (node_bound g) none; worklist = reverse seeds })
      ok s.labels

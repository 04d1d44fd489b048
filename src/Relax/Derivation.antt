-- ===== src/Relax/Derivation.antt =====
-- What the relaxation of crates/cfglib/src/graph/relax.rs asks of the labels and the transfer, and the
-- labels that seeds derive.
use cfglib.Prelude.{In, ℕ, ◌<◌, ◌≡◌, List, Bool, true, false, Option, some}
use cfglib.Store.Chains.{Direction}
use cfglib.Store.Graph.{Graph, EdgeRecord}
use cfglib.Store.Neighbors.{At}
use cfglib.Relax.{far}

-- What the caller's labels and transfer must satisfy for the loop to end: a total order in which a
-- smaller label has a smaller rank, and bounded ranks of the labels `good` that the transfer makes.
pub record IsBounded {κ ω} {E : Type κ} {L : Type ω} (le : L → L → Bool)
    (relax : EdgeRecord E → L → Option L) (good : L → Type 0) (rank : L → ℕ) (bound : ℕ)
    : Type (κ ⊔ ω) where
  pub le_refl : (a : L) → le a a ≡ true
  pub le_trans : (a b c : L) → le a b ≡ true → le b c ≡ true → le a c ≡ true
  pub le_total : (a b : L) → le a b ≡ false → le b a ≡ true
  pub falls : (a b : L) → le a b ≡ false → rank b < rank a
  pub below : (a : L) → good a → rank a < bound
  pub keeps : (r : EdgeRecord E) (a c : L) → good a → relax r a ≡ some c → good c

-- The transfer preserves improvements.
abbrev pub Improves {κ ω} :
    {E : Type κ} {L : Type ω} (le : L → L → Bool) (relax : EdgeRecord E → L → Option L)
    → Type (κ ⊔ ω)
Improves {E} {L} le relax =
    (r : EdgeRecord E) (a b c : L)
    → le a b ≡ true
    → relax r b ≡ some c
    → (c' : L) × (relax r a ≡ some c') × (le c' c ≡ true)

-- The labels that the seeds derive along live edges.
pub data Derives {ℓ κ ω} {N : Type ℓ} {E : Type κ} {L : Type ω} (g : Graph N E) (dir : Direction)
    (relax : EdgeRecord E → L → Option L) (seeds : List (ℕ × L)) : ℕ → L → Type (κ ⊔ ω) where
  seed : (v : ℕ) (l : L) → In (v, l) seeds → Derives g dir relax seeds v l
  along :
      (v : ℕ) (l : L) (r : EdgeRecord E) (c : L)
      → Derives g dir relax seeds v l
      → At g dir v r
      → relax r l ≡ some c
      → Derives g dir relax seeds (far dir r) c

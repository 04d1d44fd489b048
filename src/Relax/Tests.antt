-- ===== src/Relax/Tests.antt =====
-- The relaxation at a concrete store, with lengths below 1000 as labels.
use cfglib.Prelude.{
  In, In-cases, ℕ, suc, ◌+◌, ◌*◌, ◌<◌, ◌≡◌, ap, inl, inr, List, [], ◌∷◌, true, length, get_elem?,
  ltb, leb, if◌then◌else◌, Option, none, some, ok, arith,
}
use cfglib.Store.Chains.{outgoing}
use cfglib.Store.Graph.{EdgeRecord, node_bound}
use cfglib.Store.Scenario.{city, city-IsStore, city-LiveEnds}
use cfglib.Relax.{min_label_relaxation}
use cfglib.Relax.Potential.{total}
use cfglib.Relax.Derivation.{IsBounded, Improves, Derives}
use cfglib.Relax.Edges.{adjacent_count}
use cfglib.Relax.Least.{min_label_relaxation-least}

-- `distance.checked_add(*edge.payload())`, in a type that ends at 1000.
abbrev lengthen : EdgeRecord ℕ → ℕ → Option ℕ
lengthen r l = if ltb (l + r.payload) 1000 then some (l + r.payload) else none

abbrev Short : ℕ → Type 0
Short l = l < 1000

lengthen-IsBounded : IsBounded leb lengthen Short (λ l. l) 1000
lengthen-IsBounded = record {
  le_refl = λ a. ground arith;
  le_trans = λ a b c p q. ground arith;
  le_total = λ a b p. ground arith;
  falls = λ a b p. ground arith;
  below = λ a p. p;
  keeps = λ r a c p made. ground (arith, made);
}

lengthen-Improves : Improves leb lengthen
lengthen-Improves r a b c less made = (a + r.payload, ground (arith, made), ground (arith, made))

abbrev from_zero : List (ℕ × ℕ)
from_zero = (0, 0) ∷ []

from_zero-Short : (v l : ℕ) → In (v, l) from_zero → Short l × (v < node_bound city)
unfolding node_bound
from_zero-Short v l h = elim (In-cases (v, l) (0, 0) [] h) [
  | inl same ↦
      let node : 0 ≡ v = ap (λ (p : ℕ × ℕ). p.0) same in
      let label : 0 ≡ l = ap (λ (p : ℕ × ℕ). p.1) same in (omega arith, omega arith)
  | inr (k, at) ↦ absurd (cc (at))
]

abbrev enough : ℕ
enough = suc (length from_zero + total (adjacent_count city outgoing) 0 (node_bound city) * 1000)

min_label_relaxation-least_example :
    (labels : List (Option ℕ)) × (min_label_relaxation lengthen leb enough city from_zero outgoing
      ≡ ok labels)
    × (length labels ≡ node_bound city)
    × ((v l : ℕ)
        → get_elem? labels v ≡ some (some l)
        → Derives city outgoing lengthen from_zero v l)
    × ((v l : ℕ)
        → Derives city outgoing lengthen from_zero v l
        → (k : ℕ) × (get_elem? labels v ≡ some (some k)) × (leb k l ≡ true))
min_label_relaxation-least_example =
    min_label_relaxation-least city city-IsStore city-LiveEnds outgoing lengthen leb Short (λ l. l)
      1000 lengthen-IsBounded from_zero enough from_zero-Short (omega arith) lengthen-Improves

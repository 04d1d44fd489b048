-- ===== src/Relax/Edges.antt =====
-- The edges at a node that the relaxation of crates/cfglib/src/graph/relax.rs walks.
use cfglib.Prelude.{
  In, ℕ, ◌<◌, ◌≡◌, ◌↔◌, refl, sym, ◌∙◌, ap, subst, List, [], length, Result, ok, panic, out_of_fuel,
  ◌>>=◌,
}
use cfglib.Store.Chains.{Direction, outgoing, incoming}
use cfglib.Store.Graph.{Graph, EdgeRecord, edge, node_bound}
use cfglib.Store.Walk.{adjacent_edges}
use cfglib.Store.Invariant.{IsStore}
use cfglib.Store.Ends.{LiveEnds}
use cfglib.Store.Append.{contains_node-lt}
use cfglib.Store.Listing.{traverse}
use cfglib.Store.Neighbors.{At, walk-At}
use cfglib.Relax.{far}

abbrev read_off {κ} : {A : Type κ} → Result (List A) → List A
read_off (ok xs) = xs
read_off panic = []
read_off out_of_fuel = []

-- The edges that a walk at a node returns, and how many there are.
pub edges_at {ℓ κ} : {N : Type ℓ} {E : Type κ} → Graph N E → Direction → ℕ → List (EdgeRecord E)
edges_at g dir v = read_off (adjacent_edges g v dir >>= traverse (edge g))

unfoldable pub adjacent_count {ℓ κ} : {N : Type ℓ} {E : Type κ} → Graph N E → Direction → ℕ → ℕ
adjacent_count g dir v = length (edges_at g dir v)

module _ {ℓ κ} {N : Type ℓ} {E : Type κ} (g : Graph N E) (w : IsStore g) (ends : LiveEnds g)
    (dir : Direction) where
  pub edges_at-run :
      (v : ℕ)
      → v < node_bound g
      → (es : List ℕ) × (adjacent_edges g v dir ≡ ok es)
        × (traverse (edge g) es ≡ ok (edges_at g dir v))
        × ((r : EdgeRecord E) → In r (edges_at g dir v) ↔ At g dir v r)
  unfolding edges_at
  edges_at-run v h =
      let (es, rs, walked, run, at) = walk-At g dir v w ends h in
      let same : edges_at g dir v ≡ rs = rw (walked, run) refl in
      (
        es,
        walked,
        run ∙ ap ok (sym same),
        λ r. subst (λ qs. In r qs ↔ At g dir v r) (sym same) (at r),
      )

  pub far-lt : (v : ℕ) (r : EdgeRecord E) → At g dir v r → far dir r < node_bound g
  unfolding far
  far-lt v r h = by_direction dir h
    where
      by_direction : (d : Direction) → At g d v r → far d r < node_bound g
      by_direction outgoing (e, at, live, _) = contains_node-lt g _ (ends e r at live incoming)
      by_direction incoming (e, at, live, _) = contains_node-lt g _ (ends e r at live outgoing)

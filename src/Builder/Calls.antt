-- ===== src/Builder/Calls.antt =====
-- The calls of the structured builder, crates/cfglib/src/builder.rs, on the graph.
use cfglib.Prelude
use cfglib.Prelude.{
  ℕ, zero, suc, ◌+◌, ◌<◌, ◌≤◌, ◌≡◌, refl, sym, ◌∙◌, ap, subst, inl, inr, List, [], ◌∷◌, ◌++◌, Bool,
  true, false, length, if◌then◌else◌, arith, Bool-cases, get_elem?_lt, lt_of_get_elem?,
}
use cfglib.Store.Chains.{max_slots, outgoing}
use cfglib.Store.Graph.{EdgeRecord, node_bound, edge_bound, contains_edge}
use cfglib.Store.Walk
use cfglib.Store.Walk.Steps.{select}
use cfglib.Store.Adjacent.{adjacent_edges-IsStore, incident}
use cfglib.Store.Found.{record-found}
use cfglib.Cfg
use cfglib.Cfg.{Cfg}
use cfglib.Cfg.Edge
use cfglib.Cfg.Edge.{EdgeKind, same_kind}
use cfglib.Cfg.Grows.{IsWhole, Adds, Adds-refl, Adds-then, add_edge-Adds}
use cfglib.Builder.{add_edge, add_edges, any_of_kind}
use cfglib.Builder.Invariant.{Below, Below-grow}

abbrev pub AllLive : (ℕ → Bool) → List ℕ → Type 0
AllLive p [] = Unit {0}
AllLive p (e ∷ es) = (p e ≡ true) × AllLive p es

AllLive-select : (p : ℕ → Bool) (es : List ℕ) → AllLive p (select p es)
AllLive-select p [] = tt
AllLive-select p (e ∷ es) = elim (Bool-cases (p e)) [
  | inl h ↦ rw h (h, AllLive-select p es)
  | inr h ↦ rw h (AllLive-select p es)
]

module _ {ℓ ω} {W : Type ω} {I : Type ℓ} where
  pub wire :
      (cfg : Cfg W I (Unit {0})) (source target : ℕ) (kind : EdgeKind)
      → IsWhole cfg
      → source < node_bound cfg.graph
      → target < node_bound cfg.graph
      → edge_bound cfg.graph < max_slots
      → (cfg' : Cfg W I (Unit {0})) × (add_edge cfg source target kind ≡ Prelude.ok cfg')
        × Adds cfg cfg' [] 0 1
  unfolding add_edge
  wire cfg source target kind w hs ht room =
      let (cfg', run, a) = add_edge-Adds cfg source target kind tt w hs ht room in (cfg', rw run, a)

  pub wire_all :
      (cfg : Cfg W I (Unit {0})) (exits : List ℕ) (target : ℕ) (kind : EdgeKind)
      → IsWhole cfg
      → Below (node_bound cfg.graph) exits
      → target < node_bound cfg.graph
      → edge_bound cfg.graph + length exits ≤ max_slots
      → (cfg' : Cfg W I (Unit {0})) × (add_edges cfg exits target kind ≡ Prelude.ok cfg')
        × Adds cfg cfg' [] 0 (length exits)
  unfolding add_edges
  wire_all cfg [] target kind w hs ht room = (cfg, refl, Adds-refl cfg w)
  wire_all cfg (exit ∷ exits) target kind w hs ht room =
      let (cfg₁, run₁, a₁) = wire cfg exit target kind w hs.0 ht (omega (arith, room)) in
      let (cfg₂, run₂, a₂) =
        wire_all cfg₁ exits target kind a₁.whole
          (Below-grow (node_bound cfg.graph) (node_bound cfg₁.graph) exits
            (omega (arith, a₁.blocks)) hs.1)
          (omega (arith, a₁.blocks)) (omega (arith, a₁.edges, room)) in
      let more : 1 + length exits ≡ suc (length exits) = omega arith in
      (
        cfg₂,
        rw (run₁, run₂),
        subst (λ m. Adds cfg cfg₂ [] 0 m) more (Adds-then cfg cfg₁ cfg₂ a₁ a₂),
      )

  -- Every live edge can be read.
  edge_found :
      (cfg : Cfg W I (Unit {0})) (e : ℕ)
      → contains_edge cfg.graph e ≡ true
      → (r : EdgeRecord (Edge.Edge W (Unit {0}))) × (Cfg.edge cfg e ≡ Prelude.ok r)
  unfolding Cfg.edge
  edge_found cfg e live = let (r, found, at) = record-found cfg.graph e live in (r, rw live found)

  pub any_of_kind-ok :
      (cfg : Cfg W I (Unit {0})) (es : List ℕ) (kind : EdgeKind)
      → AllLive (contains_edge cfg.graph) es
      → (b : Bool) × (any_of_kind cfg es kind ≡ Prelude.ok b)
  unfolding any_of_kind
  any_of_kind-ok cfg [] kind h = (false, refl)
  any_of_kind-ok cfg (e ∷ es) kind h =
      let (r, run) = edge_found cfg e h.0 in
      let (b, rest) = any_of_kind-ok cfg es kind h.1 in
      elim (Bool-cases (same_kind r.payload.kind kind)) [
        | inl yes_ ↦ (true, rw (run, yes_))
        | inr no_ ↦ (b, rw (run, no_) rest)
      ]

  pub outgoing-ok :
      (cfg : Cfg W I (Unit {0})) (v : ℕ)
      → IsWhole cfg
      → v < node_bound cfg.graph
      → (es : List ℕ) × (Cfg.outgoing cfg v ≡ Prelude.ok es) × AllLive (contains_edge cfg.graph) es
  unfolding Cfg.outgoing Walk.edges_out
  outgoing-ok cfg v w h =
      let live = w.full v h in
      (
        select (contains_edge cfg.graph) (incident cfg.graph outgoing v),
        rw live at (adjacent_edges-IsStore cfg.graph outgoing v w.store h),
        AllLive-select (contains_edge cfg.graph) (incident cfg.graph outgoing v),
      )

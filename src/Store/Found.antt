-- ===== src/Store/Found.antt =====
-- Reading a node or an edge of a well-formed store of crates/cfglib/src/graph/store.rs.
use cfglib.Prelude.{
  ℕ, ◌-◌, ◌<◌, ◌≤◌, ◌≡◌, ◌∙◌, inl, inr, true, length, get_elem?, ltb, some, ok, arith, Bool-cases,
  ltb→lt, get_elem?_lt, get_elem?-append_left, get_elem?-append_right,
}
use cfglib.Store.Graph.{
  Graph, EdgeRecord, edge, node_bound, edge_bound, contains_edge, edge_is_live, records, node,
}
use cfglib.Store.Contents.{payloads}

module _ {ℓ κ} {N : Type ℓ} {E : Type κ} where
  contains_edge-lt : (g : Graph N E) (e : ℕ) → contains_edge g e ≡ true → e < edge_bound g
  unfolding contains_edge edge_is_live
  contains_edge-lt g e live = elim (Bool-cases (ltb e (edge_bound g))) [
    | inl inside ↦ ltb→lt e (edge_bound g) inside
    | inr outside ↦ absurd (cc (rw outside at live))
  ]

  -- The record of a live edge can be read, and it is that of the listing.
  pub record-found :
      (g : Graph N E) (e : ℕ)
      → contains_edge g e ≡ true
      → (r : EdgeRecord E) × (edge g e ≡ ok r) × (get_elem? (records g) e ≡ some r)
  unfolding edge edge_bound
  record-found g e live =
      let inside = contains_edge-lt g e live in
      elim (Bool-cases (ltb e (length g.base_edges))) [
        | inl low ↦
            let lt = ltb→lt e (length g.base_edges) low in
            let (r, at) = get_elem?_lt g.base_edges e lt in
            (r, rw (low, at), get_elem?-append_left g.base_edges g.delta_edges e lt ∙ at)
        | inr high ↦
            let above : length g.base_edges ≤ e = ground arith in
            let (r, at) =
              get_elem?_lt g.delta_edges (e - length g.base_edges) (ground (arith, inside)) in
            (r, rw (high, at), get_elem?-append_right g.base_edges g.delta_edges e above ∙ at)
      ]

  -- The payload of a node slot can be read, and it is that of the listing.
  pub node-found :
      (g : Graph N E) (v : ℕ)
      → v < node_bound g
      → (n : N) × (node g v ≡ ok n) × (get_elem? (payloads g) v ≡ some n)
  unfolding node node_bound
  node-found g v h = elim (Bool-cases (ltb v (length g.base_nodes))) [
    | inl low ↦
        let inside = ltb→lt v (length g.base_nodes) low in
        let (n, at) = get_elem?_lt g.base_nodes v inside in
        (n, rw (low, at), get_elem?-append_left g.base_nodes g.delta_nodes v inside ∙ at)
    | inr high ↦
        let above : length g.base_nodes ≤ v = ground arith in
        let (n, at) = get_elem?_lt g.delta_nodes (v - length g.base_nodes) (omega arith) in
        (n, rw (high, at), get_elem?-append_right g.base_nodes g.delta_nodes v above ∙ at)
  ]

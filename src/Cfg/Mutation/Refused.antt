-- ===== src/Cfg/Mutation/Refused.antt =====
-- When the calls of crates/cfglib/src/graph/store.rs behind the mutations of a control-flow graph panic.
use cfglib.Prelude.{
  ℕ, ◌≡◌, refl, inl, inr, true, false, ◌&&◌, length, ltb, ok, panic, arith, Bool-cases, lt→ltb, ◌-◌,
  get_elem?_ge,
}
use cfglib.Store.Graph.{
  Graph, node_bound, edge_bound, contains_node, contains_edge, node_is_live, records,
  assert_live_endpoint, node_mut,
}
use cfglib.Store.Graph
use cfglib.Store.Append.{contains_node-lt}

module _ {ℓ κ} {N : Type ℓ} {E : Type κ} where
  endpoint_gone :
      (g : Graph N E) (v : ℕ) → contains_node g v ≡ false → assert_live_endpoint g v ≡ panic
  unfolding assert_live_endpoint contains_node
  endpoint_gone g v gone = elim (Bool-cases (ltb v (node_bound g))) [
    | inl inside ↦ rw (inside, gone) refl
    | inr outside ↦ rw outside refl
  ]

  endpoint_live :
      (g : Graph N E) (v : ℕ) → contains_node g v ≡ true → assert_live_endpoint g v ≡ ok tt
  unfolding assert_live_endpoint contains_node
  endpoint_live g v live = rw (lt→ltb v (node_bound g) (contains_node-lt g v live), live) refl

  pub add_edge-panic :
      (g : Graph N E) (source target : ℕ) (payload : E)
      → (contains_node g source && contains_node g target) ≡ false
      → Graph.add_edge g source target payload ≡ panic
  unfolding Graph.add_edge
  add_edge-panic g source target payload gone = elim (Bool-cases (contains_node g source)) [
    | inr no_source ↦ rw (endpoint_gone g source no_source) refl
    | inl live ↦
        let no_target = rw live at gone in
        rw (endpoint_live g source live, endpoint_gone g target no_target) refl
  ]

  pub node_mut-panic :
      (g : Graph N E) (v : ℕ) (write : N → N)
      → ltb v (node_bound g) ≡ false
      → node_mut g v write ≡ panic
  unfolding node_mut node_bound
  node_mut-panic g v write outside =
      let low : ltb v (length g.base_nodes) ≡ false = ground (arith, outside) in
      rw (low, get_elem?_ge g.delta_nodes (v - length g.base_nodes) (ground (arith, outside))) refl

-- ===== src/Store/Append.antt =====
-- `add_node` and `add_edge` of crates/cfglib/src/graph/store.rs on a well-formed store.
use cfglib.Prelude.{
  ℕ, suc, ◌+◌, ◌<◌, ◌≡◌, refl, sym, ◌∙◌, ap, subst, inl, inr, List, [], ◌∷◌, ◌++◌, Bool, true, ltb,
  ◌==◌, if◌then◌else◌, ok, arith, Bool-cases, lt→ltb, ltb→lt, length-map, length-append,
}
use mathlib.Core.List.{map-append, append_assoc}
use cfglib.Store.LiveSet
use cfglib.Store.LiveSet.{LiveSet, IsPacked, push_live-IsPacked, is_live-push_live}
use cfglib.Store.LiveSet.Count.{count-push_live}
use cfglib.Store.Chains
use cfglib.Store.Chains.{DeltaChains, Direction, outgoing, incoming, max_slots}
use cfglib.Store.Chains.Refine.{IsChained, IsChained-grow, append-IsChained}
use cfglib.Store.Graph.{
  Graph, EdgeRecord, node_bound, edge_bound, add_node, add_edge, assert_live_endpoint, node_is_live,
  contains_node, contains_edge, records,
}
use cfglib.Store.Walk.{Axis, axis_of, run_bounds}
use cfglib.Store.Walk.Steps.{Slice}
use cfglib.Store.Invariant.{
  IsStore, IsCounted, endpoint, endpoints, Indexed, contains_node-IsStore, contains_edge-IsStore,
}

-- The record of an edge.
abbrev pub edge_record {κ} : {E : Type κ} → ℕ → ℕ → E → EdgeRecord E
edge_record source target payload = record { source = source; target = target; payload = payload }

IsCounted-push_live :
    (s : LiveSet) (bound live : ℕ)
    → IsCounted s bound live
    → IsCounted (LiveSet.push_live s).0 (suc bound) (live + 1)
unfolding LiveSet.push_live
IsCounted-push_live s bound live c = record {
  packed = push_live-IsPacked s c.packed;
  size = omega (arith, c.size);
  counted = omega (arith, c.counted, count-push_live s c.packed);
}

IsCounted-is_live_pushed :
    (s : LiveSet) (bound live i : ℕ) {old : Bool}
    → IsCounted s bound live
    → old ≡ LiveSet.is_live s i
    → LiveSet.is_live (LiveSet.push_live s).0 i ≡ (if i == bound then true else old)
IsCounted-is_live_pushed s bound live i c e =
    is_live-push_live s c.packed i
    ∙ ap (λ n. if i == n then true else LiveSet.is_live s i) c.size
    ∙ ap (λ b. if i == bound then true else b) (sym e)

Indexed-same :
    (a b : Axis) (v : ℕ) (es : List ℕ)
    → a.offsets ≡ b.offsets
    → a.edges ≡ b.edges
    → Indexed a v es
    → Indexed b v es
unfolding run_bounds
Indexed-same a b v es p q (base, end, run, slice) =
    (base, end, rw⁻¹ p run, subst (λ edges. Slice edges base end es) q slice)

module _ {ℓ κ} {N : Type ℓ} {E : Type κ} where
  pub contains_node-lt : (g : Graph N E) (v : ℕ) → contains_node g v ≡ true → v < node_bound g
  unfolding contains_node node_is_live
  contains_node-lt g v e = elim (Bool-cases (ltb v (node_bound g))) [
    | inl p ↦ ltb→lt v (node_bound g) p
    | inr p ↦ absurd (cc (rw p at e))
  ]

  assert_live_endpoint-ok :
      (g : Graph N E) (v : ℕ) → contains_node g v ≡ true → assert_live_endpoint g v ≡ ok tt
  unfolding assert_live_endpoint contains_node
  assert_live_endpoint-ok g v e = rw (lt→ltb v (node_bound g) (contains_node-lt g v e), e)

  -- The index looks at the base only.
  pub Indexed-frame :
      (g g' : Graph N E)
      → g.out_offsets ≡ g'.out_offsets
      → g.out_edges ≡ g'.out_edges
      → g.in_offsets ≡ g'.in_offsets
      → g.in_edges ≡ g'.in_edges
      → (dir : Direction) (v : ℕ) (es : List ℕ) → Indexed (axis_of g dir) v es
      → Indexed (axis_of g' dir) v es
  unfolding axis_of
  Indexed-frame g g' a b c d outgoing v es i =
      Indexed-same (axis_of g outgoing) (axis_of g' outgoing) v es a b i
  Indexed-frame g g' a b c d incoming v es i =
      Indexed-same (axis_of g incoming) (axis_of g' incoming) v es c d i

  -- In a well-formed store with a node slot left, `add_node` returns, the store stays well formed, has
  -- one node slot more and the same records, the new node is live, and no other node and no edge
  -- changes.
  pub add_node-IsStore :
      (g : Graph N E) (payload : N)
      → IsStore g
      → node_bound g < max_slots
      → (g' : Graph N E) × (add_node g payload ≡ ok (g', node_bound g))
        × IsStore g'
        × (node_bound g' ≡ suc (node_bound g))
        × (records g' ≡ records g)
        × ((v : ℕ) → contains_node g' v ≡ (if v == node_bound g then true else contains_node g v))
        × ((e : ℕ) → contains_edge g' e ≡ contains_edge g e)
  unfolding add_node node_bound edge_bound
  add_node-IsStore g payload w room =
      let g' : Graph N E = record g {
        delta_nodes = g.delta_nodes ++ payload ∷ [];
        live_nodes = (LiveSet.push_live g.live_nodes).0;
        live_node_count = g.live_node_count + 1;
      } in
      let grows : node_bound g' ≡ suc (node_bound g) =
        omega (arith, length-append g.delta_nodes (payload ∷ [])) in
      let w' : IsStore g' = record {
        chained =
            IsChained-grow g.chains (node_bound g) (node_bound g') _ _ (omega (arith, grows))
              w.chained;
        indexed = λ dir v. Indexed-frame g g' refl refl refl refl dir v _ (w.indexed dir v);
        nodes =
            rw grows (IsCounted-push_live g.live_nodes (node_bound g) g.live_node_count w.nodes);
        edges = w.edges;
        unmoved = w.unmoved;
        node_room = omega (arith, grows, room);
        edge_room = w.edge_room;
      } in
      (
        g',
        rw (lt→ltb (node_bound g) max_slots room),
        w',
        grows,
        refl,
        λ v.
            contains_node-IsStore g' v w'
            ∙ IsCounted-is_live_pushed g.live_nodes (node_bound g) g.live_node_count v w.nodes
                (contains_node-IsStore g v w),
        λ e. contains_edge-IsStore g' e w' ∙ sym (contains_edge-IsStore g e w),
      )

  chains-appended :
      (g : Graph N E) (source target : ℕ) (payload : E)
      → IsStore g
      → source < node_bound g
      → target < node_bound g
      → edge_bound g < max_slots
      → (c : DeltaChains) × (Chains.append g.chains source target (node_bound g) ≡ ok c)
        × IsChained c
            (node_bound g)
            (endpoints outgoing (g.delta_edges ++ edge_record source target payload ∷ []))
            (endpoints incoming (g.delta_edges ++ edge_record source target payload ∷ []))
  unfolding edge_bound
  chains-appended g source target payload w hs ht room =
      let new = edge_record source target payload ∷ [] in
      rw
        (
          map-append (endpoint outgoing) g.delta_edges new,
          map-append (endpoint incoming) g.delta_edges new,
        )
        (append-IsChained g.chains source target (node_bound g) (endpoints outgoing g.delta_edges)
          (endpoints incoming g.delta_edges) w.chained hs ht
          (omega (arith, length-map (endpoint outgoing) g.delta_edges)))

  -- In a well-formed store with an edge slot left and between live nodes, add_edge returns, the
  -- store stays well formed, its records gain the edge at the end, the new edge is live, and no
  -- other edge and no node changes.
  pub add_edge-IsStore :
      (g : Graph N E) (source target : ℕ) (payload : E)
      → IsStore g
      → contains_node g source ≡ true
      → contains_node g target ≡ true
      → edge_bound g < max_slots
      → (g' : Graph N E) × (add_edge g source target payload ≡ ok (g', edge_bound g))
        × IsStore g'
        × (records g' ≡ records g ++ edge_record source target payload ∷ [])
        × ((e : ℕ) → contains_edge g' e ≡ (if e == edge_bound g then true else contains_edge g e))
        × ((v : ℕ) → contains_node g' v ≡ contains_node g v)
  unfolding add_edge node_bound edge_bound
  add_edge-IsStore g source target payload w ls lt room =
      let hs = contains_node-lt g source ls in
      let ht = contains_node-lt g target lt in
      let (c, run, chained) = chains-appended g source target payload w hs ht room in
      let new = edge_record source target payload ∷ [] in
      let g' : Graph N E = record g {
        delta_edges = g.delta_edges ++ new;
        chains = c;
        live_edges = (LiveSet.push_live g.live_edges).0;
        live_edge_count = g.live_edge_count + 1;
      } in
      let grows : edge_bound g' ≡ suc (edge_bound g) =
        omega (arith, length-append g.delta_edges new) in
      let w' : IsStore g' = record {
        chained = chained;
        indexed = λ dir v. Indexed-frame g g' refl refl refl refl dir v _ (w.indexed dir v);
        nodes = w.nodes;
        edges =
            rw grows (IsCounted-push_live g.live_edges (edge_bound g) g.live_edge_count w.edges);
        unmoved = w.unmoved;
        node_room = w.node_room;
        edge_room = omega (arith, grows, room);
      } in
      (
        g',
        rw (
          assert_live_endpoint-ok g source ls,
          assert_live_endpoint-ok g target lt,
          lt→ltb (edge_bound g) max_slots room,
          run,
        ),
        w',
        sym (append_assoc g.base_edges g.delta_edges new),
        λ e.
            contains_edge-IsStore g' e w'
            ∙ IsCounted-is_live_pushed g.live_edges (edge_bound g) g.live_edge_count e w.edges
                (contains_edge-IsStore g e w),
        λ v. contains_node-IsStore g' v w' ∙ sym (contains_node-IsStore g v w),
      )

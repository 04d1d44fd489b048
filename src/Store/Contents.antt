-- ===== src/Store/Contents.antt =====
-- The node payloads of a store of crates/cfglib/src/graph/store.rs: `node_mut` writes one, and no
-- removal touches any.
use mathlib.Core.List.{append_assoc}
use cfglib.Prelude.{
  ℕ, zero, suc, ◌+◌, ◌-◌, ◌<◌, ◌≤◌, ◌≡◌, refl, sym, ◌∙◌, ap, inl, inr, List, [], ◌∷◌, ◌++◌, Bool,
  length, get_elem?, set, ltb, some, ok, >>=-eq-ok, assert, arith, Bool-cases, ltb→lt,
  length-append, length-set, get_elem?_lt,
}
use cfglib.Store.LiveSet
use cfglib.Store.Chains
use cfglib.Store.Chains.{Direction, outgoing, incoming, max_slots}
use cfglib.Store.Graph.{
  Graph, node_bound, edge_bound, retire_edge, contains_node, contains_edge, node_is_live, records,
  node_mut, add_node, add_edge, assert_live_endpoint,
}
use cfglib.Store.Walk.{retire_all, clear_adjacency, remove_node, adjacent_edges}
use cfglib.Store.Invariant.{IsStore, contains_node-IsStore, contains_edge-IsStore}
use cfglib.Store.Append.{Indexed-frame, edge_record}

module _ {ℓ} {A : Type ℓ} where
  -- The list with one element rewritten.
  abbrev pub modify : List A → ℕ → (A → A) → List A
  modify [] i write = []
  modify (x ∷ xs) zero write = write x ∷ xs
  modify (x ∷ xs) (suc i) write = x ∷ modify xs i write

  set-modify :
      (xs : List A) (i : ℕ) (write : A → A) {x : A}
      → get_elem? xs i ≡ some x
      → set xs i (write x) ≡ modify xs i write
  set-modify [] i write e = refl
  set-modify (y ∷ xs) zero write e = cc
  set-modify (y ∷ xs) (suc i) write e = ap (◌∷◌ y) (set-modify xs i write e)

  modify-append_left :
      (xs ys : List A) (i : ℕ) (write : A → A)
      → i < length xs
      → modify xs i write ++ ys ≡ modify (xs ++ ys) i write
  modify-append_left [] ys i write h = absurd (omega arith)
  modify-append_left (x ∷ xs) ys zero write h = refl
  modify-append_left (x ∷ xs) ys (suc i) write h =
      ap (◌∷◌ x) (modify-append_left xs ys i write (omega arith))

  modify-append_right :
      (xs ys : List A) (i : ℕ) (write : A → A)
      → length xs ≤ i
      → xs ++ modify ys (i - length xs) write ≡ modify (xs ++ ys) i write
  modify-append_right [] ys i write h = ap (λ k. modify ys k write) (omega arith)
  modify-append_right (x ∷ xs) ys zero write h = absurd (omega arith)
  modify-append_right (x ∷ xs) ys (suc i) write h =
      let same : suc i - suc (length xs) ≡ i - length xs = omega arith in
      ap (◌∷◌ x)
        (ap (λ k. xs ++ modify ys k write) same ∙ modify-append_right xs ys i write (omega arith))

module _ {ℓ κ} {N : Type ℓ} {E : Type κ} where
  -- All payloads in identity order, those of removed nodes included.
  abbrev pub payloads : Graph N E → List N
  payloads g = g.base_nodes ++ g.delta_nodes

  pub payloads_size : (g : Graph N E) → length (payloads g) ≡ node_bound g
  unfolding node_bound
  payloads_size g = length-append g.base_nodes g.delta_nodes

  -- Only the payload of the node `v` is written.
  pub record Rewrites (g g' : Graph N E) (v : ℕ) (write : N → N) : Type (ℓ ⊔ κ) where
    pub store : IsStore g'
    pub bound : node_bound g' ≡ node_bound g
    pub edge_bound : edge_bound g' ≡ edge_bound g
    pub kept : records g' ≡ records g
    pub written : payloads g' ≡ modify (payloads g) v write
    pub nodes : (u : ℕ) → contains_node g' u ≡ contains_node g u
    pub edges : (e : ℕ) → contains_edge g' e ≡ contains_edge g e

  same_size-IsStore :
      (g : Graph N E) (base delta : List N)
      → length base + length delta ≡ node_bound g
      → IsStore g
      → IsStore (record g { base_nodes = base; delta_nodes = delta })
  unfolding node_bound edge_bound
  same_size-IsStore g base delta same w =
      let g' : Graph N E = record g { base_nodes = base; delta_nodes = delta } in
      record {
        chained = rw same w.chained;
        indexed = λ dir u. Indexed-frame g g' refl refl refl refl dir u _ (w.indexed dir u);
        nodes = rw same w.nodes;
        edges = w.edges;
        unmoved = w.unmoved;
        node_room = rw same w.node_room;
        edge_room = w.edge_room;
      }

  same_size-Rewrites :
      (g : Graph N E) (base delta : List N) (v : ℕ) (write : N → N)
      → length base + length delta ≡ node_bound g
      → IsStore g
      → base ++ delta ≡ modify (payloads g) v write
      → Rewrites g (record g { base_nodes = base; delta_nodes = delta }) v write
  unfolding node_bound edge_bound
  same_size-Rewrites g base delta v write same w written =
      let g' : Graph N E = record g { base_nodes = base; delta_nodes = delta } in
      let w' : IsStore g' = same_size-IsStore g base delta same w in
      record {
        store = w';
        bound = same;
        edge_bound = refl;
        kept = refl;
        written = written;
        nodes = λ u. contains_node-IsStore g' u w' ∙ sym (contains_node-IsStore g u w);
        edges = λ e. contains_edge-IsStore g' e w' ∙ sym (contains_edge-IsStore g e w);
      }

  -- In a well-formed store `node_mut` finds every node slot, removed or not, and writes that payload
  -- and nothing else.
  pub node_mut-Rewrites :
      (g : Graph N E) (v : ℕ) (write : N → N)
      → IsStore g
      → v < node_bound g
      → (g' : Graph N E) × (node_mut g v write ≡ ok g') × Rewrites g g' v write
  unfolding node_mut node_bound
  node_mut-Rewrites g v write w h = elim (Bool-cases (ltb v (length g.base_nodes))) [
    | inl low ↦
        let inside = ltb→lt v (length g.base_nodes) low in
        let (x, at) = get_elem?_lt g.base_nodes v inside in
        let base = set g.base_nodes v (write x) in
        (
          record g { base_nodes = base },
          rw (low, at),
          same_size-Rewrites g base g.delta_nodes v write
              (omega (arith, length-set g.base_nodes v (write x))) w
              (ap (λ xs. xs ++ g.delta_nodes) (set-modify g.base_nodes v write at)
                ∙ modify-append_left g.base_nodes g.delta_nodes v write inside),
        )
    | inr high ↦
        let k = v - length g.base_nodes in
        let above : length g.base_nodes ≤ v = ground arith in
        let (x, at) = get_elem?_lt g.delta_nodes k (omega arith) in
        let delta = set g.delta_nodes k (write x) in
        (
          record g { delta_nodes = delta },
          rw (high, at),
          same_size-Rewrites g g.base_nodes delta v write
              (omega (arith, length-set g.delta_nodes k (write x))) w
              (ap (λ xs. g.base_nodes ++ xs) (set-modify g.delta_nodes k write at)
                ∙ modify-append_right g.base_nodes g.delta_nodes v write above),
        )
  ]

  pub payloads-add_node :
      (g g' : Graph N E) (payload : N) (v : ℕ)
      → add_node g payload ≡ ok (g', v)
      → payloads g' ≡ payloads g ++ payload ∷ []
  unfolding add_node
  payloads-add_node g g' payload v run = elim (Bool-cases (ltb (node_bound g) max_slots)) [
    | inl room ↦
        let grown : Graph N E = record g {
          delta_nodes = g.delta_nodes ++ payload ∷ [];
          live_nodes = (LiveSet.push_live g.live_nodes).0;
          live_node_count = g.live_node_count + 1;
        } in
        let same : grown ≡ g' = cc (rw room at run) in
        sym (ap payloads same) ∙ sym (append_assoc g.base_nodes g.delta_nodes (payload ∷ []))
    | inr full ↦ absurd (cc (rw full at run))
  ]

  pub payloads-add_edge :
      (g g' : Graph N E) (source target e : ℕ) (payload : E)
      → add_edge g source target payload ≡ ok (g', e)
      → payloads g' ≡ payloads g
  unfolding add_edge
  payloads-add_edge g g' source target e payload run =
      let (_, _, run₁) = >>=-eq-ok (assert_live_endpoint g source) _ run in
      let (_, _, run₂) = >>=-eq-ok (assert_live_endpoint g target) _ run₁ in
      let (_, _, run₃) = >>=-eq-ok (assert (ltb (edge_bound g) max_slots)) _ run₂ in
      let (c, _, run₄) = >>=-eq-ok (Chains.append g.chains source target (node_bound g)) _ run₃ in
      let grown : Graph N E = record g {
        delta_edges = g.delta_edges ++ edge_record source target payload ∷ [];
        chains = c;
        live_edges = (LiveSet.push_live g.live_edges).0;
        live_edge_count = g.live_edge_count + 1;
      } in
      let same : grown ≡ g' = cc (run₄) in sym (ap payloads same)

  payloads-retire_all : (g : Graph N E) (es : List ℕ) → payloads (retire_all g es) ≡ payloads g
  unfolding retire_all retire_edge
  payloads-retire_all g [] = refl
  payloads-retire_all g (e ∷ es) =
      payloads-retire_all (retire_edge g e).0 es
      ∙ elim (Bool-cases (LiveSet.clear g.live_edges e).1) [
        | inl old ↦ rw (retire_edge, old)
        | inr new ↦ rw (retire_edge, new)
      ]

  payloads-clear_adjacency :
      (g g' : Graph N E) (v : ℕ) (dir : Direction)
      → clear_adjacency g v dir ≡ ok g'
      → payloads g' ≡ payloads g
  unfolding clear_adjacency
  payloads-clear_adjacency g g' v dir run =
      let (es, _, done) = >>=-eq-ok (adjacent_edges g v dir) _ run in
      let same : retire_all g es ≡ g' = cc (done) in
      sym (ap payloads same) ∙ payloads-retire_all g es

  pub payloads-remove_node :
      (g g' : Graph N E) (v : ℕ) (b : Bool)
      → remove_node g v ≡ ok (g', b)
      → payloads g' ≡ payloads g
  unfolding remove_node
  payloads-remove_node g g' v b run = elim (Bool-cases (node_is_live g v)) [
    | inl live ↦
        let (g₁, run₁, rest) = >>=-eq-ok (clear_adjacency g v outgoing) _ (rw live at run) in
        let (g₂, run₂, done) = >>=-eq-ok (clear_adjacency g₁ v incoming) _ rest in
        let cleared : Graph N E = record g₂ {
          live_nodes = (LiveSet.clear g₂.live_nodes v).0;
          live_node_count = g₂.live_node_count - 1;
        } in
        let same : cleared ≡ g' = cc (done) in
        sym (ap payloads same)
        ∙ payloads-clear_adjacency g₁ g₂ v incoming run₂
        ∙ payloads-clear_adjacency g g₁ v outgoing run₁
    | inr dead ↦ let same : g ≡ g' = cc (rw dead at run) in sym (ap payloads same)
  ]

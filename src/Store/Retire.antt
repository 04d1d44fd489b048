-- ===== src/Store/Retire.antt =====
-- `retire_edge` and `clear_adjacency` of crates/cfglib/src/graph/store.rs and
-- crates/cfglib/src/graph/store/adjacency.rs on a well-formed store.
use cfglib.Prelude.{
  ℕ, ◌-◌, ◌<◌, ◌≡◌, refl, sym, ◌∙◌, ap, subst, inl, inr, Bool, true, false, ◌||◌, ◌==◌,
  if◌then◌else◌, arith, Bool-cases, ==→≡,
}
use cfglib.Store.LiveSet
use cfglib.Store.LiveSet.{LiveSet, IsPacked, clear-IsPacked, clear-len, is_live-clear}
use cfglib.Store.LiveSet.Count.{count_to-clear}
use cfglib.Store.Graph.{
  Graph, node_bound, edge_bound, retire_edge, remove_edge, contains_node, contains_edge, records,
}
use cfglib.Store.Invariant.{IsStore, IsCounted, contains_node-IsStore, contains_edge-IsStore}
use cfglib.Store.Append.{Indexed-frame}

is_live_lt : (s : LiveSet) (i : ℕ) → LiveSet.is_live s i ≡ true → i < s.len
unfolding LiveSet.is_live
is_live_lt s i e = ground (arith, e)

pub IsCounted-clear :
    (s : LiveSet) (bound live i : ℕ)
    → LiveSet.is_live s i ≡ true
    → IsCounted s bound live
    → IsCounted (LiveSet.clear s i).0 bound (live - 1)
IsCounted-clear s bound live i e c =
    let inside = is_live_lt s i e in
    let fewer = count_to-clear s i s.len c.packed e inside in
    let size = clear-len s c.packed i in
    record {
      packed = clear-IsPacked s c.packed i;
      size = size ∙ c.size;
      counted = rw size (omega (arith, c.counted, fewer));
    }

module _ {ℓ κ} {N : Type ℓ} {E : Type κ} where
  -- A store that the edges with `gone` were taken from.
  pub record Retires (g g' : Graph N E) (gone : ℕ → Bool) : Type κ where
    pub store : IsStore g'
    pub bound : node_bound g' ≡ node_bound g
    pub kept : records g' ≡ records g
    pub edges : (e : ℕ) → contains_edge g' e ≡ (if gone e then false else contains_edge g e)
    pub nodes : (v : ℕ) → contains_node g' v ≡ contains_node g v

  pub Retires-then :
      (g g₁ g₂ : Graph N E) (p q : ℕ → Bool)
      → Retires g g₁ p
      → Retires g₁ g₂ q
      → Retires g g₂ (λ e. p e || q e)
  Retires-then g g₁ g₂ p q r s = record {
    store = s.store;
    bound = s.bound ∙ r.bound;
    kept = s.kept ∙ r.kept;
    edges = λ e. s.edges e ∙ elim (Bool-cases (p e)) [
      | inl h ↦ elim (Bool-cases (q e)) [ inl k ↦ rw (k, h) | inr k ↦ rw (k, r.edges e, h) ]
      | inr h ↦ elim (Bool-cases (q e)) [ inl k ↦ rw (k, h) | inr k ↦ rw (k, r.edges e, h) ]
    ];
    nodes = λ v. s.nodes v ∙ r.nodes v;
  }

  retire_edge-live :
      (g : Graph N E) (slot : ℕ)
      → IsStore g
      → LiveSet.is_live g.live_edges slot ≡ true
      → retire_edge g slot ≡ (
        record g {
          live_edges = (LiveSet.clear g.live_edges slot).0;
          live_edge_count = g.live_edge_count - 1;
        },
        true,
      )
  unfolding retire_edge
  retire_edge-live g slot w e = rw ((is_live-clear g.live_edges w.edges.packed slot slot).1, e)

  retire_edge-dead :
      (g : Graph N E) (slot : ℕ)
      → IsStore g
      → LiveSet.is_live g.live_edges slot ≡ false
      → retire_edge g slot ≡ (g, false)
  unfolding retire_edge
  retire_edge-dead g slot w e = rw ((is_live-clear g.live_edges w.edges.packed slot slot).1, e)

  Retires-live :
      (g : Graph N E) (slot : ℕ)
      → IsStore g
      → LiveSet.is_live g.live_edges slot ≡ true
      → Retires g (retire_edge g slot).0 (λ e. slot == e)
  unfolding node_bound edge_bound
  Retires-live g slot w live =
      let g' : Graph N E = record g {
        live_edges = (LiveSet.clear g.live_edges slot).0;
        live_edge_count = g.live_edge_count - 1;
      } in
      let w' : IsStore g' = record {
        chained = w.chained;
        indexed = λ dir v. Indexed-frame g g' refl refl refl refl dir v _ (w.indexed dir v);
        nodes = w.nodes;
        edges = IsCounted-clear g.live_edges (edge_bound g) g.live_edge_count slot live w.edges;
        unmoved = w.unmoved;
        node_room = w.node_room;
        edge_room = w.edge_room;
      } in
      let out : Retires g g' (λ e. slot == e) = record {
        store = w';
        bound = refl;
        kept = refl;
        edges = λ e.
            contains_edge-IsStore g' e w'
            ∙ (is_live-clear g.live_edges w.edges.packed slot e).0
            ∙ ap (λ b. if slot == e then false else b) (sym (contains_edge-IsStore g e w));
        nodes = λ v. contains_node-IsStore g' v w' ∙ sym (contains_node-IsStore g v w);
      } in
      subst (λ r. Retires g r.0 (λ e. slot == e)) (sym (retire_edge-live g slot w live)) out

  Retires-dead :
      (g : Graph N E) (slot : ℕ)
      → IsStore g
      → LiveSet.is_live g.live_edges slot ≡ false
      → Retires g (retire_edge g slot).0 (λ e. slot == e)
  Retires-dead g slot w dead =
      let out : Retires g g (λ e. slot == e) = record {
        store = w;
        bound = refl;
        kept = refl;
        edges = λ e. elim (Bool-cases (slot == e)) [
          | inl q ↦
              rw q
                (ap (contains_edge g) (sym (==→≡ slot e q)) ∙ contains_edge-IsStore g slot w ∙ dead)
          | inr q ↦ rw q
        ];
        nodes = λ v. refl;
      } in
      subst (λ r. Retires g r.0 (λ e. slot == e)) (sym (retire_edge-dead g slot w dead)) out

  -- `remove_edge` on a well-formed store leaves a well-formed store with the same records, in which
  -- that edge is not live and no other edge and no node has changed, and returns whether the edge had
  -- been live.
  pub remove_edge-Retires :
      (g : Graph N E) (edge : ℕ)
      → IsStore g
      → Retires g (remove_edge g edge).0 (λ e. edge == e)
        × ((remove_edge g edge).1 ≡ contains_edge g edge)
  unfolding remove_edge
  remove_edge-Retires g edge w = elim (Bool-cases (LiveSet.is_live g.live_edges edge)) [
    | inl live ↦ (
      Retires-live g edge w live,
      ap (λ r. r.1) (retire_edge-live g edge w live) ∙ sym (contains_edge-IsStore g edge w ∙ live),
    )
    | inr dead ↦ (
      Retires-dead g edge w dead,
      ap (λ r. r.1) (retire_edge-dead g edge w dead) ∙ sym (contains_edge-IsStore g edge w ∙ dead),
    )
  ]

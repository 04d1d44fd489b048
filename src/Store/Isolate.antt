-- ===== src/Store/Isolate.antt =====
-- `remove_node` of crates/cfglib/src/graph/store.rs on a well-formed store: the live edges at the node
-- go with it.
use cfglib.Prelude.{
  ℕ, ◌+◌, ◌-◌, ◌≡◌, refl, sym, ◌∙◌, ap, subst, inl, inr, List, [], ◌∷◌, Bool, true, false, ◌&&◌,
  length, ◌||◌, ◌==◌, if◌then◌else◌, ok, arith, Bool-cases, ==→≡,
}
use cfglib.Store.LiveSet
use cfglib.Store.LiveSet.{LiveSet, is_live-clear}
use cfglib.Store.Chains.{Direction, outgoing, incoming}
use cfglib.Store.Graph.{
  Graph, node_bound, edge_bound, retire_edge, remove_edge, contains_node, contains_edge, records,
}
use cfglib.Store.Walk.{retire_all, clear_adjacency, remove_node}
use cfglib.Store.Walk.Steps.{select}
use cfglib.Store.Walk.Member.{member, is_at, member-owned, member-select}
use cfglib.Store.Invariant.{IsStore, endpoints, contains_node-IsStore, contains_edge-IsStore}
use cfglib.Store.Append.{Indexed-frame, contains_node-lt}
use cfglib.Store.Adjacent.{incident, adjacent_edges-IsStore}
use cfglib.Store.Retire.{Retires, Retires-then, remove_edge-Retires, IsCounted-clear}

module _ {ℓ κ} {N : Type ℓ} {E : Type κ} where
  retire_all-Retires :
      (g : Graph N E) (es : List ℕ) → IsStore g → Retires g (retire_all g es) (λ e. member e es)
  unfolding retire_all remove_edge
  retire_all-Retires g [] w = record {
    store = w;
    bound = refl;
    kept = refl;
    edges = λ e. refl;
    nodes = λ v. refl;
  }
  retire_all-Retires g (e ∷ es) w =
      let first = (remove_edge-Retires g e w).0 in
      Retires-then g (retire_edge g e).0 (retire_all (retire_edge g e).0 es) (λ j. e == j)
        (λ j. member j es) first (retire_all-Retires (retire_edge g e).0 es first.store)

  -- Whether an edge of the store has `v` at that end.
  abbrev pub touches : Graph N E → Direction → ℕ → ℕ → Bool
  touches g dir v e = is_at (endpoints dir (records g)) e v

  Retires-same :
      (g g' : Graph N E) (p q : ℕ → Bool)
      → ((e : ℕ) → p e ≡ (q e && contains_edge g e))
      → Retires g g' p
      → Retires g g' q
  Retires-same g g' p q same r = record {
    store = r.store;
    bound = r.bound;
    kept = r.kept;
    edges = λ e. r.edges e ∙ elim (Bool-cases (q e)) [
      | inl h ↦ elim (Bool-cases (contains_edge g e)) [
        | inl k ↦ rw (same e, h, k)
        | inr k ↦ rw (same e, h, k)
      ]
      | inr h ↦ rw (same e, h)
    ];
    nodes = r.nodes;
  }

  pub member-incident :
      (g : Graph N E) (dir : Direction) (v e : ℕ)
      → member e (select (contains_edge g) (incident g dir v))
        ≡ (touches g dir v e && contains_edge g e)
  member-incident g dir v e =
      let ts = endpoints dir (records g) in
      let here = member-owned e 0 v ts in
      let start : 0 + e ≡ e = omega arith in
      rw (member-select (contains_edge g) e (incident g dir v)) (rw (rw start at here))

  -- Clearing a live node's adjacency takes the edges that have it at that end.
  clear_adjacency-Retires :
      (g : Graph N E) (dir : Direction) (v : ℕ)
      → IsStore g
      → contains_node g v ≡ true
      → (g' : Graph N E) × (clear_adjacency g v dir ≡ ok g') × Retires g g' (touches g dir v)
  unfolding clear_adjacency
  clear_adjacency-Retires g dir v w live =
      let es = select (contains_edge g) (incident g dir v) in
      (
        retire_all g es,
        rw (adjacent_edges-IsStore g dir v w (contains_node-lt g v live), live),
        Retires-same g (retire_all g es) (λ e. member e es) (touches g dir v)
            (member-incident g dir v) (retire_all-Retires g es w),
      )

  -- Clearing both directions takes every edge at the node.
  isolated :
      (g : Graph N E) (v : ℕ)
      → IsStore g
      → contains_node g v ≡ true
      → (g₁ g₂ : Graph N E) × (clear_adjacency g v outgoing ≡ ok g₁)
        × (clear_adjacency g₁ v incoming ≡ ok g₂)
        × Retires g g₂ (λ e. touches g outgoing v e || touches g incoming v e)
  isolated g v w live =
      let (g₁, run₁, r₁) = clear_adjacency-Retires g outgoing v w live in
      let (g₂, run₂, r₂) = clear_adjacency-Retires g₁ incoming v r₁.store (r₁.nodes v ∙ live) in
      let r₂' : Retires g₁ g₂ (touches g incoming v) =
        subst (λ rs. Retires g₁ g₂ (λ e. is_at (endpoints incoming rs) e v)) r₁.kept r₂ in
      (
        g₁,
        g₂,
        run₁,
        run₂,
        Retires-then g g₁ g₂ (touches g outgoing v) (touches g incoming v) r₁ r₂',
      )

  -- The node's own bit goes last.
  node_cleared :
      (g : Graph N E) (v : ℕ)
      → IsStore g
      → contains_node g v ≡ true
      → (g' : Graph N E) × (g' ≡ record g {
        live_nodes = (LiveSet.clear g.live_nodes v).0;
        live_node_count = g.live_node_count - 1;
      })
        × IsStore g'
        × (records g' ≡ records g)
        × ((u : ℕ) → contains_node g' u ≡ (if v == u then false else contains_node g u))
        × ((e : ℕ) → contains_edge g' e ≡ contains_edge g e)
  unfolding node_bound edge_bound
  node_cleared g v w live =
      let bit = sym (contains_node-IsStore g v w) ∙ live in
      let g' : Graph N E = record g {
        live_nodes = (LiveSet.clear g.live_nodes v).0;
        live_node_count = g.live_node_count - 1;
      } in
      let w' : IsStore g' = record {
        chained = w.chained;
        indexed = λ dir u. Indexed-frame g g' refl refl refl refl dir u _ (w.indexed dir u);
        nodes = IsCounted-clear g.live_nodes (node_bound g) g.live_node_count v bit w.nodes;
        edges = w.edges;
        unmoved = w.unmoved;
        node_room = w.node_room;
        edge_room = w.edge_room;
      } in
      (
        g',
        refl,
        w',
        refl,
        λ u.
            contains_node-IsStore g' u w'
            ∙ (is_live-clear g.live_nodes w.nodes.packed v u).0
            ∙ ap (λ b. if v == u then false else b) (sym (contains_node-IsStore g u w)),
        λ e. contains_edge-IsStore g' e w' ∙ sym (contains_edge-IsStore g e w),
      )

  remove_node-dead :
      (g : Graph N E) (v : ℕ) → contains_node g v ≡ false → remove_node g v ≡ ok (g, false)
  unfolding remove_node contains_node
  remove_node-dead g v dead = rw dead

  remove_node-live :
      (g g₁ g₂ g₃ : Graph N E) (v : ℕ)
      → contains_node g v ≡ true
      → clear_adjacency g v outgoing ≡ ok g₁
      → clear_adjacency g₁ v incoming ≡ ok g₂
      → g₃ ≡ record g₂ {
        live_nodes = (LiveSet.clear g₂.live_nodes v).0;
        live_node_count = g₂.live_node_count - 1;
      }
      → remove_node g v ≡ ok (g₃, true)
  unfolding remove_node contains_node
  remove_node-live g g₁ g₂ g₃ v live a b c = rw (live, a, b, c)

  -- On a well-formed store remove_node returns, says whether the node had been live, and leaves a
  -- well-formed store with the same records, in which the node is not live, no other node has
  -- changed, and, if the node had been live, exactly the edges at it have been removed as well.
  pub remove_node-IsStore :
      (g : Graph N E) (v : ℕ)
      → IsStore g
      → (g' : Graph N E) × (remove_node g v ≡ ok (g', contains_node g v))
        × IsStore g'
        × (records g' ≡ records g)
        × ((u : ℕ) → contains_node g' u ≡ (if v == u then false else contains_node g u))
        × ((e : ℕ)
            → contains_edge g' e ≡ (
                if contains_node g v && (touches g outgoing v e || touches g incoming v e)
                then false
                else contains_edge g e))
  remove_node-IsStore g v w = elim (Bool-cases (contains_node g v)) [
    | inl live ↦
        let (g₁, g₂, run₁, run₂, r) = isolated g v w live in
        let (g₃, is, w₃, kept, nodes, edges) = node_cleared g₂ v r.store (r.nodes v ∙ live) in
        (
          g₃,
          rw live (remove_node-live g g₁ g₂ g₃ v live run₁ run₂ is),
          w₃,
          kept ∙ r.kept,
          λ u. nodes u ∙ ap (λ b. if v == u then false else b) (r.nodes u),
          λ e. rw live (edges e ∙ r.edges e),
        )
    | inr dead ↦ (
      g,
      rw dead (remove_node-dead g v dead),
      w,
      refl,
      λ u. elim (Bool-cases (v == u)) [
        | inl q ↦ rw q (ap (contains_node g) (sym (==→≡ v u q)) ∙ dead)
        | inr q ↦ rw q
      ],
      λ e. rw dead,
    )
  ]

  cleared-node_bound :
      (g g' : Graph N E) (v : ℕ)
      → g' ≡ record g {
        live_nodes = (LiveSet.clear g.live_nodes v).0;
        live_node_count = g.live_node_count - 1;
      }
      → node_bound g' ≡ node_bound g
  unfolding node_bound
  cleared-node_bound g g' v is =
      ap (λ (h : Graph N E). length h.base_nodes + length h.delta_nodes) is

  -- A removed node keeps its slot.
  pub remove_node-node_bound :
      (g g' : Graph N E) (v : ℕ)
      → IsStore g
      → remove_node g v ≡ ok (g', contains_node g v)
      → node_bound g' ≡ node_bound g
  remove_node-node_bound g g' v w run = elim (Bool-cases (contains_node g v)) [
    | inl live ↦
        let (g₁, g₂, run₁, run₂, r) = isolated g v w live in
        let (g₃, is, _, _, _, _) = node_cleared g₂ v r.store (r.nodes v ∙ live) in
        let same : g' ≡ g₃ = cc (run, remove_node-live g g₁ g₂ g₃ v live run₁ run₂ is) in
        ap node_bound same ∙ cleared-node_bound g₂ g₃ v is ∙ r.bound
    | inr dead ↦ let same : g' ≡ g = cc (run, remove_node-dead g v dead) in ap node_bound same
  ]

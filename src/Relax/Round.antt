-- ===== src/Relax/Round.antt =====
-- One round of the relaxation of crates/cfglib/src/graph/relax.rs on a well-formed store: what its state
-- satisfies, and what falls.
use cfglib.Prelude.{
  In, In-cases, ℕ, suc, ◌+◌, ◌<◌, ◌≡◌, ◌⊎◌, refl, sym, ◌∙◌, ap, subst, inl, inr, List, ◌∷◌, Bool,
  true, false, length, set, get_elem?, ltb, lt→ltb, Option, none, some, ok, arith, Bool-cases, ==→≡,
  length-set, get_elem?_lt, get_elem?-set_self, get_elem?-set_ne, get_elem?-set_cases, ◌==◌, ==→≢,
}
use cfglib.Store.Chains.{Direction}
use cfglib.Store.Graph.{Graph, EdgeRecord, node_bound}
use cfglib.Store.Invariant.{IsStore}
use cfglib.Store.Ends.{LiveEnds}
use cfglib.Store.Neighbors.{At}
use cfglib.Relax.{State, far, is_known, settle, round}
use cfglib.Relax.Pushed.{
  pushed, pushed-kept, pushed-made, pushed-cases, length-pushed, push_candidates-pushed,
}
use cfglib.Relax.Potential.{weight-set}
use cfglib.Relax.Derivation.{IsBounded, Derives, along}
use cfglib.Relax.Edges.{edges_at, adjacent_count, edges_at-run, far-lt}
use cfglib.Relax.Measure.{height, measure}

module _ {ℓ κ ω} {N : Type ℓ} {E : Type κ} {L : Type ω} (g : Graph N E) (w : IsStore g)
    (ends : LiveEnds g) (dir : Direction) (relax : EdgeRecord E → L → Option L) (le : L → L → Bool)
    (good : L → Type 0) (rank : L → ℕ) (bound : ℕ) (law : IsBounded le relax good rank bound)
    (seeds : List (ℕ × L)) where
  -- A candidate that is known, or waits.
  abbrev pub Covered : State L → ℕ → L → Type ω
  Covered s v c =
      ((k : L) × (get_elem? s.labels v ≡ some (some k)) × (le k c ≡ true)) ⊎ In (v, c) s.worklist

  pub record Invariant (s : State L) : Type (κ ⊔ ω) where
    pub size : length s.labels ≡ node_bound g
    pub labelled :
        (v : ℕ) (l : L)
        → get_elem? s.labels v ≡ some (some l)
        → Derives g dir relax seeds v l × good l
    pub waiting :
        (v : ℕ) (l : L)
        → In (v, l) s.worklist
        → Derives g dir relax seeds v l × good l × (v < node_bound g)
    pub seeded : (v : ℕ) (l : L) → In (v, l) seeds → Covered s v l
    pub relaxed :
        (v : ℕ) (l : L) (r : EdgeRecord E) (c : L)
        → get_elem? s.labels v ≡ some (some l)
        → At g dir v r
        → relax r l ≡ some c
        → Covered s (far dir r) c

  module _ (s : State L) (v : ℕ) (c : L) (rest : List (ℕ × L)) (i : Invariant s)
      (top : s.worklist ≡ (v, c) ∷ rest) where
    abbrev popped : State L
    popped = record s { worklist = rest }

    on_top : Derives g dir relax seeds v c × good c × (v < node_bound g)
    on_top = i.waiting v c (0, ap (λ ws. get_elem? ws 0) top)

    older : (u : ℕ) (d : L) → In (u, d) rest → In (u, d) s.worklist
    older u d (k, at) = (suc k, ap (λ ws. get_elem? ws (suc k)) top ∙ at)

    -- A candidate that is already known is dropped.
    known-Covered :
        (k : L)
        → get_elem? s.labels v ≡ some (some k)
        → le k c ≡ true
        → (u : ℕ) (d : L) → Covered s u d
        → Covered popped u d
    known-Covered k at less u d (inl label) = inl label
    known-Covered k at less u d (inr entry) =
        elim (In-cases (u, d) (v, c) rest (subst (In (u, d)) top entry)) [
          | inr later ↦ inr later
          | inl same ↦
              let node : v ≡ u = ap (λ (p : ℕ × L). p.0) same in
              let label : c ≡ d = ap (λ (p : ℕ × L). p.1) same in
              inl
                (k, ap (get_elem? s.labels) (sym node) ∙ at, subst (λ d. le k d ≡ true) label less)
        ]

    known-Invariant :
        (k : L) → get_elem? s.labels v ≡ some (some k) → le k c ≡ true → Invariant popped
    known-Invariant k at less = record {
      size = i.size;
      labelled = i.labelled;
      waiting = λ u d h. i.waiting u d (older u d h);
      seeded = λ u d h. known-Covered k at less u d (i.seeded u d h);
      relaxed = λ u l r d at' edge made.
          known-Covered k at less (far dir r) d (i.relaxed u l r d at' edge made);
    }

    abbrev found : List (EdgeRecord E)
    found = edges_at g dir v

    -- The state after `v` got the label `c`.
    abbrev settled : State L
    settled = record { labels = set s.labels v (some c); worklist = pushed relax dir c found rest }

    here : get_elem? settled.labels v ≡ some (some c)
    here = get_elem?-set_self s.labels v (some c) (omega (arith, i.size, on_top.2))

    module _ (old : Option L) (at : get_elem? s.labels v ≡ some old)
        (fresh : is_known le old c ≡ false) where
      -- What is known stays known, by the new label if it was the node's.
      improved :
          (u : ℕ) (k d : L)
          → get_elem? s.labels u ≡ some (some k)
          → le k d ≡ true
          → Covered settled u d
      unfolding is_known
      improved u k d held less = elim (Bool-cases (v == u)) [
        | inr other ↦ inl (k, get_elem?-set_ne s.labels v u (some c) (==→≢ v u other) ∙ held, less)
        | inl same ↦
            let node = ==→≡ v u same in
            let was : old ≡ some k = cc (at, held, ap (get_elem? s.labels) node) in
            let more = law.le_total k c (ap (λ o. is_known le o c) (sym was) ∙ fresh) in
            inl (c, ap (get_elem? settled.labels) (sym node) ∙ here, law.le_trans c k d more less)
      ]

      settled-Covered : (u : ℕ) (d : L) → Covered s u d → Covered settled u d
      settled-Covered u d (inl (k, held, less)) = improved u k d held less
      settled-Covered u d (inr entry) =
          elim (In-cases (u, d) (v, c) rest (subst (In (u, d)) top entry)) [
            | inr later ↦ inr (pushed-kept relax dir c found rest (u, d) later)
            | inl same ↦
                let node : v ≡ u = ap (λ (p : ℕ × L). p.0) same in
                let label : c ≡ d = ap (λ (p : ℕ × L). p.1) same in
                inl (
                  c,
                  ap (get_elem? settled.labels) (sym node) ∙ here,
                  subst (λ d. le c d ≡ true) label (law.le_refl c),
                )
          ]

      settled-waiting :
          (u : ℕ) (d : L)
          → In (u, d) settled.worklist
          → Derives g dir relax seeds u d × good d × (u < node_bound g)
      settled-waiting u d h = elim (pushed-cases relax dir c found rest (u, d) h) [
        | inl later ↦ i.waiting u d (older u d later)
        | inr (r, in_, (made, node)) ↦
            let (derived, fine, inside) = on_top in
            let (es, _, _, reads) = edges_at-run g w ends dir v inside in
            let edge_at = (reads r).0 in_ in
            (
              subst (λ u. Derives g dir relax seeds u d) node (along v c r d derived edge_at made),
              law.keeps r c d fine made,
              subst (λ u. u < node_bound g) node (far-lt g w ends dir v r edge_at),
            )
      ]

      settled-Invariant : Invariant settled
      settled-Invariant = record {
        size = length-set s.labels v (some c) ∙ i.size;
        labelled = λ u l held. elim (get_elem?-set_cases s.labels v u (some c) held) [
          | inl (node, label) ↦
              let same : c ≡ l = cc (label) in
              let (derived, fine, _) = on_top in
              (
                subst (λ u. Derives g dir relax seeds u l) node
                    (subst (Derives g dir relax seeds v) same derived),
                subst good same fine,
              )
          | inr (_, before) ↦ i.labelled u l before
        ];
        waiting = settled-waiting;
        seeded = λ u d h. settled-Covered u d (i.seeded u d h);
        relaxed = λ u l r d held edge_at made.
            elim (get_elem?-set_cases s.labels v u (some c) held) [
              | inr (_, before) ↦
                  settled-Covered (far dir r) d (i.relaxed u l r d before edge_at made)
              | inl (node, label) ↦
                  let same : c ≡ l = cc (label) in
                  let (es, _, _, reads) = edges_at-run g w ends dir v on_top.2 in
                  let there = (reads r).1 (subst (λ u. At g dir u r) (sym node) edge_at) in
                  inr (pushed-made relax dir c found rest r d there (ap (relax r) same ∙ made))
            ];
      }

      lower : rank c < height rank bound old
      unfolding is_known
      lower = by_old old fresh
        where
          by_old : (o : Option L) → is_known le o c ≡ false → rank c < height rank bound o
          by_old none fresh = law.below c on_top.1
          by_old (some k) fresh = law.falls k c fresh

      settled-measure : measure g dir rank bound settled < measure g dir rank bound s
      unfolding measure adjacent_count
      settled-measure =
          let falls =
            weight-set (adjacent_count g dir) (height rank bound) 0 v s.labels old (some c) at
              lower in
          let start : 0 + v ≡ v = omega arith in
          let size = length-pushed relax dir c found rest in
          omega (arith, rw start at falls, size, ap length top)

      settle-run : settle relax g dir v c popped ≡ ok settled
      unfolding settle
      settle-run =
          let (es, walked, run, _) = edges_at-run g w ends dir v on_top.2 in
          rw (walked, push_candidates-pushed relax g dir c es found rest run) refl

    -- One round keeps the invariant and makes progress.
    pub round-Invariant :
        (s' : State L) × (round relax le g dir v c popped ≡ ok s')
        × Invariant s'
        × (measure g dir rank bound s' < measure g dir rank bound s)
    unfolding round measure is_known
    round-Invariant =
        let inside = lt→ltb v (length s.labels) (omega (arith, i.size, on_top.2)) in
        let (o, at) = get_elem?_lt s.labels v (omega (arith, i.size, on_top.2)) in
        by_known o at inside
      where
        by_known :
            (o : Option L)
            → get_elem? s.labels v ≡ some o
            → ltb v (length s.labels) ≡ true
            → (s' : State L) × (round relax le g dir v c popped ≡ ok s')
              × Invariant s'
              × (measure g dir rank bound s' < measure g dir rank bound s)
        by_known none at inside = (
          settled,
          rw (inside, at) (settle-run none at refl),
          settled-Invariant none at refl,
          settled-measure none at refl,
        )
        by_known (some k) at inside = elim (Bool-cases (le k c)) [
          | inl less ↦ (
            popped,
            rw (inside, at, less) refl,
            known-Invariant k at less,
            omega (arith, ap length top),
          )
          | inr more ↦ (
            settled,
            rw (inside, at, more) (settle-run (some k) at more),
            settled-Invariant (some k) at more,
            settled-measure (some k) at more,
          )
        ]

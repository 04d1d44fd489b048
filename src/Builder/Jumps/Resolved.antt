-- ===== src/Builder/Jumps/Resolved.antt =====
-- `resolve_jump_edges` of crates/cfglib/src/builder.rs: what it does to a graph, and what it does the
-- second time.
use cfglib.Prelude.{
  ℕ, ◌+◌, ◌<◌, ◌≤◌, ◌≡◌, ◌↔◌, inl, inr, refl, sym, ◌∙◌, ap, subst, List, [], ◌∷◌, Option-cases,
  none, some, Result, ok, panic, out_of_fuel, ◌>>=◌, length, get_elem?, In, In-later, arith,
}
use cfglib.Store.Chains.{max_slots}
use cfglib.Store.Graph.{node_bound, edge_bound, contains_node}
use cfglib.Store.Invariant.{IsStore}
use cfglib.Store.Append.{contains_node-lt}
use cfglib.Store.Ends.{LiveEnds}
use cfglib.Store.Contents.{payloads_size}
use cfglib.Store.Found.{node-found}
use cfglib.Store.Listing.{node_ids-select, node_ids-same, select_range-below}
use cfglib.Cfg
use cfglib.Cfg.{Cfg}
use cfglib.Cfg.Edge.{EdgeKind}
use cfglib.Builder.Jumps.{
  JumpTargets, JumpResolution, Jump, lookup, collect_labels, collect_jumps, resolve_jump_edges,
}
use cfglib.Builder.Jumps.Wiring.{Wires, Placed, wire_pending-Wires, wire_pending-again}
use cfglib.Builder.Jumps.Spoken.{Leads, Jumps, Labelled-Leads, Ends-Jumps}
use cfglib.Builder.Jumps.Labels.{IsLast, IsTable, collect_labels-IsTable}
use cfglib.Builder.Jumps.Collected.{IsCollected, collect_jumps-IsCollected}

>>=-same {κ ω} :
    {A : Type κ} {B : Type ω} (r : Result A) {f g : A → Result B}
    → ((a : A) → f a ≡ g a)
    → (r >>= f) ≡ (r >>= g)
>>=-same (ok a) same = same a
>>=-same panic same = refl
>>=-same out_of_fuel same = refl

module _ {ℓ τ κ ω} {I : Type ℓ} {T : Type τ} {W : Type ω} {E : Type κ}
    (targets : JumpTargets I T) where
  -- A live block ends in the jump, and of the live blocks that its label leads the target is the last.
  abbrev pub Lands : Cfg W I E → Jump → Type (ℓ ⊔ τ)
  Lands cfg jump =
      (token : T) × Jumps targets cfg jump.source jump.kind token
      × Leads targets cfg token jump.target
      × ((v : ℕ) → Leads targets cfg token v → v ≤ jump.target)

  -- A live block ends in a jump to this token, which leads no live block.
  abbrev pub Strays : Cfg W I E → ℕ × T → Type (ℓ ⊔ τ)
  Strays cfg (v, token) =
      (kind : EdgeKind) × Jumps targets cfg v kind token × ((u : ℕ) → ¬ (Leads targets cfg token u))

  lookup-last :
      (cfg : Cfg W I E) (labels : List (T × ℕ)) (token : T) (u : ℕ)
      → IsTable targets cfg (contains_node cfg.graph) labels (node_bound cfg.graph)
      → (lookup targets token labels ≡ some u)
        ↔ (Leads targets cfg token u × ((v : ℕ) → Leads targets cfg token v → v ≤ u))
  lookup-last cfg labels token u table = (
    λ h.
        let (_, here, last) =
          subst (IsLast targets cfg (contains_node cfg.graph) token (node_bound cfg.graph)) h
            (table token) in
        (
          (Labelled-Leads targets cfg token u).0 here,
          λ v leads.
              last v (contains_node-lt cfg.graph v leads.0)
                ((Labelled-Leads targets cfg token v).1 leads),
        ),
    λ (here, last). elim (Option-cases (lookup targets token labels)) [
      | inl none_ ↦ absurd (
          subst (IsLast targets cfg (contains_node cfg.graph) token (node_bound cfg.graph)) none_
            (table token) u (contains_node-lt cfg.graph u here.0)
            ((Labelled-Leads targets cfg token u).1 here))
      | inr (w, some_) ↦
          let (_, there, greatest) =
            subst (IsLast targets cfg (contains_node cfg.graph) token (node_bound cfg.graph)) some_
              (table token) in
          let same : w ≡ u = omega (
            arith,
            last w ((Labelled-Leads targets cfg token w).0 there),
            greatest u (contains_node-lt cfg.graph u here.0)
                ((Labelled-Leads targets cfg token u).1 here),
          ) in
          some_ ∙ ap some same
    ],
  )

  lookup-none :
      (cfg : Cfg W I E) (labels : List (T × ℕ)) (token : T)
      → IsTable targets cfg (contains_node cfg.graph) labels (node_bound cfg.graph)
      → (lookup targets token labels ≡ none) ↔ ((u : ℕ) → ¬ (Leads targets cfg token u))
  lookup-none cfg labels token table = (
    λ h u leads.
        subst (IsLast targets cfg (contains_node cfg.graph) token (node_bound cfg.graph)) h
          (table token) u (contains_node-lt cfg.graph u leads.0)
          ((Labelled-Leads targets cfg token u).1 leads),
    λ unlabelled. elim (Option-cases (lookup targets token labels)) [
      | inl none_ ↦ none_
      | inr (w, some_) ↦ absurd (
          unlabelled w (
            (Labelled-Leads targets cfg token w).0
              (subst (IsLast targets cfg (contains_node cfg.graph) token (node_bound cfg.graph))
                some_ (table token)).1))
    ],
  )

  -- The two loops that read the graph see the same on a graph with the same blocks.
  collect_labels-same :
      (cfg cfg' : Cfg W I E) (ids : List ℕ) (labels : List (T × ℕ))
      → ((v : ℕ) → In v ids → Cfg.block cfg' v ≡ Cfg.block cfg v)
      → collect_labels targets cfg' ids labels ≡ collect_labels targets cfg ids labels
  unfolding collect_labels
  collect_labels-same cfg cfg' [] labels same = refl
  collect_labels-same cfg cfg' (id ∷ ids) labels same = rw (same id (0, refl)) (
      >>=-same (Cfg.block cfg id)
        (λ b. collect_labels-same cfg cfg' ids _ (λ v h. same v (In-later v id ids h))))

  collect_jumps-same :
      (cfg cfg' : Cfg W I E) (labels : List (T × ℕ)) (ids : List ℕ)
      → ((v : ℕ) → In v ids → Cfg.block cfg' v ≡ Cfg.block cfg v)
      → collect_jumps targets cfg' labels ids ≡ collect_jumps targets cfg labels ids
  unfolding collect_jumps
  collect_jumps-same cfg cfg' labels [] same = refl
  collect_jumps-same cfg cfg' labels (id ∷ ids) same =
      rw
        (
          same id (0, refl),
          collect_jumps-same cfg cfg' labels ids (λ v h. same v (In-later v id ids h)),
        )
        refl

  block-same :
      (default : E) (cfg cfg' : Cfg W I E) (jumps : List Jump) (n v : ℕ)
      → Wires default cfg cfg' jumps n
      → v < node_bound cfg.graph
      → Cfg.block cfg' v ≡ Cfg.block cfg v
  unfolding Cfg.block
  block-same default cfg cfg' jumps n v a h =
      let size = sym (payloads_size cfg'.graph) ∙ ap length a.code ∙ payloads_size cfg.graph in
      let (b, found, at) = node-found cfg.graph v h in
      let (b', found', at') = node-found cfg'.graph v (omega (arith, size, h)) in
      let same : b' ≡ b = cc (at, at', ap (λ ps. get_elem? ps v) a.code) in
      found' ∙ ap ok same ∙ sym found

  -- What a call returns, and that another changes nothing.
  pub record Resolves (default : E) (cfg cfg' : Cfg W I E) (resolution : JumpResolution T)
      : Type (ℓ ⊔ τ ⊔ κ ⊔ ω) where
    pub jumps : List Jump
    pub wires : Wires default cfg cfg' jumps resolution.resolved
    pub landed : (jump : Jump) → In jump jumps ↔ Lands cfg jump
    pub strayed : (at : ℕ × T) → In at resolution.unresolved ↔ Strays cfg at
    pub again :
        resolve_jump_edges targets default cfg'
        ≡ ok (cfg', record { resolved = 0; unresolved = resolution.unresolved })

  In-Lands :
      (cfg : Cfg W I E) (labels : List (T × ℕ)) (pending : List Jump) (unresolved : List (ℕ × T))
      → IsTable targets cfg (contains_node cfg.graph) labels (node_bound cfg.graph)
      → IsCollected targets cfg
          (contains_node cfg.graph)
          labels
          0
          (node_bound cfg.graph)
          pending
          unresolved
      → ((jump : Jump) → In jump pending ↔ Lands cfg jump)
        × ((at : ℕ × T) → In at unresolved ↔ Strays cfg at)
  In-Lands cfg labels pending unresolved table c = (
    λ jump. (
      λ h.
          let (_, token, ends, to) = c.waits jump h in
          let (there, greatest) = (lookup-last cfg labels token jump.target table).0 to in
          (token, (Ends-Jumps targets cfg jump.source jump.kind token).0 ends, there, greatest),
      λ (token, ends, there, greatest).
          c.waiting jump (omega (arith, contains_node-lt cfg.graph jump.source ends.0)) (
            omega arith,
            token,
            (Ends-Jumps targets cfg jump.source jump.kind token).1 ends,
            (lookup-last cfg labels token jump.target table).1 (there, greatest),
          ),
    ),
    λ at. (
      λ h.
          let (_, kind, ends, to) = c.misses at h in
          (
            kind,
            (Ends-Jumps targets cfg at.0 kind at.1).0 ends,
            (lookup-none cfg labels at.1 table).0 to,
          ),
      λ (kind, ends, strays). c.missing at (omega (arith, contains_node-lt cfg.graph at.0 ends.0)) (
        omega arith,
        kind,
        (Ends-Jumps targets cfg at.0 kind at.1).1 ends,
        (lookup-none cfg labels at.1 table).1 strays,
      ),
    ),
  )

  -- The loops that read the graph, on the listing of its blocks.
  reads :
      (cfg : Cfg W I E)
      → (labels : List (T × ℕ)) × (pending : List Jump) × (unresolved : List (ℕ × T))
        × (collect_labels targets cfg (Cfg.block_ids cfg) [] ≡ ok labels)
        × (collect_jumps targets cfg labels (Cfg.block_ids cfg) ≡ ok (pending, unresolved))
        × (length pending ≤ node_bound cfg.graph)
        × ((jump : Jump) → In jump pending ↔ Lands cfg jump)
        × ((at : ℕ × T) → In at unresolved ↔ Strays cfg at)
  unfolding Cfg.block_ids lookup
  reads cfg =
      let p = contains_node cfg.graph in
      let bound = node_bound cfg.graph in
      let whole : 0 + bound ≡ bound = omega arith in
      let (labels, run, table) =
        collect_labels-IsTable targets cfg p 0 bound [] (omega arith)
          (λ token u lt. absurd (omega (arith, lt))) in
      let (pending, unresolved, run', c) =
        collect_jumps-IsCollected targets cfg p labels 0 bound (omega arith) in
      let (landed, strayed) =
        In-Lands cfg labels pending unresolved (subst (IsTable targets cfg p labels) whole table)
          c in
      let listed = node_ids-select cfg.graph in
      (labels, pending, unresolved, rw listed run, rw listed run', c.few, landed, strayed)

  block_ids-same :
      (default : E) (cfg cfg' : Cfg W I E) (jumps : List Jump) (n : ℕ)
      → Wires default cfg cfg' jumps n
      → (Cfg.block_ids cfg' ≡ Cfg.block_ids cfg)
        × ((v : ℕ) → In v (Cfg.block_ids cfg) → Cfg.block cfg' v ≡ Cfg.block cfg v)
  unfolding Cfg.block_ids
  block_ids-same default cfg cfg' jumps n a =
      let size = sym (payloads_size cfg'.graph) ∙ ap length a.code ∙ payloads_size cfg.graph in
      (
        node_ids-same cfg.graph cfg'.graph size a.nodes,
        λ v (k, at).
            let lt =
              select_range-below (contains_node cfg.graph) 0 (node_bound cfg.graph) k v
                (rw (node_ids-select cfg.graph) at at) in
            block-same default cfg cfg' jumps n v a (omega (arith, lt)),
      )

  -- On a well-formed graph with the ends of all live edges live, and with an edge slot left for
  -- each block, resolve_jump_edges returns. The graph keeps its blocks, its entry and its edges,
  -- stays well formed with the ends of live edges live, and gains as many edges as are reported. A
  -- live block jumps to a token when its last instruction has the effect of a jump, whose edge is
  -- of the kind jump, or of a conditional jump, whose edge is of the kind conditional_true, and
  -- the token as its target; a token leads a live block whose first instruction is a label that
  -- carries it. Then each live block that jumps to a token that leads a live block has a live edge
  -- of its kind to the last block that the token leads, and each live edge is an old one or such a
  -- jump's. Exactly the jumps to tokens that lead no live block are reported as unresolved. A
  -- second call returns the same graph and the same unresolved jumps, and reports no edge.
  pub resolve_jump_edges-Resolves :
      (default : E) (cfg : Cfg W I E)
      → IsStore cfg.graph
      → LiveEnds cfg.graph
      → edge_bound cfg.graph + node_bound cfg.graph ≤ max_slots
      → (cfg' : Cfg W I E) × (resolution : JumpResolution T) × (resolve_jump_edges targets default
            cfg
          ≡ ok (cfg', resolution))
        × Resolves default cfg cfg' resolution
  unfolding resolve_jump_edges
  resolve_jump_edges-Resolves default cfg w ends room =
      let (labels, pending, unresolved, run₁, run₂, few, landed, strayed) = reads cfg in
      let placed : Placed cfg pending =
        λ jump h. let (_, from, to, _) = (landed jump).0 h in (from.0, to.0) in
      let (cfg', n, run₃, a) =
        wire_pending-Wires default cfg pending 0 w ends placed (omega (arith, room, few)) in
      let count : n ≡ 0 + n = omega arith in
      let (ids, blocks) = block_ids-same default cfg cfg' pending n a in
      let run₁' = collect_labels-same cfg cfg' (Cfg.block_ids cfg) [] blocks ∙ run₁ in
      let run₂' = collect_jumps-same cfg cfg' labels (Cfg.block_ids cfg) blocks ∙ run₂ in
      let run₃' =
        wire_pending-again default cfg' pending 0 a.store
          (λ jump h.
            let (from, to) = placed jump h in
            (a.nodes jump.source ∙ from, a.nodes jump.target ∙ to))
          a.wired in
      (
        cfg',
        record { resolved = 0 + n; unresolved = unresolved },
        rw (run₁, run₂, run₃) refl,
        record {
          jumps = pending;
          wires = subst (Wires default cfg cfg' pending) count a;
          landed = landed;
          strayed = strayed;
          again = rw (ids, run₁', run₂', run₃') refl;
        },
      )

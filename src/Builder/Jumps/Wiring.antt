-- ===== src/Builder/Jumps/Wiring.antt =====
-- The last loop of `resolve_jump_edges`, crates/cfglib/src/builder.rs: what it adds to a graph.
use cfglib.Prelude.{
  ℕ, ◌+◌, ◌≤◌, ◌≡◌, ◌⊎◌, inl, inr, refl, sym, ◌∙◌, ap, subst, List, [], ◌∷◌, ◌++◌, true, ◌==◌, ==→≡,
  ≡→==, Bool-cases, get_elem?, lt_of_get_elem?, length, none, some, ◌<◌, In-later,
  get_elem?-append_left, get_elem?-append_last, length-append, ok, In, In-cases, arith,
}
use cfglib.Store.Chains.{max_slots}
use cfglib.Store.Graph.{EdgeRecord, edge_bound, records, contains_node, contains_edge}
use cfglib.Store.Invariant.{IsStore}
use cfglib.Store.Append.{add_edge-IsStore}
use cfglib.Store.Ends.{LiveEnds, add_edge-LiveEnds, records_size}
use cfglib.Store.Contents.{payloads, payloads-add_edge}
use cfglib.Store.Found.{record-found}
use cfglib.Cfg
use cfglib.Cfg.{Cfg}
use cfglib.Cfg.Edge
use cfglib.Cfg.Edge.{EdgeKind, same_kind}
use cfglib.Builder.Jumps.{Jump, wire_pending}
use cfglib.Builder.Jumps.Wired.{edge_for, Wired, is_wired-Wired}

module _ {ℓ κ ω} {W : Type ω} {I : Type ℓ} {E : Type κ} where
  -- `cfg'` is `cfg` with `n` edges more, and has an edge for each of the jumps.
  pub record Wires (default : E) (cfg cfg' : Cfg W I E) (jumps : List Jump) (n : ℕ)
      : Type (ℓ ⊔ κ ⊔ ω) where
    pub store : IsStore cfg'.graph
    pub ends : LiveEnds cfg'.graph
    pub nodes : (v : ℕ) → contains_node cfg'.graph v ≡ contains_node cfg.graph v
    pub code : payloads cfg'.graph ≡ payloads cfg.graph
    pub entry : cfg'.entry ≡ cfg.entry
    pub kept :
        (e : ℕ) (r : EdgeRecord (Edge.Edge W E))
        → get_elem? (records cfg.graph) e ≡ some r
        → get_elem? (records cfg'.graph) e ≡ some r
    pub live : (e : ℕ) → contains_edge cfg.graph e ≡ true → contains_edge cfg'.graph e ≡ true
    pub wired : (jump : Jump) → In jump jumps → Wired cfg' jump
    pub only :
        (e : ℕ) (r : EdgeRecord (Edge.Edge W E))
        → get_elem? (records cfg'.graph) e ≡ some r
        → contains_edge cfg'.graph e ≡ true
        → ((get_elem? (records cfg.graph) e ≡ some r) × (contains_edge cfg.graph e ≡ true))
          ⊎ ((jump : Jump) × In jump jumps × (edge_for default jump ≡ r))
    pub count : edge_bound cfg'.graph ≡ edge_bound cfg.graph + n

  Wires-refl :
      (default : E) (cfg : Cfg W I E) (jumps : List Jump)
      → IsStore cfg.graph
      → LiveEnds cfg.graph
      → ((jump : Jump) → In jump jumps → Wired cfg jump)
      → Wires default cfg cfg jumps 0
  Wires-refl default cfg jumps w ends wired = record {
    store = w;
    ends = ends;
    nodes = λ v. refl;
    code = refl;
    entry = refl;
    kept = λ e r at. at;
    live = λ e h. h;
    wired = wired;
    only = λ e r at h. inl (at, h);
    count = omega arith;
  }

  Wires-then :
      (default : E) (cfg₁ cfg₂ cfg₃ : Cfg W I E) (jump : Jump) (jumps : List Jump) (n m : ℕ)
      → Wires default cfg₁ cfg₂ (jump ∷ []) n
      → Wires default cfg₂ cfg₃ jumps m
      → Wires default cfg₁ cfg₃ (jump ∷ jumps) (n + m)
  Wires-then default cfg₁ cfg₂ cfg₃ jump jumps n m a b = record {
    store = b.store;
    ends = b.ends;
    nodes = λ v. b.nodes v ∙ a.nodes v;
    code = b.code ∙ a.code;
    entry = b.entry ∙ a.entry;
    kept = λ e r at. b.kept e r (a.kept e r at);
    live = λ e h. b.live e (a.live e h);
    wired = λ j h. elim (In-cases j jump jumps h) [
      | inl same ↦
          let (e, r, at, alive, serves) = a.wired jump (0, refl) in
          subst (Wired cfg₃) same (e, r, b.kept e r at, b.live e alive, serves)
      | inr later ↦ b.wired j later
    ];
    only = λ e r at h. elim (b.only e r at h) [
      | inr (j, in_, for_) ↦ inr (j, In-later j jump jumps in_, for_)
      | inl (at₂, h₂) ↦ elim (a.only e r at₂ h₂) [
        | inl old ↦ inl old
        | inr (j, in_, for_) ↦ elim (In-cases j jump [] in_) [
          | inl same ↦ inr (j, (0, ap some same), for_)
          | inr (k, none_) ↦ absurd (cc (none_))
        ]
      ]
    ];
    count = omega (arith, a.count, b.count);
  }

  -- One edge that is added.
  added-Wires :
      (default : E) (cfg : Cfg W I E) (jump : Jump)
      → IsStore cfg.graph
      → LiveEnds cfg.graph
      → contains_node cfg.graph jump.source ≡ true
      → contains_node cfg.graph jump.target ≡ true
      → edge_bound cfg.graph < max_slots
      → (cfg' : Cfg W I E) × (Cfg.add_edge_with_payload cfg jump.source jump.target jump.kind
            default
          ≡ ok (cfg', edge_bound cfg.graph))
        × Wires default cfg cfg' (jump ∷ []) 1
  unfolding Cfg.add_edge_with_payload
  added-Wires default cfg jump w ends ls lt room =
      let g = cfg.graph in
      let edge : Edge.Edge W E = record { kind = jump.kind; weight = none; payload = default } in
      let new : EdgeRecord (Edge.Edge W E) = edge_for default jump in
      let (g', run, store, kept, edges, nodes) =
        add_edge-IsStore g jump.source jump.target edge w ls lt room in
      let (g₂, run₂, ends₂) = add_edge-LiveEnds g jump.source jump.target edge w ends ls lt room in
      let same : g₂ ≡ g' = cc (run, run₂) in
      let cfg' : Cfg W I E = record cfg { graph = g' } in
      let last : get_elem? (records g') (edge_bound g) ≡ some new =
        ap (λ rs. get_elem? rs (edge_bound g)) kept
        ∙ ap (get_elem? (records g ++ new ∷ [])) (sym (records_size g))
        ∙ get_elem?-append_last (records g) new in
      (
        cfg',
        rw run,
        record {
          store = store;
          ends = subst LiveEnds same ends₂;
          nodes = nodes;
          code = payloads-add_edge g g' jump.source jump.target (edge_bound g) edge run;
          entry = refl;
          kept = λ e r at.
              ap (λ rs. get_elem? rs e) kept
              ∙ get_elem?-append_left (records g) (new ∷ []) e (lt_of_get_elem? (records g) e at)
              ∙ at;
          live = λ e h.
              edges e
              ∙ elim (Bool-cases (e == edge_bound g)) [ inl end_ ↦ rw end_ | inr old ↦ rw old h ];
          wired = λ j h. elim (In-cases j jump [] h) [
            | inl q ↦ subst (Wired cfg') q (
              edge_bound g,
              new,
              last,
              edges (edge_bound g) ∙ rw (≡→== (edge_bound g) (edge_bound g) refl) refl,
              (refl, refl, refl),
            )
            | inr (k, none_) ↦ absurd (cc (none_))
          ];
          only = λ e r at h. elim (Bool-cases (e == edge_bound g)) [
            | inl end_ ↦ inr (
              jump,
              (0, refl),
              cc (last, at, ap (get_elem? (records g')) (==→≡ e (edge_bound g) end_)),
            )
            | inr old ↦
                let before : contains_edge g e ≡ true = rw old at (sym (edges e) ∙ h) in
                let (r', _, at') = record-found g e before in
                let again =
                  ap (λ rs. get_elem? rs e) kept
                  ∙ get_elem?-append_left (records g) (new ∷ []) e
                      (lt_of_get_elem? (records g) e at')
                  ∙ at' in
                inl (cc (at, at', again), before)
          ];
          count = omega (
            arith,
            records_size g',
            ap length kept,
            records_size g,
            length-append (records g) (new ∷ []),
          );
        },
      )

  -- The blocks that a jump names are live.
  abbrev pub Placed : Cfg W I E → List Jump → Type 0
  Placed cfg jumps =
      (jump : Jump)
      → In jump jumps
      → (contains_node cfg.graph jump.source ≡ true) × (contains_node cfg.graph jump.target ≡ true)

  pub wire_pending-Wires :
      (default : E) (cfg : Cfg W I E) (jumps : List Jump) (resolved : ℕ)
      → IsStore cfg.graph
      → LiveEnds cfg.graph
      → Placed cfg jumps
      → edge_bound cfg.graph + length jumps ≤ max_slots
      → (cfg' : Cfg W I E) × (n : ℕ) × (wire_pending default cfg jumps resolved
          ≡ ok (cfg', resolved + n))
        × Wires default cfg cfg' jumps n
  unfolding wire_pending
  wire_pending-Wires default cfg [] resolved w ends placed room =
      let same : resolved ≡ resolved + 0 = omega arith in
      (
        cfg,
        0,
        ap (λ m. ok (cfg, m)) same,
        Wires-refl default cfg [] w ends (λ j h. absurd (cc (h.1))),
      )
  wire_pending-Wires default cfg (jump ∷ jumps) resolved w ends placed room =
      let (ls, lt) = placed jump (0, refl) in
      let (es, b, walked, told, wired) = is_wired-Wired cfg jump w ls in
      elim (Bool-cases b) [
        | inl yes_ ↦
            let (cfg', n, run, a) =
              wire_pending-Wires default cfg jumps resolved w ends
                (λ j h. placed j (In-later j jump jumps h)) (omega (arith, room)) in
            let first = Wires-refl default cfg (jump ∷ []) w ends (λ j h.
              elim (In-cases j jump [] h) [
                | inl q ↦ subst (Wired cfg) q (wired.0 yes_)
                | inr (k, none_) ↦ absurd (cc (none_))
              ]) in
            let sum : resolved + n ≡ resolved + (0 + n) = omega arith in
            (
              cfg',
              0 + n,
              rw (walked, told, yes_) (run ∙ ap (λ m. ok (cfg', m)) sum),
              Wires-then default cfg cfg cfg' jump jumps 0 n first a,
            )
        | inr no_ ↦
            let (cfg₁, run₁, first) =
              added-Wires default cfg jump w ends ls lt (omega (arith, room)) in
            let (cfg', n, run, a) =
              wire_pending-Wires default cfg₁ jumps (resolved + 1) first.store first.ends
                (λ j h.
                  let (ls', lt') = placed j (In-later j jump jumps h) in
                  (first.nodes j.source ∙ ls', first.nodes j.target ∙ lt'))
                (omega (arith, room, first.count)) in
            let sum : (resolved + 1) + n ≡ resolved + (1 + n) = omega arith in
            (
              cfg',
              1 + n,
              rw (walked, told, no_, run₁) (run ∙ ap (λ m. ok (cfg', m)) sum),
              Wires-then default cfg cfg₁ cfg' jump jumps 1 n first a,
            )
      ]

  -- Where every jump has its edge, nothing is added.
  pub wire_pending-again :
      (default : E) (cfg : Cfg W I E) (jumps : List Jump) (resolved : ℕ)
      → IsStore cfg.graph
      → Placed cfg jumps
      → ((jump : Jump) → In jump jumps → Wired cfg jump)
      → wire_pending default cfg jumps resolved ≡ ok (cfg, resolved)
  unfolding wire_pending
  wire_pending-again default cfg [] resolved w placed wired = refl
  wire_pending-again default cfg (jump ∷ jumps) resolved w placed wired =
      let (es, b, walked, told, wired?) = is_wired-Wired cfg jump w (placed jump (0, refl)).0 in
      let yes_ = wired?.1 (wired jump (0, refl)) in
      rw (walked, told, yes_)
        (wire_pending-again default cfg jumps resolved w (λ j h. placed j (In-later j jump jumps h))
          (λ j h. wired j (In-later j jump jumps h)))

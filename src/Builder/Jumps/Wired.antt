-- ===== src/Builder/Jumps/Wired.antt =====
-- When `resolve_jump_edges` of crates/cfglib/src/builder.rs finds that a jump has its edge already.
use cfglib.Prelude.{
  ℕ, ◌≡◌, ◌↔◌, inl, inr, refl, sym, ◌∙◌, ap, List, [], ◌∷◌, Bool, true, false, ◌&&◌, ◌==◌, ==→≡,
  ≡→==, Bool-cases, get_elem?, none, some, ok, arith,
}
use cfglib.Store.Chains.{outgoing}
use cfglib.Store.Graph.{EdgeRecord, records, contains_node, contains_edge}
use cfglib.Store.Walk
use cfglib.Store.Walk.Steps.{select}
use cfglib.Store.Walk.Member.{member}
use cfglib.Store.Invariant.{IsStore}
use cfglib.Store.Adjacent.{incident, adjacent_edges-IsStore}
use cfglib.Store.Append.{contains_node-lt, edge_record}
use cfglib.Store.Isolate.{member-incident}
use cfglib.Store.Ends.{touches-endpoint}
use cfglib.Store.Neighbors.{Found, walked-Found}
use cfglib.Cfg
use cfglib.Cfg.{Cfg}
use cfglib.Cfg.Edge
use cfglib.Cfg.Edge.{EdgeKind, same_kind}
use cfglib.Cfg.Kinds.{same_kind_iff}
use cfglib.Builder.Jumps.{Jump, is_wired}

module _ {κ ω} {W : Type ω} {E : Type κ} where
  -- The edge is one for the jump.
  abbrev pub Serves : EdgeRecord (Edge.Edge W E) → Jump → Type 0
  Serves r jump = (r.source ≡ jump.source) × (r.target ≡ jump.target) × (r.payload.kind ≡ jump.kind)

  -- The test that `is_wired` makes.
  abbrev matches : EdgeRecord (Edge.Edge W E) → Jump → Bool
  matches r jump = (r.target == jump.target) && same_kind r.payload.kind jump.kind

  matches-Serves :
      (r : EdgeRecord (Edge.Edge W E)) (jump : Jump)
      → r.source ≡ jump.source
      → (matches r jump ≡ true) ↔ Serves r jump
  matches-Serves r jump from = (
    λ h. (
      from,
      ==→≡ r.target jump.target (ground (arith, h)),
      (same_kind_iff r.payload.kind jump.kind).0 (ground (arith, h)),
    ),
    λ (_, to, kind).
        rw (≡→== r.target jump.target to, (same_kind_iff r.payload.kind jump.kind).1 kind) refl,
  )

  -- The edge that is added for a jump.
  abbrev pub edge_for : E → Jump → EdgeRecord (Edge.Edge W E)
  edge_for default jump =
      edge_record jump.source jump.target
        (record { kind = jump.kind; weight = none; payload = default })

module _ {ℓ κ ω} {W : Type ω} {I : Type ℓ} {E : Type κ} where
  -- A live edge is one for the jump.
  abbrev pub Wired : Cfg W I E → Jump → Type (κ ⊔ ω)
  Wired cfg jump =
      (e : ℕ) × (r : EdgeRecord (Edge.Edge W E)) × (get_elem? (records cfg.graph) e ≡ some r)
      × (contains_edge cfg.graph e ≡ true)
      × Serves r jump

  abbrev Among : Cfg W I E → Jump → List ℕ → Type (κ ⊔ ω)
  Among cfg jump es =
      (e : ℕ) × (r : EdgeRecord (Edge.Edge W E)) × (member e es ≡ true)
      × (get_elem? (records cfg.graph) e ≡ some r)
      × (matches r jump ≡ true)

  is_wired-Among :
      (cfg : Cfg W I E) (jump : Jump) (v : ℕ) (es : List ℕ)
      → ((e : ℕ) → member e es ≡ true → Found cfg.graph outgoing v e)
      → (b : Bool) × (is_wired cfg es jump ≡ ok b) × ((b ≡ true) ↔ Among cfg jump es)
  unfolding is_wired Cfg.edge
  is_wired-Among cfg jump v [] found =
      (false, refl, (λ h. absurd (cc (h)), λ (e, r, h, _, _). absurd (cc (h))))
  is_wired-Among cfg jump v (e ∷ es) found =
      let (r, run, at, live, _) = found e (rw (≡→== e e refl) refl) in
      let (b, rest, among) = is_wired-Among cfg jump v es (λ e' h. found e' (ground (arith, h))) in
      elim (Bool-cases (matches r jump)) [
        | inl yes_ ↦ (
          true,
          rw (live, run, yes_) refl,
          (λ _. (e, r, rw (≡→== e e refl) refl, at, yes_), λ _. refl),
        )
        | inr no_ ↦ (
          b,
          rw (live, run, no_) rest,
          (
            λ h. let (e', r', in_, at', m) = among.0 h in (e', r', ground (arith, in_), at', m),
            λ (e', r', in_, at', m). elim (Bool-cases (e == e')) [
              | inl same ↦
                  let q : r' ≡ r =
                    cc (at, at', ap (get_elem? (records cfg.graph)) (==→≡ e e' same)) in
                  absurd (cc (no_, m, ap (λ s. matches s jump) q))
              | inr other ↦ among.1 (e', r', rw other at in_, at', m)
            ],
          ),
        )
      ]

  -- At a live block the loop tells whether the jump has its edge already.
  pub is_wired-Wired :
      (cfg : Cfg W I E) (jump : Jump)
      → IsStore cfg.graph
      → contains_node cfg.graph jump.source ≡ true
      → (es : List ℕ) × (b : Bool) × (Cfg.outgoing cfg jump.source ≡ ok es)
        × (is_wired cfg es jump ≡ ok b)
        × ((b ≡ true) ↔ Wired cfg jump)
  unfolding Cfg.outgoing Walk.edges_out
  is_wired-Wired cfg jump w alive =
      let g = cfg.graph in
      let v = jump.source in
      let es = select (contains_edge g) (incident g outgoing v) in
      let (b, run, among) = is_wired-Among cfg jump v es (walked-Found g outgoing v) in
      (
        es,
        b,
        rw alive at (adjacent_edges-IsStore g outgoing v w (contains_node-lt g v alive)),
        run,
        (
          λ h.
              let (e, r, in_, at, m) = among.0 h in
              let (r', _, at', live, near) = walked-Found g outgoing v e in_ in
              let same : r' ≡ r = cc (at, at') in
              let from : r.source ≡ jump.source = sym (ap (λ s. s.source) same) ∙ near in
              (e, r, at, live, (matches-Serves r jump from).0 m),
          λ (e, r, at, live, serves).
              let from = serves.0 in
              let there = touches-endpoint g outgoing v e r at ∙ ≡→== r.source v from in
              among.1 (
                e,
                r,
                member-incident g outgoing v e ∙ rw (there, live) refl,
                at,
                (matches-Serves r jump from).1 serves,
              ),
        ),
      )

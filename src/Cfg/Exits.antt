-- ===== src/Cfg/Exits.antt =====
-- Reading a control-flow graph along its edges, crates/cfglib/src/cfg.rs, and its exit blocks.
use cfglib.Prelude.{
  &&-both, ℕ, zero, suc, ◌+◌, ◌<◌, ◌≤◌, ◌≡◌, ◌↔◌, refl, sym, ◌∙◌, ap, inl, inr, List, [], ◌∷◌, true,
  ◌==◌, ◌||◌, not, Option, none, some, Result, ok, ◌>>=◌, arith, subst, Bool-cases, ==→≡, ≡→==,
  ==→≢, range_from, ltb, lt→ltb, ltb→lt, List-cases,
}
use cfglib.Store.LiveSet
use cfglib.Store.Chains.{outgoing}
use cfglib.Store.Graph
use cfglib.Store.Graph.{
  EdgeRecord, node_bound, contains_node, contains_edge, node_is_live, tombstoned_nodes,
}
use cfglib.Store.Walk.{edges_out}
use cfglib.Store.Walk.Steps.{select}
use cfglib.Store.Walk.Member.{member, member-select}
use cfglib.Store.Invariant.{IsStore, endpoint}
use cfglib.Store.Append.{contains_node-lt}
use cfglib.Store.Adjacent.{incident, adjacent_edges-IsStore}
use cfglib.Store.Isolate.{member-incident}
use cfglib.Store.Ends.{touches-endpoint}
use cfglib.Store.Listing
use cfglib.Store.Neighbors.{Joins, walked-Found}
use cfglib.Cfg
use cfglib.Cfg.{Cfg, block_ids, contains_block}
use cfglib.Cfg.Edge

-- The element of a list that has exactly one.
unfoldable pub sole : List ℕ → Option ℕ
sole [] = none
sole (id ∷ []) = some id
sole (id ∷ other ∷ ids) = none

module _ {ℓ κ ω} {W : Type ω} {I : Type ℓ} {E : Type κ} where
  unfoldable pub edge_ids : Cfg W I E → List ℕ
  edge_ids cfg = Listing.edge_ids cfg.graph

  unfoldable pub edges : Cfg W I E → Result (List (EdgeRecord (Edge.Edge W E)))
  edges cfg = Listing.traverse (Cfg.edge cfg) (edge_ids cfg)

  unfoldable pub sole_outgoing : Cfg W I E → ℕ → Result (Option ℕ)
  sole_outgoing cfg id = Cfg.outgoing cfg id >>= λ ids. ok (sole ids)

  unfoldable pub sole_incoming : Cfg W I E → ℕ → Result (Option ℕ)
  sole_incoming cfg id = Cfg.incoming cfg id >>= λ ids. ok (sole ids)

  unfoldable pub successors : Cfg W I E → ℕ → Result (List ℕ)
  successors cfg id = Listing.successors cfg.graph id

  unfoldable pub predecessors : Cfg W I E → ℕ → Result (List ℕ)
  predecessors cfg id = Listing.predecessors cfg.graph id

  unfoldable pub block_bound : Cfg W I E → ℕ
  block_bound cfg = node_bound cfg.graph

  unfoldable pub edge_bound : Cfg W I E → ℕ
  edge_bound cfg = Graph.edge_bound cfg.graph

  -- The filter of `exit_blocks`.
  unfoldable pub keep_exits : Cfg W I E → List ℕ → Result (List ℕ)
  keep_exits cfg [] = ok []
  keep_exits cfg (id ∷ ids) = do
    leaving ← Cfg.outgoing cfg id
    rest ← keep_exits cfg ids
    elim leaving [ [] ↦ ok (id ∷ rest) | _ ∷ _ ↦ ok rest ]

  unfoldable pub exit_blocks : Cfg W I E → Result (List ℕ)
  exit_blocks cfg = keep_exits cfg (block_ids cfg)

member-range_from : (s n j : ℕ) → s ≤ j → j < s + n → member j (range_from s n) ≡ true
member-range_from s zero j low high = absurd (omega (arith, low, high))
member-range_from s (suc n) j low high = elim (Bool-cases (s == j)) [
  | inl here ↦ rw here refl
  | inr other ↦
      let ne = ==→≢ s j other in
      rw other (member-range_from (suc s) n j (omega (arith, low, ne)) (omega (arith, high)))
]

member-range_lt : (s n j : ℕ) → member j (range_from s n) ≡ true → j < s + n
member-range_lt s zero j h = absurd (cc h)
member-range_lt s (suc n) j h = elim (Bool-cases (s == j)) [
  | inl here ↦ omega (arith, ==→≡ s j here)
  | inr other ↦ omega (arith, member-range_lt (suc s) n j (rw other at h))
]

module _ {ℓ κ ω} {W : Type ω} {I : Type ℓ} {E : Type κ} (cfg : Cfg W I E) where
  -- No live edge leaves the block.
  abbrev IsExit : ℕ → Type (κ ⊔ ω)
  IsExit id = (m : ℕ) → ¬ (Joins cfg.graph outgoing id m)

  block_ids-live : (b : ℕ) → (member b (block_ids cfg) ≡ true) ↔ (contains_block cfg b ≡ true)
  unfolding block_ids Listing.node_ids contains_block contains_node node_is_live
  block_ids-live b =
      let g = cfg.graph in
      let alive = λ (slot : ℕ). not (tombstoned_nodes g) || LiveSet.is_live g.live_nodes slot in
      let picked = member-select alive b (range_from 0 (node_bound g)) in
      (
        λ h.
            let (i, p) =
              &&-both (member b (range_from 0 (node_bound g))) (alive b) (sym picked ∙ h) in
            let lt : b < node_bound g = omega (arith, member-range_lt 0 (node_bound g) b i) in
            rw (lt→ltb b (node_bound g) lt) p,
        λ h.
            let (i, p) = &&-both (ltb b (node_bound g)) (alive b) h in
            let lt = ltb→lt b (node_bound g) i in
            picked ∙ rw (member-range_from 0 (node_bound g) b (omega arith) (omega (arith, lt))) p,
      )

  module _ (w : IsStore cfg.graph) where
    outgoing-IsExit :
        (id : ℕ)
        → contains_block cfg id ≡ true
        → (es : List ℕ) × (Cfg.outgoing cfg id ≡ ok es) × ((es ≡ []) ↔ IsExit id)
    unfolding Cfg.outgoing edges_out contains_block
    outgoing-IsExit id live =
        let g = cfg.graph in
        let es = select (contains_edge g) (incident g outgoing id) in
        let run = adjacent_edges-IsStore g outgoing id w (contains_node-lt g id live) in
        (
          es,
          rw live at run,
          (
            λ e m (k, r, at, up, near, far).
                let here = ≡→== (endpoint outgoing r) id near in
                absurd (
                  cc (
                    member-incident g outgoing id k,
                    touches-endpoint g outgoing id k r at,
                    here,
                    up,
                    ap (member k) e,
                  )),
            λ exit. elim (List-cases es) [
              | inl e ↦ e
              | inr (k, ks, e) ↦
                  let (r, _, at, up, near) =
                    walked-Found g outgoing id k (rw (e, ≡→== k k refl) refl) in
                  absurd (exit r.target (k, r, at, up, near, refl))
            ],
          ),
        )

    keep_exits-IsExit :
        (ids : List ℕ)
        → ((b : ℕ) → member b ids ≡ true → contains_block cfg b ≡ true)
        → (xs : List ℕ) × (keep_exits cfg ids ≡ ok xs)
          × ((b : ℕ) → (member b xs ≡ true) ↔ (member b ids ≡ true) × IsExit b)
    unfolding keep_exits
    keep_exits-IsExit [] live = ([], refl, λ b. (λ h. absurd (cc h), λ h. h.0))
    keep_exits-IsExit (id ∷ ids) live =
        let (es, run, exit) = outgoing-IsExit id (live id (rw (≡→== id id refl) refl)) in
        let (xs, rest, kept) = keep_exits-IsExit ids (λ b h. live b (ground (arith, h))) in
        elim (List-cases es) [
          | inl e ↦ (
            id ∷ xs,
            rw (run, rest, e) refl,
            λ b. (
              λ h. elim (Bool-cases (id == b)) [
                | inl same ↦ (rw same refl, subst IsExit (==→≡ id b same) (exit.0 e))
                | inr other ↦ let (i, x) = (kept b).0 (rw other at h) in (rw other i, x)
              ],
              λ (i, x). elim (Bool-cases (id == b)) [
                | inl same ↦ rw same refl
                | inr other ↦ rw other ((kept b).1 (rw other at i, x))
              ],
            ),
          )
          | inr (k, ks, e) ↦ (
            xs,
            rw (run, rest, e) refl,
            λ b. (
              λ h. let (i, x) = (kept b).0 h in (ground (arith, i), x),
              λ (i, x). elim (Bool-cases (id == b)) [
                | inl same ↦ absurd (cc (e, exit.1 (subst IsExit (sym (==→≡ id b same)) x)))
                | inr other ↦ (kept b).1 (rw other at i, x)
              ],
            ),
          )
        ]

    -- On a graph whose store is well formed, exit_blocks returns, and the blocks that it lists are the
    -- live blocks that no live edge leaves.
    exit_blocks-IsExit :
        (xs : List ℕ) × (exit_blocks cfg ≡ ok xs)
        × ((b : ℕ) → (member b xs ≡ true) ↔ (contains_block cfg b ≡ true) × IsExit b)
    unfolding exit_blocks
    exit_blocks-IsExit =
        let (xs, run, exits) = keep_exits-IsExit (block_ids cfg) (λ b h. (block_ids-live b).0 h) in
        (
          xs,
          run,
          λ b. (
            λ h. let (i, x) = (exits b).0 h in ((block_ids-live b).0 i, x),
            λ (i, x). (exits b).1 ((block_ids-live b).1 i, x),
          ),
        )

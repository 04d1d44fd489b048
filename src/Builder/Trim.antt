-- ===== src/Builder/Trim.antt =====
-- `trim_trailing_empty` of the structured builder, crates/cfglib/src/builder.rs: the loop that removes
-- empty blocks from the end.
use mathlib.Core.List.{append-nil}
use cfglib.Prelude
use cfglib.Prelude.{
  ℕ, zero, suc, ◌+◌, ◌<◌, ◌≤◌, ◌≡◌, ◌≢◌, ◌⊎◌, inl, inr, refl, sym, ap, subst, ◌∙◌, List, [], ◌∷◌,
  ◌++◌, length, Bool, true, false, some, arith, if◌then◌else◌, ltb, ◌==◌, ==→≡, ==→≢, ≢→==,
  Bool-cases, List-cases, get_elem?, take, take-suc, range_from, length-range_from, ltb→lt, lt→ltb,
}
use cfglib.Store.Chains.{incoming}
use cfglib.Store.Graph.{node_bound, contains_node}
use cfglib.Store.Walk
use cfglib.Store.Listing
use cfglib.Store.Invariant.{IsStore}
use cfglib.Store.Adjacent.{adjacent_edges-IsStore}
use cfglib.Store.Isolate.{remove_node-IsStore}
use cfglib.Store.Ends.{LiveEnds, remove_node-LiveEnds}
use cfglib.Store.Contents.{payloads, payloads_size, payloads-remove_node}
use cfglib.Store.Found.{node-found}
use cfglib.Cfg
use cfglib.Cfg.{Cfg}
use cfglib.Cfg.Block
use cfglib.Cfg.Block.{BasicBlock}
use cfglib.Cfg.Grows.{program, program-append}
use cfglib.Builder.Build.{last, has_incoming, stops_at, trim_loop, trim_trailing_empty}

last-range : (s k : ℕ) → last (range_from s (suc k)) ≡ some (s + k)
unfolding last
last-range s zero = ap some (omega arith)
last-range s (suc k) = last-range (suc s) k ∙ ap some (omega arith)

is_empty-cases {ℓ} :
    {I : Type ℓ} (b : BasicBlock I)
    → (Block.is_empty b ≡ true) × (b.instructions ≡ [])
      ⊎ (Block.is_empty b ≡ false) × (b.instructions ≢ [])
unfolding Block.is_empty
is_empty-cases b = elim (List-cases b.instructions) [
  | inl e ↦ inl (rw e refl, e)
  | inr (i, is, e) ↦ inr (rw e refl, λ e'. cc (e, e'))
]

module _ {ℓ ω} {W : Type ω} {I : Type ℓ} where
  -- The live blocks are those below `k`, and hold the instructions `is`.
  pub record IsTrimming (cfg : Cfg W I (Unit {0})) (k : ℕ) (is : List I) : Type (ℓ ⊔ ω) where
    pub store : IsStore cfg.graph
    pub ends : LiveEnds cfg.graph
    pub live : (v : ℕ) → contains_node cfg.graph v ≡ ltb v k
    pub fits : k ≤ node_bound cfg.graph
    pub entered : cfg.entry < k
    pub code : program (take k (payloads cfg.graph)) ≡ is

  -- Why a last block stays: it is the entry, it holds an instruction, or an edge leads to it.
  pub data Held (cfg : Cfg W I (Unit {0})) (v : ℕ) : Type (ℓ ⊔ ω) where
    entered : v ≡ cfg.entry → Held cfg v
    filled : (b : BasicBlock I) → Cfg.block cfg v ≡ Prelude.ok b → b.instructions ≢ [] → Held cfg v
    reached : (e : ℕ) (es : List ℕ) → Cfg.incoming cfg v ≡ Prelude.ok (e ∷ es) → Held cfg v

  module _ (cfg : Cfg W I (Unit {0})) (k : ℕ) (is : List I) (t : IsTrimming cfg k is) where
    block_ids-range : Cfg.block_ids cfg ≡ range_from 0 k
    unfolding Cfg.block_ids
    block_ids-range = Listing.node_ids-below cfg.graph k t.fits t.live

    block_count-size : Cfg.block_count cfg ≡ k
    unfolding Cfg.block_count Cfg.block_ids
    block_count-size =
        sym (Listing.node_count-IsStore cfg.graph t.store).0
        ∙ ap length block_ids-range
        ∙ length-range_from 0 k

    blocks-take : Cfg.blocks cfg ≡ Prelude.ok (take k (payloads cfg.graph))
    unfolding Cfg.blocks Cfg.block
    blocks-take =
        ap (Listing.traverse (Cfg.block cfg)) block_ids-range
        ∙ Listing.traverse-take (Cfg.block cfg) (payloads cfg.graph) 0 k
            (omega (arith, payloads_size cfg.graph, t.fits))
            (λ i h.
              let (b, at, same) = node-found cfg.graph i (omega (arith, t.fits)) in
              let start : 0 + i ≡ i = omega arith in (b, ap (Cfg.block cfg) start ∙ at, same))

    incoming-ok : (v : ℕ) → v < k → (es : List ℕ) × (Cfg.incoming cfg v ≡ Prelude.ok es)
    unfolding Cfg.incoming Walk.edges_in
    incoming-ok v h =
        (_, adjacent_edges-IsStore cfg.graph incoming v t.store (omega (arith, t.fits)))

    has_incoming-cases :
        (v : ℕ)
        → v < k
        → (has_incoming cfg v ≡ Prelude.ok false)
          ⊎ (has_incoming cfg v ≡ Prelude.ok true)
            × ((e : ℕ) × (es : List ℕ) × (Cfg.incoming cfg v ≡ Prelude.ok (e ∷ es)))
    unfolding has_incoming
    has_incoming-cases v h =
        let (es, run) = incoming-ok v h in
        elim (List-cases es) [
          | inl isolated ↦ inl (rw (run ∙ ap Prelude.ok isolated) refl)
          | inr (e, rest, more) ↦
              let found = run ∙ ap Prelude.ok more in inr (rw found refl, (e, rest, found))
        ]

    -- The test of the loop.
    stops_at-Held :
        (v : ℕ)
        → v < k
        → (stops_at cfg v ≡ Prelude.ok true) × Held cfg v
          ⊎ (stops_at cfg v ≡ Prelude.ok false)
            × (v ≢ cfg.entry)
            × ((b : BasicBlock I) × (get_elem? (payloads cfg.graph) v ≡ some b)
                × (b.instructions ≡ []))
    unfolding stops_at Cfg.block
    stops_at-Held v h = elim (Bool-cases (v == cfg.entry)) [
      | inl same ↦ inl (rw same refl, entered (==→≡ v cfg.entry same))
      | inr other ↦
          let (b, at, found) = node-found cfg.graph v (omega (arith, t.fits)) in
          elim (is_empty-cases b) [
            | inr (full, some_) ↦ inl (rw (other, at, full) refl, filled b at some_)
            | inl (empty, none_) ↦ elim (has_incoming-cases v h) [
              | inl isolated ↦
                  inr (
                    rw (other, at, empty, isolated) refl,
                    ==→≢ v cfg.entry other,
                    (b, found, none_),
                  )
              | inr (more, (e, es, edges)) ↦
                  inl (rw (other, at, empty, more) refl, reached e es edges)
            ]
          ]
    ]

  -- The last block, empty and not the entry, goes, and the others hold the same instructions.
  remove_last :
      (cfg : Cfg W I (Unit {0})) (k : ℕ) (is : List I) (b : BasicBlock I)
      → IsTrimming cfg (suc k) is
      → k ≢ cfg.entry
      → get_elem? (payloads cfg.graph) k ≡ some b
      → b.instructions ≡ []
      → (cfg' : Cfg W I (Unit {0})) × (removed : Bool) × (Cfg.remove_block cfg k
          ≡ Prelude.ok (cfg', removed))
        × IsTrimming cfg' k is
        × (cfg'.entry ≡ cfg.entry)
  unfolding Cfg.remove_block
  remove_last cfg k is b t other at empty =
      let g = cfg.graph in
      let (g', run, store, kept, nodes, edges) = remove_node-IsStore g k t.store in
      let (g₂, run₂, ends) = remove_node-LiveEnds g k t.store t.ends in
      let same : g₂ ≡ g' = cc (run, run₂) in
      let held = payloads-remove_node g g' k (contains_node g k) run in
      let bound : node_bound g' ≡ node_bound g =
        sym (payloads_size g') ∙ ap length held ∙ payloads_size g in
      (
        record cfg { graph = g' },
        contains_node g k,
        rw (≢→== k cfg.entry other, run) refl,
        record {
          store = store;
          ends = subst LiveEnds same ends;
          live = λ v. nodes v ∙ ground (arith, t.live v);
          fits = omega (arith, t.fits, bound);
          entered = omega (arith, t.entered, λ (e : cfg.entry ≡ k). other (sym e));
          code =
              ap (λ ps. program (take k ps)) held
              ∙ sym (append-nil _)
              ∙ ap (λ js. program (take k (payloads g)) ++ js) (sym (ap (λ js. js ++ []) empty))
              ∙ sym (program-append (take k (payloads g)) (b ∷ []))
              ∙ ap program (sym (take-suc (payloads g) k at))
              ∙ t.code;
        },
        refl,
      )

  -- A round for each block, and one to stop, are enough.
  trim_loop-Held :
      (fuel : ℕ) (cfg : Cfg W I (Unit {0})) (k : ℕ) (is : List I)
      → IsTrimming cfg k is
      → k < fuel
      → (cfg' : Cfg W I (Unit {0})) × (j : ℕ) × (trim_loop fuel cfg ≡ Prelude.ok cfg')
        × IsTrimming cfg' (suc j) is
        × Held cfg' j
        × (cfg'.entry ≡ cfg.entry)
        × (suc j ≤ k)
  unfolding trim_loop
  trim_loop-Held zero cfg k is t h = absurd (omega arith)
  trim_loop-Held (suc fuel) cfg zero is t h = absurd (omega (arith, t.entered))
  trim_loop-Held (suc fuel) cfg (suc k) is t h =
      let start : 0 + k ≡ k = omega arith in
      let at_end = ap last (block_ids-range cfg (suc k) is t) ∙ last-range 0 k ∙ ap some start in
      elim (stops_at-Held cfg (suc k) is t k (omega arith)) [
        | inl (stop, held) ↦ (cfg, k, rw (at_end, trim_loop, stop) refl, t, held, refl, omega arith)
        | inr (go, other, (b, at, empty)) ↦
            let (cfg₁, removed, run, t₁, same) = remove_last cfg k is b t other at empty in
            let (cfg', j, rest, t', held, entry, fewer) =
              trim_loop-Held fuel cfg₁ k is t₁ (omega arith) in
            (
              cfg',
              j,
              rw (at_end, trim_loop, go, run) rest,
              t',
              held,
              entry ∙ same,
              omega (arith, fewer),
            )
      ]

  pub trim_trailing_empty-Held :
      (cfg : Cfg W I (Unit {0})) (k : ℕ) (is : List I)
      → IsTrimming cfg k is
      → (cfg' : Cfg W I (Unit {0})) × (j : ℕ) × (trim_trailing_empty cfg ≡ Prelude.ok cfg')
        × IsTrimming cfg' (suc j) is
        × Held cfg' j
        × (cfg'.entry ≡ cfg.entry)
        × (suc j ≤ k)
  unfolding trim_trailing_empty
  trim_trailing_empty-Held cfg k is t =
      trim_loop-Held (suc (Cfg.block_count cfg)) cfg k is t
        (omega (arith, block_count-size cfg k is t))

  -- What a caller of `build` sees of such a graph.
  pub record IsBuilt (cfg : Cfg W I (Unit {0})) (is : List I) (most : ℕ) : Type (ℓ ⊔ ω) where
    pub store : IsStore cfg.graph
    pub ends : LiveEnds cfg.graph
    pub entry : cfg.entry ≡ 0
    pub last : ℕ
    pub ids : Cfg.block_ids cfg ≡ range_from 0 (suc last)
    pub few : suc last ≤ most
    pub held : Held cfg last
    pub code : (bs : List (BasicBlock I)) × (Cfg.blocks cfg ≡ Prelude.ok bs) × (program bs ≡ is)

  pub IsBuilt-of :
      (cfg : Cfg W I (Unit {0})) (last most : ℕ) (is : List I)
      → IsTrimming cfg (suc last) is
      → Held cfg last
      → cfg.entry ≡ 0
      → suc last ≤ most
      → IsBuilt cfg is most
  IsBuilt-of cfg last most is t held entry few = record {
    store = t.store;
    ends = t.ends;
    entry = entry;
    last = last;
    ids = block_ids-range cfg (suc last) is t;
    few = few;
    held = held;
    code = (take (suc last) (payloads cfg.graph), blocks-take cfg (suc last) is t, t.code);
  }

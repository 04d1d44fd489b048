-- ===== src/Store/Degree.antt =====
-- `degree` of crates/cfglib/src/graph/store/adjacency.rs counts what the walk visits.
use cfglib.Prelude.{
  ℕ, zero, suc, ◌+◌, ◌-◌, ◌<◌, ◌≡◌, refl, sym, ◌∙◌, ap, inl, inr, List, [], ◌∷◌, ◌++◌, map, length,
  get_elem?, Option, none, some, Result, ok, ◌>>=◌, arith, Option-cases, ≢→==, ≡→==, length-map,
  length-append,
}
use cfglib.Store.LiveSet.{LiveSet}
use cfglib.Store.Chains.{Direction, no_link, link}
use cfglib.Store.Chains.Ring.{final, Walks, Walks-final}
use cfglib.Store.Chains.Thread.{link_at}
use cfglib.Store.Graph.{Graph, node_bound}
use cfglib.Store.Walk.{Axis, axis_of, live_of, passes, adjacent_edges, degree, count_chain}
use cfglib.Store.Invariant.{IsStore}
use cfglib.Store.Adjacent.{walk_of}
use cfglib.Store.Walk.Steps.{select, Slice-length, Rest, collect-IsBefore}

count_chain-Walks :
    (axis : Axis) (owner : ℕ → Option ℕ) (v first last fuel count d : ℕ) (ds : List ℕ)
    → last ≡ final d ds
    → last < no_link
    → Walks (link_at axis.chains.next axis.chain) owner v first d ds
    → length ds < fuel
    → count_chain axis last fuel count d ≡ ok (count + suc (length ds))
unfolding count_chain
count_chain-Walks axis owner v first last zero count d ds l room w h = absurd (omega arith)
count_chain-Walks axis owner v first last (suc fuel) count d [] l room w h =
    rw (≢→== d no_link (λ q. omega arith), ≡→== d last (sym l)) refl
count_chain-Walks axis owner v first last (suc fuel) count d (x ∷ ds) l room w h =
    let (le, _, _) = Walks-final (link_at axis.chains.next axis.chain) owner v first x ds w.3 in
    let rest =
      count_chain-Walks axis owner v first last fuel (count + 1) x ds l room w.3 (omega arith) in
    let total : count + 1 + suc (length ds) ≡ count + suc (suc (length ds)) = omega arith in
    elim (Option-cases (get_elem? axis.chains.next d)) [
      | inl absent ↦ absurd (cc (rw absent at w.1))
      | inr (links, at) ↦
          let step : link links axis.chain ≡ x = ground (arith, rw at at w.1) in
          rw (
            ≢→== d no_link (λ q. omega arith),
            ≢→== d last (λ q. omega arith),
            at,
            step,
            rest,
            total,
          )
    ]

count_chain-Rest :
    (axis : Axis) (owner : ℕ → Option ℕ) (v first delta last fuel count : ℕ) (ds : List ℕ)
    → Rest (link_at axis.chains.next axis.chain) owner v first delta last ds
    → length ds < fuel
    → count_chain axis last fuel count delta ≡ ok (count + length ds)
unfolding count_chain
count_chain-Rest axis owner v first delta last zero count ds r h = absurd (omega arith)
count_chain-Rest axis owner v first delta last (suc fuel) count [] r h =
    rw (≡→== delta no_link r) (ap ok (omega arith))
count_chain-Rest axis owner v first delta last (suc fuel) count (d ∷ ds) (e, l, room, w) h =
    rw e (count_chain-Walks axis owner v first last (suc fuel) count d ds l room w (omega arith))

select-none : (es : List ℕ) → select (passes none) es ≡ es
unfolding passes
select-none [] = refl
select-none (e ∷ es) = ap (◌∷◌ e) (select-none es)

counted-by :
    (live : Option LiveSet) (walked : Result (List ℕ)) (counted : Result ℕ) (ahead : List ℕ)
    → walked ≡ ok (select (passes live) ahead)
    → counted ≡ ok (length ahead)
    → elim live [ some l ↦ (walked >>= λ edges. ok (length edges)) | none ↦ counted ]
      ≡ ok (length (select (passes live) ahead))
counted-by none walked counted ahead e n = n ∙ ap (λ es. ok (length es)) (sym (select-none ahead))
counted-by (some l) walked counted ahead e n = rw e

module _ {ℓ κ} {N : Type ℓ} {E : Type κ} where
  -- On a well-formed store the degree of a node slot, counted from the run bounds and the chain
  -- where no edge was removed, is the number of edges that the walk returns.
  pub degree-IsStore :
      (g : Graph N E) (dir : Direction) (v : ℕ)
      → IsStore g
      → v < node_bound g
      → (es : List ℕ) × (adjacent_edges g v dir ≡ ok es) × (degree g v dir ≡ ok (length es))
  unfolding adjacent_edges degree
  degree-IsStore g dir v w h =
      let (c, first, owner, bs, ds, run, at, few, small, links) = walk_of g dir v w h in
      let axis = axis_of g dir in
      let es = select (passes (live_of g)) (bs ++ map (◌+◌ (length g.base_edges)) ds) in
      let walked =
        collect-IsBefore axis (live_of g) owner v first (length g.base_edges)
          (suc (length axis.edges + length g.delta_edges)) c bs ds at (omega arith) (omega arith) in
      let size = Slice-length axis.edges c.base c.base_end bs at.0 in
      let counted =
        count_chain-Rest axis owner v first c.delta c.delta_last (suc (length axis.chains.next))
          (c.base_end - c.base) ds at.1 (omega arith) in
      let total : (c.base_end - c.base) + length ds
          ≡ length (bs ++ map (◌+◌ (length g.base_edges)) ds) =
        omega (
          arith,
          size,
          length-append bs (map (◌+◌ (length g.base_edges)) ds),
          length-map (◌+◌ (length g.base_edges)) ds,
        ) in
      (
        es,
        rw run walked,
        rw run (
            counted-by (live_of g) _ _ (bs ++ map (◌+◌ (length g.base_edges)) ds) walked
              (counted ∙ ap ok total)),
      )

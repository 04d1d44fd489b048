-- ===== src/Relax/Least.antt =====
-- The labels that the relaxation of crates/cfglib/src/graph/relax.rs computes on a well-formed store: the
-- least that the seeds derive.
use mathlib.Core.List.{reverse}
use cfglib.Prelude.{
  In, In-reverse, In-of_reverse, ℕ, zero, suc, ◌+◌, ◌*◌, ◌<◌, ◌≡◌, refl, subst, inl, inr, List, [],
  ◌∷◌, Bool, true, length, replicate, get_elem?, Option, none, some, ok, arith, List-cases,
  length-replicate, length-reverse,
}
use cfglib.Store.Chains.{Direction}
use cfglib.Store.Graph.{Graph, EdgeRecord, node_bound}
use cfglib.Store.Invariant.{IsStore}
use cfglib.Store.Ends.{LiveEnds}
use cfglib.Relax.{State, far, relax_loop, min_label_relaxation}
use cfglib.Relax.Potential.{total, weight-replicate}
use cfglib.Relax.Derivation.{IsBounded, Improves, Derives, seed, along}
use cfglib.Relax.Edges.{adjacent_count}
use cfglib.Relax.Measure.{height, measure}
use cfglib.Relax.Round.{Invariant, round-Invariant}

blank_label {ω} :
    {L : Type ω} (n v : ℕ) (l : L) → get_elem? (replicate n none) v ≡ some (some l) → ⊥
blank_label zero v l at = cc (at)
blank_label (suc n) zero l at = cc (at)
blank_label (suc n) (suc v) l at = blank_label n v l at

module _ {ℓ κ ω} {N : Type ℓ} {E : Type κ} {L : Type ω} (g : Graph N E) (w : IsStore g)
    (ends : LiveEnds g) (dir : Direction) (relax : EdgeRecord E → L → Option L) (le : L → L → Bool)
    (good : L → Type 0) (rank : L → ℕ) (bound : ℕ) (law : IsBounded le relax good rank bound)
    (seeds : List (ℕ × L)) where
  abbrev Keeps : State L → Type (κ ⊔ ω)
  Keeps = Invariant g w ends dir relax le good rank bound law seeds

  abbrev remaining : State L → ℕ
  remaining = measure g dir rank bound

  loop_done :
      (fuel : ℕ) (labels : List (Option L)) (ws : List (ℕ × L))
      → ws ≡ []
      → relax_loop relax le (suc fuel) g dir (record { labels = labels; worklist = ws })
        ≡ ok (record { labels = labels; worklist = ws })
  unfolding relax_loop
  loop_done fuel labels [] done = refl
  loop_done fuel labels (_ ∷ _) done = absurd (cc (done))

  -- With more fuel than may still happen, the loop empties its worklist.
  relax_loop-Keeps :
      (fuel : ℕ) (s : State L)
      → Keeps s
      → remaining s < fuel
      → (s' : State L) × (relax_loop relax le fuel g dir s ≡ ok s') × Keeps s' × (s'.worklist ≡ [])
  unfolding relax_loop
  relax_loop-Keeps zero s i h = absurd (omega arith)
  relax_loop-Keeps (suc fuel) s i h = elim (List-cases s.worklist) [
    | inl done ↦ (s, loop_done fuel s.labels s.worklist done, i, done)
    | inr ((v, c), rest, top) ↦
        let (s₁, run, i₁, less) =
          round-Invariant g w ends dir relax le good rank bound law seeds s v c rest i top in
        let (s', more, i', done) = relax_loop-Keeps fuel s₁ i₁ (omega (arith, less)) in
        (s', rw (top, relax_loop) (rw run more), i', done)
  ]

  abbrev blank : State L
  blank = record { labels = replicate (node_bound g) none; worklist = reverse seeds }

  blank-Keeps : ((v : ℕ) (l : L) → In (v, l) seeds → good l × (v < node_bound g)) → Keeps blank
  blank-Keeps fine = record {
    size = length-replicate (node_bound g) none;
    labelled = λ v l at. absurd (blank_label (node_bound g) v l at);
    waiting = λ v l h.
        let from = In-of_reverse (v, l) seeds h in
        (seed v l from, (fine v l from).0, (fine v l from).1);
    seeded = λ v l h. inr (In-reverse (v, l) seeds h);
    relaxed = λ v l r c at. absurd (blank_label (node_bound g) v l at);
  }

  remaining-blank :
      remaining blank ≡ length seeds + total (adjacent_count g dir) 0 (node_bound g) * bound
  unfolding measure
  remaining-blank = omega (
    arith,
    length-reverse seeds,
    weight-replicate (adjacent_count g dir) (height rank bound) 0 (node_bound g) none,
  )

  -- What the seeds derive is covered by a label that is not larger.
  covered :
      (s : State L)
      → Keeps s
      → s.worklist ≡ []
      → Improves le relax
      → (v : ℕ) (l : L) → Derives g dir relax seeds v l
      → (k : L) × (get_elem? s.labels v ≡ some (some k)) × (le k l ≡ true)
  covered s i done improves v l (seed u a h) = elim (i.seeded u a h) [
    | inl label ↦ label
    | inr (k, at) ↦ absurd (cc (subst (λ ws. get_elem? ws k ≡ some (u, a)) done at))
  ]
  covered s i done improves v l (along u a r d derived at made) =
      let (k, held, less) = covered s i done improves u a derived in
      let (c, made', less') = improves r k a d less made in
      elim (i.relaxed u k r c held at made') [
        | inl (k', held', less'') ↦ (k', held', law.le_trans k' c d less'' less')
        | inr (j, entry) ↦
            absurd (cc (subst (λ ws. get_elem? ws j ≡ some (far dir r, c)) done entry))
      ]

  -- On a well-formed store with the ends of live edges live, for labels in a total order whose ranks
  -- are bounded and a transfer that preserves improvements, from seeds that are nodes,
  -- min_label_relaxation returns, with fuel for the seeds and for each edge as often as ranks, a label
  -- or none for each node: the label of a node is one that the seeds derive there along live edges, and
  -- it is not larger than any that they derive; a node without a label is one where they derive none.
  pub min_label_relaxation-least :
      (fuel : ℕ)
      → ((v : ℕ) (l : L) → In (v, l) seeds → good l × (v < node_bound g))
      → length seeds + total (adjacent_count g dir) 0 (node_bound g) * bound < fuel
      → Improves le relax
      → (labels : List (Option L)) × (min_label_relaxation relax le fuel g seeds dir ≡ ok labels)
        × (length labels ≡ node_bound g)
        × ((v : ℕ) (l : L) → get_elem? labels v ≡ some (some l) → Derives g dir relax seeds v l)
        × ((v : ℕ) (l : L)
            → Derives g dir relax seeds v l
            → (k : L) × (get_elem? labels v ≡ some (some k)) × (le k l ≡ true))
  unfolding min_label_relaxation
  min_label_relaxation-least fuel fine enough improves =
      let (s, run, i, done) =
        relax_loop-Keeps fuel blank (blank-Keeps fine) (omega (arith, remaining-blank)) in
      (
        s.labels,
        rw run refl,
        i.size,
        λ v l at. (i.labelled v l at).0,
        λ v l d. covered s i done improves v l d,
      )

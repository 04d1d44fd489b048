-- ===== src/Builder/Jumps/Labels.antt =====
-- The first loop of `resolve_jump_edges`, crates/cfglib/src/builder.rs: the blocks that labels lead.
use cfglib.Prelude.{
  ℕ, zero, suc, ◌+◌, ◌<◌, ◌≤◌, ◌≡◌, inl, inr, refl, sym, ◌∙◌, ap, List, Bool, true, Bool-cases,
  Option, none, some, ok, range_from, arith, ◌==◌, ==→≡, ==→≢, subst,
}
use cfglib.Store.Graph.{node_bound}
use cfglib.Store.Walk.Steps.{select}
use cfglib.Store.Found.{node-found}
use cfglib.Cfg
use cfglib.Cfg.{Cfg}
use cfglib.Cfg.Block.{BasicBlock}
use cfglib.Builder.Jumps.{JumpTargets, label_of, lookup, insert_label, collect_labels}

module _ {ℓ τ κ ω} {I : Type ℓ} {T : Type τ} {W : Type ω} {E : Type κ} (targets : JumpTargets I T)
    (cfg : Cfg W I E) (p : ℕ → Bool) where
  -- The block `u`, among those of `p`, is led by a label of this token.
  abbrev pub Labelled : T → ℕ → Type (ℓ ⊔ τ)
  Labelled token u =
      (p u ≡ true)
      × (b : BasicBlock I) × (t : T) × (Cfg.block cfg u ≡ ok b)
      × (label_of targets b.instructions ≡ some t)
      × (targets.same token t ≡ true)

  -- The last block below `k` with this token, or none if there is no such block.
  abbrev pub IsLast : T → ℕ → Option ℕ → Type (ℓ ⊔ τ)
  IsLast token k none = (u : ℕ) → u < k → ¬ (Labelled token u)
  IsLast token k (some u) =
      (u < k) × Labelled token u × ((v : ℕ) → v < k → Labelled token v → v ≤ u)

  IsLast-skip :
      (token : T) (k : ℕ) (o : Option ℕ)
      → ¬ (Labelled token k)
      → IsLast token k o
      → IsLast token (suc k) o
  IsLast-skip token k none not_here last = λ u lt labelled. elim (Bool-cases (u == k)) [
    | inl same ↦ not_here (subst (Labelled token) (==→≡ u k same) labelled)
    | inr other ↦ last u (omega (arith, lt, ==→≢ u k other)) labelled
  ]
  IsLast-skip token k (some u) not_here (lt, here, last) = (
    omega (arith, lt),
    here,
    λ v lt' labelled. elim (Bool-cases (v == k)) [
      | inl same ↦ absurd (not_here (subst (Labelled token) (==→≡ v k same) labelled))
      | inr other ↦ last v (omega (arith, lt', ==→≢ v k other)) labelled
    ],
  )

  -- The table knows the last block of each token.
  abbrev pub IsTable : List (T × ℕ) → ℕ → Type (ℓ ⊔ τ)
  IsTable labels k = (token : T) → IsLast token k (lookup targets token labels)

  insert_label-IsTable :
      (labels : List (T × ℕ)) (k : ℕ) (b : BasicBlock I) (o : Option T)
      → p k ≡ true
      → Cfg.block cfg k ≡ ok b
      → label_of targets b.instructions ≡ o
      → IsTable labels k
      → IsTable (insert_label targets o k labels) (suc k)
  unfolding insert_label lookup
  insert_label-IsTable labels k b none alive found unlabelled table = λ token.
      IsLast-skip token k (lookup targets token labels)
        (λ (_, b', t, found', led, _).
          let same : b ≡ b' = cc (found, found') in
          absurd (cc (led, unlabelled, ap (λ c. label_of targets c.instructions) same)))
        (table token)
  insert_label-IsTable labels k b (some name) alive found led table = λ token.
      elim (Bool-cases (targets.same token name)) [
        | inl hit ↦
            rw hit
              (omega arith, (alive, b, name, found, led, hit), λ v lt labelled. omega (arith, lt))
        | inr miss ↦ rw miss (
            IsLast-skip token k (lookup targets token labels)
              (λ (_, b', t, found', led', hit).
                let same : b ≡ b' = cc (found, found') in
                let q : some name ≡ some t =
                  sym led ∙ ap (λ c. label_of targets c.instructions) same ∙ led' in
                absurd (cc (q, hit, miss)))
              (table token))
      ]

  pub collect_labels-IsTable :
      (s n : ℕ) (labels : List (T × ℕ))
      → s + n ≤ node_bound cfg.graph
      → IsTable labels s
      → (labels' : List (T × ℕ)) × (collect_labels targets cfg (select p (range_from s n)) labels
          ≡ ok labels')
        × IsTable labels' (s + n)
  unfolding collect_labels Cfg.block
  collect_labels-IsTable s zero labels h table =
      let start : s ≡ s + 0 = omega arith in (labels, refl, subst (IsTable labels) start table)
  collect_labels-IsTable s (suc n) labels h table =
      let shift : suc s + n ≡ s + suc n = omega arith in
      elim (Bool-cases (p s)) [
        | inr dead ↦
            let (labels', run, table') =
              collect_labels-IsTable (suc s) n labels (omega (arith, h)) (λ token.
                IsLast-skip token s (lookup targets token labels)
                  (λ labelled. absurd (cc (labelled.0, dead))) (table token)) in
            (labels', rw dead run, subst (IsTable labels') shift table')
        | inl alive ↦
            let (b, found, _) = node-found cfg.graph s (omega (arith, h)) in
            let (labels', run, table') =
              collect_labels-IsTable (suc s) n
                (insert_label targets (label_of targets b.instructions) s labels) (omega (arith, h))
                (insert_label-IsTable labels s b (label_of targets b.instructions) alive found refl
                  table) in
            (labels', rw (alive, found) run, subst (IsTable labels') shift table')
      ]

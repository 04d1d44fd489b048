-- ===== src/Builder/Jumps/Spoken.antt =====
-- The labels and the jumps that `resolve_jump_edges` of crates/cfglib/src/builder.rs looks for, by what
-- the instructions of a block are, and that the code's reading of a block finds these.
use cfglib.Prelude.{
  ℕ, ◌≡◌, ◌⊎◌, ◌↔◌, inl, inr, refl, sym, ◌∙◌, ap, List, [], ◌∷◌, ◌++◌, true, Bool-cases,
  Option-cases, some, ok,
}
use cfglib.Store.Graph.{contains_node}
use cfglib.Cfg
use cfglib.Cfg.{Cfg}
use cfglib.Cfg.Edge.{EdgeKind}
use cfglib.Cfg.Block.{BasicBlock}
use cfglib.Builder.Flow.{FlowEffect}
use cfglib.Builder.Build.{last}
use cfglib.Builder.Jumps.{JumpTargets, is_label, jump_kind, label_of, jump_of}
use cfglib.Builder.Jumps.Labels.{Labelled}
use cfglib.Builder.Jumps.Collected.{Ends}

is_label-label : (e : FlowEffect) → is_label e ≡ true → e ≡ FlowEffect.label
unfolding is_label
is_label-label FlowEffect.fallthrough h = absurd (cc (h))
is_label-label FlowEffect.conditional_open h = absurd (cc (h))
is_label-label FlowEffect.conditional_alternate h = absurd (cc (h))
is_label-label FlowEffect.conditional_close h = absurd (cc (h))
is_label-label FlowEffect.switch_open h = absurd (cc (h))
is_label-label FlowEffect.switch_case h = absurd (cc (h))
is_label-label FlowEffect.switch_close h = absurd (cc (h))
is_label-label FlowEffect.loop_open h = absurd (cc (h))
is_label-label FlowEffect.loop_close h = absurd (cc (h))
is_label-label FlowEffect.break h = absurd (cc (h))
is_label-label FlowEffect.conditional_break h = absurd (cc (h))
is_label-label FlowEffect.continue h = absurd (cc (h))
is_label-label FlowEffect.conditional_continue h = absurd (cc (h))
is_label-label FlowEffect.return h = absurd (cc (h))
is_label-label FlowEffect.conditional_return h = absurd (cc (h))
is_label-label FlowEffect.call h = absurd (cc (h))
is_label-label FlowEffect.conditional_call h = absurd (cc (h))
is_label-label FlowEffect.terminate h = absurd (cc (h))
is_label-label FlowEffect.label h = refl
is_label-label FlowEffect.declaration h = absurd (cc (h))
is_label-label FlowEffect.jump h = absurd (cc (h))
is_label-label FlowEffect.conditional_jump h = absurd (cc (h))
is_label-label FlowEffect.indirect_jump h = absurd (cc (h))
is_label-label FlowEffect.indirect_call h = absurd (cc (h))
is_label-label FlowEffect.may_throw h = absurd (cc (h))

-- The kind of edge that an instruction with this effect jumps along.
abbrev pub Along : FlowEffect → EdgeKind → Type 0
Along effect kind =
    ((effect ≡ FlowEffect.jump) × (kind ≡ EdgeKind.jump))
    ⊎ ((effect ≡ FlowEffect.conditional_jump) × (kind ≡ EdgeKind.conditional_true))

jump_kind-Along : (e : FlowEffect) (kind : EdgeKind) → jump_kind e ≡ some kind → Along e kind
unfolding jump_kind
jump_kind-Along FlowEffect.fallthrough kind h = absurd (cc (h))
jump_kind-Along FlowEffect.conditional_open kind h = absurd (cc (h))
jump_kind-Along FlowEffect.conditional_alternate kind h = absurd (cc (h))
jump_kind-Along FlowEffect.conditional_close kind h = absurd (cc (h))
jump_kind-Along FlowEffect.switch_open kind h = absurd (cc (h))
jump_kind-Along FlowEffect.switch_case kind h = absurd (cc (h))
jump_kind-Along FlowEffect.switch_close kind h = absurd (cc (h))
jump_kind-Along FlowEffect.loop_open kind h = absurd (cc (h))
jump_kind-Along FlowEffect.loop_close kind h = absurd (cc (h))
jump_kind-Along FlowEffect.break kind h = absurd (cc (h))
jump_kind-Along FlowEffect.conditional_break kind h = absurd (cc (h))
jump_kind-Along FlowEffect.continue kind h = absurd (cc (h))
jump_kind-Along FlowEffect.conditional_continue kind h = absurd (cc (h))
jump_kind-Along FlowEffect.return kind h = absurd (cc (h))
jump_kind-Along FlowEffect.conditional_return kind h = absurd (cc (h))
jump_kind-Along FlowEffect.call kind h = absurd (cc (h))
jump_kind-Along FlowEffect.conditional_call kind h = absurd (cc (h))
jump_kind-Along FlowEffect.terminate kind h = absurd (cc (h))
jump_kind-Along FlowEffect.label kind h = absurd (cc (h))
jump_kind-Along FlowEffect.declaration kind h = absurd (cc (h))
jump_kind-Along FlowEffect.jump kind h = inl (refl, sym (cc (h)))
jump_kind-Along FlowEffect.conditional_jump kind h = inr (refl, sym (cc (h)))
jump_kind-Along FlowEffect.indirect_jump kind h = absurd (cc (h))
jump_kind-Along FlowEffect.indirect_call kind h = absurd (cc (h))
jump_kind-Along FlowEffect.may_throw kind h = absurd (cc (h))

Along-jump_kind : (e : FlowEffect) (kind : EdgeKind) → Along e kind → jump_kind e ≡ some kind
unfolding jump_kind
Along-jump_kind e kind (inl (effect, k)) = rw (effect, k) refl
Along-jump_kind e kind (inr (effect, k)) = rw (effect, k) refl

last-some {ℓ} :
    {A : Type ℓ} (xs : List A) (x : A)
    → last xs ≡ some x
    → (front : List A) × (xs ≡ front ++ x ∷ [])
unfolding last
last-some [] x e = absurd (cc (e))
last-some (y ∷ []) x e = let same : y ≡ x = cc (e) in ([], ap (λ z. z ∷ []) same)
last-some (y ∷ z ∷ zs) x e =
    let (front, split) = last-some (z ∷ zs) x e in (y ∷ front, ap (◌∷◌ y) split)

last-append {ℓ} : {A : Type ℓ} (front : List A) (x : A) → last (front ++ x ∷ []) ≡ some x
unfolding last
last-append [] x = refl
last-append (y ∷ []) x = refl
last-append (y ∷ z ∷ zs) x = last-append (z ∷ zs) x

module _ {ℓ τ} {I : Type ℓ} {T : Type τ} (targets : JumpTargets I T) where
  -- The first instruction of a block is a label of the token `t`.
  abbrev Opens : List I → T → Type (ℓ ⊔ τ)
  Opens is t =
      (first : I) × (rest : List I) × (is ≡ first ∷ rest)
      × (targets.flow_effect first ≡ FlowEffect.label)
      × (targets.label first ≡ some t)

  -- The last instruction of a block is a jump to the token along this kind of edge.
  abbrev Closes : List I → EdgeKind → T → Type (ℓ ⊔ τ)
  Closes is kind token =
      (front : List I) × (inst : I) × (is ≡ front ++ inst ∷ [])
      × Along (targets.flow_effect inst) kind
      × (targets.jump_target inst ≡ some token)

  module _ {κ ω} {W : Type ω} {E : Type κ} (cfg : Cfg W I E) where
    -- The live block `u` opens with a label whose token is this one.
    abbrev pub Leads : T → ℕ → Type (ℓ ⊔ τ)
    Leads token u =
        (contains_node cfg.graph u ≡ true)
        × (b : BasicBlock I) × (t : T) × (Cfg.block cfg u ≡ ok b)
        × Opens b.instructions t
        × (targets.same token t ≡ true)

    -- The live block `v` closes with a jump to this token along this kind of edge.
    abbrev pub Jumps : ℕ → EdgeKind → T → Type (ℓ ⊔ τ)
    Jumps v kind token =
        (contains_node cfg.graph v ≡ true)
        × (b : BasicBlock I) × (Cfg.block cfg v ≡ ok b)
        × Closes b.instructions kind token

  label_of-Opens : (is : List I) (t : T) → label_of targets is ≡ some t → Opens is t
  unfolding label_of
  label_of-Opens [] t e = absurd (cc (e))
  label_of-Opens (i ∷ is) t e = elim (Bool-cases (is_label (targets.flow_effect i))) [
    | inl q ↦ (i, is, refl, is_label-label (targets.flow_effect i) q, rw q at e)
    | inr q ↦ absurd (cc (rw q at e))
  ]

  Opens-label_of : (is : List I) (t : T) → Opens is t → label_of targets is ≡ some t
  unfolding label_of is_label
  Opens-label_of is t (first, rest, split, effect, named) = rw (split, effect) named

  jump_of-Closes :
      (is : List I) (kind : EdgeKind) (token : T)
      → jump_of targets is ≡ some (kind, token)
      → Closes is kind token
  unfolding jump_of
  jump_of-Closes is kind token e = elim (Option-cases (last is)) [
    | inl z ↦ absurd (cc (rw (jump_of, z) at e))
    | inr (inst, z) ↦ elim (Option-cases (jump_kind (targets.flow_effect inst))) [
      | inl y ↦ absurd (cc (rw (jump_of, z, y) at e))
      | inr (k, y) ↦ elim (Option-cases (targets.jump_target inst)) [
        | inl x ↦ absurd (cc (rw (jump_of, z, y, x) at e))
        | inr (t, x) ↦
            let made : EdgeKind × T = (k, t) in
            let asked : EdgeKind × T = (kind, token) in
            let q : some made ≡ some asked = rw (jump_of, z, y, x) at e in
            let same : made ≡ asked = cc (q) in
            let kinds : k ≡ kind = ap (λ m. m.0) same in
            let tokens : t ≡ token = ap (λ m. m.1) same in
            let (front, split) = last-some is inst z in
            (
              front,
              inst,
              split,
              jump_kind-Along (targets.flow_effect inst) kind (y ∙ ap some kinds),
              x ∙ ap some tokens,
            )
      ]
    ]
  ]

  Closes-jump_of :
      (is : List I) (kind : EdgeKind) (token : T)
      → Closes is kind token
      → jump_of targets is ≡ some (kind, token)
  unfolding jump_of
  Closes-jump_of is kind token (front, inst, split, effect, to) =
      let kinds = Along-jump_kind (targets.flow_effect inst) kind effect in
      let found = ap last split ∙ last-append front inst in rw (jump_of, found, kinds, to) refl

  module _ {κ ω} {W : Type ω} {E : Type κ} (cfg : Cfg W I E) where
    -- The labels that the code finds are the labels.
    pub Labelled-Leads :
        (token : T) (u : ℕ)
        → Labelled targets cfg (contains_node cfg.graph) token u ↔ Leads cfg token u
    Labelled-Leads token u = (
      λ (live, b, t, found, named, hit).
          (live, b, t, found, label_of-Opens b.instructions t named, hit),
      λ (live, b, t, found, opens, hit).
          (live, b, t, found, Opens-label_of b.instructions t opens, hit),
    )

    -- The jumps that the code finds are the jumps.
    pub Ends-Jumps :
        (v : ℕ) (kind : EdgeKind) (token : T)
        → Ends targets cfg (contains_node cfg.graph) v kind token ↔ Jumps cfg v kind token
    Ends-Jumps v kind token = (
      λ (live, b, found, jumps). (live, b, found, jump_of-Closes b.instructions kind token jumps),
      λ (live, b, found, closes). (live, b, found, Closes-jump_of b.instructions kind token closes),
    )

-- ===== src/Relax/Pushed.antt =====
-- What one expansion of crates/cfglib/src/graph/relax.rs pushes: the candidates over the edges of a node.
use cfglib.Prelude.{
  In, In-later, In-cases, ℕ, zero, suc, ◌+◌, ◌≤◌, ◌≡◌, ◌⊎◌, refl, ap, subst, inl, inr, List, [],
  ◌∷◌, length, Option, none, some, ok, arith, Option-cases, >>=-eq-ok,
}
use cfglib.Store.Chains.{Direction}
use cfglib.Store.Graph.{Graph, EdgeRecord, edge}
use cfglib.Store.Listing.{traverse}
use cfglib.Relax.{far, push_candidate, push_candidates}

module _ {κ ω} {E : Type κ} {L : Type ω} (relax : EdgeRecord E → L → Option L) (dir : Direction)
    (label : L) where
  -- The worklist after the candidates over these edges.
  pub pushed : List (EdgeRecord E) → List (ℕ × L) → List (ℕ × L)
  pushed [] ws = ws
  pushed (r ∷ rs) ws = pushed rs (push_candidate relax dir label r ws)

  -- An entry that an edge makes.
  abbrev pub Made : EdgeRecord E → ℕ × L → Type ω
  Made r (v, c) = (relax r label ≡ some c) × (far dir r ≡ v)

  push_candidate-cases :
      (r : EdgeRecord E) (ws : List (ℕ × L))
      → (relax r label ≡ none) × (push_candidate relax dir label r ws ≡ ws)
        ⊎ ((c : L) × (relax r label ≡ some c)
            × (push_candidate relax dir label r ws ≡ (far dir r, c) ∷ ws))
  unfolding push_candidate
  push_candidate-cases r ws = elim (Option-cases (relax r label)) [
    | inl none_ ↦ inl (none_, rw (none_, push_candidate) refl)
    | inr (c, some_) ↦ inr (c, some_, rw (some_, push_candidate) refl)
  ]

  pub pushed-kept :
      (rs : List (EdgeRecord E)) (ws : List (ℕ × L)) (w : ℕ × L) → In w ws → In w (pushed rs ws)
  unfolding pushed
  pushed-kept [] ws w h = h
  pushed-kept (r ∷ rs) ws w h = elim (push_candidate-cases r ws) [
    | inl (_, same) ↦ rw same (pushed-kept rs ws w h)
    | inr (c, _, more) ↦ rw more (pushed-kept rs ((far dir r, c) ∷ ws) w (In-later w _ ws h))
  ]

  pub pushed-made :
      (rs : List (EdgeRecord E)) (ws : List (ℕ × L)) (r : EdgeRecord E) (c : L)
      → In r rs
      → relax r label ≡ some c
      → In (far dir r, c) (pushed rs ws)
  unfolding pushed
  pushed-made [] ws r c (k, at) made = absurd (cc (at))
  pushed-made (q ∷ rs) ws r c (suc k, at) made =
      pushed-made rs (push_candidate relax dir label q ws) r c (k, at) made
  pushed-made (q ∷ rs) ws r c (zero, at) made =
      let same : q ≡ r = cc (at) in
      elim (push_candidate-cases q ws) [
        | inl (none_, _) ↦ absurd (cc (none_, made, ap (λ q. relax q label) same))
        | inr (c', some_, more) ↦
            let c_same : c' ≡ c = cc (some_, made, ap (λ q. relax q label) same) in
            rw more (
              pushed-kept rs ((far dir q, c') ∷ ws) (far dir r, c)
                (zero, ap some (cc (c_same, ap (far dir) same))))
      ]

  pub pushed-cases :
      (rs : List (EdgeRecord E)) (ws : List (ℕ × L)) (w : ℕ × L)
      → In w (pushed rs ws)
      → In w ws ⊎ ((r : EdgeRecord E) × In r rs × Made r w)
  unfolding pushed
  pushed-cases [] ws w h = inl h
  pushed-cases (r ∷ rs) ws w h = elim (push_candidate-cases r ws) [
    | inl (_, same) ↦ elim (pushed-cases rs ws w (rw same at h)) [
      | inl old ↦ inl old
      | inr (q, in_, made) ↦ inr (q, In-later q r rs in_, made)
    ]
    | inr (c, some_, more) ↦ elim (pushed-cases rs ((far dir r, c) ∷ ws) w (rw more at h)) [
      | inr (q, in_, made) ↦ inr (q, In-later q r rs in_, made)
      | inl old ↦ elim (In-cases w (far dir r, c) ws old) [
        | inr older ↦ inl older
        | inl new ↦ inr (r, (zero, refl), subst (Made r) new (some_, refl))
      ]
    ]
  ]

  pub length-pushed :
      (rs : List (EdgeRecord E)) (ws : List (ℕ × L)) → length (pushed rs ws) ≤ length ws + length rs
  unfolding pushed
  length-pushed [] ws = omega arith
  length-pushed (r ∷ rs) ws =
      let rest = length-pushed rs (push_candidate relax dir label r ws) in
      elim (push_candidate-cases r ws) [
        | inl (_, same) ↦ omega (arith, rest, ap length same)
        | inr (c, _, more) ↦ omega (arith, rest, ap length more)
      ]

pub push_candidates-pushed {ℓ κ ω} :
    {N : Type ℓ} {E : Type κ} {L : Type ω} (relax : EdgeRecord E → L → Option L) (g : Graph N E)
    (dir : Direction) (label : L) (es : List ℕ) (rs : List (EdgeRecord E)) (ws : List (ℕ × L))
    → traverse (edge g) es ≡ ok rs
    → push_candidates relax g dir label es ws ≡ ok (pushed relax dir label rs ws)
unfolding push_candidates pushed
push_candidates-pushed relax g dir label [] rs ws run =
    let same : [] ≡ rs = cc (run) in rw (← same) refl
push_candidates-pushed relax g dir label (e ∷ es) rs ws run =
    let (r, at, rest) = >>=-eq-ok (edge g e) _ run in
    let (qs, run', done) = >>=-eq-ok (traverse (edge g) es) _ rest in
    let same : r ∷ qs ≡ rs = cc (done) in
    rw (at, ← same) (push_candidates-pushed relax g dir label es qs _ run')

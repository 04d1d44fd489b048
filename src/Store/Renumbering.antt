-- ===== src/Store/Renumbering.antt =====
-- `Renumbering` of crates/cfglib/src/graph/store/renumbering.rs: for every old slot its new number, or
-- `NONE` for a slot that did not survive.
use mathlib.Core.Option
use cfglib.Prelude.{
  ℕ, zero, suc, ◌+◌, ◌^◌, ◌<◌, ◌≤◌, ◌≡◌, refl, ◌∙◌, ap, ◌↔◌, List, [], ◌∷◌, map, Bool, true, ◌&&◌,
  length, get_elem?, ltb, ◌==◌, if◌then◌else◌, Option, none, some, arith, Bool-cases, Option-cases,
  inl, inr, get_elem?-map,
}
use cfglib.Store.Chains.{no_link}

pub record Renumbering : Type 0 where
  pub nodes : List ℕ
  pub edges : List ℕ

-- A stored number as an identity.
unfoldable pub identity : ℕ → Option ℕ
identity new = if new == no_link then none else some new

unfoldable pub translate : List ℕ → ℕ → Option ℕ
translate mapping old = Option.bind (get_elem? mapping old) identity

-- The closure of `compose_axis`.
unfoldable pub follow : List ℕ → ℕ → ℕ
follow second intermediate =
    if intermediate == no_link
    then no_link
    else Option.get_or (get_elem? second intermediate) no_link

unfoldable pub compose_axis : List ℕ → List ℕ → List ℕ
compose_axis first second = map (follow second) first

-- Whether the entries are the numbers from `old` on.
abbrev pub is_identity_from : ℕ → List ℕ → Bool
is_identity_from old [] = true
is_identity_from old (new ∷ mapping) =
    (ltb old (2 ^ 32) && (old == new)) && is_identity_from (suc old) mapping

unfoldable pub is_identity_axis : List ℕ → Bool
is_identity_axis mapping = is_identity_from 0 mapping

unfoldable pub node : Renumbering → ℕ → Option ℕ
node r old = translate r.nodes old

unfoldable pub edge : Renumbering → ℕ → Option ℕ
edge r old = translate r.edges old

unfoldable pub node_bound : Renumbering → ℕ
node_bound r = length r.nodes

unfoldable pub edge_bound : Renumbering → ℕ
edge_bound r = length r.edges

unfoldable pub compose : Renumbering → Renumbering → Renumbering
compose r later = record {
  nodes = compose_axis r.nodes later.nodes;
  edges = compose_axis r.edges later.edges;
}

unfoldable pub is_identity : Renumbering → Bool
is_identity r = is_identity_axis r.nodes && is_identity_axis r.edges

identity-follow :
    (second : List ℕ) (i : ℕ)
    → identity (follow second i) ≡ Option.bind (identity i) (translate second)
unfolding identity follow translate Option.bind
identity-follow second i = elim (Bool-cases (i == no_link)) [
  | inl p ↦ rw p
  | inr p ↦ elim (Option-cases (get_elem? second i)) [
    | inl absent ↦ rw (p, absent)
    | inr (j, found) ↦ rw (p, found)
  ]
]

translate-compose_axis :
    (first second : List ℕ) (old : ℕ)
    → translate (compose_axis first second) old
      ≡ Option.bind (translate first old) (translate second)
unfolding translate compose_axis Option.bind
translate-compose_axis first second old = elim (Option-cases (get_elem? first old)) [
  | inl absent ↦ rw (get_elem?-map (follow second) first old, absent)
  | inr (i, found) ↦ rw (get_elem?-map (follow second) first old, found) (identity-follow second i)
]

-- Looking an identity up in `compose r later` is looking it up in `r` and the result, if there is
-- one, in `later`, for nodes and for edges.
node-compose :
    (r later : Renumbering) (old : ℕ)
    → (node (compose r later) old ≡ Option.bind (node r old) (node later))
      × (edge (compose r later) old ≡ Option.bind (edge r old) (edge later))
unfolding node edge compose
node-compose r later old =
    (translate-compose_axis r.nodes later.nodes old, translate-compose_axis r.edges later.edges old)

follow-follow :
    (second third : List ℕ) (i : ℕ)
    → follow (compose_axis second third) i ≡ follow third (follow second i)
unfolding follow compose_axis
follow-follow second third i = elim (Bool-cases (i == no_link)) [
  | inl p ↦ rw p
  | inr p ↦ elim (Option-cases (get_elem? second i)) [
    | inl absent ↦ rw (p, get_elem?-map (follow third) second i, absent)
    | inr (j, found) ↦ rw (p, get_elem?-map (follow third) second i, found)
  ]
]

compose_axis_assoc :
    (first second third : List ℕ)
    → compose_axis (compose_axis first second) third
      ≡ compose_axis first (compose_axis second third)
unfolding compose_axis
compose_axis_assoc [] second third = refl
compose_axis_assoc (i ∷ is) second third =
    rw (follow-follow second third i, compose_axis_assoc is second third)

-- Composition is associative: folding three compactions in either order gives one renumbering.
pub compose_assoc : (r s t : Renumbering) → compose (compose r s) t ≡ compose r (compose s t)
unfolding compose
compose_assoc r s t =
    rw (compose_axis_assoc r.nodes s.nodes t.nodes, compose_axis_assoc r.edges s.edges t.edges)

is_identity_from→ :
    (k : ℕ) (xs : List ℕ)
    → is_identity_from k xs ≡ true
    → (i : ℕ) → i < length xs
    → get_elem? xs i ≡ some (k + i)
is_identity_from→ k [] e i h = absurd (omega arith)
is_identity_from→ k (x ∷ xs) e zero h = ground arith
is_identity_from→ k (x ∷ xs) e (suc i) h =
    is_identity_from→ (suc k) xs (ground (arith, e)) i (omega arith) ∙ ap some (omega arith)

is_identity_from← :
    (k : ℕ) (xs : List ℕ)
    → k + length xs ≤ no_link
    → ((i : ℕ) → i < length xs → get_elem? xs i ≡ some (k + i))
    → is_identity_from k xs ≡ true
is_identity_from← k [] room same = refl
is_identity_from← k (x ∷ xs) room same =
    let first : some x ≡ some (k + 0) = same 0 (omega arith) in
    let rest =
      is_identity_from← (suc k) xs (omega arith)
        (λ i h. same (suc i) (omega arith) ∙ ap some (omega arith)) in
    ground (arith, first, rest)

translate-present :
    (mapping : List ℕ) (i : ℕ)
    → i < no_link
    → (translate mapping i ≡ some i) ↔ (get_elem? mapping i ≡ some i)
unfolding translate identity Option.bind
translate-present mapping i h = elim (Option-cases (get_elem? mapping i)) [
  | inl absent ↦ rw absent (λ e. e, λ e. e)
  | inr (j, found) ↦ rw found (ground arith)
]

-- For an axis of an addressable size, `is_identity_axis` holds exactly when every covered slot
-- survived under its old number.
is_identity_axis_iff :
    (mapping : List ℕ)
    → length mapping ≤ no_link
    → (is_identity_axis mapping ≡ true)
      ↔ ((old : ℕ) → old < length mapping → translate mapping old ≡ some old)
unfolding is_identity_axis
is_identity_axis_iff mapping room = (
  λ e old h.
      (translate-present mapping old (omega arith)).1
        (is_identity_from→ 0 mapping e old h ∙ ap some (omega arith)),
  λ same. is_identity_from← 0 mapping (omega arith) (λ old h.
      (translate-present mapping old (omega arith)).0 (same old h) ∙ ap some (omega arith)),
)

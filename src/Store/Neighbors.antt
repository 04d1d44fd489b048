-- ===== src/Store/Neighbors.antt =====
-- The live edges at a node of a store, and their other ends, as the walks of
-- crates/cfglib/src/graph/store/adjacency.rs return them.
use cfglib.Prelude.{
  In, In-later, In-cases, ℕ, ◌<◌, ◌≡◌, ◌↔◌, refl, sym, ◌∙◌, ap, inl, inr, List, [], ◌∷◌, true, ◌==◌,
  get_elem?, elem, elem_later, some, Result, ok, ◌>>=◌, arith, Bool-cases, ==→≡, ≡→==,
}
use cfglib.Store.Chains.{Direction, outgoing, incoming}
use cfglib.Store.Graph.{Graph, EdgeRecord, node_bound, contains_node, contains_edge, edge, records}
use cfglib.Store.Walk.{edges_out, edges_in, adjacent_edges}
use cfglib.Store.Walk.Steps.{select}
use cfglib.Store.Walk.Member.{member}
use cfglib.Store.Invariant.{IsStore, endpoint}
use cfglib.Store.Adjacent.{incident, adjacent_edges-IsStore}
use cfglib.Store.Isolate.{member-incident}
use cfglib.Store.Ends.{LiveEnds, touches-endpoint}
use cfglib.Store.Found.{record-found}
use cfglib.Store.Listing.{successors, predecessors, traverse}

abbrev pub opposite : Direction → Direction
opposite outgoing = incoming
opposite incoming = outgoing

module _ {ℓ κ} {N : Type ℓ} {E : Type κ} where
  -- A live edge of the store with `v` at one end and `m` at the other.
  abbrev pub Joins : Graph N E → Direction → ℕ → ℕ → Type κ
  Joins g dir v m =
      (e : ℕ) × (r : EdgeRecord E) × (get_elem? (records g) e ≡ some r)
      × (contains_edge g e ≡ true)
      × (endpoint dir r ≡ v)
      × (endpoint (opposite dir) r ≡ m)

  -- An edge that a walk returns: its record is there, and it is live and at the node.
  abbrev pub Found : Graph N E → Direction → ℕ → ℕ → Type κ
  Found g dir v e =
      (r : EdgeRecord E) × (edge g e ≡ ok r)
      × (get_elem? (records g) e ≡ some r)
      × (contains_edge g e ≡ true)
      × (endpoint dir r ≡ v)

  pub walked-Found :
      (g : Graph N E) (dir : Direction) (v e : ℕ)
      → member e (select (contains_edge g) (incident g dir v)) ≡ true
      → Found g dir v e
  walked-Found g dir v e h =
      let both = sym (member-incident g dir v e) ∙ h in
      let live : contains_edge g e ≡ true = ground (arith, both) in
      let (r, run, at) = record-found g e live in
      (
        r,
        run,
        at,
        live,
        ==→≡ (endpoint dir r) v (sym (touches-endpoint g dir v e r at) ∙ ground (arith, both)),
      )

  -- The far ends of a list of such edges.
  abbrev Reads : Graph N E → Direction → List ℕ → List ℕ → Type κ
  Reads g dir es xs =
      (m : ℕ)
      → (elem m xs ≡ true) ↔ (
          (e : ℕ) × (r : EdgeRecord E) × (member e es ≡ true)
          × (get_elem? (records g) e ≡ some r)
          × (endpoint (opposite dir) r ≡ m))

  far_ends :
      (g : Graph N E) (dir : Direction) (v : ℕ) (es : List ℕ)
      → ((e : ℕ) → member e es ≡ true → Found g dir v e)
      → (xs : List ℕ) × (traverse (λ e. edge g e >>= λ r. ok (endpoint (opposite dir) r)) es
          ≡ ok xs)
        × Reads g dir es xs
  far_ends g dir v [] found =
      ([], refl, λ m. (λ h. absurd (cc (h)), λ (e, r, h, _, _). absurd (cc (h))))
  far_ends g dir v (e ∷ es) found =
      let (r, run, at, _, _) = found e (rw (≡→== e e refl) refl) in
      let (xs, rest, reads) = far_ends g dir v es (λ e' h. found e' (ground (arith, h))) in
      let x = endpoint (opposite dir) r in
      (
        x ∷ xs,
        rw (run, rest) refl,
        λ m. (
          λ h. elim (Bool-cases (x == m)) [
            | inl same ↦ (e, r, rw (≡→== e e refl) refl, at, ==→≡ x m same)
            | inr other ↦
                let (e', r', in_, at', far') = (reads m).0 (rw other at h) in
                (e', r', ground (arith, in_), at', far')
          ],
          λ (e', r', in_, at', far'). elim (Bool-cases (e == e')) [
            | inl same ↦
                let q : r ≡ r' = cc (at, at', ap (get_elem? (records g)) (==→≡ e e' same)) in
                rw (≡→== x m (ap (endpoint (opposite dir)) q ∙ far')) refl
            | inr other ↦ elem_later m x xs ((reads m).1 (e', r', rw other at in_, at', far'))
          ],
        ),
      )

  unfoldable pub neighbors_in : Graph N E → Direction → ℕ → Result (List ℕ)
  neighbors_in g dir v =
      adjacent_edges g v dir >>= traverse (λ e. edge g e >>= λ r. ok (endpoint (opposite dir) r))

  pub neighbors_in-Joins :
      (g : Graph N E) (dir : Direction) (v : ℕ)
      → IsStore g
      → LiveEnds g
      → v < node_bound g
      → (xs : List ℕ) × (neighbors_in g dir v ≡ ok xs)
        × ((m : ℕ) → (elem m xs ≡ true) ↔ Joins g dir v m)
  unfolding neighbors_in
  neighbors_in-Joins g dir v w ends h = elim (Bool-cases (contains_node g v)) [
    | inr dead ↦ (
      [],
      rw (rw dead at (adjacent_edges-IsStore g dir v w h)) refl,
      λ m. (
        λ k. absurd (cc (k)),
        λ (e, r, at, live, near, _).
            absurd (cc (dead, ends e r at live dir, ap (contains_node g) near)),
      ),
    )
    | inl alive ↦
        let es = select (contains_edge g) (incident g dir v) in
        let (xs, run, reads) = far_ends g dir v es (walked-Found g dir v) in
        (
          xs,
          rw (rw alive at (adjacent_edges-IsStore g dir v w h)) run,
          λ m. (
            λ k.
                let (e, r, in_, at, far) = (reads m).0 k in
                let (r', _, at', live, near) = walked-Found g dir v e in_ in
                let same : r' ≡ r = cc (at, at') in
                (e, r, at, live, sym (ap (endpoint dir) same) ∙ near, far),
            λ (e, r, at, live, near, far).
                let there = touches-endpoint g dir v e r at ∙ ≡→== (endpoint dir r) v near in
                (reads m).1 (e, r, member-incident g dir v e ∙ rw (there, live) refl, at, far),
          ),
        )
  ]

  neighbors_in-successors :
      (g : Graph N E) (v : ℕ)
      → (successors g v ≡ neighbors_in g outgoing v)
        × (predecessors g v ≡ neighbors_in g incoming v)
  unfolding neighbors_in successors predecessors edges_out edges_in
  neighbors_in-successors g v = (refl, refl)

  -- A live edge at a node.
  abbrev pub At : Graph N E → Direction → ℕ → EdgeRecord E → Type κ
  At g dir v r =
      (e : ℕ) × (get_elem? (records g) e ≡ some r)
      × (contains_edge g e ≡ true)
      × (endpoint dir r ≡ v)

  read_all :
      (g : Graph N E) (dir : Direction) (v : ℕ) (es : List ℕ)
      → ((e : ℕ) → member e es ≡ true → Found g dir v e)
      → (rs : List (EdgeRecord E)) × (traverse (edge g) es ≡ ok rs)
        × ((r : EdgeRecord E)
            → In r rs ↔ ((e : ℕ) × (member e es ≡ true) × (get_elem? (records g) e ≡ some r)))
  read_all g dir v [] found =
      ([], refl, λ r. (λ (k, at). absurd (cc (at)), λ (e, h, _). absurd (cc (h))))
  read_all g dir v (e ∷ es) found =
      let (r, run, at, _, _) = found e (rw (≡→== e e refl) refl) in
      let (rs, rest, reads) = read_all g dir v es (λ e' h. found e' (ground (arith, h))) in
      (
        r ∷ rs,
        rw (run, rest) refl,
        λ q. (
          λ h. elim (In-cases q r rs h) [
            | inl same ↦ (e, rw (≡→== e e refl) refl, at ∙ ap some same)
            | inr later ↦ let (e', in_, at') = (reads q).0 later in (e', ground (arith, in_), at')
          ],
          λ (e', in_, at'). elim (Bool-cases (e == e')) [
            | inl same ↦ (0, ap some (cc (at, at', ap (get_elem? (records g)) (==→≡ e e' same))))
            | inr other ↦ In-later q r rs ((reads q).1 (e', rw other at in_, at'))
          ],
        ),
      )

  -- The edges that a walk at a node slot returns can all be read, and are the live edges at the node.
  pub walk-At :
      (g : Graph N E) (dir : Direction) (v : ℕ)
      → IsStore g
      → LiveEnds g
      → v < node_bound g
      → (es : List ℕ) × (rs : List (EdgeRecord E)) × (adjacent_edges g v dir ≡ ok es)
        × (traverse (edge g) es ≡ ok rs)
        × ((r : EdgeRecord E) → In r rs ↔ At g dir v r)
  walk-At g dir v w ends h = elim (Bool-cases (contains_node g v)) [
    | inr dead ↦ (
      [],
      [],
      rw dead at (adjacent_edges-IsStore g dir v w h),
      refl,
      λ r. (
        λ (k, at). absurd (cc (at)),
        λ (e, at, live, near). absurd (cc (dead, ends e r at live dir, ap (contains_node g) near)),
      ),
    )
    | inl alive ↦
        let es = select (contains_edge g) (incident g dir v) in
        let (rs, run, reads) = read_all g dir v es (walked-Found g dir v) in
        (
          es,
          rs,
          rw alive at (adjacent_edges-IsStore g dir v w h),
          run,
          λ r. (
            λ k.
                let (e, in_, at) = (reads r).0 k in
                let (r', _, at', live, near) = walked-Found g dir v e in_ in
                let same : r' ≡ r = cc (at, at') in
                (e, at, live, sym (ap (endpoint dir) same) ∙ near),
            λ (e, at, live, near).
                let there = touches-endpoint g dir v e r at ∙ ≡→== (endpoint dir r) v near in
                (reads r).1 (e, member-incident g dir v e ∙ rw (there, live) refl, at),
          ),
        )
  ]

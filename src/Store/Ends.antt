-- ===== src/Store/Ends.antt =====
-- No live edge of a store of crates/cfglib/src/graph/store.rs hangs: both of its ends are live nodes.
use mathlib.Core.Option
use cfglib.Prelude.{
  ℕ, zero, suc, ◌<◌, ◌≡◌, refl, sym, ◌∙◌, ap, subst, inl, inr, List, [], ◌∷◌, ◌++◌, Bool, true,
  false, ◌&&◌, ◌||◌, ◌==◌, length, get_elem?, if◌then◌else◌, Option, none, some, ok, arith,
  Bool-cases, ==→≡, ≡→==, get_elem?-map, ◌⊎◌, length-append, lt_of_get_elem?, ≢→==,
}
use cfglib.Store.Chains.{Direction, outgoing, incoming, max_slots}
use cfglib.Store.Graph.{
  Graph, EdgeRecord, contains_node, contains_edge, records, edge_bound, add_edge,
}
use cfglib.Store.Walk.{remove_node}
use cfglib.Store.Invariant.{IsStore, endpoint}
use cfglib.Store.Append.{edge_record, add_edge-IsStore}
use cfglib.Store.Isolate.{touches, remove_node-IsStore}

kept_live : (b c : Bool) → (if b then false else c) ≡ true → (b ≡ false) × (c ≡ true)
kept_live true c h = absurd (cc)
kept_live false c h = (refl, h)

get_elem?-append_cases {ℓ} :
    {A : Type ℓ} (xs : List A) (x : A) (i : ℕ) {w : A}
    → get_elem? (xs ++ x ∷ []) i ≡ some w
    → (get_elem? xs i ≡ some w) ⊎ (w ≡ x)
get_elem?-append_cases [] x zero e = inr (cc)
get_elem?-append_cases [] x (suc i) e = absurd (cc)
get_elem?-append_cases (y ∷ xs) x zero e = inl e
get_elem?-append_cases (y ∷ xs) x (suc i) e = get_elem?-append_cases xs x i e

module _ {ℓ κ} {N : Type ℓ} {E : Type κ} where
  abbrev pub LiveEnds : Graph N E → Type κ
  LiveEnds g =
      (e : ℕ) (r : EdgeRecord E)
      → get_elem? (records g) e ≡ some r
      → contains_edge g e ≡ true
      → (dir : Direction) → contains_node g (endpoint dir r) ≡ true

  -- The records and the live edges stay, and no live node goes.
  pub LiveEnds-frame :
      (g g' : Graph N E)
      → records g' ≡ records g
      → ((e : ℕ) → contains_edge g' e ≡ contains_edge g e)
      → ((v : ℕ) → contains_node g v ≡ true → contains_node g' v ≡ true)
      → LiveEnds g
      → LiveEnds g'
  LiveEnds-frame g g' kept edges nodes ends e r at live dir =
      nodes (endpoint dir r)
        (ends e r (subst (λ rs. get_elem? rs e ≡ some r) kept at) (sym (edges e) ∙ live) dir)

  pub touches-endpoint :
      (g : Graph N E) (dir : Direction) (v e : ℕ) (r : EdgeRecord E)
      → get_elem? (records g) e ≡ some r
      → touches g dir v e ≡ (endpoint dir r == v)
  touches-endpoint g dir v e r at =
      ap (λ (o : Option ℕ). elim o [ none ↦ false | some t ↦ t == v ])
        (get_elem?-map (endpoint dir) (records g) e ∙ ap (Option.map (endpoint dir)) at)

  touched :
      (g : Graph N E) (dir : Direction) (v e : ℕ)
      → touches g dir v e ≡ true
      → (touches g outgoing v e || touches g incoming v e) ≡ true
  touched g outgoing v e h = rw h
  touched g incoming v e h = elim (Bool-cases (touches g outgoing v e)) [
    | inl p ↦ rw p
    | inr p ↦ rw (p, h)
  ]

  -- On a well-formed store in which both ends of every live edge are live, `remove_node`
  -- returns a store of which that holds again.
  pub remove_node-LiveEnds :
      (g : Graph N E) (v : ℕ)
      → IsStore g
      → LiveEnds g
      → (g' : Graph N E) × (remove_node g v ≡ ok (g', contains_node g v)) × LiveEnds g'
  remove_node-LiveEnds g v w ends =
      let (g', run, _, kept, nodes, edges) = remove_node-IsStore g v w in
      (
        g',
        run,
        λ e r at live dir.
            let at' = subst (λ rs. get_elem? rs e ≡ some r) kept at in
            let (free, before) =
              kept_live (contains_node g v && (touches g outgoing v e || touches g incoming v e))
                (contains_edge g e) (sym (edges e) ∙ live) in
            let alive = ends e r at' before dir in
            nodes (endpoint dir r) ∙ elim (Bool-cases (v == endpoint dir r)) [
              | inl q ↦
                  let same = ==→≡ v (endpoint dir r) q in
                  let hit =
                    touched g dir v e
                      (touches-endpoint g dir v e r at' ∙ ≡→== (endpoint dir r) v (sym same)) in
                  absurd
                    (cc (rw (subst (λ u. contains_node g u ≡ true) (sym same) alive, hit) at free))
              | inr q ↦ rw q alive
            ],
      )

  pub records_size : (g : Graph N E) → length (records g) ≡ edge_bound g
  unfolding edge_bound
  records_size g = length-append g.base_edges g.delta_edges

  new_ends :
      (g : Graph N E) (source target : ℕ) (payload : E)
      → contains_node g source ≡ true
      → contains_node g target ≡ true
      → (dir : Direction)
      → contains_node g (endpoint dir (edge_record source target payload)) ≡ true
  new_ends g source target payload ls lt outgoing = ls
  new_ends g source target payload ls lt incoming = lt

  -- On a well-formed store in which both ends of every live edge are live, `add_edge` between live
  -- nodes, with a slot left, returns a store of which that holds again.
  pub add_edge-LiveEnds :
      (g : Graph N E) (source target : ℕ) (payload : E)
      → IsStore g
      → LiveEnds g
      → contains_node g source ≡ true
      → contains_node g target ≡ true
      → edge_bound g < max_slots
      → (g' : Graph N E) × (add_edge g source target payload ≡ ok (g', edge_bound g)) × LiveEnds g'
  add_edge-LiveEnds g source target payload w ends ls lt room =
      let new = edge_record source target payload in
      let (g', run, _, kept, edges, nodes) =
        add_edge-IsStore g source target payload w ls lt room in
      (
        g',
        run,
        λ e r at live dir.
            nodes (endpoint dir r)
            ∙ elim (get_elem?-append_cases (records g) new e
                (subst (λ rs. get_elem? rs e ≡ some r) kept at)) [
                  | inl old ↦
                      let inside = lt_of_get_elem? (records g) e old in
                      let other =
                        ≢→== e (edge_bound g) (λ q. omega (arith, inside, records_size g)) in
                      ends e r old (rw other at (sym (edges e) ∙ live)) dir
                  | inr same ↦
                      subst (λ s. contains_node g (endpoint dir s) ≡ true) (sym same)
                        (new_ends g source target payload ls lt dir)
                ],
      )

-- ===== src/Store/Drain.antt =====
-- `drain_into` of crates/cfglib/src/graph/store/adjacency.rs: a chain moves onto the end of a run. The
-- loop is given one step for each delta edge.
use mathlib.Core.Option
use mathlib.Core.List.{append_assoc, append-nil}
use cfglib.Prelude.{
  ℕ, zero, suc, ◌+◌, ◌<◌, ◌≤◌, ◌≡◌, ◌≢◌, refl, sym, ◌∙◌, ap, inl, inr, List, [], ◌∷◌, ◌++◌, map,
  ◌==◌, length, get_elem?, if◌then◌else◌, Option, none, some, Result, ok, out_of_fuel, ◌>>=◌, read,
  arith, Bool-cases, Option-cases, ≢→==, ≡→==, get_elem?-set_self, get_elem?-set_ne,
  lt_of_get_elem?,
}
use cfglib.Store.LiveSet.{LiveSet}
use cfglib.Store.Chains.{DeltaChains, Direction, no_link, link, with_link, ends, detach_node}
use cfglib.Store.Chains.Ring.{owned, final, Walks, Walks-final}
use cfglib.Store.Chains.Thread.{link_at, or_none, last_of, IsRing, IsThreaded, link-with_link}
use cfglib.Store.Walk.{passes}
use cfglib.Store.Walk.Steps.{select}
use cfglib.Store.Walk.Start.{ends-absent, ends-ring, length-owned}

module _ (c : DeltaChains) (dir : Direction) (delta_base : ℕ) (live : Option LiveSet) where
  unfoldable pub drain_loop : ℕ → ℕ → ℕ → List ℕ → Result (List ℕ)
  drain_loop zero last delta run = out_of_fuel
  drain_loop (suc fuel) last delta run =
      let edge = delta_base + delta in
      let run = if passes live edge then run ++ edge ∷ [] else run in
      let rest = read c.next delta >>= λ links. drain_loop fuel last (link links dir) run in
      if delta == last then ok run else rest

  -- Returns the chains and the run.
  unfoldable pub drain_into : ℕ → List ℕ → Result (DeltaChains × List ℕ)
  drain_into node run = do
    found ← ends c node dir
    elim found [
      | none ↦ ok (c, run)
      | some (first, last) ↦
          (drain_loop (length c.next) last first run >>= λ run. ok (detach_node c node dir, run))
    ]

  drain_step :
      (d : ℕ) (ds run : List ℕ)
      → (if passes live (delta_base + d) then run ++ (delta_base + d) ∷ [] else run)
          ++ select (passes live) (map (◌+◌ delta_base) ds)
        ≡ run ++ select (passes live) (map (◌+◌ delta_base) (d ∷ ds))
  drain_step d ds run = elim (Bool-cases (passes live (delta_base + d))) [
    | inl p ↦
        rw p (
          append_assoc run ((delta_base + d) ∷ []) (select (passes live) (map (◌+◌ delta_base) ds)))
    | inr p ↦ rw p
  ]

  drain_loop-Walks :
      (owner : ℕ → Option ℕ) (v first last fuel d : ℕ) (ds run : List ℕ)
      → last ≡ final d ds
      → Walks (link_at c.next dir) owner v first d ds
      → length ds < fuel
      → drain_loop fuel last d run
        ≡ ok (run ++ select (passes live) (map (◌+◌ delta_base) (d ∷ ds)))
  unfolding drain_loop
  drain_loop-Walks owner v first last zero d ds run l w h = absurd (omega arith)
  drain_loop-Walks owner v first last (suc fuel) d [] run l w h =
      rw (≡→== d last (sym l)) (ap ok (sym (append-nil _) ∙ drain_step d [] run))
  drain_loop-Walks owner v first last (suc fuel) d (x ∷ ds) run l w h =
      let (le, _, _) = Walks-final (link_at c.next dir) owner v first x ds w.3 in
      let grown = if passes live (delta_base + d) then run ++ (delta_base + d) ∷ [] else run in
      let rest = drain_loop-Walks owner v first last fuel x ds grown l w.3 (omega arith) in
      elim (Option-cases (get_elem? c.next d)) [
        | inl absent ↦ absurd (cc (rw absent at w.1))
        | inr (links, at) ↦
            let step : link links dir ≡ x = ground (arith, rw at at w.1) in
            rw (≢→== d last (λ q. omega arith), at, step) (rest ∙ ap ok (drain_step d (x ∷ ds) run))
      ]

  -- Detaching empties that chain of that node and leaves every other chain as it was.
  detach_node-last :
      (node : ℕ)
      → (last_of (detach_node c node dir) dir node ≡ no_link)
        × ((v : ℕ) (d : Direction)
            → v ≢ node
            → last_of (detach_node c node dir) d v ≡ last_of c d v)
  unfolding detach_node
  detach_node-last node = elim (Option-cases (get_elem? c.last node)) [
    | inl absent ↦ rw (detach_node, absent) ((rw absent, λ v d n. refl))
    | inr (l, at) ↦
        let new = with_link l dir no_link in
        let here = get_elem?-set_self c.last node new (lt_of_get_elem? c.last node at) in
        rw (detach_node, at)
          ((
            rw here (link-with_link l dir no_link),
            λ v d n.
                ap (λ o. or_none (Option.map (λ k. link k d) o))
                  (get_elem?-set_ne c.last node v new (λ q. n (sym q))),
          ))
  ]

  detach_node-next : (node : ℕ) → (detach_node c node dir).next ≡ c.next
  unfolding detach_node
  detach_node-next node = elim (Option-cases (get_elem? c.last node)) [
    | inl absent ↦ rw (detach_node, absent)
    | inr (l, at) ↦ rw (detach_node, at)
  ]

  -- What `drain_into` returns for a chain of the edges `ds`.
  abbrev Drains : ℕ → List ℕ → List ℕ → Result (DeltaChains × List ℕ) → Type 0
  Drains node ds run r =
      (c' : DeltaChains) × (r ≡ ok (c', run ++ select (passes live) (map (◌+◌ delta_base) ds)))
      × (last_of c' dir node ≡ no_link)
      × ((v : ℕ) (d : Direction) → v ≢ node → last_of c' d v ≡ last_of c d v)
      × (c'.next ≡ c.next)

  drain_into-IsRing :
      (endpoints : List ℕ) (node : ℕ) (ds run : List ℕ)
      → length endpoints ≤ no_link
      → length ds ≤ length c.next
      → IsRing c dir endpoints node ds
      → Drains node ds run (drain_into node run)
  unfolding drain_into
  drain_into-IsRing endpoints node [] run room size r = (
    c,
    rw (ends-absent c dir endpoints node r) (ap (λ es. ok (c, es)) (sym (append-nil run))),
    r,
    λ v d n. refl,
    refl,
  )
  drain_into-IsRing endpoints node (e ∷ es) run room size (last, w) =
      let (le, own, back) = Walks-final (link_at c.next dir) (get_elem? endpoints) node e e es w in
      let inside : final e es < no_link =
        omega (arith, lt_of_get_elem? endpoints (final e es) own) in
      let (gone, others) = detach_node-last node in
      (
        detach_node c node dir,
        rw (
          ends-ring c dir endpoints node e (final e es) last inside back,
          drain_loop-Walks (get_elem? endpoints) node e (final e es) (length c.next) e es run refl w
              (omega arith),
        ),
        gone,
        others,
        detach_node-next node,
      )

  -- On chains that stand for the edges with given endpoints, within the addressable size,
  -- drain_into returns; it appends the live edges of the chain of a node to the run, in the order
  -- they were added, empties that chain, and leaves the chains of every other node as they were.
  pub drain_into-IsThreaded :
      (endpoints : List ℕ) (node : ℕ) (run : List ℕ)
      → IsThreaded c dir endpoints
      → length c.next ≡ length endpoints
      → length endpoints ≤ no_link
      → (c' : DeltaChains) × (drain_into node run
          ≡ ok (c', run ++ select (passes live) (map (◌+◌ delta_base) (owned 0 node endpoints))))
        × (last_of c' dir node ≡ no_link)
        × ((v : ℕ) (d : Direction) → v ≢ node → last_of c' d v ≡ last_of c d v)
        × (c'.next ≡ c.next)
  drain_into-IsThreaded endpoints node run t size room =
      drain_into-IsRing endpoints node (owned 0 node endpoints) run room
        (omega (arith, length-owned 0 node endpoints)) (t.rings node)

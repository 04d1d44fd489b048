-- ===== src/Store/Chains/Refine.antt =====
-- Chains refine lists: `append` adds an edge at the end of the lists of its two endpoints.
use mathlib.Core.Option
use cfglib.Prelude.{
  ℕ, zero, suc, ◌-◌, ◌^◌, ◌<◌, ◌≤◌, ◌≡◌, refl, sym, ◌∙◌, ap, ◌⊎◌, List, [], ◌∷◌, ◌++◌, length,
  get_elem?, ◌==◌, some, arith, Bool-cases, inl, inr, ==→≡, ==→≢, ok, replicate, lt→ltb,
  length-append, lt_of_get_elem?, length-replicate, get_elem?-append_left,
}
use cfglib.Store.Chains.{
  Direction, outgoing, incoming, Links, link, no_link, unlinked, DeltaChains, thread, append,
  materialize, opened, new,
}
use cfglib.Store.Chains.Ring.{owned, owned-append_zero, final, Walks-final, Walks-frame}
use cfglib.Store.Chains.Thread.{
  link_at, or_none, last_of, IsRing, IsThreaded, Extends, IsRing-self, IsRing-other,
}
use cfglib.Store.Chains.Append.{Threads, thread_empty, thread_ring}

-- `thread` on chains that stand for the edges gives chains that stand for one edge more.
module _ (c : DeltaChains) (dir : Direction) (ends : List ℕ) (node : ℕ) (t : IsThreaded c dir ends)
    (room : length ends < no_link) where
  extended :
      (c' : DeltaChains) (first : ℕ) (es : List ℕ)
      → owned 0 node ends ≡ es
      → Extends c c' dir node (length ends) first
      → (es ≡ [] → first ≡ length ends)
      → ((e : ℕ) (r : List ℕ) → es ≡ e ∷ r → first ≡ e)
      → IsThreaded c' dir (ends ++ node ∷ [])
  extended c' first es shape x fresh old = record { rings = rings }
    where
      last_is_owned :
          (es : List ℕ)
          → IsRing c dir ends node es
          → (last_of c dir node ≡ no_link) ⊎ (get_elem? ends (last_of c dir node) ≡ some node)
      last_is_owned [] r = inl r
      last_is_owned (e ∷ es) (last, w) = inr (rw last (Walks-final _ _ node e e es w).1)

      rings : (v : ℕ) → IsRing c' dir (ends ++ node ∷ []) v (owned 0 v (ends ++ node ∷ []))
      rings v = rw (owned-append_zero v ends node) (elim (Bool-cases (node == v)) [
        | inl q ↦
            let same = ==→≡ node v q in
            rw (q, ← same, shape)
              (IsRing-self c c' dir ends node first x room es (rw shape at (t.rings node)) fresh
                old)
        | inr q ↦ rw q (
            IsRing-other c c' dir ends node first x room v (owned 0 v ends) (==→≢ node v q)
              (t.rings v) (last_is_owned (owned 0 node ends) (t.rings node)))
      ])

  -- `thread` returns, and the chains then stand for one edge more.
  pub thread-IsThreaded :
      node < length c.last
      → length ends < length c.next
      → (first : ℕ) × (r : Threads c node dir (length ends) first) × IsThreaded r.out dir
          (ends ++ node ∷ [])
  thread-IsThreaded hl hn = go (owned 0 node ends) refl (t.rings node)
    where
      go :
          (es : List ℕ)
          → owned 0 node ends ≡ es
          → IsRing c dir ends node es
          → (first : ℕ) × (r : Threads c node dir (length ends) first) × IsThreaded r.out dir
              (ends ++ node ∷ [])
      go [] shape empty =
          let r = thread_empty c node dir (length ends) hl hn room empty in
          (
            length ends,
            r,
            extended r.out (length ends) [] shape r.extends (λ _. refl) (λ e rest q. absurd (cc)),
          )
      go (e ∷ es) shape (last, w) =
          let (_, own, nx) = Walks-final _ _ node e e es w in
          let inside : last_of c dir node < length ends =
            rw last (lt_of_get_elem? ends (final e es) own) in
          let r = thread_ring c node dir (length ends) hl hn room e inside (rw last nx) in
          (e, r, extended r.out e (e ∷ es) shape r.extends (λ q. absurd (cc)) (λ f rest q. cc))

-- Chains whose links of one direction are the same stand for the same lists.
IsThreaded-frame :
    (c c' : DeltaChains) (dir : Direction) (ends : List ℕ)
    → ((v : ℕ) → last_of c' dir v ≡ last_of c dir v)
    → ((j : ℕ) → j < length ends → link_at c'.next dir j ≡ link_at c.next dir j)
    → IsThreaded c dir ends
    → IsThreaded c' dir ends
IsThreaded-frame c c' dir ends lasts nexts t = record {
  rings = λ v. ring v (owned 0 v ends) (t.rings v);
}
  where
    ring : (v : ℕ) (es : List ℕ) → IsRing c dir ends v es → IsRing c' dir ends v es
    ring v [] r = lasts v ∙ r
    ring v (e ∷ es) (last, w) = (
      lasts v ∙ last,
      Walks-frame (link_at c.next dir) (link_at c'.next dir) (get_elem? ends) (get_elem? ends)
          (λ i u o. o) v e e es (λ i o. nexts i (lt_of_get_elem? ends i o)) w,
    )

-- The chains of a store with `nodes` node slots stand, in both directions, for the lists of the
-- delta edges with these sources and targets.
pub record IsChained (c : DeltaChains) (nodes : ℕ) (sources targets : List ℕ) : Type 0 where
  pub slots : length c.last ≤ nodes
  pub size_out : length c.next ≡ length sources
  pub size_in : length c.next ≡ length targets
  pub threaded_out : IsThreaded c outgoing sources
  pub threaded_in : IsThreaded c incoming targets

pub new-IsChained : (nodes : ℕ) → IsChained new nodes [] []
unfolding new
new-IsChained nodes = record {
  slots = omega arith;
  size_out = refl;
  size_in = refl;
  threaded_out = record { rings = λ v. refl };
  threaded_in = record { rings = λ v. refl };
}

-- A store that gains a node slot.
pub IsChained-grow :
    (c : DeltaChains) (m n : ℕ) (sources targets : List ℕ)
    → m ≤ n
    → IsChained c m sources targets
    → IsChained c n sources targets
IsChained-grow c m n sources targets h k = record {
  slots = omega (arith, k.slots);
  size_out = k.size_out;
  size_in = k.size_in;
  threaded_out = k.threaded_out;
  threaded_in = k.threaded_in;
}

-- New slots are unlinked, so no chain changes.
last_of-replicate :
    (k : ℕ) (dir : Direction) (v : ℕ) → or_none (link_at (replicate k unlinked) dir v) ≡ no_link
last_of-replicate zero dir v = refl
last_of-replicate (suc k) outgoing zero = refl
last_of-replicate (suc k) incoming zero = refl
last_of-replicate (suc k) dir (suc v) = last_of-replicate k dir v

last_of-grown :
    (last : List Links) (k : ℕ) (dir : Direction) (v : ℕ)
    → or_none (link_at (last ++ replicate k unlinked) dir v) ≡ or_none (link_at last dir v)
last_of-grown [] k dir v = last_of-replicate k dir v
last_of-grown (l ∷ ls) k dir zero = refl
last_of-grown (l ∷ ls) k dir (suc v) = last_of-grown ls k dir v

-- Making room changes no chain.
module _ (c : DeltaChains) (nodes : ℕ) (slots : length c.last ≤ nodes) where
  opened_last : length (opened c nodes).last ≡ nodes
  unfolding opened materialize
  opened_last = ground (
    arith,
    length-append c.last (replicate (nodes - length c.last) unlinked),
    length-replicate (nodes - length c.last) unlinked,
  )

  opened_next : length (opened c nodes).next ≡ suc (length c.next)
  unfolding opened
  opened_next = omega (arith, length-append c.next (unlinked ∷ []))

  opened-IsThreaded :
      (dir : Direction) (ends : List ℕ)
      → length ends ≡ length c.next
      → IsThreaded c dir ends
      → IsThreaded (opened c nodes) dir ends
  unfolding opened materialize
  opened-IsThreaded dir ends size =
      IsThreaded-frame c (opened c nodes) dir ends
        (λ v. ground (arith, last_of-grown c.last (nodes - length c.last) dir v))
        (λ j h.
          ap (Option.map (λ l. link l dir))
            (get_elem?-append_left c.next (unlinked ∷ []) j (omega arith)))

append_run :
    (c c₁ c₂ : DeltaChains) (source target nodes n : ℕ)
    → length c.next ≡ n
    → n < no_link
    → thread (opened c nodes) source outgoing n ≡ ok c₁
    → thread c₁ target incoming n ≡ ok c₂
    → append c source target nodes ≡ ok c₂
unfolding append
append_run c c₁ c₂ source target nodes n e h p q = rw (e, lt→ltb n (2 ^ 32) (omega arith), p, q)

-- On chains that stand, in both directions, for the lists of the delta edges of each node, append
-- of an edge between two nodes of the store returns while an edge slot is left, and its chains
-- stand for the lists with the new edge at the end of those of its source and its target.
pub append-IsChained :
    (c : DeltaChains) (source target nodes : ℕ) (sources targets : List ℕ)
    → IsChained c nodes sources targets
    → source < nodes
    → target < nodes
    → length sources < no_link
    → (c' : DeltaChains) × (append c source target nodes ≡ ok c')
      × IsChained c' nodes (sources ++ source ∷ []) (targets ++ target ∷ [])
append-IsChained c source target nodes sources targets k hs ht room =
    let out = opened-IsThreaded c nodes k.slots outgoing sources (sym k.size_out) k.threaded_out in
    let inc = opened-IsThreaded c nodes k.slots incoming targets (sym k.size_in) k.threaded_in in
    let covers = opened_last c nodes k.slots in
    let one_more = opened_next c nodes k.slots in
    let (f, r, t) =
      thread-IsThreaded (opened c nodes) outgoing sources source out room (omega (arith, covers))
        (omega (arith, one_more, k.size_out)) in
    let inc₁ =
      IsThreaded-frame (opened c nodes) r.out incoming targets
        (λ v. ap or_none (r.other_last incoming v (λ q. cc)))
        (λ j h. r.other_next incoming j (λ q. cc)) inc in
    let same : length targets ≡ length sources = omega (arith, k.size_in, k.size_out) in
    let (f₂, r₂, t₂) =
      thread-IsThreaded r.out incoming targets target inc₁ (omega (arith, same))
        (omega (arith, covers, r.size_last)) (omega (arith, one_more, k.size_in, r.size_next)) in
    let out₂ =
      IsThreaded-frame r.out r₂.out outgoing (sources ++ source ∷ [])
        (λ v. ap or_none (r₂.other_last outgoing v (λ q. cc)))
        (λ j h. r₂.other_next outgoing j (λ q. cc)) t in
    let run₂ : thread r.out target incoming (length sources) ≡ ok r₂.out = rw same at r₂.run in
    (
      r₂.out,
      append_run c r.out r₂.out source target nodes (length sources) k.size_out room r.run run₂,
      record {
        slots = omega (arith, covers, r.size_last, r₂.size_last);
        size_out = omega (
          arith,
          one_more,
          r.size_next,
          r₂.size_next,
          k.size_out,
          length-append sources (source ∷ []),
        );
        size_in = omega (
          arith,
          one_more,
          r.size_next,
          r₂.size_next,
          k.size_in,
          length-append targets (target ∷ []),
        );
        threaded_out = out₂;
        threaded_in = t₂;
      },
    )

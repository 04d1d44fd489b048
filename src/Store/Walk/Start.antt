-- ===== src/Store/Walk/Start.antt =====
-- Where a walk of crates/cfglib/src/graph/store/adjacency.rs starts: the run that the compressed
-- index gives and the chain that the delta holds.
use cfglib.Prelude.{
  ℕ, suc, ◌+◌, ◌<◌, ◌≤◌, ◌≡◌, refl, ap, inl, inr, List, [], ◌∷◌, ◌++◌, Bool, length, get_elem?,
  ◌==◌, Option, none, some, ok, map, arith, Bool-cases, Option-cases, ≡→==, ≢→==, lt_of_get_elem?,
}
use cfglib.Store.Chains
use cfglib.Store.Chains.{DeltaChains, Direction, outgoing, incoming, no_link, link, ring_ends}
use cfglib.Store.Chains.Ring.{owned, final, Walks-final}
use cfglib.Store.Chains.Thread.{link_at, last_of, IsRing}
use cfglib.Store.Walk.{ends_or_none}
use cfglib.Store.Walk.Steps.{select, Slice, Rest}

pub owned-append_list :
    (k v : ℕ) (xs ys : List ℕ) → owned k v (xs ++ ys) ≡ owned k v xs ++ owned (k + length xs) v ys
owned-append_list k v [] ys = ap (λ (n : ℕ). owned n v ys) (omega arith)
owned-append_list k v (x ∷ xs) ys =
    let same : suc k + length xs ≡ k + suc (length xs) = omega arith in
    let rest = owned-append_list (suc k) v xs ys in
    elim (Bool-cases (x == v)) [ inl p ↦ rw (p, ← same, rest) | inr p ↦ rw (p, ← same, rest) ]

pub map-owned : (d k v : ℕ) (xs : List ℕ) → map (◌+◌ d) (owned k v xs) ≡ owned (d + k) v xs
map-owned d k v [] = refl
map-owned d k v (x ∷ xs) =
    let same : suc (d + k) ≡ d + suc k = omega arith in
    let rest = map-owned d (suc k) v xs in
    elim (Bool-cases (x == v)) [ inl p ↦ rw (p, same, rest) | inr p ↦ rw (p, same, rest) ]

pub length-owned : (k v : ℕ) (xs : List ℕ) → length (owned k v xs) ≤ length xs
length-owned k v [] = omega arith
length-owned k v (x ∷ xs) = ground (arith, length-owned (suc k) v xs)

-- Tests that agree below a bound select the same of the indices below it.
pub select-owned :
    (p q : ℕ → Bool) (k v : ℕ) (xs : List ℕ)
    → ((i : ℕ) → i < k + length xs → p i ≡ q i)
    → select p (owned k v xs) ≡ select q (owned k v xs)
select-owned p q k v [] same = refl
select-owned p q k v (x ∷ xs) same =
    let rest = select-owned p q (suc k) v xs (λ i h. same i (omega arith)) in
    elim (Bool-cases (x == v)) [ inl e ↦ rw (e, same k (omega arith), rest) | inr e ↦ rw (e, rest) ]

Slice-end :
    (edges : List ℕ) (base end e : ℕ) (es : List ℕ)
    → Slice edges base end (e ∷ es)
    → end ≤ length edges
Slice-end edges base end e [] s = omega (arith, lt_of_get_elem? edges base s.0, s.1)
Slice-end edges base end e (x ∷ es) s = Slice-end edges (suc base) end x es s.1

pub Slice-fits :
    (edges : List ℕ) (base end : ℕ) (es : List ℕ)
    → Slice edges base end es
    → base + length es ≡ end
    → length es ≤ length edges
Slice-fits edges base end [] s size = omega arith
Slice-fits edges base end (e ∷ es) s size = omega (arith, Slice-end edges base end e es s)

-- What `ends` reads of a chain is where its list starts and ends.
module _ (c : DeltaChains) (dir : Direction) (endpoints : List ℕ) (v : ℕ) where
  pub ends-absent : last_of c dir v ≡ no_link → Chains.ends c v dir ≡ ok none
  unfolding Chains.ends
  ends-absent r = elim (Option-cases (get_elem? c.last v)) [
    | inl absent ↦ rw (Chains.ends, absent)
    | inr (l, at) ↦ rw (Chains.ends, at, ≡→== (link l dir) no_link (rw at at r))
  ]

  pub ends-ring :
      (e f : ℕ)
      → last_of c dir v ≡ f
      → f < no_link
      → link_at c.next dir f ≡ some e
      → Chains.ends c v dir ≡ ok (some (e, f))
  unfolding Chains.ends ring_ends
  ends-ring e f last inside back = elim (Option-cases (get_elem? c.last v)) [
    | inl absent ↦ absurd (omega (arith, rw absent at last, inside))
    | inr (l, at) ↦
        let here : link l dir ≡ f = rw at at last in
        elim (Option-cases (get_elem? c.next f)) [
          | inl absent ↦ absurd (cc (rw absent at back))
          | inr (r, at') ↦
              rw (Chains.ends, at, here, ≢→== f no_link (λ q. omega arith), at')
                (ground (arith, rw at' at back))
        ]
  ]

  pub Rest-ends :
      (es : List ℕ)
      → length endpoints ≤ no_link
      → IsRing c dir endpoints v es
      → (found : Option (ℕ × ℕ)) × (first : ℕ) × (Chains.ends c v dir ≡ ok found)
        × Rest
            (link_at c.next dir)
            (get_elem? endpoints)
            v
            first
            (ends_or_none found).0
            (ends_or_none found).1
            es
  Rest-ends [] room r = (none, 0, ends-absent r, refl)
  Rest-ends (e ∷ es) room (last, w) =
      let (le, own, back) = Walks-final (link_at c.next dir) (get_elem? endpoints) v e e es w in
      let inside : final e es < no_link =
        omega (arith, lt_of_get_elem? endpoints (final e es) own) in
      (some (e, final e es), e, ends-ring e (final e es) last inside back, (refl, refl, inside, w))

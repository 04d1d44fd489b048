-- ===== src/Store/Chains/Thread.antt =====
-- Appending an edge to a chain appends it to the list that the chain stands for.
use mathlib.Core.Option
use cfglib.Prelude.{
  ℕ, ◌<◌, ◌≤◌, ◌≡◌, refl, ◌∙◌, ap, ◌≢◌, ◌⊎◌, List, [], ◌∷◌, ◌++◌, length, get_elem?, set, ◌==◌,
  if◌then◌else◌, Option, none, some, arith, Bool-cases, inl, inr, ==→≡, ==→≢, ok, length-set,
  get_elem?_lt, get_elem?-set_self, get_elem?-set_ne, lt_of_get_elem?, get_elem?-append_left,
  get_elem?-append_last,
}
use cfglib.Store.Chains.{
  Direction, outgoing, incoming, Links, link, with_link, no_link, DeltaChains, write_link,
}
use cfglib.Store.Chains.Ring.{
  owned, final, final-append, Walks, Walks-final, Walks-frame, Walks-append,
}

-- The link at an index, for one direction.
abbrev pub link_at : List Links → Direction → ℕ → Option ℕ
link_at links dir i = Option.map (λ l. link l dir) (get_elem? links i)

abbrev pub or_none : Option ℕ → ℕ
or_none none = no_link
or_none (some e) = e

-- The last edge of a chain.
abbrev pub last_of : DeltaChains → Direction → ℕ → ℕ
last_of c dir v = or_none (link_at c.last dir v)

pub link-with_link : (l : Links) (dir : Direction) (e : ℕ) → link (with_link l dir e) dir ≡ e
link-with_link l outgoing e = refl
link-with_link l incoming e = refl

link-with_link_ne :
    (l : Links) (dir d : Direction) (e : ℕ) → d ≢ dir → link (with_link l dir e) d ≡ link l d
link-with_link_ne l outgoing outgoing e n = absurd (n refl)
link-with_link_ne l outgoing incoming e n = refl
link-with_link_ne l incoming outgoing e n = refl
link-with_link_ne l incoming incoming e n = absurd (n refl)

-- A write of one link is read back there, and changes no other link.
pub record Writes (links : List Links) (i : ℕ) (dir : Direction) (e : ℕ) : Type 0 where
  pub out : List Links
  pub run : write_link links i dir e ≡ ok out
  pub size : length out ≡ length links
  pub here : (j : ℕ) → link_at out dir j ≡ (if i == j then some e else link_at links dir j)
  pub there : (d : Direction) (j : ℕ) → d ≢ dir → link_at out d j ≡ link_at links d j

pub write_link-Writes :
    (links : List Links) (i : ℕ) (dir : Direction) (e : ℕ) → i < length links → Writes links i dir e
unfolding write_link
write_link-Writes links i dir e h =
    let (old, at) = get_elem?_lt links i h in
    let new = with_link old dir e in
    let self = get_elem?-set_self links i new h in
    record {
      out = set links i new;
      run = rw at;
      size = length-set links i new;
      here = λ j. elim (Bool-cases (i == j)) [
        | inl q ↦ let same = ==→≡ i j q in rw (q, ← same, self) (ap some (link-with_link old dir e))
        | inr q ↦ rw (q, get_elem?-set_ne links i j new (==→≢ i j q))
      ];
      there = λ d j n. elim (Bool-cases (i == j)) [
        | inl q ↦
            let same = ==→≡ i j q in
            rw (← same, self, at) (ap some (link-with_link_ne old dir d e n))
        | inr q ↦ rw (get_elem?-set_ne links i j new (==→≢ i j q))
      ];
    }

-- The chain of `v` stands for the list.
abbrev pub IsRing : DeltaChains → Direction → List ℕ → ℕ → List ℕ → Type 0
IsRing c dir ends v [] = last_of c dir v ≡ no_link
IsRing c dir ends v (e ∷ es) =
    (last_of c dir v ≡ final e es) × Walks (link_at c.next dir) (get_elem? ends) v e e es

-- For each node, the chain in one direction holds the delta edges whose endpoint is the node.
pub record IsThreaded (c : DeltaChains) (dir : Direction) (ends : List ℕ) : Type 0 where
  pub rings : (v : ℕ) → IsRing c dir ends v (owned 0 v ends)

-- What a new last edge `n` of the chain of `node` does to the links of its direction.
pub record Extends (c c' : DeltaChains) (dir : Direction) (node n first : ℕ) : Type 0 where
  pub lasts : (v : ℕ) → last_of c' dir v ≡ (if node == v then n else last_of c dir v)
  pub nexts :
      (j : ℕ)
      → j ≤ n
      → link_at c'.next dir j ≡ (
          if n == j
          then some first
          else if last_of c dir node == j
          then some n
          else link_at c.next dir j)

module _ (c c' : DeltaChains) (dir : Direction) (ends : List ℕ) (node first : ℕ)
    (x : Extends c c' dir node (length ends) first) (room : length ends < no_link) where
  abbrev pub n : ℕ
  n = length ends

  keeps : (i v : ℕ) → get_elem? ends i ≡ some v → get_elem? (ends ++ node ∷ []) i ≡ some v
  keeps i v e = get_elem?-append_left ends (node ∷ []) i (lt_of_get_elem? ends i e) ∙ e

  -- The chain of `node` gains the edge at its end.
  pub IsRing-self :
      (es : List ℕ)
      → IsRing c dir ends node es
      → (es ≡ [] → first ≡ n)
      → ((e : ℕ) (r : List ℕ) → es ≡ e ∷ r → first ≡ e)
      → IsRing c' dir (ends ++ node ∷ []) node (es ++ n ∷ [])
  IsRing-self [] r first_new first_old = (
    ground (arith, x.lasts node),
    (get_elem?-append_last ends node, ground (arith, x.nexts n, first_new refl)),
  )
  IsRing-self (e ∷ es) (last, w) first_new first_old =
      let (_, own, _) = Walks-final _ _ node e e es w in
      let less : final e es < n = lt_of_get_elem? ends (final e es) own in
      (
        ground (arith, x.lasts node, final-append e es n),
        Walks-append (link_at c.next dir) (link_at c'.next dir) (get_elem? ends)
            (get_elem? (ends ++ node ∷ [])) keeps node e e es n
            (λ i o ne. let inside = lt_of_get_elem? ends i o in ground (arith, x.nexts i, last))
            (ground (arith, x.nexts (final e es), last))
            (ground (arith, x.nexts n, first_old e es refl)) (get_elem?-append_last ends node) less
            w,
      )

  -- Every other chain is as before.
  pub IsRing-other :
      (v : ℕ) (es : List ℕ)
      → node ≢ v
      → IsRing c dir ends v es
      → (last_of c dir node ≡ no_link) ⊎ (get_elem? ends (last_of c dir node) ≡ some node)
      → IsRing c' dir (ends ++ node ∷ []) v es
  IsRing-other v [] ne r old = ground (arith, x.lasts v)
  IsRing-other v (e ∷ es) ne (last, w) old = (
    ground (arith, x.lasts v),
    Walks-frame (link_at c.next dir) (link_at c'.next dir) (get_elem? ends)
        (get_elem? (ends ++ node ∷ [])) keeps v e e es
        (λ i o. let inside = lt_of_get_elem? ends i o in ground (arith, x.nexts i)) w,
  )

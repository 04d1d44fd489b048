-- ===== src/DisjointSet/Climb.antt =====
-- Walks up the parent array, and what path halving and linking do to them.
use cfglib.Prelude.{
  ℕ, zero, suc, ◌<◌, ◌≡◌, refl, sym, ◌∙◌, ◌≢◌, ◌⊎◌, inl, inr, List, length, get_elem?, set, some,
  arith, ◌==◌, Bool-cases, ==→≡, ==→≢, ok, length-set, get_elem?-set_self, get_elem?-set_ne,
  get_elem?_lt, lt_of_get_elem?,
}
use cfglib.DisjointSet.{root_loop}

-- The walk from an index along `parent` ends at the root `r`.
pub data Climb (p : List ℕ) (r : ℕ) : ℕ → Type 0 where
  top : get_elem? p r ≡ some r → Climb p r r
  up : {i j : ℕ} → get_elem? p i ≡ some j → j ≢ i → Climb p r j → Climb p r i

pub Climb-root : {p : List ℕ} {r i : ℕ} → Climb p r i → get_elem? p r ≡ some r
Climb-root (top e) = e
Climb-root (up e n c) = Climb-root c

-- One step up keeps the root.
pub Climb-parent :
    {p : List ℕ} {r i : ℕ} (j : ℕ) → Climb p r i → get_elem? p i ≡ some j → Climb p r j
Climb-parent {p} {r} j (top e) h = let same : r ≡ j = cc in rw (← same) (top e)
Climb-parent {p} {r} j (up {j = k} e n c) h = let same : k ≡ j = cc in rw (← same) c

-- The root of an index is unique.
pub Climb-unique : {p : List ℕ} {r i : ℕ} (s : ℕ) → Climb p r i → Climb p s i → r ≡ s
Climb-unique s (top e) (top e') = refl
Climb-unique s (top e) (up e' n c) = absurd (n (cc))
Climb-unique s (up {j = j} e n c) d = Climb-unique s c (Climb-parent j d e)

-- Parents are elements, and `measure` falls on every step up.
pub record Falls (measure : ℕ → ℕ) (p : List ℕ) : Type 0 where
  pub inside : (i j : ℕ) → get_elem? p i ≡ some j → j < length p
  pub falls : (i j : ℕ) → get_elem? p i ≡ some j → (j ≡ i) ⊎ (measure j < measure i)

module _ (measure : ℕ → ℕ) (p : List ℕ) (f : Falls measure p) where
  pub Climb-exists : (fuel i : ℕ) → i < length p → measure i < fuel → (r : ℕ) × Climb p r i
  Climb-exists zero i h m = absurd (omega arith)
  Climb-exists (suc fuel) i h m =
      let (j, e) = get_elem?_lt p i h in
      elim (f.falls i j e) [
        | inl same ↦ (i, top (ground arith))
        | inr less ↦
            let (r, c) = Climb-exists fuel j (f.inside i j e) (omega arith) in
            (r, up e (λ same. absurd (ground arith)) c)
      ]

  pub root_loop-Climb : (fuel i r : ℕ) → Climb p r i → measure i < fuel → root_loop fuel p i ≡ ok r
  unfolding root_loop
  root_loop-Climb zero i r c m = absurd (omega arith)
  root_loop-Climb (suc fuel) i r (top e) m = ground (arith)
  root_loop-Climb (suc fuel) i r (up {j = j} e n c) m =
      ground (arith, f.falls i j e, root_loop-Climb fuel j r c)

  -- The array after one round of `find_loop` at `i`, whose parent is `a` and grandparent `g`.
  module _ (i a g : ℕ) (above : get_elem? p i ≡ some a) (grand : get_elem? p a ≡ some g)
      (ne : a ≢ i) where
    grand_falls : measure g < measure i
    grand_falls = ground (arith, f.falls i a above, f.falls a g grand)

    halved : get_elem? (set p i g) i ≡ some g
    halved = get_elem?-set_self p i g (lt_of_get_elem? p i above)

    pub halve-Falls : Falls measure (set p i g)
    halve-Falls = record {
      inside = λ k j e. elim (Bool-cases (i == k)) [
        | inl same ↦ rw length-set (ground (arith, ==→≡ i k same, halved, f.inside a g grand))
        | inr other ↦
            rw length-set (f.inside k j (sym (get_elem?-set_ne p i k g (==→≢ i k other)) ∙ e))
      ];
      falls = λ k j e. elim (Bool-cases (i == k)) [
        | inl same ↦ inr (ground (arith, ==→≡ i k same, halved, grand_falls))
        | inr other ↦ f.falls k j (sym (get_elem?-set_ne p i k g (==→≢ i k other)) ∙ e)
      ];
    }

    pub halve-Climb : (fuel j r : ℕ) → measure j < fuel → Climb p r j → Climb (set p i g) r j
    halve-Climb zero j r m c = absurd (omega arith)
    halve-Climb (suc fuel) j r m (top e) =
        let other : i ≢ r = λ same. ne (ground arith) in top (get_elem?-set_ne p i r g other ∙ e)
    halve-Climb (suc fuel) j r m (up {j = k} e n c) = elim (Bool-cases (i == j)) [
      | inl same ↦
          let eq = ==→≡ i j same in
          let next : Climb p r g =
            Climb-parent g (Climb-parent a (up e n c) (ground arith)) grand in
          up (ground (arith, halved)) (λ back. absurd (ground (arith, grand_falls)))
            (halve-Climb fuel g r (ground (arith, grand_falls)) next)
      | inr other ↦
          up (get_elem?-set_ne p i j g (==→≢ i j other) ∙ e) n
            (halve-Climb fuel k r (ground (arith, f.falls j k e)) c)
    ]

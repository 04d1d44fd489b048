-- ===== src/DisjointSet/Least.antt =====
-- `union_toward_min`: no parent lies above its child, so each representative is the least member.
use cfglib.Prelude.{
  ℕ, ◌<◌, ◌≤◌, ◌≡◌, refl, sym, ◌∙◌, inl, inr, List, length, min, get_elem?, set, some, arith, ◌==◌,
  ltb, Bool, true, false, Bool-cases, ==→≡, ==→≢, ok, get_elem?-set_self, get_elem?-set_ne,
  lt_of_get_elem?, length-set, length-range_from, get_elem?-range_from, ltb→lt, subst,
}
use cfglib.DisjointSet.{DisjointSet, root, len, union_toward_min, new}
use cfglib.DisjointSet.Climb.{Climb, top, up, Climb-root, Falls}
use cfglib.DisjointSet.Link.{
  IsForest, Climb-in, relabel_same, root-Climb, SameSet, find_twice, link-Climb, Joins,
  Joins-relabel,
}

pub record IsLeast (d : DisjointSet) : Type 0 where
  pub below : (i j : ℕ) → get_elem? d.parent i ≡ some j → j ≤ i

-- The measure is the index itself.
abbrev least_measure : List ℕ → ℕ → ℕ
least_measure p i = min i (length p)

pub IsLeast-forest : (d : DisjointSet) → IsLeast d → IsForest d
IsLeast-forest d v = record {
  measure = least_measure d.parent;
  forest = record {
    inside = λ i j e. omega (arith, v.below i j e, lt_of_get_elem? d.parent i e);
    falls = λ i j e. elim (Bool-cases (j == i)) [
      | inl same ↦ inl (==→≡ j i same)
      | inr other ↦
          let ne = ==→≢ j i other in
          inr (omega (arith, v.below i j e, lt_of_get_elem? d.parent i e))
    ];
  };
  bounded = λ i. omega arith;
}

Falls-IsLeast : (n : ℕ) (d : DisjointSet) → Falls (λ i. min i n) d.parent → IsLeast d
Falls-IsLeast n d f = record {
  below = λ i j e. elim (f.falls i j e) [ inl same ↦ omega arith | inr less ↦ omega arith ];
}

Climb-le : (d : DisjointSet) → IsLeast d → {r i : ℕ} → Climb d.parent r i → r ≤ i
Climb-le d v (top e) = omega arith
Climb-le d v (up {i = i} {j = j} e n c) = omega (arith, v.below i j e, Climb-le d v c)

pub new-IsLeast : (n : ℕ) → IsLeast (new n)
unfolding new
new-IsLeast n = record {
  below = λ i j e.
      let inside = lt_of_get_elem? _ i e in
      ground (arith, get_elem?-range_from 0 n i, length-range_from 0 n);
}

-- In a forest whose parents lie below their children, `root` returns for each element of the
-- forest the least member of its set.
pub root-least :
    (d : DisjointSet) (x : ℕ)
    → IsLeast d
    → x < len d
    → (r : ℕ) × (root d x ≡ ok r) × SameSet d x r × ((y : ℕ) → y < len d → SameSet d x y → r ≤ y)
unfolding len
root-least d x v h =
    let f = IsLeast-forest d v in
    let (r, c) = Climb-in d f x h in
    let run = root-Climb d f c in
    (
      r,
      run,
      (r, run, root-Climb d f (top (Climb-root c))),
      λ y hy (s, e, e').
          let (t, cy) = Climb-in d f y hy in
          omega (
            arith,
            Climb-le d v cy,
            same_ok r s (sym run ∙ e),
            same_ok t s (sym (root-Climb d f cy) ∙ e'),
          ),
    )
  where
    same_ok : (a b : ℕ) → ok a ≡ ok b → a ≡ b
    same_ok a b e = cc

link-IsLeast :
    (d : DisjointSet) (a b : ℕ)
    → IsLeast d
    → b ≤ a
    → IsLeast (record d { parent = set d.parent a b })
link-IsLeast d a b v h = record {
  below = λ i j e. elim (Bool-cases (a == i)) [
    | inl same ↦
        let eq = ==→≡ a i same in
        let inside = lt_of_get_elem? _ i e in
        ground (arith, get_elem?-set_self d.parent a b, length-set d.parent a b)
    | inr other ↦ v.below i j (sym (get_elem?-set_ne d.parent a i b (==→≢ a i other)) ∙ e)
  ];
}

-- On a forest whose parents lie below their children union_toward_min returns such a forest in
-- which exactly the two sets are joined, and the flag says whether they were apart.
pub union_toward_min-Joins :
    (d : DisjointSet) (l r : ℕ)
    → IsLeast d
    → l < len d
    → r < len d
    → (d' : DisjointSet) × (flag : Bool) × (union_toward_min d l r ≡ ok (d', flag))
      × IsLeast d'
      × Joins d l r d' flag
unfolding union_toward_min len IsLeast-forest
union_toward_min-Joins d l r v hl hr =
    let f = IsLeast-forest d v in
    let (s, cl) = Climb-in d f l hl in
    let (t, cr) = Climb-in d f r hr in
    let (d₁, d₂, run, run', same, comp) = find_twice d f.measure f.forest f.bounded cl cr in
    let v₂ = Falls-IsLeast (length d.parent) d₂ comp.forest in
    let rs : get_elem? d₂.parent s ≡ some s = Climb-root (comp.keeps l s cl) in
    let rt : get_elem? d₂.parent t ≡ some t = Climb-root (comp.keeps r t cr) in
    elim (Bool-cases (s == t)) [
      | inl e ↦ (
        d₂,
        false,
        rw (run, run', e),
        v₂,
        Joins-relabel d d₂ l r s t s t f (IsLeast-forest d₂ v₂) comp.size cl cr (inl (refl, refl))
            (λ j u c. subst (λ k. Climb d₂.parent k j) (relabel_same s t u e) (comp.keeps j u c))
            false (rw e),
      )
      | inr e ↦ elim (Bool-cases (ltb s t)) [
        | inl less ↦
            let d' = record d₂ { parent = set d₂.parent t s } in
            let v' = link-IsLeast d₂ t s v₂ (omega (arith, ltb→lt s t less)) in
            (
              d',
              true,
              rw (run, run', e, less),
              v',
              Joins-relabel d d' l r t s s t f (IsLeast-forest d' v')
                  (length-set d₂.parent t s ∙ comp.size) cl cr (inr (refl, refl))
                  (λ j u c.
                    link-Climb d₂.parent t s rt rs (λ q. ==→≢ s t e (sym q)) (comp.keeps j u c))
                  true (rw e),
            )
        | inr more ↦
            let d' = record d₂ { parent = set d₂.parent s t } in
            let v' = link-IsLeast d₂ s t v₂ (ground (arith, more)) in
            (
              d',
              true,
              rw (run, run', e, more),
              v',
              Joins-relabel d d' l r s t s t f (IsLeast-forest d' v')
                  (length-set d₂.parent s t ∙ comp.size) cl cr (inl (refl, refl))
                  (λ j u c. link-Climb d₂.parent s t rs rt (==→≢ s t e) (comp.keeps j u c)) true
                  (rw e),
            )
      ]
    ]

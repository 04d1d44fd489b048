-- ===== src/DisjointSet/Rank.antt =====
-- `union`: ranks rise along `parent`, and rank and number of roots together stay within the size.
use cfglib.Prelude.{
  value, ℕ, zero, suc, ◌+◌, ◌-◌, ◌<◌, ◌≤◌, ◌≡◌, refl, sym, ◌∙◌, ◌≢◌, ◌⊎◌, inl, inr, List, [], ◌∷◌,
  length, get_elem?, set, some, arith, ◌==◌, if◌then◌else◌, ltb, Bool, true, false, Bool-cases,
  ==→≡, ==→≢, ok, get_elem?-set_self, get_elem?-set_ne, get_elem?-set_cases, lt_of_get_elem?,
  length-set, length-range_from, get_elem?-range_from, ltb→lt, subst, get_elem?_lt,
  length-replicate, get_elem?-replicate, range_from, replicate, ap, get_elem?_ge,
}
use cfglib.DisjointSet.{DisjointSet, len, union, new, link}
use cfglib.DisjointSet.Climb.{Climb, Climb-root}
use cfglib.DisjointSet.Find.{Compresses, roots}
use cfglib.DisjointSet.Link.{
  IsForest, Climb-in, find_twice, link-Climb, Joins, Joins-relabel, relabel_same,
}

-- The rank of an element, 0 outside the forest.
abbrev pub rank_at : DisjointSet → ℕ → ℕ
rank_at d i = value (get_elem? d.rank i)

pub record IsRanked (d : DisjointSet) : Type 0 where
  pub sized : length d.rank ≡ length d.parent
  pub inside : (i j : ℕ) → get_elem? d.parent i ≡ some j → j < length d.parent
  pub rises : (i j : ℕ) → get_elem? d.parent i ≡ some j → (j ≡ i) ⊎ (rank_at d i < rank_at d j)
  pub room : (i : ℕ) → rank_at d i + roots 0 d.parent ≤ length d.parent

pub IsRanked-forest : (d : DisjointSet) → IsRanked d → IsForest d
IsRanked-forest d v = record {
  measure = λ i. length d.parent - rank_at d i;
  forest = record {
    inside = v.inside;
    falls = λ i j e. elim (v.rises i j e) [
      | inl same ↦ inl same
      | inr less ↦ inr (omega (arith, v.room i, v.room j))
    ];
  };
  bounded = λ i. omega arith;
}

-- One root fewer when a root gets another element as its parent.
roots-set_down :
    (ps : List ℕ) (k i g : ℕ)
    → get_elem? ps i ≡ some (k + i)
    → g ≢ k + i
    → suc (roots k (set ps i g)) ≡ roots k ps
roots-set_down [] k i g e n = cc
roots-set_down (p ∷ ps) k zero g e n = ground arith
roots-set_down (p ∷ ps) k (suc i) g e n =
    let e' : get_elem? ps i ≡ some (suc k + i) = e ∙ ap some (omega arith) in
    omega (arith, roots-set_down ps (suc k) i g e' (omega arith))

roots-range : (k n : ℕ) → roots k (range_from k n) ≡ n
roots-range k zero = refl
roots-range k (suc n) = ground (arith, roots-range (suc k) n)

pub new-IsRanked : (n : ℕ) → IsRanked (new n)
unfolding new
new-IsRanked n = record {
  sized = length-replicate n 0 ∙ sym (length-range_from 0 n);
  inside = λ i j e.
      let h = lt_of_get_elem? _ i e in
      ground (arith, get_elem?-range_from 0 n i, length-range_from 0 n);
  rises = λ i j e.
      let h = lt_of_get_elem? _ i e in
      inl (ground (arith, get_elem?-range_from 0 n i, length-range_from 0 n));
  room = λ i. elim (Bool-cases (ltb i n)) [
    | inl h ↦
        ground (arith, get_elem?-replicate {A = ℕ} n 0 i, length-range_from 0 n, roots-range 0 n)
    | inr h ↦ ground (
      arith,
      get_elem?_ge {A = ℕ} (replicate n 0) i,
      length-replicate {A = ℕ} n 0,
      length-range_from 0 n,
      roots-range 0 n,
    )
  ];
}

Compresses-IsRanked :
    (d d₂ : DisjointSet)
    → (v : IsRanked d) → d₂.rank ≡ d.rank
    → Compresses (λ i. length d.parent - rank_at d i) d.parent d₂.parent
    → IsRanked d₂
Compresses-IsRanked d d₂ v same c = record {
  sized = ap length same ∙ v.sized ∙ sym c.size;
  inside = c.forest.inside;
  rises = λ i j e. ground (arith, c.forest.falls i j e, same);
  room = λ i. ground (arith, v.room i, c.size, c.count, same);
}

-- A root `a` gets another root `b` as its parent, and the rank of `b` may grow by one.
module _ (d : DisjointSet) (a b : ℕ) (ranks : List ℕ) (v : IsRanked d)
    (ra : get_elem? d.parent a ≡ some a) (rb : get_elem? d.parent b ≡ some b) (ne : a ≢ b)
    (size : length ranks ≡ length d.rank)
    (grows : (i : ℕ)
      → (value (get_elem? ranks i) ≡ rank_at d i)
        ⊎ (i ≡ b) × (value (get_elem? ranks i) ≡ suc (rank_at d b)))
    (less : rank_at d a < value (get_elem? ranks b)) where
  abbrev relinked : DisjointSet
  relinked = record { parent = set d.parent a b; rank = ranks }

  relink_rises :
      (i j : ℕ)
      → get_elem? relinked.parent i ≡ some j
      → (j ≡ i) ⊎ (rank_at relinked i < rank_at relinked j)
  relink_rises i j e = elim (get_elem?-set_cases d.parent a i b e) [
    | inl (p, q) ↦ inr (ground (arith, grows a, grows b))
    | inr (p, q) ↦ ground (arith, grows i, grows j, v.rises i j q)
  ]

  pub relink-IsRanked : IsRanked relinked
  relink-IsRanked = record {
    sized = size ∙ v.sized ∙ sym (length-set d.parent a b);
    inside = λ i j e. rw length-set (elim (get_elem?-set_cases d.parent a i b e) [
      | inl (p, q) ↦ rw q (lt_of_get_elem? d.parent b rb)
      | inr (p, q) ↦ v.inside i j q
    ]);
    rises = relink_rises;
    room = λ i. ground (
      arith,
      v.room i,
      length-set d.parent a b,
      grows i,
      v.room b,
      roots-set_down d.parent 0 a b (ra ∙ ap some (omega arith)) (λ q. absurd (omega arith)),
    );
  }

-- The two roots, the reads of their ranks, and the link that `union` makes.
record Links (d : DisjointSet) (s t : ℕ) : Type 0 where
  after : DisjointSet
  a : ℕ
  b : ℕ
  which : (a ≡ s) × (b ≡ t) ⊎ (a ≡ t) × (b ≡ s)
  run : link d s t ≡ ok after
  moved : after.parent ≡ set d.parent a b
  ranked : IsRanked after

rank_read :
    (d : DisjointSet)
    → IsRanked d
    → (i : ℕ) → i < length d.parent
    → get_elem? d.rank i ≡ some (rank_at d i)
rank_read d v i h = let (x, e) = get_elem?_lt d.rank i (omega (arith, v.sized)) in ground (arith, e)

link-Links :
    (d : DisjointSet) (s t : ℕ)
    → IsRanked d
    → get_elem? d.parent s ≡ some s
    → get_elem? d.parent t ≡ some t
    → s ≢ t
    → Links d s t
unfolding link
link-Links d s t v rs rt ne =
    let es = rank_read d v s (lt_of_get_elem? d.parent s rs) in
    let et = rank_read d v t (lt_of_get_elem? d.parent t rt) in
    elim (Bool-cases (ltb (rank_at d s) (rank_at d t))) [
      | inl less ↦ record {
        after = record d { parent = set d.parent s t };
        a = s;
        b = t;
        which = inl (refl, refl);
        run = rw (es, et) (rw less);
        moved = refl;
        ranked = relink-IsRanked d s t d.rank v rs rt ne refl (λ i. inl refl) (ltb→lt _ _ less);
      }
      | inr more ↦ elim (Bool-cases (ltb (rank_at d t) (rank_at d s))) [
        | inl less ↦ record {
          after = record d { parent = set d.parent t s };
          a = t;
          b = s;
          which = inr (refl, refl);
          run = rw (es, et) (rw (more, less));
          moved = refl;
          ranked =
              relink-IsRanked d t s d.rank v rt rs (λ q. ne (sym q)) refl (λ i. inl refl)
                (ltb→lt _ _ less);
        }
        | inr same ↦
            let ranks = set d.rank s (rank_at d s + 1) in
            let now = get_elem?-set_self d.rank s (rank_at d s + 1) (lt_of_get_elem? d.rank s es) in
            record {
              after = record { parent = set d.parent t s; rank = ranks };
              a = t;
              b = s;
              which = inr (refl, refl);
              run = rw (es, et) (rw (more, same));
              moved = refl;
              ranked =
                  relink-IsRanked d t s ranks v rt rs (λ q. ne (sym q)) (length-set d.rank s _)
                    (λ i. elim (Bool-cases (s == i)) [
                      | inl e ↦ inr (sym (==→≡ s i e), ground (arith, ==→≡ s i e, now))
                      | inr e ↦ inl (ap value (get_elem?-set_ne d.rank s i _ (==→≢ s i e)))
                    ])
                    (ground (arith, now, more, same));
            }
      ]
    ]

-- On a ranked forest and two of its elements union returns a ranked forest in which exactly the two
-- sets are joined and all others are as before, and the flag says whether they were apart.
pub union-Joins :
    (d : DisjointSet) (l r : ℕ)
    → IsRanked d
    → l < len d
    → r < len d
    → (d' : DisjointSet) × (flag : Bool) × (union d l r ≡ ok (d', flag))
      × IsRanked d'
      × Joins d l r d' flag
unfolding union len IsRanked-forest
union-Joins d l r v hl hr =
    let f = IsRanked-forest d v in
    let (s, cl) = Climb-in d f l hl in
    let (t, cr) = Climb-in d f r hr in
    let (d₁, d₂, run, run', same, comp) = find_twice d f.measure f.forest f.bounded cl cr in
    let v₂ = Compresses-IsRanked d d₂ v same comp in
    let rs : get_elem? d₂.parent s ≡ some s = Climb-root (comp.keeps l s cl) in
    let rt : get_elem? d₂.parent t ≡ some t = Climb-root (comp.keeps r t cr) in
    elim (Bool-cases (s == t)) [
      | inl e ↦ (
        d₂,
        false,
        rw (run, run', e),
        v₂,
        Joins-relabel d d₂ l r s t s t f (IsRanked-forest d₂ v₂) comp.size cl cr (inl (refl, refl))
            (λ j u c. subst (λ k. Climb d₂.parent k j) (relabel_same s t u e) (comp.keeps j u c))
            false (rw e),
      )
      | inr e ↦
          let k = link-Links d₂ s t v₂ rs rt (==→≢ s t e) in
          (
            k.after,
            true,
            rw (run, run', e, k.run),
            k.ranked,
            Joins-relabel d k.after l r k.a k.b s t f (IsRanked-forest k.after k.ranked)
                (ap length k.moved ∙ length-set d₂.parent k.a k.b ∙ comp.size) cl cr k.which
                (λ j u c.
                  subst (λ p. Climb p (if u == k.a then k.b else u) j) (sym k.moved)
                    (link-Climb d₂.parent k.a k.b (ground (arith, k.which))
                      (ground (arith, k.which)) (ground (arith, k.which, ==→≢ s t e))
                      (comp.keeps j u c)))
                true (rw e),
          )
    ]

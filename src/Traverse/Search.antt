-- ===== src/Traverse/Search.antt =====
-- The loops over the seeds and over the neighbors of a node in `reachable_in` of
-- crates/cfglib/src/graph/traverse.rs.
use cfglib.Prelude.{
  elem_later, ℕ, suc, ◌<◌, ◌≤◌, ◌≡◌, ◌⊎◌, ◌∙◌, refl, sym, subst, ap, inl, inr, List, [], ◌∷◌, Bool,
  true, false, length, get_elem?, elem, ltb, ◌==◌, if◌then◌else◌, Option, none, some, Result, ok,
  panic, ◌>>=◌, Bool-cases, ==→≡, ≡→==, ltb→lt, arith, get_elem?_lt,
}
use cfglib.Marks.{flag, flag_of}
use cfglib.View.{View, TraversalDirection, neighbors, IsView}
use cfglib.Traverse.{State, assert_in_bound, discover, start_from, is_within, visit_next, expand}
use cfglib.Traverse.Reach.{
  Allowed, Reaches, at_seed, along, Grows, Grows-refl, Grows-trans, Invariant, Marks,
  discover-Marks,
}

-- A confining set has an entry for each node.
abbrev pub Covers : View → Option (List Bool) → Type 0
Covers view none = Unit
Covers view (some within) = view.node_bound ≤ length within

-- The assertions on the seeds.
abbrev pub all_in_bound : View → List ℕ → Bool
all_in_bound view [] = true
all_in_bound view (seed ∷ seeds) =
    if ltb seed view.node_bound then all_in_bound view seeds else false

is_within-Allowed :
    (view : View) (within : Option (List Bool)) (m : ℕ)
    → Covers view within
    → m < view.node_bound
    → (is_within within m ≡ ok true) × Allowed within m
      ⊎ (is_within within m ≡ ok false) × (Allowed within m → ⊥)
unfolding is_within
is_within-Allowed view none m c h = inl (refl, tt)
is_within-Allowed view (some within) m c h =
    let (b, at) = get_elem?_lt within m (omega (arith, c)) in
    elim (Bool-cases b) [
      | inl q ↦ inl (rw (at, q), flag_of within m at ∙ q)
      | inr q ↦ inr (rw (at, q), λ e. cc (sym e ∙ flag_of within m at ∙ q))
    ]

module _ (view : View) (g : IsView view) (axis : TraversalDirection) (within : Option (List Bool))
    (covers : Covers view within) (seeds : List ℕ) where
  visit_next-Marks :
      (busy : ℕ → Bool) (n m : ℕ) (s : State)
      → Invariant view axis within seeds busy s
      → Reaches view axis within seeds n
      → elem m (neighbors axis view n) ≡ true
      → m < view.node_bound
      → Marks view axis within seeds busy (Allowed within) m s (visit_next within m s)
  unfolding visit_next
  visit_next-Marks busy n m s v reached edge inside =
      elim (is_within-Allowed view within m covers inside) [
        | inl (run, free) ↦ rw run (
            discover-Marks view axis within seeds busy m s v inside (along n m reached edge free)
              (Allowed within))
        | inr (run, barred) ↦ record {
          out = s;
          run = rw run;
          invariant = v;
          marked = λ free. absurd (barred free);
          grows = Grows-refl s;
        }
      ]

  -- What looking at a list of nodes does.
  pub record MarksAll (busy : ℕ → Bool) (free : ℕ → Type 0) (nexts : List ℕ) (s : State)
      (r : Result State) : Type 0 where
    pub out : State
    pub run : r ≡ ok out
    pub invariant : Invariant view axis within seeds busy out
    pub marked : (m : ℕ) → elem m nexts ≡ true → free m → flag out.visited m ≡ true
    pub grows : Grows s out

  -- One node, and then the others.
  joined :
      (busy : ℕ → Bool) (free : ℕ → Type 0) (next : ℕ) (nexts : List ℕ) (s : State)
      (first : Result State) (rest : State → Result State)
      → (a : Marks view axis within seeds busy free next s first)
      → MarksAll busy free nexts a.out (rest a.out)
      → MarksAll busy free (next ∷ nexts) s (first >>= rest)
  joined busy free next nexts s first rest a b = record {
    out = b.out;
    run = ap (λ r. r >>= rest) a.run ∙ b.run;
    invariant = b.invariant;
    marked = λ m e may. elim (Bool-cases (next == m)) [
      | inl q ↦
          let same = ==→≡ next m q in
          b.grows.marks m
            (subst (λ x. flag a.out.visited x ≡ true) same (a.marked (subst free (sym same) may)))
      | inr q ↦ b.marked m (rw q at e) may
    ];
    grows = Grows-trans s a.out b.out a.grows b.grows;
  }

  pub expand-MarksAll :
      (busy : ℕ → Bool) (n : ℕ) (nexts : List ℕ) (s : State)
      → Invariant view axis within seeds busy s
      → Reaches view axis within seeds n
      → ((m : ℕ) → elem m nexts ≡ true → elem m (neighbors axis view n) ≡ true)
      → ((k m : ℕ) → get_elem? nexts k ≡ some m → m < view.node_bound)
      → MarksAll busy (Allowed within) nexts s (expand within nexts s)
  unfolding expand
  expand-MarksAll busy n [] s v reached edges below = record {
    out = s;
    run = refl;
    invariant = v;
    marked = λ m e free. absurd (cc (e));
    grows = Grows-refl s;
  }
  expand-MarksAll busy n (next ∷ nexts) s v reached edges below =
      let a =
        visit_next-Marks busy n next s v reached (edges next (rw (≡→== next next refl) refl))
          (below 0 next refl) in
      joined busy (Allowed within) next nexts s (visit_next within next s) (expand within nexts) a (
        expand-MarksAll busy n nexts a.out a.invariant reached
          (λ m e. edges m (elem_later m next nexts e)) (λ k m at. below (suc k) m at))

  pub start_from-MarksAll :
      (rest : List ℕ) (s : State)
      → Invariant view axis within seeds (λ f. false) s
      → ((m : ℕ) → elem m rest ≡ true → elem m seeds ≡ true)
      → (all_in_bound view rest ≡ true)
          × MarksAll (λ f. false) (λ m. Unit) rest s (start_from view rest s)
        ⊎ (all_in_bound view rest ≡ false) × (start_from view rest s ≡ panic)
  unfolding start_from assert_in_bound
  start_from-MarksAll [] s v known = inl (
    refl,
    record {
      out = s;
      run = refl;
      invariant = v;
      marked = λ m e may. absurd (cc (e));
      grows = Grows-refl s;
    },
  )
  start_from-MarksAll (seed ∷ rest) s v known = elim (Bool-cases (ltb seed view.node_bound)) [
    | inr q ↦ inr (rw q refl, rw q)
    | inl q ↦
        let a =
          discover-Marks view axis within seeds (λ f. false) seed s v
            (ltb→lt seed view.node_bound q)
            (at_seed seed (known seed (rw (≡→== seed seed refl) refl))) (λ m. Unit) in
        elim (start_from-MarksAll rest a.out a.invariant
          (λ m e. known m (elem_later m seed rest e))) [
            | inl (inside, b) ↦ inl (
              rw q inside,
              rw q (
                  joined (λ f. false) (λ m. Unit) seed rest s (discover seed s)
                    (start_from view rest) a b),
            )
            | inr (outside, run) ↦
                inr (rw q outside, rw q (ap (λ r. r >>= start_from view rest) a.run ∙ run))
          ]
  ]

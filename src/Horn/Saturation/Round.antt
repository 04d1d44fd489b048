-- ===== src/Horn/Saturation/Round.antt =====
-- One round of the saturation in crates/cfglib/src/graph/horn.rs: the clauses that mention a fact wait
-- for one fact less each, and a clause that waits for nothing derives its head.
use mathlib.Core.Option
use cfglib.Prelude.{
  count, ℕ, suc, ◌+◌, ◌-◌, ◌<◌, ◌≤◌, ◌≡◌, refl, sym, subst, ◌∙◌, ap, inl, inr, List, [], ◌∷◌, Bool,
  true, length, get_elem?, set, ltb, ◌==◌, if◌then◌else◌, some, Result, ok, value, Bool-cases, ==→≡,
  ==→≢, ≡→==, lt→ltb, ltb→lt, get_elem?_ge, arith, length-set, get_elem?_lt, lt_of_get_elem?,
  get_elem?-set_self, get_elem?-set_ne, get_elem?-map,
}
use cfglib.Marks.{flag}
use cfglib.Horn.{HornClauses, State, fire, fire_if, discharge, propagate}
use cfglib.Horn.Derivation.{
  Clause, Derivable, by_clause, hits, hits-le, hits_all, AllBelow, body_of, Represents, also,
  hits-also,
}
use cfglib.Horn.Saturation.{
  Fresh, Invariant, Fired, Grows, Grows-refl, Grows-trans, Derives, derive-Derives,
}

value-set :
    (l : List ℕ) (k i v : ℕ)
    → k < length l
    → value (get_elem? (set l k v) i) ≡ (if k == i then v else value (get_elem? l i))
value-set l k i v h = elim (Bool-cases (k == i)) [
  | inl q ↦ rw (q, ← ==→≡ k i q) (ap value (get_elem?-set_self l k v h))
  | inr q ↦ rw q (ap value (get_elem?-set_ne l k i v (==→≢ k i q)))
]

module _ (h : HornClauses) (clauses : List Clause) (rep : Represents h clauses) where
  -- A clause whose body is derived derives its head.
  abbrev Holds : ℕ → Clause → Type 0
  Holds k c =
      (get_elem? clauses k ≡ some c)
      × ((j fact : ℕ) → get_elem? c.body j ≡ some fact → Derivable clauses fact)

  head_at : (k : ℕ) (c : Clause) → get_elem? clauses k ≡ some c → get_elem? h.heads k ≡ some c.head
  head_at k c at =
      ap (λ l. get_elem? l k) rep.heads
      ∙ get_elem?-map (λ (d : Clause). d.head) clauses k
      ∙ ap (Option.map (λ (d : Clause). d.head)) at

  pub fire-Derives :
      (p : ℕ → Bool) (left : List ℕ) (k : ℕ) (c : Clause) (s : State)
      → Holds k c
      → Invariant h.fact_count clauses p left s
      → (d : Derives h.fact_count clauses p left c.head s) × (fire h k s ≡ ok d.out)
  unfolding fire
  fire-Derives p left k c s (at, body) v =
      let d =
        derive-Derives h.fact_count clauses p left c.head s v (rep.head_below k c at)
          (by_clause k c at body) in
      (d, rw (head_at k c at) d.run)

  -- What a call of `discharge`, of `propagate` or of `seed` returns.
  pub record Steps (p : ℕ → Bool) (left : List ℕ) (k : ℕ) (r : Result State) (s : State)
      : Type 0 where
    pub out : State
    pub run : r ≡ ok out
    pub invariant : Invariant h.fact_count clauses p left out
    pub fired : Fired clauses k out
    pub grows : Grows s out

  module _ (p : ℕ → Bool) (left : List ℕ) (k bound m : ℕ) (c : Clause) (s : State)
      (v : Invariant h.fact_count clauses p (k ∷ left) s) (f : Fired clauses bound s)
      (at : get_elem? clauses k ≡ some c) (waits : get_elem? s.remaining k ≡ some m) where
    abbrev lowered : State
    lowered = record s { remaining = set s.remaining k (m - 1) }

    lowered_at :
        (i : ℕ)
        → value (get_elem? lowered.remaining i)
          ≡ (if k == i then m - 1 else value (get_elem? s.remaining i))
    lowered_at i = value-set s.remaining k i (m - 1) (lt_of_get_elem? s.remaining k waits)

    balance : m + hits p c.body ≡ length c.body + suc (count k left)
    balance =
        let here = v.counts k c at in
        let self : (k == k) ≡ true = ≡→== k k refl in rw (waits, self) at here

    positive : 0 < m
    positive = omega (arith, balance, hits-le p c.body)

    one_clause : (i : ℕ) (d : Clause) → (k == i) ≡ true → get_elem? clauses i ≡ some d → c ≡ d
    one_clause i d q at' = let e = ==→≡ k i q in cc

    lowered-Invariant : Invariant h.fact_count clauses p left lowered
    lowered-Invariant = record {
      size = v.size;
      size_remaining = length-set s.remaining k (m - 1) ∙ v.size_remaining;
      seen = v.seen;
      propagated = v.propagated;
      waiting = v.waiting;
      fresh = v.fresh;
      counts = λ i d at'. elim (Bool-cases (k == i)) [
        | inl q ↦
            let same : c ≡ d = one_clause i d q at' in
            rw (lowered_at i, q, ← ==→≡ k i q, ← same) (omega (arith, balance, positive))
        | inr q ↦ rw (lowered_at i, q) (rw q at (v.counts i d at'))
      ];
      sound = v.sound;
    }

    -- A clause that waits for nothing more has its whole body propagated.
    exhausted-Holds : m - 1 ≡ 0 → Holds k c
    exhausted-Holds e = (
      at,
      λ j fact here. v.sound fact (
          v.propagated fact
            (hits_all p c.body j fact (omega (arith, balance, positive, hits-le p c.body)) here)),
    )

    kept-Fired :
        (out : State)
        → out.remaining ≡ lowered.remaining
        → Grows lowered out
        → (m - 1 ≡ 0 → flag out.derived c.head ≡ true)
        → Fired clauses bound out
    kept-Fired out same g here = record {
      heads = λ i d lt at' none_left.
          let z : value (get_elem? lowered.remaining i) ≡ 0 =
            ap (λ l. value (get_elem? l i)) (sym same) ∙ none_left in
          elim (Bool-cases (k == i)) [
            | inl q ↦
                subst (λ e. flag out.derived e.head ≡ true) (one_clause i d q at')
                  (here (rw q at (sym (lowered_at i) ∙ z)))
            | inr q ↦ g.marks d.head (f.heads i d lt at' (rw q at (sym (lowered_at i) ∙ z)))
          ];
    }

    discharge-Steps : Steps p left bound (discharge h k s) s
    unfolding discharge fire_if
    discharge-Steps = elim (Bool-cases (m - 1 == 0)) [
      | inl q ↦
          let (d, run) =
            fire-Derives p left k c lowered (exhausted-Holds (==→≡ (m - 1) 0 q))
              lowered-Invariant in
          record {
            out = d.out;
            run = rw (waits, lt→ltb 0 m positive, q) run;
            invariant = d.invariant;
            fired = kept-Fired d.out d.remaining d.grows (λ e. d.marked);
            grows = record { marks = d.grows.marks; work = d.grows.work };
          }
      | inr q ↦ record {
        out = lowered;
        run = rw (waits, lt→ltb 0 m positive, q);
        invariant = lowered-Invariant;
        fired = kept-Fired lowered refl (Grows-refl lowered) (λ e. absurd (==→≢ (m - 1) 0 q e));
        grows = record { marks = λ x e. e; work = refl };
      }
    ]

  pub propagate-Steps :
      (p : ℕ → Bool) (row : List ℕ) (bound : ℕ) (s : State)
      → AllBelow (length clauses) row
      → Invariant h.fact_count clauses p row s
      → Fired clauses bound s
      → Steps p [] bound (propagate h row s) s
  unfolding propagate
  propagate-Steps p [] bound s b v f = record {
    out = s;
    run = refl;
    invariant = v;
    fired = f;
    grows = Grows-refl s;
  }
  propagate-Steps p (k ∷ row) bound s (inside, b) v f =
      let (c, at) = get_elem?_lt clauses k inside in
      let (m, waits) = get_elem?_lt s.remaining k (omega (arith, v.size_remaining)) in
      let first = discharge-Steps p row k bound m c s v f at waits in
      let rest = propagate-Steps p row bound first.out b first.invariant first.fired in
      record {
        out = rest.out;
        run = rw first.run rest.run;
        invariant = rest.invariant;
        fired = rest.fired;
        grows = Grows-trans s first.out rest.out first.grows rest.grows;
      }

  -- The clauses of a row are clauses.
  none_beyond : (n : ℕ) (xs : List ℕ) → ((i : ℕ) → n ≤ i → count i xs ≡ 0) → AllBelow n xs
  none_beyond n [] e = tt
  none_beyond n (x ∷ xs) e = (
    elim (Bool-cases (ltb x n)) [ inl q ↦ ltb→lt x n q | inr q ↦ absurd (ground (arith, e x)) ],
    none_beyond n xs (λ i le. ground (arith, e i)),
  )

  pub row_below :
      (fact : ℕ) (row : List ℕ)
      → get_elem? h.dependents fact ≡ some row
      → AllBelow (length clauses) row
  row_below fact row at = none_beyond (length clauses) row (λ i le.
      rep.mentions fact row at i ∙ ap (λ o. count fact (body_of o)) (get_elem?_ge clauses i le))

  Fresh-also :
      (p : ℕ → Bool) (fact : ℕ) (facts : List ℕ)
      → count fact facts ≡ 0
      → Fresh p facts
      → Fresh (also fact p) facts
  Fresh-also p fact [] e f = tt
  Fresh-also p fact (x ∷ facts) e (a, b, f) = elim (Bool-cases (x == fact)) [
    | inl q ↦ absurd (ground (arith, e, q))
    | inr q ↦ (ground (arith, q, a), b, Fresh-also p fact facts (ground (arith, e, q)) f)
  ]

  -- Taking a fact from the worklist: it counts as propagated, but for the clauses of its row.
  pub popped-Invariant :
      (p : ℕ → Bool) (fact : ℕ) (rest row : List ℕ) (s : State)
      → s.worklist ≡ fact ∷ rest
      → get_elem? h.dependents fact ≡ some row
      → Invariant h.fact_count clauses p [] s
      → Invariant h.fact_count clauses (also fact p) row (record s { worklist = rest })
  popped-Invariant p fact rest row s w at v =
      let (not_yet, once, others) = subst (Fresh p) w v.fresh in
      let waiting : (f : ℕ) → 0 < count f (fact ∷ rest) → flag s.derived f ≡ true =
        subst (λ l. (f : ℕ) → 0 < count f l → flag s.derived f ≡ true) w v.waiting in
      record {
        size = v.size;
        size_remaining = v.size_remaining;
        seen = λ f e. elim (v.seen f e) [
          | inl a ↦ inl (ground (arith, a))
          | inr b ↦ elim (Bool-cases (fact == f)) [
            | inl q ↦ inl (rw q)
            | inr q ↦ inr (rw (w, q) at b)
          ]
        ];
        propagated = λ f e. elim (Bool-cases (fact == f)) [
          | inl q ↦ waiting f (rw q (omega arith))
          | inr q ↦ v.propagated f (rw q at e)
        ];
        waiting = λ f c. waiting f (ground (arith, c));
        fresh = Fresh-also p fact rest once others;
        counts = λ i c here. omega (
          arith,
          v.counts i c here,
          hits-also p fact c.body not_yet,
          rep.mentions fact row at i ∙ ap (λ o. count fact (body_of o)) here,
        );
        sound = v.sound;
      }

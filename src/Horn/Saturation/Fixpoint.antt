-- ===== src/Horn/Saturation/Fixpoint.antt =====
-- `derivable` of crates/cfglib/src/graph/horn.rs returns the least fixpoint of the clauses.
use mathlib.Core.Option
use cfglib.Prelude.{
  List-cases, count, ℕ, zero, suc, ◌+◌, ◌<◌, ◌≡◌, ◌↔◌, refl, sym, subst, ◌∙◌, ap, inl, inr, List,
  [], ◌∷◌, Bool, true, false, length, get_elem?, replicate, ◌==◌, some, ok, value, Bool-cases, ==→≡,
  ==→≢, ≡→==, arith, get_elem?_lt, lt_of_get_elem?, get_elem?-map, Option-cases, length-map,
  length-replicate,
}
use cfglib.Marks.{flag, unseen, flag_lt, unmarked, unseen-le}
use cfglib.Horn.{HornClauses, State, fire_if, seed, propagate, round, saturate, derivable}
use cfglib.Horn.Derivation.{Clause, Derivable, by_clause, hits_full, hits_none, Represents, also}
use cfglib.Horn.Saturation.{Invariant, Fired, Grows, Grows-refl, Grows-trans}
use cfglib.Horn.Saturation.Round.{Steps, fire-Derives, propagate-Steps, row_below, popped-Invariant}

module _ (h : HornClauses) (clauses : List Clause) (rep : Represents h clauses) where
  -- The saturation is over: nothing waits, and every clause that could has fired.
  record Solves (t : State) : Type 0 where
    pub p : ℕ → Bool
    pub invariant : Invariant h.fact_count clauses p [] t
    pub fired : Fired clauses (length clauses) t
    pub done : t.worklist ≡ []

  saturate_end : (fuel : ℕ) (s : State) → s.worklist ≡ [] → saturate h (suc fuel) s ≡ ok s
  unfolding saturate
  saturate_end fuel s w = simp (saturate, w)

  saturate_step :
      (fuel : ℕ) (s : State) (fact : ℕ) (rest row : List ℕ) (out : State)
      → s.worklist ≡ fact ∷ rest
      → get_elem? h.dependents fact ≡ some row
      → propagate h row (record s { worklist = rest }) ≡ ok out
      → saturate h (suc fuel) s ≡ saturate h fuel out
  unfolding saturate round
  saturate_step fuel s fact rest row out w at run = simp (saturate, w) (rw (at, run))

  saturate-Solves :
      (fuel : ℕ) (p : ℕ → Bool) (s : State)
      → Invariant h.fact_count clauses p [] s
      → Fired clauses (length clauses) s
      → unseen s.derived + length s.worklist < fuel
      → (t : State) × (saturate h fuel s ≡ ok t) × Solves t
  unfolding saturate
  saturate-Solves zero p s v f e = absurd (omega arith)
  saturate-Solves (suc fuel) p s v f e = elim (List-cases s.worklist) [
    | inl empty ↦
        (s, saturate_end fuel s empty, record { p = p; invariant = v; fired = f; done = empty })
    | inr (fact, rest, w) ↦
        let here : (0 < count fact s.worklist) = rw (w, ≡→== fact fact refl) (omega arith) in
        let inside = flag_lt s.derived fact (v.waiting fact here) in
        let (row, at) = get_elem?_lt h.dependents fact (omega (arith, v.size, rep.rows, inside)) in
        let popped : State = record s { worklist = rest } in
        let start = popped-Invariant h clauses rep p fact rest row s w at v in
        let steps =
          propagate-Steps h clauses rep (also fact p) row (length clauses) popped
            (row_below h clauses rep fact row at) start (record { heads = f.heads }) in
        let (t, run, solved) =
          saturate-Solves fuel (also fact p) steps.out steps.invariant steps.fired
            (omega (arith, steps.grows.work, ap length w)) in
        (t, saturate_step fuel s fact rest row steps.out w at steps.run ∙ run, solved)
  ]

  abbrev none_yet : ℕ → Bool
  none_yet f = false

  suffix_head :
      (k n : ℕ) (counts : List ℕ)
      → ((j : ℕ) → get_elem? (n ∷ counts) j ≡ get_elem? h.body_lens (k + j))
      → get_elem? h.body_lens k ≡ some n
  suffix_head k n counts suffix =
      let here : k ≡ k + 0 = omega arith in ap (get_elem? h.body_lens) here ∙ sym (suffix 0)

  clause_at :
      (k n : ℕ)
      → get_elem? h.body_lens k ≡ some n
      → (c : Clause) × (get_elem? clauses k ≡ some c) × (length c.body ≡ n)
  clause_at k n at =
      let at' =
        sym (get_elem?-map (λ (c : Clause). length c.body) clauses k)
        ∙ ap (λ l. get_elem? l k) (sym rep.lens)
        ∙ at in
      elim (Option-cases (get_elem? clauses k)) [
        | inl absent ↦ absurd (cc (rw absent at at'))
        | inr (c, here) ↦ (c, here, ground (arith, rw here at at'))
      ]

  Fired-suc :
      (k : ℕ) (c : Clause) (s : State)
      → Fired clauses k s
      → get_elem? clauses k ≡ some c
      → (value (get_elem? s.remaining k) ≡ 0 → flag s.derived c.head ≡ true)
      → Fired clauses (suc k) s
  Fired-suc k c s f at here = record {
    heads = λ i d lt at' e. elim (Bool-cases (i == k)) [
      | inl q ↦
          let q' = ==→≡ i k q in
          let same : c ≡ d = cc in
          subst (λ x. flag s.derived x.head ≡ true) same
            (here (ap (λ j. value (get_elem? s.remaining j)) (sym q') ∙ e))
      | inr q ↦ f.heads i d (ground (arith, q)) at' e
    ];
  }

  -- One turn of the seed loop.
  seed_one :
      (k n : ℕ) (c : Clause) (s : State)
      → s.remaining ≡ h.body_lens
      → Invariant h.fact_count clauses none_yet [] s
      → Fired clauses k s
      → get_elem? clauses k ≡ some c
      → length c.body ≡ n
      → get_elem? h.body_lens k ≡ some n
      → (out : State) × (fire_if (n == 0) h k s ≡ ok out)
        × Invariant h.fact_count clauses none_yet [] out
        × Fired clauses (suc k) out
        × Grows s out
        × (out.remaining ≡ h.body_lens)
  unfolding fire_if
  seed_one k n c s same v f at len counted = elim (Bool-cases (n == 0)) [
    | inl q ↦
        let empty : length c.body ≡ 0 = len ∙ ==→≡ n 0 q in
        let holds = λ (j fact : ℕ) (here : get_elem? c.body j ≡ some fact).
          absurd (omega (arith, lt_of_get_elem? c.body j here, empty)) in
        let (d, run) = fire-Derives h clauses rep none_yet [] k c s (at, holds) v in
        (
          d.out,
          rw q run,
          d.invariant,
          Fired-suc k c d.out
              (record {
                heads = λ i e lt at' z.
                    d.grows.marks e.head
                      (f.heads i e lt at' (ap (λ l. value (get_elem? l i)) (sym d.remaining) ∙ z));
              })
              at (λ e. d.marked),
          d.grows,
          d.remaining ∙ same,
        )
    | inr q ↦ (
      s,
      rw q,
      v,
      Fired-suc k c s f at (λ e.
          let waits : value (get_elem? s.remaining k) ≡ n =
            ap (λ l. value (get_elem? l k)) same ∙ ap value counted in
          absurd (==→≢ n 0 q (sym waits ∙ e))),
      Grows-refl s,
      same,
    )
  ]

  -- The seed loop, over the counts from clause `k` on.
  seed-Steps :
      (k : ℕ) (counts : List ℕ) (s : State)
      → ((j : ℕ) → get_elem? counts j ≡ get_elem? h.body_lens (k + j))
      → s.remaining ≡ h.body_lens
      → Invariant h.fact_count clauses none_yet [] s
      → Fired clauses k s
      → (bound : ℕ) → k + length counts ≡ bound
      → Steps h clauses rep none_yet [] bound (seed h k counts s) s
  unfolding seed
  seed-Steps k [] s suffix same v f bound e =
      let e' : k ≡ bound = omega arith in
      record {
        out = s;
        run = refl;
        invariant = v;
        fired = subst (λ b. Fired clauses b s) e' f;
        grows = Grows-refl s;
      }
  seed-Steps k (n ∷ counts) s suffix same v f bound e =
      let (c, at, len) = clause_at k n (suffix_head k n counts suffix) in
      let (out, run, v', f', g, same') =
        seed_one k n c s same v f at len (suffix_head k n counts suffix) in
      let rest =
        seed-Steps (suc k) counts out
          (λ j. suffix (suc j) ∙ ap (get_elem? h.body_lens) (omega arith)) same' v' f' bound
          (omega arith) in
      record {
        out = rest.out;
        run = rw run rest.run;
        invariant = rest.invariant;
        fired = rest.fired;
        grows = Grows-trans s out rest.out g rest.grows;
      }

  complete : (t : State) → Solves t → (f : ℕ) → Derivable clauses f → flag t.derived f ≡ true
  complete t w f (by_clause i c at body) =
      let full = hits_full w.p c.body (λ j fact here.
        elim (w.invariant.seen fact (complete t w fact (body j fact here))) [
          | inl a ↦ a
          | inr b ↦ absurd (omega (arith, rw w.done at b))
        ]) in
      w.fired.heads i c (lt_of_get_elem? clauses i at) at
        (omega (arith, w.invariant.counts i c at, full))

  abbrev start : State
  start = record { derived = replicate h.fact_count false; remaining = h.body_lens; worklist = [] }

  counted_at :
      (i : ℕ) (c : Clause)
      → get_elem? clauses i ≡ some c
      → value (get_elem? h.body_lens i) ≡ length c.body
  counted_at i c at =
      ap (λ l. value (get_elem? l i)) rep.lens
      ∙ ap value (get_elem?-map (λ (d : Clause). length d.body) clauses i)
      ∙ ap (λ o. value (Option.map (λ (d : Clause). length d.body) o)) at

  start-Invariant : Invariant h.fact_count clauses none_yet [] start
  start-Invariant = record {
    size = length-replicate h.fact_count false;
    size_remaining = ap length rep.lens ∙ length-map (λ (c : Clause). length c.body) clauses;
    seen = λ f e. absurd (cc (e, unmarked h.fact_count f));
    propagated = λ f e. absurd (cc (e));
    waiting = λ f c. absurd (omega (arith, c));
    fresh = tt;
    counts = λ i c at. omega (arith, counted_at i c at, hits_none c.body);
    sound = λ f e. absurd (cc (e, unmarked h.fact_count f));
  }

  -- On tables that stand for a list of clauses derivable returns, within a round for each fact, a
  -- mark for each fact, and a fact is marked exactly when the clauses derive it.
  pub derivable-Derivable :
      (d : List Bool) × (derivable h ≡ ok d)
      × (length d ≡ h.fact_count)
      × ((f : ℕ) → (flag d f ≡ true) ↔ Derivable clauses f)
  unfolding derivable
  derivable-Derivable =
      let size = ap length rep.lens ∙ length-map (λ (c : Clause). length c.body) clauses in
      let seeded =
        seed-Steps 0 h.body_lens start (λ j. ap (get_elem? h.body_lens) (omega arith)) refl
          start-Invariant (record { heads = λ i c lt at e. absurd (omega arith) }) (length clauses)
          (omega (arith, size)) in
      let bound = unseen-le (replicate h.fact_count false) in
      let (t, run, solved) =
        saturate-Solves (suc h.fact_count) none_yet seeded.out seeded.invariant seeded.fired
          (omega (arith, seeded.grows.work, bound, length-replicate h.fact_count false)) in
      (
        t.derived,
        rw (seeded.run, run),
        solved.invariant.size,
        λ f. (λ e. solved.invariant.sound f e, λ d. complete t solved f d),
      )

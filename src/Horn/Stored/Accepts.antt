-- ===== src/Horn/Stored/Accepts.antt =====
-- Which stored tables of crates/cfglib/src/graph/horn.rs load.
use Prim.Native.String.{String}
use mathlib.Core.Option
use cfglib.Prelude.{
  count, ℕ, ◌+◌, ◌<◌, ◌≤◌, ◌≡◌, ◌⊎◌, refl, sym, ap, subst, ◌∙◌, inl, inr, List, false, length,
  get_elem?, replicate, ltb, ltb→lt, ◌==◌, some, Bool-cases, ==→≡, ==→≢, arith, length-map,
  length-replicate, get_elem?_lt, get_elem?_ge, lt_of_get_elem?, get_elem?-map,
}
use cfglib.Horn.Derivation.{Clause, body_of, AllBelow, Represents}
use cfglib.Horn.Stored.{
  Stored, loaded, refused, any_past, flatten, count_mentions, same_list, tables, compare_bodies,
  try_from,
}
use cfglib.Horn.Stored.Listed.{
  body_from, clauses_from, count-body_from, AllBelow-body_from, get_elem?-clauses_from,
  length-clauses_from, heads-clauses_from,
}
use cfglib.Horn.Stored.Counted.{any_past_iff, same_list_iff, same_lookups, count_mentions-Counted}
use cfglib.Horn.Stored.Rows.{
  tally, length-tally, get_elem?-tally, Counted-tally, lens-clauses_from, count-absent,
  AllBelow-row, hits-within_all, count-flatten, mentioned_below,
}

-- The facts of every body are below the fact count.
abbrev pub BodiesBelow : ℕ → List Clause → Type 0
BodiesBelow n clauses = (i : ℕ) (c : Clause) → get_elem? clauses i ≡ some c → AllBelow n c.body

-- The tables stand for clauses over their facts.
abbrev pub Stands : Stored → Type 0
Stands s =
    (clauses : List Clause) × Represents (tables s) clauses × BodiesBelow s.fact_count clauses

module _ (s : Stored) where
  -- What the load test checks.
  record Sound : Type 0 where
    same_size : length s.heads ≡ length s.body_lens
    rows : length s.dependents ≡ s.fact_count
    heads : (i x : ℕ) → get_elem? s.heads i ≡ some x → x < s.fact_count
    named : AllBelow (length s.heads) (flatten s.dependents)
    lens : s.body_lens ≡ tally 0 (length s.heads) (flatten s.dependents)

  -- A clause that the rows list.
  clause_at :
      (i : ℕ) (c : Clause)
      → get_elem? (clauses_from 0 s.heads s.dependents) i ≡ some c
      → (head : ℕ) × (get_elem? s.heads i ≡ some head)
        × (record { head = head; body = body_from 0 s.dependents (0 + i) } ≡ c)
  clause_at i c at =
      let size = length-clauses_from 0 s.heads s.dependents in
      let bound = lt_of_get_elem? (clauses_from 0 s.heads s.dependents) i at in
      let (head, found) = get_elem?_lt s.heads i (omega (arith, bound, size)) in
      let clause = get_elem?-clauses_from 0 s.heads s.dependents i head found in
      (head, found, cc (clause, at))

  Sound-Stands : Sound → Stands s
  Sound-Stands t =
      let clauses = clauses_from 0 s.heads s.dependents in
      let size = length-clauses_from 0 s.heads s.dependents in
      (
        clauses,
        record {
          heads = sym (heads-clauses_from 0 s.heads s.dependents);
          lens = t.lens ∙ sym (lens-clauses_from 0 s.heads s.dependents);
          rows = t.rows;
          mentions = λ fact row at i. elim (Bool-cases (ltb i (length s.heads))) [
            | inl inside ↦
                let (head, found) = get_elem?_lt s.heads i (ltb→lt i (length s.heads) inside) in
                let clause = get_elem?-clauses_from 0 s.heads s.dependents i head found in
                let start : 0 + i ≡ i = omega arith in
                let place : 0 + fact ≡ fact = omega arith in
                let counts =
                  rw (start, place) at (count-body_from 0 s.dependents (0 + i) fact row at) in
                sym counts ∙ ap (λ o. count fact (body_of o)) (sym (rw start at clause))
            | inr past ↦
                let over : length s.heads ≤ i = ground (arith, past) in
                let gone = get_elem?_ge clauses i (omega (arith, size, over)) in
                count-absent (length s.heads) row i
                  (AllBelow-row (length s.heads) s.dependents fact row t.named at) over
                ∙ ap (λ o. count fact (body_of o)) (sym gone)
          ];
          head_below = λ i c at.
              let (head, found, clause) = clause_at i c at in
              let same : head ≡ c.head = ap (λ (d : Clause). d.head) clause in
              subst (λ x. x < s.fact_count) same (t.heads i head found);
        },
        λ i c at.
            let (head, found, clause) = clause_at i c at in
            let same : body_from 0 s.dependents (0 + i) ≡ c.body =
              ap (λ (d : Clause). d.body) clause in
            subst (AllBelow s.fact_count) same
              (AllBelow-body_from s.fact_count 0 s.dependents (0 + i) (omega (arith, t.rows))),
      )

  Stands-Sound : Stands s → Sound
  Stands-Sound (clauses, rep, below) =
      let head_count = ap length rep.heads ∙ length-map (λ (c : Clause). c.head) clauses in
      let len_count = ap length rep.lens ∙ length-map (λ (c : Clause). length c.body) clauses in
      let total = λ (i : ℕ) (c : Clause) (at : get_elem? clauses i ≡ some c).
        count-flatten 0 s.dependents i c.body (λ j row found.
          let start : j ≡ 0 + j = omega arith in
          rep.mentions j row found i
          ∙ ap (λ o. count j (body_of o)) at
          ∙ ap (λ (x : ℕ). count x c.body) start)
        ∙ hits-within_all (length s.dependents) c.body
            (subst (λ n. AllBelow n c.body) (sym rep.rows) (below i c at)) in
      record {
        same_size = head_count ∙ sym len_count;
        rows = rep.rows;
        heads = λ i x at.
            let (c, found) =
              get_elem?_lt clauses i (omega (arith, lt_of_get_elem? s.heads i at, head_count)) in
            let head =
              sym at
              ∙ ap (λ l. get_elem? l i) rep.heads
              ∙ get_elem?-map (λ (c : Clause). c.head) clauses i
              ∙ ap (Option.map (λ (c : Clause). c.head)) found in
            subst (λ y. y < s.fact_count) (cc (head)) (rep.head_below i c found);
        named = mentioned_below (length s.heads) s.dependents (λ k row at i past.
            rep.mentions k row at i
            ∙ ap (λ o. count k (body_of o))
                (get_elem?_ge clauses i (omega (arith, past, head_count))));
        lens =
            same_lookups s.body_lens (tally 0 (length s.heads) (flatten s.dependents))
              (omega (
                arith,
                len_count,
                head_count,
                length-tally 0 (length s.heads) (flatten s.dependents),
              ))
              (λ i x at.
                let inside = lt_of_get_elem? s.body_lens i at in
                let (c, found) = get_elem?_lt clauses i (omega (arith, inside, len_count)) in
                let len =
                  sym at
                  ∙ ap (λ l. get_elem? l i) rep.lens
                  ∙ get_elem?-map (λ (c : Clause). length c.body) clauses i
                  ∙ ap (Option.map (λ (c : Clause). length c.body)) found in
                let start : 0 + i ≡ i = omega arith in
                let counted = rw start at (
                  get_elem?-tally 0 (length s.heads) (flatten s.dependents) i
                    (omega (arith, inside, len_count, head_count))) in
                let sum = total i c found in cc (len, counted, sum));
      }

  abbrev Refuses : Type 0
  Refuses = ¬ (Stands s) × (text : String) × (try_from s ≡ refused text)

  refuses : (Sound → ⊥) → (text : String) → try_from s ≡ refused text → Refuses
  refuses unsound text run = (λ stands. unsound (Stands-Sound stands), text, run)

  -- The last two tests, behind the others.
  bodies :
      length s.heads ≡ length s.body_lens
      → length s.dependents ≡ s.fact_count
      → any_past s.fact_count s.heads ≡ false
      → try_from s
        ≡ compare_bodies s (count_mentions (flatten s.dependents) (replicate (length s.heads) 0))
      → Stands s × (try_from s ≡ loaded (tables s)) ⊎ Refuses
  unfolding compare_bodies
  bodies sizes rows heads run =
      let none_yet : ℕ = 0 in
      let width = length-replicate (length s.heads) none_yet in
      elim (count_mentions-Counted (flatten s.dependents) (replicate (length s.heads) 0)) [
        | inr (stops, past) ↦ inr (
            refuses (λ t. past (subst (λ n. AllBelow n (flatten s.dependents)) (sym width) t.named))
              "a dependents row names a clause that does not exist" (run ∙ rw stops refl))
        | inl (named, c) ↦
            let known : AllBelow (length s.heads) (flatten s.dependents) =
              subst (λ (n : ℕ). AllBelow n (flatten s.dependents)) width named in
            let tallied = Counted-tally (length s.heads) (flatten s.dependents) c in
            let counted = c.run in
            elim (Bool-cases (same_list c.out s.body_lens)) [
              | inl same ↦
                  let equal = (same_list_iff c.out s.body_lens).0 same in
                  inl (
                    Sound-Stands (record {
                      same_size = sizes;
                      rows = rows;
                      heads = (any_past_iff s.fact_count s.heads).0 heads;
                      named = known;
                      lens = sym equal ∙ tallied;
                    }),
                    run ∙ rw (counted, same) refl,
                  )
              | inr other ↦ inr (
                  refuses
                    (λ t.
                      let equal = (same_list_iff c.out s.body_lens).1 (tallied ∙ sym t.lens) in
                      cc (other, equal))
                    "a clause body disagrees with the facts that list it"
                    (run ∙ rw (counted, other) refl))
            ]
      ]

  -- try_from loads stored tables as they are when they stand for clauses over their facts: when
  -- there are clauses whose heads and body lengths the tables hold, in order, and whose bodies have
  -- each fact as often as its row names the clause. Otherwise it refuses them with a text.
  pub try_from-Stands :
      Stands s × (try_from s ≡ loaded (tables s))
      ⊎ ¬ (Stands s) × (text : String) × (try_from s ≡ refused text)
  unfolding try_from
  try_from-Stands = elim (Bool-cases (length s.heads == length s.body_lens)) [
    | inr other ↦ inr (
        refuses (λ t. ==→≢ (length s.heads) (length s.body_lens) other t.same_size)
          "the clause tables hold different numbers of clauses" (rw other refl))
    | inl sizes ↦ elim (Bool-cases (length s.dependents == s.fact_count)) [
      | inr other ↦ inr (
          refuses (λ t. ==→≢ (length s.dependents) s.fact_count other t.rows)
            "the dependents table does not have one row per fact" (rw (sizes, other) refl))
      | inl rows ↦ elim (Bool-cases (any_past s.fact_count s.heads)) [
        | inl past ↦ inr (
            refuses (λ t. cc (past, (any_past_iff s.fact_count s.heads).1 t.heads))
              "a clause head is not a fact" (rw (sizes, rows, past) refl))
        | inr inside ↦
            bodies (==→≡ (length s.heads) (length s.body_lens) sizes)
              (==→≡ (length s.dependents) s.fact_count rows) inside (rw (sizes, rows, inside) refl)
      ]
    ]
  ]

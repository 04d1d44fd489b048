-- ===== src/Horn/Clauses.antt =====
-- `new` and `add_clause` of crates/cfglib/src/graph/horn.rs build tables that stand for clauses.
use cfglib.Prelude.{
  count, count-append, ℕ, zero, suc, ◌+◌, ◌<◌, ◌≡◌, refl, sym, subst, ◌∙◌, ap, inl, inr, List, [],
  ◌∷◌, ◌++◌, map, Bool, true, false, ◌&&◌, length, get_elem?, set, replicate, ltb, ◌==◌,
  if◌then◌else◌, Option, none, some, ok, panic, Bool-cases, ==→≡, ==→≢, ≡→==, ≢→==, ◌⊎◌, ltb→lt,
  arith, get_elem?_lt, lt_of_get_elem?, get_elem?-set_self, get_elem?-set_ne, get_elem?-append_left,
  get_elem?-append_last, length-append, length-set, length-map, length-replicate,
  get_elem?-replicate,
}
use cfglib.Horn.{HornClauses, new, all_below, mention, add_clause}
use cfglib.Horn.Derivation.{Clause, body_of, AllBelow, Represents}

abbrev pub row_of : Option (List ℕ) → List ℕ
row_of none = []
row_of (some row) = row

-- How often a clause is in the row of a fact.
abbrev pub mentions_in : List (List ℕ) → ℕ → ℕ → ℕ
mentions_in rows fact clause = count clause (row_of (get_elem? rows fact))

map-append {ℓ κ} :
    {A : Type ℓ} {B : Type κ} (f : A → B) (xs ys : List A) → map f (xs ++ ys) ≡ map f xs ++ map f ys
map-append f [] ys = refl
map-append f (x ∷ xs) ys = ap (λ l. f x ∷ l) (map-append f xs ys)

mentions-push :
    (rows : List (List ℕ)) (fact : ℕ) (row : List ℕ) (clause f i : ℕ)
    → get_elem? rows fact ≡ some row
    → mentions_in (set rows fact (row ++ clause ∷ [])) f i
      ≡ mentions_in rows f i + (if fact == f then (if clause == i then 1 else 0) else 0)
mentions-push rows fact row clause f i at = elim (Bool-cases (fact == f)) [
  | inl q ↦
      let same = ==→≡ fact f q in
      let new_row =
        ap (λ o. count i (row_of o))
          (get_elem?-set_self rows fact (row ++ clause ∷ []) (lt_of_get_elem? rows fact at)) in
      let old_row = ap (λ o. count i (row_of o)) at in
      let both = count-append i row (clause ∷ []) in
      rw (q, ← same) (new_row ∙ both ∙ ap (λ n. n + count i (clause ∷ [])) (sym old_row))
  | inr q ↦ rw q (
      ap (λ o. count i (row_of o))
        (get_elem?-set_ne rows fact f (row ++ clause ∷ []) (==→≢ fact f q))
      ∙ omega arith)
]

-- The loop of `add_clause` adds the clause to the row of each fact as often as the body names it.
record Mentions (clause : ℕ) (body : List ℕ) (rows : List (List ℕ)) : Type 0 where
  out : List (List ℕ)
  run : mention clause body rows ≡ ok out
  size : length out ≡ length rows
  counts :
      (f i : ℕ)
      → mentions_in out f i ≡ mentions_in rows f i + (if clause == i then count f body else 0)

mention-Mentions :
    (clause : ℕ) (body : List ℕ) (rows : List (List ℕ))
    → AllBelow (length rows) body
    → Mentions clause body rows
unfolding mention
mention-Mentions clause [] rows below = record {
  out = rows;
  run = refl;
  size = refl;
  counts = λ f i. ground arith;
}
mention-Mentions clause (fact ∷ body) rows (inside, below) =
    let (row, at) = get_elem?_lt rows fact inside in
    let pushed : List (List ℕ) = set rows fact (row ++ clause ∷ []) in
    let size = length-set rows fact (row ++ clause ∷ []) in
    let rest =
      mention-Mentions clause body pushed (subst (λ n. AllBelow n body) (sym size) below) in
    record {
      out = rest.out;
      run = rw at rest.run;
      size = rest.size ∙ size;
      counts = λ f i.
          let push = mentions-push rows fact row clause f i at in
          let more = rest.counts f i in ground (arith, push, more);
    }

-- A clause at the end adds what its body names, at its own place.
count-appended :
    (clauses : List Clause) (c : Clause) (f i : ℕ)
    → count f (body_of (get_elem? (clauses ++ c ∷ []) i))
      ≡ count f (body_of (get_elem? clauses i))
        + (if length clauses == i then count f c.body else 0)
count-appended [] c f zero = omega arith
count-appended [] c f (suc i) = ground arith
count-appended (d ∷ clauses) c f zero = ground arith
count-appended (d ∷ clauses) c f (suc i) =
    let rest = count-appended clauses c f i in
    elim (Bool-cases (length clauses == i)) [
      | inl q ↦
          rw (≡→== (suc (length clauses)) (suc i) (ap suc (==→≡ (length clauses) i q)))
            (rw q at rest)
      | inr q ↦
          rw (≢→== (suc (length clauses)) (suc i) (λ e. ==→≢ (length clauses) i q (omega arith)))
            (rw q at rest)
    ]

all_below-AllBelow : (n : ℕ) (body : List ℕ) → all_below n body ≡ true → AllBelow n body
all_below-AllBelow n [] e = tt
all_below-AllBelow n (fact ∷ body) e = elim (Bool-cases (ltb fact n)) [
  | inl q ↦ (ltb→lt fact n q, all_below-AllBelow n body (rw q at e))
  | inr q ↦ absurd (cc (rw q at e))
]

-- The assertions of `add_clause`.
abbrev pub in_range : HornClauses → ℕ → List ℕ → Bool
in_range h head body = ltb head h.fact_count && all_below h.fact_count body

abbrev none_named : List ℕ
none_named = []

-- An empty clause set stands for no clauses.
pub new-Represents : (fact_count : ℕ) → Represents (new fact_count) []
unfolding new
new-Represents fact_count = record {
  heads = refl;
  lens = refl;
  rows = length-replicate fact_count none_named;
  mentions = λ fact row at i.
      let inside = lt_of_get_elem? (replicate fact_count none_named) fact at in
      let empty =
        get_elem?-replicate fact_count none_named fact
          (omega (arith, length-replicate fact_count none_named, inside)) in
      ap (λ o. count i (row_of o)) (sym at ∙ empty);
  head_below = λ i c at. cc;
}

module _ (h : HornClauses) (clauses : List Clause) (rep : Represents h clauses) (head : ℕ)
    (body : List ℕ) where
  abbrev added : Clause
  added = record { head = head; body = body }

  clause_count : length h.heads ≡ length clauses
  clause_count = ap length rep.heads ∙ length-map (λ (c : Clause). c.head) clauses

  head_below_added :
      head < h.fact_count
      → (i : ℕ) (c : Clause) → get_elem? (clauses ++ added ∷ []) i ≡ some c
      → c.head < h.fact_count
  head_below_added inside i c at = elim (Bool-cases (ltb i (length clauses))) [
    | inl q ↦
        rep.head_below i c
          (sym (get_elem?-append_left clauses (added ∷ []) i (ltb→lt i (length clauses) q)) ∙ at)
    | inr q ↦
        let bound = lt_of_get_elem? (clauses ++ added ∷ []) i at in
        let size = length-append clauses (added ∷ []) in
        let last : i ≡ length clauses = ground (arith, q, bound, size) in
        let same : added ≡ c = cc (
          sym (get_elem?-append_last clauses added)
          ∙ ap (get_elem? (clauses ++ added ∷ [])) (sym last)
          ∙ at) in
        subst (λ (d : Clause). d.head < h.fact_count) same inside
  ]

  module _ (m : Mentions (length h.heads) body h.dependents) where
    abbrev extended : HornClauses
    extended = record h {
      heads = h.heads ++ head ∷ [];
      body_lens = h.body_lens ++ length body ∷ [];
      dependents = m.out;
    }

    extended-Represents : head < h.fact_count → Represents extended (clauses ++ added ∷ [])
    extended-Represents inside = record {
      heads =
          ap (λ l. l ++ head ∷ []) rep.heads
          ∙ sym (map-append (λ (c : Clause). c.head) clauses (added ∷ []));
      lens =
          ap (λ l. l ++ length body ∷ []) rep.lens
          ∙ sym (map-append (λ (c : Clause). length c.body) clauses (added ∷ []));
      rows = m.size ∙ rep.rows;
      mentions = λ fact row at i.
          let (old, was) =
            get_elem?_lt h.dependents fact
              (subst (λ n. fact < n) m.size (lt_of_get_elem? m.out fact at)) in
          let before = ap (λ o. count i (row_of o)) was ∙ rep.mentions fact old was i in
          let after = sym (ap (λ o. count i (row_of o)) at) ∙ m.counts fact i in
          after
          ∙ ap (λ n. n + (if length h.heads == i then count fact body else 0)) before
          ∙ ap
              (λ n.
                count fact (body_of (get_elem? clauses i))
                + (if n == i then count fact body else 0))
              clause_count
          ∙ sym (count-appended clauses added fact i);
      head_below = head_below_added inside;
    }

  -- On tables that stand for clauses add_clause returns tables that stand for these clauses and the
  -- new one at the end when the head and every fact of the body are below the fact count, and
  -- panics otherwise.
  pub add_clause-Represents :
      (in_range h head body ≡ true)
        × ((h' : HornClauses) × (add_clause h head body ≡ ok h')
            × Represents h' (clauses ++ record { head = head; body = body } ∷ []))
      ⊎ (in_range h head body ≡ false) × (add_clause h head body ≡ panic)
  unfolding add_clause
  add_clause-Represents = elim (Bool-cases (ltb head h.fact_count)) [
    | inl inside ↦ elim (Bool-cases (all_below h.fact_count body)) [
      | inl below ↦
          let m = mention-Mentions (length h.heads) body h.dependents (
            subst (λ n. AllBelow n body) (sym rep.rows)
              (all_below-AllBelow h.fact_count body below)) in
          inl (
            rw inside below,
            (
              extended m,
              rw (inside, below, m.run),
              extended-Represents m (ltb→lt head h.fact_count inside),
            ),
          )
      | inr below ↦ inr (rw inside below, rw (inside, below))
    ]
    | inr outside ↦ inr (rw outside, rw outside)
  ]

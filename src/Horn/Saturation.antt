-- ===== src/Horn/Saturation.antt =====
-- One call of `derive` in crates/cfglib/src/graph/horn.rs keeps the invariant of the saturation.
pub mod Round
pub mod Fixpoint
use cfglib.Prelude.{
  count, ℕ, zero, suc, ◌+◌, ◌<◌, ◌≤◌, ◌≡◌, refl, sym, subst, ltb→lt, ◌∙◌, ap, ◌⊎◌, inl, inr, List,
  [], ◌∷◌, ◌++◌, map, Bool, true, false, length, get_elem?, set, ltb, ◌==◌, if◌then◌else◌, Option,
  none, some, Result, ok, ◌>>=◌, read, value, Bool-cases, ==→≡, ==→≢, ≡→==, ≢→==, arith, length-set,
  get_elem?_lt, lt_of_get_elem?, get_elem?-set_self, get_elem?-set_ne,
}
use cfglib.Marks.{flag, flag_of, unseen, flag-set, unseen-set, unmarked}
use cfglib.Horn.{HornClauses, State, derive}
use cfglib.Horn.Derivation.{Clause, Derivable, hits}

-- The waiting facts are not propagated yet, and wait once.
abbrev pub Fresh : (ℕ → Bool) → List ℕ → Type 0
Fresh p [] = Unit
Fresh p (fact ∷ facts) = (p fact ≡ false) × (count fact facts ≡ 0) × Fresh p facts

-- The state when the facts with `p` are propagated, but for the clauses that are `left` of the last.
pub record Invariant (n : ℕ) (clauses : List Clause) (p : ℕ → Bool) (left : List ℕ) (s : State)
    : Type 0 where
  pub size : length s.derived ≡ n
  pub size_remaining : length s.remaining ≡ length clauses
  pub seen : (f : ℕ) → flag s.derived f ≡ true → (p f ≡ true) ⊎ (0 < count f s.worklist)
  pub propagated : (f : ℕ) → p f ≡ true → flag s.derived f ≡ true
  pub waiting : (f : ℕ) → 0 < count f s.worklist → flag s.derived f ≡ true
  pub fresh : Fresh p s.worklist
  pub counts :
      (i : ℕ) (c : Clause)
      → get_elem? clauses i ≡ some c
      → value (get_elem? s.remaining i) + hits p c.body ≡ length c.body + count i left
  pub sound : (f : ℕ) → flag s.derived f ≡ true → Derivable clauses f

-- The clauses below `k` that wait for nothing have derived their head.
pub record Fired (clauses : List Clause) (k : ℕ) (s : State) : Type 0 where
  pub heads :
      (i : ℕ) (c : Clause)
      → i < k
      → get_elem? clauses i ≡ some c
      → value (get_elem? s.remaining i) ≡ 0
      → flag s.derived c.head ≡ true

-- What a call may do to the marks and the worklist: marks stay, and a new mark is a new entry.
pub record Grows (s t : State) : Type 0 where
  pub marks : (f : ℕ) → flag s.derived f ≡ true → flag t.derived f ≡ true
  pub work : unseen t.derived + length t.worklist ≡ unseen s.derived + length s.worklist

pub Grows-refl : (s : State) → Grows s s
Grows-refl s = record { marks = λ f e. e; work = refl }

pub Grows-trans : (s t u : State) → Grows s t → Grows t u → Grows s u
Grows-trans s t u a b = record { marks = λ f e. b.marks f (a.marks f e); work = b.work ∙ a.work }

module _ (n : ℕ) (clauses : List Clause) (p : ℕ → Bool) (left : List ℕ) where
  -- A call of `derive` that derives `fact`.
  pub record Derives (fact : ℕ) (s : State) : Type 0 where
    pub out : State
    pub run : derive fact s ≡ ok out
    pub invariant : Invariant n clauses p left out
    pub marked : flag out.derived fact ≡ true
    pub grows : Grows s out
    pub remaining : out.remaining ≡ s.remaining

  marked_already :
      (fact : ℕ) (s : State)
      → Invariant n clauses p left s
      → get_elem? s.derived fact ≡ some true
      → Derives fact s
  unfolding derive
  marked_already fact s v at = record {
    out = s;
    run = rw at;
    invariant = v;
    marked = flag_of s.derived fact at;
    grows = Grows-refl s;
    remaining = refl;
  }

  marked_now :
      (fact : ℕ) (s : State)
      → Invariant n clauses p left s
      → fact < n
      → Derivable clauses fact
      → get_elem? s.derived fact ≡ some false
      → Derives fact s
  unfolding derive
  marked_now fact s v h d at =
      let inside : fact < length s.derived = omega (arith, v.size) in
      let unmarked = flag_of s.derived fact at in
      let out : State = record s {
        derived = set s.derived fact true;
        worklist = fact ∷ s.worklist;
      } in
      let mark : (f : ℕ)
          → flag (set s.derived fact true) f ≡ (if fact == f then true else flag s.derived f) =
        λ f. flag-set s.derived fact f inside in
      let marks : (f : ℕ) → flag s.derived f ≡ true → flag (set s.derived fact true) f ≡ true =
        λ f e. elim (Bool-cases (fact == f)) [
          | inl q ↦ mark f ∙ rw q
          | inr q ↦ mark f ∙ rw (q, e)
        ] in
      let not_propagated : p fact ≡ false = elim (Bool-cases (p fact)) [
        | inl e ↦ absurd (cc (v.propagated fact e, unmarked))
        | inr e ↦ e
      ] in
      let not_waiting : count fact s.worklist ≡ 0 =
        elim (Bool-cases (ltb 0 (count fact s.worklist))) [
          | inl e ↦ absurd (cc (v.waiting fact (ltb→lt 0 (count fact s.worklist) e), unmarked))
          | inr e ↦ ground (arith, e)
        ] in
      record {
        out = out;
        run = rw at;
        invariant = record {
          size = length-set s.derived fact true ∙ v.size;
          size_remaining = v.size_remaining;
          seen = λ f e. elim (Bool-cases (fact == f)) [
            | inl q ↦ inr (rw q (omega arith))
            | inr q ↦ elim (v.seen f (rw q at (sym (mark f) ∙ e))) [
              | inl a ↦ inl a
              | inr b ↦ inr (rw q b)
            ]
          ];
          propagated = λ f e. marks f (v.propagated f e);
          waiting = λ f c. elim (Bool-cases (fact == f)) [
            | inl q ↦ mark f ∙ rw q
            | inr q ↦ marks f (v.waiting f (rw q at c))
          ];
          fresh = (not_propagated, not_waiting, v.fresh);
          counts = v.counts;
          sound = λ f e. elim (Bool-cases (fact == f)) [
            | inl q ↦ subst (Derivable clauses) (==→≡ fact f q) d
            | inr q ↦ v.sound f (rw q at (sym (mark f) ∙ e))
          ];
        };
        marked = mark fact ∙ rw (≡→== fact fact refl);
        grows = record {
          marks = marks;
          work = omega (arith, unseen-set s.derived fact inside unmarked);
        };
        remaining = refl;
      }

  pub derive-Derives :
      (fact : ℕ) (s : State)
      → Invariant n clauses p left s
      → fact < n
      → Derivable clauses fact
      → Derives fact s
  derive-Derives fact s v h d =
      let (b, at) = get_elem?_lt s.derived fact (omega (arith, v.size)) in
      elim (Bool-cases b) [
        | inl e ↦ marked_already fact s v (at ∙ ap some e)
        | inr e ↦ marked_now fact s v h d (at ∙ ap some e)
      ]

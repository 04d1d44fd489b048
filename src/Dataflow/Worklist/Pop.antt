-- ===== src/Dataflow/Worklist/Pop.antt =====
-- `Worklist` of crates/cfglib/src/dataflow/worklist.rs: the least index pops.
use cfglib.Prelude.{
  ℕ, zero, suc, ◌+◌, ◌*◌, ◌/◌, ◌%◌, ◌<◌, ◌≤◌, ◌≡◌, ◌≢◌, refl, sym, subst, ◌∙◌, ap, inl, inr, true,
  false, length, get_elem?, value, ltb, ◌==◌, if◌then◌else◌, Option, none, some, Result, ok, arith,
  Bool-cases, Option-cases, ==→≡, ==→≢, ≡→==, ltb→lt, lt_of_get_elem?, get_elem?_ge, get_elem?_lt,
}
use cfglib.Words.{bit, zero-bit, test_bit-eq-bit}
use cfglib.Words.Rows.{word, test_slot}
use cfglib.Dataflow.Bits.Members.{member, remove-Changes}
use cfglib.Dataflow.Worklist.{Worklist, trailing_zeros, take, search_from, pop_first}
use cfglib.Dataflow.Worklist.Queue.{IsWorklist, waits, bound}
use cfglib.Dataflow.Worklist.Lowest.{trailing_zeros-Lowest}

-- The least index that waits, if one does, and what is left without it.
abbrev pub Least : Worklist → Option ℕ → Worklist → Type 0
Least w none out = ((j : ℕ) → waits w j ≡ false) × ((j : ℕ) → waits out j ≡ waits w j)
Least w (some i) out =
    (waits w i ≡ true)
    × (i < bound w)
    × ((j : ℕ) → j < i → waits w j ≡ false)
    × ((j : ℕ) → waits out j ≡ (if i == j then false else waits w j))

pub record Pops (w : Worklist) (r : Result (Worklist × Option ℕ)) : Type 0 where
  pub out : Worklist
  pub answer : Option ℕ
  pub run : r ≡ ok (out, answer)
  pub valid : IsWorklist out
  pub bound : out.queued.len ≡ w.queued.len
  pub least : Least w answer out

pub member-inside : (w : Worklist) (i : ℕ) → IsWorklist w → waits w i ≡ true → i < bound w
member-inside w i v e = elim (Bool-cases (ltb i (bound w))) [
  | inl q ↦ ltb→lt i (bound w) q
  | inr q ↦ absurd (cc (e, v.bits.within i (ground (arith, q))))
]

-- The index of bit `k` in the word at the cursor.
bit_at :
    (w : Worklist) (k : ℕ)
    → k < 64
    → waits w (w.cursor * 64 + k) ≡ (bit (word w.queued.words w.cursor) k == 1)
unfolding member test_slot
bit_at w k h =
    let at : (w.cursor * 64 + k) / 64 ≡ w.cursor = omega arith in
    let place : (w.cursor * 64 + k) % 64 ≡ k = omega arith in
    rw (at, place) (test_bit-eq-bit (word w.queued.words w.cursor) k)

-- No index below that of the lowest bit waits.
waits_lower :
    (w : Worklist) (x k j : ℕ)
    → IsWorklist w
    → word w.queued.words w.cursor ≡ x
    → k < 64
    → ((j : ℕ) → j < k → bit x j ≡ 0)
    → j < w.cursor * 64 + k
    → waits w j ≡ false
waits_lower w x k j v e small lower lt = elim (Bool-cases (ltb (j / 64) w.cursor)) [
  | inl q ↦ v.below j (ltb→lt (j / 64) w.cursor q)
  | inr q ↦
      let at : w.cursor * 64 + j % 64 ≡ j = ground (arith, q) in
      let zero_bit = ap (λ y. bit y (j % 64)) e ∙ lower (j % 64) (omega (arith, at)) in
      ap (waits w) (sym at) ∙ bit_at w (j % 64) (omega arith) ∙ ap (λ b. b == 1) zero_bit
]

take-Pops :
    (w : Worklist) (x : ℕ)
    → IsWorklist w
    → word w.queued.words w.cursor ≡ x
    → x ≢ 0
    → Pops w (take w x)
unfolding take
take-Pops w x v e nonzero =
    let low =
      trailing_zeros-Lowest 64 x nonzero
        (λ j h. subst (λ y. bit y j ≡ 0) e (v.bits.wide w.cursor j h)) in
    let k = trailing_zeros 64 x in
    let i = w.cursor * 64 + k in
    let there : (waits w i ≡ true) =
      bit_at w k low.small ∙ ap (λ y. bit y k == 1) e ∙ ≡→== (bit x k) 1 low.here in
    let inside = member-inside w i v there in
    let c = remove-Changes w.queued v.bits i inside in
    record {
      out = record w { queued = c.out };
      answer = some i;
      run = rw c.run;
      valid = record {
        bits = c.bits;
        below = λ j lt. elim (Bool-cases (i == j)) [
          | inl q ↦ c.members j ∙ rw q refl
          | inr q ↦ c.members j ∙ rw q (v.below j lt)
        ];
      };
      bound = c.len;
      least = (there, inside, (λ j lt. waits_lower w x k j v e low.small low.lower lt), c.members);
    }

ends :
    (w : Worklist) (j : ℕ)
    → IsWorklist w
    → get_elem? w.queued.words w.cursor ≡ none
    → waits w j ≡ false
ends w j v e = elim (Bool-cases (ltb (j / 64) w.cursor)) [
  | inl q ↦ v.below j (ltb→lt (j / 64) w.cursor q)
  | inr q ↦ elim (Bool-cases (ltb w.cursor (length w.queued.words))) [
    | inl more ↦
        let (x, at) =
          get_elem?_lt w.queued.words w.cursor (ltb→lt w.cursor (length w.queued.words) more) in
        absurd (cc (e, at))
    | inr done ↦ v.bits.within j (ground (arith, q, done, v.bits.size))
  ]
]

-- A word that is zero holds no index.
skips :
    (w : Worklist)
    → IsWorklist w
    → word w.queued.words w.cursor ≡ 0
    → IsWorklist (record w { cursor = suc w.cursor })
skips w v e = record {
  bits = v.bits;
  below = λ i lt. elim (Bool-cases (ltb (i / 64) w.cursor)) [
    | inl q ↦ v.below i (ltb→lt (i / 64) w.cursor q)
    | inr q ↦
        let at : w.cursor * 64 + i % 64 ≡ i = ground (arith, q, lt) in
        let zeros = ap (λ y. bit y (i % 64) == 1) e ∙ ap (λ b. b == 1) (zero-bit (i % 64)) in
        ap (waits w) (sym at) ∙ bit_at w (i % 64) (omega arith) ∙ zeros
  ];
}

search_skips :
    (fuel : ℕ) (w : Worklist) (x : ℕ)
    → get_elem? w.queued.words w.cursor ≡ some x
    → x ≡ 0
    → search_from (suc fuel) w ≡ search_from fuel (record w { cursor = suc w.cursor })
unfolding search_from
search_skips fuel w x at e = simp (search_from, at) (rw (≡→== x 0 e))

search_takes :
    (fuel : ℕ) (w : Worklist) (x : ℕ)
    → get_elem? w.queued.words w.cursor ≡ some x
    → (x == 0) ≡ false
    → search_from (suc fuel) w ≡ take w x
unfolding search_from
search_takes fuel w x at e = simp (search_from, at) (rw e)

search_ends :
    (fuel : ℕ) (w : Worklist)
    → get_elem? w.queued.words w.cursor ≡ none
    → search_from (suc fuel) w ≡ ok (w, none)
unfolding search_from
search_ends fuel w at = simp (search_from, at)

any_cursor :
    (w : Worklist) (c : ℕ) (answer : Option ℕ) (out : Worklist)
    → Least (record w { cursor = c }) answer out
    → Least w answer out
any_cursor w c none out l = l
any_cursor w c (some i) out l = l

ends-Pops :
    (fuel : ℕ) (w : Worklist)
    → IsWorklist w
    → get_elem? w.queued.words w.cursor ≡ none
    → Pops w (search_from (suc fuel) w)
ends-Pops fuel w v e = record {
  out = w;
  answer = none;
  run = search_ends fuel w e;
  valid = v;
  bound = refl;
  least = ((λ j. ends w j v e), λ j. refl);
}

search_from-Pops :
    (fuel : ℕ) (w : Worklist)
    → IsWorklist w
    → length w.queued.words < w.cursor + fuel
    → w.cursor ≤ length w.queued.words
    → Pops w (search_from fuel w)
unfolding word
search_from-Pops zero w v h c = absurd (omega arith)
search_from-Pops (suc fuel) w v h c = elim (Option-cases (get_elem? w.queued.words w.cursor)) [
  | inl e ↦ ends-Pops fuel w v e
  | inr (x, at) ↦ elim (Bool-cases (x == 0)) [
    | inl q ↦
        let z = ==→≡ x 0 q in
        let further : Worklist = record w { cursor = suc w.cursor } in
        let rest =
          search_from-Pops fuel further (skips w v (ap value at ∙ z)) (omega arith)
            (omega (arith, lt_of_get_elem? w.queued.words w.cursor at)) in
        record {
          out = rest.out;
          answer = rest.answer;
          run = search_skips fuel w x at z ∙ rest.run;
          valid = rest.valid;
          bound = rest.bound;
          least = any_cursor w (suc w.cursor) rest.answer rest.out rest.least;
        }
    | inr q ↦
        let t = take-Pops w x v (ap value at) (==→≢ x 0 q) in
        record {
          out = t.out;
          answer = t.answer;
          run = search_takes fuel w x at q ∙ t.run;
          valid = t.valid;
          bound = t.bound;
          least = t.least;
        }
  ]
]

-- On a well-formed worklist pop_first returns the least index that waits and takes exactly it out;
-- it returns none exactly when nothing waits, and then the same indices wait as before.
pub pop_first-Pops : (w : Worklist) → IsWorklist w → Pops w (pop_first w)
unfolding pop_first
pop_first-Pops w v = elim (Bool-cases (ltb (length w.queued.words) w.cursor)) [
  | inl q ↦
      ends-Pops (length w.queued.words) w v
        (get_elem?_ge w.queued.words w.cursor (ground (arith, q)))
  | inr q ↦ search_from-Pops (suc (length w.queued.words)) w v (omega arith) (ground (arith, q))
]

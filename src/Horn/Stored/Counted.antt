-- ===== src/Horn/Stored/Counted.antt =====
-- The steps of the load test of crates/cfglib/src/graph/horn.rs: heads, mentions and lengths.
use cfglib.Prelude.{
  count, ℕ, zero, suc, ◌+◌, ◌<◌, ◌≡◌, ◌⊎◌, ◌↔◌, refl, sym, ap, subst, ◌∙◌, inl, inr, List, [], ◌∷◌,
  true, false, length, get_elem?, set, ltb, ltb→lt, ◌==◌, none, some, Bool-cases, Option-cases,
  ==→≡, ==→≢, lt→ltb, arith, length-set, get_elem?_lt, lt_of_get_elem?, get_elem?-set_self,
  get_elem?-set_ne,
}
use cfglib.Horn.Derivation.{AllBelow}
use cfglib.Horn.Stored.{any_past, count_mentions, same_list}

pub any_past_iff :
    (n : ℕ) (heads : List ℕ)
    → (any_past n heads ≡ false) ↔ ((i x : ℕ) → get_elem? heads i ≡ some x → x < n)
unfolding any_past
any_past_iff n [] = (λ e i x at. absurd (cc (at)), λ h. refl)
any_past_iff n (head ∷ heads) =
    let (to, from) = any_past_iff n heads in
    elim (Bool-cases (ltb head n)) [
      | inl inside ↦ (
        λ e i x at. elim (Option-cases (get_elem? (head ∷ heads) i)) [
          | inl none_ ↦ absurd (cc (none_, at))
          | inr (y, some_) ↦ at_place (ltb→lt head n inside) (to (rw inside at e)) i x at
        ],
        λ h. rw inside (from (λ i x at. h (suc i) x at)),
      )
      | inr outside ↦ (
        λ e. absurd (cc (rw outside at e)),
        λ h. absurd (cc (outside, lt→ltb head n (h 0 head refl))),
      )
    ]
  where
    at_place :
        head < n
        → ((i x : ℕ) → get_elem? heads i ≡ some x → x < n)
        → (i x : ℕ) → get_elem? (head ∷ heads) i ≡ some x
        → x < n
    at_place h rest zero x at = subst (λ y. y < n) (cc (at)) h
    at_place h rest (suc i) x at = rest i x at

pub same_list_iff : (xs ys : List ℕ) → (same_list xs ys ≡ true) ↔ (xs ≡ ys)
unfolding same_list
same_list_iff [] [] = (λ e. refl, λ e. refl)
same_list_iff [] (y ∷ ys) = (λ e. absurd (cc (e)), λ e. absurd (cc (e)))
same_list_iff (x ∷ xs) [] = (λ e. absurd (cc (e)), λ e. absurd (cc (e)))
same_list_iff (x ∷ xs) (y ∷ ys) =
    let (to, from) = same_list_iff xs ys in
    elim (Bool-cases (x == y)) [
      | inl same ↦
          let heads = ==→≡ x y same in
          (λ e. cc (heads, to (rw same at e)), λ e. rw same (from (cc (e))))
      | inr other ↦ (λ e. absurd (cc (rw other at e)), λ e. absurd (==→≢ x y other (cc (e))))
    ]

-- A list that answers every lookup as another of its length does is that list.
pub same_lookups :
    (xs ys : List ℕ)
    → length xs ≡ length ys
    → ((i x : ℕ) → get_elem? xs i ≡ some x → get_elem? ys i ≡ some x)
    → xs ≡ ys
same_lookups [] [] e h = refl
same_lookups [] (y ∷ ys) e h = absurd (omega (arith, e))
same_lookups (x ∷ xs) [] e h = absurd (omega (arith, e))
same_lookups (x ∷ xs) (y ∷ ys) e h =
    let rest = same_lookups xs ys (omega (arith, e)) (λ i z at. h (suc i) z at) in
    let first : some y ≡ some x = h 0 x refl in cc (rest, first)

-- What the loop counts, when every clause that is named exists.
pub record Counted (xs counts : List ℕ) : Type 0 where
  pub out : List ℕ
  pub run : count_mentions xs counts ≡ some out
  pub size : length out ≡ length counts
  pub total : (i n : ℕ) → get_elem? counts i ≡ some n → get_elem? out i ≡ some (n + count i xs)

pub count_mentions-Counted :
    (xs counts : List ℕ)
    → AllBelow (length counts) xs × Counted xs counts
      ⊎ (count_mentions xs counts ≡ none) × ¬ (AllBelow (length counts) xs)
unfolding count_mentions
count_mentions-Counted [] counts = inl (
  tt,
  record {
    out = counts;
    run = refl;
    size = refl;
    total = λ i n at. let same : n ≡ n + 0 = omega arith in at ∙ ap some same;
  },
)
count_mentions-Counted (x ∷ xs) counts = elim (Option-cases (get_elem? counts x)) [
  | inl missing ↦ inr (
    rw (missing, count_mentions) refl,
    λ below. let (n, at) = get_elem?_lt counts x below.0 in cc (missing, at),
  )
  | inr (n, at) ↦
      let counts' = set counts x (n + 1) in
      let same = length-set counts x (n + 1) in
      let inside = lt_of_get_elem? counts x at in
      elim (count_mentions-Counted xs counts') [
        | inl (below, c) ↦ inl (
          (inside, subst (λ m. AllBelow m xs) same below),
          record {
            out = c.out;
            run = rw (at, count_mentions) c.run;
            size = c.size ∙ same;
            total = λ i m here. elim (Bool-cases (x == i)) [
              | inl q ↦
                  let place = ==→≡ x i q in
                  let was : n ≡ m = cc (at, here, ap (get_elem? counts) place) in
                  let now : get_elem? counts' i ≡ some (n + 1) =
                    ap (get_elem? counts') (sym place)
                    ∙ get_elem?-set_self counts x (n + 1) inside in
                  let sum : (n + 1) + count i xs ≡ m + suc (count i xs) = omega (arith, was) in
                  rw q (c.total i (n + 1) now ∙ ap some sum)
              | inr q ↦ rw q (c.total i m (get_elem?-set_ne counts x i (n + 1) (==→≢ x i q) ∙ here))
            ];
          },
        )
        | inr (stops, past) ↦ inr (
          rw (at, count_mentions) stops,
          λ below. past (subst (λ m. AllBelow m xs) (sym same) below.1),
        )
      ]
]

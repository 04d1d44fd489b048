-- ===== src/Horn/Stored/Rows.antt =====
-- How often dependents rows of crates/cfglib/src/graph/horn.rs name each clause.
use cfglib.Prelude.{
  count, count-append, ℕ, zero, suc, ◌+◌, ◌<◌, ◌≤◌, ◌≡◌, refl, sym, ap, subst, ◌∙◌, inl, inr, List,
  [], ◌∷◌, ◌++◌, map, Bool, not, ◌&&◌, length, get_elem?, replicate, ltb, ltb→lt, some, Bool-cases,
  ≡→==, ≢→==, arith, length-replicate, get_elem?-replicate, lt_of_get_elem?,
}
use cfglib.Horn.Derivation.{Clause, AllBelow, hits}
use cfglib.Horn.Stored.{flatten}
use cfglib.Horn.Stored.Listed.{clauses_from, length-body_from}
use cfglib.Horn.Stored.Counted.{same_lookups, Counted}

-- How often a clause is named, for each clause from `i` on.
abbrev pub tally : ℕ → ℕ → List ℕ → List ℕ
tally i zero named = []
tally i (suc n) named = count i named ∷ tally (suc i) n named

pub length-tally : (i n : ℕ) (named : List ℕ) → length (tally i n named) ≡ n
length-tally i zero named = refl
length-tally i (suc n) named = ap suc (length-tally (suc i) n named)

pub get_elem?-tally :
    (i n : ℕ) (named : List ℕ) (j : ℕ)
    → j < n
    → get_elem? (tally i n named) j ≡ some (count (i + j) named)
get_elem?-tally i zero named j h = absurd (omega arith)
get_elem?-tally i (suc n) named zero h =
    let start : i ≡ i + 0 = omega arith in ap (λ (x : ℕ). some (count x named)) start
get_elem?-tally i (suc n) named (suc j) h =
    let shift : suc i + j ≡ i + suc j = omega arith in
    get_elem?-tally (suc i) n named j (omega arith) ∙ ap (λ (x : ℕ). some (count x named)) shift

-- The loop counts as `tally` does.
pub Counted-tally :
    (n : ℕ) (named : List ℕ) (c : Counted named (replicate n 0)) → c.out ≡ tally 0 n named
Counted-tally n named c =
    let wide = c.size ∙ length-replicate n 0 in
    same_lookups c.out (tally 0 n named) (wide ∙ sym (length-tally 0 n named)) (λ i x at.
      let inside : i < n = omega (arith, lt_of_get_elem? c.out i at, wide) in
      let was = c.total i 0 (get_elem?-replicate n 0 i inside) in
      let found = get_elem?-tally 0 n named i inside in
      let start : i ≡ 0 + i = omega arith in
      let same = ap (λ (x : ℕ). count x named) start in
      let sum : 0 + count i named ≡ count (0 + i) named = omega (arith, same) in
      cc (at, was, found, sum))

pub lens-clauses_from :
    (i : ℕ) (heads : List ℕ) (rows : List (List ℕ))
    → map (λ (c : Clause). length c.body) (clauses_from i heads rows)
      ≡ tally i (length heads) (flatten rows)
lens-clauses_from i [] rows = refl
lens-clauses_from i (head ∷ heads) rows =
    let first = length-body_from 0 rows i in
    let rest = lens-clauses_from (suc i) heads rows in cc (first, rest)

pub count-absent : (n : ℕ) (xs : List ℕ) (i : ℕ) → AllBelow n xs → n ≤ i → count i xs ≡ 0
count-absent n [] i below h = refl
count-absent n (x ∷ xs) i below h =
    let rest = count-absent n xs i below.1 h in
    let apart = ≢→== x i (λ q. omega (arith, below.0, q, h)) in rw apart rest

AllBelow-split : (n : ℕ) (xs ys : List ℕ) → AllBelow n (xs ++ ys) → AllBelow n xs × AllBelow n ys
AllBelow-split n [] ys below = (tt, below)
AllBelow-split n (x ∷ xs) ys below =
    let (a, b) = AllBelow-split n xs ys below.1 in ((below.0, a), b)

pub AllBelow-row :
    (n : ℕ) (rows : List (List ℕ)) (k : ℕ) (row : List ℕ)
    → AllBelow n (flatten rows)
    → get_elem? rows k ≡ some row
    → AllBelow n row
AllBelow-row n [] k row below at = absurd (cc (at))
AllBelow-row n (first ∷ rows) zero row below at =
    subst (AllBelow n) (cc (at)) (AllBelow-split n first (flatten rows) below).0
AllBelow-row n (first ∷ rows) (suc k) row below at =
    AllBelow-row n rows k row (AllBelow-split n first (flatten rows) below).1 at

-- Whether a fact is one of the `n` from `k` on.
abbrev pub within : ℕ → ℕ → ℕ → Bool
within k n x = not (ltb x k) && ltb x (k + n)

hits-within_none : (k : ℕ) (body : List ℕ) → hits (within k 0) body ≡ 0
hits-within_none k [] = refl
hits-within_none k (x ∷ body) = let rest = hits-within_none k body in ground (arith, rest)

hits-within :
    (k n : ℕ) (body : List ℕ)
    → hits (within k (suc n)) body ≡ count k body + hits (within (suc k) n) body
hits-within k n [] = refl
hits-within k n (x ∷ body) = let rest = hits-within k n body in ground (arith, rest)

pub hits-within_all :
    (n : ℕ) (body : List ℕ) → AllBelow n body → hits (within 0 n) body ≡ length body
hits-within_all n [] below = refl
hits-within_all n (x ∷ body) below =
    let rest = hits-within_all n body below.1 in let first = below.0 in ground (arith, rest, first)

-- The rows name a clause once for each place in its body that is one of their facts.
pub count-flatten :
    (k : ℕ) (rows : List (List ℕ)) (i : ℕ) (body : List ℕ)
    → ((j : ℕ) (row : List ℕ) → get_elem? rows j ≡ some row → count i row ≡ count (k + j) body)
    → count i (flatten rows) ≡ hits (within k (length rows)) body
count-flatten k [] i body same = sym (hits-within_none k body)
count-flatten k (row ∷ rows) i body same =
    let rest = count-flatten (suc k) rows i body (λ j r at.
      let shift : k + suc j ≡ suc k + j = omega arith in
      same (suc j) r at ∙ ap (λ (x : ℕ). count x body) shift) in
    let start : k + 0 ≡ k = omega arith in
    let first = same 0 row refl ∙ ap (λ (x : ℕ). count x body) start in
    omega (arith, rest, first, count-append i row (flatten rows), hits-within k (length rows) body)

-- Rows that name a clause only where its body has a fact name none but the clauses.
pub mentioned_below :
    (n : ℕ) (rows : List (List ℕ))
    → ((k : ℕ) (row : List ℕ) → get_elem? rows k ≡ some row → (i : ℕ) → n ≤ i → count i row ≡ 0)
    → AllBelow n (flatten rows)
mentioned_below n [] none_past = tt
mentioned_below n (row ∷ rows) none_past =
    joined row (none_past 0 row refl) (mentioned_below n rows (λ k r at. none_past (suc k) r at))
  where
    joined :
        (xs : List ℕ)
        → ((i : ℕ) → n ≤ i → count i xs ≡ 0)
        → AllBelow n (flatten rows)
        → AllBelow n (xs ++ flatten rows)
    joined [] zero_past rest = rest
    joined (x ∷ xs) zero_past rest = elim (Bool-cases (ltb x n)) [
      | inl inside ↦
          (ltb→lt x n inside, joined xs (λ i h. let z = zero_past i h in ground (arith, z)) rest)
      | inr outside ↦
          let z = zero_past x (ground arith) in
          let here = ≡→== x x refl in absurd (ground (arith, z, here))
    ]

-- ===== src/Horn/Stored/Listed.antt =====
-- The clauses that dependents rows list, for the load test of crates/cfglib/src/graph/horn.rs: a clause
-- has each fact in its body as often as the row of that fact names it.
use cfglib.Prelude.{
  count, count-append, ℕ, zero, suc, ◌+◌, ◌<◌, ◌≤◌, ◌≡◌, refl, ap, ◌∙◌, List, [], ◌∷◌, ◌++◌, map,
  length, get_elem?, replicate, ◌==◌, if◌then◌else◌, some, arith, length-append, length-replicate,
}
use cfglib.Horn.Derivation.{Clause, AllBelow}
use cfglib.Horn.Stored.{flatten}

-- The body of the clause `i`, from rows that are those of the facts from `fact` on.
abbrev pub body_from : ℕ → List (List ℕ) → ℕ → List ℕ
body_from fact [] i = []
body_from fact (row ∷ rows) i = replicate (count i row) fact ++ body_from (suc fact) rows i

abbrev pub clauses_from : ℕ → List ℕ → List (List ℕ) → List Clause
clauses_from i [] rows = []
clauses_from i (head ∷ heads) rows =
    record { head = head; body = body_from 0 rows i } ∷ clauses_from (suc i) heads rows

count-replicate : (n x y : ℕ) → count y (replicate n x) ≡ (if x == y then n else 0)
count-replicate zero x y = ground arith
count-replicate (suc n) x y = let rest = count-replicate n x y in ground (arith, rest)

-- A body is as long as its clause is named.
pub length-body_from :
    (fact : ℕ) (rows : List (List ℕ)) (i : ℕ)
    → length (body_from fact rows i) ≡ count i (flatten rows)
length-body_from fact [] i = refl
length-body_from fact (row ∷ rows) i =
    let rest = length-body_from (suc fact) rows i in
    omega (
      arith,
      rest,
      length-append (replicate (count i row) fact) (body_from (suc fact) rows i),
      length-replicate (count i row) fact,
      count-append i row (flatten rows),
    )

-- No fact below the first is in a body.
count-body_from_low :
    (fact : ℕ) (rows : List (List ℕ)) (i f : ℕ) → f < fact → count f (body_from fact rows i) ≡ 0
count-body_from_low fact [] i f h = refl
count-body_from_low fact (row ∷ rows) i f h =
    let rest = count-body_from_low (suc fact) rows i f (omega arith) in
    let both = count-append f (replicate (count i row) fact) (body_from (suc fact) rows i) in
    let first = count-replicate (count i row) fact f in ground (arith, rest, both, first)

pub count-body_from :
    (fact : ℕ) (rows : List (List ℕ)) (i k : ℕ) (row : List ℕ)
    → get_elem? rows k ≡ some row
    → count (fact + k) (body_from fact rows i) ≡ count i row
count-body_from fact [] i k row at = absurd (cc (at))
count-body_from fact (first ∷ rows) i zero row at =
    let start : fact + 0 ≡ fact = omega arith in
    let low = count-body_from_low (suc fact) rows i fact (omega arith) in
    let both = count-append fact (replicate (count i first) fact) (body_from (suc fact) rows i) in
    let here = count-replicate (count i first) fact fact in
    let same : first ≡ row = cc (at) in
    rw start (ground (arith, low, both, here) ∙ ap (count i) same)
count-body_from fact (first ∷ rows) i (suc k) row at =
    let shift : fact + suc k ≡ suc fact + k = omega arith in
    let rest = count-body_from (suc fact) rows i k row at in
    let both =
      count-append (suc fact + k) (replicate (count i first) fact) (body_from (suc fact) rows i) in
    let here = count-replicate (count i first) fact (suc fact + k) in
    rw shift (ground (arith, rest, both, here))

AllBelow-append : (n : ℕ) (xs ys : List ℕ) → AllBelow n xs → AllBelow n ys → AllBelow n (xs ++ ys)
AllBelow-append n [] ys a b = b
AllBelow-append n (x ∷ xs) ys a b = (a.0, AllBelow-append n xs ys a.1 b)

AllBelow-replicate : (n m x : ℕ) → x < n → AllBelow n (replicate m x)
AllBelow-replicate n zero x h = tt
AllBelow-replicate n (suc m) x h = (h, AllBelow-replicate n m x h)

pub AllBelow-body_from :
    (n fact : ℕ) (rows : List (List ℕ)) (i : ℕ)
    → fact + length rows ≤ n
    → AllBelow n (body_from fact rows i)
AllBelow-body_from n fact [] i h = tt
AllBelow-body_from n fact (row ∷ rows) i h =
    AllBelow-append n (replicate (count i row) fact) (body_from (suc fact) rows i)
      (AllBelow-replicate n (count i row) fact (omega (arith, h)))
      (AllBelow-body_from n (suc fact) rows i (omega (arith, h)))

pub get_elem?-clauses_from :
    (i : ℕ) (heads : List ℕ) (rows : List (List ℕ)) (j head : ℕ)
    → get_elem? heads j ≡ some head
    → get_elem? (clauses_from i heads rows) j
      ≡ some (record { head = head; body = body_from 0 rows (i + j) })
get_elem?-clauses_from i [] rows j head at = absurd (cc (at))
get_elem?-clauses_from i (first ∷ heads) rows zero head at =
    let start : i ≡ i + 0 = omega arith in
    let same : first ≡ head = cc (at) in
    ap (λ (x : ℕ). some (record { head = x; body = body_from 0 rows i })) same
    ∙ ap (λ (x : ℕ). some (record { head = head; body = body_from 0 rows x })) start
get_elem?-clauses_from i (first ∷ heads) rows (suc j) head at =
    let shift : suc i + j ≡ i + suc j = omega arith in
    get_elem?-clauses_from (suc i) heads rows j head at
    ∙ ap (λ (x : ℕ). some (record { head = head; body = body_from 0 rows x })) shift

pub length-clauses_from :
    (i : ℕ) (heads : List ℕ) (rows : List (List ℕ))
    → length (clauses_from i heads rows) ≡ length heads
length-clauses_from i [] rows = refl
length-clauses_from i (head ∷ heads) rows = ap suc (length-clauses_from (suc i) heads rows)

pub heads-clauses_from :
    (i : ℕ) (heads : List ℕ) (rows : List (List ℕ))
    → map (λ (c : Clause). c.head) (clauses_from i heads rows) ≡ heads
heads-clauses_from i [] rows = refl
heads-clauses_from i (head ∷ heads) rows = ap (◌∷◌ head) (heads-clauses_from (suc i) heads rows)

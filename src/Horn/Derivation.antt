-- ===== src/Horn/Derivation.antt =====
-- What clauses derive, as an inductive relation, and when the tables of
-- crates/cfglib/src/graph/horn.rs stand for a list of clauses.
use cfglib.Prelude.{
  count, ℕ, zero, suc, ◌+◌, ◌<◌, ◌≤◌, ◌≡◌, refl, List, [], ◌∷◌, map, Bool, true, false, length,
  get_elem?, ◌==◌, if◌then◌else◌, Option, none, some, Bool-cases, inl, inr, arith,
}
use cfglib.Horn.{HornClauses}

pub record Clause : Type 0 where
  pub head : ℕ
  pub body : List ℕ

-- The facts that clauses derive: the head of a clause whose body they derive.
pub data Derivable (clauses : List Clause) : ℕ → Type 0 where
  by_clause :
      (i : ℕ) (c : Clause)
      → get_elem? clauses i ≡ some c
      → ((j fact : ℕ) → get_elem? c.body j ≡ some fact → Derivable clauses fact)
      → Derivable clauses c.head

-- How many entries pass a test.
abbrev pub hits : (ℕ → Bool) → List ℕ → ℕ
hits p [] = 0
hits p (x ∷ xs) = if p x then suc (hits p xs) else hits p xs

abbrev pub body_of : Option Clause → List ℕ
body_of none = []
body_of (some c) = c.body

abbrev pub AllBelow : ℕ → List ℕ → Type 0
AllBelow n [] = Unit
AllBelow n (x ∷ xs) = (x < n) × AllBelow n xs

-- The tables stand for the clauses, and name facts only.
pub record Represents (h : HornClauses) (clauses : List Clause) : Type 0 where
  pub heads : h.heads ≡ map (λ c. c.head) clauses
  pub lens : h.body_lens ≡ map (λ c. length c.body) clauses
  pub rows : length h.dependents ≡ h.fact_count
  pub mentions :
      (fact : ℕ) (row : List ℕ)
      → get_elem? h.dependents fact ≡ some row
      → (i : ℕ) → count i row ≡ count fact (body_of (get_elem? clauses i))
  pub head_below : (i : ℕ) (c : Clause) → get_elem? clauses i ≡ some c → c.head < h.fact_count

pub hits-le : (p : ℕ → Bool) (xs : List ℕ) → hits p xs ≤ length xs
hits-le p [] = omega arith
hits-le p (x ∷ xs) = ground (arith, hits-le p xs)

-- If every entry passes, each does.
pub hits_all :
    (p : ℕ → Bool) (xs : List ℕ) (j x : ℕ)
    → hits p xs ≡ length xs
    → get_elem? xs j ≡ some x
    → p x ≡ true
hits_all p [] j x e at = absurd (cc)
hits_all p (y ∷ xs) zero x e at = elim (Bool-cases (p y)) [
  | inl h ↦ ground (arith, h, at)
  | inr h ↦ absurd (omega (arith, rw h at e, hits-le p xs))
]
hits_all p (y ∷ xs) (suc j) x e at = elim (Bool-cases (p y)) [
  | inl h ↦ hits_all p xs j x (omega (arith, rw h at e)) at
  | inr h ↦ absurd (omega (arith, rw h at e, hits-le p xs))
]

-- If each entry passes, every one does.
pub hits_full :
    (p : ℕ → Bool) (xs : List ℕ)
    → ((j x : ℕ) → get_elem? xs j ≡ some x → p x ≡ true)
    → hits p xs ≡ length xs
hits_full p [] all = refl
hits_full p (x ∷ xs) all =
    let rest = hits_full p xs (λ j y at. all (suc j) y at) in ground (arith, all 0 x refl, rest)

-- One value more that passes.
abbrev pub also : ℕ → (ℕ → Bool) → ℕ → Bool
also fact p x = if fact == x then true else p x

pub hits-also :
    (p : ℕ → Bool) (fact : ℕ) (xs : List ℕ)
    → p fact ≡ false
    → hits (also fact p) xs ≡ hits p xs + count fact xs
hits-also p fact [] e = refl
hits-also p fact (x ∷ xs) e =
    let rest = hits-also p fact xs e in
    elim (Bool-cases (fact == x)) [
      | inl q ↦ ground (arith, e, q, rest)
      | inr q ↦ ground (arith, q, rest)
    ]

pub hits_none : (xs : List ℕ) → hits (λ x. false) xs ≡ 0
hits_none [] = refl
hits_none (x ∷ xs) = hits_none xs

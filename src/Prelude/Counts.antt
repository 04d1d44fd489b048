-- ===== src/Prelude/Counts.antt =====
-- Members of a list of numbers, and how often they are in it.
use Prim.Native.Nat.{ℕ, zero, suc, ◌+◌}
use mathlib.Core.Option.{some}
use cfglib.Prelude.Lists.{get_elem?}
use mathlib.Core.Path.{◌≡◌, refl}
use mathlib.Core.Logic.{◌⊎◌, inl, inr}
use mathlib.Core.Bool.{Bool, true, false}
use mathlib.Core.List.{List, [], ◌∷◌, ◌++◌}
use native.Mathlib.Omega.{arith}
use cfglib.Prelude.Tests.{◌==◌, if◌then◌else◌, Bool-cases, ≡→==}

pub List-cases {ℓ} : {A : Type ℓ} (l : List A) → (l ≡ []) ⊎ ((x : A) × (xs : List A) × (l ≡ x ∷ xs))
List-cases [] = inl refl
List-cases (x ∷ xs) = inr (x, xs, refl)

-- Whether a number is in a list.
abbrev pub elem : ℕ → List ℕ → Bool
elem j [] = false
elem j (i ∷ indices) = if i == j then true else elem j indices

pub elem_later : (f i : ℕ) (is : List ℕ) → elem f is ≡ true → elem f (i ∷ is) ≡ true
elem_later f i is e = elim (Bool-cases (i == f)) [ inl q ↦ rw q refl | inr q ↦ rw q e ]

-- How often a number is in a list.
abbrev pub count : ℕ → List ℕ → ℕ
count n [] = 0
count n (x ∷ xs) = if x == n then suc (count n xs) else count n xs

pub count-append : (n : ℕ) (xs ys : List ℕ) → count n (xs ++ ys) ≡ count n xs + count n ys
count-append n [] ys = omega arith
count-append n (x ∷ xs) ys = let rest = count-append n xs ys in ground (arith, rest)

pub elem-get_elem? : (xs : List ℕ) (k i : ℕ) → get_elem? xs k ≡ some i → elem i xs ≡ true
elem-get_elem? [] k i at = absurd (cc (at))
elem-get_elem? (x ∷ xs) zero i at = rw (≡→== x i (cc (at))) refl
elem-get_elem? (x ∷ xs) (suc k) i at = elem_later i x xs (elem-get_elem? xs k i at)

-- ===== src/Prelude/Lists.antt =====
-- `Vec<T>` as a list measured and indexed by native numbers, under the library's names.
use Prim.Native.Nat.{ℕ, zero, suc, ◌+◌, ◌-◌, ◌<◌, ◌≤◌}
use mathlib.Core.Path.{◌≡◌, refl, ap, ◌∙◌}
use mathlib.Core.Logic.{◌≢◌, ◌⊎◌, inl, inr}
use mathlib.Core.List.{List, [], ◌∷◌, ◌++◌, map, reverse, reverse-append}
use mathlib.Core.Option
use mathlib.Core.Option.{Option, none, some}
use native.Mathlib.Omega.{arith}

abbrev pub value : Option ℕ → ℕ
value none = 0
value (some n) = n

module _ {ℓ} {A : Type ℓ} where
  abbrev pub length : List A → ℕ
  length [] = 0
  length (x ∷ xs) = suc (length xs)

  abbrev pub get_elem? : List A → ℕ → Option A
  get_elem? [] i = none
  get_elem? (x ∷ xs) zero = some x
  get_elem? (x ∷ xs) (suc i) = get_elem? xs i

  abbrev pub set : List A → ℕ → A → List A
  set [] i v = []
  set (x ∷ xs) zero v = v ∷ xs
  set (x ∷ xs) (suc i) v = x ∷ set xs i v

  abbrev pub replicate : ℕ → A → List A
  replicate zero a = []
  replicate (suc n) a = a ∷ replicate n a

  pub length-append : (xs ys : List A) → length (xs ++ ys) ≡ length xs + length ys
  length-append [] ys = omega arith
  length-append (x ∷ xs) ys = omega (arith, length-append xs ys)

  pub length-set : (xs : List A) (i : ℕ) (v : A) → length (set xs i v) ≡ length xs
  length-set [] i v = refl
  length-set (x ∷ xs) zero v = refl
  length-set (x ∷ xs) (suc i) v = ap suc (length-set xs i v)

  pub length-replicate : (n : ℕ) (a : A) → length (replicate n a) ≡ n
  length-replicate zero a = refl
  length-replicate (suc n) a = ap suc (length-replicate n a)

  pub get_elem?-set_self :
      (xs : List A) (i : ℕ) (v : A) → i < length xs → get_elem? (set xs i v) i ≡ some v
  get_elem?-set_self [] i v h = absurd (omega arith)
  get_elem?-set_self (x ∷ xs) zero v h = refl
  get_elem?-set_self (x ∷ xs) (suc i) v h = get_elem?-set_self xs i v (omega arith)

  pub get_elem?-set_ne :
      (xs : List A) (i j : ℕ) (v : A) → i ≢ j → get_elem? (set xs i v) j ≡ get_elem? xs j
  get_elem?-set_ne [] i j v h = refl
  get_elem?-set_ne (x ∷ xs) zero zero v h = absurd (h refl)
  get_elem?-set_ne (x ∷ xs) zero (suc j) v h = refl
  get_elem?-set_ne (x ∷ xs) (suc i) zero v h = refl
  get_elem?-set_ne (x ∷ xs) (suc i) (suc j) v h = get_elem?-set_ne xs i j v (λ e. h (ap suc e))

  -- A read after a write is of the written value, or of an element that stood there before.
  pub get_elem?-set_cases :
      (xs : List A) (i j : ℕ) (v : A) {w : A}
      → get_elem? (set xs i v) j ≡ some w
      → (i ≡ j) × (w ≡ v) ⊎ (i ≢ j) × (get_elem? xs j ≡ some w)
  get_elem?-set_cases [] i j v e = cc
  get_elem?-set_cases (x ∷ xs) zero zero v e = inl (refl, cc)
  get_elem?-set_cases (x ∷ xs) zero (suc j) v e = inr ((λ q. absurd (omega arith)), e)
  get_elem?-set_cases (x ∷ xs) (suc i) zero v e = inr ((λ q. absurd (omega arith)), e)
  get_elem?-set_cases (x ∷ xs) (suc i) (suc j) v e = ground (arith, get_elem?-set_cases xs i j v e)

  -- A read succeeds exactly inside the list.
  pub get_elem?_lt : (xs : List A) (i : ℕ) → i < length xs → (x : A) × (get_elem? xs i ≡ some x)
  get_elem?_lt [] i h = absurd (omega arith)
  get_elem?_lt (x ∷ xs) zero h = (x, refl)
  get_elem?_lt (x ∷ xs) (suc i) h = get_elem?_lt xs i (omega arith)

  pub lt_of_get_elem? : (xs : List A) (i : ℕ) {x : A} → get_elem? xs i ≡ some x → i < length xs
  lt_of_get_elem? [] i h = cc
  lt_of_get_elem? (x ∷ xs) zero h = omega arith
  lt_of_get_elem? (x ∷ xs) (suc i) h = omega (arith, lt_of_get_elem? xs i h)

  pub get_elem?_ge : (xs : List A) (i : ℕ) → length xs ≤ i → get_elem? xs i ≡ none
  get_elem?_ge [] i h = refl
  get_elem?_ge (x ∷ xs) zero h = absurd (omega arith)
  get_elem?_ge (x ∷ xs) (suc i) h = get_elem?_ge xs i (omega arith)

  pub get_elem?-append_left :
      (xs ys : List A) (i : ℕ) → i < length xs → get_elem? (xs ++ ys) i ≡ get_elem? xs i
  get_elem?-append_left [] ys i h = absurd (omega arith)
  get_elem?-append_left (x ∷ xs) ys zero h = refl
  get_elem?-append_left (x ∷ xs) ys (suc i) h = get_elem?-append_left xs ys i (omega arith)

  pub get_elem?-append_right :
      (xs ys : List A) (i : ℕ)
      → length xs ≤ i
      → get_elem? (xs ++ ys) i ≡ get_elem? ys (i - length xs)
  get_elem?-append_right [] ys i h = ap (get_elem? ys) (omega arith)
  get_elem?-append_right (x ∷ xs) ys zero h = absurd (omega arith)
  get_elem?-append_right (x ∷ xs) ys (suc i) h =
      get_elem?-append_right xs ys i (omega arith) ∙ ap (get_elem? ys) (omega arith)

  pub get_elem?-append_last : (xs : List A) (x : A) → get_elem? (xs ++ x ∷ []) (length xs) ≡ some x
  get_elem?-append_last [] x = refl
  get_elem?-append_last (y ∷ xs) x = get_elem?-append_last xs x

  pub get_elem?-replicate : (n : ℕ) (a : A) (i : ℕ) → i < n → get_elem? (replicate n a) i ≡ some a
  get_elem?-replicate zero a i h = absurd (omega arith)
  get_elem?-replicate (suc n) a zero h = refl
  get_elem?-replicate (suc n) a (suc i) h = get_elem?-replicate n a i (omega arith)

module _ {ℓ} {A : Type ℓ} where
  abbrev pub take : ℕ → List A → List A
  take zero xs = []
  take (suc n) [] = []
  take (suc n) (x ∷ xs) = x ∷ take n xs

  pub take_all : (xs : List A) (n : ℕ) → length xs ≤ n → take n xs ≡ xs
  take_all [] zero h = refl
  take_all [] (suc n) h = refl
  take_all (x ∷ xs) zero h = absurd (omega arith)
  take_all (x ∷ xs) (suc n) h = ap (◌∷◌ x) (take_all xs n (omega arith))

  pub take-suc :
      (xs : List A) (n : ℕ) {x : A}
      → get_elem? xs n ≡ some x
      → take (suc n) xs ≡ take n xs ++ x ∷ []
  take-suc [] n e = cc
  take-suc (y ∷ xs) zero e = cc
  take-suc (y ∷ xs) (suc n) e = ap (◌∷◌ y) (take-suc xs n e)

pub length-map {ℓ κ} :
    {A : Type ℓ} {B : Type κ} (f : A → B) (xs : List A) → length (map f xs) ≡ length xs
length-map f [] = refl
length-map f (x ∷ xs) = ap suc (length-map f xs)

pub get_elem?-map {ℓ κ} :
    {A : Type ℓ} {B : Type κ} (f : A → B) (xs : List A) (i : ℕ)
    → get_elem? (map f xs) i ≡ Option.map f (get_elem? xs i)
get_elem?-map f [] i = refl
get_elem?-map f (x ∷ xs) zero = refl
get_elem?-map f (x ∷ xs) (suc i) = get_elem?-map f xs i

-- The range `start..start + n`.
abbrev pub range_from : ℕ → ℕ → List ℕ
range_from start zero = []
range_from start (suc n) = start ∷ range_from (suc start) n

pub length-range_from : (s n : ℕ) → length (range_from s n) ≡ n
length-range_from s zero = refl
length-range_from s (suc n) = ap suc (length-range_from (suc s) n)

pub get_elem?-range_from : (s n i : ℕ) → i < n → get_elem? (range_from s n) i ≡ some (s + i)
get_elem?-range_from s zero i h = absurd (omega arith)
get_elem?-range_from s (suc n) zero h = ap some (omega arith)
get_elem?-range_from s (suc n) (suc i) h = ground (arith, get_elem?-range_from (suc s) n i)

-- An element of a list, with its place.
abbrev pub In {ω} : {A : Type ω} → A → List A → Type ω
In a xs = (k : ℕ) × (get_elem? xs k ≡ some a)

pub In-later {ω} : {A : Type ω} (a x : A) (xs : List A) → In a xs → In a (x ∷ xs)
In-later a x xs (k, at) = (suc k, at)

pub In-cases {ω} : {A : Type ω} (a x : A) (xs : List A) → In a (x ∷ xs) → (x ≡ a) ⊎ In a xs
In-cases a x xs (zero, at) = inl (cc (at))
In-cases a x xs (suc k, at) = inr (k, at)

In-append_right {ω} : {A : Type ω} (a : A) (xs ys : List A) → In a ys → In a (xs ++ ys)
In-append_right a [] ys h = h
In-append_right a (x ∷ xs) ys h = In-later a x (xs ++ ys) (In-append_right a xs ys h)

In-append_left {ω} : {A : Type ω} (a : A) (xs ys : List A) → In a xs → In a (xs ++ ys)
In-append_left a [] ys (k, at) = absurd (cc (at))
In-append_left a (x ∷ xs) ys h = elim (In-cases a x xs h) [
  | inl same ↦ (0, ap some same)
  | inr later ↦ In-later a x (xs ++ ys) (In-append_left a xs ys later)
]

In-append_cases {ω} : {A : Type ω} (a : A) (xs ys : List A) → In a (xs ++ ys) → In a xs ⊎ In a ys
In-append_cases a [] ys h = inr h
In-append_cases a (x ∷ xs) ys h = elim (In-cases a x (xs ++ ys) h) [
  | inl same ↦ inl (0, ap some same)
  | inr later ↦ elim (In-append_cases a xs ys later) [
    | inl left ↦ inl (In-later a x xs left)
    | inr right ↦ inr right
  ]
]

pub In-reverse {ω} : {A : Type ω} (a : A) (xs : List A) → In a xs → In a (reverse xs)
In-reverse a [] h = h
In-reverse a (x ∷ xs) h = rw (reverse-append (x ∷ []) xs) (elim (In-cases a x xs h) [
  | inl same ↦ In-append_right a (reverse xs) (x ∷ []) (0, ap some same)
  | inr later ↦ In-append_left a (reverse xs) (x ∷ []) (In-reverse a xs later)
])

pub In-of_reverse {ω} : {A : Type ω} (a : A) (xs : List A) → In a (reverse xs) → In a xs
In-of_reverse a [] h = h
In-of_reverse a (x ∷ xs) h =
    elim (In-append_cases a (reverse xs) (x ∷ []) (rw (reverse-append (x ∷ []) xs) at h)) [
      | inl old ↦ In-later a x xs (In-of_reverse a xs old)
      | inr new ↦ elim (In-cases a x [] new) [
        | inl same ↦ (0, ap some same)
        | inr (k, at) ↦ absurd (cc (at))
      ]
    ]

pub length-reverse {ω} : {A : Type ω} (xs : List A) → length (reverse xs) ≡ length xs
length-reverse [] = refl
length-reverse (x ∷ xs) =
    rw (reverse-append (x ∷ []) xs)
      (omega (arith, length-append (reverse xs) (x ∷ []), length-reverse xs))

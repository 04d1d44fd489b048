-- ===== src/Dataflow/Bits/Ones/Positions.antt =====
-- The places of the bits of a word and of a row of words, which the iterators of
-- crates/cfglib/src/dataflow/bits.rs yield.
use cfglib.Prelude.{
  ℕ, zero, suc, ◌+◌, ◌-◌, ◌*◌, ◌/◌, ◌%◌, ◌<◌, ◌≤◌, ◌≡◌, ◌≢◌, refl, ◌∙◌, ap, inl, inr, List, [], ◌∷◌,
  ◌++◌, false, length, ◌==◌, if◌then◌else◌, Bool-cases, ==→≡, ==→≢, arith, length-append,
}
use cfglib.Words.{bit, zero_of_bits, bit-bit_and}
use cfglib.Dataflow.Worklist.{trailing_zeros}
use cfglib.Dataflow.Bits.Ones.{without_lowest, count_bits, count_words}
use cfglib.Dataflow.Bits.Ones.Lowest.{without_lowest-odd, without_lowest-even}

-- The places of the bits among the first `n` of a word whose bit zero is at `base`.
abbrev pub positions : ℕ → ℕ → ℕ → List ℕ
positions zero base w = []
positions (suc n) base w =
    let rest = positions n (suc base) (w / 2) in if w % 2 == 1 then base ∷ rest else rest

-- Those of a row, from the word at place `p` on.
abbrev pub row_positions : ℕ → List ℕ → List ℕ
row_positions p [] = []
row_positions p (w ∷ ws) = positions 64 (p * 64) w ++ row_positions (suc p) ws

-- No bit past the first `n`.
abbrev pub Narrow : ℕ → ℕ → Type 0
Narrow n w = (j : ℕ) → n ≤ j → bit w j ≡ 0

pub positions_none : (n base : ℕ) → positions n base 0 ≡ []
positions_none zero base = refl
positions_none (suc n) base = positions_none n (suc base)

-- The first place is that of the lowest bit, and the others are those of the word without it.
pub positions_first :
    (n base w : ℕ)
    → w ≢ 0
    → Narrow n w
    → positions n base w ≡ (base + trailing_zeros n w) ∷ positions n base (without_lowest w)
unfolding trailing_zeros bit
positions_first zero base w some_ narrow =
    absurd (some_ (zero_of_bits w w (omega arith) (λ j. narrow j (omega arith))))
positions_first (suc n) base w some_ narrow = elim (Bool-cases (w % 2 == 1)) [
  | inl q ↦
      let odd = ==→≡ (w % 2) 1 q in
      let less = without_lowest-odd w odd in
      let low : (without_lowest w % 2 == 1) ≡ false = ground (arith, less, odd) in
      let high : w / 2 ≡ without_lowest w / 2 = omega (arith, less, odd) in
      let start : base ≡ base + 0 = omega arith in
      rw (q, low)
        (ap (λ x. x ∷ positions n (suc base) (w / 2)) start
          ∙ ap (λ x. (base + 0) ∷ positions n (suc base) x) high)
  | inr q ↦
      let even = ==→≢ (w % 2) 1 q in
      let less = without_lowest-even w even some_ in
      let low : (without_lowest w % 2 == 1) ≡ false = ground (arith, less) in
      let high : without_lowest (w / 2) ≡ without_lowest w / 2 = omega (arith, less) in
      let rest =
        positions_first n (suc base) (w / 2) (λ z. some_ (omega (arith, z, even)))
          (λ j h. narrow (suc j) (omega arith)) in
      let shift : suc base + trailing_zeros n (w / 2) ≡ base + suc (trailing_zeros n (w / 2)) =
        omega arith in
      rw (q, low)
        (rest
          ∙ ap (λ x. x ∷ positions n (suc base) (without_lowest (w / 2))) shift
          ∙ ap (λ x. (base + suc (trailing_zeros n (w / 2))) ∷ positions n (suc base) x) high)
]

pub Narrow-without_lowest : (n w : ℕ) → Narrow n w → Narrow n (without_lowest w)
unfolding without_lowest
Narrow-without_lowest n w narrow j h = omega (arith, narrow j h, bit-bit_and w (w - 1) j)

pub length-positions : (n base w : ℕ) → length (positions n base w) ≡ count_bits n w
unfolding count_bits
length-positions zero base w = refl
length-positions (suc n) base w =
    let rest = length-positions n (suc base) (w / 2) in
    elim (Bool-cases (w % 2 == 1)) [
      | inl q ↦ rw q (omega (arith, rest, ==→≡ (w % 2) 1 q))
      | inr q ↦ rw q (omega (arith, rest, ==→≢ (w % 2) 1 q))
    ]

pub length-row_positions : (p : ℕ) (ws : List ℕ) → length (row_positions p ws) ≡ count_words ws
unfolding count_words
length-row_positions p [] = refl
length-row_positions p (w ∷ ws) = omega (
  arith,
  length-append (positions 64 (p * 64) w) (row_positions (suc p) ws),
  length-positions 64 (p * 64) w,
  length-row_positions (suc p) ws,
)

-- A list that ascends, from `low` on and below `high`.
abbrev pub Ascends : ℕ → ℕ → List ℕ → Type 0
Ascends low high [] = Unit {0}
Ascends low high (x ∷ xs) = (low ≤ x) × (x < high) × Ascends (suc x) high xs

pub Ascends-weaken :
    (low low' high high' : ℕ) (xs : List ℕ)
    → low' ≤ low
    → high ≤ high'
    → Ascends low high xs
    → Ascends low' high' xs
Ascends-weaken low low' high high' [] h k a = tt
Ascends-weaken low low' high high' (x ∷ xs) h k a = (
  omega (arith, h, a.0),
  omega (arith, k, a.1),
  Ascends-weaken (suc x) (suc x) high high' xs (omega arith) k a.2,
)

Ascends-append :
    (low mid high : ℕ) (xs ys : List ℕ)
    → low ≤ mid
    → mid ≤ high
    → Ascends low mid xs
    → Ascends mid high ys
    → Ascends low high (xs ++ ys)
Ascends-append low mid high [] ys h k a b = Ascends-weaken mid low high high ys h (omega arith) b
Ascends-append low mid high (x ∷ xs) ys h k a b =
    (a.0, omega (arith, a.1, k), Ascends-append (suc x) mid high xs ys (omega (arith, a.1)) k a.2 b)

pub Ascends-positions : (n base w : ℕ) → Ascends base (base + n) (positions n base w)
Ascends-positions zero base w = tt
Ascends-positions (suc n) base w =
    let rest = Ascends-positions n (suc base) (w / 2) in
    elim (Bool-cases (w % 2 == 1)) [
      | inl q ↦ rw q (
        omega arith,
        omega arith,
        Ascends-weaken (suc base) (suc base) (suc base + n) (base + suc n)
            (positions n (suc base) (w / 2)) (omega arith) (omega arith) rest,
      )
      | inr q ↦ rw q (
          Ascends-weaken (suc base) base (suc base + n) (base + suc n)
            (positions n (suc base) (w / 2)) (omega arith) (omega arith) rest)
    ]

pub Ascends-row_positions :
    (p : ℕ) (ws : List ℕ) → Ascends (p * 64) ((p + length ws) * 64) (row_positions p ws)
Ascends-row_positions p [] = tt
Ascends-row_positions p (w ∷ ws) =
    Ascends-append (p * 64) (suc p * 64) ((p + suc (length ws)) * 64) (positions 64 (p * 64) w)
      (row_positions (suc p) ws) (omega arith) (omega arith)
      (Ascends-weaken (p * 64) (p * 64) (p * 64 + 64) (suc p * 64) (positions 64 (p * 64) w)
        (omega arith) (omega arith) (Ascends-positions 64 (p * 64) w))
      (Ascends-weaken (suc p * 64) (suc p * 64) ((suc p + length ws) * 64)
        ((p + suc (length ws)) * 64) (row_positions (suc p) ws) (omega arith) (omega arith)
        (Ascends-row_positions (suc p) ws))

-- ===== src/Dataflow/Bits/Ones/Members.antt =====
-- Which numbers are among the places of the bits of a row, crates/cfglib/src/dataflow/bits.rs.
use cfglib.Prelude.{
  ℕ, zero, suc, ◌+◌, ◌-◌, ◌*◌, ◌/◌, ◌%◌, ◌<◌, ◌≤◌, ◌≡◌, refl, sym, ◌∙◌, inl, inr, List, [], ◌∷◌,
  ◌++◌, false, ◌&&◌, ◌||◌, length, elem, ltb, ltb→lt, ◌==◌, Bool-cases, ≡→==, ≢→==, arith,
}
use cfglib.Words.{bit, test_bit-eq-bit, test_bit-zero}
use cfglib.Words.Rows.{word, test_slot}
use cfglib.Dataflow.Bits.Ones.Positions.{
  positions, row_positions, Ascends, Ascends-positions, Ascends-row_positions,
}

elem-append : (i : ℕ) (xs ys : List ℕ) → elem i (xs ++ ys) ≡ (elem i xs || elem i ys)
elem-append i [] ys = refl
elem-append i (x ∷ xs) ys = let rest = elem-append i xs ys in ground (arith, rest)

elem_low : (low high i : ℕ) (xs : List ℕ) → Ascends low high xs → i < low → elem i xs ≡ false
elem_low low high i [] a h = refl
elem_low low high i (x ∷ xs) a h =
    rw (≢→== x i (λ q. omega (arith, a.0, h, q)))
      (elem_low (suc x) high i xs a.2 (omega (arith, a.0, h)))

elem_high : (low high i : ℕ) (xs : List ℕ) → Ascends low high xs → high ≤ i → elem i xs ≡ false
elem_high low high i [] a h = refl
elem_high low high i (x ∷ xs) a h =
    rw (≢→== x i (λ q. omega (arith, a.1, h, q))) (elem_high (suc x) high i xs a.2 h)

elem-positions :
    (n base w k : ℕ) → elem (base + k) (positions n base w) ≡ (ltb k n && (bit w k == 1))
unfolding bit
elem-positions zero base w k = ground arith
elem-positions (suc n) base w zero =
    let start : base + 0 ≡ base = omega arith in
    let later =
      elem_low (suc base) (suc base + n) base (positions n (suc base) (w / 2))
        (Ascends-positions n (suc base) (w / 2)) (omega arith) in
    rw start (elim (Bool-cases (w % 2 == 1)) [
      | inl q ↦ rw (q, ≡→== base base refl) (ground arith)
      | inr q ↦ rw q (later ∙ ground arith)
    ])
elem-positions (suc n) base w (suc k) =
    let shift : base + suc k ≡ suc base + k = omega arith in
    let rest = elem-positions n (suc base) (w / 2) k in
    let apart = ≢→== base (suc base + k) (λ q. omega (arith, q)) in
    let inside : ltb (suc k) (suc n) ≡ ltb k n = ground arith in
    rw (shift, inside)
      (elim (Bool-cases (w % 2 == 1)) [ inl q ↦ rw (q, apart) rest | inr q ↦ rw q rest ])

-- The places of a row are its slots whose bit is set.
pub elem-row_positions :
    (p : ℕ) (ws : List ℕ) (i : ℕ) → elem (p * 64 + i) (row_positions p ws) ≡ test_slot ws i
unfolding test_slot word
elem-row_positions p [] i = sym (test_bit-zero (i % 64))
elem-row_positions p (w ∷ ws) i =
    let both = elem-append (p * 64 + i) (positions 64 (p * 64) w) (row_positions (suc p) ws) in
    elim (Bool-cases (ltb i 64)) [
      | inl low ↦
          let lt = ltb→lt i 64 low in
          let here = elem-positions 64 (p * 64) w i in
          let after =
            elem_low (suc p * 64) ((suc p + length ws) * 64) (p * 64 + i) (row_positions (suc p) ws)
              (Ascends-row_positions (suc p) ws) (omega (arith, lt)) in
          let first : i / 64 ≡ 0 = omega (arith, lt) in
          let place : i % 64 ≡ i = omega (arith, lt) in
          rw (both, here, after, low, first, place) (ground (arith, test_bit-eq-bit w i))
      | inr high ↦
          let le : 64 ≤ i = ground (arith, high) in
          let before =
            elem_high (p * 64) (p * 64 + 64) (p * 64 + i) (positions 64 (p * 64) w)
              (Ascends-positions 64 (p * 64) w) (omega (arith, le)) in
          let shift : p * 64 + i ≡ suc p * 64 + (i - 64) = omega (arith, le) in
          let rest = elem-row_positions (suc p) ws (i - 64) in
          let next_word : i / 64 ≡ suc ((i - 64) / 64) = omega (arith, le) in
          let place : i % 64 ≡ (i - 64) % 64 = omega (arith, le) in
          rw (both, before, next_word, place, shift) rest
    ]

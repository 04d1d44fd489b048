-- ===== src/Dataflow/Bits/Ones/Lowest.antt =====
-- A word of crates/cfglib/src/dataflow/bits.rs without its lowest bit, `w & (w - 1)`.
use Prim.Native.Nat.{bit_and}
use cfglib.Prelude.{ℕ, zero, suc, ◌+◌, ◌-◌, ◌*◌, ◌/◌, ◌%◌, ◌≤◌, ◌≡◌, ◌≢◌, refl, sym, ◌∙◌, ap, arith}
use cfglib.Words.{bit, zero-bit, bit-bit_and}
use cfglib.Dataflow.Bits.Ones.{without_lowest}

-- Two numbers with the same binary digits are equal.
same_bits : (n x y : ℕ) → x ≤ n → y ≤ n → ((j : ℕ) → bit x j ≡ bit y j) → x ≡ y
unfolding bit
same_bits zero x y h k same = omega arith
same_bits (suc n) zero zero h k same = refl
same_bits (suc n) zero (suc y) h k same = omega (
  arith,
  same 0,
  same_bits n 0 (suc y / 2) (omega arith) (omega arith)
      (λ j. zero-bit j ∙ sym (zero-bit j) ∙ same (suc j)),
)
same_bits (suc n) (suc x) zero h k same =
    omega (arith, same 0, same_bits n (suc x / 2) 0 (omega arith) (omega arith) (λ j. same (suc j)))
same_bits (suc n) (suc x) (suc y) h k same = omega (
  arith,
  same 0,
  same_bits n (suc x / 2) (suc y / 2) (omega arith) (omega arith) (λ j. same (suc j)),
)

equal_bits : (x y : ℕ) → ((j : ℕ) → bit x j ≡ bit y j) → x ≡ y
equal_bits x y same = same_bits (x + y) x y (omega arith) (omega arith) same

-- The lowest bit of an odd word is the first.
pub without_lowest-odd : (w : ℕ) → w % 2 ≡ 1 → without_lowest w ≡ w - 1
unfolding without_lowest bit
without_lowest-odd w odd = equal_bits (bit_and w (w - 1)) (w - 1) digit
  where
    digit : (j : ℕ) → bit (bit_and w (w - 1)) j ≡ bit (w - 1) j
    digit zero = omega (arith, bit-bit_and w (w - 1) 0, odd)
    digit (suc j) =
        let half : (w - 1) / 2 ≡ w / 2 = omega (arith, odd) in
        omega (arith, bit-bit_and w (w - 1) (suc j), ap (λ x. bit x j) half)

-- That of an even word, which is not zero, is in its half.
pub without_lowest-even :
    (w : ℕ) → w % 2 ≢ 1 → w ≢ 0 → without_lowest w ≡ 2 * without_lowest (w / 2)
unfolding without_lowest bit
without_lowest-even w even some_ =
    equal_bits (bit_and w (w - 1)) (2 * bit_and (w / 2) (w / 2 - 1)) digit
  where
    digit : (j : ℕ) → bit (bit_and w (w - 1)) j ≡ bit (2 * bit_and (w / 2) (w / 2 - 1)) j
    digit zero = omega (arith, bit-bit_and w (w - 1) 0, even)
    digit (suc j) =
        let half : (w - 1) / 2 ≡ w / 2 - 1 = omega (arith, even, some_) in
        let twice : 2 * bit_and (w / 2) (w / 2 - 1) / 2 ≡ bit_and (w / 2) (w / 2 - 1) =
          omega arith in
        omega (
          arith,
          bit-bit_and w (w - 1) (suc j),
          bit-bit_and (w / 2) (w / 2 - 1) j,
          ap (λ x. bit x j) half,
          ap (λ x. bit x j) twice,
        )

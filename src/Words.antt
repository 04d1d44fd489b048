-- ===== src/Words.antt =====
-- 64-bit words as numbers below `2 ^ 64`, read by their binary digits: the packing that
-- crates/cfglib/src/graph/store/liveness.rs and crates/cfglib/src/dataflow/bits.rs share.
pub mod Rows
use Prim.Native.Nat.{bit_and, bit_or, digits, bit_and-bitwise, bit_or-bitwise}
use native.Mathlib.Nat.{one-le-pow, pow-succ'}
use cfglib.Prelude.{
  ℕ, zero, suc, ◌+◌, ◌-◌, ◌*◌, ◌/◌, ◌%◌, ◌^◌, ◌≤◌, ◌<◌, min, max, ◌≡◌, refl, ◌≢◌, ◌∙◌, ap, arith,
  ◌==◌, if◌then◌else◌, Bool, not, Bool-cases, inl, inr, ==→≡, ==→≢, true, false, ltb,
}

-- The binary digit of `x` at `j`.
unfoldable pub bit : ℕ → ℕ → ℕ
bit x zero = x % 2
bit x (suc j) = bit (x / 2) j

pub bit-lt : (x j : ℕ) → bit x j < 2
unfolding bit
bit-lt x zero = omega arith
bit-lt x (suc j) = bit-lt (x / 2) j

pub zero-bit : (j : ℕ) → bit 0 j ≡ 0
unfolding bit
zero-bit zero = refl
zero-bit (suc j) = zero-bit j

module _ (z : ℕ → ℕ) (f : ℕ → ℕ → ℕ) (z_lem : (b j : ℕ) → bit (z b) j ≡ f 0 (bit b j))
    (f_small : (x y : ℕ) → x < 2 → y < 2 → f x y < 2) where
  bit-digits : (n a b j : ℕ) → a ≤ n → bit (digits z f n a b) j ≡ f (bit a j) (bit b j)
  unfolding bit
  bit-digits zero zero b j h = z_lem b j ∙ ap (λ t. f t (bit b j)) (omega (arith, zero-bit j))
  bit-digits zero (suc a) b j h = absurd (omega arith)
  bit-digits (suc n) zero b j h = z_lem b j ∙ ap (λ t. f t (bit b j)) (omega (arith, zero-bit j))
  bit-digits (suc n) (suc a) b zero h =
      omega (arith, f_small (suc a % 2) (b % 2) (omega arith) (omega arith))
  bit-digits (suc n) (suc a) b (suc j) h =
      ap (λ x. bit x j) (omega (arith, f_small (suc a % 2) (b % 2) (omega arith) (omega arith)))
      ∙ bit-digits n (suc a / 2) (b / 2) j (omega arith)

pub bit-bit_or : (a b j : ℕ) → bit (bit_or a b) j ≡ max (bit a j) (bit b j)
bit-bit_or a b j =
    rw bit_or-bitwise
      (bit-digits (λ y. y) max (λ y k. omega arith) (λ x y h k. omega arith) a a b j (omega arith))

pub bit-bit_and : (a b j : ℕ) → bit (bit_and a b) j ≡ min (bit a j) (bit b j)
bit-bit_and a b j = rw bit_and-bitwise (
    bit-digits (λ y. 0) min (λ y k. omega (arith, zero-bit k)) (λ x y h k. omega arith) a a b j
      (omega arith))

pub bit-pow : (k j : ℕ) → bit (2 ^ k) j ≡ (if k == j then 1 else 0)
unfolding bit
bit-pow zero zero = refl
bit-pow zero (suc j) = zero-bit j ∙ ground arith
bit-pow (suc k) zero = ground (arith, pow-succ' 2 k)
bit-pow (suc k) (suc j) =
    ap (λ x. bit x j) (omega (arith, pow-succ' 2 k)) ∙ bit-pow k j ∙ ground arith

-- `!x` in a word of `n` bits.
pub bit-complement : (n x j : ℕ) → x < 2 ^ n → j < n → bit (2 ^ n - 1 - x) j + bit x j ≡ 1
unfolding bit
bit-complement zero x j h k = absurd (omega arith)
bit-complement (suc n) x zero h k = omega (arith, pow-succ' 2 n)
bit-complement (suc n) x (suc j) h k =
    let e : (2 ^ suc n - 1 - x) / 2 ≡ 2 ^ n - 1 - x / 2 = omega (arith, pow-succ' 2 n) in
    omega (
      arith,
      ap (λ y. bit y j) e,
      bit-complement n (x / 2) j (omega (arith, pow-succ' 2 n)) (omega arith),
    )

-- A number whose binary digits are all zero is zero.
pub zero_of_bits : (n x : ℕ) → x ≤ n → ((j : ℕ) → bit x j ≡ 0) → x ≡ 0
unfolding bit
zero_of_bits zero x h all = omega arith
zero_of_bits (suc n) zero h all = refl
zero_of_bits (suc n) (suc x) h all =
    omega (arith, all 0, zero_of_bits n (suc x / 2) (omega arith) (λ j. all (suc j)))

pub pow-lt : (k n : ℕ) → k < n → 2 ^ k < 2 ^ n
pow-lt zero zero h = absurd (omega arith)
pow-lt zero (suc n) h = omega (arith, pow-succ' 2 n, one-le-pow n 2 (omega arith))
pow-lt (suc k) zero h = absurd (omega arith)
pow-lt (suc k) (suc n) h = omega (arith, pow-succ' 2 n, pow-succ' 2 k, pow-lt k n (omega arith))

-- `word & (1 << k) != 0`
unfoldable pub test_bit : ℕ → ℕ → Bool
test_bit w k = not (bit_and w (2 ^ k) == 0)

-- `word |= 1 << k`
unfoldable pub set_bit : ℕ → ℕ → ℕ
set_bit w k = bit_or w (2 ^ k)

-- `word &= !(1 << k)`, at 64 bits
unfoldable pub clear_bit : ℕ → ℕ → ℕ
clear_bit w k = bit_and w (2 ^ 64 - 1 - 2 ^ k)

pub test_bit-eq-bit : (w k : ℕ) → test_bit w k ≡ (bit w k == 1)
unfolding test_bit
test_bit-eq-bit w k = elim (Bool-cases (bit w k == 1)) [
  | inl e ↦ let one = ==→≡ (bit w k) 1 e in ground (arith, one, bit-bit_and w (2 ^ k) k, not_zero)
  | inr e ↦
      let z : bit w k ≡ 0 = omega (arith, ==→≢ (bit w k) 1 e, bit-lt w k) in
      let masked = bit_and w (2 ^ k) in
      ground (arith, e, zero_of_bits masked masked (omega arith) (all_zero z))
]
  where
    not_zero : bit w k ≡ 1 → bit_and w (2 ^ k) ≢ 0
    not_zero one z =
        ground
          (arith, one, bit-bit_and w (2 ^ k) k, bit-pow k k, ap (λ (x : ℕ). bit x k) z, zero-bit k)

    all_zero : bit w k ≡ 0 → (j : ℕ) → bit (bit_and w (2 ^ k)) j ≡ 0
    all_zero z j = ground (arith, bit-bit_and w (2 ^ k) j, bit-pow k j, z)

pub test_bit-set_bit :
    (w k j : ℕ) → test_bit (set_bit w k) j ≡ (if k == j then true else test_bit w j)
unfolding set_bit
test_bit-set_bit w k j =
    rw (test_bit-eq-bit (bit_or w (2 ^ k)) j, test_bit-eq-bit w j, bit-bit_or w (2 ^ k) j)
      (ground (arith, bit-pow k j, bit-lt w j))

pub test_bit-clear_bit :
    (w k j : ℕ)
    → k < 64
    → j < 64
    → test_bit (clear_bit w k) j ≡ (if k == j then false else test_bit w j)
unfolding clear_bit
test_bit-clear_bit w k j hk hj =
    rw
      (
        test_bit-eq-bit (bit_and w (2 ^ 64 - 1 - 2 ^ k)) j,
        test_bit-eq-bit w j,
        bit-bit_and w (2 ^ 64 - 1 - 2 ^ k) j,
      )
      (ground (arith, bit-pow k j, bit-complement 64 (2 ^ k) j (pow-lt k 64 hk) hj, bit-lt w j))

pub test_bit-zero : (k : ℕ) → test_bit 0 k ≡ false
test_bit-zero k = test_bit-eq-bit 0 k ∙ ground (arith, zero-bit k)

pub bit_low_ones : (t j : ℕ) → bit (2 ^ t - 1) j ≡ (if ltb j t then 1 else 0)
unfolding bit
bit_low_ones zero j = zero-bit j ∙ ground arith
bit_low_ones (suc t) zero = ground (arith, pow-succ' 2 t, one-le-pow t 2)
bit_low_ones (suc t) (suc j) =
    ap (λ (x : ℕ). bit x j) (omega (arith, pow-succ' 2 t, one-le-pow t 2))
    ∙ bit_low_ones t j
    ∙ ground arith

pub test_bit_low_ones : (t j : ℕ) → test_bit (2 ^ t - 1) j ≡ ltb j t
test_bit_low_ones t j = test_bit-eq-bit (2 ^ t - 1) j ∙ ground (arith, bit_low_ones t j)

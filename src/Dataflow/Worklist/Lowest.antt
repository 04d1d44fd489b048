-- ===== src/Dataflow/Worklist/Lowest.antt =====
-- `u64::trailing_zeros`: the place of the lowest bit of a word.
use cfglib.Prelude.{
  ℕ, zero, suc, ◌/◌, ◌%◌, ◌<◌, ◌≤◌, ◌≡◌, ◌≢◌, inl, inr, ◌==◌, arith, Bool-cases, ==→≡, ==→≢,
}
use cfglib.Words.{bit, bit-lt, zero_of_bits}
use cfglib.Dataflow.Worklist.{trailing_zeros}

-- The lowest bit of a word that is not zero.
pub record Lowest (n w : ℕ) : Type 0 where
  pub small : trailing_zeros n w < n
  pub here : bit w (trailing_zeros n w) ≡ 1
  pub lower : (j : ℕ) → j < trailing_zeros n w → bit w j ≡ 0

lower_even :
    (w k : ℕ)
    → w % 2 ≢ 1
    → ((j : ℕ) → j < k → bit (w / 2) j ≡ 0)
    → (j : ℕ) → j < suc k
    → bit w j ≡ 0
unfolding bit
lower_even w k odd lower zero h = omega (arith, odd)
lower_even w k odd lower (suc j) h = lower j (omega arith)

pub trailing_zeros-Lowest : (n w : ℕ) → w ≢ 0 → ((j : ℕ) → n ≤ j → bit w j ≡ 0) → Lowest n w
unfolding trailing_zeros bit
trailing_zeros-Lowest zero w e far =
    absurd (e (zero_of_bits w w (omega arith) (λ j. far j (omega arith))))
trailing_zeros-Lowest (suc n) w e far = elim (Bool-cases (w % 2 == 1)) [
  | inl q ↦ record {
    small = rw q (omega arith);
    here = rw q (==→≡ (w % 2) 1 q);
    lower = rw q (λ j h. absurd (omega arith));
  }
  | inr q ↦
      let odd = ==→≢ (w % 2) 1 q in
      let rest =
        trailing_zeros-Lowest n (w / 2) (λ z. e (omega (arith, odd, z, bit-lt w 0)))
          (λ j h. far (suc j) (omega arith)) in
      record {
        small = rw q (omega (arith, rest.small));
        here = rw q rest.here;
        lower = rw q (lower_even w (trailing_zeros n (w / 2)) odd rest.lower);
      }
]

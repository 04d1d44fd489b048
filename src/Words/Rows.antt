-- ===== src/Words/Rows.antt =====
-- Rows of 64-bit words, one bit for each slot.
use cfglib.Prelude.{
  ℕ, ◌/◌, ◌%◌, ◌<◌, ◌≡◌, arith, ◌==◌, if◌then◌else◌, Bool, true, false, Bool-cases, inl, inr, ==→≡,
  ==→≢, List, length, get_elem?, set, value, get_elem?-set_self, get_elem?-set_ne,
}
use cfglib.Words.{test_bit, set_bit, clear_bit, test_bit-set_bit, test_bit-clear_bit}

-- A row of words, 64 slots each. A read past the last word gives 0; the rows of the program are
-- long enough for every slot that is asked for.
unfoldable pub word : List ℕ → ℕ → ℕ
word ws i = value (get_elem? ws i)

unfoldable pub test_slot : List ℕ → ℕ → Bool
unfolding word
test_slot ws i = test_bit (word ws (i / 64)) (i % 64)

unfoldable pub set_slot : List ℕ → ℕ → List ℕ
unfolding word
set_slot ws i = set ws (i / 64) (set_bit (word ws (i / 64)) (i % 64))

unfoldable pub clear_slot : List ℕ → ℕ → List ℕ
unfolding word
clear_slot ws i = set ws (i / 64) (clear_bit (word ws (i / 64)) (i % 64))

module _ (ws : List ℕ) (i j : ℕ) (inside : i / 64 < length ws) where
  pub test_slot-set_slot : test_slot (set_slot ws i) j ≡ (if i == j then true else test_slot ws j)
  unfolding test_slot set_slot
  test_slot-set_slot = elim (Bool-cases (i / 64 == j / 64)) [
    | inl e ↦
        let q = ==→≡ (i / 64) (j / 64) e in
        ground (
          arith,
          get_elem?-set_self ws (i / 64) (set_bit (word ws (i / 64)) (i % 64)) inside,
          test_bit-set_bit (word ws (i / 64)) (i % 64) (j % 64),
        )
    | inr e ↦
        let q = ==→≢ (i / 64) (j / 64) e in
        ground
          (arith, get_elem?-set_ne ws (i / 64) (j / 64) (set_bit (word ws (i / 64)) (i % 64)) q)
  ]

  pub test_slot-clear_slot :
      test_slot (clear_slot ws i) j ≡ (if i == j then false else test_slot ws j)
  unfolding test_slot clear_slot
  test_slot-clear_slot = elim (Bool-cases (i / 64 == j / 64)) [
    | inl e ↦
        let q = ==→≡ (i / 64) (j / 64) e in
        ground (
          arith,
          get_elem?-set_self ws (i / 64) (clear_bit (word ws (i / 64)) (i % 64)) inside,
          test_bit-clear_bit (word ws (i / 64)) (i % 64) (j % 64) (omega arith) (omega arith),
        )
    | inr e ↦
        let q = ==→≢ (i / 64) (j / 64) e in
        ground
          (arith, get_elem?-set_ne ws (i / 64) (j / 64) (clear_bit (word ws (i / 64)) (i % 64)) q)
  ]

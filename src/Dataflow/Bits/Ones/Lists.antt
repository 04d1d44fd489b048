-- ===== src/Dataflow/Bits/Ones/Lists.antt =====
-- `ones`, `count_ones` and `intersection` of crates/cfglib/src/dataflow/bits.rs, as listings of sets.
use Prim.Native.Nat.{bit_and}
use cfglib.Prelude.{
  ℕ, zero, suc, ◌+◌, ◌*◌, ◌/◌, ◌%◌, ◌<◌, ◌≤◌, ◌≡◌, ◌≢◌, ◌⊎◌, refl, sym, ◌∙◌, ap, inl, inr, List, [],
  ◌∷◌, Bool, true, false, ◌&&◌, length, elem, elem_later, ◌==◌, ltb, ltb→lt, ok, panic, Bool-cases,
  ==→≡, ==→≢, ≡→==, arith,
}
use cfglib.Words.{bit, bit-lt, test_bit, test_bit-eq-bit, bit-bit_and}
use cfglib.Words.Rows.{word, test_slot}
use cfglib.Dataflow.Bits.{DenseBits}
use cfglib.Dataflow.Bits.Members.{member, IsBits}
use cfglib.Dataflow.Bits.Ones.{ones, count_ones, zip_and, intersection}
use cfglib.Dataflow.Bits.Ones.Positions.{
  row_positions, length-row_positions, Ascends, Ascends-row_positions,
}
use cfglib.Dataflow.Bits.Ones.Members.{elem-row_positions}
use cfglib.Dataflow.Bits.Ones.Yields.{AllNarrow, ones_of-run}

-- A list is the ascending listing of the numbers below `len` that pass the test.
abbrev pub IsListing : ℕ → (ℕ → Bool) → List ℕ → Type 0
IsListing len p xs = Ascends 0 len xs × ((i : ℕ) → elem i xs ≡ p i)

AllNarrow-of : (ws : List ℕ) → ((i j : ℕ) → 64 ≤ j → bit (word ws i) j ≡ 0) → AllNarrow ws
unfolding word
AllNarrow-of [] wide = tt
AllNarrow-of (w ∷ ws) wide =
    (λ j far. wide 0 j far, AllNarrow-of ws (λ i j far. wide (suc i) j far))

Ascends-below :
    (low high len : ℕ) (xs : List ℕ)
    → Ascends low high xs
    → ((i : ℕ) → elem i xs ≡ true → i < len)
    → Ascends low len xs
Ascends-below low high len [] a below = tt
Ascends-below low high len (x ∷ xs) a below = (
  a.0,
  below x (rw (≡→== x x refl) refl),
  Ascends-below (suc x) high len xs a.2 (λ i h. below i (elem_later i x xs h)),
)

-- The places of a row whose slots past `len` are clear.
row_positions-IsListing :
    (len : ℕ) (ws : List ℕ)
    → ((i : ℕ) → len ≤ i → test_slot ws i ≡ false)
    → IsListing len (test_slot ws) (row_positions 0 ws)
row_positions-IsListing len ws clear =
    let members =
      λ (i : ℕ). ap (λ k. elem k (row_positions 0 ws)) (start i) ∙ elem-row_positions 0 ws i in
    (
      Ascends-below 0 ((0 + length ws) * 64) len (row_positions 0 ws) (Ascends-row_positions 0 ws)
          (λ i h. elim (Bool-cases (ltb i len)) [
            | inl inside ↦ ltb→lt i len inside
            | inr past ↦ absurd (cc (clear i (ground (arith, past)), members i, h))
          ]),
      members,
    )
  where
    start : (i : ℕ) → i ≡ 0 * 64 + i
    start i = omega arith

test_bit-bit_and : (w v j : ℕ) → test_bit (bit_and w v) j ≡ (test_bit w j && test_bit v j)
test_bit-bit_and w v j =
    rw
      (test_bit-eq-bit (bit_and w v) j, test_bit-eq-bit w j, test_bit-eq-bit v j, bit-bit_and w v j)
      (ground (arith, bit-lt w j, bit-lt v j))

word-zip_and :
    (ws vs : List ℕ) (i : ℕ)
    → length ws ≡ length vs
    → word (zip_and ws vs) i ≡ bit_and (word ws i) (word vs i)
unfolding word zip_and
word-zip_and [] [] i e = refl
word-zip_and [] (v ∷ vs) i e = absurd (omega (arith, e))
word-zip_and (w ∷ ws) [] i e = absurd (omega (arith, e))
word-zip_and (w ∷ ws) (v ∷ vs) zero e = refl
word-zip_and (w ∷ ws) (v ∷ vs) (suc i) e = word-zip_and ws vs i (omega (arith, e))

-- The indices that ones yields on a well-formed set are its members, each once and in ascending
-- order, and count_ones is how many they are.
pub ones-IsListing :
    (b : DenseBits)
    → IsBits b
    → (xs : List ℕ) × (ones b ≡ ok xs) × IsListing b.len (member b) xs × (count_ones b ≡ length xs)
unfolding ones member count_ones
ones-IsListing b v = (
  row_positions 0 b.words,
  ones_of-run b.words (AllNarrow-of b.words v.wide),
  row_positions-IsListing b.len b.words v.within,
  sym (length-row_positions 0 b.words),
)

-- On well-formed sets intersection panics when the universes differ; otherwise the indices that it
-- yields are the members of both sets, each once and in ascending order.
pub intersection-IsListing :
    (a b : DenseBits)
    → IsBits a
    → IsBits b
    → (a.len ≡ b.len)
        × ((xs : List ℕ) × (intersection a b ≡ ok xs)
            × IsListing a.len (λ i. member a i && member b i) xs)
      ⊎ (a.len ≢ b.len) × (intersection a b ≡ panic)
unfolding intersection member test_slot
intersection-IsListing a b va vb = elim (Bool-cases (a.len == b.len)) [
  | inr other ↦ inr (==→≢ a.len b.len other, rw other refl)
  | inl same ↦
      let e = ==→≡ a.len b.len same in
      let sizes : length a.words ≡ length b.words =
        omega (arith, va.size, vb.size, ap (λ n. (n + 63) / 64) e) in
      let both = zip_and a.words b.words in
      let words = λ (i : ℕ). word-zip_and a.words b.words i sizes in
      let members = λ (i : ℕ).
        ap (λ w. test_bit w (i % 64)) (words (i / 64))
        ∙ test_bit-bit_and (word a.words (i / 64)) (word b.words (i / 64)) (i % 64) in
      let listing =
        row_positions-IsListing a.len both (λ i past. members i ∙ rw (va.within i past) refl) in
      let run = ones_of-run both (
        AllNarrow-of both (λ i j far.
          ap (λ w. bit w j) (words i)
          ∙ omega (arith, bit-bit_and (word a.words i) (word b.words i) j, va.wide i j far))) in
      inl (e, (row_positions 0 both, rw same run, (listing.0, λ i. listing.1 i ∙ members i)))
]

-- ===== src/Dataflow/Bits/Ones.antt =====
-- The members of bit rows, one after another: `WordOnes` and the iterators of
-- crates/cfglib/src/dataflow/bits.rs. An iterator is the list it yields. It takes fuel, one step for each
-- bit of the words, and one to see that none is left.
pub mod Lowest
pub mod Positions
pub mod Members
pub mod Yields
pub mod Lists
use Prim.Native.Nat.{bit_and}
use cfglib.Prelude.{
  ℕ, zero, suc, ◌+◌, ◌-◌, ◌*◌, ◌/◌, ◌%◌, List, [], ◌∷◌, Bool, true, false, length, ◌==◌, Option,
  none, some, Result, ok, out_of_fuel, ◌>>=◌, ◌>>◌, assert,
}
use cfglib.Dataflow.Bits.{DenseBits}
use cfglib.Dataflow.Worklist.{trailing_zeros}

-- `position` is the number of the next word, which `enumerate` counts.
pub record WordOnes : Type 0 where
  pub words : List ℕ
  pub position : ℕ
  pub remaining : ℕ
  pub base : ℕ

-- `WordOnes::new`
unfoldable pub over : List ℕ → WordOnes
over words = record { words = words; position = 0; remaining = 0; base = 0 }

-- `remaining & (remaining - 1)`
unfoldable pub without_lowest : ℕ → ℕ
without_lowest w = bit_and w (w - 1)

-- The loop of `next`, on the fields of the iterator.
unfoldable pub next_from : List ℕ → ℕ → ℕ → ℕ → Option (ℕ × WordOnes)
next_from [] position remaining base = elim (remaining == 0) [
  | false ↦ some (
    base + trailing_zeros 64 remaining,
    record { words = []; position = position; remaining = without_lowest remaining; base = base },
  )
  | true ↦ none
]
next_from (word ∷ words) position remaining base = elim (remaining == 0) [
  | false ↦ some (
    base + trailing_zeros 64 remaining,
    record {
      words = word ∷ words;
      position = position;
      remaining = without_lowest remaining;
      base = base;
    },
  )
  | true ↦ next_from words (suc position) word (position * 64)
]

unfoldable pub next : WordOnes → Option (ℕ × WordOnes)
next it = next_from it.words it.position it.remaining it.base

-- Everything that an iterator yields.
unfoldable pub drain : ℕ → WordOnes → Result (List ℕ)
drain zero it = out_of_fuel
drain (suc fuel) it = elim (next it) [
  | none ↦ ok []
  | some (index, it) ↦ drain fuel it >>= λ indices. ok (index ∷ indices)
]

unfoldable pub ones_of : List ℕ → Result (List ℕ)
ones_of words = drain (suc (64 * length words)) (over words)

unfoldable pub ones : DenseBits → Result (List ℕ)
ones b = ones_of b.words

-- `u64::count_ones`, over the bits that are left.
unfoldable pub count_bits : ℕ → ℕ → ℕ
count_bits zero w = 0
count_bits (suc bits) w = w % 2 + count_bits bits (w / 2)

unfoldable pub count_words : List ℕ → ℕ
count_words [] = 0
count_words (word ∷ words) = count_bits 64 word + count_words words

unfoldable pub count_ones : DenseBits → ℕ
count_ones b = count_words b.words

-- `words.iter().zip(&others).map(|(&left, &right)| left & right)`
unfoldable pub zip_and : List ℕ → List ℕ → List ℕ
zip_and [] others = []
zip_and (left ∷ words) [] = []
zip_and (left ∷ words) (right ∷ others) = bit_and left right ∷ zip_and words others

unfoldable pub intersection : DenseBits → DenseBits → Result (List ℕ)
intersection b other = do assert (b.len == other.len); ones_of (zip_and b.words other.words)

-- ===== src/Dataflow/Bits.antt =====
-- `DenseBits` of crates/cfglib/src/dataflow/bits.rs: a set of dense indices, 64 to a word. A mask of
-- one bit is written as the place of the bit.
pub mod Members
pub mod Ones
use cfglib.Prelude.{
  ℕ, zero, suc, ◌+◌, ◌*◌, ◌/◌, ◌%◌, ◌≡◌, List, [], ◌∷◌, map, Bool, true, false, ◌||◌, not, length,
  set, replicate, ltb, ◌==◌, if◌then◌else◌, Result, ok, ◌>>=◌, ◌>>◌, read, assert,
}
use cfglib.Words.{test_bit, set_bit, clear_bit}
use Prim.Native.Nat.{bit_or}

pub record DenseBits : Type 0 where
  pub words : List ℕ
  pub len : ℕ

unfoldable pub new : ℕ → DenseBits
new len = record { words = replicate ((len + 63) / 64) 0; len = len }

unfoldable pub bit_slot : ℕ → ℕ × ℕ
bit_slot index = (index / 64, index % 64)

unfoldable pub slot : DenseBits → ℕ → Result (ℕ × ℕ)
slot b index = assert (ltb index b.len) >> ok (bit_slot index)

unfoldable pub get : DenseBits → ℕ → Result Bool
get b index = do (word, bit) ← slot b index; w ← read b.words word; ok (test_bit w bit)

unfoldable pub insert : DenseBits → ℕ → Result (DenseBits × Bool)
insert b index = do
  (word, bit) ← slot b index
  w ← read b.words word
  ok (record b { words = set b.words word (set_bit w bit) }, not (test_bit w bit))

unfoldable pub remove : DenseBits → ℕ → Result (DenseBits × Bool)
remove b index = do
  (word, bit) ← slot b index
  w ← read b.words word
  ok (record b { words = set b.words word (clear_bit w bit) }, test_bit w bit)

-- The loop of `union_with`, with whether a word has changed so far.
unfoldable pub merge : List ℕ → List ℕ → List ℕ × Bool
merge [] others = ([], false)
merge (word ∷ words) [] = (word ∷ words, false)
merge (word ∷ words) (other ∷ others) =
    let (rest, changed) = merge words others in
    (bit_or word other ∷ rest, not (bit_or word other == word) || changed)

unfoldable pub union_with : DenseBits → DenseBits → Result (DenseBits × Bool)
union_with b other = do
  assert (b.len == other.len)
  ok (record b { words = (merge b.words other.words).0 }, (merge b.words other.words).1)

unfoldable pub clear : DenseBits → DenseBits
clear b = record b { words = map (λ word. 0) b.words }

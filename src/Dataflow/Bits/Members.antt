-- ===== src/Dataflow/Bits/Members.antt =====
-- `DenseBits` of crates/cfglib/src/dataflow/bits.rs as a set of the numbers below its length.
use Prim.Native.Nat.{bit_or}
use cfglib.Prelude.{
  ℕ, zero, suc, ◌+◌, ◌-◌, ◌/◌, ◌%◌, ◌^◌, ◌<◌, ◌≤◌, ◌≡◌, ◌↔◌, refl, ◌∙◌, ap, inl, inr, List, [], ◌∷◌,
  some, Bool, true, false, ◌||◌, not, length, get_elem?, set, replicate, value, ltb, ◌==◌,
  if◌then◌else◌, Result, ok, panic, arith, Bool-cases, ==→≡, ==→≢, ≡→==, ltb→lt, lt→ltb, length-set,
  length-replicate, get_elem?_lt, get_elem?-set_self, get_elem?-set_ne,
}
use cfglib.Words.{
  bit, bit-lt, zero-bit, bit-pow, test_bit, set_bit, clear_bit, test_bit-eq-bit, test_bit-zero,
  bit-bit_and, bit-bit_or,
}
use cfglib.Words.Rows.{
  word, test_slot, set_slot, clear_slot, test_slot-set_slot, test_slot-clear_slot,
}
use cfglib.Dataflow.Bits.{DenseBits, new, bit_slot, slot, get, insert, remove, merge, union_with}

unfoldable pub member : DenseBits → ℕ → Bool
member b i = test_slot b.words i

-- A word for each 64 indices, of 64 bits, with none set past the end.
pub record IsBits (b : DenseBits) : Type 0 where
  pub size : length b.words ≡ (b.len + 63) / 64
  pub wide : (i j : ℕ) → 64 ≤ j → bit (word b.words i) j ≡ 0
  pub within : (i : ℕ) → b.len ≤ i → member b i ≡ false

pub IsBits-inside : (b : DenseBits) (i : ℕ) → IsBits b → i < b.len → i / 64 < length b.words
IsBits-inside b i v h = omega (arith, v.size)

word_at : (ws : List ℕ) (i : ℕ) → i < length ws → get_elem? ws i ≡ some (word ws i)
unfolding word
word_at ws i h = let (x, at) = get_elem?_lt ws i h in rw at

set_bit-wide : (w k j : ℕ) → k < 64 → 64 ≤ j → bit w j ≡ 0 → bit (set_bit w k) j ≡ 0
unfolding set_bit
set_bit-wide w k j a b e = ground (arith, bit-bit_or w (2 ^ k) j, bit-pow k j, e)

clear_bit-wide : (w k j : ℕ) → bit w j ≡ 0 → bit (clear_bit w k) j ≡ 0
unfolding clear_bit
clear_bit-wide w k j e = omega (arith, bit-bit_and w (2 ^ 64 - 1 - 2 ^ k) j, e)

word-set :
    (ws : List ℕ) (k i v : ℕ)
    → k < length ws
    → word (set ws k v) i ≡ (if k == i then v else word ws i)
unfolding word
word-set ws k i v h = elim (Bool-cases (k == i)) [
  | inl q ↦ rw (q, ← ==→≡ k i q) (ap value (get_elem?-set_self ws k v h))
  | inr q ↦ rw q (ap value (get_elem?-set_ne ws k i v (==→≢ k i q)))
]

-- A row with one word replaced by a word of 64 bits.
set-wide :
    (ws : List ℕ) (k v : ℕ)
    → k < length ws
    → ((i j : ℕ) → 64 ≤ j → bit (word ws i) j ≡ 0)
    → ((j : ℕ) → 64 ≤ j → bit v j ≡ 0)
    → (i j : ℕ) → 64 ≤ j
    → bit (word (set ws k v) i) j ≡ 0
set-wide ws k v h old new i j far = elim (Bool-cases (k == i)) [
  | inl q ↦ rw (word-set ws k i v h, q) (new j far)
  | inr q ↦ rw (word-set ws k i v h, q) (old i j far)
]

-- What changing one member does, with the answer whether it was one.
pub record Changes (b : DenseBits) (i : ℕ) (now answer : Bool) (r : Result (DenseBits × Bool))
    : Type 0 where
  pub out : DenseBits
  pub run : r ≡ ok (out, answer)
  pub bits : IsBits out
  pub len : out.len ≡ b.len
  pub members : (j : ℕ) → member out j ≡ (if i == j then now else member b j)

module _ (b : DenseBits) (v : IsBits b) (i : ℕ) where
  in_words : i < b.len → get_elem? b.words (i / 64) ≡ some (word b.words (i / 64))
  in_words h = word_at b.words (i / 64) (IsBits-inside b i v h)

  -- `get` answers whether an index is in the set, and panics outside the universe.
  pub get-member : get b i ≡ (if ltb i b.len then ok (member b i) else panic)
  unfolding get slot bit_slot member test_slot
  get-member = elim (Bool-cases (ltb i b.len)) [
    | inl q ↦ rw (q, in_words (ltb→lt i b.len q))
    | inr q ↦ rw q
  ]

  abbrev with_word : ℕ → DenseBits
  with_word w = record b { words = set b.words (i / 64) w }

  -- Another word for the slot of `i` keeps the row well formed.
  with_word-IsBits :
      (w : ℕ) (now : Bool)
      → i < b.len
      → ((j : ℕ) → 64 ≤ j → bit w j ≡ 0)
      → ((j : ℕ) → member (with_word w) j ≡ (if i == j then now else member b j))
      → IsBits (with_word w)
  with_word-IsBits w now h wide members = record {
    size = length-set b.words (i / 64) w ∙ v.size;
    wide = set-wide b.words (i / 64) w (IsBits-inside b i v h) v.wide wide;
    within = λ j past.
        let at = members j in let outside = v.within j past in ground (arith, at, outside);
  }

  pub insert-Changes : i < b.len → Changes b i true (not (member b i)) (insert b i)
  unfolding insert slot bit_slot member test_slot set_slot
  insert-Changes h =
      let inside = IsBits-inside b i v h in
      let w = word b.words (i / 64) in
      let members = λ (j : ℕ). test_slot-set_slot b.words i j inside in
      record {
        out = with_word (set_bit w (i % 64));
        run = rw (lt→ltb i b.len h, in_words h);
        bits =
            with_word-IsBits (set_bit w (i % 64)) true h
              (λ j far. set_bit-wide w (i % 64) j (omega arith) far (v.wide (i / 64) j far))
              members;
        len = refl;
        members = members;
      }

  pub remove-Changes : i < b.len → Changes b i false (member b i) (remove b i)
  unfolding remove slot bit_slot member test_slot clear_slot
  remove-Changes h =
      let inside = IsBits-inside b i v h in
      let w = word b.words (i / 64) in
      let members = λ (j : ℕ). test_slot-clear_slot b.words i j inside in
      record {
        out = with_word (clear_bit w (i % 64));
        run = rw (lt→ltb i b.len h, in_words h);
        bits =
            with_word-IsBits (clear_bit w (i % 64)) false h
              (λ j far. clear_bit-wide w (i % 64) j (v.wide (i / 64) j far)) members;
        len = refl;
        members = members;
      }

word-replicate : (n i : ℕ) → word (replicate n 0) i ≡ 0
unfolding word
word-replicate zero i = refl
word-replicate (suc n) zero = refl
word-replicate (suc n) (suc i) = word-replicate n i

pub new-empty : (n i : ℕ) → member (new n) i ≡ false
unfolding member new test_slot
new-empty n i =
    ap (λ w. test_bit w (i % 64)) (word-replicate ((n + 63) / 64) (i / 64)) ∙ test_bit-zero (i % 64)

pub new-IsBits : (n : ℕ) → IsBits (new n)
unfolding new
new-IsBits n = record {
  size = length-replicate ((n + 63) / 64) 0;
  wide = λ i j far. ap (λ w. bit w j) (word-replicate ((n + 63) / 64) i) ∙ zero-bit j;
  within = λ i past. new-empty n i;
}

-- The words of a union.
word-merge :
    (ws vs : List ℕ) (i : ℕ)
    → length ws ≡ length vs
    → word ((merge ws vs).0) i ≡ bit_or (word ws i) (word vs i)
unfolding word merge
word-merge [] [] i e = refl
word-merge [] (v ∷ vs) i e = absurd (omega (arith, e))
word-merge (w ∷ ws) [] i e = absurd (omega (arith, e))
word-merge (w ∷ ws) (v ∷ vs) zero e = refl
word-merge (w ∷ ws) (v ∷ vs) (suc i) e = word-merge ws vs i (omega (arith, e))

length-merge : (ws vs : List ℕ) → length ((merge ws vs).0) ≡ length ws
unfolding merge
length-merge [] vs = refl
length-merge (w ∷ ws) [] = refl
length-merge (w ∷ ws) (v ∷ vs) = ap suc (length-merge ws vs)

-- No change is reported exactly when no word changes.
merge_unchanged : (ws vs : List ℕ) → ((merge ws vs).1 ≡ false) ↔ ((merge ws vs).0 ≡ ws)
unfolding merge
merge_unchanged [] vs = (λ e. refl, λ e. refl)
merge_unchanged (w ∷ ws) [] = (λ e. refl, λ e. refl)
merge_unchanged (w ∷ ws) (v ∷ vs) =
    let (to, from) = merge_unchanged ws vs in
    elim (Bool-cases (bit_or w v == w)) [
      | inl q ↦
          let same = ==→≡ (bit_or w v) w q in
          (λ e. rw (to (rw q at e)) (ap (λ x. x ∷ ws) same), λ e. rw q (from (cc (e))))
      | inr q ↦ (λ e. absurd (cc (rw q at e)), λ e. absurd (==→≢ (bit_or w v) w q (cc (e))))
    ]

test_bit-bit_or : (w v j : ℕ) → test_bit (bit_or w v) j ≡ (test_bit w j || test_bit v j)
test_bit-bit_or w v j =
    rw (test_bit-eq-bit (bit_or w v) j, test_bit-eq-bit w j, test_bit-eq-bit v j, bit-bit_or w v j)
      (ground (arith, bit-lt w j, bit-lt v j))

-- What a union is.
pub record Unites (a b : DenseBits) : Type 0 where
  pub out : DenseBits
  pub changed : Bool
  pub run : union_with a b ≡ ok (out, changed)
  pub bits : IsBits out
  pub len : out.len ≡ a.len
  pub members : (j : ℕ) → member out j ≡ (member a j || member b j)
  pub quiet : (changed ≡ false) ↔ (out ≡ a)

-- On well-formed bit sets over one universe union_with leaves a well-formed set whose members are
-- those of both, and reports a change exactly when the set changes.
pub union_with-Unites : (a b : DenseBits) → IsBits a → IsBits b → a.len ≡ b.len → Unites a b
unfolding union_with member test_slot
union_with-Unites a b va vb e =
    let sizes : length a.words ≡ length b.words =
      omega (arith, va.size, vb.size, ap (λ n. (n + 63) / 64) e) in
    let members = λ (j : ℕ).
      ap (λ w. test_bit w (j % 64)) (word-merge a.words b.words (j / 64) sizes)
      ∙ test_bit-bit_or (word a.words (j / 64)) (word b.words (j / 64)) (j % 64) in
    let (to, from) = merge_unchanged a.words b.words in
    record {
      out = record a { words = (merge a.words b.words).0 };
      changed = (merge a.words b.words).1;
      run = rw (≡→== a.len b.len e);
      bits = record {
        size = length-merge a.words b.words ∙ va.size;
        wide = λ i j far.
            ap (λ w. bit w j) (word-merge a.words b.words i sizes)
            ∙ omega (
              arith,
              bit-bit_or (word a.words i) (word b.words i) j,
              va.wide i j far,
              vb.wide i j far,
            );
        within = λ i past.
            let left = va.within i past in
            let right = vb.within i (omega (arith, e)) in rw (members i) (rw (left, right));
      };
      len = refl;
      members = members;
      quiet = (
        λ same. ap (λ ws. record a { words = ws }) (to same),
        λ same. from (ap (λ r. r.words) same),
      );
    }

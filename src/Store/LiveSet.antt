-- ===== src/Store/LiveSet.antt =====
-- The liveness bitset of crates/cfglib/src/graph/store/liveness.rs. `len` slots are packed in
-- `len / 64`, rounded up, words; with that, no read of a word is out of bounds.
pub mod Count
use cfglib.Prelude.{
  ℕ, suc, ◌+◌, ◌-◌, ◌/◌, ◌%◌, ◌^◌, ◌<◌, ◌≤◌, ◌≡◌, refl, sym, ◌∙◌, ap, arith, ◌==◌, if◌then◌else◌,
  Bool, true, false, not, ◌||◌, Bool-cases, inl, inr, ==→≡, ==→≢, List, [], ◌∷◌, ◌++◌, length, set,
  value, ltb, leb, replicate, length-append, length-set, length-replicate, get_elem?-append_left,
  get_elem?-append_last, get_elem?-replicate, get_elem?_ge, get_elem?-set_self, get_elem?-set_ne,
}
use cfglib.Words.{test_bit, test_bit_low_ones}
use cfglib.Words.Rows.{
  word, test_slot, set_slot, clear_slot, test_slot-set_slot, test_slot-clear_slot,
}

pub record LiveSet : Type 0 where
  pub words : List ℕ
  pub len : ℕ

unfoldable pub new : LiveSet
new = record { words = []; len = 0 }

-- The words after room is made for one slot more.
unfoldable pub grown : LiveSet → List ℕ
grown s = if s.len % 64 == 0 then s.words ++ 0 ∷ [] else s.words

-- Returns the set and the index of the new slot.
unfoldable pub push_live : LiveSet → LiveSet × ℕ
push_live s = (record { words = set_slot (grown s) s.len; len = suc s.len }, s.len)

unfoldable pub is_live : LiveSet → ℕ → Bool
is_live s index = if leb s.len index then false else test_slot s.words index

-- Returns the set and whether the slot had been live.
unfoldable pub clear : LiveSet → ℕ → LiveSet × Bool
clear s index =
    if is_live s index then (record s { words = clear_slot s.words index }, true) else (s, false)

-- `slots.div_ceil(64)`
abbrev pub words_for : ℕ → ℕ
words_for slots = (slots + 63) / 64

unfoldable pub reset_all_live : LiveSet → ℕ → LiveSet
reset_all_live s slots =
    let words = replicate (words_for slots) (2 ^ 64 - 1) in
    let tail = slots % 64 in
    record {
      words = if tail == 0 then words else set words (length words - 1) (2 ^ tail - 1);
      len = slots;
    }

-- There are as many words as the slots need.
pub record IsPacked (s : LiveSet) : Type 0 where
  pub packed : length s.words ≡ words_for s.len

pub new-IsPacked : IsPacked new
unfolding new
new-IsPacked = record { packed = refl }

length-grown : (s : LiveSet) → IsPacked s → length (grown s) ≡ words_for (suc s.len)
unfolding grown
length-grown s p = ground (arith, p.packed, length-append s.words (0 ∷ []))

-- A slot past the end of the words reads as cleared, so a word that is pushed changes no slot.
test_slot-grown :
    (s : LiveSet) → IsPacked s → (i : ℕ) → i ≤ s.len → test_slot (grown s) i ≡ test_slot s.words i
unfolding grown test_slot word
test_slot-grown s p i h = elim (Bool-cases (s.len % 64 == 0)) [
  | inl e ↦ elim (Bool-cases (i == s.len)) [
    | inl same ↦
        let q = ==→≡ i s.len same in
        let at_end : i / 64 ≡ length s.words = ground (arith, p.packed) in
        rw (
          e,
          at_end,
          get_elem?-append_last s.words 0,
          get_elem?_ge s.words (length s.words) (omega arith),
        )
    | inr other ↦
        let q = ==→≢ i s.len other in
        rw e (
          ap (λ o. test_bit (value o) (i % 64))
            (get_elem?-append_left s.words (0 ∷ []) (i / 64) (ground (arith, p.packed))))
  ]
  | inr e ↦ rw e
]

module _ (s : LiveSet) (p : IsPacked s) where
  pub push_live-IsPacked : IsPacked (push_live s).0
  unfolding push_live set_slot
  push_live-IsPacked = record { packed = length-set (grown s) (s.len / 64) _ ∙ length-grown s p }

  -- On a packed set `push_live` makes the slot at the end live and leaves every other as it was.
  pub is_live-push_live :
      (i : ℕ) → is_live (push_live s).0 i ≡ (if i == s.len then true else is_live s i)
  unfolding push_live is_live
  is_live-push_live i =
      ground (arith, length-grown s p, test_slot-set_slot (grown s) s.len i, test_slot-grown s p i)

  clear_slot-packed : (i : ℕ) → length (clear_slot s.words i) ≡ words_for s.len
  unfolding clear_slot
  clear_slot-packed i = length-set s.words (i / 64) _ ∙ p.packed

  pub clear-IsPacked : (i : ℕ) → IsPacked (clear s i).0
  unfolding clear
  clear-IsPacked i = record { packed = ground (arith, p.packed, clear_slot-packed i) }

  pub clear-len : (i : ℕ) → (clear s i).0.len ≡ s.len
  unfolding clear
  clear-len i = ground arith

  -- On a packed set `clear` takes one slot out and leaves every other as it was; it returns whether the
  -- slot was live.
  pub is_live-clear :
      (i j : ℕ)
      → (is_live (clear s i).0 j ≡ (if i == j then false else is_live s j))
        × ((clear s i).1 ≡ is_live s i)
  unfolding clear is_live
  is_live-clear i j = (ground (arith, p.packed, test_slot-clear_slot s.words i j), ground arith)

module _ (s : LiveSet) (slots : ℕ) where
  pub reset_all_live-IsPacked : IsPacked (reset_all_live s slots)
  unfolding reset_all_live
  reset_all_live-IsPacked = record {
    packed = ground (
      arith,
      length-set (replicate (words_for slots) (2 ^ 64 - 1))
          (length (replicate (words_for slots) (2 ^ 64 - 1)) - 1) (2 ^ (slots % 64) - 1),
      length-replicate (words_for slots) (2 ^ 64 - 1),
    );
  }

  len-reset_all_live : (reset_all_live s slots).len ≡ slots
  unfolding reset_all_live
  len-reset_all_live = refl

  -- The word that holds a slot below the bound.
  reset_word :
      (k : ℕ)
      → k < words_for slots
      → word (reset_all_live s slots).words k ≡ (
          if slots % 64 == 0 || not (k == words_for slots - 1)
          then 2 ^ 64 - 1
          else 2 ^ (slots % 64) - 1)
  unfolding reset_all_live word
  reset_word k h =
      let full = replicate (words_for slots) (2 ^ 64 - 1) in
      let size = length-replicate (words_for slots) (2 ^ 64 - 1) in
      let there = get_elem?-replicate (words_for slots) (2 ^ 64 - 1) k h in
      let v = 2 ^ (slots % 64) - 1 in
      elim (Bool-cases (slots % 64 == 0)) [
        | inl e ↦ rw (e, there)
        | inr e ↦ elim (Bool-cases (k == words_for slots - 1)) [
          | inl last ↦
              let q = ==→≡ k (words_for slots - 1) last in
              rw (e, last, size, ← q) (ap value (get_elem?-set_self full k v (rw size h)))
          | inr other ↦
              let q = ==→≢ k (words_for slots - 1) other in
              rw (e, other, size)
                (ap value
                  (get_elem?-set_ne full (words_for slots - 1) k v (λ z. q (sym z)) ∙ there))
        ]
      ]

  -- After `reset_all_live` exactly the slots below the bound are live.
  pub is_live-reset_all_live : (i : ℕ) → is_live (reset_all_live s slots) i ≡ ltb i slots
  unfolding is_live test_slot
  is_live-reset_all_live i = elim (Bool-cases (leb slots i)) [
    | inl out ↦ ground (arith, len-reset_all_live)
    | inr h ↦
        let row = reset_word (i / 64) (ground arith) in
        let full = test_bit_low_ones 64 (i % 64) in
        let part = test_bit_low_ones (slots % 64) (i % 64) in
        elim (Bool-cases (slots % 64 == 0 || not (i / 64 == words_for slots - 1))) [
          | inl e ↦ ground (arith, len-reset_all_live, rw e at row, full)
          | inr e ↦ ground (arith, len-reset_all_live, rw e at row, part)
        ]
  ]

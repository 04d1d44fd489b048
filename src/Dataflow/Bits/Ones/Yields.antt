-- ===== src/Dataflow/Bits/Ones/Yields.antt =====
-- What the iterators of crates/cfglib/src/dataflow/bits.rs yield: the members of a row in ascending order.
use cfglib.Prelude.{
  ℕ, zero, suc, ◌+◌, ◌*◌, ◌/◌, ◌<◌, ◌≤◌, ◌≡◌, ◌≢◌, refl, sym, ◌∙◌, ap, inl, inr, List, [], ◌∷◌,
  ◌++◌, length, ◌==◌, none, some, ok, Bool-cases, ==→≡, ==→≢, ≢→==, arith,
}
use cfglib.Words.{zero-bit}
use cfglib.Words.Rows.{word}
use cfglib.Dataflow.Worklist.{trailing_zeros}
use cfglib.Dataflow.Bits.Ones.{
  WordOnes, over, without_lowest, next_from, next, drain, ones_of, count_bits, count_words,
}
use cfglib.Dataflow.Bits.Ones.Positions.{
  positions, row_positions, Narrow, positions_none, positions_first, Narrow-without_lowest,
  length-row_positions,
}

abbrev pub AllNarrow : List ℕ → Type 0
AllNarrow [] = Unit {0}
AllNarrow (w ∷ ws) = Narrow 64 w × AllNarrow ws

-- What an iterator has left.
abbrev left : WordOnes → List ℕ
left it = positions 64 it.base it.remaining ++ row_positions it.position it.words

record IsNarrow (it : WordOnes) : Type 0 where
  here : Narrow 64 it.remaining
  later : AllNarrow it.words

-- One call of `next`.
data Advances (it : WordOnes) : Type 0 where
  ended : next it ≡ none → left it ≡ [] → Advances it
  yields :
      (index : ℕ) (rest : WordOnes)
      → next it ≡ some (index, rest)
      → left it ≡ index ∷ left rest
      → IsNarrow rest
      → Advances it

-- The word in hand has a bit.
in_hand :
    (words : List ℕ) (position remaining base : ℕ)
    → remaining ≢ 0
    → Narrow 64 remaining
    → AllNarrow words
    → Advances (record { words = words; position = position; remaining = remaining; base = base })
unfolding next next_from
in_hand words position remaining base some_ here later =
    yields (base + trailing_zeros 64 remaining)
      (record {
        words = words;
        position = position;
        remaining = without_lowest remaining;
        base = base;
      })
      (step words)
      (ap (λ xs. xs ++ row_positions position words) (positions_first 64 base remaining some_ here))
      (record { here = Narrow-without_lowest 64 remaining here; later = later })
  where
    step :
        (words : List ℕ)
        → next_from words position remaining base
          ≡ some (
            base + trailing_zeros 64 remaining,
            record {
              words = words;
              position = position;
              remaining = without_lowest remaining;
              base = base;
            },
          )
    step [] = rw (≢→== remaining 0 some_, next_from) refl
    step (word ∷ words) = rw (≢→== remaining 0 some_, next_from) refl

next-Advances :
    (words : List ℕ) (position remaining base : ℕ)
    → Narrow 64 remaining
    → AllNarrow words
    → Advances (record { words = words; position = position; remaining = remaining; base = base })
unfolding next next_from
next-Advances [] position remaining base here later = elim (Bool-cases (remaining == 0)) [
  | inr some_ ↦ in_hand [] position remaining base (==→≢ remaining 0 some_) here later
  | inl none_ ↦
      let zero_ = ==→≡ remaining 0 none_ in
      ended (rw (none_, next_from) refl)
        (ap (λ w. positions 64 base w ++ []) zero_ ∙ ap (λ xs. xs ++ []) (positions_none 64 base))
]
next-Advances (word ∷ words) position remaining base here later =
    elim (Bool-cases (remaining == 0)) [
      | inr some_ ↦
          in_hand (word ∷ words) position remaining base (==→≢ remaining 0 some_) here later
      | inl none_ ↦
          let zero_ = ==→≡ remaining 0 none_ in
          let skipped =
            ap (λ w. positions 64 base w ++ row_positions position (word ∷ words)) zero_
            ∙ ap (λ xs. xs ++ row_positions position (word ∷ words)) (positions_none 64 base) in
          elim (next-Advances words (suc position) word (position * 64) later.0 later.1) [
            | ended run empty ↦ ended (rw (none_, next_from) run) (skipped ∙ empty)
            | yields index rest run more narrow ↦
                yields index rest (rw (none_, next_from) run) (skipped ∙ more) narrow
          ]
    ]

drain-left :
    (fuel : ℕ) (it : WordOnes)
    → IsNarrow it
    → length (left it) < fuel
    → drain fuel it ≡ ok (left it)
unfolding drain
drain-left zero it narrow enough = absurd (omega (arith, enough))
drain-left (suc fuel) it narrow enough =
    elim (next-Advances it.words it.position it.remaining it.base narrow.here narrow.later) [
      | ended run empty ↦ rw (run, drain) (ap ok (sym empty))
      | yields index rest run more narrow' ↦
          let size = ap length more in
          let drained = drain-left fuel rest narrow' (omega (arith, enough, size)) in
          rw (run, drain) (rw drained (ap ok (sym more)))
    ]

count_bits-le : (n w : ℕ) → count_bits n w ≤ n
unfolding count_bits
count_bits-le zero w = omega arith
count_bits-le (suc n) w = omega (arith, count_bits-le n (w / 2))

count_words-le : (ws : List ℕ) → count_words ws ≤ 64 * length ws
unfolding count_words
count_words-le [] = omega arith
count_words-le (w ∷ ws) = omega (arith, count_bits-le 64 w, count_words-le ws)

pub ones_of-run : (ws : List ℕ) → AllNarrow ws → ones_of ws ≡ ok (row_positions 0 ws)
unfolding ones_of over
ones_of-run ws narrow =
    let empty = ap (λ xs. xs ++ row_positions 0 ws) (positions_none 64 0) in
    drain-left (suc (64 * length ws)) (over ws)
      (record { here = λ j h. zero-bit j; later = narrow })
      (omega (arith, ap length empty, length-row_positions 0 ws, count_words-le ws))
    ∙ ap ok empty

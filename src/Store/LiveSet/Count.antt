-- ===== src/Store/LiveSet/Count.antt =====
-- The number of live slots, which crates/cfglib/src/graph/store.rs keeps beside the bits.
use cfglib.Prelude.{
  ℕ, zero, suc, ◌<◌, ◌≤◌, ◌≡◌, refl, ap, true, if◌then◌else◌, ◌==◌, arith, Bool-cases, inl, inr,
  ≢→==, ≡→==,
}
use cfglib.Store.LiveSet.{
  LiveSet, IsPacked, is_live, push_live, clear, is_live-push_live, is_live-clear,
}

-- The live slots below a bound.
abbrev pub count_to : LiveSet → ℕ → ℕ
count_to s zero = 0
count_to s (suc n) = if is_live s n then suc (count_to s n) else count_to s n

abbrev pub count : LiveSet → ℕ
count s = count_to s s.len

pub count_to-le : (s : LiveSet) (n : ℕ) → count_to s n ≤ n
count_to-le s zero = omega arith
count_to-le s (suc n) = ground (arith, count_to-le s n)

-- If all are counted, each is live.
pub is_live_of_count_to : (s : LiveSet) (n i : ℕ) → count_to s n ≡ n → i < n → is_live s i ≡ true
is_live_of_count_to s zero i e h = absurd (omega arith)
is_live_of_count_to s (suc n) i e h =
    let le = count_to-le s n in
    elim (Bool-cases (is_live s n)) [
      | inl p ↦
          let rest : count_to s n ≡ n = omega (arith, rw p at e) in
          elim (Bool-cases (i == n)) [
            | inl q ↦ ground (arith, p)
            | inr q ↦ is_live_of_count_to s n i rest (ground arith)
          ]
      | inr p ↦ absurd (omega (arith, rw p at e))
    ]

count_to-cong :
    (s t : LiveSet) (n : ℕ)
    → ((i : ℕ) → i < n → is_live s i ≡ is_live t i)
    → count_to s n ≡ count_to t n
count_to-cong s t zero same = refl
count_to-cong s t (suc n) same =
    rw (same n (omega arith), count_to-cong s t n (λ i h. same i (omega arith)))

pub count-push_live :
    (s : LiveSet) → IsPacked s → (count_to (push_live s).0 (suc s.len)) ≡ suc (count s)
count-push_live s p =
    let here : is_live (push_live s).0 s.len ≡ true =
      rw (is_live-push_live s p s.len, ≡→== s.len s.len refl) in
    rw here (
      ap suc (
        count_to-cong (push_live s).0 s s.len
          (λ i h. rw (is_live-push_live s p i, ≢→== i s.len (λ q. omega arith)))))

-- Clearing a live slot takes one from the count.
pub count_to-clear :
    (s : LiveSet) (i n : ℕ)
    → IsPacked s
    → is_live s i ≡ true
    → i < n
    → suc (count_to (clear s i).0 n) ≡ count_to s n
count_to-clear s i zero p live h = absurd (omega arith)
count_to-clear s i (suc n) p live h = elim (Bool-cases (i == n)) [
  | inl q ↦
      let below =
        count_to-cong (clear s i).0 s n
          (λ j h'. rw ((is_live-clear s p i j).0, ≢→== i j (λ e. ground arith))) in
      ground (arith, (is_live-clear s p i n).0, below, live)
  | inr q ↦
      let rest = count_to-clear s i n p live (ground arith) in
      ground (arith, (is_live-clear s p i n).0, rest)
]

-- ===== src/Epoch/Served.antt =====
-- Sequences of requests to the epoch sets of crates/cfglib/src/graph/epoch.rs.
use cfglib.Prelude.{
  ℕ, ◌<◌, ◌≡◌, refl, ◌∙◌, ap, List, [], ◌∷◌, Bool, true, false, not, length, ◌==◌, lt→ltb,
  if◌then◌else◌, Result, ok, ◌>>=◌, count, get_elem?_lt,
}
use cfglib.Epoch
use cfglib.Epoch.{EpochMarks, EpochSet, max_epoch, capacity, reset, is_marked, mark}
use cfglib.Epoch.Sets.{
  holds, IsEpochSet, new-IsEpochSet, size_of_new, Cleared, clear-Cleared, Inserted, insert-Inserted,
}

-- What a caller may ask of an epoch set, and what a set of indices answers.
pub data Request : Type 0 where
  insert contains : ℕ → Request
  clear : Request

abbrev pub answers : (ℕ → Bool) → List Request → List Bool
answers held [] = []
answers held (insert i ∷ requests) =
    not (held i) ∷ answers (λ f. if i == f then true else held f) requests
answers held (contains i ∷ requests) = held i ∷ answers held requests
answers held (clear ∷ requests) = true ∷ answers (λ f. false) requests

abbrev pub left : (ℕ → Bool) → List Request → ℕ → Bool
left held [] f = held f
left held (insert i ∷ requests) f = left (λ f. if i == f then true else held f) requests f
left held (contains i ∷ requests) f = left held requests f
left held (clear ∷ requests) f = left (λ f. false) requests f

-- One request after another; a `clear` is answered by `true`.
abbrev pub serve : EpochSet → List Request → Result (EpochSet × List Bool)
serve s [] = ok (s, [])
serve s (insert i ∷ requests) = do
  (s, fresh) ← Epoch.insert s i
  (s, bs) ← serve s requests
  ok (s, fresh ∷ bs)
serve s (contains i ∷ requests) = do
  held ← Epoch.contains s i
  (s, bs) ← serve s requests
  ok (s, held ∷ bs)
serve s (clear ∷ requests) = do (s, bs) ← serve (Epoch.clear s) requests; ok (s, true ∷ bs)

abbrev pub AllBelow : ℕ → List Request → Type 0
AllBelow n [] = Unit {0}
AllBelow n (insert i ∷ requests) = (i < n) × AllBelow n requests
AllBelow n (contains i ∷ requests) = (i < n) × AllBelow n requests
AllBelow n (clear ∷ requests) = AllBelow n requests

contains-holds :
    (s : EpochSet) (i : ℕ) → i < length s.marks.stamps → Epoch.contains s i ≡ ok (holds s i)
unfolding Epoch.contains capacity is_marked
contains-holds s i h =
    let (t, at) = get_elem?_lt s.marks.stamps i h in
    rw (lt→ltb i (length s.marks.stamps) h, at) refl

Served : (ℕ → Bool) → List Request → ℕ → Result (EpochSet × List Bool) → Type 0
Served held requests n r =
    (s' : EpochSet) × (r ≡ ok (s', answers held requests))
    × IsEpochSet s'
    × ((f : ℕ) → holds s' f ≡ left held requests f)
    × (length s'.marks.stamps ≡ n)

serve-Served :
    (s : EpochSet) (held : ℕ → Bool) (requests : List Request)
    → IsEpochSet s
    → ((f : ℕ) → holds s f ≡ held f)
    → AllBelow (length s.marks.stamps) requests
    → Served held requests (length s.marks.stamps) (serve s requests)
unfolding Served Inserted Cleared
serve-Served s held [] w same below = (s, refl, w, same, refl)
serve-Served s held (insert i ∷ requests) w same below =
    let (s₁, run, w₁, now, size) = insert-Inserted s i w below.0 in
    let (s₂, rest, w₂, end, size₂) =
      serve-Served s₁ (λ f. if i == f then true else held f) requests w₁
        (λ f. now f ∙ ap (λ b. if i == f then true else b) (same f)) (rw size below.1) in
    (s₂, rw (run, rest, same i) refl, w₂, end, size₂ ∙ size)
serve-Served s held (contains i ∷ requests) w same below =
    let run = contains-holds s i below.0 ∙ ap ok (same i) in
    let (s₂, rest, w₂, end, size₂) = serve-Served s held requests w same below.1 in
    (s₂, rw (run, rest) refl, w₂, end, size₂)
serve-Served s held (clear ∷ requests) w same below =
    let (w₁, blank, size) = clear-Cleared s w in
    let (s₂, rest, w₂, end, size₂) =
      serve-Served (Epoch.clear s) (λ f. false) requests w₁ blank (rw size below) in
    (s₂, rw rest refl, w₂, end, size₂ ∙ size)

-- From a new epoch set over `n` indices any sequence of inserts, lookups and clears within the `n`
-- indices returns, however often it clears, and is answered as a set of indices would: an insert says
-- whether the index was new, a lookup whether it was inserted since the last clear; and at the end
-- `ones` lists exactly the members, each once.
pub serve-answers :
    (n : ℕ) (requests : List Request)
    → AllBelow n requests
    → (s : EpochSet) × (serve (Epoch.new n) requests ≡ ok (s, answers (λ f. false) requests))
      × ((f : ℕ) → count f (Epoch.ones s) ≡ (if left (λ f. false) requests f then 1 else 0))
unfolding Served Epoch.ones
serve-answers n requests below =
    let (fresh, blank) = new-IsEpochSet n in
    let (s, run, w, end, size) =
      serve-Served (Epoch.new n) (λ f. false) requests fresh blank (rw (size_of_new n) below) in
    (s, run, λ f. w.listed f ∙ ap (λ (b : Bool). if b then 1 else 0) (end f))

-- ===== src/Horn.antt =====
-- `HornClauses` of crates/cfglib/src/graph/horn.rs: clauses over dense fact ids, and the facts that
-- they derive. The saturation loop takes fuel, one round for each fact and one to see its end.
pub mod Derivation
pub mod Clauses
pub mod Saturation
pub mod Stored
mod Tests
use cfglib.Prelude.{
  count, ℕ, zero, suc, ◌+◌, ◌-◌, List, [], ◌∷◌, ◌++◌, map, Bool, true, false, ◌&&◌, length, set,
  replicate, ltb, ◌==◌, if◌then◌else◌, Result, ok, panic, out_of_fuel, ◌>>=◌, ◌>>◌, read, assert,
}

pub record HornClauses : Type 0 where
  pub fact_count : ℕ
  pub heads : List ℕ
  pub body_lens : List ℕ
  pub dependents : List (List ℕ)

unfoldable pub new : ℕ → HornClauses
new fact_count = record {
  fact_count = fact_count;
  heads = [];
  body_lens = [];
  dependents = replicate fact_count [];
}

-- `body.iter().all(|&fact| fact < fact_count)`
abbrev pub all_below : ℕ → List ℕ → Bool
all_below n [] = true
all_below n (fact ∷ facts) = ltb fact n && all_below n facts

-- The loop of `add_clause`: the clause joins the row of each fact of its body.
unfoldable pub mention : ℕ → List ℕ → List (List ℕ) → Result (List (List ℕ))
mention clause [] dependents = ok dependents
mention clause (fact ∷ body) dependents = do
  row ← read dependents fact
  mention clause body (set dependents fact (row ++ clause ∷ []))

unfoldable pub add_clause : HornClauses → ℕ → List ℕ → Result HornClauses
add_clause h head body = do
  assert (ltb head h.fact_count)
  assert (all_below h.fact_count body)
  dependents ← mention (length h.heads) body h.dependents
  ok (record h {
    heads = h.heads ++ head ∷ [];
    body_lens = h.body_lens ++ length body ∷ [];
    dependents = dependents;
  })

-- The local variables of `derivable`. The end of the source's worklist is the front of the list.
pub record State : Type 0 where
  pub derived : List Bool
  pub remaining : List ℕ
  pub worklist : List ℕ

-- Marks a fact derived, and enqueues it the first time.
unfoldable pub derive : ℕ → State → Result State
derive fact s = do
  seen ← read s.derived fact
  if seen
      then ok s
      else ok (record s { derived = set s.derived fact true; worklist = fact ∷ s.worklist })

-- `derive(self.heads[clause], ...)`
unfoldable pub fire : HornClauses → ℕ → State → Result State
fire h clause s = read h.heads clause >>= λ head. derive head s

unfoldable pub fire_if : Bool → HornClauses → ℕ → State → Result State
fire_if b h clause s = if b then fire h clause s else ok s

-- The axioms, over the counts from clause `k` on.
unfoldable pub seed : HornClauses → ℕ → List ℕ → State → Result State
seed h k [] s = ok s
seed h k (count ∷ counts) s = fire_if (count == 0) h k s >>= seed h (suc k) counts

-- `*count -= 1`, which panics at 0, and the test behind it.
unfoldable pub discharge : HornClauses → ℕ → State → Result State
discharge h clause s = do
  count ← read s.remaining clause
  assert (ltb 0 count)
  fire_if (count - 1 == 0) h clause (record s { remaining = set s.remaining clause (count - 1) })

unfoldable pub propagate : HornClauses → List ℕ → State → Result State
propagate h [] s = ok s
propagate h (clause ∷ clauses) s = discharge h clause s >>= propagate h clauses

-- The body of the `while let` loop.
unfoldable pub round : HornClauses → ℕ → State → Result State
round h fact s = read h.dependents fact >>= λ row. propagate h row s

unfoldable pub saturate : HornClauses → ℕ → State → Result State
saturate h zero s = out_of_fuel
saturate h (suc fuel) s = elim s.worklist [
  | [] ↦ ok s
  | fact ∷ rest ↦ round h fact (record s { worklist = rest }) >>= saturate h fuel
]

unfoldable pub derivable : HornClauses → Result (List Bool)
derivable h = do
  s ←
      seed h 0 h.body_lens
        (record { derived = replicate h.fact_count false; remaining = h.body_lens; worklist = [] })
  s ← saturate h (suc h.fact_count) s
  ok s.derived

-- ===== src/Horn/Stored.antt =====
-- The tables that crates/cfglib/src/graph/horn.rs stores and loads (`mod stored`), and the test that a
-- loaded clause set must pass.
pub mod Listed
pub mod Counted
pub mod Rows
pub mod Accepts
mod Tests
use Prim.Native.String.{String}
use cfglib.Prelude.{
  ℕ, ◌+◌, List, [], ◌∷◌, ◌++◌, Bool, true, false, not, ◌||◌, ◌&&◌, length, get_elem?, set,
  replicate, ltb, ◌==◌, if◌then◌else◌, Option, none, some,
}
use cfglib.Horn.{HornClauses}

pub record Stored : Type 0 where
  pub fact_count : ℕ
  pub heads : List ℕ
  pub body_lens : List ℕ
  pub dependents : List (List ℕ)

-- `Result<HornClauses, &'static str>`
pub data Loaded : Type 0 where
  loaded : HornClauses → Loaded
  refused : String → Loaded

-- `heads.iter().any(|&head| head >= fact_count)`
unfoldable pub any_past : ℕ → List ℕ → Bool
any_past fact_count [] = false
any_past fact_count (head ∷ heads) = not (ltb head fact_count) || any_past fact_count heads

-- `dependents.iter().flatten()`
abbrev pub flatten : List (List ℕ) → List ℕ
flatten [] = []
flatten (row ∷ rows) = row ++ flatten rows

-- The loop that counts how often each clause is mentioned; none if a clause does not exist.
unfoldable pub count_mentions : List ℕ → List ℕ → Option (List ℕ)
count_mentions [] mentions = some mentions
count_mentions (clause ∷ clauses) mentions = elim (get_elem? mentions clause) [
  | none ↦ none
  | some n ↦ count_mentions clauses (set mentions clause (n + 1))
]

-- The `==` of two vectors.
unfoldable pub same_list : List ℕ → List ℕ → Bool
same_list [] [] = true
same_list [] (y ∷ ys) = false
same_list (x ∷ xs) [] = false
same_list (x ∷ xs) (y ∷ ys) = (x == y) && same_list xs ys

-- The tables as a clause set.
abbrev pub tables : Stored → HornClauses
tables s = record {
  fact_count = s.fact_count;
  heads = s.heads;
  body_lens = s.body_lens;
  dependents = s.dependents;
}

-- The end of `try_from`, once the mentions are counted.
unfoldable pub compare_bodies : Stored → Option (List ℕ) → Loaded
compare_bodies s none = refused "a dependents row names a clause that does not exist"
compare_bodies s (some mentions) =
    if not (same_list mentions s.body_lens)
    then refused "a clause body disagrees with the facts that list it"
    else loaded (tables s)

unfoldable pub try_from : Stored → Loaded
try_from s =
    if not (length s.heads == length s.body_lens)
    then refused "the clause tables hold different numbers of clauses"
    else if not (length s.dependents == s.fact_count)
    then refused "the dependents table does not have one row per fact"
    else if any_past s.fact_count s.heads
    then refused "a clause head is not a fact"
    else compare_bodies s (count_mentions (flatten s.dependents) (replicate (length s.heads) 0))

-- ===== src/DisjointSet/Tests.antt =====
-- Runs of the forest, and its theorems at concrete forests.
use cfglib.Prelude.{
  ℕ, zero, suc, get_elem?, some, ◌<◌, ◌≤◌, ◌≡◌, refl, Bool, false, [], ◌∷◌, ok, panic, ◌>>=◌, arith,
}
use cfglib.DisjointSet.{DisjointSet, new, len, find, root, union, union_toward_min}
use cfglib.DisjointSet.Link.{IsForest, Joins}
use cfglib.DisjointSet.Query.{find-root}
use cfglib.DisjointSet.Least.{IsLeast, IsLeast-forest, new-IsLeast, union_toward_min-Joins}
use cfglib.DisjointSet.Rank.{IsRanked, new-IsRanked, union-Joins}

abbrev chained : DisjointSet
chained = record { parent = 0 ∷ 0 ∷ 1 ∷ 2 ∷ []; rank = 0 ∷ 0 ∷ 0 ∷ 0 ∷ [] }

find_halves : find chained 3 ≡ ok (record chained { parent = 0 ∷ 0 ∷ 1 ∷ 1 ∷ [] }, 0)
unfolding find
find_halves = refl

find_past_end : find chained 4 ≡ panic
unfolding find
find_past_end = refl

keeps_smallest :
    (do
      (a, _) ← union_toward_min (new 6) 5 3
      (b, _) ← union_toward_min a 3 4
      (c, merged) ← union_toward_min b 4 1
      root c 5)
    ≡ ok 1
unfolding new union_toward_min root
keeps_smallest = refl

by_rank :
    (do (a, _) ← union (new 5) 0 1; (b, _) ← union a 1 2; (c, merged) ← union b 2 0; ok merged)
    ≡ ok false
unfolding new union
by_rank = refl

chained_below : (i j : ℕ) → get_elem? chained.parent i ≡ some j → j ≤ i
chained_below zero j e = ground arith
chained_below (suc zero) j e = ground arith
chained_below (suc (suc zero)) j e = ground arith
chained_below (suc (suc (suc zero))) j e = ground arith
chained_below (suc (suc (suc (suc i)))) j e = ground arith

chained-IsLeast : IsLeast chained
chained-IsLeast = record { below = chained_below }

find-root_example :
    (d' : DisjointSet) × (r : ℕ) × (find chained 3 ≡ ok (d', r))
    × (root chained 3 ≡ ok r)
    × IsForest d'
    × (len d' ≡ len chained)
    × ((j : ℕ) → j < len chained → root d' j ≡ root chained j)
unfolding len
find-root_example = find-root chained 3 (IsLeast-forest chained chained-IsLeast) (omega arith)

union_toward_min-Joins_example :
    (d' : DisjointSet) × (flag : Bool) × (union_toward_min (new 6) 5 3 ≡ ok (d', flag))
    × IsLeast d'
    × Joins (new 6) 5 3 d' flag
unfolding len new
union_toward_min-Joins_example =
    union_toward_min-Joins (new 6) 5 3 (new-IsLeast 6) (omega arith) (omega arith)

union-Joins_example :
    (d' : DisjointSet) × (flag : Bool) × (union (new 5) 0 1 ≡ ok (d', flag))
    × IsRanked d'
    × Joins (new 5) 0 1 d' flag
unfolding len new
union-Joins_example = union-Joins (new 5) 0 1 (new-IsRanked 5) (omega arith) (omega arith)

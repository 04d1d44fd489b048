-- ===== src/DisjointSet.antt =====
-- The disjoint-set forest of crates/cfglib/src/union_find.rs: `parent` and `rank` arrays, `find` by
-- path halving, and the two union strategies. A loop takes fuel; `length parent + 1` rounds are
-- given, since each round climbs one level of the forest.
pub mod Climb
pub mod Find
pub mod Link
pub mod Query
pub mod Rank
pub mod Least
mod Tests
use cfglib.Prelude.{
  ℕ, zero, suc, ◌+◌, List, [], ◌∷◌, ◌++◌, Bool, true, false, length, get_elem?, set, replicate,
  range_from, ltb, ◌==◌, if◌then◌else◌, Result, ok, panic, out_of_fuel, ◌>>=◌, read,
}

pub record DisjointSet : Type 0 where
  pub parent : List ℕ
  pub rank : List ℕ

pub new : ℕ → DisjointSet
new len = record { parent = range_from 0 len; rank = replicate len 0 }

-- `reset` clears both arrays and fills them again; what they held leaves no trace.
pub reset : DisjointSet → ℕ → DisjointSet
reset d len = record { parent = [] ++ range_from 0 len; rank = replicate len 0 }

-- Returns the forest and the index of the new element.
pub push : DisjointSet → DisjointSet × ℕ
push d =
    let index = length d.parent in
    (record { parent = d.parent ++ index ∷ []; rank = d.rank ++ 0 ∷ [] }, index)

pub len : DisjointSet → ℕ
len d = length d.parent

-- The `while` loop of `find`: path halving.
pub find_loop : ℕ → List ℕ → ℕ → Result (List ℕ × ℕ)
find_loop zero parent index = out_of_fuel
find_loop (suc fuel) parent index = do
  above ← read parent index
  grand ← read parent above
  let next = read (set parent index grand) index >>= find_loop fuel (set parent index grand)
  if above == index then ok (parent, index) else next

-- Returns the forest with its paths compressed, and the representative.
pub find : DisjointSet → ℕ → Result (DisjointSet × ℕ)
unfolding find_loop
find d index = do
  (parent, root) ← find_loop (suc (length d.parent)) d.parent index
  ok (record d { parent = parent }, root)

pub root_loop : ℕ → List ℕ → ℕ → Result ℕ
root_loop zero parent index = out_of_fuel
root_loop (suc fuel) parent index = do
  above ← read parent index
  let next = root_loop fuel parent above
  if above == index then ok index else next

-- The read-only query.
pub root : DisjointSet → ℕ → Result ℕ
unfolding root_loop
root d index = root_loop (suc (length d.parent)) d.parent index

-- The `match` of `union` on the two ranks.
pub link : DisjointSet → ℕ → ℕ → Result DisjointSet
link d left_root right_root = do
  left_rank ← read d.rank left_root
  right_rank ← read d.rank right_root
  if ltb left_rank right_rank
      then ok (record d { parent = set d.parent left_root right_root })
      else if ltb right_rank left_rank
      then ok (record d { parent = set d.parent right_root left_root })
      else ok (record {
        parent = set d.parent right_root left_root;
        rank = set d.rank left_root (left_rank + 1);
      })

-- Returns the forest and whether the two were in different sets.
pub union : DisjointSet → ℕ → ℕ → Result (DisjointSet × Bool)
unfolding find link
union d left right = do
  (d, left_root) ← find d left
  (d, right_root) ← find d right
  let linked = link d left_root right_root >>= λ d'. ok (d', true)
  if left_root == right_root then ok (d, false) else linked

pub union_toward_min : DisjointSet → ℕ → ℕ → Result (DisjointSet × Bool)
unfolding find
union_toward_min d left right = do
  (d, left_root) ← find d left
  (d, right_root) ← find d right
  let root = if ltb left_root right_root then left_root else right_root
  let merged = if ltb left_root right_root then right_root else left_root
  if left_root == right_root
      then ok (d, false)
      else ok (record d { parent = set d.parent merged root }, true)

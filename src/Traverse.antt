-- ===== src/Traverse.antt =====
-- `reachable` of crates/cfglib/src/graph/traverse.rs: the walk over a stack of node indices, confined
-- to a set of nodes or not. The loop takes fuel: one round for each node, and one to see its end.
pub mod Reach
pub mod Search
pub mod Closure
pub mod Preorder
mod Tests
use cfglib.Prelude.{
  ℕ, zero, suc, List, [], ◌∷◌, Bool, true, false, set, replicate, ltb, if◌then◌else◌, Option, none,
  some, Result, ok, out_of_fuel, ◌>>=◌, ◌>>◌, read, assert,
}
use cfglib.View.{View, TraversalDirection, neighbors}

-- The buffers of the walk. The end of the source's stack is the front of the list.
pub record State : Type 0 where
  pub visited : List Bool
  pub stack : List ℕ

unfoldable pub assert_in_bound : View → ℕ → Result (Unit {0})
assert_in_bound view node = assert (ltb node view.node_bound)

-- `if !core::mem::replace(&mut visited[index], true) { stack.push(index) }`
unfoldable pub discover : ℕ → State → Result State
discover index s = do
  seen ← read s.visited index
  if seen then ok s else ok (record { visited = set s.visited index true; stack = index ∷ s.stack })

unfoldable pub start_from : View → List ℕ → State → Result State
start_from view [] s = ok s
start_from view (seed ∷ seeds) s = do
  assert_in_bound view seed
  s ← discover seed s
  start_from view seeds s

-- Without a confining set every node may be entered.
unfoldable pub is_within : Option (List Bool) → ℕ → Result Bool
is_within none next = ok true
is_within (some within) next = read within next

unfoldable pub visit_next : Option (List Bool) → ℕ → State → Result State
visit_next within next s = do
  inside ← is_within within next
  if inside then discover next s else ok s

unfoldable pub expand : Option (List Bool) → List ℕ → State → Result State
expand within [] s = ok s
expand within (next ∷ nexts) s = visit_next within next s >>= expand within nexts

unfoldable pub walk : TraversalDirection → View → Option (List Bool) → ℕ → State → Result State
walk axis view within zero s = out_of_fuel
walk axis view within (suc fuel) s = elim s.stack [
  | [] ↦ ok s
  | index ∷ rest ↦
      expand within (neighbors axis view index) (record s { stack = rest })
      >>= walk axis view within fuel
]

unfoldable pub reachable_in :
    View → List ℕ → TraversalDirection → Option (List Bool) → Result (List Bool)
reachable_in view seeds axis within = do
  s ← start_from view seeds (record { visited = replicate view.node_bound false; stack = [] })
  s ← walk axis view within (suc view.node_bound) s
  ok s.visited

unfoldable pub reachable : View → List ℕ → TraversalDirection → Result (List Bool)
reachable view seeds axis = reachable_in view seeds axis none

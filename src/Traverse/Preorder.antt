-- ===== src/Traverse/Preorder.antt =====
-- `depth_first_preorder` of crates/cfglib/src/graph/traverse.rs. The loop takes fuel: a round for each
-- entry that the stack may ever hold, which is the start and each edge, and one to see its end.
pub mod Order
pub mod Complete
use cfglib.Prelude.{
  ℕ, zero, suc, ◌+◌, List, [], ◌∷◌, ◌++◌, Bool, true, false, length, set, replicate, if◌then◌else◌,
  Result, ok, out_of_fuel, ◌>>=◌, ◌>>◌, read,
}
use cfglib.View.{View, TraversalDirection, neighbors}
use cfglib.Traverse.{assert_in_bound}

-- The end of the source's stack is the front of the list.
pub record State : Type 0 where
  pub visited : List Bool
  pub order : List ℕ
  pub stack : List ℕ

-- The loop over the neighbors in reverse: the last of them is pushed first.
unfoldable pub push_unvisited : List Bool → List ℕ → List ℕ → Result (List ℕ)
push_unvisited visited [] stack = ok stack
push_unvisited visited (successor ∷ adjacent) stack = do
  stack ← push_unvisited visited adjacent stack
  seen ← read visited successor
  if seen then ok stack else ok (successor ∷ stack)

-- The body of the loop at a node that is not visited.
unfoldable pub enter : TraversalDirection → View → ℕ → State → Result State
enter axis view node s = do
  let visited = set s.visited node true
  stack ← push_unvisited visited (neighbors axis view node) s.stack
  ok (record { visited = visited; order = s.order ++ node ∷ []; stack = stack })

unfoldable pub round : TraversalDirection → View → ℕ → State → Result State
round axis view node s = do
  seen ← read s.visited node
  if seen then ok s else enter axis view node s

unfoldable pub run_loop : TraversalDirection → View → ℕ → State → Result State
run_loop axis view zero s = out_of_fuel
run_loop axis view (suc fuel) s = elim s.stack [
  | [] ↦ ok s
  | node ∷ rest ↦ round axis view node (record s { stack = rest }) >>= run_loop axis view fuel
]

-- The edges of the nodes from `k` on that are not visited.
unfoldable pub edges_left : TraversalDirection → View → ℕ → List Bool → ℕ
edges_left axis view k [] = 0
edges_left axis view k (seen ∷ visited) =
    (if seen then 0 else length (neighbors axis view k)) + edges_left axis view (suc k) visited

unfoldable pub depth_first_preorder : View → ℕ → TraversalDirection → Result (List ℕ)
depth_first_preorder view start axis = do
  let visited = replicate view.node_bound false
  assert_in_bound view start
  s ←
      run_loop axis view (suc (suc (edges_left axis view 0 visited)))
        (record { visited = visited; order = []; stack = start ∷ [] })
  ok s.order

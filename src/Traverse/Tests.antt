-- ===== src/Traverse/Tests.antt =====
-- Runs of `reachable`, and its theorem at a concrete graph: the example of its documentation, a main
-- node that calls a helper, and an orphan.
use cfglib.Prelude.{
  count, none, ◌≤◌, ℕ, zero, suc, ◌<◌, ◌≡◌, ◌⊎◌, ◌↔◌, refl, List, [], ◌∷◌, Bool, true, false,
  length, get_elem?, elem, some, ok, panic, arith,
}
use cfglib.Marks.{flag}
use cfglib.View.{View, outgoing, incoming, neighbors, IsView}
use cfglib.Traverse.{
  assert_in_bound, discover, start_from, is_within, visit_next, expand, walk, reachable_in,
  reachable,
}
use cfglib.Traverse.Reach.{Reaches}
use cfglib.Traverse.Search.{all_in_bound}
use cfglib.Traverse.Preorder.{
  push_unvisited, enter, round, run_loop, edges_left, depth_first_preorder,
}
use cfglib.Traverse.Preorder.Complete.{depth_first_preorder-Reaches}
use cfglib.Traverse.Closure.{reachable_in-Reaches}

abbrev calls : ℕ → List ℕ
calls zero = 1 ∷ []
calls (suc n) = []

abbrev callers : ℕ → List ℕ
callers zero = []
callers (suc zero) = 0 ∷ []
callers (suc (suc n)) = []

abbrev program : View
program = record {
  node_bound = 3;
  node_ids = 0 ∷ 1 ∷ 2 ∷ [];
  successors = calls;
  predecessors = callers;
}

calls_below : (n k i : ℕ) → get_elem? (calls n) k ≡ some i → i < 3
calls_below zero k i at = ground arith
calls_below (suc n) k i at = ground arith

callers_below : (n k i : ℕ) → get_elem? (callers n) k ≡ some i → i < 3
callers_below zero k i at = ground arith
callers_below (suc zero) k i at = ground arith
callers_below (suc (suc n)) k i at = ground arith

calls_converse : (n m : ℕ) → elem m (calls n) ≡ elem n (callers m)
calls_converse zero zero = refl
calls_converse zero (suc zero) = refl
calls_converse zero (suc (suc m)) = ground arith
calls_converse (suc n) zero = refl
calls_converse (suc n) (suc zero) = ground arith
calls_converse (suc n) (suc (suc m)) = refl

program-IsView : IsView program
program-IsView = record {
  ids_below = λ k i at. ground arith;
  successors_below = calls_below;
  predecessors_below = callers_below;
  converse = calls_converse;
}

live : reachable program (0 ∷ []) outgoing ≡ ok (true ∷ true ∷ false ∷ [])
unfolding reachable reachable_in start_from assert_in_bound discover walk expand visit_next
    is_within neighbors
live = refl

all_live : reachable program (0 ∷ 2 ∷ []) outgoing ≡ ok (true ∷ true ∷ true ∷ [])
unfolding reachable reachable_in start_from assert_in_bound discover walk expand visit_next
    is_within neighbors
all_live = refl

-- The walk stays in the set, and its seeds need not be in it.
confined :
    reachable_in program (1 ∷ []) incoming (some (false ∷ false ∷ true ∷ []))
    ≡ ok (false ∷ true ∷ false ∷ [])
unfolding reachable_in start_from assert_in_bound discover walk expand visit_next is_within
    neighbors
confined = refl

reachable_in-Reaches_example :
    (all_in_bound program (0 ∷ []) ≡ true)
      × ((visited : List Bool) × (reachable_in program
              (0 ∷ [])
              outgoing
              (some (true ∷ true ∷ true ∷ []))
            ≡ ok visited)
          × (length visited ≡ 3)
          × ((f : ℕ)
              → (flag visited f ≡ true)
                ↔ Reaches program outgoing (some (true ∷ true ∷ true ∷ [])) (0 ∷ []) f))
    ⊎ (all_in_bound program (0 ∷ []) ≡ false)
      × (reachable_in program (0 ∷ []) outgoing (some (true ∷ true ∷ true ∷ [])) ≡ panic)
reachable_in-Reaches_example =
    reachable_in-Reaches program program-IsView outgoing (some (true ∷ true ∷ true ∷ []))
      (omega arith) (0 ∷ [])

preordered : depth_first_preorder program 0 outgoing ≡ ok (0 ∷ 1 ∷ [])
unfolding depth_first_preorder assert_in_bound edges_left run_loop round enter push_unvisited
    neighbors
preordered = refl

depth_first_preorder-Reaches_example :
    (0 < 3)
      × ((order : List ℕ) × (depth_first_preorder program 0 outgoing ≡ ok order)
          × ((f : ℕ) → (count f order ≡ 1) ↔ Reaches program outgoing none (0 ∷ []) f)
          × ((f : ℕ) → count f order ≤ 1))
    ⊎ (3 ≤ 0) × (depth_first_preorder program 0 outgoing ≡ panic)
depth_first_preorder-Reaches_example =
    depth_first_preorder-Reaches program program-IsView outgoing 0

-- The program with its orphan removed: a walk starts from the removed node all the same.
abbrev without_orphan : View
without_orphan = record program { node_ids = 0 ∷ 1 ∷ [] }

removed_seed : reachable without_orphan (2 ∷ []) outgoing ≡ ok (false ∷ false ∷ true ∷ [])
unfolding reachable reachable_in start_from assert_in_bound discover walk expand visit_next
    is_within neighbors
removed_seed = refl

removed_start : depth_first_preorder without_orphan 2 outgoing ≡ ok (2 ∷ [])
unfolding depth_first_preorder assert_in_bound edges_left run_loop round enter push_unvisited
    neighbors
removed_start = refl

-- ===== src/View.antt =====
-- A graph as `GraphView` of crates/cfglib/src/graph/view.rs shows it, with the two axes of
-- crates/cfglib/src/graph/traverse.rs. A graph is a parameter, and a node is its index.
use cfglib.Prelude.{ℕ, ◌<◌, ◌≡◌, sym, List, get_elem?, some, elem}

-- `GraphView`
pub record View : Type 0 where
  pub node_bound : ℕ
  pub node_ids : List ℕ
  pub successors : ℕ → List ℕ
  pub predecessors : ℕ → List ℕ

pub data TraversalDirection : Type 0 where
  outgoing : TraversalDirection
  incoming : TraversalDirection

unfoldable pub neighbors : TraversalDirection → View → ℕ → List ℕ
neighbors outgoing view node = view.successors node
neighbors incoming view node = view.predecessors node

unfoldable pub against : TraversalDirection → TraversalDirection
against outgoing = incoming
against incoming = outgoing

-- A graph whose nodes are below its bound, and whose two axes walk the same edges.
pub record IsView (view : View) : Type 0 where
  pub ids_below : (k i : ℕ) → get_elem? view.node_ids k ≡ some i → i < view.node_bound
  pub successors_below :
      (n k i : ℕ) → get_elem? (view.successors n) k ≡ some i → i < view.node_bound
  pub predecessors_below :
      (n k i : ℕ) → get_elem? (view.predecessors n) k ≡ some i → i < view.node_bound
  pub converse : (n m : ℕ) → elem m (view.successors n) ≡ elem n (view.predecessors m)

module _ (view : View) (v : IsView view) where
  pub neighbors_below :
      (d : TraversalDirection) (n k i : ℕ)
      → get_elem? (neighbors d view n) k ≡ some i
      → i < view.node_bound
  unfolding neighbors
  neighbors_below outgoing n k i at = v.successors_below n k i at
  neighbors_below incoming n k i at = v.predecessors_below n k i at

  pub neighbors-against :
      (d : TraversalDirection) (n m : ℕ)
      → elem m (neighbors d view n) ≡ elem n (neighbors (against d) view m)
  unfolding neighbors against
  neighbors-against outgoing n m = v.converse n m
  neighbors-against incoming n m = sym (v.converse m n)

-- ===== src/Store/Listing.antt =====
-- The counts and the listings of crates/cfglib/src/graph/store.rs, and the neighbors of
-- crates/cfglib/src/graph/store/adjacency.rs.
use cfglib.Prelude.{
  ℕ, zero, suc, ◌+◌, ◌<◌, ◌≤◌, ◌≡◌, true, false, some, get_elem?, take, refl, sym, ◌∙◌, ap, inl,
  inr, List, [], ◌∷◌, ◌++◌, Bool, ◌==◌, length, Result, ok, ◌>>=◌, range_from, not, ◌||◌, ◌&&◌, ltb,
  lt→ltb, arith, Bool-cases, length-append,
}
use cfglib.Store.LiveSet
use cfglib.Store.LiveSet.{LiveSet}
use cfglib.Store.LiveSet.Count.{count_to}
use cfglib.Store.Graph.{
  Graph, EdgeRecord, node_bound, edge_bound, node, edge, contains_node, contains_edge, node_is_live,
  edge_is_live, tombstoned_nodes, tombstoned_edges,
}
use cfglib.Store.Walk.{edges_out, edges_in}
use cfglib.Store.Walk.Steps.{select, select-append}
use cfglib.Store.Invariant.{IsStore, contains_node-IsStore, contains_edge-IsStore}

-- An iterator that maps a panicking lookup over identities, collected.
abbrev pub traverse {ℓ} : {A : Type ℓ} → (ℕ → Result A) → List ℕ → Result (List A)
traverse f [] = ok []
traverse f (x ∷ xs) = do y ← f x; ys ← traverse f xs; ok (y ∷ ys)

module _ {ℓ κ} {N : Type ℓ} {E : Type κ} where
  unfoldable pub node_count : Graph N E → ℕ
  node_count g = g.live_node_count

  unfoldable pub edge_count : Graph N E → ℕ
  edge_count g = g.live_edge_count

  unfoldable pub is_empty : Graph N E → Bool
  is_empty g = g.live_node_count == 0

  unfoldable pub node_ids : Graph N E → List ℕ
  node_ids g =
      select (λ slot. not (tombstoned_nodes g) || LiveSet.is_live g.live_nodes slot)
        (range_from 0 (node_bound g))

  unfoldable pub edge_ids : Graph N E → List ℕ
  edge_ids g =
      select (λ slot. not (tombstoned_edges g) || LiveSet.is_live g.live_edges slot)
        (range_from 0 (edge_bound g))

  unfoldable pub nodes : Graph N E → Result (List N)
  nodes g = traverse (node g) (node_ids g)

  unfoldable pub edges : Graph N E → Result (List (EdgeRecord E))
  edges g = traverse (edge g) (edge_ids g)

  unfoldable pub successors : Graph N E → ℕ → Result (List ℕ)
  successors g v = edges_out g v >>= traverse (λ e. edge g e >>= λ r. ok r.target)

  unfoldable pub predecessors : Graph N E → ℕ → Result (List ℕ)
  predecessors g v = edges_in g v >>= traverse (λ e. edge g e >>= λ r. ok r.source)

range_from-snoc : (k n : ℕ) → range_from k (suc n) ≡ range_from k n ++ (k + n) ∷ []
range_from-snoc k zero = ap (λ (i : ℕ). i ∷ []) (omega arith)
range_from-snoc k (suc n) =
    let same : suc k + n ≡ k + suc n = omega arith in
    rw (← same) (ap (◌∷◌ k) (range_from-snoc (suc k) n))

length-select_range :
    (p : ℕ → Bool) (s : LiveSet) (n : ℕ)
    → ((i : ℕ) → i < n → p i ≡ LiveSet.is_live s i)
    → length (select p (range_from 0 n)) ≡ count_to s n
length-select_range p s zero same = refl
length-select_range p s (suc n) same =
    let start : 0 + n ≡ n = omega arith in
    let snoc = rw start at (range_from-snoc 0 n) in
    let size = length-append (select p (range_from 0 n)) (select p (n ∷ [])) in
    let rest = length-select_range p s n (λ i h. same i (omega arith)) in
    ap (λ es. length (select p es)) snoc
    ∙ ap length (select-append p (range_from 0 n) (n ∷ []))
    ∙ elim (Bool-cases (p n)) [
      | inl h ↦ ground (arith, same n (omega arith), h, size, rest)
      | inr h ↦ ground (arith, same n (omega arith), h, size, rest)
    ]

below : (i n : ℕ) (b : Bool) → i < n → b ≡ (ltb i n && b)
below i n b h = rw (lt→ltb i n h)

-- In a well-formed store the counts, which are kept beside the bits, are the numbers of nodes and of
-- edges that the listings give.
pub node_count-IsStore {ℓ κ} :
    {N : Type ℓ} {E : Type κ} (g : Graph N E)
    → IsStore g
    → (length (node_ids g) ≡ node_count g) × (length (edge_ids g) ≡ edge_count g)
unfolding node_ids edge_ids node_count edge_count contains_node contains_edge node_is_live
    edge_is_live
node_count-IsStore g w = (
  length-select_range _ g.live_nodes (node_bound g)
        (λ i h. below i (node_bound g) _ h ∙ contains_node-IsStore g i w)
      ∙ ap (count_to g.live_nodes) (sym w.nodes.size)
      ∙ sym w.nodes.counted,
  length-select_range _ g.live_edges (edge_bound g)
        (λ i h. below i (edge_bound g) _ h ∙ contains_edge-IsStore g i w)
      ∙ ap (count_to g.live_edges) (sym w.edges.size)
      ∙ sym w.edges.counted,
)

select_below :
    (p : ℕ → Bool) (s n k : ℕ)
    → k ≤ n
    → ((i : ℕ) → s ≤ i → i < s + n → p i ≡ ltb i (s + k))
    → select p (range_from s n) ≡ range_from s k
select_below p s zero zero h same = refl
select_below p s zero (suc k) h same = absurd (omega arith)
select_below p s (suc n) zero h same =
    let dead : p s ≡ false = same s (omega arith) (omega arith) ∙ ground arith in
    rw dead (
      select_below p (suc s) n zero (omega arith)
        (λ i a b. same i (omega arith) (omega arith) ∙ ground arith))
select_below p s (suc n) (suc k) h same =
    let live : p s ≡ true = same s (omega arith) (omega arith) ∙ ground arith in
    let shift : s + suc k ≡ suc s + k = omega arith in
    rw live (
      ap (◌∷◌ s) (
        select_below p (suc s) n k (omega arith)
          (λ i a b. same i (omega arith) (omega arith) ∙ ap (ltb i) shift)))

-- A store whose live nodes are those below `k` lists these.
pub node_ids-below {ℓ κ} :
    {N : Type ℓ} {E : Type κ} (g : Graph N E) (k : ℕ)
    → k ≤ node_bound g
    → ((v : ℕ) → contains_node g v ≡ ltb v k)
    → node_ids g ≡ range_from 0 k
unfolding node_ids contains_node node_is_live
node_ids-below g k h live =
    let start : 0 + k ≡ k = omega arith in
    select_below _ 0 (node_bound g) k h
      (λ i a b. below i (node_bound g) _ (omega arith) ∙ live i ∙ ap (ltb i) (sym start))

-- A lookup that reads off a list, over a range.
pub traverse-take {ℓ} :
    {A : Type ℓ} (f : ℕ → Result A) (xs : List A) (s k : ℕ)
    → k ≤ length xs
    → ((i : ℕ) → i < k → (x : A) × (f (s + i) ≡ ok x) × (get_elem? xs i ≡ some x))
    → traverse f (range_from s k) ≡ ok (take k xs)
traverse-take f xs s zero h reads = refl
traverse-take f [] s (suc k) h reads = absurd (omega arith)
traverse-take f (y ∷ xs) s (suc k) h reads =
    let (x, at, same) = reads 0 (omega arith) in
    let start : s + 0 ≡ s = omega arith in
    let first : f s ≡ ok y = ap f (sym start) ∙ at ∙ cc (same) in
    rw (
      first,
      traverse-take f xs (suc s) k (omega arith) (λ i lt.
          let (x', at', same') = reads (suc i) (omega arith) in
          let shift : suc s + i ≡ s + suc i = omega arith in (x', ap f shift ∙ at', same')),
    )

-- A listing of slots yields slots.
pub select_range-below :
    (p : ℕ → Bool) (s n k i : ℕ) → get_elem? (select p (range_from s n)) k ≡ some i → i < s + n
select_range-below p s zero k i at = absurd (cc (at))
select_range-below p s (suc n) k i at = elim (Bool-cases (p s)) [
  | inr skip ↦ omega (arith, select_range-below p (suc s) n k i (rw skip at at))
  | inl keep ↦ first k (rw keep at at) (select_range-below p (suc s) n)
]
  where
    first :
        (k : ℕ)
        → get_elem? (s ∷ select p (range_from (suc s) n)) k ≡ some i
        → ((k i : ℕ) → get_elem? (select p (range_from (suc s) n)) k ≡ some i → i < suc s + n)
        → i < s + suc n
    first zero at rest = let same : s ≡ i = cc (at) in omega arith
    first (suc k) at rest = omega (arith, rest k i at)

select_range-same :
    (p q : ℕ → Bool) (s n : ℕ)
    → ((i : ℕ) → s ≤ i → i < s + n → p i ≡ q i)
    → select p (range_from s n) ≡ select q (range_from s n)
select_range-same p q s zero same = refl
select_range-same p q s (suc n) same =
    let rest = select_range-same p q (suc s) n (λ i a b. same i (omega arith) (omega arith)) in
    let first = same s (omega arith) (omega arith) in
    elim (Bool-cases (q s)) [
      | inl keep ↦ rw (first, keep) (ap (◌∷◌ s) rest)
      | inr skip ↦ rw (first, skip) rest
    ]

-- The listing of the nodes is that of the live slots.
pub node_ids-select {ℓ κ} :
    {N : Type ℓ} {E : Type κ} (g : Graph N E)
    → node_ids g ≡ select (contains_node g) (range_from 0 (node_bound g))
unfolding node_ids contains_node node_is_live
node_ids-select g =
    select_range-same _ _ 0 (node_bound g) (λ i a b. below i (node_bound g) _ (omega arith))

pub node_ids-same {ℓ κ} :
    {N : Type ℓ} {E : Type κ} (g g' : Graph N E)
    → node_bound g' ≡ node_bound g
    → ((v : ℕ) → contains_node g' v ≡ contains_node g v)
    → node_ids g' ≡ node_ids g
node_ids-same g g' bound nodes =
    node_ids-select g'
    ∙ ap (λ n. select (contains_node g') (range_from 0 n)) bound
    ∙ select_range-same (contains_node g') (contains_node g) 0 (node_bound g) (λ i a b. nodes i)
    ∙ sym (node_ids-select g)

-- ===== src/DisjointSet/Query.antt =====
-- `find` against the read-only `root`.
use cfglib.Prelude.{ℕ, ◌<◌, ◌≤◌, ◌≡◌, ◌∙◌, sym, arith, ok, panic, get_elem?_ge}
use cfglib.DisjointSet.{DisjointSet, find, find_loop, root, root_loop, len}
use cfglib.DisjointSet.Link.{IsForest, Climb-in, root-Climb, find-Climb}

-- On a forest find returns, for each of its elements, what root returns, and the forest that it has
-- compressed has the same length and the same root for every element.
pub find-root :
    (d : DisjointSet) (i : ℕ)
    → IsForest d
    → i < len d
    → (d' : DisjointSet) × (r : ℕ) × (find d i ≡ ok (d', r))
      × (root d i ≡ ok r)
      × IsForest d'
      × (len d' ≡ len d)
      × ((j : ℕ) → j < len d → root d' j ≡ root d j)
unfolding len
find-root d i f h =
    let (r, c) = Climb-in d f i h in
    let (d', run, same, comp) = find-Climb d f.measure f.forest f.bounded c in
    let f' : IsForest d' = record {
      measure = f.measure;
      forest = comp.forest;
      bounded = λ i. omega (arith, f.bounded i, comp.size);
    } in
    (
      d',
      r,
      run,
      root-Climb d f c,
      f',
      comp.size,
      λ j hj.
          let (s, cj) = Climb-in d f j hj in
          root-Climb d' f' (comp.keeps j s cj) ∙ sym (root-Climb d f cj),
    )

-- Outside the forest `find` and `root` panic.
pub find_outside : (d : DisjointSet) (i : ℕ) → len d ≤ i → (find d i ≡ panic) × (root d i ≡ panic)
unfolding find root find_loop root_loop len
find_outside d i h =
    (ground (arith, get_elem?_ge d.parent i), ground (arith, get_elem?_ge d.parent i))

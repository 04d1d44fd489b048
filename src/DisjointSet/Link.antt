-- ===== src/DisjointSet/Link.antt =====
-- Sets as a partition: what it means that an update of the forest joins two sets.
use cfglib.Prelude.{
  ℕ, suc, ◌<◌, ◌≤◌, ◌≡◌, refl, sym, ◌∙◌, ◌≢◌, ◌⊎◌, inl, inr, ◌↔◌, List, length, get_elem?, set,
  some, arith, ◌==◌, if◌then◌else◌, Bool, not, true, false, Bool-cases, ==→≡, ==→≢, ok,
  get_elem?-set_self, get_elem?-set_ne, lt_of_get_elem?,
}
use cfglib.DisjointSet.{DisjointSet, find, root, len}
use cfglib.DisjointSet.Climb.{Climb, top, up, Falls, Climb-exists, root_loop-Climb}
use cfglib.DisjointSet.Find.{find_loop-Compresses, Compresses, Compresses-trans}

-- Some measure falls along `parent` and is at most the number of elements, so the fuel suffices.
pub record IsForest (d : DisjointSet) : Type 0 where
  pub measure : ℕ → ℕ
  pub forest : Falls measure d.parent
  pub bounded : (i : ℕ) → measure i ≤ length d.parent

pub Climb-in :
    (d : DisjointSet) → IsForest d → (i : ℕ) → i < length d.parent → (r : ℕ) × Climb d.parent r i
Climb-in d f i h = Climb-exists f.measure d.parent f.forest (suc (f.measure i)) i h (omega arith)

pub root-Climb : (d : DisjointSet) → IsForest d → {i r : ℕ} → Climb d.parent r i → root d i ≡ ok r
unfolding root
root-Climb d f {i} {r} c =
    root_loop-Climb f.measure d.parent f.forest (suc (length d.parent)) i r c
      (omega (arith, f.bounded i))

-- `x` and `y` have the same representative.
abbrev pub SameSet : DisjointSet → ℕ → ℕ → Type 0
SameSet d x y = (r : ℕ) × (root d x ≡ ok r) × (root d y ≡ ok r)

pub SameSet-Climb :
    (d : DisjointSet)
    → IsForest d
    → (x y s t : ℕ) → Climb d.parent s x
    → Climb d.parent t y
    → SameSet d x y ↔ (s ≡ t)
SameSet-Climb d f x y s t c e =
    let left = root-Climb d f c in
    let right = root-Climb d f e in (λ (r, p, q). ground arith, λ same. (s, left, ground arith))

-- `find` returns the representative that `root` sees, in a compressed forest.
pub find-Climb :
    (d : DisjointSet) (measure : ℕ → ℕ)
    → Falls measure d.parent
    → ((i : ℕ) → measure i ≤ length d.parent)
    → {i r : ℕ} → Climb d.parent r i
    → (d' : DisjointSet) × (find d i ≡ ok (d', r))
      × (d'.rank ≡ d.rank)
      × Compresses measure d.parent d'.parent
unfolding find
find-Climb d measure f b {i} {r} c =
    let (q, run, comp) =
      find_loop-Compresses measure (suc (length d.parent)) d.parent i r f c (omega (arith, b i)) in
    (record d { parent = q }, ground (arith, run), refl, comp)

-- The two searches that both unions begin with.
pub find_twice :
    (d : DisjointSet) (measure : ℕ → ℕ)
    → Falls measure d.parent
    → ((i : ℕ) → measure i ≤ length d.parent)
    → {l r s t : ℕ} → Climb d.parent s l
    → Climb d.parent t r
    → (d₁ d₂ : DisjointSet) × (find d l ≡ ok (d₁, s))
      × (find d₁ r ≡ ok (d₂, t))
      × (d₂.rank ≡ d.rank)
      × Compresses measure d.parent d₂.parent
find_twice d measure f b {r = r} {t = t} cl cr =
    let (d₁, run, same, comp) = find-Climb d measure f b cl in
    let bound : (i : ℕ) → measure i ≤ length d₁.parent = λ i. omega (arith, b i, comp.size) in
    let (d₂, run', same', comp') = find-Climb d₁ measure comp.forest bound (comp.keeps r t cr) in
    (d₁, d₂, run, run', same' ∙ same, Compresses-trans d₂.parent comp comp')

-- The root `a` gets the parent `b`, another root.
module _ (p : List ℕ) (a b : ℕ) (ra : get_elem? p a ≡ some a) (rb : get_elem? p b ≡ some b)
    (ne : a ≢ b) where
  pub link-Climb_other : {r j : ℕ} → Climb p r j → r ≢ a → Climb (set p a b) r j
  link-Climb_other {r} (top e) n = top (get_elem?-set_ne p a r b (λ same. n (sym same)) ∙ e)
  link-Climb_other (up {i = i} e m c) n =
      up (get_elem?-set_ne p a i b (λ same. m (ground arith)) ∙ e) m (link-Climb_other c n)

  pub link-Climb_moved : {j : ℕ} → Climb p a j → Climb (set p a b) b j
  link-Climb_moved (top e) =
      up (get_elem?-set_self p a b (lt_of_get_elem? p a ra)) (λ same. ne (sym same))
        (top (get_elem?-set_ne p a b b ne ∙ rb))
  link-Climb_moved (up {i = i} e m c) =
      up (get_elem?-set_ne p a i b (λ same. m (ground arith)) ∙ e) m (link-Climb_moved c)

  pub link-Climb : {r j : ℕ} → Climb p r j → Climb (set p a b) (if r == a then b else r) j
  link-Climb {r} {j} c = elim (Bool-cases (r == a)) [
    | inl same ↦ let e = ==→≡ r a same in rw same (link-Climb_moved (rw e at c))
    | inr other ↦ rw other (link-Climb_other c (==→≢ r a other))
  ]

-- In `d'` the sets of `l` and `r` are one, and all others are as in `d`; the flag says whether
-- they were two.
pub record Joins (d : DisjointSet) (l r : ℕ) (d' : DisjointSet) (flag : Bool) : Type 0 where
  pub size : len d' ≡ len d
  pub flag_lem : (flag ≡ false) ↔ SameSet d l r
  pub joined :
      (x y : ℕ)
      → x < len d
      → y < len d
      → SameSet d' x y
        ↔ (SameSet d x y ⊎ SameSet d x l × SameSet d y r ⊎ SameSet d x r × SameSet d y l)

pub relabel_same : (s t u : ℕ) → (s == t) ≡ true → u ≡ (if u == s then t else u)
relabel_same s t u e = ground arith

-- Relabelling one of the two roots as the other joins the two sets.
module _ (d d' : DisjointSet) (l r a b s t : ℕ) (f : IsForest d) (f' : IsForest d')
    (size : length d'.parent ≡ length d.parent) (cl : Climb d.parent s l) (cr : Climb d.parent t r)
    (which : (a ≡ s) × (b ≡ t) ⊎ (a ≡ t) × (b ≡ s))
    (move : (j u : ℕ) → Climb d.parent u j → Climb d'.parent (if u == a then b else u) j) where
  relabel_joined :
      (x y : ℕ)
      → x < len d
      → y < len d
      → SameSet d' x y
        ↔ (SameSet d x y ⊎ SameSet d x l × SameSet d y r ⊎ SameSet d x r × SameSet d y l)
  unfolding len
  relabel_joined x y hx hy =
      let (u, cx) = Climb-in d f x hx in
      let (v, cy) = Climb-in d f y hy in
      let after = SameSet-Climb d' f' x y _ _ (move x u cx) (move y v cy) in
      let before = SameSet-Climb d f x y u v cx cy in
      let xl = SameSet-Climb d f x l u s cx cl in
      let xr = SameSet-Climb d f x r u t cx cr in
      let yl = SameSet-Climb d f y l v s cy cl in
      let yr = SameSet-Climb d f y r v t cy cr in
      (
        λ same. elim (relabelled u v (after.0 same)) [
          | inl e ↦ inl (before.1 e)
          | inr (inl (p, q)) ↦ inr (inl (xl.1 p, yr.1 q))
          | inr (inr (p, q)) ↦ inr (inr (xr.1 p, yl.1 q))
        ],
        elim [
          | inl e ↦ after.1 (joined_label u v (inl (before.0 e)))
          | inr (inl (p, q)) ↦ after.1 (joined_label u v (inr (inl (xl.0 p, yr.0 q))))
          | inr (inr (p, q)) ↦ after.1 (joined_label u v (inr (inr (xr.0 p, yl.0 q))))
        ],
      )
    where
      relabelled :
          (u v : ℕ)
          → (if u == a then b else u) ≡ (if v == a then b else v)
          → (u ≡ v) ⊎ (u ≡ s) × (v ≡ t) ⊎ (u ≡ t) × (v ≡ s)
      relabelled u v e = ground arith

      joined_label :
          (u v : ℕ)
          → (u ≡ v) ⊎ (u ≡ s) × (v ≡ t) ⊎ (u ≡ t) × (v ≡ s)
          → (if u == a then b else u) ≡ (if v == a then b else v)
      joined_label u v e = ground arith

  pub Joins-relabel : (flag : Bool) → flag ≡ not (s == t) → Joins d l r d' flag
  unfolding len
  Joins-relabel flag e =
      let both = SameSet-Climb d f l r s t cl cr in
      record {
        size = size;
        flag_lem = (λ h. both.1 (ground arith), λ h. ground (arith, both.0 h));
        joined = relabel_joined;
      }

-- ===== src/DisjointSet/Find.antt =====
-- What `find` and `root` return, and what `find` leaves unchanged.
use cfglib.Prelude.{
  ℕ, zero, suc, ◌+◌, ◌<◌, ◌≡◌, refl, ◌∙◌, ◌≢◌, List, [], ◌∷◌, length, get_elem?, set, some, arith,
  ◌==◌, ok, length-set, if◌then◌else◌, get_elem?_lt, lt_of_get_elem?, get_elem?-set_self,
}
use cfglib.DisjointSet.{find_loop}
use cfglib.DisjointSet.Climb.{Climb, top, up, Climb-parent, Falls, halve-Falls, halve-Climb}

-- How many indices from `k` on are their own parents.
abbrev pub roots : ℕ → List ℕ → ℕ
roots k [] = 0
roots k (p ∷ ps) = (if p == k then 1 else 0) + roots (suc k) ps

-- A write at an index that was and stays no root keeps the number of roots.
pub roots-set :
    (ps : List ℕ) (k i a g : ℕ)
    → get_elem? ps i ≡ some a
    → a ≢ k + i
    → g ≢ k + i
    → roots k (set ps i g) ≡ roots k ps
roots-set [] k i a g e n m = refl
roots-set (p ∷ ps) k zero a g e n m = ground arith
roots-set (p ∷ ps) k (suc i) a g e n m =
    omega (arith, roots-set ps (suc k) i a g e (omega arith) (omega arith))

-- `q` is `p` with shorter paths: same elements, same roots above each.
pub record Compresses (measure : ℕ → ℕ) (p q : List ℕ) : Type 0 where
  pub size : length q ≡ length p
  pub forest : Falls measure q
  pub keeps : (j r : ℕ) → Climb p r j → Climb q r j
  pub count : roots 0 q ≡ roots 0 p

-- The loop of `find` ends at the root, in a compressed forest.
pub find_loop-Compresses :
    (measure : ℕ → ℕ) (fuel : ℕ) (p : List ℕ) (i r : ℕ)
    → Falls measure p
    → Climb p r i
    → measure i < fuel
    → (q : List ℕ) × (find_loop fuel p i ≡ ok (q, r)) × Compresses measure p q
unfolding find_loop
find_loop-Compresses measure zero p i r f c m = absurd (omega arith)
find_loop-Compresses measure (suc fuel) p i r f (top e) m =
    (p, ground arith, record { size = refl; forest = f; keeps = λ j s d. d; count = refl })
find_loop-Compresses measure (suc fuel) p i r f (up {j = a} e n c) m =
    let (g, grand) = get_elem?_lt p a (f.inside i a e) in
    let p' = set p i g in
    let less : measure g < measure i = ground (arith, f.falls i a e, f.falls a g grand) in
    let climb : Climb p' r g =
      halve-Climb measure p f i a g e grand n (suc (measure g)) g r (omega arith)
        (Climb-parent g c grand) in
    let (q, run, rest) =
      find_loop-Compresses measure fuel p' g r (halve-Falls measure p f i a g e grand n) climb
        (omega arith) in
    let self = get_elem?-set_self p i g (lt_of_get_elem? p i e) in
    (
      q,
      ground (arith, run, self),
      record {
        size = rest.size ∙ length-set p i g;
        forest = rest.forest;
        keeps = λ j s d.
            rest.keeps j s
              (halve-Climb measure p f i a g e grand n (suc (measure j)) j s (omega arith) d);
        count =
            rest.count
            ∙ roots-set p 0 i a g e (omega arith) (λ same. absurd (ground (arith, less)));
      },
    )

pub Compresses-trans :
    {measure : ℕ → ℕ} {p q : List ℕ} (s : List ℕ)
    → Compresses measure p q
    → Compresses measure q s
    → Compresses measure p s
Compresses-trans s a b = record {
  size = b.size ∙ a.size;
  forest = b.forest;
  keeps = λ j r c. b.keeps j r (a.keeps j r c);
  count = b.count ∙ a.count;
}

-- ===== src/Relax/Potential.antt =====
-- Why the loop of crates/cfglib/src/graph/relax.rs ends: what the labels may still fall, weighted by the
-- edges of each node.
use cfglib.Prelude.{
  ℕ, zero, suc, ◌+◌, ◌*◌, ◌<◌, ◌≤◌, ◌≡◌, List, [], ◌∷◌, get_elem?, set, replicate, some, arith,
}

grows_by : (d a b : ℕ) → a < b → d * a + d ≤ d * b
grows_by d a b h = grind arith

-- The degrees of the nodes from `k` on.
pub total : (ℕ → ℕ) → ℕ → ℕ → ℕ
total degree k zero = 0
total degree k (suc n) = degree k + total degree (suc k) n

module _ {ω} {A : Type ω} (degree : ℕ → ℕ) (height : A → ℕ) where
  -- The sum, from the node `k` on, of what each label may still fall.
  pub weight : ℕ → List A → ℕ
  weight k [] = 0
  weight k (a ∷ as_) = degree k * height a + weight (suc k) as_

  pub weight-set :
      (k i : ℕ) (as_ : List A) (old new : A)
      → get_elem? as_ i ≡ some old
      → height new < height old
      → weight k (set as_ i new) + degree (k + i) ≤ weight k as_
  unfolding weight
  weight-set k i [] old new at h = absurd (cc (at))
  weight-set k zero (a ∷ as_) old new at h =
      let same : a ≡ old = cc (at) in
      let start : k + 0 ≡ k = omega arith in
      let step = grows_by (degree k) (height new) (height old) h in
      rw (same, start) (omega (arith, step))
  weight-set k (suc i) (a ∷ as_) old new at h =
      let shift : k + suc i ≡ suc k + i = omega arith in
      rw shift (omega (arith, weight-set (suc k) i as_ old new at h))

  pub weight-replicate : (k n : ℕ) (a : A) → weight k (replicate n a) ≡ total degree k n * height a
  unfolding weight total
  weight-replicate k zero a = omega arith
  weight-replicate k (suc n) a = let rest = weight-replicate (suc k) n a in grind (arith, rest)

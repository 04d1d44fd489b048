-- ===== src/Store/Chains/Ring.antt =====
-- Chains as lists: a ring of ascending edges with one owner, and what an append does to it.
use cfglib.Prelude.{
  ℕ, suc, ◌+◌, ◌<◌, ◌≤◌, ◌≡◌, refl, ◌∙◌, ◌≢◌, List, [], ◌∷◌, ◌++◌, length, ◌==◌, if◌then◌else◌,
  Option, some, arith,
}

-- The indices from `k` on of the entries that are `v`.
abbrev pub owned : ℕ → ℕ → List ℕ → List ℕ
owned k v [] = []
owned k v (t ∷ ts) = if t == v then k ∷ owned (suc k) v ts else owned (suc k) v ts

pub owned-append :
    (k v : ℕ) (ts : List ℕ) (t : ℕ)
    → owned k v (ts ++ t ∷ [])
      ≡ (if t == v then owned k v ts ++ (k + length ts) ∷ [] else owned k v ts)
owned-append k v [] t = ground arith
owned-append k v (s ∷ ts) t = ground (arith, owned-append (suc k) v ts t)

pub owned-append_zero :
    (v : ℕ) (ts : List ℕ) (t : ℕ)
    → owned 0 v (ts ++ t ∷ []) ≡ (if t == v then owned 0 v ts ++ length ts ∷ [] else owned 0 v ts)
owned-append_zero v ts t =
    let same : 0 + length ts ≡ length ts = omega arith in rw (← same) (owned-append 0 v ts t)

-- The last of `e ∷ es`.
abbrev pub final : ℕ → List ℕ → ℕ
final e [] = e
final e (x ∷ es) = final x es

pub final-append : (e : ℕ) (es : List ℕ) (n : ℕ) → final e (es ++ n ∷ []) ≡ n
final-append e [] n = refl
final-append e (x ∷ es) n = final-append x es n

-- Following `next` from `e` visits `e ∷ es`, in ascending order and all owned by `v`, and comes
-- back to `first`.
abbrev pub Walks : (ℕ → Option ℕ) → (ℕ → Option ℕ) → ℕ → ℕ → ℕ → List ℕ → Type 0
Walks next owner v first e [] = (owner e ≡ some v) × (next e ≡ some first)
Walks next owner v first e (x ∷ es) =
    (owner e ≡ some v) × (next e ≡ some x) × (e < x) × Walks next owner v first x es

pub Walks-final :
    (next owner : ℕ → Option ℕ) (v first e : ℕ) (es : List ℕ)
    → Walks next owner v first e es
    → (e ≤ final e es) × (owner (final e es) ≡ some v) × (next (final e es) ≡ some first)
Walks-final next owner v first e [] w = (omega arith, w.0, w.1)
Walks-final next owner v first e (x ∷ es) w =
    let (le, own, nx) = Walks-final next owner v first x es w.3 in (omega arith, own, nx)

module _ (next next' owner owner' : ℕ → Option ℕ)
    (keeps : (i v : ℕ) → owner i ≡ some v → owner' i ≡ some v) where
  -- A chain whose links are untouched is still that chain.
  pub Walks-frame :
      (v first e : ℕ) (es : List ℕ)
      → ((i : ℕ) → owner i ≡ some v → next' i ≡ next i)
      → Walks next owner v first e es
      → Walks next' owner' v first e es
  Walks-frame v first e [] same w = (keeps e v w.0, same e w.0 ∙ w.1)
  Walks-frame v first e (x ∷ es) same w =
      (keeps e v w.0, same e w.0 ∙ w.1, w.2, Walks-frame v first x es same w.3)

  -- Splicing `n` in behind the last element appends it to the chain.
  pub Walks-append :
      (v first e : ℕ) (es : List ℕ) (n : ℕ)
      → ((i : ℕ) → owner i ≡ some v → i ≢ final e es → next' i ≡ next i)
      → next' (final e es) ≡ some n
      → next' n ≡ some first
      → owner' n ≡ some v
      → final e es < n
      → Walks next owner v first e es
      → Walks next' owner' v first e (es ++ n ∷ [])
  Walks-append v first e [] n same at_end back own less w =
      (keeps e v w.0, at_end, less, (own, back))
  Walks-append v first e (x ∷ es) n same at_end back own less w =
      let (le, _, _) = Walks-final next owner v first x es w.3 in
      (
        keeps e v w.0,
        same e w.0 (λ q. absurd (omega arith)) ∙ w.1,
        w.2,
        Walks-append v first x es n same at_end back own less w.3,
      )

-- ===== src/Store/Walk/Member.antt =====
-- Which edges are in the lists that the walk of crates/cfglib/src/graph/store/adjacency.rs returns.
use cfglib.Prelude.{
  ℕ, zero, suc, ◌+◌, ◌<◌, ◌≡◌, refl, sym, ◌∙◌, ap, inl, inr, List, [], ◌∷◌, Bool, false, ◌&&◌, ◌||◌,
  ◌==◌, get_elem?, none, some, arith, Bool-cases, ==→≡,
}
use cfglib.Store.Chains.Ring.{owned}
use cfglib.Store.Walk.Steps.{select}

abbrev pub member : ℕ → List ℕ → Bool
member j [] = false
member j (x ∷ xs) = (x == j) || member j xs

-- Whether the entry at an index is there and is `v`.
abbrev pub is_at : List ℕ → ℕ → ℕ → Bool
is_at ts i v = elim (get_elem? ts i) [ none ↦ false | some t ↦ t == v ]

member-owned_below : (j k v : ℕ) (ts : List ℕ) → j < k → member j (owned k v ts) ≡ false
member-owned_below j k v [] h = refl
member-owned_below j k v (t ∷ ts) h = ground (arith, member-owned_below j (suc k) v ts)

pub member-owned : (i k v : ℕ) (ts : List ℕ) → member (k + i) (owned k v ts) ≡ is_at ts i v
member-owned i k v [] = refl
member-owned zero k v (t ∷ ts) = ground (arith, member-owned_below k (suc k) v ts (omega arith))
member-owned (suc i) k v (t ∷ ts) =
    let step : k + suc i ≡ suc k + i = omega arith in
    rw step (ground (arith, member-owned i (suc k) v ts))

pub member-select :
    (p : ℕ → Bool) (j : ℕ) (es : List ℕ) → member j (select p es) ≡ (member j es && p j)
member-select p j [] = refl
member-select p j (e ∷ es) =
    let rest = member-select p j es in
    elim (Bool-cases (e == j)) [
      | inl q ↦ elim (Bool-cases (p e)) [
        | inl h ↦ rw (h, q, ap p (sym (==→≡ e j q)) ∙ h)
        | inr h ↦ rw (h, q, rest, ap p (sym (==→≡ e j q)) ∙ h) (ground arith)
      ]
      | inr q ↦ ground (arith, q, rest)
    ]

-- ===== src/Cfg/Protection/Removal.antt =====
-- What the removal of regions leaves in the regions and in the cleanup records:
-- `remove_region` and `remove_unreachable_regions` of crates/cfglib/src/cfg/regions.rs.
use cfglib.Prelude.{
  ℕ, zero, suc, ◌+◌, ◌<◌, ◌≡◌, refl, sym, ◌∙◌, ap, inl, inr, List, [], ◌∷◌, Bool, true, false,
  length, get_elem?, set, elem, ◌==◌, if◌then◌else◌, Option, none, some, arith, subst, Bool-cases,
  Option-cases, same_test, ==→≡, ≡→==, ==→≢, length-set, get_elem?-set_self, get_elem?-set_ne,
  lt_of_get_elem?, get_elem?_lt,
}
use cfglib.Cfg.{Cfg}
use cfglib.Cfg.Regions.{Region, Cleanup}
use cfglib.Cfg.Protection.{tombstone, retain_others, remove_region, remove_regions}

-- What stands at a place whose region is removed or kept.
abbrev pub after : Bool → ℕ → Option Region → Option Region
after gone k none = none
after gone k (some r) = some (if gone then tombstone k else r)

-- The cleanup records of the regions that are not gone.
abbrev pub without : (ℕ → Bool) → List Cleanup → List Cleanup
without gone [] = []
without gone (c ∷ cs) = if gone c.handler.region then without gone cs else c ∷ without gone cs

after_twice :
    (a b : Bool) (k : ℕ) (o : Option Region)
    → after b k (after a k o) ≡ after (if a then true else b) k o
after_twice a b k none = refl
after_twice true true k (some r) = refl
after_twice true false k (some r) = refl
after_twice false b k (some r) = refl

without_twice :
    (p q : ℕ → Bool) (cs : List Cleanup)
    → without q (without p cs) ≡ without (λ k. if p k then true else q k) cs
without_twice p q [] = refl
without_twice p q (c ∷ cs) = elim (Bool-cases (p c.handler.region)) [
  | inl gone ↦ rw gone (without_twice p q cs)
  | inr kept ↦ elim (Bool-cases (q c.handler.region)) [
    | inl gone ↦ rw (kept, gone) (without_twice p q cs)
    | inr left ↦ rw (kept, left) (ap (λ ds. c ∷ ds) (without_twice p q cs))
  ]
]

==-comm : (a b : ℕ) → (a == b) ≡ (b == a)
==-comm a b =
    same_test (a == b) (b == a) (λ e. ≡→== b a (sym (==→≡ a b e)))
      (λ e. ≡→== a b (sym (==→≡ b a e)))

retain_others-without :
    (id : ℕ) (cs : List Cleanup) → retain_others id cs ≡ without (λ k. id == k) cs
unfolding retain_others
retain_others-without id [] = refl
retain_others-without id (c ∷ cs) = elim (Bool-cases (id == c.handler.region)) [
  | inl gone ↦ rw (gone, ==-comm c.handler.region id, gone) (retain_others-without id cs)
  | inr kept ↦
      rw (kept, ==-comm c.handler.region id, kept) (ap (λ ds. c ∷ ds) (retain_others-without id cs))
]

get_elem?-set-none :
    (regions : List Region) (id k : ℕ) (r : Region)
    → get_elem? regions k ≡ none
    → get_elem? (set regions id r) k ≡ none
get_elem?-set-none [] id k r e = refl
get_elem?-set-none (x ∷ regions) id zero r e = absurd (cc e)
get_elem?-set-none (x ∷ regions) zero (suc k) r e = e
get_elem?-set-none (x ∷ regions) (suc id) (suc k) r e = get_elem?-set-none regions id k r e

get_elem?-tombstone :
    (regions : List Region) (id k : ℕ)
    → get_elem? (set regions id (tombstone id)) k ≡ after (id == k) k (get_elem? regions k)
get_elem?-tombstone regions id k = elim (Bool-cases (id == k)) [
  | inr other ↦ elim (Option-cases (get_elem? regions k)) [
    | inl e ↦ rw (get_elem?-set_ne regions id k (tombstone id) (==→≢ id k other), e) refl
    | inr (r, e) ↦
        rw (get_elem?-set_ne regions id k (tombstone id) (==→≢ id k other), e, other) refl
  ]
  | inl same ↦ elim (Option-cases (get_elem? regions k)) [
    | inl e ↦ rw e (get_elem?-set-none regions id k (tombstone id) e)
    | inr (r, e) ↦
        rw (==→≡ id k same, e, ≡→== k k refl)
          (get_elem?-set_self regions k (tombstone k) (lt_of_get_elem? regions k e))
  ]
]

-- The identity of each region is its place.
abbrev pub NumberedFrom : ℕ → List Region → Type 0
NumberedFrom s [] = Unit
NumberedFrom s (r ∷ regions) = (r.id ≡ s) × NumberedFrom (suc s) regions

set-NumberedFrom :
    (s : ℕ) (regions : List Region) (j id : ℕ)
    → id ≡ s + j
    → NumberedFrom s regions
    → NumberedFrom s (set regions j (tombstone id))
set-NumberedFrom s [] j id e w = tt
set-NumberedFrom s (r ∷ regions) zero id e (own, w) = (omega (arith, e), w)
set-NumberedFrom s (r ∷ regions) (suc j) id e (own, w) =
    (own, set-NumberedFrom (suc s) regions j id (omega (arith, e)) w)

-- All numbers are places of the list.
abbrev pub InRange : List Region → List ℕ → Type 0
InRange regions [] = Unit
InRange regions (id ∷ ids) = (id < length regions) × InRange regions ids

InRange-cong :
    (xs ys : List Region) (ids : List ℕ) → length xs ≡ length ys → InRange xs ids → InRange ys ids
InRange-cong xs ys [] e i = tt
InRange-cong xs ys (id ∷ ids) e (h, i) = (omega (arith, h, e), InRange-cong xs ys ids e i)

without-none : (cs : List Cleanup) → without (λ k. false) cs ≡ cs
without-none [] = refl
without-none (c ∷ cs) = ap (λ ds. c ∷ ds) (without-none cs)

after-false : (k : ℕ) (o : Option Region) → after false k o ≡ o
after-false k none = refl
after-false k (some r) = refl

module _ {ℓ κ ω} {W : Type ω} {I : Type ℓ} {E : Type κ} where
  abbrev removed : Cfg W I E → ℕ → Cfg W I E
  removed cfg id = record cfg {
    regions = set cfg.regions id (tombstone id);
    cleanups = retain_others id cfg.cleanups;
  }

  remove_region-removed :
      (cfg : Cfg W I E) (id : ℕ)
      → id < length cfg.regions
      → (remove_region cfg id).0 ≡ removed cfg id
  unfolding remove_region
  remove_region-removed cfg id h =
      let (r, e) = get_elem?_lt cfg.regions id h in rw (e, remove_region) refl

  remove_region-NumberedFrom :
      (cfg : Cfg W I E) (id : ℕ)
      → NumberedFrom 0 cfg.regions
      → NumberedFrom 0 (remove_region cfg id).0.regions
  unfolding remove_region
  remove_region-NumberedFrom cfg id w = elim (Option-cases (get_elem? cfg.regions id)) [
    | inl e ↦ rw (e, remove_region) w
    | inr (r, e) ↦ rw (e, remove_region) (set-NumberedFrom 0 cfg.regions id id (omega arith) w)
  ]

  -- The graph without the regions that are gone, and without their cleanup records.
  pub record Leaves (cfg : Cfg W I E) (gone : ℕ → Bool) (cfg' : Cfg W I E) : Type (ℓ ⊔ κ ⊔ ω) where
    pub regions : (k : ℕ) → get_elem? cfg'.regions k ≡ after (gone k) k (get_elem? cfg.regions k)
    pub cleanups : cfg'.cleanups ≡ without gone cfg.cleanups
    pub rest : cfg' ≡ record cfg { regions = cfg'.regions; cleanups = cfg'.cleanups }

  pub remove_regions-Leaves :
      (ids : List ℕ) (cfg : Cfg W I E)
      → InRange cfg.regions ids
      → Leaves cfg (λ k. elem k ids) (remove_regions cfg ids)
  unfolding remove_regions
  remove_regions-Leaves [] cfg i = record {
    regions = λ k. sym (after-false k (get_elem? cfg.regions k));
    cleanups = sym (without-none cfg.cleanups);
    rest = refl;
  }
  remove_regions-Leaves (id ∷ ids) cfg (h, i) =
      let size = length-set cfg.regions id (tombstone id) in
      let l =
        remove_regions-Leaves ids (removed cfg id)
          (InRange-cong cfg.regions (removed cfg id).regions ids (sym size) i) in
      subst (λ c. Leaves cfg (λ k. elem k (id ∷ ids)) (remove_regions c ids))
        (sym (remove_region-removed cfg id h))
        (record {
          regions = λ k.
              l.regions k
              ∙ ap (after (elem k ids) k) (get_elem?-tombstone cfg.regions id k)
              ∙ after_twice (id == k) (elem k ids) k (get_elem? cfg.regions k);
          cleanups =
              l.cleanups
              ∙ ap (without (λ k. elem k ids)) (retain_others-without id cfg.cleanups)
              ∙ without_twice (λ k. id == k) (λ k. elem k ids) cfg.cleanups;
          rest = l.rest;
        })

  pub remove_regions-NumberedFrom :
      (ids : List ℕ) (cfg : Cfg W I E)
      → NumberedFrom 0 cfg.regions
      → NumberedFrom 0 (remove_regions cfg ids).regions
  unfolding remove_regions
  remove_regions-NumberedFrom [] cfg w = w
  remove_regions-NumberedFrom (id ∷ ids) cfg w =
      remove_regions-NumberedFrom ids (remove_region cfg id).0 (remove_region-NumberedFrom cfg id w)

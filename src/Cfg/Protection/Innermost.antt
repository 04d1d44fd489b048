-- ===== src/Cfg/Protection/Innermost.antt =====
-- The region that protects a block, as `protecting_region` finds it and as `RegionIndex` holds it,
-- crates/cfglib/src/cfg/regions.rs and crates/cfglib/src/region.rs.
use mathlib.Core.List.{reverse, reverse-append}
use cfglib.Prelude.{
  ℕ, zero, suc, ◌<◌, ◌≡◌, ◌⊎◌, refl, ◌∙◌, inl, inr, List, [], ◌∷◌, ◌++◌, true, false, length,
  get_elem?, set, replicate, elem, ◌==◌, if◌then◌else◌, Option, none, some, arith, Bool-cases, ==→≡,
  ==→≢, length-set, length-replicate, get_elem?-set_self, get_elem?-set_ne, get_elem?-replicate,
}
use cfglib.Store.Graph.{node_bound}
use cfglib.Cfg.{Cfg}
use cfglib.Cfg.Regions.{Region}
use cfglib.Cfg.Protection.{
  RegionIndex, find_protecting, cover, cover_all, protecting, protecting_region, compute,
}

length-cover :
    (id : ℕ) (blocks : List ℕ) (slots : List (Option ℕ))
    → length (cover id blocks slots) ≡ length slots
unfolding cover
length-cover id [] slots = refl
length-cover id (b ∷ blocks) slots =
    length-cover id blocks (set slots b (some id)) ∙ length-set slots b (some id)

get_elem?-cover :
    (id : ℕ) (blocks : List ℕ) (slots : List (Option ℕ)) (block : ℕ)
    → block < length slots
    → get_elem? (cover id blocks slots) block
      ≡ (if elem block blocks then some (some id) else get_elem? slots block)
unfolding cover
get_elem?-cover id [] slots block h = refl
get_elem?-cover id (b ∷ blocks) slots block h =
    let rest =
      get_elem?-cover id blocks (set slots b (some id)) block
        (omega (arith, h, length-set slots b (some id))) in
    elim (Bool-cases (b == block)) [
      | inr other ↦
          rw other (rest ∙ rw (get_elem?-set_ne slots b block (some id) (==→≢ b block other)) refl)
      | inl same ↦ rw same (elim (Bool-cases (elem block blocks)) [
        | inl later ↦ rest ∙ rw later refl
        | inr last ↦
            rest ∙ rw (last, ==→≡ b block same) (get_elem?-set_self slots block (some id) h)
      ])
    ]

find_protecting-append :
    (block : ℕ) (regions : List Region) (r : Region)
    → find_protecting block (regions ++ r ∷ []) ≡ elim (find_protecting block regions) [
      | none ↦ (if elem block r.protected_blocks then some r else none)
      | some s ↦ some s
    ]
unfolding find_protecting
find_protecting-append block [] r = refl
find_protecting-append block (s ∷ regions) r = elim (Bool-cases (elem block s.protected_blocks)) [
  | inl inside ↦ rw inside refl
  | inr outside ↦ rw outside (find_protecting-append block regions r)
]

module _ (block : ℕ) where
  -- No region protects the block.
  abbrev pub Unprotected : List Region → Type 0
  Unprotected regions =
      (k : ℕ) (r : Region) → get_elem? regions k ≡ some r → elem block r.protected_blocks ≡ false

  -- The region at place `k` is the last one that protects the block.
  pub record IsInnermost (regions : List Region) (k : ℕ) (r : Region) : Type 0 where
    pub at : get_elem? regions k ≡ some r
    pub inside : elem block r.protected_blocks ≡ true
    pub last :
        (j : ℕ) (s : Region)
        → k < j
        → get_elem? regions j ≡ some s
        → elem block s.protected_blocks ≡ false

  -- What `compute` leaves in the slot of the block.
  abbrev Writes : List Region → Option Region → Type 0
  Writes regions none =
      (slots : List (Option ℕ))
      → block < length slots
      → get_elem? (cover_all regions slots) block ≡ get_elem? slots block
  Writes regions (some r) =
      (slots : List (Option ℕ))
      → block < length slots
      → get_elem? (cover_all regions slots) block ≡ some (some r.id)

  -- What the two searches find in regions.
  record Finds (regions : List Region) (found : Option Region) : Type 0 where
    searched : find_protecting block (reverse regions) ≡ found
    written : Writes regions found

  find_first :
      (r : Region) (regions : List Region) {found : Option Region}
      → find_protecting block (reverse regions) ≡ found
      → find_protecting block (reverse (r ∷ regions)) ≡ elim found [
        | none ↦ (if elem block r.protected_blocks then some r else none)
        | some s ↦ some s
      ]
  find_first r regions e =
      rw (reverse-append (r ∷ []) regions)
        (find_protecting-append block (reverse regions) r ∙ rw e refl)

  write_first :
      (r : Region) (regions : List Region) (slots : List (Option ℕ))
      → Writes regions none
      → block < length slots
      → get_elem? (cover_all (r ∷ regions) slots) block
        ≡ (if elem block r.protected_blocks then some (some r.id) else get_elem? slots block)
  unfolding cover_all
  write_first r regions slots writes h =
      writes (cover r.id r.protected_blocks slots)
        (omega (arith, h, length-cover r.id r.protected_blocks slots))
      ∙ get_elem?-cover r.id r.protected_blocks slots block h

  outside_later :
      (r : Region) (regions : List Region) (k : ℕ)
      → ((j : ℕ) (s : Region)
          → k < suc j
          → get_elem? regions j ≡ some s
          → elem block s.protected_blocks ≡ false)
      → (j : ℕ) (s : Region) → k < j
      → get_elem? (r ∷ regions) j ≡ some s
      → elem block s.protected_blocks ≡ false
  outside_later r regions k o zero s h at = absurd (omega (arith, h))
  outside_later r regions k o (suc j) s h at = o j s h at

  later_place :
      (r : Region) (regions : List Region) (k : ℕ) (s : Region)
      → IsInnermost regions k s
      → IsInnermost (r ∷ regions) (suc k) s
  later_place r regions k s i = record {
    at = i.at;
    inside = i.inside;
    last = outside_later r regions (suc k) (λ j t h at. i.last j t (omega (arith, h)) at);
  }

  first_place :
      (r : Region) (regions : List Region)
      → Unprotected regions
      → elem block r.protected_blocks ≡ true
      → IsInnermost (r ∷ regions) 0 r
  first_place r regions outside inside = record {
    at = refl;
    inside = inside;
    last = outside_later r regions 0 (λ j t h at. outside j t at);
  }

  no_place :
      (r : Region) (regions : List Region)
      → Unprotected regions
      → elem block r.protected_blocks ≡ false
      → Unprotected (r ∷ regions)
  no_place r regions outside out zero s at = let same : r ≡ s = cc (at) in rw (← same) out
  no_place r regions outside out (suc k) s at = outside k s at

  protected_cases :
      (regions : List Region)
      → Unprotected regions × Finds regions none
        ⊎ ((k : ℕ) × (r : Region) × IsInnermost regions k r × Finds regions (some r))
  unfolding find_protecting cover_all
  protected_cases [] =
      inl (λ k r at. absurd (cc at), record { searched = refl; written = λ slots h. refl })
  protected_cases (r ∷ regions) = elim (protected_cases regions) [
    | inr (k, s, i, f) ↦ inr (
      suc k,
      s,
      later_place r regions k s i,
      record {
        searched = find_first r regions f.searched;
        written = λ slots h.
            f.written (cover r.id r.protected_blocks slots)
              (omega (arith, h, length-cover r.id r.protected_blocks slots));
      },
    )
    | inl (outside, f) ↦ elim (Bool-cases (elem block r.protected_blocks)) [
      | inl inside ↦ inr (
        0,
        r,
        first_place r regions outside inside,
        record {
          searched = find_first r regions f.searched ∙ rw inside refl;
          written = λ slots h. write_first r regions slots f.written h ∙ rw inside refl;
        },
      )
      | inr out ↦ inl (
        no_place r regions outside out,
        record {
          searched = find_first r regions f.searched ∙ rw out refl;
          written = λ slots h. write_first r regions slots f.written h ∙ rw out refl;
        },
      )
    ]
  ]

protecting-slot :
    (index : RegionIndex) (block : ℕ) {slot : Option ℕ}
    → get_elem? index.innermost block ≡ some slot
    → protecting index block ≡ slot
unfolding protecting
protecting-slot index block at = rw (at, protecting) refl

module _ {ℓ κ ω} {W : Type ω} {I : Type ℓ} {E : Type κ} where
  -- For a block below the block bound, protecting_region and a region index computed from the graph
  -- give the same answer: none if no region protects the block, and otherwise the last region that
  -- does.
  pub compute-protecting_region :
      (cfg : Cfg W I E) (block : ℕ)
      → block < node_bound cfg.graph
      → Unprotected block cfg.regions
          × (protecting_region cfg block ≡ none)
          × (protecting (compute cfg) block ≡ none)
        ⊎ ((k : ℕ) × (r : Region) × IsInnermost block cfg.regions k r
            × (protecting_region cfg block ≡ some r)
            × (protecting (compute cfg) block ≡ some r.id))
  unfolding protecting_region compute
  compute-protecting_region cfg block h =
      let n = node_bound cfg.graph in
      let blank : List (Option ℕ) = replicate n none in
      let room : block < length blank = omega (arith, h, length-replicate {A = Option ℕ} n none) in
      elim (protected_cases block cfg.regions) [
        | inl (outside, f) ↦ inl (
          outside,
          f.searched,
          protecting-slot (compute cfg) block
              (f.written blank room ∙ get_elem?-replicate {A = Option ℕ} n none block h),
        )
        | inr (k, r, i, f) ↦
            inr (k, r, i, f.searched, protecting-slot (compute cfg) block (f.written blank room))
      ]

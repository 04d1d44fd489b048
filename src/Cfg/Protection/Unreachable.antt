-- ===== src/Cfg/Protection/Unreachable.antt =====
-- The regions that `remove_unreachable_regions` of crates/cfglib/src/cfg/regions.rs removes.
use cfglib.Prelude.{
  ℕ, zero, suc, ◌+◌, ◌<◌, ◌≡◌, ◌≢◌, ◌↔◌, refl, sym, ◌∙◌, ap, inl, inr, List, [], ◌∷◌, Bool, true,
  false, length, get_elem?, elem, ◌==◌, if◌then◌else◌, Option, none, some, ok, arith, subst,
  Bool-cases, List-cases, ==→≡, ≡→==, lt→ltb, In, In-later, In-cases,
}
use cfglib.Marks.{flag}
use cfglib.View.{View, outgoing}
use cfglib.Traverse.{reachable}
use cfglib.Traverse.Reach.{Reaches}
use cfglib.Traverse.Search.{all_in_bound}
use cfglib.Traverse.Closure.{reachable_in-Reaches}
use cfglib.Store.Graph.{node_bound}
use cfglib.Store.Invariant.{IsStore}
use cfglib.Store.Ends.{LiveEnds}
use cfglib.Store.Viewed.{to_view, to_view-IsView}
use cfglib.Cfg.{Cfg}
use cfglib.Cfg.Regions.{Region, Handler}
use cfglib.Cfg.Protection.{
  all_unreached, is_doomed, doomed, remove_regions, remove_unreachable_regions,
}
use cfglib.Cfg.Protection.Removal.{
  InRange, NumberedFrom, Leaves, remove_regions-Leaves, remove_regions-NumberedFrom,
}

-- How many of `n` numbers from `s` on pass the test.
abbrev pub total : (ℕ → Bool) → ℕ → ℕ → ℕ
total p s zero = 0
total p s (suc n) = if p s then suc (total p (suc s) n) else total p (suc s) n

all_unreached_iff :
    (visited : List Bool) (hs : List Handler)
    → (all_unreached visited hs ≡ true) ↔ ((h : Handler) → In h hs → flag visited h.entry ≡ false)
unfolding all_unreached
all_unreached_iff visited [] = (λ e h (k, at). absurd (cc at), λ all. refl)
all_unreached_iff visited (h ∷ hs) = elim (Bool-cases (flag visited h.entry)) [
  | inl marked ↦ (λ e. absurd (cc (rw marked at e)), λ all. absurd (cc (marked, all h (0, refl))))
  | inr unmarked ↦
      let rest = all_unreached_iff visited hs in
      (
        λ e g i. elim (In-cases g h hs i) [
          | inl same ↦ rw (← same) unmarked
          | inr later ↦ rest.0 (rw unmarked at e) g later
        ],
        λ all. rw unmarked (rest.1 (λ g i. all g (In-later g h hs i))),
      )
]

-- A region whose handlers, if there are any, cannot be entered.
pub record IsDead (view : View) (entry : ℕ) (r : Region) : Type 0 where
  pub handled : r.handlers ≢ []
  pub unreached :
      (h : Handler) → In h r.handlers → ¬ (Reaches view outgoing none (entry ∷ []) h.entry)

module _ (visited : List Bool) where
  doomed_at : Option Region → Bool
  doomed_at none = false
  doomed_at (some r) = is_doomed visited r

  doomed-skip :
      (r : Region) (regions : List Region) (k : ℕ)
      → r.id ≢ k
      → elem k (doomed visited (r ∷ regions)) ≡ elem k (doomed visited regions)
  unfolding doomed
  doomed-skip r regions k ne = elim (Bool-cases (is_doomed visited r)) [
    | inr alive ↦ rw alive refl
    | inl dead ↦ elim (Bool-cases (r.id == k)) [
      | inl same ↦ absurd (ne (==→≡ r.id k same))
      | inr other ↦ rw (dead, other) refl
    ]
  ]

  elem-doomed_lt :
      (s : ℕ) (regions : List Region) (k : ℕ)
      → NumberedFrom s regions
      → k < s
      → elem k (doomed visited regions) ≡ false
  unfolding doomed
  elem-doomed_lt s [] k w h = refl
  elem-doomed_lt s (r ∷ regions) k (own, w) h =
      doomed-skip r regions k (λ e. absurd (omega (arith, own, e, h)))
      ∙ elem-doomed_lt (suc s) regions k w (omega (arith, h))

  elem-doomed :
      (s : ℕ) (regions : List Region) (j : ℕ)
      → NumberedFrom s regions
      → elem (s + j) (doomed visited regions) ≡ doomed_at (get_elem? regions j)
  unfolding doomed doomed_at
  elem-doomed s [] j w = refl
  elem-doomed s (r ∷ regions) zero (own, w) = elim (Bool-cases (is_doomed visited r)) [
    | inl dead ↦ rw (dead, ≡→== r.id (s + 0) (omega (arith, own))) refl
    | inr alive ↦ rw alive (elem-doomed_lt (suc s) regions (s + 0) w (omega arith))
  ]
  elem-doomed s (r ∷ regions) (suc j) (own, w) =
      doomed-skip r regions (s + suc j) (λ e. absurd (omega (arith, own, e)))
      ∙ ap (λ k. elem k (doomed visited regions)) (omega arith)
      ∙ elem-doomed (suc s) regions j w

  doomed_place :
      (regions : List Region) (k : ℕ)
      → NumberedFrom 0 regions
      → elem k (doomed visited regions) ≡ doomed_at (get_elem? regions k)
  doomed_place regions k w =
      ap (λ j. elem j (doomed visited regions)) (omega arith) ∙ elem-doomed 0 regions k w

  length-doomed :
      (p : ℕ → Bool) (s : ℕ) (regions : List Region)
      → ((j : ℕ) → p (s + j) ≡ doomed_at (get_elem? regions j))
      → length (doomed visited regions) ≡ total p s (length regions)
  unfolding doomed doomed_at
  length-doomed p s [] e = refl
  length-doomed p s (r ∷ regions) e =
      let rest = length-doomed p (suc s) regions (λ j. ap p (omega arith) ∙ e (suc j)) in
      let first : p s ≡ is_doomed visited r = ap p (omega arith) ∙ e 0 in
      elim (Bool-cases (is_doomed visited r)) [
        | inl dead ↦ rw (first, dead) (ap suc rest)
        | inr alive ↦ rw (first, alive) rest
      ]

  doomed-InRange :
      (s : ℕ) (all regions : List Region)
      → NumberedFrom s regions
      → s + length regions ≡ length all
      → InRange all (doomed visited regions)
  unfolding doomed
  doomed-InRange s all [] w e = tt
  doomed-InRange s all (r ∷ regions) (own, w) e =
      let rest = doomed-InRange (suc s) all regions w (omega (arith, e)) in
      elim (Bool-cases (is_doomed visited r)) [
        | inl dead ↦ rw dead (omega (arith, own, e), rest)
        | inr alive ↦ rw alive rest
      ]

  module _ (view : View) (entry : ℕ)
      (marks : (f : ℕ) → (flag visited f ≡ true) ↔ Reaches view outgoing none (entry ∷ []) f) where
    is_doomed-IsDead : (r : Region) → (is_doomed visited r ≡ true) ↔ IsDead view entry r
    unfolding is_doomed
    is_doomed-IsDead r = elim (List-cases r.handlers) [
      | inl e ↦ (λ d. absurd (cc (rw (e, is_doomed) at d)), λ d. absurd (d.handled e))
      | inr (h, hs, e) ↦
          let all = all_unreached_iff visited (h ∷ hs) in
          (
            λ d. record {
              handled = λ n. absurd (cc (e, n));
              unreached = λ g i reached.
                  absurd
                    (cc (all.0 (rw (e, is_doomed) at d) g (rw e at i), (marks g.entry).1 reached));
            },
            λ d.
                rw (e, is_doomed)
                  (all.1 (λ g i. elim (Bool-cases (flag visited g.entry)) [
                    | inr unmarked ↦ unmarked
                    | inl marked ↦ absurd (d.unreached g (rw e i) ((marks g.entry).0 marked))
                  ])),
          )
    ]

module _ {ℓ κ ω} {W : Type ω} {I : Type ℓ} {E : Type κ} where
  -- The graph without the regions that cannot be entered, of which there are `n`.
  pub record Removes (cfg cfg' : Cfg W I E) (n : ℕ) : Type (ℓ ⊔ κ ⊔ ω) where
    pub gone : ℕ → Bool
    pub dead :
        (k : ℕ) (r : Region)
        → get_elem? cfg.regions k ≡ some r
        → (gone k ≡ true) ↔ IsDead (to_view cfg.graph) cfg.entry r
    pub leaves : Leaves cfg gone cfg'
    pub counted : n ≡ total gone 0 (length cfg.regions)
    pub numbered : NumberedFrom 0 cfg'.regions

  -- On a well-formed graph with the ends of live edges live, with its entry below the block bound,
  -- and whose regions have their places as identities, remove_unreachable_regions returns. The
  -- regions that have handlers, none of which the entry reaches, are tombstones then, without
  -- cleanup records, and are reported by their number; all other regions and cleanup records, and
  -- the rest of the graph, are as before, and the identities of the regions are still their places.
  pub remove_unreachable_regions-Removes :
      (cfg : Cfg W I E)
      → IsStore cfg.graph
      → LiveEnds cfg.graph
      → cfg.entry < node_bound cfg.graph
      → NumberedFrom 0 cfg.regions
      → (cfg' : Cfg W I E) × (n : ℕ) × (remove_unreachable_regions cfg ≡ ok (cfg', n))
        × Removes cfg cfg' n
  unfolding remove_unreachable_regions reachable to_view doomed_at
  remove_unreachable_regions-Removes cfg w ends entered numbered =
      let view = to_view cfg.graph in
      let is_view = (to_view-IsView cfg.graph w ends).0 in
      let bound : all_in_bound view (cfg.entry ∷ []) ≡ true =
        rw (lt→ltb cfg.entry (node_bound cfg.graph) entered) refl in
      elim (reachable_in-Reaches view is_view outgoing none tt (cfg.entry ∷ [])) [
        | inr (outside, run) ↦ absurd (cc (outside, bound))
        | inl (inside, (visited, run, size, marks)) ↦
            let ids = doomed visited cfg.regions in
            (
              remove_regions cfg ids,
              length ids,
              rw run refl,
              record {
                gone = λ k. elem k ids;
                dead = λ k r at.
                    subst (λ b. (b ≡ true) ↔ IsDead view cfg.entry r)
                      (sym
                        (doomed_place visited cfg.regions k numbered ∙ ap (doomed_at visited) at))
                      (is_doomed-IsDead visited view cfg.entry marks r);
                leaves =
                    remove_regions-Leaves ids cfg
                      (doomed-InRange visited 0 cfg.regions cfg.regions numbered (omega arith));
                counted =
                    length-doomed visited (λ k. elem k ids) 0 cfg.regions
                      (λ j. elem-doomed visited 0 cfg.regions j numbered);
                numbered = remove_regions-NumberedFrom ids cfg numbered;
              },
            )
      ]

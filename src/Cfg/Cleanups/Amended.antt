-- ===== src/Cfg/Cleanups/Amended.antt =====
-- The cleanup records after the write of one, which is created if need be: the records behind
-- `cleanup_entry` of crates/cfglib/src/cfg/cleanup.rs.
use cfglib.Prelude.{
  &&-both, ℕ, suc, ◌≡◌, ◌≢◌, refl, sym, ◌∙◌, ap, inl, inr, List, [], ◌∷◌, true, false, get_elem?,
  set, ◌==◌, if◌then◌else◌, Option, none, some, Result, ok, ◌>>=◌, read, Bool-cases, Option-cases,
  ==→≡, ≡→==,
}
use cfglib.Cfg.Regions.{HandlerRef, Cleanup}
use cfglib.Cfg.Cleanups.{same_handler, find_cleanup, cleanup_position, blank, place_for}
use cfglib.Cfg.Cleanups.Routes.{Once}

same_handler_refl : (h : HandlerRef) → same_handler h h ≡ true
unfolding same_handler
same_handler_refl h = rw (≡→== h.region h.region refl, ≡→== h.handler h.handler refl) refl

same_handler→≡ : (a b : HandlerRef) → same_handler a b ≡ true → a ≡ b
unfolding same_handler
same_handler→≡ a b e =
    let (r, h) = &&-both (a.region == b.region) (a.handler == b.handler) e in
    let shift : HandlerRef = record { region = b.region; handler = a.handler } in
    let first : a ≡ shift =
      ap (λ x. record { region = x; handler = a.handler }) (==→≡ a.region b.region r) in
    let second : shift ≡ b =
      ap (λ y. record { region = b.region; handler = y }) (==→≡ a.handler b.handler h) in
    first ∙ second

-- No handler has two records, and no record a route twice.
abbrev pub IsRecorded : List Cleanup → Type 0
IsRecorded [] = Unit
IsRecorded (r ∷ rs) = (find_cleanup r.handler rs ≡ none) × Once r.continuations × IsRecorded rs

-- The record of a handler, a blank one if there is none.
abbrev pub record_of : HandlerRef → Option Cleanup → Cleanup
record_of h none = blank h
record_of h (some r) = r

module _ (h : HandlerRef) (write : Cleanup → Cleanup) where
  -- The records after the write of one of them.
  abbrev pub amended : List Cleanup → List Cleanup
  amended [] = write (blank h) ∷ []
  amended (r ∷ rs) = if same_handler r.handler h then write r ∷ rs else r ∷ amended rs

  abbrev pub lend : List Cleanup × ℕ → Result (List Cleanup)
  lend p = read p.0 p.1 >>= λ entry. ok (set p.0 p.1 (write entry))

  place_for-later :
      (r : Cleanup) (rs : List Cleanup)
      → same_handler r.handler h ≡ false
      → place_for h (r ∷ rs) ≡ (r ∷ (place_for h rs).0, suc (place_for h rs).1)
  unfolding place_for cleanup_position
  place_for-later r rs other = elim (Option-cases (cleanup_position h rs)) [
    | inl e ↦ rw (other, e, place_for, cleanup_position) refl
    | inr (at, e) ↦ rw (other, e, place_for, cleanup_position) refl
  ]

  lend-later :
      (r : Cleanup) (rs : List Cleanup) (at : ℕ) {ss : List Cleanup}
      → lend (rs, at) ≡ ok ss
      → lend (r ∷ rs, suc at) ≡ ok (r ∷ ss)
  lend-later r rs at e = elim (Option-cases (get_elem? rs at)) [
    | inl out ↦ absurd (cc (rw out at e))
    | inr (entry, found) ↦ rw found (ap (λ x. x >>= λ ts. ok (r ∷ ts)) (rw found at e))
  ]

  pub lend-place_for : (rs : List Cleanup) → lend (place_for h rs) ≡ ok (amended rs)
  unfolding place_for cleanup_position
  lend-place_for [] = refl
  lend-place_for (r ∷ rs) = elim (Bool-cases (same_handler r.handler h)) [
    | inl same ↦ rw (same, place_for, cleanup_position) refl
    | inr other ↦
        let p = place_for h rs in
        ap lend (place_for-later r rs other)
        ∙ lend-later r p.0 p.1 (lend-place_for rs)
        ∙ rw other refl
  ]

  module _ (keeps : (r : Cleanup) → (write r).handler ≡ r.handler) where
    pub find_cleanup-amended :
        (rs : List Cleanup)
        → find_cleanup h (amended rs) ≡ some (write (record_of h (find_cleanup h rs)))
    unfolding find_cleanup
    find_cleanup-amended [] = rw (keeps (blank h), same_handler_refl h) refl
    find_cleanup-amended (r ∷ rs) = elim (Bool-cases (same_handler r.handler h)) [
      | inl same ↦ rw (same, keeps r, same) refl
      | inr other ↦ rw (other, other) (find_cleanup-amended rs)
    ]

    pub find_cleanup-other :
        (other : HandlerRef) (rs : List Cleanup)
        → other ≢ h
        → find_cleanup other (amended rs) ≡ find_cleanup other rs
    unfolding find_cleanup
    find_cleanup-other other [] ne = elim (Bool-cases (same_handler h other)) [
      | inl same ↦ absurd (ne (sym (same_handler→≡ h other same)))
      | inr apart ↦ rw (keeps (blank h), apart) refl
    ]
    find_cleanup-other other (r ∷ rs) ne = elim (Bool-cases (same_handler r.handler h)) [
      | inr apart ↦ elim (Bool-cases (same_handler r.handler other)) [
        | inl own ↦ rw (apart, own) refl
        | inr strange ↦ rw (apart, strange) (find_cleanup-other other rs ne)
      ]
      | inl same ↦ elim (Bool-cases (same_handler r.handler other)) [
        | inl own ↦
            absurd (ne (sym (same_handler→≡ r.handler other own) ∙ same_handler→≡ r.handler h same))
        | inr strange ↦ rw (same, keeps r, strange) refl
      ]
    ]

    pub amended-IsRecorded :
        (rs : List Cleanup)
        → ((r : Cleanup) → Once r.continuations → Once (write r).continuations)
        → IsRecorded rs
        → IsRecorded (amended rs)
    unfolding find_cleanup
    amended-IsRecorded [] once w = (refl, once (blank h) tt, tt)
    amended-IsRecorded (r ∷ rs) once (apart, routes, w) =
        elim (Bool-cases (same_handler r.handler h)) [
          | inl same ↦ rw same (rw (keeps r) apart, once r routes, w)
          | inr other ↦ rw other (
            find_cleanup-other r.handler rs
                  (λ e. absurd (cc (other, ap (λ x. same_handler x h) e, same_handler_refl h)))
                ∙ apart,
            routes,
            amended-IsRecorded rs once w,
          )
        ]

    pub amended_twice :
        (rs : List Cleanup)
        → ((r : Cleanup) → write (write r) ≡ write r)
        → amended (amended rs) ≡ amended rs
    amended_twice [] again =
        let own = ap (λ x. same_handler x h) (keeps (blank h)) ∙ same_handler_refl h in
        rw own (ap (λ r. r ∷ []) (again (blank h)))
    amended_twice (r ∷ rs) again = elim (Bool-cases (same_handler r.handler h)) [
      | inl same ↦
          let own = ap (λ x. same_handler x h) (keeps r) ∙ same in
          rw (same, own) (ap (λ x. x ∷ rs) (again r))
      | inr other ↦ rw (other, other) (ap (λ ss. r ∷ ss) (amended_twice rs again))
    ]

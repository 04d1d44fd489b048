-- ===== src/Cfg/Cleanups/Routes.antt =====
-- The routes of a cleanup record, a list of continuations, in crates/cfglib/src/cfg/cleanup.rs.
use cfglib.Prelude.{
  &&-both, ◌≡◌, refl, sym, ◌∙◌, ap, inl, inr, List, [], ◌∷◌, ◌++◌, true, false, ◌||◌, get_elem?,
  ◌==◌, some, Bool-cases, same_test, ==→≡, ≡→==,
}
use cfglib.Cfg.Regions.{CompletionReason, Continuation, Cleanup}
use cfglib.Cfg.Cleanups.{reason_number, same_route, contains_route, record_route}

same_route_refl : (c : Continuation) → same_route c c ≡ true
unfolding same_route
same_route_refl c =
    rw (≡→== (reason_number c.reason) (reason_number c.reason) refl, ≡→== c.resume c.resume refl)
      refl

abbrev reasons : List CompletionReason
reasons =
    CompletionReason.normal ∷ CompletionReason.transfer ∷ CompletionReason.return
    ∷ CompletionReason.unwind ∷ []

get_elem?-reason_number : (r : CompletionReason) → get_elem? reasons (reason_number r) ≡ some r
unfolding reason_number
get_elem?-reason_number CompletionReason.normal = refl
get_elem?-reason_number _ = refl

reason_number→≡ : (r s : CompletionReason) → reason_number r ≡ reason_number s → r ≡ s
reason_number→≡ r s e =
    let same = ap (get_elem? reasons) e in
    cc (same, get_elem?-reason_number r, get_elem?-reason_number s)

same_route→≡ : (a b : Continuation) → same_route a b ≡ true → a ≡ b
unfolding same_route
same_route→≡ a b e =
    let (r, t) =
      &&-both (reason_number a.reason == reason_number b.reason) (a.resume == b.resume) e in
    let shift : Continuation = record { reason = b.reason; resume = a.resume } in
    let same = reason_number→≡ a.reason b.reason (==→≡ _ _ r) in
    let first : a ≡ shift = ap (λ x. record { reason = x; resume = a.resume }) same in
    let second : shift ≡ b =
      ap (λ y. record { reason = b.reason; resume = y }) (==→≡ a.resume b.resume t) in
    first ∙ second

same_route_comm : (a b : Continuation) → same_route a b ≡ same_route b a
same_route_comm a b =
    same_test (same_route a b) (same_route b a)
      (λ e. ap (λ c. same_route b c) (same_route→≡ a b e) ∙ same_route_refl b)
      (λ e. ap (λ c. same_route a c) (same_route→≡ b a e) ∙ same_route_refl a)

contains_route-append :
    (c : Continuation) (ds : List Continuation) (d : Continuation)
    → contains_route c (ds ++ d ∷ []) ≡ (contains_route c ds || same_route d c)
unfolding contains_route
contains_route-append c [] d = elim (Bool-cases (same_route d c)) [
  | inl same ↦ rw same refl
  | inr other ↦ rw other refl
]
contains_route-append c (e ∷ ds) d = elim (Bool-cases (same_route e c)) [
  | inl same ↦ rw same refl
  | inr other ↦ rw other (contains_route-append c ds d)
]

known_route :
    (c d : Continuation) (ds : List Continuation)
    → contains_route c ds ≡ true
    → contains_route d ds ≡ (contains_route d ds || same_route c d)
known_route c d ds known = elim (Bool-cases (same_route c d)) [
  | inl same ↦
      let e = same_route→≡ c d same in
      let inside : contains_route d ds ≡ true = ap (λ x. contains_route x ds) (sym e) ∙ known in
      rw inside refl
  | inr other ↦ elim (Bool-cases (contains_route d ds)) [
    | inl inside ↦ rw inside refl
    | inr outside ↦ rw (outside, other) refl
  ]
]

-- No route is recorded twice.
abbrev pub Once : List Continuation → Type 0
Once [] = Unit
Once (c ∷ cs) = (contains_route c cs ≡ false) × Once cs

Once-append :
    (cs : List Continuation) (c : Continuation)
    → Once cs
    → contains_route c cs ≡ false
    → Once (cs ++ c ∷ [])
unfolding contains_route
Once-append [] c once new = (refl, tt)
Once-append (d ∷ ds) c (first, once) new = elim (Bool-cases (same_route d c)) [
  | inl same ↦ absurd (cc (rw same at new))
  | inr other ↦ (
    contains_route-append d ds c ∙ rw (first, same_route_comm c d, other) refl,
    Once-append ds c once (rw other at new),
  )
]

module _ (c : Continuation) where
  pub record_route-handler : (r : Cleanup) → (record_route c r).handler ≡ r.handler
  unfolding record_route
  record_route-handler r = elim (Bool-cases (contains_route c r.continuations)) [
    | inl known ↦ rw known refl
    | inr new ↦ rw new refl
  ]

  pub record_route-resume : (r : Cleanup) → (record_route c r).resume_from ≡ r.resume_from
  unfolding record_route
  record_route-resume r = elim (Bool-cases (contains_route c r.continuations)) [
    | inl known ↦ rw known refl
    | inr new ↦ rw new refl
  ]

  pub record_route-Once :
      (r : Cleanup) → Once r.continuations → Once (record_route c r).continuations
  unfolding record_route
  record_route-Once r once = elim (Bool-cases (contains_route c r.continuations)) [
    | inl known ↦ rw known once
    | inr new ↦ rw new (Once-append r.continuations c once new)
  ]

  pub record_route-contains :
      (r : Cleanup) (d : Continuation)
      → contains_route d (record_route c r).continuations
        ≡ (contains_route d r.continuations || same_route c d)
  unfolding record_route
  record_route-contains r d = elim (Bool-cases (contains_route c r.continuations)) [
    | inl known ↦ rw known (known_route c d r.continuations known)
    | inr new ↦ rw new (contains_route-append d r.continuations c)
  ]

  pub record_route_twice : (r : Cleanup) → record_route c (record_route c r) ≡ record_route c r
  unfolding record_route
  record_route_twice r = elim (Bool-cases (contains_route c r.continuations)) [
    | inl known ↦ rw (known, known) refl
    | inr new ↦ rw (new, contains_route-append c r.continuations c, new, same_route_refl c) refl
  ]

-- ===== src/Cfg/Cleanups/Records.antt =====
-- What `add_continuation` of crates/cfglib/src/cfg/cleanup.rs leaves in the cleanup records.
use cfglib.Prelude.{
  ℕ, ◌≡◌, ◌≢◌, ◌⊎◌, refl, ◌∙◌, ap, inl, inr, List, [], true, false, ◌||◌, get_elem?, Option, none,
  some, ok, panic, ◌>>=◌, Bool-cases, Option-cases,
}
use cfglib.Cfg.{Cfg}
use cfglib.Cfg.Regions.{HandlerRef, Continuation, Cleanup}
use cfglib.Cfg.Cleanups.{
  same_route, contains_route, place_for, record_route, cleanup, handler_exists, cleanup_entry,
  add_continuation,
}
use cfglib.Cfg.Cleanups.Routes.{
  record_route-handler, record_route-Once, record_route-contains, record_route_twice,
  record_route-resume,
}
use cfglib.Cfg.Cleanups.Amended.{
  record_of, amended, lend-place_for, find_cleanup-amended, find_cleanup-other, IsRecorded,
  amended-IsRecorded, amended_twice,
}

abbrev pub routes_of : Option Cleanup → List Continuation
routes_of none = []
routes_of (some r) = r.continuations

abbrev pub resume_of : Option Cleanup → Option ℕ
resume_of none = none
resume_of (some r) = r.resume_from

record_of-routes :
    (h : HandlerRef) (d : Continuation) (found : Option Cleanup)
    → contains_route d (record_of h found).continuations ≡ contains_route d (routes_of found)
unfolding contains_route
record_of-routes h d none = refl
record_of-routes h d (some r) = refl

record_of-resume :
    (h : HandlerRef) (found : Option Cleanup) → (record_of h found).resume_from ≡ resume_of found
record_of-resume h none = refl
record_of-resume h (some r) = refl

module _ {ℓ κ ω} {W : Type ω} {I : Type ℓ} {E : Type κ} where
  cleanup_entry-amended :
      (cfg : Cfg W I E) (h : HandlerRef) (write : Cleanup → Cleanup)
      → cleanup_entry cfg h write ≡ ok (record cfg { cleanups = amended h write cfg.cleanups })
  unfolding cleanup_entry
  cleanup_entry-amended cfg h write =
      let p = place_for h cfg.cleanups in
      let lent = lend-place_for h write cfg.cleanups in
      elim (Option-cases (get_elem? p.0 p.1)) [
        | inl out ↦ absurd (cc (rw out at lent))
        | inr (entry, found) ↦
            rw found (
              ap (λ x. x >>= λ cleanups. ok (record cfg { cleanups = cleanups }))
                (rw found at lent))
      ]

  add_continuation-amended :
      (cfg : Cfg W I E) (h : HandlerRef) (c : Continuation)
      → handler_exists cfg h ≡ true
      → add_continuation cfg h c
        ≡ ok (record cfg { cleanups = amended h (record_route c) cfg.cleanups })
  unfolding add_continuation
  add_continuation-amended cfg h c there = rw there (cleanup_entry-amended cfg h (record_route c))

  -- What `add_continuation` leaves.
  pub record Records (cfg : Cfg W I E) (h : HandlerRef) (c : Continuation) (cfg' : Cfg W I E)
      : Type (ℓ ⊔ κ ⊔ ω) where
    pub run : add_continuation cfg h c ≡ ok cfg'
    pub recorded : IsRecorded cfg'.cleanups
    pub entry : Cleanup
    pub found : cleanup cfg' h ≡ some entry
    pub resume : entry.resume_from ≡ resume_of (cleanup cfg h)
    pub routes :
        (d : Continuation)
        → contains_route d entry.continuations
          ≡ (contains_route d (routes_of (cleanup cfg h)) || same_route c d)
    pub others : (other : HandlerRef) → other ≢ h → cleanup cfg' other ≡ cleanup cfg other
    pub graph : cfg' ≡ record cfg { cleanups = cfg'.cleanups }
    pub again : add_continuation cfg' h c ≡ ok cfg'

  abbrev extended : Cfg W I E → HandlerRef → Continuation → Cfg W I E
  extended cfg h c = record cfg { cleanups = amended h (record_route c) cfg.cleanups }

  add_continuation-there :
      (cfg : Cfg W I E) (h : HandlerRef) (c : Continuation)
      → IsRecorded cfg.cleanups
      → handler_exists cfg h ≡ true
      → Records cfg h c (extended cfg h c)
  unfolding cleanup handler_exists
  add_continuation-there cfg h c w there =
      let keeps = record_route-handler c in
      let before = record_of h (cleanup cfg h) in
      record {
        run = add_continuation-amended cfg h c there;
        recorded = amended-IsRecorded h (record_route c) keeps cfg.cleanups (record_route-Once c) w;
        entry = record_route c before;
        found = find_cleanup-amended h (record_route c) keeps cfg.cleanups;
        resume = record_route-resume c before ∙ record_of-resume h (cleanup cfg h);
        routes = λ d.
            record_route-contains c before d
            ∙ ap (λ b. b || same_route c d) (record_of-routes h d (cleanup cfg h));
        others = λ other ne. find_cleanup-other h (record_route c) keeps other cfg.cleanups ne;
        graph = refl;
        again =
            add_continuation-amended (extended cfg h c) h c there
            ∙ ap (λ rs. ok (record cfg { cleanups = rs }))
                (amended_twice h (record_route c) keeps cfg.cleanups (record_route_twice c));
      }

  -- On records of which no two are of one handler, and none holds a route twice, add_continuation,
  -- whose debug assertion counts, panics if the handler does not exist. Otherwise it returns such
  -- records: that of the handler has the routes it had and the new one, and resumes from the same
  -- block; those of other handlers and the rest of the graph are as before. A second call with the
  -- same route changes nothing.
  pub add_continuation-Records :
      (cfg : Cfg W I E) (h : HandlerRef) (c : Continuation)
      → IsRecorded cfg.cleanups
      → (handler_exists cfg h ≡ false) × (add_continuation cfg h c ≡ panic)
        ⊎ (handler_exists cfg h ≡ true) × (cfg' : Cfg W I E) × Records cfg h c cfg'
  unfolding add_continuation
  add_continuation-Records cfg h c w = elim (Bool-cases (handler_exists cfg h)) [
    | inr missing ↦ inl (missing, rw missing refl)
    | inl there ↦ inr (there, extended cfg h c, add_continuation-there cfg h c w there)
  ]

-- ===== src/Cfg/Cleanups/Tests.antt =====
-- Cleanup records at concrete inputs, those of the tests of crates/cfglib/src/region.rs.
use cfglib.Prelude.{ℕ, ◌≡◌, ◌⊎◌, refl, [], ◌∷◌, true, false, none, ok, panic, ◌>>=◌}
use cfglib.Store.Graph.{tagged}
use cfglib.Cfg.{Cfg}
use cfglib.Cfg.Regions.{HandlerBody, HandlerKind, HandlerRef, CompletionReason, Continuation}
use cfglib.Cfg.Cleanups.{
  same_handler, reason_number, same_route, contains_route, find_cleanup, cleanup_position,
  place_for, record_route, cleanup, handler_exists, cleanup_entry, add_continuation, resumes_for,
}
use cfglib.Cfg.Cleanups.Records.{Records, routes_of, add_continuation-Records}

-- A region with one handler, a cleanup at block 2.
abbrev tried : Cfg ℕ ℕ (Unit {0})
tried = record {
  graph = tagged;
  entry = 0;
  regions =
      record {
        id = 0;
        protected_blocks = 0 ∷ [];
        handlers =
            record { entry = 2; body = HandlerBody.known (2 ∷ []); kind = HandlerKind.finally }
            ∷ [];
        parent = none;
      }
      ∷ [];
  cleanups = [];
}

abbrev finalizer : HandlerRef
finalizer = record { region = 0; handler = 0 }

abbrev leaving : CompletionReason → ℕ → Continuation
leaving reason resume = record { reason = reason; resume = resume }

abbrev at_exit : Continuation
at_exit = leaving CompletionReason.return 4

one_route_each :
    (add_continuation tried finalizer (leaving CompletionReason.normal 3) >>= λ cfg.
    add_continuation cfg finalizer at_exit >>= λ cfg.
    add_continuation cfg finalizer at_exit >>= λ cfg. ok (routes_of (cleanup cfg finalizer)))
    ≡ ok (leaving CompletionReason.normal 3 ∷ at_exit ∷ [])
unfolding add_continuation handler_exists cleanup_entry place_for cleanup_position record_route
    cleanup find_cleanup contains_route same_route same_handler reason_number
one_route_each = refl

no_handler : add_continuation tried (record { region = 0; handler = 1 }) at_exit ≡ panic
unfolding add_continuation handler_exists
no_handler = refl

one_exit :
    resumes_for CompletionReason.return (leaving CompletionReason.normal 3 ∷ at_exit ∷ []) ≡ 4 ∷ []
unfolding resumes_for reason_number
one_exit = refl

add_continuation-Records_example :
    (handler_exists tried finalizer ≡ false) × (add_continuation tried finalizer at_exit ≡ panic)
    ⊎ (handler_exists tried finalizer ≡ true)
      × (cfg : Cfg ℕ ℕ (Unit {0})) × Records tried finalizer at_exit cfg
add_continuation-Records_example = add_continuation-Records tried finalizer at_exit tt

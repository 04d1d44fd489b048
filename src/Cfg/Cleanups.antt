-- ===== src/Cfg/Cleanups.antt =====
-- The cleanup records of a control-flow graph, crates/cfglib/src/cfg/cleanup.rs: for a handler, the
-- routes by which control leaves it. A debug assertion is an assertion here.
pub mod Routes
pub mod Amended
pub mod Records
mod Tests
use cfglib.Prelude.{
  ℕ, zero, suc, List, [], ◌∷◌, ◌++◌, Bool, true, false, ◌&&◌, length, get_elem?, set, ltb, ◌==◌,
  if◌then◌else◌, Option, none, some, Result, ok, ◌>>=◌, ◌>>◌, assert, read,
}
use cfglib.Cfg.{Cfg, contains_block}
use cfglib.Cfg.Regions.{HandlerRef, CompletionReason, Continuation, Cleanup}

-- The `==` of two handlers.
unfoldable pub same_handler : HandlerRef → HandlerRef → Bool
same_handler a b = (a.region == b.region) && (a.handler == b.handler)

unfoldable pub reason_number : CompletionReason → ℕ
reason_number CompletionReason.normal = 0
reason_number CompletionReason.transfer = 1
reason_number CompletionReason.return = 2
reason_number CompletionReason.unwind = 3

-- The `==` of two continuations.
unfoldable pub same_route : Continuation → Continuation → Bool
same_route a b = (reason_number a.reason == reason_number b.reason) && (a.resume == b.resume)

-- `continuations.contains(&continuation)`
unfoldable pub contains_route : Continuation → List Continuation → Bool
contains_route c [] = false
contains_route c (d ∷ ds) = if same_route d c then true else contains_route c ds

-- `Cleanup::resumes_for`
unfoldable pub resumes_for : CompletionReason → List Continuation → List ℕ
resumes_for reason [] = []
resumes_for reason (c ∷ cs) =
    if reason_number c.reason == reason_number reason
    then c.resume ∷ resumes_for reason cs
    else resumes_for reason cs

-- `cleanups.iter().find(|cleanup| cleanup.handler == handler)`
unfoldable pub find_cleanup : HandlerRef → List Cleanup → Option Cleanup
find_cleanup h [] = none
find_cleanup h (cleanup ∷ cleanups) =
    if same_handler cleanup.handler h then some cleanup else find_cleanup h cleanups

-- `cleanups.iter().position(|cleanup| cleanup.handler == handler)`
unfoldable pub cleanup_position : HandlerRef → List Cleanup → Option ℕ
cleanup_position h [] = none
cleanup_position h (cleanup ∷ cleanups) = elim (same_handler cleanup.handler h) [
  | true ↦ some 0
  | false ↦ elim (cleanup_position h cleanups) [ none ↦ none | some at ↦ some (suc at) ]
]

-- A record without routes.
abbrev pub blank : HandlerRef → Cleanup
blank h = record { handler = h; resume_from = none; continuations = [] }

-- The records and the place at which the record of a handler stands, which is created if need be.
unfoldable pub place_for : HandlerRef → List Cleanup → List Cleanup × ℕ
place_for h cleanups = elim (cleanup_position h cleanups) [
  | some at ↦ (cleanups, at)
  | none ↦ (cleanups ++ blank h ∷ [], length cleanups)
]

-- `if !cleanup.continuations.contains(&continuation) { cleanup.continuations.push(continuation); }`
unfoldable pub record_route : Continuation → Cleanup → Cleanup
record_route c cleanup =
    if contains_route c cleanup.continuations
    then cleanup
    else record cleanup { continuations = cleanup.continuations ++ c ∷ [] }

module _ {ℓ κ ω} {W : Type ω} {I : Type ℓ} {E : Type κ} where
  unfoldable pub cleanup : Cfg W I E → HandlerRef → Option Cleanup
  cleanup cfg h = find_cleanup h cfg.cleanups

  unfoldable pub handler_exists : Cfg W I E → HandlerRef → Bool
  handler_exists cfg h = elim (get_elem? cfg.regions h.region) [
    | none ↦ false
    | some region ↦ ltb h.handler (length region.handlers)
  ]

  -- `cleanup_entry` lends the record; the borrower writes it by `write`.
  unfoldable pub cleanup_entry : Cfg W I E → HandlerRef → (Cleanup → Cleanup) → Result (Cfg W I E)
  cleanup_entry cfg h write = do
    let (cleanups, at) = place_for h cfg.cleanups
    entry ← read cleanups at
    ok (record cfg { cleanups = set cleanups at (write entry) })

  unfoldable pub add_continuation : Cfg W I E → HandlerRef → Continuation → Result (Cfg W I E)
  add_continuation cfg h continuation = do
    assert (handler_exists cfg h)
    cleanup_entry cfg h (record_route continuation)

  unfoldable pub set_cleanup_resume : Cfg W I E → HandlerRef → ℕ → Result (Cfg W I E)
  set_cleanup_resume cfg h resume_from = do
    assert (handler_exists cfg h)
    assert (contains_block cfg resume_from)
    cleanup_entry cfg h (λ cleanup. record cleanup { resume_from = some resume_from })

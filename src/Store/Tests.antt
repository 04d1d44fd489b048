-- ===== src/Store/Tests.antt =====
-- The theorems on the parts of the store at concrete values.
use cfglib.Prelude.{
  ℕ, zero, suc, ◌+◌, ◌≡◌, refl, [], ◌∷◌, ◌++◌, Option, none, some, ok, arith, ltb, if◌then◌else◌,
  map, ≢→==,
}
use cfglib.Store.LiveSet.{LiveSet, IsPacked}
use cfglib.Store.Chains.{DeltaChains, outgoing, incoming, no_link, append}
use cfglib.Store.Chains.Ring.{owned}
use cfglib.Store.Chains.Thread.{IsRing}
use cfglib.Store.Chains.Refine.{IsChained, append-IsChained}
use cfglib.Store.Renumbering.{Renumbering}
use cfglib.Store.Walk.{AdjacencyCursor, Axis, passes, collect}
use cfglib.Store.Walk.Steps.{IsBefore, select, collect-IsBefore}

-- Slots 0 and 2 of three are live.
abbrev some_live : LiveSet
some_live = record { words = 5 ∷ []; len = 3 }

some_live-IsPacked : IsPacked some_live
some_live-IsPacked = record { packed = refl }

-- The delta edges 0 → 1 and 0 → 2 of a store with four nodes.
abbrev pub fork : DeltaChains
fork = record {
  last =
      (record { out_link = 1; in_link = no_link })
      ∷ (record { out_link = no_link; in_link = 0 })
      ∷ (record { out_link = no_link; in_link = 1 })
      ∷ (record { out_link = no_link; in_link = no_link })
      ∷ [];
  next = (record { out_link = 1; in_link = 0 }) ∷ (record { out_link = 0; in_link = 1 }) ∷ [];
}

fork_out : (v : ℕ) → IsRing fork outgoing (0 ∷ 0 ∷ []) v (owned 0 v (0 ∷ 0 ∷ []))
fork_out zero = (refl, (refl, refl, omega arith, (refl, refl)))
fork_out (suc zero) = refl
fork_out (suc (suc zero)) = refl
fork_out (suc (suc (suc zero))) = refl
fork_out (suc (suc (suc (suc v)))) = rw (≢→== 0 (suc (suc (suc (suc v)))) (λ q. omega arith))

fork_in : (v : ℕ) → IsRing fork incoming (1 ∷ 2 ∷ []) v (owned 0 v (1 ∷ 2 ∷ []))
fork_in zero = refl
fork_in (suc zero) = (refl, (refl, refl))
fork_in (suc (suc zero)) = (refl, (refl, refl))
fork_in (suc (suc (suc zero))) = refl
fork_in (suc (suc (suc (suc v)))) = rw (
  ≢→== 1 (suc (suc (suc (suc v)))) (λ q. omega arith),
  ≢→== 2 (suc (suc (suc (suc v)))) (λ q. omega arith),
)

pub fork-IsChained : IsChained fork 4 (0 ∷ 0 ∷ []) (1 ∷ 2 ∷ [])
fork-IsChained = record {
  slots = omega arith;
  size_out = refl;
  size_in = refl;
  threaded_out = record { rings = fork_out };
  threaded_in = record { rings = fork_in };
}

append-IsChained_example :
    (c : DeltaChains) × (append fork 0 3 4 ≡ ok c) × IsChained c 4 (0 ∷ 0 ∷ 0 ∷ []) (1 ∷ 2 ∷ 3 ∷ [])
append-IsChained_example =
    append-IsChained fork 0 3 4 (0 ∷ 0 ∷ []) (1 ∷ 2 ∷ []) fork-IsChained (omega arith) (omega arith)
      (omega arith)

-- A compressed run of the edges 4 and 5, in front of the chain of node 0.
abbrev fork_axis : Axis
fork_axis = record { offsets = 0 ∷ 2 ∷ []; edges = 4 ∷ 5 ∷ []; chains = fork; chain = outgoing }

abbrev fork_cursor : AdjacencyCursor
fork_cursor = record { base = 0; base_end = 2; delta = 0; delta_last = 1 }

abbrev fork_owner : ℕ → Option ℕ
fork_owner i = if ltb i 2 then some 0 else none

fork-IsBefore :
    IsBefore fork_axis (some some_live) fork_owner 0 0 fork_cursor (4 ∷ 5 ∷ []) (0 ∷ 1 ∷ [])
fork-IsBefore =
    ((refl, (refl, refl)), (refl, refl, omega arith, (refl, refl, omega arith, (refl, refl))))

collect-IsBefore_example :
    collect fork_axis (some some_live) 6 9 fork_cursor
    ≡ ok (select (passes (some some_live)) ((4 ∷ 5 ∷ []) ++ map (λ d. 6 + d) (0 ∷ 1 ∷ [])))
collect-IsBefore_example =
    collect-IsBefore fork_axis (some some_live) fork_owner 0 0 6 9 fork_cursor (4 ∷ 5 ∷ [])
      (0 ∷ 1 ∷ []) fork-IsBefore (omega arith) (omega arith)

abbrev first_pass : Renumbering
first_pass = record { nodes = 0 ∷ no_link ∷ 1 ∷ []; edges = 0 ∷ [] }

abbrev second_pass : Renumbering
second_pass = record { nodes = no_link ∷ 0 ∷ []; edges = 0 ∷ [] }

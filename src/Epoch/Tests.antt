-- ===== src/Epoch/Tests.antt =====
-- The epoch set on concrete requests, and a reset at the end of the epochs.
use cfglib.Prelude.{ℕ, ◌≡◌, refl, List, [], ◌∷◌, false, ok, count, if◌then◌else◌, arith}
use cfglib.Epoch
use cfglib.Epoch.{EpochSet, max_epoch, reset}
use cfglib.Epoch.Served.{Request, answers, left, serve, serve-answers}

wrapped :
    reset (record { stamps = 1 ∷ max_epoch ∷ []; epoch = max_epoch })
    ≡ record { stamps = 0 ∷ 0 ∷ []; epoch = 1 }
unfolding reset
wrapped = refl

abbrev requests : List Request
requests =
    Request.insert 2 ∷ Request.insert 2 ∷ Request.clear ∷ Request.contains 2 ∷ Request.insert 1 ∷ []

serve-answers_example :
    (s : EpochSet) × (serve (Epoch.new 4) requests ≡ ok (s, answers (λ f. false) requests))
    × ((f : ℕ) → count f (Epoch.ones s) ≡ (if left (λ f. false) requests f then 1 else 0))
serve-answers_example = serve-answers 4 requests (omega arith)

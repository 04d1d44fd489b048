-- ===== src/Pipeline/Tests.antt =====
-- The theorems on the pipeline at a concrete schedule.
use cfglib.Prelude.{ℕ, ◌+◌, ◌≡◌, refl, inl, inr, List, [], ◌∷◌, ltb, if◌then◌else◌}
use cfglib.Pipeline.{PassExecution, unchanged, changed, Pass, run_loop, run}
use cfglib.Pipeline.Prefix.{Completes, run-Completes}

-- Adds its state, which it counts up, to the target, and fails on a large target.
abbrev adder : ℕ → Pass ℕ ℕ ℕ ℕ
adder n = record {
  state = n;
  name = λ s. 10 + s;
  apply = λ s t. (s + 1, t + s, (if ltb t 5 then inl changed else inr t));
}

abbrev schedule : List (Pass ℕ ℕ ℕ ℕ)
schedule = adder 2 ∷ adder 3 ∷ adder 1 ∷ adder 7 ∷ []

run_example :
    (run schedule 0).2
    ≡ inr (record {
      pass = 11;
      error = 5;
      completed =
          (record { id = 12; change = changed }) ∷ (record { id = 13; change = changed }) ∷ [];
    })
unfolding run run_loop
run_example = refl

run-Completes_example : Completes schedule 0 [] (run schedule 0)
run-Completes_example = run-Completes schedule 0

abbrev one_change : List (PassExecution ℕ)
one_change = (record { id = 4; change = unchanged }) ∷ (record { id = 5; change = changed }) ∷ []

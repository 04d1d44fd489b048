-- ===== src/Builder/Tests.antt =====
-- The builder on concrete streams, and the names of the edge kinds at a concrete text.
use cfglib.Prelude.{ℕ, ◌+◌, ◌*◌, ◌≡◌, refl, List, [], ◌∷◌, map, length, some, arith}
use cfglib.Builder.Flow.{FlowEffect}
use cfglib.Builder.Outcome.{BuildError}
use cfglib.Builder.Grammar.{check}
use cfglib.Builder.Build.{build}
use cfglib.Builder.Accepts.{kept}
use cfglib.Builder.Streams.{Builds, build-Builds}

-- The stream of the documentation of `build`: a conditional with both arms.
abbrev documented : List FlowEffect
documented =
    FlowEffect.fallthrough ∷ FlowEffect.conditional_open ∷ FlowEffect.fallthrough
    ∷ FlowEffect.conditional_alternate ∷ FlowEffect.fallthrough ∷ FlowEffect.conditional_close
    ∷ FlowEffect.return ∷ []

abbrev itself : FlowEffect → FlowEffect
itself effect = effect

-- A `break` may leave a loop from inside a conditional; a `continue` in a switch alone may not.
misplaced :
    check (FlowEffect.switch_open ∷ FlowEffect.continue ∷ [])
    ≡ some BuildError.continue_outside_loop
misplaced = refl

build-Builds_example :
    Builds {W = ℕ}
      (kept itself documented)
      (2 * length documented + 1)
      (build itself documented)
      (check (map itself documented))
build-Builds_example = build-Builds ℕ itself documented (omega arith) (omega arith)

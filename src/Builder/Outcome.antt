-- ===== src/Builder/Outcome.antt =====
-- `Result<_, BuildError>` of crates/cfglib/src/builder.rs, and the panics of the graph that the builder
-- calls.
use cfglib.Prelude
use cfglib.Prelude.{ℕ, Option, none, some, ◌≡◌, refl}

pub data BuildError : Type 0 where
  unmatched_else unmatched_end_if unmatched_end_switch unmatched_switch_case unmatched_end_loop
        break_outside_scope continue_outside_loop :
      BuildError
  unclosed_scopes : ℕ → BuildError

-- A value, a fault of the stream, a panic of the graph, or no fuel left.
pub data Attempt {ω} (V : Type ω) : Type ω where
  panic out_of_fuel : Attempt V
  err : (fault : BuildError) → Attempt V
  ok : (value : V) → Attempt V

-- `?`
infixl 5 ◌>>=◌
abbrev pub ◌>>=◌ {ω υ} : {V : Type ω} {U : Type υ} → Attempt V → (V → Attempt U) → Attempt U
panic >>= next = panic
out_of_fuel >>= next = out_of_fuel
err fault >>= next = err fault
ok value >>= next = next value

-- A call that returns or panics.
abbrev pub call {ℓ} : {A : Type ℓ} → Prelude.Result A → Attempt A
call (Prelude.ok a) = ok a
call Prelude.panic = panic
call Prelude.out_of_fuel = out_of_fuel

-- `let Some(a) = o else { return Err(e) };`
abbrev pub or_err {ℓ} : {A : Type ℓ} → Option A → BuildError → Attempt A
or_err (some a) e = ok a
or_err none e = err e

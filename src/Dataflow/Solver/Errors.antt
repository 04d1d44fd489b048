-- ===== src/Dataflow/Solver/Errors.antt =====
-- The results of the solvers: the errors of crates/cfglib/src/dataflow/fixpoint.rs, a panic, and, for
-- the loop of the model, no fuel left.
use cfglib.Prelude.{ℕ, ◌⊎◌, inl, inr, Result, ok, panic, out_of_fuel}

pub data SolveError : Type 0 where
  step_limit_exceeded : (limit steps pending_node : ℕ) → SolveError

pub data TrySolveError {ℓ} (E : Type ℓ) : Type ℓ where
  problem : E → TrySolveError E
  solver : SolveError → TrySolveError E

pub data Answer {ℓ κ} (E : Type ℓ) (A : Type κ) : Type (ℓ ⊔ κ) where
  solved : A → Answer E A
  failed : TrySolveError E → Answer E A
  panicked : Answer E A
  exhausted : Answer E A

infixl 5 ◌>>=◌
abbrev pub ◌>>=◌ {ℓ κ μ} :
    {E : Type ℓ} {A : Type κ} {B : Type μ} → Answer E A → (A → Answer E B) → Answer E B
solved a >>= f = f a
failed e >>= f = failed e
panicked >>= f = panicked
exhausted >>= f = exhausted

abbrev pub lift {ℓ κ} : {E : Type ℓ} {A : Type κ} → Result A → Answer E A
lift (ok a) = solved a
lift panic = panicked
lift out_of_fuel = exhausted

-- `.map_err(TrySolveError::Problem)?`
abbrev pub attempt {ℓ κ} : {E : Type ℓ} {A : Type κ} → E ⊎ A → Answer E A
attempt (inl e) = failed (problem e)
attempt (inr a) = solved a

-- ===== src/Dataflow/Solver/Meet.antt =====
-- The meet over the upstream neighbors of a node, in crates/cfglib/src/dataflow/node_fixpoint.rs.
use cfglib.Prelude.{
  elem_later, elem, ℕ, suc, ◌<◌, ◌≡◌, ◌⊎◌, refl, ap, inl, inr, List, [], ◌∷◌, true, get_elem?,
  length, Option, none, some, read, ≡→==, get_elem?_lt,
}
use cfglib.View.{View}
use cfglib.Dataflow.Solver.{
  TryNodeProblem, upstream, meet_one, meet_all, or_boundary, at_entry, met_fact,
}
use cfglib.Dataflow.Solver.Errors.{
  Answer, solved, failed, panicked, exhausted, problem, ◌>>=◌, lift, attempt,
}

-- An error that one of the functions of the consumer returns.
pub data Raises {ℓ κ} {F : Type ℓ} {E : Type κ} (given : E ⊎ F) (meet : ℕ → F → F → E ⊎ F)
    (transfer : ℕ → F → E ⊎ F) (e : E) : Type (ℓ ⊔ κ) where
  boundary_fails : given ≡ inl e → Raises given meet transfer e
  meet_fails : (node : ℕ) (a b : F) → meet node a b ≡ inl e → Raises given meet transfer e
  transfer_fails : (node : ℕ) (a : F) → transfer node a ≡ inl e → Raises given meet transfer e

-- A result that is a value, or an error of the consumer with a reason.
pub data Settles {ℓ κ μ} {E : Type ℓ} {A : Type κ} (why : E → Type μ) (r : Answer E A)
    : Type (ℓ ⊔ κ ⊔ μ) where
  value : (a : A) → r ≡ solved a → Settles why r
  error : (e : E) → why e → r ≡ failed (problem e) → Settles why r

bind-same {ℓ κ μ} :
    {E : Type ℓ} {A : Type κ} {B : Type μ} (m : Answer E A) (f g : A → Answer E B)
    → ((a : A) → f a ≡ g a)
    → (m >>= f) ≡ (m >>= g)
bind-same (solved a) f g h = h a
bind-same (failed e) f g h = refl
bind-same panicked f g h = refl
bind-same exhausted f g h = refl

pub attempt-Settles {ℓ κ μ} :
    {E : Type ℓ} {A : Type κ} (why : E → Type μ) (x : E ⊎ A)
    → ((e : E) → x ≡ inl e → why e)
    → Settles why (attempt x)
attempt-Settles why (inl e) h = error e (h e refl) refl
attempt-Settles why (inr a) h = value a refl

module _ {ℓ κ} {F : Type ℓ} {E : Type κ} (view : View) (p : TryNodeProblem F E) (node : ℕ) where
  abbrev IsRaised : E → Type (ℓ ⊔ κ)
  IsRaised = Raises p.boundary p.meet p.transfer

  -- The meet reads the facts of the neighbors only.
  meet_all-same :
      (out out' : List F) (met : Option F) (froms : List ℕ)
      → ((from : ℕ) → elem from froms ≡ true → get_elem? out from ≡ get_elem? out' from)
      → meet_all view p node out met froms ≡ meet_all view p node out' met froms
  unfolding meet_all
  meet_all-same out out' met [] h = refl
  meet_all-same out out' met (from ∷ froms) h =
      let here = h from (rw (≡→== from from refl) refl) in
      rw here (
        bind-same (lift (read out' from))
          (λ fact. meet_one view p node met fact >>= λ current.
            meet_all view p node out (some current) froms)
          (λ fact. meet_one view p node met fact >>= λ current.
            meet_all view p node out' (some current) froms)
          (λ fact.
            bind-same (meet_one view p node met fact)
              (λ current. meet_all view p node out (some current) froms)
              (λ current. meet_all view p node out' (some current) froms)
              (λ current.
                meet_all-same out out' (some current) froms
                  (λ f e. h f (elem_later f from froms e)))))

  meet_one-Settles : (met : Option F) (fact : F) → Settles IsRaised (meet_one view p node met fact)
  unfolding meet_one
  meet_one-Settles none fact = value fact refl
  meet_one-Settles (some current) fact =
      attempt-Settles IsRaised (p.meet node current fact)
        (λ e fails. meet_fails node current fact fails)

  meet_all-Settles :
      (out : List F) (met : Option F) (froms : List ℕ)
      → ((k from : ℕ) → get_elem? froms k ≡ some from → from < length out)
      → Settles IsRaised (meet_all view p node out met froms)
  unfolding meet_all
  meet_all-Settles out met [] h = value met refl
  meet_all-Settles out met (from ∷ froms) h =
      let (fact, at) = get_elem?_lt out from (h 0 from refl) in
      elim (meet_one-Settles met fact) [
        | value current run ↦
            rw (at, run) (meet_all-Settles out (some current) froms (λ k f e. h (suc k) f e))
        | error e why run ↦ rw (at, run) (error e why refl)
      ]

  module _ (boundary : F) (entry : Option ℕ) where
    pub met_fact-same :
        (out out' : List F)
        → ((from : ℕ)
            → elem from (upstream view p node) ≡ true
            → get_elem? out from ≡ get_elem? out' from)
        → met_fact view p boundary entry node out ≡ met_fact view p boundary entry node out'
    unfolding met_fact
    met_fact-same out out' h =
        ap (λ m. m >>= λ met. solved (or_boundary view p boundary met))
          (meet_all-same out out' (at_entry view p boundary entry node) (upstream view p node) h)

    pub met_fact-Settles :
        (out : List F)
        → ((k from : ℕ) → get_elem? (upstream view p node) k ≡ some from → from < length out)
        → Settles IsRaised (met_fact view p boundary entry node out)
    unfolding met_fact
    met_fact-Settles out h =
        elim (meet_all-Settles out (at_entry view p boundary entry node) (upstream view p node) h) [
          | value met run ↦ value (or_boundary view p boundary met) (rw run)
          | error e why run ↦ error e why (rw run)
        ]

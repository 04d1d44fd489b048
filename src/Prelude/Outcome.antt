-- ===== src/Prelude/Outcome.antt =====
-- The outcome of a call of the source: a value, a panic, or (for a loop of the model) no fuel left.
use Prim.Native.Nat.{ℕ}
use mathlib.Core.Path.{◌≡◌, refl}
use mathlib.Core.Bool.{Bool, true, false}
use mathlib.Core.Option.{Option, none, some}
use mathlib.Core.List.{List}
use cfglib.Prelude.Lists.{get_elem?}

pub data Result {ℓ} (A : Type ℓ) : Type ℓ where
  ok : A → Result A
  panic : Result A
  out_of_fuel : Result A

infixl 5 ◌>>=◌ ◌>>◌
abbrev pub ◌>>=◌ {ℓ κ} : {A : Type ℓ} {B : Type κ} → Result A → (A → Result B) → Result B
ok a >>= f = f a
panic >>= f = panic
out_of_fuel >>= f = out_of_fuel

abbrev pub ◌>>◌ {ℓ} : {B : Type ℓ} → Result (Unit {0}) → Result B → Result B
m >> k = m >>= λ _. k

abbrev pub or_panic {ℓ} : {A : Type ℓ} → Option A → Result A
or_panic (some a) = ok a
or_panic none = panic

-- `assert!(b)`
abbrev pub assert : Bool → Result (Unit {0})
assert true = ok tt
assert false = panic

-- `xs[i]`
abbrev pub read {ℓ} : {A : Type ℓ} → List A → ℕ → Result A
read xs i = or_panic (get_elem? xs i)

-- Inversion of a chain of calls that returned.
pub >>=-eq-ok {ω υ} :
    {V : Type ω} {U : Type υ} (called : Result V) (next : V → Result U) {u : U}
    → (called >>= next) ≡ ok u
    → (v : V) × (called ≡ ok v) × (next v ≡ ok u)
>>=-eq-ok panic next returned = cc
>>=-eq-ok out_of_fuel next returned = cc
>>=-eq-ok (ok v) next returned = (v, refl, returned)

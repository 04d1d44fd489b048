-- ===== src/Registrations.antt =====
-- `SehRegistrationChain` of crates/cfglib/src/exception/seh.rs: the active frame registrations of a
-- thread. `F` and `H` are the consumer's frame and handler identities.
mod Tests
use mathlib.Core.List.{reverse, reverse-append}
use mathlib.Core.Option
use cfglib.Prelude.{ℕ, suc, ◌≡◌, refl, ◌∙◌, ap, List, [], ◌∷◌, ◌++◌, length, Option, none, some}

pub record SehRegistration {ℓ κ} (F : Type ℓ) (H : Type κ) : Type (ℓ ⊔ κ) where
  pub frame : F
  pub handler : H
  pub regions : List ℕ

pub record SehRegistrationChain {ℓ κ} (F : Type ℓ) (H : Type κ) : Type (ℓ ⊔ κ) where
  pub registrations : List (SehRegistration F H)

module _ {ℓ κ} {F : Type ℓ} {H : Type κ} where
  unfoldable pub new : SehRegistrationChain F H
  new = record { registrations = [] }

  unfoldable pub push : SehRegistrationChain F H → SehRegistration F H → SehRegistrationChain F H
  push c r = record { registrations = c.registrations ++ r ∷ [] }

  -- `Vec::pop`: all but the last, and the last.
  abbrev pub pop_last :
      List (SehRegistration F H) → List (SehRegistration F H) × Option (SehRegistration F H)
  pop_last [] = ([], none)
  pop_last (r ∷ []) = ([], some r)
  pop_last (r ∷ s ∷ rs) = (r ∷ (pop_last (s ∷ rs)).0, (pop_last (s ∷ rs)).1)

  -- Returns the chain and the registration that was active last.
  unfoldable pub pop :
      SehRegistrationChain F H → SehRegistrationChain F H × Option (SehRegistration F H)
  pop c = (record { registrations = (pop_last c.registrations).0 }, (pop_last c.registrations).1)

  unfoldable pub dispatch_order : SehRegistrationChain F H → List (SehRegistration F H)
  dispatch_order c = reverse c.registrations

  unfoldable pub len : SehRegistrationChain F H → ℕ
  len c = length c.registrations

  pop_last-append :
      (rs : List (SehRegistration F H)) (r : SehRegistration F H)
      → pop_last (rs ++ r ∷ []) ≡ (rs, some r)
  pop_last-append [] r = refl
  pop_last-append (x ∷ []) r = refl
  pop_last-append (x ∷ y ∷ rs) r = rw (pop_last-append (y ∷ rs) r)

  -- A pushed registration comes first in dispatch order, in front of the others in theirs, and is the
  -- one that `pop` returns, leaving the chain as it was.
  pub pop-push :
      (c : SehRegistrationChain F H) (r : SehRegistration F H)
      → (pop (push c r) ≡ (c, some r)) × (dispatch_order (push c r) ≡ r ∷ dispatch_order c)
  unfolding pop push dispatch_order
  pop-push c r = (rw (pop_last-append c.registrations r), reverse-append c.registrations (r ∷ []))

  pop_last-split :
      (x : SehRegistration F H) (rs : List (SehRegistration F H))
      → (r : SehRegistration F H) × ((pop_last (x ∷ rs)).1 ≡ some r)
        × (x ∷ rs ≡ (pop_last (x ∷ rs)).0 ++ r ∷ [])
  pop_last-split x [] = (x, refl, refl)
  pop_last-split x (y ∷ rs) =
      let (r, last, split) = pop_last-split y rs in (r, last, ap (◌∷◌ x) split)

  split_last :
      (rs : List (SehRegistration F H))
      → reverse rs ≡ elim (pop_last rs).1 [ none ↦ [] | some r ↦ r ∷ reverse (pop_last rs).0 ]
  split_last [] = refl
  split_last (x ∷ rs) =
      let (r, last, split) = pop_last-split x rs in
      rw last (ap reverse split ∙ reverse-append (pop_last (x ∷ rs)).0 (r ∷ []))

  -- `pop` returns the first registration in dispatch order, and leaves the others in theirs; on the
  -- empty chain it returns none.
  dispatch_order-pop :
      (c : SehRegistrationChain F H)
      → dispatch_order c ≡ elim (pop c).1 [ none ↦ [] | some r ↦ r ∷ dispatch_order (pop c).0 ]
  unfolding dispatch_order pop
  dispatch_order-pop c = split_last c.registrations

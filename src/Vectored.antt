-- ===== src/Vectored.antt =====
-- `VectoredExceptionModel` of crates/cfglib/src/exception/veh.rs: the process-wide lists of
-- exception and continue handlers. A registration's identity is a number, the counter a `u64`.
mod Identities
mod Removal
mod Tests
use mathlib.Core.Option
use cfglib.Prelude.{
  ℕ, zero, suc, ◌+◌, ◌-◌, ◌^◌, ◌<◌, ◌≡◌, refl, List, [], ◌∷◌, ◌++◌, Bool, length, ltb, ◌==◌,
  if◌then◌else◌, Option, none, some, Result, ok, panic, ◌>>=◌, ◌>>◌, assert, ◌&&◌, true, false,
  get_elem?,
}

pub data VectoredHandlerKind : Type 0 where
  exception continuation : VectoredHandlerKind

pub data VectoredHandlerOrder : Type 0 where
  first last : VectoredHandlerOrder

pub record VectoredHandler {ℓ} (H : Type ℓ) : Type ℓ where
  pub id : ℕ
  pub kind : VectoredHandlerKind
  pub handler : H

pub record VectoredExceptionModel {ℓ} (H : Type ℓ) : Type ℓ where
  pub next_id : ℕ
  pub exception_handlers : List (VectoredHandler H)
  pub continue_handlers : List (VectoredHandler H)

module _ {ℓ} {H : Type ℓ} where
  unfoldable pub new : VectoredExceptionModel H
  new = record { next_id = 0; exception_handlers = []; continue_handlers = [] }

  -- `handlers.iter().position(|handler| handler.id == id)`
  abbrev pub position : ℕ → List (VectoredHandler H) → Option ℕ
  position id [] = none
  position id (h ∷ hs) =
      let later = Option.map suc (position id hs) in if h.id == id then some 0 else later

  -- `Vec::remove`, which panics outside the list, as `none`.
  abbrev pub remove_index :
      List (VectoredHandler H) → ℕ → Option (VectoredHandler H × List (VectoredHandler H))
  remove_index [] i = none
  remove_index (h ∷ hs) zero = some (h, hs)
  remove_index (h ∷ hs) (suc i) = Option.map (λ (x, rest). (x, h ∷ rest)) (remove_index hs i)

  -- The body of the loop in `remove`: the handler that is found and the other ones.
  unfoldable pub take_from :
      ℕ → List (VectoredHandler H) → Option (VectoredHandler H × List (VectoredHandler H))
  take_from id hs = elim (position id hs) [ none ↦ none | some i ↦ remove_index hs i ]

  abbrev pub insert :
      VectoredHandlerOrder → VectoredHandler H → List (VectoredHandler H) → List (VectoredHandler H)
  insert first h hs = h ∷ hs
  insert last h hs = hs ++ h ∷ []

  abbrev pub register_in :
      VectoredExceptionModel H
      → VectoredHandlerKind
      → VectoredHandlerOrder
      → VectoredHandler H
      → VectoredExceptionModel H
  register_in m exception order h = record m {
    next_id = m.next_id + 1;
    exception_handlers = insert order h m.exception_handlers;
  }
  register_in m continuation order h = record m {
    next_id = m.next_id + 1;
    continue_handlers = insert order h m.continue_handlers;
  }

  -- Returns the model and the identity of the registration.
  unfoldable pub register :
      VectoredExceptionModel H
      → VectoredHandlerKind
      → VectoredHandlerOrder
      → H
      → Result (VectoredExceptionModel H × ℕ)
  register m kind order handler = do
    assert (ltb (m.next_id + 1) (2 ^ 64))
    ok (
      register_in m kind order (record { id = m.next_id; kind = kind; handler = handler }),
      m.next_id,
    )

  -- Returns the model and the registration that was removed.
  unfoldable pub remove :
      VectoredExceptionModel H → ℕ → VectoredExceptionModel H × Option (VectoredHandler H)
  remove m id = elim (take_from id m.exception_handlers) [
    | some (h, hs) ↦ (record m { exception_handlers = hs }, some h)
    | none ↦ elim (take_from id m.continue_handlers) [
      | some (h, hs) ↦ (record m { continue_handlers = hs }, some h)
      | none ↦ (m, none)
    ]
  ]

  abbrev pub handlers : VectoredExceptionModel H → VectoredHandlerKind → List (VectoredHandler H)
  handlers m exception = m.exception_handlers
  handlers m continuation = m.continue_handlers

  unfoldable pub len : VectoredExceptionModel H → ℕ
  len m = length m.exception_handlers + length m.continue_handlers

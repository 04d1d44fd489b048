-- ===== src/Vectored/Identities.antt =====
-- The identities of crates/cfglib/src/exception/veh.rs are given out once, so that a registration
-- is found and removed by its own.
use mathlib.Core.Option
use cfglib.Prelude.{
  ℕ, suc, ◌+◌, ◌^◌, ◌<◌, ◌≤◌, ◌≡◌, ◌≢◌, refl, sym, ◌∙◌, List, [], ◌∷◌, ◌++◌, ◌==◌, if◌then◌else◌,
  none, some, ok, arith, ≡→==, ≢→==, lt→ltb, length-append,
}
use cfglib.Vectored.{
  VectoredHandlerKind, exception, continuation, VectoredHandlerOrder, first, last, VectoredHandler,
  VectoredExceptionModel, new, position, remove_index, take_from, insert, register_in, register,
  remove, len,
}

module _ {ℓ} {H : Type ℓ} where
  -- No registration of the list has the identity.
  abbrev pub Absent : ℕ → List (VectoredHandler H) → Type 0
  Absent id [] = Unit
  Absent id (h ∷ hs) = (h.id ≢ id) × Absent id hs

  abbrev pub AllBelow : ℕ → List (VectoredHandler H) → Type 0
  AllBelow n [] = Unit
  AllBelow n (h ∷ hs) = (h.id < n) × AllBelow n hs

  -- No identity is in the list twice.
  abbrev pub Distinct : List (VectoredHandler H) → Type 0
  Distinct [] = Unit
  Distinct (h ∷ hs) = Absent h.id hs × Distinct hs

  abbrev pub Apart : List (VectoredHandler H) → List (VectoredHandler H) → Type 0
  Apart [] ys = Unit
  Apart (h ∷ hs) ys = Absent h.id ys × Apart hs ys

  -- The lists of a model: every identity was given out, and none is there twice.
  pub record IsRegistered (m : VectoredExceptionModel H) : Type 0 where
    pub below_exception : AllBelow m.next_id m.exception_handlers
    pub below_continue : AllBelow m.next_id m.continue_handlers
    pub distinct_exception : Distinct m.exception_handlers
    pub distinct_continue : Distinct m.continue_handlers
    pub apart : Apart m.exception_handlers m.continue_handlers

  pub new-IsRegistered : IsRegistered new
  unfolding new
  new-IsRegistered = record {
    below_exception = tt;
    below_continue = tt;
    distinct_exception = tt;
    distinct_continue = tt;
    apart = tt;
  }

  pub take_from-here :
      (id : ℕ) (h : VectoredHandler H) (hs : List (VectoredHandler H))
      → h.id ≡ id
      → take_from id (h ∷ hs) ≡ some (h, hs)
  unfolding take_from
  take_from-here id h hs e = rw (take_from, ≡→== h.id id e)

  pub take_from-later :
      (id : ℕ) (h : VectoredHandler H) (hs : List (VectoredHandler H))
      → h.id ≢ id
      → take_from id (h ∷ hs) ≡ Option.map (λ (x, rest). (x, h ∷ rest)) (take_from id hs)
  unfolding take_from
  take_from-later id h hs e =
      elim (position id hs)
        as (λ p.
          elim (if h.id == id then some 0 else Option.map suc p) [
            | none ↦ none
            | some i ↦ remove_index (h ∷ hs) i
          ]
          ≡ Option.map (λ (x, rest). (x, h ∷ rest))
              (elim p [ none ↦ none | some i ↦ remove_index hs i ])) [
                | none ↦ rw (≢→== h.id id e)
                | some i ↦ rw (≢→== h.id id e)
              ]

  pub take_from-Absent :
      (id : ℕ) (hs : List (VectoredHandler H)) → Absent id hs → take_from id hs ≡ none
  unfolding take_from
  take_from-Absent id [] a = refl
  take_from-Absent id (h ∷ hs) a = take_from-later id h hs a.0 ∙ rw (take_from-Absent id hs a.1)

  take_from-append :
      (h : VectoredHandler H) (hs : List (VectoredHandler H))
      → Absent h.id hs
      → take_from h.id (hs ++ h ∷ []) ≡ some (h, hs)
  take_from-append h [] a = take_from-here h.id h [] refl
  take_from-append h (x ∷ hs) a =
      take_from-later h.id x (hs ++ h ∷ []) a.0 ∙ rw (take_from-append h hs a.1)

  take_from-insert :
      (order : VectoredHandlerOrder) (h : VectoredHandler H) (hs : List (VectoredHandler H))
      → Absent h.id hs
      → take_from h.id (insert order h hs) ≡ some (h, hs)
  take_from-insert first h hs a = take_from-here h.id h hs refl
  take_from-insert last h hs a = take_from-append h hs a

  Absent-of_AllBelow :
      (n id : ℕ) (hs : List (VectoredHandler H)) → n ≤ id → AllBelow n hs → Absent id hs
  Absent-of_AllBelow n id [] le b = tt
  Absent-of_AllBelow n id (h ∷ hs) le b =
      ((λ q. absurd (omega (arith, b.0))), Absent-of_AllBelow n id hs le b.1)

  AllBelow-suc : (n : ℕ) (hs : List (VectoredHandler H)) → AllBelow n hs → AllBelow (n + 1) hs
  AllBelow-suc n [] b = tt
  AllBelow-suc n (h ∷ hs) b = (omega (arith, b.0), AllBelow-suc n hs b.1)

  AllBelow-insert :
      (n : ℕ) (order : VectoredHandlerOrder) (h : VectoredHandler H) (hs : List (VectoredHandler H))
      → h.id < n
      → AllBelow n hs
      → AllBelow n (insert order h hs)
  AllBelow-insert n first h hs lt b = (lt, b)
  AllBelow-insert n last h [] lt b = (lt, tt)
  AllBelow-insert n last h (x ∷ hs) lt b = (b.0, AllBelow-insert n last h hs lt b.1)

  Absent-insert :
      (id : ℕ) (order : VectoredHandlerOrder) (h : VectoredHandler H)
      (hs : List (VectoredHandler H))
      → h.id ≢ id
      → Absent id hs
      → Absent id (insert order h hs)
  Absent-insert id first h hs ne b = (ne, b)
  Absent-insert id last h [] ne b = (ne, tt)
  Absent-insert id last h (x ∷ hs) ne b = (b.0, Absent-insert id last h hs ne b.1)

  Distinct-insert :
      (order : VectoredHandlerOrder) (h : VectoredHandler H) (hs : List (VectoredHandler H))
      → Absent h.id hs
      → Distinct hs
      → Distinct (insert order h hs)
  Distinct-insert first h hs a d = (a, d)
  Distinct-insert last h [] a d = (tt, tt)
  Distinct-insert last h (x ∷ hs) a d =
      (Absent-insert x.id last h hs (λ q. a.0 (sym q)) d.0, Distinct-insert last h hs a.1 d.1)

  Apart-insert_left :
      (order : VectoredHandlerOrder) (h : VectoredHandler H) (hs ys : List (VectoredHandler H))
      → Absent h.id ys
      → Apart hs ys
      → Apart (insert order h hs) ys
  Apart-insert_left first h hs ys a d = (a, d)
  Apart-insert_left last h [] ys a d = (a, tt)
  Apart-insert_left last h (x ∷ hs) ys a d = (d.0, Apart-insert_left last h hs ys a d.1)

  Apart-insert_right :
      (order : VectoredHandlerOrder) (h : VectoredHandler H) (hs ys : List (VectoredHandler H))
      → Absent h.id hs
      → Apart hs ys
      → Apart hs (insert order h ys)
  Apart-insert_right order h [] ys a d = tt
  Apart-insert_right order h (x ∷ hs) ys a d = (
    Absent-insert x.id order h ys (λ q. a.0 (sym q)) d.0,
    Apart-insert_right order h hs ys a.1 d.1,
  )

  fresh :
      (m : VectoredExceptionModel H) (h : VectoredHandler H)
      → h.id ≡ m.next_id
      → (hs : List (VectoredHandler H)) → AllBelow m.next_id hs
      → Absent h.id hs
  fresh m h e hs b = Absent-of_AllBelow m.next_id h.id hs (omega arith) b

  register_in-IsRegistered :
      (m : VectoredExceptionModel H) (kind : VectoredHandlerKind) (order : VectoredHandlerOrder)
      (h : VectoredHandler H)
      → h.id ≡ m.next_id
      → IsRegistered m
      → IsRegistered (register_in m kind order h)
  register_in-IsRegistered m exception order h e w = record {
    below_exception =
        AllBelow-insert (m.next_id + 1) order h m.exception_handlers (omega arith)
          (AllBelow-suc m.next_id m.exception_handlers w.below_exception);
    below_continue = AllBelow-suc m.next_id m.continue_handlers w.below_continue;
    distinct_exception =
        Distinct-insert order h m.exception_handlers
          (fresh m h e m.exception_handlers w.below_exception) w.distinct_exception;
    distinct_continue = w.distinct_continue;
    apart =
        Apart-insert_left order h m.exception_handlers m.continue_handlers
          (fresh m h e m.continue_handlers w.below_continue) w.apart;
  }
  register_in-IsRegistered m continuation order h e w = record {
    below_exception = AllBelow-suc m.next_id m.exception_handlers w.below_exception;
    below_continue =
        AllBelow-insert (m.next_id + 1) order h m.continue_handlers (omega arith)
          (AllBelow-suc m.next_id m.continue_handlers w.below_continue);
    distinct_exception = w.distinct_exception;
    distinct_continue =
        Distinct-insert order h m.continue_handlers
          (fresh m h e m.continue_handlers w.below_continue) w.distinct_continue;
    apart =
        Apart-insert_right order h m.exception_handlers m.continue_handlers
          (fresh m h e m.exception_handlers w.below_exception) w.apart;
  }

  register_in-remove :
      (m : VectoredExceptionModel H) (kind : VectoredHandlerKind) (order : VectoredHandlerOrder)
      (h : VectoredHandler H)
      → h.id ≡ m.next_id
      → IsRegistered m
      → remove (register_in m kind order h) h.id ≡ (record m { next_id = m.next_id + 1 }, some h)
  unfolding remove
  register_in-remove m exception order h e w = rw (
    remove,
    take_from-insert order h m.exception_handlers
        (fresh m h e m.exception_handlers w.below_exception),
  )
  register_in-remove m continuation order h e w = rw (
    remove,
    take_from-Absent h.id m.exception_handlers (fresh m h e m.exception_handlers w.below_exception),
    take_from-insert order h m.continue_handlers (fresh m h e m.continue_handlers w.below_continue),
  )

  len-register_in :
      (m : VectoredExceptionModel H) (kind : VectoredHandlerKind) (order : VectoredHandlerOrder)
      (h : VectoredHandler H)
      → len (register_in m kind order h) ≡ suc (len m)
  unfolding len
  len-register_in m exception first h = omega arith
  len-register_in m exception last h = omega (arith, length-append m.exception_handlers (h ∷ []))
  len-register_in m continuation first h = omega arith
  len-register_in m continuation last h = omega (arith, length-append m.continue_handlers (h ∷ []))

  -- While an identity is left, `register` on a well-formed model returns a well-formed model with one
  -- registration more, and removing the identity it gave out returns that registration and leaves
  -- both lists as they were.
  pub remove-register :
      (m : VectoredExceptionModel H) (kind : VectoredHandlerKind) (order : VectoredHandlerOrder)
      (handler : H)
      → IsRegistered m
      → m.next_id + 1 < 2 ^ 64
      → (m' : VectoredExceptionModel H) × (id : ℕ) × (register m kind order handler ≡ ok (m', id))
        × IsRegistered m'
        × (len m' ≡ suc (len m))
        × (remove m' id ≡ (
          record m { next_id = m.next_id + 1 },
          some (record { id = id; kind = kind; handler = handler }),
        ))
  unfolding register
  remove-register m kind order handler w room =
      let h : VectoredHandler H = record { id = m.next_id; kind = kind; handler = handler } in
      (
        register_in m kind order h,
        m.next_id,
        rw (lt→ltb (m.next_id + 1) (2 ^ 64) room),
        register_in-IsRegistered m kind order h refl w,
        len-register_in m kind order h,
        register_in-remove m kind order h refl w,
      )

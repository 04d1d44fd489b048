-- ===== src/Vectored/Removal.antt =====
-- `remove` of crates/cfglib/src/exception/veh.rs on well-formed lists of registrations.
use cfglib.Prelude.{
  ℕ, suc, ◌≡◌, ◌≢◌, refl, sym, subst, ◌∙◌, ap, List, [], ◌∷◌, ◌++◌, length, ◌==◌, Option, none,
  some, arith, Bool-cases, inl, inr, ◌⊎◌, ==→≡, ==→≢,
}
use cfglib.Vectored.{VectoredHandler, VectoredExceptionModel, take_from, remove, len}
use cfglib.Vectored.Identities.{
  Absent, AllBelow, Distinct, Apart, IsRegistered, take_from-here, take_from-later,
  take_from-Absent,
}

module _ {ℓ} {H : Type ℓ} where
  -- A list that a registration was taken from, and what is left.
  record Takes (id : ℕ) (hs : List (VectoredHandler H)) (h : VectoredHandler H)
      (rest : List (VectoredHandler H)) : Type ℓ where
    pub run : take_from id hs ≡ some (h, rest)
    pub own : h.id ≡ id
    pub front : List (VectoredHandler H)
    pub back : List (VectoredHandler H)
    pub split : hs ≡ front ++ h ∷ back
    pub left : rest ≡ front ++ back
    pub absent : (k : ℕ) → Absent k hs → Absent k rest
    pub below : (n : ℕ) → AllBelow n hs → AllBelow n rest
    pub distinct : Distinct hs → Distinct rest
    pub gone : Distinct hs → Absent id rest
    pub apart : (ys : List (VectoredHandler H)) → Apart hs ys → Apart rest ys
    pub elsewhere : (ys : List (VectoredHandler H)) → Apart hs ys → Absent id ys
    pub shorter : suc (length rest) ≡ length hs

  Takes-later :
      (id : ℕ) (x : VectoredHandler H) (hs : List (VectoredHandler H)) (h : VectoredHandler H)
      (rest : List (VectoredHandler H))
      → x.id ≢ id
      → Takes id hs h rest
      → Takes id (x ∷ hs) h (x ∷ rest)
  Takes-later id x hs h rest ne t = record {
    run = take_from-later id x hs ne ∙ rw t.run;
    own = t.own;
    front = x ∷ t.front;
    back = t.back;
    split = ap (◌∷◌ x) t.split;
    left = ap (◌∷◌ x) t.left;
    absent = λ k a. (a.0, t.absent k a.1);
    below = λ n b. (b.0, t.below n b.1);
    distinct = λ d. (t.absent x.id d.0, t.distinct d.1);
    gone = λ d. (ne, t.gone d.1);
    apart = λ ys a. (a.0, t.apart ys a.1);
    elsewhere = λ ys a. t.elsewhere ys a.1;
    shorter = omega (arith, t.shorter);
  }

  take_from-Takes :
      (id : ℕ) (hs : List (VectoredHandler H))
      → (Absent id hs × (take_from id hs ≡ none))
        ⊎ ((h : VectoredHandler H) × (rest : List (VectoredHandler H)) × Takes id hs h rest)
  take_from-Takes id [] = inl (tt, take_from-Absent id [] tt)
  take_from-Takes id (x ∷ hs) = elim (Bool-cases (x.id == id)) [
    | inl q ↦
        let e = ==→≡ x.id id q in
        inr (
          x,
          hs,
          record {
            run = take_from-here id x hs e;
            own = e;
            front = [];
            back = hs;
            split = refl;
            left = refl;
            absent = λ k a. a.1;
            below = λ n b. b.1;
            distinct = λ d. d.1;
            gone = λ d. subst (λ k. Absent k hs) e d.0;
            apart = λ ys a. a.1;
            elsewhere = λ ys a. subst (λ k. Absent k ys) e a.0;
            shorter = refl;
          },
        )
    | inr q ↦
        let ne = ==→≢ x.id id q in
        elim (take_from-Takes id hs) [
          | inl (absent, none_left) ↦ inl ((ne, absent), take_from-later id x hs ne ∙ rw none_left)
          | inr (h, rest, t) ↦ inr (h, x ∷ rest, Takes-later id x hs h rest ne t)
        ]
  ]

  Apart-rest :
      (xs hs rest : List (VectoredHandler H))
      → ((k : ℕ) → Absent k hs → Absent k rest)
      → Apart xs hs
      → Apart xs rest
  Apart-rest [] hs rest keeps a = tt
  Apart-rest (x ∷ xs) hs rest keeps a = (keeps x.id a.0, Apart-rest xs hs rest keeps a.1)

  -- What `remove` of an identity returns: a well-formed model that has it no more, which is the old
  -- one when no registration has it, and otherwise the old one without that registration.
  abbrev pub Removes :
      VectoredExceptionModel H → ℕ → VectoredExceptionModel H × Option (VectoredHandler H) → Type ℓ
  Removes m id r =
      IsRegistered r.0
      × (remove r.0 id ≡ (r.0, none))
      × ((Absent id m.exception_handlers × Absent id m.continue_handlers × (r ≡ (m, none)))
          ⊎ ((h : VectoredHandler H) × (front back : List (VectoredHandler H)) × (r.1 ≡ some h)
              × (h.id ≡ id)
              × (suc (len r.0) ≡ len m)
              × (((m.exception_handlers ≡ front ++ h ∷ back)
                    × (r.0 ≡ record m { exception_handlers = front ++ back }))
                  ⊎ ((m.continue_handlers ≡ front ++ h ∷ back)
                      × (r.0 ≡ record m { continue_handlers = front ++ back })))))

  remove-absent :
      (m : VectoredExceptionModel H) (id : ℕ)
      → take_from id m.exception_handlers ≡ none
      → take_from id m.continue_handlers ≡ none
      → remove m id ≡ (m, none)
  unfolding remove
  remove-absent m id e c = rw (remove, e, c)

  Removes-exception :
      (m : VectoredExceptionModel H) (id : ℕ) (h : VectoredHandler H)
      (rest : List (VectoredHandler H))
      → IsRegistered m
      → Takes id m.exception_handlers h rest
      → Removes m id (record m { exception_handlers = rest }, some h)
  unfolding len
  Removes-exception m id h rest w t =
      let left = record m { exception_handlers = rest } in
      (
        record {
          below_exception = t.below m.next_id w.below_exception;
          below_continue = w.below_continue;
          distinct_exception = t.distinct w.distinct_exception;
          distinct_continue = w.distinct_continue;
          apart = t.apart m.continue_handlers w.apart;
        },
        remove-absent left id (take_from-Absent id rest (t.gone w.distinct_exception))
            (take_from-Absent id m.continue_handlers (t.elsewhere m.continue_handlers w.apart)),
        inr (
          h,
          t.front,
          t.back,
          refl,
          t.own,
          omega (arith, t.shorter),
          inl (t.split, ap (λ hs. record m { exception_handlers = hs }) t.left),
        ),
      )

  Removes-continue :
      (m : VectoredExceptionModel H) (id : ℕ) (h : VectoredHandler H)
      (rest : List (VectoredHandler H))
      → IsRegistered m
      → take_from id m.exception_handlers ≡ none
      → Takes id m.continue_handlers h rest
      → Removes m id (record m { continue_handlers = rest }, some h)
  unfolding len
  Removes-continue m id h rest w e t =
      let left = record m { continue_handlers = rest } in
      (
        record {
          below_exception = w.below_exception;
          below_continue = t.below m.next_id w.below_continue;
          distinct_exception = w.distinct_exception;
          distinct_continue = t.distinct w.distinct_continue;
          apart = Apart-rest m.exception_handlers m.continue_handlers rest t.absent w.apart;
        },
        remove-absent left id e (take_from-Absent id rest (t.gone w.distinct_continue)),
        inr (
          h,
          t.front,
          t.back,
          refl,
          t.own,
          omega (arith, t.shorter),
          inr (t.split, ap (λ hs. record m { continue_handlers = hs }) t.left),
        ),
      )

  -- On a well-formed model remove either finds no registration of the identity in either list,
  -- returns none and changes nothing, or returns a registration of that identity and takes exactly
  -- it out of the list it stands in, which leaves one registration fewer and all else as it was;
  -- either way the model stays well formed and a second remove of the identity finds nothing and
  -- changes nothing.
  pub remove_twice :
      (m : VectoredExceptionModel H) (id : ℕ) → IsRegistered m → Removes m id (remove m id)
  unfolding remove
  remove_twice m id w = elim (take_from-Takes id m.exception_handlers) [
    | inl (absent, run) ↦ elim (take_from-Takes id m.continue_handlers) [
      | inl (absent_too, run_too) ↦
          let same = remove-absent m id run run_too in
          subst (Removes m id) (sym same) (w, same, inl (absent, absent_too, refl))
      | inr (h, rest, t) ↦
          subst (Removes m id) (sym (rw (remove, run, t.run)))
            (Removes-continue m id h rest w run t)
    ]
    | inr (h, rest, t) ↦
        subst (Removes m id) (sym (rw (remove, t.run))) (Removes-exception m id h rest w t)
  ]

-- ===== src/Epoch/Sets.antt =====
-- The epoch set of crates/cfglib/src/graph/epoch.rs against a set of indices.
use cfglib.Prelude.{
  ℕ, zero, suc, ◌+◌, ◌<◌, ◌≤◌, ◌≡◌, refl, sym, subst, ◌∙◌, ◌++◌, ap, inl, inr, List, [], ◌∷◌, Bool,
  true, false, not, length, set, replicate, get_elem?, ◌==◌, lt→ltb, if◌then◌else◌, Option, none,
  some, ok, arith, Bool-cases, ==→≡, ==→≢, ≡→==, count, count-append, length-set, length-replicate,
  get_elem?_lt, get_elem?-set_self, get_elem?-set_ne, get_elem?-set_cases,
}
use cfglib.Epoch
use cfglib.Epoch.{EpochMarks, EpochSet, max_epoch, capacity, reset, is_marked, mark}

abbrev stamped : ℕ → Option ℕ → Bool
stamped epoch none = false
stamped epoch (some stamp) = stamp == epoch

-- The set that the stamps stand for.
abbrev pub holds : EpochSet → ℕ → Bool
holds s f = stamped s.marks.epoch (get_elem? s.marks.stamps f)

-- No stamp is ahead of the epoch, which is a positive `u32`; the members are those with its stamp, each
-- once.
pub record IsEpochSet (s : EpochSet) : Type 0 where
  pub begun : 0 < s.marks.epoch
  pub room : s.marks.epoch ≤ max_epoch
  pub past : (f stamp : ℕ) → get_elem? s.marks.stamps f ≡ some stamp → stamp ≤ s.marks.epoch
  pub listed : (f : ℕ) → count f s.members ≡ (if holds s f then 1 else 0)

get_elem?-replicate_eq : (n a f b : ℕ) → get_elem? (replicate n a) f ≡ some b → b ≡ a
get_elem?-replicate_eq zero a f b e = absurd (cc (e))
get_elem?-replicate_eq (suc n) a zero b e = cc (e)
get_elem?-replicate_eq (suc n) a (suc f) b e = get_elem?-replicate_eq n a f b e

-- No stamp is the epoch.
unstamped :
    (stamps : List ℕ) (epoch f : ℕ)
    → ((stamp : ℕ) → get_elem? stamps f ≡ some stamp → stamp < epoch)
    → stamped epoch (get_elem? stamps f) ≡ false
unstamped stamps epoch f old =
    elim (get_elem? stamps f)
        as (λ (o : Option ℕ).
          ((stamp : ℕ) → o ≡ some stamp → stamp < epoch) → stamped epoch o ≡ false) [
            | none ↦ λ old. refl
            | some stamp ↦ λ old. let h = old stamp refl in ground arith
          ]
      old

pub new-IsEpochSet : (n : ℕ) → IsEpochSet (Epoch.new n) × ((f : ℕ) → holds (Epoch.new n) f ≡ false)
unfolding Epoch.new
new-IsEpochSet n =
    let blank = λ (f : ℕ).
      unstamped (replicate n 0) 1 f
        (λ stamp at. omega (arith, get_elem?-replicate_eq n 0 f stamp at)) in
    (
      record {
        begun = omega arith;
        room = omega arith;
        past = λ f stamp at. omega (arith, get_elem?-replicate_eq n 0 f stamp at);
        listed = λ f. rw (blank f) refl;
      },
      blank,
    )

clear_full :
    (s : EpochSet)
    → (s.marks.epoch == max_epoch) ≡ true
    → Epoch.new (length s.marks.stamps) ≡ Epoch.clear s
unfolding Epoch.new Epoch.clear reset
clear_full s full = rw full refl

clear_more :
    (s : EpochSet)
    → (s.marks.epoch == max_epoch) ≡ false
    → record { marks = record { stamps = s.marks.stamps; epoch = s.marks.epoch + 1 }; members = [] }
      ≡ Epoch.clear s
unfolding Epoch.clear reset
clear_more s more = rw more refl

pub size_of_new : (n : ℕ) → length (Epoch.new n).marks.stamps ≡ n
unfolding Epoch.new
size_of_new n = length-replicate n 0

-- What `clear` promises.
unfoldable pub Cleared : EpochSet → EpochSet → Type 0
Cleared s s' =
    IsEpochSet s'
    × ((f : ℕ) → holds s' f ≡ false)
    × (length s'.marks.stamps ≡ length s.marks.stamps)

pub clear-Cleared : (s : EpochSet) → IsEpochSet s → Cleared s (Epoch.clear s)
unfolding Cleared
clear-Cleared s w = elim (Bool-cases (s.marks.epoch == max_epoch)) [
  | inl full ↦
      let (fresh, blank) = new-IsEpochSet (length s.marks.stamps) in
      subst (Cleared s) (clear_full s full) (fresh, blank, size_of_new (length s.marks.stamps))
  | inr more ↦
      let old = λ (f : ℕ).
        unstamped s.marks.stamps (s.marks.epoch + 1) f
          (λ stamp at. omega (arith, w.past f stamp at)) in
      let ne = ==→≢ s.marks.epoch max_epoch more in
      subst (Cleared s) (clear_more s more) (
        record {
          begun = omega arith;
          room = omega (arith, w.room, ne);
          past = λ f stamp at. omega (arith, w.past f stamp at);
          listed = λ f. rw (old f) refl;
        },
        old,
        refl,
      )
]

-- What `insert` promises below the capacity.
unfoldable pub Inserted : EpochSet → ℕ → Type 0
Inserted s i =
    (s' : EpochSet) × (Epoch.insert s i ≡ ok (s', not (holds s i)))
    × IsEpochSet s'
    × ((f : ℕ) → holds s' f ≡ (if i == f then true else holds s f))
    × (length s'.marks.stamps ≡ length s.marks.stamps)

pub insert-Inserted :
    (s : EpochSet) (i : ℕ) → IsEpochSet s → i < length s.marks.stamps → Inserted s i
unfolding Inserted Epoch.insert capacity is_marked mark
insert-Inserted s i w h =
    let inside = lt→ltb i (length s.marks.stamps) h in
    let (t, at) = get_elem?_lt s.marks.stamps i h in
    elim (Bool-cases (t == s.marks.epoch)) [
      | inl old ↦ (
        s,
        rw (inside, at, old) refl,
        w,
        λ f. elim (Bool-cases (i == f)) [
          | inl same ↦
              let e = ==→≡ i f same in
              rw same
                (ap (λ j. stamped s.marks.epoch (get_elem? s.marks.stamps j)) (sym e) ∙ rw at old)
          | inr other ↦ rw other refl
        ],
        refl,
      )
      | inr new ↦
          let s' : EpochSet = record {
            marks = record { stamps = set s.marks.stamps i s.marks.epoch; epoch = s.marks.epoch };
            members = s.members ++ i ∷ [];
          } in
          let held = λ (f : ℕ). held_after s i f h in
          (
            s',
            rw (inside, at, new) refl,
            record {
              begun = w.begun;
              room = w.room;
              past = λ f stamp e. elim (get_elem?-set_cases s.marks.stamps i f s.marks.epoch e) [
                | inl (_, same) ↦ omega (arith, same)
                | inr (_, before) ↦ w.past f stamp before
              ];
              listed = λ f.
                  rw (held f, count-append f s.members (i ∷ []))
                    (elim (Bool-cases (i == f)) [
                      | inl same ↦
                          let absent : holds s f ≡ false =
                            ap (holds s) (sym (==→≡ i f same)) ∙ rw at new in
                          rw same (omega (arith, rw absent at (w.listed f)))
                      | inr other ↦ rw other (omega (arith, w.listed f))
                    ]);
            },
            held,
            length-set s.marks.stamps i s.marks.epoch,
          )
    ]
  where
    held_after :
        (s : EpochSet) (i f : ℕ)
        → i < length s.marks.stamps
        → stamped s.marks.epoch (get_elem? (set s.marks.stamps i s.marks.epoch) f)
          ≡ (if i == f then true else holds s f)
    held_after s i f h = elim (Bool-cases (i == f)) [
      | inl same ↦
          let e = ==→≡ i f same in
          rw (same, ← e)
            (ap (stamped s.marks.epoch) (get_elem?-set_self s.marks.stamps i s.marks.epoch h)
              ∙ ≡→== s.marks.epoch s.marks.epoch refl)
      | inr other ↦ rw other (
          ap (stamped s.marks.epoch)
            (get_elem?-set_ne s.marks.stamps i f s.marks.epoch (==→≢ i f other)))
    ]

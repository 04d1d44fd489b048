-- ===== src/Traverse/Reach.antt =====
-- Reachability from some nodes as an inductive relation, and the invariant of the walk of
-- crates/cfglib/src/graph/traverse.rs that `discover` keeps.
use cfglib.Prelude.{
  elem_later, ℕ, ◌+◌, ◌<◌, ◌≡◌, ◌⊎◌, ◌∙◌, refl, sym, subst, inl, inr, List, ◌∷◌, Bool, true, false,
  length, set, elem, ◌==◌, if◌then◌else◌, Option, none, some, Result, ok, Bool-cases, ==→≡, ≡→==,
  arith, length-set, get_elem?_lt,
}
use cfglib.Marks.{flag, flag_of, unseen, flag-set, unseen-set}
use cfglib.View.{View, TraversalDirection, neighbors}
use cfglib.Traverse.{State, discover}

-- A node that the walk may enter.
abbrev pub Allowed : Option (List Bool) → ℕ → Type 0
Allowed none m = Unit
Allowed (some within) m = flag within m ≡ true

-- The nodes that a walk from the seeds reaches, by entering allowed nodes only.
pub data Reaches (view : View) (axis : TraversalDirection) (within : Option (List Bool))
    (seeds : List ℕ) : ℕ → Type 0 where
  at_seed : (f : ℕ) → elem f seeds ≡ true → Reaches view axis within seeds f
  along :
      (n m : ℕ)
      → Reaches view axis within seeds n
      → elem m (neighbors axis view n) ≡ true
      → Allowed within m
      → Reaches view axis within seeds m

-- What a call may do: marks stay, and a new mark is a new entry of the stack.
pub record Grows (s t : State) : Type 0 where
  pub marks : (f : ℕ) → flag s.visited f ≡ true → flag t.visited f ≡ true
  pub work : unseen t.visited + length t.stack ≡ unseen s.visited + length s.stack

pub Grows-refl : (s : State) → Grows s s
Grows-refl s = record { marks = λ f e. e; work = refl }

pub Grows-trans : (s t u : State) → Grows s t → Grows t u → Grows s u
Grows-trans s t u a b = record { marks = λ f e. b.marks f (a.marks f e); work = b.work ∙ a.work }

module _ (view : View) (axis : TraversalDirection) (within : Option (List Bool))
    (seeds : List ℕ) where
  -- Every allowed neighbor of a node is marked.
  abbrev pub Expanded : List Bool → ℕ → Type 0
  Expanded visited f =
      (m : ℕ) → elem m (neighbors axis view f) ≡ true → Allowed within m → flag visited m ≡ true

  -- The state of the walk, while the neighbors of the nodes with `busy` are looked at.
  pub record Invariant (busy : ℕ → Bool) (s : State) : Type 0 where
    pub size : length s.visited ≡ view.node_bound
    pub sound : (f : ℕ) → flag s.visited f ≡ true → Reaches view axis within seeds f
    pub stacked : (f : ℕ) → elem f s.stack ≡ true → flag s.visited f ≡ true
    pub closed :
        (f : ℕ)
        → flag s.visited f ≡ true
        → (elem f s.stack ≡ true) ⊎ ((busy f ≡ true) ⊎ Expanded s.visited f)

  module _ (busy : ℕ → Bool) where
    -- A call that marks a node, if it is free to.
    pub record Marks (free : ℕ → Type 0) (m : ℕ) (s : State) (r : Result State) : Type 0 where
      pub out : State
      pub run : r ≡ ok out
      pub invariant : Invariant busy out
      pub marked : free m → flag out.visited m ≡ true
      pub grows : Grows s out

    module _ (m : ℕ) (s : State) (v : Invariant busy s) (inside : m < view.node_bound)
        (reached : Reaches view axis within seeds m) where
      abbrev found : State
      found = record { visited = set s.visited m true; stack = m ∷ s.stack }

      found_mark : (f : ℕ) → flag found.visited f ≡ (if m == f then true else flag s.visited f)
      found_mark f = flag-set s.visited m f (omega (arith, v.size, inside))

      found-Grows : flag s.visited m ≡ false → Grows s found
      found-Grows unset = record {
        marks =
            λ f e. found_mark f ∙ elim (Bool-cases (m == f)) [ inl q ↦ rw q refl | inr q ↦ rw q e ];
        work = omega (arith, unseen-set s.visited m (omega (arith, v.size, inside)) unset);
      }

      found-Invariant : flag s.visited m ≡ false → Invariant busy found
      found-Invariant unset = record {
        size = length-set s.visited m true ∙ v.size;
        sound = λ f e. elim (Bool-cases (m == f)) [
          | inl q ↦ subst (Reaches view axis within seeds) (==→≡ m f q) reached
          | inr q ↦ v.sound f (rw q at (sym (found_mark f) ∙ e))
        ];
        stacked = λ f e. elim (Bool-cases (m == f)) [
          | inl q ↦ found_mark f ∙ rw q refl
          | inr q ↦ found_mark f ∙ rw q (v.stacked f (rw q at e))
        ];
        closed = λ f e. elim (Bool-cases (m == f)) [
          | inl q ↦ inl (rw q refl)
          | inr q ↦ elim (v.closed f (rw q at (sym (found_mark f) ∙ e))) [
            | inl a ↦ inl (elem_later f m s.stack a)
            | inr (inl b) ↦ inr (inl b)
            | inr (inr c) ↦ inr (inr (λ n next free. (found-Grows unset).marks n (c n next free)))
          ]
        ];
      }

      pub discover-Marks : (free : ℕ → Type 0) → Marks free m s (discover m s)
      unfolding discover
      discover-Marks free =
          let (b, at) = get_elem?_lt s.visited m (omega (arith, v.size, inside)) in
          elim (Bool-cases b) [
            | inl q ↦ record {
              out = s;
              run = rw (at, q);
              invariant = v;
              marked = λ may. flag_of s.visited m at ∙ q;
              grows = Grows-refl s;
            }
            | inr q ↦
                let unset = flag_of s.visited m at ∙ q in
                record {
                  out = found;
                  run = rw (at, q);
                  invariant = found-Invariant unset;
                  marked = λ may. found_mark m ∙ rw (≡→== m m refl) refl;
                  grows = found-Grows unset;
                }
          ]

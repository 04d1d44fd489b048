-- ===== src/Dataflow/Worklist/Queue.antt =====
-- `Worklist` of crates/cfglib/src/dataflow/worklist.rs as a set of indices, and what queues one.
use cfglib.Prelude.{
  elem, ℕ, suc, ◌/◌, ◌<◌, ◌≡◌, refl, sym, subst, ◌∙◌, inl, inr, List, [], ◌∷◌, Bool, true, false,
  min, get_elem?, ◌==◌, if◌then◌else◌, some, Result, ok, arith, Bool-cases, ==→≡,
}
use cfglib.Dataflow.Bits
use cfglib.Dataflow.Bits.{DenseBits, bit_slot, remove}
use cfglib.Dataflow.Bits.Members.{member, IsBits, insert-Changes, new-IsBits, new-empty}
use cfglib.Dataflow.Worklist.{Worklist, new, insert, insert_all, of}

-- The words below the cursor hold no index.
pub record IsWorklist (w : Worklist) : Type 0 where
  pub bits : IsBits w.queued
  pub below : (i : ℕ) → i / 64 < w.cursor → member w.queued i ≡ false

abbrev pub waits : Worklist → ℕ → Bool
waits w i = member w.queued i

abbrev pub bound : Worklist → ℕ
bound w = w.queued.len

-- What queuing an index does.
pub record Inserts (w : Worklist) (i : ℕ) (r : Result Worklist) : Type 0 where
  pub out : Worklist
  pub run : r ≡ ok out
  pub valid : IsWorklist out
  pub bound : out.queued.len ≡ w.queued.len
  pub members : (j : ℕ) → waits out j ≡ (if i == j then true else waits w j)

pub insert-Inserts : (w : Worklist) (i : ℕ) → IsWorklist w → i < bound w → Inserts w i (insert w i)
unfolding insert bit_slot
insert-Inserts w i v h =
    let c = insert-Changes w.queued v.bits i h in
    record {
      out = record { queued = c.out; cursor = min w.cursor (i / 64) };
      run = rw c.run;
      valid = record {
        bits = c.bits;
        below = λ j lt.
            let was = v.below j (omega arith) in
            let now = c.members j in
            elim (Bool-cases (i == j)) [
              | inl q ↦ absurd (omega (arith, ==→≡ i j q))
              | inr q ↦ now ∙ rw q was
            ];
      };
      bound = c.len;
      members = c.members;
    }

pub new-IsWorklist : (n : ℕ) → IsWorklist (new n)
unfolding new
new-IsWorklist n = record { bits = new-IsBits n; below = λ i lt. absurd (omega arith) }

pub either :
    (e q a b : Bool)
    → a ≡ (if q then true else b)
    → (if e then true else a) ≡ (if (if q then true else e) then true else b)
either true true a b h = refl
either true false a b h = refl
either false true a b h = h
either false false a b h = h

pub none_else : (e : Bool) {b : Bool} → b ≡ false → (if e then true else b) ≡ e
none_else true h = refl
none_else false h = h

-- Queuing a list queues what is in it.
pub insert_all-Inserts :
    (w : Worklist) (indices : List ℕ)
    → IsWorklist w
    → ((k i : ℕ) → get_elem? indices k ≡ some i → i < bound w)
    → (out : Worklist) × (insert_all w indices ≡ ok out)
      × IsWorklist out
      × (bound out ≡ bound w)
      × ((j : ℕ) → waits out j ≡ (if elem j indices then true else waits w j))
unfolding insert_all
insert_all-Inserts w [] v inside = (w, refl, v, refl, λ j. refl)
insert_all-Inserts w (i ∷ indices) v inside =
    let c = insert-Inserts w i v (inside 0 i refl) in
    let (out, run, valid, same, members) =
      insert_all-Inserts c.out indices c.valid
        (λ k j at. subst (λ n. j < n) (sym c.bound) (inside (suc k) j at)) in
    (
      out,
      rw c.run run,
      valid,
      same ∙ c.bound,
      λ j. members j ∙ either (elem j indices) (i == j) (waits c.out j) (waits w j) (c.members j),
    )

-- `of` queues exactly the indices it is given.
pub of-Queued :
    (n : ℕ) (indices : List ℕ)
    → ((k i : ℕ) → get_elem? indices k ≡ some i → i < n)
    → (w : Worklist) × (of n indices ≡ ok w)
      × IsWorklist w
      × (bound w ≡ n)
      × ((j : ℕ) → waits w j ≡ elem j indices)
unfolding of new cfglib.Dataflow.Bits.new
of-Queued n indices inside =
    let (w, run, valid, same, members) =
      insert_all-Inserts (new n) indices (new-IsWorklist n) inside in
    (w, run, valid, same, λ j. members j ∙ none_else (elem j indices) (new-empty n j))

-- ===== src/Dataflow/Worklist.antt =====
-- `Worklist` of crates/cfglib/src/dataflow/worklist.rs: a queue of node indices, popped lowest first.
-- A graph is asked for its node bound and its node ids only. The search for a word that is not zero
-- takes fuel: one step for each word, and one to see that none is left.

mod Lowest
pub mod Queue
pub mod Pop
pub mod Seeds
mod Tests
use cfglib.Prelude.{
  ℕ, zero, suc, ◌+◌, ◌*◌, ◌/◌, ◌%◌, min, List, [], ◌∷◌, Bool, true, false, ◌&&◌, length, get_elem?,
  ltb, ◌==◌, if◌then◌else◌, Option, none, some, Result, ok, out_of_fuel, ◌>>=◌, ◌>>◌, assert,
}
use cfglib.Dataflow.Bits
use cfglib.Dataflow.Bits.{DenseBits, bit_slot, get, remove}

pub record Worklist : Type 0 where
  pub queued : DenseBits
  pub cursor : ℕ

unfoldable pub new : ℕ → Worklist
new bound = record { queued = cfglib.Dataflow.Bits.new bound; cursor = 0 }

unfoldable pub insert : Worklist → ℕ → Result Worklist
insert w index = do
  (queued, newly) ← cfglib.Dataflow.Bits.insert w.queued index
  ok (record { queued = queued; cursor = min w.cursor ((bit_slot index).0) })

-- The loop of `of`, on a worklist.
unfoldable pub insert_all : Worklist → List ℕ → Result Worklist
insert_all w [] = ok w
insert_all w (index ∷ indices) = insert w index >>= λ w. insert_all w indices

unfoldable pub of : ℕ → List ℕ → Result Worklist
of bound indices = insert_all (new bound) indices

-- `live`, on the bound and the ids of a graph's nodes.
unfoldable pub live : ℕ → List ℕ → Result Worklist
live bound nodes = of bound nodes

-- `index < bound && live.queued.get(index)`
unfoldable pub is_seed : ℕ → Worklist → ℕ → Result Bool
is_seed bound w seed = if ltb seed bound then get w.queued seed else ok false

-- The loop of `of` over the seeds, each checked as it is asked for.
unfoldable pub insert_seeds : ℕ → Worklist → Worklist → List ℕ → Result Worklist
insert_seeds bound all w [] = ok w
insert_seeds bound all w (seed ∷ seeds) = do
  known ← is_seed bound all seed
  assert known
  w ← insert w seed
  insert_seeds bound all w seeds

unfoldable pub seeded : ℕ → List ℕ → List ℕ → Result Worklist
seeded bound nodes [] = ok (new bound)
seeded bound nodes (seed ∷ seeds) = do
  all ← live bound nodes
  insert_seeds bound all (new bound) (seed ∷ seeds)

-- `u64::trailing_zeros`, over the bits that are left.
unfoldable pub trailing_zeros : ℕ → ℕ → ℕ
trailing_zeros zero w = 0
trailing_zeros (suc bits) w = if w % 2 == 1 then 0 else suc (trailing_zeros bits (w / 2))

-- The end of `pop_first`: the index of the lowest bit of the word at the cursor.
unfoldable pub take : Worklist → ℕ → Result (Worklist × Option ℕ)
take w word = do
  let index = w.cursor * 64 + trailing_zeros 64 word
  (queued, was_set) ← remove w.queued index
  ok (record w { queued = queued }, some index)

unfoldable pub search_from : ℕ → Worklist → Result (Worklist × Option ℕ)
search_from zero w = out_of_fuel
search_from (suc fuel) w = elim (get_elem? w.queued.words w.cursor) [
  | none ↦ ok (w, none)
  | some word ↦
      if word == 0 then search_from fuel (record w { cursor = suc w.cursor }) else take w word
]

unfoldable pub pop_first : Worklist → Result (Worklist × Option ℕ)
pop_first w = search_from (suc (length w.queued.words)) w

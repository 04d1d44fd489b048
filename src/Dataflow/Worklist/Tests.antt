-- ===== src/Dataflow/Worklist/Tests.antt =====
-- Runs of the bit rows and of the worklist, and their theorems at concrete inputs.
use cfglib.Prelude.{
  length, ◌&&◌, ◌≢◌, elem, ℕ, ◌<◌, ◌≡◌, ◌⊎◌, refl, subst, List, [], ◌∷◌, true, false, not,
  get_elem?, ltb, if◌then◌else◌, none, some, ok, panic, ◌>>=◌, arith,
}
use cfglib.Words.{set_bit, clear_bit}
use cfglib.Dataflow.Bits
use cfglib.Dataflow.Bits.{DenseBits, bit_slot, slot, get, remove, merge, union_with}
use cfglib.Dataflow.Bits.Members.{
  member, new-IsBits, Changes, get-member, insert-Changes, Unites, union_with-Unites,
}
use cfglib.Dataflow.Bits.Ones.{
  over, without_lowest, next_from, next, drain, ones_of, ones, count_ones, intersection,
}
use cfglib.Dataflow.Bits.Ones.Lists.{IsListing, ones-IsListing, intersection-IsListing}
use cfglib.Dataflow.Worklist
use cfglib.Dataflow.Worklist.{
  Worklist, insert_all, of, live, seeded, pop_first, search_from, take, trailing_zeros,
}
use cfglib.Dataflow.Worklist.Queue.{IsWorklist, waits, bound, of-Queued}
use cfglib.Dataflow.Worklist.Pop.{Pops, pop_first-Pops}
use cfglib.Dataflow.Worklist.Seeds.{all_live, seeded-Queued}

pops :
    (do
      w ← of 200 (130 ∷ 3 ∷ 64 ∷ 3 ∷ 63 ∷ 130 ∷ [])
      (w, a) ← pop_first w
      (w, b) ← pop_first w
      (w, c) ← pop_first w
      (w, d) ← pop_first w
      (w, e) ← pop_first w
      ok (a ∷ b ∷ c ∷ d ∷ e ∷ []))
    ≡ ok (some 3 ∷ some 63 ∷ some 64 ∷ some 130 ∷ none ∷ [])
unfolding of insert_all Worklist.insert Bits.insert slot Worklist.new Bits.new bit_slot pop_first
    search_from set_bit take remove trailing_zeros clear_bit
pops = refl

-- The indices 3 and 64 of a universe of 70.
abbrev sparse : Worklist
sparse = record { queued = record { words = 8 ∷ 1 ∷ []; len = 70 }; cursor = 0 }

sparse_built : of 70 (64 ∷ 3 ∷ []) ≡ ok sparse
unfolding of insert_all Worklist.insert Bits.insert slot Worklist.new Bits.new bit_slot set_bit
sparse_built = refl

sparse_inside : (k i : ℕ) → get_elem? (64 ∷ 3 ∷ []) k ≡ some i → i < 70
sparse_inside k i at = ground arith

sparse-IsWorklist : IsWorklist sparse
sparse-IsWorklist =
    let (w, run, valid, same, members) = of-Queued 70 (64 ∷ 3 ∷ []) sparse_inside in
    let e : w ≡ sparse = cc (run, sparse_built) in subst IsWorklist e valid

pop_first-Pops_example : Pops sparse (pop_first sparse)
pop_first-Pops_example = pop_first-Pops sparse sparse-IsWorklist

union_with-Unites_example : Unites (Bits.new 70) sparse.queued
unfolding Bits.new
union_with-Unites_example =
    union_with-Unites (Bits.new 70) sparse.queued (new-IsBits 70) sparse-IsWorklist.bits refl

listed : ones sparse.queued ≡ ok (3 ∷ 64 ∷ [])
unfolding ones ones_of over drain next next_from trailing_zeros without_lowest
listed = refl

ones-IsListing_example :
    (xs : List ℕ) × (ones sparse.queued ≡ ok xs)
    × IsListing 70 (member sparse.queued) xs
    × (count_ones sparse.queued ≡ length xs)
ones-IsListing_example = ones-IsListing sparse.queued sparse-IsWorklist.bits

intersection-IsListing_example :
    (sparse.queued.len ≡ (Bits.new 70).len)
      × ((xs : List ℕ) × (intersection sparse.queued (Bits.new 70) ≡ ok xs)
          × IsListing 70 (λ i. member sparse.queued i && member (Bits.new 70) i) xs)
    ⊎ (sparse.queued.len ≢ (Bits.new 70).len) × (intersection sparse.queued (Bits.new 70) ≡ panic)
unfolding Bits.new
intersection-IsListing_example =
    intersection-IsListing sparse.queued (Bits.new 70) sparse-IsWorklist.bits (new-IsBits 70)

joins : union_with (Bits.new 70) sparse.queued ≡ ok (sparse.queued, true)
unfolding union_with Bits.new merge
joins = refl

get_of_sparse : get sparse.queued 64 ≡ (if ltb 64 70 then ok (member sparse.queued 64) else panic)
get_of_sparse = get-member sparse.queued sparse-IsWorklist.bits 64

insert_into_sparse :
    Changes sparse.queued 5 true (not (member sparse.queued 5)) (Bits.insert sparse.queued 5)
insert_into_sparse = insert-Changes sparse.queued sparse-IsWorklist.bits 5 (omega arith)

seeded-Queued_example :
    (all_live (0 ∷ 2 ∷ []) (2 ∷ 1 ∷ []) ≡ true)
      × ((w : Worklist) × (seeded 3 (0 ∷ 2 ∷ []) (2 ∷ 1 ∷ []) ≡ ok w)
          × IsWorklist w
          × (bound w ≡ 3)
          × ((j : ℕ) → waits w j ≡ elem j (2 ∷ 1 ∷ [])))
    ⊎ (all_live (0 ∷ 2 ∷ []) (2 ∷ 1 ∷ []) ≡ false) × (seeded 3 (0 ∷ 2 ∷ []) (2 ∷ 1 ∷ []) ≡ panic)
seeded-Queued_example = seeded-Queued 3 (0 ∷ 2 ∷ []) (2 ∷ 1 ∷ []) (λ k i at. ground arith)

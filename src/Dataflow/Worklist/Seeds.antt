-- ===== src/Dataflow/Worklist/Seeds.antt =====
-- `Worklist::seeded` of crates/cfglib/src/dataflow/worklist.rs: a seed that is no live node panics.
use cfglib.Prelude.{
  elem, ℕ, ◌<◌, ◌≡◌, ◌⊎◌, refl, sym, subst, ◌∙◌, ap, inl, inr, List, [], ◌∷◌, Bool, true, false,
  get_elem?, ltb, ◌==◌, if◌then◌else◌, some, ok, panic, Bool-cases, arith,
}
use cfglib.Dataflow.Bits
use cfglib.Dataflow.Bits.{get}
use cfglib.Dataflow.Bits.Members.{get-member, new-empty}
use cfglib.Dataflow.Worklist.{Worklist, new, live, is_seed, insert_seeds, seeded}
use cfglib.Dataflow.Worklist.Pop.{member-inside}
use cfglib.Dataflow.Worklist.Queue.{
  IsWorklist, waits, bound, insert-Inserts, new-IsWorklist, of-Queued, either, none_else,
}

-- Whether every seed is one of the nodes.
abbrev pub all_live : List ℕ → List ℕ → Bool
all_live nodes [] = true
all_live nodes (seed ∷ seeds) = if elem seed nodes then all_live nodes seeds else false

module _ (n : ℕ) (nodes : List ℕ) (all : Worklist) (v : IsWorklist all) (size : bound all ≡ n)
    (members : (j : ℕ) → waits all j ≡ elem j nodes) where
  is_seed-elem : (seed : ℕ) → is_seed n all seed ≡ ok (elem seed nodes)
  unfolding is_seed
  is_seed-elem seed = elim (Bool-cases (ltb seed n)) [
    | inl q ↦
        let inside : ltb seed (bound all) ≡ true = subst (λ m. ltb seed m ≡ true) (sym size) q in
        rw q (get-member all.queued v.bits seed ∙ rw inside (ap ok (members seed)))
    | inr q ↦
        let outside = v.bits.within seed (ground (arith, q, size)) in
        rw q (ap ok (sym outside ∙ members seed))
  ]

  insert_seeds-Queued :
      (w : Worklist) (seeds : List ℕ)
      → IsWorklist w
      → bound w ≡ n
      → (all_live nodes seeds ≡ true)
          × ((out : Worklist) × (insert_seeds n all w seeds ≡ ok out)
              × IsWorklist out
              × (bound out ≡ n)
              × ((j : ℕ) → waits out j ≡ (if elem j seeds then true else waits w j)))
        ⊎ (all_live nodes seeds ≡ false) × (insert_seeds n all w seeds ≡ panic)
  unfolding insert_seeds
  insert_seeds-Queued w [] u same = inl (refl, (w, refl, u, same, λ j. refl))
  insert_seeds-Queued w (seed ∷ seeds) u same = elim (Bool-cases (elem seed nodes)) [
    | inr q ↦ inr (rw q refl, rw (is_seed-elem seed, q))
    | inl q ↦
        let waiting = members seed ∙ q in
        let inside : seed < bound w =
          subst (λ m. seed < m) (size ∙ sym same) (member-inside all seed v waiting) in
        let c = insert-Inserts w seed u inside in
        elim (insert_seeds-Queued c.out seeds c.valid (c.bound ∙ same)) [
          | inl (known, (out, run, valid, size', gained)) ↦ inl (
            rw q known,
            (
              out,
              rw (is_seed-elem seed, q, c.run) run,
              valid,
              size',
              λ j.
                  gained j
                  ∙ either (elem j seeds) (seed == j) (waits c.out j) (waits w j) (c.members j),
            ),
          )
          | inr (unknown, run) ↦ inr (rw q unknown, rw (is_seed-elem seed, q, c.run) run)
        ]
  ]

-- When all nodes are below the bound, seeded queues exactly the seeds when each of them is a node,
-- and panics otherwise.
pub seeded-Queued :
    (n : ℕ) (nodes seeds : List ℕ)
    → ((k i : ℕ) → get_elem? nodes k ≡ some i → i < n)
    → (all_live nodes seeds ≡ true)
        × ((w : Worklist) × (seeded n nodes seeds ≡ ok w)
            × IsWorklist w
            × (bound w ≡ n)
            × ((j : ℕ) → waits w j ≡ elem j seeds))
      ⊎ (all_live nodes seeds ≡ false) × (seeded n nodes seeds ≡ panic)
unfolding seeded live new cfglib.Dataflow.Bits.new
seeded-Queued n nodes [] inside =
    inl (refl, (new n, refl, new-IsWorklist n, refl, λ j. new-empty n j))
seeded-Queued n nodes (seed ∷ seeds) inside =
    let (all, run, v, size, members) = of-Queued n nodes inside in
    elim (insert_seeds-Queued n nodes all v size members (new n) (seed ∷ seeds) (new-IsWorklist n)
      refl) [
        | inl (known, (out, ran, valid, same, gained)) ↦ inl (
          known,
          (
            out,
            rw run ran,
            valid,
            same,
            λ j. gained j ∙ none_else (elem j (seed ∷ seeds)) (new-empty n j),
          ),
        )
        | inr (unknown, ran) ↦ inr (unknown, rw run ran)
      ]

-- ===== src/Horn/Tests.antt =====
-- The example of the documentation of `HornClauses`, and the theorems at it: the nullable symbols of
-- the grammar with `S -> A B`, `A -> ε` and `B -> A A`, and a symbol that no clause derives.
use cfglib.Prelude.{
  count, ℕ, zero, suc, ◌≡◌, ◌↔◌, refl, sym, ap, ◌∙◌, List, [], ◌∷◌, ◌++◌, ◌⊎◌, true, false, length,
  get_elem?, some, Bool, ok, panic, ◌>>=◌, arith,
}
use cfglib.Marks.{flag}
use cfglib.Horn.{
  HornClauses, new, mention, add_clause, derive, fire, fire_if, seed, discharge, propagate, round,
  saturate, derivable,
}
use cfglib.Horn.Derivation.{Clause, Derivable, body_of, Represents}
use cfglib.Horn.Clauses.{row_of, mentions_in, in_range, add_clause-Represents}
use cfglib.Horn.Saturation.Fixpoint.{derivable-Derivable}

abbrev grammar : HornClauses
grammar = record {
  fact_count = 4;
  heads = 0 ∷ 1 ∷ 2 ∷ [];
  body_lens = 2 ∷ 0 ∷ 2 ∷ [];
  dependents = [] ∷ (0 ∷ 2 ∷ 2 ∷ []) ∷ (0 ∷ []) ∷ [] ∷ [];
}

abbrev productions : List Clause
productions =
    record { head = 0; body = 1 ∷ 2 ∷ [] }
    ∷ record { head = 1; body = [] }
    ∷ record { head = 2; body = 1 ∷ 1 ∷ [] }
    ∷ []

built :
    (do h ← add_clause (new 4) 0 (1 ∷ 2 ∷ []); h ← add_clause h 1 []; add_clause h 2 (1 ∷ 1 ∷ []))
    ≡ ok grammar
unfolding new add_clause mention
built = refl

nullable : derivable grammar ≡ ok (true ∷ true ∷ true ∷ false ∷ [])
unfolding derivable seed fire_if fire derive saturate round propagate discharge
nullable = refl

-- Cyclic support derives nothing.
cyclic :
    (do h ← add_clause (new 2) 0 (1 ∷ []); h ← add_clause h 1 (0 ∷ []); derivable h)
    ≡ ok (false ∷ false ∷ [])
unfolding new add_clause mention derivable seed fire_if fire derive saturate round propagate
    discharge
cyclic = refl

tally :
    (fact i : ℕ)
    → mentions_in grammar.dependents fact i ≡ count fact (body_of (get_elem? productions i))
tally zero zero = ground arith
tally zero (suc zero) = ground arith
tally zero (suc (suc zero)) = ground arith
tally zero (suc (suc (suc i))) = ground arith
tally (suc zero) zero = ground arith
tally (suc zero) (suc zero) = ground arith
tally (suc zero) (suc (suc zero)) = ground arith
tally (suc zero) (suc (suc (suc i))) = ground arith
tally (suc (suc zero)) zero = ground arith
tally (suc (suc zero)) (suc zero) = ground arith
tally (suc (suc zero)) (suc (suc zero)) = ground arith
tally (suc (suc zero)) (suc (suc (suc i))) = ground arith
tally (suc (suc (suc fact))) zero = ground arith
tally (suc (suc (suc fact))) (suc zero) = ground arith
tally (suc (suc (suc fact))) (suc (suc zero)) = ground arith
tally (suc (suc (suc fact))) (suc (suc (suc i))) = ground arith

named :
    (fact : ℕ) (row : List ℕ)
    → get_elem? grammar.dependents fact ≡ some row
    → (i : ℕ) → count i row ≡ count fact (body_of (get_elem? productions i))
named fact row at i = sym (ap (λ o. count i (row_of o)) at) ∙ tally fact i

grammar-Represents : Represents grammar productions
grammar-Represents = record {
  heads = refl;
  lens = refl;
  rows = refl;
  mentions = named;
  head_below = λ i c at. ground arith;
}

derivable-Derivable_example :
    (d : List Bool) × (derivable grammar ≡ ok d)
    × (length d ≡ 4)
    × ((f : ℕ) → (flag d f ≡ true) ↔ Derivable productions f)
derivable-Derivable_example = derivable-Derivable grammar productions grammar-Represents

add_clause-Represents_example :
    (in_range grammar 3 (0 ∷ []) ≡ true)
      × ((h' : HornClauses) × (add_clause grammar 3 (0 ∷ []) ≡ ok h')
          × Represents h' (productions ++ record { head = 3; body = 0 ∷ [] } ∷ []))
    ⊎ (in_range grammar 3 (0 ∷ []) ≡ false) × (add_clause grammar 3 (0 ∷ []) ≡ panic)
add_clause-Represents_example =
    add_clause-Represents grammar productions grammar-Represents 3 (0 ∷ [])

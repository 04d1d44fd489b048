-- ===== src/Horn/Stored/Tests.antt =====
-- Stored tables at concrete inputs, those of the tests of crates/cfglib/src/graph/horn.rs.
use Prim.Native.String.{String}
use cfglib.Prelude.{◌≡◌, ◌⊎◌, refl, [], ◌∷◌}
use cfglib.Horn.Stored.{
  Stored, loaded, refused, any_past, count_mentions, same_list, compare_bodies, try_from, tables,
}
use cfglib.Horn.Stored.Accepts.{Stands, try_from-Stands}

-- The clauses `0` and `2 <- 0 & 1 & 1`.
abbrev sound : Stored
sound = record {
  fact_count = 3;
  heads = 0 ∷ 2 ∷ [];
  body_lens = 0 ∷ 3 ∷ [];
  dependents = (1 ∷ []) ∷ (1 ∷ 1 ∷ []) ∷ [] ∷ [];
}

loads : try_from sound ≡ loaded (tables sound)
unfolding try_from any_past compare_bodies count_mentions same_list
loads = refl

too_long :
    try_from (record sound { body_lens = 0 ∷ 4 ∷ [] })
    ≡ refused "a clause body disagrees with the facts that list it"
unfolding try_from any_past compare_bodies count_mentions same_list
too_long = refl

missing_clause :
    try_from (record sound { dependents = (5 ∷ []) ∷ (1 ∷ 1 ∷ []) ∷ [] ∷ [] })
    ≡ refused "a dependents row names a clause that does not exist"
unfolding try_from any_past compare_bodies count_mentions
missing_clause = refl

try_from-Stands_example :
    Stands sound × (try_from sound ≡ loaded (tables sound))
    ⊎ ¬ (Stands sound) × (text : String) × (try_from sound ≡ refused text)
try_from-Stands_example = try_from-Stands sound

-- ===== src/Builder/Build.antt =====
-- The end of the structured builder of crates/cfglib/src/builder.rs: what is done when the instructions
-- are used up, and `build`.
use cfglib.Prelude
use cfglib.Prelude.{
  ℕ, zero, suc, List, [], ◌∷◌, Bool, true, false, not, Option, none, some, Result, length,
  if◌then◌else◌, ◌==◌,
}
use cfglib.Cfg
use cfglib.Cfg.{Cfg}
use cfglib.Cfg.Block
use cfglib.Builder.{BuildState, start, process}
use cfglib.Builder.Flow.{FlowEffect}
use cfglib.Builder.Outcome.{BuildError, Attempt, ok, err, ◌>>=◌, call}

-- `iter.last()`
unfoldable pub last {ω} : {A : Type ω} → List A → Option A
last [] = none
last (x ∷ []) = some x
last (x ∷ y ∷ ys) = last (y ∷ ys)

module _ {ℓ ω} {W : Type ω} {I : Type ℓ} where
  -- `cfg.incoming(id).next().is_some()`
  unfoldable pub has_incoming : Cfg W I (Unit {0}) → ℕ → Result Bool
  has_incoming cfg id =
      Prelude.◌>>=◌ (Cfg.incoming cfg id)
        λ edges. Prelude.ok (elim edges [ [] ↦ false | _ ∷ _ ↦ true ])

  -- Whether the loop of `trim_trailing_empty` stops at a block; the tests are made in order, and the
  -- later ones only if the earlier fail.
  unfoldable pub stops_at : Cfg W I (Unit {0}) → ℕ → Result Bool
  stops_at cfg id =
      if id == cfg.entry
      then Prelude.ok true
      else (Prelude.◌>>=◌ (Cfg.block cfg id)
          λ block. if not (Block.is_empty block) then Prelude.ok true else has_incoming cfg id)

  -- `trim_trailing_empty`, on fuel.
  unfoldable pub trim_loop : ℕ → Cfg W I (Unit {0}) → Result (Cfg W I (Unit {0}))
  trim_loop zero cfg = Prelude.out_of_fuel
  trim_loop (suc fuel) cfg = elim (last (Cfg.block_ids cfg)) [
    | none ↦ Prelude.ok cfg
    | some id ↦ Prelude.◌>>=◌ (stops_at cfg id) λ stop. elim stop [
      | true ↦ Prelude.ok cfg
      | false ↦ Prelude.◌>>=◌ (Cfg.remove_block cfg id) λ removed. trim_loop fuel removed.0
    ]
  ]

  -- One round for each block, and one to stop.
  unfoldable pub trim_trailing_empty : Cfg W I (Unit {0}) → Result (Cfg W I (Unit {0}))
  trim_trailing_empty cfg = trim_loop (suc (Cfg.block_count cfg)) cfg

  unfoldable pub finish : BuildState W I → Attempt (Cfg W I (Unit {0}))
  finish s = elim s.scopes [
    | [] ↦ call (trim_trailing_empty s.cfg)
    | scope ∷ scopes ↦ err (BuildError.unclosed_scopes (length (scope ∷ scopes)))
  ]

  -- The loop of `build`, over the instructions that are left.
  unfoldable pub process_all : (I → FlowEffect) → BuildState W I → List I → Attempt (BuildState W I)
  process_all flow_effect s [] = ok s
  process_all flow_effect s (inst ∷ insts) =
      process s (flow_effect inst) inst >>= λ s. process_all flow_effect s insts

  unfoldable pub build : (I → FlowEffect) → List I → Attempt (Cfg W I (Unit {0}))
  build flow_effect insts = do s ← call start; s ← process_all flow_effect s insts; finish s

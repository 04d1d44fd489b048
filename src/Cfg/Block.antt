-- ===== src/Cfg/Block.antt =====
-- Basic blocks, crates/cfglib/src/block.rs.
use Prim.Native.String.{String}
use cfglib.Prelude.{List, [], ◌∷◌, ◌++◌, Bool, true, false, Option, none, some}

pub record BasicBlock {ℓ} (I : Type ℓ) : Type ℓ where
  pub instructions : List I
  pub label : Option String

module _ {ℓ} {I : Type ℓ} where
  unfoldable pub new : BasicBlock I
  new = record { instructions = []; label = none }

  unfoldable pub is_empty : BasicBlock I → Bool
  is_empty b = elim b.instructions [ [] ↦ true | _ ∷ _ ↦ false ]

  -- Returns the block after the write.
  unfoldable pub push : I → BasicBlock I → BasicBlock I
  push inst b = record b { instructions = b.instructions ++ inst ∷ [] }

  unfoldable pub set_label : String → BasicBlock I → BasicBlock I
  set_label label b = record b { label = some label }

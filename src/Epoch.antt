-- ===== src/Epoch.antt =====
-- Marks that are forgotten all at once, crates/cfglib/src/graph/epoch.rs: a node is marked if its stamp is
-- the current epoch, a `u32`, so that a reset only counts the epoch up, and wipes the stamps when the
-- count is at its end.
pub mod Sets
pub mod Served
mod Tests
use cfglib.Prelude.{
  ℕ, ◌+◌, ◌-◌, List, [], ◌∷◌, ◌++◌, Bool, true, false, length, set, replicate, ltb, ◌==◌,
  if◌then◌else◌, Result, ok, ◌>>=◌, ◌>>◌, read, assert,
}

-- `u32::MAX`
abbrev pub max_epoch : ℕ
max_epoch = 4294967295

pub record EpochMarks : Type 0 where
  pub stamps : List ℕ
  pub epoch : ℕ

-- The source's `EpochMarks::new` and its methods.
unfoldable pub new_marks : ℕ → EpochMarks
new_marks node_count = record { stamps = replicate node_count 0; epoch = 1 }

unfoldable pub capacity : EpochMarks → ℕ
capacity m = length m.stamps

unfoldable pub reset : EpochMarks → EpochMarks
reset m =
    if m.epoch == max_epoch
    then record { stamps = replicate (length m.stamps) 0; epoch = 1 }
    else record m { epoch = m.epoch + 1 }

unfoldable pub grow_to : ℕ → EpochMarks → EpochMarks
grow_to node_count m =
    if ltb (length m.stamps) node_count
    then record m { stamps = m.stamps ++ replicate (node_count - length m.stamps) 0 }
    else m

-- `stamps[index]`, read and written.
unfoldable pub is_marked : EpochMarks → ℕ → Result Bool
is_marked m index = do stamp ← read m.stamps index; ok (stamp == m.epoch)

unfoldable pub mark : EpochMarks → ℕ → Result EpochMarks
mark m index = do
  assert (ltb index (length m.stamps))
  ok (record m { stamps = set m.stamps index m.epoch })

unfoldable pub unmark : EpochMarks → ℕ → Result EpochMarks
unmark m index = do
  assert (ltb index (length m.stamps))
  ok (record m { stamps = set m.stamps index 0 })

pub record EpochSet : Type 0 where
  pub marks : EpochMarks
  pub members : List ℕ

unfoldable pub new : ℕ → EpochSet
unfolding new_marks
new len = record { marks = new_marks len; members = [] }

unfoldable pub clear : EpochSet → EpochSet
clear s = record { marks = reset s.marks; members = [] }

-- Returns the set and whether the index was not in it.
unfoldable pub insert : EpochSet → ℕ → Result (EpochSet × Bool)
insert s index = do
  assert (ltb index (capacity s.marks))
  marked ← is_marked s.marks index
  if marked then ok (s, false) else (do
    marks ← mark s.marks index
    ok (record { marks = marks; members = s.members ++ index ∷ [] }, true))

unfoldable pub contains : EpochSet → ℕ → Result Bool
contains s index = do assert (ltb index (capacity s.marks)); is_marked s.marks index

unfoldable pub ones : EpochSet → List ℕ
ones s = s.members

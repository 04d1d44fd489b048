-- ===== src/Store/Chains.antt =====
-- The incremental half of the adjacency, `DeltaChains` of
-- crates/cfglib/src/graph/store/adjacency.rs: a circular chain of delta edges for each node and
-- direction, entered at its last element.
pub mod Ring
pub mod Thread
pub mod Append
pub mod Refine
use cfglib.Prelude.{
  ℕ, zero, suc, ◌+◌, ◌-◌, ◌^◌, List, [], ◌∷◌, ◌++◌, Bool, length, get_elem?, set, replicate, ltb,
  leb, ◌==◌, if◌then◌else◌, Option, none, some, Result, ok, panic, out_of_fuel, ◌>>=◌, ◌>>◌, read,
  assert,
}

-- Which adjacency of a node is meant; crates/cfglib/src/graph/traverse.rs.
pub data Direction : Type 0 where
  outgoing incoming : Direction

-- `u32::MAX` stands for no link, so one slot fewer than `2 ^ 32` can be addressed.
abbrev pub no_link : ℕ
no_link = 2 ^ 32 - 1

abbrev pub max_slots : ℕ
max_slots = no_link

-- `[u32; 2]`, one link for each direction.
pub record Links : Type 0 where
  pub out_link : ℕ
  pub in_link : ℕ

abbrev pub unlinked : Links
unlinked = record { out_link = no_link; in_link = no_link }

-- `links[chain_of(direction)]`
abbrev pub link : Links → Direction → ℕ
link l outgoing = l.out_link
link l incoming = l.in_link

abbrev pub with_link : Links → Direction → ℕ → Links
with_link l outgoing e = record l { out_link = e }
with_link l incoming e = record l { in_link = e }

pub record DeltaChains : Type 0 where
  pub last : List Links
  pub next : List Links

unfoldable pub new : DeltaChains
new = record { last = []; next = [] }

-- `links[i][chain] = e`
unfoldable pub write_link : List Links → ℕ → Direction → ℕ → Result (List Links)
write_link links i dir e = do old ← read links i; ok (set links i (with_link old dir e))

-- `resize(nodes, UNLINKED)`, called only to grow.
unfoldable pub materialize : List Links → ℕ → List Links
materialize last nodes = last ++ replicate (nodes - length last) unlinked

-- The old first edge, and the array with the old last edge linked to the appended one.
unfoldable pub relink : List Links → Direction → ℕ → ℕ → Result (List Links × ℕ)
relink next dir last appended = do
  old ← read next last
  next ← write_link next last dir appended
  ok (next, link old dir)

-- What the appended edge links to, and the array with the chain opened for it.
unfoldable pub splice : List Links → Direction → ℕ → ℕ → Result (List Links × ℕ)
splice next dir last appended =
    if last == no_link then ok (next, appended) else relink next dir last appended

unfoldable pub thread : DeltaChains → ℕ → Direction → ℕ → Result DeltaChains
thread c node dir appended = do
  links ← read c.last node
  (next, first) ← splice c.next dir (link links dir) appended
  next ← write_link next appended dir first
  last ← write_link c.last node dir appended
  ok (record { last = last; next = next })

-- Room for one edge more: a slot for each of the `nodes` nodes, and a new link record.
unfoldable pub opened : DeltaChains → ℕ → DeltaChains
opened c nodes = record {
  last = if ltb (length c.last) nodes then materialize c.last nodes else c.last;
  next = c.next ++ unlinked ∷ [];
}

-- `nodes` is the node bound of the store.
unfoldable pub append : DeltaChains → ℕ → ℕ → ℕ → Result DeltaChains
append c source target nodes = do
  let appended = length c.next
  assert (ltb appended (2 ^ 32))
  c ← thread (opened c nodes) source outgoing appended
  thread c target incoming appended

unfoldable pub ring_ends : DeltaChains → Direction → ℕ → Result (Option (ℕ × ℕ))
ring_ends c dir last = do after ← read c.next last; ok (some (link after dir, last))

-- The first and the last edge of a chain. A slot that is absent reads as an empty chain.
unfoldable pub ends : DeltaChains → ℕ → Direction → Result (Option (ℕ × ℕ))
ends c node dir = elim (get_elem? c.last node) [
  | none ↦ ok none
  | some links ↦ if link links dir == no_link then ok none else ring_ends c dir (link links dir)
]

unfoldable pub detach_node : DeltaChains → ℕ → Direction → DeltaChains
detach_node c node dir = elim (get_elem? c.last node) [
  | none ↦ c
  | some links ↦ record c { last = set c.last node (with_link links dir no_link) }
]

-- Both arrays are released.
unfoldable pub reset : DeltaChains → DeltaChains
reset c = new

-- ===== src/Cfg/Protection.antt =====
-- The exception regions of a control-flow graph: crates/cfglib/src/cfg/regions.rs, and the index
-- `RegionIndex` of crates/cfglib/src/region.rs.
pub mod Innermost
pub mod Removal
pub mod Unreachable
mod Tests
use mathlib.Core.List.{reverse}
use cfglib.Prelude.{
  ℕ, suc, ◌+◌, ◌^◌, List, [], ◌∷◌, ◌++◌, map, Bool, true, false, not, ◌&&◌, length, get_elem?, set,
  replicate, elem, ltb, ◌==◌, if◌then◌else◌, Option, none, some, Result, ok, ◌>>=◌, ◌>>◌, assert,
}
use cfglib.Marks.{flag}
use cfglib.View
use cfglib.Traverse.{reachable}
use cfglib.Store.Graph.{node_bound}
use cfglib.Store.Viewed.{to_view}
use cfglib.Cfg.{Cfg}
use cfglib.Cfg.Regions.{Region, Handler, HandlerBody, HandlerRef, Cleanup}

-- What `remove_region` leaves behind.
abbrev pub tombstone : ℕ → Region
tombstone id = record { id = id; protected_blocks = []; handlers = []; parent = none }

-- `self.cleanups.retain(|cleanup| cleanup.handler.region() != id)`
unfoldable pub retain_others : ℕ → List Cleanup → List Cleanup
retain_others id [] = []
retain_others id (cleanup ∷ cleanups) =
    if not (cleanup.handler.region == id)
    then cleanup ∷ retain_others id cleanups
    else retain_others id cleanups

-- The regions that protect a block, the first of them.
unfoldable pub find_protecting : ℕ → List Region → Option Region
find_protecting block [] = none
find_protecting block (r ∷ regions) =
    if elem block r.protected_blocks then some r else find_protecting block regions

-- `handlers.iter().all(..)`: no handler entry is marked.
unfoldable pub all_unreached : List Bool → List Handler → Bool
all_unreached reachable [] = true
all_unreached reachable (handler ∷ handlers) =
    not (flag reachable handler.entry) && all_unreached reachable handlers

unfoldable pub is_doomed : List Bool → Region → Bool
is_doomed reachable r = elim r.handlers [
  | [] ↦ false
  | handler ∷ handlers ↦ all_unreached reachable (handler ∷ handlers)
]

unfoldable pub doomed : List Bool → List Region → List ℕ
doomed reachable [] = []
doomed reachable (r ∷ regions) =
    if is_doomed reachable r then r.id ∷ doomed reachable regions else doomed reachable regions

-- A set of blocks is the ascending list of its members.
unfoldable pub insert_block : ℕ → List ℕ → List ℕ
insert_block block [] = block ∷ []
insert_block block (b ∷ blocks) =
    if ltb block b
    then block ∷ b ∷ blocks
    else if block == b
    then b ∷ blocks
    else b ∷ insert_block block blocks

-- `if blocks.contains(&head) { blocks.insert(tail); }`
unfoldable pub extend_blocks : ℕ → ℕ → List ℕ → List ℕ
extend_blocks head tail blocks = if elem head blocks then insert_block tail blocks else blocks

unfoldable pub extend_body : ℕ → ℕ → HandlerBody → HandlerBody
extend_body head tail HandlerBody.unknown = HandlerBody.unknown
extend_body head tail (HandlerBody.known blocks) =
    HandlerBody.known (extend_blocks head tail blocks)

unfoldable pub extend_handler : ℕ → ℕ → Handler → Handler
extend_handler head tail handler = record handler { body = extend_body head tail handler.body }

unfoldable pub extend_region : ℕ → ℕ → Region → Region
extend_region head tail r = record r {
  protected_blocks = extend_blocks head tail r.protected_blocks;
  handlers = map (extend_handler head tail) r.handlers;
}

-- `if cleanup.resume_from == Some(head) { cleanup.resume_from = Some(tail); }`
unfoldable pub extend_resume : ℕ → ℕ → Option ℕ → Option ℕ
extend_resume head tail none = none
extend_resume head tail (some block) = if block == head then some tail else some block

unfoldable pub extend_cleanup : ℕ → ℕ → Cleanup → Cleanup
extend_cleanup head tail cleanup = record cleanup {
  resume_from = extend_resume head tail cleanup.resume_from;
}

-- `RegionIndex`
pub record RegionIndex : Type 0 where
  pub innermost : List (Option ℕ)

-- The inner loop of `compute`; a block past the end has no slot.
unfoldable pub cover : ℕ → List ℕ → List (Option ℕ) → List (Option ℕ)
cover id [] innermost = innermost
cover id (block ∷ blocks) innermost = cover id blocks (set innermost block (some id))

unfoldable pub cover_all : List Region → List (Option ℕ) → List (Option ℕ)
cover_all [] innermost = innermost
cover_all (r ∷ regions) innermost = cover_all regions (cover r.id r.protected_blocks innermost)

-- `self.innermost.get(block.index()).copied().flatten()`
unfoldable pub protecting : RegionIndex → ℕ → Option ℕ
protecting index block = elim (get_elem? index.innermost block) [ none ↦ none | some slot ↦ slot ]

module _ {ℓ κ ω} {W : Type ω} {I : Type ℓ} {E : Type κ} where
  unfoldable pub region : Cfg W I E → ℕ → Option Region
  region cfg id = get_elem? cfg.regions id

  -- `region_mut` lends the region; the borrower writes it by `write`.
  unfoldable pub region_mut : Cfg W I E → ℕ → (Region → Region) → Option (Cfg W I E)
  region_mut cfg id write = elim (get_elem? cfg.regions id) [
    | none ↦ none
    | some r ↦ some (record cfg { regions = set cfg.regions id (write r) })
  ]

  unfoldable pub handler : Cfg W I E → HandlerRef → Option Handler
  handler cfg h = elim (region cfg h.region) [
    | none ↦ none
    | some r ↦ get_elem? r.handlers h.handler
  ]

  -- `handler_mut` lends the handler; the borrower writes it by `write`.
  unfoldable pub handler_mut : Cfg W I E → HandlerRef → (Handler → Handler) → Option (Cfg W I E)
  handler_mut cfg h write = elim (region cfg h.region) [
    | none ↦ none
    | some r ↦ elim (get_elem? r.handlers h.handler) [
      | none ↦ none
      | some lent ↦
          let handlers = set r.handlers h.handler (write lent) in
          some
            (record cfg { regions = set cfg.regions h.region (record r { handlers = handlers }) })
    ]
  ]

  -- Returns the graph and the removed region, if there is one.
  unfoldable pub remove_region : Cfg W I E → ℕ → Cfg W I E × Option Region
  remove_region cfg id = elim (get_elem? cfg.regions id) [
    | none ↦ (cfg, none)
    | some removed ↦ (
      record cfg {
        regions = set cfg.regions id (tombstone id);
        cleanups = retain_others id cfg.cleanups;
      },
      some removed,
    )
  ]

  unfoldable pub remove_regions : Cfg W I E → List ℕ → Cfg W I E
  remove_regions cfg [] = cfg
  remove_regions cfg (id ∷ ids) = remove_regions (remove_region cfg id).0 ids

  unfoldable pub remove_unreachable_regions : Cfg W I E → Result (Cfg W I E × ℕ)
  remove_unreachable_regions cfg = do
    reachable ← reachable (to_view cfg.graph) (cfg.entry ∷ []) View.outgoing
    let ids = doomed reachable cfg.regions
    ok (remove_regions cfg ids, length ids)

  -- A region identity is a 32-bit number.
  unfoldable pub add_region : Cfg W I E → Region → Result (Cfg W I E × ℕ)
  add_region cfg r = do
    let id = length cfg.regions
    assert (ltb id (2 ^ 32))
    ok (record cfg { regions = cfg.regions ++ record r { id = id } ∷ [] }, id)

  unfoldable pub protecting_region : Cfg W I E → ℕ → Option Region
  protecting_region cfg block = find_protecting block (reverse cfg.regions)

  unfoldable pub extend_exception_metadata_to_tail : Cfg W I E → ℕ → ℕ → Cfg W I E
  extend_exception_metadata_to_tail cfg head tail = record cfg {
    regions = map (extend_region head tail) cfg.regions;
    cleanups = map (extend_cleanup head tail) cfg.cleanups;
  }

  unfoldable pub compute : Cfg W I E → RegionIndex
  compute cfg = record { innermost = cover_all cfg.regions (replicate (node_bound cfg.graph) none) }
